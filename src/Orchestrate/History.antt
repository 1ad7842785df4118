-- ===== src/Orchestrate/History.antt =====
-- What a step of afk_orchestrate/driver.py leaves as it was: the identity of the run, from which its
-- action IDs are made, and the events and command lines so far, to which it only adds.
use mathlib.Core.List.{append-nil, append_assoc}
use afk_pipeline.Prelude.{
  String, ◌≤◌, Bool, true, false, Option, none, some, List, [], ◌∷◌, ◌++◌, ◌≡◌, refl, sym, ◌∙◌, ap,
  arith, str_eq, if◌then◌else◌,
}
use afk_pipeline.Orchestrate.State.{World, Machine, with_state, log_event}
use afk_pipeline.Orchestrate.Commands.{clear_if}
use afk_pipeline.Orchestrate.Step.{step}
use afk_pipeline.Orchestrate.Moves.{Move, step-Keeps}

-- `xs` continues `ys`
abbrev pub Extends {ℓ} : {A : Type ℓ} → List A → List A → Type ℓ
Extends {A = A} ys xs = (more : List A) × (xs ≡ ys ++ more)

Extends-snoc {ℓ} :
    {A : Type ℓ} (ys : List A) {xs : List A} (x : A) → Extends ys xs → Extends ys (xs ++ x ∷ [])
Extends-snoc ys x (more, e) =
    (more ++ x ∷ [], ap (λ l. l ++ x ∷ []) e ∙ append_assoc ys more (x ∷ []))

pub record Continues (s : Machine) (m : Machine) : Type 0 where
  pub id : m.state.id ≡ s.state.id
  pub bead_id : m.state.bead_id ≡ s.state.bead_id
  pub config : m.state.config ≡ s.state.config
  pub created_at : m.state.created_at ≡ s.state.created_at
  pub generation : m.state.generation ≡ s.state.generation
  pub repairs : s.state.repairs ≤ m.state.repairs
  pub events : Extends s.state.events m.state.events
  pub calls : Extends s.calls m.calls

module _ (w : World) (s : Machine) where
  cleared-Continues :
      (m : Machine) (word : String) (b : Bool)
      → Continues s m
      → Continues s
          (with_state (λ t. if b then record t { failures = 0; failing_command = none } else t) m)
  cleared-Continues m word true h = assumption
  cleared-Continues m word false h = assumption

  answered-Continues :
      (m : Machine) (word : String) (failing : Option String)
      → Continues s m
      → Continues s (with_state (clear_if failing word) m)
  answered-Continues m word none h = h
  answered-Continues m word (some c) h = cleared-Continues m word (str_eq c word) h

  move-Continues : {m n : Machine} → Move w m n → Continues s m → Continues s n
  unfolding log_event
  move-Continues (Move.asked m line) h = record {
    id = h.id;
    bead_id = h.bead_id;
    config = h.config;
    created_at = h.created_at;
    generation = h.generation;
    repairs = h.repairs;
    events = h.events;
    calls = Extends-snoc s.calls line h.calls;
  }
  move-Continues (Move.logged m e) h = record {
    id = h.id;
    bead_id = h.bead_id;
    config = h.config;
    created_at = h.created_at;
    generation = h.generation;
    repairs = h.repairs;
    calls = h.calls;
    events = Extends-snoc s.state.events _ h.events;
  }
  move-Continues (Move.answered m word) h = answered-Continues m word m.state.failing_command h
  move-Continues (Move.repaired m below) h = record {
    id = h.id;
    bead_id = h.bead_id;
    config = h.config;
    created_at = h.created_at;
    generation = h.generation;
    events = h.events;
    calls = h.calls;
    repairs = omega arith;
  }
  move-Continues _ h = record {
    id = h.id;
    bead_id = h.bead_id;
    config = h.config;
    created_at = h.created_at;
    generation = h.generation;
    repairs = h.repairs;
    events = h.events;
    calls = h.calls;
  }

-- A step changes no part of the run's identity and no earlier event or command line, and takes back
-- no repair.
pub step-Continues : (w : World) (m : Machine) → Continues m (step w m)
step-Continues w m =
    step-Keeps w (record { move = move-Continues w m }) (λ n h. assumption)
      (λ word k n h. assumption) m
      (record {
        id = refl;
        bead_id = refl;
        config = refl;
        created_at = refl;
        generation = refl;
        repairs = omega arith;
        events = ([], sym (append-nil _));
        calls = ([], sym (append-nil _));
      })
