-- ===== src/Records/Coordinator/Stands.antt =====
-- Where `check_status`, `validate_terminal` and `validate_history_position` of
-- afk_records/coordinator.py leave a checkpoint.
use mathlib.Core.List.{reverse, reverse_aux}
use afk_pipeline.Prelude.{
  All, ℕ, ◌+◌, suc, pos, Bool, true, false, not, ◌&&◌, ◌||◌, Option, none, some, List, [], ◌∷◌, ◌≡◌,
  ◌⊎◌, ap, ◌∙◌, subst, ◌==◌, if◌then◌else◌, arith, Bool-cases, inl, inr, &&-true, ==_iff,
}
use afk_pipeline.Py.Value.{Value, Fields, null, int, str, is_text, is_null, py_eq}
use afk_pipeline.Py.Read.{index}
use afk_pipeline.Py.Result.{Result, ok, err, >>=-returns}
use afk_pipeline.Py.Shape.{at}
use afk_pipeline.Py.Facts.{is_text-str, require-then, require-true, is_null-null, taken, not_taken}
use afk_pipeline.Records.Coordinator.Topology.{Component, name_of, invalid}
use afk_pipeline.Records.Coordinator.Sources.{expected_input_sources}
use afk_pipeline.Records.Coordinator.Terminal.{validate_terminal, validate_terminal_history}
use afk_pipeline.Records.Coordinator.Checkpoint.{
  sequence_of, length_of, Position, check_status, history_of, check_idle_position,
  check_active_position, is_expected, check_inputs,
}
use afk_pipeline.Records.Coordinator.Run.{IsNext, Run}
use afk_pipeline.Records.Coordinator.Valid.{IsValid, sequence_of-int}

-- where a checkpoint with this history stands, when the run expects this component
pub data Stands (status next_component active terminal : Value) (next_sequence : ℕ)
    (history : List Value) : Option Component → Type 0 where
  waiting :
      {c : Component}
      → status ≡ str "running"
      → active ≡ null
      → terminal ≡ null
      → next_component ≡ str (name_of c)
      → next_sequence ≡ suc (length_of history)
      → Stands status next_component active terminal next_sequence history (some c)
  working :
      {c : Component}
      → status ≡ str "running"
      → IsNext c (reverse history) active
      → terminal ≡ null
      → next_component ≡ str (name_of c)
      → next_sequence ≡ suc (suc (length_of history))
      → Stands status next_component active terminal next_sequence history (some c)
  ended :
      {expected : Option Component}
      → (status ≡ str "completed") ⊎ (status ≡ str "failed")
      → active ≡ null
      → next_component ≡ null
      → validate_terminal status terminal ≡ ok tt
      → validate_terminal_history status terminal (reverse history) ≡ ok tt
      → next_sequence ≡ suc (length_of history)
      → Stands status next_component active terminal next_sequence history expected

pub record IsCheckpoint (state : Fields) : Type 0 where
  pub history : List Value
  pub own_history : history_of (at state "history") ≡ ok history
  pub next_sequence : ℕ
  pub own_sequence : at state "next_sequence" ≡ int (pos next_sequence)
  pub valid : All IsValid history
  pub expected : Option Component
  pub run : Run (reverse history) expected
  pub stands :
      Stands
        (at state "status")
        (at state "next_component")
        (at state "active_invocation")
        (at state "terminal")
        next_sequence
        history
        expected

pub length-reverse_aux :
    (xs ys : List Value) → length_of (reverse_aux xs ys) ≡ length_of xs + length_of ys
length-reverse_aux [] ys = omega arith
length-reverse_aux (x ∷ xs) ys = omega (arith, length-reverse_aux xs (x ∷ ys))

not-false : (b : Bool) → not b ≡ true → b ≡ false
not-false b h = ground arith

module _ (status component active terminal : Value) (sequence : ℕ) (history : List Value) where
  abbrev pub Standing : Option Component → Type 0
  Standing = Stands status component active terminal sequence history

  -- an idle checkpoint of a run that goes on
  idle-Stands :
      (expected : Option Component)
      → status ≡ str "running"
      → active ≡ null
      → terminal ≡ null
      → is_null component ≡ false
      → is_expected component expected ≡ true
      → sequence ≡ suc (length_of history)
      → Standing expected
  idle-Stands none s a t c e n = cc
  idle-Stands (some c) s a t d e n = Stands.waiting s a t (is_text-str component (name_of c) e) n

  active-Stands :
      (expected : Option Component) (prior : List Value)
      → prior ≡ reverse history
      → status ≡ str "running"
      → terminal ≡ null
      → is_null component ≡ false
      → check_active_position component active sequence (expected, prior) ≡ ok tt
      → Standing expected
  unfolding check_active_position
  active-Stands none prior same s t c q0 =
      let (own, e1, q1) = >>=-returns (sequence_of active) _ q0 in
      let (mine, e2, q2) = >>=-returns (index active "component") _ q1 in
      let (here, q3) =
        require-then invalid (own == suc (length_of prior) && is_expected mine none) _ q2 in
      let (inputs, e4, q4) = >>=-returns (index active "input_from") _ q3 in absurd (fails q4)
    where
      fails : ◌≡◌ {A = Result (Unit {0})} (err invalid) (ok tt) → ⊥
      fails q = cc
  active-Stands (some c) prior same s t d q0 =
      let (own, e1, q1) = >>=-returns (sequence_of active) _ q0 in
      let (mine, e2, q2) = >>=-returns (index active "component") _ q1 in
      let (here, q3) =
        require-then invalid (own == suc (length_of prior) && is_text mine (name_of c)) _ q2 in
      let (inputs, e4, q4) = >>=-returns (index active "input_from") _ q3 in
      let (u, e5, q5) = >>=-returns (check_inputs inputs (some c) prior) _ q4 in
      let (sources, e6, q6) = >>=-returns (expected_input_sources c prior) _ e5 in
      let fits = require-true invalid (py_eq inputs sources) q6 in
      let last = require-true invalid (sequence == suc own && is_text component (name_of c)) q5 in
      let (at_own, named) = &&-true _ _ here in
      let (at_next, next_named) = &&-true _ _ last in
      let number = (==_iff own (suc (length_of prior))).0 at_own in
      let is_next : IsNext c prior active = record {
        own_number = sequence_of-int active own e1 ∙ ap (λ k. ok (int (pos k))) number;
        own_component = e2 ∙ ap ok (is_text-str mine (name_of c) named);
        inputs = inputs;
        own_inputs = e4;
        sources = sources;
        left = e6;
        same = fits;
      } in
      let long = length-reverse_aux history [] in
      let count = ap length_of same in
      let next_number = (==_iff sequence (suc own)).0 at_next in
      Stands.working s (subst (λ p. IsNext c p active) same is_next) t
        (is_text-str component (name_of c) next_named) (omega arith)

  check_running :
      is_text status "running" ≡ true
      → check_status status component active terminal ≡ ok tt
      → (is_null component ≡ false) × (terminal ≡ null)
  check_running s given =
      let both = taken (is_text status "running") _ _ s (require-true invalid _ given) in
      let (some_component, none_left) = &&-true (not (is_null component)) (is_null terminal) both in
      (not-false _ some_component, is_null-null terminal none_left)

  pub check_over :
      is_text status "running" ≡ false
      → check_status status component active terminal ≡ ok tt
      → (active ≡ null) × (component ≡ null)
  check_over s given =
      let both = not_taken (is_text status "running") _ _ s (require-true invalid _ given) in
      let (idle, over) = &&-true (is_null active) (is_null component) both in
      (is_null-null active idle, is_null-null component over)

  abbrev pub placed : Position → Result (Unit {0})
  placed p =
      if is_null active
      then check_idle_position status component sequence p
      else check_active_position component active sequence p

  pub numbered :
      (prior : List Value)
      → prior ≡ reverse history
      → sequence == suc (length_of prior) ≡ true
      → sequence ≡ suc (length_of history)
  numbered prior same e =
      let long = length-reverse_aux history [] in
      let count = ap length_of same in
      let at = (==_iff sequence (suc (length_of prior))).0 e in omega arith

  pub running-Stands :
      (expected : Option Component) (prior : List Value)
      → prior ≡ reverse history
      → is_text status "running" ≡ true
      → check_status status component active terminal ≡ ok tt
      → placed (expected, prior) ≡ ok tt
      → Standing expected
  unfolding check_idle_position
  running-Stands expected prior same s given q =
      let (some_component, no_terminal) = check_running s given in
      let running = is_text-str status "running" s in
      elim (Bool-cases (is_null active)) [
        | inl a ↦
            let test = require-true invalid _ (taken (is_null active) _ _ a q) in
            let (count, fits) = &&-true (sequence == suc (length_of prior)) _ test in
            idle-Stands expected running (is_null-null active a) no_terminal some_component
              (only (is_text status "running") (is_expected component expected) s fits)
              (numbered prior same count)
        | inr a ↦
            active-Stands expected prior same running no_terminal some_component
              (not_taken (is_null active) _ _ a q)
      ]
    where
      only : (a b : Bool) → a ≡ true → (not a || b) ≡ true → b ≡ true
      only a b h e = ground arith

  pub over-Stands :
      (expected : Option Component) (prior : List Value)
      → prior ≡ reverse history
      → (status ≡ str "completed") ⊎ (status ≡ str "failed")
      → is_text status "running" ≡ false
      → check_status status component active terminal ≡ ok tt
      → validate_terminal status terminal ≡ ok tt
      → validate_terminal_history status terminal (reverse history) ≡ ok tt
      → placed (expected, prior) ≡ ok tt
      → Standing expected
  unfolding check_idle_position
  over-Stands expected prior same which s given t th q =
      let (idle, over) = check_over s given in
      let test = require-true invalid _ (taken (is_null active) _ _ (ap is_null idle) q) in
      let (count, fits) = &&-true (sequence == suc (length_of prior)) _ test in
      Stands.ended which idle over t th (numbered prior same count)
