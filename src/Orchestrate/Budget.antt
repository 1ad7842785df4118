-- ===== src/Orchestrate/Budget.antt =====
-- The repair limit of a run in afk_orchestrate/driver.py.
use afk_pipeline.Prelude.{
  String, ℕ, ◌+◌, ◌≤◌, ℤ, pos, negsuc, Bool, true, false, Option, none, some, List, ◌≡◌, inl, inr,
  refl, arith, Bool-cases,
}
use afk_pipeline.Py.Result.{Result, ok, err, value_error}
use afk_pipeline.Py.Action.{◌>>=◌}
use afk_pipeline.Py.Action.Keeps.{Keeps, Keeps-modify, keeps_rules}
use afk_pipeline.Orchestrate.State.{World, Machine, Event, log_event, record_event, move_to}
use afk_pipeline.Orchestrate.Commands.{invoke}
use afk_pipeline.Orchestrate.Step.{step}
use afk_pipeline.Orchestrate.Run.{
  resume, resume_state, resume_from, kept, allowed, is_some, extend_budget, set_running,
}
use afk_pipeline.Orchestrate.Moves.{Move, step-Keeps}
use afk_pipeline.Orchestrate.Reach.{Reach, here, stepped, resumed, added_by}

-- The limit is `limit`, and the repairs made are within it.
pub record IsWithin (limit : ℕ) (m : Machine) : Type 0 where
  pub limited : m.state.max_repairs ≡ limit
  pub within : m.state.repairs ≤ limit

move-IsWithin :
    (w : World) (limit : ℕ) {m n : Machine} → Move w m n → IsWithin limit m → IsWithin limit n
unfolding log_event
move-IsWithin w limit (Move.asked m line) h = ground arith
move-IsWithin w limit (Move.answered m word) h = ground arith
move-IsWithin w limit (Move.repaired m below) h = ground arith
move-IsWithin w limit _ h = record { limited = h.limited; within = h.within }

-- A step, whatever the commands answer, keeps the repair limit and stays within it.
pub step-IsWithin :
    (w : World) (limit : ℕ) (m : Machine) → IsWithin limit m → IsWithin limit (step w m)
step-IsWithin w limit m h =
    step-Keeps w (record { move = move-IsWithin w limit })
      (λ m h. record { limited = h.limited; within = h.within })
      (λ word n m h. record { limited = h.limited; within = h.within }) m h

-- the limit and the repairs are all that `IsWithin` reads
same-IsWithin :
    (limit : ℕ) (m n : Machine)
    → IsWithin limit m
    → n.state.max_repairs ≡ m.state.max_repairs
    → n.state.repairs ≡ m.state.repairs
    → IsWithin limit n
same-IsWithin limit m n h e e' = omega arith

record_event-IsWithin :
    (w : World) (limit : ℕ) (e : Event) → Keeps (IsWithin limit) (record_event w e)
unfolding record_event ◌>>=◌ log_event
record_event-IsWithin w limit e = record { at = λ m h. ground arith }

invoke-IsWithin :
    (w : World) (limit : ℕ) (line : List String) → Keeps (IsWithin limit) (invoke w line)
unfolding invoke ◌>>=◌
invoke-IsWithin w limit line = record { at = λ m h. ground arith }

ruleset within_rules =
    (keeps_rules, record_event-IsWithin, invoke-IsWithin, Keeps-modify, same-IsWithin)

resume_from-IsWithin :
    (w : World) (limit : ℕ) (current extended : Bool)
    → Keeps (IsWithin limit) (resume_from w current extended)
unfolding resume_from move_to
resume_from-IsWithin w limit current extended = search within_rules depth 40

extend_budget-IsWithin :
    (w : World) (limit : ℕ) (added : Option ℤ) (m : Machine)
    → IsWithin limit m
    → ((extend_budget w added m).0 ≡ ok tt)
      × IsWithin (limit + added_by added) (extend_budget w added m).1
unfolding extend_budget record_event ◌>>=◌ log_event
extend_budget-IsWithin w limit none m h = (refl, ground arith)
extend_budget-IsWithin w limit (some (pos n)) m h = (refl, ground arith)
extend_budget-IsWithin w limit (some (negsuc n)) m h = (refl, ground arith)

resume_from-unwritten :
    (w : World) (current extended : Bool) (m : Machine)
    → (resume_from w current extended m).0 ≡ ok false
    → extended ≡ false
unfolding resume_from set_running record_event ◌>>=◌
resume_from-unwritten w current extended m e = ground arith

kept-IsWithin :
    (sum : ℕ) (m : Machine) (r : Result Bool × Machine) {n : Machine}
    → kept m r ≡ ok n
    → IsWithin sum r.1
    → (r.0 ≡ ok false → IsWithin sum m)
    → IsWithin sum n
kept-IsWithin sum m (ok true, m') e h k = ground arith
kept-IsWithin sum m (ok false, m') e h k = ground (arith, k refl)
kept-IsWithin sum m (err x, m') e h k = cc

resume_state-IsWithin :
    (w : World) (current : Bool) (added : Option ℤ) (limit : ℕ) (m : Machine)
    → IsWithin limit m
    → IsWithin (limit + added_by added) (resume_state w current added m).1
      × ((resume_state w current added m).0 ≡ ok false → IsWithin (limit + added_by added) m)
unfolding resume_state ◌>>=◌
resume_state-IsWithin w current added limit m h =
    let (done, h') = extend_budget-IsWithin w limit added m h in
    rw done (
      (resume_from-IsWithin w _ current (is_some added)).at _ h',
      λ e. unwritten added h (resume_from-unwritten w current (is_some added) _ e),
    )
  where
    unwritten :
        (added : Option ℤ)
        → IsWithin limit m
        → is_some added ≡ false
        → IsWithin (limit + added_by added) m
    unwritten none h e = ground arith
    unwritten (some n) h e = cc

-- A resume raises the limit by the repairs that the operator adds, and by nothing else.
resume-IsWithin :
    (w : World) (current : Bool) (added : Option ℤ) (limit : ℕ) (m : Machine) {n : Machine}
    → resume w current added false m ≡ ok n
    → IsWithin limit m
    → IsWithin (limit + added_by added) n
unfolding resume
resume-IsWithin w current added limit m e h = elim (Bool-cases (allowed added)) [
  | inl good ↦
      let (after, unwritten) = resume_state-IsWithin w current added limit m h in
      kept-IsWithin _ m (resume_state w current added m) (rw good at e) after unwritten
  | inr bad ↦ absurd (fails (rw bad at e))
]
  where
    fails : {n : Machine} → err (value_error "added repairs must be between 1 and 5") ≡ ok n → ⊥
    fails e = cc

-- Over the life of a run, whatever the commands answer, the repairs stay within the limit it was
-- created with and what the operator has added since, which is the limit in its state.
pub Reach-IsWithin :
    (w : World) (limit : ℕ) {m : Machine} {total : ℕ} {n : Machine}
    → IsWithin limit m
    → Reach w m total n
    → IsWithin (limit + total) n
Reach-IsWithin w limit h here = ground arith
Reach-IsWithin w limit h (stepped {n = n} r) = step-IsWithin w _ n (Reach-IsWithin w limit h r)
Reach-IsWithin w limit h (resumed {total = t} {n = n} current added r e sum) =
    ground (arith, resume-IsWithin w current added (limit + t) n e (Reach-IsWithin w limit h r))
