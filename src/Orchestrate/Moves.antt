-- ===== src/Orchestrate/Moves.antt =====
-- Every change that `step` of afk_orchestrate/driver.py makes to its machine, as a step relation, and
-- a rule: what all of these changes keep, the whole step keeps.
use afk_pipeline.Prelude.{
  String, ℕ, ◌+◌, ◌<◌, Bool, true, false, inl, inr, Option, none, some, List, [], ◌∷◌, ◌++◌, ◌≡◌,
  refl, arith, Bool-cases, leb,
}
use afk_pipeline.Py.Value.{Value, null, str}
use afk_pipeline.Py.Result.{Exc, command_failure}
use afk_pipeline.Py.Action.{◌>>=◌}
use afk_pipeline.Py.Action.Keeps.{Keeps, Keeps-try, Keeps-modify, Keeps-pure, keeps_rules}
use afk_pipeline.Orchestrate.State.{
  World, Machine, Driver, Status, paused, running, ready_for_merge, Stage, creation_submit,
  creation_wait, review_submit, response_submit, review_wait, response_wait, other, Details, Event,
  with_state, log_event, update, nothing, record_event, move_to, pause_run, request_repair,
}
use afk_pipeline.Orchestrate.Commands.{invoke, command, clear_if}
use afk_pipeline.Orchestrate.Selected.{take_item, judge, selected}
use afk_pipeline.Orchestrate.Step.{on_status, command_failed, recover, advance_stage, step}
use afk_pipeline.Orchestrate.Step.Stages.{
  set_url, creation_started, submit_creation, adopt_candidate, on_observation, creation_done,
  creation_phase, wait_creation, submit, review_finished, judge_review, wait_job, run_stage,
}

abbrev pub waits_review : Stage → Bool
waits_review review_wait = true
waits_review _ = false

abbrev pub accept : Machine → Machine
accept = with_state (λ s. record s { status = ready_for_merge })

-- the bookkeeping of a failed observation
abbrev pub miss : String → ℕ → Machine → Machine
miss word n = with_state (λ s. record s { failing_command = some word; failures = n })

-- The changes of the stages, but for `accept`.
pub data Move (w : World) : Machine → Machine → Type 0 where
  asked : (m : Machine) (line : List String) → Move w m (record m { calls = m.calls ++ line ∷ [] })
  logged : (m : Machine) (e : Event) → Move w m (log_event w e m)
  answered :
      (m : Machine) (word : String)
      → Move w m (with_state (λ s. clear_if s.failing_command word s) m)
  staged : (m : Machine) (stage : Stage) → Move w m (with_state (λ s. record s { stage = stage }) m)
  stopped :
      (m : Machine) (reason : String) (details : Details)
      → Move w m (
          with_state (λ s. record s { status = paused; reason = some reason; details = details }) m)
  started :
      (m : Machine) (job head base : String)
      → Move w m (
          with_state
            (λ s. record s { creation_job = some job; head = some head; base = some base })
            m)
  linked :
      (m : Machine) (url : Value) → Move w m (with_state (λ s. record s { pr_url = some url }) m)
  adopted :
      (m : Machine) (head : String) → Move w m (with_state (λ s. record s { head = some head }) m)
  handed :
      (m : Machine) (job : String)
      → Move w m (with_state (λ s. record s { active_job = some job }) m)
  repaired :
      (m : Machine)
      → m.state.repairs < m.state.max_repairs
      → Move w m (with_state (λ s. record s { repairs = s.repairs + 1 }) m)

pub record Closed (w : World) (P : Machine → Type 0) : Type 0 where
  pub move : {m n : Machine} → Move w m n → P m → P n

module _ (w : World) {P : Machine → Type 0} (closed : Closed w P) where
  asked-Keeps : (arguments : List String) → Keeps P (invoke w arguments)
  unfolding invoke ◌>>=◌
  asked-Keeps arguments = record { at = λ m h. closed.move (asked m _) h }

  answered-Keeps : (word : String) → Keeps P (update (λ s. clear_if s.failing_command word s))
  unfolding ◌>>=◌
  answered-Keeps word = record { at = λ m h. closed.move (answered m word) h }

  pub command-Keeps : (arguments : List String) → Keeps P (command w arguments)
  unfolding command
  command-Keeps arguments = search (keeps_rules, asked-Keeps, answered-Keeps)

  record_event-Keeps : (e : Event) → Keeps P (record_event w e)
  unfolding record_event ◌>>=◌
  record_event-Keeps e = record { at = λ m h. closed.move (logged m e) h }

  pub move_to-Keeps : (stage : Stage) → Keeps P (move_to w stage)
  unfolding move_to
  move_to-Keeps stage =
      search (keeps_rules, record_event-Keeps, Keeps-modify, closed.move, Move.staged)

  pub pause_run-Keeps : (reason : String) (details : Details) → Keeps P (pause_run w reason details)
  unfolding pause_run
  pause_run-Keeps reason details =
      search (keeps_rules, record_event-Keeps, Keeps-modify, closed.move, Move.stopped)

  repaired-Keeps : (m : Machine) → P m → P (request_repair w m).1
  unfolding request_repair ◌>>=◌
  repaired-Keeps m h = elim (Bool-cases (leb m.state.max_repairs m.state.repairs)) [
    | inl spent ↦ rw spent ((pause_run-Keeps "repair_limit_reached" nothing).at m h)
    | inr left ↦
        rw left ((move_to-Keeps response_submit).at _ (closed.move (repaired m (ground arith)) h))
  ]

  pub request_repair-Keeps : Keeps P (request_repair w)
  request_repair-Keeps = record { at = repaired-Keeps }

  linked-Keeps : (v : Value) → Keeps P (update (set_url v))
  unfolding ◌>>=◌
  linked-Keeps (str s) = record { at = λ m h. closed.move (linked m (str s)) h }
  linked-Keeps null = record { at = λ m h. h }
  linked-Keeps _ = record { at = λ m h. h }

  creation_started-Keeps : (v : Value) → Keeps P (creation_started w v)
  unfolding creation_started
  creation_started-Keeps v =
      search (keeps_rules, move_to-Keeps, Keeps-modify, closed.move, Move.started) depth 30

  submit_creation-Keeps : Keeps P (submit_creation w)
  unfolding submit_creation
  submit_creation-Keeps =
      search (keeps_rules, creation_started-Keeps, command-Keeps, linked-Keeps, pause_run-Keeps)
        depth 30

  pub adopt_candidate-Keeps :
      (phase stale : String) (result item : Value)
      → Keeps P (adopt_candidate w phase stale result item)
  unfolding adopt_candidate
  adopt_candidate-Keeps phase stale result item =
      search
        (keeps_rules, move_to-Keeps, request_repair-Keeps, Keeps-modify, closed.move, Move.adopted)
        depth 30

  take_item-Keeps :
      (job : String) (result decision : Value) → Keeps P (take_item w job result decision)
  unfolding take_item
  take_item-Keeps job result decision = search (keeps_rules, pause_run-Keeps) depth 30

  pub judge-Keeps : (job : String) (result : Value) → Keeps P (judge w job result)
  unfolding judge
  judge-Keeps job result = search (keeps_rules, pause_run-Keeps, take_item-Keeps) depth 30

  pub selected-Keeps : (job : String) → Keeps P (selected w job)
  unfolding selected
  selected-Keeps job = search (keeps_rules, command-Keeps, judge-Keeps) depth 30

  on_observation-Keeps :
      (act : Value → Value → Driver Unit) (o : Option (Value × Value))
      → ((result item : Value) → Keeps P (act result item))
      → Keeps P (on_observation act o)
  on_observation-Keeps act none h = Keeps-pure tt
  on_observation-Keeps act (some (result, item)) h = h result item

  creation_done-Keeps : (job : String) (phase : Value) → Keeps P (creation_done w job phase)
  unfolding creation_done
  creation_done-Keeps job phase =
      search
        (
          keeps_rules, selected-Keeps, on_observation-Keeps, adopt_candidate-Keeps, Keeps-modify,
          closed.move, Move.linked,
        )
        depth 30

  creation_phase-Keeps : (job : String) (phase : Value) → Keeps P (creation_phase w job phase)
  unfolding creation_phase
  creation_phase-Keeps job phase =
      search (keeps_rules, pause_run-Keeps, linked-Keeps, creation_done-Keeps) depth 30

  wait_creation-Keeps : Keeps P (wait_creation w)
  unfolding wait_creation
  wait_creation-Keeps = search (keeps_rules, command-Keeps, creation_phase-Keeps) depth 30

  submit-Keeps : (name : String) (next : Stage) → Keeps P (submit w name next)
  unfolding submit
  submit-Keeps name next =
      search
        (
          keeps_rules, command-Keeps, pause_run-Keeps, move_to-Keeps, Keeps-modify, closed.move,
          Move.handed,
        )
        depth 30

  pub wait_job-Keeps :
      (act : Value → Value → Driver Unit)
      → ((result item : Value) → Keeps P (act result item))
      → Keeps P (wait_job w act)
  unfolding wait_job
  wait_job-Keeps act h = search (keeps_rules, selected-Keeps, on_observation-Keeps) depth 30

  -- a stage that does not wait for a review keeps what all changes but `accept` keep
  pub other_stage-Keeps : (stage : Stage) → waits_review stage ≡ false → Keeps P (run_stage w stage)
  unfolding run_stage
  other_stage-Keeps creation_submit h = submit_creation-Keeps
  other_stage-Keeps creation_wait h = wait_creation-Keeps
  other_stage-Keeps review_submit h = submit-Keeps _ _
  other_stage-Keeps response_submit h = submit-Keeps _ _
  other_stage-Keeps review_wait h = cc
  other_stage-Keeps response_wait h = wait_job-Keeps _ (adopt_candidate-Keeps _ _)
  other_stage-Keeps (other name) h = search keeps_rules

module _ (w : World) {P : Machine → Type 0} (closed : Closed w P)
    (missed : (word : String) (n : ℕ) (m : Machine) → P m → P (miss word n m)) where
  command_failed-Keeps :
      (stage : Stage) (word : String) (d : Option String) → Keeps P (command_failed w stage word d)
  unfolding command_failed
  command_failed-Keeps stage word d =
      search (keeps_rules, record_event-Keeps, pause_run-Keeps, Keeps-modify, missed) depth 30

  pub recover-Keeps : (stage : Stage) (e : Exc) → Keeps P (recover w stage e)
  unfolding recover
  recover-Keeps stage (command_failure word d) = command_failed-Keeps stage word d
  recover-Keeps stage _ = pause_run-Keeps w closed _ _

module _ (w : World) {P : Machine → Type 0} (closed : Closed w P)
    (accepted : (m : Machine) → P m → P (accept m))
    (missed : (word : String) (n : ℕ) (m : Machine) → P m → P (miss word n m)) where
  review_finished-Keeps :
      (head job : String) (review : Value) → Keeps P (review_finished w head job review)
  unfolding review_finished
  review_finished-Keeps head job review =
      search (keeps_rules, request_repair-Keeps, record_event-Keeps, Keeps-modify, accepted) depth
        30

  judge_review-Keeps : (result item : Value) → Keeps P (judge_review w result item)
  unfolding judge_review
  judge_review-Keeps result item =
      search (keeps_rules, request_repair-Keeps, review_finished-Keeps) depth 30

  stage-Keeps : (stage : Stage) → Keeps P (run_stage w stage)
  unfolding run_stage
  stage-Keeps review_wait = wait_job-Keeps w closed _ judge_review-Keeps
  stage-Keeps stage = other_stage-Keeps w closed stage refl

  -- What every change keeps, a step keeps, whatever the commands answer.
  pub step-Keeps : (m : Machine) → P m → P (step w m)
  unfolding step advance_stage ◌>>=◌
  step-Keeps m h = at_status m.state.status
    where
      at_status : (s : Status) → P (on_status w s m.state.stage m).1
      at_status running =
          (Keeps-try _ _ (stage-Keeps m.state.stage)
              (recover-Keeps w closed missed m.state.stage)).at
            m h
      at_status _ = h
