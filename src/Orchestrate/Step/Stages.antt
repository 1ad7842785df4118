-- ===== src/Orchestrate/Step/Stages.antt =====
-- The branches of `step` in afk_orchestrate/driver.py, one function for each.
use afk_pipeline.Prelude.{
  String, not, ◌&&◌, ◌||◌, Option, none, some, [], ◌∷◌, if◌then◌else◌, str_eq,
}
use afk_pipeline.Py.Value.{Value, str, empty, is_text, is_list, truthy}
use afk_pipeline.Py.Read.{get, get_or, index, in_set}
use afk_pipeline.Py.Result.{value_error}
use afk_pipeline.Py.Action.{pure, raise, lift, gets, ◌>>=◌, ◌>>◌}
use afk_pipeline.Orchestrate.State.{
  World, Driver, State, Stage, creation_submit, creation_wait, review_submit, response_submit,
  review_wait, response_wait, other, ready_for_merge, evidence, nothing, ready, need, update,
  record_event, move_to, pause_run, request_repair, action_id,
}
use afk_pipeline.Orchestrate.Commands.{argument, command}
use afk_pipeline.Orchestrate.Receipts.{revision, job_id, is_receipt}
use afk_pipeline.Orchestrate.Validation.{repairable_validation, has_key}
use afk_pipeline.Orchestrate.Selected.{selected}

abbrev pub set_url : Value → State → State
set_url (str s) t = record t { pr_url = some (str s) }
set_url _ t = t

unfoldable pub creation_started : World → Value → Driver Unit
unfolding move_to
creation_started w result = do
  s ← gets (λ m. m.state)
  job ← lift (index result "job")
  bead ← lift (get job "bead_id")
  if not (is_text bead s.bead_id)
      then raise (value_error "creation belongs to another bead")
      else do
        identifier ← lift (job_id result)
        given_head ← lift (index job "head")
        head ← lift (revision given_head)
        given_base ← lift (index job "base")
        base ← lift (revision given_base)
        update
            (λ t. record t { creation_job = some identifier; head = some head; base = some base })
        move_to w creation_wait

unfoldable pub submit_creation : World → Driver Unit
unfolding creation_started
submit_creation w = do
  s ← gets (λ m. m.state)
  result ← command w ("pr" ∷ s.bead_id ∷ [])
  if has_key result "job" then creation_started w result else do
    url ← lift (get result "pr_url")
    update (set_url url)
    pause_run w "existing_pr_without_creation_receipt" (evidence result)

-- The candidate that a finished creation or response has pushed becomes the head of the run.
unfoldable pub adopt_candidate : World → String → String → Value → Value → Driver Unit
adopt_candidate w phase stale result item = do
  phases ← lift (index item "phases")
  own ← lift (index phases phase)
  progress ← lift (index own "progress")
  given ← lift (index progress "candidate")
  candidate ← lift (revision given)
  current ← lift (index result "head")
  if not (is_text current candidate) then raise (value_error stale) else do
    update (λ t. record t { head = some candidate })
    repairable ← lift (repairable_validation result)
    if repairable then request_repair w else move_to w review_submit

abbrev pub on_observation : (Value → Value → Driver Unit) → Option (Value × Value) → Driver Unit
on_observation act none = pure tt
on_observation act (some (result, item)) = act result item

unfoldable pub creation_done : World → String → Value → Driver Unit
unfolding adopt_candidate
creation_done w job phase = do
  progress ← lift (index phase "progress")
  url ← lift (index progress "pr_url")
  update (λ t. record t { pr_url = some url })
  observation ← selected w job
  on_observation (adopt_candidate w "creation" "creation candidate no longer current") observation

unfoldable pub creation_phase : World → String → Value → Driver Unit
unfolding creation_done
creation_phase w job phase = do
  progress ← lift (get_or phase "progress" empty)
  url ← lift (get progress "pr_url")
  update (set_url url)
  worker ← lift (get phase "worker_observation")
  if is_text worker "unavailable" then pause_run w "creation_worker_unknown" nothing else do
    state ← lift (index phase "state")
    pending ← lift (in_set state ("queued" ∷ "running" ∷ []))
    publication ← lift (get phase "publication")
    if pending || is_text publication "pending" && is_text worker "active"
        then pure tt
        else if not (is_text state "completed" && is_text publication "published")
        then pause_run w "creation_requires_attention" (evidence phase)
        else creation_done w job phase

unfoldable pub wait_creation : World → Driver Unit
unfolding creation_phase
wait_creation w = do
  s ← gets (λ m. m.state)
  job ← lift (need "creation_job" s.creation_job)
  result ← command w ("job" ∷ job ∷ [])
  identifier ← lift (job_id result)
  own ← lift (index result "job")
  bead ← lift (get own "bead_id")
  if not (str_eq identifier job && is_text bead s.bead_id)
      then raise (value_error "creation identity changed")
      else do
        phases ← lift (index result "phases")
        phase ← lift (index phases "creation")
        creation_phase w job phase

-- "review" with the stage that waits for it, or "respond" with its own
unfoldable pub submit : World → String → Stage → Driver Unit
submit w name next = do
  s ← gets (λ m. m.state)
  url ← lift (need "pr_url" s.pr_url)
  head ← lift (need "head" s.head)
  target ← lift (argument url)
  result ←
      command w (name ∷ target ∷ "--action-id" ∷ action_id s name ∷ "--expected-head" ∷ head ∷ [])
  receipt ← lift (get_or result "action" empty)
  state ← lift (get receipt "state")
  if not (is_text state "submitted")
      then pause_run w "submission_uncertain" (evidence receipt)
      else do
        identifier ← lift (job_id result)
        base ← lift (need "base" s.base)
        same ← lift (is_receipt name (action_id s name) identifier head base receipt)
        if not same
            then raise (value_error "submission receipt identity mismatch")
            else do update (λ t. record t { active_job = some identifier }); move_to w next

unfoldable pub review_finished : World → String → String → Value → Driver Unit
review_finished w head job review = do
  reviewed ← lift (index review "head")
  findings ← lift (index review "findings")
  if not (is_text reviewed head && is_list findings)
      then raise (value_error "review result unavailable")
      else if truthy findings
      then request_repair w
      else do update (λ t. record t { status = ready_for_merge }); record_event w (ready head job)

unfoldable pub judge_review : World → Value → Value → Driver Unit
unfolding review_finished
judge_review w result item = do
  s ← gets (λ m. m.state)
  current ← lift (index result "head")
  head ← lift (need "head" s.head)
  if not (is_text current head) then raise (value_error "review head changed") else do
    repairable ← lift (repairable_validation result)
    if repairable then request_repair w else do
      phases ← lift (index item "phases")
      own ← lift (index phases "review")
      review ← lift (index own "result")
      job ← lift (need "active_job" s.active_job)
      review_finished w head job review

unfoldable pub wait_job : World → (Value → Value → Driver Unit) → Driver Unit
wait_job w act = do
  s ← gets (λ m. m.state)
  job ← lift (need "active_job" s.active_job)
  observation ← selected w job
  on_observation act observation

unfoldable pub run_stage : World → Stage → Driver Unit
unfolding submit_creation wait_creation submit wait_job judge_review
run_stage w creation_submit = submit_creation w
run_stage w creation_wait = wait_creation w
run_stage w review_submit = submit w "review" review_wait
run_stage w response_submit = submit w "respond" response_wait
run_stage w review_wait = wait_job w (judge_review w)
run_stage w response_wait =
    wait_job w (adopt_candidate w "response" "response candidate no longer current")
run_stage w (other name) = raise (value_error "unknown orchestration stage")
