-- ===== src/Pr/Actions.antt =====
-- `submit_action` of afk_pr/actions.py: one receipt for an action ID, and at most one submission.
pub mod Desk
pub mod Reads
pub mod Order
pub mod Once
use afk_pipeline.Prelude.{
  ℕ, pos, String, Bool, true, false, not, ◌&&◌, ◌||◌, Option, none, some, List, [], ◌∷◌,
  if◌then◌else◌, str_eq,
}
use afk_pipeline.Py.Value.{Value, Fields, field, end, null, int, str, dict, is_text, py_eq, lookup}
use afk_pipeline.Py.Read.{index, or_default}
use afk_pipeline.Py.Result.{Result, ok, err, Exc, value_error, runtime_error, type_error}
use afk_pipeline.Py.Action.{Action, pure, raise, lift, gets, modify, ◌>>=◌, ◌>>◌, try_except}
use afk_pipeline.Py.Codes.{codes, lower}
use afk_pipeline.Py.Text.{matches_hex}
use afk_pipeline.Pr.Identity.{identity}
use afk_pipeline.Pr.Folder.{set_field}
use afk_pipeline.Pr.Actions.Reads.{
  spelled, is_action_id, sha_of, text_of, head_of, is_unchanged, response_branch,
}
use afk_pipeline.Pr.Actions.Desk.{
  Effect, seen, saved, prepared, started, Submission, World, Submitter, log_effect,
}

-- the arguments of a submission
pub record Request : Type 0 where
  pub url : Value
  pub fixtures_only : Bool
  pub respond : Bool
  pub action_id : String
  pub expected_head : Option String

-- the answer: the status of the job, if there is one, and the receipt
abbrev pub Answer : Type 0
Answer = Option Value × Value

abbrev pub kind_of : Request → String
kind_of o = if o.respond then "respond" else if o.fixtures_only then "fixtures" else "review"

abbrev pub differs : Option String → Value → Bool
differs none head = false
differs (some expected) head = not (is_text head expected)

unfoldable pub save : Fields → Submitter Unit
save receipt = do
  modify (λ d. record d { receipt = some (dict receipt) })
  log_effect (saved receipt)

abbrev pub paused : String → Fields → Fields
paused reason receipt = set_field "reason" (str reason) (set_field "state" (str "paused") receipt)

abbrev pub changed_reason : String
changed_reason = "PR changed before launch; no workers submitted"

abbrev pub interrupted_reason : String
interrupted_reason =
    "Submission interrupted or uncertain; inspect retained job before choosing a new action"

abbrev other_phases : List String → List String
other_phases [] = []
other_phases (phase ∷ rest) =
    let others = other_phases rest in if str_eq phase "fixtures" then others else phase ∷ others

module _ (w : World) where
  abbrev job_status : String → Submitter (Option Value)
  job_status job_id = do
    d ← gets (λ d. d)
    if w.has_job d.log job_id
        then (do s ← lift (w.status_job d.log job_id); pure (some s))
        else pure none

  abbrev pub answer_with : String → Fields → Submitter Answer
  answer_with job_id receipt = do s ← job_status job_id; pure (s, dict receipt)

  unfoldable pub retry_action : Request → Value → Submitter Answer
  retry_action o (dict receipt) = do
    command ← lift (index (dict receipt) "command")
    if not (is_text command (kind_of o))
        then raise (value_error "action ID already belongs to a different command or head")
        else (do
          head ← lift (head_of o.expected_head receipt)
          if differs o.expected_head head
              then raise (value_error "action ID already belongs to a different command or head")
              else (do
                own ← lift (index (dict receipt) "job_id")
                job_id ← lift (text_of own)
                state ← lift (index (dict receipt) "state")
                d ← gets (λ d. d)
                if not (is_text state "paused")
                      && (not (is_text state "submitted") || not (w.has_job d.log job_id))
                    then save (paused interrupted_reason receipt)
                      >> answer_with job_id (paused interrupted_reason receipt)
                    else answer_with job_id receipt))
  retry_action o receipt = raise type_error

  unfoldable pub observe : Submitter Value
  observe = do
    d ← gets (λ d. d)
    context ← lift (w.observe d.log)
    log_effect (seen context)
    lift (index context "pull_request")

  -- the result of `observe` is the pull request of the context
  abbrev pub require : Bool → String → Submitter Unit
  require true reason = pure tt
  require false reason = raise (value_error reason)

  abbrev pub own_branch : Request → Value → Submitter Unit
  own_branch o pr = if o.respond then lift (response_branch w.check_ref pr o.url) else pure tt

  abbrev pub first_receipt : Request → Value → Value → List ℕ × ℕ → Value → Fields
  first_receipt o head base own created_at = field "schema_version" (int (pos 1)) (
      field "id" (str o.action_id) (
        field "repository" (str (spelled (lower own.0))) (
          field "pr_number" (int (pos own.1)) (
            field "command" (str (kind_of o)) (
              field "head" head (
                field "base" base (
                  field "job_id" (str w.job_id)
                    (field "state" (str "preparing") (field "created_at" created_at end)))))))))

  abbrev pub without_fixtures : Option String → List String → List String
  without_fixtures none phases = phases
  without_fixtures (some identifier) phases = other_phases phases

  -- a response has no fixtures to reuse
  abbrev pub chosen_job : Request → List Effect → Result (Option String)
  chosen_job o log = if o.respond then ok none else w.select log

  unfoldable pub start_job : List String → Submitter Unit
  start_job phases = do d ← gets (λ d. d); lift (w.start d.log phases)

  unfoldable pub begin : Request → List String → Submitter Unit
  begin o phases = do
    d ← gets (λ d. d)
    chosen ← lift (chosen_job o d.log)
    log_effect (started (without_fixtures chosen phases))
    start_job (without_fixtures chosen phases)

  -- `same`: the pull request is still open at the head and base of the receipt
  unfoldable pub launch_current : Request → Fields → List String → (same : Bool) → Submitter Bool
  launch_current o receipt phases true = do
    save (set_field "state" (str "submitting") receipt)
    begin o phases
    pure true
  launch_current o receipt phases false = do save (paused changed_reason receipt); pure false

  -- whether the job was started, or the receipt paused because the pull request had changed
  unfoldable pub launch : Request → Fields → Submitter Bool
  launch o receipt = do
    log_effect prepared
    d ← gets (λ d. d)
    phases ← lift (w.prepare d.log)
    current ← observe
    same ← lift (is_unchanged current receipt)
    launch_current o receipt phases same

  abbrev pub failed_text : Request → String
  failed_text o = "submission paused; retry the same action ID to inspect"

  unfoldable pub submission_failed : Request → Fields → Exc → Submitter Bool
  submission_failed o receipt e = do
    save (paused "Submission raised; inspect retained job" receipt)
    raise (runtime_error (failed_text o))

  -- the receipt that `launch` left, with another state
  abbrev submitted : Value → Fields → Fields
  submitted submitted_at receipt =
      set_field "submitted_at" submitted_at (set_field "state" (str "submitted") receipt)

  abbrev pub finish_launch : Fields → Bool → Submitter Answer
  finish_launch receipt false = pure (none, dict (paused changed_reason receipt))
  finish_launch receipt true = do
    d ← gets (λ d. d)
    save (submitted (w.timestamp d.log) receipt)
    s ← lift (w.status_job d.log w.job_id)
    pure (some s, dict (submitted (w.timestamp d.log) receipt))

  unfoldable pub reserve : Request → Fields → Submitter Answer
  reserve o receipt = do
    save receipt
    launched ← try_except (launch o receipt) (submission_failed o receipt)
    finish_launch receipt launched

  unfoldable pub new_action : Request → List ℕ × ℕ → Submitter Answer
  new_action o own = do
    pr ← observe
    state ← lift (index pr "state")
    require (is_text state "open") "PR passes require an open PR"
    head ← lift (sha_of pr "head")
    require (not (differs o.expected_head head)) "PR head changed; no action submitted"
    own_branch o pr
    base ← lift (sha_of pr "base")
    d ← gets (λ d. d)
    reserve o (first_receipt o head base own (w.timestamp d.log))

  abbrev pub with_receipt : Request → List ℕ × ℕ → Option Value → Submitter Answer
  with_receipt o own none = new_action o own
  with_receipt o own (some receipt) = retry_action o receipt

  abbrev pub is_sha : Option String → Bool
  is_sha none = true
  is_sha (some head) = matches_hex 40 head

  -- `is_free` says whether the lock of the pull request was taken
  unfoldable pub submit_action : (is_free : Bool) → Request → Submitter Answer
  submit_action is_free o = do
    require (is_action_id (codes o.action_id))
        "action ID must be 1-64 letters, digits, dots, underscores or hyphens"
    require (is_sha o.expected_head) "expected head must be a full lowercase commit SHA"
    require (not (o.respond && o.fixtures_only)) "response cannot be fixtures-only"
    own ← lift (identity o.url)
    require is_free "PR submission is busy; retry the same action ID"
    d ← gets (λ d. d)
    with_receipt o own d.receipt
