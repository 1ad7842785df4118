-- ===== src/Pr/Jobs/Start.antt =====
-- `start` of afk_pr/jobs.py: phases are queued and shown as pending before any worker is launched.
use afk_pipeline.Prelude.{pos, String, Bool, false, List, [], ◌∷◌, if◌then◌else◌, str_eq, any}
use afk_pipeline.Py.Value.{Value, Values, Fields, nil, cons, field, end, int, str, list, dict}
use afk_pipeline.Py.Read.{index}
use afk_pipeline.Py.Result.{Result, ok, err, Exc, key_error, runtime_error, ◌>>=◌ as and_then}
use afk_pipeline.Py.Action.{pure, raise, lift, gets, modify, ◌>>=◌, ◌>>◌, try_except}
use afk_pipeline.Pr.Folder.{set_field}
use afk_pipeline.Pr.Jobs.Store.{
  status_set, launched, Launch, accepted, uncertain, refused, World, Worker, log_effect,
  write_phase, error_name, is_handled,
}
use afk_pipeline.Pr.Jobs.Publish.{publish}
use afk_pipeline.Pr.Jobs.Worker.{guarded, write_seal}

abbrev names : List String → Values
names [] = nil
names (phase ∷ rest) = cons (str phase) (names rest)

abbrev pub has_fixtures : List String → Bool
has_fixtures phases = any (str_eq "fixtures") phases

-- the job with what is expected of it
abbrev pub expecting : List String → Fields → Fields
expecting phases job =
    let named = set_field "expected_phases" (list (names phases)) job in
    if has_fixtures phases then set_field "fixture_evidence_version" (int (pos 1)) named else named

abbrev pub set_all : Value → List String → Fields → Fields
set_all v [] fs = fs
set_all v (phase ∷ rest) fs = set_all v rest (set_field phase v fs)

-- write each phase's record
abbrev pub write_all : Value → List String → Worker Unit
write_all v phases = modify (λ s. record s { phases = set_all v phases s.phases })

abbrev pub queued_record : Value
queued_record = dict (field "state" (str "queued") (field "publication" (str "pending") end))

abbrev pub unstarted_record : Value
unstarted_record = dict (field "state" (str "not_started") (field "publication" (str "failed") end))

-- `except (OSError, ValueError, RuntimeError, subprocess.SubprocessError)`
abbrev pub is_posting_error : Exc → Bool
is_posting_error (key_error _) = false
is_posting_error e = is_handled e

abbrev pub unposted_text : String
unposted_text = "could not publish pending status; the job was not started"

abbrev failed_record : Exc → Fields
failed_record e =
    field "state" (str "failed")
      (field "publication" (str "pending") (field "error" (error_name e) end))

-- the timeout of a phase is read from the job
abbrev pub timeout_of : Fields → String → Result Value
timeout_of job phase =
    if str_eq phase "fixtures"
    then and_then (index (dict job) "validation") (λ v. index v "timeout_seconds")
    else index (dict job) "review_timeout"

module _ (w : World) where
  unfoldable pub post_pending : Worker Unit
  post_pending = do
    log_effect (status_set "pending")
    s ← gets (λ s. s)
    lift (w.fixture_status s.log "pending")

  unfoldable pub unposted : List String → Exc → Worker Unit
  unposted phases e =
      if is_posting_error e
      then write_all unstarted_record phases >> raise (runtime_error unposted_text)
      else raise e

  unfoldable pub launch_failed : String → Exc → Worker Unit
  launch_failed phase e =
      if is_handled e
      then (do
        write_seal w phase (failed_record e)
        write_phase phase (dict (failed_record e))
        publish w phase)
      else raise e

  abbrev pub launch_ended : String → Launch → Worker Unit
  launch_ended phase accepted = pure tt
  launch_ended phase uncertain = raise (runtime_error "Launch is uncertain after timeout")
  launch_ended phase (refused e) = launch_failed phase e

  abbrev pub launch_with : String → Result Value → Worker Unit
  launch_with phase (err e) = launch_failed phase e
  launch_with phase (ok timeout) = do
    log_effect (launched phase)
    s ← gets (λ s. s)
    launch_ended phase (w.launch s.log phase)

  unfoldable pub launch_phase : String → Worker Unit
  launch_phase phase = do s ← gets (λ s. s); launch_with phase (timeout_of s.job phase)

  unfoldable pub launch_phases : List String → Worker Unit
  launch_phases [] = pure tt
  launch_phases (phase ∷ rest) = let later = launch_phases rest in launch_phase phase >> later

  unfoldable pub start_queued : List String → Worker Unit
  start_queued phases = do
    modify (λ s. record s { job = expecting phases s.job })
    write_all queued_record phases
    if has_fixtures phases then try_except post_pending (unposted phases) else pure tt
    launch_phases phases

  unfoldable pub start : List String → Worker Unit
  start phases = guarded "start" (start_queued phases)
