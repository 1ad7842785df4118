-- ===== src/Pr/Jobs/Worker.antt =====
-- `worker` and `retry_publication` of afk_pr/jobs.py, under `guarded` of afk_pr/lifecycle.py.
use afk_pipeline.Prelude.{
  String, Bool, true, false, Option, none, some, List, [], ◌∷◌, if◌then◌else◌, str_eq,
}
use afk_pipeline.Py.Value.{Value, Fields, field, end, null, str, dict, is_text, lookup}
use afk_pipeline.Py.Read.{index, in_set}
use afk_pipeline.Py.Result.{Result, ok, err, value_error}
use afk_pipeline.Py.Action.{pure, raise, lift, gets, modify, ◌>>=◌, ◌>>◌}
use afk_pipeline.Pr.Folder.{set_field}
use afk_pipeline.Pr.Jobs.Status.{status_job, all_phases}
use afk_pipeline.Pr.Jobs.Store.{
  executed, Execution, finished, busy, raised, escaped, World, Worker, log_effect, write_phase,
  read_phase, folder_of,
}
use afk_pipeline.Pr.Jobs.Publish.{publish}
use afk_pipeline.Pr.Validation.Evidence.{seal}

-- whether a cleanup marker lets a function run
abbrev pub marker_allows : String → Option Value → Result Bool
marker_allows function none = ok true
marker_allows function (some marker) =
    if str_eq function "retry_publication"
    then elim (index marker "state") [ ok state ↦ ok (is_text state "removed") | err e ↦ err e ]
    else ok false

unfoldable pub guarded : String → Worker Unit → Worker Unit
guarded function act = do
  s ← gets (λ s. s)
  allowed ← lift (marker_allows function s.cleanup)
  if allowed then act else raise (value_error "workspace cleanup started; this job cannot restart")

abbrev with_reason : Option String → Fields → Fields
with_reason none fs = fs
with_reason (some reason) fs = set_field "reason" (str reason) fs

abbrev busy_text : String
busy_text =
    "Fixture slot unavailable; no fixtures executed. Submit another review after the active job completes."

-- the outcome that the worker records, or the error that ends it
abbrev pub outcome_of : Execution → Worker Fields
outcome_of (finished fs) = pure fs
outcome_of busy = pure (field "state" (str "busy") (field "error" (str busy_text) end))
outcome_of (raised error reason) =
    pure (with_reason reason (field "state" (str "failed") (field "error" (str error) end)))
outcome_of (escaped e) = raise e

abbrev sealed_value : Option String → Value
sealed_value none = null
sealed_value (some s) = str s

abbrev is_recorded : Option Value → Bool
is_recorded none = false
is_recorded (some v) = true

module _ (w : World) where
  unfoldable pub execute_phase : String → Worker Fields
  execute_phase phase = do
    log_effect (executed phase)
    s ← gets (λ s. s)
    outcome_of (w.execute s.log phase)

  abbrev pub write_seal : String → Fields → Worker Unit
  write_seal phase outcome =
      if str_eq phase "fixtures"
      then (do
        s ← gets (λ s. s)
        d ← lift (seal w.digest (folder_of w s) s.job outcome)
        modify (λ s. record s { seal = some (dict (field "sha256" (sealed_value d) end)) }))
      else pure tt

  abbrev pub stamped : (started finished_at : Value) → Fields → Fields
  stamped started finished_at outcome =
      set_field "publication" (str "pending")
        (set_field "finished_at" finished_at (set_field "started_at" started outcome))

  -- the record of a phase at work
  abbrev running_record : Value → Value
  running_record started = dict (
      field "state" (str "running")
        (field "started_at" started (field "publication" (str "pending") end)))

  unfoldable pub record_outcome : String → Fields → Worker Unit
  record_outcome phase outcome = do
    current ← read_phase phase
    started ← lift (index current "started_at")
    s ← gets (λ s. s)
    write_seal phase (stamped started (w.timestamp s.log) outcome)
    write_phase phase (dict (stamped started (w.timestamp s.log) outcome))
    publish w phase

  unfoldable pub run_phase : String → Worker Unit
  run_phase phase = do
    s ← gets (λ s. s)
    write_phase phase (running_record (w.timestamp s.log))
    outcome ← execute_phase phase
    record_outcome phase outcome

  unfoldable pub start_phase : String → Worker Unit
  start_phase phase = do
    record_ ← read_phase phase
    state ← lift (index record_ "state")
    if is_text state "queued"
        then run_phase phase
        else raise (value_error "phase has already started; inspect its retained work")

  -- `is_free` says whether the lock of the phase was taken
  unfoldable pub worker : (is_free : Bool) → String → Worker Unit
  worker is_free phase =
      guarded "worker"
        (if is_free then start_phase phase else raise (value_error "phase already running"))

  unfoldable pub reconcile : String → Value → Worker Unit
  reconcile phase observed = do
    state ← lift (index observed "state")
    active ← lift (in_set state ("queued" ∷ "running" ∷ []))
    if is_text state "interrupted"
        then write_phase phase observed
        else if active
        then raise (value_error "worker has no confirmed terminal state")
        else pure tt

  unfoldable pub retry_phase : (is_free : Bool) → String → Worker Unit
  retry_phase is_free phase =
      if is_free
      then (do
        s ← gets (λ s. s)
        status ← lift (status_job (folder_of w s) true)
        observed ← lift (index (dict status.phases) phase)
        reconcile phase observed
        publish w phase)
      else raise (value_error "worker is still active")

  unfoldable pub retry_phases : (String → Bool) → List String → Worker Unit
  retry_phases is_free [] = pure tt
  retry_phases is_free (phase ∷ rest) =
      let later = retry_phases is_free rest in
      do
        s ← gets (λ s. s)
        if is_recorded (lookup phase s.phases) then retry_phase (is_free phase) phase else pure tt
        later

  unfoldable pub retry_publication : (is_free : String → Bool) → Worker Unit
  retry_publication is_free = guarded "retry_publication" (retry_phases is_free all_phases)
