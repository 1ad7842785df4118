-- ===== src/Pr/Jobs/Status.antt =====
-- `status_job` of afk_pr/jobs.py: a job's phase records, corrected by what systemd says of the workers.
use Prim.Native.String.{◌++◌ as append}
use afk_pipeline.Prelude.{
  String, Bool, true, false, not, ◌&&◌, Option, none, some, List, [], ◌∷◌, if◌then◌else◌, any,
  str_eq,
}
use afk_pipeline.Py.Value.{Value, Fields, end, field, str, is_text, truthy}
use afk_pipeline.Py.Read.{index, get, in_set}
use afk_pipeline.Py.Result.{Result, ok, ◌>>=◌}
use afk_pipeline.Pr.Identity.{identity}
use afk_pipeline.Pr.Folder.{WorkerUnit, Folder, put}

-- record["state"] in {"queued", "running"}
abbrev pub is_active : Value → Result Bool
is_active record_ = do state ← index record_ "state"; in_set state ("queued" ∷ "running" ∷ [])

abbrev or_pending : Value → Bool → Result Bool
or_pending record_ true = ok true
or_pending record_ false = do p ← get record_ "publication"; ok (is_text p "pending")

-- whether the worker of the phase is asked for
unfoldable pub needs_probe : Bool → Value → Result Bool
needs_probe false record_ = ok false
needs_probe true record_ = do a ← is_active record_; or_pending record_ a

abbrev one_of : List String → String → Bool
one_of ts s = any (str_eq s) ts

abbrev worker_observation : WorkerUnit → String
worker_observation u =
    if u.answered && one_of ("active" ∷ "inactive" ∷ "failed" ∷ []) u.active_state
    then u.active_state
    else "unavailable"

abbrev is_stopped : WorkerUnit → Bool
is_stopped u = u.answered && one_of ("inactive" ∷ "failed" ∷ []) u.active_state

abbrev interrupted_note : Value
interrupted_note =
    str "Worker stopped without a terminal record; inspect retained work and pending GitHub status."

unfoldable pub note_worker : WorkerUnit → Value → Result Value
note_worker u record_ = do
  p ← get record_ "publication"
  if is_text p "pending"
      then put record_ "worker_observation" (str (worker_observation u))
      else ok record_

abbrev mark_interrupted : Value → Bool → Result Value
mark_interrupted record_ true = do
  r ← put record_ "state" (str "interrupted")
  put r "note" interrupted_note
mark_interrupted record_ false = ok record_

abbrev mark_unavailable : Value → Bool → Result Value
mark_unavailable record_ true = put record_ "worker_observation" (str "unavailable")
mark_unavailable record_ false = ok record_

unfoldable pub note_stopped : WorkerUnit → Value → Result Value
note_stopped u record_ =
    if is_stopped u
    then (do a ← is_active record_; mark_interrupted record_ a)
    else if not u.answered
    then (do a ← is_active record_; mark_unavailable record_ a)
    else ok record_

abbrev pub phase_file : String → String
phase_file phase = append phase ".json"

abbrev corrected : Folder → String → Value → Bool → Result Value
corrected f phase record_ true = do
  u ← f.worker phase
  again ← f.reread (phase_file phase)
  seen ← note_worker u again
  note_stopped u seen
corrected f phase record_ false = ok record_

-- one turn of the loop over PHASES, for a phase that has a record
unfoldable pub observe_phase : Folder → Bool → String → Result Value
observe_phase f probe phase = do
  record_ ← f.read (phase_file phase)
  asked ← needs_probe probe record_
  seen ← corrected f phase record_ asked
  if f.exists (append phase "-progress.json")
      then (do p ← f.read (append phase "-progress.json"); put seen "progress" p)
      else ok seen

unfoldable pub observe_phases : Folder → Bool → List String → Result Fields
observe_phases f probe [] = ok end
observe_phases f probe (phase ∷ rest) =
    let later = observe_phases f probe rest in
    if f.exists (phase_file phase)
    then (do r ← observe_phase f probe phase; others ← later; ok (field phase r others))
    else later

abbrev pub all_phases : List String
all_phases = "fixtures" ∷ "review" ∷ "response" ∷ "creation" ∷ []

abbrev receipt_of : Folder → Value → Value → Result (Option Value)
receipt_of f job action_id =
    if truthy action_id
    then (do url ← index job "pr_url"; own ← identity url; r ← f.receipt; ok (some r))
    else ok none

-- the answer of `status_job`; its "directory" is the folder's
pub record JobStatus : Type 0 where
  pub job : Value
  pub action : Option Value
  pub cleanup : Option Value
  pub phases : Fields

unfoldable pub status_job : Folder → Bool → Result JobStatus
status_job f probe = do
  job ← f.read "job.json"
  action_id ← get job "action_id"
  action ← receipt_of f job action_id
  cleanup ← if f.exists "cleanup.json" then (do c ← f.read "cleanup.json"; ok (some c)) else ok none
  phases ← observe_phases f probe all_phases
  ok (record { job = job; action = action; cleanup = cleanup; phases = phases })
