-- ===== src/Pr/Jobs/Store.antt =====
-- A job's directory as its workers change it, and the outside of afk_pr/jobs.py.
use afk_pipeline.Prelude.{
  String, Bool, true, false, Option, none, some, List, ◌∷◌, if◌then◌else◌, str_eq,
}
use afk_pipeline.Py.Value.{Value, Fields, str, dict, lookup}
use afk_pipeline.Py.Result.{
  Result, ok, err, Exc, key_error, value_error, runtime_error, type_error, attribute_error,
  os_error, subprocess_error, command_failure,
}
use afk_pipeline.Py.Action.{Action, lift, gets, modify, ◌>>=◌}
use afk_pipeline.Pr.Folder.{Folder, set_field}

pub data Effect : Type 0 where
  executed : (phase : String) → Effect
  status_set : (state : String) → Effect
  sent : (phase : String) → Effect
  launched : (phase : String) → Effect
  -- jobs.start of the fixtures of a child, whose directory is another one
  child_started : (child : Fields) → Effect

-- job.json, the phase records, creation-progress.json, the seals and the cleanup marker; the log has the latest effect first
pub record Store : Type 0 where
  pub job : Fields
  pub phases : Fields
  pub creation_progress : Option Value
  pub seal : Option Value
  pub publication_seal : Option Value
  pub cleanup : Option Value
  pub log : List Effect

-- How the code of a phase ends: with its result, with a TimeoutError, with a contained error and, if it
-- is a GitFailure, its text, or with an error that ends the worker.
pub data Execution : Type 0 where
  finished : Fields → Execution
  busy : Execution
  raised : (error : String) (reason : Option String) → Execution
  escaped : Exc → Execution

-- What systemd-run answers: a timeout may hide that the worker was accepted.
pub data Launch : Type 0 where
  accepted uncertain : Launch
  refused : Exc → Launch

-- The phases, GitHub, the clock and the other files, which may depend on all that was done before.
pub record World : Type 0 where
  pub execute : List Effect → String → Execution
  pub launch : List Effect → String → Launch
  pub fixture_status : List Effect → String → Result (Unit {0})
  pub fixture_summary : List Effect → Result Value
  pub fixture_excerpt : List Effect → Result String
  pub review : List Effect → Result Value
  -- GitHub's pull requests of the job's branch, the head of a branch at the remote, and a new pull request
  pub pull_requests : List Effect → Result (List Value)
  pub remote_head : List Effect → (branch : Value) → Result Value
  pub create_pull_request : List Effect → Result Value
  -- the objective of the Bead, the redactor and the limit of the text
  pub pull_request_text : List Effect → Result (Unit {0})
  -- validation.select over the other jobs: the job whose fixtures are reused, and the contract
  pub select : List Effect → (job : Fields) → Result (Value × Value)
  -- the ID, the directory and the start of a child
  pub child_id : List Effect → Value
  pub make_child : List Effect → (child : Fields) → Result (Unit {0})
  pub start_child : List Effect → (child : Fields) → Result (Unit {0})
  -- str of a value that is no text
  pub shown : Value → String
  pub publish_response : List Effect → Result Value
  pub timestamp : List Effect → Value
  pub folder : List Effect → Folder
  pub digest : Value → String
  pub probe_identity : Value → Result Value

abbrev pub Worker : Type 0 → Type 0
Worker = Action Store

abbrev pub log_effect : Effect → Worker Unit
log_effect e = modify (λ s. record s { log = e ∷ s.log })

-- jobs.write(directory / f"{phase}.json", v)
abbrev pub write_phase : String → Value → Worker Unit
write_phase phase v = modify (λ s. record s { phases = set_field phase v s.phases })

abbrev pub file : Option Value → Result Value
file none = err os_error
file (some v) = ok v

-- jobs.read(directory / f"{phase}.json")
abbrev pub read_phase : String → Worker Value
read_phase phase = do s ← gets (λ s. s); lift (file (lookup phase s.phases))

abbrev is_kept : Option Value → Bool
is_kept none = false
is_kept (some v) = true

abbrev phase_named : String → Option String
phase_named name =
    if str_eq name "fixtures.json"
    then some "fixtures"
    else if str_eq name "review.json"
    then some "review"
    else if str_eq name "response.json"
    then some "response"
    else if str_eq name "creation.json"
    then some "creation"
    else none

abbrev stored : Store → String → Option String → Folder → Result Value
stored s name (some phase) f = file (lookup phase s.phases)
stored s name none f =
    if str_eq name "job.json"
    then ok (dict s.job)
    else if str_eq name "fixtures-seal.json"
    then file s.seal
    else if str_eq name "creation-progress.json"
    then file s.creation_progress
    else if str_eq name "fixtures-publication-seal.json"
    then file s.publication_seal
    else f.read name

abbrev has_file : Store → String → Option String → Folder → Bool
has_file s name (some phase) f = is_kept (lookup phase s.phases)
has_file s name none f =
    if str_eq name "fixtures-seal.json"
    then is_kept s.seal
    else if str_eq name "creation-progress.json"
    then is_kept s.creation_progress
    else f.exists name

-- the directory with the files that the store holds
abbrev pub folder_of : World → Store → Folder
folder_of w s =
    let f = w.folder s.log in
    record f {
      exists = λ name. has_file s name (phase_named name) f;
      read = λ name. stored s name (phase_named name) f;
      reread = λ name. stored s name (phase_named name) f;
    }

-- type(error).__name__
abbrev pub error_name : Exc → Value
error_name (key_error _) = str "KeyError"
error_name (value_error _) = str "ValueError"
error_name (runtime_error _) = str "RuntimeError"
error_name type_error = str "TypeError"
error_name attribute_error = str "AttributeError"
error_name os_error = str "OSError"
error_name subprocess_error = str "SubprocessError"
error_name (command_failure _ _) = str "CommandFailure"

-- `except (OSError, ValueError, RuntimeError, KeyError, subprocess.SubprocessError)`
abbrev pub is_handled : Exc → Bool
is_handled type_error = false
is_handled attribute_error = false
is_handled _ = true
