-- ===== src/Pr/Validation/Reuse.antt =====
-- `eligible` and `select` of afk_pr/validation.py: which retained fixtures may be shared.
use afk_pipeline.Prelude.{
  ℕ, String, Bool, true, false, not, ◌&&◌, ◌||◌, Option, none, some, List, [], ◌∷◌, ◌==◌,
  if◌then◌else◌, any, all,
}
use afk_pipeline.Py.Value.{
  Value, Fields, end, nil, null, list, dict, is_text, is_number, is_true, is_false, is_int, is_null,
  eq_bool, truthy, py_eq, lookup,
}
use afk_pipeline.Py.Read.{index, get, in_set, or_default}
use afk_pipeline.Py.Result.{Result, ok, Exc, runtime_error, command_failure, ◌>>=◌}
use afk_pipeline.Py.Codes.{lower, eq_codes}
use afk_pipeline.Pr.Identity.{identity}
use afk_pipeline.Pr.Folder.{Folder}
use afk_pipeline.Pr.Jobs.Status.{status_job}
use afk_pipeline.Pr.Decision.Phases.{contains}
use afk_pipeline.Pr.Validation.Contract.{Contract, is_contract, execution}
use afk_pipeline.Pr.Validation.Evidence.{or_false, log_files, owning_evidence}

-- if test: return False
abbrev pub reject : Bool → Result Bool → Result Bool
reject true later = ok false
reject false later = later

abbrev pub at : Fields → String → Value
at fs k = or_default null (lookup k fs)

-- `except (OSError, ValueError, KeyError, TypeError, AttributeError, subprocess.SubprocessError)`
abbrev is_contained : Exc → Bool
is_contained (runtime_error _) = false
is_contained (command_failure _ _) = false
is_contained _ = true

abbrev is_null_entry : Option Value → Bool
is_null_entry none = false
is_null_entry (some v) = is_null v

-- the process of a settled result agrees with its state
unfoldable pub is_agreed : Value → Fields → Bool
is_agreed state process =
    is_int (at process "exit_code")
    && is_false (at process "timed_out")
    && is_false (at process "interrupted")
    && is_null_entry (lookup "error" process)
    && eq_bool (is_text state "passed") (is_number (at process "exit_code") 0)

abbrev pub agrees : Value → Value → Result Bool
agrees state (dict process) = ok (is_agreed state process)
agrees state v = get v "exit_code" >>= λ _. ok false

unfoldable pub is_other_job : Contract → (job : Fields) → List ℕ × ℕ → Bool
is_other_job c job own =
    not (eq_codes (lower own.0) c.repository)
    || not (own.1 == c.pr_number)
    || not (py_eq (at job "head") c.head)
    || not (py_eq (at job "base") c.base)
    || not (py_eq (at job "validation") c.validation)
    || not (py_eq (at job "policy") c.policy)
    || not (py_eq (at job "fixture_resource") c.resource)
    || not (py_eq (dict (execution job)) (dict c.execution))

abbrev pub has_logs : Folder → Bool
has_logs f = all f.is_file log_files

abbrev pub link_files : List String
link_files = "job.json" ∷ "fixtures.json" ∷ "fixtures-seal.json" ∷ []

abbrev pub expects : Fields → Bool → Result Bool
expects job false = ok false
expects job true = contains (or_default (list nil) (lookup "expected_phases" job)) "fixtures"

module _ (digest : Value → String) (probe_identity : Value → Result Value) (f : Folder) where
  unfoldable pub judge_published : (record_ : Fields) → Result Bool
  judge_published record_ =
      reject
        (not (is_text (at record_ "publication") "published") || not (truthy (at record_ "url")))
        (do
          good ← agrees (at record_ "state") (or_default (dict end) (lookup "process" record_))
          reject (not good) (ok (has_logs f)))

  unfoldable pub judge_settled : (job record_ : Fields) → Result Bool
  judge_settled job record_ = do
    finished ← in_set (at record_ "state") ("passed" ∷ "failed" ∷ [])
    reject
        (not finished
          || not (is_true (at record_ "candidate_unchanged"))
          || not (is_true (at record_ "contract_unchanged")))
        (do
          owned ← owning_evidence digest f probe_identity job record_
          reject (not owned) (
              if is_text (at record_ "publication") "pending"
              then ok (is_text (at record_ "worker_observation") "active")
              else judge_published record_))

  unfoldable pub judge_record : (job : Fields) → Value → Result Bool
  judge_record job (dict record_) =
      reject (is_text (at record_ "worker_observation") "unavailable") (do
        a ← in_set (at record_ "state") ("queued" ∷ "running" ∷ [])
        if a
            then ok (is_text (at record_ "worker_observation") "active")
            else judge_settled job record_)
  judge_record job v = get v "worker_observation" >>= λ _. ok false

  unfoldable pub judge_job : Contract → Bool → (job : Fields) → Result Bool
  judge_job c probe job = do
    url ← index (dict job) "pr_url"
    own ← identity url
    reject (is_other_job c job own || f.is_link || any f.symlink link_files) (do
      named ← expects job (is_text (at job "id") f.name)
      reject (not named) (do
        status ← status_job f probe
        record_ ← index (dict status.phases) "fixtures"
        judge_record job record_))

  unfoldable pub eligible : Bool → Option Contract → Value → Result Bool
  eligible probe (some c) (dict job) =
      reject (not (is_contract c (at job "fixture_contract")))
        (or_false is_contained (judge_job c probe job))
  eligible probe _ _ = ok false
