-- ===== src/Pr/Tests/Reuse.antt =====
-- Retained fixtures of afk_pr/validation.py that passed and may be shared.
use afk_pipeline.Prelude.{
  ℕ, pos, String, Bool, true, false, some, [], ◌∷◌, ◌||◌, ◌≡◌, refl, str_eq, if◌then◌else◌,
}
use afk_pipeline.Py.Value.{Value, Fields, null, bool, int, str, dict, py_eq}
use afk_pipeline.Py.Build.{object, array, obj}
use afk_pipeline.Py.Result.{Result, ok, err, os_error}
use afk_pipeline.Py.Codes.{codes}
use afk_pipeline.Py.Text.{matches_hex}
use afk_pipeline.Pr.Identity.{identity}
use afk_pipeline.Pr.Folder.{Folder}
use afk_pipeline.Pr.Jobs.Status.{
  needs_probe, note_worker, note_stopped, observe_phase, observe_phases, status_job,
}
use afk_pipeline.Pr.Validation.Contract.{
  Contract, execution, is_contract, contract, external_of, has_parent_part,
}
use afk_pipeline.Pr.Validation.Evidence.{
  log_digests, execution_part, seal, publication_seal, seal_holds, sealed_execution,
  publication_holds, contract_stands, owning_evidence,
}
use afk_pipeline.Pr.Validation.Reuse.{
  is_agreed, is_other_job, judge_published, judge_settled, judge_record, judge_job, eligible,
}
use afk_pipeline.Pr.Validation.Soundness.{IsShared, eligible-IsShared}

abbrev sha : String
sha = "aaaaaaaaaabbbbbbbbbbccccccccccdddddddddd"

abbrev policy : Value
policy = object (("command", array (str "./check" ∷ [])) ∷ [])

abbrev kept : Contract
kept = record {
  repository = codes "owner/repo";
  pr_number = 12;
  head = str sha;
  base = str sha;
  validation = policy;
  policy = null;
  resource = null;
  execution =
      obj
        (("layout", null) ∷ ("repository", null) ∷ ("remote", null) ∷ ("fixture_slot", null) ∷ []);
  external_identity = null;
}

abbrev kept_value : Value
kept_value = object (
    ("schema_version", int (pos 1))
    ∷ ("repository", str "owner/repo")
    ∷ ("pr_number", int (pos 12))
    ∷ ("head", str sha)
    ∷ ("base", str sha)
    ∷ ("validation", policy)
    ∷ ("policy", null)
    ∷ ("resource", null)
    ∷ (
      "execution",
      object (
          ("layout", null) ∷ ("repository", null) ∷ ("remote", null) ∷ ("fixture_slot", null) ∷ []),
    )
    ∷ ("external_identity", null)
    ∷ [])

abbrev job : Fields
job = obj (
    ("id", str "0123456789abcdef")
    ∷ ("pr_url", str "https://github.com/Owner/repo/pull/12")
    ∷ ("head", str sha)
    ∷ ("base", str sha)
    ∷ ("validation", policy)
    ∷ ("expected_phases", array (str "fixtures" ∷ []))
    ∷ ("fixture_contract", kept_value)
    ∷ [])

abbrev process : ℕ → Value
process code = object (
    ("exit_code", int (pos code))
    ∷ ("timed_out", bool false)
    ∷ ("interrupted", bool false)
    ∷ ("error", null)
    ∷ [])

abbrev result : ℕ → Value
result code = object (
    ("state", str "passed")
    ∷ ("process", process code)
    ∷ ("candidate_unchanged", bool true)
    ∷ ("contract_unchanged", bool true)
    ∷ ("publication", str "published")
    ∷ ("url", str "https://github.com/owner/repo/pull/12#issuecomment-1")
    ∷ [])

abbrev files : ℕ → String → Result Value
files code name =
    if str_eq name "job.json"
    then ok (dict job)
    else if str_eq name "fixtures.json"
    then ok (result code)
    else if str_eq name "fixtures-seal.json" || str_eq name "fixtures-publication-seal.json"
    then ok (object (("sha256", str "digest") ∷ []))
    else err os_error

abbrev folder : ℕ → Folder
folder code = record {
  name = "0123456789abcdef";
  is_link = false;
  exists = λ name.
      str_eq name "fixtures.json"
      || str_eq name "fixtures-seal.json"
      || str_eq name "fixtures.stdout.log"
      || str_eq name "fixtures.stderr.log";
  symlink = λ name. false;
  is_file = λ name. true;
  read = files code;
  reread = files code;
  receipt = err os_error;
  worker = λ phase. err os_error;
  file_digest = λ log. ok "log";
}

program : Unit {0}
unfolding matches_hex py_eq identity needs_probe note_worker note_stopped observe_phase
    observe_phases status_job execution is_contract contract external_of has_parent_part log_digests
    execution_part seal publication_seal seal_holds sealed_execution publication_holds
    contract_stands owning_evidence is_agreed is_other_job judge_published judge_settled
    judge_record judge_job eligible
program = tt

abbrev shares : ℕ → Result Bool
shares code = eligible (λ v. "digest") (λ v. err os_error) (folder code) true (some kept) (dict job)

passed_is_shared : shares 0 ≡ ok true
unfolding program
passed_is_shared = refl

-- a pass with another exit code is not
contradiction_is_not_shared : shares 1 ≡ ok false
unfolding program
contradiction_is_not_shared = refl

eligible-IsShared_example : IsShared (λ v. "digest") (λ v. err os_error) (folder 0) true kept job
eligible-IsShared_example =
    eligible-IsShared (λ v. "digest") (λ v. err os_error) (folder 0) true kept job passed_is_shared
