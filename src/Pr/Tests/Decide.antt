-- ===== src/Pr/Tests/Decide.antt =====
-- `decide` of afk_pr/decision.py on one validation job.
use afk_pipeline.Prelude.{pos, true, false, Option, none, some, [], ◌∷◌, ◌≡◌, ◌≢◌, refl, All}
use afk_pipeline.Py.Value.{Value, null, bool, int, str, py_eq}
use afk_pipeline.Py.Build.{object, array}
use afk_pipeline.Py.Result.{Result, ok, err}
use afk_pipeline.Pr.Identity.{identity}
use afk_pipeline.Pr.Decision.{
  Decision, Recommendation, pause, wait, continue, recommend, selected_id, check_items, decide,
}
use afk_pipeline.Pr.Decision.Phases.{
  by_id, is_consistent, check_publication, check_success, check_entry, check_phase,
}
use afk_pipeline.Pr.Decision.Items.{
  Target, selection, check_fixture_child, check_evidence, is_own_action, check_action,
  check_revision, check_phases, check_job, check_dict, check_item,
}
use afk_pipeline.Pr.Decision.Continue.{IsOpen, decide-continue}
use afk_pipeline.Pr.Decision.Done.{IsDone}

abbrev url : Value
url = str "https://github.com/Owner/repo/pull/12"

abbrev context : Value
context = object (
    (
      "pull_request",
      object (
          ("head", object (("sha", str "h") ∷ []))
          ∷ ("base", object (("sha", str "b") ∷ []))
          ∷ ("html_url", url)
          ∷ ("state", str "open")
          ∷ []),
    )
    ∷ [])

abbrev passed : Value
passed = object (
    ("state", str "passed")
    ∷ ("candidate_unchanged", bool true)
    ∷ ("publication", str "published")
    ∷ (
      "process",
      object (
          ("exit_code", int (pos 0))
          ∷ ("timed_out", bool false)
          ∷ ("interrupted", bool false)
          ∷ ("error", null)
          ∷ []),
    )
    ∷ [])

abbrev item : Value → Value
item record_ = object (
    ("requested_id", str "j")
    ∷ (
      "job",
      object (
          ("id", str "j")
          ∷ ("pr_url", str "https://github.com/owner/repo/pull/12/")
          ∷ ("kind", str "review")
          ∷ ("head", str "h")
          ∷ ("base", str "b")
          ∷ ("expected_phases", array (str "fixtures" ∷ []))
          ∷ ("action_id", str "a")
          ∷ []),
    )
    ∷ (
      "action",
      object (
          ("schema_version", int (pos 1))
          ∷ ("id", str "a")
          ∷ ("repository", str "owner/repo")
          ∷ ("pr_number", int (pos 12))
          ∷ ("command", str "fixtures")
          ∷ ("head", str "h")
          ∷ ("base", str "b")
          ∷ ("job_id", str "j")
          ∷ ("state", str "submitted")
          ∷ []),
    )
    ∷ ("phases", object (("fixtures", record_) ∷ []))
    ∷ [])

abbrev run : Value → Result Decision
run record_ = decide (λ v. 10) (λ s. none) context (item record_ ∷ [])

abbrev advice : Result Decision → Option Recommendation
advice (ok d) = some d.recommendation
advice (err e) = none

program : Unit {0}
unfolding decide recommend selected_id check_items check_item check_dict check_job check_phases
    check_phase check_entry check_success check_publication is_consistent check_fixture_child
    check_evidence is_own_action check_action check_revision selection identity py_eq
program = tt

continues : (d : Decision) × (run passed ≡ ok d)
unfolding program
continues = (_, refl)

advised : continues.0.recommendation ≡ continue
unfolding program continues
advised = refl

waits : advice (run (object (("state", str "running") ∷ []))) ≡ some wait
unfolding program
waits = refl

pauses : advice (run (object (("state", str "failed") ∷ []))) ≡ some pause
unfolding program
pauses = refl

decide-continue_example :
    (t : Target) × IsOpen context continues.0 t
    × (item passed ∷ [] ≢ [])
    × All (IsDone t (by_id (item passed ∷ []))) (item passed ∷ [])
decide-continue_example =
    decide-continue (λ v. 10) (λ s. none) context (item passed ∷ []) continues.0 continues.1 advised
