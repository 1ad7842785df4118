-- ===== src/Pr/Tests/Submit.antt =====
-- A submission of afk_pr/actions.py that starts a review, and the same action again.
use afk_pipeline.Prelude.{String, true, false, none, some, List, [], ◌∷◌, ◌≡◌, refl}
use afk_pipeline.Py.Value.{Value, str, py_eq}
use afk_pipeline.Py.Build.{object}
use afk_pipeline.Py.Result.{ok}
use afk_pipeline.Py.Action.{◌>>=◌, try_except}
use afk_pipeline.Py.Text.{matches_hex}
use afk_pipeline.Pr.Identity.{identity}
use afk_pipeline.Pr.Actions.Desk.{Effect, Submission, World, prepared, started}
use afk_pipeline.Pr.Actions.Reads.{is_action_id, spelled, is_unchanged, response_branch}
use afk_pipeline.Pr.Actions.{
  Request, save, retry_action, observe, start_job, begin, launch_current, launch, submission_failed,
  reserve, new_action, submit_action,
}
use afk_pipeline.Pr.Actions.Order.{IsOrdered, submit_action-IsOrdered}
use afk_pipeline.Pr.Actions.Once.{submissions, IsRetried, submit_action-IsRetried}

abbrev context : Value
context = object (
    (
      "pull_request",
      object (
          ("state", str "open")
          ∷ ("head", object (("sha", str "h") ∷ []))
          ∷ ("base", object (("sha", str "b") ∷ []))
          ∷ []),
    )
    ∷ [])

abbrev world : World
world = record {
  observe = λ es. ok context;
  check_ref = λ ref. ok tt;
  job_id = "0123456789abcdef";
  timestamp = λ es. str "now";
  prepare = λ es. ok ("fixtures" ∷ "review" ∷ []);
  has_job = λ es id. true;
  status_job = λ es id. ok (object []);
  select = λ es. ok (some "fedcba9876543210");
  start = λ es phases. ok tt;
}

abbrev request : Request
request = record {
  url = str "https://github.com/Owner/repo/pull/12";
  fixtures_only = false;
  respond = false;
  action_id = "review-1";
  expected_head = none;
}

program : Unit {0}
unfolding ◌>>=◌ try_except matches_hex py_eq identity is_action_id spelled is_unchanged
    response_branch save retry_action observe start_job begin launch_current launch
    submission_failed reserve new_action submit_action
program = tt

abbrev after : Submission
after = (submit_action world true request (record { receipt = none; log = [] })).1

abbrev starts : List Effect → List (List String)
starts [] = []
starts (started phases ∷ es) = phases ∷ starts es
starts (e ∷ es) = starts es

-- fixtures that are reused are not started
starts_review : (starts after.log ≡ ("review" ∷ []) ∷ []) × (submissions after.log ≡ 2)
unfolding program
starts_review = (refl, refl)

submit_action-IsOrdered_example : IsOrdered after.log
submit_action-IsOrdered_example = submit_action-IsOrdered world true request none

abbrev kept : Value
kept = object (
    ("command", str "review")
    ∷ ("head", str "h")
    ∷ ("job_id", str "0123456789abcdef")
    ∷ ("state", str "submitting")
    ∷ [])

-- an interrupted submission is paused
pauses :
    (submit_action world true request (record { receipt = some kept; log = [] })).1.receipt
    ≡ some (
        object (
          ("command", str "review")
          ∷ ("head", str "h")
          ∷ ("job_id", str "0123456789abcdef")
          ∷ ("state", str "paused")
          ∷ (
            "reason",
            str
                "Submission interrupted or uncertain; inspect retained job before choosing a new action",
          )
          ∷ []))
unfolding program
pauses = refl

submit_action-IsRetried_example :
    IsRetried world request kept
      (prepared ∷ [])
      (submit_action world true request (record { receipt = some kept; log = prepared ∷ [] })).1
submit_action-IsRetried_example = submit_action-IsRetried world request kept (prepared ∷ []) true
