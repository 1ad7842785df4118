-- ===== src/Pr/Tests/Creation.antt =====
-- A creation of afk_pr/creation.py whose candidate was pushed, published again and again.
use afk_pipeline.Prelude.{true, false, none, some, [], ◌∷◌, ◌≡◌, refl}
use afk_pipeline.Py.Value.{Fields, null, str, lookup, py_eq}
use afk_pipeline.Py.Build.{object, obj}
use afk_pipeline.Py.Result.{ok, err, os_error, runtime_error}
use afk_pipeline.Py.Action.{◌>>=◌, try_except}
use afk_pipeline.Pr.Identity.{identity}
use afk_pipeline.Pr.Jobs.Status.{
  needs_probe, note_worker, note_stopped, observe_phase, observe_phases, status_job,
}
use afk_pipeline.Pr.Jobs.Store.{Store, World, sent, child_started}
use afk_pipeline.Pr.Jobs.Creation.{
  matches_pr, without_action, child_of_creation, find_pr, create_pr, found_or_created, new_fixtures,
  queue_fixtures, hand_over, publish_pushed, publish_creation,
}
use afk_pipeline.Pr.Jobs.Publish.{send, sending, publish_record, publish_dict, publish}
use afk_pipeline.Pr.Jobs.Worker.{guarded, reconcile, retry_phase, retry_phases, retry_publication}
use afk_pipeline.Pr.Jobs.Child.{children, room}
use afk_pipeline.Pr.Tests.Jobs.{world}

abbrev job : Fields
job = obj (
    ("id", str "0123456789abcdef")
    ∷ ("github_repository", str "Owner/repo")
    ∷ ("repository", str "/repo")
    ∷ ("branch", str "afk/b")
    ∷ ("base_branch", str "main")
    ∷ ("remote", str "origin")
    ∷ ("bead_id", str "b")
    ∷ ("action_id", str "a")
    ∷ [])

abbrev pushed_job : Store
pushed_job = record {
  job = job;
  phases = obj (
      ("creation", object (("state", str "completed") ∷ ("publication", str "pending") ∷ [])) ∷ []);
  creation_progress = some (object (("candidate", str "c") ∷ ("push", str "pushed") ∷ []));
  seal = none;
  publication_seal = none;
  cleanup = none;
  log = [];
}

-- GitHub takes the pull request; the start of the child fails
abbrev github : World
github =
    record (world (
      ok (
        object (
          ("html_url", str "https://github.com/Owner/repo/pull/12")
          ∷ ("state", str "open")
          ∷ [])))) {
            folder = λ es. record {
              name = "0123456789abcdef";
              is_link = false;
              exists = λ name. false;
              symlink = λ name. false;
              is_file = λ name. false;
              read = λ name. ok (object (("title", str "Title") ∷ []));
              reread = λ name. err os_error;
              receipt = err os_error;
              worker = λ phase. ok (record { answered = true; active_state = "inactive" });
              file_digest = λ log. err os_error;
            };
            start_child = λ es child. err (runtime_error "offline");
          }

program : Unit {0}
unfolding ◌>>=◌ try_except py_eq identity needs_probe note_worker note_stopped observe_phase
    observe_phases status_job matches_pr without_action find_pr create_pr found_or_created
    new_fixtures queue_fixtures hand_over publish_pushed publish_creation send sending
    publish_record publish_dict publish guarded reconcile retry_phase retry_phases retry_publication
program = tt

abbrev once : Store
once = (publish github "creation" pushed_job).1

abbrev child : Fields
child =
    child_of_creation once.job (str "fedcba9876543210") (str "c") (str "0123456789abcdef")
      (str "now") null

-- the URL is written into the job, and the child named before it is started
hands_over :
    (once.log ≡ child_started child ∷ sent "creation" ∷ [])
    × (lookup "pr_url" once.job ≡ some (str "https://github.com/Owner/repo/pull/12"))
    × (lookup "action_id" child ≡ none)
    × (room once.creation_progress ≡ 0)
unfolding program
hands_over = (refl, refl, refl, refl)

-- a retry starts no other child
retries : children (retry_publication github (λ phase. true) once).1.log ≡ 1
unfolding program
retries = refl
