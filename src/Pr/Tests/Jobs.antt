-- ===== src/Pr/Tests/Jobs.antt =====
-- A queued job of afk_pr/jobs.py whose fixtures pass and are published.
use afk_pipeline.Prelude.{pos, true, false, Option, none, some, [], ◌∷◌, ◌≡◌, ◌⊎◌, refl}
use afk_pipeline.Py.Value.{Value, Fields, null, int, str, dict, lookup}
use afk_pipeline.Py.Build.{object, obj}
use afk_pipeline.Py.Result.{Result, ok, err, os_error, runtime_error}
use afk_pipeline.Py.Action.{◌>>=◌, try_except}
use afk_pipeline.Pr.Identity.{identity}
use afk_pipeline.Pr.Jobs.Status.{
  needs_probe, note_worker, note_stopped, observe_phase, observe_phases, status_job,
}
use afk_pipeline.Pr.Jobs.Store.{
  folder_of, accepted, Store, finished, World, executed, launched, status_set, sent,
}
use afk_pipeline.Pr.Jobs.Publish.{
  published, sent_record, send_fixtures, send_other, send_review, send, sending, publish_record,
  publish_dict, publish,
}
use afk_pipeline.Pr.Jobs.Worker.{
  guarded, execute_phase, record_outcome, run_phase, start_phase, worker, reconcile, retry_phase,
  retry_phases, retry_publication,
}
use afk_pipeline.Pr.Jobs.Work.{runs}
use afk_pipeline.Pr.Jobs.Start.{
  post_pending, unposted, launch_failed, launch_phase, launch_phases, start_queued, start,
}
use afk_pipeline.Pr.Jobs.Sealed.{sealed_execution-sent_record}
use afk_pipeline.Pr.Jobs.Started.{IsStarted, start-IsStarted}
use afk_pipeline.Pr.Jobs.Runs.{HasRun, worker-HasRun}
use afk_pipeline.Pr.Validation.Evidence.{
  log_digests, execution_part, seal, publication_seal, seal_holds, sealed_execution,
}

abbrev job : Fields
job = obj (
    ("id", str "0123456789abcdef")
    ∷ ("head", str "h")
    ∷ ("validation", object (("evidence", str "unit tests") ∷ []))
    ∷ ("fixture_evidence_version", int (pos 1))
    ∷ [])

abbrev queued : Store
queued = record {
  job = job;
  phases =
      obj
        (("fixtures", object (("state", str "queued") ∷ ("publication", str "pending") ∷ [])) ∷ []);
  creation_progress = none;
  seal = none;
  publication_seal = none;
  cleanup = none;
  log = [];
}

-- GitHub takes the summary, or not
abbrev pub world : Result Value → World
world answer = record {
  execute = λ es phase.
      finished (
        obj (("state", str "passed") ∷ ("process", object (("exit_code", int (pos 0)) ∷ [])) ∷ []));
  launch = λ es phase. accepted;
  fixture_status = λ es state. ok tt;
  fixture_summary = λ es. answer;
  fixture_excerpt = λ es. ok "";
  review = λ es. answer;
  pull_requests = λ es. ok [];
  remote_head = λ es branch. ok (str "c");
  create_pull_request = λ es. answer;
  pull_request_text = λ es. ok tt;
  select = λ es job. ok (null, null);
  child_id = λ es. str "fedcba9876543210";
  make_child = λ es child. ok tt;
  start_child = λ es child. ok tt;
  shown = λ v. "";
  publish_response = λ es. answer;
  timestamp = λ es. str "now";
  folder = λ es. record {
    name = "0123456789abcdef";
    is_link = false;
    exists = λ name. false;
    symlink = λ name. false;
    is_file = λ name. false;
    read = λ name. err os_error;
    reread = λ name. err os_error;
    receipt = err os_error;
    worker = λ phase. ok (record { answered = true; active_state = "inactive" });
    file_digest = λ log. err os_error;
  };
  digest = λ v. "digest";
  probe_identity = λ v. err os_error;
}

program : Unit {0}
unfolding ◌>>=◌ try_except identity needs_probe note_worker note_stopped observe_phase
    observe_phases status_job send_fixtures send_other send_review send sending publish_record
    publish_dict publish guarded execute_phase record_outcome run_phase start_phase worker reconcile
    retry_phase retry_phases retry_publication log_digests execution_part seal publication_seal
    seal_holds sealed_execution
program = tt

abbrev ran : Store
ran = (worker (world (err (runtime_error "offline"))) true "fixtures" queued).1

abbrev publication_of : Store → Option Value
publication_of s = entry (lookup "fixtures" s.phases)
  where
    entry : Option Value → Option Value
    entry (some (dict fs)) = lookup "publication" fs
    entry _ = none

runs_and_publishes :
    ((worker (world (ok (str "url"))) true "fixtures" queued).1.log
      ≡ sent "fixtures" ∷ status_set "success" ∷ executed "fixtures" ∷ [])
    × (publication_of (worker (world (ok (str "url"))) true "fixtures" queued).1
        ≡ some (str "published"))
unfolding program
runs_and_publishes = (refl, refl)

-- a publication that failed is sent again, and nothing is run again
retries :
    (publication_of ran ≡ some (str "failed"))
    × ((retry_publication (world (ok (str "url"))) (λ phase. true) ran).1.log
        ≡ sent "fixtures"
          ∷ status_set "success"
          ∷ sent "fixtures"
          ∷ status_set "success"
          ∷ executed "fixtures"
          ∷ [])
    × (publication_of (retry_publication (world (ok (str "url"))) (λ phase. true) ran).1
        ≡ some (str "published"))
unfolding program
retries = (refl, refl, refl)

worker-HasRun_example :
    (runs (worker (world (ok (str "url"))) true "fixtures" queued).1.log ≡ runs [])
    ⊎ HasRun true "fixtures" queued (worker (world (ok (str "url"))) true "fixtures" queued).1
worker-HasRun_example = worker-HasRun (world (ok (str "url"))) "fixtures" queued true

abbrev startable : Store
startable = record queued {
  job = obj (
      ("validation", object (("timeout_seconds", int (pos 60)) ∷ []))
      ∷ ("review_timeout", int (pos 60))
      ∷ []);
}

abbrev offline : World
offline = record (world (ok (str "url"))) {
  fixture_status = λ es state. err (runtime_error "offline");
}

-- fixtures and a review that are launched
launches :
    (start (world (ok (str "url"))) ("fixtures" ∷ "review" ∷ []) startable).1.log
    ≡ launched "review" ∷ launched "fixtures" ∷ status_set "pending" ∷ []
unfolding program post_pending unposted launch_failed launch_phase launch_phases start_queued start
launches = refl

-- no worker is launched where the pending status cannot be set
unposted_only :
    (start offline ("fixtures" ∷ "review" ∷ []) startable).1.log ≡ status_set "pending" ∷ []
unfolding program post_pending unposted launch_failed launch_phase launch_phases start_queued start
unposted_only = refl

start-IsStarted_example :
    IsStarted offline
      ("fixtures" ∷ "review" ∷ [])
      startable
      (start offline ("fixtures" ∷ "review" ∷ []) startable).0
      (start offline ("fixtures" ∷ "review" ∷ []) startable).1
start-IsStarted_example = start-IsStarted offline ("fixtures" ∷ "review" ∷ []) startable

abbrev passed : Fields
passed = obj (("state", str "passed") ∷ ("publication", str "pending") ∷ [])

sealed_execution-sent_record_example :
    sealed_execution
      (λ v. "digest")
      (folder_of (world (ok (str "url"))) ran)
      job
      (sent_record passed (published (str "url")))
    ≡ sealed_execution (λ v. "digest") (folder_of (world (ok (str "url"))) ran) job passed
sealed_execution-sent_record_example =
    sealed_execution-sent_record (λ v. "digest") (folder_of (world (ok (str "url"))) ran) job passed
      (published (str "url"))
