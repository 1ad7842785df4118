-- ===== src/Pr/Jobs/Started.antt =====
-- What `start` of afk_pr/jobs.py does with the phases of a job.
use afk_pipeline.Prelude.{
  ◌+◌, ◌≤◌, String, Bool, true, false, Option, none, some, List, ◌∷◌, ◌≡◌, ◌⊎◌, inl, inr, refl, ap,
  ◌∙◌, if◌then◌else◌, arith, All,
}
use afk_pipeline.Py.Value.{Value, lookup}
use afk_pipeline.Py.Result.{Result, ok, err, Exc, value_error, runtime_error}
use afk_pipeline.Py.Action.{pure, raise, proceed, handled, ◌>>=◌, try_except}
use afk_pipeline.Pr.Jobs.Store.{Effect, status_set, Store, World}
use afk_pipeline.Pr.Jobs.Work.{runs, launches}
use afk_pipeline.Pr.Jobs.Worker.{guarded, marker_allows}
use afk_pipeline.Pr.Jobs.Start.{
  has_fixtures, expecting, set_all, write_all, unposted_text, queued_record, unstarted_record,
  is_posting_error, post_pending, unposted, launch_phases, start_queued, start,
}
use afk_pipeline.Pr.Jobs.Launched.{count, launch_phases-Keeps, launch_phases-AtMost}
use afk_pipeline.Pr.Jobs.Recorded.{
  Recorded, lookup-set_all, All-any, written, Recorded-IsKeptBy, HasRuns-IsKeptBy,
}

-- A cleanup had started: nothing is done.
pub record IsGuarded (before : Store) (r : Result (Unit {0})) (after : Store) : Type 0 where
  pub marker : Value
  pub has_marker : before.cleanup ≡ some marker
  pub error : Exc
  pub raised : r ≡ err error
  pub same : after ≡ before

-- The pending status could not be set: the attempt is the one effect, and no worker was launched.
pub record IsUnposted (w : World) (phases : List String) (before : Store) (r : Result (Unit {0}))
    (after : Store) : Type 0 where
  pub no_cleanup : before.cleanup ≡ none
  pub fixtures : has_fixtures phases ≡ true
  pub error : Exc
  pub failed : w.fixture_status (status_set "pending" ∷ before.log) "pending" ≡ err error
  pub raised : (e : Exc) × (r ≡ err e)
  pub one_effect : after.log ≡ status_set "pending" ∷ before.log
  pub recorded :
      All
        (λ p.
          lookup p after.phases
          ≡ some (if is_posting_error error then unstarted_record else queued_record))
        phases

-- The pending status, where fixtures are among the phases, was set before any launch. Of each phase no more
-- workers were launched than it stands in the list, each phase has a record, and no phase was run.
pub record IsLaunched (w : World) (phases : List String) (before after : Store) : Type 0 where
  pub no_cleanup : before.cleanup ≡ none
  pub posted :
      (has_fixtures phases ≡ false)
      ⊎ (w.fixture_status (status_set "pending" ∷ before.log) "pending" ≡ ok tt)
  pub at_most_once : (p : String) → launches p after.log ≤ count p phases + launches p before.log
  pub recorded : All (λ p. Recorded p after) phases
  pub same_runs : runs after.log ≡ runs before.log

abbrev pub IsStarted :
    (w : World) (phases : List String) (before : Store) (r : Result (Unit {0})) (after : Store)
    → Type 0
IsStarted w phases before r after =
    IsGuarded before r after
    ⊎ (IsUnposted w phases before r after ⊎ IsLaunched w phases before after)

module _ (w : World) (phases : List String) (s : Store) where
  abbrev queued_with : List Effect → Store
  queued_with log = record s {
    job = expecting phases s.job;
    phases = set_all queued_record phases s.phases;
    log = log;
  }

  launch_phases-IsLaunched :
      (d : Store)
      → s.cleanup ≡ none
      → (has_fixtures phases ≡ false)
        ⊎ (w.fixture_status (status_set "pending" ∷ s.log) "pending" ≡ ok tt)
      → ((p : String) → launches p d.log ≤ launches p s.log)
      → runs d.log ≡ runs s.log
      → d.phases ≡ set_all queued_record phases s.phases
      → IsLaunched w phases s (launch_phases w phases d).1
  launch_phases-IsLaunched d none_yet posted before same e = record {
    no_cleanup = none_yet;
    posted = posted;
    at_most_once = λ p. launch_phases-AtMost w p phases (launches p s.log) d (before p);
    recorded =
        All-any (λ p. Recorded p (launch_phases w phases d).1) phases
          (λ p h.
            (launch_phases-Keeps w (Recorded p) (Recorded-IsKeptBy w 0 p) phases).at d
              (queued_record, ap (lookup p) e ∙ lookup-set_all p queued_record phases s.phases h));
    same_runs =
        (launch_phases-Keeps w (λ m. runs m.log ≡ runs s.log) (HasRuns-IsKeptBy w (runs s.log))
            phases).at
          d same;
  }

  abbrev posted_store : Store
  posted_store = queued_with (status_set "pending" ∷ s.log)

  start_queued-IsStarted :
      s.cleanup ≡ none
      → IsStarted w phases s (start_queued w phases s).0 (start_queued w phases s).1
  unfolding start_queued post_pending unposted try_except ◌>>=◌
  start_queued-IsStarted none_yet = by_fixtures (has_fixtures phases) refl
    where
      after_failure : Exc → Bool → Result (Unit {0}) × Store
      after_failure x contained =
          let (r, d) =
            (if contained
                then (write_all unstarted_record phases >>= λ _.
                    raise {A = Unit {0}} (runtime_error unposted_text))
                else raise x)
              posted_store in
          proceed r (λ _. launch_phases w phases) d

      by_contained :
          (x : Exc) (contained : Bool)
          → has_fixtures phases ≡ true
          → w.fixture_status (status_set "pending" ∷ s.log) "pending" ≡ err x
          → is_posting_error x ≡ contained
          → IsUnposted w phases s (after_failure x contained).0 (after_failure x contained).1
      by_contained x true fixtures failed c = record {
        no_cleanup = none_yet;
        fixtures = fixtures;
        error = x;
        failed = failed;
        raised = (_, refl);
        one_effect = refl;
        recorded = rw c (written unstarted_record phases (set_all queued_record phases s.phases));
      }
      by_contained x false fixtures failed c = record {
        no_cleanup = none_yet;
        fixtures = fixtures;
        error = x;
        failed = failed;
        raised = (_, refl);
        one_effect = refl;
        recorded = rw c (written queued_record phases s.phases);
      }

      after_post : Result (Unit {0}) → Result (Unit {0}) × Store
      after_post answer =
          let (r, d) = handled (unposted w phases) answer posted_store in
          proceed r (λ _. launch_phases w phases) d

      by_status :
          (answer : Result (Unit {0}))
          → has_fixtures phases ≡ true
          → w.fixture_status (status_set "pending" ∷ s.log) "pending" ≡ answer
          → IsStarted w phases s (after_post answer).0 (after_post answer).1
      by_status (ok u) fixtures answered = inr (
          inr (
            launch_phases-IsLaunched posted_store none_yet (inr answered) (λ p. at_most p) refl
              refl))
        where
          at_most : (p : String) → launches p s.log ≤ launches p s.log
          at_most p = omega arith
      by_status (err x) fixtures answered =
          inr (inl (by_contained x (is_posting_error x) fixtures answered refl))

      act : Bool → Result (Unit {0}) × Store
      act fixtures =
          let (r, d) =
            (if fixtures then try_except (post_pending w) (unposted w phases) else pure tt)
              (queued_with s.log) in
          proceed r (λ _. launch_phases w phases) d

      by_fixtures :
          (fixtures : Bool)
          → has_fixtures phases ≡ fixtures
          → IsStarted w phases s (act fixtures).0 (act fixtures).1
      by_fixtures true e =
          by_status (w.fixture_status (status_set "pending" ∷ s.log) "pending") e refl
      by_fixtures false e = inr (
          inr (
            launch_phases-IsLaunched (queued_with s.log) none_yet (inl e) (λ p. at_most p) refl
              refl))
        where
          at_most : (p : String) → launches p s.log ≤ launches p s.log
          at_most p = omega arith

  -- Starting the phases of a job has one of three outcomes. If a cleanup had started, it raises, and nothing
  -- is changed. If fixtures are among the phases and the pending status cannot be set, it raises, the attempt
  -- is the one effect, and each phase is recorded as not started if the error is contained, as queued if it is
  -- not. Otherwise the pending status, where there are fixtures, was set before any launch; then, whatever the
  -- launches answer, no phase gets more workers than it stands in the list, each has a record, and none was
  -- run.
  pub start-IsStarted : IsStarted w phases s (start w phases s).0 (start w phases s).1
  unfolding start guarded ◌>>=◌
  start-IsStarted = by_marker s.cleanup refl
    where
      act : Option Value → Result (Unit {0}) × Store
      act marker =
          proceed (marker_allows "start" marker)
            (λ allowed.
              if allowed
              then start_queued w phases
              else raise (value_error "workspace cleanup started; this job cannot restart"))
            s

      by_marker :
          (marker : Option Value)
          → s.cleanup ≡ marker
          → IsStarted w phases s (act marker).0 (act marker).1
      by_marker none e = start_queued-IsStarted e
      by_marker (some m) e = inl (record {
        marker = m;
        has_marker = e;
        error = value_error "workspace cleanup started; this job cannot restart";
        raised = refl;
        same = refl;
      })
