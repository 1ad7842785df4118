-- ===== src/Pr/Jobs/Runs.antt =====
-- When the workers of afk_pr/jobs.py run the code of a phase.
use afk_pipeline.Prelude.{
  ℕ, ◌+◌, String, Bool, true, false, Option, none, some, ◌≡◌, ◌⊎◌, inl, inr, refl, ◌∙◌,
  if◌then◌else◌,
}
use afk_pipeline.Py.Value.{Value, is_text, lookup}
use afk_pipeline.Py.Read.{index}
use afk_pipeline.Py.Result.{Result, ok, err, value_error}
use afk_pipeline.Py.Action.{raise, proceed, ◌>>=◌}
use afk_pipeline.Py.Action.Keeps.{Keeps-bind, Keeps-gets, bind-at, modify-at}
use afk_pipeline.Pr.Jobs.Store.{Store, World, Worker, file}
use afk_pipeline.Pr.Jobs.Work.{runs, launches}
use afk_pipeline.Pr.Jobs.Kept.{publish-IsKept}
use afk_pipeline.Pr.Jobs.Stable.{IsStable, outcome_of-Keeps, record_outcome-Keeps}
use afk_pipeline.Pr.Jobs.Worker.{
  marker_allows, guarded, execute_phase, record_outcome, run_phase, start_phase, worker,
}

module _ (w : World) (n : ℕ) where
  abbrev HasRuns : Store → Type 0
  HasRuns s = runs s.log ≡ n

  pub HasRuns-IsStable : IsStable w HasRuns
  HasRuns-IsStable = record {
    writing = λ phase v m h. h;
    sealing = λ v m h. h;
    publishing = λ phase. record { at = λ m h. (publish-IsKept w phase m).same_runs ∙ h };
  }

  pub HasLaunches-IsStable : (phase : String) → IsStable w (λ s. launches phase s.log ≡ n)
  HasLaunches-IsStable phase = record {
    writing = λ p v m h. h;
    sealing = λ v m h. h;
    publishing = λ p. record { at = λ m h. (publish-IsKept w p m).same_launches phase ∙ h };
  }

execute_phase-runs :
    (w : World) (phase : String) (s : Store) → runs (execute_phase w phase s).1.log ≡ 1 + runs s.log
unfolding execute_phase
execute_phase-runs w phase s = modify-at (HasRuns w (1 + runs s.log)) _ _ s (
    (Keeps-bind _ _ (Keeps-gets _)
        (λ t. outcome_of-Keeps (HasRuns w (1 + runs s.log)) (w.execute t.log phase))).at
      _ refl)

-- the code of the phase ran once
run_phase-runs :
    (w : World) (phase : String) (s : Store) → runs (run_phase w phase s).1.log ≡ 1 + runs s.log
unfolding run_phase ◌>>=◌
run_phase-runs w phase s =
    bind-at (execute_phase w phase) (λ outcome. record_outcome w phase outcome) _
      (execute_phase-runs w phase _)
      (record_outcome-Keeps w _ (HasRuns-IsStable w (1 + runs s.log)) phase)

-- Where the worker of a phase runs its code, it runs it once, the lock of the phase was free, no cleanup of
-- the job had started, and the phase was queued.
pub record HasRun (is_free : Bool) (phase : String) (before after : Store) : Type 0 where
  pub once : runs after.log ≡ 1 + runs before.log
  pub was_free : is_free ≡ true
  pub no_cleanup : before.cleanup ≡ none
  pub queue_record : Value
  pub had_record : lookup phase before.phases ≡ some queue_record
  pub state : Value
  pub has_state : index queue_record "state" ≡ ok state
  pub queued : is_text state "queued" ≡ true

module _ (w : World) (phase : String) (s : Store) where
  start_phase-HasRun :
      s.cleanup ≡ none
      → (runs (start_phase w phase s).1.log ≡ runs s.log)
        ⊎ HasRun true phase s (start_phase w phase s).1
  unfolding start_phase ◌>>=◌
  start_phase-HasRun none_yet = by_record (lookup phase s.phases) refl
    where
      act : Bool → Worker Unit
      act queued =
          if queued
          then run_phase w phase
          else raise (value_error "phase has already started; inspect its retained work")

      by_queued :
          (v state : Value)
          → lookup phase s.phases ≡ some v
          → index v "state" ≡ ok state
          → (queued : Bool) → is_text state "queued" ≡ queued
          → (runs (act queued s).1.log ≡ runs s.log) ⊎ HasRun true phase s (act queued s).1
      by_queued v state e d true q = inr (record {
        once = run_phase-runs w phase s;
        was_free = refl;
        no_cleanup = none_yet;
        queue_record = v;
        had_record = e;
        state = state;
        has_state = d;
        queued = q;
      })
      by_queued v state e d false q = inl refl

      by_state :
          (v : Value)
          → lookup phase s.phases ≡ some v
          → (r : Result Value) → index v "state" ≡ r
          → (runs (proceed r (λ state. act (is_text state "queued")) s).1.log ≡ runs s.log)
            ⊎ HasRun true phase s (proceed r (λ state. act (is_text state "queued")) s).1
      by_state v e (ok state) d = by_queued v state e d (is_text state "queued") refl
      by_state v e (err x) d = inl refl

      by_record :
          (x : Option Value)
          → lookup phase s.phases ≡ x
          → (runs
                (proceed
                  (file x)
                  (λ v. proceed (index v "state") (λ state. act (is_text state "queued")))
                  s).1.log
              ≡ runs s.log)
            ⊎ HasRun true phase s
                (proceed
                  (file x)
                  (λ v. proceed (index v "state") (λ state. act (is_text state "queued")))
                  s).1
      by_record none e = inl refl
      by_record (some v) e = by_state v e (index v "state") refl

  -- A worker runs the code of its phase once or not at all; where it runs it, the lock of the phase was free,
  -- no cleanup of the job had started, and the phase was queued.
  pub worker-HasRun :
      (is_free : Bool)
      → (runs (worker w is_free phase s).1.log ≡ runs s.log)
        ⊎ HasRun is_free phase s (worker w is_free phase s).1
  unfolding worker guarded ◌>>=◌
  worker-HasRun is_free = by_marker s.cleanup refl is_free
    where
      act : Bool → Worker Unit
      act is_free =
          if is_free then start_phase w phase else raise (value_error "phase already running")

      by_marker :
          (marker : Option Value)
          → s.cleanup ≡ marker
          → (is_free : Bool)
          → (runs
                (proceed
                  (marker_allows "worker" marker)
                  (λ b.
                    if b
                    then act is_free
                    else raise (value_error "workspace cleanup started; this job cannot restart"))
                  s).1.log
              ≡ runs s.log)
            ⊎ HasRun is_free phase s
                (proceed
                  (marker_allows "worker" marker)
                  (λ b.
                    if b
                    then act is_free
                    else raise (value_error "workspace cleanup started; this job cannot restart"))
                  s).1
      by_marker none e true = start_phase-HasRun e
      by_marker none e false = inl refl
      by_marker (some m) e is_free = inl refl
