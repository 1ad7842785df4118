-- ===== src/Orchestrate/Tests.antt =====
-- Runs of the driver in afk_orchestrate/ at concrete answers.
use afk_pipeline.Prelude.{String, pos, false, none, some, List, [], ◌∷◌, ◌≡◌, refl, arith}
use afk_pipeline.Py.Value.{Value, Fields, null, str, list, dict, nil, cons, end, field}
use afk_pipeline.Py.Result.{ok}
use afk_pipeline.Py.Text.{matches_hex}
use afk_pipeline.Py.Action.{◌>>=◌, try_except}
use afk_pipeline.Orchestrate.State.{
  World, Machine, State, running, ready_for_merge, Stage, review_wait, response_submit, nothing,
  exited, log_event, request_repair, move_to, pause_run, record_event,
}
use afk_pipeline.Orchestrate.Commands.{command, invoke, argument}
use afk_pipeline.Orchestrate.Receipts.{revision}
use afk_pipeline.Orchestrate.Validation.{repairable_validation}
use afk_pipeline.Orchestrate.Selected.{selected, matching, is_unsettled}
use afk_pipeline.Orchestrate.Step.{step}
use afk_pipeline.Orchestrate.Step.Stages.{run_stage}
use afk_pipeline.Orchestrate.Run.{resume, resume_state, resume_from, extend_budget}
use afk_pipeline.Orchestrate.Reach.{here, stepped, resumed}
use afk_pipeline.Orchestrate.Budget.{IsWithin, Reach-IsWithin}
use afk_pipeline.Orchestrate.History.{Continues, step-Continues}
use afk_pipeline.Orchestrate.Current.{Observed, selected-Observed}
use afk_pipeline.Orchestrate.Ready.{Approval, step-ready}

abbrev sha_a : String
sha_a = "aaaaaaaaaaaaaaaaaaaaaaaaaaaaaaaaaaaaaaaa"

abbrev sha_b : String
sha_b = "bbbbbbbbbbbbbbbbbbbbbbbbbbbbbbbbbbbbbbbb"

abbrev job_a : String
job_a = "0123456789abcdef"

abbrev obj : List (String × Value) → Fields
obj [] = end
obj ((k, v) ∷ rest) = field k v (obj rest)

abbrev one : Value → Value
one v = list (cons v nil)

-- a status answer on a job whose review has the given findings
abbrev answered : Value → Value
answered findings = dict (
    obj (
      ("head", str sha_a)
      ∷ ("decision", dict (obj (("recommendation", str "continue") ∷ ("base", str sha_b) ∷ [])))
      ∷ (
        "jobs",
        one (
            dict (
              obj (
                ("job", dict (obj (("id", str job_a) ∷ ("head", str sha_a) ∷ [])))
                ∷ (
                  "phases",
                  dict (
                      obj (
                        (
                          "review",
                          dict (
                              obj (
                                (
                                  "result",
                                  dict (obj (("head", str sha_a) ∷ ("findings", findings) ∷ [])),
                                )
                                ∷ [])),
                        )
                        ∷ [])),
                )
                ∷ []))),
      )
      ∷ []))

abbrev world : Value → World
world v = record {
  run = λ calls line. exited 0 (some v);
  diagnostic = λ calls. none;
  now = λ calls events. "t";
}

abbrev start : Stage → State
start stage = record {
  id = "r";
  bead_id = "b";
  config = "c";
  status = running;
  stage = stage;
  repairs = 1;
  max_repairs = 2;
  generation = 0;
  created_at = "t";
  updated_at = "t";
  events = [];
  pr_url = some (str "u");
  creation_job = some job_a;
  active_job = some job_a;
  head = some sha_a;
  base = some sha_b;
  reason = none;
  details = nothing;
  failures = 0;
  failing_command = none;
}

abbrev waiting : Machine
waiting = record { state = start review_wait; calls = [] }

program : Unit {0}
unfolding step run_stage selected command invoke argument matching is_unsettled
    repairable_validation revision request_repair move_to pause_run record_event log_event
    try_except ◌>>=◌ resume resume_state resume_from extend_budget matches_hex
program = tt

clean_review_is_ready : (step (world (answered (list nil))) waiting).state.status ≡ ready_for_merge
unfolding program
clean_review_is_ready = refl

findings_are_repaired :
    let s = (step (world (answered (one (str "f")))) waiting).state in
    (s.stage ≡ response_submit) × (s.repairs ≡ 2)
unfolding program
findings_are_repaired = (refl, refl)

step-ready_example : Approval (world (answered (list nil))) waiting
step-ready_example = step-ready (world (answered (list nil))) waiting refl clean_review_is_ready

step-Continues_example : Continues waiting (step (world null) waiting)
step-Continues_example = step-Continues (world null) waiting

abbrev stopped : Machine
stopped = step (world null) waiting

-- the state after a resume that adds three repairs
extended : (m : Machine) × (resume (world null) false (some (pos 3)) false stopped ≡ ok m)
unfolding program
extended = (_, refl)

Reach-IsWithin_example : IsWithin 5 extended.0
Reach-IsWithin_example =
    Reach-IsWithin (world null) 2 (record { limited = refl; within = omega arith })
      (resumed {n = stopped} {n' = extended.0} false (some (pos 3)) (stepped here) extended.1 refl)

selected_returns :
    (item : Value) × ((selected (world (answered (list nil))) job_a waiting).0
      ≡ ok (some (answered (list nil), item)))
unfolding program
selected_returns = (_, refl)

selected-Observed_example :
    Observed (world (answered (list nil))) waiting job_a (answered (list nil)) selected_returns.0
selected-Observed_example =
    selected-Observed (world (answered (list nil))) job_a waiting (answered (list nil))
      selected_returns.0 selected_returns.1
