-- ===== src/Orchestrate/Step.antt =====
-- `step` of afk_orchestrate/driver.py: one transition of a run.
pub mod Stages
unfoldable pub use Stages.{run_stage}
use afk_pipeline.Prelude.{
  String, Bool, true, false, ◌||◌, Option, none, some, List, [], ◌∷◌, if◌then◌else◌, str_eq, ◌+◌,
  ltb, ℕ,
}
use afk_pipeline.Py.Result.{
  Exc, key_error, value_error, runtime_error, type_error, attribute_error, os_error,
  subprocess_error, command_failure,
}
use afk_pipeline.Py.Action.{pure, gets, lift, ◌>>=◌, ◌>>◌, try_except}
use afk_pipeline.Orchestrate.State.{
  World, Machine, Driver, State, Status, running, paused, ready_for_merge, Stage, Details,
  command_error, exception, observation_retry, update, record_event, pause_run,
}

-- The commands that only read; any other may have had its effect when its answer was lost.
abbrev pub is_observation : String → Bool
is_observation command = str_eq command "status" || str_eq command "job" || str_eq command "context"

abbrev pub earlier : Option String → String → ℕ → ℕ
earlier none command failures = 0
earlier (some c) command failures = if str_eq c command then failures else 0

-- `except CommandFailure`
unfoldable pub command_failed : World → Stage → String → Option String → Driver Unit
command_failed w stage command diagnostic = do
  s ← gets (λ m. m.state)
  let details = command_error command diagnostic stage
  let failures = earlier s.failing_command command s.failures + 1
  if is_observation command
      then (do
        update (λ t. record t { failing_command = some command; failures = failures })
        if ltb failures 3
            then record_event w (observation_retry failures details)
            else pause_run w "command_or_evidence_error" details)
      else pause_run w "command_or_evidence_error" details

unfoldable pub recover : World → Stage → Exc → Driver Unit
unfolding command_failed
recover w stage (command_failure command diagnostic) = command_failed w stage command diagnostic
recover w stage e = pause_run w "command_or_evidence_error" (exception e stage)

unfoldable pub advance_stage : World → Stage → Driver Unit
unfolding recover
advance_stage w stage = try_except (run_stage w stage) (recover w stage)

abbrev pub on_status : World → Status → Stage → Driver Unit
on_status w running stage = advance_stage w stage
on_status w _ stage = pure tt

unfoldable pub step : World → Machine → Machine
unfolding advance_stage
step w m = (on_status w m.state.status m.state.stage m).1
