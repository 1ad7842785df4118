-- ===== src/Records/Tests/Run.antt =====
-- Checkpoints and continuations of a Coordinator Run whose Validation failed.
use afk_pipeline.Prelude.{
  ℕ, pos, String, true, none, some, List, [], ◌∷◌, ◌++◌, ◌≡◌, refl, str_eq, if◌then◌else◌,
}
use afk_pipeline.Py.Value.{Value, Fields, null, int, str, dict, py_eq}
use afk_pipeline.Py.Build.{object, array, obj}
use afk_pipeline.Py.Result.{Result, ok, err, os_error}
use afk_pipeline.Py.Text.{decimal}
use afk_pipeline.Records.Coordinator.Topology.{invalid}
use afk_pipeline.Records.Coordinator.Invocation.{
  directory_name, is_input, valid_invocation_record, validate_continuation,
}
use afk_pipeline.Records.Coordinator.Sources.{
  latest_record, validation_repair_source, expected_input_sources,
}
use afk_pipeline.Records.Coordinator.Terminal.{
  validate_terminal, last_real, is_iterated, check_completed, check_failed,
  validate_terminal_history,
}
use afk_pipeline.Records.Coordinator.Checkpoint.{
  sequence_of, check_records, follow, walk, check_active_position, check_idle_position,
  validate_history_position, check_active, check_history, validate_checkpoint,
}
use afk_pipeline.Records.Coordinator.Output.{
  checkpoint_of, completed_terminal, failed_terminal, validate_output, spread, output_of_completed,
  output_of_failed, output_from_state, require_terminal_pair,
}
use afk_pipeline.Records.Coordinator.Stands.{IsCheckpoint}
use afk_pipeline.Records.Coordinator.Sound.{validate_checkpoint-IsCheckpoint}
use afk_pipeline.Records.Coordinator.Progress.{IsReady, validate_checkpoint-IsReady}
use afk_pipeline.Records.Coordinator.Completed.{validate_output-output_from_state}
use afk_pipeline.Records.Continuation.Exhausted.{
  is_row, completed_responses, first_row, exhausted_repair, exhausted_iteration,
  require_exhausted_structure, linked, validate_link,
}
use afk_pipeline.Records.Continuation.Lineage.{
  Kind, Continuations, Observer, Observed, Lineage, continuation_directories, deferred, read_output,
  observe_one, prior_of, observe, selection, observe_lineage,
}
use afk_pipeline.Records.Continuation.Lineage.Chain.{Chain, observe_lineage-Chain}

program : Unit {0}
unfolding decimal directory_name is_input valid_invocation_record validate_continuation
    latest_record validation_repair_source expected_input_sources validate_terminal last_real
    is_iterated check_completed check_failed validate_terminal_history sequence_of check_records
    follow walk check_active_position check_idle_position validate_history_position check_active
    check_history validate_checkpoint checkpoint_of completed_terminal failed_terminal
    validate_output spread output_of_completed output_of_failed output_from_state
    require_terminal_pair is_row completed_responses first_row exhausted_repair exhausted_iteration
    require_exhausted_structure linked validate_link continuation_directories deferred read_output
    observe_one prior_of observe selection observe_lineage py_eq
program = tt

abbrev attempted : Value
attempted = object (
    ("sequence", int (pos 1))
    ∷ ("component", str "attempt")
    ∷ ("directory", str "01-attempt")
    ∷ ("input_from", object (("assignment", str "assignment.json") ∷ []))
    ∷ ("outcome", str "succeeded")
    ∷ [])

abbrev validating : List (String × Value)
validating =
    ("sequence", int (pos 2))
    ∷ ("component", str "validation")
    ∷ ("directory", str "02-validation")
    ∷ (
      "input_from",
      object (("workspace", str "assignment.json") ∷ ("change", str "01-attempt") ∷ []),
    )
    ∷ []

abbrev failed_validation : Value
failed_validation = object (validating ++ ("outcome", str "failed") ∷ [])

abbrev failed_response : Value
failed_response = object (
    ("sequence", int (pos 3))
    ∷ ("component", str "response")
    ∷ ("directory", str "03-response")
    ∷ ("input_from", object (("validation", str "02-validation") ∷ []))
    ∷ ("outcome", str "failed")
    ∷ [])

abbrev checkpoint :
    (status : String) (sequence : ℕ) (component active : Value) (history : List Value)
    (terminal : Value)
    → Fields
checkpoint status sequence component active history terminal = obj (
    ("schema_version", int (pos 1))
    ∷ ("status", str status)
    ∷ ("next_sequence", int (pos sequence))
    ∷ ("next_component", component)
    ∷ ("active_invocation", active)
    ∷ ("history", array history)
    ∷ ("terminal", terminal)
    ∷ [])

-- the Validation is at work
abbrev at_work : Fields
at_work = checkpoint "running" 3 (str "validation") (object validating) (attempted ∷ []) null

at_work_accepted : validate_checkpoint (dict at_work) ≡ ok tt
unfolding program
at_work_accepted = refl

validate_checkpoint-IsCheckpoint_example : IsCheckpoint at_work
validate_checkpoint-IsCheckpoint_example = validate_checkpoint-IsCheckpoint at_work at_work_accepted

validate_checkpoint-IsReady_example : IsReady at_work
validate_checkpoint-IsReady_example = validate_checkpoint-IsReady at_work at_work_accepted refl

-- a history that skips the Validation is refused
skipping :
    validate_checkpoint (dict (checkpoint "running" 2 (str "change") null (attempted ∷ []) null))
    ≡ err invalid
unfolding program
skipping = refl

-- no response was left to repair the Validation
abbrev stopped_state : Fields
stopped_state =
    checkpoint "completed" 3 null null (attempted ∷ failed_validation ∷ [])
      (object (("decision", str "exhausted") ∷ []))

abbrev stopped : Value
stopped = dict stopped_state

abbrev stopped_output : Value
stopped_output = object (
    ("schema_version", int (pos 1))
    ∷ ("outcome", str "completed")
    ∷ ("decision", str "exhausted")
    ∷ ("history", array (attempted ∷ failed_validation ∷ []))
    ∷ [])

stopped_accepted : validate_checkpoint stopped ≡ ok tt
unfolding program
stopped_accepted = refl

stopped_made : output_from_state stopped ≡ ok stopped_output
unfolding program
stopped_made = refl

validate_output-output_from_state_example : validate_output stopped_output ≡ ok tt
validate_output-output_from_state_example =
    validate_output-output_from_state stopped_state stopped_output stopped_accepted refl
      stopped_made

abbrev more : Value
more = object (
    ("schema_version", int (pos 1))
    ∷ ("additional_responses", int (pos 1))
    ∷ ("completed_responses", int (pos 0))
    ∷ ("effective_max_responses", int (pos 1))
    ∷ ("prior_output", str "../../output.json")
    ∷ [])

abbrev went_on : Value
went_on = object (
    ("continuation", more)
    ∷ ("schema_version", int (pos 1))
    ∷ ("status", str "failed")
    ∷ ("next_sequence", int (pos 4))
    ∷ ("next_component", null)
    ∷ ("active_invocation", null)
    ∷ ("history", array (attempted ∷ failed_validation ∷ failed_response ∷ []))
    ∷ (
      "terminal",
      object (
          ("failed_component", str "response")
          ∷ ("component_outcome", str "failed")
          ∷ ("exit_code", null)
          ∷ []),
    )
    ∷ [])

abbrev went_on_output : Value
went_on_output = object (
    ("schema_version", int (pos 1))
    ∷ ("outcome", str "failed")
    ∷ ("failed_component", str "response")
    ∷ ("component_outcome", str "failed")
    ∷ ("exit_code", null)
    ∷ ("history", array (attempted ∷ failed_validation ∷ failed_response ∷ []))
    ∷ [])

output_accepted : validate_output went_on_output ≡ ok tt
unfolding program
output_accepted = refl

-- the file of the first continuation
abbrev in_first : String → Result Value
in_first file =
    if str_eq file "input.json"
    then ok more
    else if str_eq file "state.json"
    then ok went_on
    else if str_eq file "output.json"
    then ok went_on_output
    else err os_error

abbrev one_more : Continuations
one_more = record {
  root = Kind.directory;
  entries = ("01", Kind.directory) ∷ [];
  read_json = λ name file. if str_eq name "01" then in_first file else err os_error;
  has_output = λ name. true;
}

abbrev plain : Observer
plain = record {
  read_component = λ roots row file. ok (object (("outcome", str "failed") ∷ []));
  exhaustion_verifiers = none;
  allow_running = true;
  terminal_continuation = some "01";
  defer_error = none;
}

abbrev first_item : Observed
first_item = record {
  directory = some "01";
  input = more;
  state = went_on;
  output = some went_on_output;
}

abbrev seen : Lineage
seen = record {
  continuations = first_item ∷ [];
  selected = some first_item;
  directories = "01" ∷ [];
  deferred_errors = [];
}

observed : observe_lineage one_more plain stopped stopped_output 0 ≡ ok seen
unfolding program
observed = refl

observe_lineage-Chain_example : Chain stopped (first_item ∷ [])
observe_lineage-Chain_example =
    observe_lineage-Chain one_more plain stopped stopped_output 0 seen observed
