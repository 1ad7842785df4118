-- ===== src/Records/Coordinator/Output.antt =====
-- The terminal output of a Coordinator Run: `validate_output` of afk_records/coordinator.py, and
-- `output_from_state` and `require_terminal_pair` of afk_records/continuation.py.
use afk_pipeline.Prelude.{ℕ, suc, pos, String, List, [], ◌∷◌, if◌then◌else◌}
use afk_pipeline.Py.Value.{
  Value, Fields, field, end, null, int, str, list, dict, items, is_text, py_eq,
}
use afk_pipeline.Py.Read.{index}
use afk_pipeline.Py.Result.{Result, ok, err, type_error, value_error, ◌>>=◌}
use afk_pipeline.Py.Shape.{has_keys, at, require, set_field}
use afk_pipeline.Records.Coordinator.Checkpoint.{length_of, validate_checkpoint}

-- the checkpoint of which the output tells
unfoldable pub checkpoint_of : (status : String) (schema history terminal : Value) → ℕ → Value
checkpoint_of status schema history terminal count = dict (
    field "schema_version" schema (
      field "status" (str status) (
        field "next_sequence" (int (pos (suc count))) (
          field "next_component" null (
            field "active_invocation" null
              (field "history" history (field "terminal" terminal end)))))))

abbrev pub completed_keys : List String
completed_keys = "schema_version" ∷ "outcome" ∷ "decision" ∷ "history" ∷ []

abbrev pub failed_keys : List String
failed_keys =
    "schema_version" ∷ "outcome" ∷ "failed_component" ∷ "component_outcome" ∷ "exit_code"
    ∷ "history" ∷ []

abbrev pub check_output :
    Fields → (status : String) → List String → (terminal : Value) → Value → Result (Unit {0})
check_output output status keys terminal (list vs) = do
  _ ← require (value_error "invalid coordinator output") (has_keys keys output)
  validate_checkpoint
      (checkpoint_of status (at output "schema_version") (list vs) terminal (length_of (items vs)))
check_output output status keys terminal _ = err (value_error "invalid coordinator output")

unfoldable pub completed_terminal : Fields → Value
completed_terminal output = dict (field "decision" (at output "decision") end)

unfoldable pub failed_terminal : Fields → Value
failed_terminal output = dict (
    field "failed_component" (at output "failed_component") (
      field "component_outcome" (at output "component_outcome")
        (field "exit_code" (at output "exit_code") end)))

-- it returns the output, which is its argument
unfoldable pub validate_output : Value → Result (Unit {0})
validate_output (dict output) =
    if is_text (at output "outcome") "completed"
    then check_output output "completed" completed_keys (completed_terminal output)
        (at output "history")
    else if is_text (at output "outcome") "failed"
    then check_output output "failed" failed_keys (failed_terminal output) (at output "history")
    else err (value_error "invalid coordinator output")
validate_output _ = err type_error

-- {**fields, **v}
unfoldable pub spread : Fields → Value → Result Fields
spread fs (dict end) = ok fs
spread fs (dict (field k v more)) = spread (set_field k v fs) (dict more)
spread fs _ = err type_error

unfoldable pub output_of_completed : Value → Result Value
output_of_completed state = do
  terminal ← index state "terminal"
  decision ← index terminal "decision"
  history ← index state "history"
  ok (
      dict (
        field "schema_version" (int (pos 1)) (
          field "outcome" (str "completed")
            (field "decision" decision (field "history" history end)))))

unfoldable pub output_of_failed : Value → Result Value
output_of_failed state = do
  terminal ← index state "terminal"
  fields ←
      spread (field "schema_version" (int (pos 1)) (field "outcome" (str "failed") end)) terminal
  history ← index state "history"
  ok (dict (set_field "history" history fields))

unfoldable pub output_from_state : Value → Result Value
output_from_state state = do
  status ← index state "status"
  if is_text status "completed"
      then output_of_completed state
      else if is_text status "failed"
      then output_of_failed state
      else err (value_error "running Coordinator checkpoint has no terminal output")

unfoldable pub require_terminal_pair : (state output : Value) → Result (Unit {0})
require_terminal_pair state output = do
  expected ← output_from_state state
  require (value_error "terminal output does not match coordinator checkpoint")
      (py_eq output expected)
