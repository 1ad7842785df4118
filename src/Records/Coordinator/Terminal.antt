-- ===== src/Records/Coordinator/Terminal.antt =====
-- `validate_terminal` and `validate_terminal_history` of afk_records/coordinator.py.
use afk_pipeline.Prelude.{
  String, Bool, false, not, ◌&&◌, ◌||◌, Option, none, some, List, [], ◌∷◌, if◌then◌else◌,
}
use afk_pipeline.Py.Value.{Value, field, end, str, dict, is_text, is_null, is_str, is_int, py_eq}
use afk_pipeline.Py.Read.{index, in_set}
use afk_pipeline.Py.Result.{Result, ok, err, ◌>>=◌}
use afk_pipeline.Py.Shape.{has_keys, at, require, is_some}
use afk_pipeline.Records.Coordinator.Topology.{
  Component, success, outcomes, component_of, found, invalid,
}
use afk_pipeline.Records.Coordinator.Sources.{validation_repair_source}

abbrev pub exhausted : Value
exhausted = dict (field "decision" (str "exhausted") end)

-- the "terminal" of a completed run
abbrev pub check_decision : Value → Result (Unit {0})
check_decision (dict fs) =
    if has_keys ("decision" ∷ []) fs
    then (do known ← in_set (at fs "decision") ("stop" ∷ "exhausted" ∷ []); require invalid known)
    else err invalid
check_decision v = err invalid

abbrev pub failure_keys : List String
failure_keys = "failed_component" ∷ "component_outcome" ∷ "exit_code" ∷ []

-- the "terminal" of a failed run
abbrev pub check_failure : Value → Result (Unit {0})
check_failure (dict fs) =
    if has_keys failure_keys fs
    then (do
      c ← component_of (at fs "failed_component")
      require invalid (
          is_some c
          && is_str (at fs "component_outcome")
          && (is_null (at fs "exit_code") || is_int (at fs "exit_code"))))
    else err invalid
check_failure v = err invalid

unfoldable pub validate_terminal : (status terminal : Value) → Result (Unit {0})
validate_terminal status terminal =
    if is_text status "running"
    then require invalid (is_null terminal)
    else if is_text status "completed"
    then check_decision terminal
    else check_failure terminal

-- the latest record that was not abandoned
unfoldable pub last_real : List Value → Result (Option Value)
last_real [] = ok none
last_real (record_ ∷ rest) =
    let older = last_real rest in
    do
      outcome ← index record_ "outcome"
      if is_text outcome "abandoned" then older else ok (some record_)

-- whether the latest record is a completed Iteration
unfoldable pub is_iterated : Value → Result Bool
is_iterated last = do
  component ← index last "component"
  if is_text component "iteration"
      then (do outcome ← index last "outcome"; ok (is_text outcome "completed"))
      else ok false

abbrev pub check_repair : List Value → Value → Result (Unit {0})
check_repair history terminal =
    if py_eq terminal exhausted
    then (do source ← validation_repair_source history; require invalid (is_some source))
    else err invalid

-- outcome in COMPONENT_TOPOLOGY[c]["outcomes"], and not its success
abbrev pub is_failure : Component → Value → Result Bool
is_failure c outcome = do
  known ← in_set outcome (outcomes c)
  ok (known && not (is_text outcome (success c)))

abbrev pub check_cause : Value → Option Value → Result (Unit {0})
check_cause terminal none = err invalid
check_cause terminal (some record_) = do
  component ← index record_ "component"
  known ← component_of component
  c ← found known
  failed ← index terminal "failed_component"
  outcome ← index record_ "outcome"
  wanted ← index terminal "component_outcome"
  if py_eq component failed && py_eq outcome wanted
      then (do failure ← is_failure c outcome; require invalid failure)
      else err invalid

unfoldable pub check_completed : List Value → Value → Result (Unit {0})
check_completed [] terminal = err invalid
check_completed (last ∷ rest) terminal = do
  iterated ← is_iterated last
  if iterated then ok tt else check_repair (last ∷ rest) terminal

unfoldable pub check_failed : List Value → Value → Result (Unit {0})
check_failed [] terminal = err invalid
check_failed (last ∷ rest) terminal = do real ← last_real (last ∷ rest); check_cause terminal real

-- of a history with the latest record first
unfoldable pub validate_terminal_history :
    (status terminal : Value) → List Value → Result (Unit {0})
validate_terminal_history status terminal history =
    if is_text status "running"
    then ok tt
    else if is_text status "completed"
    then check_completed history terminal
    else check_failed history terminal
