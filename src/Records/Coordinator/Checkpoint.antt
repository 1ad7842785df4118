-- ===== src/Records/Coordinator/Checkpoint.antt =====
-- `validate_checkpoint` and `validate_history_position` of afk_records/coordinator.py.
use mathlib.Core.List.{reverse}
use afk_pipeline.Prelude.{
  ℕ, suc, zero, pos, negsuc, String, Bool, true, false, not, ◌&&◌, ◌||◌, Option, none, some, List,
  [], ◌∷◌, ltb, ◌==◌, if◌then◌else◌,
}
use afk_pipeline.Py.Value.{
  Value, Fields, null, int, str, list, dict, is_text, is_number, is_null, py_eq, items,
}
use afk_pipeline.Py.Read.{index, in_set, has}
use afk_pipeline.Py.Result.{Result, ok, err, type_error, ◌>>=◌}
use afk_pipeline.Py.Shape.{has_keys, at, positive, is_some, require}
use afk_pipeline.Records.Coordinator.Topology.{
  Component, attempt, response, name_of, success, next, component_of, invalid,
}
use afk_pipeline.Records.Coordinator.Invocation.{valid_invocation_record, validate_continuation}
use afk_pipeline.Records.Coordinator.Sources.{expected_input_sources}
use afk_pipeline.Records.Coordinator.Terminal.{validate_terminal, validate_terminal_history}

abbrev pub counted : Value → Result ℕ
counted (int (pos n)) = ok n
counted (int (negsuc n)) = err invalid
counted _ = err type_error

-- record["sequence"], a number where the record is valid
unfoldable pub sequence_of : Value → Result ℕ
sequence_of record_ = do v ← index record_ "sequence"; counted v

-- the loop over the history: the numbers grow, and stay below the next one
unfoldable pub check_records : (sequence prior : ℕ) → List Value → Result ℕ
check_records sequence prior [] = ok prior
check_records sequence prior (record_ ∷ rest) = do
  valid ← valid_invocation_record record_ true
  _ ← require invalid valid
  n ← sequence_of record_
  _ ← require invalid (ltb prior n && ltb n sequence)
  check_records sequence n rest

abbrev pub is_expected : Value → Option Component → Bool
is_expected component none = is_null component
is_expected component (some c) = is_text component (name_of c)

-- the component that may follow a record with this outcome
unfoldable pub follow : Component → Value → Option Component
follow c outcome =
    if is_text outcome "abandoned"
    then some c
    else if is_text outcome (success c)
    then some (next c)
    else if is_text (str (name_of c)) "validation" && is_text outcome "failed"
    then some response
    else none

-- where a history has come to: the component that is expected, and the records, latest first
abbrev pub Position : Type 0
Position = Option Component × List Value

-- the loop of `validate_history_position`; without an expected component no record fits
unfoldable pub walk : Option Component → (n : ℕ) → (prior rest : List Value) → Result Position
walk expected n prior [] = ok (expected, prior)
walk none n prior (record_ ∷ rest) = err invalid
walk (some c) n prior (record_ ∷ rest) = do
  own ← sequence_of record_
  component ← index record_ "component"
  _ ← require invalid (own == n && is_text component (name_of c))
  inputs ← index record_ "input_from"
  sources ← expected_input_sources c prior
  _ ← require invalid (py_eq inputs sources)
  outcome ← index record_ "outcome"
  walk (follow c outcome) (suc n) (record_ ∷ prior) rest

abbrev pub length_of : List Value → ℕ
length_of [] = zero
length_of (v ∷ vs) = suc (length_of vs)

abbrev pub check_inputs : Value → Option Component → List Value → Result (Unit {0})
check_inputs inputs none prior = err invalid
check_inputs inputs (some c) prior = do
  sources ← expected_input_sources c prior
  require invalid (py_eq inputs sources)

-- an invocation at work is of the expected component, and the last of all
unfoldable pub check_active_position :
    (next_component active : Value) → (sequence : ℕ) → Position → Result (Unit {0})
check_active_position next_component active sequence (expected, prior) = do
  own ← sequence_of active
  component ← index active "component"
  _ ← require invalid (own == suc (length_of prior) && is_expected component expected)
  inputs ← index active "input_from"
  _ ← check_inputs inputs expected prior
  require invalid (sequence == suc own && is_expected next_component expected)

unfoldable pub check_idle_position :
    (status next_component : Value) → (sequence : ℕ) → Position → Result (Unit {0})
check_idle_position status next_component sequence (expected, prior) = require invalid (
    sequence == suc (length_of prior)
    && (not (is_text status "running") || is_expected next_component expected))

unfoldable pub validate_history_position :
    (status next_component active : Value) → (sequence : ℕ) → List Value → Result (Unit {0})
validate_history_position status next_component active sequence history = do
  position ← walk (some attempt) 1 [] history
  if is_null active
      then check_idle_position status next_component sequence position
      else check_active_position next_component active sequence position

-- the active invocation of a checkpoint, of its next component
unfoldable pub check_active : (component active : Value) → (sequence prior : ℕ) → Result (Unit {0})
check_active component active sequence prior = if is_null active then ok tt else (do
  valid ← valid_invocation_record active false
  _ ← require invalid valid
  own ← sequence_of active
  _ ← require invalid (suc own == sequence && ltb prior own)
  mine ← index active "component"
  require invalid (py_eq mine component))

abbrev pub check_status : (status component active terminal : Value) → Result (Unit {0})
check_status status component active terminal = require invalid (
    if is_text status "running"
    then not (is_null component) && is_null terminal
    else is_null active && is_null component)

abbrev pub check_component : Value → Result (Unit {0})
check_component null = ok tt
check_component v = do c ← component_of v; require invalid (is_some c)

abbrev pub checkpoint_keys : List String
checkpoint_keys =
    "schema_version" ∷ "status" ∷ "next_sequence" ∷ "next_component" ∷ "active_invocation"
    ∷ "history" ∷ "terminal" ∷ []

abbrev pub expected_keys : Fields → List String
expected_keys state =
    if has state "continuation" then "continuation" ∷ checkpoint_keys else checkpoint_keys

abbrev pub history_of : Value → Result (List Value)
history_of (list vs) = ok (items vs)
history_of _ = err type_error

abbrev pub number_of : Option ℕ → Result ℕ
number_of none = err invalid
number_of (some n) = ok n

-- the tests from the history on
unfoldable pub check_history : (state : Fields) (sequence : ℕ) → List Value → Result (Unit {0})
check_history state sequence history = do
  prior ← check_records sequence 0 history
  _ ← check_active (at state "next_component") (at state "active_invocation") sequence prior
  _ ←
      check_status (at state "status") (at state "next_component") (at state "active_invocation")
        (at state "terminal")
  _ ← validate_terminal (at state "status") (at state "terminal")
  _ ← validate_terminal_history (at state "status") (at state "terminal") (reverse history)
  validate_history_position (at state "status") (at state "next_component")
      (at state "active_invocation") sequence history

-- it returns the state, which is its argument
unfoldable pub validate_checkpoint : Value → Result (Unit {0})
validate_checkpoint (dict state) = do
  _ ←
      require invalid
        (has_keys (expected_keys state) state && is_number (at state "schema_version") 1)
  known ← in_set (at state "status") ("running" ∷ "completed" ∷ "failed" ∷ [])
  _ ← require invalid known
  _ ← if has state "continuation" then validate_continuation (at state "continuation") else ok tt
  sequence ← number_of (positive (at state "next_sequence"))
  _ ← check_component (at state "next_component")
  history ← history_of (at state "history")
  check_history state sequence history
validate_checkpoint _ = err invalid
