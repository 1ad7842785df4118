-- ===== src/Records/Coordinator/Invocation.antt =====
-- `valid_invocation_record` and `validate_continuation` of afk_records/coordinator.py.
use Prim.Native.String.{◌++◌ as append}
use afk_pipeline.Prelude.{
  ℕ, ◌+◌, String, Bool, true, false, not, ◌&&◌, Option, none, some, List, [], ◌∷◌, ltb, all,
  if◌then◌else◌,
}
use afk_pipeline.Py.Value.{Value, Fields, str, dict, entries, is_text, is_number}
use afk_pipeline.Py.Read.{in_set}
use afk_pipeline.Py.Result.{Result, ok, err, value_error, ◌>>=◌}
use afk_pipeline.Py.Shape.{has_keys, at, natural, positive, is_filled, require}
use afk_pipeline.Py.Text.{decimal}
use afk_pipeline.Records.Coordinator.Topology.{Component, name_of, outcomes, component_of}

-- f"{n:02d}"
abbrev pub two_digits : ℕ → String
two_digits n = if ltb n 10 then append "0" (decimal n) else decimal n

-- f"{n:02d}-{c}"
unfoldable pub directory_name : ℕ → Component → String
directory_name n c = append (append (two_digits n) "-") (name_of c)

-- `valid_input_sources`: the keys of a dict are texts
abbrev pub is_source : String × Value → Bool
is_source (name, source) = is_filled (str name) && is_filled source

unfoldable pub is_input : Value → Bool
is_input (dict fs) = not (has_keys [] fs) && all is_source (entries fs)
is_input _ = false

abbrev pub record_keys : Bool → List String
record_keys true = "sequence" ∷ "component" ∷ "directory" ∷ "input_from" ∷ "outcome" ∷ []
record_keys false = "sequence" ∷ "component" ∷ "directory" ∷ "input_from" ∷ []

abbrev pub known_outcome : Fields → Bool → Component → Result Bool
known_outcome fs false c = ok true
known_outcome fs true c = in_set (at fs "outcome") ("abandoned" ∷ outcomes c)

-- the record's directory and inputs, for its number and component
abbrev pub check_known : Fields → Bool → ℕ → Option Component → Result Bool
check_known fs terminal n none = ok false
check_known fs terminal n (some c) =
    if is_text (at fs "directory") (directory_name n c) && is_input (at fs "input_from")
    then known_outcome fs terminal c
    else ok false

abbrev pub check_numbered : Fields → Bool → Option ℕ → Result Bool
check_numbered fs terminal none = ok false
check_numbered fs terminal (some n) = do
  c ← component_of (at fs "component")
  check_known fs terminal n c

unfoldable pub valid_invocation_record : Value → (terminal : Bool) → Result Bool
valid_invocation_record (dict fs) terminal =
    if has_keys (record_keys terminal) fs
    then check_numbered fs terminal (positive (at fs "sequence"))
    else ok false
valid_invocation_record _ terminal = ok false

abbrev pub continuation_keys : List String
continuation_keys =
    "schema_version" ∷ "additional_responses" ∷ "completed_responses" ∷ "effective_max_responses"
    ∷ "prior_output" ∷ []

abbrev pub adds_up : Fields → Option ℕ → Option ℕ → Bool
adds_up fs (some additional) (some completed) =
    is_number (at fs "effective_max_responses") (completed + additional)
    && is_filled (at fs "prior_output")
adds_up fs _ _ = false

unfoldable pub validate_continuation : Value → Result (Unit {0})
validate_continuation (dict fs) = require (value_error "invalid continuation input") (
    has_keys continuation_keys fs
    && is_number (at fs "schema_version") 1
    && adds_up fs (positive (at fs "additional_responses")) (natural (at fs "completed_responses")))
validate_continuation _ = err (value_error "invalid continuation input")
