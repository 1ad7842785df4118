-- ===== src/Records/Request.antt =====
-- The requests of a Coordinator and of a Review: `validate_request`, `positive_integer` and
-- `validate_component_output` of afk_records/coordinator.py, `validate_policy` of validation_policy.py,
-- `validate_reference` of related_work.py and `validate_input` of review.py. The resolved paths of a
-- reference are a parameter. Each returns its argument, so here it returns nothing.
use Prim.Native.String.{◌++◌ as append}
use afk_pipeline.Prelude.{
  String, Bool, true, false, not, ◌&&◌, ◌||◌, Option, none, some, List, [], ◌∷◌, leb, all, any,
  length, str_eq, if◌then◌else◌,
}
use afk_pipeline.Py.Value.{
  Value, Fields, str, list, dict, items, cons, is_text, is_number, member, entries,
}
use afk_pipeline.Py.Read.{has, in_set, get_or}
use afk_pipeline.Py.Result.{Result, ok, err, value_error, ◌>>=◌}
use afk_pipeline.Py.Shape.{has_keys, at, require, natural, positive, is_some, is_filled}
use afk_pipeline.Py.Text.{matches_hex}
use afk_pipeline.Records.Coordinator.Topology.{Component, name_of, success, outcomes}
use afk_pipeline.Records.Plan.Input.{is_between}
use afk_pipeline.Records.Review.Finding.{is_absolute, validate_context}

unfoldable pub positive_integer : Value → (name : String) → Result (Unit {0})
positive_integer value name =
    require (value_error (append name " must be a positive integer")) (is_some (positive value))

abbrev pub are_codes : List Value → Bool
are_codes [] = true
are_codes (code ∷ rest) =
    is_between 1 255 (natural code) && not (member code rest) && are_codes rest

abbrev pub check_codes : Value → Bool
check_codes (list vs) = leb (length (items vs)) 255 && are_codes (items vs)
check_codes v = false

unfoldable pub validate_policy : Fields → Result (Unit {0})
validate_policy policy = do
  _ ← require (value_error "termination_grace_seconds must be an integer from 1 through 3600") (
      not (has policy "termination_grace_seconds")
      || is_between 1 3600 (natural (at policy "termination_grace_seconds")))
  require (value_error "repairable_exit_codes must be a list of unique integers from 1 through 255")
      (not (has policy "repairable_exit_codes") || check_codes (at policy "repairable_exit_codes"))

abbrev pub is_absolute_path : Value → Bool
is_absolute_path (str s) = is_absolute s
is_absolute_path v = false

abbrev pub is_digest : Value → Bool
is_digest (str s) = matches_hex 64 s
is_digest v = false

abbrev pub reference_keys : List String
reference_keys = "path" ∷ "sha256" ∷ "media_type" ∷ "record_count" ∷ "bytes" ∷ []

abbrev pub well_formed_reference : Fields → Bool
well_formed_reference fs =
    has_keys reference_keys fs
    && is_absolute_path (at fs "path")
    && is_text (at fs "media_type") "application/x-ndjson"
    && is_digest (at fs "sha256")
    && is_between 1 64 (natural (at fs "record_count"))
    && is_between 1 262144 (natural (at fs "bytes"))

-- is_expected tells whether a path resolves to the one that is expected, if one is
unfoldable pub validate_reference :
    (is_expected : Option (Value → Bool)) → Value → Result (Unit {0})
validate_reference is_expected (dict fs) = do
  _ ← require (value_error "related-work reference is malformed") (well_formed_reference fs)
  require (value_error "related-work path disagrees with the Run") (agrees is_expected)
  where
    agrees : Option (Value → Bool) → Bool
    agrees none = true
    agrees (some test) = test (at fs "path")
validate_reference is_expected v = err (value_error "related-work reference is malformed")

abbrev pub request_keys : Fields → List String
request_keys fs = added "review_mode" (added "related_work" keys)
  where
    keys : List String
    keys =
        "schema_version" ∷ "assignment_path" ∷ "validation" ∷ "agent_timeout_seconds"
        ∷ "max_responses" ∷ []

    added : String → List String → List String
    added k ks = if has fs k then k ∷ ks else ks

-- {"command", "timeout_seconds"} <= set(v) <= that and the policy's fields
abbrev pub validation_fields : Fields → Bool
validation_fields fs =
    has fs "command" && has fs "timeout_seconds" && all (λ e. any (str_eq e.0) allowed) (entries fs)
  where
    allowed : List String
    allowed =
        "command" ∷ "timeout_seconds" ∷ "termination_grace_seconds" ∷ "repairable_exit_codes" ∷ []

abbrev pub is_argv : Value → Bool
is_argv (list (cons v vs)) = all is_filled (v ∷ items vs)
is_argv v = false

unfoldable pub check_validation : Value → Result (Unit {0})
check_validation (dict validation) = do
  _ ←
      require (value_error "validation must contain command and timeout_seconds")
        (validation_fields validation)
  _ ←
      require (value_error "validation command must be a nonempty argv array")
        (is_argv (at validation "command"))
  _ ← positive_integer (at validation "timeout_seconds") "validation timeout"
  validate_policy validation
check_validation v = err (value_error "validation must contain command and timeout_seconds")

unfoldable pub validate_request : Value → Result (Unit {0})
validate_request (dict fs) = do
  _ ←
      require (value_error "coordinator input must use schema_version 1")
        (is_number (at fs "schema_version") 1)
  _ ←
      require (value_error "coordinator input has unexpected fields")
        (has_keys (request_keys fs) fs)
  _ ←
      require (value_error "assignment_path must be an absolute path")
        (is_absolute_path (at fs "assignment_path"))
  _ ← check_validation (at fs "validation")
  _ ← positive_integer (at fs "agent_timeout_seconds") "agent timeout"
  mode ← get_or (dict fs) "review_mode" (str "combined")
  known ← in_set mode ("combined" ∷ "split" ∷ [])
  _ ← require (value_error "review_mode must be combined or split") known
  _ ← if has fs "related_work" then validate_reference none (at fs "related_work") else ok tt
  require (value_error "max_responses must be a nonnegative integer")
      (is_some (natural (at fs "max_responses")))
validate_request v = err (value_error "coordinator input must use schema_version 1")

abbrev pub invalid_output : {A : Type 0} → (component : String) → Result A
invalid_output component = err (value_error (append "invalid " (append component " output")))

-- the policy of an Iteration that completed
abbrev pub check_policy : Value → Result (Unit {0})
check_policy (dict policy) = do
  known ← in_set (at policy "decision") ("stop" ∷ "exhausted" ∷ "continue" ∷ [])
  require (value_error "invalid iteration output") known
check_policy v = invalid_output "iteration"

-- the outcome of a component's output
unfoldable pub validate_component_output : Component → Value → Result Value
validate_component_output component (dict output) = do
  _ ←
      require (value_error (append "invalid " (append (name_of component) " output")))
        (is_number (at output "schema_version") 1)
  known ← in_set (at output "outcome") (outcomes component)
  _ ← require (value_error (append "invalid " (append (name_of component) " output"))) known
  _ ←
      if str_eq (name_of component) "iteration" && is_text (at output "outcome") (success component)
      then check_policy (at output "policy")
      else ok tt
  ok (at output "outcome")
validate_component_output component v = invalid_output (name_of component)

abbrev pub review_input_keys : List String
review_input_keys =
    "schema_version" ∷ "workspace" ∷ "change_directory" ∷ "validation_directory" ∷ "timeout_seconds"
    ∷ []

abbrev pub require_path : Fields → (name : String) → Result (Unit {0})
require_path fs name =
    require (value_error (append "review " (append name " must be an absolute path")))
      (is_absolute_path (at fs name))

-- set(v) <= allowed
abbrev pub only_review_fields : Fields → Bool
only_review_fields fs =
    all
      (λ e. any (str_eq e.0) ("related_work" ∷ "work_context" ∷ "review_mode" ∷ review_input_keys))
      (entries fs)

unfoldable pub validate_review_input : Value → Result (Unit {0})
validate_review_input (dict fs) = do
  _ ←
      require (value_error "review must use schema_version 1")
        (is_number (at fs "schema_version") 1)
  _ ←
      require (value_error "review input cannot override inference policy")
        (not (has fs "inference"))
  _ ← require_path fs "workspace"
  _ ← require_path fs "change_directory"
  _ ← require_path fs "validation_directory"
  _ ← require (value_error "review input fields are malformed") (only_review_fields fs)
  _ ← if has fs "work_context" then validate_context (at fs "work_context") else ok tt
  mode ← get_or (dict fs) "review_mode" (str "combined")
  known ← in_set mode ("combined" ∷ "split" ∷ [])
  _ ← require (value_error "review review_mode must be combined or split") known
  require (value_error "review timeout_seconds must be a positive integer")
      (is_some (positive (at fs "timeout_seconds")))
validate_review_input v = err (value_error "review must use schema_version 1")
