-- ===== src/Records/Plan/Shapes.antt =====
-- The small validators of afk_records/plan.py. Each returns what it was given, so here it returns
-- nothing or the parts that its caller goes on with. Of an error's text the list of keys and the numbers
-- of list items are left out.
use Prim.Native.Char.{code}
use Prim.Native.String.{[] as empty_text, ◌∷◌ as char_cons, ◌++◌ as append, len as byte_length}
use afk_pipeline.Prelude.{
  ℕ, String, Bool, true, false, not, ◌&&◌, ◌||◌, Option, none, some, List, [], ◌∷◌, leb, ◌==◌, all,
  any, length, str_eq, if◌then◌else◌,
}
use afk_pipeline.Py.Value.{Value, Fields, str, list, dict, items, is_text, is_null}
use afk_pipeline.Py.Read.{in_set}
use afk_pipeline.Py.Result.{Result, ok, err, type_error, value_error, ◌>>=◌}
use afk_pipeline.Py.Shape.{has_keys, at, require}
use afk_pipeline.Py.Codes.{codes, is_nonblank, is_digit}

abbrev pub fail {ℓ} : {A : Type ℓ} → (name text : String) → Result A
fail name text = err (value_error (append name text))

abbrev pub demand : (name text : String) → Bool → Result (Unit {0})
demand name text = require (value_error (append name text))

unfoldable pub dict_value : Value → Result Fields
dict_value (dict fs) = ok fs
dict_value v = err type_error

unfoldable pub object_with_keys : Value → List String → (name : String) → Result Fields
object_with_keys value keys name = do
  fs ← dict_value value
  _ ← demand name " must contain exactly" (has_keys keys fs)
  ok fs

unfoldable pub bounded_text :
    (maximum : ℕ) (may_be_empty : Bool) → Value → (name : String) → Result (Unit {0})
bounded_text maximum may_be_empty (str s) name =
    demand name " must be bounded text"
      ((may_be_empty || is_nonblank (str s)) && leb (byte_length s) maximum)
bounded_text maximum may_be_empty value name = fail name " must be bounded text"

abbrev pub join_text : Value → Option (List String) → Option (List String)
join_text (str s) (some ss) = some (s ∷ ss)
join_text v ss = none

-- the texts of a list of nothing but texts
abbrev pub texts : List Value → Option (List String)
texts [] = some []
texts (v ∷ vs) = join_text v (texts vs)

abbrev pub distinct : List String → Bool
distinct [] = true
distinct (s ∷ ss) = not (any (str_eq s) ss) && distinct ss

abbrev pub short_text : ℕ → String → Bool
short_text maximum s = is_nonblank (str s) && leb (byte_length s) maximum

abbrev pub check_texts :
    (maximum : ℕ) → Option (List String) → (name : String) → Result (List String)
check_texts maximum none name = fail name " must contain bounded strings"
check_texts maximum (some ss) name = do
  _ ← demand name " must contain bounded strings" (all (short_text maximum) ss)
  _ ← demand name " must contain unique values" (distinct ss)
  ok ss

unfoldable pub string_list :
    Value → (name : String) → (maximum_items maximum_bytes : ℕ) → Result (List String)
string_list (list vs) name maximum_items maximum_bytes = do
  _ ← demand name " must be a bounded array" (leb (length (items vs)) maximum_items)
  check_texts maximum_bytes (texts (items vs)) name
string_list value name maximum_items maximum_bytes = fail name " must be a bounded array"

unfoldable pub enum : Value → List String → (name : String) → Result (Unit {0})
enum value choices name = do known ← in_set value choices; demand name " is invalid" known

-- the items of a list of 1 through `maximum` of them
abbrev pub some_items : (maximum : ℕ) → Value → (text : String) → Result (List Value)
some_items maximum (list vs) text = do
  _ ← require (value_error text) (leb 1 (length (items vs)) && leb (length (items vs)) maximum)
  ok (items vs)
some_items maximum value text = err (value_error text)

is_domain_char : ℕ → Bool
is_domain_char c = (leb b'a' c && leb c b'z') || is_digit c

-- DOMAIN_ID_PATTERN.fullmatch(s)
unfoldable pub is_domain_codes : List ℕ → Bool
unfolding is_domain_char
is_domain_codes [] = false
is_domain_codes (c ∷ cs) =
    is_domain_char c && leb (length cs) 127 && all (λ d. is_domain_char d || d == b'-') cs

unfoldable pub is_domain_id : Value → Bool
is_domain_id (str s) = is_domain_codes (codes s)
is_domain_id v = false

-- s.removeprefix(prefix), where s.startswith(prefix)
unfoldable pub without_prefix : (prefix s : String) → Option String
without_prefix empty_text s = some s
without_prefix (char_cons c p) empty_text = none
without_prefix (char_cons c p) (char_cons d s) =
    let rest = without_prefix p s in if code c == code d then rest else none

unfoldable pub project_labels : List String → List String
project_labels [] = []
project_labels (label ∷ rest) = added (without_prefix "project:" label) (project_labels rest)
  where
    added : Option String → List String → List String
    added none more = more
    added (some project) more = project ∷ more

abbrev pub executors : List String
executors = "afk_run" ∷ "caller_agent" ∷ "outside_help" ∷ []

abbrev pub outside_help_reasons : List String
outside_help_reasons =
    "missing_authority" ∷ "missing_credentials" ∷ "human_judgment" ∷ "physical_action"
    ∷ "unavailable_system" ∷ []

abbrev pub evidence_routes : List String
evidence_routes = "pipeline_run" ∷ "repository_check" ∷ "external_check" ∷ []

abbrev pub phases : List String
phases = "implementation" ∷ "closure" ∷ []

unfoldable pub validate_executor : Fields → (name : String) → Result (Unit {0})
validate_executor route name = do
  _ ← enum (at route "executor") executors (append name " executor")
  if is_text (at route "executor") "outside_help"
      then (do
        _ ←
            enum (at route "outside_help_reason") outside_help_reasons
              (append name " outside_help_reason")
        demand name " outside_help evidence_route must be external_check"
            (is_text (at route "evidence_route") "external_check"))
      else demand name " outside_help_reason requires outside_help"
          (is_null (at route "outside_help_reason"))
