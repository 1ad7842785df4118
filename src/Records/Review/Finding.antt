-- ===== src/Records/Review/Finding.antt =====
-- `validate_review`, `validate_finding`, `validate_scope_claim`, `validate_location`, `validate_audit` and
-- `validate_context` of afk_records/review.py. What git says of the reviewed tree is a parameter.
use Prim.Native.Char.{code}
use Prim.Native.String.{[] as empty_text, ◌∷◌ as char_cons}
use afk_pipeline.Prelude.{
  ℕ, suc, pos, String, Bool, true, false, not, ◌&&◌, ◌||◌, Option, none, some, List, [], ◌∷◌, leb,
  ◌==◌, any, str_eq, if◌then◌else◌,
}
use afk_pipeline.Py.Value.{
  Value, bool, int, str, list, dict, field, end, items, of_items, nil, cons, is_text, is_true,
  is_int, py_eq,
}
use afk_pipeline.Py.Read.{in_set}
use afk_pipeline.Py.Result.{Result, ok, err, type_error, value_error, ◌>>=◌}
use afk_pipeline.Py.Shape.{has_keys, at, require}
use afk_pipeline.Py.Codes.{is_nonblank}
use afk_pipeline.Py.Text.{matches_hex}
use afk_pipeline.Records.Plan.Shapes.{dict_value}

-- REVIEW_AUDIT["scopes"], and REVIEW_AUDIT
abbrev pub audit_scopes : Value
audit_scopes = list (
    of_items (
      str "objective"
      ∷ str "acceptance_criteria"
      ∷ str "reviewed_diff"
      ∷ str "supplied_evidence"
      ∷ []))

abbrev pub review_audit : Value
review_audit = dict (field "completed" (bool true) (field "scopes" audit_scopes end))

unfoldable pub validate_audit : Value → Result (Unit {0})
validate_audit value = do
  audit ← dict_value value
  _ ←
      require (value_error "review audit fields are malformed")
        (has_keys ("completed" ∷ "scopes" ∷ []) audit)
  require (value_error "review audit declaration is malformed")
      (is_true (at audit "completed") && py_eq (at audit "scopes") audit_scopes)

-- a work base is a Git object id
unfoldable pub validate_context : Value → Result (Unit {0})
validate_context (dict fs) = require (value_error "invalid Review work context") (
    has_keys ("schema_version" ∷ "work_base" ∷ []) fs
    && py_eq (at fs "schema_version") (int (pos 1))
    && is_int (at fs "schema_version")
    && is_object_id (at fs "work_base"))
  where
    is_object_id : Value → Bool
    is_object_id (str s) = matches_hex 40 s || matches_hex 64 s
    is_object_id v = false
validate_context v = err (value_error "invalid Review work context")

-- git ls-tree of a path
pub record Entry : Type 0 where
  pub mode : String
  pub object_type : String
  pub object_id : String
  pub path : String

-- the workspace and the reviewed commit in it
pub record Tree : Type 0 where
  -- whether the resolved path is below the resolved workspace
  pub is_inside : String → Bool
  -- git ls-tree, none where it fails or has no output
  pub entry : String → Option Entry
  -- git cat-file blob, none where it fails; the number of lines, none where the bytes are no UTF-8
  pub blob : String → Option (Option ℕ)

abbrev pub not_reviewed : {A : Type 0} → Result A
not_reviewed = err (value_error "finding location path must name a reviewed file")

abbrev pub line_count : Option (Option ℕ) → Result ℕ
line_count none = not_reviewed
line_count (some none) = err (value_error "finding location path must name a text file")
line_count (some (some n)) = ok n

abbrev pub check_entry : Tree → String → ℕ → Option Entry → Result (Unit {0})
check_entry tree path line none = not_reviewed
check_entry tree path line (some e) = do
  _ ← require (value_error "finding location path must name a reviewed file") (
      str_eq e.path path
      && str_eq e.object_type "blob"
      && (str_eq e.mode "100644" || str_eq e.mode "100755"))
  n ← line_count (tree.blob e.object_id)
  require (value_error "finding location line must exist in the reviewed file") (leb line n)

unfoldable pub validate_location : Tree → String → ℕ → Result (Unit {0})
validate_location tree path line = do
  _ ← require (value_error "finding location path escapes the repository") (tree.is_inside path)
  check_entry tree path line (tree.entry path)

abbrev pub is_absolute : String → Bool
is_absolute empty_text = false
is_absolute (char_cons c s) = code c == b'/'

-- a text that is not blank; the error of another value, and of a blank one
abbrev pub nonblank : Value → (text : String) → Result String
nonblank (str s) text = do _ ← require (value_error text) (is_nonblank (str s)); ok s
nonblank v text = err type_error

abbrev pub line_number : Value → Result ℕ
line_number (int (pos (suc n))) = ok (suc n)
line_number (int z) = err (value_error "finding location line must be a positive integer")
line_number v = err type_error

unfoldable pub check_location : Tree → Value → Result (Unit {0})
check_location tree value = do
  location ← dict_value value
  _ ←
      require (value_error "finding location fields are malformed")
        (has_keys ("path" ∷ "line" ∷ []) location)
  path ← nonblank (at location "path") "finding location path must be repository-relative"
  _ ←
      require (value_error "finding location path must be repository-relative")
        (not (is_absolute path))
  line ← line_number (at location "line")
  validate_location tree path line

unfoldable pub check_locations : Tree → List Value → Result (Unit {0})
check_locations tree [] = ok tt
check_locations tree (location ∷ rest) = do
  _ ← check_location tree location
  check_locations tree rest

abbrev pub some_locations : Value → Result (List Value)
some_locations (list nil) = err (value_error "finding locations must not be empty")
some_locations (list (cons v vs)) = ok (v ∷ items vs)
some_locations v = err type_error

abbrev pub claim_keys : Value → List String
claim_keys kind =
    if is_text kind "related"
    then "kind" ∷ "rationale" ∷ "related_work_id" ∷ []
    else "kind" ∷ "rationale" ∷ []

abbrev pub is_one_of : List String → Value → Bool
is_one_of ids (str s) = any (str_eq s) ids
is_one_of ids v = false

unfoldable pub validate_scope_claim : Value → (related : List String) → Result (Unit {0})
validate_scope_claim value related = do
  claim ← dict_value value
  _ ←
      require (value_error "finding scope_claim fields are malformed")
        (has_keys (claim_keys (at claim "kind")) claim)
  known ← in_set (at claim "kind") ("current" ∷ "related" ∷ "unknown" ∷ [])
  _ ← require (value_error "finding scope_claim kind must be current, related, or unknown") known
  _ ←
      require (value_error "finding scope_claim rationale must be a non-empty string")
        (is_nonblank (at claim "rationale"))
  require (value_error "finding scope_claim related_work_id must exist in related work")
      (not (is_text (at claim "kind") "related") || is_one_of related (at claim "related_work_id"))

abbrev pub finding_keys : List String
finding_keys = "lens" ∷ "title" ∷ "details" ∷ "locations" ∷ "scope_claim" ∷ []

unfoldable pub validate_finding : Tree → (related : List String) → Value → Result (Unit {0})
validate_finding tree related value = do
  finding ← dict_value value
  _ ← require (value_error "finding fields are malformed") (has_keys finding_keys finding)
  known ← in_set (at finding "lens") ("behavior" ∷ "design" ∷ "standards" ∷ [])
  _ ← require (value_error "finding lens must be behavior, design, or standards") known
  _ ← nonblank (at finding "title") "finding title must be a non-empty string"
  _ ← nonblank (at finding "details") "finding details must be a non-empty string"
  locations ← some_locations (at finding "locations")
  _ ← check_locations tree locations
  validate_scope_claim (at finding "scope_claim") related

unfoldable pub check_findings : Tree → (related : List String) → List Value → Result (Unit {0})
check_findings tree related [] = ok tt
check_findings tree related (finding ∷ rest) = do
  _ ← validate_finding tree related finding
  check_findings tree related rest

abbrev pub findings_of : Value → Result (List Value)
findings_of (list vs) = ok (items vs)
findings_of v = err type_error

-- a review: it returns its argument, and here the summary and the findings
unfoldable pub validate_review :
    Tree → (related : List String) → Value → Result (String × List Value)
validate_review tree related value = do
  review ← dict_value value
  _ ←
      require (value_error "review response fields are malformed")
        (has_keys ("summary" ∷ "findings" ∷ "audit" ∷ []) review)
  summary ← nonblank (at review "summary") "review summary must be a non-empty string"
  _ ← validate_audit (at review "audit")
  findings ← findings_of (at review "findings")
  _ ← check_findings tree related findings
  ok (summary, findings)
