-- ===== src/Records/Review/Receipts.antt =====
-- `validate_invocation_receipts` and `_validate_split_invocation_lens` of afk_records/review.py. The
-- receipts and invocations in the directory of a Review, json.loads and SHA-256 are parameters.
use Prim.Native.String.{◌++◌ as append}
use mathlib.Core.List.{reverse}
use afk_pipeline.Prelude.{
  ℕ, String, Bool, true, false, not, ◌&&◌, ◌||◌, Option, none, some, List, [], ◌∷◌, leb, ◌==◌,
  length, if◌then◌else◌,
}
use afk_pipeline.Py.Value.{
  Value, Fields, null, str, list, dict, items, is_text, is_number, is_null, py_eq,
}
use afk_pipeline.Py.Read.{in_set, has, get_or}
use afk_pipeline.Py.Result.{Result, ok, err, value_error, ◌>>=◌}
use afk_pipeline.Py.Shape.{at, require}
use afk_pipeline.Py.Codes.{codes}

-- the bytes of an invocation.json: their number, SHA-256, and JSON value, if they are one
pub record Raw : Type 0 where
  pub size : ℕ
  pub sha256 : String
  pub decoded : Option Value

-- the directory of a Review, by the lens of an invocation; "combined" has its inference/ in the root
pub record Evidence : Type 0 where
  pub receipt : (lens : String) → Result Value
  pub invocation : (lens : String) → Result Raw
  -- json.loads of a text
  pub decode : String → Option Value

abbrev pub disagrees : {A : Type 0} → Result A
disagrees = err (value_error "Review invocation lens disagrees with authenticated task")

abbrev pub malformed : {A : Type 0} → Result A
malformed = err (value_error "Review invocation projection is malformed")

-- v.get(k) where v is an object, and None where it is not
abbrev pub get_of : Value → String → Value
get_of (dict fs) k = at fs k
get_of v k = null

-- version in {8, 9, 10, 11}: a list and a dict have no hash
abbrev pub known_version : Value → Result Bool
known_version v = do
  _ ← in_set v []
  ok (is_number v 8 || is_number v 9 || is_number v 10 || is_number v 11)

abbrev pub starts : (p s : List ℕ) → Bool
starts [] s = true
starts (c ∷ p) [] = false
starts (c ∷ p) (d ∷ s) = c == d && starts p s

-- v.endswith(marker), for a text v
unfoldable pub ends_with : (marker : String) → Value → Bool
ends_with marker (str s) = starts (reverse (codes marker)) (reverse (codes s))
ends_with marker v = false

abbrev pub marker_of : (lens : String) → String
marker_of lens =
    append "This is the isolated " (
      append lens
        (append " lens invocation. Report only findings with lens \"" (append lens "\".")))

abbrev pub decoded_of : Option Value → Result Value
decoded_of none = disagrees
decoded_of (some v) = ok v

-- the lens of a split invocation is the one of the task that its receipt authenticates
unfoldable pub validate_split_invocation_lens :
    Evidence → (receipt : Fields) → (lens : String) → Result (Unit {0})
validate_split_invocation_lens evidence receipt lens = do
  raw ← evidence.invocation lens
  _ ←
      require (value_error "Review invocation lens disagrees with authenticated task")
        (leb raw.size 1048576)
  invocation ← decoded_of raw.decoded
  _ ← require (value_error "Review invocation lens disagrees with authenticated task") (
      is_text (get_of (at receipt "hashes") "invocation_sha256") raw.sha256
      && is_text (get_of invocation "purpose") "review")
  known ← known_version (get_of invocation "task_contract_version")
  require (value_error "Review invocation lens disagrees with authenticated task") (
      known
      && is_text (get_of invocation "requested_capability") "READ_ONLY"
      && is_text (get_of (get_of invocation "prompt") "purpose") "review"
      && py_eq (get_of (get_of invocation "prompt") "task_contract_version")
          (get_of invocation "task_contract_version")
      && ends_with (marker_of lens)
          (get_of (get_of invocation "prompt") "trusted_task_instructions"))

-- a terminal response that is a text has a JSON value
abbrev pub terminal_value : Evidence → Value → Result Value
terminal_value evidence (str s) = loaded (evidence.decode s)
  where
    loaded : Option Value → Result Value
    loaded none = err (value_error "Review invocation receipt disagrees with projection")
    loaded (some v) = ok v
terminal_value evidence v = ok null

-- the receipt of a run that succeeded has accepted the review
abbrev pub accepts : (receipt : Value) → (terminal review : Value) → Bool
accepts receipt terminal review =
    is_text (get_of (get_of receipt "protocol") "status") "accepted" && py_eq terminal review

abbrev pub is_dict : Value → Bool
is_dict (dict fs) = true
is_dict v = false

-- before invocations were projected, the root receipt stood for the aggregate
unfoldable pub check_root_receipt : Evidence → (output : Fields) → Result (Unit {0})
check_root_receipt evidence output = do
  receipt ← evidence.receipt "combined"
  terminal ← terminal_value evidence (get_of receipt "terminal_response")
  require (value_error "Review invocation receipt disagrees with projection") (
      is_text (at output "outcome") "completed"
      && is_text (get_of receipt "outcome") "succeeded"
      && accepts receipt terminal (at output "review"))

abbrev pub check_split :
    Evidence → (split : Bool) → (receipt : Value) → (lens : String) → Result (Unit {0})
check_split evidence true (dict receipt) lens = validate_split_invocation_lens evidence receipt lens
check_split evidence split receipt lens = ok tt

-- one invocation; whether it succeeded
unfoldable pub check_invocation :
    Evidence → (split : Bool) → (lens : String) → (unsuccessful_seen : Bool) → Value → Result Bool
check_invocation evidence split lens unsuccessful_seen value = do
  _ ←
      require (value_error "Review invocation projection is malformed")
        (is_text (get_of value "lens") lens && not unsuccessful_seen)
  receipt ← evidence.receipt lens
  _ ← check_split evidence split receipt lens
  terminal ← terminal_value evidence (get_of receipt "terminal_response")
  _ ← require (value_error "Review invocation receipt disagrees with projection") (
      is_dict receipt
      && py_eq (get_of receipt "outcome") (get_of value "outcome")
      && (if is_text (get_of value "outcome") "succeeded"
          then accepts receipt terminal (get_of value "review")
          else is_null (get_of value "review")))
  ok (is_text (get_of value "outcome") "succeeded")

unfoldable pub check_invocations :
    Evidence
    → (split unsuccessful_seen : Bool) → (invocations : List Value) → (lenses : List String)
    → Result (Unit {0})
check_invocations evidence split unsuccessful_seen (invocation ∷ rest) (lens ∷ lenses) = do
  succeeded ← check_invocation evidence split lens unsuccessful_seen invocation
  check_invocations evidence split (not succeeded) rest lenses
check_invocations evidence split unsuccessful_seen _ _ = ok tt

abbrev pub split_lenses : List String
split_lenses = "behavior" ∷ "design" ∷ "standards" ∷ []

abbrev pub lenses_of : (mode : Value) → List String
lenses_of mode = if is_text mode "combined" then "combined" ∷ [] else split_lenses

abbrev pub check_count :
    Evidence → Fields → (mode : Value) → (invocations : Value) → Result (Unit {0})
check_count evidence output mode (list vs) = do
  _ ← require (value_error "Review invocation projection is malformed") (
      leb (length (items vs)) (length (lenses_of mode))
      && (not (is_text (at output "outcome") "completed")
          || length (items vs) == length (lenses_of mode)))
  check_invocations evidence (is_text mode "split") false (items vs) (lenses_of mode)
check_count evidence output mode v = malformed

unfoldable pub validate_invocation_receipts : Evidence → (output : Fields) → Result (Unit {0})
validate_invocation_receipts evidence output = do
  mode ← get_or (dict output) "review_mode" (str "combined")
  known ← in_set mode ("combined" ∷ "split" ∷ [])
  if not known
      then ok tt
      else if has output "review_mode"
      then check_count evidence output mode (at output "review_invocations")
      else check_root_receipt evidence output
