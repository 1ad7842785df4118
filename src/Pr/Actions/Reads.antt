-- ===== src/Pr/Actions/Reads.antt =====
-- What afk_pr/actions.py and response_branch of afk_pr/response.py read of a receipt and a pull request.
use Prim.Native.Char.{code}
use Prim.Native.String.{[] as empty_text, ◌∷◌ as char_cons, ◌++◌ as append}
use afk_pipeline.Prelude.{
  ℕ, String, Bool, false, not, ◌&&◌, ◌||◌, Option, none, some, List, [], ◌∷◌, length, leb, ◌==◌,
  all, if◌then◌else◌,
}
use afk_pipeline.Py.Value.{Value, Fields, null, str, dict, end, is_text, py_eq, truthy, lookup}
use afk_pipeline.Py.Read.{index, get, get_or, or_default}
use afk_pipeline.Py.Result.{Result, ok, err, value_error, type_error, attribute_error, ◌>>=◌}
use afk_pipeline.Py.Codes.{is_digit, is_letter, codes, lower, eq_codes}
use afk_pipeline.Pr.Identity.{identity}

abbrev is_id_char : ℕ → Bool
is_id_char c = is_letter c || is_digit c || c == b'.' || c == b'_' || c == b'-'

-- re.fullmatch(r"[A-Za-z0-9][A-Za-z0-9._-]{0,63}", action_id)
unfoldable pub is_action_id : List ℕ → Bool
is_action_id [] = false
is_action_id (c ∷ cs) = (is_letter c || is_digit c) && all is_id_char cs && leb (length cs) 63

-- the characters of a repository's name in lower case
abbrev name_chars : String
name_chars = "abcdefghijklmnopqrstuvwxyz0123456789_.-/"

letter_of : ℕ → String → String
letter_of n empty_text = ""
letter_of n (char_cons c s) =
    let rest = letter_of n s in if code c == n then char_cons c "" else rest

-- the text that the numbers of such characters spell
unfoldable pub spelled : List ℕ → String
unfolding letter_of
spelled [] = ""
spelled (n ∷ ns) = append (letter_of n name_chars) (spelled ns)

abbrev pub text_of : Value → Result String
text_of (str s) = ok s
text_of _ = err type_error

-- receipt["head"], which is read only for an expected head
abbrev pub head_of : Option String → Fields → Result Value
head_of none receipt = ok null
head_of (some expected) receipt = index (dict receipt) "head"

abbrev pub sha_of : Value → String → Result Value
sha_of pr key = do v ← index pr key; index v "sha"

-- whether the pull request is open at the head and base of the receipt
unfoldable pub is_unchanged : (pr : Value) (receipt : Fields) → Result Bool
is_unchanged pr receipt = do
  state ← index pr "state"
  if is_text state "open"
      then (do
        head ← sha_of pr "head"
        if py_eq head (or_default null (lookup "head" receipt))
            then (do
              base ← sha_of pr "base"
              ok (py_eq base (or_default null (lookup "base" receipt))))
            else ok false)
      else ok false

abbrev lowered : Value → Result (List ℕ)
lowered (str s) = ok (lower (codes s))
lowered _ = err attribute_error

abbrev or_empty : Value → Value
or_empty v = if truthy v then v else dict end

-- `response_branch`, less the branch that it returns
unfoldable pub response_branch :
    (check_ref : String → Result (Unit {0})) (pr url : Value) → Result (Unit {0})
response_branch check_ref pr url = do
  own ← identity url
  head ← index pr "head"
  repo ← get head "repo"
  full ← get_or (or_empty repo) "full_name" (str "")
  name ← lowered full
  if not (eq_codes name (lower own.0))
      then err (value_error "respond currently requires a branch in the PR repository")
      else (do
        ref ← index head "ref"
        branch ← text_of ref
        _ ← check_ref branch
        base ← index pr "base"
        target ← index base "ref"
        if is_text target branch
            then err (value_error "response branch must differ from the base branch")
            else ok tt)
