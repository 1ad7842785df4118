-- ===== src/Pr/ReviewResult.antt =====
-- `validate` of afk_pr/review_result.py. How long the JSON encoding of a value is, and what
-- `json.loads` makes of a text, are parameters. ResponseRejected is a ValueError.
use afk_pipeline.Prelude.{
  ℕ, pos, String, Bool, true, false, not, ◌&&◌, Option, none, some, List, [], ◌∷◌, all, length, ltb,
  leb, if◌then◌else◌, str_eq, any,
}
use afk_pipeline.Py.Value.{Value, Fields, str, list, dict, int, items, entries, lookup}
use afk_pipeline.Py.Read.{has}
use afk_pipeline.Py.Result.{Result, ok, err, value_error, ◌>>=◌}
use afk_pipeline.Py.Codes.{codes, is_nonblank}

abbrev pub keys_within : List String → Fields → Bool
keys_within names fs = all (λ e. any (str_eq e.0) names) (entries fs)

abbrev satisfies : (Value → Bool) → Option Value → Bool
satisfies test none = false
satisfies test (some v) = test v

abbrev unless_missing : (Value → Bool) → Option Value → Bool
unless_missing test none = true
unless_missing test (some v) = test v

abbrev is_positive : Value → Bool
is_positive (int (pos n)) = leb 1 n
is_positive _ = false

-- none of the tests on a finding rejects it
unfoldable pub is_finding : Value → Bool
is_finding (dict fs) =
    satisfies is_nonblank (lookup "message" fs)
    && keys_within ("message" ∷ "path" ∷ "line" ∷ []) fs
    && unless_missing is_nonblank (lookup "path" fs)
    && unless_missing (λ line. has fs "path" && is_positive line) (lookup "line" fs)
is_finding _ = false

abbrev are_findings : Value → Bool
are_findings (list vs) = all is_finding (items vs)
are_findings _ = false

-- the tests on the object that the text or the value holds
unfoldable pub is_review : Value → Bool
unfolding is_finding
is_review (dict fs) =
    keys_within ("summary" ∷ "findings" ∷ []) fs
    && satisfies is_nonblank (lookup "summary" fs)
    && satisfies are_findings (lookup "findings" fs)
is_review _ = false

module _ (encoded_length : Value → ℕ) (loads : String → Option Value) where
  abbrev decoded : Value → Result Value
  decoded (str s) =
      if ltb 50000 (length (codes s))
      then err (value_error "review exceeds 50000 characters")
      else elim (loads s) [
        | none ↦ err (value_error "review must be a JSON object")
        | some v ↦ ok v
      ]
  decoded v = ok v

  unfoldable pub validate : Value → Result Value
  unfolding is_review
  validate value = do
    v ← decoded value
    if not (is_review v)
        then err (value_error "review is not of the required form")
        else if ltb 50000 (encoded_length v)
        then err (value_error "review exceeds 50000 characters")
        else ok v
