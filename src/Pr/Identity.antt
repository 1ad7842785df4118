-- ===== src/Pr/Identity.antt =====
-- `identity` of afk_pr/github.py. Of the characters that `\w` matches, the ASCII ones are modelled;
-- GitHub allows no others in a repository's name.
use Prim.Native.Nat.{◌*◌}
use afk_pipeline.Prelude.{
  ℕ, ◌+◌, ◌-◌, Bool, true, false, not, ◌&&◌, ◌||◌, Option, none, some, List, [], ◌∷◌, ◌++◌, ◌==◌,
  if◌then◌else◌,
}
use afk_pipeline.Py.Value.{Value, str}
use afk_pipeline.Py.Result.{Result, ok, err, type_error, value_error}
use afk_pipeline.Py.Codes.{codes, is_digit, is_letter}

-- the rest of a text behind a prefix
abbrev pub after : List ℕ → List ℕ → Option (List ℕ)
after [] s = some s
after (p ∷ ps) [] = none
after (p ∷ ps) (c ∷ s) = if p == c then after ps s else none

is_name : ℕ → Bool
is_name c = is_letter c || is_digit c || c == b'_' || c == b'.' || c == b'-'

-- [\w.-]* and what follows it
span_name : List ℕ → List ℕ × List ℕ
unfolding is_name
span_name [] = ([], [])
span_name (c ∷ s) =
    let (name, rest) = span_name s in if is_name c then (c ∷ name, rest) else ([], c ∷ s)

-- [0-9]* as a number, and what follows it
span_number : ℕ → List ℕ → ℕ × List ℕ
span_number n [] = (n, [])
span_number n (c ∷ s) = elim (is_digit c) [
  | true ↦ span_number (n * 10 + (c - b'0')) s
  | false ↦ (n, c ∷ s)
]

abbrev and_then : {A B : Type 0} → Option A → (A → Option B) → Option B
and_then none f = none
and_then (some a) f = f a

-- [\w.-]+ and what follows it
some_name : List ℕ → Option (List ℕ × List ℕ)
unfolding span_name
some_name s =
    let (name, rest) = span_name s in elim name [ [] ↦ none | c ∷ more ↦ some (c ∷ more, rest) ]

-- [1-9][0-9]*/?\Z
some_number : List ℕ → Option ℕ
unfolding span_number
some_number [] = none
some_number (c ∷ s) =
    if is_digit c && not (c == b'0') then ending (span_number (c - b'0') s) else none
  where
    ending : ℕ × List ℕ → Option ℕ
    ending (n, []) = some n
    ending (n, c ∷ []) = if c == b'/' then some n else none
    ending (n, _ ∷ _ ∷ _) = none

-- OWNER/REPO and NUMBER
unfoldable pub parse_url : List ℕ → Option (List ℕ × ℕ)
unfolding some_name some_number
parse_url s = and_then (after (codes "https://github.com/") s) λ s1.
    and_then (some_name s1) λ owner. and_then (after (codes "/") owner.1) λ s2.
      and_then (some_name s2) λ repo.
        and_then (after (codes "/pull/") repo.1)
          λ s3. and_then (some_number s3) λ number. some (owner.0 ++ b'/' ∷ repo.0, number)

abbrev matched : Option (List ℕ × ℕ) → Result (List ℕ × ℕ)
matched none = err (value_error "expected https://github.com/OWNER/REPO/pull/NUMBER")
matched (some p) = ok p

unfoldable pub identity : Value → Result (List ℕ × ℕ)
unfolding parse_url
identity (str s) = matched (parse_url (codes s))
identity _ = err type_error
