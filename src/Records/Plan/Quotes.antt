-- ===== src/Records/Plan/Quotes.antt =====
-- The tests of texts in afk_records/plan.py: `normalize`, `quote not in source`, and the search for a
-- project's slug that stands alone.
use afk_pipeline.Prelude.{
  ℕ, String, Bool, true, false, not, ◌&&◌, ◌||◌, List, [], ◌∷◌, ◌++◌, leb, ◌==◌, if◌then◌else◌,
}
use afk_pipeline.Py.Codes.{codes, is_space, is_digit}

-- " ".join(s.split()): a word is set apart by one space from a word before it
unfoldable pub spaced : (after_word after_space : Bool) → List ℕ → List ℕ
spaced after_word after_space [] = []
spaced after_word after_space (c ∷ cs) =
    let later = spaced after_word true cs in
    let more = spaced true false cs in
    if is_space c then later else if after_word && after_space then b' ' ∷ c ∷ more else c ∷ more

unfoldable pub normalize : String → List ℕ
normalize s = spaced false false (codes s)

abbrev pub joined : List String → List ℕ
joined [] = []
joined (s ∷ []) = codes s
joined (s ∷ rest) = codes s ++ b' ' ∷ joined rest

-- normalize(" ".join(ss))
unfoldable pub normalize_all : List String → List ℕ
normalize_all ss = spaced false false (joined ss)

-- s.startswith(p), and what is left
abbrev pub starts : (p s : List ℕ) → Bool
starts [] s = true
starts (c ∷ p) [] = false
starts (c ∷ p) (d ∷ s) = c == d && starts p s

-- p in s
unfoldable pub contains : (p s : List ℕ) → Bool
contains p [] = starts p []
contains p (c ∷ s) = starts p (c ∷ s) || contains p s

-- [a-z0-9-]
abbrev pub is_slug_char : ℕ → Bool
is_slug_char c = (leb b'a' c && leb c b'z') || is_digit c || c == b'-'

-- p stands at the start of s, and no character of a slug after it
abbrev pub ends_slug : (p s : List ℕ) → Bool
ends_slug [] [] = true
ends_slug [] (c ∷ s) = not (is_slug_char c)
ends_slug (c ∷ p) [] = false
ends_slug (c ∷ p) (d ∷ s) = c == d && ends_slug p s

-- re.search of p in s with no character of a slug before or after it
unfoldable pub names_slug : (after_slug : Bool) → (p s : List ℕ) → Bool
names_slug after_slug p [] = not after_slug && ends_slug p []
names_slug after_slug p (c ∷ s) =
    (not after_slug && ends_slug p (c ∷ s)) || names_slug (is_slug_char c) p s
