-- ===== src/Py/Codes.antt =====
-- Texts as the numbers of their characters, where the code looks at single characters.
use Prim.Native.Char.{code}
use Prim.Native.String.{[] as empty_text, ◌∷◌ as char_cons}
use afk_pipeline.Prelude.{
  ℕ, ◌+◌, String, Bool, true, false, not, ◌&&◌, ◌||◌, List, [], ◌∷◌, leb, ◌==◌, if◌then◌else◌, any,
  map, ◌≡◌, refl, arith,
}
use afk_pipeline.Py.Value.{Value, str}

abbrev pub codes : String → List ℕ
codes empty_text = []
codes (char_cons c s) = code c ∷ codes s

abbrev pub eq_codes : List ℕ → List ℕ → Bool
eq_codes [] [] = true
eq_codes (a ∷ as') (b ∷ bs) = a == b && eq_codes as' bs
eq_codes _ _ = false

pub eq_codes-eq : (xs ys : List ℕ) → eq_codes xs ys ≡ true → xs ≡ ys
eq_codes-eq [] [] h = refl
eq_codes-eq [] (b ∷ bs) h = cc
eq_codes-eq (a ∷ as') [] h = cc
eq_codes-eq (a ∷ as') (b ∷ bs) h = ground (arith, eq_codes-eq as' bs)

-- v == s, for the text that `cs` spells
abbrev pub spells : List ℕ → Value → Bool
spells cs (str t) = eq_codes (codes t) cs
spells cs _ = false

abbrev pub is_digit : ℕ → Bool
is_digit c = leb b'0' c && leb c b'9'

abbrev pub is_upper : ℕ → Bool
is_upper c = leb b'A' c && leb c b'Z'

abbrev pub is_letter : ℕ → Bool
is_letter c = is_upper c || leb b'a' c && leb c b'z'

-- s.lower() of an ASCII text
abbrev pub lower : List ℕ → List ℕ
lower = map (λ c. if is_upper c then c + 32 else c)

-- the characters that `strip` takes off
abbrev pub is_space : ℕ → Bool
is_space c =
    (leb 9 c && leb c 13)
    || (leb 28 c && leb c 32)
    || c == 133
    || c == 160
    || c == 5760
    || (leb 8192 c && leb c 8202)
    || c == 8232
    || c == 8233
    || c == 8239
    || c == 8287
    || c == 12288

-- isinstance(v, str) and v.strip()
unfoldable pub is_nonblank : Value → Bool
is_nonblank (str t) = any (λ c. not (is_space c)) (codes t)
is_nonblank _ = false
