-- ===== src/Py/Text.antt =====
-- Texts: the decimal numerals of an f-string, and the `re.fullmatch` patterns of hexadecimal digits.
use Prim.Native.Char.{code}
use Prim.Native.Nat.{◌/◌, ◌%◌}
use Prim.Native.String.{[] as empty_text, ◌∷◌ as char_cons, ◌++◌ as append}
use afk_pipeline.Prelude.{
  ℕ, zero, suc, String, Bool, true, false, ◌&&◌, ◌||◌, leb, ltb, if◌then◌else◌,
}

digit : ℕ → String
digit zero = "0"
digit (suc zero) = "1"
digit (suc (suc zero)) = "2"
digit (suc (suc (suc zero))) = "3"
digit (suc (suc (suc (suc zero)))) = "4"
digit (suc (suc (suc (suc (suc zero))))) = "5"
digit (suc (suc (suc (suc (suc (suc zero)))))) = "6"
digit (suc (suc (suc (suc (suc (suc (suc zero))))))) = "7"
digit (suc (suc (suc (suc (suc (suc (suc (suc zero)))))))) = "8"
digit _ = "9"

-- A numeral has at most as many digits as its number, so the fuel of `decimal` does not run out.
decimal_on : ℕ → ℕ → String → String
decimal_on zero n tail = tail
decimal_on (suc fuel) n tail =
    let more = decimal_on fuel (n / 10) (append (digit (n % 10)) tail) in
    if ltb n 10 then append (digit n) tail else more

-- str(n) of a number that is not negative
unfoldable pub decimal : ℕ → String
unfolding decimal_on digit
decimal n = decimal_on (suc n) n ""

is_hex : ℕ → Bool
is_hex c = (leb b'0' c && leb c b'9') || (leb b'a' c && leb c b'f')

-- re.fullmatch(r"[0-9a-f]{n}", s)
unfoldable pub matches_hex : ℕ → String → Bool
unfolding is_hex
matches_hex zero empty_text = true
matches_hex zero (char_cons c s) = false
matches_hex (suc n) empty_text = false
matches_hex (suc n) (char_cons c s) = is_hex (code c) && matches_hex n s
