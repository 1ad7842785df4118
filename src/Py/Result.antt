-- ===== src/Py/Result.antt =====
-- A computation that may raise. An exception is its class and the text that the code gives it; the
-- texts of Python's own errors are not modelled.
use afk_pipeline.Prelude.{
  ◌≡◌, refl, String, Bool, true, false, Option, List, [], ◌∷◌, if◌then◌else◌,
}

pub data Exc : Type 0 where
  key_error : String → Exc
  value_error runtime_error : String → Exc
  type_error attribute_error os_error subprocess_error : Exc
  command_failure : (command : String) (diagnostic : Option String) → Exc

pub data Result {ℓ} (A : Type ℓ) : Type ℓ where
  ok : A → Result A
  err : Exc → Result A

module _ {ℓ κ} {A : Type ℓ} {B : Type κ} where
  -- what raises ends the computation
  infixl 5 ◌>>=◌
  abbrev pub ◌>>=◌ : (r : Result A) (next : A → Result B) → Result B
  err e >>= next = err e
  ok a >>= next = next a

  -- a computation that returns went through its first part
  pub >>=-returns :
      (r : Result A) (next : A → Result B) {last : B} (q : (r >>= next) ≡ ok last)
      → (first : A) × (r ≡ ok first) × (next first ≡ ok last)
  >>=-returns (err e) next q = cc
  >>=-returns (ok first) next q = (first, refl, q)

-- any(test(x) for x in xs), which stops at the first that passes
unfoldable pub any_of {ℓ} : {A : Type ℓ} → (A → Result Bool) → List A → Result Bool
any_of test [] = ok false
any_of test (x ∷ xs) =
    let rest = any_of test xs in do found ← test x; if found then ok true else rest
