-- ===== src/Py/Facts.antt =====
-- What a test or a read of a JSON value that passes says of the value.
use afk_pipeline.Prelude.{
  ℕ, zero, suc, pos, negsuc, String, Bool, true, false, none, some, List, [], ◌∷◌, ◌≡◌, refl, sym,
  ap, ◌∙◌, arith, any, eq_iff, str_eq, if◌then◌else◌, inl, inr, Option-cases,
}
use afk_pipeline.Py.Value.{
  Value, Fields, null, bool, int, str, list, dict, lookup, is_text, is_null,
}
use afk_pipeline.Py.Read.{in_set, index}
use afk_pipeline.Py.Result.{Result, ok, Exc, ◌>>=◌}
use afk_pipeline.Py.Shape.{require, at, natural, positive}

pub is_text-str : (v : Value) (s : String) → is_text v s ≡ true → v ≡ str s
is_text-str (str t) s h = ap str ((eq_iff t s).0 h)
is_text-str null s h = cc
is_text-str _ s h = cc

pub require-true : (e : Exc) (b : Bool) {u : Unit {0}} → require e b ≡ ok u → b ≡ true
require-true e true h = refl
require-true e false h = cc

-- what follows a requirement is reached where it holds
pub require-then :
    {A : Type 0} (e : Exc) (b : Bool) (next : Unit {0} → Result A) {a : A}
    → (require e b >>= next) ≡ ok a
    → (b ≡ true) × (next tt ≡ ok a)
require-then e true next h = (refl, h)
require-then e false next h = cc

-- a number that is a whole one, at least 1
pub positive-int : (v : Value) (n : ℕ) → positive v ≡ some n → v ≡ int (pos n)
positive-int (int (pos (suc m))) n h = ground arith
positive-int (int (pos zero)) n h = cc
positive-int (int (negsuc m)) n h = cc
positive-int null n h = cc
positive-int (bool b) n h = cc
positive-int (str s) n h = cc
positive-int (list vs) n h = cc
positive-int (dict fs) n h = cc

-- the value of a key that is there
pub index-at : (fs : Fields) (k : String) (v : Value) → index (dict fs) k ≡ ok v → at fs k ≡ v
index-at fs k v h = elim (Option-cases (lookup k fs)) [ inl e ↦ cc | inr (u, e) ↦ ground arith ]

pub is_ok : {A : Type 0} (a b : A) → ok a ≡ ok b → a ≡ b
is_ok a b h = ground arith

never :
    (v : Value) (ts : List String)
    → ((t : String) → is_text v t ≡ false)
    → any (is_text v) ts ≡ false
never v [] h = refl
never v (t ∷ ts) h = ground (arith, h t, never v ts h)

no_member :
    {A : Type 0} (v : Value) (ts : List String)
    → ((t : String) → is_text v t ≡ false)
    → any (is_text v) ts ≡ true
    → A
no_member v ts h e = let f = never v ts h in absurd (apart (sym f ∙ e))
  where
    apart : false ≡ true → ⊥
    apart q = cc

-- a value in a set of texts is one of them
pub in_set-str :
    (v : Value) (ts : List String)
    → in_set v ts ≡ ok true
    → (s : String) × (v ≡ str s) × (any (str_eq s) ts ≡ true)
in_set-str (str s) ts h = (s, refl, same s ts (is_ok _ true h))
  where
    same :
        (s : String) (ts : List String) → any (is_text (str s)) ts ≡ true → any (str_eq s) ts ≡ true
    same s [] h = h
    same s (t ∷ ts) h = ground (arith, same s ts)
in_set-str null ts h = no_member null ts (λ t. refl) (is_ok _ true h)
in_set-str (bool b) ts h = no_member (bool b) ts (λ t. refl) (is_ok _ true h)
in_set-str (int z) ts h = no_member (int z) ts (λ t. refl) (is_ok _ true h)
in_set-str (list vs) ts h = cc
in_set-str (dict fs) ts h = cc

-- a key whose value is a text is there
pub at-str : (fs : Fields) (k s : String) → at fs k ≡ str s → index (dict fs) k ≡ ok (str s)
at-str fs k s h = elim (Option-cases (lookup k fs)) [ inl e ↦ cc | inr (u, e) ↦ ground arith ]

-- a test that the rest answers only where it passes
pub if-true :
    (b : Bool) (rest : Result Bool) → (if b then rest else ok false) ≡ ok true → rest ≡ ok true
if-true true rest h = h
if-true false rest h = cc

pub is_null-null : (v : Value) → is_null v ≡ true → v ≡ null
is_null-null null h = refl
is_null-null (bool b) h = cc
is_null-null (int z) h = cc
is_null-null (str s) h = cc
is_null-null (list vs) h = cc
is_null-null (dict fs) h = cc

-- the branch that is taken
pub taken {ℓ} :
    {A : Type ℓ} (b : Bool) (x y : A) {a : A} → b ≡ true → (if b then x else y) ≡ a → x ≡ a
taken true x y e h = h
taken false x y e h = cc

pub not_taken {ℓ} :
    {A : Type ℓ} (b : Bool) (x y : A) {a : A} → b ≡ false → (if b then x else y) ≡ a → y ≡ a
not_taken true x y e h = cc
not_taken false x y e h = h

pub require-passes : (e : Exc) (b : Bool) → b ≡ true → require e b ≡ ok tt
require-passes e true h = refl
require-passes e false h = cc

-- what a computation does whose first part returns
pub bind-ok :
    {A B : Type 0} (r : Result A) (next : A → Result B) (a : A) {t : Result B}
    → r ≡ ok a
    → next a ≡ t
    → (r >>= next) ≡ t
bind-ok r next a e h = ap (λ s. s >>= next) e ∙ h

-- a key whose value is not null is there
pub at-index :
    (fs : Fields) (k : String) (v : Value)
    → at fs k ≡ v
    → is_null v ≡ false
    → index (dict fs) k ≡ ok v
at-index fs k v h full = elim (Option-cases (lookup k fs)) [
  | inl e ↦ absurd (apart (ap is_null (null_at e) ∙ full))
  | inr (u, e) ↦ ground arith
]
  where
    null_at : lookup k fs ≡ none → null ≡ v
    null_at e = cc

    apart : true ≡ false → ⊥
    apart q = cc

pub natural-int : (v : Value) (n : ℕ) → natural v ≡ some n → v ≡ int (pos n)
natural-int (int (pos m)) n h = ground arith
natural-int (int (negsuc m)) n h = cc
natural-int null n h = cc
natural-int (bool b) n h = cc
natural-int (str s) n h = cc
natural-int (list vs) n h = cc
natural-int (dict fs) n h = cc

-- and the test passes
pub if-test : (b : Bool) (rest : Result Bool) → (if b then rest else ok false) ≡ ok true → b ≡ true
if-test true rest h = refl
if-test false rest h = absurd (apart h)
  where
    apart : ok false ≡ ok true → ⊥
    apart e = cc
