-- ===== src/Py/Dict.antt =====
-- What an assignment to a key of a dict leaves under each key.
use afk_pipeline.Prelude.{
  String, Bool, true, false, some, ◌≡◌, refl, sym, ap, ◌∙◌, if◌then◌else◌, str_eq, eq_iff,
  Bool-cases, inl, inr,
}
use text.Mathlib.TextPositions.{eq_refl}
use afk_pipeline.Py.Value.{Value, Fields, field, end, null, lookup}
use afk_pipeline.Py.Read.{has, or_default}
use afk_pipeline.Py.Shape.{set_field, at}

shadow {ℓ} :
    {A : Type ℓ} (b : Bool) (x y z : A)
    → (if b then x else y) ≡ (if b then x else if b then z else y)
shadow true x y z = refl
shadow false x y z = refl

exchange {ℓ} :
    {A : Type ℓ} (a b : Bool) (x y z : A)
    → (a ≡ true → b ≡ false)
    → (if a then x else if b then y else z) ≡ (if b then y else if a then x else z)
exchange true true x y z h = absurd (true-ne-false (h refl))
  where
    true-ne-false : true ≡ false → ⊥
    true-ne-false p = cc
exchange true false x y z h = refl
exchange false b x y z h = refl

pub same_key : {j k : String} → str_eq j k ≡ true → j ≡ k
same_key {j = j} {k = k} h = (eq_iff j k).0 h

-- the second of two keys is not the first
not_both : (j k q : String) → str_eq j k ≡ false → str_eq j q ≡ true → str_eq k q ≡ false
not_both j k q other here = elim (Bool-cases (str_eq k q)) [
  | inl there ↦ absurd (apart (sym ((eq_iff j k).1 (same_key here ∙ sym (same_key there))) ∙ other))
  | inr e ↦ e
]
  where
    apart : true ≡ false → ⊥
    apart p = cc

pub lookup-set_field :
    (k q : String) (v : Value) (fs : Fields)
    → lookup q (set_field k v fs) ≡ (if str_eq k q then some v else lookup q fs)
lookup-set_field k q v end = refl
lookup-set_field k q v (field j u fs) = elim (Bool-cases (str_eq j k)) [
  | inl same ↦ rw same (rw (same_key same) (shadow (str_eq k q) (some v) (lookup q fs) (some u)))
  | inr other ↦
      rw (other, lookup-set_field k q v fs)
        (exchange (str_eq j q) (str_eq k q) (some u) (some v) (lookup q fs) (not_both j k q other))
]

pub has-set_field : (k : String) (v : Value) (fs : Fields) → has (set_field k v fs) k ≡ true
has-set_field k v fs = simp (lookup-set_field, eq_refl)

pub at-set_field : (k : String) (v : Value) (fs : Fields) → at (set_field k v fs) k ≡ v
at-set_field k v fs =
    ap (or_default null) {y = some v} (lookup-set_field k k v fs ∙ rw (eq_refl k) refl)

pub at-other :
    (j k : String) (v : Value) (fs : Fields)
    → str_eq k j ≡ false
    → at (set_field k v fs) j ≡ at fs j
at-other j k v fs other =
    ap (or_default null) {y = lookup j fs} (lookup-set_field k j v fs ∙ rw other refl)
