-- ===== src/Pr/Jobs/Recorded.antt =====
-- The records of the phases that `start` of afk_pr/jobs.py writes stay.
use afk_pipeline.Prelude.{
  ℕ, String, Bool, true, false, Option, none, some, List, [], ◌∷◌, ◌≡◌, inl, inr, refl, sym, ap,
  ◌∙◌, if◌then◌else◌, arith, str_eq, any, eq_iff, All, Bool-cases,
}
use text.Mathlib.TextPositions.{eq_refl}
use afk_pipeline.Py.Value.{Value, Fields, null, bool, int, str, list, dict, lookup}
use afk_pipeline.Py.Dict.{lookup-set_field}
use afk_pipeline.Pr.Folder.{set_field}
use afk_pipeline.Pr.Jobs.Store.{Store, World}
use afk_pipeline.Pr.Jobs.Work.{runs, done}
use afk_pipeline.Pr.Jobs.Kept.{publish-IsKept}
use afk_pipeline.Pr.Jobs.Stable.{IsStable}
use afk_pipeline.Pr.Jobs.Runs.{HasRuns-IsStable}
use afk_pipeline.Pr.Jobs.Start.{set_all}
use afk_pipeline.Pr.Jobs.Launched.{IsKeptBy}

abbrev pub Recorded : String → Store → Type 0
Recorded phase m = (v : Value) × (lookup phase m.phases ≡ some v)

lookup-set_field_same :
    (k q : String) (v : Value) (fs : Fields)
    → (str_eq k q ≡ true)
    → lookup q (set_field k v fs) ≡ some v
lookup-set_field_same k q v fs h = lookup-set_field k q v fs ∙ (rw h)

-- a record that is written stays, whatever else is written alike
lookup-set_all_kept :
    (q : String) (v : Value) (phases : List String) (fs : Fields)
    → lookup q fs ≡ some v
    → lookup q (set_all v phases fs) ≡ some v
lookup-set_all_kept q v [] fs h = h
lookup-set_all_kept q v (phase ∷ rest) fs h =
    lookup-set_all_kept q v rest (set_field phase v fs)
      (lookup-set_field phase q v fs ∙ either (str_eq phase q))
  where
    either : (b : Bool) → (if b then some v else lookup q fs) ≡ some v
    either true = refl
    either false = h

swapped : (a b : String) → str_eq a b ≡ true → str_eq b a ≡ true
swapped a b h = (eq_iff b a).1 (sym ((eq_iff a b).0 h))

pub lookup-set_all :
    (q : String) (v : Value) (phases : List String) (fs : Fields)
    → any (str_eq q) phases ≡ true
    → lookup q (set_all v phases fs) ≡ some v
lookup-set_all q v [] fs h = cc
lookup-set_all q v (phase ∷ rest) fs h = elim (Bool-cases (str_eq q phase)) [
  | inl here ↦
      lookup-set_all_kept q v rest (set_field phase v fs)
        (lookup-set_field_same phase q v fs (swapped q phase here))
  | inr other ↦ lookup-set_all q v rest (set_field phase v fs) (rw other at h)
]

pub All-any :
    (P : String → Type 0) (phases : List String)
    → ((p : String) → any (str_eq p) phases ≡ true → P p)
    → All P phases
All-any P [] h = tt
All-any P (q ∷ rest) h = (h q (rw (eq_refl q) refl), All-any P rest (λ p k. h p (later p k)))
  where
    later : (p : String) → any (str_eq p) rest ≡ true → any (str_eq p) (q ∷ rest) ≡ true
    later p k = ground arith

pub written :
    (v : Value) (phases : List String) (fs : Fields)
    → All (λ p. lookup p (set_all v phases fs) ≡ some v) phases
written v phases fs =
    All-any (λ p. lookup p (set_all v phases fs) ≡ some v) phases
      (λ p h. lookup-set_all p v phases fs h)

done-some : (v : Value) → (u : Value) × (done (some v) ≡ some u)
done-some (dict fs) = (_, refl)
done-some null = (null, refl)
done-some (bool b) = (bool b, refl)
done-some (int z) = (int z, refl)
done-some (str s) = (str s, refl)
done-some (list vs) = (list vs, refl)

still_there : (x : Option Value) (v : Value) → done x ≡ done (some v) → (u : Value) × (x ≡ some u)
still_there (some u) v e = (u, refl)
still_there none v e = let (u, q) = done-some v in absurd (apart (e ∙ q))
  where
    apart : {u : Value} → none ≡ some u → ⊥
    apart q = cc

module _ (w : World) (n : ℕ) where
  Recorded-IsStable : (p : String) → IsStable w (Recorded p)
  Recorded-IsStable p = record {
    writing =
        λ phase v m h. by_key (str_eq phase p) phase v m h (lookup-set_field phase p v m.phases);
    sealing = λ v m h. h;
    publishing = λ phase. record {
      at = λ m (v, e). still_there _ v ((publish-IsKept w phase m).same_work p ∙ ap done e);
    };
  }
    where
      by_key :
          (b : Bool) (phase : String) (v : Value) (m : Store)
          → Recorded p m
          → lookup p (set_field phase v m.phases) ≡ (if b then some v else lookup p m.phases)
          → (u : Value) × (lookup p (set_field phase v m.phases) ≡ some u)
      by_key true phase v m h q = (v, q)
      by_key false phase v m (u, e) q = (u, q ∙ e)

  pub Recorded-IsKeptBy : (p : String) → IsKeptBy w (Recorded p)
  Recorded-IsKeptBy p = record { stable = Recorded-IsStable p; launching = λ phase m h. h }

  pub HasRuns-IsKeptBy : IsKeptBy w (λ m. runs m.log ≡ n)
  HasRuns-IsKeptBy = record { stable = HasRuns-IsStable w n; launching = λ phase m h. h }
