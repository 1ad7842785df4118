-- ===== src/Records/Plan/Graph/Sorted.antt =====
-- The visits of `validate_graph` of afk_records/plan.py put the children in an order in which each comes
-- after those that it depends on.
use afk_pipeline.Prelude.{
  ℕ, zero, suc, String, true, List, [], ◌∷◌, ◌≡◌, subst, All, arith, Bool-cases, inl, inr,
}
use text.Mathlib.TextPositions.{eq_refl}
use afk_pipeline.Py.Result.{Result, ok, err, >>=-returns}
use afk_pipeline.Py.Facts.{taken, not_taken, is_ok}
use afk_pipeline.Records.Plan.Graph.{Node, holds, by_id, each, enter, visit, cycle}

-- the latest first: what an id depends on comes later in the list
abbrev pub IsSorted : List Node → List String → Type 0
IsSorted children [] = Unit {0}
IsSorted children (local_id ∷ rest) =
    ((child : Node) × (by_id children local_id ≡ ok child)
      × All (λ d. holds d rest ≡ true) child.depends_on)
    × IsSorted children rest

-- what a set of ids has, the other has too
abbrev pub IsIn : List String → List String → Type 0
IsIn xs ys = (x : String) → holds x xs ≡ true → holds x ys ≡ true

pub holds-first : (x : String) (xs : List String) → holds x (x ∷ xs) ≡ true
holds-first x xs = ground (arith, eq_refl x)

pub IsIn-more : (x : String) (xs : List String) → IsIn xs (x ∷ xs)
IsIn-more x xs y h = ground arith

-- what one visit leaves
abbrev pub Leaves : List Node → List String → String → List String → Type 0
Leaves children visited local_id seen =
    IsSorted children seen × (holds local_id seen ≡ true) × IsIn visited seen

module _ (children : List Node) where
  abbrev pub AllLeave : (List String → String → Result (List String)) → Type 0
  AllLeave visit_one =
      (visited : List String) (local_id : String) (seen : List String)
      → IsSorted children visited
      → visit_one visited local_id ≡ ok seen
      → Leaves children visited local_id seen

  pub each-Leaves :
      (visit_one : List String → String → Result (List String)) (leaves : AllLeave visit_one)
      (visited rest seen : List String)
      → IsSorted children visited
      → each visit_one visited rest ≡ ok seen
      → IsSorted children seen × All (λ d. holds d seen ≡ true) rest × IsIn visited seen
  unfolding each
  each-Leaves visit_one leaves visited [] seen sorted q =
      let same = is_ok visited seen q in
      (subst (IsSorted children) same sorted, tt, λ x h. subst (λ s. holds x s ≡ true) same h)
  each-Leaves visit_one leaves visited (local_id ∷ rest) seen sorted q0 =
      let (first, e1, q1) = >>=-returns (visit_one visited local_id) _ q0 in
      let (sorted1, here, grown) = leaves visited local_id first sorted e1 in
      let (sorted2, others, grown2) = each-Leaves visit_one leaves first rest seen sorted1 q1 in
      (sorted2, (grown2 local_id here, others), λ x h. grown2 x (grown x h))

  enter-Leaves :
      (visit_one : List String → String → Result (List String))
      → AllLeave visit_one
      → AllLeave (enter visit_one children)
  unfolding enter
  enter-Leaves visit_one leaves visited local_id seen sorted q0 =
      let (child, e1, q1) = >>=-returns (by_id children local_id) _ q0 in
      let (before, e2, q2) = >>=-returns (each visit_one visited child.depends_on) _ q1 in
      let (sorted2, known, grown) =
        each-Leaves visit_one leaves visited child.depends_on before sorted e2 in
      let same = is_ok (local_id ∷ before) seen q2 in
      subst (Leaves children visited local_id) same (
        ((child, e1, known), sorted2),
        holds-first local_id before,
        λ x h. IsIn-more local_id before x (grown x h),
      )

  pub visit-Leaves : (fuel : ℕ) (visiting : List String) → AllLeave (visit fuel children visiting)
  unfolding visit
  visit-Leaves zero visiting visited local_id seen sorted q = cc
  visit-Leaves (suc fuel) visiting visited local_id seen sorted q =
      elim (Bool-cases (holds local_id visiting)) [
        | inl down ↦ absurd (apart (taken (holds local_id visiting) _ _ down q))
        | inr up ↦
            let q1 = not_taken (holds local_id visiting) _ _ up q in
            elim (Bool-cases (holds local_id visited)) [
              | inl done ↦
                  subst (Leaves children visited local_id)
                    (is_ok visited seen (taken (holds local_id visited) _ _ done q1))
                    (sorted, done, λ x h. h)
              | inr new ↦
                  enter-Leaves (visit fuel children (local_id ∷ visiting))
                    (visit-Leaves fuel (local_id ∷ visiting)) visited local_id seen sorted
                    (not_taken (holds local_id visited) _ _ new q1)
            ]
      ]
    where
      apart : err cycle ≡ ok seen → ⊥
      apart e = cc
