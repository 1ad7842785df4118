-- ===== src/Records/Plan/Graph/Closure.antt =====
-- What `validate_graph` of afk_records/plan.py has established of the children that it accepts.
use afk_pipeline.Prelude.{
  ℕ, suc, String, Bool, true, false, not, ◌||◌, List, [], ◌∷◌, ◌≡◌, refl, ap, ◌∙◌, if◌then◌else◌,
  any, all, All, length, arith, str_eq, eq_iff, Bool-cases, inl, inr,
}
use afk_pipeline.Py.Result.{Result, ok, value_error, >>=-returns, any_of}
use afk_pipeline.Py.Facts.{require-then, require-true, taken, not_taken}
use afk_pipeline.Records.Plan.Graph.{
  Node, holds, ids, each, visit, knows, ancestors, is_implementation, is_closure, implementations,
  is_closed, check_phase, check_phases, validate_graph, is_empty,
}
use afk_pipeline.Records.Plan.Graph.Sorted.{IsSorted, holds-first}
use afk_pipeline.Records.Plan.Graph.Ancestors.{Before, ancestors-Before, ancestors-holds}
use afk_pipeline.Records.Plan.Graph.Layers.{visits-Leave}

-- a closure child comes after an implementation child, and an implementation child after no closure child
pub record IsLayered (children : List Node) (child : Node) : Type 0 where
  pub after_implementation :
      is_closure child ≡ true
      → (a : String) × Before children a child.local_id
        × (holds a (implementations children) ≡ true)
  pub before_closure :
      is_implementation child ≡ true
      → (a : String) → Before children a child.local_id
      → is_closed children a ≡ ok false

any-exists :
    (p : String → Bool) (xs : List String)
    → any p xs ≡ true
    → (x : String) × (holds x xs ≡ true) × (p x ≡ true)
any-exists p [] h = absurd (none h)
  where
    none : false ≡ true → ⊥
    none e = cc
any-exists p (x ∷ xs) h = elim (Bool-cases (p x)) [
  | inl here ↦ (x, holds-first x xs, here)
  | inr e ↦
      let (y, there, py) = any-exists p xs (rest (p x) (any p xs) e h) in (y, wider y there, py)
]
  where
    rest : (a b : Bool) → a ≡ false → (a || b) ≡ true → b ≡ true
    rest a b e h = ground arith

    wider : (y : String) → holds y xs ≡ true → holds y (x ∷ xs) ≡ true
    wider y h = ground arith

module _ (children : List Node) where
  none-closed :
      (above : List String)
      → any_of (is_closed children) above ≡ ok false
      → (a : String) → holds a above ≡ true
      → is_closed children a ≡ ok false
  unfolding any_of
  none-closed [] q a h = absurd (none h)
    where
      none : false ≡ true → ⊥
      none e = cc
  none-closed (x ∷ above) q0 a h =
      let (found, e1, q1) = >>=-returns (is_closed children x) _ q0 in
      let (open_one, q2) = goes_on found (any_of (is_closed children) above) q1 in
      elim (Bool-cases (str_eq a x)) [
        | inl same ↦ ap (is_closed children) ((eq_iff a x).0 same) ∙ e1 ∙ ap ok open_one
        | inr other ↦ none-closed above q2 a (later other)
      ]
    where
      goes_on :
          (found : Bool) (r : Result Bool)
          → (if found then ok true else r) ≡ ok false
          → (found ≡ false) × (r ≡ ok false)
      goes_on true r q = absurd (apart q)
        where
          apart : ◌≡◌ {A = Result Bool} (ok true) (ok false) → ⊥
          apart e = cc
      goes_on false r q = (refl, q)

      later : str_eq a x ≡ false → holds a above ≡ true
      later e = ground arith

  apart_phases : (child : Node) → is_implementation child ≡ true → is_closure child ≡ false
  apart_phases child i = ap (λ p. str_eq p "closure") ((eq_iff child.phase "implementation").0 i)

  check_phase-IsLayered :
      (fuel : ℕ) (child : Node) → check_phase fuel children child ≡ ok tt → IsLayered children child
  unfolding check_phase
  check_phase-IsLayered fuel child q = record {
    after_implementation = λ c.
        let (above, e1, q1) =
          >>=-returns (ancestors fuel children child.local_id) _
            (taken (is_closure child) _ _ c q) in
        let (a, there, known) =
          any-exists (λ a. holds a (implementations children)) above (require-true _ _ q1) in
        (a, ancestors-Before children fuel child.local_id above e1 a there, known);
    before_closure = λ i a before.
        let open_one = not_taken (is_closure child) _ _ (apart_phases child i) q in
        let (above, e1, q1) =
          >>=-returns (ancestors fuel children child.local_id) _
            (taken (is_implementation child) _ _ i open_one) in
        let (closed, e2, q2) = >>=-returns (any_of (is_closed children) above) _ q1 in
        let no_closed = negated closed (require-true _ _ q2) in
        none-closed above (e2 ∙ ap ok no_closed) a
          (ancestors-holds children fuel a child.local_id above before e1);
  }
    where
      negated : (b : Bool) → not b ≡ true → b ≡ false
      negated b h = ground arith

  check_phases-IsLayered :
      (fuel : ℕ) (some_children : List Node)
      → check_phases fuel children some_children ≡ ok tt
      → All (IsLayered children) some_children
  unfolding check_phases
  check_phases-IsLayered fuel [] q = tt
  check_phases-IsLayered fuel (child ∷ rest) q0 =
      let (u, e1, q1) = >>=-returns (check_phase fuel children child) _ q0 in
      (check_phase-IsLayered fuel child e1, check_phases-IsLayered fuel rest q1)

-- Accepted children have an order in which each comes after all that it depends on, so no dependency
-- leads back to its start. If some child is an implementation, each closure child depends, directly or
-- over others, on one, and no implementation child depends in that way on a closure child.
pub validate_graph-IsLayered :
    (children : List Node)
    → validate_graph children ≡ ok tt
    → ((order : List String) × IsSorted children order
        × All (λ i. holds i order ≡ true) (ids children))
      × (is_empty (implementations children) ≡ false → All (IsLayered children) children)
unfolding validate_graph
validate_graph-IsLayered children q0 =
    let (known, q1) =
      require-then (value_error "child dependencies must reference other children")
        (all (knows children) children) _ q0 in
    let (visited, e2, q2) =
      >>=-returns (each (visit (suc (length children)) children []) [] (ids children)) _ q1 in
    let (sorted, all_in) = visits-Leave children visited e2 in
    (
      (visited, sorted, all_in),
      λ some_work.
          check_phases-IsLayered children (suc (length visited)) children
            (not_taken (is_empty (implementations children)) _ _ some_work q2),
    )
