-- ===== src/Records/Plan/Graph/Ancestors.antt =====
-- The sets that `ancestors` of `validate_graph` in afk_records/plan.py computes: they hold what the
-- child depends on, directly or over others.
use afk_pipeline.Prelude.{
  ℕ, zero, suc, ◌<◌, String, Bool, true, false, ◌||◌, List, [], ◌∷◌, ◌++◌, ◌≡◌, refl, sym, ap, ◌∙◌,
  subst, All, length, arith, str_eq, eq_iff, ◌⊎◌, inl, inr,
}
use afk_pipeline.Py.Result.{Result, ok, >>=-returns}
use afk_pipeline.Py.Facts.{is_ok}
use afk_pipeline.Records.Plan.Graph.{Node, holds, by_id, gather, ancestors}
use afk_pipeline.Records.Plan.Graph.Sorted.{IsSorted, holds-first}
use afk_pipeline.Records.Plan.Graph.Enough.{Goes, bind-Goes, by_id-Goes, ok-Goes}

-- the first child is one that the second depends on, directly or over others
pub data Before (children : List Node) : String → String → Type 0 where
  direct :
      {d local_id : String} {child : Node}
      → by_id children local_id ≡ ok child
      → holds d child.depends_on ≡ true
      → Before children d local_id
  further :
      {a d local_id : String} {child : Node}
      → by_id children local_id ≡ ok child
      → holds d child.depends_on ≡ true
      → Before children a d
      → Before children a local_id

holds-append : (x : String) (xs ys : List String) → holds x (xs ++ ys) ≡ holds x xs || holds x ys
holds-append x [] ys = refl
holds-append x (y ∷ xs) ys = let h = holds-append x xs ys in ground arith

or-cases : (a b : Bool) → (a || b) ≡ true → (a ≡ true) ⊎ (b ≡ true)
or-cases true b h = inl refl
or-cases false b h = inr h

left : {a : Bool} (b : Bool) → a ≡ true → (a || b) ≡ true
left b h = ground arith

right : {b : Bool} (a : Bool) → b ≡ true → (a || b) ≡ true
right a h = ground arith

pub All-map :
    {P Q : String → Type 0} (ds : List String) → ((d : String) → P d → Q d) → All P ds → All Q ds
All-map [] f h = tt
All-map (d ∷ ds) f (a, h) = (f d a, All-map ds f h)

module _ (children : List Node) where
  gather-Before :
      (above : String → Result (List String))
      → ((d : String) (as' : List String)
          → above d ≡ ok as'
          → (x : String) → holds x as' ≡ true
          → Before children x d)
      → (ds found : List String) → gather above ds ≡ ok found
      → (x : String) → holds x found ≡ true
      → (d : String) × (holds d ds ≡ true) × Before children x d
  unfolding gather
  gather-Before above sound [] found q x h = absurd (none (ap (holds x) (is_ok [] found q) ∙ h))
    where
      none : false ≡ true → ⊥
      none e = cc
  gather-Before above sound (d ∷ ds) found q0 x h =
      let (first, e1, q1) = >>=-returns (above d) _ q0 in
      let (rest, e2, q2) = >>=-returns (gather above ds) _ q1 in
      let there =
        sym (holds-append x first rest) ∙ ap (holds x) (is_ok (first ++ rest) found q2) ∙ h in
      elim (or-cases (holds x first) (holds x rest) there) [
        | inl a ↦ (d, holds-first d ds, sound d first e1 x a)
        | inr b ↦
            let (e, known, before) = gather-Before above sound ds rest e2 x b in
            (e, ground arith, before)
      ]

  -- what it computes is before
  pub ancestors-Before :
      (fuel : ℕ) (local_id : String) (found : List String)
      → ancestors fuel children local_id ≡ ok found
      → (x : String) → holds x found ≡ true
      → Before children x local_id
  unfolding ancestors
  ancestors-Before zero local_id found q x h = cc
  ancestors-Before (suc fuel) local_id found q0 x h =
      let (child, e1, q1) = >>=-returns (by_id children local_id) _ q0 in
      let (more, e2, q2) = >>=-returns (gather (ancestors fuel children) child.depends_on) _ q1 in
      let there =
        sym (holds-append x child.depends_on more)
        ∙ ap (holds x) (is_ok (child.depends_on ++ more) found q2)
        ∙ h in
      elim (or-cases (holds x child.depends_on) (holds x more) there) [
        | inl a ↦ Before.direct e1 a
        | inr b ↦
            let (d, known, before) =
              gather-Before (ancestors fuel children) (ancestors-Before fuel) child.depends_on more
                e2 x b in
            Before.further e1 known before
      ]

  -- it computes whatever is before
  gather-holds :
      (above : String → Result (List String)) (ds found : List String) (d : String)
      → gather above ds ≡ ok found
      → holds d ds ≡ true
      → (first : List String) × (above d ≡ ok first)
        × ((x : String) → holds x first ≡ true → holds x found ≡ true)
  unfolding gather
  gather-holds above [] found d q h = cc
  gather-holds above (e ∷ ds) found d q0 h =
      let (first, e1, q1) = >>=-returns (above e) _ q0 in
      let (rest, e2, q2) = >>=-returns (gather above ds) _ q1 in
      let whole = is_ok (first ++ rest) found q2 in
      elim (or-cases (str_eq d e) (holds d ds) h) [
        | inl same ↦ (
          first,
          ap above ((eq_iff d e).0 same) ∙ e1,
          λ x a. ap (holds x) (sym whole) ∙ holds-append x first rest ∙ left (holds x rest) a,
        )
        | inr later ↦
            let (found_d, e3, grown) = gather-holds above ds rest d e2 later in
            (
              found_d,
              e3,
              λ x a.
                  ap (holds x) (sym whole)
                  ∙ holds-append x first rest
                  ∙ right (holds x first) (grown x a),
            )
      ]

  pub ancestors-holds :
      (fuel : ℕ) (x local_id : String) (found : List String)
      → Before children x local_id
      → ancestors fuel children local_id ≡ ok found
      → holds x found ≡ true
  unfolding ancestors
  ancestors-holds zero x local_id found before q = cc
  ancestors-holds (suc fuel) x local_id found (Before.direct {child = child} e known) q0 =
      let (child', e1, q1) = >>=-returns (by_id children local_id) _ q0 in
      let (more, e2, q2) = >>=-returns (gather (ancestors fuel children) child'.depends_on) _ q1 in
      let here = ap (λ c. holds x c.depends_on) (is_ok child' child (sym e1 ∙ e)) ∙ known in
      ap (holds x) (sym (is_ok (child'.depends_on ++ more) found q2))
      ∙ holds-append x child'.depends_on more
      ∙ left (holds x more) here
  ancestors-holds (suc fuel) x local_id found
        (Before.further {d = d} {child = child} e known before) q0 =
      let (child', e1, q1) = >>=-returns (by_id children local_id) _ q0 in
      let (more, e2, q2) = >>=-returns (gather (ancestors fuel children) child'.depends_on) _ q1 in
      let here = ap (λ c. holds d c.depends_on) (is_ok child' child (sym e1 ∙ e)) ∙ known in
      let (first, e3, grown) =
        gather-holds (ancestors fuel children) child'.depends_on more d e2 here in
      ap (holds x) (sym (is_ok (child'.depends_on ++ more) found q2))
      ∙ holds-append x child'.depends_on more
      ∙ right (holds x child'.depends_on) (grown x (ancestors-holds fuel x d first before e3))

  gather-Goes :
      (above : String → Result (List String)) (ds : List String)
      → All (λ d. Goes (above d)) ds
      → Goes (gather above ds)
  unfolding gather
  gather-Goes above [] goes q = ok-Goes [] q
  gather-Goes above (d ∷ ds) (here, goes) q =
      bind-Goes (above d) _ here
        (λ first _.
          bind-Goes (gather above ds) _ (gather-Goes above ds goes)
            (λ rest _ r. ok-Goes (first ++ rest) r))
        q

  -- in an order of the children, as much fuel as the order is long is enough
  pub ancestors-Goes :
      (order : List String) (fuel : ℕ) (local_id : String)
      → IsSorted children order
      → holds local_id order ≡ true
      → length order < fuel
      → Goes (ancestors fuel children local_id)
  unfolding ancestors
  ancestors-Goes [] fuel local_id sorted here enough q = cc
  ancestors-Goes (v ∷ rest) zero local_id sorted here enough q = omega (arith, enough)
  ancestors-Goes (v ∷ rest) (suc fuel) local_id ((own, e, known), sorted) here enough q =
      elim (or-cases (str_eq local_id v) (holds local_id rest) here) [
        | inl same ↦
            bind-Goes (by_id children local_id) _ (by_id-Goes children children local_id)
              (λ child e1.
                bind-Goes (gather (ancestors fuel children) child.depends_on) _
                  (gather-Goes (ancestors fuel children) child.depends_on (
                    All-map child.depends_on
                      (λ d k. ancestors-Goes rest fuel d sorted k (omega arith))
                      (subst (λ c. All (λ d. holds d rest ≡ true) c.depends_on)
                        (is_ok own child
                          (sym e ∙ ap (by_id children) (sym ((eq_iff local_id v).0 same)) ∙ e1))
                        known)))
                  (λ more _ r. ok-Goes (child.depends_on ++ more) r))
              q
        | inr later ↦ ancestors-Goes rest (suc fuel) local_id sorted later (omega arith) q
      ]
