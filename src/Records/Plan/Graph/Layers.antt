-- ===== src/Records/Plan/Graph/Layers.antt =====
-- What `validate_graph` of afk_records/plan.py promises of the children that it accepts, and that it ends.
use afk_pipeline.Prelude.{
  ℕ, suc, String, Bool, true, false, not, List, [], ◌∷◌, ◌≡◌, ◌≢◌, if◌then◌else◌, any, all, All,
  length, arith, &&-true,
}
use afk_pipeline.Py.Result.{Result, ok, err, value_error, any_of}
use afk_pipeline.Py.Shape.{require}
use afk_pipeline.Py.Facts.{require-true}
use afk_pipeline.Records.Plan.Graph.{
  Node, holds, ids, by_id, each, visit, knows, too_deep, ancestors, is_implementation, is_closure,
  implementations, is_closed, check_phase, check_phases, validate_graph, is_empty,
}
use afk_pipeline.Records.Plan.Graph.Sorted.{
  IsSorted, holds-first, IsIn-more, each-Leaves, visit-Leaves,
}
use afk_pipeline.Records.Plan.Graph.Enough.{
  Goes, bind-Goes, ok-Goes, each-Goes, visit-Goes, by_id-Goes, AllKnown, Known, free-length,
}
use afk_pipeline.Records.Plan.Graph.Ancestors.{ancestors-Goes, All-map}

require-Goes : (m : String) (b : Bool) → Goes (require (value_error m) b)
require-Goes m true q = cc
require-Goes m false q = cc

if-Goes : {A : Type 0} (b : Bool) (r t : Result A) → Goes r → Goes t → Goes (if b then r else t)
if-Goes true r t h k = h
if-Goes false r t h k = k

knows-Known :
    (children some_children : List Node)
    → all (knows children) some_children ≡ true
    → AllKnown children some_children
unfolding knows
knows-Known children [] h = tt
knows-Known children (child ∷ rest) h =
    let (own, others) = &&-true (knows children child) _ h in
    let (apart, known) = &&-true (not (holds child.local_id child.depends_on)) _ own in
    (all-All child.depends_on known, knows-Known children rest others)
  where
    all-All :
        (ds : List String) → all (λ d. holds d (ids children)) ds ≡ true → All (Known children) ds
    all-All [] h = tt
    all-All (d ∷ ds) h = let (a, b) = &&-true (holds d (ids children)) _ h in (a, all-All ds b)

self-Known : (is : List String) → All (λ d. holds d is ≡ true) is
self-Known [] = tt
self-Known (i ∷ is) = (holds-first i is, All-map is (λ d h. IsIn-more i is d h) (self-Known is))

module _ (children : List Node) where
  closed-Goes : (above : List String) → Goes (any_of (is_closed children) above)
  unfolding any_of
  closed-Goes [] q = ok-Goes false q
  closed-Goes (a ∷ above) q =
      bind-Goes (is_closed children a) _
        (bind-Goes (by_id children a) _ (by_id-Goes children children a)
          (λ child _ r. ok-Goes (is_closure child) r))
        (λ found _. if-Goes found (ok true) _ (ok-Goes true) (closed-Goes above)) q

  -- the recursions of the checks of the phases end, in an order of the children
  phase-Goes :
      (fuel : ℕ) (child : Node)
      → Goes (ancestors fuel children child.local_id)
      → Goes (check_phase fuel children child)
  unfolding check_phase
  phase-Goes fuel child goes =
      if-Goes (is_closure child) _ _
        (bind-Goes (ancestors fuel children child.local_id) _ goes (λ above _.
          require-Goes "closure children must follow implementation"
            (any (λ a. holds a (implementations children)) above)))
        (if-Goes (is_implementation child) _ (ok tt)
          (bind-Goes (ancestors fuel children child.local_id) _ goes (λ above _.
            bind-Goes (any_of (is_closed children) above) _ (closed-Goes above) (λ closed _.
              require-Goes "implementation children must not follow closure" (not closed))))
          (ok-Goes tt))

  phases-Goes :
      (fuel : ℕ) (some_children : List Node)
      → All (λ d. Goes (ancestors fuel children d)) (ids some_children)
      → Goes (check_phases fuel children some_children)
  unfolding check_phases
  phases-Goes fuel [] goes = ok-Goes tt
  phases-Goes fuel (child ∷ rest) (here, goes) =
      bind-Goes (check_phase fuel children child) _ (phase-Goes fuel child here)
        (λ _ _. phases-Goes fuel rest goes)

  -- the order in which the visits leave the children
  pub visits-Leave :
      (visited : List String)
      → each (visit (suc (length children)) children []) [] (ids children) ≡ ok visited
      → IsSorted children visited × All (λ d. holds d visited ≡ true) (ids children)
  visits-Leave visited q =
      let (sorted, all_in, grown) =
        each-Leaves children (visit (suc (length children)) children [])
          (visit-Leaves children (suc (length children)) []) [] (ids children) visited tt q in
      (sorted, all_in)

-- Whatever the children depend on, `validate_graph` does not run out of its fuel: it returns, or raises
-- an error of its own.
pub validate_graph-Goes : (children : List Node) → validate_graph children ≢ err too_deep
unfolding validate_graph
validate_graph-Goes children =
    bind-Goes
      (require (value_error "child dependencies must reference other children")
        (all (knows children) children))
      _
      (require-Goes "child dependencies must reference other children"
        (all (knows children) children))
      (λ u known.
        bind-Goes (each (visit (suc (length children)) children []) [] (ids children)) _
          (visits known)
          (λ visited e.
            let (sorted, all_in) = visits-Leave children visited e in
            if-Goes (is_empty (implementations children)) (ok tt) _ (ok-Goes tt) (
              phases-Goes children (suc (length visited)) children (
                All-map (ids children)
                  (λ d here.
                    ancestors-Goes children visited (suc (length visited)) d sorted here
                      (omega arith))
                  all_in))))
  where
    visits :
        {u : Unit {0}}
        → require
            (value_error "child dependencies must reference other children")
            (all (knows children) children)
          ≡ ok u
        → Goes (each (visit (suc (length children)) children []) [] (ids children))
    visits known =
        let each_known = knows-Known children children (require-true _ _ known) in
        let free_length = free-length children in
        each-Goes children (visit (suc (length children)) children [])
          (λ visited d here.
            visit-Goes children (suc (length children)) [] visited d each_known here (omega arith))
          [] (ids children) (self-Known (ids children))
