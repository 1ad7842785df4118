-- ===== src/Records/Plan/Graph.antt =====
-- `validate_graph` of afk_records/plan.py, on the fields of the accepted children that it reads. Their
-- local ids are distinct. A recursion that Python would end by RecursionError is one whose fuel runs out.
pub mod Sorted
pub mod Enough
pub mod Ancestors
pub mod Layers
pub mod Closure
use afk_pipeline.Prelude.{
  ℕ, zero, suc, String, Bool, true, false, not, ◌&&◌, List, [], ◌∷◌, ◌++◌, map, if◌then◌else◌, any,
  all, length, str_eq,
}
use afk_pipeline.Py.Result.{
  Result, ok, err, Exc, key_error, value_error, runtime_error, ◌>>=◌, any_of,
}
use afk_pipeline.Py.Shape.{require}

pub record Node : Type 0 where
  pub local_id : String
  pub depends_on : List String
  pub phase : String

abbrev pub holds : String → List String → Bool
holds s = any (str_eq s)

abbrev pub ids : List Node → List String
ids = map (λ n. n.local_id)

-- by_id[local_id]
unfoldable pub by_id : List Node → String → Result Node
by_id [] local_id = err (key_error local_id)
by_id (n ∷ ns) local_id = if str_eq n.local_id local_id then ok n else by_id ns local_id

abbrev pub too_deep : Exc
too_deep = runtime_error "maximum recursion depth exceeded"

abbrev pub cycle : Exc
cycle = value_error "child dependency graph contains a cycle"

-- the loop over ids, with the set `visited` that each visit leaves
unfoldable pub each :
    (List String → String → Result (List String)) → List String → List String → Result (List String)
each visit_one visited [] = ok visited
each visit_one visited (local_id ∷ rest) = do
  seen ← visit_one visited local_id
  each visit_one seen rest

-- the visit of an id that is new
unfoldable pub enter :
    (List String → String → Result (List String))
    → List Node
    → List String
    → String
    → Result (List String)
enter visit_one children visited local_id = do
  child ← by_id children local_id
  seen ← each visit_one visited child.depends_on
  ok (local_id ∷ seen)

-- the set `visiting` has the ids on the way down
unfoldable pub visit :
    (fuel : ℕ) → List Node → (visiting visited : List String) → String → Result (List String)
visit zero children visiting visited local_id = err too_deep
visit (suc fuel) children visiting visited local_id =
    let inner = visit fuel children (local_id ∷ visiting) in
    if holds local_id visiting
    then err cycle
    else if holds local_id visited
    then ok visited
    else enter inner children visited local_id

-- the union of the sets
unfoldable pub gather : (String → Result (List String)) → List String → Result (List String)
gather above [] = ok []
gather above (d ∷ ds) = do first ← above d; rest ← gather above ds; ok (first ++ rest)

unfoldable pub ancestors : (fuel : ℕ) → List Node → String → Result (List String)
ancestors zero children local_id = err too_deep
ancestors (suc fuel) children local_id = do
  child ← by_id children local_id
  more ← gather (ancestors fuel children) child.depends_on
  ok (child.depends_on ++ more)

unfoldable pub knows : List Node → Node → Bool
knows children child =
    not (holds child.local_id child.depends_on)
    && all (λ d. holds d (ids children)) child.depends_on

abbrev pub is_implementation : Node → Bool
is_implementation child = str_eq child.phase "implementation"

abbrev pub is_closure : Node → Bool
is_closure child = str_eq child.phase "closure"

-- the ids of the implementation children
unfoldable pub implementations : List Node → List String
implementations [] = []
implementations (child ∷ rest) =
    let more = implementations rest in
    if is_implementation child then child.local_id ∷ more else more

abbrev pub is_closed : List Node → String → Result Bool
is_closed children local_id = do child ← by_id children local_id; ok (is_closure child)

unfoldable pub check_phase : (fuel : ℕ) → List Node → Node → Result (Unit {0})
check_phase fuel children child =
    if is_closure child
    then (do
      above ← ancestors fuel children child.local_id
      require (value_error "closure children must follow implementation")
          (any (λ a. holds a (implementations children)) above))
    else if is_implementation child
    then (do
      above ← ancestors fuel children child.local_id
      closed ← any_of (is_closed children) above
      require (value_error "implementation children must not follow closure") (not closed))
    else ok tt

unfoldable pub check_phases : (fuel : ℕ) → List Node → List Node → Result (Unit {0})
check_phases fuel children [] = ok tt
check_phases fuel children (child ∷ rest) = do
  _ ← check_phase fuel children child
  check_phases fuel children rest

abbrev pub is_empty : List String → Bool
is_empty [] = true
is_empty (i ∷ is) = false

-- A visit goes down at most as far as there are children, and so does `ancestors` in their order.
unfoldable pub validate_graph : List Node → Result (Unit {0})
validate_graph children = do
  _ ←
      require (value_error "child dependencies must reference other children")
        (all (knows children) children)
  visited ← each (visit (suc (length children)) children []) [] (ids children)
  if is_empty (implementations children)
      then ok tt
      else check_phases (suc (length visited)) children children
