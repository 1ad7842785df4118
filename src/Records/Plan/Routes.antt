-- ===== src/Records/Plan/Routes.antt =====
-- The routes that `validate_direct_routes` and `child_routes` of afk_records/plan.py return, one for each
-- criterion.
use afk_pipeline.Prelude.{
  String, Bool, true, false, Option, Option-cases, none, some, List, [], ◌∷◌, ◌≡◌, refl, sym, ap,
  ◌∙◌, subst, any, length, ◌==◌, ◌⊎◌, arith, Bool-cases, inl, inr,
}
use afk_pipeline.Py.Value.{
  Value, Fields, field, end, lookup, null, bool, int, str, list, dict, items, py_eq,
}
use afk_pipeline.Py.Read.{index, iter, has}
use afk_pipeline.Py.Result.{Result, ok, >>=-returns}
use afk_pipeline.Py.Shape.{at}
use afk_pipeline.Py.Facts.{is_ok, require-then, taken, not_taken}
use afk_pipeline.Records.Plan.Shapes.{dict_value}
use afk_pipeline.Records.Plan.Input.{may_ask_help}
use afk_pipeline.Records.Plan.Proposal.{part, known_project, check_route}
use afk_pipeline.Records.Plan.Lists.{of_items-items}
use afk_pipeline.Records.Plan.Build.{list_of}
use afk_pipeline.Records.Plan.Routing.{
  direct_route_keys, target_of, route_of, direct_route, direct_routes, validate_direct_routes,
  last_child, child_for, routed, child_routes,
}

-- the two lists are of one length, and the relation holds at each place
abbrev pub Pairwise : (Value → Value → Type 0) → (xs ys : List Value) → Type 0
Pairwise R [] [] = Unit {0}
Pairwise R (x ∷ xs) (y ∷ ys) = R x y × Pairwise R xs ys
Pairwise R xs ys = ⊥

abbrev pub IsIn : Value → List Value → Type 0
IsIn v [] = ⊥
IsIn v (w ∷ ws) = (v ≡ w) ⊎ IsIn v ws

-- The route of a criterion to a target, with the fields of the direct route or the child that it comes from.
pub record Carries (criterion : Value) (kind : String) (id : Value) (source : Fields)
    (route : Value) : Type 0 where
  pub fields : Fields
  pub is_route : route ≡ dict fields
  pub own_criterion : at fields "criterion" ≡ criterion
  pub own_target : at fields "target" ≡ dict (field "kind" (str kind) (field "id" id end))
  pub same_project : at fields "project" ≡ at source "project"
  pub same_owner : at fields "owner" ≡ at source "owner"
  pub same_phase : at fields "phase" ≡ at source "phase"
  pub same_executor : at fields "executor" ≡ at source "executor"
  pub same_evidence : at fields "evidence_route" ≡ at source "evidence_route"
  pub same_reason : at fields "outside_help_reason" ≡ at source "outside_help_reason"

-- the route of the source itself, from a direct route of the proposal: its project is in the catalog, and a
-- catalog route allows it
abbrev pub IsDirectRoute : (request : Value) → (value criterion route : Value) → Type 0
IsDirectRoute request value criterion route =
    (source : Fields) × (own : Value) × (project : Value) × (parent_id : Value) × (value
      ≡ dict source)
    × (may_ask_help direct_route_keys source ≡ true)
    × (index criterion "id" ≡ ok own)
    × (py_eq (at source "criterion") own ≡ true)
    × (known_project request "direct route" source ≡ ok project)
    × (check_route "direct route" project source ≡ ok tt)
    × (part request "parent" "id" ≡ ok parent_id)
    × Carries (at source "criterion") "source" parent_id source route

-- the three lists are of one length, and each route is the one of its value, for its criterion
abbrev pub AreDirectRoutes : (request : Value) → (values criteria routes : List Value) → Type 0
AreDirectRoutes request [] [] [] = Unit {0}
AreDirectRoutes request (value ∷ values) (criterion ∷ criteria) (route ∷ routes) =
    IsDirectRoute request value criterion route × AreDirectRoutes request values criteria routes
AreDirectRoutes request values criteria routes = ⊥

-- the route of one of the children, which lists the criterion
abbrev pub IsChildRoute : (children : List Value) → (criterion route : Value) → Type 0
IsChildRoute children criterion route =
    (child : Fields) × (own : Value) × (listed : List Value) × IsIn (dict child) children
    × (index criterion "id" ≡ ok own)
    × (iter (at child "criteria") ≡ ok listed)
    × (any (py_eq own) listed ≡ true)
    × Carries own "child" (at child "local_id") child route

at-absent : (fs : Fields) (k : String) → has fs k ≡ false → at fs k ≡ null
at-absent fs k h = elim (Option-cases (lookup k fs)) [
  | inl e ↦ cc
  | inr (v, e) ↦ absurd (apart (sym (ap is_there e) ∙ h))
]
  where
    is_there : Option Value → Bool
    is_there none = false
    is_there (some v) = true

    apart : true ≡ false → ⊥
    apart q = cc

route_of-Carries :
    (criterion : Value) (kind : String) (id : Value) (source : Fields)
    → Carries criterion kind id source (route_of criterion (target_of kind id) source)
unfolding route_of
route_of-Carries criterion kind id source = elim (Bool-cases (has source "outside_help_reason")) [
  | inl given ↦ rw given (record {
    fields = _;
    is_route = refl;
    own_criterion = refl;
    own_target = refl;
    same_project = refl;
    same_owner = refl;
    same_phase = refl;
    same_executor = refl;
    same_evidence = refl;
    same_reason = refl;
  })
  | inr absent ↦ rw absent (record {
    fields = _;
    is_route = refl;
    own_criterion = refl;
    own_target = refl;
    same_project = refl;
    same_owner = refl;
    same_phase = refl;
    same_executor = refl;
    same_evidence = refl;
    same_reason = sym (at-absent source "outside_help_reason" absent);
  })
]

pub dict_value-dict : (v : Value) (fs : Fields) → dict_value v ≡ ok fs → v ≡ dict fs
unfolding dict_value
dict_value-dict (dict gs) fs q = ap dict (is_ok gs fs q)
dict_value-dict null fs q = cc
dict_value-dict (bool b) fs q = cc
dict_value-dict (int z) fs q = cc
dict_value-dict (str s) fs q = cc
dict_value-dict (list vs) fs q = cc

direct_route-IsDirectRoute :
    (request value criterion route : Value)
    → direct_route request value criterion ≡ ok route
    → IsDirectRoute request value criterion route
unfolding direct_route
direct_route-IsDirectRoute request value criterion route q0 =
    let (source, e1, q1) = >>=-returns (dict_value value) _ q0 in
    let (fields, q2) = require-then _ (may_ask_help direct_route_keys source) _ q1 in
    let (own, e3, q3) = >>=-returns (index criterion "id") _ q2 in
    let (same, q4) = require-then _ (py_eq (at source "criterion") own) _ q3 in
    let (project, e5, q5) = >>=-returns (known_project request "direct route" source) _ q4 in
    let (u, e6, q6) = >>=-returns (check_route "direct route" project source) _ q5 in
    let (parent_id, e7, q7) = >>=-returns (part request "parent" "id") _ q6 in
    (
      source,
      own,
      project,
      parent_id,
      dict_value-dict value source e1,
      fields,
      e3,
      same,
      e5,
      e6,
      e7,
      subst (Carries (at source "criterion") "source" parent_id source) (is_ok _ route q7)
          (route_of-Carries (at source "criterion") "source" parent_id source),
    )

direct_routes-AreDirectRoutes :
    (request : Value) (values criteria routes : List Value)
    → direct_routes request values criteria ≡ ok routes
    → AreDirectRoutes request values criteria routes
unfolding direct_routes
direct_routes-AreDirectRoutes request [] [] routes q =
    subst (AreDirectRoutes request [] []) (is_ok [] routes q) tt
direct_routes-AreDirectRoutes request (value ∷ values) (criterion ∷ criteria) routes q0 =
    let (own, e1, q1) = >>=-returns (direct_route request value criterion) _ q0 in
    let (more, e2, q2) = >>=-returns (direct_routes request values criteria) _ q1 in
    subst (AreDirectRoutes request (value ∷ values) (criterion ∷ criteria))
      (is_ok (own ∷ more) routes q2)
      (
        direct_route-IsDirectRoute request value criterion own e1,
        direct_routes-AreDirectRoutes request values criteria more e2,
      )
direct_routes-AreDirectRoutes request [] (criterion ∷ criteria) routes q = cc
direct_routes-AreDirectRoutes request (value ∷ values) [] routes q = cc

pub validate_direct_routes-AreDirectRoutes :
    (request value : Value) (criteria routes : List Value)
    → validate_direct_routes request value criteria ≡ ok routes
    → (values : List Value) × (value ≡ list_of values)
      × AreDirectRoutes request values criteria routes
unfolding validate_direct_routes
validate_direct_routes-AreDirectRoutes request (list vs) criteria routes q =
    elim (Bool-cases (length (items vs) == length criteria)) [
      | inl same ↦ (
        items vs,
        sym (ap list (of_items-items vs)),
        direct_routes-AreDirectRoutes request (items vs) criteria routes (taken _ _ _ same q),
      )
      | inr e ↦ absurd (uncovered (not_taken _ (direct_routes request (items vs) criteria) _ e q))
    ]
  where
    uncovered :
        ◌≡◌ {A = Result (List Value)} (validate_direct_routes request null []) (ok routes) → ⊥
    uncovered e = cc
validate_direct_routes-AreDirectRoutes request null criteria routes q = cc
validate_direct_routes-AreDirectRoutes request (bool b) criteria routes q = cc
validate_direct_routes-AreDirectRoutes request (int z) criteria routes q = cc
validate_direct_routes-AreDirectRoutes request (str s) criteria routes q = cc
validate_direct_routes-AreDirectRoutes request (dict fs) criteria routes q = cc

-- a child that lists the criterion
abbrev pub Lists : (criterion : Value) → (children : List Value) → Fields → Type 0
Lists criterion children child =
    (listed : List Value) × IsIn (dict child) children
    × (iter (at child "criteria") ≡ ok listed)
    × (any (py_eq criterion) listed ≡ true)

last_child-Lists :
    (criterion value : Value) (rest listed : List Value) (child found : Fields) (b : Bool)
    (later : Option Fields)
    → value ≡ dict child
    → iter (at child "criteria") ≡ ok listed
    → any (py_eq criterion) listed ≡ b
    → ((other : Fields) → later ≡ some other → Lists criterion rest other)
    → last_child child b later ≡ some found
    → Lists criterion (value ∷ rest) found
last_child-Lists criterion value rest listed child found b (some other) v l h each q =
    let (its, is_in, e, own) = each found q in (its, inr is_in, e, own)
last_child-Lists criterion value rest listed child found true none v l h each q =
    subst (Lists criterion (value ∷ rest)) (same q) (listed, inl (sym v), l, h)
  where
    same : ◌≡◌ {A = Option Fields} (some child) (some found) → child ≡ found
    same e = ground arith
last_child-Lists criterion value rest listed child found false none v l h each q = cc

child_for-Lists :
    (criterion : Value) (children : List Value) (o : Option Fields)
    → child_for criterion children ≡ ok o
    → (found : Fields) → o ≡ some found
    → Lists criterion children found
unfolding child_for
child_for-Lists criterion [] o q found e = absurd (nothing (is_ok none o q ∙ e))
  where
    nothing : ◌≡◌ {A = Option Fields} none (some found) → ⊥
    nothing p = cc
child_for-Lists criterion (value ∷ rest) o q0 found e =
    let (child, e1, q1) = >>=-returns (dict_value value) _ q0 in
    let (listed, e2, q2) = >>=-returns (iter (at child "criteria")) _ q1 in
    let (later, e3, q3) = >>=-returns (child_for criterion rest) _ q2 in
    last_child-Lists criterion value rest listed child found (any (py_eq criterion) listed) later
      (dict_value-dict value child e1) e2 refl (child_for-Lists criterion rest later e3)
      (is_ok _ o q3 ∙ e)

routed-IsChildRoute :
    (children : List Value) (criterion own route : Value) (o : Option Fields)
    → index criterion "id" ≡ ok own
    → ((found : Fields) → o ≡ some found → Lists own children found)
    → routed own o ≡ ok route
    → IsChildRoute children criterion route
routed-IsChildRoute children criterion own route none i each q = cc
routed-IsChildRoute children criterion own route (some child) i each q =
    let (listed, is_in, l, h) = each child refl in
    (
      child,
      own,
      listed,
      is_in,
      i,
      l,
      h,
      subst (Carries own "child" (at child "local_id") child) (is_ok _ route q)
          (route_of-Carries own "child" (at child "local_id") child),
    )

pub child_routes-Pairwise :
    (children criteria routes : List Value)
    → child_routes children criteria ≡ ok routes
    → Pairwise (IsChildRoute children) criteria routes
unfolding child_routes
child_routes-Pairwise children [] routes q =
    subst (Pairwise (IsChildRoute children) []) (is_ok [] routes q) tt
child_routes-Pairwise children (criterion ∷ criteria) routes q0 =
    let (own, e1, q1) = >>=-returns (index criterion "id") _ q0 in
    let (found, e2, q2) = >>=-returns (child_for own children) _ q1 in
    let (route, e3, q3) = >>=-returns (routed own found) _ q2 in
    let (more, e4, q4) = >>=-returns (child_routes children criteria) _ q3 in
    subst (Pairwise (IsChildRoute children) (criterion ∷ criteria)) (is_ok (route ∷ more) routes q4)
      (
        routed-IsChildRoute children criterion own route found e1
            (child_for-Lists own children found e2) e3,
        child_routes-Pairwise children criteria more e4,
      )
