-- ===== src/Records/Plan/Coverage.antt =====
-- The routes of a routing decision that `build_routing` of afk_records/plan.py returns, against its
-- criteria.
use afk_pipeline.Prelude.{
  String, Bool, true, false, not, Option, none, some, List, [], ◌∷◌, ◌≡◌, refl, sym, ap, ◌∙◌, subst,
  if◌then◌else◌,
}
use afk_pipeline.Py.Value.{Value, Fields, str, dict, is_text, py_eq}
use afk_pipeline.Py.Read.{index, iter}
use afk_pipeline.Py.Result.{Result, ok, >>=-returns}
use afk_pipeline.Py.Shape.{at, has_keys, set_field}
use afk_pipeline.Py.Facts.{is_ok, require-then}
use afk_pipeline.Records.Plan.Shapes.{dict_value, object_with_keys, demand, enum}
use afk_pipeline.Records.Plan.Proposal.{validate_criteria, validate_ambiguities}
use afk_pipeline.Records.Plan.Lists.{items-of_items}
use afk_pipeline.Records.Plan.Build.{list_of, proposal_of, build_plan}
use afk_pipeline.Records.Plan.Routing.{
  validate_direct_routes, child_routes, direct_pipeline_compatible, is_empty_list, Routed,
  routing_keys, route_directly, decompose, routing_body, build_routing,
}
use afk_pipeline.Records.Plan.Routes.{
  Pairwise, AreDirectRoutes, IsChildRoute, dict_value-dict, validate_direct_routes-AreDirectRoutes,
  child_routes-Pairwise,
}

module _ (digest : Value → String) where
  -- the routes of the criteria: of the direct routes of the proposal, or of the children of the plan that
  -- its children make, and then they are not all direct work of the source's own project
  abbrev pub IsRouted :
      (request : Value) (proposal : Fields) → (criteria routes : List Value) → Option Value → Type 0
  IsRouted request proposal criteria routes none =
      (values : List Value) × (at proposal "direct_routes" ≡ list_of values)
      × AreDirectRoutes request values criteria routes
  IsRouted request proposal criteria routes (some plan) =
      (made : Fields) × (children : List Value) × (version : Value) × (plan ≡ dict made)
      × (index request "schema_version" ≡ ok version)
      × (build_plan digest request (
            proposal_of version (at proposal "criteria") (at proposal "children")
              (at proposal "ambiguities"))
          ≡ ok plan)
      × (iter (at made "children") ≡ ok children)
      × (direct_pipeline_compatible request routes ≡ ok false)
      × Pairwise (IsChildRoute children) criteria routes

  abbrev HasRoutes : (request : Value) (proposal : Fields) → Routed → Type 0
  HasRoutes request proposal r =
      (criteria : List Value) × (iter r.criteria ≡ ok criteria)
      × IsRouted request proposal criteria r.routes r.plan

  route_directly-HasRoutes :
      (request : Value) (proposal : Fields) (r : Routed)
      → route_directly request proposal ≡ ok r
      → HasRoutes request proposal r
  unfolding route_directly
  route_directly-HasRoutes request proposal r q0 =
      let (empty, q1) = require-then _ (is_empty_list (at proposal "children")) _ q0 in
      let (criteria, e2, q2) =
        >>=-returns (validate_criteria request (at proposal "criteria")) _ q1 in
      let (ambiguities, e3, q3) =
        >>=-returns (validate_ambiguities (at proposal "ambiguities")) _ q2 in
      let (routes, e4, q4) =
        >>=-returns (validate_direct_routes request (at proposal "direct_routes") criteria) _ q3 in
      subst (HasRoutes request proposal) (is_ok _ r q4) (
        criteria,
        ap ok (items-of_items criteria),
        validate_direct_routes-AreDirectRoutes request (at proposal "direct_routes") criteria routes
            e4,
      )

  not_direct : (b : Bool) → not b ≡ true → b ≡ false
  not_direct false h = refl
  not_direct true h = cc

  decompose-HasRoutes :
      (request : Value) (proposal : Fields) (r : Routed)
      → decompose digest request proposal ≡ ok r
      → HasRoutes request proposal r
  unfolding decompose
  decompose-HasRoutes request proposal r q0 =
      let (empty, q1) = require-then _ (is_empty_list (at proposal "direct_routes")) _ q0 in
      let (version, e2, q2) = >>=-returns (index request "schema_version") _ q1 in
      let (plan, e3, q3) = >>=-returns (build_plan digest request _) _ q2 in
      let (made, e4, q4) = >>=-returns (dict_value plan) _ q3 in
      let (children, e5, q5) = >>=-returns (iter (at made "children")) _ q4 in
      let (criteria, e6, q6) = >>=-returns (iter (at made "criteria")) _ q5 in
      let (routes, e7, q7) = >>=-returns (child_routes children criteria) _ q6 in
      let (direct, e8, q8) = >>=-returns (direct_pipeline_compatible request routes) _ q7 in
      let (test, q9) = require-then _ (not direct) _ q8 in
      subst (HasRoutes request proposal) (is_ok _ r q9) (
        criteria,
        e6,
        (
          made,
          children,
          version,
          dict_value-dict plan made e4,
          e2,
          e3,
          e5,
          e8 ∙ ap ok (not_direct direct test),
          child_routes-Pairwise children criteria routes e7,
        ),
      )

  either-HasRoutes :
      (request : Value) (proposal : Fields) (b : Bool) (r : Routed)
      → (if b then route_directly request proposal else decompose digest request proposal) ≡ ok r
      → HasRoutes request proposal r
  either-HasRoutes request proposal true r q = route_directly-HasRoutes request proposal r q
  either-HasRoutes request proposal false r q = decompose-HasRoutes request proposal r q

  -- the criteria and the routes that a routing decision shows
  abbrev pub Shows : (routing : Value) → (criteria routes : List Value) → Type 0
  Shows routing criteria routes =
      (fs : Fields) × (routing ≡ dict fs)
      × (iter (at fs "criteria") ≡ ok criteria)
      × (at fs "routes" ≡ list_of routes)

  -- a decision whose routes are right for the criteria that it shows
  abbrev pub IsDecided : (request value routing : Value) → Option Value → Type 0
  IsDecided request value routing plan =
      (proposal : Fields) × (criteria : List Value) × (routes : List Value) × (value
        ≡ dict proposal)
      × Shows routing criteria routes
      × IsRouted request proposal criteria routes plan

  -- A routing decision that `build_routing` returns shows one route for each criterion, in the order of
  -- the criteria. Without a plan, they are the proposal's direct routes in their order, with the
  -- source as their target: each names its criterion, its project is in the catalog, and a catalog route
  -- allows it. With a plan, `build_plan` returned it for the proposal's criteria, children and
  -- ambiguities, each route has the fields and the id of a child of the plan that
  -- lists the criterion, and not every route is direct work of the source's own project.
  pub build_routing-IsRouted :
      (request value routing : Value) (plan : Option Value)
      → build_routing digest request value ≡ ok (routing, plan)
      → IsDecided request value routing plan
  unfolding build_routing routing_body object_with_keys
  build_routing-IsRouted request value routing plan q0 =
      let (proposal, e1, q1) =
        >>=-returns (object_with_keys value routing_keys "routing proposal") _ q0 in
      let (version, e2, q2) = >>=-returns (index request "schema_version") _ q1 in
      let (same, q3) = require-then _ (py_eq (at proposal "schema_version") version) _ q2 in
      let (u, e4, q4) =
        >>=-returns (enum (at proposal "decision") ("direct" ∷ "decompose" ∷ []) "routing decision")
          _ q3 in
      let (r, e5, q5) =
        >>=-returns
          (if is_text (at proposal "decision") "direct"
            then route_directly request proposal
            else decompose digest request proposal)
          _ q4 in
      let (parent, e6, q6) = >>=-returns (index request "parent") _ q5 in
      let (parent_id, e7, q7) = >>=-returns (index parent "id") _ q6 in
      let (catalog, e8, q8) = >>=-returns (index request "catalog") _ q7 in
      let (criteria, c, routed_all) =
        either-HasRoutes request proposal (is_text (at proposal "decision") "direct") r e5 in
      let body = routing_body digest version (at proposal "decision") parent parent_id catalog r in
      let made = same_pair _ routing r.plan plan q8 in
      (
        proposal,
        criteria,
        r.routes,
        dict_value-dict value proposal (object-value value e1),
        (set_field "routing_sha256" (str (digest (dict body))) body, sym made.0, c, refl),
        subst (IsRouted request proposal criteria r.routes) made.1 routed_all,
      )
    where
      object-value :
          (v : Value) {fs : Fields}
          → object_with_keys v routing_keys "routing proposal" ≡ ok fs
          → dict_value v ≡ ok fs
      object-value v q0 =
          let (fs, e, q1) = >>=-returns (dict_value v) _ q0 in
          let (u, e2, q2) =
            >>=-returns
              (demand "routing proposal" " must contain exactly" (has_keys routing_keys fs)) _ q1 in
          e ∙ q2

      same_pair :
          (v w : Value) (a b : Option Value)
          → ◌≡◌ {A = Result (Value × Option Value)} (ok (v, a)) (ok (w, b))
          → (v ≡ w) × (a ≡ b)
      same_pair v w a b e = let p = is_ok (v, a) (w, b) e in (ap (λ x. x.0) p, ap (λ x. x.1) p)
