-- ===== src/Records/Plan/Routing.antt =====
-- The routing decision of afk_records/plan.py: `validate_direct_routes`, `child_routes`,
-- `direct_pipeline_compatible`, `build_routing` and `validate_direct_routing`.
use afk_pipeline.Prelude.{
  String, Bool, true, false, not, ◌&&◌, Option, none, some, List, [], ◌∷◌, any, length, map, ◌==◌,
  if◌then◌else◌,
}
use afk_pipeline.Py.Value.{Value, Fields, field, end, str, list, dict, items, nil, is_text, py_eq}
use afk_pipeline.Py.Read.{index, has, in_set, iter}
use afk_pipeline.Py.Result.{Result, ok, err, key_error, value_error, ◌>>=◌}
use afk_pipeline.Py.Shape.{at, require, set_field}
use afk_pipeline.Records.Plan.Shapes.{dict_value, object_with_keys, enum}
use afk_pipeline.Records.Plan.Input.{may_ask_help}
use afk_pipeline.Records.Plan.Proposal.{
  part, known_project, check_route, validate_criteria, validate_ambiguities,
}
use afk_pipeline.Records.Plan.Build.{
  source_project, routing_status, list_of, proposal_of, build_plan,
}

abbrev pub direct_route_keys : List String
direct_route_keys = "criterion" ∷ "project" ∷ "owner" ∷ "phase" ∷ "executor" ∷ "evidence_route" ∷ []

-- {"kind": kind, "id": id}
abbrev pub target_of : (kind : String) (id : Value) → Value
target_of kind id = dict (field "kind" (str kind) (field "id" id end))

-- the routes' last field, where the source has it
abbrev pub with_reason : (source : Fields) → Fields → Fields
with_reason source fs =
    if has source "outside_help_reason"
    then set_field "outside_help_reason" (at source "outside_help_reason") fs
    else fs

-- the route of a criterion, with the fields of the direct route or the child that it comes from
unfoldable pub route_of : (criterion target : Value) (source : Fields) → Value
route_of criterion target source = dict (
    with_reason source (
      field "criterion" criterion (
        field "target" target (
          field "project" (at source "project") (
            field "owner" (at source "owner") (
              field "phase" (at source "phase") (
                field "executor" (at source "executor")
                  (field "evidence_route" (at source "evidence_route") end))))))))

unfoldable pub direct_route : (request value criterion : Value) → Result Value
direct_route request value criterion = do
  route ← dict_value value
  _ ← require (value_error "direct route has invalid fields") (may_ask_help direct_route_keys route)
  own ← index criterion "id"
  _ ←
      require (value_error "direct routes must follow criterion order")
        (py_eq (at route "criterion") own)
  project ← known_project request "direct route" route
  _ ← check_route "direct route" project route
  parent_id ← part request "parent" "id"
  ok (route_of (at route "criterion") (target_of "source" parent_id) route)

abbrev pub uncovered : Result (List Value)
uncovered = err (value_error "direct routes must cover every criterion exactly once")

unfoldable pub direct_routes :
    (request : Value) → (values criteria : List Value) → Result (List Value)
direct_routes request [] [] = ok []
direct_routes request (value ∷ values) (criterion ∷ criteria) = do
  own ← direct_route request value criterion
  more ← direct_routes request values criteria
  ok (own ∷ more)
direct_routes request _ _ = uncovered

unfoldable pub validate_direct_routes :
    (request value : Value) → (criteria : List Value) → Result (List Value)
validate_direct_routes request (list vs) criteria =
    if length (items vs) == length criteria
    then direct_routes request (items vs) criteria
    else uncovered
validate_direct_routes request value criteria = uncovered

-- a later child comes before one that lists the criterion
abbrev pub last_child : Fields → Bool → Option Fields → Option Fields
last_child child holds_it (some other) = some other
last_child child true none = some child
last_child child false none = none

-- by_criterion[criterion]: of children that list it, the last
unfoldable pub child_for : (criterion : Value) → List Value → Result (Option Fields)
child_for criterion [] = ok none
child_for criterion (value ∷ rest) = do
  child ← dict_value value
  listed ← iter (at child "criteria")
  later ← child_for criterion rest
  ok (last_child child (any (py_eq criterion) listed) later)

abbrev pub routed : Value → Option Fields → Result Value
routed own none = err (key_error "criterion")
routed own (some child) = ok (route_of own (target_of "child" (at child "local_id")) child)

unfoldable pub child_routes : (children criteria : List Value) → Result (List Value)
child_routes children [] = ok []
child_routes children (criterion ∷ criteria) = do
  own ← index criterion "id"
  found ← child_for own children
  route ← routed own found
  more ← child_routes children criteria
  ok (route ∷ more)

unfoldable pub is_direct : (project : String) → Value → Result Bool
is_direct project route = do
  fs ← dict_value route
  by_pipeline ← in_set (at fs "evidence_route") ("pipeline_run" ∷ "repository_check" ∷ [])
  ok (
      is_text (at fs "project") project
      && is_text (at fs "executor") "afk_run"
      && is_text (at fs "phase") "implementation"
      && by_pipeline)

unfoldable pub all_direct : (project : String) → List Value → Result Bool
all_direct project [] = ok true
all_direct project (route ∷ routes) =
    let rest = all_direct project routes in
    do own ← is_direct project route; if own then rest else ok false

unfoldable pub direct_pipeline_compatible : (request : Value) → List Value → Result Bool
direct_pipeline_compatible request routes = do
  project ← source_project request
  all_direct project routes

abbrev pub routing_keys : List String
routing_keys =
    "schema_version" ∷ "decision" ∷ "criteria" ∷ "direct_routes" ∷ "children" ∷ "ambiguities" ∷ []

abbrev pub is_empty_list : Value → Bool
is_empty_list (list nil) = true
is_empty_list v = false

-- what both decisions leave: the status, the criteria, the routes, the ambiguities, and the plan
pub record Routed : Type 0 where
  pub status : Value
  pub criteria : Value
  pub routes : List Value
  pub ambiguities : Value
  pub plan : Option Value

unfoldable pub route_directly : (request : Value) → (proposal : Fields) → Result Routed
route_directly request proposal = do
  _ ←
      require (value_error "direct routing must not contain children")
        (is_empty_list (at proposal "children"))
  criteria ← validate_criteria request (at proposal "criteria")
  ambiguities ← validate_ambiguities (at proposal "ambiguities")
  routes ← validate_direct_routes request (at proposal "direct_routes") criteria
  ok (record {
    status = str (routing_status ambiguities);
    criteria = list_of criteria;
    routes = routes;
    ambiguities = list_of (map str ambiguities);
    plan = none;
  })

module _ (digest : Value → String) where
  unfoldable pub decompose : (request : Value) → (proposal : Fields) → Result Routed
  decompose request proposal = do
    _ ←
        require (value_error "decompose routing must not contain direct routes")
          (is_empty_list (at proposal "direct_routes"))
    version ← index request "schema_version"
    plan ← build_plan digest request (
        proposal_of version (at proposal "criteria") (at proposal "children")
          (at proposal "ambiguities"))
    made ← dict_value plan
    in_plan ← iter (at made "children")
    criteria ← iter (at made "criteria")
    routes ← child_routes in_plan criteria
    direct ← direct_pipeline_compatible request routes
    _ ←
        require (value_error "decompose routing requires a cross-project or lifecycle boundary")
          (not direct)
    ok (record {
      status = at made "status";
      criteria = at made "criteria";
      routes = routes;
      ambiguities = at made "ambiguities";
      plan = some plan;
    })

  unfoldable pub routing_body :
      (version decision parent parent_id catalog : Value) → Routed → Fields
  routing_body version decision parent parent_id catalog r = field "schema_version" version (
      field "status" r.status (
        field "decision" decision (
          field "parent" (dict (field "id" parent_id (field "sha256" (str (digest parent)) end))) (
            field "catalog_sha256" (str (digest catalog)) (
              field "criteria" r.criteria
                (field "routes" (list_of r.routes) (field "ambiguities" r.ambiguities end)))))))

  -- a visible routing decision, and the plan of one that decomposes
  unfoldable pub build_routing : (request proposal : Value) → Result (Value × Option Value)
  build_routing request value = do
    proposal ← object_with_keys value routing_keys "routing proposal"
    version ← index request "schema_version"
    _ ←
        require (value_error "routing proposal schema_version must match its input")
          (py_eq (at proposal "schema_version") version)
    _ ← enum (at proposal "decision") ("direct" ∷ "decompose" ∷ []) "routing decision"
    r ←
        if is_text (at proposal "decision") "direct"
        then route_directly request proposal
        else decompose request proposal
    parent ← index request "parent"
    parent_id ← index parent "id"
    catalog ← index request "catalog"
    let body = routing_body version (at proposal "decision") parent parent_id catalog r
    ok (dict (set_field "routing_sha256" (str (digest (dict body))) body), r.plan)
