-- ===== src/Records/Tests/Routed.antt =====
-- A routing decision with a plan of one child, which the caller's agent works at.
use afk_pipeline.Prelude.{pos, String, some, List, [], ◌∷◌, ◌≡◌, refl}
use afk_pipeline.Py.Value.{Value, null, int, str, py_eq}
use afk_pipeline.Py.Build.{object, array}
use afk_pipeline.Py.Codes.{is_nonblank}
use afk_pipeline.Py.Result.{ok, any_of}
use afk_pipeline.Py.Text.{decimal}
use afk_pipeline.Records.Plan.Shapes.{
  dict_value, object_with_keys, bounded_text, string_list, enum, is_domain_codes, is_domain_id,
  without_prefix, project_labels, validate_executor,
}
use afk_pipeline.Records.Plan.Quotes.{spaced, normalize, normalize_all, contains, names_slug}
use afk_pipeline.Records.Plan.Graph.{
  by_id, each, enter, visit, gather, ancestors, knows, implementations, check_phase, check_phases,
  validate_graph,
}
use afk_pipeline.Records.Plan.Proposal.{
  part, check_criteria, validate_criteria, validate_ambiguities, project_of, allows_route,
  catalog_allows, known_project, check_route, child_fields, validate_child, check_children,
  same_texts, criterion_ids, validate_children,
}
use afk_pipeline.Records.Plan.Build.{
  source_project, check_justification, validate_project_justification, justify, validate_proposal,
  readiness_for_execution, with_readiness, each_ready, proposal_of, plan_body, build_plan,
}
use afk_pipeline.Records.Plan.Routing.{
  route_of, child_for, child_routes, is_direct, all_direct, direct_pipeline_compatible, decompose,
  routing_body, build_routing,
}
use afk_pipeline.Records.Plan.Coverage.{IsDecided, build_routing-IsRouted}

program : Unit {0}
unfolding is_nonblank any_of decimal dict_value object_with_keys bounded_text string_list enum
    is_domain_codes is_domain_id without_prefix project_labels validate_executor spaced normalize
    normalize_all contains names_slug by_id each enter visit gather ancestors knows implementations
    check_phase check_phases validate_graph part check_criteria validate_criteria
    validate_ambiguities project_of allows_route catalog_allows known_project check_route
    child_fields validate_child check_children same_texts criterion_ids validate_children
    source_project check_justification validate_project_justification justify validate_proposal
    readiness_for_execution with_readiness each_ready proposal_of plan_body build_plan py_eq
    route_of child_for child_routes is_direct all_direct direct_pipeline_compatible decompose
    routing_body build_routing
program = tt

abbrev parent : Value
parent = object (
    ("id", str "bead-1")
    ∷ ("title", str "Title")
    ∷ ("description", str "")
    ∷ ("acceptance_criteria", str "It works. It is fast.")
    ∷ ("labels", array (str "project:core" ∷ []))
    ∷ [])

abbrev catalog : Value
catalog = object (
    ("schema_version", int (pos 2))
    ∷ (
      "projects",
      array (
          object (
            ("slug", str "core")
            ∷ (
              "routes",
              array (
                  object (
                    ("owner", str "team")
                    ∷ ("executor", str "caller_agent")
                    ∷ ("evidence_route", str "pipeline_run")
                    ∷ ("phases", array (str "implementation" ∷ []))
                    ∷ [])
                  ∷ []),
            )
            ∷ [])
          ∷ []),
    )
    ∷ [])

abbrev request : Value
request = object (
    ("schema_version", int (pos 2))
    ∷ ("parent", parent)
    ∷ ("catalog", catalog)
    ∷ ("timeout_seconds", int (pos 60))
    ∷ [])

abbrev criterion : String → String → Value
criterion id source =
    object (("id", str id) ∷ ("source_text", str source) ∷ ("statement", str "Statement") ∷ [])

abbrev criteria : Value
criteria = array (criterion "criterion-1" "It works." ∷ criterion "criterion-2" "It  is fast." ∷ [])

abbrev child : List (String × Value) → Value
child more = object (
    ("local_id", str "build")
    ∷ ("title", str "Build")
    ∷ ("objective", str "Build it")
    ∷ ("criteria", array (str "criterion-2" ∷ str "criterion-1" ∷ []))
    ∷ ("project", str "core")
    ∷ ("owner", str "team")
    ∷ ("phase", str "implementation")
    ∷ ("executor", str "caller_agent")
    ∷ ("evidence_route", str "pipeline_run")
    ∷ ("depends_on", array [])
    ∷ more)

abbrev proposal : Value
proposal = object (
    ("schema_version", int (pos 2))
    ∷ ("criteria", criteria)
    ∷ ("decision", str "decompose")
    ∷ ("direct_routes", array [])
    ∷ ("children", array (child [] ∷ []))
    ∷ ("ambiguities", array [])
    ∷ [])

abbrev digest : Value → String
digest v = "d"

abbrev plan : Value
plan = object (
    ("schema_version", int (pos 2))
    ∷ ("status", str "proposed")
    ∷ ("parent", object (("id", str "bead-1") ∷ ("sha256", str "d") ∷ []))
    ∷ ("catalog_sha256", str "d")
    ∷ ("criteria", criteria)
    ∷ ("children", array (child (("readiness", str "ready-for-agent") ∷ []) ∷ []))
    ∷ ("ambiguities", array [])
    ∷ ("authorization", null)
    ∷ ("plan_sha256", str "d")
    ∷ [])

abbrev route : String → Value
route criterion_id = object (
    ("criterion", str criterion_id)
    ∷ ("target", object (("kind", str "child") ∷ ("id", str "build") ∷ []))
    ∷ ("project", str "core")
    ∷ ("owner", str "team")
    ∷ ("phase", str "implementation")
    ∷ ("executor", str "caller_agent")
    ∷ ("evidence_route", str "pipeline_run")
    ∷ [])

abbrev routing : Value
routing = object (
    ("schema_version", int (pos 2))
    ∷ ("status", str "proposed")
    ∷ ("decision", str "decompose")
    ∷ ("parent", object (("id", str "bead-1") ∷ ("sha256", str "d") ∷ []))
    ∷ ("catalog_sha256", str "d")
    ∷ ("criteria", criteria)
    ∷ ("routes", array (route "criterion-1" ∷ route "criterion-2" ∷ []))
    ∷ ("ambiguities", array [])
    ∷ ("routing_sha256", str "d")
    ∷ [])

routing_built : build_routing digest request proposal ≡ ok (routing, some plan)
unfolding program
routing_built = refl

build_routing-IsRouted_example : IsDecided digest request proposal routing (some plan)
build_routing-IsRouted_example =
    build_routing-IsRouted digest request proposal routing (some plan) routing_built
