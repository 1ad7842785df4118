-- ===== src/Records/Tests/Planned.antt =====
-- A plan of one child.
use afk_pipeline.Prelude.{pos, String, true, List, [], ◌∷◌, ◌≡◌, refl}
use afk_pipeline.Py.Value.{Value, null, int, str, py_eq}
use afk_pipeline.Py.Build.{object, array}
use afk_pipeline.Py.Codes.{is_nonblank}
use afk_pipeline.Py.Result.{ok, any_of}
use afk_pipeline.Py.Text.{decimal}
use afk_pipeline.Records.Plan.Shapes.{
  dict_value, object_with_keys, bounded_text, string_list, enum, is_domain_codes, is_domain_id,
  without_prefix, project_labels, validate_executor,
}
use afk_pipeline.Records.Plan.Input.{
  validate_parent, validate_route, validate_routes, validate_project, validate_projects,
  validate_catalog, validate_input,
}
use afk_pipeline.Records.Plan.Quotes.{spaced, normalize, normalize_all, contains, names_slug}
use afk_pipeline.Records.Plan.Graph.{
  by_id, each, enter, visit, gather, ancestors, knows, implementations, check_phase, check_phases,
  validate_graph,
}
use afk_pipeline.Records.Plan.Proposal.{
  part, check_criteria, validate_criteria, validate_ambiguities, project_of, allows_route,
  catalog_allows, known_project, check_route, child_fields, validate_child, check_children,
  same_texts, criterion_ids, validate_children,
}
use afk_pipeline.Records.Plan.Build.{
  source_project, check_justification, validate_project_justification, justify, validate_proposal,
  readiness_for_execution, with_readiness, each_ready, drop, proposal_of, plan_keys,
  without_readiness, each_unready, plan_body, build_plan, validate_plan,
}
use afk_pipeline.Records.Plan.RoundTrip.{validate_plan-build_plan}

program : Unit {0}
unfolding is_nonblank any_of decimal dict_value object_with_keys bounded_text string_list enum
    is_domain_codes is_domain_id without_prefix project_labels validate_executor validate_parent
    validate_route validate_routes validate_project validate_projects validate_catalog
    validate_input spaced normalize normalize_all contains names_slug by_id each enter visit gather
    ancestors knows implementations check_phase check_phases validate_graph part check_criteria
    validate_criteria validate_ambiguities project_of allows_route catalog_allows known_project
    check_route child_fields validate_child check_children same_texts criterion_ids
    validate_children source_project check_justification validate_project_justification justify
    validate_proposal readiness_for_execution with_readiness each_ready drop proposal_of plan_keys
    without_readiness each_unready plan_body build_plan validate_plan py_eq
program = tt

abbrev parent : Value
parent = object (
    ("id", str "bead-1")
    ∷ ("title", str "Title")
    ∷ ("description", str "")
    ∷ ("acceptance_criteria", str "It works. It is fast.")
    ∷ ("labels", array (str "project:core" ∷ []))
    ∷ [])

abbrev catalog : Value
catalog = object (
    ("schema_version", int (pos 2))
    ∷ (
      "projects",
      array (
          object (
            ("slug", str "core")
            ∷ (
              "routes",
              array (
                  object (
                    ("owner", str "team")
                    ∷ ("executor", str "afk_run")
                    ∷ ("evidence_route", str "pipeline_run")
                    ∷ ("phases", array (str "implementation" ∷ []))
                    ∷ [])
                  ∷ []),
            )
            ∷ [])
          ∷ []),
    )
    ∷ [])

abbrev request : Value
request = object (
    ("schema_version", int (pos 2))
    ∷ ("parent", parent)
    ∷ ("catalog", catalog)
    ∷ ("timeout_seconds", int (pos 60))
    ∷ [])

request_accepted : validate_input request ≡ ok tt
unfolding program
request_accepted = refl

abbrev criterion : String → String → Value
criterion id source =
    object (("id", str id) ∷ ("source_text", str source) ∷ ("statement", str "Statement") ∷ [])

abbrev criteria : Value
criteria = array (criterion "criterion-1" "It works." ∷ criterion "criterion-2" "It  is fast." ∷ [])

abbrev child : List (String × Value) → Value
child more = object (
    ("local_id", str "build")
    ∷ ("title", str "Build")
    ∷ ("objective", str "Build it")
    ∷ ("criteria", array (str "criterion-2" ∷ str "criterion-1" ∷ []))
    ∷ ("project", str "core")
    ∷ ("owner", str "team")
    ∷ ("phase", str "implementation")
    ∷ ("executor", str "afk_run")
    ∷ ("evidence_route", str "pipeline_run")
    ∷ ("depends_on", array [])
    ∷ more)

abbrev proposal : Value
proposal = object (
    ("schema_version", int (pos 2))
    ∷ ("criteria", criteria)
    ∷ ("children", array (child [] ∷ []))
    ∷ ("ambiguities", array [])
    ∷ [])

abbrev digest : Value → String
digest v = "d"

abbrev plan : Value
plan = object (
    ("schema_version", int (pos 2))
    ∷ ("status", str "proposed")
    ∷ ("parent", object (("id", str "bead-1") ∷ ("sha256", str "d") ∷ []))
    ∷ ("catalog_sha256", str "d")
    ∷ ("criteria", criteria)
    ∷ ("children", array (child (("readiness", str "ready-for-agent") ∷ []) ∷ []))
    ∷ ("ambiguities", array [])
    ∷ ("authorization", null)
    ∷ ("plan_sha256", str "d")
    ∷ [])

plan_built : build_plan digest request proposal ≡ ok plan
unfolding program
plan_built = refl

plan_equal : py_eq plan plan ≡ true
unfolding program
plan_equal = refl

validate_plan-build_plan_example : validate_plan digest request plan ≡ ok tt
validate_plan-build_plan_example =
    validate_plan-build_plan digest request proposal plan plan_built plan_equal
