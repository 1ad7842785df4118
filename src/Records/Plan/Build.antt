-- ===== src/Records/Plan/Build.antt =====
-- `validate_proposal`, `build_plan` and `validate_plan` of afk_records/plan.py. The SHA-256 of a JSON
-- text, `digest`, is a parameter.
use afk_pipeline.Prelude.{String, false, not, List, [], ◌∷◌, map, if◌then◌else◌, str_eq}
use afk_pipeline.Py.Value.{
  Value, Fields, field, end, null, str, list, dict, items, of_items, is_text, py_eq,
}
use afk_pipeline.Py.Read.{index, has, in_set}
use afk_pipeline.Py.Result.{Result, ok, err, value_error, runtime_error, ◌>>=◌}
use afk_pipeline.Py.Shape.{at, require, set_field}
use afk_pipeline.Py.Codes.{codes}
use afk_pipeline.Records.Plan.Shapes.{
  dict_value, object_with_keys, bounded_text, string_list, enum, project_labels,
}
use afk_pipeline.Records.Plan.Input.{max_text}
use afk_pipeline.Records.Plan.Quotes.{contains, names_slug}
use afk_pipeline.Records.Plan.Proposal.{
  text_of, part, validate_criteria, validate_ambiguities, validate_children,
}

-- the first project label of the parent; a validated request has one
unfoldable pub source_project : (request : Value) → Result String
source_project request = do
  value ← part request "parent" "labels"
  labels ← string_list value "parent.labels" 64 256
  first (project_labels labels)
  where
    first : List String → Result String
    first [] = err (runtime_error "StopIteration")
    first (project ∷ more) = ok project

unfoldable pub check_justification : (request child justification : Value) → Result (Unit {0})
check_justification request child justification = do
  given ←
      object_with_keys justification ("source_field" ∷ "source_text" ∷ "rationale" ∷ [])
        "cross-project child project_justification"
  _ ←
      enum (at given "source_field") ("title" ∷ "description" ∷ "acceptance_criteria" ∷ [])
        "project_justification source_field"
  _ ← bounded_text max_text false (at given "source_text") "project_justification source_text"
  _ ← bounded_text 2048 false (at given "rationale") "project_justification rationale"
  name ← text_of (at given "source_field")
  value ← part request "parent" name
  source ← text_of value
  quote_ ← text_of (at given "source_text")
  _ ←
      require (value_error "project_justification source_text must quote the frozen parent exactly")
        (contains (codes quote_) (codes source))
  target ← index child "project"
  slug ← text_of target
  require (value_error "project_justification source_text must name the target project slug")
      (names_slug false (codes slug) (codes quote_))

unfoldable pub validate_project_justification : (request child : Value) → Result (Unit {0})
validate_project_justification request child = do
  fs ← dict_value child
  project ← index child "project"
  own ← source_project request
  if is_text project own
      then require (value_error "source-project child must omit project_justification")
          (not (has fs "project_justification"))
      else (do
        _ ←
            require (value_error "cross-project child requires project_justification")
              (has fs "project_justification")
        check_justification request child (at fs "project_justification"))

unfoldable pub justify : (request : Value) → List Value → Result (Unit {0})
justify request [] = ok tt
justify request (child ∷ rest) = do
  _ ← validate_project_justification request child
  justify request rest

pub record Proposal : Type 0 where
  pub criteria : List Value
  pub children : List Value
  pub ambiguities : List String

unfoldable pub validate_proposal : (request : Value) → Value → Result Proposal
validate_proposal request value = do
  proposal ←
      object_with_keys value ("schema_version" ∷ "criteria" ∷ "children" ∷ "ambiguities" ∷ [])
        "proposal"
  version ← index request "schema_version"
  _ ←
      require (value_error "proposal schema_version must match its input")
        (py_eq (at proposal "schema_version") version)
  criteria ← validate_criteria request (at proposal "criteria")
  children ← validate_children request (at proposal "children") criteria
  _ ← justify request children
  ambiguities ← validate_ambiguities (at proposal "ambiguities")
  ok (record { criteria = criteria; children = children; ambiguities = ambiguities })

unfoldable pub readiness_for_execution : (executor : Value) → Result String
readiness_for_execution executor = do
  by_agent ← in_set executor ("afk_run" ∷ "caller_agent" ∷ [])
  ok (if by_agent then "ready-for-agent" else "ready-for-human")

abbrev pub routing_status : List String → String
routing_status [] = "proposed"
routing_status (a ∷ as') = "needs_clarification"

-- {**child, "readiness": ...}
unfoldable pub with_readiness : Value → Result Value
with_readiness child = do
  fs ← dict_value child
  executor ← index child "executor"
  ready ← readiness_for_execution executor
  ok (dict (set_field "readiness" (str ready) fs))

unfoldable pub each_ready : List Value → Result (List Value)
each_ready [] = ok []
each_ready (child ∷ rest) = do own ← with_readiness child; more ← each_ready rest; ok (own ∷ more)

abbrev pub list_of : List Value → Value
list_of vs = list (of_items vs)

-- {key: item for key, item in fs.items() if key != k}
unfoldable pub drop : String → Fields → Fields
drop k end = end
drop k (field j v fs) = let rest = drop k fs in if str_eq j k then rest else field j v rest

unfoldable pub proposal_of : (version criteria children ambiguities : Value) → Value
proposal_of version criteria children ambiguities = dict (
    field "schema_version" version
      (field "criteria" criteria (field "children" children (field "ambiguities" ambiguities end))))

unfoldable pub plan_keys : List String
plan_keys =
    "schema_version" ∷ "status" ∷ "parent" ∷ "catalog_sha256" ∷ "criteria" ∷ "children"
    ∷ "ambiguities" ∷ "authorization" ∷ "plan_sha256" ∷ []

-- a child of a plan, without its readiness
unfoldable pub without_readiness : Value → Result Value
without_readiness value = do
  child ← dict_value value
  _ ← require (value_error "plan child readiness is missing") (has child "readiness")
  ready ← readiness_for_execution (at child "executor")
  _ ←
      require (value_error "plan child readiness does not match execution")
        (py_eq (at child "readiness") (str ready))
  ok (dict (drop "readiness" child))

unfoldable pub each_unready : List Value → Result (List Value)
each_unready [] = ok []
each_unready (value ∷ rest) = do
  own ← without_readiness value
  more ← each_unready rest
  ok (own ∷ more)

-- plan["children"] if isinstance(plan["children"], list) else []
abbrev pub children_of : Value → List Value
children_of (list vs) = items vs
children_of v = []

module _ (digest : Value → String) where
  -- the parts of a plan that come from the request
  unfoldable pub plan_body :
      (version parent parent_id catalog : Value) → Proposal → List Value → Fields
  plan_body version parent parent_id catalog proposal children = field "schema_version" version (
      field "status" (str (routing_status proposal.ambiguities)) (
        field "parent" (dict (field "id" parent_id (field "sha256" (str (digest parent)) end))) (
          field "catalog_sha256" (str (digest catalog)) (
            field "criteria" (list_of proposal.criteria) (
              field "children" (list_of children) (
                field "ambiguities" (list_of (map str proposal.ambiguities))
                  (field "authorization" null end)))))))

  abbrev pub sealed_plan : Fields → Value
  sealed_plan body = dict (set_field "plan_sha256" (str (digest (dict body))) body)

  unfoldable pub build_plan : (request proposal : Value) → Result Value
  build_plan request value = do
    proposal ← validate_proposal request value
    children ← each_ready proposal.children
    version ← index request "schema_version"
    parent ← index request "parent"
    parent_id ← index parent "id"
    catalog ← index request "catalog"
    ok (sealed_plan (plan_body version parent parent_id catalog proposal children))

  unfoldable pub validate_plan : (request plan : Value) → Result (Unit {0})
  validate_plan request value = do
    plan ← object_with_keys value plan_keys "plan"
    children ← each_unready (children_of (at plan "children"))
    rebuilt ← build_plan request (
        proposal_of (at plan "schema_version") (at plan "criteria") (list_of children)
          (at plan "ambiguities"))
    require (value_error "plan does not match its deterministic contract") (py_eq rebuilt value)
