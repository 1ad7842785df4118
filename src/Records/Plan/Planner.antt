-- ===== src/Records/Plan/Planner.antt =====
-- `validate_direct_routing` and `validate_planner_output` of afk_records/plan.py. Whether a text is an
-- instant, and then whether one of UTC, which Python's datetime tells, is a parameter.
use afk_pipeline.Prelude.{
  pos, String, Bool, false, not, ◌&&◌, Option, none, some, List, [], ◌∷◌, if◌then◌else◌,
}
use afk_pipeline.Py.Value.{
  Value, Fields, field, end, null, int, str, list, dict, nil, is_text, is_number, is_null, is_list,
  py_eq,
}
use afk_pipeline.Py.Read.{index}
use afk_pipeline.Py.Result.{Result, ok, value_error, ◌>>=◌}
use afk_pipeline.Py.Shape.{at, require, natural, is_filled, is_some}
use afk_pipeline.Records.Plan.Shapes.{demand, fail, dict_value, object_with_keys}
use afk_pipeline.Records.Plan.Input.{validate_input}
use afk_pipeline.Records.Plan.Proposal.{part}
use afk_pipeline.Records.Plan.Build.{list_of, drop, validate_plan, children_of}
use afk_pipeline.Records.Plan.Routing.{target_of, build_routing}

abbrev direct_keys : List String
direct_keys =
    "schema_version" ∷ "status" ∷ "decision" ∷ "parent" ∷ "catalog_sha256" ∷ "criteria" ∷ "routes"
    ∷ "ambiguities" ∷ "routing_sha256" ∷ []

-- the routes without their target, the source Bead
unfoldable pub untargeted : (parent_id : Value) → List Value → Result (List Value)
untargeted parent_id [] = ok []
untargeted parent_id (value ∷ rest) = do
  route ← dict_value value
  _ ←
      require (value_error "direct route target must be the source Bead")
        (py_eq (at route "target") (target_of "source" parent_id))
  more ← untargeted parent_id rest
  ok (dict (drop "target" route) ∷ more)

-- the children of a plan without their readiness
unfoldable pub unready : List Value → Result (List Value)
unready [] = ok []
unready (value ∷ rest) = do
  child ← dict_value value
  more ← unready rest
  ok (dict (drop "readiness" child) ∷ more)

abbrev pub routing_proposal :
    (version : Value) (decision : String) (criteria direct_routes children ambiguities : Value)
    → Value
routing_proposal version decision criteria direct_routes children ambiguities = dict (
    field "schema_version" version (
      field "decision" (str decision) (
        field "criteria" criteria (
          field "direct_routes" direct_routes
            (field "children" children (field "ambiguities" ambiguities end))))))

abbrev pub planner_keys : List String
planner_keys =
    "schema_version" ∷ "outcome" ∷ "source" ∷ "started_at" ∷ "finished_at" ∷ "duration_seconds"
    ∷ "process" ∷ "agent" ∷ "planner" ∷ "routing" ∷ "plan" ∷ "error_category" ∷ "artifacts" ∷ []

-- the values of a successful Planner's envelope
abbrev pub is_canonical : (parent_id : Value) → Fields → Bool
is_canonical parent_id output =
    is_number (at output "schema_version") 1
    && is_text (at output "outcome") "completed"
    && py_eq (at output "source") (target_of "bead" parent_id)
    && py_eq (at output "process")
        (dict (field "exit_code" (int (pos 0)) (field "signal" null end)))
    && py_eq (at output "agent") (dict (field "status" (str "completed") end))
    && py_eq (at output "planner") (
        dict (
          field "kind" (str "inference") (
            field "provider" (str "openai-codex")
              (field "model" (str "gpt-5.6-luna") (field "status" (str "completed") end)))))
    && is_null (at output "error_category")
    && py_eq (at output "artifacts")
        (dict (field "events" (str "events.jsonl") (field "stderr" (str "stderr.log") end)))

abbrev pub says_direct : Value → Bool
says_direct (dict routing) = is_text (at routing "decision") "direct"
says_direct v = false

module _ (digest : Value → String) where
  unfoldable pub validate_direct_routing : (request value : Value) → Result (Unit {0})
  validate_direct_routing request value = do
    routing ← object_with_keys value direct_keys "direct routing"
    _ ←
        require (value_error "routing is not direct")
          (is_text (at routing "decision") "direct" && is_list (at routing "routes"))
    parent_id ← part request "parent" "id"
    routes ← untargeted parent_id (children_of (at routing "routes"))
    version ← index request "schema_version"
    (rebuilt, plan) ← build_routing digest request (
        routing_proposal version "direct" (at routing "criteria") (list_of routes) (list nil)
          (at routing "ambiguities"))
    require (value_error "direct routing does not match its deterministic contract")
        (not (is_some plan) && py_eq rebuilt value)

  -- the canonical routing of a plan is the one of the output
  unfoldable pub check_decomposed : (request routing plan_value : Value) → Result (Unit {0})
  check_decomposed request routing plan_value = do
    _ ← validate_plan digest request plan_value
    plan ← dict_value plan_value
    children ← unready (children_of (at plan "children"))
    version ← index request "schema_version"
    (rebuilt, made) ← build_routing digest request (
        routing_proposal version "decompose" (at plan "criteria") (list nil) (list_of children)
          (at plan "ambiguities"))
    require (value_error "decomposed Planner output is not canonical")
        (py_eq routing rebuilt && is_same plan_value made)
    where
      is_same : Value → Option Value → Bool
      is_same plan none = is_null plan
      is_same plan (some made) = py_eq plan made

  module _ (instant : String → Option Bool) where
    unfoldable pub utc_timestamp : Value → (name : String) → Result (Unit {0})
    utc_timestamp value name = do
      s ← filled_text value
      utc ← read (instant s)
      demand name " must identify a UTC instant" utc
      where
        filled_text : Value → Result String
        filled_text (str s) = do _ ← demand name " is invalid" (is_filled (str s)); ok s
        filled_text v = fail name " is invalid"

        read : Option Bool → Result Bool
        read none = fail name " is invalid"
        read (some utc) = ok utc

    unfoldable pub validate_planner_output : (planner_input value : Value) → Result (Unit {0})
    validate_planner_output request value = do
      _ ← validate_input request
      output ← object_with_keys value planner_keys "Planner output"
      parent_id ← part request "parent" "id"
      _ ←
          require (value_error "Planner output is not a successful canonical result")
            (is_canonical parent_id output)
      _ ← utc_timestamp (at output "started_at") "Planner started_at"
      _ ← utc_timestamp (at output "finished_at") "Planner finished_at"
      _ ←
          require (value_error "Planner duration_seconds is invalid")
            (is_some (natural (at output "duration_seconds")))
      if says_direct (at output "routing")
          then (do
            _ ← validate_direct_routing request (at output "routing")
            require (value_error "direct Planner output must not contain a Plan")
                (is_null (at output "plan")))
          else check_decomposed request (at output "routing") (at output "plan")
