-- ===== src/Records/Plan/Input.antt =====
-- `validate_input`, `validate_parent` and `validate_catalog` of afk_records/plan.py: what the Planner is
-- given. Each returns its argument, so here it returns nothing.
use afk_pipeline.Prelude.{
  ℕ, String, Bool, true, false, not, ◌&&◌, ◌||◌, Option, none, some, List, [], ◌∷◌, leb, all, any,
  str_eq,
}
use afk_pipeline.Py.Value.{Value, Fields, str, list, of_items, is_number, member}
use afk_pipeline.Py.Result.{Result, ok, err, value_error, ◌>>=◌}
use afk_pipeline.Py.Shape.{has_keys, at, require, natural}
use afk_pipeline.Records.Plan.Shapes.{
  dict_value, object_with_keys, bounded_text, string_list, enum, some_items, is_domain_id,
  project_labels, phases, evidence_routes, validate_executor,
}

abbrev pub max_text : ℕ
max_text = 32768

unfoldable pub validate_parent : Value → Result (Unit {0})
validate_parent value = do
  parent ←
      object_with_keys value
        ("id" ∷ "title" ∷ "description" ∷ "acceptance_criteria" ∷ "labels" ∷ []) "parent"
  _ ← bounded_text 256 false (at parent "id") "parent.id"
  _ ← bounded_text 1024 false (at parent "title") "parent.title"
  _ ← bounded_text max_text true (at parent "description") "parent.description"
  _ ← bounded_text max_text false (at parent "acceptance_criteria") "parent.acceptance_criteria"
  _ ← string_list (at parent "labels") "parent.labels" 64 256
  ok tt

abbrev pub route_keys : List String
route_keys = "owner" ∷ "executor" ∷ "evidence_route" ∷ "phases" ∷ []

-- set(fields) in (keys, keys | {"outside_help_reason"})
abbrev pub may_ask_help : List String → Fields → Bool
may_ask_help keys fs = has_keys keys fs || has_keys ("outside_help_reason" ∷ keys) fs

-- what a route must not share with another of its project
abbrev pub route_key : Fields → Value
route_key route = list (
    of_items (
      at route "owner"
      ∷ at route "executor"
      ∷ at route "evidence_route"
      ∷ at route "outside_help_reason"
      ∷ []))

unfoldable pub validate_route : Value → Result Value
validate_route value = do
  route ← dict_value value
  _ ←
      require (value_error "catalog.projects.routes has invalid fields")
        (may_ask_help route_keys route)
  _ ← bounded_text 256 false (at route "owner") "catalog owner"
  _ ← validate_executor route "catalog"
  _ ← enum (at route "evidence_route") evidence_routes "catalog evidence_route"
  named ← string_list (at route "phases") "catalog phases" 2 32
  _ ← require (value_error "catalog phase is invalid") (all (λ p. any (str_eq p) phases) named)
  ok (route_key route)

unfoldable pub validate_routes : (seen routes : List Value) → Result (Unit {0})
validate_routes seen [] = ok tt
validate_routes seen (value ∷ rest) = do
  key ← validate_route value
  _ ← require (value_error "catalog routes must be unique per project") (not (member key seen))
  validate_routes (key ∷ seen) rest

unfoldable pub validate_project : (slugs : List Value) → Value → Result Value
validate_project slugs value = do
  project ← object_with_keys value ("slug" ∷ "routes" ∷ []) "catalog.projects"
  _ ← require (value_error "catalog.projects.slug is invalid") (is_domain_id (at project "slug"))
  _ ←
      require (value_error "catalog project slugs must be unique")
        (not (member (at project "slug") slugs))
  routes ←
      some_items 16 (at project "routes") "catalog project routes must contain 1 through 16 items"
  _ ← validate_routes [] routes
  ok (at project "slug")

unfoldable pub validate_projects : (slugs projects : List Value) → Result (List Value)
validate_projects slugs [] = ok slugs
validate_projects slugs (value ∷ rest) = do
  slug ← validate_project slugs value
  validate_projects (slug ∷ slugs) rest

-- the slugs of the projects
unfoldable pub validate_catalog : Value → Result (List Value)
validate_catalog value = do
  catalog ← object_with_keys value ("schema_version" ∷ "projects" ∷ []) "catalog"
  _ ←
      require (value_error "catalog schema_version must be 2")
        (is_number (at catalog "schema_version") 2)
  projects ←
      some_items 64 (at catalog "projects") "catalog.projects must contain 1 through 64 items"
  validate_projects [] projects

abbrev pub is_between : (low high : ℕ) → Option ℕ → Bool
is_between low high none = false
is_between low high (some n) = leb low n && leb n high

-- the one project of the parent, which the catalog has
abbrev pub check_labels : List String → (slugs : List Value) → Result (Unit {0})
check_labels (project ∷ []) slugs =
    require (value_error "parent project label must exist in the catalog")
      (member (str project) slugs)
check_labels _ slugs = err (value_error "parent must have exactly one project label")

unfoldable pub validate_input : Value → Result (Unit {0})
validate_input value = do
  request ←
      object_with_keys value ("schema_version" ∷ "parent" ∷ "catalog" ∷ "timeout_seconds" ∷ [])
        "input"
  _ ←
      require (value_error "input schema_version must be 2")
        (is_number (at request "schema_version") 2)
  _ ←
      require (value_error "timeout_seconds must be an integer from 1 through 3600")
        (is_between 1 3600 (natural (at request "timeout_seconds")))
  _ ← validate_parent (at request "parent")
  slugs ← validate_catalog (at request "catalog")
  parent ← dict_value (at request "parent")
  labels ← string_list (at parent "labels") "parent.labels" 64 256
  check_labels (project_labels labels) slugs
