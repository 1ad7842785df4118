-- ===== src/Records/Plan/Proposal.antt =====
-- What the Planner proposes: `validate_criteria`, `validate_ambiguities`, `validate_children`,
-- `validate_project_justification` and `validate_proposal` of afk_records/plan.py. Each returns its
-- argument, so here it returns the parts that its caller reads.
use Prim.Native.String.{◌++◌ as append}
use afk_pipeline.Prelude.{
  ℕ, suc, String, Bool, true, false, not, ◌&&◌, Option, none, some, List, [], ◌∷◌, ◌++◌, all, any,
  if◌then◌else◌, str_eq,
}
use afk_pipeline.Py.Value.{Value, Fields, str, is_text, py_eq, entries}
use afk_pipeline.Py.Read.{index, has, iter, in_set}
use afk_pipeline.Py.Result.{Result, ok, err, type_error, value_error, ◌>>=◌, any_of}
use afk_pipeline.Py.Shape.{at, require}
use afk_pipeline.Py.Text.{decimal}
use afk_pipeline.Py.Codes.{eq_codes}
use afk_pipeline.Records.Plan.Shapes.{
  demand, dict_value, object_with_keys, bounded_text, string_list, enum, some_items, is_domain_id,
  phases, evidence_routes, validate_executor,
}
use afk_pipeline.Records.Plan.Input.{max_text}
use afk_pipeline.Records.Plan.Quotes.{normalize, normalize_all}
use afk_pipeline.Records.Plan.Graph.{Node, holds, validate_graph}

-- a validated text
abbrev pub text_of : Value → Result String
text_of (str s) = ok s
text_of v = err type_error

-- v[k] of a validated object in it
unfoldable pub part : Value → (object key : String) → Result Value
part request object key = do inner ← index request object; index inner key

-- the source_text of each criterion; a criterion's id is its number from 1
unfoldable pub check_criteria : (n : ℕ) → List Value → Result (List String)
check_criteria n [] = ok []
check_criteria n (value ∷ rest) = do
  criterion ←
      object_with_keys value ("id" ∷ "source_text" ∷ "statement" ∷ [])
        (append "criterion " (decimal n))
  _ ←
      require (value_error "criterion ids must be contiguous and one-based")
        (is_text (at criterion "id") (append "criterion-" (decimal n)))
  _ ← bounded_text max_text false (at criterion "source_text") "criterion source_text"
  _ ← bounded_text 2048 false (at criterion "statement") "criterion statement"
  own ← text_of (at criterion "source_text")
  more ← check_criteria (suc n) rest
  ok (own ∷ more)

unfoldable pub validate_criteria : (request : Value) → Value → Result (List Value)
validate_criteria request value = do
  criteria ← some_items 128 value "proposal criteria must contain 1 through 128 items"
  sources ← check_criteria 1 criteria
  whole ← part request "parent" "acceptance_criteria"
  given ← text_of whole
  _ ←
      require (value_error "criterion source_text values must exactly cover acceptance_criteria")
        (eq_codes (normalize_all sources) (normalize given))
  ok criteria

unfoldable pub validate_ambiguities : Value → Result (List String)
validate_ambiguities value = string_list value "proposal ambiguities" 32 2048

-- {project["slug"]: project for project in projects}[slug]; the slugs are distinct
unfoldable pub project_of : (slug : Value) → List Value → Result (Option Value)
project_of slug [] = ok none
project_of slug (project ∷ rest) =
    let more = project_of slug rest in
    do own ← index project "slug"; if py_eq own slug then ok (some project) else more

unfoldable pub allows_route : (child : Fields) → Value → Result Bool
allows_route child route = do
  owner ← index route "owner"
  executor ← index route "executor"
  evidence ← index route "evidence_route"
  own ← dict_value route
  named ← index route "phases"
  listed ← iter named
  ok (
      py_eq owner (at child "owner")
      && py_eq executor (at child "executor")
      && py_eq evidence (at child "evidence_route")
      && py_eq (at own "outside_help_reason") (at child "outside_help_reason")
      && any (py_eq (at child "phase")) listed)

unfoldable pub catalog_allows : (project : Value) → (child : Fields) → Result Bool
catalog_allows project child = do
  value ← index project "routes"
  routes ← iter value
  any_of (allows_route child) routes

-- projects[v["project"]], for a child or a route v; a list and a dict have no hash
unfoldable pub known_project : (request : Value) → (name : String) → Fields → Result Value
known_project request name child = do
  _ ← in_set (at child "project") []
  value ← part request "catalog" "projects"
  projects ← iter value
  found ← project_of (at child "project") projects
  given found
  where
    given : Option Value → Result Value
    given none = err (value_error (append name " project is not in the catalog"))
    given (some project) = ok project

-- the fields that a child and a direct route share, from the owner on
unfoldable pub check_route : (name : String) → (project : Value) → Fields → Result (Unit {0})
check_route name project route = do
  _ ← bounded_text 256 false (at route "owner") (append name " owner")
  _ ← enum (at route "phase") phases (append name " phase")
  _ ← validate_executor route name
  _ ← enum (at route "evidence_route") evidence_routes (append name " evidence_route")
  allowed ← catalog_allows project route
  demand name " does not match a catalog route" allowed

abbrev pub child_keys : List String
child_keys =
    "local_id" ∷ "title" ∷ "objective" ∷ "criteria" ∷ "project" ∷ "owner" ∷ "phase" ∷ "executor"
    ∷ "evidence_route" ∷ "depends_on" ∷ []

-- the keys that a child may have; a request without a parent is the one of a Parent Review
abbrev pub allowed_keys : (has_parent : Bool) → List String
allowed_keys true = "outside_help_reason" ∷ "project_justification" ∷ child_keys
allowed_keys false = "outside_help_reason" ∷ child_keys

-- required <= set(child) <= allowed
unfoldable pub child_fields : (request : Fields) → Fields → Bool
child_fields request child =
    all (has child) child_keys
    && all (λ e. holds e.0 (allowed_keys (has request "parent"))) (entries child)

-- the child as its graph sees it, and the ids of its criteria
unfoldable pub validate_child :
    (request : Value)
    → (known : List String) → (child_ids : List String) → Value
    → Result (Node × List String)
validate_child request known child_ids value = do
  child ← dict_value value
  given ← dict_value request
  _ ← require (value_error "child has invalid fields") (child_fields given child)
  _ ← require (value_error "child local_id is invalid") (is_domain_id (at child "local_id"))
  local_id ← text_of (at child "local_id")
  _ ← require (value_error "child local_ids must be unique") (not (holds local_id child_ids))
  _ ← bounded_text 1024 false (at child "title") "child title"
  _ ← bounded_text 4096 false (at child "objective") "child objective"
  assigned ← string_list (at child "criteria") "child criteria" 128 256
  _ ←
      require (value_error "child criteria must reference known criteria")
        (some_text assigned && all (λ c. holds c known) assigned)
  project ← known_project request "child" child
  _ ← check_route "child" project child
  depends_on ← string_list (at child "depends_on") "child depends_on" 64 128
  phase ← text_of (at child "phase")
  ok (record { local_id = local_id; depends_on = depends_on; phase = phase }, assigned)
  where
    some_text : List String → Bool
    some_text [] = false
    some_text (s ∷ ss) = true

unfoldable pub check_children :
    (request : Value)
    → (known child_ids : List String) → List Value
    → Result (List Node × List String)
check_children request known child_ids [] = ok ([], [])
check_children request known child_ids (value ∷ rest) = do
  (child, assigned) ← validate_child request known child_ids value
  (children, more) ← check_children request known (child.local_id ∷ child_ids) rest
  ok (child ∷ children, assigned ++ more)

-- xs without the first x in it
abbrev pub without : String → List String → Option (List String)
without x [] = none
without x (y ∷ ys) = if str_eq x y then some ys else kept y (without x ys)
  where
    kept : String → Option (List String) → Option (List String)
    kept y none = none
    kept y (some ys) = some (y ∷ ys)

-- sorted(xs) == sorted(ys)
unfoldable pub same_texts : List String → List String → Bool
same_texts [] [] = true
same_texts [] (y ∷ ys) = false
same_texts (x ∷ xs) ys = elim (without x ys) [ none ↦ false | some zs ↦ same_texts xs zs ]

-- the ids of validated criteria, which are distinct
unfoldable pub criterion_ids : List Value → Result (List String)
criterion_ids [] = ok []
criterion_ids (criterion ∷ rest) = do
  value ← index criterion "id"
  own ← text_of value
  more ← criterion_ids rest
  ok (own ∷ more)

unfoldable pub validate_children :
    (request : Value) → Value → (criteria : List Value) → Result (List Value)
validate_children request value criteria = do
  values ← some_items 64 value "proposal children must contain 1 through 64 items"
  known ← criterion_ids criteria
  (children, assigned) ← check_children request known [] values
  _ ←
      require (value_error "every criterion must be assigned exactly once")
        (same_texts assigned known)
  _ ← validate_graph children
  ok values
