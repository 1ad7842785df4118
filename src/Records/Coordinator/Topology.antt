-- ===== src/Records/Coordinator/Topology.antt =====
-- COMPONENT_TOPOLOGY of afk_records/coordinator.py.
use afk_pipeline.Prelude.{String, Option, none, some, List, [], ◌∷◌, if◌then◌else◌, str_eq}
use afk_pipeline.Py.Value.{Value, list, dict, str}
use afk_pipeline.Py.Result.{Result, ok, err, Exc, key_error, value_error, type_error}

pub data Component : Type 0 where
  attempt validation change review assessment iteration response : Component

abbrev pub name_of : Component → String
name_of attempt = "attempt"
name_of validation = "validation"
name_of change = "change"
name_of review = "review"
name_of assessment = "assessment"
name_of iteration = "iteration"
name_of response = "response"

-- COMPONENT_TOPOLOGY[c]["success"]
abbrev pub success : Component → String
success attempt = "succeeded"
success validation = "passed"
success _ = "completed"

-- COMPONENT_TOPOLOGY[c]["outcomes"]
abbrev pub outcomes : Component → List String
outcomes change = "completed" ∷ []
outcomes iteration = "completed" ∷ []
outcomes c = success c ∷ "failed" ∷ "timed_out" ∷ "interrupted" ∷ []

-- COMPONENT_TOPOLOGY[c]["next"]
abbrev pub next : Component → Component
next attempt = validation
next validation = change
next change = review
next review = assessment
next assessment = iteration
next iteration = response
next response = validation

abbrev pub all_components : List Component
all_components = attempt ∷ validation ∷ change ∷ review ∷ assessment ∷ iteration ∷ response ∷ []

abbrev pub named : String → List Component → Option Component
named s [] = none
named s (c ∷ rest) = if str_eq (name_of c) s then some c else named s rest

-- v in COMPONENT_TOPOLOGY: a list and a dict have no hash
abbrev pub component_of : Value → Result (Option Component)
component_of (str s) = ok (named s all_components)
component_of (list vs) = err type_error
component_of (dict fs) = err type_error
component_of v = ok none

-- COMPONENT_TOPOLOGY[v]
abbrev pub found : Option Component → Result Component
found none = err (key_error "component")
found (some c) = ok c

abbrev pub invalid : Exc
invalid = value_error "invalid coordinator checkpoint"
