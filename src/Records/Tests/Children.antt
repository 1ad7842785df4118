-- ===== src/Records/Tests/Children.antt =====
-- Children of a plan that depend on each other.
use afk_pipeline.Prelude.{String, true, false, List, [], ◌∷◌, ◌≡◌, ◌≢◌, refl, All}
use afk_pipeline.Py.Result.{ok, err, any_of}
use afk_pipeline.Records.Plan.Graph.{
  Node, by_id, each, enter, visit, gather, ancestors, knows, implementations, check_phase,
  check_phases, validate_graph, cycle, too_deep, ids, is_empty, holds,
}
use afk_pipeline.Records.Plan.Graph.Sorted.{IsSorted}
use afk_pipeline.Records.Plan.Graph.Layers.{validate_graph-Goes}
use afk_pipeline.Records.Plan.Graph.Closure.{IsLayered, validate_graph-IsLayered}

program : Unit {0}
unfolding by_id each enter visit gather ancestors knows implementations check_phase check_phases
    validate_graph any_of
program = tt

abbrev node : String → List String → String → Node
node local_id depends_on phase = record {
  local_id = local_id;
  depends_on = depends_on;
  phase = phase;
}

abbrev round : List Node
round = node "a" ("b" ∷ []) "implementation" ∷ node "b" ("a" ∷ []) "implementation" ∷ []

round_refused : validate_graph round ≡ err cycle
unfolding program
round_refused = refl

validate_graph-Goes_example : validate_graph round ≢ err too_deep
validate_graph-Goes_example = validate_graph-Goes round

abbrev layered : List Node
layered =
    node "close" ("check" ∷ []) "closure"
    ∷ node "check" ("build" ∷ []) "implementation"
    ∷ node "build" [] "implementation"
    ∷ []

layered_accepted : validate_graph layered ≡ ok tt
unfolding program
layered_accepted = refl

-- a closure child that comes first
early : validate_graph (node "close" [] "closure" ∷ node "build" [] "implementation" ∷ []) ≢ ok tt
unfolding program
early q = cc

validate_graph-IsLayered_example :
    ((order : List String) × IsSorted layered order × All (λ i. holds i order ≡ true) (ids layered))
    × (is_empty (implementations layered) ≡ false → All (IsLayered layered) layered)
validate_graph-IsLayered_example = validate_graph-IsLayered layered layered_accepted
