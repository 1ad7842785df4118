-- ===== src/Records/Coordinator/Sources.antt =====
-- `expected_input_sources`, `validation_repair_source` and `latest_record` of afk_records/coordinator.py.
-- Histories here have the latest record first, the order in which the code reads them.
use afk_pipeline.Prelude.{String, Bool, ◌&&◌, Option, none, some, List, [], ◌∷◌, if◌then◌else◌, any}
use afk_pipeline.Py.Value.{Value, field, end, str, dict, is_text}
use afk_pipeline.Py.Read.{index}
use afk_pipeline.Py.Result.{Result, ok, err, ◌>>=◌}
use afk_pipeline.Records.Coordinator.Topology.{
  Component, attempt, validation, change, review, assessment, iteration, response, name_of, success,
  component_of, found, invalid,
}

abbrev pub is_one_of : List Component → Value → Bool
is_one_of cs v = any (λ c. is_text v (name_of c)) cs

-- record["outcome"] == COMPONENT_TOPOLOGY[record["component"]]["success"]
abbrev pub is_success : Value → Result Bool
is_success record_ = do
  outcome ← index record_ "outcome"
  component ← index record_ "component"
  known ← component_of component
  c ← found known
  ok (is_text outcome (success c))

unfoldable pub latest_record : List Component → List Value → Result Value
latest_record cs [] = err invalid
latest_record cs (record_ ∷ rest) =
    let older = latest_record cs rest in
    do
      component ← index record_ "component"
      if is_one_of cs component
          then (do done ← is_success record_; if done then ok record_ else older)
          else older

-- the failed Validation behind a response, across abandoned retries
unfoldable pub validation_repair_source : List Value → Result (Option Value)
validation_repair_source [] = ok none
validation_repair_source (record_ ∷ rest) =
    let older = validation_repair_source rest in
    do
      component ← index record_ "component"
      outcome ← index record_ "outcome"
      if is_text component "response" && is_text outcome "abandoned"
          then older
          else if is_text component "validation" && is_text outcome "failed"
          then ok (some record_)
          else ok none

abbrev pub directory_of : List Component → List Value → Result Value
directory_of cs history = do r ← latest_record cs history; index r "directory"

abbrev one : String → Value → Value
one k v = dict (field k v end)

abbrev two : String → Value → String → Value → Value
two k v j u = dict (field k v (field j u end))

abbrev response_source : List Value → Option Value → Result Value
response_source history (some record_) = do d ← index record_ "directory"; ok (one "validation" d)
response_source history none = do
  d ← directory_of (assessment ∷ []) history
  ok (one "assessment" d)

unfoldable pub expected_input_sources : Component → List Value → Result Value
expected_input_sources attempt history = ok (one "assignment" (str "assignment.json"))
expected_input_sources validation history = do
  d ← directory_of (attempt ∷ response ∷ []) history
  ok (two "workspace" (str "assignment.json") "change" d)
expected_input_sources change history = do
  d ← directory_of (attempt ∷ response ∷ []) history
  ok (one "source" d)
expected_input_sources review history = do
  c ← directory_of (change ∷ []) history
  v ← directory_of (validation ∷ []) history
  ok (two "change" c "validation" v)
expected_input_sources assessment history = do
  d ← directory_of (review ∷ []) history
  ok (one "review" d)
expected_input_sources iteration history = do
  d ← directory_of (assessment ∷ []) history
  ok (one "assessment" d)
expected_input_sources response history = do
  repair ← validation_repair_source history
  response_source history repair
