-- ===== src/Records/Coordinator/Run.antt =====
-- The runs that COMPONENT_TOPOLOGY of afk_records/coordinator.py allows, as a step relation on the
-- history: what each record says, and which component comes after it.
use afk_pipeline.Prelude.{
  suc, pos, String, true, Option, none, some, List, [], ◌∷◌, ◌≡◌, ◌≢◌, str_eq, any,
}
use afk_pipeline.Py.Value.{Value, int, str, py_eq}
use afk_pipeline.Py.Read.{index}
use afk_pipeline.Py.Result.{ok}
use afk_pipeline.Records.Coordinator.Topology.{
  Component, attempt, validation, response, name_of, success, outcomes, next,
}
use afk_pipeline.Records.Coordinator.Sources.{expected_input_sources}
use afk_pipeline.Records.Coordinator.Checkpoint.{length_of}

-- the record is of the next invocation after the earlier ones, of this component, which read what
-- they left for it
pub record IsNext (c : Component) (earlier : List Value) (record_ : Value) : Type 0 where
  pub own_number : index record_ "sequence" ≡ ok (int (pos (suc (length_of earlier))))
  pub own_component : index record_ "component" ≡ ok (str (name_of c))
  pub inputs : Value
  pub own_inputs : index record_ "input_from" ≡ ok inputs
  pub sources : Value
  pub left : expected_input_sources c earlier ≡ ok sources
  pub same : py_eq inputs sources ≡ true

abbrev pub Ended : Value → String → Type 0
Ended record_ outcome = index record_ "outcome" ≡ ok (str outcome)

-- the outcome ends the run: the component may have it, and it is neither its success nor the failed
-- Validation that a response repairs
pub record IsStop (c : Component) (outcome : String) : Type 0 where
  pub known : any (str_eq outcome) (outcomes c) ≡ true
  pub no_success : outcome ≢ success c
  pub no_repair : c ≡ validation → outcome ≢ "failed"

-- the histories, latest record first, and the component that each expects
pub data Run : List Value → Option Component → Type 0 where
  begin : Run [] (some attempt)
  again :
      {c : Component} {earlier : List Value} {record_ : Value}
      → Run earlier (some c)
      → IsNext c earlier record_
      → Ended record_ "abandoned"
      → Run (record_ ∷ earlier) (some c)
  succeeded :
      {c : Component} {earlier : List Value} {record_ : Value}
      → Run earlier (some c)
      → IsNext c earlier record_
      → Ended record_ (success c)
      → Run (record_ ∷ earlier) (some (next c))
  repaired :
      {earlier : List Value} {record_ : Value}
      → Run earlier (some validation)
      → IsNext validation earlier record_
      → Ended record_ "failed"
      → Run (record_ ∷ earlier) (some response)
  stopped :
      {c : Component} {earlier : List Value} {record_ : Value} {outcome : String}
      → Run earlier (some c)
      → IsNext c earlier record_
      → Ended record_ outcome
      → IsStop c outcome
      → Run (record_ ∷ earlier) none
