-- ===== src/Pr/Jobs/Stable.antt =====
-- What the workers of afk_pr/jobs.py keep beside the code of the phases: a predicate of the store that is kept
-- by the records and seals they write, and by publishing.
use afk_pipeline.Prelude.{String, Bool, some, List, [], ◌∷◌}
use afk_pipeline.Py.Value.{Value, Fields}
use afk_pipeline.Py.Action.{modify}
use afk_pipeline.Py.Action.Keeps.{
  Keeps, Keeps-modify, Keeps-if, Keeps-bind, Keeps-gets, Keeps-pure, keeps_rules,
}
use afk_pipeline.Pr.Folder.{set_field}
use afk_pipeline.Pr.Jobs.Store.{
  Store, Execution, finished, busy, raised, escaped, World, write_phase,
}
use afk_pipeline.Pr.Jobs.Publish.{publish}
use afk_pipeline.Pr.Jobs.Worker.{
  guarded, outcome_of, write_seal, record_outcome, reconcile, retry_phase, retry_phases,
  retry_publication,
}

pub record IsStable (w : World) (P : Store → Type 0) : Type 0 where
  pub writing :
      (phase : String) (v : Value) (m : Store)
      → P m
      → P (record m { phases = set_field phase v m.phases })
  pub sealing : (v : Value) (m : Store) → P m → P (record m { seal = some v })
  pub publishing : (phase : String) → Keeps P (publish w phase)

pub outcome_of-Keeps : (P : Store → Type 0) (e : Execution) → Keeps P (outcome_of e)
outcome_of-Keeps P (finished fs) = search keeps_rules
outcome_of-Keeps P busy = search keeps_rules
outcome_of-Keeps P (raised error reason) = search keeps_rules
outcome_of-Keeps P (escaped e) = search keeps_rules

module _ (w : World) (P : Store → Type 0) (stable : IsStable w P) where
  pub write_phase-Keeps : (phase : String) (v : Value) → Keeps P (write_phase phase v)
  write_phase-Keeps phase v = Keeps-modify _ (stable.writing phase v)

  set_seal-Keeps : (v : Value) → Keeps P (modify (λ s. record s { seal = some v }))
  set_seal-Keeps v = Keeps-modify _ (stable.sealing v)

  pub publish-Keeps : (phase : String) → Keeps P (publish w phase)
  publish-Keeps phase = stable.publishing phase

  ruleset stable_rules = (keeps_rules, write_phase-Keeps, set_seal-Keeps, publish-Keeps)

  pub write_seal-Keeps : (phase : String) (outcome : Fields) → Keeps P (write_seal w phase outcome)
  write_seal-Keeps phase outcome = search stable_rules depth 40

  pub record_outcome-Keeps :
      (phase : String) (outcome : Fields) → Keeps P (record_outcome w phase outcome)
  unfolding record_outcome
  record_outcome-Keeps phase outcome = search stable_rules depth 40

  reconcile-Keeps : (phase : String) (observed : Value) → Keeps P (reconcile w phase observed)
  unfolding reconcile
  reconcile-Keeps phase observed = search stable_rules depth 40

  retry_phase-Keeps : (is_free : Bool) (phase : String) → Keeps P (retry_phase w is_free phase)
  unfolding retry_phase
  retry_phase-Keeps is_free phase = search (stable_rules, reconcile-Keeps) depth 40

  retry_phases-Keeps :
      (is_free : String → Bool) (phases : List String) → Keeps P (retry_phases w is_free phases)
  unfolding retry_phases
  retry_phases-Keeps is_free [] = search stable_rules
  retry_phases-Keeps is_free (phase ∷ rest) = Keeps-bind _ _ (Keeps-gets _) (λ s.
      Keeps-bind _ _ (Keeps-if _ _ _ (retry_phase-Keeps (is_free phase) phase) (Keeps-pure tt))
        (λ _. retry_phases-Keeps is_free rest))

  pub retry_publication-Keeps : (is_free : String → Bool) → Keeps P (retry_publication w is_free)
  unfolding retry_publication guarded
  retry_publication-Keeps is_free = search (stable_rules, retry_phases-Keeps) depth 20
