-- ===== src/Pr/Jobs/Quiet.antt =====
-- The parts of publishing in afk_pr/jobs.py and afk_pr/creation.py that only ask and send: a predicate of the
-- store that their effects keep is kept by them.
use afk_pipeline.Prelude.{String, Option, none, some, List, ◌∷◌}
use afk_pipeline.Py.Value.{Value, Fields}
use afk_pipeline.Py.Result.{Result}
use afk_pipeline.Py.Action.{modify}
use afk_pipeline.Py.Action.Keeps.{Keeps, Keeps-modify, keeps_rules}
use afk_pipeline.Pr.Jobs.Store.{Effect, status_set, sent, Store, World, log_effect}
use afk_pipeline.Pr.Jobs.Creation.{find_pr, create_pr, found_or_created}
use afk_pipeline.Pr.Jobs.Publish.{
  write_publication_seal, check_seal, send_fixtures, send_other, send_review,
}

pub record IsQuiet (P : Store → Type 0) : Type 0 where
  pub status : (state : String) (m : Store) → P m → P (record m { log = status_set state ∷ m.log })
  pub sending : (phase : String) (m : Store) → P m → P (record m { log = sent phase ∷ m.log })
  pub sealing : (v : Option Value) (m : Store) → P m → P (record m { publication_seal = v })

module _ (w : World) (P : Store → Type 0) (quiet : IsQuiet P) where
  pub status_set-Keeps : (state : String) → Keeps P (log_effect (status_set state))
  status_set-Keeps state = Keeps-modify _ (quiet.status state)

  pub sent-Keeps : (phase : String) → Keeps P (log_effect (sent phase))
  sent-Keeps phase = Keeps-modify _ (quiet.sending phase)

  publication_seal-Keeps :
      (f : Store → Option Value) → Keeps P (modify (λ s. record s { publication_seal = f s }))
  publication_seal-Keeps f = Keeps-modify _ (λ m h. quiet.sealing (f m) m h)

  ruleset quiet_rules = (keeps_rules, status_set-Keeps, sent-Keeps, publication_seal-Keeps)

  pub write_publication_seal-Keeps :
      (phase : String) (result : Fields) → Keeps P (write_publication_seal w phase result)
  write_publication_seal-Keeps phase result = search quiet_rules depth 20

  pub send_other-Keeps :
      (phase : String) (call : List Effect → Result Value) → Keeps P (send_other w phase call)
  unfolding send_other
  send_other-Keeps phase call = search quiet_rules depth 20

  pub send_fixtures-Keeps : (job result : Fields) → Keeps P (send_fixtures w job result)
  unfolding send_fixtures
  send_fixtures-Keeps job result = search quiet_rules depth 40

  pub send_review-Keeps : (job result : Fields) → Keeps P (send_review w job result)
  unfolding send_review
  send_review-Keeps job result = search (quiet_rules, send_other-Keeps) depth 40

  pub check_seal-Keeps :
      (phase : String) (job result : Fields) → Keeps P (check_seal w phase job result)
  check_seal-Keeps phase job result = search quiet_rules depth 20

  pub find_pr-Keeps : (job : Fields) → Keeps P (find_pr w job)
  unfolding find_pr
  find_pr-Keeps job = search quiet_rules depth 40

  create_pr-Keeps : (job progress : Fields) → Keeps P (create_pr w job progress)
  unfolding create_pr
  create_pr-Keeps job progress = search quiet_rules depth 60

  pub found_or_created-Keeps :
      (job progress : Fields) (found : Option Value)
      → Keeps P (found_or_created w job progress found)
  unfolding found_or_created
  found_or_created-Keeps job progress (some pr) = search quiet_rules
  found_or_created-Keeps job progress none = search (quiet_rules, create_pr-Keeps) depth 40
