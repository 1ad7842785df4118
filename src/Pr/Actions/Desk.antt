-- ===== src/Pr/Actions/Desk.antt =====
-- The receipt of a submission in afk_pr/actions.py, its effects, and the outside.
use afk_pipeline.Prelude.{String, Bool, Option, List, ◌∷◌}
use afk_pipeline.Py.Value.{Value, Fields}
use afk_pipeline.Py.Result.{Result}
use afk_pipeline.Py.Action.{Action, modify}

pub data Effect : Type 0 where
  -- github.observe answered with this context
  seen : (context : Value) → Effect
  -- jobs.write(path, receipt)
  saved : (receipt : Fields) → Effect
  -- jobs.prepare_submission, and jobs.start
  prepared : Effect
  started : (phases : List String) → Effect

-- the receipt of the action, if its file exists, and the effects with the latest first
pub record Submission : Type 0 where
  pub receipt : Option Value
  pub log : List Effect

-- GitHub, the clock, the random IDs, and the job's directory, by all that was done before.
pub record World : Type 0 where
  pub observe : List Effect → Result Value
  -- git check-ref-format
  pub check_ref : String → Result (Unit {0})
  pub job_id : String
  pub timestamp : List Effect → Value
  pub prepare : List Effect → Result (List String)
  -- (directory / "job.json").exists(), and jobs.status_job(directory)
  pub has_job : List Effect → String → Bool
  pub status_job : List Effect → String → Result Value
  -- validation.select: the job whose fixtures are reused; writing job.json may raise too
  pub select : List Effect → Result (Option String)
  pub start : List Effect → List String → Result (Unit {0})

abbrev pub Submitter : Type 0 → Type 0
Submitter = Action Submission

abbrev pub log_effect : Effect → Submitter Unit
log_effect e = modify (λ d. record d { log = e ∷ d.log })
