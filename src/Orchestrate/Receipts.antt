-- ===== src/Orchestrate/Receipts.antt =====
-- The identities that afk_orchestrate/driver.py reads from an answer.
use afk_pipeline.Prelude.{Bool, ◌&&◌, String, if◌then◌else◌}
use afk_pipeline.Py.Value.{is_text, Value, str}
use afk_pipeline.Py.Read.{get, index}
use afk_pipeline.Py.Result.{Result, ok, err, value_error, ◌>>=◌}
use afk_pipeline.Py.Text.{matches_hex}

unfoldable pub revision : Value → Result String
revision (str s) =
    if matches_hex 40 s then ok s else err (value_error "missing or invalid candidate revision")
revision _ = err (value_error "missing or invalid candidate revision")

checked_job : Value → Result String
checked_job (str s) =
    if matches_hex 16 s then ok s else err (value_error "missing or invalid job receipt")
checked_job _ = err (value_error "missing or invalid job receipt")

unfoldable pub job_id : Value → Result String
unfolding checked_job
job_id result = do job ← index result "job"; value ← index job "id"; checked_job value

-- the fields of an action receipt that have to be those of the submission
unfoldable pub is_receipt : String → String → String → String → String → Value → Result Bool
is_receipt name action job head base receipt = do
  c ← get receipt "command"
  i ← get receipt "id"
  j ← get receipt "job_id"
  h ← get receipt "head"
  b ← get receipt "base"
  ok (is_text c name && is_text i action && is_text j job && is_text h head && is_text b base)
