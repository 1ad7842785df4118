-- ===== src/Orchestrate/Selected.antt =====
-- `selected` of afk_orchestrate/driver.py: what the driver makes of a status answer.
mod Answer
pub use Answer.{item_head, is_about}
unfoldable pub use Answer.{is_unsettled, matching}
use afk_pipeline.Prelude.{
  String, Bool, true, false, not, ◌&&◌, ◌||◌, Option, none, some, List, [], ◌∷◌, if◌then◌else◌,
  str_eq,
}
use afk_pipeline.Py.Value.{Value, str, is_text}
use afk_pipeline.Py.Read.{get, index}
use afk_pipeline.Py.Result.{Result, ok, err, Exc, value_error}
use afk_pipeline.Py.Action.{pure, raise, lift, gets, ◌>>=◌, ◌>>◌}
use afk_pipeline.Orchestrate.State.{
  World, Machine, Driver, State, evidence, nothing, need, pause_run,
}
use afk_pipeline.Orchestrate.Commands.{argument, command}
use afk_pipeline.Orchestrate.Receipts.{revision}
use afk_pipeline.Orchestrate.Validation.{repairable_validation}

-- from the status answer on a job, the job's own record in it
unfoldable pub take_item : World → String → Value → Value → Driver (Option (Value × Value))
unfolding matching
take_item w job result decision = do
  s ← gets (λ m. m.state)
  given ← lift (get decision "base")
  base ← lift (revision given)
  known ← lift (need "base" s.base)
  if not (str_eq base known) then (do pause_run w "base_changed" nothing; pure none) else do
    item ← lift (matching job result)
    start ← lift (item_head item)
    head ← lift (need "head" s.head)
    if is_text start head
        then pure (some (result, item))
        else raise (value_error "selected job has an unexpected starting head")

unfoldable pub judge : World → String → Value → Driver (Option (Value × Value))
unfolding take_item is_unsettled
judge w job result = do
  decision ← lift (index result "decision")
  waits ← lift (is_unsettled result decision)
  if waits then pure none else do
    advice ← lift (get decision "recommendation")
    usable ← lift (if is_text advice "continue" then ok true else repairable_validation result)
    if usable
        then take_item w job result decision
        else do pause_run w "independent_command_requires_attention" (evidence decision); pure none

unfoldable pub selected : World → String → Driver (Option (Value × Value))
unfolding judge
selected w job = do
  s ← gets (λ m. m.state)
  url ← lift (need "pr_url" s.pr_url)
  target ← lift (argument url)
  result ← command w ("status" ∷ target ∷ "--job" ∷ job ∷ [])
  judge w job result
