-- ===== src/Orchestrate/Selected/Answer.antt =====
-- The tests of `selected` on a status answer.
use afk_pipeline.Prelude.{String, Bool, true, false, not, ◌&&◌, ◌||◌, List, [], ◌∷◌, if◌then◌else◌}
use afk_pipeline.Py.Value.{Value, is_text, empty, truthy}
use afk_pipeline.Py.Read.{get, get_or, index, in_set, iter, dict_items}
use afk_pipeline.Py.Result.{Result, ok, err, value_error, any_of, ◌>>=◌}
use afk_pipeline.Orchestrate.Validation.{is_other_reason}

-- a phase whose worker has not finished, or is still publishing
unfoldable pub is_active : String × Value → Result Bool
is_active (name, phase) = do
  state ← get phase "state"
  queued ← in_set state ("queued" ∷ "running" ∷ [])
  publication ← get phase "publication"
  worker ← get phase "worker_observation"
  ok (queued || is_text publication "pending" && is_text worker "active")

unfoldable pub has_active : Value → Result Bool
unfolding is_active
has_active item = do
  phases ← index item "phases"
  records ← dict_items phases
  any_of is_active records

-- `wait`, or a failed fixture beside work that still runs
unfoldable pub is_unsettled : Value → Value → Result Bool
unfolding has_active any_of
is_unsettled result decision = do
  advice ← get decision "recommendation"
  reasons ← get decision "reasons"
  if is_text advice "wait"
      then ok true
      else if not (is_text advice "pause" && truthy reasons)
      then ok false
      else do
        listed ← iter reasons
        other ← any_of is_other_reason listed
        if other
            then ok false
            else do jobs ← index result "jobs"; items ← iter jobs; any_of has_active items

-- item.get("job", {}).get("id") == job
abbrev pub is_about : String → Value → Result Bool
is_about job item = do
  own ← get_or item "job" empty
  identifier ← get own "id"
  ok (is_text identifier job)

unfoldable pub with_id : String → List Value → Result (List Value)
with_id job [] = ok []
with_id job (item ∷ rest) =
    let later = with_id job rest in
    do own ← is_about job item; kept ← later; ok (if own then item ∷ kept else kept)

abbrev pub only_one : List Value → Result Value
only_one (item ∷ []) = ok item
only_one _ = err (value_error "selected job unavailable")

unfoldable pub matching : String → Value → Result Value
unfolding with_id
matching job result = do
  jobs ← index result "jobs"
  listed ← iter jobs
  found ← with_id job listed
  only_one found

-- item["job"]["head"]
abbrev pub item_head : Value → Result Value
item_head item = do own ← index item "job"; index own "head"
