-- ===== src/Pr/Jobs/Publish.antt =====
-- `publish` of afk_pr/jobs.py: sending a terminal result to GitHub.
use afk_pipeline.Prelude.{
  String, Bool, true, false, not, ◌&&◌, some, List, [], ◌∷◌, if◌then◌else◌, str_eq,
}
use afk_pipeline.Py.Value.{
  Value, Fields, field, end, null, str, dict, is_text, is_str, truthy, lookup,
}
use afk_pipeline.Py.Read.{index, get, get_or, in_set, or_default, has}
use afk_pipeline.Py.Result.{Result, ok, err, Exc, value_error, type_error}
use afk_pipeline.Py.Action.{pure, raise, lift, gets, modify, ◌>>=◌, ◌>>◌, try_except}
use afk_pipeline.Pr.Folder.{Folder, set_field}
use afk_pipeline.Pr.Jobs.Store.{
  Effect, status_set, sent, World, Worker, log_effect, write_phase, read_phase, folder_of,
  error_name, is_handled,
}
use afk_pipeline.Pr.Jobs.Creation.{publish_creation}
use afk_pipeline.Pr.Validation.Evidence.{publication_seal, sealed_execution}

-- what sending comes to: a URL, or nothing to send
pub data Sent : Type 0 where
  published : (url : Value) → Sent
  not_applicable : Sent
  -- a contained error
  unsent : Exc → Sent

abbrev pub of_creation : Value → Sent
of_creation null = not_applicable
of_creation v = published v

-- "success" if passed, else "failure" if a process ran, else "error"
abbrev pub commit_state : Fields → String
commit_state result =
    if is_text (or_default null (lookup "state" result)) "passed"
    then "success"
    else if has result "process"
    then "failure"
    else "error"

-- an "error" that the text quotes has to be a text
abbrev quoted : Value → Result (Unit {0})
quoted v = if truthy v && not (is_str v) then err type_error else ok tt

-- what the text of the summary reads
abbrev pub summary_parts : (job result : Fields) → Worker Unit
summary_parts job result = do
  lift (index (dict job) "head")
  lift (index (dict job) "id")
  validation ← lift (index (dict job) "validation")
  lift (index validation "evidence")
  process ← lift (get_or (dict result) "process" (dict end))
  lift (get process "exit_code")
  lift (quoted (or_default null (lookup "error" result)))

abbrev pub is_published : Sent → Bool
is_published (published url) = true
is_published _ = false

-- the record after the attempt to send it
abbrev pub sent_record : Fields → Sent → Fields
sent_record result (published url) =
    set_field "publication" (str "published") (set_field "url" url result)
sent_record result not_applicable = set_field "publication" (str "not_applicable") result
sent_record result (unsent e) =
    set_field "publication_error" (error_name e) (set_field "publication" (str "failed") result)

module _ (w : World) where
  unfoldable pub send_fixtures : (job result : Fields) → Worker Sent
  send_fixtures job result = do
    log_effect (status_set (commit_state result))
    s ← gets (λ s. s)
    lift (w.fixture_status s.log (commit_state result))
    summary_parts job result
    lift (w.fixture_excerpt s.log)
    log_effect (sent "fixtures")
    t ← gets (λ s. s)
    url ← lift (w.fixture_summary t.log)
    pure (published url)

  unfoldable pub send_other : String → (List Effect → Result Value) → Worker Value
  send_other phase call = do log_effect (sent phase); s ← gets (λ s. s); lift (call s.log)

  -- the text of a review is read first, and the head and the reviewer
  unfoldable pub send_review : (job result : Fields) → Worker Sent
  send_review job result =
      if is_text (or_default null (lookup "state" result)) "completed"
      then (do
        lift (index (dict job) "head")
        s ← gets (λ s. s)
        lift (Folder.read (w.folder s.log) "review.md")
        lift (index (dict result) "reviewer")
        url ← send_other "review" w.review
        pure (published url))
      else pure not_applicable

  unfoldable pub send : String → (job result : Fields) → Worker Sent
  send phase job result =
      if str_eq phase "creation"
      then (do url ← publish_creation w job; pure (of_creation url))
      else if str_eq phase "response"
      then (do url ← send_other phase w.publish_response; pure (published url))
      else if str_eq phase "fixtures"
      then send_fixtures job result
      else send_review job result

  abbrev pub write_publication_seal : String → Fields → Worker Unit
  write_publication_seal phase result =
      if str_eq phase "fixtures"
      then modify (λ s. record s {
        publication_seal =
            some
              (dict (field "sha256" (str (publication_seal w.digest (w.folder s.log) result)) end));
      })
      else pure tt

  -- `try: send; except: ...`
  unfoldable pub sending : String → (job result : Fields) → Worker Sent
  sending phase job result =
      try_except (send phase job result) (λ e. if is_handled e then pure (unsent e) else raise e)

  unfoldable pub publish_record : String → (job result : Fields) → Worker Unit
  publish_record phase job result = do
    r ← sending phase job result
    if is_published r then write_publication_seal phase (sent_record result r) else pure tt
    write_phase phase (dict (sent_record result r))

  abbrev pub check_seal : String → (job result : Fields) → Worker Bool
  check_seal phase job result =
      if str_eq phase "fixtures"
      then (do s ← gets (λ s. s); lift (sealed_execution w.digest (folder_of w s) job result))
      else pure true

  unfoldable pub publish_dict : String → (job : Fields) → Value → Worker Unit
  publish_dict phase job (dict result) = do
    state ← lift (index (dict result) "state")
    active ← lift (in_set state ("queued" ∷ "running" ∷ []))
    if active then raise (value_error "phase has no terminal result to publish") else (do
      sealed ← check_seal phase job result
      if sealed
          then publish_record phase job result
          else raise (value_error "Fixture execution evidence changed; publication refused"))
  publish_dict phase job v = raise type_error

  unfoldable pub publish : String → Worker Unit
  publish phase = do s ← gets (λ s. s); result ← read_phase phase; publish_dict phase s.job result
