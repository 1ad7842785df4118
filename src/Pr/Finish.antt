-- ===== src/Pr/Finish.antt =====
-- afk_pr/finish.py: the explicit merge of a pull request and the closure of its selected Bead.
pub mod State
pub mod Safety
use afk_pipeline.Prelude.{
  String, Bool, true, false, not, ◌&&◌, ◌||◌, Option, none, some, List, [], ◌∷◌, if◌then◌else◌,
  str_eq,
}
use afk_pipeline.Py.Result.{Result, ok, err, Exc, value_error}
use afk_pipeline.Py.Action.{Action, pure, raise, lift, gets, modify, ◌>>=◌, ◌>>◌, try_except}
use afk_pipeline.Pr.Finish.State.{
  Method, Intent, Observation, Merge, unknown, changed, confirmed, closed_unmerged, not_merged,
  pending, Request, started, succeeded, failed_or_unknown, Closure, not_attempted, not_requested,
  not_confirmed, already_closed, closed, failed, Report, Effect, seen, saved, merge_asked,
  bead_read, close_asked, World, Attempt, Finisher, set_report, save, observe, matches, is_caught,
  is_reported,
}

abbrev pub log_effect : Effect → Finisher Unit
log_effect e = modify (λ a. record a { log = e ∷ a.log })

-- `github.merge`
unfoldable pub merge_call : World → Intent → Finisher Unit
merge_call w intent = do log_effect (merge_asked intent); a ← gets (λ a. a); lift (w.merge a.log)

unfoldable pub merge_failed : Exc → Finisher Unit
merge_failed e =
    if is_caught e
    then set_report (λ r. record r { request = some failed_or_unknown; request_error = some e })
    else raise e

-- a failure of the request is recorded and not passed on
unfoldable pub ask_merge : World → Intent → Finisher Unit
ask_merge w intent =
    try_except (merge_call w intent >> set_report (λ r. record r { request = some succeeded }))
      merge_failed

abbrev is_unsure : Option Request → Bool
is_unsure (some failed_or_unknown) = true
is_unsure _ = false

abbrev outcome : Intent → Observation → Option Request → Merge
outcome intent o request =
    if not (matches intent o)
    then changed
    else if o.merged
    then confirmed
    else if is_unsure request
    then not_merged
    else pending

-- the observation after a request decides, since a failed request may have merged
unfoldable pub resolve_merge : World → Intent → Finisher Unit
resolve_merge w intent = do
  o ← observe w
  set_report (λ r. record r { observed = some o; merge = outcome intent o r.request })

-- what follows an observation of an open, unmerged pull request
unfoldable pub merge_open : World → Intent → Finisher Unit
merge_open w intent = do
  set_report (λ r. record r { request = some started })
  save
  ask_merge w intent
  resolve_merge w intent

unfoldable pub request_seen : World → Intent → Observation → Finisher Unit
request_seen w intent o = do
  set_report (λ r. record r { observed = some o })
  if not (matches intent o)
      then set_report (λ r. record r { merge = changed })
      else if o.merged
      then set_report (λ r. record r { merge = confirmed })
      else if not o.is_open
      then set_report (λ r. record r { merge = closed_unmerged })
      else merge_open w intent

unfoldable pub request_merge : World → Intent → Finisher Unit
request_merge w intent = do o ← observe w; request_seen w intent o

unfoldable pub read_bead : World → String → Finisher Bool
read_bead w bead = do
  log_effect (bead_read bead)
  a ← gets (λ a. a)
  lift (w.bead_closed a.log bead)

-- `close_bead`
unfoldable pub close_call : World → String → Finisher Unit
close_call w bead = do log_effect (close_asked bead); a ← gets (λ a. a); lift (w.close a.log bead)

unfoldable pub close_failed : Exc → Finisher Unit
close_failed e =
    if is_caught e then set_report (λ r. record r { closure_error = some e }) else raise e

-- a lost response can hide a successful close
unfoldable pub ask_close : World → String → Finisher Unit
ask_close w bead = try_except (close_call w bead) close_failed

-- the state of the Bead after a request decides
unfoldable pub resolve_close : World → String → Finisher Unit
resolve_close w bead = do
  set_report (λ r. record r { closure = Closure.unknown })
  done ← read_bead w bead
  set_report (λ r. record r { closure = if done then closed else failed })

unfoldable pub close_open : World → String → Finisher Unit
close_open w bead = do
  set_report (λ r. record r { closure = Closure.started })
  save
  ask_close w bead
  resolve_close w bead

unfoldable pub close_read : World → String → Bool → Finisher Unit
close_read w bead done =
    if done then set_report (λ r. record r { closure = already_closed }) else close_open w bead

unfoldable pub close_seen : World → Intent → String → Observation → Finisher Unit
close_seen w intent bead o = do
  set_report (λ r. record r { observed = some o })
  if not (matches intent o) || not o.merged
      then set_report (λ r. record r { closure = not_confirmed })
      else do done ← read_bead w bead; close_read w bead done

unfoldable pub close_selected : World → Intent → String → Finisher Unit
close_selected w intent bead = do
  set_report (λ r. record r { closure = Closure.unknown })
  o ← observe w
  close_seen w intent bead o

abbrev pub on_bead : Option String → (String → Finisher Unit) → Finisher Unit → Finisher Unit
on_bead none act otherwise = otherwise
on_bead (some bead) act otherwise = act bead

unfoldable pub close_after_merge : World → Intent → Finisher Unit
close_after_merge w intent =
    on_bead intent.close_bead (close_selected w intent)
      (set_report (λ r. record r { closure = not_requested }))

abbrev is_confirmed : Merge → Bool
is_confirmed confirmed = true
is_confirmed _ = false

abbrev is_settled : Closure → Bool
is_settled not_requested = true
is_settled already_closed = true
is_settled closed = true
is_settled _ = false

-- an intent whose task is the empty text has none to read here
unfoldable pub check_bead : World → Intent → Finisher Unit
check_bead w intent =
    on_bead intent.close_bead
      (λ bead. if str_eq bead "" then pure tt else read_bead w bead >> pure tt) (pure tt)

unfoldable pub attempt : World → Intent → Finisher Unit
attempt w intent = do
  check_bead w intent
  request_merge w intent
  r ← gets (λ a. a.report)
  if is_confirmed r.merge then close_after_merge w intent else pure tt
  after ← gets (λ a. a.report)
  if is_confirmed after.merge && is_settled after.closure
      then set_report (λ q. record q { completed = true })
      else pure tt

abbrev first_report : Report
first_report = record {
  completed = false;
  observed = none;
  merge = unknown;
  request = none;
  closure = not_attempted;
  request_error = none;
  closure_error = none;
  error = none;
}

unfoldable pub attempt_failed : Exc → Finisher Unit
attempt_failed e = if is_reported e then set_report (λ r. record r { error = some e }) else raise e

-- the attempt of `finish` under the lock of its preview
unfoldable pub apply : World → Intent → Finisher Unit
apply w intent = do save; try_except (attempt w intent) attempt_failed; save

abbrev pub finish : World → Intent → Attempt
finish w intent = (apply w intent (record { report = first_report; log = [] })).1
