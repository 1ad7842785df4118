-- ===== src/Orchestrate/Run.antt =====
-- `create`, `advance` and `resume` of afk_orchestrate/driver.py, and the loop of `worker` in
-- afk_orchestrate/__main__.py. A run file is an option: `none` where it does not exist.
use Prim.Native.Char.{code}
use Prim.Native.String.{[] as empty_text, ◌∷◌ as char_cons}
use afk_pipeline.Prelude.{
  String, ℕ, zero, suc, ◌+◌, ℤ, pos, Bool, true, false, not, ◌&&◌, ◌||◌, Option, none, some, List,
  [], ◌∷◌, if◌then◌else◌, str_eq, leb, ◌==◌,
}
use afk_pipeline.Py.Value.{is_text}
use afk_pipeline.Py.Read.{index}
use afk_pipeline.Py.Result.{Result, ok, err, value_error, os_error}
use afk_pipeline.Py.Action.{pure, raise, lift, gets, ◌>>=◌, ◌>>◌}
use afk_pipeline.Orchestrate.State.{
  World, Machine, Driver, State, Status, running, ready_for_merge, creation_submit, review_submit,
  nothing, created, resumed, budget_extended, selected_head, need, update, log_event, record_event,
  move_to,
}
use afk_pipeline.Orchestrate.Commands.{argument, invoke}
use afk_pipeline.Orchestrate.Receipts.{revision}
use afk_pipeline.Orchestrate.Step.{step}

is_alnum : ℕ → Bool
is_alnum c = (leb b'0' c && leb c b'9') || (leb b'a' c && leb c b'z') || (leb b'A' c && leb c b'Z')

-- re.fullmatch(r"[A-Za-z0-9._-]{0,n}", s)
bead_tail : ℕ → String → Bool
unfolding is_alnum
bead_tail n empty_text = true
bead_tail zero (char_cons c s) = false
bead_tail (suc n) (char_cons c s) =
    (is_alnum (code c) || code c == b'.' || code c == b'_' || code c == b'-') && bead_tail n s

unfoldable pub is_bead_id : String → Bool
unfolding is_alnum bead_tail
is_bead_id empty_text = false
is_bead_id (char_cons c s) = is_alnum (code c) && bead_tail 127 s

abbrev between : ℕ → ℕ → ℤ → Bool
between low high (pos n) = leb low n && leb n high
between low high _ = false

abbrev pub to_count : ℤ → ℕ
to_count (pos n) = n
to_count _ = 0

-- the state that `create` saves
unfoldable pub fresh : World → (String → String) → String → String → ℕ → State
unfolding log_event
fresh w digest bead config max_repairs =
    (log_event w created (record {
      state = record {
        id = digest bead;
        bead_id = bead;
        config = config;
        status = running;
        stage = creation_submit;
        repairs = 0;
        max_repairs = max_repairs;
        generation = 0;
        created_at = w.now [] [];
        updated_at = "";
        events = [];
        pr_url = none;
        creation_job = none;
        active_job = none;
        head = none;
        base = none;
        reason = none;
        details = nothing;
        failures = 0;
        failing_command = none;
      };
      calls = [];
    })).state

abbrev existing : String → String → State → Result (State × Bool)
existing bead config s =
    if str_eq s.bead_id bead && str_eq s.config config
    then ok (s, false)
    else err (value_error "existing run configuration differs")

-- `digest` names the run file of a bead. `before` and `after` are what the file holds when it is read
-- without the lock and with it, and `held` says that another process has the lock. The result is the
-- state in the file, and whether this call wrote it.
unfoldable pub create :
    World
    → (digest : String → String) (bead config : String) (max_repairs : ℤ)
    → (before : Option State) (held : Bool) (after : Option State) → Result (State × Bool)
unfolding is_bead_id fresh
create w digest bead config max_repairs before held after =
    if not (is_bead_id bead)
    then err (value_error "invalid bead ID")
    else if not (between 0 5 max_repairs)
    then err (value_error "max repairs must be between 0 and 5")
    else elim before [
      | some s ↦ existing bead config s
      | none ↦ if held then err os_error else elim after [
        | some s ↦ existing bead config s
        | none ↦ ok (fresh w digest bead config (to_count max_repairs), true)
      ]
    ]

-- One locked tick: the new state of the file.
unfoldable pub advance : World → Bool → List (List String) → Option State → Result Machine
unfolding step
advance w true calls file = err os_error
advance w false calls none = err os_error
advance w false calls (some s) = ok (step w (record { state = s; calls = calls }))

-- The loop of `worker`, which saves the state after each step. `none` means that the fuel ran out.
unfoldable pub worker : ℕ → World → Machine → Option Machine
unfolding step
worker zero w m = none
worker (suc fuel) w m = elim m.state.status [ running ↦ worker fuel w (step w m) | _ ↦ some m ]

module _ (w : World) where
  unfoldable pub extend_budget : Option ℤ → Driver Unit
  extend_budget none = pure tt
  extend_budget (some added) = do
    s ← gets (λ m. m.state)
    let limit = s.max_repairs + to_count added
    update (λ t. record t { max_repairs = limit })
    record_event w (budget_extended s.max_repairs limit (to_count added))

  unfoldable pub select_head : Driver Unit
  select_head = do
    s ← gets (λ m. m.state)
    url ← lift (need "pr_url" s.pr_url)
    target ← lift (argument url)
    answer ← invoke w ("context" ∷ target ∷ [])
    context ← lift (index answer "pull_request")
    state ← lift (index context "state")
    if not (is_text state "open") then raise (value_error "PR must be open") else do
      their_head ← lift (index context "head")
      given_head ← lift (index their_head "sha")
      head ← lift (revision given_head)
      their_base ← lift (index context "base")
      given_base ← lift (index their_base "sha")
      base ← lift (revision given_base)
      update (λ t. record t { head = some head; base = some base; generation = t.generation + 1 })
      move_to w review_submit
      record_event w (selected_head head)

  unfoldable pub set_running : Driver Unit
  set_running = do
    update (λ t. record t {
      failures = 0;
      failing_command = none;
      status = running;
      reason = none;
      details = nothing;
    })
    record_event w resumed

abbrev is_ready : Status → Bool
is_ready ready_for_merge = true
is_ready _ = false

abbrev pub is_some : Option ℤ → Bool
is_some none = false
is_some (some _) = true

abbrev pub allowed : Option ℤ → Bool
allowed none = true
allowed (some n) = between 1 5 n

-- what follows the extension of the budget; `extended` says that there was one
unfoldable pub resume_from : World → Bool → Bool → Driver Bool
unfolding select_head set_running
resume_from w review_current_head extended = do
  s ← gets (λ m. m.state)
  if review_current_head
      then (do select_head w; set_running w; pure true)
      else if is_ready s.status
      then pure extended
      else (do set_running w; pure true)

-- The body of `resume` under the lock; the answer says whether the state is written.
unfoldable pub resume_state : World → Bool → Option ℤ → Driver Bool
resume_state w review_current_head added = do
  extend_budget w added
  resume_from w review_current_head (is_some added)

abbrev pub kept : Machine → Result Bool × Machine → Result Machine
kept m (ok true, m') = ok m'
kept m (ok false, m') = ok (record m { calls = m'.calls })
kept m (err e, m') = err e

-- An error leaves the file as it was. The result is the machine with the state of the file.
unfoldable pub resume : World → Bool → Option ℤ → Bool → Machine → Result Machine
resume w review_current_head added held m =
    if not (allowed added)
    then err (value_error "added repairs must be between 1 and 5")
    else if held
    then err os_error
    else kept m (resume_state w review_current_head added m)
