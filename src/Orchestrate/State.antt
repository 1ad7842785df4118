-- ===== src/Orchestrate/State.antt =====
-- The run state of afk_orchestrate/driver.py, what it records, and the world that it runs in.
use Prim.Native.String.{◌++◌ as append}
use afk_pipeline.Prelude.{
  ℕ, ◌+◌, String, Option, none, some, List, [], ◌∷◌, ◌++◌, if◌then◌else◌, leb,
}
use afk_pipeline.Py.Value.{Value}
use afk_pipeline.Py.Result.{Exc, Result, ok, err, key_error}
use afk_pipeline.Py.Action.{Action, gets, modify, ◌>>=◌, ◌>>◌}
use afk_pipeline.Py.Text.{decimal}

pub data Status : Type 0 where
  running paused ready_for_merge : Status

-- `other` is a stage that no version of the driver writes.
pub data Stage : Type 0 where
  creation_submit creation_wait review_submit response_submit review_wait response_wait : Stage
  other : String → Stage

-- state["details"]. The message of an exception is kept as the exception.
pub data Details : Type 0 where
  nothing : Details
  evidence : Value → Details
  command_error : (command : String) (diagnostic : Option String) → Stage → Details
  exception : Exc → Stage → Details

-- An entry of state["events"], less its time.
pub data Event : Type 0 where
  created resumed : Event
  transition : Stage → Event
  pause : (reason : String) → Event
  ready : (head review_job : String) → Event
  observation_retry : (attempt : ℕ) → Details → Event
  budget_extended : (old_limit new_limit added : ℕ) → Event
  selected_head : String → Event

-- A key that the driver adds later is an option; the URL stays a JSON value, as the code leaves it.
pub record State : Type 0 where
  pub id : String
  pub bead_id : String
  pub config : String
  pub status : Status
  pub stage : Stage
  pub repairs : ℕ
  pub max_repairs : ℕ
  pub generation : ℕ
  pub created_at : String
  pub updated_at : String
  pub events : List (String × Event)
  pub pr_url : Option Value
  pub creation_job : Option String
  pub active_job : Option String
  pub head : Option String
  pub base : Option String
  pub reason : Option String
  pub details : Details
  pub failures : ℕ
  pub failing_command : Option String

-- How a child process ended: not started or timed out, or with an exit code and what `json.loads`
-- read from its output.
pub data Process : Type 0 where
  broken : Process
  exited : (code : ℕ) (output : Option Value) → Process

-- The world outside the driver. Its answers may depend on all that was asked before.
pub record World : Type 0 where
  pub run : List (List String) → List String → Process
  pub diagnostic : List (List String) → Option String
  pub now : List (List String) → List (String × Event) → String

-- The state that a step mutates, and the command lines that it has run.
pub record Machine : Type 0 where
  pub state : State
  pub calls : List (List String)

abbrev pub Driver : Type 0 → Type 0
Driver = Action Machine

abbrev pub with_state : (State → State) → Machine → Machine
with_state f m = record m { state = f m.state }

abbrev pub update : (State → State) → Driver Unit
update f = modify (with_state f)

-- state[key], where the key may be missing
abbrev pub need : {A : Type 0} → String → Option A → Result A
need key none = err (key_error key)
need key (some a) = ok a

module _ (w : World) where
  -- `record`
  unfoldable pub log_event : Event → Machine → Machine
  log_event event m =
      let at = w.now m.calls m.state.events in
      record m {
        state = record m.state { updated_at = at; events = m.state.events ++ (at, event) ∷ [] };
      }

  unfoldable pub record_event : Event → Driver Unit
  unfolding log_event
  record_event event = modify (log_event event)

  unfoldable pub move_to : Stage → Driver Unit
  unfolding record_event
  move_to stage = do update (λ s. record s { stage = stage }); record_event (transition stage)

  unfoldable pub pause_run : String → Details → Driver Unit
  unfolding record_event
  pause_run reason details = do
    update (λ s. record s { status = paused; reason = some reason; details = details })
    record_event (pause reason)

abbrev pub action_id : State → String → String
action_id s command = append "orch-" (
    append s.id (
      append "-" (
        append (decimal s.generation)
          (append "-" (append command (append "-" (decimal s.repairs)))))))

unfoldable pub request_repair : World → Driver Unit
unfolding move_to pause_run
request_repair w = do
  s ← gets (λ m. m.state)
  if leb s.max_repairs s.repairs
      then pause_run w "repair_limit_reached" nothing
      else do update (λ t. record t { repairs = t.repairs + 1 }); move_to w response_submit
