-- ===== src/Pr/Finish/State.antt =====
-- The intent, the report and the effects of an attempt in afk_pr/finish.py.
use afk_pipeline.Prelude.{String, Bool, true, false, ◌&&◌, Option, List, ◌∷◌, str_eq}
use afk_pipeline.Py.Result.{
  Result, Exc, attribute_error, runtime_error, os_error, subprocess_error, command_failure,
}
use afk_pipeline.Py.Action.{Action, pure, lift, gets, modify, ◌>>=◌, ◌>>◌}

pub data Method : Type 0 where
  merge squash rebase : Method

pub record Intent : Type 0 where
  pub pr_url : String
  pub repository : String
  pub head : String
  pub base : String
  pub method : Method
  pub close_bead : Option String

pub record Observation : Type 0 where
  pub head : String
  pub base : String
  pub repository : String
  pub merged : Bool
  -- state == "open"
  pub is_open : Bool

pub data Merge : Type 0 where
  unknown changed confirmed closed_unmerged not_merged pending : Merge

pub data Request : Type 0 where
  started succeeded failed_or_unknown : Request

pub data Closure : Type 0 where
  not_attempted unknown not_requested not_confirmed already_closed started closed failed : Closure

-- `result`, less its times and names
pub record Report : Type 0 where
  pub completed : Bool
  pub observed : Option Observation
  pub merge : Merge
  pub request : Option Request
  pub closure : Closure
  pub request_error : Option Exc
  pub closure_error : Option Exc
  pub error : Option Exc

-- What an attempt does outside its memory.
pub data Effect : Type 0 where
  seen : Observation → Effect
  saved : Report → Effect
  merge_asked : Intent → Effect
  bead_read close_asked : String → Effect

-- The answers of GitHub and of the task store; they may depend on all that was done before.
pub record World : Type 0 where
  pub observe : List Effect → Result Observation
  pub merge : List Effect → Result (Unit {0})
  pub bead_closed : List Effect → String → Result Bool
  pub close : List Effect → String → Result (Unit {0})

-- The log has the latest effect first.
pub record Attempt : Type 0 where
  pub report : Report
  pub log : List Effect

abbrev pub Finisher : Type 0 → Type 0
Finisher = Action Attempt

abbrev pub set_report : (Report → Report) → Finisher Unit
set_report f = modify (λ a. record a { report = f a.report })

-- jobs.write(directory / "result.json", result)
abbrev pub save : Finisher Unit
save = modify (λ a. record a { log = saved a.report ∷ a.log })

abbrev pub note_seen : Observation → Attempt → Attempt
note_seen o a = record a { log = seen o ∷ a.log }

unfoldable pub observe : World → Finisher Observation
observe w = do a ← gets (λ a. a); o ← lift (w.observe a.log); modify (note_seen o); pure o

abbrev pub matches : Intent → Observation → Bool
matches intent o =
    str_eq intent.head o.head && str_eq intent.base o.base && str_eq intent.repository o.repository

-- the errors that are recorded where an outside request may have had its effect all the same
abbrev pub is_caught : Exc → Bool
is_caught os_error = true
is_caught (runtime_error _) = true
is_caught subprocess_error = true
is_caught (command_failure _ _) = true
is_caught _ = false

-- the errors that end an attempt with a report all the same
abbrev pub is_reported : Exc → Bool
is_reported attribute_error = false
is_reported _ = true
