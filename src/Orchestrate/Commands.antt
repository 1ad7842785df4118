-- ===== src/Orchestrate/Commands.antt =====
-- `Commands` of afk_orchestrate/driver.py: one child process, and when its answer counts as failed.
use afk_pipeline.Prelude.{
  String, Bool, true, not, ◌||◌, Option, none, some, List, [], ◌∷◌, ◌++◌, if◌then◌else◌, ◌==◌,
  str_eq,
}
use afk_pipeline.Py.Value.{Value, str, dict, is_text}
use afk_pipeline.Py.Read.{get}
use afk_pipeline.Py.Result.{Result, ok, err, type_error, command_failure}
use afk_pipeline.Py.Action.{pure, lift, gets, modify, ◌>>=◌, ◌>>◌}
use afk_pipeline.Orchestrate.State.{World, Driver, State, Process, broken, exited, update}

-- An argument of `subprocess.run`: another value than a text raises TypeError before the run.
unfoldable pub argument : Value → Result String
argument (str s) = ok s
argument _ = err type_error

abbrev pub is_failed : Value → Bool
is_failed (dict fs) = elim (get (dict fs) "outcome") [ ok v ↦ is_text v "failed" | err e ↦ true ]
is_failed _ = true

abbrev pub first_word : List String → String
first_word [] = ""
first_word (c ∷ _) = c

-- The command line is `afk`, the arguments, and `--config` for all commands but `context`.
abbrev command_line : String → List String → List String
command_line config arguments =
    if str_eq (first_word arguments) "context"
    then arguments
    else arguments ++ "--config" ∷ config ∷ []

-- Whatever goes wrong is one CommandFailure, which names the command and its retained diagnostic.
abbrev pub answer : String → Option String → Process → Result Value
answer command diagnostic broken = err (command_failure command diagnostic)
answer command diagnostic (exited code none) = err (command_failure command diagnostic)
answer command diagnostic (exited code (some value)) =
    if not (code == 0) || is_failed value
    then err (command_failure command diagnostic)
    else ok value

abbrev pub clear_if : Option String → String → State → State
clear_if none command s = s
clear_if (some c) command s =
    if str_eq c command then record s { failures = 0; failing_command = none } else s

unfoldable pub invoke : World → List String → Driver Value
invoke w arguments = do
  m ← gets (λ m. m)
  let line = command_line m.state.config arguments
  modify (λ m. record m { calls = m.calls ++ line ∷ [] })
  lift (answer (first_word arguments) (w.diagnostic m.calls) (w.run m.calls line))

-- `commands` of `step`: an answer ends a series of failed observations of the same command.
unfoldable pub command : World → List String → Driver Value
unfolding invoke
command w arguments = do
  value ← invoke w arguments
  update (λ s. clear_if s.failing_command (first_word arguments) s)
  pure value
