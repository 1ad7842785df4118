-- ===== src/Records/Continuation/Lineage.antt =====
-- `continuation_directories` and `observe_lineage` of afk_records/continuation.py. The directories and
-- their files are a parameter, as are the functions that the callers pass.
pub mod Chain
use Prim.Native.String.{◌++◌ as append}
use afk_pipeline.Prelude.{
  ℕ, suc, pos, String, Bool, true, false, not, ◌&&◌, ◌||◌, Option, none, some, List, [], ◌∷◌, ◌++◌,
  ltb, all, if◌then◌else◌, str_eq,
}
use afk_pipeline.Py.Value.{Value, null, bool, int, str, dict, empty, is_text}
use afk_pipeline.Py.Read.{index}
use afk_pipeline.Py.Result.{Result, ok, err, Exc, type_error, value_error, ◌>>=◌}
use afk_pipeline.Py.Shape.{require, is_some}
use afk_pipeline.Py.Text.{decimal}
use afk_pipeline.Records.Coordinator.Invocation.{validate_continuation, two_digits}
use afk_pipeline.Records.Coordinator.Checkpoint.{validate_checkpoint}
use afk_pipeline.Records.Coordinator.Output.{validate_output, require_terminal_pair}
use afk_pipeline.Records.Continuation.Exhausted.{
  Verifiers, require_exhausted_structure, validate_link,
}

-- what stands at a path; a link is told first, also one that leads nowhere
pub data Kind : Type 0 where
  link missing directory other : Kind

abbrev pub is_directory : Kind → Bool
is_directory Kind.directory = true
is_directory k = false

-- the continuations/ directory of a Coordinator: its entries sorted by name, and the files in them
pub record Continuations : Type 0 where
  pub root : Kind
  pub entries : List (String × Kind)
  pub read_json : (name file : String) → Result Value
  -- whether a continuation's output.json is there, or a link
  pub has_output : (name : String) → Bool

-- names is the list "01", "02", ... from the number on
abbrev pub are_numbered : ℕ → List (String × Kind) → Bool
are_numbered n [] = true
are_numbered n ((name, kind) ∷ rest) =
    str_eq name (two_digits n) && is_directory kind && are_numbered (suc n) rest

abbrev pub names_of : List (String × Kind) → List String
names_of [] = []
names_of ((name, kind) ∷ rest) = name ∷ names_of rest

unfoldable pub continuation_directories : Continuations → Result (List String)
continuation_directories c = of_kind c.root
  where
    of_kind : Kind → Result (List String)
    of_kind Kind.missing = ok []
    of_kind Kind.directory = do
      _ ← require (value_error "continuation directories are malformed") (are_numbered 1 c.entries)
      ok (names_of c.entries)
    of_kind k = err (value_error "continuations must be a real directory")

-- ObservedContinuation; the Coordinator's own directory has no name here
pub record Observed : Type 0 where
  pub directory : Option String
  pub input : Value
  pub state : Value
  pub output : Option Value

-- what a caller passes; the roots are the continuations so far, after the Coordinator's own directory
pub record Observer : Type 0 where
  pub read_component : (roots : List String) → Value → String → Result Value
  pub exhaustion_verifiers : Option (List String → Verifiers)
  pub allow_running : Bool
  pub terminal_continuation : Option String
  pub defer_error : Option (Exc → Bool)

-- what the loop carries from one continuation to the next
pub record Prior : Type 0 where
  pub state : Value
  pub limit : ℕ
  pub output : String
  pub roots : List String

-- an error that is deferred is kept
unfoldable pub deferred : Option (Exc → Bool) → Result (Unit {0}) → Result (List Exc)
deferred defer (ok u) = ok []
deferred none (err e) = err e
deferred (some defer) (err e) = if defer e then ok (e ∷ []) else err e

abbrev pub verifiers_at : Option (List String → Verifiers) → List String → Option Verifiers
verifiers_at none roots = none
verifiers_at (some make) roots = some (make roots)

abbrev pub effective : Value → Result ℕ
effective (int (pos n)) = ok n
effective (bool true) = ok 1
effective v = err type_error

abbrev pub is_empty : List String → Bool
is_empty [] = true
is_empty (n ∷ ns) = false

-- the sealed continuation of this name, if there is one
abbrev pub named : (name : String) → List Observed → Option Observed
named name [] = none
named name (item ∷ rest) = elim item.directory [
  | none ↦ named name rest
  | some own ↦ if str_eq own name && is_some item.output then some item else named name rest
]

abbrev pub original : (state output : Value) → Observed
original state output = record {
  directory = none;
  input = empty;
  state = state;
  output = some output;
}

unfoldable pub selection :
    Option String → (state output : Value) → List Observed → Result (Option Observed)
selection none state output items = ok none
selection (some name) state output items =
    if str_eq name "original" then ok (some (original state output)) else found (named name items)
  where
    found : Option Observed → Result (Option Observed)
    found none = err (value_error "selected continuation is not a sealed terminal")
    found (some item) = ok (some item)

-- ContinuationObservation: the last of the continuations is the active one if it has no output
pub record Lineage : Type 0 where
  pub continuations : List Observed
  pub selected : Option Observed
  pub directories : List String
  pub deferred_errors : List Exc

module _ (c : Continuations) (o : Observer) where
  -- the output of a continuation that is over, and none of one that is at work
  unfoldable pub read_output : (last : Bool) (name : String) (state : Value) → Result (Option Value)
  read_output last name state = do
    status ← index state "status"
    if is_text status "running"
        then (do
          _ ←
              require (value_error "newest continuation is not terminal")
                (o.allow_running && last && not (c.has_output name))
          ok none)
        else (do
          output ← c.read_json name "output.json"
          _ ← validate_output output
          _ ← require_terminal_pair state output
          ok (some output))

  -- one continuation, and the error that was deferred
  unfoldable pub observe_one : Prior → (last : Bool) (name : String) → Result (Observed × List Exc)
  observe_one prior last name = do
    errors ← deferred o.defer_error (
        require_exhausted_structure (o.read_component prior.roots)
          (verifiers_at o.exhaustion_verifiers prior.roots) prior.state prior.limit)
    input ← c.read_json name "input.json"
    _ ← validate_continuation input
    state ← c.read_json name "state.json"
    _ ← validate_checkpoint state
    _ ← validate_link prior.state state input prior.output
    output ← read_output last name state
    ok (record { directory = some name; input = input; state = state; output = output }, errors)

  unfoldable pub prior_of : Prior → (name : String) → Observed → Result Prior
  prior_of prior name item = do
    value ← index item.input "effective_max_responses"
    limit ← effective value
    ok (record {
      state = item.state;
      limit = limit;
      output = append (append "../" name) "/output.json";
      roots = prior.roots ++ name ∷ [];
    })

  -- the continuations in their order, and the errors; only the last can be at work
  unfoldable pub observe : Prior → List String → Result (List Observed × List Exc)
  observe prior [] = ok ([], [])
  observe prior (name ∷ rest) = do
    (item, errors) ← observe_one prior (is_empty rest) name
    (items, more) ←
        if is_some item.output
        then (do next ← prior_of prior name item; observe next rest)
        else ok ([], [])
    ok (item ∷ items, errors ++ more)

  unfoldable pub observe_lineage : (state output : Value) → (limit : ℕ) → Result Lineage
  observe_lineage state output limit = do
    directories ← continuation_directories c
    _ ← require_terminal_pair state output
    (items, errors) ←
        observe (record { state = state; limit = limit; output = "../../output.json"; roots = [] })
          directories
    selected ← selection o.terminal_continuation state output items
    ok (record {
      continuations = items;
      selected = selected;
      directories = directories;
      deferred_errors = errors;
    })
