-- ===== src/Records/Continuation/Exhausted.antt =====
-- `require_exhausted_structure` and `validate_link` of afk_records/continuation.py. The reading of a
-- component's file and the deeper proofs of a caller are parameters.
use mathlib.Core.List.{reverse}
use afk_pipeline.Prelude.{
  ℕ, zero, suc, ℤ, pos, negsuc, String, Bool, true, false, not, ◌&&◌, ◌||◌, Option, none, some,
  List, [], ◌∷◌, ltb, ◌==◌, length, if◌then◌else◌,
}
use afk_pipeline.Py.Value.{Value, null, bool, int, list, dict, of_items, is_text, is_number, py_eq}
use afk_pipeline.Py.Read.{index, get}
use afk_pipeline.Py.Result.{Result, ok, err, type_error, value_error, ◌>>=◌}
use afk_pipeline.Py.Shape.{require}
use afk_pipeline.Records.Coordinator.Invocation.{validate_continuation}
use afk_pipeline.Records.Coordinator.Terminal.{exhausted, last_real}
use afk_pipeline.Records.Coordinator.Checkpoint.{history_of}

-- row["component"] == component and row["outcome"] == outcome
unfoldable pub is_row : (component outcome : String) → Value → Result Bool
is_row component outcome row = do
  own ← index row "component"
  if is_text own component
      then (do ended ← index row "outcome"; ok (is_text ended outcome))
      else ok false

-- how many responses a history has completed
unfoldable pub completed_responses : List Value → Result ℕ
completed_responses [] = ok 0
completed_responses (row ∷ rows) = do
  done ← is_row "response" "completed" row
  more ← completed_responses rows
  ok (if done then suc more else more)

-- the first of the rows with this component and outcome
unfoldable pub first_row : (component outcome : String) → List Value → Result (Option Value)
first_row component outcome [] = ok none
first_row component outcome (row ∷ rows) =
    let others = first_row component outcome rows in
    do found ← is_row component outcome row; if found then ok (some row) else others

-- the further proofs that a caller may give
pub record Verifiers : Type 0 where
  pub failed_validation : Value → Result (Unit {0})
  pub iteration : Value → Result (Unit {0})

abbrev pub verify :
    Option Verifiers → (Verifiers → Value → Result (Unit {0})) → Value → Result (Unit {0})
verify none proof row = ok tt
verify (some verifiers) proof row = proof verifiers row

module _ (read_component : Value → String → Result Value) (verifiers : Option Verifiers) where
  -- the failed Validation that no response was left to repair
  unfoldable pub exhausted_repair : (limit completed : ℕ) → Value → Result (Unit {0})
  exhausted_repair limit completed row = do
    _ ←
        require (value_error "exhausted continuation requires matching Validation repair evidence")
          (completed == limit)
    output ← read_component row "output.json"
    outcome ← get output "outcome"
    _ ←
        require (value_error "Validation repair outcome disagrees with history")
          (is_text outcome "failed")
    verify verifiers (λ v. v.failed_validation) row

  abbrev pub matching_policy : (limit completed : ℕ) → Value → Result Bool
  matching_policy limit completed (dict policy) = do
    decision ← get (dict policy) "decision"
    most ← get (dict policy) "max_responses"
    done ← get (dict policy) "completed_responses"
    ok (is_text decision "exhausted" && is_number most limit && is_number done completed)
  matching_policy limit completed v = ok false

  abbrev pub policy_of : Value → Result Value
  policy_of (dict output) = get (dict output) "policy"
  policy_of v = ok null

  -- the Iteration that decided it
  unfoldable pub exhausted_iteration : (limit completed : ℕ) → Option Value → Result (Unit {0})
  exhausted_iteration limit completed none =
      err (value_error "exhausted continuation lacks Iteration evidence")
  exhausted_iteration limit completed (some row) = do
    output ← read_component row "output.json"
    _ ← verify verifiers (λ v. v.iteration) row
    policy ← policy_of output
    outcome ← get output "outcome"
    matches ← matching_policy limit completed policy
    require (value_error "exhausted continuation requires matching Iteration evidence")
        (is_text outcome "completed" && matches)

  abbrev pub is_failed_validation : Option Value → Result Bool
  is_failed_validation none = ok false
  is_failed_validation (some row) = is_row "validation" "failed" row

  abbrev pub exhausted_by :
      (limit completed : ℕ)
      → (last : Option Value) → (repair : Bool) → (history : List Value) → Result (Unit {0})
  exhausted_by limit completed (some row) true history = exhausted_repair limit completed row
  exhausted_by limit completed last repair history = do
    iteration ← first_row "iteration" "completed" (reverse history)
    exhausted_iteration limit completed iteration

  unfoldable pub require_exhausted_structure : (state : Value) → (limit : ℕ) → Result (Unit {0})
  require_exhausted_structure state limit = do
    status ← index state "status"
    terminal ← index state "terminal"
    _ ←
        require (value_error "only an exhausted Coordinator Run can be continued")
          (is_text status "completed" && py_eq terminal exhausted)
    rows ← index state "history"
    history ← history_of rows
    completed ← completed_responses history
    last ← last_real (reverse history)
    repair ← is_failed_validation last
    exhausted_by limit completed last repair history

-- xs[:n]
abbrev pub take : ℕ → List Value → List Value
take zero xs = []
take (suc n) [] = []
take (suc n) (x ∷ xs) = x ∷ take n xs

-- as Python compares whole numbers
abbrev pub number : Value → Result ℤ
number (int z) = ok z
number (bool true) = ok (pos 1)
number (bool false) = ok (pos 0)
number v = err type_error

abbrev pub less : ℤ → ℤ → Bool
less (pos a) (pos b) = ltb a b
less (pos a) (negsuc b) = false
less (negsuc a) (pos b) = true
less (negsuc a) (negsuc b) = ltb b a

abbrev pub same_list : List Value → List Value → Bool
same_list xs ys = py_eq (list (of_items xs)) (list (of_items ys))

-- what a link reads of a state
pub record Linked : Type 0 where
  pub history : List Value
  pub next_value : Value
  pub next : ℤ

unfoldable pub linked : (state : Value) → Result Linked
linked state = do
  rows ← index state "history"
  history ← history_of rows
  next_value ← index state "next_sequence"
  next ← number next_value
  ok (record { history = history; next_value = next_value; next = next })

abbrev pub starts_with : (history earlier : List Value) → Bool
starts_with history earlier =
    same_list (take (length earlier) history) earlier && not (ltb (length history) (length earlier))

-- a sealed continuation has done something
abbrev pub has_grown : (status : Value) (prior next : Linked) → Bool
has_grown status prior next =
    is_text status "running"
    || not (length next.history == length prior.history || py_eq next.next_value prior.next_value)

unfoldable pub validate_link :
    (prior_state state input : Value) → (prior_output : String) → Result (Unit {0})
validate_link prior_state state input prior_output = do
  _ ← validate_continuation input
  prior ← linked prior_state
  completed ← completed_responses prior.history
  named ← index input "prior_output"
  done ← index input "completed_responses"
  own ← get state "continuation"
  next ← linked state
  status ← index state "status"
  require (value_error "continuation lineage does not match its predecessor") (
      (is_text named prior_output && py_eq own input && not (less next.next prior.next))
      && (is_number done completed
          && (starts_with next.history prior.history && has_grown status prior next)))
