-- ===== src/Records/Coordinator/Checks.antt =====
-- The tests that an accepted state has passed in `validate_checkpoint` of afk_records/coordinator.py.
use mathlib.Core.List.{reverse}
use afk_pipeline.Prelude.{
  ℕ, true, ◌&&◌, Option, none, some, List, [], ◌∷◌, ◌≡◌, ap, ◌∙◌, if◌then◌else◌, arith,
}
use afk_pipeline.Py.Value.{Value, Fields, dict, is_null, is_number}
use afk_pipeline.Py.Read.{in_set, has}
use afk_pipeline.Py.Result.{ok, >>=-returns}
use afk_pipeline.Py.Shape.{has_keys, at, positive}
use afk_pipeline.Py.Facts.{require-then}
use afk_pipeline.Records.Coordinator.Topology.{attempt, invalid}
use afk_pipeline.Records.Coordinator.Invocation.{validate_continuation}
use afk_pipeline.Records.Coordinator.Terminal.{validate_terminal, validate_terminal_history}
use afk_pipeline.Records.Coordinator.Checkpoint.{
  Position, check_idle_position, check_active_position, check_records, walk, check_active,
  check_status, check_component, check_history, history_of, number_of, expected_keys,
  validate_history_position, validate_checkpoint,
}

-- one field for each test, with what it returned
pub record IsChecked (state : Fields) : Type 0 where
  pub sequence : ℕ
  pub own_sequence : positive (at state "next_sequence") ≡ some sequence
  pub known : in_set (at state "status") ("running" ∷ "completed" ∷ "failed" ∷ []) ≡ ok true
  pub history : List Value
  pub own_history : history_of (at state "history") ≡ ok history
  pub prior : ℕ
  pub numbered : check_records sequence 0 history ≡ ok prior
  pub matched :
      check_status
        (at state "status")
        (at state "next_component")
        (at state "active_invocation")
        (at state "terminal")
      ≡ ok tt
  pub formed : validate_terminal (at state "status") (at state "terminal") ≡ ok tt
  pub caused :
      validate_terminal_history (at state "status") (at state "terminal") (reverse history) ≡ ok tt
  pub position : Position
  pub walked : walk (some attempt) 1 [] history ≡ ok position
  pub placed :
      (if is_null (at state "active_invocation")
        then check_idle_position (at state "status") (at state "next_component") sequence position
        else check_active_position
            (at state "next_component")
            (at state "active_invocation")
            sequence
            position)
      ≡ ok tt

check_history-IsChecked :
    (state : Fields) (sequence : ℕ) (history : List Value)
    → positive (at state "next_sequence") ≡ some sequence
    → in_set (at state "status") ("running" ∷ "completed" ∷ "failed" ∷ []) ≡ ok true
    → history_of (at state "history") ≡ ok history
    → check_history state sequence history ≡ ok tt
    → IsChecked state
unfolding check_history validate_history_position
check_history-IsChecked state sequence history number known own q0 =
    let status = at state "status" in
    let component = at state "next_component" in
    let active = at state "active_invocation" in
    let terminal = at state "terminal" in
    let (prior, e1, q1) = >>=-returns (check_records sequence 0 history) _ q0 in
    let (u2, e2, q2) = >>=-returns (check_active component active sequence prior) _ q1 in
    let (u3, e3, q3) = >>=-returns (check_status status component active terminal) _ q2 in
    let (u4, e4, q4) = >>=-returns (validate_terminal status terminal) _ q3 in
    let (u5, e5, q5) =
      >>=-returns (validate_terminal_history status terminal (reverse history)) _ q4 in
    let (p, e6, q6) = >>=-returns (walk (some attempt) 1 [] history) _ q5 in
    record {
      sequence = sequence;
      own_sequence = number;
      known = known;
      history = history;
      own_history = own;
      prior = prior;
      numbered = e1;
      matched = e3;
      formed = e4;
      caused = e5;
      position = p;
      walked = e6;
      placed = q6;
    }

pub validate_checkpoint-IsChecked :
    (state : Fields) → validate_checkpoint (dict state) ≡ ok tt → IsChecked state
unfolding validate_checkpoint
validate_checkpoint-IsChecked state q0 =
    let (shape, q1) =
      require-then invalid
        (has_keys (expected_keys state) state && is_number (at state "schema_version") 1) _ q0 in
    let (known, e2, q2) =
      >>=-returns (in_set (at state "status") ("running" ∷ "completed" ∷ "failed" ∷ [])) _ q1 in
    let (fits, q3) = require-then invalid known _ q2 in
    let (u4, e4, q4) =
      >>=-returns
        (if has state "continuation"
          then validate_continuation (at state "continuation")
          else ok tt)
        _ q3 in
    let (sequence, e5, q5) = >>=-returns (number_of (positive (at state "next_sequence"))) _ q4 in
    let (u6, e6, q6) = >>=-returns (check_component (at state "next_component")) _ q5 in
    let (history, e7, q7) = >>=-returns (history_of (at state "history")) _ q6 in
    check_history-IsChecked state sequence history
      (counted (positive (at state "next_sequence")) e5) (e2 ∙ ap ok fits) e7 q7
  where
    counted : (o : Option ℕ) {n : ℕ} → number_of o ≡ ok n → o ≡ some n
    counted none q = cc
    counted (some m) q = ground arith
