-- ===== src/Records/Coordinator/Sound.antt =====
-- What `validate_checkpoint` of afk_records/coordinator.py has established of a state that it returns.
use afk_pipeline.Prelude.{
  ℕ, String, true, false, ◌&&◌, some, List, [], ◌∷◌, ◌≡◌, ◌⊎◌, refl, sym, ap, ◌∙◌, subst, ltb, All,
  arith, str_eq, eq_iff, any, Bool-cases, inl, inr,
}
use afk_pipeline.Py.Value.{Value, Fields, str, dict, is_text}
use afk_pipeline.Py.Read.{in_set}
use afk_pipeline.Py.Result.{ok, >>=-returns}
use afk_pipeline.Py.Shape.{at}
use afk_pipeline.Py.Facts.{require-then, in_set-str, positive-int}
use afk_pipeline.Records.Coordinator.Topology.{attempt, invalid}
use afk_pipeline.Records.Coordinator.Invocation.{valid_invocation_record}
use afk_pipeline.Records.Coordinator.Checkpoint.{sequence_of, check_records, validate_checkpoint}
use afk_pipeline.Records.Coordinator.Run.{Run}
use afk_pipeline.Records.Coordinator.Walk.{walk-Run, walk-reverse}
use afk_pipeline.Records.Coordinator.Valid.{IsValid}
use afk_pipeline.Records.Coordinator.Stands.{IsCheckpoint, running-Stands, over-Stands}
use afk_pipeline.Records.Coordinator.Checks.{validate_checkpoint-IsChecked}

check_records-All :
    (sequence prior : ℕ) (history : List Value) {n : ℕ}
    → check_records sequence prior history ≡ ok n
    → All IsValid history
unfolding check_records
check_records-All sequence prior [] q = tt
check_records-All sequence prior (record_ ∷ rest) q0 =
    let (valid, e1, q1) = >>=-returns (valid_invocation_record record_ true) _ q0 in
    let (test, q2) = require-then invalid valid _ q1 in
    let (n, e3, q3) = >>=-returns (sequence_of record_) _ q2 in
    let (grows, q4) = require-then invalid (ltb prior n && ltb n sequence) _ q3 in
    (e1 ∙ ap ok test, check_records-All sequence n rest q4)

finished :
    (status : Value)
    → in_set status ("running" ∷ "completed" ∷ "failed" ∷ []) ≡ ok true
    → is_text status "running" ≡ false
    → (status ≡ str "completed") ⊎ (status ≡ str "failed")
finished status known r =
    let (s, e, i) = in_set-str status ("running" ∷ "completed" ∷ "failed" ∷ []) known in
    elim (pick s (sym (ap (λ v. is_text v "running") e) ∙ r) i) [
      | inl c ↦ inl (e ∙ ap str ((eq_iff s "completed").0 c))
      | inr f ↦ inr (e ∙ ap str ((eq_iff s "failed").0 f))
    ]
  where
    pick :
        (s : String)
        → str_eq s "running" ≡ false
        → any (str_eq s) ("running" ∷ "completed" ∷ "failed" ∷ []) ≡ true
        → (str_eq s "completed" ≡ true) ⊎ (str_eq s "failed" ≡ true)
    pick s r e = elim (Bool-cases (str_eq s "completed")) [
      | inl c ↦ inl c
      | inr c ↦ inr (ground arith)
    ]

-- A checkpoint that `validate_checkpoint` accepts stands where the Coordinator's state machine, told as a
-- step relation on records, can come to: its history is a run of it; a running checkpoint waits for or
-- works at the component that the run expects, with the next number; any other has neither component nor
-- invocation, and its terminal is one of its status and history.
pub validate_checkpoint-IsCheckpoint :
    (state : Fields) → validate_checkpoint (dict state) ≡ ok tt → IsCheckpoint state
validate_checkpoint-IsCheckpoint state accepted =
    let c = validate_checkpoint-IsChecked state accepted in
    let back = walk-reverse (some attempt) 1 [] c.history c.walked in
    let valid = check_records-All c.sequence 0 c.history c.numbered in
    let run = walk-Run (some attempt) 1 [] c.history Run.begin refl valid c.walked in
    record {
      history = c.history;
      own_history = c.own_history;
      next_sequence = c.sequence;
      own_sequence = positive-int (at state "next_sequence") c.sequence c.own_sequence;
      valid = valid;
      expected = c.position.0;
      run = subst (λ h. Run h c.position.0) back run;
      stands = elim (Bool-cases (is_text (at state "status") "running")) [
        | inl a ↦
            running-Stands _ _ _ _ c.sequence c.history c.position.0 c.position.1 back a c.matched
              c.placed
        | inr a ↦
            over-Stands _ _ _ _ c.sequence c.history c.position.0 c.position.1 back
              (finished (at state "status") c.known a) a c.matched c.formed c.caused c.placed
      ];
    }
