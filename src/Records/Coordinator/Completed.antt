-- ===== src/Records/Coordinator/Completed.antt =====
-- The output that `output_from_state` of afk_records/continuation.py makes of an accepted checkpoint that
-- is completed is one that `validate_output` of afk_records/coordinator.py accepts.
use mathlib.Core.List.{reverse}
use afk_pipeline.Prelude.{
  ℕ, suc, pos, String, Bool, true, false, ◌==◌, some, List, [], ◌∷◌, ◌≡◌, refl, sym, ap, ◌∙◌, subst,
  if◌then◌else◌, length, all, eq_iff, arith, &&-true, ==_iff,
}
use afk_pipeline.Py.Value.{
  Value, Values, Fields, field, end, null, bool, int, str, list, dict, items, is_text, is_null,
  entries,
}
use afk_pipeline.Py.Read.{index, has}
use afk_pipeline.Py.Result.{Result, ok, err, >>=-returns}
use afk_pipeline.Py.Shape.{has_keys, at}
use afk_pipeline.Py.Facts.{is_ok, bind-ok, require-passes, require-true, index-at, taken}
use afk_pipeline.Records.Coordinator.Topology.{attempt, invalid}
use afk_pipeline.Records.Coordinator.Terminal.{
  check_decision, validate_terminal, validate_terminal_history,
}
use afk_pipeline.Records.Coordinator.Checkpoint.{
  history_of, check_records, walk, Position, length_of, check_active, check_idle_position,
  validate_history_position, check_history, validate_checkpoint,
}
use afk_pipeline.Records.Coordinator.Output.{
  checkpoint_of, completed_terminal, validate_output, output_of_completed, output_from_state,
}
use afk_pipeline.Records.Coordinator.Checks.{validate_checkpoint-IsChecked}
use afk_pipeline.Records.Coordinator.Walk.{walk-reverse}
use afk_pipeline.Records.Coordinator.Stands.{length-reverse_aux, check_over, numbered}

-- the output of a completed run
completed_output : (decision : Value) (history : Values) → Fields
completed_output decision history = field "schema_version" (int (pos 1)) (
    field "outcome" (str "completed")
      (field "decision" decision (field "history" (list history) end)))

decided : Value → Value
decided decision = dict (field "decision" decision end)

idle-passes :
    (k : ℕ) (p : Position)
    → length_of p.1 ≡ k
    → check_idle_position (str "completed") null (suc k) p ≡ ok tt
unfolding check_idle_position
idle-passes k (expected, prior) h = require-passes invalid _ (ground arith)

module _ (decision : Value) (vs : Values) (prior : ℕ) (p : Position) where
  completed-accepted :
      check_records (suc (length_of (items vs))) 0 (items vs) ≡ ok prior
      → validate_terminal (str "completed") (decided decision) ≡ ok tt
      → validate_terminal_history (str "completed") (decided decision) (reverse (items vs)) ≡ ok tt
      → walk (some attempt) 1 [] (items vs) ≡ ok p
      → validate_output (dict (completed_output decision vs)) ≡ ok tt
  unfolding completed_output decided validate_output completed_terminal checkpoint_of
      validate_checkpoint check_history check_active validate_history_position check_idle_position
  completed-accepted e1 e2 e3 e4 =
      let long : length_of (reverse (items vs)) ≡ length_of (items vs) =
        omega (arith, length-reverse_aux (items vs) []) in
      bind-ok (check_records (suc (length_of (items vs))) 0 (items vs)) _ prior e1 (
        bind-ok (validate_terminal (str "completed") (decided decision)) _ tt e2 (
          bind-ok
            (validate_terminal_history (str "completed") (decided decision) (reverse (items vs))) _
            tt e3
            (bind-ok (walk (some attempt) 1 [] (items vs)) _ p e4 (
              idle-passes (length_of (items vs)) p
                (ap length_of (walk-reverse (some attempt) 1 [] (items vs) e4) ∙ long)))))

only_key :
    (k : String) (v : Value) (fs : Fields)
    → has_keys ("decision" ∷ []) (field k v fs) ≡ true
    → dict (field k v fs) ≡ decided v
unfolding decided
only_key k v end h = ap (λ j. dict (field j v end)) ((eq_iff k "decision").0 (ground arith))
only_key k v (field j u fs) h =
    let (size, all_in) =
      &&-true (suc (suc (length (entries fs))) == 1)
        (all (has (field k v (field j u fs))) ("decision" ∷ [])) h in
    let one = (==_iff (suc (suc (length (entries fs)))) 1).0 size in
    let none_such : ⊥ = omega arith in absurd none_such

tested : (b : Bool) (r : Result (Unit {0})) → (if b then r else err invalid) ≡ ok tt → b ≡ true
tested true r h = refl
tested false r h = cc

check_decision-decided : (t : Value) → check_decision t ≡ ok tt → (d : Value) × (t ≡ decided d)
check_decision-decided (dict end) h = cc
check_decision-decided (dict (field k v fs)) h =
    (v, only_key k v fs (tested (has_keys ("decision" ∷ []) (field k v fs)) _ h))
check_decision-decided null h = cc
check_decision-decided (bool b) h = cc
check_decision-decided (int z) h = cc
check_decision-decided (str s) h = cc
check_decision-decided (list vs) h = cc

history_of-list :
    (v : Value) (h : List Value)
    → history_of v ≡ ok h
    → (vs : Values) × (v ≡ list vs) × (items vs ≡ h)
history_of-list (list vs) h q = (vs, refl, is_ok (items vs) h q)
history_of-list null h q = cc
history_of-list (bool b) h q = cc
history_of-list (int z) h q = cc
history_of-list (str s) h q = cc
history_of-list (dict fs) h q = cc

-- If the checkpoint of a completed run is accepted, so is the output that is made of it.
pub validate_output-output_from_state :
    (state : Fields) (output : Value)
    → validate_checkpoint (dict state) ≡ ok tt
    → at state "status" ≡ str "completed"
    → output_from_state (dict state) ≡ ok output
    → validate_output output ≡ ok tt
unfolding check_idle_position output_from_state output_of_completed validate_terminal decided
    completed_output
validate_output-output_from_state state output accepted completed m0 =
    let c = validate_checkpoint-IsChecked state accepted in
    let terminal = at state "terminal" in
    let (idle, over) =
      check_over (at state "status") (at state "next_component") (at state "active_invocation")
        terminal c.sequence c.history (ap (λ v. is_text v "running") completed) c.matched in
    let (count, rest) = &&-true (c.sequence == suc (length_of c.position.1)) _ (
      require-true invalid _
        (taken (is_null (at state "active_invocation")) _ _ (ap is_null idle) c.placed)) in
    let number =
      numbered (at state "status") (at state "next_component") (at state "active_invocation")
        terminal c.sequence c.history c.position.1
        (walk-reverse (some attempt) 1 [] c.history c.walked) count in
    let (status, t0, m1) = >>=-returns (index (dict state) "status") _ m0 in
    let same_status = sym (index-at state "status" status t0) ∙ completed in
    let m2 =
      taken (is_text status "completed") _ _ (ap (λ v. is_text v "completed") same_status) m1 in
    let (ended, t1, m3) = >>=-returns (index (dict state) "terminal") _ m2 in
    let (decision, t2, m4) = >>=-returns (index ended "decision") _ m3 in
    let (rows, t3, m5) = >>=-returns (index (dict state) "history") _ m4 in
    let (vs, is_list, all_rows) = history_of-list (at state "history") c.history c.own_history in
    let formed = sym (ap (λ v. validate_terminal v terminal) completed) ∙ c.formed in
    let (d, same) = check_decision-decided terminal formed in
    let same_end = sym same ∙ index-at state "terminal" ended t1 in
    let same_decision = is_ok d decision (ap (λ t. index t "decision") same_end ∙ t2) in
    let same_rows = sym is_list ∙ index-at state "history" rows t3 in
    let whole =
      ap (λ x. dict (completed_output x vs)) same_decision
      ∙ ap
          (λ r. dict (
            field "schema_version" (int (pos 1)) (
              field "outcome" (str "completed")
                (field "decision" decision (field "history" r end)))))
          same_rows
      ∙ is_ok _ output m5 in
    subst (λ o. validate_output o ≡ ok tt) whole
      (completed-accepted d vs c.prior c.position
        (subst (λ h. check_records (suc (length_of h)) 0 h ≡ ok c.prior) (sym all_rows)
          (subst (λ n. check_records n 0 c.history ≡ ok c.prior) number c.numbered))
        (ap (validate_terminal (str "completed")) (sym same) ∙ formed)
        (subst (λ h. validate_terminal_history (str "completed") (decided d) (reverse h) ≡ ok tt)
          (sym all_rows)
          (subst (λ t. validate_terminal_history (str "completed") t (reverse c.history) ≡ ok tt)
            same
            (subst (λ v. validate_terminal_history v terminal (reverse c.history) ≡ ok tt) completed
              c.caused)))
        (subst (λ h. walk (some attempt) 1 [] h ≡ ok c.position) (sym all_rows) c.walked))
