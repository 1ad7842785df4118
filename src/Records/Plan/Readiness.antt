-- ===== src/Records/Plan/Readiness.antt =====
-- The readiness that `build_plan` of afk_records/plan.py adds to each child is what `validate_plan` takes off.
use afk_pipeline.Prelude.{
  String, Bool, true, false, List, [], ◌∷◌, ◌≡◌, refl, sym, ap, ◌∙◌, subst, all, All, str_eq,
  eq_iff, Bool-cases, inl, inr, &&-true,
}
use text.Mathlib.TextPositions.{eq_refl}
use afk_pipeline.Py.Value.{
  Value, null, bool, int, list, Fields, field, end, str, dict, entries, py_eq,
}
use afk_pipeline.Py.Read.{index, has}
use afk_pipeline.Py.Result.{ok, ◌>>=◌, >>=-returns}
use afk_pipeline.Py.Dict.{has-set_field, at-set_field, at-other}
use afk_pipeline.Py.Shape.{at, require, set_field}
use afk_pipeline.Py.Facts.{is_ok, require-then, index-at, require-passes, bind-ok}
use afk_pipeline.Records.Plan.Shapes.{dict_value}
use afk_pipeline.Records.Plan.Graph.{Node, holds}
use afk_pipeline.Records.Plan.Proposal.{validate_child, check_children, child_fields, allowed_keys}
use afk_pipeline.Records.Plan.Build.{
  readiness_for_execution, with_readiness, each_ready, drop, without_readiness, each_unready,
}

-- no entry has the key
abbrev pub Lacks : String → Fields → Type 0
Lacks k fs = All (λ e. str_eq e.0 k ≡ false) (entries fs)

drop-lacking : (k : String) (fs : Fields) → Lacks k fs → drop k fs ≡ fs
unfolding drop
drop-lacking k end lacks = refl
drop-lacking k (field j v fs) (own, lacks) = rw own (ap (field j v) (drop-lacking k fs lacks))

drop-set_field :
    (k : String) (v : Value) (fs : Fields) → Lacks k fs → drop k (set_field k v fs) ≡ fs
unfolding drop
drop-set_field k v end lacks = rw (eq_refl k) refl
drop-set_field k v (field j u fs) (own, lacks) =
    rw (own, own) (ap (field j u) (drop-set_field k v fs lacks))

allowed-lacks :
    (fs : List (String × Value)) (allowed : List String) (k : String)
    → holds k allowed ≡ false
    → all (λ e. holds e.0 allowed) fs ≡ true
    → All (λ e. str_eq e.0 k ≡ false) fs
allowed-lacks [] allowed k not_allowed h = tt
allowed-lacks ((j, v) ∷ fs) allowed k not_allowed h =
    let (own, others) = &&-true (holds j allowed) _ h in
    (other own, allowed-lacks fs allowed k not_allowed others)
  where
    apart : true ≡ false → ⊥
    apart e = cc

    other : holds j allowed ≡ true → str_eq j k ≡ false
    other own = elim (Bool-cases (str_eq j k)) [
      | inl same ↦
          absurd (apart (sym own ∙ ap (λ x. holds x allowed) ((eq_iff j k).0 same) ∙ not_allowed))
      | inr e ↦ e
    ]

abbrev pub IsBare : Value → Type 0
IsBare child = (fs : Fields) × (child ≡ dict fs) × Lacks "readiness" fs

fields-lack : (request child : Fields) → child_fields request child ≡ true → Lacks "readiness" child
unfolding child_fields
fields-lack request child h =
    let (required, allowed) = &&-true _ _ h in
    allowed-lacks (entries child) _ "readiness" (absent (has request "parent")) allowed
  where
    absent : (b : Bool) → holds "readiness" (allowed_keys b) ≡ false
    absent true = refl
    absent false = refl

child-IsBare :
    (request : Value) (known child_ids : List String) (value : Value) (checked : Node × List String)
    → validate_child request known child_ids value ≡ ok checked
    → IsBare value
unfolding validate_child dict_value
child-IsBare request known child_ids (dict fs) checked q0 =
    let (given, e1, q1) = >>=-returns (dict_value request) _ q0 in
    let (fields, q2) = require-then _ (child_fields given fs) _ q1 in
    (fs, refl, fields-lack given fs fields)
child-IsBare request known child_ids null checked q = cc
child-IsBare request known child_ids (bool b) checked q = cc
child-IsBare request known child_ids (int z) checked q = cc
child-IsBare request known child_ids (str s) checked q = cc
child-IsBare request known child_ids (list vs) checked q = cc

pub children-IsBare :
    (request : Value) (known child_ids : List String) (values : List Value)
    (checked : List Node × List String)
    → check_children request known child_ids values ≡ ok checked
    → All IsBare values
unfolding check_children
children-IsBare request known child_ids [] checked q = tt
children-IsBare request known child_ids (value ∷ rest) checked q0 =
    let (own, e1, q1) = >>=-returns (validate_child request known child_ids value) _ q0 in
    let (more, e2, q2) =
      >>=-returns (check_children request known (own.0.local_id ∷ child_ids) rest) _ q1 in
    (
      child-IsBare request known child_ids value own e1,
      children-IsBare request known (own.0.local_id ∷ child_ids) rest more e2,
    )

ready-fields :
    (fs : Fields) (executor : Value) (r : String)
    → Lacks "readiness" fs
    → index (dict fs) "executor" ≡ ok executor
    → readiness_for_execution executor ≡ ok r
    → without_readiness (dict (set_field "readiness" (str r) fs)) ≡ ok (dict fs)
unfolding without_readiness dict_value py_eq
ready-fields fs executor r lacks e q =
    let ready = set_field "readiness" (str r) fs in
    bind-ok (require _ (has ready "readiness")) _ tt
      (require-passes _ _ (has-set_field "readiness" (str r) fs))
      (bind-ok (readiness_for_execution (at ready "executor")) _ r
        (ap readiness_for_execution
            (at-other "executor" "readiness" (str r) fs refl ∙ index-at fs "executor" executor e)
          ∙ q)
        (bind-ok (require _ (py_eq (at ready "readiness") (str r))) _ tt
          (require-passes _ _
            (ap (λ v. py_eq v (str r)) (at-set_field "readiness" (str r) fs) ∙ eq_refl r))
          (ap (λ f. ok (dict f)) (drop-set_field "readiness" (str r) fs lacks))))

ready-unready :
    (child ready : Value)
    → IsBare child
    → with_readiness child ≡ ok ready
    → without_readiness ready ≡ ok child
unfolding with_readiness dict_value
ready-unready child ready (fs, e, lacks) q =
    let q0 = sym (ap with_readiness e) ∙ q in
    let (executor, e1, q1) = >>=-returns (index (dict fs) "executor") _ q0 in
    let (r, e2, q2) = >>=-returns (readiness_for_execution executor) _ q1 in
    subst (λ v. without_readiness v ≡ ok child)
      (is_ok (dict (set_field "readiness" (str r) fs)) ready q2)
      (ready-fields fs executor r lacks e1 e2 ∙ ap ok (sym e))

pub each_ready-unready :
    (children ready : List Value)
    → All IsBare children
    → each_ready children ≡ ok ready
    → each_unready ready ≡ ok children
unfolding each_ready each_unready
each_ready-unready [] ready bare q = subst (λ vs. each_unready vs ≡ ok []) (is_ok [] ready q) refl
each_ready-unready (child ∷ rest) ready (own, bare) q0 =
    let (first, e1, q1) = >>=-returns (with_readiness child) _ q0 in
    let (more, e2, q2) = >>=-returns (each_ready rest) _ q1 in
    subst (λ vs. each_unready vs ≡ ok (child ∷ rest)) (is_ok (first ∷ more) ready q2)
      (ap (λ r. r >>= λ own. each_unready more >>= λ others. ok (own ∷ others))
          (ready-unready child first own e1)
        ∙ ap (λ r. r >>= λ others. ok (child ∷ others)) (each_ready-unready rest more bare e2))
