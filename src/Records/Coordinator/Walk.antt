-- ===== src/Records/Coordinator/Walk.antt =====
-- The loop of `validate_history_position` of afk_records/coordinator.py follows the runs.
use mathlib.Core.List.{reverse_aux}
use afk_pipeline.Prelude.{
  ℕ, suc, pos, String, true, false, ◌&&◌, Option, none, some, List, [], ◌∷◌, ◌≡◌, ◌≢◌, ◌⊎◌, refl,
  sym, ap, ◌∙◌, subst, ◌==◌, if◌then◌else◌, All, arith, str_eq, eq_iff, Bool-cases, inl, inr,
  &&-true, ==_iff,
}
use afk_pipeline.Py.Value.{Value, int, str, is_text, py_eq}
use afk_pipeline.Py.Read.{index}
use afk_pipeline.Py.Result.{ok, >>=-returns}
use afk_pipeline.Py.Facts.{is_text-str, require-then}
use afk_pipeline.Records.Coordinator.Topology.{
  Component, validation, response, name_of, success, invalid,
}
use afk_pipeline.Records.Coordinator.Sources.{expected_input_sources}
use afk_pipeline.Records.Coordinator.Checkpoint.{sequence_of, follow, walk, length_of, Position}
use afk_pipeline.Records.Coordinator.Run.{IsNext, Ended, Run}
use afk_pipeline.Records.Coordinator.Valid.{IsValid, IsOutcome, sequence_of-int, valid-IsOutcome}

validation-cases :
    (c : Component)
    → (c ≡ validation) × (str_eq (name_of c) "validation" ≡ true)
      ⊎ (c ≢ validation) × (str_eq (name_of c) "validation" ≡ false)
validation-cases Component.attempt = inr ((λ e. cc), refl)
validation-cases Component.validation = inl (refl, refl)
validation-cases Component.change = inr ((λ e. cc), refl)
validation-cases Component.review = inr ((λ e. cc), refl)
validation-cases Component.assessment = inr ((λ e. cc), refl)
validation-cases Component.iteration = inr ((λ e. cc), refl)
validation-cases Component.response = inr ((λ e. cc), refl)

-- a component that neither succeeded nor was abandoned
unsuccessful :
    {c : Component} {earlier : List Value} {record_ : Value} (o : String)
    → Run earlier (some c)
    → IsNext c earlier record_
    → Ended record_ o
    → IsOutcome c o
    → str_eq o "abandoned" ≡ false
    → str_eq o (success c) ≡ false
    → Run
        (record_ ∷ earlier)
        (if str_eq (name_of c) "validation" && str_eq o "failed" then some response else none)
unsuccessful {c = c} {earlier} {record_} o run one ended known a b = elim (validation-cases c) [
  | inl (same, e) ↦ rw e (elim (Bool-cases (str_eq o "failed")) [
    | inl f ↦ rw f (
        subst
          (λ d.
            Run earlier (some d)
            → IsNext d earlier record_
            → Run (record_ ∷ earlier) (some response))
          (sym same)
          (λ r i. Run.repaired r i (ended ∙ ap (λ t. ok (str t)) ((eq_iff o "failed").0 f))) run
          one)
    | inr f ↦ rw f (stop (λ _. differs o "failed" f))
  ])
  | inr (other, e) ↦ rw e (stop (λ same. absurd (other same)))
]
  where
    differs : (s t : String) → str_eq s t ≡ false → s ≢ t
    differs s t f e = let g = (eq_iff s t).1 e in cc

    stop : (c ≡ validation → o ≢ "failed") → Run (record_ ∷ earlier) none
    stop no_repair = Run.stopped run one ended (record {
      known = ground arith;
      no_success = differs o (success c) b;
      no_repair = no_repair;
    })

pub follow-Run :
    {c : Component} {earlier : List Value} {record_ : Value} (o : String)
    → Run earlier (some c)
    → IsNext c earlier record_
    → Ended record_ o
    → IsOutcome c o
    → Run (record_ ∷ earlier) (follow c (str o))
unfolding follow
follow-Run {c = c} o run one ended known = elim (Bool-cases (str_eq o "abandoned")) [
  | inl a ↦ rw a (Run.again run one (ended ∙ ap (λ t. ok (str t)) ((eq_iff o "abandoned").0 a)))
  | inr a ↦ rw a (elim (Bool-cases (str_eq o (success c))) [
    | inl b ↦
        rw b (Run.succeeded run one (ended ∙ ap (λ t. ok (str t)) ((eq_iff o (success c)).0 b)))
    | inr b ↦ rw b (unsuccessful o run one ended known a b)
  ])
]

pub walk-Run :
    (expected : Option Component) (n : ℕ) (prior rest : List Value) {p : Position}
    → Run prior expected
    → n ≡ suc (length_of prior)
    → All IsValid rest
    → walk expected n prior rest ≡ ok p
    → Run p.1 p.0
unfolding walk
walk-Run expected n prior [] run count valid q = subst (λ p. Run p.1 p.0) (same q) run
  where
    same : {a b : Position} → ok a ≡ ok b → a ≡ b
    same e = ground arith
walk-Run none n prior (record_ ∷ rest) run count valid q = cc
walk-Run (some c) n prior (record_ ∷ rest) run count (one, valid) q0 =
    let (own, e1, q1) = >>=-returns (sequence_of record_) _ q0 in
    let (component, e2, q2) = >>=-returns (index record_ "component") _ q1 in
    let (test, q3) = require-then invalid (own == n && is_text component (name_of c)) _ q2 in
    let (inputs, e4, q4) = >>=-returns (index record_ "input_from") _ q3 in
    let (sources, e5, q5) = >>=-returns (expected_input_sources c prior) _ q4 in
    let (same, q6) = require-then invalid (py_eq inputs sources) _ q5 in
    let (outcome, e7, q7) = >>=-returns (index record_ "outcome") _ q6 in
    let (at_n, named) = &&-true (own == n) _ test in
    let mine = e2 ∙ ap ok (is_text-str component (name_of c) named) in
    let (o, ended, known) = valid-IsOutcome record_ c one mine in
    let is_next : IsNext c prior record_ = record {
      own_number =
          sequence_of-int record_ own e1
          ∙ ap (λ k. ok (int (pos k))) ((==_iff own n).0 at_n ∙ count);
      own_component = mine;
      inputs = inputs;
      own_inputs = e4;
      sources = sources;
      left = e5;
      same = same;
    } in
    walk-Run (follow c (str o)) (suc n) (record_ ∷ prior) rest
      (follow-Run o run is_next ended known) (ap suc count) valid
      (ap (λ v. walk (follow c v) (suc n) (record_ ∷ prior) rest) (str-eq (sym ended ∙ e7)) ∙ q7)
  where
    str-eq : {o : String} {v : Value} → ok (str o) ≡ ok v → str o ≡ v
    str-eq e = ground arith

-- it gathers the records, the latest first
pub walk-reverse :
    (expected : Option Component) (n : ℕ) (prior rest : List Value) {p : Position}
    → walk expected n prior rest ≡ ok p
    → p.1 ≡ reverse_aux rest prior
unfolding walk
walk-reverse expected n prior [] q = same q
  where
    same : {a b : Position} → ok a ≡ ok b → b.1 ≡ a.1
    same e = ground arith
walk-reverse none n prior (record_ ∷ rest) q = cc
walk-reverse (some c) n prior (record_ ∷ rest) q0 =
    let (own, e1, q1) = >>=-returns (sequence_of record_) _ q0 in
    let (component, e2, q2) = >>=-returns (index record_ "component") _ q1 in
    let (test, q3) = require-then invalid (own == n && is_text component (name_of c)) _ q2 in
    let (inputs, e4, q4) = >>=-returns (index record_ "input_from") _ q3 in
    let (sources, e5, q5) = >>=-returns (expected_input_sources c prior) _ q4 in
    let (same, q6) = require-then invalid (py_eq inputs sources) _ q5 in
    let (outcome, e7, q7) = >>=-returns (index record_ "outcome") _ q6 in
    walk-reverse (follow c outcome) (suc n) (record_ ∷ prior) rest q7
