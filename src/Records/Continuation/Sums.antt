-- ===== src/Records/Continuation/Sums.antt =====
-- The numbers of an input that `validate_continuation` of afk_records/coordinator.py accepts.
use afk_pipeline.Prelude.{
  ℕ, zero, suc, ◌+◌, pos, true, false, ◌&&◌, Option, none, some, ◌≡◌, refl, sym, ap, ◌∙◌, &&-true,
}
use afk_pipeline.Py.Value.{Value, Fields, null, bool, int, str, list, dict, is_number, is_null}
use afk_pipeline.Py.Read.{index}
use afk_pipeline.Py.Result.{ok, value_error}
use afk_pipeline.Py.Shape.{at, natural, positive, has_keys}
use afk_pipeline.Py.Facts.{require-true, at-index, natural-int, positive-int}
use afk_pipeline.Records.Coordinator.Invocation.{validate_continuation, continuation_keys, adds_up}

-- the numbers of a valid continuation input
pub record Sums (input : Value) : Type 0 where
  pub completed : ℕ
  pub own_completed : index input "completed_responses" ≡ ok (int (pos completed))
  pub limit : Value
  pub own_limit : index input "effective_max_responses" ≡ ok limit
  pub additional : ℕ
  pub sum : is_number limit (completed + suc additional) ≡ true

number-full : (v : Value) (n : ℕ) → is_number v n ≡ true → is_null v ≡ false
number-full null n h = sym h
number-full (bool b) n h = refl
number-full (int z) n h = refl
number-full (str s) n h = refl
number-full (list vs) n h = refl
number-full (dict fs) n h = refl

none_of : false ≡ true → ⊥
none_of h = cc

not_zero : ◌≡◌ {A = Option ℕ} (some 0) none → ⊥
not_zero h = cc

adds_up-Sums :
    (fs : Fields) (a c : Option ℕ)
    → positive (at fs "additional_responses") ≡ a
    → natural (at fs "completed_responses") ≡ c
    → adds_up fs a c ≡ true
    → Sums (dict fs)
adds_up-Sums fs none c ea ec h = absurd (none_of h)
adds_up-Sums fs (some a) none ea ec h = absurd (none_of h)
adds_up-Sums fs (some zero) (some c) ea ec h =
    absurd (not_zero (sym ea ∙ ap positive (positive-int (at fs "additional_responses") 0 ea)))
adds_up-Sums fs (some (suc a)) (some c) ea ec h =
    let (sum, filled) = &&-true _ _ h in
    record {
      completed = c;
      own_completed = at-index fs "completed_responses" (int (pos c)) (natural-int _ c ec) refl;
      limit = at fs "effective_max_responses";
      own_limit = at-index fs "effective_max_responses" _ refl (number-full _ _ sum);
      additional = a;
      sum = sum;
    }

pub validate_continuation-Sums :
    (input : Value) {u : Unit {0}} → validate_continuation input ≡ ok u → Sums input
unfolding validate_continuation
validate_continuation-Sums (dict fs) q =
    let all_of = require-true (value_error "invalid continuation input") _ q in
    let (keyed, sums) =
      &&-true (has_keys continuation_keys fs && is_number (at fs "schema_version") 1) _ all_of in
    adds_up-Sums fs _ _ refl refl sums
validate_continuation-Sums null q = cc
validate_continuation-Sums (bool b) q = cc
validate_continuation-Sums (int z) q = cc
validate_continuation-Sums (str s) q = cc
validate_continuation-Sums (list vs) q = cc
