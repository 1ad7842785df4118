-- ===== src/Records/Coordinator/Valid.antt =====
-- What `valid_invocation_record` of afk_records/coordinator.py has established of a record.
use afk_pipeline.Prelude.{
  ℕ, pos, negsuc, String, true, Option, none, some, ◌∷◌, ◌≡◌, refl, sym, ap, ◌∙◌, arith, str_eq,
  any, &&-true,
}
use afk_pipeline.Py.Value.{Value, Fields, null, bool, int, str, list, dict, is_text}
use afk_pipeline.Py.Read.{index}
use afk_pipeline.Py.Result.{ok, ◌>>=◌, >>=-returns}
use afk_pipeline.Py.Shape.{at, positive}
use afk_pipeline.Py.Facts.{is_text-str, in_set-str, at-str, index-at, if-true, if-test}
use afk_pipeline.Records.Coordinator.Topology.{Component, name_of, outcomes, component_of}
use afk_pipeline.Records.Coordinator.Invocation.{
  valid_invocation_record, check_numbered, directory_name, check_known, known_outcome,
}
use afk_pipeline.Records.Coordinator.Checkpoint.{sequence_of, counted}
use afk_pipeline.Records.Coordinator.Run.{Ended}

pub sequence_of-int :
    (record_ : Value) (n : ℕ)
    → sequence_of record_ ≡ ok n
    → index record_ "sequence" ≡ ok (int (pos n))
unfolding sequence_of
sequence_of-int record_ n h =
    let (v, e, q) = >>=-returns (index record_ "sequence") _ h in e ∙ ap ok (counted-int v q)
  where
    counted-int : (v : Value) → counted v ≡ ok n → v ≡ int (pos n)
    counted-int (int (pos m)) q = ground arith
    counted-int (int (negsuc m)) q = cc
    counted-int null q = cc
    counted-int (bool b) q = cc
    counted-int (str s) q = cc
    counted-int (list vs) q = cc
    counted-int (dict fs) q = cc

pub component_of-name : (c : Component) → component_of (str (name_of c)) ≡ ok (some c)
component_of-name Component.attempt = refl
component_of-name Component.validation = refl
component_of-name Component.change = refl
component_of-name Component.review = refl
component_of-name Component.assessment = refl
component_of-name Component.iteration = refl
component_of-name Component.response = refl

-- the outcome of a record of this component
abbrev pub IsOutcome : Component → String → Type 0
IsOutcome c o = any (str_eq o) ("abandoned" ∷ outcomes c) ≡ true

known-IsOutcome :
    (fs : Fields) (c : Component) (n : ℕ)
    → check_known fs true n (some c) ≡ ok true
    → (o : String) × Ended (dict fs) o × IsOutcome c o
known-IsOutcome fs c n h =
    let q = if-true _ (known_outcome fs true c) h in
    let (o, e, i) = in_set-str (at fs "outcome") ("abandoned" ∷ outcomes c) q in
    (o, at-str fs "outcome" o e, i)

-- a valid record of a component has passed the tests of that component's records
valid-known :
    (fs : Fields) (c : Component)
    → valid_invocation_record (dict fs) true ≡ ok true
    → index (dict fs) "component" ≡ ok (str (name_of c))
    → (n : ℕ) × (check_known fs true n (some c) ≡ ok true)
unfolding valid_invocation_record
valid-known fs c h mine = numbered (positive (at fs "sequence")) (if-true _ _ h)
  where
    numbered :
        (n : Option ℕ)
        → check_numbered fs true n ≡ ok true
        → (n : ℕ) × (check_known fs true n (some c) ≡ ok true)
    numbered none q = cc
    numbered (some n) q =
        (n, sym (of_component n (index-at fs "component" (str (name_of c)) mine)) ∙ q)
      where
        of_component :
            (n : ℕ)
            → at fs "component" ≡ str (name_of c)
            → (component_of (at fs "component") >>= check_known fs true n)
              ≡ check_known fs true n (some c)
        of_component n e =
            ap (λ v. component_of v >>= check_known fs true n) e
            ∙ ap (λ r. r >>= check_known fs true n) (component_of-name c)

pub valid-IsOutcome :
    (record_ : Value) (c : Component)
    → valid_invocation_record record_ true ≡ ok true
    → index record_ "component" ≡ ok (str (name_of c))
    → (o : String) × Ended record_ o × IsOutcome c o
unfolding valid_invocation_record
valid-IsOutcome (dict fs) c h mine =
    let (n, q) = valid-known fs c h mine in known-IsOutcome fs c n q
valid-IsOutcome _ c h mine = cc

pub valid-directory :
    (record_ : Value) (c : Component)
    → valid_invocation_record record_ true ≡ ok true
    → index record_ "component" ≡ ok (str (name_of c))
    → (d : String) × (index record_ "directory" ≡ ok (str d))
unfolding valid_invocation_record
valid-directory (dict fs) c h mine =
    let (n, q) = valid-known fs c h mine in
    let (named, read) =
      &&-true (is_text (at fs "directory") (directory_name n c)) _ (if-test _ _ q) in
    (directory_name n c, at-str fs "directory" _ (is_text-str _ _ named))
valid-directory _ c h mine = cc

abbrev pub IsValid : Value → Type 0
IsValid record_ = valid_invocation_record record_ true ≡ ok true
