-- ===== src/Records/Plan/Lists.antt =====
-- The lists of a proposal are what the validators of afk_records/plan.py return of them.
use afk_pipeline.Prelude.{
  ℕ, String, ◌&&◌, Option, none, some, List, [], ◌∷◌, ◌≡◌, refl, sym, ap, ◌∙◌, map, length, leb,
  all, arith,
}
use afk_pipeline.Py.Value.{
  Value, Values, null, bool, int, str, list, dict, items, of_items, nil, cons,
}
use afk_pipeline.Py.Result.{ok, value_error, >>=-returns}
use afk_pipeline.Py.Codes.{eq_codes}
use afk_pipeline.Py.Facts.{is_ok, require-then}
use afk_pipeline.Records.Plan.Shapes.{
  some_items, join_text, string_list, texts, check_texts, short_text, distinct,
}
use afk_pipeline.Records.Plan.Graph.{validate_graph}
use afk_pipeline.Records.Plan.Quotes.{normalize, normalize_all}
use afk_pipeline.Records.Plan.Proposal.{
  part, text_of, check_criteria, validate_criteria, criterion_ids, check_children, same_texts,
  validate_children,
}
use afk_pipeline.Records.Plan.Build.{list_of}

pub of_items-items : (vs : Values) → of_items (items vs) ≡ vs
of_items-items nil = refl
of_items-items (cons v vs) = ap (cons v) (of_items-items vs)

pub items-of_items : (vs : List Value) → items (of_items vs) ≡ vs
items-of_items [] = refl
items-of_items (v ∷ vs) = ap (λ us. v ∷ us) (items-of_items vs)

some_items-list :
    (maximum : ℕ) (v : Value) (text : String) (vs : List Value)
    → some_items maximum v text ≡ ok vs
    → v ≡ list_of vs
some_items-list maximum (list us) text vs q =
    let (test, q1) =
      require-then (value_error text) (leb 1 (length (items us)) && leb (length (items us)) maximum)
        _ q in
    sym (ap list (of_items-items us)) ∙ ap list_of (is_ok (items us) vs q1)
some_items-list maximum null text vs q = cc
some_items-list maximum (bool b) text vs q = cc
some_items-list maximum (int z) text vs q = cc
some_items-list maximum (str s) text vs q = cc
some_items-list maximum (dict fs) text vs q = cc

same_list : {A : Type 0} {a b : A} → some a ≡ some b → a ≡ b
same_list e = ground arith

join_text-map :
    (v : Value) (vs : List Value) (o : Option (List String)) (ss : List String)
    → ((ts : List String) → o ≡ some ts → vs ≡ map str ts)
    → join_text v o ≡ some ss
    → v ∷ vs ≡ map str ss
join_text-map (str s) vs (some ts) ss each q =
    ap (λ us. str s ∷ us) (each ts refl) ∙ ap (map str) (same_list q)
join_text-map (str s) vs none ss each q = cc
join_text-map null vs o ss each q = cc
join_text-map (bool b) vs o ss each q = cc
join_text-map (int z) vs o ss each q = cc
join_text-map (list us) vs o ss each q = cc
join_text-map (dict fs) vs o ss each q = cc

texts-map : (vs : List Value) (ss : List String) → texts vs ≡ some ss → vs ≡ map str ss
texts-map [] ss q = ap (map str) (same_list q)
texts-map (v ∷ vs) ss q = join_text-map v vs (texts vs) ss (texts-map vs) q

pub string_list-list :
    (v : Value) (name : String) (n m : ℕ) (ss : List String)
    → string_list v name n m ≡ ok ss
    → v ≡ list_of (map str ss)
unfolding string_list
string_list-list (list vs) name n m ss q =
    let (short, q1) = require-then _ (leb (length (items vs)) n) _ q in
    sym (ap list (of_items-items vs))
    ∙ ap list_of (texts-map (items vs) ss (checked (texts (items vs)) q1))
  where
    checked : (o : Option (List String)) → check_texts m o name ≡ ok ss → o ≡ some ss
    checked none q = cc
    checked (some ts) q =
        let (a, q1) = require-then _ (all (short_text m) ts) _ q in
        let (b, q2) = require-then _ (distinct ts) _ q1 in ap some (is_ok ts ss q2)
string_list-list null name n m ss q = cc
string_list-list (bool b) name n m ss q = cc
string_list-list (int z) name n m ss q = cc
string_list-list (str s) name n m ss q = cc
string_list-list (dict fs) name n m ss q = cc

pub validate_criteria-list :
    (request v : Value) (cs : List Value) → validate_criteria request v ≡ ok cs → v ≡ list_of cs
unfolding validate_criteria
validate_criteria-list request v cs q0 =
    let (criteria, e1, q1) =
      >>=-returns (some_items 128 v "proposal criteria must contain 1 through 128 items") _ q0 in
    let (sources, e2, q2) = >>=-returns (check_criteria 1 criteria) _ q1 in
    let (whole, e3, q3) = >>=-returns (part request "parent" "acceptance_criteria") _ q2 in
    let (given, e4, q4) = >>=-returns (text_of whole) _ q3 in
    let (same, q5) = require-then _ (eq_codes (normalize_all sources) (normalize given)) _ q4 in
    some_items-list 128 v _ criteria e1 ∙ ap list_of (is_ok criteria cs q5)

pub validate_children-list :
    (request v : Value) (criteria cs : List Value)
    → validate_children request v criteria ≡ ok cs
    → v ≡ list_of cs
unfolding validate_children
validate_children-list request v criteria cs q0 =
    let (values, e1, q1) =
      >>=-returns (some_items 64 v "proposal children must contain 1 through 64 items") _ q0 in
    let (known, e2, q2) = >>=-returns (criterion_ids criteria) _ q1 in
    let (checked, e3, q3) = >>=-returns (check_children request known [] values) _ q2 in
    let (same, q4) = require-then _ (same_texts checked.1 known) _ q3 in
    let (u, e5, q5) = >>=-returns (validate_graph checked.0) _ q4 in
    some_items-list 64 v _ values e1 ∙ ap list_of (is_ok values cs q5)
