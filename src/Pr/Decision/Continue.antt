-- ===== src/Pr/Decision/Continue.antt =====
-- When `decide` of afk_pr/decision.py says to continue.
use afk_pipeline.Prelude.{
  ℕ, String, Bool, true, false, not, Option, none, List, [], ◌∷◌, ◌≡◌, ◌≢◌, refl, sym, ◌∙◌, ap,
  arith, All,
}
use afk_pipeline.Py.Value.{Value, null, is_text}
use afk_pipeline.Py.Read.{index}
use afk_pipeline.Py.Result.{ok, >>=-returns}
use afk_pipeline.Pr.Identity.{identity}
use afk_pipeline.Pr.Decision.Notes.{Note, note_if}
use afk_pipeline.Pr.Decision.Phases.{by_id}
use afk_pipeline.Pr.Decision.Items.{Target, check_item}
use afk_pipeline.Pr.Decision.{Decision, continue, recommend, is_empty, check_items, decide}
use afk_pipeline.Pr.Decision.Published.{append-nil_inv, note_if-nil, ok-injective}
use afk_pipeline.Pr.Decision.Done.{IsDone, check_item-nil}

recommend-continue : (notes : List Note) → recommend notes ≡ continue → notes ≡ []
unfolding recommend
recommend-continue [] h = refl
recommend-continue (n ∷ ns) h = ground arith

All-map :
    {A : Type 0} {P Q : A → Type 0} (f : (a : A) → P a → Q a) (xs : List A) → All P xs → All Q xs
All-map f [] h = tt
All-map f (x ∷ xs) h = (f x h.0, All-map f xs h.1)

-- The pull request that a decision was made for, as the context gives it.
pub record IsOpen (context : Value) (d : Decision) (t : Target) : Type 0 where
  pub pr : Value
  pub in_context : index context "pull_request" ≡ ok pr
  pub url : Value
  pub has_url : index pr "html_url" ≡ ok url
  pub named : identity url ≡ ok (t.repository, t.number)
  pub state : Value
  pub has_state : index pr "state" ≡ ok state
  pub is_open : is_text state "open" ≡ true
  pub same_head : d.head ≡ t.head
  pub same_base : d.base ≡ t.base

module _ (encoded_length : Value → ℕ) (loads : String → Option Value) where
  check_items-nil :
      (t : Target) (known : List (String × Value)) (items : List Value)
      → check_items encoded_length loads t known items ≡ ok []
      → All (λ item. check_item encoded_length loads t known item ≡ ok []) items
  unfolding check_items
  check_items-nil t known [] h = tt
  check_items-nil t known (item ∷ rest) h =
      let (here, e1, h1) = >>=-returns (check_item encoded_length loads t known item) _ h in
      let (others, e2, h2) = >>=-returns (check_items encoded_length loads t known rest) _ h1 in
      let (a, b) = append-nil_inv here others (ok-injective h2) in
      (e1 ∙ ap ok a, check_items-nil t known rest (e2 ∙ ap ok b))

  -- When the decision is to continue, the pull request is open, at least one job is selected, and every
  -- selected job belongs to the pull request, is of its base and head, and has each of its expected
  -- phases successful and published by a worker that was not lost. If the job has an action, its receipt
  -- was submitted, and is of the action, the job, its head and base, the repository, the number of the
  -- pull request and the command that the job's kind and phases call for.
  pub decide-continue :
      (context : Value) (selected : List Value) (d : Decision)
      → decide encoded_length loads context selected ≡ ok d
      → d.recommendation ≡ continue
      → (t : Target) × IsOpen context d t
        × (selected ≢ [])
        × All (IsDone t (by_id selected)) selected
  unfolding decide
  decide-continue context selected d h c =
      let (pr, e1, h1) = >>=-returns (index context "pull_request") _ h in
      let (their_head, e2, h2) = >>=-returns (index pr "head") _ h1 in
      let (head, e3, h3) = >>=-returns (index their_head "sha") _ h2 in
      let (their_base, e4, h4) = >>=-returns (index pr "base") _ h3 in
      let (base, e5, h5) = >>=-returns (index their_base "sha") _ h4 in
      let (url, e6, h6) = >>=-returns (index pr "html_url") _ h5 in
      let (own, e7, h7) = >>=-returns (identity url) _ h6 in
      let (state, e8, h8) = >>=-returns (index pr "state") _ h7 in
      let t : Target = record { repository = own.0; number = own.1; head = head; base = base } in
      let (found, e9, h9) =
        >>=-returns (check_items encoded_length loads t (by_id selected) selected) _ h8 in
      let made = ok-injective h9 in
      let quiet = recommend-continue _ (ap (λ (d : Decision). d.recommendation) made ∙ c) in
      let (front, none_found) = append-nil_inv _ found quiet in
      let (opened, given) =
        append-nil_inv _ (note_if (is_empty selected) "no_jobs_selected" null none) front in
      (
        t,
        record {
          pr = pr;
          in_context = e1;
          url = url;
          has_url = e6;
          named = e7;
          state = state;
          has_state = e8;
          is_open = not-false (note_if-nil _ _ _ _ opened);
          same_head = ap (λ (d : Decision). d.head) (sym made);
          same_base = ap (λ (d : Decision). d.base) (sym made);
        },
        is_empty-false selected (note_if-nil _ _ _ _ given),
        All-map (check_item-nil encoded_length loads t (by_id selected)) selected
            (check_items-nil t (by_id selected) selected (e9 ∙ ap ok none_found)),
      )
    where
      not-false : {b : Bool} → not b ≡ false → b ≡ true
      not-false {b = true} e = refl
      not-false {b = false} e = cc

      is_empty-false : (vs : List Value) → is_empty vs ≡ false → vs ≢ []
      is_empty-false [] e = cc
      is_empty-false (v ∷ vs) e = λ p. cc
