-- ===== src/Records/Review/Sources.antt =====
-- The reviews that `validate_output_projection` of afk_records/review.py takes from the invocations of a
-- Review.
use afk_pipeline.Prelude.{
  String, Bool, true, not, ◌&&◌, ◌||◌, List, [], ◌∷◌, ◌≡◌, refl, sym, ap, ◌∙◌, subst, length, map,
  ◌==◌, arith, str_eq, if◌then◌else◌, &&-true,
}
use afk_pipeline.Py.Value.{
  Value, Fields, null, bool, int, str, list, dict, field, end, is_text, items, py_eq,
}
use afk_pipeline.Py.Result.{ok, value_error, >>=-returns}
use afk_pipeline.Py.Shape.{has_keys, at}
use afk_pipeline.Py.Facts.{is_ok, require-then}
use afk_pipeline.Records.Plan.Lists.{of_items-items}
use afk_pipeline.Records.Plan.Build.{list_of}
use afk_pipeline.Records.Review.Finding.{Tree, validate_review}
use afk_pipeline.Records.Review.Receipts.{is_dict, lenses_of}
use afk_pipeline.Records.Review.Projection.{
  Source, artifacts_of, invocation_keys, all_of_lens, source_review, source_reviews, named_lenses,
  malformed_lenses, invocations_of,
}

-- the review of an invocation that succeeded: what `validate_review` finds in it, for the lens in its place
pub record IsReviewOf (tree : Tree) (related : List String) (lens : String) (value : Value)
    (source : Source) : Type 0 where
  pub invocation : Fields
  pub is_invocation : value ≡ dict invocation
  pub succeeded : is_text (at invocation "outcome") "succeeded" ≡ true
  pub own_artifacts : py_eq (at invocation "artifacts") (artifacts_of lens) ≡ true
  pub own_lens : source.lens ≡ lens
  pub reviewed :
      validate_review tree related (at invocation "review") ≡ ok (source.summary, source.findings)
  pub own_findings :
      (if str_eq lens "combined" then ok true else all_of_lens lens source.findings) ≡ ok true

-- the three lists are of one length, and each source is the review of its invocation
abbrev pub AreReviewsOf :
    (tree : Tree) (related : List String)
    → (lenses : List String) (invocations : List Value) (sources : List Source) → Type 0
AreReviewsOf tree related [] [] [] = Unit {0}
AreReviewsOf tree related (lens ∷ lenses) (invocation ∷ invocations) (source ∷ sources) =
    IsReviewOf tree related lens invocation source
    × AreReviewsOf tree related lenses invocations sources
AreReviewsOf tree related lenses invocations sources = ⊥

-- the invocations of a Review, one for each lens of its mode, in the order of the lenses
pub record AreInvocations (mode value : Value) (invocations : List Value) : Type 0 where
  pub listed : value ≡ list_of invocations
  pub known_mode : (is_text mode "combined" || is_text mode "split") ≡ true
  pub own_lenses :
      py_eq (list_of (named_lenses invocations)) (list_of (map str (lenses_of mode))) ≡ true
  pub one_each : (length invocations == length (lenses_of mode)) ≡ true

invocations_of-list :
    (value : Value) (invocations : List Value)
    → invocations_of value ≡ ok invocations
    → value ≡ list_of invocations
invocations_of-list (list vs) invocations q =
    sym (ap list (of_items-items vs)) ∙ ap list_of (is_ok (items vs) invocations q)
invocations_of-list null invocations q = cc
invocations_of-list (bool b) invocations q = cc
invocations_of-list (int z) invocations q = cc
invocations_of-list (str s) invocations q = cc
invocations_of-list (dict fs) invocations q = cc

none_malformed :
    (a b c : Bool) → not (not a || not b || not c) ≡ true → (a ≡ true) × (b ≡ true) × (c ≡ true)
none_malformed a b c h = ground arith

pub malformed_lenses-AreInvocations :
    (mode value : Value) (invocations : List Value)
    → invocations_of value ≡ ok invocations
    → not (malformed_lenses mode invocations) ≡ true
    → AreInvocations mode value invocations
malformed_lenses-AreInvocations mode value invocations q h =
    let (known, own, each) =
      none_malformed (is_text mode "combined" || is_text mode "split")
        (py_eq (list_of (named_lenses invocations)) (list_of (map str (lenses_of mode))))
        (length invocations == length (lenses_of mode)) h in
    record {
      listed = invocations_of-list value invocations q;
      known_mode = known;
      own_lenses = own;
      one_each = each;
    }

module _ (tree : Tree) (related : List String) where
  source_review-IsReviewOf :
      (lens : String) (value : Value) (source : Source)
      → source_review tree related lens value ≡ ok source
      → IsReviewOf tree related lens value source
  unfolding source_review
  source_review-IsReviewOf lens (dict invocation) source q0 =
      let (shape, q1) =
        require-then (value_error "Review invocation projection is incomplete")
          (has_keys invocation_keys invocation
            && is_text (at invocation "outcome") "succeeded"
            && py_eq (at invocation "agent") (dict (field "status" (str "completed") end))
            && is_dict (at invocation "process")
            && py_eq (at invocation "artifacts") (artifacts_of lens))
          _ q0 in
      let (review, e2, q2) =
        >>=-returns (validate_review tree related (at invocation "review")) _ q1 in
      let (own, e3, q3) =
        >>=-returns (if str_eq lens "combined" then ok true else all_of_lens lens review.1) _ q2 in
      let (is_own, q4) =
        require-then (value_error "Review invocation lens is malformed") own _ q3 in
      let (most, artifacts) =
        &&-true _ (py_eq (at invocation "artifacts") (artifacts_of lens)) shape in
      let (more, process) = &&-true _ (is_dict (at invocation "process")) most in
      let (front, agent) =
        &&-true _ (py_eq (at invocation "agent") (dict (field "status" (str "completed") end)))
          more in
      let (keys, outcome) =
        &&-true (has_keys invocation_keys invocation)
          (is_text (at invocation "outcome") "succeeded") front in
      subst (IsReviewOf tree related lens (dict invocation)) (is_ok _ source q4) (record {
        invocation = invocation;
        is_invocation = refl;
        succeeded = outcome;
        own_artifacts = artifacts;
        own_lens = refl;
        reviewed = e2;
        own_findings = e3 ∙ ap ok is_own;
      })
  source_review-IsReviewOf lens null source q = cc
  source_review-IsReviewOf lens (bool b) source q = cc
  source_review-IsReviewOf lens (int z) source q = cc
  source_review-IsReviewOf lens (str s) source q = cc
  source_review-IsReviewOf lens (list vs) source q = cc

  pub source_reviews-AreReviewsOf :
      (lenses : List String) (invocations : List Value) (sources : List Source)
      → (length invocations == length lenses) ≡ true
      → source_reviews tree related lenses invocations ≡ ok sources
      → AreReviewsOf tree related lenses invocations sources
  unfolding source_reviews
  source_reviews-AreReviewsOf [] [] sources n q =
      subst (AreReviewsOf tree related [] []) (is_ok [] sources q) tt
  source_reviews-AreReviewsOf (lens ∷ lenses) (invocation ∷ rest) sources n q0 =
      let (own, e1, q1) = >>=-returns (source_review tree related lens invocation) _ q0 in
      let (more, e2, q2) = >>=-returns (source_reviews tree related lenses rest) _ q1 in
      subst (AreReviewsOf tree related (lens ∷ lenses) (invocation ∷ rest))
        (is_ok (own ∷ more) sources q2)
        (
          source_review-IsReviewOf lens invocation own e1,
          source_reviews-AreReviewsOf lenses rest more (one_less n) e2,
        )
    where
      one_less :
          (length (invocation ∷ rest) == length (lens ∷ lenses)) ≡ true
          → (length rest == length lenses) ≡ true
      one_less h = ground arith
  source_reviews-AreReviewsOf [] (invocation ∷ rest) sources n q = ground arith
  source_reviews-AreReviewsOf (lens ∷ lenses) [] sources n q = ground arith
