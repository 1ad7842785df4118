-- ===== src/Records/Review/Provenance.antt =====
-- What `validate_output_projection` of afk_records/review.py has established of the aggregate of a Review.
use afk_pipeline.Prelude.{
  String, Bool, true, not, ◌&&◌, Option, List, ◌≡◌, refl, sym, ap, ◌∙◌, subst, All, arith, str_eq,
  &&-true,
}
use afk_pipeline.Py.Value.{Value, Fields, dict, is_text, is_list, py_eq}
use afk_pipeline.Py.Read.{has}
use afk_pipeline.Py.Result.{ok, value_error, >>=-returns}
use afk_pipeline.Py.Shape.{at}
use afk_pipeline.Py.Facts.{require-then, taken}
use afk_pipeline.Records.Plan.Shapes.{dict_value}
use afk_pipeline.Records.Plan.Build.{list_of}
use afk_pipeline.Records.Review.Finding.{Tree, validate_review, review_audit}
use afk_pipeline.Records.Review.Receipts.{Evidence, get_of, lenses_of}
use afk_pipeline.Records.Review.Sources.{
  AreReviewsOf, AreInvocations, malformed_lenses-AreInvocations, source_reviews-AreReviewsOf,
}
use afk_pipeline.Records.Review.Projection.{
  Source, source_reviews, findings_in, provenance_of, summary_of, malformed_lenses, invocations_of,
  check_evidence, check_projection, validate_output_projection,
}
use afk_pipeline.Records.Review.Traced.{
  get_elem?, IsTraced, findings_of, findings_in-findings_of, provenance_of-Traced,
}

-- what the projection of a Review with a mode has established of its aggregate
pub record IsProjected (tree : Tree) (related : List String) (output : Fields) (summary : String)
    (findings : List Value) : Type 0 where
  pub invocations : List Value
  pub own_invocations :
      AreInvocations (at output "review_mode") (at output "review_invocations") invocations
  pub sources : List Source
  pub own_sources :
      AreReviewsOf tree related (lenses_of (at output "review_mode")) invocations sources
  pub entries : List Value
  pub summed :
      str_eq summary (summary_of (is_text (at output "review_mode") "combined") sources) ≡ true
  -- the findings are those of the sources, and the provenance is the list of the entries
  pub gathered : py_eq (list_of findings) (list_of (findings_of sources)) ≡ true
  pub own_provenance : py_eq (at output "finding_provenance") (list_of entries) ≡ true
  pub traced : All (IsTraced 0 sources (findings_of sources)) entries

module _ (tree : Tree) (related : List String) (evidence : Option Evidence)
    (has_receipt : Bool) where
  check_projection-IsProjected :
      (output : Fields) (summary : String) (findings : List Value) (sources : List Source)
      → check_projection tree related evidence has_receipt output summary findings ≡ ok sources
      → IsProjected tree related output summary findings
  unfolding check_projection
  check_projection-IsProjected output summary findings given q0 =
      let (invocations, e1, q1) =
        >>=-returns (invocations_of (at output "review_invocations")) _ q0 in
      let (shape, q2) =
        require-then (value_error "Review invocation projection is malformed")
          (not (malformed_lenses (at output "review_mode") invocations)
            && is_list (at output "finding_provenance"))
          _ q1 in
      let (u, e3, q3) = >>=-returns (check_evidence evidence output) _ q2 in
      let (sources, e4, q4) =
        >>=-returns (source_reviews tree related (lenses_of (at output "review_mode")) invocations)
          _ q3 in
      let (entries, e5, q5) = >>=-returns (provenance_of 0 sources) _ q4 in
      let (test, q6) =
        require-then (value_error "Review aggregate provenance disagrees")
          (py_eq (list_of findings) (list_of (findings_in sources))
            && str_eq summary (summary_of (is_text (at output "review_mode") "combined") sources)
            && py_eq (get_of (at output "review") "audit") review_audit
            && py_eq (at output "finding_provenance") (list_of entries))
          _ q5 in
      let (well_formed, listed) =
        &&-true (not (malformed_lenses (at output "review_mode") invocations))
          (is_list (at output "finding_provenance")) shape in
      let own =
        malformed_lenses-AreInvocations (at output "review_mode") (at output "review_invocations")
          invocations e1 well_formed in
      let (rest, provenance) =
        &&-true _ (py_eq (at output "finding_provenance") (list_of entries)) test in
      let (rest', audit) =
        &&-true _ (py_eq (get_of (at output "review") "audit") review_audit) rest in
      let (same, summed) =
        &&-true (py_eq (list_of findings) (list_of (findings_in sources))) _ rest' in
      record {
        invocations = invocations;
        own_invocations = own;
        sources = sources;
        own_sources =
            source_reviews-AreReviewsOf tree related (lenses_of (at output "review_mode"))
              invocations sources own.one_each e4;
        summed = summed;
        entries = entries;
        gathered =
            ap (λ fs. py_eq (list_of findings) (list_of fs)) (sym (findings_in-findings_of sources))
            ∙ same;
        own_provenance = provenance;
        traced =
            subst (λ fs. All (IsTraced 0 sources fs) entries) (findings_in-findings_of sources)
              (provenance_of-Traced 0 sources (findings_in sources) 0 0 sources entries (λ s m. m)
                refl
                (λ k n f e h.
                  ap (get_elem? (findings_in sources)) {x = n} {y = k} (omega arith) ∙ h)
                e5);
      }

-- An accepted output that has a mode has one invocation for each lens of the mode, in their order; each
-- succeeded, and its review is accepted, with findings of its lens only if the mode is split. The findings of
-- the aggregate are those of these reviews, one after the other, its summary is made of theirs, and each
-- entry of the provenance names a finding of the aggregate, and the lens and the number of the same finding
-- in one of the reviews.
pub validate_output_projection-IsProjected :
    (tree : Tree) (related : List String) (evidence : Option Evidence) (has_receipt : Bool)
    (output : Fields)
    → validate_output_projection tree related evidence has_receipt (dict output) ≡ ok tt
    → has output "review_mode" ≡ true
    → (review : String × List Value) × (validate_review tree related (at output "review")
        ≡ ok review)
      × IsProjected tree related output review.0 review.1
unfolding validate_output_projection dict_value
validate_output_projection-IsProjected tree related evidence has_receipt output q0 mode =
    let (review, e1, q1) = >>=-returns (validate_review tree related (at output "review")) _ q0 in
    let q2 = taken (has output "review_mode") _ _ mode q1 in
    let (sources, e3, q3) =
      >>=-returns (check_projection tree related evidence has_receipt output review.0 review.1) _
        q2 in
    (
      review,
      e1,
      check_projection-IsProjected tree related evidence has_receipt output review.0 review.1
          sources e3,
    )
