-- ===== src/Records/Tests/Reviewed.antt =====
-- A split Review with a finding of two of its lenses.
use afk_pipeline.Prelude.{ℕ, pos, String, true, false, none, some, List, [], ◌∷◌, ◌≡◌, refl}
use afk_pipeline.Py.Value.{Value, Fields, int, str, dict, py_eq}
use afk_pipeline.Py.Build.{object, array, obj}
use afk_pipeline.Py.Codes.{is_nonblank}
use afk_pipeline.Py.Result.{ok}
use afk_pipeline.Py.Shape.{at}
use afk_pipeline.Records.Plan.Shapes.{dict_value}
use afk_pipeline.Records.Review.Finding.{
  Tree, validate_audit, validate_location, check_location, check_locations, validate_scope_claim,
  validate_finding, check_findings, validate_review, review_audit,
}
use afk_pipeline.Records.Review.Projection.{
  artifacts_of, all_of_lens, source_review, source_reviews, findings_in, provenance_entry,
  entries_of, provenance_of, joined_summaries, check_projection, validate_output_projection,
}
use afk_pipeline.Records.Review.Provenance.{IsProjected, validate_output_projection-IsProjected}

program : Unit {0}
unfolding is_nonblank dict_value validate_audit validate_location check_location check_locations
    validate_scope_claim validate_finding check_findings validate_review all_of_lens source_review
    source_reviews findings_in provenance_entry entries_of provenance_of joined_summaries
    check_projection validate_output_projection py_eq
program = tt

abbrev tree : Tree
tree = record {
  is_inside = λ path. true;
  entry =
      λ path. some (record { mode = "100644"; object_type = "blob"; object_id = "1"; path = path });
  blob = λ id. some (some 10);
}

abbrev finding : (lens : String) (line : ℕ) → Value
finding lens line = object (
    ("lens", str lens)
    ∷ ("title", str "Title")
    ∷ ("details", str "Details")
    ∷ ("locations", array (object (("path", str "a.py") ∷ ("line", int (pos line)) ∷ []) ∷ []))
    ∷ ("scope_claim", object (("kind", str "current") ∷ ("rationale", str "Here") ∷ []))
    ∷ [])

abbrev review : (summary : String) → List Value → Value
review summary findings =
    object (("summary", str summary) ∷ ("findings", array findings) ∷ ("audit", review_audit) ∷ [])

abbrev invocation : (lens : String) → List Value → Value
invocation lens findings = object (
    ("lens", str lens)
    ∷ ("outcome", str "succeeded")
    ∷ ("process", object [])
    ∷ ("agent", object (("status", str "completed") ∷ []))
    ∷ ("review", review "Fine" findings)
    ∷ ("artifacts", artifacts_of lens)
    ∷ [])

abbrev named : (finding_index : ℕ) (lens : String) (source_index : ℕ) → Value
named i lens j = object (
    ("finding_index", int (pos i))
    ∷ ("lens", str lens)
    ∷ ("source_finding_index", int (pos j))
    ∷ [])

abbrev both : List Value
both = finding "behavior" 3 ∷ finding "standards" 10 ∷ []

abbrev output : (provenance : List Value) → Fields
output provenance = obj (
    ("review_mode", str "split")
    ∷ ("review", review "Behavior: Fine\nDesign: Fine\nStandards: Fine" both)
    ∷ (
      "review_invocations",
      array (
          invocation "behavior" (finding "behavior" 3 ∷ [])
          ∷ invocation "design" []
          ∷ invocation "standards" (finding "standards" 10 ∷ [])
          ∷ []),
    )
    ∷ ("finding_provenance", array provenance)
    ∷ [])

abbrev projected : Fields
projected = output (named 0 "behavior" 0 ∷ named 1 "standards" 0 ∷ [])

accepted : validate_output_projection tree [] none false (dict projected) ≡ ok tt
unfolding program
accepted = refl

validate_output_projection-IsProjected_example :
    (r : String × List Value) × (validate_review tree [] (at projected "review") ≡ ok r)
    × IsProjected tree [] projected r.0 r.1
validate_output_projection-IsProjected_example =
    validate_output_projection-IsProjected tree [] none false projected accepted refl
