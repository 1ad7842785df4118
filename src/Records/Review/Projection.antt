-- ===== src/Records/Review/Projection.antt =====
-- `validate_output_projection` of afk_records/review.py: the aggregate of a Review against the reviews of
-- its invocations.
use Prim.Native.String.{◌++◌ as append}
use afk_pipeline.Prelude.{
  ℕ, suc, ◌+◌, pos, String, Bool, true, false, not, ◌&&◌, ◌||◌, Option, none, some, List, [], ◌∷◌,
  ◌++◌, length, map, ◌==◌, str_eq, if◌then◌else◌,
}
use afk_pipeline.Py.Value.{
  Value, Fields, field, end, str, int, list, dict, items, is_text, is_list, py_eq,
}
use afk_pipeline.Py.Read.{index, get, has}
use afk_pipeline.Py.Result.{Result, ok, err, value_error, ◌>>=◌}
use afk_pipeline.Py.Shape.{has_keys, at, require}
use afk_pipeline.Records.Plan.Shapes.{dict_value}
use afk_pipeline.Records.Plan.Build.{list_of}
use afk_pipeline.Records.Review.Finding.{Tree, validate_review, review_audit}
use afk_pipeline.Records.Review.Receipts.{
  Evidence, get_of, is_dict, malformed, lenses_of, validate_invocation_receipts,
}

-- the review of one invocation
pub record Source : Type 0 where
  pub lens : String
  pub summary : String
  pub findings : List Value

-- f"reviewers/{lens}/{file}"
abbrev pub reviewer_path : (lens file : String) → String
reviewer_path lens file = append "reviewers/" (append lens (append "/" file))

abbrev pub artifact : (lens file : String) → String
artifact lens file = if str_eq lens "combined" then file else reviewer_path lens file

abbrev pub artifacts_of : (lens : String) → Value
artifacts_of lens = dict (
    field "events" (str (artifact lens "events.jsonl")) (
      field "stderr" (str (artifact lens "stderr.log"))
        (field "inference" (str (artifact lens "inference")) end)))

abbrev pub invocation_keys : List String
invocation_keys = "lens" ∷ "outcome" ∷ "process" ∷ "agent" ∷ "review" ∷ "artifacts" ∷ []

-- all(finding["lens"] == lens)
unfoldable pub all_of_lens : (lens : String) → List Value → Result Bool
all_of_lens lens [] = ok true
all_of_lens lens (finding ∷ rest) =
    let others = all_of_lens lens rest in
    do own ← index finding "lens"; if is_text own lens then others else ok false

module _ (tree : Tree) (related : List String) where
  unfoldable pub source_review : (lens : String) → Value → Result Source
  source_review lens (dict invocation) = do
    _ ← require (value_error "Review invocation projection is incomplete") (
        has_keys invocation_keys invocation
        && is_text (at invocation "outcome") "succeeded"
        && py_eq (at invocation "agent") (dict (field "status" (str "completed") end))
        && is_dict (at invocation "process")
        && py_eq (at invocation "artifacts") (artifacts_of lens))
    (summary, findings) ← validate_review tree related (at invocation "review")
    own ← if str_eq lens "combined" then ok true else all_of_lens lens findings
    _ ← require (value_error "Review invocation lens is malformed") own
    ok (record { lens = lens; summary = summary; findings = findings })
  source_review lens value = err (value_error "Review invocation projection is incomplete")

  unfoldable pub source_reviews : (lenses : List String) → List Value → Result (List Source)
  source_reviews (lens ∷ lenses) (invocation ∷ rest) = do
    own ← source_review lens invocation
    more ← source_reviews lenses rest
    ok (own ∷ more)
  source_reviews _ _ = ok []

-- expected_findings
unfoldable pub findings_in : List Source → List Value
findings_in [] = []
findings_in (source ∷ rest) = source.findings ++ findings_in rest

unfoldable pub provenance_entry : (finding_index : ℕ) (lens : Value) (source_index : ℕ) → Value
provenance_entry finding_index lens source_index = dict (
    field "finding_index" (int (pos finding_index))
      (field "lens" lens (field "source_finding_index" (int (pos source_index)) end)))

-- the lens that a finding of a combined review names is its own
abbrev pub lens_of : (lens : String) → (finding : Value) → Result Value
lens_of lens finding = if str_eq lens "combined" then index finding "lens" else ok (str lens)

unfoldable pub entries_of :
    (lens : String) → (finding_index source_index : ℕ) → List Value → Result (List Value)
entries_of lens finding_index source_index [] = ok []
entries_of lens finding_index source_index (finding ∷ rest) = do
  own ← lens_of lens finding
  more ← entries_of lens (suc finding_index) (suc source_index) rest
  ok (provenance_entry finding_index own source_index ∷ more)

-- expected_provenance, from the number of the first finding on
unfoldable pub provenance_of : (finding_index : ℕ) → List Source → Result (List Value)
provenance_of finding_index [] = ok []
provenance_of finding_index (source ∷ rest) = do
  own ← entries_of source.lens finding_index 0 source.findings
  more ← provenance_of (finding_index + length source.findings) rest
  ok (own ++ more)

-- lens.capitalize() of a lens of a split Review
abbrev pub capitalized : String → String
capitalized lens =
    if str_eq lens "behavior"
    then "Behavior"
    else if str_eq lens "design"
    then "Design"
    else "Standards"

abbrev pub titled : Source → String
titled source = append (capitalized source.lens) (append ": " source.summary)

unfoldable pub joined_summaries : List Source → String
joined_summaries [] = ""
joined_summaries (source ∷ []) = titled source
joined_summaries (source ∷ rest) = append (titled source) (append "\n" (joined_summaries rest))

abbrev pub summary_of : (combined : Bool) → List Source → String
summary_of true (source ∷ rest) = source.summary
summary_of combined sources = joined_summaries sources

-- [item.get("lens") for item in invocations if isinstance(item, dict)]
abbrev pub named_lenses : List Value → List Value
named_lenses [] = []
named_lenses (dict fs ∷ rest) = at fs "lens" ∷ named_lenses rest
named_lenses (v ∷ rest) = named_lenses rest

abbrev pub check_evidence : Option Evidence → Fields → Result (Unit {0})
check_evidence none output = ok tt
check_evidence (some evidence) output = validate_invocation_receipts evidence output

-- a Review without a mode is checked only where its root receipt has a text as its response
abbrev pub check_unprojected : Option Evidence → (has_receipt : Bool) → Fields → Result (Unit {0})
check_unprojected (some evidence) true output = do
  receipt ← evidence.receipt "combined"
  response ← get receipt "terminal_response"
  is_response response
  where
    is_response : Value → Result (Unit {0})
    is_response (str s) = validate_invocation_receipts evidence output
    is_response v = ok tt
check_unprojected evidence has_receipt output = ok tt

abbrev pub malformed_lenses : (mode : Value) → List Value → Bool
malformed_lenses mode invocations =
    not (is_text mode "combined" || is_text mode "split")
    || not (py_eq (list_of (named_lenses invocations)) (list_of (map str (lenses_of mode))))
    || not (length invocations == length (lenses_of mode))

abbrev pub invocations_of : Value → Result (List Value)
invocations_of (list vs) = ok (items vs)
invocations_of v = malformed

module _ (tree : Tree) (related : List String) (evidence : Option Evidence)
    (has_receipt : Bool) where
  -- the aggregate of a Review with a mode, its summary and its findings
  unfoldable pub check_projection :
      (output : Fields) → (summary : String) (findings : List Value) → Result (List Source)
  check_projection output summary findings = do
    invocations ← invocations_of (at output "review_invocations")
    _ ← require (value_error "Review invocation projection is malformed") (
        not (malformed_lenses (at output "review_mode") invocations)
        && is_list (at output "finding_provenance"))
    _ ← check_evidence evidence output
    sources ← source_reviews tree related (lenses_of (at output "review_mode")) invocations
    expected ← provenance_of 0 sources
    _ ← require (value_error "Review aggregate provenance disagrees") (
        py_eq (list_of findings) (list_of (findings_in sources))
        && str_eq summary (summary_of (is_text (at output "review_mode") "combined") sources)
        && py_eq (get_of (at output "review") "audit") review_audit
        && py_eq (at output "finding_provenance") (list_of expected))
    ok sources

  unfoldable pub validate_output_projection : (output : Value) → Result (Unit {0})
  validate_output_projection value = do
    output ← dict_value value
    (summary, findings) ← validate_review tree related (at output "review")
    if has output "review_mode"
        then (do _ ← check_projection output summary findings; ok tt)
        else check_unprojected evidence has_receipt output
