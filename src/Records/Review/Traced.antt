-- ===== src/Records/Review/Traced.antt =====
-- The findings and the provenance that `validate_output_projection` of afk_records/review.py expects of the
-- reviews of a Review's invocations.
use afk_pipeline.Prelude.{
  ℕ, zero, suc, pos, if◌then◌else◌, ◌+◌, Option, none, some, List, [], ◌∷◌, ◌++◌, ◌≡◌, ◌⊎◌, inl,
  inr, refl, ap, ◌∙◌, subst, All, length, arith, str_eq,
}
use afk_pipeline.Py.Value.{Value, field, end, int, str, dict}
use afk_pipeline.Py.Read.{index}
use afk_pipeline.Py.Result.{ok, >>=-returns}
use afk_pipeline.Py.Shape.{at}
use afk_pipeline.Py.Facts.{is_ok}
use afk_pipeline.Records.Review.Projection.{
  Source, findings_in, provenance_entry, lens_of, entries_of, provenance_of,
}

-- xs[n], if it is there
abbrev pub get_elem? : List Value → ℕ → Option Value
get_elem? [] n = none
get_elem? (x ∷ xs) zero = some x
get_elem? (x ∷ xs) (suc n) = get_elem? xs n

abbrev pub IsSource : Source → List Source → Type 0
IsSource source [] = ⊥
IsSource source (s ∷ rest) = (source ≡ s) ⊎ IsSource source rest

-- the entry names a finding of the aggregate, and the source and number of the same finding
pub record IsTraced (first : ℕ) (sources : List Source) (findings : List Value) (entry : Value)
    : Type 0 where
  pub place : ℕ
  pub source : Source
  pub own_source : IsSource source sources
  pub source_place : ℕ
  pub finding : Value
  pub lens : Value
  pub own_lens :
      (if str_eq source.lens "combined" then index finding "lens" else ok (str source.lens))
      ≡ ok lens
  pub says :
      entry
      ≡ dict (
          field "finding_index"
            (int (pos (first + place)))
            (field "lens" lens (field "source_finding_index" (int (pos source_place)) end)))
  pub in_aggregate : get_elem? findings place ≡ some finding
  pub in_source : get_elem? source.findings source_place ≡ some finding

-- the findings of the sources, one after the other
abbrev pub findings_of : List Source → List Value
findings_of [] = []
findings_of (source ∷ rest) = source.findings ++ findings_of rest

pub findings_in-findings_of : (sources : List Source) → findings_in sources ≡ findings_of sources
unfolding findings_in
findings_in-findings_of [] = refl
findings_in-findings_of (source ∷ rest) =
    ap (λ fs. source.findings ++ fs) (findings_in-findings_of rest)

get_elem-left :
    (xs ys : List Value) (k : ℕ) (f : Value)
    → get_elem? xs k ≡ some f
    → get_elem? (xs ++ ys) k ≡ some f
get_elem-left [] ys k f h = cc
get_elem-left (x ∷ xs) ys zero f h = h
get_elem-left (x ∷ xs) ys (suc k) f h = get_elem-left xs ys k f h

get_elem-right :
    (xs ys : List Value) (k n : ℕ) (f : Value)
    → n ≡ length xs + k
    → get_elem? ys k ≡ some f
    → get_elem? (xs ++ ys) n ≡ some f
get_elem-right [] ys k n f e h = ap (get_elem? ys) {x = n} {y = k} (omega arith) ∙ h
get_elem-right (x ∷ xs) ys k zero f e h = let none_there : ⊥ = omega arith in absurd none_there
get_elem-right (x ∷ xs) ys k (suc n) f e h = get_elem-right xs ys k n f (omega arith) h

All-append : (P : Value → Type 0) (xs ys : List Value) → All P xs → All P ys → All P (xs ++ ys)
All-append P [] ys hx hy = hy
All-append P (x ∷ xs) ys (h, hx) hy = (h, All-append P xs ys hx hy)

-- what is at the numbers of `rest` is in `whole`, from a place on
abbrev Within : List Value → (place : ℕ) → List Value → Type 0
Within rest place whole =
    (k n : ℕ) (f : Value) → n ≡ place + k → get_elem? rest k ≡ some f → get_elem? whole n ≡ some f

module _ (first : ℕ) (sources : List Source) (findings : List Value) where
  abbrev Traced : Value → Type 0
  Traced = IsTraced first sources findings

  entries_of-Traced :
      (source : Source) (i j place : ℕ) (rest es : List Value)
      → IsSource source sources
      → i ≡ first + place
      → Within rest place findings
      → Within rest j source.findings
      → entries_of source.lens i j rest ≡ ok es
      → All Traced es
  unfolding entries_of provenance_entry
  entries_of-Traced source i j place [] es own at inside within q =
      subst (All Traced) (is_ok [] es q) tt
  entries_of-Traced source i j place (finding ∷ rest) es own at inside within q0 =
      let (lens, e1, q1) = >>=-returns (lens_of source.lens finding) _ q0 in
      let (more, e2, q2) = >>=-returns (entries_of source.lens (suc i) (suc j) rest) _ q1 in
      let here : Traced (provenance_entry i lens j) = record {
        place = place;
        source = source;
        own_source = own;
        source_place = j;
        finding = finding;
        lens = lens;
        own_lens = e1;
        says = ap (λ n. provenance_entry n lens j) at;
        in_aggregate = inside 0 place finding (omega arith) refl;
        in_source = within 0 j finding (omega arith) refl;
      } in
      subst (All Traced) (is_ok (provenance_entry i lens j ∷ more) es q2) (
        here,
        entries_of-Traced source (suc i) (suc j) (suc place) rest more own (omega arith)
            (λ k n f e h. inside (suc k) n f (omega arith) h)
            (λ k n f e h. within (suc k) n f (omega arith) h) e2,
      )

  pub provenance_of-Traced :
      (i place : ℕ) (rest : List Source) (es : List Value)
      → ((s : Source) → IsSource s rest → IsSource s sources)
      → i ≡ first + place
      → Within (findings_in rest) place findings
      → provenance_of i rest ≡ ok es
      → All Traced es
  unfolding provenance_of findings_in
  provenance_of-Traced i place [] es known at inside q = subst (All Traced) (is_ok [] es q) tt
  provenance_of-Traced i place (source ∷ rest) es known at inside q0 =
      let (own, e1, q1) = >>=-returns (entries_of source.lens i 0 source.findings) _ q0 in
      let (more, e2, q2) = >>=-returns (provenance_of (i + length source.findings) rest) _ q1 in
      subst (All Traced) (is_ok (own ++ more) es q2) (
        All-append Traced own more
          (entries_of-Traced source i 0 place source.findings own (known source (inl refl)) at
            (λ k n f e h. inside k n f e (get_elem-left source.findings (findings_in rest) k f h))
            (λ k n f e h. ap (get_elem? source.findings) {x = n} {y = k} (omega arith) ∙ h) e1)
          (provenance_of-Traced (i + length source.findings) (place + length source.findings) rest
            more (λ s m. known s (inr m)) (omega arith)
            (λ k n f e h. inside (length source.findings + k) n f (omega arith) (
              get_elem-right source.findings (findings_in rest) k (length source.findings + k) f
                refl h))
            e2))
