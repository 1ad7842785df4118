-- ===== src/Pr/Decision/Published.antt =====
-- What it means that `check_phases` of a job finds nothing to note.
use afk_pipeline.Prelude.{
  ℕ, String, Bool, true, false, not, ◌||◌, Option, some, List, [], ◌∷◌, ◌++◌, ◌≡◌, refl, ◌∙◌, ap,
  arith, if◌then◌else◌, str_eq, All,
}
use afk_pipeline.Py.Value.{Value, Fields, null, dict, is_text}
use afk_pipeline.Py.Result.{Result, ok, err, >>=-returns, ◌>>=◌}
use afk_pipeline.Pr.Decision.Notes.{Note, note_if, pause_note}
use afk_pipeline.Pr.Decision.Phases.{
  Subject, at, check_entry, check_phase, check_publication, check_success, success,
}
use afk_pipeline.Pr.Decision.Items.{check_phases}

pub append-nil_inv {ℓ} : {A : Type ℓ} (xs ys : List A) → xs ++ ys ≡ [] → (xs ≡ []) × (ys ≡ [])
append-nil_inv [] ys h = (refl, h)
append-nil_inv (x ∷ xs) ys h = cc

pub note_if-nil :
    (b : Bool) (code : String) (job : Value) (phase : Option String)
    → note_if b code job phase ≡ []
    → b ≡ false
note_if-nil true code job phase h = cc
note_if-nil false code job phase h = refl

-- The phase has a record in its successful state, its worker is not lost, and it is published.
pub record IsPublished (s : Subject) (phase : String) : Type 0 where
  pub entry : Fields
  pub has_entry : at s.phases phase ≡ dict entry
  pub succeeded :
      is_text (at entry "state") (if str_eq phase "fixtures" then "passed" else "completed") ≡ true
  pub observed : is_text (at entry "worker_observation") "unavailable" ≡ false
  pub published : is_text (at entry "publication") "published" ≡ true

pub ok-injective : {A : Type 0} {x y : A} → ok x ≡ ok y → x ≡ y
ok-injective h = cc

pub one-ne-nil : {n : Note} → ok (n ∷ []) ≡ ok [] → ⊥
one-ne-nil h = cc

snoc≢nil {ℓ} : {A : Type ℓ} (xs : List A) (x : A) → xs ++ x ∷ [] ≡ [] → ⊥
snoc≢nil [] x h = cc
snoc≢nil (y ∷ ys) x h = cc

-- the branches of `check_entry`, with its tests and its parts as variables
shape-nil :
    (waits good : Bool) (lost : List Note) (pending failed : Note) (found : Result (List Note))
    (publication : List Note)
    → (if waits
        then ok (lost ++ pending ∷ [])
        else if not good
        then ok (lost ++ failed ∷ [])
        else (found >>= λ f. ok (lost ++ f ++ publication)))
      ≡ ok []
    → (good ≡ true) × (lost ≡ []) × (found ≡ ok []) × (publication ≡ [])
shape-nil true good lost n f found p h = absurd (snoc≢nil lost n (ok-injective h))
shape-nil false false lost n f found p h = absurd (snoc≢nil lost f (ok-injective h))
shape-nil false true [] n f (ok []) p h = (refl, refl, refl, ok-injective h)
shape-nil false true [] n f (ok (x ∷ xs)) p h = cc
shape-nil false true (l ∷ ls) n f (ok []) p h = cc
shape-nil false true (l ∷ ls) n f (ok (x ∷ xs)) p h = cc
shape-nil false true lost n f (err e) p h = cc

module _ (encoded_length : Value → ℕ) (loads : String → Option Value) where
  check_publication-nil :
      (s : Subject) (phase : String) (entry : Fields)
      → check_publication s phase entry ≡ []
      → is_text (at entry "publication") "published" ≡ true
  unfolding check_publication
  check_publication-nil s phase entry h = ground arith

  check_entry-nil :
      (s : Subject) (phase : String) (entry : Fields)
      → check_entry s phase encoded_length loads entry ≡ ok []
      → (is_text (at entry "state") (if str_eq phase "fixtures" then "passed" else "completed")
          ≡ true)
        × (is_text (at entry "worker_observation") "unavailable" ≡ false)
        × (is_text (at entry "publication") "published" ≡ true)
  unfolding check_entry
  check_entry-nil s phase entry h =
      let (good, seen, _, published) =
        shape-nil (is_text (at entry "state") "queued" || is_text (at entry "state") "running")
          (is_text (at entry "state") (success s phase encoded_length loads)) _ _ _
          (check_success s phase encoded_length loads entry) _ h in
      (good, note_if-nil _ _ _ _ seen, check_publication-nil s phase entry published)

  check_phase-nil :
      (s : Subject) (phase : String)
      → check_phase s phase encoded_length loads ≡ ok []
      → IsPublished s phase
  unfolding check_phase
  check_phase-nil s phase h = by_record (at s.phases phase) refl h
    where
      by_record :
          (v : Value)
          → at s.phases phase ≡ v
          → (elim v [
            | dict entry ↦ check_entry s phase encoded_length loads entry
            | _ ↦ ok (pause_note "phase_evidence_missing" s.job_id (some phase))
          ])
            ≡ ok []
          → IsPublished s phase
      by_record (dict entry) e k =
          let (good, seen, published) = check_entry-nil s phase entry k in
          record {
            entry = entry;
            has_entry = e;
            succeeded = good;
            observed = seen;
            published = published;
          }
      by_record null e k = cc
      by_record _ e k = cc

  pub check_phases-nil :
      (s : Subject) (phases : List String)
      → check_phases encoded_length loads s phases ≡ ok []
      → All (IsPublished s) phases
  unfolding check_phases
  check_phases-nil s [] h = tt
  check_phases-nil s (phase ∷ rest) h =
      let (here, e1, h1) = >>=-returns (check_phase s phase encoded_length loads) _ h in
      let (others, e2, h2) = >>=-returns (check_phases encoded_length loads s rest) _ h1 in
      let (a, b) = append-nil_inv here others (ok-injective h2) in
      (check_phase-nil s phase (e1 ∙ ap ok a), check_phases-nil s rest (e2 ∙ ap ok b))
