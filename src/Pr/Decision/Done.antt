-- ===== src/Pr/Decision/Done.antt =====
-- What it means that `check_item` finds nothing to note about a selected job.
use afk_pipeline.Prelude.{
  ℕ, String, Bool, true, false, not, ◌&&◌, ◌||◌, Option, none, some, List, [], ◌≡◌, inl, inr, refl,
  ◌∙◌, ap, arith, All, Bool-cases,
}
use afk_pipeline.Py.Value.{Value, Fields, null, dict, end, truthy, py_eq, lookup}
use afk_pipeline.Py.Read.{index, or_default}
use afk_pipeline.Py.Result.{Result, ok, err, >>=-returns, ◌>>=◌}
use afk_pipeline.Pr.Identity.{identity}
use afk_pipeline.Pr.Decision.Phases.{at}
use afk_pipeline.Pr.Decision.Items.{
  Target, selection, subject, check_phases, check_job, check_selected, check_given_phases,
  check_owner, check_job_value, check_dict, check_item, check_fixture_child, check_evidence,
  check_action, check_revision, belongs, revision, in_flight_push,
}
use afk_pipeline.Pr.Decision.Owned.{OwnsAction, check_action-OwnsAction}
use afk_pipeline.Pr.Decision.Published.{
  append-nil_inv, note_if-nil, ok-injective, one-ne-nil, IsPublished, check_phases-nil,
}

-- A selected job that has done all that was expected of it, for the pull request `t` as it is now.
pub record IsDone (t : Target) (known : List (String × Value)) (v : Value) : Type 0 where
  pub item : Fields
  pub is_item : v ≡ dict item
  pub job : Fields
  pub has_job : at item "job" ≡ dict job
  pub own : List ℕ × ℕ
  pub own_url : (index (dict job) "pr_url" >>= λ url. identity url) ≡ ok own
  pub belonging : belongs t own ≡ true
  pub phases : Fields
  pub has_phases : or_default (dict end) (lookup "phases" item) ≡ dict phases
  pub kind : String
  pub expected : List String
  pub selected : selection job ≡ some (kind, expected)
  pub based : py_eq (at job "base") t.base ≡ true
  pub at_head :
      (py_eq (revision t known item job phases kind) t.head
        || in_flight_push t known item job phases kind)
      ≡ true
  pub own_action : OwnsAction t known item job kind expected
  pub evidence : check_evidence t known item job expected ≡ []
  pub fixtures : check_fixture_child t known item job kind expected ≡ ok []
  pub done : All (IsPublished (subject t known item job phases kind)) expected

module _ (encoded_length : Value → ℕ) (loads : String → Option Value) (t : Target)
    (known : List (String × Value)) where
  check_job-nil :
      (item job phases : Fields) (kind : String) (expected : List String)
      → check_job encoded_length loads t known item job phases kind expected ≡ ok []
      → (check_fixture_child t known item job kind expected ≡ ok [])
        × (check_evidence t known item job expected ≡ [])
        × (check_action t known item job kind expected ≡ [])
        × (check_revision t known item job phases kind ≡ [])
        × (check_phases encoded_length loads (subject t known item job phases kind) expected
            ≡ ok [])
  unfolding check_job
  check_job-nil item job phases kind expected h =
      let (child, e1, h1) = >>=-returns (check_fixture_child t known item job kind expected) _ h in
      let (found, e2, h2) =
        >>=-returns
          (check_phases encoded_length loads (subject t known item job phases kind) expected) _
          h1 in
      let (r1, e) = append-nil_inv _ found (ok-injective h2) in
      let (r2, d) = append-nil_inv _ (check_revision t known item job phases kind) r1 in
      let (r3, c) = append-nil_inv _ (check_action t known item job kind expected) r2 in
      let (a, b) = append-nil_inv child (check_evidence t known item job expected) r3 in
      (e1 ∙ ap ok a, b, c, d, e2 ∙ ap ok e)

  check_revision-nil :
      (item job phases : Fields) (kind : String)
      → check_revision t known item job phases kind ≡ []
      → (py_eq (at job "base") t.base ≡ true)
        × ((py_eq (revision t known item job phases kind) t.head
              || in_flight_push t known item job phases kind)
            ≡ true)
  unfolding check_revision
  check_revision-nil item job phases kind h =
      bools (py_eq (at job "base") t.base) _ (in_flight_push t known item job phases kind)
        (note_if-nil _ _ _ _ h)
    where
      bools : (a b c : Bool) → (not a || not b && not c) ≡ false → (a ≡ true) × ((b || c) ≡ true)
      bools a b c e = ground arith

  check_selected-nil :
      (item job phases : Fields)
      → at item "job" ≡ dict job
      → (own : List ℕ × ℕ) → (index (dict job) "pr_url" >>= λ url. identity url) ≡ ok own
      → belongs t own ≡ true
      → or_default (dict end) (lookup "phases" item) ≡ dict phases
      → (chosen : Option (String × List String)) → selection job ≡ chosen
      → check_selected encoded_length loads t known item job phases chosen ≡ ok []
      → IsDone t known (dict item)
  check_selected-nil item job phases has_job own own_url belonging has_phases none e h = cc
  check_selected-nil item job phases has_job own own_url belonging has_phases
        (some (kind, expected)) e h =
      let (child, evidence, action, revised, done) =
        check_job-nil item job phases kind expected h in
      let (based, at_head) = check_revision-nil item job phases kind revised in
      record {
        item = item;
        is_item = refl;
        job = job;
        has_job = has_job;
        own = own;
        own_url = own_url;
        belonging = belonging;
        phases = phases;
        has_phases = has_phases;
        kind = kind;
        expected = expected;
        selected = e;
        based = based;
        at_head = at_head;
        own_action = check_action-OwnsAction t known item job kind expected action;
        evidence = evidence;
        fixtures = child;
        done =
            check_phases-nil encoded_length loads (subject t known item job phases kind) expected
              done;
      }

  check_dict-nil :
      (item job : Fields)
      → at item "job" ≡ dict job
      → check_dict encoded_length loads t known item job ≡ ok []
      → IsDone t known (dict item)
  unfolding check_dict
  check_dict-nil item job has_job h =
      by_url (index (dict job) "pr_url" >>= λ url. identity url) refl h
    where
      by_phases :
          (own : List ℕ × ℕ)
          → (index (dict job) "pr_url" >>= λ url. identity url) ≡ ok own
          → belongs t own ≡ true
          → (v : Value) → or_default (dict end) (lookup "phases" item) ≡ v
          → check_given_phases encoded_length loads t known item job v ≡ ok []
          → IsDone t known (dict item)
      by_phases own url mine (dict phases) e k =
          check_selected-nil item job phases has_job own url mine e (selection job) refl k
      by_phases own url mine null e k = cc
      by_phases own url mine _ e k = cc

      by_url :
          (r : Result (List ℕ × ℕ))
          → (index (dict job) "pr_url" >>= λ url. identity url) ≡ r
          → check_owner encoded_length loads t known item job r ≡ ok []
          → IsDone t known (dict item)
      by_url (err x) e k = cc
      by_url (ok own) e k = elim (Bool-cases (belongs t own)) [
        | inl mine ↦ by_phases own e mine _ refl (rw mine at k)
        | inr other ↦ absurd (one-ne-nil (rw other at k))
      ]

  pub check_item-nil :
      (v : Value) → check_item encoded_length loads t known v ≡ ok [] → IsDone t known v
  unfolding check_item
  check_item-nil (dict item) h = by_job (at item "job") refl h
    where
      by_job :
          (v : Value)
          → at item "job" ≡ v
          → check_job_value encoded_length loads t known item v ≡ ok []
          → IsDone t known (dict item)
      by_job (dict job) e k =
          elim (Bool-cases (not (truthy (dict job)) || truthy (at item "error"))) [
            | inl bad ↦ absurd (one-ne-nil (rw bad at k))
            | inr good ↦ check_dict-nil item job e (rw good at k)
          ]
      by_job null e k = cc
      by_job _ e k = cc
  check_item-nil null h = cc
  check_item-nil _ h = cc
