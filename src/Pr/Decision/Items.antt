-- ===== src/Pr/Decision/Items.antt =====
-- The checks of afk_pr/decision.py on one selected job, in the order of the loop's body.
use afk_pipeline.Prelude.{
  ℕ, String, Bool, true, not, ◌&&◌, ◌||◌, Option, none, some, List, [], ◌∷◌, ◌++◌, if◌then◌else◌,
  any, all, str_eq, ◌==◌,
}
use afk_pipeline.Py.Value.{
  Value, Fields, null, str, list, dict, end, items, lookup, is_text, is_int, is_number, is_str,
  is_list, truthy, py_eq,
}
use afk_pipeline.Py.Read.{has, or_default, index}
use afk_pipeline.Py.Codes.{lower, eq_codes, spells}
use afk_pipeline.Py.Result.{Result, ok, err, ◌>>=◌}
use afk_pipeline.Pr.Identity.{identity}
use afk_pipeline.Pr.Decision.Notes.{Note, pause_note, note_if}
use afk_pipeline.Pr.Decision.Phases.{
  Subject, at, dict_or_empty, child_of, expects_fixtures, check_phase,
}

abbrev pub texts : List Value → List String
texts [] = []
texts (str s ∷ vs) = s ∷ texts vs
texts (_ ∷ vs) = texts vs

-- set(xs) == set(ys)
abbrev same_texts : List String → List String → Bool
same_texts xs ys = all (λ x. any (str_eq x) ys) xs && all (λ y. any (str_eq y) xs) ys

-- `allowed` of a kind
abbrev allowed : String → List (List String)
allowed kind =
    if str_eq kind "review"
    then ("fixtures" ∷ []) ∷ ("fixtures" ∷ "review" ∷ []) ∷ ("review" ∷ []) ∷ [] ∷ []
    else if str_eq kind "response"
    then ("response" ∷ []) ∷ []
    else if str_eq kind "creation"
    then ("creation" ∷ []) ∷ []
    else []

abbrev value_items : Value → List Value
value_items (list vs) = items vs
value_items _ = []

-- the kind and the expected phases of a job, if they are of the allowed forms
unfoldable pub selection : Fields → Option (String × List String)
selection job = elim (at job "kind") [
  | str kind ↦
      let expected = value_items (at job "expected_phases") in
      if is_list (at job "expected_phases")
        && (truthy (at job "expected_phases") || truthy (at job "fixture_job"))
        && all is_str expected
        && any (same_texts (texts expected)) (allowed kind)
      then some (kind, texts expected)
      else none
  | _ ↦ none
]

-- the pull request that the jobs have to belong to
pub record Target : Type 0 where
  pub repository : List ℕ
  pub number : ℕ
  pub head : Value
  pub base : Value

module _ (t : Target) (known : List (String × Value)) (item job : Fields) where
  abbrev pub identifier : Value
  identifier = or_default (at item "requested_id") (lookup "id" job)

  unfoldable pub fixture_child_mismatched : Result Bool
  fixture_child_mismatched =
      let contract = at job "fixture_contract" in
      do
        child ← child_of known (at job "fixture_job")
        if not (is_str (at job "fixture_job"))
              || not (truthy contract)
              || not (py_eq (at child "fixture_contract") contract)
              || not (py_eq (at child "head") (at job "head"))
              || not (py_eq (at child "base") (at job "base"))
            then ok true
            else do listed ← expects_fixtures child; ok (not listed)

  -- the fixtures of a review that does not run its own
  unfoldable pub check_fixture_child : String → List String → Result (List Note)
  check_fixture_child kind expected =
      if not (any (str_eq "fixtures") expected) && str_eq kind "review"
      then (do
        bad ← fixture_child_mismatched
        ok (note_if bad "fixture_child_missing_or_mismatched" identifier none))
      else ok []

  unfoldable pub check_evidence : List String → List Note
  check_evidence expected =
      let evidence = at item "validation_evidence" in
      note_if
        (is_text evidence "invalid"
          || any (str_eq "fixtures") expected
            && (has job "fixture_contract" || has job "fixture_evidence_version")
            && not (is_text evidence "valid"))
        "validation_contract_or_evidence_changed" identifier (some "fixtures")

  abbrev pub command_of : String → List String → String
  command_of kind expected =
      if str_eq kind "response"
      then "respond"
      else if any (str_eq "review") expected
      then "review"
      else "fixtures"

  unfoldable pub is_own_action : String → Fields → Bool
  is_own_action command action =
      is_int (at action "schema_version")
      && is_number (at action "schema_version") 1
      && py_eq (at action "id") (at job "action_id")
      && py_eq (at action "job_id") identifier
      && py_eq (at action "head") (at job "head")
      && py_eq (at action "base") (at job "base")
      && spells (lower t.repository) (at action "repository")
      && is_int (at action "pr_number")
      && is_number (at action "pr_number") t.number
      && is_text (at action "command") command

  unfoldable pub check_action : String → List String → List Note
  check_action kind expected =
      if not (truthy (at job "action_id")) then [] else elim (at item "action") [
        | dict action ↦
            if is_own_action (command_of kind expected) action
            then note_if (not (is_text (at action "state") "submitted")) "action_unsettled"
                identifier none
            else pause_note "action_identity_unknown" identifier none
        | _ ↦ pause_note "action_identity_unknown" identifier none
      ]

  module _ (phases : Fields) (kind : String) where
    abbrev pub work : Fields
    work =
        if str_eq kind "response" || str_eq kind "creation"
        then dict_or_empty (at phases (if str_eq kind "response" then "response" else "creation"))
        else end

    abbrev pub progress : Fields
    progress = dict_or_empty (at work "progress")

    abbrev pub revision : Value
    revision =
        if is_text (at progress "push") "pushed" then at progress "candidate" else at job "head"

    -- a running push that may have reached GitHub before its confirmation was written
    abbrev pub in_flight_push : Bool
    in_flight_push =
        is_text (at work "state") "running"
        && is_text (at progress "push") "attempted"
        && py_eq (at progress "candidate") t.head

    unfoldable pub check_revision : List Note
    check_revision =
        note_if
          (not (py_eq (at job "base") t.base) || not (py_eq revision t.head) && not in_flight_push)
          "revision_changed" identifier none

    abbrev pub subject : Subject
    subject = record {
      job = job;
      job_id = identifier;
      phases = phases;
      progress = progress;
      revision = revision;
      known = known;
    }

abbrev pub belongs : Target → List ℕ × ℕ → Bool
belongs t own = eq_codes (lower own.0) (lower t.repository) && own.1 == t.number

module _ (encoded_length : Value → ℕ) (loads : String → Option Value) where
  -- the loop over the expected phases
  unfoldable pub check_phases : Subject → List String → Result (List Note)
  check_phases s [] = ok []
  check_phases s (phase ∷ rest) =
      let later = check_phases s rest in
      do here ← check_phase s phase encoded_length loads; others ← later; ok (here ++ others)

  -- a job whose pull request, phases and kind are as expected
  unfoldable pub check_job :
      Target
      → List (String × Value)
      → (item job phases : Fields) (kind : String) (expected : List String) → Result (List Note)
  check_job t known item job phases kind expected = do
    child ← check_fixture_child t known item job kind expected
    found ← check_phases (subject t known item job phases kind) expected
    ok (
        child
        ++ check_evidence t known item job expected
        ++ check_action t known item job kind expected
        ++ check_revision t known item job phases kind
        ++ found)

  abbrev pub check_selected :
      Target
      → List (String × Value)
      → (item job phases : Fields) → Option (String × List String)
      → Result (List Note)
  check_selected t known item job phases none =
      ok (pause_note "phase_selection_unknown" (identifier t known item job) none)
  check_selected t known item job phases (some (kind, expected)) =
      check_job t known item job phases kind expected

  abbrev pub check_given_phases :
      Target → List (String × Value) → (item job : Fields) → Value → Result (List Note)
  check_given_phases t known item job (dict phases) =
      check_selected t known item job phases (selection job)
  check_given_phases t known item job _ =
      ok (pause_note "phase_evidence_missing" (identifier t known item job) none)

  abbrev pub check_owner :
      Target
      → List (String × Value)
      → (item job : Fields) → Result (List ℕ × ℕ)
      → Result (List Note)
  check_owner t known item job (err e) =
      ok (pause_note "job_identity_unknown" (identifier t known item job) none)
  check_owner t known item job (ok own) =
      if not (belongs t own)
      then ok (pause_note "job_belongs_to_another_pr" (identifier t known item job) none)
      else check_given_phases t known item job (or_default (dict end) (lookup "phases" item))

  -- a job that is a dict
  unfoldable pub check_dict :
      Target → List (String × Value) → (item job : Fields) → Result (List Note)
  check_dict t known item job =
      check_owner t known item job (index (dict job) "pr_url" >>= λ url. identity url)

  abbrev pub check_job_value : Target → List (String × Value) → Fields → Value → Result (List Note)
  check_job_value t known item (dict job) =
      if not (truthy (dict job)) || truthy (at item "error")
      then ok (pause_note "evidence_unavailable" (at item "requested_id") none)
      else check_dict t known item job
  check_job_value t known item _ =
      ok (pause_note "evidence_unavailable" (at item "requested_id") none)

  -- the body of the loop
  unfoldable pub check_item : Target → List (String × Value) → Value → Result (List Note)
  check_item t known (dict item) = check_job_value t known item (at item "job")
  check_item t known _ = ok (pause_note "evidence_unavailable" null none)
