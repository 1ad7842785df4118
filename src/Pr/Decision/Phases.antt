-- ===== src/Pr/Decision/Phases.antt =====
-- The checks of afk_pr/decision.py on one expected phase of a selected job.
use text.Mathlib.Text.{find?}
use afk_pipeline.Prelude.{
  ℕ, String, Bool, true, false, not, ◌&&◌, ◌||◌, Option, none, some, List, [], ◌∷◌, ◌++◌,
  if◌then◌else◌, any, str_eq,
}
use Prim.Native.String.{◌++◌ as append}
use afk_pipeline.Py.Value.{
  Value, Values, Fields, null, str, list, dict, end, field, items, lookup, is_text, is_true,
  is_false, is_int, is_null, is_number, truthy, py_eq,
}
use afk_pipeline.Py.Read.{has, or_default}
use afk_pipeline.Py.Result.{Result, ok, err, type_error, ◌>>=◌}
use afk_pipeline.Pr.ReviewResult.{validate}
use afk_pipeline.Pr.Decision.Notes.{Note, waiting, retry, pause_note, note_if}

-- d.get(k) for a dict d
abbrev pub at : Fields → String → Value
at fs k = or_default null (lookup k fs)

-- v if isinstance(v, dict) else {}
abbrev pub dict_or_empty : Value → Fields
dict_or_empty (dict fs) = fs
dict_or_empty _ = end

abbrev entry_of : Value → List (String × Value)
entry_of (dict item) = keyed (dict_or_empty (at item "job"))
  where
    keyed : Fields → List (String × Value)
    keyed job = elim (at job "id") [ str k ↦ (k, dict item) ∷ [] | _ ↦ [] ]
entry_of _ = []

-- the selected items by the ID of their job
abbrev pub by_id : List Value → List (String × Value)
by_id [] = []
by_id (v ∷ vs) = entry_of v ++ by_id vs

-- the last entry of a key, as a dict has it
abbrev pub last_entry : String → List (String × Value) → Option Value
last_entry k [] = none
last_entry k ((j, v) ∷ rest) = elim (last_entry k rest) [
  | some w ↦ some w
  | none ↦ if str_eq j k then some v else none
]

abbrev job_in : Option Value → Fields
job_in none = end
job_in (some item) = dict_or_empty (at (dict_or_empty item) "job")

-- by_id.get(key, {}).get("job", {}): a list and a dict are no keys
abbrev pub child_of : List (String × Value) → Value → Result Fields
child_of known (str k) = ok (job_in (last_entry k known))
child_of known (list vs) = err type_error
child_of known (dict fs) = err type_error
child_of known _ = ok end

abbrev is_some : Option ℕ → Bool
is_some none = false
is_some (some _) = true

-- text in v
abbrev pub contains : Value → String → Result Bool
contains (list vs) t = ok (any (λ v. is_text v t) (items vs))
contains (dict fs) t = ok (has fs t)
contains (str s) t = ok (is_some (find? s t))
contains _ t = err type_error

-- "fixtures" in job.get("expected_phases", [])
abbrev pub expects_fixtures : Fields → Result Bool
expects_fixtures job =
    contains (or_default (list Values.nil) (lookup "expected_phases" job)) "fixtures"

-- what the checks know of the job and of the pull request
pub record Subject : Type 0 where
  pub job : Fields
  pub job_id : Value
  pub phases : Fields
  pub progress : Fields
  pub revision : Value
  pub known : List (String × Value)

module _ (s : Subject) (phase : String) where
  open s use {job, job_id, progress, revision, known}

  unfoldable pub is_consistent : Fields → Bool
  is_consistent entry =
      let process = dict_or_empty (at entry "process") in
      is_true (at entry "candidate_unchanged")
      && is_int (at process "exit_code")
      && is_number (at process "exit_code") 0
      && is_false (at process "timed_out")
      && is_false (at process "interrupted")
      && is_null (at process "error")
      && has process "error"

  -- the handed over fixtures of a pushed candidate are not those of the selected child
  unfoldable pub child_mismatched : Result Bool
  child_mismatched =
      let reused = is_true (at progress "fixture_reused") in
      do
        child ← elim (at progress "fixture_job") [ str k ↦ child_of known (str k) | _ ↦ ok end ]
        if not (truthy (dict child))
              || not reused && not (py_eq (at child (append phase "_job")) job_id)
              || not (py_eq (at child "head") revision)
              || not (is_text (at child "kind") "review")
            then ok true
            else do
              listed ← expects_fixtures child
              ok (
                  not listed
                  || reused
                    && (not (truthy (at progress "fixture_contract"))
                        || not
                            (py_eq (at child "fixture_contract") (at progress "fixture_contract"))))

  -- a creation or a response that has completed
  unfoldable pub check_work : Result (List Note)
  check_work =
      if str_eq phase "response" && is_false (at progress "changed")
      then ok (pause_note "response_no_change" job_id (some phase))
      else if str_eq phase "response" && not (is_true (at progress "changed"))
      then ok (pause_note "response_result_unknown" job_id (some phase))
      else if not (is_text (at progress "push") "pushed")
      then ok (pause_note "push_unconfirmed" job_id (some phase))
      else do
        bad ← child_mismatched
        ok (note_if bad "fixture_child_missing_or_mismatched" job_id (some phase))

  unfoldable pub check_publication : Fields → List Note
  check_publication entry =
      let publication = at entry "publication" in
      if is_text publication "pending" && is_text (at entry "worker_observation") "active"
      then record {
        kind = waiting;
        code = "publication_pending";
        job_id = job_id;
        phase = some phase;
      }
        ∷ []
      else if is_text publication "pending" || is_text publication "failed"
      then record {
        kind = retry;
        code = "publication_incomplete";
        job_id = job_id;
        phase = some phase;
      }
        ∷ []
      else note_if (not (is_text publication "published")) "publication_state_unknown" job_id
          (some phase)

  module _ (encoded_length : Value → ℕ) (loads : String → Option Value) where
    abbrev accepted : Option Value → Option Value → Bool
    accepted (some summary) (some findings) =
        elim (validate encoded_length loads
          (dict (field "summary" summary (field "findings" findings end)))) [
            | ok v ↦ true
            | err e ↦ false
          ]
    accepted _ _ = false

    unfoldable pub review_known : Value → Bool
    review_known (dict result) =
        is_number (at result "schema_version") 1
        && py_eq (at result "head") (at job "head")
        && accepted (lookup "summary" result) (lookup "findings" result)
    review_known _ = false

    -- a phase in its successful state
    unfoldable pub check_success : Fields → Result (List Note)
    check_success entry =
        if str_eq phase "fixtures"
        then ok
            (note_if (not (is_consistent entry)) "fixture_result_inconsistent" job_id (some phase))
        else if str_eq phase "review"
        then ok (
            note_if (not (review_known (or_default (dict end) (lookup "result" entry))))
              "review_result_unknown" job_id (some phase))
        else check_work

    abbrev pub success : String
    success = if str_eq phase "fixtures" then "passed" else "completed"

    abbrev pub failure_code : Value → String
    failure_code state =
        if str_eq phase "fixtures"
          && any (is_text state) ("failed" ∷ "timed_out" ∷ "busy" ∷ "interrupted" ∷ [])
        then "fixture_failed"
        else "execution_not_successful"

    unfoldable pub check_entry : Fields → Result (List Note)
    check_entry entry =
        let state = at entry "state" in
        let lost =
          note_if (is_text (at entry "worker_observation") "unavailable") "worker_ownership_unknown"
            job_id (some phase) in
        if is_text state "queued" || is_text state "running"
        then ok (
            lost
            ++ record { kind = waiting; code = "work_pending"; job_id = job_id; phase = some phase }
              ∷ [])
        else if not (is_text state success)
        then ok (lost ++ pause_note (failure_code state) job_id (some phase))
        else do found ← check_success entry; ok (lost ++ found ++ check_publication entry)

    unfoldable pub check_phase : Result (List Note)
    check_phase = elim (at s.phases phase) [
      | dict entry ↦ check_entry entry
      | _ ↦ ok (pause_note "phase_evidence_missing" job_id (some phase))
    ]
