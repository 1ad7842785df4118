-- ===== src/Pr/Decision/Owned.antt =====
-- The action receipt of a selected job, as the loop of `decide` in afk_pr/decision.py tests it.
use afk_pipeline.Prelude.{
  String, Bool, true, false, not, none, List, [], if◌then◌else◌, any, str_eq, ◌≡◌, ◌⊎◌, inl, inr,
  refl, ap, &&-true, Bool-cases,
}
use afk_pipeline.Py.Value.{
  Value, Fields, null, bool, int, str, list, dict, is_text, is_int, is_number, truthy, py_eq,
  lookup,
}
use afk_pipeline.Py.Read.{or_default}
use afk_pipeline.Py.Codes.{lower, spells}
use afk_pipeline.Py.Facts.{is_text-str}
use afk_pipeline.Py.Result.{ok}
use afk_pipeline.Pr.Decision.Phases.{at}
use afk_pipeline.Pr.Decision.Items.{Target, identifier, command_of, is_own_action, check_action}
use afk_pipeline.Pr.Decision.Notes.{pause_note, note_if}
use afk_pipeline.Pr.Decision.Published.{note_if-nil, one-ne-nil}

-- The receipt of the job's action: it was submitted, for this job, at its head and base, in the pull request.
pub record HasReceipt (t : Target) (known : List (String × Value)) (item job : Fields)
    (command : String) : Type 0 where
  pub action : Fields
  pub has_action : at item "action" ≡ dict action
  pub version_is_int : is_int (at action "schema_version") ≡ true
  pub version : is_number (at action "schema_version") 1 ≡ true
  pub own_id : py_eq (at action "id") (at job "action_id") ≡ true
  pub own_job :
      py_eq (at action "job_id") (or_default (at item "requested_id") (lookup "id" job)) ≡ true
  pub own_head : py_eq (at action "head") (at job "head") ≡ true
  pub own_base : py_eq (at action "base") (at job "base") ≡ true
  pub own_repository : spells (lower t.repository) (at action "repository") ≡ true
  pub number_is_int : is_int (at action "pr_number") ≡ true
  pub own_number : is_number (at action "pr_number") t.number ≡ true
  pub own_command : at action "command" ≡ str command
  pub submitted : at action "state" ≡ str "submitted"

-- a job without an action has no receipt
abbrev pub OwnsAction :
    (t : Target) (known : List (String × Value)) (item job : Fields) (kind : String)
    (expected : List String)
    → Type 0
OwnsAction t known item job kind expected =
    (truthy (at job "action_id") ≡ false)
    ⊎ HasReceipt t known item job (
        if str_eq kind "response"
        then "respond"
        else if any (str_eq "review") expected
        then "review"
        else "fixtures")

not-false : (b : Bool) → not b ≡ false → b ≡ true
not-false true e = refl
not-false false e = cc

module _ (t : Target) (known : List (String × Value)) (item job : Fields) where
  is_own_action-HasReceipt :
      (command : String) (action : Fields)
      → at item "action" ≡ dict action
      → is_own_action t known item job command action ≡ true
      → at action "state" ≡ str "submitted"
      → HasReceipt t known item job command
  unfolding is_own_action
  is_own_action-HasReceipt command action e h9 settled =
      let (h8, own_command) = &&-true _ (is_text (at action "command") command) h9 in
      let (h7, own_number) = &&-true _ (is_number (at action "pr_number") t.number) h8 in
      let (h6, number_is_int) = &&-true _ (is_int (at action "pr_number")) h7 in
      let (h5, own_repository) =
        &&-true _ (spells (lower t.repository) (at action "repository")) h6 in
      let (h4, own_base) = &&-true _ (py_eq (at action "base") (at job "base")) h5 in
      let (h3, own_head) = &&-true _ (py_eq (at action "head") (at job "head")) h4 in
      let (h2, own_job) = &&-true _ (py_eq (at action "job_id") (identifier t known item job)) h3 in
      let (h1, own_id) = &&-true _ (py_eq (at action "id") (at job "action_id")) h2 in
      let (version_is_int, version) =
        &&-true (is_int (at action "schema_version")) (is_number (at action "schema_version") 1)
          h1 in
      record {
        action = action;
        has_action = e;
        version_is_int = version_is_int;
        version = version;
        own_id = own_id;
        own_job = own_job;
        own_head = own_head;
        own_base = own_base;
        own_repository = own_repository;
        number_is_int = number_is_int;
        own_number = own_number;
        own_command = is_text-str (at action "command") command own_command;
        submitted = settled;
      }

  pub check_action-OwnsAction :
      (kind : String) (expected : List String)
      → check_action t known item job kind expected ≡ []
      → OwnsAction t known item job kind expected
  unfolding check_action
  check_action-OwnsAction kind expected h = elim (Bool-cases (truthy (at job "action_id"))) [
    | inl has_id ↦ inr (by_action (at item "action") refl (rw has_id at h))
    | inr without ↦ inl without
  ]
    where
      by_action :
          (v : Value)
          → at item "action" ≡ v
          → (elim v [
            | dict action ↦
                if is_own_action t known item job (command_of t known item job kind expected) action
                then note_if
                    (not (is_text (at action "state") "submitted"))
                    "action_unsettled"
                    (identifier t known item job)
                    none
                else pause_note "action_identity_unknown" (identifier t known item job) none
            | _ ↦ pause_note "action_identity_unknown" (identifier t known item job) none
          ])
            ≡ []
          → HasReceipt t known item job (command_of t known item job kind expected)
      by_action (dict action) e k =
          elim (Bool-cases
            (is_own_action t known item job (command_of t known item job kind expected) action)) [
              | inl own ↦ is_own_action-HasReceipt _ action e own (
                  is_text-str (at action "state") "submitted"
                    (not-false _ (note_if-nil _ _ _ _ (rw own at k))))
              | inr other ↦ absurd (one-ne-nil (ap ok (rw other at k)))
            ]
      by_action null e k = cc
      by_action (bool b) e k = cc
      by_action (int z) e k = cc
      by_action (str s) e k = cc
      by_action (list vs) e k = cc
