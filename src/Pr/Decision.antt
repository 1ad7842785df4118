-- ===== src/Pr/Decision.antt =====
-- `decide` of afk_pr/decision.py: what may happen next to explicitly selected jobs.
pub mod Notes
pub mod Phases
pub mod Items
pub mod Published
pub mod Owned
pub mod Done
pub mod Continue
use afk_pipeline.Prelude.{
  map, ℕ, String, Bool, true, false, not, ◌&&◌, ◌||◌, Option, none, some, List, [], ◌∷◌, ◌++◌,
  if◌then◌else◌, any,
}
use afk_pipeline.Py.Value.{Value, Values, Fields, null, str, dict, lookup, is_text, truthy, member}
use afk_pipeline.Py.Read.{get, index, or_default}
use afk_pipeline.Py.Result.{Result, ok, err, ◌>>=◌}
use afk_pipeline.Pr.Identity.{identity}
use afk_pipeline.Pr.Decision.Notes.{Note, Kind, reason, waiting, retry, note_if, is_kind, of_kind}
use afk_pipeline.Pr.Decision.Phases.{by_id}
use afk_pipeline.Pr.Decision.Items.{Target, check_item}

pub data Recommendation : Type 0 where
  pause wait retry_publication continue : Recommendation

pub record Decision : Type 0 where
  pub recommendation : Recommendation
  pub head : Value
  pub base : Value
  pub selected_job_ids : List Value
  pub reasons : List Note
  -- each job once, in the order of the notes
  pub publication_retry_job_ids : List Value

abbrev or_else : Value → Value → Value
or_else v w = if truthy v then v else w

abbrev job_id_of : Value → Value
job_id_of (dict job) = or_default null (lookup "id" job)
job_id_of _ = null

-- `_selected_id`
unfoldable pub selected_id : Value → Value
selected_id (dict item) =
    or_else (or_default null (lookup "requested_id" item))
      (job_id_of (or_default null (lookup "job" item)))
selected_id _ = null

-- a set of job IDs, from a list
abbrev distinct : List Value → List Value
distinct [] = []
distinct (v ∷ vs) = let rest = distinct vs in if member v rest then rest else v ∷ rest

unfoldable pub recommend : List Note → Recommendation
recommend notes =
    if any (is_kind reason) notes
    then pause
    else if any (is_kind waiting) notes
    then wait
    else if any (is_kind retry) notes
    then retry_publication
    else continue

abbrev work_complete : Note
work_complete = record {
  kind = reason;
  code = "selected_work_complete";
  job_id = null;
  phase = none;
}

-- xs or ys
abbrev nonempty : List Note → List Note → List Note
nonempty [] others = others
nonempty (n ∷ ns) others = n ∷ ns

abbrev pub is_empty : List Value → Bool
is_empty [] = true
is_empty (v ∷ vs) = false

abbrev first_of_kinds : List Note → List Note
first_of_kinds notes =
    nonempty (of_kind reason notes)
      (nonempty (of_kind waiting notes) (nonempty (of_kind retry notes) (work_complete ∷ [])))

abbrev retry_ids : Recommendation → List Note → List Value
retry_ids retry_publication notes = distinct (map (λ n. n.job_id) (of_kind retry notes))
retry_ids _ notes = []

module _ (encoded_length : Value → ℕ) (loads : String → Option Value) where
  -- the loop over the selected jobs
  unfoldable pub check_items : Target → List (String × Value) → List Value → Result (List Note)
  check_items t known [] = ok []
  check_items t known (item ∷ rest) =
      let later = check_items t known rest in
      do here ← check_item encoded_length loads t known item; others ← later; ok (here ++ others)

  unfoldable pub decide : Value → List Value → Result Decision
  decide context selected = do
    pr ← index context "pull_request"
    their_head ← index pr "head"
    head ← index their_head "sha"
    their_base ← index pr "base"
    base ← index their_base "sha"
    url ← index pr "html_url"
    own ← identity url
    state ← index pr "state"
    found ←
        check_items (record { repository = own.0; number = own.1; head = head; base = base })
          (by_id selected) selected
    let notes =
        note_if (not (is_text state "open")) "pr_not_open" null none
        ++ note_if (is_empty selected) "no_jobs_selected" null none
        ++ found
    ok (record {
      recommendation = recommend notes;
      head = head;
      base = base;
      selected_job_ids = map selected_id selected;
      reasons = first_of_kinds notes;
      publication_retry_job_ids = retry_ids (recommend notes) notes;
    })
