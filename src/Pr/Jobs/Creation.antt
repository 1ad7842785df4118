-- ===== src/Pr/Jobs/Creation.antt =====
-- `publish_creation` and `find_pr` of afk_pr/creation.py, and `queue_fixtures` and `new_fixtures` of
-- afk_pr/jobs.py as a creation calls them. The child's own directory and its start are the world's.
use Prim.Native.String.{◌++◌ as append}
use afk_pipeline.Prelude.{
  ℕ, String, Bool, true, false, not, ◌&&◌, Option, none, some, List, [], ◌∷◌, any, if◌then◌else◌,
  str_eq,
}
use afk_pipeline.Py.Value.{
  Value, Fields, field, end, null, bool, str, list, dict, nil, cons, items, is_text, truthy, py_eq,
}
use afk_pipeline.Py.Read.{index, get, get_or, has}
use afk_pipeline.Py.Result.{
  Result, ok, err, Exc, value_error, type_error, attribute_error, ◌>>=◌ as and_then,
}
use afk_pipeline.Py.Action.{pure, raise, lift, gets, modify, ◌>>=◌, ◌>>◌}
use afk_pipeline.Py.Codes.{codes, lower, eq_codes}
use afk_pipeline.Pr.Folder.{Folder, set_field}
use afk_pipeline.Pr.Identity.{identity}
use afk_pipeline.Records.Plan.Quotes.{contains}
use afk_pipeline.Pr.Jobs.Store.{sent, child_started, World, Worker, log_effect, file}

abbrev pub is_there : Option Value → Bool
is_there none = false
is_there (some v) = true

abbrev pub fields_of : Value → Result Fields
fields_of (dict fs) = ok fs
fields_of v = err type_error

abbrev text_or : Exc → Value → Result String
text_or e (str s) = ok s
text_or e v = err e

abbrev marker_of : String → String
marker_of bead = append "<!-- afk-bead:" (append bead " -->")

-- pr.get("body") or ""
abbrev has_marker : (marker : String) → Value → Result Bool
has_marker marker (str s) = ok (contains (codes marker) (codes s))
has_marker marker (list vs) = ok (any (λ v. is_text v marker) (items vs))
has_marker marker (dict fs) = ok (has fs marker)
has_marker marker v = if truthy v then err type_error else ok false

-- the lower case name of the repository of a head
abbrev repository_of : Value → Result (List ℕ)
repository_of head = and_then (get head "repo") (λ repo.
    and_then (get_or (if truthy repo then repo else dict end) "full_name" (str ""))
      (λ name. and_then (text_or attribute_error name) (λ s. ok (lower (codes s)))))

abbrev if_so : Bool → Result Bool → Result Bool
if_so b rest = if b then rest else ok false

-- a pull request of this Bead, from its branch to its base branch
unfoldable pub matches_pr :
    (shown : Value → String) (job : Fields) (repository : String) → Value → Result Bool
matches_pr shown job repository pr = and_then (index (dict job) "bead_id") (λ bead.
    and_then (get pr "body") (λ body. and_then (has_marker (marker_of (shown bead)) body) (λ marked.
      if_so marked (
        and_then (index pr "base") (λ base. and_then (index base "ref") (λ ref.
          and_then (index (dict job) "base_branch") (λ own_base. if_so (py_eq ref own_base) (
            and_then (index pr "head") (λ head. and_then (repository_of head) (λ theirs.
              if_so (eq_codes theirs (lower (codes repository))) (
                and_then (index head "ref") (λ branch.
                  and_then (index (dict job) "branch") (λ own. ok (py_eq branch own))))))))))))))

abbrev matched : Value → Bool → Result (Option Value)
matched pr true = ok (some pr)
matched pr false = err (value_error "existing PR does not match this Bead and branch")

abbrev the_only : (Value → Result Bool) → List Value → Result (Option Value)
the_only is_own [] = ok none
the_only is_own (pr ∷ []) = and_then (is_own pr) (matched pr)
the_only is_own (pr ∷ more) =
    err (value_error "multiple PRs use the Bead branch; inspect them manually")

-- {key: item for key, item in fs.items() if key != "action_id"}
unfoldable pub without_action : Fields → Fields
without_action end = end
without_action (field k v fs) =
    let rest = without_action fs in if str_eq k "action_id" then rest else field k v rest

-- the child: one job of fixtures for the candidate
abbrev pub child_of_creation :
    (job : Fields) (child_id candidate own created_at contract : Value) → Fields
child_of_creation job child_id candidate own created_at contract = without_action (
    set_field "fixture_contract" contract (
      set_field "expected_phases" (list (cons (str "fixtures") nil)) (
        set_field "created_at" created_at (
          set_field "creation_job" own (
            set_field "reviewers" (list nil) (
              set_field "kind" (str "review")
                (set_field "head" candidate (set_field "id" child_id job))))))))

abbrev pub pushed : (url : Value) → Fields → Fields
pushed url progress = set_field "push" (str "pushed") (set_field "pr_url" url progress)

abbrev pub reused : (identifier contract : Value) → Fields → Fields
reused identifier contract progress =
    set_field "fixture_contract" contract
      (set_field "fixture_reused" (bool true) (set_field "fixture_job" identifier progress))

module _ (w : World) where
  -- str(v) in a text
  abbrev shown : Value → String
  shown (str s) = s
  shown v = w.shown v

  unfoldable pub find_pr : (job : Fields) → Worker (Option Value)
  find_pr job = do
    repository ← lift (index (dict job) "github_repository")
    name ← lift (text_or attribute_error repository)
    branch ← lift (index (dict job) "branch")
    _ ← lift (text_or type_error branch)
    s ← gets (λ s. s)
    found ← lift (w.pull_requests s.log)
    lift (the_only (matches_pr shown job name) found)

  -- jobs.read(directory / "creation-progress.json")
  abbrev pub read_progress : Worker Fields
  read_progress = do s ← gets (λ s. s); lift (and_then (file s.creation_progress) fields_of)

  abbrev pub write_progress : Fields → Worker Unit
  write_progress progress = modify (λ s. record s { creation_progress = some (dict progress) })

  abbrev pub write_job : Fields → Worker Unit
  write_job job = modify (λ s. record s { job = job })

  unfoldable pub create_pr : (job progress : Fields) → Worker Value
  create_pr job progress = do
    s ← gets (λ s. s)
    bead ← lift (Folder.read (w.folder s.log) "bead.json")
    lift (index (dict job) "bead_id")
    lift (Folder.read (w.folder s.log) "creation.md")
    lift (index (dict progress) "candidate")
    lift (index (dict job) "id")
    lift (index (dict job) "repository")
    lift (index bead "title")
    lift (w.pull_request_text s.log)
    lift (index (dict job) "base_branch")
    log_effect (sent "creation")
    t ← gets (λ s. s)
    lift (w.create_pull_request t.log)

  -- a pull request is made only of the retained candidate
  unfoldable pub found_or_created : (job progress : Fields) → Option Value → Worker Value
  found_or_created job progress (some pr) = pure pr
  found_or_created job progress none = do
    branch ← lift (index (dict job) "branch")
    lift (index (dict job) "remote")
    s ← gets (λ s. s)
    head ← lift (w.remote_head s.log branch)
    candidate ← lift (index (dict progress) "candidate")
    if py_eq head candidate
        then create_pr job progress
        else raise (
            value_error "remote branch differs from retained candidate; inspect before publication")

  unfoldable pub new_fixtures : (job : Fields) (candidate contract : Value) → Worker Unit
  new_fixtures job candidate contract = do
    own ← lift (index (dict job) "id")
    s ← gets (λ s. s)
    let child = child_of_creation job (w.child_id s.log) candidate own (w.timestamp s.log) contract
    lift (w.make_child s.log child)
    progress ← read_progress
    write_progress (set_field "fixture_job" (w.child_id s.log) progress)
    log_effect (child_started child)
    t ← gets (λ s. s)
    lift (w.start_child t.log child)

  unfoldable pub queue_fixtures : (job : Fields) (candidate : Value) → Worker Unit
  queue_fixtures job candidate = do
    let selected = set_field "head" candidate job
    url ← lift (index (dict selected) "pr_url")
    lift (identity url)
    s ← gets (λ s. s)
    (identifier, expected) ← lift (w.select s.log selected)
    progress ← read_progress
    if truthy identifier
        then write_progress (reused identifier expected progress)
        else new_fixtures job candidate expected

  -- the job and the progress with the URL; a child is queued where there is none yet
  unfoldable pub hand_over : (job progress : Fields) (pr : Value) → Worker Value
  hand_over job progress pr = do
    url ← lift (index pr "html_url")
    write_job (set_field "pr_url" url job)
    write_progress (pushed url progress)
    state ← lift (index pr "state")
    if is_text state "open" && not (has (pushed url progress) "fixture_job")
        then (do
          candidate ← lift (index (dict (pushed url progress)) "candidate")
          queue_fixtures (set_field "pr_url" url job) candidate
          pure url)
        else pure url

  unfoldable pub publish_pushed : (job progress : Fields) → Worker Value
  publish_pushed job progress = do
    found ← find_pr job
    pr ← found_or_created job progress found
    hand_over job progress pr

  unfoldable pub publish_creation : (job : Fields) → Worker Value
  publish_creation job = do
    s ← gets (λ s. s)
    if is_there s.creation_progress
        then (do
          progress ← read_progress
          push ← lift (index (dict progress) "push")
          if is_text push "not_started" then pure null else publish_pushed job progress)
        else pure null
