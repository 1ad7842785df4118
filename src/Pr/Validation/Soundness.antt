-- ===== src/Pr/Validation/Soundness.antt =====
-- What it means that `eligible` of afk_pr/validation.py shares a job's fixtures.
use afk_pipeline.Prelude.{
  String, Bool, true, false, not, ◌&&◌, ◌||◌, some, List, [], ◌∷◌, ℕ, ◌≡◌, ◌⊎◌, inl, inr, refl, ap,
  ◌∙◌, arith, if◌then◌else◌, any,
}
use afk_pipeline.Py.Value.{
  Value, Fields, null, dict, end, is_text, is_number, is_true, is_false, is_int, truthy, lookup,
  eq_bool,
}
use afk_pipeline.Py.Read.{index, in_set, or_default}
use afk_pipeline.Py.Result.{Result, ok, err, Exc, >>=-returns, ◌>>=◌}
use afk_pipeline.Pr.Identity.{identity}
use afk_pipeline.Pr.Folder.{Folder}
use afk_pipeline.Pr.Jobs.Status.{JobStatus, status_job}
use afk_pipeline.Pr.Validation.Contract.{Contract, is_contract}
use afk_pipeline.Pr.Validation.Evidence.{or_false, owning_evidence}
use afk_pipeline.Pr.Validation.Reuse.{
  reject, at, agrees, is_agreed, link_files, expects, is_other_job, has_logs, judge_published,
  judge_settled, judge_record, judge_job, eligible,
}

reject-true : (b : Bool) (r : Result Bool) → reject b r ≡ ok true → (b ≡ false) × (r ≡ ok true)
reject-true true r h = absurd (false-ne-true h)
  where
    false-ne-true : ok false ≡ ok true → ⊥
    false-ne-true p = cc
reject-true false r h = (refl, h)

ok-true : {b : Bool} → ok b ≡ ok true → b ≡ true
ok-true h = cc

or_false-true : (caught : Exc → Bool) (r : Result Bool) → or_false caught r ≡ ok true → r ≡ ok true
or_false-true caught (ok b) h = h
or_false-true caught (err e) h = ground arith

-- Published fixtures whose state agrees with how their process ended.
pub record IsPublished (f : Folder) (result : Fields) : Type 0 where
  pub published : is_text (at result "publication") "published" ≡ true
  pub has_url : truthy (at result "url") ≡ true
  pub process : Fields
  pub has_process : or_default (dict end) (lookup "process" result) ≡ dict process
  pub exited : is_int (at process "exit_code") ≡ true
  pub in_time : is_false (at process "timed_out") ≡ true
  pub whole : is_false (at process "interrupted") ≡ true
  -- a pass is an exit code of 0, and a failure another
  pub agrees : is_text (at result "state") "passed" ≡ is_number (at process "exit_code") 0
  pub logs : has_logs f ≡ true

-- Fixtures that ran on an unchanged candidate and contract, as their seal says.
pub record IsSettled (digest : Value → String) (probe_identity : Value → Result Value) (f : Folder)
    (job result : Fields) : Type 0 where
  pub finished : in_set (at result "state") ("passed" ∷ "failed" ∷ []) ≡ ok true
  pub same_candidate : is_true (at result "candidate_unchanged") ≡ true
  pub same_contract : is_true (at result "contract_unchanged") ≡ true
  pub owned : owning_evidence digest f probe_identity job result ≡ ok true
  pub publication :
      ((is_text (at result "publication") "pending" ≡ true)
        × (is_text (at result "worker_observation") "active" ≡ true))
      ⊎ IsPublished f result

-- Fixtures whose worker is at work.
pub record IsRunning (result : Fields) : Type 0 where
  pub running : in_set (at result "state") ("queued" ∷ "running" ∷ []) ≡ ok true
  pub worked_on : is_text (at result "worker_observation") "active" ≡ true

bools-agreed :
    (a b c d e g : Bool)
    → (a && b && c && d && eq_bool e g) ≡ true
    → (a ≡ true) × (b ≡ true) × (c ≡ true) × (e ≡ g)
bools-agreed a b c d e g h = ground arith

bools-published : (a b : Bool) → (not a || not b) ≡ false → (a ≡ true) × (b ≡ true)
bools-published a b h = ground arith

bools-unchanged :
    (a b c : Bool) → (not a || not b || not c) ≡ false → (a ≡ true) × (b ≡ true) × (c ≡ true)
bools-unchanged a b c h = ground arith

bools-or : (a b c : Bool) → (a || b || c) ≡ false → (a ≡ false) × ((b || c) ≡ false)
bools-or a b c h = ground arith

not-false : {b : Bool} → not b ≡ false → b ≡ true
not-false {b = b} h = ground arith

module _ (digest : Value → String) (probe_identity : Value → Result Value) (f : Folder) where
  judge_published-true :
      (result : Fields)
      → judge_published digest probe_identity f result ≡ ok true
      → IsPublished f result
  unfolding judge_published is_agreed
  judge_published-true result h =
      by_process (or_default (dict end) (lookup "process" result)) refl (reject-true _ _ h).1
    where
      by_process :
          (v : Value)
          → or_default (dict end) (lookup "process" result) ≡ v
          → (agrees (at result "state") v >>= λ good. reject (not good) (ok (has_logs f))) ≡ ok true
          → IsPublished f result
      by_process (dict process) e k =
          let (exited, in_time, whole, agreed) =
            bools-agreed _ _ _ _ _ _ (not-false (reject-true _ _ k).0) in
          let (published, has_url) = bools-published _ _ (reject-true _ _ h).0 in
          record {
            published = published;
            has_url = has_url;
            process = process;
            has_process = e;
            exited = exited;
            in_time = in_time;
            whole = whole;
            agrees = agreed;
            logs = ok-true (reject-true _ _ k).1;
          }
      by_process null e k = cc
      by_process _ e k = cc

  judge_settled-true :
      (job result : Fields)
      → judge_settled digest probe_identity f job result ≡ ok true
      → IsSettled digest probe_identity f job result
  unfolding judge_settled
  judge_settled-true job result h =
      let (finished, e1, h1) =
        >>=-returns (in_set (at result "state") ("passed" ∷ "failed" ∷ [])) _ h in
      let (good, h2) = reject-true _ _ h1 in
      let (a, b, c) = bools-unchanged finished _ _ good in
      let (owned, e3, h3) = >>=-returns (owning_evidence digest f probe_identity job result) _ h2 in
      let (d, h4) = reject-true (not owned) _ h3 in
      record {
        finished = e1 ∙ ap ok a;
        same_candidate = b;
        same_contract = c;
        owned = e3 ∙ ap ok (not-false d);
        publication = by_publication (is_text (at result "publication") "pending") refl h4;
      }
    where
      by_publication :
          (p : Bool)
          → is_text (at result "publication") "pending" ≡ p
          → (if p
              then ok (is_text (at result "worker_observation") "active")
              else judge_published digest probe_identity f result)
            ≡ ok true
          → ((is_text (at result "publication") "pending" ≡ true)
              × (is_text (at result "worker_observation") "active" ≡ true))
            ⊎ IsPublished f result
      by_publication true e k = inl (e, ok-true k)
      by_publication false e k = inr (judge_published-true result k)

  -- The shared fixtures of a job.
  pub record IsShared (probe : Bool) (c : Contract) (job : Fields) : Type 0 where
    pub same_contract : is_contract c (at job "fixture_contract") ≡ true
    pub own : List ℕ × ℕ
    pub own_url : (index (dict job) "pr_url" >>= λ url. identity url) ≡ ok own
    pub same_job : is_other_job c job own ≡ false
    pub no_links : (f.is_link || any f.symlink link_files) ≡ false
    pub named : expects job (is_text (at job "id") f.name) ≡ ok true
    pub status : JobStatus
    pub observed : status_job f probe ≡ ok status
    pub result : Fields
    pub has_result : index (dict status.phases) "fixtures" ≡ ok (dict result)
    pub known_worker : is_text (at result "worker_observation") "unavailable" ≡ false
    pub work : IsRunning result ⊎ IsSettled digest probe_identity f job result

  judge_record-true :
      (job : Fields) (v : Value)
      → judge_record digest probe_identity f job v ≡ ok true
      → (result : Fields) × (v ≡ dict result)
        × (is_text (at result "worker_observation") "unavailable" ≡ false)
        × (IsRunning result ⊎ IsSettled digest probe_identity f job result)
  unfolding judge_record
  judge_record-true job (dict result) h =
      let (known, h1) = reject-true _ _ h in
      let (active, e2, h2) =
        >>=-returns (in_set (at result "state") ("queued" ∷ "running" ∷ [])) _ h1 in
      (result, refl, known, by_state active e2 h2)
    where
      by_state :
          (active : Bool)
          → in_set (at result "state") ("queued" ∷ "running" ∷ []) ≡ ok active
          → (if active
              then ok (is_text (at result "worker_observation") "active")
              else judge_settled digest probe_identity f job result)
            ≡ ok true
          → IsRunning result ⊎ IsSettled digest probe_identity f job result
      by_state true e k = inl (record { running = e; worked_on = ok-true k })
      by_state false e k = inr (judge_settled-true job result k)
  judge_record-true job null h = cc
  judge_record-true job _ h = cc

  judge_job-true :
      (probe : Bool) (c : Contract) (job : Fields)
      → is_contract c (at job "fixture_contract") ≡ true
      → judge_job digest probe_identity f c probe job ≡ ok true
      → IsShared probe c job
  unfolding judge_job
  judge_job-true probe c job kept h =
      let (url, e1, h1) = >>=-returns (index (dict job) "pr_url") _ h in
      let (own, e2, h2) = >>=-returns (identity url) _ h1 in
      let (good, h3) = reject-true _ _ h2 in
      let (same, plain) = bools-or (is_other_job c job own) f.is_link _ good in
      let (named, e4, h4) = >>=-returns (expects job (is_text (at job "id") f.name)) _ h3 in
      let (d, h5) = reject-true (not named) _ h4 in
      let (status, e6, h6) = >>=-returns (status_job f probe) _ h5 in
      let (v, e7, h7) = >>=-returns (index (dict status.phases) "fixtures") _ h6 in
      let (result, e8, known, work) = judge_record-true job v h7 in
      record {
        same_contract = kept;
        own = own;
        own_url = ap (λ r. r >>= λ u. identity u) e1 ∙ e2;
        same_job = same;
        no_links = plain;
        named = e4 ∙ ap ok (not-false d);
        status = status;
        observed = e6;
        result = result;
        has_result = e7 ∙ ap ok e8;
        known_worker = known;
        work = work;
      }

  -- When a job's fixtures are shared for a contract, the job was made for that contract and names the same
  -- pull request, revision, policy, resource and execution, its directory and evidence are no links, it
  -- expects fixtures under its own name, and its status has a fixture record with a known worker that is
  -- either queued or running under an active worker, or passed or failed on an unchanged candidate and
  -- contract with evidence that its seal still owns, and then is being published by an active worker, or is
  -- published with its logs and a process that ended by itself with an exit code of 0 just where it passed.
  pub eligible-IsShared :
      (probe : Bool) (c : Contract) (job : Fields)
      → eligible digest probe_identity f probe (some c) (dict job) ≡ ok true
      → IsShared probe c job
  unfolding eligible
  eligible-IsShared probe c job h =
      let (kept, h1) = reject-true _ _ h in
      judge_job-true probe c job (not-false kept) (or_false-true _ _ h1)
