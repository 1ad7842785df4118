-- ===== src/Pr/Actions/Once.antt =====
-- How often `submit_action` of afk_pr/actions.py starts a job, and what it leaves of a receipt that exists.
use afk_pipeline.Prelude.{
  ℕ, ◌+◌, String, Bool, true, false, not, ◌&&◌, ◌||◌, some, List, [], ◌∷◌, ◌≡◌, ◌⊎◌, inl, inr, refl,
  arith,
}
use afk_pipeline.Py.Value.{Value, Fields, null, bool, int, str, list, dict, is_text}
use afk_pipeline.Py.Read.{index}
use afk_pipeline.Py.Result.{ok, Exc, type_error}
use afk_pipeline.Py.Action.{raise, ◌>>=◌}
use afk_pipeline.Py.Action.Keeps.{Keeps, keeps_rules, bind-at, gets-at, if-at, lift-at}
use afk_pipeline.Py.Codes.{codes}
use afk_pipeline.Pr.Folder.{set_field}
use afk_pipeline.Pr.Identity.{identity}
use afk_pipeline.Pr.Actions.Reads.{head_of, text_of, is_action_id}
use afk_pipeline.Pr.Actions.Desk.{Effect, prepared, started, Submission, Submitter, World}
use afk_pipeline.Pr.Actions.{
  Request, Answer, kind_of, differs, save, paused, interrupted_reason, answer_with, retry_action,
  require, is_sha, submit_action,
}

-- the jobs that were prepared or started
abbrev pub submissions : List Effect → ℕ
submissions [] = 0
submissions (prepared ∷ es) = 1 + submissions es
submissions (started phases ∷ es) = 1 + submissions es
submissions (e ∷ es) = submissions es

-- A receipt of the command and head that are asked for, which is not paused, and not submitted with its job in
-- place.
pub record IsInterrupted (w : World) (o : Request) (log : List Effect) (receipt : Fields)
    : Type 0 where
  pub command : Value
  pub has_command : index (dict receipt) "command" ≡ ok command
  pub same_command : is_text command (kind_of o) ≡ true
  pub head : Value
  pub has_head : head_of o.expected_head receipt ≡ ok head
  pub same_head : differs o.expected_head head ≡ false
  pub own : Value
  pub has_own : index (dict receipt) "job_id" ≡ ok own
  pub job_id : String
  pub is_own : text_of own ≡ ok job_id
  pub state : Value
  pub has_state : index (dict receipt) "state" ≡ ok state
  pub not_paused : is_text state "paused" ≡ false
  pub lost : (is_text state "submitted" && w.has_job log job_id) ≡ false

-- the receipt after: as it was, or an interrupted one that is now paused, the rest of it as before
abbrev pub IsKeptOrPaused :
    (w : World) (o : Request) (log : List Effect) (receipt after : Value) → Type 0
IsKeptOrPaused w o log receipt after =
    (after ≡ receipt)
    ⊎ ((fs : Fields) × (receipt ≡ dict fs)
        × IsInterrupted w o log fs
        × (after
            ≡ dict (
                set_field "reason" (str interrupted_reason) (set_field "state" (str "paused") fs))))

-- Nothing more was prepared or started, and the receipt is kept or paused.
pub record IsRetried (w : World) (o : Request) (receipt : Value) (log : List Effect)
    (d : Submission) : Type 0 where
  pub no_submission : submissions d.log ≡ submissions log
  pub after : Value
  pub has_receipt : d.receipt ≡ some after
  pub kept_or_paused : IsKeptOrPaused w o log receipt after

module _ (w : World) (o : Request) (receipt : Value) (log : List Effect) where
  abbrev Retried : Submission → Type 0
  Retried = IsRetried w o receipt log

  abbrev desk : Submission
  desk = record { receipt = some receipt; log = log }

  unchanged : Retried desk
  unchanged = record {
    no_submission = refl;
    after = receipt;
    has_receipt = refl;
    kept_or_paused = inl refl;
  }

  raised : (e : Exc) → Retried (raise {A = Answer} e desk).1
  unfolding ◌>>=◌
  raised e = unchanged

  answer_with-Retried : (job_id : String) (fs : Fields) → Keeps Retried (answer_with w job_id fs)
  answer_with-Retried job_id fs = search keeps_rules depth 20

  save-Retried :
      (fs : Fields)
      → receipt ≡ dict fs
      → IsInterrupted w o log fs
      → Retried (save (paused interrupted_reason fs) desk).1
  unfolding save ◌>>=◌
  save-Retried fs e interrupted = record {
    no_submission = refl;
    after = dict (paused interrupted_reason fs);
    has_receipt = refl;
    kept_or_paused = inr (fs, e, interrupted, refl);
  }

  interrupted :
      (a b c : Bool) → (not a && (not b || not c)) ≡ true → (a ≡ false) × ((b && c) ≡ false)
  interrupted a b c h = ground arith

  retry_dict-Retried :
      (fs : Fields) → receipt ≡ dict fs → Retried (retry_action w o (dict fs) desk).1
  unfolding retry_action
  retry_dict-Retried fs e =
      lift-at Retried (index (dict fs) "command") _ desk unchanged (λ command e1.
        if-at Retried (not (is_text command (kind_of o))) _ _ desk (λ _. raised _)
          (λ own_command. lift-at Retried (head_of o.expected_head fs) _ desk unchanged (λ head e2.
            if-at Retried (differs o.expected_head head) _ _ desk (λ _. raised _)
              (λ own_head. lift-at Retried (index (dict fs) "job_id") _ desk unchanged (λ own e3.
                lift-at Retried (text_of own) _ desk unchanged (λ job_id e4.
                  lift-at Retried (index (dict fs) "state") _ desk unchanged (λ state e5.
                    gets-at Retried _ _ desk (
                      if-at Retried
                        (not (is_text state "paused")
                          && (not (is_text state "submitted") || not (w.has_job log job_id)))
                        _ _ desk
                        (λ b.
                          let (open_, lost) = interrupted _ _ _ b in
                          bind-at (save (paused interrupted_reason fs))
                            (λ _. answer_with w job_id (paused interrupted_reason fs)) desk
                            (save-Retried fs e (record {
                              command = command;
                              has_command = e1;
                              same_command = not-false _ own_command;
                              head = head;
                              has_head = e2;
                              same_head = own_head;
                              own = own;
                              has_own = e3;
                              job_id = job_id;
                              is_own = e4;
                              state = state;
                              has_state = e5;
                              not_paused = open_;
                              lost = lost;
                            }))
                            (λ _. answer_with-Retried job_id (paused interrupted_reason fs)))
                        (λ _. (answer_with-Retried job_id fs).at desk unchanged)))))))))
    where
      not-false : (b : Bool) → not b ≡ false → b ≡ true
      not-false true h = refl
      not-false false h = cc

  retry_action-Retried : (v : Value) → receipt ≡ v → Retried (retry_action w o v desk).1
  unfolding retry_action
  retry_action-Retried (dict fs) e = retry_dict-Retried fs e
  retry_action-Retried null e = raised type_error
  retry_action-Retried (bool b) e = raised type_error
  retry_action-Retried (int z) e = raised type_error
  retry_action-Retried (str s) e = raised type_error
  retry_action-Retried (list vs) e = raised type_error

  require-at :
      (b : Bool) (reason : String) (f : Unit {0} → Submitter Answer)
      → Retried (f tt desk).1
      → Retried ((require w b reason >>= f) desk).1
  unfolding ◌>>=◌
  require-at true reason f h = h
  require-at false reason f h = unchanged

  -- Where the receipt of an action exists, submitting the action again, with any arguments, prepares and
  -- starts nothing. The receipt stays as it was, or, if it is one of the same command and head whose
  -- submission was interrupted, becomes paused with its other fields as before.
  pub submit_action-IsRetried :
      (is_free : Bool)
      → IsRetried w o receipt log
          (submit_action w is_free o (record { receipt = some receipt; log = log })).1
  unfolding submit_action
  submit_action-IsRetried is_free = require-at (is_action_id (codes o.action_id)) _ _ (
      require-at (is_sha w o.expected_head) _ _ (
        require-at (not (o.respond && o.fixtures_only)) _ _ (
          lift-at Retried (identity o.url) _ desk unchanged (λ own e.
            require-at is_free _ _
              (gets-at Retried _ _ desk (retry_action-Retried receipt refl))))))
