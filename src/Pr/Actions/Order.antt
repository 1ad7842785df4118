-- ===== src/Pr/Actions/Order.antt =====
-- In what order `submit_action` of afk_pr/actions.py saves its receipt, prepares a job and starts it.
use afk_pipeline.Prelude.{
  ℕ, String, Bool, true, false, Option, none, some, List, [], ◌∷◌, ◌≡◌, refl, ap, if◌then◌else◌,
}
use afk_pipeline.Py.Value.{Value, Fields, null, str, dict, lookup}
use afk_pipeline.Py.Read.{index}
use afk_pipeline.Py.Result.{Result, ok, err, Exc}
use afk_pipeline.Py.Action.{pure, lift, modify, proceed, ◌>>=◌, try_except}
use afk_pipeline.Py.Action.Keeps.{
  Keeps, Keeps-modify, Keeps-pure, gets-at, lift-at, modify-at, bind-at, try-at, keeps_rules,
}
use afk_pipeline.Pr.Folder.{set_field}
use afk_pipeline.Pr.Actions.Desk.{
  Effect, seen, saved, prepared, started, Submission, World, Submitter, log_effect,
}
use afk_pipeline.Pr.Actions.Reads.{is_unchanged}
use afk_pipeline.Pr.Actions.{
  Request, paused, changed_reason, save, retry_action, observe, start_job, begin, launch_current,
  launch, submission_failed, finish_launch, reserve, new_action, with_receipt, require,
  submit_action,
}

-- A job is prepared right after a receipt that is preparing was saved, and that right after the pull request
-- was seen. It is started right after the receipt that it is submitting was saved, and that right after the
-- pull request was seen open at the head and base of the receipt.
abbrev pub IsAllowed : Effect → List Effect → Type 0
IsAllowed prepared before =
    (receipt : Fields) × (context : Value) × (rest : List Effect) × (before
      ≡ saved receipt ∷ seen context ∷ rest)
    × (lookup "state" receipt ≡ some (str "preparing"))
IsAllowed (started phases) before =
    (receipt : Fields) × (context pr : Value) × (rest : List Effect) × (before
      ≡ saved (set_field "state" (str "submitting") receipt) ∷ seen context ∷ rest)
    × (index context "pull_request" ≡ ok pr)
    × (is_unchanged pr receipt ≡ ok true)
IsAllowed _ before = Unit

abbrev pub IsOrdered : List Effect → Type 0
IsOrdered [] = Unit
IsOrdered (e ∷ before) = IsAllowed e before × IsOrdered before

abbrev Ordered : Submission → Type 0
Ordered d = IsOrdered d.log

set-Ordered : (v : Option Value) → Keeps Ordered (modify (λ d. record d { receipt = v }))
set-Ordered v = Keeps-modify _ (λ d h. h)

saved-Ordered : (r : Fields) → Keeps Ordered (log_effect (saved r))
saved-Ordered r = Keeps-modify _ (λ d h. (tt, h))

save-Ordered : (r : Fields) → Keeps Ordered (save r)
unfolding save
save-Ordered r = search (keeps_rules, set-Ordered, saved-Ordered)

-- a save, and then the rest
save-at :
    {B : Type 0} (r : Fields) (f : Unit {0} → Submitter B) (d : Submission)
    → Ordered (f tt (record { receipt = some (dict r); log = saved r ∷ d.log })).1
    → Ordered ((save r >>= f) d).1
unfolding save ◌>>=◌
save-at r f d h = h

abbrev saved_to : Fields → Submission → Submission
saved_to r d = record { receipt = some (dict r); log = saved r ∷ d.log }

module _ (w : World) where
  retry_action-Ordered : (o : Request) (receipt : Value) → Keeps Ordered (retry_action w o receipt)
  unfolding retry_action
  retry_action-Ordered o (dict receipt) = search (keeps_rules, save-Ordered) depth 60
  retry_action-Ordered o null = search keeps_rules
  retry_action-Ordered o _ = search keeps_rules

  -- what is seen is the latest effect of what follows
  observe-at :
      {B : Type 0} (f : Value → Submitter B) (d : Submission)
      → Ordered d
      → ((context pr : Value) (c : Submission)
          → c.log ≡ seen context ∷ d.log
          → index context "pull_request" ≡ ok pr
          → Ordered c
          → Ordered (f pr c).1)
      → Ordered ((observe w >>= f) d).1
  unfolding observe ◌>>=◌
  observe-at {B = B} f d h k = by_answer (w.observe d.log)
    where
      noted : Value → Submission
      noted context = record d { log = seen context ∷ d.log }

      by_pull :
          (context : Value) (r : Result Value)
          → index context "pull_request" ≡ r
          → Ordered (proceed r f (noted context)).1
      by_pull context (ok pr) e = k context pr (noted context) refl e (tt, h)
      by_pull context (err x) e = (tt, h)

      by_answer :
          (r : Result Value)
          → Ordered
              (let (s, c) =
                  proceed r
                    (λ context.
                      log_effect (seen context) >>= λ _. lift (index context "pull_request"))
                    d in
                proceed s f c).1
      by_answer (ok context) = by_pull context (index context "pull_request") refl
      by_answer (err x) = h

  start_job-Ordered : (phases : List String) → Keeps Ordered (start_job w phases)
  unfolding start_job
  start_job-Ordered phases = search keeps_rules

  begin-Ordered :
      (o : Request) (phases : List String) (d : Submission)
      → ((ps : List String) → IsAllowed (started ps) d.log)
      → Ordered d
      → Ordered (begin w o phases d).1
  unfolding begin
  begin-Ordered o phases d allowed h = gets-at Ordered _ _ d (
      lift-at Ordered _ _ d h
        (λ chosen _. modify-at Ordered _ _ d ((start_job-Ordered _).at _ (allowed phases, h))))

  launch_current-Ordered :
      (o : Request) (receipt : Fields) (phases : List String) (same : Bool) (d : Submission)
      (context pr : Value) (rest : List Effect)
      → d.log ≡ seen context ∷ rest
      → index context "pull_request" ≡ ok pr
      → is_unchanged pr receipt ≡ ok same
      → Ordered d
      → Ordered (launch_current w o receipt phases same d).1
  unfolding launch_current
  launch_current-Ordered o receipt phases true d context pr rest e pulled unchanged h =
      save-at (set_field "state" (str "submitting") receipt) _ d (
        bind-at {P = Ordered} (begin w o phases) (λ _. pure true)
          (saved_to (set_field "state" (str "submitting") receipt) d)
          (begin-Ordered o phases (saved_to (set_field "state" (str "submitting") receipt) d)
            (λ ps. (
              receipt,
              context,
              pr,
              rest,
              ap (λ log. saved (set_field "state" (str "submitting") receipt) ∷ log) e,
              pulled,
              unchanged,
            ))
            (tt, h))
          (λ _. Keeps-pure true))
  launch_current-Ordered o receipt phases false d context pr rest e pulled unchanged h =
      bind-at {P = Ordered} (save (paused changed_reason receipt)) (λ _. pure false) d
        ((save-Ordered (paused changed_reason receipt)).at d h) (λ _. Keeps-pure false)

  launch-Ordered :
      (o : Request) (receipt : Fields) (d : Submission)
      → IsAllowed prepared d.log
      → Ordered d
      → Ordered (launch w o receipt d).1
  unfolding launch
  launch-Ordered o receipt d allowed h = modify-at Ordered _ _ d (
      gets-at Ordered _ _ _ (
        lift-at Ordered _ _ _ (allowed, h)
          (λ phases _.
            observe-at _ _ (allowed, h)
              (λ context pr c e pulled hc. lift-at Ordered _ _ c hc (λ same unchanged.
                launch_current-Ordered o receipt phases same c context pr _ e pulled unchanged
                  hc)))))

  submission_failed-Ordered :
      (o : Request) (receipt : Fields) (e : Exc) → Keeps Ordered (submission_failed w o receipt e)
  unfolding submission_failed
  submission_failed-Ordered o receipt e = search (keeps_rules, save-Ordered) depth 20

  finish_launch-Ordered :
      (receipt : Fields) (launched : Bool) → Keeps Ordered (finish_launch w receipt launched)
  finish_launch-Ordered receipt false = search keeps_rules
  finish_launch-Ordered receipt true = search (keeps_rules, save-Ordered) depth 20

  reserve-Ordered :
      (o : Request) (receipt : Fields) (d : Submission) (context : Value) (rest : List Effect)
      → d.log ≡ seen context ∷ rest
      → lookup "state" receipt ≡ some (str "preparing")
      → Ordered d
      → Ordered (reserve w o receipt d).1
  unfolding reserve
  reserve-Ordered o receipt d context rest e preparing h = save-at receipt _ d (
      bind-at {P = Ordered} (try_except (launch w o receipt) (submission_failed w o receipt))
        (finish_launch w receipt) (saved_to receipt d)
        (try-at {P = Ordered} (launch w o receipt) (submission_failed w o receipt)
          (saved_to receipt d)
          (launch-Ordered o receipt (saved_to receipt d)
            (receipt, context, rest, ap (λ log. saved receipt ∷ log) e, preparing) (tt, h))
          (submission_failed-Ordered o receipt))
        (λ launched. finish_launch-Ordered receipt launched))

  require-at :
      {B : Type 0} (b : Bool) (reason : String) (f : Unit {0} → Submitter B) (d : Submission)
      → Ordered d
      → (b ≡ true → Ordered (f tt d).1)
      → Ordered ((require w b reason >>= f) d).1
  unfolding ◌>>=◌
  require-at true reason f d h k = k refl
  require-at false reason f d h k = h

  check-at :
      {B : Type 0} (b : Bool) (r : Result (Unit {0})) (f : Unit {0} → Submitter B) (d : Submission)
      → Ordered d
      → Ordered (f tt d).1
      → Ordered (((if b then lift r else pure tt) >>= f) d).1
  unfolding ◌>>=◌
  check-at true (ok tt) f d h k = k
  check-at true (err e) f d h k = h
  check-at false r f d h k = k

  new_action-Ordered : (o : Request) (own : List ℕ × ℕ) → Keeps Ordered (new_action w o own)
  unfolding new_action
  new_action-Ordered o own = record {
    at = λ d h. observe-at _ d h (λ context pr c e pulled hc. lift-at Ordered _ _ c hc (λ state _.
        require-at _ _ _ c hc (λ _. lift-at Ordered _ _ c hc (λ head _. require-at _ _ _ c hc (λ _.
          check-at o.respond _ _ c hc (
            lift-at Ordered _ _ c hc (λ base _.
              gets-at Ordered _ _ c (reserve-Ordered o _ c context d.log e refl hc))))))));
  }

  with_receipt-Ordered :
      (o : Request) (own : List ℕ × ℕ) (receipt : Option Value)
      → Keeps Ordered (with_receipt w o own receipt)
  with_receipt-Ordered o own none = new_action-Ordered o own
  with_receipt-Ordered o own (some receipt) = retry_action-Ordered o receipt

  require-Ordered : (b : Bool) (reason : String) → Keeps Ordered (require w b reason)
  require-Ordered true reason = search keeps_rules
  require-Ordered false reason = search keeps_rules

  submit_action-Ordered : (is_free : Bool) (o : Request) → Keeps Ordered (submit_action w is_free o)
  unfolding submit_action
  submit_action-Ordered is_free o =
      search (keeps_rules, require-Ordered, with_receipt-Ordered) depth 40

-- In a submission, whatever the world answers: a job is prepared only right after a receipt that is preparing
-- was saved, and that right after the pull request was seen; it is started only right after a receipt that is
-- submitting was saved, and that right after the pull request was seen open at the head and base of the receipt.
pub submit_action-IsOrdered :
    (w : World) (is_free : Bool) (o : Request) (receipt : Option Value)
    → IsOrdered (submit_action w is_free o (record { receipt = receipt; log = [] })).1.log
submit_action-IsOrdered w is_free o receipt = (submit_action-Ordered w is_free o).at _ tt
