-- ===== src/Orchestrate/Ready.antt =====
-- When a step of afk_orchestrate/driver.py declares a run ready for merge.
use afk_pipeline.Prelude.{
  String, true, false, not, ◌&&◌, &&-true, Option, none, some, ◌≡◌, ◌⊎◌, refl, sym, ◌∙◌, ap, inl,
  inr, arith,
}
use afk_pipeline.Py.Value.{Value, null, str, list, nil, cons, is_text, is_list, truthy}
use afk_pipeline.Py.Read.{index}
use afk_pipeline.Py.Result.{ok}
use afk_pipeline.Py.Action.Reaches.{
  lift-reaches, bind-reaches, try-misses, else-reaches, gets-reaches, raise-misses, pure-misses,
}
use afk_pipeline.Orchestrate.State.{
  World, Machine, Status, running, paused, ready_for_merge, Stage, review_wait, need, log_event,
}
use afk_pipeline.Orchestrate.Validation.{repairable_validation}
use afk_pipeline.Orchestrate.Selected.{selected}
use afk_pipeline.Orchestrate.Step.{on_status, step, advance_stage, recover}
use afk_pipeline.Orchestrate.Step.Stages.{
  review_finished, on_observation, judge_review, wait_job, run_stage,
}
use afk_pipeline.Orchestrate.Current.{
  Observed, selected-head, selected-Observed, is_text-eq, need-some,
}
use afk_pipeline.Orchestrate.Moves.{
  Move, Closed, request_repair-Keeps, selected-Keeps, other_stage-Keeps, recover-Keeps,
}

abbrev pub IsReady : Machine → Type 0
IsReady m = m.state.status ≡ ready_for_merge

abbrev NotReady : Machine → Type 0
NotReady m = ¬ IsReady m

move-NotReady : (w : World) {m n : Machine} → Move w m n → NotReady m → NotReady n
unfolding log_event
move-NotReady w (Move.stopped m reason details) h e = cc
move-NotReady w (Move.answered m word) h e = h (ground arith)
move-NotReady w (Move.logged m x) h e = h e
move-NotReady w _ h e = h e

closed : (w : World) → Closed w NotReady
closed w = record { move = move-NotReady w }

-- The review of a head in a record of its job, with no finding.
pub record IsClean (item : Value) (head : String) : Type 0 where
  pub phases : Value
  pub in_item : index item "phases" ≡ ok phases
  pub own : Value
  pub in_phases : index phases "review" ≡ ok own
  pub review : Value
  pub in_own : index own "result" ≡ ok review
  pub reviewed : index review "head" ≡ ok (str head)
  pub findings : index review "findings" ≡ ok (list nil)

no_findings : (v : Value) → is_list v ≡ true → truthy v ≡ false → v ≡ list nil
no_findings (list nil) h k = refl
no_findings (list (cons v vs)) h k = cc
no_findings null h k = cc
no_findings _ h k = cc

module _ (w : World) where
  review_finished-ready :
      (head job : String) (review : Value) (m : Machine)
      → NotReady m
      → IsReady (review_finished w head job review m).1
      → (index review "head" ≡ ok (str head)) × (index review "findings" ≡ ok (list nil))
  unfolding review_finished
  review_finished-ready head job review m h q =
      let (reviewed, e, q1) = lift-reaches IsReady (index review "head") _ m h q in
      let (findings, e', q2) = lift-reaches IsReady (index review "findings") _ m h q1 in
      let (good, q3) =
        else-reaches IsReady (not (is_text reviewed head && is_list findings)) _ _ m
          (raise-misses IsReady Unit _ m h) q2 in
      let (none_left, q4) =
        else-reaches IsReady (truthy findings) _ _ m ((request_repair-Keeps w (closed w)).at m h)
          q3 in
      let (a, b) = &&-true (is_text reviewed head) (is_list findings) (ground arith) in
      (e ∙ ap ok (is_text-eq reviewed head a), e' ∙ ap ok (no_findings findings b none_left))

  -- What `judge_review` has seen when it declares a run ready.
  judge_review-ready :
      (result item : Value) (m : Machine)
      → NotReady m
      → IsReady (judge_review w result item m).1
      → (head : String) × (m.state.head ≡ some head)
        × (index result "head" ≡ ok (str head))
        × (repairable_validation result ≡ ok false)
        × IsClean item head
  unfolding judge_review
  judge_review-ready result item m h q0 =
      let q = gets-reaches IsReady (λ (m : Machine). m.state) _ m q0 in
      let (current, e1, q1) = lift-reaches IsReady (index result "head") _ m h q in
      let (head, e2, q2) = lift-reaches IsReady (need "head" m.state.head) _ m h q1 in
      let (good, q3) =
        else-reaches IsReady (not (is_text current head)) _ _ m (raise-misses IsReady Unit _ m h)
          q2 in
      let (repairable, e4, q4) = lift-reaches IsReady (repairable_validation result) _ m h q3 in
      let (fine, q5) =
        else-reaches IsReady repairable _ _ m ((request_repair-Keeps w (closed w)).at m h) q4 in
      let (phases, e6, q6) = lift-reaches IsReady (index item "phases") _ m h q5 in
      let (own, e7, q7) = lift-reaches IsReady (index phases "review") _ m h q6 in
      let (review, e8, q8) = lift-reaches IsReady (index own "result") _ m h q7 in
      let (job, e9, q9) = lift-reaches IsReady (need "active_job" m.state.active_job) _ m h q8 in
      let (reviewed, clean) = review_finished-ready head job review m h q9 in
      (
        head,
        need-some "head" e2,
        e1 ∙ ap ok (is_text-eq current head (ground arith)),
        e4 ∙ ap ok fine,
        record {
          phases = phases;
          in_item = e6;
          own = own;
          in_phases = e7;
          review = review;
          in_own = e8;
          reviewed = reviewed;
          findings = clean;
        },
      )

  selected-NotReady : (job : String) (m : Machine) → NotReady m → NotReady (selected w job m).1
  selected-NotReady job m h = (selected-Keeps w (closed w) job).at m h

-- What a step has seen when it declares a run ready: the answer of a status command on the run's own
-- pull request and its active job, whose decision says to continue and is of the run's base, and in
-- it, for the head that the run submitted, a review by that job with no finding.
pub record Approval (w : World) (m : Machine) : Type 0 where
  pub waits : m.state.stage ≡ review_wait
  pub job : String
  pub active : m.state.active_job ≡ some job
  pub result : Value
  pub item : Value
  pub observed : Observed w m job result item
  pub continues : is_text observed.advice "continue" ≡ true
  pub head : String
  pub own_head : m.state.head ≡ some head
  pub current : index result "head" ≡ ok (str head)
  pub clean : IsClean item head

continues :
    (advice result : Value)
    → (is_text advice "continue" ≡ true) ⊎ (repairable_validation result ≡ ok true)
    → repairable_validation result ≡ ok false
    → is_text advice "continue" ≡ true
continues advice result (inl h) e = h
continues advice result (inr h) e = absurd (true≢false (sym h ∙ e))
  where
    true≢false : ok true ≡ ok false → ⊥
    true≢false p = cc

ready_cases : (s : Status) → (s ≡ ready_for_merge) ⊎ ¬ (s ≡ ready_for_merge)
ready_cases ready_for_merge = inl refl
ready_cases running = inr (λ e. cc)
ready_cases paused = inr (λ e. cc)

running≢ready : running ≡ ready_for_merge → ⊥
running≢ready e = cc

module _ (w : World) where
  wait_review-ready :
      (m : Machine)
      → m.state.stage ≡ review_wait
      → NotReady m
      → IsReady (wait_job w (judge_review w) m).1
      → Approval w m
  unfolding wait_job
  wait_review-ready m stage h q0 =
      let q = gets-reaches IsReady (λ (m : Machine). m.state) _ m q0 in
      let (job, e1, q1) = lift-reaches IsReady (need "active_job" m.state.active_job) _ m h q in
      let (found, e2, q2) =
        bind-reaches IsReady (selected w job) _ m (selected-NotReady w job m h) q1 in
      by_observation job (need-some "active_job" e1) found e2 q2
    where
      by_observation :
          (job : String)
          → m.state.active_job ≡ some job
          → (found : Option (Value × Value)) → (selected w job m).0 ≡ ok found
          → IsReady (on_observation (judge_review w) found (selected w job m).1).1
          → Approval w m
      by_observation job active none e q =
          absurd (pure-misses IsReady tt _ (selected-NotReady w job m h) q)
      by_observation job active (some (result, item)) e q =
          let seen = selected-Observed w job m result item e in
          let (head, own, current, settled, clean) =
            judge_review-ready w result item (selected w job m).1 (selected-NotReady w job m h) q in
          record {
            waits = stage;
            job = job;
            active = active;
            result = result;
            item = item;
            observed = seen;
            continues = continues seen.advice result seen.usable settled;
            head = head;
            own_head = sym ((selected-head w job m.state.head).at m refl) ∙ own;
            current = current;
            clean = clean;
          }

  -- Where a step makes a running run ready for merge, the run was waiting for a review, and the answer to
  -- one status command on its own pull request and active job says to continue, is settled, of the run's
  -- base, with the only record of the job started at the run's head, and holds for that head, which is
  -- the current one, a review with no finding.
  pub step-ready : (m : Machine) → m.state.status ≡ running → IsReady (step w m) → Approval w m
  unfolding step
  step-ready m runs q0 = at_status m.state.status refl q0
    where
      h : NotReady m
      h e = running≢ready (sym runs ∙ e)

      tried :
          (stage : Stage) → IsReady (advance_stage w stage m).1 → IsReady (run_stage w stage m).1
      tried stage q = elim (ready_cases (run_stage w stage m).1.state.status) [
        | inl ready ↦ ready
        | inr not_ready ↦ absurd (
            (try-misses IsReady (run_stage w stage) (recover w stage) m not_ready
                (λ e. (recover-Keeps w (closed w) (λ word n m h. h) stage e).at _ not_ready))
              q)
      ]

      at_stage :
          (stage : Stage) → m.state.stage ≡ stage → IsReady (run_stage w stage m).1 → Approval w m
      at_stage review_wait e q = wait_review-ready m e h (unfold run_stage in q)
      at_stage stage e q = absurd ((other_stage-Keeps w (closed w) stage refl).at m h q)

      at_status :
          (s : Status)
          → m.state.status ≡ s
          → IsReady (on_status w s m.state.stage m).1
          → Approval w m
      at_status running e q = at_stage m.state.stage refl (tried m.state.stage q)
      at_status paused e q = absurd (pure-misses IsReady tt m h q)
      at_status ready_for_merge e q = absurd (h e)
