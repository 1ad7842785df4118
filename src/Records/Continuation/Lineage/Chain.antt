-- ===== src/Records/Continuation/Lineage/Chain.antt =====
-- What `observe_lineage` of afk_records/continuation.py has established of the continuations that it returns.
use afk_pipeline.Prelude.{
  ℕ, suc, ◌+◌, ◌<◌, pos, String, Bool, true, false, not, ◌&&◌, ◌||◌, Option, none, some, List, [],
  ◌∷◌, ◌++◌, ◌≡◌, refl, sym, ap, ◌∙◌, subst, ltb, ◌==◌, length, if◌then◌else◌, arith, Bool-cases,
  inl, inr, &&-true, ==_iff,
}
use afk_pipeline.Py.Value.{Value, int, is_text, is_number, py_eq}
use afk_pipeline.Py.Read.{index, get}
use afk_pipeline.Py.Result.{Exc, ok, value_error, ◌>>=◌, >>=-returns}
use afk_pipeline.Py.Shape.{is_some}
use afk_pipeline.Py.Facts.{is_ok, require-then, require-true, taken, not_taken}
use afk_pipeline.Records.Coordinator.Invocation.{validate_continuation}
use afk_pipeline.Records.Coordinator.Checkpoint.{validate_checkpoint}
use afk_pipeline.Records.Coordinator.Output.{require_terminal_pair}
use afk_pipeline.Records.Continuation.Exhausted.{
  completed_responses, take, same_list, Linked, linked, starts_with, has_grown, less, validate_link,
}
use afk_pipeline.Records.Continuation.Lineage.{
  Continuations, Observer, Observed, Prior, Lineage, effective, deferred, is_empty, read_output,
  observe_one, prior_of, observe, observe_lineage, continuation_directories, selection,
}
use afk_pipeline.Records.Continuation.Sums.{validate_continuation-Sums}

-- the continuation goes on from the state before it
pub record Continues (before : Value) (item : Observed) : Type 0 where
  pub earlier : List Value
  pub history : List Value
  pub was : (next : Linked) × (linked before ≡ ok next) × (next.history ≡ earlier)
  pub is : (next : Linked) × (linked item.state ≡ ok next) × (next.history ≡ history)
  -- its history starts with the earlier one, and is longer once it is sealed
  pub starts : same_list (take (length earlier) history) earlier ≡ true
  pub grows : is_some item.output ≡ true → length earlier < length history
  -- its limit leaves room for a response more than those completed before it
  pub completed : ℕ
  pub counted : completed_responses earlier ≡ ok completed
  pub limit : Value
  pub own_limit : index item.input "effective_max_responses" ≡ ok limit
  pub additional : ℕ
  pub room : is_number limit (completed + suc additional) ≡ true

abbrev pub Chain : Value → List Observed → Type 0
Chain before [] = Unit {0}
Chain before (item ∷ rest) = Continues before item × Chain item.state rest

module _ (before state input : Value) (prior_output : String) where
  -- a valid link, to a continuation whose output is sealed only if its state is not at work
  link-Continues :
      (name : String) (output : Option Value) {u : Unit {0}}
      → validate_link before state input prior_output ≡ ok u
      → ((status : Value)
          → index state "status" ≡ ok status
          → is_some output ≡ true
          → is_text status "running" ≡ false)
      → Continues before
          (record { directory = some name; input = input; state = state; output = output })
  unfolding validate_link
  link-Continues name output q0 over =
      let (u1, e1, q1) = >>=-returns (validate_continuation input) _ q0 in
      let (prior, e2, q2) = >>=-returns (linked before) _ q1 in
      let (completed, e3, q3) = >>=-returns (completed_responses prior.history) _ q2 in
      let (named, e4, q4) = >>=-returns (index input "prior_output") _ q3 in
      let (done, e5, q5) = >>=-returns (index input "completed_responses") _ q4 in
      let (own, e6, q6) = >>=-returns (get state "continuation") _ q5 in
      let (next, e7, q7) = >>=-returns (linked state) _ q6 in
      let (status, e8, q8) = >>=-returns (index state "status") _ q7 in
      let test =
        require-true (value_error "continuation lineage does not match its predecessor") _ q8 in
      let (known, rest) =
        &&-true (is_text named prior_output && py_eq own input && not (less next.next prior.next)) _
          test in
      let (counted, rest') = &&-true (is_number done completed) _ rest in
      let (started, grown) =
        &&-true (starts_with next.history prior.history) (has_grown status prior next) rest' in
      let (same_start, no_shorter) =
        &&-true (same_list (take (length prior.history) next.history) prior.history) _ started in
      let sums = validate_continuation-Sums input e1 in
      let same_done = is_ok (int (pos sums.completed)) done (sym sums.own_completed ∙ e5) in
      let same_count =
        (==_iff sums.completed completed).0 (ap (λ v. is_number v completed) same_done ∙ counted) in
      record {
        earlier = prior.history;
        history = next.history;
        was = (prior, e2, refl);
        is = (next, e7, refl);
        starts = same_start;
        grows = λ sealed.
            longer (length next.history) (length prior.history) (is_text status "running")
              (py_eq next.next_value prior.next_value) (over status e8 sealed) no_shorter grown;
        completed = completed;
        counted = e3;
        limit = sums.limit;
        own_limit = sums.own_limit;
        additional = sums.additional;
        room = ap (λ n. is_number sums.limit (n + suc sums.additional)) (sym same_count) ∙ sums.sum;
      }
    where
      longer :
          (m n : ℕ) (running same : Bool)
          → running ≡ false
          → not (ltb m n) ≡ true
          → (running || not (m == n || same)) ≡ true
          → n < m
      longer m n running same r a b = ground arith

module _ (c : Continuations) (o : Observer) where
  -- an output is read only of a continuation that is not at work
  read_output-over :
      (last : Bool) (name : String) (state : Value) (output : Option Value)
      → read_output c o last name state ≡ ok output
      → (status : Value) → index state "status" ≡ ok status
      → is_some output ≡ true
      → is_text status "running" ≡ false
  unfolding read_output
  read_output-over last name state output q0 status e sealed =
      let (own, e1, q1) = >>=-returns (index state "status") _ q0 in
      let same = is_ok own status (sym e1 ∙ e) in
      elim (Bool-cases (is_text own "running")) [
        | inl a ↦
            let (test, q2) =
              require-then _ (o.allow_running && last && not (c.has_output name)) _
                (taken (is_text own "running") _ _ a q1) in
            absurd (apart (ap is_some (is_ok none output q2) ∙ sealed))
        | inr a ↦ sym (ap (λ v. is_text v "running") same) ∙ a
      ]
    where
      apart : false ≡ true → ⊥
      apart h = cc

  observe_one-Continues :
      (prior : Prior) (last : Bool) (name : String) (item : Observed) (errors : List Exc)
      → observe_one c o prior last name ≡ ok (item, errors)
      → Continues prior.state item
  unfolding observe_one
  observe_one-Continues prior last name item errors q0 =
      let (kept, e1, q1) = >>=-returns (deferred o.defer_error _) _ q0 in
      let (input, e2, q2) = >>=-returns (c.read_json name "input.json") _ q1 in
      let (u3, e3, q3) = >>=-returns (validate_continuation input) _ q2 in
      let (state, e4, q4) = >>=-returns (c.read_json name "state.json") _ q3 in
      let (u5, e5, q5) = >>=-returns (validate_checkpoint state) _ q4 in
      let (u6, e6, q6) = >>=-returns (validate_link prior.state state input prior.output) _ q5 in
      let (output, e7, q7) = >>=-returns (read_output c o last name state) _ q6 in
      let continued =
        link-Continues prior.state state input prior.output name output e6
          (read_output-over last name state output e7) in
      subst (Continues prior.state)
        (ap (λ r. r.0)
          (is_ok
            (record { directory = some name; input = input; state = state; output = output }, kept)
            (item, errors) q7))
        continued

  prior_of-state :
      (prior : Prior) (name : String) (item : Observed) (next : Prior)
      → prior_of c o prior name item ≡ ok next
      → next.state ≡ item.state
  unfolding prior_of
  prior_of-state prior name item next q0 =
      let (value, e2, q2) = >>=-returns (index item.input "effective_max_responses") _ q0 in
      let (limit, e3, q3) = >>=-returns (effective value) _ q2 in
      ap (λ p. p.state) (sym (is_ok _ next q3))

  -- what the loop returns goes on from its start
  observe-Chain :
      (prior : Prior) (names : List String) (items : List Observed) (errors : List Exc)
      → observe c o prior names ≡ ok (items, errors)
      → Chain prior.state items
  unfolding observe
  observe-Chain prior [] items errors q =
      subst (Chain prior.state) (ap (λ r. r.0) (is_ok ([], []) (items, errors) q)) tt
  observe-Chain prior (name ∷ rest) items errors q0 =
      let (first, e1, q1) = >>=-returns (observe_one c o prior (is_empty rest) name) _ q0 in
      let (later, e2, q2) =
        >>=-returns
          (if is_some first.0.output
            then (prior_of c o prior name first.0 >>= λ next. observe c o next rest)
            else ok ([], []))
          _ q1 in
      let chained = observe_one-Continues prior (is_empty rest) name first.0 first.1 e1 in
      subst (Chain prior.state)
        (ap (λ r. r.0) (is_ok (first.0 ∷ later.0, first.1 ++ later.1) (items, errors) q2))
        (elim (Bool-cases (is_some first.0.output)) [
          | inl sealed ↦
              let q3 = taken (is_some first.0.output) _ _ sealed e2 in
              let (next, e4, q4) = >>=-returns (prior_of c o prior name first.0) _ q3 in
              (
                chained,
                subst (λ v. Chain v later.0) (prior_of-state prior name first.0 next e4)
                    (observe-Chain next rest later.0 later.1 q4),
              )
          | inr active ↦ (
            chained,
            subst (λ r. Chain first.0.state r.0)
                (is_ok ([], []) later (not_taken (is_some first.0.output) _ _ active e2)) tt,
          )
        ])

-- The continuations that `observe_lineage` returns form a chain from the initial state: each has a limit
-- above the number of responses that the histories before it have completed, its history starts with the
-- earlier one, and if its output is sealed the history is longer than the earlier one.
pub observe_lineage-Chain :
    (c : Continuations) (o : Observer) (state output : Value) (limit : ℕ) (lineage : Lineage)
    → observe_lineage c o state output limit ≡ ok lineage
    → Chain state lineage.continuations
unfolding observe_lineage
observe_lineage-Chain c o state output limit lineage q0 =
    let (names, e1, q1) = >>=-returns (continuation_directories c) _ q0 in
    let (u, e2, q2) = >>=-returns (require_terminal_pair state output) _ q1 in
    let (seen, e3, q3) =
      >>=-returns
        (observe c o
          (record { state = state; limit = limit; output = "../../output.json"; roots = [] }) names)
        _ q2 in
    let (selected, e4, q4) =
      >>=-returns (selection o.terminal_continuation state output seen.0) _ q3 in
    subst (λ l. Chain state l.continuations)
      (is_ok
        (record {
          continuations = seen.0;
          selected = selected;
          directories = names;
          deferred_errors = seen.1;
        })
        lineage q4)
      (observe-Chain c o _ names seen.0 seen.1 e3)
