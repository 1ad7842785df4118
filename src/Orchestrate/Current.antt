-- ===== src/Orchestrate/Current.antt =====
-- What `selected` of afk_orchestrate/driver.py has checked of the evidence that it returns.
use afk_pipeline.Prelude.{
  String, true, false, not, Option, none, some, List, [], ◌∷◌, ◌≡◌, ◌≢◌, ◌⊎◌, subst, sym, ◌∙◌, ap,
  arith, eq_iff, str_eq, if◌then◌else◌,
}
use afk_pipeline.Py.Value.{Value, null, str, is_text}
use afk_pipeline.Py.Read.{get, index}
use afk_pipeline.Py.Result.{ok}
use afk_pipeline.Py.Action.{pure, ◌>>=◌, ◌>>◌}
use afk_pipeline.Py.Action.Keeps.{Keeps, keeps_rules}
use afk_pipeline.Py.Action.Returns.{
  lift-returns, bind-returns, gets-returns, else-returns, then-returns, pure-returns, raise-fails,
}
use afk_pipeline.Orchestrate.State.{World, Machine, State, log_event, need, Details, pause_run}
use afk_pipeline.Orchestrate.Commands.{invoke, command, argument}
use afk_pipeline.Orchestrate.Receipts.{revision}
use afk_pipeline.Orchestrate.Validation.{repairable_validation}
use afk_pipeline.Orchestrate.Selected.{
  matching, item_head, is_unsettled, take_item, judge, selected,
}

pub is_text-eq : (v : Value) (s : String) → is_text v s ≡ true → v ≡ str s
is_text-eq (str t) s h = ap str ((eq_iff t s).0 h)
is_text-eq null s h = cc
is_text-eq _ s h = cc

pub need-some : {A : Type 0} (key : String) {o : Option A} {a : A} → need key o ≡ ok a → o ≡ some a
need-some key {o = none} h = cc
need-some key {o = some b} h = ground arith

-- The answer is current for the run: it is of the run's base, and the one record of the job in it
-- started at the run's head.
pub record IsCurrent (s : State) (job : String) (result decision item : Value) : Type 0 where
  pub decided : index result "decision" ≡ ok decision
  pub base : Value
  pub has_base : get decision "base" ≡ ok base
  pub revision_of_base : String
  pub read_base : revision base ≡ ok revision_of_base
  pub own_base : s.base ≡ some revision_of_base
  pub only : matching job result ≡ ok item
  pub head : String
  pub own_head : s.head ≡ some head
  pub started_at : item_head item ≡ ok (str head)

abbrev Outcome : Type 0
Outcome = Option (Value × Value)

module _ (w : World) (job : String) (result : Value) where
  -- what `pause_run` and then `pure none` returns is no evidence
  pauses :
      (reason : String) (details : Details) (m : Machine) (o : Value × Value)
      → ((pause_run w reason details >> pure none) m).0 ≢ ok (some o)
  pauses reason details m o q =
      let (_, _, q1) = bind-returns (pause_run w reason details) _ m (some o) q in
      absurd (none≢some (pure-returns none (some o) _ q1))
    where
      none≢some : ◌≡◌ {A = Outcome} none (some o) → ⊥
      none≢some e = cc

  take_item-IsCurrent :
      (decision : Value) (m : Machine) (o : Value × Value)
      → index result "decision" ≡ ok decision
      → (take_item w job result decision m).0 ≡ ok (some o)
      → (o.0 ≡ result) × IsCurrent m.state job result decision o.1
  unfolding take_item
  take_item-IsCurrent decision m o decided q0 =
      let q1 = gets-returns (λ (m : Machine). m.state) _ m (some o) q0 in
      let (given, e2, q2) = lift-returns (get decision "base") _ m (some o) q1 in
      let (base, e3, q3) = lift-returns (revision given) _ m (some o) q2 in
      let (known, e4, q4) = lift-returns (need "base" m.state.base) _ m (some o) q3 in
      let (same, q5) = else-returns (not (str_eq base known)) _ _ m (some o) (pauses _ _ m o) q4 in
      let (item, e6, q6) = lift-returns (matching job result) _ m (some o) q5 in
      let (start, e7, q7) = lift-returns (item_head item) _ m (some o) q6 in
      let (head, e8, q8) = lift-returns (need "head" m.state.head) _ m (some o) q7 in
      let (at, q9) =
        then-returns (is_text start head) _ _ m (some o) (raise-fails Outcome _ m (some o)) q8 in
      let e = pure-returns (some (result, item)) (some o) m q9 in
      let same_item : item ≡ o.1 = ground arith in
      (
        ground arith,
        record {
          decided = decided;
          base = given;
          has_base = e2;
          revision_of_base = base;
          read_base = e3;
          own_base = need-some "base" e4 ∙ ap some (sym ((eq_iff base known).0 (ground arith)));
          only = e6 ∙ ap ok same_item;
          head = head;
          own_head = need-some "head" e8;
          started_at =
              subst (λ i. item_head i ≡ ok (str head)) same_item
                (e7 ∙ ap ok (is_text-eq start head at));
        },
      )

  judge-IsCurrent :
      (m : Machine) (o : Value × Value)
      → (judge w job result m).0 ≡ ok (some o)
      → (decision : Value) × (o.0 ≡ result)
        × IsCurrent m.state job result decision o.1
        × (is_unsettled result decision ≡ ok false)
        × (advice : Value) × (get decision "recommendation" ≡ ok advice)
        × ((is_text advice "continue" ≡ true) ⊎ (repairable_validation result ≡ ok true))
  unfolding judge
  judge-IsCurrent m o q0 =
      let (decision, e1, q1) = lift-returns (index result "decision") _ m (some o) q0 in
      let (waits, e2, q2) = lift-returns (is_unsettled result decision) _ m (some o) q1 in
      let (settled, q3) = else-returns waits _ _ m (some o) (λ e. nothing_found e) q2 in
      let (advice, e4, q4) = lift-returns (get decision "recommendation") _ m (some o) q3 in
      let (usable, e5, q5) =
        lift-returns (if is_text advice "continue" then ok true else repairable_validation result) _
          m (some o) q4 in
      let (good, q6) = then-returns usable _ _ m (some o) (pauses _ _ m o) q5 in
      let (same, current) = take_item-IsCurrent decision m o e1 q6 in
      (decision, same, current, e2 ∙ ap ok settled, advice, e4, ground arith)
    where
      none≢some : ◌≡◌ {A = Outcome} none (some o) → ⊥
      none≢some e = cc

      nothing_found : (pure {A = Outcome} none m).0 ≡ ok (some o) → ⊥
      nothing_found e = none≢some (pure-returns none (some o) m e)

-- What `selected` has seen and checked when it returns an answer and the record of the job in it.
pub record Observed (w : World) (m : Machine) (job : String) (result item : Value) : Type 0 where
  pub target : String
  pub url : m.state.pr_url ≡ some (str target)
  pub answered : (invoke w ("status" ∷ target ∷ "--job" ∷ job ∷ []) m).0 ≡ ok result
  pub decision : Value
  pub current : IsCurrent m.state job result decision item
  pub settled : is_unsettled result decision ≡ ok false
  pub advice : Value
  pub advised : get decision "recommendation" ≡ ok advice
  pub usable : (is_text advice "continue" ≡ true) ⊎ (repairable_validation result ≡ ok true)

is_argument : (v : Value) {s : String} → argument v ≡ ok s → v ≡ str s
unfolding argument
is_argument (str t) h = ground arith
is_argument null h = cc
is_argument _ h = cc

module _ (w : World) (line : List String) (m : Machine) where
  command-answer : {v : Value} → (command w line m).0 ≡ ok v → (invoke w line m).0 ≡ ok v
  unfolding command ◌>>=◌
  command-answer h = ground arith

  command-base : (command w line m).1.state.base ≡ m.state.base
  unfolding command ◌>>=◌
  command-base = ground arith

  command-head : (command w line m).1.state.head ≡ m.state.head
  unfolding command ◌>>=◌
  command-head = ground arith

IsCurrent-same :
    {s t : State} {job : String} {result decision item : Value}
    → s.base ≡ t.base
    → s.head ≡ t.head
    → IsCurrent s job result decision item
    → IsCurrent t job result decision item
IsCurrent-same b h c = record {
  decided = c.decided;
  base = c.base;
  has_base = c.has_base;
  revision_of_base = c.revision_of_base;
  read_base = c.read_base;
  own_base = sym b ∙ c.own_base;
  only = c.only;
  head = c.head;
  own_head = sym h ∙ c.own_head;
  started_at = c.started_at;
}

-- When `selected` returns evidence, this is the answer of one status command on the run's own pull
-- request, the decision in it is settled and either says to continue or is a repairable failure, it is
-- of the run's base, and the only record of the job in it started at the run's head.
pub selected-Observed :
    (w : World) (job : String) (m : Machine) (result item : Value)
    → (selected w job m).0 ≡ ok (some (result, item))
    → Observed w m job result item
unfolding selected
selected-Observed w job m result item q0 =
    let o : Value × Value = (result, item) in
    let q = gets-returns (λ (m : Machine). m.state) _ m (some o) q0 in
    let (url, e1, q1) = lift-returns (need "pr_url" m.state.pr_url) _ m (some o) q in
    let (target, e2, q2) = lift-returns (argument url) _ m (some o) q1 in
    let line = "status" ∷ target ∷ "--job" ∷ job ∷ [] in
    let (answer, e3, q3) = bind-returns (command w line) _ m (some o) q2 in
    let (decision, same, current, settled, advice, advised, usable) =
      judge-IsCurrent w job answer (command w line m).1 o q3 in
    record {
      target = target;
      url = need-some "pr_url" e1 ∙ ap some (is_argument url e2);
      answered = command-answer w line m (e3 ∙ ap ok (sym same));
      decision = decision;
      current = IsCurrent-same (command-base w line m) (command-head w line m) (
          subst (λ r. IsCurrent (command w line m).1.state job r decision item) (sym same) current);
      settled = subst (λ r. is_unsettled r decision ≡ ok false) (sym same) settled;
      advice = advice;
      advised = advised;
      usable =
          subst (λ r. (is_text advice "continue" ≡ true) ⊎ (repairable_validation r ≡ ok true))
            (sym same) usable;
    }

abbrev HeadIs : Option String → Machine → Type 0
HeadIs o m = m.state.head ≡ o

module _ (w : World) (o : Option String) where
  command-HeadIs : (line : List String) → Keeps (HeadIs o) (command w line)
  command-HeadIs line = record { at = λ m h. command-head w line m ∙ h }

  pause_run-HeadIs :
      (reason : String) (details : Details) → Keeps (HeadIs o) (pause_run w reason details)
  unfolding pause_run ◌>>=◌ log_event
  pause_run-HeadIs reason details = record { at = λ m h. h }

  take_item-HeadIs :
      (job : String) (result decision : Value) → Keeps (HeadIs o) (take_item w job result decision)
  unfolding take_item
  take_item-HeadIs job result decision = search (keeps_rules, pause_run-HeadIs) depth 30

  judge-HeadIs : (job : String) (result : Value) → Keeps (HeadIs o) (judge w job result)
  unfolding judge
  judge-HeadIs job result = search (keeps_rules, pause_run-HeadIs, take_item-HeadIs) depth 30

-- `selected` leaves the head of the run as it is.
pub selected-head :
    (w : World) (job : String) (o : Option String) → Keeps (HeadIs o) (selected w job)
unfolding selected
selected-head w job o = search (keeps_rules, command-HeadIs w o, judge-HeadIs w o) depth 30
