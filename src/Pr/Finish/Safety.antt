-- ===== src/Pr/Finish/Safety.antt =====
-- What an attempt of afk_pr/finish.py asks of the world, and when.
use afk_pipeline.Prelude.{
  String, Bool, true, false, not, ◌||◌, Option, none, some, List, [], ◌∷◌, ◌≡◌, refl, arith,
  if◌then◌else◌, str_eq,
}
use afk_pipeline.Py.Result.{Result, ok, err, Exc}
use afk_pipeline.Py.Action.{pure, modify, ◌>>=◌, ◌>>◌, proceed}
use afk_pipeline.Py.Action.Keeps.{
  Keeps, Keeps-modify, if-at, try-at, bind-at, modify-at, keeps_rules,
}
use afk_pipeline.Pr.Finish.State.{
  Intent, Observation, started, Closure, Report, Effect, seen, saved, merge_asked, bead_read,
  close_asked, World, Attempt, Finisher, set_report, save, note_seen, observe, matches,
}
use afk_pipeline.Pr.Finish.{
  log_effect, merge_call, merge_failed, ask_merge, resolve_merge, merge_open, request_seen,
  request_merge, read_bead, close_call, close_failed, ask_close, resolve_close, close_open,
  close_read, close_seen, close_selected, on_bead, close_after_merge, check_bead, attempt,
  attempt_failed, apply, finish,
}

-- A merge is asked for by the attempt's own intent, right after the intent to ask was saved, and
-- that right after an open, unmerged pull request with the intended head, base and repository was
-- seen. A Bead is asked to close only if it is the selected one, right after a save and a read of it,
-- and these right after the pull request was seen merged with that head, base and repository.
abbrev pub IsAllowed : Intent → Effect → List Effect → Type 0
IsAllowed intent (merge_asked i) before =
    (r : Report) × (o : Observation) × (rest : List Effect) × (before ≡ saved r ∷ seen o ∷ rest)
    × (i ≡ intent)
    × (r.request ≡ some started)
    × (matches intent o ≡ true)
    × (o.merged ≡ false)
    × (o.is_open ≡ true)
IsAllowed intent (close_asked bead) before =
    (r : Report) × (o : Observation) × (rest : List Effect) × (before
      ≡ saved r ∷ bead_read bead ∷ seen o ∷ rest)
    × (intent.close_bead ≡ some bead)
    × (r.closure ≡ Closure.started)
    × (matches intent o ≡ true)
    × (o.merged ≡ true)
IsAllowed intent _ before = Unit

-- each effect is allowed by those before it
abbrev pub IsSafe : Intent → List Effect → Type 0
IsSafe intent [] = Unit
IsSafe intent (e ∷ before) = IsAllowed intent e before × IsSafe intent before

abbrev SafeAttempt : Intent → Attempt → Type 0
SafeAttempt intent a = IsSafe intent a.log

abbrev saved_as : Report → Attempt → Attempt
saved_as r a = record { report = r; log = saved r ∷ a.log }

module _ (w : World) (intent : Intent) where
  abbrev Safe : Attempt → Type 0
  Safe = SafeAttempt intent

  set_report-Safe : (f : Report → Report) → Keeps (SafeAttempt intent) (set_report f)
  set_report-Safe f = Keeps-modify _ (λ a h. h)

  save-Safe : Keeps (SafeAttempt intent) save
  save-Safe = Keeps-modify _ (λ a h. (tt, h))

  seen-Safe : (o : Observation) → Keeps (SafeAttempt intent) (modify (note_seen o))
  seen-Safe o = Keeps-modify _ (λ a h. (tt, h))

  read-Safe : (bead : String) → Keeps (SafeAttempt intent) (log_effect (bead_read bead))
  read-Safe bead = Keeps-modify _ (λ a h. (tt, h))

  ruleset quiet_rules = (keeps_rules, set_report-Safe, save-Safe, seen-Safe, read-Safe)

  observe-Safe : Keeps (SafeAttempt intent) (observe w)
  unfolding observe
  observe-Safe = search quiet_rules depth 20

  read_bead-Safe : (bead : String) → Keeps (SafeAttempt intent) (read_bead w bead)
  unfolding read_bead
  read_bead-Safe bead = search quiet_rules depth 20

  merge_failed-Safe : (e : Exc) → Keeps (SafeAttempt intent) (merge_failed e)
  unfolding merge_failed
  merge_failed-Safe e = search quiet_rules depth 20

  close_failed-Safe : (e : Exc) → Keeps (SafeAttempt intent) (close_failed e)
  unfolding close_failed
  close_failed-Safe e = search quiet_rules depth 20

  merge_call-Safe :
      (a : Attempt)
      → IsAllowed intent (merge_asked intent) a.log
      → SafeAttempt intent a
      → SafeAttempt intent (merge_call w intent a).1
  unfolding merge_call ◌>>=◌
  merge_call-Safe a allowed h = (allowed, h)

  close_call-Safe :
      (bead : String) (a : Attempt)
      → IsAllowed intent (close_asked bead) a.log
      → SafeAttempt intent a
      → SafeAttempt intent (close_call w bead a).1
  unfolding close_call ◌>>=◌
  close_call-Safe bead a allowed h = (allowed, h)

  ask_merge-Safe :
      (a : Attempt)
      → IsAllowed intent (merge_asked intent) a.log
      → SafeAttempt intent a
      → SafeAttempt intent (ask_merge w intent a).1
  unfolding ask_merge
  ask_merge-Safe a allowed h =
      try-at _ merge_failed a (bind-at _ _ a (merge_call-Safe a allowed h) (λ _. set_report-Safe _))
        merge_failed-Safe

  ask_close-Safe :
      (bead : String) (a : Attempt)
      → IsAllowed intent (close_asked bead) a.log
      → SafeAttempt intent a
      → SafeAttempt intent (ask_close w bead a).1
  unfolding ask_close
  ask_close-Safe bead a allowed h =
      try-at _ close_failed a (close_call-Safe bead a allowed h) close_failed-Safe

  resolve_merge-Safe : Keeps Safe (resolve_merge w intent)
  unfolding resolve_merge
  resolve_merge-Safe = search (quiet_rules, observe-Safe) depth 20

  resolve_close-Safe : (bead : String) → Keeps Safe (resolve_close w bead)
  unfolding resolve_close
  resolve_close-Safe bead = search (quiet_rules, read_bead-Safe) depth 20

  -- from a log whose latest effect saw the open pull request
  merge_open-Safe :
      (a : Attempt) (o : Observation) (rest : List Effect)
      → a.log ≡ seen o ∷ rest
      → matches intent o ≡ true
      → o.merged ≡ false
      → o.is_open ≡ true
      → SafeAttempt intent a
      → SafeAttempt intent (merge_open w intent a).1
  unfolding merge_open
  merge_open-Safe a o rest q m u n h = modify-at Safe _ _ a (
      modify-at Safe _ _ _ (
        bind-at _ _ _
          (ask_merge-Safe (saved_as (record a.report { request = some started }) a)
            (record a.report { request = some started }, o, rest, cc, refl, refl, m, u, n) (tt, h))
          (λ _. resolve_merge-Safe)))

  request_seen-Safe :
      (a : Attempt) (o : Observation) (rest : List Effect)
      → a.log ≡ seen o ∷ rest
      → SafeAttempt intent a
      → SafeAttempt intent (request_seen w intent o a).1
  unfolding request_seen
  request_seen-Safe a o rest q h = modify-at Safe _ _ a (
      if-at Safe (not (matches intent o)) _ _ _ (λ _. (set_report-Safe _).at _ h)
        (λ changed'.
          if-at Safe o.merged _ _ _ (λ _. (set_report-Safe _).at _ h)
            (λ merged'.
              if-at Safe (not o.is_open) _ _ _ (λ _. (set_report-Safe _).at _ h)
                (λ open'. merge_open-Safe _ o rest q (ground arith) merged' (ground arith) h))))

  -- an observation is the latest effect of what follows it
  observe-at :
      (f : Observation → Finisher Unit) (a : Attempt)
      → SafeAttempt intent a
      → ((o : Observation) (b : Attempt)
          → b.log ≡ seen o ∷ a.log
          → SafeAttempt intent b
          → SafeAttempt intent (f o b).1)
      → SafeAttempt intent ((observe w >>= f) a).1
  unfolding observe ◌>>=◌
  observe-at f a h k = by_answer (w.observe a.log)
    where
      by_answer :
          (r : Result Observation)
          → SafeAttempt intent
              (let (s, b) = proceed r (λ o. modify (note_seen o) >>= λ _. pure o) a in
                proceed s f b).1
      by_answer (ok o) = k o (note_seen o a) refl (tt, h)
      by_answer (err e) = h

  request_merge-Safe : Keeps Safe (request_merge w intent)
  unfolding request_merge
  request_merge-Safe = record {
    at = λ a h. observe-at _ a h (λ o b q hb. request_seen-Safe b o a.log q hb);
  }

  close_open-Safe :
      (bead : String) (a : Attempt) (o : Observation) (rest : List Effect)
      → a.log ≡ bead_read bead ∷ seen o ∷ rest
      → intent.close_bead ≡ some bead
      → matches intent o ≡ true
      → o.merged ≡ true
      → SafeAttempt intent a
      → SafeAttempt intent (close_open w bead a).1
  unfolding close_open
  close_open-Safe bead a o rest q b m u h = modify-at Safe _ _ a (
      modify-at Safe _ _ _ (
        bind-at _ _ _
          (ask_close-Safe bead (saved_as (record a.report { closure = Closure.started }) a)
            (record a.report { closure = Closure.started }, o, rest, cc, b, refl, m, u) (tt, h))
          (λ _. resolve_close-Safe bead)))

  close_read-Safe :
      (bead : String) (done : Bool) (a : Attempt) (o : Observation) (rest : List Effect)
      → a.log ≡ bead_read bead ∷ seen o ∷ rest
      → intent.close_bead ≡ some bead
      → matches intent o ≡ true
      → o.merged ≡ true
      → SafeAttempt intent a
      → SafeAttempt intent (close_read w bead done a).1
  unfolding close_read
  close_read-Safe bead done a o rest q b m u h =
      if-at Safe done _ _ a (λ _. (set_report-Safe _).at a h)
        (λ _. close_open-Safe bead a o rest q b m u h)

  -- a read of the Bead is the latest effect of what follows it
  read_bead-at :
      (bead : String) (f : Bool → Finisher Unit) (a : Attempt)
      → SafeAttempt intent a
      → ((done : Bool) (b : Attempt)
          → b.log ≡ bead_read bead ∷ a.log
          → SafeAttempt intent b
          → SafeAttempt intent (f done b).1)
      → SafeAttempt intent ((read_bead w bead >>= f) a).1
  unfolding read_bead ◌>>=◌
  read_bead-at bead f a h k = by_answer (w.bead_closed (bead_read bead ∷ a.log) bead)
    where
      after : Attempt
      after = record a { log = bead_read bead ∷ a.log }

      by_answer : (r : Result Bool) → SafeAttempt intent (proceed r f after).1
      by_answer (ok done) = k done after refl (tt, h)
      by_answer (err e) = (tt, h)

  close_seen-Safe :
      (bead : String) (a : Attempt) (o : Observation) (rest : List Effect)
      → a.log ≡ seen o ∷ rest
      → intent.close_bead ≡ some bead
      → SafeAttempt intent a
      → SafeAttempt intent (close_seen w intent bead o a).1
  unfolding close_seen
  close_seen-Safe bead a o rest q b h = modify-at Safe _ _ a (
      if-at Safe (not (matches intent o) || not o.merged) _ _ _ (λ _. (set_report-Safe _).at _ h)
        (λ is_merged. read_bead-at bead _ _ h (λ done c p hc.
          close_read-Safe bead done c o rest (cc) b (ground arith) (ground arith) hc)))

  close_selected-Safe :
      (bead : String) → intent.close_bead ≡ some bead → Keeps Safe (close_selected w intent bead)
  unfolding close_selected
  close_selected-Safe bead b = record {
    at = λ a h.
        modify-at Safe _ _ a (observe-at _ _ h (λ o c q hc. close_seen-Safe bead c o a.log q b hc));
  }

  close_after_merge-Safe : Keeps Safe (close_after_merge w intent)
  unfolding close_after_merge
  close_after_merge-Safe = by_choice intent.close_bead refl
    where
      by_choice :
          (choice : Option String)
          → intent.close_bead ≡ choice
          → Keeps Safe (
              on_bead choice
                (close_selected w intent)
                (set_report (λ r. record r { closure = Closure.not_requested })))
      by_choice none q = set_report-Safe _
      by_choice (some bead) q = close_selected-Safe bead q

  check_bead-Safe : Keeps Safe (check_bead w intent)
  unfolding check_bead
  check_bead-Safe = by_choice intent.close_bead
    where
      by_choice :
          (choice : Option String)
          → Keeps Safe (
              on_bead choice
                (λ bead. if str_eq bead "" then pure tt else read_bead w bead >> pure tt)
                (pure tt))
      by_choice none = search quiet_rules
      by_choice (some bead) = search (quiet_rules, read_bead-Safe) depth 20

  attempt-Safe : Keeps Safe (attempt w intent)
  unfolding attempt
  attempt-Safe =
      search (quiet_rules, check_bead-Safe, request_merge-Safe, close_after_merge-Safe) depth 20

  attempt_failed-Safe : (e : Exc) → Keeps Safe (attempt_failed e)
  unfolding attempt_failed
  attempt_failed-Safe e = search quiet_rules depth 20

  apply-Safe : Keeps Safe (apply w intent)
  unfolding apply
  apply-Safe = search (quiet_rules, attempt-Safe, attempt_failed-Safe) depth 20

-- In an attempt of a preview, whatever GitHub and the task store answer: a merge is asked for only by
-- the preview's own intent, right after the report that a request has started was saved, and that right
-- after the pull request was seen open, unmerged and with the intended head, base and repository; a Bead
-- is asked to close only if the intent selects it, right after the report that the closure has started
-- was saved, that right after the Bead was read, and that right after the pull request was seen merged
-- with that head, base and repository.
pub finish-IsSafe : (w : World) (intent : Intent) → IsSafe intent (finish w intent).log
finish-IsSafe w intent = (apply-Safe w intent).at _ tt
