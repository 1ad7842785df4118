-- ===== src/Pr/Jobs/Child.antt =====
-- How often publishing a creation of afk_pr/jobs.py and afk_pr/creation.py starts a job of fixtures.
use afk_pipeline.Prelude.{
  ℕ, ◌+◌, ◌≤◌, Bool, true, false, not, ◌&&◌, Option, none, some, List, [], ◌∷◌, ◌≡◌, refl, sym, ap,
  ◌∙◌, subst, if◌then◌else◌, arith, &&-true,
}
use afk_pipeline.Py.Value.{Value, Fields, null, bool, int, str, list, dict, is_text, truthy}
use afk_pipeline.Py.Read.{index, has}
use afk_pipeline.Py.Result.{Result, ok, ◌>>=◌ as and_then, >>=-returns}
use afk_pipeline.Py.Dict.{lookup-set_field, has-set_field}
use afk_pipeline.Py.Action.{pure, lift, ◌>>=◌}
use afk_pipeline.Py.Action.Keeps.{
  Keeps, Keeps-pure, bind-at, gets-at, bind-to, if-at, lift-at, modify-at,
}
use afk_pipeline.Pr.Folder.{set_field}
use afk_pipeline.Pr.Identity.{identity}
use afk_pipeline.Pr.Jobs.Store.{Effect, child_started, Store, World, Worker, file}
use afk_pipeline.Pr.Jobs.Creation.{
  fields_of, is_there, pushed, reused, find_pr, read_progress, write_progress, found_or_created,
  new_fixtures, queue_fixtures, hand_over, publish_pushed, publish_creation,
}
use afk_pipeline.Pr.Jobs.Quiet.{IsQuiet, find_pr-Keeps, found_or_created-Keeps}

-- the jobs of fixtures that were started
abbrev pub children : List Effect → ℕ
children [] = 0
children (child_started child ∷ es) = 1 + children es
children (e ∷ es) = children es

-- the children that may still be started: one, while the progress of the creation names none
abbrev pub room : Option Value → ℕ
room (some (dict progress)) = if has progress "fixture_job" then 0 else 1
room v = 0

fields_of-dict : (v : Value) (fs : Fields) → fields_of v ≡ ok fs → v ≡ dict fs
fields_of-dict (dict gs) fs q = ground arith
fields_of-dict null fs q = cc
fields_of-dict (bool b) fs q = cc
fields_of-dict (int z) fs q = cc
fields_of-dict (str s) fs q = cc
fields_of-dict (list vs) fs q = cc

file-some : (x : Option Value) (v : Value) → file x ≡ ok v → x ≡ some v
file-some none v e = cc
file-some (some u) v e = ground arith

read_some :
    (x : Option Value) (progress : Fields)
    → and_then (file x) fields_of ≡ ok progress
    → x ≡ some (dict progress)
read_some x progress q0 =
    let (v, e, q1) = >>=-returns (file x) fields_of q0 in
    file-some x v e ∙ ap some (fields_of-dict v progress q1)

room-pushed :
    (url : Value) (progress : Fields)
    → has (pushed url progress) "fixture_job" ≡ has progress "fixture_job"
room-pushed url progress = simp (
  lookup-set_field "push" "fixture_job" (str "pushed") (set_field "pr_url" url progress),
  lookup-set_field "pr_url" "fixture_job" url progress,
)

room-taken :
    (v : Value) (progress : Fields) → room (some (dict (set_field "fixture_job" v progress))) ≡ 0
room-taken v progress = simp (has-set_field "fixture_job" v progress)

room-reused :
    (identifier contract : Value) (progress : Fields)
    → room (some (dict (reused identifier contract progress))) ≡ 0
room-reused identifier contract progress = simp (
  lookup-set_field "fixture_contract" "fixture_job" contract
      (set_field "fixture_reused" (bool true) (set_field "fixture_job" identifier progress)),
  lookup-set_field "fixture_reused" "fixture_job" (bool true)
      (set_field "fixture_job" identifier progress),
  lookup-set_field "fixture_job" "fixture_job" identifier progress,
)

module _ (w : World) (n : ℕ) where
  abbrev pub HasRoom : Store → Type 0
  HasRoom m = children m.log + room m.creation_progress ≤ n

  pub HasRoom-IsQuiet : IsQuiet HasRoom
  HasRoom-IsQuiet = record {
    status = λ state m h. h;
    sending = λ phase m h. h;
    sealing = λ v m h. h;
  }

  -- and the progress of the creation is this one
  abbrev HasProgress : Fields → Store → Type 0
  HasProgress progress m = HasRoom m × (m.creation_progress ≡ some (dict progress))

  HasProgress-IsQuiet : (progress : Fields) → IsQuiet (HasProgress progress)
  HasProgress-IsQuiet progress = record {
    status = λ state m h. h;
    sending = λ phase m h. h;
    sealing = λ v m h. h;
  }

  read_progress-at :
      {B : Type 0} (progress : Fields) (f : Fields → Worker B) (m : Store)
      → m.creation_progress ≡ some (dict progress)
      → HasRoom (f progress m).1
      → HasRoom ((read_progress w >>= f) m).1
  unfolding ◌>>=◌
  read_progress-at progress f m e h = simp e h

  lifted-at : {A : Type 0} (r : Result A) (m : Store) → HasRoom m → HasRoom (lift r m).1
  unfolding ◌>>=◌
  lifted-at r m h = h

  returned-at : {A : Type 0} (a : A) (m : Store) → HasRoom m → HasRoom (pure a m).1
  unfolding ◌>>=◌
  returned-at a m h = h

  read_any-at :
      {B : Type 0} (f : Fields → Worker B) (m : Store)
      → HasRoom m
      → ((progress : Fields)
          → m.creation_progress ≡ some (dict progress)
          → HasRoom (f progress m).1)
      → HasRoom ((read_progress w >>= f) m).1
  unfolding ◌>>=◌
  read_any-at f m h k =
      lift-at HasRoom (and_then (file m.creation_progress) fields_of) f m h
        (λ progress e. k progress (read_some m.creation_progress progress e))

  set_progress-at :
      (progress : Fields) (m : Store)
      → children m.log + room (some (dict progress)) ≤ n
      → HasRoom (write_progress w progress m).1
  unfolding ◌>>=◌
  set_progress-at progress m h = h

  spent :
      (c : ℕ) (x : Option Value) (progress : Fields)
      → c + room x ≤ n
      → x ≡ some (dict progress)
      → has progress "fixture_job" ≡ false
      → c + 1 ≤ n
  spent c x progress h e lacks =
      subst (λ r. c + r ≤ n) {x = room x} {y = 1}
        (ap room e
          ∙ ap (λ b. if b then 0 else 1) {x = has progress "fixture_job"} {y = false} lacks)
        h

  fits : (c r : ℕ) → r ≡ 0 → c + 1 ≤ n → 1 + c + r ≤ n
  fits c r e h = omega arith

  fits_none : (c r : ℕ) → r ≡ 0 → c + 1 ≤ n → c + r ≤ n
  fits_none c r e h = omega arith

  new_fixtures-at :
      (job progress : Fields) (candidate contract : Value) (m : Store)
      → HasProgress progress m
      → has progress "fixture_job" ≡ false
      → HasRoom (new_fixtures w job candidate contract m).1
  unfolding new_fixtures
  new_fixtures-at job progress candidate contract m (h, e) lacks =
      let enough = spent (children m.log) m.creation_progress progress h e lacks in
      lift-at HasRoom (index (dict job) "id") _ m h (λ own _. gets-at HasRoom _ _ m (
        lift-at HasRoom (w.make_child m.log _) _ m h (λ _ _. read_progress-at progress _ m e (
          modify-at HasRoom _ _ m (
            modify-at HasRoom _ _ _ (
              gets-at HasRoom _ _ _ (
                lifted-at (w.start_child _ _) _
                  (fits (children m.log) _ (room-taken (w.child_id m.log) progress) enough))))))))

  queue_fixtures-at :
      (job progress : Fields) (candidate : Value) (m : Store)
      → HasProgress progress m
      → has progress "fixture_job" ≡ false
      → HasRoom (queue_fixtures w job candidate m).1
  unfolding queue_fixtures
  queue_fixtures-at job progress candidate m (h, e) lacks =
      let enough = spent (children m.log) m.creation_progress progress h e lacks in
      lift-at HasRoom (index (dict (set_field "head" candidate job)) "pr_url") _ m h (λ url _.
        lift-at HasRoom (identity url) _ m h (λ _ _. gets-at HasRoom _ _ m (
          lift-at HasRoom (w.select m.log (set_field "head" candidate job)) _ m h (λ chosen _.
            read_progress-at progress _ m e (
              if-at HasRoom (truthy chosen.0) _ _ m
                (λ _.
                  set_progress-at (reused chosen.0 chosen.1 progress) m
                    (fits_none (children m.log) _ (room-reused chosen.0 chosen.1 progress) enough))
                (λ _. new_fixtures-at job progress candidate chosen.1 m (h, e) lacks))))))

  pushed-HasRoom :
      (url : Value) (progress : Fields) (m : Store)
      → HasProgress progress m
      → children m.log + room (some (dict (pushed url progress))) ≤ n
  pushed-HasRoom url progress m (h, e) =
      subst (λ r. children m.log + r ≤ n) {x = room m.creation_progress}
        {y = room (some (dict (pushed url progress)))}
        (ap room e ∙ ap (λ b. if b then 0 else 1) (sym (room-pushed url progress))) h

  hand_over-at :
      (job progress : Fields) (pr : Value) (m : Store)
      → HasProgress progress m
      → HasRoom (hand_over w job progress pr m).1
  unfolding hand_over
  hand_over-at job progress pr m (h, e) =
      let after = pushed-HasRoom in
      let later : Value → Store = λ url. record m {
        job = set_field "pr_url" url job;
        creation_progress = some (dict (pushed url progress));
      } in
      lift-at HasRoom (index pr "html_url") _ m h (λ url _. modify-at HasRoom _ _ m (
        modify-at HasRoom _ _ _ (
          lift-at HasRoom (index pr "state") _ _ (after url progress m (h, e)) (λ state _.
            if-at HasRoom (is_text state "open" && not (has (pushed url progress) "fixture_job")) _
              _ _
              (λ test.
                lift-at HasRoom (index (dict (pushed url progress)) "candidate") _ _
                  (after url progress m (h, e))
                  (λ candidate _.
                    bind-at {P = HasRoom} (queue_fixtures w (set_field "pr_url" url job) candidate)
                      _ (later url)
                      (queue_fixtures-at (set_field "pr_url" url job) (pushed url progress)
                        candidate (later url) (after url progress m (h, e), refl)
                        (not-true _ (&&-true (is_text state "open") _ test).1))
                      (λ _. Keeps-pure url)))
              (λ _. returned-at url _ (after url progress m (h, e)))))))
    where
      not-true : (b : Bool) → not b ≡ true → b ≡ false
      not-true false k = refl
      not-true true k = cc

  publish_pushed-at :
      (job progress : Fields) (m : Store)
      → HasProgress progress m
      → HasRoom (publish_pushed w job progress m).1
  unfolding publish_pushed
  publish_pushed-at job progress m h =
      let quiet = HasProgress-IsQuiet progress in
      bind-to {P = HasProgress progress} {Q = HasRoom} (find_pr w job) _ m
        ((find_pr-Keeps w (HasProgress progress) quiet job).at m h) (λ d k. k.0)
        (λ found d k.
          bind-to {P = HasProgress progress} {Q = HasRoom} (found_or_created w job progress found) _
            d ((found_or_created-Keeps w (HasProgress progress) quiet job progress found).at d k)
            (λ d k. k.0) (λ pr d k. hand_over-at job progress pr d k))

  pub publish_creation-HasRoom : (job : Fields) → Keeps HasRoom (publish_creation w job)
  unfolding publish_creation
  publish_creation-HasRoom job = record {
    at = λ m h. gets-at HasRoom _ _ m (
        if-at HasRoom (is_there m.creation_progress) _ _ m
          (λ _. read_any-at _ m h (λ progress e.
            lift-at HasRoom (index (dict progress) "push") _ m h (λ push _.
              if-at HasRoom (is_text push "not_started") _ _ m (λ _. returned-at null m h)
                (λ _. publish_pushed-at job progress m (h, e)))))
          (λ _. returned-at null m h));
  }
