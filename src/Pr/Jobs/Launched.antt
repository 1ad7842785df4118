-- ===== src/Pr/Jobs/Launched.antt =====
-- How often `launch_phases` of afk_pr/jobs.py launches the worker of a phase.
use afk_pipeline.Prelude.{
  ℕ, ◌+◌, ◌≤◌, String, Bool, true, false, List, [], ◌∷◌, ◌≡◌, sym, subst, if◌then◌else◌, arith,
  str_eq,
}
use afk_pipeline.Py.Value.{Value}
use afk_pipeline.Py.Result.{Result, ok, err, Exc}
use afk_pipeline.Py.Action.Keeps.{
  Keeps, Keeps-modify, Keeps-pure, Keeps-bind, keeps_rules, bind-to, gets-at, modify-at,
}
use afk_pipeline.Pr.Jobs.Store.{
  launched, Launch, accepted, uncertain, refused, Store, World, log_effect,
}
use afk_pipeline.Pr.Jobs.Work.{launches}
use afk_pipeline.Pr.Jobs.Kept.{publish-IsKept}
use afk_pipeline.Pr.Jobs.Stable.{IsStable, write_phase-Keeps, publish-Keeps, write_seal-Keeps}
use afk_pipeline.Pr.Jobs.Start.{
  timeout_of, launch_failed, launch_ended, launch_with, launch_phase, launch_phases,
}

-- 1 where the phases are the same
abbrev pub one : (p q : String) → ℕ
one p q = if str_eq p q then 1 else 0

abbrev pub count : String → List String → ℕ
count p [] = 0
count p (q ∷ rest) = one p q + count p rest

-- a predicate of the store that starting phases keeps
pub record IsKeptBy (w : World) (P : Store → Type 0) : Type 0 where
  pub stable : IsStable w P
  pub launching : (phase : String) (m : Store) → P m → P (record m { log = launched phase ∷ m.log })

module _ (w : World) (P : Store → Type 0) where
  launch_failed-Keeps :
      IsStable w P → (phase : String) (e : Exc) → Keeps P (launch_failed w phase e)
  unfolding launch_failed
  launch_failed-Keeps stable phase e =
      search
        (
          keeps_rules,
          write_phase-Keeps w P stable,
          publish-Keeps w P stable,
          write_seal-Keeps w P stable,
        )
        depth 40

  launch_ended-Keeps :
      IsStable w P → (phase : String) (l : Launch) → Keeps P (launch_ended w phase l)
  launch_ended-Keeps stable phase accepted = search keeps_rules
  launch_ended-Keeps stable phase uncertain = search keeps_rules
  launch_ended-Keeps stable phase (refused e) = launch_failed-Keeps stable phase e

  module _ (kept : IsKeptBy w P) where
    log_launched-Keeps : (phase : String) → Keeps P (log_effect (launched phase))
    log_launched-Keeps phase = Keeps-modify _ (kept.launching phase)

    launch_with-Keeps :
        (phase : String) (timeout : Result Value) → Keeps P (launch_with w phase timeout)
    launch_with-Keeps phase (err e) = launch_failed-Keeps kept.stable phase e
    launch_with-Keeps phase (ok timeout) =
        search (keeps_rules, log_launched-Keeps, launch_ended-Keeps kept.stable) depth 20

    launch_phase-Keeps : (phase : String) → Keeps P (launch_phase w phase)
    unfolding launch_phase
    launch_phase-Keeps phase = search (keeps_rules, launch_with-Keeps) depth 20

    pub launch_phases-Keeps : (phases : List String) → Keeps P (launch_phases w phases)
    unfolding launch_phases
    launch_phases-Keeps [] = Keeps-pure tt
    launch_phases-Keeps (phase ∷ rest) =
        Keeps-bind _ _ (launch_phase-Keeps phase) (λ _. launch_phases-Keeps rest)

module _ (w : World) (p : String) where
  abbrev AtMost : ℕ → Store → Type 0
  AtMost n m = launches p m.log ≤ n

  AtMost-IsStable : (n : ℕ) → IsStable w (AtMost n)
  AtMost-IsStable n = record {
    writing = λ phase v m h. h;
    sealing = λ v m h. h;
    publishing = λ phase. record {
      at = λ m h. subst (λ k. k ≤ n) (sym ((publish-IsKept w phase m).same_launches p)) h;
    };
  }

  more : (a n k : ℕ) → a ≤ n → a ≤ k + n
  more a n k h = omega arith

  launched-AtMost :
      (q : String) (n : ℕ) (m : Store)
      → AtMost n m
      → AtMost (one p q + n) (record m { log = launched q ∷ m.log })
  launched-AtMost q n m h = by_same (str_eq p q)
    where
      by_same :
          (b : Bool)
          → (if b then 1 + launches p m.log else launches p m.log) ≤ (if b then 1 else 0) + n
      by_same true = omega arith
      by_same false = omega arith

  launch_with-AtMost :
      (q : String) (timeout : Result Value) (n : ℕ) (m : Store)
      → AtMost n m
      → AtMost (one p q + n) (launch_with w q timeout m).1
  launch_with-AtMost q (err e) n m h =
      (launch_failed-Keeps w (AtMost (one p q + n)) (AtMost-IsStable (one p q + n)) q e).at m
        (more (launches p m.log) n (one p q) h)
  launch_with-AtMost q (ok timeout) n m h = modify-at (AtMost (one p q + n)) _ _ m (
      gets-at (AtMost (one p q + n)) _ _ _ (
        (launch_ended-Keeps w (AtMost (one p q + n)) (AtMost-IsStable (one p q + n)) q
            (w.launch (launched q ∷ m.log) q)).at
          _ (launched-AtMost q n m h)))

  launch_phase-AtMost :
      (q : String) (n : ℕ) (m : Store) → AtMost n m → AtMost (one p q + n) (launch_phase w q m).1
  unfolding launch_phase
  launch_phase-AtMost q n m h =
      gets-at (AtMost (one p q + n)) _ _ m (launch_with-AtMost q (timeout_of m.job q) n m h)

  pub launch_phases-AtMost :
      (phases : List String) (n : ℕ) (m : Store)
      → AtMost n m
      → AtMost (count p phases + n) (launch_phases w phases m).1
  unfolding launch_phases
  launch_phases-AtMost [] n m h =
      (Keeps-pure {P = AtMost (0 + n)} tt).at m (more (launches p m.log) n 0 h)
  launch_phases-AtMost (q ∷ rest) n m h =
      bind-to {P = AtMost (one p q + n)} {Q = AtMost (one p q + count p rest + n)}
        (launch_phase w q) _ m (launch_phase-AtMost q n m h)
        (λ d k. wider (launches p d.log) (one p q) (count p rest) k)
        (λ _ d k.
          subst (λ t. launches p (launch_phases w rest d).1.log ≤ t)
            (swap (count p rest) (one p q) n) (launch_phases-AtMost rest (one p q + n) d k))
    where
      wider : (a k c : ℕ) → a ≤ k + n → a ≤ k + c + n
      wider a k c h = omega arith

      swap : (c k n : ℕ) → c + (k + n) ≡ k + c + n
      swap c k n = omega arith
