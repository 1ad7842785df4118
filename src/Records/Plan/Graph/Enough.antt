-- ===== src/Records/Plan/Graph/Enough.antt =====
-- The fuel of `validate_graph` of afk_records/plan.py is enough: a visit enters a child only when it is
-- not on the way down yet.
use mathlib.Core.Logic.{◌≢◌}
use afk_pipeline.Prelude.{
  ℕ, zero, suc, ◌≤◌, ◌<◌, String, true, false, List, [], ◌∷◌, ◌≡◌, refl, sym, ap, ◌∙◌, subst,
  if◌then◌else◌, All, length, arith, str_eq, eq_iff, Bool-cases, inl, inr,
}
use afk_pipeline.Py.Result.{Result, ok, err, Exc, ◌>>=◌}
use afk_pipeline.Py.Facts.{taken, not_taken, is_ok}
use afk_pipeline.Records.Plan.Graph.{Node, holds, ids, by_id, each, enter, visit, cycle, too_deep}

abbrev pub Goes {ℓ} : {A : Type ℓ} → Result A → Type ℓ
Goes r = r ≢ err too_deep

pub ok-Goes : {A : Type 0} (a : A) → Goes (ok a)
ok-Goes a q = cc

pub bind-Goes :
    {A B : Type 0} (r : Result A) (next : A → Result B)
    → Goes r
    → ((a : A) → r ≡ ok a → Goes (next a))
    → Goes (r >>= next)
bind-Goes (ok a) next first after q = after a refl q
bind-Goes {A = A} (err e) next first after q = first (ap err (same e too_deep q))
  where
    same : {B : Type 0} (e f : Exc) → ◌≡◌ {A = Result B} (err e) (err f) → e ≡ f
    same e f q = ground arith

-- how many of the children are not on the way down
unfoldable pub free : List Node → List String → ℕ
free [] visiting = 0
free (child ∷ rest) visiting =
    let more = free rest visiting in if holds child.local_id visiting then more else suc more

free_mono :
    (children : List Node) (x : String) (visiting : List String)
    → free children (x ∷ visiting) ≤ free children visiting
unfolding free
free_mono [] x visiting = omega arith
free_mono (child ∷ rest) x visiting = let h = free_mono rest x visiting in ground arith

free-less :
    (children : List Node) (x : String) (visiting : List String)
    → holds x (ids children) ≡ true
    → holds x visiting ≡ false
    → free children (x ∷ visiting) < free children visiting
unfolding free
free-less [] x visiting h up = cc
free-less (child ∷ rest) x visiting h up = elim (Bool-cases (str_eq child.local_id x)) [
  | inl same ↦
      let less = free_mono rest x visiting in
      let own = ap (λ s. holds s visiting) ((eq_iff child.local_id x).0 same) ∙ up in ground arith
  | inr other ↦
      let less = free-less rest x visiting (later child.local_id (ids rest) other h) up in
      ground arith
]
  where
    apart : false ≡ true → ⊥
    apart e = cc

    later :
        (s : String) (xs : List String)
        → str_eq s x ≡ false
        → holds x (s ∷ xs) ≡ true
        → holds x xs ≡ true
    later s xs other h = elim (Bool-cases (str_eq x s)) [
      | inl e ↦ absurd (apart (sym other ∙ (eq_iff s x).1 (sym ((eq_iff x s).0 e))))
      | inr e ↦ ground arith
    ]

pub free-length : (children : List Node) → free children [] ≤ length children
unfolding free
free-length [] = omega arith
free-length (child ∷ rest) = omega (arith, free-length rest)

module _ (children : List Node) where
  abbrev pub Known : String → Type 0
  Known d = holds d (ids children) ≡ true

  pub each-Goes :
      (visit_one : List String → String → Result (List String))
      → ((visited : List String) (d : String) → Known d → Goes (visit_one visited d))
      → (visited rest : List String) → All Known rest
      → Goes (each visit_one visited rest)
  unfolding each
  each-Goes visit_one goes visited [] known q = ok-Goes visited q
  each-Goes visit_one goes visited (d ∷ rest) (here, known) q =
      bind-Goes (visit_one visited d) _ (goes visited d here)
        (λ seen _. each-Goes visit_one goes seen rest known) q

  pub by_id-Goes : (more : List Node) (d : String) → Goes (by_id more d)
  unfolding by_id
  by_id-Goes [] d q = cc
  by_id-Goes (child ∷ rest) d q = elim (Bool-cases (str_eq child.local_id d)) [
    | inl same ↦ ok-Goes child (taken (str_eq child.local_id d) _ _ same q)
    | inr other ↦ by_id-Goes rest d (not_taken (str_eq child.local_id d) _ _ other q)
  ]

  -- every child depends on children
  abbrev pub AllKnown : List Node → Type 0
  AllKnown = All (λ child. All Known child.depends_on)

  by_id-Known :
      (more : List Node) (d : String) (child : Node)
      → AllKnown more
      → by_id more d ≡ ok child
      → All Known child.depends_on
  unfolding by_id
  by_id-Known [] d child known q = cc
  by_id-Known (first ∷ rest) d child (here, known) q = elim (Bool-cases (str_eq first.local_id d)) [
    | inl same ↦
        subst (λ c. All Known c.depends_on)
          (is_ok first child (taken (str_eq first.local_id d) _ _ same q)) here
    | inr other ↦ by_id-Known rest d child known (not_taken (str_eq first.local_id d) _ _ other q)
  ]

  pub visit-Goes :
      (fuel : ℕ) (visiting visited : List String) (local_id : String)
      → AllKnown children
      → Known local_id
      → free children visiting < fuel
      → Goes (visit fuel children visiting visited local_id)
  unfolding visit enter
  visit-Goes zero visiting visited local_id known here enough q = omega (arith, enough)
  visit-Goes (suc fuel) visiting visited local_id known here enough q =
      elim (Bool-cases (holds local_id visiting)) [
        | inl down ↦ absurd (apart (taken (holds local_id visiting) _ _ down q))
        | inr up ↦
            let q1 = not_taken (holds local_id visiting) _ _ up q in
            elim (Bool-cases (holds local_id visited)) [
              | inl done ↦ absurd (ok-Goes _ (taken (holds local_id visited) _ _ done q1))
              | inr new ↦
                  let less = free-less children local_id visiting here up in
                  bind-Goes (by_id children local_id) _ (by_id-Goes children local_id)
                    (λ child e.
                      bind-Goes (each _ visited child.depends_on) _
                        (each-Goes (visit fuel children (local_id ∷ visiting))
                          (λ seen d at.
                            visit-Goes fuel (local_id ∷ visiting) seen d known at (omega arith))
                          visited child.depends_on (by_id-Known children local_id child known e))
                        (λ seen _ r. ok-Goes _ r))
                    (not_taken (holds local_id visited) _ _ new q1)
            ]
      ]
    where
      apart : ◌≡◌ {A = Result (List String)} (err cycle) (err too_deep) → ⊥
      apart e = cc
