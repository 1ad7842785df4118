-- ===== src/Records/Coordinator/Finds.antt =====
-- What `latest_record` of afk_records/coordinator.py finds in a history.
use afk_pipeline.Prelude.{
  String, Bool, true, false, List, ◌∷◌, ◌≡◌, ◌⊎◌, refl, ap, ◌∙◌, if◌then◌else◌, str_eq, inl, inr,
}
use text.Mathlib.TextPositions.{eq_refl}
use afk_pipeline.Py.Value.{Value, str}
use afk_pipeline.Py.Read.{index}
use afk_pipeline.Py.Result.{ok, ◌>>=◌}
use afk_pipeline.Py.Facts.{bind-ok}
use afk_pipeline.Records.Coordinator.Topology.{Component, name_of, success, found}
use afk_pipeline.Records.Coordinator.Sources.{latest_record, is_success, is_one_of}
use afk_pipeline.Records.Coordinator.Run.{Ended}
use afk_pipeline.Records.Coordinator.Valid.{component_of-name}

-- a record that can be read
abbrev pub Readable : Value → Type 0
Readable record_ =
    ((c : Component) × (index record_ "component" ≡ ok (str (name_of c))))
    × ((o : String) × Ended record_ o)
    × ((d : String) × (index record_ "directory" ≡ ok (str d)))

-- the latest success of one of the components is found, and its directory
abbrev pub Finds : List Component → List Value → Type 0
Finds cs vs =
    (r : Value) × (latest_record cs vs ≡ ok r) × ((d : String) × (index r "directory" ≡ ok (str d)))

is_success-of :
    (v : Value) (c : Component) (o : String)
    → index v "component" ≡ ok (str (name_of c))
    → Ended v o
    → is_success v ≡ ok (str_eq o (success c))
is_success-of v c o e1 e2 = bind-ok (index v "outcome") _ (str o) e2 (
    bind-ok (index v "component") _ (str (name_of c)) e1 (
      ap (λ r. r >>= λ known. found known >>= λ k. ok (str_eq o (success k)))
        (component_of-name c)))

latest_record-step :
    (cs : List Component) (v : Value) (vs : List Value) (c : Component) (o : String)
    → index v "component" ≡ ok (str (name_of c))
    → Ended v o
    → latest_record cs (v ∷ vs) ≡ (
        if is_one_of cs (str (name_of c))
        then if str_eq o (success c) then ok v else latest_record cs vs
        else latest_record cs vs)
unfolding latest_record
latest_record-step cs v vs c o e1 e2 = bind-ok (index v "component") _ (str (name_of c)) e1 (
    ap
      (λ r.
        if is_one_of cs (str (name_of c))
        then (r >>= λ done. if done then ok v else latest_record cs vs)
        else latest_record cs vs)
      (is_success-of v c o e1 e2))

either :
    {A : Type 0} (a b : Bool) (x y : A)
    → ((if a then if b then x else y else y) ≡ x) ⊎ ((if a then if b then x else y else y) ≡ y)
either true true x y = inl refl
either true false x y = inr refl
either false b x y = inr refl

-- a record in front leaves what was found
pub Finds-more :
    (cs : List Component) (v : Value) (vs : List Value)
    → Readable v
    → Finds cs vs
    → Finds cs (v ∷ vs)
Finds-more cs v vs ((c, e1), (o, e2), (d, e3)) (r, e, dir) =
    let step = latest_record-step cs v vs c o e1 e2 in
    elim (either (is_one_of cs (str (name_of c))) (str_eq o (success c)) (ok v)
      (latest_record cs vs)) [
        | inl own ↦ (v, step ∙ own, (d, e3))
        | inr older ↦ (r, step ∙ older ∙ e, dir)
      ]

-- a success of a component is found
pub Finds-new :
    (cs : List Component) (c : Component) (v : Value) (vs : List Value)
    → is_one_of cs (str (name_of c)) ≡ true
    → index v "component" ≡ ok (str (name_of c))
    → Ended v (success c)
    → (d : String) → index v "directory" ≡ ok (str d)
    → Finds cs (v ∷ vs)
Finds-new cs c v vs one e1 e2 d e3 = (
  v,
  latest_record-step cs v vs c (success c) e1 e2 ∙ both _ _ (ok v) _ one (eq_refl (success c)),
  (d, e3),
)
  where
    both :
        {A : Type 0} (a b : Bool) (x y : A)
        → a ≡ true
        → b ≡ true
        → (if a then if b then x else y else y) ≡ x
    both a b x y ea eb = rw (ea, eb) refl
