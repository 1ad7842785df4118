-- ===== src/Records/Coordinator/Inputs.antt =====
-- In a run that goes on, what the expected component reads is there: `expected_input_sources` of
-- afk_records/coordinator.py finds it.
use afk_pipeline.Prelude.{
  String, Option, none, some, List, [], ◌∷◌, ◌≡◌, ◌⊎◌, refl, ◌∙◌, All, inl, inr,
}
use afk_pipeline.Py.Value.{Value, str}
use afk_pipeline.Py.Read.{index}
use afk_pipeline.Py.Result.{ok}
use afk_pipeline.Py.Facts.{bind-ok}
use afk_pipeline.Records.Coordinator.Topology.{
  Component, attempt, validation, change, review, assessment, iteration, response, name_of, success,
  next, found,
}
use afk_pipeline.Records.Coordinator.Sources.{
  latest_record, validation_repair_source, expected_input_sources, directory_of,
}
use afk_pipeline.Records.Coordinator.Run.{Ended, Run}
use afk_pipeline.Records.Coordinator.Valid.{IsValid, valid-directory}
use afk_pipeline.Records.Coordinator.Finds.{Readable, Finds, Finds-more, Finds-new}

-- the failed Validation that a response repairs is found, and its directory
Repairs : List Value → Type 0
Repairs vs =
    (r : Value) × (validation_repair_source vs ≡ ok (some r))
    × ((d : String) × (index r "directory" ≡ ok (str d)))

-- what a component reads is found
abbrev Supplied : Component → List Value → Type 0
Supplied attempt vs = Unit {0}
Supplied validation vs = Finds (attempt ∷ response ∷ []) vs
Supplied change vs = Finds (attempt ∷ response ∷ []) vs × Finds (validation ∷ []) vs
Supplied review vs = Finds (change ∷ []) vs × Finds (validation ∷ []) vs
Supplied assessment vs = Finds (review ∷ []) vs
Supplied iteration vs = Finds (assessment ∷ []) vs
Supplied response vs =
    Repairs vs ⊎ (Finds (assessment ∷ []) vs × (validation_repair_source vs ≡ ok none))

again-Supplied :
    (c : Component) (v : Value) (vs : List Value)
    → Readable v
    → index v "component" ≡ ok (str (name_of c))
    → Ended v "abandoned"
    → Supplied c vs
    → Supplied c (v ∷ vs)
unfolding validation_repair_source Repairs
again-Supplied attempt v vs readable e1 e2 s = tt
again-Supplied validation v vs readable e1 e2 s = Finds-more _ v vs readable s
again-Supplied change v vs readable e1 e2 (s, t) =
    (Finds-more _ v vs readable s, Finds-more _ v vs readable t)
again-Supplied review v vs readable e1 e2 (s, t) =
    (Finds-more _ v vs readable s, Finds-more _ v vs readable t)
again-Supplied assessment v vs readable e1 e2 s = Finds-more _ v vs readable s
again-Supplied iteration v vs readable e1 e2 s = Finds-more _ v vs readable s
again-Supplied response v vs readable e1 e2 (inl (r, e, dir)) = inl (r, passed ∙ e, dir)
  where
    passed : validation_repair_source (v ∷ vs) ≡ validation_repair_source vs
    passed =
        bind-ok (index v "component") _ (str "response") e1
          (bind-ok (index v "outcome") _ (str "abandoned") e2 refl)
again-Supplied response v vs readable e1 e2 (inr (found, e)) =
    inr (Finds-more _ v vs readable found, passed ∙ e)
  where
    passed : validation_repair_source (v ∷ vs) ≡ validation_repair_source vs
    passed =
        bind-ok (index v "component") _ (str "response") e1
          (bind-ok (index v "outcome") _ (str "abandoned") e2 refl)

succeeded-Supplied :
    (c : Component) (v : Value) (vs : List Value) (d : String)
    → Readable v
    → index v "component" ≡ ok (str (name_of c))
    → Ended v (success c)
    → index v "directory" ≡ ok (str d)
    → Supplied c vs
    → Supplied (next c) (v ∷ vs)
unfolding validation_repair_source
succeeded-Supplied attempt v vs d readable e1 e2 e3 s = Finds-new _ attempt v vs refl e1 e2 d e3
succeeded-Supplied validation v vs d readable e1 e2 e3 s =
    (Finds-more _ v vs readable s, Finds-new _ validation v vs refl e1 e2 d e3)
succeeded-Supplied change v vs d readable e1 e2 e3 (s, t) =
    (Finds-new _ change v vs refl e1 e2 d e3, Finds-more _ v vs readable t)
succeeded-Supplied review v vs d readable e1 e2 e3 s = Finds-new _ review v vs refl e1 e2 d e3
succeeded-Supplied assessment v vs d readable e1 e2 e3 s =
    Finds-new _ assessment v vs refl e1 e2 d e3
succeeded-Supplied iteration v vs d readable e1 e2 e3 s =
    inr (Finds-more _ v vs readable s, none_left)
  where
    none_left : validation_repair_source (v ∷ vs) ≡ ok none
    none_left =
        bind-ok (index v "component") _ (str "iteration") e1
          (bind-ok (index v "outcome") _ (str "completed") e2 refl)
succeeded-Supplied response v vs d readable e1 e2 e3 s = Finds-new _ response v vs refl e1 e2 d e3

repaired-Supplied :
    (v : Value) (vs : List Value) (d : String)
    → index v "component" ≡ ok (str "validation")
    → Ended v "failed"
    → index v "directory" ≡ ok (str d)
    → Supplied response (v ∷ vs)
unfolding validation_repair_source Repairs
repaired-Supplied v vs d e1 e2 e3 = inl (
  v,
  bind-ok (index v "component") _ (str "validation") e1
      (bind-ok (index v "outcome") _ (str "failed") e2 refl),
  (d, e3),
)

valid-Readable :
    (c : Component) (v : Value) (o : String)
    → IsValid v
    → index v "component" ≡ ok (str (name_of c))
    → Ended v o
    → Readable v
valid-Readable c v o valid e1 e2 = ((c, e1), (o, e2), valid-directory v c valid e1)

abbrev Expects : Option Component → List Value → Type 0
Expects none vs = Unit {0}
Expects (some c) vs = Supplied c vs

Run-Expects : {vs : List Value} {e : Option Component} → Run vs e → All IsValid vs → Expects e vs
Run-Expects Run.begin valid = tt
Run-Expects (Run.again {c = c} {earlier} {record_} run one ended) (own, valid) =
    again-Supplied c record_ earlier
      (valid-Readable c record_ "abandoned" own one.own_component ended) one.own_component ended
      (Run-Expects run valid)
Run-Expects (Run.succeeded {c = c} {earlier} {record_} run one ended) (own, valid) =
    let (d, at_d) = valid-directory record_ c own one.own_component in
    succeeded-Supplied c record_ earlier d
      (valid-Readable c record_ (success c) own one.own_component ended) one.own_component ended
      at_d (Run-Expects run valid)
Run-Expects (Run.repaired {earlier} {record_} run one ended) (own, valid) =
    let (d, at_d) = valid-directory record_ validation own one.own_component in
    repaired-Supplied record_ earlier d one.own_component ended at_d
Run-Expects (Run.stopped run one ended stop) valid = tt

-- the directory of the latest success
directory_of-Finds :
    (cs : List Component) (vs : List Value)
    → Finds cs vs
    → (d : Value) × (directory_of cs vs ≡ ok d)
directory_of-Finds cs vs (r, e, (d, at_d)) = (str d, bind-ok (latest_record cs vs) _ r e at_d)

Supplied-sources :
    (c : Component) (vs : List Value)
    → Supplied c vs
    → (sources : Value) × (expected_input_sources c vs ≡ ok sources)
unfolding expected_input_sources Repairs
Supplied-sources attempt vs s = (_, refl)
Supplied-sources validation vs s =
    let (d, e) = directory_of-Finds _ vs s in (_, bind-ok (directory_of _ vs) _ d e refl)
Supplied-sources change vs (s, t) =
    let (d, e) = directory_of-Finds _ vs s in (_, bind-ok (directory_of _ vs) _ d e refl)
Supplied-sources review vs (s, t) =
    let (d, e) = directory_of-Finds _ vs s in
    let (f, e') = directory_of-Finds _ vs t in
    (
      _,
      bind-ok (directory_of (change ∷ []) vs) _ d e
          (bind-ok (directory_of (validation ∷ []) vs) _ f e' refl),
    )
Supplied-sources assessment vs s =
    let (d, e) = directory_of-Finds _ vs s in (_, bind-ok (directory_of _ vs) _ d e refl)
Supplied-sources iteration vs s =
    let (d, e) = directory_of-Finds _ vs s in (_, bind-ok (directory_of _ vs) _ d e refl)
Supplied-sources response vs (inl (r, e, (d, at_d))) = (
  _,
  bind-ok (validation_repair_source vs) _ (some r) e
      (bind-ok (index r "directory") _ (str d) at_d refl),
)
Supplied-sources response vs (inr (s, e)) =
    let (d, e') = directory_of-Finds (assessment ∷ []) vs s in
    (
      _,
      bind-ok (validation_repair_source vs) _ none e
          (bind-ok (directory_of (assessment ∷ []) vs) _ d e' refl),
    )

-- In a run of valid records that expects a component, what the component is to read is found.
pub Run-sources :
    {vs : List Value} {c : Component}
    → Run vs (some c)
    → All IsValid vs
    → (sources : Value) × (expected_input_sources c vs ≡ ok sources)
Run-sources {vs} {c} run valid = Supplied-sources c vs (Run-Expects run valid)
