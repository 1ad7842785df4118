-- ===== src/Records/Plan/RoundTrip.antt =====
-- A plan that `build_plan` of afk_records/plan.py returns is one that `validate_plan` accepts.
use afk_pipeline.Prelude.{String, true, List, [], ◌≡◌, refl, sym, ap, ◌∙◌, subst, map, All, &&-true}
use afk_pipeline.Py.Value.{Value, Fields, field, str, dict, py_eq, items, of_items}
use afk_pipeline.Py.Read.{index}
use afk_pipeline.Py.Result.{ok, >>=-returns}
use afk_pipeline.Py.Shape.{at, require}
use afk_pipeline.Py.Facts.{is_ok, require-then, bind-ok, require-passes}
use afk_pipeline.Records.Plan.Shapes.{dict_value, object_with_keys, some_items}
use afk_pipeline.Records.Plan.Graph.{validate_graph}
use afk_pipeline.Records.Plan.Proposal.{
  validate_criteria, validate_ambiguities, validate_children, criterion_ids, check_children,
  same_texts,
}
use afk_pipeline.Records.Plan.Build.{
  Proposal, validate_proposal, justify, each_ready, each_unready, list_of, proposal_of, plan_keys,
  plan_body, sealed_plan, build_plan, validate_plan,
}
use afk_pipeline.Records.Plan.Lists.{
  items-of_items, validate_criteria-list, validate_children-list, string_list-list,
}
use afk_pipeline.Records.Plan.Readiness.{IsBare, children-IsBare, each_ready-unready}

validate_children-IsBare :
    (request v : Value) (criteria cs : List Value)
    → validate_children request v criteria ≡ ok cs
    → All IsBare cs
unfolding validate_children
validate_children-IsBare request v criteria cs q0 =
    let (values, e1, q1) =
      >>=-returns (some_items 64 v "proposal children must contain 1 through 64 items") _ q0 in
    let (known, e2, q2) = >>=-returns (criterion_ids criteria) _ q1 in
    let (checked, e3, q3) = >>=-returns (check_children request known [] values) _ q2 in
    let (same, q4) = require-then _ (same_texts checked.1 known) _ q3 in
    let (u, e5, q5) = >>=-returns (validate_graph checked.0) _ q4 in
    subst (All IsBare) (is_ok values cs q5) (children-IsBare request known [] values checked e3)

-- the parts of a proposal are each accepted
record Parts (request : Value) (p : Proposal) : Type 0 where
  own_criteria : validate_criteria request (list_of p.criteria) ≡ ok p.criteria
  own_children : validate_children request (list_of p.children) p.criteria ≡ ok p.children
  justified : justify request p.children ≡ ok tt
  own_ambiguities : validate_ambiguities (list_of (map str p.ambiguities)) ≡ ok p.ambiguities

validate_proposal-Parts :
    (request value : Value) (p : Proposal)
    → validate_proposal request value ≡ ok p
    → Parts request p
unfolding validate_proposal validate_ambiguities
validate_proposal-Parts request value p q0 =
    let (fs, e1, q1) = >>=-returns (object_with_keys value _ "proposal") _ q0 in
    let (version, e2, q2) = >>=-returns (index request "schema_version") _ q1 in
    let (fits, q3) = require-then _ (py_eq (at fs "schema_version") version) _ q2 in
    let (criteria, e4, q4) = >>=-returns (validate_criteria request (at fs "criteria")) _ q3 in
    let (children, e5, q5) =
      >>=-returns (validate_children request (at fs "children") criteria) _ q4 in
    let (u, e6, q6) = >>=-returns (justify request children) _ q5 in
    let (ambiguities, e7, q7) = >>=-returns (validate_ambiguities (at fs "ambiguities")) _ q6 in
    subst (Parts request)
      (is_ok (record { criteria = criteria; children = children; ambiguities = ambiguities }) p q7)
      (record {
        own_criteria =
            subst (λ v. validate_criteria request v ≡ ok criteria)
              (validate_criteria-list request (at fs "criteria") criteria e4) e4;
        own_children =
            subst (λ v. validate_children request v criteria ≡ ok children)
              (validate_children-list request (at fs "children") criteria children e5) e5;
        justified = e6;
        own_ambiguities =
            subst (λ v. validate_ambiguities v ≡ ok ambiguities)
              (string_list-list (at fs "ambiguities") "proposal ambiguities" 32 2048 ambiguities e7)
              e7;
      })

-- so they are accepted together again
proposal_again :
    (request version : Value) (p : Proposal)
    → Parts request p
    → index request "schema_version" ≡ ok version
    → py_eq version version ≡ true
    → validate_proposal request (
        proposal_of version
          (list_of p.criteria)
          (list_of p.children)
          (list_of (map str p.ambiguities)))
      ≡ ok p
unfolding validate_proposal proposal_of object_with_keys dict_value
proposal_again request version p parts own same =
    bind-ok (index request "schema_version") _ version own (
      bind-ok (require _ (py_eq version version)) _ tt (require-passes _ _ same) (
        bind-ok (validate_criteria request (list_of p.criteria)) _ p.criteria parts.own_criteria (
          bind-ok (validate_children request (list_of p.children) p.criteria) _ p.children
            parts.own_children
            (bind-ok (justify request p.children) _ tt parts.justified (
              bind-ok (validate_ambiguities (list_of (map str p.ambiguities))) _ p.ambiguities
                parts.own_ambiguities refl)))))

first_equal :
    (v : Value) (fs : Fields)
    → py_eq (dict (field "schema_version" v fs)) (dict (field "schema_version" v fs)) ≡ true
    → py_eq v v ≡ true
unfolding py_eq
first_equal v fs h =
    let (size, all_in) = &&-true _ _ h in let (own, rest) = &&-true (py_eq v v) _ all_in in own

module _ (digest : Value → String) (request : Value) (p : Proposal) (ready : List Value)
    (version parent parent_id catalog : Value) where
  whole_plan : Value
  whole_plan = sealed_plan digest (plan_body digest version parent parent_id catalog p ready)

  remade :
      Parts request p
      → each_ready p.children ≡ ok ready
      → index request "schema_version" ≡ ok version
      → index request "parent" ≡ ok parent
      → index parent "id" ≡ ok parent_id
      → index request "catalog" ≡ ok catalog
      → py_eq version version ≡ true
      → build_plan digest request (
          proposal_of version
            (list_of p.criteria)
            (list_of p.children)
            (list_of (map str p.ambiguities)))
        ≡ ok whole_plan
  unfolding build_plan whole_plan
  remade parts e2 e3 e4 e5 e6 same =
      bind-ok (validate_proposal request _) _ p (proposal_again request version p parts e3 same) (
        bind-ok (each_ready p.children) _ ready e2 (
          bind-ok (index request "schema_version") _ version e3 (
            bind-ok (index request "parent") _ parent e4 (
              bind-ok (index parent "id") _ parent_id e5
                (bind-ok (index request "catalog") _ catalog e6 refl)))))

  accepted :
      Parts request p
      → All IsBare p.children
      → each_ready p.children ≡ ok ready
      → index request "schema_version" ≡ ok version
      → index request "parent" ≡ ok parent
      → index parent "id" ≡ ok parent_id
      → index request "catalog" ≡ ok catalog
      → py_eq whole_plan whole_plan ≡ true
      → validate_plan digest request whole_plan ≡ ok tt
  unfolding validate_plan plan_body plan_keys object_with_keys dict_value whole_plan
  accepted parts bare e2 e3 e4 e5 e6 same =
      bind-ok (each_unready (items (of_items ready))) _ p.children
        (ap each_unready (items-of_items ready) ∙ each_ready-unready p.children ready bare e2)
        (bind-ok (build_plan digest request _) _ whole_plan
          (remade parts e2 e3 e4 e5 e6 (first_equal version _ same)) (require-passes _ _ same))

-- A plan that `build_plan` returns, if it equals itself as a JSON value, is one that `validate_plan`
-- accepts for the same request.
pub validate_plan-build_plan :
    (digest : Value → String) (request proposal plan : Value)
    → build_plan digest request proposal ≡ ok plan
    → py_eq plan plan ≡ true
    → validate_plan digest request plan ≡ ok tt
unfolding build_plan whole_plan
validate_plan-build_plan digest request value plan q0 same =
    let (p, e1, q1) = >>=-returns (validate_proposal request value) _ q0 in
    let (ready, e2, q2) = >>=-returns (each_ready p.children) _ q1 in
    let (version, e3, q3) = >>=-returns (index request "schema_version") _ q2 in
    let (parent, e4, q4) = >>=-returns (index request "parent") _ q3 in
    let (parent_id, e5, q5) = >>=-returns (index parent "id") _ q4 in
    let (catalog, e6, q6) = >>=-returns (index request "catalog") _ q5 in
    let parts = validate_proposal-Parts request value p e1 in
    let bare =
      validate_children-IsBare request (list_of p.children) p.criteria p.children
        parts.own_children in
    let whole =
      is_ok (whole_plan digest request p ready version parent parent_id catalog) plan q6 in
    subst (λ v. validate_plan digest request v ≡ ok tt) whole
      (accepted digest request p ready version parent parent_id catalog parts bare e2 e3 e4 e5 e6
        (subst (λ v. py_eq v v ≡ true) (sym whole) same))
