-- ===== src/Records/Coordinator/Progress.antt =====
-- A checkpoint that `validate_checkpoint` of afk_records/coordinator.py accepts as running can go on.
use mathlib.Core.List.{reverse, reverse_aux}
use afk_pipeline.Prelude.{Option, some, List, [], ◌∷◌, ◌≡◌, ◌⊎◌, inl, inr, All}
use afk_pipeline.Py.Value.{Value, Fields, str, dict}
use afk_pipeline.Py.Result.{ok}
use afk_pipeline.Py.Shape.{at}
use afk_pipeline.Records.Coordinator.Topology.{Component, name_of}
use afk_pipeline.Records.Coordinator.Sources.{expected_input_sources}
use afk_pipeline.Records.Coordinator.Checkpoint.{history_of, validate_checkpoint}
use afk_pipeline.Records.Coordinator.Run.{Run}
use afk_pipeline.Records.Coordinator.Valid.{IsValid}
use afk_pipeline.Records.Coordinator.Stands.{Stands, IsCheckpoint}
use afk_pipeline.Records.Coordinator.Sound.{validate_checkpoint-IsCheckpoint}
use afk_pipeline.Records.Coordinator.Inputs.{Run-sources}

All-reverse_aux :
    (xs ys : List Value) → All IsValid xs → All IsValid ys → All IsValid (reverse_aux xs ys)
All-reverse_aux [] ys hx hy = hy
All-reverse_aux (x ∷ xs) ys (h, hx) hy = All-reverse_aux xs (x ∷ ys) hx (h, hy)

-- the next component, and what it is to read after this history
pub record IsReady (state : Fields) : Type 0 where
  pub component : Component
  pub next_component : at state "next_component" ≡ str (name_of component)
  pub history : List Value
  pub own_history : history_of (at state "history") ≡ ok history
  pub run : Run (reverse history) (some component)
  pub sources : Value
  pub left : expected_input_sources component (reverse history) ≡ ok sources

ready :
    (state : Fields) (c : IsCheckpoint state) (component : Component)
    → Run (reverse c.history) (some component)
    → at state "next_component" ≡ str (name_of component)
    → IsReady state
ready state c component run named =
    let (sources, left) = Run-sources run (All-reverse_aux c.history [] c.valid tt) in
    record {
      component = component;
      next_component = named;
      history = c.history;
      own_history = c.own_history;
      run = run;
      sources = sources;
      left = left;
    }

stands-IsReady :
    (state : Fields) (c : IsCheckpoint state) (expected : Option Component)
    → Run (reverse c.history) expected
    → Stands
        (at state "status")
        (at state "next_component")
        (at state "active_invocation")
        (at state "terminal")
        c.next_sequence
        c.history
        expected
    → at state "status" ≡ str "running"
    → IsReady state
stands-IsReady state c expected run (Stands.waiting {c = component} s a t named n) going =
    ready state c component run named
stands-IsReady state c expected run (Stands.working {c = component} s one t named n) going =
    ready state c component run named
stands-IsReady state c expected run (Stands.ended which a named t h n) going = absurd (over which)
  where
    over : (at state "status" ≡ str "completed") ⊎ (at state "status" ≡ str "failed") → ⊥
    over (inl e) = cc
    over (inr e) = cc

-- A checkpoint that is accepted as running names the component that comes next in its run, and the
-- history has all that this component is to read.
pub validate_checkpoint-IsReady :
    (state : Fields)
    → validate_checkpoint (dict state) ≡ ok tt
    → at state "status" ≡ str "running"
    → IsReady state
validate_checkpoint-IsReady state accepted going =
    let c = validate_checkpoint-IsCheckpoint state accepted in
    stands-IsReady state c c.expected c.run c.stands going
