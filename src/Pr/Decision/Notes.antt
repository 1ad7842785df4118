-- ===== src/Pr/Decision/Notes.antt =====
-- The notes that `decide` of afk_pr/decision.py collects: its lists `reasons`, `waiting` and `retries`
-- are the notes of each kind, in their order.
use afk_pipeline.Prelude.{String, Bool, true, false, Option, List, [], ◌∷◌, if◌then◌else◌}
use afk_pipeline.Py.Value.{Value}

pub data Kind : Type 0 where
  reason waiting retry : Kind

pub record Note : Type 0 where
  pub kind : Kind
  pub code : String
  pub job_id : Value
  pub phase : Option String

abbrev pub same_kind : Kind → Kind → Bool
same_kind reason reason = true
same_kind waiting waiting = true
same_kind retry retry = true
same_kind _ _ = false

abbrev pub is_kind : Kind → Note → Bool
is_kind k n = same_kind k n.kind

abbrev pub of_kind : Kind → List Note → List Note
of_kind k [] = []
of_kind k (n ∷ ns) = let rest = of_kind k ns in if is_kind k n then n ∷ rest else rest

-- `pause(code, job_id, phase)`
abbrev pub pause_note : String → Value → Option String → List Note
pause_note code job_id phase =
    record { kind = reason; code = code; job_id = job_id; phase = phase } ∷ []

abbrev pub note_if : Bool → String → Value → Option String → List Note
note_if b code job_id phase = if b then pause_note code job_id phase else []
