-- ===== src/Pr/Folder.antt =====
-- What the code reads of a job's directory: its files, and the systemd units of its workers.
use afk_pipeline.Prelude.{String, Bool}
use afk_pipeline.Py.Value.{Value, dict}
use afk_pipeline.Py.Result.{Result, ok, err, type_error}
pub use afk_pipeline.Py.Shape.{set_field}

-- `systemctl --user show`: whether its exit code is 0, and its output, stripped
pub record WorkerUnit : Type 0 where
  pub answered : Bool
  pub active_state : String

pub record Folder : Type 0 where
  pub name : String
  pub is_link : Bool
  -- path.exists(), path.is_symlink() and path.is_file() of a file in it
  pub exists : String → Bool
  pub symlink : String → Bool
  pub is_file : String → Bool
  -- jobs.read of a file in it, and the same after a worker was asked for
  pub read : String → Result Value
  pub reread : String → Result Value
  -- the action receipt of the job, which is outside the directory
  pub receipt : Result Value
  pub worker : String → Result WorkerUnit
  -- the SHA-256 of a file in it
  pub file_digest : String → Result String

-- {**v, k: u}
abbrev pub put : Value → String → Value → Result Value
put (dict fs) k u = ok (dict (set_field k u fs))
put v k u = err type_error
