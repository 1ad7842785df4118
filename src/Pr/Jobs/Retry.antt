-- ===== src/Pr/Jobs/Retry.antt =====
-- What `retry_publication` of afk_pr/jobs.py does beside publishing.
use afk_pipeline.Prelude.{◌+◌, ◌≤◌, String, ◌≡◌}
use afk_pipeline.Py.Value.{Value}
use afk_pipeline.Py.Result.{Result}
use afk_pipeline.Py.Action.Keeps.{Keeps}
use afk_pipeline.Pr.Jobs.Store.{Store}
use afk_pipeline.Pr.Jobs.Work.{runs, launches}
use afk_pipeline.Pr.Jobs.Child.{children, room}

-- What retrying publications leaves: the phases and workers of the job as they were, and at most one more child.
pub record IsQuietlyRetried (before after : Store) : Type 0 where
  pub same_runs : runs after.log ≡ runs before.log
  pub same_launches : (phase : String) → launches phase after.log ≡ launches phase before.log
  pub within :
      children after.log + room after.creation_progress
      ≤ children before.log + room before.creation_progress
