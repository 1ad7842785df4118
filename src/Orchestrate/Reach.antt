-- ===== src/Orchestrate/Reach.antt =====
-- The life of a run of afk_orchestrate/: created once, then any number of steps, whatever the
-- commands answer, and of resumes.
use afk_pipeline.Prelude.{ℕ, ◌+◌, ℤ, pos, Bool, false, Option, some, ◌≡◌}
use afk_pipeline.Py.Result.{ok}
use afk_pipeline.Orchestrate.State.{World, Machine}
use afk_pipeline.Orchestrate.Step.{step}
use afk_pipeline.Orchestrate.Run.{resume}

abbrev pub added_by : Option ℤ → ℕ
added_by (some (pos n)) = n
added_by _ = 0

-- From `m`, the machine `n` is reached, and the resumes on the way have added `total` repairs.
pub data Reach (w : World) (m : Machine) : ℕ → Machine → Type 0 where
  here : Reach w m 0 m
  stepped : {total : ℕ} {n : Machine} → Reach w m total n → Reach w m total (step w n)
  resumed :
      {total sum : ℕ} {n n' : Machine} (review_current_head : Bool) (added : Option ℤ)
      → Reach w m total n
      → resume w review_current_head added false n ≡ ok n'
      → sum ≡ total + added_by added
      → Reach w m sum n'
