-- ===== src/Pr/Tests/Finish.antt =====
-- An attempt of afk_pr/finish.py that merges and closes, and one whose merge request fails after merging.
use afk_pipeline.Prelude.{Bool, true, false, not, some, List, [], ◌∷◌, ◌≡◌, refl}
use afk_pipeline.Py.Result.{Result, ok, err, subprocess_error}
use afk_pipeline.Py.Action.{◌>>=◌, try_except}
use afk_pipeline.Pr.Finish.State.{
  squash, Intent, failed_or_unknown, Effect, merge_asked, close_asked, World, observe,
}
use afk_pipeline.Pr.Finish.{
  merge_call, merge_failed, ask_merge, resolve_merge, merge_open, request_seen, request_merge,
  read_bead, close_call, close_failed, ask_close, resolve_close, close_open, close_read, close_seen,
  close_selected, close_after_merge, check_bead, attempt, attempt_failed, apply, finish,
}
use afk_pipeline.Pr.Finish.Safety.{IsSafe, finish-IsSafe}

abbrev squash_intent : Intent
squash_intent = record {
  pr_url = "https://github.com/owner/repo/pull/12";
  repository = "owner/repo";
  head = "h";
  base = "main";
  method = squash;
  close_bead = some "bead-1";
}

abbrev was_merged : List Effect → Bool
was_merged [] = false
was_merged (merge_asked i ∷ es) = true
was_merged (e ∷ es) = was_merged es

abbrev was_closed : List Effect → Bool
was_closed [] = false
was_closed (close_asked b ∷ es) = true
was_closed (e ∷ es) = was_closed es

abbrev world : Result (Unit {0}) → World
world answer = record {
  observe = λ es. ok (record {
    head = "h";
    base = "main";
    repository = "owner/repo";
    merged = was_merged es;
    is_open = not (was_merged es);
  });
  merge = λ es. answer;
  bead_closed = λ es bead. ok (was_closed es);
  close = λ es bead. answer;
}

program : Unit {0}
unfolding ◌>>=◌ try_except observe merge_call merge_failed ask_merge resolve_merge merge_open
    request_seen request_merge read_bead close_call close_failed ask_close resolve_close close_open
    close_read close_seen close_selected close_after_merge check_bead attempt attempt_failed apply
program = tt

completes : (finish (world (ok tt)) squash_intent).report.completed ≡ true
unfolding program
completes = refl

-- the failed request had its effect, and what is seen afterwards decides
completes_after_failure :
    ((finish (world (err subprocess_error)) squash_intent).report.completed ≡ true)
    × ((finish (world (err subprocess_error)) squash_intent).report.request
        ≡ some failed_or_unknown)
unfolding program
completes_after_failure = (refl, refl)

finish-IsSafe_example : IsSafe squash_intent (finish (world (ok tt)) squash_intent).log
finish-IsSafe_example = finish-IsSafe (world (ok tt)) squash_intent
