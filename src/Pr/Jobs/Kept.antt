-- ===== src/Pr/Jobs/Kept.antt =====
-- Publishing keeps what a phase did: only the entries of the publication change, and the URL of the pull
-- request of a creation, and nothing runs again.
use afk_pipeline.Prelude.{
  String, Bool, true, false, Option, none, some, ◌≡◌, ◌⊎◌, refl, sym, ap, ◌∙◌, if◌then◌else◌,
  str_eq, inl, inr,
}
use afk_pipeline.Py.Value.{Value, Fields, null, dict, lookup}
use afk_pipeline.Py.Result.{ok}
use afk_pipeline.Py.Dict.{lookup-set_field, same_key}
use afk_pipeline.Py.Action.{◌>>=◌}
use afk_pipeline.Py.Action.Keeps.{
  Keeps, Keeps-modify, Keeps-if, Keeps-pure, Keeps-bind, Keeps-proceed, if-at, keeps_rules,
}
use afk_pipeline.Pr.Folder.{set_field}
use afk_pipeline.Pr.Jobs.Store.{child_started, Store, World, log_effect, write_phase, file}
use afk_pipeline.Pr.Jobs.Quiet.{
  IsQuiet, write_publication_seal-Keeps, send_other-Keeps, send_fixtures-Keeps, send_review-Keeps,
  check_seal-Keeps, find_pr-Keeps, found_or_created-Keeps,
}
use afk_pipeline.Pr.Jobs.Creation.{
  write_progress, write_job, new_fixtures, queue_fixtures, hand_over, publish_pushed,
  publish_creation,
}
use afk_pipeline.Pr.Jobs.Publish.{
  published, sent_record, of_creation, is_published, send, sending, publish_record, publish_dict,
  publish,
}
use afk_pipeline.Pr.Validation.Evidence.{execution_part}
use afk_pipeline.Pr.Jobs.Work.{sent_record-part, runs, launches, done}

-- The store after a publication has the seal, the runs, the launches and what the phases did as before. Only of
-- a creation the job changes, and there only in the URL of its pull request.
pub record IsKept (phase : String) (before after : Store) : Type 0 where
  pub same_job :
      (after.job ≡ before.job)
      ⊎ ((str_eq phase "creation" ≡ true)
          × (url : Value) × (after.job ≡ set_field "pr_url" url before.job))
  pub same_seal : after.seal ≡ before.seal
  pub same_runs : runs after.log ≡ runs before.log
  pub same_launches : (p : String) → launches p after.log ≡ launches p before.log
  pub same_work :
      (phase : String) → done (lookup phase after.phases) ≡ done (lookup phase before.phases)

done-write :
    (b : Bool) (fs gs : Fields) (x before : Option Value)
    → execution_part gs ≡ execution_part fs
    → (b ≡ true → before ≡ some (dict (execution_part fs)))
    → done x ≡ before
    → done (if b then some (dict gs) else x) ≡ before
done-write true fs gs x before e h k = rw e (sym (h refl))
done-write false fs gs x before e h k = k

module _ (w : World) (own : String) (s : Store) where
  abbrev Kept : Store → Type 0
  Kept = IsKept own s

  Kept-IsQuiet : IsQuiet Kept
  Kept-IsQuiet = record {
    status = λ state m h. record {
      same_job = h.same_job;
      same_seal = h.same_seal;
      same_runs = h.same_runs;
      same_launches = h.same_launches;
      same_work = h.same_work;
    };
    sending = λ phase m h. record {
      same_job = h.same_job;
      same_seal = h.same_seal;
      same_runs = h.same_runs;
      same_launches = h.same_launches;
      same_work = h.same_work;
    };
    sealing = λ v m h. record {
      same_job = h.same_job;
      same_seal = h.same_seal;
      same_runs = h.same_runs;
      same_launches = h.same_launches;
      same_work = h.same_work;
    };
  }

  write_phase-Kept :
      (phase : String) (fs gs : Fields)
      → done (lookup phase s.phases) ≡ some (dict (execution_part fs))
      → execution_part gs ≡ execution_part fs
      → Keeps Kept (write_phase phase (dict gs))
  write_phase-Kept phase fs gs before e = Keeps-modify _ (λ m h. record {
    same_job = h.same_job;
    same_seal = h.same_seal;
    same_runs = h.same_runs;
    same_launches = h.same_launches;
    same_work = λ q. rw (lookup-set_field phase q (dict gs) m.phases) (
        done-write (str_eq phase q) fs gs (lookup q m.phases) (done (lookup q s.phases)) e
          (λ here. ap (λ k. done (lookup k s.phases)) (sym (same_key here)) ∙ before)
          (h.same_work q));
  })

  child_started-Kept : (child : Fields) → Keeps Kept (log_effect (child_started child))
  child_started-Kept child = Keeps-modify _ (λ m h. record {
    same_job = h.same_job;
    same_seal = h.same_seal;
    same_runs = h.same_runs;
    same_launches = h.same_launches;
    same_work = h.same_work;
  })

  write_progress-Kept : (progress : Fields) → Keeps Kept (write_progress w progress)
  write_progress-Kept progress = Keeps-modify _ (λ m h. record {
    same_job = h.same_job;
    same_seal = h.same_seal;
    same_runs = h.same_runs;
    same_launches = h.same_launches;
    same_work = h.same_work;
  })

  write_job-Kept :
      str_eq own "creation" ≡ true
      → (url : Value) → Keeps Kept (write_job w (set_field "pr_url" url s.job))
  write_job-Kept creation url = Keeps-modify _ (λ m h. record {
    same_job = inr (creation, url, refl);
    same_seal = h.same_seal;
    same_runs = h.same_runs;
    same_launches = h.same_launches;
    same_work = h.same_work;
  })

  ruleset creation_rules = (keeps_rules, child_started-Kept, write_progress-Kept)

  new_fixtures-Kept :
      (job : Fields) (candidate contract : Value)
      → Keeps Kept (new_fixtures w job candidate contract)
  unfolding new_fixtures
  new_fixtures-Kept job candidate contract = search creation_rules depth 60

  queue_fixtures-Kept :
      (job : Fields) (candidate : Value) → Keeps Kept (queue_fixtures w job candidate)
  unfolding queue_fixtures
  queue_fixtures-Kept job candidate = search (creation_rules, new_fixtures-Kept) depth 60

  hand_over-Kept :
      str_eq own "creation" ≡ true
      → (progress : Fields) (pr : Value) → Keeps Kept (hand_over w s.job progress pr)
  unfolding hand_over
  hand_over-Kept creation progress pr =
      search (creation_rules, write_job-Kept creation, queue_fixtures-Kept) depth 60

  publish_pushed-Kept :
      str_eq own "creation" ≡ true
      → (progress : Fields) → Keeps Kept (publish_pushed w s.job progress)
  unfolding publish_pushed
  publish_pushed-Kept creation progress =
      Keeps-bind _ _ (find_pr-Keeps w Kept Kept-IsQuiet s.job) (λ found.
        Keeps-bind _ _ (found_or_created-Keeps w Kept Kept-IsQuiet s.job progress found)
          (λ pr. hand_over-Kept creation progress pr))

  publish_creation-Kept : str_eq own "creation" ≡ true → Keeps Kept (publish_creation w s.job)
  unfolding publish_creation
  publish_creation-Kept creation = search (keeps_rules, publish_pushed-Kept creation) depth 40

  send-Kept : (result : Fields) → Keeps Kept (send w own s.job result)
  unfolding send
  send-Kept result = record {
    at = λ m h.
        if-at Kept (str_eq own "creation") _ _ m
          (λ creation.
            (Keeps-bind _ _ (publish_creation-Kept creation)
                (λ url. Keeps-pure (of_creation url))).at
              m h)
          (λ other.
            (Keeps-if _ _ _
                (Keeps-bind _ _ (send_other-Keeps w Kept Kept-IsQuiet own w.publish_response)
                  (λ url. Keeps-pure (published url)))
                (Keeps-if _ _ _ (send_fixtures-Keeps w Kept Kept-IsQuiet s.job result)
                  (send_review-Keeps w Kept Kept-IsQuiet s.job result))).at
              m h);
  }

  sending-Kept : (result : Fields) → Keeps Kept (sending w own s.job result)
  unfolding sending
  sending-Kept result = search (keeps_rules, send-Kept) depth 20

  publish_record-Kept :
      (result : Fields)
      → done (lookup own s.phases) ≡ some (dict (execution_part result))
      → Keeps Kept (publish_record w own s.job result)
  unfolding publish_record
  publish_record-Kept result before = Keeps-bind _ _ (sending-Kept result) (λ r.
      Keeps-bind _ _
        (Keeps-if (is_published r) _ _
          (write_publication_seal-Keeps w Kept Kept-IsQuiet own (sent_record result r))
          (Keeps-pure tt))
        (λ _.
          write_phase-Kept own result (sent_record result r) before (sent_record-part result r)))

  publish_dict-Kept :
      (v : Value)
      → done (lookup own s.phases) ≡ done (some v)
      → Keeps Kept (publish_dict w own s.job v)
  unfolding publish_dict
  publish_dict-Kept (dict result) before = Keeps-bind _ _ (search keeps_rules) (λ state.
      Keeps-bind _ _ (search keeps_rules) (λ active. Keeps-if active _ _ (search keeps_rules) (
        Keeps-bind _ _ (check_seal-Keeps w Kept Kept-IsQuiet own s.job result) (λ sealed.
          Keeps-if sealed _ _ (publish_record-Kept result before) (search keeps_rules)))))
  publish_dict-Kept null before = search keeps_rules
  publish_dict-Kept _ before = search keeps_rules

file-some : (x : Option Value) (v : Value) → file x ≡ ok v → x ≡ some v
file-some none v e = cc
file-some (some u) v e = cc

pub publish-IsKept : (w : World) (phase : String) (s : Store) → IsKept phase s (publish w phase s).1
unfolding publish ◌>>=◌
publish-IsKept w phase s =
    Keeps-proceed (file (lookup phase s.phases)) (publish_dict w phase s.job) s
      (λ v e. publish_dict-Kept w phase s v (ap done (file-some (lookup phase s.phases) v e)))
      (record {
        same_job = inl refl;
        same_seal = refl;
        same_runs = refl;
        same_launches = λ p. refl;
        same_work = λ q. refl;
      })
