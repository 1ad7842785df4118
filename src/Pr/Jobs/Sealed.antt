-- ===== src/Pr/Jobs/Sealed.antt =====
-- Publishing and the seal of the fixtures: what afk_pr/jobs.py writes into a record while it publishes is
-- outside of what afk_pr/validation.py seals.
use afk_pipeline.Prelude.{String, Bool, true, false, Option, none, some, ◌≡◌, refl, ◌∙◌}
use afk_pipeline.Py.Value.{Value, Fields, str, lookup}
use afk_pipeline.Py.Result.{Result, ok, err, ◌>>=◌}
use afk_pipeline.Pr.Folder.{Folder, set_field}
use afk_pipeline.Pr.Jobs.Publish.{Sent, published, not_applicable, unsent, sent_record}
use afk_pipeline.Pr.Jobs.Work.{sent_record-part}
use afk_pipeline.Py.Dict.{lookup-set_field}
use afk_pipeline.Pr.Validation.Evidence.{
  log_files, log_digests, sealed_with, seal, seal_holds, unless_active, sealed_execution,
}

state-sent_record : (fs : Fields) (r : Sent) → lookup "state" (sent_record fs r) ≡ lookup "state" fs
state-sent_record fs (published url) =
    lookup-set_field "publication" "state" _ (set_field "url" url fs)
    ∙ lookup-set_field "url" "state" url fs
state-sent_record fs not_applicable = lookup-set_field "publication" "state" _ fs
state-sent_record fs (unsent e) =
    lookup-set_field "publication_error" "state" _ (set_field "publication" (str "failed") fs)
    ∙ lookup-set_field "publication" "state" _ fs

module _ (digest : Value → String) (f : Folder) (job : Fields) where
  seal-sent_record :
      (result : Fields) (r : Sent)
      → seal digest f job (sent_record result r) ≡ seal digest f job result
  unfolding seal
  seal-sent_record result r = by_logs (log_digests f log_files)
    where
      by_logs :
          (x : Result (Option Fields))
          → (x >>= λ logs. ok (sealed_with digest f job (sent_record result r) logs))
            ≡ (x >>= λ logs. ok (sealed_with digest f job result logs))
      by_logs (ok (some logs)) = rw (sent_record-part result r)
      by_logs (ok none) = refl
      by_logs (err e) = refl

  seal_holds-sent_record :
      (result : Fields) (r : Sent)
      → seal_holds digest f job (sent_record result r) ≡ seal_holds digest f job result
  unfolding seal_holds
  seal_holds-sent_record result r = simp (seal-sent_record result r)

  -- Whatever comes of publishing a fixture result, the record that is then written passes or fails the test of
  -- its seal just as the result did before.
  pub sealed_execution-sent_record :
      (result : Fields) (r : Sent)
      → sealed_execution digest f job (sent_record result r) ≡ sealed_execution digest f job result
  unfolding sealed_execution
  sealed_execution-sent_record result r = simp (state-sent_record result r, by_state)
    where
      by_state :
          (active : Bool)
          → unless_active digest f job (sent_record result r) active
            ≡ unless_active digest f job result active
      by_state true = refl
      by_state false = rw (seal_holds-sent_record result r)
