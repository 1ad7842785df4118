-- ===== src/Pr/Jobs/Work.antt =====
-- What a phase did, as its record and the log of effects tell it. What `publish` of afk_pr/jobs.py writes into
-- a record is no part of it.
use afk_pipeline.Prelude.{
  ℕ, ◌+◌, String, true, Option, some, List, [], ◌∷◌, ◌≡◌, refl, ◌∙◌, if◌then◌else◌, any, str_eq,
  Bool-cases, inl, inr,
}
use afk_pipeline.Py.Value.{Value, Fields, field, end, str, dict}
use afk_pipeline.Py.Dict.{same_key}
use afk_pipeline.Pr.Folder.{set_field}
use afk_pipeline.Pr.Jobs.Store.{Effect, executed, launched}
use afk_pipeline.Pr.Jobs.Publish.{Sent, published, not_applicable, unsent, sent_record}
use afk_pipeline.Pr.Validation.Evidence.{execution_part, publication_keys}

execution_part-set_field :
    (k : String) (v : Value) (fs : Fields)
    → any (str_eq k) publication_keys ≡ true
    → execution_part (set_field k v fs) ≡ execution_part fs
unfolding execution_part
execution_part-set_field k v end h = rw h
execution_part-set_field k v (field j u fs) h = elim (Bool-cases (str_eq j k)) [
  | inl same ↦ rw same (rw (same_key same, h))
  | inr other ↦ rw (other, execution_part-set_field k v fs h)
]

pub sent_record-part :
    (fs : Fields) (r : Sent) → execution_part (sent_record fs r) ≡ execution_part fs
sent_record-part fs (published url) =
    execution_part-set_field "publication" _ (set_field "url" url fs) refl
    ∙ execution_part-set_field "url" url fs refl
sent_record-part fs not_applicable = execution_part-set_field "publication" _ fs refl
sent_record-part fs (unsent e) =
    execution_part-set_field "publication_error" _ (set_field "publication" (str "failed") fs) refl
    ∙ execution_part-set_field "publication" _ fs refl

-- what a phase did, as its record says
abbrev pub done : Option Value → Option Value
done (some (dict fs)) = some (dict (execution_part fs))
done v = v

-- how often a phase was run
abbrev pub runs : List Effect → ℕ
runs [] = 0
runs (executed phase ∷ es) = 1 + runs es
runs (e ∷ es) = runs es

-- how often the worker of a phase was launched
abbrev pub launches : (phase : String) → List Effect → ℕ
launches phase [] = 0
launches phase (launched p ∷ es) =
    let more = launches phase es in if str_eq phase p then 1 + more else more
launches phase (e ∷ es) = launches phase es
