-- ===== src/Pr/Validation/Evidence.antt =====
-- `seal`, `sealed_execution` and `owning_evidence` of afk_pr/validation.py: whether a fixture result is
-- still the one that its worker left.
use afk_pipeline.Prelude.{
  String, Bool, true, false, not, ◌&&◌, ◌||◌, Option, none, some, List, [], ◌∷◌, if◌then◌else◌, any,
  str_eq,
}
use afk_pipeline.Py.Value.{Value, Fields, end, field, null, str, dict, is_text, truthy, lookup}
use afk_pipeline.Py.Read.{get, in_set, or_default, has}
use afk_pipeline.Py.Result.{
  Result, ok, err, Exc, key_error, value_error, type_error, attribute_error, os_error, ◌>>=◌,
}
use afk_pipeline.Pr.Folder.{Folder}
use afk_pipeline.Pr.Validation.Contract.{is_contract_of, contract}

-- {"logs"} of a seal, up to the first log that is not a plain file
abbrev with_log : String → Option Value → Option Fields → Option Fields
with_log log (some d) (some logs) = some (field log d logs)
with_log log _ _ = none

abbrev log_digest : Folder → String → Result (Option Value)
log_digest f log =
    if not (f.exists log) && not (f.symlink log)
    then ok (some null)
    else if f.symlink log || not (f.is_file log)
    then ok none
    else (do d ← f.file_digest log; ok (some (str d)))

abbrev and_log : Folder → String → Option Value → Result (Option Fields) → Result (Option Fields)
and_log f log none others = ok none
and_log f log (some d) others = do logs ← others; ok (with_log log (some d) logs)

abbrev pub log_files : List String
log_files = "fixtures.stdout.log" ∷ "fixtures.stderr.log" ∷ []

unfoldable pub log_digests : Folder → List String → Result (Option Fields)
log_digests f [] = ok (some end)
log_digests f (log ∷ rest) =
    let others = log_digests f rest in do d ← log_digest f log; and_log f log d others

-- the entries of a record that publishing may change
abbrev pub publication_keys : List String
publication_keys =
    "publication" ∷ "publication_error" ∷ "url" ∷ "worker_observation" ∷ "progress" ∷ "note" ∷ []

unfoldable pub execution_part : Fields → Fields
execution_part end = end
execution_part (field k v fs) =
    let rest = execution_part fs in if any (str_eq k) publication_keys then rest else field k v rest

-- `try: ...; except (OSError, ValueError, KeyError, TypeError, AttributeError): return False`
abbrev pub or_false : (Exc → Bool) → Result Bool → Result Bool
or_false caught (ok b) = ok b
or_false caught (err e) = if caught e then ok false else err e

abbrev pub is_read_error : Exc → Bool
is_read_error (key_error _) = true
is_read_error (value_error _) = true
is_read_error type_error = true
is_read_error attribute_error = true
is_read_error os_error = true
is_read_error _ = false

-- the same, without a KeyError
abbrev is_seal_error : Exc → Bool
is_seal_error (key_error _) = false
is_seal_error e = is_read_error e

module _ (digest : Value → String) (f : Folder) where
  abbrev pub sealed_with : (job record_ : Fields) → Option Fields → Option String
  sealed_with job record_ none = none
  sealed_with job record_ (some logs) = some (
      digest (
        dict (
          field "job" (dict job)
            (field "result" (dict (execution_part record_)) (field "logs" (dict logs) end)))))

  unfoldable pub seal : (job record_ : Fields) → Result (Option String)
  seal job record_ = do logs ← log_digests f log_files; ok (sealed_with job record_ logs)

  unfoldable pub publication_seal : Fields → String
  publication_seal record_ = digest (
      dict (
        field "publication" (or_default null (lookup "publication" record_))
          (field "url" (or_default null (lookup "url" record_)) end)))

  abbrev is_seal : Value → Option String → Result Bool
  is_seal value none = ok false
  is_seal value (some s) = do v ← get value "sha256"; ok (is_text v s)

  -- the seal of the result is the one that was kept
  unfoldable pub seal_holds : (job record_ : Fields) → Result Bool
  seal_holds job record_ = if f.is_link || f.symlink "fixtures-seal.json" then ok false else (do
    value ← f.read "fixtures-seal.json"
    current ← seal job record_
    is_seal value current)

  abbrev pub is_modern : Fields → Bool
  is_modern job =
      has job "fixture_contract"
      || has job "fixture_evidence_version"
      || f.exists "fixtures-seal.json"
      || f.symlink "fixtures-seal.json"

  abbrev pub unless_active : (job record_ : Fields) → Bool → Result Bool
  unless_active job record_ true = ok true
  unless_active job record_ false = or_false is_read_error (seal_holds job record_)

  unfoldable pub sealed_execution : (job record_ : Fields) → Result Bool
  sealed_execution job record_ = if not (is_modern job) then ok true else (do
    a ← in_set (or_default null (lookup "state" record_)) ("queued" ∷ "running" ∷ [])
    unless_active job record_ a)

  unfoldable pub publication_holds : Fields → Result Bool
  publication_holds record_ = if f.symlink "fixtures-publication-seal.json" then ok false else (do
    value ← f.read "fixtures-publication-seal.json"
    v ← get value "sha256"
    ok (is_text v (publication_seal record_)))

  abbrev published_evidence : Fields → Result Bool
  published_evidence record_ =
      if is_text (or_default null (lookup "publication" record_)) "published"
        && f.exists "fixtures-seal.json"
      then or_false is_seal_error (publication_holds record_)
      else ok true

  module _ (probe_identity : Value → Result Value) where
    -- not job.get("fixture_contract") or contract(job) == job["fixture_contract"]
    unfoldable pub contract_stands : Fields → Result Bool
    contract_stands job =
        let kept = or_default null (lookup "fixture_contract" job) in
        if truthy kept
        then (do c ← contract digest probe_identity job; ok (is_contract_of c kept))
        else ok true

    abbrev if_sealed : (job record_ : Fields) → Bool → Result Bool
    if_sealed job record_ false = ok false
    if_sealed job record_ true = do
      same ← contract_stands job
      if same then published_evidence record_ else ok false

    unfoldable pub owning_evidence : (job record_ : Fields) → Result Bool
    owning_evidence job record_ = do s ← sealed_execution job record_; if_sealed job record_ s
