-- ===== src/Pr/Validation/Contract.antt =====
-- `contract` of afk_pr/validation.py: what a result of the fixtures depends on.
use Prim.Native.String.{len as byte_length}
use afk_pipeline.Prelude.{
  ℕ, String, Bool, true, false, not, ◌&&◌, ◌||◌, Option, none, some, List, [], ◌∷◌, ◌==◌, ltb,
  length, if◌then◌else◌, any,
}
use afk_pipeline.Py.Value.{
  Value, Fields, null, str, dict, list, nil, cons, end, field, is_number, is_int, truthy, py_eq,
  lookup, entries,
}
use afk_pipeline.Py.Read.{index, or_default}
use afk_pipeline.Py.Result.{
  Result, ok, err, key_error, value_error, type_error, os_error, subprocess_error, ◌>>=◌,
}
use afk_pipeline.Py.Codes.{codes, eq_codes, spells, lower, is_nonblank}
use afk_pipeline.Py.Text.{matches_hex}
use afk_pipeline.Pr.Identity.{after, identity}

-- the dict that `contract` returns; its "schema_version" is 1
pub record Contract : Type 0 where
  pub repository : List ℕ
  pub pr_number : ℕ
  pub head : Value
  pub base : Value
  pub validation : Value
  pub policy : Value
  pub resource : Value
  pub execution : Fields
  pub external_identity : Value

abbrev pub execution_keys : List String
execution_keys = "layout" ∷ "repository" ∷ "remote" ∷ "fixture_slot" ∷ []

abbrev choose : Fields → List String → Fields
choose job [] = end
choose job (k ∷ ks) = field k (or_default null (lookup k job)) (choose job ks)

-- `execution`
unfoldable pub execution : Fields → Fields
execution job = choose job execution_keys

abbrev agrees : (Value → Bool) → Option Value → Bool
agrees test none = false
agrees test (some v) = test v

-- v == c for a JSON value v
unfoldable pub is_contract : Contract → Value → Bool
is_contract c (dict fs) =
    length (entries fs) == 10
    && agrees (λ v. is_number v 1) (lookup "schema_version" fs)
    && agrees (spells c.repository) (lookup "repository" fs)
    && agrees (λ v. is_number v c.pr_number) (lookup "pr_number" fs)
    && agrees (py_eq c.head) (lookup "head" fs)
    && agrees (py_eq c.base) (lookup "base" fs)
    && agrees (py_eq c.validation) (lookup "validation" fs)
    && agrees (py_eq c.policy) (lookup "policy" fs)
    && agrees (py_eq c.resource) (lookup "resource" fs)
    && agrees (py_eq (dict c.execution)) (lookup "execution" fs)
    && agrees (py_eq c.external_identity) (lookup "external_identity" fs)
is_contract c _ = false

-- v == contract(job), where the contract may be None
abbrev pub is_contract_of : Option Contract → Value → Bool
is_contract_of none null = true
is_contract_of none _ = false
is_contract_of (some c) v = is_contract c v

abbrev is_identity_text : Value → Bool
is_identity_text (str s) = is_nonblank (str s) && not (ltb 256 (byte_length s))
is_identity_text _ = false

-- the answer of an identity command that is accepted; 256 counts the bytes in UTF-8
unfoldable pub identity_answer : Value → Option Value
identity_answer (dict fs) =
    if length (entries fs) == 2
      && agrees (λ v. is_int v && is_number v 1) (lookup "schema_version" fs)
      && agrees is_identity_text (lookup "identity" fs)
    then lookup "identity" fs
    else none
identity_answer _ = none

-- a text up to its first "/", and the parts after it
abbrev part_of : ℕ → List ℕ × List (List ℕ) → List ℕ × List (List ℕ)
part_of c (part, parts) = if c == b'/' then ([], part ∷ parts) else (c ∷ part, parts)

split_path : List ℕ → List ℕ × List (List ℕ)
split_path [] = ([], [])
split_path (c ∷ s) = let rest = split_path s in part_of c rest

-- ".." in Path(s).parts
unfoldable pub has_parent_part : List ℕ → Bool
unfolding split_path
has_parent_part s =
    let (part, parts) = split_path s in any (λ p. eq_codes p (codes "..")) (part ∷ parts)

abbrev is_some : Option (List ℕ) → Bool
is_some none = false
is_some (some s) = true

-- a command of the repository's own, by a path that stays in it
abbrev is_local : String → Bool
is_local s = is_some (after (codes "./") (codes s)) && not (has_parent_part (codes s))

abbrev is_sha : Value → Bool
is_sha (str s) = matches_hex 40 s
is_sha _ = false

abbrev at : Fields → String → Value
at fs k = or_default null (lookup k fs)

-- `try: ...; except (OSError, ValueError, subprocess.SubprocessError): return None`
abbrev unless_probe_fails : Result (Option Value) → Result (Option Value)
unless_probe_fails (err os_error) = ok none
unless_probe_fails (err (value_error _)) = ok none
unless_probe_fails (err subprocess_error) = ok none
unless_probe_fails r = r

-- `try: ...; except (KeyError, TypeError, ValueError): return None`
abbrev unless_unreadable : Result (Option Contract) → Result (Option Contract)
unless_unreadable (err (key_error _)) = ok none
unless_unreadable (err type_error) = ok none
unless_unreadable (err (value_error _)) = ok none
unless_unreadable r = r

abbrev made : (job : Fields) (policy external : Value) → Result (Option Contract)
made job policy external = do
  url ← index (dict job) "pr_url"
  own ← identity url
  if is_sha (at job "head") && is_sha (at job "base")
      then ok (
          some (record {
            repository = lower own.0;
            pr_number = own.1;
            head = at job "head";
            base = at job "base";
            validation = policy;
            policy = at job "policy";
            resource = at job "fixture_resource";
            execution = execution job;
            external_identity = external;
          }))
      else ok none

-- job.get(k, d)
abbrev at_or : Fields → String → Value → Value
at_or fs k d = or_default d (lookup k fs)

module _ (digest : Value → String) (probe_identity : Value → Result Value) where
  abbrev digested : Option Value → Option Value
  digested none = none
  digested (some v) = some (str (digest v))

  -- the digest of an external identity, None without one, or nothing where reuse is disabled
  unfoldable pub external_of : (job policy : Fields) → String → Result (Option Value)
  external_of job policy command =
      if truthy (at policy "identity_command")
      then unless_probe_fails
          (do v ← probe_identity (at policy "identity_command"); ok (digested (identity_answer v)))
      else if not (is_local command) || truthy (at job "fixture_resource")
      then ok none
      else ok (some null)

  abbrev with_external : (job policy : Fields) → Option Value → Result (Option Contract)
  with_external job policy none = ok none
  with_external job policy (some external) = unless_unreadable (made job (dict policy) external)

  abbrev with_command : (job policy : Fields) → Value → Result (Option Contract)
  with_command job policy (list (cons (str command) rest)) =
      if truthy (at job "pr_url")
      then (do external ← external_of job policy command; with_external job policy external)
      else ok none
  with_command job policy _ = ok none

  abbrev with_policy : Fields → Value → Result (Option Contract)
  with_policy job (dict policy) = with_command job policy (at_or policy "command" (list nil))
  with_policy job _ = ok none

  unfoldable pub contract : Fields → Result (Option Contract)
  contract job = with_policy job (at_or job "validation" (dict end))
