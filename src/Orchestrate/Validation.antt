-- ===== src/Orchestrate/Validation.antt =====
-- `repairable_validation` of afk_orchestrate/driver.py.
use afk_pipeline.Prelude.{
  String, Bool, false, not, ◌&&◌, Option, none, some, List, [], ◌∷◌, if◌then◌else◌, str_eq, all,
}
use afk_pipeline.Py.Value.{
  Value, list, dict, nil, items, empty, is_text, is_true, is_false, is_int, is_null, is_number,
  truthy, member, same_set,
}
use afk_pipeline.Py.Read.{get, get_or, index, iter, dict_items, has}
use afk_pipeline.Py.Result.{Result, ok, err, type_error, any_of, ◌>>=◌}

-- What a scan of evidence has come to: `none` is the code's `return False`, and otherwise the set
-- of jobs whose fixtures failed.
abbrev pub Scan : Type 0
Scan = Option (List Value)

-- a value that a set can hold
abbrev pub hashed : Value → Result Value
hashed (list vs) = err type_error
hashed (dict fs) = err type_error
hashed v = ok v

abbrev pub lists_exit_codes : Value → Value → Bool
lists_exit_codes (list vs) code = all is_int (items vs) && member code (items vs)
lists_exit_codes _ code = false

abbrev pub has_key : Value → String → Bool
has_key (dict fs) k = has fs k
has_key _ k = false

-- the checks of a fixture record that come before its state
unfoldable pub is_settled : Value → Value → Value → Bool
is_settled record_ process code =
    elim (get record_ "candidate_unchanged") [ err _ ↦ false | ok candidate ↦ is_true candidate ]
    && elim (get record_ "contract_unchanged") [ err _ ↦ false | ok same ↦ not (is_false same) ]
    && is_int code
    && elim (get process "timed_out") [ err _ ↦ false | ok late ↦ is_false late ]
    && elim (get process "interrupted") [ err _ ↦ false | ok stopped ↦ is_false stopped ]
    && has_key process "error"
    && elim (get process "error") [ err _ ↦ false | ok fault ↦ is_null fault ]

unfoldable pub scan_fixtures : Value → Value → List Value → Result Scan
unfolding is_settled
scan_fixtures item record_ failed = do
  process ← get_or record_ "process" empty
  code ← get process "exit_code"
  if not (is_settled record_ process code) then ok none else do
    job ← index item "job"
    validation ← get_or job "validation" empty
    codes ← get validation "repairable_exit_codes"
    state ← get record_ "state"
    if is_text state "failed" && is_number code 1
        then (if lists_exit_codes codes code
            then (do identifier ← index job "id"; key ← hashed identifier; ok (some (key ∷ failed)))
            else ok none)
        else if is_text state "passed" && is_number code 0
        then ok (some failed)
        else ok none

unfoldable pub scan_phase : Value → String × Value → List Value → Result Scan
unfolding scan_fixtures
scan_phase item (phase, record_) failed = do
  publication ← get record_ "publication"
  if not (is_text publication "published")
      then ok none
      else if str_eq phase "fixtures"
      then scan_fixtures item record_ failed
      else do
        state ← get record_ "state"
        ok (if is_text state "completed" then some failed else none)

-- A `for` loop over evidence, which a `return False` in its body ends.
unfoldable pub scan_all :
    {A : Type 0} → (A → List Value → Result Scan) → List A → List Value → Result Scan
scan_all body [] failed = ok (some failed)
scan_all body (x ∷ xs) failed = do
  outcome ← body x failed
  elim outcome [ none ↦ ok none | some more ↦ scan_all body xs more ]

unfoldable pub scan_job : Value → List Value → Result Scan
unfolding scan_all scan_phase
scan_job item failed = do
  phases ← index item "phases"
  records ← dict_items phases
  scan_all (scan_phase item) records failed

-- the job IDs that the fixture reasons of a decision name
unfoldable pub reason_jobs : List Value → Result (List Value)
reason_jobs [] = ok []
reason_jobs (r ∷ rs) =
    let rest = reason_jobs rs in
    do
      phase ← get r "phase"
      if is_text phase "fixtures"
          then (do job ← get r "job_id"; key ← hashed job; named ← rest; ok (key ∷ named))
          else rest

abbrev pub is_other_reason : Value → Result Bool
is_other_reason reason = do code ← get reason "code"; ok (not (is_text code "fixture_failed"))

abbrev pub matches_reasons : List Value → Scan → Result Bool
matches_reasons reasons none = ok false
matches_reasons reasons (some []) = ok false
matches_reasons reasons (some (v ∷ failed)) = do
  named ← reason_jobs reasons
  ok (same_set (v ∷ failed) named)

unfoldable pub repairable_validation : Value → Result Bool
unfolding scan_all scan_job
repairable_validation result = do
  decision ← index result "decision"
  reasons ← get_or decision "reasons" (list nil)
  recommendation ← get decision "recommendation"
  if not (is_text recommendation "pause" && truthy reasons) then ok false else do
    listed ← iter reasons
    other ← any_of is_other_reason listed
    if other then ok false else do
      jobs ← index result "jobs"
      selected ← iter jobs
      outcome ← scan_all scan_job selected []
      matches_reasons listed outcome
