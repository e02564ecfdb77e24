-- ===== src/Moriarty/Replay.antt =====
-- `generated_counterexample`, `counterexample_failure_matches`, `report_probe_result` and
-- `verify_accepted_counterexamples`.
use qsol_fed.Base.{
  ℕ, ◌+◌, Bool, true, false, ◌&&◌, not, List, [], ◌∷◌, ◌++◌, replicate, Option, none, some,
  if◌then◌else◌,
}
use qsol_fed.Base.Result.{Result, ok, ◌>>=◌, ◌>>◌}
use qsol_fed.Base.Int.{pos}
use qsol_fed.Base.Text.{Text, codes}
use qsol_fed.Platform.{Platform}
use qsol_fed.Json.{Value, Fields, null, bool, int, str, arr, dict, nil, cons, end, field}
use qsol_fed.Sdk.Fields.{item, is_literal, is_false}
use qsol_fed.Moriarty.Shapes.{value_at, value_eq}
use qsol_fed.Moriarty.Corpus.{text_of}
use qsol_fed.Moriarty.Counterexample.{
  counterexample_identity_projection, canonical_ref, validate_counterexample_shape,
}

abbrev pub zero_ref : Text
zero_ref = codes "sha256:" ++ replicate 64 b'0'

-- the record of a failure, with the identifier left open
unfoldable pub counterexample_record : Text → Text → Fields → Fields → Fields
unfolding value_at
counterexample_record id target attack result =
    field (codes "schema") (str (codes "moriarty-counterexample/1")) (
      field (codes "counterexample_id") (str id) (
        field (codes "target_commit") (str target) (
          field (codes "attack_id") (value_at (codes "id") attack) (
            field (codes "family") (value_at (codes "family") attack) (
              field (codes "owner_phases") (value_at (codes "owner_phases") attack) (
                field (codes "boundary_ids") (value_at (codes "boundary_ids") attack) (
                  field (codes "regression_probe_ids")
                    (arr (cons (value_at (codes "probe_id") result) nil))
                    (field (codes "failure_kind") (value_at (codes "failure_kind") result) (
                      field (codes "observed_exit_code") (value_at (codes "exit_code") result) (
                        field (codes "stdout_sha256") (value_at (codes "stdout_sha256") result) (
                          field (codes "stderr_sha256") (value_at (codes "stderr_sha256") result) (
                            field (codes "stdout_bytes") (value_at (codes "stdout_bytes") result) (
                              field (codes "stderr_bytes") (value_at (codes "stderr_bytes") result)
                                (field (codes "stdout_truncated")
                                  (value_at (codes "stdout_truncated") result)
                                  (field (codes "stderr_truncated")
                                    (value_at (codes "stderr_truncated") result)
                                    (field (codes "status") (str (codes "unresolved")) (
                                      field (codes "resolution_commit") null (
                                        field (codes "production_credentials_used") (bool false) (
                                          field (codes "production_targets_used") (bool false) (
                                            field (codes "constitutional_bypass_used") (bool false)
                                              (field (codes "authority_effect") (str (codes "none"))
                                                end)))))))))))))))))))))

unfoldable pub generated_counterexample : Platform → Text → Fields → Fields → Result Fields
unfolding counterexample_record canonical_ref counterexample_identity_projection
    validate_counterexample_shape
generated_counterexample p target attack result = do
  id ← canonical_ref p (
      dict
        (counterexample_identity_projection (counterexample_record zero_ref target attack result)))
  let generated = counterexample_record id target attack result
  validate_counterexample_shape p (dict generated)
  ok generated

-- `left is right` for values of which one is a Boolean
abbrev pub same_bool : Value → Value → Bool
same_bool (bool true) (bool true) = true
same_bool (bool false) (bool false) = true
same_bool _ _ = false

unfoldable pub counterexample_failure_matches : Fields → Fields → Bool
unfolding is_false value_at value_eq
counterexample_failure_matches counterexample result =
    is_false (value_at (codes "ok") result)
    && value_eq (value_at (codes "failure_kind") result)
        (value_at (codes "failure_kind") counterexample)
    && value_eq (value_at (codes "exit_code") result)
        (value_at (codes "observed_exit_code") counterexample)
    && value_eq (value_at (codes "stdout_sha256") result)
        (value_at (codes "stdout_sha256") counterexample)
    && value_eq (value_at (codes "stderr_sha256") result)
        (value_at (codes "stderr_sha256") counterexample)
    && value_eq (value_at (codes "stdout_bytes") result)
        (value_at (codes "stdout_bytes") counterexample)
    && value_eq (value_at (codes "stderr_bytes") result)
        (value_at (codes "stderr_bytes") counterexample)
    && same_bool (value_at (codes "stdout_truncated") result)
        (value_at (codes "stdout_truncated") counterexample)
    && same_bool (value_at (codes "stderr_truncated") result)
        (value_at (codes "stderr_truncated") counterexample)

abbrev pub reported_fields : List Text
reported_fields =
    codes "probe_id"
    ∷ codes "ok"
    ∷ codes "exit_code"
    ∷ codes "failure_kind"
    ∷ codes "stdout_sha256"
    ∷ codes "stderr_sha256"
    ∷ codes "stdout_bytes"
    ∷ codes "stderr_bytes"
    ∷ codes "stdout_truncated"
    ∷ codes "stderr_truncated"
    ∷ []

-- `{key: result[key] for key in names}`
unfoldable pub select : List Text → Fields → Result Fields
unfolding item
select [] result = ok end
select (key ∷ names) result = do
  value ← item key result
  rest ← select names result
  ok (field key value rest)

unfoldable pub report_probe_result : Fields → Result Fields
unfolding select
report_probe_result result = select reported_fields result

-- what one replay found
pub record Outcome : Type 0 where
  pub succeeded : Bool
  pub target_reproduced : Bool
  pub resolution_green : Value
  pub failure_kind : Value
  pub failure_result : Value

-- `regression_probe_ids[0]`
abbrev pub first_item : Value → Value
first_item (arr (cons x xs)) = x
first_item _ = null

unfoldable pub replay_record : Fields → Outcome → Fields
unfolding value_at
replay_record counterexample outcome =
    field (codes "counterexample_id") (value_at (codes "counterexample_id") counterexample) (
      field (codes "status") (value_at (codes "status") counterexample) (
        field (codes "probe_id")
          (first_item (value_at (codes "regression_probe_ids") counterexample))
          (field (codes "ok") (bool outcome.succeeded) (
            field (codes "target_reproduced") (bool outcome.target_reproduced) (
              field (codes "resolution_green") outcome.resolution_green (
                field (codes "failure_kind") outcome.failure_kind
                  (field (codes "failure_result") outcome.failure_result end)))))))

-- `after["ok"] is True and after["exit_code"] == 0`
unfoldable pub is_green : Fields → Bool
unfolding value_at value_eq
is_green after =
    same_bool (value_at (codes "ok") after) (bool true)
    && value_eq (value_at (codes "exit_code") after) (int (pos 0))

abbrev pub failed : Bool → Value → Text → Value → Outcome
failed reproduced green kind result = record {
  succeeded = false;
  target_reproduced = reproduced;
  resolution_green = green;
  failure_kind = str kind;
  failure_result = result;
}

abbrev passed : Value → Outcome
passed green = record {
  succeeded = true;
  target_reproduced = true;
  resolution_green = green;
  failure_kind = null;
  failure_result = null;
}

-- `_run_counterexample_replay_probe(item, index, label, commit, …)`; `none` is a SystemExit
abbrev pub ReplayProbe : Type 0
ReplayProbe = Fields → ℕ → Text → Text → Option Fields

-- the run at the resolution commit
unfoldable pub resolution_outcome : Option Fields → Result Outcome
unfolding is_green report_probe_result
resolution_outcome none = ok (failed true (bool false) (codes "replay_setup_error") null)
resolution_outcome (some after) =
    if is_green after
    then ok (passed (bool true))
    else (report_probe_result after >>= λ report.
        ok (failed true (bool false) (codes "resolution_probe_not_green") (dict report)))

module _ (run_replay : ReplayProbe) where
  -- behind a run at the target commit that returned
  unfoldable pub reproduced_outcome : Fields → ℕ → Fields → Result Outcome
  unfolding counterexample_failure_matches report_probe_result value_at is_literal text_of
      resolution_outcome
  reproduced_outcome counterexample index before =
      if not (counterexample_failure_matches counterexample before)
      then (report_probe_result before >>= λ report.
          ok (failed false null (codes "target_failure_not_reproduced") (dict report)))
      else if is_literal (codes "unresolved") (value_at (codes "status") counterexample)
      then ok (passed null)
      else resolution_outcome (
          run_replay counterexample index (codes "resolution")
            (text_of (value_at (codes "resolution_commit") counterexample)))

  -- one round of the loop
  unfoldable pub replay_outcome : Fields → ℕ → Result Outcome
  unfolding value_at text_of reproduced_outcome
  replay_outcome counterexample index =
      elim (run_replay counterexample index (codes "target")
        (text_of (value_at (codes "target_commit") counterexample))) [
          | none ↦ ok (failed false null (codes "replay_setup_error") null)
          | some before ↦ reproduced_outcome counterexample index before
        ]

  -- the counterexamples are those of a validated registry, so the assertion on the resolution and the access to
  -- the one probe identifier do not fail
  unfoldable pub verify_accepted_counterexamples : List Fields → ℕ → Result (List Fields)
  unfolding replay_outcome replay_record
  verify_accepted_counterexamples [] index = ok []
  verify_accepted_counterexamples (counterexample ∷ accepted) index = do
    outcome ← replay_outcome counterexample index
    records ← verify_accepted_counterexamples accepted (index + 1)
    ok (replay_record counterexample outcome ∷ records)
