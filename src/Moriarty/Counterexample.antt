-- ===== src/Moriarty/Counterexample.antt =====
-- `canonical_ref`, `counterexample_identity_projection` and `validate_counterexample_shape`.
use qsol_fed.Base.{Bool, false, ◌&&◌, not, List, [], ◌∷◌, ◌++◌, if◌then◌else◌}
use qsol_fed.Base.Result.{
  Result, ok, err, ◌>>=◌, ◌>>◌, raise_if, moriarty_counterexample_not_object,
  moriarty_counterexample_field_set_invalid, moriarty_counterexample_boundary_invalid,
  moriarty_exit_failure_requires_nonzero_exit_code, moriarty_nonexit_failure_exit_code_must_be_null,
  moriarty_unresolved_counterexample_has_resolution_commit,
  moriarty_resolved_counterexample_missing_resolution_commit,
  moriarty_counterexample_identity_mismatch,
}
use qsol_fed.Base.Text.{Text, codes, contains}
use qsol_fed.Base.Utf8.{encode}
use qsol_fed.Platform.{Platform}
use qsol_fed.Json.{Value, Fields, arr, dict, nil, cons, end, field}
use qsol_fed.Canonical.Serialize.{serialize}
use qsol_fed.Sdk.Patterns.{is_text_that, is_sha256_ref}
use qsol_fed.Sdk.Fields.{has_exactly, is_literal, is_none, is_false, as_dict, require}
use qsol_fed.Moriarty.Output.{max_probe_output_bytes}
use qsol_fed.Moriarty.Shapes.{
  value_at, member_of, matches_target, matches_attack_id, is_size, is_failure_code, is_bool,
  expected_families, probes, valid_owner_phases, valid_boundary_ids,
}

abbrev pub counterexample_fields : List Text
counterexample_fields =
    codes "schema"
    ∷ codes "counterexample_id"
    ∷ codes "target_commit"
    ∷ codes "attack_id"
    ∷ codes "family"
    ∷ codes "owner_phases"
    ∷ codes "boundary_ids"
    ∷ codes "regression_probe_ids"
    ∷ codes "failure_kind"
    ∷ codes "observed_exit_code"
    ∷ codes "stdout_sha256"
    ∷ codes "stderr_sha256"
    ∷ codes "stdout_bytes"
    ∷ codes "stderr_bytes"
    ∷ codes "stdout_truncated"
    ∷ codes "stderr_truncated"
    ∷ codes "status"
    ∷ codes "resolution_commit"
    ∷ codes "production_credentials_used"
    ∷ codes "production_targets_used"
    ∷ codes "constitutional_bypass_used"
    ∷ codes "authority_effect"
    ∷ []

abbrev pub failure_kinds : List Text
failure_kinds = codes "exit_nonzero" ∷ codes "timeout" ∷ codes "tool_error" ∷ []

abbrev pub statuses : List Text
statuses = codes "unresolved" ∷ codes "resolved" ∷ []

-- the keys that the identity leaves out
abbrev pub mutable_fields : List Text
mutable_fields = codes "counterexample_id" ∷ codes "status" ∷ codes "resolution_commit" ∷ []

unfoldable pub counterexample_identity_projection : Fields → Fields
unfolding contains
counterexample_identity_projection end = end
counterexample_identity_projection (field key value item) =
    let rest = counterexample_identity_projection item in
    if contains mutable_fields key then rest else field key value rest

-- `isinstance(ids, list) and len(ids) == 1 and all(probe_id in PROBES for probe_id in ids)`
unfoldable pub valid_regression_probe : Value → Result Bool
unfolding member_of
valid_regression_probe (arr (cons probe_id nil)) = member_of probes probe_id
valid_regression_probe _ = ok false

-- the first tests of the boundary
unfoldable pub discovery_valid : Fields → Bool
unfolding value_at is_literal is_sha256_ref matches_target matches_attack_id
discovery_valid item =
    is_literal (codes "moriarty-counterexample/1") (value_at (codes "schema") item)
    && is_sha256_ref (value_at (codes "counterexample_id") item)
    && is_text_that matches_target (value_at (codes "target_commit") item)
    && is_text_that matches_attack_id (value_at (codes "attack_id") item)

-- the last tests of the boundary
unfoldable pub evidence_valid : Fields → Bool
unfolding value_at is_literal is_false is_sha256_ref is_size is_bool
evidence_valid item =
    is_false (value_at (codes "production_credentials_used") item)
    && is_false (value_at (codes "production_targets_used") item)
    && is_false (value_at (codes "constitutional_bypass_used") item)
    && is_literal (codes "none") (value_at (codes "authority_effect") item)
    && is_sha256_ref (value_at (codes "stdout_sha256") item)
    && is_sha256_ref (value_at (codes "stderr_sha256") item)
    && is_size max_probe_output_bytes (value_at (codes "stdout_bytes") item)
    && is_size max_probe_output_bytes (value_at (codes "stderr_bytes") item)
    && is_bool (value_at (codes "stdout_truncated") item)
    && is_bool (value_at (codes "stderr_truncated") item)

-- the one long condition, in its order: a value without a hash raises TypeError at `in`
unfoldable pub validate_boundary : Fields → Result (Unit {0})
unfolding discovery_valid member_of value_at valid_owner_phases valid_boundary_ids
    valid_regression_probe evidence_valid
validate_boundary item = do
  raise_if (not (discovery_valid item)) moriarty_counterexample_boundary_invalid
  known_family ← member_of expected_families (value_at (codes "family") item)
  raise_if (not known_family) moriarty_counterexample_boundary_invalid
  raise_if
      (not (
        valid_owner_phases (value_at (codes "owner_phases") item)
        && valid_boundary_ids (value_at (codes "boundary_ids") item)))
      moriarty_counterexample_boundary_invalid
  known_probe ← valid_regression_probe (value_at (codes "regression_probe_ids") item)
  raise_if (not known_probe) moriarty_counterexample_boundary_invalid
  known_kind ← member_of failure_kinds (value_at (codes "failure_kind") item)
  raise_if (not known_kind) moriarty_counterexample_boundary_invalid
  known_status ← member_of statuses (value_at (codes "status") item)
  raise_if (not known_status) moriarty_counterexample_boundary_invalid
  raise_if (not (evidence_valid item)) moriarty_counterexample_boundary_invalid

-- the exit code is there exactly for a process that exited
unfoldable pub validate_exit_code : Fields → Result (Unit {0})
unfolding value_at is_literal is_failure_code is_none
validate_exit_code item =
    if is_literal (codes "exit_nonzero") (value_at (codes "failure_kind") item)
    then raise_if (not (is_failure_code (value_at (codes "observed_exit_code") item)))
        moriarty_exit_failure_requires_nonzero_exit_code
    else raise_if (not (is_none (value_at (codes "observed_exit_code") item)))
        moriarty_nonexit_failure_exit_code_must_be_null

-- the resolution commit is there exactly for a resolved counterexample
unfoldable pub validate_resolution : Fields → Result (Unit {0})
unfolding value_at is_literal is_none matches_target
validate_resolution item =
    if is_literal (codes "unresolved") (value_at (codes "status") item)
    then raise_if (not (is_none (value_at (codes "resolution_commit") item)))
        moriarty_unresolved_counterexample_has_resolution_commit
    else raise_if (not (is_text_that matches_target (value_at (codes "resolution_commit") item)))
        moriarty_resolved_counterexample_missing_resolution_commit

module _ (p : Platform) where
  unfoldable pub canonical_ref : Value → Result Text
  unfolding serialize encode
  canonical_ref v = do
    text ← serialize p v
    bytes ← encode text
    ok (codes "sha256:" ++ p.sha256 bytes)

  unfoldable pub validate_counterexample_shape : Value → Result (Unit {0})
  unfolding as_dict has_exactly validate_boundary validate_exit_code validate_resolution
      canonical_ref counterexample_identity_projection value_at is_literal
  validate_counterexample_shape v = do
    item ← require (as_dict v) (err moriarty_counterexample_not_object)
    raise_if (not (has_exactly counterexample_fields item))
        moriarty_counterexample_field_set_invalid
    validate_boundary item
    validate_exit_code item
    validate_resolution item
    identity ← canonical_ref (dict (counterexample_identity_projection item))
    raise_if (not (is_literal identity (value_at (codes "counterexample_id") item)))
        moriarty_counterexample_identity_mismatch
