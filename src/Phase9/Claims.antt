-- ===== src/Phase9/Claims.antt =====
-- `_validate_claim_document` of tools/validate_phase9_gate.py. Every message of `require` is one error here.
use qsol_fed.Base.{Bool, true, false, ◌&&◌, not, List, [], ◌∷◌, all}
use qsol_fed.Base.Result.{Result, err, ◌>>=◌, ◌>>◌, raise_if, gate_error, attribute_error}
use qsol_fed.Base.Int.{pos}
use qsol_fed.Base.Text.{Text, codes}
use qsol_fed.Json.{Value, Fields, bool, int}
use qsol_fed.Sdk.Fields.{has_exactly, is_literal, is_false, as_dict, require}
use qsol_fed.Moriarty.Shapes.{value_at, value_eq}

abbrev pub phase9_claim_rule : Text
phase9_claim_rule =
    codes
      "Phase 9 adds adversarial graduation assurance, not a new runtime or protocol capability. The Phase 8 capability map remains unchanged. A MORIARTY report is evidence about execution of the exact reviewed regression surface, not a security proof, authority grant, production-deployment certification, or proof that no counterexample exists."

abbrev pub hard_false_claims : List Text
hard_false_claims =
    codes "oracle_holodeck_synthetic_admission"
    ∷ codes "host_level_sandbox"
    ∷ codes "production_networking"
    ∷ codes "remote_execution"
    ∷ codes "interoperable_federation"
    ∷ []

-- the keys of the document
abbrev pub expected_top : List Text
expected_top =
    codes "document_type"
    ∷ codes "schema_version"
    ∷ codes "protocol"
    ∷ codes "wire_protocol"
    ∷ codes "phase"
    ∷ codes "gate_id"
    ∷ codes "gate_status"
    ∷ codes "historical_baseline"
    ∷ codes "runtime_override_allowed"
    ∷ codes "claim_surface_changed"
    ∷ codes "capabilities"
    ∷ codes "assurance"
    ∷ codes "claim_rule"
    ∷ codes "promotion_requirements"
    ∷ []

-- the keys of its assurance
abbrev pub expected_assurance : List Text
expected_assurance =
    codes "moriarty_protocol"
    ∷ codes "provider_neutral"
    ∷ codes "exact_commit_binding"
    ∷ codes "reproducible_counterexample_contract"
    ∷ codes "accepted_counterexample_registry"
    ∷ codes "fixed_repository_probe_map"
    ∷ codes "cross_phase_regression_sweep"
    ∷ codes "isolated_source_export"
    ∷ codes "committed_cargo_lock"
    ∷ codes "opened_executable_binding"
    ∷ codes "cache_only_cargo_home"
    ∷ codes "exclusive_external_report_output"
    ∷ codes "remediation_transition_verified"
    ∷ codes "network_syscalls_denied"
    ∷ codes "probe_proc_read_isolated"
    ∷ codes "probe_writable_scan_restarts_on_transient_enoent"
    ∷ codes "probe_writable_scan_persistent_churn_rejects"
    ∷ codes "probe_writable_scan_binds_queued_directory_identity"
    ∷ codes "probe_writable_scan_cgroup_suspended"
    ∷ codes "probe_writable_scan_all_threads_verified"
    ∷ codes "probe_cgroup_signals_pidfd_bound"
    ∷ codes "probe_writable_scan_suspension_not_charged_to_timeout"
    ∷ codes "probe_writable_scan_next_check_from_completion"
    ∷ codes "per_probe_cargo_home"
    ∷ codes "verified_cargo_registry_archives"
    ∷ codes "staged_rust_toolchain_runtime"
    ∷ codes "production_credentials_used"
    ∷ codes "production_targets_used"
    ∷ codes "constitutional_bypass_used"
    ∷ codes "report_is_security_proof"
    ∷ codes "no_counterexample_found_means_none_exist"
    ∷ codes "authority_effect"
    ∷ []

-- what the assurance has to state
abbrev pub required_assurance : List Text
required_assurance =
    codes "provider_neutral"
    ∷ codes "exact_commit_binding"
    ∷ codes "reproducible_counterexample_contract"
    ∷ codes "accepted_counterexample_registry"
    ∷ codes "fixed_repository_probe_map"
    ∷ codes "cross_phase_regression_sweep"
    ∷ codes "isolated_source_export"
    ∷ codes "committed_cargo_lock"
    ∷ codes "opened_executable_binding"
    ∷ codes "cache_only_cargo_home"
    ∷ codes "exclusive_external_report_output"
    ∷ codes "remediation_transition_verified"
    ∷ codes "network_syscalls_denied"
    ∷ codes "probe_proc_read_isolated"
    ∷ codes "probe_writable_scan_restarts_on_transient_enoent"
    ∷ codes "probe_writable_scan_persistent_churn_rejects"
    ∷ codes "probe_writable_scan_binds_queued_directory_identity"
    ∷ codes "probe_writable_scan_cgroup_suspended"
    ∷ codes "probe_writable_scan_all_threads_verified"
    ∷ codes "probe_cgroup_signals_pidfd_bound"
    ∷ codes "probe_writable_scan_suspension_not_charged_to_timeout"
    ∷ codes "probe_writable_scan_next_check_from_completion"
    ∷ codes "per_probe_cargo_home"
    ∷ codes "verified_cargo_registry_archives"
    ∷ codes "staged_rust_toolchain_runtime"
    ∷ []

-- what it has to deny
abbrev pub denied_assurance : List Text
denied_assurance =
    codes "production_credentials_used"
    ∷ codes "production_targets_used"
    ∷ codes "constitutional_bypass_used"
    ∷ codes "report_is_security_proof"
    ∷ codes "no_counterexample_found_means_none_exist"
    ∷ []

unfoldable pub is_true : Value → Bool
is_true (bool true) = true
is_true _ = false

-- the tests in front of the capabilities
unfoldable pub header_valid : Fields → Bool
unfolding value_at value_eq is_literal is_false
header_valid current =
    is_literal (codes "qsol-fed-phase9-moriarty-claims") (value_at (codes "document_type") current)
    && value_eq (value_at (codes "schema_version") current) (int (pos 1))
    && is_literal (codes "qsol-fed/0") (value_at (codes "protocol") current)
    && is_literal (codes "qsol-fed/1") (value_at (codes "wire_protocol") current)
    && is_literal (codes "9") (value_at (codes "phase") current)
    && is_literal (codes "qsol-fed-phase9-moriarty-gate/1") (value_at (codes "gate_id") current)
    && is_literal (codes "enforced") (value_at (codes "gate_status") current)
    && is_literal (codes "claims/phase8.json") (value_at (codes "historical_baseline") current)
    && is_false (value_at (codes "runtime_override_allowed") current)
    && is_false (value_at (codes "claim_surface_changed") current)

-- the tests of the assurance's members
unfoldable pub assurance_valid : Fields → Bool
unfolding value_at is_literal is_true is_false all
assurance_valid assurance =
    is_literal (codes "MORIARTY/1") (value_at (codes "moriarty_protocol") assurance)
    && all (λ key. is_true (value_at key assurance)) required_assurance
    && all (λ key. is_false (value_at key assurance)) denied_assurance
    && is_literal (codes "none") (value_at (codes "authority_effect") assurance)

unfoldable pub validate_claim_document : Fields → Fields → Result (Unit {0})
unfolding has_exactly header_valid value_at value_eq as_dict is_false assurance_valid is_literal all
validate_claim_document previous current = do
  raise_if (not (has_exactly expected_top current)) gate_error
  raise_if (not (header_valid current)) gate_error
  raise_if
      (not (
        value_eq (value_at (codes "capabilities") current)
          (value_at (codes "capabilities") previous)))
      gate_error
  capabilities ← require (as_dict (value_at (codes "capabilities") current)) (err attribute_error)
  raise_if (not (all (λ key. is_false (value_at key capabilities)) hard_false_claims)) gate_error
  assurance ← require (as_dict (value_at (codes "assurance") current)) (err gate_error)
  raise_if (not (has_exactly expected_assurance assurance)) gate_error
  raise_if (not (assurance_valid assurance)) gate_error
  raise_if (not (is_literal phase9_claim_rule (value_at (codes "claim_rule") current))) gate_error
  raise_if
      (not (
        value_eq (value_at (codes "promotion_requirements") current)
          (value_at (codes "promotion_requirements") previous)))
      gate_error
