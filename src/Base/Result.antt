-- ===== src/Base/Result.antt =====
-- Python's exceptions as values. A function that may raise returns a `Result`; `Error` has one
-- constructor for each message with which the modelled code raises.
use mathlib.Core.Path.{◌≡◌, refl, subst}
use mathlib.Core.Bool.{Bool, true, false}
use mathlib.Core.Logic.{◌⊎◌, inl, inr}
use qsol_fed.Base.Tests.{if◌then◌else◌}

pub data Error : Type 0 where
  -- raised by the canonical JSON profile
  non_integer_number non_finite_number lone_surrogate string_too_large max_depth_exceeded : Error
  integer_out_of_range too_many_object_members duplicate_key normalized_duplicate_key : Error
  too_many_array_items unsupported_value input_too_large utf8_bom_forbidden malformed_json : Error
  envelope_must_be_object envelope_projection_fields_missing invalid_utf8 output_too_large : Error
  -- raised by the SDK
  sdk_node_manifest_invalid third_party_profile_invalid sdk_provenance_invalid : Error
  sdk_envelope_input_invalid sdk_envelope_invalid phase6_fixture_contract_invalid : Error
  phase6_expected_mismatch : Error
  -- raised by the isolation of the probes
  moriarty_network_seccomp_arch_unsupported moriarty_signal_seccomp_arch_unsupported : Error
  moriarty_process_memory_seccomp_arch_unsupported moriarty_prlimit_seccomp_arch_unsupported : Error
  moriarty_pidfd_descriptor_seccomp_arch_unsupported moriarty_keyring_seccomp_arch_unsupported :
      Error
  -- raised by the harness on its corpus and its registry
  moriarty_attack_corpus_field_set_invalid moriarty_attack_corpus_boundary_invalid : Error
  moriarty_attack_count_invalid moriarty_attack_record_invalid : Error
  moriarty_attack_field_set_invalid moriarty_attack_invalid : Error
  moriarty_attack_family_set_drift moriarty_counterexample_not_object : Error
  moriarty_counterexample_field_set_invalid moriarty_counterexample_boundary_invalid : Error
  moriarty_exit_failure_requires_nonzero_exit_code moriarty_nonexit_failure_exit_code_must_be_null :
      Error
  moriarty_unresolved_counterexample_has_resolution_commit
        moriarty_resolved_counterexample_missing_resolution_commit :
      Error
  moriarty_counterexample_identity_mismatch moriarty_counterexample_registry_field_set_invalid :
      Error
  moriarty_counterexample_registry_boundary_invalid moriarty_counterexample_registry_count_invalid :
      Error
  moriarty_counterexample_registry_duplicate moriarty_counterexample_attack_not_in_corpus : Error
  moriarty_counterexample_family_mismatch moriarty_counterexample_owner_phase_mismatch : Error
  moriarty_counterexample_boundary_set_mismatch moriarty_counterexample_probe_not_bound_to_attack :
      Error
  moriarty_counterexample_target_commit_missing
        moriarty_counterexample_target_not_in_reviewed_history :
      Error
  moriarty_resolution_commit_must_follow_finding_target moriarty_resolution_commit_missing : Error
  moriarty_resolution_not_descendant_of_finding_target moriarty_resolution_not_in_reviewed_history :
      Error
  moriarty_counterexample_registry_unresolved_type_invalid
        moriarty_counterexample_registry_unresolved_count_drift :
      Error
  -- raised by the harness on the objects of git and on its report
  moriarty_bootstrap_target_missing moriarty_bootstrap_target_duplicate : Error
  moriarty_bootstrap_target_unavailable moriarty_bootstrap_target_invalid : Error
  moriarty_bootstrap_object_id_invalid moriarty_bootstrap_read_failed : Error
  moriarty_bootstrap_hash_mismatch moriarty_bootstrap_tree_malformed : Error
  moriarty_bootstrap_path_missing moriarty_bootstrap_commit_tree_missing : Error
  moriarty_bootstrap_path_not_tree moriarty_bootstrap_source_not_regular : Error
  moriarty_bootstrap_source_unavailable moriarty_bootstrap_source_mismatch : Error
  moriarty_git_object_id_invalid moriarty_git_object_too_large : Error
  moriarty_git_object_read_failed moriarty_git_object_hash_mismatch : Error
  moriarty_exact_export_commit_missing moriarty_commit_tree_header_missing : Error
  moriarty_commit_tree_id_invalid moriarty_git_tree_depth_exceeded : Error
  moriarty_git_tree_metadata_exceeded moriarty_git_tree_object_malformed : Error
  moriarty_git_tree_entry_count_exceeded moriarty_git_tree_entry_encoding_invalid : Error
  moriarty_git_tree_entry_name_invalid moriarty_git_tree_path_too_long : Error
  moriarty_git_tree_duplicate_path moriarty_exact_export_archive_too_large : Error
  moriarty_exact_export_nonregular_entry_forbidden moriarty_report_counterexample_count_exceeded :
      Error
  moriarty_target_or_harness_changed_during_probes : Error
  moriarty_report_size_exceeded moriarty_git_head_unavailable : Error
  moriarty_git_head_non_ascii moriarty_git_head_invalid : Error
  -- raised by the Nexus adapter; any of its codes may say that a text holds a secret
  nexus_bundle_must_be_object nexus_native_verifier_result_invalid : Error
  nexus_native_verification_not_verified nexus_native_verification_bundle_ref_mismatch : Error
  nexus_native_verification_object_count_mismatch nexus_native_verification_object_refs_mismatch :
      Error
  nexus_export_contract_mismatch nexus_export_bundle_ref_invalid : Error
  nexus_export_head_ref_invalid nexus_export_object_refs_invalid : Error
  nexus_council_member_invalid nexus_council_member_id_invalid : Error
  nexus_council_equality_boundary_invalid nexus_minority_reports_invalid : Error
  nexus_minority_report_invalid nexus_minority_report_member_invalid : Error
  nexus_minority_report_nonmember nexus_minority_report_choice_invalid : Error
  nexus_minority_report_rationale_invalid nexus_council_session_not_verified : Error
  nexus_council_session_payload_invalid nexus_council_roster_invalid : Error
  nexus_council_roster_duplicate_member_after_nfc nexus_council_evidence_state_invalid : Error
  nexus_council_session_id_invalid nexus_council_question_ref_invalid : Error
  nexus_council_report_limit : Error
  secret_material_rejected : Error → Error
  -- raised by the gates
  gate_error : Error
  -- raised by the interpreter itself
  attribute_error : Error
  unicode_encode_error unicode_decode_error type_error key_error int_digits_error os_error : Error
  re_error : Error
  -- a model ran out of fuel
  out_of_fuel : Error

pub data Result {ℓ} (A : Type ℓ) : Type ℓ where
  ok : A → Result A
  err : Error → Result A

module _ {ℓ κ} {A : Type ℓ} {B : Type κ} where
  infixl 5 ◌>>=◌
  unfoldable pub ◌>>=◌ : Result A → (A → Result B) → Result B
  err raised >>= next = err raised
  ok value >>= next = next value

  -- A chain of two steps that returned: both steps did.
  pub >>=-eq-ok :
      (step : Result A) (next : A → Result B) {out : B}
      → (step >>= next) ≡ ok out
      → (mid : A) × (step ≡ ok mid) × (next mid ≡ ok out)
  unfolding ◌>>=◌
  >>=-eq-ok (err e) next returned = cc
  >>=-eq-ok (ok mid) next returned = (mid, refl, returned)

infixl 5 ◌>>◌
abbrev pub ◌>>◌ {ℓ κ} : {A : Type ℓ} {B : Type κ} → Result A → Result B → Result B
m >> k = m >>= λ _. k

-- `if test: raise e`
unfoldable pub raise_if : Bool → Error → Result (Unit {0})
raise_if true e = err e
raise_if false e = ok tt

pub raise_if-eq-ok : (b : Bool) (e : Error) {u : Unit {0}} → raise_if b e ≡ ok u → b ≡ false
unfolding raise_if
raise_if-eq-ok true e h = cc
raise_if-eq-ok false e h = refl

-- a guard in front of a computation that returned
pub guard-eq-ok {ℓ} :
    {A : Type ℓ} (b : Bool) (e : Error) (r : Result A) {a : A}
    → (raise_if b e >> r) ≡ ok a
    → (b ≡ false) × (r ≡ ok a)
unfolding raise_if ◌>>=◌
guard-eq-ok true e r h = cc
guard-eq-ok false e r h = (refl, h)

pub Result-cases {ℓ} :
    {A : Type ℓ} (r : Result A) → ((a : A) × (r ≡ ok a)) ⊎ ((e : Error) × (r ≡ err e))
Result-cases (ok a) = inl (a, refl)
Result-cases (err e) = inr (e, refl)

-- Whatever the computation returns has the property.
pub record Returns {ℓ κ} {A : Type ℓ} (P : A → Type κ) (r : Result A) : Type (ℓ ⊔ κ) where
  pub at : (a : A) → r ≡ ok a → P a

module _ {ℓ κ} {A : Type ℓ} {P : A → Type κ} where
  pub Returns-ok : (a : A) → P a → Returns P (ok a)
  Returns-ok a h = record { at = λ b e. subst P (ok-injective e) h }
    where
      ok-injective : {b : A} → ok a ≡ ok b → a ≡ b
      ok-injective e = cc

  pub Returns-err : (e : Error) → Returns P (err e)
  Returns-err e = record { at = λ b h. cc }

  pub Returns-if :
      (b : Bool) (x y : Result A)
      → (b ≡ true → Returns P x)
      → (b ≡ false → Returns P y)
      → Returns P (if b then x else y)
  Returns-if true x y hx hy = hx refl
  Returns-if false x y hx hy = hy refl

  -- a branch, whichever way it goes
  pub Returns-branch :
      (b : Bool) (x y : Result A) → Returns P x → Returns P y → Returns P (if b then x else y)
  Returns-branch true x y hx hy = hx
  Returns-branch false x y hx hy = hy

  pub Returns-bind {ℓ'} :
      {B : Type ℓ'} (m : Result B) {f : B → Result A}
      → ((b : B) → m ≡ ok b → Returns P (f b))
      → Returns P (m >>= f)
  unfolding ◌>>=◌
  Returns-bind (ok b) k = k b refl
  Returns-bind (err e) k = Returns-err e

  -- behind a test that did not raise
  pub Returns-guard :
      (b : Bool) (e : Error) {r : Result A}
      → (b ≡ false → Returns P r)
      → Returns P (raise_if b e >> r)
  unfolding ◌>>=◌ raise_if
  Returns-guard true e k = Returns-err e
  Returns-guard false e k = k refl
