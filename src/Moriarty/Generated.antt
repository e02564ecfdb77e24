-- ===== src/Moriarty/Generated.antt =====
-- A counterexample that the harness generates is accepted by its own validator, and matches the result.
use qsol_fed.Base.{◌≡◌, refl, ◌∙◌, Bool, true, ◌&&◌, ◌++◌, all, arith, if◌then◌else◌}
use qsol_fed.Base.Result.{ok, ◌>>=◌, raise_if, >>=-eq-ok}
use qsol_fed.Base.Text.{Text, codes, text_eq, text_eq_refl, contains}
use qsol_fed.Base.Utf8.{encode}
use qsol_fed.Platform.{Platform}
use qsol_fed.Json.{Value, Fields, dict, lookup, keys, has_key}
use qsol_fed.Canonical.Complete.{bind-ok}
use qsol_fed.Canonical.Serialize.{serialize}
use qsol_fed.Sdk.Patterns.{is_text_that, is_sha256_ref, matches_sha256_ref}
use qsol_fed.Sdk.Fields.{has_exactly, is_literal, is_none, is_false, hashable, as_dict}
use qsol_fed.Sdk.Binding.{derived-matches}
use qsol_fed.Moriarty.Output.{max_probe_output_bytes}
use qsol_fed.Moriarty.Shapes.{
  value_at, member_of, matches_target, matches_attack_id, is_size, is_failure_code, is_bool,
  expected_families, probes, valid_owner_phases, valid_boundary_ids, is_distinct_list,
  max_attack_probe_ids,
}
use qsol_fed.Moriarty.Corpus.{attack_valid}
use qsol_fed.Moriarty.Counterexample.{
  counterexample_fields, failure_kinds, statuses, counterexample_identity_projection,
  valid_regression_probe, discovery_valid, evidence_valid, validate_boundary, validate_exit_code,
  validate_resolution, canonical_ref, validate_counterexample_shape,
}
use qsol_fed.Moriarty.Replay.{
  zero_ref, counterexample_record, generated_counterexample, counterexample_failure_matches,
}
use qsol_fed.Moriarty.Compared.{member_of-known, text_self, size_self, bool_self, code_self, coded}

-- the result of a probe that failed: a known probe, an exit code exactly for a process that exited, the
-- digests, and the sizes within the bound
pub record FailedResult (result : Fields) : Type 0 where
  pub not_ok : is_false (value_at (codes "ok") result) ≡ true
  pub probe : is_text_that (contains probes) (value_at (codes "probe_id") result) ≡ true
  pub kind : is_text_that (contains failure_kinds) (value_at (codes "failure_kind") result) ≡ true
  pub code :
      (if is_literal (codes "exit_nonzero") (value_at (codes "failure_kind") result)
        then is_failure_code (value_at (codes "exit_code") result)
        else is_none (value_at (codes "exit_code") result))
      ≡ true
  pub stdout : is_sha256_ref (value_at (codes "stdout_sha256") result) ≡ true
  pub stderr : is_sha256_ref (value_at (codes "stderr_sha256") result) ≡ true
  pub stdout_size : is_size max_probe_output_bytes (value_at (codes "stdout_bytes") result) ≡ true
  pub stderr_size : is_size max_probe_output_bytes (value_at (codes "stderr_bytes") result) ≡ true
  pub stdout_cut : is_bool (value_at (codes "stdout_truncated") result) ≡ true
  pub stderr_cut : is_bool (value_at (codes "stderr_truncated") result) ≡ true

conjuncts :
    (v w x y z : Bool)
    → (v && w && x && y && z) ≡ true
    → (v ≡ true) × (w ≡ true) × (x ≡ true) × (y ≡ true) × (z ≡ true)
conjuncts v w x y z h = ground arith

attack-facts :
    (attack : Fields)
    → attack_valid attack ≡ true
    → (is_text_that matches_attack_id (value_at (codes "id") attack) ≡ true)
      × (is_text_that (contains expected_families) (value_at (codes "family") attack) ≡ true)
      × (valid_owner_phases (value_at (codes "owner_phases") attack) ≡ true)
      × (valid_boundary_ids (value_at (codes "boundary_ids") attack) ≡ true)
      × (is_distinct_list 1 max_attack_probe_ids
            (contains probes)
            (value_at (codes "probe_ids") attack)
          ≡ true)
unfolding attack_valid
attack-facts attack h = conjuncts _ _ _ _ _ h

-- a reference is always well formed
canonical_ref-matches :
    (p : Platform) (v : Value) (id : Text)
    → canonical_ref p v ≡ ok id
    → matches_sha256_ref id ≡ true
unfolding canonical_ref
canonical_ref-matches p v id h =
    let (text, printed, h1) = >>=-eq-ok (serialize p v) _ h in
    let (bytes, encoded, h2) = >>=-eq-ok (encode text) _ h1 in
    let same : (codes "sha256:" ++ p.sha256 bytes) ≡ id = cc in
    rw (← same) (derived-matches p bytes)

module _ (p : Platform) (target : Text) (attack result : Fields) (a : attack_valid attack ≡ true)
    (t : matches_target target ≡ true) (r : FailedResult result) where
  module _ (id : Text) where
    abbrev record_of : Fields
    record_of = counterexample_record id target attack result

    record-matches : counterexample_failure_matches record_of result ≡ true
    unfolding counterexample_failure_matches counterexample_record value_at lookup text_eq
        is_sha256_ref
    record-matches =
        rw
          (
            r.not_ok,
            text_self _ _ r.kind,
            code_self _ _ r.code,
            text_self _ _ r.stdout,
            text_self _ _ r.stderr,
            size_self _ _ r.stdout_size,
            size_self _ _ r.stderr_size,
            bool_self _ r.stdout_cut,
            bool_self _ r.stderr_cut,
          )
          refl

    record-discovery : matches_sha256_ref id ≡ true → discovery_valid record_of ≡ true
    unfolding discovery_valid counterexample_record value_at lookup text_eq is_sha256_ref is_literal
    record-discovery m = rw (m, t, (attack-facts attack a).0) refl

    record-evidence : evidence_valid record_of ≡ true
    unfolding evidence_valid counterexample_record value_at lookup text_eq is_literal is_false
    record-evidence =
        rw (r.stdout, r.stderr, r.stdout_size, r.stderr_size, r.stdout_cut, r.stderr_cut) refl

    record-family :
        is_text_that (contains expected_families) (value_at (codes "family") record_of) ≡ true
    unfolding counterexample_record value_at lookup text_eq
    record-family = (attack-facts attack a).1

    record-phases : valid_owner_phases (value_at (codes "owner_phases") record_of) ≡ true
    unfolding counterexample_record value_at lookup text_eq
    record-phases = (attack-facts attack a).2

    record-boundaries : valid_boundary_ids (value_at (codes "boundary_ids") record_of) ≡ true
    unfolding counterexample_record value_at lookup text_eq
    record-boundaries = (attack-facts attack a).3

    record-probe :
        valid_regression_probe (value_at (codes "regression_probe_ids") record_of) ≡ ok true
    unfolding counterexample_record value_at lookup text_eq valid_regression_probe
    record-probe = member_of-known probes _ r.probe

    record-kind :
        is_text_that (contains failure_kinds) (value_at (codes "failure_kind") record_of) ≡ true
    unfolding counterexample_record value_at lookup text_eq
    record-kind = r.kind

    record-status : member_of statuses (value_at (codes "status") record_of) ≡ ok true
    unfolding counterexample_record value_at lookup text_eq member_of hashable contains
    record-status = refl

    record-boundary : matches_sha256_ref id ≡ true → validate_boundary record_of ≡ ok tt
    unfolding validate_boundary ◌>>=◌ raise_if
    record-boundary m =
        rw
          (
            record-discovery m,
            family-known,
            phases-valid,
            boundaries-valid,
            probe-known,
            kind-known,
            status-known,
            record-evidence,
          )
          refl
      where
        family-known : member_of expected_families (value_at (codes "family") record_of) ≡ ok true
        family-known = member_of-known expected_families _ (record-family)

        phases-valid : valid_owner_phases (value_at (codes "owner_phases") record_of) ≡ true
        phases-valid = record-phases

        boundaries-valid : valid_boundary_ids (value_at (codes "boundary_ids") record_of) ≡ true
        boundaries-valid = record-boundaries

        probe-known :
            valid_regression_probe (value_at (codes "regression_probe_ids") record_of) ≡ ok true
        probe-known = record-probe

        kind-known : member_of failure_kinds (value_at (codes "failure_kind") record_of) ≡ ok true
        kind-known = member_of-known failure_kinds _ record-kind

        status-known : member_of statuses (value_at (codes "status") record_of) ≡ ok true
        status-known = record-status

    record-exit_code : validate_exit_code record_of ≡ ok tt
    unfolding validate_exit_code counterexample_record value_at lookup text_eq
    record-exit_code =
        coded (is_literal (codes "exit_nonzero") (value_at (codes "failure_kind") result))
          (value_at (codes "exit_code") result) _ _ r.code

    record-resolution : validate_resolution record_of ≡ ok tt
    unfolding validate_resolution counterexample_record value_at lookup text_eq is_literal is_none
        raise_if
    record-resolution = refl

    -- the identity leaves the identifier out
    record-projection :
        counterexample_identity_projection record_of
        ≡ counterexample_identity_projection (counterexample_record zero_ref target attack result)
    unfolding counterexample_identity_projection counterexample_record contains text_eq
    record-projection = refl

    record-fields : has_exactly counterexample_fields record_of ≡ true
    unfolding has_exactly counterexample_record contains text_eq keys has_key all
    record-fields = refl

    record-id : is_literal id (value_at (codes "counterexample_id") record_of) ≡ true
    unfolding counterexample_record value_at lookup text_eq is_literal
    record-id = text_eq_refl id

    record-accepted :
        canonical_ref p (
            dict (
              counterexample_identity_projection
                (counterexample_record zero_ref target attack result)))
          ≡ ok id
        → validate_counterexample_shape p (dict record_of) ≡ ok tt
    unfolding validate_counterexample_shape as_dict ◌>>=◌ raise_if
    record-accepted named =
        rw
          (
            record-fields,
            record-boundary (
                canonical_ref-matches p
                  (dict (
                    counterexample_identity_projection
                      (counterexample_record zero_ref target attack result)))
                  id named),
            record-exit_code,
            record-resolution,
            record-projection,
          )
          (bind-ok _ named ∙ rw record-id refl)

  -- For a valid attack, a target commit and the result of a failed probe: if the record of the failure has
  -- a canonical form, then the harness generates a counterexample, its own validator accepts it, and it
  -- matches the result that it was generated from.
  pub generated_counterexample-accepted :
      (id : Text)
      → canonical_ref p (
          dict (
            counterexample_identity_projection
              (counterexample_record zero_ref target attack result)))
        ≡ ok id
      → (item : Fields) × (generated_counterexample p target attack result ≡ ok item)
        × (validate_counterexample_shape p (dict item) ≡ ok tt)
        × (counterexample_failure_matches item result ≡ true)
  unfolding generated_counterexample
  generated_counterexample-accepted id named = (
    record_of id,
    bind-ok _ named ∙ bind-ok _ (record-accepted id named),
    record-accepted id named,
    record-matches id,
  )
