-- ===== src/Moriarty/Resolved.antt =====
-- A counterexample keeps its identity when it is resolved, and stays valid.
use qsol_fed.Base.{◌≡◌, refl, ap, ◌∙◌, true, false, ◌&&◌, not, none, some}
use qsol_fed.Base.Result.{ok, ◌>>=◌, raise_if, guard-eq-ok, raise_if-eq-ok, >>=-eq-ok}
use qsol_fed.Base.Text.{Text, codes, text_eq, contains}
use qsol_fed.Platform.{Platform}
use qsol_fed.Json.{Fields, null, str, dict}
use qsol_fed.Canonical.Complete.{bind-ok, raise_if-pass}
use qsol_fed.Sdk.Fields.{has_exactly, hashable, is_literal, as_dict}
use qsol_fed.Sdk.Binding.{assign}
use qsol_fed.Moriarty.Shapes.{
  value_at, member_of, matches_target, expected_families, valid_owner_phases, valid_boundary_ids,
}
use qsol_fed.Base.Inverse.{not-false}
use qsol_fed.Moriarty.Counterexample.{
  counterexample_fields, statuses, failure_kinds, valid_regression_probe,
  counterexample_identity_projection, discovery_valid, evidence_valid, validate_boundary,
  validate_exit_code, validate_resolution, validate_counterexample_shape,
}
use qsol_fed.Moriarty.Assigned.{
  lookup-assign-same, lookup-assign-other, projection-assign, has_exactly-assign,
}

-- the two members that change when a counterexample is resolved
unfoldable pub resolve : Text → Fields → Fields
unfolding assign
resolve commit item =
    assign (codes "status") (str (codes "resolved"))
      (assign (codes "resolution_commit") (str commit) item)

module _ (commit : Text) (item : Fields) where
  resolve-other :
      (k : Text)
      → text_eq (codes "status") k ≡ false
      → text_eq (codes "resolution_commit") k ≡ false
      → value_at k (resolve commit item) ≡ value_at k item
  unfolding resolve value_at
  resolve-other k h g =
      ap (λ o. elim o [ none ↦ null | some v ↦ v ])
        (lookup-assign-other k (codes "status") (str (codes "resolved"))
            (assign (codes "resolution_commit") (str commit) item) h
          ∙ lookup-assign-other k (codes "resolution_commit") (str commit) item g)

  resolve-status : value_at (codes "status") (resolve commit item) ≡ str (codes "resolved")
  unfolding resolve value_at
  resolve-status =
      rw
        (
          value_at,
          lookup-assign-same (codes "status") (str (codes "resolved"))
              (assign (codes "resolution_commit") (str commit) item),
        )
        refl

  resolve-commit : value_at (codes "resolution_commit") (resolve commit item) ≡ str commit
  unfolding resolve value_at text_eq
  resolve-commit =
      rw
        (
          value_at,
          lookup-assign-other (codes "resolution_commit") (codes "status") (str (codes "resolved"))
              (assign (codes "resolution_commit") (str commit) item) refl,
          lookup-assign-same (codes "resolution_commit") (str commit) item,
        )
        refl

  -- Resolving a counterexample changes nothing that its identity is made of.
  resolve-projection :
      counterexample_identity_projection (resolve commit item)
      ≡ counterexample_identity_projection item
  unfolding resolve contains text_eq
  resolve-projection =
      projection-assign (codes "status") (str (codes "resolved"))
        (assign (codes "resolution_commit") (str commit) item) refl
      ∙ projection-assign (codes "resolution_commit") (str commit) item refl

  resolve-discovery : discovery_valid (resolve commit item) ≡ discovery_valid item
  unfolding discovery_valid text_eq
  resolve-discovery =
      rw
        (
          resolve-other (codes "schema") refl refl,
          resolve-other (codes "counterexample_id") refl refl,
          resolve-other (codes "target_commit") refl refl,
          resolve-other (codes "attack_id") refl refl,
        )
        refl

  resolve-evidence : evidence_valid (resolve commit item) ≡ evidence_valid item
  unfolding evidence_valid text_eq
  resolve-evidence =
      rw
        (
          resolve-other (codes "production_credentials_used") refl refl,
          resolve-other (codes "production_targets_used") refl refl,
          resolve-other (codes "constitutional_bypass_used") refl refl,
          resolve-other (codes "authority_effect") refl refl,
          resolve-other (codes "stdout_sha256") refl refl,
          resolve-other (codes "stderr_sha256") refl refl,
          resolve-other (codes "stdout_bytes") refl refl,
          resolve-other (codes "stderr_bytes") refl refl,
          resolve-other (codes "stdout_truncated") refl refl,
          resolve-other (codes "stderr_truncated") refl refl,
        )
        refl

  resolve-exit_code : validate_exit_code (resolve commit item) ≡ validate_exit_code item
  unfolding validate_exit_code text_eq
  resolve-exit_code =
      rw
        (
          resolve-other (codes "failure_kind") refl refl,
          resolve-other (codes "observed_exit_code") refl refl,
        )
        refl

  resolve-id :
      value_at (codes "counterexample_id") (resolve commit item)
      ≡ value_at (codes "counterexample_id") item
  unfolding text_eq
  resolve-id = resolve-other (codes "counterexample_id") refl refl

  resolve-fields :
      has_exactly counterexample_fields item ≡ true
      → has_exactly counterexample_fields (resolve commit item) ≡ true
  unfolding resolve contains text_eq
  resolve-fields h =
      has_exactly-assign counterexample_fields (codes "status") (str (codes "resolved"))
        (assign (codes "resolution_commit") (str commit) item) refl
        (has_exactly-assign counterexample_fields (codes "resolution_commit") (str commit) item refl
          h)

  resolve-boundary :
      validate_boundary item ≡ ok tt → validate_boundary (resolve commit item) ≡ ok tt
  unfolding validate_boundary text_eq ◌>>=◌ raise_if member_of hashable contains
  resolve-boundary h =
      let (discovered, h1) = guard-eq-ok (not (discovery_valid item)) _ _ h in
      let (family, member, h2) =
        >>=-eq-ok (member_of expected_families (value_at (codes "family") item)) _ h1 in
      let (known, h3) = guard-eq-ok (not family) _ _ h2 in
      let (listed, h4) =
        guard-eq-ok
          (not (
            valid_owner_phases (value_at (codes "owner_phases") item)
            && valid_boundary_ids (value_at (codes "boundary_ids") item)))
          _ _ h3 in
      let (probe, probed, h5) =
        >>=-eq-ok (valid_regression_probe (value_at (codes "regression_probe_ids") item)) _ h4 in
      let (known_probe, h6) = guard-eq-ok (not probe) _ _ h5 in
      let (kind, failed, h7) =
        >>=-eq-ok (member_of failure_kinds (value_at (codes "failure_kind") item)) _ h6 in
      let (known_kind, h8) = guard-eq-ok (not kind) _ _ h7 in
      let (status, stated, h9) =
        >>=-eq-ok (member_of statuses (value_at (codes "status") item)) _ h8 in
      let (known_status, h10) = guard-eq-ok (not status) _ _ h9 in
      let evidence = raise_if-eq-ok (not (evidence_valid item)) _ h10 in
      rw
        (
          resolve-discovery,
          resolve-evidence,
          resolve-other (codes "family") refl refl,
          resolve-other (codes "owner_phases") refl refl,
          resolve-other (codes "boundary_ids") refl refl,
          resolve-other (codes "regression_probe_ids") refl refl,
          resolve-other (codes "failure_kind") refl refl,
          resolve-status,
          discovered,
          member,
          known,
          listed,
          probed,
          known_probe,
          failed,
          known_kind,
          evidence,
        )
        refl

  resolve-resolution :
      matches_target commit ≡ true → validate_resolution (resolve commit item) ≡ ok tt
  unfolding validate_resolution text_eq is_literal raise_if
  resolve-resolution m = rw (resolve-status, resolve-commit, m) refl

-- Resolving an accepted counterexample with a well-formed commit leaves it accepted, whatever its status
-- was, and does not change what its identifier is computed from.
pub validate_counterexample_shape-resolve :
    (p : Platform) (commit : Text) (item : Fields)
    → matches_target commit ≡ true
    → validate_counterexample_shape p (dict item) ≡ ok tt
    → (validate_counterexample_shape p (dict (resolve commit item)) ≡ ok tt)
      × (counterexample_identity_projection (resolve commit item)
          ≡ counterexample_identity_projection item)
unfolding validate_counterexample_shape as_dict ◌>>=◌
validate_counterexample_shape-resolve p commit item m h =
    let (exact, h1) = guard-eq-ok (not (has_exactly counterexample_fields item)) _ _ h in
    let (u, bounded, h2) = >>=-eq-ok (validate_boundary item) _ h1 in
    let (v, coded, h3) = >>=-eq-ok (validate_exit_code item) _ h2 in
    let (w, settled, h4) = >>=-eq-ok (validate_resolution item) _ h3 in
    let fields = resolve-fields commit item (not-false _ exact) in
    (
      (raise_if-pass _ _ _ (ap not fields)
          ∙ bind-ok _ (resolve-boundary commit item bounded)
          ∙ bind-ok _ (resolve-exit_code commit item ∙ coded)
          ∙ bind-ok _ (resolve-resolution commit item m)
          ∙ rw (resolve-projection commit item, resolve-id commit item) h4),
      resolve-projection commit item,
    )
