-- ===== src/Examples/Probes.antt =====
-- A corpus of fifteen attacks, a counterexample of one of them, and a registry with it.
use qsol_fed.Base.{
  ℕ, ◌+◌, ◌≡◌, refl, Bool, true, false, not, ◌==◌, ◌++◌, all, List, [], ◌∷◌, replicate, some,
  if◌then◌else◌,
}
use qsol_fed.Base.Result.{ok, ◌>>=◌, raise_if}
use qsol_fed.Base.Int.{pos}
use qsol_fed.Base.Text.{Text, codes, text_eq, text_lt, contains}
use qsol_fed.Json.{Items, Fields, bool, int, str, arr, dict, nil, cons, end, field, has_key}
use qsol_fed.Base.Utf8.{encode}
use qsol_fed.Base.Int.{within}
use qsol_fed.Canonical.Normalize
use qsol_fed.Canonical.Serialize.{serialize}
use qsol_fed.Sdk.Fields.{is_false, is_literal}
use qsol_fed.Sdk.Patterns.{is_sha256_ref}
use qsol_fed.Sdk.Binding.{assign}
use qsol_fed.Examples.{toy}
use qsol_fed.Moriarty.Shapes.{
  value_at, matches_target, is_failure_code, is_size, is_bool, expected_families,
}
use qsol_fed.Moriarty.Corpus.{attack_valid, validate_attack_corpus}
use qsol_fed.Moriarty.Attacks.{AcceptedCorpus, validate_attack_corpus-AcceptedCorpus}
use qsol_fed.Moriarty.Counterexample.{
  counterexample_identity_projection, canonical_ref, validate_counterexample_shape,
}
use qsol_fed.Moriarty.Registry.{Git, validate_registry}
use qsol_fed.Moriarty.History.{AcceptedRegistry, validate_registry-AcceptedRegistry}
use qsol_fed.Moriarty.Replay.{
  ReplayProbe, zero_ref, counterexample_record, generated_counterexample,
  counterexample_failure_matches, verify_accepted_counterexamples,
}
use qsol_fed.Moriarty.Resolved.{resolve, validate_counterexample_shape-resolve}
use qsol_fed.Moriarty.Generated.{FailedResult, generated_counterexample-accepted}
use qsol_fed.Moriarty.Verdicts.{
  Reportable, reported_ok, verdicts, verify_accepted_counterexamples-verdicts,
}

-- an attack with a number of two digits
abbrev attack_of : ℕ → ℕ → Text → Fields
attack_of d u family =
    field (codes "id") (str (b'M' ∷ b'O' ∷ b'R' ∷ b'-' ∷ b'0' ∷ (b'0' + d) ∷ (b'0' + u) ∷ [])) (
      field (codes "family") (str family) (
        field (codes "owner_phases") (arr (cons (str (codes "5A")) nil)) (
          field (codes "boundary_ids") (arr (cons (str (codes "src/canonical.rs")) nil))
            (field (codes "probe_ids") (arr (cons (str (codes "rust_all")) nil)) end))))

abbrev attacks_of : ℕ × ℕ → List Text → Items
attacks_of n [] = nil
attacks_of (d, u) (family ∷ families) =
    cons (dict (attack_of d u family))
      (attacks_of (if u == 9 then (d + 1, 0) else (d, u + 1)) families)

abbrev attacks : Items
attacks = attacks_of (0, 1) expected_families

abbrev pub corpus : Fields
corpus = field (codes "schema") (str (codes "moriarty-attack-corpus/1")) (
    field (codes "protocol") (str (codes "MORIARTY/1")) (
      field (codes "attacks") (arr attacks) (
        field (codes "production_credentials_allowed") (bool false) (
          field (codes "production_targets_allowed") (bool false) (
            field (codes "constitutional_bypass_allowed") (bool false)
              (field (codes "authority_effect") (str (codes "none")) end))))))

corpus-accepted : validate_attack_corpus corpus ≡ ok attacks
unfolding validate_attack_corpus ◌>>=◌ raise_if
corpus-accepted = refl

validate_attack_corpus-AcceptedCorpus_example : AcceptedCorpus corpus attacks
validate_attack_corpus-AcceptedCorpus_example =
    validate_attack_corpus-AcceptedCorpus corpus attacks corpus-accepted

abbrev pub first_attack : Fields
first_attack = attack_of 0 1 (codes "canonical_parser_differentials")

abbrev pub target : Text
target = replicate 40 b'a'

abbrev pub failed_run : Fields
failed_run = field (codes "probe_id") (str (codes "rust_all")) (
    field (codes "ok") (bool false) (
      field (codes "exit_code") (int (pos 101)) (
        field (codes "failure_kind") (str (codes "exit_nonzero")) (
          field (codes "stdout_sha256") (str zero_ref) (
            field (codes "stderr_sha256") (str zero_ref) (
              field (codes "stdout_bytes") (int (pos 12)) (
                field (codes "stderr_bytes") (int (pos 0)) (
                  field (codes "stdout_truncated") (bool false)
                    (field (codes "stderr_truncated") (bool false) end)))))))))

failed_run-FailedResult : FailedResult failed_run
unfolding value_at is_false contains is_literal is_failure_code is_sha256_ref all is_size is_bool
failed_run-FailedResult = record {
  not_ok = refl;
  probe = refl;
  kind = refl;
  code = refl;
  stdout = refl;
  stderr = refl;
  stdout_size = refl;
  stderr_size = refl;
  stdout_cut = refl;
  stderr_cut = refl;
}

abbrev finding_id : Text
finding_id = codes "sha256:" ++ b'4' ∷ replicate 63 b'0'

finding-named :
    canonical_ref toy (
      dict (
        counterexample_identity_projection
          (counterexample_record zero_ref target first_attack failed_run)))
    ≡ ok finding_id
unfolding canonical_ref ◌>>=◌ counterexample_record counterexample_identity_projection serialize
    encode Normalize.nfc within text_eq text_lt contains value_at raise_if
finding-named = refl

first_attack-valid : attack_valid first_attack ≡ true
unfolding attack_valid
first_attack-valid = refl

target-matches : matches_target target ≡ true
unfolding matches_target
target-matches = refl

generated_counterexample-accepted_example :
    (item : Fields) × (generated_counterexample toy target first_attack failed_run ≡ ok item)
    × (validate_counterexample_shape toy (dict item) ≡ ok tt)
    × (counterexample_failure_matches item failed_run ≡ true)
generated_counterexample-accepted_example =
    generated_counterexample-accepted toy target first_attack failed_run first_attack-valid
      target-matches failed_run-FailedResult finding_id finding-named

abbrev resolution : Text
resolution = replicate 40 b'b'

abbrev pub reviewed : Text
reviewed = replicate 40 b'c'

-- a line of three commits
abbrev history : Git
history = record { is_commit = λ c. true; precedes = λ a d. not (text_lt d a) }

-- the finding, resolved
unfoldable pub resolved_finding : Fields
unfolding counterexample_record
resolved_finding = assign (codes "status") (str (codes "resolved")) (
    assign (codes "resolution_commit") (str resolution)
      (counterexample_record finding_id target first_attack failed_run))

abbrev registry : Fields
registry = field (codes "schema") (str (codes "moriarty-counterexample-registry/1")) (
    field (codes "protocol") (str (codes "MORIARTY/1")) (
      field (codes "counterexamples") (arr (cons (dict resolved_finding) nil)) (
        field (codes "unresolved_counterexamples") (int (pos 0))
          (field (codes "authority_effect") (str (codes "none")) end))))

registry-accepted :
    validate_registry history toy attacks reviewed registry ≡ ok (cons (dict resolved_finding) nil)
unfolding resolved_finding assign validate_registry ◌>>=◌ counterexample_record serialize encode
    Normalize.nfc within text_eq text_lt contains value_at raise_if
registry-accepted = refl

validate_registry-AcceptedRegistry_example :
    AcceptedRegistry history toy attacks reviewed registry (cons (dict resolved_finding) nil)
validate_registry-AcceptedRegistry_example =
    validate_registry-AcceptedRegistry history toy attacks reviewed registry
      (cons (dict resolved_finding) nil) registry-accepted

-- the probe fails at the target and passes at the resolution
replayed : ReplayProbe
replayed c index label commit =
    if text_eq label (codes "target")
    then some failed_run
    else some (field (codes "ok") (bool true) (field (codes "exit_code") (int (pos 0)) failed_run))

replayed-Reportable :
    (c : Fields) (i : ℕ) (label commit : Text) (r : Fields)
    → replayed c i label commit ≡ some r
    → Reportable r
unfolding replayed all has_key
replayed-Reportable c i label commit r h = by_label (text_eq label (codes "target")) h
  where
    by_label :
        (b : Bool)
        → (if b
            then some failed_run
            else some (
                field
                  (codes "ok")
                  (bool true)
                  (field (codes "exit_code") (int (pos 0)) failed_run)))
          ≡ some r
        → Reportable r
    by_label true h = let same : failed_run ≡ r = cc in rw (← same) refl
    by_label false h =
        let same : field (codes "ok") (bool true)
              (field (codes "exit_code") (int (pos 0)) failed_run)
            ≡ r =
          cc in
        rw (← same) refl

verify_accepted_counterexamples-verdicts_example :
    (records : List Fields) × (verify_accepted_counterexamples replayed (resolved_finding ∷ []) 0
      ≡ ok records)
    × (reported_ok replayed records ≡ verdicts replayed (resolved_finding ∷ []) 0)
verify_accepted_counterexamples-verdicts_example =
    verify_accepted_counterexamples-verdicts replayed replayed-Reportable (resolved_finding ∷ []) 0

finding-valid :
    validate_counterexample_shape toy
      (dict (counterexample_record finding_id target first_attack failed_run))
    ≡ ok tt
unfolding validate_counterexample_shape ◌>>=◌ counterexample_record serialize encode Normalize.nfc
    within text_eq text_lt contains value_at raise_if
finding-valid = refl

validate_counterexample_shape-resolve_example :
    (validate_counterexample_shape toy (
        dict (resolve resolution (counterexample_record finding_id target first_attack failed_run)))
      ≡ ok tt)
    × (counterexample_identity_projection
          (resolve resolution (counterexample_record finding_id target first_attack failed_run))
        ≡ counterexample_identity_projection
            (counterexample_record finding_id target first_attack failed_run))
unfolding matches_target
validate_counterexample_shape-resolve_example =
    validate_counterexample_shape-resolve toy resolution
      (counterexample_record finding_id target first_attack failed_run) refl finding-valid
