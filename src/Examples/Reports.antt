-- ===== src/Examples/Reports.antt =====
-- A report of a run in which every probe and the one replay passed.
use qsol_fed.Base.{◌≡◌, refl, Bool, true, false, List, [], ◌∷◌, ◌++◌, replicate}
use qsol_fed.Base.Result.{ok, err, ◌>>=◌, raise_if, gate_error}
use qsol_fed.Base.Int.{pos, within}
use qsol_fed.Base.Text.{Text, codes, text_eq, text_lt, contains}
use qsol_fed.Base.Utf8.{encode}
use qsol_fed.Json.{Items, Fields, null, bool, int, str, arr, dict, nil, cons, end, field}
use qsol_fed.Canonical.Normalize
use qsol_fed.Canonical.Serialize.{serialize}
use qsol_fed.Sdk.Binding.{assign}
use qsol_fed.Moriarty.Shapes.{value_at, probes}
use qsol_fed.Moriarty.Replay.{zero_ref, counterexample_record}
use qsol_fed.Examples.{toy}
use qsol_fed.Examples.Probes.{corpus, resolved_finding, reviewed}
use qsol_fed.Phase9.Evidence.{validate_report_common}
use qsol_fed.Phase9.Graduation.{Graduation, validate_report_common-Graduation}

abbrev pub passed_probe : Text → Fields
passed_probe name = field (codes "probe_id") (str name) (
    field (codes "ok") (bool true) (
      field (codes "exit_code") (int (pos 0)) (
        field (codes "failure_kind") null (
          field (codes "stdout_sha256") (str zero_ref) (
            field (codes "stderr_sha256") (str zero_ref) (
              field (codes "stdout_bytes") (int (pos 7)) (
                field (codes "stderr_bytes") (int (pos 0)) (
                  field (codes "stdout_truncated") (bool false)
                    (field (codes "stderr_truncated") (bool false) end)))))))))

abbrev passed_probes : List Text → Items
passed_probes [] = nil
passed_probes (name ∷ names) = cons (dict (passed_probe name)) (passed_probes names)

unfoldable replayed : Fields
unfolding value_at resolved_finding
replayed =
    field (codes "counterexample_id") (value_at (codes "counterexample_id") resolved_finding) (
      field (codes "status") (str (codes "resolved")) (
        field (codes "probe_id") (str (codes "rust_all")) (
          field (codes "ok") (bool true) (
            field (codes "target_reproduced") (bool true) (
              field (codes "resolution_green") (bool true)
                (field (codes "failure_kind") null (field (codes "failure_result") null end)))))))

abbrev corpus_ref : Text
corpus_ref = codes "sha256:" ++ b'2' ∷ replicate 63 b'0'

unfoldable report_with : Bool → Fields
unfolding replayed
report_with graduated = field (codes "schema") (str (codes "moriarty-report/1")) (
    field (codes "protocol") (str (codes "MORIARTY/1")) (
      field (codes "target_commit") (str reviewed) (
        field (codes "corpus_ref") (str corpus_ref) (
          field (codes "operator_profile") (str (codes "provider-neutral-fixed-probe/1")) (
            field (codes "family_count") (int (pos 15)) (
              field (codes "executed_probe_count") (int (pos 13)) (
                field (codes "probe_results") (arr (passed_probes probes)) (
                  field (codes "remediation_replays") (arr (cons (dict replayed) nil)) (
                    field (codes "counterexamples") (arr (cons (dict resolved_finding) nil)) (
                      field (codes "unresolved_counterexamples") (int (pos 0)) (
                        field (codes "graduated") (bool graduated) (
                          field (codes "production_credentials_used") (bool false) (
                            field (codes "production_targets_used") (bool false) (
                              field (codes "constitutional_bypass_used") (bool false) (
                                field (codes "security_proof") (bool false) (
                                  field (codes "no_counterexample_found_implies_none_exist")
                                    (bool false)
                                    (field (codes "authority_effect") (str (codes "none"))
                                      end)))))))))))))))))

report-accepted :
    validate_report_common toy corpus (cons (dict resolved_finding) nil) (report_with true) reviewed
    ≡ ok tt
unfolding report_with validate_report_common ◌>>=◌ raise_if assign counterexample_record serialize
    encode Normalize.nfc within text_eq text_lt contains value_at
report-accepted = refl

-- the same run, reported as a failure
report-refused :
    validate_report_common toy corpus
      (cons (dict resolved_finding) nil)
      (report_with false)
      reviewed
    ≡ err gate_error
unfolding report_with validate_report_common ◌>>=◌ raise_if assign counterexample_record serialize
    encode Normalize.nfc within text_eq text_lt contains value_at
report-refused = refl

validate_report_common-Graduation_example :
    Graduation (cons (dict resolved_finding) nil) (report_with true)
validate_report_common-Graduation_example =
    validate_report_common-Graduation toy corpus (cons (dict resolved_finding) nil)
      (report_with true) reviewed report-accepted
