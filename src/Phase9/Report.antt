-- ===== src/Phase9/Report.antt =====
-- `validate_report_common` of tools/validate_phase9_gate.py: the report of the harness. A number that is
-- compared and is no integer raises TypeError, as texts and None do; floats are not modelled.
use qsol_fed.Base.{
  ℕ, Bool, true, false, ◌&&◌, ◌||◌, not, ◌==◌, List, [], ◌∷◌, all, leb, ltb, if◌then◌else◌,
}
use qsol_fed.Base.Result.{Result, ok, err, ◌>>=◌, ◌>>◌, raise_if, gate_error, type_error}
use qsol_fed.Base.Int.{pos, negsuc}
use qsol_fed.Base.Text.{Text, codes, contains}
use qsol_fed.Json.{Value, Items, Fields, null, bool, int, dict, nil, cons, count_items}
use qsol_fed.Sdk.Patterns.{is_text_that, is_sha256_ref}
use qsol_fed.Sdk.Fields.{has_exactly, hashable, is_literal, is_none, as_dict, as_list, require}
use qsol_fed.Moriarty.Output.{max_probe_output_bytes}
use qsol_fed.Moriarty.Shapes.{value_at, value_eq, is_size, is_failure_code, is_bool, probes}
use qsol_fed.Moriarty.Corpus.{text_of}
use qsol_fed.Moriarty.Counterexample.{failure_kinds}
use qsol_fed.Moriarty.Replay.{reported_fields}
use qsol_fed.Phase9.Claims.{is_true}

abbrev pub report_fields : List Text
report_fields =
    codes "schema"
    ∷ codes "protocol"
    ∷ codes "target_commit"
    ∷ codes "corpus_ref"
    ∷ codes "operator_profile"
    ∷ codes "family_count"
    ∷ codes "executed_probe_count"
    ∷ codes "probe_results"
    ∷ codes "remediation_replays"
    ∷ codes "counterexamples"
    ∷ codes "unresolved_counterexamples"
    ∷ codes "graduated"
    ∷ codes "production_credentials_used"
    ∷ codes "production_targets_used"
    ∷ codes "constitutional_bypass_used"
    ∷ codes "security_proof"
    ∷ codes "no_counterexample_found_implies_none_exist"
    ∷ codes "authority_effect"
    ∷ []

abbrev pub replay_fields : List Text
replay_fields =
    codes "counterexample_id"
    ∷ codes "status"
    ∷ codes "probe_id"
    ∷ codes "ok"
    ∷ codes "target_reproduced"
    ∷ codes "resolution_green"
    ∷ codes "failure_kind"
    ∷ codes "failure_result"
    ∷ []

abbrev pub replay_failure_kinds : List Text
replay_failure_kinds =
    codes "target_failure_not_reproduced"
    ∷ codes "resolution_probe_not_green"
    ∷ codes "replay_setup_error"
    ∷ []

-- `v in {None, …}`
unfoldable pub optional_member : List Text → Value → Result Bool
unfolding hashable is_none contains
optional_member names v =
    if hashable v then ok (is_none v || is_text_that (contains names) v) else err type_error

-- `v is None or (type(v) is int and -2147483648 <= v <= 2147483647)`
unfoldable pub is_exit_code : Value → Bool
is_exit_code null = true
is_exit_code (int (pos n)) = leb n 0x7FFFFFFF
is_exit_code (int (negsuc n)) = ltb n 0x80000000
is_exit_code _ = false

-- `0 < v <= bound`
unfoldable pub is_positive_size : ℕ → Value → Result Bool
is_positive_size bound (int (pos n)) = ok (leb 1 n && leb n bound)
is_positive_size bound (int (negsuc n)) = ok false
is_positive_size bound (bool b) = ok (b && leb 1 bound)
is_positive_size bound _ = err type_error

-- an output that was cut
unfoldable pub validate_stream : Value → Value → Value → Result (Unit {0})
unfolding is_positive_size is_literal
validate_stream (bool true) bytes failure_kind = do
  positive ← is_positive_size max_probe_output_bytes bytes
  raise_if (not positive) gate_error
  raise_if (not (is_literal (codes "tool_error") failure_kind)) gate_error
validate_stream _ bytes failure_kind = ok tt

-- the exit code and the kind of failure fit together
unfoldable pub outcome_valid : Fields → Bool
unfolding value_at value_eq is_true is_none is_literal is_failure_code
outcome_valid item =
    if is_true (value_at (codes "ok") item)
    then value_eq (value_at (codes "exit_code") item) (int (pos 0))
      && is_none (value_at (codes "failure_kind") item)
      && not (is_true (value_at (codes "stdout_truncated") item))
      && not (is_true (value_at (codes "stderr_truncated") item))
    else if is_literal (codes "exit_nonzero") (value_at (codes "failure_kind") item)
    then is_failure_code (value_at (codes "exit_code") item)
    else is_none (value_at (codes "exit_code") item)

unfoldable pub digests_valid : Fields → Bool
unfolding value_at is_sha256_ref is_size
digests_valid item =
    is_sha256_ref (value_at (codes "stdout_sha256") item)
    && is_sha256_ref (value_at (codes "stderr_sha256") item)
    && is_size max_probe_output_bytes (value_at (codes "stdout_bytes") item)
    && is_size max_probe_output_bytes (value_at (codes "stderr_bytes") item)

unfoldable pub cuts_valid : Fields → Bool
unfolding value_at is_bool
cuts_valid item =
    is_bool (value_at (codes "stdout_truncated") item)
    && is_bool (value_at (codes "stderr_truncated") item)

unfoldable pub validate_probe_result : Value → Result (Unit {0})
unfolding as_dict has_exactly value_at contains is_bool is_exit_code optional_member cuts_valid
    outcome_valid validate_stream digests_valid
validate_probe_result v = do
  item ← require (as_dict v) (err gate_error)
  raise_if (not (has_exactly reported_fields item)) gate_error
  raise_if (not (is_text_that (contains probes) (value_at (codes "probe_id") item))) gate_error
  raise_if (not (is_bool (value_at (codes "ok") item))) gate_error
  raise_if (not (is_exit_code (value_at (codes "exit_code") item))) gate_error
  known ← optional_member failure_kinds (value_at (codes "failure_kind") item)
  raise_if (not known) gate_error
  raise_if (not (cuts_valid item)) gate_error
  raise_if (not (outcome_valid item)) gate_error
  validate_stream (value_at (codes "stdout_truncated") item) (value_at (codes "stdout_bytes") item)
      (value_at (codes "failure_kind") item)
  validate_stream (value_at (codes "stderr_truncated") item) (value_at (codes "stderr_bytes") item)
      (value_at (codes "failure_kind") item)
  raise_if (not (digests_valid item)) gate_error

-- `for item in items: …`
unfoldable pub validate_each : (Value → Result (Unit {0})) → Items → Result (Unit {0})
validate_each check nil = ok tt
validate_each check (cons v items) = do check v; validate_each check items

-- `{item.get("probe_id") for item in probe_results if isinstance(item, dict)}`
unfoldable pub probe_ids : Items → Result (List Value)
unfolding value_at hashable
probe_ids nil = ok []
probe_ids (cons (dict item) items) = do
  raise_if (not (hashable (value_at (codes "probe_id") item))) type_error
  rest ← probe_ids items
  ok (value_at (codes "probe_id") item ∷ rest)
probe_ids (cons _ items) = probe_ids items

-- the texts of the identifiers
unfoldable pub id_texts : List Value → List Text
unfolding text_of
id_texts [] = []
id_texts (v ∷ vs) = text_of v ∷ id_texts vs

-- the set of the identifiers is the set of the probes
unfoldable pub is_probe_set : List Value → Bool
unfolding all contains id_texts
is_probe_set ids = all (is_text_that (contains probes)) ids && all (contains (id_texts ids)) probes

unfoldable pub validate_probe_results : Fields → Result Items
unfolding value_at as_list probe_ids is_probe_set validate_each validate_probe_result
validate_probe_results report = do
  results ← require (as_list (value_at (codes "probe_results") report)) (err gate_error)
  raise_if (not (count_items results == 13)) gate_error
  ids ← probe_ids results
  raise_if (not (is_probe_set ids)) gate_error
  validate_each validate_probe_result results
  ok results
