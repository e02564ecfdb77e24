-- ===== src/Phase9/Evidence.antt =====
-- `validate_report_common`, continued: the replays, the counterexamples and the conclusion.
use qsol_fed.Base.{
  ℕ, ◌+◌, Bool, true, false, ◌&&◌, ◌||◌, not, ◌==◌, List, [], ◌∷◌, leb, Option, none, some,
  if◌then◌else◌,
}
use qsol_fed.Base.Result.{Result, ok, err, ◌>>=◌, ◌>>◌, raise_if, gate_error}
use qsol_fed.Base.Int.{pos}
use qsol_fed.Base.Text.{Text, codes, text_eq, contains}
use qsol_fed.Platform.{Platform}
use qsol_fed.Json.{Value, Items, Fields, null, bool, int, dict, nil, cons, count_items}
use qsol_fed.Sdk.Patterns.{is_text_that}
use qsol_fed.Sdk.Fields.{
  has_exactly, is_literal, is_none, is_false, as_dict, as_list, require, all_items,
}
use qsol_fed.Moriarty.Output.{max_report_counterexamples}
use qsol_fed.Moriarty.Shapes.{value_at, value_eq, is_bool}
use qsol_fed.Moriarty.Corpus.{text_of, validate_attack_corpus}
use qsol_fed.Moriarty.Counterexample.{failure_kinds, canonical_ref, validate_counterexample_shape}
use qsol_fed.Moriarty.Registry.{max_accepted_counterexamples, find_attack, subset_of}
use qsol_fed.Moriarty.Replay.{reported_fields, first_item}
use qsol_fed.Phase9.Claims.{is_true}
use qsol_fed.Phase9.Report.{
  report_fields, replay_fields, replay_failure_kinds, optional_member, is_exit_code, digests_valid,
  cuts_valid, validate_probe_results,
}

-- `registry_by_id.get(id)`: a later entry replaces an earlier one
unfoldable pub find_entry : Text → Items → Option Fields
unfolding value_at text_of text_eq
find_entry id nil = none
find_entry id (cons (dict entry) entries) =
    let later = find_entry id entries in
    elim later [
      | some found ↦ some found
      | none ↦
          if text_eq id (text_of (value_at (codes "counterexample_id") entry))
          then some entry
          else none
    ]
find_entry id (cons _ entries) = find_entry id entries

-- `if failure_result is not None: …`
unfoldable pub validate_failure_result : Value → Value → Result (Unit {0})
unfolding has_exactly value_at value_eq is_bool is_exit_code optional_member digests_valid
    cuts_valid as_dict
validate_failure_result null probe_id = ok tt
validate_failure_result v probe_id = do
  result ← require (as_dict v) (err gate_error)
  raise_if (not (has_exactly reported_fields result)) gate_error
  raise_if (not (value_eq (value_at (codes "probe_id") result) probe_id)) gate_error
  raise_if (not (is_bool (value_at (codes "ok") result))) gate_error
  raise_if (not (is_exit_code (value_at (codes "exit_code") result))) gate_error
  known ← optional_member failure_kinds (value_at (codes "failure_kind") result)
  raise_if (not known) gate_error
  raise_if (not (digests_valid result)) gate_error
  raise_if (not (cuts_valid result)) gate_error

-- the verdict of a replay fits its evidence
unfoldable pub replay_semantics_valid : Fields → Bool
unfolding value_at is_true is_none is_literal
replay_semantics_valid replay =
    if is_true (value_at (codes "ok") replay)
    then is_none (value_at (codes "failure_kind") replay)
      && is_none (value_at (codes "failure_result") replay)
      && is_true (value_at (codes "target_reproduced") replay)
      && (if is_literal (codes "resolved") (value_at (codes "status") replay)
          then is_true (value_at (codes "resolution_green") replay)
          else is_none (value_at (codes "resolution_green") replay))
    else not (is_none (value_at (codes "failure_kind") replay))
      && (if is_literal (codes "target_failure_not_reproduced")
              (value_at (codes "failure_kind") replay)
            || is_literal (codes "resolution_probe_not_green")
                (value_at (codes "failure_kind") replay)
          then not (is_none (value_at (codes "failure_result") replay))
          else true)

-- one round of the loop over the replays
unfoldable pub validate_replay : Items → Value → List Text → Result (List Text)
unfolding as_dict has_exactly value_at text_of contains find_entry value_eq is_bool is_none
    optional_member validate_failure_result replay_semantics_valid
validate_replay registry v replay_ids = do
  replay ← require (as_dict v) (err gate_error)
  raise_if (not (has_exactly replay_fields replay)) gate_error
  let counterexample_id = text_of (value_at (codes "counterexample_id") replay)
  raise_if
      (not (
        is_text_that (λ id. not (contains replay_ids id))
          (value_at (codes "counterexample_id") replay)))
      gate_error
  entry ← require (find_entry counterexample_id registry) (err gate_error)
  raise_if (not (value_eq (value_at (codes "status") replay) (value_at (codes "status") entry)))
      gate_error
  raise_if
      (not (
        value_eq (value_at (codes "probe_id") replay)
          (first_item (value_at (codes "regression_probe_ids") entry))))
      gate_error
  raise_if
      (not (
        is_bool (value_at (codes "ok") replay)
        && is_bool (value_at (codes "target_reproduced") replay)))
      gate_error
  raise_if
      (not (
        is_none (value_at (codes "resolution_green") replay)
        || is_bool (value_at (codes "resolution_green") replay)))
      gate_error
  known ← optional_member replay_failure_kinds (value_at (codes "failure_kind") replay)
  raise_if (not known) gate_error
  validate_failure_result (value_at (codes "failure_result") replay)
      (value_at (codes "probe_id") replay)
  raise_if (not (replay_semantics_valid replay)) gate_error
  ok (counterexample_id ∷ replay_ids)

unfoldable pub validate_each_replay : Items → Items → List Text → Result (List Text)
unfolding validate_replay
validate_each_replay registry nil replay_ids = ok replay_ids
validate_each_replay registry (cons v replays) replay_ids = do
  seen ← validate_replay registry v replay_ids
  validate_each_replay registry replays seen

-- every entry of the registry was replayed
unfoldable pub all_replayed : Items → List Text → Bool
unfolding value_at text_of contains
all_replayed nil replay_ids = true
all_replayed (cons (dict entry) entries) replay_ids =
    contains replay_ids (text_of (value_at (codes "counterexample_id") entry))
    && all_replayed entries replay_ids
all_replayed (cons _ entries) replay_ids = all_replayed entries replay_ids

unfoldable pub validate_remediation_replays : Items → Fields → Result Items
unfolding value_at as_list validate_each_replay all_replayed
validate_remediation_replays registry report = do
  replays ← require (as_list (value_at (codes "remediation_replays") report)) (err gate_error)
  raise_if
      (not (
        count_items replays == count_items registry
        && leb (count_items replays) max_accepted_counterexamples))
      gate_error
  replay_ids ← validate_each_replay registry replays []
  raise_if (not (all_replayed registry replay_ids)) gate_error
  ok replays

-- one round of the loop over the counterexamples
unfoldable pub validate_finding : Platform → Items → Value → ℕ → Result ℕ
unfolding validate_counterexample_shape as_dict value_at text_of find_attack value_eq subset_of
    is_literal
validate_finding p attacks v unresolved = do
  validate_counterexample_shape p v
  item ← require (as_dict v) (err gate_error)
  attack ←
      require (find_attack (text_of (value_at (codes "attack_id") item)) attacks) (err gate_error)
  raise_if (not (value_eq (value_at (codes "family") item) (value_at (codes "family") attack)))
      gate_error
  raise_if
      (not
        (value_eq (value_at (codes "owner_phases") item) (value_at (codes "owner_phases") attack)))
      gate_error
  raise_if
      (not
        (value_eq (value_at (codes "boundary_ids") item) (value_at (codes "boundary_ids") attack)))
      gate_error
  raise_if
      (not (
        subset_of (value_at (codes "regression_probe_ids") item)
          (value_at (codes "probe_ids") attack)))
      gate_error
  ok (
      unresolved
      + (if is_literal (codes "unresolved") (value_at (codes "status") item) then 1 else 0))

unfoldable pub validate_findings : Platform → Items → Items → ℕ → Result ℕ
unfolding validate_finding
validate_findings p attacks nil unresolved = ok unresolved
validate_findings p attacks (cons v items) unresolved = do
  more ← validate_finding p attacks v unresolved
  validate_findings p attacks items more

unfoldable pub validate_report_header : Platform → Fields → Text → Fields → Result (Unit {0})
unfolding has_exactly value_at is_literal canonical_ref value_eq
validate_report_header p report target corpus = do
  raise_if (not (has_exactly report_fields report)) gate_error
  raise_if (not (is_literal (codes "moriarty-report/1") (value_at (codes "schema") report)))
      gate_error
  raise_if (not (is_literal (codes "MORIARTY/1") (value_at (codes "protocol") report))) gate_error
  raise_if (not (is_literal target (value_at (codes "target_commit") report))) gate_error
  corpus_ref ← canonical_ref p (dict corpus)
  raise_if (not (is_literal corpus_ref (value_at (codes "corpus_ref") report))) gate_error
  raise_if
      (not (
        is_literal (codes "provider-neutral-fixed-probe/1")
          (value_at (codes "operator_profile") report)))
      gate_error
  raise_if (not (value_eq (value_at (codes "family_count") report) (int (pos 15)))) gate_error
  raise_if (not (value_eq (value_at (codes "executed_probe_count") report) (int (pos 13))))
      gate_error

-- `all(item["ok"] for item in items)`
abbrev pub passes : Value → Bool
passes (dict item) = is_true (value_at (codes "ok") item)
passes _ = false

abbrev pub is_count : ℕ → Value → Bool
is_count n (int (pos m)) = m == n
is_count n _ = false

abbrev pub is_same_bool : Bool → Value → Bool
is_same_bool true (bool b) = b
is_same_bool false (bool b) = not b
is_same_bool _ _ = false

-- the boundary of the report, and the graduation
unfoldable pub validate_conclusion : Fields → Items → Items → ℕ → Result (Unit {0})
unfolding value_at is_false is_literal all_items is_true
validate_conclusion report results replays unresolved = do
  raise_if
      (not (
        is_false (value_at (codes "production_credentials_used") report)
        && is_false (value_at (codes "production_targets_used") report)
        && is_false (value_at (codes "constitutional_bypass_used") report)
        && is_false (value_at (codes "security_proof") report)
        && is_false (value_at (codes "no_counterexample_found_implies_none_exist") report)))
      gate_error
  raise_if (not (is_literal (codes "none") (value_at (codes "authority_effect") report))) gate_error
  raise_if
      (not (
        is_same_bool (all_items passes results && all_items passes replays && unresolved == 0)
          (value_at (codes "graduated") report)))
      gate_error

-- `load` of the corpus and of the registry are arguments.
unfoldable pub validate_report_common :
    Platform → Fields → Items → Fields → Text → Result (Unit {0})
unfolding validate_report_header validate_probe_results validate_remediation_replays value_at
    as_list validate_attack_corpus validate_findings validate_conclusion
validate_report_common p corpus registry report target = do
  validate_report_header p report target corpus
  results ← validate_probe_results report
  replays ← validate_remediation_replays registry report
  counterexamples ← require (as_list (value_at (codes "counterexamples") report)) (err gate_error)
  raise_if (not (leb (count_items counterexamples) max_report_counterexamples)) gate_error
  attacks ← validate_attack_corpus corpus
  unresolved ← validate_findings p attacks counterexamples 0
  raise_if (not (is_count unresolved (value_at (codes "unresolved_counterexamples") report)))
      gate_error
  validate_conclusion report results replays unresolved
