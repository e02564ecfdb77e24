-- ===== src/Moriarty/Assemble.antt =====
-- The part of `main` between the validated registry and the published report: which probes run, which
-- counterexamples are generated, and the report.
use qsol_fed.Base.{
  ℕ, ◌+◌, Bool, true, false, ◌&&◌, ◌||◌, not, ◌==◌, List, [], ◌∷◌, ◌++◌, ltb, length, Option, none,
  some, if◌then◌else◌,
}
use qsol_fed.Base.Result.{
  Result, ok, ◌>>=◌, ◌>>◌, raise_if, moriarty_report_counterexample_count_exceeded,
  moriarty_report_size_exceeded, moriarty_target_or_harness_changed_during_probes,
}
use qsol_fed.Base.Int.{pos}
use qsol_fed.Base.Text.{Text, codes, text_eq, contains}
use qsol_fed.Base.Utf8.{encode}
use qsol_fed.Platform.{Platform}
use qsol_fed.Json.{Items, Fields, bool, int, str, arr, dict, nil, cons, end, field}
use qsol_fed.Json.Lists.{as_items}
use qsol_fed.Canonical.Serialize.{serialize}
use qsol_fed.Sdk.Patterns.{is_text_that}
use qsol_fed.Moriarty.Output.{max_report_counterexamples, max_report_bytes}
use qsol_fed.Moriarty.Shapes.{value_at, expected_families}
use qsol_fed.Moriarty.Corpus.{text_of}
use qsol_fed.Moriarty.Counterexample.{canonical_ref}
use qsol_fed.Moriarty.Unresolved.{is_open, text_at}
use qsol_fed.Moriarty.Replay.{
  ReplayProbe, same_bool, first_item, report_probe_result, generated_counterexample,
  verify_accepted_counterexamples,
}
use qsol_fed.Tree.Objects.{Repository}
use qsol_fed.Tree.Worktree.{Worktree, git_head, tracked_tree_clean, harness_files_match_target}

unfoldable pub item_texts : Items → List Text
unfolding text_of
item_texts nil = []
item_texts (cons v items) = text_of v ∷ item_texts items

-- the texts of a list under one key of a validated record
unfoldable pub texts_under : Text → Fields → List Text
unfolding value_at item_texts
texts_under key record_fields = elim (value_at key record_fields) [
  | arr items ↦ item_texts items
  | _ ↦ []
]

unfoldable pub texts_of_all : Text → List Fields → List Text
unfolding texts_under
texts_of_all key [] = []
texts_of_all key (fields ∷ others) = texts_under key fields ++ texts_of_all key others

-- each text at its first occurrence
unfoldable pub first_occurrences : List Text → List Text → List Text
unfolding contains
first_occurrences seen [] = []
first_occurrences seen (probe_id ∷ requested) = elim (contains seen probe_id) [
  | true ↦ first_occurrences seen requested
  | false ↦ probe_id ∷ first_occurrences (probe_id ∷ seen) requested
]

unfoldable pub ordered_probe_ids : List Fields → List Fields → List Text
unfolding texts_of_all first_occurrences
ordered_probe_ids attacks accepted = first_occurrences [] (
    texts_of_all (codes "probe_ids") attacks
    ++ texts_of_all (codes "regression_probe_ids") accepted)

-- `probe_users.get(probe_id, [])`: an attack comes as often as it names the probe
unfoldable pub named_by : Text → List Text → Fields → List Fields
unfolding text_eq
named_by probe_id [] attack = []
named_by probe_id (name ∷ names) attack =
    let later = named_by probe_id names attack in
    if text_eq name probe_id then attack ∷ later else later

unfoldable pub probe_users : Text → List Fields → List Fields
unfolding named_by texts_under
probe_users probe_id [] = []
probe_users probe_id (attack ∷ attacks) =
    named_by probe_id (texts_under (codes "probe_ids") attack) attack
    ++ probe_users probe_id attacks

-- the key of an unresolved accepted counterexample
unfoldable pub is_known : Text → Text → Fields → Bool
unfolding value_at text_eq
is_known attack_id probe_id item =
    is_open item
    && (text_eq (text_at (codes "attack_id") item) attack_id
        && text_eq (text_of (first_item (value_at (codes "regression_probe_ids") item))) probe_id)

unfoldable pub any_known : Text → Text → List Fields → Bool
unfolding is_known
any_known attack_id probe_id [] = false
any_known attack_id probe_id (item ∷ accepted) =
    is_known attack_id probe_id item || any_known attack_id probe_id accepted

-- `result["ok"]`, a Boolean in what a run of a probe returns
abbrev pub succeeded : Fields → Bool
succeeded result = same_bool (value_at (codes "ok") result) (bool true)

-- the attack to which the failure of a probe belongs, if it is one and the failure is new
unfoldable pub new_finding : List Fields → List Fields → Text → Fields → Option Fields
unfolding probe_users any_known value_at contains
new_finding attacks accepted probe_id result = elim (probe_users probe_id attacks) [
  | [] ↦ none
  | owner ∷ [] ↦
      if is_text_that (contains (codes "exit_nonzero" ∷ codes "timeout" ∷ codes "tool_error" ∷ []))
          (value_at (codes "failure_kind") result)
        && not (any_known (text_at (codes "id") owner) probe_id accepted)
      then some owner
      else none
  | owner ∷ other ∷ owners ↦ none
]

-- the results, in the order of the probes
abbrev pub Results : Type 0
Results = List (Text × Fields)

unfoldable pub all_probes_ok : Results → Bool
all_probes_ok [] = true
all_probes_ok ((probe_id, result) ∷ results) = succeeded result && all_probes_ok results

unfoldable pub all_replays_ok : List Fields → Bool
all_replays_ok [] = true
all_replays_ok (replay ∷ replays) = succeeded replay && all_replays_ok replays

unfoldable pub count_open : List Fields → ℕ
unfolding value_at
count_open [] = 0
count_open (item ∷ accepted) = (if is_open item then 1 else 0) + count_open accepted

-- `_run_probe_with_cleanup(probe_id, …)`, with the index of the probe
unfoldable pub run_probes : (Text → ℕ → Result Fields) → List Text → ℕ → Result Results
run_probes run_probe [] index = ok []
run_probes run_probe (probe_id ∷ probe_ids) index = do
  result ← run_probe probe_id index
  results ← run_probes run_probe probe_ids (index + 1)
  ok ((probe_id, result) ∷ results)

unfoldable pub report_results : Results → Result (List Fields)
unfolding report_probe_result
report_results [] = ok []
report_results ((probe_id, result) ∷ results) = do
  reported ← report_probe_result result
  others ← report_results results
  ok (reported ∷ others)

unfoldable pub report_record :
    Text → Text → List Fields → List Fields → List Fields → ℕ → Bool → Fields
report_record target corpus_ref results replays counterexamples unresolved graduated =
    field (codes "schema") (str (codes "moriarty-report/1")) (
      field (codes "protocol") (str (codes "MORIARTY/1")) (
        field (codes "target_commit") (str target) (
          field (codes "corpus_ref") (str corpus_ref) (
            field (codes "operator_profile") (str (codes "provider-neutral-fixed-probe/1")) (
              field (codes "family_count") (int (pos (length expected_families))) (
                field (codes "executed_probe_count") (int (pos (length results))) (
                  field (codes "probe_results") (arr (as_items results)) (
                    field (codes "remediation_replays") (arr (as_items replays)) (
                      field (codes "counterexamples") (arr (as_items counterexamples)) (
                        field (codes "unresolved_counterexamples") (int (pos unresolved)) (
                          field (codes "graduated") (bool graduated) (
                            field (codes "production_credentials_used") (bool false) (
                              field (codes "production_targets_used") (bool false) (
                                field (codes "constitutional_bypass_used") (bool false) (
                                  field (codes "security_proof") (bool false) (
                                    field (codes "no_counterexample_found_implies_none_exist")
                                      (bool false)
                                      (field (codes "authority_effect") (str (codes "none"))
                                        end)))))))))))))))))

-- the checkout and the harness are still those of the target
unfoldable pub unchanged : Repository → Worktree → Text → Result (Unit {0})
unfolding git_head text_eq tracked_tree_clean harness_files_match_target
unchanged repository worktree target = do
  head ← git_head worktree.rev_parse_head
  raise_if
      (not (text_eq head target)
        || (not (tracked_tree_clean repository worktree)
            || not (harness_files_match_target repository worktree target [])))
      moriarty_target_or_harness_changed_during_probes

module _ (p : Platform) where
  unfoldable pub generate : Text → List Fields → List Fields → Results → Result (List Fields)
  unfolding new_finding generated_counterexample value_at
  generate target attacks accepted [] = ok []
  generate target attacks accepted ((probe_id, result) ∷ results) = elim (succeeded result) [
    | true ↦ generate target attacks accepted results
    | false ↦ elim (new_finding attacks accepted probe_id result) [
      | none ↦ generate target attacks accepted results
      | some owner ↦ do
        generated ← generated_counterexample p target owner result
        others ← generate target attacks accepted results
        ok (generated ∷ others)
    ]
  ]

  unfoldable pub build_report :
      Repository
      → Worktree
      → Text
      → Fields
      → List Fields
      → List Fields
      → Results
      → List Fields
      → Result Fields
  unfolding generate count_open all_probes_ok all_replays_ok value_at unchanged canonical_ref
      report_results report_record serialize encode
  build_report repository worktree target corpus attacks accepted results replays = do
    generated ← generate target attacks accepted results
    let unresolved = count_open accepted + length generated
    unchanged repository worktree target
    corpus_ref ← canonical_ref p (dict corpus)
    reported ← report_results results
    let report =
        report_record target corpus_ref reported replays (accepted ++ generated) unresolved
          (unresolved == 0 && (all_probes_ok results && all_replays_ok replays))
    raise_if (ltb max_report_counterexamples (length (accepted ++ generated)))
        moriarty_report_counterexample_count_exceeded
    text ← serialize p (dict report)
    encoded ← encode text
    raise_if (ltb max_report_bytes (length encoded)) moriarty_report_size_exceeded
    ok report

  unfoldable pub run_harness :
      Repository
      → Worktree
      → (Text → ℕ → Result Fields)
      → ReplayProbe
      → Text
      → Fields
      → List Fields
      → List Fields
      → Result Fields
  unfolding run_probes ordered_probe_ids verify_accepted_counterexamples build_report
  run_harness repository worktree run_probe run_replay target corpus attacks accepted = do
    results ← run_probes run_probe (ordered_probe_ids attacks accepted) 0
    replays ← verify_accepted_counterexamples run_replay accepted 0
    build_report repository worktree target corpus attacks accepted results replays
