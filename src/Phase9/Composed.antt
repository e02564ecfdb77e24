-- ===== src/Phase9/Composed.antt =====
-- The report that the harness builds, at the conclusion of the gate.
use qsol_fed.Base.{
  ℕ, ◌+◌, ◌≤◌, ◌≡◌, refl, sym, ap, ◌∙◌, true, ◌&&◌, ◌==◌, List, ◌++◌, ltb, ltb-false→le, length,
}
use mathlib.Core.Path.{subst}
use qsol_fed.Base.Utf8.{encode}
use qsol_fed.Canonical.Serialize.{serialize}
use qsol_fed.Base.Result.{Result, ok, guard-eq-ok, >>=-eq-ok}
use qsol_fed.Base.Inverse.{ok-value}
use qsol_fed.Base.Int.{pos}
use qsol_fed.Base.Text.{Text, codes, text_eq, contains}
use qsol_fed.Platform.{Platform}
use qsol_fed.Json.{Fields, bool, int, str, arr, dict, lookup}
use qsol_fed.Json.Lists.{as_items}
use qsol_fed.Sdk.Fields.{all_items}
use qsol_fed.Moriarty.Shapes.{value_at}
use qsol_fed.Moriarty.Output.{max_report_counterexamples, max_report_bytes}
use qsol_fed.Moriarty.Unresolved.{count_unresolved}
use qsol_fed.Moriarty.Replay.{ReplayProbe, verify_accepted_counterexamples}
use qsol_fed.Moriarty.Counterexample.{canonical_ref}
use qsol_fed.Moriarty.Assemble.{
  Results, all_probes_ok, all_replays_ok, count_open, report_results, generate, report_record,
  unchanged, run_probes, ordered_probe_ids, build_report, run_harness,
}
use qsol_fed.Tree.Objects.{Repository}
use qsol_fed.Tree.Worktree.{Worktree}
use qsol_fed.Tree.Clean.{CleanTree}
use qsol_fed.Phase9.Evidence.{passes, validate_conclusion}
use qsol_fed.Moriarty.Distinct.{distinct}
use qsol_fed.Phase9.Run.{
  FromRun, report_results-FromRun, requested_probes, ordered_probe_ids-Tracked,
  ordered_probe_ids-requested_probes,
}
use qsol_fed.Phase9.Conclusion.{conclusion-holds, same_verdict, unchanged-clean}
use qsol_fed.Phase9.Built.{replays-pass, count-open, generate-open, report_results-pass}

-- what a report says of the run of the probes `probe_ids` and of the replays
pub record Concluded (p : Platform) (repository : Repository) (worktree : Worktree)
    (run_probe : Text → ℕ → Result Fields) (run_replay : ReplayProbe) (target : Text)
    (attacks accepted : List Fields) (probe_ids : List Text) (results : Results) (report : Fields)
    : Type 0 where
  pub of_target : value_at (codes "target_commit") report ≡ str target
  pub each_once : distinct probe_ids ≡ true
  pub requested :
      (probe_id : Text)
      → contains probe_ids probe_id ≡ contains (requested_probes attacks accepted) probe_id
  pub reported : List Fields
  pub from_run : FromRun run_probe probe_ids 0 reported
  pub has_results : value_at (codes "probe_results") report ≡ arr (as_items reported)
  pub as_run : all_items passes (as_items reported) ≡ all_probes_ok results
  pub replays : List Fields
  pub replayed : verify_accepted_counterexamples run_replay accepted 0 ≡ ok replays
  pub has_replays : value_at (codes "remediation_replays") report ≡ arr (as_items replays)
  pub generated : List Fields
  pub found : generate p target attacks accepted results ≡ ok generated
  pub has_counterexamples :
      value_at (codes "counterexamples") report ≡ arr (as_items (accepted ++ generated))
  pub bounded : length (accepted ++ generated) ≤ 48
  pub counted :
      value_at (codes "unresolved_counterexamples") report
      ≡ int (pos (count_unresolved (as_items (accepted ++ generated))))
  pub graduated :
      value_at (codes "graduated") report
      ≡ bool (
          all_items passes (as_items reported)
          && all_items passes (as_items replays)
          && count_unresolved (as_items (accepted ++ generated)) == 0)
  pub gate_agrees :
      validate_conclusion report
        (as_items reported)
        (as_items replays)
        (count_unresolved (as_items (accepted ++ generated)))
      ≡ ok tt
  pub clean : CleanTree repository worktree

built-Concluded :
    (p : Platform) (repository : Repository) (worktree : Worktree)
    (run_probe : Text → ℕ → Result Fields) (run_replay : ReplayProbe) (target corpus_ref : Text)
    (attacks accepted generated : List Fields) (results : Results) (reported replays : List Fields)
    → FromRun run_probe (ordered_probe_ids attacks accepted) 0 reported
    → verify_accepted_counterexamples run_replay accepted 0 ≡ ok replays
    → generate p target attacks accepted results ≡ ok generated
    → report_results results ≡ ok reported
    → length (accepted ++ generated) ≤ 48
    → CleanTree repository worktree
    → Concluded p repository worktree run_probe run_replay target attacks accepted
        (ordered_probe_ids attacks accepted)
        results
        (report_record target corpus_ref reported replays
          (accepted ++ generated)
          (count_open accepted + length generated)
          (count_open accepted + length generated == 0
            && (all_probes_ok results && all_replays_ok replays)))
unfolding report_record value_at lookup text_eq contains
built-Concluded p repository worktree run_probe run_replay target corpus_ref attacks accepted
      generated results reported replays from_run replayed found told bounded clean =
    let opened = generate-open p target attacks accepted results generated found in
    let verdicts = report_results-pass results reported told in
    let order = ordered_probe_ids-Tracked attacks accepted in
    let count : count_unresolved (as_items (accepted ++ generated))
        ≡ count_open accepted + length generated =
      count-open accepted generated ∙ ap (λ n. count_open accepted + n) opened in
    let graduated =
      same_verdict _ _ _ _ _ _ verdicts (replays-pass replays) (ap (λ n. n == 0) count) in
    record {
      of_target = refl;
      each_once = order.all_distinct;
      requested = λ probe_id. ordered_probe_ids-requested_probes attacks accepted probe_id;
      reported = reported;
      from_run = from_run;
      has_results = refl;
      as_run = verdicts;
      replays = replays;
      replayed = replayed;
      has_replays = refl;
      generated = generated;
      found = found;
      has_counterexamples = refl;
      bounded = bounded;
      counted = ap (λ n. int (pos n)) (sym count);
      gate_agrees =
          conclusion-holds target corpus_ref reported replays (accepted ++ generated)
            (count_open accepted + length generated) _ _ (as_items reported) (as_items replays)
            graduated;
      graduated = ap bool (sym graduated);
      clean = clean;
    }

-- the report of a run, against what the gate computes
build_report-Concluded :
    (p : Platform) (repository : Repository) (worktree : Worktree)
    (run_probe : Text → ℕ → Result Fields) (run_replay : ReplayProbe) (target : Text)
    (corpus : Fields) (attacks accepted : List Fields) (results : Results) (replays : List Fields)
    (report : Fields)
    → run_probes run_probe (ordered_probe_ids attacks accepted) 0 ≡ ok results
    → verify_accepted_counterexamples run_replay accepted 0 ≡ ok replays
    → build_report p repository worktree target corpus attacks accepted results replays ≡ ok report
    → Concluded p repository worktree run_probe run_replay target attacks accepted
        (ordered_probe_ids attacks accepted)
        results
        report
unfolding build_report
build_report-Concluded p repository worktree run_probe run_replay target corpus attacks accepted
      results replays report ran replayed h =
    let probe_ids = ordered_probe_ids attacks accepted in
    let (generated, made, h1) = >>=-eq-ok (generate p target attacks accepted results) _ h in
    let unresolved = count_open accepted + length generated in
    let (u, same, h2) = >>=-eq-ok (unchanged repository worktree target) _ h1 in
    let (corpus_ref, named, h3) = >>=-eq-ok (canonical_ref p (dict corpus)) _ h2 in
    let (reported, told, h4) = >>=-eq-ok (report_results results) _ h3 in
    let verdict = unresolved == 0 && (all_probes_ok results && all_replays_ok replays) in
    let built =
      report_record target corpus_ref reported replays (accepted ++ generated) unresolved verdict in
    let (bounded, h5) =
      guard-eq-ok (ltb max_report_counterexamples (length (accepted ++ generated))) _ _ h4 in
    let (text, serialized, h6) = >>=-eq-ok (serialize p (dict built)) _ h5 in
    let (encoded, encodes, h7) = >>=-eq-ok (encode text) _ h6 in
    let (small, h8) = guard-eq-ok (ltb max_report_bytes (length encoded)) _ _ h7 in
    subst
      (Concluded p repository worktree run_probe run_replay target attacks accepted probe_ids
        results)
      (ok-value h8)
      (built-Concluded p repository worktree run_probe run_replay target corpus_ref attacks accepted
        generated results reported replays
        (report_results-FromRun run_probe probe_ids 0 results reported ran told) replayed made told
        (ltb-false→le max_report_counterexamples (length (accepted ++ generated)) bounded)
        (unchanged-clean repository worktree target same))

-- When the harness returns a report, the probes that the attacks and the counterexamples ask for have run, each
-- once; and for each of them, in the order of the runs, the report has one record, with exactly the reported
-- fields, and in each of them what the run returned. Its replays are those of the accepted counterexamples, and
-- its counterexamples, at most 48, are the accepted ones and then those generated from the results; it counts the
-- unresolved ones. The gate computes the same graduation and accepts this part of the report. And the working
-- tree was found clean again after the last probe.
pub run_harness-Concluded :
    (p : Platform) (repository : Repository) (worktree : Worktree)
    (run_probe : Text → ℕ → Result Fields) (run_replay : ReplayProbe) (target : Text)
    (corpus : Fields) (attacks accepted : List Fields) (report : Fields)
    → run_harness p repository worktree run_probe run_replay target corpus attacks accepted
      ≡ ok report
    → (results : Results) × (run_probes run_probe (ordered_probe_ids attacks accepted) 0
        ≡ ok results)
      × Concluded p repository worktree run_probe run_replay target attacks accepted
          (ordered_probe_ids attacks accepted)
          results
          report
unfolding run_harness
run_harness-Concluded p repository worktree run_probe run_replay target corpus attacks accepted
      report h =
    let (results, ran, h1) =
      >>=-eq-ok (run_probes run_probe (ordered_probe_ids attacks accepted) 0) _ h in
    let (replays, replayed, h2) =
      >>=-eq-ok (verify_accepted_counterexamples run_replay accepted 0) _ h1 in
    (
      results,
      ran,
      build_report-Concluded p repository worktree run_probe run_replay target corpus attacks
          accepted results replays report ran replayed h2,
    )
