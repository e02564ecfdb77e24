-- ===== src/Phase9/Graduation.antt =====
-- When a report of the harness may say that the reviewed commit graduated.
use qsol_fed.Base.{
  ℕ, ◌+◌, ◌≤◌, ◌≡◌, refl, ◌∙◌, Bool, true, false, ◌&&◌, not, ◌==◌, ==_iff, all, leb, leb→le, arith,
  [],
}
use qsol_fed.Base.Result.{ok, guard-eq-ok, raise_if-eq-ok, >>=-eq-ok}
use qsol_fed.Base.Int.{pos, negsuc}
use qsol_fed.Base.Text.{Text, codes}
use qsol_fed.Platform.{Platform}
use qsol_fed.Json.{Value, Items, Fields, bool, int, arr, nil, cons, count_items}
use qsol_fed.Sdk.Fields.{all_items, any_item}
use qsol_fed.Moriarty.Output.{max_report_counterexamples}
use qsol_fed.Moriarty.Shapes.{value_at, probes}
use qsol_fed.Moriarty.Corpus.{text_of, validate_attack_corpus}
use qsol_fed.Moriarty.Counterexample.{validate_counterexample_shape}
use qsol_fed.Moriarty.Registry.{find_attack}
use qsol_fed.Moriarty.Unresolved.{count_unresolved, count-cons}
use qsol_fed.Sdk.Found.{as_dict-found, require-found, as_list-found}
use qsol_fed.Base.Inverse.{not-false, ok-value}
use qsol_fed.Phase9.Report.{probe_ids, validate_each, validate_probe_result, validate_probe_results}
use qsol_fed.Phase9.Covered.{
  is_result_of, is_replayed, probe_ids-covered, validate_each_replay-covered,
}
use qsol_fed.Phase9.Evidence.{
  validate_report_header, validate_each_replay, validate_remediation_replays, validate_finding,
  validate_findings, passes, is_count, is_same_bool, validate_conclusion, validate_report_common,
}

-- what an accepted report says of the run
pub record Graduation (registry : Items) (report : Fields) : Type 0 where
  pub results : Items
  pub has_results : value_at (codes "probe_results") report ≡ arr results
  pub count_results : count_items results ≡ 13
  pub every_probe : all (λ name. any_item (is_result_of name) results) probes ≡ true
  pub replays : Items
  pub has_replays : value_at (codes "remediation_replays") report ≡ arr replays
  pub count_replays : count_items replays ≡ count_items registry
  pub every_entry : all_items (is_replayed replays) registry ≡ true
  pub counterexamples : Items
  pub has_counterexamples : value_at (codes "counterexamples") report ≡ arr counterexamples
  pub bounded : count_items counterexamples ≤ 48
  pub counted :
      value_at (codes "unresolved_counterexamples") report
      ≡ int (pos (count_unresolved counterexamples))
  pub graduated :
      value_at (codes "graduated") report
      ≡ bool (
          all_items passes results
          && all_items passes replays
          && count_unresolved counterexamples == 0)

same_bool-eq : (b : Bool) (v : Value) → is_same_bool b v ≡ true → v ≡ bool b
same_bool-eq true (bool true) h = refl
same_bool-eq true (bool false) h = cc
same_bool-eq true _ h = cc
same_bool-eq false (bool false) h = refl
same_bool-eq false (bool true) h = cc
same_bool-eq false _ h = cc

count-eq : (n : ℕ) (v : Value) → is_count n v ≡ true → v ≡ int (pos n)
count-eq n (int (pos m)) h = let same : m ≡ n = (==_iff m n).0 h in rw same refl
count-eq n (int (negsuc m)) h = cc
count-eq n _ h = cc

first-of : (x y : Bool) → (x && y) ≡ true → x ≡ true
first-of x y h = ground arith

module _ (p : Platform) (attacks : Items) where
  finding-counted :
      (v : Value) (n m : ℕ)
      → validate_finding p attacks v n ≡ ok m
      → m ≡ n + count_unresolved (cons v nil)
  unfolding validate_finding count_unresolved
  finding-counted v n m h =
      let (u, shaped, h1) = >>=-eq-ok (validate_counterexample_shape p v) _ h in
      let (item, is_item, h2) = as_dict-found v _ _ h1 in
      let (attack, found, h3) =
        require-found (find_attack (text_of (value_at (codes "attack_id") item)) attacks) _ _ h2 in
      let (a, h4) = guard-eq-ok _ _ _ h3 in
      let (b, h5) = guard-eq-ok _ _ _ h4 in
      let (c, h6) = guard-eq-ok _ _ _ h5 in
      let (d, h7) = guard-eq-ok _ _ _ h6 in let same = ok-value h7 in rw is_item (omega arith)

  findings-counted :
      (items : Items) (n m : ℕ)
      → validate_findings p attacks items n ≡ ok m
      → m ≡ n + count_unresolved items
  unfolding validate_findings count_unresolved
  findings-counted nil n m h = let same : n ≡ m = ok-value h in omega arith
  findings-counted (cons v items) n m h =
      let (k, one, rest) = >>=-eq-ok (validate_finding p attacks v n) _ h in
      let first = finding-counted v n k one in
      let later = findings-counted items k m rest in let whole = count-cons v items in omega arith

results-parts :
    (report : Fields) (results : Items)
    → validate_probe_results report ≡ ok results
    → (value_at (codes "probe_results") report ≡ arr results)
      × (count_items results ≡ 13)
      × (all (λ name. any_item (is_result_of name) results) probes ≡ true)
unfolding validate_probe_results
results-parts report results h =
    let (xs, listed, h1) = as_list-found (value_at (codes "probe_results") report) _ _ h in
    let (thirteen, h2) = guard-eq-ok (not (count_items xs == 13)) _ _ h1 in
    let (ids, named, h3) = >>=-eq-ok (probe_ids xs) _ h2 in
    let (exact, h4) = guard-eq-ok _ _ _ h3 in
    let (u, valid, h5) = >>=-eq-ok (validate_each validate_probe_result xs) _ h4 in
    let same = ok-value h5 in
    rw (← same) (
      listed,
      (==_iff (count_items xs) 13).0 (not-false _ thirteen),
      probe_ids-covered xs ids named (not-false _ exact),
    )

replays-parts :
    (registry : Items) (report : Fields) (replays : Items)
    → validate_remediation_replays registry report ≡ ok replays
    → (value_at (codes "remediation_replays") report ≡ arr replays)
      × (count_items replays ≡ count_items registry)
      × (all_items (is_replayed replays) registry ≡ true)
unfolding validate_remediation_replays
replays-parts registry report replays h =
    let (xs, listed, h1) = as_list-found (value_at (codes "remediation_replays") report) _ _ h in
    let (sized, h2) = guard-eq-ok _ _ _ h1 in
    let (ids, named, h3) = >>=-eq-ok (validate_each_replay registry xs []) _ h2 in
    let (all_there, h4) = guard-eq-ok _ _ _ h3 in
    let same = ok-value h4 in
    rw (← same) (
      listed,
      (==_iff (count_items xs) (count_items registry)).0 (first-of _ _ (not-false _ sized)),
      validate_each_replay-covered registry xs ids named (not-false _ all_there),
    )

conclusion-graduated :
    (report : Fields) (results replays : Items) (n : ℕ)
    → validate_conclusion report results replays n ≡ ok tt
    → value_at (codes "graduated") report
      ≡ bool (all_items passes results && all_items passes replays && n == 0)
unfolding validate_conclusion
conclusion-graduated report results replays n h =
    let (denied, h1) = guard-eq-ok _ _ _ h in
    let (none_claimed, h2) = guard-eq-ok _ _ _ h1 in
    same_bool-eq _ _ (not-false _ (raise_if-eq-ok _ _ h2))

-- An accepted report has 13 results, one for each of the 13 probes by its name, as many replays as the
-- registry has entries, among them one of the identifier of each entry, and at most 48 counterexamples, of
-- which it counts the unresolved ones. It says that the commit graduated exactly when every probe and every replay passed and no counterexample is unresolved.
pub validate_report_common-Graduation :
    (p : Platform) (corpus : Fields) (registry : Items) (report : Fields) (target : Text)
    → validate_report_common p corpus registry report target ≡ ok tt
    → Graduation registry report
unfolding validate_report_common
validate_report_common-Graduation p corpus registry report target h =
    let (u, header, h1) = >>=-eq-ok (validate_report_header p report target corpus) _ h in
    let (results, tested, h2) = >>=-eq-ok (validate_probe_results report) _ h1 in
    let (replays, replayed, h3) = >>=-eq-ok (validate_remediation_replays registry report) _ h2 in
    let (items, listed, h4) = as_list-found (value_at (codes "counterexamples") report) _ _ h3 in
    let (bounded, h5) =
      guard-eq-ok (not (leb (count_items items) max_report_counterexamples)) _ _ h4 in
    let (attacks, corpus_valid, h6) = >>=-eq-ok (validate_attack_corpus corpus) _ h5 in
    let (n, counted, h7) = >>=-eq-ok (validate_findings p attacks items 0) _ h6 in
    let (stated, h8) = guard-eq-ok _ _ _ h7 in
    let (has_results, thirteen, each_probe) = results-parts report results tested in
    let (has_replays, every, each_entry) = replays-parts registry report replays replayed in
    let unresolved : n ≡ count_unresolved items =
      findings-counted p attacks items 0 n counted ∙ omega arith in
    record {
      results = results;
      has_results = has_results;
      count_results = thirteen;
      every_probe = each_probe;
      replays = replays;
      has_replays = has_replays;
      count_replays = every;
      every_entry = each_entry;
      counterexamples = items;
      has_counterexamples = listed;
      bounded = leb→le _ _ (not-false _ bounded);
      counted = rw (← unresolved) (count-eq n _ (not-false _ stated));
      graduated = rw (← unresolved) (conclusion-graduated report results replays n h8);
    }
