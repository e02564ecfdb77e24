-- ===== src/Phase9/Built.antt =====
-- The parts of the report that the harness builds: its verdicts and its counts.
use qsol_fed.Base.{
  ◌+◌, ◌≡◌, refl, sym, true, false, List, [], ◌∷◌, ◌++◌, length, drop, arith, Bool-cases,
  Option-cases, inl, inr,
}
use qsol_fed.Base.Result.{ok, >>=-eq-ok}
use qsol_fed.Base.Inverse.{ok-value}
use qsol_fed.Base.Text.{Text, codes, text_eq}
use qsol_fed.Platform.{Platform}
use qsol_fed.Json.{Value, Fields, null, bool, int, str, arr, dict, pairs, other, lookup}
use qsol_fed.Json.Lists.{as_items}
use qsol_fed.Sdk.Fields.{all_items, item, is_literal}
use qsol_fed.Moriarty.Shapes.{value_at}
use qsol_fed.Moriarty.Unresolved.{is_open, count_unresolved}
use qsol_fed.Moriarty.Replay.{
  same_bool, select, reported_fields, zero_ref, report_probe_result, generated_counterexample,
  counterexample_record,
}
use qsol_fed.Moriarty.Counterexample.{
  canonical_ref, counterexample_identity_projection, validate_counterexample_shape,
}
use qsol_fed.Moriarty.Assemble.{
  succeeded, Results, all_probes_ok, all_replays_ok, count_open, report_results, new_finding,
  generate,
}
use qsol_fed.Phase9.Claims.{is_true}
use qsol_fed.Phase9.Evidence.{passes}

pub same_bool-is_true : (v : Value) → same_bool v (bool true) ≡ is_true v
unfolding is_true
same_bool-is_true (bool true) = refl
same_bool-is_true (bool false) = refl
same_bool-is_true null = refl
same_bool-is_true (int n) = refl
same_bool-is_true (str s) = refl
same_bool-is_true (arr xs) = refl
same_bool-is_true (dict fs) = refl
same_bool-is_true (pairs fs) = refl
same_bool-is_true other = refl

pub succeeded-passes : (result : Fields) → passes (dict result) ≡ succeeded result
succeeded-passes result = sym (same_bool-is_true (value_at (codes "ok") result))

pub replays-pass :
    (replays : List Fields) → all_items passes (as_items replays) ≡ all_replays_ok replays
unfolding all_items all_replays_ok
replays-pass [] = refl
replays-pass (replay ∷ replays) = rw (succeeded-passes replay, replays-pass replays)

pub item-value :
    (key : Text) (result : Fields) (v : Value) → item key result ≡ ok v → value_at key result ≡ v
unfolding item value_at
item-value key result v h = elim (Option-cases (lookup key result)) [
  | inl e ↦ (let missing = rw (item, e) at h in cc)
  | inr (w, e) ↦ (let found = ok-value (rw (item, e) at h) in rw (value_at, e) found)
]

abbrev pub reported_tail : List Text
reported_tail = drop 1 reported_fields

-- what is reported of a result has its verdict
pub report_probe_result-ok :
    (result reported : Fields)
    → report_probe_result result ≡ ok reported
    → value_at (codes "ok") reported ≡ value_at (codes "ok") result
unfolding report_probe_result select value_at lookup text_eq
report_probe_result-ok result reported h =
    let (probe_id, is_id, h1) = >>=-eq-ok (item (codes "probe_id") result) _ h in
    let (rest, selected, h2) = >>=-eq-ok (select reported_tail result) _ h1 in
    let (verdict, is_verdict, h3) = >>=-eq-ok (item (codes "ok") result) _ selected in
    let (others, more, h4) = >>=-eq-ok (select (drop 1 reported_tail) result) _ h3 in
    rw (← ok-value h2, ← ok-value h4) (sym (item-value (codes "ok") result verdict is_verdict))

pub count-open :
    (items others : List Fields)
    → count_unresolved (as_items (items ++ others))
      ≡ count_open items + count_unresolved (as_items others)
unfolding count_unresolved count_open
count-open [] others = omega arith
count-open (x ∷ items) others = omega (arith, count-open items others)

pub record-open :
    (id target : Text) (attack result : Fields)
    → is_open (counterexample_record id target attack result) ≡ true
unfolding counterexample_record value_at lookup text_eq is_literal
record-open id target attack result = refl

pub generated-open :
    (p : Platform) (target : Text) (attack result generated : Fields)
    → generated_counterexample p target attack result ≡ ok generated
    → is_open generated ≡ true
unfolding generated_counterexample
generated-open p target attack result generated h =
    let (id, named, h1) =
      >>=-eq-ok
        (canonical_ref p (
          dict (
            counterexample_identity_projection
              (counterexample_record zero_ref target attack result))))
        _ h in
    let (u, shaped, h2) =
      >>=-eq-ok
        (validate_counterexample_shape p (dict (counterexample_record id target attack result))) _
        h1 in
    rw (← ok-value h2) (record-open id target attack result)

pub one_more :
    (one : Fields) (others generated : List Fields)
    → is_open one ≡ true
    → count_unresolved (as_items others) ≡ length others
    → one ∷ others ≡ generated
    → count_unresolved (as_items generated) ≡ length generated
unfolding count_unresolved
one_more one others generated opened rest same = rw (← same, opened) (omega (arith, rest))

-- every generated counterexample is unresolved
pub generate-open :
    (p : Platform) (target : Text) (attacks accepted : List Fields) (results : Results)
    (generated : List Fields)
    → generate p target attacks accepted results ≡ ok generated
    → count_unresolved (as_items generated) ≡ length generated
unfolding generate count_unresolved
generate-open p target attacks accepted [] generated h =
    let same : [] ≡ generated = ok-value h in rw (← same) refl
generate-open p target attacks accepted ((probe_id, result) ∷ results) generated h =
    elim (Bool-cases (succeeded result)) [
      | inl e ↦ generate-open p target attacks accepted results generated (rw (generate, e) at h)
      | inr e ↦ elim (Option-cases (new_finding attacks accepted probe_id result)) [
        | inl k ↦
            generate-open p target attacks accepted results generated (rw (generate, e, k) at h)
        | inr (owner, k) ↦
            (let (one, made, h1) =
                >>=-eq-ok (generated_counterexample p target owner result) _
                  (rw (generate, e, k) at h) in
              let (others, later, h2) =
                >>=-eq-ok (generate p target attacks accepted results) _ h1 in
              let same : one ∷ others ≡ generated = ok-value h2 in
              let rest = generate-open p target attacks accepted results others later in
              one_more one others generated (generated-open p target owner result one made) rest
                same)
      ]
    ]

pub report_results-pass :
    (results : Results) (reported : List Fields)
    → report_results results ≡ ok reported
    → all_items passes (as_items reported) ≡ all_probes_ok results
unfolding report_results all_items all_probes_ok
report_results-pass [] reported h = let same : [] ≡ reported = ok-value h in rw (← same) refl
report_results-pass ((probe_id, result) ∷ results) reported h =
    let (one, told, h1) = >>=-eq-ok (report_probe_result result) _ h in
    let (others, rest, h2) = >>=-eq-ok (report_results results) _ h1 in
    let same : one ∷ others ≡ reported = ok-value h2 in
    rw
      (
        ← same,
        report_results-pass results others rest,
        succeeded-passes one,
        report_probe_result-ok result one told,
      )
      refl
