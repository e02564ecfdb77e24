-- ===== src/Phase9/Run.antt =====
-- The probes that the harness runs, and what its report says of each run.
use qsol_fed.Base.{
  ℕ, ◌+◌, ◌≡◌, refl, sym, ap, ◌∙◌, Bool, true, false, ◌||◌, List, [], ◌∷◌, ◌++◌, arith, Bool-cases,
  inl, inr,
}
use qsol_fed.Base.Result.{Result, ok, >>=-eq-ok}
use qsol_fed.Base.Inverse.{ok-value}
use qsol_fed.Base.Text.{Text, codes, text_eq, text_eq_iff, text_eq_refl, contains}
use qsol_fed.Json.{Value, Fields, field, end, keys, lookup}
use qsol_fed.Sdk.Fields.{item}
use qsol_fed.Moriarty.Shapes.{value_at}
use qsol_fed.Moriarty.Distinct.{Tracked, Tracked-cons}
use qsol_fed.Moriarty.Replay.{select, reported_fields, report_probe_result}
use qsol_fed.Moriarty.Assemble.{
  Results, texts_of_all, first_occurrences, ordered_probe_ids, run_probes, report_results,
}
use qsol_fed.Phase9.Built.{item-value}

-- a part of a result: exactly these fields, each with the value that it has in the result
pub record IsPart (names : List Text) (part result : Fields) : Type 0 where
  pub exact : keys part ≡ names
  pub agrees : (key : Text) → contains names key ≡ true → value_at key part ≡ value_at key result

-- one record for each probe, in the order of the runs, and each says what its run returned
unfoldable pub FromRun : (Text → ℕ → Result Fields) → List Text → ℕ → List Fields → Type 0
FromRun run_probe [] index [] = Unit {0}
FromRun run_probe (probe_id ∷ probe_ids) index (reported ∷ others) =
    (result : Fields) × (run_probe probe_id index ≡ ok result)
    × IsPart reported_fields reported result
    × FromRun run_probe probe_ids (index + 1) others
FromRun _ _ _ _ = ⊥

value_at_head :
    (name key : Text) (v : Value) (part : Fields)
    → text_eq name key ≡ true
    → value_at key (field name v part) ≡ v
unfolding value_at lookup
value_at_head name key v part h = rw (value_at, h) refl

value_at_tail :
    (name key : Text) (v : Value) (part : Fields)
    → text_eq name key ≡ false
    → value_at key (field name v part) ≡ value_at key part
unfolding value_at lookup
value_at_tail name key v part h = rw (value_at, h) refl

other_name :
    (name key : Text) (names : List Text)
    → text_eq name key ≡ false
    → contains (name ∷ names) key ≡ true
    → contains names key ≡ true
unfolding contains
other_name name key names differs known = elim (Bool-cases (text_eq key name)) [
  | inl e ↦
      (let same : key ≡ name = (text_eq_iff key name).0 e in
        let clash = rw (same, text_eq_refl name) at differs in cc)
  | inr e ↦ rw e at known
]

IsPart-field :
    (name : Text) (names : List Text) (v : Value) (part result : Fields)
    → value_at name result ≡ v
    → IsPart names part result
    → IsPart (name ∷ names) (field name v part) result
unfolding keys
IsPart-field name names v part result here later = record {
  exact = ap (λ ks. name ∷ ks) later.exact;
  agrees = agree;
}
  where
    agree :
        (key : Text)
        → contains (name ∷ names) key ≡ true
        → value_at key (field name v part) ≡ value_at key result
    agree key known = elim (Bool-cases (text_eq name key)) [
      | inl e ↦
          (let same : name ≡ key = (text_eq_iff name key).0 e in
            value_at_head name key v part e ∙ sym here ∙ ap (λ k. value_at k result) same)
      | inr e ↦
          (value_at_tail name key v part e ∙ later.agrees key (other_name name key names e known))
    ]

select-IsPart :
    (names : List Text) (result part : Fields)
    → select names result ≡ ok part
    → IsPart names part result
unfolding select keys contains
select-IsPart [] result part h =
    let same : end ≡ part = ok-value h in
    rw (← same) record { exact = refl; agrees = λ key known. cc }
select-IsPart (name ∷ names) result part h =
    let (v, is_v, h1) = >>=-eq-ok (item name result) _ h in
    let (rest, selected, h2) = >>=-eq-ok (select names result) _ h1 in
    rw (← ok-value h2) (
      IsPart-field name names v rest result (item-value name result v is_v)
        (select-IsPart names result rest selected))

-- what the report lists comes from the runs, one by one
pub report_results-FromRun :
    (run_probe : Text → ℕ → Result Fields) (probe_ids : List Text) (index : ℕ) (results : Results)
    (reported : List Fields)
    → run_probes run_probe probe_ids index ≡ ok results
    → report_results results ≡ ok reported
    → FromRun run_probe probe_ids index reported
unfolding run_probes report_results report_probe_result FromRun
report_results-FromRun run_probe [] index results reported ran told =
    let none_ran : [] ≡ results = ok-value ran in
    let none_told : [] ≡ reported = ok-value (rw (← none_ran) at told) in rw (← none_told) tt
report_results-FromRun run_probe (probe_id ∷ probe_ids) index results reported ran told =
    let (result, one, ran1) = >>=-eq-ok (run_probe probe_id index) _ ran in
    let (others, more, ran2) = >>=-eq-ok (run_probes run_probe probe_ids (index + 1)) _ ran1 in
    let same : (probe_id, result) ∷ others ≡ results = ok-value ran2 in
    let told_all = rw (← same) at told in
    let (first, selected, told1) = >>=-eq-ok (report_probe_result result) _ told_all in
    let (rest, later, told2) = >>=-eq-ok (report_results others) _ told1 in
    rw (← ok-value told2) (
      result,
      one,
      select-IsPart reported_fields result first selected,
      report_results-FromRun run_probe probe_ids (index + 1) others rest more later,
    )

already :
    (t a : Text) (seen : List Text) (b : Bool)
    → contains seen a ≡ true
    → ((text_eq t a || b) || contains seen t) ≡ (b || contains seen t)
already t a seen b known = elim (Bool-cases (text_eq t a)) [
  | inl e ↦
      (let same : t ≡ a = (text_eq_iff t a).0 e in
        let here : contains seen t ≡ true = rw (← same) at known in ground (arith, here))
  | inr e ↦ ground (arith, e)
]

moved : (x b c : Bool) → ((x || b) || c) ≡ (b || (x || c))
moved x b c = ground arith

occurs_again :
    (seen requested : List Text) (a : Text)
    → contains seen a ≡ true
    → first_occurrences seen (a ∷ requested) ≡ first_occurrences seen requested
unfolding first_occurrences
occurs_again seen requested a h = rw (first_occurrences, h) refl

occurs_first :
    (seen requested : List Text) (a : Text)
    → contains seen a ≡ false
    → first_occurrences seen (a ∷ requested) ≡ a ∷ first_occurrences (a ∷ seen) requested
unfolding first_occurrences
occurs_first seen requested a h = rw (first_occurrences, h) refl

-- each text once, and all that were asked for
first_occurrences-Tracked :
    (seen requested after : List Text)
    → ((t : Text) → contains after t ≡ (contains requested t || contains seen t))
    → Tracked (first_occurrences seen requested) seen after
unfolding first_occurrences contains
first_occurrences-Tracked seen [] after all_of = record {
  all_distinct = refl;
  all_fresh = λ t h. cc;
  seen = all_of;
}
first_occurrences-Tracked seen (a ∷ requested) after all_of = elim (Bool-cases (contains seen a)) [
  | inl e ↦ rw (occurs_again seen requested a e) (
      first_occurrences-Tracked seen requested after
        (λ t. all_of t ∙ already t a seen (contains requested t) e))
  | inr e ↦ rw (occurs_first seen requested a e) (
      Tracked-cons a (first_occurrences (a ∷ seen) requested) seen after e (
        first_occurrences-Tracked (a ∷ seen) requested after
          (λ t. all_of t ∙ moved (text_eq t a) (contains requested t) (contains seen t))))
]

-- the probes that the attacks and the counterexamples ask for
unfoldable pub requested_probes : List Fields → List Fields → List Text
unfolding texts_of_all
requested_probes attacks accepted =
    texts_of_all (codes "probe_ids") attacks ++ texts_of_all (codes "regression_probe_ids") accepted

or_false : (b : Bool) → b ≡ (b || false)
or_false b = ground arith

-- the probes that run are those that are asked for, each once
pub ordered_probe_ids-Tracked :
    (attacks accepted : List Fields)
    → Tracked (ordered_probe_ids attacks accepted) [] (requested_probes attacks accepted)
unfolding ordered_probe_ids requested_probes contains
ordered_probe_ids-Tracked attacks accepted =
    first_occurrences-Tracked [] (requested_probes attacks accepted)
      (requested_probes attacks accepted)
      (λ t. or_false (contains (requested_probes attacks accepted) t))

pub ordered_probe_ids-requested_probes :
    (attacks accepted : List Fields) (probe_id : Text)
    → contains (ordered_probe_ids attacks accepted) probe_id
      ≡ contains (requested_probes attacks accepted) probe_id
unfolding contains
ordered_probe_ids-requested_probes attacks accepted probe_id =
    let order = ordered_probe_ids-Tracked attacks accepted in
    or_false (contains (ordered_probe_ids attacks accepted) probe_id) ∙ sym (order.seen probe_id)
