-- ===== src/Moriarty/Verdicts.antt =====
-- What the replay of the accepted counterexamples reports.
use qsol_fed.Base.{
  ℕ, ◌+◌, ◌≡◌, refl, ◌∙◌, Bool, true, false, ◌&&◌, ◌||◌, &&-eq-true, List, [], ◌∷◌, all, Option,
  none, some, inl, inr, Bool-cases,
}
use qsol_fed.Base.Result.{Result, ok, ◌>>=◌}
use qsol_fed.Base.Text.{Text, codes, text_eq}
use qsol_fed.Canonical.Complete.{bind-ok}
use qsol_fed.Json.{Value, Fields, null, bool, end, field, lookup, has_key}
use qsol_fed.Sdk.Fields.{item, is_literal}
use qsol_fed.Schema.Closed.{has_key-declared}
use qsol_fed.Moriarty.Shapes.{value_at}
use qsol_fed.Moriarty.Corpus.{text_of}
use qsol_fed.Moriarty.Replay.{
  ReplayProbe, Outcome, reported_fields, select, report_probe_result, is_green,
  counterexample_failure_matches, failed, resolution_outcome, reproduced_outcome, replay_outcome,
  replay_record, verify_accepted_counterexamples,
}

-- every key that a report names is in the result of the run
abbrev pub Reportable : Fields → Type 0
Reportable result = all (λ k. has_key k result) reported_fields ≡ true

item-found : (k : Text) (fs : Fields) (v : Value) → lookup k fs ≡ some v → item k fs ≡ ok v
unfolding item
item-found k fs v found = rw (item, found) refl

select-total :
    (names : List Text) (result : Fields)
    → all (λ k. has_key k result) names ≡ true
    → (fs : Fields) × (select names result ≡ ok fs)
unfolding select all
select-total [] result h = (end, refl)
select-total (k ∷ names) result h =
    let parts = &&-eq-true (has_key k result) (all (λ j. has_key j result) names) h in
    let (v, found) = has_key-declared k result parts.0 in
    let (fs, rest) = select-total names result parts.1 in
    (field k v fs, bind-ok _ (item-found k result v found) ∙ bind-ok _ rest)

report-total :
    (result : Fields) → Reportable result → (fs : Fields) × (report_probe_result result ≡ ok fs)
unfolding report_probe_result
report-total result h = select-total reported_fields result h

module _ (run_replay : ReplayProbe) where
  -- the run at the finding's target commit fails as it is recorded
  abbrev pub reproduces : Fields → ℕ → Bool
  reproduces c index =
      elim (run_replay c index (codes "target") (text_of (value_at (codes "target_commit") c))) [
        | none ↦ false
        | some before ↦ counterexample_failure_matches c before
      ]

  abbrev pub is_unresolved : Fields → Bool
  is_unresolved c = is_literal (codes "unresolved") (value_at (codes "status") c)

  -- the run at the resolution commit passes
  abbrev pub is_resolved : Fields → ℕ → Bool
  is_resolved c index =
      elim (run_replay c index (codes "resolution")
        (text_of (value_at (codes "resolution_commit") c))) [
          | none ↦ false
          | some after ↦ is_green after
        ]

  -- reproduced, and green at the resolution if there is one
  abbrev pub verdict : Fields → ℕ → Bool
  verdict c index = reproduces c index && (is_unresolved c || is_resolved c index)

  abbrev pub verdicts : List Fields → ℕ → List Value
  verdicts [] index = []
  verdicts (c ∷ accepted) index = bool (verdict c index) ∷ verdicts accepted (index + 1)

  abbrev pub reported_ok : List Fields → List Value
  reported_ok [] = []
  reported_ok (r ∷ records) = value_at (codes "ok") r ∷ reported_ok records

  abbrev Decided : Result Outcome → Bool → Type 0
  Decided r b = (o : Outcome) × (r ≡ ok o) × (o.succeeded ≡ b)

  resolution-Decided :
      (run : Option Fields)
      → ((r : Fields) → run ≡ some r → Reportable r)
      → Decided (resolution_outcome run) (elim run [ none ↦ false | some after ↦ is_green after ])
  unfolding resolution_outcome ◌>>=◌
  resolution-Decided none h = (_, refl, refl)
  resolution-Decided (some after) h = elim (Bool-cases (is_green after)) [
    | inl e ↦ rw e (_, refl, refl)
    | inr e ↦
        (let (report, total) = report-total after (h after refl) in rw (e, total) (_, refl, refl))
  ]

  module _
      (reportable : (c : Fields) (i : ℕ) (label commit : Text) (r : Fields)
        → run_replay c i label commit ≡ some r
        → Reportable r) where
    reproduced-Decided :
        (c : Fields) (index : ℕ) (before : Fields)
        → Reportable before
        → Decided
            (reproduced_outcome run_replay c index before)
            (counterexample_failure_matches c before && (is_unresolved c || is_resolved c index))
    unfolding reproduced_outcome ◌>>=◌
    reproduced-Decided c index before h =
        elim (Bool-cases (counterexample_failure_matches c before)) [
          | inr e ↦ (let (report, total) = report-total before h in rw (e, total) (_, refl, refl))
          | inl e ↦ elim (Bool-cases (is_unresolved c)) [
            | inl u ↦ rw (e, u) (_, refl, refl)
            | inr u ↦
                rw (e, u)
                  (resolution-Decided
                    (run_replay c index (codes "resolution")
                      (text_of (value_at (codes "resolution_commit") c)))
                    λ r q. reportable c index (codes "resolution") _ r q)
          ]
        ]

    outcome-Decided :
        (c : Fields) (index : ℕ) → Decided (replay_outcome run_replay c index) (verdict c index)
    unfolding replay_outcome
    outcome-Decided c index =
        by_target
          (run_replay c index (codes "target") (text_of (value_at (codes "target_commit") c)))
          λ r q. reportable c index (codes "target") _ r q
      where
        by_target :
            (run : Option Fields)
            → ((r : Fields) → run ≡ some r → Reportable r)
            → Decided
                (elim run [
                  | none ↦ ok (failed false null (codes "replay_setup_error") null)
                  | some before ↦ reproduced_outcome run_replay c index before
                ])
                (elim run [ none ↦ false | some before ↦ counterexample_failure_matches c before ]
                  && (is_unresolved c || is_resolved c index))
        by_target none h = (_, refl, refl)
        by_target (some before) h = reproduced-Decided c index before (h before refl)

    -- When every run that returns has the members that a report names: the replay returns one record for
    -- each accepted counterexample, in their order. A record is `ok` exactly when the run at the target
    -- commit returned and failed as recorded and, for a counterexample that is not unresolved, the run at
    -- the resolution commit returned and passed.
    pub verify_accepted_counterexamples-verdicts :
        (accepted : List Fields) (index : ℕ)
        → (records : List Fields) × (verify_accepted_counterexamples run_replay accepted index
            ≡ ok records)
          × (reported_ok records ≡ verdicts accepted index)
    unfolding ◌>>=◌ verify_accepted_counterexamples replay_record value_at lookup text_eq
    verify_accepted_counterexamples-verdicts [] index = ([], refl, refl)
    verify_accepted_counterexamples-verdicts (c ∷ accepted) index =
        let (o, decided, right) = outcome-Decided c index in
        let (records, total, later) =
          verify_accepted_counterexamples-verdicts accepted (index + 1) in
        (replay_record c o ∷ records, rw (decided, total) refl, rw (right, later) refl)
