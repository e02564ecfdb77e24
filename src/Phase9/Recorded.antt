-- ===== src/Phase9/Recorded.antt =====
-- The failures of the probes, and the counterexamples that are generated from them.
use qsol_fed.Base.{
  ◌≡◌, refl, ap, sym, ◌∙◌, ◌&&◌, Bool, true, false, ◌||◌, List, [], ◌∷◌, ◌++◌, arith, Bool-cases,
  Option-cases, inl, inr, ◌⊎◌, some,
}
use qsol_fed.Base.Result.{ok, >>=-eq-ok}
use qsol_fed.Base.Inverse.{ok-value}
use qsol_fed.Base.Text.{Text, codes, text_eq, text_eq_refl, contains}
use qsol_fed.Platform.{Platform}
use qsol_fed.Json.{Fields, str, dict, lookup}
use qsol_fed.Sdk.Patterns.{is_text_that}
use qsol_fed.Sdk.Fields.{is_literal}
use qsol_fed.Moriarty.Shapes.{value_at}
use qsol_fed.Moriarty.Corpus.{text_of}
use qsol_fed.Moriarty.Unresolved.{text_at}
use qsol_fed.Moriarty.Replay.{zero_ref, generated_counterexample, counterexample_record}
use qsol_fed.Moriarty.Counterexample.{
  canonical_ref, counterexample_identity_projection, validate_counterexample_shape,
}
use qsol_fed.Moriarty.Assemble.{
  succeeded, Results, all_probes_ok, probe_users, is_known, any_known, new_finding, generate,
}

abbrev pub finding_kinds : List Text
finding_kinds = codes "exit_nonzero" ∷ codes "timeout" ∷ codes "tool_error" ∷ []

any_known-append :
    (attack_id probe_id : Text) (xs ys : List Fields)
    → any_known attack_id probe_id (xs ++ ys)
      ≡ (any_known attack_id probe_id xs || any_known attack_id probe_id ys)
unfolding any_known
any_known-append attack_id probe_id [] ys = refl
any_known-append attack_id probe_id (x ∷ xs) ys =
    let rest = any_known-append attack_id probe_id xs ys in ground (arith, rest)

both_equal : (x y z : Text) → y ≡ z → (text_eq x x && text_eq y z) ≡ true
both_equal x y z same = rw (same, text_eq_refl x, text_eq_refl z) refl

record-is_known :
    (id target probe_id : Text) (owner result : Fields)
    → value_at (codes "probe_id") result ≡ str probe_id
    → is_known (text_at (codes "id") owner) probe_id (counterexample_record id target owner result)
      ≡ true
unfolding is_known counterexample_record value_at lookup text_eq text_of is_literal
record-is_known id target probe_id owner result named =
    both_equal (text_at (codes "id") owner) (text_of (value_at (codes "probe_id") result)) probe_id
      (ap text_of named)

-- a generated counterexample is found under its attack and its probe
generated-is_known :
    (p : Platform) (target probe_id : Text) (owner result one : Fields)
    → value_at (codes "probe_id") result ≡ str probe_id
    → generated_counterexample p target owner result ≡ ok one
    → is_known (text_at (codes "id") owner) probe_id one ≡ true
unfolding generated_counterexample
generated-is_known p target probe_id owner result one named h =
    let (id, identified, h1) =
      >>=-eq-ok
        (canonical_ref p (
          dict (
            counterexample_identity_projection
              (counterexample_record zero_ref target owner result))))
        _ h in
    let (u, shaped, h2) =
      >>=-eq-ok
        (validate_counterexample_shape p (dict (counterexample_record id target owner result))) _
        h1 in
    rw (← ok-value h2) (record-is_known id target probe_id owner result named)

-- a failure that belongs to one attack and is not known yet is a finding
new_finding-owner :
    (attacks accepted : List Fields) (probe_id : Text) (owner result : Fields)
    → probe_users probe_id attacks ≡ owner ∷ []
    → is_text_that (contains finding_kinds) (value_at (codes "failure_kind") result) ≡ true
    → any_known (text_at (codes "id") owner) probe_id accepted ≡ false
    → new_finding attacks accepted probe_id result ≡ some owner
unfolding new_finding
new_finding-owner attacks accepted probe_id owner result users kind unknown =
    rw (new_finding, users, kind, unknown) refl

-- one round keeps what the later rounds generate
generate-step :
    (p : Platform) (target : Text) (attacks accepted : List Fields) (probe_id : Text)
    (result : Fields) (results : Results) (generated : List Fields)
    → generate p target attacks accepted ((probe_id, result) ∷ results) ≡ ok generated
    → (others : List Fields) × (generate p target attacks accepted results ≡ ok others)
      × ((others ≡ generated) ⊎ ((one : Fields) × (one ∷ others ≡ generated)))
unfolding generate
generate-step p target attacks accepted probe_id result results generated h =
    elim (Bool-cases (succeeded result)) [
      | inl e ↦ (generated, rw (generate, e) at h, inl refl)
      | inr e ↦ elim (Option-cases (new_finding attacks accepted probe_id result)) [
        | inl k ↦ (generated, rw (generate, e, k) at h, inl refl)
        | inr (owner, k) ↦
            (let (one, made, h1) =
                >>=-eq-ok (generated_counterexample p target owner result) _
                  (rw (generate, e, k) at h) in
              let (others, later, h2) =
                >>=-eq-ok (generate p target attacks accepted results) _ h1 in
              (others, later, inr (one, ok-value h2)))
      ]
    ]

one-known : (x y a b : Bool) → x ≡ true → (a || (x || b)) ≡ true
one-known x y a b h = ground (arith, h)

kept : (x a b : Bool) → (a || b) ≡ true → (a || (x || b)) ≡ true
kept x a b h = ground (arith, h)

module _ (p : Platform) (target : Text) (attacks accepted : List Fields) (probe_id : Text)
    (owner result : Fields) (users : probe_users probe_id attacks ≡ owner ∷ [])
    (failed : succeeded result ≡ false)
    (kind : is_text_that (contains finding_kinds) (value_at (codes "failure_kind") result) ≡ true)
    (named : value_at (codes "probe_id") result ≡ str probe_id) where
  -- the round of the failure itself
  recorded_now :
      (results : Results) (generated : List Fields)
      → generate p target attacks accepted ((probe_id, result) ∷ results) ≡ ok generated
      → any_known (text_at (codes "id") owner) probe_id (accepted ++ generated) ≡ true
  unfolding generate any_known
  recorded_now results generated h =
      let id = text_at (codes "id") owner in
      any_known-append id probe_id accepted generated
      ∙ elim (Bool-cases (any_known id probe_id accepted)) [
        | inl e ↦ ground (arith, e)
        | inr e ↦
            (let new = new_finding-owner attacks accepted probe_id owner result users kind e in
              let (one, made, h1) =
                >>=-eq-ok (generated_counterexample p target owner result) _
                  (rw (generate, failed, new) at h) in
              let (others, later, h2) =
                >>=-eq-ok (generate p target attacks accepted results) _ h1 in
              let same : one ∷ others ≡ generated = ok-value h2 in
              let found = generated-is_known p target probe_id owner result one named made in
              rw (← same, e, found) refl)
      ]

  -- the failure is found among the accepted and the generated counterexamples
  pub generate-any_known :
      (before after : Results) (generated : List Fields)
      → generate p target attacks accepted (before ++ (probe_id, result) ∷ after) ≡ ok generated
      → any_known (text_at (codes "id") owner) probe_id (accepted ++ generated) ≡ true
  unfolding any_known
  generate-any_known [] after generated h = recorded_now after generated h
  generate-any_known ((first, other) ∷ before) after generated h =
      let id = text_at (codes "id") owner in
      let (others, later, grown) =
        generate-step p target attacks accepted first other (before ++ (probe_id, result) ∷ after)
          generated h in
      let known = generate-any_known before after others later in
      elim grown [
        | inl same ↦ rw same at known
        | inr (one, same) ↦ rw (← same) (
            any_known-append id probe_id accepted (one ∷ others)
            ∙ kept (is_known id probe_id one) _ _
                (sym (any_known-append id probe_id accepted others) ∙ known))
      ]

-- a probe that failed
pub all_probes_ok-failed :
    (before after : Results) (probe_id : Text) (result : Fields)
    → succeeded result ≡ false
    → all_probes_ok (before ++ (probe_id, result) ∷ after) ≡ false
unfolding all_probes_ok
all_probes_ok-failed [] after probe_id result failed = rw failed refl
all_probes_ok-failed ((first, other) ∷ before) after probe_id result failed =
    let rest = all_probes_ok-failed before after probe_id result failed in ground (arith, rest)
