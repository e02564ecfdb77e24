-- ===== src/Nexus/Verified.antt =====
-- What the adapter takes over of an export that the NEXUS verifier accepted.
use qsol_fed.Base.{
  ◌≤◌, ◌≡◌, refl, sym, ap, ◌∙◌, Bool, true, ◌&&◌, not, &&-eq-true, List, leb, leb→le, length, All,
  some,
}
use qsol_fed.Base.Result.{ok, guard-eq-ok, >>=-eq-ok}
use qsol_fed.Base.Text.{Text, codes, text_eq}
use qsol_fed.Platform.{Platform}
use qsol_fed.Json.{Value, Items, Fields, str, arr, dict, lookup, count_items}
use qsol_fed.Sdk.Patterns.{is_text_that}
use qsol_fed.Sdk.Fields.{all_items}
use qsol_fed.Moriarty.Shapes.{value_at}
use qsol_fed.Sdk.Found.{as_dict-found, as_list-found, require-found}
use qsol_fed.Base.Inverse.{not-false, ok-value}
use qsol_fed.Nexus.Source.{
  matches_object_ref, matches_world_export_ref, verify_native, build_source_manifest,
}
use qsol_fed.Nexus.Export.{VerifiedExport, verify_native-VerifiedExport}
use qsol_fed.Nexus.Council.{build_council_reports}
use qsol_fed.Nexus.Safe.{ReportSafe, build_council_reports-ReportSafe}
use qsol_fed.Nexus.Projection.{verified_projection}

-- the manifest names the verified bundle and its objects, and has no authority
pub record SourceSafe (refs : Items) (bundle verification source : Fields) : Type 0 where
  pub of_bundle : value_at (codes "bundle_ref") source ≡ value_at (codes "bundle_ref") verification
  pub ref_valid :
      is_text_that matches_world_export_ref (value_at (codes "bundle_ref") source) ≡ true
  pub of_head :
      value_at (codes "source_head_ref") source ≡ value_at (codes "source_head_ref") bundle
  pub of_order : value_at (codes "order_basis") source ≡ value_at (codes "order_basis") bundle
  pub lists : value_at (codes "object_refs") source ≡ arr refs
  pub nonempty : 1 ≤ count_items refs
  pub each_ref : all_items (is_text_that matches_object_ref) refs ≡ true
  pub no_authority : value_at (codes "authority_effect") source ≡ str (codes "none")

value_at-lookup :
    (key : Text) (fs : Fields) (v : Value) → lookup key fs ≡ some v → value_at key fs ≡ v
unfolding value_at
value_at-lookup key fs v h = rw (value_at, h) refl

build_source_manifest-SourceSafe :
    (bundle verification source : Fields)
    → build_source_manifest bundle verification ≡ ok source
    → (refs : Items) × (value_at (codes "object_refs") verification ≡ arr refs)
      × SourceSafe refs bundle verification source
unfolding build_source_manifest lookup text_eq
build_source_manifest-SourceSafe bundle verification source h =
    let (contract, h1) = guard-eq-ok _ _ _ h in
    let (bundle_ref, present, h2) =
      require-found (lookup (codes "bundle_ref") verification) _ _ h1 in
    let (of_bundle, h2') =
      guard-eq-ok (not (is_text_that matches_world_export_ref bundle_ref)) _ _ h2 in
    let (head, h3) = guard-eq-ok _ _ _ h2' in
    let (refs, listed, h4) = as_list-found (value_at (codes "object_refs") verification) _ _ h3 in
    let (valid, h5) =
      guard-eq-ok
        (not (leb 1 (count_items refs) && all_items (is_text_that matches_object_ref) refs)) _ _
        h4 in
    let (order_basis, ordered, h6) = require-found (lookup (codes "order_basis") bundle) _ _ h5 in
    let (some_ref, each_ref) =
      &&-eq-true (leb 1 (count_items refs)) (all_items (is_text_that matches_object_ref) refs)
        (not-false _ valid) in
    (
      refs,
      listed,
      rw (← ok-value h6) record {
        of_bundle = sym (value_at-lookup (codes "bundle_ref") verification bundle_ref present);
        ref_valid = not-false _ of_bundle;
        of_head = refl;
        of_order = sym (value_at-lookup (codes "order_basis") bundle order_basis ordered);
        lists = refl;
        nonempty = leb→le 1 (count_items refs) some_ref;
        each_ref = each_ref;
        no_authority = refl;
      },
    )

arr-inj : {xs ys : Items} → arr xs ≡ arr ys → xs ≡ ys
arr-inj h = cc

-- what is returned is what was found to be safe
returned_is_safe :
    (p : Platform) (is_secret : Text → Bool) (refs others : Items)
    (bundle verification manifest source : Fields) (council reports : List Fields)
    → ◌≡◌ {A = Fields × List Fields} (manifest, council) (source, reports)
    → others ≡ refs
    → SourceSafe refs bundle verification manifest
    → All (ReportSafe p is_secret others) council
    → length council ≤ 64
    → SourceSafe refs bundle verification source
      × All (ReportSafe p is_secret refs) reports
      × (length reports ≤ 64)
returned_is_safe p is_secret refs others bundle verification manifest source council reports both
      same source_safe reports_safe few =
    let one : manifest ≡ source = ap (λ x. x.0) both in
    let two : council ≡ reports = ap (λ x. x.1) both in
    (rw (← one) source_safe, rw (← two, ← same) reports_safe, rw (← two) few)

-- A projection is emitted of a bundle for which the verifier returned the status "verified" and no authority,
-- with the bundle's own reference and number of objects, and with the identifiers of exactly its objects, in
-- their order. Its manifest names that bundle and lists these objects, at least one, by well-formed references;
-- and it has at most 64 council reports, each of a session among these objects. A report has at most
-- 32 members, pairwise different after NFC, and minority reports of its members only; no name, choice,
-- rationale, session or state of the evidence in it is a text that the scrubber would change, and all are
-- within their limits. Nothing in it carries a ballot, a vote, a promotion of evidence or authority.
pub verified_projection-Safe :
    (p : Platform) (is_secret : Text → Bool) (verifier : Value → Value) (loaded : Value)
    (source : Fields) (reports : List Fields)
    → verified_projection p is_secret verifier loaded ≡ ok (source, reports)
    → (refs : Items) × (bundle : Fields) × (verification : Fields) × VerifiedExport verifier loaded
        refs bundle verification
      × SourceSafe refs bundle verification source
      × All (ReportSafe p is_secret refs) reports
      × (length reports ≤ 64)
unfolding verified_projection
verified_projection-Safe p is_secret verifier loaded source reports h =
    let (bundle, is_bundle, h1) = as_dict-found loaded _ _ h in
    let (verification, verified, h2) =
      >>=-eq-ok (verify_native (verifier (dict bundle)) bundle) _ h1 in
    let (manifest, built, h3) = >>=-eq-ok (build_source_manifest bundle verification) _ h2 in
    let (council, reported, h4) =
      >>=-eq-ok (build_council_reports p is_secret bundle verification) _ h3 in
    let (refs, listed, safe_source) =
      build_source_manifest-SourceSafe bundle verification manifest built in
    let (others, relisted, safe, few) =
      build_council_reports-ReportSafe p is_secret bundle verification council reported in
    let same : others ≡ refs = arr-inj (sym relisted ∙ listed) in
    let (a, b, c) =
      returned_is_safe p is_secret refs others bundle verification manifest source council reports
        (ok-value h4) same safe_source safe few in
    let export =
      verify_native-VerifiedExport verifier matches_object_ref loaded refs bundle verification
        is_bundle verified listed safe_source.each_ref in
    (refs, bundle, verification, export, a, b, c)
