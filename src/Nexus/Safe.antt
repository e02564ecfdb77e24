-- ===== src/Nexus/Safe.antt =====
-- What a council report can say.
use qsol_fed.Base.{
  ℕ, ◌+◌, ◌≤◌, ◌≡◌, refl, ap, Bool, true, false, ◌&&◌, not, &&-eq-true, List, [], ◌∷◌, ltb,
  ltb-false→le, leb, leb→le, length, arith, All, Bool-cases, inl, inr,
}
use qsol_fed.Base.Result.{ok, guard-eq-ok, >>=-eq-ok}
use qsol_fed.Base.Text.{Text, codes, text_eq}
use qsol_fed.Platform.{Platform}
use qsol_fed.Json.{Items, Fields, bool, str, arr, nil, cons, lookup, count_items}
use qsol_fed.Sdk.Patterns.{is_text_that}
use qsol_fed.Sdk.Fields.{is_literal, all_items, any_item, hashable, hash_eq}
use qsol_fed.Moriarty.Shapes.{value_at}
use qsol_fed.Moriarty.Distinct.{distinct}
use qsol_fed.Sdk.Found.{as_dict-found, as_list-found}
use qsol_fed.Base.Inverse.{not-false, ok-value}
use qsol_fed.Nexus.Source.{max_chars, nfc_text, matches_object_ref, bundle_objects}
use qsol_fed.Nexus.Council.{
  max_members, ids_of, validate_members, minority_reports, evidence_state_of, council_report,
  build_council_report, build_each, build_council_reports, max_reports,
}
use qsol_fed.Nexus.Members.{
  entries, Clean, EachSafe, validate_members-Seated, minority_reports-Safe, nfc_text-Clean,
}

module _ (p : Platform) (is_secret : Text → Bool) where
  pub record ReportSafe (verified_refs : Items) (report : Fields) : Type 0 where
    pub ids : List Text
    pub has_members : value_at (codes "members") report ≡ arr (entries ids)
    pub ids_distinct : distinct ids ≡ true
    pub few_members : length ids ≤ 32
    pub clean_ids : All (Clean p is_secret (max_chars 256)) ids
    pub minority : Items
    pub has_minority : value_at (codes "minority_reports") report ≡ arr minority
    pub each_safe : EachSafe p is_secret ids minority
    pub few_minorities : count_items minority ≤ 64
    pub of_session :
        any_item (hash_eq (value_at (codes "source_session_ref") report)) verified_refs ≡ true
    pub session_id : Text
    pub has_session_id : value_at (codes "session_id") report ≡ str session_id
    pub clean_session_id : Clean p is_secret (max_chars 1024) session_id
    pub evidence : Text
    pub has_evidence : value_at (codes "evidence_state_observed") report ≡ str evidence
    pub clean_evidence : Clean p is_secret (max_chars 128) evidence
    pub no_ballot : value_at (codes "shared_ballot") report ≡ bool false
    pub no_votes : value_at (codes "vote_injection") report ≡ bool false
    pub no_promotion : value_at (codes "evidence_promotion") report ≡ bool false
    pub no_authority : value_at (codes "authority_effect") report ≡ str (codes "none")

  build_council_report-ReportSafe :
      (verification : Fields) (refs : Items) (raw report : Fields)
      → build_council_report p is_secret verification refs raw ≡ ok report
      → ReportSafe refs report
  unfolding build_council_report council_report value_at lookup text_eq
  build_council_report-ReportSafe verification refs raw report h =
      let (hashes, h1) = guard-eq-ok (not (hashable (value_at (codes "object_id") raw))) _ _ h in
      let (verified, h2) =
        guard-eq-ok (not (any_item (hash_eq (value_at (codes "object_id") raw)) refs)) _ _ h1 in
      let (payload, has_payload, h3) = as_dict-found (value_at (codes "payload") raw) _ _ h2 in
      let (roster, has_roster, h4) = as_list-found (value_at (codes "roster") payload) _ _ h3 in
      let (sized, h5) =
        guard-eq-ok (not (leb 1 (count_items roster) && leb (count_items roster) max_members)) _ _
          h4 in
      let (members, seated, h6) = >>=-eq-ok (validate_members p is_secret roster) _ h5 in
      let (apart, h7) = guard-eq-ok (not (distinct (ids_of members))) _ _ h6 in
      let (evidence, stated, h8) =
        >>=-eq-ok
          (nfc_text p is_secret _ (max_chars 128)
            (evidence_state_of (value_at (codes "result") payload)))
          _ h7 in
      let (session, named, h9) =
        >>=-eq-ok (nfc_text p is_secret _ (max_chars 1024) (value_at (codes "session_id") payload))
          _ h8 in
      let (asked, h10) =
        guard-eq-ok
          (not (is_text_that matches_object_ref (value_at (codes "question_ref") payload))) _ _
          h9 in
      let (minority, dissent, h11) =
        >>=-eq-ok
          (minority_reports p is_secret (value_at (codes "result") payload) (ids_of members)) _
          h10 in
      let s = validate_members-Seated p is_secret roster members seated in
      let few =
        minority_reports-Safe p is_secret (value_at (codes "result") payload) (ids_of members)
          minority dissent in
      let bound =
        leb→le (count_items roster) 32
          (&&-eq-true (leb 1 (count_items roster)) _ (not-false _ sized)).1 in
      let counted = s.counted in
      rw (← ok-value h11) record {
        ids = s.ids;
        has_members = ap arr s.as_entries;
        ids_distinct = rw (← s.same_ids) (not-false _ apart);
        few_members = omega arith;
        clean_ids = s.clean;
        minority = minority;
        has_minority = refl;
        each_safe = rw (← s.same_ids) few.0;
        few_minorities = few.1;
        of_session = not-false _ verified;
        session_id = session;
        has_session_id = refl;
        clean_session_id = nfc_text-Clean p is_secret _ _ _ session named;
        evidence = evidence;
        has_evidence = refl;
        clean_evidence = nfc_text-Clean p is_secret _ _ _ evidence stated;
        no_ballot = refl;
        no_votes = refl;
        no_promotion = refl;
        no_authority = refl;
      }

  build_each-Safe :
      (verification : Fields) (refs objects : Items) (count : ℕ) (reports : List Fields)
      → build_each p is_secret verification refs objects count ≡ ok reports
      → count ≤ 64
      → All (ReportSafe refs) reports × (count + length reports ≤ 64)
  unfolding build_each
  build_each-Safe verification refs nil count reports h l =
      let same : [] ≡ reports = ok-value h in rw (← same) (tt, omega arith)
  build_each-Safe verification refs (cons v objects) count reports h l =
      let (raw, is_raw, h1) = as_dict-found v _ _ h in
      elim (Bool-cases
        (is_literal (codes "council_session") (value_at (codes "object_type") raw))) [
          | inr e ↦ build_each-Safe verification refs objects count reports (rw e at h1) l
          | inl e ↦
              (let (report, one, h2) =
                  >>=-eq-ok (build_council_report p is_secret verification refs raw) _
                    (rw e at h1) in
                let (few, h3) = guard-eq-ok (ltb max_reports (count + 1)) _ _ h2 in
                let (later, rest, h4) =
                  >>=-eq-ok (build_each p is_secret verification refs objects (count + 1)) _ h3 in
                let bound = ltb-false→le max_reports (count + 1) few in
                let safe =
                  build_each-Safe verification refs objects (count + 1) later rest (omega arith) in
                let same : report ∷ later ≡ reports = ok-value h4 in
                let whole = safe.1 in
                rw (← same) (
                  (build_council_report-ReportSafe verification refs raw report one, safe.0),
                  omega arith,
                ))
        ]

  pub build_council_reports-ReportSafe :
      (bundle verification : Fields) (reports : List Fields)
      → build_council_reports p is_secret bundle verification ≡ ok reports
      → (refs : Items) × (value_at (codes "object_refs") verification ≡ arr refs)
        × All (ReportSafe refs) reports
        × (length reports ≤ 64)
  unfolding build_council_reports
  build_council_reports-ReportSafe bundle verification reports h =
      let (refs, listed, h1) = as_list-found (value_at (codes "object_refs") verification) _ _ h in
      let (hashes, h2) = guard-eq-ok (not (all_items hashable refs)) _ _ h1 in
      let (objects, found, h3) = >>=-eq-ok (bundle_objects bundle) _ h2 in
      let (safe, few) = build_each-Safe verification refs objects 0 reports h3 (omega arith) in
      (refs, listed, safe, omega arith)
