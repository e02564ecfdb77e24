-- ===== src/Nexus/Council.antt =====
-- `_validate_member`, `_minority_reports` and `build_council_reports`. A float is a value of another type.
use qsol_fed.Base.{
  ℕ, ◌+◌, Bool, true, false, ◌&&◌, ◌||◌, not, List, [], ◌∷◌, ltb, leb, length, if◌then◌else◌,
}
use qsol_fed.Base.Result.{
  Result, ok, err, ◌>>=◌, ◌>>◌, raise_if, attribute_error, type_error, nexus_council_member_invalid,
  nexus_council_member_id_invalid, nexus_council_equality_boundary_invalid,
  nexus_minority_reports_invalid, nexus_minority_report_invalid,
  nexus_minority_report_member_invalid, nexus_minority_report_nonmember,
  nexus_minority_report_choice_invalid, nexus_minority_report_rationale_invalid,
  nexus_council_session_not_verified, nexus_council_session_payload_invalid,
  nexus_council_roster_invalid, nexus_council_roster_duplicate_member_after_nfc,
  nexus_council_evidence_state_invalid, nexus_council_session_id_invalid,
  nexus_council_question_ref_invalid, nexus_council_report_limit,
}
use qsol_fed.Base.Int.{pos}
use qsol_fed.Base.Text.{Text, codes, contains}
use qsol_fed.Platform.{Platform}
use qsol_fed.Json.{
  Value, Items, Fields, bool, int, str, arr, dict, nil, cons, end, field, count_items,
}
use qsol_fed.Sdk.Patterns.{is_text_that}
use qsol_fed.Sdk.Fields.{
  is_literal, is_none, as_dict, as_list, require, all_items, any_item, hashable, hash_eq,
}
use qsol_fed.Moriarty.Shapes.{value_at, value_eq}
use qsol_fed.Moriarty.Corpus.{text_of}
use qsol_fed.Moriarty.Distinct.{distinct}
use qsol_fed.Nexus.Source.{
  max_chars, max_utf8_bytes, nfc_text, matches_object_ref, bundle_objects, object_refs,
}

abbrev pub nexus_pinned_commit : Text
nexus_pinned_commit = codes "24cb0ce246d12ac99e7d190a8890ef2ddd598321"

abbrev pub max_reports : ℕ
max_reports = 64

abbrev pub max_members : ℕ
max_members = 32

abbrev pub max_minorities : ℕ
max_minorities = 64

abbrev pub max_member_id_chars : ℕ
max_member_id_chars = 256

abbrev pub max_session_id_chars : ℕ
max_session_id_chars = 1024

abbrev pub max_evidence_state_chars : ℕ
max_evidence_state_chars = 128

abbrev pub max_choice_chars : ℕ
max_choice_chars = 256

abbrev pub max_rationale_utf8_bytes : ℕ
max_rationale_utf8_bytes = 8192

-- what a member becomes: the equality of the council is observed, and nothing is inherited
unfoldable pub member_entry : Text → Fields
member_entry member_id = field (codes "member_id") (str member_id) (
    field (codes "vote_weight_observed") (int (pos 1)) (
      field (codes "epistemic_privilege_observed") (str (codes "none")) (
        field (codes "vote_weight_inherited") (bool false) (
          field (codes "epistemic_privilege_inherited") (bool false) (
            field (codes "citizenship_inherited") (bool false)
              (field (codes "authority_effect") (str (codes "none")) end))))))

unfoldable pub minority_entry : Text → Text → Text → Fields
minority_entry member_id choice rationale = field (codes "member_id") (str member_id) (
    field (codes "choice") (str choice) (
      field (codes "rationale") (str rationale) (
        field (codes "evidence_promotion") (bool false) (
          field (codes "vote_injection") (bool false)
            (field (codes "authority_effect") (str (codes "none")) end)))))

-- the identifiers of members that were validated
unfoldable pub ids_of : Items → List Text
unfolding value_at text_of
ids_of nil = []
ids_of (cons (dict entry) entries) = text_of (value_at (codes "member_id") entry) ∷ ids_of entries
ids_of (cons _ entries) = ids_of entries

-- the state of the evidence, or UNSPECIFIED
unfoldable pub evidence_state_of : Value → Value
unfolding value_at
evidence_state_of (dict result) =
    if is_text_that (λ s. leb 1 (length s)) (value_at (codes "evidence_state") result)
    then value_at (codes "evidence_state") result
    else str (codes "UNSPECIFIED")
evidence_state_of _ = str (codes "UNSPECIFIED")

unfoldable pub council_report : Value → Value → Text → Text → Text → Items → Items → Fields
council_report bundle_ref session_ref session_id question_ref evidence_state members minority =
    field (codes "schema") (str (codes "qsol-fed-nexus-council-report/1")) (
      field (codes "source_repository") (str (codes "QSOLKCB/QSOL-NEXUS")) (
        field (codes "source_commit") (str nexus_pinned_commit) (
          field (codes "source_bundle_ref") bundle_ref (
            field (codes "source_session_ref") session_ref (
              field (codes "session_id") (str session_id) (
                field (codes "question_ref") (str question_ref) (
                  field (codes "evidence_state_observed") (str evidence_state) (
                    field (codes "members") (arr members) (
                      field (codes "minority_reports") (arr minority) (
                        field (codes "secret_scrubbed") (bool true) (
                          field (codes "shared_ballot") (bool false) (
                            field (codes "vote_injection") (bool false) (
                              field (codes "evidence_promotion") (bool false) (
                                field (codes "authority_effect") (str (codes "none"))
                                  end))))))))))))))

module _ (p : Platform) (is_secret : Text → Bool) where
  unfoldable pub validate_member : Value → Result Fields
  unfolding as_dict value_at nfc_text value_eq is_literal member_entry
  validate_member v = do
    raw ← require (as_dict v) (err nexus_council_member_invalid)
    member_id ←
        nfc_text p is_secret nexus_council_member_id_invalid (max_chars max_member_id_chars)
          (value_at (codes "member_id") raw)
    raise_if
        (not (value_eq (value_at (codes "vote_weight") raw) (int (pos 1)))
          || not (is_literal (codes "none") (value_at (codes "epistemic_privilege") raw)))
        nexus_council_equality_boundary_invalid
    ok (member_entry member_id)

  unfoldable pub validate_members : Items → Result Items
  unfolding validate_member
  validate_members nil = ok nil
  validate_members (cons v roster) = do
    member ← validate_member v
    members ← validate_members roster
    ok (cons (dict member) members)

  unfoldable pub minority_report : List Text → Value → Result Fields
  unfolding as_dict value_at nfc_text contains minority_entry
  minority_report member_ids v = do
    raw ← require (as_dict v) (err nexus_minority_report_invalid)
    member_id ←
        nfc_text p is_secret nexus_minority_report_member_invalid (max_chars max_member_id_chars)
          (value_at (codes "member_id") raw)
    raise_if (not (contains member_ids member_id)) nexus_minority_report_nonmember
    choice ←
        nfc_text p is_secret nexus_minority_report_choice_invalid (max_chars max_choice_chars)
          (value_at (codes "choice") raw)
    rationale ←
        nfc_text p is_secret nexus_minority_report_rationale_invalid
          (max_utf8_bytes max_rationale_utf8_bytes) (value_at (codes "rationale") raw)
    ok (minority_entry member_id choice rationale)

  unfoldable pub minority_each : List Text → Items → Result Items
  unfolding minority_report
  minority_each member_ids nil = ok nil
  minority_each member_ids (cons v raws) = do
    report ← minority_report member_ids v
    reports ← minority_each member_ids raws
    ok (cons (dict report) reports)

  -- a result that is no dictionary, and a missing or null list, have no reports
  unfoldable pub minority_reports : Value → List Text → Result Items
  unfolding value_at is_none as_list minority_each
  minority_reports (dict result) member_ids =
      if is_none (value_at (codes "minority_reports") result) then ok nil else do
        raws ←
            require (as_list (value_at (codes "minority_reports") result))
              (err nexus_minority_reports_invalid)
        raise_if (ltb max_minorities (count_items raws)) nexus_minority_reports_invalid
        minority_each member_ids raws
  minority_reports _ member_ids = ok nil

  -- one council session
  unfoldable pub build_council_report : Fields → Items → Fields → Result Fields
  unfolding value_at hashable any_item hash_eq as_dict as_list validate_members ids_of
      evidence_state_of nfc_text matches_object_ref text_of minority_reports council_report
  build_council_report verification verified_refs raw = do
    let session_ref = value_at (codes "object_id") raw
    raise_if (not (hashable session_ref)) type_error
    raise_if (not (any_item (hash_eq session_ref) verified_refs)) nexus_council_session_not_verified
    payload ←
        require (as_dict (value_at (codes "payload") raw))
          (err nexus_council_session_payload_invalid)
    roster ←
        require (as_list (value_at (codes "roster") payload)) (err nexus_council_roster_invalid)
    raise_if (not (leb 1 (count_items roster) && leb (count_items roster) max_members))
        nexus_council_roster_invalid
    members ← validate_members roster
    raise_if (not (distinct (ids_of members))) nexus_council_roster_duplicate_member_after_nfc
    let result = value_at (codes "result") payload
    evidence_state ←
        nfc_text p is_secret nexus_council_evidence_state_invalid
          (max_chars max_evidence_state_chars) (evidence_state_of result)
    session_id ←
        nfc_text p is_secret nexus_council_session_id_invalid (max_chars max_session_id_chars)
          (value_at (codes "session_id") payload)
    let question_ref = value_at (codes "question_ref") payload
    raise_if (not (is_text_that matches_object_ref question_ref)) nexus_council_question_ref_invalid
    minority ← minority_reports result (ids_of members)
    ok (
        council_report (value_at (codes "bundle_ref") verification) session_ref session_id
          (text_of question_ref) evidence_state members minority)

  -- the loop over the objects, with the number of reports so far
  unfoldable pub build_each : Fields → Items → Items → ℕ → Result (List Fields)
  unfolding as_dict value_at is_literal build_council_report
  build_each verification verified_refs nil count = ok []
  build_each verification verified_refs (cons v objects) count = do
    raw ← require (as_dict v) (err attribute_error)
    elim (is_literal (codes "council_session") (value_at (codes "object_type") raw)) [
      | false ↦ build_each verification verified_refs objects count
      | true ↦ do
        report ← build_council_report verification verified_refs raw
        raise_if (ltb max_reports (count + 1)) nexus_council_report_limit
        reports ← build_each verification verified_refs objects (count + 1)
        ok (report ∷ reports)
    ]

  unfoldable pub build_council_reports : Fields → Fields → Result (List Fields)
  unfolding value_at as_list all_items hashable bundle_objects build_each
  build_council_reports bundle verification = do
    verified_refs ← object_refs verification
    raise_if (not (all_items hashable verified_refs)) type_error
    objects ← bundle_objects bundle
    build_each verification verified_refs objects 0
