-- ===== src/Examples/Nexus.antt =====
-- An export with a council session of two members, one of whom dissents.
use Prim.Native.String.{String}
use qsol_fed.Base.{◌≤◌, ◌≡◌, refl, Bool, All, List, [], ◌++◌, length, replicate}
use qsol_fed.Base.Result.{
  Result, ok, err, ◌>>=◌, raise_if, nexus_council_roster_duplicate_member_after_nfc,
}
use qsol_fed.Base.Int.{pos}
use qsol_fed.Base.Text.{Text, codes, text_eq}
use qsol_fed.Json.{Value, Items, Fields, int, str, arr, dict, nil, cons, end, field}
use qsol_fed.Examples.{toy}
use qsol_fed.Nexus.Safe.{ReportSafe}
use qsol_fed.Nexus.Projection.{verified_projection}
use qsol_fed.Nexus.Export.{VerifiedExport}
use qsol_fed.Nexus.Verified.{SourceSafe, verified_projection-Safe}

abbrev text_field : String → Text → Fields → Fields
text_field key value rest = field (codes key) (str value) rest

abbrev session_ref : Text
session_ref = codes "object:" ++ replicate 64 b'a'

abbrev export_ref : Text
export_ref = codes "world-export:" ++ replicate 64 b'b'

abbrev member : String → Value
member name = dict (
    text_field "member_id" (codes name) (
      field (codes "vote_weight") (int (pos 1))
        (text_field "epistemic_privilege" (codes "none") end)))

abbrev dissent : Value
dissent = dict (
    text_field "member_id" (codes "B")
      (text_field "choice" (codes "REJECT") (text_field "rationale" (codes "untested") end)))

abbrev session_of : Items → Value
session_of roster = dict (
    text_field "object_type" (codes "council_session") (
      text_field "object_id" session_ref (
        field (codes "payload")
          (dict (
            field (codes "roster") (arr roster) (
              text_field "session_id" (codes "s1") (
                text_field "question_ref" session_ref (
                  field (codes "result")
                    (dict (field (codes "minority_reports") (arr (cons dissent nil)) end)) end)))))
          end)))

abbrev bundle_of : Items → Value
bundle_of roster = dict (
    text_field "schema" (codes "nexus-persistent-world-export/1") (
      text_field "world_policy" (codes "nexus-persistent-world/1") (
        text_field "bundle_ref" export_ref (
          field (codes "object_count") (int (pos 1)) (
            text_field "order_basis" (codes "ref")
              (field (codes "objects") (arr (cons (session_of roster) nil)) end))))))

-- the verifier accepts the one object
abbrev toy_verifier : Value → Value
toy_verifier v = dict (
    text_field "status" (codes "verified") (
      text_field "authority_effect" (codes "none") (
        text_field "bundle_ref" export_ref (
          field (codes "object_count") (int (pos 1))
            (field (codes "object_refs") (arr (cons (str session_ref) nil)) end)))))

-- one word is a secret
abbrev is_password : Text → Bool
is_password s = text_eq s (codes "hunter2")

abbrev projected : Result (Fields × List Fields)
projected =
    verified_projection toy is_password toy_verifier
      (bundle_of (cons (member "A") (cons (member "B") nil)))

projected_source : Fields
unfolding verified_projection ◌>>=◌ raise_if
projected_source = elim projected [ ok both ↦ both.0 | err e ↦ end ]

projected_reports : List Fields
unfolding verified_projection ◌>>=◌ raise_if
projected_reports = elim projected [ ok both ↦ both.1 | err e ↦ [] ]

projection-emitted : projected ≡ ok (projected_source, projected_reports)
unfolding projected_source projected_reports
projection-emitted = refl

one_report : length projected_reports ≡ 1
unfolding projected_reports
one_report = refl

-- the same name twice
twins-refused :
    verified_projection toy is_password toy_verifier
      (bundle_of (cons (member "B") (cons (member "B") nil)))
    ≡ err nexus_council_roster_duplicate_member_after_nfc
unfolding verified_projection ◌>>=◌ raise_if
twins-refused = refl

verified_projection-Safe_example :
    (refs : Items) × (bundle : Fields) × (verification : Fields) × VerifiedExport toy_verifier
      (bundle_of (cons (member "A") (cons (member "B") nil)))
      refs
      bundle
      verification
    × SourceSafe refs bundle verification projected_source
    × All (ReportSafe toy is_password refs) projected_reports
    × (length projected_reports ≤ 64)
verified_projection-Safe_example =
    verified_projection-Safe toy is_password toy_verifier
      (bundle_of (cons (member "A") (cons (member "B") nil))) projected_source projected_reports
      projection-emitted
