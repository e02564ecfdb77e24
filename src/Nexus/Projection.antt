-- ===== src/Nexus/Projection.antt =====
-- `verified_projection`, and what `main` writes for each command.
use qsol_fed.Base.{Bool, true, List, length}
use qsol_fed.Base.Result.{Result, ok, err, ◌>>=◌, nexus_bundle_must_be_object}
use qsol_fed.Base.Int.{pos}
use qsol_fed.Base.Text.{Text, codes}
use qsol_fed.Platform.{Platform}
use qsol_fed.Json.{Value, Fields, bool, int, str, arr, dict, end, field}
use qsol_fed.Sdk.Fields.{as_dict, require}
use qsol_fed.Nexus.Source.{verify_native, build_source_manifest}
use qsol_fed.Nexus.Council.{build_council_reports}
use qsol_fed.Json.Lists.{as_items}

-- `verifier` is the NEXUS function `validate_world_export_bundle`
unfoldable pub verified_projection :
    Platform → (Text → Bool) → (Value → Value) → Value → Result (Fields × List Fields)
unfolding as_dict verify_native build_source_manifest build_council_reports
verified_projection p is_secret verifier loaded = do
  bundle ← require (as_dict loaded) (err nexus_bundle_must_be_object)
  verification ← verify_native (verifier (dict bundle)) bundle
  source ← build_source_manifest bundle verification
  reports ← build_council_reports p is_secret bundle verification
  ok (source, reports)

pub data Command : Type 0 where
  source_manifest council_reports projection : Command

unfoldable pub output_of : Command → Fields × List Fields → Value
output_of source_manifest (source, reports) = dict source
output_of council_reports (source, reports) = dict (
    field (codes "reports") (arr (as_items reports)) (
      field (codes "count") (int (pos (length reports)))
        (field (codes "authority_effect") (str (codes "none")) end)))
output_of projection (source, reports) = dict (
    field (codes "schema") (str (codes "qsol-fed-nexus-live-projection/1")) (
      field (codes "source") (dict source) (
        field (codes "council_reports") (arr (as_items reports)) (
          field (codes "native_verification_required") (bool true)
            (field (codes "authority_effect") (str (codes "none")) end)))))
