-- ===== src/Examples/Records.antt =====
-- Manifests, provenance records and profiles at concrete values.
use qsol_fed.Base.{◌≡◌, ◌↔◌, refl, true, false, ◌++◌, all, replicate}
use qsol_fed.Base.Result.{ok, ◌>>=◌, raise_if}
use qsol_fed.Base.Text.{codes, contains, text_eq}
use qsol_fed.Json.{
  Value, Items, Fields, bool, str, dict, nil, cons, end, field, has_key, keys, lookup,
}
use qsol_fed.Sdk.Documents.{
  node_manifest, build_node_manifest, provenance, build_provenance, validate_third_party_profile,
  third_party_profile,
}
use qsol_fed.Sdk.Fields.{has_exactly, item, is_literal, is_false, as_dict}
use qsol_fed.Sdk.Patterns.{validate_capability_id, is_node_id}
use qsol_fed.Sdk.Profiles.{Independent, validate_third_party_profile-Independent}
use qsol_fed.Sdk.Records.{Listed, Traced, build_node_manifest-eq_iff, build_provenance-eq_iff}

abbrev node : Value
node = str (codes "fed:qsol:lab-01")

abbrev object_ref : Value
object_ref = str (codes "sha256:" ++ replicate 64 b'f')

abbrev exchange : Items
exchange = cons (str (codes "evidence.exchange/1")) nil

build_node_manifest-eq_iff_example :
    (build_node_manifest node exchange ≡ ok (node_manifest node exchange))
    ↔ ((is_node_id node ≡ true) × Listed validate_capability_id exchange)
build_node_manifest-eq_iff_example = build_node_manifest-eq_iff node exchange

abbrev observed : Value
observed = str (codes "observed")

abbrev issued : Value
issued = str (codes "2026-08-23T00:00:00Z")

build_provenance-eq_iff_example :
    (build_provenance node object_ref observed nil issued
      ≡ ok (provenance node object_ref observed nil issued))
    ↔ Traced node object_ref observed nil issued
build_provenance-eq_iff_example = build_provenance-eq_iff node object_ref observed nil issued

abbrev profile : Fields
profile = field (codes "schema") (str third_party_profile) (
    field (codes "implementation") (str (codes "lab")) (
      field (codes "governance_model") (str (codes "local")) (
        field (codes "qsol_governance_adopted") (bool false) (
          field (codes "nexus_required") (bool false)
            (field (codes "council_required") (bool false) end)))))

profile-valid : validate_third_party_profile (dict profile) ≡ ok tt
unfolding validate_third_party_profile as_dict has_exactly has_key keys contains all item lookup
    is_literal is_false text_eq ◌>>=◌ raise_if
profile-valid = refl

validate_third_party_profile-Independent_example : Independent profile
validate_third_party_profile-Independent_example =
    validate_third_party_profile-Independent profile profile-valid
