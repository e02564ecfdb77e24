-- ===== src/Sdk/Documents.antt =====
-- sdk/python/qsol_fed_sdk.py: node manifests, third-party profiles and provenance records. Each
-- builder validates what it built.
use qsol_fed.Base.{Bool, ◌&&◌, not, List, [], ◌∷◌, ltb, length}
use qsol_fed.Base.Result.{
  Result, ok, err, ◌>>=◌, ◌>>◌, raise_if, sdk_node_manifest_invalid, third_party_profile_invalid,
  sdk_provenance_invalid,
}
use qsol_fed.Base.Text.{Text, codes, contains}
use qsol_fed.Json.{Value, Items, str, arr, dict, end, field, count_items}
use qsol_fed.Sdk.Patterns.{
  validate_capability_id, is_node_id, is_sha256_ref, is_timestamp, is_text_that,
}
use qsol_fed.Sdk.Fields.{
  has_exactly, item, is_literal, is_false, all_items, has_duplicates, as_dict, as_list, require,
}

abbrev pub bootstrap_protocol : Text
bootstrap_protocol = codes "qsol-fed/0"

abbrev pub provenance_schema : Text
provenance_schema = codes "qsol-fed-provenance/1"

abbrev pub third_party_profile : Text
third_party_profile = codes "third-party-node-profile/1"

abbrev pub manifest_keys : List Text
manifest_keys =
    codes "protocol" ∷ codes "node_id" ∷ codes "capabilities" ∷ codes "authority_claim" ∷ []

unfoldable pub validate_node_manifest : Value → Result (Unit {0})
unfolding as_dict has_exactly item is_literal is_node_id as_list has_duplicates
    validate_capability_id
validate_node_manifest manifest = do
  fs ← require (as_dict manifest) (err sdk_node_manifest_invalid)
  raise_if (not (has_exactly manifest_keys fs)) sdk_node_manifest_invalid
  caps ← item (codes "capabilities") fs
  protocol ← item (codes "protocol") fs
  raise_if (not (is_literal bootstrap_protocol protocol)) sdk_node_manifest_invalid
  node_id ← item (codes "node_id") fs
  raise_if (not (is_node_id node_id)) sdk_node_manifest_invalid
  authority_claim ← item (codes "authority_claim") fs
  raise_if (not (is_literal (codes "none") authority_claim)) sdk_node_manifest_invalid
  items ← require (as_list caps) (err sdk_node_manifest_invalid)
  raise_if (ltb 64 (count_items items)) sdk_node_manifest_invalid
  duplicates ← has_duplicates items
  raise_if duplicates sdk_node_manifest_invalid
  raise_if (not (all_items validate_capability_id items)) sdk_node_manifest_invalid
  ok tt

-- The dictionary that `build_node_manifest` makes, of `list(capabilities)`.
abbrev pub node_manifest : Value → Items → Value
node_manifest node_id capabilities = dict (
    field (codes "protocol") (str bootstrap_protocol) (
      field (codes "node_id") node_id (
        field (codes "capabilities") (arr capabilities)
          (field (codes "authority_claim") (str (codes "none")) end))))

unfoldable pub build_node_manifest : Value → Items → Result Value
unfolding validate_node_manifest
build_node_manifest node_id capabilities = do
  validate_node_manifest (node_manifest node_id capabilities)
  ok (node_manifest node_id capabilities)

abbrev pub profile_keys : List Text
profile_keys =
    codes "schema"
    ∷ codes "implementation"
    ∷ codes "governance_model"
    ∷ codes "qsol_governance_adopted"
    ∷ codes "nexus_required"
    ∷ codes "council_required"
    ∷ []

-- a text that is not empty and has at most 128 characters
abbrev pub is_name : Value → Bool
is_name = is_text_that (λ s. ltb 0 (length s) && not (ltb 128 (length s)))

unfoldable pub validate_third_party_profile : Value → Result (Unit {0})
unfolding as_dict has_exactly item is_literal is_false
validate_third_party_profile profile = do
  fs ← require (as_dict profile) (err third_party_profile_invalid)
  raise_if (not (has_exactly profile_keys fs)) third_party_profile_invalid
  schema ← item (codes "schema") fs
  raise_if (not (is_literal third_party_profile schema)) third_party_profile_invalid
  governance_model ← item (codes "governance_model") fs
  raise_if (not (is_literal (codes "local") governance_model)) third_party_profile_invalid
  implementation ← item (codes "implementation") fs
  raise_if (not (is_name implementation)) third_party_profile_invalid
  adopted ← item (codes "qsol_governance_adopted") fs
  raise_if (not (is_false adopted)) third_party_profile_invalid
  nexus_required ← item (codes "nexus_required") fs
  raise_if (not (is_false nexus_required)) third_party_profile_invalid
  council_required ← item (codes "council_required") fs
  raise_if (not (is_false council_required)) third_party_profile_invalid
  ok tt

abbrev pub provenance_keys : List Text
provenance_keys =
    codes "schema"
    ∷ codes "source_node"
    ∷ codes "source_object"
    ∷ codes "relation"
    ∷ codes "parents"
    ∷ codes "created_at"
    ∷ []

abbrev pub relations : List Text
relations = codes "observed" ∷ codes "derived" ∷ codes "quoted" ∷ codes "transported" ∷ []

unfoldable pub validate_provenance : Value → Result (Unit {0})
unfolding as_dict has_exactly item is_literal is_node_id is_sha256_ref is_timestamp as_list
    has_duplicates contains
validate_provenance value = do
  fs ← require (as_dict value) (err sdk_provenance_invalid)
  raise_if (not (has_exactly provenance_keys fs)) sdk_provenance_invalid
  schema ← item (codes "schema") fs
  raise_if (not (is_literal provenance_schema schema)) sdk_provenance_invalid
  source_node ← item (codes "source_node") fs
  raise_if (not (is_node_id source_node)) sdk_provenance_invalid
  source_object ← item (codes "source_object") fs
  raise_if (not (is_sha256_ref source_object)) sdk_provenance_invalid
  relation ← item (codes "relation") fs
  raise_if (not (is_text_that (contains relations) relation)) sdk_provenance_invalid
  parents ← item (codes "parents") fs
  items ← require (as_list parents) (err sdk_provenance_invalid)
  raise_if (ltb 64 (count_items items)) sdk_provenance_invalid
  duplicates ← has_duplicates items
  raise_if duplicates sdk_provenance_invalid
  raise_if (not (all_items is_sha256_ref items)) sdk_provenance_invalid
  created_at ← item (codes "created_at") fs
  raise_if (not (is_timestamp created_at)) sdk_provenance_invalid
  ok tt

-- The dictionary that `build_provenance` makes, of `list(parents)`.
abbrev pub provenance : Value → Value → Value → Items → Value → Value
provenance source_node source_object relation parents created_at = dict (
    field (codes "schema") (str provenance_schema) (
      field (codes "source_node") source_node (
        field (codes "source_object") source_object (
          field (codes "relation") relation
            (field (codes "parents") (arr parents) (field (codes "created_at") created_at end))))))

unfoldable pub build_provenance : Value → Value → Value → Items → Value → Result Value
unfolding validate_provenance
build_provenance source_node source_object relation parents created_at = do
  validate_provenance (provenance source_node source_object relation parents created_at)
  ok (provenance source_node source_object relation parents created_at)
