-- ===== src/Nexus/Source.antt =====
-- `verify_native` behind the call of the verifier, `_nfc_text` and `build_source_manifest`. The NEXUS
-- verifier and its secret scrubber are another repository's code: the verifier's result and the test
-- whether the scrubber changes a text are arguments.
use qsol_fed.Base.{ℕ, Bool, false, ◌&&◌, ◌||◌, not, ◌==◌, leb, length, all, none, some}
use qsol_fed.Base.Result.{
  Error, Result, ok, err, ◌>>=◌, ◌>>◌, raise_if, attribute_error, type_error, key_error,
  secret_material_rejected, nexus_native_verifier_result_invalid,
  nexus_native_verification_not_verified, nexus_native_verification_bundle_ref_mismatch,
  nexus_native_verification_object_count_mismatch, nexus_native_verification_object_refs_mismatch,
  nexus_export_contract_mismatch, nexus_export_bundle_ref_invalid, nexus_export_head_ref_invalid,
  nexus_export_object_refs_invalid,
}
use qsol_fed.Base.Text.{Text, codes}
use qsol_fed.Base.Utf8.{encode}
use qsol_fed.Platform.{Platform, is_hex_char}
use qsol_fed.Json.{Value, Items, Fields, str, arr, nil, cons, end, field, lookup, count_items}
use qsol_fed.Json.Scan.{after}
use qsol_fed.Sdk.Patterns.{is_text_that}
use qsol_fed.Sdk.Fields.{is_literal, is_none, as_dict, as_list, require, all_items}
use qsol_fed.Moriarty.Shapes.{value_at, value_eq}

abbrev pub hex_ref : Text → Text → Bool
hex_ref prefix s = elim (after prefix s) [
  | none ↦ false
  | some digest ↦ all is_hex_char digest && length digest == 64
]

-- `^object:[0-9a-f]{64}$`
unfoldable pub matches_object_ref : Text → Bool
unfolding after all
matches_object_ref s = hex_ref (codes "object:") s

-- `^world-export:[0-9a-f]{64}$`
unfoldable pub matches_world_export_ref : Text → Bool
unfolding after all
matches_world_export_ref s = hex_ref (codes "world-export:") s

-- `^world-manifest:[0-9a-f]{64}$`
unfoldable pub matches_world_manifest_ref : Text → Bool
unfolding after all
matches_world_manifest_ref s = hex_ref (codes "world-manifest:") s

-- `bundle.get("objects", [])`, which is iterated over
unfoldable pub bundle_objects : Fields → Result Items
unfolding lookup
bundle_objects bundle = elim (lookup (codes "objects") bundle) [
  | none ↦ ok nil
  | some v ↦ require (as_list v) (err type_error)
]

-- `[entry.get("object_id") for entry in …]`
unfoldable pub object_ids : Items → Result Items
unfolding value_at as_dict
object_ids nil = ok nil
object_ids (cons v entries) = do
  entry ← require (as_dict v) (err attribute_error)
  rest ← object_ids entries
  ok (cons (value_at (codes "object_id") entry) rest)

-- `verify_native`, on the result of the verifier
unfoldable pub verify_native : Value → Fields → Result Fields
unfolding as_dict value_at is_literal value_eq bundle_objects object_ids
verify_native verifier_result bundle = do
  result ← require (as_dict verifier_result) (err nexus_native_verifier_result_invalid)
  raise_if
      (not (is_literal (codes "verified") (value_at (codes "status") result))
        || not (is_literal (codes "none") (value_at (codes "authority_effect") result)))
      nexus_native_verification_not_verified
  raise_if
      (not (value_eq (value_at (codes "bundle_ref") result) (value_at (codes "bundle_ref") bundle)))
      nexus_native_verification_bundle_ref_mismatch
  raise_if
      (not (
        value_eq (value_at (codes "object_count") result) (value_at (codes "object_count") bundle)))
      nexus_native_verification_object_count_mismatch
  entries ← bundle_objects bundle
  expected_refs ← object_ids entries
  raise_if (not (value_eq (value_at (codes "object_refs") result) (arr expected_refs)))
      nexus_native_verification_object_refs_mismatch
  ok result

-- `list(verification["object_refs"])`; the verification is what `verify_native` returned, so a list is there
abbrev pub object_refs : Fields → Result Items
object_refs verification =
    require (as_list (value_at (codes "object_refs") verification)) (err type_error)

unfoldable pub build_source_manifest : Fields → Fields → Result Fields
unfolding lookup value_at is_literal matches_world_export_ref matches_world_manifest_ref
    matches_object_ref is_none as_list all_items
build_source_manifest bundle verification = do
  raise_if
      (not (is_literal (codes "nexus-persistent-world-export/1") (value_at (codes "schema") bundle))
        || not (
            is_literal (codes "nexus-persistent-world/1") (value_at (codes "world_policy") bundle)))
      nexus_export_contract_mismatch
  bundle_ref ← require (lookup (codes "bundle_ref") verification) (err key_error)
  raise_if (not (is_text_that matches_world_export_ref bundle_ref)) nexus_export_bundle_ref_invalid
  let head = value_at (codes "source_head_ref") bundle
  raise_if (not (is_none head || is_text_that matches_world_manifest_ref head))
      nexus_export_head_ref_invalid
  refs ← object_refs verification
  raise_if (not (leb 1 (count_items refs) && all_items (is_text_that matches_object_ref) refs))
      nexus_export_object_refs_invalid
  order_basis ← require (lookup (codes "order_basis") bundle) (err key_error)
  ok (
      field (codes "schema") (str (codes "qsol-fed-nexus-world-source/1")) (
        field (codes "nexus_export_schema") (str (codes "nexus-persistent-world-export/1")) (
          field (codes "nexus_world_policy") (str (codes "nexus-persistent-world/1")) (
            field (codes "bundle_ref") bundle_ref (
              field (codes "source_head_ref") head (
                field (codes "order_basis") order_basis (
                  field (codes "object_refs") (arr refs)
                    (field (codes "authority_effect") (str (codes "none")) end))))))))

-- `max_chars` or `max_utf8_bytes`
pub data Limit : Type 0 where
  max_chars max_utf8_bytes : ℕ → Limit

unfoldable pub within_limit : Limit → Text → Result Bool
unfolding encode
within_limit (max_chars n) s = ok (leb (length s) n)
within_limit (max_utf8_bytes n) s = do bytes ← encode s; ok (leb (length bytes) n)

module _ (p : Platform) (is_secret : Text → Bool) where
  unfoldable pub nfc_text : Error → Limit → Value → Result Text
  unfolding within_limit
  nfc_text code limit (str s) = do
    raise_if (not (leb 1 (length s))) code
    let normalized = p.nfc s
    fits ← within_limit limit normalized
    raise_if (not fits) code
    raise_if (is_secret normalized) (secret_material_rejected code)
    ok normalized
  nfc_text code limit _ = err code
