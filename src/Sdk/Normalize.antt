-- ===== src/Sdk/Normalize.antt =====
-- sdk/python/qsol_fed_sdk.py, `_nfc` and `_normalize`. Unlike the profile's own normalizer it takes
-- dictionaries too. A dictionary's keys are texts here: a key of another type is not modelled.
use qsol_fed.Base.{ℕ, ◌+◌, ◌^◌, ◌-◌, List, [], ◌∷◌, ltb, if◌then◌else◌, length}
use qsol_fed.Base.Result.{
  Result, ok, err, ◌>>=◌, ◌>>◌, raise_if, lone_surrogate, string_too_large, max_depth_exceeded,
  integer_out_of_range, too_many_object_members, duplicate_key, normalized_duplicate_key,
  too_many_array_items, unsupported_value,
}
use qsol_fed.Base.Int.{within}
use qsol_fed.Base.Text.{Text, contains}
use qsol_fed.Base.Utf8.{has_surrogate, encode}
use qsol_fed.Platform.{Platform}
use qsol_fed.Json.{
  Value, Items, Fields, null, bool, int, str, arr, dict, pairs, other, nil, cons, end, field,
  count_fields, count_items,
}

abbrev pub safe_integer_max : ℕ
safe_integer_max = 2 ^ 53 - 1

abbrev pub max_depth : ℕ
max_depth = 32

abbrev pub max_string_utf8 : ℕ
max_string_utf8 = 8192

abbrev pub max_array_items : ℕ
max_array_items = 1024

abbrev pub max_object_members : ℕ
max_object_members = 1024

module _ (p : Platform) where
  -- `_nfc`
  unfoldable pub nfc : Text → Result Text
  nfc value = do
    raise_if (has_surrogate value) lone_surrogate
    let normalized = p.nfc value
    bytes ← encode normalized
    raise_if (ltb max_string_utf8 (length bytes)) string_too_large
    ok normalized

  -- `_normalize`, with its three loops
  unfoldable mutual
    pub normalize : Value → ℕ → Result Value
    normalize null depth = do raise_if (ltb max_depth depth) max_depth_exceeded; ok null
    normalize (bool b) depth = do raise_if (ltb max_depth depth) max_depth_exceeded; ok (bool b)
    normalize (int n) depth = do
      raise_if (ltb max_depth depth) max_depth_exceeded
      if within safe_integer_max n then ok (int n) else err integer_out_of_range
    normalize (str s) depth = do
      raise_if (ltb max_depth depth) max_depth_exceeded
      t ← nfc s
      ok (str t)
    normalize (pairs fs) depth = do
      raise_if (ltb max_depth depth) max_depth_exceeded
      raise_if (ltb max_object_members (count_fields fs)) too_many_object_members
      result ← normalize_pairs fs [] [] depth
      ok (dict result)
    normalize (arr xs) depth = do
      raise_if (ltb max_depth depth) max_depth_exceeded
      raise_if (ltb max_array_items (count_items xs)) too_many_array_items
      result ← normalize_items xs depth
      ok (arr result)
    normalize (dict fs) depth = do
      raise_if (ltb max_depth depth) max_depth_exceeded
      raise_if (ltb max_object_members (count_fields fs)) too_many_object_members
      result ← normalize_members fs [] depth
      ok (dict result)
    normalize other depth = do
      raise_if (ltb max_depth depth) max_depth_exceeded
      err unsupported_value

    pub normalize_pairs : Fields → List Text → List Text → ℕ → Result Fields
    normalize_pairs end raw_seen nfc_seen depth = ok end
    normalize_pairs (field raw_key child rest) raw_seen nfc_seen depth = do
      raise_if (contains raw_seen raw_key) duplicate_key
      key ← nfc raw_key
      raise_if (contains nfc_seen key) normalized_duplicate_key
      value ← normalize child (depth + 1)
      result ← normalize_pairs rest (raw_key ∷ raw_seen) (key ∷ nfc_seen) depth
      ok (field key value result)

    -- `seen` holds the keys of the result so far
    pub normalize_members : Fields → List Text → ℕ → Result Fields
    normalize_members end seen depth = ok end
    normalize_members (field raw_key child rest) seen depth = do
      key ← nfc raw_key
      raise_if (contains seen key) normalized_duplicate_key
      value ← normalize child (depth + 1)
      result ← normalize_members rest (key ∷ seen) depth
      ok (field key value result)

    pub normalize_items : Items → ℕ → Result Items
    normalize_items nil depth = ok nil
    normalize_items (cons child rest) depth = do
      value ← normalize child (depth + 1)
      result ← normalize_items rest depth
      ok (cons value result)
