-- ===== src/Canonical/Serialize.antt =====
-- tools/qsol_canonical.py, `_escape_string` and `serialize`.
use qsol_fed.Base.{true, false, List, [], ◌∷◌, ◌++◌, if◌then◌else◌}
use qsol_fed.Base.Result.{Result, ok, err, ◌>>=◌, integer_out_of_range, unsupported_value}
use qsol_fed.Base.Int.{within}
use qsol_fed.Base.Text.{Text, codes}
use qsol_fed.Platform.{Platform}
use qsol_fed.Json.{
  Value, Items, Fields, null, bool, int, str, arr, dict, pairs, other, nil, cons, end, field,
}
use qsol_fed.Json.Decimal.{str_int}
use qsol_fed.Json.Escape.{escape_chars}
use qsol_fed.Json.Members.{Member, sort_members}
use qsol_fed.Canonical.Normalize.{nfc, safe_integer_max}

module _ (p : Platform) where
  -- `_escape_string`
  unfoldable pub escape_string : Text → Result Text
  unfolding escape_chars
  escape_string s = do t ← nfc p s; ok (b'"' ∷ (escape_chars t ++ b'"' ∷ []))

  -- `",".join(_escape_string(key) + ":" + serialize(value[key]) for key in …)`
  unfoldable pub join_members : List Member → Result Text
  unfolding escape_string
  join_members [] = ok []
  join_members ((k, r) ∷ []) = do key ← escape_string k; v ← r; ok (key ++ b':' ∷ v)
  join_members ((k, r) ∷ m ∷ ms) = do
    key ← escape_string k
    v ← r
    rest ← join_members (m ∷ ms)
    ok (key ++ b':' ∷ (v ++ b',' ∷ rest))

  unfoldable mutual
    unfolding escape_string join_members sort_members str_int

    pub serialize : Value → Result Text
    serialize null = ok (codes "null")
    serialize (bool true) = ok (codes "true")
    serialize (bool false) = ok (codes "false")
    serialize (int n) =
        if within safe_integer_max n then ok (str_int n) else err integer_out_of_range
    serialize (str s) = escape_string s
    serialize (arr xs) = do t ← serialize_items xs; ok (b'[' ∷ (t ++ b']' ∷ []))
    serialize (dict fs) = do
      t ← join_members (sort_members (serialize_members fs))
      ok (b'{' ∷ (t ++ b'}' ∷ []))
    -- a `PairObject` is a list, of tuples
    serialize (pairs end) = ok (codes "[]")
    serialize (pairs (field _ _ _)) = err unsupported_value
    serialize other = err unsupported_value

    pub serialize_items : Items → Result Text
    serialize_items nil = ok []
    serialize_items (cons x nil) = serialize x
    serialize_items (cons x (cons y xs)) = do
      t ← serialize x
      rest ← serialize_items (cons y xs)
      ok (t ++ b',' ∷ rest)

    pub serialize_members : Fields → List Member
    serialize_members end = []
    serialize_members (field k v fs) = (k, serialize v) ∷ serialize_members fs
