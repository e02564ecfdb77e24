-- ===== src/Sdk/Serialize.antt =====
-- sdk/python/qsol_fed_sdk.py, `_escape` and `serialize`, which normalizes again at every level.
-- Each level takes a unit of fuel; `_normalize` bounds the depth, so `max_depth + 1` suffices.
use qsol_fed.Base.{ℕ, zero, suc, ◌+◌, true, false, List, [], ◌∷◌, ◌++◌}
use qsol_fed.Base.Result.{Result, ok, err, ◌>>=◌, unsupported_value, out_of_fuel}
use qsol_fed.Base.Text.{Text, codes}
use qsol_fed.Platform.{Platform}
use qsol_fed.Json.{
  Value, Items, Fields, null, bool, int, str, arr, dict, pairs, other, nil, cons, end, field,
}
use qsol_fed.Json.Decimal.{str_int}
use qsol_fed.Json.Escape.{escape_chars}
use qsol_fed.Json.Members.{Member, sort_members}
use qsol_fed.Sdk.Normalize.{nfc, normalize, max_depth}

-- `serialize(child) for child in value`, and the same for the values of a dictionary
unfoldable pub join_items : (Value → Result Text) → Items → Result Text
join_items ser nil = ok []
join_items ser (cons x nil) = ser x
join_items ser (cons x (cons y xs)) = do
  t ← ser x
  rest ← join_items ser (cons y xs)
  ok (t ++ b',' ∷ rest)

unfoldable pub members : (Value → Result Text) → Fields → List Member
members ser end = []
members ser (field k v fs) = (k, ser v) ∷ members ser fs

module _ (p : Platform) where
  -- `_escape`
  unfoldable pub escape : Text → Result Text
  unfolding escape_chars
  escape s = do t ← nfc p s; ok (b'"' ∷ (escape_chars t ++ b'"' ∷ []))

  unfoldable pub join_members : List Member → Result Text
  unfolding escape
  join_members [] = ok []
  join_members ((k, r) ∷ []) = do key ← escape k; v ← r; ok (key ++ b':' ∷ v)
  join_members ((k, r) ∷ m ∷ ms) = do
    key ← escape k
    v ← r
    rest ← join_members (m ∷ ms)
    ok (key ++ b':' ∷ (v ++ b',' ∷ rest))

  -- what `serialize` does with the value that it normalized, given itself
  unfoldable pub serialize_normal : (Value → Result Text) → Value → Result Text
  unfolding escape join_items members join_members sort_members str_int
  serialize_normal ser null = ok (codes "null")
  serialize_normal ser (bool true) = ok (codes "true")
  serialize_normal ser (bool false) = ok (codes "false")
  serialize_normal ser (int n) = ok (str_int n)
  serialize_normal ser (str s) = escape s
  serialize_normal ser (arr xs) = do t ← join_items ser xs; ok (b'[' ∷ (t ++ b']' ∷ []))
  serialize_normal ser (dict fs) = do
    t ← join_members (sort_members (members ser fs))
    ok (b'{' ∷ (t ++ b'}' ∷ []))
  serialize_normal ser (pairs fs) = err unsupported_value
  serialize_normal ser other = err unsupported_value

  unfoldable pub serialize_fuel : ℕ → Value → Result Text
  unfolding serialize_normal
  serialize_fuel zero value = err out_of_fuel
  serialize_fuel (suc fuel) value = do
    normal ← normalize p value 1
    serialize_normal (serialize_fuel fuel) normal

  unfoldable pub serialize : Value → Result Text
  unfolding serialize_fuel
  serialize value = serialize_fuel (max_depth + 1) value
