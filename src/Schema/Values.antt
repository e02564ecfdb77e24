-- ===== src/Schema/Values.antt =====
-- What the schema evaluators test of one value: equality, types, bounds. A float is a value of another
-- type (`other`) and has no text.
use qsol_fed.Base.{ℕ, Bool, true, false, ◌&&◌, List, [], ◌∷◌, Option, none, some, if◌then◌else◌}
use qsol_fed.Base.Result.{Result, ok, err, ◌>>=◌, gate_error, unsupported_value}
use qsol_fed.Base.Int.{pos}
use qsol_fed.Base.Text.{Text, codes, text_eq}
use qsol_fed.Json.{
  Value, Items, Fields, null, bool, int, str, arr, dict, pairs, other, nil, cons, end, field,
  lookup,
}
use qsol_fed.Json.Print.{print}
use qsol_fed.Canonical.Arrange.{arrange}

-- no float at any depth
unfoldable mutual
  pub has_text : Value → Bool
  has_text other = false
  has_text (pairs fs) = false
  has_text (arr xs) = items_have_text xs
  has_text (dict fs) = fields_have_text fs
  has_text _ = true

  items_have_text : Items → Bool
  items_have_text nil = true
  items_have_text (cons x xs) = has_text x && items_have_text xs

  fields_have_text : Fields → Bool
  fields_have_text end = true
  fields_have_text (field k v fs) = has_text v && fields_have_text fs

-- `json.dumps(value, sort_keys=True, separators=(",", ":"), ensure_ascii=False)`
unfoldable pub dumps : Value → Result Text
unfolding print arrange has_text
dumps v = if has_text v then ok (print (arrange v)) else err unsupported_value

unfoldable pub json_equal : Value → Value → Result Bool
unfolding dumps text_eq
json_equal left right = do l ← dumps left; r ← dumps right; ok (text_eq l r)

-- `any(json_equal(value, item) for item in enum)`
unfoldable pub equal_to_any : Value → Items → Result Bool
unfolding json_equal
equal_to_any v nil = ok false
equal_to_any v (cons x xs) = do
  same ← json_equal v x
  others ← if same then ok true else equal_to_any v xs
  ok others

abbrev pub is_text : Value → Bool
is_text (str s) = true
is_text _ = false

-- `schema_type_matches` without the name `number`
unfoldable pub schema_type_matches : Value → Text → Result Bool
unfolding text_eq
schema_type_matches v name =
    if text_eq name (codes "object")
    then ok (elim v [ dict _ ↦ true | _ ↦ false ])
    else if text_eq name (codes "array")
    then ok (elim v [ arr _ ↦ true | _ ↦ false ])
    else if text_eq name (codes "string")
    then ok (is_text v)
    else if text_eq name (codes "integer")
    then ok (elim v [ int _ ↦ true | _ ↦ false ])
    else if text_eq name (codes "boolean")
    then ok (elim v [ bool _ ↦ true | _ ↦ false ])
    else if text_eq name (codes "null")
    then ok (elim v [ null ↦ true | _ ↦ false ])
    else err gate_error

-- `_schema_type_matches` of the phase 10 gate, which knows `number`
unfoldable pub schema_type_matches_number : Value → Text → Result Bool
unfolding schema_type_matches text_eq
schema_type_matches_number v name =
    if text_eq name (codes "number")
    then ok (elim v [ int _ ↦ true | other ↦ true | _ ↦ false ])
    else schema_type_matches v name

abbrev pub supported_schema_keywords : List Text
supported_schema_keywords =
    codes "$schema"
    ∷ codes "$id"
    ∷ codes "title"
    ∷ codes "type"
    ∷ codes "additionalProperties"
    ∷ codes "required"
    ∷ codes "properties"
    ∷ codes "const"
    ∷ codes "enum"
    ∷ codes "minLength"
    ∷ codes "maxLength"
    ∷ codes "pattern"
    ∷ codes "minItems"
    ∷ codes "maxItems"
    ∷ codes "items"
    ∷ []

-- `schema.get(key)`: a null is like a missing key
abbrev pub not_null : Option Value → Option Value
not_null none = none
not_null (some null) = none
not_null (some v) = some v

abbrev pub get : Text → Fields → Option Value
get k fs = not_null (lookup k fs)

-- `isinstance(bound, int) and bound >= 0`; a Boolean is an integer
abbrev pub as_bound : Value → Option ℕ
as_bound (int (pos n)) = some n
as_bound (bool true) = some 1
as_bound (bool false) = some 0
as_bound _ = none
