-- ===== src/Schema/Evaluate.antt =====
-- `json_equal`, `schema_type_matches` and `validate_schema_instance` of the two gates. The two evaluators
-- have one text but for three places: the type `number`, the checks of `required`, and a pattern that is
-- no regular expression. A `Dialect` says what each does there. Every message of a GateError is one error
-- here, and `re.search` is a parameter. A float is a value of another type (`other`) and has no text.
use qsol_fed.Base.{
  ℕ, zero, suc, ◌+◌, Bool, true, false, not, leb, length, all, Option, none, some, if◌then◌else◌,
}
use qsol_fed.Base.Result.{Result, ok, err, ◌>>=◌, ◌>>◌, raise_if, gate_error, re_error, out_of_fuel}
use qsol_fed.Base.Text.{Text, codes, contains}
use qsol_fed.Json.{
  Value, Items, Fields, bool, str, arr, dict, pairs, nil, cons, end, field, keys, lookup, has_key,
  count_items,
}
use qsol_fed.Sdk.Fields.{all_items, has_duplicates, as_dict, as_list, require}
use qsol_fed.Schema.Values.{
  json_equal, equal_to_any, is_text, schema_type_matches, schema_type_matches_number,
  supported_schema_keywords, get, as_bound,
}

-- Where the two evaluators differ.
pub record Dialect : Type 0 where
  pub type_matches : Value → Text → Result Bool
  pub check_required : Items → Result (Unit {0})
  pub search : Text → Text → Result Bool

abbrev pub if_present : Option Value → (Value → Result (Unit {0})) → Result (Unit {0})
if_present none check = ok tt
if_present (some v) check = check v

-- a bound of the schema, and whether the size respects it
abbrev pub check_bound : Option ℕ → (ℕ → Bool) → Result (Unit {0})
check_bound none test = err gate_error
check_bound (some n) test = raise_if (not (test n)) gate_error

-- `minItems`, `minLength`
unfoldable pub check_minimum : Text → Fields → ℕ → Result (Unit {0})
unfolding lookup
check_minimum key fs size =
    if_present (get key fs) λ minimum. check_bound (as_bound minimum) (λ n. leb n size)

-- `maxItems`, `maxLength`
unfoldable pub check_maximum : Text → Fields → ℕ → Result (Unit {0})
unfolding lookup
check_maximum key fs size =
    if_present (get key fs) λ maximum. check_bound (as_bound maximum) (λ n. leb size n)

-- every required key is in the value
unfoldable pub require_keys : Items → Fields → Result (Unit {0})
unfolding has_key
require_keys nil value = ok tt
require_keys (cons (str k) xs) value = do
  raise_if (not (has_key k value)) gate_error
  require_keys xs value
require_keys (cons _ xs) value = err gate_error

-- `schema.get("required", [])`, which has to be a list
abbrev pub items_or_none : Option Value → Result Items
items_or_none none = ok nil
items_or_none (some (arr xs)) = ok xs
items_or_none (some v) = err gate_error

-- `schema.get("properties", {})`, which has to be a dictionary
abbrev pub fields_or_none : Option Value → Result Fields
fields_or_none none = ok end
fields_or_none (some (dict fs)) = ok fs
fields_or_none (some v) = err gate_error

-- `set(value) - set(properties)` is empty
abbrev pub no_extras : Fields → Fields → Bool
no_extras properties value = all (λ k. has_key k properties) (keys value)

-- what validates a value against a schema
abbrev pub Validator : Type 0
Validator = Value → Value → Result (Unit {0})

-- the values under the extra keys, in the order of the value (Python's set has none)
unfoldable pub validate_extras : Validator → Value → Fields → Fields → Result (Unit {0})
unfolding has_key
validate_extras self additional properties end = ok tt
validate_extras self additional properties (field k v rest) = do
  if has_key k properties then ok tt else self v additional
  validate_extras self additional properties rest

unfoldable pub validate_properties : Validator → Fields → Fields → Result (Unit {0})
unfolding lookup
validate_properties self value end = ok tt
validate_properties self value (field k child_schema rest) = do
  if_present (lookup k value) (λ v. self v child_schema)
  validate_properties self value rest

unfoldable pub validate_items : Validator → Value → Items → Result (Unit {0})
validate_items self item_schema nil = ok tt
validate_items self item_schema (cons x xs) = do
  self x item_schema
  validate_items self item_schema xs

-- `schema.get("additionalProperties", True)`
abbrev pub additional_properties : Fields → Value
additional_properties fs = elim (lookup (codes "additionalProperties") fs) [
  | none ↦ bool true
  | some v ↦ v
]

abbrev pub bool_or_dict : Value → Bool
bool_or_dict (bool b) = true
bool_or_dict (dict fs) = true
bool_or_dict _ = false

-- `if additional is False` and `elif isinstance(additional, dict)`
unfoldable pub check_extras : Validator → Value → Fields → Fields → Result (Unit {0})
unfolding validate_extras has_key keys all
check_extras self (bool false) properties value =
    raise_if (not (no_extras properties value)) gate_error
check_extras self (dict schema) properties value =
    validate_extras self (dict schema) properties value
check_extras self _ properties value = ok tt

-- the branch `isinstance(value, dict)`; the checks of the schema's own shape, which all raise the same
-- error, stand in the first gate's order
unfoldable pub validate_object : Dialect → Validator → Fields → Fields → Result (Unit {0})
unfolding lookup require_keys check_extras validate_properties
validate_object d self value fs = do
  required ← items_or_none (lookup (codes "required") fs)
  d.check_required required
  properties ← fields_or_none (lookup (codes "properties") fs)
  raise_if (not (bool_or_dict (additional_properties fs))) gate_error
  require_keys required value
  check_extras self (additional_properties fs) properties value
  validate_properties self value properties

-- the branch `isinstance(value, list)`
unfoldable pub validate_array : Validator → Items → Fields → Result (Unit {0})
unfolding lookup check_minimum check_maximum validate_items
validate_array self xs fs = do
  check_minimum (codes "minItems") fs (count_items xs)
  check_maximum (codes "maxItems") fs (count_items xs)
  if_present (get (codes "items") fs) λ item_schema. do
    raise_if (not (elim item_schema [ dict _ ↦ true | _ ↦ false ])) gate_error
    validate_items self item_schema xs

-- a test on a value that was found to be a text
abbrev pub with_text : Value → (Text → Result Bool) → Result Bool
with_text (str s) test = test s
with_text _ test = ok true

-- the branch `isinstance(value, str)`
unfoldable pub validate_text : Dialect → Text → Fields → Result (Unit {0})
unfolding lookup check_minimum check_maximum
validate_text d s fs = do
  check_minimum (codes "minLength") fs (length s)
  check_maximum (codes "maxLength") fs (length s)
  if_present (get (codes "pattern") fs) λ pattern. do
    raise_if (not (is_text pattern)) gate_error
    matched ← with_text pattern (λ p. d.search p s)
    raise_if (not matched) gate_error

unfoldable pub check_const : Value → Fields → Result (Unit {0})
unfolding lookup json_equal
check_const v fs =
    if_present (lookup (codes "const") fs)
      λ constant. do same ← json_equal v constant; raise_if (not same) gate_error

unfoldable pub check_enum : Value → Fields → Result (Unit {0})
unfolding lookup equal_to_any
check_enum v fs = if_present (lookup (codes "enum") fs) λ enum. do
  xs ← require (as_list enum) (err gate_error)
  raise_if (not (leb 1 (count_items xs))) gate_error
  found ← equal_to_any v xs
  raise_if (not found) gate_error

unfoldable pub check_type : Dialect → Value → Fields → Result (Unit {0})
unfolding lookup
check_type d v fs = if_present (get (codes "type") fs) λ type_name. do
  raise_if (not (is_text type_name)) gate_error
  matches ← with_text type_name (d.type_matches v)
  raise_if (not matches) gate_error

-- one call of `validate_schema_instance`, given the function itself for the nested values
unfoldable pub validate_step : Dialect → Validator → Validator
unfolding as_dict contains keys check_const check_enum check_type validate_object validate_array
    validate_text all
validate_step d self v schema = do
  fs ← require (as_dict schema) (err gate_error)
  raise_if (not (all (contains supported_schema_keywords) (keys fs))) gate_error
  check_const v fs
  check_enum v fs
  check_type d v fs
  elim v [
    | dict value ↦ validate_object d self value fs
    | arr xs ↦ validate_array self xs fs
    | str s ↦ validate_text d s fs
    | _ ↦ ok tt
  ]

unfoldable pub validate_fuel : Dialect → ℕ → Validator
unfolding validate_step
validate_fuel d zero v schema = err out_of_fuel
validate_fuel d (suc fuel) v schema = validate_step d (validate_fuel d fuel) v schema

-- Every call descends into the schema: its depth is enough fuel.
unfoldable mutual
  pub depth : Value → ℕ
  depth (dict fs) = suc (depth_fields fs)
  depth (arr xs) = suc (depth_items xs)
  depth (pairs fs) = suc (depth_fields fs)
  depth _ = 0

  pub depth_items : Items → ℕ
  depth_items nil = 0
  depth_items (cons x xs) = depth x + depth_items xs

  pub depth_fields : Fields → ℕ
  depth_fields end = 0
  depth_fields (field k v fs) = depth v + depth_fields fs

unfoldable pub validate_schema_instance : Dialect → Validator
unfolding validate_fuel depth
validate_schema_instance d v schema = validate_fuel d (suc (depth schema)) v schema

module _ (search : Text → Text → Option Bool) where
  -- tools/validate_empirical_assurance_core.py: `set(required)` comes first, and an invalid pattern
  -- raises `re.error`
  unfoldable pub empirical_dialect : Dialect
  unfolding schema_type_matches has_duplicates all_items
  empirical_dialect = record {
    type_matches = schema_type_matches;
    check_required = λ required. do
      duplicates ← has_duplicates required
      raise_if duplicates gate_error
      raise_if (not (all_items is_text required)) gate_error;
    search = λ p s. elim (search p s) [ none ↦ err re_error | some b ↦ ok b ];
  }

  -- tools/validate_phase10_gate_base.py
  unfoldable pub phase10_dialect : Dialect
  unfolding schema_type_matches_number has_duplicates all_items
  phase10_dialect = record {
    type_matches = schema_type_matches_number;
    check_required = λ required. do
      raise_if (not (all_items is_text required)) gate_error
      duplicates ← has_duplicates required
      raise_if duplicates gate_error;
    search = λ p s. elim (search p s) [ none ↦ err gate_error | some b ↦ ok b ];
  }
