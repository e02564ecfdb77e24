-- ===== src/Schema/Total.antt =====
-- The evaluators always return: the depth of the schema is enough fuel, and more changes nothing.
use qsol_fed.Base.{
  ℕ, zero, suc, ◌≤◌, ◌<◌, ◌≡◌, refl, Bool, true, false, Option, none, some, arith, length,
}
use qsol_fed.Base.Result.{Result, ok, err, gate_error}
use qsol_fed.Base.Runs.{Runs, Runs-ok, Runs-if, Runs-bind}
use qsol_fed.Base.Text.{Text, codes}
use qsol_fed.Json.{
  Value, Items, Fields, null, bool, int, str, arr, dict, pairs, other, nil, cons, end, field,
  lookup, has_key, count_items,
}
use qsol_fed.Sdk.Fields.{as_dict, as_list, require}
use qsol_fed.Schema.Values.{get}
use qsol_fed.Schema.Evaluate.{
  Dialect, Validator, with_text, additional_properties, validate_extras, validate_properties,
  validate_items, check_extras, check_const, check_enum, check_type, validate_object,
  validate_array, validate_text, validate_step, validate_fuel, depth, depth_fields,
}
use qsol_fed.Schema.Fuel.{
  Runs-gate, Runs-require, Runs-present, lookup-depth, not_null-eq, json_equal-Runs,
  equal_to_any-Runs, check_minimum-Runs, check_maximum-Runs, require_keys-Runs, items_or_none-Runs,
  fields_or_none-Runs, properties-depth,
}

-- the parts of a dialect that do not recurse
pub record DialectRuns (d : Dialect) : Type 0 where
  pub type_matches : (v : Value) (name : Text) → Runs (d.type_matches v name)
  pub check_required : (xs : Items) → Runs (d.check_required xs)
  pub search : (pattern s : Text) → Runs (d.search pattern s)

pub with_text-Runs :
    (v : Value) (f : Text → Result Bool) → ((s : Text) → Runs (f s)) → Runs (with_text v f)
with_text-Runs (str s) f h = h s
with_text-Runs null f h = Runs-ok true
with_text-Runs (bool b) f h = Runs-ok true
with_text-Runs (int n) f h = Runs-ok true
with_text-Runs (arr xs) f h = Runs-ok true
with_text-Runs (dict fs) f h = Runs-ok true
with_text-Runs (pairs fs) f h = Runs-ok true
with_text-Runs other f h = Runs-ok true

module _ (d : Dialect) (dr : DialectRuns d) (self : Validator) (n : ℕ)
    (h : (v s : Value) → depth s < n → Runs (self v s)) where
  validate_extras-Runs :
      (additional : Value) (properties value : Fields)
      → depth additional < n
      → Runs (validate_extras self additional properties value)
  unfolding validate_extras
  validate_extras-Runs additional properties end l = Runs-ok tt
  validate_extras-Runs additional properties (field k v rest) l =
      Runs-bind _ _ (Runs-if (has_key k properties) _ _ (Runs-ok tt) (h v additional l))
        λ _ _. validate_extras-Runs additional properties rest l

  validate_properties-Runs :
      (value props : Fields) → depth_fields props < n → Runs (validate_properties self value props)
  unfolding validate_properties depth
  validate_properties-Runs value end l = Runs-ok tt
  validate_properties-Runs value (field k child rest) l =
      Runs-bind _ _
        (Runs-present (lookup k value) (λ v. self v child) λ v _. h v child (omega arith))
        λ _ _. validate_properties-Runs value rest (omega arith)

  validate_items-Runs :
      (schema : Value) (xs : Items) → depth schema < n → Runs (validate_items self schema xs)
  unfolding validate_items
  validate_items-Runs schema nil l = Runs-ok tt
  validate_items-Runs schema (cons x xs) l =
      Runs-bind _ _ (h x schema l) λ _ _. validate_items-Runs schema xs l

  check_extras-Runs :
      (additional : Value) (properties value : Fields)
      → depth additional < n
      → Runs (check_extras self additional properties value)
  unfolding check_extras
  check_extras-Runs (bool false) properties value l = Runs-gate _
  check_extras-Runs (bool true) properties value l = Runs-ok tt
  check_extras-Runs (dict schema) properties value l =
      validate_extras-Runs (dict schema) properties value l
  check_extras-Runs null properties value l = Runs-ok tt
  check_extras-Runs (int m) properties value l = Runs-ok tt
  check_extras-Runs (str s) properties value l = Runs-ok tt
  check_extras-Runs (arr xs) properties value l = Runs-ok tt
  check_extras-Runs (pairs fs) properties value l = Runs-ok tt
  check_extras-Runs other properties value l = Runs-ok tt

  pub additional-depth : (fs : Fields) → depth_fields fs < n → depth (additional_properties fs) < n
  unfolding depth
  additional-depth fs l =
      by_extra (lookup (codes "additionalProperties") fs)
        λ v. lookup-depth (codes "additionalProperties") fs v
    where
      by_extra :
          (o : Option Value)
          → ((v : Value) → o ≡ some v → depth v ≤ depth_fields fs)
          → depth (elim o [ none ↦ bool true | some v ↦ v ]) < n
      by_extra none k = omega arith
      by_extra (some v) k = let deep = k v refl in omega arith

  validate_object-Runs :
      (value fs : Fields) → depth_fields fs < n → Runs (validate_object d self value fs)
  unfolding validate_object
  validate_object-Runs value fs l =
      Runs-bind _ _ (items_or_none-Runs (lookup (codes "required") fs)) λ required _.
        Runs-bind _ _ (dr.check_required required) λ _ _.
          Runs-bind _ _ (fields_or_none-Runs (lookup (codes "properties") fs))
            λ properties declared.
              (let deep = properties-depth (codes "properties") fs properties declared in
                Runs-bind _ _ (Runs-gate _) λ _ _.
                  Runs-bind _ _ (require_keys-Runs required value) λ _ _.
                    Runs-bind _ _
                      (check_extras-Runs (additional_properties fs) properties value
                        (additional-depth fs l))
                      λ _ _. validate_properties-Runs value properties (omega arith))

  validate_array-Runs :
      (xs : Items) (fs : Fields) → depth_fields fs < n → Runs (validate_array self xs fs)
  unfolding validate_array
  validate_array-Runs xs fs l =
      Runs-bind _ _ (check_minimum-Runs (codes "minItems") fs (count_items xs)) λ _ _.
        Runs-bind _ _ (check_maximum-Runs (codes "maxItems") fs (count_items xs)) λ _ _.
          Runs-present (get (codes "items") fs) _ λ schema e.
            (let deep =
                lookup-depth (codes "items") fs schema
                  (not_null-eq (lookup (codes "items") fs) schema e) in
              Runs-bind _ _ (Runs-gate _) λ _ _. validate_items-Runs schema xs (omega arith))

  validate_text-Runs : (s : Text) (fs : Fields) → Runs (validate_text d s fs)
  unfolding validate_text
  validate_text-Runs s fs =
      Runs-bind _ _ (check_minimum-Runs (codes "minLength") fs (length s)) λ _ _.
        Runs-bind _ _ (check_maximum-Runs (codes "maxLength") fs (length s)) λ _ _.
          Runs-present (get (codes "pattern") fs) _ λ pattern _. Runs-bind _ _ (Runs-gate _) λ _ _.
            Runs-bind _ _ (with_text-Runs pattern (λ p. d.search p s) λ p. dr.search p s)
              λ matched _. Runs-gate _

  check_const-Runs : (v : Value) (fs : Fields) → Runs (check_const v fs)
  unfolding check_const
  check_const-Runs v fs =
      Runs-present (lookup (codes "const") fs) _
        λ constant _. Runs-bind _ _ (json_equal-Runs v constant) λ same _. Runs-gate _

  check_enum-Runs : (v : Value) (fs : Fields) → Runs (check_enum v fs)
  unfolding check_enum
  check_enum-Runs v fs = Runs-present (lookup (codes "enum") fs) _ λ enum _.
      Runs-bind _ _ (Runs-require (as_list enum)) λ xs _.
        Runs-bind _ _ (Runs-gate _)
          λ _ _. Runs-bind _ _ (equal_to_any-Runs v xs) λ found _. Runs-gate _

  check_type-Runs : (v : Value) (fs : Fields) → Runs (check_type d v fs)
  unfolding check_type
  check_type-Runs v fs = Runs-present (get (codes "type") fs) _ λ type_name _.
      Runs-bind _ _ (Runs-gate _) λ _ _.
        Runs-bind _ _ (with_text-Runs type_name (d.type_matches v) λ name. dr.type_matches v name)
          λ matches _. Runs-gate _

  as_dict-depth :
      (schema : Value) (fs : Fields)
      → require (as_dict schema) (err gate_error) ≡ ok fs
      → depth schema ≤ n
      → depth_fields fs < n
  unfolding as_dict depth
  as_dict-depth (dict gs) fs q l = let same : gs ≡ fs = cc in rw (← same) (omega arith)
  as_dict-depth null fs q l = cc
  as_dict-depth (bool b) fs q l = cc
  as_dict-depth (int m) fs q l = cc
  as_dict-depth (str s) fs q l = cc
  as_dict-depth (arr xs) fs q l = cc
  as_dict-depth (pairs gs) fs q l = cc
  as_dict-depth other fs q l = cc

  validate_step-Runs : (v schema : Value) → depth schema ≤ n → Runs (validate_step d self v schema)
  unfolding validate_step
  validate_step-Runs v schema l = Runs-bind _ _ (Runs-require (as_dict schema)) λ fs found.
      Runs-bind _ _ (Runs-gate _) λ _ _. Runs-bind _ _ (check_const-Runs v fs) λ _ _.
        Runs-bind _ _ (check_enum-Runs v fs) λ _ _.
          Runs-bind _ _ (check_type-Runs v fs) λ _ _. by_kind v fs (as_dict-depth schema fs found l)
    where
      by_kind :
          (v : Value) (fs : Fields)
          → depth_fields fs < n
          → Runs {A = Unit {0}} (elim v [
            | dict value ↦ validate_object d self value fs
            | arr xs ↦ validate_array self xs fs
            | str s ↦ validate_text d s fs
            | _ ↦ ok tt
          ])
      by_kind (dict value) fs k = validate_object-Runs value fs k
      by_kind (arr xs) fs k = validate_array-Runs xs fs k
      by_kind (str s) fs k = validate_text-Runs s fs
      by_kind null fs k = Runs-ok tt
      by_kind (bool b) fs k = Runs-ok tt
      by_kind (int m) fs k = Runs-ok tt
      by_kind (pairs gs) fs k = Runs-ok tt
      by_kind other fs k = Runs-ok tt

pub validate_fuel-Runs :
    (d : Dialect)
    → DialectRuns d
    → (n : ℕ) (v schema : Value) → depth schema ≤ n
    → Runs (validate_fuel d (suc n) v schema)
unfolding validate_fuel
validate_fuel-Runs d dr zero v schema l =
    validate_step-Runs d dr (validate_fuel d zero) zero (λ w s k. absurd (omega arith)) v schema
      (omega arith)
validate_fuel-Runs d dr (suc n) v schema l =
    validate_step-Runs d dr (validate_fuel d (suc n)) (suc n)
      (λ w s k. validate_fuel-Runs d dr n w s (omega arith)) v schema l
