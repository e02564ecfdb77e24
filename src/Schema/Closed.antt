-- ===== src/Schema/Closed.antt =====
-- What acceptance says of an object whose schema has `additionalProperties: false`.
use qsol_fed.Base.{
  ◌≤◌, ◌≡◌, refl, sym, ◌∙◌, Bool, true, false, not, &&-eq-true, Option, none, some, inl, inr, arith,
  all, Bool-cases,
}
use qsol_fed.Base.Result.{Result, ok, ◌>>=◌, ◌>>◌, raise_if, raise_if-eq-ok, >>=-eq-ok, gate_error}
use qsol_fed.Base.Text.{Text, codes, text_eq, text_eq_iff}
use qsol_fed.Json.{
  Value, Items, Fields, null, bool, int, arr, pairs, other, str, dict, nil, cons, end, field,
  lookup, has_key, keys,
}
use qsol_fed.Sdk.Fields.{as_dict, all_items}
use qsol_fed.Schema.Evaluate.{
  Dialect, Validator, items_or_none, fields_or_none, if_present, additional_properties, no_extras,
  require_keys, validate_properties, check_const, check_enum, check_type, check_extras,
  validate_object, validate_step, validate_fuel, validate_schema_instance, depth, depth_fields,
}
use qsol_fed.Schema.Fuel.{properties-depth, lookup-depth}
use qsol_fed.Schema.Total.{DialectRuns}
use qsol_fed.Schema.Agree.{validate_fuel-enough}

-- the last step of an accepted chain
then-ok : {A : Type 0} (m : Result A) (r : Result (Unit {0})) → (m >> r) ≡ ok tt → r ≡ ok tt
then-ok m r h = (>>=-eq-ok m (λ _. r) h).2

raised-ok :
    (b : Bool) (r : Result (Unit {0}))
    → (raise_if (not b) gate_error >> r) ≡ ok tt
    → (b ≡ true) × (r ≡ ok tt)
unfolding ◌>>=◌ raise_if
raised-ok true r h = (refl, h)
raised-ok false r h = cc

pub has_key-declared :
    (k : Text) (props : Fields)
    → has_key k props ≡ true
    → (child : Value) × (lookup k props ≡ some child)
unfolding has_key lookup
has_key-declared k end h = cc
has_key-declared k (field j child rest) h = elim (Bool-cases (text_eq j k)) [
  | inl e ↦ (child, (rw e))
  | inr e ↦ (let deep = has_key-declared k rest (rw e at h) in (deep.0, (rw e deep.1)))
]

keys-declared :
    (k : Text) (props value : Fields) (v : Value)
    → no_extras props value ≡ true
    → lookup k value ≡ some v
    → has_key k props ≡ true
unfolding lookup keys all
keys-declared k props end v h q = cc
keys-declared k props (field j w rest) v h q = elim (Bool-cases (text_eq j k)) [
  | inl e ↦ (let same = (text_eq_iff j k).0 e in rw (← same) (&&-eq-true _ _ h).0)
  | inr e ↦ keys-declared k props rest v (&&-eq-true _ _ h).1 (rw e at q)
]

validated :
    (self : Validator) (k : Text) (value props : Fields) (v child : Value)
    → validate_properties self value props ≡ ok tt
    → lookup k props ≡ some child
    → lookup k value ≡ some v
    → self v child ≡ ok tt
unfolding validate_properties lookup
validated self k value end v child h p q = cc
validated self k value (field j schema rest) v child h p q = elim (Bool-cases (text_eq j k)) [
  | inl e ↦ here e
  | inr e ↦ validated self k value rest v child (then-ok _ _ h) (rw e at p) q
]
  where
    present :
        (o : Option Value)
        → o ≡ some v
        → (if_present o (λ w. self w schema) >> validate_properties self value rest) ≡ ok tt
        → self v schema ≡ ok tt
    present none q g = cc
    present (some w) q g = let same : w ≡ v = cc in rw (← same) (>>=-eq-ok _ _ g).1

    here : text_eq j k ≡ true → self v child ≡ ok tt
    here e =
        let same : j ≡ k = (text_eq_iff j k).0 e in
        let is_child : some schema ≡ some child = rw e at p in
        let one : schema ≡ child = cc in rw (← one) (present (lookup j value) (rw same q) h)

-- a required key is in the value
abbrev pub requires : Fields → Value → Bool
requires value (str k) = has_key k value
requires value _ = false

required-present :
    (xs : Items) (value : Fields)
    → require_keys xs value ≡ ok tt
    → all_items (requires value) xs ≡ true
unfolding require_keys all_items
required-present nil value h = refl
required-present (cons (str k) xs) value h =
    let (there, later) = raised-ok _ _ h in rw there (required-present xs value later)
required-present (cons null xs) value h = cc
required-present (cons (bool b) xs) value h = cc
required-present (cons (int n) xs) value h = cc
required-present (cons (arr ys) xs) value h = cc
required-present (cons (dict fs) xs) value h = cc
required-present (cons (pairs fs) xs) value h = cc
required-present (cons other xs) value h = cc

child-depth :
    (k : Text) (props : Fields) (child : Value)
    → lookup k props ≡ some child
    → depth child ≤ depth_fields props
child-depth k props child p = lookup-depth k props child p

ok-inj : {A : Type 0} {r : Result A} {a b : A} → r ≡ ok a → r ≡ ok b → a ≡ b
ok-inj p q = cc

module _ (self : Validator) where
  shut_at :
      (ps value : Fields) {u : Unit {0}}
      → check_extras self (bool false) ps value ≡ ok u
      → no_extras ps value ≡ true
  unfolding check_extras
  shut_at ps value g =
      let passed = raise_if-eq-ok (not (no_extras ps value)) gate_error g in ground arith

module _ (d : Dialect) (dr : DialectRuns d) where
  -- what is known of an accepted object, before the fuel of the nested calls is forgotten
  accepted_object :
      (self : Validator) (value fs props : Fields) (required : Items)
      → lookup (codes "additionalProperties") fs ≡ some (bool false)
      → fields_or_none (lookup (codes "properties") fs) ≡ ok props
      → items_or_none (lookup (codes "required") fs) ≡ ok required
      → validate_object d self value fs ≡ ok tt
      → (require_keys required value ≡ ok tt)
        × (no_extras props value ≡ true)
        × (validate_properties self value props ≡ ok tt)
  unfolding validate_object check_extras
  accepted_object self value fs props required closed declared listed h =
      let one = >>=-eq-ok _ _ h in
      let two = >>=-eq-ok _ _ one.2 in
      let three = >>=-eq-ok _ _ two.2 in
      let four = >>=-eq-ok _ _ three.2 in
      let five = >>=-eq-ok _ _ four.2 in
      let six = >>=-eq-ok _ _ five.2 in
      let same_required : one.0 ≡ required = ok-inj one.1 listed in
      let same_props : three.0 ≡ props = ok-inj three.1 declared in
      let shut : additional_properties fs ≡ bool false = rw (additional_properties, closed) refl in
      (
        (rw (← same_required) five.1),
        (rw (← same_props) (shut_out (additional_properties fs) shut three.0 value six.1)),
        (rw (← same_props) six.2),
      )
    where
      shut_out :
          (a : Value)
          → a ≡ bool false
          → (ps value : Fields) {u : Unit {0}} → check_extras self a ps value ≡ ok u
          → no_extras ps value ≡ true
      shut_out a q ps value g = shut_at self ps value (rw q at g)

  accepted_step :
      (self : Validator) (value fs : Fields)
      → validate_step d self (dict value) (dict fs) ≡ ok tt
      → validate_object d self value fs ≡ ok tt
  unfolding validate_step as_dict ◌>>=◌
  accepted_step self value fs h =
      let const_enum_type = (>>=-eq-ok (raise_if _ gate_error) _ h).2 in
      let enum_type = (>>=-eq-ok (check_const (dict value) fs) _ const_enum_type).2 in
      let type_shape = (>>=-eq-ok (check_enum (dict value) fs) _ enum_type).2 in
      (>>=-eq-ok (check_type d (dict value) fs) _ type_shape).2

  -- In either dialect (the parts of `d` that do not recurse return): an object accepted under
  -- `additionalProperties: false` has every required key and no undeclared one, and each of its values is accepted by the schema declared for its key.
  pub closed_object :
      (value fs props : Fields) (required : Items)
      → lookup (codes "additionalProperties") fs ≡ some (bool false)
      → fields_or_none (lookup (codes "properties") fs) ≡ ok props
      → items_or_none (lookup (codes "required") fs) ≡ ok required
      → validate_schema_instance d (dict value) (dict fs) ≡ ok tt
      → (all_items (requires value) required ≡ true)
        × ((k : Text) (v : Value)
            → lookup k value ≡ some v
            → (child : Value) × (lookup k props ≡ some child)
              × (validate_schema_instance d v child ≡ ok tt))
  unfolding validate_schema_instance validate_fuel depth
  closed_object value fs props required closed declared listed h =
      let self = validate_fuel d (depth (dict fs)) in
      let (keyed, shut, checked) =
        accepted_object self value fs props required closed declared listed
          (accepted_step self value fs h) in
      (
        required-present required value keyed,
        λ k v found.
            (let (child, there) =
                has_key-declared k props (keys-declared k props value v shut found) in
              let accepted = validated self k value props v child checked there found in
              let below = child-depth k props child there in
              let above = properties-depth (codes "properties") fs props declared in
              (
                child,
                there,
                sym (validate_fuel-enough d dr (depth (dict fs)) v child (omega arith)) ∙ accepted,
              )),
      )
