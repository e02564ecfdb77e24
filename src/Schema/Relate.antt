-- ===== src/Schema/Relate.antt =====
-- Two runs of the evaluator compared: they agree, or the first failed with an excused error.
use qsol_fed.Base.{
  ℕ, zero, suc, ◌≤◌, ◌≡◌, refl, Bool, true, false, Option, none, some, if◌then◌else◌, ◌⊎◌, inl, inr,
  arith,
}
use qsol_fed.Base.Result.{Error, Result, ok, err, ◌>>=◌, out_of_fuel}
use qsol_fed.Base.Text.{Text}
use qsol_fed.Json.{
  Value, Items, Fields, null, bool, int, str, arr, dict, pairs, other, nil, cons, end, field,
  lookup, has_key,
}
use qsol_fed.Schema.Evaluate.{
  Dialect, Validator, with_text, if_present, additional_properties, validate_extras,
  validate_properties, validate_items, check_extras, check_type, validate_object, validate_array,
  validate_text, validate_step, validate_fuel,
}

module _ (Excused : Error → Type 0) where
  pub record Upto {A : Type 0} (r s : Result A) : Type 0 where
    pub at : ((e : Error) × (r ≡ err e) × Excused e) ⊎ (r ≡ s)

  module _ {A : Type 0} where
    pub Upto-same : (r : Result A) → Upto r r
    Upto-same r = record { at = inr refl }

    pub Upto-err : (e : Error) (s : Result A) → Excused e → Upto (err e) s
    Upto-err e s h = record { at = inl (e, refl, h) }

    pub Upto-bind :
        {B : Type 0} (m n : Result B) (f g : B → Result A)
        → Upto m n
        → ((b : B) → Upto (f b) (g b))
        → Upto (m >>= f) (n >>= g)
    unfolding ◌>>=◌
    Upto-bind m n f g h k = elim (h.at) [
      | inl (e, failed, x) ↦ rw failed (Upto-err e _ x)
      | inr same ↦ rw (← same) (by_value m)
    ]
      where
        by_value : (m : Result _) → Upto (m >>= f) (m >>= g)
        by_value (ok b) = k b
        by_value (err e) = Upto-same (err e)

    pub Upto-then :
        {B : Type 0} (m : Result B) (f g : B → Result A)
        → ((b : B) → Upto (f b) (g b))
        → Upto (m >>= f) (m >>= g)
    Upto-then m f g k = Upto-bind m m f g (record { at = inr refl }) k

  with_text-Upto :
      (v : Value) (f g : Text → Result Bool)
      → ((s : Text) → Upto (f s) (g s))
      → Upto (with_text v f) (with_text v g)
  with_text-Upto (str s) f g h = h s
  with_text-Upto null f g h = Upto-same _
  with_text-Upto (bool b) f g h = Upto-same _
  with_text-Upto (int n) f g h = Upto-same _
  with_text-Upto (arr xs) f g h = Upto-same _
  with_text-Upto (dict fs) f g h = Upto-same _
  with_text-Upto (pairs fs) f g h = Upto-same _
  with_text-Upto other f g h = Upto-same _

  pub record DialectUpto (d d' : Dialect) : Type 0 where
    pub type_matches :
        (v : Value) (name : Text) → Upto (d.type_matches v name) (d'.type_matches v name)
    pub check_required : (xs : Items) → Upto (d.check_required xs) (d'.check_required xs)
    pub search : (pattern s : Text) → Upto (d.search pattern s) (d'.search pattern s)

  module _ (d d' : Dialect) (dd : DialectUpto d d') (self self' : Validator)
      (h : (v s : Value) → Upto (self v s) (self' v s)) where
    validate_extras-Upto :
        (additional : Value) (properties value : Fields)
        → Upto
            (validate_extras self additional properties value)
            (validate_extras self' additional properties value)
    unfolding validate_extras
    validate_extras-Upto additional properties end = Upto-same _
    validate_extras-Upto additional properties (field k v rest) =
        Upto-bind _ _ _ _ (by_key (has_key k properties))
          λ _. validate_extras-Upto additional properties rest
      where
        by_key :
            (b : Bool)
            → Upto
                (if b then ok tt else self v additional)
                (if b then ok tt else self' v additional)
        by_key true = Upto-same _
        by_key false = h v additional

    if_present-Upto :
        (o : Option Value) (f g : Value → Result (Unit {0}))
        → ((v : Value) → Upto (f v) (g v))
        → Upto (if_present o f) (if_present o g)
    if_present-Upto none f g k = Upto-same _
    if_present-Upto (some v) f g k = k v

    validate_properties-Upto :
        (value props : Fields)
        → Upto (validate_properties self value props) (validate_properties self' value props)
    unfolding validate_properties
    validate_properties-Upto value end = Upto-same _
    validate_properties-Upto value (field k child rest) =
        Upto-bind _ _ _ _ (if_present-Upto (lookup k value) _ _ λ v. h v child)
          λ _. validate_properties-Upto value rest

    validate_items-Upto :
        (schema : Value) (xs : Items)
        → Upto (validate_items self schema xs) (validate_items self' schema xs)
    unfolding validate_items
    validate_items-Upto schema nil = Upto-same _
    validate_items-Upto schema (cons x xs) =
        Upto-bind _ _ _ _ (h x schema) λ _. validate_items-Upto schema xs

    check_extras-Upto :
        (additional : Value) (properties value : Fields)
        → Upto
            (check_extras self additional properties value)
            (check_extras self' additional properties value)
    unfolding check_extras
    check_extras-Upto (bool false) properties value = Upto-same _
    check_extras-Upto (bool true) properties value = Upto-same _
    check_extras-Upto (dict schema) properties value =
        validate_extras-Upto (dict schema) properties value
    check_extras-Upto null properties value = Upto-same _
    check_extras-Upto (int n) properties value = Upto-same _
    check_extras-Upto (str s) properties value = Upto-same _
    check_extras-Upto (arr xs) properties value = Upto-same _
    check_extras-Upto (pairs fs) properties value = Upto-same _
    check_extras-Upto other properties value = Upto-same _

    validate_object-Upto :
        (value fs : Fields)
        → Upto (validate_object d self value fs) (validate_object d' self' value fs)
    unfolding validate_object
    validate_object-Upto value fs = Upto-then _ _ _ λ required.
        Upto-bind _ _ _ _ (dd.check_required required) λ _. Upto-then _ _ _ λ properties.
          Upto-then _ _ _ λ _. Upto-then _ _ _ λ _.
            Upto-bind _ _ _ _ (check_extras-Upto (additional_properties fs) properties value)
              λ _. validate_properties-Upto value properties

    validate_array-Upto :
        (xs : Items) (fs : Fields) → Upto (validate_array self xs fs) (validate_array self' xs fs)
    unfolding validate_array
    validate_array-Upto xs fs = Upto-then _ _ _ λ _.
        Upto-then _ _ _
          λ _. if_present-Upto _ _ _ λ schema. Upto-then _ _ _ λ _. validate_items-Upto schema xs

    validate_text-Upto :
        (s : Text) (fs : Fields) → Upto (validate_text d s fs) (validate_text d' s fs)
    unfolding validate_text
    validate_text-Upto s fs = Upto-then _ _ _ λ _. Upto-then _ _ _ λ _.
        if_present-Upto _ _ _ λ pattern. Upto-then _ _ _ λ _.
          Upto-bind _ _ _ _ (with_text-Upto pattern _ _ λ p. dd.search p s) λ matched. Upto-same _

    check_type-Upto : (v : Value) (fs : Fields) → Upto (check_type d v fs) (check_type d' v fs)
    unfolding check_type
    check_type-Upto v fs = if_present-Upto _ _ _ λ type_name. Upto-then _ _ _ λ _.
        Upto-bind _ _ _ _ (with_text-Upto type_name _ _ λ name. dd.type_matches v name)
          λ matched. Upto-same _

    pub validate_step-Upto :
        (v schema : Value) → Upto (validate_step d self v schema) (validate_step d' self' v schema)
    unfolding validate_step
    validate_step-Upto v schema = Upto-then _ _ _ λ fs. Upto-then _ _ _ λ _.
        Upto-then _ _ _
          λ _. Upto-then _ _ _ λ _. Upto-bind _ _ _ _ (check_type-Upto v fs) λ _. by_kind v fs
      where
        by_kind :
            (v : Value) (fs : Fields)
            → Upto
                (elim v [
                  | dict value ↦ validate_object d self value fs
                  | arr xs ↦ validate_array self xs fs
                  | str s ↦ validate_text d s fs
                  | _ ↦ ok tt
                ])
                (elim v [
                  | dict value ↦ validate_object d' self' value fs
                  | arr xs ↦ validate_array self' xs fs
                  | str s ↦ validate_text d' s fs
                  | _ ↦ ok tt
                ])
        by_kind (dict value) fs = validate_object-Upto value fs
        by_kind (arr xs) fs = validate_array-Upto xs fs
        by_kind (str s) fs = validate_text-Upto s fs
        by_kind null fs = Upto-same _
        by_kind (bool b) fs = Upto-same _
        by_kind (int n) fs = Upto-same _
        by_kind (pairs gs) fs = Upto-same _
        by_kind other fs = Upto-same _

  -- the whole evaluator, with the first run's fuel at most the second's
  pub validate_fuel-Upto :
      (d d' : Dialect)
      → DialectUpto d d'
      → Excused out_of_fuel
      → (f g : ℕ) (v schema : Value) → f ≤ g
      → Upto (validate_fuel d f v schema) (validate_fuel d' g v schema)
  unfolding validate_fuel
  validate_fuel-Upto d d' dd x zero g v schema l = Upto-err out_of_fuel _ x
  validate_fuel-Upto d d' dd x (suc f) zero v schema l = absurd (omega arith)
  validate_fuel-Upto d d' dd x (suc f) (suc g) v schema l =
      validate_step-Upto d d' dd (validate_fuel d f) (validate_fuel d' g)
        (λ w s. validate_fuel-Upto d d' dd x f g w s (omega arith)) v schema
