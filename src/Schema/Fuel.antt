-- ===== src/Schema/Fuel.antt =====
-- The depth of the schema is enough fuel, and more changes nothing.
use qsol_fed.Base.{
  ℕ, leb, ◌≤◌, ◌≡◌, ◌≢◌, refl, Bool, true, false, Option, none, some, ◌⊎◌, inl, inr, arith,
  Bool-cases,
}
use qsol_fed.Base.Result.{Result, ok, err, raise_if, gate_error, unsupported_value, out_of_fuel}
use qsol_fed.Base.Runs.{Runs, Runs-ok, Runs-err, Runs-if, Runs-bind, Runs-raise_if}
use qsol_fed.Base.Text.{Text, text_eq}
use qsol_fed.Json.{
  Value, Items, Fields, null, bool, int, str, arr, dict, pairs, other, nil, cons, end, field,
  lookup,
}
use qsol_fed.Sdk.Fields.{require}
use qsol_fed.Schema.Values.{not_null, get, as_bound, dumps, json_equal, equal_to_any, has_text}
use qsol_fed.Schema.Evaluate.{
  items_or_none, fields_or_none, check_bound, if_present, require_keys, check_minimum,
  check_maximum, depth, depth_fields,
}

pub gate-ne : gate_error ≢ out_of_fuel
gate-ne q = cc

unsupported-ne : unsupported_value ≢ out_of_fuel
unsupported-ne q = cc

pub Runs-gate : (b : Bool) → Runs (raise_if b gate_error)
Runs-gate b = Runs-raise_if b gate_error gate-ne

pub Runs-require : {A : Type 0} (o : Option A) → Runs (require o (err gate_error))
Runs-require none = Runs-err _ gate-ne
Runs-require (some a) = Runs-ok a

pub Runs-present :
    (o : Option Value) (f : Value → Result (Unit {0}))
    → ((v : Value) → o ≡ some v → Runs (f v))
    → Runs (if_present o f)
Runs-present none f h = Runs-ok tt
Runs-present (some v) f h = h v refl

pub lookup-depth :
    (k : Text) (fs : Fields) (v : Value) → lookup k fs ≡ some v → depth v ≤ depth_fields fs
unfolding lookup depth
lookup-depth k end v h = cc
lookup-depth k (field j w fs) v h = elim (Bool-cases (text_eq j k)) [
  | inl e ↦ (let same : w ≡ v = found e in rw same (omega arith))
  | inr e ↦ (let deep = lookup-depth k fs v (rest e) in omega arith)
]
  where
    found : text_eq j k ≡ true → w ≡ v
    found e = let both : some w ≡ some v = rw e at h in cc

    rest : text_eq j k ≡ false → lookup k fs ≡ some v
    rest e = rw e at h

pub not_null-eq : (o : Option Value) (v : Value) → not_null o ≡ some v → o ≡ some v
not_null-eq none v h = cc
not_null-eq (some null) v h = cc
not_null-eq (some (bool b)) v h = h
not_null-eq (some (int n)) v h = h
not_null-eq (some (str s)) v h = h
not_null-eq (some (arr xs)) v h = h
not_null-eq (some (dict fs)) v h = h
not_null-eq (some (pairs fs)) v h = h
not_null-eq (some other) v h = h

dumps-Runs : (v : Value) → Runs (dumps v)
unfolding dumps
dumps-Runs v = Runs-if (has_text v) _ _ (Runs-ok _) (Runs-err _ unsupported-ne)

pub json_equal-Runs : (v w : Value) → Runs (json_equal v w)
unfolding json_equal
json_equal-Runs v w =
    Runs-bind _ _ (dumps-Runs v) λ l _. Runs-bind _ _ (dumps-Runs w) λ r _. Runs-ok _

pub equal_to_any-Runs : (v : Value) (xs : Items) → Runs (equal_to_any v xs)
unfolding equal_to_any
equal_to_any-Runs v nil = Runs-ok false
equal_to_any-Runs v (cons x xs) = Runs-bind _ _ (json_equal-Runs v x) λ same _.
    Runs-bind _ _ (Runs-if same _ _ (Runs-ok true) (equal_to_any-Runs v xs))
      λ others _. Runs-ok others

check_bound-Runs : (o : Option ℕ) (test : ℕ → Bool) → Runs (check_bound o test)
check_bound-Runs none test = Runs-err _ gate-ne
check_bound-Runs (some n) test = Runs-gate _

pub check_minimum-Runs : (key : Text) (fs : Fields) (n : ℕ) → Runs (check_minimum key fs n)
unfolding check_minimum
check_minimum-Runs key fs n =
    Runs-present (get key fs) (λ v. check_bound (as_bound v) (λ m. leb m n))
      λ v _. check_bound-Runs (as_bound v) (λ m. leb m n)

pub check_maximum-Runs : (key : Text) (fs : Fields) (n : ℕ) → Runs (check_maximum key fs n)
unfolding check_maximum
check_maximum-Runs key fs n =
    Runs-present (get key fs) (λ v. check_bound (as_bound v) (λ m. leb n m))
      λ v _. check_bound-Runs (as_bound v) (λ m. leb n m)

pub require_keys-Runs : (xs : Items) (value : Fields) → Runs (require_keys xs value)
unfolding require_keys
require_keys-Runs nil value = Runs-ok tt
require_keys-Runs (cons (str k) xs) value =
    Runs-bind _ _ (Runs-gate _) λ _ _. require_keys-Runs xs value
require_keys-Runs (cons null xs) value = Runs-err _ gate-ne
require_keys-Runs (cons (bool b) xs) value = Runs-err _ gate-ne
require_keys-Runs (cons (int n) xs) value = Runs-err _ gate-ne
require_keys-Runs (cons (arr ys) xs) value = Runs-err _ gate-ne
require_keys-Runs (cons (dict fs) xs) value = Runs-err _ gate-ne
require_keys-Runs (cons (pairs fs) xs) value = Runs-err _ gate-ne
require_keys-Runs (cons other xs) value = Runs-err _ gate-ne

pub items_or_none-Runs : (o : Option Value) → Runs (items_or_none o)
items_or_none-Runs none = Runs-ok nil
items_or_none-Runs (some (arr xs)) = Runs-ok xs
items_or_none-Runs (some null) = Runs-err _ gate-ne
items_or_none-Runs (some (bool b)) = Runs-err _ gate-ne
items_or_none-Runs (some (int n)) = Runs-err _ gate-ne
items_or_none-Runs (some (str s)) = Runs-err _ gate-ne
items_or_none-Runs (some (dict fs)) = Runs-err _ gate-ne
items_or_none-Runs (some (pairs fs)) = Runs-err _ gate-ne
items_or_none-Runs (some other) = Runs-err _ gate-ne

pub fields_or_none-Runs : (o : Option Value) → Runs (fields_or_none o)
fields_or_none-Runs none = Runs-ok end
fields_or_none-Runs (some (dict fs)) = Runs-ok fs
fields_or_none-Runs (some null) = Runs-err _ gate-ne
fields_or_none-Runs (some (bool b)) = Runs-err _ gate-ne
fields_or_none-Runs (some (int n)) = Runs-err _ gate-ne
fields_or_none-Runs (some (str s)) = Runs-err _ gate-ne
fields_or_none-Runs (some (arr xs)) = Runs-err _ gate-ne
fields_or_none-Runs (some (pairs fs)) = Runs-err _ gate-ne
fields_or_none-Runs (some other) = Runs-err _ gate-ne

-- the declared properties stand below the schema
fields_or_none-eq :
    (o : Option Value) (props : Fields)
    → fields_or_none o ≡ ok props
    → (o ≡ some (dict props)) ⊎ (props ≡ end)
fields_or_none-eq none props h = inr (cc)
fields_or_none-eq (some (dict fs)) props h = let same : fs ≡ props = cc in inl (rw same refl)
fields_or_none-eq (some null) props h = cc
fields_or_none-eq (some (bool b)) props h = cc
fields_or_none-eq (some (int n)) props h = cc
fields_or_none-eq (some (str s)) props h = cc
fields_or_none-eq (some (arr xs)) props h = cc
fields_or_none-eq (some (pairs fs)) props h = cc
fields_or_none-eq (some other) props h = cc

pub properties-depth :
    (k : Text) (fs props : Fields)
    → fields_or_none (lookup k fs) ≡ ok props
    → depth_fields props ≤ depth_fields fs
unfolding depth
properties-depth k fs props h = elim (fields_or_none-eq (lookup k fs) props h) [
  | inl there ↦ (let deep = lookup-depth k fs (dict props) there in omega arith)
  | inr empty ↦ rw empty (omega arith)
]
