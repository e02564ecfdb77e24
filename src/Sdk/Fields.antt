-- ===== src/Sdk/Fields.antt =====
-- How the SDK's validators look into a dictionary: the key sets, the members, and Python's `==`.
use qsol_fed.Base.{
  Bool, true, false, ◌&&◌, ◌||◌, not, List, ◌==◌, all, Option, none, some, if◌then◌else◌,
}
use qsol_fed.Base.Result.{Result, ok, err, key_error, type_error}
use qsol_fed.Base.Int.{ℤ, pos, negsuc}
use qsol_fed.Base.Text.{Text, text_eq, contains}
use qsol_fed.Json.{
  Value, Items, Fields, null, bool, int, str, arr, dict, pairs, nil, cons, keys, lookup, has_key,
}

-- `set(value) == required`
unfoldable pub has_exactly : List Text → Fields → Bool
unfolding all contains has_key keys
has_exactly required fs = all (λ k. has_key k fs) required && all (contains required) (keys fs)

-- `value[key]`
unfoldable pub item : Text → Fields → Result Value
unfolding lookup
item k fs = elim (lookup k fs) [ none ↦ err key_error | some v ↦ ok v ]

-- `value == "…"`
unfoldable pub is_literal : Text → Value → Bool
unfolding text_eq
is_literal t (str s) = text_eq s t
is_literal t _ = false

-- `value is None`
unfoldable pub is_none : Value → Bool
is_none null = true
is_none _ = false

-- `value is False`
unfoldable pub is_false : Value → Bool
is_false (bool false) = true
is_false _ = false

-- Numbers and Booleans compare as numbers.
abbrev as_number : Value → Option ℤ
as_number (bool true) = some (pos 1)
as_number (bool false) = some (pos 0)
as_number (int n) = some n
as_number _ = none

abbrev int_eq : ℤ → ℤ → Bool
int_eq (pos m) (pos n) = m == n
int_eq (negsuc m) (negsuc n) = m == n
int_eq _ _ = false

abbrev number_eq : Option ℤ → Option ℤ → Bool
number_eq (some m) (some n) = int_eq m n
number_eq _ _ = false

-- `==` between members of a set
unfoldable pub hash_eq : Value → Value → Bool
unfolding text_eq
hash_eq null null = true
hash_eq (str s) (str t) = text_eq s t
hash_eq v w = number_eq (as_number v) (as_number w)

-- Lists and dictionaries cannot be members of a set.
unfoldable pub hashable : Value → Bool
hashable (arr xs) = false
hashable (dict fs) = false
hashable (pairs fs) = false
hashable _ = true

unfoldable pub all_items : (Value → Bool) → Items → Bool
all_items test nil = true
all_items test (cons x xs) = test x && all_items test xs

unfoldable pub any_item : (Value → Bool) → Items → Bool
any_item test nil = false
any_item test (cons x xs) = test x || any_item test xs

unfoldable pub no_duplicates : Items → Bool
unfolding any_item hash_eq
no_duplicates nil = true
no_duplicates (cons x xs) = not (any_item (hash_eq x) xs) && no_duplicates xs

-- `len(set(items)) != len(items)`, which raises TypeError at an unhashable item
unfoldable pub has_duplicates : Items → Result Bool
unfolding all_items hashable no_duplicates
has_duplicates xs = if all_items hashable xs then ok (not (no_duplicates xs)) else err type_error

-- `isinstance(value, dict)`
unfoldable pub as_dict : Value → Option Fields
as_dict (dict fs) = some fs
as_dict _ = none

-- `isinstance(value, list)`; a `PairObject` does not leave `parse`
unfoldable pub as_list : Value → Option Items
as_list (arr xs) = some xs
as_list _ = none

-- `if …: raise error` for a test that wants the value's type, as in `not isinstance(v, T) or …`
abbrev pub require {ℓ} : {A : Type ℓ} → Option A → Result A → Result A
require none failure = failure
require (some a) failure = ok a
