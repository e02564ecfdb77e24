-- ===== src/Json.antt =====
-- The Python values that stand for JSON: `dict` is an object whose keys are unique and in insertion
-- order; `pairs` is a `PairObject`, the raw pair list of an object, duplicates included; `other` is
-- a value of any other type (a float, a tuple, bytes).
pub mod Decimal
pub mod Escape
pub mod Members
pub mod Strings
pub mod Numbers
pub mod Print
pub mod Steps
pub mod Atoms
pub mod RoundTrip
pub mod Consumes
pub mod Fuel
pub mod Loaded
pub mod Scan
pub mod Loads
pub mod Lists
use qsol_fed.Base.{ℕ, suc, Bool, false, ◌||◌, Option, none, some, List, [], ◌∷◌, if◌then◌else◌}
use qsol_fed.Base.Int.{ℤ}
use qsol_fed.Base.Text.{Text, text_eq}

mutual
  pub data Value : Type 0 where
    null : Value
    bool : Bool → Value
    int : ℤ → Value
    str : Text → Value
    arr : Items → Value
    dict : Fields → Value
    pairs : Fields → Value
    other : Value

  pub data Items : Type 0 where
    nil : Items
    cons : Value → Items → Items

  pub data Fields : Type 0 where
    end : Fields
    field : Text → Value → Fields → Fields

unfoldable pub keys : Fields → List Text
keys end = []
keys (field k v fs) = k ∷ keys fs

abbrev pub count_fields : Fields → ℕ
count_fields end = 0
count_fields (field k v fs) = suc (count_fields fs)

abbrev pub count_items : Items → ℕ
count_items nil = 0
count_items (cons v xs) = suc (count_items xs)

-- `d.get(key)`, with a missing key told from a null
unfoldable pub lookup : Text → Fields → Option Value
unfolding text_eq
lookup k end = none
lookup k (field j v fs) = if text_eq j k then some v else lookup k fs

-- `key in d`
unfoldable pub has_key : Text → Fields → Bool
unfolding text_eq
has_key k end = false
has_key k (field j v fs) = text_eq j k || has_key k fs

-- `d.pop(key)` on a dictionary, whose keys are unique
unfoldable pub remove : Text → Fields → Fields
unfolding text_eq
remove k end = end
remove k (field j v fs) = if text_eq j k then fs else field j v (remove k fs)
