-- ===== src/Canonical/Form.antt =====
-- The values that the profile of CANONICAL_JSON.md admits.
use qsol_fed.Base.{ℕ, ◌+◌, ◌≤◌, ◌≡◌, false, List, length, All}
use qsol_fed.Base.Int.{Within}
use qsol_fed.Base.Text.{Text, contains}
use qsol_fed.Base.Utf8.{has_surrogate, encode_chars}
use qsol_fed.Platform.{Platform}
use qsol_fed.Json.{
  Value, Items, Fields, null, bool, int, str, arr, dict, pairs, other, nil, cons, end, field, keys,
  count_fields, count_items,
}
use qsol_fed.Canonical.Normalize.{
  safe_integer_max, max_depth, max_string_utf8, max_array_items, max_object_members,
}

-- No lone surrogate, in normal form, and within the byte limit.
pub record IsText (p : Platform) (s : Text) : Type 0 where
  pub encodable : has_surrogate s ≡ false
  pub normal : p.nfc s ≡ s
  pub bounded : length (encode_chars s) ≤ max_string_utf8

-- No key stands twice.
abbrev pub Distinct : Fields → Type 0
Distinct end = Unit
Distinct (field k v fs) = (contains (keys fs) k ≡ false) × Distinct fs

-- No key of `ks` is among `seen`.
abbrev pub Fresh : List Text → List Text → Type 0
Fresh seen ks = All (λ k. contains seen k ≡ false) ks

module _ (p : Platform) where
  unfoldable mutual
    pub IsNormal : Value → ℕ → Type 0
    IsNormal null d = d ≤ max_depth
    IsNormal (bool b) d = d ≤ max_depth
    IsNormal (int n) d = (d ≤ max_depth) × Within safe_integer_max n
    IsNormal (str s) d = (d ≤ max_depth) × IsText p s
    IsNormal (arr xs) d = (d ≤ max_depth) × (count_items xs ≤ max_array_items) × AreNormal xs d
    IsNormal (dict fs) d =
        (d ≤ max_depth) × (count_fields fs ≤ max_object_members) × Distinct fs × FieldsNormal fs d
    IsNormal (pairs fs) d = ⊥
    IsNormal other d = ⊥

    pub AreNormal : Items → ℕ → Type 0
    AreNormal nil d = Unit
    AreNormal (cons x xs) d = IsNormal x (d + 1) × AreNormal xs d

    pub FieldsNormal : Fields → ℕ → Type 0
    FieldsNormal end d = Unit
    FieldsNormal (field k v fs) d = IsText p k × IsNormal v (d + 1) × FieldsNormal fs d
