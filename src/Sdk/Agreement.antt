-- ===== src/Sdk/Agreement.antt =====
-- The two Python implementations of the canonical profile agree.
use qsol_fed.Base.{ℕ, zero, suc, ◌+◌, ◌≤◌, ◌<◌, ◌≡◌, refl, ◌∙◌, true, false, List, [], ◌∷◌, arith}
use mathlib.Core.Path.{ap₂}
use qsol_fed.Base.Result.{Result}
use qsol_fed.Base.Int.{Within→within}
use qsol_fed.Base.Text.{Text}
use qsol_fed.Platform.{Platform}
use qsol_fed.Json.{
  Value, Items, Fields, null, bool, int, str, arr, dict, pairs, other, nil, cons, end, field,
}
use qsol_fed.Json.Members.{Member}
use qsol_fed.Canonical.Normalize
use qsol_fed.Canonical.Serialize
use qsol_fed.Canonical.Form.{IsNormal, AreNormal, FieldsNormal}
use qsol_fed.Canonical.Complete.{bind-ok}
use qsol_fed.Sdk.Normalize.{nfc}
use qsol_fed.Sdk.Serialize.{
  join_items, members, escape, join_members, serialize_normal, serialize_fuel, serialize,
}
use qsol_fed.Sdk.Sound.{sdk_normalize-id}

-- A value that is normal is so at every smaller depth.
mutual
  unfolding IsNormal

  IsNormal-shallow : (p : Platform) (v : Value) (d e : ℕ) → e ≤ d → IsNormal p v d → IsNormal p v e
  IsNormal-shallow p null d e l h = omega arith
  IsNormal-shallow p (bool b) d e l h = omega arith
  IsNormal-shallow p (int n) d e l h = (omega (arith, h.0), h.1)
  IsNormal-shallow p (str s) d e l h = (omega (arith, h.0), h.1)
  IsNormal-shallow p (arr xs) d e l h = (omega (arith, h.0), h.1, AreNormal-shallow p xs d e l h.2)
  IsNormal-shallow p (dict fs) d e l h =
      (omega (arith, h.0), h.1, h.2, FieldsNormal-shallow p fs d e l h.3)
  IsNormal-shallow p (pairs fs) d e l h = h
  IsNormal-shallow p other d e l h = h

  AreNormal-shallow :
      (p : Platform) (xs : Items) (d e : ℕ) → e ≤ d → AreNormal p xs d → AreNormal p xs e
  AreNormal-shallow p nil d e l h = tt
  AreNormal-shallow p (cons x xs) d e l h =
      (IsNormal-shallow p x (d + 1) (e + 1) (omega arith) h.0, AreNormal-shallow p xs d e l h.1)

  FieldsNormal-shallow :
      (p : Platform) (fs : Fields) (d e : ℕ) → e ≤ d → FieldsNormal p fs d → FieldsNormal p fs e
  FieldsNormal-shallow p end d e l h = tt
  FieldsNormal-shallow p (field k v fs) d e l h = (
    h.0,
    IsNormal-shallow p v (d + 1) (e + 1) (omega arith) h.1,
    FieldsNormal-shallow p fs d e l h.2,
  )

module _ (p : Platform) where
  escape-eq : (s : Text) → escape p s ≡ Serialize.escape_string p s
  unfolding escape Serialize.escape_string nfc Normalize.nfc
  escape-eq s = refl

  join_members-eq : (ms : List Member) → join_members p ms ≡ Serialize.join_members p ms
  unfolding join_members Serialize.join_members nfc Normalize.nfc
  join_members-eq [] = refl
  join_members-eq ((k, r) ∷ []) = refl
  join_members-eq ((k, r) ∷ m ∷ ms) = rw (join_members-eq (m ∷ ms))

  IsNormal-depth : (v : Value) (d : ℕ) → IsNormal p v d → d ≤ 32
  unfolding IsNormal
  IsNormal-depth null d h = h
  IsNormal-depth (bool b) d h = h
  IsNormal-depth (int n) d h = h.0
  IsNormal-depth (str s) d h = h.0
  IsNormal-depth (arr xs) d h = h.0
  IsNormal-depth (dict fs) d h = h.0
  IsNormal-depth (pairs fs) d h = absurd h
  IsNormal-depth other d h = absurd h

  -- One level: normalizing again changes nothing.
  serialize_fuel-step :
      (f : ℕ) (v : Value) (d : ℕ)
      → 1 ≤ d
      → IsNormal p v d
      → serialize_fuel p (suc f) v ≡ serialize_normal p (serialize_fuel p f) v
  unfolding serialize_fuel
  serialize_fuel-step f v d l h = bind-ok _ (sdk_normalize-id p v 1 (IsNormal-shallow p v d 1 l h))

  -- `fuel + depth` is above the depth limit.
  mutual
    unfolding serialize_normal Serialize.serialize IsNormal nfc Normalize.nfc

    serialize_fuel-eq :
        (v : Value) (f d : ℕ)
        → 1 ≤ d
        → 32 < f + d
        → IsNormal p v d
        → serialize_fuel p f v ≡ Serialize.serialize p v
    serialize_fuel-eq v zero d l m h = let depth = IsNormal-depth v d h in absurd (omega arith)
    serialize_fuel-eq null (suc f) d l m h = serialize_fuel-step f null d l h
    serialize_fuel-eq (bool true) (suc f) d l m h = serialize_fuel-step f (bool true) d l h
    serialize_fuel-eq (bool false) (suc f) d l m h = serialize_fuel-step f (bool false) d l h
    serialize_fuel-eq (int n) (suc f) d l m h =
        serialize_fuel-step f (int n) d l h ∙ rw (Within→within Normalize.safe_integer_max n h.1)
    serialize_fuel-eq (str s) (suc f) d l m h = serialize_fuel-step f (str s) d l h
    serialize_fuel-eq (arr xs) (suc f) d l m h =
        serialize_fuel-step f (arr xs) d l h ∙ rw (join_items-eq xs f d l (omega arith) h.2)
    serialize_fuel-eq (dict fs) (suc f) d l m h =
        serialize_fuel-step f (dict fs) d l h
        ∙ rw (members-eq fs f d l (omega arith) h.3, join_members-eq)
    serialize_fuel-eq (pairs fs) (suc f) d l m h = absurd h
    serialize_fuel-eq other (suc f) d l m h = absurd h

    join_items-eq :
        (xs : Items) (f d : ℕ)
        → 1 ≤ d
        → 32 < f + (d + 1)
        → AreNormal p xs d
        → join_items (serialize_fuel p f) xs ≡ Serialize.serialize_items p xs
    join_items-eq nil f d l m h = refl
    join_items-eq (cons x nil) f d l m h = serialize_fuel-eq x f (d + 1) (omega arith) m h.0
    join_items-eq (cons x (cons y xs)) f d l m h =
        rw
          (serialize_fuel-eq x f (d + 1) (omega arith) m h.0, join_items-eq (cons y xs) f d l m h.1)

    members-eq :
        (fs : Fields) (f d : ℕ)
        → 1 ≤ d
        → 32 < f + (d + 1)
        → FieldsNormal p fs d
        → members (serialize_fuel p f) fs ≡ Serialize.serialize_members p fs
    members-eq end f d l m h = refl
    members-eq (field k v fs) f d l m h =
        ap₂ (λ (r : Result Text) (ms : List Member). (k, r) ∷ ms)
          (serialize_fuel-eq v f (d + 1) (omega arith) m h.1) (members-eq fs f d l m h.2)

  -- On every value of the profile the SDK's `serialize`, which normalizes again at each level, has the
  -- result of the canonical module's.
  pub sdk_serialize-eq : (v : Value) → IsNormal p v 1 → serialize p v ≡ Serialize.serialize p v
  unfolding serialize
  sdk_serialize-eq v h = serialize_fuel-eq v 33 1 (omega arith) (omega arith) h
