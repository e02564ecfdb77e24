-- ===== src/Canonical/Preserved.antt =====
-- Putting keys in order keeps a value in the profile and changes nothing that `serialize` prints.
use qsol_fed.Base.{ℕ, ◌+◌, ◌≡◌, refl, ◌∙◌, List, arith}
use mathlib.Core.Path.{ap₂}
use qsol_fed.Base.Result.{Result}
use qsol_fed.Base.Int.{pos, negsuc}
use qsol_fed.Base.Text.{Text}
use qsol_fed.Platform.{Platform}
use qsol_fed.Json.{
  Value, Items, Fields, null, bool, int, str, arr, dict, pairs, other, nil, cons, end, field,
}
use qsol_fed.Json.Print.{Plain, PlainItems, PlainFields}
use qsol_fed.Json.Members.{
  Member, insert_member, sort_members, sort_members-Ordered, sort_members_id,
}
use qsol_fed.Canonical.Serialize.{serialize, serialize_items, serialize_members}
use qsol_fed.Canonical.Form.{IsText, IsNormal, AreNormal, FieldsNormal}
use qsol_fed.Canonical.Arrange.{
  insert_field, arrange, arrange_items, arrange_fields, count_items-arrange, count_fields-arrange,
  Distinct-arrange_fields,
}

module _ (p : Platform) where
  FieldsNormal-insert_field :
      (k : Text) (v : Value) (fs : Fields) (d : ℕ)
      → IsText p k
      → IsNormal p v (d + 1)
      → FieldsNormal p fs d
      → FieldsNormal p (insert_field k v fs) d
  unfolding insert_field IsNormal
  FieldsNormal-insert_field k v end d h n rest = (h, n, rest)
  FieldsNormal-insert_field k v (field j w fs) d h n rest =
      ground (arith, FieldsNormal-insert_field k v fs d h n rest.2)

  mutual
    unfolding arrange IsNormal

    pub arrange-IsNormal : (v : Value) (d : ℕ) → IsNormal p v d → IsNormal p (arrange v) d
    arrange-IsNormal (arr xs) d h =
        (h.0, rw (count_items-arrange xs) h.1, arrange_items-AreNormal xs d h.2)
    arrange-IsNormal (dict fs) d h = (
      h.0,
      rw (count_fields-arrange fs) h.1,
      Distinct-arrange_fields fs h.2,
      arrange_fields-FieldsNormal fs d h.3,
    )
    arrange-IsNormal null d h = h
    arrange-IsNormal (bool b) d h = h
    arrange-IsNormal (int n) d h = h
    arrange-IsNormal (str s) d h = h
    arrange-IsNormal (pairs fs) d h = h
    arrange-IsNormal other d h = h

    arrange_items-AreNormal :
        (xs : Items) (d : ℕ) → AreNormal p xs d → AreNormal p (arrange_items xs) d
    arrange_items-AreNormal nil d h = tt
    arrange_items-AreNormal (cons x xs) d h =
        (arrange-IsNormal x (d + 1) h.0, arrange_items-AreNormal xs d h.1)

    arrange_fields-FieldsNormal :
        (fs : Fields) (d : ℕ) → FieldsNormal p fs d → FieldsNormal p (arrange_fields fs) d
    arrange_fields-FieldsNormal end d h = tt
    arrange_fields-FieldsNormal (field k v fs) d h =
        FieldsNormal-insert_field k (arrange v) (arrange_fields fs) d h.0
          (arrange-IsNormal v (d + 1) h.1) (arrange_fields-FieldsNormal fs d h.2)

  serialize_members-insert_field :
      (k : Text) (v : Value) (fs : Fields)
      → serialize_members p (insert_field k v fs)
        ≡ insert_member (k, serialize p v) (serialize_members p fs)
  unfolding serialize insert_field insert_member
  serialize_members-insert_field k v end = refl
  serialize_members-insert_field k v (field j w fs) =
      ground (arith, serialize_members-insert_field k v fs)

  mutual
    unfolding arrange serialize sort_members

    -- Putting the keys of every object in order does not change the result of `serialize`, whether it
    -- is a text or an error.
    pub serialize-arrange : (v : Value) → serialize p (arrange v) ≡ serialize p v
    serialize-arrange (arr xs) = rw (serialize_items-arrange xs)
    serialize-arrange (dict fs) =
        rw (serialize_members-arrange fs)
          (rw (sort_members_id _ (sort_members-Ordered (serialize_members p fs))))
    serialize-arrange null = refl
    serialize-arrange (bool b) = refl
    serialize-arrange (int n) = refl
    serialize-arrange (str s) = refl
    serialize-arrange (pairs fs) = refl
    serialize-arrange other = refl

    serialize_items-arrange :
        (xs : Items) → serialize_items p (arrange_items xs) ≡ serialize_items p xs
    serialize_items-arrange nil = refl
    serialize_items-arrange (cons x nil) = serialize-arrange x
    serialize_items-arrange (cons x (cons y xs)) =
        rw (serialize-arrange x, serialize_items-arrange (cons y xs))

    -- the members of an arranged object are those of the object, sorted
    serialize_members-arrange :
        (fs : Fields)
        → serialize_members p (arrange_fields fs) ≡ sort_members (serialize_members p fs)
    serialize_members-arrange end = refl
    serialize_members-arrange (field k v fs) =
        serialize_members-insert_field k (arrange v) (arrange_fields fs)
        ∙ ap₂ (λ (r : Result Text) (ms : List Member). insert_member (k, r) ms)
            (serialize-arrange v) (serialize_members-arrange fs)

mutual
  unfolding Plain IsNormal

  pub IsNormal-Plain : (p : Platform) (v : Value) (d : ℕ) → IsNormal p v d → Plain v
  IsNormal-Plain p null d h = tt
  IsNormal-Plain p (bool b) d h = tt
  IsNormal-Plain p (int (pos n)) d h = omega arith
  IsNormal-Plain p (int (negsuc n)) d h = omega arith
  IsNormal-Plain p (str s) d h = h.1.encodable
  IsNormal-Plain p (arr xs) d h = AreNormal-Plain p xs d h.2
  IsNormal-Plain p (dict fs) d h = FieldsNormal-Plain p fs d h.3
  IsNormal-Plain p (pairs fs) d h = h
  IsNormal-Plain p other d h = h

  AreNormal-Plain : (p : Platform) (xs : Items) (d : ℕ) → AreNormal p xs d → PlainItems xs
  AreNormal-Plain p nil d h = tt
  AreNormal-Plain p (cons x xs) d h = (IsNormal-Plain p x (d + 1) h.0, AreNormal-Plain p xs d h.1)

  FieldsNormal-Plain : (p : Platform) (fs : Fields) (d : ℕ) → FieldsNormal p fs d → PlainFields fs
  FieldsNormal-Plain p end d h = tt
  FieldsNormal-Plain p (field k v fs) d h =
      (h.0.encodable, IsNormal-Plain p v (d + 1) h.1, FieldsNormal-Plain p fs d h.2)
