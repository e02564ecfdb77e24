-- ===== src/Canonical/Complete.antt =====
-- A value of the profile passes `_normalize` unchanged, and with its keys in order `serialize`
-- prints it as the reference printer does.
use qsol_fed.Base.{
  ℕ, ◌+◌, ◌≡◌, refl, ap, ◌∙◌, Bool, true, false, List, [], ◌∷◌, length, arith, suc, le→ltb-false,
  ||-eq-false,
}
use mathlib.Core.Path.{ap₂}
use qsol_fed.Base.Result.{Error, Result, ok, ◌>>=◌, ◌>>◌, raise_if}
use qsol_fed.Base.Int.{Within→within}
use qsol_fed.Base.Text.{Text, contains, text_eq, text_eq_iff, text_lt}
use qsol_fed.Base.Utf8.{encode, encode_chars}
use qsol_fed.Platform.{Platform}
use qsol_fed.Json.{
  Value, Items, Fields, null, bool, int, str, arr, dict, pairs, other, nil, cons, end, field, keys,
  count_fields, count_items,
}
use qsol_fed.Json.Members.{Member, Ordered, sort_members_id}
use qsol_fed.Json.Print.{
  quote, print, print_items, print_members, unloaded, unloaded_items, unloaded_fields,
}
use qsol_fed.Canonical.Normalize.{
  nfc, normalize, normalize_pairs, normalize_items, max_string_utf8, safe_integer_max,
}
use qsol_fed.Canonical.Serialize.{
  escape_string, join_members, serialize, serialize_items, serialize_members,
}
use qsol_fed.Canonical.Form.{IsText, IsNormal, AreNormal, FieldsNormal, Distinct, Fresh}

-- What follows a test that does not raise.
pub raise_if-pass {ℓ} :
    {A : Type ℓ} (b : Bool) (e : Error) (r : Result A) → b ≡ false → (raise_if b e >> r) ≡ r
unfolding raise_if ◌>>=◌
raise_if-pass true e r h = cc
raise_if-pass false e r h = refl

pub bind-ok {ℓ κ} :
    {A : Type ℓ} {B : Type κ} {m : Result A} (f : A → Result B) {a : A} → m ≡ ok a → (m >>= f) ≡ f a
unfolding ◌>>=◌
bind-ok f h = rw h

-- No key stands before a smaller one.
abbrev pub Ascending : Fields → Type 0
Ascending end = Unit
Ascending (field k v end) = Unit
Ascending (field k v (field j w fs)) = (text_lt j k ≡ false) × Ascending (field j w fs)

-- Every object's keys stand in order, all the way down.
unfoldable mutual
  pub InOrder : Value → Type 0
  InOrder (arr xs) = ItemsInOrder xs
  InOrder (dict fs) = Ascending fs × FieldsInOrder fs
  InOrder _ = Unit

  pub ItemsInOrder : Items → Type 0
  ItemsInOrder nil = Unit
  ItemsInOrder (cons x xs) = InOrder x × ItemsInOrder xs

  pub FieldsInOrder : Fields → Type 0
  FieldsInOrder end = Unit
  FieldsInOrder (field k v fs) = InOrder v × FieldsInOrder fs

count_items-unloaded : (xs : Items) → count_items (unloaded_items xs) ≡ count_items xs
unfolding unloaded
count_items-unloaded nil = refl
count_items-unloaded (cons x xs) = ap suc (count_items-unloaded xs)

count_fields-unloaded : (fs : Fields) → count_fields (unloaded_fields fs) ≡ count_fields fs
unfolding unloaded
count_fields-unloaded end = refl
count_fields-unloaded (field k v fs) = ap suc (count_fields-unloaded fs)

pub Fresh-none : (ks : List Text) → Fresh [] ks
unfolding contains
Fresh-none [] = tt
Fresh-none (k ∷ ks) = (refl, Fresh-none ks)

-- the members of a printed object
abbrev printed : Fields → List Member
printed end = []
printed (field k v fs) = (k, ok (print v)) ∷ printed fs

printed-Ordered : (fs : Fields) → Ascending fs → Ordered (printed fs)
printed-Ordered end h = tt
printed-Ordered (field k v end) h = tt
printed-Ordered (field k v (field j w fs)) h = (h.0, printed-Ordered (field j w fs) h.1)

module _ (p : Platform) where
  pub nfc-id : (s : Text) → IsText p s → nfc p s ≡ ok s
  unfolding nfc encode ◌>>=◌ raise_if
  nfc-id s h = rw (
    h.encodable,
    h.normal,
    h.encodable,
    le→ltb-false max_string_utf8 (length (encode_chars s)) h.bounded,
  )

  pub contains-Fresh :
      (k : Text) (seen ks : List Text) → contains ks k ≡ false → Fresh seen ks → Fresh (k ∷ seen) ks
  unfolding contains
  contains-Fresh k seen [] h f = tt
  contains-Fresh k seen (j ∷ ks) h f =
      let parts = ||-eq-false (text_eq k j) (contains ks k) h in
      (
        ground (arith, text_eq_iff k j, text_eq_iff j k, parts.0, f.0),
        contains-Fresh k seen ks parts.1 f.1,
      )

  mutual
    unfolding normalize IsNormal unloaded keys

    -- A value of the profile, read as JSON (objects as pair lists), is normalized to itself.
    pub normalize-id : (v : Value) (d : ℕ) → IsNormal p v d → normalize p (unloaded v) d ≡ ok v
    normalize-id null d h = raise_if-pass _ _ _ (le→ltb-false _ _ h)
    normalize-id (bool b) d h = raise_if-pass _ _ _ (le→ltb-false _ _ h)
    normalize-id (int n) d h =
        raise_if-pass _ _ _ (le→ltb-false _ _ h.0) ∙ rw (Within→within safe_integer_max n h.1)
    normalize-id (str s) d h = raise_if-pass _ _ _ (le→ltb-false _ _ h.0) ∙ bind-ok _ (nfc-id s h.1)
    normalize-id (arr xs) d h =
        raise_if-pass _ _ _ (le→ltb-false _ _ h.0)
        ∙ raise_if-pass _ _ _ (le→ltb-false _ _ (rw (count_items-unloaded xs) h.1))
        ∙ bind-ok _ (normalize_items-id xs d h.2)
    normalize-id (dict fs) d h =
        raise_if-pass _ _ _ (le→ltb-false _ _ h.0)
        ∙ raise_if-pass _ _ _ (le→ltb-false _ _ (rw (count_fields-unloaded fs) h.1))
        ∙ bind-ok _ (normalize_pairs-id fs [] d h.3 h.2 (Fresh-none (keys fs)))
    normalize-id (pairs fs) d h = absurd h
    normalize-id other d h = absurd h

    normalize_items-id :
        (xs : Items) (d : ℕ) → AreNormal p xs d → normalize_items p (unloaded_items xs) d ≡ ok xs
    normalize_items-id nil d h = refl
    normalize_items-id (cons x xs) d h =
        bind-ok _ (normalize-id x (d + 1) h.0) ∙ bind-ok _ (normalize_items-id xs d h.1)

    normalize_pairs-id :
        (fs : Fields) (seen : List Text) (d : ℕ)
        → FieldsNormal p fs d
        → Distinct fs
        → Fresh seen (keys fs)
        → normalize_pairs p (unloaded_fields fs) seen seen d ≡ ok fs
    normalize_pairs-id end seen d h u f = refl
    normalize_pairs-id (field k v fs) seen d h u f =
        raise_if-pass _ _ _ f.0
        ∙ bind-ok _ (nfc-id k h.0)
        ∙ raise_if-pass _ _ _ f.0
        ∙ bind-ok _ (normalize-id v (d + 1) h.1)
        ∙ bind-ok _
            (normalize_pairs-id fs (k ∷ seen) d h.2 u.1 (contains-Fresh k seen (keys fs) u.0 f.1))

  escape_string-quote : (s : Text) → IsText p s → escape_string p s ≡ ok (quote s)
  unfolding escape_string
  escape_string-quote s h = bind-ok _ (nfc-id s h)

  join_members-printed :
      (fs : Fields) (d : ℕ)
      → FieldsNormal p fs d
      → join_members p (printed fs) ≡ ok (print_members fs)
  unfolding join_members print IsNormal ◌>>=◌
  join_members-printed end d h = refl
  join_members-printed (field k v end) d h = bind-ok _ (escape_string-quote k h.0)
  join_members-printed (field k v (field j w fs)) d h =
      bind-ok _ (escape_string-quote k h.0) ∙ bind-ok _ (join_members-printed (field j w fs) d h.2)

  mutual
    unfolding serialize IsNormal print InOrder

    pub serialize-print :
        (v : Value) (d : ℕ) → IsNormal p v d → InOrder v → serialize p v ≡ ok (print v)
    serialize-print null d h o = refl
    serialize-print (bool true) d h o = refl
    serialize-print (bool false) d h o = refl
    serialize-print (int n) d h o = rw (Within→within safe_integer_max n h.1)
    serialize-print (str s) d h o = escape_string-quote s h.1
    serialize-print (arr xs) d h o = bind-ok _ (serialize_items-print xs d h.2 o)
    serialize-print (dict fs) d h o = bind-ok _ (
        rw (serialize_members-print fs d h.3 o.1) (
          rw (sort_members_id (printed fs) (printed-Ordered fs o.0))
            (join_members-printed fs d h.3)))
    serialize-print (pairs fs) d h o = absurd h
    serialize-print other d h o = absurd h

    serialize_items-print :
        (xs : Items) (d : ℕ)
        → AreNormal p xs d
        → ItemsInOrder xs
        → serialize_items p xs ≡ ok (print_items xs)
    serialize_items-print nil d h o = refl
    serialize_items-print (cons x nil) d h o = serialize-print x (d + 1) h.0 o.0
    serialize_items-print (cons x (cons y xs)) d h o =
        bind-ok _ (serialize-print x (d + 1) h.0 o.0)
        ∙ bind-ok _ (serialize_items-print (cons y xs) d h.1 o.1)

    serialize_members-print :
        (fs : Fields) (d : ℕ)
        → FieldsNormal p fs d
        → FieldsInOrder fs
        → serialize_members p fs ≡ printed fs
    serialize_members-print end d h o = refl
    serialize_members-print (field k v fs) d h o =
        ap₂ (λ (r : Result Text) (ms : List Member). (k, r) ∷ ms)
          (serialize-print v (d + 1) h.1 o.0) (serialize_members-print fs d h.2 o.1)
