-- ===== src/Canonical/Arrange.antt =====
-- The value with the keys of every object in order: what `serialize` prints, and what a reader of
-- the canonical bytes gets back.
use qsol_fed.Base.{◌≡◌, refl, ap, ◌∙◌, false, ◌||◌, arith, suc, if◌then◌else◌}
use qsol_fed.Base.Text.{Text, contains, text_eq, text_eq_iff, text_lt, text_lt-asymm}
use qsol_fed.Json.{
  Value, Items, Fields, null, bool, int, str, arr, dict, pairs, other, nil, cons, end, field, keys,
  count_fields, count_items,
}
use qsol_fed.Canonical.Form.{Distinct}
use qsol_fed.Canonical.Complete.{Ascending, InOrder, ItemsInOrder, FieldsInOrder}

unfoldable pub insert_field : Text → Value → Fields → Fields
insert_field k v end = field k v end
insert_field k v (field j w fs) =
    if text_lt j k then field j w (insert_field k v fs) else field k v (field j w fs)

unfoldable mutual
  pub arrange : Value → Value
  arrange (arr xs) = arr (arrange_items xs)
  arrange (dict fs) = dict (arrange_fields fs)
  arrange null = null
  arrange (bool b) = bool b
  arrange (int n) = int n
  arrange (str s) = str s
  arrange (pairs fs) = pairs fs
  arrange other = other

  pub arrange_items : Items → Items
  arrange_items nil = nil
  arrange_items (cons x xs) = cons (arrange x) (arrange_items xs)

  pub arrange_fields : Fields → Fields
  arrange_fields end = end
  arrange_fields (field k v fs) = insert_field k (arrange v) (arrange_fields fs)

Ascending-insert_field :
    (k : Text) (v : Value) (fs : Fields) → Ascending fs → Ascending (insert_field k v fs)
unfolding insert_field
Ascending-insert_field k v end h = tt
Ascending-insert_field k v (field j w end) h = ground (arith, text_lt-asymm j k)
Ascending-insert_field k v (field j w (field i x fs)) h =
    ground (arith, text_lt-asymm j k, Ascending-insert_field k v (field i x fs) h.1)

FieldsInOrder-insert_field :
    (k : Text) (v : Value) (fs : Fields)
    → InOrder v
    → FieldsInOrder fs
    → FieldsInOrder (insert_field k v fs)
unfolding insert_field InOrder
FieldsInOrder-insert_field k v end h l = (h, tt)
FieldsInOrder-insert_field k v (field j w fs) h l =
    ground (arith, FieldsInOrder-insert_field k v fs h l.1)

mutual
  unfolding arrange InOrder

  pub arrange-InOrder : (v : Value) → InOrder (arrange v)
  arrange-InOrder (arr xs) = arrange_items-InOrder xs
  arrange-InOrder (dict fs) = arrange_fields-InOrder fs
  arrange-InOrder null = tt
  arrange-InOrder (bool b) = tt
  arrange-InOrder (int n) = tt
  arrange-InOrder (str s) = tt
  arrange-InOrder (pairs fs) = tt
  arrange-InOrder other = tt

  arrange_items-InOrder : (xs : Items) → ItemsInOrder (arrange_items xs)
  arrange_items-InOrder nil = tt
  arrange_items-InOrder (cons x xs) = (arrange-InOrder x, arrange_items-InOrder xs)

  arrange_fields-InOrder :
      (fs : Fields) → Ascending (arrange_fields fs) × FieldsInOrder (arrange_fields fs)
  arrange_fields-InOrder end = (tt, tt)
  arrange_fields-InOrder (field k v fs) =
      let rest = arrange_fields-InOrder fs in
      (
        Ascending-insert_field k (arrange v) (arrange_fields fs) rest.0,
        FieldsInOrder-insert_field k (arrange v) (arrange_fields fs) (arrange-InOrder v) rest.1,
      )

pub count_items-arrange : (xs : Items) → count_items (arrange_items xs) ≡ count_items xs
unfolding arrange
count_items-arrange nil = refl
count_items-arrange (cons x xs) = ap suc (count_items-arrange xs)

count_fields-insert_field :
    (k : Text) (v : Value) (fs : Fields)
    → count_fields (insert_field k v fs) ≡ suc (count_fields fs)
unfolding insert_field
count_fields-insert_field k v end = refl
count_fields-insert_field k v (field j w fs) = ground (arith, count_fields-insert_field k v fs)

pub count_fields-arrange : (fs : Fields) → count_fields (arrange_fields fs) ≡ count_fields fs
unfolding arrange
count_fields-arrange end = refl
count_fields-arrange (field k v fs) =
    count_fields-insert_field k (arrange v) (arrange_fields fs) ∙ ap suc (count_fields-arrange fs)

contains-insert_field :
    (k x : Text) (v : Value) (fs : Fields)
    → contains (keys (insert_field k v fs)) x ≡ (text_eq x k || contains (keys fs) x)
unfolding insert_field keys contains
contains-insert_field k x v end = refl
contains-insert_field k x v (field j w fs) = ground (arith, contains-insert_field k x v fs)

contains-arrange_fields :
    (x : Text) (fs : Fields) → contains (keys (arrange_fields fs)) x ≡ contains (keys fs) x
unfolding arrange keys contains
contains-arrange_fields x end = refl
contains-arrange_fields x (field k v fs) =
    contains-insert_field k x (arrange v) (arrange_fields fs)
    ∙ ap (λ b. text_eq x k || b) (contains-arrange_fields x fs)

Distinct-insert_field :
    (k : Text) (v : Value) (fs : Fields)
    → contains (keys fs) k ≡ false
    → Distinct fs
    → Distinct (insert_field k v fs)
unfolding insert_field keys contains
Distinct-insert_field k v end h u = (h, u)
Distinct-insert_field k v (field j w fs) h u = ground (
  arith,
  contains-insert_field k j v fs,
  text_eq_iff k j,
  text_eq_iff j k,
  Distinct-insert_field k v fs,
)

pub Distinct-arrange_fields : (fs : Fields) → Distinct fs → Distinct (arrange_fields fs)
unfolding arrange
Distinct-arrange_fields end u = tt
Distinct-arrange_fields (field k v fs) u =
    Distinct-insert_field k (arrange v) (arrange_fields fs) (contains-arrange_fields k fs ∙ u.0)
      (Distinct-arrange_fields fs u.1)
