-- ===== src/Json/Members.antt =====
-- `sorted(d)` over a dictionary, each key with what its value serializes to: both serializers join
-- the members in this order.
use qsol_fed.Base.{◌≡◌, ◌≢◌, refl, false, List, [], ◌∷◌, arith, if◌then◌else◌}
use qsol_fed.Base.Result.{Result}
use qsol_fed.Base.Text.{Text, text_lt, text_lt-asymm, text_lt-total, text_lt_trans}

-- `sorted(value)`: a dictionary's members by key, each with what its value serializes to.
abbrev pub Member : Type 0
Member = Text × Result Text

unfoldable pub insert_member : Member → List Member → List Member
insert_member m [] = m ∷ []
insert_member m (n ∷ ms) = if text_lt n.0 m.0 then n ∷ insert_member m ms else m ∷ n ∷ ms

unfoldable pub sort_members : List Member → List Member
unfolding insert_member
sort_members [] = []
sort_members (m ∷ ms) = insert_member m (sort_members ms)

-- No key stands before a smaller one.
abbrev pub Ordered : List Member → Type 0
Ordered [] = Unit
Ordered (m ∷ []) = Unit
Ordered (m ∷ n ∷ ms) = (text_lt n.0 m.0 ≡ false) × Ordered (n ∷ ms)

insert_member-Ordered : (m : Member) (ms : List Member) → Ordered ms → Ordered (insert_member m ms)
unfolding insert_member
insert_member-Ordered m [] h = tt
insert_member-Ordered m (n ∷ []) h = ground (arith, text_lt-asymm n.0 m.0)
insert_member-Ordered m (n ∷ l ∷ ms) h =
    ground (arith, text_lt-asymm n.0 m.0, insert_member-Ordered m (l ∷ ms) h.1)

pub sort_members-Ordered : (ms : List Member) → Ordered (sort_members ms)
unfolding sort_members
sort_members-Ordered [] = tt
sort_members-Ordered (m ∷ ms) = insert_member-Ordered m (sort_members ms) (sort_members-Ordered ms)

-- Sorting leaves an ordered list as it is.
pub sort_members_id : (ms : List Member) → Ordered ms → sort_members ms ≡ ms
unfolding sort_members
sort_members_id [] h = refl
sort_members_id (m ∷ []) h = refl
sort_members_id (m ∷ n ∷ ms) h = rw (sort_members_id (n ∷ ms) h.1) (rw (h.0, insert_member))

-- Two members with different keys may be inserted in either order.
pub insert_member_comm :
    (m n : Member) (ms : List Member)
    → m.0 ≢ n.0
    → insert_member m (insert_member n ms) ≡ insert_member n (insert_member m ms)
unfolding insert_member
insert_member_comm m n [] h =
    ground (arith, text_lt-asymm n.0 m.0, text_lt-asymm m.0 n.0, text_lt-total m.0 n.0)
insert_member_comm m n (l ∷ ms) h = ground (
  arith,
  text_lt-asymm n.0 m.0,
  text_lt-asymm m.0 n.0,
  text_lt-total m.0 n.0,
  text_lt_trans l.0 m.0 n.0,
  text_lt_trans l.0 n.0 m.0,
  text_lt_trans m.0 l.0 n.0,
  text_lt_trans n.0 l.0 m.0,
  text_lt-asymm l.0 m.0,
  text_lt-asymm l.0 n.0,
  text_lt-total m.0 l.0,
  text_lt-total n.0 l.0,
  insert_member_comm m n ms h,
)
