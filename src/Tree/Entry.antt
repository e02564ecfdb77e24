-- ===== src/Tree/Entry.antt =====
-- One entry of a tree object: a mode, a name and the 20 bytes of an identifier. The loops of the source
-- move a cursor over the payload; here the payload is what is left of it.
use qsol_fed.Base.{ℕ, List, [], ◌∷◌, ltb, length, take, drop, Option, none, some, if◌then◌else◌}
use qsol_fed.Tree.Objects.{split_byte}

pub record Entry : Type 0 where
  pub mode : List ℕ
  pub name : List ℕ
  pub object_id : List ℕ

abbrev pub id_bytes : ℕ
id_bytes = 20

-- The next entry and the rest of the payload, unless it is malformed: there is no space behind a mode, or
-- no NUL behind the name, or fewer than 20 bytes follow.
unfoldable pub next_entry : List ℕ → Option (Entry × List ℕ)
unfolding split_byte
next_entry payload = elim (split_byte 32 payload) [
  | none ↦ none
  | some ([], later) ↦ none
  | some (m ∷ mode, later) ↦ elim (split_byte 0 later) [
    | none ↦ none
    | some (name, rest) ↦
        if ltb (length rest) id_bytes
        then none
        else some (
          record { mode = m ∷ mode; name = name; object_id = take id_bytes rest },
          drop id_bytes rest,
        )
  ]
]
