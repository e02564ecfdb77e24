-- ===== src/Tree/RoundTrip.antt =====
-- A tree object as git writes it, and what the loader finds in it.
use qsol_fed.Base.{
  ℕ, zero, suc, ◌≤◌, ◌<◌, ◌≡◌, refl, ap, ◌∙◌, Bool, true, false, List, [], ◌∷◌, ◌++◌, ltb,
  le→ltb-false, length, length-append, take, drop, all, All, Option, some, if◌then◌else◌,
  &&-eq-true, arith,
}
use qsol_fed.Base.Result.{
  Error, Result, ok, err, unicode_decode_error, moriarty_bootstrap_path_missing,
}
use qsol_fed.Base.Text.{Text, text_eq}
use qsol_fed.Base.Utf8.{encode_char, encode_chars, has_surrogate, decode}
use qsol_fed.Platform.{is_ascii}
use qsol_fed.Canonical.Complete.{bind-ok}
use qsol_fed.Sdk.Bytes.{decode-encode_chars}
use qsol_fed.Sdk.Fields.{require}
use qsol_fed.Tree.Objects.{hex, decode_ascii, decode_utf8, split_byte}
use qsol_fed.Tree.Split.{is_other, split_byte-append}
use qsol_fed.Tree.Entry.{Entry, next_entry}
use qsol_fed.Tree.Bootstrap.{tree_entry_fuel, bootstrap_tree_entry}

-- an entry that git can write
pub record TreeItem : Type 0 where
  pub mode_char : ℕ
  pub mode_chars : Text
  pub name : Text
  pub object_id : List ℕ

-- a mode of ASCII without a space, a name of characters without NUL, and 20 bytes
pub record Printable (item : TreeItem) : Type 0 where
  pub mode_ascii : all is_ascii (item.mode_char ∷ item.mode_chars) ≡ true
  pub mode_spaceless : all (is_other 32) (item.mode_char ∷ item.mode_chars) ≡ true
  pub name_chars : All (λ c. c ≤ 0x10FFFF) item.name
  pub name_paired : has_surrogate item.name ≡ false
  pub name_nulless : all (is_other 0) item.name ≡ true
  pub id_size : length item.object_id ≡ 20

unfoldable pub print_item : TreeItem → List ℕ → List ℕ
print_item item rest =
    item.mode_char
    ∷ (item.mode_chars ++ (32 ∷ (encode_chars item.name ++ (0 ∷ (item.object_id ++ rest)))))

unfoldable pub print_tree : List TreeItem → List ℕ
unfolding print_item
print_tree [] = []
print_tree (item ∷ items) = print_item item (print_tree items)

-- the first item of that name
unfoldable pub find_item : List TreeItem → Text → Result (Text × Text)
unfolding text_eq hex
find_item [] wanted = err moriarty_bootstrap_path_missing
find_item (item ∷ items) wanted =
    let later = find_item items wanted in
    if text_eq item.name wanted
    then ok (item.mode_char ∷ item.mode_chars, hex item.object_id)
    else later

all-append :
    (test : ℕ → Bool) (s t : List ℕ)
    → all test s ≡ true
    → all test t ≡ true
    → all test (s ++ t) ≡ true
unfolding all
all-append test [] t h k = k
all-append test (c ∷ s) t h k = ground (arith, all-append test s t)

-- only the character NUL has the byte 0
encode_char-nulless : (c : ℕ) → is_other 0 c ≡ true → all (is_other 0) (encode_char c) ≡ true
unfolding encode_char all
encode_char-nulless c h = ground arith

encode_chars-nulless :
    (s : Text) → all (is_other 0) s ≡ true → all (is_other 0) (encode_chars s) ≡ true
unfolding encode_chars all
encode_chars-nulless [] h = refl
encode_chars-nulless (c ∷ s) h =
    let (first, others) = &&-eq-true (is_other 0 c) (all (is_other 0) s) h in
    all-append (is_other 0) (encode_char c) (encode_chars s) (encode_char-nulless c first)
      (encode_chars-nulless s others)

take-append : (s t : List ℕ) → take (length s) (s ++ t) ≡ s
take-append [] t = refl
take-append (c ∷ s) t = ap (◌∷◌ c) (take-append s t)

drop-append : (s t : List ℕ) → drop (length s) (s ++ t) ≡ t
drop-append [] t = refl
drop-append (c ∷ s) t = drop-append s t

next_entry-found :
    (payload mode later name behind : List ℕ) (m : ℕ)
    → split_byte 32 payload ≡ some (m ∷ mode, later)
    → split_byte 0 later ≡ some (name, behind)
    → ltb (length behind) 20 ≡ false
    → next_entry payload
      ≡ some (record { mode = m ∷ mode; name = name; object_id = take 20 behind }, drop 20 behind)
unfolding next_entry
next_entry-found payload mode later name behind m h k enough = rw (next_entry, h, k, enough)

entry_of : TreeItem → Entry
entry_of item = record {
  mode = item.mode_char ∷ item.mode_chars;
  name = encode_chars item.name;
  object_id = item.object_id;
}

next_entry-print_item :
    (item : TreeItem) (rest : List ℕ)
    → Printable item
    → next_entry (print_item item rest) ≡ some (entry_of item, rest)
unfolding print_item entry_of
next_entry-print_item item rest printable =
    let later = encode_chars item.name ++ (0 ∷ (item.object_id ++ rest)) in
    let one : split_byte 32 (print_item item rest)
        ≡ some (item.mode_char ∷ item.mode_chars, later) =
      split_byte-append 32 (item.mode_char ∷ item.mode_chars) later printable.mode_spaceless in
    let two =
      split_byte-append 0 (encode_chars item.name) (item.object_id ++ rest)
        (encode_chars-nulless item.name printable.name_nulless) in
    let size = printable.id_size in
    let sizes = length-append item.object_id rest in
    let front : take 20 (item.object_id ++ rest) ≡ item.object_id =
      rw (← size) (take-append item.object_id rest) in
    let back : drop 20 (item.object_id ++ rest) ≡ rest =
      rw (← size) (drop-append item.object_id rest) in
    next_entry-found (print_item item rest) item.mode_chars later (encode_chars item.name)
      (item.object_id ++ rest) item.mode_char one two (le→ltb-false _ 20 (omega arith))
    ∙ rw (front, back)

print_item-longer : (item : TreeItem) (rest : List ℕ) → length rest < length (print_item item rest)
unfolding print_item
print_item-longer item rest =
    let one =
      length-append item.mode_chars
        (32 ∷ (encode_chars item.name ++ (0 ∷ (item.object_id ++ rest)))) in
    let two = length-append (encode_chars item.name) (0 ∷ (item.object_id ++ rest)) in
    let three = length-append item.object_id rest in omega arith

decode_ascii-ok :
    (e : Error) (bytes : List ℕ) → all is_ascii bytes ≡ true → decode_ascii e bytes ≡ ok bytes
unfolding decode_ascii
decode_ascii-ok e bytes h = rw (decode_ascii, h)

decode_utf8-ok :
    (e : Error) (bytes : List ℕ) (s : Text) → decode bytes ≡ ok s → decode_utf8 e bytes ≡ ok s
unfolding decode_utf8
decode_utf8-ok e bytes s h = rw (decode_utf8, h)

-- one round of the search
tree_entry-step :
    (fuel b : ℕ) (bytes rest : List ℕ) (entry : Entry) (mode name wanted : Text)
    → next_entry (b ∷ bytes) ≡ some (entry, rest)
    → decode_ascii unicode_decode_error entry.mode ≡ ok mode
    → decode_utf8 unicode_decode_error entry.name ≡ ok name
    → tree_entry_fuel (suc fuel) (b ∷ bytes) wanted ≡ (
        if text_eq name wanted
        then ok (mode, hex entry.object_id)
        else tree_entry_fuel fuel rest wanted)
unfolding tree_entry_fuel
tree_entry-step fuel b bytes rest entry mode name wanted found is_mode is_name =
    bind-ok _ (required _ found)
    ∙ bind-ok _ is_mode
    ∙ bind-ok _ is_name
    ∙ by_name (text_eq name wanted)
  where
    required :
        {A : Type 0} {o : Option A} {a : A} (e : Error) → o ≡ some a → require o (err e) ≡ ok a
    required e h = rw h

    by_name :
        (same : Bool)
        → elim same [
          | true ↦ ok (mode, hex entry.object_id)
          | false ↦ tree_entry_fuel fuel rest wanted
        ]
          ≡ (if same then ok (mode, hex entry.object_id) else tree_entry_fuel fuel rest wanted)
    by_name true = refl
    by_name false = refl

tree_entry-print_item :
    (fuel : ℕ) (item : TreeItem) (rest : List ℕ) (wanted : Text)
    → Printable item
    → tree_entry_fuel (suc fuel) (print_item item rest) wanted ≡ (
        if text_eq item.name wanted
        then ok (item.mode_char ∷ item.mode_chars, hex item.object_id)
        else tree_entry_fuel fuel rest wanted)
unfolding print_item entry_of
tree_entry-print_item fuel item rest wanted printable =
    tree_entry-step fuel item.mode_char _ rest (entry_of item) (item.mode_char ∷ item.mode_chars)
      item.name wanted (next_entry-print_item item rest printable)
      (decode_ascii-ok _ (item.mode_char ∷ item.mode_chars) printable.mode_ascii)
      (decode_utf8-ok _ (encode_chars item.name) item.name
        (decode-encode_chars item.name printable.name_chars printable.name_paired))

tree_entry-print_tree :
    (fuel : ℕ) (items : List TreeItem) (wanted : Text)
    → All Printable items
    → length (print_tree items) ≤ fuel
    → tree_entry_fuel fuel (print_tree items) wanted ≡ find_item items wanted
unfolding tree_entry_fuel print_tree find_item
tree_entry-print_tree fuel [] wanted printable enough = refl
tree_entry-print_tree zero (item ∷ items) wanted printable enough =
    let longer = print_item-longer item (print_tree items) in ground arith
tree_entry-print_tree (suc fuel) (item ∷ items) wanted printable enough =
    let longer = print_item-longer item (print_tree items) in
    tree_entry-print_item fuel item (print_tree items) wanted printable.0
    ∙ ap
        (λ later.
          if text_eq item.name wanted
          then ok (item.mode_char ∷ item.mode_chars, hex item.object_id)
          else later)
        (tree_entry-print_tree fuel items wanted printable.1 (omega arith))

-- In a tree as git writes it, of entries with an ASCII mode, a name in UTF-8 and an identifier of 20 bytes, the
-- loader finds the mode and the identifier of the first entry of the wanted name, and reports a missing path
-- where there is none.
pub bootstrap_tree_entry-print_tree :
    (items : List TreeItem) (wanted : Text)
    → All Printable items
    → bootstrap_tree_entry (print_tree items) wanted ≡ find_item items wanted
unfolding bootstrap_tree_entry
bootstrap_tree_entry-print_tree items wanted printable =
    tree_entry-print_tree (length (print_tree items)) items wanted printable (omega arith)
