-- ===== src/Tree/Index.antt =====
-- The index of git: `_index_flags_output_clean`, `_index_entries`, and the comparison with a commit.
use qsol_fed.Base.{
  ℕ, Bool, true, false, ◌&&◌, ◌||◌, not, ◌==◌, List, [], ◌∷◌, ◌++◌, leb, length, all, Option, none,
  some, if◌then◌else◌,
}
use qsol_fed.Base.Result.{Result, ok, err, unicode_decode_error}
use qsol_fed.Base.Text.{Text, codes, text_eq, contains}
use qsol_fed.Moriarty.Shapes.{matches_target}
use qsol_fed.Tree.Objects.{Completed, stdout, decode_ascii, decode_utf8, split_byte, split_on}
use qsol_fed.Tree.Files.{CommitFile}

abbrev pub starts_with : ℕ → Text → Bool
starts_with b [] = false
starts_with b (c ∷ s) = b == c

abbrev pub ok_part : {A : Type 0} → Result A → Option A
ok_part (ok a) = some a
ok_part (err _) = none

abbrev pub absent : {A : Type 0} → Option A → Bool
absent none = true
absent (some _) = false

abbrev pub is_line_break : ℕ → Bool
is_line_break c =
    (leb 10 c && leb c 13) || (leb 28 c && leb c 30) || c == 0x85 || c == 0x2028 || c == 0x2029

-- `str.splitlines`, with the line so far: CR LF is one break, and a break at the end opens no line
unfoldable pub lines_from : Text → Text → List Text
lines_from [] [] = []
lines_from (d ∷ line) [] = (d ∷ line) ∷ []
lines_from line (c ∷ s) = elim (c == 13 && starts_with 10 s) [
  | true ↦ lines_from line s
  | false ↦ elim (is_line_break c) [
    | true ↦ line ∷ lines_from [] s
    | false ↦ lines_from (line ++ (c ∷ [])) s
  ]
]

-- a line of `git ls-files -t -v`: a tag, which is neither `S` nor a lower-case letter, and a space
unfoldable pub flag_clean : (ℕ → Bool) → Text → Bool
flag_clean is_lower (tag ∷ c ∷ path) = c == 32 && not (tag == b'S' || is_lower tag)
flag_clean is_lower _ = false

unfoldable pub index_flags_output_clean : (ℕ → Bool) → List ℕ → Bool
unfolding decode_utf8 lines_from flag_clean all
index_flags_output_clean is_lower raw = elim (decode_utf8 unicode_decode_error raw) [
  | err _ ↦ false
  | ok text ↦ all (flag_clean is_lower) (lines_from [] text)
]

pub record IndexEntry : Type 0 where
  pub path : Text
  pub mode : Text
  pub object_id : Text

unfoldable pub find_index : Text → List IndexEntry → Option IndexEntry
unfolding text_eq
find_index path [] = none
find_index path (entry ∷ entries) =
    if text_eq entry.path path then some entry else find_index path entries

-- `mode object_id stage`: three parts between two spaces
unfoldable pub three_parts : Text × List Text → Option (Text × Text × Text)
three_parts (mode, object_id ∷ stage ∷ []) = some (mode, object_id, stage)
three_parts _ = none

unfoldable pub metadata_of : List ℕ → Option (Text × Text × Text)
unfolding decode_ascii split_on three_parts
metadata_of metadata = elim (decode_ascii unicode_decode_error metadata) [
  | err _ ↦ none
  | ok text ↦ three_parts (split_on 32 text)
]

-- one record, behind the entries before it
unfoldable pub accept_entry : List IndexEntry → Text × Text × Text → Text → Option IndexEntry
unfolding text_eq contains matches_target find_index
accept_entry entries (mode, object_id, stage) path =
    if text_eq stage (codes "0")
      && (contains (codes "100644" ∷ codes "100755" ∷ []) mode
          && (matches_target object_id && absent (find_index path entries)))
    then some (record { path = path; mode = mode; object_id = object_id })
    else none

unfoldable pub index_entry : List IndexEntry → List ℕ → Option IndexEntry
unfolding split_byte metadata_of decode_utf8 accept_entry
index_entry entries raw = elim (split_byte 9 raw) [
  | none ↦ none
  | some (metadata, raw_path) ↦ elim (metadata_of metadata) [
    | none ↦ none
    | some parts ↦ elim (decode_utf8 unicode_decode_error raw_path) [
      | err _ ↦ none
      | ok path ↦ accept_entry entries parts path
    ]
  ]
]

-- the records between the NULs, the empty ones passed over; the entries are listed newest first
unfoldable pub index_records : List IndexEntry → List (List ℕ) → Option (List IndexEntry)
unfolding index_entry
index_records entries [] = some entries
index_records entries ([] ∷ records) = index_records entries records
index_records entries ((b ∷ bytes) ∷ records) = elim (index_entry entries (b ∷ bytes)) [
  | none ↦ none
  | some entry ↦ index_records (entry ∷ entries) records
]

unfoldable pub index_entries : Completed → Option (List IndexEntry)
unfolding stdout split_on index_records
index_entries completed =
    if completed.succeeded
    then index_records []
        ((split_on 0 (stdout completed.chunks)).0 ∷ (split_on 0 (stdout completed.chunks)).1)
    else none

-- `index != expected_index`: no path comes twice on either side
unfoldable pub same_entry : List IndexEntry → CommitFile → Bool
unfolding find_index text_eq
same_entry entries file = elim (find_index file.path entries) [
  | none ↦ false
  | some entry ↦ text_eq entry.mode file.mode && text_eq entry.object_id file.object_id
]

unfoldable pub index_matches : Option (List IndexEntry) → List CommitFile → Bool
unfolding all same_entry
index_matches none files = false
index_matches (some entries) files =
    length entries == length files && all (same_entry entries) files
