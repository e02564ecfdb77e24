-- ===== src/Tree/Files.antt =====
-- `_verified_commit_files`: all files of a commit, from objects that are checked against their
-- identifiers, without the cache of the last commit. The files are listed newest first.
use qsol_fed.Base.{
  ℕ, zero, suc, ◌+◌, ◌-◌, Bool, false, ◌&&◌, ◌||◌, not, ◌==◌, List, [], ◌∷◌, ◌++◌, leb, ltb, length,
  if◌then◌else◌,
}
use qsol_fed.Base.Result.{
  Result, ok, err, ◌>>=◌, ◌>>◌, raise_if, out_of_fuel, moriarty_exact_export_commit_missing,
  moriarty_commit_tree_header_missing, moriarty_commit_tree_id_invalid,
  moriarty_git_tree_depth_exceeded, moriarty_git_tree_metadata_exceeded,
  moriarty_git_tree_object_malformed, moriarty_git_tree_entry_count_exceeded,
  moriarty_git_tree_entry_encoding_invalid, moriarty_git_tree_entry_name_invalid,
  moriarty_git_tree_path_too_long, moriarty_git_tree_duplicate_path,
  moriarty_exact_export_archive_too_large, moriarty_exact_export_nonregular_entry_forbidden,
}
use qsol_fed.Base.Text.{Text, codes, text_eq, contains}
use qsol_fed.Base.Utf8.{encode}
use qsol_fed.Json.Scan.{after}
use qsol_fed.Sdk.Fields.{require}
use qsol_fed.Moriarty.Shapes.{matches_target}
use qsol_fed.Moriarty.Registry.{git_commit_exists}
use qsol_fed.Tree.Objects.{
  Repository, hex, decode_ascii, decode_utf8, first_line, verified_git_object,
}
use qsol_fed.Tree.Entry.{Entry, next_entry}

abbrev pub max_git_archive_bytes : ℕ
max_git_archive_bytes = 67108864

abbrev pub max_git_tree_metadata_bytes : ℕ
max_git_tree_metadata_bytes = 16777216

abbrev pub max_git_tree_entries : ℕ
max_git_tree_entries = 32768

abbrev pub max_git_tree_depth : ℕ
max_git_tree_depth = 64

abbrev pub max_git_path_bytes : ℕ
max_git_path_bytes = 4096

abbrev pub max_commit_bytes : ℕ
max_commit_bytes = 1048576

pub record CommitFile : Type 0 where
  pub path : Text
  pub mode : Text
  pub object_id : Text
  pub blob : List ℕ

-- a tree that is still on the stack
pub record Pending : Type 0 where
  pub tree_id : Text
  pub prefix : Text
  pub depth : ℕ

-- the variables of the traversal
pub record Walk : Type 0 where
  pub files : List CommitFile
  pub total_payload : ℕ
  pub total_tree_metadata : ℕ
  pub entry_count : ℕ

abbrev pub start : Walk
start = record { files = []; total_payload = 0; total_tree_metadata = 0; entry_count = 0 }

abbrev pub root_of : Text → Pending
root_of root_tree = record { tree_id = root_tree; prefix = []; depth = 0 }

unfoldable pub paths : List CommitFile → List Text
paths [] = []
paths (file ∷ files) = file.path ∷ paths files

unfoldable pub has_char : ℕ → Text → Bool
has_char c [] = false
has_char c (d ∷ s) = c == d || has_char c s

-- no empty name, no `.`, no `..` and no separator
unfoldable pub name_valid : Text → Bool
unfolding contains has_char
name_valid name =
    not (contains ([] ∷ codes "." ∷ codes ".." ∷ []) name)
    && not (has_char b'/' name)
    && not (has_char 92 name)

-- `f"{prefix}/{name}" if prefix else name`
unfoldable pub relative_path : Text → Text → Text
relative_path [] name = name
relative_path (c ∷ prefix) name = c ∷ (prefix ++ (b'/' ∷ name))

unfoldable pub count_entry : Walk → Walk
count_entry walk = record {
  files = walk.files;
  total_payload = walk.total_payload;
  total_tree_metadata = walk.total_tree_metadata;
  entry_count = walk.entry_count + 1;
}

unfoldable pub read_metadata : ℕ → Walk → Walk
read_metadata size walk = record {
  files = walk.files;
  total_payload = walk.total_payload;
  total_tree_metadata = walk.total_tree_metadata + size;
  entry_count = walk.entry_count;
}

module _ (repository : Repository) where
  -- a regular file, whose blob is read
  unfoldable pub walk_blob : Text → Text → Text → Walk → Result Walk
  unfolding verified_git_object
  walk_blob relative mode object_id walk = do
    raise_if (leb max_git_archive_bytes walk.total_payload) moriarty_exact_export_archive_too_large
    blob ←
        verified_git_object repository (codes "blob") object_id
          (max_git_archive_bytes - walk.total_payload)
    let total_payload = walk.total_payload + length blob
    raise_if (ltb max_git_archive_bytes total_payload) moriarty_exact_export_archive_too_large
    ok record {
      files =
          record { path = relative; mode = mode; object_id = object_id; blob = blob } ∷ walk.files;
      total_payload = total_payload;
      total_tree_metadata = walk.total_tree_metadata;
      entry_count = walk.entry_count;
    }

  -- an entry of a valid mode: a tree goes on the stack
  unfoldable pub walk_mode : ℕ → Text → Text → Text → Walk → Result (Walk × List Pending)
  unfolding text_eq contains walk_blob
  walk_mode depth relative mode object_id walk =
      if text_eq mode (codes "40000")
      then (do
        raise_if (leb max_git_tree_depth depth) moriarty_git_tree_depth_exceeded
        ok (walk, record { tree_id = object_id; prefix = relative; depth = depth + 1 } ∷ []))
      else if contains (codes "100644" ∷ codes "100755" ∷ []) mode
      then (do walked ← walk_blob relative mode object_id walk; ok (walked, []))
      else err moriarty_exact_export_nonregular_entry_forbidden

  -- one round of the inner loop
  unfoldable pub walk_entry : Text → ℕ → Entry → Walk → Result (Walk × List Pending)
  unfolding count_entry decode_ascii decode_utf8 name_valid relative_path encode contains paths
      walk_mode hex
  walk_entry prefix depth entry walk = do
    raise_if (ltb max_git_tree_entries (walk.entry_count + 1))
        moriarty_git_tree_entry_count_exceeded
    mode ← decode_ascii moriarty_git_tree_entry_encoding_invalid entry.mode
    name ← decode_utf8 moriarty_git_tree_entry_encoding_invalid entry.name
    raise_if (not (name_valid name)) moriarty_git_tree_entry_name_invalid
    encoded ← encode (relative_path prefix name)
    raise_if (ltb max_git_path_bytes (length encoded)) moriarty_git_tree_path_too_long
    raise_if (contains (paths walk.files) (relative_path prefix name))
        moriarty_git_tree_duplicate_path
    walk_mode depth (relative_path prefix name) mode (hex entry.object_id) (count_entry walk)

  -- The inner loop, and the child trees in their order. Every entry has a byte, so the length of the payload is
  -- enough fuel; the cursor cannot pass the end.
  unfoldable pub walk_entries : ℕ → List ℕ → Text → ℕ → Walk → Result (Walk × List Pending)
  unfolding next_entry walk_entry
  walk_entries fuel [] prefix depth walk = ok (walk, [])
  walk_entries zero (b ∷ payload) prefix depth walk = err out_of_fuel
  walk_entries (suc fuel) (b ∷ payload) prefix depth walk = do
    (entry, rest) ← require (next_entry (b ∷ payload)) (err moriarty_git_tree_object_malformed)
    (walked, child) ← walk_entry prefix depth entry walk
    (last, children) ← walk_entries fuel rest prefix depth walked
    ok (last, child ++ children)

  -- one round of the outer loop
  unfoldable pub walk_tree : Pending → Walk → Result (Walk × List Pending)
  unfolding verified_git_object read_metadata walk_entries
  walk_tree pending walk = do
    raise_if (ltb max_git_tree_depth pending.depth) moriarty_git_tree_depth_exceeded
    raise_if (leb max_git_tree_metadata_bytes walk.total_tree_metadata)
        moriarty_git_tree_metadata_exceeded
    tree_payload ←
        verified_git_object repository (codes "tree") pending.tree_id
          (max_git_tree_metadata_bytes - walk.total_tree_metadata)
    raise_if (ltb max_git_tree_metadata_bytes (walk.total_tree_metadata + length tree_payload))
        moriarty_git_tree_metadata_exceeded
    walk_entries (length tree_payload) tree_payload pending.prefix pending.depth
        (read_metadata (length tree_payload) walk)

  -- The outer loop; the top of the stack comes first. Every tree but the root is an entry of another one, and
  -- there are at most `max_git_tree_entries` entries.
  unfoldable pub walk_trees : ℕ → List Pending → Walk → Result Walk
  unfolding walk_tree
  walk_trees fuel [] walk = ok walk
  walk_trees zero (pending ∷ stack) walk = err out_of_fuel
  walk_trees (suc fuel) (pending ∷ stack) walk = do
    (walked, children) ← walk_tree pending walk
    walk_trees fuel (children ++ stack) walked

  unfoldable pub verified_commit_files : Text → Result (List CommitFile)
  unfolding git_commit_exists verified_git_object first_line after decode_ascii matches_target
      walk_trees
  verified_commit_files commit = do
    raise_if (not (git_commit_exists repository.history commit))
        moriarty_exact_export_commit_missing
    commit_payload ← verified_git_object repository (codes "commit") commit max_commit_bytes
    tree_bytes ←
        require (after (codes "tree ") (first_line commit_payload))
          (err moriarty_commit_tree_header_missing)
    root_tree ← decode_ascii moriarty_commit_tree_id_invalid tree_bytes
    raise_if (not (matches_target root_tree)) moriarty_commit_tree_id_invalid
    walked ← walk_trees (max_git_tree_entries + 1) (root_of root_tree ∷ []) start
    ok walked.files
