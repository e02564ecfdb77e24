-- ===== src/Tree/Bounds.antt =====
-- What the traversal of a commit keeps: its bounds, and that every file has its path, mode and identifier.
use qsol_fed.Base.{
  ℕ, zero, suc, ◌+◌, ◌-◌, ◌≤◌, ◌≡◌, refl, true, false, not, inl, inr, List, [], ◌∷◌, ◌++◌, leb, ltb,
  ltb-false→le, length, All, Bool-cases, arith,
}
use mathlib.Core.Path.{subst}
use qsol_fed.Base.Result.{
  ok, err, guard-eq-ok, >>=-eq-ok, moriarty_git_tree_object_malformed,
  moriarty_commit_tree_header_missing, moriarty_commit_tree_id_invalid,
}
use qsol_fed.Base.Text.{Text, codes, text_eq, contains}
use qsol_fed.Base.Utf8.{encode}
use qsol_fed.Json.Scan.{after}
use qsol_fed.Sdk.Fields.{require}
use qsol_fed.Moriarty.Registry.{git_commit_exists}
use qsol_fed.Moriarty.Shapes.{matches_target}
use qsol_fed.Base.Inverse.{not-false, ok-value}
use qsol_fed.Tree.Objects.{
  Repository, hex, first_line, decode_ascii, decode_utf8, verified_git_object,
}
use qsol_fed.Tree.Entry.{Entry, next_entry}
use qsol_fed.Tree.Files.{
  CommitFile, Pending, Walk, start, root_of, paths, name_valid, relative_path, count_entry,
  walk_blob, walk_mode, walk_entry, walk_entries, walk_tree, walk_trees, verified_commit_files,
  max_commit_bytes, max_git_archive_bytes, max_git_tree_entries, max_git_tree_metadata_bytes,
  max_git_path_bytes,
}
use qsol_fed.Tree.Paths.{path_valid-Inside, path_valid, relative_path-valid}
use qsol_fed.Tree.Collision.{verified_git_object-id}
use qsol_fed.Tree.Valid.{
  total_size, ValidPrefix, ValidPending, ShortPath, FilesValid, WalkValid, Stepped, All-append,
  step_to, tree_step, Stepped-append, read_valid, read_step, start_valid, files_valid,
}

module _ (repository : Repository) where
  -- a blob that is read below a fresh, short and valid path
  walk_blob-WalkValid :
      (relative mode object_id : Text) (walk walked : Walk)
      → walk_blob repository relative mode object_id (count_entry walk) ≡ ok walked
      → WalkValid repository.sha1 walk
      → walk.entry_count + 1 ≤ 32768
      → contains (codes "100644" ∷ codes "100755" ∷ []) mode ≡ true
      → path_valid relative ≡ true
      → ShortPath relative
      → contains (paths walk.files) relative ≡ false
      → Stepped repository.sha1 walk walked []
  unfolding walk_blob count_entry total_size paths
  walk_blob-WalkValid relative mode object_id walk walked h valid room regular inside short fresh =
      let (left, h1) = guard-eq-ok (leb max_git_archive_bytes walk.total_payload) _ _ h in
      let (blob, read, h2) =
        >>=-eq-ok
          (verified_git_object repository (codes "blob") object_id
            (max_git_archive_bytes - walk.total_payload))
          _ h1 in
      let (fits, h3) =
        guard-eq-ok (ltb max_git_archive_bytes (walk.total_payload + length blob)) _ _ h2 in
      let bound = ltb-false→le max_git_archive_bytes (walk.total_payload + length blob) fits in
      let counted = valid.counted in
      let fewer = valid.fewer in
      let unique = valid.apart in
      rw (← ok-value h3) record {
        valid = record {
          each = (
            record {
              regular = regular;
              identified = verified_git_object-id repository (codes "blob") object_id _ blob read;
              inside = path_valid-Inside relative inside;
              short = short;
            },
            valid.each,
          );
          apart = rw (fresh, unique);
          counted = omega arith;
          small = bound;
          fewer = omega arith;
          few = room;
        };
        below = tt;
        grows = omega arith;
      }

  walk_mode-WalkValid :
      (depth : ℕ) (relative mode object_id : Text) (walk walked : Walk) (children : List Pending)
      → walk_mode repository depth relative mode object_id (count_entry walk)
        ≡ ok (walked, children)
      → WalkValid repository.sha1 walk
      → walk.entry_count + 1 ≤ 32768
      → path_valid relative ≡ true
      → ShortPath relative
      → contains (paths walk.files) relative ≡ false
      → Stepped repository.sha1 walk walked children
  unfolding walk_mode
  walk_mode-WalkValid depth relative mode object_id walk walked children h valid room inside short
        fresh =
      elim (Bool-cases (text_eq mode (codes "40000"))) [
        | inl e ↦
            (let (shallow, h1) = guard-eq-ok _ _ _ (rw e at h) in
              step_to _ _ _ (ok-value h1)
                (tree_step walk valid room relative inside object_id (depth + 1)))
        | inr e ↦ elim (Bool-cases (contains (codes "100644" ∷ codes "100755" ∷ []) mode)) [
          | inr k ↦ (let refused = rw (e, k) at h in cc)
          | inl k ↦
              (let (last, read, h1) =
                  >>=-eq-ok (walk_blob repository relative mode object_id (count_entry walk)) _
                    (rw (e, k) at h) in
                step_to _ _ _ (ok-value h1) (
                  walk_blob-WalkValid relative mode object_id walk last read valid room k inside
                    short fresh))
        ]
      ]

  walk_entry-Stepped :
      (prefix : Text) (depth : ℕ) (entry : Entry) (walk walked : Walk) (children : List Pending)
      → walk_entry repository prefix depth entry walk ≡ ok (walked, children)
      → ValidPrefix prefix
      → WalkValid repository.sha1 walk
      → Stepped repository.sha1 walk walked children
  unfolding walk_entry
  walk_entry-Stepped prefix depth entry walk walked children h below valid =
      let (room, h1) = guard-eq-ok (ltb max_git_tree_entries (walk.entry_count + 1)) _ _ h in
      let (mode, is_mode, h2) = >>=-eq-ok (decode_ascii _ entry.mode) _ h1 in
      let (name, is_name, h3) = >>=-eq-ok (decode_utf8 _ entry.name) _ h2 in
      let (named, h4) = guard-eq-ok (not (name_valid name)) _ _ h3 in
      let (encoded, encodes, h5) = >>=-eq-ok (encode (relative_path prefix name)) _ h4 in
      let (short, h6) = guard-eq-ok (ltb max_git_path_bytes (length encoded)) _ _ h5 in
      let (fresh, h7) =
        guard-eq-ok (contains (paths walk.files) (relative_path prefix name)) _ _ h6 in
      walk_mode-WalkValid depth (relative_path prefix name) mode (hex entry.object_id) walk walked
        children h7 valid (ltb-false→le max_git_tree_entries (walk.entry_count + 1) room)
        (relative_path-valid prefix name below (not-false _ named))
        (record {
          encoded = encoded;
          encodes = encodes;
          short = ltb-false→le max_git_path_bytes (length encoded) short;
        })
        fresh

  walk_entries-Stepped :
      (fuel : ℕ) (payload : List ℕ) (prefix : Text) (depth : ℕ) (walk walked : Walk)
      (children : List Pending)
      → walk_entries repository fuel payload prefix depth walk ≡ ok (walked, children)
      → ValidPrefix prefix
      → WalkValid repository.sha1 walk
      → Stepped repository.sha1 walk walked children
  unfolding walk_entries
  walk_entries-Stepped fuel [] prefix depth walk walked children h below valid =
      step_to walk [] (walked, children) (ok-value h)
        record { valid = valid; below = tt; grows = omega arith }
  walk_entries-Stepped zero (b ∷ payload) prefix depth walk walked children h below valid = cc
  walk_entries-Stepped (suc fuel) (b ∷ payload) prefix depth walk walked children h below valid =
      let ((entry, rest), found, h1) =
        >>=-eq-ok (require (next_entry (b ∷ payload)) (err moriarty_git_tree_object_malformed)) _
          h in
      let ((next, child), stepped, h2) =
        >>=-eq-ok (walk_entry repository prefix depth entry walk) _ h1 in
      let ((last, others), later, h3) =
        >>=-eq-ok (walk_entries repository fuel rest prefix depth next) _ h2 in
      let one = walk_entry-Stepped prefix depth entry walk next child stepped below valid in
      let two =
        walk_entries-Stepped fuel rest prefix depth next last others later below one.valid in
      step_to last (child ++ others) (walked, children) (ok-value h3)
        (Stepped-append walk next last child others one two)

  pub walk_tree-Stepped :
      (pending : Pending) (walk walked : Walk) (children : List Pending)
      → walk_tree repository pending walk ≡ ok (walked, children)
      → ValidPending pending
      → WalkValid repository.sha1 walk
      → Stepped repository.sha1 walk walked children
  unfolding walk_tree
  walk_tree-Stepped pending walk walked children h below valid =
      let (shallow, h1) = guard-eq-ok _ _ _ h in
      let (left, h2) = guard-eq-ok _ _ _ h1 in
      let (payload, read, h3) =
        >>=-eq-ok (verified_git_object repository (codes "tree") pending.tree_id _) _ h2 in
      let (fits, h4) =
        guard-eq-ok (ltb max_git_tree_metadata_bytes (walk.total_tree_metadata + length payload)) _
          _ h3 in
      read_step walk walked children (length payload) (
        walk_entries-Stepped (length payload) payload pending.prefix pending.depth _ walked children
          h4 below (read_valid walk (length payload) valid))

  walk_trees-WalkValid :
      (fuel : ℕ) (stack : List Pending) (walk walked : Walk)
      → walk_trees repository fuel stack walk ≡ ok walked
      → All ValidPending stack
      → WalkValid repository.sha1 walk
      → WalkValid repository.sha1 walked
  unfolding walk_trees
  walk_trees-WalkValid fuel [] walk walked h below valid =
      subst (WalkValid repository.sha1) (ok-value h) valid
  walk_trees-WalkValid zero (pending ∷ stack) walk walked h below valid = cc
  walk_trees-WalkValid (suc fuel) (pending ∷ stack) walk walked h below valid =
      let ((next, children), stepped, h1) = >>=-eq-ok (walk_tree repository pending walk) _ h in
      let one = walk_tree-Stepped pending walk next children stepped below.0 valid in
      walk_trees-WalkValid fuel (children ++ stack) next walked h1
        (All-append ValidPending children stack one.below below.1) one.valid

  -- The files that are taken from a commit are at most 32768, have at most 64 MiB together, and have different
  -- paths. Each is a regular file, its object identifier is that of its content, its path has at most 4096
  -- bytes, and no part of its path is empty, `.` or `..` or has a backslash.
  pub verified_commit_files-FilesValid :
      (commit : Text) (files : List CommitFile)
      → verified_commit_files repository commit ≡ ok files
      → FilesValid repository.sha1 files
  unfolding verified_commit_files
  verified_commit_files-FilesValid commit files h =
      let (exists, h1) = guard-eq-ok (not (git_commit_exists repository.history commit)) _ _ h in
      let (payload, read, h2) =
        >>=-eq-ok (verified_git_object repository (codes "commit") commit max_commit_bytes) _ h1 in
      let (tree_bytes, header, h3) =
        >>=-eq-ok
          (require (after (codes "tree ") (first_line payload))
            (err moriarty_commit_tree_header_missing))
          _ h2 in
      let (root_tree, is_root, h4) =
        >>=-eq-ok (decode_ascii moriarty_commit_tree_id_invalid tree_bytes) _ h3 in
      let (is_id, h5) = guard-eq-ok (not (matches_target root_tree)) _ _ h4 in
      let (walked, walks, h6) =
        >>=-eq-ok (walk_trees repository (max_git_tree_entries + 1) (root_of root_tree ∷ []) start)
          _ h5 in
      let valid =
        walk_trees-WalkValid (max_git_tree_entries + 1) (root_of root_tree ∷ []) start walked walks
          (inl refl, tt) (start_valid repository.sha1) in
      subst (FilesValid repository.sha1) (ok-value h6) (files_valid repository.sha1 walked valid)
