-- ===== src/Tree/Unique.antt =====
-- What a commit identifier determines: the files of the commit, and the modules that the harness loads.
use qsol_fed.Base.{ℕ, zero, suc, ◌+◌, ◌≡◌, not, ◌⊎◌, List, [], ◌∷◌, ◌++◌, length}
use qsol_fed.Base.Result.{Result, ok, ◌>>=◌, guard-eq-ok}
use qsol_fed.Base.Text.{Text, codes, text_eq, text_eq_iff, contains}
use qsol_fed.Moriarty.Registry.{Git, git_commit_exists}
use qsol_fed.Moriarty.Shapes.{matches_target}
use qsol_fed.Base.Inverse.{not-false, ok-value}
use qsol_fed.Tree.Objects.{Completed, Repository, hex, stdout, object_bytes, git_object_id}
use qsol_fed.Tree.Entry.{Entry}
use qsol_fed.Tree.Files.{
  start, root_of, max_git_tree_entries, CommitFile, Pending, Walk, walk_blob, walk_mode, walk_entry,
  walk_entries, walk_tree, walk_trees, verified_commit_files, read_metadata, count_entry,
  relative_path,
}
use qsol_fed.Tree.Bootstrap.{
  bootstrap_git_object, resolve_path, bootstrap_verified_blob, split_path,
}
use qsol_fed.Tree.Collision.{
  Collision, Agree, Agree-same, Agree-bind, Agree-if, same_id, repository_of,
  verified_git_object-Agree,
}

-- a payload that was read has the identifier that was asked for
bootstrap_git_object-id :
    (repository : Repository) (kind id : Text) (payload : List ℕ)
    → bootstrap_git_object repository kind id ≡ ok payload
    → repository.sha1 (object_bytes kind payload) ≡ id
unfolding bootstrap_git_object git_object_id
bootstrap_git_object-id repository kind id payload h =
    let (valid, h1) = guard-eq-ok (not (matches_target id)) _ _ h in
    let completed = repository.cat_file kind id in
    let (succeeded, h2) = guard-eq-ok (not completed.succeeded) _ _ h1 in
    let (hashed, h3) =
      guard-eq-ok (not (text_eq (git_object_id repository kind (stdout completed.chunks)) id)) _ _
        h2 in
    rw (← ok-value h3) ((text_eq_iff _ id).0 (not-false _ hashed))

module _ (sha1 : List ℕ → Text) (cat cat' : Text → Text → Completed) (history history' : Git) where
  -- behind a step that does not read
  Agree-behind :
      {A B : Type 0} (r : Result A) (f g : A → Result B)
      → ((a : A) → Agree sha1 (f a) (g a))
      → Agree sha1 (r >>= f) (r >>= g)
  Agree-behind r f g later = Agree-bind r r f g (Agree-same r) later

  walk_blob-Agree :
      (relative mode object_id : Text) (walk : Walk)
      → Agree sha1
          (walk_blob (repository_of sha1 cat history) relative mode object_id walk)
          (walk_blob (repository_of sha1 cat' history') relative mode object_id walk)
  unfolding walk_blob
  walk_blob-Agree relative mode object_id walk = Agree-behind _ _ _ (λ _.
      Agree-bind _ _ _ _
        (verified_git_object-Agree sha1 cat cat' history history' (codes "blob") object_id _ _)
        (λ blob. Agree-same _))

  walk_mode-Agree :
      (depth : ℕ) (relative mode object_id : Text) (walk : Walk)
      → Agree sha1
          (walk_mode (repository_of sha1 cat history) depth relative mode object_id walk)
          (walk_mode (repository_of sha1 cat' history') depth relative mode object_id walk)
  unfolding walk_mode
  walk_mode-Agree depth relative mode object_id walk =
      Agree-if (text_eq mode (codes "40000")) _ _ _ _ (Agree-same _) (
        Agree-if (contains (codes "100644" ∷ codes "100755" ∷ []) mode) _ _ _ _
          (Agree-bind _ _ _ _ (walk_blob-Agree relative mode object_id walk)
            (λ walked. Agree-same _))
          (Agree-same _))

  walk_entry-Agree :
      (prefix : Text) (depth : ℕ) (entry : Entry) (walk : Walk)
      → Agree sha1
          (walk_entry (repository_of sha1 cat history) prefix depth entry walk)
          (walk_entry (repository_of sha1 cat' history') prefix depth entry walk)
  unfolding walk_entry
  walk_entry-Agree prefix depth entry walk = Agree-behind _ _ _ (λ _. Agree-behind _ _ _ (λ mode.
      Agree-behind _ _ _ (λ name. Agree-behind _ _ _ (λ _. Agree-behind _ _ _ (λ encoded.
        Agree-behind _ _ _ (λ _. Agree-behind _ _ _ (λ _.
          walk_mode-Agree depth (relative_path prefix name) mode (hex entry.object_id)
            (count_entry walk))))))))

  walk_entries-Agree :
      (fuel : ℕ) (payload : List ℕ) (prefix : Text) (depth : ℕ) (walk : Walk)
      → Agree sha1
          (walk_entries (repository_of sha1 cat history) fuel payload prefix depth walk)
          (walk_entries (repository_of sha1 cat' history') fuel payload prefix depth walk)
  unfolding walk_entries
  walk_entries-Agree fuel [] prefix depth walk = Agree-same _
  walk_entries-Agree zero (b ∷ payload) prefix depth walk = Agree-same _
  walk_entries-Agree (suc fuel) (b ∷ payload) prefix depth walk =
      Agree-behind _ _ _ (λ (entry, rest).
        Agree-bind _ _ _ _ (walk_entry-Agree prefix depth entry walk) (λ (walked, child).
          Agree-bind _ _ _ _ (walk_entries-Agree fuel rest prefix depth walked)
            (λ _. Agree-same _)))

  walk_tree-Agree :
      (pending : Pending) (walk : Walk)
      → Agree sha1
          (walk_tree (repository_of sha1 cat history) pending walk)
          (walk_tree (repository_of sha1 cat' history') pending walk)
  unfolding walk_tree
  walk_tree-Agree pending walk = Agree-behind _ _ _ (λ _. Agree-behind _ _ _ (λ _.
      Agree-bind _ _ _ _
        (verified_git_object-Agree sha1 cat cat' history history' (codes "tree") pending.tree_id _
          _)
        (λ tree_payload. Agree-behind _ _ _ (λ _.
          walk_entries-Agree (length tree_payload) tree_payload pending.prefix pending.depth
            (read_metadata (length tree_payload) walk)))))

  walk_trees-Agree :
      (fuel : ℕ) (stack : List Pending) (walk : Walk)
      → Agree sha1
          (walk_trees (repository_of sha1 cat history) fuel stack walk)
          (walk_trees (repository_of sha1 cat' history') fuel stack walk)
  unfolding walk_trees
  walk_trees-Agree fuel [] walk = Agree-same _
  walk_trees-Agree zero (pending ∷ stack) walk = Agree-same _
  walk_trees-Agree (suc fuel) (pending ∷ stack) walk =
      Agree-bind _ _ _ _ (walk_tree-Agree pending walk)
        (λ (walked, children). walk_trees-Agree fuel (children ++ stack) walked)

  -- Two databases of objects, whatever they hold, and whatever histories: if both yield files for the same
  -- commit, they yield the same files, with the same paths, modes and contents, or there is a collision of
  -- the hash.
  pub verified_commit_files_unique :
      (commit : Text) (files others : List CommitFile)
      → verified_commit_files (repository_of sha1 cat history) commit ≡ ok files
      → verified_commit_files (repository_of sha1 cat' history') commit ≡ ok others
      → (files ≡ others) ⊎ Collision sha1
  unfolding verified_commit_files
  verified_commit_files_unique commit files others h k =
      let (_, h1) = guard-eq-ok (not (git_commit_exists history commit)) _ _ h in
      let (_, k1) = guard-eq-ok (not (git_commit_exists history' commit)) _ _ k in
      (Agree-bind _ _ _ _
          (verified_git_object-Agree sha1 cat cat' history history' (codes "commit") commit _ _)
          (λ commit_payload. Agree-behind _ _ _ (λ tree_bytes. Agree-behind _ _ _ (λ root_tree.
            Agree-behind _ _ _ (λ _.
              Agree-bind _ _ _ _
                (walk_trees-Agree (max_git_tree_entries + 1) (root_of root_tree ∷ []) start)
                (λ walked. Agree-same _)))))).agree
        files others h1 k1

  bootstrap_git_object-Agree :
      (kind id : Text)
      → Agree sha1
          (bootstrap_git_object (repository_of sha1 cat history) kind id)
          (bootstrap_git_object (repository_of sha1 cat' history') kind id)
  bootstrap_git_object-Agree kind id = record {
    agree = λ p q h k.
        same_id sha1 kind p q id
          (bootstrap_git_object-id (repository_of sha1 cat history) kind id p h)
          (bootstrap_git_object-id (repository_of sha1 cat' history') kind id q k);
  }

  resolve_path-Agree :
      (tree_id part : Text) (parts : List Text)
      → Agree sha1
          (resolve_path (repository_of sha1 cat history) tree_id part parts)
          (resolve_path (repository_of sha1 cat' history') tree_id part parts)
  unfolding resolve_path
  resolve_path-Agree tree_id part [] =
      Agree-bind _ _ _ _ (bootstrap_git_object-Agree (codes "tree") tree_id) (λ tree_payload.
        Agree-behind _ _ _ (λ (mode, object_id).
          Agree-behind _ _ _ (λ _. bootstrap_git_object-Agree (codes "blob") object_id)))
  resolve_path-Agree tree_id part (next ∷ parts) =
      Agree-bind _ _ _ _ (bootstrap_git_object-Agree (codes "tree") tree_id) (λ tree_payload.
        Agree-behind _ _ _
          (λ (mode, object_id). Agree-behind _ _ _ (λ _. resolve_path-Agree object_id next parts)))

  -- Two databases of objects, whatever they hold: if the loader finds a source in both of them, under the same
  -- path of the same commit, it is the same source, or there is a collision of the hash.
  pub bootstrap_verified_blob_unique :
      (target relative : Text) (source other : List ℕ)
      → bootstrap_verified_blob (repository_of sha1 cat history) target relative ≡ ok source
      → bootstrap_verified_blob (repository_of sha1 cat' history') target relative ≡ ok other
      → (source ≡ other) ⊎ Collision sha1
  unfolding bootstrap_verified_blob
  bootstrap_verified_blob_unique target relative source other h k =
      (Agree-bind _ _ _ _ (bootstrap_git_object-Agree (codes "commit") target) (λ commit_payload.
          Agree-behind _ _ _ (λ tree_bytes. Agree-behind _ _ _ (λ tree_id.
            resolve_path-Agree tree_id (split_path relative).0 (split_path relative).1)))).agree
        source other h k
