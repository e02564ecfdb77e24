-- ===== src/Tree/Clean.antt =====
-- What a clean working tree has.
use qsol_fed.Base.{
  ℕ, ◌≡◌, sym, ap, ◌∙◌, Bool, true, false, ◌&&◌, not, ◌==◌, ==_iff, &&-eq-true, ◌⊎◌, inl, inr, List,
  [], ◌∷◌, ◌++◌, length, all, All, some, Option-cases, arith,
}
use qsol_fed.Base.Result.{ok, Result-cases}
use qsol_fed.Base.Text.{Text, codes, text_eq, text_eq_iff}
use qsol_fed.Json.Decimal.{str_nat}
use qsol_fed.Tree.Objects.{Repository, object_bytes}
use qsol_fed.Tree.Files.{CommitFile, verified_commit_files}
use qsol_fed.Tree.Worktree.{
  Stat, Opened, Candidate, Worktree, git_head, read_all, opened_matches, worktree_file_matches,
  file_matches, same_file, same_bool, files_of, tracked_tree_clean, index_flags_clean,
}
use qsol_fed.Tree.Index.{IndexEntry, index_entries, index_matches, same_entry}
use qsol_fed.Tree.Valid.{FileValid}
use qsol_fed.Tree.Bounds.{verified_commit_files-FilesValid}
use qsol_fed.Tree.Collision.{Collision, same_id}

-- The file in the working tree: regular, no symbolic link, executable as the mode says, and read with
-- the content of the blob, unless there is a collision of the hash.
pub record CleanFile (sha1 : List ℕ → Text) (candidate : Candidate) (file : CommitFile)
    : Type 0 where
  pub initial : Stat
  pub has_initial : candidate.initial ≡ some initial
  pub regular : initial.regular ≡ true
  pub direct : candidate.symlink ≡ false
  pub opened : Opened
  pub has_opened : candidate.open_file ≡ some opened
  pub content : (read_all opened.reads ≡ file.blob) ⊎ Collision sha1

pub record CleanTree (repository : Repository) (worktree : Worktree) : Type 0 where
  pub target : Text
  pub at_head : git_head worktree.rev_parse_head ≡ ok target
  pub files : List CommitFile
  pub of_target : verified_commit_files repository target ≡ ok files
  pub entries : List IndexEntry
  pub of_index : index_entries worktree.ls_files_index ≡ some entries
  pub as_many : length entries ≡ length files
  pub listed : All (λ file. same_entry entries file ≡ true) files
  pub clean : All (λ file. CleanFile repository.sha1 (worktree.candidate file.path) file) files

all-All :
    {A : Type 0} (test : A → Bool) (xs : List A) → all test xs ≡ true → All (λ x. test x ≡ true) xs
unfolding all
all-All test [] h = tt
all-All test (x ∷ xs) h =
    let (first, others) = &&-eq-true (test x) (all test xs) h in (first, all-All test xs others)

blob_bytes :
    (size : ℕ) (content : List ℕ)
    → size ≡ length content
    → codes "blob" ++ (32 ∷ (str_nat size ++ (0 ∷ content))) ≡ object_bytes (codes "blob") content
unfolding object_bytes
blob_bytes size content h = rw h

module _ (repository : Repository) where
  opened_matches-content :
      (file : CommitFile) (initial : Stat) (opened : Opened)
      → FileValid repository.sha1 file
      → initial.size ≡ length file.blob
      → opened_matches repository file.object_id (length file.blob) initial opened ≡ true
      → (read_all opened.reads ≡ file.blob) ⊎ Collision repository.sha1
  unfolding opened_matches
  opened_matches-content file initial opened valid sized h =
      let content = read_all opened.reads in
      let hashed_bytes = codes "blob" ++ (32 ∷ (str_nat initial.size ++ (0 ∷ content))) in
      let (fresh, h1) = &&-eq-true (same_file opened.opened initial) _ h in
      let (complete, h2) = &&-eq-true (length content == length file.blob) _ h1 in
      let (stable, h3) = &&-eq-true (same_file opened.final opened.opened) _ h2 in
      let (unmodified, hashed) =
        &&-eq-true (opened.final.mtime_ns == opened.opened.mtime_ns) _ h3 in
      let same_size = (==_iff (length content) (length file.blob)).0 complete in
      let size : initial.size ≡ length content = omega arith in
      let digest : repository.sha1 hashed_bytes ≡ file.object_id =
        (text_eq_iff (repository.sha1 hashed_bytes) file.object_id).0 hashed in
      same_id repository.sha1 (codes "blob") content file.blob file.object_id
        (ap repository.sha1 (sym (blob_bytes initial.size content size)) ∙ digest) valid.identified

  worktree_file_matches-CleanFile :
      (candidate : Candidate) (file : CommitFile)
      → FileValid repository.sha1 file
      → worktree_file_matches repository candidate file.mode file.object_id (length file.blob)
        ≡ true
      → CleanFile repository.sha1 candidate file
  unfolding worktree_file_matches
  worktree_file_matches-CleanFile candidate file valid h = elim (Option-cases candidate.initial) [
    | inl e ↦ (let refused = rw (worktree_file_matches, e) at h in cc)
    | inr (initial, e) ↦ elim (Option-cases candidate.open_file) [
      | inl k ↦ (let refused = rw (worktree_file_matches, e, k) at h in ground arith)
      | inr (opened, k) ↦
          (let (regular, h1) =
              &&-eq-true initial.regular _ (rw (worktree_file_matches, e, k) at h) in
            let (direct, h2) = &&-eq-true (not candidate.symlink) _ h1 in
            let (executable, h3) =
              &&-eq-true (same_bool initial.executable (text_eq file.mode (codes "100755"))) _ h2 in
            let (sized, matches) =
              &&-eq-true (initial.size == length file.blob)
                (opened_matches repository file.object_id (length file.blob) initial opened) h3 in
            record {
              initial = initial;
              has_initial = e;
              regular = regular;
              direct = ground arith;
              opened = opened;
              has_opened = k;
              content =
                  opened_matches-content file initial opened valid
                    ((==_iff initial.size (length file.blob)).0 sized) matches;
            })
    ]
  ]

  each_clean :
      (worktree : Worktree) (files : List CommitFile)
      → All (FileValid repository.sha1) files
      → all (file_matches repository worktree) files ≡ true
      → All (λ file. CleanFile repository.sha1 (worktree.candidate file.path) file) files
  unfolding all
  each_clean worktree [] valid h = tt
  each_clean worktree (file ∷ files) valid h =
      let (first, others) =
        &&-eq-true (file_matches repository worktree file)
          (all (file_matches repository worktree) files) h in
      (
        worktree_file_matches-CleanFile (worktree.candidate file.path) file valid.0 first,
        each_clean worktree files valid.1 others,
      )

  -- the files of a target, and the index and the files against them
  checked :
      (worktree : Worktree) (target : Text)
      → git_head worktree.rev_parse_head ≡ ok target
      → (files : List CommitFile) → verified_commit_files repository target ≡ ok files
      → (index_matches (index_entries worktree.ls_files_index) files
          && all (file_matches repository worktree) files)
        ≡ true
      → CleanTree repository worktree
  unfolding index_matches
  checked worktree target head files found h =
      let (listed, clean) =
        &&-eq-true (index_matches (index_entries worktree.ls_files_index) files)
          (all (file_matches repository worktree) files) h in
      elim (Option-cases (index_entries worktree.ls_files_index)) [
        | inl e ↦ (let refused = rw e at listed in cc)
        | inr (entries, e) ↦
            (let (many, each) =
                &&-eq-true (length entries == length files) (all (same_entry entries) files)
                  (rw e at listed) in
              let valid = verified_commit_files-FilesValid repository target files found in
              record {
                target = target;
                at_head = head;
                files = files;
                of_target = found;
                entries = entries;
                of_index = e;
                as_many = (==_iff (length entries) (length files)).0 many;
                listed = all-All (same_entry entries) files each;
                clean = each_clean worktree files valid.each clean;
              })
      ]

  -- A working tree that is found to be clean has as many entries in its index as HEAD has files, and each
  -- file of HEAD is among them with its mode and identifier. It is a regular file of the working tree, no
  -- symbolic link, that is read with the content of its blob, unless there is a collision of the hash.
  pub tracked_tree_clean-CleanTree :
      (worktree : Worktree)
      → tracked_tree_clean repository worktree ≡ true
      → CleanTree repository worktree
  unfolding tracked_tree_clean files_of
  tracked_tree_clean-CleanTree worktree h =
      let (flags, h1) = &&-eq-true (index_flags_clean worktree) _ h in
      elim (Result-cases (git_head worktree.rev_parse_head)) [
        | inr (e, k) ↦ (let refused = rw k at h1 in cc)
        | inl (target, k) ↦ elim (Result-cases (verified_commit_files repository target)) [
          | inr (e, q) ↦ (let refused = rw (k, q) at h1 in cc)
          | inl (files, q) ↦ checked worktree target k files q (rw (k, q) at h1)
        ]
      ]
