-- ===== src/Tree/Worktree.antt =====
-- The working tree against the commit: `git_head`, `index_flags_clean`, `_index_entries`,
-- `_worktree_file_matches`, `tracked_tree_clean` and `harness_files_match_target`.
use qsol_fed.Base.{
  ℕ, Bool, true, false, ◌&&◌, not, ◌==◌, List, [], ◌∷◌, ◌++◌, length, all, Option, none, some,
  if◌then◌else◌,
}
use qsol_fed.Base.Result.{
  Result, ok, err, ◌>>=◌, ◌>>◌, raise_if, moriarty_git_head_unavailable,
  moriarty_git_head_non_ascii, moriarty_git_head_invalid,
}
use qsol_fed.Base.Text.{Text, codes, text_eq}
use qsol_fed.Json.Decimal.{str_nat}
use qsol_fed.Moriarty.Shapes.{matches_target}
use qsol_fed.Tree.Objects.{Completed, Repository, stdout, decode_ascii}
use qsol_fed.Tree.Files.{CommitFile, verified_commit_files}
use qsol_fed.Tree.Bootstrap.{strip_left, strip_right}
use qsol_fed.Tree.Index.{ok_part, index_flags_output_clean, index_entries, index_matches}

-- what `os.lstat` and `os.fstat` return, `regular` for `S_ISREG` and `executable` for `st_mode & 0o111`
pub record Stat : Type 0 where
  pub dev : ℕ
  pub ino : ℕ
  pub size : ℕ
  pub mtime_ns : ℕ
  pub regular : Bool
  pub executable : Bool

-- an open file: its state, what the reads return, and its state behind them
pub record Opened : Type 0 where
  pub opened : Stat
  pub reads : List (List ℕ)
  pub final : Stat

-- a path below the root: `lstat`, `is_symlink` and `os.open`, where an OSError is none
pub record Candidate : Type 0 where
  pub initial : Option Stat
  pub symlink : Bool
  pub open_file : Option Opened

-- what the checks see of the working tree: the runs of git, the files, and `str.islower` of a character
pub record Worktree : Type 0 where
  pub rev_parse_head : Completed
  pub ls_files_flags : Completed
  pub ls_files_index : Completed
  pub candidate : Text → Candidate
  pub read_bytes : Text → Option (List ℕ)
  pub is_lower : ℕ → Bool

unfoldable pub git_head : Completed → Result Text
unfolding stdout decode_ascii strip_left strip_right matches_target
git_head completed = do
  raise_if (not completed.succeeded) moriarty_git_head_unavailable
  line ← decode_ascii moriarty_git_head_non_ascii (stdout completed.chunks)
  raise_if (not (matches_target (strip_right (strip_left line)))) moriarty_git_head_invalid
  ok (strip_right (strip_left line))

abbrev pub index_flags_clean : Worktree → Bool
index_flags_clean worktree =
    worktree.ls_files_flags.succeeded
    && index_flags_output_clean worktree.is_lower (stdout worktree.ls_files_flags.chunks)

-- the chunks up to the first empty one
unfoldable pub read_all : List (List ℕ) → List ℕ
read_all [] = []
read_all ([] ∷ chunks) = []
read_all ((b ∷ chunk) ∷ chunks) = (b ∷ chunk) ++ read_all chunks

abbrev pub same_file : Stat → Stat → Bool
same_file one other = one.dev == other.dev && one.ino == other.ino && one.size == other.size

abbrev pub same_bool : Bool → Bool → Bool
same_bool true b = b
same_bool false b = not b

module _ (repository : Repository) where
  -- the open file, of which `initial` is the state before it was opened
  unfoldable pub opened_matches : Text → ℕ → Stat → Opened → Bool
  unfolding read_all str_nat text_eq
  opened_matches object_id expected_size initial file =
      same_file file.opened initial
      && (length (read_all file.reads) == expected_size
          && (same_file file.final file.opened
              && (file.final.mtime_ns == file.opened.mtime_ns
                  && text_eq
                      (repository.sha1 (
                        codes "blob" ++ (32 ∷ (str_nat initial.size ++ (0 ∷ read_all file.reads)))))
                      object_id)))

  unfoldable pub worktree_file_matches : Candidate → Text → Text → ℕ → Bool
  unfolding text_eq opened_matches
  worktree_file_matches candidate mode object_id expected_size = elim candidate.initial [
    | none ↦ false
    | some initial ↦
        initial.regular
        && (not candidate.symlink
            && (same_bool initial.executable (text_eq mode (codes "100755"))
                && (initial.size == expected_size && elim candidate.open_file [
                  | none ↦ false
                  | some file ↦ opened_matches object_id expected_size initial file
                ])))
  ]

  abbrev pub file_matches : Worktree → CommitFile → Bool
  file_matches worktree file =
      worktree_file_matches (worktree.candidate file.path) file.mode file.object_id
        (length file.blob)

  unfoldable pub files_of : Result Text → Option (List CommitFile)
  unfolding verified_commit_files
  files_of (err _) = none
  files_of (ok target) = ok_part (verified_commit_files repository target)

  unfoldable pub tracked_tree_clean : Worktree → Bool
  unfolding index_flags_output_clean stdout git_head files_of index_entries index_matches all
      worktree_file_matches
  tracked_tree_clean worktree =
      index_flags_clean worktree && elim (files_of (git_head worktree.rev_parse_head)) [
        | none ↦ false
        | some files ↦
            index_matches (index_entries worktree.ls_files_index) files
            && all (file_matches worktree) files
      ]

abbrev pub harness_paths : List Text
harness_paths =
    codes "tools/run_moriarty.py"
    ∷ codes "tools/moriarty_isolation.py"
    ∷ codes "tools/qsol_canonical.py"
    ∷ []

unfoldable pub find_file : Text → List CommitFile → Option CommitFile
unfolding text_eq
find_file path [] = none
find_file path (file ∷ files) = if text_eq file.path path then some file else find_file path files

unfoldable pub same_source : Worktree → List CommitFile → Text → Bool
unfolding find_file text_eq
same_source worktree files path = elim (find_file path files) [
  | none ↦ false
  | some expected ↦ elim (worktree.read_bytes path) [
    | none ↦ false
    | some actual ↦ text_eq actual expected.blob
  ]
]

unfoldable pub harness_files_match_target : Repository → Worktree → Text → List Text → Bool
unfolding files_of all same_source
harness_files_match_target repository worktree target extra_paths =
    elim (files_of repository (ok target)) [
      | none ↦ false
      | some files ↦ all (same_source worktree files) (harness_paths ++ extra_paths)
    ]
