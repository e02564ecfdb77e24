-- ===== src/Examples/Tree.antt =====
-- A repository with one commit of one file, in two databases that hand out the objects in other chunks.
use qsol_fed.Base.{
  ℕ, ◌%◌, ◌≡◌, ◌≢◌, ◌⊎◌, refl, true, false, List, [], ◌∷◌, ◌++◌, length, all, replicate, some,
  arith,
}
use qsol_fed.Base.Result.{ok, err, out_of_fuel, ◌>>=◌, raise_if}
use qsol_fed.Base.Text.{Text, codes, text_eq, contains}
use qsol_fed.Base.Utf8.{has_surrogate}
use qsol_fed.Json.Escape.{hex_digit}
use qsol_fed.Moriarty.Registry.{Git, git_commit_exists}
use qsol_fed.Moriarty.Shapes.{matches_target}
use qsol_fed.Tree.Objects.{Completed}
use qsol_fed.Tree.Files.{CommitFile, verified_commit_files}
use qsol_fed.Tree.Bootstrap.{bootstrap_verified_blob, bootstrap_tree_entry}
use qsol_fed.Tree.Collision.{Collision, repository_of}
use qsol_fed.Tree.Unique.{verified_commit_files_unique, bootstrap_verified_blob_unique}
use qsol_fed.Tree.Valid.{FilesValid}
use qsol_fed.Tree.Bounds.{verified_commit_files-FilesValid}
use qsol_fed.Tree.Fuel.{verified_commit_files-ne-out_of_fuel}
use qsol_fed.Tree.RoundTrip.{
  TreeItem, Printable, print_tree, find_item, bootstrap_tree_entry-print_tree,
}
use qsol_fed.Tree.Worktree.{Stat, Worktree, tracked_tree_clean}
use qsol_fed.Tree.Clean.{CleanTree, tracked_tree_clean-CleanTree}

-- the digest shows the number of bytes modulo 16
abbrev pub toy_sha1 : List ℕ → Text
toy_sha1 bytes = replicate 40 (hex_digit (length bytes % 16))

abbrev commit_id : Text
commit_id = replicate 40 b'8'

abbrev tree_id : Text
tree_id = replicate 40 b'5'

abbrev commit_payload : List ℕ
commit_payload = codes "tree " ++ tree_id ++ (10 ∷ [])

abbrev readme : TreeItem
readme = record {
  mode_char = b'1';
  mode_chars = codes "00644";
  name = codes "a";
  object_id = replicate 20 0x99;
}

abbrev tree_payload : List ℕ
tree_payload = codes "100644 a" ++ (0 ∷ replicate 20 0x99)

abbrev objects : Text → List ℕ
objects kind = elim (text_eq kind (codes "commit")) [
  | true ↦ commit_payload
  | false ↦ elim (text_eq kind (codes "tree")) [ true ↦ tree_payload | false ↦ codes "hi" ]
]

abbrev whole : Text → Text → Completed
whole kind id = record { chunks = objects kind ∷ []; succeeded = true }

abbrev with_end : Text → Text → Completed
with_end kind id = record { chunks = objects kind ∷ [] ∷ []; succeeded = true }

abbrev pub toy_history : Git
toy_history = record { is_commit = λ c. true; precedes = λ a d. true }

abbrev one_file : List CommitFile
one_file =
    record {
      path = codes "a";
      mode = codes "100644";
      object_id = replicate 40 b'9';
      blob = codes "hi";
    }
    ∷ []

whole-files :
    verified_commit_files (repository_of toy_sha1 whole toy_history) commit_id ≡ ok one_file
unfolding verified_commit_files text_eq contains all ◌>>=◌ raise_if git_commit_exists matches_target
whole-files = refl

other-files :
    verified_commit_files (repository_of toy_sha1 with_end toy_history) commit_id ≡ ok one_file
unfolding verified_commit_files text_eq contains all ◌>>=◌ raise_if git_commit_exists matches_target
other-files = refl

verified_commit_files_unique_example : (one_file ≡ one_file) ⊎ Collision toy_sha1
verified_commit_files_unique_example =
    verified_commit_files_unique toy_sha1 whole with_end toy_history toy_history commit_id one_file
      one_file whole-files other-files

whole-blob :
    bootstrap_verified_blob (repository_of toy_sha1 whole toy_history) commit_id (codes "a")
    ≡ ok (codes "hi")
unfolding bootstrap_verified_blob text_eq contains all ◌>>=◌ raise_if matches_target
whole-blob = refl

other-blob :
    bootstrap_verified_blob (repository_of toy_sha1 with_end toy_history) commit_id (codes "a")
    ≡ ok (codes "hi")
unfolding bootstrap_verified_blob text_eq contains all ◌>>=◌ raise_if matches_target
other-blob = refl

bootstrap_verified_blob_unique_example : (codes "hi" ≡ codes "hi") ⊎ Collision toy_sha1
bootstrap_verified_blob_unique_example =
    bootstrap_verified_blob_unique toy_sha1 whole with_end toy_history toy_history commit_id
      (codes "a") (codes "hi") (codes "hi") whole-blob other-blob

verified_commit_files-FilesValid_example : FilesValid toy_sha1 one_file
verified_commit_files-FilesValid_example =
    verified_commit_files-FilesValid (repository_of toy_sha1 whole toy_history) commit_id one_file
      whole-files

verified_commit_files-ne-out_of_fuel_example :
    verified_commit_files (repository_of toy_sha1 whole toy_history) commit_id ≢ err out_of_fuel
verified_commit_files-ne-out_of_fuel_example =
    verified_commit_files-ne-out_of_fuel (repository_of toy_sha1 whole toy_history) commit_id

readme-Printable : Printable readme
unfolding all has_surrogate
readme-Printable = record {
  mode_ascii = refl;
  mode_spaceless = refl;
  name_chars = (omega arith, tt);
  name_paired = refl;
  name_nulless = refl;
  id_size = refl;
}

bootstrap_tree_entry-print_tree_example :
    bootstrap_tree_entry (print_tree (readme ∷ [])) (codes "a")
    ≡ find_item (readme ∷ []) (codes "a")
bootstrap_tree_entry-print_tree_example =
    bootstrap_tree_entry-print_tree (readme ∷ []) (codes "a") (readme-Printable, tt)

abbrev readme_stat : Stat
readme_stat = record {
  dev = 1;
  ino = 2;
  size = 2;
  mtime_ns = 3;
  regular = true;
  executable = false;
}

abbrev checkout : Worktree
checkout = record {
  rev_parse_head = record { chunks = (commit_id ++ (10 ∷ [])) ∷ []; succeeded = true };
  ls_files_flags = record { chunks = codes "H a\n" ∷ []; succeeded = true };
  ls_files_index = record {
    chunks = (codes "100644 " ++ replicate 40 b'9' ++ codes " 0\ta" ++ (0 ∷ [])) ∷ [];
    succeeded = true;
  };
  candidate = λ path. record {
    initial = some readme_stat;
    symlink = false;
    open_file = some (record {
      opened = readme_stat;
      reads = codes "h" ∷ codes "i" ∷ [] ∷ [];
      final = readme_stat;
    });
  };
  read_bytes = λ path. some (codes "hi");
  is_lower = λ c. false;
}

checkout-clean : tracked_tree_clean (repository_of toy_sha1 whole toy_history) checkout ≡ true
unfolding tracked_tree_clean verified_commit_files text_eq contains all ◌>>=◌ raise_if
    git_commit_exists matches_target
checkout-clean = refl

tracked_tree_clean-CleanTree_example : CleanTree (repository_of toy_sha1 whole toy_history) checkout
tracked_tree_clean-CleanTree_example =
    tracked_tree_clean-CleanTree (repository_of toy_sha1 whole toy_history) checkout checkout-clean
