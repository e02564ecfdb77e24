-- ===== src/Tree/Bootstrap.antt =====
-- The loading of the harness's own modules: `_bootstrap_target`, `_bootstrap_git_object`,
-- `_bootstrap_tree_entry`, `_bootstrap_verified_blob` and the comparison of `_load_verified_source_module`.
use qsol_fed.Base.{
  ℕ, zero, suc, Bool, true, false, ◌&&◌, ◌||◌, not, List, [], ◌∷◌, leb, length, Option, none, some,
  if◌then◌else◌,
}
use qsol_fed.Base.Result.{
  Result, ok, err, ◌>>=◌, ◌>>◌, raise_if, out_of_fuel, unicode_decode_error,
  moriarty_bootstrap_target_missing, moriarty_bootstrap_target_duplicate,
  moriarty_bootstrap_target_unavailable, moriarty_bootstrap_target_invalid,
  moriarty_bootstrap_object_id_invalid, moriarty_bootstrap_read_failed,
  moriarty_bootstrap_hash_mismatch, moriarty_bootstrap_tree_malformed,
  moriarty_bootstrap_path_missing, moriarty_bootstrap_commit_tree_missing,
  moriarty_bootstrap_path_not_tree, moriarty_bootstrap_source_not_regular,
  moriarty_bootstrap_source_unavailable, moriarty_bootstrap_source_mismatch,
}
use qsol_fed.Base.Text.{Text, codes, text_eq, contains}
use qsol_fed.Json.Scan.{after}
use qsol_fed.Sdk.Fields.{require}
use qsol_fed.Moriarty.Shapes.{matches_target}
use qsol_fed.Tree.Objects.{
  Completed, Repository, stdout, hex, decode_ascii, decode_utf8, split_on, first_line,
  git_object_id,
}
use qsol_fed.Tree.Entry.{next_entry}

-- `argument.startswith("--")`
unfoldable pub is_option : Text → Bool
unfolding after
is_option argument = elim (after (codes "--") argument) [ none ↦ false | some _ ↦ true ]

-- The values of `--target-commit` on the command line, in both of its forms.
unfoldable pub target_values : List Text → Result (List Text)
unfolding text_eq is_option after
target_values [] = ok []
target_values (argument ∷ []) =
    if text_eq argument (codes "--target-commit")
    then err moriarty_bootstrap_target_missing
    else elim (after (codes "--target-commit=") argument) [
      | none ↦ ok []
      | some value ↦ ok (value ∷ [])
    ]
target_values (argument ∷ next ∷ arguments) = elim (text_eq argument (codes "--target-commit")) [
  | true ↦ do
    raise_if (is_option next) moriarty_bootstrap_target_missing
    values ← target_values arguments
    ok (next ∷ values)
  | false ↦ do
    values ← target_values (next ∷ arguments)
    elim (after (codes "--target-commit=") argument) [
      | none ↦ ok values
      | some value ↦ ok (value ∷ values)
    ]
]

-- `str.strip` on ASCII
abbrev pub is_ascii_space : ℕ → Bool
is_ascii_space c = (leb 9 c && leb c 13) || (leb 28 c && leb c 32)

unfoldable pub strip_left : Text → Text
strip_left [] = []
strip_left (c ∷ s) = if is_ascii_space c then strip_left s else c ∷ s

unfoldable pub strip_right : Text → Text
strip_right [] = []
strip_right (c ∷ s) = elim (strip_right s) [
  | [] ↦ if is_ascii_space c then [] else c ∷ []
  | d ∷ t ↦ c ∷ d ∷ t
]

-- `arguments` is `sys.argv[1:]`, and `head` the run of `git rev-parse HEAD`
unfoldable pub bootstrap_target : List Text → Completed → Result Text
unfolding target_values stdout decode_ascii strip_left strip_right matches_target
bootstrap_target arguments head = do
  values ← target_values arguments
  target ← elim values [
    | [] ↦ (do
      raise_if (not head.succeeded) moriarty_bootstrap_target_unavailable
      line ← decode_ascii moriarty_bootstrap_target_invalid (stdout head.chunks)
      ok (strip_right (strip_left line)))
    | value ∷ [] ↦ ok value
    | value ∷ other ∷ others ↦ err moriarty_bootstrap_target_duplicate
  ]
  raise_if (not (matches_target target)) moriarty_bootstrap_target_invalid
  ok target

-- The mode and the identifier of the first entry of that name. An entry has a byte, so the length of the
-- payload is enough fuel.
unfoldable pub tree_entry_fuel : ℕ → List ℕ → Text → Result (Text × Text)
unfolding next_entry decode_ascii decode_utf8 hex text_eq
tree_entry_fuel fuel [] wanted = err moriarty_bootstrap_path_missing
tree_entry_fuel zero (b ∷ payload) wanted = err out_of_fuel
tree_entry_fuel (suc fuel) (b ∷ payload) wanted = do
  (entry, rest) ← require (next_entry (b ∷ payload)) (err moriarty_bootstrap_tree_malformed)
  mode ← decode_ascii unicode_decode_error entry.mode
  name ← decode_utf8 unicode_decode_error entry.name
  elim (text_eq name wanted) [
    | true ↦ ok (mode, hex entry.object_id)
    | false ↦ tree_entry_fuel fuel rest wanted
  ]

unfoldable pub bootstrap_tree_entry : List ℕ → Text → Result (Text × Text)
unfolding tree_entry_fuel
bootstrap_tree_entry tree_payload wanted = tree_entry_fuel (length tree_payload) tree_payload wanted

-- `relative.split("/")`
abbrev pub split_path : Text → Text × List Text
split_path relative = split_on b'/' relative

module _ (repository : Repository) where
  unfoldable pub bootstrap_git_object : Text → Text → Result (List ℕ)
  unfolding matches_target stdout git_object_id text_eq
  bootstrap_git_object kind object_id = do
    raise_if (not (matches_target object_id)) moriarty_bootstrap_object_id_invalid
    let completed = repository.cat_file kind object_id
    raise_if (not completed.succeeded) moriarty_bootstrap_read_failed
    let payload = stdout completed.chunks
    raise_if (not (text_eq (git_object_id repository kind payload) object_id))
        moriarty_bootstrap_hash_mismatch
    ok payload

  -- the blob behind the parts of a path, from the tree of that identifier
  unfoldable pub resolve_path : Text → Text → List Text → Result (List ℕ)
  unfolding bootstrap_git_object bootstrap_tree_entry text_eq contains
  resolve_path tree_id part [] = do
    tree_payload ← bootstrap_git_object (codes "tree") tree_id
    (mode, object_id) ← bootstrap_tree_entry tree_payload part
    raise_if (not (contains (codes "100644" ∷ codes "100755" ∷ []) mode))
        moriarty_bootstrap_source_not_regular
    bootstrap_git_object (codes "blob") object_id
  resolve_path tree_id part (next ∷ parts) = do
    tree_payload ← bootstrap_git_object (codes "tree") tree_id
    (mode, object_id) ← bootstrap_tree_entry tree_payload part
    raise_if (not (text_eq mode (codes "40000"))) moriarty_bootstrap_path_not_tree
    resolve_path object_id next parts

  unfoldable pub bootstrap_verified_blob : Text → Text → Result (List ℕ)
  unfolding bootstrap_git_object first_line after decode_ascii split_on resolve_path
  bootstrap_verified_blob target relative = do
    commit_payload ← bootstrap_git_object (codes "commit") target
    tree_bytes ←
        require (after (codes "tree ") (first_line commit_payload))
          (err moriarty_bootstrap_commit_tree_missing)
    tree_id ← decode_ascii unicode_decode_error tree_bytes
    let (part, parts) = split_path relative
    resolve_path tree_id part parts

  -- `_load_verified_source_module` up to the compilation; `actual` is what `read_bytes` returned
  unfoldable pub verified_source : Text → Text → Option (List ℕ) → Result (List ℕ)
  unfolding bootstrap_verified_blob text_eq
  verified_source relative target actual = do
    expected ← bootstrap_verified_blob target relative
    source ← require actual (err moriarty_bootstrap_source_unavailable)
    raise_if (not (text_eq source expected)) moriarty_bootstrap_source_mismatch
    ok expected
