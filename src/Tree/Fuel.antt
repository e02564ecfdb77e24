-- ===== src/Tree/Fuel.antt =====
-- The fuel of the traversal of a commit is enough.
use qsol_fed.Base.{
  ℕ, zero, suc, ◌+◌, ◌-◌, ◌≤◌, ◌<◌, ◌≡◌, ◌≢◌, refl, inl, inr, List, [], ◌∷◌, ◌++◌, ltb, length,
  length-append, all, All, Option, none, some, Option-cases, Bool-cases, drop, arith,
}
use qsol_fed.Base.Result.{Error, ok, err, out_of_fuel, Result-cases}
use qsol_fed.Base.Runs.{Runs, Runs-ok, Runs-err, Runs-if, Runs-bind, Runs-guard}
use qsol_fed.Base.Text.{Text, codes, text_eq, contains}
use qsol_fed.Base.Utf8.{encode, decode, has_surrogate}
use qsol_fed.Platform.{is_ascii}
use qsol_fed.Json.Scan.{after}
use qsol_fed.Sdk.Fields.{require}
use qsol_fed.Tree.Objects.{
  Repository, hex, first_line, capture, trusted_capture_bounded, decode_ascii, decode_utf8,
  verified_git_object, split_byte,
}
use qsol_fed.Tree.Split.{split_byte-parts}
use qsol_fed.Tree.Entry.{Entry, id_bytes, next_entry}
use qsol_fed.Tree.Files.{
  relative_path, count_entry, read_metadata, max_commit_bytes, Pending, Walk, start, root_of,
  walk_blob, walk_mode, walk_entry, walk_entries, walk_tree, walk_trees, verified_commit_files,
  max_git_tree_entries,
}
use qsol_fed.Tree.Valid.{WalkValid, ValidPending, All-append, start_valid}
use qsol_fed.Tree.Bounds.{walk_tree-Stepped}

length-drop : (n : ℕ) (bytes : List ℕ) → length (drop n bytes) ≤ length bytes
length-drop zero bytes = omega arith
length-drop (suc n) [] = omega arith
length-drop (suc n) (b ∷ bytes) = omega (arith, length-drop n bytes)

split_byte-shorter :
    (b : ℕ) (bytes before later : List ℕ)
    → split_byte b bytes ≡ some (before, later)
    → length later < length bytes
split_byte-shorter b bytes before later h =
    let parts = split_byte-parts b bytes before later h in
    let size = length-append before (b ∷ later) in rw parts (omega (arith, size))

-- an entry takes at least one byte
next_entry-shorter :
    (payload rest : List ℕ) (entry : Entry)
    → next_entry payload ≡ some (entry, rest)
    → length rest < length payload
unfolding next_entry
next_entry-shorter payload rest entry h = elim (Option-cases (split_byte 32 payload)) [
  | inl e ↦ (let refused = rw (next_entry, e) at h in cc)
  | inr (([], later), e) ↦ (let refused = rw (next_entry, e) at h in cc)
  | inr ((m ∷ mode, later), e) ↦ elim (Option-cases (split_byte 0 later)) [
    | inl k ↦ (let refused = rw (next_entry, e, k) at h in cc)
    | inr ((name, behind), k) ↦
        (let one = split_byte-shorter 32 payload (m ∷ mode) later e in
          let two = split_byte-shorter 0 later name behind k in
          let three = length-drop id_bytes behind in
          elim (Bool-cases (ltb (length behind) id_bytes)) [
            | inl q ↦ (let refused = rw (next_entry, e, k, q) at h in cc)
            | inr q ↦
                (let same : drop id_bytes behind ≡ rest = taken (rw (next_entry, e, k, q) at h) in
                  rw (← same) (omega arith))
          ])
  ]
]
  where
    taken :
        {a b : Entry} {s t : List ℕ}
        → ◌≡◌ {A = Option (Entry × List ℕ)} (some (a, s)) (some (b, t))
        → s ≡ t
    taken q = cc

Runs-capture :
    (limit : ℕ) (e : Error) (output : List ℕ) (chunks : List (List ℕ))
    → e ≢ out_of_fuel
    → Runs (capture limit e output chunks)
unfolding capture
Runs-capture limit e output [] h = Runs-ok _
Runs-capture limit e output ([] ∷ chunks) h = Runs-ok _
Runs-capture limit e output ((b ∷ chunk) ∷ chunks) h =
    Runs-if (ltb limit (length output + length (b ∷ chunk))) _ _ (Runs-err e h)
      (Runs-capture limit e (output ++ (b ∷ chunk)) chunks h)

Runs-decode_ascii : (e : Error) (bytes : List ℕ) → e ≢ out_of_fuel → Runs (decode_ascii e bytes)
unfolding decode_ascii
Runs-decode_ascii e bytes h = Runs-if (all is_ascii bytes) _ _ (Runs-ok _) (Runs-err e h)

Runs-decode_utf8 : (e : Error) (bytes : List ℕ) → e ≢ out_of_fuel → Runs (decode_utf8 e bytes)
unfolding decode_utf8
Runs-decode_utf8 e bytes h = elim (Result-cases (decode bytes)) [
  | inl (s, k) ↦ rw (decode_utf8, k) (Runs-ok s)
  | inr (raised, k) ↦ rw (decode_utf8, k) (Runs-err e h)
]

Runs-encode : (s : Text) → Runs (encode s)
unfolding encode
Runs-encode s = Runs-if (has_surrogate s) _ _ (Runs-err _ (λ q. cc)) (Runs-ok _)

require-some :
    {A : Type 0} (o : Option A) (e : Error) {a : A} → require o (err e) ≡ ok a → o ≡ some a
require-some none e h = cc
require-some (some a) e h = cc

Runs-require : {A : Type 0} (o : Option A) (e : Error) → e ≢ out_of_fuel → Runs (require o (err e))
Runs-require none e h = Runs-err e h
Runs-require (some a) e h = Runs-ok a

module _ (repository : Repository) where
  Runs-object : (kind id : Text) (limit : ℕ) → Runs (verified_git_object repository kind id limit)
  unfolding verified_git_object trusted_capture_bounded
  Runs-object kind id limit =
      Runs-guard _ _ (λ q. cc)
        (λ _.
          Runs-bind _ _
            (Runs-bind _ _ (Runs-capture limit _ [] (repository.cat_file kind id).chunks (λ q. cc))
              (λ output _. Runs-guard _ _ (λ q. cc) (λ _. Runs-ok output)))
            (λ payload _. Runs-guard _ _ (λ q. cc) (λ _. Runs-ok payload)))

  Runs-blob :
      (relative mode object_id : Text) (walk : Walk)
      → Runs (walk_blob repository relative mode object_id walk)
  unfolding walk_blob
  Runs-blob relative mode object_id walk =
      Runs-guard _ _ (λ q. cc)
        (λ _.
          Runs-bind _ _ (Runs-object (codes "blob") object_id _)
            (λ blob _. Runs-guard _ _ (λ q. cc) (λ _. Runs-ok _)))

  Runs-mode :
      (depth : ℕ) (relative mode object_id : Text) (walk : Walk)
      → Runs (walk_mode repository depth relative mode object_id walk)
  unfolding walk_mode
  Runs-mode depth relative mode object_id walk =
      Runs-if (text_eq mode (codes "40000")) _ _ (Runs-guard _ _ (λ q. cc) (λ _. Runs-ok _)) (
        Runs-if (contains (codes "100644" ∷ codes "100755" ∷ []) mode) _ _
          (Runs-bind _ _ (Runs-blob relative mode object_id walk) (λ walked _. Runs-ok _))
          (Runs-err _ (λ q. cc)))

  Runs-entry :
      (prefix : Text) (depth : ℕ) (entry : Entry) (walk : Walk)
      → Runs (walk_entry repository prefix depth entry walk)
  unfolding walk_entry
  Runs-entry prefix depth entry walk =
      Runs-guard _ _ (λ q. cc)
        (λ _. Runs-bind _ _ (Runs-decode_ascii _ entry.mode (λ q. cc)) (λ mode _.
          Runs-bind _ _ (Runs-decode_utf8 _ entry.name (λ q. cc)) (λ name _.
            Runs-guard _ _ (λ q. cc)
              (λ _. Runs-bind _ _ (Runs-encode (relative_path prefix name)) (λ encoded _.
                Runs-guard _ _ (λ q. cc)
                  (λ _.
                    Runs-guard _ _ (λ q. cc)
                      (λ _.
                        Runs-mode depth (relative_path prefix name) mode (hex entry.object_id)
                          (count_entry walk))))))))

  Runs-entries :
      (fuel : ℕ) (payload : List ℕ) (prefix : Text) (depth : ℕ) (walk : Walk)
      → length payload ≤ fuel
      → Runs (walk_entries repository fuel payload prefix depth walk)
  unfolding walk_entries
  Runs-entries fuel [] prefix depth walk enough = Runs-ok _
  Runs-entries zero (b ∷ payload) prefix depth walk enough = omega arith
  Runs-entries (suc fuel) (b ∷ payload) prefix depth walk enough =
      Runs-bind _ _ (Runs-require (next_entry (b ∷ payload)) _ (λ q. cc)) (λ (entry, rest) found.
        let shorter =
          next_entry-shorter (b ∷ payload) rest entry
            (require-some (next_entry (b ∷ payload)) _ found) in
        Runs-bind _ _ (Runs-entry prefix depth entry walk) (λ (walked, child) _.
          Runs-bind _ _ (Runs-entries fuel rest prefix depth walked (omega arith))
            (λ _ _. Runs-ok _)))

  Runs-tree : (pending : Pending) (walk : Walk) → Runs (walk_tree repository pending walk)
  unfolding walk_tree
  Runs-tree pending walk =
      Runs-guard _ _ (λ q. cc)
        (λ _.
          Runs-guard _ _ (λ q. cc)
            (λ _. Runs-bind _ _ (Runs-object (codes "tree") pending.tree_id _) (λ payload _.
              Runs-guard _ _ (λ q. cc)
                (λ _.
                  Runs-entries (length payload) payload pending.prefix pending.depth
                    (read_metadata (length payload) walk) (omega arith)))))

  -- every tree on the stack, and every entry that can still come, takes one round
  Runs-trees :
      (fuel : ℕ) (stack : List Pending) (walk : Walk)
      → All ValidPending stack
      → WalkValid repository.sha1 walk
      → length stack + (32768 - walk.entry_count) ≤ fuel
      → Runs (walk_trees repository fuel stack walk)
  unfolding walk_trees
  Runs-trees fuel [] walk below valid enough = Runs-ok walk
  Runs-trees zero (pending ∷ stack) walk below valid enough = omega arith
  Runs-trees (suc fuel) (pending ∷ stack) walk below valid enough =
      Runs-bind _ _ (Runs-tree pending walk) (λ (walked, children) walks.
        let step = walk_tree-Stepped repository pending walk walked children walks below.0 valid in
        let grows = step.grows in
        let bounded = step.valid in
        let few = bounded.few in
        let size = length-append children stack in
        Runs-trees fuel (children ++ stack) walked
          (All-append ValidPending children stack step.below below.1) step.valid (omega arith))

  Runs-files : (commit : Text) → Runs (verified_commit_files repository commit)
  unfolding verified_commit_files
  Runs-files commit =
      Runs-guard _ _ (λ q. cc)
        (λ _. Runs-bind _ _ (Runs-object (codes "commit") commit max_commit_bytes) (λ payload _.
          Runs-bind _ _ (Runs-require (after (codes "tree ") (first_line payload)) _ (λ q. cc))
            (λ tree_bytes _.
              Runs-bind _ _ (Runs-decode_ascii _ tree_bytes (λ q. cc)) (λ root_tree _.
                Runs-guard _ _ (λ q. cc)
                  (λ _.
                    Runs-bind _ _
                      (Runs-trees (max_git_tree_entries + 1) (root_of root_tree ∷ []) start
                        (inl refl, tt) (start_valid repository.sha1) (omega arith))
                      (λ walked _. Runs-ok walked.files))))))

  -- The traversal of a commit, with its two loops, ends for every repository and every commit: it never runs
  -- out of its fuel of 32769 trees, and of as many entries as a tree has bytes.
  pub verified_commit_files-ne-out_of_fuel :
      (commit : Text) → verified_commit_files repository commit ≢ err out_of_fuel
  verified_commit_files-ne-out_of_fuel commit = (Runs-files commit).total
