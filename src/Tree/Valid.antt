-- ===== src/Tree/Valid.antt =====
-- The invariant of the traversal of a commit, and how its steps compose.
use qsol_fed.Base.{
  ℕ, ◌+◌, ◌≤◌, ◌≡◌, refl, true, ◌⊎◌, inr, List, [], ◌∷◌, ◌++◌, length, length-append, All, arith,
}
use mathlib.Core.Path.{subst}
use qsol_fed.Base.Result.{ok}
use qsol_fed.Base.Text.{Text, codes, contains}
use qsol_fed.Base.Utf8.{encode}
use qsol_fed.Moriarty.Distinct.{distinct}
use qsol_fed.Tree.Objects.{object_bytes}
use qsol_fed.Tree.Files.{CommitFile, Pending, Walk, start, paths, count_entry, read_metadata}
use qsol_fed.Tree.Paths.{Inside, path_valid}

unfoldable pub total_size : List CommitFile → ℕ
total_size [] = 0
total_size (file ∷ files) = length file.blob + total_size files

abbrev pub ValidPrefix : Text → Type 0
ValidPrefix prefix = (prefix ≡ []) ⊎ (path_valid prefix ≡ true)

abbrev pub ValidPending : Pending → Type 0
ValidPending pending = ValidPrefix pending.prefix

pub record ShortPath (path : Text) : Type 0 where
  pub encoded : List ℕ
  pub encodes : encode path ≡ ok encoded
  pub short : length encoded ≤ 4096

module _ (sha1 : List ℕ → Text) where
  pub record FileValid (file : CommitFile) : Type 0 where
    pub regular : contains (codes "100644" ∷ codes "100755" ∷ []) file.mode ≡ true
    pub identified : sha1 (object_bytes (codes "blob") file.blob) ≡ file.object_id
    pub inside : Inside file.path
    pub short : ShortPath file.path

  pub record FilesValid (files : List CommitFile) : Type 0 where
    pub each : All FileValid files
    pub apart : distinct (paths files) ≡ true
    pub small : total_size files ≤ 67108864
    pub few : length files ≤ 32768

  pub record WalkValid (walk : Walk) : Type 0 where
    pub each : All FileValid walk.files
    pub apart : distinct (paths walk.files) ≡ true
    pub counted : total_size walk.files ≡ walk.total_payload
    pub small : walk.total_payload ≤ 67108864
    pub fewer : length walk.files ≤ walk.entry_count
    pub few : walk.entry_count ≤ 32768

  -- the outcome of a part of the traversal
  pub record Stepped (walk walked : Walk) (children : List Pending) : Type 0 where
    pub valid : WalkValid walked
    pub below : All ValidPending children
    pub grows : walk.entry_count + length children ≤ walked.entry_count

pub All-append :
    {A : Type 0} (P : A → Type 0) (xs ys : List A) → All P xs → All P ys → All P (xs ++ ys)
All-append P [] ys h k = k
All-append P (x ∷ xs) ys h k = (h.0, All-append P xs ys h.1 k)

-- a step to the outcome that was returned
pub step_to :
    {sha1 : List ℕ → Text} {walk : Walk} (walked : Walk) (children : List Pending)
    (out : Walk × List Pending)
    → ◌≡◌ {A = Walk × List Pending} (walked, children) out
    → Stepped sha1 walk walked children
    → Stepped sha1 walk out.0 out.1
step_to {sha1} {walk} walked children out same step =
    subst (λ o. Stepped sha1 walk o.0 o.1) same step

-- a tree below a valid path
pub tree_step :
    {sha1 : List ℕ → Text} (walk : Walk)
    → WalkValid sha1 walk
    → walk.entry_count + 1 ≤ 32768
    → (relative : Text) → path_valid relative ≡ true
    → (object_id : Text) (depth : ℕ)
    → Stepped sha1 walk
        (count_entry walk)
        (record { tree_id = object_id; prefix = relative; depth = depth } ∷ [])
unfolding count_entry
tree_step walk valid room relative inside object_id depth =
    let fewer = valid.fewer in
    record {
      valid = record {
        each = valid.each;
        apart = valid.apart;
        counted = valid.counted;
        small = valid.small;
        fewer = omega arith;
        few = room;
      };
      below = (inr inside, tt);
      grows = omega arith;
    }

-- one part of the traversal after another
pub Stepped-append :
    {sha1 : List ℕ → Text} (walk next last : Walk) (child others : List Pending)
    → Stepped sha1 walk next child
    → Stepped sha1 next last others
    → Stepped sha1 walk last (child ++ others)
Stepped-append walk next last child others one two =
    let first = one.grows in
    let second = two.grows in
    let size = length-append child others in
    record {
      valid = two.valid;
      below = All-append ValidPending child others one.below two.below;
      grows = omega arith;
    }

-- the bytes of a tree are counted
pub read_valid :
    {sha1 : List ℕ → Text} (walk : Walk) (size : ℕ)
    → WalkValid sha1 walk
    → WalkValid sha1 (read_metadata size walk)
unfolding read_metadata
read_valid walk size valid = record {
  each = valid.each;
  apart = valid.apart;
  counted = valid.counted;
  small = valid.small;
  fewer = valid.fewer;
  few = valid.few;
}

pub read_step :
    {sha1 : List ℕ → Text} (walk walked : Walk) (children : List Pending) (size : ℕ)
    → Stepped sha1 (read_metadata size walk) walked children
    → Stepped sha1 walk walked children
unfolding read_metadata
read_step walk walked children size step = record {
  valid = step.valid;
  below = step.below;
  grows = step.grows;
}

pub start_valid : (sha1 : List ℕ → Text) → WalkValid sha1 start
unfolding total_size paths
start_valid sha1 = record {
  each = tt;
  apart = refl;
  counted = refl;
  small = omega arith;
  fewer = omega arith;
  few = omega arith;
}

pub files_valid :
    (sha1 : List ℕ → Text) (walk : Walk) → WalkValid sha1 walk → FilesValid sha1 walk.files
files_valid sha1 walk valid =
    let counted = valid.counted in
    let small = valid.small in
    let fewer = valid.fewer in
    let few = valid.few in
    record { each = valid.each; apart = valid.apart; small = omega arith; few = omega arith }
