-- ===== src/Tree/Paths.antt =====
-- The parts of the paths that the traversal builds.
use qsol_fed.Base.{
  ◌≡◌, ◌≢◌, All, refl, Bool, true, false, ◌&&◌, ◌==◌, ◌⊎◌, inl, inr, List, [], ◌∷◌, ◌++◌, all,
  Bool-cases, &&-eq-true, ||-eq-false, arith,
}
use qsol_fed.Base.Text.{Text, codes, contains, text_eq}
use qsol_fed.Tree.Objects.{split_on}
use qsol_fed.Tree.Files.{has_char, name_valid, relative_path}
use qsol_fed.Tree.Bootstrap.{split_path}

-- no part between the slashes is empty, `.` or `..`, or has a backslash
unfoldable pub path_valid : Text → Bool
path_valid path = name_valid (split_path path).0 && all name_valid (split_path path).1

-- a name without a slash is one part
split_path-name : (name : Text) → has_char b'/' name ≡ false → split_path name ≡ (name, [])
unfolding split_on has_char
split_path-name [] h = refl
split_path-name (c ∷ name) h =
    let (first, others) = ||-eq-false (b'/' == c) (has_char b'/' name) h in
    let plain : (c == b'/') ≡ false = ground arith in rw (split_path-name name others, plain)

-- a name behind a slash is one more part
split_path-join :
    (prefix name : Text)
    → has_char b'/' name ≡ false
    → split_path (prefix ++ (b'/' ∷ name))
      ≡ ((split_path prefix).0, (split_path prefix).1 ++ (name ∷ []))
unfolding split_on
split_path-join [] name h = rw (split_path-name name h)
split_path-join (c ∷ prefix) name h = elim (Bool-cases (c == b'/')) [
  | inl e ↦ rw (split_path-join prefix name h, e)
  | inr e ↦ rw (split_path-join prefix name h, e)
]

all-snoc :
    (test : Text → Bool) (names : List Text) (name : Text)
    → all test names ≡ true
    → test name ≡ true
    → all test (names ++ (name ∷ [])) ≡ true
unfolding all
all-snoc test [] name h k = ground arith
all-snoc test (n ∷ names) name h k =
    let (first, others) = &&-eq-true (test n) (all test names) h in
    let later = all-snoc test names name others k in ground arith

name_valid-plain : (name : Text) → name_valid name ≡ true → has_char b'/' name ≡ false
unfolding name_valid
name_valid-plain name h = ground arith

-- a valid name below the root or below a valid path is a valid path
pub relative_path-valid :
    (prefix name : Text)
    → (prefix ≡ []) ⊎ (path_valid prefix ≡ true)
    → name_valid name ≡ true
    → path_valid (relative_path prefix name) ≡ true
unfolding path_valid relative_path
relative_path-valid [] name h k =
    rw (split_path-name name (name_valid-plain name k), k) (unfold all in refl)
relative_path-valid (c ∷ prefix) name (inl empty) k = cc
relative_path-valid (c ∷ prefix) name (inr valid) k =
    let (first, others) =
      &&-eq-true (name_valid (split_path (c ∷ prefix)).0)
        (all name_valid (split_path (c ∷ prefix)).1) valid in
    rw (
      split_path-join (c ∷ prefix) name (name_valid-plain name k),
      first,
      all-snoc name_valid (split_path (c ∷ prefix)).1 name others k,
    )

-- a part that names something below the directory it stands in
pub record PartSafe (part : Text) : Type 0 where
  pub nonempty : part ≢ []
  pub not_dot : part ≢ codes "."
  pub not_dot_dot : part ≢ codes ".."
  pub no_backslash : has_char 92 part ≡ false

name_valid-PartSafe : (name : Text) → name_valid name ≡ true → PartSafe name
unfolding name_valid contains text_eq has_char
name_valid-PartSafe name h = record {
  nonempty = λ same. (let clash = rw same at h in cc);
  not_dot = λ same. (let clash = rw same at h in cc);
  not_dot_dot = λ same. (let clash = rw same at h in cc);
  no_backslash = ground arith;
}

-- every part between the slashes is safe
abbrev pub Inside : Text → Type 0
Inside path = All PartSafe ((split_path path).0 ∷ (split_path path).1)

all-PartSafe : (names : List Text) → all name_valid names ≡ true → All PartSafe names
unfolding all
all-PartSafe [] h = tt
all-PartSafe (name ∷ names) h =
    let (first, others) = &&-eq-true (name_valid name) (all name_valid names) h in
    (name_valid-PartSafe name first, all-PartSafe names others)

pub path_valid-Inside : (path : Text) → path_valid path ≡ true → Inside path
unfolding path_valid
path_valid-Inside path h =
    let (first, others) =
      &&-eq-true (name_valid (split_path path).0) (all name_valid (split_path path).1) h in
    (name_valid-PartSafe (split_path path).0 first, all-PartSafe (split_path path).1 others)
