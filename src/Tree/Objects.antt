-- ===== src/Tree/Objects.antt =====
-- One object of git: `trusted_capture_bounded`, `_git_object_id` and `_verified_git_object`. Git and
-- SHA-1 are not code of the repository: a `Repository` has what they answer.
use qsol_fed.Base.{
  ℕ, ◌+◌, ◌/◌, ◌%◌, Bool, not, List, [], ◌∷◌, ◌++◌, ltb, length, all, ◌==◌, Option, none, some,
  if◌then◌else◌,
}
use qsol_fed.Base.Result.{
  Error, Result, ok, err, ◌>>=◌, ◌>>◌, raise_if, moriarty_git_object_id_invalid,
  moriarty_git_object_too_large, moriarty_git_object_read_failed, moriarty_git_object_hash_mismatch,
}
use qsol_fed.Base.Text.{Text, text_eq}
use qsol_fed.Base.Utf8.{decode}
use qsol_fed.Platform.{is_ascii}
use qsol_fed.Json.Decimal.{str_nat}
use qsol_fed.Json.Escape.{hex_digit}
use qsol_fed.Moriarty.Shapes.{matches_target}
use qsol_fed.Moriarty.Registry.{Git}

-- what a command wrote, in the chunks in which the pipe hands it out, and whether it exited with 0
pub record Completed : Type 0 where
  pub chunks : List (List ℕ)
  pub succeeded : Bool

-- `hashlib.sha1(b).hexdigest()`, `git cat-file kind object_id`, and the history
pub record Repository : Type 0 where
  pub sha1 : List ℕ → Text
  pub cat_file : Text → Text → Completed
  pub history : Git

-- `chunk = process.stdout.read(...)` until it is empty
unfoldable pub capture : ℕ → Error → List ℕ → List (List ℕ) → Result (List ℕ)
capture limit overflow_error output [] = ok output
capture limit overflow_error output ([] ∷ chunks) = ok output
capture limit overflow_error output ((b ∷ chunk) ∷ chunks) =
    if ltb limit (length output + length (b ∷ chunk))
    then err overflow_error
    else capture limit overflow_error (output ++ (b ∷ chunk)) chunks

unfoldable pub trusted_capture_bounded : ℕ → Error → Error → Completed → Result (List ℕ)
unfolding capture
trusted_capture_bounded limit overflow_error command_error process = do
  output ← capture limit overflow_error [] process.chunks
  raise_if (not process.succeeded) command_error
  ok output

-- `completed.stdout` of `subprocess.run`, all the chunks
unfoldable pub stdout : List (List ℕ) → List ℕ
stdout [] = []
stdout (chunk ∷ chunks) = chunk ++ stdout chunks

-- `b.hex()`
unfoldable pub hex : List ℕ → Text
hex [] = []
hex (b ∷ bytes) = hex_digit (b / 16) ∷ hex_digit (b % 16) ∷ hex bytes

-- `b.decode("ascii", errors="strict")`
unfoldable pub decode_ascii : Error → List ℕ → Result Text
unfolding all
decode_ascii error bytes = if all is_ascii bytes then ok bytes else err error

-- `b.decode("utf-8", errors="strict")`
unfoldable pub decode_utf8 : Error → List ℕ → Result Text
unfolding decode
decode_utf8 error bytes = elim (decode bytes) [ ok s ↦ ok s | err _ ↦ err error ]

-- the bytes before the first `b`, and those after it
unfoldable pub split_byte : ℕ → List ℕ → Option (List ℕ × List ℕ)
split_byte b [] = none
split_byte b (c ∷ bytes) =
    if c == b
    then some ([], bytes)
    else elim (split_byte b bytes) [ none ↦ none | some (before, later) ↦ some (c ∷ before, later) ]

-- `s.split(c)`, which has a first part
unfoldable pub split_on : ℕ → Text → Text × List Text
split_on b [] = ([], [])
split_on b (c ∷ s) =
    let (part, parts) = split_on b s in if c == b then ([], part ∷ parts) else (c ∷ part, parts)

-- `payload.split(b"\n", 1)[0]`
unfoldable pub first_line : List ℕ → List ℕ
unfolding split_byte
first_line payload = elim (split_byte 10 payload) [ none ↦ payload | some (line, later) ↦ line ]

-- `f"{kind} {len(payload)}\0".encode("ascii") + payload`
unfoldable pub object_bytes : Text → List ℕ → List ℕ
unfolding str_nat
object_bytes kind payload = kind ++ (32 ∷ (str_nat (length payload) ++ (0 ∷ payload)))

module _ (repository : Repository) where
  unfoldable pub git_object_id : Text → List ℕ → Text
  unfolding object_bytes
  git_object_id kind payload = repository.sha1 (object_bytes kind payload)

  unfoldable pub verified_git_object : Text → Text → ℕ → Result (List ℕ)
  unfolding matches_target trusted_capture_bounded git_object_id text_eq
  verified_git_object kind object_id limit = do
    raise_if (not (matches_target object_id)) moriarty_git_object_id_invalid
    payload ←
        trusted_capture_bounded limit moriarty_git_object_too_large moriarty_git_object_read_failed
          (repository.cat_file kind object_id)
    raise_if (not (text_eq (git_object_id kind payload) object_id))
        moriarty_git_object_hash_mismatch
    ok payload
