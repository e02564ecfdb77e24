-- ===== src/Base/Utf8.antt =====
-- `str.encode("utf-8")` and `bytes.decode("utf-8")`, both under strict errors.
use Prim.Native.Nat.{ℕ, zero, suc, ◌+◌, ◌-◌, ◌*◌, ◌/◌, ◌%◌}
use mathlib.Core.Path.{◌≡◌, refl}
use mathlib.Core.Bool.{Bool, false, ◌&&◌, ◌||◌}
use mathlib.Core.Option.{Option, none, some}
use mathlib.Core.List.{List, [], ◌∷◌, ◌++◌}
use qsol_fed.Base.Tests.{ltb, leb, if◌then◌else◌}
use qsol_fed.Base.Text.{Text}
use qsol_fed.Base.Result.{Result, ok, err, unicode_encode_error, invalid_utf8, ◌>>=◌}

abbrev pub is_surrogate : ℕ → Bool
is_surrogate c = leb 0xD800 c && leb c 0xDFFF

unfoldable pub has_surrogate : Text → Bool
has_surrogate [] = false
has_surrogate (c ∷ s) = is_surrogate c || has_surrogate s

unfoldable pub encode_char : ℕ → List ℕ
encode_char c =
    if ltb c 0x80
    then c ∷ []
    else if ltb c 0x800
    then (192 + c / 64) ∷ (128 + c % 64) ∷ []
    else if ltb c 0x10000
    then (224 + c / 4096) ∷ (128 + c / 64 % 64) ∷ (128 + c % 64) ∷ []
    else (240 + c / 262144) ∷ (128 + c / 4096 % 64) ∷ (128 + c / 64 % 64) ∷ (128 + c % 64) ∷ []

unfoldable pub encode_chars : Text → List ℕ
unfolding encode_char
encode_chars [] = []
encode_chars (c ∷ s) = encode_char c ++ encode_chars s

-- A lone surrogate raises UnicodeEncodeError.
unfoldable pub encode : Text → Result (List ℕ)
unfolding has_surrogate encode_chars
encode s = if has_surrogate s then err unicode_encode_error else ok (encode_chars s)

-- Between two characters, or with `left + 1` continuation bytes to come: `code` holds the bits so
-- far, and the character may not be below `least`.
pub data Decoding : Type 0 where
  between : Decoding
  inside : (left code least : ℕ) → Decoding

unfoldable pub finish_char : ℕ → ℕ → Option (Decoding × Text)
finish_char code least =
    if ltb code least || is_surrogate code || ltb 0x10FFFF code
    then none
    else some (between, code ∷ [])

unfoldable pub decode_byte : Decoding → ℕ → Option (Decoding × Text)
unfolding finish_char
decode_byte between b =
    if ltb b 0x80
    then some (between, b ∷ [])
    else if leb 0xC2 b && leb b 0xDF
    then some (inside 0 (b - 192) 0x80, [])
    else if leb 0xE0 b && leb b 0xEF
    then some (inside 1 (b - 224) 0x800, [])
    else if leb 0xF0 b && leb b 0xF4
    then some (inside 2 (b - 240) 0x10000, [])
    else none
decode_byte (inside zero code least) b =
    if leb 0x80 b && leb b 0xBF then finish_char (code * 64 + (b - 128)) least else none
decode_byte (inside (suc left) code least) b =
    if leb 0x80 b && leb b 0xBF then some (inside left (code * 64 + (b - 128)) least, []) else none

unfoldable pub decode_from : Decoding → List ℕ → Result Text
unfolding decode_byte
decode_from between [] = ok []
decode_from (inside _ _ _) [] = err invalid_utf8
decode_from st (b ∷ bs) = elim (decode_byte st b) [
  | none ↦ err invalid_utf8
  | some (st', out) ↦ decode_from st' bs >>= λ rest. ok (out ++ rest)
]

unfoldable pub decode : List ℕ → Result Text
unfolding decode_from
decode bs = decode_from between bs

euro : (encode (0x20AC ∷ 0x1F600 ∷ [])) ≡ ok (0xE2 ∷ 0x82 ∷ 0xAC ∷ 0xF0 ∷ 0x9F ∷ 0x98 ∷ 0x80 ∷ [])
unfolding encode ◌>>=◌
euro = refl
