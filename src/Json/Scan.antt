-- ===== src/Json/Scan.antt =====
-- The lexical part of `json.loads`: whitespace, string literals and numbers.
use qsol_fed.Base.{
  ℕ, zero, suc, ◌+◌, ◌-◌, ◌*◌, Bool, true, false, ◌&&◌, ◌||◌, [], ◌∷◌, ◌++◌, ltb, leb, ◌==◌,
  if◌then◌else◌, length, Option, none, some, ◌≡◌, refl,
}
use qsol_fed.Base.Result.{
  Result, ok, err, ◌>>=◌, malformed_json, non_integer_number, int_digits_error,
}
use qsol_fed.Base.Int.{ℤ, pos, negsuc}
use qsol_fed.Base.Text.{Text, codes}
use qsol_fed.Json.Decimal.{is_digit, digits_value}

-- `[ \t\n\r]*`
unfoldable pub skip_space : Text → Text
skip_space [] = []
skip_space (c ∷ s) =
    let rest = skip_space s in if c == 32 || c == 9 || c == 10 || c == 13 then rest else c ∷ s

-- Inside a string literal: plainly, behind a backslash, or with `left + 1` hexadecimal digits to
-- come.
pub data Mode : Type 0 where
  plain escaped : Mode
  hex : (left code : ℕ) → Mode

pub data Move : Type 0 where
  stop fail : Move
  go : Mode → Text → Move

abbrev pub hex_value : ℕ → Option ℕ
hex_value c =
    if is_digit c
    then some (c - b'0')
    else if leb b'a' c && leb c b'f'
    then some (c - b'a' + 10)
    else if leb b'A' c && leb c b'F'
    then some (c - b'A' + 10)
    else none

-- A bare control character is refused (`strict`).
unfoldable pub string_move : Mode → ℕ → Move
string_move plain c =
    if c == b'"'
    then stop
    else if c == 92
    then go escaped []
    else if ltb c 0x20
    then fail
    else go plain (c ∷ [])
string_move escaped c =
    if c == b'"' || c == 92 || c == b'/'
    then go plain (c ∷ [])
    else if c == b'b'
    then go plain (8 ∷ [])
    else if c == b'f'
    then go plain (12 ∷ [])
    else if c == b'n'
    then go plain (10 ∷ [])
    else if c == b'r'
    then go plain (13 ∷ [])
    else if c == b't'
    then go plain (9 ∷ [])
    else if c == b'u'
    then go (hex 3 0) []
    else fail
string_move (hex zero code) c = elim (hex_value c) [
  | none ↦ fail
  | some d ↦ go plain ((code * 16 + d) ∷ [])
]
string_move (hex (suc left) code) c = elim (hex_value c) [
  | none ↦ fail
  | some d ↦ go (hex left (code * 16 + d)) []
]

-- From behind the opening quote: the characters, and what follows the closing quote.
unfoldable pub scan_chars : Mode → Text → Result (Text × Text)
unfolding string_move
scan_chars mode [] = err malformed_json
scan_chars mode (c ∷ s) = elim (string_move mode c) [
  | stop ↦ ok ([], s)
  | fail ↦ err malformed_json
  | go mode' out ↦ scan_chars mode' s >>= λ (t, rest). ok (out ++ t, rest)
]

abbrev pub is_high : ℕ → Bool
is_high c = leb 0xD800 c && leb c 0xDBFF

abbrev pub is_low : ℕ → Bool
is_low c = leb 0xDC00 c && leb c 0xDFFF

-- Two escapes that form a surrogate pair are one character. (A surrogate comes only from an escape:
-- the text was encoded before.)
unfoldable pub join_surrogates : Text → Text
join_surrogates [] = []
join_surrogates (c ∷ []) = c ∷ []
join_surrogates (c ∷ d ∷ s) = elim (is_high c && is_low d) [
  | true ↦ (0x10000 + (c - 0xD800) * 1024 + (d - 0xDC00)) ∷ join_surrogates s
  | false ↦ c ∷ join_surrogates (d ∷ s)
]

unfoldable pub scan_string : Text → Result (Text × Text)
unfolding scan_chars join_surrogates
scan_string s = scan_chars plain s >>= λ (t, rest). ok (join_surrogates t, rest)

-- `[0-9]*`
unfoldable pub span_digits : Text → Text × Text
span_digits [] = ([], [])
span_digits (c ∷ s) =
    let (t, rest) = span_digits s in if is_digit c then (c ∷ t, rest) else ([], c ∷ s)

abbrev pub starts_digit : Text → Bool
starts_digit [] = false
starts_digit (c ∷ s) = is_digit c

abbrev pub skip_sign : Text → Text
skip_sign [] = []
skip_sign (c ∷ s) = if c == b'+' || c == b'-' then s else c ∷ s

-- `(\.[0-9]+)?([eE][-+]?[0-9]+)?` matches something
unfoldable pub float_part : Text → Bool
float_part [] = false
float_part (c ∷ s) =
    (c == b'.' && starts_digit s) || ((c == b'e' || c == b'E') && starts_digit (skip_sign s))

abbrev pub max_str_digits : ℕ
max_str_digits = 4300

abbrev pub to_int : Bool → ℕ → ℤ
to_int false n = pos n
to_int true zero = pos 0
to_int true (suc n) = negsuc n

-- `parse_float` raises; `int` raises on more than `max_str_digits` digits.
unfoldable pub finish_number : Bool → Text → Text → Result (ℤ × Text)
unfolding float_part digits_value
finish_number negative number rest =
    if float_part rest
    then err non_integer_number
    else if ltb max_str_digits (length number)
    then err int_digits_error
    else ok (to_int negative (digits_value 0 number), rest)

-- `0|[1-9][0-9]*`
unfoldable pub scan_digits : Bool → Text → Result (ℤ × Text)
unfolding span_digits finish_number
scan_digits negative [] = err malformed_json
scan_digits negative (c ∷ s) =
    if c == b'0'
    then finish_number negative (c ∷ []) s
    else if is_digit c
    then (let (t, rest) = span_digits s in finish_number negative (c ∷ t) rest)
    else err malformed_json

-- `prefix` at the head of the text: what follows it
unfoldable pub after : Text → Text → Option Text
after [] s = some s
after (c ∷ w) [] = none
after (c ∷ w) (d ∷ s) = let rest = after w s in if c == d then rest else none

surrogate_pair :
    scan_string (codes "a\\ud83d\\ude00\\n\"x") ≡ ok (b'a' ∷ 0x1F600 ∷ 10 ∷ [], codes "x")
unfolding scan_string ◌>>=◌
surrogate_pair = refl
