-- ===== src/Sdk/Patterns.antt =====
-- sdk/python/qsol_fed_sdk.py, the four patterns and the tests by `fullmatch`.
use qsol_fed.Base.{
  ℕ, Bool, true, false, ◌&&◌, ◌||◌, [], ◌∷◌, ◌==◌, leb, all, length, some, none, if◌then◌else◌, ◌≡◌,
  refl,
}
use qsol_fed.Base.Text.{Text, codes}
use qsol_fed.Json.{Value, str}
use qsol_fed.Json.Decimal.{is_digit}
use qsol_fed.Json.Scan.{after}
use qsol_fed.Platform.{is_hex_char}

abbrev pub is_lower : ℕ → Bool
is_lower c = leb b'a' c && leb c b'z'

-- `[a-z0-9]`
abbrev pub is_alnum : ℕ → Bool
is_alnum c = is_lower c || is_digit c

-- `[a-z0-9._-]`
abbrev pub is_node_char : ℕ → Bool
is_node_char c = is_alnum c || c == b'.' || c == b'_' || c == b'-'

-- `^fed:qsol:[a-z0-9][a-z0-9._-]{0,127}$`
unfoldable pub node_name : Text → Bool
node_name [] = false
node_name (c ∷ s) = is_alnum c && all is_node_char s && leb (length s) 127

unfoldable pub matches_node_id : Text → Bool
unfolding node_name after
matches_node_id s = elim (after (codes "fed:qsol:") s) [ none ↦ false | some name ↦ node_name name ]

-- `^sha256:[0-9a-f]{64}$`
unfoldable pub matches_sha256_ref : Text → Bool
unfolding after
matches_sha256_ref s = elim (after (codes "sha256:") s) [
  | none ↦ false
  | some digest ↦ all is_hex_char digest && length digest == 64
]

-- `^[0-9]{4}-[0-9]{2}-[0-9]{2}T[0-9]{2}:[0-9]{2}:[0-9]{2}Z$`: a digit for each `0` of the template
unfoldable pub matches_template : Text → Text → Bool
matches_template [] [] = true
matches_template (c ∷ template) (d ∷ s) =
    (if c == b'0' then is_digit d else c == d) && matches_template template s
matches_template _ _ = false

unfoldable pub matches_timestamp : Text → Bool
unfolding matches_template
matches_timestamp s = matches_template (codes "0000-00-00T00:00:00Z") s

-- `^[a-z][a-z0-9]*(?:[.-][a-z0-9]+)*/[1-9][0-9]*$`, by the place reached in the pattern
pub data Place : Type 0 where
  start name separator slash version dead : Place

unfoldable pub next_place : Place → ℕ → Place
next_place start c = if is_lower c then name else dead
next_place name c =
    if is_alnum c
    then name
    else if c == b'.' || c == b'-'
    then separator
    else if c == b'/'
    then slash
    else dead
next_place separator c = if is_alnum c then name else dead
next_place slash c = if leb b'1' c && leb c b'9' then version else dead
next_place version c = if is_digit c then version else dead
next_place dead c = dead

unfoldable pub accepts : Place → Text → Bool
unfolding next_place
accepts version [] = true
accepts _ [] = false
accepts place (c ∷ s) = accepts (next_place place c) s

unfoldable pub matches_capability : Text → Bool
unfolding accepts
matches_capability s = accepts start s

-- `isinstance(value, str) and …`
abbrev pub is_text_that : (Text → Bool) → Value → Bool
is_text_that test (str s) = test s
is_text_that test _ = false

unfoldable pub validate_capability_id : Value → Bool
unfolding matches_capability
validate_capability_id v = is_text_that matches_capability v

unfoldable pub is_node_id : Value → Bool
unfolding matches_node_id
is_node_id v = is_text_that matches_node_id v

unfoldable pub is_sha256_ref : Value → Bool
unfolding matches_sha256_ref
is_sha256_ref v = is_text_that matches_sha256_ref v

unfoldable pub is_timestamp : Value → Bool
unfolding matches_timestamp
is_timestamp v = is_text_that matches_timestamp v

patterns_examples :
    (matches_node_id (codes "fed:qsol:neutral-lab-01") ≡ true)
    × (matches_node_id (codes "fed:qsol:-x") ≡ false)
    × (matches_timestamp (codes "2026-08-23T00:00:00Z") ≡ true)
    × (matches_timestamp (codes "2026-08-23T00:00:00") ≡ false)
    × (matches_capability (codes "evidence.exchange/1") ≡ true)
    × (matches_capability (codes "evidence..exchange/1") ≡ false)
    × (matches_capability (codes "a/01") ≡ false)
unfolding matches_node_id matches_timestamp matches_capability all
patterns_examples = (refl, refl, refl, refl, refl, refl, refl)
