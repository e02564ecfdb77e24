-- ===== src/Json/Loads.antt =====
-- `json.loads` as the program calls it: objects come as pair lists (`object_pairs_hook`), floats
-- raise (`parse_float`) and so do `NaN`, `Infinity` and `-Infinity` (`parse_constant`). Every
-- call takes fuel; the recursion limit of the interpreter is not modelled.
use qsol_fed.Base.{
  ℕ, zero, suc, ◌+◌, ◌*◌, Bool, true, false, [], ◌∷◌, ◌==◌, if◌then◌else◌, length, none, some, ◌≡◌,
  refl,
}
use qsol_fed.Base.Result.{
  Result, ok, err, ◌>>=◌, malformed_json, non_finite_number, out_of_fuel, non_integer_number,
}
use qsol_fed.Base.Int.{pos, negsuc}
use qsol_fed.Base.Text.{Text, codes}
use qsol_fed.Json.{Value, Items, Fields, null, bool, int, str, arr, pairs, nil, cons, end, field}
use qsol_fed.Json.Scan.{skip_space, scan_string, scan_digits, after}

abbrev pub Scanned : Type 0 → Type 0
Scanned A = Result (A × Text)

-- A literal, if the text begins with it.
abbrev pub literal : Text → Value → Text → Scanned Value → Scanned Value
literal word value s other = elim (after word s) [ some rest ↦ ok (value, rest) | none ↦ other ]

abbrev pub constant : Text → Text → Scanned Value → Scanned Value
constant word s other = elim (after word s) [ some rest ↦ err non_finite_number | none ↦ other ]

abbrev pub number : Bool → Text → Scanned Value
number negative s = scan_digits negative s >>= λ (n, rest). ok (int n, rest)

-- A value that begins with none of `"`, `{` and `[`.
unfoldable pub scan_atom : ℕ → Text → Scanned Value
unfolding scan_digits after
scan_atom c s =
    if c == b'n'
    then literal (codes "ull") null s (err malformed_json)
    else if c == b't'
    then literal (codes "rue") (bool true) s (err malformed_json)
    else if c == b'f'
    then literal (codes "alse") (bool false) s (err malformed_json)
    else if c == b'N'
    then constant (codes "aN") s (err malformed_json)
    else if c == b'I'
    then constant (codes "nfinity") s (err malformed_json)
    else if c == b'-'
    then constant (codes "Infinity") s (number true s)
    else number false (c ∷ s)

-- The text behind `c`, or a syntax error.
unfoldable pub expect : ℕ → Text → Result Text
expect c [] = err malformed_json
expect c (d ∷ s) = if d == c then ok s else err malformed_json

-- The first character, if there is one, decides.
abbrev pub on_head {ℓ} : {A : Type ℓ} → Text → (ℕ → Text → Result A) → Result A
on_head [] k = err malformed_json
on_head (c ∷ s) k = k c s

unfoldable mutual
  unfolding skip_space scan_string scan_atom expect

  pub scan_value : ℕ → Text → Scanned Value
  scan_value zero s = err out_of_fuel
  scan_value (suc f) s = on_head s λ c rest.
      let text = scan_string rest >>= λ (t, more). ok (str t, more) in
      let object = scan_object f (skip_space rest) >>= λ (fs, more). ok (pairs fs, more) in
      let array = scan_array f (skip_space rest) >>= λ (xs, more). ok (arr xs, more) in
      if c == b'"'
      then text
      else if c == b'{'
      then object
      else if c == b'['
      then array
      else scan_atom c rest

  -- behind `[` and whitespace
  pub scan_array : ℕ → Text → Scanned Items
  scan_array zero s = err out_of_fuel
  scan_array (suc f) s =
      let items = scan_items f s in on_head s λ c rest. if c == b']' then ok (nil, rest) else items

  -- one item and what follows it
  pub scan_items : ℕ → Text → Scanned Items
  scan_items zero s = err out_of_fuel
  scan_items (suc f) s = scan_value f s >>= λ (v, more). on_head (skip_space more) λ c rest.
      let others = scan_items f (skip_space rest) >>= λ (xs, tail). ok (cons v xs, tail) in
      if c == b',' then others else if c == b']' then ok (cons v nil, rest) else err malformed_json

  -- behind `{` and whitespace
  pub scan_object : ℕ → Text → Scanned Fields
  scan_object zero s = err out_of_fuel
  scan_object (suc f) s =
      let members = scan_members f s in
      on_head s λ c rest. if c == b'}' then ok (end, rest) else members

  -- one pair and what follows it
  pub scan_members : ℕ → Text → Scanned Fields
  scan_members zero s = err out_of_fuel
  scan_members (suc f) s = expect b'"' s >>= λ quoted. scan_string quoted >>= λ (k, behind_key).
      expect b':' (skip_space behind_key) >>= λ behind_colon.
      scan_value f (skip_space behind_colon) >>= λ (v, more). on_head (skip_space more) λ c rest.
        let others = scan_members f (skip_space rest) >>= λ (fs, tail). ok (field k v fs, tail) in
        if c == b','
        then others
        else if c == b'}'
        then ok (field k v end, rest)
        else err malformed_json

-- Nothing but whitespace may follow the value. A text that begins with U+FEFF is refused as
-- malformed: no value begins with it.
unfoldable pub loads : Text → Result Value
unfolding scan_value
loads s = scan_value (3 * length s + 1) (skip_space s) >>= λ (v, rest). elim (skip_space rest) [
  | [] ↦ ok v
  | c ∷ more ↦ err malformed_json
]

loads_object :
    loads (codes " {\"a\" : [1, -20,null ] , \"b\":\"\" , \"a\": {}} ")
    ≡ ok (
        pairs (
          field
            (codes "a")
            (arr (cons (int (pos 1)) (cons (int (negsuc 19)) (cons null nil))))
            (field (codes "b") (str []) (field (codes "a") (pairs end) end))))
unfolding loads ◌>>=◌
loads_object = refl

loads_errors :
    (loads (codes "[1,]") ≡ err malformed_json)
    × (loads (codes "[1.5") ≡ err non_integer_number)
    × (loads (codes "-Infinity") ≡ err non_finite_number)
    × (loads (codes "1 2") ≡ err malformed_json)
    × (loads (codes "01") ≡ err malformed_json)
unfolding loads ◌>>=◌
loads_errors = (refl, refl, refl, refl, refl)
