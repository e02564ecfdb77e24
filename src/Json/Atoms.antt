-- ===== src/Json/Atoms.antt =====
-- What may stand around a value's text, and the reading of integers and texts.
use qsol_fed.Base.{
  ℕ, suc, ◌^◌, ◌-◌, ◌≡◌, refl, ◌∙◌, Bool, true, false, ◌||◌, [], ◌∷◌, ◌++◌, ◌==◌, ltb, arith,
}
use mathlib.Core.List.{append_assoc}
use qsol_fed.Base.Result.{Result, ok, ◌>>=◌}
use qsol_fed.Base.Int.{ℤ, pos, negsuc, Within}
use qsol_fed.Base.Text.{Text}
use qsol_fed.Base.Utf8.{has_surrogate}
use qsol_fed.Json.{Value, null, bool, int, str, arr, dict, pairs, other}
use qsol_fed.Json.Decimal.{is_digit, str_int}
use qsol_fed.Json.Escape.{escape_chars}
use qsol_fed.Json.Strings.{scan_string-escape_chars}
use qsol_fed.Json.Numbers.{EndsNumber, scan_digits-str_nat, str_nat-head}
use qsol_fed.Json.Print.{print, Plain}
use qsol_fed.Json.Scan.{skip_space, scan_string, scan_digits, float_part}
use qsol_fed.Json.Steps.{scan_atom-minus, after-none, scan_value-atom}
use qsol_fed.Json.Loads.{scan_atom, scan_value}

-- What may follow a value: no whitespace, and nothing that continues a number.
pub record Ends (rest : Text) : Type 0 where
  pub no_space : skip_space rest ≡ rest
  pub number : EndsNumber rest

-- The first character of a value's text.
pub record Opens (t : Text) : Type 0 where
  pub first : ℕ
  pub more : Text
  pub split : t ≡ first ∷ more
  pub no_space : (first == 32 || first == 9 || first == 10 || first == 13) ≡ false
  pub no_close : (first == b']') ≡ false
  pub ascii : ltb first 0x80 ≡ true

pub skip_space-Opens : (t s : Text) → Opens t → skip_space (t ++ s) ≡ t ++ s
unfolding skip_space
skip_space-Opens t s o = rw o.split (rw (o.no_space, skip_space))

pub Opens-cons :
    (c : ℕ) (s : Text)
    → (c == 32 || c == 9 || c == 10 || c == 13) ≡ false
    → (c == b']') ≡ false
    → ltb c 0x80 ≡ true
    → Opens (c ∷ s)
Opens-cons c s h k l = record {
  first = c;
  more = s;
  split = refl;
  no_space = h;
  no_close = k;
  ascii = l;
}

-- a digit is none of the characters that decide otherwise
pub record OnlyDigit (c : ℕ) : Type 0 where
  pub quote : (c == b'"') ≡ false
  pub brace : (c == b'{') ≡ false
  pub bracket : (c == b'[') ≡ false
  pub n : (c == b'n') ≡ false
  pub t : (c == b't') ≡ false
  pub f : (c == b'f') ≡ false
  pub nan : (c == b'N') ≡ false
  pub inf : (c == b'I') ≡ false
  pub inf' : (b'I' == c) ≡ false
  pub minus : (c == b'-') ≡ false
  pub no_space : (c == 32 || c == 9 || c == 10 || c == 13) ≡ false
  pub no_close : (c == b']') ≡ false
  pub ascii : ltb c 0x80 ≡ true

pub digit-OnlyDigit : (c : ℕ) → is_digit c ≡ true → OnlyDigit c
digit-OnlyDigit c h = record {
  quote = ground arith;
  brace = ground arith;
  bracket = ground arith;
  n = ground arith;
  t = ground arith;
  f = ground arith;
  nan = ground arith;
  inf = ground arith;
  inf' = ground arith;
  minus = ground arith;
  no_space = ground arith;
  no_close = ground arith;
  ascii = ground arith;
}

pub Opens-str_int : (n : ℤ) → Opens (str_int n)
unfolding str_int
Opens-str_int (pos n) =
    let (c, s, e, d) = str_nat-head n in
    let o = digit-OnlyDigit c d in
    record {
      first = c;
      more = s;
      split = e;
      no_space = o.no_space;
      no_close = o.no_close;
      ascii = o.ascii;
    }
Opens-str_int (negsuc n) = Opens-cons _ _ refl refl refl

abbrev pub read_int : Bool → Text → Result (Value × Text)
read_int negative s = scan_digits negative s >>= λ (n, rest). ok (int n, rest)

pub scan_value-digit :
    (f c : ℕ) (s : Text) → is_digit c ≡ true → scan_value (suc f) (c ∷ s) ≡ read_int false (c ∷ s)
scan_value-digit f c s h =
    let o = digit-OnlyDigit c h in
    scan_value-atom f s c o.quote o.brace o.bracket
    ∙ (unfold scan_atom in rw (o.n, o.t, o.f, o.nan, o.inf, o.minus))

pub scan_value-minus :
    (f c : ℕ) (s : Text)
    → is_digit c ≡ true
    → scan_value (suc f) (b'-' ∷ (c ∷ s)) ≡ read_int true (c ∷ s)
scan_value-minus f c s h =
    scan_value-atom f (c ∷ s) b'-' refl refl refl
    ∙ scan_atom-minus (c ∷ s) (after-none b'I' c _ s ((digit-OnlyDigit c h).inf'))

pub scan_value-str_int :
    (n : ℤ)
    → Within (10 ^ 16 - 1) n
    → (f : ℕ) (rest : Text) → EndsNumber rest
    → scan_value (suc f) (str_int n ++ rest) ≡ ok (int n, rest)
unfolding str_int
scan_value-str_int (pos n) h f rest ends =
    let (c, s, e, d) = str_nat-head n in
    let read : scan_digits false ((c ∷ s) ++ rest) ≡ ok (pos n, rest) =
      rw e at (scan_digits-str_nat false rest ends n (omega arith)) in
    rw e (scan_value-digit f c (s ++ rest) d ∙ rw read (unfold ◌>>=◌ in refl))
scan_value-str_int (negsuc n) h f rest ends =
    let (c, s, e, d) = str_nat-head (suc n) in
    let read : scan_digits true ((c ∷ s) ++ rest) ≡ ok (negsuc n, rest) =
      rw e at (scan_digits-str_nat true rest ends (suc n) (omega arith)) in
    rw e (scan_value-minus f c (s ++ rest) d ∙ rw read (unfold ◌>>=◌ in refl))

pub Opens-print : (v : Value) → Plain v → Opens (print v)
unfolding print Plain
Opens-print null h = Opens-cons _ _ refl refl refl
Opens-print (bool true) h = Opens-cons _ _ refl refl refl
Opens-print (bool false) h = Opens-cons _ _ refl refl refl
Opens-print (int n) h = Opens-str_int n
Opens-print (str s) h = Opens-cons _ _ refl refl refl
Opens-print (arr xs) h = Opens-cons _ _ refl refl refl
Opens-print (dict fs) h = Opens-cons _ _ refl refl refl
Opens-print (pairs fs) h = absurd h
Opens-print other h = absurd h

pub Ends-comma : (s : Text) → Ends (b',' ∷ s)
unfolding skip_space float_part
Ends-comma s = record { no_space = refl; number = record { no_digit = refl; no_float = refl } }

pub Ends-bracket : (s : Text) → Ends (b']' ∷ s)
unfolding skip_space float_part
Ends-bracket s = record { no_space = refl; number = record { no_digit = refl; no_float = refl } }

pub Ends-brace : (s : Text) → Ends (b'}' ∷ s)
unfolding skip_space float_part
Ends-brace s = record { no_space = refl; number = record { no_digit = refl; no_float = refl } }

pub Ends-nil : Ends []
unfolding skip_space float_part
Ends-nil = record { no_space = refl; number = record { no_digit = refl; no_float = refl } }

-- A quoted text at the head of the input.
pub scan_string-quote :
    (s rest : Text)
    → has_surrogate s ≡ false
    → scan_string ((escape_chars s ++ b'"' ∷ []) ++ rest) ≡ ok (s, rest)
scan_string-quote s rest h = rw append_assoc (scan_string-escape_chars s rest h)
