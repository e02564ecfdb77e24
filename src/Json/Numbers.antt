-- ===== src/Json/Numbers.antt =====
-- A decimal number scans back to its value.
use qsol_fed.Base.{
  ℕ, zero, suc, ◌+◌, ◌-◌, ◌*◌, ◌/◌, ◌%◌, ◌^◌, ◌≤◌, ◌<◌, ◌≡◌, refl, ap, Bool, true, false, [], ◌∷◌,
  ◌++◌, arith, inl, inr, ◌==◌, ltb, ltb→lt, ltb-false→le, le→ltb-false, Bool-cases, length,
  length-append, ◌∙◌, all, &&-eq-true,
}
use native.Mathlib.Nat.{pow-suc}
use mathlib.Core.Path.{subst}
use qsol_fed.Base.Result.{ok}
use qsol_fed.Base.Text.{Text}
use qsol_fed.Json.Decimal.{is_digit, digits, str_nat, digits_value}
use qsol_fed.Json.Scan.{
  span_digits, starts_digit, float_part, finish_number, scan_digits, max_str_digits, to_int,
}

-- Nothing that continues a number.
pub record EndsNumber (rest : Text) : Type 0 where
  pub no_digit : starts_digit rest ≡ false
  pub no_float : float_part rest ≡ false

digits_value-append :
    (acc : ℕ) (s t : Text) → digits_value acc (s ++ t) ≡ digits_value (digits_value acc s) t
unfolding digits_value
digits_value-append acc [] t = refl
digits_value-append acc (c ∷ s) t = digits_value-append (acc * 10 + (c - b'0')) s t

-- What `digits` prints: only digits, of this value, few of them, and no leading zero.
record Prints (n : ℕ) (t : Text) : Type 0 where
  digit : all is_digit t ≡ true
  value : digits_value 0 t ≡ n
  short : (k : ℕ) → n < 10 ^ suc k → length t ≤ suc k

all-append :
    (s t : Text) → all is_digit s ≡ true → all is_digit t ≡ true → all is_digit (s ++ t) ≡ true
unfolding all
all-append [] t h k = k
all-append (c ∷ s) t h k = ground (arith, all-append s t)

div-lt-pow : (n k : ℕ) → n < 10 ^ suc k → n / 10 < 10 ^ k
div-lt-pow n k h = let e : 10 ^ suc k ≡ 10 ^ k * 10 = pow-suc 10 k in omega (arith, e)

Prints-one : (n : ℕ) → n < 10 → Prints n ((b'0' + n) ∷ [])
unfolding all digits_value
Prints-one n h = record { digit = ground arith; value = omega arith; short = λ k _. omega arith }

Prints-more : (n : ℕ) (t : Text) → 10 ≤ n → Prints (n / 10) t → Prints n (t ++ (b'0' + n % 10) ∷ [])
unfolding all digits_value
Prints-more n t h rest = record {
  digit = all-append t _ rest.digit (ground arith);
  value = digits_value-append 0 t _ ∙ omega (arith, rest.value);
  short = longer;
}
  where
    longer : (k : ℕ) → n < 10 ^ suc k → length (t ++ (b'0' + n % 10) ∷ []) ≤ suc k
    longer zero l = absurd (omega arith)
    longer (suc k) l =
        omega (arith, length-append t ((b'0' + n % 10) ∷ []), rest.short k (div-lt-pow n (suc k) l))

digits-Prints : (f n : ℕ) → n < f → Prints n (digits f n)
unfolding digits
digits-Prints zero n h = absurd (omega arith)
digits-Prints (suc f) n h = elim (Bool-cases (ltb n 10)) [
  | inl one ↦ rw (one, digits) (Prints-one n (ltb→lt _ _ one))
  | inr more ↦
      let ten : 10 ≤ n = ltb-false→le _ _ more in
      rw (more, digits)
        (Prints-more n (digits f (n / 10)) ten (digits-Prints f (n / 10) (omega arith)))
]

span_digits-append :
    (t rest : Text)
    → all is_digit t ≡ true
    → starts_digit rest ≡ false
    → span_digits (t ++ rest) ≡ (t, rest)
unfolding span_digits all
span_digits-append [] [] h k = refl
span_digits-append [] (c ∷ rest) h k = rw (k, span_digits)
span_digits-append (c ∷ t) rest h k =
    let parts = &&-eq-true (is_digit c) (all is_digit t) h in
    rw (span_digits-append t rest parts.1 k, parts.0, span_digits)

finish_number-ends :
    (negative : Bool) (t rest : Text)
    → float_part rest ≡ false
    → length t ≤ max_str_digits
    → finish_number negative t rest ≡ ok (to_int negative (digits_value 0 t), rest)
unfolding finish_number
finish_number-ends negative t rest h k = rw (h, le→ltb-false max_str_digits (length t) k)

-- leading digit
nonzero_head :
    (f n : ℕ) → n < f → 0 < n → (c : ℕ) × (s : Text) × (digits f n ≡ c ∷ s) × ((c == b'0') ≡ false)
unfolding digits
nonzero_head zero n h k = absurd (omega arith)
nonzero_head (suc f) n h k = elim (Bool-cases (ltb n 10)) [
  | inl one ↦ (b'0' + n, [], rw (one, digits), ground arith)
  | inr more ↦
      let ten : 10 ≤ n = ltb-false→le _ _ more in
      let (c, s, e, head) = nonzero_head f (n / 10) (omega arith) (omega arith) in
      (
        c,
        s ++ (b'0' + n % 10) ∷ [],
        rw (more, digits) (ap (λ (t : Text). t ++ (b'0' + n % 10) ∷ []) e),
        head,
      )
]

module _ (negative : Bool) (rest : Text) (ends : EndsNumber rest) where
  scan_digits-head :
      (c : ℕ) (s : Text) (n : ℕ)
      → (c == b'0') ≡ false
      → Prints n (c ∷ s)
      → n < 10 ^ 16
      → scan_digits negative (c ∷ (s ++ rest)) ≡ ok (to_int negative n, rest)
  unfolding scan_digits all
  scan_digits-head c s n h prints small =
      let parts = &&-eq-true (is_digit c) (all is_digit s) prints.digit in
      let size = prints.short 15 small in
      rw (h, parts.0, span_digits-append s rest parts.1 ends.no_digit, scan_digits)
        (finish_number-ends negative (c ∷ s) rest ends.no_float (omega arith)
          ∙ ap (λ m. ok (to_int negative m, rest)) prints.value)

  -- What `str` prints of a number is read back.
  pub scan_digits-str_nat :
      (n : ℕ)
      → n < 10 ^ 16
      → scan_digits negative (str_nat n ++ rest) ≡ ok (to_int negative n, rest)
  unfolding str_nat
  scan_digits-str_nat zero small =
      unfold scan_digits digits in
      finish_number-ends negative (b'0' ∷ []) rest ends.no_float (omega arith)
  scan_digits-str_nat (suc m) small =
      let (c, s, e, head) = nonzero_head (suc (suc m)) (suc m) (omega arith) (omega arith) in
      let printed : Prints (suc m) (c ∷ s) =
        subst (Prints (suc m)) e (digits-Prints (suc (suc m)) (suc m) (omega arith)) in
      rw e (scan_digits-head c s (suc m) head printed small)

pub str_nat-head : (n : ℕ) → (c : ℕ) × (s : Text) × (str_nat n ≡ c ∷ s) × (is_digit c ≡ true)
unfolding str_nat
str_nat-head zero = (b'0', [], (unfold digits in refl), refl)
str_nat-head (suc m) =
    let (c, s, e, _) = nonzero_head (suc (suc m)) (suc m) (omega arith) (omega arith) in
    let printed : Prints (suc m) (c ∷ s) =
      subst (Prints (suc m)) e (digits-Prints (suc (suc m)) (suc m) (omega arith)) in
    (c, s, e, (&&-eq-true (is_digit c) (all is_digit s) (unfold all in printed.digit)).0)

pub str_nat-digits : (n : ℕ) → all is_digit (str_nat n) ≡ true
unfolding str_nat
str_nat-digits zero = unfold digits in unfold all in refl
str_nat-digits (suc m) = (digits-Prints (suc (suc m)) (suc m) (omega arith)).digit
