-- ===== src/Json/Decimal.antt =====
-- `str(n)` and `int(digits)` for Python integers.
use qsol_fed.Base.{
  ℕ, zero, suc, ◌+◌, ◌-◌, ◌*◌, ◌/◌, ◌%◌, ◌≡◌, refl, Bool, true, false, ◌&&◌, [], ◌∷◌, ◌++◌, ltb,
  leb,
}
use qsol_fed.Base.Int.{ℤ, pos, negsuc}
use qsol_fed.Base.Text.{Text}

abbrev pub is_digit : ℕ → Bool
is_digit c = leb b'0' c && leb c b'9'

-- The decimal digits of `n`, for fuel above `n`.
unfoldable pub digits : ℕ → ℕ → Text
digits zero n = []
digits (suc fuel) n = elim (ltb n 10) [
  | true ↦ (b'0' + n) ∷ []
  | false ↦ digits fuel (n / 10) ++ (b'0' + n % 10) ∷ []
]

unfoldable pub str_nat : ℕ → Text
unfolding digits
str_nat n = digits (suc n) n

unfoldable pub str_int : ℤ → Text
unfolding str_nat
str_int (pos n) = str_nat n
str_int (negsuc n) = b'-' ∷ str_nat (suc n)

unfoldable pub digits_value : ℕ → Text → ℕ
digits_value acc [] = acc
digits_value acc (c ∷ s) = digits_value (acc * 10 + (c - b'0')) s

str_int_example : str_int (negsuc 1229) ≡ b'-' ∷ b'1' ∷ b'2' ∷ b'3' ∷ b'0' ∷ []
unfolding str_int
str_int_example = refl
