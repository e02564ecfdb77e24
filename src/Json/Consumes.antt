-- ===== src/Json/Consumes.antt =====
-- The parts of the scanner do not run out of fuel and leave less text than they were given.
use qsol_fed.Base.{
  ℕ, suc, ◌≤◌, ◌<◌, ◌≡◌, ◌≢◌, refl, Bool, true, false, [], ◌∷◌, ◌++◌, ◌==◌, arith, length,
  if◌then◌else◌, inl, inr, Bool-cases, Option, none, some,
}
use mathlib.Core.Path.{subst}
use qsol_fed.Base.Result.{
  Error, Result, ok, err, ◌>>=◌, malformed_json, non_finite_number, non_integer_number,
  int_digits_error, out_of_fuel,
}
use qsol_fed.Base.Text.{Text}
use qsol_fed.Json.{Value, int}
use qsol_fed.Json.Decimal.{is_digit}
use qsol_fed.Json.Scan.{
  Mode, plain, stop, fail, go, Move, string_move, skip_space, scan_chars, scan_string, span_digits,
  finish_number, scan_digits, after,
}
use qsol_fed.Json.Loads.{on_head, number, literal, constant, expect}

-- The scan ended within its fuel, and left fewer than `n` characters if it returned.
pub record Consumes {A : Type 0} (n : ℕ) (r : Result (A × Text)) : Type 0 where
  pub total : r ≢ err out_of_fuel
  pub shorter : (a : A) (rest : Text) → r ≡ ok (a, rest) → length rest < n

module _ {A : Type 0} {n : ℕ} where
  pub Consumes-ok : (a : A) (rest : Text) → length rest < n → Consumes n (ok (a, rest))
  Consumes-ok a rest h = record {
    total = cc;
    shorter = λ b more e. subst (λ (t : Text). length t < n) (cc) h;
  }

  pub Consumes-err : (e : Error) → e ≢ out_of_fuel → Consumes {A = A} n (err e)
  Consumes-err e h = record { total = λ q. h (cc); shorter = λ b more q. cc }

  pub Consumes-if :
      (b : Bool) (x y : Result (A × Text))
      → Consumes n x
      → Consumes n y
      → Consumes n (if b then x else y)
  Consumes-if true x y hx hy = hx
  Consumes-if false x y hx hy = hy

  pub Consumes-head :
      (s : Text) (k : ℕ → Text → Result (A × Text))
      → ((c : ℕ) (rest : Text) → length rest < length s → Consumes n (k c rest))
      → Consumes n (on_head s k)
  Consumes-head [] k h = Consumes-err malformed_json (cc)
  Consumes-head (c ∷ s) k h = h c s (omega arith)

  pub Consumes-bind :
      {B : Type 0} {m : ℕ} (r : Result (B × Text)) (f : B × Text → Result (A × Text))
      → Consumes m r
      → ((b : B) (rest : Text) → length rest < m → Consumes n (f (b, rest)))
      → Consumes n (r >>= f)
  unfolding ◌>>=◌
  Consumes-bind (ok (b, rest)) f c h = h b rest (c.shorter b rest refl)
  Consumes-bind (err e) f c h = Consumes-err e (λ q. c.total (cc))

  pub Consumes-le : {m : ℕ} {r : Result (A × Text)} → Consumes m r → m ≤ n → Consumes n r
  Consumes-le c h = record {
    total = c.total;
    shorter = λ a rest e. let s = c.shorter a rest e in omega arith;
  }

pub Consumes-expect :
    {A : Type 0} {n : ℕ} (c : ℕ) (s : Text) (f : Text → Result (A × Text))
    → ((t : Text) → length t < length s → Consumes n (f t))
    → Consumes n (expect c s >>= f)
unfolding expect ◌>>=◌
Consumes-expect c [] f h = Consumes-err malformed_json (cc)
Consumes-expect c (d ∷ s) f h = elim (Bool-cases (d == c)) [
  | inl e ↦ rw e (h s (omega arith))
  | inr e ↦ rw e (Consumes-err malformed_json (cc))
]

pub length-skip_space : (s : Text) → length (skip_space s) ≤ length s
unfolding skip_space
length-skip_space [] = omega arith
length-skip_space (c ∷ s) = ground (arith, length-skip_space s)

pub scan_chars-Consumes : (mode : Mode) (s : Text) → Consumes (length s) (scan_chars mode s)
unfolding scan_chars
scan_chars-Consumes mode [] = Consumes-err malformed_json (cc)
scan_chars-Consumes mode (c ∷ s) = by_move (string_move mode c) refl (λ m. scan_chars-Consumes m s)
  where
    by_move :
        (mv : Move)
        → string_move mode c ≡ mv
        → ((m : Mode) → Consumes (length s) (scan_chars m s))
        → Consumes (length (c ∷ s)) (scan_chars mode (c ∷ s))
    by_move stop e rest = rw (e, scan_chars) (Consumes-ok [] s (omega arith))
    by_move fail e rest = rw (e, scan_chars) (Consumes-err malformed_json (cc))
    by_move (go m out) e rest =
        rw (e, scan_chars)
          (Consumes-bind _ _ (rest m) λ t more h. Consumes-ok (out ++ t) more (omega arith))

pub scan_string-Consumes : (s : Text) → Consumes (length s) (scan_string s)
unfolding scan_string
scan_string-Consumes s =
    Consumes-bind (scan_chars plain s) _ (scan_chars-Consumes plain s)
      λ t rest h. Consumes-ok _ rest h

pub length-span_digits : (s : Text) → length (span_digits s).1 ≤ length s
unfolding span_digits
length-span_digits [] = omega arith
length-span_digits (c ∷ s) = ground (arith, length-span_digits s)

pub finish_number-Consumes :
    (negative : Bool) (t rest : Text) {n : ℕ}
    → length rest < n
    → Consumes n (finish_number negative t rest)
unfolding finish_number
finish_number-Consumes negative t rest h =
    Consumes-if _ _ _ (Consumes-err non_integer_number (cc))
      (Consumes-if _ _ _ (Consumes-err int_digits_error (cc)) (Consumes-ok _ rest h))

pub scan_digits-Consumes :
    (negative : Bool) (s : Text) → Consumes (length s) (scan_digits negative s)
unfolding scan_digits
scan_digits-Consumes negative [] = Consumes-err malformed_json (cc)
scan_digits-Consumes negative (c ∷ s) =
    let span = length-span_digits s in
    Consumes-if (c == b'0') _ _ (finish_number-Consumes negative (c ∷ []) s (omega arith)) (
      Consumes-if (is_digit c) _ _
        (finish_number-Consumes negative (c ∷ (span_digits s).0) (span_digits s).1 (omega arith))
        (Consumes-err malformed_json (cc)))

pub number-Consumes : (negative : Bool) (s : Text) → Consumes (length s) (number negative s)
number-Consumes negative s =
    Consumes-bind _ _ (scan_digits-Consumes negative s) λ n rest h. Consumes-ok (int n) rest h

pub length-after : (w s rest : Text) → after w s ≡ some rest → length rest ≤ length s
unfolding after
length-after [] s rest h = ground arith
length-after (c ∷ w) [] rest h = cc
length-after (c ∷ w) (d ∷ s) rest h = ground (arith, length-after w s rest)

pub literal-Consumes :
    (w : Text) (v : Value) (s : Text)
    → Consumes (suc (length s)) (literal w v s (err malformed_json))
literal-Consumes w v s = by_rest (after w s) refl
  where
    by_rest :
        (o : Option Text)
        → after w s ≡ o
        → Consumes (suc (length s)) (literal w v s (err malformed_json))
    by_rest none e = rw (e, literal) (Consumes-err malformed_json (cc))
    by_rest (some rest) e =
        rw (e, literal) (Consumes-ok v rest (let l = length-after w s rest e in omega arith))

pub constant-Consumes :
    (w s : Text) (other : Result (Value × Text)) {n : ℕ}
    → Consumes n other
    → Consumes n (constant w s other)
constant-Consumes w s other {n} h = by_rest (after w s) refl
  where
    by_rest : (o : Option Text) → after w s ≡ o → Consumes n (constant w s other)
    by_rest none e = rw (e, constant) h
    by_rest (some rest) e = rw (e, constant) (Consumes-err non_finite_number (cc))
