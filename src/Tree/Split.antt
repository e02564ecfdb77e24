-- ===== src/Tree/Split.antt =====
-- Where a byte splits bytes: what stands before it does not contain it.
use qsol_fed.Base.{
  ℕ, ◌≡◌, refl, sym, ap, ◌∙◌, Bool, true, false, not, List, [], ◌∷◌, ◌++◌, ◌==◌, length, all,
  Option, some, Option-cases, inl, inr, arith, Bool-cases, &&-eq-true,
}
use qsol_fed.Json.Decimal.{is_digit, str_nat}
use qsol_fed.Json.Numbers.{str_nat-digits}
use qsol_fed.Tree.Objects.{split_byte, object_bytes}

abbrev pub is_other : ℕ → ℕ → Bool
is_other b c = not (c == b)

pub split_byte-append :
    (b : ℕ) (before later : List ℕ)
    → all (is_other b) before ≡ true
    → split_byte b (before ++ b ∷ later) ≡ some (before, later)
unfolding split_byte all
split_byte-append b [] later h = let same : (b == b) ≡ true = ground arith in rw same
split_byte-append b (c ∷ before) later h =
    let (first, others) = &&-eq-true (is_other b c) (all (is_other b) before) h in
    let differs : (c == b) ≡ false = ground arith in
    rw (differs, split_byte-append b before later others)

some-pair :
    {a b c d : List ℕ}
    → ◌≡◌ {A = Option (List ℕ × List ℕ)} (some (a, b)) (some (c, d))
    → (a ≡ c) × (b ≡ d)
some-pair h = (cc, cc)

-- nothing else is split that way
pub split_byte-parts :
    (b : ℕ) (bytes before later : List ℕ)
    → split_byte b bytes ≡ some (before, later)
    → bytes ≡ before ++ b ∷ later
unfolding split_byte
split_byte-parts b [] before later h = cc
split_byte-parts b (c ∷ bytes) before later h = elim (Bool-cases (c == b)) [
  | inl e ↦
      (let same : c ≡ b = ground arith in
        let found = some-pair (rw e at h) in rw (← found.0, ← found.1, same))
  | inr e ↦ elim (Option-cases (split_byte b bytes)) [
    | inl absent ↦ (let found = rw (e, absent) at h in cc)
    | inr ((first, rest), found) ↦
        (let parts = some-pair (rw (e, found) at h) in
          rw (← parts.0, ← parts.1, split_byte-parts b bytes first rest found))
  ]
]

append-cancel : (a p q : List ℕ) → a ++ p ≡ a ++ q → p ≡ q
append-cancel [] p q h = h
append-cancel (c ∷ a) p q h = append-cancel a p q (cc)

not-nul : (s : List ℕ) → all is_digit s ≡ true → all (is_other 0) s ≡ true
unfolding all
not-nul [] h = refl
not-nul (c ∷ s) h =
    let (first, others) = &&-eq-true (is_digit c) (all is_digit s) h in
    let later = not-nul s others in ground arith

object_bytes-parts :
    (kind p : List ℕ) → object_bytes kind p ≡ kind ++ (32 ∷ (str_nat (length p) ++ (0 ∷ p)))
unfolding object_bytes str_nat
object_bytes-parts kind p = refl

-- the bytes that are hashed determine the payload
pub object_bytes-inj : (kind p q : List ℕ) → object_bytes kind p ≡ object_bytes kind q → p ≡ q
object_bytes-inj kind p q h =
    let whole = sym (object_bytes-parts kind p) ∙ h ∙ object_bytes-parts kind q in
    let behind = append-cancel kind _ _ whole in
    let sizes : str_nat (length p) ++ (0 ∷ p) ≡ str_nat (length q) ++ (0 ∷ q) = cc in
    let one = split_byte-append 0 (str_nat (length p)) p (not-nul _ (str_nat-digits (length p))) in
    let two = split_byte-append 0 (str_nat (length q)) q (not-nul _ (str_nat-digits (length q))) in
    (some-pair (sym one ∙ ap (split_byte 0) sizes ∙ two)).1
