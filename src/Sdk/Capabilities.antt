-- ===== src/Sdk/Capabilities.antt =====
-- The capability pattern of sdk/python/qsol_fed_sdk.py against its grammar.
use qsol_fed.Base.{
  ℕ, ◌≡◌, refl, ap, sym, ◌↔◌, ◌∙◌, Bool, true, false, ◌&&◌, ◌||◌, [], ◌∷◌, leb, ◌==◌, all, arith,
}
use qsol_fed.Base.{Bool-cases}
use mathlib.Core.Path.{subst}
use mathlib.Core.Logic.{inl, inr}
use qsol_fed.Base.Text.{Text}
use qsol_fed.Json.Decimal.{is_digit}
use qsol_fed.Sdk.Patterns.{
  is_lower, is_alnum, Place, start, name, separator, slash, version, dead, next_place, accepts,
  matches_capability,
}

abbrev pub is_separator : ℕ → Bool
is_separator c = c == b'.' || c == b'-'

abbrev pub is_positive : ℕ → Bool
is_positive c = leb b'1' c && leb c b'9'

-- What may follow a letter or digit of the name: more of them, a separator with a letter or digit
-- behind it, or the version.
pub data Tail : Text → Type 0 where
  more : {c : ℕ} {s : Text} → is_alnum c ≡ true → Tail s → Tail (c ∷ s)
  segment :
      {c d : ℕ} {s : Text} → is_separator c ≡ true → is_alnum d ≡ true → Tail s → Tail (c ∷ d ∷ s)
  versioned :
      {c : ℕ} {s : Text} → is_positive c ≡ true → all is_digit s ≡ true → Tail (b'/' ∷ c ∷ s)

-- `[a-z]` and what follows it.
pub data Capability : Text → Type 0 where
  capability : {c : ℕ} {s : Text} → is_lower c ≡ true → Tail s → Capability (c ∷ s)

accepts-dead : (s : Text) → accepts dead s ≡ false
unfolding accepts
accepts-dead [] = refl
accepts-dead (c ∷ s) = accepts-dead s

accepts-version : (s : Text) → accepts version s ≡ all is_digit s
unfolding accepts all
accepts-version [] = refl
accepts-version (c ∷ s) = elim (Bool-cases (is_digit c)) [
  | inl e ↦ rw e (accepts-version s)
  | inr e ↦ rw e (accepts-dead s)
]

-- One step behind a letter or digit of the name.
data Step (c : ℕ) : Type 0 where
  to_name : is_alnum c ≡ true → next_place name c ≡ name → Step c
  to_separator : is_separator c ≡ true → next_place name c ≡ separator → Step c
  to_slash : c ≡ b'/' → next_place name c ≡ slash → Step c
  to_dead : next_place name c ≡ dead → Step c

separator_step : (c : ℕ) → is_separator c ≡ true → next_place name c ≡ separator
unfolding next_place
separator_step c h = ground arith

step : (c : ℕ) → Step c
unfolding next_place
step c = elim (Bool-cases (is_alnum c)) [
  | inl e ↦ to_name e (rw e)
  | inr e ↦ elim (Bool-cases (is_separator c)) [
    | inl f ↦ to_separator f (separator_step c f)
    | inr f ↦ elim (Bool-cases (c == b'/')) [
      | inl g ↦ to_slash (ground arith) (rw (e, f, g))
      | inr g ↦ to_dead (rw (e, f, g))
    ]
  ]
]

Tail-accepts : {s : Text} → Tail s → accepts name s ≡ true
unfolding accepts next_place
Tail-accepts (more {c} {s} a t) = rw a (Tail-accepts t)
Tail-accepts (segment {c} {d} {s} p a t) =
    ap (λ q. accepts (next_place q d) s) (separator_step c p) ∙ rw a (Tail-accepts t)
Tail-accepts (versioned {c} {s} p a) = rw p (accepts-version s ∙ a)

name_open : accepts name [] ≡ true → ⊥
unfolding accepts
name_open h = cc

separator_open : accepts separator [] ≡ true → ⊥
unfolding accepts
separator_open h = cc

slash_open : accepts slash [] ≡ true → ⊥
unfolding accepts
slash_open h = cc

separator_alnum : (d : ℕ) → is_alnum d ≡ true → next_place separator d ≡ name
unfolding next_place
separator_alnum d e = rw e

separator_other : (d : ℕ) → is_alnum d ≡ false → next_place separator d ≡ dead
unfolding next_place
separator_other d e = rw e

slash_positive : (d : ℕ) → is_positive d ≡ true → next_place slash d ≡ version
unfolding next_place
slash_positive d e = rw e

slash_other : (d : ℕ) → is_positive d ≡ false → next_place slash d ≡ dead
unfolding next_place
slash_other d e = rw e

-- how a step rewrites what is accepted
moved :
    (place : Place) (c : ℕ) (s : Text) {next : Place}
    → accepts place (c ∷ s) ≡ true
    → next_place place c ≡ next
    → accepts next s ≡ true
unfolding accepts
moved start c s h e = rw e at h
moved name c s h e = rw e at h
moved separator c s h e = rw e at h
moved slash c s h e = rw e at h
moved version c s h e = rw e at h
moved dead c s h e = rw e at h

dead_never : (s : Text) → accepts dead s ≡ true → ⊥
dead_never s h = let never = accepts-dead s in cc

accepts-slash : (s : Text) → accepts slash s ≡ true → Tail (b'/' ∷ s)
accepts-slash [] h = absurd (slash_open h)
accepts-slash (c ∷ s) h = elim (Bool-cases (is_positive c)) [
  | inl e ↦ versioned e (sym (accepts-version s) ∙ moved slash c s h (slash_positive c e))
  | inr e ↦ absurd (dead_never s (moved slash c s h (slash_other c e)))
]

mutual
  accepts-Tail : (s : Text) → accepts name s ≡ true → Tail s
  accepts-Tail [] h = absurd (name_open h)
  accepts-Tail (c ∷ s) h = elim (step c) [
    | to_name a e ↦ more a (accepts-Tail s (moved name c s h e))
    | to_separator a e ↦ accepts-separator c s a (moved name c s h e)
    | to_slash q e ↦ subst (λ c. Tail (c ∷ s)) (sym q) (accepts-slash s (moved name c s h e))
    | to_dead e ↦ absurd (dead_never s (moved name c s h e))
  ]

  accepts-separator :
      (c : ℕ) (s : Text) → is_separator c ≡ true → accepts separator s ≡ true → Tail (c ∷ s)
  accepts-separator c [] a h = absurd (separator_open h)
  accepts-separator c (d ∷ s) a h = elim (Bool-cases (is_alnum d)) [
    | inl e ↦ segment a e (accepts-Tail s (moved separator d s h (separator_alnum d e)))
    | inr e ↦ absurd (dead_never s (moved separator d s h (separator_other d e)))
  ]

start_lower : (c : ℕ) → is_lower c ≡ true → next_place start c ≡ name
unfolding next_place
start_lower c e = rw e

start_other : (c : ℕ) → is_lower c ≡ false → next_place start c ≡ dead
unfolding next_place
start_other c e = rw e

start_open : accepts start [] ≡ true → ⊥
unfolding accepts
start_open h = cc

accepts-Capability : (s : Text) → accepts start s ≡ true → Capability s
accepts-Capability [] h = absurd (start_open h)
accepts-Capability (c ∷ s) h = elim (Bool-cases (is_lower c)) [
  | inl e ↦ capability e (accepts-Tail s (moved start c s h (start_lower c e)))
  | inr e ↦ absurd (dead_never s (moved start c s h (start_other c e)))
]

Capability-accepts : {s : Text} → Capability s → accepts start s ≡ true
unfolding accepts
Capability-accepts (capability {c} {s} e t) = rw (start_lower c e) (Tail-accepts t)

-- The automaton accepts exactly the texts of the pattern's grammar: a lower-case letter, then
-- letters, digits and single separators each followed by a letter or digit, and behind a slash a
-- version number without a leading zero.
pub matches_capability-eq_iff : (s : Text) → (matches_capability s ≡ true) ↔ Capability s
unfolding matches_capability
matches_capability-eq_iff s = (accepts-Capability s, Capability-accepts)
