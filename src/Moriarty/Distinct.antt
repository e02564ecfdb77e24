-- ===== src/Moriarty/Distinct.antt =====
-- Loops that refuse a text that they have seen: no text comes twice.
use qsol_fed.Base.{
  ◌≡◌, refl, ◌∙◌, Bool, true, false, ◌&&◌, ◌||◌, not, List, [], ◌∷◌, arith, Bool-cases, inl, inr,
}
use qsol_fed.Base.Text.{Text, text_eq, text_eq_iff, text_eq_refl, contains}

abbrev pub distinct : List Text → Bool
distinct [] = true
distinct (x ∷ xs) = not (contains xs x) && distinct xs

-- the names were added to the ones seen before, each for the first time
pub record Tracked (names before after : List Text) : Type 0 where
  pub all_distinct : distinct names ≡ true
  pub all_fresh : (t : Text) → contains names t ≡ true → contains before t ≡ false
  pub seen : (t : Text) → contains after t ≡ (contains names t || contains before t)

pub Tracked-nil : (before : List Text) → Tracked [] before before
unfolding contains
Tracked-nil before = record { all_distinct = refl; all_fresh = λ t h. cc; seen = λ t. refl }

pub Tracked-cons :
    (a : Text) (names before after : List Text)
    → contains before a ≡ false
    → Tracked names (a ∷ before) after
    → Tracked (a ∷ names) before after
unfolding contains
Tracked-cons a names before after h later = record {
  all_distinct = rw (missing (contains names a) refl) later.all_distinct;
  all_fresh = λ t known. by_name t known;
  seen = λ t. later.seen t ∙ shuffle (text_eq t a) (contains names t) (contains before t);
}
  where
    missing : (b : Bool) → contains names a ≡ b → contains names a ≡ false
    missing false e = e
    missing true e = let clash = later.all_fresh a e in let same = text_eq_refl a in ground arith

    shuffle : (x y z : Bool) → (y || (x || z)) ≡ ((x || y) || z)
    shuffle x y z = ground arith

    by_name : (t : Text) → contains (a ∷ names) t ≡ true → contains before t ≡ false
    by_name t known = elim (Bool-cases (text_eq t a)) [
      | inl e ↦ (let same = (text_eq_iff t a).0 e in rw same h)
      | inr e ↦ (let fresh = later.all_fresh t (rw e at known) in ground arith)
    ]
