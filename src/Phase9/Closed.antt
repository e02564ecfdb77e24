-- ===== src/Phase9/Closed.antt =====
-- What an accepted claim document of phase 9 says, and cannot say.
use qsol_fed.Base.{
  ◌≡◌, refl, Bool, true, false, ◌&&◌, not, &&-eq-true, List, all, Bool-cases, inl, inr, arith,
}
use qsol_fed.Base.Result.{ok, guard-eq-ok}
use qsol_fed.Base.Text.{Text, codes, text_eq, text_eq_iff, contains}
use qsol_fed.Json.{Value, Fields, bool, dict, end, field, keys, has_key}
use qsol_fed.Sdk.Fields.{has_exactly, is_literal, is_false}
use qsol_fed.Moriarty.Shapes.{value_at, value_eq}
use qsol_fed.Sdk.Found.{as_dict-found}
use qsol_fed.Base.Inverse.{not-false}
use qsol_fed.Moriarty.Assigned.{all-at}
use qsol_fed.Phase9.Claims.{
  hard_false_claims, expected_top, expected_assurance, required_assurance, denied_assurance,
  is_true, header_valid, assurance_valid, validate_claim_document,
}

-- the claims of an accepted document
pub record ClosedClaims (previous current : Fields) : Type 0 where
  pub capabilities : Fields
  pub has_capabilities : value_at (codes "capabilities") current ≡ dict capabilities
  pub preserved : value_eq (dict capabilities) (value_at (codes "capabilities") previous) ≡ true
  pub not_claimed :
      (key : Text) → contains hard_false_claims key ≡ true → value_at key capabilities ≡ bool false
  pub assurance : Fields
  pub has_assurance : value_at (codes "assurance") current ≡ dict assurance
  pub declared :
      (key : Text) → has_key key assurance ≡ true → contains expected_assurance key ≡ true
  pub stated :
      (key : Text) → contains required_assurance key ≡ true → value_at key assurance ≡ bool true
  pub denied :
      (key : Text) → contains denied_assurance key ≡ true → value_at key assurance ≡ bool false

is_true-eq : (v : Value) → is_true v ≡ true → v ≡ bool true
unfolding is_true
is_true-eq (bool true) h = refl
is_true-eq (bool false) h = cc
is_true-eq _ h = cc

is_false-eq : (v : Value) → is_false v ≡ true → v ≡ bool false
unfolding is_false
is_false-eq (bool false) h = refl
is_false-eq (bool true) h = cc
is_false-eq _ h = cc

all-keys :
    (f : Text → Bool) (fs : Fields) (k : Text)
    → all f (keys fs) ≡ true
    → has_key k fs ≡ true
    → f k ≡ true
unfolding all keys has_key
all-keys f end k h m = cc
all-keys f (field j v fs) k h m = elim (Bool-cases (text_eq j k)) [
  | inl e ↦
      (let same = (text_eq_iff j k).0 e in rw (← same) (&&-eq-true (f j) (all f (keys fs)) h).0)
  | inr e ↦ all-keys f fs k (&&-eq-true (f j) (all f (keys fs)) h).1 (rw e at m)
]

exact-keys :
    (names : List Text) (fs : Fields) (k : Text)
    → has_exactly names fs ≡ true
    → has_key k fs ≡ true
    → contains names k ≡ true
unfolding has_exactly
exact-keys names fs k h m =
    all-keys (contains names) fs k
      (&&-eq-true (all (λ i. has_key i fs) names) (all (contains names) (keys fs)) h).1 m

middle : (w x y z : Bool) → (w && x && y && z) ≡ true → (x ≡ true) × (y ≡ true)
middle w x y z h = ground arith

assurance-parts :
    (a : Fields)
    → assurance_valid a ≡ true
    → (all (λ key. is_true (value_at key a)) required_assurance ≡ true)
      × (all (λ key. is_false (value_at key a)) denied_assurance ≡ true)
unfolding assurance_valid
assurance-parts a h =
    middle (is_literal (codes "MORIARTY/1") (value_at (codes "moriarty_protocol") a))
      (all (λ key. is_true (value_at key a)) required_assurance)
      (all (λ key. is_false (value_at key a)) denied_assurance)
      (is_literal (codes "none") (value_at (codes "authority_effect") a)) h

-- An accepted document keeps the capabilities of the phase before it and claims none of the forbidden
-- ones. Its assurance has no key but the declared ones: every required statement is there and true, and
-- every overclaim is there and false.
pub validate_claim_document-ClosedClaims :
    (previous current : Fields)
    → validate_claim_document previous current ≡ ok tt
    → ClosedClaims previous current
unfolding validate_claim_document
validate_claim_document-ClosedClaims previous current h =
    let (top, h1) = guard-eq-ok (not (has_exactly expected_top current)) _ _ h in
    let (header, h2) = guard-eq-ok (not (header_valid current)) _ _ h1 in
    let (preserved, h3) =
      guard-eq-ok
        (not (
          value_eq (value_at (codes "capabilities") current)
            (value_at (codes "capabilities") previous)))
        _ _ h2 in
    let (caps, has_caps, h4) = as_dict-found (value_at (codes "capabilities") current) _ _ h3 in
    let (hard, h5) =
      guard-eq-ok (not (all (λ key. is_false (value_at key caps)) hard_false_claims)) _ _ h4 in
    let (a, has_a, h6) = as_dict-found (value_at (codes "assurance") current) _ _ h5 in
    let (exact, h7) = guard-eq-ok (not (has_exactly expected_assurance a)) _ _ h6 in
    let (valid, h8) = guard-eq-ok (not (assurance_valid a)) _ _ h7 in
    let (stated, denied) = assurance-parts a (not-false _ valid) in
    record {
      capabilities = caps;
      has_capabilities = has_caps;
      preserved = rw (← has_caps) (not-false _ preserved);
      not_claimed = λ key m.
          is_false-eq _
            (all-at (λ k. is_false (value_at k caps)) hard_false_claims key (not-false _ hard) m);
      assurance = a;
      has_assurance = has_a;
      declared = λ key m. exact-keys expected_assurance a key (not-false _ exact) m;
      stated = λ key m.
          is_true-eq _ (all-at (λ k. is_true (value_at k a)) required_assurance key stated m);
      denied = λ key m.
          is_false-eq _ (all-at (λ k. is_false (value_at k a)) denied_assurance key denied m);
    }
