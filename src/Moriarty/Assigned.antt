-- ===== src/Moriarty/Assigned.antt =====
-- What an assignment to a field leaves as it was.
use qsol_fed.Base.{
  ◌≡◌, refl, ap, Bool, true, false, &&-eq-true, List, [], ◌∷◌, all, some, Bool-cases, inl, inr,
  if◌then◌else◌,
}
use qsol_fed.Base.Text.{Text, text_eq, text_eq_iff, contains}
use qsol_fed.Json.{Value, Fields, end, field, keys, lookup, has_key}
use qsol_fed.Sdk.Fields.{has_exactly}
use qsol_fed.Sdk.Binding.{assign, has_key-assign}
use qsol_fed.Moriarty.Counterexample.{mutable_fields, counterexample_identity_projection}

pub lookup-assign-same : (k : Text) (v : Value) (fs : Fields) → lookup k (assign k v fs) ≡ some v
unfolding lookup assign
lookup-assign-same k v end = rw ((text_eq_iff k k).1 refl) refl
lookup-assign-same k v (field j w fs) = elim (Bool-cases (text_eq j k)) [
  | inl e ↦ rw (e, e) refl
  | inr e ↦ rw (e, e) (lookup-assign-same k v fs)
]

pub lookup-assign-other :
    (i k : Text) (v : Value) (fs : Fields)
    → text_eq k i ≡ false
    → lookup i (assign k v fs) ≡ lookup i fs
unfolding lookup assign
lookup-assign-other i k v end h = rw h refl
lookup-assign-other i k v (field j w fs) h = elim (Bool-cases (text_eq j k)) [
  | inl e ↦
      (let same = (text_eq_iff j k).0 e in
        let apart : text_eq j i ≡ false = rw same h in rw (e, apart) refl)
  | inr e ↦ rw e (ap (λ o. if text_eq j i then some w else o) (lookup-assign-other i k v fs h))
]

pub projection-assign :
    (k : Text) (v : Value) (fs : Fields)
    → contains mutable_fields k ≡ true
    → counterexample_identity_projection (assign k v fs) ≡ counterexample_identity_projection fs
unfolding counterexample_identity_projection assign
projection-assign k v end h = rw h refl
projection-assign k v (field j w fs) h = elim (Bool-cases (text_eq j k)) [
  | inl e ↦
      (let same = (text_eq_iff j k).0 e in
        let out : contains mutable_fields j ≡ true = rw same h in rw (e, out) refl)
  | inr e ↦ rw e (
      ap (λ rest. if contains mutable_fields j then rest else field j w rest)
        (projection-assign k v fs h))
]

pub all-cong : (f g : Text → Bool) (xs : List Text) → ((x : Text) → f x ≡ g x) → all f xs ≡ all g xs
unfolding all
all-cong f g [] h = refl
all-cong f g (x ∷ xs) h = rw (h x, all-cong f g xs h) refl

pub all-at :
    (f : Text → Bool) (xs : List Text) (k : Text)
    → all f xs ≡ true
    → contains xs k ≡ true
    → f k ≡ true
unfolding all contains
all-at f [] k h m = cc
all-at f (x ∷ xs) k h m = elim (Bool-cases (text_eq k x)) [
  | inl e ↦ (let same = (text_eq_iff k x).0 e in rw same (&&-eq-true (f x) (all f xs) h).0)
  | inr e ↦ all-at f xs k (&&-eq-true (f x) (all f xs) h).1 (rw e at m)
]

pub keys-assign :
    (k : Text) (v : Value) (fs : Fields) → has_key k fs ≡ true → keys (assign k v fs) ≡ keys fs
unfolding keys assign has_key
keys-assign k v end h = cc
keys-assign k v (field j w fs) h = elim (Bool-cases (text_eq j k)) [
  | inl e ↦ rw e refl
  | inr e ↦ rw e (ap (λ ks. j ∷ ks) (keys-assign k v fs (rw e at h)))
]

-- assigning to a key that is there keeps the key set
pub has_exactly-assign :
    (names : List Text) (k : Text) (v : Value) (fs : Fields)
    → contains names k ≡ true
    → has_exactly names fs ≡ true
    → has_exactly names (assign k v fs) ≡ true
unfolding has_exactly
has_exactly-assign names k v fs known h =
    let parts = &&-eq-true (all (λ i. has_key i fs) names) (all (contains names) (keys fs)) h in
    let there = all-at (λ i. has_key i fs) names k parts.0 known in
    let kept =
      all-cong (λ i. has_key i (assign k v fs)) (λ i. has_key i fs) names
        (λ i. has_key-assign i k v fs there) in
    rw (kept, parts.0, keys-assign k v fs there, parts.1) refl
