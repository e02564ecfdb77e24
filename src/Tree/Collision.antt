-- ===== src/Tree/Collision.antt =====
-- Two databases of objects under one hash: what both of them yield under a name is the same, or there is a
-- collision of the hash.
use qsol_fed.Base.{
  ℕ, ◌≡◌, ◌≢◌, sym, ◌∙◌, Bool, true, false, not, ◌⊎◌, inl, inr, List, if◌then◌else◌, Bool-cases,
}
use qsol_fed.Base.Result.{Result, ok, ◌>>=◌, guard-eq-ok, >>=-eq-ok}
use qsol_fed.Base.Text.{Text, text_eq, text_eq_iff, text_eq_refl}
use qsol_fed.Moriarty.Registry.{Git}
use qsol_fed.Moriarty.Shapes.{matches_target}
use qsol_fed.Base.Inverse.{not-false, ok-value}
use qsol_fed.Tree.Objects.{
  Completed, Repository, object_bytes, git_object_id, verified_git_object, trusted_capture_bounded,
}
use qsol_fed.Tree.Split.{object_bytes-inj}

-- two different byte strings with one digest
pub record Collision (sha1 : List ℕ → Text) : Type 0 where
  pub one : List ℕ
  pub two : List ℕ
  pub differ : one ≢ two
  pub same_digest : sha1 one ≡ sha1 two

-- if both computations return, they return the same, or there is a collision
pub record Agree (sha1 : List ℕ → Text) {A : Type 0} (r s : Result A) : Type 0 where
  pub agree : (a b : A) → r ≡ ok a → s ≡ ok b → (a ≡ b) ⊎ Collision sha1

module _ {sha1 : List ℕ → Text} where
  pub Agree-same : {A : Type 0} (r : Result A) → Agree sha1 r r
  Agree-same r = record { agree = λ a b h k. inl (ok-value (sym h ∙ k)) }

  pub Agree-bind :
      {A B : Type 0} (r s : Result A) (f g : A → Result B)
      → Agree sha1 r s
      → ((a : A) → Agree sha1 (f a) (g a))
      → Agree sha1 (r >>= f) (s >>= g)
  Agree-bind {A} {B} r s f g before later = record { agree = λ a b h k. both a b h k }
    where
      both : (a b : B) → (r >>= f) ≡ ok a → (s >>= g) ≡ ok b → (a ≡ b) ⊎ Collision sha1
      both a b h k =
          let (x, first, h1) = >>=-eq-ok r f h in
          let (y, second, k1) = >>=-eq-ok s g k in
          elim (before.agree x y first second) [
            | inr collision ↦ inr collision
            | inl same ↦ (later y).agree a b (rw same at h1) k1
          ]

  pub Agree-if :
      {A : Type 0} (b : Bool) (x y x' y' : Result A)
      → Agree sha1 x x'
      → Agree sha1 y y'
      → Agree sha1 (if b then x else y) (if b then x' else y')
  Agree-if true x y x' y' hx hy = hx
  Agree-if false x y x' y' hx hy = hy

-- payloads of one kind with one identifier
pub same_id :
    (sha1 : List ℕ → Text) (kind : Text) (p q id : List ℕ)
    → sha1 (object_bytes kind p) ≡ id
    → sha1 (object_bytes kind q) ≡ id
    → (p ≡ q) ⊎ Collision sha1
same_id sha1 kind p q id h k = elim (Bool-cases (text_eq p q)) [
  | inl e ↦ inl ((text_eq_iff p q).0 e)
  | inr e ↦ inr record {
    one = object_bytes kind p;
    two = object_bytes kind q;
    differ = λ same.
        (let equal = text_eq_refl q in
          let one = object_bytes-inj kind p q same in let clash = rw one at e in cc);
    same_digest = h ∙ sym k;
  }
]

-- an object that was read has the identifier that was asked for
pub verified_git_object-id :
    (repository : Repository) (kind id : Text) (limit : ℕ) (payload : List ℕ)
    → verified_git_object repository kind id limit ≡ ok payload
    → repository.sha1 (object_bytes kind payload) ≡ id
unfolding verified_git_object git_object_id
verified_git_object-id repository kind id limit payload h =
    let (valid, h1) = guard-eq-ok (not (matches_target id)) _ _ h in
    let (found, captured, h2) =
      >>=-eq-ok (trusted_capture_bounded limit _ _ (repository.cat_file kind id)) _ h1 in
    let (hashed, h3) =
      guard-eq-ok (not (text_eq (git_object_id repository kind found) id)) _ _ h2 in
    rw (← ok-value h3) ((text_eq_iff _ id).0 (not-false _ hashed))

abbrev pub repository_of : (List ℕ → Text) → (Text → Text → Completed) → Git → Repository
repository_of sha1 cat_file history = record { sha1 = sha1; cat_file = cat_file; history = history }

module _ (sha1 : List ℕ → Text) (cat cat' : Text → Text → Completed) (history history' : Git) where
  pub verified_git_object-Agree :
      (kind id : Text) (limit limit' : ℕ)
      → Agree sha1
          (verified_git_object (repository_of sha1 cat history) kind id limit)
          (verified_git_object (repository_of sha1 cat' history') kind id limit')
  verified_git_object-Agree kind id limit limit' = record { agree = λ p q h k. both p q h k }
    where
      both :
          (p q : List ℕ)
          → verified_git_object (repository_of sha1 cat history) kind id limit ≡ ok p
          → verified_git_object (repository_of sha1 cat' history') kind id limit' ≡ ok q
          → (p ≡ q) ⊎ Collision sha1
      both p q h k =
          let one = verified_git_object-id (repository_of sha1 cat history) kind id limit p h in
          let two = verified_git_object-id (repository_of sha1 cat' history') kind id limit' q k in
          same_id sha1 kind p q id one two
