-- ===== src/Moriarty/Compared.antt =====
-- A value that has the shape of its field is equal to itself in the comparison of records.
use qsol_fed.Base.{ℕ, ◌≡◌, refl, Bool, true, false, not, ◌==◌, ==_iff, List, if◌then◌else◌}
use qsol_fed.Base.Result.{Error, ok, raise_if}
use qsol_fed.Base.Int.{pos, negsuc}
use qsol_fed.Base.Text.{Text, text_eq_refl, contains}
use qsol_fed.Json.{Value, null, bool, int, str}
use qsol_fed.Sdk.Patterns.{is_text_that}
use qsol_fed.Sdk.Fields.{is_none, hash_eq, hashable}
use qsol_fed.Moriarty.Shapes.{value_eq, member_of, is_size, is_failure_code, is_bool}
use qsol_fed.Moriarty.Replay.{same_bool}

-- a known text has a hash
pub member_of-known :
    (names : List Text) (v : Value)
    → is_text_that (contains names) v ≡ true
    → member_of names v ≡ ok true
unfolding member_of hashable
member_of-known names (str s) h = rw h refl
member_of-known names _ h = cc

-- Atoms are equal to themselves.
pub text_self : (test : Text → Bool) (v : Value) → is_text_that test v ≡ true → value_eq v v ≡ true
unfolding value_eq hash_eq
text_self test (str s) h = text_eq_refl s
text_self test _ h = cc

pub same-number : (n : ℕ) → (n == n) ≡ true
same-number n = (==_iff n n).1 refl

pub size_self : (bound : ℕ) (v : Value) → is_size bound v ≡ true → value_eq v v ≡ true
unfolding value_eq hash_eq is_size
size_self bound (int (pos n)) h = same-number n
size_self bound (int (negsuc n)) h = cc
size_self bound _ h = cc

pub failure_code_self : (v : Value) → is_failure_code v ≡ true → value_eq v v ≡ true
unfolding value_eq hash_eq is_failure_code
failure_code_self (int (pos n)) h = same-number n
failure_code_self (int (negsuc n)) h = same-number n
failure_code_self _ h = cc

pub none_self : (v : Value) → is_none v ≡ true → value_eq v v ≡ true
unfolding value_eq hash_eq is_none
none_self null h = refl
none_self _ h = cc

pub bool_self : (v : Value) → is_bool v ≡ true → same_bool v v ≡ true
unfolding is_bool
bool_self (bool true) h = refl
bool_self (bool false) h = refl
bool_self _ h = cc

pub code_self :
    (b : Bool) (v : Value)
    → (if b then is_failure_code v else is_none v) ≡ true
    → value_eq v v ≡ true
code_self true v h = failure_code_self v h
code_self false v h = none_self v h

pub coded :
    (b : Bool) (v : Value) (e f : Error)
    → (if b then is_failure_code v else is_none v) ≡ true
    → (if b then raise_if (not (is_failure_code v)) e else raise_if (not (is_none v)) f) ≡ ok tt
unfolding raise_if
coded true v e f h = rw h refl
coded false v e f h = rw h refl
