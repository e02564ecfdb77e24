-- ===== src/Moriarty/Unresolved.antt =====
-- How many counterexamples of a list are unresolved.
use qsol_fed.Base.{ℕ, ==_iff, ◌+◌, ◌≡◌, refl, Bool, false, not, ◌==◌, arith, if◌then◌else◌}
use qsol_fed.Base.Int.{pos, negsuc}
use qsol_fed.Base.Text.{Text, codes}
use qsol_fed.Json.{Value, Items, Fields, null, bool, int, str, arr, dict, pairs, other, nil, cons}
use qsol_fed.Sdk.Fields.{is_literal}
use qsol_fed.Moriarty.Shapes.{value_at}
use qsol_fed.Moriarty.Corpus.{text_of}
use qsol_fed.Base.Inverse.{not-false}

abbrev pub is_open : Fields → Bool
is_open item = is_literal (codes "unresolved") (value_at (codes "status") item)

abbrev pub text_at : Text → Fields → Text
text_at key item = text_of (value_at key item)

-- how many counterexamples are unresolved
unfoldable pub count_unresolved : Items → ℕ
unfolding value_at is_literal
count_unresolved nil = 0
count_unresolved (cons (dict item) items) = (if is_open item then 1 else 0) + count_unresolved items
count_unresolved (cons _ items) = count_unresolved items

pub counted-value :
    (v : Value) (n m : ℕ)
    → not (elim v [ int (pos k) ↦ k == n | _ ↦ false ]) ≡ false
    → n ≡ m
    → v ≡ int (pos m)
counted-value (int (pos k)) n m h q =
    let same : k ≡ n = (==_iff k n).0 (not-false _ h) in rw (same, q) refl
counted-value (int (negsuc k)) n m h q = cc
counted-value null n m h q = cc
counted-value (bool b) n m h q = cc
counted-value (str s) n m h q = cc
counted-value (arr xs) n m h q = cc
counted-value (dict fs) n m h q = cc
counted-value (pairs fs) n m h q = cc
counted-value other n m h q = cc

pub count-cons :
    (v : Value) (items : Items)
    → count_unresolved (cons v items) ≡ count_unresolved (cons v nil) + count_unresolved items
unfolding count_unresolved
count-cons (dict item) items = omega arith
count-cons null items = omega arith
count-cons (bool b) items = omega arith
count-cons (int n) items = omega arith
count-cons (str s) items = omega arith
count-cons (arr xs) items = omega arith
count-cons (pairs fs) items = omega arith
count-cons other items = omega arith
