-- ===== src/Base/Int.antt =====
-- Python's unbounded integers.
use Prim.Native.Nat.{ℕ, ◌+◌, ◌≤◌}
use mathlib.Core.Bool.{Bool, true}
use qsol_fed.Base.Tests.{leb, tests}
use mathlib.Core.Path.{◌≡◌}

-- `negsuc n` is -(n + 1).
pub data ℤ : Type 0 where
  pos : ℕ → ℤ
  negsuc : ℕ → ℤ

-- `-bound <= n <= bound`
unfoldable pub within : ℕ → ℤ → Bool
within bound (pos n) = leb n bound
within bound (negsuc n) = leb (n + 1) bound

abbrev pub Within : ℕ → ℤ → Type 0
Within bound (pos n) = n ≤ bound
Within bound (negsuc n) = n + 1 ≤ bound

pub within→Within : (bound : ℕ) (n : ℤ) → within bound n ≡ true → Within bound n
unfolding within
within→Within bound (pos n) h = omega tests
within→Within bound (negsuc n) h = omega tests

pub Within→within : (bound : ℕ) (n : ℤ) → Within bound n → within bound n ≡ true
unfolding within
Within→within bound (pos n) h = omega tests
Within→within bound (negsuc n) h = omega tests
