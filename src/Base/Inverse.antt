-- ===== src/Base/Inverse.antt =====
-- What a result or a test that came out says of its parts.
use mathlib.Core.Path.{◌≡◌, refl}
use mathlib.Core.Bool.{Bool, true, false, ◌&&◌, not}
use native.Mathlib.Omega.{arith}
use qsol_fed.Base.Result.{ok}

pub ok-value : {A : Type 0} {a b : A} → ok a ≡ ok b → a ≡ b
ok-value h = cc

pub third : (x y z : Bool) → (x && y && z) ≡ true → z ≡ true
third x y z h = ground arith

pub not-false : (b : Bool) → not b ≡ false → b ≡ true
not-false true h = refl
not-false false h = cc
