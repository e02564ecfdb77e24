-- ===== src/Base/Runs.antt =====
-- Computations on fuel that do not run out of it.
use mathlib.Core.Path.{◌≡◌, refl}
use mathlib.Core.Logic.{◌≢◌}
use mathlib.Core.Bool.{Bool, true, false}
use qsol_fed.Base.Tests.{if◌then◌else◌}
use qsol_fed.Base.Result.{Error, Result, ok, err, ◌>>=◌, ◌>>◌, raise_if, out_of_fuel}

pub record Runs {ℓ} {A : Type ℓ} (r : Result A) : Type ℓ where
  pub total : r ≢ err out_of_fuel

pub Runs-ok {ℓ} : {A : Type ℓ} (a : A) → Runs (ok a)
Runs-ok a = record { total = λ q. cc }

pub Runs-err {ℓ} : {A : Type ℓ} (e : Error) → e ≢ out_of_fuel → Runs {A = A} (err e)
Runs-err e h = record { total = λ q. h (cc) }

pub Runs-if {ℓ} :
    {A : Type ℓ} (b : Bool) (x y : Result A) → Runs x → Runs y → Runs (if b then x else y)
Runs-if true x y hx hy = hx
Runs-if false x y hx hy = hy

pub Runs-bind {ℓ κ} :
    {A : Type ℓ} {B : Type κ} (m : Result A) (f : A → Result B)
    → Runs m
    → ((a : A) → m ≡ ok a → Runs (f a))
    → Runs (m >>= f)
unfolding ◌>>=◌
Runs-bind (ok a) f h k = k a refl
Runs-bind (err e) f h k = Runs-err e (λ q. h.total (cc))

pub Runs-raise_if : (b : Bool) (e : Error) → e ≢ out_of_fuel → Runs (raise_if b e)
unfolding raise_if
Runs-raise_if true e h = Runs-err e h
Runs-raise_if false e h = Runs-ok tt

-- behind a test that did not raise
pub Runs-guard {ℓ} :
    {A : Type ℓ} (b : Bool) (e : Error) {r : Result A}
    → e ≢ out_of_fuel
    → (b ≡ false → Runs r)
    → Runs (raise_if b e >> r)
unfolding ◌>>=◌ raise_if
Runs-guard true e h k = Runs-err e h
Runs-guard false e h k = k refl
