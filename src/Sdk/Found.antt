-- ===== src/Sdk/Found.antt =====
-- A value that had to be there was.
use qsol_fed.Base.{◌≡◌, refl, Option, none, some}
use qsol_fed.Base.Result.{Error, Result, ok, err, ◌>>=◌}
use qsol_fed.Json.{Value, Items, Fields, null, bool, int, str, arr, dict, pairs, other}
use qsol_fed.Sdk.Fields.{as_dict, as_list, require}

-- a value that had to be there was
pub require-found :
    {A B : Type 0} (o : Option A) (e : Error) (f : A → Result B) {out : B}
    → (require o (err e) >>= f) ≡ ok out
    → (a : A) × (o ≡ some a) × (f a ≡ ok out)
unfolding ◌>>=◌
require-found none e f h = cc
require-found (some a) e f h = (a, refl, h)

pub as_dict-found :
    {A : Type 0} (v : Value) (e : Error) (f : Fields → Result A) {out : A}
    → (require (as_dict v) (err e) >>= f) ≡ ok out
    → (fs : Fields) × (v ≡ dict fs) × (f fs ≡ ok out)
unfolding as_dict ◌>>=◌
as_dict-found (dict fs) e f h = (fs, refl, h)
as_dict-found null e f h = cc
as_dict-found (bool b) e f h = cc
as_dict-found (int n) e f h = cc
as_dict-found (str s) e f h = cc
as_dict-found (arr xs) e f h = cc
as_dict-found (pairs fs) e f h = cc
as_dict-found other e f h = cc

pub as_list-found :
    {A : Type 0} (v : Value) (e : Error) (f : Items → Result A) {out : A}
    → (require (as_list v) (err e) >>= f) ≡ ok out
    → (xs : Items) × (v ≡ arr xs) × (f xs ≡ ok out)
unfolding as_list ◌>>=◌
as_list-found (arr xs) e f h = (xs, refl, h)
as_list-found null e f h = cc
as_list-found (bool b) e f h = cc
as_list-found (int n) e f h = cc
as_list-found (str s) e f h = cc
as_list-found (dict fs) e f h = cc
as_list-found (pairs fs) e f h = cc
as_list-found other e f h = cc
