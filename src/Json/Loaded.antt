-- ===== src/Json/Loaded.antt =====
-- `json.loads` returns no dictionary and nothing but JSON: every object is a pair list.
use qsol_fed.Base.{
  ℕ, zero, suc, ◌+◌, ◌*◌, length, ◌≡◌, refl, Bool, true, false, [], ◌∷◌, Option, none, some,
}
use qsol_fed.Base.Result.{
  Result, ok, err, malformed_json, non_finite_number, out_of_fuel, Returns, Returns-ok, Returns-err,
  Returns-branch, Returns-bind,
}
use qsol_fed.Base.Text.{Text, codes}
use qsol_fed.Json.{
  Value, Items, Fields, null, bool, int, str, arr, dict, pairs, other, nil, cons, end, field,
}
use qsol_fed.Json.Scan.{skip_space, after}
use qsol_fed.Json.Loads.{
  on_head, number, literal, constant, scan_atom, scan_value, scan_array, scan_items, scan_object,
  scan_members, loads,
}
use qsol_fed.Json.Steps.{
  scan_value-body, scan_array-body, scan_object-body, scan_items-body, scan_members-body,
  scan_value-nil, scan_array-nil, scan_object-nil,
}

unfoldable mutual
  pub Loaded : Value → Type 0
  Loaded (arr xs) = ItemsLoaded xs
  Loaded (pairs fs) = FieldsLoaded fs
  Loaded (dict fs) = ⊥
  Loaded other = ⊥
  Loaded _ = Unit

  pub ItemsLoaded : Items → Type 0
  ItemsLoaded nil = Unit
  ItemsLoaded (cons x xs) = Loaded x × ItemsLoaded xs

  pub FieldsLoaded : Fields → Type 0
  FieldsLoaded end = Unit
  FieldsLoaded (field k v fs) = Loaded v × FieldsLoaded fs

abbrev LoadedFirst : Value × Text → Type 0
LoadedFirst (v, rest) = Loaded v

on_head-Returns :
    {A : Type 0} {P : A → Type 0} (s : Text) (k : ℕ → Text → Result A)
    → ((c : ℕ) (rest : Text) → Returns P (k c rest))
    → Returns P (on_head s k)
on_head-Returns [] k h = Returns-err malformed_json
on_head-Returns (c ∷ s) k h = h c s

number-Loaded : (negative : Bool) (s : Text) → Returns LoadedFirst (number negative s)
unfolding Loaded
number-Loaded negative s = Returns-bind _ λ (n, rest) e. Returns-ok (int n, rest) tt

literal-Loaded :
    (w : Text) (v : Value) (s : Text)
    → Loaded v
    → Returns LoadedFirst (literal w v s (err malformed_json))
literal-Loaded w v s l = by_rest (after w s) refl
  where
    by_rest :
        (o : Option Text) → after w s ≡ o → Returns LoadedFirst (literal w v s (err malformed_json))
    by_rest none e = rw (e, literal) (Returns-err malformed_json)
    by_rest (some rest) e = rw (e, literal) (Returns-ok (v, rest) l)

constant-Loaded :
    (w s : Text) (r : Result (Value × Text))
    → Returns LoadedFirst r
    → Returns LoadedFirst (constant w s r)
constant-Loaded w s r h = by_rest (after w s) refl
  where
    by_rest : (o : Option Text) → after w s ≡ o → Returns LoadedFirst (constant w s r)
    by_rest none e = rw (e, constant) h
    by_rest (some rest) e = rw (e, constant) (Returns-err non_finite_number)

scan_atom-Loaded : (c : ℕ) (s : Text) → Returns LoadedFirst (scan_atom c s)
unfolding scan_atom Loaded
scan_atom-Loaded c s = Returns-branch _ _ _ (literal-Loaded (codes "ull") null s tt) (
    Returns-branch _ _ _ (literal-Loaded (codes "rue") (bool true) s tt) (
      Returns-branch _ _ _ (literal-Loaded (codes "alse") (bool false) s tt) (
        Returns-branch _ _ _ (constant-Loaded (codes "aN") s _ (Returns-err malformed_json)) (
          Returns-branch _ _ _ (constant-Loaded (codes "nfinity") s _ (Returns-err malformed_json))
            (Returns-branch _ _ _ (constant-Loaded (codes "Infinity") s _ (number-Loaded true s))
              (number-Loaded false (c ∷ s)))))))

scan_value-none : (s : Text) → Returns LoadedFirst (scan_value zero s)
unfolding scan_value
scan_value-none s = Returns-err out_of_fuel

scan_array-none : (s : Text) → Returns (λ (xs, rest). ItemsLoaded xs) (scan_array zero s)
unfolding scan_value
scan_array-none s = Returns-err out_of_fuel

scan_items-none : (s : Text) → Returns (λ (xs, rest). ItemsLoaded xs) (scan_items zero s)
unfolding scan_value
scan_items-none s = Returns-err out_of_fuel

scan_object-none : (s : Text) → Returns (λ (fs, rest). FieldsLoaded fs) (scan_object zero s)
unfolding scan_value
scan_object-none s = Returns-err out_of_fuel

scan_members-none : (s : Text) → Returns (λ (fs, rest). FieldsLoaded fs) (scan_members zero s)
unfolding scan_value
scan_members-none s = Returns-err out_of_fuel

mutual
  unfolding Loaded

  scan_value-Loaded : (f : ℕ) (s : Text) → Returns LoadedFirst (scan_value f s)
  scan_value-Loaded zero s = scan_value-none s
  scan_value-Loaded (suc f) [] = rw (scan_value-nil f) (Returns-err malformed_json)
  scan_value-Loaded (suc f) (c ∷ s) = rw (scan_value-body f s c) (
      Returns-branch _ _ _ (Returns-bind _ λ (t, more) e. Returns-ok (str t, more) tt) (
        Returns-branch _ _ _
          (Returns-bind _ λ (fs, more) e.
            Returns-ok (pairs fs, more) ((scan_object-Loaded f (skip_space s)).at (fs, more) e))
          (Returns-branch _ _ _
            (Returns-bind _ λ (xs, more) e.
              Returns-ok (arr xs, more) ((scan_array-Loaded f (skip_space s)).at (xs, more) e))
            (scan_atom-Loaded c s))))

  scan_array-Loaded : (f : ℕ) (s : Text) → Returns (λ (xs, rest). ItemsLoaded xs) (scan_array f s)
  scan_array-Loaded zero s = scan_array-none s
  scan_array-Loaded (suc f) [] = rw (scan_array-nil f) (Returns-err malformed_json)
  scan_array-Loaded (suc f) (c ∷ s) =
      rw (scan_array-body f s c)
        (Returns-branch _ _ _ (Returns-ok (nil, s) tt) (scan_items-Loaded f (c ∷ s)))

  scan_items-Loaded : (f : ℕ) (s : Text) → Returns (λ (xs, rest). ItemsLoaded xs) (scan_items f s)
  scan_items-Loaded zero s = scan_items-none s
  scan_items-Loaded (suc f) s = rw (scan_items-body f s) (
      Returns-bind _ λ (v, more) e.
        let first = (scan_value-Loaded f s).at (v, more) e in
        on_head-Returns (skip_space more) _ λ c rest.
          Returns-branch _ _ _
            (Returns-bind _ λ (xs, tail) l.
              Returns-ok (cons v xs, tail)
                (first, (scan_items-Loaded f (skip_space rest)).at (xs, tail) l))
            (Returns-branch _ _ _ (Returns-ok (cons v nil, rest) (first, tt))
              (Returns-err malformed_json)))

  scan_object-Loaded :
      (f : ℕ) (s : Text) → Returns (λ (fs, rest). FieldsLoaded fs) (scan_object f s)
  scan_object-Loaded zero s = scan_object-none s
  scan_object-Loaded (suc f) [] = rw (scan_object-nil f) (Returns-err malformed_json)
  scan_object-Loaded (suc f) (c ∷ s) =
      rw (scan_object-body f s c)
        (Returns-branch _ _ _ (Returns-ok (end, s) tt) (scan_members-Loaded f (c ∷ s)))

  scan_members-Loaded :
      (f : ℕ) (s : Text) → Returns (λ (fs, rest). FieldsLoaded fs) (scan_members f s)
  scan_members-Loaded zero s = scan_members-none s
  scan_members-Loaded (suc f) s = rw (scan_members-body f s) (
      Returns-bind _ λ quoted _. Returns-bind _ λ (k, behind) _. Returns-bind _ λ colon _.
        Returns-bind _ λ (v, more) e.
          let first = (scan_value-Loaded f (skip_space colon)).at (v, more) e in
          on_head-Returns (skip_space more) _ λ c rest.
            Returns-branch _ _ _
              (Returns-bind _ λ (fs, tail) l.
                Returns-ok (field k v fs, tail)
                  (first, (scan_members-Loaded f (skip_space rest)).at (fs, tail) l))
              (Returns-branch _ _ _ (Returns-ok (field k v end, rest) (first, tt))
                (Returns-err malformed_json)))

pub loads-Loaded : (s : Text) → Returns Loaded (loads s)
unfolding loads
loads-Loaded s = Returns-bind _ λ (v, rest) e.
    finish v (skip_space rest)
      ((scan_value-Loaded (3 * length s + 1) (skip_space s)).at (v, rest) e)
  where
    finish :
        (v : Value) (rest : Text)
        → Loaded v
        → Returns Loaded (elim rest [ [] ↦ ok v | c ∷ more ↦ err malformed_json ])
    finish v [] l = Returns-ok v l
    finish v (c ∷ more) l = Returns-err malformed_json
