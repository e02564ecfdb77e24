-- ===== src/Json/Fuel.antt =====
-- The fuel that `loads` hands out always suffices.
use qsol_fed.Base.{ℕ, zero, suc, ◌+◌, ◌*◌, ◌<◌, ◌≢◌, true, false, [], ◌∷◌, arith, length}
use qsol_fed.Base.Result.{Result, ok, err, ◌>>=◌, malformed_json, out_of_fuel}
use qsol_fed.Base.Text.{Text, codes}
use qsol_fed.Json.{Value, null, bool, nil, end}
use qsol_fed.Json.Scan.{skip_space}
use qsol_fed.Json.Loads.{
  scan_atom, scan_value, scan_array, scan_items, scan_object, scan_members, loads,
}
use qsol_fed.Json.Steps.{
  scan_value-body, scan_array-body, scan_object-body, scan_items-body, scan_members-body,
  scan_value-nil, scan_array-nil, scan_object-nil,
}
use qsol_fed.Json.Consumes.{
  Consumes, Consumes-ok, Consumes-err, Consumes-if, Consumes-head, Consumes-bind, Consumes-le,
  Consumes-expect, length-skip_space, scan_string-Consumes, number-Consumes, literal-Consumes,
  constant-Consumes,
}

scan_atom-Consumes : (c : ℕ) (s : Text) → Consumes (length (c ∷ s)) (scan_atom c s)
unfolding scan_atom
scan_atom-Consumes c s = Consumes-if _ _ _ (literal-Consumes (codes "ull") null s) (
    Consumes-if _ _ _ (literal-Consumes (codes "rue") (bool true) s) (
      Consumes-if _ _ _ (literal-Consumes (codes "alse") (bool false) s) (
        Consumes-if _ _ _ (constant-Consumes (codes "aN") s _ (Consumes-err malformed_json (cc))) (
          Consumes-if _ _ _
            (constant-Consumes (codes "nfinity") s _ (Consumes-err malformed_json (cc)))
            (Consumes-if _ _ _
              (constant-Consumes (codes "Infinity") s _
                (Consumes-le (number-Consumes true s) (omega arith)))
              (number-Consumes false (c ∷ s)))))))

mutual
  scan_value-Consumes : (f : ℕ) (s : Text) → 3 * length s < f → Consumes (length s) (scan_value f s)
  scan_value-Consumes zero s h = absurd (omega arith)
  scan_value-Consumes (suc f) [] h = rw (scan_value-nil f) (Consumes-err malformed_json (cc))
  scan_value-Consumes (suc f) (c ∷ s) h =
      let spaces = length-skip_space s in
      rw (scan_value-body f s c) (
        Consumes-if _ _ _
          (Consumes-bind _ _ (scan_string-Consumes s) λ t rest l. Consumes-ok _ rest (omega arith))
          (Consumes-if _ _ _
            (Consumes-bind _ _ (scan_object-Consumes f (skip_space s) (omega arith))
              λ fs rest l. Consumes-ok _ rest (omega arith))
            (Consumes-if _ _ _
              (Consumes-bind _ _ (scan_array-Consumes f (skip_space s) (omega arith))
                λ xs rest l. Consumes-ok _ rest (omega arith))
              (scan_atom-Consumes c s))))

  scan_array-Consumes :
      (f : ℕ) (s : Text) → 3 * length s + 2 < f → Consumes (length s) (scan_array f s)
  scan_array-Consumes zero s h = absurd (omega arith)
  scan_array-Consumes (suc f) [] h = rw (scan_array-nil f) (Consumes-err malformed_json (cc))
  scan_array-Consumes (suc f) (c ∷ s) h = rw (scan_array-body f s c) (
      Consumes-if _ _ _ (Consumes-ok nil s (omega arith))
        (scan_items-Consumes f (c ∷ s) (omega arith)))

  scan_items-Consumes :
      (f : ℕ) (s : Text) → 3 * length s + 1 < f → Consumes (length s) (scan_items f s)
  scan_items-Consumes zero s h = absurd (omega arith)
  scan_items-Consumes (suc f) s h = rw (scan_items-body f s) (
      Consumes-bind _ _ (scan_value-Consumes f s (omega arith)) λ v more l.
        let spaces = length-skip_space more in
        Consumes-head (skip_space more) _ λ c rest k.
          let spaces' = length-skip_space rest in
          Consumes-if _ _ _
            (Consumes-bind _ _ (scan_items-Consumes f (skip_space rest) (omega arith))
              λ xs tail m. Consumes-ok _ tail (omega arith))
            (Consumes-if _ _ _ (Consumes-ok _ rest (omega arith))
              (Consumes-err malformed_json (cc))))

  scan_object-Consumes :
      (f : ℕ) (s : Text) → 3 * length s + 2 < f → Consumes (length s) (scan_object f s)
  scan_object-Consumes zero s h = absurd (omega arith)
  scan_object-Consumes (suc f) [] h = rw (scan_object-nil f) (Consumes-err malformed_json (cc))
  scan_object-Consumes (suc f) (c ∷ s) h = rw (scan_object-body f s c) (
      Consumes-if _ _ _ (Consumes-ok end s (omega arith))
        (scan_members-Consumes f (c ∷ s) (omega arith)))

  scan_members-Consumes :
      (f : ℕ) (s : Text) → 3 * length s + 1 < f → Consumes (length s) (scan_members f s)
  scan_members-Consumes zero s h = absurd (omega arith)
  scan_members-Consumes (suc f) s h = rw (scan_members-body f s) (
      Consumes-expect b'"' s _ λ quoted q.
        Consumes-bind _ _ (scan_string-Consumes quoted) λ k behind l.
          let spaces = length-skip_space behind in
          Consumes-expect b':' (skip_space behind) _ λ colon o.
            let spaces' = length-skip_space colon in
            Consumes-bind _ _ (scan_value-Consumes f (skip_space colon) (omega arith)) λ v more m.
              let spaces'' = length-skip_space more in
              Consumes-head (skip_space more) _ λ c rest t.
                let spaces3 = length-skip_space rest in
                Consumes-if _ _ _
                  (Consumes-bind _ _ (scan_members-Consumes f (skip_space rest) (omega arith))
                    λ fs tail u. Consumes-ok _ tail (omega arith))
                  (Consumes-if _ _ _ (Consumes-ok _ rest (omega arith))
                    (Consumes-err malformed_json (cc))))

-- On no text does the model of `json.loads` run out of the fuel that it is given.
pub loads-ne-out_of_fuel : (s : Text) → loads s ≢ err out_of_fuel
unfolding loads
loads-ne-out_of_fuel s =
    let spaces = length-skip_space s in
    ends _ (scan_value-Consumes (3 * length s + 1) (skip_space s) (omega arith)).total
  where
    ends :
        (r : Result (Value × Text))
        → r ≢ err out_of_fuel
        → (r >>= λ (v, rest). elim (skip_space rest) [ [] ↦ ok v | c ∷ more ↦ err malformed_json ])
          ≢ err out_of_fuel
    ends (ok (v, rest)) h q = let spaces = skip_space rest in unfold ◌>>=◌ in ground arith
    ends (err e) h q = h (unfold ◌>>=◌ in cc)
