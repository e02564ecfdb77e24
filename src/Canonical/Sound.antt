-- ===== src/Canonical/Sound.antt =====
-- What `_normalize` returns is in the profile.
use qsol_fed.Base.{ℕ, ◌+◌, ◌≡◌, refl, false, List, [], ◌∷◌, arith, tests, suc, ap, ltb-false→le}
use qsol_fed.Base.Result.{
  ok, ◌>>=◌, raise_if, Returns, Returns-ok, Returns-err, Returns-if, Returns-bind, Returns-guard,
}
use qsol_fed.Base.Int.{within→Within}
use qsol_fed.Base.Text.{Text, contains, text_eq_iff}
use qsol_fed.Base.Utf8.{encode}
use qsol_fed.Platform.{Platform}
use qsol_fed.Json.{
  Value, Items, Fields, null, bool, int, str, arr, dict, pairs, other, nil, cons, end, field, keys,
  count_fields, count_items,
}
use qsol_fed.Canonical.Normalize.{nfc, normalize, normalize_pairs, normalize_items}
use qsol_fed.Canonical.Form.{IsText, IsNormal, AreNormal, FieldsNormal, Distinct, Fresh}

module _ (p : Platform) where
  pub nfc-IsText : (s : Text) {t : Text} → nfc p s ≡ ok t → IsText p t
  unfolding nfc encode ◌>>=◌ raise_if
  nfc-IsText s h = record {
    encodable = ground arith;
    normal = ground (arith, p.nfc_idem s);
    bounded = ground arith;
  }

  -- no key of the result was seen before, so the key in front of it is new
  pub Fresh-contains :
      (k : Text) (seen ks : List Text)
      → Fresh (k ∷ seen) ks
      → (contains ks k ≡ false) × Fresh seen ks
  unfolding contains
  Fresh-contains k seen [] h = (refl, tt)
  Fresh-contains k seen (j ∷ ks) h =
      let rest = Fresh-contains k seen ks h.1 in
      (ground (arith, text_eq_iff k j, text_eq_iff j k, rest.0, h.0), (ground arith, rest.1))

  pub record PairsNormal (raw : Fields) (seen : List Text) (d : ℕ) (fs : Fields) : Type 0 where
    pub normal : FieldsNormal p fs d
    pub distinct : Distinct fs
    pub fresh : Fresh seen (keys fs)
    pub counted : count_fields fs ≡ count_fields raw

  -- one more pair in front of a normalized rest
  pub pairs-step :
      (k : Text) (v w : Value) (fs gs : Fields) (key : Text) (seen : List Text) (d : ℕ)
      → nfc p k ≡ ok key
      → contains seen key ≡ false
      → IsNormal p w (d + 1)
      → PairsNormal fs (key ∷ seen) d gs
      → PairsNormal (field k v fs) seen d (field key w gs)
  unfolding IsNormal keys
  pairs-step k v w fs gs key seen d e new value rest =
      let new_key = Fresh-contains key seen (keys gs) rest.fresh in
      record {
        normal = (nfc-IsText k e, value, rest.normal);
        distinct = (new_key.0, rest.distinct);
        fresh = (new, new_key.1);
        counted = ap suc rest.counted;
      }

  mutual
    unfolding normalize IsNormal keys

    normalize-Returns : (v : Value) (d : ℕ) → Returns (λ w. IsNormal p w d) (normalize p v d)
    normalize-Returns null d = Returns-guard _ _ λ h. Returns-ok null (ltb-false→le _ _ h)
    normalize-Returns (bool b) d = Returns-guard _ _ λ h. Returns-ok (bool b) (ltb-false→le _ _ h)
    normalize-Returns (int n) d = Returns-guard _ _ λ h.
        Returns-if _ _ _ (λ k. Returns-ok (int n) (ltb-false→le _ _ h, within→Within _ n k))
          (λ k. Returns-err _)
    normalize-Returns (str s) d =
        Returns-guard _ _
          λ h. Returns-bind _ λ t e. Returns-ok (str t) (ltb-false→le _ _ h, nfc-IsText s e)
    normalize-Returns (arr xs) d = Returns-guard _ _ λ h. Returns-guard _ _ λ k.
        Returns-bind _ λ ys e.
          let items = (normalize_items-Returns xs d).at ys e in
          Returns-ok (arr ys) (ltb-false→le _ _ h, omega (tests, items.1), items.0)
    normalize-Returns (pairs fs) d = Returns-guard _ _ λ h. Returns-guard _ _ λ k.
        Returns-bind _ λ gs e.
          let fields = (normalize_pairs-Returns fs [] [] d).at gs e in
          Returns-ok (dict gs)
            (ltb-false→le _ _ h, omega (tests, fields.counted), fields.distinct, fields.normal)
    normalize-Returns (dict fs) d = Returns-guard _ _ λ h. Returns-err _
    normalize-Returns other d = Returns-guard _ _ λ h. Returns-err _

    normalize_pairs-Returns :
        (fs : Fields) (raws seen : List Text) (d : ℕ)
        → Returns (PairsNormal fs seen d) (normalize_pairs p fs raws seen d)
    normalize_pairs-Returns end raws seen d =
        Returns-ok end (record { normal = tt; distinct = tt; fresh = tt; counted = refl })
    normalize_pairs-Returns (field k v fs) raws seen d = Returns-guard _ _ λ _.
        Returns-bind _ λ key e. Returns-guard _ _ λ new. Returns-bind _ λ w ew.
          Returns-bind _ λ gs eg. Returns-ok (field key w gs) (
            pairs-step k v w fs gs key seen d e new ((normalize-Returns v (d + 1)).at w ew)
              ((normalize_pairs-Returns fs (k ∷ raws) (key ∷ seen) d).at gs eg))

    normalize_items-Returns :
        (xs : Items) (d : ℕ)
        → Returns
            (λ ys. AreNormal p ys d × (count_items ys ≡ count_items xs))
            (normalize_items p xs d)
    normalize_items-Returns nil d = Returns-ok nil (tt, refl)
    normalize_items-Returns (cons x xs) d = Returns-bind _ λ y ey. Returns-bind _ λ ys eys.
        let rest = (normalize_items-Returns xs d).at ys eys in
        Returns-ok (cons y ys) (((normalize-Returns x (d + 1)).at y ey, rest.0), ap suc rest.1)

  -- Whatever `_normalize` returns is in the profile: depths, sizes and integers are within the
  -- limits, texts are NFC without surrogates, and no object has a key twice.
  pub normalize-IsNormal : (v : Value) (d : ℕ) {w : Value} → normalize p v d ≡ ok w → IsNormal p w d
  normalize-IsNormal v d {w} h = (normalize-Returns v d).at w h
