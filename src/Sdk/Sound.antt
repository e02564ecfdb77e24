-- ===== src/Sdk/Sound.antt =====
-- The SDK's normalizer returns values of the profile, and leaves those as they are.
use qsol_fed.Base.{
  ℕ, ◌+◌, ◌≡◌, refl, ap, ◌∙◌, List, [], ◌∷◌, tests, suc, le→ltb-false, ltb-false→le,
}
use qsol_fed.Base.Result.{
  ok, Returns, Returns-ok, Returns-err, Returns-if, Returns-bind, Returns-guard,
}
use qsol_fed.Base.Int.{within→Within, Within→within}
use qsol_fed.Base.Text.{Text}
use qsol_fed.Platform.{Platform}
use qsol_fed.Json.{
  Value, Items, Fields, null, bool, int, str, arr, dict, pairs, other, nil, cons, end, field, keys,
  count_items,
}
use qsol_fed.Canonical.Normalize
use qsol_fed.Canonical.Form.{IsNormal, AreNormal, FieldsNormal, Distinct, Fresh}
use qsol_fed.Canonical.Sound.{nfc-IsText, PairsNormal, pairs-step}
use qsol_fed.Canonical.Complete.{nfc-id, bind-ok, raise_if-pass, contains-Fresh, Fresh-none}
use qsol_fed.Sdk.Normalize.{
  nfc, normalize, normalize_pairs, normalize_members, normalize_items, safe_integer_max,
}

module _ (p : Platform) where
  pub nfc-eq : (s : Text) → nfc p s ≡ Normalize.nfc p s
  unfolding nfc Normalize.nfc
  nfc-eq s = refl

  mutual
    unfolding normalize IsNormal keys

    normalize-Returns : (v : Value) (d : ℕ) → Returns (λ w. IsNormal p w d) (normalize p v d)
    normalize-Returns null d = Returns-guard _ _ λ h. Returns-ok null (ltb-false→le _ _ h)
    normalize-Returns (bool b) d = Returns-guard _ _ λ h. Returns-ok (bool b) (ltb-false→le _ _ h)
    normalize-Returns (int n) d = Returns-guard _ _ λ h.
        Returns-if _ _ _ (λ k. Returns-ok (int n) (ltb-false→le _ _ h, within→Within _ n k))
          (λ k. Returns-err _)
    normalize-Returns (str s) d = Returns-guard _ _ λ h.
        Returns-bind _
          λ t e. Returns-ok (str t) (ltb-false→le _ _ h, nfc-IsText p s (rw nfc-eq at e))
    normalize-Returns (arr xs) d = Returns-guard _ _ λ h. Returns-guard _ _ λ k.
        Returns-bind _ λ ys e.
          let items = (normalize_items-Returns xs d).at ys e in
          Returns-ok (arr ys) (ltb-false→le _ _ h, omega (tests, items.1), items.0)
    normalize-Returns (pairs fs) d = Returns-guard _ _ λ h. Returns-guard _ _ λ k.
        Returns-bind _ λ gs e.
          let fields = (normalize_pairs-Returns fs [] [] d).at gs e in
          Returns-ok (dict gs)
            (ltb-false→le _ _ h, omega (tests, fields.counted), fields.distinct, fields.normal)
    normalize-Returns (dict fs) d = Returns-guard _ _ λ h. Returns-guard _ _ λ k.
        Returns-bind _ λ gs e.
          let fields = (normalize_members-Returns fs [] d).at gs e in
          Returns-ok (dict gs)
            (ltb-false→le _ _ h, omega (tests, fields.counted), fields.distinct, fields.normal)
    normalize-Returns other d = Returns-guard _ _ λ h. Returns-err _

    normalize_pairs-Returns :
        (fs : Fields) (raws seen : List Text) (d : ℕ)
        → Returns (PairsNormal p fs seen d) (normalize_pairs p fs raws seen d)
    normalize_pairs-Returns end raws seen d =
        Returns-ok end (record { normal = tt; distinct = tt; fresh = tt; counted = refl })
    normalize_pairs-Returns (field k v fs) raws seen d = Returns-guard _ _ λ _.
        Returns-bind _ λ key e. Returns-guard _ _ λ new. Returns-bind _ λ w ew.
          Returns-bind _ λ gs eg. Returns-ok (field key w gs) (
            pairs-step p k v w fs gs key seen d (rw nfc-eq at e) new
              ((normalize-Returns v (d + 1)).at w ew)
              ((normalize_pairs-Returns fs (k ∷ raws) (key ∷ seen) d).at gs eg))

    normalize_members-Returns :
        (fs : Fields) (seen : List Text) (d : ℕ)
        → Returns (PairsNormal p fs seen d) (normalize_members p fs seen d)
    normalize_members-Returns end seen d =
        Returns-ok end (record { normal = tt; distinct = tt; fresh = tt; counted = refl })
    normalize_members-Returns (field k v fs) seen d = Returns-bind _ λ key e.
        Returns-guard _ _ λ new. Returns-bind _ λ w ew. Returns-bind _ λ gs eg.
          Returns-ok (field key w gs) (
            pairs-step p k v w fs gs key seen d (rw nfc-eq at e) new
              ((normalize-Returns v (d + 1)).at w ew)
              ((normalize_members-Returns fs (key ∷ seen) d).at gs eg))

    normalize_items-Returns :
        (xs : Items) (d : ℕ)
        → Returns
            (λ ys. AreNormal p ys d × (count_items ys ≡ count_items xs))
            (normalize_items p xs d)
    normalize_items-Returns nil d = Returns-ok nil (tt, refl)
    normalize_items-Returns (cons x xs) d = Returns-bind _ λ y ey. Returns-bind _ λ ys eys.
        let rest = (normalize_items-Returns xs d).at ys eys in
        Returns-ok (cons y ys) (((normalize-Returns x (d + 1)).at y ey, rest.0), ap suc rest.1)

  -- Whatever the SDK's `_normalize` returns, of parsed JSON or of a dictionary, is in the profile.
  pub sdk_normalize-IsNormal :
      (v : Value) (d : ℕ) {w : Value} → normalize p v d ≡ ok w → IsNormal p w d
  sdk_normalize-IsNormal v d {w} h = (normalize-Returns v d).at w h

  mutual
    unfolding normalize IsNormal keys

    -- A value of the profile is returned unchanged.
    pub sdk_normalize-id : (v : Value) (d : ℕ) → IsNormal p v d → normalize p v d ≡ ok v
    sdk_normalize-id null d h = raise_if-pass _ _ _ (le→ltb-false _ _ h)
    sdk_normalize-id (bool b) d h = raise_if-pass _ _ _ (le→ltb-false _ _ h)
    sdk_normalize-id (int n) d h =
        raise_if-pass _ _ _ (le→ltb-false _ _ h.0) ∙ rw (Within→within safe_integer_max n h.1)
    sdk_normalize-id (str s) d h =
        raise_if-pass _ _ _ (le→ltb-false _ _ h.0) ∙ bind-ok _ (nfc-eq s ∙ nfc-id p s h.1)
    sdk_normalize-id (arr xs) d h =
        raise_if-pass _ _ _ (le→ltb-false _ _ h.0)
        ∙ raise_if-pass _ _ _ (le→ltb-false _ _ h.1)
        ∙ bind-ok _ (normalize_items-id xs d h.2)
    sdk_normalize-id (dict fs) d h =
        raise_if-pass _ _ _ (le→ltb-false _ _ h.0)
        ∙ raise_if-pass _ _ _ (le→ltb-false _ _ h.1)
        ∙ bind-ok _ (normalize_members-id fs [] d h.3 h.2 (Fresh-none (keys fs)))
    sdk_normalize-id (pairs fs) d h = absurd h
    sdk_normalize-id other d h = absurd h

    normalize_items-id : (xs : Items) (d : ℕ) → AreNormal p xs d → normalize_items p xs d ≡ ok xs
    normalize_items-id nil d h = refl
    normalize_items-id (cons x xs) d h =
        bind-ok _ (sdk_normalize-id x (d + 1) h.0) ∙ bind-ok _ (normalize_items-id xs d h.1)

    normalize_members-id :
        (fs : Fields) (seen : List Text) (d : ℕ)
        → FieldsNormal p fs d
        → Distinct fs
        → Fresh seen (keys fs)
        → normalize_members p fs seen d ≡ ok fs
    normalize_members-id end seen d h u f = refl
    normalize_members-id (field k v fs) seen d h u f =
        bind-ok _ (nfc-eq k ∙ nfc-id p k h.0)
        ∙ raise_if-pass _ _ _ f.0
        ∙ bind-ok _ (sdk_normalize-id v (d + 1) h.1)
        ∙ bind-ok _ (
            normalize_members-id fs (k ∷ seen) d h.2 u.1
              (contains-Fresh p k seen (keys fs) u.0 f.1))
