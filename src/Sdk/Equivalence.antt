-- ===== src/Sdk/Equivalence.antt =====
-- The SDK's `parse` and `canonicalize` against those of tools/qsol_canonical.py.
use qsol_fed.Base.{
  ℕ, ◌+◌, ◌≤◌, ltb-false→le, ◌≡◌, refl, sym, ◌∙◌, List, [], ◌∷◌, length, ltb, le→ltb-false,
}
use qsol_fed.Base.Result.{
  Result, ok, err, ◌>>=◌, ◌>>◌, raise_if, output_too_large, Returns, Returns-bind, Returns-guard,
  Returns-ok,
}
use qsol_fed.Base.Text.{Text}
use qsol_fed.Base.Utf8.{encode}
use qsol_fed.Platform.{Platform}
use qsol_fed.Json.{
  Value, Items, Fields, null, bool, int, str, arr, dict, pairs, other, nil, cons, end, field,
}
use qsol_fed.Json.Loads.{loads}
use qsol_fed.Json.Loaded.{Loaded, ItemsLoaded, FieldsLoaded, loads-Loaded}
use qsol_fed.Canonical.Normalize
use qsol_fed.Canonical.Serialize
use qsol_fed.Canonical.Identity
use qsol_fed.Canonical.Form.{IsNormal}
use qsol_fed.Canonical.Complete.{bind-ok, raise_if-pass}
use qsol_fed.Canonical.RoundTrip.{parse-IsNormal, canonicalize_idem, serialize-eq_iff}
use qsol_fed.Canonical.Arrange.{arrange}
use qsol_fed.Sdk.Normalize.{normalize, normalize_pairs, normalize_items}
use qsol_fed.Sdk.Identity.{
  parse, normalize_input, canonicalize, object_id, text, value, max_input_bytes,
}
use qsol_fed.Sdk.Sound.{nfc-eq, sdk_normalize-id}
use qsol_fed.Sdk.Agreement.{sdk_serialize-eq}

-- Two computations agree when they agree on whatever their first step returns.
bind-cong :
    {A B : Type 0} (m : Result A) {f g : A → Result B}
    → ((a : A) → m ≡ ok a → f a ≡ g a)
    → (m >>= f) ≡ (m >>= g)
unfolding ◌>>=◌
bind-cong (ok a) h = h a refl
bind-cong (err e) h = refl

bind_assoc :
    {A B C : Type 0} (m : Result A) (f : A → Result B) (g : B → Result C)
    → ((m >>= f) >>= g) ≡ (m >>= λ a. f a >>= g)
unfolding ◌>>=◌
bind_assoc (ok a) f g = refl
bind_assoc (err e) f g = refl

module _ (p : Platform) where
  mutual
    unfolding normalize Normalize.normalize Loaded

    normalize-eq : (v : Value) (d : ℕ) → Loaded v → normalize p v d ≡ Normalize.normalize p v d
    normalize-eq null d l = refl
    normalize-eq (bool b) d l = refl
    normalize-eq (int n) d l = refl
    normalize-eq (str s) d l = rw (nfc-eq p s)
    normalize-eq (arr xs) d l = rw (normalize_items-eq xs d l)
    normalize-eq (pairs fs) d l = rw (normalize_pairs-eq fs [] [] d l)
    normalize-eq (dict fs) d l = absurd l
    normalize-eq other d l = absurd l

    normalize_items-eq :
        (xs : Items) (d : ℕ)
        → ItemsLoaded xs
        → normalize_items p xs d ≡ Normalize.normalize_items p xs d
    normalize_items-eq nil d l = refl
    normalize_items-eq (cons x xs) d l =
        rw (normalize-eq x (d + 1) l.0, normalize_items-eq xs d l.1)

    normalize_pairs-eq :
        (fs : Fields) (raws seen : List Text) (d : ℕ)
        → FieldsLoaded fs
        → normalize_pairs p fs raws seen d ≡ Normalize.normalize_pairs p fs raws seen d
    normalize_pairs-eq end raws seen d l = refl
    normalize_pairs-eq (field k v fs) raws seen d l = bind-cong _ λ _ _. rw (nfc-eq p k) (
        bind-cong _ λ key e. bind-cong _ λ _ _.
          rw (normalize-eq v (d + 1) l.0)
            (bind-cong _ λ w ew. rw (normalize_pairs-eq fs (k ∷ raws) (key ∷ seen) d l.1)))

  -- `parse` of the SDK and `parse` of the canonical module agree on every text: they return the
  -- same value or raise the same error.
  pub sdk_parse-eq : (raw : Text) → parse p raw ≡ Identity.parse p raw
  unfolding parse Identity.parse
  sdk_parse-eq raw = bind-cong (encode raw) λ encoded _. bind-cong _ λ _ _.
      bind-cong _ λ _ _. bind-cong (loads raw) λ v e. normalize-eq v 1 ((loads-Loaded raw).at v e)

  -- The SDK's `canonicalize` of a text is the canonical module's, with one more test: bytes over the
  -- output limit are refused.
  pub sdk_canonicalize-eq :
      (raw : Text)
      → canonicalize p (text raw) ≡ (
          Identity.canonicalize p raw >>= λ bytes.
          raise_if (ltb max_input_bytes (length bytes)) output_too_large >> ok bytes)
  unfolding canonicalize normalize_input Identity.canonicalize
  sdk_canonicalize-eq raw = rw (sdk_parse-eq raw) (
      bind-cong (Identity.parse p raw) (λ v e.
        rw (sdk_serialize-eq p v (parse-IsNormal p raw v e))
          (sym (bind_assoc (Serialize.serialize p v) _ _)))
      ∙ sym (bind_assoc (Identity.parse p raw) _ _))

  output-fits :
      (m : Result (List ℕ))
      → Returns
          (λ bytes. (m ≡ ok bytes) × (length bytes ≤ max_input_bytes))
          (m >>= λ out. raise_if (ltb max_input_bytes (length out)) output_too_large >> ok out)
  output-fits m =
      Returns-bind m λ out e. Returns-guard _ _ λ h. Returns-ok out (e, ltb-false→le _ _ h)

  -- The SDK's canonical bytes are a fixed point: whatever `canonicalize` returns for a text is the
  -- encoding of a text that `canonicalize` maps to the same bytes.
  pub sdk_canonicalize_idem :
      (raw : Text) (bytes : List ℕ)
      → canonicalize p (text raw) ≡ ok bytes
      → (t : Text) × (encode t ≡ ok bytes) × (canonicalize p (text t) ≡ ok bytes)
  sdk_canonicalize_idem raw bytes h =
      let (made, fits) =
        (output-fits (Identity.canonicalize p raw)).at bytes (sym (sdk_canonicalize-eq raw) ∙ h) in
      let (t, e, again) = canonicalize_idem p raw bytes made fits in
      (t, e, sdk_canonicalize-eq t ∙ bind-ok _ again ∙ raise_if-pass _ _ _ (le→ltb-false _ _ fits))

  canonicalize-value :
      (v : Value)
      → IsNormal p v 1
      → canonicalize p (value v) ≡ (
          Serialize.serialize p v >>= λ t. encode t >>= λ out.
          raise_if (ltb max_input_bytes (length out)) output_too_large >> ok out)
  unfolding canonicalize normalize_input
  canonicalize-value v h = bind-ok _ (sdk_normalize-id p v 1 h) ∙ rw (sdk_serialize-eq p v h)

  -- Two values of the profile that are the same once the keys of every object are in order have the
  -- same object identifier in the SDK, or fail with the same error.
  pub sdk_object_id-arrange :
      (v w : Value)
      → IsNormal p v 1
      → IsNormal p w 1
      → arrange v ≡ arrange w
      → object_id p (value v) ≡ object_id p (value w)
  unfolding object_id
  sdk_object_id-arrange v w hv hw same =
      rw (canonicalize-value v hv, canonicalize-value w hw, (serialize-eq_iff p v w 1 hv hw).1 same)
