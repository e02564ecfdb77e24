-- ===== src/Canonical/RoundTrip.antt =====
-- Canonical text is read back, and making canonical text canonical again changes nothing.
use qsol_fed.Base.{
  ℕ, ◌≤◌, ◌≡◌, refl, ap, sym, ◌↔◌, ◌∙◌, true, false, List, [], ◌∷◌, arith, ltb, le→ltb-false,
  length,
}
use qsol_fed.Base.Result.{ok, >>=-eq-ok, raise_if, input_too_large, utf8_bom_forbidden}
use qsol_fed.Base.Text.{Text}
use qsol_fed.Base.Utf8.{encode, encode_chars, encode_char}
use qsol_fed.Platform.{Platform}
use qsol_fed.Json.{Value}
use qsol_fed.Json.Print.{print, unloaded}
use qsol_fed.Json.Loads.{loads}
use qsol_fed.Json.RoundTrip.{loads-print, print_head}
use qsol_fed.Canonical.Serialize.{serialize}
use qsol_fed.Canonical.Identity.{parse, canonicalize, max_input_bytes, has_bom}
use qsol_fed.Canonical.Form.{IsNormal}
use qsol_fed.Canonical.Sound.{normalize-IsNormal}
use qsol_fed.Canonical.Complete.{normalize-id, serialize-print, bind-ok, raise_if-pass}
use qsol_fed.Canonical.Arrange.{arrange, arrange-InOrder}
use qsol_fed.Canonical.Preserved.{arrange-IsNormal, serialize-arrange, IsNormal-Plain}

has_bom-first : (c : ℕ) (bytes : List ℕ) → ltb c 0x80 ≡ true → has_bom (c ∷ bytes) ≡ false
has_bom-first c [] h = refl
has_bom-first c (b ∷ []) h = refl
has_bom-first c (b ∷ a ∷ bytes) h = ground arith

has_bom-ascii : (c : ℕ) (s : Text) → ltb c 0x80 ≡ true → has_bom (encode_chars (c ∷ s)) ≡ false
unfolding encode_chars
has_bom-ascii c s h = rw (h, encode_char) (has_bom-first c (encode_chars s) h)

encode-chars : (t : Text) {bytes : List ℕ} → encode t ≡ ok bytes → bytes ≡ encode_chars t
unfolding encode
encode-chars t h = ground arith

module _ (p : Platform) where
  -- the canonical text of a profile value is that of the value with its keys in order
  serialize-eq-print :
      (v : Value) (d : ℕ) {t : Text} → IsNormal p v d → serialize p v ≡ ok t → t ≡ print (arrange v)
  serialize-eq-print v d n h =
      let printed =
        serialize-print p (arrange v) d (arrange-IsNormal p v d n) (arrange-InOrder v) in
      let arranged = serialize-arrange p v in cc

  -- What `parse` returns is in the profile.
  pub parse-IsNormal : (raw : Text) (v : Value) → parse p raw ≡ ok v → IsNormal p v 1
  unfolding parse
  parse-IsNormal raw v h =
      let (encoded, _, h₁) = >>=-eq-ok (encode raw) _ h in
      let (_, _, h₂) =
        >>=-eq-ok (raise_if (ltb max_input_bytes (length encoded)) input_too_large) _ h₁ in
      let (_, _, h₃) = >>=-eq-ok (raise_if (has_bom encoded) utf8_bom_forbidden) _ h₂ in
      let (parsed, _, h₄) = >>=-eq-ok (loads raw) _ h₃ in normalize-IsNormal p parsed 1 h₄

  canonicalize-parts :
      (raw : Text) (bytes : List ℕ)
      → canonicalize p raw ≡ ok bytes
      → (v : Value) × (t : Text) × IsNormal p v 1 × (serialize p v ≡ ok t) × (encode t ≡ ok bytes)
  unfolding canonicalize
  canonicalize-parts raw bytes h =
      let (v, parsed, rest) = >>=-eq-ok (parse p raw) _ h in
      let (t, s, e) = >>=-eq-ok (serialize p v) _ rest in (v, t, parse-IsNormal raw v parsed, s, e)

  canonicalize-from :
      (t : Text) (v : Value) (bytes : List ℕ)
      → parse p t ≡ ok v
      → serialize p v ≡ ok t
      → encode t ≡ ok bytes
      → canonicalize p t ≡ ok bytes
  unfolding canonicalize
  canonicalize-from t v bytes q s e = bind-ok _ q ∙ bind-ok _ s ∙ e

  -- The canonical text of a value in the profile parses to that value with the keys of every object
  -- in order, provided that its encoding is within the input limit.
  pub parse-serialize :
      (v : Value) (t : Text) (bytes : List ℕ)
      → IsNormal p v 1
      → serialize p v ≡ ok t
      → encode t ≡ ok bytes
      → length bytes ≤ max_input_bytes
      → parse p t ≡ ok (arrange v)
  unfolding parse
  parse-serialize v t bytes n s e fits =
      let plain = IsNormal-Plain p (arrange v) 1 (arrange-IsNormal p v 1 n) in
      let text : t ≡ print (arrange v) = serialize-eq-print v 1 n s in
      let (c, more, split, ascii) = print_head (arrange v) plain in
      let bom : has_bom bytes ≡ false =
        rw (encode-chars t e, text, split) (has_bom-ascii c more ascii) in
      let loaded : loads t ≡ ok (unloaded (arrange v)) = rw text (loads-print (arrange v) plain) in
      bind-ok _ e
      ∙ raise_if-pass _ _ _ (le→ltb-false _ _ fits)
      ∙ raise_if-pass _ _ _ bom
      ∙ bind-ok _ loaded
      ∙ normalize-id p (arrange v) 1 (arrange-IsNormal p v 1 n)

  -- Canonical bytes within the input limit are a fixed point: the text that they encode is
  -- canonicalized to the same bytes.
  pub canonicalize_idem :
      (raw : Text) (bytes : List ℕ)
      → canonicalize p raw ≡ ok bytes
      → length bytes ≤ max_input_bytes
      → (t : Text) × (encode t ≡ ok bytes) × (canonicalize p t ≡ ok bytes)
  canonicalize_idem raw bytes h fits =
      let (v, t, n, s, e) = canonicalize-parts raw bytes h in
      let again = serialize-arrange p v in
      (t, e, canonicalize-from t (arrange v) bytes (parse-serialize v t bytes n s e fits) (cc) e)

  -- Two values of the profile (at one depth) have the same result of `serialize` exactly when they
  -- differ at most in the order of their keys, at any depth.
  pub serialize-eq_iff :
      (v w : Value) (d : ℕ)
      → IsNormal p v d
      → IsNormal p w d
      → (serialize p v ≡ serialize p w) ↔ (arrange v ≡ arrange w)
  serialize-eq_iff v w d n m =
      let from_v = serialize-print p (arrange v) d (arrange-IsNormal p v d n) (arrange-InOrder v) in
      let from_w = serialize-print p (arrange w) d (arrange-IsNormal p w d m) (arrange-InOrder w) in
      let loads_v =
        loads-print (arrange v) (IsNormal-Plain p (arrange v) d (arrange-IsNormal p v d n)) in
      let loads_w =
        loads-print (arrange w) (IsNormal-Plain p (arrange w) d (arrange-IsNormal p w d m)) in
      let id_v = normalize-id p (arrange v) d (arrange-IsNormal p v d n) in
      let id_w = normalize-id p (arrange w) d (arrange-IsNormal p w d m) in
      let arranged_v = serialize-arrange p v in
      let arranged_w = serialize-arrange p w in
      (λ h. cc, λ h. sym arranged_v ∙ ap (serialize p) h ∙ arranged_w)
