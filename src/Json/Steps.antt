-- ===== src/Json/Steps.antt =====
-- The scanner of `json.loads`, one equation for each way that a call goes on.
use qsol_fed.Base.{ℕ, suc, ◌≡◌, refl, ◌∙◌, true, false, [], ◌∷◌, ◌==◌, none, if◌then◌else◌}
use qsol_fed.Base.Result.{ok, err, ◌>>=◌, malformed_json}
use qsol_fed.Base.Text.{Text, codes}
use qsol_fed.Json.{Value, Items, Fields, str, arr, pairs, nil, cons, end, field}
use qsol_fed.Json.Scan.{skip_space, scan_string, after}
use qsol_fed.Json.Loads.{
  on_head, number, expect, scan_atom, scan_value, scan_array, scan_items, scan_object, scan_members,
}

pub scan_atom-minus :
    (s : Text) → after (codes "Infinity") s ≡ none → scan_atom b'-' s ≡ number true s
unfolding scan_atom
scan_atom-minus s h = rw h

pub after-none : (c d : ℕ) (w s : Text) → (c == d) ≡ false → after (c ∷ w) (d ∷ s) ≡ none
unfolding after
after-none c d w s h = rw (h, after)

-- The body of each scanner, its calls shut.
module _ (f : ℕ) (s : Text) where
  pub scan_value-body :
      (c : ℕ)
      → scan_value (suc f) (c ∷ s) ≡ (
          if c == b'"'
          then (scan_string s >>= λ (t, more). ok (str t, more))
          else if c == b'{'
          then (scan_object f (skip_space s) >>= λ (fs, more). ok (pairs fs, more))
          else if c == b'['
          then (scan_array f (skip_space s) >>= λ (xs, more). ok (arr xs, more))
          else scan_atom c s)
  unfolding scan_value
  scan_value-body c = refl

  pub scan_array-body :
      (c : ℕ)
      → scan_array (suc f) (c ∷ s) ≡ (if c == b']' then ok (nil, s) else scan_items f (c ∷ s))
  unfolding scan_value
  scan_array-body c = refl

  pub scan_object-body :
      (c : ℕ)
      → scan_object (suc f) (c ∷ s) ≡ (if c == b'}' then ok (end, s) else scan_members f (c ∷ s))
  unfolding scan_value
  scan_object-body c = refl

  pub scan_items-body : scan_items (suc f) s ≡ (
      scan_value f s >>= λ (v, more). on_head (skip_space more) λ c rest.
        if c == b','
        then (scan_items f (skip_space rest) >>= λ (xs, tail). ok (cons v xs, tail))
        else if c == b']'
        then ok (cons v nil, rest)
        else err malformed_json)
  unfolding scan_value
  scan_items-body = refl

  pub scan_members-body : scan_members (suc f) s ≡ (
      expect b'"' s >>= λ quoted. scan_string quoted >>= λ (k, behind_key).
      expect b':' (skip_space behind_key) >>= λ behind_colon.
      scan_value f (skip_space behind_colon) >>= λ (v, more). on_head (skip_space more) λ c rest.
        if c == b','
        then (scan_members f (skip_space rest) >>= λ (fs, tail). ok (field k v fs, tail))
        else if c == b'}'
        then ok (field k v end, rest)
        else err malformed_json)
  unfolding scan_value
  scan_members-body = refl

  pub scan_value-atom :
      (c : ℕ)
      → (c == b'"') ≡ false
      → (c == b'{') ≡ false
      → (c == b'[') ≡ false
      → scan_value (suc f) (c ∷ s) ≡ scan_atom c s
  scan_value-atom c h k l = scan_value-body c ∙ rw (h, k, l)

  pub scan_value-string :
      {t more : Text}
      → scan_string s ≡ ok (t, more)
      → scan_value (suc f) (b'"' ∷ s) ≡ ok (str t, more)
  scan_value-string h = scan_value-body b'"' ∙ rw h (unfold ◌>>=◌ in refl)

  pub scan_value-array :
      {xs : Items} {more : Text}
      → scan_array f (skip_space s) ≡ ok (xs, more)
      → scan_value (suc f) (b'[' ∷ s) ≡ ok (arr xs, more)
  scan_value-array h = scan_value-body b'[' ∙ rw h (unfold ◌>>=◌ in refl)

  pub scan_value-object :
      {fs : Fields} {more : Text}
      → scan_object f (skip_space s) ≡ ok (fs, more)
      → scan_value (suc f) (b'{' ∷ s) ≡ ok (pairs fs, more)
  scan_value-object h = scan_value-body b'{' ∙ rw h (unfold ◌>>=◌ in refl)

  pub scan_items-close :
      {v : Value} {more : Text}
      → scan_value f s ≡ ok (v, b']' ∷ more)
      → scan_items (suc f) s ≡ ok (cons v nil, more)
  scan_items-close h = scan_items-body ∙ rw h (unfold ◌>>=◌ skip_space in refl)

  pub scan_items-comma :
      {v : Value} {more rest : Text} {xs : Items}
      → scan_value f s ≡ ok (v, b',' ∷ more)
      → scan_items f (skip_space more) ≡ ok (xs, rest)
      → scan_items (suc f) s ≡ ok (cons v xs, rest)
  scan_items-comma h k = scan_items-body ∙ rw h (unfold ◌>>=◌ skip_space in rw k)

-- `"key":` at the head of the input
module _ (f : ℕ) (s behind_colon : Text) (k : Text)
    (key : scan_string s ≡ ok (k, b':' ∷ behind_colon)) where
  pub scan_members-close :
      {v : Value} {more : Text}
      → scan_value f (skip_space behind_colon) ≡ ok (v, b'}' ∷ more)
      → scan_members (suc f) (b'"' ∷ s) ≡ ok (field k v end, more)
  scan_members-close h =
      scan_members-body f (b'"' ∷ s) ∙ (unfold ◌>>=◌ expect in rw key (unfold skip_space in rw h))

  pub scan_members-comma :
      {v : Value} {more rest : Text} {fs : Fields}
      → scan_value f (skip_space behind_colon) ≡ ok (v, b',' ∷ more)
      → scan_members f (skip_space more) ≡ ok (fs, rest)
      → scan_members (suc f) (b'"' ∷ s) ≡ ok (field k v fs, rest)
  scan_members-comma h l =
      scan_members-body f (b'"' ∷ s)
      ∙ (unfold ◌>>=◌ expect in rw key (unfold skip_space in rw (h, l)))

-- The end of the input.
module _ (f : ℕ) where
  pub scan_value-nil : scan_value (suc f) [] ≡ err malformed_json
  unfolding scan_value
  scan_value-nil = refl

  pub scan_array-nil : scan_array (suc f) [] ≡ err malformed_json
  unfolding scan_value
  scan_array-nil = refl

  pub scan_object-nil : scan_object (suc f) [] ≡ err malformed_json
  unfolding scan_value
  scan_object-nil = refl
