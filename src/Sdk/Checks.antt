-- ===== src/Sdk/Checks.antt =====
-- What the SDK's tests on members and envelope fields say when they pass.
use qsol_fed.Base.{◌≡◌, refl, ap, ◌∙◌, Bool, true, false, not, arith, all, some}
use qsol_fed.Base.Result.{
  ok, ◌>>=◌, raise_if, sdk_envelope_input_invalid, sdk_envelope_invalid, Returns, Returns-bind,
  Returns-guard, Returns-ok,
}
use qsol_fed.Base.Text.{Text, contains, text_eq_iff}
use qsol_fed.Json.{
  Value, Fields, null, bool, int, str, arr, dict, pairs, other, keys, lookup, has_key,
}
use qsol_fed.Sdk.Fields.{has_exactly, item, is_literal, is_none, as_dict}
use qsol_fed.Sdk.Envelope.{
  Spec, read_spec, spec_valid, validate_envelope_spec, envelope_fields, spec_fields,
}

pub not-eq-false : (b : Bool) → not b ≡ false → b ≡ true
not-eq-false true h = refl
not-eq-false false h = cc

pub read_spec-spec_fields : (s : Spec) → read_spec (spec_fields s) ≡ ok s
unfolding read_spec item lookup ◌>>=◌
read_spec-spec_fields s = refl

pub read_spec-envelope : (m : Value) (s : Spec) → read_spec (envelope_fields m s) ≡ ok s
unfolding read_spec item lookup ◌>>=◌
read_spec-envelope m s = refl

pub spec-checks :
    (v : Value)
    → Returns (λ s. spec_valid s ≡ true) (validate_envelope_spec v sdk_envelope_input_invalid)
unfolding validate_envelope_spec
spec-checks v = Returns-bind _ λ fs _.
    Returns-guard _ _
      λ _. Returns-bind _ λ s _. Returns-guard _ _ λ h. Returns-ok s (not-eq-false _ h)

-- what the envelope validator asks of the seven fields was asked before
pub validate_envelope_spec-fields :
    (s : Spec)
    → spec_valid s ≡ true
    → validate_envelope_spec (dict (spec_fields s)) sdk_envelope_invalid ≡ ok s
unfolding validate_envelope_spec as_dict has_exactly has_key keys contains all ◌>>=◌ raise_if
validate_envelope_spec-fields s h = rw (read_spec-spec_fields s, h)

pub spec-checked :
    (s : Spec)
    → Returns
        (λ _. spec_valid s ≡ true)
        (validate_envelope_spec (dict (spec_fields s)) sdk_envelope_invalid)
unfolding validate_envelope_spec as_dict
spec-checked s = Returns-bind _ λ fs same. Returns-guard _ _ λ _. Returns-bind _ λ read e.
    Returns-guard _ _
      λ h. Returns-ok read (ap spec_valid (the_same fs same read e) ∙ not-eq-false _ h)
  where
    the_same :
        (fs : Fields)
        → ok (spec_fields s) ≡ ok fs
        → (read : Spec) → read_spec fs ≡ ok read
        → s ≡ read
    the_same fs same read e = let original = read_spec-spec_fields s in cc

pub item-lookup : (k : Text) (fs : Fields) (v : Value) → item k fs ≡ ok v → lookup k fs ≡ some v
unfolding item
item-lookup k fs v h = ground (arith, h)

pub is_literal-eq : (t : Text) (v : Value) → not (is_literal t v) ≡ false → v ≡ str t
unfolding is_literal
is_literal-eq t (str s) h = ap str ((text_eq_iff s t).0 (ground arith))
is_literal-eq t null h = cc
is_literal-eq t (bool b) h = cc
is_literal-eq t (int n) h = cc
is_literal-eq t (arr xs) h = cc
is_literal-eq t (dict fs) h = cc
is_literal-eq t (pairs fs) h = cc
is_literal-eq t other h = cc

pub is_none-eq : (v : Value) → not (is_none v) ≡ false → v ≡ null
unfolding is_none
is_none-eq null h = refl
is_none-eq (str s) h = cc
is_none-eq (bool b) h = cc
is_none-eq (int n) h = cc
is_none-eq (arr xs) h = cc
is_none-eq (dict fs) h = cc
is_none-eq (pairs fs) h = cc
is_none-eq other h = cc
