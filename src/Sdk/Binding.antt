-- ===== src/Sdk/Binding.antt =====
-- The message identifier of an SDK envelope, and what the envelope validator accepts.
use qsol_fed.Base.{ℕ, ◌≡◌, refl, ap, ◌∙◌, true, List, ◌++◌, arith, all, some, if◌then◌else◌}
use mathlib.Core.Path.{subst}
use qsol_fed.Base.Result.{
  ok, err, ◌>>=◌, raise_if, sdk_envelope_input_invalid, sdk_envelope_invalid, Returns, Returns-bind,
  Returns-guard, Returns-ok,
}
use qsol_fed.Base.Text.{Text, codes, contains, text_eq, text_eq_refl}
use qsol_fed.Platform.{Platform}
use qsol_fed.Json.{Value, Fields, null, str, dict, keys, end, field, lookup, has_key, remove}
use qsol_fed.Json.Scan.{after}
use qsol_fed.Canonical.Complete.{bind-ok}
use qsol_fed.Sdk.Identity.{
  wire_protocol, derive_message_id, message_id_key, signature_key, message_id_domain,
}
use qsol_fed.Sdk.Patterns.{is_sha256_ref, matches_sha256_ref}
use qsol_fed.Sdk.Fields.{has_exactly, item, is_literal, is_none, as_dict, require}
use qsol_fed.Sdk.Envelope.{
  Spec, read_spec, spec_valid, validate_envelope_spec, envelope_fields, spec_fields,
  validate_unsigned_envelope, zero_id, build_unsigned_envelope,
}
use qsol_fed.Sdk.Checks.{
  is_literal-eq, is_none-eq, item-lookup, read_spec-envelope, spec-checked, spec-checks,
  validate_envelope_spec-fields,
}

-- `d[key] = value`
unfoldable pub assign : Text → Value → Fields → Fields
unfolding text_eq
assign k v end = field k v end
assign k v (field j w fs) = if text_eq j k then field j v fs else field j w (assign k v fs)

pub has_key-assign :
    (i k : Text) (v : Value) (fs : Fields)
    → has_key k fs ≡ true
    → has_key i (assign k v fs) ≡ has_key i fs
unfolding assign has_key
has_key-assign i k v end h = cc
has_key-assign i k v (field j w fs) h = ground (arith, has_key-assign i k v fs)

module _ (p : Platform) where
  -- A derived identifier is a well-formed object reference.
  pub derived-matches :
      (bytes : List ℕ) → matches_sha256_ref (codes "sha256:" ++ p.sha256 bytes) ≡ true
  unfolding matches_sha256_ref after
  derived-matches bytes = rw (p.sha256_hex bytes, p.sha256_length bytes)

  derive-Returns :
      (fs : Fields) → Returns (λ id. matches_sha256_ref id ≡ true) (derive_message_id p fs)
  unfolding derive_message_id
  derive-Returns fs =
      Returns-guard _ _
        λ _. Returns-bind _ λ output _. Returns-ok _ (derived-matches (message_id_domain ++ output))

  derive-matches :
      (fs : Fields) (id : Text) → derive_message_id p fs ≡ ok id → matches_sha256_ref id ≡ true
  derive-matches fs id h = (derive-Returns fs).at id h

  derive-same_spec :
      (m n : Value) (s : Spec)
      → derive_message_id p (envelope_fields m s) ≡ derive_message_id p (envelope_fields n s)
  unfolding derive_message_id has_key remove
  derive-same_spec m n s = refl

  validate-parts :
      (s : Spec) (id : Text)
      → validate_envelope_spec (dict (spec_fields s)) sdk_envelope_invalid ≡ ok s
      → derive_message_id p (envelope_fields (str id) s) ≡ ok id
      → validate_unsigned_envelope p (dict (envelope_fields (str id) s)) ≡ ok tt
  unfolding validate_unsigned_envelope as_dict has_exactly has_key keys contains all item lookup
      is_literal is_none is_sha256_ref ◌>>=◌ raise_if
  validate-parts s id h d =
      rw (read_spec-envelope (str id) s, h, derive-matches (envelope_fields (str id) s) id d)
        (bind-ok _ d ∙ rw (text_eq_refl id))

  -- The builder never refuses its own envelope: when the seven fields pass their checks and the
  -- identifier of the envelope can be derived, the builder returns the envelope with that identifier,
  -- and the envelope passes the validator.
  pub build_unsigned_envelope-validates :
      (v : Value) (s : Spec) (id : Text)
      → validate_envelope_spec v sdk_envelope_input_invalid ≡ ok s
      → derive_message_id p (envelope_fields (str zero_id) s) ≡ ok id
      → (build_unsigned_envelope p v ≡ ok (dict (envelope_fields (str id) s)))
        × (validate_unsigned_envelope p (dict (envelope_fields (str id) s)) ≡ ok tt)
  unfolding build_unsigned_envelope
  build_unsigned_envelope-validates v s id h d =
      let checked = validate_envelope_spec-fields s ((spec-checks v).at s h) in
      let valid = validate-parts s id checked (derive-same_spec (str id) (str zero_id) s ∙ d) in
      (bind-ok _ h ∙ bind-ok _ d ∙ bind-ok _ valid, valid)

  -- What an accepted envelope satisfies.
  pub record Accepted (fs : Fields) : Type 0 where
    pub protocol : lookup (codes "protocol") fs ≡ some (str wire_protocol)
    pub no_authority : lookup (codes "authority_claim") fs ≡ some (str (codes "none"))
    pub unsigned : lookup signature_key fs ≡ some null
    pub spec : Spec
    pub reads : read_spec fs ≡ ok spec
    pub valid : spec_valid spec ≡ true
    pub id : Text
    pub bound : lookup message_id_key fs ≡ some (str id)
    pub derived : derive_message_id p fs ≡ ok id

  accepts-fields :
      (fs : Fields) → Returns (λ _. Accepted fs) (validate_unsigned_envelope p (dict fs))
  unfolding validate_unsigned_envelope as_dict is_sha256_ref
  accepts-fields fs = Returns-bind _ λ gs same. Returns-guard _ _ λ _. Returns-bind _ λ protocol e₁.
      Returns-guard _ _ λ h₁. Returns-bind _ λ authority e₂. Returns-guard _ _ λ h₂.
        Returns-bind _ λ signature e₃. Returns-guard _ _ λ h₃. Returns-bind _ λ spec e₄.
          Returns-bind _ λ again e₅. Returns-bind _ λ id e₆. Returns-guard _ _ λ _.
            Returns-bind _ λ derived e₇. Returns-guard _ _ λ h₇. Returns-ok tt (
              subst Accepted (the_same gs same) (record {
                protocol = item-lookup _ gs protocol e₁ ∙ ap some (is_literal-eq _ protocol (h₁));
                no_authority =
                    item-lookup _ gs authority e₂ ∙ ap some (is_literal-eq _ authority h₂);
                unsigned = item-lookup _ gs signature e₃ ∙ ap some (is_none-eq signature h₃);
                spec = spec;
                reads = e₄;
                valid = checked spec again e₅;
                id = derived;
                bound = item-lookup _ gs id e₆ ∙ ap some (is_literal-eq derived id h₇);
                derived = e₇;
              }))
    where
      the_same : (gs : Fields) → require (some fs) (err sdk_envelope_invalid) ≡ ok gs → gs ≡ fs
      the_same gs e = cc

      checked :
          (s again : Spec)
          → validate_envelope_spec (dict (spec_fields s)) sdk_envelope_invalid ≡ ok again
          → spec_valid s ≡ true
      checked s again e = (spec-checked s).at again e

  -- An envelope that the validator accepts claims no authority, carries no signature, has seven valid
  -- fields, and its `message_id` is the identifier that is derived from its other fields.
  pub validate_unsigned_envelope-Accepted :
      (fs : Fields) → validate_unsigned_envelope p (dict fs) ≡ ok tt → Accepted fs
  validate_unsigned_envelope-Accepted fs h = (accepts-fields fs).at tt h
