-- ===== src/Examples/Envelopes.antt =====
-- Envelopes on the small platform.
use qsol_fed.Base.{◌≡◌, ◌↔◌, refl, true, ◌∷◌, ◌++◌, all, replicate}
use qsol_fed.Base.Result.{ok, ◌>>=◌, raise_if, sdk_envelope_input_invalid}
use qsol_fed.Base.Int.{within}
use qsol_fed.Base.Text.{Text, codes, contains, text_eq, text_lt}
use qsol_fed.Base.Utf8.{encode}
use qsol_fed.Json.{Value, null, str, dict, has_key, keys, lookup, remove}
use qsol_fed.Json.Scan.{after}
use qsol_fed.Sdk.Binding.{
  build_unsigned_envelope-validates, Accepted, validate_unsigned_envelope-Accepted,
}
use qsol_fed.Sdk.Capabilities.{Capability, matches_capability-eq_iff}
use qsol_fed.Sdk.Envelope.{
  Spec, spec_fields, spec_valid, read_spec, envelope_fields, zero_id, validate_envelope_spec,
  validate_unsigned_envelope, build_unsigned_envelope,
}
use qsol_fed.Sdk.Fields.{has_exactly, item, is_none, as_dict}
use qsol_fed.Sdk.Identity.{derive_message_id, canonicalize, normalize_input}
use qsol_fed.Sdk.Normalize.{normalize, nfc}
use qsol_fed.Sdk.Patterns.{
  matches_node_id, matches_sha256_ref, matches_timestamp, matches_capability, is_node_id,
  is_sha256_ref, is_timestamp,
}
use qsol_fed.Sdk.Serialize.{serialize}
use qsol_fed.Examples.{toy}

abbrev payload : Value
payload = str (codes "sha256:" ++ replicate 64 b'f')

abbrev hello : Spec
hello = record {
  sender = str (codes "fed:qsol:lab-01");
  recipient = str (codes "fed:qsol:b");
  message_class = str (codes "hello");
  payload_ref = payload;
  provenance_ref = null;
  issued_at = str (codes "2026-08-23T00:00:00Z");
  expires_at = null;
}

hello-valid :
    validate_envelope_spec (dict (spec_fields hello)) sdk_envelope_input_invalid ≡ ok hello
unfolding validate_envelope_spec read_spec spec_valid as_dict has_exactly has_key keys contains all
    item lookup is_node_id is_sha256_ref is_timestamp is_none matches_node_id matches_sha256_ref
    matches_timestamp after ◌>>=◌ raise_if text_eq
hello-valid = refl

abbrev hello_id : Text
hello_id = codes "sha256:" ++ b'1' ∷ replicate 63 b'0'

hello-derive : derive_message_id toy (envelope_fields (str zero_id) hello) ≡ ok hello_id
unfolding derive_message_id has_key remove canonicalize normalize_input encode ◌>>=◌ raise_if
    serialize normalize contains nfc within text_eq text_lt
hello-derive = refl

build_unsigned_envelope-validates_example :
    (build_unsigned_envelope toy (dict (spec_fields hello))
      ≡ ok (dict (envelope_fields (str hello_id) hello)))
    × (validate_unsigned_envelope toy (dict (envelope_fields (str hello_id) hello)) ≡ ok tt)
build_unsigned_envelope-validates_example =
    build_unsigned_envelope-validates toy (dict (spec_fields hello)) hello hello_id hello-valid
      hello-derive

hello-accepted :
    validate_unsigned_envelope toy (dict (envelope_fields (str hello_id) hello)) ≡ ok tt
hello-accepted =
    (build_unsigned_envelope-validates toy (dict (spec_fields hello)) hello hello_id hello-valid
      hello-derive).1

validate_unsigned_envelope-Accepted_example : Accepted toy (envelope_fields (str hello_id) hello)
validate_unsigned_envelope-Accepted_example =
    validate_unsigned_envelope-Accepted toy (envelope_fields (str hello_id) hello) hello-accepted

matches_capability-eq_iff_example :
    (matches_capability (codes "evidence.exchange/1") ≡ true)
    ↔ Capability (codes "evidence.exchange/1")
matches_capability-eq_iff_example = matches_capability-eq_iff (codes "evidence.exchange/1")
