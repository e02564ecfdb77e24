-- ===== src/Sdk/Envelope.antt =====
-- sdk/python/qsol_fed_sdk.py: unsigned envelopes. The builder fills in the message identifier and
-- validates the envelope that results.
use qsol_fed.Base.{Bool, ◌&&◌, ◌||◌, not, List, [], ◌∷◌, ◌++◌, replicate}
use qsol_fed.Base.Result.{
  Error, Result, ok, err, ◌>>=◌, ◌>>◌, raise_if, sdk_envelope_input_invalid, sdk_envelope_invalid,
}
use qsol_fed.Base.Text.{Text, codes, contains}
use qsol_fed.Platform.{Platform}
use qsol_fed.Json.{Value, Fields, null, str, dict, end, field}
use qsol_fed.Sdk.Identity.{wire_protocol, derive_message_id, message_id_key, signature_key}
use qsol_fed.Sdk.Patterns.{is_node_id, is_sha256_ref, is_timestamp, is_text_that}
use qsol_fed.Sdk.Fields.{has_exactly, item, is_literal, is_none, as_dict, require}

abbrev pub message_classes : List Text
message_classes =
    codes "hello"
    ∷ codes "capabilities"
    ∷ codes "evidence.offer"
    ∷ codes "evidence.request"
    ∷ codes "hypothesis"
    ∷ codes "challenge"
    ∷ codes "response"
    ∷ codes "council.report"
    ∷ codes "minority.report"
    ∷ codes "experiment.receipt"
    ∷ codes "citation"
    ∷ codes "publication"
    ∷ []

abbrev pub spec_keys : List Text
spec_keys =
    codes "sender"
    ∷ codes "recipient"
    ∷ codes "message_class"
    ∷ codes "payload_ref"
    ∷ codes "provenance_ref"
    ∷ codes "issued_at"
    ∷ codes "expires_at"
    ∷ []

abbrev pub envelope_keys : List Text
envelope_keys =
    codes "protocol"
    ∷ message_id_key
    ∷ codes "sender"
    ∷ codes "recipient"
    ∷ codes "message_class"
    ∷ codes "payload_ref"
    ∷ codes "provenance_ref"
    ∷ codes "issued_at"
    ∷ codes "expires_at"
    ∷ codes "authority_claim"
    ∷ signature_key
    ∷ []

-- The seven fields that the sender chooses.
pub record Spec : Type 0 where
  pub sender : Value
  pub recipient : Value
  pub message_class : Value
  pub payload_ref : Value
  pub provenance_ref : Value
  pub issued_at : Value
  pub expires_at : Value

-- `{key: d[key] for key in (…)}`
unfoldable pub read_spec : Fields → Result Spec
unfolding item
read_spec fs = do
  sender ← item (codes "sender") fs
  recipient ← item (codes "recipient") fs
  message_class ← item (codes "message_class") fs
  payload_ref ← item (codes "payload_ref") fs
  provenance_ref ← item (codes "provenance_ref") fs
  issued_at ← item (codes "issued_at") fs
  expires_at ← item (codes "expires_at") fs
  ok (record {
    sender = sender;
    recipient = recipient;
    message_class = message_class;
    payload_ref = payload_ref;
    provenance_ref = provenance_ref;
    issued_at = issued_at;
    expires_at = expires_at;
  })

-- the tests of `_validate_envelope_spec` on the seven values
unfoldable pub spec_valid : Spec → Bool
unfolding is_node_id contains is_sha256_ref is_none is_timestamp
spec_valid s =
    is_node_id s.sender
    && is_node_id s.recipient
    && is_text_that (contains message_classes) s.message_class
    && is_sha256_ref s.payload_ref
    && (is_none s.provenance_ref || is_sha256_ref s.provenance_ref)
    && is_timestamp s.issued_at
    && (is_none s.expires_at || is_timestamp s.expires_at)

-- `_validate_envelope_spec` on a value; it returns what it read
unfoldable pub validate_envelope_spec : Value → Error → Result Spec
unfolding as_dict has_exactly read_spec spec_valid
validate_envelope_spec value error = do
  fs ← require (as_dict value) (err error)
  raise_if (not (has_exactly spec_keys fs)) error
  spec ← read_spec fs
  raise_if (not (spec_valid spec)) error
  ok spec

-- The dictionary of an unsigned envelope.
abbrev pub envelope_fields : Value → Spec → Fields
envelope_fields message_id s = field (codes "protocol") (str wire_protocol) (
    field message_id_key message_id (
      field (codes "sender") s.sender (
        field (codes "recipient") s.recipient (
          field (codes "message_class") s.message_class (
            field (codes "payload_ref") s.payload_ref (
              field (codes "provenance_ref") s.provenance_ref (
                field (codes "issued_at") s.issued_at (
                  field (codes "expires_at") s.expires_at (
                    field (codes "authority_claim") (str (codes "none"))
                      (field signature_key null end))))))))))

abbrev pub spec_fields : Spec → Fields
spec_fields s = field (codes "sender") s.sender (
    field (codes "recipient") s.recipient (
      field (codes "message_class") s.message_class (
        field (codes "payload_ref") s.payload_ref (
          field (codes "provenance_ref") s.provenance_ref (
            field (codes "issued_at") s.issued_at (field (codes "expires_at") s.expires_at end))))))

-- the identifier that stands in the envelope while its own is derived
abbrev pub zero_id : Text
zero_id = codes "sha256:" ++ replicate 64 b'0'

module _ (p : Platform) where
  unfoldable pub validate_unsigned_envelope : Value → Result (Unit {0})
  unfolding as_dict has_exactly item is_literal is_none read_spec validate_envelope_spec
      is_sha256_ref derive_message_id
  validate_unsigned_envelope envelope = do
    fs ← require (as_dict envelope) (err sdk_envelope_invalid)
    raise_if (not (has_exactly envelope_keys fs)) sdk_envelope_invalid
    protocol ← item (codes "protocol") fs
    raise_if (not (is_literal wire_protocol protocol)) sdk_envelope_invalid
    authority_claim ← item (codes "authority_claim") fs
    raise_if (not (is_literal (codes "none") authority_claim)) sdk_envelope_invalid
    signature ← item signature_key fs
    raise_if (not (is_none signature)) sdk_envelope_invalid
    spec ← read_spec fs
    validate_envelope_spec (dict (spec_fields spec)) sdk_envelope_invalid
    message_id ← item message_id_key fs
    raise_if (not (is_sha256_ref message_id)) sdk_envelope_invalid
    derived ← derive_message_id p fs
    raise_if (not (is_literal derived message_id)) sdk_envelope_invalid
    ok tt

  unfoldable pub build_unsigned_envelope : Value → Result Value
  unfolding validate_envelope_spec derive_message_id validate_unsigned_envelope
  build_unsigned_envelope value = do
    spec ← validate_envelope_spec value sdk_envelope_input_invalid
    message_id ← derive_message_id p (envelope_fields (str zero_id) spec)
    let envelope = dict (envelope_fields (str message_id) spec)
    validate_unsigned_envelope envelope
    ok envelope
