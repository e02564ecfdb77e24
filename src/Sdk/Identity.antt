-- ===== src/Sdk/Identity.antt =====
-- sdk/python/qsol_fed_sdk.py: `parse`, `canonicalize` and the two identifiers.
use qsol_fed.Base.{
  ℕ, Bool, false, ◌==◌, ◌&&◌, not, ◌||◌, List, [], ◌∷◌, ◌++◌, ltb, if◌then◌else◌, length,
}
use qsol_fed.Base.Result.{
  Result, ok, ◌>>=◌, ◌>>◌, raise_if, input_too_large, utf8_bom_forbidden, output_too_large,
  envelope_projection_fields_missing,
}
use qsol_fed.Base.Text.{Text, codes, text_eq}
use qsol_fed.Base.Utf8.{encode, decode}
use qsol_fed.Platform.{Platform}
use qsol_fed.Json.{Value, Fields, dict, has_key, remove}
use qsol_fed.Json.Loads.{loads}
use qsol_fed.Sdk.Normalize.{normalize}
use qsol_fed.Sdk.Serialize.{serialize}

abbrev pub wire_protocol : Text
wire_protocol = codes "qsol-fed/1"

abbrev pub max_input_bytes : ℕ
max_input_bytes = 65536

abbrev pub message_id_domain : List ℕ
message_id_domain = codes "qsol-fed-message-id/1" ++ 0 ∷ []

abbrev pub message_id_key : Text
message_id_key = codes "message_id"

abbrev pub signature_key : Text
signature_key = codes "signature"

-- `encoded.startswith(b"\xef\xbb\xbf")`
abbrev pub has_bom : List ℕ → Bool
has_bom (a ∷ b ∷ c ∷ _) = a == 0xEF && b == 0xBB && c == 0xBF
has_bom _ = false

-- What `canonicalize` is given: `bytes`, a `str`, or any other value.
pub data Input : Type 0 where
  bytes : List ℕ → Input
  text : Text → Input
  value : Value → Input

abbrev pub project : Fields → Fields
project fs = remove signature_key (remove message_id_key fs)

module _ (p : Platform) where
  unfoldable pub parse : Text → Result Value
  unfolding loads
  parse raw = do
    encoded ← encode raw
    raise_if (ltb max_input_bytes (length encoded)) input_too_large
    raise_if (has_bom encoded) utf8_bom_forbidden
    parsed ← loads raw
    normalize p parsed 1

  unfoldable pub normalize_input : Input → Result Value
  unfolding parse
  normalize_input (bytes bs) = do raw ← decode bs; parse raw
  normalize_input (text raw) = parse raw
  normalize_input (value v) = normalize p v 1

  unfoldable pub canonicalize : Input → Result (List ℕ)
  unfolding normalize_input
  canonicalize input = do
    normalized ← normalize_input input
    t ← serialize p normalized
    output ← encode t
    raise_if (ltb max_input_bytes (length output)) output_too_large
    ok output

  unfoldable pub object_id : Input → Result Text
  unfolding canonicalize
  object_id input = do output ← canonicalize input; ok (codes "sha256:" ++ p.sha256 output)

  -- of an envelope that is a dictionary
  unfoldable pub derive_message_id : Fields → Result Text
  unfolding canonicalize has_key remove
  derive_message_id envelope = do
    raise_if (not (has_key message_id_key envelope) || not (has_key signature_key envelope))
        envelope_projection_fields_missing
    output ← canonicalize (value (dict (project envelope)))
    ok (codes "sha256:" ++ p.sha256 (message_id_domain ++ output))

pub data Support : Type 0 where
  supported unsupported_major : Support

unfoldable pub classify_protocol : Text → Support
classify_protocol protocol = if text_eq protocol wire_protocol then supported else unsupported_major
