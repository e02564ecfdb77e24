-- ===== src/Canonical/Identity.antt =====
-- tools/qsol_canonical.py: `parse`, `canonicalize`, and the two identifiers.
use qsol_fed.Base.{ℕ, Bool, false, ◌&&◌, not, List, [], ◌∷◌, ◌++◌, ltb, ◌==◌, length, ◌||◌}
use qsol_fed.Base.Result.{
  Result, ok, err, ◌>>=◌, ◌>>◌, raise_if, input_too_large, utf8_bom_forbidden,
  envelope_must_be_object, envelope_projection_fields_missing,
}
use qsol_fed.Base.Text.{Text, codes, text_eq}
use qsol_fed.Base.Utf8.{encode}
use qsol_fed.Platform.{Platform}
use qsol_fed.Json.{Value, Fields, dict, has_key, remove}
use qsol_fed.Json.Loads.{loads}
use qsol_fed.Canonical.Normalize.{normalize}
use qsol_fed.Canonical.Serialize.{serialize}

abbrev pub protocol : Text
protocol = codes "qsol-fed/1"

abbrev pub message_id_domain : List ℕ
message_id_domain = codes "qsol-fed-message-id/1" ++ 0 ∷ []

abbrev pub max_input_bytes : ℕ
max_input_bytes = 65536

abbrev pub message_id_key : Text
message_id_key = codes "message_id"

abbrev pub signature_key : Text
signature_key = codes "signature"

-- `encoded.startswith(b"\xef\xbb\xbf")`
abbrev pub has_bom : List ℕ → Bool
has_bom (a ∷ b ∷ c ∷ _) = a == 0xEF && b == 0xBB && c == 0xBF
has_bom _ = false

-- `dict(value)` without the two fields that the identifier leaves out
abbrev pub project : Fields → Fields
project fs = remove signature_key (remove message_id_key fs)

module _ (p : Platform) where
  unfoldable pub parse : Text → Result Value
  unfolding loads
  parse raw = do
    encoded ← encode raw
    raise_if (ltb max_input_bytes (length encoded)) input_too_large
    raise_if (has_bom encoded) utf8_bom_forbidden
    parsed ← loads raw
    normalize p parsed 1

  unfoldable pub canonicalize : Text → Result (List ℕ)
  unfolding parse
  canonicalize raw = do value ← parse raw; text ← serialize p value; encode text

  unfoldable pub object_id : Text → Result Text
  unfolding canonicalize
  object_id raw = do bytes ← canonicalize raw; ok (codes "sha256:" ++ p.sha256 bytes)

  -- the identifier of a parsed envelope
  unfoldable pub message_id_of : Value → Result Text
  unfolding has_key remove
  message_id_of (dict fs) = do
    raise_if (not (has_key message_id_key fs) || not (has_key signature_key fs))
        envelope_projection_fields_missing
    text ← serialize p (dict (project fs))
    bytes ← encode text
    ok (codes "sha256:" ++ p.sha256 (message_id_domain ++ bytes))
  message_id_of _ = err envelope_must_be_object

  unfoldable pub derive_message_id : Text → Result Text
  unfolding parse message_id_of
  derive_message_id raw = do value ← parse raw; message_id_of value

unfoldable pub supported_protocol : Text → Bool
supported_protocol s = text_eq s protocol
