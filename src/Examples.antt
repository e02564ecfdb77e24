-- ===== src/Examples.antt =====
-- Concrete inputs: the theorems at work on a small platform.
pub mod Claims
pub mod Envelopes
pub mod Moriarty
pub mod Nexus
pub mod Isolation
pub mod Probes
pub mod Records
pub mod Reports
pub mod Schema
pub mod Tree
pub mod Harness
use qsol_fed.Base.{
  ℕ, ◌+◌, ◌%◌, ◌≡◌, ◌≢◌, ◌↔◌, refl, true, List, [], ◌∷◌, ltb, length, arith, all, replicate,
}
use qsol_fed.Base.Result.{ok, err, ◌>>=◌, ◌>>◌, raise_if, output_too_large, out_of_fuel}
use qsol_fed.Base.Int.{pos, negsuc, within}
use qsol_fed.Base.Text.{Text, codes, contains, text_eq, text_lt}
use qsol_fed.Base.Utf8.{encode, has_surrogate}
use qsol_fed.Platform.{Platform, is_hex_char}
use qsol_fed.Json.{Value, int, str, arr, dict, nil, cons, end, field}
use qsol_fed.Json.Loads.{loads}
use qsol_fed.Json.Print.{unloaded}
use qsol_fed.Canonical.Arrange.{arrange, insert_field}
use qsol_fed.Canonical.Form.{IsNormal}
use qsol_fed.Canonical.Identity.{parse, canonicalize, max_input_bytes}
use qsol_fed.Canonical.Normalize
use qsol_fed.Canonical.Normalize.{normalize}
use qsol_fed.Canonical.Serialize.{serialize}
use qsol_fed.Canonical.RoundTrip.{parse-serialize, canonicalize_idem, serialize-eq_iff}
use qsol_fed.Canonical.Sound.{normalize-IsNormal}
use qsol_fed.Sdk.Bytes.{sdk_canonicalize-encode}
use qsol_fed.Sdk.Equivalence.{
  sdk_parse-eq, sdk_canonicalize-eq, sdk_canonicalize_idem, sdk_object_id-arrange,
}
use qsol_fed.Sdk
use qsol_fed.Sdk.Sound.{sdk_normalize-IsNormal}

-- Texts are their own normal form, and the digest shows the number of bytes modulo ten.
abbrev pub toy_digest : List ℕ → Text
toy_digest bytes = (b'0' + length bytes % 10) ∷ replicate 63 b'0'

pub toy_hex : (bytes : List ℕ) → all is_hex_char (toy_digest bytes) ≡ true
unfolding all
toy_hex bytes = ground arith

abbrev pub toy : Platform
toy = record {
  nfc = λ s. s;
  nfc_idem = λ s. refl;
  nfc_ascii = λ s h. refl;
  sha256 = toy_digest;
  sha256_length = λ bytes. refl;
  sha256_hex = toy_hex;
}

abbrev sample : Text
sample = codes "{\"b\": [1, -20], \"a\" : \"x\\u000a\"}"

abbrev sample_bytes : List ℕ
sample_bytes = codes "{\"a\":\"x\\n\",\"b\":[1,-20]}"

abbrev letters : Value
letters = str (b'x' ∷ 10 ∷ [])

abbrev numbers : Value
numbers = arr (cons (int (pos 1)) (cons (int (negsuc 19)) nil))

abbrev sample_value : Value
sample_value = dict (field (codes "b") numbers (field (codes "a") letters end))

abbrev sorted_value : Value
sorted_value = dict (field (codes "a") letters (field (codes "b") numbers end))

sample-parse : parse toy sample ≡ ok sample_value
unfolding canonicalize parse loads encode ◌>>=◌ raise_if serialize normalize contains Normalize.nfc
    within text_eq text_lt
sample-parse = refl

sample-normalize : normalize toy (unloaded sample_value) 1 ≡ ok sample_value
unfolding canonicalize parse loads encode ◌>>=◌ raise_if serialize normalize contains Normalize.nfc
    within text_eq text_lt unloaded
sample-normalize = refl

sorted-normalize : normalize toy (unloaded sorted_value) 1 ≡ ok sorted_value
unfolding canonicalize parse loads encode ◌>>=◌ raise_if serialize normalize contains Normalize.nfc
    within text_eq text_lt unloaded
sorted-normalize = refl

sample-serialize : serialize toy sample_value ≡ ok sample_bytes
unfolding canonicalize parse loads encode ◌>>=◌ raise_if serialize normalize contains Normalize.nfc
    within text_eq text_lt
sample-serialize = refl

sample-encode : encode sample_bytes ≡ ok sample_bytes
unfolding encode
sample-encode = refl

sample-canonicalize : canonicalize toy sample ≡ ok sample_bytes
unfolding canonicalize parse loads encode ◌>>=◌ raise_if serialize normalize contains Normalize.nfc
    within text_eq text_lt
sample-canonicalize = refl

normalize-IsNormal_example : IsNormal toy sample_value 1
normalize-IsNormal_example = normalize-IsNormal toy (unloaded sample_value) 1 sample-normalize

sorted-IsNormal : IsNormal toy sorted_value 1
sorted-IsNormal = normalize-IsNormal toy (unloaded sorted_value) 1 sorted-normalize

sample-IsNormal : IsNormal toy sample_value 1
sample-IsNormal = normalize-IsNormal toy (unloaded sample_value) 1 sample-normalize

parse-serialize_example : parse toy sample_bytes ≡ ok (arrange sample_value)
parse-serialize_example =
    parse-serialize toy sample_value sample_bytes sample_bytes sample-IsNormal sample-serialize
      sample-encode (omega arith)

canonicalize_idem_example :
    (t : Text) × (encode t ≡ ok sample_bytes) × (canonicalize toy t ≡ ok sample_bytes)
canonicalize_idem_example =
    canonicalize_idem toy sample sample_bytes sample-canonicalize (omega arith)

serialize-eq_iff_example :
    (serialize toy sample_value ≡ serialize toy sorted_value)
    ↔ (arrange sample_value ≡ arrange sorted_value)
serialize-eq_iff_example =
    serialize-eq_iff toy sample_value sorted_value 1 sample-IsNormal sorted-IsNormal

sdk_parse-eq_example : Sdk.Identity.parse toy sample ≡ parse toy sample
sdk_parse-eq_example = sdk_parse-eq toy sample

sdk_canonicalize-eq_example : Sdk.Identity.canonicalize toy (Sdk.Identity.text sample) ≡ (
    canonicalize toy sample >>= λ bytes.
    raise_if (ltb max_input_bytes (length bytes)) output_too_large >> ok bytes)
sdk_canonicalize-eq_example = sdk_canonicalize-eq toy sample

sample-sdk_normalize : Sdk.Normalize.normalize toy (unloaded sample_value) 1 ≡ ok sample_value
unfolding encode ◌>>=◌ raise_if Sdk.Serialize.serialize Sdk.Normalize.normalize contains
    Sdk.Normalize.nfc within text_eq text_lt unloaded
sample-sdk_normalize = refl

sdk_normalize-IsNormal_example : IsNormal toy sample_value 1
sdk_normalize-IsNormal_example =
    sdk_normalize-IsNormal toy (unloaded sample_value) 1 sample-sdk_normalize

sample-sdk_canonicalize : Sdk.Identity.canonicalize toy (Sdk.Identity.text sample) ≡ ok sample_bytes
unfolding Sdk.Identity.canonicalize Sdk.Identity.normalize_input Sdk.Identity.parse loads encode
    ◌>>=◌ raise_if Sdk.Serialize.serialize Sdk.Normalize.normalize contains Sdk.Normalize.nfc within
    text_eq text_lt
sample-sdk_canonicalize = refl

sdk_canonicalize_idem_example :
    (t : Text) × (encode t ≡ ok sample_bytes)
    × (Sdk.Identity.canonicalize toy (Sdk.Identity.text t) ≡ ok sample_bytes)
sdk_canonicalize_idem_example =
    sdk_canonicalize_idem toy sample sample_bytes sample-sdk_canonicalize

sample-arrange : arrange sample_value ≡ arrange sorted_value
unfolding arrange text_lt insert_field
sample-arrange = refl

sdk_object_id-arrange_example :
    Sdk.Identity.object_id toy (Sdk.Identity.value sample_value)
    ≡ Sdk.Identity.object_id toy (Sdk.Identity.value sorted_value)
sdk_object_id-arrange_example =
    sdk_object_id-arrange toy sample_value sorted_value sample-IsNormal sorted-IsNormal
      sample-arrange

-- a quoted euro sign
abbrev euro : Text
euro = b'"' ∷ 0x20AC ∷ b'"' ∷ []

abbrev euro_bytes : List ℕ
euro_bytes = b'"' ∷ 0xE2 ∷ 0x82 ∷ 0xAC ∷ b'"' ∷ []

euro-encode : encode euro ≡ ok euro_bytes
unfolding encode
euro-encode = refl

sdk_canonicalize-encode_example :
    Sdk.Identity.canonicalize toy (Sdk.Identity.bytes euro_bytes)
    ≡ Sdk.Identity.canonicalize toy (Sdk.Identity.text euro)
sdk_canonicalize-encode_example =
    sdk_canonicalize-encode toy euro euro_bytes (omega arith, (omega arith, (omega arith, tt)))
      euro-encode
