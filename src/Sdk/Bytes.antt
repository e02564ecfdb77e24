-- ===== src/Sdk/Bytes.antt =====
-- The SDK's `canonicalize` of bytes and of the text that they encode.
use qsol_fed.Base.{
  ℕ, suc, ◌+◌, ◌*◌, ◌/◌, ◌%◌, ◌≤◌, ◌<◌, ◌≡◌, refl, ap, ◌∙◌, false, List, [], ◌∷◌, ◌++◌, arith,
  tests, ltb, All, some, Bool-cases, inl, inr,
}
use qsol_fed.Base.Result.{Result, ok, err, ◌>>=◌}
use qsol_fed.Base.Text.{Text}
use qsol_fed.Platform.{Platform}
use qsol_fed.Canonical.Complete.{bind-ok}
use qsol_fed.Sdk.Identity.{canonicalize, normalize_input, bytes, text}
use qsol_fed.Base.Utf8.{
  is_surrogate, has_surrogate, encode_char, encode_chars, encode, Decoding, between, inside,
  finish_char, decode_byte, decode_from, decode,
}

decode_byte-one : (c : ℕ) → c < 0x80 → decode_byte between c ≡ some (between, c ∷ [])
unfolding decode_byte
decode_byte-one c h = ground arith

finish_char-ok :
    (c least : ℕ)
    → least ≤ c
    → c ≤ 0x10FFFF
    → is_surrogate c ≡ false
    → finish_char c least ≡ some (between, c ∷ [])
unfolding finish_char
finish_char-ok c least h k s = ground arith

decode_byte-two :
    (q : ℕ) → 2 ≤ q → q < 32 → decode_byte between (192 + q) ≡ some (inside 0 q 0x80, [])
unfolding decode_byte
decode_byte-two q h k = ground arith

decode_byte-three : (q : ℕ) → q < 16 → decode_byte between (224 + q) ≡ some (inside 1 q 0x800, [])
unfolding decode_byte
decode_byte-three q h = ground arith

decode_byte-four : (q : ℕ) → q < 5 → decode_byte between (240 + q) ≡ some (inside 2 q 0x10000, [])
unfolding decode_byte
decode_byte-four q h = ground arith

decode_byte-inside :
    (left code least q : ℕ)
    → q < 64
    → decode_byte (inside (suc left) code least) (128 + q)
      ≡ some (inside left (code * 64 + q) least, [])
unfolding decode_byte
decode_byte-inside left code least q h = ground arith

decode_byte-last :
    (code least q : ℕ)
    → q < 64
    → decode_byte (inside 0 code least) (128 + q) ≡ finish_char (code * 64 + q) least
unfolding decode_byte
decode_byte-last code least q h = ground arith

-- a byte that completes no character
decode_from-more :
    (state : Decoding) {next : Decoding} (b : ℕ) (bs : List ℕ)
    → decode_byte state b ≡ some (next, [])
    → decode_from state (b ∷ bs) ≡ decode_from next bs
unfolding decode_from
decode_from-more state {next} b bs h = by_state state h
  where
    unit : (m : Result Text) → (m >>= λ rest. ok rest) ≡ m
    unit (ok t) = unfold ◌>>=◌ in refl
    unit (err e) = unfold ◌>>=◌ in refl

    by_state :
        (state : Decoding)
        → decode_byte state b ≡ some (next, [])
        → decode_from state (b ∷ bs) ≡ decode_from next bs
    by_state between h = rw (h, decode_from) (unit (decode_from next bs))
    by_state (inside left code least) h = rw (h, decode_from) (unit (decode_from next bs))

-- a byte that completes a character
decode_from-done :
    (state : Decoding) (b c : ℕ) (bs : List ℕ)
    → decode_byte state b ≡ some (between, c ∷ [])
    → decode_from state (b ∷ bs) ≡ (decode_from between bs >>= λ rest. ok (c ∷ rest))
unfolding decode_from
decode_from-done between b c bs h = rw (h, decode_from)
decode_from-done (inside left code least) b c bs h = rw (h, decode_from)

data Width (c : ℕ) : Type 0 where
  one : c < 0x80 → Width c
  two : 0x80 ≤ c → c < 0x800 → Width c
  three : 0x800 ≤ c → c < 0x10000 → Width c
  four : 0x10000 ≤ c → c ≤ 0x10FFFF → Width c

width : (c : ℕ) → c ≤ 0x10FFFF → Width c
width c h = elim (Bool-cases (ltb c 0x80)) [
  | inl a ↦ one (omega (tests, a))
  | inr a ↦ elim (Bool-cases (ltb c 0x800)) [
    | inl b ↦ two (omega (tests, a)) (omega (tests, b))
    | inr b ↦ elim (Bool-cases (ltb c 0x10000)) [
      | inl d ↦ three (omega (tests, b)) (omega (tests, d))
      | inr d ↦ four (omega (tests, d)) h
    ]
  ]
]

encode_two : (c : ℕ) → 0x80 ≤ c → c < 0x800 → encode_char c ≡ (192 + c / 64) ∷ (128 + c % 64) ∷ []
unfolding encode_char
encode_two c h k = ground arith

encode_three :
    (c : ℕ)
    → 0x800 ≤ c
    → c < 0x10000
    → encode_char c ≡ (224 + c / 4096) ∷ (128 + c / 64 % 64) ∷ (128 + c % 64) ∷ []
unfolding encode_char
encode_three c h k = ground arith

encode_four :
    (c : ℕ)
    → 0x10000 ≤ c
    → encode_char c
      ≡ (240 + c / 262144) ∷ (128 + c / 4096 % 64) ∷ (128 + c / 64 % 64) ∷ (128 + c % 64) ∷ []
unfolding encode_char
encode_four c h = ground arith

encode_one : (c : ℕ) → c < 0x80 → encode_char c ≡ c ∷ []
unfolding encode_char
encode_one c h = ground arith

last-finishes :
    (code least q c : ℕ)
    → q < 64
    → code * 64 + q ≡ c
    → least ≤ c
    → c ≤ 0x10FFFF
    → is_surrogate c ≡ false
    → decode_byte (inside 0 code least) (128 + q) ≡ some (between, c ∷ [])
last-finishes code least q c small whole h k s =
    decode_byte-last code least q small
    ∙ ap (λ n. finish_char n least) whole
    ∙ finish_char-ok c least h k s

decode_from-encode_char :
    (c : ℕ) (bs : List ℕ)
    → c ≤ 0x10FFFF
    → is_surrogate c ≡ false
    → decode_from between (encode_char c ++ bs) ≡ (decode_from between bs >>= λ rest. ok (c ∷ rest))
decode_from-encode_char c bs h s = elim (width c h) [
  | one a ↦ rw (encode_one c a) (decode_from-done between c c bs (decode_byte-one c a))
  | two a b ↦ rw (encode_two c a b) (
      decode_from-more _ (192 + c / 64) _ (decode_byte-two (c / 64) (omega arith) (omega arith))
      ∙ decode_from-done _ (128 + c % 64) c bs
          (last-finishes (c / 64) 0x80 (c % 64) c (omega arith) (omega arith) a h s))
  | three a b ↦ rw (encode_three c a b) (
      decode_from-more _ (224 + c / 4096) _ (decode_byte-three (c / 4096) (omega arith))
      ∙ decode_from-more _ (128 + c / 64 % 64) _
          (decode_byte-inside 0 (c / 4096) 0x800 (c / 64 % 64) (omega arith))
      ∙ decode_from-done _ (128 + c % 64) c bs (
          last-finishes (c / 4096 * 64 + c / 64 % 64) 0x800 (c % 64) c (omega arith) (omega arith) a
            h s))
  | four a b ↦ rw (encode_four c a) (
      decode_from-more _ (240 + c / 262144) _ (decode_byte-four (c / 262144) (omega arith))
      ∙ decode_from-more _ (128 + c / 4096 % 64) _
          (decode_byte-inside 1 (c / 262144) 0x10000 (c / 4096 % 64) (omega arith))
      ∙ decode_from-more _ (128 + c / 64 % 64) _ (
          decode_byte-inside 0 (c / 262144 * 64 + c / 4096 % 64) 0x10000 (c / 64 % 64)
            (omega arith))
      ∙ decode_from-done _ (128 + c % 64) c bs (
          last-finishes ((c / 262144 * 64 + c / 4096 % 64) * 64 + c / 64 % 64) 0x10000 (c % 64) c
            (omega arith) (omega arith) a h s))
]

-- UTF-8 round trip: a text of code points up to 0x10FFFF without surrogates is decoded from its
-- encoding.
pub decode-encode_chars :
    (s : Text)
    → All (λ c. c ≤ 0x10FFFF) s
    → has_surrogate s ≡ false
    → decode (encode_chars s) ≡ ok s
unfolding decode encode_chars has_surrogate
decode-encode_chars [] h n = unfold decode_from in refl
decode-encode_chars (c ∷ s) h n =
    decode_from-encode_char c (encode_chars s) h.0 (ground arith)
    ∙ bind-ok _ (decode-encode_chars s h.1 (ground arith))

encode-parts :
    (s : Text) {data_bytes : List ℕ}
    → encode s ≡ ok data_bytes
    → (has_surrogate s ≡ false) × (data_bytes ≡ encode_chars s)
unfolding encode
encode-parts s e = (ground arith, ground arith)

decode-encode :
    (s : Text) {data_bytes : List ℕ}
    → All (λ c. c ≤ 0x10FFFF) s
    → encode s ≡ ok data_bytes
    → decode data_bytes ≡ ok s
decode-encode s h e =
    let (paired, same) = encode-parts s e in rw same (decode-encode_chars s h paired)

module _ (p : Platform) where
  normalize_input-encode :
      (raw : Text) (data_bytes : List ℕ)
      → decode data_bytes ≡ ok raw
      → normalize_input p (bytes data_bytes) ≡ normalize_input p (text raw)
  unfolding normalize_input
  normalize_input-encode raw data_bytes d = bind-ok _ d

  -- The SDK's `canonicalize` of the UTF-8 bytes of a text (of code points up to 0x10FFFF, without
  -- surrogates) is that of the text itself, errors included.
  pub sdk_canonicalize-encode :
      (raw : Text) (data_bytes : List ℕ)
      → All (λ c. c ≤ 0x10FFFF) raw
      → encode raw ≡ ok data_bytes
      → canonicalize p (bytes data_bytes) ≡ canonicalize p (text raw)
  unfolding canonicalize
  sdk_canonicalize-encode raw data_bytes h e =
      rw (normalize_input-encode raw data_bytes (decode-encode raw h e))
