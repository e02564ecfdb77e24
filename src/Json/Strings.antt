-- ===== src/Json/Strings.antt =====
-- A string literal in canonical form scans back to its characters.
use qsol_fed.Base.{
  ℕ, suc, ◌+◌, ◌*◌, ◌<◌, ◌/◌, ◌%◌, ◌≡◌, refl, ap, true, false, [], ◌∷◌, ◌++◌, arith, inl, inr, ◌==◌,
  ltb, ltb→lt, some, Bool-cases, ◌∙◌, ==_iff, sym,
}
use mathlib.Core.List.{append_assoc}
use mathlib.Core.Path.{subst}
use qsol_fed.Base.Result.{Result, ok, err, ◌>>=◌}
use qsol_fed.Base.Text.{Text}
use qsol_fed.Base.Utf8.{has_surrogate}
use qsol_fed.Json.Escape.{hex_digit, escape_char, escape_chars}
use qsol_fed.Json.Scan.{
  Mode, plain, escaped, hex, hex_value, go, string_move, scan_chars, join_surrogates, scan_string,
}

hex_value-hex_digit : (d : ℕ) → d < 16 → hex_value (hex_digit d) ≡ some d
hex_value-hex_digit d h = ground arith

abbrev emit : Text → Result (Text × Text) → Result (Text × Text)
emit out r = r >>= λ (t, rest). ok (out ++ t, rest)

scan_chars-move :
    (mode mode' : Mode) (c : ℕ) (out s : Text)
    → string_move mode c ≡ go mode' out
    → scan_chars mode (c ∷ s) ≡ emit out (scan_chars mode' s)
unfolding scan_chars
scan_chars-move mode mode' c out s h = rw (h, scan_chars)

emit-nil : (r : Result (Text × Text)) → emit [] r ≡ r
unfolding ◌>>=◌
emit-nil (ok a) = refl
emit-nil (err e) = refl

-- a character that is not escaped
string_move-plain :
    (c : ℕ)
    → (c == b'"') ≡ false
    → (c == 92) ≡ false
    → ltb c 0x20 ≡ false
    → string_move plain c ≡ go plain (c ∷ [])
unfolding string_move
string_move-plain c h k l = ground arith

module _ (c d code : ℕ) (digit : hex_value c ≡ some d) where
  string_move-hex_last : string_move (hex 0 code) c ≡ go plain ((code * 16 + d) ∷ [])
  unfolding string_move
  string_move-hex_last = rw (digit, string_move)

  string_move-hex :
      (left : ℕ) → string_move (hex (suc left) code) c ≡ go (hex left (code * 16 + d)) []
  unfolding string_move
  string_move-hex left = rw (digit, string_move)

module _ (c : ℕ) (n₁ : (c == b'"') ≡ false) (n₂ : (c == 92) ≡ false) (n₃ : (c == 8) ≡ false)
    (n₄ : (c == 12) ≡ false) (n₅ : (c == 10) ≡ false) (n₆ : (c == 13) ≡ false)
    (n₇ : (c == 9) ≡ false) where
  escape_char-control :
      ltb c 0x20 ≡ true
      → escape_char c ≡ 92 ∷ b'u' ∷ b'0' ∷ b'0' ∷ hex_digit (c / 16) ∷ hex_digit (c % 16) ∷ []
  unfolding escape_char
  escape_char-control h = rw (n₁, n₂, n₃, n₄, n₅, n₆, n₇, h)

  escape_char-bare : ltb c 0x20 ≡ false → escape_char c ≡ c ∷ []
  unfolding escape_char
  escape_char-bare h = rw (n₁, n₂, n₃, n₄, n₅, n₆, n₇, h)

-- one step of the scanner for each character of an escape
module _ (s : Text) where
  short_escape :
      (c d : ℕ)
      → string_move escaped d ≡ go plain (c ∷ [])
      → scan_chars plain (92 ∷ d ∷ s) ≡ emit (c ∷ []) (scan_chars plain s)
  short_escape c d h =
      scan_chars-move plain escaped 92 [] (d ∷ s) (unfold string_move in refl)
      ∙ emit-nil _
      ∙ scan_chars-move escaped plain d (c ∷ []) s h

  long_escape :
      (c : ℕ)
      → c < 0x20
      → scan_chars plain (92 ∷ b'u' ∷ b'0' ∷ b'0' ∷ hex_digit (c / 16) ∷ hex_digit (c % 16) ∷ s)
        ≡ emit (c ∷ []) (scan_chars plain s)
  long_escape c h =
      scan_chars-move plain escaped 92 [] _ (unfold string_move in refl)
      ∙ emit-nil _
      ∙ scan_chars-move escaped (hex 3 0) b'u' [] _ (unfold string_move in refl)
      ∙ emit-nil _
      ∙ scan_chars-move (hex 3 0) (hex 2 0) b'0' [] _ (unfold string_move in refl)
      ∙ emit-nil _
      ∙ scan_chars-move (hex 2 0) (hex 1 0) b'0' [] _ (unfold string_move in refl)
      ∙ emit-nil _
      ∙ scan_chars-move (hex 1 0) (hex 0 (0 * 16 + c / 16)) (hex_digit (c / 16)) [] _
          (string_move-hex _ (c / 16) 0 (hex_value-hex_digit (c / 16) (omega arith)) 0)
      ∙ emit-nil _
      ∙ scan_chars-move (hex 0 (0 * 16 + c / 16)) plain (hex_digit (c % 16)) (c ∷ []) s (
          string_move-hex_last _ (c % 16) (0 * 16 + c / 16)
            (hex_value-hex_digit (c % 16) (omega arith))
          ∙ ap (λ n. go plain (n ∷ [])) (omega arith))

  scan_chars-escape_char :
      (c : ℕ) → scan_chars plain (escape_char c ++ s) ≡ emit (c ∷ []) (scan_chars plain s)
  unfolding escape_char string_move
  scan_chars-escape_char c = on b'"' (short_escape b'"' b'"' refl) λ n₁.
      on 92 (short_escape 92 92 refl) λ n₂. on 8 (short_escape 8 b'b' refl) λ n₃.
        on 12 (short_escape 12 b'f' refl) λ n₄. on 10 (short_escape 10 b'n' refl) λ n₅.
          on 13 (short_escape 13 b'r' refl) λ n₆. on 9 (short_escape 9 b't' refl) λ n₇.
            elim (Bool-cases (ltb c 0x20)) [
              | inl control ↦
                  rw (escape_char-control c n₁ n₂ n₃ n₄ n₅ n₆ n₇ control)
                    (long_escape c (ltb→lt _ _ control))
              | inr bare ↦
                  rw (escape_char-bare c n₁ n₂ n₃ n₄ n₅ n₆ n₇ bare)
                    (scan_chars-move plain plain c (c ∷ []) s (string_move-plain c n₁ n₂ bare))
            ]
    where
      Goal : ℕ → Type 0
      Goal c = scan_chars plain (escape_char c ++ s) ≡ emit (c ∷ []) (scan_chars plain s)

      on : (d : ℕ) → Goal d → ((c == d) ≡ false → Goal c) → Goal c
      on d h k = elim (Bool-cases (c == d)) [
        | inl e ↦ subst Goal (sym ((==_iff c d).0 e)) h
        | inr e ↦ k e
      ]

scan_chars-escape_chars :
    (s rest : Text) → scan_chars plain (escape_chars s ++ b'"' ∷ rest) ≡ ok (s, rest)
unfolding escape_chars
scan_chars-escape_chars [] rest = (unfold scan_chars in refl)
scan_chars-escape_chars (c ∷ s) rest = rw append_assoc (
    scan_chars-escape_char (escape_chars s ++ b'"' ∷ rest) c
    ∙ rw (scan_chars-escape_chars s rest) (unfold ◌>>=◌ in refl))

join_surrogates-none : (s : Text) → has_surrogate s ≡ false → join_surrogates s ≡ s
unfolding join_surrogates has_surrogate
join_surrogates-none [] h = refl
join_surrogates-none (c ∷ []) h = refl
join_surrogates-none (c ∷ d ∷ s) h = ground (arith, join_surrogates-none (d ∷ s))

-- A text without lone surrogates that is escaped and quoted is read back by the string scanner, with
-- whatever stands behind the closing quote left over.
pub scan_string-escape_chars :
    (s rest : Text)
    → has_surrogate s ≡ false
    → scan_string (escape_chars s ++ b'"' ∷ rest) ≡ ok (s, rest)
unfolding scan_string
scan_string-escape_chars s rest h =
    rw (scan_chars-escape_chars s rest) (unfold ◌>>=◌ in rw (join_surrogates-none s h))
