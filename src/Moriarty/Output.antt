-- ===== src/Moriarty/Output.antt =====
-- tools/run_moriarty.py: the bounded capture of a probe's output, one chunk at a time. A hash object
-- is the bytes that it was updated with: `update` is documented to be that of the concatenation.
use qsol_fed.Base.{
  ℕ, zero, suc, ◌+◌, ◌-◌, ◌≡◌, refl, ap, sym, ◌∙◌, Bool, false, ◌||◌, List, [], ◌∷◌, ◌++◌, arith,
  ltb, length, take, length-append, length-take,
}
use mathlib.Core.List.{append_assoc, append-nil}

abbrev pub max_report_counterexamples : ℕ
max_report_counterexamples = 48

abbrev pub max_report_bytes : ℕ
max_report_bytes = 524288

abbrev pub max_probe_output_bytes : ℕ
max_probe_output_bytes = 1048576

-- `bounded_output_update`: the digest, the count, and whether bytes were dropped
unfoldable pub bounded_output_update : List ℕ → ℕ → List ℕ → List ℕ × ℕ × Bool
bounded_output_update digest count chunk =
    let remaining = max_probe_output_bytes - count in
    let accepted = take remaining chunk in
    (digest ++ accepted, count + length accepted, ltb remaining (length chunk))

-- What the harness keeps of one stream.
pub record Stream : Type 0 where
  pub captured : List ℕ
  pub digest : List ℕ
  pub count : ℕ
  pub truncated : Bool

abbrev pub fresh_stream : Stream
fresh_stream = record { captured = []; digest = []; count = 0; truncated = false }

-- One chunk that was read from the stream. An update with no bytes changes nothing.
unfoldable pub read_chunk : Stream → List ℕ → Stream
unfolding bounded_output_update
read_chunk s chunk =
    let remaining_capture = max_probe_output_bytes - length s.captured in
    let (digest, count, overflow) = bounded_output_update s.digest s.count chunk in
    record {
      captured = s.captured ++ take remaining_capture chunk;
      digest = digest;
      count = count;
      truncated = overflow || s.truncated;
    }

unfoldable pub read_chunks : Stream → List (List ℕ) → Stream
unfolding read_chunk
read_chunks s [] = s
read_chunks s (chunk ∷ chunks) = read_chunks (read_chunk s chunk) chunks

-- all that was read, in order
unfoldable pub concat : List (List ℕ) → List ℕ
concat [] = []
concat (chunk ∷ chunks) = chunk ++ concat chunks

-- The stream of which the bytes `s` were seen, by the limit alone.
abbrev pub bounded : List ℕ → Stream
bounded s = record {
  captured = take max_probe_output_bytes s;
  digest = take max_probe_output_bytes s;
  count = length (take max_probe_output_bytes s);
  truncated = ltb max_probe_output_bytes (length s);
}

take-append : (n : ℕ) (s c : List ℕ) → take n (s ++ c) ≡ take n s ++ take (n - length (take n s)) c
take-append zero s c = refl
take-append (suc n) [] c = let same : suc n ≡ suc n - 0 = omega arith in ap (λ m. take m c) same
take-append (suc n) (x ∷ s) c =
    let left : n - length (take n s) ≡ suc n - suc (length (take n s)) = omega arith in
    ap (λ (t : List ℕ). x ∷ t) (take-append n s c) ∙ ap (λ m. x ∷ (take n s ++ take m c)) left

read_chunk-step :
    (n : ℕ) (s c : List ℕ)
    → (ltb (n - length (take n s)) (length c) || ltb n (length s)) ≡ ltb n (length (s ++ c))
read_chunk-step n s c =
    let whole = length-append s c in let part = length-take n s in ground (arith, whole, part)

read_chunk-bounded : (s c : List ℕ) → read_chunk (bounded s) c ≡ bounded (s ++ c)
unfolding read_chunk bounded_output_update
read_chunk-bounded s c = rw (
  take-append max_probe_output_bytes s c,
  length-append (take max_probe_output_bytes s)
      (take (max_probe_output_bytes - length (take max_probe_output_bytes s)) c),
  read_chunk-step max_probe_output_bytes s c,
)

read_chunks-bounded :
    (s : List ℕ) (chunks : List (List ℕ))
    → read_chunks (bounded s) chunks ≡ bounded (s ++ concat chunks)
unfolding read_chunks concat
read_chunks-bounded s [] = ap bounded (sym (append-nil s))
read_chunks-bounded s (chunk ∷ chunks) =
    ap (λ t. read_chunks t chunks) (read_chunk-bounded s chunk)
    ∙ read_chunks-bounded (s ++ chunk) chunks
    ∙ ap bounded (append_assoc s chunk (concat chunks))

-- However a stream's bytes are cut into chunks, the harness captures and hashes the first 1048576 of
-- them, counts those, and notes a truncation exactly when there are more.
pub read_chunks-fresh_stream :
    (chunks : List (List ℕ)) → read_chunks fresh_stream chunks ≡ bounded (concat chunks)
read_chunks-fresh_stream chunks = read_chunks-bounded [] chunks
