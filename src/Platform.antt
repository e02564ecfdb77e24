-- ===== src/Platform.antt =====
-- What the Python code calls and does not implement: `unicodedata.normalize("NFC", s)` and
-- `hashlib.sha256(b).hexdigest()`, with what the code relies on of them.
use qsol_fed.Base.{ℕ, ◌≡◌, Bool, true, ◌&&◌, ◌||◌, List, leb, ltb, length, all}
use qsol_fed.Base.Text.{Text}

abbrev pub is_hex_char : ℕ → Bool
is_hex_char c = (leb b'0' c && leb c b'9') || (leb b'a' c && leb c b'f')

abbrev pub is_ascii : ℕ → Bool
is_ascii c = ltb c 0x80

pub record Platform : Type 0 where
  pub nfc : Text → Text
  -- normal forms are stable
  pub nfc_idem : (s : Text) → nfc (nfc s) ≡ nfc s
  -- ASCII text is in normal form
  pub nfc_ascii : (s : Text) → all is_ascii s ≡ true → nfc s ≡ s
  pub sha256 : List ℕ → Text
  -- the hexadecimal digest: 64 lower-case digits
  pub sha256_length : (bytes : List ℕ) → length (sha256 bytes) ≡ 64
  pub sha256_hex : (bytes : List ℕ) → all is_hex_char (sha256 bytes) ≡ true
