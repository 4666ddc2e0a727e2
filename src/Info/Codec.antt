-- ===== src/Info/Codec.antt =====
-- What the code takes from other crates for texts and hashes: base64 (`STANDARD`), the UTF-8 check
-- of `String::from_utf8`, the digest of a checksum algorithm, chrono's HTTP date.
use fileloft.Base.{ℕ, ltb, ◌≡◌, Bool, ◌&&◌, not, true, [], List, all, ◌==◌, Text, leb}

abbrev pub Bytes : Type 0
Bytes = List ℕ

-- A result whose error is only printed.
pub data Outcome (A : Type 0) : Type 0 where
  done : A → Outcome A
  failed : (why : Text) → Outcome A

pub record Base64 : Type 0 where
  pub encode : Bytes → Text
  pub decode : Text → Outcome Bytes
  pub from_utf8 : Bytes → Outcome Text

-- A byte of an encoded value is visible ASCII and ends neither a pair nor a header.
abbrev pub is_wire : ℕ → Bool
is_wire c = leb 33 c && leb c 126 && not (c == b',')

abbrev pub is_byte : ℕ → Bool
is_byte c = ltb c 256

-- RFC 4648, for lists of bytes: decoding inverts encoding, nothing is encoded as nothing, and the alphabet holds
-- letters, digits, `+`, `/` and `=`.
pub record IsBase64 (b : Base64) : Type 0 where
  pub decode-encode : (v : Bytes) → all is_byte v ≡ true → b.decode (b.encode v) ≡ done v
  pub encode-nil : b.encode [] ≡ []
  pub encode_wire : (v : Bytes) → all is_byte v ≡ true → all is_wire (b.encode v) ≡ true
