-- ===== src/Info/Id.antt =====
-- crates/fileloft-core/src/info.rs: `UploadId`, a newtype of `String`. `UploadId::new` draws a
-- UUID from the uuid crate: the handler takes the drawn identifier as a part of its input.
pub mod Reserved
pub mod Safe
use fileloft.Base.{
  ℕ, ◌+◌, Bool, true, false, not, ◌&&◌, ◌||◌, Option, none, some, List, [], ◌∷◌, ltb, leb, ◌==◌,
  if◌then◌else◌, length, drop, is_empty, all, Text, codes, text_eq, contains, ends_with, rfind,
  is_ascii_digit, is_ascii_alphanumeric,
}
use fileloft.Error.{TusError, Result, ok, err, ◌>>=◌}

abbrev pub UploadId : Type 0
UploadId = Text

abbrev pub reserved_tokens : List Text
reserved_tokens = codes "_part_" ∷ codes "_tmp_" ∷ []

-- One round of the loop over the tokens.
unfoldable pub token_collides : Text → Text → Bool
token_collides value token = elim (rfind value token) [
  | none ↦ false
  | some pos ↦
      let tail = drop (pos + length token) value in
      not (is_empty tail) && all (λ b. is_ascii_digit b) tail
]

unfoldable pub any_token : Text → List Text → Bool
any_token value [] = false
any_token value (token ∷ tokens) = token_collides value token || any_token value tokens

unfoldable pub collides_with_reserved_key : Text → Bool
collides_with_reserved_key value =
    if ends_with value (codes ".info") then true else any_token value reserved_tokens

-- The bytes that an identifier may hold.
abbrev pub is_id_byte : ℕ → Bool
is_id_byte b = is_ascii_alphanumeric b || (b == b'-' || (b == b'_' || b == b'.'))

unfoldable pub validate_str : Text → Result (Unit {0})
validate_str value =
    if is_empty value || ltb 128 (length value)
    then err TusError.invalid_upload_id
    else if text_eq value (codes ".") || (text_eq value (codes "..") || contains value (codes ".."))
    then err TusError.invalid_upload_id
    else if not (all is_id_byte value)
    then err TusError.invalid_upload_id
    else if collides_with_reserved_key value
    then err TusError.invalid_upload_id
    else ok tt

-- `UploadId::parse`
unfoldable pub parse : Text → Result UploadId
parse value = do _ ← validate_str value; ok value

-- `UploadId::validate`
unfoldable pub validate : UploadId → Result (Unit {0})
validate id = validate_str id
