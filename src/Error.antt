-- ===== src/Error.antt =====
-- crates/fileloft-core/src/error.rs: `TusError`, and `Result<_, TusError>` with its `?` operator.
-- `Io` and `Serialization` wrap an error of the standard library and of serde_json, of which the
-- code only prints the text.
pub mod Status
use fileloft.Base.{ℕ, ◌++◌, Bool, leb, Text, codes}

pub data TusError : Type 0 where
  missing_tus_resumable : TusError
  unsupported_version : (version : Text) → TusError
  missing_upload_offset : TusError
  offset_mismatch : (expected actual : ℕ) → TusError
  wrong_content_type : Text → TusError
  not_found : Text → TusError
  gone : TusError
  entity_too_large : (max : ℕ) → TusError
  exceeds_upload_length : (declared end : ℕ) → TusError
  checksum_mismatch : TusError
  unsupported_checksum_algorithm : Text → TusError
  missing_upload_length : TusError
  upload_length_already_set : TusError
  extension_not_enabled : Text → TusError
  invalid_metadata : Text → TusError
  invalid_upload_id : TusError
  empty_concatenation : TusError
  partial_upload_incomplete : Text → TusError
  not_partial_upload : Text → TusError
  patch_on_final_upload : TusError
  upload_not_ready_for_download : TusError
  method_not_allowed : TusError
  lock_timeout : Text → TusError
  lock_conflict : Text → TusError
  hook_rejected : Text → TusError
  io : Text → TusError
  serialization : Text → TusError
  internal : Text → TusError

pub data Result {ℓ} (A : Type ℓ) : Type ℓ where
  ok : A → Result A
  err : TusError → Result A

-- The `?` operator.
infixl 5 ◌>>=◌
abbrev pub ◌>>=◌ {ℓ κ} : {A : Type ℓ} {B : Type κ} → Result A → (A → Result B) → Result B
ok a >>= f = f a
err e >>= f = err e

-- `TusError::status_code`, as the number of the status.
unfoldable pub status_code : TusError → ℕ
status_code TusError.missing_tus_resumable = 412
status_code (TusError.unsupported_version version) = 412
status_code TusError.missing_upload_offset = 400
status_code (TusError.offset_mismatch expected actual) = 409
status_code (TusError.wrong_content_type ct) = 415
status_code (TusError.not_found id) = 404
status_code TusError.gone = 410
status_code (TusError.entity_too_large max) = 413
status_code (TusError.exceeds_upload_length declared end) = 413
status_code TusError.checksum_mismatch = 460
status_code (TusError.unsupported_checksum_algorithm name) = 400
status_code TusError.missing_upload_length = 400
status_code TusError.upload_length_already_set = 400
status_code (TusError.extension_not_enabled name) = 404
status_code (TusError.invalid_metadata why) = 400
status_code TusError.invalid_upload_id = 400
status_code TusError.empty_concatenation = 400
status_code (TusError.partial_upload_incomplete id) = 400
status_code (TusError.not_partial_upload id) = 400
status_code TusError.patch_on_final_upload = 403
status_code TusError.upload_not_ready_for_download = 400
status_code TusError.method_not_allowed = 405
status_code (TusError.lock_timeout id) = 408
status_code (TusError.lock_conflict id) = 423
status_code (TusError.hook_rejected why) = 403
status_code (TusError.io why) = 500
status_code (TusError.serialization why) = 500
status_code (TusError.internal why) = 500

module _ (decimal : ℕ → Text) where
  -- The `#[error(…)]` texts: `Display` of `TusError`. `decimal` prints a number.
  unfoldable pub display : TusError → Text
  display TusError.missing_tus_resumable = codes "missing Tus-Resumable header"
  display (TusError.unsupported_version version) = codes "unsupported tus version: " ++ version
  display TusError.missing_upload_offset = codes "missing Upload-Offset header"
  display (TusError.offset_mismatch expected actual) =
      codes "upload offset mismatch: expected "
      ++ (decimal expected ++ (codes ", got " ++ decimal actual))
  display (TusError.wrong_content_type ct) =
      codes "wrong Content-Type: expected application/offset+octet-stream, got " ++ ct
  display (TusError.not_found id) = codes "upload not found: " ++ id
  display TusError.gone = codes "upload has expired"
  display (TusError.entity_too_large max) =
      codes "upload size exceeds server maximum of " ++ (decimal max ++ codes " bytes")
  display (TusError.exceeds_upload_length declared end) =
      codes "chunk exceeds declared upload length (declared "
      ++ (decimal declared ++ (codes " bytes, end offset would be " ++ (decimal end ++ codes ")")))
  display TusError.checksum_mismatch = codes "checksum mismatch"
  display (TusError.unsupported_checksum_algorithm name) =
      codes "unsupported checksum algorithm: " ++ name
  display TusError.missing_upload_length = codes "missing Upload-Length (or Upload-Defer-Length)"
  display TusError.upload_length_already_set = codes "Upload-Length cannot be changed once set"
  display (TusError.extension_not_enabled name) = codes "extension not enabled: " ++ name
  display (TusError.invalid_metadata why) = codes "invalid metadata: " ++ why
  display TusError.invalid_upload_id = codes "invalid upload ID"
  display TusError.empty_concatenation =
      codes "concatenation requires at least one partial upload URL"
  display (TusError.partial_upload_incomplete id) =
      codes "partial upload " ++ (id ++ codes " is not yet complete")
  display (TusError.not_partial_upload id) =
      codes "upload "
      ++ (id ++ codes " is not a partial upload and cannot be used in a concatenation")
  display TusError.patch_on_final_upload =
      codes "PATCH is not allowed on a final concatenated upload"
  display TusError.upload_not_ready_for_download =
      codes "upload is not complete or not available for download"
  display TusError.method_not_allowed = codes "method not allowed"
  display (TusError.lock_timeout id) = codes "lock acquisition timed out for upload " ++ id
  display (TusError.lock_conflict id) = codes "lock is already held for upload " ++ id
  display (TusError.hook_rejected why) = codes "hook rejected request: " ++ why
  display (TusError.io why) = codes "I/O error: " ++ why
  display (TusError.serialization why) = codes "serialization error: " ++ why
  display (TusError.internal why) = codes "internal error: " ++ why

  unfoldable pub client_message : TusError → Text
  unfolding display
  client_message (TusError.io why) = codes "internal server error"
  client_message (TusError.serialization why) = codes "internal server error"
  client_message (TusError.internal why) = codes "internal server error"
  client_message e = display e
