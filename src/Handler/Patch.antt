-- ===== src/Handler/Patch.antt =====
-- crates/fileloft-core/src/handler/patch.rs
pub mod Write
pub mod Report
pub mod Outcome
pub mod Atomic
pub mod Invariant
pub mod Digest
pub mod Success
use fileloft.Base.{
  ℕ, Bool, true, false, not, ◌&&◌, Option, none, some, List, [], ◌∷◌, if◌then◌else◌, ltb, ◌==◌,
  Text, codes, starts_with,
}
use fileloft.Proto.{
  content_type_octet_stream, hdr_content_type, hdr_upload_checksum, hdr_upload_expires,
  hdr_upload_offset,
}
use fileloft.Error.{TusError, Result, ok, err}
use fileloft.Exec.{Exec, pure, lift, ◌>>=◌, ◌>>◌}
use fileloft.Info.{UploadInfo, is_complete, is_none}
use fileloft.Info.Id.{UploadId}
use fileloft.Info.Codec.{Bytes}
use fileloft.Config.{Config}
use fileloft.Hooks.{HookEvent, upload_progress, upload_finished}
use fileloft.Crates.{Crates, ChecksumAlgorithm}
use fileloft.Checksum
use fileloft.Store.{Reader}
use fileloft.Util.{
  unwrap_or, ok_or, get_str, check_tus_resumable, parse_upload_offset, parse_upload_length,
  u64_header,
}
use fileloft.Handler.Base.{
  TusHandler, Ambient, Action, in_store, emit, with_lock, check_expiry, run_hook, refuse_if,
  request_id, TusBody, TusRequest, TusResponse, insert_parsed, response_with_body,
}

abbrev pub too_large : Config → ℕ → Bool
too_large config size = ltb 0 config.max_size && ltb config.max_size size

module _ (h : TusHandler) where
  abbrev pub declare : h.store.Upload → Option ℕ → Action h (Unit {0})
  declare upload none = pure tt
  declare upload (some declared_size) = do
    lift
        (refuse_if (too_large h.config declared_size) (TusError.entity_too_large h.config.max_size))
    in_store h (h.store.declare_length upload declared_size)

  -- The call of `finalize` and its event, when all bytes have been received; `post.rs` has the
  -- same lines.
  unfoldable pub finish_if_complete : h.store.Upload → UploadInfo → Action h (Unit {0})
  finish_if_complete upload info =
      if is_complete info
      then (do
        lift (run_hook h h.config.hooks.pre_finish info)
        in_store h (h.store.finalize upload)
        emit h (upload_finished info))
      else pure tt

module _ (x : Crates) (h : TusHandler) where
  open x use {HeaderMap, get, empty, insert, http_date}

  -- `Upload-Length` on an upload whose length was deferred.
  unfoldable pub declare_deferred : h.store.Upload → UploadInfo → HeaderMap → Action h (Unit {0})
  declare_deferred upload info headers =
      if info.size_is_deferred && is_none info.size
      then (do length ← lift (parse_upload_length x headers); declare h upload length)
      else pure tt

  abbrev pub checksum_value : Option Text → Result (Option (ChecksumAlgorithm × Bytes))
  checksum_value none = ok none
  checksum_value (some value) = elim (Checksum.parse_checksum_header x value) [
    | ok c ↦ ok (some c)
    | err e ↦ err e
  ]

  abbrev pub checksum_header :
      Option x.HeaderValue → HeaderMap → Result (Option (ChecksumAlgorithm × Bytes))
  checksum_header none headers = ok none
  checksum_header (some v) headers =
      if h.config.extensions.checksum
      then checksum_value (get_str x headers hdr_upload_checksum)
      else err (TusError.extension_not_enabled (codes "checksum"))

  unfoldable pub request_checksum : HeaderMap → Result (Option (ChecksumAlgorithm × Bytes))
  request_checksum headers = checksum_header (get headers hdr_upload_checksum) headers

  -- The write, after the digest of the whole body has been compared if there is one to compare.
  unfoldable pub write_body :
      h.store.Upload → ℕ → Option (ChecksumAlgorithm × Bytes) → Reader → Action h ℕ
  write_body upload offset none body = in_store h (h.store.write_chunk upload offset body)
  write_body upload offset (some (algorithm, expected)) body = do
    (r, buf) ← lift (Checksum.read_all (Checksum.new body algorithm expected))
    lift (Checksum.verify x r)
    in_store h (h.store.write_chunk upload offset (Reader.bytes buf))

  -- `Upload-Expires` on a response, when the extension is on; `post.rs` has the same lines.
  abbrev pub expires_header : Option ℕ → HeaderMap → HeaderMap
  expires_header none headers = headers
  expires_header (some at) headers = insert_parsed x headers hdr_upload_expires (http_date at)

  abbrev pub patch_response : UploadInfo → TusResponse x
  patch_response info =
      let headers = insert empty hdr_upload_offset (u64_header x info.offset) in
      response_with_body x h.config 204
        (if h.config.extensions.expiration then expires_header info.expires_at headers else headers)
        (TusBody.bytes [])

  -- From the check of the body on: the write and what follows it.
  unfoldable pub write_and_report :
      h.store.Upload
      → ℕ
      → Option (ChecksumAlgorithm × Bytes)
      → Option Reader
      → Action h (TusResponse x)
  write_and_report upload offset checksum request_body = do
    body ← lift (ok_or request_body (TusError.internal (codes "PATCH missing body")))
    written ← write_body upload offset checksum body
    new_info ← in_store h (h.store.get_info upload)
    emit h (upload_progress new_info)
    finish_if_complete h upload new_info
    pure (patch_response new_info)

  -- The handler's checks of the upload that it found.
  unfoldable pub check_upload : Ambient → UploadInfo → ℕ → Result (Unit {0})
  check_upload ambient info client_offset =
      if info.is_final
      then err TusError.patch_on_final_upload
      else if info.offset == client_offset
      then check_expiry h ambient.now info.expires_at
      else err (TusError.offset_mismatch info.offset client_offset)

  -- What runs under the lock.
  unfoldable pub patch_upload : Ambient → TusRequest x → ℕ → UploadId → Action h (TusResponse x)
  patch_upload ambient req client_offset id = do
    upload ← in_store h (h.store.get_upload id)
    info ← in_store h (h.store.get_info upload)
    lift (check_upload ambient info client_offset)
    declare_deferred upload info req.headers
    checksum ← lift (request_checksum req.headers)
    write_and_report upload client_offset checksum req.body

  unfoldable pub handle : Ambient → TusRequest x → Action h (TusResponse x)
  handle ambient req = do
    lift (check_tus_resumable x req.headers)
    let ct = unwrap_or (get_str x req.headers hdr_content_type) []
    lift (
        refuse_if (not (starts_with ct content_type_octet_stream)) (TusError.wrong_content_type ct))
    client_offset ← lift (parse_upload_offset x req.headers)
    id ← lift (request_id req.upload_id)
    with_lock h id (patch_upload ambient req client_offset id)
