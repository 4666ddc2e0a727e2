-- ===== src/Handler/Read.antt =====
-- crates/fileloft-core/src/handler/head.rs and get.rs: the requests that change no upload.
pub mod Answers
pub mod Headers
pub mod Shown
use fileloft.Base.{
  ℕ, Bool, true, false, not, Option, none, some, [], if◌then◌else◌, is_empty, codes,
}
use fileloft.Proto.{
  hdr_upload_offset, hdr_upload_length, hdr_upload_defer_length, hdr_upload_metadata,
  hdr_upload_expires, hdr_content_type, hdr_content_length,
}
use fileloft.Error.{TusError}
use fileloft.Exec.{pure, lift, ◌>>=◌, ◌>>◌}
use fileloft.Info.{UploadInfo, is_complete}
use fileloft.Info.Id.{UploadId}
use fileloft.Info.Metadata
use fileloft.Crates.{Crates}
use fileloft.Util.{check_tus_resumable, u64_header}
use fileloft.Handler.Base.{
  TusHandler, Ambient, Action, in_store, with_lock, check_expiry, refuse_if, request_id, TusBody,
  TusRequest, TusResponse, insert_parsed, response_with_body,
}

module _ (x : Crates) (h : TusHandler) where
  open x use {HeaderMap, empty, insert, from_static, base64, http_date, iterate}

  abbrev pub length_header : Option ℕ → Bool → HeaderMap → HeaderMap
  length_header (some size) deferred headers = insert headers hdr_upload_length (u64_header x size)
  length_header none true headers = insert headers hdr_upload_defer_length (from_static (codes "1"))
  length_header none false headers = headers

  abbrev pub metadata_header : Metadata.Metadata → HeaderMap → HeaderMap
  metadata_header metadata headers =
      if is_empty metadata
      then headers
      else insert_parsed x headers hdr_upload_metadata (Metadata.encode base64 iterate metadata)

  abbrev pub head_expires : Option ℕ → HeaderMap → HeaderMap
  head_expires none headers = headers
  head_expires (some at) headers = insert_parsed x headers hdr_upload_expires (http_date at)

  abbrev pub head_headers : UploadInfo → HeaderMap
  head_headers info = head_expires info.expires_at (
      metadata_header info.metadata (
        length_header info.size info.size_is_deferred
          (insert empty hdr_upload_offset (u64_header x info.offset))))

  -- `head::handle`
  unfoldable pub head : Ambient → TusRequest x → Action h (TusResponse x)
  head ambient req = do
    lift (check_tus_resumable x req.headers)
    id ← lift (request_id req.upload_id)
    upload ← in_store h (h.store.get_upload id)
    info ← in_store h (h.store.get_info upload)
    lift (check_expiry h ambient.now info.expires_at)
    pure (response_with_body x h.config 204 (head_headers info) (TusBody.bytes []))

  abbrev pub content_length : Option ℕ → HeaderMap → HeaderMap
  content_length none headers = headers
  content_length (some len) headers = insert headers hdr_content_length (u64_header x len)

  -- What `get::handle` does under the lock.
  unfoldable pub get_upload_content : Ambient → UploadId → Action h (TusResponse x)
  get_upload_content ambient id = do
    upload ← in_store h (h.store.get_upload id)
    info ← in_store h (h.store.get_info upload)
    lift (check_expiry h ambient.now info.expires_at)
    lift (refuse_if (not (is_complete info)) TusError.upload_not_ready_for_download)
    reader ← in_store h (h.store.read_content upload)
    let headers = insert empty hdr_content_type (from_static (codes "application/octet-stream"))
    pure (
        response_with_body x h.config 200 (content_length info.size headers)
          (TusBody.reader reader))

  -- `get::handle`
  unfoldable pub get : Ambient → TusRequest x → Action h (TusResponse x)
  get ambient req = do
    lift (refuse_if (not h.config.enable_download) TusError.method_not_allowed)
    id ← lift (request_id req.upload_id)
    with_lock h id (get_upload_content ambient id)
