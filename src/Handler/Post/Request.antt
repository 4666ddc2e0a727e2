-- ===== src/Handler/Post/Request.antt =====
-- crates/fileloft-core/src/handler/post.rs: what a creation request asks for, up to the call of
-- the `pre_create` hook.
pub mod Urls
pub mod Valid
use fileloft.Base.{
  ℕ, ◌+◌, Bool, true, false, not, ◌&&◌, Option, none, some, List, [], ◌∷◌, if◌then◌else◌, Text,
  codes, text_eq, starts_with,
}
use fileloft.Proto.{hdr_upload_concat, hdr_upload_metadata}
use fileloft.Error.{TusError, Result, ok, err, ◌>>=◌}
use fileloft.Info.{UploadInfo, new, is_none}
use fileloft.Info.Id.{UploadId}
use fileloft.Info.Metadata
use fileloft.Info.Codec.{Outcome, done, failed}
use fileloft.Config.{Config, Extensions}
use fileloft.Crates.{Crates}
use fileloft.Util.{unwrap_or, get_str, has_defer_length, parse_upload_length}
use fileloft.Handler.Base.{Ambient, refuse_if}
use fileloft.Handler.Patch.{too_large}
use Urls.{parse_concat_final_urls, extract_all}

-- The `Upload-Concat` header.
pub record ConcatHeader : Type 0 where
  pub value : Text
  pub is_final : Bool
  pub is_partial : Bool

abbrev pub read_concat : Option Text → ConcatHeader
read_concat none = record { value = []; is_final = false; is_partial = false }
read_concat (some v) = record {
  value = v;
  is_final = starts_with v (codes "final;");
  is_partial = text_eq v (codes "partial");
}

abbrev pub over_max : Config → Option ℕ → Bool
over_max config none = false
over_max config (some size) = too_large config size

module _ (x : Crates) where
  open x use {HeaderMap, HeaderValue, get, to_str, base64, duration_from_std}

  abbrev pub concat_header : HeaderMap → ConcatHeader
  concat_header headers = read_concat (get_str x headers hdr_upload_concat)

  -- The guards on the size and on the extensions that a request needs.
  unfoldable pub check_creation : Config → ConcatHeader → Option ℕ → Bool → Result (Unit {0})
  check_creation config concat upload_length defer =
      if is_none upload_length && (not defer && not concat.is_final)
      then err TusError.missing_upload_length
      else if defer && not config.extensions.creation_defer_length
      then err (TusError.extension_not_enabled (codes "creation-defer-length"))
      else refuse_if (over_max config upload_length) (TusError.entity_too_large config.max_size)

  abbrev metadata_value : Option HeaderValue → Result Metadata.Metadata
  metadata_value none = ok []
  metadata_value (some v) = Metadata.parse base64 (unwrap_or (to_str v) [])

  abbrev partial_ids : Config → ConcatHeader → Result (List UploadId)
  partial_ids config concat =
      if concat.is_final
      then (do urls ← parse_concat_final_urls concat.value; extract_all config.base_path urls)
      else ok []

  -- `chrono::Utc::now() + Duration::from_std(ttl)?`
  abbrev expiry_after : ℕ → Outcome ℕ → Result (Option ℕ)
  expiry_after now (done ttl) = ok (some (now + ttl))
  expiry_after now (failed why) = err (TusError.internal why)

  abbrev expiry_of : ℕ → Option ℕ → Result (Option ℕ)
  expiry_of now none = ok none
  expiry_of now (some ttl) = expiry_after now (duration_from_std ttl)

  abbrev expiry : Extensions → ℕ → Result (Option ℕ)
  expiry extensions now =
      if extensions.expiration then expiry_of now extensions.expiration_ttl else ok none

  -- The `UploadInfo` that is shown to the hook.
  unfoldable pub proposed_info : Config → Ambient → HeaderMap → Result UploadInfo
  proposed_info config ambient headers = do
    let concat = concat_header headers
    _ ←
        refuse_if (not config.extensions.creation)
          (TusError.extension_not_enabled (codes "creation"))
    _ ←
        refuse_if (concat.is_final && not config.extensions.concatenation)
          (TusError.extension_not_enabled (codes "concatenation"))
    upload_length ← parse_upload_length x headers
    _ ← check_creation config concat upload_length (has_defer_length x headers)
    metadata ← metadata_value (get headers hdr_upload_metadata)
    partial_uploads ← partial_ids config concat
    expires_at ← expiry config.extensions ambient.now
    let info = new ambient.fresh_id upload_length
    ok (record info {
      metadata = metadata;
      size_is_deferred = has_defer_length x headers;
      expires_at = expires_at;
      is_partial = concat.is_partial;
      is_final = concat.is_final;
      partial_uploads = partial_uploads;
    })
