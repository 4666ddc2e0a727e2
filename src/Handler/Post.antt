-- ===== src/Handler/Post.antt =====
-- crates/fileloft-core/src/handler/post.rs
pub mod Request
pub mod Concat
use fileloft.Base.{
  ℕ, Bool, true, false, not, ◌&&◌, Option, none, some, List, [], ◌∷◌, ◌++◌, if◌then◌else◌, ltb,
  Text, codes, starts_with, trim_end_matches,
}
use fileloft.Proto.{
  content_type_octet_stream, hdr_content_type, hdr_location, hdr_upload_length, hdr_upload_offset,
}
use fileloft.Error.{TusError, Result, ok, err}
use fileloft.Exec.{Exec, pure, lift, ◌>>=◌, ◌>>◌}
use fileloft.Info.{UploadInfo, UploadInfoChanges, is_complete}
use fileloft.Info.Id.{UploadId, validate}
use fileloft.Hooks.{upload_created, upload_terminated}
use fileloft.Crates.{Crates}
use fileloft.Store.{Reader}
use fileloft.Util.{unwrap_or, is_slash, u64_header, request_base_url, check_tus_resumable}
use fileloft.Handler.Base.{
  TusHandler, Ambient, Action, in_store, emit, run_hook, refuse_if, TusBody, TusRequest,
  TusResponse, response_with_body,
}
use fileloft.Handler.Patch.{finish_if_complete, expires_header}
use Request.{ConcatHeader, concat_header, proposed_info}

-- The overrides of the `pre_create` hook.
abbrev pub override {ℓ} : {A : Type ℓ} → Option A → A → A
override changed old = unwrap_or changed old

abbrev validated : Option UploadId → Result (Unit {0})
validated none = ok tt
validated (some id) = validate id

unfoldable pub apply_changes : UploadInfo → UploadInfoChanges → Result UploadInfo
apply_changes info changes = elim (validated changes.id) [
  | err e ↦ err e
  | ok _ ↦ ok (record info {
    id = override changes.id info.id;
    metadata = override changes.metadata info.metadata;
    storage = override changes.storage info.storage;
  })
]

abbrev changed_by : UploadInfo → Result UploadInfoChanges → Result UploadInfo
changed_by info (err e) = err e
changed_by info (ok changes) = apply_changes info changes

unfoldable pub pre_create :
    Option (UploadInfo → Result UploadInfoChanges) → UploadInfo → Result UploadInfo
unfolding apply_changes
pre_create none info = ok info
pre_create (some cb) info = changed_by info (cb info)

module _ (h : TusHandler) where
  -- The tests of `fetch_partial_infos` on one upload.
  unfoldable pub check_partial : UploadId → UploadInfo → Result (Unit {0})
  check_partial id info =
      if not info.is_partial
      then err (TusError.not_partial_upload id)
      else if not (is_complete info)
      then err (TusError.partial_upload_incomplete id)
      else ok tt

  unfoldable pub fetch_partial_infos : List UploadId → Action h (List UploadInfo)
  fetch_partial_infos [] = pure []
  fetch_partial_infos (id ∷ ids) = do
    upload ← in_store h (h.store.get_upload id)
    info ← in_store h (h.store.get_info upload)
    lift (check_partial id info)
    infos ← fetch_partial_infos ids
    pure (info ∷ infos)

  unfoldable pub assemble : Bool → h.store.Upload → List UploadId → Action h (Unit {0})
  assemble final upload ids =
      if final && h.config.extensions.concatenation
      then (do partials ← fetch_partial_infos ids; in_store h (h.store.concatenate upload partials))
      else pure tt

  abbrev pub terminate_hook :
      Option (UploadInfo → Result (Unit {0})) → h.store.Upload → Action h (Unit {0})
  terminate_hook none u = pure tt
  terminate_hook (some cb) u = do info ← in_store h (h.store.get_info u); lift (cb info)

  unfoldable pub remove_partials : List UploadId → Action h (Unit {0})
  remove_partials [] = pure tt
  remove_partials (id ∷ ids) = do
    u ← in_store h (h.store.get_upload id)
    terminate_hook h.config.hooks.pre_terminate u
    in_store h (h.store.delete u)
    emit h (upload_terminated id)
    remove_partials ids

  -- The clean-up after a concatenation, which reads the upload's state again.
  unfoldable pub clean_up : Bool → h.store.Upload → UploadInfo → Action h UploadInfo
  clean_up final upload info =
      if final && (h.config.extensions.concatenation && h.config.extensions.cleanup_concat_partials)
      then (do remove_partials info.partial_uploads; in_store h (h.store.get_info upload))
      else pure info

  abbrev pub exceeds : ℕ → Option ℕ → Result (Unit {0})
  exceeds written none = ok tt
  exceeds written (some declared) =
      refuse_if (ltb declared written) (TusError.exceeds_upload_length declared written)

module _ (x : Crates) (h : TusHandler) where
  open x use {HeaderMap, HeaderValue, get, empty, insert, from_str, to_str}

  abbrev pub write_if_some : h.store.Upload → Option Reader → Action h ℕ
  write_if_some upload none = pure 0
  write_if_some upload (some body) = in_store h (h.store.write_chunk upload 0 body)

  abbrev pub write_octets : Option HeaderValue → h.store.Upload → TusRequest x → Action h ℕ
  write_octets none upload req = pure 0
  write_octets (some ct) upload req =
      if starts_with (unwrap_or (to_str ct) []) content_type_octet_stream
      then write_if_some upload req.body
      else pure 0

  -- The body of a creation with upload.
  unfoldable pub write_initial : h.store.Upload → TusRequest x → Action h ℕ
  write_initial upload req =
      if h.config.extensions.creation_with_upload
      then write_octets (get req.headers hdr_content_type) upload req
      else pure 0

  unfoldable pub build_location : UploadId → TusRequest x → Text
  build_location id req =
      request_base_url x h.config req.headers
      ++ (trim_end_matches is_slash h.config.base_path ++ (codes "/" ++ id))

  abbrev pub size_header : Option ℕ → HeaderMap → HeaderMap
  size_header none headers = headers
  size_header (some size) headers = insert headers hdr_upload_length (u64_header x size)

  unfoldable pub created_response : UploadInfo → TusRequest x → Result (TusResponse x)
  created_response info req = elim (from_str (build_location info.id req)) [
    | none ↦ err (TusError.internal (codes "bad location"))
    | some location ↦
        let h1 = insert empty hdr_location location in
        let h2 = insert h1 hdr_upload_offset (u64_header x info.offset) in
        let h3 = size_header info.size h2 in
        ok (
          response_with_body x h.config 201
            (if h.config.extensions.expiration then expires_header x h info.expires_at h3 else h3)
            (TusBody.bytes []))
  ]

  -- From the creation of the slot on.
  unfoldable pub create_and_fill : Bool → UploadInfo → TusRequest x → Action h (TusResponse x)
  create_and_fill final info req = do
    upload ← in_store h (h.store.create_upload info)
    assemble h final upload info.partial_uploads
    written ← write_initial upload req
    stored ← in_store h (h.store.get_info upload)
    lift (exceeds h written stored.size)
    final_info ← clean_up h final upload stored
    emit h (upload_created final_info)
    finish_if_complete h upload final_info
    lift (created_response final_info req)

  unfoldable pub handle : Ambient → TusRequest x → Action h (TusResponse x)
  handle ambient req = do
    lift (check_tus_resumable x req.headers)
    proposed ← lift (proposed_info x h.config ambient req.headers)
    info ← lift (pre_create h.config.hooks.pre_create proposed)
    create_and_fill (concat_header x req.headers).is_final info req
