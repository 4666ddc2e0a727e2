-- ===== src/Handler/Options.antt =====
-- crates/fileloft-core/src/handler/options.rs
use fileloft.Base.{
  Bool, ◌&&◌, none, some, List, [], ◌∷◌, ◌++◌, if◌then◌else◌, ltb, is_empty, Text, codes, join,
  to_string,
}
use fileloft.Proto.{
  tus_version, hdr_tus_version, hdr_tus_extension, hdr_tus_checksum_algorithm, hdr_tus_max_size,
  hdr_access_control_allow_methods, hdr_access_control_allow_headers, hdr_access_control_max_age,
  ext_creation, ext_creation_with_upload, ext_creation_defer_length, ext_expiration, ext_checksum,
  ext_checksum_trailer, ext_termination, ext_concatenation, checksum_trailer_implemented,
}
use fileloft.Error.{TusError, Result, ok, err, ◌>>=◌}
use fileloft.Config.{Config, Extensions}
use fileloft.Crates.{Crates}
use fileloft.Checksum.{algorithms_header}
use fileloft.Util.{u64_header}
use fileloft.Handler.Base.{append_extras, TusBody, TusResponse, response_with_body}

-- `if enabled { exts.push(name); }`
abbrev push_if : Bool → Text → List Text → List Text
push_if enabled name exts = if enabled then exts ++ name ∷ [] else exts

-- The list `exts`.
unfoldable pub extension_list : Extensions → List Text
extension_list ext =
    let e1 = push_if ext.creation ext_creation [] in
    let e2 = push_if ext.creation_with_upload ext_creation_with_upload e1 in
    let e3 = push_if ext.creation_defer_length ext_creation_defer_length e2 in
    let e4 = push_if ext.expiration ext_expiration e3 in
    let e5 = push_if ext.checksum ext_checksum e4 in
    let e6 =
      push_if (ext.checksum_trailer && checksum_trailer_implemented) ext_checksum_trailer e5 in
    let e7 = push_if ext.termination ext_termination e6 in
    push_if ext.concatenation ext_concatenation e7

abbrev pub allowed : Text
allowed =
    codes "Tus-Resumable,Upload-Length,Upload-Offset,Upload-Metadata,"
    ++ codes "Upload-Defer-Length,Upload-Checksum,Upload-Concat,Content-Type"

module _ (x : Crates) where
  open x use {HeaderMap, HeaderValue, empty, insert, from_str, from_static}

  -- `text.parse().map_err(|_| Internal(why))?`
  abbrev parse_header : Text → (why : Text) → Result HeaderValue
  parse_header text why = elim (from_str text) [
    | none ↦ err (TusError.internal why)
    | some v ↦ ok v
  ]

  abbrev pub insert_checked : HeaderMap → Text → Text → (why : Text) → Result HeaderMap
  insert_checked headers name text why = do v ← parse_header text why; ok (insert headers name v)

  unfoldable pub extension_header : Extensions → HeaderMap → Result HeaderMap
  extension_header ext headers =
      let exts = extension_list ext in
      if is_empty exts
      then ok headers
      else insert_checked headers hdr_tus_extension (join (codes ",") exts)
          (codes "bad extension header")

  unfoldable pub algorithm_header : Extensions → HeaderMap → Result HeaderMap
  algorithm_header ext headers =
      if ext.checksum
      then insert_checked headers hdr_tus_checksum_algorithm algorithms_header
          (codes "bad algorithm header")
      else ok headers

  abbrev pub max_size_header : Config → HeaderMap → HeaderMap
  max_size_header config headers =
      if ltb 0 config.max_size
      then insert headers hdr_tus_max_size (u64_header x config.max_size)
      else headers

  abbrev methods : Config → Text
  methods config =
      if config.enable_download
      then codes "OPTIONS,HEAD,GET,POST,PATCH,DELETE"
      else codes "OPTIONS,HEAD,POST,PATCH,DELETE"

  unfoldable pub preflight_headers : Config → HeaderMap → Result HeaderMap
  preflight_headers config headers =
      if config.cors.enabled
      then (do
        h1 ←
            insert_checked headers hdr_access_control_allow_methods (methods config)
              (codes "bad CORS methods header")
        h2 ←
            insert_checked h1 hdr_access_control_allow_headers
              (append_extras x allowed config.cors.extra_allow_headers)
              (codes "bad CORS allow-headers")
        insert_checked h2 hdr_access_control_max_age (to_string config.cors.max_age)
            (codes "bad CORS max-age"))
      else ok headers

  -- `options::handle`, which reads nothing of the request.
  unfoldable pub handle : Config → Result (TusResponse x)
  handle config = do
    let h0 = insert empty hdr_tus_version (from_static tus_version)
    h1 ← extension_header config.extensions h0
    h2 ← algorithm_header config.extensions h1
    h3 ← preflight_headers config (max_size_header config h2)
    ok (response_with_body x config 204 h3 (TusBody.bytes []))
