-- ===== src/Handler/Read/Headers.antt =====
-- The headers of the answer to HEAD, as a client reads them.
use fileloft.Base.{
  ℕ, ◌≤◌, ◌≡◌, refl, ◌∙◌, Bool, true, false, Option, none, some, Option-cases, inl, inr, is_empty,
  Text, u64_max, text_eq, to_lowercase, Bool-cases,
}
use fileloft.Error.{ok}
use fileloft.Info.{UploadInfo}
use fileloft.Info.Metadata.{Metadata}
use fileloft.Proto.{
  hdr_upload_offset, hdr_upload_length, hdr_upload_defer_length, hdr_upload_metadata,
  hdr_upload_expires,
}
use fileloft.Crates.{Crates, IsHttp, same_name}
use fileloft.Util.{parse_upload_offset, parse_upload_length, u64_header}
use fileloft.Util.Readback.{parse_upload_offset-u64_header, parse_upload_length-u64_header}
use fileloft.Handler.Base.{TusHandler, TusBody, insert_parsed, base_headers, response_with_body}
use fileloft.Handler.Read.{head_headers, length_header, metadata_header, head_expires}

module _ (x : Crates) (http : IsHttp x) where
  pub get-insert_same :
      (headers : x.HeaderMap) (name : Text) (v : x.HeaderValue)
      → same_name name name ≡ true
      → x.get (x.insert headers name v) name ≡ some v
  get-insert_same headers name v same = http.get-insert headers name name v ∙ rw same refl

  pub get-insert_other :
      (headers : x.HeaderMap) (k name : Text) (v : x.HeaderValue)
      → same_name k name ≡ false
      → x.get (x.insert headers k v) name ≡ x.get headers name
  get-insert_other headers k name v other = http.get-insert headers k name v ∙ rw other refl

  pub get-insert_parsed_other :
      (headers : x.HeaderMap) (k name text : Text)
      → same_name k name ≡ false
      → x.get (insert_parsed x headers k text) name ≡ x.get headers name
  get-insert_parsed_other headers k name text other = elim (Option-cases (x.from_str text)) [
    | inl bad ↦ rw (bad, insert_parsed) refl
    | inr (v, e) ↦ rw (e, insert_parsed) (get-insert_other headers k name v other)
  ]

  module _ (h : TusHandler) (name : Text) where
    pub get-head_expires :
        (at : Option ℕ) (headers : x.HeaderMap)
        → same_name hdr_upload_expires name ≡ false
        → x.get (head_expires x h at headers) name ≡ x.get headers name
    get-head_expires none headers other = refl
    get-head_expires (some at) headers other =
        get-insert_parsed_other headers hdr_upload_expires name _ other

    pub get-metadata_header :
        (metadata : Metadata) (headers : x.HeaderMap)
        → same_name hdr_upload_metadata name ≡ false
        → x.get (metadata_header x h metadata headers) name ≡ x.get headers name
    get-metadata_header metadata headers other = elim (Bool-cases (is_empty metadata)) [
      | inl empty ↦ rw empty refl
      | inr full ↦ rw full (get-insert_parsed_other headers hdr_upload_metadata name _ other)
    ]

    pub get-length_header :
        (size : Option ℕ) (deferred : Bool) (headers : x.HeaderMap)
        → same_name hdr_upload_length name ≡ false
        → same_name hdr_upload_defer_length name ≡ false
        → x.get (length_header x h size deferred headers) name ≡ x.get headers name
    get-length_header (some size) deferred headers other1 other2 =
        get-insert_other headers hdr_upload_length name _ other1
    get-length_header none true headers other1 other2 =
        get-insert_other headers hdr_upload_defer_length name _ other2
    get-length_header none false headers other1 other2 = refl

  get-response :
      (h : TusHandler) (status : ℕ) (extra : x.HeaderMap) (body : TusBody) (name : Text)
      (v : x.HeaderValue)
      → x.get extra name ≡ some v
      → x.get (response_with_body x h.config status extra body).headers name ≡ some v
  get-response h status extra body name v there =
      http.get-extend (base_headers x h.config) extra name ∙ rw there refl

  module _ (h : TusHandler) (info : UploadInfo) where
    offset_there : x.get (head_headers x h info) hdr_upload_offset ≡ some (u64_header x info.offset)
    unfolding same_name text_eq to_lowercase
    offset_there =
        get-head_expires h hdr_upload_offset info.expires_at _ refl
        ∙ (get-metadata_header h hdr_upload_offset info.metadata _ refl
            ∙ (get-length_header h hdr_upload_offset info.size info.size_is_deferred _ refl refl
                ∙ get-insert_same x.empty hdr_upload_offset (u64_header x info.offset) refl))

    length_there :
        (size : ℕ)
        → info.size ≡ some size
        → x.get (head_headers x h info) hdr_upload_length ≡ some (u64_header x size)
    unfolding same_name text_eq to_lowercase
    length_there size declared =
        get-head_expires h hdr_upload_length info.expires_at _ refl
        ∙ (get-metadata_header h hdr_upload_length info.metadata _ refl
            ∙ rw declared (get-insert_same _ hdr_upload_length (u64_header x size) refl))

    -- A client reads the state of an upload from the headers that answer a HEAD with the parsers
    -- of this library: the offset and the declared length, if both fit a `u64`.
    pub head-parse :
        (body : TusBody) (size : ℕ)
        → info.offset ≤ u64_max
        → info.size ≡ some size
        → size ≤ u64_max
        → (parse_upload_offset x
              (response_with_body x h.config 204 (head_headers x h info) body).headers
            ≡ ok info.offset)
          × (parse_upload_length x
                (response_with_body x h.config 204 (head_headers x h info) body).headers
              ≡ ok (some size))
    head-parse body size small declared short = (
      parse_upload_offset-u64_header x http info.offset small _
          (get-response h 204 (head_headers x h info) body hdr_upload_offset _ offset_there),
      parse_upload_length-u64_header x http size short _ (
          get-response h 204 (head_headers x h info) body hdr_upload_length _
            (length_there size declared)),
    )
