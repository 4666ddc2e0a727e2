-- ===== src/Handler/Read/Shown.antt =====
-- Which headers HEAD and GET send of an upload.
use fileloft.Base.{
  ℕ, ◌≡◌, refl, ◌∙◌, Bool, true, false, Option, none, some, Option-cases, inl, inr, [], ◌∷◌, Text,
  codes, text_eq, to_lowercase,
}
use fileloft.Info.{UploadInfo}
use fileloft.Info.Metadata
use fileloft.Proto.{
  hdr_upload_offset, hdr_upload_length, hdr_upload_defer_length, hdr_upload_metadata,
  hdr_upload_expires, hdr_content_type, hdr_content_length,
}
use fileloft.Crates.{Crates, IsHttp, same_name, or_else}
use fileloft.Util.{u64_header}
use fileloft.Handler.Base.{TusHandler, insert_parsed}
use fileloft.Handler.Read.{
  head_headers, length_header, metadata_header, head_expires, content_length,
}
use fileloft.Handler.Read.Headers.{
  get-insert_same, get-insert_other, get-head_expires, get-metadata_header, get-length_header,
}

module _ (x : Crates) where
  -- The value of each header, from the state of the upload.
  abbrev pub sent_number : Option ℕ → Option x.HeaderValue
  sent_number none = none
  sent_number (some n) = some (u64_header x n)

  abbrev pub sent_defer : Option ℕ → Bool → Option x.HeaderValue
  sent_defer none true = some (x.from_static (codes "1"))
  sent_defer none false = none
  sent_defer (some n) deferred = none

  abbrev pub sent_metadata : Metadata.Metadata → Option x.HeaderValue
  sent_metadata [] = none
  sent_metadata (e ∷ m) = x.from_str (Metadata.encode x.base64 x.iterate (e ∷ m))

  abbrev pub sent_date : Option ℕ → Option x.HeaderValue
  sent_date none = none
  sent_date (some at) = x.from_str (x.http_date at)

  -- What HEAD adds to the headers of every response.
  pub record Shows (info : UploadInfo) (headers : x.HeaderMap) : Type 0 where
    pub offset : x.get headers hdr_upload_offset ≡ some (u64_header x info.offset)
    pub length : x.get headers hdr_upload_length ≡ sent_number info.size
    pub defer_length :
        x.get headers hdr_upload_defer_length ≡ sent_defer info.size info.size_is_deferred
    pub metadata : x.get headers hdr_upload_metadata ≡ sent_metadata info.metadata
    pub expires : x.get headers hdr_upload_expires ≡ sent_date info.expires_at

  -- What GET adds.
  pub record ShowsContent (size : Option ℕ) (headers : x.HeaderMap) : Type 0 where
    pub content_type :
        x.get headers hdr_content_type ≡ some (x.from_static (codes "application/octet-stream"))
    pub sent_length : x.get headers hdr_content_length ≡ sent_number size

  module _ (http : IsHttp x) (h : TusHandler) where
    get-insert_parsed :
        (headers : x.HeaderMap) (name text : Text)
        → same_name name name ≡ true
        → x.get (insert_parsed x headers name text) name
          ≡ or_else (x.from_str text) (x.get headers name)
    get-insert_parsed headers name text same = elim (Option-cases (x.from_str text)) [
      | inl bad ↦ rw (bad, insert_parsed) refl
      | inr (v, e) ↦ rw (e, insert_parsed) (get-insert_same x http headers name v same)
    ]

    or_none : (o : Option x.HeaderValue) → or_else o none ≡ o
    or_none none = refl
    or_none (some v) = refl

    start :
        (name : Text) (v : x.HeaderValue)
        → same_name hdr_upload_offset name ≡ false
        → x.get (x.insert x.empty hdr_upload_offset v) name ≡ none
    start name v other =
        get-insert_other x http x.empty hdr_upload_offset name v other ∙ http.get-empty name

    shown_length :
        (size : Option ℕ) (deferred : Bool) (v : x.HeaderValue)
        → x.get
            (length_header x h size deferred (x.insert x.empty hdr_upload_offset v))
            hdr_upload_length
          ≡ sent_number size
    unfolding same_name text_eq to_lowercase
    shown_length (some n) deferred v =
        get-insert_same x http _ hdr_upload_length (u64_header x n) refl
    shown_length none true v =
        get-insert_other x http _ hdr_upload_defer_length hdr_upload_length _ refl
        ∙ start hdr_upload_length v refl
    shown_length none false v = start hdr_upload_length v refl

    defer_value :
        (size : Option ℕ) (deferred : Bool) (v : x.HeaderValue)
        → x.get
            (length_header x h size deferred (x.insert x.empty hdr_upload_offset v))
            hdr_upload_defer_length
          ≡ sent_defer size deferred
    unfolding same_name text_eq to_lowercase
    defer_value (some n) deferred v =
        get-insert_other x http _ hdr_upload_length hdr_upload_defer_length _ refl
        ∙ start hdr_upload_defer_length v refl
    defer_value none true v = get-insert_same x http _ hdr_upload_defer_length _ refl
    defer_value none false v = start hdr_upload_defer_length v refl

    shown_metadata :
        (metadata : Metadata.Metadata) (headers : x.HeaderMap)
        → x.get headers hdr_upload_metadata ≡ none
        → x.get (metadata_header x h metadata headers) hdr_upload_metadata ≡ sent_metadata metadata
    unfolding same_name text_eq to_lowercase
    shown_metadata [] headers bare = bare
    shown_metadata (e ∷ m) headers bare =
        get-insert_parsed headers hdr_upload_metadata _ refl ∙ rw bare (or_none _)

    date_value :
        (at : Option ℕ) (headers : x.HeaderMap)
        → x.get headers hdr_upload_expires ≡ none
        → x.get (head_expires x h at headers) hdr_upload_expires ≡ sent_date at
    unfolding same_name text_eq to_lowercase
    date_value none headers bare = bare
    date_value (some at) headers bare =
        get-insert_parsed headers hdr_upload_expires _ refl ∙ rw bare (or_none _)

    pub head_headers-Shows : (info : UploadInfo) → Shows info (head_headers x h info)
    unfolding same_name text_eq to_lowercase
    head_headers-Shows info = record {
      offset =
          get-head_expires x http h hdr_upload_offset info.expires_at _ refl
          ∙ (get-metadata_header x http h hdr_upload_offset info.metadata _ refl
              ∙ (get-length_header x http h hdr_upload_offset info.size info.size_is_deferred _ refl
                    refl
                  ∙ get-insert_same x http x.empty hdr_upload_offset (u64_header x info.offset)
                      refl));
      length =
          get-head_expires x http h hdr_upload_length info.expires_at _ refl
          ∙ (get-metadata_header x http h hdr_upload_length info.metadata _ refl
              ∙ shown_length info.size info.size_is_deferred _);
      defer_length =
          get-head_expires x http h hdr_upload_defer_length info.expires_at _ refl
          ∙ (get-metadata_header x http h hdr_upload_defer_length info.metadata _ refl
              ∙ defer_value info.size info.size_is_deferred _);
      metadata =
          get-head_expires x http h hdr_upload_metadata info.expires_at _ refl
          ∙ shown_metadata info.metadata _ (
              get-length_header x http h hdr_upload_metadata info.size info.size_is_deferred _ refl
                refl
              ∙ start hdr_upload_metadata _ refl);
      expires = date_value info.expires_at _ (
          get-metadata_header x http h hdr_upload_expires info.metadata _ refl
          ∙ (get-length_header x http h hdr_upload_expires info.size info.size_is_deferred _ refl
                refl
              ∙ start hdr_upload_expires _ refl));
    }

    pub content_length-ShowsContent :
        (size : Option ℕ)
        → ShowsContent size (
            content_length x h size (
              x.insert x.empty hdr_content_type (x.from_static (codes "application/octet-stream"))))
    unfolding same_name text_eq to_lowercase
    content_length-ShowsContent none = record {
      content_type = get-insert_same x http _ hdr_content_type _ refl;
      sent_length =
          get-insert_other x http _ hdr_content_type hdr_content_length _ refl
          ∙ http.get-empty hdr_content_length;
    }
    content_length-ShowsContent (some n) = record {
      content_type =
          get-insert_other x http _ hdr_content_length hdr_content_type _ refl
          ∙ get-insert_same x http _ hdr_content_type _ refl;
      sent_length = get-insert_same x http _ hdr_content_length _ refl;
    }
