-- ===== src/Util.antt =====
-- crates/fileloft-core/src/util.rs
pub mod Readback
use fileloft.Base.{
  ℕ, Bool, false, Option, none, some, [], ◌∷◌, ◌++◌, if◌then◌else◌, is_empty, Text, codes, text_eq,
  trim, trim_end_matches, split, parse_u64, to_string, ◌==◌,
}
use fileloft.Proto.{
  tus_version, hdr_tus_resumable, hdr_upload_offset, hdr_upload_length, hdr_upload_defer_length,
}
use fileloft.Error.{TusError, Result, ok, err}
use fileloft.Config.{Config}
use fileloft.Crates.{Crates, or_else}

abbrev pub unwrap_or {ℓ} : {A : Type ℓ} → Option A → A → A
unwrap_or none d = d
unwrap_or (some a) d = a

abbrev pub and_then {ℓ κ} : {A : Type ℓ} {B : Type κ} → Option A → (A → Option B) → Option B
and_then none f = none
and_then (some a) f = f a

abbrev pub ok_or {ℓ} : {A : Type ℓ} → Option A → TusError → Result A
ok_or none e = err e
ok_or (some a) e = ok a

abbrev pub ok_or_none : Option ℕ → TusError → Result (Option ℕ)
ok_or_none none e = err e
ok_or_none (some n) e = ok (some n)

-- `filter(|s| !s.is_empty())`
abbrev pub filter_nonempty : Option Text → Option Text
filter_nonempty none = none
filter_nonempty (some s) = if is_empty s then none else some s

abbrev pub is_slash : ℕ → Bool
is_slash c = c == b'/'

-- `s.split(',').next()`, where a split is never empty.
abbrev pub first_of_list : Text → Text
first_of_list s = elim (split b',' s) [ [] ↦ s | word ∷ rest ↦ word ]

module _ (x : Crates) where
  open x use {HeaderMap, HeaderValue, get, to_str, from_str, from_static}

  -- `headers.get(name).and_then(|v| v.to_str().ok())`
  abbrev pub get_str : HeaderMap → Text → Option Text
  get_str headers name = and_then (get headers name) to_str

  abbrev resumable_version : Option HeaderValue → Result (Unit {0})
  resumable_version none = err TusError.missing_tus_resumable
  resumable_version (some v) =
      let s = unwrap_or (to_str v) [] in
      if text_eq s tus_version then ok tt else err (TusError.unsupported_version s)

  unfoldable pub check_tus_resumable : HeaderMap → Result (Unit {0})
  check_tus_resumable headers = resumable_version (get headers hdr_tus_resumable)

  unfoldable pub parse_upload_offset : HeaderMap → Result ℕ
  parse_upload_offset headers =
      ok_or (and_then (get_str headers hdr_upload_offset) parse_u64) TusError.missing_upload_offset

  abbrev invalid_length : TusError
  invalid_length = TusError.invalid_metadata (codes "invalid Upload-Length value")

  abbrev length_value : Option HeaderValue → Result (Option ℕ)
  length_value none = ok none
  length_value (some v) = ok_or_none (and_then (to_str v) parse_u64) invalid_length

  unfoldable pub parse_upload_length : HeaderMap → Result (Option ℕ)
  parse_upload_length headers = length_value (get headers hdr_upload_length)

  abbrev is_one : Option Text → Bool
  is_one none = false
  is_one (some s) = text_eq (trim s) (codes "1")

  unfoldable pub has_defer_length : HeaderMap → Bool
  has_defer_length headers = is_one (get_str headers hdr_upload_defer_length)

  unfoldable pub u64_header : ℕ → HeaderValue
  u64_header n = unwrap_or (from_str (to_string n)) (from_static (codes "0"))

  abbrev pub static_header : Text → HeaderValue
  static_header s = from_static s

  abbrev forwarded_scheme : HeaderMap → Text
  forwarded_scheme headers =
      unwrap_or
        (filter_nonempty (
          and_then (get_str headers (codes "x-forwarded-proto"))
            λ s. some (trim (first_of_list s))))
        (codes "http")

  abbrev forwarded_host : HeaderMap → Text
  forwarded_host headers =
      unwrap_or
        (filter_nonempty (
          and_then
            (and_then
              (or_else (get headers (codes "x-forwarded-host")) (get headers (codes "host")))
              to_str)
            λ s. some (trim (first_of_list s))))
        (codes "localhost")

  abbrev origin : Config → HeaderMap → Text
  origin config headers =
      let scheme =
        if config.trust_forwarded_headers then forwarded_scheme headers else codes "http" in
      let host =
        if config.trust_forwarded_headers
        then forwarded_host headers
        else unwrap_or (get_str headers (codes "host")) (codes "localhost") in
      scheme ++ (codes "://" ++ host)

  unfoldable pub request_base_url : Config → HeaderMap → Text
  request_base_url config headers = elim config.base_url [
    | some base ↦ trim_end_matches is_slash base
    | none ↦ origin config headers
  ]
