-- ===== src/Crates.antt =====
-- What the code takes from other crates: http's header maps, base64, the digests of sha1, sha2 and
-- md-5, and chrono. `Crates` holds the operations, `IsHttp` the documented behaviour of the header
-- maps: names compare without regard to case, `insert` replaces, `extend` replaces name by name,
-- and a text of visible ASCII is a header value that reads back.
use fileloft.Base.{
  ℕ, List, ◌≡◌, Bool, true, ◌&&◌, Option, none, some, leb, if◌then◌else◌, all, Text, text_eq,
  to_lowercase,
}
use fileloft.Info.Metadata.{Metadata, Entry}
use fileloft.Info.Codec.{Bytes, Base64, Outcome}

-- crates/fileloft-core/src/checksum.rs
pub data ChecksumAlgorithm : Type 0 where
  sha1 sha256 md5 : ChecksumAlgorithm

pub record Crates : Type 1 where
  pub HeaderMap : Type 0
  pub HeaderValue : Type 0
  pub empty : HeaderMap
  pub get : HeaderMap → Text → Option HeaderValue
  pub insert : HeaderMap → Text → HeaderValue → HeaderMap
  pub extend : HeaderMap → HeaderMap → HeaderMap
  pub to_str : HeaderValue → Option Text
  pub from_str : Text → Option HeaderValue
  pub from_static : Text → HeaderValue
  pub base64 : Base64
  pub digest : ChecksumAlgorithm → Bytes → Bytes
  pub duration_from_std : ℕ → Outcome ℕ
  pub http_date : ℕ → Text
  -- The order of std's hash maps, which is random.
  pub iterate : Metadata → List Entry

unfoldable pub same_name : Text → Text → Bool
same_name a b = text_eq (to_lowercase a) (to_lowercase b)

abbrev pub is_visible : ℕ → Bool
is_visible c = leb 32 c && leb c 126

abbrev pub or_else {ℓ} : {A : Type ℓ} → Option A → Option A → Option A
or_else (some a) o = some a
or_else none o = o

pub record IsHttp (x : Crates) : Type 0 where
  pub get-empty : (name : Text) → x.get x.empty name ≡ none
  pub get-insert :
      (h : x.HeaderMap) (k name : Text) (v : x.HeaderValue)
      → x.get (x.insert h k v) name ≡ (if same_name k name then some v else x.get h name)
  pub get-extend :
      (h g : x.HeaderMap) (name : Text)
      → x.get (x.extend h g) name ≡ or_else (x.get g name) (x.get h name)
  pub from_str_lem : (s : Text) → all is_visible s ≡ true → x.from_str s ≡ some (x.from_static s)
  pub to_str-from_static :
      (s : Text) → all is_visible s ≡ true → x.to_str (x.from_static s) ≡ some s
