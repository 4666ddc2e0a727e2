-- ===== src/Checksum.antt =====
-- crates/fileloft-core/src/checksum.rs. The reader that hashes what passes through it is followed
-- to its end by `read_to_end` and then asked to `verify`: the digest is that of all bytes read.
use fileloft.Base.{
  none, some, [], ◌++◌, if◌then◌else◌, Text, codes, text_eq, trim, split_once, join, to_lowercase,
}
use fileloft.Proto.{supported_checksum_algorithms}
use fileloft.Error.{TusError, Result, ok, err, ◌>>=◌}
use fileloft.Info.Codec.{Bytes, Outcome, done, failed}
use fileloft.Crates.{ChecksumAlgorithm, sha1, sha256, md5, Crates}
use fileloft.Store.{Reader, read_to_end}

abbrev pub as_str : ChecksumAlgorithm → Text
as_str sha1 = codes "sha1"
as_str sha256 = codes "sha256"
as_str md5 = codes "md5"

-- `ChecksumAlgorithm::from_str`
unfoldable pub from_str : Text → Result ChecksumAlgorithm
from_str s =
    let name = to_lowercase s in
    if text_eq name (codes "sha1")
    then ok sha1
    else if text_eq name (codes "sha256")
    then ok sha256
    else if text_eq name (codes "md5")
    then ok md5
    else err (TusError.unsupported_checksum_algorithm name)

unfoldable pub algorithms_header : Text
algorithms_header = join (codes ",") supported_checksum_algorithms

-- The error of a value without a space.
abbrev malformed : TusError
malformed =
    TusError.invalid_metadata (codes "malformed Upload-Checksum header (expected '<alg> <base64>')")

abbrev decoded : Outcome Bytes → Result Bytes
decoded (done hash) = ok hash
decoded (failed why) =
    err (TusError.invalid_metadata (codes "bad base64 in Upload-Checksum: " ++ why))

-- A `ChecksumReader` after some reading: `seen` is what its hasher was fed.
pub record ChecksumReader : Type 0 where
  pub inner : Reader
  pub algorithm : ChecksumAlgorithm
  pub seen : Bytes
  pub expected : Bytes

-- `ChecksumReader::new`
abbrev pub new : Reader → ChecksumAlgorithm → Bytes → ChecksumReader
new inner algorithm expected = record {
  inner = inner;
  algorithm = algorithm;
  seen = [];
  expected = expected;
}

-- `read_to_end` over `poll_read`: each piece read from `inner` is fed to the hasher.
unfoldable pub read_all : ChecksumReader → Result (ChecksumReader × Bytes)
read_all r = do
  buf ← read_to_end r.inner
  ok (record r { inner = Reader.bytes []; seen = r.seen ++ buf }, buf)

module _ (x : Crates) where
  open x use {base64, digest}

  unfoldable pub parse_checksum_header : Text → Result (ChecksumAlgorithm × Bytes)
  unfolding from_str
  parse_checksum_header value = elim (split_once b' ' value) [
    | none ↦ err malformed
    | some (alg_str, b64) ↦ do
      algorithm ← from_str alg_str
      hash ← decoded (base64.decode (trim b64))
      ok (algorithm, hash)
  ]

  -- `ChecksumReader::verify`
  unfoldable pub verify : ChecksumReader → Result (Unit {0})
  verify r =
      if text_eq (digest r.algorithm r.seen) r.expected
      then ok tt
      else err TusError.checksum_mismatch
