-- ===== src/Handler/Patch/Digest.antt =====
-- The digest that a PATCH announces, against the bytes of its body.
use fileloft.Base.{
  ◌≡◌, refl, ap, sym, ◌∙◌, subst, inl, inr, true, Option, none, some, Text, Option-cases,
  Bool-cases, text_eq_iff, text_eq_refl,
}
use fileloft.Error.{ok}
use fileloft.Info.Codec.{Bytes}
use fileloft.Crates.{Crates, ChecksumAlgorithm}
use fileloft.Proto.{hdr_upload_checksum}
use fileloft.Util.{get_str}
use fileloft.Checksum
use fileloft.Handler.Base.{TusHandler}
use fileloft.Handler.Patch.{request_checksum, checksum_header, checksum_value}
use fileloft.Handler.Patch.Write.{IsVerified, Result-cases}

module _ (x : Crates) (h : TusHandler) (headers : x.HeaderMap) (buf : Bytes) where
  -- The request announces no digest; or the checksum extension is on, and the header is no visible
  -- text, which the code takes for none, or it announces the digest of the body.
  pub data HasDigest : Type 0 where
    nothing : x.get headers hdr_upload_checksum ≡ none → HasDigest
    unreadable :
        (v : x.HeaderValue)
        → h.config.extensions.checksum ≡ true
        → x.get headers hdr_upload_checksum ≡ some v
        → x.to_str v ≡ none
        → HasDigest
    its_digest :
        (v : x.HeaderValue) (value : Text) (algorithm : ChecksumAlgorithm)
        → h.config.extensions.checksum ≡ true
        → x.get headers hdr_upload_checksum ≡ some v
        → x.to_str v ≡ some value
        → Checksum.parse_checksum_header x value ≡ ok (algorithm, x.digest algorithm buf)
        → HasDigest

  get_str-eq :
      (v : x.HeaderValue)
      → x.get headers hdr_upload_checksum ≡ some v
      → get_str x headers hdr_upload_checksum ≡ x.to_str v
  get_str-eq v there = rw (there, get_str) refl

  pub request_checksum-HasDigest :
      HasDigest
      → (checksum : Option (ChecksumAlgorithm × Bytes)) × (request_checksum x h headers
          ≡ ok checksum)
        × IsVerified x checksum buf
  unfolding request_checksum
  request_checksum-HasDigest (nothing absent) = (none, rw absent refl, tt)
  request_checksum-HasDigest (unreadable v on there read) =
      let text : get_str x headers hdr_upload_checksum ≡ none = get_str-eq v there ∙ read in
      (none, rw there (rw (on, text) refl), tt)
  request_checksum-HasDigest (its_digest v value algorithm on there read parsed) =
      let text : get_str x headers hdr_upload_checksum ≡ some value = get_str-eq v there ∙ read in
      (
        some (algorithm, x.digest algorithm buf),
        rw there (rw (on, text) (rw (parsed, checksum_value) refl)),
        text_eq_refl (x.digest algorithm buf),
      )

  module _ (v : x.HeaderValue) (on : h.config.extensions.checksum ≡ true)
      (there : x.get headers hdr_upload_checksum ≡ some v)
      (checksum : Option (ChecksumAlgorithm × Bytes)) (verified : IsVerified x checksum buf) where
    of_value : (o : Option Text) → x.to_str v ≡ o → checksum_value x h o ≡ ok checksum → HasDigest
    of_value none read e = unreadable v on there read
    of_value (some value) read e = elim (Result-cases (Checksum.parse_checksum_header x value)) [
      | inr (why, bad) ↦ let e1 = rw (bad, checksum_value) at e in cc
      | inl ((algorithm, expected), parsed) ↦
          let e1 = rw (parsed, checksum_value) at e in
          let same : some (algorithm, expected) ≡ checksum = cc in
          let equal =
            (text_eq_iff (x.digest algorithm buf) expected).0
              (subst (λ k. IsVerified x k buf) (sym same) verified) in
          its_digest v value algorithm on there read
            (parsed ∙ ap (λ t. ok (algorithm, t)) (sym equal))
    ]

  pub HasDigest-request_checksum :
      (checksum : Option (ChecksumAlgorithm × Bytes))
      → request_checksum x h headers ≡ ok checksum
      → IsVerified x checksum buf
      → HasDigest
  unfolding request_checksum
  HasDigest-request_checksum checksum e verified =
      elim (Option-cases (x.get headers hdr_upload_checksum)) [
        | inl absent ↦ nothing absent
        | inr (v, there) ↦
            let e1 = rw (there, checksum_header) at e in
            elim (Bool-cases h.config.extensions.checksum) [
              | inr off ↦ let e2 = rw off at e1 in cc
              | inl on ↦
                  let e2 = rw on at e1 in
                  of_value v on there checksum verified (get_str x headers hdr_upload_checksum)
                    (sym (get_str-eq v there)) e2
            ]
      ]
