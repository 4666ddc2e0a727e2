-- ===== src/Handler/Patch/Success.antt =====
-- When a PATCH is accepted.
use fileloft.Base.{
  ℕ, ◌+◌, ◌≤◌, ◌==◌, ◌≡◌, refl, ◌∙◌, ◌⊎◌, inl, inr, true, false, ◌&&◌, Option, none, some, length,
  arith, u64_max, Option-cases,
}
use fileloft.Error.{ok}
use fileloft.Info.{UploadInfo, is_none}
use fileloft.Handler.Patch.Digest.{HasDigest, request_checksum-HasDigest}
use fileloft.Handler.Expiry.{IsLive, check_expiry-IsLive}
use fileloft.Info.Id.{UploadId, validate}
use fileloft.Info.Codec.{Bytes}
use fileloft.Crates.{Crates, ChecksumAlgorithm}
use fileloft.Checksum
use fileloft.Store.{bytes}
use fileloft.Store.Contract.{Stored, IsWhole, appended, write_check, IsDataStore}
use fileloft.Hooks.{upload_progress}
use fileloft.Handler.Base.{emit, TusHandler, World, Ambient, TusRequest}
use fileloft.Handler.Patch.{
  declare_deferred, write_body, write_and_report, check_upload, patch_upload, patch_response,
}
use fileloft.Handler.Patch.Write.{IsVerified, finish_if_complete-ok}
use fileloft.Handler.Patch.Report.{update_self, appended-IsWhole}

module _ (x : Crates) (h : TusHandler) (c : IsDataStore h.store) (id : UploadId) where
  module _ (w : World h) (e : Stored) (buf : Bytes) (found : c.view w.store id ≡ some e)
      (whole : IsWhole e) (fits : write_check e buf ≡ ok tt) where
    abbrev stored_to : h.store.State
    stored_to = (c.write_chunk_ok id w.store e buf found whole fits).0

    write_body-ok :
        (checksum : Option (ChecksumAlgorithm × Bytes))
        → IsVerified x checksum buf
        → write_body x h (c.handle id) e.info.offset checksum (bytes buf) w
          ≡ (ok (length buf), record w { store = stored_to })
    unfolding write_body Checksum.read_all Checksum.verify
    write_body-ok none verified = rw ((c.write_chunk_ok id w.store e buf found whole fits).1) refl
    write_body-ok (some (algorithm, expected)) verified =
        rw verified (rw ((c.write_chunk_ok id w.store e buf found whole fits).1) refl)

    write_and_report-ok :
        (checksum : Option (ChecksumAlgorithm × Bytes))
        → IsVerified x checksum buf
        → h.config.hooks.pre_finish ≡ none
        → (write_and_report x h (c.handle id) e.info.offset checksum (some (bytes buf)) w).0
          ≡ ok (patch_response x h (appended e buf).info)
    unfolding write_and_report
    write_and_report-ok checksum verified unhooked =
        let grown =
          (c.write_chunk_ok id w.store e buf found whole fits).2 id
          ∙ update_self (c.view w.store) id (some (appended e buf)) in
        let reported =
          (emit h (upload_progress (appended e buf).info) (record w { store = stored_to })).1 in
        rw (write_body-ok checksum verified) (
          rw (c.get_info_lem id stored_to (appended e buf) grown) (
            rw
              (finish_if_complete-ok x h c id reported (appended e buf) grown
                (appended-IsWhole e buf whole) unhooked)
              refl))

  -- The chunk ends within a `u64` and the declared size.
  pub record FitsUpload (e : Stored) (buf : Bytes) : Type 0 where
    pub in_u64 : e.info.offset + length buf ≤ u64_max
    pub in_size : (size : ℕ) → e.info.size ≡ some size → e.info.offset + length buf ≤ size

  write_check-FitsUpload : (e : Stored) (buf : Bytes) → FitsUpload e buf → write_check e buf ≡ ok tt
  write_check-FitsUpload e buf f = elim (Option-cases e.info.size) [
    | inl free ↦ rw free (ground (arith, f.in_u64))
    | inr (size, there) ↦ rw there (ground (arith, f.in_u64, f.in_size size there))
  ]

  check_upload-ok :
      (ambient : Ambient) (info : UploadInfo)
      → info.is_final ≡ false
      → IsLive ambient.now info.expires_at
      → check_upload x h ambient info info.offset ≡ ok tt
  unfolding check_upload
  check_upload-ok ambient info own live =
      let same : (info.offset == info.offset) ≡ true = ground arith in
      rw (own, same) (check_expiry-IsLive h ambient.now info.expires_at live)

  -- Over a store that keeps the contract and without a `pre_finish` hook, a PATCH under the lock on a
  -- valid identifier is answered with the new offset, if the upload is there, holds as many bytes
  -- as its offset says, is at the request's offset, is not final, has no time of expiry or none that
  -- is past, and has a length or is not deferred; and if the body is read whole, ends within a `u64`
  -- and the declared size, and no digest is announced, or, with the checksum extension on, that of
  -- the body or one in a header that is no visible text.
  pub patch_upload-ok :
      (ambient : Ambient) (req : TusRequest x) (w : World h) (e : Stored) (buf : Bytes)
      → validate id ≡ ok tt
      → c.view w.store id ≡ some e
      → IsWhole e
      → e.info.is_final ≡ false
      → IsLive ambient.now e.info.expires_at
      → (e.info.size_is_deferred ≡ false) ⊎ ((size : ℕ) × (e.info.size ≡ some size))
      → req.body ≡ some (bytes buf)
      → HasDigest x h req.headers buf
      → FitsUpload e buf
      → h.config.hooks.pre_finish ≡ none
      → (patch_upload x h ambient req e.info.offset id w).0
        ≡ ok (patch_response x h (appended e buf).info)
  unfolding patch_upload declare_deferred
  patch_upload-ok ambient req w e buf valid found whole own live sized given digest fits unhooked =
      let (checksum, announced, verified) = request_checksum-HasDigest x h req.headers buf digest in
      let settled : (e.info.size_is_deferred && is_none e.info.size) ≡ false = elim sized [
        | inl plain ↦ rw plain refl
        | inr (size, there) ↦ rw there (ground arith)
      ] in
      rw (c.get_upload_some id w.store e valid found) (
        rw (c.get_info_lem id w.store e found) (
          rw (check_upload-ok ambient e.info own live, settled, announced, given)
            (write_and_report-ok w e buf found whole (write_check-FitsUpload e buf fits) checksum
              verified unhooked)))
