-- ===== src/Handler/Read/Answers.antt =====
-- What HEAD and GET answer, over a store that keeps the contract.
use fileloft.Base.{
  ◌≡◌, ◌≢◌, refl, ◌⊎◌, true, false, Option, none, some, Option-cases, [], inl, inr, Bool-cases,
  arith, ◌==◌,
}
use fileloft.Error.{TusError, Result, ok, err}
use fileloft.Info.{UploadInfo, is_complete}
use fileloft.Info.Id.{UploadId, validate}
use fileloft.Crates.{Crates, IsHttp}
use fileloft.Store.{Reader}
use fileloft.Store.Contract.{Stored, IsDataStore}
use fileloft.Util.{check_tus_resumable}
use fileloft.Handler.Base.{
  TusHandler, World, Ambient, request_id, TusBody, TusRequest, TusResponse, response_with_body,
}
use fileloft.Handler.Expiry.{IsExpired, IsLive, check_expiry-cases}
use fileloft.Handler.Read.{head, get_upload_content}
use fileloft.Handler.Read.Shown.{
  Shows, ShowsContent, head_headers-Shows, content_length-ShowsContent,
}
use fileloft.Handler.Named.{request_id-validate}

is_complete-cases :
    (info : UploadInfo)
    → ((info.size ≡ some info.offset) × (is_complete info ≡ true))
      ⊎ ((info.size ≢ some info.offset) × (is_complete info ≡ false))
unfolding is_complete
is_complete-cases info = elim (Option-cases info.size) [
  | inl unknown ↦ inr (λ e. cc (unknown, e), rw unknown refl)
  | inr (size, e) ↦ elim (Bool-cases (info.offset == size)) [
    | inl same ↦ (let number : info.offset ≡ size = ground arith in inl (cc (e, number), rw e same))
    | inr other ↦
        inr
          (λ h. (let number : size ≡ info.offset = cc (e, h) in ground (arith, number)), rw e other)
  ]
]

module _ (x : Crates) (h : TusHandler) where
  -- The answer to HEAD, by what the store shows of the upload.
  pub data HeadOutcome (ambient : Ambient) (id : UploadId)
      : Option Stored → Result (TusResponse x) → Type 0 where
    missing : HeadOutcome ambient id none (err (TusError.not_found id))
    expired :
        (e : Stored)
        → IsExpired ambient.now e.info.expires_at
        → HeadOutcome ambient id (some e) (err TusError.gone)
    shown :
        (e : Stored) (headers : x.HeaderMap)
        → IsLive ambient.now e.info.expires_at
        → Shows x e.info headers
        → HeadOutcome ambient id
            (some e)
            (ok (response_with_body x h.config 204 headers (TusBody.bytes [])))

  -- The answer to GET.
  pub data GetOutcome (ambient : Ambient) (id : UploadId)
      : Option Stored → Result (TusResponse x) → Type 0 where
    missing : GetOutcome ambient id none (err (TusError.not_found id))
    expired :
        (e : Stored)
        → IsExpired ambient.now e.info.expires_at
        → GetOutcome ambient id (some e) (err TusError.gone)
    not_ready :
        (e : Stored)
        → IsLive ambient.now e.info.expires_at
        → e.info.size ≢ some e.info.offset
        → GetOutcome ambient id (some e) (err TusError.upload_not_ready_for_download)
    served :
        (e : Stored) (headers : x.HeaderMap)
        → IsLive ambient.now e.info.expires_at
        → e.info.size ≡ some e.info.offset
        → ShowsContent x e.info.size headers
        → GetOutcome ambient id (some e) (
            ok
              (response_with_body x h.config 200 headers (TusBody.reader (Reader.bytes e.content))))

module _ (x : Crates) (http : IsHttp x) (h : TusHandler) (c : IsDataStore h.store) where
  head_found :
      (ambient : Ambient) (id : UploadId) (req : TusRequest x) (w : World h)
      → check_tus_resumable x req.headers ≡ ok tt
      → request_id req.upload_id ≡ ok id
      → (o : Option Stored) → c.view w.store id ≡ o
      → HeadOutcome x h ambient id o (head x h ambient req w).0 × ((head x h ambient req w).1 ≡ w)
  unfolding head
  head_found ambient id req w spoken named none absent =
      rw (spoken, named)
        (rw (c.get_upload_none id w.store (request_id-validate req.upload_id id named) absent)
          (HeadOutcome.missing, refl))
  head_found ambient id req w spoken named (some e) found =
      rw (spoken, named)
        (rw (c.get_upload_some id w.store e (request_id-validate req.upload_id id named) found) (
          rw (c.get_info_lem id w.store e found)
            (elim (check_expiry-cases h ambient.now e.info.expires_at) [
              | inl (live, passed) ↦
                  rw passed (HeadOutcome.shown e _ live (head_headers-Shows x http h e.info), refl)
              | inr (past, refused) ↦ rw refused (HeadOutcome.expired e past, refl)
            ])))

  get_found :
      (ambient : Ambient) (id : UploadId) (w : World h)
      → validate id ≡ ok tt
      → (o : Option Stored) → c.view w.store id ≡ o
      → GetOutcome x h ambient id o (get_upload_content x h ambient id w).0
        × ((get_upload_content x h ambient id w).1 ≡ w)
  unfolding get_upload_content
  get_found ambient id w valid none absent =
      rw (c.get_upload_none id w.store valid absent) (GetOutcome.missing, refl)
  get_found ambient id w valid (some e) found = rw (c.get_upload_some id w.store e valid found) (
      rw (c.get_info_lem id w.store e found)
        (elim (check_expiry-cases h ambient.now e.info.expires_at) [
          | inr (past, refused) ↦ rw refused (GetOutcome.expired e past, refl)
          | inl (live, passed) ↦ rw passed (elim (is_complete-cases e.info) [
            | inl (full, complete) ↦ rw complete (
                rw (c.read_content_lem id w.store e found complete) (
                  GetOutcome.served e _ live full
                      (content_length-ShowsContent x http h e.info.size),
                  refl,
                ))
            | inr (partly, partial) ↦ rw partial (GetOutcome.not_ready e live partly, refl)
          ])
        ]))

  -- Over a store that keeps the contract, a HEAD that speaks the protocol's version and names a
  -- valid identifier changes nothing, and answers by what the store shows: not found; gone if the
  -- time is past the one at which the upload expires; and otherwise 204 without a body. To the
  -- headers of every response it then adds the upload's offset, its length if it has one, the mark
  -- of a deferred length if it has none and is marked so, its metadata if there are any, and the
  -- time of its expiry if it has one, and else none of these.
  pub head_lem :
      (ambient : Ambient) (id : UploadId) (req : TusRequest x) (w : World h)
      → check_tus_resumable x req.headers ≡ ok tt
      → request_id req.upload_id ≡ ok id
      → HeadOutcome x h ambient id (c.view w.store id) (head x h ambient req w).0
        × ((head x h ambient req w).1 ≡ w)
  head_lem ambient id req w spoken named =
      head_found ambient id req w spoken named (c.view w.store id) refl

  -- Over a store that keeps the contract, what GET does under the lock on a valid identifier
  -- changes nothing, and answers by what the store shows: not found; gone if the time is past the
  -- one at which the upload expires; not ready if the offset is not the upload's length; and
  -- otherwise 200 with all bytes of the upload, their type and the upload's length.
  pub get_upload_content_lem :
      (ambient : Ambient) (id : UploadId) (w : World h)
      → validate id ≡ ok tt
      → GetOutcome x h ambient id (c.view w.store id) (get_upload_content x h ambient id w).0
        × ((get_upload_content x h ambient id w).1 ≡ w)
  get_upload_content_lem ambient id w valid = get_found ambient id w valid (c.view w.store id) refl
