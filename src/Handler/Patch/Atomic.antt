-- ===== src/Handler/Patch/Atomic.antt =====
-- The property of PATCH as the client sees it: `patch::handle` as a whole.
use fileloft.Base.{
  ℕ, ◌≡◌, refl, ap, ◌≢◌, ◌⊎◌, inl, inr, Bool, Option, none, some, [], Bool-cases, starts_with,
}
use fileloft.Proto.{content_type_octet_stream, hdr_content_type}
use fileloft.Error.{Result, ok, err}
use fileloft.Info.Id.{UploadId}
use fileloft.Crates.{Crates}
use fileloft.Util.{unwrap_or, get_str, check_tus_resumable, parse_upload_offset}
use fileloft.Store.Contract.{Stored, View, IsWhole, IsDataStore}
use fileloft.Handler.Base.{
  TusHandler, World, Ambient, guarded, with_lock, request_id, TusRequest, TusResponse,
}
use fileloft.Handler.Named.{request_id-validate}
use fileloft.Handler.Patch.{patch_upload, handle}
use fileloft.Handler.Patch.Write.{Result-cases}
use fileloft.Handler.Patch.Outcome.{Patched, progress, SameProgress, PatchOutcome, patch_upload_lem}

-- Every stored upload holds as many bytes as its offset says.
abbrev pub AllWhole : View → Type 0
AllWhole view = (id : UploadId) (e : Stored) → view id ≡ some e → IsWhole e

module _ (x : Crates) (h : TusHandler) (c : IsDataStore h.store) where
  -- An accepted PATCH names an upload and an offset, and appends its body there; a refused one
  -- leaves the offset and the bytes of every upload alone.
  abbrev pub HandleOutcome :
      Ambient → TusRequest x → h.store.State → Result (TusResponse x) × World h → Type 0
  HandleOutcome ambient req s (ok response, w') =
      (id : UploadId) × (offset : ℕ) × (request_id req.upload_id ≡ ok id)
      × (parse_upload_offset x req.headers ≡ ok offset)
      × Patched x h c id ambient req offset s response w'.store
  HandleOutcome ambient req s (err why, w') =
      SameProgress h c s w'.store ⊎ (h.config.hooks.pre_finish ≢ none)

  module _ (ambient : Ambient) (req : TusRequest x) (id : UploadId) (offset : ℕ) (w : World h)
      (named : request_id req.upload_id ≡ ok id)
      (positioned : parse_upload_offset x req.headers ≡ ok offset) where
    from_patch :
        (out : Result (TusResponse x) × World h)
        → PatchOutcome x h c id ambient req offset w.store out
        → HandleOutcome ambient req w.store out
    from_patch (ok response, w') p = (id, offset, named, positioned, p)
    from_patch (err why, w') p = p

    from_guarded :
        (got : Option (Result h.locker.Lock)) (w1 : World h)
        → w1.store ≡ w.store
        → PatchOutcome x h c id ambient req offset w.store
            (patch_upload x h ambient req offset id w1)
        → HandleOutcome ambient req w.store
            (guarded h id got (patch_upload x h ambient req offset id) w1)
    from_guarded none w1 same p = inl λ j. ap (λ s. progress (c.view s j)) same
    from_guarded (some (err why)) w1 same p = inl λ j. ap (λ s. progress (c.view s j)) same
    from_guarded (some (ok lock)) w1 same p =
        dropped (patch_upload x h ambient req offset id w1) lock p
      where
        dropped :
            (out : Result (TusResponse x) × World h) (lock : h.locker.Lock)
            → PatchOutcome x h c id ambient req offset w.store out
            → HandleOutcome ambient req w.store
                (out.0, record (out.1) { locks = h.locker.drop_lock lock out.1.locks })
        dropped (ok response, w') lock p = (id, offset, named, positioned, p)
        dropped (err why, w') lock p = p

  abbrev typed : TusRequest x → Bool
  typed req =
      starts_with (unwrap_or (get_str x req.headers hdr_content_type) []) content_type_octet_stream

  under_lock :
      (ambient : Ambient) (req : TusRequest x) (id : UploadId) (offset : ℕ) (w : World h)
      → request_id req.upload_id ≡ ok id
      → parse_upload_offset x req.headers ≡ ok offset
      → AllWhole (c.view w.store)
      → HandleOutcome ambient req w.store
          (with_lock h id (patch_upload x h ambient req offset id) w)
  unfolding with_lock
  under_lock ambient req id offset w named positioned whole =
      let valid = request_id-validate req.upload_id id named in
      elim (Bool-cases h.has_locker) [
        | inl locking ↦
            let (got, locks) = h.locker.acquire_within h.config.lock_timeout id w.locks in
            let w1 : World h = record w { locks = locks } in
            rw locking (
              from_guarded ambient req id offset w named positioned got w1 refl
                (patch_upload_lem x h c id ambient req offset w1 valid (whole id)))
        | inr free ↦ rw free (
            from_patch ambient req id offset w named positioned _
              (patch_upload_lem x h c id ambient req offset w valid (whole id)))
      ]

  -- A PATCH over a store that keeps the contract, with or without a locker, in a state where every
  -- upload holds as many bytes as its offset says. If it answers, the request named an upload that
  -- is not final and not expired, and an offset that is the upload's; the body was read whole, has
  -- the announced digest, if one is announced in a header that is visible text, and fits the
  -- declared size and a `u64`; exactly this body was appended to this upload, all others are as
  -- before, and the answer is the one for the new offset. If it fails, every upload has the offset
  -- and the bytes that it had, so that the chunk can be sent again, unless a `pre_finish` hook is
  -- configured, which is asked after the write.
  pub handle_atomic :
      (ambient : Ambient) (req : TusRequest x) (w : World h)
      → AllWhole (c.view w.store)
      → HandleOutcome ambient req w.store (handle x h ambient req w)
  unfolding handle
  handle_atomic ambient req w whole = elim (Result-cases (check_tus_resumable x req.headers)) [
    | inr (why, bad) ↦ rw bad (inl λ j. refl)
    | inl (_, spoken) ↦ rw spoken (elim (Bool-cases (typed req)) [
      | inr other ↦ rw other (inl λ j. refl)
      | inl octets ↦ rw octets (elim (Result-cases (parse_upload_offset x req.headers)) [
        | inr (why, bad) ↦ rw bad (inl λ j. refl)
        | inl (offset, positioned) ↦ rw positioned (elim (Result-cases (request_id req.upload_id)) [
          | inr (why, bad) ↦ rw bad (inl λ j. refl)
          | inl (id, named) ↦ rw named (under_lock ambient req id offset w named positioned whole)
        ])
      ])
    ])
  ]
