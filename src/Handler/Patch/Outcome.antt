-- ===== src/Handler/Patch/Outcome.antt =====
-- The whole of a PATCH, from the look-up of its upload on: what an accepted chunk and a refused one
-- leave behind.
use fileloft.Base.{
  ℕ, ◌≡◌, refl, ◌≢◌, ◌⊎◌, inl, inr, true, false, ◌&&◌, Option, none, some, ap, ◌∙◌, sym,
  if◌then◌else◌, arith, length, text_eq, text_eq_iff, Bool-cases, Option-cases, subst,
}
use fileloft.Error.{Result, ok, err}
use fileloft.Exec.{lift, continue, ◌>>=◌}
use fileloft.Info.{UploadInfo, is_none}
use fileloft.Info.Id.{UploadId, validate}
use fileloft.Info.Codec.{Bytes}
use fileloft.Crates.{Crates, ChecksumAlgorithm}
use fileloft.Util.{parse_upload_length}
use fileloft.Store.{bytes}
use fileloft.Store.Contract.{
  Stored, View, update, IsWhole, appended, declared, write_check, IsDataStore,
}
use fileloft.Handler.Base.{TusHandler, World, Ambient, check_expiry, TusRequest, TusResponse}
use fileloft.Handler.Patch.{
  too_large, declare, declare_deferred, request_checksum, write_and_report, check_upload,
  patch_upload, patch_response,
}
use fileloft.Handler.Expiry.{IsLive, IsLive-check_expiry}
use fileloft.Handler.Patch.Digest.{HasDigest, HasDigest-request_checksum}
use fileloft.Handler.Patch.Write.{Result-cases}
use fileloft.Handler.Patch.Report.{update_self, ReportOutcome, write_and_report_lem}

pub update_same :
    (view : View) (id : UploadId) (e : Stored) (j : UploadId)
    → view id ≡ some e
    → update view id (some e) j ≡ view j
update_same view id e j found = elim (Bool-cases (text_eq id j)) [
  | inl same ↦ rw same (subst (λ k. some e ≡ view k) ((text_eq_iff id j).0 same) (sym found))
  | inr other ↦ rw other refl
]

-- The upload as the write finds it: as before, or with the size that the request declared, which
-- only an upload without a size gets.
abbrev pub MayDeclare : Stored → Stored → Type 0
MayDeclare e e' = (e' ≡ e) ⊎ ((size : ℕ) × (e.info.size ≡ none) × (e' ≡ declared e size))

-- What a client can lose of an upload: its offset and its bytes.
abbrev pub progress : Option Stored → Option (ℕ × Bytes)
progress none = none
progress (some e) = some (e.info.offset, e.content)

-- Every upload has the offset and the bytes that it had.
abbrev pub SameProgress :
    (h : TusHandler) → IsDataStore h.store → h.store.State → h.store.State → Type 0
SameProgress h c s s' = (j : UploadId) → progress (c.view s' j) ≡ progress (c.view s j)

module _ (x : Crates) (h : TusHandler) (c : IsDataStore h.store) (id : UploadId) where
  abbrev pub DeclareOutcome : World h → Stored → Result (Unit {0}) × World h → Type 0
  DeclareOutcome w e (ok _, w') =
      (e' : Stored) × MayDeclare e e'
      × ((j : UploadId) → c.view w'.store j ≡ update (c.view w.store) id (some e') j)
  DeclareOutcome w e (err why, w') = w' ≡ w

  module _ (w : World h) (e : Stored) (found : c.view w.store id ≡ some e) where
    undeclared : DeclareOutcome w e (ok tt, w)
    undeclared = (e, inl refl, λ j. sym (update_same (c.view w.store) id e j found))

    declare_lem :
        (length : Option ℕ)
        → e.info.size ≡ none
        → DeclareOutcome w e (declare h (c.handle id) length w)
    declare_lem none unset = undeclared
    declare_lem (some size) unset = elim (Bool-cases (too_large h.config size)) [
      | inl big ↦ rw big refl
      | inr fine ↦
          let (s', done, view) = c.declare_length_lem id w.store e size found unset in
          rw fine (rw done (declared e size, inr (size, unset, refl), view))
    ]

    is_none-none : (o : Option ℕ) → is_none o ≡ true → o ≡ none
    is_none-none none h = refl
    is_none-none (some n) h = cc

    pub declare_deferred_lem :
        (headers : x.HeaderMap)
        → DeclareOutcome w e (declare_deferred x h (c.handle id) e.info headers w)
    unfolding declare_deferred
    declare_deferred_lem headers =
        elim (Bool-cases (e.info.size_is_deferred && is_none e.info.size)) [
          | inl deferred ↦ rw deferred (elim (Result-cases (parse_upload_length x headers)) [
            | inl (length, read) ↦
                rw read (declare_lem length (is_none-none e.info.size (ground arith)))
            | inr (why, bad) ↦ rw bad refl
          ])
          | inr fixed ↦ rw fixed undeclared
        ]

  -- What an accepted PATCH has found and done.
  pub record Patched (ambient : Ambient) (req : TusRequest x) (client_offset : ℕ)
      (s : h.store.State) (response : TusResponse x) (s' : h.store.State) : Type 0 where
    pub before : Stored
    pub found : c.view s id ≡ some before
    pub not_final : before.info.is_final ≡ false
    pub at_offset : before.info.offset ≡ client_offset
    pub live : IsLive ambient.now before.info.expires_at
    pub sized : Stored
    pub declares : MayDeclare before sized
    pub buf : Bytes
    pub given : req.body ≡ some (bytes buf)
    pub digest : HasDigest x h req.headers buf
    pub fits : write_check sized buf ≡ ok tt
    pub view : (j : UploadId) → c.view s' j ≡ update (c.view s) id (some (appended sized buf)) j
    pub answer : response ≡ patch_response x h (appended sized buf).info

  abbrev pub PatchOutcome :
      Ambient → TusRequest x → ℕ → h.store.State → Result (TusResponse x) × World h → Type 0
  PatchOutcome ambient req client_offset s (ok response, w') =
      Patched ambient req client_offset s response w'.store
  PatchOutcome ambient req client_offset s (err why, w') =
      SameProgress h c s w'.store ⊎ (h.config.hooks.pre_finish ≢ none)

  progress-update :
      (view : View) (e e' : Stored) (j : UploadId)
      → view id ≡ some e
      → MayDeclare e e'
      → progress (update view id (some e') j) ≡ progress (view j)
  progress-update view e e' j found may = elim (Bool-cases (text_eq id j)) [
    | inl same ↦ rw same (
        kept e e' may
        ∙ (ap progress (sym found) ∙ ap (λ k. progress (view k)) ((text_eq_iff id j).0 same)))
    | inr other ↦ rw other refl
  ]
    where
      kept : (e e' : Stored) → MayDeclare e e' → progress (some e') ≡ progress (some e)
      kept e e' (inl p) = ap (λ t. progress (some t)) p
      kept e e' (inr (size, unset, p)) = ap (λ t. progress (some t)) p

  update-update :
      (view : View) (o o' : Option Stored) (j : UploadId)
      → update (update view id o) id o' j ≡ update view id o' j
  update-update view o o' j = ground arith

  module _ (ambient : Ambient) (req : TusRequest x) (client_offset : ℕ) (w : World h) where
    check_upload-ok :
        (info : UploadInfo)
        → check_upload x h ambient info client_offset ≡ ok tt
        → (info.is_final ≡ false)
          × (info.offset ≡ client_offset)
          × (check_expiry h ambient.now info.expires_at ≡ ok tt)
    unfolding check_upload
    check_upload-ok info passed = (ground arith, ground arith, ground arith)

    declared_keeps :
        (e sized : Stored)
        → MayDeclare e sized
        → IsWhole e
        → (sized.info.offset ≡ e.info.offset) × IsWhole sized
    declared_keeps e sized (inl p) whole =
        (ap (λ (t : Stored). t.info.offset) p, subst IsWhole (sym p) whole)
    declared_keeps e sized (inr (size, unset, p)) whole =
        (ap (λ (t : Stored). t.info.offset) p, subst IsWhole (sym p) whole)

    module _ (e sized : Stored) (w1 : World h) (checksum : Option (ChecksumAlgorithm × Bytes))
        (found : c.view w.store id ≡ some e)
        (passed : check_upload x h ambient e.info client_offset ≡ ok tt) (may : MayDeclare e sized)
        (view1 : (j : UploadId) → c.view w1.store j ≡ update (c.view w.store) id (some sized) j)
        (announced : request_checksum x h req.headers ≡ ok checksum) where
      from_report :
          (out : Result (TusResponse x) × World h)
          → ReportOutcome x h c id w1 sized checksum req.body out
          → PatchOutcome ambient req client_offset w.store out
      from_report (ok response, w') a = record {
        before = e;
        found = found;
        not_final = (check_upload-ok e.info passed).0;
        at_offset = (check_upload-ok e.info passed).1;
        live =
            IsLive-check_expiry h ambient.now e.info.expires_at (check_upload-ok e.info passed).2;
        sized = sized;
        declares = may;
        buf = a.buf;
        given = a.given;
        digest = HasDigest-request_checksum x h req.headers a.buf checksum announced a.verified;
        fits = a.fits;
        view = λ j.
            let grown = some (appended sized a.buf) in
            a.view j
            ∙ (ap (λ o. if text_eq id j then grown else o) (view1 j)
                ∙ update-update (c.view w.store) (some sized) grown j);
        answer = a.answer;
      }
      from_report (err why, w') (inl same) = inl λ j.
          ap progress (same j)
          ∙ (ap progress (view1 j) ∙ progress-update (c.view w.store) e sized j found may)
      from_report (err why, w') (inr hooked) = inr hooked

      -- From the declaration of a deferred length on.
      written_lem :
          IsWhole e
          → PatchOutcome ambient req client_offset w.store
              (write_and_report x h (c.handle id) client_offset checksum req.body w1)
      written_lem whole =
          let (kept, whole1) = declared_keeps e sized may whole in
          let found1 = view1 id ∙ update_self (c.view w.store) id (some sized) in
          from_report _ (
            subst
              (λ o.
                ReportOutcome x h c id w1 sized checksum req.body
                  (write_and_report x h (c.handle id) o checksum req.body w1))
              (kept ∙ (check_upload-ok e.info passed).1)
              (write_and_report_lem x h c id w1 sized found1 whole1 checksum req.body))

    nothing_done : SameProgress h c w.store w.store
    nothing_done j = refl

    after_declare :
        (e : Stored)
        → c.view w.store id ≡ some e
        → IsWhole e
        → check_upload x h ambient e.info client_offset ≡ ok tt
        → (out : Result (Unit {0}) × World h) → DeclareOutcome w e out
        → PatchOutcome ambient req client_offset w.store (
            continue out.0
              (λ _. lift (request_checksum x h req.headers) >>= λ checksum.
                write_and_report x h (c.handle id) client_offset checksum req.body)
              out.1)
    after_declare e found whole passed (err why, w1) same =
        inl λ j. ap (λ (v : World h). progress (c.view v.store j)) same
    after_declare e found whole passed (ok _, w1) (sized, may, view1) =
        elim (Result-cases (request_checksum x h req.headers)) [
          | inl (checksum, announced) ↦
              rw announced (written_lem e sized w1 checksum found passed may view1 announced whole)
          | inr (why, bad) ↦ rw bad (
              inl λ j. ap progress (view1 j) ∙ progress-update (c.view w.store) e sized j found may)
        ]

    -- With the lock held: either the chunk is appended, or every upload keeps its progress, unless
    -- a `pre_finish` hook is there to refuse.
    pub patch_upload_lem :
        validate id ≡ ok tt
        → ((e : Stored) → c.view w.store id ≡ some e → IsWhole e)
        → PatchOutcome ambient req client_offset w.store
            (patch_upload x h ambient req client_offset id w)
    unfolding patch_upload
    patch_upload_lem valid whole = elim (Option-cases (c.view w.store id)) [
      | inl missing ↦ rw (c.get_upload_none id w.store valid missing) (inl nothing_done)
      | inr (e, found) ↦ rw (c.get_upload_some id w.store e valid found) (
          rw (c.get_info_lem id w.store e found)
            (elim (Result-cases (check_upload x h ambient e.info client_offset)) [
              | inl (_, passed) ↦ rw passed (
                  after_declare e found (whole e found) passed
                    (declare_deferred x h (c.handle id) e.info req.headers w)
                    (declare_deferred_lem w e found req.headers))
              | inr (why, refused) ↦ rw refused (inl nothing_done)
            ]))
    ]
