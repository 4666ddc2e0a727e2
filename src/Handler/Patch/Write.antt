-- ===== src/Handler/Patch/Write.antt =====
-- The steps of a PATCH that change the store, over any store that keeps the contract.
use fileloft.Base.{
  ℕ, ◌≡◌, refl, ◌⊎◌, inl, inr, true, Option, none, some, ap, subst, length, text_eq, Bool-cases,
}
use fileloft.Error.{TusError, Result, ok, err}
use fileloft.Info.{is_complete}
use fileloft.Info.Id.{UploadId}
use fileloft.Info.Codec.{Bytes}
use fileloft.Crates.{Crates, ChecksumAlgorithm}
use fileloft.Checksum
use fileloft.Store.{Reader, bytes, broken}
use fileloft.Store.Contract.{Stored, update, IsWhole, appended, write_check, IsDataStore}
use fileloft.Handler.Base.{TusHandler, World, run_hook}
use fileloft.Handler.Patch.{write_body, finish_if_complete}

-- The digest that the client announced, if it did, is that of the bytes.
abbrev pub IsVerified : Crates → Option (ChecksumAlgorithm × Bytes) → Bytes → Type 0
IsVerified x none buf = Unit
IsVerified x (some (algorithm, expected)) buf = text_eq (x.digest algorithm buf) expected ≡ true

pub Result-cases :
    {A : Type 0} (r : Result A) → ((a : A) × (r ≡ ok a)) ⊎ ((e : TusError) × (r ≡ err e))
Result-cases (ok a) = inl (a, refl)
Result-cases (err e) = inr (e, refl)

module _ (x : Crates) (h : TusHandler) (c : IsDataStore h.store) (id : UploadId) where
  -- A write that was accepted, or one that left everything as it was.
  pub record Written (w : World h) (e : Stored) (checksum : Option (ChecksumAlgorithm × Bytes))
      (body : Reader) (out : Result ℕ × World h) : Type 0 where
    pub buf : Bytes
    pub given : body ≡ bytes buf
    pub verified : IsVerified x checksum buf
    pub fits : write_check e buf ≡ ok tt
    pub store : h.store.State
    pub result : out ≡ (ok (length buf), record w { store = store })
    pub view :
        (j : UploadId) → c.view store j ≡ update (c.view w.store) id (some (appended e buf)) j

  abbrev pub WriteOutcome :
      World h → Stored → Option (ChecksumAlgorithm × Bytes) → Reader → Result ℕ × World h → Type 0
  WriteOutcome w e checksum body out =
      Written w e checksum body out ⊎ ((why : TusError) × (out ≡ (err why, w)))

  module _ (w : World h) (e : Stored) (found : c.view w.store id ≡ some e) (whole : IsWhole e) where
    plain_write :
        (buf : Bytes)
        → WriteOutcome w e none
            (bytes buf)
            (write_body x h (c.handle id) e.info.offset none (bytes buf) w)
    unfolding write_body
    plain_write buf = elim (Result-cases (write_check e buf)) [
      | inl (_, fits) ↦
          let (s', done, view) = c.write_chunk_ok id w.store e buf found whole fits in
          inl (record {
            buf = buf;
            given = refl;
            verified = tt;
            fits = fits;
            store = s';
            result = rw done;
            view = view;
          })
      | inr (why, no_room) ↦
          inr (why, rw (c.write_chunk_refused id w.store e buf why found whole no_room))
    ]

    with_checksum :
        (buf : Bytes) (algorithm : ChecksumAlgorithm) (expected : Bytes) {out : Result ℕ × World h}
        → text_eq (x.digest algorithm buf) expected ≡ true
        → WriteOutcome w e none (bytes buf) out
        → WriteOutcome w e (some (algorithm, expected)) (bytes buf) out
    with_checksum buf algorithm expected same (inr refused) = inr refused
    with_checksum buf algorithm expected same (inl p) =
        let one : buf ≡ p.buf = cc (p.given) in
        inl (record {
          buf = p.buf;
          given = p.given;
          verified = subst (λ b. text_eq (x.digest algorithm b) expected ≡ true) one same;
          fits = p.fits;
          store = p.store;
          result = p.result;
          view = p.view;
        })

    -- The digest is compared before the store is touched.
    pub write_body_lem :
        (checksum : Option (ChecksumAlgorithm × Bytes)) (body : Reader)
        → WriteOutcome w e checksum body
            (write_body x h (c.handle id) e.info.offset checksum body w)
    unfolding write_body Checksum.read_all Checksum.verify
    write_body_lem none (bytes buf) = plain_write buf
    write_body_lem none (broken why) =
        inr (TusError.io why, rw (c.write_chunk_broken id w.store e why found))
    write_body_lem (some (algorithm, expected)) (broken why) = inr (TusError.io why, refl)
    write_body_lem (some (algorithm, expected)) (bytes buf) =
        elim (Bool-cases (text_eq (x.digest algorithm buf) expected)) [
          | inl same ↦ rw same (with_checksum buf algorithm expected same (plain_write buf))
          | inr other ↦ inr (TusError.checksum_mismatch, rw other)
        ]

    -- Finishing an upload, whether its hook agrees or not, shows the same uploads.
    pub finish_if_complete-view :
        (j : UploadId)
        → c.view (finish_if_complete h (c.handle id) e.info w).1.store j ≡ c.view w.store j
    unfolding finish_if_complete
    finish_if_complete-view j = elim (Bool-cases (is_complete e.info)) [
      | inl complete ↦ elim (Result-cases (run_hook h h.config.hooks.pre_finish e.info)) [
        | inl (_, agreed) ↦
            let (s', done, view) = c.finalize_lem id w.store e found whole complete in
            rw complete (rw agreed (rw done (view j)))
        | inr (why, refused) ↦ rw complete (rw refused refl)
      ]
      | inr partly ↦ rw partly refl
    ]

    -- Without a `pre_finish` hook, finishing does not fail.
    pub finish_if_complete-ok :
        h.config.hooks.pre_finish ≡ none → (finish_if_complete h (c.handle id) e.info w).0 ≡ ok tt
    unfolding finish_if_complete
    finish_if_complete-ok unhooked = elim (Bool-cases (is_complete e.info)) [
      | inl complete ↦
          let (s', done, view) = c.finalize_lem id w.store e found whole complete in
          rw complete (rw (ap (λ o. run_hook h o e.info) unhooked) (rw done refl))
      | inr partly ↦ rw partly refl
    ]
