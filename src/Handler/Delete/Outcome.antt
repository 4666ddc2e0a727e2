-- ===== src/Handler/Delete/Outcome.antt =====
-- What DELETE leaves behind, over a store that keeps the contract.
use fileloft.Base.{◌≡◌, refl, ◌∙◌, Option, none, some, [], ◌∷◌, ◌++◌, if◌then◌else◌, text_eq_refl}
use fileloft.Error.{TusError, Result, ok, err}
use fileloft.Info.Id.{UploadId, validate}
use fileloft.Hooks.{upload_terminated}
use fileloft.Crates.{Crates}
use fileloft.Store.Contract.{Stored, update, IsDataStore}
use fileloft.Handler.Base.{TusHandler, World, TusBody, TusResponse, response_with_body}
use fileloft.Handler.Delete.{delete_upload}

module _ (x : Crates) (h : TusHandler) (c : IsDataStore h.store) (id : UploadId) (w : World h)
    (valid : validate id ≡ ok tt) where
  -- The upload is gone and all others are there, the event is the last one sent, and the answer is
  -- an empty 204; an upload that is not there is not found, and nothing changes.
  abbrev pub DeleteOutcome : Option Stored → Result (TusResponse x) × World h → Type 0
  DeleteOutcome none out = out ≡ (err (TusError.not_found id), w)
  DeleteOutcome (some e) (r, w1) =
      (r ≡ ok (response_with_body x h.config 204 x.empty (TusBody.bytes [])))
      × (c.view w1.store id ≡ none)
      × ((j : UploadId) → c.view w1.store j ≡ update (c.view w.store) id none j)
      × (w1.events ≡ (if h.has_hook_tx then w.events ++ upload_terminated id ∷ [] else w.events))
      × (w1.locks ≡ w.locks)

  deleted : (o : Option Stored) → c.view w.store id ≡ o → DeleteOutcome o (delete_upload x h id w)
  unfolding delete_upload
  deleted none missing = rw (c.get_upload_none id w.store valid missing) refl
  deleted (some e) found =
      let (s1, done, view) = c.delete_lem id w.store e found in
      rw (c.get_upload_some id w.store e valid found)
        (rw done (refl, view id ∙ rw (text_eq_refl id) refl, view, refl, refl))

  -- Over a store that keeps the contract, what DELETE does under the lock, on a valid identifier: an
  -- upload that is there is removed, so that it is not there any more, while all others stay as
  -- they are, the termination is the last event sent if there is a channel, and the answer is an
  -- empty 204; an upload that is not there is reported as not found, and nothing changes.
  pub delete_upload_lem : DeleteOutcome (c.view w.store id) (delete_upload x h id w)
  delete_upload_lem = deleted (c.view w.store id) refl
