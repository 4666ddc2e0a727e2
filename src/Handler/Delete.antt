-- ===== src/Handler/Delete.antt =====
-- crates/fileloft-core/src/handler/delete.rs
pub mod Outcome
use fileloft.Base.{not, Option, none, some, [], codes}
use fileloft.Error.{TusError, Result}
use fileloft.Exec.{pure, lift, ◌>>=◌, ◌>>◌}
use fileloft.Info.{UploadInfo}
use fileloft.Info.Id.{UploadId}
use fileloft.Hooks.{upload_terminated}
use fileloft.Crates.{Crates}
use fileloft.Util.{check_tus_resumable}
use fileloft.Handler.Base.{
  TusHandler, Action, in_store, emit, with_lock, refuse_if, request_id, TusBody, TusRequest,
  TusResponse, response_with_body,
}

module _ (h : TusHandler) where
  -- The `pre_terminate` hook, which runs before the lock is taken.
  abbrev pub ask_hook : Option (UploadInfo → Result (Unit {0})) → UploadId → Action h (Unit {0})
  ask_hook none id = pure tt
  ask_hook (some cb) id = do
    upload ← in_store h (h.store.get_upload id)
    info ← in_store h (h.store.get_info upload)
    lift (cb info)

module _ (x : Crates) (h : TusHandler) where
  unfoldable pub delete_upload : UploadId → Action h (TusResponse x)
  delete_upload id = do
    upload ← in_store h (h.store.get_upload id)
    in_store h (h.store.delete upload)
    emit h (upload_terminated id)
    pure (response_with_body x h.config 204 x.empty (TusBody.bytes []))

  unfoldable pub handle : TusRequest x → Action h (TusResponse x)
  handle req = do
    lift (check_tus_resumable x req.headers)
    lift (
        refuse_if (not h.config.extensions.termination)
          (TusError.extension_not_enabled (codes "termination")))
    id ← lift (request_id req.upload_id)
    ask_hook h h.config.hooks.pre_terminate id
    with_lock h id (delete_upload id)
