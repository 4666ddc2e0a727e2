-- ===== src/Handler/Locks/Requests.antt =====
-- Every request gives back the lock that it takes.
use fileloft.Base.{ℕ, ◌≡◌, refl, Option, none, some, List, [], ◌∷◌, Bool}
use fileloft.Error.{Result}
use fileloft.Exec.Keeps.{Keeps}
use fileloft.Info.{UploadInfo}
use fileloft.Info.Id.{UploadId}
use fileloft.Info.Codec.{Bytes}
use fileloft.Crates.{Crates, ChecksumAlgorithm}
use fileloft.Store.{Reader}
use fileloft.Lock.Contract.{IsLocker, FreesOnDrop}
use fileloft.Handler.Base.{TusHandler, World, Ambient, Method, TusRequest}
use fileloft.Handler.Patch
use fileloft.Handler.Read
use fileloft.Handler.Delete
use fileloft.Handler.Post
use fileloft.Handler.Dispatch.{route, handle}
use fileloft.Handler.Locks.{SameLocks, lock_rules}

module _ (x : Crates) (h : TusHandler) (l : IsLocker h.locker) (f : FreesOnDrop h.locker l) where
  Keeps-head :
      (ambient : Ambient) (req : TusRequest x) → Keeps (SameLocks h l f) (Read.head x h ambient req)
  unfolding Read.head
  Keeps-head ambient req = search lock_rules depth 15

  Keeps-get :
      (ambient : Ambient) (req : TusRequest x) → Keeps (SameLocks h l f) (Read.get x h ambient req)
  unfolding Read.get Read.get_upload_content
  Keeps-get ambient req = search lock_rules depth 20

  Keeps-ask_hook :
      (hook : Option (UploadInfo → Result (Unit {0}))) (id : UploadId)
      → Keeps (SameLocks h l f) (Delete.ask_hook h hook id)
  Keeps-ask_hook none id = search lock_rules
  Keeps-ask_hook (some cb) id = search lock_rules depth 15

  Keeps-delete : (req : TusRequest x) → Keeps (SameLocks h l f) (Delete.handle x h req)
  unfolding Delete.handle Delete.delete_upload
  Keeps-delete req = search (lock_rules, Keeps-ask_hook) depth 20

  Keeps-declare :
      (upload : h.store.Upload) (length : Option ℕ)
      → Keeps (SameLocks h l f) (Patch.declare h upload length)
  Keeps-declare upload none = search lock_rules
  Keeps-declare upload (some size) = search lock_rules depth 15

  Keeps-declare_deferred :
      (upload : h.store.Upload) (info : UploadInfo) (headers : x.HeaderMap)
      → Keeps (SameLocks h l f) (Patch.declare_deferred x h upload info headers)
  unfolding Patch.declare_deferred
  Keeps-declare_deferred upload info headers = search (lock_rules, Keeps-declare) depth 15

  Keeps-write_body :
      (upload : h.store.Upload) (offset : ℕ) (checksum : Option (ChecksumAlgorithm × Bytes))
      (body : Reader)
      → Keeps (SameLocks h l f) (Patch.write_body x h upload offset checksum body)
  unfolding Patch.write_body
  Keeps-write_body upload offset none body = search lock_rules
  Keeps-write_body upload offset (some (algorithm, expected)) body = search lock_rules depth 15

  Keeps-finish_if_complete :
      (upload : h.store.Upload) (info : UploadInfo)
      → Keeps (SameLocks h l f) (Patch.finish_if_complete h upload info)
  unfolding Patch.finish_if_complete
  Keeps-finish_if_complete upload info = search lock_rules depth 15

  Keeps-write_and_report :
      (upload : h.store.Upload) (offset : ℕ) (checksum : Option (ChecksumAlgorithm × Bytes))
      (body : Option Reader)
      → Keeps (SameLocks h l f) (Patch.write_and_report x h upload offset checksum body)
  unfolding Patch.write_and_report
  Keeps-write_and_report upload offset checksum body =
      search (lock_rules, Keeps-write_body, Keeps-finish_if_complete) depth 20

  Keeps-patch_upload :
      (ambient : Ambient) (req : TusRequest x) (offset : ℕ) (id : UploadId)
      → Keeps (SameLocks h l f) (Patch.patch_upload x h ambient req offset id)
  unfolding Patch.patch_upload
  Keeps-patch_upload ambient req offset id =
      search (lock_rules, Keeps-declare_deferred, Keeps-write_and_report) depth 20

  Keeps-patch :
      (ambient : Ambient) (req : TusRequest x)
      → Keeps (SameLocks h l f) (Patch.handle x h ambient req)
  unfolding Patch.handle
  Keeps-patch ambient req = search (lock_rules, Keeps-patch_upload) depth 20

  Keeps-fetch_partial_infos :
      (ids : List UploadId) → Keeps (SameLocks h l f) (Post.fetch_partial_infos h ids)
  unfolding Post.fetch_partial_infos
  Keeps-fetch_partial_infos [] = search lock_rules
  Keeps-fetch_partial_infos (id ∷ ids) =
      let rest = Keeps-fetch_partial_infos ids in search lock_rules depth 20

  Keeps-terminate_hook :
      (hook : Option (UploadInfo → Result (Unit {0}))) (upload : h.store.Upload)
      → Keeps (SameLocks h l f) (Post.terminate_hook h hook upload)
  Keeps-terminate_hook none upload = search lock_rules
  Keeps-terminate_hook (some cb) upload = search lock_rules depth 15

  Keeps-remove_partials :
      (ids : List UploadId) → Keeps (SameLocks h l f) (Post.remove_partials h ids)
  unfolding Post.remove_partials
  Keeps-remove_partials [] = search lock_rules
  Keeps-remove_partials (id ∷ ids) =
      let rest = Keeps-remove_partials ids in search (lock_rules, Keeps-terminate_hook) depth 20

  Keeps-assemble :
      (final : Bool) (upload : h.store.Upload) (ids : List UploadId)
      → Keeps (SameLocks h l f) (Post.assemble h final upload ids)
  unfolding Post.assemble
  Keeps-assemble final upload ids = search (lock_rules, Keeps-fetch_partial_infos) depth 15

  Keeps-clean_up :
      (final : Bool) (upload : h.store.Upload) (info : UploadInfo)
      → Keeps (SameLocks h l f) (Post.clean_up h final upload info)
  unfolding Post.clean_up
  Keeps-clean_up final upload info = search (lock_rules, Keeps-remove_partials) depth 15

  Keeps-write_if_some :
      (upload : h.store.Upload) (body : Option Reader)
      → Keeps (SameLocks h l f) (Post.write_if_some x h upload body)
  Keeps-write_if_some upload none = search lock_rules
  Keeps-write_if_some upload (some body) = search lock_rules

  Keeps-write_octets :
      (ct : Option x.HeaderValue) (upload : h.store.Upload) (req : TusRequest x)
      → Keeps (SameLocks h l f) (Post.write_octets x h ct upload req)
  Keeps-write_octets none upload req = search lock_rules
  Keeps-write_octets (some ct) upload req = search (lock_rules, Keeps-write_if_some) depth 15

  Keeps-write_initial :
      (upload : h.store.Upload) (req : TusRequest x)
      → Keeps (SameLocks h l f) (Post.write_initial x h upload req)
  unfolding Post.write_initial
  Keeps-write_initial upload req = search (lock_rules, Keeps-write_octets) depth 15

  Keeps-post :
      (ambient : Ambient) (req : TusRequest x)
      → Keeps (SameLocks h l f) (Post.handle x h ambient req)
  unfolding Post.handle Post.create_and_fill
  Keeps-post ambient req =
      search
        (lock_rules, Keeps-assemble, Keeps-write_initial, Keeps-clean_up, Keeps-finish_if_complete)
        depth 30

  Keeps-route :
      (method : Method) (ambient : Ambient) (req : TusRequest x)
      → Keeps (SameLocks h l f) (route x h method ambient req)
  Keeps-route Method.options ambient req = search lock_rules
  Keeps-route Method.head ambient req = Keeps-head ambient req
  Keeps-route Method.get ambient req = Keeps-get ambient req
  Keeps-route Method.post ambient req = Keeps-post ambient req
  Keeps-route Method.patch ambient req = Keeps-patch ambient req
  Keeps-route Method.delete ambient req = Keeps-delete req
  Keeps-route Method.other ambient req = record { at = λ w j. refl }

  -- With a locker that keeps its contract and also frees an upload when its guard is dropped, which
  -- the trait does not ask of it: every request, whatever its method and whether it succeeds or
  -- fails, leaves held exactly the uploads that were held before it.
  pub handle_releases :
      (ambient : Ambient) (req : TusRequest x) (w : World h) (j : UploadId)
      → l.held (handle x h ambient req w).1.locks j ≡ l.held w.locks j
  unfolding handle
  handle_releases ambient req w j = (Keeps-route req.method ambient req).at w j
