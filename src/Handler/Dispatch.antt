-- ===== src/Handler/Dispatch.antt =====
-- crates/fileloft-core/src/handler/mod.rs: `TusHandler::handle`, which routes a request to its
-- handler and turns an error into its response.
use fileloft.Error.{TusError, Result, ok, err}
use fileloft.Exec.{fail, lift}
use fileloft.Crates.{Crates}
use fileloft.Handler.Base.{
  TusHandler, World, Ambient, Action, Method, TusRequest, TusResponse, error_response,
}
use fileloft.Handler.Options
use fileloft.Handler.Read
use fileloft.Handler.Post
use fileloft.Handler.Patch
use fileloft.Handler.Delete

module _ (x : Crates) (h : TusHandler) where
  abbrev pub route : Method → Ambient → TusRequest x → Action h (TusResponse x)
  route Method.options ambient req = lift (Options.handle x h.config)
  route Method.head ambient req = Read.head x h ambient req
  route Method.get ambient req = Read.get x h ambient req
  route Method.post ambient req = Post.handle x h ambient req
  route Method.patch ambient req = Patch.handle x h ambient req
  route Method.delete ambient req = Delete.handle x h req
  route Method.other ambient req = fail TusError.method_not_allowed

  abbrev pub answer : Result (TusResponse x) → TusResponse x
  answer (ok response) = response
  answer (err e) = error_response x h.config e

  unfoldable pub handle : Ambient → TusRequest x → World h → TusResponse x × World h
  handle ambient req w = let (r, w') = route req.method ambient req w in (answer r, w')
