-- ===== src/Store.antt =====
-- crates/fileloft-core/src/store.rs: the traits `DataStore` and `Upload`. A store is given by the
-- state that its handles share, the type of its handles, and the operations as actions on the
-- state. No store changes a handle after it is made.
pub mod Contract
use fileloft.Base.{ℕ, List, Text}
use fileloft.Error.{TusError, Result, ok, err}
use fileloft.Exec.{Exec}
use fileloft.Info.{UploadInfo}
use fileloft.Info.Id.{UploadId}
use fileloft.Info.Codec.{Bytes}

-- `dyn AsyncRead`: the bytes that it will give, or the error at which it stops.
pub data Reader : Type 0 where
  bytes : Bytes → Reader
  broken : (why : Text) → Reader

-- `read_to_end`
abbrev pub read_to_end : Reader → Result Bytes
read_to_end (bytes b) = ok b
read_to_end (broken why) = err (TusError.io why)

pub record DataStore : Type 1 where
  pub State : Type 0
  pub Upload : Type 0
  pub create_upload : UploadInfo → Exec State Upload
  pub get_upload : UploadId → Exec State Upload
  pub write_chunk : Upload → ℕ → Reader → Exec State ℕ
  pub get_info : Upload → Exec State UploadInfo
  pub finalize : Upload → Exec State (Unit {0})
  pub delete : Upload → Exec State (Unit {0})
  pub declare_length : Upload → ℕ → Exec State (Unit {0})
  pub concatenate : Upload → List UploadInfo → Exec State (Unit {0})
  pub read_content : Upload → Exec State Reader
