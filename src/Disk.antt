-- ===== src/Disk.antt =====
-- What the file store takes from tokio's file system calls and from serde_json: operations on the
-- files of a disk, and the text in which an upload's state is kept. A path is the list of its
-- components. `Disk/Laws` has what they are documented to do.
pub mod Laws
pub mod Frame
use fileloft.Base.{ℕ, Bool, Option, List, Text}
use fileloft.Info.{UploadInfo}
use fileloft.Info.Codec.{Bytes, Outcome}

abbrev pub FilePath : Type 0
FilePath = List Text

-- `std::io::Error`, of which the code asks only whether its kind is `NotFound`.
pub record IoError : Type 0 where
  pub is_not_found : Bool
  pub text : Text

pub data IoResult (A : Type 0) : Type 0 where
  done : A → IoResult A
  failed : IoError → IoResult A

-- A file that is opened with `truncate` is emptied at once; what is copied to it goes to its end.
-- A name that `read_dir` finds is `none` where it is not Unicode.
pub record Disk : Type 1 where
  pub State : Type 0
  pub create_dir_all : FilePath → State → IoResult (Unit {0}) × State
  pub write : FilePath → Bytes → State → IoResult (Unit {0}) × State
  pub open_truncated : FilePath → State → IoResult (Unit {0}) × State
  pub append : FilePath → Bytes → State → IoResult (Unit {0}) × State
  pub flush : FilePath → State → IoResult (Unit {0}) × State
  pub remove_file : FilePath → State → IoResult (Unit {0}) × State
  pub read : FilePath → State → IoResult Bytes
  pub try_exists : FilePath → State → IoResult Bool
  pub read_dir : FilePath → State → IoResult (List (Option Text))
  pub to_vec : UploadInfo → Outcome Bytes
  pub from_slice : Bytes → Outcome UploadInfo
