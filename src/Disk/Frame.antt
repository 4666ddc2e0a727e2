-- ===== src/Disk/Frame.antt =====
-- Which files a call on a disk leaves alone, also a call that fails, or that fails half way.
use fileloft.Base.{◌≡◌, ◌≢◌, ◌⊎◌, Option, none}
use fileloft.Info.Codec.{Bytes}
use fileloft.Disk.{FilePath, Disk}

pub record IsFramed (d : Disk) (file : d.State → FilePath → Option Bytes) : Type 0 where
  pub create_dir_all_same :
      (dir : FilePath) (s : d.State) (q : FilePath) → file (d.create_dir_all dir s).1 q ≡ file s q
  pub write_other :
      (p : FilePath) (b : Bytes) (s : d.State) (q : FilePath)
      → p ≢ q
      → file (d.write p b s).1 q ≡ file s q
  pub open_truncated_other :
      (p : FilePath) (s : d.State) (q : FilePath)
      → p ≢ q
      → file (d.open_truncated p s).1 q ≡ file s q
  pub append_other :
      (p : FilePath) (b : Bytes) (s : d.State) (q : FilePath)
      → p ≢ q
      → file (d.append p b s).1 q ≡ file s q
  pub flush_other :
      (p : FilePath) (s : d.State) (q : FilePath) → p ≢ q → file (d.flush p s).1 q ≡ file s q
  pub remove_file_other :
      (p : FilePath) (s : d.State) (q : FilePath) → p ≢ q → file (d.remove_file p s).1 q ≡ file s q
  pub remove_file_own :
      (p : FilePath) (s : d.State)
      → (file (d.remove_file p s).1 p ≡ file s p) ⊎ (file (d.remove_file p s).1 p ≡ none)
