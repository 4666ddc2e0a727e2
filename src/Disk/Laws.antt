-- ===== src/Disk/Laws.antt =====
-- The documented behaviour of a disk on which no call fails but for a file that is missing, and on
-- which no folder has the name of a file that is written.
use fileloft.Base.{◌≡◌, ◌≢◌, ◌⊎◌, Bool, true, false, Option, none, some, List, [], ◌∷◌, ◌++◌, Text}
use fileloft.Info.{UploadInfo}
use fileloft.Info.Codec.{Bytes, Outcome}
use fileloft.Disk.{FilePath, IoError, IoResult, Disk}

-- Whether a list of names has a name, and how often at most.
pub data Named (name : Text) : List (Option Text) → Type 0 where
  here : (names : List (Option Text)) → Named name (some name ∷ names)
  there : (o : Option Text) (names : List (Option Text)) → Named name names → Named name (o ∷ names)

abbrev pub AllDistinct : List (Option Text) → Type 0
AllDistinct [] = Unit
AllDistinct (none ∷ names) = AllDistinct names
AllDistinct (some name ∷ names) = (¬ Named name names) × AllDistinct names

pub record IsDisk (d : Disk) : Type 0 where
  pub file : d.State → FilePath → Option Bytes
  pub folder : d.State → FilePath → Bool
  -- The names in listings that are no files.
  pub other : Text → Bool
  pub file-folder :
      (s : d.State) (dir : FilePath) (name : Text) (b : Bytes)
      → file s (dir ++ name ∷ []) ≡ some b
      → folder s dir ≡ true
  pub create_dir_all_lem :
      (dir : FilePath) (s : d.State)
      → (s' : d.State) × (d.create_dir_all dir s ≡ (IoResult.done tt, s'))
        × (folder s' dir ≡ true)
        × ((q : FilePath) → file s' q ≡ file s q)
  pub write_lem :
      (dir : FilePath) (name : Text) (b : Bytes) (s : d.State)
      → folder s dir ≡ true
      → (s' : d.State) × (d.write (dir ++ name ∷ []) b s ≡ (IoResult.done tt, s'))
        × (file s' (dir ++ name ∷ []) ≡ some b)
        × ((q : FilePath) → dir ++ name ∷ [] ≢ q → file s' q ≡ file s q)
  pub open_truncated_lem :
      (dir : FilePath) (name : Text) (s : d.State)
      → folder s dir ≡ true
      → (s' : d.State) × (d.open_truncated (dir ++ name ∷ []) s ≡ (IoResult.done tt, s'))
        × (file s' (dir ++ name ∷ []) ≡ some [])
        × ((q : FilePath) → dir ++ name ∷ [] ≢ q → file s' q ≡ file s q)
  pub append_lem :
      (p : FilePath) (a b : Bytes) (s : d.State)
      → file s p ≡ some a
      → (s' : d.State) × (d.append p b s ≡ (IoResult.done tt, s'))
        × (file s' p ≡ some (a ++ b))
        × ((q : FilePath) → p ≢ q → file s' q ≡ file s q)
  pub flush_lem : (p : FilePath) (s : d.State) → d.flush p s ≡ (IoResult.done tt, s)
  pub remove_file_some :
      (p : FilePath) (b : Bytes) (s : d.State)
      → file s p ≡ some b
      → (s' : d.State) × (d.remove_file p s ≡ (IoResult.done tt, s'))
        × (file s' p ≡ none)
        × ((q : FilePath) → p ≢ q → file s' q ≡ file s q)
        × ((q : FilePath) → folder s' q ≡ folder s q)
  pub remove_file_folder :
      (p : FilePath) (s : d.State)
      → file s p ≡ none
      → folder s p ≡ true
      → (e : IoError) × (d.remove_file p s ≡ (IoResult.failed e, s)) × (e.is_not_found ≡ false)
  pub remove_file_none :
      (p : FilePath) (s : d.State)
      → file s p ≡ none
      → folder s p ≡ false
      → (e : IoError) × (d.remove_file p s ≡ (IoResult.failed e, s)) × (e.is_not_found ≡ true)
  pub read_some :
      (p : FilePath) (b : Bytes) (s : d.State) → file s p ≡ some b → d.read p s ≡ IoResult.done b
  pub read_none :
      (p : FilePath) (s : d.State)
      → file s p ≡ none
      → (e : IoError) × (d.read p s ≡ IoResult.failed e)
  pub try_exists_file :
      (p : FilePath) (b : Bytes) (s : d.State)
      → file s p ≡ some b
      → d.try_exists p s ≡ IoResult.done true
  pub try_exists_folder :
      (p : FilePath) (s : d.State) → folder s p ≡ true → d.try_exists p s ≡ IoResult.done true
  pub try_exists_none :
      (p : FilePath) (s : d.State)
      → file s p ≡ none
      → folder s p ≡ false
      → d.try_exists p s ≡ IoResult.done false
  -- A listing has the names of the files in the folder, in any order, and may have others.
  pub read_dir_lem :
      (dir : FilePath) (s : d.State)
      → folder s dir ≡ true
      → (names : List (Option Text)) × (d.read_dir dir s ≡ IoResult.done names)
        × AllDistinct names
        × ((name : Text) (b : Bytes) → file s (dir ++ name ∷ []) ≡ some b → Named name names)
        × ((name : Text)
            → Named name names
            → ((b : Bytes) × (file s (dir ++ name ∷ []) ≡ some b)) ⊎ (other name ≡ true))
  pub from_slice-to_vec :
      (info : UploadInfo)
      → (b : Bytes) × (d.to_vec info ≡ Outcome.done b) × (d.from_slice b ≡ Outcome.done info)
