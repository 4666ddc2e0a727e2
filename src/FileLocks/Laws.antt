-- ===== src/FileLocks/Laws.antt =====
-- The documented behaviour of lock files: a path leads to a file, a file that is removed lives on
-- for those who have it open, and at most one open file holds the lock of a file. No call fails.
use fileloft.Base.{◌≡◌, ◌≢◌, Bool, true, false, Option, none, some, [], ◌∷◌, ◌++◌, Text}
use fileloft.Disk.{FilePath, IoResult}
use fileloft.FileLocks.{LockFiles}

pub record IsLockFiles (d : LockFiles) : Type 1 where
  pub Node : Type 0
  pub node : d.Handle → Node
  pub at : d.State → FilePath → Option Node
  pub holder : d.State → Node → Option d.Handle
  pub folder : d.State → FilePath → Bool
  pub create_dir_all_lem :
      (dir : FilePath) (s : d.State)
      → (s' : d.State) × (d.create_dir_all dir s ≡ (IoResult.done tt, s'))
        × (folder s' dir ≡ true)
        × ((q : FilePath) → at s' q ≡ at s q)
        × ((n : Node) → holder s' n ≡ holder s n)
  -- A file that is there is opened; else one is made that nobody has locked. The open file is new.
  pub open_file_lem :
      (dir : FilePath) (name : Text) (s : d.State)
      → folder s dir ≡ true
      → (f : d.Handle) × (s' : d.State) × (d.open_file (dir ++ name ∷ []) s ≡ (IoResult.done f, s'))
        × (at s' (dir ++ name ∷ []) ≡ some (node f))
        × ((n : Node) → at s (dir ++ name ∷ []) ≡ some n → n ≡ node f)
        × (at s (dir ++ name ∷ []) ≡ none → holder s (node f) ≡ none)
        × ((n : Node) → holder s n ≢ some f)
        × ((n : Node) → holder s' n ≡ holder s n)
        × ((q : FilePath) → folder s' q ≡ folder s q)
  pub try_lock_exclusive_free :
      (f : d.Handle) (s : d.State)
      → holder s (node f) ≡ none
      → (s' : d.State) × (d.try_lock_exclusive f s ≡ (IoResult.done true, s'))
        × (holder s' (node f) ≡ some f)
        × ((n : Node) → node f ≢ n → holder s' n ≡ holder s n)
        × ((q : FilePath) → at s' q ≡ at s q)
        × ((q : FilePath) → folder s' q ≡ folder s q)
  pub try_lock_exclusive_held :
      (f g : d.Handle) (s : d.State)
      → holder s (node f) ≡ some g
      → g ≢ f
      → d.try_lock_exclusive f s ≡ (IoResult.done false, s)
  pub unlock_lem :
      (f : d.Handle) (s : d.State)
      → holder s (node f) ≡ some f
      → (s' : d.State) × (d.unlock f s ≡ (IoResult.done tt, s'))
        × (holder s' (node f) ≡ none)
        × ((n : Node) → node f ≢ n → holder s' n ≡ holder s n)
        × ((q : FilePath) → at s' q ≡ at s q)
        × ((q : FilePath) → folder s' q ≡ folder s q)
  -- Closing a file that holds no lock.
  pub close_lem :
      (f : d.Handle) (s : d.State)
      → ((n : Node) → holder s n ≢ some f)
      → ((n : Node) → holder (d.close f s) n ≡ holder s n)
        × ((q : FilePath) → at (d.close f s) q ≡ at s q)
        × ((q : FilePath) → folder (d.close f s) q ≡ folder s q)
  pub remove_file_lem :
      (p : FilePath) (n : Node) (s : d.State)
      → at s p ≡ some n
      → (s' : d.State) × (d.remove_file p s ≡ (IoResult.done tt, s'))
        × (at s' p ≡ none)
        × ((q : FilePath) → p ≢ q → at s' q ≡ at s q)
        × ((m : Node) → holder s' m ≡ holder s m)
        × ((q : FilePath) → folder s' q ≡ folder s q)
  -- Each open file holds the lock of its own file at most.
  pub holder-node : (s : d.State) (n : Node) (f : d.Handle) → holder s n ≡ some f → n ≡ node f
