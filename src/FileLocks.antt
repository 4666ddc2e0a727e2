-- ===== src/FileLocks.antt =====
-- crates/fileloft-store-fs/src/locker.rs: one lock file for each upload, locked by the operating
-- system for the open file that asks first. A guard keeps its file open; when it is given up, the
-- lock file is unlocked and removed.
pub mod Laws
pub mod Races
use fileloft.Base.{
  ℕ, Bool, true, false, Option, none, some, List, [], ◌∷◌, ◌++◌, if◌then◌else◌, leb, Text, codes,
}
use fileloft.Error.{TusError, Result, ok, err}
use fileloft.Exec.{Exec, pure, lift, ◌>>=◌, ◌>>◌}
use fileloft.Info.Id.{UploadId, validate}
use fileloft.Disk.{FilePath, IoError, IoResult}
use fileloft.Files.Store.{io_result}

-- What the code takes from std and fs4. A handle is an open file; `close` is the end of one.
pub record LockFiles : Type 1 where
  pub State : Type 0
  pub Handle : Type 0
  pub create_dir_all : FilePath → State → IoResult (Unit {0}) × State
  pub open_file : FilePath → State → IoResult Handle × State
  pub try_lock_exclusive : Handle → State → IoResult Bool × State
  pub unlock : Handle → State → IoResult (Unit {0}) × State
  pub close : Handle → State → State
  pub remove_file : FilePath → State → IoResult (Unit {0}) × State

pub record FileLocker : Type 0 where
  pub lock_dir : FilePath
  pub timeout : ℕ

unfoldable pub with_timeout : FileLocker → ℕ → FileLocker
with_timeout locker timeout = record locker { timeout = timeout }

abbrev pub lock_name : UploadId → Text
lock_name id = id ++ codes ".lock"

abbrev pub lock_path : FileLocker → UploadId → FilePath
lock_path locker id = locker.lock_dir ++ lock_name id ∷ []

module _ (d : LockFiles) where
  -- The file is taken out when the lock is given up.
  pub record FileLock : Type 0 where
    pub file : Option d.Handle
    pub path : FilePath

  abbrev pub Action : Type 0 → Type 0
  Action A = Exec d.State A

  -- `f.try_lock_exclusive()` and what follows: a file that is not locked is closed.
  abbrev pub tried : FilePath → d.Handle → IoResult Bool × d.State → Option FileLock × d.State
  tried path f (IoResult.done true, s) = (some (record { file = some f; path = path }), s)
  tried path f (IoResult.done false, s) = (none, d.close f s)
  tried path f (IoResult.failed e, s) = (none, d.close f s)

  unfoldable pub try_file : FilePath → d.Handle → d.State → Option FileLock × d.State
  try_file path f s = tried path f (d.try_lock_exclusive f s)

  -- One round of the loop.
  unfoldable pub attempt : FilePath → Action (Option FileLock)
  attempt path = do
    f ← λ s. let (r, s') = d.open_file path s in (io_result r, s')
    λ s. let (got, s') = try_file path f s in (ok got, s')

  -- The end of a round: `otherwise` follows a failed attempt.
  abbrev pub settle :
      Result (Option FileLock) × d.State
      → (d.State → Option (Result FileLock) × d.State)
      → Option (Result FileLock) × d.State
  settle (err e, s) otherwise = (some (err e), s)
  settle (ok (some lock), s) otherwise = (some (ok lock), s)
  settle (ok none, s) otherwise = otherwise s

  -- The loop over the readings of the clock after each failed attempt. The caller gives up where
  -- there is no further reading.
  unfoldable pub wait_for :
      (deadline : ℕ) → UploadId → FilePath → List ℕ → d.State → Option (Result FileLock) × d.State
  wait_for deadline id path [] s = settle (attempt path s) (λ s'. (none, s'))
  wait_for deadline id path (now ∷ later) s = settle (attempt path s) λ s'.
      if leb deadline now
      then (some (err (TusError.lock_timeout id)), s')
      else wait_for deadline id path later s'

  -- `FileLocker::acquire`, whose clock is read from the call on.
  abbrev pub begin :
      FileLocker
      → UploadId
      → List ℕ
      → Result (Unit {0}) × d.State
      → Option (Result FileLock) × d.State
  begin locker id clock (err e, s) = (some (err e), s)
  begin locker id clock (ok _, s) = wait_for locker.timeout id (lock_path locker id) clock s

  unfoldable pub acquire :
      FileLocker → UploadId → List ℕ → d.State → Option (Result FileLock) × d.State
  acquire locker id clock s = begin locker id clock (
      (lift (validate id) >> λ s.
      let (r, s') = d.create_dir_all locker.lock_dir s in (io_result r, s'))
        s)

  -- What follows the unlocking in `release`, whose file is closed at the end.
  abbrev pub unlocked :
      FilePath → d.Handle → IoResult (Unit {0}) × d.State → Result (Unit {0}) × d.State
  unlocked path f (IoResult.failed e, s) = (err (TusError.io e.text), d.close f s)
  unlocked path f (IoResult.done _, s) = (ok tt, d.close f (d.remove_file path s).1)

  abbrev pub release_file : FilePath → Option d.Handle → Action (Unit {0})
  release_file path none s =
      (err (TusError.internal (codes "lock already released")), (d.remove_file path s).1)
  release_file path (some f) s = unlocked path f (d.unlock f s)

  -- `FileLock::release`: without a file it ends early, and the guard is dropped.
  unfoldable pub release : FileLock → Action (Unit {0})
  release lock = release_file lock.path lock.file

  -- `FileLock::drop`
  abbrev pub close_file : Option d.Handle → d.State → d.State
  close_file none s = s
  close_file (some f) s = d.close f (d.unlock f s).1

  unfoldable pub drop : FileLock → d.State → d.State
  drop lock s = (d.remove_file lock.path (close_file lock.file s)).1
