-- ===== src/Tests/LockFiles.antt =====
-- Lock files in memory: files are numbers, and an open file is its file with a number of its own.
use fileloft.Base.{
  ℕ, ◌+◌, ◌<◌, ◌==◌, ◌≡◌, ◌≢◌, refl, ap, sym, ◌∙◌, inl, inr, Bool, true, false, Option, none, some,
  List, [], ◌∷◌, ◌++◌, arith, Text, codes, if◌then◌else◌, Bool-cases, Option-cases,
}
use fileloft.Error.{TusError, ok, err}
use fileloft.Disk.{FilePath, IoError, IoResult}
use fileloft.FileLocks.{LockFiles, FileLocker, FileLock, attempt, wait_for, release, lock_path}
use fileloft.FileLocks.Laws.{IsLockFiles}
use fileloft.FileLocks.Races.{
  Held, guard, wait_for-Held, release-attempt, overtaken, overtaken-both,
}
use fileloft.Tests.Folder.{path_eq, path_eq_iff}

abbrev Handle : Type 0
Handle = ℕ × ℕ

record Files : Type 0 where
  next : ℕ
  paths : FilePath → Option ℕ
  locks : List Handle
  folders : FilePath → Bool

unfoldable lookup : ℕ → List Handle → Option Handle
lookup n [] = none
lookup n ((m, fd) ∷ locks) = if m == n then some (m, fd) else lookup n locks

unfoldable without : ℕ → List Handle → List Handle
without n [] = []
without n ((m, fd) ∷ locks) = let rest = without n locks in if m == n then rest else (m, fd) ∷ rest

-- More than any number of a locked file, and of an open file that holds a lock.
unfoldable beyond : List Handle → ℕ
beyond [] = 0
beyond ((m, fd) ∷ locks) = m + fd + 1 + beyond locks

lookup-node : (n : ℕ) (locks : List Handle) (f : Handle) → lookup n locks ≡ some f → n ≡ f.0
unfolding lookup
lookup-node n [] f h = cc
lookup-node n ((m, fd) ∷ locks) f h = elim (Bool-cases (m == n)) [
  | inl same ↦
      let e : some (m, fd) ≡ some f = rw same at h in
      let number : m ≡ n = ground arith in
      let first : (m, fd) ≡ f = cc in sym number ∙ ap (λ p. p.0) first
  | inr other ↦ lookup-node n locks f (rw other at h)
]

lookup-beyond :
    (n : ℕ) (locks : List Handle) (f : Handle)
    → lookup n locks ≡ some f
    → (n < beyond locks) × (f.1 < beyond locks)
unfolding lookup beyond
lookup-beyond n [] f h = cc
lookup-beyond n ((m, fd) ∷ locks) f h = elim (Bool-cases (m == n)) [
  | inl same ↦
      let e : some (m, fd) ≡ some f = rw same at h in
      let number : m ≡ n = ground arith in
      let first : (m, fd) ≡ f = cc in
      let second : fd ≡ f.1 = ap (λ p. p.1) first in (omega (arith, number), omega (arith, second))
  | inr other ↦
      let (a, b) = lookup-beyond n locks f (rw other at h) in (omega (arith, a), omega (arith, b))
]

lookup-without :
    (n k : ℕ) (locks : List Handle)
    → lookup k (without n locks) ≡ (if n == k then none else lookup k locks)
unfolding lookup without
lookup-without n k [] = ground arith
lookup-without n k ((m, fd) ∷ locks) = ground (arith, lookup-without n k locks)

abbrev put_path : FilePath → Option ℕ → (FilePath → Option ℕ) → FilePath → Option ℕ
put_path p o paths q = if path_eq p q then o else paths q

abbrev missing : IoError
missing = record { is_not_found = true; text = codes "not found" }

abbrev opened : FilePath → Files → Option ℕ → IoResult Handle × Files
opened p s (some n) = (IoResult.done (n, beyond s.locks), s)
opened p s none =
    let n = s.next + beyond s.locks in
    (
      IoResult.done (n, beyond s.locks),
      record s { next = n + 1; paths = put_path p (some n) s.paths },
    )

abbrev locked : Handle → Files → Option Handle → IoResult Bool × Files
locked f s none = (IoResult.done true, record s { locks = f ∷ s.locks })
locked f s (some g) = (IoResult.done false, s)

abbrev removed : FilePath → Files → Option ℕ → IoResult (Unit {0}) × Files
removed p s none = (IoResult.failed missing, s)
removed p s (some n) = (IoResult.done tt, record s { paths = put_path p none s.paths })

-- The code unlocks a file before it closes it.
abbrev lock_files : LockFiles
lock_files = record {
  State = Files;
  Handle = Handle;
  create_dir_all = λ dir s.
      (IoResult.done tt, record s { folders = λ q. if path_eq dir q then true else s.folders q });
  open_file = λ p s. opened p s (s.paths p);
  try_lock_exclusive = λ f s. locked f s (lookup f.0 s.locks);
  unlock = λ f s. (IoResult.done tt, record s { locks = without f.0 s.locks });
  close = λ f s. s;
  remove_file = λ p s. removed p s (s.paths p);
}

same_path : (p : FilePath) → path_eq p p ≡ true
same_path p = (path_eq_iff p p).1 refl

other_path : (p q : FilePath) → p ≢ q → path_eq p q ≡ false
other_path p q other = elim (Bool-cases (path_eq p q)) [
  | inl same ↦ absurd (other ((path_eq_iff p q).0 same))
  | inr apart ↦ apart
]

bare_beyond : (n : ℕ) (locks : List Handle) → lookup (n + beyond locks) locks ≡ none
bare_beyond n locks = elim (Option-cases (lookup (n + beyond locks) locks)) [
  | inl bare ↦ bare
  | inr (f, e) ↦
      let bound = (lookup-beyond (n + beyond locks) locks f e).0 in absurd (omega (arith, bound))
]

new_handle : (n m : ℕ) (locks : List Handle) → lookup n locks ≢ some (m, beyond locks)
new_handle n m locks h =
    let bound = (lookup-beyond n locks (m, beyond locks) h).1 in omega (arith, bound)

open_file_lem :
    (dir : FilePath) (name : Text) (s : Files)
    → s.folders dir ≡ true
    → (f : Handle) × (s' : Files) × (opened (dir ++ name ∷ []) s (s.paths (dir ++ name ∷ []))
        ≡ (IoResult.done f, s'))
      × (s'.paths (dir ++ name ∷ []) ≡ some f.0)
      × ((n : ℕ) → s.paths (dir ++ name ∷ []) ≡ some n → n ≡ f.0)
      × (s.paths (dir ++ name ∷ []) ≡ none → lookup f.0 s.locks ≡ none)
      × ((n : ℕ) → lookup n s.locks ≢ some f)
      × ((n : ℕ) → lookup n s'.locks ≡ lookup n s.locks)
      × ((q : FilePath) → s'.folders q ≡ s.folders q)
open_file_lem dir name s there = elim (Option-cases (s.paths (dir ++ name ∷ []))) [
  | inl bare ↦
      let n = s.next + beyond s.locks in
      (
        (n, beyond s.locks),
        record s { next = n + 1; paths = put_path (dir ++ name ∷ []) (some n) s.paths },
        rw bare refl,
        rw (same_path (dir ++ name ∷ [])) refl,
        λ m e. (let clash : none ≡ some m = sym bare ∙ e in cc),
        λ e. bare_beyond s.next s.locks,
        λ m. new_handle m n s.locks,
        λ m. refl,
        λ q. refl,
      )
  | inr (n, found) ↦ (
    (n, beyond s.locks),
    s,
    rw found refl,
    found,
    λ m e. (let same : some n ≡ some m = sym found ∙ e in cc),
    λ e. (let clash : none ≡ some n = sym e ∙ found in cc),
    λ m. new_handle m n s.locks,
    λ m. refl,
    λ q. refl,
  )
]

remove_file_lem :
    (p : FilePath) (n : ℕ) (s : Files)
    → s.paths p ≡ some n
    → (s' : Files) × (removed p s (s.paths p) ≡ (IoResult.done tt, s'))
      × (s'.paths p ≡ none)
      × ((q : FilePath) → p ≢ q → s'.paths q ≡ s.paths q)
      × ((m : ℕ) → lookup m s'.locks ≡ lookup m s.locks)
      × ((q : FilePath) → s'.folders q ≡ s.folders q)
remove_file_lem p n s found = (
  record s { paths = put_path p none s.paths },
  rw found refl,
  rw (same_path p) refl,
  λ q other. rw (other_path p q other) refl,
  λ m. refl,
  λ q. refl,
)

number-other : (n m : ℕ) → n ≢ m → (n == m) ≡ false
number-other n m other = elim (Bool-cases (n == m)) [
  | inl same ↦ (let e : n ≡ m = ground arith in absurd (other e))
  | inr apart ↦ apart
]

number-same : (n : ℕ) → (n == n) ≡ true
number-same n = ground arith

lookup-first : (f : Handle) (locks : List Handle) → lookup f.0 (f ∷ locks) ≡ some f
unfolding lookup
lookup-first f locks = rw (number-same f.0) refl

lookup-later :
    (f : Handle) (locks : List Handle) (n : ℕ) → f.0 ≢ n → lookup n (f ∷ locks) ≡ lookup n locks
unfolding lookup
lookup-later f locks n other = rw (number-other f.0 n other) refl

abbrev lock_files-IsLockFiles : IsLockFiles lock_files
lock_files-IsLockFiles = record {
  Node = ℕ;
  node = λ f. f.0;
  at = λ s q. s.paths q;
  holder = λ s n. lookup n s.locks;
  folder = λ s q. s.folders q;
  create_dir_all_lem = λ dir s. (_, refl, rw (same_path dir) refl, λ q. refl, λ n. refl);
  open_file_lem = open_file_lem;
  try_lock_exclusive_free = λ f s bare. (
    record s { locks = f ∷ s.locks },
    rw bare refl,
    lookup-first f s.locks,
    lookup-later f s.locks,
    λ q. refl,
    λ q. refl,
  );
  try_lock_exclusive_held = λ f g s held other. rw held refl;
  unlock_lem = λ f s held. (
    record s { locks = without f.0 s.locks },
    refl,
    lookup-without f.0 f.0 s.locks ∙ rw (number-same f.0) refl,
    λ n other. lookup-without f.0 n s.locks ∙ rw (number-other f.0 n other) refl,
    λ q. refl,
    λ q. refl,
  );
  close_lem = λ f s bare. (λ n. refl, λ q. refl, λ q. refl);
  remove_file_lem = remove_file_lem;
  holder-node = λ s n f held. lookup-node n s.locks f held;
}

abbrev locker : FileLocker
locker = record { lock_dir = codes "locks" ∷ []; timeout = 20 }

-- One task has the lock of the only lock file.
abbrev taken : Files
taken = record {
  next = 1;
  paths = put_path (lock_path locker (codes "up-1")) (some 0) (λ q. none);
  locks = (0, 0) ∷ [];
  folders = λ q. true;
}

taken-Held : Held lock_files lock_files-IsLockFiles locker (codes "up-1") taken 0 (0, 0)
taken-Held = record {
  opened = refl;
  there = rw (same_path (lock_path locker (codes "up-1"))) refl;
  held = lookup-first (0, 0) [];
}

abbrev kept : Files
kept =
    (wait_for lock_files 20 (codes "up-1") (lock_path locker (codes "up-1")) (10 ∷ 20 ∷ []) taken).1

wait_for-Held_example :
    ((wait_for lock_files 20
        (codes "up-1")
        (lock_path locker (codes "up-1"))
        (10 ∷ 20 ∷ [])
        taken).0
      ≡ some (err (TusError.lock_timeout (codes "up-1"))))
    × Held lock_files lock_files-IsLockFiles locker (codes "up-1") kept 0 (0, 0)
    × ((m : ℕ) → lookup m kept.locks ≡ lookup m taken.locks)
wait_for-Held_example =
    wait_for-Held lock_files lock_files-IsLockFiles locker (codes "up-1") 20 (10 ∷ 20 ∷ []) taken 0
      (0, 0) taken-Held

abbrev mine : FileLock lock_files
mine = guard lock_files lock_files-IsLockFiles locker (codes "up-1") (0, 0)

release-attempt_example :
    (s1 : Files) × (release lock_files mine taken ≡ (ok tt, s1))
    × (s1.paths (lock_path locker (codes "up-1")) ≡ none)
    × (g : Handle) × (s' : Files) × (attempt lock_files (lock_path locker (codes "up-1")) s1
        ≡ (ok (some (guard lock_files lock_files-IsLockFiles locker (codes "up-1") g)), s'))
    × Held lock_files lock_files-IsLockFiles locker (codes "up-1") s' g.0 g
release-attempt_example =
    release-attempt lock_files lock_files-IsLockFiles locker (codes "up-1") taken (0, 0) taken-Held

overtaken-both_example :
    (g h : Handle) × (s' : Files) × (overtaken lock_files lock_files-IsLockFiles locker
        (codes "up-1")
        mine
        taken
      ≡ (
        ok (
          some (guard lock_files lock_files-IsLockFiles locker (codes "up-1") g),
          some (guard lock_files lock_files-IsLockFiles locker (codes "up-1") h),
        ),
        s',
      ))
    × (lookup g.0 s'.locks ≡ some g)
    × (lookup h.0 s'.locks ≡ some h)
    × (g.0 ≢ h.0)
overtaken-both_example =
    overtaken-both lock_files lock_files-IsLockFiles locker (codes "up-1") taken (0, 0) taken-Held
