-- ===== src/Memory/Locker.antt =====
-- crates/fileloft-store-memory/src/locker.rs: a set of held identifiers behind a mutex, and the
-- guards that are handed out.
pub mod Laws
pub mod Steps
use fileloft.Base.{
  ℕ, Bool, true, false, ◌||◌, Option, none, some, List, [], ◌∷◌, if◌then◌else◌, leb, Text, text_eq,
}
use fileloft.Error.{TusError, Result, ok, err}
use fileloft.Info.Id.{UploadId}
use fileloft.Lock.{Locker}

-- `HashSet<String>`
abbrev pub HeldSet : Type 0
HeldSet = List Text

unfoldable pub holds : HeldSet → Text → Bool
holds [] id = false
holds (k ∷ held) id = text_eq k id || holds held id

-- `HashSet::insert`, which tells whether the element is new.
unfoldable pub insert : Text → HeldSet → Bool × HeldSet
insert id held = if holds held id then (false, held) else (true, id ∷ held)

-- `HashSet::remove`
unfoldable pub remove : Text → HeldSet → HeldSet
remove id [] = []
remove id (k ∷ held) = let rest = remove id held in if text_eq k id then rest else k ∷ rest

pub record MemoryLock : Type 0 where
  pub id : Text
  pub released : Bool

-- One attempt of `acquire`, under the mutex.
abbrev pub attempt : UploadId → Bool × HeldSet → Option MemoryLock × HeldSet
attempt id (true, held) = (some (record { id = id; released = false }), held)
attempt id (false, held) = (none, held)

abbrev pub try_acquire : UploadId → HeldSet → Option MemoryLock × HeldSet
try_acquire id held = attempt id (insert id held)

-- The end of one round: `otherwise` follows a failed attempt.
abbrev settle :
    Option MemoryLock × HeldSet
    → Option (Result MemoryLock) × HeldSet
    → Option (Result MemoryLock) × HeldSet
settle (some lock, held) otherwise = (some (ok lock), held)
settle (none, held) otherwise = otherwise

-- The loop of `MemoryLocker::acquire` over the readings of the clock after each failed attempt,
-- while no other task changes the set. The caller gives up where there is no further reading.
unfoldable pub acquire :
    (deadline : ℕ) → UploadId → List ℕ → HeldSet → Option (Result MemoryLock) × HeldSet
acquire deadline id [] held = settle (try_acquire id held) (none, held)
acquire deadline id (now ∷ later) held =
    let rest = acquire deadline id later held in
    settle (try_acquire id held)
      (if leb deadline now then (some (err (TusError.lock_timeout id)), held) else rest)

-- `MemoryLock::release`
unfoldable pub release : MemoryLock → HeldSet → MemoryLock × HeldSet
release lock held = (record lock { released = true }, remove lock.id held)

-- `Drop::drop`: `free` tells whether `try_lock` gets the mutex.
unfoldable pub drop : (free : Bool) → MemoryLock → HeldSet → HeldSet
drop free lock held = if lock.released then held else if free then remove lock.id held else held

-- `release(self)`: the guard that was released is dropped at the end.
abbrev pub release_guard : (free : Bool) → MemoryLock × HeldSet → Result (Unit {0}) × HeldSet
release_guard free (lock, held) = (ok tt, drop free lock held)

-- The locker as the handlers use it: `clock` has the readings that the loop sees before the
-- caller's timeout, counted from the call on, and `free` tells whether a guard that is dropped finds
-- the mutex free.
abbrev pub memory_locker :
    (timeout : ℕ) → (clock : ℕ → List ℕ) → (free : MemoryLock → HeldSet → Bool) → Locker
memory_locker timeout clock free = record {
  State = HeldSet;
  Lock = MemoryLock;
  acquire_within = λ patience id held. acquire timeout id (clock patience) held;
  release = λ lock held.
      let (lock', held') = release lock held in release_guard (free lock' held') (lock', held');
  drop_lock = λ lock held. drop (free lock held) lock held;
}
