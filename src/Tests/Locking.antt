-- ===== src/Tests/Locking.antt =====
-- The memory locker.
use fileloft.Base.{
  Bool, not, ◌&&◌, text_eq, if◌then◌else◌, ℕ, ◌≤◌, ◌≡◌, refl, true, false, none, some, List, [],
  ◌∷◌, Text, codes,
}
use fileloft.Config.{default_config}
use fileloft.Lock.Contract.{IsLocker}
use fileloft.Memory.Store.{memory_store}
use fileloft.Memory.Locker.{
  HeldSet, holds, insert, MemoryLock, try_acquire, release, drop, memory_locker,
}
use fileloft.Memory.Locker.Laws.{contract, frees, memory_locker-IsLocker}
use fileloft.Memory.Locker.Steps.{
  Tasks, Steps, start, owners, stay, next, acquired, mutual_exclusion,
}
use fileloft.Memory.Locker.Steps.Leak.{release-try_acquire, drop_busy-try_acquire}
use fileloft.Handler.Base.{TusHandler, new, World}
use fileloft.Handler.Dispatch.{handle}
use fileloft.Handler.Locks.Requests.{handle_releases}
use fileloft.Tests.Samples.{crates, ambient, half}
use fileloft.Tests.Patching.{chunk}

abbrev clock : ℕ → List ℕ
clock patience = 10 ∷ 20 ∷ []

abbrev always_free : MemoryLock → HeldSet → Bool
always_free lock held = true

-- The mutex is taken whenever a guard of `up-1` is dropped.
abbrev contended : MemoryLock → HeldSet → Bool
contended lock held = not (text_eq lock.id (codes "up-1"))

memory_locker-IsLocker_example :
    (c : IsLocker (memory_locker 20 clock contended)) × ((s : HeldSet) (id : Text)
      → c.held s id ≡ holds s id)
    × ((lock : MemoryLock) (s : HeldSet) (id : Text)
        → lock.released ≡ false
        → holds ((memory_locker 20 clock contended).drop_lock lock s) id
          ≡ (if contended lock s then not (text_eq lock.id id) && holds s id else holds s id))
memory_locker-IsLocker_example = memory_locker-IsLocker 20 clock contended

abbrev locking : TusHandler
locking = new memory_store (memory_locker 20 clock always_free) true default_config

abbrev laws : IsLocker (memory_locker 20 clock always_free)
laws = contract 20 clock always_free

-- Another upload is held while the request works.
abbrev busy : World locking
busy = record {
  store = (codes "up-1", record { info = half; content = codes "hello" }) ∷ [];
  locks = codes "up-2" ∷ [];
  events = [];
}

handle_releases_example :
    laws.held (handle crates locking ambient chunk busy).1.locks (codes "up-1")
    ≡ laws.held busy.locks (codes "up-1")
handle_releases_example =
    handle_releases crates locking laws (frees 20 clock always_free (λ lock held. refl)) ambient
      chunk busy (codes "up-1")

abbrev lock : MemoryLock
lock = record { id = codes "up-1"; released = false }

abbrev taken : Tasks
taken = record { held = codes "up-1" ∷ []; guards = lock ∷ [] }

taken_reached : Steps start taken
unfolding insert holds
taken_reached =
    next start start taken (stay start)
      (acquired (codes "up-1") [] (codes "up-1" ∷ []) [] lock refl)

mutual_exclusion_example : owners (codes "up-1") taken.guards ≤ 1
mutual_exclusion_example = mutual_exclusion taken taken_reached (codes "up-1")

release-try_acquire_example :
    try_acquire (codes "up-1") (release lock taken.held).1
    ≡ (some lock, codes "up-1" ∷ (release lock taken.held).1)
release-try_acquire_example = release-try_acquire taken.held [] [] lock taken_reached

abbrev left_over : Tasks
left_over = record { held = drop false lock taken.held; guards = [] }

drop_busy-try_acquire_example : try_acquire (codes "up-1") left_over.held ≡ (none, left_over.held)
drop_busy-try_acquire_example =
    drop_busy-try_acquire taken.held [] [] lock taken_reached left_over (stay left_over)
