-- ===== src/Lock/Contract.antt =====
-- What a locker promises: which uploads are held, and how acquiring and releasing change that.
use fileloft.Base.{ℕ, ◌≡◌, Bool, true, false, ◌||◌, ◌&&◌, not, none, some, text_eq}
use fileloft.Error.{TusError, ok, err}
use fileloft.Info.Id.{UploadId}
use fileloft.Lock.{Locker}

pub record IsLocker (l : Locker) : Type 0 where
  pub held : l.State → UploadId → Bool
  pub owner : l.Lock → UploadId
  -- A guard that has not been released yet.
  pub is_live : l.Lock → Bool
  -- A lock is granted to nobody else while it is held.
  pub granted :
      (timeout : ℕ) (id : UploadId) (s s' : l.State) (lock : l.Lock)
      → l.acquire_within timeout id s ≡ (some (ok lock), s')
      → (held s id ≡ false)
        × (owner lock ≡ id)
        × (is_live lock ≡ true)
        × ((j : UploadId) → held s' j ≡ (text_eq id j || held s j))
  pub refused :
      (timeout : ℕ) (id : UploadId) (s s' : l.State) (e : TusError)
      → l.acquire_within timeout id s ≡ (some (err e), s')
      → (j : UploadId) → held s' j ≡ held s j
  pub timed_out :
      (timeout : ℕ) (id : UploadId) (s s' : l.State)
      → l.acquire_within timeout id s ≡ (none, s')
      → (j : UploadId) → held s' j ≡ held s j
  -- A release that succeeds frees the upload of its guard, and no other.
  pub released :
      (lock : l.Lock) (s s' : l.State) (j : UploadId)
      → is_live lock ≡ true
      → l.release lock s ≡ (ok tt, s')
      → held s' j ≡ (not (text_eq (owner lock) j) && held s j)

-- What the trait does not ask for: a guard that is dropped frees its upload as well.
pub record FreesOnDrop (l : Locker) (c : IsLocker l) : Type 0 where
  pub dropped :
      (lock : l.Lock) (s : l.State) (j : UploadId)
      → c.is_live lock ≡ true
      → c.held (l.drop_lock lock s) j ≡ (not (text_eq (c.owner lock) j) && c.held s j)
