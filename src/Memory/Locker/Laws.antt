-- ===== src/Memory/Locker/Laws.antt =====
-- The memory locker keeps the contract of a locker.
use fileloft.Base.{
  ℕ, ◌≡◌, refl, ◌∙◌, true, false, Bool, ap, sym, if◌then◌else◌, not, ◌&&◌, ◌||◌, Option, none, some,
  List, [], ◌∷◌, arith, ◌⊎◌, ◌≢◌, subst, Bool-cases, inl, inr, leb, Text, text_eq, text_eq_iff,
}
use fileloft.Error.{TusError, Result, ok, err}
use fileloft.Info.Id.{UploadId}
use fileloft.Lock.{Locker}
use fileloft.Lock.Contract.{IsLocker, FreesOnDrop}
use fileloft.Memory.Locker.{
  HeldSet, holds, insert, remove, MemoryLock, try_acquire, acquire, release, drop, memory_locker,
}

pub holds-remove :
    (k : Text) (held : HeldSet) (id : Text)
    → holds (remove k held) id ≡ (not (text_eq k id) && holds held id)
unfolding holds remove
holds-remove k [] id = ground arith
holds-remove k (j ∷ held) id = elim (Bool-cases (text_eq j k)) [
  | inl same ↦ rw same (
      holds-remove k held id
      ∙ ground (arith, subst (λ t. text_eq j id ≡ text_eq t id) ((text_eq_iff j k).0 same) refl))
  | inr other ↦ elim (Bool-cases (text_eq k id)) [
    | inl target ↦
        rw (other, target)
          (ground (
            arith,
            subst (λ t. text_eq j t ≡ false) ((text_eq_iff k id).0 target) other,
            holds-remove k held id,
          ))
    | inr apart ↦ rw (other, apart) (ground (arith, holds-remove k held id))
  ]
]

-- What an attempt does, by whether the upload is held.
pub try_acquire_free :
    (id : UploadId) (held : HeldSet)
    → holds held id ≡ false
    → try_acquire id held ≡ (some (record { id = id; released = false }), id ∷ held)
unfolding insert
try_acquire_free id held free = rw free refl

pub try_acquire_held :
    (id : UploadId) (held : HeldSet) → holds held id ≡ true → try_acquire id held ≡ (none, held)
unfolding insert
try_acquire_held id held taken = rw taken refl

-- The loop gets a free upload at once, and never one that is held.
acquire_free :
    (deadline : ℕ) (id : UploadId) (clock : List ℕ) (held : HeldSet)
    → holds held id ≡ false
    → acquire deadline id clock held ≡ (some (ok (record { id = id; released = false })), id ∷ held)
unfolding acquire
acquire_free deadline id [] held free = rw (try_acquire_free id held free) refl
acquire_free deadline id (now ∷ later) held free = rw (try_acquire_free id held free) refl

acquire_held :
    (deadline : ℕ) (id : UploadId) (clock : List ℕ) (held : HeldSet)
    → holds held id ≡ true
    → (acquire deadline id clock held ≡ (none, held))
      ⊎ (acquire deadline id clock held ≡ (some (err (TusError.lock_timeout id)), held))
unfolding acquire
acquire_held deadline id [] held taken = rw (try_acquire_held id held taken) (inl refl)
acquire_held deadline id (now ∷ later) held taken =
    rw (try_acquire_held id held taken) (elim (Bool-cases (leb deadline now)) [
      | inl over ↦ rw over (inr refl)
      | inr early ↦ rw early (acquire_held deadline id later held taken)
    ])

module _ (timeout : ℕ) (clock : ℕ → List ℕ) (free : MemoryLock → HeldSet → Bool) where
  abbrev l : Locker
  l = memory_locker timeout clock free

  granted :
      (patience : ℕ) (id : UploadId) (s s' : HeldSet) (lock : MemoryLock)
      → l.acquire_within patience id s ≡ (some (ok lock), s')
      → (holds s id ≡ false)
        × (lock.id ≡ id)
        × (not lock.released ≡ true)
        × ((j : UploadId) → holds s' j ≡ (text_eq id j || holds s j))
  unfolding holds
  granted patience id s s' lock e = elim (Bool-cases (holds s id)) [
    | inl taken ↦ elim (acquire_held timeout id (clock patience) s taken) [
      | inl gave_up ↦ cc
      | inr refused ↦ cc
    ]
    | inr free ↦
        let got = acquire_free timeout id (clock patience) s free in
        let same : s' ≡ id ∷ s = cc in (free, cc, cc, λ j. rw same refl)
  ]

  kept :
      (patience : ℕ) (id : UploadId) (s s' : HeldSet) (got : Option (Result MemoryLock))
      → ((lock : MemoryLock) → got ≢ some (ok lock))
      → l.acquire_within patience id s ≡ (got, s')
      → (j : UploadId) → holds s' j ≡ holds s j
  kept patience id s s' got failed e j = elim (Bool-cases (holds s id)) [
    | inl taken ↦ elim (acquire_held timeout id (clock patience) s taken) [
      | inl gave_up ↦ let same : s' ≡ s = cc in rw same refl
      | inr refused ↦ let same : s' ≡ s = cc in rw same refl
    ]
    | inr free ↦ absurd (
        failed (record { id = id; released = false })
          (ground (arith, e, acquire_free timeout id (clock patience) s free)))
  ]

  pub contract : IsLocker (memory_locker timeout clock free)
  unfolding drop release
  contract = record {
    held = holds;
    owner = λ lock. lock.id;
    is_live = λ lock. not lock.released;
    granted = granted;
    refused = λ patience id s s' why e. kept patience id s s' _ (λ lock same. cc) e;
    timed_out = λ patience id s s' e. kept patience id s s' _ (λ lock same. cc) e;
    released = λ lock s s' j live e.
        (let same : remove lock.id s ≡ s' = cc in
          ap (λ held. holds held j) (sym same) ∙ holds-remove lock.id s j);
  }

  held-contract : (s : HeldSet) (id : UploadId) → contract.held s id ≡ holds s id
  unfolding contract
  held-contract s id = refl

  -- Guards that always find the mutex free.
  pub frees :
      ((lock : MemoryLock) (s : HeldSet) → free lock s ≡ true)
      → FreesOnDrop (memory_locker timeout clock free) contract
  unfolding drop contract
  frees always = record {
    dropped = λ lock s j live.
        (let off : lock.released ≡ false = ground (arith, live) in
          rw (always lock s) (rw off (holds-remove lock.id s j)));
  }

  -- The memory locker keeps the contract of a locker, whatever its timeout, the clock and the state
  -- of its mutex: a lock is granted only on an upload that is not held, which is then held; a
  -- refusal or a timeout changes nothing; and a guard that is released frees its own upload and no
  -- other. A guard that is dropped unreleased does the same if it finds the mutex free, and nothing
  -- if it does not. In all this an upload is held if its identifier is in the set.
  pub memory_locker-IsLocker :
      (c : IsLocker (memory_locker timeout clock free)) × ((s : HeldSet) (id : UploadId)
        → c.held s id ≡ holds s id)
      × ((lock : MemoryLock) (s : HeldSet) (id : UploadId)
          → lock.released ≡ false
          → holds (l.drop_lock lock s) id
            ≡ (if free lock s then not (text_eq lock.id id) && holds s id else holds s id))
  unfolding drop
  memory_locker-IsLocker = (
    contract,
    held-contract,
    λ lock s id live. elim (Bool-cases (free lock s)) [
      | inl unlocked ↦ rw (unlocked, live) (holds-remove lock.id s id)
      | inr busy ↦ rw (busy, live) refl
    ],
  )
