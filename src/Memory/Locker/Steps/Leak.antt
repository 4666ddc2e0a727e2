-- ===== src/Memory/Locker/Steps/Leak.antt =====
-- What becomes of an upload when its guard ends: `MemoryLock::release` frees it, and a drop that
-- does not get the mutex leaves it held.
use fileloft.Base.{
  ◌+◌, ◌≤◌, ◌≡◌, true, false, none, some, List, ◌∷◌, ◌++◌, arith, Bool-cases, inl, inr, Text,
  text_eq, text_eq_refl, text_eq_iff, subst,
}
use fileloft.Memory.Locker.{HeldSet, holds, MemoryLock, try_acquire, release, drop}
use fileloft.Memory.Locker.Laws.{holds-remove, try_acquire_free, try_acquire_held}
use fileloft.Memory.Locker.Steps.{
  Tasks, Step, Steps, acquired, released, dropped, stay, next, start, bit, owners, owners-without,
  acquired_free, acquired_lock, acquired_held, Steps-IsExclusive, start-IsExclusive,
}

-- An upload that is held though no task has a guard on it.
record IsStuck (id : Text) (t : Tasks) : Type 0 where
  held : holds t.held id ≡ true
  ownerless : owners id t.guards ≡ 0

apart :
    (id : Text) (before after : List MemoryLock) (lock : MemoryLock)
    → owners id (before ++ lock ∷ after) ≡ 0
    → (text_eq lock.id id ≡ false) × (owners id (before ++ after) ≡ 0)
apart id before after lock none_left =
    let e = owners-without id before after lock in
    elim (Bool-cases (text_eq lock.id id)) [
      | inl same ↦ let e1 = rw same at e in absurd (omega arith)
      | inr other ↦ (other, ground arith)
    ]

Step-IsStuck : (id : Text) (t u : Tasks) → Step t u → IsStuck id t → IsStuck id u
unfolding holds owners release drop
Step-IsStuck id _ _ (acquired id1 held held1 guards lock got) h =
    let free = acquired_free id1 held held1 lock got in
    let other : text_eq id1 id ≡ false = elim (Bool-cases (text_eq id1 id)) [
      | inl same ↦
          let clear = subst (λ k. holds held k ≡ false) ((text_eq_iff id1 id).0 same) free in
          absurd (ground (arith, clear, h.held))
      | inr other ↦ other
    ] in
    record {
      held = rw (acquired_held id1 held held1 lock got) (ground (arith, other, h.held));
      ownerless = rw (acquired_lock id1 held held1 lock got) (ground (arith, other, h.ownerless));
    }
Step-IsStuck id _ _ (released held before after lock) h =
    let (other, none_left) = apart id before after lock h.ownerless in
    record {
      held = ground (arith, holds-remove lock.id held id, other, h.held);
      ownerless = none_left;
    }
Step-IsStuck id _ _ (dropped free held before after lock) h =
    let (other, none_left) = apart id before after lock h.ownerless in
    record {
      held = ground (arith, holds-remove lock.id held id, other, h.held);
      ownerless = none_left;
    }

Steps-IsStuck : (id : Text) (t u : Tasks) → Steps t u → IsStuck id t → IsStuck id u
Steps-IsStuck id _ _ (stay t) h = h
Steps-IsStuck id _ _ (next t u v first last) h =
    Step-IsStuck id u v last (Steps-IsStuck id t u first h)

module _ (held : HeldSet) (before after : List MemoryLock) (lock : MemoryLock)
    (reached : Steps start (record { held = held; guards = before ++ lock ∷ after })) where
  counted :
      (bit (text_eq lock.id lock.id) + owners lock.id (before ++ after) ≤ bit (holds held lock.id))
  counted =
      rw (← owners-without lock.id before after lock)
        ((Steps-IsExclusive start _ reached start-IsExclusive).alone lock.id)

  owned : holds held lock.id ≡ true
  owned = ground (arith, counted, text_eq_refl lock.id)

  unowned : owners lock.id (before ++ after) ≡ 0
  unowned = ground (arith, counted, text_eq_refl lock.id)

  -- In a state that tasks can reach, when a guard is released, the next attempt on its upload
  -- succeeds.
  pub release-try_acquire :
      try_acquire lock.id (release lock held).1
      ≡ (some (record { id = lock.id; released = false }), lock.id ∷ (release lock held).1)
  unfolding release
  release-try_acquire =
      try_acquire_free lock.id _
        (ground (arith, holds-remove lock.id held lock.id, text_eq_refl lock.id))

  -- In a state that tasks can reach, when a guard is dropped while another task has the mutex, every
  -- attempt on its upload fails from then on, whatever steps the tasks take.
  pub drop_busy-try_acquire :
      (u : Tasks)
      → Steps (record { held = drop false lock held; guards = before ++ after }) u
      → try_acquire lock.id u.held ≡ (none, u.held)
  unfolding drop
  drop_busy-try_acquire u later =
      let stuck : IsStuck lock.id
          (record { held = drop false lock held; guards = before ++ after }) =
        record { held = ground (arith, owned); ownerless = unowned } in
      try_acquire_held lock.id u.held (Steps-IsStuck lock.id _ u later stuck).held
