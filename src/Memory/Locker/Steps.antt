-- ===== src/Memory/Locker/Steps.antt =====
-- The memory locker under any number of tasks: each step is one attempt, one release or one drop of
-- a guard, in any order.
pub mod Leak
use fileloft.Base.{
  ℕ, ◌+◌, ◌≤◌, ◌≡◌, refl, ◌∙◌, Bool, true, false, not, ◌&&◌, ◌||◌, Option, none, some, List, [],
  ◌∷◌, ◌++◌, subst, text_eq_iff, arith, Bool-cases, inl, inr, if◌then◌else◌, Text, text_eq,
  text_eq_refl, ◌≢◌,
}
use fileloft.Info.Id.{UploadId}
use fileloft.Memory.Locker.{HeldSet, holds, MemoryLock, try_acquire, release, drop}
use fileloft.Memory.Locker.Laws.{holds-remove, try_acquire_free, try_acquire_held}

-- The set, and the guards that tasks own.
pub record Tasks : Type 0 where
  pub held : HeldSet
  pub guards : List MemoryLock

pub data Step : Tasks → Tasks → Type 0 where
  acquired :
      (id : UploadId) (held held' : HeldSet) (guards : List MemoryLock) (lock : MemoryLock)
      → try_acquire id held ≡ (some lock, held')
      → Step
          (record { held = held; guards = guards })
          (record { held = held'; guards = lock ∷ guards })
  released :
      (held : HeldSet) (before after : List MemoryLock) (lock : MemoryLock)
      → Step
          (record { held = held; guards = before ++ lock ∷ after })
          (record { held = (release lock held).1; guards = before ++ after })
  dropped :
      (free : Bool) (held : HeldSet) (before after : List MemoryLock) (lock : MemoryLock)
      → Step
          (record { held = held; guards = before ++ lock ∷ after })
          (record { held = drop free lock held; guards = before ++ after })

pub data Steps : Tasks → Tasks → Type 0 where
  stay : (t : Tasks) → Steps t t
  next : (t u v : Tasks) → Steps t u → Step u v → Steps t v

abbrev pub start : Tasks
start = record { held = []; guards = [] }

abbrev pub bit : Bool → ℕ
bit true = 1
bit false = 0

-- How many guards there are on an upload.
unfoldable pub owners : Text → List MemoryLock → ℕ
owners id [] = 0
owners id (lock ∷ guards) = bit (text_eq lock.id id) + owners id guards

-- An upload has at most one guard, and one only if it is in the set.
pub record IsExclusive (t : Tasks) : Type 0 where
  pub alone : (id : Text) → owners id t.guards ≤ bit (holds t.held id)

owners-without :
    (id : Text) (before after : List MemoryLock) (lock : MemoryLock)
    → owners id (before ++ lock ∷ after) ≡ bit (text_eq lock.id id) + owners id (before ++ after)
unfolding owners
owners-without id [] after lock = refl
owners-without id (first ∷ before) after lock = ground (arith, owners-without id before after lock)

module _ (id : UploadId) (held held' : HeldSet) (lock : MemoryLock)
    (got : try_acquire id held ≡ (some lock, held')) where
  pub acquired_free : holds held id ≡ false
  acquired_free = elim (Bool-cases (holds held id)) [
    | inl taken ↦ absurd (ground (arith, got, try_acquire_held id held taken))
    | inr free ↦ free
  ]

  pub acquired_lock : lock ≡ record { id = id; released = false }
  acquired_lock = let e = try_acquire_free id held acquired_free in cc

  pub acquired_held : held' ≡ id ∷ held
  acquired_held = let e = try_acquire_free id held acquired_free in cc

acquired-alone :
    (id j : Text) (held : HeldSet) (guards : List MemoryLock) (lock : MemoryLock)
    → lock ≡ record { id = id; released = false }
    → holds held id ≡ false
    → owners j guards ≤ bit (holds held j)
    → owners j (lock ∷ guards) ≤ bit (holds (id ∷ held) j)
unfolding owners holds
acquired-alone id j held guards lock e free le = rw e (elim (Bool-cases (text_eq id j)) [
  | inl same ↦
      let clear : holds held j ≡ false =
        subst (λ k. holds held k ≡ false) ((text_eq_iff id j).0 same) free in
      ground (arith, same, clear, le)
  | inr other ↦ ground (arith, other, le)
])

removed_bit :
    (target taken : Bool) (n : ℕ) → bit target + n ≤ bit taken → n ≤ bit (not target && taken)
removed_bit true true n le = omega arith
removed_bit true false n le = omega arith
removed_bit false taken n le = omega (arith, le)

module _ (held : HeldSet) (before after : List MemoryLock) (lock : MemoryLock)
    (h : IsExclusive (record { held = held; guards = before ++ lock ∷ after })) where
  split-alone :
      (j : Text) → bit (text_eq lock.id j) + owners j (before ++ after) ≤ bit (holds held j)
  split-alone j = rw (← owners-without j before after lock) (h.alone j)

  pub released-IsExclusive :
      IsExclusive (record { held = (release lock held).1; guards = before ++ after })
  unfolding release
  released-IsExclusive = record {
    alone = λ j.
        rw (holds-remove lock.id held j)
          (removed_bit (text_eq lock.id j) (holds held j) _ (split-alone j));
  }

  kept-IsExclusive : IsExclusive (record { held = held; guards = before ++ after })
  kept-IsExclusive = record { alone = λ j. let le = split-alone j in omega arith }

  pub dropped-IsExclusive :
      (free : Bool) → IsExclusive (record { held = drop free lock held; guards = before ++ after })
  unfolding drop
  dropped-IsExclusive free = elim (Bool-cases lock.released) [
    | inl gone ↦ rw gone kept-IsExclusive
    | inr live ↦ rw live (elim (Bool-cases free) [
      | inl unlocked ↦ rw unlocked (unfold release in released-IsExclusive)
      | inr busy ↦ rw busy kept-IsExclusive
    ])
  ]

Step-IsExclusive : (t u : Tasks) → Step t u → IsExclusive t → IsExclusive u
Step-IsExclusive _ _ (acquired id held held' guards lock got) h = record {
  alone = λ j. rw (acquired_held id held held' lock got) (
      acquired-alone id j held guards lock (acquired_lock id held held' lock got)
        (acquired_free id held held' lock got) (h.alone j));
}
Step-IsExclusive _ _ (released held before after lock) h =
    released-IsExclusive held before after lock h
Step-IsExclusive _ _ (dropped free held before after lock) h =
    dropped-IsExclusive held before after lock h free

Steps-IsExclusive : (t u : Tasks) → Steps t u → IsExclusive t → IsExclusive u
Steps-IsExclusive _ _ (stay t) h = h
Steps-IsExclusive _ _ (next t u v first last) h =
    Step-IsExclusive u v last (Steps-IsExclusive t u first h)

start-IsExclusive : IsExclusive start
unfolding owners
start-IsExclusive = record { alone = λ j. omega arith }

bit_le : (b : Bool) → bit b ≤ 1
bit_le true = omega arith
bit_le false = omega arith

-- Whatever tasks do, in any order, starting from an empty set: no upload ever has two guards.
pub mutual_exclusion : (t : Tasks) → Steps start t → (id : Text) → owners id t.guards ≤ 1
mutual_exclusion t steps id =
    let h = Steps-IsExclusive start t steps start-IsExclusive in
    omega (arith, h.alone id, bit_le (holds t.held id))
