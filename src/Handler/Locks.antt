-- ===== src/Handler/Locks.antt =====
-- The locks that a request leaves behind: the rules for the helpers of `Handler/Base`, and for each
-- handler.
pub mod Requests
use fileloft.Base.{
  ◌≡◌, refl, ◌∙◌, ap, Bool, true, false, Option, none, some, arith, Bool-cases, inl, inr, text_eq,
  text_eq_iff, ◌||◌, ◌&&◌, not, List, [], ◌∷◌, sym, subst,
}
use fileloft.Error.{TusError, Result, ok, err}
use fileloft.Exec.{Exec, pure, lift}
use fileloft.Exec.Keeps.{IsPreorder, Keeps, Keeps-lift, Keeps-pure, Keeps-if, Keeps-bind}
use fileloft.Info.Id.{UploadId}
use fileloft.Hooks.{HookEvent}
use fileloft.Lock.Contract.{IsLocker, FreesOnDrop}
use fileloft.Handler.Base.{TusHandler, World, Action, in_store, emit, guarded, with_lock}

module _ (h : TusHandler) (l : IsLocker h.locker) (f : FreesOnDrop h.locker l) where
  -- The same uploads are held.
  abbrev pub SameLocks : World h → World h → Type 0
  SameLocks w w' = (j : UploadId) → l.held w'.locks j ≡ l.held w.locks j

  pub SameLocks-IsPreorder : IsPreorder SameLocks
  SameLocks-IsPreorder = record { here = λ w j. refl; chain = λ u v w a b j. b j ∙ a j }

  pub Keeps-in_store : {A : Type 0} (m : Exec h.store.State A) → Keeps SameLocks (in_store h m)
  Keeps-in_store m = record { at = λ w j. refl }

  pub Keeps-emit : (event : HookEvent) → Keeps SameLocks (emit h event)
  Keeps-emit event = record { at = λ w j. refl }

  given_back :
      (id : UploadId) (before after : Bool) (j : UploadId)
      → (text_eq id j ≡ true → before ≡ false)
      → after ≡ (text_eq id j || before)
      → (not (text_eq id j) && after) ≡ before
  given_back id before after j free taken = elim (Bool-cases (text_eq id j)) [
    | inl same ↦ ground (arith, free same)
    | inr other ↦ ground arith
  ]

  Keeps-guarded :
      {A : Type 0} (id : UploadId) (body : Action h A)
      → Keeps SameLocks body
      → (w : World h) (got : Option (Result h.locker.Lock)) (s' : h.locker.State)
      → h.locker.acquire_within h.config.lock_timeout id w.locks ≡ (got, s')
      → SameLocks w (guarded h id got body (record w { locks = s' })).1
  Keeps-guarded id body kb w none s' e j = l.timed_out _ id w.locks s' e j
  Keeps-guarded id body kb w (some (err why)) s' e j = l.refused _ id w.locks s' why e j
  Keeps-guarded id body kb w (some (ok lock)) s' e j =
      let (free, mine, live, taken) = l.granted _ id w.locks s' lock e in
      let w' = (body (record w { locks = s' })).1 in
      f.dropped lock w'.locks j live
      ∙ rw mine (
          given_back id (l.held w.locks j) (l.held w'.locks j) j
            (λ same. subst (λ k. l.held w.locks k ≡ false) ((text_eq_iff id j).0 same) free)
            (kb.at (record w { locks = s' }) j ∙ taken j))

  pub Keeps-with_lock :
      {A : Type 0} (id : UploadId) (body : Action h A)
      → Keeps SameLocks body
      → Keeps SameLocks (with_lock h id body)
  unfolding with_lock
  Keeps-with_lock id body kb = record {
    at = λ w. elim (Bool-cases h.has_locker) [
      | inl locking ↦
          let (got, s') = h.locker.acquire_within h.config.lock_timeout id w.locks in
          rw locking (Keeps-guarded id body kb w got s' refl)
      | inr free ↦ rw free (kb.at w)
    ];
  }

pub ruleset lock_rules = (
  Keeps-lift, Keeps-pure, Keeps-if, Keeps-bind, Keeps-in_store, Keeps-emit, Keeps-with_lock,
  SameLocks-IsPreorder,
)
