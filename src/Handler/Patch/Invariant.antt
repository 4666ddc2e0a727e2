-- ===== src/Handler/Patch/Invariant.antt =====
-- PATCH keeps every upload whole.
use fileloft.Base.{
  ◌≡◌, refl, ◌∙◌, ap, sym, inl, inr, Bool-cases, Option, none, some, text_eq, subst,
}
use fileloft.Error.{Result, ok, err}
use fileloft.Info.Id.{UploadId}
use fileloft.Crates.{Crates}
use fileloft.Store.Contract.{Stored, View, update, IsWhole, appended, IsDataStore}
use fileloft.Handler.Base.{TusHandler, World, Ambient, TusRequest, TusResponse}
use fileloft.Handler.Patch.{handle}
use fileloft.Handler.Patch.Outcome.{MayDeclare, progress}
use fileloft.Handler.Patch.Report.{appended-IsWhole}
use fileloft.Handler.Patch.Atomic.{AllWhole, HandleOutcome, handle_atomic}

IsWhole-MayDeclare : (e e1 : Stored) → MayDeclare e e1 → IsWhole e → IsWhole e1
IsWhole-MayDeclare e e1 (inl same) whole = rw same whole
IsWhole-MayDeclare e e1 (inr (size, unset, same)) whole = rw same whole

AllWhole-update :
    (view : View) (id : UploadId) (e : Stored)
    → AllWhole view
    → IsWhole e
    → AllWhole (update view id (some e))
AllWhole-update view id e all_whole whole j found there = elim (Bool-cases (text_eq id j)) [
  | inl same ↦
      let e1 : some e ≡ some found = rw same at there in
      let s : e ≡ found = cc in subst (λ d. IsWhole d) s whole
  | inr other ↦ all_whole j found (rw other at there)
]

progress-IsWhole :
    (o : Option Stored) (e : Stored)
    → progress (some e) ≡ progress o
    → ((e1 : Stored) → o ≡ some e1 → IsWhole e1)
    → IsWhole e
progress-IsWhole none e same whole = cc
progress-IsWhole (some e1) e same whole =
    let w = whole e1 refl in
    let offsets : e.info.offset ≡ e1.info.offset = cc in
    let contents : e.content ≡ e1.content = cc in rw contents (w ∙ sym offsets)

AllWhole-view :
    (view view1 : View) → ((j : UploadId) → view1 j ≡ view j) → AllWhole view → AllWhole view1
AllWhole-view view view1 same whole j e there = whole j e (sym (same j) ∙ there)

module _ (x : Crates) (h : TusHandler) (c : IsDataStore h.store)
    (unasked : h.config.hooks.pre_finish ≡ none) where
  from_outcome :
      (ambient : Ambient) (req : TusRequest x) (s : h.store.State)
      (out : Result (TusResponse x) × World h)
      → AllWhole (c.view s)
      → HandleOutcome x h c ambient req s out
      → AllWhole (c.view out.1.store)
  from_outcome ambient req s (ok response, w1) whole (id, offset, _, _, p) =
      AllWhole-view _ _ p.view (
        AllWhole-update (c.view s) id (appended p.sized p.buf) whole (
          appended-IsWhole p.sized p.buf
            (IsWhole-MayDeclare p.before p.sized p.declares (whole id p.before p.found))))
  from_outcome ambient req s (err why, w1) whole (inl same) =
      λ j e there. progress-IsWhole (c.view s j) e (ap progress (sym there) ∙ same j) (whole j)
  from_outcome ambient req s (err why, w1) whole (inr asked) = absurd (asked unasked)

  -- Over a store that keeps the contract and without a `pre_finish` hook, if every upload holds as
  -- many bytes as its offset says, then it is so after any PATCH, answered or refused.
  pub handle-AllWhole :
      (ambient : Ambient) (req : TusRequest x) (w : World h)
      → AllWhole (c.view w.store)
      → AllWhole (c.view (handle x h ambient req w).1.store)
  handle-AllWhole ambient req w whole =
      from_outcome ambient req w.store (handle x h ambient req w) whole
        (handle_atomic x h c ambient req w whole)
