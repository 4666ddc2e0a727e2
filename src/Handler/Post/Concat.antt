-- ===== src/Handler/Post/Concat.antt =====
-- The concatenation of partial uploads, over a store that keeps the contract.
use fileloft.Base.{
  ◌≡◌, refl, ◌∙◌, ap, sym, subst, true, Option, none, some, List, [], ◌∷◌, ◌++◌, arith,
  Option-cases, inl, inr,
}
use fileloft.Error.{TusError, Result, ok, err}
use fileloft.Exec.{continue, pure}
use fileloft.Info.{UploadInfo, is_complete}
use fileloft.Info.Id.{UploadId, validate}
use fileloft.Info.Codec.{Bytes}
use fileloft.Store.Contract.{Stored, View, update, assembled, gathered, IsDataStore}
use fileloft.Handler.Base.{TusHandler, World, in_store}
use fileloft.Handler.Post.{check_partial, fetch_partial_infos, assemble}
use fileloft.Handler.Patch.Write.{Result-cases}

-- An upload is stored under its own identifier.
abbrev pub IsKeyed : View → Type 0
IsKeyed view = (id : UploadId) (e : Stored) → view id ≡ some e → e.info.id ≡ id

abbrev pub AllValid : List UploadId → Type 0
AllValid [] = Unit
AllValid (id ∷ ids) = (validate id ≡ ok tt) × AllValid ids

-- Every upload is there, was made as a partial one, and is complete.
abbrev pub AllPartial : View → List UploadId → Type 0
AllPartial view [] = Unit
AllPartial view (id ∷ ids) =
    ((e : Stored) × (view id ≡ some e) × (e.info.is_partial ≡ true) × (is_complete e.info ≡ true))
    × AllPartial view ids

abbrev content_of : Option Stored → Bytes
content_of none = []
content_of (some e) = e.content

-- The bytes of the uploads, one behind the other.
abbrev pub joined : View → List UploadId → Bytes
joined view [] = []
joined view (id ∷ ids) = content_of (view id) ++ joined view ids

gathered_more :
    (view : View) (p : UploadInfo) (ps : List UploadInfo) (e : Stored) (rest : Bytes)
    → view p.id ≡ some e
    → gathered view ps ≡ some rest
    → gathered view (p ∷ ps) ≡ some (e.content ++ rest)
gathered_more view p ps e rest found all_there = ground arith

module _ (h : TusHandler) (c : IsDataStore h.store) (w : World h)
    (keyed : IsKeyed (c.view w.store)) where
  abbrev FetchOutcome : List UploadId → Result (List UploadInfo) × World h → Type 0
  FetchOutcome ids (ok infos, w1) =
      (w1 ≡ w)
      × AllPartial (c.view w.store) ids
      × (gathered (c.view w.store) infos ≡ some (joined (c.view w.store) ids))
  FetchOutcome ids (err why, w1) = (w1 ≡ w) × ¬ AllPartial (c.view w.store) ids

  checked :
      (id : UploadId) (info : UploadInfo)
      → check_partial h id info ≡ ok tt
      → (info.is_partial ≡ true) × (is_complete info ≡ true)
  unfolding check_partial
  checked id info passed = (ground arith, ground arith)

  refused :
      (id : UploadId) (e : Stored)
      → c.view w.store id ≡ some e
      → (why : TusError) → check_partial h id e.info ≡ err why
      → ¬ (
          (e1 : Stored) × (c.view w.store id ≡ some e1)
          × (e1.info.is_partial ≡ true)
          × (is_complete e1.info ≡ true))
  unfolding check_partial
  refused id e found why bad (e1, found1, part, complete) =
      let same : e1 ≡ e = cc in
      let part1 : e.info.is_partial ≡ true = rw (← same) part in
      let complete1 : is_complete e.info ≡ true = rw (← same) complete in absurd (ground arith)

  one_more :
      (id : UploadId) (e : Stored)
      → c.view w.store id ≡ some e
      → (e.info.is_partial ≡ true) × (is_complete e.info ≡ true)
      → (ids : List UploadId) (out : Result (List UploadInfo) × World h) → FetchOutcome ids out
      → FetchOutcome (id ∷ ids) (continue out.0 (λ infos. pure (e.info ∷ infos)) out.1)
  one_more id e found (part, complete) ids (ok infos, w1) (same, partials, all_there) = (
    same,
    ((e, found, part, complete), partials),
    gathered_more (c.view w.store) e.info infos e _
          (subst (λ k. c.view w.store k ≡ some e) (sym (keyed id e found)) found) all_there
        ∙ ap (λ o. some (content_of o ++ joined (c.view w.store) ids)) (sym found),
  )
  one_more id e found passed ids (err why, w1) (same, short) = (same, λ (first, rest). short rest)

  fetch_lem : (ids : List UploadId) → AllValid ids → FetchOutcome ids (fetch_partial_infos h ids w)
  unfolding fetch_partial_infos
  fetch_lem [] valid = (refl, tt, refl)
  fetch_lem (id ∷ ids) (valid, rest_valid) = elim (Option-cases (c.view w.store id)) [
    | inl missing ↦
        rw (c.get_upload_none id w.store valid missing)
          (refl, λ ((e, found, _, _), rest). let clash : none ≡ some e = sym missing ∙ found in cc)
    | inr (e, found) ↦ rw (c.get_upload_some id w.store e valid found) (
        rw (c.get_info_lem id w.store e found) (elim (Result-cases (check_partial h id e.info)) [
          | inr (why, bad) ↦ rw bad (refl, λ (first, rest). refused id e found why bad first)
          | inl (_, passed) ↦ rw passed (
              one_more id e found (checked id e.info passed) ids (fetch_partial_infos h ids w)
                (fetch_lem ids rest_valid))
        ]))
  ]

  module _ (id : UploadId) (e : Stored) (found : c.view w.store id ≡ some e) where
    -- The upload holds the bytes of all partials in their order and is complete and final, and all
    -- other uploads are as before; it fails only if the partials are not as they have to be, and then
    -- nothing has changed.
    abbrev pub AssembleOutcome : List UploadId → Result (Unit {0}) × World h → Type 0
    AssembleOutcome ids (ok _, w1) =
        AllPartial (c.view w.store) ids
        × ((j : UploadId)
            → c.view w1.store j
              ≡ update (c.view w.store) id (some (assembled e (joined (c.view w.store) ids))) j)
    AssembleOutcome ids (err why, w1) = (w1 ≡ w) × ¬ AllPartial (c.view w.store) ids

    put_together :
        (ids : List UploadId) (out : Result (List UploadInfo) × World h)
        → FetchOutcome ids out
        → AssembleOutcome ids (
            continue out.0
              (λ partials. in_store h (h.store.concatenate (c.handle id) partials))
              out.1)
    put_together ids (err why, w1) same = same
    put_together ids (ok infos, w1) (same, partials, all_there) =
        let (s1, done, view) = c.concatenate_lem id w.store e infos _ found all_there in
        rw same (rw done (partials, view))

    -- Over a store that keeps the contract and keeps each upload under its own identifier, for an
    -- upload that is there and valid identifiers of partials, with the concatenation extension on:
    -- if the concatenation succeeds, every partial is there, was made as a partial upload and is
    -- complete, and the upload now holds their bytes in the order given, as a complete final upload,
    -- while all other uploads are as before; it fails only if some partial is not there, was not
    -- made as one or is not complete, and then nothing has changed.
    pub assemble_lem :
        (ids : List UploadId)
        → AllValid ids
        → h.config.extensions.concatenation ≡ true
        → AssembleOutcome ids (assemble h true (c.handle id) ids w)
    unfolding assemble
    assemble_lem ids valid enabled =
        rw enabled (put_together ids (fetch_partial_infos h ids w) (fetch_lem ids valid))
