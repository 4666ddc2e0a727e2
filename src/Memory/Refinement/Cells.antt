-- ===== src/Memory/Refinement/Cells.antt =====
-- The map's entries as stored uploads, and the buffers of the memory store.
use fileloft.Base.{
  ℕ, suc, ◌+◌, ◌-◌, ◌≡◌, refl, ap, ◌∙◌, sym, Bool, true, false, Option, none, some, List, [], ◌∷◌,
  ◌++◌, if◌then◌else◌, arith, ltb, length, take, replicate, text_eq, append-nil, append_assoc,
  take-length, drop_all, length-append, length-replicate, Option-cases, inl, inr,
}
use fileloft.Base.Map
use fileloft.Base.Map.{get-insert, get-remove}
use fileloft.Error.{ok}
use fileloft.Info.{UploadInfo}
use fileloft.Info.Id.{UploadId}
use fileloft.Info.Codec.{Bytes}
use fileloft.Store.Contract.{Stored, View, update, write_check, gathered}
use fileloft.Memory.Store.{MemoryUploadState, StoreMap, overwrite, end_of, combine}

abbrev pub stored : Option MemoryUploadState → Option Stored
stored none = none
stored (some e) = some (record { info = e.info; content = e.content })

abbrev pub view : StoreMap → View
view state id = stored (Map.get id state)

take_all : (xs : Bytes) → take (length xs) xs ≡ xs
take_all [] = refl
take_all (x ∷ xs) = ap (λ t. x ∷ t) (take_all xs)

-- Writing at the end of the buffer appends.
pub overwrite_end : (content buf : Bytes) → overwrite content (length content) buf ≡ content ++ buf
unfolding overwrite
overwrite_end content [] =
    let e : ltb (length content) (length content + 0) ≡ false = ground arith in
    rw e (rw (take_all content) (rw (drop_all (length content + 0) content (omega arith)) refl))
overwrite_end content (b ∷ buf) =
    let end = length content + suc (length buf) in
    let e : ltb (length content) end ≡ true = ground arith in
    let filler = replicate (end - length content) 0 in
    let long : length (content ++ filler) ≡ end =
      omega
        (arith, length-append content filler, length-replicate {A = ℕ} (end - length content) 0) in
    rw e (
      rw (take-length content filler) (
        rw (drop_all end (content ++ filler) (omega (arith, long)))
          (ap (λ t. content ++ t) (append-nil (b ∷ buf)))))

stored-if :
    (b : Bool) (e : MemoryUploadState) (o : Option MemoryUploadState)
    → stored (if b then some e else o)
      ≡ (if b then some (record { info = e.info; content = e.content }) else stored o)
stored-if true e o = refl
stored-if false e o = refl

pub stored-insert :
    (j id : UploadId) (e : MemoryUploadState) (state : StoreMap)
    → view (Map.insert id e state) j
      ≡ update (view state) id (some (record { info = e.info; content = e.content })) j
stored-insert j id e state =
    rw (get-insert j id e state) (stored-if (text_eq id j) e (Map.get j state))

stored-if_none :
    (b : Bool) (o : Option MemoryUploadState)
    → stored (if b then none else o) ≡ (if b then none else stored o)
stored-if_none true o = refl
stored-if_none false o = refl

pub stored-remove :
    (j id : UploadId) (state : StoreMap)
    → view (Map.remove id state) j ≡ update (view state) id none j
stored-remove j id state =
    rw (get-remove j id state) (stored-if_none (text_eq id j) (Map.get j state))

stored-some :
    (o : Option MemoryUploadState) (e : Stored)
    → stored o ≡ some e
    → o ≡ some (record { info = e.info; content = e.content })
stored-some none e h = cc
stored-some (some m) e h = ground arith

pub entry_found :
    (id : UploadId) (state : StoreMap) (e : Stored)
    → view state id ≡ some e
    → Map.get id state ≡ some (record { info = e.info; content = e.content })
entry_found id state e h = stored-some (Map.get id state) e h

pub entry_missing :
    (id : UploadId) (state : StoreMap) → view state id ≡ none → Map.get id state ≡ none
entry_missing id state h = missing (Map.get id state) h
  where
    missing : (o : Option MemoryUploadState) → stored o ≡ none → o ≡ none
    missing none e = refl
    missing (some m) e = cc

gathered-cons :
    (view : View) (p : UploadInfo) (ps : List UploadInfo) (content : Bytes)
    → gathered view (p ∷ ps) ≡ some content
    → (e : Stored) × (rest : Bytes) × (view p.id ≡ some e)
      × (gathered view ps ≡ some rest)
      × (content ≡ e.content ++ rest)
gathered-cons view p ps content h = elim (Option-cases (view p.id)) [
  | inl missing ↦ cc (rw (missing, gathered) at h)
  | inr (e, found) ↦ elim (Option-cases (gathered view ps)) [
    | inl stop ↦ ground arith
    | inr (rest, more) ↦ (e, rest, found, more, ground arith)
  ]
]

combine-gathered :
    (combined : Bytes) (partials : List UploadInfo) (state : StoreMap) (content : Bytes)
    → gathered (view state) partials ≡ some content
    → combine combined partials state ≡ ok (combined ++ content)
unfolding combine
combine-gathered combined [] state content h =
    let e : [] ≡ content = ground arith in
    ap ok (sym (append-nil combined) ∙ ap (λ t. combined ++ t) e)
combine-gathered combined (p ∷ ps) state content h =
    let (e, rest, found, more, same) = gathered-cons (view state) p ps content h in
    rw (entry_found p.id state e found, combine)
      (combine-gathered (combined ++ e.content) ps state rest more
        ∙ ap ok (append_assoc combined e.content rest ∙ ap (λ t. combined ++ t) (sym same)))

pub end_same :
    (e : Stored) (buf : Bytes) → end_of e.info e.info.offset (length buf) ≡ write_check e buf
end_same e buf = refl

pub combine-ok :
    (partials : List UploadInfo) (state : StoreMap) (content : Bytes)
    → gathered (view state) partials ≡ some content
    → combine [] partials state ≡ ok content
combine-ok partials state content h = combine-gathered [] partials state content h
