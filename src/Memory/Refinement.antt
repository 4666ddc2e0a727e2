-- ===== src/Memory/Refinement.antt =====
-- The memory store implements the contract of a store.
mod Cells
pub use Cells.{stored}
use fileloft.Base.{
  ℕ, suc, ◌+◌, ◌-◌, ◌≤◌, ◌≡◌, refl, ap, ◌∙◌, sym, Bool, true, false, Option, none, some, List, [],
  ◌∷◌, ◌++◌, if◌then◌else◌, arith, ltb, length, take, drop, replicate, Text, text_eq, append-nil,
  append_assoc, take-length, drop_all, length-append, length-replicate, Option-cases, inl, inr,
}
use fileloft.Base.Map
use fileloft.Base.Map.{get-insert, get-remove}
use fileloft.Error.{TusError, Result, ok, err}
use fileloft.Info.{UploadInfo, is_complete}
use fileloft.Info.Id.{UploadId}
use fileloft.Info.Codec.{Bytes}
use fileloft.Store.{bytes, broken}
use fileloft.Store.Contract.{
  Stored, View, update, IsWhole, appended, declared, assembled, write_check, gathered, IsDataStore,
}
use fileloft.Memory.Store.{
  MemoryUploadState, StoreMap, MemoryUpload, create_upload, get_upload, overwrite, end_of,
  write_chunk, get_info, finalize, delete, declare_length, read_content, combine, concatenate,
  memory_store,
}
use Cells.{
  view, overwrite_end, stored-insert, stored-remove, entry_found, entry_missing, end_same,
  combine-ok,
}

module _ (id : UploadId) (s : StoreMap) (e : Stored) (found : view s id ≡ some e) where
  here : Map.get id s ≡ some (record { info = e.info; content = e.content })
  here = entry_found id s e found

  write_ok :
      (buf : Bytes)
      → IsWhole e
      → write_check e buf ≡ ok tt
      → (s' : StoreMap) × (write_chunk (record { id = id }) e.info.offset (bytes buf) s
          ≡ (ok (length buf), s'))
        × ((j : UploadId) → view s' j ≡ update (view s) id (some (appended e buf)) j)
  unfolding write_chunk
  write_ok buf whole fits =
      let after : MemoryUploadState = record {
        info = record e.info { offset = e.info.offset + length buf };
        content = overwrite e.content e.info.offset buf;
      } in
      let same : overwrite e.content e.info.offset buf ≡ e.content ++ buf =
        rw (← whole) (overwrite_end e.content buf) in
      (
        Map.insert id after s,
        ground (arith, here, end_same e buf),
        λ j.
            stored-insert j id after s
            ∙ ap (λ t. update (view s) id (some (record { info = after.info; content = t })) j)
                same,
      )

  write_refused :
      (buf : Bytes) (why : TusError)
      → write_check e buf ≡ err why
      → write_chunk (record { id = id }) e.info.offset (bytes buf) s ≡ (err why, s)
  unfolding write_chunk
  write_refused buf why refused = ground (arith, here, end_same e buf)

  delete_ok :
      (s' : StoreMap) × (delete (record { id = id }) s ≡ (ok tt, s'))
      × ((j : UploadId) → view s' j ≡ update (view s) id none j)
  unfolding delete
  delete_ok = (Map.remove id s, ground (arith, here), λ j. stored-remove j id s)

  declare_ok :
      (size : ℕ)
      → e.info.size ≡ none
      → (s' : StoreMap) × (declare_length (record { id = id }) size s ≡ (ok tt, s'))
        × ((j : UploadId) → view s' j ≡ update (view s) id (some (declared e size)) j)
  unfolding declare_length
  declare_ok size unset =
      let after : MemoryUploadState = record {
        info = record e.info { size = some size; size_is_deferred = false };
        content = e.content;
      } in
      (Map.insert id after s, ground (arith, here), λ j. stored-insert j id after s)

  concatenate_ok :
      (partials : List UploadInfo) (content : Bytes)
      → gathered (view s) partials ≡ some content
      → (s' : StoreMap) × (concatenate (record { id = id }) partials s ≡ (ok tt, s'))
        × ((j : UploadId) → view s' j ≡ update (view s) id (some (assembled e content)) j)
  unfolding concatenate
  concatenate_ok partials content all_there =
      let after : MemoryUploadState = record {
        info = record e.info {
          size = some (length content);
          offset = length content;
          is_final = true;
        };
        content = content;
      } in
      (
        Map.insert id after s,
        ground (arith, here, combine-ok partials s content all_there),
        λ j. stored-insert j id after s,
      )

module _ (id : UploadId) (s : StoreMap) where
  get_some : (e : Stored) → view s id ≡ some e → get_upload id s ≡ (ok (record { id = id }), s)
  unfolding get_upload
  get_some e found = ground (arith, entry_found id s e found)

  get_none : view s id ≡ none → get_upload id s ≡ (err (TusError.not_found id), s)
  unfolding get_upload
  get_none missing = ground (arith, entry_missing id s missing)

  info_ok : (e : Stored) → view s id ≡ some e → get_info (record { id = id }) s ≡ (ok e.info, s)
  unfolding get_info
  info_ok e found = ground (arith, entry_found id s e found)

  read_ok :
      (e : Stored)
      → view s id ≡ some e
      → is_complete e.info ≡ true
      → read_content (record { id = id }) s ≡ (ok (bytes e.content), s)
  unfolding read_content
  read_ok e found complete = ground (arith, entry_found id s e found)

  write_broken :
      (offset : ℕ) (why : Text)
      → write_chunk (record { id = id }) offset (broken why) s ≡ (err (TusError.io why), s)
  unfolding write_chunk
  write_broken offset why = refl

create_ok :
    (info : UploadInfo) (s : StoreMap)
    → (s' : StoreMap) × (create_upload info s ≡ (ok (record { id = info.id }), s'))
      × ((j : UploadId)
          → view s' j ≡ update (view s) info.id (some (record { info = info; content = [] })) j)
unfolding create_upload
create_ok info s =
    let after : MemoryUploadState = record { info = info; content = [] } in
    (Map.insert info.id after s, refl, λ j. stored-insert j info.id after s)

contract : IsDataStore memory_store
contract = record {
  handle = λ id. record { id = id };
  view = view;
  create_upload_lem = λ info s valid. create_ok info s;
  get_upload_some = λ id s e valid found. get_some id s e found;
  get_upload_none = λ id s valid missing. get_none id s missing;
  get_info_lem = λ id s e found. info_ok id s e found;
  write_chunk_ok = λ id s e buf found whole fits. write_ok id s e found buf whole fits;
  write_chunk_refused =
      λ id s e buf why found whole no_room. write_refused id s e found buf why no_room;
  write_chunk_broken = λ id s e why found. write_broken id s e.info.offset why;
  finalize_lem = λ id s e found whole complete. (s, unfold finalize in refl, λ j. refl);
  delete_lem = λ id s e found. delete_ok id s e found;
  declare_length_lem = λ id s e size found unset. declare_ok id s e found size unset;
  read_content_lem = λ id s e found complete. read_ok id s e found complete;
  concatenate_lem = λ id s e partials content found all_there.
      concatenate_ok id s e found partials content all_there;
}

-- The memory store keeps every promise of the contract, with the entries of its map as the uploads
-- that it shows: creating, writing at the offset, declaring a length, finishing, concatenating and
-- deleting change the shown uploads as the contract says, chunks that do not fit are refused, and
-- what is read is what was written.
pub memory_store-IsDataStore :
    (c : IsDataStore memory_store) × ((s : StoreMap) (id : UploadId)
      → c.view s id ≡ stored (Map.get id s))
unfolding contract
memory_store-IsDataStore = (contract, λ s id. refl)
