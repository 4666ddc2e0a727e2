-- ===== src/Memory/Store.antt =====
-- crates/fileloft-store-memory/src/store.rs. The state is the shared map; each operation holds the
-- map's lock while it works, `concatenate` twice in turn. Sizes fit the machine's `usize`.
use fileloft.Base.{
  ℕ, ◌+◌, ◌-◌, true, false, Option, none, some, List, [], ◌∷◌, ◌++◌, if◌then◌else◌, ltb, length,
  take, drop, replicate, codes, u64_max,
}
use fileloft.Base.Map
use fileloft.Base.Map.{Map}
use fileloft.Error.{TusError, Result, ok, err}
use fileloft.Exec.{Exec, pure, lift, ◌>>=◌, ◌>>◌}
use fileloft.Info.{UploadInfo, is_complete}
use fileloft.Info.Id.{UploadId}
use fileloft.Info.Codec.{Bytes}
use fileloft.Store.{Reader, read_to_end, DataStore}

pub record MemoryUploadState : Type 0 where
  pub info : UploadInfo
  pub content : Bytes

abbrev pub StoreMap : Type 0
StoreMap = Map MemoryUploadState

-- A handle; its map is the one that the operation works on.
pub record MemoryUpload : Type 0 where
  pub id : UploadId

unfoldable pub create_upload : UploadInfo → Exec StoreMap MemoryUpload
create_upload info state =
    (ok (record { id = info.id }), Map.insert info.id (record { info = info; content = [] }) state)

unfoldable pub get_upload : UploadId → Exec StoreMap MemoryUpload
get_upload id state =
    if Map.contains_key id state
    then (ok (record { id = id }), state)
    else (err (TusError.not_found id), state)

-- `state.get(id).ok_or_else(NotFound)`
abbrev entry_of : Option MemoryUploadState → UploadId → Result MemoryUploadState
entry_of none id = err (TusError.not_found id)
entry_of (some entry) id = ok entry

-- `state.get_mut(id)`: what follows changes the entry in place.
abbrev entry : UploadId → Exec StoreMap MemoryUploadState
entry id state = (entry_of (Map.get id state) id, state)

abbrev put : UploadId → MemoryUploadState → Exec StoreMap (Unit {0})
put id e state = (ok tt, Map.insert id e state)

-- `data.resize(end, 0)` where the buffer is too short, and `data[offset..end].copy_from_slice`
unfoldable pub overwrite : Bytes → ℕ → Bytes → Bytes
overwrite content offset buf =
    let end = offset + length buf in
    let grown =
      if ltb (length content) end then content ++ replicate (end - length content) 0 else content in
    take offset grown ++ (buf ++ drop end grown)

abbrev pub within : Option ℕ → ℕ → Result (Unit {0})
within none end_offset = ok tt
within (some declared) end_offset =
    if ltb declared end_offset
    then err (TusError.exceeds_upload_length declared end_offset)
    else ok tt

-- `checked_add`, and the test against the declared size.
abbrev pub end_of : UploadInfo → ℕ → ℕ → Result (Unit {0})
end_of info offset n =
    if ltb u64_max (offset + n)
    then err (TusError.internal (codes "upload offset overflow"))
    else within info.size (offset + n)

unfoldable pub write_chunk : MemoryUpload → ℕ → Reader → Exec StoreMap ℕ
write_chunk upload offset reader = do
  buf ← lift (read_to_end reader)
  e ← entry upload.id
  lift (end_of e.info offset (length buf))
  put upload.id (record {
    info = record e.info { offset = offset + length buf };
    content = overwrite e.content offset buf;
  })
  pure (length buf)

unfoldable pub get_info : MemoryUpload → Exec StoreMap UploadInfo
get_info upload = do e ← entry upload.id; pure e.info

unfoldable pub finalize : MemoryUpload → Exec StoreMap (Unit {0})
finalize upload = pure tt

unfoldable pub delete : MemoryUpload → Exec StoreMap (Unit {0})
delete upload = do _ ← entry upload.id; λ state. (ok tt, Map.remove upload.id state)

abbrev unless_set : Option ℕ → Result (Unit {0})
unless_set none = ok tt
unless_set (some size) = err TusError.upload_length_already_set

unfoldable pub declare_length : MemoryUpload → ℕ → Exec StoreMap (Unit {0})
declare_length upload length = do
  e ← entry upload.id
  lift (unless_set e.info.size)
  put upload.id (record e { info = record e.info { size = some length; size_is_deferred = false } })

unfoldable pub read_content : MemoryUpload → Exec StoreMap Reader
read_content upload = do
  e ← entry upload.id
  lift (
      if is_complete e.info
      then ok (Reader.bytes e.content)
      else err TusError.upload_not_ready_for_download)

-- The loop that collects the partial uploads, under the read lock.
unfoldable pub combine : Bytes → List UploadInfo → StoreMap → Result Bytes
combine combined [] state = ok combined
combine combined (partial ∷ partials) state = elim (Map.get partial.id state) [
  | none ↦ err (TusError.not_found partial.id)
  | some e ↦ combine (combined ++ e.content) partials state
]

unfoldable pub concatenate : MemoryUpload → List UploadInfo → Exec StoreMap (Unit {0})
concatenate upload partials = do
  combined ← λ state. (combine [] partials state, state)
  e ← entry upload.id
  put upload.id (record {
    info = record e.info {
      size = some (length combined);
      offset = length combined;
      is_final = true;
    };
    content = combined;
  })

-- `get_upload_data`
unfoldable pub get_upload_data : StoreMap → UploadId → Option Bytes
get_upload_data state id = elim (Map.get id state) [ none ↦ none | some e ↦ some e.content ]

-- `impl SendDataStore for MemoryStore`
abbrev pub memory_store : DataStore
memory_store = record {
  State = StoreMap;
  Upload = MemoryUpload;
  create_upload = create_upload;
  get_upload = get_upload;
  write_chunk = write_chunk;
  get_info = get_info;
  finalize = finalize;
  delete = delete;
  declare_length = declare_length;
  concatenate = concatenate;
  read_content = read_content;
}
