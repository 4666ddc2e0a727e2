-- ===== src/Store/Contract.antt =====
-- What a store promises to the handlers: an abstract view of its state, as a function from
-- identifiers to the information and the bytes of an upload, and each operation as a change of
-- that view.
use fileloft.Base.{
  ℕ, ◌+◌, ◌≡◌, true, false, Option, none, some, List, [], ◌∷◌, ◌++◌, if◌then◌else◌, ltb, length,
  Text, codes, text_eq, u64_max,
}
use fileloft.Error.{TusError, Result, ok, err}
use fileloft.Info.{UploadInfo, is_complete}
use fileloft.Info.Id.{UploadId, validate}
use fileloft.Info.Codec.{Bytes}
use fileloft.Store.{bytes, broken, DataStore}

-- An upload, as a store shows it.
pub record Stored : Type 0 where
  pub info : UploadInfo
  pub content : Bytes

abbrev pub View : Type 0
View = UploadId → Option Stored

abbrev pub update : View → UploadId → Option Stored → View
update view id o j = if text_eq id j then o else view j

-- The offset counts the bytes that were received.
abbrev pub IsWhole : Stored → Type 0
IsWhole e = length e.content ≡ e.info.offset

abbrev pub appended : Stored → Bytes → Stored
appended e buf = record {
  info = record e.info { offset = e.info.offset + length buf };
  content = e.content ++ buf;
}

abbrev pub declared : Stored → ℕ → Stored
declared e size = record e { info = record e.info { size = some size; size_is_deferred = false } }

-- A final upload that was put together from `content`.
abbrev pub assembled : Stored → Bytes → Stored
assembled e content = record {
  info = record e.info { size = some (length content); offset = length content; is_final = true };
  content = content;
}

abbrev pub fits_size : Option ℕ → ℕ → Result (Unit {0})
fits_size none end = ok tt
fits_size (some size) end =
    if ltb size end then err (TusError.exceeds_upload_length size end) else ok tt

-- Whether a chunk at the upload's offset is accepted.
abbrev pub write_check : Stored → Bytes → Result (Unit {0})
write_check e buf =
    let end = e.info.offset + length buf in
    if ltb u64_max end
    then err (TusError.internal (codes "upload offset overflow"))
    else fits_size e.info.size end

-- The bytes of the uploads, one behind the other, if all are there.
abbrev pub gathered : View → List UploadInfo → Option Bytes
gathered view [] = some []
gathered view (p ∷ ps) = elim (view p.id) [
  | none ↦ none
  | some e ↦ elim (gathered view ps) [ none ↦ none | some rest ↦ some (e.content ++ rest) ]
]

pub record IsDataStore (d : DataStore) : Type 0 where
  pub handle : UploadId → d.Upload
  pub view : d.State → View
  pub create_upload_lem :
      (info : UploadInfo) (s : d.State)
      → validate info.id ≡ ok tt
      → (s' : d.State) × (d.create_upload info s ≡ (ok (handle info.id), s'))
        × ((j : UploadId)
            → view s' j ≡ update (view s) info.id (some (record { info = info; content = [] })) j)
  pub get_upload_some :
      (id : UploadId) (s : d.State) (e : Stored)
      → validate id ≡ ok tt
      → view s id ≡ some e
      → d.get_upload id s ≡ (ok (handle id), s)
  pub get_upload_none :
      (id : UploadId) (s : d.State)
      → validate id ≡ ok tt
      → view s id ≡ none
      → d.get_upload id s ≡ (err (TusError.not_found id), s)
  pub get_info_lem :
      (id : UploadId) (s : d.State) (e : Stored)
      → view s id ≡ some e
      → d.get_info (handle id) s ≡ (ok e.info, s)
  pub write_chunk_ok :
      (id : UploadId) (s : d.State) (e : Stored) (buf : Bytes)
      → view s id ≡ some e
      → IsWhole e
      → write_check e buf ≡ ok tt
      → (s' : d.State) × (d.write_chunk (handle id) e.info.offset (bytes buf) s
          ≡ (ok (length buf), s'))
        × ((j : UploadId) → view s' j ≡ update (view s) id (some (appended e buf)) j)
  pub write_chunk_refused :
      (id : UploadId) (s : d.State) (e : Stored) (buf : Bytes) (why : TusError)
      → view s id ≡ some e
      → IsWhole e
      → write_check e buf ≡ err why
      → d.write_chunk (handle id) e.info.offset (bytes buf) s ≡ (err why, s)
  pub write_chunk_broken :
      (id : UploadId) (s : d.State) (e : Stored) (why : Text)
      → view s id ≡ some e
      → d.write_chunk (handle id) e.info.offset (broken why) s ≡ (err (TusError.io why), s)
  pub finalize_lem :
      (id : UploadId) (s : d.State) (e : Stored)
      → view s id ≡ some e
      → IsWhole e
      → is_complete e.info ≡ true
      → (s' : d.State) × (d.finalize (handle id) s ≡ (ok tt, s'))
        × ((j : UploadId) → view s' j ≡ view s j)
  pub delete_lem :
      (id : UploadId) (s : d.State) (e : Stored)
      → view s id ≡ some e
      → (s' : d.State) × (d.delete (handle id) s ≡ (ok tt, s'))
        × ((j : UploadId) → view s' j ≡ update (view s) id none j)
  pub declare_length_lem :
      (id : UploadId) (s : d.State) (e : Stored) (size : ℕ)
      → view s id ≡ some e
      → e.info.size ≡ none
      → (s' : d.State) × (d.declare_length (handle id) size s ≡ (ok tt, s'))
        × ((j : UploadId) → view s' j ≡ update (view s) id (some (declared e size)) j)
  pub read_content_lem :
      (id : UploadId) (s : d.State) (e : Stored)
      → view s id ≡ some e
      → is_complete e.info ≡ true
      → d.read_content (handle id) s ≡ (ok (bytes e.content), s)
  pub concatenate_lem :
      (id : UploadId) (s : d.State) (e : Stored) (partials : List UploadInfo) (content : Bytes)
      → view s id ≡ some e
      → gathered (view s) partials ≡ some content
      → (s' : d.State) × (d.concatenate (handle id) partials s ≡ (ok tt, s'))
        × ((j : UploadId) → view s' j ≡ update (view s) id (some (assembled e content)) j)
