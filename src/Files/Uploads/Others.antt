-- ===== src/Files/Uploads/Others.antt =====
-- Runs of operations on the other uploads of a store.
use fileloft.Base.{ℕ, ◌≡◌, ◌≢◌, refl, ap, ◌∙◌, subst, List, [], ◌∷◌, ◌++◌}
use fileloft.Error.{ok}
use fileloft.Info.{UploadInfo}
use fileloft.Info.Id.{UploadId, validate}
use fileloft.Info.Codec.{Bytes}
use fileloft.Store.{Reader}
use fileloft.Disk.{Disk}
use fileloft.Disk.Laws.{IsDisk}
use fileloft.Disk.Frame.{IsFramed}
use fileloft.Files.Keys.{FileStore, FileUpload}
use fileloft.Files.Keys.Layout.{folder_of, IsPrefixed}
use fileloft.Files.Store.{create_upload, write_chunk, finalize, delete, declare_length, concatenate}
use fileloft.Files.Uploads.{Keeps}
use fileloft.Files.Uploads.Spares.{Spares, Keeps-Spares, assembled-Spares}
use fileloft.Files.Uploads.Sparing.Operations.{
  IsSparing-create_upload, IsSparing-write_chunk, IsSparing-declare_length, IsSparing-finalize,
  IsSparing-concatenate, IsSparing-delete,
}

module _ (d : Disk) (store : FileStore) where
  abbrev handle : UploadId → FileUpload
  handle id = record { store = store; id = id }

  -- The state that an operation on the upload `id` leaves, whether it succeeds or fails.
  pub data Step (id : UploadId) (s : d.State) : d.State → Type 0 where
    created : (info : UploadInfo) → info.id ≡ id → Step id s (create_upload d store info s).1
    written :
        (offset : ℕ) (reader : Reader) → Step id s (write_chunk d (handle id) offset reader s).1
    declared : (size : ℕ) → Step id s (declare_length d (handle id) size s).1
    finalized : Step id s (finalize d (handle id) s).1
    concatenated : (partials : List UploadInfo) → Step id s (concatenate d (handle id) partials s).1
    deleted : Step id s (delete d (handle id) s).1

  -- A run of operations, each on a valid identifier other than `j`.
  pub data Runs (j : UploadId) (s : d.State) : d.State → Type 0 where
    at_rest : Runs j s s
    and_then :
        (id : UploadId) (s1 s2 : d.State)
        → Runs j s s1
        → validate id ≡ ok tt
        → id ≢ j
        → Step id s1 s2
        → Runs j s s2

module _ (d : Disk) (l : IsDisk d) (framed : IsFramed d l.file) (store : FileStore)
    (prefixed : IsPrefixed store) where
  Step-Spares :
      (id : UploadId) (s s' : d.State)
      → validate id ≡ ok tt
      → Step d store id s s'
      → Spares d l store id s s'
  Step-Spares id s s' valid (created info own) =
      subst (λ i. Spares d l store i s (create_upload d store info s).1) own
        ((IsSparing-create_upload d l framed store prefixed info (ap validate own ∙ valid)).at s)
  Step-Spares id s s' valid (written offset reader) =
      (IsSparing-write_chunk d l framed store prefixed id valid offset reader).at s
  Step-Spares id s s' valid (declared size) =
      (IsSparing-declare_length d l framed store prefixed id valid size).at s
  Step-Spares id s s' valid finalized = (IsSparing-finalize d l framed store prefixed id valid).at s
  Step-Spares id s s' valid (concatenated partials) =
      (IsSparing-concatenate d l framed store prefixed id valid partials).at s
  Step-Spares id s s' valid deleted = (IsSparing-delete d l framed store prefixed id valid).at s

  module _ (j : UploadId) (valid_j : validate j ≡ ok tt) (info : UploadInfo)
      (chunks : List Bytes) where
    -- On a disk that keeps its laws and whose calls, also those that fail, change no other file
    -- than the one they name, in a store whose prefix is empty or ends with a slash: whatever
    -- creations, writes, declarations of a length, finalizations, concatenations and deletions are
    -- run for other uploads with valid identifiers, with any arguments, on any state, and whether
    -- each succeeds, is refused or fails half way, an upload with a valid identifier that the disk
    -- keeps is kept with its state and its waiting chunks, and its assembled file does not change.
    pub Runs-others :
        (s s' : d.State)
        → Runs d store j s s'
        → Keeps d l store s j info chunks
        → Keeps d l store s' j info chunks
          × (l.file s' (folder_of store ++ j ∷ []) ≡ l.file s (folder_of store ++ j ∷ []))
    Runs-others s s' at_rest k = (k, refl)
    Runs-others s s' (and_then id s1 s2 before valid apart step) k =
        let (k1, e1) = Runs-others s s1 before k in
        let spares = Step-Spares id s1 s2 valid step in
        (
          Keeps-Spares d l store id valid j valid_j apart s1 s2 spares info chunks k1,
          assembled-Spares d l store id valid j valid_j apart s1 s2 spares ∙ e1,
        )
