-- ===== src/Files/Uploads.antt =====
-- An upload as the file store keeps it: its state in the `.info` file, and the chunks that were not
-- assembled yet in numbered part files.
pub mod Reading
pub mod Writing
pub mod Apart
pub mod Spares
pub mod Sparing
pub mod Chunks
pub mod Moving
pub mod Create
pub mod Removing
pub mod Finalize
pub mod Concat
pub mod Life
pub mod Others
pub mod Final
pub mod Delete
use fileloft.Base.{
  ℕ, zero, suc, ◌+◌, ◌≤◌, ◌<◌, ◌≡◌, ◌≢◌, refl, ap, sym, ◌∙◌, subst, inl, inr, ◌⊎◌, Bool, true,
  false, not, ◌&&◌, Option, none, some, List, [], ◌∷◌, ◌++◌, append_assoc, map, arith, all,
  all-append, is_empty, Text, codes, is_ascii_digit, to_string, length, ◌==◌, length-append,
  if◌then◌else◌,
}
use fileloft.Error.{TusError, Result, ok, err}
use fileloft.Exec.{continue}
use fileloft.Info.{UploadInfo}
use fileloft.Info.Id.{UploadId, validate, is_id_byte}
use fileloft.Info.Codec.{Bytes, Outcome}
use fileloft.Disk.{FilePath, IoResult, Disk}
use fileloft.Disk.Laws.{IsDisk, Named}
use fileloft.Files.Keys.{
  FileStore, FileUpload, key_to_path, info_path, data_path, part_path, part_name, part_prefix,
  parent, part_index, indexed, sort_by_key, u32_max,
}
use fileloft.Files.Keys.Layout.{
  no_slash, folder_of, IsPrefixed, key_to_path-append, parent-append, entry_inj,
}
use fileloft.Files.Keys.Separate.{safe, all_digits}
use fileloft.Files.Keys.Foreign.{part_index-info, part_index-assembled, part_index-part}
use fileloft.Files.Parts.{part_entry, sort_by_key-indexed, AllCanonical}
use fileloft.Files.Parts.Sorted.{entries}
use fileloft.Files.Store.{
  io, look, make_parent, read_info, write_info, list_part_paths_sorted, list_in, listing,
}

abbrev pub get_elem? : List Bytes → ℕ → Option Bytes
get_elem? [] i = none
get_elem? (b ∷ bs) zero = some b
get_elem? (b ∷ bs) (suc i) = get_elem? bs i

id_byte-no_slash : (s : Text) → all is_id_byte s ≡ true → all no_slash s ≡ true
id_byte-no_slash [] h = refl
id_byte-no_slash (c ∷ s) h = ground (arith, id_byte-no_slash s)

digits-no_slash : (s : Text) → all is_ascii_digit s ≡ true → all no_slash s ≡ true
digits-no_slash [] h = refl
digits-no_slash (c ∷ s) h = ground (arith, digits-no_slash s)

nonempty-append_full : (s t : Text) → 1 ≤ length s → is_empty (s ++ t) ≡ false
nonempty-append_full [] t h = absurd (omega arith)
nonempty-append_full (c ∷ s) t h = refl

module _ (store : FileStore) (prefixed : IsPrefixed store) (id : UploadId)
    (valid : validate id ≡ ok tt) where
  abbrev pub at : Text → FilePath
  at name = folder_of store ++ name ∷ []

  free : all no_slash id ≡ true
  free = id_byte-no_slash id (safe id valid).bytes

  key_path :
      (suffix : Text)
      → all no_slash suffix ≡ true
      → key_to_path store (store.prefix ++ (id ++ suffix)) ≡ at (id ++ suffix)
  key_path suffix clear =
      key_to_path-append store (id ++ suffix) prefixed
        (nonempty-append_full id suffix (safe id valid).nonempty)
        (all-append no_slash id suffix ∙ ground (arith, free, clear))

  pub info_path-eq : info_path (record { store = store; id = id }) ≡ at (id ++ codes ".info")
  info_path-eq = key_path (codes ".info") refl

  pub data_path-eq : data_path (record { store = store; id = id }) ≡ at id
  data_path-eq = key_to_path-append store id prefixed (full id (safe id valid).nonempty) free
    where
      full : (s : Text) → 1 ≤ length s → is_empty s ≡ false
      full [] h = absurd (omega arith)
      full (c ∷ s) h = refl

  pub part_path-eq : (n : ℕ) → part_path (record { store = store; id = id }) n ≡ at (part_name id n)
  part_path-eq n =
      ap (λ t. key_to_path store (store.prefix ++ t))
        (append_assoc id (codes "_part_") (to_string n))
      ∙ (key_path (codes "_part_" ++ to_string n) (digits-no_slash (to_string n) (all_digits n))
          ∙ ap at (sym (append_assoc id (codes "_part_") (to_string n))))

-- How a disk keeps an upload with the state `info` and the waiting chunks `chunks`.
pub record Keeps (d : Disk) (l : IsDisk d) (store : FileStore) (s : d.State) (id : UploadId)
    (info : UploadInfo) (chunks : List Bytes) : Type 0 where
  pub json : Bytes
  pub stored : l.file s (folder_of store ++ (id ++ codes ".info") ∷ []) ≡ some json
  pub decodes : d.from_slice json ≡ Outcome.done info
  pub chunk :
      (n : ℕ) (b : Bytes)
      → get_elem? chunks n ≡ some b
      → l.file s (folder_of store ++ part_name id n ∷ []) ≡ some b
  pub only :
      (name : Text) (n : ℕ) (b : Bytes)
      → l.file s (folder_of store ++ name ∷ []) ≡ some b
      → part_index id name ≡ some n
      → (name ≡ part_name id n) × (n < length chunks)
  pub few : length chunks ≤ u32_max
