-- ===== src/Files/Uploads/Reading.antt =====
-- Reading an upload's state and listing its parts.
use fileloft.Base.{
  ℕ, zero, suc, ◌+◌, ◌≤◌, ◌<◌, ◌≡◌, refl, ap, ◌∙◌, inl, inr, true, false, some, List, [], ◌∷◌, ◌++◌,
  map, arith, Text, codes, length,
}
use fileloft.Error.{ok}
use fileloft.Info.{UploadInfo}
use fileloft.Info.Id.{UploadId, validate}
use fileloft.Info.Codec.{Bytes}
use fileloft.Disk.{FilePath, Disk}
use fileloft.Disk.Laws.{IsDisk}
use fileloft.Files.Keys.{FileStore, FileUpload, part_name, part_index, u32_max}
use fileloft.Files.Keys.Layout.{folder_of, IsPrefixed, parent-append}
use fileloft.Files.Parts.{part_entry, sort_by_key-indexed, AllCanonical}
use fileloft.Files.Parts.Sorted.{entries}
use fileloft.Files.Store.{read_info, list_part_paths_sorted}
use fileloft.Files.Uploads.{info_path-eq, get_elem?, Keeps}

-- The paths of the parts from the number `k` on.
unfoldable pub part_paths : FilePath → UploadId → ℕ → ℕ → List FilePath
part_paths dir id k zero = []
part_paths dir id k (suc m) = (dir ++ part_name id k ∷ []) ∷ part_paths dir id (k + 1) m

map-entries :
    (dir : FilePath) (id : UploadId) (k m : ℕ)
    → map (λ e. e.1) (entries (part_entry id dir) k m) ≡ part_paths dir id k m
unfolding entries part_paths
map-entries dir id k zero = refl
map-entries dir id k (suc m) =
    ap (λ t. (dir ++ part_name id k ∷ []) ∷ t) (map-entries dir id (k + 1) m)

pub get_elem?-lt :
    (bs : List Bytes) (n : ℕ) → n < length bs → (b : Bytes) × (get_elem? bs n ≡ some b)
get_elem?-lt [] n h = absurd (omega arith)
get_elem?-lt (b ∷ bs) zero h = (b, refl)
get_elem?-lt (b ∷ bs) (suc n) h = get_elem?-lt bs n (omega arith)

-- No name that is read as a part belongs to something that is no file.
abbrev pub IsPlain : {d : Disk} → IsDisk d → Type 0
IsPlain l = (id name : Text) (n : ℕ) → part_index id name ≡ some n → l.other name ≡ false

module _ (d : Disk) (l : IsDisk d) (plain : IsPlain l) (store : FileStore)
    (prefixed : IsPrefixed store) (id : UploadId) (valid : validate id ≡ ok tt) where
  abbrev pub handle : FileUpload
  handle = record { store = store; id = id }

  abbrev dir : FilePath
  dir = folder_of store

  -- The listing of a folder with the parts `0` to `total - 1` of the upload and no other.
  pub list-parts :
      (s : d.State) (total : ℕ)
      → l.folder s dir ≡ true
      → total ≤ u32_max
      → ((n : ℕ) → n < total → (b : Bytes) × (l.file s (dir ++ part_name id n ∷ []) ≡ some b))
      → ((name : Text) (n : ℕ) (b : Bytes)
          → l.file s (dir ++ name ∷ []) ≡ some b
          → part_index id name ≡ some n
          → (name ≡ part_name id n) × (n < total))
      → list_part_paths_sorted d handle s ≡ (ok (part_paths dir id 0 total), s)
  unfolding list_part_paths_sorted
  list-parts s total opened few all_there only =
      let (names, listed, distinct, each, each_file) = l.read_dir_lem dir s opened in
      let canonical : AllCanonical id dir total names = λ name n named index.
        elim (each_file name named) [
          | inl (b, e) ↦ only name n b e index
          | inr odd ↦ absurd (ground (arith, odd, plain id name n index))
        ] in
      let sorted =
        sort_by_key-indexed id dir total names few distinct
          (λ n lt. let (b, e) = all_there n lt in each (part_name id n) b e) canonical in
      rw (info_path-eq store prefixed id valid, parent-append dir (id ++ codes ".info"))
        (rw (l.try_exists_folder dir s opened) (
          rw listed (
            ap (λ es. (ok (map (λ e. e.1) es), s)) sorted
            ∙ ap (λ ps. (ok ps, s)) (map-entries dir id 0 total))))

  module _ (s : d.State) (info : UploadInfo) (chunks : List Bytes)
      (k : Keeps d l store s id info chunks) where
    pub opened : l.folder s dir ≡ true
    opened = l.file-folder s dir (id ++ codes ".info") k.json k.stored

    pub read_info-Keeps : read_info d handle s ≡ (ok info, s)
    unfolding read_info
    read_info-Keeps =
        rw (info_path-eq store prefixed id valid)
          (rw (l.read_some _ k.json s k.stored) (rw k.decodes refl))

    pub list-Keeps :
        list_part_paths_sorted d handle s ≡ (ok (part_paths dir id 0 (length chunks)), s)
    list-Keeps =
        list-parts s (length chunks) opened k.few
          (λ n lt. let (b, e) = get_elem?-lt chunks n lt in (b, k.chunk n b e)) k.only
