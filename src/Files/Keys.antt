-- ===== src/Files/Keys.antt =====
-- crates/fileloft-store-fs/src/store.rs: where the files of an upload are.
pub mod Layout
pub mod Separate
pub mod Foreign
use fileloft.Base.{
  ℕ, ◌+◌, Bool, true, false, not, ◌&&◌, Option, none, some, List, [], ◌∷◌, ◌++◌, if◌then◌else◌, ltb,
  leb, is_empty, Text, codes, split, ends_with, strip_prefix, to_string, parse_u64,
}
use fileloft.Info.Id.{UploadId}
use fileloft.Disk.{FilePath}

-- `FileStore`, and the fields that a `FileUpload` takes over from it.
pub record FileStore : Type 0 where
  pub root : FilePath
  pub prefix : Text

unfoldable pub with_prefix : FilePath → Text → FileStore
with_prefix root prefix = record {
  root = root;
  prefix =
      if not (is_empty prefix) && not (ends_with prefix (codes "/"))
      then prefix ++ codes "/"
      else prefix;
}

pub record FileUpload : Type 0 where
  pub store : FileStore
  pub id : UploadId

unfoldable pub nonempty : List Text → List Text
nonempty [] = []
nonempty (w ∷ ws) = let rest = nonempty ws in if is_empty w then rest else w ∷ rest

unfoldable pub key_to_path : FileStore → Text → FilePath
key_to_path store key = store.root ++ nonempty (split b'/' key)

abbrev pub object_key_info : FileStore → UploadId → Text
object_key_info store id = store.prefix ++ (id ++ codes ".info")

abbrev pub object_key_data : FileStore → UploadId → Text
object_key_data store id = store.prefix ++ id

abbrev pub part_prefix : UploadId → Text
part_prefix id = id ++ codes "_part_"

abbrev pub part_name : UploadId → ℕ → Text
part_name id index = part_prefix id ++ to_string index

abbrev pub info_path : FileUpload → FilePath
info_path u = key_to_path u.store (object_key_info u.store u.id)

abbrev pub data_path : FileUpload → FilePath
data_path u = key_to_path u.store (object_key_data u.store u.id)

abbrev pub partial_data_path : FileUpload → UploadId → FilePath
partial_data_path u partial_id = key_to_path u.store (u.store.prefix ++ partial_id)

abbrev pub part_path : FileUpload → ℕ → FilePath
part_path u index = key_to_path u.store (u.store.prefix ++ part_name u.id index)

-- `Path::parent`
unfoldable pub parent : FilePath → Option FilePath
parent [] = none
parent (seg ∷ []) = some []
parent (seg ∷ next ∷ rest) = elim (parent (next ∷ rest)) [ none ↦ none | some p ↦ some (seg ∷ p) ]

-- `u32::MAX`, and `str::parse::<u32>`
abbrev pub u32_max : ℕ
u32_max = 4294967295

abbrev small : Option ℕ → Option ℕ
small none = none
small (some n) = if ltb u32_max n then none else some n

unfoldable pub parse_u32 : Text → Option ℕ
parse_u32 s = small (parse_u64 s)

-- The number of a part, if the name is that of a part of the upload.
abbrev index_after : Option Text → Option ℕ
index_after none = none
index_after (some rest) = parse_u32 rest

unfoldable pub part_index : UploadId → Text → Option ℕ
part_index id name = index_after (strip_prefix name (part_prefix id))

-- The loop over the entries of the folder.
unfoldable pub indexed : UploadId → FilePath → List (Option Text) → List (ℕ × FilePath)
unfolding part_index
indexed id dir [] = []
indexed id dir (none ∷ names) = indexed id dir names
indexed id dir (some name ∷ names) =
    let rest = indexed id dir names in
    elim (part_index id name) [ none ↦ rest | some i ↦ (i, dir ++ name ∷ []) ∷ rest ]

-- `sort_by_key(|(i, _)| *i)`, which is stable.
unfoldable pub insert_sorted : ℕ × FilePath → List (ℕ × FilePath) → List (ℕ × FilePath)
insert_sorted e [] = e ∷ []
insert_sorted e (f ∷ es) = if leb e.0 f.0 then e ∷ f ∷ es else f ∷ insert_sorted e es

unfoldable pub sort_by_key : List (ℕ × FilePath) → List (ℕ × FilePath)
unfolding insert_sorted
sort_by_key [] = []
sort_by_key (e ∷ es) = insert_sorted e (sort_by_key es)
