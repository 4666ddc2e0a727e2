-- ===== src/Files/Store.antt =====
-- crates/fileloft-store-fs/src/store.rs: the operations of the file store.
use fileloft.Base.{
  ℕ, ◌+◌, ◌%◌, ◌^◌, ◌==◌, Bool, true, false, Option, none, some, List, [], ◌∷◌, map, if◌then◌else◌,
  ltb, length, codes, u64_max,
}
use fileloft.Error.{TusError, Result, ok, err}
use fileloft.Exec.{Exec, pure, fail, lift, ◌>>=◌, ◌>>◌}
use fileloft.Info.{UploadInfo, is_complete, is_none}
use fileloft.Info.Id.{UploadId, validate}
use fileloft.Info.Codec.{Outcome}
use fileloft.Store.{Reader, read_to_end, DataStore}
use fileloft.Disk.{FilePath, IoResult, Disk}
use fileloft.Files.Keys.{
  FileStore, FileUpload, info_path, data_path, partial_data_path, part_path, parent, indexed,
  sort_by_key,
}

-- `map_err(TusError::Io)`
abbrev pub io_result : {A : Type 0} → IoResult A → Result A
io_result (IoResult.done a) = ok a
io_result (IoResult.failed e) = err (TusError.io e.text)

-- `map_err(|e| TusError::Internal(e.to_string()))`
abbrev pub internal_result : {A : Type 0} → Outcome A → Result A
internal_result (Outcome.done a) = ok a
internal_result (Outcome.failed why) = err (TusError.internal why)

-- `Err(e) if e.kind() == NotFound => Ok(())`
abbrev pub ignore_not_found : IoResult (Unit {0}) → Result (Unit {0})
ignore_not_found (IoResult.done _) = ok tt
ignore_not_found (IoResult.failed e) = if e.is_not_found then ok tt else err (TusError.io e.text)

-- The bytes that a chunk adds, by the checks of its end against a `u64` and the declared size.
abbrev pub within : Option ℕ → ℕ → Result (Unit {0})
within none end_offset = ok tt
within (some declared) end_offset =
    if ltb declared end_offset
    then err (TusError.exceeds_upload_length declared end_offset)
    else ok tt

abbrev pub end_of : UploadInfo → ℕ → ℕ → Result ℕ
end_of info offset n =
    let end_offset = offset + n in
    if ltb u64_max end_offset
    then err (TusError.internal (codes "upload offset overflow"))
    else elim (within info.size end_offset) [ err e ↦ err e | ok _ ↦ ok end_offset ]

-- `partials.iter().filter_map(|p| p.size).sum()`, which wraps in a release build.
abbrev pub size_or_none : Option ℕ → ℕ
size_or_none none = 0
size_or_none (some size) = size

unfoldable pub sum_sizes : List UploadInfo → ℕ
sum_sizes [] = 0
sum_sizes (p ∷ ps) = (size_or_none p.size + sum_sizes ps) % 2 ^ 64

module _ (d : Disk) where
  abbrev pub Action : Type 0 → Type 0
  Action A = Exec d.State A

  -- A call that changes the disk, and one that only reads it.
  abbrev pub io : {A : Type 0} → (d.State → IoResult A × d.State) → Action A
  io call s = let (r, s') = call s in (io_result r, s')

  abbrev pub look : {A : Type 0} → (d.State → IoResult A) → Action A
  look call s = (io_result (call s), s)

  abbrev pub make_parent : Option FilePath → Action (Unit {0})
  make_parent none = pure tt
  make_parent (some dir) = io (d.create_dir_all dir)

  unfoldable pub read_info : FileUpload → Action UploadInfo
  read_info u = do bytes ← look (d.read (info_path u)); lift (internal_result (d.from_slice bytes))

  unfoldable pub write_info : FileUpload → UploadInfo → Action (Unit {0})
  write_info u info = do
    json ← lift (internal_result (d.to_vec info))
    io (d.write (info_path u) json)

  abbrev pub listing : UploadId → FilePath → Bool → Action (List FilePath)
  listing id dir false = pure []
  listing id dir true = do
    names ← look (d.read_dir dir)
    pure (map (λ e. e.1) (sort_by_key (indexed id dir names)))

  abbrev pub list_in : UploadId → Option FilePath → Action (List FilePath)
  list_in id none = pure []
  list_in id (some dir) = do there ← look (d.try_exists dir); listing id dir there

  unfoldable pub list_part_paths_sorted : FileUpload → Action (List FilePath)
  list_part_paths_sorted u = list_in u.id (parent (info_path u))

  unfoldable pub remove_file_ignore_not_found : FilePath → Action (Unit {0})
  remove_file_ignore_not_found path s =
      let (r, s') = d.remove_file path s in (ignore_not_found r, s')

  unfoldable pub create_upload : FileStore → UploadInfo → Action FileUpload
  create_upload store info = do
    let u : FileUpload = record { store = store; id = info.id }
    lift (validate info.id)
    make_parent (parent (info_path u))
    json ← lift (internal_result (d.to_vec info))
    io (d.write (info_path u) json)
    pure u

  abbrev pub found_upload : FileUpload → Bool → Result FileUpload
  found_upload u true = ok u
  found_upload u false = err (TusError.not_found u.id)

  unfoldable pub get_upload : FileStore → UploadId → Action FileUpload
  get_upload store id = do
    let u : FileUpload = record { store = store; id = id }
    lift (validate id)
    there ← look (d.try_exists (info_path u))
    lift (found_upload u there)

  -- From the reading of the body on.
  unfoldable pub write_part : FileUpload → UploadInfo → ℕ → Reader → Action ℕ
  write_part u info offset reader = do
    buf ← lift (read_to_end reader)
    end_offset ← lift (end_of info offset (length buf))
    parts ← list_part_paths_sorted u
    let path = part_path u (length parts % 2 ^ 32)
    make_parent (parent path)
    io (d.write path buf)
    write_info u (record info { offset = end_offset })
    pure (length buf)

  unfoldable pub write_chunk : FileUpload → ℕ → Reader → Action ℕ
  write_chunk u offset reader = do
    info ← read_info u
    if info.offset == offset
        then write_part u info offset reader
        else fail (TusError.offset_mismatch info.offset offset)

  unfoldable pub get_info : FileUpload → Action UploadInfo
  get_info u = read_info u

  -- The loop that copies files to the end of one, and the one that removes them.
  unfoldable pub copy_all : FilePath → List FilePath → Action (Unit {0})
  copy_all dest [] = pure tt
  copy_all dest (path ∷ paths) = do
    bytes ← look (d.read path)
    io (d.append dest bytes)
    copy_all dest paths

  unfoldable pub remove_all : List FilePath → Action (Unit {0})
  remove_all [] = pure tt
  remove_all (path ∷ paths) = do remove_file_ignore_not_found path; remove_all paths

  abbrev pub put_together : FilePath → List FilePath → Action (Unit {0})
  put_together dest [] = io (d.write dest [])
  put_together dest (part ∷ parts) = do
    io (d.open_truncated dest)
    copy_all dest (part ∷ parts)
    io (d.flush dest)
    remove_all (part ∷ parts)

  unfoldable pub finalize : FileUpload → Action (Unit {0})
  finalize u = do
    parts ← list_part_paths_sorted u
    make_parent (parent (data_path u))
    put_together (data_path u) parts

  unfoldable pub delete : FileUpload → Action (Unit {0})
  delete u = do
    remove_file_ignore_not_found (data_path u)
    remove_file_ignore_not_found (info_path u)
    parts ← list_part_paths_sorted u
    remove_all parts

  unfoldable pub declare_length : FileUpload → ℕ → Action (Unit {0})
  declare_length u length = do
    info ← read_info u
    if is_none info.size
        then write_info u (record info { size = some length; size_is_deferred = false })
        else fail TusError.upload_length_already_set

  abbrev pub ready : Bool → Result (Unit {0})
  ready true = ok tt
  ready false = err TusError.upload_not_ready_for_download

  -- The bytes are those that the file has when it is opened.
  unfoldable pub read_content : FileUpload → Action Reader
  read_content u = do
    info ← read_info u
    lift (ready (is_complete info))
    there ← look (d.try_exists (data_path u))
    lift (ready there)
    bytes ← look (d.read (data_path u))
    pure (Reader.bytes bytes)

  -- The loop over the partial uploads, whose identifiers come from stored states.
  unfoldable pub copy_partials : FileUpload → List UploadInfo → Action (Unit {0})
  copy_partials u [] = pure tt
  copy_partials u (partial ∷ partials) = do
    lift (validate partial.id)
    bytes ← look (d.read (partial_data_path u partial.id))
    io (d.append (data_path u) bytes)
    copy_partials u partials

  unfoldable pub concatenate : FileUpload → List UploadInfo → Action (Unit {0})
  concatenate u partials = do
    make_parent (parent (data_path u))
    io (d.open_truncated (data_path u))
    copy_partials u partials
    io (d.flush (data_path u))
    let total = sum_sizes partials
    info ← read_info u
    write_info u (record info { size = some total; offset = total; is_final = true })

  -- The trait's implementation.
  abbrev pub file_store : FileStore → DataStore
  file_store store = record {
    State = d.State;
    Upload = FileUpload;
    create_upload = create_upload store;
    get_upload = get_upload store;
    write_chunk = write_chunk;
    get_info = get_info;
    finalize = finalize;
    delete = delete;
    declare_length = declare_length;
    concatenate = concatenate;
    read_content = read_content;
  }
