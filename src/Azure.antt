-- ===== src/Azure.antt =====
-- crates/fileloft-store-azure/src/store.rs: uploads as the blobs of a container, whose service is a
-- parameter. What the code has in common with the GCS store, the reading of part numbers, the
-- sorting of names and the prefix, is `Gcs`.
pub mod Rounds
use fileloft.Base.{
  ℕ, zero, suc, ◌+◌, ◌%◌, ◌^◌, ◌==◌, Bool, true, false, Option, none, some, List, [], ◌∷◌, ◌++◌,
  map, if◌then◌else◌, leb, length, Text, codes, to_string,
}
use fileloft.Error.{TusError, Result, ok, err}
use fileloft.Exec.{Exec, pure, fail, lift, ◌>>=◌, ◌>>◌}
use fileloft.Info.{UploadInfo, is_complete, is_none}
use fileloft.Info.Id.{UploadId}
use fileloft.Info.Codec.{Bytes, Outcome}
use fileloft.Store.{Reader, read_to_end}
use fileloft.Files.Keys.{u32_max}
use fileloft.Files.Store.{end_of, sum_sizes}
use fileloft.Gcs.{equals, outcome_result, named, sort_by_index}
use fileloft.Gcs.Chunks.{chunks}

-- `azure_core::Error`, of which the code reads the HTTP status.
pub record AzureError : Type 0 where
  pub http_status : Option ℕ
  pub text : Text

pub data Answer (A : Type 0) : Type 0 where
  done : A → Answer A
  failed : AzureError → Answer A

-- The service. A block is staged under the number that its identifier is made of, and a listing
-- comes in pages.
pub record Container : Type 1 where
  pub State : Type 0
  pub put_block_blob : Text → Bytes → State → Answer (Unit {0}) × State
  pub get_content : Text → State → Answer Bytes
  pub list_blobs : Text → State → List (Answer (List Text))
  pub put_block : Text → ℕ → Bytes → State → Answer (Unit {0}) × State
  pub put_block_list : Text → List ℕ → State → Answer (Unit {0}) × State
  pub delete_blob : Text → State → Answer (Unit {0}) × State
  pub to_vec_pretty : UploadInfo → Outcome Bytes
  pub from_slice : Bytes → Outcome UploadInfo

pub record AzureUpload : Type 0 where
  pub id : UploadId
  pub prefix : Text

abbrev pub max_commit_sources : ℕ
max_commit_sources = 32

abbrev pub data_key : AzureUpload → Text
data_key u = u.prefix ++ u.id

abbrev pub info_key : AzureUpload → Text
info_key u = u.prefix ++ (u.id ++ codes ".info")

abbrev pub part_key : AzureUpload → ℕ → Text
part_key u index = u.prefix ++ (u.id ++ (codes "_part_" ++ to_string index))

abbrev pub tmp_key : AzureUpload → ℕ → Text
tmp_key u i = u.prefix ++ (u.id ++ (codes "_tmp_" ++ to_string i))

unfoldable pub azure_err : AzureError → Text → Text → TusError
azure_err e upload_id op =
    if equals e.http_status 404
    then TusError.not_found upload_id
    else TusError.internal (codes "Azure " ++ (op ++ (codes ": " ++ e.text)))

abbrev pub answer_result : {A : Type 0} → Text → Text → Answer A → Result A
answer_result id op (Answer.done a) = ok a
answer_result id op (Answer.failed e) = err (azure_err e id op)

unfoldable pub collect_pages : UploadId → List (Answer (List Text)) → Result (List Text)
collect_pages id [] = ok []
collect_pages id (Answer.failed e ∷ pages) = err (azure_err e id (codes "list parts"))
collect_pages id (Answer.done names ∷ pages) = elim (collect_pages id pages) [
  | err e ↦ err e
  | ok rest ↦ ok (named names ++ rest)
]

-- `saturating_add(1)` on a `u32`
abbrev pub saturating_next : ℕ → ℕ
saturating_next n = if leb u32_max n then u32_max else n + 1

module _ (d : Container) where
  abbrev pub Action : Type 0 → Type 0
  Action A = Exec d.State A

  abbrev pub request : {A : Type 0} → UploadId → Text → (d.State → Answer A × d.State) → Action A
  request id op call s = let (r, s') = call s in (answer_result id op r, s')

  abbrev pub look : {A : Type 0} → (d.State → Result A) → Action A
  look call s = (call s, s)

  unfoldable pub write_info_blob : AzureUpload → UploadInfo → Action (Unit {0})
  write_info_blob u info = do
    json ← lift (outcome_result (codes "serialize info") (d.to_vec_pretty info))
    request u.id (codes "write info") (d.put_block_blob (info_key u) json)

  unfoldable pub read_info_blob : AzureUpload → Action UploadInfo
  read_info_blob u = do
    buf ← look (λ s. answer_result u.id (codes "read info") (d.get_content (info_key u) s))
    lift (outcome_result (codes "deserialize info") (d.from_slice buf))

  unfoldable pub create_upload : Text → UploadInfo → Action AzureUpload
  create_upload prefix info = do
    let u : AzureUpload = record { id = info.id; prefix = prefix }
    write_info_blob u info
    pure u

  unfoldable pub get_upload : Text → UploadId → Action AzureUpload
  get_upload prefix id = do
    let u : AzureUpload = record { id = id; prefix = prefix }
    read_info_blob u
    pure u

  unfoldable pub list_parts : AzureUpload → Action (List Text)
  list_parts u = do
    names ← look (λ s. collect_pages u.id (d.list_blobs (u.prefix ++ (u.id ++ codes "_part_")) s))
    pure (sort_by_index names)

  -- The loop of `commit_blob_names_to_dest` that stages the blobs from the number `i` on, and gives
  -- the list of blocks.
  unfoldable pub stage : UploadId → Text → Text → ℕ → List Text → Action (List ℕ)
  stage id op dest i [] = pure []
  stage id op dest i (source ∷ sources) = do
    content ← look (λ s. answer_result id op (d.get_content source s))
    request id op (d.put_block dest i content)
    blocks ← stage id op dest (i + 1) sources
    pure (i ∷ blocks)

  unfoldable pub commit_blob_names_to_dest : UploadId → Text → Text → List Text → Action (Unit {0})
  commit_blob_names_to_dest id op dest [] = pure tt
  commit_blob_names_to_dest id op dest (source ∷ sources) = do
    blocks ← stage id op dest 0 (source ∷ sources)
    request id op (d.put_block_list dest blocks)

  -- The loops over `delete_blob_best_effort`.
  unfoldable pub delete_all : List Text → d.State → d.State
  delete_all [] s = s
  delete_all (name ∷ names) s = delete_all names (d.delete_blob name s).1

  unfoldable pub commit_and_delete_sources :
      AzureUpload → Text → Text → List Text → Action (Unit {0})
  commit_and_delete_sources u op dest sources = do
    commit_blob_names_to_dest u.id op dest sources
    λ s. (ok tt, delete_all sources s)

  -- One round, which gives the names of the blobs that it made and the counter.
  unfoldable pub commit_chunks : AzureUpload → Text → ℕ → List (List Text) → Action (List Text × ℕ)
  commit_chunks u op counter [] = pure ([], counter)
  commit_chunks u op counter (chunk ∷ rest) = do
    commit_and_delete_sources u op (tmp_key u counter) chunk
    made ← commit_chunks u op (saturating_next counter) rest
    pure (tmp_key u counter ∷ made.0, made.1)

  abbrev pub next_round :
      Result (List Text × ℕ) × d.State
      → (List Text → ℕ → d.State → Option (Result (Unit {0}) × d.State))
      → Option (Result (Unit {0}) × d.State)
  next_round (err e, s) go = some (err e, s)
  next_round (ok made, s) go = go made.0 made.1 s

  -- The loop of `commit_many_blobs`, for as many rounds as `fuel`.
  unfoldable pub rounds :
      (fuel : ℕ)
      → AzureUpload
      → Text
      → Text
      → List Text
      → ℕ
      → d.State
      → Option (Result (Unit {0}) × d.State)
  rounds zero u op dest sources counter s = none
  rounds (suc fuel) u op dest sources counter s =
      if leb (length sources) max_commit_sources
      then some (commit_and_delete_sources u op dest sources s)
      else next_round (commit_chunks u op counter (chunks sources) s) (rounds fuel u op dest)

  -- The result of the loop, which gets as many rounds as there are blobs.
  abbrev pub finished : d.State → Option (Result (Unit {0}) × d.State) → Result (Unit {0}) × d.State
  finished s none = (err (TusError.internal []), s)
  finished s (some out) = out

  unfoldable pub commit_many_blobs : AzureUpload → Text → Text → List Text → Action (Unit {0})
  commit_many_blobs u op dest [] s = (ok tt, s)
  commit_many_blobs u op dest (source ∷ sources) s =
      finished s (rounds (length (source ∷ sources)) u op dest (source ∷ sources) 0 s)

  -- From the reading of the body on.
  unfoldable pub write_part : AzureUpload → UploadInfo → ℕ → Reader → Action ℕ
  write_part u info offset reader = do
    buf ← lift (read_to_end reader)
    end_offset ← lift (end_of info offset (length buf))
    parts ← list_parts u
    request u.id (codes "write part") (d.put_block_blob (part_key u (length parts % 2 ^ 32)) buf)
    write_info_blob u (record info { offset = end_offset })
    pure (length buf)

  unfoldable pub write_chunk : AzureUpload → ℕ → Reader → Action ℕ
  write_chunk u offset reader = do
    info ← read_info_blob u
    if info.offset == offset
        then write_part u info offset reader
        else fail (TusError.offset_mismatch info.offset offset)

  unfoldable pub get_info : AzureUpload → Action UploadInfo
  get_info u = read_info_blob u

  unfoldable pub read_content : AzureUpload → Action Reader
  read_content u = do
    info ← read_info_blob u
    if is_complete info
        then (do
          buf ←
              look (λ s. answer_result u.id (codes "read download") (d.get_content (data_key u) s))
          pure (Reader.bytes buf))
        else fail TusError.upload_not_ready_for_download

  -- An upload without parts gets an empty blob.
  abbrev pub put_together : AzureUpload → List Text → Action (Unit {0})
  put_together u [] = request u.id (codes "write empty final") (d.put_block_blob (data_key u) [])
  put_together u (part ∷ parts) = commit_many_blobs u (codes "finalize") (data_key u) (part ∷ parts)

  unfoldable pub finalize : AzureUpload → Action (Unit {0})
  finalize u = do parts ← list_parts u; put_together u parts

  abbrev pub or_default : Result (List Text) → List Text
  or_default (ok parts) = parts
  or_default (err e) = []

  unfoldable pub delete : AzureUpload → Action (Unit {0})
  delete u s =
      let s1 = delete_all (data_key u ∷ info_key u ∷ []) s in
      let (parts, s2) = list_parts u s1 in (ok tt, delete_all (or_default parts) s2)

  unfoldable pub declare_length : AzureUpload → ℕ → Action (Unit {0})
  declare_length u length = do
    info ← read_info_blob u
    if is_none info.size
        then write_info_blob u (record info { size = some length; size_is_deferred = false })
        else fail TusError.upload_length_already_set

  unfoldable pub concatenate : AzureUpload → List UploadInfo → Action (Unit {0})
  concatenate u partials = do
    commit_many_blobs u (codes "concatenate") (data_key u) (map (λ p. u.prefix ++ p.id) partials)
    let total = sum_sizes partials
    info ← read_info_blob u
    write_info_blob u (record info { size = some total; offset = total; is_final = true })
