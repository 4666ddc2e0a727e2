-- ===== src/Gcs.antt =====
-- crates/fileloft-store-gcs/src/store.rs: uploads as the objects of a bucket, whose service is a
-- parameter. A chunk is one object; the objects are composed by the service when an upload ends.
pub mod Chunks
pub mod Limits
use fileloft.Base.{
  ℕ, ◌+◌, ◌%◌, ◌^◌, ◌==◌, Bool, true, false, not, ◌&&◌, ◌||◌, Option, none, some, List, [], ◌∷◌,
  ◌++◌, map, if◌then◌else◌, ltb, leb, is_empty, length, Text, codes, to_string, ends_with, split,
}
use fileloft.Error.{TusError, Result, ok, err}
use fileloft.Exec.{Exec, pure, fail, lift, ◌>>=◌, ◌>>◌}
use fileloft.Info.{UploadInfo, is_complete, is_none}
use fileloft.Info.Id.{UploadId}
use fileloft.Info.Codec.{Bytes, Outcome}
use fileloft.Store.{Reader, read_to_end}
use fileloft.Files.Keys.{parse_u32}
use fileloft.Files.Store.{end_of, sum_sizes}
use Chunks.{chunks}

-- `google_cloud_storage::Error`, of which the code reads the HTTP status and the gRPC code.
pub record GcsError : Type 0 where
  pub http_status_code : Option ℕ
  pub rpc_code : Option ℕ
  pub text : Text

pub data Reply (A : Type 0) : Type 0 where
  done : A → Reply A
  failed : GcsError → Reply A

-- The service. What is read comes in pieces, and a listing in pages: the replies to its requests,
-- each with the token of the page before, up to the page without a token.
pub record Bucket : Type 1 where
  pub State : Type 0
  pub write_object : Text → Bytes → State → Reply (Unit {0}) × State
  pub read_object : Text → State → Reply (List (Outcome Bytes))
  pub list_objects : Text → State → List (Reply (List Text))
  pub compose_object : Text → List Text → State → Reply (Unit {0}) × State
  pub delete_object : Text → State → Reply (Unit {0}) × State
  pub to_vec_pretty : UploadInfo → Outcome Bytes
  pub from_slice : Bytes → Outcome UploadInfo

pub record GcsUpload : Type 0 where
  pub id : UploadId
  pub prefix : Text

abbrev pub max_compose_sources : ℕ
max_compose_sources = 32

-- The prefix as `GcsStoreBuilder::build` leaves it.
unfoldable pub build_prefix : Text → Text
build_prefix prefix =
    if not (is_empty prefix) && not (ends_with prefix (codes "/"))
    then prefix ++ codes "/"
    else prefix

abbrev pub data_key : GcsUpload → Text
data_key u = u.prefix ++ u.id

abbrev pub info_key : GcsUpload → Text
info_key u = u.prefix ++ (u.id ++ codes ".info")

abbrev pub part_key : GcsUpload → ℕ → Text
part_key u index = u.prefix ++ (u.id ++ (codes "_part_" ++ to_string index))

abbrev pub tmp_key : GcsUpload → ℕ → Text
tmp_key u i = u.prefix ++ (u.id ++ (codes "_tmp_" ++ to_string i))

-- `rsplit('_').next()`, `parse` and `unwrap_or(0)`
abbrev last_of : Text → List Text → Text
last_of w [] = w
last_of w (v ∷ ws) = last_of v ws

abbrev number_or_zero : Option ℕ → ℕ
number_or_zero none = 0
number_or_zero (some n) = n

unfoldable pub part_index : Text → ℕ
part_index key = number_or_zero (parse_u32 (last_of [] (split b'_' key)))

unfoldable pub insert_sorted : Text → List Text → List Text
insert_sorted key [] = key ∷ []
insert_sorted key (k ∷ keys) =
    if leb (part_index key) (part_index k) then key ∷ k ∷ keys else k ∷ insert_sorted key keys

-- `names.sort_by`, which is stable.
unfoldable pub sort_by_index : List Text → List Text
sort_by_index [] = []
sort_by_index (key ∷ keys) = insert_sorted key (sort_by_index keys)

abbrev pub equals : Option ℕ → ℕ → Bool
equals none m = false
equals (some n) m = n == m

unfoldable pub is_not_found : GcsError → Bool
is_not_found e = equals e.http_status_code 404 || equals e.rpc_code 5

unfoldable pub gcs_err : GcsError → Text → Text → TusError
gcs_err e upload_id op =
    if is_not_found e
    then TusError.not_found upload_id
    else TusError.internal (codes "GCS " ++ (op ++ (codes ": " ++ e.text)))

abbrev pub reply_result : {A : Type 0} → Text → Text → Reply A → Result A
reply_result id op (Reply.done a) = ok a
reply_result id op (Reply.failed e) = err (gcs_err e id op)

-- `map_err(|e| TusError::Internal(format!("{what}: {e}")))`
abbrev pub outcome_result : {A : Type 0} → Text → Outcome A → Result A
outcome_result what (Outcome.done a) = ok a
outcome_result what (Outcome.failed why) = err (TusError.internal (what ++ (codes ": " ++ why)))

-- The loop that puts the pieces of an object together.
unfoldable pub collect : Text → List (Outcome Bytes) → Result Bytes
collect what [] = ok []
collect what (Outcome.failed why ∷ pieces) = err (TusError.internal (what ++ (codes ": " ++ why)))
collect what (Outcome.done piece ∷ pieces) = elim (collect what pieces) [
  | err e ↦ err e
  | ok rest ↦ ok (piece ++ rest)
]

abbrev pub named : List Text → List Text
named [] = []
named (name ∷ names) = let rest = named names in if is_empty name then rest else name ∷ rest

-- The loop over the pages of a listing.
unfoldable pub collect_pages : UploadId → List (Reply (List Text)) → Result (List Text)
collect_pages id [] = ok []
collect_pages id (Reply.failed e ∷ pages) = err (gcs_err e id (codes "list parts"))
collect_pages id (Reply.done names ∷ pages) = elim (collect_pages id pages) [
  | err e ↦ err e
  | ok rest ↦ ok (named names ++ rest)
]

module _ (d : Bucket) where
  abbrev pub Action : Type 0 → Type 0
  Action A = Exec d.State A

  -- A request that changes the bucket, and one that only reads it.
  abbrev pub request : {A : Type 0} → UploadId → Text → (d.State → Reply A × d.State) → Action A
  request id op call s = let (r, s') = call s in (reply_result id op r, s')

  abbrev pub look : {A : Type 0} → (d.State → Result A) → Action A
  look call s = (call s, s)

  unfoldable pub write_info_object : GcsUpload → UploadInfo → Action (Unit {0})
  write_info_object u info = do
    json ← lift (outcome_result (codes "serialize info") (d.to_vec_pretty info))
    request u.id (codes "write info") (d.write_object (info_key u) json)

  unfoldable pub read_info_object : GcsUpload → Action UploadInfo
  read_info_object u = do
    pieces ← look (λ s. reply_result u.id (codes "read info") (d.read_object (info_key u) s))
    buf ← lift (collect (codes "GCS read chunk") pieces)
    lift (outcome_result (codes "deserialize info") (d.from_slice buf))

  unfoldable pub create_upload : Text → UploadInfo → Action GcsUpload
  create_upload prefix info = do
    let u : GcsUpload = record { id = info.id; prefix = prefix }
    write_info_object u info
    pure u

  unfoldable pub get_upload : Text → UploadId → Action GcsUpload
  get_upload prefix id = do
    let u : GcsUpload = record { id = id; prefix = prefix }
    read_info_object u
    pure u

  unfoldable pub list_parts : GcsUpload → Action (List Text)
  list_parts u = do
    names ← look (λ s. collect_pages u.id (d.list_objects (u.prefix ++ (u.id ++ codes "_part_")) s))
    pure (sort_by_index names)

  unfoldable pub compose_chunk : GcsUpload → Text → List Text → Action (Unit {0})
  compose_chunk u dest_key [] = pure tt
  compose_chunk u dest_key (key ∷ keys) =
      request u.id (codes "compose") (d.compose_object dest_key (key ∷ keys))

  -- The loop over the chunks, which gives the names of the intermediate objects.
  unfoldable pub compose_chunks : GcsUpload → ℕ → List (List Text) → Action (List Text)
  compose_chunks u i [] = pure []
  compose_chunks u i (chunk ∷ rest) = do
    compose_chunk u (tmp_key u i) chunk
    keys ← compose_chunks u (i + 1) rest
    pure (tmp_key u i ∷ keys)

  -- The composition that `finalize` and `concatenate` share.
  unfoldable pub compose_all : GcsUpload → List Text → Action (Unit {0})
  compose_all u keys =
      if leb (length keys) max_compose_sources then compose_chunk u (data_key u) keys else (do
        intermediates ← compose_chunks u 0 (chunks keys)
        compose_chunk u (data_key u) intermediates)

  -- From the reading of the body on.
  unfoldable pub write_part : GcsUpload → UploadInfo → ℕ → Reader → Action ℕ
  write_part u info offset reader = do
    buf ← lift (read_to_end reader)
    end_offset ← lift (end_of info offset (length buf))
    parts ← list_parts u
    request u.id (codes "write part") (d.write_object (part_key u (length parts % 2 ^ 32)) buf)
    write_info_object u (record info { offset = end_offset })
    pure (length buf)

  unfoldable pub write_chunk : GcsUpload → ℕ → Reader → Action ℕ
  write_chunk u offset reader = do
    info ← read_info_object u
    if info.offset == offset
        then write_part u info offset reader
        else fail (TusError.offset_mismatch info.offset offset)

  unfoldable pub get_info : GcsUpload → Action UploadInfo
  get_info u = read_info_object u

  unfoldable pub read_content : GcsUpload → Action Reader
  read_content u = do
    info ← read_info_object u
    if is_complete info
        then (do
          pieces ←
              look (λ s. reply_result u.id (codes "read download") (d.read_object (data_key u) s))
          buf ← lift (collect (codes "GCS read download") pieces)
          pure (Reader.bytes buf))
        else fail TusError.upload_not_ready_for_download

  -- An upload without parts gets an empty object.
  abbrev pub empty_result : Reply (Unit {0}) → Result (Unit {0})
  empty_result (Reply.done _) = ok tt
  empty_result (Reply.failed e) =
      err (TusError.internal (codes "GCS write empty final: " ++ e.text))

  abbrev pub put_together : GcsUpload → List Text → Action (Unit {0})
  put_together u [] s = let (r, s') = d.write_object (data_key u) [] s in (empty_result r, s')
  put_together u (part ∷ parts) s = compose_all u (part ∷ parts) s

  unfoldable pub finalize : GcsUpload → Action (Unit {0})
  finalize u = do parts ← list_parts u; put_together u parts

  -- Errors of deletions are ignored, and so are those of the listing.
  unfoldable pub delete_all : List Text → d.State → d.State
  delete_all [] s = s
  delete_all (key ∷ keys) s = delete_all keys (d.delete_object key s).1

  abbrev pub or_default : Result (List Text) → List Text
  or_default (ok parts) = parts
  or_default (err e) = []

  unfoldable pub delete : GcsUpload → Action (Unit {0})
  delete u s =
      let s1 = delete_all (data_key u ∷ info_key u ∷ []) s in
      let (parts, s2) = list_parts u s1 in (ok tt, delete_all (or_default parts) s2)

  unfoldable pub declare_length : GcsUpload → ℕ → Action (Unit {0})
  declare_length u length = do
    info ← read_info_object u
    if is_none info.size
        then write_info_object u (record info { size = some length; size_is_deferred = false })
        else fail TusError.upload_length_already_set

  unfoldable pub concatenate : GcsUpload → List UploadInfo → Action (Unit {0})
  concatenate u partials = do
    compose_all u (map (λ p. u.prefix ++ p.id) partials)
    let total = sum_sizes partials
    info ← read_info_object u
    write_info_object u (record info { size = some total; offset = total; is_final = true })
