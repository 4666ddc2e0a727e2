-- ===== src/Handler/Post/Request/Urls.antt =====
-- crates/fileloft-core/src/handler/post.rs: the URLs of a final concatenation.
use fileloft.Base.{
  ◌+◌, Option, none, some, List, [], ◌∷◌, if◌then◌else◌, length, drop, is_empty, Text, codes, rfind,
  strip_prefix, trim, trim_start_matches, trim_end_matches, split, split_whitespace,
}
use fileloft.Error.{TusError, Result, ok, err, ◌>>=◌}
use fileloft.Info.Id.{UploadId, parse}
use fileloft.Util.{unwrap_or, is_slash}

unfoldable pub parse_concat_final_urls : Text → Result (List Text)
parse_concat_final_urls header =
    let urls = split_whitespace (unwrap_or (strip_prefix header (codes "final;")) []) in
    if is_empty urls then err TusError.empty_concatenation else ok urls

-- `path.rsplit('/').next()`
last_or : Text → List Text → Text
last_or d [] = d
last_or d (w ∷ ws) = last_or w ws

unfoldable pub last_segment : Text → Result UploadId
unfolding last_or
last_segment path =
    let id = trim (last_or [] (split b'/' path)) in
    if is_empty id then err TusError.invalid_upload_id else parse id

-- The text behind the last occurrence of the base path, less its leading slashes.
abbrev pub after_base : Text → Text → Option Text
after_base path base = elim (rfind path base) [
  | none ↦ none
  | some pos ↦ some (trim_start_matches is_slash (drop (pos + length base) path))
]

abbrev pub id_after : Option Text → Text → Result UploadId
id_after none path = last_segment path
id_after (some id) path = if is_empty id then last_segment path else parse id

unfoldable pub extract_upload_id_from_url : Text → Text → Result UploadId
extract_upload_id_from_url url base_path =
    let path = trim url in id_after (after_base path (trim_end_matches is_slash base_path)) path

-- `collect::<Result<Vec<_>, _>>()`, which stops at the first error.
abbrev pub collect : Result UploadId → Result (List UploadId) → Result (List UploadId)
collect (err e) rest = err e
collect (ok id) rest = do ids ← rest; ok (id ∷ ids)

-- `urls.into_iter().map(…).collect::<Result<Vec<_>, _>>()`
unfoldable pub extract_all : Text → List Text → Result (List UploadId)
extract_all base_path [] = ok []
extract_all base_path (url ∷ urls) =
    collect (extract_upload_id_from_url url base_path) (extract_all base_path urls)
