-- ===== src/Handler/Post/Request/Valid.antt =====
-- The identifiers that a final concatenation names are valid ones.
use fileloft.Base.{
  refl, subst, trim, trim_end_matches, ◌≡◌, Option, none, some, List, [], ◌∷◌, Text, is_empty,
  if◌then◌else◌,
}
use fileloft.Error.{TusError, Result, ok, err}
use fileloft.Info.Id.{UploadId, validate, parse}
use fileloft.Util.{is_slash}
use fileloft.Handler.Base.{request_id}
use fileloft.Handler.Named.{request_id-validate}
use fileloft.Handler.Post.Concat.{AllValid}
use fileloft.Handler.Post.Request.Urls.{
  last_segment, after_base, id_after, collect, extract_upload_id_from_url, extract_all,
}

parse-validate : (value : Text) (id : UploadId) → parse value ≡ ok id → validate id ≡ ok tt
parse-validate value id e = request_id-validate (some value) id (unfold request_id in e)

unless_empty-validate :
    (found id : Text) (fallback : Result UploadId)
    → (fallback ≡ ok id → validate id ≡ ok tt)
    → (if is_empty found then fallback else parse found) ≡ ok id
    → validate id ≡ ok tt
unless_empty-validate [] id fallback valid e = valid e
unless_empty-validate (c ∷ found) id fallback valid e = parse-validate (c ∷ found) id e

last_segment-validate :
    (path : Text) (id : UploadId) → last_segment path ≡ ok id → validate id ≡ ok tt
unfolding last_segment
last_segment-validate path id e =
    unless_empty-validate _ id (err TusError.invalid_upload_id) (λ bad. cc) e

id_after-validate :
    (found : Option Text) (path : Text) (id : UploadId)
    → id_after found path ≡ ok id
    → validate id ≡ ok tt
id_after-validate none path id e = last_segment-validate path id e
id_after-validate (some found) path id e =
    unless_empty-validate found id (last_segment path) (last_segment-validate path id) e

extract_upload_id_from_url-validate :
    (url base_path : Text) (id : UploadId)
    → extract_upload_id_from_url url base_path ≡ ok id
    → validate id ≡ ok tt
unfolding extract_upload_id_from_url
extract_upload_id_from_url-validate url base_path id e =
    id_after-validate (after_base (trim url) (trim_end_matches is_slash base_path)) (trim url) id e

collect-AllValid :
    (first : Result UploadId) (rest : Result (List UploadId)) (ids : List UploadId)
    → ((id : UploadId) → first ≡ ok id → validate id ≡ ok tt)
    → ((more : List UploadId) → rest ≡ ok more → AllValid more)
    → collect first rest ≡ ok ids
    → AllValid ids
collect-AllValid (err why) rest ids one all e = cc
collect-AllValid (ok id) (err why) ids one all e = cc
collect-AllValid (ok id) (ok more) ids one all e =
    let same : id ∷ more ≡ ids = cc in subst AllValid same (one id refl, all more refl)

-- Every identifier that is read from the URLs of a final concatenation is a valid one.
pub extract_all-AllValid :
    (base_path : Text) (urls : List Text) (ids : List UploadId)
    → extract_all base_path urls ≡ ok ids
    → AllValid ids
unfolding extract_all
extract_all-AllValid base_path [] ids e = let same : [] ≡ ids = cc in subst AllValid same tt
extract_all-AllValid base_path (url ∷ urls) ids e =
    collect-AllValid (extract_upload_id_from_url url base_path) (extract_all base_path urls) ids
      (λ id read. extract_upload_id_from_url-validate url base_path id read)
      (λ more read. extract_all-AllValid base_path urls more read) e
