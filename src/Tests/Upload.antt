-- ===== src/Tests/Upload.antt =====
-- Identifiers, metadata and numbers.
use fileloft.Base.{
  List, Text, ◌≤◌, ◌<◌, ◌↔◌, ◌≡◌, refl, none, some, [], ◌∷◌, arith, codes, text_eq, starts_with,
  contains, ends_with, rfind, trim, drop_space, trim_start_matches, trim_end_matches, split,
}
use fileloft.Base.Map
use fileloft.Error.{TusError, ok, err, status_code}
use fileloft.Error.Status.{IsInternal, status_code_class}
use fileloft.Info.Id.Safe.{IsSafe, validate_str_iff}
use fileloft.Info.Id.{validate_str, token_collides, any_token, collides_with_reserved_key}
use fileloft.Info.Metadata.{Metadata, Entry, parse, encode}
use fileloft.Info.Metadata.Roundtrip.{
  normalise_found, IsIterator, IsSendable, IsSendable-IsWritable, parse-encode,
}
use fileloft.Info.Id.{parse as parse_id}
use fileloft.Handler.Post.Request.Urls.{extract_all, extract_upload_id_from_url, last_segment}
use fileloft.Handler.Post.Concat.{AllValid}
use fileloft.Handler.Post.Request.Valid.{extract_all-AllValid}
use fileloft.Tests.Samples.{tallies, tallies-IsBase64}

-- Everything that the tests of identifiers compute with.
validating : Unit {0}
unfolding validate_str collides_with_reserved_key any_token token_collides text_eq starts_with
    contains ends_with rfind
validating = tt

accepted :
    (validate_str (codes "my-file") ≡ ok tt)
    × (validate_str (codes "chapter_part_two") ≡ ok tt)
    × (validate_str (codes "report_part_2.pdf") ≡ ok tt)
    × (validate_str (codes "a.b.c") ≡ ok tt)
unfolding validating
accepted = (refl, refl, refl, refl)

rejected :
    (validate_str (codes "a..b") ≡ err TusError.invalid_upload_id)
    × (validate_str (codes "victim.info") ≡ err TusError.invalid_upload_id)
    × (validate_str (codes "victim_part_0") ≡ err TusError.invalid_upload_id)
    × (validate_str (codes "victim_tmp_3") ≡ err TusError.invalid_upload_id)
    × (validate_str (codes "uploads/victim_part_1") ≡ err TusError.invalid_upload_id)
unfolding validating
rejected = (refl, refl, refl, refl, refl)

abbrev sample : Metadata
sample = (codes "name", some (1 ∷ 2 ∷ [])) ∷ (codes "private", none) ∷ (codes "empty", some []) ∷ []

abbrev in_place : Metadata → List Entry
in_place m = m

in_place-IsIterator : IsIterator in_place
in_place-IsIterator = record { once = λ m o. o; get-iterate = λ m key o. refl }

sample-IsSendable : IsSendable tallies sample
unfolding text_eq Map.get
sample-IsSendable = IsSendable-IsWritable tallies sample (ground arith)

parse-encode_example :
    (m' : Metadata) × (parse tallies (encode tallies in_place sample) ≡ ok m')
    × ((key : Text) → Map.get key m' ≡ normalise_found (Map.get key sample))
parse-encode_example =
    parse-encode tallies in_place tallies-IsBase64 in_place-IsIterator sample sample-IsSendable

validate_str_iff_example :
    (validate_str (codes "report_part_2.pdf") ≡ ok tt) ↔ IsSafe (codes "report_part_2.pdf")
validate_str_iff_example = validate_str_iff (codes "report_part_2.pdf")

status_code_class_example :
    (400 ≤ status_code TusError.checksum_mismatch)
    × (status_code TusError.checksum_mismatch < 600)
    × ((500 ≤ status_code TusError.checksum_mismatch) ↔ IsInternal TusError.checksum_mismatch)
status_code_class_example = status_code_class TusError.checksum_mismatch

-- The URL that POST answers with is read back, but not where the base path occurs again.
read_back :
    (extract_upload_id_from_url (codes "/files/my-file") (codes "/files/") ≡ ok (codes "my-file"))
    × (extract_upload_id_from_url (codes "http://h/files/my-file") (codes "/files")
        ≡ ok (codes "my-file"))
    × (extract_upload_id_from_url (codes "/files/files2") (codes "/files") ≡ ok (codes "2"))
unfolding validating extract_upload_id_from_url last_segment parse_id trim drop_space
    trim_start_matches trim_end_matches split
read_back = (refl, refl, refl)

extract_all-AllValid_example : AllValid (codes "a" ∷ codes "b" ∷ [])
unfolding validating extract_all extract_upload_id_from_url last_segment parse_id trim drop_space
    trim_start_matches trim_end_matches split
extract_all-AllValid_example =
    extract_all-AllValid (codes "/files") (codes "/files/a" ∷ codes "http://h/files/b" ∷ [])
      (codes "a" ∷ codes "b" ∷ []) refl
