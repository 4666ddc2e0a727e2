-- ===== src/Tests/Files.antt =====
-- The file store on a disk in memory.
use fileloft.Base.{
  ◌≡◌, ◌≢◌, refl, sym, ◌∙◌, subst, false, none, some, List, [], ◌∷◌, ◌++◌, arith, Text, codes,
  text_eq, text_eq_iff, starts_with, contains, ends_with, rfind, split,
}
use fileloft.Error.{TusError, Result, ok, err}
use fileloft.Exec.{◌>>◌}
use fileloft.Info.{UploadInfo, new}
use fileloft.Info.Id.{validate, validate_str, token_collides, any_token, collides_with_reserved_key}
use fileloft.Info.Codec.{Bytes}
use fileloft.Store.{Reader}
use fileloft.Files.Keys.{FileStore, FileUpload, with_prefix, key_to_path, nonempty, parent}
use fileloft.Files.Keys.Layout.{folder_of, with_prefix-IsPrefixed, IsPrefixed}
use fileloft.Files.Keys.Separate.{is_info, names_separate}
use fileloft.Files.Uploads.{Keeps}
use fileloft.Files.Uploads.Reading.{IsPlain}
use fileloft.Files.Uploads.Apart.{Touches, Keeps-Touches}
use fileloft.Files.Uploads.Create.{IsFresh, IsFresh-Touches, create_upload-ok}
use fileloft.Files.Uploads.Chunks.{write_chunk-Keeps, write_chunk-others}
use fileloft.Files.Uploads.Life.{finalize-joined, whole_life, whole_life-joined}
use fileloft.Files.Uploads.Others.{
  Runs-others, Runs, written, finalized, concatenated, at_rest, and_then,
}
use fileloft.Files.Uploads.Concat.{Contents}
use fileloft.Files.Uploads.Delete.{delete-not_found}
use fileloft.Files.Uploads.Final.{concatenate-read, concatenate-finalize-read}
use fileloft.Files.Store.{
  create_upload, get_upload, delete, write_chunk, concatenate, finalize, read_content,
}
use fileloft.Tests.Codec.{to_vec, put_all}
use fileloft.Tests.Folder.{path_eq, unsnoc}
use fileloft.Tests.Framed.{drive-IsFramed}
use fileloft.Tests.Drive.{
  Folders, drive, drive-IsDisk, blank, file-blank, drive-IsPlain, folder-eq, is_there,
}

abbrev folder : FileStore
folder = with_prefix (codes "data" ∷ []) (codes "up")

abbrev prefixed : IsPrefixed folder
prefixed = with_prefix-IsPrefixed (codes "data" ∷ []) (codes "up")

abbrev plain : IsPlain drive-IsDisk
plain = drive-IsPlain

valid_a : validate (codes "a") ≡ ok tt
unfolding validate validate_str collides_with_reserved_key any_token token_collides text_eq
    starts_with contains ends_with rfind
valid_a = refl

valid_w : validate (codes "w") ≡ ok tt
unfolding validate validate_str collides_with_reserved_key any_token token_collides text_eq
    starts_with contains ends_with rfind
valid_w = refl

apart : codes "w" ≢ codes "a"
apart e = ground (arith, (text_eq_iff (codes "w") (codes "a")).1 e)

abbrev pieces : List Bytes
pieces = codes "he" ∷ codes "llo" ∷ []

abbrev w_info : UploadInfo
w_info = new (codes "w") none

abbrev a_info : UploadInfo
a_info = new (codes "a") (some 5)

names_separate_example : codes "a" ≡ codes "a"
names_separate_example =
    names_separate (codes "a") (codes "a") (codes "a.info") valid_a valid_a (is_info refl)
      (is_info refl)

whole_life-joined_example :
    (whole_life drive drive-IsDisk folder prefixed plain a_info valid_a pieces blank).0
    ≡ ok (Reader.bytes (codes "hello"))
whole_life-joined_example =
    whole_life-joined drive drive-IsDisk folder prefixed plain a_info valid_a pieces blank
      (λ name n b there index. file-blank _ b there) refl refl (omega arith) (omega arith)

abbrev Kept : Folders → Text → UploadInfo → List Bytes → Type 0
Kept s id info waiting = Keeps drive drive-IsDisk folder s id info waiting

abbrev upload : Text → FileUpload
upload id = record { store = folder; id = id }

module _ (info : UploadInfo) (valid : validate info.id ≡ ok tt) (s : Folders)
    (fresh : IsFresh drive drive-IsDisk folder prefixed s info.id) where
  abbrev created_on : Folders
  created_on = (create_upload drive folder info s).1

  created_on-Kept :
      Kept created_on info.id info [] × Touches drive drive-IsDisk folder info.id s created_on
  created_on-Kept =
      let (s1, done, k, t) =
        create_upload-ok drive drive-IsDisk folder prefixed info valid s fresh in
      subst
        (λ (r : Result FileUpload × Folders).
          Kept r.1 info.id info [] × Touches drive drive-IsDisk folder info.id s r.1)
        (sym done) (k, t)

blank-IsFresh : (id : Text) → IsFresh drive drive-IsDisk folder prefixed blank id
blank-IsFresh id name n b there index = file-blank (folder_of folder ++ name ∷ []) b there

-- The disk after `w` was created, and after `a` was created as well.
abbrev made : Folders
made = created_on w_info valid_w blank (blank-IsFresh (codes "w"))

made-w : Kept made (codes "w") w_info []
made-w = (created_on-Kept w_info valid_w blank (blank-IsFresh (codes "w"))).0

made-IsFresh : IsFresh drive drive-IsDisk folder prefixed made (codes "a")
made-IsFresh =
    IsFresh-Touches drive drive-IsDisk folder prefixed (codes "w") (codes "a") valid_w valid_a apart
      blank made (created_on-Kept w_info valid_w blank (blank-IsFresh (codes "w"))).1
      (blank-IsFresh (codes "a"))

abbrev both : Folders
both = created_on a_info valid_a made made-IsFresh

both-a : Kept both (codes "a") a_info []
both-a = (created_on-Kept a_info valid_a made made-IsFresh).0

apart_back : codes "a" ≢ codes "w"
apart_back e = apart (sym e)

both-w : Kept both (codes "w") w_info []
both-w =
    Keeps-Touches drive drive-IsDisk folder (codes "a") (codes "w") valid_a valid_w apart_back made
      both (created_on-Kept a_info valid_a made made-IsFresh).1 w_info [] made-w

-- The disk after `a` was sent a chunk.
abbrev sent : Folders
sent = (write_chunk drive (upload (codes "a")) 0 (Reader.bytes (codes "hello")) both).1

abbrev a_full : UploadInfo
a_full = record a_info { offset = 5 }

sent-a : Kept sent (codes "a") a_full (codes "hello" ∷ [])
sent-a =
    (write_chunk-Keeps drive drive-IsDisk folder prefixed plain (codes "a") valid_a both a_info []
      (codes "hello") 5 both-a (omega arith) refl).1

sent-w : Kept sent (codes "w") w_info []
sent-w =
    (write_chunk-others drive drive-IsDisk folder prefixed plain (codes "a") valid_a both a_info []
      (codes "hello") 5 both-a (omega arith) refl (codes "w") w_info [] valid_w apart_back both-w).0

write_chunk-Keeps_example :
    ((write_chunk drive (upload (codes "a")) 0 (Reader.bytes (codes "hello")) both).0 ≡ ok 5)
    × Kept sent (codes "a") a_full (codes "hello" ∷ [])
write_chunk-Keeps_example =
    write_chunk-Keeps drive drive-IsDisk folder prefixed plain (codes "a") valid_a both a_info []
      (codes "hello") 5 both-a (omega arith) refl

-- The disk after `a` was put together.
abbrev done_a : Folders
done_a = (finalize drive (upload (codes "a")) sent).1

finalize-joined_example :
    ((finalize drive (upload (codes "a")) sent).0 ≡ ok tt)
    × (drive-IsDisk.file done_a (folder_of folder ++ codes "a" ∷ []) ≡ some (codes "hello"))
    × Kept done_a (codes "a") a_full []
finalize-joined_example =
    finalize-joined drive drive-IsDisk folder prefixed plain (codes "a") valid_a sent a_full
      (codes "hello" ∷ []) sent-a

-- On the way a chunk is refused, and afterwards a concatenation of an upload that is not there
-- fails.
abbrev broken : Folders
broken =
    (concatenate drive (upload (codes "a")) (new (codes "no") none ∷ [])
      (finalize drive (upload (codes "a"))
        (write_chunk drive (upload (codes "a")) 3 (Reader.bytes (codes "x")) sent).1).1).1

abbrev run_a : Runs drive folder (codes "w") sent broken
run_a =
    and_then (codes "a") _ broken
      (and_then (codes "a") _ _
        (and_then (codes "a") sent _ at_rest valid_a apart_back
          (written 3 (Reader.bytes (codes "x"))))
        valid_a apart_back finalized)
      valid_a apart_back (concatenated (new (codes "no") none ∷ []))

Runs-others_example :
    Kept broken (codes "w") w_info []
    × (drive-IsDisk.file broken (folder_of folder ++ codes "w" ∷ [])
        ≡ drive-IsDisk.file sent (folder_of folder ++ codes "w" ∷ []))
Runs-others_example =
    Runs-others drive drive-IsDisk drive-IsFramed folder prefixed (codes "w") valid_w w_info [] sent
      broken run_a sent-w

done_a-w : Kept done_a (codes "w") w_info []
done_a-w =
    (Runs-others drive drive-IsDisk drive-IsFramed folder prefixed (codes "w") valid_w w_info []
      sent done_a (and_then (codes "a") sent done_a at_rest valid_a apart_back finalized) sent-w).0

content :
    Contents drive drive-IsDisk folder prefixed done_a
      (codes "w")
      (a_full ∷ [])
      (codes "hello" ∷ [])
content = (
  valid_a,
  apart,
  (finalize-joined drive drive-IsDisk folder prefixed plain (codes "a") valid_a sent a_full
      (codes "hello" ∷ []) sent-a).1,
  tt,
)

concatenate-read_example :
    ((concatenate drive (upload (codes "w")) (a_full ∷ [])
        >> read_content drive (upload (codes "w")))
      done_a).0
    ≡ ok (Reader.bytes (codes "hello"))
concatenate-read_example =
    concatenate-read drive drive-IsDisk folder prefixed plain (codes "w") valid_w done_a w_info
      done_a-w (a_full ∷ []) (codes "hello" ∷ []) content

concatenate-finalize-read_example :
    ((concatenate drive (upload (codes "w")) (a_full ∷ [])
        >> (finalize drive (upload (codes "w")) >> read_content drive (upload (codes "w"))))
      done_a).0
    ≡ ok (Reader.bytes [])
concatenate-finalize-read_example =
    concatenate-finalize-read drive drive-IsDisk folder prefixed plain (codes "w") valid_w done_a
      w_info done_a-w (a_full ∷ []) (codes "hello" ∷ []) content

-- The disk after `w` was deleted.
abbrev gone : Folders
gone = (delete drive (upload (codes "w")) made).1

made-file : is_there (made (folder_of folder ++ codes "w.info" ∷ [])) ≡ false
unfolding create_upload validate validate_str collides_with_reserved_key any_token token_collides
    text_eq starts_with contains ends_with rfind key_to_path with_prefix split nonempty parent
    folder_of to_vec path_eq unsnoc put_all
made-file = refl

made-content : is_there (made (folder_of folder ++ codes "w" ∷ [])) ≡ false
unfolding create_upload validate validate_str collides_with_reserved_key any_token token_collides
    text_eq starts_with contains ends_with rfind key_to_path with_prefix split nonempty parent
    folder_of to_vec path_eq unsnoc put_all
made-content = refl

delete-not_found_example :
    ((delete drive (upload (codes "w")) made).0 ≡ ok tt)
    × (get_upload drive folder (codes "w") gone ≡ (err (TusError.not_found (codes "w")), gone))
    × (drive-IsDisk.file gone (folder_of folder ++ codes "w" ∷ []) ≡ none)
    × (drive-IsDisk.file gone (folder_of folder ++ codes "w.info" ∷ []) ≡ none)
    × IsFresh drive drive-IsDisk folder prefixed gone (codes "w")
delete-not_found_example =
    delete-not_found drive drive-IsDisk folder prefixed (codes "w") valid_w plain made w_info []
      made-w (folder-eq made (folder_of folder ++ codes "w" ∷ []) ∙ made-content)
      (folder-eq made (folder_of folder ++ codes "w.info" ∷ []) ∙ made-file)
