-- ===== src/Files/Uploads/Final.antt =====
-- What is read of a final upload.
use fileloft.Base.{◌≡◌, ap, true, List, [], arith}
use fileloft.Error.{ok}
use fileloft.Exec.{◌>>◌}
use fileloft.Info.{UploadInfo, is_complete}
use fileloft.Info.Id.{UploadId, validate}
use fileloft.Info.Codec.{Bytes}
use fileloft.Store.{Reader}
use fileloft.Disk.{Disk}
use fileloft.Disk.Laws.{IsDisk}
use fileloft.Files.Keys.{FileStore, FileUpload}
use fileloft.Files.Keys.Layout.{IsPrefixed}
use fileloft.Files.Store.{concatenate, finalize, read_content}
use fileloft.Files.Uploads.{Keeps}
use fileloft.Files.Uploads.Reading.{IsPlain}
use fileloft.Files.Uploads.Create.{read_content-ok}
use fileloft.Files.Uploads.Moving.{joined}
use fileloft.Files.Uploads.Finalize.{finalize-ok, Keeps-Assembled}
use fileloft.Files.Uploads.Concat.{Contents, final_info, concatenate-ok}

module _ (d : Disk) (l : IsDisk d) (store : FileStore) (prefixed : IsPrefixed store)
    (plain : IsPlain l) (id : UploadId) (valid : validate id ≡ ok tt) (s : d.State)
    (info : UploadInfo) (k : Keeps d l store s id info []) (ps : List UploadInfo) (bs : List Bytes)
    (contents : Contents d l store prefixed s id ps bs) where
  abbrev handle : FileUpload
  handle = record { store = store; id = id }

  complete : is_complete (final_info d l store prefixed id valid info ps) ≡ true
  unfolding is_complete
  complete = ground arith

  -- On a disk that keeps its laws and without strange entries, in a store whose prefix is empty or
  -- ends with a slash: a final upload with a valid identifier and without chunks of its own that
  -- is made of assembled partial uploads, all with valid identifiers other than its own, is read
  -- as their contents in order.
  pub concatenate-read :
      ((concatenate d handle ps >> read_content d handle) s).0 ≡ ok (Reader.bytes (joined bs))
  concatenate-read =
      let (s1, done, k1, content, t) =
        concatenate-ok d l store prefixed id valid plain s info k ps bs contents in
      rw done (
        ap (λ r. r.0)
          (read_content-ok d l store prefixed id valid plain s1 _ [] k1 (joined bs) complete
            content))

  -- On a disk that keeps its laws and without strange entries, in a store whose prefix is empty or
  -- ends with a slash, for a final upload with a valid identifier and without chunks of its own
  -- that is made of assembled partial uploads, all with valid identifiers other than its own: when
  -- it is also put together, as the creation of a final upload does, it is read as empty, whatever
  -- the partial uploads held.
  pub concatenate-finalize-read :
      ((concatenate d handle ps >> (finalize d handle >> read_content d handle)) s).0
      ≡ ok (Reader.bytes [])
  concatenate-finalize-read =
      let (s1, done, k1, content, t) =
        concatenate-ok d l store prefixed id valid plain s info k ps bs contents in
      let (s2, done2, a) = finalize-ok d l store prefixed id valid plain s1 _ [] k1 in
      let k2 = Keeps-Assembled d l store prefixed id valid s1 s2 _ [] [] k1 a in
      rw done (
        rw done2 (
          ap (λ r. r.0)
            (read_content-ok d l store prefixed id valid plain s2 _ [] k2 [] complete a.assembled)))
