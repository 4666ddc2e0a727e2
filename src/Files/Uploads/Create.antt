-- ===== src/Files/Uploads/Create.antt =====
-- Creating an upload, and reading what was put together.
use fileloft.Base.{
  ℕ, ◌≡◌, ◌≢◌, refl, ap, sym, ◌∙◌, true, some, List, [], ◌∷◌, ◌++◌, arith, Text, codes,
}
use fileloft.Error.{ok}
use fileloft.Info.{UploadInfo, is_complete}
use fileloft.Info.Id.{UploadId, validate}
use fileloft.Info.Codec.{Bytes, Outcome}
use fileloft.Store.{Reader}
use fileloft.Disk.{FilePath, Disk, IoResult}
use fileloft.Disk.Laws.{IsDisk}
use fileloft.Files.Keys.{FileStore, FileUpload, part_index, part_name}
use fileloft.Files.Keys.Layout.{folder_of, IsPrefixed, entry_inj, parent-append}
use fileloft.Files.Keys.Separate.{is_info, safe, info-ne-part}
use fileloft.Files.Keys.Foreign.{part_index-info}
use fileloft.Files.Store.{create_upload, read_content}
use fileloft.Files.Uploads.{Keeps, info_path-eq, data_path-eq}
use fileloft.Files.Uploads.Apart.{Touches, not_own}
use fileloft.Files.Uploads.Reading.{IsPlain, read_info-Keeps}

module _ (d : Disk) (l : IsDisk d) (store : FileStore) (prefixed : IsPrefixed store) where
  -- No file of the store is read as a part of the upload.
  abbrev pub IsFresh : d.State → UploadId → Type 0
  IsFresh s id =
      (name : Text) (n : ℕ) (b : Bytes)
      → l.file s (folder_of store ++ name ∷ []) ≡ some b
      → part_index id name ≢ some n

  -- A change to another upload's files makes no part.
  pub IsFresh-Touches :
      (id j : UploadId) (valid : validate id ≡ ok tt) (valid_j : validate j ≡ ok tt)
      (apart : id ≢ j) (s s' : d.State) (touched : Touches d l store id s s')
      → IsFresh s j
      → IsFresh s' j
  IsFresh-Touches id j valid valid_j apart s s' touched fresh name n b there index =
      fresh name n b
        (sym (touched name (not_own d l store id j valid valid_j apart s s' touched name n index))
          ∙ there)
        index

  module _ (id : UploadId) (valid : validate id ≡ ok tt) where
    abbrev handle : FileUpload
    handle = record { store = store; id = id }

    abbrev dir : FilePath
    dir = folder_of store

    -- What an upload becomes when its `.info` file is written.
    pub Keeps-saved :
        (s s' : d.State) (info grown : UploadInfo) (json : Bytes) (chunks : List Bytes)
        → l.file s' (dir ++ (id ++ codes ".info") ∷ []) ≡ some json
        → d.from_slice json ≡ Outcome.done grown
        → ((q : FilePath) → dir ++ (id ++ codes ".info") ∷ [] ≢ q → l.file s' q ≡ l.file s q)
        → Keeps d l store s id info chunks
        → Keeps d l store s' id grown chunks
    Keeps-saved s s' info grown json chunks stored decodes elsewhere k = record {
      json = json;
      stored = stored;
      decodes = decodes;
      chunk = λ n b e.
          elsewhere _ (λ q.
            info-ne-part id id (safe id valid) n
              (entry_inj dir (id ++ codes ".info") (part_name id n) q))
          ∙ k.chunk n b e;
      only = λ name n b there index.
          k.only name n b
            (sym (
                elsewhere _ (λ e.
                  part_index-info id id valid n
                    (ap (part_index id) (entry_inj dir (id ++ codes ".info") name e) ∙ index)))
              ∙ there)
            index;
      few = k.few;
    }

    Touches-saved :
        (s s' : d.State)
        → ((q : FilePath) → dir ++ (id ++ codes ".info") ∷ [] ≢ q → l.file s' q ≡ l.file s q)
        → Touches d l store id s s'
    Touches-saved s s' elsewhere name foreign =
        elsewhere (dir ++ name ∷ [])
          (λ e. foreign (is_info (sym (entry_inj dir (id ++ codes ".info") name e))))

    module _ (plain : IsPlain l) (s : d.State) (info : UploadInfo) (chunks : List Bytes)
        (k : Keeps d l store s id info chunks) where
      pub read_content-ok :
          (content : Bytes)
          → is_complete info ≡ true
          → l.file s (dir ++ id ∷ []) ≡ some content
          → read_content d handle s ≡ (ok (Reader.bytes content), s)
      unfolding read_content
      read_content-ok content complete there =
          rw (read_info-Keeps d l plain store prefixed id valid s info chunks k) (
            rw (complete, data_path-eq store prefixed id valid)
              (rw (l.try_exists_file _ content s there) (rw (l.read_some _ content s there) refl)))

  module _ (info : UploadInfo) (valid : validate info.id ≡ ok tt) where
    abbrev id : UploadId
    id = info.id

    run-create :
        (s s1 s2 : d.State) (json : Bytes)
        → d.create_dir_all (folder_of store) s ≡ (IoResult.done tt, s1)
        → d.to_vec info ≡ Outcome.done json
        → d.write ((folder_of store) ++ (id ++ codes ".info") ∷ []) json s1 ≡ (IoResult.done tt, s2)
        → create_upload d store info s ≡ (ok (record { store = store; id = id }), s2)
    unfolding create_upload
    run-create s s1 s2 json made encoded put =
        rw (valid, info_path-eq store prefixed id valid)
          (rw (parent-append (folder_of store) (id ++ codes ".info"))
            (rw made (rw encoded (rw put refl))))

    pub create_upload-ok :
        (s : d.State)
        → IsFresh s id
        → (s' : d.State) × (create_upload d store info s
            ≡ (ok (record { store = store; id = id }), s'))
          × Keeps d l store s' id info []
          × Touches d l store id s s'
    create_upload-ok s fresh =
        let (s1, made, opened1, same1) = l.create_dir_all_lem (folder_of store) s in
        let (json, encoded, decoded) = l.from_slice-to_vec info in
        let (s2, put, there, else2) =
          l.write_lem (folder_of store) (id ++ codes ".info") json s1 opened1 in
        let elsewhere =
          λ (q : FilePath) (other : (folder_of store) ++ (id ++ codes ".info") ∷ [] ≢ q).
            else2 q other ∙ same1 q in
        (
          s2,
          run-create s s1 s2 json made encoded put,
          record {
            json = json;
            stored = there;
            decodes = decoded;
            chunk = λ n b e. cc;
            only = λ name n b at_name index. absurd (
                fresh name n b
                  (sym (
                      elsewhere _ (λ e. part_index-info id id valid n (
                        ap (part_index id)
                          (entry_inj (folder_of store) (id ++ codes ".info") name e)
                        ∙ index)))
                    ∙ at_name)
                  index);
            few = omega arith;
          },
          Touches-saved id valid s s2 elsewhere,
        )
