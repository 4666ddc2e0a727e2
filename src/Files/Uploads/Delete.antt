-- ===== src/Files/Uploads/Delete.antt =====
-- Deleting an upload: none of its files is left.
use fileloft.Base.{
  ℕ, ◌≡◌, ◌≢◌, refl, ap, sym, ◌∙◌, subst, arith, inl, inr, false, none, some, List, [], ◌∷◌, ◌++◌,
  Text, codes, length,
}
use fileloft.Error.{TusError, Result, ok, err}
use fileloft.Info.{UploadInfo}
use fileloft.Info.Id.{UploadId, validate}
use fileloft.Info.Codec.{Bytes}
use fileloft.Disk.{FilePath, Disk}
use fileloft.Disk.Laws.{IsDisk}
use fileloft.Files.Keys.{FileStore, part_index, part_name}
use fileloft.Files.Keys.Layout.{folder_of, IsPrefixed, entry_inj}
use fileloft.Files.Keys.Separate.{is_assembled, is_info, is_part, safe, id-ne-part, info-ne-part}
use fileloft.Files.Keys.Foreign.{part_index-info, part_index-assembled}
use fileloft.Files.Store.{
  delete, get_upload, remove_all, remove_file_ignore_not_found, list_part_paths_sorted,
}
use fileloft.Files.Uploads.{Keeps, data_path-eq, info_path-eq}
use fileloft.Files.Uploads.Reading.{part_paths, IsPlain, list-parts, opened, get_elem?-lt}
use fileloft.Files.Uploads.Apart.{Touches}
use fileloft.Files.Uploads.Create.{IsFresh}
use fileloft.Files.Uploads.Finalize.{info-ne-id}
use fileloft.Files.Uploads.Removing.{zero_add, remove_file-there, remove_file-ok, remove_all-ok}

module _ (d : Disk) (l : IsDisk d) (store : FileStore) (prefixed : IsPrefixed store) (id : UploadId)
    (valid : validate id ≡ ok tt) where
  abbrev dir : FilePath
  dir = folder_of store

  run :
      (s s1 s2 s3 : d.State) (parts : List FilePath)
      → remove_file_ignore_not_found d (dir ++ id ∷ []) s ≡ (ok tt, s1)
      → remove_file_ignore_not_found d (dir ++ (id ++ codes ".info") ∷ []) s1 ≡ (ok tt, s2)
      → list_part_paths_sorted d (record { store = store; id = id }) s2 ≡ (ok parts, s2)
      → remove_all d parts s2 ≡ (ok tt, s3)
      → delete d (record { store = store; id = id }) s ≡ (ok tt, s3)
  unfolding delete
  run s s1 s2 s3 parts first_gone second_gone listed removed =
      rw (data_path-eq store prefixed id valid, info_path-eq store prefixed id valid)
        (rw first_gone (rw second_gone (rw listed removed)))

  -- What is left of the upload: nothing.
  pub record Deleted (s s' : d.State) : Type 0 where
    pub no_content : l.file s' (dir ++ id ∷ []) ≡ none
    pub no_info : l.file s' (dir ++ (id ++ codes ".info") ∷ []) ≡ none
    pub no_parts : IsFresh d l store prefixed s' id
    pub folders : (q : FilePath) → l.folder s' q ≡ l.folder s q
    pub touched : Touches d l store id s s'

  module _ (plain : IsPlain l) (s : d.State) (info : UploadInfo) (chunks : List Bytes)
      (k : Keeps d l store s id info chunks) (no_folder : l.folder s (dir ++ id ∷ []) ≡ false) where
    pub delete-ok :
        (s' : d.State) × (delete d (record { store = store; id = id }) s ≡ (ok tt, s'))
        × Deleted s s'
    delete-ok =
        let (s1, done1, bare1, same1, folders1) = remove_file-ok d l (dir ++ id ∷ []) s no_folder in
        let (s2, done2, bare2, same2, folders2) =
          remove_file-there d l (dir ++ (id ++ codes ".info") ∷ []) k.json s1 (
            same1 _ (λ e.
              info-ne-id d l store prefixed id valid
                (sym (entry_inj dir id (id ++ codes ".info") e)))
            ∙ k.stored) in
        let kept = λ (name : Text) (o1 : name ≢ id) (o2 : name ≢ id ++ codes ".info").
          same2 (dir ++ name ∷ []) (λ e. o2 (sym (entry_inj dir (id ++ codes ".info") name e)))
          ∙ same1 (dir ++ name ∷ []) (λ e. o1 (sym (entry_inj dir id name e))) in
        let own = λ (name : Text) (n : ℕ) (index : part_index id name ≡ some n).
          kept name (λ e. part_index-assembled id id valid n (ap (part_index id) (sym e) ∙ index))
            (λ e. part_index-info id id valid n (ap (part_index id) (sym e) ∙ index)) in
        let apart_id = id-ne-part id id (safe id valid) in
        let apart_info = info-ne-part id id (safe id valid) in
        let listed =
          list-parts d l plain store prefixed id valid s2 (length chunks)
            (folders2 dir
              ∙ (folders1 dir ∙ opened d l plain store prefixed id valid s info chunks k))
            k.few
            (λ n lt.
              let (b, e) = get_elem?-lt chunks n lt in
              (
                b,
                kept (part_name id n) (λ q. apart_id n (sym q)) (λ q. apart_info n (sym q))
                    ∙ k.chunk n b e,
              ))
            (λ name n b there index. k.only name n b (sym (own name n index) ∙ there) index) in
        let r = remove_all-ok d l dir id 0 (length chunks) s2 (omega (arith, k.few)) (λ n lt.
          let (b, e) = get_elem?-lt chunks n lt in
          (
            b,
            ap (λ m. l.file s2 (dir ++ part_name id m ∷ [])) (zero_add n)
                ∙ (kept (part_name id n) (λ q. apart_id n (sym q)) (λ q. apart_info n (sym q))
                    ∙ k.chunk n b e),
          )) in
        let s3 = (remove_all d (part_paths dir id 0 (length chunks)) s2).1 in
        (
          s3,
          run s s1 s2 s3 (part_paths dir id 0 (length chunks)) done1 done2 listed
              (ap (λ t. (t, s3)) r.fine),
          record {
            no_content =
                r.elsewhere id apart_id
                ∙ (same2 _ (λ e.
                      info-ne-id d l store prefixed id valid
                        (entry_inj dir (id ++ codes ".info") id e))
                    ∙ bare1);
            no_info = r.elsewhere (id ++ codes ".info") apart_info ∙ bare2;
            no_parts = λ name n b there index. elim (r.fate name) [
              | inl bare ↦ cc
              | inr same ↦
                  let (name_eq, lt) =
                    k.only name n b (sym (own name n index) ∙ (sym same ∙ there)) index in
                  let bare =
                    ap (λ t. l.file s3 (dir ++ t ∷ []))
                      (name_eq ∙ ap (part_name id) (sym (zero_add n)))
                    ∙ r.gone n lt in
                  cc
            ];
            folders = λ q. r.folders q ∙ (folders2 q ∙ folders1 q);
            touched = λ name foreign.
                r.elsewhere name (λ n e. foreign (is_part n e))
                ∙ kept name (λ e. foreign (is_assembled e)) (λ e. foreign (is_info e));
          },
        )

    get_upload-gone :
        (s' : d.State)
        → l.file s' (dir ++ (id ++ codes ".info") ∷ []) ≡ none
        → l.folder s' (dir ++ (id ++ codes ".info") ∷ []) ≡ false
        → get_upload d store id s' ≡ (err (TusError.not_found id), s')
    unfolding get_upload
    get_upload-gone s' no_file no_folder =
        rw (valid, info_path-eq store prefixed id valid)
          (rw (l.try_exists_none _ s' no_file no_folder) refl)

    abbrev deleted : Result (Unit {0}) × d.State
    deleted = delete d (record { store = store; id = id }) s

    -- On a disk that keeps its laws and without strange entries, in a store whose prefix is empty
    -- or ends with a slash, for an upload with a valid identifier that the disk keeps, if no
    -- folder has the name of its assembled file or of its .info file: the upload is always deleted. Then it is no longer
    -- found, and its assembled file, its .info file and every file that is read as one of its
    -- parts are gone.
    pub delete-not_found :
        l.folder s (dir ++ (id ++ codes ".info") ∷ []) ≡ false
        → (deleted.0 ≡ ok tt)
          × (get_upload d store id deleted.1 ≡ (err (TusError.not_found id), deleted.1))
          × (l.file deleted.1 (dir ++ id ∷ []) ≡ none)
          × (l.file deleted.1 (dir ++ (id ++ codes ".info") ∷ []) ≡ none)
          × IsFresh d l store prefixed deleted.1 id
    delete-not_found no_info_folder =
        let (s1, done, gone) = delete-ok in
        subst
          (λ (r : Result (Unit {0}) × d.State).
            (r.0 ≡ ok tt)
            × (get_upload d store id r.1 ≡ (err (TusError.not_found id), r.1))
            × (l.file r.1 (dir ++ id ∷ []) ≡ none)
            × (l.file r.1 (dir ++ (id ++ codes ".info") ∷ []) ≡ none)
            × IsFresh d l store prefixed r.1 id)
          (sym done)
          (
            refl,
            get_upload-gone s1 gone.no_info (gone.folders _ ∙ no_info_folder),
            gone.no_content,
            gone.no_info,
            gone.no_parts,
          )
