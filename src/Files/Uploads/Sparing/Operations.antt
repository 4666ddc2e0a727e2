-- ===== src/Files/Uploads/Sparing/Operations.antt =====
-- The operations of crates/fileloft-store-fs/src/store.rs spare the files of other uploads.
use fileloft.Base.{
  ℕ, ◌%◌, ◌^◌, ◌==◌, ◌≡◌, refl, sym, subst, inl, inr, ◌⊎◌, some, List, [], ◌∷◌, ◌++◌, Text, codes,
  length,
}
use fileloft.Error.{TusError, Result, ok, err}
use fileloft.Exec.{lift, ◌>>=◌}
use fileloft.Exec.Keeps.{Keeps-lift, Keeps-if, Keeps-bind}
use fileloft.Info.{UploadInfo, is_none}
use fileloft.Info.Id.{UploadId, validate}
use fileloft.Store.{Reader, read_to_end}
use fileloft.Disk.{FilePath, Disk}
use fileloft.Disk.Laws.{IsDisk}
use fileloft.Disk.Frame.{IsFramed}
use fileloft.Files.Keys.{FileStore, FileUpload, info_path, data_path, part_name, part_index, parent}
use fileloft.Files.Keys.Layout.{folder_of, IsPrefixed, entry_inj}
use fileloft.Files.Keys.Separate.{NameOf, is_info, is_part, is_assembled}
use fileloft.Files.Store.{
  internal_result, remove_file_ignore_not_found, remove_all, copy_all, put_together, copy_partials,
  create_upload, write_part, write_chunk, finalize, delete, declare_length, concatenate,
}
use fileloft.Files.Uploads.{info_path-eq, data_path-eq, part_path-eq}
use fileloft.Files.Uploads.Chunks.{name-cases}
use fileloft.Files.Uploads.Spares.{Spares-IsPreorder, Fate, as_it_was, removed}
use fileloft.Files.Uploads.Sparing.{
  IsSparing, AllParts, IsSparing-look, IsSparing-make_parent, IsSparing-write, IsSparing-open,
  IsSparing-append, IsSparing-flush, IsSparing-read_info, IsSparing-write_info, IsSparing-list,
}

module _ (d : Disk) (l : IsDisk d) (framed : IsFramed d l.file) (store : FileStore)
    (prefixed : IsPrefixed store) where
  module _ (id : UploadId) (valid : validate id ≡ ok tt) where
    abbrev dir : FilePath
    dir = folder_of store

    abbrev u : FileUpload
    u = record { store = store; id = id }

    -- One step of an operation after another.
    both :
        {A B : Type 0} (m : d.State → Result A × d.State) (f : A → d.State → Result B × d.State)
        → IsSparing d l framed store prefixed id valid m
        → ((a : A) → IsSparing d l framed store prefixed id valid (f a))
        → IsSparing d l framed store prefixed id valid (m >>= f)
    both m f first rest = Keeps-bind (Spares-IsPreorder d l store id) m f first rest

    same : {A : Type 0} (r : Result A) → IsSparing d l framed store prefixed id valid (lift r)
    same r = Keeps-lift (Spares-IsPreorder d l store id) r

    -- A file with a name of the upload, or with one that is read as a part of it.
    IsSparing-remove_file :
        (name : Text)
        → NameOf id name ⊎ ((n : ℕ) × (part_index id name ≡ some n))
        → IsSparing d l framed store prefixed id valid
            (remove_file_ignore_not_found d (dir ++ name ∷ []))
    unfolding remove_file_ignore_not_found
    IsSparing-remove_file name own = record {
      at = λ s t foreign. elim (name-cases t name) [
        | inr apart ↦ as_it_was (
            framed.remove_file_other (dir ++ name ∷ []) s (dir ++ t ∷ [])
              (λ e. apart (sym (entry_inj dir name t e))))
        | inl e ↦ elim own [
          | inl named ↦ absurd (foreign (subst (NameOf id) (sym e) named))
          | inr (n, index) ↦ elim (framed.remove_file_own (dir ++ name ∷ []) s) [
            | inl left ↦
                subst
                  (λ q.
                    Fate d l store id q s (remove_file_ignore_not_found d (dir ++ name ∷ []) s).1)
                  (sym e) (as_it_was left)
            | inr gone ↦
                subst
                  (λ q.
                    Fate d l store id q s (remove_file_ignore_not_found d (dir ++ name ∷ []) s).1)
                  (sym e) (removed n index gone)
          ]
        ]
      ];
    }

    IsSparing-remove_path :
        (p : FilePath) (name : Text)
        → p ≡ dir ++ name ∷ []
        → NameOf id name ⊎ ((n : ℕ) × (part_index id name ≡ some n))
        → IsSparing d l framed store prefixed id valid (remove_file_ignore_not_found d p)
    IsSparing-remove_path p name e own = rw e (IsSparing-remove_file name own)

    IsSparing-remove_all :
        (ps : List FilePath)
        → AllParts d l framed store prefixed id valid ps
        → IsSparing d l framed store prefixed id valid (remove_all d ps)
    unfolding remove_all
    IsSparing-remove_all [] parts = same (ok tt)
    IsSparing-remove_all (p ∷ ps) ((name, n, e, index), parts) =
        both _ _ (IsSparing-remove_path p name e (inr (n, index)))
          (λ x. IsSparing-remove_all ps parts)

    IsSparing-copy_all :
        (ps : List FilePath)
        → IsSparing d l framed store prefixed id valid (copy_all d (data_path u) ps)
    unfolding copy_all
    IsSparing-copy_all [] = same (ok tt)
    IsSparing-copy_all (p ∷ ps) =
        both _ _ (IsSparing-look d l framed store prefixed id valid (d.read p)) (λ bytes.
          both _ _ (IsSparing-append d l framed store prefixed id valid bytes)
            (λ x. IsSparing-copy_all ps))

    IsSparing-copy_partials :
        (ps : List UploadInfo) → IsSparing d l framed store prefixed id valid (copy_partials d u ps)
    unfolding copy_partials
    IsSparing-copy_partials [] = same (ok tt)
    IsSparing-copy_partials (p ∷ ps) = both _ _ (same (validate p.id)) (λ x.
        both _ _ (IsSparing-look d l framed store prefixed id valid _) (λ bytes.
          both _ _ (IsSparing-append d l framed store prefixed id valid bytes)
            (λ y. IsSparing-copy_partials ps)))

    IsSparing-put_together :
        (ps : List FilePath)
        → AllParts d l framed store prefixed id valid ps
        → IsSparing d l framed store prefixed id valid (put_together d (data_path u) ps)
    IsSparing-put_together [] parts =
        IsSparing-write d l framed store prefixed id valid (data_path u) id []
          (data_path-eq store prefixed id valid) (is_assembled refl)
    IsSparing-put_together (p ∷ ps) parts =
        both _ _ (IsSparing-open d l framed store prefixed id valid) (λ x.
          both _ _ (IsSparing-copy_all (p ∷ ps)) (λ y.
            both _ _ (IsSparing-flush d l framed store prefixed id valid)
              (λ z. IsSparing-remove_all (p ∷ ps) parts)))

    pub IsSparing-finalize : IsSparing d l framed store prefixed id valid (finalize d u)
    unfolding finalize
    IsSparing-finalize = IsSparing-list d l framed store prefixed id valid _ (λ ps parts.
        both _ _ (IsSparing-make_parent d l framed store prefixed id valid _)
          (λ x. IsSparing-put_together ps parts))

    pub IsSparing-delete : IsSparing d l framed store prefixed id valid (delete d u)
    unfolding delete
    IsSparing-delete =
        both _ _
          (IsSparing-remove_path (data_path u) id (data_path-eq store prefixed id valid)
            (inl (is_assembled refl)))
          (λ x.
            both _ _
              (IsSparing-remove_path (info_path u) (id ++ codes ".info")
                (info_path-eq store prefixed id valid) (inl (is_info refl)))
              (λ y. IsSparing-list d l framed store prefixed id valid _ IsSparing-remove_all))

    pub IsSparing-declare_length :
        (size : ℕ) → IsSparing d l framed store prefixed id valid (declare_length d u size)
    unfolding declare_length
    IsSparing-declare_length size =
        both _ _ (IsSparing-read_info d l framed store prefixed id valid) (λ info.
          Keeps-if (Spares-IsPreorder d l store id) (is_none info.size) _ _
            (IsSparing-write_info d l framed store prefixed id valid _)
            (same (err TusError.upload_length_already_set)))

    pub IsSparing-concatenate :
        (ps : List UploadInfo) → IsSparing d l framed store prefixed id valid (concatenate d u ps)
    unfolding concatenate
    IsSparing-concatenate ps =
        both _ _ (IsSparing-make_parent d l framed store prefixed id valid _) (λ x.
          both _ _ (IsSparing-open d l framed store prefixed id valid) (λ y.
            both _ _ (IsSparing-copy_partials ps) (λ z.
              both _ _ (IsSparing-flush d l framed store prefixed id valid) (λ t.
                both _ _ (IsSparing-read_info d l framed store prefixed id valid)
                  (λ info. IsSparing-write_info d l framed store prefixed id valid _)))))

    IsSparing-write_part :
        (info : UploadInfo) (offset : ℕ) (reader : Reader)
        → IsSparing d l framed store prefixed id valid (write_part d u info offset reader)
    unfolding write_part
    IsSparing-write_part info offset reader = both _ _ (same (read_to_end reader)) (λ buf.
        both _ _ (same _) (λ end_offset.
          IsSparing-list d l framed store prefixed id valid _ (λ ps parts.
            both _ _ (IsSparing-make_parent d l framed store prefixed id valid _) (λ x.
              both _ _
                (IsSparing-write d l framed store prefixed id valid _
                  (part_name id (length ps % 2 ^ 32)) buf
                  (part_path-eq store prefixed id valid (length ps % 2 ^ 32))
                  (is_part (length ps % 2 ^ 32) refl))
                (λ y.
                  both _ _ (IsSparing-write_info d l framed store prefixed id valid _)
                    (λ z. same (ok (length buf))))))))

    pub IsSparing-write_chunk :
        (offset : ℕ) (reader : Reader)
        → IsSparing d l framed store prefixed id valid (write_chunk d u offset reader)
    unfolding write_chunk
    IsSparing-write_chunk offset reader =
        both _ _ (IsSparing-read_info d l framed store prefixed id valid) (λ info.
          Keeps-if (Spares-IsPreorder d l store id) (info.offset == offset) _ _
            (IsSparing-write_part info offset reader)
            (same (err (TusError.offset_mismatch info.offset offset))))

  pub IsSparing-create_upload :
      (info : UploadInfo) (valid : validate info.id ≡ ok tt)
      → IsSparing d l framed store prefixed info.id valid (create_upload d store info)
  unfolding create_upload
  IsSparing-create_upload info valid =
      both info.id valid _ _ (same info.id valid (validate info.id)) (λ x.
        both info.id valid _ _
          (IsSparing-make_parent d l framed store prefixed info.id valid
            (parent (info_path (record { store = store; id = info.id }))))
          (λ y.
            both info.id valid _ _ (same info.id valid (internal_result (d.to_vec info))) (λ json.
              both info.id valid _ _
                (IsSparing-write d l framed store prefixed info.id valid _
                  (info.id ++ codes ".info") json (info_path-eq store prefixed info.id valid)
                  (is_info refl))
                (λ z. same info.id valid (ok (record { store = store; id = info.id }))))))
