-- ===== src/Files/Uploads/Concat.antt =====
-- Concatenation: the assembled files of partial uploads, one behind the other, become the content
-- of the final upload.
use fileloft.Base.{
  ◌≡◌, ◌≢◌, refl, ap, sym, ◌∙◌, true, some, List, [], ◌∷◌, ◌++◌, append_assoc, append-nil, arith,
  Text, codes,
}
use fileloft.Error.{ok}
use fileloft.Info.{UploadInfo}
use fileloft.Info.Id.{UploadId, validate}
use fileloft.Info.Codec.{Bytes}
use fileloft.Disk.{FilePath, Disk, IoResult}
use fileloft.Disk.Laws.{IsDisk}
use fileloft.Files.Keys.{FileStore, FileUpload, part_index}
use fileloft.Files.Keys.Layout.{folder_of, IsPrefixed, entry_inj, parent-append}
use fileloft.Files.Keys.Separate.{is_assembled, is_info}
use fileloft.Files.Keys.Foreign.{part_index-assembled}
use fileloft.Files.Store.{concatenate, copy_partials, sum_sizes, write_info}
use fileloft.Files.Uploads.{Keeps, data_path-eq}
use fileloft.Files.Uploads.Reading.{IsPlain, read_info-Keeps}
use fileloft.Files.Uploads.Apart.{Touches}
use fileloft.Files.Uploads.Create.{Keeps-saved}
use fileloft.Files.Uploads.Writing.{write_info-ok}
use fileloft.Files.Uploads.Moving.{joined, Copied}
use fileloft.Files.Uploads.Finalize.{info-ne-id}

module _ (d : Disk) (l : IsDisk d) (store : FileStore) (prefixed : IsPrefixed store) where
  -- The assembled files of partial uploads other than `id`.
  abbrev pub Contents : d.State → UploadId → List UploadInfo → List Bytes → Type 0
  Contents s id [] [] = Unit
  Contents s id [] (b ∷ bs) = ⊥
  Contents s id (p ∷ ps) [] = ⊥
  Contents s id (p ∷ ps) (b ∷ bs) =
      (validate p.id ≡ ok tt)
      × (id ≢ p.id)
      × (l.file s (folder_of store ++ p.id ∷ []) ≡ some b)
      × Contents s id ps bs

  -- A change to the file of `id` alone.
  pub Contents-kept :
      (s s' : d.State) (id : UploadId) (ps : List UploadInfo) (bs : List Bytes)
      → ((name : Text)
          → name ≢ id
          → l.file s' (folder_of store ++ name ∷ []) ≡ l.file s (folder_of store ++ name ∷ []))
      → Contents s id ps bs
      → Contents s' id ps bs
  Contents-kept s s' id [] [] kept c = tt
  Contents-kept s s' id [] (b ∷ bs) kept c = c
  Contents-kept s s' id (p ∷ ps) [] kept c = c
  Contents-kept s s' id (p ∷ ps) (b ∷ bs) kept (valid, apart, there, rest) =
      (valid, apart, kept p.id (λ e. apart (sym e)) ∙ there, Contents-kept s s' id ps bs kept rest)

  module _ (id : UploadId) (valid : validate id ≡ ok tt) where
    abbrev handle : FileUpload
    handle = record { store = store; id = id }

    abbrev dir : FilePath
    dir = folder_of store

    copy_partials-ok :
        (ps : List UploadInfo) (bs : List Bytes) (s : d.State) (acc : Bytes)
        → l.file s (dir ++ id ∷ []) ≡ some acc
        → Contents s id ps bs
        → Copied d l dir id id s (acc ++ joined bs) (copy_partials d handle ps s)
    unfolding copy_partials
    copy_partials-ok [] [] s acc here c = record {
      fine = refl;
      there = here ∙ ap some (sym (append-nil acc));
      elsewhere = λ name other. refl;
    }
    copy_partials-ok [] (b ∷ bs) s acc here c = absurd c
    copy_partials-ok (p ∷ ps) [] s acc here c = absurd c
    copy_partials-ok (p ∷ ps) (b ∷ bs) s acc here (valid_p, apart, content, rest) =
        let (s1, done, there1, else1) = l.append_lem (dir ++ id ∷ []) acc b s here in
        let kept = λ (name : Text) (other : name ≢ id).
          else1 (dir ++ name ∷ []) (λ e. other (sym (entry_inj dir id name e))) in
        let next =
          copy_partials-ok ps bs s1 (acc ++ b) there1 (Contents-kept s s1 id ps bs kept rest) in
        rw valid_p (
          rw (data_path-eq store prefixed p.id valid_p, data_path-eq store prefixed id valid)
            (rw (l.read_some (dir ++ p.id ∷ []) b s content) (
              rw done (record {
                fine = next.fine;
                there = next.there ∙ ap some (append_assoc acc b (joined bs));
                elsewhere = λ name other. next.elsewhere name other ∙ kept name other;
              }))))

    abbrev pub final_info : UploadInfo → List UploadInfo → UploadInfo
    final_info info ps = record info {
      size = some (sum_sizes ps);
      offset = sum_sizes ps;
      is_final = true;
    }

    module _ (plain : IsPlain l) (s : d.State) (info : UploadInfo)
        (k : Keeps d l store s id info []) where
      run :
          (ps : List UploadInfo) (s1 s2 s3 s4 : d.State)
          → d.create_dir_all dir s ≡ (IoResult.done tt, s1)
          → d.open_truncated (dir ++ id ∷ []) s1 ≡ (IoResult.done tt, s2)
          → copy_partials d handle ps s2 ≡ (ok tt, s3)
          → Keeps d l store s3 id info []
          → write_info d handle (final_info info ps) s3 ≡ (ok tt, s4)
          → concatenate d handle ps s ≡ (ok tt, s4)
      unfolding concatenate
      run ps s1 s2 s3 s4 made clear copied k3 saved = rw (data_path-eq store prefixed id valid) (
          rw (parent-append dir id) (
            rw made (
              rw clear (
                rw copied (
                  rw (l.flush_lem (dir ++ id ∷ []) s3) (
                    rw (read_info-Keeps d l plain store prefixed id valid s3 info [] k3)
                      (rw saved refl)))))))

      pub concatenate-ok :
          (ps : List UploadInfo) (bs : List Bytes)
          → Contents s id ps bs
          → (s' : d.State) × (concatenate d handle ps s ≡ (ok tt, s'))
            × Keeps d l store s' id (final_info info ps) []
            × (l.file s' (dir ++ id ∷ []) ≡ some (joined bs))
            × Touches d l store id s s'
      concatenate-ok ps bs contents =
          let (s1, made, opened1, same1) = l.create_dir_all_lem dir s in
          let (s2, clear, there, else2) = l.open_truncated_lem dir id s1 opened1 in
          let kept = λ (name : Text) (other : name ≢ id).
            else2 (dir ++ name ∷ []) (λ e. other (sym (entry_inj dir id name e))) ∙ same1 _ in
          let c = copy_partials-ok ps bs s2 [] there (Contents-kept s s2 id ps bs kept contents) in
          let s3 = (copy_partials d handle ps s2).1 in
          let same3 =
            λ (name : Text) (other : name ≢ id). c.elsewhere name other ∙ kept name other in
          let info3 =
            same3 (id ++ codes ".info") (info-ne-id d l store prefixed id valid) ∙ k.stored in
          let k3 : Keeps d l store s3 id info [] = record {
            json = k.json;
            stored = info3;
            decodes = k.decodes;
            chunk = λ n b e. cc;
            only = λ name n b at_name index.
                k.only name n b
                  (sym (
                      same3 name (λ e.
                        part_index-assembled id id valid n (ap (part_index id) (sym e) ∙ index)))
                    ∙ at_name)
                  index;
            few = omega arith;
          } in
          let (s4, json, saved, stored, decodes, else4) =
            write_info-ok d l store prefixed id valid s3 (final_info info ps)
              (l.file-folder s3 dir (id ++ codes ".info") k.json info3) in
          (
            s4,
            run ps s1 s2 s3 s4 made clear (ap (λ t. (t, s3)) c.fine) k3 saved,
            Keeps-saved d l store prefixed id valid s3 s4 info (final_info info ps) json [] stored
                decodes else4 k3,
            else4 _ (λ e.
                  info-ne-id d l store prefixed id valid (entry_inj dir (id ++ codes ".info") id e))
                ∙ c.there,
            λ name foreign.
                else4 _ (λ e. foreign (is_info (sym (entry_inj dir (id ++ codes ".info") name e))))
                ∙ same3 name (λ e. foreign (is_assembled e)),
          )
