-- ===== src/Files/Uploads/Finalize.antt =====
-- Putting an upload together: the assembled file has the chunks one behind the other, and no part
-- is left.
use fileloft.Base.{
  ℕ, ◌<◌, ◌≡◌, ◌≢◌, refl, ap, sym, ◌∙◌, inl, inr, ◌⊎◌, none, some, List, [], ◌∷◌, ◌++◌, arith, Text,
  codes, length,
}
use fileloft.Error.{ok}
use fileloft.Info.{UploadInfo}
use fileloft.Info.Id.{UploadId, validate}
use fileloft.Info.Codec.{Bytes}
use fileloft.Disk.{FilePath, Disk, IoResult}
use fileloft.Disk.Laws.{IsDisk}
use fileloft.Files.Keys.{FileStore, part_name, part_index}
use fileloft.Files.Keys.Layout.{folder_of, IsPrefixed, entry_inj, parent-append}
use fileloft.Files.Keys.Separate.{is_assembled, is_part, safe, id-ne-part, info-ne-part}
use fileloft.Files.Keys.Foreign.{part_index-assembled}
use fileloft.Files.Store.{finalize, copy_all, remove_all}
use fileloft.Files.Uploads.{Keeps, data_path-eq}
use fileloft.Files.Uploads.Reading.{get_elem?-lt, part_paths, IsPlain, list-Keeps}
use fileloft.Files.Uploads.Apart.{Touches}
use fileloft.Files.Uploads.Moving.{joined, copy_all-ok}
use fileloft.Files.Uploads.Removing.{zero_add, remove_all-ok}

module _ (d : Disk) (l : IsDisk d) (store : FileStore) (prefixed : IsPrefixed store) (id : UploadId)
    (valid : validate id ≡ ok tt) where
  abbrev dir : FilePath
  dir = folder_of store

  pub info-ne-id : id ++ codes ".info" ≢ id
  info-ne-id e = (safe id valid).no_info id (sym e)

  -- The state after the assembled file got `content` and the parts were removed.
  pub record Assembled (s : d.State) (total : ℕ) (content : Bytes) (s' : d.State) : Type 0 where
    pub assembled : l.file s' (dir ++ id ∷ []) ≡ some content
    pub gone : (n : ℕ) → n < total → l.file s' (dir ++ part_name id n ∷ []) ≡ none
    pub fate :
        (name : Text)
        → name ≢ id
        → (l.file s' (dir ++ name ∷ []) ≡ none)
          ⊎ (l.file s' (dir ++ name ∷ []) ≡ l.file s (dir ++ name ∷ []))
    pub elsewhere :
        (name : Text)
        → name ≢ id
        → ((n : ℕ) → name ≢ part_name id n)
        → l.file s' (dir ++ name ∷ []) ≡ l.file s (dir ++ name ∷ [])

  pub Touches-Assembled :
      (s s' : d.State) (total : ℕ) (content : Bytes)
      → Assembled s total content s'
      → Touches d l store id s s'
  Touches-Assembled s s' total content a name foreign =
      a.elsewhere name (λ e. foreign (is_assembled e)) (λ n e. foreign (is_part n e))

  module _ (s s' : d.State) (info : UploadInfo) (chunks : List Bytes) (content : Bytes)
      (k : Keeps d l store s id info chunks) (a : Assembled s (length chunks) content s') where
    -- No part is left.
    none-left :
        (name : Text) (n : ℕ) (b : Bytes)
        → l.file s' (dir ++ name ∷ []) ≡ some b
        → part_index id name ≡ some n
        → (name ≡ part_name id n) × (n < 0)
    none-left name n b there index =
        elim (a.fate name
          (λ e. part_index-assembled id id valid n (ap (part_index id) (sym e) ∙ index))) [
            | inl bare ↦ cc
            | inr same ↦
                let (own, lt) = k.only name n b (sym same ∙ there) index in
                let bare = ap (λ t. l.file s' (dir ++ t ∷ [])) own ∙ a.gone n lt in cc
          ]

    pub Keeps-Assembled : Keeps d l store s' id info []
    Keeps-Assembled = record {
      json = k.json;
      stored =
          a.elsewhere (id ++ codes ".info") info-ne-id (λ n. info-ne-part id id (safe id valid) n)
          ∙ k.stored;
      decodes = k.decodes;
      chunk = λ n b e. cc;
      only = none-left;
      few = omega arith;
    }

  module _ (plain : IsPlain l) (s : d.State) (info : UploadInfo) where
    run-nothing :
        (s1 s2 : d.State)
        → Keeps d l store s id info []
        → d.create_dir_all dir s ≡ (IoResult.done tt, s1)
        → d.write (dir ++ id ∷ []) [] s1 ≡ (IoResult.done tt, s2)
        → finalize d (record { store = store; id = id }) s ≡ (ok tt, s2)
    unfolding finalize part_paths
    run-nothing s1 s2 k made put = rw (list-Keeps d l plain store prefixed id valid s info [] k) (
        rw (data_path-eq store prefixed id valid)
          (rw (parent-append dir id) (rw made (rw put refl))))

    run-parts :
        (b : Bytes) (bs : List Bytes) (s1 s2 s3 s4 : d.State)
        → Keeps d l store s id info (b ∷ bs)
        → d.create_dir_all dir s ≡ (IoResult.done tt, s1)
        → d.open_truncated (dir ++ id ∷ []) s1 ≡ (IoResult.done tt, s2)
        → copy_all d (dir ++ id ∷ []) (part_paths dir id 0 (length (b ∷ bs))) s2 ≡ (ok tt, s3)
        → remove_all d (part_paths dir id 0 (length (b ∷ bs))) s3 ≡ (ok tt, s4)
        → finalize d (record { store = store; id = id }) s ≡ (ok tt, s4)
    unfolding finalize part_paths
    run-parts b bs s1 s2 s3 s4 k made clear copied removed =
        rw (list-Keeps d l plain store prefixed id valid s info (b ∷ bs) k) (
          rw (data_path-eq store prefixed id valid) (
            rw (parent-append dir id) (
              rw made
                (rw clear (rw copied (rw (l.flush_lem (dir ++ id ∷ []) s3) (rw removed refl)))))))

    pub finalize-ok :
        (chunks : List Bytes)
        → Keeps d l store s id info chunks
        → (s' : d.State) × (finalize d (record { store = store; id = id }) s ≡ (ok tt, s'))
          × Assembled s (length chunks) (joined chunks) s'
    finalize-ok [] k =
        let (s1, made, opened1, same1) = l.create_dir_all_lem dir s in
        let (s2, put, there, else2) = l.write_lem dir id [] s1 opened1 in
        let kept = λ (name : Text) (other : name ≢ id).
          else2 (dir ++ name ∷ []) (λ e. other (sym (entry_inj dir id name e))) ∙ same1 _ in
        (
          s2,
          run-nothing s1 s2 k made put,
          record {
            assembled = there;
            gone = λ n lt. absurd (omega (arith, lt));
            fate = λ name other. inr (kept name other);
            elsewhere = λ name other part. kept name other;
          },
        )
    finalize-ok (b ∷ bs) k =
        let (s1, made, opened1, same1) = l.create_dir_all_lem dir s in
        let (s2, clear, there, else2) = l.open_truncated_lem dir id s1 opened1 in
        let kept = λ (name : Text) (other : name ≢ id).
          else2 (dir ++ name ∷ []) (λ e. other (sym (entry_inj dir id name e))) ∙ same1 _ in
        let apart = id-ne-part id id (safe id valid) in
        let c = copy_all-ok d l dir id id apart (b ∷ bs) 0 s2 [] there (λ n x e.
          ap (λ m. l.file s2 (dir ++ part_name id m ∷ [])) (zero_add n)
          ∙ (kept (part_name id n) (λ q. apart n (sym q)) ∙ k.chunk n x e)) in
        let s3 = (copy_all d (dir ++ id ∷ []) (part_paths dir id 0 (length (b ∷ bs))) s2).1 in
        let r = remove_all-ok d l dir id 0 (length (b ∷ bs)) s3 (omega (arith, k.few)) (λ n lt.
          let (x, e) = get_elem?-lt (b ∷ bs) n lt in
          (
            x,
            ap (λ m. l.file s3 (dir ++ part_name id m ∷ [])) (zero_add n)
                ∙ (c.elsewhere (part_name id n) (λ q. apart n (sym q))
                    ∙ (kept (part_name id n) (λ q. apart n (sym q)) ∙ k.chunk n x e)),
          )) in
        let s4 = (remove_all d (part_paths dir id 0 (length (b ∷ bs))) s3).1 in
        (
          s4,
          run-parts b bs s1 s2 s3 s4 k made clear (ap (λ t. (t, s3)) c.fine)
              (ap (λ t. (t, s4)) r.fine),
          record {
            assembled = r.elsewhere id apart ∙ c.there;
            gone = λ n lt.
                ap (λ m. l.file s4 (dir ++ part_name id m ∷ [])) (sym (zero_add n)) ∙ r.gone n lt;
            fate = λ name other. elim (r.fate name) [
              | inl e ↦ inl e
              | inr e ↦ inr (e ∙ (c.elsewhere name other ∙ kept name other))
            ];
            elsewhere = λ name other part.
                r.elsewhere name part ∙ (c.elsewhere name other ∙ kept name other);
          },
        )
