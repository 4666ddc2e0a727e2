-- ===== src/Files/Uploads/Writing.antt =====
-- Writing a chunk: one more part file, and the new offset in the `.info` file.
use fileloft.Base.{
  ℕ, zero, suc, ◌+◌, ◌%◌, ◌^◌, ◌≤◌, ◌<◌, ◌≡◌, ◌≢◌, refl, ap, sym, ◌∙◌, inl, inr, ◌⊎◌, true, some,
  List, [], ◌∷◌, ◌++◌, arith, Text, codes, length, ◌==◌,
}
use fileloft.Error.{ok}
use fileloft.Info.{UploadInfo}
use fileloft.Info.Id.{UploadId, validate}
use fileloft.Info.Codec.{Bytes, Outcome}
use fileloft.Store.{Reader}
use fileloft.Disk.{FilePath, IoResult, Disk}
use fileloft.Disk.Laws.{IsDisk}
use fileloft.Files.Keys.{FileStore, part_name, part_index, u32_max}
use fileloft.Files.Keys.Layout.{folder_of, IsPrefixed, parent-append, entry_inj}
use fileloft.Files.Keys.Foreign.{part_index-info}
use fileloft.Files.Parts.{part_index-part_name}
use fileloft.Files.Store.{end_of, write_info, write_part, write_chunk}
use fileloft.Files.Uploads.{info_path-eq, part_path-eq, get_elem?, Keeps}
use fileloft.Files.Uploads.Reading.{part_paths, IsPlain, opened, read_info-Keeps, list-Keeps}

length-part_paths : (dir : FilePath) (id : UploadId) (k m : ℕ) → length (part_paths dir id k m) ≡ m
unfolding part_paths
length-part_paths dir id k zero = refl
length-part_paths dir id k (suc m) = ap suc (length-part_paths dir id (k + 1) m)

pub part_name_number :
    (id : UploadId) (n m : ℕ) → n ≤ u32_max → m ≤ u32_max → part_name id n ≡ part_name id m → n ≡ m
part_name_number id n m hn hm same =
    let e =
      sym (part_index-part_name id n hn)
      ∙ (ap (part_index id) same ∙ part_index-part_name id m hm) in
    cc

pub get_elem?-snoc :
    (bs : List Bytes) (x : Bytes) (n : ℕ) (b : Bytes)
    → get_elem? (bs ++ x ∷ []) n ≡ some b
    → ((get_elem? bs n ≡ some b) × (n < length bs)) ⊎ ((n ≡ length bs) × (b ≡ x))
get_elem?-snoc [] x zero b h = inr (refl, cc)
get_elem?-snoc [] x (suc n) b h = cc
get_elem?-snoc (c ∷ bs) x zero b h = inl (h, omega arith)
get_elem?-snoc (c ∷ bs) x (suc n) b h = elim (get_elem?-snoc bs x n b h) [
  | inl (e, lt) ↦ inl (e, omega (arith, lt))
  | inr (e, same) ↦ inr (omega (arith, e), same)
]

module _ (d : Disk) (l : IsDisk d) (store : FileStore) (prefixed : IsPrefixed store) (id : UploadId)
    (valid : validate id ≡ ok tt) where
  abbrev dir : FilePath
  dir = folder_of store

  pub write_info-ok :
      (s : d.State) (info : UploadInfo)
      → l.folder s dir ≡ true
      → (s' : d.State) × (json : Bytes) × (write_info d (record { store = store; id = id }) info s
          ≡ (ok tt, s'))
        × (l.file s' (dir ++ (id ++ codes ".info") ∷ []) ≡ some json)
        × (d.from_slice json ≡ Outcome.done info)
        × ((q : FilePath) → dir ++ (id ++ codes ".info") ∷ [] ≢ q → l.file s' q ≡ l.file s q)
  unfolding write_info
  write_info-ok s info opened =
      let (json, encoded, decoded) = l.from_slice-to_vec info in
      let (s', done, there, elsewhere) = l.write_lem dir (id ++ codes ".info") json s opened in
      (
        s',
        json,
        rw encoded (rw (info_path-eq store prefixed id valid) (rw done refl)),
        there,
        decoded,
        elsewhere,
      )

  -- The files of the chunk `buf` and of the new state are there, and no other has changed.
  pub record ChunkWritten (s : d.State) (info : UploadInfo) (total : ℕ) (buf : Bytes) (s' : d.State)
      : Type 0 where
    pub json : Bytes
    pub stored : l.file s' (dir ++ (id ++ codes ".info") ∷ []) ≡ some json
    pub decodes : d.from_slice json ≡ Outcome.done info
    pub added : l.file s' (dir ++ part_name id total ∷ []) ≡ some buf
    pub elsewhere :
        (name : Text)
        → name ≢ part_name id total
        → name ≢ id ++ codes ".info"
        → l.file s' (dir ++ name ∷ []) ≡ l.file s (dir ++ name ∷ [])

  module _ (plain : IsPlain l) (s : d.State) (info : UploadInfo) (chunks : List Bytes)
      (k : Keeps d l store s id info chunks) (buf : Bytes) (end_offset : ℕ)
      (fits : end_of info info.offset (length buf) ≡ ok end_offset)
      (room : length chunks < u32_max) where
    abbrev grown : UploadInfo
    grown = record info { offset = end_offset }

    total_number : length (part_paths dir id 0 (length chunks)) % 2 ^ 32 ≡ length chunks
    total_number = rw (length-part_paths dir id 0 (length chunks)) (omega (arith, room))

    info-ne-part : id ++ codes ".info" ≢ part_name id (length chunks)
    info-ne-part same =
        part_index-info id id valid (length chunks)
          (ap (part_index id) same ∙ part_index-part_name id (length chunks) (omega (arith, room)))

    same_offset : (info.offset == info.offset) ≡ true
    same_offset = ground arith

    run :
        (s1 s2 s3 : d.State)
        → d.create_dir_all dir s ≡ (IoResult.done tt, s1)
        → d.write (dir ++ part_name id (length chunks) ∷ []) buf s1 ≡ (IoResult.done tt, s2)
        → write_info d (record { store = store; id = id }) grown s2 ≡ (ok tt, s3)
        → write_chunk d (record { store = store; id = id }) info.offset (Reader.bytes buf) s
          ≡ (ok (length buf), s3)
    unfolding write_chunk write_part
    run s1 s2 s3 made put saved =
        rw (read_info-Keeps d l plain store prefixed id valid s info chunks k) (
          rw (same_offset, fits)
            (rw (list-Keeps d l plain store prefixed id valid s info chunks k) (
              rw total_number (
                rw (part_path-eq store prefixed id valid (length chunks)) (
                  rw (parent-append dir (part_name id (length chunks)))
                    (rw made (rw put (rw saved refl))))))))

    pub write_chunk-ok :
        (s' : d.State) × (write_chunk d
            (record { store = store; id = id })
            info.offset
            (Reader.bytes buf)
            s
          ≡ (ok (length buf), s'))
        × ChunkWritten s grown (length chunks) buf s'
    write_chunk-ok =
        let (s1, made, opened1, same1) = l.create_dir_all_lem dir s in
        let (s2, put, there2, else2) =
          l.write_lem dir (part_name id (length chunks)) buf s1 opened1 in
        let apart =
          λ (e : dir ++ part_name id (length chunks) ∷ [] ≡ dir ++ (id ++ codes ".info") ∷ []).
            info-ne-part
              (sym (entry_inj dir (part_name id (length chunks)) (id ++ codes ".info") e)) in
        let info2 = else2 (dir ++ (id ++ codes ".info") ∷ []) apart ∙ (same1 _ ∙ k.stored) in
        let (s3, json, saved, there3, decoded, else3) =
          write_info-ok s2 grown (l.file-folder s2 dir (id ++ codes ".info") k.json info2) in
        (
          s3,
          run s1 s2 s3 made put saved,
          record {
            json = json;
            stored = there3;
            decodes = decoded;
            added = else3 _ (λ e. apart (sym e)) ∙ there2;
            elsewhere = λ name other1 other2.
                else3 _ (λ e. other2 (sym (entry_inj dir (id ++ codes ".info") name e)))
                ∙ (else2 _ (λ e. other1 (sym (entry_inj dir (part_name id (length chunks)) name e)))
                    ∙ same1 _);
          },
        )
