-- ===== src/Files/Uploads/Chunks.antt =====
-- What a written chunk means for the uploads of the store.
use fileloft.Base.{
  ℕ, ◌+◌, ◌<◌, ◌≡◌, ◌≢◌, ap, sym, ◌∙◌, subst, inl, inr, ◌⊎◌, some, List, [], ◌∷◌, ◌++◌, arith, Text,
  codes, length, length-append, text_eq, text_eq_iff, Bool-cases,
}
use fileloft.Error.{Result, ok}
use fileloft.Info.{UploadInfo}
use fileloft.Info.Id.{UploadId, validate}
use fileloft.Info.Codec.{Bytes}
use fileloft.Store.{Reader}
use fileloft.Disk.{Disk}
use fileloft.Disk.Laws.{IsDisk}
use fileloft.Files.Keys.{FileStore, part_name, part_index, u32_max}
use fileloft.Files.Keys.Layout.{folder_of, IsPrefixed}
use fileloft.Files.Keys.Separate.{is_info, is_part}
use fileloft.Files.Keys.Foreign.{part_index-info}
use fileloft.Files.Parts.{part_index-part_name}
use fileloft.Files.Store.{end_of, write_chunk}
use fileloft.Files.Uploads.{get_elem?, Keeps}
use fileloft.Files.Uploads.Reading.{IsPlain}
use fileloft.Files.Uploads.Apart.{Touches, Keeps-Touches, assembled-Touches}
use fileloft.Files.Uploads.Writing.{part_name_number, get_elem?-snoc, ChunkWritten, write_chunk-ok}

-- A decision on two names.
pub name-cases : (a b : Text) → (a ≡ b) ⊎ (a ≢ b)
name-cases a b = elim (Bool-cases (text_eq a b)) [
  | inl same ↦ inl ((text_eq_iff a b).0 same)
  | inr other ↦ inr λ e. cc (other, (text_eq_iff a b).1 e)
]

module _ (d : Disk) (l : IsDisk d) (store : FileStore) (prefixed : IsPrefixed store) where
  module _ (id : UploadId) (valid : validate id ≡ ok tt) (s s' : d.State) (info grown : UploadInfo)
      (chunks : List Bytes) (buf : Bytes) (k : Keeps d l store s id info chunks)
      (room : length chunks < u32_max)
      (w : ChunkWritten d l store prefixed id valid s grown (length chunks) buf s') where
    chunk-after :
        (n : ℕ) (b : Bytes)
        → get_elem? (chunks ++ buf ∷ []) n ≡ some b
        → l.file s' (folder_of store ++ part_name id n ∷ []) ≡ some b
    chunk-after n b e = elim (get_elem?-snoc chunks buf n b e) [
      | inl (old, lt) ↦
          w.elsewhere (part_name id n)
            (λ same. absurd (
              omega (
                arith,
                part_name_number id n (length chunks) (omega (arith, room, lt))
                    (omega (arith, room)) same,
              )))
            (λ same.
              part_index-info id id valid n (
                ap (part_index id) (sym same)
                ∙ part_index-part_name id n (omega (arith, room, lt))))
          ∙ k.chunk n b old
      | inr (last, same) ↦
          ap (λ m. l.file s' (folder_of store ++ part_name id m ∷ [])) last
          ∙ (w.added ∙ ap some (sym same))
    ]

    only-after :
        (name : Text) (n : ℕ) (b : Bytes)
        → l.file s' (folder_of store ++ name ∷ []) ≡ some b
        → part_index id name ≡ some n
        → (name ≡ part_name id n) × (n < length (chunks ++ buf ∷ []))
    only-after name n b there index =
        let longer : length (chunks ++ buf ∷ []) ≡ length chunks + 1 =
          length-append chunks (buf ∷ []) in
        elim (name-cases name (part_name id (length chunks))) [
          | inl same ↦
              let e : some (length chunks) ≡ some n =
                sym (part_index-part_name id (length chunks) (omega (arith, room)))
                ∙ (ap (part_index id) (sym same) ∙ index) in
              let number : length chunks ≡ n = cc in
              (same ∙ ap (part_name id) number, omega (arith, longer, number))
          | inr other ↦ elim (name-cases name (id ++ codes ".info")) [
            | inl same ↦
                absurd (part_index-info id id valid n (ap (part_index id) (sym same) ∙ index))
            | inr not_info ↦
                let (own, lt) =
                  k.only name n b (sym (w.elsewhere name other not_info) ∙ there) index in
                (own, omega (arith, longer, lt))
          ]
        ]

    pub Keeps-chunk : Keeps d l store s' id grown (chunks ++ buf ∷ [])
    Keeps-chunk = record {
      json = w.json;
      stored = w.stored;
      decodes = w.decodes;
      chunk = chunk-after;
      only = only-after;
      few = omega (arith, length-append chunks (buf ∷ []), room);
    }

    pub Touches-chunk : Touches d l store id s s'
    Touches-chunk name foreign =
        w.elsewhere name (λ e. foreign (is_part (length chunks) e)) (λ e. foreign (is_info e))

  module _ (plain : IsPlain l) (id : UploadId) (valid : validate id ≡ ok tt) (s : d.State)
      (info : UploadInfo) (chunks : List Bytes) (buf : Bytes) (end_offset : ℕ)
      (k : Keeps d l store s id info chunks) (room : length chunks < u32_max)
      (fits : end_of info info.offset (length buf) ≡ ok end_offset) where
    abbrev after : Result ℕ × d.State
    after = write_chunk d (record { store = store; id = id }) info.offset (Reader.bytes buf) s

    -- On a disk that keeps its laws and without strange entries, in a store whose prefix is empty
    -- or ends with a slash, for an upload with a valid identifier that the disk keeps and that has
    -- room for one more part: a chunk at the upload's offset that ends within a u64 and the
    -- declared size is written, and the upload then has the new offset and the chunk as its last.
    pub write_chunk-Keeps :
        (after.0 ≡ ok (length buf))
        × Keeps d l store after.1 id (record info { offset = end_offset }) (chunks ++ buf ∷ [])
    write_chunk-Keeps =
        let (s1, done, w) =
          write_chunk-ok d l store prefixed id valid plain s info chunks k buf end_offset fits
            room in
        let grown : UploadInfo = record info { offset = end_offset } in
        (
          ap (λ r. r.0) done,
          subst (λ (r : Result ℕ × d.State). Keeps d l store r.1 id grown (chunks ++ buf ∷ []))
              (sym done) (Keeps-chunk id valid s s1 info grown chunks buf k room w),
        )

    -- Such a chunk leaves every other upload of the store its state, its chunks and its assembled
    -- file.
    pub write_chunk-others :
        (j : UploadId) (other : UploadInfo) (waiting : List Bytes)
        → validate j ≡ ok tt
        → id ≢ j
        → Keeps d l store s j other waiting
        → Keeps d l store after.1 j other waiting
          × (l.file after.1 (folder_of store ++ j ∷ []) ≡ l.file s (folder_of store ++ j ∷ []))
    write_chunk-others j other waiting valid_j apart kj =
        let (s1, done, w) =
          write_chunk-ok d l store prefixed id valid plain s info chunks k buf end_offset fits
            room in
        let touched =
          Touches-chunk id valid s s1 info (record info { offset = end_offset }) chunks buf k room
            w in
        subst
          (λ (r : Result ℕ × d.State).
            Keeps d l store r.1 j other waiting
            × (l.file r.1 (folder_of store ++ j ∷ []) ≡ l.file s (folder_of store ++ j ∷ [])))
          (sym done)
          (
            Keeps-Touches d l store id j valid valid_j apart s s1 touched other waiting kj,
            assembled-Touches d l store id j valid valid_j apart s s1 touched,
          )
