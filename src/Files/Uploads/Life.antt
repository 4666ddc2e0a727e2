-- ===== src/Files/Uploads/Life.antt =====
-- The life of an upload on the disk: created, written chunk by chunk, put together and read.
use fileloft.Base.{
  ℕ, ◌+◌, ◌≤◌, ◌<◌, ◌≡◌, refl, ap, sym, ◌∙◌, subst, inl, inr, true, some, List, [], ◌∷◌, ◌++◌,
  append_assoc, append-nil, arith, length, length-append, u64_max, Option-cases,
}
use fileloft.Error.{Result, ok}
use fileloft.Exec.{pure, ◌>>=◌, ◌>>◌}
use fileloft.Info.{UploadInfo, is_complete}
use fileloft.Info.Id.{UploadId, validate}
use fileloft.Info.Codec.{Bytes}
use fileloft.Store.{Reader}
use fileloft.Disk.{Disk}
use fileloft.Disk.Laws.{IsDisk}
use fileloft.Files.Keys.{FileStore, FileUpload, u32_max}
use fileloft.Files.Keys.Layout.{folder_of, IsPrefixed}
use fileloft.Files.Store.{Action, end_of, create_upload, write_chunk, finalize, read_content}
use fileloft.Files.Uploads.{Keeps}
use fileloft.Files.Uploads.Reading.{IsPlain}
use fileloft.Files.Uploads.Apart.{Touches}
use fileloft.Files.Uploads.Writing.{write_chunk-ok}
use fileloft.Files.Uploads.Chunks.{Keeps-chunk, Touches-chunk}
use fileloft.Files.Uploads.Create.{IsFresh, create_upload-ok, read_content-ok}
use fileloft.Files.Uploads.Moving.{joined}
use fileloft.Files.Uploads.Finalize.{finalize-ok, Keeps-Assembled}

-- The size of a chunk that ends within a `u64` and the declared size.
pub end_of-fits :
    (info : UploadInfo) (offset n : ℕ)
    → offset + n ≤ u64_max
    → ((declared : ℕ) → info.size ≡ some declared → offset + n ≤ declared)
    → end_of info offset n ≡ ok (offset + n)
end_of-fits info offset n small sized = elim (Option-cases info.size) [
  | inl free ↦ rw free (ground arith)
  | inr (declared, e) ↦ rw e (ground (arith, sized declared e))
]

module _ (d : Disk) where
  -- A client that sends chunks one after another, each at the offset that the one before has left.
  unfoldable pub write_all : FileUpload → List Bytes → ℕ → Action d ℕ
  write_all u [] offset = pure offset
  write_all u (buf ∷ bufs) offset = do
    n ← write_chunk d u offset (Reader.bytes buf)
    write_all u bufs (offset + n)

module _ (d : Disk) (l : IsDisk d) (store : FileStore) (prefixed : IsPrefixed store)
    (plain : IsPlain l) where
  module _ (id : UploadId) (valid : validate id ≡ ok tt) where
    abbrev handle : FileUpload
    handle = record { store = store; id = id }

    -- What a run of chunks makes of an upload.
    pub write_all-ok :
        (bufs : List Bytes) (chunks : List Bytes) (s : d.State) (info : UploadInfo) (total : ℕ)
        → Keeps d l store s id info chunks
        → length chunks + length bufs ≤ u32_max
        → total ≡ info.offset + length (joined bufs)
        → total ≤ u64_max
        → ((declared : ℕ) → info.size ≡ some declared → total ≤ declared)
        → (s' : d.State) × (write_all d handle bufs info.offset s ≡ (ok total, s'))
          × Keeps d l store s' id (record info { offset = total }) (chunks ++ bufs)
          × Touches d l store id s s'
    unfolding write_all
    write_all-ok [] chunks s info total k few e small sized =
        let same : info.offset ≡ total = omega (arith, e) in
        (
          s,
          ap (λ n. (ok n, s)) same,
          subst (λ n. Keeps d l store s id (record info { offset = n }) (chunks ++ [])) same
              (subst (λ cs. Keeps d l store s id info cs) (sym (append-nil chunks)) k),
          λ name foreign. refl,
        )
    write_all-ok (buf ∷ bufs) chunks s info total k few e small sized =
        let sizes = length-append buf (joined bufs) in
        let next = info.offset + length buf in
        let grown : UploadInfo = record info { offset = next } in
        let room : length chunks < u32_max = omega (arith, few) in
        let fits =
          end_of-fits info info.offset (length buf) (omega (arith, e, small, sizes))
            (λ declared h. let bound = sized declared h in omega (arith, e, bound, sizes)) in
        let (s1, done, w) =
          write_chunk-ok d l store prefixed id valid plain s info chunks k buf next fits room in
        let longer = length-append chunks (buf ∷ []) in
        let (s2, rest, k2, touched) =
          write_all-ok bufs (chunks ++ buf ∷ []) s1 grown total
            (Keeps-chunk d l store prefixed id valid s s1 info grown chunks buf k room w)
            (omega (arith, few, longer)) (omega (arith, e, sizes)) small sized in
        (
          s2,
          rw done rest,
          subst (λ cs. Keeps d l store s2 id (record info { offset = total }) cs)
              (append_assoc chunks (buf ∷ []) bufs) k2,
          λ name foreign.
              touched name foreign
              ∙ Touches-chunk d l store prefixed id valid s s1 info grown chunks buf k room w name
                  foreign,
        )

    module _ (s : d.State) (info : UploadInfo) (chunks : List Bytes)
        (k : Keeps d l store s id info chunks) where
      abbrev finalized : Result (Unit {0}) × d.State
      finalized = finalize d handle s

      -- On a disk that keeps its laws and without strange entries, in a store whose prefix is
      -- empty or ends with a slash, an upload with a valid identifier that the disk keeps is
      -- always put together: its file has exactly the waiting chunks, in the order they were
      -- written, and the upload then has the same state and no waiting chunk.
      pub finalize-joined :
          (finalized.0 ≡ ok tt)
          × (l.file finalized.1 (folder_of store ++ id ∷ []) ≡ some (joined chunks))
          × Keeps d l store finalized.1 id info []
      finalize-joined =
          let (s1, done, a) = finalize-ok d l store prefixed id valid plain s info chunks k in
          subst
            (λ (r : Result (Unit {0}) × d.State).
              (r.0 ≡ ok tt)
              × (l.file r.1 (folder_of store ++ id ∷ []) ≡ some (joined chunks))
              × Keeps d l store r.1 id info [])
            (sym done)
            (
              refl,
              a.assembled,
              Keeps-Assembled d l store prefixed id valid s s1 info chunks (joined chunks) k a,
            )

  module _ (info : UploadInfo) (valid : validate info.id ≡ ok tt) (bufs : List Bytes) where
    abbrev new : FileUpload
    new = record { store = store; id = info.id }

    -- Creating an upload, sending it chunks, putting it together and reading it.
    abbrev pub whole_life : Action d Reader
    whole_life = create_upload d store info >>= λ u.
        (write_all d u bufs info.offset >> (finalize d u >> read_content d u))

    -- On a disk that keeps its laws, without strange entries and without parts of the upload, in a
    -- store whose prefix is empty or ends with a slash: an upload with a valid identifier that is
    -- created at offset 0 with the size of the chunks it is then sent, fewer than 2^32 and with as
    -- many bytes as fit a u64, put together and read, gives back all bytes of the chunks in order.
    pub whole_life-joined :
        (s : d.State)
        → IsFresh d l store prefixed s info.id
        → info.offset ≡ 0
        → info.size ≡ some (length (joined bufs))
        → length bufs ≤ u32_max
        → length (joined bufs) ≤ u64_max
        → (whole_life s).0 ≡ ok (Reader.bytes (joined bufs))
    whole_life-joined s fresh start size few small =
        let complete : is_complete (record info { offset = length (joined bufs) }) ≡ true =
          unfold is_complete in rw size (ground arith) in
        let (s1, created, k1, t1) = create_upload-ok d l store prefixed info valid s fresh in
        let (s2, written, k2, t2) =
          write_all-ok info.id valid bufs [] s1 info (length (joined bufs)) k1 (omega (arith, few))
            (omega (arith, start)) small
            (λ declared h. let e : declared ≡ length (joined bufs) = cc in omega (arith, e)) in
        let (s3, done, a) = finalize-ok d l store prefixed info.id valid plain s2 _ bufs k2 in
        let k3 = Keeps-Assembled d l store prefixed info.id valid s2 s3 _ bufs (joined bufs) k2 a in
        let seen =
          read_content-ok d l store prefixed info.id valid plain s3 _ [] k3 (joined bufs) complete
            a.assembled in
        rw created (rw written (rw done (ap (λ r. r.0) seen)))
