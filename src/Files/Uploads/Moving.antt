-- ===== src/Files/Uploads/Moving.antt =====
-- The loops of `finalize`: copying the parts to the end of a file, and removing them.
use fileloft.Base.{
  ℕ, suc, ◌+◌, ◌≡◌, ◌≢◌, refl, ap, sym, ◌∙◌, some, List, [], ◌∷◌, ◌++◌, append_assoc, append-nil,
  arith, Text, length,
}
use fileloft.Error.{Result, ok}
use fileloft.Info.Id.{UploadId}
use fileloft.Info.Codec.{Bytes}
use fileloft.Disk.{FilePath, Disk}
use fileloft.Disk.Laws.{IsDisk}
use fileloft.Files.Keys.{part_name}
use fileloft.Files.Keys.Layout.{entry_inj}
use fileloft.Files.Store.{copy_all}
use fileloft.Files.Uploads.{get_elem?}
use fileloft.Files.Uploads.Reading.{part_paths}

-- The chunks, one behind the other.
abbrev pub joined : List Bytes → Bytes
joined [] = []
joined (b ∷ bs) = b ++ joined bs

module _ (d : Disk) (l : IsDisk d) (dir : FilePath) (id : UploadId) where
  -- The state after copying to `dest`: the file has `content`, and no other has changed.
  pub record Copied (dest : Text) (s : d.State) (content : Bytes)
      (out : Result (Unit {0}) × d.State) : Type 0 where
    pub fine : out.0 ≡ ok tt
    pub there : l.file out.1 (dir ++ dest ∷ []) ≡ some content
    pub elsewhere :
        (name : Text) → name ≢ dest → l.file out.1 (dir ++ name ∷ []) ≡ l.file s (dir ++ name ∷ [])

  pub copy_all-ok :
      (dest : Text) (apart : (n : ℕ) → dest ≢ part_name id n) (chunks : List Bytes) (k : ℕ)
      (s : d.State) (acc : Bytes)
      → l.file s (dir ++ dest ∷ []) ≡ some acc
      → ((n : ℕ) (b : Bytes)
          → get_elem? chunks n ≡ some b
          → l.file s (dir ++ part_name id (k + n) ∷ []) ≡ some b)
      → Copied dest s
          (acc ++ joined chunks)
          (copy_all d (dir ++ dest ∷ []) (part_paths dir id k (length chunks)) s)
  unfolding copy_all part_paths
  copy_all-ok dest apart [] k s acc here chunk = record {
    fine = refl;
    there = here ∙ ap some (sym (append-nil acc));
    elsewhere = λ name other. refl;
  }
  copy_all-ok dest apart (b ∷ bs) k s acc here chunk =
      let (s1, done, there1, else1) = l.append_lem (dir ++ dest ∷ []) acc b s here in
      let first : l.file s (dir ++ part_name id k ∷ []) ≡ some b =
        ap (λ n. l.file s (dir ++ part_name id n ∷ [])) (omega arith) ∙ chunk 0 b refl in
      let else_part = λ (n : ℕ).
        else1 (dir ++ part_name id n ∷ []) (λ e. apart n (entry_inj dir dest (part_name id n) e)) in
      let rest = copy_all-ok dest apart bs (k + 1) s1 (acc ++ b) there1 (λ n c e.
        else_part (k + 1 + n)
        ∙ (ap (λ m. l.file s (dir ++ part_name id m ∷ [])) (omega arith) ∙ chunk (suc n) c e)) in
      rw (l.read_some (dir ++ part_name id k ∷ []) b s first) (
        rw done (record {
          fine = rest.fine;
          there = rest.there ∙ ap some (append_assoc acc b (joined bs));
          elsewhere = λ name other.
              rest.elsewhere name other
              ∙ else1 (dir ++ name ∷ []) (λ e. other (sym (entry_inj dir dest name e)));
        }))
