-- ===== src/Files/Uploads/Removing.antt =====
-- The loop that removes the parts of an upload.
use fileloft.Base.{
  ℕ, zero, suc, ◌+◌, ◌<◌, ◌≡◌, ◌≢◌, refl, ap, sym, ◌∙◌, inl, inr, ◌⊎◌, false, none, some, ◌≤◌, [],
  ◌∷◌, ◌++◌, arith, Text, Option-cases,
}
use fileloft.Error.{Result, ok}
use fileloft.Info.Id.{UploadId}
use fileloft.Disk.{FilePath, Disk}
use fileloft.Disk.Laws.{IsDisk}
use fileloft.Files.Keys.{part_name, u32_max}
use fileloft.Files.Keys.Layout.{entry_inj}
use fileloft.Files.Store.{remove_all, remove_file_ignore_not_found}
use fileloft.Files.Uploads.Reading.{part_paths}
use fileloft.Files.Uploads.Chunks.{name-cases}
use fileloft.Files.Uploads.Writing.{part_name_number}
use fileloft.Info.Codec.{Bytes}

pub zero_add : (n : ℕ) → 0 + n ≡ n
zero_add n = omega arith

zero-cases : (n : ℕ) → (n ≡ 0) ⊎ ((j : ℕ) × (n ≡ suc j))
zero-cases zero = inl refl
zero-cases (suc j) = inr (j, refl)

module _ (d : Disk) (l : IsDisk d) where
  pub remove_file-there :
      (p : FilePath) (b : Bytes) (s : d.State)
      → l.file s p ≡ some b
      → (s' : d.State) × (remove_file_ignore_not_found d p s ≡ (ok tt, s'))
        × (l.file s' p ≡ none)
        × ((q : FilePath) → p ≢ q → l.file s' q ≡ l.file s q)
        × ((q : FilePath) → l.folder s' q ≡ l.folder s q)
  unfolding remove_file_ignore_not_found
  remove_file-there p b s there =
      let (s', done, bare, same, folders) = l.remove_file_some p b s there in
      (s', rw done refl, bare, same, folders)

  -- Where no folder has its name, a file is gone afterwards, whether or not it was there.
  pub remove_file-ok :
      (p : FilePath) (s : d.State)
      → l.folder s p ≡ false
      → (s' : d.State) × (remove_file_ignore_not_found d p s ≡ (ok tt, s'))
        × (l.file s' p ≡ none)
        × ((q : FilePath) → p ≢ q → l.file s' q ≡ l.file s q)
        × ((q : FilePath) → l.folder s' q ≡ l.folder s q)
  unfolding remove_file_ignore_not_found
  remove_file-ok p s plain = elim (Option-cases (l.file s p)) [
    | inl bare ↦
        let (e, failed, missing) = l.remove_file_none p s bare plain in
        (s, rw failed (rw missing refl), bare, λ q other. refl, λ q. refl)
    | inr (b, there) ↦ remove_file-there p b s there
  ]

  module _ (dir : FilePath) (id : UploadId) where
    -- A part is none of the later ones.
    next : (k n : ℕ) → k + 1 + n ≤ u32_max → part_name id k ≢ part_name id (k + 1 + n)
    next k n few same =
        absurd (omega (arith, part_name_number id k (k + 1 + n) (omega (arith, few)) few same))

    pub record Removed (k m : ℕ) (s : d.State) (out : Result (Unit {0}) × d.State) : Type 0 where
      pub fine : out.0 ≡ ok tt
      pub gone : (n : ℕ) → n < m → l.file out.1 (dir ++ part_name id (k + n) ∷ []) ≡ none
      pub fate :
          (name : Text)
          → (l.file out.1 (dir ++ name ∷ []) ≡ none)
            ⊎ (l.file out.1 (dir ++ name ∷ []) ≡ l.file s (dir ++ name ∷ []))
      pub elsewhere :
          (name : Text)
          → ((n : ℕ) → name ≢ part_name id n)
          → l.file out.1 (dir ++ name ∷ []) ≡ l.file s (dir ++ name ∷ [])
      pub folders : (q : FilePath) → l.folder out.1 q ≡ l.folder s q

    pub remove_all-ok :
        (k m : ℕ) (s : d.State)
        → k + m ≤ u32_max
        → ((n : ℕ) → n < m → (b : Bytes) × (l.file s (dir ++ part_name id (k + n) ∷ []) ≡ some b))
        → Removed k m s (remove_all d (part_paths dir id k m) s)
    unfolding remove_all part_paths
    remove_all-ok k zero s few present = record {
      fine = refl;
      gone = λ n lt. absurd (omega (arith, lt));
      fate = λ name. inr refl;
      elsewhere = λ name other. refl;
      folders = λ q. refl;
    }
    remove_all-ok k (suc m) s few present =
        let (b0, there0) = present 0 (omega arith) in
        let (s1, done, bare, same, folders) =
          remove_file-there (dir ++ part_name id k ∷ []) b0 s
            (ap (λ j. l.file s (dir ++ part_name id j ∷ [])) (omega arith) ∙ there0) in
        let rest = remove_all-ok (k + 1) m s1 (omega (arith, few)) (λ n lt.
          let (b, there) = present (suc n) (omega (arith, lt)) in
          (
            b,
            same _ (λ e.
                  next k n (omega (arith, few, lt))
                    (entry_inj dir (part_name id k) (part_name id (k + 1 + n)) e))
                ∙ (ap (λ j. l.file s (dir ++ part_name id j ∷ [])) (omega arith) ∙ there),
          )) in
        let head : l.file (remove_all d (part_paths dir id (k + 1) m) s1).1
              (dir ++ part_name id k ∷ [])
            ≡ none =
          elim (rest.fate (part_name id k)) [ inl e ↦ e | inr e ↦ e ∙ bare ] in
        rw done (record {
          fine = rest.fine;
          gone = λ n lt. elim (zero-cases n) [
            | inl e ↦
                ap
                  (λ j.
                    l.file (remove_all d (part_paths dir id (k + 1) m) s1).1
                      (dir ++ part_name id j ∷ []))
                  (omega (arith, e))
                ∙ head
            | inr (j, e) ↦
                ap
                  (λ i.
                    l.file (remove_all d (part_paths dir id (k + 1) m) s1).1
                      (dir ++ part_name id i ∷ []))
                  (omega (arith, e))
                ∙ rest.gone j (omega (arith, e, lt))
          ];
          fate = λ name. elim (name-cases name (part_name id k)) [
            | inl e ↦ inl (
                ap (λ t. l.file (remove_all d (part_paths dir id (k + 1) m) s1).1 (dir ++ t ∷ [])) e
                ∙ head)
            | inr other ↦ elim (rest.fate name) [
              | inl e ↦ inl e
              | inr e ↦ inr (e ∙ same _ (λ q. other (sym (entry_inj dir (part_name id k) name q))))
            ]
          ];
          elsewhere = λ name other.
              rest.elsewhere name other
              ∙ same _ (λ e. other k (sym (entry_inj dir (part_name id k) name e)));
          folders = λ q. rest.folders q ∙ folders q;
        })
