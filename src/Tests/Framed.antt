-- ===== src/Tests/Framed.antt =====
-- Which files the disk in memory leaves alone.
use fileloft.Base.{
  ◌≡◌, ◌≢◌, refl, ap, sym, ◌∙◌, subst, inl, inr, ◌⊎◌, none, [], ◌∷◌, ◌++◌, Text, Option-cases,
}
use fileloft.Base.Map
use fileloft.Base.Map.{Map}
use fileloft.Info.Codec.{Bytes}
use fileloft.Disk.{FilePath}
use fileloft.Disk.Frame.{IsFramed}
use fileloft.Tests.Folder.{unsnoc, glue, glue-unsnoc}
use fileloft.Tests.Drive.{
  Folders, file, change_in, write, append, remove_file, create_dir_all, file-put_other,
  insert-other, create_dir_all_lem, remove_file_some, drive, drive-IsDisk, file-drive,
}

change_in-other :
    (dir : FilePath) (name : Text) (s : Folders) (f : Map Bytes → Map Bytes)
    → ((m : Map Bytes) (k : Text) → k ≢ name → Map.get k (f m) ≡ Map.get k m)
    → (q : FilePath) → dir ++ name ∷ [] ≢ q
    → file (change_in dir s f (s dir)).1 q ≡ file s q
change_in-other dir name s f kept q other = elim (Option-cases (s dir)) [
  | inl bare ↦ rw bare refl
  | inr (m, there) ↦ rw there (file-put_other dir name m (f m) s there (kept m) q other)
]

write_other :
    (p : FilePath) (b : Bytes) (s : Folders) (q : FilePath)
    → p ≢ q
    → file (write p b s).1 q ≡ file s q
write_other p b s q other = elim (Option-cases (unsnoc p)) [
  | inl bare ↦ rw bare refl
  | inr ((dir, name), e) ↦ rw e (
      change_in-other dir name s (Map.insert name b) (insert-other name b) q
        (λ h. other ((sym (glue-unsnoc p) ∙ ap glue e) ∙ h)))
]

append_other :
    (p : FilePath) (b : Bytes) (s : Folders) (q : FilePath)
    → p ≢ q
    → file (append p b s).1 q ≡ file s q
append_other p b s q other = elim (Option-cases (file s p)) [
  | inl bare ↦ rw (bare, append) refl
  | inr (a, there) ↦ rw (there, append) (write_other p (a ++ b) s q other)
]

remove_file_other :
    (p : FilePath) (s : Folders) (q : FilePath) → p ≢ q → file (remove_file p s).1 q ≡ file s q
remove_file_other p s q other = elim (Option-cases (file s p)) [
  | inl bare ↦ rw (bare, remove_file) refl
  | inr (a, there) ↦
      let (s', done, gone, same, folders) = remove_file_some p a s there in
      ap (λ r. file r.1 q) done ∙ same q other
]

remove_file-bare : (p : FilePath) (s : Folders) → file s p ≡ none → (remove_file p s).1 ≡ s
remove_file-bare p s bare = rw (bare, remove_file) refl

remove_file_own :
    (p : FilePath) (s : Folders)
    → (file (remove_file p s).1 p ≡ file s p) ⊎ (file (remove_file p s).1 p ≡ none)
remove_file_own p s = elim (Option-cases (file s p)) [
  | inl bare ↦ inl (ap (λ t. file t p) (remove_file-bare p s bare))
  | inr (a, there) ↦
      let (s', done, gone, same, folders) = remove_file_some p a s there in
      inr (ap (λ r. file r.1 p) done ∙ gone)
]

create_dir_all_same :
    (dir : FilePath) (s : Folders) (q : FilePath) → file (create_dir_all dir s).1 q ≡ file s q
create_dir_all_same dir s q =
    let (s', done, opened, same) = create_dir_all_lem dir s in ap (λ r. file r.1 q) done ∙ same q

pub drive-IsFramed : IsFramed drive drive-IsDisk.file
drive-IsFramed = subst (IsFramed drive) (sym file-drive) (record {
  create_dir_all_same = create_dir_all_same;
  write_other = write_other;
  open_truncated_other = λ p s q other. write_other p [] s q other;
  append_other = append_other;
  flush_other = λ p s q other. refl;
  remove_file_other = remove_file_other;
  remove_file_own = remove_file_own;
})
