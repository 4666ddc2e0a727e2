-- ===== src/Tests/Drive.antt =====
-- A disk in memory, with its laws.
use fileloft.Base.{
  ◌≡◌, ◌≢◌, refl, ap, sym, ◌∙◌, inl, inr, ◌⊎◌, Bool, true, false, Option, none, some, List, [], ◌∷◌,
  ◌++◌, arith, Text, codes, if◌then◌else◌, text_eq_iff, text_eq_refl, Bool-cases, Option-cases,
}
use fileloft.Base.Map
use fileloft.Base.Map.{Map}
use fileloft.Info.Codec.{Bytes}
use fileloft.Disk.{FilePath, IoError, IoResult, Disk}
use fileloft.Disk.Laws.{Named, AllDistinct, IsDisk}
use fileloft.Files.Uploads.Reading.{IsPlain}
use fileloft.Tests.Codec.{to_vec, from_slice, from_slice-to_vec}
use fileloft.Tests.Folder.{
  path_eq, path_eq_iff, unsnoc, unsnoc-append, glue, glue-unsnoc, names, names-Named, Named-get,
  AllDistinct-names,
}

-- The files of each folder that is there.
abbrev pub Folders : Type 0
Folders = FilePath → Option (Map Bytes)

abbrev put : FilePath → Map Bytes → Folders → Folders
put dir m s q = if path_eq dir q then some m else s q

abbrev pub is_there : Option (Map Bytes) → Bool
is_there none = false
is_there (some m) = true

abbrev folder : Folders → FilePath → Bool
folder s p = is_there (s p)

abbrev entry : Text → Option (Map Bytes) → Option Bytes
entry name none = none
entry name (some m) = Map.get name m

abbrev file_at : Folders → Option (FilePath × Text) → Option Bytes
file_at s none = none
file_at s (some (dir, name)) = entry name (s dir)

abbrev pub file : Folders → FilePath → Option Bytes
file s p = file_at s (unsnoc p)

abbrev missing : IoError
missing = record { is_not_found = true; text = codes "not found" }

abbrev directory : IoError
directory = record { is_not_found = false; text = codes "is a directory" }

abbrev Outcome : Type 0
Outcome = IoResult (Unit {0}) × Folders

abbrev refused : Folders → Outcome
refused s = (IoResult.failed missing, s)

-- A change of the files in a folder that is there.
abbrev pub change_in : FilePath → Folders → (Map Bytes → Map Bytes) → Option (Map Bytes) → Outcome
change_in dir s f none = refused s
change_in dir s f (some m) = (IoResult.done tt, put dir (f m) s)

abbrev write_at : Folders → Bytes → Option (FilePath × Text) → Outcome
write_at s b none = refused s
write_at s b (some (dir, name)) = change_in dir s (Map.insert name b) (s dir)

abbrev pub write : FilePath → Bytes → Folders → Outcome
write p b s = write_at s b (unsnoc p)

abbrev pub append : FilePath → Bytes → Folders → Outcome
append p b s = elim (file s p) [ none ↦ refused s | some a ↦ write p (a ++ b) s ]

abbrev remove_at : Folders → Option (FilePath × Text) → Outcome
remove_at s none = refused s
remove_at s (some (dir, name)) = change_in dir s (Map.remove name) (s dir)

abbrev pub remove_file : FilePath → Folders → Outcome
remove_file p s = elim (file s p) [
  | none ↦ (IoResult.failed (if folder s p then directory else missing), s)
  | some a ↦ remove_at s (unsnoc p)
]

abbrev pub create_dir_all : FilePath → Folders → Outcome
create_dir_all dir s = elim (s dir) [
  | none ↦ (IoResult.done tt, put dir [] s)
  | some m ↦ (IoResult.done tt, s)
]

abbrev found : Option Bytes → IoResult Bytes
found none = IoResult.failed missing
found (some b) = IoResult.done b

abbrev listed : Option (Map Bytes) → IoResult (List (Option Text))
listed none = IoResult.failed missing
listed (some m) = IoResult.done (names m)

abbrev is_file : Option Bytes → Bool
is_file none = false
is_file (some b) = true

abbrev pub drive : Disk
drive = record {
  State = Folders;
  create_dir_all = create_dir_all;
  write = write;
  open_truncated = λ p s. write p [] s;
  append = append;
  flush = λ p s. (IoResult.done tt, s);
  remove_file = remove_file;
  read = λ p s. found (file s p);
  try_exists = λ p s. IoResult.done (if is_file (file s p) then true else folder s p);
  read_dir = λ dir s. listed (s dir);
  to_vec = to_vec;
  from_slice = from_slice;
}

-- A file that a change of its folder leaves alone.
file-put :
    (dir : FilePath) (m' : Map Bytes) (s : Folders) (q : FilePath)
    → ((k : Text) → dir ++ k ∷ [] ≡ q → Map.get k m' ≡ entry k (s dir))
    → file (put dir m' s) q ≡ file s q
file-put dir m' s q kept = elim (Option-cases (unsnoc q)) [
  | inl none_there ↦ rw none_there refl
  | inr ((dir1, name1), e) ↦
      let split : q ≡ dir1 ++ name1 ∷ [] = sym (glue-unsnoc q) ∙ ap glue e in
      rw e (elim (Bool-cases (path_eq dir dir1)) [
        | inl same ↦
            let dirs : dir ≡ dir1 = (path_eq_iff dir dir1).0 same in
            rw same (
              kept name1 (ap (λ t. t ++ name1 ∷ []) dirs ∙ sym split)
              ∙ ap (λ t. entry name1 (s t)) dirs)
        | inr apart ↦ rw apart refl
      ])
]

pub file-put_other :
    (dir : FilePath) (name : Text) (m m' : Map Bytes) (s : Folders)
    → s dir ≡ some m
    → ((k : Text) → k ≢ name → Map.get k m' ≡ Map.get k m)
    → (q : FilePath) → dir ++ name ∷ [] ≢ q
    → file (put dir m' s) q ≡ file s q
file-put_other dir name m m' s there kept q other =
    file-put dir m' s q
      (λ k e. kept k (λ same. other (ap (λ t. dir ++ t ∷ []) (sym same) ∙ e)) ∙ rw there refl)

file-put_same :
    (dir : FilePath) (name : Text) (m' : Map Bytes) (s : Folders)
    → file (put dir m' s) (dir ++ name ∷ []) ≡ Map.get name m'
file-put_same dir name m' s = rw (unsnoc-append dir name) (rw ((path_eq_iff dir dir).1 refl) refl)

folder-put :
    (dir : FilePath) (m m' : Map Bytes) (s : Folders)
    → s dir ≡ some m
    → (q : FilePath) → folder (put dir m' s) q ≡ folder s q
folder-put dir m m' s there q = elim (Bool-cases (path_eq dir q)) [
  | inl same ↦ rw same (rw (ap s (sym ((path_eq_iff dir q).0 same)) ∙ there) refl)
  | inr other ↦ rw other refl
]

pub insert-other :
    (name : Text) (b : Bytes) (m : Map Bytes) (k : Text)
    → k ≢ name
    → Map.get k (Map.insert name b m) ≡ Map.get k m
insert-other name b m k other =
    Map.get-insert k name b m ∙ ground (arith, text_eq_iff name k, λ (e : name ≡ k). other (sym e))

remove-other :
    (name : Text) (m : Map Bytes) (k : Text)
    → k ≢ name
    → Map.get k (Map.remove name m) ≡ Map.get k m
remove-other name m k other =
    Map.get-remove k name m ∙ ground (arith, text_eq_iff name k, λ (e : name ≡ k). other (sym e))

there-some : (o : Option (Map Bytes)) → is_there o ≡ true → (m : Map Bytes) × (o ≡ some m)
there-some none h = cc
there-some (some m) h = (m, refl)

write_lem :
    (dir : FilePath) (name : Text) (b : Bytes) (s : Folders)
    → folder s dir ≡ true
    → (s' : Folders) × (write (dir ++ name ∷ []) b s ≡ (IoResult.done tt, s'))
      × (file s' (dir ++ name ∷ []) ≡ some b)
      × ((q : FilePath) → dir ++ name ∷ [] ≢ q → file s' q ≡ file s q)
write_lem dir name b s opened =
    let (m, there) = there-some (s dir) opened in
    (
      put dir (Map.insert name b m) s,
      rw (unsnoc-append dir name) (rw there refl),
      file-put_same dir name (Map.insert name b m) s
          ∙ (Map.get-insert name name b m ∙ rw (text_eq_refl name) refl),
      file-put_other dir name m (Map.insert name b m) s there (insert-other name b m),
    )

-- A file that is there, by its folder and name.
split_file :
    (p : FilePath) (b : Bytes) (s : Folders)
    → file s p ≡ some b
    → (dir : FilePath) × (name : Text) × (m : Map Bytes) × (p ≡ dir ++ name ∷ []) × (s dir ≡ some m)
split_file p b s h = elim (Option-cases (unsnoc p)) [
  | inl none_there ↦ cc (rw none_there at h)
  | inr ((dir, name), e) ↦
      let h1 : entry name (s dir) ≡ some b = rw e at h in
      elim (Option-cases (s dir)) [
        | inl bare ↦ cc (rw bare at h1)
        | inr (m, there) ↦ (dir, name, m, sym (glue-unsnoc p) ∙ ap glue e, there)
      ]
]

append_lem :
    (p : FilePath) (a b : Bytes) (s : Folders)
    → file s p ≡ some a
    → (s' : Folders) × (append p b s ≡ (IoResult.done tt, s'))
      × (file s' p ≡ some (a ++ b))
      × ((q : FilePath) → p ≢ q → file s' q ≡ file s q)
append_lem p a b s h =
    let (dir, name, m, same, there) = split_file p a s h in
    let (s', done, at_p, elsewhere) = write_lem dir name (a ++ b) s (rw there refl) in
    (
      s',
      rw (h, append) (rw same done),
      rw same at_p,
      λ q other. elsewhere q (λ e. other (same ∙ e)),
    )

pub remove_file_some :
    (p : FilePath) (b : Bytes) (s : Folders)
    → file s p ≡ some b
    → (s' : Folders) × (remove_file p s ≡ (IoResult.done tt, s'))
      × (file s' p ≡ none)
      × ((q : FilePath) → p ≢ q → file s' q ≡ file s q)
      × ((q : FilePath) → folder s' q ≡ folder s q)
remove_file_some p b s h =
    let (dir, name, m, same, there) = split_file p b s h in
    (
      put dir (Map.remove name m) s,
      rw (h, remove_file) (rw same (rw (unsnoc-append dir name) (rw there refl))),
      rw same (
          file-put_same dir name (Map.remove name m) s
          ∙ (Map.get-remove name name m ∙ rw (text_eq_refl name) refl)),
      λ q other.
          file-put_other dir name m (Map.remove name m) s there (remove-other name m) q
            (λ e. other (same ∙ e)),
      folder-put dir m (Map.remove name m) s there,
    )

pub create_dir_all_lem :
    (dir : FilePath) (s : Folders)
    → (s' : Folders) × (create_dir_all dir s ≡ (IoResult.done tt, s'))
      × (folder s' dir ≡ true)
      × ((q : FilePath) → file s' q ≡ file s q)
create_dir_all_lem dir s = elim (Option-cases (s dir)) [
  | inl bare ↦ (
    put dir [] s,
    rw (bare, create_dir_all) refl,
    rw ((path_eq_iff dir dir).1 refl) refl,
    λ q. file-put dir [] s q (λ k e. rw bare (unfold Map.get in refl)),
  )
  | inr (m, there) ↦ (s, rw (there, create_dir_all) refl, rw there refl, λ q. refl)
]

remove_file_folder :
    (p : FilePath) (s : Folders)
    → file s p ≡ none
    → folder s p ≡ true
    → (e : IoError) × (remove_file p s ≡ (IoResult.failed e, s)) × (e.is_not_found ≡ false)
remove_file_folder p s h opened = (directory, rw (h, remove_file) (rw opened refl), refl)

remove_file_none :
    (p : FilePath) (s : Folders)
    → file s p ≡ none
    → folder s p ≡ false
    → (e : IoError) × (remove_file p s ≡ (IoResult.failed e, s)) × (e.is_not_found ≡ true)
remove_file_none p s h bare = (missing, rw (h, remove_file) (rw bare refl), refl)

file-eq :
    (dir : FilePath) (name : Text) (m : Map Bytes) (s : Folders)
    → s dir ≡ some m
    → file s (dir ++ name ∷ []) ≡ Map.get name m
file-eq dir name m s there = rw (unsnoc-append dir name) (rw there refl)

file-folder :
    (s : Folders) (dir : FilePath) (name : Text) (b : Bytes)
    → file s (dir ++ name ∷ []) ≡ some b
    → folder s dir ≡ true
file-folder s dir name b h = elim (Option-cases (s dir)) [
  | inl bare ↦ let h1 = rw (unsnoc-append dir name) at h in let h2 = rw bare at h1 in cc
  | inr (m, there) ↦ rw there refl
]

exists_folder : (o : Option Bytes) → (if is_file o then true else true) ≡ true
exists_folder none = refl
exists_folder (some b) = refl

read_dir_lem :
    (dir : FilePath) (s : Folders)
    → folder s dir ≡ true
    → (ns : List (Option Text)) × (listed (s dir) ≡ IoResult.done ns)
      × AllDistinct ns
      × ((name : Text) (b : Bytes) → file s (dir ++ name ∷ []) ≡ some b → Named name ns)
      × ((name : Text)
          → Named name ns
          → ((b : Bytes) × (file s (dir ++ name ∷ []) ≡ some b)) ⊎ (false ≡ true))
read_dir_lem dir s opened =
    let (m, there) = there-some (s dir) opened in
    (
      names m,
      rw there refl,
      AllDistinct-names m,
      λ name b h. names-Named name b m (sym (file-eq dir name m s there) ∙ h),
      λ name n. let (b, e) = Named-get name m n in inl (b, file-eq dir name m s there ∙ e),
    )

pub drive-IsDisk : IsDisk drive
drive-IsDisk = record {
  file = file;
  folder = folder;
  other = λ name. false;
  file-folder = file-folder;
  create_dir_all_lem = create_dir_all_lem;
  write_lem = write_lem;
  open_truncated_lem = λ dir name s opened. write_lem dir name [] s opened;
  append_lem = append_lem;
  flush_lem = λ p s. refl;
  remove_file_some = remove_file_some;
  remove_file_folder = remove_file_folder;
  remove_file_none = remove_file_none;
  read_some = λ p b s h. rw h refl;
  read_none = λ p s h. (missing, rw h refl);
  try_exists_file = λ p b s h. rw h refl;
  try_exists_folder = λ p s h. rw h (ap IoResult.done (exists_folder (file s p)));
  try_exists_none = λ p s h h2. rw h (rw h2 refl);
  read_dir_lem = read_dir_lem;
  from_slice-to_vec = from_slice-to_vec;
}

-- A disk without folders.
abbrev pub blank : Folders
blank q = none

pub file-blank : (q : FilePath) (b : Bytes) → drive-IsDisk.file blank q ≢ some b
unfolding drive-IsDisk
file-blank q b h = elim (Option-cases (unsnoc q)) [
  | inl none_there ↦ cc (rw none_there at h)
  | inr ((dir, name), e) ↦ cc (rw e at h)
]

pub drive-IsPlain : IsPlain drive-IsDisk
unfolding drive-IsDisk
drive-IsPlain id name n index = refl

pub file-drive : drive-IsDisk.file ≡ file
unfolding drive-IsDisk
file-drive = refl

pub folder-eq : (s : Folders) (q : FilePath) → drive-IsDisk.folder s q ≡ is_there (s q)
unfolding drive-IsDisk
folder-eq s q = refl
