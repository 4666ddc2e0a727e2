-- ===== src/Files/Uploads/Sparing.antt =====
-- Each operation on an upload spares the files of the others, whatever its arguments and its outcome.
pub mod Operations
use fileloft.Base.{
  ℕ, ◌%◌, ◌^◌, ◌==◌, ◌≡◌, ◌≢◌, refl, ap, sym, ◌∙◌, subst, inl, inr, Bool, true, false, Option, none,
  some, List, [], ◌∷◌, ◌++◌, map, Text, codes, length, leb, Bool-cases, Option-cases, if◌then◌else◌,
}
use fileloft.Error.{TusError, Result, ok, err}
use fileloft.Exec.{lift, continue, fail}
use fileloft.Exec.Keeps.{Keeps, Keeps-lift, Keeps-pure, Keeps-if, Keeps-bind, Keeps-bind_with}
use fileloft.Info.{UploadInfo}
use fileloft.Info.Id.{UploadId, validate}
use fileloft.Info.Codec.{Bytes}
use fileloft.Disk.{FilePath, IoResult, Disk}
use fileloft.Disk.Laws.{IsDisk}
use fileloft.Disk.Frame.{IsFramed}
use fileloft.Files.Keys.{
  FileStore, FileUpload, info_path, data_path, part_path, part_name, part_index, parent, indexed,
  sort_by_key, insert_sorted,
}
use fileloft.Files.Keys.Layout.{folder_of, IsPrefixed, entry_inj, parent-append}
use fileloft.Files.Keys.Separate.{NameOf, is_info, is_part, is_assembled}
use fileloft.Files.Store.{
  io, look, make_parent, read_info, write_info, list_part_paths_sorted, list_in, listing, io_result,
  remove_file_ignore_not_found, remove_all,
}
use fileloft.Files.Uploads.{info_path-eq, data_path-eq, part_path-eq}
use fileloft.Files.Uploads.Chunks.{name-cases}
use fileloft.Files.Uploads.Spares.{Spares, Spares-IsPreorder, as_it_was, removed}

module _ (d : Disk) (l : IsDisk d) (framed : IsFramed d l.file) (store : FileStore)
    (prefixed : IsPrefixed store) (id : UploadId) (valid : validate id ≡ ok tt) where
  abbrev dir : FilePath
  dir = folder_of store

  abbrev u : FileUpload
  u = record { store = store; id = id }

  abbrev pub IsSparing : {A : Type 0} → (d.State → Result A × d.State) → Type 0
  IsSparing m = Keeps (Spares d l store id) m

  pub IsSparing-look : {A : Type 0} (call : d.State → IoResult A) → IsSparing (look d call)
  IsSparing-look call = record { at = λ s name foreign. as_it_was refl }

  -- A call that changes at most the file of a name of the upload.
  IsSparing-io :
      {A : Type 0} (call : d.State → IoResult A × d.State) (name : Text)
      → NameOf id name
      → ((s : d.State) (q : FilePath) → dir ++ name ∷ [] ≢ q → l.file (call s).1 q ≡ l.file s q)
      → IsSparing (io d call)
  IsSparing-io call name own other = record {
    at = λ s t foreign.
        as_it_was
          (other s (dir ++ t ∷ []) λ e. foreign (subst (NameOf id) (entry_inj dir name t e) own));
  }

  pub IsSparing-make_parent : (o : Option FilePath) → IsSparing (make_parent d o)
  IsSparing-make_parent none = Keeps-pure (Spares-IsPreorder d l store id) tt
  IsSparing-make_parent (some p) = record {
    at = λ s name foreign. as_it_was (framed.create_dir_all_same p s (dir ++ name ∷ []));
  }

  pub IsSparing-write :
      (p : FilePath) (name : Text) (b : Bytes)
      → p ≡ dir ++ name ∷ []
      → NameOf id name
      → IsSparing (io d (d.write p b))
  IsSparing-write p name b same own = rw same (
      IsSparing-io (d.write (dir ++ name ∷ []) b) name own
        (λ s q other. framed.write_other (dir ++ name ∷ []) b s q other))

  -- What is done to the assembled file.
  pub IsSparing-open : IsSparing (io d (d.open_truncated (data_path u)))
  IsSparing-open = rw (data_path-eq store prefixed id valid) (
      IsSparing-io (d.open_truncated (dir ++ id ∷ [])) id (is_assembled refl)
        (λ s q other. framed.open_truncated_other (dir ++ id ∷ []) s q other))

  pub IsSparing-append : (b : Bytes) → IsSparing (io d (d.append (data_path u) b))
  IsSparing-append b = rw (data_path-eq store prefixed id valid) (
      IsSparing-io (d.append (dir ++ id ∷ []) b) id (is_assembled refl)
        (λ s q other. framed.append_other (dir ++ id ∷ []) b s q other))

  pub IsSparing-flush : IsSparing (io d (d.flush (data_path u)))
  IsSparing-flush = rw (data_path-eq store prefixed id valid) (
      IsSparing-io (d.flush (dir ++ id ∷ [])) id (is_assembled refl)
        (λ s q other. framed.flush_other (dir ++ id ∷ []) s q other))

  pub IsSparing-read_info : IsSparing (read_info d u)
  unfolding read_info
  IsSparing-read_info =
      Keeps-bind (Spares-IsPreorder d l store id) _ _ (IsSparing-look (d.read (info_path u)))
        (λ bytes. Keeps-lift (Spares-IsPreorder d l store id) _)

  pub IsSparing-write_info : (info : UploadInfo) → IsSparing (write_info d u info)
  unfolding write_info
  IsSparing-write_info info =
      Keeps-bind (Spares-IsPreorder d l store id) _ _
        (Keeps-lift (Spares-IsPreorder d l store id) _)
        (λ json.
          IsSparing-write (info_path u) (id ++ codes ".info") json
            (info_path-eq store prefixed id valid) (is_info refl))

  -- Paths of files whose names are read as parts of the upload.
  abbrev pub AllParts : List FilePath → Type 0
  AllParts [] = Unit
  AllParts (p ∷ ps) =
      ((name : Text) × (n : ℕ) × (p ≡ dir ++ name ∷ []) × (part_index id name ≡ some n))
      × AllParts ps

  indexed-AllParts : (names : List (Option Text)) → AllParts (map (λ e. e.1) (indexed id dir names))
  unfolding indexed
  indexed-AllParts [] = tt
  indexed-AllParts (none ∷ names) = indexed-AllParts names
  indexed-AllParts (some name ∷ names) = elim (Option-cases (part_index id name)) [
    | inl other ↦ rw (other, AllParts) (indexed-AllParts names)
    | inr (n, index) ↦ rw (index, AllParts) ((name, n, refl, index), indexed-AllParts names)
  ]

  insert_sorted-AllParts :
      (e : ℕ × FilePath) (es : List (ℕ × FilePath))
      → AllParts (map (λ f. f.1) (e ∷ es))
      → AllParts (map (λ f. f.1) (insert_sorted e es))
  unfolding insert_sorted
  insert_sorted-AllParts e [] h = h
  insert_sorted-AllParts e (f ∷ es) (at_e, (at_f, rest)) = elim (Bool-cases (leb e.0 f.0)) [
    | inl first ↦ rw first (at_e, (at_f, rest))
    | inr later ↦ rw later (at_f, insert_sorted-AllParts e es (at_e, rest))
  ]

  sort_by_key-AllParts :
      (es : List (ℕ × FilePath))
      → AllParts (map (λ f. f.1) es)
      → AllParts (map (λ f. f.1) (sort_by_key es))
  unfolding sort_by_key
  sort_by_key-AllParts [] h = tt
  sort_by_key-AllParts (e ∷ es) (at_e, rest) =
      insert_sorted-AllParts e (sort_by_key es) (at_e, sort_by_key-AllParts es rest)

  -- A listing leaves the disk as it is and has only parts.
  abbrev IsListing : d.State → Result (List FilePath) × d.State → Type 0
  IsListing s r = (r.1 ≡ s) × ((ps : List FilePath) → r.0 ≡ ok ps → AllParts ps)

  read_names :
      (o : IoResult (List (Option Text))) (s : d.State)
      → IsListing s (
          continue
            (io_result o)
            (λ names t. (ok (map (λ e. e.1) (sort_by_key (indexed id dir names))), t))
            s)
  read_names (IoResult.failed e) s = (refl, λ ps h. cc)
  read_names (IoResult.done names) s = (
    refl,
    λ ps h.
        let same : map (λ e. e.1) (sort_by_key (indexed id dir names)) ≡ ps = cc in
        subst AllParts same (sort_by_key-AllParts (indexed id dir names) (indexed-AllParts names)),
  )

  listed :
      (o : IoResult Bool) (s : d.State) → IsListing s (continue (io_result o) (listing d id dir) s)
  listed (IoResult.failed e) s = (refl, λ ps h. cc)
  listed (IoResult.done false) s = (refl, λ ps h. let same : [] ≡ ps = cc in subst AllParts same tt)
  listed (IoResult.done true) s = read_names (d.read_dir dir s) s

  list-IsListing : (s : d.State) → IsListing s (list_part_paths_sorted d u s)
  unfolding list_part_paths_sorted
  list-IsListing s =
      rw (info_path-eq store prefixed id valid)
        (rw (parent-append dir (id ++ codes ".info")) (listed (d.try_exists dir s) s))

  -- What an operation does with the paths of the upload's parts.
  pub IsSparing-list :
      {B : Type 0} (f : List FilePath → d.State → Result B × d.State)
      → ((ps : List FilePath) → AllParts ps → IsSparing (f ps))
      → IsSparing (λ s. let (r, s') = list_part_paths_sorted d u s in continue r f s')
  IsSparing-list f rest =
      Keeps-bind_with (Spares-IsPreorder d l store id) (list_part_paths_sorted d u) f AllParts
        (record {
          at = λ s name foreign.
              as_it_was (ap (λ t. l.file t (dir ++ name ∷ [])) (list-IsListing s).0);
        })
        (λ s ps e. (list-IsListing s).1 ps e) rest
