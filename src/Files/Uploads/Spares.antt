-- ===== src/Files/Uploads/Spares.antt =====
-- What an operation on one upload may do to the files of a store: change the upload's own, and
-- remove a file whose name is read as one of its parts.
use fileloft.Base.{ℕ, ◌≡◌, ◌≢◌, refl, ap, sym, ◌∙◌, none, some, List, [], ◌∷◌, ◌++◌, Text, codes}
use fileloft.Error.{ok}
use fileloft.Exec.Keeps.{IsPreorder}
use fileloft.Info.{UploadInfo}
use fileloft.Info.Id.{UploadId, validate}
use fileloft.Info.Codec.{Bytes}
use fileloft.Disk.{FilePath, Disk}
use fileloft.Disk.Laws.{IsDisk}
use fileloft.Files.Keys.{FileStore, part_name, part_index}
use fileloft.Files.Keys.Layout.{folder_of}
use fileloft.Files.Keys.Separate.{NameOf, is_info, is_part, is_assembled, names_separate}
use fileloft.Files.Keys.Foreign.{part_index-info, part_index-part, part_index-assembled}
use fileloft.Files.Uploads.{Keeps}
use fileloft.Files.Uploads.Apart.{not_own}

module _ (d : Disk) (l : IsDisk d) (store : FileStore) (id : UploadId) where
  abbrev dir : FilePath
  dir = folder_of store

  -- What became of a file between two states.
  pub data Fate (name : Text) (s s' : d.State) : Type 0 where
    as_it_was : l.file s' (dir ++ name ∷ []) ≡ l.file s (dir ++ name ∷ []) → Fate name s s'
    removed :
        (n : ℕ) → part_index id name ≡ some n → l.file s' (dir ++ name ∷ []) ≡ none → Fate name s s'

  abbrev pub Spares : d.State → d.State → Type 0
  Spares s s' = (name : Text) → ¬ NameOf id name → Fate name s s'

  Fate-chain : (name : Text) (u v w : d.State) → Fate name u v → Fate name v w → Fate name u w
  Fate-chain name u v w f (removed n index e) = removed n index e
  Fate-chain name u v w (as_it_was e1) (as_it_was e2) = as_it_was (e2 ∙ e1)
  Fate-chain name u v w (removed n index e1) (as_it_was e2) = removed n index (e2 ∙ e1)

  pub Spares-IsPreorder : IsPreorder Spares
  Spares-IsPreorder = record {
    here = λ s name foreign. as_it_was refl;
    chain = λ u v w f g name foreign. Fate-chain name u v w (f name foreign) (g name foreign);
  }

  module _ (valid : validate id ≡ ok tt) (j : UploadId) (valid_j : validate j ≡ ok tt)
      (apart : id ≢ j) (s s' : d.State) (spares : Spares s s') where
    -- No name of the upload `j` is read as a part of the other.
    not_index : (name : Text) (n : ℕ) → NameOf j name → part_index id name ≢ some n
    not_index name n (is_assembled e) index =
        part_index-assembled j id valid_j n (ap (part_index id) (sym e) ∙ index)
    not_index name n (is_info e) index =
        part_index-info j id valid_j n (ap (part_index id) (sym e) ∙ index)
    not_index name n (is_part m e) index =
        apart (sym (part_index-part j id valid_j n m (ap (part_index id) (sym e) ∙ index)))

    kept_file :
        (name : Text) → NameOf j name → l.file s' (dir ++ name ∷ []) ≡ l.file s (dir ++ name ∷ [])
    kept_file name own =
        elim (spares name λ other. apart (names_separate id j name valid valid_j other own)) [
          | as_it_was e ↦ e
          | removed n index e ↦ absurd (not_index name n own index)
        ]

    pub Keeps-Spares :
        (info : UploadInfo) (chunks : List Bytes)
        → Keeps d l store s j info chunks
        → Keeps d l store s' j info chunks
    Keeps-Spares info chunks k = record {
      json = k.json;
      stored = kept_file (j ++ codes ".info") (is_info refl) ∙ k.stored;
      decodes = k.decodes;
      chunk = λ n b e. kept_file (part_name j n) (is_part n refl) ∙ k.chunk n b e;
      only = λ name n b there index.
          elim (spares name
            (not_own d l store id j valid valid_j apart s s (λ t foreign. refl) name n index)) [
              | as_it_was e ↦ k.only name n b (sym e ∙ there) index
              | removed m other e ↦ cc
            ];
      few = k.few;
    }

    pub assembled-Spares : l.file s' (dir ++ j ∷ []) ≡ l.file s (dir ++ j ∷ [])
    assembled-Spares = kept_file j (is_assembled refl)
