-- ===== src/Files/Uploads/Apart.antt =====
-- A change to the files of one upload leaves the other uploads of the store alone.
use fileloft.Base.{◌≡◌, ◌≢◌, refl, ap, sym, ◌∙◌, some, List, [], ◌∷◌, ◌++◌, Text, codes, ℕ}
use fileloft.Error.{ok}
use fileloft.Info.{UploadInfo}
use fileloft.Info.Id.{UploadId, validate}
use fileloft.Info.Codec.{Bytes}
use fileloft.Disk.{Disk}
use fileloft.Disk.Laws.{IsDisk}
use fileloft.Files.Keys.{FileStore, part_name, part_index}
use fileloft.Files.Keys.Layout.{folder_of}
use fileloft.Files.Keys.Separate.{NameOf, is_info, is_part, is_assembled, names_separate}
use fileloft.Files.Keys.Foreign.{part_index-info, part_index-part, part_index-assembled}
use fileloft.Files.Uploads.{Keeps}

module _ (d : Disk) (l : IsDisk d) (store : FileStore) where
  -- Only files with a name of the upload differ.
  abbrev pub Touches : UploadId → d.State → d.State → Type 0
  Touches id s s' =
      (name : Text)
      → ¬ NameOf id name
      → l.file s' (folder_of store ++ name ∷ []) ≡ l.file s (folder_of store ++ name ∷ [])

  module _ (id j : UploadId) (valid : validate id ≡ ok tt) (valid_j : validate j ≡ ok tt)
      (apart : id ≢ j) (s s' : d.State) (touched : Touches id s s') where
    same :
        (name : Text)
        → NameOf j name
        → l.file s' (folder_of store ++ name ∷ []) ≡ l.file s (folder_of store ++ name ∷ [])
    same name of_j = touched name λ of_id. apart (names_separate id j name valid valid_j of_id of_j)

    -- A name that is read as a part of the one is no name of the other.
    pub not_own : (name : Text) (n : ℕ) → part_index j name ≡ some n → ¬ NameOf id name
    not_own name n index (is_assembled e) =
        part_index-assembled id j valid n (ap (part_index j) (sym e) ∙ index)
    not_own name n index (is_info e) =
        part_index-info id j valid n (ap (part_index j) (sym e) ∙ index)
    not_own name n index (is_part m e) =
        apart (part_index-part id j valid n m (ap (part_index j) (sym e) ∙ index))

    pub Keeps-Touches :
        (info : UploadInfo) (chunks : List Bytes)
        → Keeps d l store s j info chunks
        → Keeps d l store s' j info chunks
    Keeps-Touches info chunks k = record {
      json = k.json;
      stored = same (j ++ codes ".info") (is_info refl) ∙ k.stored;
      decodes = k.decodes;
      chunk = λ n b e. same (part_name j n) (is_part n refl) ∙ k.chunk n b e;
      only = λ name n b there index.
          k.only name n b (sym (touched name (not_own name n index)) ∙ there) index;
      few = k.few;
    }

    pub assembled-Touches :
        l.file s' (folder_of store ++ j ∷ []) ≡ l.file s (folder_of store ++ j ∷ [])
    assembled-Touches = same j (is_assembled refl)
