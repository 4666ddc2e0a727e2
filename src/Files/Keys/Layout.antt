-- ===== src/Files/Keys/Layout.antt =====
-- All files of a store are in one folder, each under its own name.
use fileloft.Base.{
  ℕ, ◌≡◌, refl, ap, sym, ◌∙◌, inl, inr, Bool, true, false, not, ◌⊎◌, some, List, [], ◌∷◌, ◌++◌,
  append_assoc, append-nil, arith, all, is_empty, ◌==◌, Text, codes, split, ends_with, Bool-cases,
}
use fileloft.Disk.{FilePath}
use fileloft.Info.Id.Reserved.{ends_with-split}
use fileloft.Files.Keys.{FileStore, with_prefix, nonempty, key_to_path, parent}

abbrev pub no_slash : ℕ → Bool
no_slash c = not (c == b'/')

-- The folder that the store's keys lead to.
unfoldable pub folder_of : FileStore → FilePath
folder_of store = store.root ++ nonempty (split b'/' store.prefix)

-- A prefix that `with_prefix` makes.
abbrev pub IsPrefixed : FileStore → Type 0
IsPrefixed store = (store.prefix ≡ []) ⊎ ((q : Text) × (store.prefix ≡ q ++ codes "/"))

pub with_prefix-IsPrefixed :
    (root : FilePath) (prefix : Text) → IsPrefixed (with_prefix root prefix)
unfolding with_prefix
with_prefix-IsPrefixed root [] = inl refl
with_prefix-IsPrefixed root (c ∷ prefix) = elim (Bool-cases (ends_with (c ∷ prefix) (codes "/"))) [
  | inl slashed ↦ rw slashed (inr (ends_with-split (c ∷ prefix) (codes "/") slashed))
  | inr bare ↦ rw bare (inr (c ∷ prefix, refl))
]

split-free : (s : Text) → all no_slash s ≡ true → split b'/' s ≡ s ∷ []
unfolding split
split-free [] h = refl
split-free (c ∷ s) h = ground (arith, split-free s)

split_nonempty : (s : Text) → (w : Text) × (ws : List Text) × (split b'/' s ≡ w ∷ ws)
unfolding split
split_nonempty [] = ([], [], refl)
split_nonempty (c ∷ s) = elim (Bool-cases (c == b'/')) [
  | inl slash ↦ ([], split b'/' s, rw slash refl)
  | inr other ↦ let (w, ws, e) = split_nonempty s in (c ∷ w, ws, rw (other, e) refl)
]

split-slash : (a b : Text) → split b'/' (a ++ b'/' ∷ b) ≡ split b'/' a ++ split b'/' b
unfolding split
split-slash [] b = refl
split-slash (c ∷ a) b = let (w, ws, e) = split_nonempty a in ground (arith, split-slash a b, e)

nonempty-append : (a b : List Text) → nonempty (a ++ b) ≡ nonempty a ++ nonempty b
unfolding nonempty
nonempty-append [] b = refl
nonempty-append (w ∷ a) b = ground (arith, nonempty-append a b)

pub parent-append : (dir : FilePath) (name : Text) → parent (dir ++ name ∷ []) ≡ some dir
unfolding parent
parent-append [] name = refl
parent-append (seg ∷ []) name = refl
parent-append (seg ∷ next ∷ dir) name = rw (parent-append (next ∷ dir) name) refl

pub entry_inj : (dir : FilePath) (a b : Text) → dir ++ a ∷ [] ≡ dir ++ b ∷ [] → a ≡ b
entry_inj [] a b h = cc
entry_inj (seg ∷ dir) a b h = entry_inj dir a b (cc)

nonempty-name : (name : Text) → is_empty name ≡ false → nonempty (name ∷ []) ≡ name ∷ []
unfolding nonempty
nonempty-name name h = rw h refl

-- The path of a name behind the prefix.
pub key_to_path-append :
    (store : FileStore) (name : Text)
    → IsPrefixed store
    → is_empty name ≡ false
    → all no_slash name ≡ true
    → key_to_path store (store.prefix ++ name) ≡ folder_of store ++ name ∷ []
unfolding key_to_path folder_of
key_to_path-append store name (inl bare) full free = rw bare (
    rw (split-free name free, nonempty-name name full)
      (unfold nonempty split in ap (λ t. t ++ name ∷ []) (sym (append-nil store.root))))
key_to_path-append store name (inr (q, slashed)) full free =
    let dir = nonempty (split b'/' q) in
    let same : nonempty (split b'/' q ++ split b'/' []) ≡ dir =
      nonempty-append (split b'/' q) (split b'/' []) ∙ (unfold nonempty split in append-nil dir) in
    rw slashed (
      rw (append_assoc q (codes "/") name, split-slash q name, split-slash q [])
        (rw (nonempty-append (split b'/' q), split-free name free, nonempty-name name full)
          (rw same (sym (append_assoc store.root dir (name ∷ []))))))
