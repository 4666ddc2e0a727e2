-- ===== src/Tests/Folder.antt =====
-- A disk in memory: for each folder, the list of its files.
use fileloft.Base.{
  ◌≡◌, ◌↔◌, refl, ap, sym, ◌∙◌, subst, inl, inr, ◌⊎◌, Bool, true, false, ◌&&◌, Option, none, some,
  List, [], ◌∷◌, ◌++◌, arith, Text, if◌then◌else◌, text_eq, text_eq_iff, Bool-cases, Option-cases,
}
use fileloft.Base.Map
use fileloft.Base.Map.{Map}
use fileloft.Info.Codec.{Bytes}
use fileloft.Disk.{FilePath}
use fileloft.Disk.Laws.{Named, here, there, AllDistinct}

unfoldable pub path_eq : FilePath → FilePath → Bool
path_eq [] [] = true
path_eq [] (b ∷ q) = false
path_eq (a ∷ p) [] = false
path_eq (a ∷ p) (b ∷ q) = text_eq a b && path_eq p q

pub path_eq_iff : (p q : FilePath) → (path_eq p q ≡ true) ↔ (p ≡ q)
unfolding path_eq
path_eq_iff [] [] = ground arith
path_eq_iff [] (b ∷ q) = ground arith
path_eq_iff (a ∷ p) [] = ground arith
path_eq_iff (a ∷ p) (b ∷ q) = ground (arith, text_eq_iff a b, path_eq_iff p q)

-- A path as its folder and its name.
abbrev put_front : Text → Option (FilePath × Text) → Option (FilePath × Text)
put_front a none = some ([], a)
put_front a (some (dir, name)) = some (a ∷ dir, name)

unfoldable pub unsnoc : FilePath → Option (FilePath × Text)
unsnoc [] = none
unsnoc (a ∷ p) = put_front a (unsnoc p)

pub unsnoc-append : (dir : FilePath) (name : Text) → unsnoc (dir ++ name ∷ []) ≡ some (dir, name)
unfolding unsnoc
unsnoc-append [] name = refl
unsnoc-append (a ∷ dir) name = ap (put_front a) (unsnoc-append dir name)

abbrev pub glue : Option (FilePath × Text) → FilePath
glue none = []
glue (some (dir, name)) = dir ++ name ∷ []

glue-put_front : (a : Text) (o : Option (FilePath × Text)) → glue (put_front a o) ≡ a ∷ glue o
glue-put_front a none = refl
glue-put_front a (some (dir, name)) = refl

pub glue-unsnoc : (p : FilePath) → glue (unsnoc p) ≡ p
unfolding unsnoc
glue-unsnoc [] = refl
glue-unsnoc (a ∷ p) = glue-put_front a (unsnoc p) ∙ ap (λ q. a ∷ q) (glue-unsnoc p)

-- The names in a list of files, each once.
unfoldable pub names : Map Bytes → List (Option Text)
names [] = []
names ((k, b) ∷ m) = let rest = names m in if Map.contains_key k m then rest else some k ∷ rest

contains-get :
    (k : Text) (m : Map Bytes) → Map.contains_key k m ≡ true → (b : Bytes) × (Map.get k m ≡ some b)
contains-get k m h = elim (Option-cases (Map.get k m)) [
  | inl bare ↦ absurd (ground (arith, bare))
  | inr found ↦ found
]

pub names-Named : (k : Text) (b : Bytes) (m : Map Bytes) → Map.get k m ≡ some b → Named k (names m)
unfolding names Map.get
names-Named k b [] h = cc
names-Named k b ((j, c) ∷ m) h =
    let later = λ (other : text_eq j k ≡ false). names-Named k b m (rw other at h) in
    elim (Bool-cases (Map.contains_key j m)) [
      | inl again ↦ elim (Bool-cases (text_eq j k)) [
        | inl same ↦
            let (b1, e) = contains-get j m again in
            rw again
              (names-Named k b1 m (ap (λ t. Map.get t m) (sym ((text_eq_iff j k).0 same)) ∙ e))
        | inr other ↦ rw again (later other)
      ]
      | inr once ↦ elim (Bool-cases (text_eq j k)) [
        | inl same ↦ rw once (
            subst (λ t. Named k (some t ∷ names m)) (sym ((text_eq_iff j k).0 same))
              (here (names m)))
        | inr other ↦ rw once (there (some j) (names m) (later other))
      ]
    ]

Named-cases : (k j : Text) (ns : List (Option Text)) → Named k (some j ∷ ns) → (k ≡ j) ⊎ Named k ns
Named-cases k j ns (here _) = inl refl
Named-cases k j ns (there _ _ n) = inr n

pub Named-get :
    (k : Text) (m : Map Bytes) → Named k (names m) → (b : Bytes) × (Map.get k m ≡ some b)
unfolding names Map.get
Named-get k [] n = elim n [ ]
Named-get k ((j, c) ∷ m) n =
    let later : Named k (names m) → (b : Bytes) × (Map.get k ((j, c) ∷ m) ≡ some b) = λ n1.
      elim (Bool-cases (text_eq j k)) [
        | inl same ↦ (c, rw same refl)
        | inr other ↦ let (b, e) = Named-get k m n1 in (b, rw other e)
      ] in
    elim (Bool-cases (Map.contains_key j m)) [
      | inl again ↦ later (rw again at n)
      | inr once ↦ elim (Named-cases k j (names m) (rw once at n)) [
        | inl same ↦ (c, rw ((text_eq_iff j k).1 (sym same)) refl)
        | inr n1 ↦ later n1
      ]
    ]

pub AllDistinct-names : (m : Map Bytes) → AllDistinct (names m)
unfolding names
AllDistinct-names [] = tt
AllDistinct-names ((j, c) ∷ m) = elim (Bool-cases (Map.contains_key j m)) [
  | inl again ↦ rw again (AllDistinct-names m)
  | inr once ↦
      rw once
        (λ n. let (b, e) = Named-get j m n in absurd (ground (arith, once, e)), AllDistinct-names m)
]
