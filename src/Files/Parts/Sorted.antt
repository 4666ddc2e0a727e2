-- ===== src/Files/Parts/Sorted.antt =====
-- A sorted list of entries that has every number below a bound once is the list in that order.
use fileloft.Base.{
  ℕ, zero, suc, ◌+◌, ◌≤◌, ◌<◌, ◌≡◌, refl, ap, ◌∙◌, inl, inr, Bool, true, false, ◌&&◌, List, [], ◌∷◌,
  arith, ltb, leb, ◌==◌, Bool-cases,
}
use fileloft.Disk.{FilePath}
use fileloft.Files.Keys.{insert_sorted, sort_by_key}

abbrev pub bit : Bool → ℕ
bit true = 1
bit false = 0

-- How many entries have the number `k`.
unfoldable pub count : ℕ → List (ℕ × FilePath) → ℕ
count k [] = 0
count k (e ∷ es) = bit (e.0 == k) + count k es

pub count_first :
    (k : ℕ) (p : FilePath) (es : List (ℕ × FilePath)) → count k es ≡ 0 → count k ((k, p) ∷ es) ≡ 1
unfolding count
count_first k p es h = ground arith

abbrev AllFrom : ℕ → List (ℕ × FilePath) → Type 0
AllFrom k [] = Unit
AllFrom k (e ∷ es) = (k ≤ e.0) × AllFrom k es

abbrev IsSorted : List (ℕ × FilePath) → Type 0
IsSorted [] = Unit
IsSorted (e ∷ es) = AllFrom e.0 es × IsSorted es

AllFrom-mono : (j k : ℕ) (es : List (ℕ × FilePath)) → j ≤ k → AllFrom k es → AllFrom j es
AllFrom-mono j k [] le h = tt
AllFrom-mono j k (e ∷ es) le (first, rest) = (omega arith, AllFrom-mono j k es le rest)

AllFrom-insert_sorted :
    (k : ℕ) (e : ℕ × FilePath) (es : List (ℕ × FilePath))
    → k ≤ e.0
    → AllFrom k es
    → AllFrom k (insert_sorted e es)
unfolding insert_sorted
AllFrom-insert_sorted k e [] le h = (le, tt)
AllFrom-insert_sorted k e (f ∷ es) le (first, rest) = elim (Bool-cases (leb e.0 f.0)) [
  | inl before ↦ rw before (le, (first, rest))
  | inr after ↦ rw after (first, AllFrom-insert_sorted k e es le rest)
]

IsSorted-insert_sorted :
    (e : ℕ × FilePath) (es : List (ℕ × FilePath)) → IsSorted es → IsSorted (insert_sorted e es)
unfolding insert_sorted
IsSorted-insert_sorted e [] h = (tt, tt)
IsSorted-insert_sorted e (f ∷ es) (first, rest) = elim (Bool-cases (leb e.0 f.0)) [
  | inl before ↦ rw before (
    ((ground (arith, before), AllFrom-mono e.0 f.0 es (ground (arith, before)) first)),
    (first, rest),
  )
  | inr after ↦ rw after (
    AllFrom-insert_sorted f.0 e es (ground (arith, after)) first,
    IsSorted-insert_sorted e es rest,
  )
]

IsSorted-sort_by_key : (es : List (ℕ × FilePath)) → IsSorted (sort_by_key es)
unfolding sort_by_key
IsSorted-sort_by_key [] = tt
IsSorted-sort_by_key (e ∷ es) = IsSorted-insert_sorted e (sort_by_key es) (IsSorted-sort_by_key es)

count-insert_sorted :
    (k : ℕ) (e : ℕ × FilePath) (es : List (ℕ × FilePath))
    → count k (insert_sorted e es) ≡ bit (e.0 == k) + count k es
unfolding insert_sorted count
count-insert_sorted k e [] = refl
count-insert_sorted k e (f ∷ es) = elim (Bool-cases (leb e.0 f.0)) [
  | inl before ↦ rw before refl
  | inr after ↦ rw after (omega (arith, count-insert_sorted k e es))
]

count-sort_by_key : (k : ℕ) (es : List (ℕ × FilePath)) → count k (sort_by_key es) ≡ count k es
unfolding sort_by_key count
count-sort_by_key k [] = refl
count-sort_by_key k (e ∷ es) =
    count-insert_sorted k e (sort_by_key es) ∙ ap (λ n. bit (e.0 == k) + n) (count-sort_by_key k es)

module _ (path : ℕ → FilePath) where
  -- Every entry has the path that belongs to its number.
  abbrev pub AllEntries : List (ℕ × FilePath) → Type 0
  AllEntries [] = Unit
  AllEntries (e ∷ es) = (e.1 ≡ path e.0) × AllEntries es

  unfoldable pub entries : ℕ → ℕ → List (ℕ × FilePath)
  entries k zero = []
  entries k (suc m) = (k, path k) ∷ entries (k + 1) m

  AllEntries-insert_sorted :
      (e : ℕ × FilePath) (es : List (ℕ × FilePath))
      → e.1 ≡ path e.0
      → AllEntries es
      → AllEntries (insert_sorted e es)
  unfolding insert_sorted
  AllEntries-insert_sorted e [] le h = (le, tt)
  AllEntries-insert_sorted e (f ∷ es) le (first, rest) = elim (Bool-cases (leb e.0 f.0)) [
    | inl before ↦ rw before (le, (first, rest))
    | inr after ↦ rw after (first, AllEntries-insert_sorted e es le rest)
  ]

  AllEntries-sort_by_key : (es : List (ℕ × FilePath)) → AllEntries es → AllEntries (sort_by_key es)
  unfolding sort_by_key
  AllEntries-sort_by_key [] h = tt
  AllEntries-sort_by_key (e ∷ es) (first, rest) =
      AllEntries-insert_sorted e (sort_by_key es) first (AllEntries-sort_by_key es rest)

  -- One entry for each number from `k` on, `m` of them.
  abbrev pub Counts : ℕ → ℕ → List (ℕ × FilePath) → Type 0
  Counts k m es = (i : ℕ) → count i es ≡ bit (leb k i && ltb i (k + m))

  count-below : (j k : ℕ) (es : List (ℕ × FilePath)) → AllFrom j es → k < j → count k es ≡ 0
  unfolding count
  count-below j k [] h lt = refl
  count-below j k (e ∷ es) (first, rest) lt = ground (arith, count-below j k es rest lt)

  first_number :
      (k m : ℕ) (e : ℕ × FilePath) (es : List (ℕ × FilePath))
      → AllFrom e.0 es
      → Counts k (suc m) (e ∷ es)
      → e.0 ≡ k
  unfolding count
  first_number k m e es above counts = elim (Bool-cases (ltb k e.0)) [
    | inl less ↦
        let none_left = count-below e.0 k es above (ground (arith, less)) in
        absurd (ground (arith, counts k, none_left, less))
    | inr not_less ↦ ground (arith, counts e.0, not_less)
  ]

  sorted_entries :
      (m k : ℕ) (es : List (ℕ × FilePath))
      → AllEntries es
      → IsSorted es
      → Counts k m es
      → es ≡ entries k m
  unfolding entries count
  sorted_entries zero k [] own sorted counts = refl
  sorted_entries zero k (e ∷ es) own sorted counts = absurd (ground (arith, counts e.0))
  sorted_entries (suc m) k [] own sorted counts = absurd (ground (arith, counts k))
  sorted_entries (suc m) k (e ∷ es) (mine, own) (above, sorted) counts =
      let number = first_number k m e es above counts in
      let rest : es ≡ entries (k + 1) m =
        sorted_entries m (k + 1) es own sorted (λ i. ground (arith, counts i, number)) in
      let second : e.1 ≡ path k = mine ∙ ap path number in cc

  pub sort_by_key-entries :
      (m : ℕ) (es : List (ℕ × FilePath))
      → AllEntries es
      → Counts 0 m es
      → sort_by_key es ≡ entries 0 m
  sort_by_key-entries m es own counts =
      sorted_entries m 0 (sort_by_key es) (AllEntries-sort_by_key es own) (IsSorted-sort_by_key es)
        (λ i. count-sort_by_key i es ∙ counts i)
