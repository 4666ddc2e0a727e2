-- ===== src/Files/Parts.antt =====
-- The listing of an upload's parts: whatever the order in which the folder is read, the parts come
-- out in the order of their numbers.
pub mod Sorted
use fileloft.Base.{
  ℕ, zero, suc, ◌+◌, ◌≤◌, ◌<◌, ◌≡◌, ◌≢◌, refl, ap, sym, ◌∙◌, subst, inl, inr, ◌⊎◌, Bool, true,
  false, not, ◌&&◌, Option, none, some, List, [], ◌∷◌, ◌++◌, map, arith, if◌then◌else◌, ltb, leb,
  ◌==◌, Text, codes, strip_prefix, to_string, u64_max, parse_u64, parse_u64-to_string, Option-cases,
  Bool-cases, length,
}
use fileloft.Info.Id.{UploadId}
use fileloft.Disk.{FilePath}
use fileloft.Disk.Laws.{Named, here, there, AllDistinct}
use fileloft.Files.Keys.{
  part_name, part_prefix, u32_max, parse_u32, part_index, indexed, insert_sorted, sort_by_key,
}
use Sorted.{Counts, bit, count_first, count, entries, sort_by_key-entries, AllEntries}

strip_prefix-append : (p s : Text) → strip_prefix (p ++ s) p ≡ some s
unfolding strip_prefix
strip_prefix-append [] s = refl
strip_prefix-append (c ∷ p) s = ground (arith, strip_prefix-append p s)

pub part_index-part_name :
    (id : UploadId) (n : ℕ) → n ≤ u32_max → part_index id (part_name id n) ≡ some n
unfolding part_index parse_u32
part_index-part_name id n le =
    rw (strip_prefix-append (part_prefix id) (to_string n))
      (rw (parse_u64-to_string n (omega (arith, le))) (ground (arith, le)))

module _ (id : UploadId) (dir : FilePath) where
  -- The only names that are read as the number of a part are those that the store writes.
  abbrev pub AllCanonical : ℕ → List (Option Text) → Type 0
  AllCanonical total names =
      (name : Text) (n : ℕ)
      → Named name names
      → part_index id name ≡ some n
      → (name ≡ part_name id n) × (n < total)

  tail_canonical :
      (total : ℕ) (o : Option Text) (names : List (Option Text))
      → AllCanonical total (o ∷ names)
      → AllCanonical total names
  tail_canonical total o names h name n m = h name n (there o names m)

  count_absent :
      (total k : ℕ) (names : List (Option Text))
      → AllCanonical total names
      → ¬ Named (part_name id k) names
      → count k (indexed id dir names) ≡ 0
  unfolding indexed count
  count_absent total k [] h absent = refl
  count_absent total k (none ∷ names) h absent =
      count_absent total k names (tail_canonical total none names h)
        (λ m. absent (there none names m))
  count_absent total k (some name ∷ names) h absent =
      let rest =
        count_absent total k names (tail_canonical total (some name) names h)
          (λ m. absent (there (some name) names m)) in
      elim (Option-cases (part_index id name)) [
        | inl other ↦ rw (other, indexed) rest
        | inr (n, e) ↦
            let canonical = (h name n (here names) e).0 in
            let apart : n ≢ k = λ same. absent (
              subst (λ t. Named t (some name ∷ names)) (canonical ∙ ap (part_name id) same)
                (here names)) in
            rw (e, indexed) (ground (arith, rest, apart))
      ]

  count_once :
      (total k : ℕ) (names : List (Option Text))
      → AllCanonical total names
      → k ≤ u32_max
      → Named (part_name id k) names
      → AllDistinct names
      → count k (indexed id dir names) ≡ 1
  unfolding indexed count
  count_once total k _ h le (here names) (fresh, distinct) =
      let absent =
        count_absent total k names (tail_canonical total (some (part_name id k)) names h) fresh in
      rw (part_index-part_name id k le, indexed)
        (count_first k (dir ++ part_name id k ∷ []) (indexed id dir names) absent)
  count_once total k _ h le (there none names m) distinct =
      count_once total k names (tail_canonical total none names h) le m distinct
  count_once total k _ h le (there (some name) names m) (fresh, distinct) =
      let rest =
        count_once total k names (tail_canonical total (some name) names h) le m distinct in
      elim (Option-cases (part_index id name)) [
        | inl other ↦ rw (other, indexed) rest
        | inr (n, e) ↦
            let canonical = (h name n (here names) e).0 in
            let apart : n ≢ k = λ same.
              fresh (subst (λ t. Named t names) (sym (canonical ∙ ap (part_name id) same)) m) in
            rw (e, indexed) (ground (arith, rest, apart))
      ]

  abbrev pub part_entry : ℕ → FilePath
  part_entry n = dir ++ part_name id n ∷ []

  indexed-AllEntries :
      (total : ℕ) (names : List (Option Text))
      → AllCanonical total names
      → AllEntries part_entry (indexed id dir names)
  unfolding indexed
  indexed-AllEntries total [] h = tt
  indexed-AllEntries total (none ∷ names) h =
      indexed-AllEntries total names (tail_canonical total none names h)
  indexed-AllEntries total (some name ∷ names) h =
      let rest = indexed-AllEntries total names (tail_canonical total (some name) names h) in
      elim (Option-cases (part_index id name)) [
        | inl other ↦ rw (other, indexed) rest
        | inr (n, e) ↦ rw (e, indexed) (ap (λ t. dir ++ t ∷ []) (h name n (here names) e).0, rest)
      ]

  count_beyond :
      (total k : ℕ) (names : List (Option Text))
      → AllCanonical total names
      → total ≤ k
      → count k (indexed id dir names) ≡ 0
  unfolding indexed count
  count_beyond total k [] h le = refl
  count_beyond total k (none ∷ names) h le =
      count_beyond total k names (tail_canonical total none names h) le
  count_beyond total k (some name ∷ names) h le =
      let rest = count_beyond total k names (tail_canonical total (some name) names h) le in
      elim (Option-cases (part_index id name)) [
        | inl other ↦ rw (other, indexed) rest
        | inr (n, e) ↦
            let inside = (h name n (here names) e).1 in
            rw (e, indexed) (ground (arith, rest, inside))
      ]

  -- The listing, if the folder has each of the names of the first parts and no other part.
  pub sort_by_key-indexed :
      (total : ℕ) (names : List (Option Text))
      → total ≤ u32_max
      → AllDistinct names
      → ((n : ℕ) → n < total → Named (part_name id n) names)
      → AllCanonical total names
      → sort_by_key (indexed id dir names) ≡ entries part_entry 0 total
  sort_by_key-indexed total names le distinct listed canonical =
      sort_by_key-entries part_entry total (indexed id dir names)
        (indexed-AllEntries total names canonical) counts
    where
      counts : Counts part_entry 0 total (indexed id dir names)
      counts i = elim (Bool-cases (ltb i total)) [
        | inl inside ↦
            let once =
              count_once total i names canonical (ground (arith, le, inside))
                (listed i (ground (arith, inside))) distinct in
            ground (arith, once, inside)
        | inr outside ↦
            let none_left = count_beyond total i names canonical (ground (arith, outside)) in
            ground (arith, none_left, outside)
      ]
