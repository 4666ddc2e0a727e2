-- ===== src/Files/Keys/Foreign.antt =====
-- A file of one upload is never read as the part of another.
use fileloft.Base.{
  ℕ, ◌≡◌, ◌≢◌, refl, ap, sym, ◌∙◌, inl, inr, Bool, true, not, some, [], ◌∷◌, ◌++◌, append_assoc,
  arith, all, all-append, Text, codes, is_ascii_digit, to_string, ◌==◌, parse_u64, parse_u64-digits,
  parse_u64-nil, strip_prefix, Option-cases,
}
use fileloft.Error.{ok}
use fileloft.Info.Id.{UploadId, validate, is_id_byte}
use fileloft.Files.Keys.{part_name, part_prefix, part_index, parse_u32}
use fileloft.Files.Keys.Separate.{
  safe, tail_inj, no_digit_end, all_digits, part_name_tail, suffix_inj,
}

strip_prefix-split : (s p t : Text) → strip_prefix s p ≡ some t → s ≡ p ++ t
unfolding strip_prefix
strip_prefix-split s [] t h = cc
strip_prefix-split [] (c ∷ p) t h = cc
strip_prefix-split (d ∷ s) (c ∷ p) t h = ground (arith, strip_prefix-split s p t)

abbrev pub no_plus : ℕ → Bool
no_plus c = not (c == b'+')

parse_u32-digits :
    (s : Text) (n : ℕ)
    → all no_plus s ≡ true
    → parse_u32 s ≡ some n
    → (d : ℕ) × (ds : Text) × (s ≡ d ∷ ds) × (all is_ascii_digit (d ∷ ds) ≡ true)
unfolding parse_u32
parse_u32-digits [] n free h = elim (Option-cases (parse_u64 [])) [
  | inl bad ↦ cc (rw bad at h)
  | inr (k, e) ↦ absurd (parse_u64-nil k e)
]
parse_u32-digits (c ∷ s) n free h = elim (Option-cases (parse_u64 (c ∷ s))) [
  | inl bad ↦ cc (rw bad at h)
  | inr (k, e) ↦ (c, s, refl, parse_u64-digits c s k (ground (arith, free)) e)
]

-- What reads as a part of an upload is the upload's prefix and digits.
part_index-digits :
    (id : UploadId) (name : Text) (n : ℕ)
    → all no_plus name ≡ true
    → part_index id name ≡ some n
    → (d : ℕ) × (ds : Text) × (name ≡ part_prefix id ++ d ∷ ds)
      × (all is_ascii_digit (d ∷ ds) ≡ true)
unfolding part_index
part_index-digits id name n free h = elim (Option-cases (strip_prefix name (part_prefix id))) [
  | inl none_there ↦ cc (rw none_there at h)
  | inr (rest, e) ↦
      let same = strip_prefix-split name (part_prefix id) rest e in
      let both =
        sym (all-append no_plus (part_prefix id) rest) ∙ (ap (all no_plus) (sym same) ∙ free) in
      let (d, ds, f, digits) = parse_u32-digits rest n (ground (arith, both)) (rw e at h) in
      (d, ds, same ∙ ap (λ t. part_prefix id ++ t) f, digits)
]

id_byte-no_plus : (s : Text) → all is_id_byte s ≡ true → all no_plus s ≡ true
id_byte-no_plus [] h = refl
id_byte-no_plus (c ∷ s) h = ground (arith, id_byte-no_plus s)

digits-no_plus : (s : Text) → all is_ascii_digit s ≡ true → all no_plus s ≡ true
digits-no_plus [] h = refl
digits-no_plus (c ∷ s) h = ground (arith, digits-no_plus s)

module _ (i j : UploadId) (valid : validate i ≡ ok tt) (n : ℕ) where
  pub part_index-info : part_index j (i ++ codes ".info") ≢ some n
  part_index-info h =
      let free =
        all-append no_plus i (codes ".info")
        ∙ ground (arith, id_byte-no_plus i (safe i valid).bytes) in
      let (d, ds, e, digits) = part_index-digits j (i ++ codes ".info") n free h in
      no_digit_end (part_prefix j) (i ++ codes ".inf") d b'o' ds digits refl
        (sym e ∙ sym (append_assoc i (codes ".inf") (codes "o")))

  pub part_index-assembled : part_index j i ≢ some n
  part_index-assembled h =
      let (d, ds, e, digits) = part_index-digits j i n (id_byte-no_plus i (safe i valid).bytes) h in
      (safe i valid).no_part j d ds digits (e ∙ append_assoc j (codes "_part_") (d ∷ ds))

  pub part_index-part : (k : ℕ) → part_index j (part_name i k) ≡ some n → i ≡ j
  part_index-part k h =
      let free_i = id_byte-no_plus i (safe i valid).bytes in
      let free_k = digits-no_plus (to_string k) (all_digits k) in
      let free =
        all-append no_plus (part_prefix i) (to_string k)
        ∙ ground (arith, all-append no_plus i (codes "_part_"), free_i, free_k) in
      let (d, ds, e, digits) = part_index-digits j (part_name i k) n free h in
      let (front, tail) =
        tail_inj (i ++ codes "_part") (j ++ codes "_part") (to_string k) (d ∷ ds) (all_digits k)
          digits
          (sym (part_name_tail i k)
            ∙ (e
                ∙ (append_assoc j (codes "_part_") (d ∷ ds)
                    ∙ sym (append_assoc j (codes "_part") (b'_' ∷ d ∷ ds))))) in
      suffix_inj i j (codes "_part") front
