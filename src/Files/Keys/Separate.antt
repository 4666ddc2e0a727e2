-- ===== src/Files/Keys/Separate.antt =====
-- No file name serves two uploads.
use fileloft.Base.{
  ℕ, ◌≡◌, ◌≢◌, refl, ap, sym, ◌∙◌, subst, true, false, [], ◌∷◌, ◌++◌, append_assoc, arith, all,
  all-append, Text, codes, is_ascii_digit, to_string, to_string-digits, length-append, length,
}
use fileloft.Error.{ok}
use fileloft.Info.Id.{UploadId, validate}
use fileloft.Info.Id.Safe.{IsSafe, validate_str_iff}
use fileloft.Files.Keys.{part_name, part_prefix}

-- What a name can be to an upload.
pub data NameOf (id : UploadId) (name : Text) : Type 0 where
  is_assembled : name ≡ id → NameOf id name
  is_info : name ≡ id ++ codes ".info" → NameOf id name
  is_part : (n : ℕ) → name ≡ part_name id n → NameOf id name

pub suffix_inj : (a b t : Text) → a ++ t ≡ b ++ t → a ≡ b
suffix_inj [] [] t h = refl
suffix_inj [] (d ∷ b) t h = absurd (omega (arith, ap length h, length-append b t))
suffix_inj (c ∷ a) [] t h = absurd (omega (arith, ap length h, length-append a t))
suffix_inj (c ∷ a) (d ∷ b) t h = let rest = suffix_inj a b t (cc) in cc

-- The digits at the end of a name are those behind its last underscore.
pub tail_inj :
    (a b ds es : Text)
    → all is_ascii_digit ds ≡ true
    → all is_ascii_digit es ≡ true
    → a ++ b'_' ∷ ds ≡ b ++ b'_' ∷ es
    → (a ≡ b) × (ds ≡ es)
tail_inj [] [] ds es hd he h = (refl, cc)
tail_inj [] (c ∷ b) ds es hd he h =
    let e : ds ≡ b ++ b'_' ∷ es = cc in
    let digits = rw e at hd in
    absurd (ground (arith, digits, all-append is_ascii_digit b (b'_' ∷ es)))
tail_inj (c ∷ a) [] ds es hd he h =
    let e : es ≡ a ++ b'_' ∷ ds = cc in
    let digits = rw e at he in
    absurd (ground (arith, digits, all-append is_ascii_digit a (b'_' ∷ ds)))
tail_inj (c ∷ a) (d ∷ b) ds es hd he h =
    let (same, digits) = tail_inj a b ds es hd he (cc) in (cc, digits)

pub no_digit_end :
    (a b : Text) (d c : ℕ) (ds : Text)
    → all is_ascii_digit (d ∷ ds) ≡ true
    → is_ascii_digit c ≡ false
    → a ++ d ∷ ds ≢ b ++ c ∷ []
no_digit_end [] b d c ds digits other h =
    let all_digits = subst (λ s. all is_ascii_digit s ≡ true) h digits in
    ground (arith, all_digits, all-append is_ascii_digit b (c ∷ []))
no_digit_end (x ∷ a) [] d c ds digits other h =
    let e : a ++ d ∷ ds ≡ [] = cc in omega (arith, ap length e, length-append a (d ∷ ds))
no_digit_end (x ∷ a) (y ∷ b) d c ds digits other h = no_digit_end a b d c ds digits other (cc)

pub part_name_tail :
    (id : UploadId) (n : ℕ) → part_name id n ≡ (id ++ codes "_part") ++ b'_' ∷ to_string n
part_name_tail id n =
    append_assoc id (codes "_part_") (to_string n)
    ∙ sym (append_assoc id (codes "_part") (b'_' ∷ to_string n))

pub all_digits : (n : ℕ) → all is_ascii_digit (to_string n) ≡ true
all_digits n = let (d, ds, e, digits) = to_string-digits n in rw e digits

pub safe : (id : UploadId) → validate id ≡ ok tt → IsSafe id
unfolding validate
safe id valid = (validate_str_iff id).0 valid

pub part_name_inj :
    (i j : UploadId) (n m : ℕ)
    → part_name i n ≡ part_name j m
    → (i ≡ j) × (to_string n ≡ to_string m)
part_name_inj i j n m h =
    let (front, tail) =
      tail_inj (i ++ codes "_part") (j ++ codes "_part") (to_string n) (to_string m) (all_digits n)
        (all_digits m) (sym (part_name_tail i n) ∙ (h ∙ part_name_tail j m)) in
    (suffix_inj i j (codes "_part") front, tail)

module _ (i j : UploadId) (safe_i : IsSafe i) (n : ℕ) where
  pub id-ne-part : i ≢ part_name j n
  id-ne-part h =
      let (d, ds, e, digits) = to_string-digits n in
      safe_i.no_part j d ds digits (
        h
        ∙ (append_assoc j (codes "_part_") (to_string n) ∙ ap (λ t. j ++ (codes "_part_" ++ t)) e))

  pub info-ne-part : i ++ codes ".info" ≢ part_name j n
  info-ne-part h =
      let (d, ds, e, digits) = to_string-digits n in
      no_digit_end (part_prefix j) (i ++ codes ".inf") d b'o' ds digits refl (
        ap (λ t. part_prefix j ++ t) (sym e)
        ∙ (sym h ∙ sym (append_assoc i (codes ".inf") (codes "o"))))

-- If two valid identifiers have a file name in common, each as the name of the assembled file, of
-- the `.info` file or of a part, then they are the same identifier.
pub names_separate :
    (i j : UploadId) (name : Text)
    → validate i ≡ ok tt
    → validate j ≡ ok tt
    → NameOf i name
    → NameOf j name
    → i ≡ j
names_separate i j name vi vj (is_assembled e) (is_assembled f) = sym e ∙ f
names_separate i j name vi vj (is_assembled e) (is_info f) =
    absurd ((safe i vi).no_info j (sym e ∙ f))
names_separate i j name vi vj (is_assembled e) (is_part n f) =
    absurd (id-ne-part i j (safe i vi) n (sym e ∙ f))
names_separate i j name vi vj (is_info e) (is_assembled f) =
    absurd ((safe j vj).no_info i (sym f ∙ e))
names_separate i j name vi vj (is_info e) (is_info f) = suffix_inj i j (codes ".info") (sym e ∙ f)
names_separate i j name vi vj (is_info e) (is_part n f) =
    absurd (info-ne-part i j (safe i vi) n (sym e ∙ f))
names_separate i j name vi vj (is_part n e) (is_assembled f) =
    absurd (id-ne-part j i (safe j vj) n (sym f ∙ e))
names_separate i j name vi vj (is_part n e) (is_info f) =
    absurd (info-ne-part j i (safe j vj) n (sym f ∙ e))
names_separate i j name vi vj (is_part n e) (is_part m f) = (part_name_inj i j n m (sym e ∙ f)).0
