-- ===== src/Info/Id/Reserved.antt =====
-- How the string searches of `collides_with_reserved_key` find a reserved suffix.
use mathlib.Core.List.{reverse, reverse-append, reverse-reverse}
use fileloft.Base.{
  ℕ, suc, ◌+◌, ◌≡◌, refl, ap, ◌∙◌, inl, inr, true, ◌&&◌, not, none, some, [], ◌∷◌, ◌++◌, arith,
  length, drop, drop-length, is_empty, all, Text, codes, starts_with, ends_with, contains, rfind,
  is_ascii_digit, sym, Bool-cases, Option-cases,
}
use fileloft.Info.Id.{token_collides, any_token, collides_with_reserved_key}

pub starts_with-append : (pat s : Text) → starts_with (pat ++ s) pat ≡ true
unfolding starts_with
starts_with-append [] [] = refl
starts_with-append [] (c ∷ s) = refl
starts_with-append (p ∷ pat) s = ground (arith, starts_with-append pat s)

pub ends_with-append : (s pat : Text) → ends_with (s ++ pat) pat ≡ true
unfolding ends_with
ends_with-append s pat = rw (reverse-append s pat) (starts_with-append (reverse pat) (reverse s))

pub contains-append : (s pat t : Text) → contains (s ++ (pat ++ t)) pat ≡ true
unfolding contains
contains-append (c ∷ s) pat t = ground (arith, contains-append s pat t)
contains-append [] [] [] = refl
contains-append [] [] (c ∷ t) = ground (arith, starts_with-append [] (c ∷ t))
contains-append [] (p ∷ pat) t = ground (arith, starts_with-append (p ∷ pat) t)

-- A later occurrence is found whatever stands before it.
pub rfind-append :
    (w s pat : Text) (i : ℕ) → rfind s pat ≡ some i → rfind (w ++ s) pat ≡ some (length w + i)
unfolding rfind
rfind-append [] s pat i h = ground (arith, h)
rfind-append (c ∷ w) s pat i h = ground (arith, rfind-append w s pat i h)

-- Digits hold no token, since a token begins with an underscore.
pub rfind-digits : (ds pat : Text) → all is_ascii_digit ds ≡ true → rfind ds (b'_' ∷ pat) ≡ none
unfolding rfind starts_with
rfind-digits [] pat h = refl
rfind-digits (d ∷ ds) pat h = ground (arith, rfind-digits ds pat)

rfind-part :
    (d : ℕ) (ds : Text)
    → all is_ascii_digit (d ∷ ds) ≡ true
    → rfind (codes "_part_" ++ d ∷ ds) (codes "_part_") ≡ some 0
unfolding rfind starts_with
rfind-part d ds h = ground (arith, rfind-digits (d ∷ ds) (codes "part_") h)

rfind-tmp :
    (d : ℕ) (ds : Text)
    → all is_ascii_digit (d ∷ ds) ≡ true
    → rfind (codes "_tmp_" ++ d ∷ ds) (codes "_tmp_") ≡ some 0
unfolding rfind starts_with
rfind-tmp d ds h = ground (arith, rfind-digits (d ∷ ds) (codes "tmp_") h)

drop-append_append :
    (w token ds : Text) → drop (length w + 0 + length token) (w ++ (token ++ ds)) ≡ ds
drop-append_append [] token ds =
    let e : 0 + 0 + length token ≡ length token = omega arith in rw e (drop-length token ds)
drop-append_append (c ∷ w) token ds =
    let e : suc (length w) + 0 + length token ≡ suc (length w + 0 + length token) = omega arith in
    rw e (drop-append_append w token ds)

-- A token followed by digits is found, whatever stands before it.
token_collides-append :
    (w token : Text) (d : ℕ) (ds : Text)
    → rfind (token ++ d ∷ ds) token ≡ some 0
    → all is_ascii_digit (d ∷ ds) ≡ true
    → token_collides (w ++ (token ++ d ∷ ds)) token ≡ true
unfolding token_collides
token_collides-append w token d ds found h =
    rw (rfind-append w (token ++ d ∷ ds) token 0 found, token_collides)
      (rw (drop-append_append w token (d ∷ ds)) h)

-- The three shapes of a storage key that is derived from an identifier.
pub collides-info : (w : Text) → collides_with_reserved_key (w ++ codes ".info") ≡ true
unfolding collides_with_reserved_key
collides-info w = rw (ends_with-append w (codes ".info"))

pub collides-part :
    (w : Text) (d : ℕ) (ds : Text)
    → all is_ascii_digit (d ∷ ds) ≡ true
    → collides_with_reserved_key (w ++ (codes "_part_" ++ d ∷ ds)) ≡ true
unfolding collides_with_reserved_key any_token
collides-part w d ds h =
    ground (arith, token_collides-append w (codes "_part_") d ds (rfind-part d ds h) h)

pub collides-tmp :
    (w : Text) (d : ℕ) (ds : Text)
    → all is_ascii_digit (d ∷ ds) ≡ true
    → collides_with_reserved_key (w ++ (codes "_tmp_" ++ d ∷ ds)) ≡ true
unfolding collides_with_reserved_key any_token
collides-tmp w d ds h =
    ground (arith, token_collides-append w (codes "_tmp_") d ds (rfind-tmp d ds h) h)

-- Conversely, a search that succeeds shows the parts of the text.
pub starts_with-split : (s pat : Text) → starts_with s pat ≡ true → (t : Text) × (s ≡ pat ++ t)
unfolding starts_with
starts_with-split s [] h = (s, refl)
starts_with-split [] (p ∷ pat) h = cc
starts_with-split (c ∷ s) (p ∷ pat) h =
    let (t, e) = starts_with-split s pat (ground arith) in (t, ground arith)

pub contains-split : (s pat : Text) → contains s pat ≡ true → (a t : Text) × (s ≡ a ++ (pat ++ t))
unfolding contains
contains-split [] [] h = ([], [], refl)
contains-split [] (p ∷ pat) h = cc
contains-split (c ∷ s) pat h = elim (Bool-cases (starts_with (c ∷ s) pat)) [
  | inl here ↦ let (t, e) = starts_with-split (c ∷ s) pat here in ([], t, e)
  | inr later ↦ let (a, t, e) = contains-split s pat (ground arith) in (c ∷ a, t, ap (λ x. c ∷ x) e)
]

pub ends_with-split : (s pat : Text) → ends_with s pat ≡ true → (w : Text) × (s ≡ w ++ pat)
unfolding ends_with
ends_with-split s pat h =
    let (t, e) = starts_with-split (reverse s) (reverse pat) h in
    (
      reverse t,
      sym (reverse-reverse s)
          ∙ (ap reverse e
              ∙ (reverse-append (reverse pat) t ∙ ap (λ x. reverse t ++ x) (reverse-reverse pat))),
    )

pub rfind-split :
    (s pat : Text) (i : ℕ)
    → rfind s pat ≡ some i
    → (w t : Text) × (s ≡ w ++ (pat ++ t)) × (i ≡ length w)
unfolding rfind
rfind-split [] [] i h = ([], [], refl, ground arith)
rfind-split [] (p ∷ pat) i h = cc
rfind-split (c ∷ s) pat i h = elim (Option-cases (rfind s pat)) [
  | inl missing ↦
      let (t, e) = starts_with-split (c ∷ s) pat (ground arith) in ([], t, e, ground arith)
  | inr (j, found) ↦
      let (w, t, e, k) = rfind-split s pat j found in (c ∷ w, t, ap (λ x. c ∷ x) e, ground arith)
]

tail_digits :
    (t : Text)
    → (not (is_empty t) && all is_ascii_digit t) ≡ true
    → (d : ℕ) × (ds : Text) × (t ≡ d ∷ ds) × (all is_ascii_digit (d ∷ ds) ≡ true)
tail_digits [] h = cc
tail_digits (d ∷ ds) h = (d, ds, refl, h)

-- A collision with a token shows that the text ends in the token and digits.
pub token_collides-split :
    (value token : Text)
    → token_collides value token ≡ true
    → (w : Text) × (d : ℕ) × (ds : Text) × (value ≡ w ++ (token ++ d ∷ ds))
      × (all is_ascii_digit (d ∷ ds) ≡ true)
unfolding token_collides
token_collides-split value token h = elim (Option-cases (rfind value token)) [
  | inl missing ↦ ground arith
  | inr (pos, found) ↦
      let (w, t, e, k) = rfind-split value token pos found in
      let at : pos + length token ≡ length w + 0 + length token = omega (arith, k) in
      let cut : drop (pos + length token) value ≡ t = rw at (rw e (drop-append_append w token t)) in
      let digits : (not (is_empty t) && all is_ascii_digit t) ≡ true =
        rw (← cut) (rw (found, token_collides) at h) in
      let (d, ds, same, all_digits) = tail_digits t digits in (w, d, ds, rw (← same) e, all_digits)
]
