-- ===== src/Info/Metadata/Entries.antt =====
-- One pair of the header: what `trim`, `split_once` and `split` do to the text of an entry.
use mathlib.Core.List.{reverse, reverse-append, reverse-cons, reverse-reverse, append_assoc}
use fileloft.Base.{
  ℕ, ◌≡◌, refl, ap, ◌∙◌, Bool, true, not, none, some, List, [], ◌∷◌, ◌++◌, arith, all, all-append,
  ◌==◌, Text, codes, leb, ◌&&◌, trim, drop_space, first_space, last_space, split, split_once, join,
}
use fileloft.Info.Codec.{is_wire}

abbrev pub begins_solid : Text → Bool
begins_solid [] = true
begins_solid (c ∷ s) = leb 33 c && leb c 126

first_space-solid : (c : ℕ) (s : Text) → begins_solid (c ∷ s) ≡ true → first_space (c ∷ s) ≡ 0
first_space-solid c [] h = ground arith
first_space-solid c (d ∷ []) h = ground arith
first_space-solid c (d ∷ e ∷ s) h = ground arith

last_space-solid : (c : ℕ) (s : Text) → begins_solid (c ∷ s) ≡ true → last_space (c ∷ s) ≡ 0
last_space-solid c [] h = ground arith
last_space-solid c (d ∷ []) h = ground arith
last_space-solid c (d ∷ e ∷ s) h = ground arith

drop_space-solid :
    (width : Text → ℕ) (s : Text)
    → ((c : ℕ) (t : Text) → begins_solid (c ∷ t) ≡ true → width (c ∷ t) ≡ 0)
    → begins_solid s ≡ true
    → drop_space width 0 s ≡ s
unfolding drop_space
drop_space-solid width [] solid h = refl
drop_space-solid width (c ∷ s) solid h = rw (solid c s h, drop_space) refl

-- Text that neither begins nor ends with white space is left alone by `trim`.
pub trim-solid : (s : Text) → begins_solid s ≡ true → begins_solid (reverse s) ≡ true → trim s ≡ s
unfolding trim
trim-solid s h k =
    rw (drop_space-solid first_space s first_space-solid h)
      (rw (drop_space-solid last_space (reverse s) last_space-solid k) (reverse-reverse s))

all-reverse : (p : ℕ → Bool) (s : Text) → all p (reverse s) ≡ all p s
all-reverse p [] = refl
all-reverse p (c ∷ s) =
    rw (reverse-cons c s) (rw (all-append p (reverse s) (c ∷ [])) (ground (arith, all-reverse p s)))

wire-solid : (s : Text) → all is_wire s ≡ true → begins_solid s ≡ true
wire-solid [] h = refl
wire-solid (c ∷ s) h = ground arith

pub trim-wire : (s : Text) → all is_wire s ≡ true → trim s ≡ s
trim-wire s h = trim-solid s (wire-solid s h) (wire-solid (reverse s) (all-reverse is_wire s ∙ h))

begins_solid-append :
    (s t : Text) (c : ℕ)
    → begins_solid (s ++ c ∷ []) ≡ true
    → begins_solid ((s ++ c ∷ []) ++ t) ≡ true
begins_solid-append [] t c h = h
begins_solid-append (d ∷ s) t c h = h

ends_solid-append :
    (s : Text) (c : ℕ) (t : Text)
    → all is_wire (c ∷ t) ≡ true
    → begins_solid (reverse (s ++ c ∷ t)) ≡ true
ends_solid-append s c t h = rw (reverse-append s (c ∷ t)) (
    rw (reverse-cons c t) (
      begins_solid-append (reverse t) (reverse s) c (
        rw (reverse-cons c t) at (wire-solid (reverse (c ∷ t)) (all-reverse is_wire (c ∷ t) ∙ h)))))

-- A key, a space and an encoded value, which is not empty.
pub trim-pair :
    (k : ℕ) (key : Text) (c : ℕ) (value : Text)
    → all is_wire (k ∷ key) ≡ true
    → all is_wire (c ∷ value) ≡ true
    → trim (k ∷ key ++ (codes " " ++ c ∷ value)) ≡ k ∷ key ++ (codes " " ++ c ∷ value)
trim-pair k key c value h g = trim-solid (k ∷ key ++ (codes " " ++ c ∷ value)) (ground arith) (
    rw (← append_assoc (k ∷ key) (codes " ") (c ∷ value))
      (ends_solid-append (k ∷ key ++ codes " ") c value g))

-- A key and a space.
pub trim-key_space :
    (k : ℕ) (key : Text) → all is_wire (k ∷ key) ≡ true → trim (k ∷ key ++ codes " ") ≡ k ∷ key
unfolding trim drop_space
trim-key_space k key h =
    let start : drop_space first_space 0 (k ∷ key ++ codes " ") ≡ k ∷ key ++ codes " " =
      drop_space-solid first_space (k ∷ key ++ codes " ") first_space-solid (ground arith) in
    let solid : begins_solid (reverse (k ∷ key)) ≡ true =
      wire-solid (reverse (k ∷ key)) (all-reverse is_wire (k ∷ key) ∙ h) in
    rw start (
      rw (reverse-append (k ∷ key) (codes " ")) (
        rw (drop_space-solid last_space (reverse (k ∷ key)) last_space-solid solid)
          (reverse-reverse (k ∷ key))))

pub split_once-wire : (s : Text) → all is_wire s ≡ true → split_once b' ' s ≡ none
unfolding split_once
split_once-wire [] h = refl
split_once-wire (c ∷ s) h = ground (arith, split_once-wire s)

pub split_once-pair :
    (s t : Text) → all is_wire s ≡ true → split_once b' ' (s ++ (codes " " ++ t)) ≡ some (s, t)
unfolding split_once
split_once-pair [] t h = refl
split_once-pair (c ∷ s) t h = ground (arith, split_once-pair s t)

abbrev pub no_comma : ℕ → Bool
no_comma c = not (c == b',')

split-last : (s : Text) → all no_comma s ≡ true → split b',' s ≡ s ∷ []
unfolding split
split-last [] h = refl
split-last (c ∷ s) h = ground (arith, split-last s)

split-append :
    (s t : Text) → all no_comma s ≡ true → split b',' (s ++ (codes "," ++ t)) ≡ s ∷ split b',' t
unfolding split
split-append [] t h = refl
split-append (c ∷ s) t h = ground (arith, split-append s t)

abbrev pub AllFree : List Text → Type 0
AllFree [] = Unit
AllFree (w ∷ ws) = (all no_comma w ≡ true) × AllFree ws

-- Splitting at commas inverts joining by commas.
pub split-join :
    (w : Text) (ws : List Text) → AllFree (w ∷ ws) → split b',' (join (codes ",") (w ∷ ws)) ≡ w ∷ ws
unfolding join
split-join w [] h = split-last w h.0
split-join w (v ∷ ws) h =
    split-append w (join (codes ",") (v ∷ ws)) h.0 ∙ ap (λ r. w ∷ r) (split-join v ws h.1)
