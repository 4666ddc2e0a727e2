-- ===== src/Base/Strings.antt =====
-- Rust's `str` as the list of its bytes, with the functions of `str` that the code calls.
-- Header values reach the code as visible ASCII, so white space and case are those of ASCII.
use Prim.Native.Nat.{ℕ, zero, suc, ◌+◌}
use Prim.Native.Char.{code}
use Prim.Native.String.{String}
use mathlib.Core.Path.{◌≡◌, refl}
use mathlib.Core.Logic.{◌↔◌}
use mathlib.Core.Bool.{Bool, true, false, ◌&&◌, ◌||◌}
use mathlib.Core.Option.{Option, none, some}
use mathlib.Core.List.{List, [], ◌∷◌, ◌++◌, reverse, map}
use native.Mathlib.Omega.{arith}
use fileloft.Base.Tests.{leb, ◌==◌, if◌then◌else◌}
use fileloft.Base.Lists.{is_empty}

abbrev pub Text : Type 0
Text = List ℕ

-- The bytes of an ASCII literal.
abbrev pub codes : String → Text
codes String.[] = []
codes (String.◌∷◌ c s) = code c ∷ codes s

-- `a == b`
unfoldable pub text_eq : Text → Text → Bool
text_eq [] [] = true
text_eq [] (d ∷ t) = false
text_eq (c ∷ s) [] = false
text_eq (c ∷ s) (d ∷ t) = (c == d) && text_eq s t

pub text_eq_iff : (s t : Text) → (text_eq s t ≡ true) ↔ (s ≡ t)
unfolding text_eq
text_eq_iff [] [] = ground arith
text_eq_iff [] (d ∷ t) = ground arith
text_eq_iff (c ∷ s) [] = ground arith
text_eq_iff (c ∷ s) (d ∷ t) = ground (arith, text_eq_iff s t)

pub text_eq_refl : (s : Text) → text_eq s s ≡ true
text_eq_refl s = (text_eq_iff s s).1 refl

-- `value.starts_with(pat)`
unfoldable pub starts_with : Text → Text → Bool
starts_with s [] = true
starts_with [] (p ∷ pat) = false
starts_with (c ∷ s) (p ∷ pat) = (c == p) && starts_with s pat

-- `value.strip_prefix(pat)`
unfoldable pub strip_prefix : Text → Text → Option Text
strip_prefix s [] = some s
strip_prefix [] (p ∷ pat) = none
strip_prefix (c ∷ s) (p ∷ pat) = if c == p then strip_prefix s pat else none

-- `value.ends_with(pat)`
unfoldable pub ends_with : Text → Text → Bool
unfolding starts_with
ends_with s pat = starts_with (reverse s) (reverse pat)

-- `value.contains(pat)`
unfoldable pub contains : Text → Text → Bool
unfolding starts_with
contains [] pat = is_empty pat
contains (c ∷ s) pat = starts_with (c ∷ s) pat || contains s pat

-- `value.rfind(pat)`: the position of the last occurrence.
unfoldable pub rfind : Text → Text → Option ℕ
unfolding starts_with
rfind [] pat = if is_empty pat then some 0 else none
rfind (c ∷ s) pat = elim (rfind s pat) [
  | some i ↦ some (suc i)
  | none ↦ if starts_with (c ∷ s) pat then some 0 else none
]

abbrev pub is_whitespace : ℕ → Bool
is_whitespace c = (c == 32) || (leb 9 c && leb c 13)

abbrev pub is_ascii_digit : ℕ → Bool
is_ascii_digit c = leb b'0' c && leb c b'9'

abbrev pub is_ascii_alphanumeric : ℕ → Bool
is_ascii_alphanumeric c =
    is_ascii_digit c || (leb b'A' c && leb c b'Z') || (leb b'a' c && leb c b'z')

-- `trim_start_matches`, with a test for the character.
unfoldable pub trim_start_matches : (ℕ → Bool) → Text → Text
trim_start_matches p [] = []
trim_start_matches p (c ∷ s) = if p c then trim_start_matches p s else c ∷ s

unfoldable pub trim_end_matches : (ℕ → Bool) → Text → Text
unfolding trim_start_matches
trim_end_matches p s = reverse (trim_start_matches p (reverse s))

-- The characters of Unicode's `White_Space` that take two or three bytes in UTF-8.
abbrev pub is_space2 : ℕ → ℕ → Bool
is_space2 c d = (c == 194) && ((d == 133) || (d == 160))

abbrev pub is_space3 : ℕ → ℕ → ℕ → Bool
is_space3 c d e =
    ((c == 225) && (d == 154) && (e == 128))
    || ((c == 226)
        && (d == 128)
        && ((leb 128 e && leb e 138) || (e == 168) || (e == 169) || (e == 175)))
    || ((c == 226) && (d == 129) && (e == 159))
    || ((c == 227) && (d == 128) && (e == 128))

-- How many bytes the white space at the start of a text takes, and that at the end of a text that
-- is read backwards.
abbrev pub wide_first : ℕ → Text → ℕ
wide_first c [] = 0
wide_first c (d ∷ []) = if is_space2 c d then 2 else 0
wide_first c (d ∷ e ∷ s) = if is_space2 c d then 2 else if is_space3 c d e then 3 else 0

abbrev pub first_space : Text → ℕ
first_space [] = 0
first_space (c ∷ s) = if is_whitespace c then 1 else wide_first c s

abbrev pub wide_last : ℕ → Text → ℕ
wide_last e [] = 0
wide_last e (d ∷ []) = if is_space2 d e then 2 else 0
wide_last e (d ∷ c ∷ s) = if is_space2 d e then 2 else if is_space3 c d e then 3 else 0

abbrev pub last_space : Text → ℕ
last_space [] = 0
last_space (e ∷ s) = if is_whitespace e then 1 else wide_last e s

-- Drops `skip` bytes and then all white space.
unfoldable pub drop_space : (Text → ℕ) → ℕ → Text → Text
drop_space width skip [] = []
drop_space width (suc skip) (c ∷ s) = drop_space width skip s
drop_space width zero (c ∷ s) = elim (width (c ∷ s)) [
  | zero ↦ c ∷ s
  | suc more ↦ drop_space width more s
]

unfoldable pub trim : Text → Text
unfolding drop_space
trim s = reverse (drop_space last_space 0 (reverse (drop_space first_space 0 s)))

-- `value.split(sep)`: never empty.
push_front : ℕ → List Text → List Text
push_front c [] = (c ∷ []) ∷ []
push_front c (w ∷ ws) = (c ∷ w) ∷ ws

unfoldable pub split : ℕ → Text → List Text
unfolding push_front
split sep [] = [] ∷ []
split sep (c ∷ s) = let rest = split sep s in if c == sep then [] ∷ rest else push_front c rest

-- `value.split_whitespace()`: the words between white space, none of them empty.
drop_empty : List Text → List Text
drop_empty [] = []
drop_empty (w ∷ ws) = let rest = drop_empty ws in if is_empty w then rest else w ∷ rest

split_by : (ℕ → Bool) → Text → List Text
unfolding push_front
split_by p [] = [] ∷ []
split_by p (c ∷ s) = let rest = split_by p s in if p c then [] ∷ rest else push_front c rest

unfoldable pub split_whitespace : Text → List Text
unfolding drop_empty split_by
split_whitespace s = drop_empty (split_by is_whitespace s)

-- `value.split_once(sep)`
unfoldable pub split_once : ℕ → Text → Option (Text × Text)
split_once sep [] = none
split_once sep (c ∷ s) =
    if c == sep
    then some ([], s)
    else elim (split_once sep s) [ none ↦ none | some (a, b) ↦ some (c ∷ a, b) ]

-- `words.join(sep)`
unfoldable pub join : Text → List Text → Text
join sep [] = []
join sep (w ∷ []) = w
join sep (w ∷ v ∷ ws) = w ++ (sep ++ join sep (v ∷ ws))

-- `value.to_lowercase()`
abbrev lower : ℕ → ℕ
lower c = if leb b'A' c && leb c b'Z' then c + 32 else c

unfoldable pub to_lowercase : Text → Text
to_lowercase s = map lower s
