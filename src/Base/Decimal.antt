-- ===== src/Base/Decimal.antt =====
-- `u64::to_string` and `str::parse::<u64>` of the standard library.
use native.Mathlib.Nat.{pow-suc}
use Prim.Native.Nat.{ℕ, zero, suc, ◌+◌, ◌-◌, ◌*◌, ◌/◌, ◌%◌, ◌^◌, ◌≤◌, ◌<◌}
use mathlib.Core.Path.{◌≡◌, refl, ◌∙◌, subst}
use mathlib.Core.Logic.{inl, inr, ◌≢◌}
use mathlib.Core.Bool.{true, false}
use mathlib.Core.Option.{Option, none, some}
use mathlib.Core.List.{[], ◌∷◌, ◌++◌}
use native.Mathlib.Omega.{arith}
use fileloft.Base.Tests.{ltb, ◌==◌, if◌then◌else◌, Bool-cases}
use fileloft.Base.Lists.{all, all-append, is_empty}
use fileloft.Base.Strings.{Text, is_ascii_digit}

-- `u64::MAX`
abbrev pub u64_max : ℕ
u64_max = 18446744073709551615

unfoldable pub digits : ℕ → ℕ → Text
digits zero n = []
digits (suc fuel) n =
    let front = digits fuel (n / 10) in
    if ltb n 10 then (48 + n) ∷ [] else front ++ (48 + n % 10) ∷ []

-- A `u64` has at most 20 digits.
unfoldable pub to_string : ℕ → Text
to_string n = digits 20 n

parse_digits : ℕ → Text → Option ℕ
parse_digits acc [] = some acc
parse_digits acc (c ∷ s) =
    let next = acc * 10 + (c - 48) in
    let rest = parse_digits next s in
    if is_ascii_digit c then (if ltb u64_max next then none else rest) else none

-- One sign `+` is accepted.
unsigned : Text → Text
unsigned [] = []
unsigned (c ∷ s) = if c == b'+' then s else c ∷ s

unfoldable pub parse_u64 : Text → Option ℕ
unfolding unsigned parse_digits
parse_u64 s = if is_empty (unsigned s) then none else parse_digits 0 (unsigned s)

parse_digits-le-u64_max :
    (acc : ℕ) (s : Text) (n : ℕ) → acc ≤ u64_max → parse_digits acc s ≡ some n → n ≤ u64_max
unfolding parse_digits
parse_digits-le-u64_max acc [] n h e = ground arith
parse_digits-le-u64_max acc (c ∷ s) n h e =
    ground (arith, parse_digits-le-u64_max (acc * 10 + (c - 48)) s n)

-- What is parsed fits a `u64`.
pub parse_u64-le-u64_max : (s : Text) {n : ℕ} → parse_u64 s ≡ some n → n ≤ u64_max
unfolding parse_u64
parse_u64-le-u64_max s {n} e = ground (arith, parse_digits-le-u64_max 0 (unsigned s) n)

parse_digits-append :
    (acc : ℕ) (s : Text) (c b : ℕ)
    → parse_digits acc s ≡ some b
    → parse_digits acc (s ++ c ∷ []) ≡ parse_digits b (c ∷ [])
unfolding parse_digits
parse_digits-append acc [] c b e = ground arith
parse_digits-append acc (d ∷ s) c b e =
    ground (arith, parse_digits-append (acc * 10 + (d - 48)) s c b)

parse_digits-digits :
    (fuel n : ℕ) → n < 10 ^ fuel → n ≤ u64_max → parse_digits 0 (digits fuel n) ≡ some n
unfolding digits
parse_digits-digits zero n h m = unfold parse_digits in ground arith
parse_digits-digits (suc fuel) n h m = elim (Bool-cases (ltb n 10)) [
  | inl small ↦ rw small (unfold parse_digits in ground arith)
  | inr large ↦ rw large (
      parse_digits-append 0 (digits fuel (n / 10)) (48 + n % 10) (n / 10)
        (parse_digits-digits fuel (n / 10) (omega (arith, pow-suc 10 fuel)) (omega arith))
      ∙ unfold parse_digits in ground arith)
]

all-digits : (fuel n : ℕ) → all is_ascii_digit (digits fuel n) ≡ true
unfolding digits
all-digits zero n = refl
all-digits (suc fuel) n = ground (
  arith,
  all-digits fuel (n / 10),
  all-append is_ascii_digit (digits fuel (n / 10)) ((48 + n % 10) ∷ []),
)

snoc_nonempty : (s : Text) (c : ℕ) → (d : ℕ) × (ds : Text) × (s ++ c ∷ [] ≡ d ∷ ds)
snoc_nonempty [] c = (c, [], refl)
snoc_nonempty (d ∷ s) c = (d, s ++ c ∷ [], refl)

digits-nonempty : (fuel n : ℕ) → (d : ℕ) × (ds : Text) × (digits (suc fuel) n ≡ d ∷ ds)
unfolding digits
digits-nonempty fuel n = elim (Bool-cases (ltb n 10)) [
  | inl small ↦ (48 + n, [], rw small)
  | inr large ↦
      let (d, ds, e) = snoc_nonempty (digits fuel (n / 10)) (48 + n % 10) in (d, ds, rw large e)
]

-- A printed number is one digit or more.
pub to_string-digits :
    (n : ℕ) → (d : ℕ) × (ds : Text) × (to_string n ≡ d ∷ ds) × (all is_ascii_digit (d ∷ ds) ≡ true)
unfolding to_string
to_string-digits n = let (d, ds, e) = digits-nonempty 19 n in (d, ds, e, rw e at (all-digits 20 n))

-- Reading a printed number gives it back.
pub parse_u64-to_string : (n : ℕ) → n ≤ u64_max → parse_u64 (to_string n) ≡ some n
unfolding parse_u64
parse_u64-to_string n h =
    let (d, ds, e, all_digits) = to_string-digits n in
    let read : parse_digits 0 (d ∷ ds) ≡ some n =
      subst (λ s. parse_digits 0 s ≡ some n) e
        (unfold to_string in parse_digits-digits 20 n (omega arith) h) in
    rw e (ground (arith, read))

read_digits :
    (acc : ℕ) (s : Text) (n : ℕ) → parse_digits acc s ≡ some n → all is_ascii_digit s ≡ true
unfolding parse_digits
read_digits acc [] n h = refl
read_digits acc (c ∷ s) n h = ground (arith, read_digits (acc * 10 + (c - 48)) s n)

-- Only a sign and digits read as a number.
pub parse_u64-digits :
    (c : ℕ) (s : Text) (n : ℕ)
    → (c == b'+') ≡ false
    → parse_u64 (c ∷ s) ≡ some n
    → all is_ascii_digit (c ∷ s) ≡ true
unfolding parse_u64 unsigned
parse_u64-digits c s n bare h = read_digits 0 (c ∷ s) n (ground (arith, bare))

pub parse_u64-nil : (n : ℕ) → parse_u64 [] ≢ some n
unfolding parse_u64 unsigned
parse_u64-nil n h = cc
