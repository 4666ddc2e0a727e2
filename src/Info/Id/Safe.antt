-- ===== src/Info/Id/Safe.antt =====
-- Which identifiers `validate_str` accepts, and that no storage key derived from an identifier is
-- an identifier itself.
use fileloft.Base.{
  ℕ, ◌≤◌, ◌≡◌, ◌≢◌, ◌↔◌, inl, inr, true, false, [], ◌∷◌, ◌++◌, arith, Bool-cases, ltb, length,
  is_empty, all, Text, codes, text_eq, text_eq_iff, contains, ends_with, is_ascii_digit,
}
use fileloft.Error.{ok}
use fileloft.Info.Id.{
  token_collides, any_token, collides_with_reserved_key, is_id_byte, validate_str,
}
use fileloft.Info.Id.Reserved.{
  contains-append, contains-split, ends_with-split, token_collides-split, collides-info,
  collides-part, collides-tmp,
}

-- An identifier that cannot leave its directory, and that no derived storage key can equal.
pub record IsSafe (id : Text) : Type 0 where
  pub nonempty : 1 ≤ length id
  pub short : length id ≤ 128
  pub bytes : all is_id_byte id ≡ true
  pub no_dot : id ≢ codes "."
  pub no_dots : (a b : Text) → id ≢ a ++ (codes ".." ++ b)
  pub no_info : (w : Text) → id ≢ w ++ codes ".info"
  pub no_part :
      (w : Text) (d : ℕ) (ds : Text)
      → all is_ascii_digit (d ∷ ds) ≡ true
      → id ≢ w ++ (codes "_part_" ++ d ∷ ds)
  pub no_tmp :
      (w : Text) (d : ℕ) (ds : Text)
      → all is_ascii_digit (d ∷ ds) ≡ true
      → id ≢ w ++ (codes "_tmp_" ++ d ∷ ds)

-- The tests of `validate_str`, all passed.
pub record Passes (id : Text) : Type 0 where
  pub nonempty : is_empty id ≡ false
  pub short : ltb 128 (length id) ≡ false
  pub no_dot : text_eq id (codes ".") ≡ false
  pub not_dots : text_eq id (codes "..") ≡ false
  pub no_dots : contains id (codes "..") ≡ false
  pub bytes : all is_id_byte id ≡ true
  pub free : collides_with_reserved_key id ≡ false

validate_str-Passes : (id : Text) → validate_str id ≡ ok tt → Passes id
unfolding validate_str
validate_str-Passes id h = record {
  nonempty = ground arith;
  short = ground arith;
  no_dot = ground arith;
  not_dots = ground arith;
  no_dots = ground arith;
  bytes = ground arith;
  free = ground arith;
}

Passes-validate_str : (id : Text) → Passes id → validate_str id ≡ ok tt
unfolding validate_str
Passes-validate_str id h = ground arith

nonempty-length : (id : Text) → (is_empty id ≡ false) ↔ (1 ≤ length id)
nonempty-length [] = ground arith
nonempty-length (c ∷ id) = ground arith

Passes-IsSafe : (id : Text) → Passes id → IsSafe id
Passes-IsSafe id h = record {
  nonempty = (nonempty-length id).0 h.nonempty;
  short = ground (arith, h.short);
  bytes = h.bytes;
  no_dot = λ e. ground (arith, text_eq_iff id (codes "."), h.no_dot);
  no_dots = λ a b e. cc (contains-append a (codes "..") b, h.no_dots, e);
  no_info = λ w e. cc (collides-info w, h.free, e);
  no_part = λ w d ds digits e. cc (collides-part w d ds digits, h.free, e);
  no_tmp = λ w d ds digits e. cc (collides-tmp w d ds digits, h.free, e);
}

IsSafe-free : (id : Text) → IsSafe id → collides_with_reserved_key id ≢ true
unfolding collides_with_reserved_key any_token
IsSafe-free id s h = elim (Bool-cases (ends_with id (codes ".info"))) [
  | inl info ↦ let (w, e) = ends_with-split id (codes ".info") info in s.no_info w e
  | inr other ↦ elim (Bool-cases (token_collides id (codes "_part_"))) [
    | inl part ↦
        let (w, d, ds, e, digits) = token_collides-split id (codes "_part_") part in
        s.no_part w d ds digits e
    | inr rest ↦
        let (w, d, ds, e, digits) = token_collides-split id (codes "_tmp_") (ground arith) in
        s.no_tmp w d ds digits e
  ]
]

IsSafe-Passes : (id : Text) → IsSafe id → Passes id
IsSafe-Passes id s = record {
  nonempty = (nonempty-length id).1 s.nonempty;
  short = ground (arith, s.short);
  no_dot = ground (arith, text_eq_iff id (codes "."), s.no_dot);
  not_dots = ground (arith, text_eq_iff id (codes ".."), s.no_dots [] []);
  no_dots = elim (Bool-cases (contains id (codes ".."))) [
    | inl there ↦ let (a, b, e) = contains-split id (codes "..") there in absurd (s.no_dots a b e)
    | inr clear ↦ clear
  ];
  bytes = s.bytes;
  free = elim (Bool-cases (collides_with_reserved_key id)) [
    | inl taken ↦ absurd (IsSafe-free id s taken)
    | inr clear ↦ clear
  ];
}

-- `validate_str` accepts an identifier exactly if it has 1 to 128 bytes, all of them ASCII letters,
-- digits or one of `-_.`, is not ".", contains no "..", and does not end in ".info" nor in
-- "_part_" or "_tmp_" followed by digits alone.
pub validate_str_iff : (id : Text) → (validate_str id ≡ ok tt) ↔ IsSafe id
validate_str_iff id = (
  λ h. Passes-IsSafe id (validate_str-Passes id h),
  λ s. Passes-validate_str id (IsSafe-Passes id s),
)
