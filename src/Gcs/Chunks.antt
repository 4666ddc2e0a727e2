-- ===== src/Gcs/Chunks.antt =====
-- `slice::chunks`, and the number of chunks.
use fileloft.Base.{
  ℕ, zero, suc, ◌+◌, ◌*◌, ◌≤◌, ◌<◌, ◌≡◌, refl, inl, inr, ◌⊎◌, List, [], ◌∷◌, arith, length,
  is_empty, if◌then◌else◌,
}

module _ {ℓ} {A : Type ℓ} where
  -- A chunk with room for `room` elements, and the chunks of 32 behind it.
  unfoldable pub fill : ℕ → List A → List A × List (List A)
  fill room [] = ([], [])
  fill zero (x ∷ xs) = let (c, cs) = fill 31 xs in ([], (x ∷ c) ∷ cs)
  fill (suc room) (x ∷ xs) = let (c, cs) = fill room xs in (x ∷ c, cs)

  abbrev pub nonempty : List A × List (List A) → List (List A)
  nonempty (c, cs) = if is_empty c then cs else c ∷ cs

  unfoldable pub chunks : List A → List (List A)
  chunks xs = nonempty (fill 32 xs)

  -- No chunk has more than 32 elements.
  abbrev pub AllSmall : List (List A) → Type 0
  AllSmall [] = Unit
  AllSmall (c ∷ cs) = (length c ≤ 32) × AllSmall cs

  fill-small :
      (room : ℕ) (xs : List A)
      → room ≤ 32
      → (length (fill room xs).0 ≤ room) × AllSmall (fill room xs).1
  unfolding fill
  fill-small room [] h = (omega arith, tt)
  fill-small zero (x ∷ xs) h =
      let (first, rest) = fill-small 31 xs (omega arith) in
      (omega arith, (omega (arith, first), rest))
  fill-small (suc room) (x ∷ xs) h =
      let (first, rest) = fill-small room xs (omega (arith, h)) in (omega (arith, first), rest)

  fill-count : (room : ℕ) (xs : List A) → length xs ≤ room + 32 * length (fill room xs).1
  unfolding fill
  fill-count room [] = omega arith
  fill-count zero (x ∷ xs) = let rest = fill-count 31 xs in omega (arith, rest)
  fill-count (suc room) (x ∷ xs) = let rest = fill-count room xs in omega (arith, rest)

  fill-few :
      (room : ℕ) (xs : List A)
      → (length (fill room xs).1 ≡ 0) ⊎ (32 * length (fill room xs).1 + room ≤ 31 + length xs)
  unfolding fill
  fill-few room [] = inl refl
  fill-few zero (x ∷ xs) = elim (fill-few 31 xs) [
    | inl e ↦ inr (omega (arith, e))
    | inr le ↦ inr (omega (arith, le))
  ]
  fill-few (suc room) (x ∷ xs) = elim (fill-few room xs) [
    | inl e ↦ inl e
    | inr le ↦ inr (omega (arith, le))
  ]

  pub chunks-small : (xs : List A) → AllSmall (chunks xs)
  unfolding chunks fill
  chunks-small [] = tt
  chunks-small (x ∷ xs) =
      let (first, rest) = fill-small 31 xs (omega arith) in (omega (arith, first), rest)

  pub chunks-few : (xs : List A) → length xs ≤ 1024 → length (chunks xs) ≤ 32
  unfolding chunks fill
  chunks-few [] h = omega arith
  chunks-few (x ∷ xs) h = elim (fill-few 31 xs) [
    | inl e ↦ omega (arith, e)
    | inr le ↦ omega (arith, le, h)
  ]

  pub chunks-many : (xs : List A) → 1024 < length xs → 32 < length (chunks xs)
  unfolding chunks fill
  chunks-many [] h = absurd (omega (arith, h))
  chunks-many (x ∷ xs) h = let count = fill-count 31 xs in omega (arith, count, h)

  pub chunks-fewer : (xs : List A) → 32 < length xs → length (chunks xs) < length xs
  unfolding chunks fill
  chunks-fewer [] h = absurd (omega (arith, h))
  chunks-fewer (x ∷ xs) h = elim (fill-few 31 xs) [
    | inl e ↦ omega (arith, e, h)
    | inr le ↦ omega (arith, le, h)
  ]
