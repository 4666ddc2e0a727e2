-- ===== src/Azure/Rounds.antt =====
-- The rounds in which blobs are put together.
use fileloft.Base.{
  ℕ, zero, suc, ◌≤◌, ◌<◌, ◌≡◌, refl, ap, sym, ◌∙◌, inl, inr, some, List, [], ◌∷◌, arith, leb,
  length, Bool-cases, Text,
}
use fileloft.Error.{Result, ok, err}
use fileloft.Exec.{pure, ◌>>=◌}
use fileloft.Gcs.Limits.{continue-ok, Result-cases}
use fileloft.Gcs.Chunks.{chunks, chunks-fewer}
use fileloft.Azure.{
  Container, AzureUpload, tmp_key, saturating_next, commit_and_delete_sources, commit_chunks,
  rounds, finished, commit_many_blobs,
}

module _ (d : Container) (u : AzureUpload) (op : Text) where
  length-commit_chunks :
      (counter : ℕ) (cs : List (List Text)) (s : d.State) (made : List Text × ℕ)
      → (commit_chunks d u op counter cs s).0 ≡ ok made
      → length made.0 ≡ length cs
  unfolding commit_chunks
  length-commit_chunks counter [] s made h =
      let e : ([], counter) ≡ made = cc in ap (λ m. length m.0) (sym e)
  length-commit_chunks counter (c ∷ cs) s made h =
      let (r1, s1) = commit_and_delete_sources d u op (tmp_key u counter) c s in
      let rest = commit_chunks d u op (saturating_next counter) cs in
      let (done, e1, h1) =
        continue-ok r1 s1 (λ a. rest >>= λ m. pure (tmp_key u counter ∷ m.0, m.1)) made h in
      let (m, e2, h2) =
        continue-ok (rest s1).0 (rest s1).1 (λ m. pure (tmp_key u counter ∷ m.0, m.1)) made h1 in
      let same : (tmp_key u counter ∷ m.0, m.1) ≡ made = cc in
      let count = length-commit_chunks (saturating_next counter) cs s1 m e2 in
      sym (ap (λ t. length t.0) same) ∙ ap suc count

  -- As many rounds as there are blobs, and at least one, are enough.
  rounds-enough :
      (fuel : ℕ) (dest : Text) (sources : List Text) (counter : ℕ) (s : d.State)
      → 1 ≤ fuel
      → length sources ≤ fuel
      → (out : Result (Unit {0}) × d.State) × (rounds d fuel u op dest sources counter s ≡ some out)
  unfolding rounds
  rounds-enough zero dest sources counter s some_fuel enough = absurd (omega (arith, some_fuel))
  rounds-enough (suc fuel) dest sources counter s some_fuel enough =
      elim (Bool-cases (leb (length sources) 32)) [
        | inl few ↦ (commit_and_delete_sources d u op dest sources s, rw few refl)
        | inr many ↦ elim (Result-cases (commit_chunks d u op counter (chunks sources) s).0) [
          | inl (e, stopped) ↦ (
            (err e, (commit_chunks d u op counter (chunks sources) s).1),
            rw many (rw stopped refl),
          )
          | inr (made, got) ↦
              let count = length-commit_chunks counter (chunks sources) s made got in
              let over : 32 < length sources = ground (arith, many) in
              let fewer = chunks-fewer sources over in
              let (out, e) =
                rounds-enough fuel dest made.0 made.1
                  (commit_chunks d u op counter (chunks sources) s).1 (omega (arith, enough, over))
                  (omega (arith, count, fewer, enough)) in
              (out, rw many (rw got e))
        ]
      ]

  -- Putting blobs together comes to an end, whatever the service answers and however many blobs
  -- there are: if there is at least one, then as many rounds as there are blobs give a result, and
  -- it is the one that `commit_many_blobs` returns.
  pub commit_many_blobs-ends :
      (dest : Text) (sources : List Text) (s : d.State)
      → 1 ≤ length sources
      → rounds d (length sources) u op dest sources 0 s
        ≡ some (commit_many_blobs d u op dest sources s)
  unfolding commit_many_blobs
  commit_many_blobs-ends dest [] s h = absurd (omega (arith, h))
  commit_many_blobs-ends dest (source ∷ sources) s h =
      let (out, e) =
        rounds-enough (length (source ∷ sources)) dest (source ∷ sources) 0 s h (omega arith) in
      e ∙ ap (λ o. some (finished d s o)) (sym e)
