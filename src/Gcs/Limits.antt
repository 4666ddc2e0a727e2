-- ===== src/Gcs/Limits.antt =====
-- The number of sources in the requests to the service, which takes 32 at most.
use fileloft.Base.{
  ℕ, suc, ◌+◌, ◌≤◌, ◌<◌, ◌≡◌, refl, ap, sym, ◌∙◌, inl, inr, ◌⊎◌, true, false, none, some, List, [],
  ◌∷◌, arith, leb, length, if◌then◌else◌, Bool-cases, Text, codes,
}
use fileloft.Error.{TusError, Result, ok, err}
use fileloft.Exec.{Exec, continue, pure, ◌>>=◌}
use fileloft.Gcs.{
  gcs_err, Bucket, GcsError, GcsUpload, Reply, compose_chunk, compose_chunks, compose_all,
  list_parts, put_together, finalize, tmp_key, data_key,
}
use fileloft.Gcs.Chunks.{chunks, AllSmall, chunks-small, chunks-few, chunks-many}

abbrev pub too_many : GcsError
too_many = record { http_status_code = some 400; rpc_code = none; text = codes "too many sources" }

-- The service of a bucket, if it refuses to compose more than 32 objects.
abbrev pub limited : Bucket → Bucket
limited d = record d {
  compose_object = λ dest keys s.
      if leb (length keys) 32 then d.compose_object dest keys s else (Reply.failed too_many, s);
}

-- Two continuations that agree on the result.
same_continue :
    {W A B : Type 0} (r : Result A) (w : W) (f g : A → Exec W B)
    → ((a : A) → r ≡ ok a → f a w ≡ g a w)
    → continue r f w ≡ continue r g w
same_continue (ok a) w f g h = h a refl
same_continue (err e) w f g h = refl

pub Result-cases :
    {A : Type 0} (r : Result A) → ((e : TusError) × (r ≡ err e)) ⊎ ((a : A) × (r ≡ ok a))
Result-cases (ok a) = inr (a, refl)
Result-cases (err e) = inl (e, refl)

pub continue-ok :
    {W A B : Type 0} (r : Result A) (w : W) (f : A → Exec W B) (b : B)
    → (continue r f w).0 ≡ ok b
    → (a : A) × (r ≡ ok a) × ((f a w).0 ≡ ok b)
continue-ok (ok a) w f b h = (a, refl, h)
continue-ok (err e) w f b h = cc

module _ (u : GcsUpload) where
  length-compose_chunks :
      (d : Bucket) (i : ℕ) (cs : List (List Text)) (s : d.State) (keys : List Text)
      → (compose_chunks d u i cs s).0 ≡ ok keys
      → length keys ≡ length cs
  unfolding compose_chunks
  length-compose_chunks d i [] s keys h = let e : [] ≡ keys = cc in ap length (sym e)
  length-compose_chunks d i (c ∷ cs) s keys h =
      let (s1r, s1) = compose_chunk d u (tmp_key u i) c s in
      let (done, e1, h1) =
        continue-ok s1r s1 (λ a. compose_chunks d u (i + 1) cs >>= λ ks. pure (tmp_key u i ∷ ks))
          keys h in
      let (rest, e2, h2) =
        continue-ok (compose_chunks d u (i + 1) cs s1).0 (compose_chunks d u (i + 1) cs s1).1
          (λ ks. pure (tmp_key u i ∷ ks)) keys h1 in
      let same : tmp_key u i ∷ rest ≡ keys = cc in
      let count = length-compose_chunks d (i + 1) cs s1 rest e2 in
      sym (ap length same) ∙ ap suc count

  module _ (d : Bucket) where
    compose_chunk-limited :
        (dest : Text) (keys : List Text) (s : d.State)
        → length keys ≤ 32
        → compose_chunk (limited d) u dest keys s ≡ compose_chunk d u dest keys s
    unfolding compose_chunk
    compose_chunk-limited dest [] s h = refl
    compose_chunk-limited dest (key ∷ keys) s h =
        let fits : leb (length (key ∷ keys)) 32 ≡ true = ground (arith, h) in rw fits refl

    compose_chunk-refused :
        (dest : Text) (keys : List Text) (s : d.State)
        → 32 < length keys
        → (e : TusError) × ((compose_chunk (limited d) u dest keys s).0 ≡ err e)
    unfolding compose_chunk
    compose_chunk-refused dest [] s h = absurd (omega (arith, h))
    compose_chunk-refused dest (key ∷ keys) s h =
        let over : leb (length (key ∷ keys)) 32 ≡ false = ground (arith, h) in
        (gcs_err too_many u.id (codes "compose"), rw over refl)

    compose_chunks-limited :
        (i : ℕ) (cs : List (List Text)) (s : d.State)
        → AllSmall cs
        → compose_chunks (limited d) u i cs s ≡ compose_chunks d u i cs s
    unfolding compose_chunks
    compose_chunks-limited i [] s small = refl
    compose_chunks-limited i (c ∷ cs) s (fits, small) =
        rw (compose_chunk-limited (tmp_key u i) c s fits) (
          same_continue (compose_chunk d u (tmp_key u i) c s).0
            (compose_chunk d u (tmp_key u i) c s).1
            (λ a. compose_chunks (limited d) u (i + 1) cs >>= λ ks. pure (tmp_key u i ∷ ks))
            (λ a. compose_chunks d u (i + 1) cs >>= λ ks. pure (tmp_key u i ∷ ks))
            (λ a e.
              ap (λ r. continue r.0 (λ ks. pure (tmp_key u i ∷ ks)) r.1)
                (compose_chunks-limited (i + 1) cs (compose_chunk d u (tmp_key u i) c s).1 small)))

    compose_all-limited :
        (keys : List Text) (s : d.State)
        → length keys ≤ 1024
        → compose_all (limited d) u keys s ≡ compose_all d u keys s
    unfolding compose_all
    compose_all-limited keys s few = elim (Bool-cases (leb (length keys) 32)) [
      | inl one ↦ rw one (compose_chunk-limited (data_key u) keys s (ground (arith, one)))
      | inr more ↦ rw more (
          rw (compose_chunks-limited 0 (chunks keys) s (chunks-small keys)) (
            same_continue (compose_chunks d u 0 (chunks keys) s).0
              (compose_chunks d u 0 (chunks keys) s).1 (compose_chunk (limited d) u (data_key u))
              (compose_chunk d u (data_key u))
              (λ ks e.
                let count = length-compose_chunks d 0 (chunks keys) s ks e in
                let bound = chunks-few keys few in
                compose_chunk-limited (data_key u) ks (compose_chunks d u 0 (chunks keys) s).1
                  (omega (arith, count, bound)))))
    ]

    compose_all-refused :
        (keys : List Text) (s : d.State)
        → 1024 < length keys
        → (e : TusError) × ((compose_all (limited d) u keys s).0 ≡ err e)
    unfolding compose_all
    compose_all-refused keys s many =
        let more : leb (length keys) 32 ≡ false = ground (arith, many) in
        rw more (elim (Result-cases (compose_chunks (limited d) u 0 (chunks keys) s).0) [
          | inl (e, stopped) ↦ (e, rw stopped refl)
          | inr (ks, got) ↦
              let count = length-compose_chunks (limited d) 0 (chunks keys) s ks got in
              let bound = chunks-many keys many in
              let (e, refused) =
                compose_chunk-refused (data_key u) ks
                  (compose_chunks (limited d) u 0 (chunks keys) s).1
                  (omega (arith, count, bound)) in
              (e, rw got refused)
        ])

    list_parts-limited : (s : d.State) → list_parts (limited d) u s ≡ list_parts d u s
    unfolding list_parts
    list_parts-limited s = refl

    put_together-limited :
        (parts : List Text) (s : d.State)
        → length parts ≤ 1024
        → put_together (limited d) u parts s ≡ put_together d u parts s
    put_together-limited [] s few = refl
    put_together-limited (p ∷ ps) s few = compose_all-limited (p ∷ ps) s few

    put_together-refused :
        (parts : List Text) (s : d.State)
        → 1024 < length parts
        → (e : TusError) × ((put_together (limited d) u parts s).0 ≡ err e)
    put_together-refused [] s many = absurd (omega (arith, many))
    put_together-refused (p ∷ ps) s many = compose_all-refused (p ∷ ps) s many

    module _ (s : d.State) (parts : List Text) (listed : list_parts d u s ≡ (ok parts, s)) where
      -- If the listing of an upload's parts gives at most 1024, then putting it together gives the
      -- same result and the same bucket, whether or not the service refuses to compose more than
      -- 32 objects.
      pub finalize-limited : length parts ≤ 1024 → finalize (limited d) u s ≡ finalize d u s
      unfolding finalize
      finalize-limited few =
          rw (list_parts-limited s ∙ listed) (rw listed (put_together-limited parts s few))

      -- If the listing of an upload's parts gives more than 1024, and the service refuses to
      -- compose more than 32 objects, then putting it together fails.
      pub finalize-refused :
          1024 < length parts → (e : TusError) × ((finalize (limited d) u s).0 ≡ err e)
      unfolding finalize
      finalize-refused many = rw (list_parts-limited s ∙ listed) (put_together-refused parts s many)
