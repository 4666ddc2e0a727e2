-- ===== src/Tests/Gcs.antt =====
-- The bucket store over a service that has a given number of parts.
use fileloft.Base.{
  ℕ, zero, suc, ◌+◌, ◌≡◌, refl, ap, ◌∙◌, List, [], ◌∷◌, ◌++◌, arith, Text, codes, length, leb,
  Bool-cases, inl, inr,
}
use fileloft.Error.{TusError, ok, err}
use fileloft.Gcs.{
  Bucket, GcsUpload, Reply, named, collect_pages, list_parts, finalize, sort_by_index,
  insert_sorted, part_index,
}
use fileloft.Gcs.Limits.{limited, finalize-limited, finalize-refused}
use fileloft.Tests.Codec.{to_vec, from_slice}

unfoldable copies : ℕ → List Text
copies zero = []
copies (suc n) = codes "a_part_7" ∷ copies n

abbrev bucket : ℕ → Bucket
bucket n = record {
  State = Unit {0};
  write_object = λ key content s. (Reply.done tt, s);
  read_object = λ key s. Reply.done [];
  list_objects = λ prefix s. Reply.done (copies n) ∷ [];
  compose_object = λ dest keys s. (Reply.done tt, s);
  delete_object = λ key s. (Reply.done tt, s);
  to_vec_pretty = to_vec;
  from_slice = from_slice;
}

abbrev upload : GcsUpload
upload = record { id = codes "a"; prefix = [] }

named-copies : (n : ℕ) → named (copies n) ++ [] ≡ copies n
unfolding copies
named-copies zero = refl
named-copies (suc n) = ap (λ t. codes "a_part_7" ∷ t) (named-copies n)

length-copies : (n : ℕ) → length (copies n) ≡ n
unfolding copies
length-copies zero = refl
length-copies (suc n) = ap suc (length-copies n)

length-insert_sorted :
    (key : Text) (keys : List Text) → length (insert_sorted key keys) ≡ length keys + 1
unfolding insert_sorted
length-insert_sorted key [] = refl
length-insert_sorted key (k ∷ keys) = elim (Bool-cases (leb (part_index key) (part_index k))) [
  | inl first ↦ rw first (omega arith)
  | inr later ↦ rw later (omega (arith, length-insert_sorted key keys))
]

length-sort_by_index : (keys : List Text) → length (sort_by_index keys) ≡ length keys
unfolding sort_by_index
length-sort_by_index [] = refl
length-sort_by_index (key ∷ keys) =
    length-insert_sorted key (sort_by_index keys) ∙ omega (arith, length-sort_by_index keys)

abbrev parts : ℕ → List Text
parts n = sort_by_index (copies n)

length-parts : (n : ℕ) → length (parts n) ≡ n
length-parts n = length-sort_by_index (copies n) ∙ length-copies n

listed : (n : ℕ) → list_parts (bucket n) upload tt ≡ (ok (parts n), tt)
unfolding list_parts collect_pages
listed n = ap (λ names. (ok (sort_by_index names), tt)) (named-copies n)

finalize-limited_example : finalize (limited (bucket 40)) upload tt ≡ finalize (bucket 40) upload tt
finalize-limited_example =
    finalize-limited upload (bucket 40) tt (parts 40) (listed 40) (omega (arith, length-parts 40))

finalize-refused_example : (e : TusError) × ((finalize (limited (bucket 1025)) upload tt).0 ≡ err e)
finalize-refused_example =
    finalize-refused upload (bucket 1025) tt (parts 1025) (listed 1025)
      (omega (arith, length-parts 1025))
