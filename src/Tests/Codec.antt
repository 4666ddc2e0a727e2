-- ===== src/Tests/Codec.antt =====
-- A way to write an upload's state as numbers, as a stand-in for serde_json: each value is written
-- in front of a rest, and read back off it.
use fileloft.Base.{
  ℕ, zero, suc, ◌≡◌, refl, ap, Bool, true, false, Option, none, some, List, [], ◌∷◌, Text, length,
}
use fileloft.Info.{UploadInfo}
use fileloft.Info.Codec.{Bytes, Outcome, done, failed}

pub record Code (A : Type 0) : Type 0 where
  pub put : A → Bytes → Bytes
  pub take : Bytes → Option (A × Bytes)
  pub take-put : (a : A) (rest : Bytes) → take (put a rest) ≡ some (a, rest)

abbrev next : {A B : Type 0} → Option (A × Bytes) → (A → Bytes → Option B) → Option B
next none f = none
next (some (a, rest)) f = f a rest

abbrev take_number : Bytes → Option (ℕ × Bytes)
take_number [] = none
take_number (n ∷ rest) = some (n, rest)

abbrev number : Code ℕ
number = record { put = λ n rest. n ∷ rest; take = take_number; take-put = λ n rest. refl }

abbrev pair : {A B : Type 0} → Code A → Code B → Code (A × B)
pair ca cb = record {
  put = λ p rest. ca.put p.0 (cb.put p.1 rest);
  take = λ bs. next (ca.take bs) λ a r. next (cb.take r) λ b r'. some ((a, b), r');
  take-put = λ p rest. rw (ca.take-put p.0 (cb.put p.1 rest)) (rw (cb.take-put p.1 rest) refl);
}

abbrev through :
    {A B : Type 0} → Code A → (f : A → B) → (g : B → A) → ((b : B) → f (g b) ≡ b) → Code B
through ca f g back = record {
  put = λ b rest. ca.put (g b) rest;
  take = λ bs. next (ca.take bs) λ a r. some (f a, r);
  take-put = λ b rest. rw (ca.take-put (g b) rest) (ap (λ x. some (x, rest)) (back b));
}

module _ {A : Type 0} (c : Code A) where
  unfoldable pub put_all : List A → Bytes → Bytes
  put_all [] rest = rest
  put_all (a ∷ xs) rest = c.put a (put_all xs rest)

  unfoldable pub take_all : ℕ → Bytes → Option (List A × Bytes)
  take_all zero bs = some ([], bs)
  take_all (suc n) bs = next (c.take bs) λ a r. next (take_all n r) λ xs r'. some (a ∷ xs, r')

  pub take_all-put_all :
      (xs : List A) (rest : Bytes) → take_all (length xs) (put_all xs rest) ≡ some (xs, rest)
  unfolding take_all put_all
  take_all-put_all [] rest = refl
  take_all-put_all (a ∷ xs) rest =
      rw (c.take-put a (put_all xs rest)) (rw (take_all-put_all xs rest) refl)

  abbrev list : Code (List A)
  list = record {
    put = λ xs rest. length xs ∷ put_all xs rest;
    take = λ bs. next (take_number bs) take_all;
    take-put = take_all-put_all;
  }

  abbrev first : List A → Option A
  first [] = none
  first (a ∷ xs) = some a

  abbrev unfirst : Option A → List A
  unfirst none = []
  unfirst (some a) = a ∷ []

  pub back_option : (o : Option A) → first (unfirst o) ≡ o
  back_option none = refl
  back_option (some a) = refl

abbrev option : {A : Type 0} → Code A → Code (Option A)
option c = through (list c) (first c) (unfirst c) (back_option c)

abbrev flag : ℕ → Bool
flag zero = false
flag (suc n) = true

abbrev unflag : Bool → ℕ
unflag false = 0
unflag true = 1

pub back_bool : (b : Bool) → flag (unflag b) ≡ b
back_bool false = refl
back_bool true = refl

abbrev bool : Code Bool
bool = through number flag unflag back_bool

abbrev text : Code Text
text = list number

abbrev info : Code UploadInfo
info =
    through
      (pair text (
        pair (option number) (
          pair number (
            pair (list (pair text (option text))) (
              pair bool (
                pair (option number)
                  (pair bool (pair bool (pair (list text) (list (pair text text)))))))))))
      (λ (
        id,
        (
          size,
          (offset, (metadata, (deferred, (expires, (is_part, (final, (partials, storage))))))),
        ),
      ).
        record {
          id = id;
          size = size;
          offset = offset;
          metadata = metadata;
          size_is_deferred = deferred;
          expires_at = expires;
          is_partial = is_part;
          is_final = final;
          partial_uploads = partials;
          storage = storage;
        })
      (λ i. (
        i.id,
        (
          i.size,
          (
            i.offset,
            (
              i.metadata,
              (
                i.size_is_deferred,
                (i.expires_at, (i.is_partial, (i.is_final, (i.partial_uploads, i.storage)))),
              ),
            ),
          ),
        ),
      ))
      (λ i. refl)

abbrev outcome : Option (UploadInfo × Bytes) → Outcome UploadInfo
outcome none = failed []
outcome (some (i, rest)) = done i

unfoldable pub to_vec : UploadInfo → Outcome Bytes
to_vec i = done (info.put i [])

pub from_slice : Bytes → Outcome UploadInfo
from_slice bs = outcome (info.take bs)

pub from_slice-to_vec :
    (i : UploadInfo) → (b : Bytes) × (to_vec i ≡ done b) × (from_slice b ≡ done i)
unfolding to_vec from_slice
from_slice-to_vec i = (info.put i [], refl, ap outcome (info.take-put i []))
