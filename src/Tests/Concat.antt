-- ===== src/Tests/Concat.antt =====
-- A concatenation over the memory store.
use fileloft.Base.{
  ◌≡◌, refl, ◌∙◌, sym, ap, true, none, some, [], ◌∷◌, Text, codes, text_eq, starts_with, contains,
  ends_with, rfind, text_eq_iff, Bool-cases, inl, inr,
}
use fileloft.Base.Map
use fileloft.Info.{UploadInfo, new}
use fileloft.Info.Id.{validate, validate_str, token_collides, any_token, collides_with_reserved_key}
use fileloft.Store.Contract.{Stored}
use fileloft.Memory.Refinement.{stored, memory_store-IsDataStore}
use fileloft.Handler.Base.{TusHandler, new as new_handler, World}
use fileloft.Handler.Post.{assemble}
use fileloft.Handler.Post.Concat.{IsKeyed, AllValid, AssembleOutcome, assemble_lem}
use fileloft.Tests.Samples.{open_locker}
use fileloft.Config.{default_config, default_extensions}
use fileloft.Memory.Store.{memory_store}
use fileloft.Tests.Patching.{contract}

abbrev joining : TusHandler
joining =
    new_handler memory_store open_locker true
      (record default_config { extensions = record default_extensions { concatenation = true } })

abbrev part : Text → Text → UploadInfo
part id size = record (new id (some 2)) { offset = 2; is_partial = true }

abbrev whole : UploadInfo
whole = record (new (codes "w") none) {
  is_final = true;
  partial_uploads = codes "b" ∷ codes "a" ∷ [];
}

abbrev parts : World joining
parts = record {
  store =
      (codes "a", record { info = part (codes "a") []; content = codes "AA" })
      ∷ (codes "b", record { info = part (codes "b") []; content = codes "BB" })
      ∷ (codes "w", record { info = whole; content = [] })
      ∷ [];
  locks = tt;
  events = [];
}

parts-AllValid : AllValid (codes "b" ∷ codes "a" ∷ [])
unfolding validate validate_str collides_with_reserved_key any_token token_collides text_eq
    starts_with contains ends_with rfind
parts-AllValid = (refl, (refl, tt))

there : contract.view parts.store (codes "w") ≡ some (record { info = whole; content = [] })
unfolding Map.get text_eq
there = memory_store-IsDataStore.1 parts.store (codes "w") ∙ refl

entry-IsKeyed :
    (k id : Text) (kept e : Stored)
    → text_eq k id ≡ true
    → kept.info.id ≡ k
    → some kept ≡ some e
    → e.info.id ≡ id
entry-IsKeyed k id kept e same own found =
    let s : e ≡ kept = cc in ap (λ (d : Stored). d.info.id) s ∙ (own ∙ (text_eq_iff k id).0 same)

stored-IsKeyed :
    (id : Text) (e : Stored) → stored (Map.get id parts.store) ≡ some e → e.info.id ≡ id
unfolding Map.get
stored-IsKeyed id e found = elim (Bool-cases (text_eq (codes "a") id)) [
  | inl same ↦ entry-IsKeyed (codes "a") id _ e same refl (rw same at found)
  | inr other1 ↦ elim (Bool-cases (text_eq (codes "b") id)) [
    | inl same ↦ entry-IsKeyed (codes "b") id _ e same refl (rw (other1, same) at found)
    | inr other2 ↦ elim (Bool-cases (text_eq (codes "w") id)) [
      | inl same ↦ entry-IsKeyed (codes "w") id _ e same refl (rw (other1, other2, same) at found)
      | inr other3 ↦ cc (rw (other1, other2, other3) at found)
    ]
  ]
]

parts-IsKeyed : IsKeyed (contract.view parts.store)
parts-IsKeyed id e found =
    stored-IsKeyed id e (sym (memory_store-IsDataStore.1 parts.store id) ∙ found)

assemble_lem_example :
    AssembleOutcome joining contract parts parts-IsKeyed
      (codes "w")
      (record { info = whole; content = [] })
      there
      (codes "b" ∷ codes "a" ∷ [])
      (assemble joining true (contract.handle (codes "w")) (codes "b" ∷ codes "a" ∷ []) parts)
assemble_lem_example =
    assemble_lem joining contract parts parts-IsKeyed (codes "w")
      (record { info = whole; content = [] }) there (codes "b" ∷ codes "a" ∷ []) parts-AllValid refl
