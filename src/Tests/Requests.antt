-- ===== src/Tests/Requests.antt =====
-- Requests over the memory store.
use fileloft.Base.{
  ℕ, ◌≤◌, ◌≡◌, refl, inl, none, some, [], arith, codes, text_eq, starts_with, contains, ends_with,
  rfind, to_lowercase, ◌∙◌,
}
use fileloft.Base.Map
use fileloft.Error.{TusError, ok}
use fileloft.Info.Id.{
  validate, parse, validate_str, token_collides, any_token, collides_with_reserved_key,
}
use fileloft.Crates.{same_name}
use fileloft.Config.{default_config}
use fileloft.Util.{check_tus_resumable, parse_upload_offset, parse_upload_length}
use fileloft.Memory.Refinement.{memory_store-IsDataStore}
use fileloft.Handler.Base.{TusBody, request_id, response_with_body, error_response}
use fileloft.Handler.Errors.{error_response_private}
use fileloft.Handler.Read.{head, head_headers, get_upload_content}
use fileloft.Handler.Read.Answers.{HeadOutcome, GetOutcome, head_lem, get_upload_content_lem}
use fileloft.Handler.Read.Headers.{head-parse}
use fileloft.Handler.Delete.{delete_upload}
use fileloft.Handler.Delete.Outcome.{DeleteOutcome, delete_upload_lem}
use fileloft.Handler.Patch.{handle, patch_upload, patch_response}
use fileloft.Handler.Expiry.{IsLive}
use fileloft.Proto.{hdr_upload_checksum}
use fileloft.Handler.Patch.Atomic.{AllWhole}
use fileloft.Handler.Patch.Invariant.{handle-AllWhole}
use fileloft.Handler.Patch.Digest.{nothing}
use fileloft.Handler.Patch.Success.{patch_upload-ok}
use fileloft.Tests.Samples.{crates, crates-IsHttp, handler, ambient, half, world}
use fileloft.Tests.Patching.{chunk, contract, world-AllWhole}

-- Everything that the tests compute with.
computing : Unit {0}
unfolding check_tus_resumable request_id parse validate validate_str collides_with_reserved_key
    any_token token_collides text_eq starts_with contains ends_with rfind same_name to_lowercase
    Map.get
computing = tt

spoken : check_tus_resumable crates chunk.headers ≡ ok tt
unfolding computing
spoken = refl

named : request_id chunk.upload_id ≡ ok (codes "up-1")
unfolding computing
named = refl

valid : validate (codes "up-1") ≡ ok tt
unfolding computing
valid = refl

there :
    contract.view world.store (codes "up-1")
    ≡ some (record { info = half; content = codes "hello" })
unfolding computing
there = memory_store-IsDataStore.1 world.store (codes "up-1") ∙ refl

unannounced : crates.get chunk.headers hdr_upload_checksum ≡ none
unfolding computing
unannounced = refl

head_lem_example :
    HeadOutcome crates handler ambient
      (codes "up-1")
      (contract.view world.store (codes "up-1"))
      (head crates handler ambient chunk world).0
    × ((head crates handler ambient chunk world).1 ≡ world)
head_lem_example =
    head_lem crates crates-IsHttp handler contract ambient (codes "up-1") chunk world spoken named

get_upload_content_lem_example :
    GetOutcome crates handler ambient
      (codes "up-1")
      (contract.view world.store (codes "up-1"))
      (get_upload_content crates handler ambient (codes "up-1") world).0
    × ((get_upload_content crates handler ambient (codes "up-1") world).1 ≡ world)
get_upload_content_lem_example =
    get_upload_content_lem crates crates-IsHttp handler contract ambient (codes "up-1") world valid

head-parse_example :
    (parse_upload_offset crates
        (response_with_body crates default_config 204
          (head_headers crates handler half)
          (TusBody.bytes [])).headers
      ≡ ok 5)
    × (parse_upload_length crates
          (response_with_body crates default_config 204
            (head_headers crates handler half)
            (TusBody.bytes [])).headers
        ≡ ok (some 11))
head-parse_example =
    head-parse crates crates-IsHttp handler half (TusBody.bytes []) 11 (omega arith) refl
      (omega arith)

delete_upload_lem_example :
    DeleteOutcome crates handler contract
      (codes "up-1")
      world
      valid
      (contract.view world.store (codes "up-1"))
      (delete_upload crates handler (codes "up-1") world)
delete_upload_lem_example = delete_upload_lem crates handler contract (codes "up-1") world valid

handle-AllWhole_example :
    AllWhole (contract.view (handle crates handler ambient chunk world).1.store)
handle-AllWhole_example =
    handle-AllWhole crates handler contract refl ambient chunk world world-AllWhole

live : IsLive ambient.now half.expires_at
live = tt

-- The chunk fills the upload.
cap : (size : ℕ) → some 11 ≡ some size → 11 ≤ size
cap size e = let same : 11 ≡ size = cc in omega (arith, same)

patch_upload-ok_example :
    (patch_upload crates handler ambient chunk 5 (codes "up-1") world).0
    ≡ ok (patch_response crates handler (record half { offset = 11 }))
patch_upload-ok_example =
    patch_upload-ok crates handler contract (codes "up-1") ambient chunk world
      (record { info = half; content = codes "hello" }) (codes " world") valid there refl refl live
      (inl refl) refl (nothing unannounced)
      (record { in_u64 = omega arith; in_size = λ size e. cap size e }) refl

error_response_private_example :
    error_response crates default_config (TusError.io (codes "disk full"))
    ≡ error_response crates default_config (TusError.internal (codes "poisoned"))
error_response_private_example =
    error_response_private crates default_config (TusError.io (codes "disk full"))
      (TusError.internal (codes "poisoned")) tt tt
