-- ===== src/Handler/Named.antt =====
-- The identifiers that requests name are valid ones.
use fileloft.Base.{◌≡◌, Option, none, some, inl, inr, arith}
use fileloft.Error.{ok}
use fileloft.Info.Id.{UploadId, validate, validate_str, parse}
use fileloft.Handler.Base.{request_id}
use fileloft.Handler.Patch.Write.{Result-cases}

parsed : (value id : UploadId) → validate_str value ≡ ok tt → parse value ≡ ok id → value ≡ id
unfolding parse
parsed value id valid e = ground arith

pub request_id-validate :
    (given : Option UploadId) (id : UploadId) → request_id given ≡ ok id → validate id ≡ ok tt
unfolding request_id parse validate
request_id-validate none id e = cc
request_id-validate (some value) id e = elim (Result-cases (validate_str value)) [
  | inl (_, valid) ↦ rw (← parsed value id valid e) valid
  | inr (why, bad) ↦ cc (rw bad at e)
]
