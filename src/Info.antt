-- ===== src/Info.antt =====
-- crates/fileloft-core/src/info.rs: `UploadInfo`, the state of one upload.
pub mod Codec
pub mod Id
pub mod Metadata
use fileloft.Base.{ℕ, Bool, true, false, ◌==◌, Option, none, some, List, [], Text}
use fileloft.Base.Map.{Map}
use fileloft.Info.Id.{UploadId}

pub record UploadInfo : Type 0 where
  pub id : UploadId
  pub size : Option ℕ
  pub offset : ℕ
  pub metadata : Metadata.Metadata
  pub size_is_deferred : Bool
  pub expires_at : Option ℕ
  pub is_partial : Bool
  pub is_final : Bool
  pub partial_uploads : List UploadId
  pub storage : Map Text

-- `Option::is_none`
abbrev pub is_none {ℓ} : {A : Type ℓ} → Option A → Bool
is_none none = true
is_none (some a) = false

-- `UploadInfo::new`
abbrev pub new : UploadId → Option ℕ → UploadInfo
new id size = record {
  id = id;
  size = size;
  offset = 0;
  metadata = [];
  size_is_deferred = is_none size;
  expires_at = none;
  is_partial = false;
  is_final = false;
  partial_uploads = [];
  storage = [];
}

complete_at : Option ℕ → ℕ → Bool
complete_at none offset = false
complete_at (some s) offset = offset == s

-- `UploadInfo::is_complete`
unfoldable pub is_complete : UploadInfo → Bool
unfolding complete_at
is_complete info = complete_at info.size info.offset

-- `UploadInfoChanges`: what a `pre_create` hook may override.
pub record UploadInfoChanges : Type 0 where
  pub id : Option UploadId
  pub metadata : Option Metadata.Metadata
  pub storage : Option (Map Text)
