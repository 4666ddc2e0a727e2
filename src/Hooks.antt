-- ===== src/Hooks.antt =====
-- crates/fileloft-core/src/hooks.rs: lifecycle events and callbacks. A callback is a function of the
-- upload's state; what it does elsewhere is not modelled.
use fileloft.Base.{ℕ, Bool, true, false, ◌||◌, Option, none, some, ltb}
use fileloft.Error.{Result}
use fileloft.Info.{UploadInfo, UploadInfoChanges}
use fileloft.Info.Id.{UploadId}

pub data HookEvent : Type 0 where
  upload_created : UploadInfo → HookEvent
  upload_finished : UploadInfo → HookEvent
  upload_terminated : UploadId → HookEvent
  upload_progress : UploadInfo → HookEvent

pub record HookConfig : Type 0 where
  pub channel_capacity : ℕ
  pub pre_create : Option (UploadInfo → Result UploadInfoChanges)
  pub pre_finish : Option (UploadInfo → Result (Unit {0}))
  pub pre_terminate : Option (UploadInfo → Result (Unit {0}))

-- `Option::is_some`
abbrev is_some : {A : Type 0} → Option A → Bool
is_some none = false
is_some (some a) = true

-- `HookConfig::has_hooks`
unfoldable pub has_hooks : HookConfig → Bool
has_hooks hooks =
    ltb 0 hooks.channel_capacity
    || (is_some hooks.pre_create || (is_some hooks.pre_finish || is_some hooks.pre_terminate))
