-- ===== src/Config.antt =====
-- crates/fileloft-core/src/config.rs: the handler's configuration and its defaults. Durations are
-- numbers of seconds.
use fileloft.Base.{ℕ, Bool, true, false, Option, none, List, [], Text, codes}
use fileloft.Hooks.{HookConfig}

pub record CorsConfig : Type 0 where
  pub enabled : Bool
  pub allow_origin : Text
  pub allow_credentials : Bool
  pub extra_allow_headers : List Text
  pub extra_expose_headers : List Text
  pub max_age : ℕ

abbrev pub default_cors : CorsConfig
default_cors = record {
  enabled = false;
  allow_origin = codes "*";
  allow_credentials = false;
  extra_allow_headers = [];
  extra_expose_headers = [];
  max_age = 86400;
}

pub record Extensions : Type 0 where
  pub creation : Bool
  pub creation_with_upload : Bool
  pub creation_defer_length : Bool
  pub expiration : Bool
  pub expiration_ttl : Option ℕ
  pub checksum : Bool
  pub checksum_trailer : Bool
  pub termination : Bool
  pub concatenation : Bool
  pub cleanup_concat_partials : Bool

abbrev pub default_extensions : Extensions
default_extensions = record {
  creation = true;
  creation_with_upload = true;
  creation_defer_length = true;
  expiration = false;
  expiration_ttl = none;
  checksum = true;
  checksum_trailer = false;
  termination = true;
  concatenation = false;
  cleanup_concat_partials = false;
}

pub record Config : Type 0 where
  pub base_path : Text
  pub base_url : Option Text
  pub max_size : ℕ
  pub extensions : Extensions
  pub lock_timeout : ℕ
  pub cors : CorsConfig
  pub trust_forwarded_headers : Bool
  pub hooks : HookConfig
  pub enable_download : Bool

abbrev pub default_hooks : HookConfig
default_hooks = record {
  channel_capacity = 0;
  pre_create = none;
  pre_finish = none;
  pre_terminate = none;
}

abbrev pub default_config : Config
default_config = record {
  base_path = codes "/files/";
  base_url = none;
  max_size = 0;
  extensions = default_extensions;
  lock_timeout = 20;
  cors = default_cors;
  trust_forwarded_headers = false;
  hooks = default_hooks;
  enable_download = false;
}
