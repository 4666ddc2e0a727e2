-- ===== src/Handler/Base.antt =====
-- crates/fileloft-core/src/handler/mod.rs: requests, responses, the state that the handlers work
-- on, and the helpers that they share.
use fileloft.Base.{
  ℕ, Bool, true, false, Option, none, some, List, [], ◌∷◌, ◌++◌, if◌then◌else◌, ltb, Text, codes,
  trim, to_string,
}
use fileloft.Proto.{
  tus_version, hdr_tus_resumable, hdr_cache_control, hdr_content_type,
  hdr_access_control_allow_origin, hdr_access_control_allow_credentials,
  hdr_access_control_expose_headers,
}
use fileloft.Error.{TusError, Result, ok, err, status_code, client_message}
use fileloft.Exec.{Exec}
use fileloft.Info.{UploadInfo}
use fileloft.Info.Id.{UploadId, parse}
use fileloft.Config.{Config, CorsConfig}
use fileloft.Hooks.{HookEvent}
use fileloft.Crates.{Crates}
use fileloft.Store.{Reader, DataStore}
use fileloft.Lock.{Locker}

-- `http::Method`
pub data Method : Type 0 where
  options head get post patch delete other : Method

pub data TusBody : Type 0 where
  bytes : Text → TusBody
  reader : Reader → TusBody

-- `TusHandler<S, L>`: `has_locker` tells whether `locker` is `Some`, and `has_hook_tx` whether
-- `hook_tx` is.
pub record TusHandler : Type 1 where
  pub store : DataStore
  pub locker : Locker
  pub has_locker : Bool
  pub config : Config
  pub has_hook_tx : Bool

-- `TusHandler::new`
abbrev pub new : DataStore → Locker → (has_locker : Bool) → Config → TusHandler
new store locker has_locker config = record {
  store = store;
  locker = locker;
  has_locker = has_locker;
  config = config;
  has_hook_tx = ltb 0 config.hooks.channel_capacity;
}

-- What a handler changes: the store, the locks that are held, and the events sent so far, the
-- first one first.
pub record World (h : TusHandler) : Type 0 where
  pub store : h.store.State
  pub locks : h.locker.State
  pub events : List HookEvent

-- The environment of one request: the clock, and the UUID that `UploadId::new` would draw.
pub record Ambient : Type 0 where
  pub now : ℕ
  pub fresh_id : UploadId

module _ (h : TusHandler) where
  abbrev pub Action : Type 0 → Type 0
  Action A = Exec (World h) A

  -- A call of the store.
  abbrev pub in_store : {A : Type 0} → Exec h.store.State A → Action A
  in_store m w = let (r, s) = m w.store in (r, record w { store = s })

  -- `TusHandler::emit`
  abbrev pub emit : HookEvent → Action (Unit {0})
  emit event w =
      (ok tt, record w { events = if h.has_hook_tx then w.events ++ event ∷ [] else w.events })

  -- What follows the acquisition, and the guard's drop.
  abbrev pub guarded : {A : Type 0} → UploadId → Option (Result h.locker.Lock) → Action A → Action A
  guarded id none body w = (err (TusError.lock_timeout id), w)
  guarded id (some (err e)) body w = (err e, w)
  guarded id (some (ok lock)) body w =
      let (r, w') = body w in (r, record w' { locks = h.locker.drop_lock lock w'.locks })

  -- `_lock` of the handlers: the rest of the handler runs under it.
  unfoldable pub with_lock : {A : Type 0} → UploadId → Action A → Action A
  with_lock id body w =
      let (got, locks) = h.locker.acquire_within h.config.lock_timeout id w.locks in
      if h.has_locker then guarded id got body (record w { locks = locks }) else body w

  -- `if chrono::Utc::now() > expires_at { return Err(Gone) }`
  abbrev pub check_expiry : ℕ → Option ℕ → Result (Unit {0})
  check_expiry now none = ok tt
  check_expiry now (some expires_at) = if ltb expires_at now then err TusError.gone else ok tt

  -- `if let Some(cb) = &hook { cb(info).await?; }`
  abbrev pub run_hook : Option (UploadInfo → Result (Unit {0})) → UploadInfo → Result (Unit {0})
  run_hook none info = ok tt
  run_hook (some cb) info = cb info

-- `if test { return Err(e); }`
abbrev pub refuse_if : Bool → TusError → Result (Unit {0})
refuse_if true e = err e
refuse_if false e = ok tt

-- `UploadId::parse(req.upload_id.as_deref().ok_or(InvalidUploadId)?)?`
unfoldable pub request_id : Option Text → Result UploadId
request_id none = err TusError.invalid_upload_id
request_id (some value) = parse value

module _ (x : Crates) where
  open x use {HeaderMap, HeaderValue, empty, insert, extend, from_str, from_static}

  pub record TusRequest : Type 0 where
    pub method : Method
    pub upload_id : Option Text
    pub headers : HeaderMap
    pub body : Option Reader

  pub record TusResponse : Type 0 where
    pub status : ℕ
    pub headers : HeaderMap
    pub body : TusBody

  -- `if let Ok(v) = text.parse() { headers.insert(name, v); }`
  abbrev pub insert_parsed : HeaderMap → Text → Text → HeaderMap
  insert_parsed headers name text = elim (from_str text) [
    | none ↦ headers
    | some v ↦ insert headers name v
  ]

  -- The loops that append the extra header names to a list.
  unfoldable pub append_extras : Text → List Text → Text
  append_extras acc [] = acc
  append_extras acc (extra ∷ extras) = append_extras (acc ++ (codes "," ++ trim extra)) extras

  abbrev pub exposed : Text
  exposed =
      codes "Upload-Offset,Upload-Length,Upload-Metadata,Upload-Expires,"
      ++ (codes "Upload-Defer-Length,Location,Tus-Resumable,Tus-Version,Tus-Extension,"
          ++ codes "Tus-Max-Size,Tus-Checksum-Algorithm,Content-Length,Content-Type")

  unfoldable pub cors_headers : CorsConfig → HeaderMap → HeaderMap
  cors_headers cors headers =
      let h1 = insert_parsed headers hdr_access_control_allow_origin cors.allow_origin in
      let h2 =
        if cors.allow_credentials
        then insert h1 hdr_access_control_allow_credentials (from_static (codes "true"))
        else h1 in
      insert_parsed h2 hdr_access_control_expose_headers
        (append_extras exposed cors.extra_expose_headers)

  -- `TusHandler::base_headers`
  unfoldable pub base_headers : Config → HeaderMap
  base_headers config =
      let h1 = insert empty hdr_tus_resumable (from_static tus_version) in
      let h2 = insert h1 hdr_cache_control (from_static (codes "no-store")) in
      if config.cors.enabled then cors_headers config.cors h2 else h2

  -- `TusHandler::response_with_body`, and `response` for a body of bytes.
  abbrev pub response_with_body : Config → ℕ → HeaderMap → TusBody → TusResponse
  response_with_body config status extra_headers body = record {
    status = status;
    headers = extend (base_headers config) extra_headers;
    body = body;
  }

  -- `TusHandler::error_response`
  unfoldable pub error_response : Config → TusError → TusResponse
  error_response config e = record {
    status = status_code e;
    headers =
        insert (base_headers config) hdr_content_type
          (from_static (codes "text/plain; charset=utf-8"));
    body = TusBody.bytes (client_message to_string e);
  }
