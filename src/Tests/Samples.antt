-- ===== src/Tests/Samples.antt =====
-- Simple stand-ins for what the other crates give: header maps as functions of the name, an
-- encoding by tally marks in place of base64, and the bytes themselves in place of a digest.
use fileloft.Base.{
  ℕ, zero, suc, ◌+◌, ◌≡◌, refl, ◌∙◌, true, false, Option, none, some, List, [], ◌∷◌, ◌++◌, arith,
  if◌then◌else◌, all, replicate, Text, codes, ◌==◌, to_string, all-append,
}
use fileloft.Info.Codec.{Bytes, Outcome, done, failed, Base64, IsBase64, is_wire}
use fileloft.Info.{UploadInfo, new}
use fileloft.Crates.{Crates, IsHttp, same_name, or_else, is_visible}
use fileloft.Config.{default_config}
use fileloft.Lock.{Locker}
use fileloft.Error.{ok}
use fileloft.Handler.Base.{TusHandler, new as new_handler, World, Ambient}
use fileloft.Memory.Store.{memory_store}

abbrev pub tally : Bytes → Text
tally [] = []
tally (n ∷ v) = replicate n b'a' ++ b'b' ∷ tally v

abbrev put : ℕ → Outcome Bytes → Outcome Bytes
put n (done v) = done (n ∷ v)
put n (failed why) = failed why

abbrev count : ℕ → Text → Outcome Bytes
count acc [] = if acc == 0 then done [] else failed (codes "unfinished")
count acc (c ∷ s) = elim (c == b'a') [
  | true ↦ count (acc + 1) s
  | false ↦ elim (c == b'b') [ true ↦ put acc (count 0 s) | false ↦ failed (codes "stray byte") ]
]

count-replicate :
    (n acc : ℕ) (s : Text) → count acc (replicate n b'a' ++ b'b' ∷ s) ≡ put (acc + n) (count 0 s)
count-replicate zero acc s = ground arith
count-replicate (suc n) acc s = ground (arith, count-replicate n (acc + 1) s)

count-tally : (v : Bytes) → count 0 (tally v) ≡ done v
count-tally [] = refl
count-tally (n ∷ v) = count-replicate n 0 (tally v) ∙ ground (arith, count-tally v)

wire-replicate : (n : ℕ) → all is_wire (replicate n b'a') ≡ true
wire-replicate zero = refl
wire-replicate (suc n) = wire-replicate n

tally-wire : (v : Bytes) → all is_wire (tally v) ≡ true
tally-wire [] = refl
tally-wire (n ∷ v) =
    all-append is_wire (replicate n b'a') (b'b' ∷ tally v)
    ∙ ground (arith, wire-replicate n, tally-wire v)

abbrev pub tallies : Base64
tallies = record { encode = tally; decode = count 0; from_utf8 = done }

pub tallies-IsBase64 : IsBase64 tallies
tallies-IsBase64 = record {
  decode-encode = λ v b. count-tally v;
  encode-nil = refl;
  encode_wire = λ v b. tally-wire v;
}

abbrev Headers : Type 0
Headers = Text → Option Text

abbrev pub crates : Crates
crates = record {
  HeaderMap = Headers;
  HeaderValue = Text;
  empty = λ name. none;
  get = λ h name. h name;
  insert = λ h k v name. if same_name k name then some v else h name;
  extend = λ h g name. or_else (g name) (h name);
  to_str = λ v. if all is_visible v then some v else none;
  from_str = λ v. if all is_visible v then some v else none;
  from_static = λ v. v;
  base64 = tallies;
  digest = λ algorithm v. v;
  duration_from_std = done;
  http_date = to_string;
  iterate = λ m. m;
}

pub crates-IsHttp : IsHttp crates
crates-IsHttp = record {
  get-empty = λ name. refl;
  get-insert = λ h k name v. refl;
  get-extend = λ h g name. refl;
  from_str_lem = λ v visible. rw visible;
  to_str-from_static = λ v visible. rw visible;
}

-- The headers of a request, each under its own name.
abbrev pub headers : List (Text × Text) → Headers
headers [] = λ name. none
headers ((k, v) ∷ hs) = crates.insert (headers hs) k v

-- A locker that grants every request.
abbrev pub open_locker : Locker
open_locker = record {
  State = Unit {0};
  Lock = Unit {0};
  acquire_within = λ timeout id s. (some (ok tt), s);
  release = λ lock s. (ok tt, s);
  drop_lock = λ lock s. s;
}

abbrev pub handler : TusHandler
handler = new_handler memory_store open_locker true default_config

abbrev pub ambient : Ambient
ambient = record { now = 100; fresh_id = codes "fresh" }

-- Five bytes of eleven.
abbrev pub half : UploadInfo
half = record (new (codes "up-1") (some 11)) { offset = 5 }

abbrev pub world : World handler
world = record {
  store = (codes "up-1", record { info = half; content = codes "hello" }) ∷ [];
  locks = tt;
  events = [];
}
