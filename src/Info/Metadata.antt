-- ===== src/Info/Metadata.antt =====
-- crates/fileloft-core/src/info.rs: `Metadata`, a `HashMap<String, Option<String>>` of the pairs in
-- the `Upload-Metadata` header. The list of entries stands for the map: the code sees it through
-- `get` and `insert`, and through its iterator, whose order is a parameter.
pub mod Entries
pub mod Roundtrip
use fileloft.Base.{
  ℕ, ◌++◌, Bool, Option, none, some, List, [], ◌∷◌, map, if◌then◌else◌, is_empty, Text, codes, trim,
  split, split_once, join,
}
use fileloft.Base.Map
use fileloft.Base.Map.{Map}
use fileloft.Error.{TusError, Result, ok, err, ◌>>=◌}
use fileloft.Info.Codec.{Base64, Outcome, done, failed}

abbrev pub Metadata : Type 0
Metadata = Map (Option Text)

abbrev pub Entry : Type 0
Entry = Text × Option Text

module _ (base64 : Base64) where
  read_utf8 : (key : Text) → Outcome Text → Result (Option Text)
  read_utf8 key (done text) = ok (some text)
  read_utf8 key (failed why) =
      err (
        TusError.invalid_metadata (codes "non-UTF8 value for key " ++ (key ++ (codes ": " ++ why))))

  read_base64 : (key : Text) → Outcome (List ℕ) → Result (Option Text)
  unfolding read_utf8
  read_base64 key (done bytes) = read_utf8 key (base64.from_utf8 bytes)
  read_base64 key (failed why) = err (TusError.invalid_metadata why)

  -- The `match` on the second part of a pair.
  parse_value : (key : Text) → Option Text → Result (Option Text)
  unfolding read_base64
  parse_value key none = ok none
  parse_value key (some []) = ok none
  parse_value key (some (c ∷ b64)) = read_base64 key (base64.decode (trim (c ∷ b64)))

  parse_parts : (first : Text) (second : Option Text) → Result (Option Entry)
  unfolding parse_value
  parse_parts first second =
      let key = trim first in
      if is_empty key
      then err (TusError.invalid_metadata (codes "empty key in metadata"))
      else (do value ← parse_value key second; ok (some (key, value)))

  -- One round of the loop in `Metadata::parse`: `none` is its `continue`.
  unfoldable pub parse_entry : (pair : Text) → Result (Option Entry)
  unfolding parse_parts
  parse_entry pair =
      let p = trim pair in
      if is_empty p then ok none else elim (split_once b' ' p) [
        | none ↦ parse_parts p none
        | some (first, second) ↦ parse_parts first (some second)
      ]

  unfoldable pub parse_pairs : Metadata → List Text → Result Metadata
  parse_pairs m [] = ok m
  parse_pairs m (pair ∷ pairs) = elim (parse_entry pair) [
    | err e ↦ err e
    | ok none ↦ parse_pairs m pairs
    | ok (some (key, value)) ↦ parse_pairs (Map.insert key value m) pairs
  ]

  -- `Metadata::parse`
  unfoldable pub parse : Text → Result Metadata
  parse header = parse_pairs [] (split b',' header)

  unfoldable pub encode_entry : Entry → Text
  encode_entry (key, none) = key
  encode_entry (key, some value) = key ++ (codes " " ++ base64.encode value)

  -- `Metadata::encode`: `iterate` gives the entries of the map in the order in which the hash map's
  -- iterator visits them.
  unfoldable pub encode : (iterate : Metadata → List Entry) → Metadata → Text
  encode iterate m = join (codes ",") (map encode_entry (iterate m))
