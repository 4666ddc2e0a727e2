-- ===== src/Info/Metadata/Roundtrip.antt =====
-- `Metadata::parse` inverts `Metadata::encode`.
use fileloft.Base.{
  ℕ, ◌≤◌, ◌≡◌, refl, ap, ◌∙◌, sym, subst, true, false, Option, none, some, List, [], ◌∷◌, ◌++◌, map,
  arith, append_assoc, append-nil, length, all, all-append, Text, codes, text_eq, text_eq_iff, trim,
  Bool-cases, inl, inr, split, join,
}
use fileloft.Base.Map
use fileloft.Base.Map.{get-insert}
use fileloft.Error.{ok}
use fileloft.Info.Codec.{Base64, IsBase64, done, is_wire, is_byte}
use fileloft.Info.Metadata.{Metadata, Entry, parse_entry, parse_pairs, parse, encode_entry, encode}
use fileloft.Info.Metadata.Entries.{
  trim-wire, trim-pair, trim-key_space, split_once-wire, split_once-pair, no_comma, AllFree,
  split-join,
}

-- The empty value is sent like no value.
abbrev pub normalise_value : Option Text → Option Text
normalise_value none = none
normalise_value (some []) = none
normalise_value (some (c ∷ v)) = some (c ∷ v)

abbrev pub normalise : Entry → Entry
normalise (key, value) = (key, normalise_value value)

-- An empty list of entries is sent as the empty header.
abbrev pub IsUtf8 : Base64 → Option Text → Type 0
IsUtf8 base64 none = Unit
IsUtf8 base64 (some text) = (all is_byte text ≡ true) × (base64.from_utf8 text ≡ done text)

-- Keys without a comma or white space, each once, and values that are texts.
abbrev pub IsWritable : Base64 → Metadata → Type 0
IsWritable base64 [] = Unit
IsWritable base64 ((key, value) ∷ m) =
    (1 ≤ length key)
    × (all is_wire key ≡ true)
    × IsUtf8 base64 value
    × (Map.get key m ≡ none)
    × IsWritable base64 m

module _ (base64 : Base64) (laws : IsBase64 base64) where
  encode-nonempty :
      (c : ℕ) (v : Text)
      → all is_byte (c ∷ v) ≡ true
      → (d : ℕ) × (e : Text) × (base64.encode (c ∷ v) ≡ d ∷ e)
  encode-nonempty c v b = at (base64.encode (c ∷ v)) refl
    where
      at :
          (w : Text)
          → base64.encode (c ∷ v) ≡ w
          → (d : ℕ) × (e : Text) × (base64.encode (c ∷ v) ≡ d ∷ e)
      at [] e =
          let bad : done (c ∷ v) ≡ done [] =
            cc (laws.decode-encode (c ∷ v) b, laws.decode-encode [] refl, laws.encode-nil, e) in
          cc bad
      at (d ∷ w) e = (d, w, e)

  parse_entry_key :
      (pair : Text) (k : ℕ) (key : Text)
      → trim pair ≡ k ∷ key
      → all is_wire (k ∷ key) ≡ true
      → parse_entry base64 pair ≡ ok (some (k ∷ key, none))
  unfolding parse_entry
  parse_entry_key pair k key e h =
      ground (arith, split_once-wire (k ∷ key) h, trim-wire (k ∷ key) h)

  parse_entry_pair :
      (pair : Text) (k : ℕ) (key : Text) (d : ℕ) (b64 value : Text)
      → trim pair ≡ k ∷ key ++ (codes " " ++ d ∷ b64)
      → all is_wire (k ∷ key) ≡ true
      → all is_wire (d ∷ b64) ≡ true
      → base64.decode (d ∷ b64) ≡ done value
      → base64.from_utf8 value ≡ done value
      → parse_entry base64 pair ≡ ok (some (k ∷ key, some value))
  unfolding parse_entry
  parse_entry_pair pair k key d b64 value e h g decoded text =
      ground
        (arith, split_once-pair (k ∷ key) (d ∷ b64) h, trim-wire (k ∷ key) h, trim-wire (d ∷ b64) g)

  parse_entry-encode_entry :
      (key : Text) (value : Option Text)
      → 1 ≤ length key
      → all is_wire key ≡ true
      → IsUtf8 base64 value
      → parse_entry base64 (encode_entry base64 (key, value)) ≡ ok (some (normalise (key, value)))
  parse_entry-encode_entry [] value n h u = absurd (omega arith)
  parse_entry-encode_entry (k ∷ key) none n h u =
      parse_entry_key _ k key (unfold encode_entry in trim-wire (k ∷ key) h) h
  parse_entry-encode_entry (k ∷ key) (some []) n h u =
      parse_entry_key _ k key (unfold encode_entry in rw laws.encode-nil (trim-key_space k key h)) h
  parse_entry-encode_entry (k ∷ key) (some (c ∷ v)) n h u =
      let (d, e, same) = encode-nonempty c v u.0 in
      let wire : all is_wire (d ∷ e) ≡ true =
        subst (λ w. all is_wire w ≡ true) same (laws.encode_wire (c ∷ v) u.0) in
      let decoded : base64.decode (d ∷ e) ≡ done (c ∷ v) =
        subst (λ w. base64.decode w ≡ done (c ∷ v)) same (laws.decode-encode (c ∷ v) u.0) in
      parse_entry_pair _ k key d e (c ∷ v)
        (unfold encode_entry in rw same (trim-pair k key d e h wire)) h wire decoded u.1

  no_comma-wire : (s : Text) → all is_wire s ≡ true → all no_comma s ≡ true
  no_comma-wire [] h = refl
  no_comma-wire (c ∷ s) h = ground (arith, no_comma-wire s)

  no_comma-encode_entry :
      (key : Text) (value : Option Text)
      → all is_wire key ≡ true
      → IsUtf8 base64 value
      → all no_comma (encode_entry base64 (key, value)) ≡ true
  unfolding encode_entry
  no_comma-encode_entry key none h u = no_comma-wire key h
  no_comma-encode_entry key (some v) h u =
      rw (all-append no_comma key (codes " " ++ base64.encode v)) (
        ground
          (arith, no_comma-wire key h, no_comma-wire (base64.encode v) (laws.encode_wire v u.0)))

  encoded-AllFree : (m : Metadata) → IsWritable base64 m → AllFree (map (encode_entry base64) m)
  encoded-AllFree [] h = tt
  encoded-AllFree ((key, value) ∷ m) (n, w, u, d, h) =
      (no_comma-encode_entry key value w u, encoded-AllFree m h)

abbrev AllAbsent : Metadata → Metadata → Type 0
AllAbsent acc [] = Unit
AllAbsent acc ((key, value) ∷ m) = (Map.get key acc ≡ none) × AllAbsent acc m

get-cons :
    (key j : Text) (v : Option Text) (m : Metadata)
    → Map.get key ((j, v) ∷ m) ≡ none
    → (text_eq j key ≡ false) × (Map.get key m ≡ none)
unfolding Map.get
get-cons key j v m h = ground arith

AllAbsent-insert :
    (key : Text) (value : Option Text) (acc m : Metadata)
    → Map.get key m ≡ none
    → AllAbsent acc m
    → AllAbsent (Map.insert key value acc) m
AllAbsent-insert key value acc [] d h = tt
AllAbsent-insert key value acc ((j, v) ∷ m) d h =
    let here : Map.get j (Map.insert key value acc) ≡ none = ground (
      arith,
      get-insert j key value acc,
      text_eq_iff key j,
      text_eq_iff j key,
      get-cons key j v m d,
      h.0,
    ) in
    (here, AllAbsent-insert key value acc m (get-cons key j v m d).1 h.1)

insert_absent :
    (key : Text) (value : Option Text) (acc : Metadata)
    → Map.get key acc ≡ none
    → Map.insert key value acc ≡ acc ++ (key, value) ∷ []
unfolding Map.get Map.insert
insert_absent key value [] h = refl
insert_absent key value ((j, v) ∷ acc) h = ground (arith, insert_absent key value acc)

parse_pairs-step :
    (base64 : Base64) (acc : Metadata) (pair : Text) (pairs : List Text) (key : Text)
    (value : Option Text)
    → parse_entry base64 pair ≡ ok (some (key, value))
    → parse_pairs base64 acc (pair ∷ pairs) ≡ parse_pairs base64 (Map.insert key value acc) pairs
unfolding parse_pairs
parse_pairs-step base64 acc pair pairs key value e = rw (e, parse_pairs)

module _ (base64 : Base64) (laws : IsBase64 base64) where
  parse_pairs-encode :
      (acc m : Metadata)
      → IsWritable base64 m
      → AllAbsent acc m
      → parse_pairs base64 acc (map (encode_entry base64) m) ≡ ok (acc ++ map normalise m)
  parse_pairs-encode acc [] w a = unfold parse_pairs in ap ok (sym (append-nil acc))
  parse_pairs-encode acc ((key, value) ∷ m) (n, wire, u, d, w) (here, a) =
      let sent = normalise_value value in
      parse_pairs-step base64 acc (encode_entry base64 (key, value)) (map (encode_entry base64) m)
        key sent (parse_entry-encode_entry base64 laws key value n wire u)
      ∙ (parse_pairs-encode (Map.insert key sent acc) m w (AllAbsent-insert key sent acc m d a)
          ∙ rw (insert_absent key sent acc here)
              (ap ok (append_assoc acc ((key, sent) ∷ []) (map normalise m))))

all_absent : (m : Metadata) → AllAbsent [] m
unfolding Map.get
all_absent [] = tt
all_absent (e ∷ m) = (refl, all_absent m)

-- The entries in the order of a list.
parse-join :
    (base64 : Base64)
    → IsBase64 base64
    → (m : List Entry) → IsWritable base64 m
    → parse base64 (join (codes ",") (map (encode_entry base64) m)) ≡ ok (map normalise m)
unfolding parse
parse-join base64 laws [] w = unfold parse_pairs parse_entry join trim split in refl
parse-join base64 laws (e ∷ m) w =
    rw
      (split-join (encode_entry base64 e) (map (encode_entry base64) m)
        (encoded-AllFree base64 laws (e ∷ m) w))
      (parse_pairs-encode base64 laws [] (e ∷ m) w (all_absent (e ∷ m)))

-- Each key once.
abbrev pub AllOnce : List Entry → Type 0
AllOnce [] = Unit
AllOnce ((key, value) ∷ m) = (Map.get key m ≡ none) × AllOnce m

-- A hash map's iterator visits each entry once, in any order.
pub record IsIterator (iterate : Metadata → List Entry) : Type 0 where
  pub once : (m : Metadata) → AllOnce m → AllOnce (iterate m)
  pub get-iterate :
      (m : Metadata) (key : Text) → AllOnce m → Map.get key (iterate m) ≡ Map.get key m

-- Keys of visible ASCII without a comma, and values that are texts.
pub record IsSendable (base64 : Base64) (m : Metadata) : Type 0 where
  pub once : AllOnce m
  pub key_nonempty :
      (key : Text) (value : Option Text) → Map.get key m ≡ some value → 1 ≤ length key
  pub key_wire :
      (key : Text) (value : Option Text) → Map.get key m ≡ some value → all is_wire key ≡ true
  pub value_text :
      (key : Text) (value : Option Text) → Map.get key m ≡ some value → IsUtf8 base64 value

get-head :
    (key : Text) (value : Option Text) (m : List Entry)
    → Map.get key ((key, value) ∷ m) ≡ some value
unfolding Map.get
get-head key value m = rw ((text_eq_iff key key).1 refl) refl

get-tail :
    (key j : Text) (value v : Option Text) (m : List Entry)
    → Map.get key m ≡ none
    → Map.get j m ≡ some v
    → Map.get j ((key, value) ∷ m) ≡ some v
unfolding Map.get
get-tail key j value v m absent there = elim (Bool-cases (text_eq key j)) [
  | inl same ↦
      (let clash = ap (λ t. Map.get t m) ((text_eq_iff key j).0 same) in cc (clash, absent, there))
  | inr other ↦ rw other there
]

IsWritable-IsSendable :
    (base64 : Base64) (m : Metadata)
    → IsSendable base64 m
    → (entries : List Entry) → AllOnce entries
    → ((key : Text) (v : Option Text) → Map.get key entries ≡ some v → Map.get key m ≡ some v)
    → IsWritable base64 entries
IsWritable-IsSendable base64 m s [] once part = tt
IsWritable-IsSendable base64 m s ((key, value) ∷ entries) (absent, once) part =
    let here = part key value (get-head key value entries) in
    (
      s.key_nonempty key value here,
      s.key_wire key value here,
      s.value_text key value here,
      absent,
      IsWritable-IsSendable base64 m s entries once
          (λ j v there. part j v (get-tail key j value v entries absent there)),
    )

found_writable :
    (base64 : Base64) (m : List Entry)
    → IsWritable base64 m
    → (key : Text) (v : Option Text) → Map.get key m ≡ some v
    → (1 ≤ length key) × (all is_wire key ≡ true) × IsUtf8 base64 v
unfolding Map.get
found_writable base64 [] w key v e = cc
found_writable base64 ((j, u) ∷ m) (n, wire, utf8, absent, w) key v e =
    elim (Bool-cases (text_eq j key)) [
      | inl same ↦
          let value : u ≡ v = cc (rw same at e) in
          subst (λ k. (1 ≤ length k) × (all is_wire k ≡ true) × IsUtf8 base64 v)
            ((text_eq_iff j key).0 same) (n, wire, subst (IsUtf8 base64) value utf8)
      | inr other ↦ found_writable base64 m w key v (rw other at e)
    ]

once_writable : (base64 : Base64) (m : List Entry) → IsWritable base64 m → AllOnce m
once_writable base64 [] w = tt
once_writable base64 ((key, value) ∷ m) (n, wire, u, absent, w) = (absent, once_writable base64 m w)

-- A check of the entries one by one.
pub IsSendable-IsWritable :
    (base64 : Base64) (m : Metadata) → IsWritable base64 m → IsSendable base64 m
IsSendable-IsWritable base64 m w = record {
  once = once_writable base64 m w;
  key_nonempty = λ key v e. (found_writable base64 m w key v e).0;
  key_wire = λ key v e. (found_writable base64 m w key v e).1;
  value_text = λ key v e. (found_writable base64 m w key v e).2;
}

abbrev pub normalise_found : Option (Option Text) → Option (Option Text)
normalise_found none = none
normalise_found (some value) = some (normalise_value value)

get-map :
    (key : Text) (m : List Entry) → Map.get key (map normalise m) ≡ normalise_found (Map.get key m)
unfolding Map.get
get-map key [] = refl
get-map key ((j, v) ∷ m) = elim (Bool-cases (text_eq j key)) [
  | inl same ↦ rw same refl
  | inr other ↦ rw other (get-map key m)
]

-- For metadata with each key once, whose keys are nonempty and of visible ASCII without commas, and
-- whose values are texts, and for any order in which the map is iterated: parsing the encoded
-- header succeeds and gives a map with the same keys and values, but for values that are the empty
-- text, which come back as no value.
pub parse-encode :
    (base64 : Base64) (iterate : Metadata → List Entry)
    → IsBase64 base64
    → IsIterator iterate
    → (m : Metadata) → IsSendable base64 m
    → (m' : Metadata) × (parse base64 (encode base64 iterate m) ≡ ok m')
      × ((key : Text) → Map.get key m' ≡ normalise_found (Map.get key m))
unfolding encode
parse-encode base64 iterate laws order m s = (
  map normalise (iterate m),
  parse-join base64 laws (iterate m) (
      IsWritable-IsSendable base64 m s (iterate m) (order.once m s.once)
        (λ key v e. sym (order.get-iterate m key s.once) ∙ e)),
  λ key. get-map key (iterate m) ∙ ap normalise_found (order.get-iterate m key s.once),
)
