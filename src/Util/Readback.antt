-- ===== src/Util/Readback.antt =====
-- Numbers in headers: what `u64_header` writes is what the parsers read.
use fileloft.Base.{
  ℕ, ◌≤◌, ◌≡◌, refl, true, some, [], ◌∷◌, arith, all, Text, u64_max, is_ascii_digit, to_string,
  to_string-digits, parse_u64-to_string,
}
use fileloft.Error.{ok}
use fileloft.Proto.{hdr_upload_offset, hdr_upload_length}
use fileloft.Crates.{Crates, IsHttp, is_visible}
use fileloft.Util.{u64_header, parse_upload_offset, parse_upload_length}

digits_visible : (s : Text) → all is_ascii_digit s ≡ true → all is_visible s ≡ true
digits_visible [] h = refl
digits_visible (c ∷ s) h = ground (arith, digits_visible s)

to_string_visible : (n : ℕ) → all is_visible (to_string n) ≡ true
to_string_visible n =
    let (d, ds, e, digits) = to_string-digits n in rw e (digits_visible (d ∷ ds) digits)

module _ (x : Crates) (http : IsHttp x) (n : ℕ) (small : n ≤ u64_max) (headers : x.HeaderMap) where
  to_str-u64_header : x.to_str (u64_header x n) ≡ some (to_string n)
  unfolding u64_header
  to_str-u64_header =
      rw (http.from_str_lem (to_string n) (to_string_visible n))
        (http.to_str-from_static (to_string n) (to_string_visible n))

  pub parse_upload_offset-u64_header :
      x.get headers hdr_upload_offset ≡ some (u64_header x n) → parse_upload_offset x headers ≡ ok n
  unfolding parse_upload_offset
  parse_upload_offset-u64_header there =
      rw there (rw to_str-u64_header (rw (parse_u64-to_string n small) refl))

  pub parse_upload_length-u64_header :
      x.get headers hdr_upload_length ≡ some (u64_header x n)
      → parse_upload_length x headers ≡ ok (some n)
  unfolding parse_upload_length
  parse_upload_length-u64_header there =
      rw there (rw to_str-u64_header (rw (parse_u64-to_string n small) refl))
