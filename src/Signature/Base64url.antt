-- ===== src/Signature/Base64url.antt =====
-- crates/catalog-core/src/signature.rs: base64url without padding, and lower-case hexadecimal.
pub mod RoundTrip
use fluxsemble_runtime_catal.Base.{
  ℕ, zero, suc, ◌+◌, ◌-◌, ◌*◌, ◌/◌, ◌%◌, Bool, true, false, ◌&&◌, ◌||◌, not, Option, none, some,
  List, [], ◌∷◌, ◌++◌, Text, codes, ok, err, ◌>>=◌, ◌>>◌, ok_or, ◌==◌, within, length,
  if◌then◌else◌,
}
use fluxsemble_runtime_catal.Strings.{text_eq, is_digit, is_lower, is_upper, contains_byte}
use fluxsemble_runtime_catal.Catalog.Require.{Core, invalid_catalog, require}

unfoldable pub base64url_value : ℕ → Option ℕ
base64url_value b =
    if is_upper b
    then some (b - b'A')
    else if is_lower b
    then some (b - b'a' + 26)
    else if is_digit b
    then some (b - b'0' + 52)
    else if b == b'-'
    then some 62
    else if b == b'_'
    then some 63
    else none

-- ALPHABET[value]
unfoldable pub base64url_letter : ℕ → ℕ
base64url_letter v =
    if within 0 25 v
    then b'A' + v
    else if within 26 51 v
    then b'a' + (v - 26)
    else if within 52 61 v
    then b'0' + (v - 52)
    else if v == 62
    then b'-'
    else b'_'

-- by chunks of three bytes, the last of one, two or three
unfoldable pub encode_base64url_no_pad : Text → Text
encode_base64url_no_pad [] = []
encode_base64url_no_pad (x ∷ []) = base64url_letter (x / 4) ∷ base64url_letter (x % 4 * 16) ∷ []
encode_base64url_no_pad (x ∷ y ∷ []) =
    base64url_letter (x / 4)
    ∷ base64url_letter (x % 4 * 16 + y / 16)
    ∷ base64url_letter (y % 16 * 4)
    ∷ []
encode_base64url_no_pad (x ∷ y ∷ z ∷ rest) =
    base64url_letter (x / 4)
    ∷ base64url_letter (x % 4 * 16 + y / 16)
    ∷ base64url_letter (y % 16 * 4 + z / 64)
    ∷ base64url_letter (z % 64)
    ∷ encode_base64url_no_pad rest

abbrev pub letter : ℕ → Core ℕ
letter e = ok_or invalid_catalog (base64url_value e)

-- by chunks of four letters; a last chunk of one letter has no second (the length excludes it).
-- On bytes, `x << k` drops what leaves the byte, and `|` joins parts that share no bit.
unfoldable pub decode_chunks : Text → Core Text
decode_chunks [] = ok []
decode_chunks (e ∷ []) = err invalid_catalog
decode_chunks (e ∷ f ∷ []) = do a ← letter e; b ← letter f; ok ((a * 4 % 256 + b / 16) ∷ [])
decode_chunks (e ∷ f ∷ g ∷ []) = do
  a ← letter e
  b ← letter f
  c ← letter g
  ok ((a * 4 % 256 + b / 16) ∷ (b * 16 % 256 + c / 4) ∷ [])
decode_chunks (e ∷ f ∷ g ∷ h ∷ rest) = do
  a ← letter e
  b ← letter f
  c ← letter g
  d ← letter h
  tail ← decode_chunks rest
  ok ((a * 4 % 256 + b / 16) ∷ (b * 16 % 256 + c / 4) ∷ (c * 64 % 256 + d) ∷ tail)

-- decode_base64url_no_pad::<N>
unfoldable pub decode_base64url_no_pad : ℕ → Text → Core Text
decode_base64url_no_pad n value = do
  require (not (contains_byte b'=' value) && length value == (n * 8 + 5) / 6)
  decoded ← decode_chunks value
  require (length decoded == n)
  require (text_eq (encode_base64url_no_pad decoded) value)
  ok decoded

abbrev pub hex_digit : ℕ → ℕ
hex_digit v = if within 0 9 v then b'0' + v else b'a' + (v - 10)

unfoldable pub encode_lower_hex : Text → Text
encode_lower_hex [] = []
encode_lower_hex (b ∷ s) = hex_digit (b / 16) ∷ hex_digit (b % 16) ∷ encode_lower_hex s
