-- ===== src/Catalog/Integrity.antt =====
-- crates/catalog-core/src/wire.rs: the canonical text of a SHA-512 registry integrity value.
pub mod RoundTrip
use fluxsemble_runtime_catal.Base.{
  ℕ, zero, suc, ◌+◌, ◌-◌, ◌*◌, ◌/◌, ◌%◌, Bool, true, false, ◌&&◌, ◌||◌, not, Option, none, some,
  List, [], ◌∷◌, ◌++◌, Text, codes, ◌==◌, within, get_elem?, length, take, drop, if◌then◌else◌,
}
use fluxsemble_runtime_catal.Strings.{text_eq, strip_prefix, is_digit, is_lower, is_upper}

infixl 5 ◌>>=◌
abbrev ◌>>=◌ {ℓ κ} : {A : Type ℓ} {B : Type κ} → Option A → (A → Option B) → Option B
none >>= f = none
some a >>= f = f a

unfoldable pub base64_value : ℕ → Option ℕ
base64_value b =
    if is_upper b
    then some (b - b'A')
    else if is_lower b
    then some (b - b'a' + 26)
    else if is_digit b
    then some (b - b'0' + 52)
    else if b == b'+'
    then some 62
    else if b == b'/'
    then some 63
    else none

-- ALPHABET[value]
unfoldable pub base64_letter : ℕ → ℕ
base64_letter v =
    if within 0 25 v
    then b'A' + v
    else if within 26 51 v
    then b'a' + (v - 26)
    else if within 52 61 v
    then b'0' + (v - 52)
    else if v == 62
    then b'+'
    else b'/'

-- on bytes: `x << k` drops what leaves the byte, and `|` joins parts that share no bit
unfoldable pub decode_groups : ℕ → Text → Option Text
decode_groups zero (e ∷ f ∷ rest) = do
  a ← base64_value e
  b ← base64_value f
  some ((a * 4 % 256 + b / 16) ∷ [])
decode_groups zero _ = none
decode_groups (suc groups) (e ∷ f ∷ g ∷ h ∷ rest) = do
  a ← base64_value e
  b ← base64_value f
  c ← base64_value g
  d ← base64_value h
  tail ← decode_groups groups rest
  some ((a * 4 % 256 + b / 16) ∷ (b * 16 % 256 + c / 4) ∷ (c * 64 % 256 + d) ∷ tail)
decode_groups (suc groups) _ = none

abbrev pub byte_is : ℕ → Option ℕ → Bool
byte_is b none = false
byte_is b (some c) = c == b

unfoldable pub decode_sha512_base64 : Text → Option Text
decode_sha512_base64 payload =
    if not (length payload == 88)
      || not (byte_is b'=' (get_elem? payload 86))
      || not (byte_is b'=' (get_elem? payload 87))
    then none
    else decode_groups 21 payload

-- `chunks_exact(3)` of the first 63 bytes, then the last byte and the padding
unfoldable pub encode_groups : ℕ → Text → Text
encode_groups zero (x ∷ rest) =
    base64_letter (x / 4) ∷ base64_letter (x % 4 * 16) ∷ b'=' ∷ b'=' ∷ []
encode_groups zero [] = []
encode_groups (suc groups) (x ∷ y ∷ z ∷ rest) =
    base64_letter (x / 4)
    ∷ base64_letter (x % 4 * 16 + y / 16)
    ∷ base64_letter (y % 16 * 4 + z / 64)
    ∷ base64_letter (z % 64)
    ∷ encode_groups groups rest
encode_groups (suc groups) _ = []

unfoldable pub encode_sha512_base64 : Text → Text
encode_sha512_base64 bytes = encode_groups 21 bytes

abbrev pub canonical : Text → Option Text → Bool
canonical payload none = false
canonical payload (some decoded) = text_eq (encode_sha512_base64 decoded) payload

abbrev pub canonical_payload : Option Text → Bool
canonical_payload none = false
canonical_payload (some payload) = canonical payload (decode_sha512_base64 payload)

unfoldable pub is_canonical_sha512_integrity : Text → Bool
is_canonical_sha512_integrity value = canonical_payload (strip_prefix (codes "sha512-") value)
