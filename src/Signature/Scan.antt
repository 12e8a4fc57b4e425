-- ===== src/Signature/Scan.antt =====
-- crates/catalog-core/src/signature.rs: the scanner that finds the five fields of an envelope.
-- Strings and values are in Scan/Values. The loop over the fields runs on fuel 6, one more than the
-- fields that it may fill.
pub mod Values
pub mod Literals
pub mod Fuel
pub mod Suffixes
pub mod Spans
pub mod Failures
unfoldable pub use Values.*
use fluxsemble_runtime_catal.Base.{
  ℕ, zero, suc, ◌+◌, ◌-◌, ◌*◌, Bool, true, false, ◌&&◌, ◌||◌, not, Option, none, some, List, [],
  ◌∷◌, Text, codes, ok, err, ◌>>=◌, ◌>>◌, ok_or, leb, ltb, ◌==◌, within, all, length, take, drop,
  if◌then◌else◌,
}
use fluxsemble_runtime_catal.Strings.{text_eq, is_empty, is_hex_digit, first_is}
use fluxsemble_runtime_catal.Catalog.Source.{max_catalog_payload_bytes}
use fluxsemble_runtime_catal.Signature.Errors.{Sig, invalid_signed_catalog, catalog_check}

abbrev pub max_signed_catalog_envelope_bytes : ℕ
max_signed_catalog_envelope_bytes = max_catalog_payload_bytes + 1024

abbrev pub max_non_payload_envelope_bytes : ℕ
max_non_payload_envelope_bytes = 1024

abbrev pub max_top_level_key_bytes : ℕ
max_top_level_key_bytes = 32

abbrev pub max_key_id_bytes : ℕ
max_key_id_bytes = 128

abbrev pub max_signature_algorithm_bytes : ℕ
max_signature_algorithm_bytes = 16

abbrev pub ed25519_signature_text_bytes : ℕ
ed25519_signature_text_bytes = 86

pub data EnvelopeField : Type 0 where
  envelope_version signature_algorithm key_id payload signature : EnvelopeField

-- the array of found spans, one slot for each field
pub record Fields : Type 0 where
  pub version : Option Text
  pub algorithm : Option Text
  pub key : Option Text
  pub payload_span : Option Text
  pub signature_span : Option Text

abbrev pub no_fields : Fields
no_fields = record {
  version = none;
  algorithm = none;
  key = none;
  payload_span = none;
  signature_span = none;
}

abbrev pub slot : EnvelopeField → Fields → Option Text
slot envelope_version f = f.version
slot signature_algorithm f = f.algorithm
slot key_id f = f.key
slot payload f = f.payload_span
slot signature f = f.signature_span

-- fields[slot] = Some(span)
abbrev pub fill : EnvelopeField → Text → Fields → Fields
fill envelope_version v f = record {
  version = some v;
  algorithm = f.algorithm;
  key = f.key;
  payload_span = f.payload_span;
  signature_span = f.signature_span;
}
fill signature_algorithm v f = record {
  version = f.version;
  algorithm = some v;
  key = f.key;
  payload_span = f.payload_span;
  signature_span = f.signature_span;
}
fill key_id v f = record {
  version = f.version;
  algorithm = f.algorithm;
  key = some v;
  payload_span = f.payload_span;
  signature_span = f.signature_span;
}
fill payload v f = record {
  version = f.version;
  algorithm = f.algorithm;
  key = f.key;
  payload_span = some v;
  signature_span = f.signature_span;
}
fill signature v f = record {
  version = f.version;
  algorithm = f.algorithm;
  key = f.key;
  payload_span = f.payload_span;
  signature_span = some v;
}

abbrev pub maximum_of : EnvelopeField → ℕ
maximum_of envelope_version = 5
maximum_of signature_algorithm = max_signature_algorithm_bytes + 2
maximum_of key_id = max_key_id_bytes + 2
maximum_of payload = max_catalog_payload_bytes
maximum_of signature = ed25519_signature_text_bytes + 2

-- the quoted key of a field
unfoldable pub field_of : Text → Sig EnvelopeField
field_of key =
    if text_eq key (codes "\"envelope_version\"")
    then ok envelope_version
    else if text_eq key (codes "\"signature_algorithm\"")
    then ok signature_algorithm
    else if text_eq key (codes "\"key_id\"")
    then ok key_id
    else if text_eq key (codes "\"payload\"")
    then ok payload
    else if text_eq key (codes "\"signature\"")
    then ok signature
    else err invalid_signed_catalog

abbrev pub is_none {ℓ} : {A : Type ℓ} → Option A → Bool
is_none none = true
is_none (some a) = false

-- the byte at the position is the given one; what follows it
unfoldable pub expect : ℕ → Text → Sig Text
expect wanted [] = err invalid_signed_catalog
expect wanted (b ∷ s) = do catalog_check (b == wanted); ok s

-- after a value: a comma and another key, or the closing brace
unfoldable pub after_value :
    (Fields → Text → Sig (Fields × Text)) → Fields → Text → Sig (Fields × Text)
after_value continue fields [] = err invalid_signed_catalog
after_value continue fields (b ∷ s) = elim (b == b',') [
  | true ↦ do
    catalog_check (not (first_is (λ c. c == b'}') (skip_json_whitespace s)))
    continue fields (skip_json_whitespace s)
  | false ↦ do catalog_check (b == b'}'); ok (fields, s)
]

-- one key and its value, from the first byte of the key
unfoldable pub scan_field : Fields → Text → Sig (Fields × Text)
scan_field fields key_start = do
  key_end ← scan_bounded_json_string key_start max_top_level_key_bytes
  field ← field_of (span key_start key_end)
  catalog_check (is_none (slot field fields))
  after_colon ← expect b':' (skip_json_whitespace key_end)
  end ← scan_json_value (skip_json_whitespace after_colon)
  catalog_check (leb (length (span (skip_json_whitespace after_colon) end)) (maximum_of field))
  ok (fill field (span (skip_json_whitespace after_colon) end) fields, end)

-- the loop over the fields, which ends behind the closing brace
unfoldable pub fields_loop : ℕ → Fields → Text → Sig (Fields × Text)
fields_loop zero fields s = err invalid_signed_catalog
fields_loop (suc fuel) fields s =
    let t = skip_json_whitespace s in
    elim (first_is (λ c. c == b'}') t) [
      | true ↦ ok (fields, drop 1 t)
      | false ↦ scan_field fields t >>= λ (filled, end).
          after_value (fields_loop fuel) filled (skip_json_whitespace end)
    ]

pub record SignedEnvelopeSpans : Type 0 where
  pub envelope_version : Text
  pub signature_algorithm : Text
  pub key_id : Text
  pub payload : Text
  pub signature : Text

unfoldable pub scan_signed_envelope : Text → Sig SignedEnvelopeSpans
scan_signed_envelope bytes = do
  catalog_check (leb (length bytes) max_signed_catalog_envelope_bytes)
  inside ← expect b'{' (skip_json_whitespace bytes)
  (fields, rest) ← fields_loop 6 no_fields inside
  catalog_check (is_empty (skip_json_whitespace rest))
  version ← ok_or invalid_signed_catalog fields.version
  algorithm ← ok_or invalid_signed_catalog fields.algorithm
  key ← ok_or invalid_signed_catalog fields.key
  found ← ok_or invalid_signed_catalog fields.payload_span
  signed ← ok_or invalid_signed_catalog fields.signature_span
  catalog_check (leb (length bytes - length found) max_non_payload_envelope_bytes)
  ok (record {
    envelope_version = version;
    signature_algorithm = algorithm;
    key_id = key;
    payload = found;
    signature = signed;
  })
