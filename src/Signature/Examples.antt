-- ===== src/Signature/Examples.antt =====
-- crates/catalog-core/src/signature.rs, build.rs: a keyring of one key and an envelope, on concrete data.
use fluxsemble_runtime_catal.Base.{
  Bool, ◌==◌, ◌≡◌, ◌≢◌, ◌↔◌, ◌-◌, refl, true, some, Option, List, [], ◌∷◌, ◌++◌, Text, codes, ok,
  err, ◌>>=◌, ensure, Among, All, Ensures, length, take, drop,
}
use fluxsemble_runtime_catal.Strings.{text_eq, strip_prefix, starts_with}
use fluxsemble_runtime_catal.Strings.Decimal.{parse_u64, to_string}
use fluxsemble_runtime_catal.Catalog.Require.{all_inserted}
use fluxsemble_runtime_catal.Catalog.Duplicates.{reject_duplicate_json, visit}
use fluxsemble_runtime_catal.Catalog.Integrity.RoundTrip.{IsByte}
use fluxsemble_runtime_catal.Catalog.BundleRecords.{
  SignedReleaseBundleManifest, SignedReleaseBundleManifestWire,
}
use fluxsemble_runtime_catal.Catalog.Bundle.Examples.{zeros, asset, asset_wire}
use fluxsemble_runtime_catal.Catalog.Examples.{outside, small_payload, small_read}
use fluxsemble_runtime_catal.Signature.Errors.{
  invalid_signed_catalog, invalid_signed_release_bundle,
}
use fluxsemble_runtime_catal.Signature.Scan.{
  SignedEnvelopeSpans, skip_json_whitespace, scan_content, scan_json_string,
  scan_bounded_json_string, compound_loop, scan_json_compound, scalar_end, scan_json_value,
  field_of, expect, after_value, scan_field, fields_loop, scan_signed_envelope,
}
use fluxsemble_runtime_catal.Signature.Scan.Literals.{IsContent, scan_json_string_iff}
use fluxsemble_runtime_catal.Signature.Scan.Spans.{IsEnvelope, scan_signed_envelope-IsEnvelope}
use fluxsemble_runtime_catal.Signature.Base64url.{
  base64url_value, base64url_letter, encode_base64url_no_pad, decode_chunks,
  decode_base64url_no_pad, encode_lower_hex,
}
use fluxsemble_runtime_catal.Signature.Base64url.RoundTrip.{base64url_iff}
use fluxsemble_runtime_catal.Signature.Keyring.{
  ProductionKeyIdentity, active_for_signing, retired, Keyring, valid_key_id, build_chunks,
  decode_base64url_32, derive_runtime_catalog_key_id, validate_entry, validate, embed_entry, embed,
  active_signing_identity, verification_identity,
}
use fluxsemble_runtime_catal.Signature.Keyring.Decoding.{decoders_agree}
use fluxsemble_runtime_catal.Signature.Keyring.Valid.{
  IsKeyring, embed-IsKeyring, active_signing_identity_total, verification_identity_iff,
}
use fluxsemble_runtime_catal.Signature.Verify.{
  identity_of, Crypto, VerifiedCatalog, canonical_catalog_payload, catalog_payload_sha256,
  verify_signature, verify_signed_catalog_with_identity, verify_signed_catalog,
  verify_signed_release_bundle_manifest,
}
use fluxsemble_runtime_catal.Signature.Verify.Verified.{IsVerified, verify_signed_catalog_lem}
use fluxsemble_runtime_catal.Signature.Verify.Failures.{verification_errors}

abbrev eight : Text
eight = 0 ∷ 0 ∷ 0 ∷ 0 ∷ 0 ∷ 0 ∷ 0 ∷ 0 ∷ []

abbrev pub zero_key : Text
zero_key = eight ++ eight ++ eight ++ eight

-- a digest that is constant, and times of 20 bytes
abbrev pub digest : Text → Text
digest message = zero_key

abbrev pub timed : Text → Bool
timed value = length value == 20

abbrev pub zero_text : Text
zero_text = codes "AAAAAAAAAAAAAAAAAAAAAAAAAAAAAAAAAAAAAAAAAAA"

abbrev pub zero_id : Text
zero_id = codes "runtime-catalog-ed25519-0000000000000000"

abbrev pub reviewed : Keyring
reviewed = record {
  schema_version = 1;
  entries =
      record {
        generation = 1;
        key_id = zero_id;
        public_key = zero_text;
        status = active_for_signing;
        activated_at = codes "2026-01-01T00:00:00Z";
      }
      ∷ [];
}

abbrev zero_identity : ProductionKeyIdentity
zero_identity = record {
  generation = 1;
  key_id = zero_id;
  public_key_base64url = zero_text;
  public_key = zero_key;
  status = active_for_signing;
  activated_at = codes "2026-01-01T00:00:00Z";
}

abbrev embedded_keys : List ProductionKeyIdentity
embedded_keys = zero_identity ∷ []

embedded : embed digest timed reviewed ≡ ok embedded_keys
unfolding embed validate validate_entry embed_entry decode_base64url_32 build_chunks base64url_value
    valid_key_id derive_runtime_catalog_key_id encode_lower_hex all_inserted ◌>>=◌ ensure text_eq
    starts_with strip_prefix
embedded = refl

embedded-IsKeyring : IsKeyring digest embedded_keys
embedded-IsKeyring = (embed-IsKeyring digest timed reviewed).at embedded_keys embedded

abbrev quoted : Text → Text
quoted s = b'"' ∷ (s ++ (b'"' ∷ []))

abbrev signature_letters : Text
signature_letters = zero_text ++ zero_text

abbrev envelope : Text
envelope =
    codes "{\"envelope_version\":1,\"signature_algorithm\":\"ed25519\",\"key_id\":"
    ++ (quoted zero_id
        ++ (codes ",\"payload\": {} ,\"signature\":" ++ (quoted signature_letters ++ codes "}\n")))

abbrev spans : SignedEnvelopeSpans
spans = record {
  envelope_version = codes "1";
  signature_algorithm = quoted (codes "ed25519");
  key_id = quoted zero_id;
  payload = codes "{}";
  signature = quoted signature_letters;
}

envelope_scanned : scan_signed_envelope envelope ≡ ok spans
unfolding scan_signed_envelope fields_loop after_value scan_field expect field_of scan_json_value
    scalar_end scan_json_compound compound_loop scan_bounded_json_string scan_json_string
    scan_content skip_json_whitespace ◌>>=◌ ensure text_eq
envelope_scanned = refl

-- a key that is repeated is refused
repeated_refused :
    scan_signed_envelope (codes "{\"key_id\":\"a\",\"key_id\":\"a\"}") ≡ err invalid_signed_catalog
unfolding scan_signed_envelope fields_loop after_value scan_field expect field_of scan_json_value
    scalar_end scan_json_compound compound_loop scan_bounded_json_string scan_json_string
    scan_content skip_json_whitespace ◌>>=◌ ensure text_eq
repeated_refused = refl

-- a string without escapes, read off its quotes
abbrev unquoted : Text → Option Text
unquoted s = some (take (length s - 2) (drop 1 s))

abbrev bundle_manifest_wire : SignedReleaseBundleManifestWire
bundle_manifest_wire = record {
  schema_version = 1;
  source_commit = codes "0123456789abcdef0123456789abcdef01234567";
  source_tree_sha256 = zeros;
  qualification_sha256 = zeros;
  tag = codes "catalog-v1-sequence-7";
  catalog_envelope = asset_wire (codes "catalog-v1.json");
  assets = asset_wire (codes "app.tar") ∷ [];
  signature = record { key_id = zero_id; signature = signature_letters };
}

abbrev bundle_manifest : SignedReleaseBundleManifest
bundle_manifest = record {
  schema_version = 1;
  source_commit = codes "0123456789abcdef0123456789abcdef01234567";
  source_tree_sha256 = zeros;
  qualification_sha256 = zeros;
  tag = codes "catalog-v1-sequence-7";
  catalog_envelope = asset (codes "catalog-v1.json");
  assets = asset (codes "app.tar") ∷ [];
  signature = record { key_id = zero_id; signature = signature_letters };
}

-- a curve on which every key is valid and accepts everything
abbrev curve : Crypto
curve = record {
  sha256 = digest;
  verifying_key = λ key. some key;
  verify_strict = λ key message signature. true;
  u16_from_slice = parse_u64;
  string_from_slice = unquoted;
  manifest_from_slice = λ bytes. some bundle_manifest_wire;
  unsigned_to_vec = λ manifest. some manifest.tag;
}

abbrev verified : VerifiedCatalog
verified = record {
  payload = small_payload;
  canonical_payload = codes "{}";
  payload_sha256 = zero_key;
  key_id = zero_id;
}

with_identity :
    verify_signed_catalog_with_identity outside curve envelope (identity_of zero_identity)
    ≡ ok verified
unfolding verify_signed_catalog_with_identity reject_duplicate_json visit canonical_catalog_payload
    catalog_payload_sha256 verify_signature decode_base64url_no_pad decode_chunks
    encode_base64url_no_pad base64url_value base64url_letter parse_u64 to_string ◌>>=◌ ensure
    text_eq
with_identity = simp (envelope_scanned, small_read)

catalog_verified : verify_signed_catalog outside curve embedded_keys envelope ≡ ok verified
unfolding verify_signed_catalog verification_identity ◌>>=◌ text_eq
catalog_verified = simp (envelope_scanned, with_identity)

scan_json_string_iff_example : (scan_json_string (codes "\"a\\n\",") ≡ ok (codes ",")) ↔ (
    (content : Text) × IsContent content
    × (codes "\"a\\n\"," ≡ b'"' ∷ (content ++ (b'"' ∷ codes ","))))
scan_json_string_iff_example = scan_json_string_iff (codes "\"a\\n\",") (codes ",")

scan_signed_envelope-IsEnvelope_example :
    Ensures (IsEnvelope envelope) (scan_signed_envelope envelope)
scan_signed_envelope-IsEnvelope_example = scan_signed_envelope-IsEnvelope envelope

base64url_iff_example : (decode_base64url_no_pad 32 zero_text ≡ ok zero_key) ↔ (
    (length zero_key ≡ 32) × (All IsByte zero_key × (zero_text ≡ encode_base64url_no_pad zero_key)))
base64url_iff_example = base64url_iff 32 zero_text zero_key

decoders_agree_example :
    (decode_base64url_32 zero_text ≡ ok zero_key)
    ↔ (decode_base64url_no_pad 32 zero_text ≡ ok zero_key)
decoders_agree_example = decoders_agree zero_text zero_key

embed-IsKeyring_example : Ensures (IsKeyring digest) (embed digest timed reviewed)
embed-IsKeyring_example = embed-IsKeyring digest timed reviewed

active_signing_identity_total_example :
    (k : ProductionKeyIdentity) × (active_signing_identity embedded_keys ≡ some k)
    × Among k embedded_keys
    × (k.status ≡ active_for_signing)
    × ((j : ProductionKeyIdentity) → Among j embedded_keys → j.status ≡ active_for_signing → j ≡ k)
active_signing_identity_total_example =
    active_signing_identity_total digest embedded_keys embedded-IsKeyring

verification_identity_iff_example :
    (verification_identity embedded_keys zero_id ≡ some zero_identity) ↔ (
      Among zero_identity embedded_keys
      × (zero_identity.key_id ≡ zero_id)
      × (zero_identity.status ≢ retired))
verification_identity_iff_example =
    verification_identity_iff digest embedded_keys embedded-IsKeyring zero_id zero_identity

verify_signed_catalog_lem_example :
    (k : ProductionKeyIdentity) × Among k embedded_keys
    × (k.status ≢ retired)
    × (k.key_id ≡ zero_id)
    × IsVerified outside curve envelope k.public_key verified
verify_signed_catalog_lem_example =
    verify_signed_catalog_lem outside curve embedded_keys envelope verified embedded-IsKeyring
      catalog_verified

verification_errors_example :
    (verify_signed_catalog outside curve embedded_keys [] ≡ err invalid_signed_catalog
      → invalid_signed_catalog ≡ invalid_signed_catalog)
    × (verify_signed_release_bundle_manifest outside curve embedded_keys []
          ≡ err invalid_signed_catalog
        → invalid_signed_catalog ≡ invalid_signed_release_bundle)
verification_errors_example =
    verification_errors outside curve embedded_keys [] invalid_signed_catalog
