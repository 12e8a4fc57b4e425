-- ===== src/Wizard/Rotation/Examples.antt =====
-- crates/catalog-wizard/src/key_rotation.rs: one rotation of a keyring of one key, on concrete data.
use fluxsemble_runtime_catal.Base.{
  zero, suc, true, ◌≡◌, some, ◌↔◌, ◌<◌, refl, List, [], ◌∷◌, ◌++◌, Text, codes, ok, err, ◌>>=◌,
  ensure, All, all, ltb, and_parts, arith,
}
use fluxsemble_runtime_catal.Strings.{text_eq, starts_with, strip_prefix}
use fluxsemble_runtime_catal.Catalog.Require.{all_inserted}
use fluxsemble_runtime_catal.Catalog.Integrity.RoundTrip.{IsByte}
use fluxsemble_runtime_catal.Signature.Base64url.{base64url_value, encode_lower_hex}
use fluxsemble_runtime_catal.Signature.Keyring.{
  ProductionKeyIdentity, KeyringEntry, embed, active_signing_identity, Keyring, active_for_signing,
  verification_only, valid_key_id, build_chunks, decode_base64url_32, derive_runtime_catalog_key_id,
  validate_entry, validate,
}
use fluxsemble_runtime_catal.Signature.Examples.{zero_key, timed, zero_text, zero_id, reviewed}
use fluxsemble_runtime_catal.Wizard.Rotation.{
  bind_active_signing_identity, config, ActiveSigningKey, InspectionOutput, decode_public_key,
  admit_inspection, active_indices, exactly_one_active, demote, max_generation, insert_entry,
  sort_entries, propose_rotation,
}
use fluxsemble_runtime_catal.Wizard.Rotation.Accepted.{IsReviewed, validate_iff}
use fluxsemble_runtime_catal.Wizard.Rotation.Signs.{rotation_signs}
use fluxsemble_runtime_catal.Wizard.Rotation.Kept.{IsDigest, rotation_accepted}

abbrev eight_ones : Text
eight_ones = 1 ∷ 1 ∷ 1 ∷ 1 ∷ 1 ∷ 1 ∷ 1 ∷ 1 ∷ []

-- a digest that reads the first byte only
abbrev first_byte_digest : Text → Text
first_byte_digest (suc b ∷ message) = eight_ones ++ eight_ones ++ eight_ones ++ eight_ones
first_byte_digest _ = zero_key

all_bytes : (s : Text) → all (λ b. ltb b 256) s ≡ true → All IsByte s
all_bytes [] h = tt
all_bytes (b ∷ s) h =
    let (small, rest) = and_parts (ltb b 256) (all (λ b. ltb b 256) s) h in
    (ground (arith, small), all_bytes s rest)

first_byte_digest-IsDigest : IsDigest first_byte_digest
first_byte_digest-IsDigest [] = (refl, all_bytes zero_key refl)
first_byte_digest-IsDigest (zero ∷ message) = (refl, all_bytes zero_key refl)
first_byte_digest-IsDigest (suc b ∷ message) =
    (refl, all_bytes (eight_ones ++ eight_ones ++ eight_ones ++ eight_ones) refl)

abbrev new_text : Text
new_text = codes "BAAAAAAAAAAAAAAAAAAAAAAAAAAAAAAAAAAAAAAAAAA"

abbrev new_id : Text
new_id = codes "runtime-catalog-ed25519-0101010101010101"

abbrev now : Text
now = codes "2026-06-01T00:00:00Z"

abbrev new_output : InspectionOutput
new_output = record {
  key_id = new_id;
  public_key = new_text;
  fingerprint = codes "0101010101010101010101010101010101010101010101010101010101010101";
}

abbrev new_key : ActiveSigningKey
new_key = record {
  key_id = new_id;
  public_key = new_text;
  generation = 0;
  fingerprint = codes "0101010101010101010101010101010101010101010101010101010101010101";
  keyring_sha256 = [];
}

abbrev proposed : Keyring
proposed = record {
  schema_version = 1;
  entries =
      record {
        generation = 1;
        key_id = zero_id;
        public_key = zero_text;
        status = verification_only;
        activated_at = codes "2026-01-01T00:00:00Z";
      }
      ∷ record {
        generation = 2;
        key_id = new_id;
        public_key = new_text;
        status = active_for_signing;
        activated_at = now;
      }
      ∷ [];
}

reviewed_valid : validate first_byte_digest timed reviewed ≡ ok tt
unfolding validate validate_entry decode_base64url_32 build_chunks base64url_value valid_key_id
    derive_runtime_catalog_key_id encode_lower_hex all_inserted ◌>>=◌ ensure text_eq starts_with
    strip_prefix
reviewed_valid = refl

new_output_inspected : admit_inspection first_byte_digest new_output ≡ ok new_key
unfolding admit_inspection decode_public_key decode_base64url_32 build_chunks base64url_value
    derive_runtime_catalog_key_id encode_lower_hex ◌>>=◌ ensure text_eq
new_output_inspected = refl

reviewed_rotated : propose_rotation reviewed new_key now ≡ ok proposed
unfolding propose_rotation exactly_one_active active_indices demote max_generation insert_entry
    sort_entries ◌>>=◌ ensure text_eq
reviewed_rotated = refl

-- the same key is not proposed twice
proposed_refused : propose_rotation proposed new_key now ≡ err config
unfolding propose_rotation exactly_one_active active_indices demote max_generation insert_entry
    sort_entries ◌>>=◌ ensure text_eq
proposed_refused = refl

rotation_accepted_example : validate first_byte_digest timed proposed ≡ ok tt
rotation_accepted_example =
    rotation_accepted first_byte_digest timed first_byte_digest-IsDigest reviewed proposed
      new_output new_key now reviewed_valid new_output_inspected refl reviewed_rotated

validate_iff_example :
    (validate first_byte_digest timed reviewed ≡ ok tt)
    ↔ IsReviewed first_byte_digest timed reviewed
validate_iff_example = validate_iff first_byte_digest timed reviewed

rotation_signs_example :
    (keys : List ProductionKeyIdentity) × (active : ProductionKeyIdentity) × (embed
        first_byte_digest timed proposed
      ≡ ok keys)
    × (active_signing_identity keys ≡ some active)
    × (bind_active_signing_identity [] active new_key
        ≡ ok (record new_key { generation = active.generation; keyring_sha256 = [] }))
    × All (λ (e : KeyringEntry). e.generation < active.generation) reviewed.entries
rotation_signs_example =
    rotation_signs first_byte_digest timed first_byte_digest-IsDigest reviewed proposed new_output
      new_key now [] reviewed_valid new_output_inspected refl reviewed_rotated
