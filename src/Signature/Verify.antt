-- ===== src/Signature/Verify.antt =====
-- crates/catalog-core/src/signature.rs: verification of envelopes and of release manifests. The digest,
-- the curve and the JSON codecs are parameters; a key is its bytes.
pub mod Verified
pub mod Failures
use fluxsemble_runtime_catal.Base.{
  ℕ, Bool, true, false, ◌&&◌, ◌||◌, not, Option, none, some, List, [], ◌∷◌, ◌++◌, Text, codes, ok,
  err, ◌>>=◌, ◌>>◌, ok_or, map_err, leb, ltb, ◌==◌, length,
}
use fluxsemble_runtime_catal.Strings.{text_eq}
use fluxsemble_runtime_catal.Catalog.Externals.{Externals}
use fluxsemble_runtime_catal.Catalog.Records.{CatalogPayload}
use fluxsemble_runtime_catal.Catalog.Require.{Core, invalid_catalog, require}
use fluxsemble_runtime_catal.Catalog.Duplicates.{reject_duplicate_json}
use fluxsemble_runtime_catal.Catalog.Release.{payload_from_json}
use fluxsemble_runtime_catal.Catalog.BundleRecords.{
  ReleaseAsset, SignedReleaseBundleManifest, SignedReleaseBundleManifestWire,
}
use fluxsemble_runtime_catal.Catalog.Bundle.{manifest_from_json}
use fluxsemble_runtime_catal.Signature.Errors.{
  Sig, invalid_signed_catalog, invalid_signed_release_bundle, catalog_check, bundle_check,
}
use fluxsemble_runtime_catal.Signature.Scan.{
  SignedEnvelopeSpans, scan_signed_envelope, max_key_id_bytes, ed25519_signature_text_bytes,
}
use fluxsemble_runtime_catal.Signature.Keyring.{ProductionKeyIdentity, verification_identity}
use fluxsemble_runtime_catal.Signature.Base64url.{decode_base64url_no_pad}

-- the manifest without its signature, as `release_bundle_signing_bytes` serializes it
pub record UnsignedManifest : Type 0 where
  pub schema_version : ℕ
  pub source_commit : Text
  pub source_tree_sha256 : Text
  pub qualification_sha256 : Text
  pub tag : Text
  pub catalog_envelope : ReleaseAsset
  pub assets : List ReleaseAsset

-- what verification calls
pub record Crypto : Type 0 where
  -- Sha256::digest
  pub sha256 : Text → Text
  -- VerifyingKey::from_bytes
  pub verifying_key : Text → Option Text
  -- verify_strict, by key, message and signature
  pub verify_strict : Text → Text → Text → Bool
  -- serde_json::from_slice at u16 and at String
  pub u16_from_slice : Text → Option ℕ
  pub string_from_slice : Text → Option Text
  -- serde_json::from_slice and serde_jcs::to_vec of the release manifest
  pub manifest_from_slice : Text → Option SignedReleaseBundleManifestWire
  pub unsigned_to_vec : UnsignedManifest → Option Text

pub record VerificationIdentity : Type 0 where
  pub key_id : Text
  pub public_key : Text

abbrev pub identity_of : ProductionKeyIdentity → VerificationIdentity
identity_of k = record { key_id = k.key_id; public_key = k.public_key }

pub record VerifiedCatalog : Type 0 where
  pub payload : CatalogPayload
  pub canonical_payload : Text
  pub payload_sha256 : Text
  pub key_id : Text

abbrev pub release_bundle_domain : Text
release_bundle_domain = codes "fluxsemble:runtime-catalog-release-bundle:v1" ++ (0 ∷ [])

-- canonical_catalog_payload
unfoldable pub canonical_catalog_payload : Externals → CatalogPayload → Core Text
canonical_catalog_payload x payload = ok_or invalid_catalog (x.payload_to_vec payload)

module _ (x : Externals) (c : Crypto) where
  unfoldable pub catalog_payload_sha256 : CatalogPayload → Core Text
  catalog_payload_sha256 payload = do
    canonical ← canonical_catalog_payload x payload
    ok (c.sha256 canonical)

  unfoldable pub verify_signature : Text → Text → Text → Core (Unit {0})
  verify_signature public_key message signature_text = do
    signature ← decode_base64url_no_pad 64 signature_text
    key ← ok_or invalid_catalog (c.verifying_key public_key)
    require (c.verify_strict key message signature)

  unfoldable pub release_bundle_signing_bytes : SignedReleaseBundleManifest → Core Text
  release_bundle_signing_bytes manifest = do
    canonical ← ok_or invalid_catalog (
        c.unsigned_to_vec (record {
          schema_version = manifest.schema_version;
          source_commit = manifest.source_commit;
          source_tree_sha256 = manifest.source_tree_sha256;
          qualification_sha256 = manifest.qualification_sha256;
          tag = manifest.tag;
          catalog_envelope = manifest.catalog_envelope;
          assets = manifest.assets;
        }))
    ok (release_bundle_domain ++ canonical)

  unfoldable pub verify_signed_catalog_with_identity :
      Text → VerificationIdentity → Sig VerifiedCatalog
  verify_signed_catalog_with_identity bytes identity = do
    spans ← scan_signed_envelope bytes
    map_err invalid_signed_catalog (reject_duplicate_json x bytes)
    envelope_version ← ok_or invalid_signed_catalog (c.u16_from_slice spans.envelope_version)
    signature_algorithm ←
        ok_or invalid_signed_catalog (c.string_from_slice spans.signature_algorithm)
    key_id ← ok_or invalid_signed_catalog (c.string_from_slice spans.key_id)
    signature_text ← ok_or invalid_signed_catalog (c.string_from_slice spans.signature)
    catalog_check (
        envelope_version == 1
        && text_eq signature_algorithm (codes "ed25519")
        && text_eq key_id identity.key_id
        && leb (length key_id) max_key_id_bytes
        && length signature_text == ed25519_signature_text_bytes)
    payload ← map_err invalid_signed_catalog (payload_from_json x spans.payload)
    canonical_payload ← map_err invalid_signed_catalog (canonical_catalog_payload x payload)
    catalog_check (text_eq canonical_payload spans.payload)
    map_err invalid_signed_catalog
        (verify_signature identity.public_key canonical_payload signature_text)
    payload_sha256 ← map_err invalid_signed_catalog (catalog_payload_sha256 payload)
    ok (record {
      payload = payload;
      canonical_payload = canonical_payload;
      payload_sha256 = payload_sha256;
      key_id = key_id;
    })

  -- over the embedded keyring
  unfoldable pub verify_signed_catalog : List ProductionKeyIdentity → Text → Sig VerifiedCatalog
  verify_signed_catalog keys bytes = do
    spans ← scan_signed_envelope bytes
    key_id ← ok_or invalid_signed_catalog (c.string_from_slice spans.key_id)
    identity ← ok_or invalid_signed_catalog (verification_identity keys key_id)
    verify_signed_catalog_with_identity bytes (identity_of identity)

  unfoldable pub verify_release_manifest_with_identity :
      SignedReleaseBundleManifest → VerificationIdentity → Sig (Unit {0})
  verify_release_manifest_with_identity manifest identity = do
    bundle_check (text_eq manifest.signature.key_id identity.key_id)
    signing_bytes ← map_err invalid_signed_release_bundle (release_bundle_signing_bytes manifest)
    map_err invalid_signed_release_bundle
        (verify_signature identity.public_key signing_bytes manifest.signature.signature)

  -- the verified manifest, over the embedded keyring
  unfoldable pub verify_signed_release_bundle_manifest :
      List ProductionKeyIdentity → Text → Sig SignedReleaseBundleManifest
  verify_signed_release_bundle_manifest keys bytes = do
    manifest ←
        map_err invalid_signed_release_bundle (manifest_from_json x c.manifest_from_slice bytes)
    identity ←
        ok_or invalid_signed_release_bundle (verification_identity keys manifest.signature.key_id)
    verify_release_manifest_with_identity manifest (identity_of identity)
    ok manifest
