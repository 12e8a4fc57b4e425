-- ===== src/Signature/Verify/Failures.antt =====
-- crates/catalog-core/src/signature.rs: the errors of verification.
use fluxsemble_runtime_catal.Base.{
  ◌≡◌, List, Text, err, FailsAs, FailsAs-ok, FailsAs-bind, FailsAs-ensure, FailsAs-ok_or,
  FailsAs-map_err,
}
use fluxsemble_runtime_catal.Catalog.Externals.{Externals}
use fluxsemble_runtime_catal.Signature.Errors.{
  CatalogSignatureError, invalid_signed_catalog, invalid_signed_release_bundle,
}
use fluxsemble_runtime_catal.Signature.Scan.Failures.{envelope-FailsAs}
use fluxsemble_runtime_catal.Signature.Keyring.{ProductionKeyIdentity}
use fluxsemble_runtime_catal.Signature.Verify.{
  Crypto, VerificationIdentity, identity_of, verify_signed_catalog_with_identity,
  verify_signed_catalog, verify_release_manifest_with_identity,
  verify_signed_release_bundle_manifest,
}

module _ (x : Externals) (c : Crypto) where
  catalog-Plain :
      (bytes : Text) (i : VerificationIdentity)
      → FailsAs invalid_signed_catalog (verify_signed_catalog_with_identity x c bytes i)
  unfolding verify_signed_catalog_with_identity
  catalog-Plain bytes i = FailsAs-bind _ _ (envelope-FailsAs bytes) λ spans.
      FailsAs-bind _ _ (FailsAs-map_err _) λ u. FailsAs-bind _ _ (FailsAs-ok_or _) λ version.
        FailsAs-bind _ _ (FailsAs-ok_or _) λ algorithm. FailsAs-bind _ _ (FailsAs-ok_or _) λ key_id.
          FailsAs-bind _ _ (FailsAs-ok_or _) λ text. FailsAs-ensure _ _ (
            FailsAs-bind _ _ (FailsAs-map_err _) λ payload.
              FailsAs-bind _ _ (FailsAs-map_err _) λ canonical. FailsAs-ensure _ _ (
                FailsAs-bind _ _ (FailsAs-map_err _)
                  λ accepted. FailsAs-bind _ _ (FailsAs-map_err _) λ digest. FailsAs-ok _))

  manifest-Plain :
      (keys : List ProductionKeyIdentity) (bytes : Text)
      → FailsAs invalid_signed_release_bundle (verify_signed_release_bundle_manifest x c keys bytes)
  unfolding verify_signed_release_bundle_manifest verify_release_manifest_with_identity
  manifest-Plain keys bytes = FailsAs-bind _ _ (FailsAs-map_err _) λ manifest.
      FailsAs-bind _ _ (FailsAs-ok_or _) λ identity.
        FailsAs-bind _ _
          (FailsAs-ensure _ _ (FailsAs-bind _ _ (FailsAs-map_err _) λ message. FailsAs-map_err _))
          λ u. FailsAs-ok manifest

  catalog_keyring-Plain :
      (keys : List ProductionKeyIdentity) (bytes : Text)
      → FailsAs invalid_signed_catalog (verify_signed_catalog x c keys bytes)
  unfolding verify_signed_catalog
  catalog_keyring-Plain keys bytes = FailsAs-bind _ _ (envelope-FailsAs bytes) λ spans.
      FailsAs-bind _ _ (FailsAs-ok_or _) λ key_id.
        FailsAs-bind _ _ (FailsAs-ok_or _) λ identity. catalog-Plain bytes (identity_of identity)

  -- Whatever is wrong with an envelope, its verification fails with the one error "invalid signed catalog",
  -- and that of a release manifest with "invalid signed release bundle": the error does not tell which
  -- check refused.
  pub verification_errors :
      (keys : List ProductionKeyIdentity) (bytes : Text) (e : CatalogSignatureError)
      → (verify_signed_catalog x c keys bytes ≡ err e → e ≡ invalid_signed_catalog)
        × (verify_signed_release_bundle_manifest x c keys bytes ≡ err e
            → e ≡ invalid_signed_release_bundle)
  verification_errors keys bytes e =
      ((catalog_keyring-Plain keys bytes).at e, (manifest-Plain keys bytes).at e)
