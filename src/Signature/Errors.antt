-- ===== src/Signature/Errors.antt =====
-- crates/catalog-core/src/signature.rs: the errors of verification.
use fluxsemble_runtime_catal.Base.{Bool, Result, ensure}

pub data CatalogSignatureError : Type 0 where
  invalid_signed_catalog invalid_signed_release_bundle : CatalogSignatureError

abbrev pub Sig {ℓ} : Type ℓ → Type ℓ
Sig = Result CatalogSignatureError

-- if !condition { return Err(invalid_catalog()) }
abbrev pub catalog_check : Bool → Sig (Unit {0})
catalog_check = ensure invalid_signed_catalog

-- if !condition { return Err(invalid_release_bundle()) }
abbrev pub bundle_check : Bool → Sig (Unit {0})
bundle_check = ensure invalid_signed_release_bundle
