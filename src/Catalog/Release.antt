-- ===== src/Catalog/Release.antt =====
-- crates/catalog-core/src/wire.rs: admission of releases, providers and the catalog payload.
pub mod WellFormed
use mathlib.Core.List.{flat_map}
use fluxsemble_runtime_catal.Base.{
  ℕ, Bool, true, false, ◌&&◌, not, Option, none, some, List, [], ◌∷◌, map, Text, codes, ok, err,
  ◌>>=◌, ◌>>◌, ok_or, leb, ◌==◌, all, any, find, count_if, length, traverse, same, Eq, pair_eq, ◌*◌,
}
use fluxsemble_runtime_catal.Strings.{text_eq, text_lt}
use fluxsemble_runtime_catal.Strings.Split.{text_class}
use fluxsemble_runtime_catal.Catalog.Wire.{
  PiCatalogExtensionWire, ProviderExtensionWire, CatalogReleaseWire, CatalogProviderWire,
  CatalogPayloadWire,
}
use fluxsemble_runtime_catal.Catalog.Records.{
  ExactVersion, AllowedOrigin, ArtifactDescriptor, CatalogComponentRecord, ExactPackageIdentity,
  PiCatalogExtensionMetadata, ProviderExtension, CatalogReleaseRecord, CatalogProviderRecord,
  CatalogPayload, CatalogTarget, LockedPackageRecord, target_eq, package_identity_eq,
}
use fluxsemble_runtime_catal.Catalog.Require.{
  Core, invalid_catalog, require, require_bounded_nonempty, require_unique,
  require_strictly_sorted_by,
}
use fluxsemble_runtime_catal.Catalog.Externals.{Externals}
use fluxsemble_runtime_catal.Catalog.Duplicates.{reject_duplicate_json}
use fluxsemble_runtime_catal.Catalog.Parse.{
  parse_registry_integrity, parse_inventory_path, parse_exact_version, parse_catalog_id,
  parse_target, parse_harness_id, parse_nonzero_decimal, parse_ranges, parse_timestamp,
  parse_allowed_origin,
}
use fluxsemble_runtime_catal.Catalog.Admission.{
  admit_metadata, admit_identity, admit_file, admit_component, admit_shrinkwrap,
}
use fluxsemble_runtime_catal.Catalog.Installer.{
  pi_root_package_name, all_artifacts, admit_installer_lock, validate_release,
}

abbrev pub pi_provider_id : Text
pi_provider_id = codes "builtin:pi"

module _ (x : Externals) (allowed_origins : List AllowedOrigin) where
  -- PiCatalogExtensionMetadata::try_from_wire
  unfoldable pub admit_pi_extension :
      PiCatalogExtensionWire
      → ExactVersion
      → List CatalogComponentRecord
      → Core PiCatalogExtensionMetadata
  admit_pi_extension w release_version components = do
    approved_package ← admit_identity w.approved_package
    require (text_eq approved_package.name pi_root_package_name)
    require (text_eq approved_package.version release_version)
    expected_entrypoint ← parse_inventory_path w.expected_entrypoint
    component_id ← parse_catalog_id w.component_id
    package_artifact_id ← parse_catalog_id w.package_artifact_id
    registry_integrity ← parse_registry_integrity w.registry_integrity
    root_package_manifest ← admit_file x allowed_origins w.root_package_manifest
    shipped_shrinkwrap ← admit_shrinkwrap x allowed_origins w.shipped_shrinkwrap
    require (same shipped_shrinkwrap.root_package approved_package)
    component ← ok_or invalid_catalog (find (λ c. text_eq c.component_id component_id) components)
    require (text_eq component.version approved_package.version)
    artifact ←
        ok_or invalid_catalog
          (find (λ a. text_eq a.artifact_id package_artifact_id) component.artifacts)
    require (count_if (λ e. text_eq e.path expected_entrypoint) artifact.inventory == 1)
    require (
        not (
          any
            (λ (p : LockedPackageRecord).
              text_eq p.name approved_package.name && text_eq p.version approved_package.version)
            shipped_shrinkwrap.locked_packages))
    ok (record {
      approved_package = approved_package;
      expected_entrypoint = expected_entrypoint;
      component_id = component_id;
      package_artifact_id = package_artifact_id;
      registry_integrity = registry_integrity;
      root_package_manifest = root_package_manifest;
      shipped_shrinkwrap = shipped_shrinkwrap;
    })

  -- ProviderExtensionV1::try_from_wire
  unfoldable pub admit_extension :
      ProviderExtensionWire
      → Text
      → ExactVersion
      → List CatalogComponentRecord
      → Core ProviderExtension
  admit_extension ProviderExtensionWire.none provider_id version components = do
    require (not (text_eq provider_id pi_provider_id))
    ok ProviderExtension.none
  admit_extension (ProviderExtensionWire.pi_installer_lock w) provider_id version components = do
    require (text_eq provider_id pi_provider_id)
    metadata ← admit_installer_lock x w allowed_origins
    validate_release metadata version components
    ok (ProviderExtension.pi_installer_lock metadata)
  admit_extension (ProviderExtensionWire.pi w) provider_id version components = do
    require (text_eq provider_id pi_provider_id)
    metadata ← admit_pi_extension w version components
    ok (ProviderExtension.pi metadata)

  -- CatalogReleaseRecord::try_from_wire
  unfoldable pub admit_release : Text → CatalogReleaseWire → Core CatalogReleaseRecord
  admit_release provider_id w = do
    version ← parse_exact_version w.version
    target ← parse_target w.target
    compatibility_ranges ← parse_ranges x w.compatibility_ranges
    release_metadata ← admit_metadata w.release_metadata
    require_bounded_nonempty w.components 16
    components ← traverse (admit_component x allowed_origins) w.components
    require_strictly_sorted_by components (λ a b. text_lt a.component_id b.component_id)
    require_unique (map (λ (a : ArtifactDescriptor). a.artifact_id) (all_artifacts components))
    provider_extension ← admit_extension w.provider_extension provider_id version components
    ok (record {
      version = version;
      target = target;
      compatibility_ranges = compatibility_ranges;
      release_metadata = release_metadata;
      components = components;
      provider_extension = provider_extension;
    })

abbrev pub release_key : CatalogReleaseRecord → ExactVersion × CatalogTarget
release_key r = (r.version, r.target)

module _ (x : Externals) where
  -- CatalogProviderRecord::try_from_wire
  unfoldable pub admit_provider : CatalogProviderWire → Core CatalogProviderRecord
  admit_provider w = do
    provider_id ← parse_harness_id w.provider_id
    require_bounded_nonempty w.allowed_origins 16
    allowed_origins ← traverse (parse_allowed_origin x) w.allowed_origins
    require_unique allowed_origins
    require_bounded_nonempty w.releases 64
    releases ← traverse (admit_release x allowed_origins provider_id) w.releases
    require_unique (map release_key releases)
    ok (record {
      provider_id = provider_id;
      allowed_origins = allowed_origins;
      releases = releases;
    })

  -- CatalogPayloadV1::try_from_wire
  unfoldable pub admit_payload : CatalogPayloadWire → Core CatalogPayload
  admit_payload w = do
    require (w.schema_version == 1)
    sequence ← parse_nonzero_decimal w.sequence
    generated_at ← parse_timestamp x w.generated_at
    expires_at ← parse_timestamp x w.expires_at
    compatibility_ranges ← parse_ranges x w.compatibility_ranges
    require_bounded_nonempty w.providers 16
    providers ← traverse admit_provider w.providers
    require_strictly_sorted_by providers (λ a b. text_lt a.provider_id b.provider_id)
    ok (record {
      schema_version = w.schema_version;
      sequence = sequence;
      generated_at = generated_at;
      expires_at = expires_at;
      compatibility_ranges = compatibility_ranges;
      providers = providers;
    })

  -- CatalogPayloadV1::from_json
  unfoldable pub payload_from_json : Text → Core CatalogPayload
  payload_from_json bytes = do
    require (leb (length bytes) (8 * 1024 * 1024))
    reject_duplicate_json x bytes
    wire ← ok_or invalid_catalog (x.payload_from_slice bytes)
    admit_payload wire
