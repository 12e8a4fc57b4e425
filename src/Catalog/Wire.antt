-- ===== src/Catalog/Wire.antt =====
-- crates/catalog-core/src/wire.rs and pi_installer_lock.rs: the shapes that the JSON decoder fills.
-- A u16 or u8 field is its number.
use fluxsemble_runtime_catal.Base.{ℕ, List, Text}

pub record ReleaseMetadataWire : Type 0 where
  pub title : Text
  pub notes : Text

pub record ArtifactInventoryWire : Type 0 where
  pub path : Text
  pub size_bytes : Text
  pub sha256 : Text

pub record ArtifactDescriptorWire : Type 0 where
  pub artifact_id : Text
  pub url : Text
  pub size_bytes : Text
  pub sha256 : Text
  pub inventory : List ArtifactInventoryWire

pub record CatalogComponentWire : Type 0 where
  pub component_id : Text
  pub version : Text
  pub artifacts : List ArtifactDescriptorWire

pub record ExactPackageIdentityWire : Type 0 where
  pub name : Text
  pub version : Text

pub record ImmutableFileDescriptorWire : Type 0 where
  pub url : Text
  pub size_bytes : Text
  pub sha256 : Text

pub record LockedPackageWire : Type 0 where
  pub locator : Text
  pub name : Text
  pub version : Text
  pub resolved_url : Text
  pub registry_integrity : Text
  pub archive_sha256 : Text

pub record ShippedShrinkwrapWire : Type 0 where
  pub lockfile_version : ℕ
  pub root_package : ExactPackageIdentityWire
  pub artifact : ImmutableFileDescriptorWire
  pub locked_packages : List LockedPackageWire

pub record PiCatalogExtensionWire : Type 0 where
  pub approved_package : ExactPackageIdentityWire
  pub expected_entrypoint : Text
  pub component_id : Text
  pub package_artifact_id : Text
  pub registry_integrity : Text
  pub root_package_manifest : ImmutableFileDescriptorWire
  pub shipped_shrinkwrap : ShippedShrinkwrapWire

pub record PiRequiredContractsWire : Type 0 where
  pub installer_policy : ℕ
  pub lockfile_version : ℕ
  pub pi_rpc : ℕ
  pub pi_session : ℕ
  pub execution_payload : ℕ
  pub tool_wire : ℕ
  pub channel_layout : ℕ
  pub native_auth : ℕ
  pub resource_policy_sha256 : Text
  pub tool_policy_sha256 : Text
  pub execution_policy_sha256 : Text

pub record PiReleaseProfileWire : Type 0 where
  pub schema_version : ℕ
  pub pi_package : ExactPackageIdentityWire
  pub node_version : Text
  pub target : Text
  pub consumer_requirement : Text
  pub required_contracts : PiRequiredContractsWire
  pub installer_root : ExactPackageIdentityWire
  pub pi_package_locator : Text
  pub cli_entrypoint : Text
  pub installer_manifest : ImmutableFileDescriptorWire
  pub installer_lock : ImmutableFileDescriptorWire
  pub pi_manifest : ImmutableFileDescriptorWire
  pub components : List CatalogComponentWire
  pub pi_component_id : Text
  pub pi_artifact_id : Text
  pub node_component_id : Text
  pub node_artifact_id : Text
  pub registry_integrity : Text
  pub locked_packages : List LockedPackageWire

pub record PiInstallerLockWire : Type 0 where
  pub profile : PiReleaseProfileWire
  pub qualification : ImmutableFileDescriptorWire

pub data ProviderExtensionWire : Type 0 where
  none : ProviderExtensionWire
  pi : PiCatalogExtensionWire → ProviderExtensionWire
  pi_installer_lock : PiInstallerLockWire → ProviderExtensionWire

pub record CatalogReleaseWire : Type 0 where
  pub version : Text
  pub target : Text
  pub compatibility_ranges : List Text
  pub release_metadata : ReleaseMetadataWire
  pub components : List CatalogComponentWire
  pub provider_extension : ProviderExtensionWire

pub record CatalogProviderWire : Type 0 where
  pub provider_id : Text
  pub allowed_origins : List Text
  pub releases : List CatalogReleaseWire

pub record CatalogPayloadWire : Type 0 where
  pub schema_version : ℕ
  pub sequence : Text
  pub generated_at : Text
  pub expires_at : Text
  pub compatibility_ranges : List Text
  pub providers : List CatalogProviderWire
