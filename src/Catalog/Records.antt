-- ===== src/Catalog/Records.antt =====
-- crates/catalog-core/src/wire.rs and pi_installer_lock.rs: the validated records. A newtype over
-- `String` is its text, and a `ByteSize` or `NonZeroU64` its number; the accessors are the fields.
use native.Mathlib.Decide.{ℕ_discrete}
use fluxsemble_runtime_catal.Base.{ℕ, List, Text, Eq, derive_eq}

abbrev pub CatalogId : Type 0
CatalogId = Text

abbrev pub ExactVersion : Type 0
ExactVersion = Text

abbrev pub AllowedOrigin : Type 0
AllowedOrigin = Text

abbrev pub HttpsArtifactUrl : Type 0
HttpsArtifactUrl = Text

abbrev pub ByteSize : Type 0
ByteSize = ℕ

abbrev pub CatalogTimestamp : Type 0
CatalogTimestamp = Text

pub data CatalogTarget : Type 0 where
  linux_x86_64 : CatalogTarget

pub record PlainTextReleaseMetadata : Type 0 where
  pub title : Text
  pub notes : Text

pub record ArtifactInventoryEntry : Type 0 where
  pub path : Text
  pub size_bytes : ByteSize
  pub sha256 : Text

pub record ArtifactDescriptor : Type 0 where
  pub artifact_id : CatalogId
  pub url : HttpsArtifactUrl
  pub size_bytes : ByteSize
  pub sha256 : Text
  pub inventory : List ArtifactInventoryEntry

pub record CatalogComponentRecord : Type 0 where
  pub component_id : CatalogId
  pub version : ExactVersion
  pub artifacts : List ArtifactDescriptor

pub record ExactPackageIdentity : Type 0 where
  pub name : Text
  pub version : ExactVersion

pub record ImmutableFileDescriptor : Type 0 where
  pub url : HttpsArtifactUrl
  pub size_bytes : ByteSize
  pub sha256 : Text

pub record LockedPackageRecord : Type 0 where
  pub locator : Text
  pub name : Text
  pub version : ExactVersion
  pub resolved_url : HttpsArtifactUrl
  pub registry_integrity : Text
  pub archive_sha256 : Text

pub record ShippedShrinkwrapMetadata : Type 0 where
  pub lockfile_version : ℕ
  pub root_package : ExactPackageIdentity
  pub artifact : ImmutableFileDescriptor
  pub locked_packages : List LockedPackageRecord

pub record PiCatalogExtensionMetadata : Type 0 where
  pub approved_package : ExactPackageIdentity
  pub expected_entrypoint : Text
  pub component_id : CatalogId
  pub package_artifact_id : CatalogId
  pub registry_integrity : Text
  pub root_package_manifest : ImmutableFileDescriptor
  pub shipped_shrinkwrap : ShippedShrinkwrapMetadata

pub record PiRequiredContracts : Type 0 where
  pub installer_policy : ℕ
  pub lockfile_version : ℕ
  pub pi_rpc : ℕ
  pub pi_session : ℕ
  pub execution_payload : ℕ
  pub tool_wire : ℕ
  pub channel_layout : ℕ
  pub native_auth : ℕ
  pub resource_policy_sha256 : Text
  pub tool_policy_sha256 : Text
  pub execution_policy_sha256 : Text

pub record PiReleaseProfile : Type 0 where
  pub schema_version : ℕ
  pub pi_package : ExactPackageIdentity
  pub node_version : ExactVersion
  pub target : CatalogTarget
  pub consumer_requirement : Text
  pub required_contracts : PiRequiredContracts
  pub installer_root : ExactPackageIdentity
  pub pi_package_locator : Text
  pub cli_entrypoint : Text
  pub installer_manifest : ImmutableFileDescriptor
  pub installer_lock : ImmutableFileDescriptor
  pub pi_manifest : ImmutableFileDescriptor
  pub components : List CatalogComponentRecord
  pub pi_component_id : CatalogId
  pub pi_artifact_id : CatalogId
  pub node_component_id : CatalogId
  pub node_artifact_id : CatalogId
  pub registry_integrity : Text
  pub locked_packages : List LockedPackageRecord

pub record PiInstallerLockMetadata : Type 0 where
  pub profile : PiReleaseProfile
  pub qualification : ImmutableFileDescriptor

-- ProviderExtensionV1
pub data ProviderExtension : Type 0 where
  none : ProviderExtension
  pi : PiCatalogExtensionMetadata → ProviderExtension
  pi_installer_lock : PiInstallerLockMetadata → ProviderExtension

pub record CatalogReleaseRecord : Type 0 where
  pub version : ExactVersion
  pub target : CatalogTarget
  pub compatibility_ranges : List Text
  pub release_metadata : PlainTextReleaseMetadata
  pub components : List CatalogComponentRecord
  pub provider_extension : ProviderExtension

pub record CatalogProviderRecord : Type 0 where
  pub provider_id : CatalogId
  pub allowed_origins : List AllowedOrigin
  pub releases : List CatalogReleaseRecord

-- CatalogPayloadV1
pub record CatalogPayload : Type 0 where
  pub schema_version : ℕ
  pub sequence : ℕ
  pub generated_at : CatalogTimestamp
  pub expires_at : CatalogTimestamp
  pub compatibility_ranges : List Text
  pub providers : List CatalogProviderRecord

unfoldable pub CatalogTarget-discrete : Discrete CatalogTarget
CatalogTarget-discrete = hlevel

unfoldable pub ExactPackageIdentity-discrete : Discrete ExactPackageIdentity
ExactPackageIdentity-discrete = hlevel ℕ_discrete

unfoldable pub components-discrete : Discrete (List CatalogComponentRecord)
components-discrete = hlevel ℕ_discrete

-- the derived equality tests
instance abbrev pub target_eq : Eq CatalogTarget
target_eq = derive_eq CatalogTarget-discrete

instance abbrev pub package_identity_eq : Eq ExactPackageIdentity
package_identity_eq = derive_eq ExactPackageIdentity-discrete

instance abbrev pub components_eq : Eq (List CatalogComponentRecord)
components_eq = derive_eq components-discrete
