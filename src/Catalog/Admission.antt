-- ===== src/Catalog/Admission.antt =====
-- crates/catalog-core/src/wire.rs: admission of files, artifacts, components and locked packages.
pub mod Artifacts
pub mod Packages
use fluxsemble_runtime_catal.Base.{
  ℕ, zero, suc, Bool, true, false, ◌&&◌, not, Option, none, some, List, [], ◌∷◌, map, Text, codes,
  ok, err, ◌>>=◌, ◌>>◌, ok_or, leb, ◌==◌, all, any, find, count_if, length, traverse, same, Eq,
  pair_eq,
}
use fluxsemble_runtime_catal.Strings.{text_eq, text_lt, starts_with}
use fluxsemble_runtime_catal.Strings.Split.{text_class}
use fluxsemble_runtime_catal.Catalog.Wire.{
  ReleaseMetadataWire, ArtifactInventoryWire, ArtifactDescriptorWire, CatalogComponentWire,
  ExactPackageIdentityWire, ImmutableFileDescriptorWire, LockedPackageWire, ShippedShrinkwrapWire,
}
use fluxsemble_runtime_catal.Catalog.Records.{
  AllowedOrigin, PlainTextReleaseMetadata, ArtifactInventoryEntry, ArtifactDescriptor,
  CatalogComponentRecord, ExactPackageIdentity, ImmutableFileDescriptor, LockedPackageRecord,
  ShippedShrinkwrapMetadata,
}
use fluxsemble_runtime_catal.Catalog.Require.{
  Core, require, require_bounded_nonempty, require_unique, require_strictly_sorted_by,
  coherent_from,
}
use fluxsemble_runtime_catal.Catalog.Externals.{Externals}
use fluxsemble_runtime_catal.Catalog.Parse.{
  parse_sha256_digest, parse_registry_integrity, parse_release_title, parse_release_notes,
  parse_package_name, parse_inventory_path, parse_exact_version, parse_catalog_id, parse_byte_size,
  parse_artifact_url, origin_allowed,
}

unfoldable pub admit_metadata : ReleaseMetadataWire → Core PlainTextReleaseMetadata
admit_metadata w = do
  title ← parse_release_title w.title
  notes ← parse_release_notes w.notes
  ok (record { title = title; notes = notes })

unfoldable pub admit_entry : ArtifactInventoryWire → Core ArtifactInventoryEntry
admit_entry w = do
  path ← parse_inventory_path w.path
  size_bytes ← parse_byte_size w.size_bytes
  sha256 ← parse_sha256_digest w.sha256
  ok (record { path = path; size_bytes = size_bytes; sha256 = sha256 })

unfoldable pub admit_identity : ExactPackageIdentityWire → Core ExactPackageIdentity
admit_identity w = do
  name ← parse_package_name w.name
  version ← parse_exact_version w.version
  ok (record { name = name; version = version })

-- the key and the value of one package in the map of `require_coherent_package_identities`
abbrev pub identity_entry : LockedPackageRecord → (Text × Text) × (Text × (Text × Text))
identity_entry p = ((p.name, p.version), (p.resolved_url, (p.registry_integrity, p.archive_sha256)))

abbrev pub require_coherent_package_identities : List LockedPackageRecord → Core (Unit {0})
require_coherent_package_identities packages =
    require (coherent_from [] (map identity_entry packages))

module _ (x : Externals) (allowed_origins : List AllowedOrigin) where
  unfoldable pub admit_artifact : ArtifactDescriptorWire → Core ArtifactDescriptor
  admit_artifact w = do
    artifact_id ← parse_catalog_id w.artifact_id
    url ← parse_artifact_url x w.url
    require (origin_allowed x url allowed_origins)
    size_bytes ← parse_byte_size w.size_bytes
    require (not (size_bytes == 0))
    sha256 ← parse_sha256_digest w.sha256
    require (leb (length w.inventory) 32768)
    inventory ← traverse admit_entry w.inventory
    require_unique (map (λ (e : ArtifactInventoryEntry). e.path) inventory)
    ok (record {
      artifact_id = artifact_id;
      url = url;
      size_bytes = size_bytes;
      sha256 = sha256;
      inventory = inventory;
    })

  unfoldable pub admit_component : CatalogComponentWire → Core CatalogComponentRecord
  admit_component w = do
    component_id ← parse_catalog_id w.component_id
    version ← parse_exact_version w.version
    require_bounded_nonempty w.artifacts 8
    artifacts ← traverse admit_artifact w.artifacts
    require_strictly_sorted_by artifacts (λ a b. text_lt a.artifact_id b.artifact_id)
    ok (record { component_id = component_id; version = version; artifacts = artifacts })

  unfoldable pub admit_file : ImmutableFileDescriptorWire → Core ImmutableFileDescriptor
  admit_file w = do
    url ← parse_artifact_url x w.url
    require (origin_allowed x url allowed_origins)
    size_bytes ← parse_byte_size w.size_bytes
    require (not (size_bytes == 0))
    sha256 ← parse_sha256_digest w.sha256
    ok (record { url = url; size_bytes = size_bytes; sha256 = sha256 })

  unfoldable pub admit_package : LockedPackageWire → Core LockedPackageRecord
  admit_package w = do
    require (starts_with (codes "node_modules/") w.locator)
    resolved_url ← parse_artifact_url x w.resolved_url
    require (origin_allowed x resolved_url allowed_origins)
    locator ← parse_inventory_path w.locator
    name ← parse_package_name w.name
    version ← parse_exact_version w.version
    registry_integrity ← parse_registry_integrity w.registry_integrity
    archive_sha256 ← parse_sha256_digest w.archive_sha256
    ok (record {
      locator = locator;
      name = name;
      version = version;
      resolved_url = resolved_url;
      registry_integrity = registry_integrity;
      archive_sha256 = archive_sha256;
    })

  unfoldable pub admit_shrinkwrap : ShippedShrinkwrapWire → Core ShippedShrinkwrapMetadata
  admit_shrinkwrap w = do
    require (w.lockfile_version == 3)
    require (leb (length w.locked_packages) 512)
    root_package ← admit_identity w.root_package
    artifact ← admit_file w.artifact
    locked_packages ← traverse admit_package w.locked_packages
    require_strictly_sorted_by locked_packages (λ a b. text_lt a.locator b.locator)
    require_coherent_package_identities locked_packages
    ok (record {
      lockfile_version = w.lockfile_version;
      root_package = root_package;
      artifact = artifact;
      locked_packages = locked_packages;
    })
