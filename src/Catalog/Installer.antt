-- ===== src/Catalog/Installer.antt =====
-- crates/catalog-core/src/pi_installer_lock.rs: admission of the installer release profile.
pub mod Locators
pub mod Profiles
pub mod Locks
pub mod Origins
pub mod Documents
pub mod Examples
pub mod Reading
use mathlib.Core.List.{flat_map}
use fluxsemble_runtime_catal.Base.{
  ℕ, zero, suc, ◌+◌, ◌*◌, ◌&&◌, ◌||◌, not, Option, none, some, List, [], ◌∷◌, ◌++◌, map, Text,
  codes, ok, err, ◌>>=◌, ◌>>◌, ok_or, leb, ◌==◌, any, if◌then◌else◌, find, count_if, length, drop,
  traverse, same, contains,
}
use fluxsemble_runtime_catal.Strings.{
  text_eq, text_lt, strip_prefix, split_once_text, all_window, is_empty,
}
use fluxsemble_runtime_catal.Strings.Split.{text_class}
use fluxsemble_runtime_catal.Catalog.Wire.{
  PiRequiredContractsWire, PiReleaseProfileWire, PiInstallerLockWire, ArtifactDescriptorWire,
  CatalogComponentWire, LockedPackageWire,
}
use fluxsemble_runtime_catal.Catalog.Records.{
  ExactVersion, AllowedOrigin, ArtifactDescriptor, CatalogComponentRecord, LockedPackageRecord,
  PiRequiredContracts, PiReleaseProfile, PiInstallerLockMetadata, components_eq,
}
use fluxsemble_runtime_catal.Catalog.Require.{
  Core, invalid_catalog, require, require_bounded_nonempty, require_unique,
}
use fluxsemble_runtime_catal.Catalog.Externals.{Externals}
use fluxsemble_runtime_catal.Catalog.Parse.{
  parse_sha256_digest, parse_registry_integrity, parse_package_name, parse_inventory_path,
  parse_exact_version, parse_catalog_id, parse_target, parse_compatibility_range,
  parse_artifact_url, parse_allowed_origin,
}
use fluxsemble_runtime_catal.Catalog.Admission.{
  admit_identity, admit_file, admit_component, admit_package, require_coherent_package_identities,
}

abbrev pub pi_root_package_name : Text
pi_root_package_name = codes "@earendil-works/pi-coding-agent"

abbrev pub max_pi_qualification_bytes : ℕ
max_pi_qualification_bytes = 64 * 1024

abbrev pub max_pi_release_profile_bytes : ℕ
max_pi_release_profile_bytes = 2 * 1024 * 1024

-- the eight version numbers of a contract set, compared as one tuple
abbrev pub contract_numbers : PiRequiredContractsWire → List ℕ
contract_numbers w =
    w.installer_policy ∷ w.lockfile_version ∷ w.pi_rpc ∷ w.pi_session ∷ w.execution_payload
    ∷ w.tool_wire ∷ w.channel_layout ∷ w.native_auth ∷ []

unfoldable pub admit_contracts : PiRequiredContractsWire → Core PiRequiredContracts
admit_contracts w = do
  require (
      text_eq (contract_numbers w) (1 ∷ 3 ∷ 1 ∷ 1 ∷ 3 ∷ 1 ∷ 2 ∷ 1 ∷ [])
      || text_eq (contract_numbers w) (1 ∷ 3 ∷ 1 ∷ 1 ∷ 4 ∷ 2 ∷ 2 ∷ 1 ∷ []))
  resource_policy_sha256 ← parse_sha256_digest w.resource_policy_sha256
  tool_policy_sha256 ← parse_sha256_digest w.tool_policy_sha256
  execution_policy_sha256 ← parse_sha256_digest w.execution_policy_sha256
  ok (record {
    installer_policy = w.installer_policy;
    lockfile_version = w.lockfile_version;
    pi_rpc = w.pi_rpc;
    pi_session = w.pi_session;
    execution_payload = w.execution_payload;
    tool_wire = w.tool_wire;
    channel_layout = w.channel_layout;
    native_auth = w.native_auth;
    resource_policy_sha256 = resource_policy_sha256;
    tool_policy_sha256 = tool_policy_sha256;
    execution_policy_sha256 = execution_policy_sha256;
  })

abbrev pub modules_prefix : Text
modules_prefix = codes "node_modules/"

abbrev pub nested_prefix : Text
nested_prefix = codes "/node_modules/"

-- One round of the loop of `validate_locator`: the new `rest`, or the end of the loop.
pub data Round : Type 0 where
  stop : Core (Unit {0}) → Round
  again : Text → Round

unfoldable pub nested_round : Text → Text → Core Text → Round
nested_round tail next (err e) = stop (err e)
nested_round tail next (ok parent) =
    if is_empty next then stop (err invalid_catalog) else again (drop (length parent + 1) tail)

unfoldable pub tail_round : Text → Text → Option (Text × Text) → Round
tail_round name tail (some (parent, next)) = nested_round tail next (parse_package_name parent)
tail_round name tail none = stop (require (text_eq tail name))

unfoldable pub locator_round : Text → Option Text → Round
locator_round name none = stop (err invalid_catalog)
locator_round name (some tail) = tail_round name tail (split_once_text nested_prefix tail)

-- the loop, one round for each byte of the locator at most
unfoldable pub locator_loop : ℕ → Text → Text → Core (Unit {0})
unfolding nested_round tail_round locator_round
locator_loop zero rest name = err invalid_catalog
locator_loop (suc fuel) rest name = elim (locator_round name (strip_prefix modules_prefix rest)) [
  | stop result ↦ result
  | again rest' ↦ locator_loop fuel rest' name
]

unfoldable pub validate_locator : Text → Text → Core (Unit {0})
unfolding locator_loop
validate_locator locator name = locator_loop (length locator + 1) locator name

abbrev pub all_windows_sorted : List CatalogComponentRecord → Core (Unit {0})
all_windows_sorted [] = ok tt
all_windows_sorted (c ∷ components) = do
  require
      (all_window (λ (a b : ArtifactDescriptor). text_lt a.artifact_id b.artifact_id) c.artifacts)
  all_windows_sorted components

-- for package in &self.locked_packages
abbrev pub validate_packages : Text → List LockedPackageRecord → Core (Unit {0})
validate_packages root [] = ok tt
validate_packages root (locked ∷ packages) = do
  validate_locator locked.locator locked.name
  require (not (text_eq locked.name root))
  validate_packages root packages

-- the archive that installs the package, and the entry point in it
unfoldable pub validate_archive : PiReleaseProfile → LockedPackageRecord → Core (Unit {0})
validate_archive p locked = do
  pi ← ok_or invalid_catalog (find (λ c. text_eq c.component_id p.pi_component_id) p.components)
  require (text_eq pi.version p.pi_package.version)
  archive ← ok_or invalid_catalog (find (λ a. text_eq a.artifact_id p.pi_artifact_id) pi.artifacts)
  require (
      text_eq archive.sha256 locked.archive_sha256
      && text_eq archive.url locked.resolved_url
      && text_eq p.registry_integrity locked.registry_integrity)
  require (count_if (λ i. text_eq i.path p.cli_entrypoint) archive.inventory == 1)

unfoldable pub validate_node : PiReleaseProfile → Core (Unit {0})
validate_node p = do
  node ← ok_or invalid_catalog (find (λ c. text_eq c.component_id p.node_component_id) p.components)
  require (text_eq node.version p.node_version)
  require (any (λ a. text_eq a.artifact_id p.node_artifact_id) node.artifacts)

abbrev pub all_artifacts : List CatalogComponentRecord → List ArtifactDescriptor
all_artifacts = flat_map (λ c. c.artifacts)

-- PiReleaseProfileV1::validate
unfoldable pub validate_profile : PiReleaseProfile → Core (Unit {0})
validate_profile p = do
  require (text_eq p.pi_package.name pi_root_package_name)
  require (not (text_eq p.installer_root.name p.pi_package.name))
  require (text_eq p.pi_package_locator (modules_prefix ++ p.pi_package.name))
  require (not (text_eq p.pi_component_id p.node_component_id))
  require_unique (map (λ (c : CatalogComponentRecord). c.component_id) p.components)
  require_unique (map (λ (a : ArtifactDescriptor). a.artifact_id) (all_artifacts p.components))
  require (
      all_window (λ (a b : CatalogComponentRecord). text_lt a.component_id b.component_id)
        p.components)
  all_windows_sorted p.components
  require
      (all_window (λ (a b : LockedPackageRecord). text_lt a.locator b.locator) p.locked_packages)
  require_coherent_package_identities p.locked_packages
  validate_packages p.installer_root.name p.locked_packages
  locked ←
      ok_or invalid_catalog (find (λ l. text_eq l.locator p.pi_package_locator) p.locked_packages)
  require (text_eq locked.name p.pi_package.name && text_eq locked.version p.pi_package.version)
  validate_archive p locked
  validate_node p

-- the iterator of `PiReleaseProfileWire::origins`
abbrev pub profile_urls : PiReleaseProfileWire → List Text
profile_urls w =
    (w.installer_manifest.url ∷ w.installer_lock.url ∷ w.pi_manifest.url ∷ [])
    ++ (map (λ (a : ArtifactDescriptorWire). a.url)
          (flat_map (λ (c : CatalogComponentWire). c.artifacts) w.components)
        ++ map (λ (p : LockedPackageWire). p.resolved_url) w.locked_packages)

module _ (x : Externals) where
  -- PiReleaseProfileV1::from_wire
  unfoldable pub admit_profile : PiReleaseProfileWire → List AllowedOrigin → Core PiReleaseProfile
  admit_profile w origins = do
    require (w.schema_version == 1)
    require_bounded_nonempty w.components 16
    require_bounded_nonempty w.locked_packages 512
    pi_package ← admit_identity w.pi_package
    node_version ← parse_exact_version w.node_version
    target ← parse_target w.target
    consumer_requirement ← parse_compatibility_range x w.consumer_requirement
    required_contracts ← admit_contracts w.required_contracts
    installer_root ← admit_identity w.installer_root
    pi_package_locator ← parse_inventory_path w.pi_package_locator
    cli_entrypoint ← parse_inventory_path w.cli_entrypoint
    installer_manifest ← admit_file x origins w.installer_manifest
    installer_lock ← admit_file x origins w.installer_lock
    pi_manifest ← admit_file x origins w.pi_manifest
    components ← traverse (admit_component x origins) w.components
    pi_component_id ← parse_catalog_id w.pi_component_id
    pi_artifact_id ← parse_catalog_id w.pi_artifact_id
    node_component_id ← parse_catalog_id w.node_component_id
    node_artifact_id ← parse_catalog_id w.node_artifact_id
    registry_integrity ← parse_registry_integrity w.registry_integrity
    locked_packages ← traverse (admit_package x origins) w.locked_packages
    let result : PiReleaseProfile = record {
      schema_version = w.schema_version;
      pi_package = pi_package;
      node_version = node_version;
      target = target;
      consumer_requirement = consumer_requirement;
      required_contracts = required_contracts;
      installer_root = installer_root;
      pi_package_locator = pi_package_locator;
      cli_entrypoint = cli_entrypoint;
      installer_manifest = installer_manifest;
      installer_lock = installer_lock;
      pi_manifest = pi_manifest;
      components = components;
      pi_component_id = pi_component_id;
      pi_artifact_id = pi_artifact_id;
      node_component_id = node_component_id;
      node_artifact_id = node_artifact_id;
      registry_integrity = registry_integrity;
      locked_packages = locked_packages;
    }
    validate_profile result
    bytes ← ok_or invalid_catalog (x.profile_to_vec result)
    require (leb (length bytes) max_pi_release_profile_bytes)
    ok result

  -- PiInstallerLockMetadataV1::from_wire
  unfoldable pub admit_installer_lock :
      PiInstallerLockWire → List AllowedOrigin → Core PiInstallerLockMetadata
  admit_installer_lock w origins = do
    profile ← admit_profile w.profile origins
    qualification ← admit_file x origins w.qualification
    require (leb qualification.size_bytes max_pi_qualification_bytes)
    ok (record { profile = profile; qualification = qualification })

  -- `add_origin` grows the list in place: the new list is the result
  unfoldable pub add_origin : List AllowedOrigin → Text → Core (List AllowedOrigin)
  add_origin origins value = do
    url ← parse_artifact_url x value
    parsed ← ok_or invalid_catalog (x.parse_url url)
    origin ← parse_allowed_origin x parsed.origin
    let grown = if contains origins origin then origins else origins ++ origin ∷ []
    require (leb (length grown) 16)
    ok grown

  abbrev pub add_origins : List AllowedOrigin → List Text → Core (List AllowedOrigin)
  add_origins origins [] = ok origins
  add_origins origins (url ∷ urls) = do grown ← add_origin origins url; add_origins grown urls

  -- PiReleaseProfileWire::origins
  unfoldable pub profile_origins : PiReleaseProfileWire → Core (List AllowedOrigin)
  profile_origins w = add_origins [] (profile_urls w)

-- PiInstallerLockMetadataV1::validate_release
unfoldable pub validate_release :
    PiInstallerLockMetadata → ExactVersion → List CatalogComponentRecord → Core (Unit {0})
validate_release m version components =
    require (text_eq m.profile.pi_package.version version && same m.profile.components components)
