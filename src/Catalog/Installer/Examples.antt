-- ===== src/Catalog/Installer/Examples.antt =====
-- crates/catalog-core/src/pi_installer_lock.rs: a small release profile, and locators.
use mathlib.Core.List.{flat_map}
use fluxsemble_runtime_catal.Base.{
  true, some, none, refl, [], ◌∷◌, ◌++◌, Text, codes, ◌>>=◌, ensure,
}
use fluxsemble_runtime_catal.Strings.{text_eq, text_lt, split, strip_prefix, split_once_text}
use fluxsemble_runtime_catal.Catalog.Records.{
  linux_x86_64, ArtifactDescriptor, ImmutableFileDescriptor, LockedPackageRecord, PiReleaseProfile,
}
use fluxsemble_runtime_catal.Catalog.Externals.{Externals}
use fluxsemble_runtime_catal.Catalog.Wire.{ImmutableFileDescriptorWire, PiReleaseProfileWire}
use fluxsemble_runtime_catal.Catalog.Scalars.{valid_package_name, valid_package_segment}
use fluxsemble_runtime_catal.Catalog.Require.{all_inserted, coherent_from}
use fluxsemble_runtime_catal.Catalog.Parse.{parse_package_name}
use fluxsemble_runtime_catal.Catalog.Installer.{
  pi_root_package_name, validate_locator, locator_loop, locator_round, tail_round, nested_round,
  validate_archive, validate_node, validate_profile,
}
use fluxsemble_runtime_catal.Catalog.Installer.Locators.{IsLocator, validate_locator_sound}
use fluxsemble_runtime_catal.Catalog.Installer.Profiles.{IsProfile, validate_profile-IsProfile}

abbrev nested : Text
nested = codes "node_modules/@a/b/node_modules/c"

validate_locator_sound_example : IsLocator nested (codes "c")
unfolding validate_locator locator_loop locator_round tail_round nested_round strip_prefix
    split_once_text parse_package_name valid_package_name valid_package_segment split text_eq ensure
    ◌>>=◌
validate_locator_sound_example = validate_locator_sound nested (codes "c") refl

abbrev digest : Text
digest = codes "00"

abbrev manifest : ImmutableFileDescriptor
manifest = record { url = codes "https://example.org/m"; size_bytes = 1; sha256 = digest }

abbrev archive : ArtifactDescriptor
archive = record {
  artifact_id = codes "artifact:pi";
  url = codes "https://example.org/pi.tgz";
  size_bytes = 9;
  sha256 = digest;
  inventory = record { path = codes "dist/cli.js"; size_bytes = 5; sha256 = digest } ∷ [];
}

abbrev pi_package : LockedPackageRecord
pi_package = record {
  locator = codes "node_modules/" ++ pi_root_package_name;
  name = pi_root_package_name;
  version = codes "1.0.0";
  resolved_url = codes "https://example.org/pi.tgz";
  registry_integrity = codes "sha512-";
  archive_sha256 = digest;
}

-- a package that the Pi package brings with it
abbrev dependency : LockedPackageRecord
dependency = record pi_package {
  locator = codes "node_modules/@earendil-works/pi-coding-agent/node_modules/c";
  name = codes "c";
}

abbrev pub small_profile : PiReleaseProfile
small_profile = record {
  schema_version = 1;
  pi_package = record { name = pi_root_package_name; version = codes "1.0.0" };
  node_version = codes "22.0.0";
  target = linux_x86_64;
  consumer_requirement = codes "^1";
  required_contracts = record {
    installer_policy = 1;
    lockfile_version = 3;
    pi_rpc = 1;
    pi_session = 1;
    execution_payload = 3;
    tool_wire = 1;
    channel_layout = 2;
    native_auth = 1;
    resource_policy_sha256 = digest;
    tool_policy_sha256 = digest;
    execution_policy_sha256 = digest;
  };
  installer_root = record { name = codes "root"; version = codes "1.0.0" };
  pi_package_locator = codes "node_modules/" ++ pi_root_package_name;
  cli_entrypoint = codes "dist/cli.js";
  installer_manifest = manifest;
  installer_lock = manifest;
  pi_manifest = manifest;
  components =
      record {
        component_id = codes "component:node";
        version = codes "22.0.0";
        artifacts = record archive { artifact_id = codes "artifact:node" } ∷ [];
      }
      ∷ record {
        component_id = codes "component:pi";
        version = codes "1.0.0";
        artifacts = archive ∷ [];
      }
      ∷ [];
  pi_component_id = codes "component:pi";
  pi_artifact_id = codes "artifact:pi";
  node_component_id = codes "component:node";
  node_artifact_id = codes "artifact:node";
  registry_integrity = codes "sha512-";
  locked_packages = pi_package ∷ dependency ∷ [];
}

validate_profile-IsProfile_example : IsProfile small_profile
unfolding validate_profile validate_archive validate_node validate_locator locator_loop
    locator_round tail_round nested_round strip_prefix split_once_text parse_package_name
    valid_package_name valid_package_segment split text_eq text_lt all_inserted coherent_from
    flat_map ensure ◌>>=◌
validate_profile-IsProfile_example = validate_profile-IsProfile small_profile refl

-- every URL is at one origin
abbrev pub one_origin : Externals
one_origin = record {
  parse_url = λ value. some (record {
    scheme = codes "https";
    host_str = some (codes "example.org");
    username = [];
    password = none;
    query = none;
    fragment = none;
    path = codes "/";
    origin = codes "https://example.org";
  });
  version_req = λ value. true;
  parse_rfc3339 = λ value. none;
  json_tree = λ bytes. none;
  payload_from_slice = λ bytes. none;
  payload_to_vec = λ payload. none;
  profile_to_vec = λ profile. some [];
}

abbrev file_wire : Text → ImmutableFileDescriptorWire
file_wire url = record { url = url; size_bytes = codes "1"; sha256 = digest }

abbrev pub profile_wire : PiReleaseProfileWire
profile_wire = record {
  schema_version = 1;
  pi_package = record { name = codes "a"; version = codes "1.0.0" };
  node_version = codes "22.0.0";
  target = codes "linux_x86_64";
  consumer_requirement = codes "^1";
  required_contracts = record {
    installer_policy = 1;
    lockfile_version = 3;
    pi_rpc = 1;
    pi_session = 1;
    execution_payload = 3;
    tool_wire = 1;
    channel_layout = 2;
    native_auth = 1;
    resource_policy_sha256 = digest;
    tool_policy_sha256 = digest;
    execution_policy_sha256 = digest;
  };
  installer_root = record { name = codes "root"; version = codes "1.0.0" };
  pi_package_locator = codes "node_modules/a";
  cli_entrypoint = codes "cli.js";
  installer_manifest = file_wire (codes "https://example.org/m");
  installer_lock = file_wire (codes "https://example.org/l");
  pi_manifest = file_wire (codes "https://example.org/p");
  components = [];
  pi_component_id = codes "component:pi";
  pi_artifact_id = codes "artifact:pi";
  node_component_id = codes "component:node";
  node_artifact_id = codes "artifact:node";
  registry_integrity = codes "sha512-";
  locked_packages = [];
}
