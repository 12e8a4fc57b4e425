-- ===== src/Catalog/Installer/Reading.antt =====
-- crates/catalog-core/src/pi_installer_lock.rs: a small profile is read from bytes.
use mathlib.Core.List.{flat_map}
use fluxsemble_runtime_catal.Base.{
  ◌≤◌, ◌≡◌, refl, some, List, [], ◌∷◌, ◌++◌, Text, codes, ok, length, ensure, ◌>>=◌, Distinct,
}
use fluxsemble_runtime_catal.Strings.{
  strip_prefix, starts_with, split, split_once, split_once_text, text_eq, text_lt,
}
use fluxsemble_runtime_catal.Strings.Decimal.{to_string, parse_u64}
use fluxsemble_runtime_catal.Catalog.Wire.{
  ImmutableFileDescriptorWire, ArtifactDescriptorWire, PiReleaseProfileWire,
}
use fluxsemble_runtime_catal.Catalog.Records.{
  AllowedOrigin, ImmutableFileDescriptor, ArtifactDescriptor, PiReleaseProfile,
}
use fluxsemble_runtime_catal.Catalog.Scalars.{
  valid_sha256_digest, valid_id_segment, valid_catalog_id, valid_numeric_component, valid_core,
  valid_without_build, valid_exact_version, valid_package_name, valid_package_segment,
  valid_inventory_path, valid_url_input,
}
use fluxsemble_runtime_catal.Catalog.Integrity.{
  is_canonical_sha512_integrity, decode_sha512_base64, encode_sha512_base64, decode_groups,
  encode_groups, base64_value, base64_letter,
}
use fluxsemble_runtime_catal.Catalog.Require.{all_inserted, coherent_from}
use fluxsemble_runtime_catal.Catalog.Parse.{
  parse_sha256_digest, parse_registry_integrity, parse_package_name, parse_inventory_path,
  parse_exact_version, parse_catalog_id, parse_byte_size, parse_target, parse_https_url,
  parse_artifact_url, url_origin, parse_allowed_origin, origin_allowed, parse_compatibility_range,
}
use fluxsemble_runtime_catal.Catalog.Admission.{
  admit_identity, admit_file, admit_component, admit_artifact, admit_entry, admit_package,
}
use fluxsemble_runtime_catal.Catalog.Installer.{
  pi_root_package_name, max_pi_release_profile_bytes, profile_origins, add_origin, admit_profile,
  admit_contracts, validate_profile, validate_archive, validate_node, validate_locator,
  locator_loop, locator_round, tail_round, nested_round,
}
use fluxsemble_runtime_catal.Catalog.Installer.Documents.{
  profile_from_json, profile_from_json-IsAdmittedProfile,
}
use fluxsemble_runtime_catal.Catalog.Installer.Locks.{IsAdmittedProfile}
use fluxsemble_runtime_catal.Catalog.Installer.Examples.{profile_wire, small_profile, one_origin}

-- a profile that is admitted when it is read
abbrev admissible_sha : Text
admissible_sha = codes "0000000000000000000000000000000000000000000000000000000000000000"

abbrev admissible_integrity : Text
admissible_integrity =
    codes
      "sha512-AAAAAAAAAAAAAAAAAAAAAAAAAAAAAAAAAAAAAAAAAAAAAAAAAAAAAAAAAAAAAAAAAAAAAAAAAAAAAAAAAAAAAA=="

abbrev admissible_file : Text → ImmutableFileDescriptorWire
admissible_file url = record { url = url; size_bytes = codes "1"; sha256 = admissible_sha }

abbrev admissible_artifact : Text → ArtifactDescriptorWire
admissible_artifact id = record {
  artifact_id = id;
  url = codes "https://example.org/pi.tgz";
  size_bytes = codes "9";
  sha256 = admissible_sha;
  inventory =
      record { path = codes "cli.js"; size_bytes = codes "5"; sha256 = admissible_sha } ∷ [];
}

abbrev admissible_wire : PiReleaseProfileWire
admissible_wire = record profile_wire {
  cli_entrypoint = codes "cli.js";
  pi_package = record { name = pi_root_package_name; version = codes "1.0.0" };
  required_contracts = record {
    installer_policy = 1;
    lockfile_version = 3;
    pi_rpc = 1;
    pi_session = 1;
    execution_payload = 3;
    tool_wire = 1;
    channel_layout = 2;
    native_auth = 1;
    resource_policy_sha256 = admissible_sha;
    tool_policy_sha256 = admissible_sha;
    execution_policy_sha256 = admissible_sha;
  };
  pi_package_locator = codes "node_modules/" ++ pi_root_package_name;
  installer_manifest = admissible_file (codes "https://example.org/m");
  installer_lock = admissible_file (codes "https://example.org/l");
  pi_manifest = admissible_file (codes "https://example.org/p");
  components =
      record {
        component_id = codes "component:node";
        version = codes "22.0.0";
        artifacts = admissible_artifact (codes "artifact:node") ∷ [];
      }
      ∷ record {
        component_id = codes "component:pi";
        version = codes "1.0.0";
        artifacts = admissible_artifact (codes "artifact:pi") ∷ [];
      }
      ∷ [];
  registry_integrity = admissible_integrity;
  locked_packages =
      record {
        locator = codes "node_modules/" ++ pi_root_package_name;
        name = pi_root_package_name;
        version = codes "1.0.0";
        resolved_url = codes "https://example.org/pi.tgz";
        registry_integrity = admissible_integrity;
        archive_sha256 = admissible_sha;
      }
      ∷ [];
}

abbrev admitted_file : Text → ImmutableFileDescriptor
admitted_file url = record { url = url; size_bytes = 1; sha256 = admissible_sha }

abbrev admitted_artifact : Text → ArtifactDescriptor
admitted_artifact id = record {
  artifact_id = id;
  url = codes "https://example.org/pi.tgz";
  size_bytes = 9;
  sha256 = admissible_sha;
  inventory = record { path = codes "cli.js"; size_bytes = 5; sha256 = admissible_sha } ∷ [];
}

abbrev admitted_profile : PiReleaseProfile
admitted_profile = record small_profile {
  required_contracts = record {
    installer_policy = 1;
    lockfile_version = 3;
    pi_rpc = 1;
    pi_session = 1;
    execution_payload = 3;
    tool_wire = 1;
    channel_layout = 2;
    native_auth = 1;
    resource_policy_sha256 = admissible_sha;
    tool_policy_sha256 = admissible_sha;
    execution_policy_sha256 = admissible_sha;
  };
  cli_entrypoint = codes "cli.js";
  installer_manifest = admitted_file (codes "https://example.org/m");
  installer_lock = admitted_file (codes "https://example.org/l");
  pi_manifest = admitted_file (codes "https://example.org/p");
  components =
      record {
        component_id = codes "component:node";
        version = codes "22.0.0";
        artifacts = admitted_artifact (codes "artifact:node") ∷ [];
      }
      ∷ record {
        component_id = codes "component:pi";
        version = codes "1.0.0";
        artifacts = admitted_artifact (codes "artifact:pi") ∷ [];
      }
      ∷ [];
  registry_integrity = admissible_integrity;
  locked_packages =
      record {
        locator = codes "node_modules/" ++ pi_root_package_name;
        name = pi_root_package_name;
        version = codes "1.0.0";
        resolved_url = codes "https://example.org/pi.tgz";
        registry_integrity = admissible_integrity;
        archive_sha256 = admissible_sha;
      }
      ∷ [];
}

profile_read :
    profile_from_json one_origin (λ bytes. some admissible_wire) (codes "{}") ≡ ok admitted_profile
unfolding profile_from_json profile_origins add_origin admit_profile admit_contracts admit_identity
    admit_file admit_component admit_artifact admit_entry admit_package parse_sha256_digest
    parse_registry_integrity parse_package_name parse_inventory_path parse_exact_version
    parse_catalog_id parse_byte_size parse_target parse_https_url parse_artifact_url url_origin
    parse_allowed_origin origin_allowed parse_compatibility_range valid_sha256_digest
    valid_id_segment valid_catalog_id valid_numeric_component valid_core valid_without_build
    valid_exact_version valid_package_name valid_package_segment valid_inventory_path
    valid_url_input is_canonical_sha512_integrity decode_sha512_base64 encode_sha512_base64
    decode_groups encode_groups base64_value base64_letter validate_profile validate_archive
    validate_node validate_locator locator_loop locator_round tail_round nested_round strip_prefix
    starts_with split split_once split_once_text text_eq text_lt to_string parse_u64 all_inserted
    coherent_from flat_map ensure ◌>>=◌
profile_read = refl

profile_from_json-IsAdmittedProfile_example :
    (length (codes "{}") ≤ max_pi_release_profile_bytes)
    × ((origins : List AllowedOrigin) × Distinct origins
        × (length origins ≤ 16)
        × IsAdmittedProfile one_origin origins admitted_profile)
profile_from_json-IsAdmittedProfile_example =
    profile_from_json-IsAdmittedProfile one_origin (λ bytes. some admissible_wire) (codes "{}")
      admitted_profile profile_read
