-- ===== src/Assembly/Examples.antt =====
-- crates/catalog-core/src/source_v2.rs, qualification.rs, bundle.rs: one release, on concrete data.
use native.Mathlib.Decide.{ℕ_discrete}
use mathlib.Core.Bool.{decide}
use fluxsemble_runtime_catal.Base.{
  ◌≤◌, ◌<◌, ◌≡◌, refl, true, some, [], ◌∷◌, ◌++◌, Text, codes, ok, ◌>>=◌, ensure, Ensures, All,
  length,
}
use fluxsemble_runtime_catal.Strings.{
  split, split_once, text_eq, text_lt, starts_with, strip_prefix,
}
use fluxsemble_runtime_catal.Strings.Decimal.{to_string}
use fluxsemble_runtime_catal.Strings.Split.{Lacks}
use fluxsemble_runtime_catal.Catalog.Records.{
  linux_x86_64, CatalogPayload, CatalogProviderRecord, CatalogReleaseRecord, ProviderExtension,
  ImmutableFileDescriptor, PiReleaseProfile, PiRequiredContracts,
}
use fluxsemble_runtime_catal.Catalog.BundleRecords.{SignedReleaseBundleManifest}
use fluxsemble_runtime_catal.Catalog.Duplicates.{reject_duplicate_json, visit}
use fluxsemble_runtime_catal.Catalog.Release.{payload_from_json}
use fluxsemble_runtime_catal.Catalog.Release.WellFormed.{IsPayload}
use fluxsemble_runtime_catal.Catalog.Scalars.{
  valid_sha256_digest, valid_exact_version, valid_without_build, valid_core,
  valid_numeric_component,
}
use fluxsemble_runtime_catal.Catalog.Parse.{
  parse_sha256_digest, parse_exact_version, parse_compatibility_range,
}
use fluxsemble_runtime_catal.Catalog.Installer.{admit_contracts}
use fluxsemble_runtime_catal.Catalog.Installer.Documents.{
  PiQualificationWire, pass, qualification_from_json, is_complete_pass,
  pi_installer_contract_profile_id,
}
use fluxsemble_runtime_catal.Catalog.Installer.Examples.{small_profile, profile_wire}
use fluxsemble_runtime_catal.Catalog.Examples.{outside, small_payload, small_read}
use fluxsemble_runtime_catal.Catalog.Bundle.Examples.{zeros}
use fluxsemble_runtime_catal.Signature.Base64url.{encode_lower_hex}
use fluxsemble_runtime_catal.Signature.Scan.Suffixes.{Infix}
use fluxsemble_runtime_catal.Signature.Examples.{digest}
use fluxsemble_runtime_catal.Assembly.Externals.{AssemblyExternals}
use fluxsemble_runtime_catal.Assembly.Evidence.{
  PiRequiredContracts-discrete, pi_release_subject_sha256, pi_required_contracts_profile_sha256,
  verify_pi_release_qualification,
}
use fluxsemble_runtime_catal.Assembly.Intent.{
  contains_text, download_prefix, valid_support_name, pi_support_asset_name, insert_origin,
  add_urls, intent_payload,
}
use fluxsemble_runtime_catal.Assembly.Intent.Support.{support_name_lem}
use fluxsemble_runtime_catal.Assembly.Source.{CatalogSource, verify_pi_verification_build, finalize}
use fluxsemble_runtime_catal.Assembly.Source.Final.{IsEvidence, finalize_lem}
use fluxsemble_runtime_catal.Assembly.Assets.{
  verify_descriptor, verify_metadata, verify_pi_release_bundle_assets,
}
use fluxsemble_runtime_catal.Assembly.Assets.Present.{Supported, bundle_assets_lem}

abbrev commit : Text
commit = codes "0123456789abcdef0123456789abcdef01234567"

-- a file of the release with sequence 3, named by its digest
abbrev file_name : Text
file_name = codes "f-" ++ zeros

abbrev file_url : Text
file_url = download_prefix ++ (codes "catalog-v1-sequence-3/" ++ file_name)

abbrev support_file : ImmutableFileDescriptor
support_file = record { url = file_url; size_bytes = 7; sha256 = zeros }

abbrev contracts : PiRequiredContracts
contracts = record {
  installer_policy = 1;
  lockfile_version = 3;
  pi_rpc = 1;
  pi_session = 1;
  execution_payload = 3;
  tool_wire = 1;
  channel_layout = 2;
  native_auth = 1;
  resource_policy_sha256 = zeros;
  tool_policy_sha256 = zeros;
  execution_policy_sha256 = zeros;
}

abbrev profile : PiReleaseProfile
profile = record small_profile {
  required_contracts = contracts;
  installer_manifest = support_file;
  installer_lock = support_file;
  pi_manifest = support_file;
}

abbrev qualification_wire : PiQualificationWire
qualification_wire = record {
  schema_version = 1;
  release_subject_sha256 = zeros;
  required_contracts = record {
    installer_policy = 1;
    lockfile_version = 3;
    pi_rpc = 1;
    pi_session = 1;
    execution_payload = 3;
    tool_wire = 1;
    channel_layout = 2;
    native_auth = 1;
    resource_policy_sha256 = zeros;
    tool_policy_sha256 = zeros;
    execution_policy_sha256 = zeros;
  };
  consumer_requirement = codes "^1";
  verification_build = record {
    consumer_version = codes "1.0.0";
    implementation_commit = commit;
    application_sha256 = zeros;
    daemon_sha256 = zeros;
    compatibility_profile_id = pi_installer_contract_profile_id;
    compatibility_profile_sha256 = zeros;
  };
  results = record {
    installation = pass;
    sdk_auth = pass;
    session_resume = pass;
    streaming_tools = pass;
    lifecycle = pass;
  };
}

-- every codec writes "{}" and every digest is zero
abbrev toolbox : AssemblyExternals
toolbox = record {
  sha256 = digest;
  semver_version = λ value. true;
  requirement_matches = λ requirement version. true;
  contracts_to_vec = λ k. some (codes "{}");
  qualification_to_vec = λ q. some (codes "{}");
  draft_to_vec = λ draft. some (codes "{}");
  qualification_from_slice = λ bytes. some qualification_wire;
  profile_from_slice = λ bytes. some profile_wire;
}

abbrev source : CatalogSource
source = record {
  schema_version = 2;
  intent = record {
    schema_version = 2;
    sequence = codes "3";
    tag = codes "catalog-v1-sequence-3";
    generated_at = codes "2026-01-01T00:00:00Z";
    expires_at = codes "2026-02-01T00:00:00Z";
    title = codes "One";
    notes = codes "First.";
    profile = profile;
  };
  build = record {
    implementation_commit = commit;
    application_sha256 = zeros;
    daemon_sha256 = zeros;
    compatibility_profile_id = pi_installer_contract_profile_id;
    compatibility_profile_sha256 = zeros;
  };
  qualification = record { relative_path = codes "qualifications/one.json"; sha256 = zeros };
}

finalized : finalize outside toolbox source (codes "{}") ≡ ok small_payload
unfolding finalize qualification_from_json admit_contracts verify_pi_release_qualification
    pi_release_subject_sha256 pi_required_contracts_profile_sha256 verify_pi_verification_build
    encode_lower_hex intent_payload add_urls insert_origin is_complete_pass parse_sha256_digest
    valid_sha256_digest parse_exact_version valid_exact_version valid_without_build valid_core
    valid_numeric_component parse_compatibility_range PiRequiredContracts-discrete ℕ_discrete decide
    ◌>>=◌ ensure text_eq text_lt split_once split payload_from_json reject_duplicate_json visit
finalized = small_read

finalize_lem_example :
    Ensures
      (λ p. IsEvidence outside toolbox source (codes "{}") × IsPayload outside p)
      (finalize outside toolbox source (codes "{}"))
finalize_lem_example = finalize_lem outside toolbox source (codes "{}")

support_name : pi_support_asset_name file_url zeros (codes "catalog-v1-sequence-3") ≡ ok file_name
unfolding pi_support_asset_name valid_support_name contains_text starts_with strip_prefix ◌>>=◌
    ensure
support_name = refl

support_name_lem_example :
    Ensures
      (λ (name : Text).
        (file_url ≡ (download_prefix ++ (codes "catalog-v1-sequence-3" ++ codes "/")) ++ name)
        × (0 < length name)
        × (length name ≤ 255)
        × Infix name zeros
        × Lacks b'/' name
        × Lacks b'\\' name)
      (pi_support_asset_name file_url zeros (codes "catalog-v1-sequence-3"))
support_name_lem_example = support_name_lem file_url zeros (codes "catalog-v1-sequence-3")

-- a catalog whose one release is installed by the profile
abbrev installer_payload : CatalogPayload
installer_payload = record small_payload {
  providers =
      record {
        provider_id = codes "builtin:pi";
        allowed_origins = [];
        releases =
            record {
              version = codes "1.0.0";
              target = linux_x86_64;
              compatibility_ranges = codes "^1" ∷ [];
              release_metadata = record { title = codes "One"; notes = codes "First." };
              components = [];
              provider_extension =
                  ProviderExtension.pi_installer_lock
                    (record { profile = profile; qualification = support_file });
            }
            ∷ [];
      }
      ∷ [];
}

abbrev manifest : SignedReleaseBundleManifest
manifest = record {
  schema_version = 1;
  source_commit = commit;
  source_tree_sha256 = zeros;
  qualification_sha256 = zeros;
  tag = codes "catalog-v1-sequence-3";
  catalog_envelope = record { name = codes "catalog-v1.json"; size = 9; sha256 = zeros };
  assets = record { name = file_name; size = 7; sha256 = zeros } ∷ [];
  signature = record { key_id = codes "key-1"; signature = codes "c2ln" };
}

assets_verified : verify_pi_release_bundle_assets installer_payload manifest ≡ ok tt
unfolding verify_pi_release_bundle_assets verify_metadata verify_descriptor pi_support_asset_name
    valid_support_name contains_text starts_with strip_prefix to_string text_eq ◌>>=◌ ensure
assets_verified = refl

bundle_assets_lem_example :
    Ensures
      (λ _.
        All
          (λ (provider : CatalogProviderRecord).
            All
              (λ (release : CatalogReleaseRecord).
                Supported installer_payload manifest release.provider_extension)
              provider.releases)
          installer_payload.providers)
      (verify_pi_release_bundle_assets installer_payload manifest)
bundle_assets_lem_example = bundle_assets_lem installer_payload manifest
