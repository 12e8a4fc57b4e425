-- ===== src/Catalog/Source.antt =====
-- crates/catalog-core/src/source.rs: the scalar values of the producer's records, and the build binding.
pub mod Scalars
use fluxsemble_runtime_catal.Base.{
  ℕ, ◌*◌, Bool, true, false, ◌&&◌, ◌||◌, not, Option, none, some, List, [], ◌∷◌, ◌++◌, Text, codes,
  ok, err, ◌>>=◌, ◌>>◌, ok_or, leb, ◌==◌, within, all, any, length,
}
use fluxsemble_runtime_catal.Strings.{
  text_eq, split, is_empty, is_ascii, is_ascii_control, is_digit, is_lower, is_upper, contains_byte,
  starts_with, strip_prefix,
}
use fluxsemble_runtime_catal.Strings.Decimal.{to_string}
use fluxsemble_runtime_catal.Catalog.Externals.{Externals}
use fluxsemble_runtime_catal.Catalog.Require.{Core, invalid_catalog, require}
use fluxsemble_runtime_catal.Catalog.Scalars.{is_alphanumeric, plain_segment}
use fluxsemble_runtime_catal.Catalog.Parse.{validated, parse_nonzero_decimal}
use fluxsemble_runtime_catal.Catalog.Duplicates.{reject_duplicate_json}

unfoldable pub is_lower_hex : Text → Bool
is_lower_hex value = all (λ b. is_digit b || within b'a' b'f' b) value

unfoldable pub valid_relative_path : Text → ℕ → Bool
valid_relative_path value maximum =
    not (is_empty value)
    && leb (length value) maximum
    && not (starts_with (codes "/") value)
    && not (contains_byte b'\\' value)
    && not (any is_ascii_control value)
    && all plain_segment (split b'/' value)

-- CommitSha
unfoldable pub valid_commit_sha : Text → Bool
valid_commit_sha value = length value == 40 && is_lower_hex value

-- Sha256Hex
unfoldable pub valid_sha256_hex : Text → Bool
valid_sha256_hex value = length value == 64 && is_lower_hex value

-- BoundedId
unfoldable pub valid_bounded_id : Text → Bool
valid_bounded_id value =
    not (is_empty value)
    && leb (length value) 128
    && all is_ascii value
    && all (λ b. is_alphanumeric b || b == b'-' || b == b'_' || b == b'.' || b == b':') value

unfoldable pub parse_commit_sha : Text → Core Text
parse_commit_sha = validated valid_commit_sha

unfoldable pub parse_sha256_hex : Text → Core Text
parse_sha256_hex = validated valid_sha256_hex

unfoldable pub parse_bounded_id : Text → Core Text
parse_bounded_id = validated valid_bounded_id

-- QualificationRecordPath
unfoldable pub parse_record_path : Text → Core Text
parse_record_path = validated (λ v. valid_relative_path v 512)

abbrev pub exact_fluxsemble_requirement : Text
exact_fluxsemble_requirement = codes "=0.1.0"

-- ExactVersionRequirement
unfoldable pub parse_version_requirement : Text → Core Text
parse_version_requirement = validated (λ v. text_eq v exact_fluxsemble_requirement)

abbrev pub tag_prefix : Text
tag_prefix = codes "catalog-v1-sequence-"

-- CatalogTag::parse
unfoldable pub parse_tag : Text → ℕ → Core Text
parse_tag value sequence = do require (text_eq value (tag_prefix ++ to_string sequence)); ok value

-- CatalogTag::parse_without_sequence
unfoldable pub parse_tag_without_sequence : Text → Core Text
parse_tag_without_sequence value = do
  digits ← ok_or invalid_catalog (strip_prefix tag_prefix value)
  sequence ← parse_nonzero_decimal digits
  parse_tag value sequence

abbrev pub max_catalog_payload_bytes : ℕ
max_catalog_payload_bytes = 8 * 1024 * 1024

unfoldable pub require_bounded_json : Externals → Text → Core (Unit {0})
require_bounded_json x bytes = do
  require (leb (length bytes) max_catalog_payload_bytes)
  reject_duplicate_json x bytes

pub record BuildBindingWire : Type 0 where
  pub implementation_commit : Text
  pub application_sha256 : Text
  pub daemon_sha256 : Text
  pub compatibility_profile_id : Text
  pub compatibility_profile_sha256 : Text

pub record FluxsembleBuildBinding : Type 0 where
  pub implementation_commit : Text
  pub application_sha256 : Text
  pub daemon_sha256 : Text
  pub compatibility_profile_id : Text
  pub compatibility_profile_sha256 : Text

-- FluxsembleBuildBindingV1::try_from
unfoldable pub admit_build : BuildBindingWire → Core FluxsembleBuildBinding
admit_build w = do
  implementation_commit ← parse_commit_sha w.implementation_commit
  application_sha256 ← parse_sha256_hex w.application_sha256
  daemon_sha256 ← parse_sha256_hex w.daemon_sha256
  compatibility_profile_id ← parse_bounded_id w.compatibility_profile_id
  compatibility_profile_sha256 ← parse_sha256_hex w.compatibility_profile_sha256
  ok (record {
    implementation_commit = implementation_commit;
    application_sha256 = application_sha256;
    daemon_sha256 = daemon_sha256;
    compatibility_profile_id = compatibility_profile_id;
    compatibility_profile_sha256 = compatibility_profile_sha256;
  })

-- FluxsembleBuildBindingV1::from_json; the decoder is a parameter
unfoldable pub build_from_json :
    Externals → (Text → Option BuildBindingWire) → Text → Core FluxsembleBuildBinding
build_from_json x from_slice bytes = do
  require_bounded_json x bytes
  wire ← ok_or invalid_catalog (from_slice bytes)
  admit_build wire
