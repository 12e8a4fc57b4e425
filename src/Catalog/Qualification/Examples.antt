-- ===== src/Catalog/Qualification/Examples.antt =====
-- crates/catalog-core/src/qualification.rs: one record of the first format, on concrete data.
use fluxsemble_runtime_catal.Base.{some, [], ◌∷◌, Text, codes, ok, ◌≡◌, refl, ◌>>=◌, ensure, false}
use fluxsemble_runtime_catal.Strings.{chars, split, split_once, strip_prefix, text_eq}
use fluxsemble_runtime_catal.Catalog.Scalars.{
  valid_plain_text, valid_exact_version, valid_without_build, valid_core, valid_numeric_component,
}
use fluxsemble_runtime_catal.Catalog.Duplicates.{reject_duplicate_json, visit}
use fluxsemble_runtime_catal.Catalog.Records.{linux_x86_64}
use fluxsemble_runtime_catal.Catalog.Parse.{parse_target, parse_exact_version, parse_timestamp}
use fluxsemble_runtime_catal.Catalog.Source.{
  FluxsembleBuildBinding, is_lower_hex, valid_sha256_hex, valid_bounded_id, valid_commit_sha,
  parse_sha256_hex, parse_bounded_id, parse_commit_sha, admit_build, build_from_json,
  require_bounded_json,
}
use fluxsemble_runtime_catal.Catalog.Examples.{outside}
use fluxsemble_runtime_catal.Catalog.Qualification.{
  passed, failed, QualificationChecks, QualificationWire, CompatibilityQualification,
  QualificationCodec, parse_bounded_plain_text, all_passed, admit_compatibility,
  compatibility_from_json,
}
use fluxsemble_runtime_catal.Catalog.Qualification.Admitted.{
  IsQualification, compatibility_from_json-IsQualification,
}

abbrev hash : Text
hash = codes "0123456789abcdef0123456789abcdef0123456789abcdef0123456789abcdef"

abbrev build : FluxsembleBuildBinding
build = record {
  implementation_commit = codes "0123456789abcdef0123456789abcdef01234567";
  application_sha256 = hash;
  daemon_sha256 = hash;
  compatibility_profile_id = codes "profile-1";
  compatibility_profile_sha256 = hash;
}

abbrev checks : QualificationChecks
checks = record {
  catalog_v1_conformance = passed;
  managed_installation = passed;
  node_probe = passed;
  pi_probe = passed;
  pi_rpc_readiness = passed;
  activation = passed;
  managed_resolution = passed;
  required_failure = passed;
  cancellation = failed;
}

abbrev wire : QualificationWire (Unit {0})
wire = record {
  schema_version = 1;
  compatibility_input_sha256 = hash;
  candidate_sha256 = some hash;
  trusted_signing_keyring_sha256 = hash;
  fluxsemble = tt;
  provider = codes "builtin:pi";
  target = codes "linux_x86_64";
  pi_version = codes "1.2.3";
  node_version = codes "22.0.0";
  checks = checks;
  reviewer = codes "a reviewer";
  release_owner_approved_at = codes "2026-01-01T00:00:00Z";
  residual_risks = codes "none known" ∷ [];
}

abbrev codec : QualificationCodec
codec = record {
  Value = Unit {0};
  from_slice = λ bytes. some wire;
  value_to_vec = λ value. some (codes "{}");
  build_from_slice = λ bytes. some (record {
    implementation_commit = codes "0123456789abcdef0123456789abcdef01234567";
    application_sha256 = hash;
    daemon_sha256 = hash;
    compatibility_profile_id = codes "profile-1";
    compatibility_profile_sha256 = hash;
  });
}

abbrev admitted : CompatibilityQualification
admitted = record {
  schema_version = 1;
  compatibility_input_sha256 = hash;
  candidate_sha256 = some hash;
  trusted_signing_keyring_sha256 = hash;
  fluxsemble = build;
  provider = codes "builtin:pi";
  target = linux_x86_64;
  pi_version = codes "1.2.3";
  node_version = codes "22.0.0";
  checks = checks;
  reviewer = codes "a reviewer";
  release_owner_approved_at = codes "2026-01-01T00:00:00Z";
  residual_risks = codes "none known" ∷ [];
}

admitted_read : compatibility_from_json outside codec (codes "{}") ≡ ok admitted
unfolding compatibility_from_json admit_compatibility require_bounded_json build_from_json
    admit_build reject_duplicate_json visit parse_sha256_hex parse_bounded_id parse_commit_sha
    parse_target parse_exact_version parse_timestamp parse_bounded_plain_text is_lower_hex
    valid_sha256_hex valid_bounded_id valid_commit_sha valid_plain_text valid_exact_version
    valid_without_build valid_core valid_numeric_component chars split split_once strip_prefix
    text_eq ◌>>=◌ ensure
admitted_read = refl

one_failed : all_passed checks ≡ false
unfolding all_passed
one_failed = refl

compatibility_from_json-IsQualification_example : IsQualification outside admitted
compatibility_from_json-IsQualification_example =
    (compatibility_from_json-IsQualification outside codec (codes "{}")).at admitted admitted_read
