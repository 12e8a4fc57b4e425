-- ===== src/Catalog/Qualification.antt =====
-- crates/catalog-core/src/qualification.rs: the qualification records of the first format and their admission.
-- The JSON decoder, and the encoder of the nested value, are parameters.
pub mod Fields
pub mod Admitted
pub mod Examples
use fluxsemble_runtime_catal.Base.{
  ℕ, Bool, true, false, ◌&&◌, ◌≡◌, ◌==◌, ◌≤◌, ◌≢◌, not, Option, none, some, List, [], ◌∷◌, Text, ok,
  ◌>>=◌, ◌>>◌, ok_or, leb, all, length, traverse, refl, ap, sym, ◌∙◌, arith, All, traverse-All,
  length-traverse, Ensures, Ensures-bind, Ensures-ensure, Ensures-ok, ==_iff,
}
use fluxsemble_runtime_catal.Catalog.Externals.{Externals}
use fluxsemble_runtime_catal.Catalog.Require.{Core, invalid_catalog, require}
use fluxsemble_runtime_catal.Catalog.Scalars.{valid_plain_text, valid_exact_version}
use fluxsemble_runtime_catal.Catalog.Records.{CatalogTarget}
use fluxsemble_runtime_catal.Catalog.Parse.{
  validated, parse_target, parse_exact_version, parse_timestamp,
}
use fluxsemble_runtime_catal.Catalog.Source.{
  BuildBindingWire, FluxsembleBuildBinding, valid_sha256_hex, valid_bounded_id, valid_commit_sha,
  parse_sha256_hex, parse_bounded_id, parse_commit_sha, admit_build, build_from_json,
  require_bounded_json,
}

abbrev pub max_residual_risks : ℕ
max_residual_risks = 32

abbrev pub max_qualification_text_bytes : ℕ
max_qualification_text_bytes = 1024

pub data QualificationOutcome : Type 0 where
  passed failed : QualificationOutcome

pub record QualificationChecks : Type 0 where
  pub catalog_v1_conformance : QualificationOutcome
  pub managed_installation : QualificationOutcome
  pub node_probe : QualificationOutcome
  pub pi_probe : QualificationOutcome
  pub pi_rpc_readiness : QualificationOutcome
  pub activation : QualificationOutcome
  pub managed_resolution : QualificationOutcome
  pub required_failure : QualificationOutcome
  pub cancellation : QualificationOutcome

-- QualificationOutcome::eq(Passed)
abbrev pub has_passed : QualificationOutcome → Bool
has_passed passed = true
has_passed failed = false

unfoldable pub all_passed : QualificationChecks → Bool
all_passed c = all has_passed (
    c.catalog_v1_conformance ∷ c.managed_installation ∷ c.node_probe ∷ c.pi_probe
    ∷ c.pi_rpc_readiness ∷ c.activation ∷ c.managed_resolution ∷ c.required_failure ∷ c.cancellation
    ∷ [])

pub record QualificationWire (Value : Type 0) : Type 0 where
  pub schema_version : ℕ
  pub compatibility_input_sha256 : Text
  pub candidate_sha256 : Option Text
  pub trusted_signing_keyring_sha256 : Text
  pub fluxsemble : Value
  pub provider : Text
  pub target : Text
  pub pi_version : Text
  pub node_version : Text
  pub checks : QualificationChecks
  pub reviewer : Text
  pub release_owner_approved_at : Text
  pub residual_risks : List Text

pub record CompatibilityQualification : Type 0 where
  pub schema_version : ℕ
  pub compatibility_input_sha256 : Text
  pub candidate_sha256 : Option Text
  pub trusted_signing_keyring_sha256 : Text
  pub fluxsemble : FluxsembleBuildBinding
  pub provider : Text
  pub target : CatalogTarget
  pub pi_version : Text
  pub node_version : Text
  pub checks : QualificationChecks
  pub reviewer : Text
  pub release_owner_approved_at : Text
  pub residual_risks : List Text

-- BoundedPlainText
unfoldable pub parse_bounded_plain_text : Text → Core Text
parse_bounded_plain_text = validated (λ v. valid_plain_text v max_qualification_text_bytes true)

-- Option::map of a parser, and transpose
abbrev pub parse_optional : (Text → Core Text) → Option Text → Core (Option Text)
parse_optional parse none = ok none
parse_optional parse (some value) = do parsed ← parse value; ok (some parsed)

-- serde_json on these records, and on the value of the build
pub record QualificationCodec : Type 1 where
  pub Value : Type 0
  pub from_slice : Text → Option (QualificationWire Value)
  pub value_to_vec : Value → Option Text
  pub build_from_slice : Text → Option BuildBindingWire

module _ (x : Externals) (c : QualificationCodec) where
  -- `from_json` after the wire is decoded
  unfoldable pub admit_compatibility : QualificationWire c.Value → Core CompatibilityQualification
  admit_compatibility w = do
    require (w.schema_version == 1)
    require (leb (length w.residual_risks) max_residual_risks)
    encoded ← ok_or invalid_catalog (c.value_to_vec w.fluxsemble)
    fluxsemble ← build_from_json x c.build_from_slice encoded
    provider ← parse_bounded_id w.provider
    compatibility_input_sha256 ← parse_sha256_hex w.compatibility_input_sha256
    candidate_sha256 ← parse_optional parse_sha256_hex w.candidate_sha256
    trusted_signing_keyring_sha256 ← parse_sha256_hex w.trusted_signing_keyring_sha256
    target ← parse_target w.target
    pi_version ← parse_exact_version w.pi_version
    node_version ← parse_exact_version w.node_version
    reviewer ← parse_bounded_plain_text w.reviewer
    release_owner_approved_at ← parse_timestamp x w.release_owner_approved_at
    residual_risks ← traverse parse_bounded_plain_text w.residual_risks
    ok (record {
      schema_version = w.schema_version;
      compatibility_input_sha256 = compatibility_input_sha256;
      candidate_sha256 = candidate_sha256;
      trusted_signing_keyring_sha256 = trusted_signing_keyring_sha256;
      fluxsemble = fluxsemble;
      provider = provider;
      target = target;
      pi_version = pi_version;
      node_version = node_version;
      checks = w.checks;
      reviewer = reviewer;
      release_owner_approved_at = release_owner_approved_at;
      residual_risks = residual_risks;
    })

  unfoldable pub compatibility_from_json : Text → Core CompatibilityQualification
  compatibility_from_json bytes = do
    require_bounded_json x bytes
    wire ← ok_or invalid_catalog (c.from_slice bytes)
    admit_compatibility wire
