-- ===== src/Assembly/Evidence.antt =====
-- crates/catalog-core/src/qualification.rs, pi_installer_lock.rs: the binding of a qualification to a
-- release profile.
pub mod Binding
use native.Mathlib.Decide.{ℕ_discrete}
use fluxsemble_runtime_catal.Base.{
  ℕ, ◌/◌, ◌%◌, Bool, true, false, Option, none, some, List, [], ◌∷◌, ◌++◌, Text, codes, ok, err,
  ◌>>=◌, ◌>>◌, ok_or, Eq, derive_eq, length,
}
use fluxsemble_runtime_catal.Strings.{text_eq}
use fluxsemble_runtime_catal.Catalog.Externals.{Externals}
use fluxsemble_runtime_catal.Catalog.Records.{PiRequiredContracts, PiReleaseProfile}
use fluxsemble_runtime_catal.Catalog.Require.{Core, invalid_catalog, require}
use fluxsemble_runtime_catal.Catalog.Installer.Documents.{
  PiReleaseQualification, is_complete_pass, pi_installer_contract_profile_id,
}
use fluxsemble_runtime_catal.Signature.Base64url.{encode_lower_hex}
use fluxsemble_runtime_catal.Assembly.Externals.{AssemblyExternals}

-- u64::to_be_bytes
abbrev pub to_be_bytes : ℕ → Text
to_be_bytes n =
    n / 72057594037927936 % 256
    ∷ n / 281474976710656 % 256
    ∷ n / 1099511627776 % 256
    ∷ n / 4294967296 % 256
    ∷ n / 16777216 % 256
    ∷ n / 65536 % 256
    ∷ n / 256 % 256
    ∷ n % 256
    ∷ []

unfoldable pub PiRequiredContracts-discrete : Discrete PiRequiredContracts
PiRequiredContracts-discrete = hlevel ℕ_discrete

instance abbrev pub contracts_eq : Eq PiRequiredContracts
contracts_eq = derive_eq PiRequiredContracts-discrete

abbrev pub subject_domain : Text
subject_domain = codes "fluxsemble:pi-release-subject:v1" ++ (0 ∷ [])

module _ (x : Externals) (c : AssemblyExternals) where
  unfoldable pub pi_release_subject_sha256 : PiReleaseProfile → Core Text
  pi_release_subject_sha256 profile = do
    bytes ← ok_or invalid_catalog (x.profile_to_vec profile)
    ok (c.sha256 (subject_domain ++ (to_be_bytes (length bytes) ++ bytes)))

  unfoldable pub pi_required_contracts_profile_sha256 : PiRequiredContracts → Core Text
  pi_required_contracts_profile_sha256 contracts = do
    bytes ← ok_or invalid_catalog (c.contracts_to_vec contracts)
    ok (c.sha256 (bytes ++ (b'\n' ∷ [])))

  unfoldable pub verify_pi_release_qualification :
      PiReleaseProfile → PiReleaseQualification → Core (Unit {0})
  verify_pi_release_qualification profile q = do
    subject ← pi_release_subject_sha256 profile
    require (text_eq q.release_subject_sha256 (encode_lower_hex subject))
    require (contracts_eq.same q.required_contracts profile.required_contracts)
    require (text_eq q.consumer_requirement profile.consumer_requirement)
    require (is_complete_pass q)
    profile_digest ← pi_required_contracts_profile_sha256 profile.required_contracts
    require (text_eq q.verification_build.compatibility_profile_id pi_installer_contract_profile_id)
    require (
        text_eq q.verification_build.compatibility_profile_sha256 (encode_lower_hex profile_digest))
    require (x.version_req profile.consumer_requirement)
    require (c.semver_version q.verification_build.consumer_version)
    require
        (c.requirement_matches profile.consumer_requirement q.verification_build.consumer_version)
