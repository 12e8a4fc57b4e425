-- ===== src/Catalog/Installer/Documents.antt =====
-- crates/catalog-core/src/pi_installer_lock.rs: profiles, installer locks and qualifications that are
-- read from bytes. The JSON decoder of each is a parameter of its reader.
use fluxsemble_runtime_catal.Base.{
  ◌||◌, ℕ, ◌+◌, ◌≤◌, ◌≡◌, Bool, true, false, ◌&&◌, Option, List, [], ◌∷◌, Text, codes, ok, ok_or,
  ◌>>=◌, ◌>>◌, leb, ◌==◌, all, length, Distinct, within, ensure-eq-ok, bind-eq-ok, arith,
}
use fluxsemble_runtime_catal.Strings.{text_eq, is_digit}
use fluxsemble_runtime_catal.Catalog.Wire.{
  PiRequiredContractsWire, PiReleaseProfileWire, PiInstallerLockWire,
}
use fluxsemble_runtime_catal.Catalog.Records.{
  ExactVersion, AllowedOrigin, PiRequiredContracts, PiReleaseProfile, PiInstallerLockMetadata,
}
use fluxsemble_runtime_catal.Catalog.Externals.{Externals}
use fluxsemble_runtime_catal.Catalog.Require.{Core, invalid_catalog, require}
use fluxsemble_runtime_catal.Catalog.Parse.{
  parse_sha256_digest, parse_exact_version, parse_compatibility_range,
}
use fluxsemble_runtime_catal.Catalog.Installer.{
  max_pi_qualification_bytes, max_pi_release_profile_bytes, admit_contracts, admit_profile,
  admit_installer_lock, add_origin, profile_origins,
}
use fluxsemble_runtime_catal.Catalog.Installer.Origins.{profile_origins_complete}
use fluxsemble_runtime_catal.Catalog.Installer.Locks.{
  IsAdmittedProfile, admit_profile-IsAdmittedProfile,
}

abbrev pub pi_installer_contract_profile_id : Text
pi_installer_contract_profile_id = codes "builtin-pi-installer-lock-contracts-v1"

-- PiRequiredContractsV1::from_json
unfoldable pub contracts_from_json :
    (Text → Option PiRequiredContractsWire) → Text → Core PiRequiredContracts
contracts_from_json from_slice bytes = do
  require (leb (length bytes) max_pi_qualification_bytes)
  wire ← ok_or invalid_catalog (from_slice bytes)
  admit_contracts wire

-- PiReleaseProfileV1::from_json
unfoldable pub profile_from_json :
    Externals → (Text → Option PiReleaseProfileWire) → Text → Core PiReleaseProfile
profile_from_json x from_slice bytes = do
  require (leb (length bytes) max_pi_release_profile_bytes)
  wire ← ok_or invalid_catalog (from_slice bytes)
  origins ← profile_origins x wire
  admit_profile x wire origins

-- PiInstallerLockMetadataV1::from_json
unfoldable pub lock_from_json :
    Externals → (Text → Option PiInstallerLockWire) → Text → Core PiInstallerLockMetadata
lock_from_json x from_slice bytes = do
  require (leb (length bytes) (max_pi_release_profile_bytes + max_pi_qualification_bytes))
  wire ← ok_or invalid_catalog (from_slice bytes)
  origins ← profile_origins x wire.profile
  grown ← add_origin x origins wire.qualification.url
  admit_installer_lock x wire grown

pub data PiQualificationResult : Type 0 where
  pass fail : PiQualificationResult

pub record PiQualificationResults : Type 0 where
  pub installation : PiQualificationResult
  pub sdk_auth : PiQualificationResult
  pub session_resume : PiQualificationResult
  pub streaming_tools : PiQualificationResult
  pub lifecycle : PiQualificationResult

pub record PiVerificationBuildWire : Type 0 where
  pub consumer_version : Text
  pub implementation_commit : Text
  pub application_sha256 : Text
  pub daemon_sha256 : Text
  pub compatibility_profile_id : Text
  pub compatibility_profile_sha256 : Text

pub record PiQualificationWire : Type 0 where
  pub schema_version : ℕ
  pub release_subject_sha256 : Text
  pub required_contracts : PiRequiredContractsWire
  pub consumer_requirement : Text
  pub verification_build : PiVerificationBuildWire
  pub results : PiQualificationResults

pub record PiVerificationBuild : Type 0 where
  pub consumer_version : ExactVersion
  pub implementation_commit : Text
  pub application_sha256 : Text
  pub daemon_sha256 : Text
  pub compatibility_profile_id : Text
  pub compatibility_profile_sha256 : Text

pub record PiReleaseQualification : Type 0 where
  pub schema_version : ℕ
  pub release_subject_sha256 : Text
  pub required_contracts : PiRequiredContracts
  pub consumer_requirement : Text
  pub verification_build : PiVerificationBuild
  pub results : PiQualificationResults

-- PiReleaseQualificationV1::from_json
unfoldable pub qualification_from_json :
    Externals → (Text → Option PiQualificationWire) → Text → Core PiReleaseQualification
qualification_from_json x from_slice bytes = do
  require (leb (length bytes) max_pi_qualification_bytes)
  w ← ok_or invalid_catalog (from_slice bytes)
  require (w.schema_version == 1)
  let build : PiVerificationBuildWire = w.verification_build
  require (
      length build.implementation_commit == 40
      && all (λ b. is_digit b || within b'a' b'f' b) build.implementation_commit)
  require (text_eq build.compatibility_profile_id pi_installer_contract_profile_id)
  release_subject_sha256 ← parse_sha256_digest w.release_subject_sha256
  required_contracts ← admit_contracts w.required_contracts
  consumer_requirement ← parse_compatibility_range x w.consumer_requirement
  consumer_version ← parse_exact_version build.consumer_version
  application_sha256 ← parse_sha256_digest build.application_sha256
  daemon_sha256 ← parse_sha256_digest build.daemon_sha256
  compatibility_profile_sha256 ← parse_sha256_digest build.compatibility_profile_sha256
  ok (record {
    schema_version = w.schema_version;
    release_subject_sha256 = release_subject_sha256;
    required_contracts = required_contracts;
    consumer_requirement = consumer_requirement;
    verification_build = record {
      consumer_version = consumer_version;
      implementation_commit = build.implementation_commit;
      application_sha256 = application_sha256;
      daemon_sha256 = daemon_sha256;
      compatibility_profile_id = build.compatibility_profile_id;
      compatibility_profile_sha256 = compatibility_profile_sha256;
    };
    results = w.results;
  })

abbrev pub is_pass : PiQualificationResult → Bool
is_pass pass = true
is_pass fail = false

unfoldable pub is_complete_pass : PiReleaseQualification → Bool
is_complete_pass q = all is_pass (
    q.results.installation ∷ q.results.sdk_auth ∷ q.results.session_resume
    ∷ q.results.streaming_tools ∷ q.results.lifecycle ∷ [])

-- A profile that is read from bytes has at most 2 MiB of them, and is consistent, with all that it
-- refers to at one of at most 16 origins, which are distinct.
pub profile_from_json-IsAdmittedProfile :
    (x : Externals) (from_slice : Text → Option PiReleaseProfileWire) (bytes : Text)
    (p : PiReleaseProfile)
    → profile_from_json x from_slice bytes ≡ ok p
    → (length bytes ≤ max_pi_release_profile_bytes)
      × ((origins : List AllowedOrigin) × Distinct origins
          × (length origins ≤ 16)
          × IsAdmittedProfile x origins p)
unfolding profile_from_json
profile_from_json-IsAdmittedProfile x from_slice bytes p h =
    let (small, h₁) =
      ensure-eq-ok invalid_catalog (leb (length bytes) max_pi_release_profile_bytes) _ h in
    let (w, _, h₂) = bind-eq-ok (ok_or invalid_catalog (from_slice bytes)) _ h₁ in
    let (origins, read, admitted) = bind-eq-ok (profile_origins x w) _ h₂ in
    let (distinct, few, _) = profile_origins_complete x w origins read in
    (
      ground (arith, small),
      (origins, distinct, few, (admit_profile-IsAdmittedProfile x origins w).at p admitted),
    )
