-- ===== src/Assembly/Externals.antt =====
-- What the assembly of a release calls and does not implement: SHA-256, the JSON codecs of its records,
-- and the comparison of a version with a requirement.
use fluxsemble_runtime_catal.Base.{Bool, Option, List, Text}
use fluxsemble_runtime_catal.Catalog.Records.{
  CatalogTimestamp, ExactVersion, AllowedOrigin, CatalogTarget, CatalogComponentRecord,
  PiRequiredContracts, PiReleaseProfile,
}
use fluxsemble_runtime_catal.Catalog.Wire.{PiReleaseProfileWire}
use fluxsemble_runtime_catal.Catalog.Installer.Documents.{
  PiQualificationWire, PiReleaseQualification,
}

-- the descriptor of the qualification record in a catalog, as it is written
pub record QualificationDescriptor : Type 0 where
  pub url : Text
  pub size_bytes : Text
  pub sha256 : Text

-- the fields of the JSON value that `PiReleaseIntentV2::payload` builds
pub record CatalogDraft : Type 0 where
  pub sequence : Text
  pub generated_at : CatalogTimestamp
  pub expires_at : CatalogTimestamp
  pub consumer_requirement : Text
  pub allowed_origins : List AllowedOrigin
  pub version : ExactVersion
  pub target : CatalogTarget
  pub title : Text
  pub notes : Text
  pub components : List CatalogComponentRecord
  pub profile : PiReleaseProfile
  pub qualification : QualificationDescriptor

pub record AssemblyExternals : Type 0 where
  -- Sha256::digest
  pub sha256 : Text → Text
  -- semver::Version::parse(value).is_ok(), and requirement.matches(&version)
  pub semver_version : Text → Bool
  pub requirement_matches : Text → Text → Bool
  -- serde_jcs::to_vec of the manifest of the contracts, and of a qualification
  pub contracts_to_vec : PiRequiredContracts → Option Text
  pub qualification_to_vec : PiReleaseQualification → Option Text
  -- serde_json::to_vec of the drafted catalog
  pub draft_to_vec : CatalogDraft → Option Text
  -- serde_json::from_slice
  pub qualification_from_slice : Text → Option PiQualificationWire
  pub profile_from_slice : Text → Option PiReleaseProfileWire
