-- ===== src/Assembly/Source.antt =====
-- crates/catalog-core/src/source_v2.rs: the final source record and the catalog that it gives.
pub mod Final
use fluxsemble_runtime_catal.Base.{
  ℕ, Bool, true, false, ◌&&◌, ◌||◌, Option, none, some, List, [], ◌∷◌, ◌++◌, Text, codes, ok, err,
  ◌>>=◌, ◌>>◌, ok_or, ◌==◌, length,
}
use fluxsemble_runtime_catal.Strings.{text_eq, is_empty, starts_with}
use fluxsemble_runtime_catal.Strings.Decimal.{to_string}
use fluxsemble_runtime_catal.Catalog.Externals.{Externals}
use fluxsemble_runtime_catal.Catalog.Records.{CatalogPayload}
use fluxsemble_runtime_catal.Catalog.Require.{Core, invalid_catalog, require}
use fluxsemble_runtime_catal.Catalog.Source.{
  parse_record_path, parse_sha256_hex, require_bounded_json, BuildBindingWire,
  FluxsembleBuildBinding, build_from_json,
}
use fluxsemble_runtime_catal.Catalog.Installer.Documents.{
  PiReleaseQualification, qualification_from_json,
}
use fluxsemble_runtime_catal.Signature.Base64url.{encode_lower_hex}
use fluxsemble_runtime_catal.Assembly.Externals.{AssemblyExternals}
use fluxsemble_runtime_catal.Assembly.Evidence.{verify_pi_release_qualification}
use fluxsemble_runtime_catal.Assembly.Intent.{
  PiReleaseIntent, IntentWire, intent_from_json, intent_payload, qualification_url,
}

-- str::ends_with(&str)
unfoldable pub ends_with : Text → Text → Bool
ends_with suffix [] = is_empty suffix
ends_with suffix (b ∷ s) = text_eq suffix (b ∷ s) || ends_with suffix s

pub record QualificationRef : Type 0 where
  pub relative_path : Text
  pub sha256 : Text

pub record CatalogSource : Type 0 where
  pub schema_version : ℕ
  pub intent : PiReleaseIntent
  pub build : FluxsembleBuildBinding
  pub qualification : QualificationRef

pub record QualificationRefWire : Type 0 where
  pub relative_path : Text
  pub sha256 : Text

pub record SourceWire (Value : Type 0) : Type 0 where
  pub schema_version : ℕ
  pub intent : Value
  pub build : Value
  pub qualification : QualificationRefWire

unfoldable pub verify_pi_verification_build :
    FluxsembleBuildBinding → PiReleaseQualification → Core (Unit {0})
verify_pi_verification_build build q = do
  require (text_eq build.implementation_commit q.verification_build.implementation_commit)
  require (text_eq build.application_sha256 q.verification_build.application_sha256)
  require (text_eq build.daemon_sha256 q.verification_build.daemon_sha256)
  require (text_eq build.compatibility_profile_id q.verification_build.compatibility_profile_id)
  require
      (text_eq build.compatibility_profile_sha256 q.verification_build.compatibility_profile_sha256)

module _ (x : Externals) (c : AssemblyExternals) where
  -- CatalogSourceV2::finalize
  unfoldable pub finalize : CatalogSource → Text → Core CatalogPayload
  finalize s qualification_bytes = do
    q ← qualification_from_json x c.qualification_from_slice qualification_bytes
    canonical ← ok_or invalid_catalog (c.qualification_to_vec q)
    require (text_eq canonical qualification_bytes)
    require (text_eq (encode_lower_hex (c.sha256 qualification_bytes)) s.qualification.sha256)
    verify_pi_release_qualification x c s.intent.profile q
    verify_pi_verification_build s.build q
    intent_payload x c s.intent (record {
      url = qualification_url s.intent s.qualification.sha256;
      size_bytes = to_string (length qualification_bytes);
      sha256 = s.qualification.sha256;
    })

  module _ (Value : Type 0) (value_to_vec : Value → Option Text)
      (intent_from_slice : Text → Option (IntentWire Value))
      (build_from_slice : Text → Option BuildBindingWire) where
    unfoldable pub admit_source : SourceWire Value → Core CatalogSource
    admit_source w = do
      require (w.schema_version == 2)
      relative_path ← parse_record_path w.qualification.relative_path
      require (
          starts_with (codes "qualifications/") relative_path
          && ends_with (codes ".json") relative_path)
      intent_bytes ← ok_or invalid_catalog (value_to_vec w.intent)
      intent ← intent_from_json x c Value value_to_vec intent_from_slice intent_bytes
      build_bytes ← ok_or invalid_catalog (value_to_vec w.build)
      build ← build_from_json x build_from_slice build_bytes
      sha256 ← parse_sha256_hex w.qualification.sha256
      ok (record {
        schema_version = 2;
        intent = intent;
        build = build;
        qualification = record { relative_path = relative_path; sha256 = sha256 };
      })

    -- CatalogSourceV2::from_json
    unfoldable pub source_from_json : (Text → Option (SourceWire Value)) → Text → Core CatalogSource
    source_from_json from_slice bytes = do
      require_bounded_json x bytes
      wire ← ok_or invalid_catalog (from_slice bytes)
      admit_source wire
