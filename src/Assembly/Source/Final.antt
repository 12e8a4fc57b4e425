-- ===== src/Assembly/Source/Final.antt =====
-- crates/catalog-core/src/source_v2.rs: what holds of a catalog that is put together.
use fluxsemble_runtime_catal.Base.{
  ◌≡◌, some, sym, ap, ◌∙◌, Text, ok_or-eq-ok, Ensures, Ensures-bind, Ensures-ensure, Ensures-last,
}
use fluxsemble_runtime_catal.Strings.Split.{text_eq_sound}
use fluxsemble_runtime_catal.Catalog.Externals.{Externals}
use fluxsemble_runtime_catal.Catalog.Require.{invalid_catalog}
use fluxsemble_runtime_catal.Catalog.Source.{FluxsembleBuildBinding}
use fluxsemble_runtime_catal.Catalog.Release.WellFormed.{IsPayload, payload_from_json-IsPayload}
use fluxsemble_runtime_catal.Catalog.Installer.Documents.{PiReleaseQualification}
use fluxsemble_runtime_catal.Signature.Base64url.{encode_lower_hex}
use fluxsemble_runtime_catal.Assembly.Externals.{AssemblyExternals, QualificationDescriptor}
use fluxsemble_runtime_catal.Assembly.Evidence.Binding.{IsQualified, verify-IsQualified}
use fluxsemble_runtime_catal.Assembly.Intent.{PiReleaseIntent, intent_payload}
use fluxsemble_runtime_catal.Assembly.Source.{CatalogSource, verify_pi_verification_build, finalize}

-- the qualification was run on this build
pub record IsTestedBuild (b : FluxsembleBuildBinding) (q : PiReleaseQualification) : Type 0 where
  pub commit : b.implementation_commit ≡ q.verification_build.implementation_commit
  pub application : b.application_sha256 ≡ q.verification_build.application_sha256
  pub daemon : b.daemon_sha256 ≡ q.verification_build.daemon_sha256
  pub contract_profile : b.compatibility_profile_id ≡ q.verification_build.compatibility_profile_id
  pub contract_digest :
      b.compatibility_profile_sha256 ≡ q.verification_build.compatibility_profile_sha256

build_lem :
    (b : FluxsembleBuildBinding) (q : PiReleaseQualification)
    → Ensures (λ _. IsTestedBuild b q) (verify_pi_verification_build b q)
unfolding verify_pi_verification_build
build_lem b q = Ensures-ensure _ _ _ λ commit. Ensures-ensure _ _ _ λ application.
    Ensures-ensure _ _ _ λ daemon. Ensures-ensure _ _ _ λ profile. Ensures-last _ _ λ digest.
      record {
        commit = text_eq_sound _ _ commit;
        application = text_eq_sound _ _ application;
        daemon = text_eq_sound _ _ daemon;
        contract_profile = text_eq_sound _ _ profile;
        contract_digest = text_eq_sound _ _ digest;
      }

payload_lem :
    (x : Externals) (c : AssemblyExternals) (i : PiReleaseIntent) (d : QualificationDescriptor)
    → Ensures (IsPayload x) (intent_payload x c i d)
unfolding intent_payload
payload_lem x c i d = Ensures-bind _ _ λ origins _.
    Ensures-bind _ _ λ bytes _. record { at = λ p h. (payload_from_json-IsPayload x bytes p h).2 }

-- what the bytes of the evidence are: the canonical text of a qualification of the source's profile and
-- build, under the digest that the source names
pub record IsEvidence (x : Externals) (c : AssemblyExternals) (s : CatalogSource) (bytes : Text)
    : Type 0 where
  pub record_read : PiReleaseQualification
  pub canonical : c.qualification_to_vec record_read ≡ some bytes
  pub digest : s.qualification.sha256 ≡ encode_lower_hex (c.sha256 bytes)
  pub qualified : IsQualified x c s.intent.profile record_read
  pub build_tested : IsTestedBuild s.build record_read

-- A catalog is put together only from evidence: the bytes are the canonical text of a qualification, have
-- the digest that the source names, and bind its profile and its build; and the catalog is well formed.
pub finalize_lem :
    (x : Externals) (c : AssemblyExternals) (s : CatalogSource) (bytes : Text)
    → Ensures (λ p. IsEvidence x c s bytes × IsPayload x p) (finalize x c s bytes)
unfolding finalize
finalize_lem x c s bytes = Ensures-bind _ _ λ q read. Ensures-bind _ _ λ canonical written.
    Ensures-ensure _ _ _ λ same. Ensures-ensure _ _ _ λ named. Ensures-bind _ _ λ u qualified.
      Ensures-bind _ _ λ v tested. record {
        at = λ p h. (
          record {
            record_read = q;
            canonical =
                ok_or-eq-ok invalid_catalog _ written
                ∙ ap some (text_eq_sound canonical bytes same);
            digest = sym (text_eq_sound _ _ named);
            qualified = (verify-IsQualified x c s.intent.profile q).at u qualified;
            build_tested = (build_lem s.build q).at v tested;
          },
          (payload_lem x c s.intent _).at p h,
        );
      }
