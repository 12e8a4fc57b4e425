-- ===== src/Assembly/Evidence/Binding.antt =====
-- crates/catalog-core/src/qualification.rs: what a verified qualification is bound to.
use fluxsemble_runtime_catal.Base.{
  ◌≡◌, refl, ap, ◌∙◌, true, ◌&&◌, some, [], ◌∷◌, ◌++◌, Text, Ensures, Ensures-bind, Ensures-ensure,
  Ensures-last, Ensures-ok, ok_or-eq-ok, and_parts, length, arith,
}
use fluxsemble_runtime_catal.Strings.Split.{text_eq_sound}
use fluxsemble_runtime_catal.Catalog.Externals.{Externals}
use fluxsemble_runtime_catal.Catalog.Records.{PiRequiredContracts, PiReleaseProfile}
use fluxsemble_runtime_catal.Catalog.Require.{invalid_catalog}
use fluxsemble_runtime_catal.Catalog.Installer.Documents.{
  PiReleaseQualification, PiQualificationResult, PiQualificationResults, pass, fail, is_pass,
  is_complete_pass,
}
use fluxsemble_runtime_catal.Signature.Base64url.{encode_lower_hex}
use fluxsemble_runtime_catal.Assembly.Externals.{AssemblyExternals}
use fluxsemble_runtime_catal.Assembly.Evidence.{
  to_be_bytes, contracts_eq, subject_domain, pi_release_subject_sha256,
  pi_required_contracts_profile_sha256, verify_pi_release_qualification,
}

-- every check of the record passed
pub record AllPassed (r : PiQualificationResults) : Type 0 where
  pub installation : r.installation ≡ pass
  pub sdk_auth : r.sdk_auth ≡ pass
  pub session_resume : r.session_resume ≡ pass
  pub streaming_tools : r.streaming_tools ≡ pass
  pub lifecycle : r.lifecycle ≡ pass

-- the qualification is evidence for this profile and no other
pub record IsQualified (x : Externals) (c : AssemblyExternals) (p : PiReleaseProfile)
    (q : PiReleaseQualification) : Type 0 where
  pub subject :
      (bytes : Text) × (x.profile_to_vec p ≡ some bytes)
      × (q.release_subject_sha256
          ≡ encode_lower_hex (c.sha256 (subject_domain ++ (to_be_bytes (length bytes) ++ bytes))))
  pub contracts : q.required_contracts ≡ p.required_contracts
  pub requirement : q.consumer_requirement ≡ p.consumer_requirement
  pub passed : AllPassed q.results
  pub contracts_digest :
      (bytes : Text) × (c.contracts_to_vec p.required_contracts ≡ some bytes)
      × (q.verification_build.compatibility_profile_sha256
          ≡ encode_lower_hex (c.sha256 (bytes ++ (b'\n' ∷ []))))
  pub version_tested :
      c.requirement_matches p.consumer_requirement q.verification_build.consumer_version ≡ true

passing : (r : PiQualificationResult) → is_pass r ≡ true → r ≡ pass
passing pass h = refl
passing fail h = ground arith

complete-AllPassed : (q : PiReleaseQualification) → is_complete_pass q ≡ true → AllPassed q.results
unfolding is_complete_pass
complete-AllPassed q h =
    let r = q.results in
    let (a, h₁) =
      and_parts (is_pass r.installation)
        (is_pass r.sdk_auth
          && (is_pass r.session_resume
              && (is_pass r.streaming_tools && (is_pass r.lifecycle && true))))
        h in
    let (b, h₂) =
      and_parts (is_pass r.sdk_auth)
        (is_pass r.session_resume && (is_pass r.streaming_tools && (is_pass r.lifecycle && true)))
        h₁ in
    let (c, h₃) =
      and_parts (is_pass r.session_resume)
        (is_pass r.streaming_tools && (is_pass r.lifecycle && true)) h₂ in
    let (d, h₄) = and_parts (is_pass r.streaming_tools) (is_pass r.lifecycle && true) h₃ in
    let (e, _) = and_parts (is_pass r.lifecycle) true h₄ in
    record {
      installation = passing r.installation a;
      sdk_auth = passing r.sdk_auth b;
      session_resume = passing r.session_resume c;
      streaming_tools = passing r.streaming_tools d;
      lifecycle = passing r.lifecycle e;
    }

module _ (x : Externals) (c : AssemblyExternals) where
  subject_lem :
      (p : PiReleaseProfile)
      → Ensures
          (λ d.
            (bytes : Text) × (x.profile_to_vec p ≡ some bytes)
            × (d ≡ c.sha256 (subject_domain ++ (to_be_bytes (length bytes) ++ bytes))))
          (pi_release_subject_sha256 x c p)
  unfolding pi_release_subject_sha256
  subject_lem p =
      Ensures-bind _ _
        λ bytes written. Ensures-ok _ (bytes, ok_or-eq-ok invalid_catalog _ written, refl)

  contracts_lem :
      (k : PiRequiredContracts)
      → Ensures
          (λ d.
            (bytes : Text) × (c.contracts_to_vec k ≡ some bytes)
            × (d ≡ c.sha256 (bytes ++ (b'\n' ∷ []))))
          (pi_required_contracts_profile_sha256 x c k)
  unfolding pi_required_contracts_profile_sha256
  contracts_lem k =
      Ensures-bind _ _
        λ bytes written. Ensures-ok _ (bytes, ok_or-eq-ok invalid_catalog _ written, refl)

  -- A qualification that verifies against a profile is bound to it: its subject is the digest of this
  -- profile, its contracts and its requirement are the profile's, all five checks passed, the build was
  -- tested against the digest of these contracts, and its version satisfies the requirement.
  pub verify-IsQualified :
      (p : PiReleaseProfile) (q : PiReleaseQualification)
      → Ensures (λ _. IsQualified x c p q) (verify_pi_release_qualification x c p q)
  unfolding verify_pi_release_qualification
  verify-IsQualified p q = Ensures-bind _ _ λ subject hashed. Ensures-ensure _ _ _ λ bound.
      Ensures-ensure _ _ _ λ contracts. Ensures-ensure _ _ _ λ requirement.
        Ensures-ensure _ _ _ λ complete. Ensures-bind _ _ λ digest digested.
          Ensures-ensure _ _ _ λ named. Ensures-ensure _ _ _ λ tested. Ensures-ensure _ _ _ λ _.
            Ensures-ensure _ _ _ λ _. Ensures-last _ _ λ matches.
              let (bytes, written, spelled) = (subject_lem p).at subject hashed in
              let (bytes₂, written₂, spelled₂) =
                (contracts_lem p.required_contracts).at digest digested in
              record {
                subject = (bytes, written, text_eq_sound _ _ bound ∙ ap encode_lower_hex spelled);
                contracts =
                    (contracts_eq.same_iff q.required_contracts p.required_contracts).0 contracts;
                requirement = text_eq_sound _ _ requirement;
                passed = complete-AllPassed q complete;
                contracts_digest =
                    (bytes₂, written₂, text_eq_sound _ _ tested ∙ ap encode_lower_hex spelled₂);
                version_tested = matches;
              }
