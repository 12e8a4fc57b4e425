-- ===== src/Catalog/Qualification/Admitted.antt =====
-- crates/catalog-core/src/qualification.rs: what holds of an admitted qualification record.
use fluxsemble_runtime_catal.Base.{
  ◌≤◌, true, ◌≡◌, Option, List, Text, leb, length, arith, All, traverse-All, length-traverse,
  Ensures, Ensures-bind, Ensures-ensure, Ensures-ok, ==_iff,
}
use fluxsemble_runtime_catal.Catalog.Externals.{Externals}
use fluxsemble_runtime_catal.Catalog.Source.{
  BuildBindingWire, FluxsembleBuildBinding, admit_build, build_from_json,
}
use fluxsemble_runtime_catal.Catalog.Qualification.{
  QualificationWire, CompatibilityQualification, QualificationCodec, max_residual_risks,
  parse_bounded_plain_text, admit_compatibility, compatibility_from_json,
}
use fluxsemble_runtime_catal.Catalog.Qualification.Fields.{
  IsHex, IsBoundedId, IsPlain, IsExactVersion, IsUtcTime, Optionally, hash_lem, id_lem, commit_lem,
  version_lem, plain_lem, optional_lem, timestamp_lem,
}

pub record IsBuild (b : FluxsembleBuildBinding) : Type 0 where
  pub commit_valid : IsHex 40 b.implementation_commit
  pub application_valid : IsHex 64 b.application_sha256
  pub daemon_valid : IsHex 64 b.daemon_sha256
  pub profile_valid : IsBoundedId b.compatibility_profile_id
  pub profile_hash_valid : IsHex 64 b.compatibility_profile_sha256

pub record IsQualification (x : Externals) (q : CompatibilityQualification) : Type 0 where
  pub schema_version : q.schema_version ≡ 1
  pub input_valid : IsHex 64 q.compatibility_input_sha256
  pub candidate_valid : Optionally (IsHex 64) q.candidate_sha256
  pub keyring_valid : IsHex 64 q.trusted_signing_keyring_sha256
  pub build_valid : IsBuild q.fluxsemble
  pub provider_valid : IsBoundedId q.provider
  pub pi_valid : IsExactVersion q.pi_version
  pub node_valid : IsExactVersion q.node_version
  pub reviewer_valid : IsPlain q.reviewer
  pub approval_dated : IsUtcTime x q.release_owner_approved_at
  pub risks_bounded : length q.residual_risks ≤ 32
  pub risks_valid : All IsPlain q.residual_risks

build_lem : (w : BuildBindingWire) → Ensures IsBuild (admit_build w)
unfolding admit_build
build_lem w = Ensures-bind _ _ λ a ha. Ensures-bind _ _ λ b hb. Ensures-bind _ _ λ c hc.
    Ensures-bind _ _ λ d hd. Ensures-bind _ _ λ e he. Ensures-ok _ (record {
      commit_valid = (commit_lem _).at a ha;
      application_valid = (hash_lem _).at b hb;
      daemon_valid = (hash_lem _).at c hc;
      profile_valid = (id_lem _).at d hd;
      profile_hash_valid = (hash_lem _).at e he;
    })

build_from_json_lem :
    (x : Externals) (from : Text → Option BuildBindingWire) (t : Text)
    → Ensures IsBuild (build_from_json x from t)
unfolding build_from_json
build_from_json_lem x from t = Ensures-bind _ _ λ _ _. Ensures-bind _ _ λ w _. build_lem w

at_most_risks :
    (risks : List Text) → leb (length risks) max_residual_risks ≡ true → length risks ≤ 32
at_most_risks risks h = ground (arith, h)

module _ (x : Externals) (c : QualificationCodec) where
  admit_compatibility-IsQualification :
      (w : QualificationWire c.Value) → Ensures (IsQualification x) (admit_compatibility x c w)
  unfolding admit_compatibility
  admit_compatibility-IsQualification w = Ensures-ensure _ _ _ λ schema. Ensures-ensure _ _ _ λ few.
      Ensures-bind _ _ λ encoded _. Ensures-bind _ _ λ build hb. Ensures-bind _ _ λ provider hp.
        Ensures-bind _ _ λ input hi. Ensures-bind _ _ λ candidate hc. Ensures-bind _ _ λ keyring hk.
          Ensures-bind _ _ λ target _. Ensures-bind _ _ λ pi hpi. Ensures-bind _ _ λ node hn.
            Ensures-bind _ _ λ reviewer hr. Ensures-bind _ _ λ approved ha.
              Ensures-bind _ _ λ risks hs. Ensures-ok _ (record {
                schema_version = (==_iff _ _).0 schema;
                input_valid = (hash_lem _).at input hi;
                candidate_valid = (optional_lem _).at candidate hc;
                keyring_valid = (hash_lem _).at keyring hk;
                build_valid = (build_from_json_lem x c.build_from_slice encoded).at build hb;
                provider_valid = (id_lem _).at provider hp;
                pi_valid = (version_lem _).at pi hpi;
                node_valid = (version_lem _).at node hn;
                reviewer_valid = (plain_lem _).at reviewer hr;
                approval_dated = (timestamp_lem x _).at approved ha;
                risks_bounded = omega (
                  arith,
                  length-traverse parse_bounded_plain_text w.residual_risks risks hs,
                  at_most_risks w.residual_risks few,
                );
                risks_valid =
                    traverse-All {P = IsPlain} parse_bounded_plain_text
                      (λ t v h. (plain_lem t).at v h) w.residual_risks hs;
              })

  -- A qualification record of the first format that is admitted has schema 1. Its digests are 64 and its
  -- build's commit is 40 lowercase hexadecimal digits. Its provider and its profile id are 1 to 128
  -- letters, digits and `-`, `_`, `.`, `:`. Its versions are texts of at most 256 bytes in the grammar
  -- of semantic versions. It has at most 32 residual risks; each of them, and the reviewer, has 1 to
  -- 1024 bytes and no control character but tabs, line feeds and carriage returns. The time of
  -- approval has 20 bytes, which spell, in UTC and to the second, the time that they are parsed as.
  pub compatibility_from_json-IsQualification :
      (bytes : Text) → Ensures (IsQualification x) (compatibility_from_json x c bytes)
  unfolding compatibility_from_json
  compatibility_from_json-IsQualification bytes =
      Ensures-bind _ _ λ _ _. Ensures-bind _ _ λ w _. admit_compatibility-IsQualification w
