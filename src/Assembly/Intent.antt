-- ===== src/Assembly/Intent.antt =====
-- crates/catalog-core/src/source_v2.rs: release intents, support assets and the drafted catalog.
pub mod Support
use fluxsemble_runtime_catal.Base.{
  ℕ, Bool, true, false, ◌&&◌, ◌||◌, not, Option, none, some, List, [], ◌∷◌, ◌++◌, map, Text, codes,
  ok, err, ◌>>=◌, ◌>>◌, ok_or, leb, ◌==◌, all, any, length, if◌then◌else◌,
}
use fluxsemble_runtime_catal.Strings.{
  text_eq, text_lt, is_empty, is_ascii, is_ascii_control, is_ascii_whitespace, contains_byte,
  starts_with, strip_prefix,
}
use fluxsemble_runtime_catal.Catalog.Externals.{Externals}
use fluxsemble_runtime_catal.Catalog.Records.{
  CatalogTimestamp, AllowedOrigin, CatalogPayload, CatalogComponentRecord, ArtifactDescriptor,
  LockedPackageRecord, ImmutableFileDescriptor, PiReleaseProfile,
}
use fluxsemble_runtime_catal.Catalog.Require.{Core, invalid_catalog, require}
use fluxsemble_runtime_catal.Catalog.Parse.{parse_timestamp, parse_nonzero_decimal}
use fluxsemble_runtime_catal.Catalog.Source.{parse_tag, require_bounded_json}
use fluxsemble_runtime_catal.Catalog.Release.{payload_from_json}
use fluxsemble_runtime_catal.Catalog.Installer.Documents.{profile_from_json}
use fluxsemble_runtime_catal.Assembly.Externals.{
  QualificationDescriptor, CatalogDraft, AssemblyExternals,
}

-- str::contains(&str)
unfoldable pub contains_text : Text → Text → Bool
contains_text needle [] = is_empty needle
contains_text needle (b ∷ s) = starts_with needle (b ∷ s) || contains_text needle s

abbrev pub download_prefix : Text
download_prefix = codes "https://github.com/Devalch/Fluxsemble-runtime-catalog/releases/download/"

-- the condition on the name of a support asset
unfoldable pub valid_support_name : Text → Text → Bool
valid_support_name digest name =
    not (is_empty name)
    && leb (length name) 255
    && contains_text digest name
    && all is_ascii name
    && not (contains_byte b'/' name || contains_byte b'\\' name)
    && not (any (λ b. is_ascii_control b || is_ascii_whitespace b) name)

unfoldable pub pi_support_asset_name : Text → Text → Text → Core Text
pi_support_asset_name url digest tag = do
  name ← ok_or invalid_catalog (strip_prefix (download_prefix ++ (tag ++ codes "/")) url)
  require (valid_support_name digest name)
  ok name

pub record PiReleaseIntent : Type 0 where
  pub schema_version : ℕ
  pub sequence : Text
  pub tag : Text
  pub generated_at : CatalogTimestamp
  pub expires_at : CatalogTimestamp
  pub title : Text
  pub notes : Text
  pub profile : PiReleaseProfile

unfoldable pub support_prefix : PiReleaseIntent → Text
support_prefix i = download_prefix ++ i.tag

-- format!("{}/qualification-{}.json", support_prefix, digest)
abbrev pub qualification_url : PiReleaseIntent → Text → Text
qualification_url i digest =
    support_prefix i ++ (codes "/qualification-" ++ (digest ++ codes ".json"))

-- BTreeSet::insert, on a list in strict order
unfoldable pub insert_origin : Text → List Text → List Text
insert_origin origin [] = origin ∷ []
insert_origin origin (first ∷ rest) =
    let later = insert_origin origin rest in
    if text_eq origin first
    then first ∷ rest
    else if text_lt origin first
    then origin ∷ first ∷ rest
    else first ∷ later

module _ (x : Externals) where
  -- the calls of `add`, in order
  unfoldable pub add_urls : List Text → List Text → Core (List Text)
  add_urls origins [] = ok origins
  add_urls origins (value ∷ values) = do
    url ← ok_or invalid_catalog (x.parse_url value)
    add_urls (insert_origin url.origin origins) values

abbrev pub artifact_urls : List ArtifactDescriptor → List Text
artifact_urls = map (λ (a : ArtifactDescriptor). a.url)

abbrev pub component_urls : List CatalogComponentRecord → List Text
component_urls [] = []
component_urls (k ∷ ks) = artifact_urls k.artifacts ++ component_urls ks

-- the URLs of a profile and of the qualification, in the order of `payload`
abbrev pub intent_urls : PiReleaseProfile → Text → List Text
intent_urls p qualification_url =
    p.installer_manifest.url
    ∷ p.installer_lock.url
    ∷ p.pi_manifest.url
    ∷ qualification_url
    ∷ (component_urls p.components
        ++ map (λ (k : LockedPackageRecord). k.resolved_url) p.locked_packages)

abbrev pub descriptors : PiReleaseProfile → List ImmutableFileDescriptor
descriptors p = p.installer_manifest ∷ p.installer_lock ∷ p.pi_manifest ∷ []

unfoldable pub check_support : List ImmutableFileDescriptor → Text → Core (Unit {0})
check_support [] tag = ok tt
check_support (d ∷ ds) tag = do
  name ← pi_support_asset_name d.url d.sha256 tag
  check_support ds tag

-- the wire struct; its profile is a JSON value
pub record IntentWire (Value : Type 0) : Type 0 where
  pub schema_version : ℕ
  pub sequence : Text
  pub tag : Text
  pub generated_at : Text
  pub expires_at : Text
  pub title : Text
  pub notes : Text
  pub profile : Value

-- "0".repeat(64)
abbrev pub zero_digest : Text
zero_digest = codes "0000000000000000000000000000000000000000000000000000000000000000"

module _ (x : Externals) (c : AssemblyExternals) where
  -- PiReleaseIntentV2::payload
  unfoldable pub intent_payload : PiReleaseIntent → QualificationDescriptor → Core CatalogPayload
  intent_payload i qualification = do
    origins ← add_urls x [] (intent_urls i.profile qualification.url)
    bytes ← ok_or invalid_catalog (
        c.draft_to_vec (record {
          sequence = i.sequence;
          generated_at = i.generated_at;
          expires_at = i.expires_at;
          consumer_requirement = i.profile.consumer_requirement;
          allowed_origins = origins;
          version = i.profile.pi_package.version;
          target = i.profile.target;
          title = i.title;
          notes = i.notes;
          components = i.profile.components;
          profile = i.profile;
          qualification = qualification;
        }))
    payload_from_json x bytes

  -- the JSON value of the profile, written back to bytes
  module _ (Value : Type 0) (value_to_vec : Value → Option Text) where
    -- PiReleaseIntentV2::from_json, after the decoder
    unfoldable pub admit_intent : IntentWire Value → Core PiReleaseIntent
    admit_intent w = do
      require (w.schema_version == 2)
      sequence ← parse_nonzero_decimal w.sequence
      tag ← parse_tag w.tag sequence
      generated_at ← parse_timestamp x w.generated_at
      expires_at ← parse_timestamp x w.expires_at
      bytes ← ok_or invalid_catalog (value_to_vec w.profile)
      profile ← profile_from_json x c.profile_from_slice bytes
      require (text_lt generated_at expires_at)
      require (text_eq profile.node_version (codes "22.19.0"))
      check_support (descriptors profile) tag
      let intent : PiReleaseIntent = record {
        schema_version = 2;
        sequence = w.sequence;
        tag = tag;
        generated_at = generated_at;
        expires_at = expires_at;
        title = w.title;
        notes = w.notes;
        profile = profile;
      }
      placeholder ← intent_payload intent (record {
        url = qualification_url intent zero_digest;
        size_bytes = codes "1";
        sha256 = zero_digest;
      })
      ok intent

    unfoldable pub intent_from_json :
        (Text → Option (IntentWire Value)) → Text → Core PiReleaseIntent
    intent_from_json from_slice bytes = do
      require_bounded_json x bytes
      wire ← ok_or invalid_catalog (from_slice bytes)
      admit_intent wire
