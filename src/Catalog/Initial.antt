-- ===== src/Catalog/Initial.antt =====
-- crates/catalog-core/src/source.rs: the release intents and source records of the first format. A JSON
-- value is a type that is a parameter; the value that `try_from_wire` builds is the record InitialDraft
-- of its fields.
pub mod Admitted
pub mod Examples
use fluxsemble_runtime_catal.Base.{
  ℕ, Bool, true, false, ◌&&◌, ◌==◌, not, Option, none, some, List, [], ◌∷◌, Text, codes, ok, ◌>>=◌,
  ◌>>◌, ok_or, find, length,
}
use fluxsemble_runtime_catal.Strings.{text_eq, text_lt}
use fluxsemble_runtime_catal.Strings.Decimal.{to_string}
use fluxsemble_runtime_catal.Catalog.Externals.{Externals}
use fluxsemble_runtime_catal.Catalog.Require.{Core, invalid_catalog, require}
use fluxsemble_runtime_catal.Catalog.Records.{
  CatalogTimestamp, CatalogTarget, linux_x86_64, CatalogComponentRecord, CatalogReleaseRecord,
  CatalogProviderRecord, CatalogPayload,
}
use fluxsemble_runtime_catal.Catalog.Parse.{parse_nonzero_decimal, parse_timestamp}
use fluxsemble_runtime_catal.Catalog.Release.{payload_from_json}
use fluxsemble_runtime_catal.Catalog.Source.{
  exact_fluxsemble_requirement, parse_tag, parse_version_requirement, require_bounded_json,
}

abbrev pub pi_provider : Text
pi_provider = codes "builtin:pi"

abbrev pub node_component : Text
node_component = codes "component:node"

abbrev pub pi_component : Text
pi_component = codes "component:pi"

pub record ReleaseSemanticsWire (Value : Type 0) : Type 0 where
  pub provider : Text
  pub allowed_origins : List Text
  pub release : Value

pub record ReleaseIntentWire (Value : Type 0) : Type 0 where
  pub sequence : Text
  pub tag : Text
  pub generated_at : Text
  pub expires_at : Text
  pub fluxsemble_requirement : Text
  pub release : ReleaseSemanticsWire Value

-- the fields of the JSON value of a payload with one provider and one release
pub record InitialDraft (Value : Type 0) : Type 0 where
  pub sequence : Text
  pub generated_at : Text
  pub expires_at : Text
  pub provider_id : Text
  pub allowed_origins : List Text
  pub release : Value

-- InitialPiReleaseIntentV1; its semantics are a catalog
pub record InitialIntent : Type 0 where
  pub sequence : ℕ
  pub tag : Text
  pub generated_at : CatalogTimestamp
  pub expires_at : CatalogTimestamp
  pub fluxsemble_requirement : Text
  pub release : CatalogPayload

-- slice::first
abbrev pub first : {A : Type 0} → List A → Option A
first [] = none
first (a ∷ rest) = some a

abbrev pub is_linux_x86_64 : CatalogTarget → Bool
is_linux_x86_64 linux_x86_64 = true

-- one range, which is the exact requirement
abbrev pub is_exact_range : List Text → Bool
is_exact_range (range ∷ []) = text_eq range exact_fluxsemble_requirement
is_exact_range _ = false

unfoldable pub find_component : Text → List CatalogComponentRecord → Option CatalogComponentRecord
find_component id = find (λ (k : CatalogComponentRecord). text_eq k.component_id id)

abbrev pub version_of : Option CatalogComponentRecord → Option Text
version_of none = none
version_of (some node) = some node.version

abbrev pub node_of : List CatalogComponentRecord → Option Text
node_of components = version_of (find_component node_component components)

abbrev pub node_of_first : List CatalogReleaseRecord → Option Text
node_of_first [] = none
node_of_first (release ∷ _) = node_of release.components

-- InitialPiReleaseSemanticsV1::node_version, of the providers of the catalog; `none` stands for the panic
-- of `expect` or of an index
abbrev pub node_of_providers : List CatalogProviderRecord → Option Text
node_of_providers [] = none
node_of_providers (provider ∷ _) = node_of_first provider.releases

unfoldable pub node_version : CatalogPayload → Option Text
node_version catalog = node_of_providers catalog.providers

-- the checks on the release
unfoldable pub check_release : CatalogReleaseRecord → Core (Unit {0})
check_release release = do
  require (is_linux_x86_64 release.target)
  require (is_exact_range release.compatibility_ranges)
  require (length release.components == 2)
  node ← ok_or invalid_catalog (find_component node_component release.components)
  pi ← ok_or invalid_catalog (find_component pi_component release.components)
  require (text_eq pi.version release.version)
  require (not (text_eq node.component_id pi.component_id))

module _ (x : Externals) (Value : Type 0) (draft_to_vec : InitialDraft Value → Option Text) where
  -- InitialPiReleaseSemanticsV1::try_from_wire
  unfoldable pub admit_semantics :
      ReleaseSemanticsWire Value → ℕ → Text → Text → Core CatalogPayload
  admit_semantics w sequence generated_at expires_at = do
    require (text_eq w.provider pi_provider)
    bytes ← ok_or invalid_catalog (
        draft_to_vec (record {
          sequence = to_string sequence;
          generated_at = generated_at;
          expires_at = expires_at;
          provider_id = w.provider;
          allowed_origins = w.allowed_origins;
          release = w.release;
        }))
    catalog ← payload_from_json x bytes
    provider ← ok_or invalid_catalog (first catalog.providers)
    require (length catalog.providers == 1 && length provider.releases == 1)
    release ← ok_or invalid_catalog (first provider.releases)
    check_release release
    ok catalog

  -- InitialPiReleaseIntentV1::try_from
  unfoldable pub admit_initial_intent : ReleaseIntentWire Value → Core InitialIntent
  admit_initial_intent w = do
    sequence ← parse_nonzero_decimal w.sequence
    tag ← parse_tag w.tag sequence
    generated_at ← parse_timestamp x w.generated_at
    expires_at ← parse_timestamp x w.expires_at
    require (text_lt generated_at expires_at)
    requirement ← parse_version_requirement w.fluxsemble_requirement
    release ← admit_semantics w.release sequence w.generated_at w.expires_at
    ok (record {
      sequence = sequence;
      tag = tag;
      generated_at = generated_at;
      expires_at = expires_at;
      fluxsemble_requirement = requirement;
      release = release;
    })

  unfoldable pub initial_intent_from_json :
      (Text → Option (ReleaseIntentWire Value)) → Text → Core InitialIntent
  initial_intent_from_json from_slice bytes = do
    require_bounded_json x bytes
    wire ← ok_or invalid_catalog (from_slice bytes)
    admit_initial_intent wire
