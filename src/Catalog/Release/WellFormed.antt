-- ===== src/Catalog/Release/WellFormed.antt =====
-- crates/catalog-core/src/wire.rs: what holds of an admitted catalog, in one invariant.
use mathlib.Core.Path.{◌∙◌}
use fluxsemble_runtime_catal.Base.{
  some, ◌≤◌, length, leb, ◌<◌, ◌≡◌, ◌≢◌, ap, true, not, List, map, Text, ok, ==_iff, count_if,
  traverse-All, All, Pairs, Distinct, Among, find-Among, Ensures, Ensures-bind, Ensures-ok,
  Ensures-ensure, arith, pair_eq, and_parts, ok_or-eq-ok, ok_or, ensure-eq-ok, then-eq-ok,
  bind-eq-ok,
}
use fluxsemble_runtime_catal.Strings.{text_eq, text_lt}
use fluxsemble_runtime_catal.Strings.Split.{text_class, text_eq_sound, text_eq_refl}
use fluxsemble_runtime_catal.Strings.Order.{text_lt_trans, Pairs-of_all_window}
use fluxsemble_runtime_catal.Strings.Decimal.{u64_limit}
use fluxsemble_runtime_catal.Catalog.Source.{max_catalog_payload_bytes}
use fluxsemble_runtime_catal.Catalog.Wire.{
  PiCatalogExtensionWire, ProviderExtensionWire, CatalogReleaseWire, CatalogProviderWire,
  CatalogPayloadWire,
}
use fluxsemble_runtime_catal.Catalog.Records.{
  ExactVersion, AllowedOrigin, ArtifactDescriptor, CatalogComponentRecord,
  PiCatalogExtensionMetadata, ProviderExtension, CatalogReleaseRecord, CatalogProviderRecord,
  CatalogPayload, components_eq, target_eq, package_identity_eq, ArtifactInventoryEntry,
}
use fluxsemble_runtime_catal.Catalog.Require.{invalid_catalog}
use fluxsemble_runtime_catal.Catalog.Require.Exact.{all_inserted_iff}
use fluxsemble_runtime_catal.Catalog.Externals.{Externals, Json}
use fluxsemble_runtime_catal.Catalog.Duplicates.{reject_duplicate_json}
use fluxsemble_runtime_catal.Catalog.Duplicates.Exact.{Clean, reject_duplicate_json_iff}
use fluxsemble_runtime_catal.Catalog.Parse.Decimals.{nonzero_decimal_iff}
use fluxsemble_runtime_catal.Catalog.Admission.{admit_component}
use fluxsemble_runtime_catal.Catalog.Admission.Artifacts.{
  IsComponent, ComponentBefore, admit_component-IsComponent,
}
use fluxsemble_runtime_catal.Catalog.Admission.Packages.{
  IsShrinkwrap, admit_shrinkwrap-IsShrinkwrap,
}
use fluxsemble_runtime_catal.Catalog.Installer.{
  pi_root_package_name, all_artifacts, validate_release,
}
use fluxsemble_runtime_catal.Catalog.Installer.Locks.{
  IsInstallerLock, admit_installer_lock-IsInstallerLock,
}
use fluxsemble_runtime_catal.Catalog.Release.{
  pi_provider_id, admit_pi_extension, admit_extension, admit_release, release_key, admit_provider,
  admit_payload, payload_from_json,
}

-- the package that a Pi extension approves is the one that the release ships
pub record IsPiExtension (x : Externals) (origins : List AllowedOrigin) (version : ExactVersion)
    (components : List CatalogComponentRecord) (m : PiCatalogExtensionMetadata) : Type 0 where
  pub name : m.approved_package.name ≡ pi_root_package_name
  pub version_shipped : m.approved_package.version ≡ version
  pub component : CatalogComponentRecord
  pub component_shipped : Among component components
  pub component_named : component.component_id ≡ m.component_id
  pub component_version : component.version ≡ version
  pub artifact : ArtifactDescriptor
  pub artifact_shipped : Among artifact component.artifacts
  pub artifact_named : artifact.artifact_id ≡ m.package_artifact_id
  pub one_entrypoint :
      count_if
        (λ (e : ArtifactInventoryEntry). text_eq e.path m.expected_entrypoint)
        artifact.inventory
      ≡ 1
  pub shrinkwrap : IsShrinkwrap x origins m.shipped_shrinkwrap
  pub shrinkwrap_root : m.shipped_shrinkwrap.root_package ≡ m.approved_package

-- Only the provider "builtin:pi" has an extension, and it always has one.
abbrev pub IsExtension :
    Externals
    → List AllowedOrigin
    → Text
    → ExactVersion
    → List CatalogComponentRecord
    → ProviderExtension
    → Type 0
IsExtension x origins provider version components ProviderExtension.none = provider ≢ pi_provider_id
IsExtension x origins provider version components (ProviderExtension.pi m) =
    (provider ≡ pi_provider_id) × IsPiExtension x origins version components m
IsExtension x origins provider version components (ProviderExtension.pi_installer_lock m) =
    (provider ≡ pi_provider_id)
    × (m.profile.pi_package.version ≡ version)
    × (m.profile.components ≡ components)
    × IsInstallerLock x origins m

pub record IsRelease (x : Externals) (origins : List AllowedOrigin) (provider : Text)
    (r : CatalogReleaseRecord) : Type 0 where
  pub components_admitted : All (IsComponent x origins) r.components
  pub components_sorted : Pairs ComponentBefore r.components
  pub artifacts_distinct :
      Distinct (map (λ (a : ArtifactDescriptor). a.artifact_id) (all_artifacts r.components))
  pub extension_fits : IsExtension x origins provider r.version r.components r.provider_extension

pub record IsProvider (x : Externals) (p : CatalogProviderRecord) : Type 0 where
  pub origins_distinct : Distinct p.allowed_origins
  pub releases_admitted : All (IsRelease x p.allowed_origins p.provider_id) p.releases
  pub releases_distinct : Distinct (map release_key p.releases)

abbrev pub ProviderBefore : CatalogProviderRecord → CatalogProviderRecord → Type 0
ProviderBefore a b = text_lt a.provider_id b.provider_id ≡ true

pub record IsPayload (x : Externals) (p : CatalogPayload) : Type 0 where
  pub schema : p.schema_version ≡ 1
  pub sequence_positive : 0 < p.sequence
  pub sequence_fits : p.sequence < u64_limit
  pub providers_admitted : All (IsProvider x) p.providers
  pub providers_sorted : Pairs ProviderBefore p.providers

module _ (x : Externals) (origins : List AllowedOrigin) where
  admit_pi-IsPiExtension :
      (w : PiCatalogExtensionWire) (version : ExactVersion)
      (components : List CatalogComponentRecord)
      → Ensures
          (IsPiExtension x origins version components)
          (admit_pi_extension x origins w version components)
  unfolding admit_pi_extension
  admit_pi-IsPiExtension w version components = Ensures-bind _ _ λ approved _.
      Ensures-ensure _ _ _ λ named. Ensures-ensure _ _ _ λ versioned.
        Ensures-bind _ _ λ entrypoint _. Ensures-bind _ _ λ component_id _.
          Ensures-bind _ _ λ artifact_id _. Ensures-bind _ _ λ integrity _.
            Ensures-bind _ _ λ manifest _. Ensures-bind _ _ λ shrinkwrap admitted.
              Ensures-ensure _ _ _ λ root. Ensures-bind _ _ λ component found.
                Ensures-ensure _ _ _ λ same_version. Ensures-bind _ _ λ artifact located.
                  Ensures-ensure _ _ _ λ once. Ensures-ensure _ _ _ λ absent.
                    let (shipped, id) =
                      find-Among (λ c. text_eq c.component_id component_id) components component
                        (ok_or-eq-ok invalid_catalog _ found) in
                    let (inside, artifact_named) =
                      find-Among (λ a. text_eq a.artifact_id artifact_id) component.artifacts
                        artifact (ok_or-eq-ok invalid_catalog _ located) in
                    let v = text_eq_sound approved.version version versioned in
                    Ensures-ok _ (record {
                      name = text_eq_sound approved.name pi_root_package_name named;
                      version_shipped = v;
                      component = component;
                      component_shipped = shipped;
                      component_named = text_eq_sound component.component_id component_id id;
                      component_version =
                          text_eq_sound component.version approved.version same_version ∙ v;
                      artifact = artifact;
                      artifact_shipped = inside;
                      artifact_named =
                          text_eq_sound artifact.artifact_id artifact_id artifact_named;
                      one_entrypoint = (==_iff _ 1).0 once;
                      shrinkwrap =
                          (admit_shrinkwrap-IsShrinkwrap x origins w.shipped_shrinkwrap).at
                            shrinkwrap admitted;
                      shrinkwrap_root =
                          (package_identity_eq.same_iff shrinkwrap.root_package approved).0 root;
                    })

  not_pi :
      (provider : Text) → not (text_eq provider pi_provider_id) ≡ true → provider ≢ pi_provider_id
  not_pi provider h e =
      ground (arith, h, text_eq_refl pi_provider_id, ap (λ p. text_eq p pi_provider_id) e)

  admit_extension-IsExtension :
      (w : ProviderExtensionWire) (provider : Text) (version : ExactVersion)
      (components : List CatalogComponentRecord)
      → Ensures
          (IsExtension x origins provider version components)
          (admit_extension x origins w provider version components)
  unfolding admit_extension validate_release
  admit_extension-IsExtension ProviderExtensionWire.none provider version components =
      Ensures-ensure _ _ _ λ other. Ensures-ok _ (not_pi provider other)
  admit_extension-IsExtension (ProviderExtensionWire.pi w) provider version components =
      Ensures-ensure _ _ _ λ pi. Ensures-bind _ _ λ m admitted. Ensures-ok _ (
        text_eq_sound provider pi_provider_id pi,
        (admit_pi-IsPiExtension w version components).at m admitted,
      )
  admit_extension-IsExtension (ProviderExtensionWire.pi_installer_lock w) provider version
        components =
      Ensures-ensure _ _ _ λ pi. Ensures-bind _ _ λ m admitted. Ensures-ensure _ _ _ λ fits.
        let (v, c) = and_parts _ _ fits in
        Ensures-ok _ (
          text_eq_sound provider pi_provider_id pi,
          text_eq_sound m.profile.pi_package.version version v,
          (components_eq.same_iff m.profile.components components).0 c,
          (admit_installer_lock-IsInstallerLock x origins w).at m admitted,
        )

  pub admit_release-IsRelease :
      (provider : Text) (w : CatalogReleaseWire)
      → Ensures (IsRelease x origins provider) (admit_release x origins provider w)
  unfolding admit_release
  admit_release-IsRelease provider w = Ensures-bind _ _ λ version _. Ensures-bind _ _ λ target _.
      Ensures-bind _ _ λ ranges _. Ensures-bind _ _ λ metadata _. Ensures-ensure _ _ _ λ bounded.
        Ensures-bind _ _ λ components admitted. Ensures-ensure _ _ _ λ sorted.
          Ensures-ensure _ _ _ λ unique. Ensures-bind _ _ λ extension fits. Ensures-ok _ (record {
            components_admitted =
                traverse-All (admit_component x origins)
                  (λ a b. (admit_component-IsComponent x origins a).at b) w.components admitted;
            components_sorted =
                Pairs-of_all_window (λ a b. text_lt a.component_id b.component_id)
                  (λ a b c. text_lt_trans a.component_id b.component_id c.component_id) components
                  sorted;
            artifacts_distinct =
                (all_inserted_iff
                    (map (λ (a : ArtifactDescriptor). a.artifact_id) (all_artifacts components))).0
                  unique;
            extension_fits =
                (admit_extension-IsExtension w.provider_extension provider version components).at
                  extension fits;
          })

module _ (x : Externals) where
  admit_provider-IsProvider :
      (w : CatalogProviderWire) → Ensures (IsProvider x) (admit_provider x w)
  unfolding admit_provider
  admit_provider-IsProvider w = Ensures-bind _ _ λ provider _. Ensures-ensure _ _ _ λ bounded.
      Ensures-bind _ _ λ origins _. Ensures-ensure _ _ _ λ unique_origins.
        Ensures-ensure _ _ _ λ bounded_releases. Ensures-bind _ _ λ releases admitted.
          Ensures-ensure _ _ _ λ unique. Ensures-ok _ (record {
            origins_distinct = (all_inserted_iff origins).0 unique_origins;
            releases_admitted =
                traverse-All (admit_release x origins provider)
                  (λ a b. (admit_release-IsRelease x origins provider a).at b) w.releases admitted;
            releases_distinct = (all_inserted_iff (map release_key releases)).0 unique;
          })

  admit_payload-Ensures : (w : CatalogPayloadWire) → Ensures (IsPayload x) (admit_payload x w)
  unfolding admit_payload
  admit_payload-Ensures w = Ensures-ensure _ _ _ λ schema. Ensures-bind _ _ λ sequence decimal.
      Ensures-bind _ _ λ generated_at _. Ensures-bind _ _ λ expires_at _.
        Ensures-bind _ _ λ ranges _. Ensures-ensure _ _ _ λ bounded.
          Ensures-bind _ _ λ providers admitted. Ensures-ensure _ _ _ λ sorted.
            let (positive, fits, _) = (nonzero_decimal_iff w.sequence sequence).0 decimal in
            Ensures-ok _ (record {
              schema = (==_iff w.schema_version 1).0 schema;
              sequence_positive = positive;
              sequence_fits = fits;
              providers_admitted =
                  traverse-All (admit_provider x) (λ a b. (admit_provider-IsProvider a).at b)
                    w.providers admitted;
              providers_sorted =
                  Pairs-of_all_window (λ a b. text_lt a.provider_id b.provider_id)
                    (λ a b c. text_lt_trans a.provider_id b.provider_id c.provider_id) providers
                    sorted;
            })

  -- A payload that is admitted is well formed: its schema is 1 and its sequence a positive number
  -- below 2 ^ 64; providers, components and artifacts stand in strict order, so none repeats; origins,
  -- releases, inventory paths and the artifact ids of a release are distinct; every URL is https,
  -- without credentials, query or fragment, at an allowed origin; every artifact has bytes; and the
  -- extension of a release is that of its provider and fits its version and components: a Pi package
  -- that the components ship, or an installer lock whose profile is consistent.
  pub admit_payload-IsPayload :
      (w : CatalogPayloadWire) (p : CatalogPayload) → admit_payload x w ≡ ok p → IsPayload x p
  admit_payload-IsPayload w = (admit_payload-Ensures w).at

-- A catalog that is read from bytes has at most 8 MiB of them; they are JSON in which no object repeats
-- a key, at any depth; and the payload is well formed.
pub payload_from_json-IsPayload :
    (x : Externals) (bytes : Text) (p : CatalogPayload)
    → payload_from_json x bytes ≡ ok p
    → (length bytes ≤ max_catalog_payload_bytes)
      × ((j : Json) × (x.json_tree bytes ≡ some j) × Clean j)
      × IsPayload x p
unfolding payload_from_json
payload_from_json-IsPayload x bytes p h =
    let (small, h₁) =
      ensure-eq-ok invalid_catalog (leb (length bytes) max_catalog_payload_bytes) _ h in
    let (unique, h₂) = then-eq-ok (reject_duplicate_json x bytes) _ h₁ in
    let (w, decoded, admitted) =
      bind-eq-ok (ok_or invalid_catalog (x.payload_from_slice bytes)) _ h₂ in
    (
      ground (arith, small),
      (reject_duplicate_json_iff x bytes).0 unique,
      admit_payload-IsPayload x w p admitted,
    )
