-- ===== src/Catalog/Installer/Profiles.antt =====
-- crates/catalog-core/src/pi_installer_lock.rs: what holds of a profile that `validate` passes.
use fluxsemble_runtime_catal.Base.{
  ◌≡◌, ◌≢◌, ap, true, not, List, [], ◌∷◌, ◌++◌, map, Text, ok, ==_iff, count_if, All, Pairs,
  Distinct, Among, find-Among, any-Among, Ensures, Ensures-bind, Ensures-ok, Ensures-ensure,
  Ensures-last, arith, and_parts, ok_or-eq-ok,
}
use fluxsemble_runtime_catal.Strings.{text_eq, text_lt, all_window}
use fluxsemble_runtime_catal.Strings.Split.{text_eq_sound, text_eq_refl, text_class}
use fluxsemble_runtime_catal.Strings.Order.{text_lt_trans, Pairs-of_all_window}
use fluxsemble_runtime_catal.Catalog.Records.{
  ArtifactInventoryEntry, ArtifactDescriptor, CatalogComponentRecord, LockedPackageRecord,
  PiReleaseProfile,
}
use fluxsemble_runtime_catal.Catalog.Require.{invalid_catalog}
use fluxsemble_runtime_catal.Catalog.Require.Exact.{all_inserted_iff}
use fluxsemble_runtime_catal.Catalog.Admission.Artifacts.{ComponentBefore}
use fluxsemble_runtime_catal.Catalog.Admission.Packages.{
  Coherent, PackageBefore, Coherent-packages, sorted_packages,
}
use fluxsemble_runtime_catal.Catalog.Installer.{
  pi_root_package_name, modules_prefix, all_artifacts, validate_packages, validate_archive,
  validate_node, validate_profile,
}
use fluxsemble_runtime_catal.Catalog.Installer.Locators.{IsLocator, validate_locator_sound}

-- the package stands where its locator says, and is not the root of the installation
abbrev pub IsInstalled : Text → LockedPackageRecord → Type 0
IsInstalled root l = IsLocator l.locator l.name × (l.name ≢ root)

-- the locked package is what one artifact of the profile holds, with one entry point in it
pub record IsArchived (p : PiReleaseProfile) (locked : LockedPackageRecord) : Type 0 where
  pub component : CatalogComponentRecord
  pub component_shipped : Among component p.components
  pub component_named : component.component_id ≡ p.pi_component_id
  pub component_version : component.version ≡ p.pi_package.version
  pub archive : ArtifactDescriptor
  pub archive_shipped : Among archive component.artifacts
  pub archive_named : archive.artifact_id ≡ p.pi_artifact_id
  pub same_bytes : archive.sha256 ≡ locked.archive_sha256
  pub same_url : archive.url ≡ locked.resolved_url
  pub same_integrity : p.registry_integrity ≡ locked.registry_integrity
  pub one_entrypoint :
      count_if (λ (i : ArtifactInventoryEntry). text_eq i.path p.cli_entrypoint) archive.inventory
      ≡ 1

-- the runtime is an artifact of a component with its version
pub record HasNode (p : PiReleaseProfile) : Type 0 where
  pub component : CatalogComponentRecord
  pub component_shipped : Among component p.components
  pub component_named : component.component_id ≡ p.node_component_id
  pub component_version : component.version ≡ p.node_version
  pub artifact : ArtifactDescriptor
  pub artifact_shipped : Among artifact component.artifacts
  pub artifact_named : artifact.artifact_id ≡ p.node_artifact_id

pub record IsProfile (p : PiReleaseProfile) : Type 0 where
  pub pi_named : p.pi_package.name ≡ pi_root_package_name
  pub root_apart : p.installer_root.name ≢ p.pi_package.name
  pub pi_located : p.pi_package_locator ≡ modules_prefix ++ p.pi_package.name
  pub components_apart : p.pi_component_id ≢ p.node_component_id
  pub components_sorted : Pairs ComponentBefore p.components
  pub artifacts_distinct :
      Distinct (map (λ (a : ArtifactDescriptor). a.artifact_id) (all_artifacts p.components))
  pub packages_sorted : Pairs PackageBefore p.locked_packages
  pub packages_coherent : Pairs Coherent p.locked_packages
  pub packages_installed : All (IsInstalled p.installer_root.name) p.locked_packages
  pub locked : LockedPackageRecord
  pub locked_among : Among locked p.locked_packages
  pub locked_at : locked.locator ≡ p.pi_package_locator
  pub locked_name : locked.name ≡ p.pi_package.name
  pub locked_version : locked.version ≡ p.pi_package.version
  pub archived : IsArchived p locked
  pub node : HasNode p

not_same : (s t : Text) → not (text_eq s t) ≡ true → s ≢ t
not_same s t h e = ground (arith, h, text_eq_refl s, ap (λ u. text_eq s u) e)

packages-IsInstalled :
    (root : Text) (packages : List LockedPackageRecord)
    → Ensures (λ _. All (IsInstalled root) packages) (validate_packages root packages)
packages-IsInstalled root [] = Ensures-ok _ tt
packages-IsInstalled root (l ∷ packages) = Ensures-bind _ _ λ u located.
    Ensures-ensure _ _ _ λ apart. record {
      at = λ v rest. (
        (validate_locator_sound l.locator l.name located, not_same l.name root apart),
        (packages-IsInstalled root packages).at v rest,
      );
    }

validate_archive-IsArchived :
    (p : PiReleaseProfile) (locked : LockedPackageRecord)
    → Ensures (λ _. IsArchived p locked) (validate_archive p locked)
unfolding validate_archive
validate_archive-IsArchived p locked = Ensures-bind _ _ λ component found.
    Ensures-ensure _ _ _ λ versioned. Ensures-bind _ _ λ archive located.
      Ensures-ensure _ _ _ λ same. Ensures-last _ _ λ once.
        let (shipped, id) =
          find-Among (λ c. text_eq c.component_id p.pi_component_id) p.components component
            (ok_or-eq-ok invalid_catalog _ found) in
        let (inside, named) =
          find-Among (λ a. text_eq a.artifact_id p.pi_artifact_id) component.artifacts archive
            (ok_or-eq-ok invalid_catalog _ located) in
        let (pair, integrity) =
          and_parts _ (text_eq p.registry_integrity locked.registry_integrity) same in
        let (bytes, url) =
          and_parts (text_eq archive.sha256 locked.archive_sha256)
            (text_eq archive.url locked.resolved_url) pair in
        record {
          component = component;
          component_shipped = shipped;
          component_named = text_eq_sound component.component_id p.pi_component_id id;
          component_version = text_eq_sound component.version p.pi_package.version versioned;
          archive = archive;
          archive_shipped = inside;
          archive_named = text_eq_sound archive.artifact_id p.pi_artifact_id named;
          same_bytes = text_eq_sound archive.sha256 locked.archive_sha256 bytes;
          same_url = text_eq_sound archive.url locked.resolved_url url;
          same_integrity = text_eq_sound p.registry_integrity locked.registry_integrity integrity;
          one_entrypoint = (==_iff _ 1).0 once;
        }

validate_node-HasNode : (p : PiReleaseProfile) → Ensures (λ _. HasNode p) (validate_node p)
unfolding validate_node
validate_node-HasNode p = Ensures-bind _ _ λ component found. Ensures-ensure _ _ _ λ versioned.
    Ensures-last _ _ λ present.
      let (shipped, id) =
        find-Among (λ c. text_eq c.component_id p.node_component_id) p.components component
          (ok_or-eq-ok invalid_catalog _ found) in
      let (artifact, inside, named) =
        any-Among (λ (a : ArtifactDescriptor). text_eq a.artifact_id p.node_artifact_id)
          component.artifacts present in
      record {
        component = component;
        component_shipped = shipped;
        component_named = text_eq_sound component.component_id p.node_component_id id;
        component_version = text_eq_sound component.version p.node_version versioned;
        artifact = artifact;
        artifact_shipped = inside;
        artifact_named = text_eq_sound artifact.artifact_id p.node_artifact_id named;
      }

-- the lists of the profile are in order, and its packages coherent
sorted_components :
    (components : List CatalogComponentRecord)
    → all_window
        (λ (a b : CatalogComponentRecord). text_lt a.component_id b.component_id)
        components
      ≡ true
    → Pairs ComponentBefore components
sorted_components components h =
    Pairs-of_all_window (λ a b. text_lt a.component_id b.component_id)
      (λ a b c. text_lt_trans a.component_id b.component_id c.component_id) components h

validate_profile-Ensures : (p : PiReleaseProfile) → Ensures (λ _. IsProfile p) (validate_profile p)
unfolding validate_profile
validate_profile-Ensures p = Ensures-ensure _ _ _ λ named. Ensures-ensure _ _ _ λ apart.
    Ensures-ensure _ _ _ λ placed. Ensures-ensure _ _ _ λ components_apart.
      Ensures-ensure _ _ _ λ unique_components. Ensures-ensure _ _ _ λ unique.
        Ensures-ensure _ _ _ λ sorted. Ensures-bind _ _ λ each_sorted _.
          Ensures-ensure _ _ _ λ packages_sorted. Ensures-ensure _ _ _ λ coherent.
            Ensures-bind _ _ λ u installed. Ensures-bind _ _ λ locked found.
              Ensures-ensure _ _ _ λ same. Ensures-bind _ _ λ v archived.
                let (among, located) =
                  find-Among (λ l. text_eq l.locator p.pi_package_locator) p.locked_packages locked
                    (ok_or-eq-ok invalid_catalog _ found) in
                let (name, version) =
                  and_parts (text_eq locked.name p.pi_package.name)
                    (text_eq locked.version p.pi_package.version) same in
                record {
                  at = λ w node. record {
                    pi_named = text_eq_sound p.pi_package.name pi_root_package_name named;
                    root_apart = not_same p.installer_root.name p.pi_package.name apart;
                    pi_located =
                        text_eq_sound p.pi_package_locator (modules_prefix ++ p.pi_package.name)
                          placed;
                    components_apart =
                        not_same p.pi_component_id p.node_component_id components_apart;
                    components_sorted = sorted_components p.components sorted;
                    artifacts_distinct =
                        (all_inserted_iff (
                            map (λ (a : ArtifactDescriptor). a.artifact_id)
                              (all_artifacts p.components))).0
                          unique;
                    packages_sorted = sorted_packages p.locked_packages packages_sorted;
                    packages_coherent = Coherent-packages p.locked_packages coherent;
                    packages_installed =
                        (packages-IsInstalled p.installer_root.name p.locked_packages).at u
                          installed;
                    locked = locked;
                    locked_among = among;
                    locked_at = text_eq_sound locked.locator p.pi_package_locator located;
                    locked_name = text_eq_sound locked.name p.pi_package.name name;
                    locked_version = text_eq_sound locked.version p.pi_package.version version;
                    archived = (validate_archive-IsArchived p locked).at v archived;
                    node = (validate_node-HasNode p).at w node;
                  };
                }

-- A profile that passes validation names the Pi package and installs it, under its own name, at the
-- top of the installation, apart from the installation's root; its components and locked packages
-- stand in strict order, with distinct artifact ids, and one name and version stand for one archive;
-- every locked package stands at a locator of its name; the Pi package is one of them, and is the
-- artifact that the profile names, with its one entry point; and the runtime is shipped with it.
pub validate_profile-IsProfile : (p : PiReleaseProfile) → validate_profile p ≡ ok tt → IsProfile p
validate_profile-IsProfile p = (validate_profile-Ensures p).at tt
