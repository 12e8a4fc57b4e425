-- ===== src/Catalog/Installer/Locks.antt =====
-- crates/catalog-core/src/pi_installer_lock.rs: what holds of an admitted installer lock.
use fluxsemble_runtime_catal.Base.{
  ◌≤◌, ◌≡◌, List, All, Ensures, Ensures-bind, Ensures-ok, Ensures-ensure, traverse-All, arith,
  ==_iff,
}
use fluxsemble_runtime_catal.Catalog.Wire.{PiReleaseProfileWire, PiInstallerLockWire}
use fluxsemble_runtime_catal.Catalog.Records.{
  AllowedOrigin, PiReleaseProfile, PiInstallerLockMetadata,
}
use fluxsemble_runtime_catal.Catalog.Externals.{Externals}
use fluxsemble_runtime_catal.Catalog.Admission.{admit_component, admit_package}
use fluxsemble_runtime_catal.Catalog.Admission.Artifacts.{
  IsComponent, IsFile, admit_component-IsComponent, admit_file-IsFile,
}
use fluxsemble_runtime_catal.Catalog.Admission.Packages.{IsPackage, admit_package-IsPackage}
use fluxsemble_runtime_catal.Catalog.Installer.{
  max_pi_qualification_bytes, admit_profile, admit_installer_lock,
}
use fluxsemble_runtime_catal.Catalog.Installer.Profiles.{IsProfile, validate_profile-IsProfile}

-- the profile is consistent, and all that it refers to is at an allowed origin
pub record IsAdmittedProfile (x : Externals) (origins : List AllowedOrigin) (p : PiReleaseProfile)
    : Type 0 where
  pub schema : p.schema_version ≡ 1
  pub consistent : IsProfile p
  pub manifest_admitted : IsFile x origins p.installer_manifest
  pub lock_admitted : IsFile x origins p.installer_lock
  pub pi_manifest_admitted : IsFile x origins p.pi_manifest
  pub components_admitted : All (IsComponent x origins) p.components
  pub packages_admitted : All (IsPackage x origins) p.locked_packages

pub record IsInstallerLock (x : Externals) (origins : List AllowedOrigin)
    (m : PiInstallerLockMetadata) : Type 0 where
  pub profile_admitted : IsAdmittedProfile x origins m.profile
  pub qualification_admitted : IsFile x origins m.qualification
  pub qualification_small : m.qualification.size_bytes ≤ max_pi_qualification_bytes

module _ (x : Externals) (origins : List AllowedOrigin) where
  pub admit_profile-IsAdmittedProfile :
      (w : PiReleaseProfileWire) → Ensures (IsAdmittedProfile x origins) (admit_profile x w origins)
  unfolding admit_profile
  admit_profile-IsAdmittedProfile w = Ensures-ensure _ _ _ λ schema. Ensures-ensure _ _ _ λ bounded.
      Ensures-ensure _ _ _ λ bounded_packages. Ensures-bind _ _ λ pi_package _.
        Ensures-bind _ _ λ node_version _. Ensures-bind _ _ λ target _.
          Ensures-bind _ _ λ requirement _. Ensures-bind _ _ λ contracts _.
            Ensures-bind _ _ λ root _. Ensures-bind _ _ λ locator _.
              Ensures-bind _ _ λ entrypoint _. Ensures-bind _ _ λ manifest manifest_ok.
                Ensures-bind _ _ λ lock lock_ok. Ensures-bind _ _ λ pi_manifest pi_manifest_ok.
                  Ensures-bind _ _ λ components components_ok. Ensures-bind _ _ λ pi_component _.
                    Ensures-bind _ _ λ pi_artifact _. Ensures-bind _ _ λ node_component _.
                      Ensures-bind _ _ λ node_artifact _. Ensures-bind _ _ λ integrity _.
                        Ensures-bind _ _ λ packages packages_ok. Ensures-bind _ _ λ u consistent.
                          Ensures-bind _ _ λ bytes _. Ensures-ensure _ _ _ λ small.
                            Ensures-ok _ (record {
                              schema = (==_iff w.schema_version 1).0 schema;
                              consistent = validate_profile-IsProfile _ consistent;
                              manifest_admitted =
                                  (admit_file-IsFile x origins w.installer_manifest).at manifest
                                    manifest_ok;
                              lock_admitted =
                                  (admit_file-IsFile x origins w.installer_lock).at lock lock_ok;
                              pi_manifest_admitted =
                                  (admit_file-IsFile x origins w.pi_manifest).at pi_manifest
                                    pi_manifest_ok;
                              components_admitted =
                                  traverse-All (admit_component x origins)
                                    (λ a b. (admit_component-IsComponent x origins a).at b)
                                    w.components components_ok;
                              packages_admitted =
                                  traverse-All (admit_package x origins)
                                    (λ a b. (admit_package-IsPackage x origins a).at b)
                                    w.locked_packages packages_ok;
                            })

  pub admit_installer_lock-IsInstallerLock :
      (w : PiInstallerLockWire)
      → Ensures (IsInstallerLock x origins) (admit_installer_lock x w origins)
  unfolding admit_installer_lock
  admit_installer_lock-IsInstallerLock w = Ensures-bind _ _ λ profile profile_ok.
      Ensures-bind _ _ λ qualification qualification_ok. Ensures-ensure _ _ _ λ small.
        Ensures-ok _ (record {
          profile_admitted = (admit_profile-IsAdmittedProfile w.profile).at profile profile_ok;
          qualification_admitted =
              (admit_file-IsFile x origins w.qualification).at qualification qualification_ok;
          qualification_small = ground (arith, small);
        })
