-- ===== src/Catalog/Admission/Packages.antt =====
-- crates/catalog-core/src/wire.rs: what holds of an admitted shrinkwrap.
use fluxsemble_runtime_catal.Base.{
  pair_eq, ◌≡◌, ap, true, List, [], map, ==_iff, traverse-All, All, Pairs, Pairs-of_map, Pairs-map,
  Ensures, Ensures-bind, Ensures-ok, Ensures-ensure,
}
use fluxsemble_runtime_catal.Strings.{text_lt, all_window}
use fluxsemble_runtime_catal.Strings.Split.{text_class}
use fluxsemble_runtime_catal.Strings.Order.{text_lt_trans, Pairs-of_all_window}
use fluxsemble_runtime_catal.Catalog.Wire.{LockedPackageWire, ShippedShrinkwrapWire}
use fluxsemble_runtime_catal.Catalog.Records.{
  AllowedOrigin, LockedPackageRecord, ShippedShrinkwrapMetadata,
}
use fluxsemble_runtime_catal.Catalog.Require.{coherent_from}
use fluxsemble_runtime_catal.Catalog.Require.Exact.{Agree, coherent_iff}
use fluxsemble_runtime_catal.Catalog.Externals.{Externals}
use fluxsemble_runtime_catal.Catalog.Admission.{identity_entry, admit_package, admit_shrinkwrap}
use fluxsemble_runtime_catal.Catalog.Admission.Artifacts.{
  IsAllowedUrl, allowed_url, IsFile, admit_file-IsFile,
}

-- the package is resolved at an allowed URL
abbrev pub IsPackage : Externals → List AllowedOrigin → LockedPackageRecord → Type 0
IsPackage x origins p = IsAllowedUrl x origins p.resolved_url

-- one name and version stand for one archive
abbrev pub Coherent : LockedPackageRecord → LockedPackageRecord → Type 0
Coherent a b =
    a.name ≡ b.name
    → a.version ≡ b.version
    → (a.resolved_url ≡ b.resolved_url)
      × (a.registry_integrity ≡ b.registry_integrity)
      × (a.archive_sha256 ≡ b.archive_sha256)

abbrev pub PackageBefore : LockedPackageRecord → LockedPackageRecord → Type 0
PackageBefore a b = text_lt a.locator b.locator ≡ true

pub Coherent-packages :
    (packages : List LockedPackageRecord)
    → coherent_from [] (map identity_entry packages) ≡ true
    → Pairs Coherent packages
Coherent-packages packages h =
    Pairs-map
      (λ a b agree name version.
        let p = agree (λ i. (name i, version i)) in
        (ap (λ e. e.0) p, ap (λ e. e.1.0) p, ap (λ e. e.1.1) p))
      packages
      (Pairs-of_map Agree identity_entry packages
        ((coherent_iff (map identity_entry packages)).0 h))

pub sorted_packages :
    (packages : List LockedPackageRecord)
    → all_window (λ (a b : LockedPackageRecord). text_lt a.locator b.locator) packages ≡ true
    → Pairs PackageBefore packages
sorted_packages packages h =
    Pairs-of_all_window (λ a b. text_lt a.locator b.locator)
      (λ a b c. text_lt_trans a.locator b.locator c.locator) packages h

pub record IsShrinkwrap (x : Externals) (origins : List AllowedOrigin)
    (s : ShippedShrinkwrapMetadata) : Type 0 where
  pub lockfile_version : s.lockfile_version ≡ 3
  pub artifact_admitted : IsFile x origins s.artifact
  pub packages_admitted : All (IsPackage x origins) s.locked_packages
  pub packages_sorted : Pairs PackageBefore s.locked_packages
  pub packages_coherent : Pairs Coherent s.locked_packages

module _ (x : Externals) (origins : List AllowedOrigin) where
  pub admit_package-IsPackage :
      (w : LockedPackageWire) → Ensures (IsPackage x origins) (admit_package x origins w)
  unfolding admit_package
  admit_package-IsPackage w = Ensures-ensure _ _ _ λ _. Ensures-bind _ _ λ url _.
      Ensures-ensure _ _ _ λ allowed. Ensures-bind _ _ λ locator _. Ensures-bind _ _ λ name _.
        Ensures-bind _ _ λ version _. Ensures-bind _ _ λ integrity _.
          Ensures-bind _ _ λ sha256 _. Ensures-ok _ (allowed_url x origins url allowed)

  pub admit_shrinkwrap-IsShrinkwrap :
      (w : ShippedShrinkwrapWire) → Ensures (IsShrinkwrap x origins) (admit_shrinkwrap x origins w)
  unfolding admit_shrinkwrap
  admit_shrinkwrap-IsShrinkwrap w = Ensures-ensure _ _ _ λ three. Ensures-ensure _ _ _ λ bounded.
      Ensures-bind _ _ λ root _. Ensures-bind _ _ λ artifact admitted.
        Ensures-bind _ _ λ packages each. Ensures-ensure _ _ _ λ sorted.
          Ensures-ensure _ _ _ λ coherent. Ensures-ok _ (record {
            lockfile_version = (==_iff w.lockfile_version 3).0 three;
            artifact_admitted = (admit_file-IsFile x origins w.artifact).at artifact admitted;
            packages_admitted =
                traverse-All (admit_package x origins) (λ a b. (admit_package-IsPackage a).at b)
                  w.locked_packages each;
            packages_sorted = sorted_packages packages sorted;
            packages_coherent = Coherent-packages packages coherent;
          })
