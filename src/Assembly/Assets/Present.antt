-- ===== src/Assembly/Assets/Present.antt =====
-- crates/catalog-core/src/bundle.rs: every file that an installer release names is an asset of its bundle.
use mathlib.Core.Path.{subst}
use fluxsemble_runtime_catal.Base.{
  ◌≡◌, sym, [], ◌∷◌, ◌++◌, ok, Among, All, find-Among, ok_or-eq-ok, ==_iff, Ensures, Ensures-bind,
  Ensures-ensure, Ensures-last, Ensures-ok, Ensures-for_each,
}
use fluxsemble_runtime_catal.Strings.{text_eq}
use fluxsemble_runtime_catal.Strings.Decimal.{to_string}
use fluxsemble_runtime_catal.Strings.Split.{text_eq_sound}
use fluxsemble_runtime_catal.Catalog.Records.{
  CatalogPayload, CatalogProviderRecord, CatalogReleaseRecord, ProviderExtension,
  PiInstallerLockMetadata, ImmutableFileDescriptor,
}
use fluxsemble_runtime_catal.Catalog.BundleRecords.{ReleaseAsset, SignedReleaseBundleManifest}
use fluxsemble_runtime_catal.Catalog.Require.{invalid_catalog}
use fluxsemble_runtime_catal.Catalog.Source.{tag_prefix}
use fluxsemble_runtime_catal.Assembly.Intent.{pi_support_asset_name, descriptors}
use fluxsemble_runtime_catal.Assembly.Assets.{
  verify_descriptor, verify_metadata, verify_extension, verify_pi_release_bundle_assets,
}

-- the file at the descriptor's URL is an asset of its size and digest
abbrev pub HasAsset : SignedReleaseBundleManifest → ImmutableFileDescriptor → Type 0
HasAsset m d =
    (a : ReleaseAsset) × Among a m.assets
    × (pi_support_asset_name d.url d.sha256 m.tag ≡ ok a.name)
    × (a.size ≡ d.size_bytes)
    × (a.sha256 ≡ d.sha256)

-- the manifest is that of this sequence and this qualification, and has the four support files
pub record IsSupported (p : CatalogPayload) (m : SignedReleaseBundleManifest)
    (k : PiInstallerLockMetadata) : Type 0 where
  pub tagged : m.tag ≡ tag_prefix ++ to_string p.sequence
  pub qualified : m.qualification_sha256 ≡ k.qualification.sha256
  pub present : All (HasAsset m) (descriptors k.profile ++ (k.qualification ∷ []))

-- what a release asks of the bundle
abbrev pub Supported : CatalogPayload → SignedReleaseBundleManifest → ProviderExtension → Type 0
Supported p m ProviderExtension.none = Unit
Supported p m (ProviderExtension.pi k) = Unit
Supported p m (ProviderExtension.pi_installer_lock k) = IsSupported p m k

descriptor_lem :
    (m : SignedReleaseBundleManifest) (d : ImmutableFileDescriptor)
    → Ensures (λ _. HasAsset m d) (verify_descriptor m d)
unfolding verify_descriptor
descriptor_lem m d = Ensures-bind _ _ λ name named. Ensures-bind _ _ λ asset found.
    Ensures-ensure _ _ _ λ sized. Ensures-last _ _ λ hashed.
      let (among, same) =
        find-Among (λ (a : ReleaseAsset). text_eq a.name name) m.assets asset
          (ok_or-eq-ok invalid_catalog _ found) in
      (
        asset,
        among,
        subst (λ t. pi_support_asset_name d.url d.sha256 m.tag ≡ ok t)
            (sym (text_eq_sound asset.name name same)) named,
        (==_iff _ _).0 sized,
        text_eq_sound _ _ hashed,
      )

metadata_lem :
    (p : CatalogPayload) (m : SignedReleaseBundleManifest) (k : PiInstallerLockMetadata)
    → Ensures (λ _. IsSupported p m k) (verify_metadata p m k)
unfolding verify_metadata
metadata_lem p m k = Ensures-ensure _ _ _ λ tagged. Ensures-ensure _ _ _ λ qualified. record {
  at = λ u h. record {
    tagged = text_eq_sound _ _ tagged;
    qualified = text_eq_sound _ _ qualified;
    present =
        (Ensures-for_each (HasAsset m) (verify_descriptor m) (descriptor_lem m)
            (descriptors k.profile ++ (k.qualification ∷ []))).at
          u h;
  };
}

extension_lem :
    (p : CatalogPayload) (m : SignedReleaseBundleManifest) (e : ProviderExtension)
    → Ensures (λ _. Supported p m e) (verify_extension p m e)
extension_lem p m ProviderExtension.none = Ensures-ok tt tt
extension_lem p m (ProviderExtension.pi k) = Ensures-ok tt tt
extension_lem p m (ProviderExtension.pi_installer_lock k) = metadata_lem p m k

-- Where the check passes, the manifest serves every installer release of the catalog: it has the tag of
-- the catalog's sequence and the digest of the release's qualification, and each of the four support
-- files is an asset under the name in its URL, with its size and its digest.
pub bundle_assets_lem :
    (p : CatalogPayload) (m : SignedReleaseBundleManifest)
    → Ensures
        (λ _.
          All
            (λ (provider : CatalogProviderRecord).
              All
                (λ (release : CatalogReleaseRecord). Supported p m release.provider_extension)
                provider.releases)
            p.providers)
        (verify_pi_release_bundle_assets p m)
unfolding verify_pi_release_bundle_assets
bundle_assets_lem p m =
    Ensures-for_each
      (λ (provider : CatalogProviderRecord).
        All (λ (release : CatalogReleaseRecord). Supported p m release.provider_extension)
          provider.releases)
      _
      (λ provider.
        Ensures-for_each
          (λ (release : CatalogReleaseRecord). Supported p m release.provider_extension) _
          (λ release. extension_lem p m release.provider_extension) provider.releases)
      p.providers
