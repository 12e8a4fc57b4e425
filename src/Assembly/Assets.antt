-- ===== src/Assembly/Assets.antt =====
-- crates/catalog-core/src/bundle.rs: the assets that an installer release needs in its bundle.
pub mod Present
use fluxsemble_runtime_catal.Base.{
  ◌==◌, Option, List, [], ◌∷◌, ◌++◌, Text, codes, ok, ◌>>=◌, ◌>>◌, ok_or, find, for_each,
}
use fluxsemble_runtime_catal.Strings.{text_eq}
use fluxsemble_runtime_catal.Strings.Decimal.{to_string}
use fluxsemble_runtime_catal.Catalog.Records.{
  CatalogPayload, CatalogProviderRecord, CatalogReleaseRecord, ProviderExtension,
  PiInstallerLockMetadata, ImmutableFileDescriptor,
}
use fluxsemble_runtime_catal.Catalog.BundleRecords.{ReleaseAsset, SignedReleaseBundleManifest}
use fluxsemble_runtime_catal.Catalog.Require.{Core, invalid_catalog, require}
use fluxsemble_runtime_catal.Catalog.Source.{tag_prefix}
use fluxsemble_runtime_catal.Assembly.Intent.{pi_support_asset_name, descriptors}

unfoldable pub verify_descriptor :
    SignedReleaseBundleManifest → ImmutableFileDescriptor → Core (Unit {0})
verify_descriptor m d = do
  name ← pi_support_asset_name d.url d.sha256 m.tag
  asset ← ok_or invalid_catalog (find (λ (a : ReleaseAsset). text_eq a.name name) m.assets)
  require (asset.size == d.size_bytes)
  require (text_eq asset.sha256 d.sha256)

unfoldable pub verify_metadata :
    CatalogPayload → SignedReleaseBundleManifest → PiInstallerLockMetadata → Core (Unit {0})
verify_metadata p m k = do
  require (text_eq m.tag (tag_prefix ++ to_string p.sequence))
  require (text_eq m.qualification_sha256 k.qualification.sha256)
  for_each (verify_descriptor m) (descriptors k.profile ++ (k.qualification ∷ []))

-- an extension of another kind: continue
abbrev pub verify_extension :
    CatalogPayload → SignedReleaseBundleManifest → ProviderExtension → Core (Unit {0})
verify_extension p m ProviderExtension.none = ok tt
verify_extension p m (ProviderExtension.pi k) = ok tt
verify_extension p m (ProviderExtension.pi_installer_lock k) = verify_metadata p m k

unfoldable pub verify_pi_release_bundle_assets :
    CatalogPayload → SignedReleaseBundleManifest → Core (Unit {0})
verify_pi_release_bundle_assets p m =
    for_each
      (λ (provider : CatalogProviderRecord).
        for_each
          (λ (release : CatalogReleaseRecord). verify_extension p m release.provider_extension)
          provider.releases)
      p.providers
