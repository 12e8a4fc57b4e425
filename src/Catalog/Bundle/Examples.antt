-- ===== src/Catalog/Bundle/Examples.antt =====
-- crates/catalog-core/src/bundle.rs, source.rs: a signed release of one asset, on concrete data.
use fluxsemble_runtime_catal.Base.{
  ◌≡◌, inl, refl, [], ◌∷◌, Text, codes, ok, err, ◌>>=◌, ensure, Ensures,
}
use fluxsemble_runtime_catal.Strings.{text_eq, text_lt, strip_prefix, starts_with, split}
use fluxsemble_runtime_catal.Strings.Decimal.{to_string, parse_u64}
use fluxsemble_runtime_catal.Catalog.Require.{invalid_catalog}
use fluxsemble_runtime_catal.Catalog.Parse.{parse_nonzero_decimal}
use fluxsemble_runtime_catal.Catalog.Source.{
  is_lower_hex, valid_relative_path, valid_commit_sha, valid_sha256_hex, valid_bounded_id,
  parse_commit_sha, parse_sha256_hex, parse_bounded_id, parse_tag, parse_tag_without_sequence,
}
use fluxsemble_runtime_catal.Catalog.BundleRecords.{
  BundleEntryWire, BundleInventoryWire, BundleInventory, BundleEntry, ReleaseAssetWire,
  ReleaseAsset, SignedReleaseBundleManifestWire, SignedReleaseBundleManifest, signed_release,
  owner_read_only_regular_file,
}
use fluxsemble_runtime_catal.Catalog.Bundle.{
  bounded_total, valid_release_asset_name, valid_signature_text, parse_bundle_path,
  parse_asset_name, parse_signature_text, find_entry, has_entry, fits_kind, admit_bundle_entry,
  admit_inventory, admit_asset, admit_signature, is_reserved, admit_manifest,
  verify_signed_release_inventory,
}
use fluxsemble_runtime_catal.Catalog.Bundle.Admitted.{
  IsInventory, IsManifest, admit_inventory-IsInventory, admit_manifest-IsManifest,
}
use fluxsemble_runtime_catal.Catalog.Bundle.Coverage.{Accounted, verified_entries-Accounted}

abbrev pub zeros : Text
zeros = codes "0000000000000000000000000000000000000000000000000000000000000000"

abbrev entry_of : Text → BundleEntryWire
entry_of path = record {
  relative_path = path;
  mode = owner_read_only_regular_file;
  size = 9;
  sha256 = zeros;
}

abbrev inventory_wire : BundleInventoryWire
inventory_wire = record {
  schema_version = 1;
  kind = signed_release;
  entries =
      entry_of (codes "app.tar")
      ∷ entry_of (codes "catalog-v1.json")
      ∷ entry_of (codes "checksums-sha256.txt")
      ∷ entry_of (codes "signed-release-bundle-manifest-v1.json")
      ∷ [];
}

abbrev admitted_entry : Text → BundleEntry
admitted_entry path = record {
  relative_path = path;
  mode = owner_read_only_regular_file;
  size = 9;
  sha256 = zeros;
}

abbrev inventory : BundleInventory
inventory = record {
  schema_version = 1;
  kind = signed_release;
  entries =
      admitted_entry (codes "app.tar")
      ∷ admitted_entry (codes "catalog-v1.json")
      ∷ admitted_entry (codes "checksums-sha256.txt")
      ∷ admitted_entry (codes "signed-release-bundle-manifest-v1.json")
      ∷ [];
}

abbrev pub asset_wire : Text → ReleaseAssetWire
asset_wire name = record { name = name; size = 9; sha256 = zeros }

abbrev pub asset : Text → ReleaseAsset
asset name = record { name = name; size = 9; sha256 = zeros }

abbrev commit : Text
commit = codes "0123456789abcdef0123456789abcdef01234567"

abbrev manifest_wire : SignedReleaseBundleManifestWire
manifest_wire = record {
  schema_version = 1;
  source_commit = commit;
  source_tree_sha256 = zeros;
  qualification_sha256 = zeros;
  tag = codes "catalog-v1-sequence-7";
  catalog_envelope = asset_wire (codes "catalog-v1.json");
  assets = asset_wire (codes "app.tar") ∷ [];
  signature = record { key_id = codes "key-1"; signature = codes "c2ln" };
}

abbrev manifest : SignedReleaseBundleManifest
manifest = record {
  schema_version = 1;
  source_commit = commit;
  source_tree_sha256 = zeros;
  qualification_sha256 = zeros;
  tag = codes "catalog-v1-sequence-7";
  catalog_envelope = asset (codes "catalog-v1.json");
  assets = asset (codes "app.tar") ∷ [];
  signature = record { key_id = codes "key-1"; signature = codes "c2ln" };
}

inventory_admitted : admit_inventory inventory_wire ≡ ok inventory
unfolding admit_inventory ◌>>=◌ ensure admit_bundle_entry parse_bundle_path valid_relative_path
    starts_with split text_eq parse_sha256_hex valid_sha256_hex is_lower_hex text_lt bounded_total
    fits_kind has_entry valid_release_asset_name strip_prefix
inventory_admitted = refl

manifest_admitted : admit_manifest manifest_wire ≡ ok manifest
unfolding admit_manifest ◌>>=◌ ensure admit_asset parse_asset_name valid_release_asset_name text_eq
    parse_sha256_hex valid_sha256_hex is_lower_hex is_reserved bounded_total parse_commit_sha
    valid_commit_sha parse_tag_without_sequence strip_prefix parse_nonzero_decimal admit_signature
    parse_signature_text valid_signature_text parse_bounded_id parse_tag valid_bounded_id parse_u64
    to_string text_lt
manifest_admitted = refl

inventory_verified : verify_signed_release_inventory inventory manifest ≡ ok tt
unfolding verify_signed_release_inventory ◌>>=◌ ensure find_entry text_eq
inventory_verified = refl

-- an inventory that lacks the checksums file is refused
lacking_refused :
    admit_inventory (record {
      schema_version = 1;
      kind = signed_release;
      entries = entry_of (codes "catalog-v1.json") ∷ [];
    })
    ≡ err invalid_catalog
unfolding admit_inventory ◌>>=◌ ensure admit_bundle_entry parse_bundle_path valid_relative_path
    starts_with split text_eq parse_sha256_hex valid_sha256_hex is_lower_hex bounded_total fits_kind
    has_entry
lacking_refused = refl

inventory-IsInventory : IsInventory inventory
inventory-IsInventory = (admit_inventory-IsInventory inventory_wire).at inventory inventory_admitted

manifest-IsManifest : IsManifest manifest
manifest-IsManifest = (admit_manifest-IsManifest manifest_wire).at manifest manifest_admitted

verified_entries-Accounted_example : Accounted manifest (admitted_entry (codes "app.tar"))
verified_entries-Accounted_example =
    verified_entries-Accounted inventory manifest inventory-IsInventory manifest-IsManifest
      inventory_verified (admitted_entry (codes "app.tar")) (inl refl)

admit_inventory-IsInventory_example : Ensures IsInventory (admit_inventory inventory_wire)
admit_inventory-IsInventory_example = admit_inventory-IsInventory inventory_wire
