-- ===== src/Catalog/Bundle/Admitted.antt =====
-- crates/catalog-core/src/bundle.rs: what holds of an admitted inventory and of an admitted manifest.
use fluxsemble_runtime_catal.Base.{
  ℕ, ◌+◌, ◌≤◌, ◌<◌, ◌≡◌, ◌==◌, length-traverse, true, false, not, ◌&&◌, List, [], ◌∷◌, map, arith,
  All, Pairs, any, and_parts, not_parts, or_false_parts, length, Ensures, Ensures-bind, Ensures-ok,
  Ensures-ensure, traverse-All, leb, ==_iff,
}
use fluxsemble_runtime_catal.Strings.{is_empty, text_lt}
use fluxsemble_runtime_catal.Strings.Order.{text_lt_trans, Pairs-of_all_window}
use fluxsemble_runtime_catal.Strings.Split.{text_eq_sound}
use fluxsemble_runtime_catal.Catalog.Require.{bounded_nonempty}
use fluxsemble_runtime_catal.Catalog.BundleRecords.{
  BundleEntryWire, BundleEntry, BundleInventoryWire, BundleInventory, ReleaseAssetWire,
  ReleaseAsset, SignedReleaseBundleManifestWire, SignedReleaseBundleManifest,
}
use fluxsemble_runtime_catal.Catalog.Bundle.{
  max_bundle_entries, max_bundle_object_bytes, max_bundle_total_bytes, catalog_envelope_name,
  fits_kind, is_reserved, admit_bundle_entry, admit_inventory, admit_asset, admit_manifest,
}
use fluxsemble_runtime_catal.Catalog.Bundle.Kinds.{Objects, fits_kind-Objects}
use fluxsemble_runtime_catal.Catalog.Bundle.Bounds.{sum, bounded_total_iff}

-- a size that one object may have
abbrev pub IsSize : ℕ → Type 0
IsSize size = (0 < size) × (size ≤ max_bundle_object_bytes)

abbrev pub EntryBefore : BundleEntry → BundleEntry → Type 0
EntryBefore a b = text_lt a.relative_path b.relative_path ≡ true

abbrev pub AssetBefore : ReleaseAsset → ReleaseAsset → Type 0
AssetBefore a b = text_lt a.name b.name ≡ true

pub record IsInventory (i : BundleInventory) : Type 0 where
  pub schema_version : i.schema_version ≡ 1
  pub entries_bounded : length i.entries ≤ max_bundle_entries
  pub entries_sized : All (λ (e : BundleEntry). IsSize e.size) i.entries
  pub entries_sorted : Pairs EntryBefore i.entries
  pub total_bounded : sum (map (λ (e : BundleEntry). e.size) i.entries) ≤ max_bundle_total_bytes
  pub kind_fits : fits_kind i.kind i.entries ≡ true
  pub kind_objects : Objects i.kind i.entries

pub record IsManifest (m : SignedReleaseBundleManifest) : Type 0 where
  pub schema_version : m.schema_version ≡ 1
  pub envelope_named : m.catalog_envelope.name ≡ catalog_envelope_name
  pub assets_sized : All (λ (a : ReleaseAsset). IsSize a.size) m.assets
  pub assets_sorted : Pairs AssetBefore m.assets
  pub none_reserved : All (λ (a : ReleaseAsset). is_reserved a.name ≡ false) m.assets
  pub total_bounded :
      m.catalog_envelope.size + sum (map (λ (a : ReleaseAsset). a.size) m.assets)
      ≤ max_bundle_total_bytes

IsSize-admissible : (n : ℕ) → (not (n == 0) && leb n max_bundle_object_bytes) ≡ true → IsSize n
IsSize-admissible n h = ground (arith, h)

none_of :
    (assets : List ReleaseAsset)
    → any (λ (a : ReleaseAsset). is_reserved a.name) assets ≡ false
    → All (λ (a : ReleaseAsset). is_reserved a.name ≡ false) assets
none_of [] h = tt
none_of (a ∷ assets) h =
    let (first, rest) = or_false_parts (is_reserved a.name) _ h in (first, none_of assets rest)

admit_bundle_entry_sized :
    (w : BundleEntryWire) → Ensures (λ (e : BundleEntry). IsSize e.size) (admit_bundle_entry w)
unfolding admit_bundle_entry
admit_bundle_entry_sized w = Ensures-ensure _ _ _ λ sized.
    Ensures-bind _ _
      λ path _. Ensures-bind _ _ λ sha256 _. Ensures-ok _ (IsSize-admissible w.size sized)

admit_asset_sized :
    (w : ReleaseAssetWire) → Ensures (λ (a : ReleaseAsset). IsSize a.size) (admit_asset w)
unfolding admit_asset
admit_asset_sized w = Ensures-ensure _ _ _ λ sized.
    Ensures-bind _ _
      λ name _. Ensures-bind _ _ λ sha256 _. Ensures-ok _ (IsSize-admissible w.size sized)

at_most :
    (ws : List BundleEntryWire) (entries : List BundleEntry)
    → length entries ≡ length ws
    → bounded_nonempty ws max_bundle_entries ≡ true
    → length entries ≤ max_bundle_entries
at_most ws entries same h =
    let (_, few) = and_parts (not (is_empty ws)) (leb (length ws) max_bundle_entries) h in
    ground (arith, same, few)

-- An admitted inventory has schema 1, at most 32768 entries of at most 8 GiB, none empty, strictly
-- sorted by path, at most 64 GiB in sum, and the entries of its kind: for verified inputs their
-- record, every other entry being under `objects/` and its own digest; for a signed release the
-- envelope, the checksums and the manifest, every entry having a file name of 1 to 255 printable ASCII
-- bytes that is not the record's.
pub admit_inventory-IsInventory :
    (w : BundleInventoryWire) → Ensures IsInventory (admit_inventory w)
unfolding admit_inventory
admit_inventory-IsInventory w = Ensures-ensure _ _ _ λ schema. Ensures-ensure _ _ _ λ bounded.
    Ensures-bind _ _ λ entries each. Ensures-ensure _ _ _ λ sorted. Ensures-ensure _ _ _ λ total.
      Ensures-ensure _ _ _ λ fits. Ensures-ok _ (record {
        schema_version = (==_iff _ _).0 schema;
        entries_bounded =
            at_most w.entries entries (length-traverse admit_bundle_entry w.entries entries each)
              bounded;
        entries_sized =
            traverse-All {P = λ (e : BundleEntry). IsSize e.size} admit_bundle_entry
              (λ a b h. (admit_bundle_entry_sized a).at b h) w.entries each;
        entries_sorted =
            Pairs-of_all_window (λ (a b : BundleEntry). text_lt a.relative_path b.relative_path)
              (λ a b c. text_lt_trans a.relative_path b.relative_path c.relative_path) entries
              sorted;
        total_bounded = (bounded_total_iff (map (λ (e : BundleEntry). e.size) entries)).0 total;
        kind_fits = fits;
        kind_objects = fits_kind-Objects w.kind entries fits;
      })

-- An admitted manifest has schema 1 and the catalog envelope under its fixed name, and its assets,
-- none empty and none above 8 GiB, are strictly sorted by name, carry no reserved name, and are at
-- most 64 GiB in sum with the envelope.
pub admit_manifest-IsManifest :
    (w : SignedReleaseBundleManifestWire) → Ensures IsManifest (admit_manifest w)
unfolding admit_manifest
admit_manifest-IsManifest w = Ensures-ensure _ _ _ λ schema. Ensures-ensure _ _ _ λ bounded.
    Ensures-bind _ _ λ envelope _. Ensures-ensure _ _ _ λ named. Ensures-bind _ _ λ assets each.
      Ensures-ensure _ _ _ λ sorted. Ensures-ensure _ _ _ λ free. Ensures-ensure _ _ _ λ total.
        Ensures-bind _ _ λ commit _. Ensures-bind _ _ λ tree _. Ensures-bind _ _ λ qualification _.
          Ensures-bind _ _ λ tag _. Ensures-bind _ _ λ signature _. Ensures-ok _ (record {
            schema_version = (==_iff _ _).0 schema;
            envelope_named = text_eq_sound envelope.name catalog_envelope_name named;
            assets_sized =
                traverse-All {P = λ (a : ReleaseAsset). IsSize a.size} admit_asset
                  (λ a b h. (admit_asset_sized a).at b h) w.assets each;
            assets_sorted =
                Pairs-of_all_window (λ (a b : ReleaseAsset). text_lt a.name b.name)
                  (λ a b c. text_lt_trans a.name b.name c.name) assets sorted;
            none_reserved = none_of assets (not_parts _ free);
            total_bounded =
                (bounded_total_iff (envelope.size ∷ map (λ (a : ReleaseAsset). a.size) assets)).0
                  total;
          })
