-- ===== src/Catalog/Bundle.antt =====
-- crates/catalog-core/src/bundle.rs: transfer inventories, verified inputs and release manifests.
-- A record's JSON decoder is a parameter of its reader; every entry has the one mode "0400".
pub mod Kinds
pub mod Admitted
pub mod Bounds
pub mod Coverage
pub mod Examples
use fluxsemble_runtime_catal.Base.{
  ℕ, ◌+◌, ◌*◌, Bool, true, false, ◌&&◌, ◌||◌, not, Option, none, some, List, [], ◌∷◌, ◌++◌, map,
  Text, codes, ok, err, ◌>>=◌, ◌>>◌, ok_or, leb, ltb, ◌==◌, within, all, any, find, length,
  traverse, if◌then◌else◌,
}
use fluxsemble_runtime_catal.Strings.{
  text_eq, text_lt, is_empty, is_ascii, is_ascii_control, is_ascii_whitespace, contains_byte,
  strip_prefix, all_window,
}
use fluxsemble_runtime_catal.Strings.Decimal.{u64_limit}
use fluxsemble_runtime_catal.Catalog.BundleRecords.{
  BundleKind, BundleMode, InputSourceKind, BundleEntryWire, BundleInventoryWire, BundleEntry,
  BundleInventory, VerifiedInputObjectWire, VerifiedInputBundleWire, VerifiedInputObject,
  VerifiedInputBundle, ReleaseAssetWire, ReleaseBundleSignatureWire,
  SignedReleaseBundleManifestWire, ReleaseAsset, ReleaseBundleSignature,
  SignedReleaseBundleManifest, verified_input, signed_release,
}
use fluxsemble_runtime_catal.Catalog.Externals.{Externals}
use fluxsemble_runtime_catal.Catalog.Require.{Core, invalid_catalog, require, bounded_nonempty}
use fluxsemble_runtime_catal.Catalog.Parse.{validated, parse_artifact_url}
use fluxsemble_runtime_catal.Catalog.Source.{
  valid_relative_path, parse_commit_sha, parse_sha256_hex, parse_bounded_id,
  parse_tag_without_sequence, require_bounded_json,
}

abbrev pub max_bundle_entries : ℕ
max_bundle_entries = 32768

abbrev pub max_bundle_object_bytes : ℕ
max_bundle_object_bytes = 8 * 1024 * 1024 * 1024

abbrev pub max_bundle_total_bytes : ℕ
max_bundle_total_bytes = 64 * 1024 * 1024 * 1024

abbrev pub verified_input_record_name : Text
verified_input_record_name = codes "verified-input-bundle-v1.json"

abbrev pub catalog_envelope_name : Text
catalog_envelope_name = codes "catalog-v1.json"

abbrev pub release_checksums_name : Text
release_checksums_name = codes "checksums-sha256.txt"

abbrev pub release_manifest_name : Text
release_manifest_name = codes "signed-release-bundle-manifest-v1.json"

-- ReleaseAssetName
unfoldable pub valid_release_asset_name : Text → Bool
valid_release_asset_name value =
    not (is_empty value)
    && leb (length value) 255
    && not (text_eq value (codes "."))
    && not (text_eq value (codes ".."))
    && all is_ascii value
    && not (contains_byte b'/' value || contains_byte b'\\' value)
    && not (any (λ b. is_ascii_control b || is_ascii_whitespace b) value)

-- BoundedSignatureText
unfoldable pub valid_signature_text : Text → Bool
valid_signature_text value =
    not (is_empty value)
    && leb (length value) 256
    && all is_ascii value
    && all (λ b. within 33 126 b && not (b == b'\\')) value

unfoldable pub parse_bundle_path : Text → Core Text
parse_bundle_path = validated (λ v. valid_relative_path v 512)

unfoldable pub parse_asset_name : Text → Core Text
parse_asset_name = validated valid_release_asset_name

unfoldable pub parse_signature_text : Text → Core Text
parse_signature_text = validated valid_signature_text

-- the loop over the sizes: checked_add, then the limit
unfoldable pub bounded_total : ℕ → List ℕ → Bool
bounded_total total [] = true
bounded_total total (size ∷ sizes) =
    ltb (total + size) u64_limit
    && leb (total + size) max_bundle_total_bytes
    && bounded_total (total + size) sizes

abbrev pub require_bounded_total : List ℕ → Core (Unit {0})
require_bounded_total sizes = require (bounded_total 0 sizes)

abbrev pub admissible_size : ℕ → Bool
admissible_size size = not (size == 0) && leb size max_bundle_object_bytes

-- binary_search_by_key, on entries in strict order
unfoldable pub find_entry : List BundleEntry → Text → Core BundleEntry
find_entry entries name = ok_or invalid_catalog (find (λ e. text_eq e.relative_path name) entries)

-- find_entry(…).is_ok()
unfoldable pub has_entry : List BundleEntry → Text → Bool
has_entry entries name = any (λ e. text_eq e.relative_path name) entries

abbrev pub addresses : Option Text → Text → Bool
addresses none sha256 = false
addresses (some digest) sha256 = text_eq digest sha256

-- the condition of `require_kind_objects`
unfoldable pub fits_kind : BundleKind → List BundleEntry → Bool
fits_kind verified_input entries =
    has_entry entries verified_input_record_name
    && all
        (λ (e : BundleEntry).
          text_eq e.relative_path verified_input_record_name
          || addresses (strip_prefix (codes "objects/") e.relative_path) e.sha256)
        entries
fits_kind signed_release entries =
    has_entry entries catalog_envelope_name
    && has_entry entries release_checksums_name
    && has_entry entries release_manifest_name
    && all
        (λ (e : BundleEntry).
          not (text_eq e.relative_path verified_input_record_name)
          && valid_release_asset_name e.relative_path)
        entries

abbrev pub paths_sorted : List BundleEntry → Bool
paths_sorted = all_window (λ a b. text_lt a.relative_path b.relative_path)

unfoldable pub admit_bundle_entry : BundleEntryWire → Core BundleEntry
admit_bundle_entry w = do
  require (admissible_size w.size)
  relative_path ← parse_bundle_path w.relative_path
  sha256 ← parse_sha256_hex w.sha256
  ok (record { relative_path = relative_path; mode = w.mode; size = w.size; sha256 = sha256 })

unfoldable pub admit_inventory : BundleInventoryWire → Core BundleInventory
admit_inventory w = do
  require (w.schema_version == 1)
  require (bounded_nonempty w.entries max_bundle_entries)
  entries ← traverse admit_bundle_entry w.entries
  require (paths_sorted entries)
  require_bounded_total (map (λ (e : BundleEntry). e.size) entries)
  require (fits_kind w.kind entries)
  ok (record { schema_version = w.schema_version; kind = w.kind; entries = entries })

-- BundleInventoryV1::from_json
unfoldable pub inventory_from_json :
    Externals → (Text → Option BundleInventoryWire) → Text → Core BundleInventory
inventory_from_json x from_slice bytes = do
  require_bounded_json x bytes
  wire ← ok_or invalid_catalog (from_slice bytes)
  admit_inventory wire

unfoldable pub admit_object : Externals → VerifiedInputObjectWire → Core VerifiedInputObject
admit_object x w = do
  require (admissible_size w.size)
  relative_path ← parse_bundle_path w.relative_path
  sha256 ← parse_sha256_hex w.sha256
  require (text_eq relative_path (codes "objects/" ++ sha256))
  source_url ← parse_artifact_url x w.source_url
  ok (record {
    relative_path = relative_path;
    source_url = source_url;
    size = w.size;
    sha256 = sha256;
  })

unfoldable pub admit_input_bundle : Externals → VerifiedInputBundleWire → Core VerifiedInputBundle
admit_input_bundle x w = do
  require (w.schema_version == 1)
  require (bounded_nonempty w.objects max_bundle_entries)
  objects ← traverse (admit_object x) w.objects
  require
      (all_window (λ (a b : VerifiedInputObject). text_lt a.relative_path b.relative_path) objects)
  require_bounded_total (map (λ (o : VerifiedInputObject). o.size) objects)
  source_sha256 ← parse_sha256_hex w.source_sha256
  compatibility_input_sha256 ← parse_sha256_hex w.compatibility_input_sha256
  ok (record {
    schema_version = w.schema_version;
    source_kind = w.source_kind;
    source_sha256 = source_sha256;
    compatibility_input_sha256 = compatibility_input_sha256;
    objects = objects;
  })

-- VerifiedInputBundleV1::from_json
unfoldable pub input_bundle_from_json :
    Externals → (Text → Option VerifiedInputBundleWire) → Text → Core VerifiedInputBundle
input_bundle_from_json x from_slice bytes = do
  require_bounded_json x bytes
  wire ← ok_or invalid_catalog (from_slice bytes)
  admit_input_bundle x wire

unfoldable pub admit_asset : ReleaseAssetWire → Core ReleaseAsset
admit_asset w = do
  require (admissible_size w.size)
  name ← parse_asset_name w.name
  sha256 ← parse_sha256_hex w.sha256
  ok (record { name = name; size = w.size; sha256 = sha256 })

unfoldable pub admit_signature : ReleaseBundleSignatureWire → Core ReleaseBundleSignature
admit_signature w = do
  key_id ← parse_bounded_id w.key_id
  signature ← parse_signature_text w.signature
  ok (record { key_id = key_id; signature = signature })

-- the names that the manifest may not list
unfoldable pub is_reserved : Text → Bool
is_reserved name =
    text_eq name verified_input_record_name
    || text_eq name catalog_envelope_name
    || text_eq name release_checksums_name
    || text_eq name release_manifest_name

unfoldable pub admit_manifest : SignedReleaseBundleManifestWire → Core SignedReleaseBundleManifest
admit_manifest w = do
  require (w.schema_version == 1)
  require (bounded_nonempty w.assets max_bundle_entries)
  catalog_envelope ← admit_asset w.catalog_envelope
  require (text_eq catalog_envelope.name catalog_envelope_name)
  assets ← traverse admit_asset w.assets
  require (all_window (λ (a b : ReleaseAsset). text_lt a.name b.name) assets)
  require (not (any (λ (a : ReleaseAsset). is_reserved a.name) assets))
  require_bounded_total (catalog_envelope.size ∷ map (λ (a : ReleaseAsset). a.size) assets)
  source_commit ← parse_commit_sha w.source_commit
  source_tree_sha256 ← parse_sha256_hex w.source_tree_sha256
  qualification_sha256 ← parse_sha256_hex w.qualification_sha256
  tag ← parse_tag_without_sequence w.tag
  signature ← admit_signature w.signature
  ok (record {
    schema_version = w.schema_version;
    source_commit = source_commit;
    source_tree_sha256 = source_tree_sha256;
    qualification_sha256 = qualification_sha256;
    tag = tag;
    catalog_envelope = catalog_envelope;
    assets = assets;
    signature = signature;
  })

-- SignedReleaseBundleManifestV1::from_json
unfoldable pub manifest_from_json :
    Externals
    → (Text → Option SignedReleaseBundleManifestWire)
    → Text
    → Core SignedReleaseBundleManifest
manifest_from_json x from_slice bytes = do
  require_bounded_json x bytes
  wire ← ok_or invalid_catalog (from_slice bytes)
  admit_manifest wire

abbrev pub is_signed_release : BundleKind → Bool
is_signed_release signed_release = true
is_signed_release verified_input = false

-- for asset in &manifest.assets
abbrev pub verify_assets : List BundleEntry → List ReleaseAsset → Core (Unit {0})
verify_assets entries [] = ok tt
verify_assets entries (asset ∷ assets) = do
  entry ← find_entry entries asset.name
  require (entry.size == asset.size)
  require (text_eq entry.sha256 asset.sha256)
  verify_assets entries assets

unfoldable pub verify_signed_release_inventory :
    BundleInventory → SignedReleaseBundleManifest → Core (Unit {0})
verify_signed_release_inventory inventory manifest = do
  require (is_signed_release inventory.kind)
  require (inventory.schema_version == 1)
  require (length inventory.entries == length manifest.assets + 3)
  catalog ← find_entry inventory.entries catalog_envelope_name
  require (catalog.size == manifest.catalog_envelope.size)
  require (text_eq catalog.sha256 manifest.catalog_envelope.sha256)
  verify_assets inventory.entries manifest.assets
