-- ===== src/Catalog/BundleRecords.antt =====
-- crates/catalog-core/src/bundle.rs: the shapes that the JSON decoder fills, and the validated records.
-- A newtype over a string is its text.
use fluxsemble_runtime_catal.Base.{ℕ, List, Text}

pub data BundleKind : Type 0 where
  verified_input signed_release : BundleKind

pub data BundleMode : Type 0 where
  owner_read_only_regular_file : BundleMode

pub data InputSourceKind : Type 0 where
  release_intent catalog_source : InputSourceKind

pub record BundleEntryWire : Type 0 where
  pub relative_path : Text
  pub mode : BundleMode
  pub size : ℕ
  pub sha256 : Text

pub record BundleInventoryWire : Type 0 where
  pub schema_version : ℕ
  pub kind : BundleKind
  pub entries : List BundleEntryWire

pub record BundleEntry : Type 0 where
  pub relative_path : Text
  pub mode : BundleMode
  pub size : ℕ
  pub sha256 : Text

pub record BundleInventory : Type 0 where
  pub schema_version : ℕ
  pub kind : BundleKind
  pub entries : List BundleEntry

pub record VerifiedInputObjectWire : Type 0 where
  pub relative_path : Text
  pub source_url : Text
  pub size : ℕ
  pub sha256 : Text

pub record VerifiedInputBundleWire : Type 0 where
  pub schema_version : ℕ
  pub source_kind : InputSourceKind
  pub source_sha256 : Text
  pub compatibility_input_sha256 : Text
  pub objects : List VerifiedInputObjectWire

pub record VerifiedInputObject : Type 0 where
  pub relative_path : Text
  pub source_url : Text
  pub size : ℕ
  pub sha256 : Text

pub record VerifiedInputBundle : Type 0 where
  pub schema_version : ℕ
  pub source_kind : InputSourceKind
  pub source_sha256 : Text
  pub compatibility_input_sha256 : Text
  pub objects : List VerifiedInputObject

pub record ReleaseAssetWire : Type 0 where
  pub name : Text
  pub size : ℕ
  pub sha256 : Text

pub record ReleaseBundleSignatureWire : Type 0 where
  pub key_id : Text
  pub signature : Text

pub record SignedReleaseBundleManifestWire : Type 0 where
  pub schema_version : ℕ
  pub source_commit : Text
  pub source_tree_sha256 : Text
  pub qualification_sha256 : Text
  pub tag : Text
  pub catalog_envelope : ReleaseAssetWire
  pub assets : List ReleaseAssetWire
  pub signature : ReleaseBundleSignatureWire

pub record ReleaseAsset : Type 0 where
  pub name : Text
  pub size : ℕ
  pub sha256 : Text

pub record ReleaseBundleSignature : Type 0 where
  pub key_id : Text
  pub signature : Text

pub record SignedReleaseBundleManifest : Type 0 where
  pub schema_version : ℕ
  pub source_commit : Text
  pub source_tree_sha256 : Text
  pub qualification_sha256 : Text
  pub tag : Text
  pub catalog_envelope : ReleaseAsset
  pub assets : List ReleaseAsset
  pub signature : ReleaseBundleSignature
