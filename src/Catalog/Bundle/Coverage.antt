-- ===== src/Catalog/Bundle/Coverage.antt =====
-- crates/catalog-core/src/bundle.rs: a verified inventory against its manifest.
use mathlib.Core.Path.{subst}
use fluxsemble_runtime_catal.Base.{
  ◌+◌, ◌≡◌, ◌≢◌, ◌⊎◌, ◌∙◌, inl, inr, refl, sym, ap, true, false, List, [], ◌∷◌, map, Text, ok,
  arith, All, Pairs, Among, Distinct, All-Among, All-of_Among, Among_all, Among-map, Among-of_map,
  Among_unique, length, length-map, find-Among, any-Among, and_parts, ◌&&◌, not, all, ok_or-eq-ok,
  ==_iff, Ensures, Ensures-bind, Ensures-ok, Ensures-ensure, Pairs-map,
}
use fluxsemble_runtime_catal.Strings.{text_eq}
use fluxsemble_runtime_catal.Strings.Order.{text_lt-ne}
use fluxsemble_runtime_catal.Strings.Split.{text_eq_sound}
use fluxsemble_runtime_catal.Catalog.BundleRecords.{
  BundleEntry, BundleInventory, ReleaseAsset, SignedReleaseBundleManifest, BundleKind,
  signed_release, verified_input,
}
use fluxsemble_runtime_catal.Catalog.Require.{invalid_catalog}
use fluxsemble_runtime_catal.Catalog.Bundle.{
  valid_release_asset_name, catalog_envelope_name, release_checksums_name, release_manifest_name,
  verified_input_record_name, is_signed_release, fits_kind, has_entry, find_entry, is_reserved,
  verify_assets, verify_signed_release_inventory,
}
use fluxsemble_runtime_catal.Catalog.Bundle.Admitted.{
  IsInventory, IsManifest, EntryBefore, AssetBefore,
}

-- the entry is the asset's copy
abbrev pub Carries : BundleEntry → ReleaseAsset → Type 0
Carries e a = (e.relative_path ≡ a.name) × (e.size ≡ a.size) × (e.sha256 ≡ a.sha256)

-- some entry is the asset's copy
abbrev pub Present : List BundleEntry → ReleaseAsset → Type 0
Present entries a = (e : BundleEntry) × Among e entries × Carries e a

-- what a verified inventory says of its entries against the manifest
pub record Covers (i : BundleInventory) (m : SignedReleaseBundleManifest) : Type 0 where
  pub kind : i.kind ≡ signed_release
  pub counted : length i.entries ≡ length m.assets + 3
  pub envelope :
      (e : BundleEntry) × Among e i.entries
      × (e.relative_path ≡ catalog_envelope_name)
      × (e.size ≡ m.catalog_envelope.size)
      × (e.sha256 ≡ m.catalog_envelope.sha256)
  pub assets : All (Present i.entries) m.assets

find_entry_lem :
    (entries : List BundleEntry) (name : Text)
    → Ensures
        (λ (e : BundleEntry). Among e entries × (e.relative_path ≡ name))
        (find_entry entries name)
unfolding find_entry
find_entry_lem entries name = record {
  at = λ e h.
      let (m, p) =
        find-Among (λ (e : BundleEntry). text_eq e.relative_path name) entries e
          (ok_or-eq-ok invalid_catalog _ h) in
      (m, text_eq_sound e.relative_path name p);
}

verify_assets_lem :
    (entries : List BundleEntry) (assets : List ReleaseAsset)
    → Ensures (λ _. All (Present entries) assets) (verify_assets entries assets)
verify_assets_lem entries [] = Ensures-ok tt tt
verify_assets_lem entries (asset ∷ assets) = Ensures-bind _ _ λ entry found.
    Ensures-ensure _ _ _ λ sized. Ensures-ensure _ _ _ λ hashed. record {
      at = λ u h.
          let (m, p) = (find_entry_lem entries asset.name).at entry found in
          (
            (entry, m, (p, (==_iff _ _).0 sized, text_eq_sound _ _ hashed)),
            (verify_assets_lem entries assets).at u h,
          );
    }

signed : (k : BundleKind) → is_signed_release k ≡ true → k ≡ signed_release
signed signed_release h = refl
signed verified_input h = ground arith

verify_lem :
    (i : BundleInventory) (m : SignedReleaseBundleManifest)
    → Ensures (λ _. Covers i m) (verify_signed_release_inventory i m)
unfolding verify_signed_release_inventory
verify_lem i m = Ensures-ensure _ _ _ λ kind. Ensures-ensure _ _ _ λ schema.
    Ensures-ensure _ _ _ λ counted. Ensures-bind _ _ λ entry found. Ensures-ensure _ _ _ λ sized.
      Ensures-ensure _ _ _ λ hashed. record {
        at = λ u h.
            let (among, p) = (find_entry_lem i.entries catalog_envelope_name).at entry found in
            record {
              kind = signed i.kind kind;
              counted = (==_iff _ _).0 counted;
              envelope = (entry, among, p, (==_iff _ _).0 sized, text_eq_sound _ _ hashed);
              assets = (verify_assets_lem i.entries m.assets).at u h;
            };
      }

-- the entry is what the manifest says of it: the checksums, the manifest itself, the envelope, or
-- one of the assets, with its size and digest
abbrev pub Accounted : SignedReleaseBundleManifest → BundleEntry → Type 0
Accounted m e =
    (e.relative_path ≡ release_checksums_name)
    ⊎ ((e.relative_path ≡ release_manifest_name)
        ⊎ ((e.relative_path ≡ catalog_envelope_name)
              × (e.size ≡ m.catalog_envelope.size)
              × (e.sha256 ≡ m.catalog_envelope.sha256)
            ⊎ ((a : ReleaseAsset) × Among a m.assets × Carries e a)))

name_of : ReleaseAsset → Text
name_of a = a.name

path_of : BundleEntry → Text
path_of e = e.relative_path

-- the names that a signed release holds
expected : SignedReleaseBundleManifest → List Text
expected m =
    catalog_envelope_name ∷ release_checksums_name ∷ release_manifest_name ∷ map name_of m.assets

has_entry_lem :
    (entries : List BundleEntry) (name : Text)
    → has_entry entries name ≡ true
    → Among name (map path_of entries)
unfolding has_entry path_of
has_entry_lem entries name h =
    let (e, m, p) = any-Among (λ (e : BundleEntry). text_eq e.relative_path name) entries h in
    subst (λ t. Among t (map path_of entries)) (text_eq_sound e.relative_path name p)
      (Among-map path_of entries e m)

fixed_entries :
    (entries : List BundleEntry)
    → fits_kind signed_release entries ≡ true
    → Among catalog_envelope_name (map path_of entries)
      × Among release_checksums_name (map path_of entries)
      × Among release_manifest_name (map path_of entries)
unfolding fits_kind
fixed_entries entries h =
    let rest =
      all
        (λ (e : BundleEntry).
          not (text_eq e.relative_path verified_input_record_name)
          && valid_release_asset_name e.relative_path)
        entries in
    let (h₁, _) =
      and_parts
        (has_entry entries catalog_envelope_name
          && has_entry entries release_checksums_name
          && has_entry entries release_manifest_name)
        rest h in
    let (h₂, c) =
      and_parts
        (has_entry entries catalog_envelope_name && has_entry entries release_checksums_name)
        (has_entry entries release_manifest_name) h₁ in
    let (a, b) =
      and_parts (has_entry entries catalog_envelope_name) (has_entry entries release_checksums_name)
        h₂ in
    (has_entry_lem entries _ a, has_entry_lem entries _ b, has_entry_lem entries _ c)

-- a name that is not reserved is none of the fixed ones
free_name : (n fixed : Text) → is_reserved fixed ≡ true → is_reserved n ≡ false → fixed ≢ n
free_name n fixed h k e = ground (arith, h, k, e)

free_names :
    (m : SignedReleaseBundleManifest) (fixed : Text)
    → is_reserved fixed ≡ true
    → IsManifest m
    → All (λ n. fixed ≢ n) (map name_of m.assets)
unfolding name_of
free_names m fixed h ok_m =
    All-of_Among (λ n. fixed ≢ n) (map name_of m.assets)
      λ n among.
        let (a, k, e) = Among-of_map name_of m.assets n among in
        λ same.
          free_name a.name fixed h
            (All-Among (λ (a : ReleaseAsset). is_reserved a.name ≡ false) m.assets a
              ok_m.none_reserved k)
            (same ∙ sym e)

names-Distinct :
    (assets : List ReleaseAsset) → Pairs AssetBefore assets → Distinct (map name_of assets)
unfolding name_of
names-Distinct [] d = tt
names-Distinct (a ∷ assets) d = (
  All-of_Among (λ n. a.name ≢ n) (map name_of assets)
      λ n among.
        let (b, k, e) = Among-of_map name_of assets n among in
        λ same. text_lt-ne a.name b.name (All-Among (AssetBefore a) assets b d.0 k) (same ∙ sym e),
  names-Distinct assets d.1,
)

expected-Distinct : (m : SignedReleaseBundleManifest) → IsManifest m → Distinct (expected m)
unfolding expected is_reserved text_eq name_of
expected-Distinct m ok_m = (
  (λ e. ground (arith, e), (λ e. ground (arith, e), free_names m catalog_envelope_name refl ok_m)),
  (
    (λ e. ground (arith, e), free_names m release_checksums_name refl ok_m),
    (free_names m release_manifest_name refl ok_m, names-Distinct m.assets ok_m.assets_sorted),
  ),
)

paths_distinct :
    (entries : List BundleEntry)
    → Pairs EntryBefore entries
    → Pairs (λ (a b : BundleEntry). path_of a ≢ path_of b) entries
unfolding path_of
paths_distinct entries d =
    Pairs-map (λ (a b : BundleEntry). text_lt-ne a.relative_path b.relative_path) entries d

-- every expected name is a path of the inventory
expected_present :
    (i : BundleInventory) (m : SignedReleaseBundleManifest)
    → IsInventory i
    → Covers i m
    → (n : Text) → Among n (expected m)
    → Among n (map path_of i.entries)
unfolding expected path_of name_of
expected_present i m good c n among =
    let (a, b, d) =
      fixed_entries i.entries (subst (λ k. fits_kind k i.entries ≡ true) c.kind good.kind_fits) in
    elim among [
      | inl e ↦ subst (λ t. Among t (map path_of i.entries)) e a
      | inr (inl e) ↦ subst (λ t. Among t (map path_of i.entries)) e b
      | inr (inr (inl e)) ↦ subst (λ t. Among t (map path_of i.entries)) e d
      | inr (inr (inr k)) ↦
          let (asset, l, e) = Among-of_map name_of m.assets n k in
          let (entry, held, carries) = All-Among (Present i.entries) m.assets asset c.assets l in
          subst (λ t. Among t (map path_of i.entries)) (carries.0 ∙ e)
            (Among-map path_of i.entries entry held)
    ]

-- An admitted inventory that is verified against an admitted manifest holds nothing that the manifest
-- does not account for: each of its entries is the checksums file, the manifest, the catalog envelope
-- with the size and digest that the manifest gives, or an asset of the manifest with the asset's size
-- and digest.
pub verified_entries-Accounted :
    (i : BundleInventory) (m : SignedReleaseBundleManifest)
    → IsInventory i
    → IsManifest m
    → verify_signed_release_inventory i m ≡ ok tt
    → (e : BundleEntry) → Among e i.entries
    → Accounted m e
unfolding expected path_of name_of
verified_entries-Accounted i m good_i good_m h e held =
    let c = (verify_lem i m).at tt h in
    let same : (e₂ : BundleEntry)
        → Among e₂ i.entries
        → e₂.relative_path ≡ e.relative_path
        → e₂ ≡ e =
      λ e₂ k p.
        Among_unique path_of i.entries (paths_distinct i.entries good_i.entries_sorted) e₂ e k held
          p in
    elim (Among_all (expected m) (map path_of i.entries) (expected-Distinct m good_m)
      (expected_present i m good_i c)
      (omega (arith, length-map path_of i.entries, length-map name_of m.assets, c.counted))
      e.relative_path (Among-map path_of i.entries e held)) [
        | inl p ↦
            let (e₂, k, q, size, sha) = c.envelope in
            let r = same e₂ k (q ∙ p) in
            inr (
              inr (
                inl (
                  sym p,
                  sym (ap (λ (z : BundleEntry). z.size) r) ∙ size,
                  sym (ap (λ (z : BundleEntry). z.sha256) r) ∙ sha,
                )))
        | inr (inl p) ↦ inl (sym p)
        | inr (inr (inl p)) ↦ inr (inl (sym p))
        | inr (inr (inr k)) ↦
            let (asset, l, p) = Among-of_map name_of m.assets e.relative_path k in
            let (e₂, k₂, carries) = All-Among (Present i.entries) m.assets asset c.assets l in
            let r = same e₂ k₂ (carries.0 ∙ p) in
            inr (inr (inr (asset, l, subst (λ z. Carries z asset) r carries)))
      ]
