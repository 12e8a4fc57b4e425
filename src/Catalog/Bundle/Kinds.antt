-- ===== src/Catalog/Bundle/Kinds.antt =====
-- crates/catalog-core/src/bundle.rs: the entries that an inventory of each kind has.
use fluxsemble_runtime_catal.Base.{
  ℕ, ◌≡◌, ◌≢◌, ◌≤◌, ◌<◌, ◌⊎◌, inl, inr, refl, ap, ◌∙◌, true, false, not, ◌&&◌, ◌||◌, ◌==◌, Option,
  none, some, List, [], ◌∷◌, ◌++◌, Text, codes, All, All-of_all, Among, any-Among, any, all,
  and_parts, not_parts, or_false_parts, Bool-cases, length, leb, arith,
}
use fluxsemble_runtime_catal.Strings.{
  text_eq, is_empty, is_ascii, is_ascii_control, is_ascii_whitespace, contains_byte, strip_prefix,
}
use fluxsemble_runtime_catal.Strings.Split.{text_eq_sound, text_eq_refl}
use fluxsemble_runtime_catal.Strings.Prefixes.{strip_prefix_sound}
use fluxsemble_runtime_catal.Catalog.BundleRecords.{
  BundleEntry, BundleKind, verified_input, signed_release,
}
use fluxsemble_runtime_catal.Catalog.Bundle.{
  catalog_envelope_name, release_checksums_name, release_manifest_name, verified_input_record_name,
  valid_release_asset_name, has_entry, addresses, fits_kind,
}

-- an entry stands under the name
abbrev pub Listed : List BundleEntry → Text → Type 0
Listed entries name = (e : BundleEntry) × Among e entries × (e.relative_path ≡ name)

-- an ASCII byte that is no slash, backslash, blank or control character
abbrev pub IsAssetByte : ℕ → Type 0
IsAssetByte b = (32 < b) × (b < 127) × (b ≢ b'/') × (b ≢ b'\\')

-- the name of a file in a directory, of 1 to 255 bytes
abbrev pub IsAssetName : Text → Type 0
IsAssetName t = (t ≢ []) × (length t ≤ 255) × (t ≢ codes ".") × (t ≢ codes "..") × All IsAssetByte t

-- The record of verified inputs and objects under their digests; or the three fixed files of a signed
-- release and names of assets, none of them that of the record.
abbrev pub Objects : BundleKind → List BundleEntry → Type 0
Objects verified_input entries =
    Listed entries verified_input_record_name
    × All
        (λ (e : BundleEntry).
          (e.relative_path ≡ verified_input_record_name)
          ⊎ (e.relative_path ≡ codes "objects/" ++ e.sha256))
        entries
Objects signed_release entries =
    Listed entries catalog_envelope_name
    × Listed entries release_checksums_name
    × Listed entries release_manifest_name
    × All
        (λ (e : BundleEntry).
          (e.relative_path ≢ verified_input_record_name) × IsAssetName e.relative_path)
        entries

has_entry-Listed :
    (entries : List BundleEntry) (name : Text) → has_entry entries name ≡ true → Listed entries name
unfolding has_entry
has_entry-Listed entries name h =
    let (e, m, same) = any-Among (λ (e : BundleEntry). text_eq e.relative_path name) entries h in
    (e, m, text_eq_sound e.relative_path name same)

object_path :
    (e : BundleEntry)
    → addresses (strip_prefix (codes "objects/") e.relative_path) e.sha256 ≡ true
    → e.relative_path ≡ codes "objects/" ++ e.sha256
object_path e h = parts (strip_prefix (codes "objects/") e.relative_path) refl h
  where
    parts :
        (o : Option Text)
        → strip_prefix (codes "objects/") e.relative_path ≡ o
        → addresses o e.sha256 ≡ true
        → e.relative_path ≡ codes "objects/" ++ e.sha256
    parts none p k = ground (arith, k)
    parts (some digest) p k =
        strip_prefix_sound (codes "objects/") e.relative_path digest p
        ∙ ap (λ t. codes "objects/" ++ t) (text_eq_sound digest e.sha256 k)

apart : (s t : Text) → text_eq s t ≡ false → s ≢ t
apart s t h e = ground (arith, h, text_eq_refl t, ap (λ u. text_eq u t) e)

asset_bytes :
    (t : Text)
    → all is_ascii t ≡ true
    → contains_byte b'/' t ≡ false
    → contains_byte b'\\' t ≡ false
    → any (λ b. is_ascii_control b || is_ascii_whitespace b) t ≡ false
    → All IsAssetByte t
asset_bytes [] a s b c = tt
asset_bytes (x ∷ t) a s b c =
    let (ascii, a') = and_parts (is_ascii x) (all is_ascii t) a in
    let (slash, s') = or_false_parts (x == b'/') (contains_byte b'/' t) s in
    let (back, b') = or_false_parts (x == b'\\') (contains_byte b'\\' t) b in
    let (plain, c') = or_false_parts (is_ascii_control x || is_ascii_whitespace x) _ c in
    (
      (
        ground (arith, plain),
        ground (arith, ascii, plain),
        λ e. ground (arith, slash, e),
        λ e. ground (arith, back, e),
      ),
      asset_bytes t a' s' b' c',
    )

filled : (t : Text) → not (is_empty t) ≡ true → t ≢ []
filled [] h e = ground (arith, h)
filled (b ∷ t) h e = ground (arith, e)

valid_release_asset_name-IsAssetName :
    (t : Text) → valid_release_asset_name t ≡ true → IsAssetName t
unfolding valid_release_asset_name
valid_release_asset_name-IsAssetName t h =
    let (h₅, controls) =
      and_parts _ (not (any (λ b. is_ascii_control b || is_ascii_whitespace b) t)) h in
    let (h₄, slashes) = and_parts _ (not (contains_byte b'/' t || contains_byte b'\\' t)) h₅ in
    let (h₃, ascii) = and_parts _ (all is_ascii t) h₄ in
    let (h₂, dots) = and_parts _ (not (text_eq t (codes ".."))) h₃ in
    let (h₁, dot) = and_parts _ (not (text_eq t (codes "."))) h₂ in
    let (some_bytes, few) = and_parts (not (is_empty t)) (leb (length t) 255) h₁ in
    let (slash, back) =
      or_false_parts (contains_byte b'/' t) (contains_byte b'\\' t) (not_parts _ slashes) in
    (
      filled t some_bytes,
      ground (arith, few),
      apart t (codes ".") (not_parts _ dot),
      apart t (codes "..") (not_parts _ dots),
      asset_bytes t ascii slash back (not_parts _ controls),
    )

-- what the test of the kind says of the entries
pub fits_kind-Objects :
    (kind : BundleKind) (entries : List BundleEntry)
    → fits_kind kind entries ≡ true
    → Objects kind entries
unfolding fits_kind
fits_kind-Objects verified_input entries h =
    let (record_listed, objects) = and_parts (has_entry entries verified_input_record_name) _ h in
    (
      has_entry-Listed entries verified_input_record_name record_listed,
      All-of_all _ _ (λ (e : BundleEntry) k. named e k) entries objects,
    )
  where
    named :
        (e : BundleEntry)
        → (text_eq e.relative_path verified_input_record_name
            || addresses (strip_prefix (codes "objects/") e.relative_path) e.sha256)
          ≡ true
        → (e.relative_path ≡ verified_input_record_name)
          ⊎ (e.relative_path ≡ codes "objects/" ++ e.sha256)
    named e k = elim (Bool-cases (text_eq e.relative_path verified_input_record_name)) [
      | inl q ↦ inl (text_eq_sound _ _ q)
      | inr q ↦ inr (object_path e (ground (arith, q, k)))
    ]
fits_kind-Objects signed_release entries h =
    let (h₂, names) = and_parts _ _ h in
    let (h₁, manifest) = and_parts _ (has_entry entries release_manifest_name) h₂ in
    let (envelope, checksums) =
      and_parts (has_entry entries catalog_envelope_name) (has_entry entries release_checksums_name)
        h₁ in
    (
      has_entry-Listed entries catalog_envelope_name envelope,
      has_entry-Listed entries release_checksums_name checksums,
      has_entry-Listed entries release_manifest_name manifest,
      All-of_all _ _ (λ (e : BundleEntry) k. named e k) entries names,
    )
  where
    named :
        (e : BundleEntry)
        → (not (text_eq e.relative_path verified_input_record_name)
            && valid_release_asset_name e.relative_path)
          ≡ true
        → (e.relative_path ≢ verified_input_record_name) × IsAssetName e.relative_path
    named e k =
        let (other, valid) =
          and_parts (not (text_eq e.relative_path verified_input_record_name))
            (valid_release_asset_name e.relative_path) k in
        (
          apart e.relative_path verified_input_record_name (not_parts _ other),
          valid_release_asset_name-IsAssetName e.relative_path valid,
        )
