-- ===== src/Catalog/Parse.antt =====
-- crates/catalog-core/src/wire.rs: admission of single values.
pub mod Decimals
use fluxsemble_runtime_catal.Base.{
  ℕ, zero, suc, Bool, true, false, ◌&&◌, ◌||◌, not, Option, none, some, List, [], ◌∷◌, Text, codes,
  Result, ok, err, ◌>>=◌, ◌>>◌, ok_or, leb, ltb, ◌==◌, all, any, length, traverse, if◌then◌else◌,
  Eq,
}
use fluxsemble_runtime_catal.Strings.{text_eq, split, is_empty, is_ascii, first_is}
use fluxsemble_runtime_catal.Strings.Split.{text_class}
use fluxsemble_runtime_catal.Strings.Decimal.{parse_u64, to_string}
use fluxsemble_runtime_catal.Catalog.Scalars.{
  valid_sha256_digest, valid_catalog_id, valid_exact_version, valid_plain_text, valid_package_name,
  valid_inventory_path, valid_url_input,
}
use fluxsemble_runtime_catal.Catalog.Integrity.{is_canonical_sha512_integrity}
use fluxsemble_runtime_catal.Catalog.Require.{
  Core, invalid_catalog, require, require_bounded_nonempty, require_unique,
}
use fluxsemble_runtime_catal.Catalog.Records.{
  CatalogTimestamp, CatalogId, ExactVersion, AllowedOrigin, HttpsArtifactUrl, ByteSize,
  CatalogTarget, linux_x86_64,
}
use fluxsemble_runtime_catal.Catalog.Externals.{Externals, Url, DateTime}

-- `validated_string!` and the newtypes written like it
abbrev pub validated : (Text → Bool) → Text → Core Text
validated valid value = do require (valid value); ok value

unfoldable pub parse_sha256_digest : Text → Core Text
parse_sha256_digest = validated valid_sha256_digest

unfoldable pub parse_registry_integrity : Text → Core Text
parse_registry_integrity = validated is_canonical_sha512_integrity

unfoldable pub parse_release_title : Text → Core Text
parse_release_title = validated (λ v. valid_plain_text v 128 false)

unfoldable pub parse_release_notes : Text → Core Text
parse_release_notes = validated (λ v. valid_plain_text v 16384 true)

unfoldable pub parse_package_name : Text → Core Text
parse_package_name = validated valid_package_name

unfoldable pub parse_inventory_path : Text → Core Text
parse_inventory_path = validated valid_inventory_path

unfoldable pub parse_exact_version : Text → Core ExactVersion
parse_exact_version = validated valid_exact_version

unfoldable pub parse_catalog_id : Text → Core CatalogId
parse_catalog_id = validated valid_catalog_id

-- segments.next() == Some("builtin") && segments.count() == 1
abbrev pub builtin_and_one : List Text → Bool
builtin_and_one (first ∷ second ∷ []) = text_eq first (codes "builtin")
builtin_and_one _ = false

unfoldable pub parse_harness_id : Text → Core CatalogId
parse_harness_id value = do
  require (valid_catalog_id value)
  require (builtin_and_one (split b':' value))
  ok value

unfoldable pub parse_byte_size : Text → Core ByteSize
parse_byte_size value = do
  parsed ← ok_or invalid_catalog (parse_u64 value)
  require (text_eq value (to_string parsed))
  ok parsed

unfoldable pub parse_nonzero_decimal : Text → Core ℕ
parse_nonzero_decimal value = do
  parsed ← ok_or invalid_catalog (parse_u64 value)
  require (text_eq value (to_string parsed))
  require (not (parsed == 0))
  ok parsed

unfoldable pub parse_target : Text → Core CatalogTarget
parse_target value =
    if text_eq value (codes "linux_x86_64") then ok linux_x86_64 else err invalid_catalog

abbrev pub is_some {ℓ} : {A : Type ℓ} → Option A → Bool
is_some none = false
is_some (some a) = true

module _ (x : Externals) where
  unfoldable pub parse_https_url : Text → Core Url
  parse_https_url value = do
    url ← ok_or invalid_catalog (x.parse_url value)
    require (
        text_eq url.scheme (codes "https")
        && is_some url.host_str
        && is_empty url.username
        && not (is_some url.password)
        && not (is_some url.query)
        && not (is_some url.fragment))
    ok url

  unfoldable pub parse_artifact_url : Text → Core HttpsArtifactUrl
  parse_artifact_url value = do
    require (leb (length value) 2048)
    require (valid_url_input value)
    parse_https_url value
    ok value

  -- HttpsArtifactUrl::origin
  unfoldable pub url_origin : HttpsArtifactUrl → Core Text
  url_origin url = do parsed ← parse_https_url url; ok parsed.origin

  unfoldable pub parse_allowed_origin : Text → Core AllowedOrigin
  parse_allowed_origin value = do
    require (leb (length value) 256)
    require (valid_url_input value)
    url ← parse_https_url value
    require (text_eq url.path (codes "/") && not (is_some url.query))
    ok url.origin

  abbrev pub origin_listed : Core Text → List AllowedOrigin → Bool
  origin_listed (err _) allowed = false
  origin_listed (ok origin) allowed = any (λ a. text_eq a origin) allowed

  unfoldable pub origin_allowed : HttpsArtifactUrl → List AllowedOrigin → Bool
  origin_allowed url allowed_origins = origin_listed (url_origin url) allowed_origins

  unfoldable pub parse_compatibility_range : Text → Core Text
  parse_compatibility_range =
      validated (λ v. not (is_empty v) && leb (length v) 128 && all is_ascii v && x.version_req v)

  unfoldable pub parse_ranges : List Text → Core (List Text)
  parse_ranges values = do
    require_bounded_nonempty values 16
    ranges ← traverse parse_compatibility_range values
    require_unique ranges
    ok ranges

  unfoldable pub parse_timestamp : Text → Core CatalogTimestamp
  parse_timestamp value = do
    require (length value == 20)
    parsed ← ok_or invalid_catalog (x.parse_rfc3339 value)
    require parsed.is_utc
    require (text_eq parsed.utc_text value)
    ok value
