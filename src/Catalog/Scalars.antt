-- ===== src/Catalog/Scalars.antt =====
-- crates/catalog-core/src/wire.rs: the predicates that admit the scalar values of a catalog.
pub mod Paths
pub mod Versions
use fluxsemble_runtime_catal.Base.{
  ℕ, zero, suc, Bool, true, false, ◌&&◌, ◌||◌, not, Option, none, some, List, [], ◌∷◌, Text, codes,
  ltb, leb, ◌==◌, within, all, any, length, if◌then◌else◌,
}
use fluxsemble_runtime_catal.Strings.{
  text_eq, split, split_once, strip_prefix, contains_byte, is_empty, first_is, last_is, any_window,
  is_ascii, is_digit, is_lower, is_upper, is_ascii_control, is_ascii_whitespace, is_control, chars,
}

abbrev pub max_exact_version_bytes : ℕ
max_exact_version_bytes = 256

abbrev pub max_package_name_bytes : ℕ
max_package_name_bytes = 214

abbrev pub max_inventory_path_bytes : ℕ
max_inventory_path_bytes = 512

abbrev pub is_alphanumeric : ℕ → Bool
is_alphanumeric b = is_digit b || is_lower b || is_upper b

-- matches!(byte, b'-' | b'_' | b'.')
abbrev pub is_separator : ℕ → Bool
is_separator b = b == b'-' || b == b'_' || b == b'.'

abbrev pub is_lower_or_digit : ℕ → Bool
is_lower_or_digit b = is_lower b || is_digit b

-- Sha256Digest
unfoldable pub valid_sha256_digest : Text → Bool
valid_sha256_digest value = length value == 64 && all (λ b. is_digit b || within b'a' b'f' b) value

unfoldable pub valid_id_segment : Text → Bool
valid_id_segment segment =
    not (is_empty segment)
    && leb (length segment) 64
    && first_is is_lower_or_digit segment
    && last_is is_lower_or_digit segment
    && all (λ b. is_lower b || is_digit b || is_separator b) segment
    && not (any_window (λ a b. is_separator a && is_separator b) segment)

unfoldable pub valid_catalog_id : Text → Bool
valid_catalog_id value =
    if not (within 3 191 (length value)) || not (all is_ascii value)
    then false
    else let segments = split b':' value in
      within 2 4 (length segments) && all valid_id_segment segments

unfoldable pub valid_numeric_component : Text → Bool
valid_numeric_component component =
    not (is_empty component)
    && all is_digit component
    && (text_eq component (codes "0") || not (first_is (λ b. b == b'0') component))

unfoldable pub valid_identifier : Bool → Text → Bool
valid_identifier reject_leading_zero identifier =
    not (is_empty identifier)
    && all (λ b. is_alphanumeric b || b == b'-') identifier
    && (not reject_leading_zero
        || not (all is_digit identifier)
        || text_eq identifier (codes "0")
        || not (first_is (λ b. b == b'0') identifier))

unfoldable pub valid_version_identifiers : Text → Bool → Bool
valid_version_identifiers identifiers reject_leading_zero =
    not (is_empty identifiers)
    && all (valid_identifier reject_leading_zero) (split b'.' identifiers)

abbrev pub core_parts : List Text → Bool
core_parts (major ∷ minor ∷ patch ∷ []) =
    valid_numeric_component major && valid_numeric_component minor && valid_numeric_component patch
core_parts _ = false

-- (0..3).all(|_| components.next()...) && components.next().is_none()
unfoldable pub valid_core : Text → Bool
valid_core core = core_parts (split b'.' core)

-- `map_or((value, None), |(head, tail)| (head, Some(tail)))`
abbrev pub head_and_tail : Text → Option (Text × Text) → Text × Option Text
head_and_tail whole none = (whole, none)
head_and_tail whole (some (head, tail)) = (head, some tail)

-- is_some_and
abbrev pub is_some_and {ℓ} : {A : Type ℓ} → (A → Bool) → Option A → Bool
is_some_and p none = false
is_some_and p (some a) = p a

unfoldable pub valid_without_build : Text → Bool
unfolding valid_core
valid_without_build without_build =
    let (core, prerelease) = head_and_tail without_build (split_once b'-' without_build) in
    if is_some_and (λ v. not (valid_version_identifiers v true)) prerelease
    then false
    else valid_core core

unfoldable pub valid_exact_version : Text → Bool
unfolding valid_without_build
valid_exact_version value =
    if is_empty value || ltb max_exact_version_bytes (length value) || not (all is_ascii value)
    then false
    else let (without_build, build) = head_and_tail value (split_once b'+' value) in
      if is_some_and (λ b. not (valid_version_identifiers b false)) build
        || contains_byte b'+' without_build
      then false
      else valid_without_build without_build

unfoldable pub valid_plain_text : Text → ℕ → Bool → Bool
valid_plain_text value maximum_bytes allow_lines =
    not (is_empty value)
    && leb (length value) maximum_bytes
    && all (λ c. not (is_control c) || allow_lines && (c == 10 || c == 13 || c == 9)) (chars value)

unfoldable pub valid_package_segment : Text → Bool
valid_package_segment value =
    not (is_empty value)
    && all (λ b. is_lower b || is_digit b || is_separator b) value
    && not (text_eq value (codes "."))
    && not (text_eq value (codes ".."))

abbrev pub scoped_parts : List Text → Bool
scoped_parts (scope ∷ name ∷ []) = valid_package_segment scope && valid_package_segment name
scoped_parts _ = false

abbrev pub package_body : Text → Option Text → Bool
package_body value (some scoped) = scoped_parts (split b'/' scoped)
package_body value none = not (contains_byte b'/' value) && valid_package_segment value

unfoldable pub valid_package_name : Text → Bool
valid_package_name value =
    not (is_empty value)
    && leb (length value) max_package_name_bytes
    && all is_ascii value
    && not (any (λ b. is_ascii_control b || is_ascii_whitespace b) value)
    && package_body value (strip_prefix (codes "@") value)

abbrev pub plain_segment : Text → Bool
plain_segment segment =
    not (is_empty segment)
    && not (text_eq segment (codes "."))
    && not (text_eq segment (codes ".."))

unfoldable pub valid_inventory_path : Text → Bool
valid_inventory_path value =
    if is_empty value
      || ltb max_inventory_path_bytes (length value)
      || contains_byte b'\\' value
      || any is_ascii_control value
    then false
    else all plain_segment (split b'/' value)

-- require_url_input
unfoldable pub valid_url_input : Text → Bool
valid_url_input value =
    not (contains_byte b'\\' value)
    && all (λ b. not (is_ascii_control b) && not (is_ascii_whitespace b)) value
