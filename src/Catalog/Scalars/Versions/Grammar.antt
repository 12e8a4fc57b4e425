-- ===== src/Catalog/Scalars/Versions/Grammar.antt =====
-- crates/catalog-core/src/wire.rs: `valid_exact_version` against the grammar of semantic versions.
use fluxsemble_runtime_catal.Base.{
  ℕ, ◌≤◌, ◌≡◌, ◌≢◌, ◌↔◌, refl, ◌⊎◌, Bool, true, false, ◌&&◌, ◌||◌, not, ◌==◌, Option, none, some,
  List, [], ◌∷◌, Text, codes, length, all, All, All-of_all, all_of_All, All-map, and_parts, arith,
}
use fluxsemble_runtime_catal.Strings.{text_eq, is_empty, is_digit, first_is}
use fluxsemble_runtime_catal.Catalog.Scalars.{
  is_alphanumeric, valid_numeric_component, valid_identifier, valid_exact_version,
}
use fluxsemble_runtime_catal.Catalog.Scalars.Versions.{Version, print, HasParts, ArePassed}
use fluxsemble_runtime_catal.Catalog.Scalars.Versions.Complete.{version_iff}

abbrev pub IsDigit : ℕ → Type 0
IsDigit b = (b'0' ≤ b) × (b ≤ b'9')

-- a letter, a digit or a dash
abbrev pub IsIdentifierByte : ℕ → Type 0
IsIdentifierByte b =
    IsDigit b ⊎ (((b'a' ≤ b) × (b ≤ b'z')) ⊎ (((b'A' ≤ b) × (b ≤ b'Z')) ⊎ (b ≡ b'-')))

-- the first byte is not a zero, unless it is the only one
abbrev pub NoLeadingZero : Text → Type 0
NoLeadingZero [] = Unit
NoLeadingZero (b ∷ []) = Unit
NoLeadingZero (b ∷ c ∷ s) = b ≢ b'0'

abbrev pub IsNumber : Text → Type 0
IsNumber t = (t ≢ []) × All IsDigit t × NoLeadingZero t

-- where it is strict, an identifier of digits has no leading zero
abbrev pub IsIdentifier : Bool → Text → Type 0
IsIdentifier strict t =
    (t ≢ []) × All IsIdentifierByte t × (strict ≡ true → All IsDigit t → NoLeadingZero t)

abbrev pub AreIdentifiers : Bool → Option (List Text) → Type 0
AreIdentifiers strict none = Unit
AreIdentifiers strict (some identifiers) =
    (identifiers ≢ []) × All (IsIdentifier strict) identifiers

-- numbers without leading zeros, also in a prerelease, and identifiers of letters, digits and dashes
pub record IsVersion (v : Version) : Type 0 where
  pub major_number : IsNumber v.major
  pub minor_number : IsNumber v.minor
  pub patch_number : IsNumber v.patch
  pub prerelease_valid : AreIdentifiers true v.prerelease
  pub build_valid : AreIdentifiers false v.build

-- the code's test on the first byte
zero_iff :
    (t : Text)
    → t ≢ []
    → ((text_eq t (codes "0") || not (first_is (λ b. b == b'0') t)) ≡ true) ↔ NoLeadingZero t
unfolding text_eq
zero_iff [] n = absurd (n refl)
zero_iff (b ∷ []) n = (λ h. tt, λ h. ground arith)
zero_iff (b ∷ c ∷ s) n = (λ h e. ground (arith, h, e), λ h. ground (arith, h))

is_digit_iff : (b : ℕ) → (is_digit b ≡ true) ↔ IsDigit b
is_digit_iff b = (λ h. ground (arith, h), λ h. ground (arith, h))

digits_iff : (t : Text) → (all is_digit t ≡ true) ↔ All IsDigit t
digits_iff t = (
  All-of_all IsDigit is_digit (λ b h. (is_digit_iff b).0 h) t,
  all_of_All IsDigit is_digit (λ b h. (is_digit_iff b).1 h) t,
)

IsIdentifierByte-iff : (b : ℕ) → ((is_alphanumeric b || b == b'-') ≡ true) ↔ IsIdentifierByte b
IsIdentifierByte-iff b = (λ h. ground (arith, h), λ h. ground (arith, h))

filled_iff : (t : Text) → (not (is_empty t) ≡ true) ↔ (t ≢ [])
filled_iff [] = (λ h e. ground (arith, h), λ h. absurd (h refl))
filled_iff (b ∷ t) = (λ h e. ground (arith, e), λ h. refl)

numeric_iff : (t : Text) → (valid_numeric_component t ≡ true) ↔ IsNumber t
unfolding valid_numeric_component
numeric_iff t = (
  λ h.
      let (front, zero) =
        and_parts (not (is_empty t) && all is_digit t)
          (text_eq t (codes "0") || not (first_is (λ b. b == b'0') t)) h in
      let (filled, ds) = and_parts (not (is_empty t)) (all is_digit t) front in
      let n = (filled_iff t).0 filled in (n, (digits_iff t).0 ds, (zero_iff t n).0 zero),
  λ h.
      let (n, ds, zero) = h in
      rw ((filled_iff t).1 n, (digits_iff t).1 ds, (zero_iff t n).1 zero) refl,
)

strict_sound :
    (a b c d : Bool) → (not a || not b || c || d) ≡ true → a ≡ true → b ≡ true → (c || d) ≡ true
strict_sound a b c d h x y = ground (arith, h, x, y)

strict_complete :
    (a b c d : Bool) → (a ≡ true → b ≡ true → (c || d) ≡ true) → (not a || not b || c || d) ≡ true
strict_complete false b c d f = ground arith
strict_complete true false c d f = ground arith
strict_complete true true c d f = ground (arith, f refl refl)

IsIdentifier-iff :
    (strict : Bool) (t : Text) → (valid_identifier strict t ≡ true) ↔ IsIdentifier strict t
unfolding valid_identifier
IsIdentifier-iff strict t = (
  λ h.
      let (front, zero) =
        and_parts (not (is_empty t) && all (λ b. is_alphanumeric b || b == b'-') t) _ h in
      let (filled, bytes) =
        and_parts (not (is_empty t)) (all (λ b. is_alphanumeric b || b == b'-') t) front in
      let n = (filled_iff t).0 filled in
      (
        n,
        All-of_all IsIdentifierByte (λ b. is_alphanumeric b || b == b'-')
            (λ b k. (IsIdentifierByte-iff b).0 k) t bytes,
        λ strictly ds.
            (zero_iff t n).0
              (strict_sound strict (all is_digit t) _ _ zero strictly ((digits_iff t).1 ds)),
      ),
  λ h.
      let (n, bytes, zero) = h in
      rw
        (
          (filled_iff t).1 n,
          all_of_All IsIdentifierByte (λ b. is_alphanumeric b || b == b'-')
              (λ b k. (IsIdentifierByte-iff b).1 k) t bytes,
        )
        (strict_complete strict (all is_digit t) (text_eq t (codes "0"))
          (not (first_is (λ b. b == b'0') t))
          (λ strictly ds. (zero_iff t n).1 (zero strictly ((digits_iff t).0 ds)))),
)

identifiers_iff :
    (strict : Bool) (o : Option (List Text)) → ArePassed strict o ↔ AreIdentifiers strict o
identifiers_iff strict none = (λ h. h, λ h. h)
identifiers_iff strict (some is) = (
  λ h. (h.0, All-map (λ i k. (IsIdentifier-iff strict i).0 k) is h.1),
  λ h. (h.0, All-map (λ i k. (IsIdentifier-iff strict i).1 k) is h.1),
)

parts_iff : (v : Version) → HasParts v ↔ IsVersion v
parts_iff v = (
  λ h. record {
    major_number = (numeric_iff v.major).0 h.major_numeric;
    minor_number = (numeric_iff v.minor).0 h.minor_numeric;
    patch_number = (numeric_iff v.patch).0 h.patch_numeric;
    prerelease_valid = (identifiers_iff true v.prerelease).0 h.prerelease_valid;
    build_valid = (identifiers_iff false v.build).0 h.build_valid;
  },
  λ h. record {
    major_numeric = (numeric_iff v.major).1 h.major_number;
    minor_numeric = (numeric_iff v.minor).1 h.minor_number;
    patch_numeric = (numeric_iff v.patch).1 h.patch_number;
    prerelease_valid = (identifiers_iff true v.prerelease).1 h.prerelease_valid;
    build_valid = (identifiers_iff false v.build).1 h.build_valid;
  },
)

-- A text is admitted as a version exactly when it has at most 256 bytes and is the text of a version
-- in the grammar of semantic versions: three numbers without leading zeros joined by full stops, then
-- an optional dash and prerelease, then an optional plus sign and build, each of one or more
-- identifiers of letters, digits and dashes, where a number in a prerelease has no leading zero.
pub exact_version_iff :
    (s : Text)
    → (valid_exact_version s ≡ true)
      ↔ ((length s ≤ 256) × ((v : Version) × IsVersion v × (s ≡ print v)))
exact_version_iff s = (
  λ h. let (short, (v, parts, e)) = (version_iff s).0 h in (short, (v, (parts_iff v).0 parts, e)),
  λ h. let (short, (v, parts, e)) = h in (version_iff s).1 (short, (v, (parts_iff v).1 parts, e)),
)
