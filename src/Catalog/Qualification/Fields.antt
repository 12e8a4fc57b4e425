-- ===== src/Catalog/Qualification/Fields.antt =====
-- crates/catalog-core/src/qualification.rs, source.rs, wire.rs: what holds of the parsed fields of a
-- qualification record.
use fluxsemble_runtime_catal.Base.{
  ℕ, ◌≤◌, ◌<◌, ◌⊎◌, Bool, true, not, ◌&&◌, ◌||◌, ◌==◌, ◌≡◌, Option, none, some, [], ◌∷◌, Text, leb,
  within, all, length, arith, All, All-of_all, and_parts, ok_or-eq-ok, Ensures, Ensures-bind,
  Ensures-ensure, Ensures-ok, ==_iff,
}
use fluxsemble_runtime_catal.Strings.{chars, is_ascii, is_digit, is_empty, is_control}
use fluxsemble_runtime_catal.Strings.Split.{text_eq_sound}
use fluxsemble_runtime_catal.Catalog.Externals.{Externals, DateTime}
use fluxsemble_runtime_catal.Catalog.Require.{invalid_catalog}
use fluxsemble_runtime_catal.Catalog.Scalars.{
  is_alphanumeric, valid_plain_text, valid_exact_version,
}
use fluxsemble_runtime_catal.Catalog.Scalars.Versions.{Version, print}
use fluxsemble_runtime_catal.Catalog.Scalars.Versions.Grammar.{IsVersion, exact_version_iff}
use fluxsemble_runtime_catal.Catalog.Parse.{validated, parse_exact_version, parse_timestamp}
use fluxsemble_runtime_catal.Catalog.Source.{
  is_lower_hex, valid_sha256_hex, valid_bounded_id, valid_commit_sha, parse_sha256_hex,
  parse_bounded_id, parse_commit_sha,
}
use fluxsemble_runtime_catal.Catalog.Qualification.{
  max_qualification_text_bytes, parse_bounded_plain_text, parse_optional,
}

-- a lowercase hexadecimal digit
abbrev pub IsHexByte : ℕ → Type 0
IsHexByte b = ((b'0' ≤ b) × (b ≤ b'9')) ⊎ ((b'a' ≤ b) × (b ≤ b'f'))

-- so many lowercase hexadecimal digits
abbrev pub IsHex : ℕ → Text → Type 0
IsHex n t = (length t ≡ n) × All IsHexByte t

-- a letter, a digit, or one of `-`, `_`, `.` and `:`
abbrev pub IsIdByte : ℕ → Type 0
IsIdByte b =
    ((b'0' ≤ b) × (b ≤ b'9'))
    ⊎ (((b'a' ≤ b) × (b ≤ b'z'))
        ⊎ (((b'A' ≤ b) × (b ≤ b'Z')) ⊎ ((b ≡ b'-') ⊎ ((b ≡ b'_') ⊎ ((b ≡ b'.') ⊎ (b ≡ b':'))))))

abbrev pub IsBoundedId : Text → Type 0
IsBoundedId t = (0 < length t) × (length t ≤ 128) × All IsIdByte t

-- a character that is no control character, or a tab, a line feed or a carriage return
abbrev pub IsPlainChar : ℕ → Type 0
IsPlainChar c = ((32 ≤ c) × (c < 127)) ⊎ ((159 < c) ⊎ ((c ≡ 9) ⊎ ((c ≡ 10) ⊎ (c ≡ 13))))

-- 1 to 1024 bytes of plain characters
abbrev pub IsPlain : Text → Type 0
IsPlain t = (0 < length t) × (length t ≤ 1024) × All IsPlainChar (chars t)

-- at most 256 bytes, which are the text of a version in the grammar of semantic versions
abbrev pub IsExactVersion : Text → Type 0
IsExactVersion t = (length t ≤ 256) × ((v : Version) × IsVersion v × (t ≡ print v))

-- 20 bytes, which are the UTC spelling, to the second, of the time that they are parsed as
abbrev pub IsUtcTime : Externals → Text → Type 0
IsUtcTime x t =
    (length t ≡ 20)
    × ((d : DateTime) × (x.parse_rfc3339 t ≡ some d) × (d.is_utc ≡ true) × (d.utc_text ≡ t))

abbrev pub Optionally : (Text → Type 0) → Option Text → Type 0
Optionally P none = Unit
Optionally P (some t) = P t

validated_lem :
    (valid : Text → Bool) (P : Text → Type 0)
    → ((t : Text) → valid t ≡ true → P t)
    → (t : Text) → Ensures P (validated valid t)
validated_lem valid P sound t = Ensures-ensure _ _ _ λ h. Ensures-ok _ (sound t h)

filled : (t : Text) → not (is_empty t) ≡ true → 0 < length t
filled [] h = ground (arith, h)
filled (b ∷ t) h = omega arith

hex_sound : (t : Text) → is_lower_hex t ≡ true → All IsHexByte t
unfolding is_lower_hex
hex_sound t h =
    All-of_all IsHexByte (λ b. is_digit b || within b'a' b'f' b) (λ b k. ground (arith, k)) t h

sha256_sound : (t : Text) → valid_sha256_hex t ≡ true → IsHex 64 t
unfolding valid_sha256_hex
sha256_sound t h =
    let (long, digits) = and_parts (length t == 64) (is_lower_hex t) h in
    ((==_iff _ _).0 long, hex_sound t digits)

commit_sound : (t : Text) → valid_commit_sha t ≡ true → IsHex 40 t
unfolding valid_commit_sha
commit_sound t h =
    let (long, digits) = and_parts (length t == 40) (is_lower_hex t) h in
    ((==_iff _ _).0 long, hex_sound t digits)

short : (n : ℕ) (t : Text) → leb (length t) n ≡ true → length t ≤ n
short n t h = ground (arith, h)

id_sound : (t : Text) → valid_bounded_id t ≡ true → IsBoundedId t
unfolding valid_bounded_id
id_sound t h =
    let (front, bytes) = and_parts (not (is_empty t) && leb (length t) 128 && all is_ascii t) _ h in
    let (sized, _) = and_parts (not (is_empty t) && leb (length t) 128) (all is_ascii t) front in
    let (some_bytes, few) = and_parts (not (is_empty t)) (leb (length t) 128) sized in
    (
      filled t some_bytes,
      short 128 t few,
      All-of_all IsIdByte
          (λ b. is_alphanumeric b || b == b'-' || b == b'_' || b == b'.' || b == b':')
          (λ b k. ground (arith, k)) t bytes,
    )

IsPlain-sound : (t : Text) → valid_plain_text t max_qualification_text_bytes true ≡ true → IsPlain t
unfolding valid_plain_text
IsPlain-sound t h =
    let (sized, bytes) =
      and_parts (not (is_empty t) && leb (length t) max_qualification_text_bytes) _ h in
    let (some_bytes, few) =
      and_parts (not (is_empty t)) (leb (length t) max_qualification_text_bytes) sized in
    (
      filled t some_bytes,
      short 1024 t few,
      All-of_all IsPlainChar (λ c. not (is_control c) || true && (c == 10 || c == 13 || c == 9))
          (λ c k. ground (arith, k)) (chars t) bytes,
    )

pub hash_lem : (t : Text) → Ensures (IsHex 64) (parse_sha256_hex t)
unfolding parse_sha256_hex
hash_lem t = validated_lem valid_sha256_hex (IsHex 64) sha256_sound t

pub id_lem : (t : Text) → Ensures IsBoundedId (parse_bounded_id t)
unfolding parse_bounded_id
id_lem t = validated_lem valid_bounded_id IsBoundedId id_sound t

pub commit_lem : (t : Text) → Ensures (IsHex 40) (parse_commit_sha t)
unfolding parse_commit_sha
commit_lem t = validated_lem valid_commit_sha (IsHex 40) commit_sound t

pub version_lem : (t : Text) → Ensures IsExactVersion (parse_exact_version t)
unfolding parse_exact_version
version_lem t =
    validated_lem valid_exact_version IsExactVersion (λ s h. (exact_version_iff s).0 h) t

pub plain_lem : (t : Text) → Ensures IsPlain (parse_bounded_plain_text t)
unfolding parse_bounded_plain_text
plain_lem t =
    validated_lem (λ v. valid_plain_text v max_qualification_text_bytes true) IsPlain IsPlain-sound
      t

pub optional_lem :
    (o : Option Text) → Ensures (Optionally (IsHex 64)) (parse_optional parse_sha256_hex o)
optional_lem none = Ensures-ok _ tt
optional_lem (some t) = Ensures-bind _ _ λ v h. Ensures-ok _ ((hash_lem t).at v h)

pub timestamp_lem : (x : Externals) (t : Text) → Ensures (IsUtcTime x) (parse_timestamp x t)
unfolding parse_timestamp
timestamp_lem x t = Ensures-ensure _ _ _ λ long. Ensures-bind _ _ λ d parsed.
    Ensures-ensure _ _ _ λ utc. Ensures-ensure _ _ _ λ same. Ensures-ok _ (
      (==_iff _ _).0 long,
      (d, ok_or-eq-ok invalid_catalog (x.parse_rfc3339 t) parsed, utc, text_eq_sound _ _ same),
    )
