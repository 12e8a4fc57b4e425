-- ===== src/Wizard/Rotation/Kept.antt =====
-- crates/catalog-wizard/src/key_rotation.rs, crates/catalog-core/build.rs: the proposed keyring passes the
-- checks of the build.
use fluxsemble_runtime_catal.Base.{
  All-map, ℕ, zero, suc, ◌+◌, ◌*◌, ◌/◌, ◌%◌, ◌≡◌, ◌≤◌, ◌<◌, ◌==◌, refl, sym, ap, ◌∙◌, Bool, true,
  false, ◌&&◌, ◌||◌, not, List, [], ◌∷◌, ◌++◌, Text, ok, ◌>>=◌, ensure, map_err-eq-ok, All,
  All-append, any, all, length, length-append, take, ltb, within, and_parts, or_false_parts,
  not_parts, Ensures, Ensures-bind, Ensures-ensure, Ensures-ok, arith,
}
use fluxsemble_runtime_catal.Strings.{text_eq, is_empty, is_digit, starts_with, strip_prefix}
use fluxsemble_runtime_catal.Strings.Split.{text_eq_sound, text_eq_refl}
use fluxsemble_runtime_catal.Catalog.Integrity.RoundTrip.{IsByte}
use fluxsemble_runtime_catal.Signature.Base64url.{encode_lower_hex, hex_digit}
use fluxsemble_runtime_catal.Signature.Keyring.{
  KeyringEntry, Keyring, valid_key_id, production_key_id_prefix, decode_base64url_32,
  derive_runtime_catalog_key_id, validate_entry, validate, max_keyring_entries,
}
use fluxsemble_runtime_catal.Wizard.Rotation.{
  ActiveSigningKey, InspectionOutput, decode_public_key, admit_inspection, demote, sort_entries,
  taken, new_entry, propose_rotation,
}
use fluxsemble_runtime_catal.Wizard.Rotation.Entries.{
  Steady, All-demote, length-demote, All-sort_entries, length-sort_entries, count-sort_entries,
  count-append, demote_last, Pairs-demote, Pairs-sort_entries, Pairs-append,
}
use fluxsemble_runtime_catal.Wizard.Rotation.Checked.{validate_entry_iff}
use fluxsemble_runtime_catal.Wizard.Rotation.Accepted.{
  Differ, Differ-sym, IsReviewed, entries_checked, validate_iff,
}

-- what SHA-256 returns: 32 bytes
abbrev pub IsDigest : (Text → Text) → Type 0
IsDigest sha256 = (message : Text) → (length (sha256 message) ≡ 32) × All IsByte (sha256 message)

hex_digit_valid :
    (v : ℕ) → v < 16 → (is_digit (hex_digit v) || within b'a' b'f' (hex_digit v)) ≡ true
hex_digit_valid v h = ground arith

hex_valid :
    (s : Text)
    → All IsByte s
    → all (λ b. is_digit b || within b'a' b'f' b) (encode_lower_hex s) ≡ true
unfolding encode_lower_hex
hex_valid [] h = refl
hex_valid (b ∷ s) h =
    rw
      (
        hex_digit_valid (b / 16) (omega (arith, h.0)),
        hex_digit_valid (b % 16) (omega arith),
        hex_valid s h.1,
      )
      refl

length-hex : (s : Text) → length (encode_lower_hex s) ≡ 2 * length s
unfolding encode_lower_hex
length-hex [] = refl
length-hex (b ∷ s) = omega (arith, length-hex s)

length-take : (n : ℕ) (s : Text) → n ≤ length s → length (take n s) ≡ n
length-take zero s h = refl
length-take (suc n) [] h = absurd (omega (arith, h))
length-take (suc n) (b ∷ s) h = ap suc (length-take n s (omega (arith, h)))

All-take : (P : ℕ → Type 0) (n : ℕ) (s : Text) → All P s → All P (take n s)
All-take P zero s h = tt
All-take P (suc n) [] h = tt
All-take P (suc n) (b ∷ s) h = (h.0, All-take P n s h.1)

prefixed_valid :
    (h : Text)
    → length h ≡ 16
    → all (λ b. is_digit b || within b'a' b'f' b) h ≡ true
    → valid_key_id (production_key_id_prefix ++ h) ≡ true
unfolding valid_key_id starts_with strip_prefix
prefixed_valid h n e = rw (e, n) refl

derived_valid :
    (sha256 : Text → Text)
    → IsDigest sha256
    → (key : Text) → valid_key_id (derive_runtime_catalog_key_id sha256 key) ≡ true
unfolding derive_runtime_catalog_key_id
derived_valid sha256 digest key =
    let (long, bytes) = digest key in
    let front = take 8 (sha256 key) in
    let n : length front ≡ 8 = length-take 8 (sha256 key) (omega (arith, long)) in
    prefixed_valid (encode_lower_hex front) (omega (arith, length-hex front, n))
      (hex_valid front (All-take IsByte 8 (sha256 key) bytes))

-- an entry that is not taken differs from the new one
untaken :
    (k : ActiveSigningKey) (n : ℕ) (now : Text) (e : KeyringEntry)
    → taken k n e ≡ false
    → Differ e (new_entry k n now)
untaken k n now e h =
    let (h₁, g) =
      or_false_parts (text_eq e.key_id k.key_id || text_eq e.public_key k.public_key)
        (e.generation == n) h in
    let (i, p) =
      or_false_parts (text_eq e.key_id k.key_id) (text_eq e.public_key k.public_key) h₁ in
    (
      λ q. ground (arith, g, q),
      λ q. ground (arith, i, ap (λ t. text_eq e.key_id t) q, text_eq_refl e.key_id),
      λ q. ground (arith, p, ap (λ t. text_eq e.public_key t) q, text_eq_refl e.public_key),
    )

All-untaken :
    (k : ActiveSigningKey) (n : ℕ) (now : Text) (es : List KeyringEntry)
    → any (taken k n) es ≡ false
    → All (λ e. Differ e (new_entry k n now)) es
All-untaken k n now [] h = tt
All-untaken k n now (e ∷ es) h =
    let (first, rest) = or_false_parts (taken k n e) (any (taken k n) es) h in
    (untaken k n now e first, All-untaken k n now es rest)

-- the key that was inspected
abbrev Inspected : (Text → Text) → ActiveSigningKey → Type 0
Inspected sha256 k =
    (public : Text) × (decode_base64url_32 k.public_key ≡ ok public)
    × (k.key_id ≡ derive_runtime_catalog_key_id sha256 public)

inspection_lem :
    (sha256 : Text → Text) (o : InspectionOutput)
    → Ensures (Inspected sha256) (admit_inspection sha256 o)
unfolding admit_inspection decode_public_key
inspection_lem sha256 o = Ensures-bind _ _ λ public decoded. Ensures-ensure _ _ _ λ same.
    let (_, id) =
      and_parts (text_eq o.fingerprint (encode_lower_hex (sha256 public)))
        (text_eq o.key_id (derive_runtime_catalog_key_id sha256 public)) same in
    Ensures-ok _ (public, map_err-eq-ok _ _ decoded, text_eq_sound _ _ id)

module _ (sha256 : Text → Text) (timed : Text → Bool) where
  abbrev Checked : KeyringEntry → Type 0
  Checked e = (u : Unit {0}) × (validate_entry sha256 timed e ≡ ok u)

  Checked-steady : Steady Checked
  unfolding validate_entry
  Checked-steady e (u, h) = (u, h)

  new_entry-Checked :
      IsDigest sha256
      → (k : ActiveSigningKey) (n : ℕ) (now : Text) → Inspected sha256 k
      → timed now ≡ true
      → Checked (new_entry k (n + 1) now)
  unfolding validate_entry ◌>>=◌ ensure
  new_entry-Checked digest k n now (public, decoded, id) t =
      let positive : (n + 1 == 0) ≡ false = ground arith in
      let valid : valid_key_id k.key_id ≡ true =
        ap valid_key_id id ∙ derived_valid sha256 digest public in
      let same : text_eq (derive_runtime_catalog_key_id sha256 public) k.key_id ≡ true =
        ap (λ t. text_eq t k.key_id) (sym id) ∙ text_eq_refl k.key_id in
      (tt, rw (positive, valid, t, decoded, same) refl)

  rotated :
      IsDigest sha256
      → (keyring : Keyring) (k : ActiveSigningKey) (now : Text) → IsReviewed sha256 timed keyring
      → Inspected sha256 k
      → timed now ≡ true
      → Ensures (λ new. IsReviewed sha256 timed new) (propose_rotation keyring k now)
  unfolding propose_rotation
  rotated digest keyring k now good inspected t = Ensures-ensure _ _ _ λ shape.
      Ensures-bind _ _ λ index one. Ensures-bind _ _ λ newest _. Ensures-ensure _ _ _ λ fits.
        Ensures-ensure _ _ _ λ fresh.
          let es = keyring.entries in
          let new = new_entry k (newest + 1) now in
          let all_entries = demote index es ++ (new ∷ []) in
          let (_, room) =
            and_parts (keyring.schema_version == 1 && not (is_empty es))
              (ltb (length es) max_keyring_entries) shape in
          let size : length (sort_entries all_entries) ≡ length es + 1 =
            length-sort_entries all_entries
            ∙ length-append (demote index es) (new ∷ [])
            ∙ ap (λ n. n + 1) (length-demote index es) in
          let apart : All (λ e. Differ e new) (demote index es) =
            All-demote (λ e. Differ e new) (λ e d. d) index es
              (All-untaken k (newest + 1) now es (not_parts _ fresh)) in
          Ensures-ok _ (record {
            schema_version = good.schema_version;
            some_entries = omega (arith, size);
            entries_bounded = ground (arith, size, room);
            one_active =
                count-sort_entries all_entries
                ∙ count-append (demote index es) new refl
                ∙ ap suc (demote_last es index one);
            entries_differ =
                Pairs-sort_entries Differ Differ-sym (λ a e d. d) all_entries
                  (Pairs-append Differ Differ-sym (λ a e d. d) (demote index es) new apart
                    (Pairs-demote Differ Differ-sym (λ a e d. d) index es good.entries_differ));
            entries_valid =
                All-map (λ e c. (validate_entry_iff sha256 timed e).0 c) (sort_entries all_entries)
                  (All-sort_entries Checked all_entries (
                    All-append Checked (demote index es) (new ∷ [])
                      (All-demote Checked Checked-steady index es
                        (entries_checked sha256 timed keyring good))
                      (new_entry-Checked digest k newest now inspected t, tt)));
          })

  -- A rotation never proposes a keyring that the build refuses: where the present keyring passes the
  -- assertions of the build, the new key is as the signer reported it, and the time is a valid one, the
  -- proposed keyring passes them.
  pub rotation_accepted :
      IsDigest sha256
      → (keyring new : Keyring) (output : InspectionOutput) (k : ActiveSigningKey) (now : Text)
      → validate sha256 timed keyring ≡ ok tt
      → admit_inspection sha256 output ≡ ok k
      → timed now ≡ true
      → propose_rotation keyring k now ≡ ok new
      → validate sha256 timed new ≡ ok tt
  rotation_accepted digest keyring new output k now valid inspected t h =
      (validate_iff sha256 timed new).1 (
        (rotated digest keyring k now ((validate_iff sha256 timed keyring).0 valid)
            ((inspection_lem sha256 output).at k inspected) t).at
          new h)
