-- ===== src/Wizard/Rotation/Checked.antt =====
-- crates/catalog-core/build.rs: which entries of a keyring pass the checks of the build.
use fluxsemble_runtime_catal.Base.{
  ℕ, ◌≡◌, ◌≢◌, ◌≤◌, ◌⊎◌, ◌↔◌, ◌+◌, refl, sym, ap, ◌∙◌, Bool, true, false, ◌&&◌, ◌||◌, ◌==◌, Option,
  none, some, ◌++◌, Text, ok, ◌>>=◌, ensure, within, all, All, All-of_all, all_of_All, and_parts,
  length, drop, Ensures, Ensures-bind, Ensures-ensure, Ensures-last, arith,
}
use fluxsemble_runtime_catal.Strings.{text_eq, is_digit, starts_with, strip_prefix}
use fluxsemble_runtime_catal.Strings.Split.{text_eq_sound, text_eq_refl}
use fluxsemble_runtime_catal.Strings.Prefixes.{strip_prefix_sound}
use fluxsemble_runtime_catal.Catalog.Integrity.RoundTrip.{IsByte}
use fluxsemble_runtime_catal.Signature.Base64url.{encode_base64url_no_pad}
use fluxsemble_runtime_catal.Signature.Base64url.RoundTrip.{base64url_iff}
use fluxsemble_runtime_catal.Signature.Keyring.{
  KeyringEntry, production_key_id_prefix, valid_key_id, decode_base64url_32,
  derive_runtime_catalog_key_id, validate_entry,
}
use fluxsemble_runtime_catal.Signature.Keyring.Decoding.{decoders_agree}

-- a lowercase hexadecimal digit
abbrev pub IsHexByte : ℕ → Type 0
IsHexByte b = ((b'0' ≤ b) × (b ≤ b'9')) ⊎ ((b'a' ≤ b) × (b ≤ b'f'))

-- the prefix of key ids, and 16 lowercase hexadecimal digits
abbrev pub IsKeyId : Text → Type 0
IsKeyId t = (h : Text) × (t ≡ production_key_id_prefix ++ h) × (length h ≡ 16) × All IsHexByte h

-- the text is the unpadded base64url encoding of the 32 bytes
abbrev pub Encodes : Text → Text → Type 0
Encodes text key = (length key ≡ 32) × All IsByte key × (text ≡ encode_base64url_no_pad key)

-- a positive generation, a key id that is derived from the key, the encoding of a key, and a valid time
abbrev pub IsEntry : (Text → Text) → (Text → Bool) → KeyringEntry → Type 0
IsEntry sha256 timed e =
    (e.generation ≢ 0)
    × IsKeyId e.key_id
    × (timed e.activated_at ≡ true)
    × ((key : Text) × Encodes e.public_key key
        × (e.key_id ≡ derive_runtime_catalog_key_id sha256 key))

hex_iff : (h : Text) → (all (λ b. is_digit b || within b'a' b'f' b) h ≡ true) ↔ All IsHexByte h
hex_iff h = (
  All-of_all IsHexByte (λ b. is_digit b || within b'a' b'f' b) (λ b k. ground (arith, k)) h,
  all_of_All IsHexByte (λ b. is_digit b || within b'a' b'f' b) (λ b k. ground (arith, k)) h,
)

prefixed :
    (t : Text) (o : Option Text)
    → strip_prefix production_key_id_prefix t ≡ o
    → starts_with production_key_id_prefix t ≡ true
    → (h : Text) × (t ≡ production_key_id_prefix ++ h)
unfolding starts_with
prefixed t none e k = ground (arith, e, k)
prefixed t (some h) e k = (h, strip_prefix_sound production_key_id_prefix t h e)

IsKeyId-sound : (t : Text) → valid_key_id t ≡ true → IsKeyId t
unfolding valid_key_id
IsKeyId-sound t v =
    let hex = λ (u : Text).
      all (λ b. is_digit b || within b'a' b'f' b) (drop (length production_key_id_prefix) u) in
    let (front, digits) =
      and_parts
        (length t == length production_key_id_prefix + 16 && starts_with production_key_id_prefix t)
        (hex t) v in
    let (long, starts) =
      and_parts (length t == length production_key_id_prefix + 16)
        (starts_with production_key_id_prefix t) front in
    let (h, e) = prefixed t (strip_prefix production_key_id_prefix t) refl starts in
    let size : length t ≡ length (production_key_id_prefix ++ h) = ap length e in
    (h, e, ground (arith, size, long), (hex_iff h).0 (sym (ap hex e) ∙ digits))

valid_key_id_complete : (t : Text) → IsKeyId t → valid_key_id t ≡ true
unfolding valid_key_id starts_with strip_prefix
valid_key_id_complete t (h, e, n, bytes) = rw (e, (hex_iff h).1 bytes, n) refl

key_iff : (text key : Text) → (decode_base64url_32 text ≡ ok key) ↔ Encodes text key
key_iff text key = (
  λ h.
      let (long, (small, same)) = (base64url_iff 32 text key).0 ((decoders_agree text key).0 h) in
      (long, small, same),
  λ h.
      let (long, small, same) = h in
      (decoders_agree text key).1 ((base64url_iff 32 text key).1 (long, (small, same))),
)

module _ (sha256 : Text → Text) (timed : Text → Bool) where
  IsEntry-sound :
      (e : KeyringEntry) → Ensures (λ _. IsEntry sha256 timed e) (validate_entry sha256 timed e)
  unfolding validate_entry
  IsEntry-sound e = Ensures-ensure _ _ _ λ positive. Ensures-ensure _ _ _ λ id.
      Ensures-ensure _ _ _ λ time. Ensures-bind _ _ λ key decoded. Ensures-last _ _ λ derived. (
        λ z. ground (arith, positive, z),
        IsKeyId-sound e.key_id id,
        time,
        (key, (key_iff e.public_key key).0 decoded, sym (text_eq_sound _ _ derived)),
      )

  validate_entry_complete :
      (e : KeyringEntry) → IsEntry sha256 timed e → validate_entry sha256 timed e ≡ ok tt
  unfolding validate_entry ◌>>=◌ ensure
  validate_entry_complete e (positive, id, time, (key, encoded, derived)) =
      let nonzero : (e.generation == 0) ≡ false = ground (arith, positive) in
      let same : text_eq (derive_runtime_catalog_key_id sha256 key) e.key_id ≡ true =
        ap (λ t. text_eq t e.key_id) (sym derived) ∙ text_eq_refl e.key_id in
      rw
        (
          nonzero,
          valid_key_id_complete e.key_id id,
          time,
          (key_iff e.public_key key).1 encoded,
          same,
        )
        refl

  -- the checks of an entry, without the decoder
  pub validate_entry_iff :
      (e : KeyringEntry)
      → ((u : Unit {0}) × (validate_entry sha256 timed e ≡ ok u)) ↔ IsEntry sha256 timed e
  validate_entry_iff e = (λ h. (IsEntry-sound e).at h.0 h.1, λ h. (tt, validate_entry_complete e h))
