-- ===== src/Signature/Keyring.antt =====
-- crates/catalog-core/src/signature.rs, build.rs: the embedded keyring and the checks of the build that
-- embeds it. An assertion of the build that fails is the error `build_panics`.
pub mod Decoding
pub mod Valid
use fluxsemble_runtime_catal.Base.{
  ℕ, ◌+◌, ◌*◌, ◌/◌, ◌%◌, Bool, true, false, ◌&&◌, ◌||◌, not, Option, none, some, List, [], ◌∷◌,
  ◌++◌, map, Text, codes, Result, ok, err, ◌>>=◌, ◌>>◌, ok_or, ensure, Eq, number_eq, leb, ◌==◌,
  within, all, any, find, count_if, length, take, drop, traverse, if◌then◌else◌,
}
use fluxsemble_runtime_catal.Strings.{text_eq, is_empty, is_digit, starts_with, contains_byte}
use fluxsemble_runtime_catal.Strings.Split.{text_class}
use fluxsemble_runtime_catal.Catalog.Require.{all_inserted}
use fluxsemble_runtime_catal.Signature.Base64url.{base64url_value, encode_lower_hex}

pub data ProductionKeyStatus : Type 0 where
  active_for_signing verification_only retired : ProductionKeyStatus

pub record ProductionKeyIdentity : Type 0 where
  pub generation : ℕ
  pub key_id : Text
  pub public_key_base64url : Text
  pub public_key : Text
  pub status : ProductionKeyStatus
  pub activated_at : Text

abbrev pub is_active_for_signing : ProductionKeyStatus → Bool
is_active_for_signing active_for_signing = true
is_active_for_signing verification_only = false
is_active_for_signing retired = false

abbrev pub verifies : ProductionKeyStatus → Bool
verifies active_for_signing = true
verifies verification_only = true
verifies retired = false

-- ProductionKeyringV1::active_signing_identity; none where the source panics
unfoldable pub active_signing_identity : List ProductionKeyIdentity → Option ProductionKeyIdentity
active_signing_identity entries =
    find (λ (e : ProductionKeyIdentity). is_active_for_signing e.status) entries

-- ProductionKeyringV1::verification_identity
unfoldable pub verification_identity :
    List ProductionKeyIdentity → Text → Option ProductionKeyIdentity
verification_identity entries key_id =
    find (λ (e : ProductionKeyIdentity). text_eq e.key_id key_id && verifies e.status) entries

abbrev pub production_key_id_prefix : Text
production_key_id_prefix = codes "runtime-catalog-ed25519-"

-- derive_runtime_catalog_key_id, and derive_key_id of the build; the digest is a parameter
unfoldable pub derive_runtime_catalog_key_id : (Text → Text) → Text → Text
derive_runtime_catalog_key_id sha256 public_key =
    production_key_id_prefix ++ encode_lower_hex (take 8 (sha256 public_key))

pub data BuildError : Type 0 where
  build_panics : BuildError

-- an entry of the reviewed keyring file
pub record KeyringEntry : Type 0 where
  pub generation : ℕ
  pub key_id : Text
  pub public_key : Text
  pub status : ProductionKeyStatus
  pub activated_at : Text

pub record Keyring : Type 0 where
  pub schema_version : ℕ
  pub entries : List KeyringEntry

abbrev pub max_keyring_entries : ℕ
max_keyring_entries = 32

unfoldable pub valid_key_id : Text → Bool
valid_key_id value =
    length value == length production_key_id_prefix + 16
    && starts_with production_key_id_prefix value
    && all (λ b. is_digit b || within b'a' b'f' b) (drop (length production_key_id_prefix) value)

abbrev pub build_letter : ℕ → Result BuildError ℕ
build_letter e = ok_or build_panics (base64url_value e)

-- by chunks of four letters; in a chunk of three, the last letter may have no stray bits
unfoldable pub build_chunks : Text → Result BuildError Text
build_chunks [] = ok []
build_chunks (e ∷ []) = err build_panics
build_chunks (e ∷ f ∷ []) = do
  a ← build_letter e
  b ← build_letter f
  ok ((a * 4 % 256 + b / 16) ∷ [])
build_chunks (e ∷ f ∷ g ∷ []) = do
  a ← build_letter e
  b ← build_letter f
  c ← build_letter g
  ensure build_panics (c % 4 == 0)
  ok ((a * 4 % 256 + b / 16) ∷ (b * 16 % 256 + c / 4) ∷ [])
build_chunks (e ∷ f ∷ g ∷ h ∷ rest) = do
  a ← build_letter e
  b ← build_letter f
  c ← build_letter g
  d ← build_letter h
  tail ← build_chunks rest
  ok ((a * 4 % 256 + b / 16) ∷ (b * 16 % 256 + c / 4) ∷ (c * 64 % 256 + d) ∷ tail)

unfoldable pub decode_base64url_32 : Text → Result BuildError Text
decode_base64url_32 value = do
  ensure build_panics (length value == 43 && not (contains_byte b'=' value))
  decoded ← build_chunks value
  ensure build_panics (length decoded == 32)
  ok decoded

-- the identity that `main` writes for an entry
unfoldable pub embed_entry : KeyringEntry → Result BuildError ProductionKeyIdentity
embed_entry entry = do
  public ← decode_base64url_32 entry.public_key
  ok (record {
    generation = entry.generation;
    key_id = entry.key_id;
    public_key_base64url = entry.public_key;
    public_key = public;
    status = entry.status;
    activated_at = entry.activated_at;
  })

-- what the build calls: the digest, and the check of a time by `chrono`
module _ (sha256 : Text → Text) (valid_activation_time : Text → Bool) where
  -- the body of the loop of `validate`, after the three insertions
  unfoldable pub validate_entry : KeyringEntry → Result BuildError (Unit {0})
  validate_entry entry = do
    ensure build_panics (not (entry.generation == 0))
    ensure build_panics (valid_key_id entry.key_id)
    ensure build_panics (valid_activation_time entry.activated_at)
    public ← decode_base64url_32 entry.public_key
    ensure build_panics (text_eq (derive_runtime_catalog_key_id sha256 public) entry.key_id)

  -- every assertion panics alike, so the insertions into the three sets are tested first
  unfoldable pub validate : Keyring → Result BuildError (Unit {0})
  validate keyring = do
    ensure build_panics (keyring.schema_version == 1)
    ensure build_panics
        (not (is_empty keyring.entries) && leb (length keyring.entries) max_keyring_entries)
    ensure build_panics
        (count_if (λ (e : KeyringEntry). is_active_for_signing e.status) keyring.entries == 1)
    ensure build_panics (all_inserted [] (map (λ (e : KeyringEntry). e.generation) keyring.entries))
    ensure build_panics (all_inserted [] (map (λ (e : KeyringEntry). e.key_id) keyring.entries))
    ensure build_panics (all_inserted [] (map (λ (e : KeyringEntry). e.public_key) keyring.entries))
    checked ← traverse validate_entry keyring.entries
    ok tt

  -- the embedded keys of a keyring that the build accepts
  unfoldable pub embed : Keyring → Result BuildError (List ProductionKeyIdentity)
  embed keyring = do validate keyring; traverse embed_entry keyring.entries
