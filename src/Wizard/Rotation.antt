-- ===== src/Wizard/Rotation.antt =====
-- crates/catalog-wizard/src/key_rotation.rs: the keyring that a rotation proposes. The prompts, the files
-- and the isolated signer are not modelled; the time is an argument.
pub mod Entries
pub mod Checked
pub mod Accepted
pub mod Kept
pub mod Signs
pub mod Examples
use fluxsemble_runtime_catal.Base.{
  ℕ, zero, suc, ◌+◌, ◌*◌, Bool, true, false, ◌&&◌, ◌||◌, not, Option, none, some, List, [], ◌∷◌,
  ◌++◌, Text, Result, ok, err, ◌>>=◌, ◌>>◌, ok_or, map_err, ensure, leb, ltb, ◌==◌, any, length,
  if◌then◌else◌,
}
use fluxsemble_runtime_catal.Strings.{text_eq, is_empty}
use fluxsemble_runtime_catal.Signature.Base64url.{encode_lower_hex}
use fluxsemble_runtime_catal.Signature.Keyring.{
  KeyringEntry, ProductionKeyIdentity, Keyring, active_for_signing, verification_only,
  is_active_for_signing, max_keyring_entries, decode_base64url_32, derive_runtime_catalog_key_id,
}

pub data RotationError : Type 0 where
  config external_command : RotationError

pub record ActiveSigningKey : Type 0 where
  pub key_id : Text
  pub public_key : Text
  pub generation : ℕ
  pub fingerprint : Text
  pub keyring_sha256 : Text

pub record InspectionOutput : Type 0 where
  pub key_id : Text
  pub public_key : Text
  pub fingerprint : Text

-- the same steps as the decoder of the build, with another error
unfoldable pub decode_public_key : Text → Result RotationError Text
decode_public_key value = map_err external_command (decode_base64url_32 value)

-- parse_inspection_output, after the JSON is read and found canonical
unfoldable pub admit_inspection :
    (Text → Text) → InspectionOutput → Result RotationError ActiveSigningKey
admit_inspection sha256 output = do
  public ← decode_public_key output.public_key
  ensure external_command (
      text_eq output.fingerprint (encode_lower_hex (sha256 public))
      && text_eq output.key_id (derive_runtime_catalog_key_id sha256 public))
  ok (record {
    key_id = output.key_id;
    public_key = output.public_key;
    generation = 0;
    fingerprint = output.fingerprint;
    keyring_sha256 = [];
  })

-- what an inspected key takes from the embedded identity and the digest of the embedded keyring
unfoldable pub bind_active_signing_identity :
    Text → ProductionKeyIdentity → ActiveSigningKey → Result RotationError ActiveSigningKey
bind_active_signing_identity keyring_digest active inspected = do
  ensure config (
      text_eq inspected.key_id active.key_id
      && text_eq inspected.public_key active.public_key_base64url)
  ok (record inspected { generation = active.generation; keyring_sha256 = keyring_digest })

-- the indices of the active entries, counted from `base`
unfoldable pub active_indices : ℕ → List KeyringEntry → List ℕ
active_indices base [] = []
active_indices base (e ∷ es) =
    let rest = active_indices (suc base) es in
    elim (is_active_for_signing e.status) [ true ↦ base ∷ rest | false ↦ rest ]

abbrev pub only_index : List ℕ → Result RotationError ℕ
only_index (index ∷ []) = ok index
only_index _ = err config

unfoldable pub exactly_one_active : List KeyringEntry → Result RotationError ℕ
exactly_one_active entries = only_index (active_indices 0 entries)

-- entries[index].status = VerificationOnly
unfoldable pub demote : ℕ → List KeyringEntry → List KeyringEntry
demote index [] = []
demote zero (e ∷ es) = record e { status = verification_only } ∷ es
demote (suc index) (e ∷ es) = e ∷ demote index es

-- iter().max()
abbrev pub max_with : ℕ → Option ℕ → ℕ
max_with n none = n
max_with n (some m) = if leb n m then m else n

unfoldable pub max_generation : List KeyringEntry → Option ℕ
max_generation [] = none
max_generation (e ∷ es) = some (max_with e.generation (max_generation es))

-- sort_by_key(|entry| entry.generation), which is stable
unfoldable pub insert_entry : KeyringEntry → List KeyringEntry → List KeyringEntry
insert_entry e [] = e ∷ []
insert_entry e (f ∷ fs) =
    let rest = insert_entry e fs in
    elim (leb e.generation f.generation) [ true ↦ e ∷ f ∷ fs | false ↦ f ∷ rest ]

unfoldable pub sort_entries : List KeyringEntry → List KeyringEntry
sort_entries [] = []
sort_entries (e ∷ es) = insert_entry e (sort_entries es)

abbrev pub u32_limit : ℕ
u32_limit = 4294967296

-- the entry is not of the new key
abbrev pub taken : ActiveSigningKey → ℕ → KeyringEntry → Bool
taken inspected generation e =
    text_eq e.key_id inspected.key_id
    || text_eq e.public_key inspected.public_key
    || e.generation == generation

abbrev pub new_entry : ActiveSigningKey → ℕ → Text → KeyringEntry
new_entry inspected generation now = record {
  generation = generation;
  key_id = inspected.key_id;
  public_key = inspected.public_key;
  status = active_for_signing;
  activated_at = now;
}

-- the steps of `rotate_key` from the keyring that is read to the one that is written
unfoldable pub propose_rotation : Keyring → ActiveSigningKey → Text → Result RotationError Keyring
propose_rotation keyring inspected now = do
  ensure config (
      keyring.schema_version == 1
      && not (is_empty keyring.entries)
      && ltb (length keyring.entries) max_keyring_entries)
  active_index ← exactly_one_active keyring.entries
  newest ← ok_or config (max_generation keyring.entries)
  ensure config (ltb (newest + 1) u32_limit)
  ensure config (not (any (taken inspected (newest + 1)) keyring.entries))
  ok (record {
    schema_version = keyring.schema_version;
    entries =
        sort_entries
          (demote active_index keyring.entries ++ (new_entry inspected (newest + 1) now ∷ []));
  })
