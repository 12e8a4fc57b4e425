-- ===== src/Signature/Keyring/Valid.antt =====
-- crates/catalog-core/build.rs, src/signature.rs: what holds of the keys that the build embeds.
use mathlib.Core.Path.{subst}
use fluxsemble_runtime_catal.Base.{
  ◌≡◌, ◌≢◌, ◌↔◌, refl, sym, ap, ◌∙◌, Bool, true, ◌&&◌, some, List, [], map, Text, ok, All, Pairs,
  Pairs-of_map, Distinct, Among, length, traverse, count_if, ==_iff, and_parts, and_intro, Ensures,
  Ensures-bind, Ensures-ok, Ensures-ensure, Ensures-last, traverse-inputs, traverse-All_from,
  map-traverse, count_if-map, find-only, find-some, find-Among, Among_unique, then-eq-ok,
  ok-injective, Eq, number_eq, arith, All-map,
}
use fluxsemble_runtime_catal.Strings.{text_eq}
use fluxsemble_runtime_catal.Strings.Split.{text_eq_sound, text_eq_refl, text_class}
use fluxsemble_runtime_catal.Catalog.Integrity.RoundTrip.{IsByte}
use fluxsemble_runtime_catal.Catalog.Require.{all_inserted}
use fluxsemble_runtime_catal.Catalog.Require.Exact.{all_inserted_iff}
use fluxsemble_runtime_catal.Signature.Base64url.{encode_base64url_no_pad}
use fluxsemble_runtime_catal.Signature.Keyring.{
  ProductionKeyStatus, active_for_signing, verification_only, retired, ProductionKeyIdentity,
  KeyringEntry, Keyring, is_active_for_signing, verifies, active_signing_identity,
  verification_identity, derive_runtime_catalog_key_id, validate_entry, validate, embed_entry,
  embed, decode_base64url_32,
}
use fluxsemble_runtime_catal.Signature.Keyring.Decoding.{decode_32_lem}

-- the key is 32 bytes, its text is their encoding, and its id is derived from them
abbrev pub IsDerived : (Text → Text) → ProductionKeyIdentity → Type 0
IsDerived sha256 k =
    (length k.public_key ≡ 32)
    × All IsByte k.public_key
    × (encode_base64url_no_pad k.public_key ≡ k.public_key_base64url)
    × (k.key_id ≡ derive_runtime_catalog_key_id sha256 k.public_key)

pub record IsKeyring (sha256 : Text → Text) (keys : List ProductionKeyIdentity) : Type 0 where
  pub one_active : count_if (λ (k : ProductionKeyIdentity). is_active_for_signing k.status) keys ≡ 1
  pub generations_distinct :
      Pairs (λ (a b : ProductionKeyIdentity). a.generation ≢ b.generation) keys
  pub ids_distinct : Pairs (λ (a b : ProductionKeyIdentity). a.key_id ≢ b.key_id) keys
  pub keys_distinct :
      Pairs (λ (a b : ProductionKeyIdentity). a.public_key_base64url ≢ b.public_key_base64url) keys
  pub keys_derived : All (IsDerived sha256) keys

-- what the embedded identity takes from the entry
abbrev pub Copies : KeyringEntry → ProductionKeyIdentity → Type 0
Copies e k =
    (decode_base64url_32 e.public_key ≡ ok k.public_key)
    × (k.generation ≡ e.generation)
    × (k.key_id ≡ e.key_id)
    × (k.public_key_base64url ≡ e.public_key)
    × (k.status ≡ e.status)

pub embed_entry_lem : (e : KeyringEntry) → Ensures (Copies e) (embed_entry e)
unfolding embed_entry
embed_entry_lem e =
    Ensures-bind _ _ λ public decoded. Ensures-ok _ (decoded, refl, refl, refl, refl)

-- a property of pairs, carried back along a field
along :
    {C : Type 0} (p : KeyringEntry → C) (q : ProductionKeyIdentity → C)
    → ((e : KeyringEntry) (k : ProductionKeyIdentity) → Copies e k → q k ≡ p e)
    → (entries : List KeyringEntry) (keys : List ProductionKeyIdentity)
    → traverse embed_entry entries ≡ ok keys
    → map q keys ≡ map p entries
along p q same entries keys h =
    map-traverse p q embed_entry (λ e k r. same e k ((embed_entry_lem e).at k r)) entries keys h

module _ {C : Type 0} ⦃c : Eq C⦄ (p : KeyringEntry → C) (q : ProductionKeyIdentity → C) where
  distinct_along :
      ((e : KeyringEntry) (k : ProductionKeyIdentity) → Copies e k → q k ≡ p e)
      → (entries : List KeyringEntry) (keys : List ProductionKeyIdentity)
      → traverse embed_entry entries ≡ ok keys
      → all_inserted [] (map p entries) ≡ true
      → Pairs (λ (a b : ProductionKeyIdentity). q a ≢ q b) keys
  distinct_along same entries keys h d =
      Pairs-of_map (λ x y. x ≢ y) q keys
        (subst Distinct (sym (along p q same entries keys h))
          ((all_inserted_iff (map p entries)).0 d))

active_entries :
    (keyring : Keyring) (keys : List ProductionKeyIdentity)
    → traverse embed_entry keyring.entries ≡ ok keys
    → count_if (λ (e : KeyringEntry). is_active_for_signing e.status) keyring.entries ≡ 1
    → count_if (λ (k : ProductionKeyIdentity). is_active_for_signing k.status) keys ≡ 1
active_entries keyring keys h one =
    sym (count_if-map is_active_for_signing (λ (k : ProductionKeyIdentity). k.status) keys)
    ∙ ap (count_if is_active_for_signing) (
        along (λ (e : KeyringEntry). e.status) (λ (k : ProductionKeyIdentity). k.status)
          (λ e k c. c.4) keyring.entries keys h)
    ∙ count_if-map is_active_for_signing (λ (e : KeyringEntry). e.status) keyring.entries
    ∙ one

module _ (sha256 : Text → Text) (valid_activation_time : Text → Bool) where
  -- the entry's key decodes, and its id is derived from it
  abbrev pub Checked : KeyringEntry → Type 0
  Checked e =
      (public : Text) × (decode_base64url_32 e.public_key ≡ ok public)
      × (derive_runtime_catalog_key_id sha256 public ≡ e.key_id)

  pub validate_entry_lem :
      (e : KeyringEntry) → Ensures (λ _. Checked e) (validate_entry sha256 valid_activation_time e)
  unfolding validate_entry
  validate_entry_lem e = Ensures-ensure _ _ _ λ _. Ensures-ensure _ _ _ λ _.
      Ensures-ensure _ _ _ λ _.
        Ensures-bind _ _
          λ public decoded. Ensures-last _ _ λ derived. (public, decoded, text_eq_sound _ _ derived)

  IsDerived-entry :
      (e : KeyringEntry) (k : ProductionKeyIdentity)
      → Checked e
      → embed_entry e ≡ ok k
      → IsDerived sha256 k
  IsDerived-entry e k (public, decoded, derived) h =
      let (again, _, same_id, same_text, _) = (embed_entry_lem e).at k h in
      let (long, (small, spelled)) = (decode_32_lem e.public_key).at k.public_key again in
      let same : public ≡ k.public_key = ok-injective (sym decoded ∙ again) in
      (
        long,
        small,
        spelled ∙ sym same_text,
        same_id ∙ sym derived ∙ ap (derive_runtime_catalog_key_id sha256) same,
      )

  -- The keys that the build embeds are well formed: exactly one of them is active for signing; no two
  -- have the same generation, id or public key; each public key is 32 bytes whose encoding is its text;
  -- and each id is derived from the digest of the public key.
  pub embed-IsKeyring :
      (keyring : Keyring) → Ensures (IsKeyring sha256) (embed sha256 valid_activation_time keyring)
  unfolding embed validate
  embed-IsKeyring keyring = record {
    at = λ keys h.
        let (valid, embedded) = then-eq-ok (validate sha256 valid_activation_time keyring) _ h in
        (validated keyring keys embedded).at tt valid;
  }
    where
      validated :
          (keyring : Keyring) (keys : List ProductionKeyIdentity)
          → traverse embed_entry keyring.entries ≡ ok keys
          → Ensures (λ _. IsKeyring sha256 keys) (validate sha256 valid_activation_time keyring)
      validated keyring keys embedded = Ensures-ensure _ _ _ λ schema.
          Ensures-ensure _ _ _ λ bounded. Ensures-ensure _ _ _ λ one.
            Ensures-ensure _ _ _ λ generations. Ensures-ensure _ _ _ λ ids.
              Ensures-ensure _ _ _ λ publics. Ensures-bind _ _ λ checked each.
                Ensures-ok tt (record {
                  one_active = active_entries keyring keys embedded ((==_iff _ _).0 one);
                  generations_distinct =
                      distinct_along (λ (e : KeyringEntry). e.generation)
                        (λ (k : ProductionKeyIdentity). k.generation) (λ e k c. c.1) keyring.entries
                        keys embedded generations;
                  ids_distinct =
                      distinct_along (λ (e : KeyringEntry). e.key_id)
                        (λ (k : ProductionKeyIdentity). k.key_id) (λ e k c. c.2) keyring.entries
                        keys embedded ids;
                  keys_distinct =
                      distinct_along (λ (e : KeyringEntry). e.public_key)
                        (λ (k : ProductionKeyIdentity). k.public_key_base64url) (λ e k c. c.3)
                        keyring.entries keys embedded publics;
                  keys_derived =
                      traverse-All_from Checked (IsDerived sha256) embed_entry
                        (λ e k c r. IsDerived-entry e k c r) keyring.entries
                        (All-map (λ e (u, r). (validate_entry_lem e).at u r) keyring.entries
                          (traverse-inputs (validate_entry sha256 valid_activation_time)
                            keyring.entries each))
                        embedded;
                })

active : (s : ProductionKeyStatus) → is_active_for_signing s ≡ true → s ≡ active_for_signing
active active_for_signing h = refl
active verification_only h = ground arith
active retired h = ground arith

-- In a well-formed keyring the search for the signing key does not panic: it finds the key that is
-- active for signing, and no other key is.
pub active_signing_identity_total :
    (sha256 : Text → Text) (keys : List ProductionKeyIdentity)
    → IsKeyring sha256 keys
    → (k : ProductionKeyIdentity) × (active_signing_identity keys ≡ some k)
      × Among k keys
      × (k.status ≡ active_for_signing)
      × ((j : ProductionKeyIdentity) → Among j keys → j.status ≡ active_for_signing → j ≡ k)
unfolding active_signing_identity
active_signing_identity_total sha256 keys good =
    let (k, found, only) =
      find-only (λ (k : ProductionKeyIdentity). is_active_for_signing k.status) keys
        good.one_active in
    let (m, p) =
      find-Among (λ (k : ProductionKeyIdentity). is_active_for_signing k.status) keys k found in
    (
      k,
      found,
      m,
      active k.status p,
      λ j n s. only j n (subst (λ t. is_active_for_signing t ≡ true) (sym s) refl),
    )

not_retired : (s : ProductionKeyStatus) → (verifies s ≡ true) ↔ (s ≢ retired)
not_retired active_for_signing = (λ h e. ground (arith, e), λ h. refl)
not_retired verification_only = (λ h e. ground (arith, e), λ h. refl)
not_retired retired = (λ h. ground (arith, h), λ h. absurd (h refl))

-- In a well-formed keyring the key that verifies under an id is the key of that id, if it is not retired.
pub verification_identity_iff :
    (sha256 : Text → Text) (keys : List ProductionKeyIdentity)
    → IsKeyring sha256 keys
    → (id : Text) (k : ProductionKeyIdentity)
    → (verification_identity keys id ≡ some k)
      ↔ (Among k keys × (k.key_id ≡ id) × (k.status ≢ retired))
unfolding verification_identity
verification_identity_iff sha256 keys good id k = (sound k, complete)
  where
    sound :
        (k : ProductionKeyIdentity)
        → verification_identity keys id ≡ some k
        → Among k keys × (k.key_id ≡ id) × (k.status ≢ retired)
    sound k h =
        let (m, p) =
          find-Among (λ (e : ProductionKeyIdentity). text_eq e.key_id id && verifies e.status) keys
            k h in
        let (same, alive) = and_parts (text_eq k.key_id id) (verifies k.status) p in
        (m, text_eq_sound k.key_id id same, (not_retired k.status).0 alive)

    complete :
        Among k keys × (k.key_id ≡ id) × (k.status ≢ retired)
        → verification_identity keys id ≡ some k
    complete (m, same, alive) =
        let p : (text_eq k.key_id id && verifies k.status) ≡ true =
          and_intro (text_eq k.key_id id) (verifies k.status)
            (subst (λ t. text_eq k.key_id t ≡ true) same (text_eq_refl k.key_id))
            ((not_retired k.status).1 alive) in
        let (j, found) =
          find-some (λ (e : ProductionKeyIdentity). text_eq e.key_id id && verifies e.status) keys k
            m p in
        let (n, named, _) = sound j found in
        found
        ∙ ap some (
            Among_unique (λ (k : ProductionKeyIdentity). k.key_id) keys good.ids_distinct j k n m
              (named ∙ sym same))
