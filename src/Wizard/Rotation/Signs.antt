-- ===== src/Wizard/Rotation/Signs.antt =====
-- crates/catalog-wizard/src/key_rotation.rs, crates/catalog-core/build.rs: after the build has embedded the
-- proposed keyring, the new key is the one that signs.
use fluxsemble_runtime_catal.Base.{
  ℕ, Option, none, ◌+◌, ◌≡◌, ◌≤◌, ◌<◌, refl, sym, ap, ◌∙◌, Bool, true, some, List, [], ◌∷◌, ◌++◌,
  Text, ok, ok_or-eq-ok, ◌>>=◌, ensure, traverse, All, All-map, All-append, All-Among, All-of_Among,
  count_if-none, traverse-All_from, Ensures, Ensures-bind, Ensures-ensure, Ensures-ok, arith,
}
use fluxsemble_runtime_catal.Strings.Split.{text_eq_refl}
use fluxsemble_runtime_catal.Signature.Keyring.{
  KeyringEntry, Keyring, ProductionKeyIdentity, is_active_for_signing, embed_entry, embed, validate,
  validate_entry, active_signing_identity,
}
use fluxsemble_runtime_catal.Signature.Keyring.Valid.{
  validate_entry_lem, embed_entry_lem, embed-IsKeyring, active_signing_identity_total,
}
use fluxsemble_runtime_catal.Wizard.Sequence.{or_zero}
use fluxsemble_runtime_catal.Wizard.Rotation.{
  ActiveSigningKey, InspectionOutput, config, admit_inspection, bind_active_signing_identity,
  demote, max_with, max_generation, new_entry, propose_rotation,
}
use fluxsemble_runtime_catal.Wizard.Rotation.Entries.{is_active, All-sort_entries, demote_last}
use fluxsemble_runtime_catal.Wizard.Rotation.Accepted.{entries_checked, traverse-ok, validate_iff}
use fluxsemble_runtime_catal.Wizard.Rotation.Kept.{IsDigest, rotation_accepted}

within_newest :
    (e : KeyringEntry) (newest : Option ℕ) (n : ℕ)
    → max_with e.generation newest ≡ n
    → e.generation ≤ n
within_newest e none n h = omega (arith, h)
within_newest e (some m) n h = ground (arith, h)

rest_within : (g : ℕ) (newest : Option ℕ) (n : ℕ) → max_with g newest ≡ n → or_zero newest ≤ n
rest_within g none n h = omega arith
rest_within g (some m) n h = ground (arith, h)

max_generation_lem :
    (es : List KeyringEntry) (newest : Option ℕ)
    → max_generation es ≡ newest
    → (n : ℕ) → or_zero newest ≤ n
    → All (λ (e : KeyringEntry). e.generation ≤ n) es
unfolding max_generation
max_generation_lem [] newest h n k = tt
max_generation_lem (e ∷ es) none h n k = absurd (ground (arith, h))
max_generation_lem (e ∷ es) (some m) h n k =
    let top : max_with e.generation (max_generation es) ≡ m = ground (arith, h) in
    (
      omega (arith, within_newest e (max_generation es) m top, k),
      max_generation_lem es (max_generation es) refl n
          (omega (arith, rest_within e.generation (max_generation es) m top, k)),
    )

-- the entry holds the new key, with the generation n
abbrev Holds : ActiveSigningKey → ℕ → KeyringEntry → Type 0
Holds k n e = (e.key_id ≡ k.key_id) × (e.public_key ≡ k.public_key) × (e.generation ≡ n)

-- the generation n is above the others, and each active entry holds the new key
abbrev Succeeds : Keyring → ActiveSigningKey → Keyring → Type 0
Succeeds keyring k new =
    (n : ℕ) × All (λ (e : KeyringEntry). e.generation < n) keyring.entries
    × All (λ e. is_active e ≡ true → Holds k n e) new.entries

propose_rotation_lem :
    (keyring : Keyring) (k : ActiveSigningKey) (now : Text)
    → Ensures (Succeeds keyring k) (propose_rotation keyring k now)
unfolding propose_rotation
propose_rotation_lem keyring k now = Ensures-ensure _ _ _ λ shape. Ensures-bind _ _ λ index one.
    Ensures-bind _ _ λ newest last. Ensures-ensure _ _ _ λ fits. Ensures-ensure _ _ _ λ fresh.
      let es = keyring.entries in
      let none_active = count_if-none is_active (demote index es) (demote_last es index one) in
      let passive : All (λ e. is_active e ≡ true → Holds k (newest + 1) e) (demote index es) =
        All-of_Among (λ e. is_active e ≡ true → Holds k (newest + 1) e) (demote index es)
          (λ e m a. absurd (ground (arith, a, none_active e m))) in
      Ensures-ok _ (
        newest + 1,
        All-map (λ e small. omega (arith, small)) es
            (max_generation_lem es (some newest) (ok_or-eq-ok config (max_generation es) last)
              newest (omega arith)),
        All-sort_entries (λ e. is_active e ≡ true → Holds k (newest + 1) e)
            (demote index es ++ (new_entry k (newest + 1) now ∷ []))
            (All-append (λ e. is_active e ≡ true → Holds k (newest + 1) e) (demote index es)
              (new_entry k (newest + 1) now ∷ []) passive (λ a. (refl, refl, refl), tt)),
      )

Holds-bound :
    (dg : Text) (k : ActiveSigningKey) (n : ℕ) (a : ProductionKeyIdentity)
    → a.key_id ≡ k.key_id
    → a.public_key_base64url ≡ k.public_key
    → bind_active_signing_identity dg a k
      ≡ ok (record k { generation = a.generation; keyring_sha256 = dg })
unfolding bind_active_signing_identity ◌>>=◌ ensure
Holds-bound dg k n a i p = rw (i, p, text_eq_refl k.key_id, text_eq_refl k.public_key) refl

-- the same of an embedded identity
abbrev HeldBy : ActiveSigningKey → ℕ → ProductionKeyIdentity → Type 0
HeldBy k n a =
    is_active_for_signing a.status ≡ true
    → (a.key_id ≡ k.key_id) × (a.public_key_base64url ≡ k.public_key) × (a.generation ≡ n)

held :
    (k : ActiveSigningKey) (n : ℕ) (entries : List KeyringEntry) (keys : List ProductionKeyIdentity)
    → All (λ e. is_active e ≡ true → Holds k n e) entries
    → traverse embed_entry entries ≡ ok keys
    → All (HeldBy k n) keys
held k n entries keys h each =
    traverse-All_from (λ e. is_active e ≡ true → Holds k n e) (HeldBy k n) embed_entry
      (λ e a c r signing.
        let (_, generation, id, public, status) = (embed_entry_lem e).at a r in
        let (i, p, g) = c (sym (ap is_active_for_signing status) ∙ signing) in
        (id ∙ i, public ∙ p, generation ∙ g))
      entries h each

All-below :
    (es : List KeyringEntry) (n m : ℕ)
    → m ≡ n
    → All (λ (e : KeyringEntry). e.generation < n) es
    → All (λ (e : KeyringEntry). e.generation < m) es
All-below es n m same h = All-map (λ e less. omega (arith, less, same)) es h

module _ (sha256 : Text → Text) (timed : Text → Bool) where
  embeddable :
      (e : KeyringEntry) (u : Unit {0})
      → validate_entry sha256 timed e ≡ ok u
      → (i : ProductionKeyIdentity) × (embed_entry e ≡ ok i)
  unfolding embed_entry ◌>>=◌
  embeddable e u c =
      let (public, decoded, _) = (validate_entry_lem sha256 timed e).at u c in
      (
        record {
          generation = e.generation;
          key_id = e.key_id;
          public_key_base64url = e.public_key;
          public_key = public;
          status = e.status;
          activated_at = e.activated_at;
        },
        rw (decoded) refl,
      )

  embed_total :
      (new : Keyring)
      → validate sha256 timed new ≡ ok tt
      → (keys : List ProductionKeyIdentity) × (embed sha256 timed new ≡ ok keys)
        × (traverse embed_entry new.entries ≡ ok keys)
  unfolding embed ◌>>=◌
  embed_total new valid =
      let good = (validate_iff sha256 timed new).0 valid in
      let (keys, h) = traverse-ok embed_entry new.entries (
        All-map (λ e (u, c). embeddable e u c) new.entries
          (entries_checked sha256 timed new good)) in
      (keys, rw (valid) h, h)

  -- A rotation takes effect with the next build: where the present keyring passes the assertions of the
  -- build, the new key is as the signer reported it, and the time is a valid one, the build embeds the
  -- proposed keyring, the identity that is active for signing is then of a generation above every
  -- entry of the present keyring, and the new key is bound to that identity.
  pub rotation_signs :
      IsDigest sha256
      → (keyring new : Keyring) (output : InspectionOutput) (k : ActiveSigningKey)
        (now keyring_digest : Text)
      → validate sha256 timed keyring ≡ ok tt
      → admit_inspection sha256 output ≡ ok k
      → timed now ≡ true
      → propose_rotation keyring k now ≡ ok new
      → (keys : List ProductionKeyIdentity) × (active : ProductionKeyIdentity) × (embed sha256 timed
            new
          ≡ ok keys)
        × (active_signing_identity keys ≡ some active)
        × (bind_active_signing_identity keyring_digest active k
            ≡ ok (record k { generation = active.generation; keyring_sha256 = keyring_digest }))
        × All (λ (e : KeyringEntry). e.generation < active.generation) keyring.entries
  rotation_signs digest keyring new output k now dg valid inspected t h =
      let accepted =
        rotation_accepted sha256 timed digest keyring new output k now valid inspected t h in
      let (keys, embedded, each) = embed_total new accepted in
      let (a, found, m, signing, _) =
        active_signing_identity_total sha256 keys
          ((embed-IsKeyring sha256 timed new).at keys embedded) in
      let (n, above, holds) = (propose_rotation_lem keyring k now).at new h in
      let (id, public, generation) =
        All-Among (HeldBy k n) keys a (held k n new.entries keys holds each) m
          (ap is_active_for_signing signing) in
      (
        keys,
        a,
        embedded,
        found,
        Holds-bound dg k n a id public,
        All-below keyring.entries n a.generation generation above,
      )
