-- ===== src/Wizard/Rotation/Accepted.antt =====
-- crates/catalog-wizard/src/key_rotation.rs, crates/catalog-core/build.rs: a rotated keyring against the
-- checks of the build.
use fluxsemble_runtime_catal.Base.{
  All-map, ◌≡◌, ◌≢◌, ◌≤◌, ◌<◌, ◌↔◌, refl, sym, Bool, true, ◌&&◌, not, List, [], ◌∷◌, map, Text,
  Result, ok, ◌>>=◌, ensure, All, Pairs, Pairs-map, Pairs-of_map, Distinct, count_if, leb, length,
  traverse, traverse-inputs, ==_iff, number_eq, Ensures, Ensures-bind, Ensures-ensure, Ensures-ok,
  arith,
}
use fluxsemble_runtime_catal.Strings.{is_empty}
use fluxsemble_runtime_catal.Strings.Split.{text_class}
use fluxsemble_runtime_catal.Catalog.Require.Exact.{all_inserted_iff}
use fluxsemble_runtime_catal.Wizard.Rotation.Checked.{IsEntry, validate_entry_iff}
use fluxsemble_runtime_catal.Signature.Keyring.{
  KeyringEntry, Keyring, is_active_for_signing, validate_entry, validate, max_keyring_entries,
}

-- two entries share nothing that must be their own
abbrev pub Differ : KeyringEntry → KeyringEntry → Type 0
Differ a b = (a.generation ≢ b.generation) × (a.key_id ≢ b.key_id) × (a.public_key ≢ b.public_key)

pub Differ-sym : (a b : KeyringEntry) → Differ a b → Differ b a
Differ-sym a b (g, i, p) = (λ e. g (sym e), λ e. i (sym e), λ e. p (sym e))

module _ {A B : Type 0} (f : A → B) where
  All-map_of : (P : B → Type 0) (xs : List A) → All (λ x. P (f x)) xs → All P (map f xs)
  All-map_of P [] h = tt
  All-map_of P (x ∷ xs) h = (h.0, All-map_of P xs h.1)

  Distinct-map_of : (xs : List A) → Pairs (λ a b. f a ≢ f b) xs → Distinct (map f xs)
  Distinct-map_of [] h = tt
  Distinct-map_of (x ∷ xs) h = (All-map_of (λ b. f x ≢ b) xs h.0, Distinct-map_of xs h.1)

module _ {A : Type 0} (P Q R : A → Type 0) where
  All-three : (xs : List A) → All P xs → All Q xs → All R xs → All (λ a. P a × Q a × R a) xs
  All-three [] p q r = tt
  All-three (x ∷ xs) p q r = ((p.0, q.0, r.0), All-three xs p.1 q.1 r.1)

module _ {A : Type 0} (P Q R : A → A → Type 0) where
  Pairs-three :
      (xs : List A) → Pairs P xs → Pairs Q xs → Pairs R xs → Pairs (λ a b. P a b × Q a b × R a b) xs
  Pairs-three [] p q r = tt
  Pairs-three (x ∷ xs) p q r =
      (All-three (P x) (Q x) (R x) xs p.0 q.0 r.0, Pairs-three xs p.1 q.1 r.1)

module _ {ℓ κ} {E : Type 0} {A : Type ℓ} {B : Type κ} where
  pub traverse-ok :
      (f : A → Result E B) (xs : List A)
      → All (λ x. (y : B) × (f x ≡ ok y)) xs
      → (ys : List B) × (traverse f xs ≡ ok ys)
  traverse-ok f [] h = ([], refl)
  traverse-ok f (x ∷ xs) h =
      let (y, e) = h.0 in let (ys, es) = traverse-ok f xs h.1 in (y ∷ ys, rw (e, es) refl)

module _ (sha256 : Text → Text) (timed : Text → Bool) where
  -- the checks of the build, without its loops
  pub record IsReviewed (k : Keyring) : Type 0 where
    pub schema_version : k.schema_version ≡ 1
    pub some_entries : 0 < length k.entries
    pub entries_bounded : length k.entries ≤ max_keyring_entries
    pub one_active : count_if (λ (e : KeyringEntry). is_active_for_signing e.status) k.entries ≡ 1
    pub entries_differ : Pairs Differ k.entries
    pub entries_valid : All (IsEntry sha256 timed) k.entries

  -- the entries pass the code's checks
  pub entries_checked :
      (k : Keyring)
      → IsReviewed k
      → All (λ e. (u : Unit {0}) × (validate_entry sha256 timed e ≡ ok u)) k.entries
  entries_checked k good =
      All-map (λ e h. (validate_entry_iff sha256 timed e).1 h) k.entries good.entries_valid

  bounded_entries :
      (es : List KeyringEntry)
      → ((0 < length es) × (length es ≤ max_keyring_entries))
        ↔ ((not (is_empty es) && leb (length es) max_keyring_entries) ≡ true)
  bounded_entries [] = (λ h. absurd (omega (arith, h.0)), λ h. ground (arith, h))
  bounded_entries (e ∷ es) = (λ h. ground (arith, h.1), λ h. (omega arith, ground (arith, h)))

  validate_sound : (k : Keyring) → Ensures (λ _. IsReviewed k) (validate sha256 timed k)
  unfolding validate
  validate_sound k = Ensures-ensure _ _ _ λ schema. Ensures-ensure _ _ _ λ bounded.
      Ensures-ensure _ _ _ λ one. Ensures-ensure _ _ _ λ generations. Ensures-ensure _ _ _ λ ids.
        Ensures-ensure _ _ _ λ keys. Ensures-bind _ _ λ checked each.
          let (filled, few) = (bounded_entries k.entries).1 bounded in
          Ensures-ok tt (record {
            schema_version = (==_iff _ _).0 schema;
            some_entries = filled;
            entries_bounded = few;
            one_active = (==_iff _ _).0 one;
            entries_differ =
                Pairs-three (λ (a b : KeyringEntry). a.generation ≢ b.generation)
                  (λ (a b : KeyringEntry). a.key_id ≢ b.key_id)
                  (λ (a b : KeyringEntry). a.public_key ≢ b.public_key) k.entries
                  (Pairs-of_map (λ x y. x ≢ y) (λ (e : KeyringEntry). e.generation) k.entries
                    ((all_inserted_iff (map (λ (e : KeyringEntry). e.generation) k.entries)).0
                      generations))
                  (Pairs-of_map (λ x y. x ≢ y) (λ (e : KeyringEntry). e.key_id) k.entries
                    ((all_inserted_iff (map (λ (e : KeyringEntry). e.key_id) k.entries)).0 ids))
                  (Pairs-of_map (λ x y. x ≢ y) (λ (e : KeyringEntry). e.public_key) k.entries
                    ((all_inserted_iff (map (λ (e : KeyringEntry). e.public_key) k.entries)).0
                      keys));
            entries_valid =
                All-map (λ e h. (validate_entry_iff sha256 timed e).0 h) k.entries
                  (traverse-inputs (validate_entry sha256 timed) k.entries each);
          })

  validate_complete : (k : Keyring) → IsReviewed k → validate sha256 timed k ≡ ok tt
  unfolding validate ◌>>=◌ ensure
  validate_complete k good =
      let (checked, each) =
        traverse-ok (validate_entry sha256 timed) k.entries (entries_checked k good) in
      rw
        (
          (==_iff _ _).1 good.schema_version,
          (bounded_entries k.entries).0 (good.some_entries, good.entries_bounded),
          (==_iff _ _).1 good.one_active,
          (all_inserted_iff (map (λ (e : KeyringEntry). e.generation) k.entries)).1 (
              Distinct-map_of (λ (e : KeyringEntry). e.generation) k.entries
                (Pairs-map (λ a b d. d.0) k.entries good.entries_differ)),
          (all_inserted_iff (map (λ (e : KeyringEntry). e.key_id) k.entries)).1 (
              Distinct-map_of (λ (e : KeyringEntry). e.key_id) k.entries
                (Pairs-map (λ a b d. d.1) k.entries good.entries_differ)),
          (all_inserted_iff (map (λ (e : KeyringEntry). e.public_key) k.entries)).1 (
              Distinct-map_of (λ (e : KeyringEntry). e.public_key) k.entries
                (Pairs-map (λ a b d. d.2) k.entries good.entries_differ)),
          each,
        )
        refl

  -- The assertions of the build pass exactly when the keyring is of schema 1 with 1 to 32 entries, of
  -- which one is active, no two share a generation, an id or a public key, and each has a positive
  -- generation, a public key that is the base64url text of 32 bytes, a key id that is the prefix and
  -- 16 lowercase hexadecimal digits and is derived from these bytes, and a valid time.
  pub validate_iff : (k : Keyring) → (validate sha256 timed k ≡ ok tt) ↔ IsReviewed k
  validate_iff k = ((validate_sound k).at tt, validate_complete k)
