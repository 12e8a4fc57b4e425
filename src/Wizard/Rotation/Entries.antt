-- ===== src/Wizard/Rotation/Entries.antt =====
-- crates/catalog-wizard/src/key_rotation.rs: what demoting, appending and sorting keep of a list of keys.
use fluxsemble_runtime_catal.Base.{
  ℕ, zero, suc, ◌+◌, ◌≡◌, inl, inr, refl, ap, ◌∙◌, Bool, true, List, [], ◌∷◌, ◌++◌, ok, All, Pairs,
  count_if, All-map, All-append, leb, length, Bool-cases, ok-injective, arith,
}
use fluxsemble_runtime_catal.Signature.Keyring.{
  KeyringEntry, is_active_for_signing, verification_only,
}
use fluxsemble_runtime_catal.Wizard.Rotation.{
  active_indices, only_index, exactly_one_active, demote, insert_entry, sort_entries,
}

-- what holds of an entry whatever its status
abbrev pub Steady : (KeyringEntry → Type 0) → Type 0
Steady P = (e : KeyringEntry) → P e → P (record e { status = verification_only })

pub All-demote :
    (P : KeyringEntry → Type 0)
    → Steady P
    → (n : ℕ) (es : List KeyringEntry) → All P es
    → All P (demote n es)
unfolding demote
All-demote P s n [] h = tt
All-demote P s zero (e ∷ es) h = (s e h.0, h.1)
All-demote P s (suc n) (e ∷ es) h = (h.0, All-demote P s n es h.1)

pub length-demote : (n : ℕ) (es : List KeyringEntry) → length (demote n es) ≡ length es
unfolding demote
length-demote n [] = refl
length-demote zero (e ∷ es) = refl
length-demote (suc n) (e ∷ es) = ap suc (length-demote n es)

All-insert_entry :
    (P : KeyringEntry → Type 0) (e : KeyringEntry) (es : List KeyringEntry)
    → P e
    → All P es
    → All P (insert_entry e es)
unfolding insert_entry
All-insert_entry P e [] p h = (p, tt)
All-insert_entry P e (f ∷ fs) p h = elim (Bool-cases (leb e.generation f.generation)) [
  | inl q ↦ rw (q, insert_entry) (p, h)
  | inr q ↦ rw (q, insert_entry) (h.0, All-insert_entry P e fs p h.1)
]

pub All-sort_entries :
    (P : KeyringEntry → Type 0) (es : List KeyringEntry) → All P es → All P (sort_entries es)
unfolding sort_entries
All-sort_entries P [] h = tt
All-sort_entries P (e ∷ es) h =
    All-insert_entry P e (sort_entries es) h.0 (All-sort_entries P es h.1)

pub length-insert_entry :
    (e : KeyringEntry) (es : List KeyringEntry) → length (insert_entry e es) ≡ suc (length es)
unfolding insert_entry
length-insert_entry e [] = refl
length-insert_entry e (f ∷ fs) = ground (arith, length-insert_entry e fs)

pub length-sort_entries : (es : List KeyringEntry) → length (sort_entries es) ≡ length es
unfolding sort_entries
length-sort_entries [] = refl
length-sort_entries (e ∷ es) =
    length-insert_entry e (sort_entries es) ∙ ap suc (length-sort_entries es)

abbrev pub is_active : KeyringEntry → Bool
is_active e = is_active_for_signing e.status

count-insert_entry :
    (e : KeyringEntry) (es : List KeyringEntry)
    → count_if is_active (insert_entry e es) ≡ count_if is_active (e ∷ es)
unfolding insert_entry
count-insert_entry e [] = refl
count-insert_entry e (f ∷ fs) = elim (Bool-cases (leb e.generation f.generation)) [
  | inl q ↦ rw (q, insert_entry) refl
  | inr q ↦ rw (q, insert_entry) (ground (arith, count-insert_entry e fs))
]

count-cons :
    (e : KeyringEntry) (es fs : List KeyringEntry)
    → count_if is_active es ≡ count_if is_active fs
    → count_if is_active (e ∷ es) ≡ count_if is_active (e ∷ fs)
count-cons e es fs h = ground (arith, h)

pub count-sort_entries :
    (es : List KeyringEntry) → count_if is_active (sort_entries es) ≡ count_if is_active es
unfolding sort_entries
count-sort_entries [] = refl
count-sort_entries (e ∷ es) =
    count-insert_entry e (sort_entries es)
    ∙ count-cons e (sort_entries es) es (count-sort_entries es)

pub count-append :
    (es : List KeyringEntry) (f : KeyringEntry)
    → is_active f ≡ true
    → count_if is_active (es ++ (f ∷ [])) ≡ suc (count_if is_active es)
count-append [] f h = ground (arith, h)
count-append (e ∷ es) f h = ground (arith, count-append es f h)

indices_none :
    (base : ℕ) (es : List KeyringEntry) → active_indices base es ≡ [] → count_if is_active es ≡ 0
unfolding active_indices
indices_none base [] h = refl
indices_none base (e ∷ es) h = elim (Bool-cases (is_active e)) [
  | inl q ↦ absurd (ground (arith, q, h))
  | inr q ↦ ground (arith, q, indices_none (suc base) es (ground (arith, q, h)))
]

-- where one index is active, demoting it leaves no active entry
indices_one :
    (base i : ℕ) (es : List KeyringEntry)
    → active_indices base es ≡ i ∷ []
    → (k : ℕ) × (i ≡ base + k) × (count_if is_active (demote k es) ≡ 0)
unfolding active_indices demote
indices_one base i [] h = ground arith
indices_one base i (e ∷ es) h = elim (Bool-cases (is_active e)) [
  | inl q ↦
      let first : base ≡ i = ground (arith, q, h) in
      let none_left : active_indices (suc base) es ≡ [] = ground (arith, q, h) in
      (0, omega (arith, first), indices_none (suc base) es none_left)
  | inr q ↦
      let (k, at, zero_left) = indices_one (suc base) i es (ground (arith, q, h)) in
      (suc k, omega (arith, at), ground (arith, q, zero_left))
]

only_index_lem : (is : List ℕ) (i : ℕ) → only_index is ≡ ok i → is ≡ i ∷ []
only_index_lem [] i h = ground arith
only_index_lem (a ∷ []) i h = ap (λ n. n ∷ []) (ok-injective h)
only_index_lem (a ∷ b ∷ is) i h = ground arith

pub demote_last :
    (es : List KeyringEntry) (i : ℕ)
    → exactly_one_active es ≡ ok i
    → count_if is_active (demote i es) ≡ 0
unfolding exactly_one_active
demote_last es i h =
    let (k, at, zero_left) = indices_one 0 i es (only_index_lem (active_indices 0 es) i h) in
    let same : i ≡ k = omega (arith, at) in
    ap (λ n. count_if is_active (demote n es)) same ∙ zero_left

-- a relation of two entries that is symmetric and does not look at the status
module _ (R : KeyringEntry → KeyringEntry → Type 0) (turn : (a b : KeyringEntry) → R a b → R b a)
    (steady : (a : KeyringEntry) → Steady (R a)) where
  pub Pairs-demote : (n : ℕ) (es : List KeyringEntry) → Pairs R es → Pairs R (demote n es)
  unfolding demote
  Pairs-demote n [] h = tt
  Pairs-demote zero (e ∷ es) h = (All-map (λ b r. turn b _ (steady b e (turn e b r))) es h.0, h.1)
  Pairs-demote (suc n) (e ∷ es) h = (All-demote (R e) (steady e) n es h.0, Pairs-demote n es h.1)

  Pairs-insert_entry :
      (e : KeyringEntry) (es : List KeyringEntry)
      → All (R e) es
      → Pairs R es
      → Pairs R (insert_entry e es)
  unfolding insert_entry
  Pairs-insert_entry e [] h k = (tt, tt)
  Pairs-insert_entry e (f ∷ fs) h k = elim (Bool-cases (leb e.generation f.generation)) [
    | inl q ↦ rw (q, insert_entry) (h, k)
    | inr q ↦
        rw (q, insert_entry)
          (All-insert_entry (R f) e fs (turn e f h.0) k.0, Pairs-insert_entry e fs h.1 k.1)
  ]

  pub Pairs-sort_entries : (es : List KeyringEntry) → Pairs R es → Pairs R (sort_entries es)
  unfolding sort_entries
  Pairs-sort_entries [] h = tt
  Pairs-sort_entries (e ∷ es) h =
      Pairs-insert_entry e (sort_entries es) (All-sort_entries (R e) es h.0)
        (Pairs-sort_entries es h.1)

  pub Pairs-append :
      (es : List KeyringEntry) (f : KeyringEntry)
      → All (λ e. R e f) es
      → Pairs R es
      → Pairs R (es ++ (f ∷ []))
  Pairs-append [] f h k = (tt, tt)
  Pairs-append (e ∷ es) f h k =
      (All-append (R e) es (f ∷ []) k.0 (h.0, tt), Pairs-append es f h.1 k.1)
