-- ===== src/Wizard/Sequence/Names.antt =====
-- crates/catalog-wizard/src/sequence.rs: which names encode a number, and which number a scan finds.
use mathlib.Core.List.{reverse, reverse-append, reverse-reverse}
use fluxsemble_runtime_catal.Base.{
  ℕ, ◌<◌, ◌≡◌, ◌↔◌, refl, sym, ap, ◌∙◌, ◌⊎◌, inl, inr, Option, none, some, List, [], ◌∷◌, ◌++◌,
  Text, ok, arith,
}
use fluxsemble_runtime_catal.Strings.{strip_prefix}
use fluxsemble_runtime_catal.Strings.Prefixes.{strip_prefix_sound}
use fluxsemble_runtime_catal.Strings.Decimal.{u64_limit, parse_u64}
use fluxsemble_runtime_catal.Strings.Decimal.Numerals.{Spells, parse_u64_iff}
use fluxsemble_runtime_catal.Wizard.Sequence.{
  Entry, unreadable, foreign, named, entries, catalog_prefix, catalog_suffix, strip_suffix,
  reversed, ◌>>=◌, positive, name_sequence, local_latest_sequence, Reads, IsGreatest,
  IsGreatest-iff, latest-IsGreatest,
}

-- the name of the source file of a number
abbrev pub IsSourceName : Text → ℕ → Type 0
IsSourceName name n =
    (0 < n)
    × (n < u64_limit)
    × ((number : Text) × Spells number n × (name ≡ catalog_prefix ++ (number ++ catalog_suffix)))

-- the numbers that the names of a directory encode
abbrev pub Encodes : List Entry → ℕ → Type 0
Encodes [] n = ⊥
Encodes (named name ∷ rest) n = IsSourceName name n ⊎ Encodes rest n
Encodes (_ ∷ rest) n = Encodes rest n

strip-append : (pre s : Text) → strip_prefix pre (pre ++ s) ≡ some s
unfolding strip_prefix
strip-append [] s = refl
strip-append (p ∷ pre) s = rw (strip-append pre s) (ground arith)

suffix_sound : (suffix s t : Text) → strip_suffix suffix s ≡ some t → s ≡ t ++ suffix
unfolding strip_suffix
suffix_sound suffix s t h = parts (strip_prefix (reverse suffix) (reverse s)) refl h
  where
    parts :
        (o : Option Text)
        → strip_prefix (reverse suffix) (reverse s) ≡ o
        → reversed o ≡ some t
        → s ≡ t ++ suffix
    parts none e k = ground (arith, k)
    parts (some r) e k =
        let back : reverse r ≡ t = ground (arith, k) in
        let whole : reverse s ≡ reverse suffix ++ r =
          strip_prefix_sound (reverse suffix) (reverse s) r e in
        sym (reverse-reverse s)
        ∙ ap reverse whole
        ∙ reverse-append (reverse suffix) r
        ∙ (λ i. back i ++ reverse-reverse suffix i)

suffix_complete : (suffix t : Text) → strip_suffix suffix (t ++ suffix) ≡ some t
unfolding strip_suffix
suffix_complete suffix t =
    ap reversed (
      ap (strip_prefix (reverse suffix)) (reverse-append t suffix)
      ∙ strip-append (reverse suffix) (reverse t))
    ∙ ap some (reverse-reverse t)

bind_some :
    {A B : Type 0} (o : Option A) (f : A → Option B) (b : B)
    → (o >>= f) ≡ some b
    → (a : A) × (o ≡ some a) × (f a ≡ some b)
bind_some none f b h = ground (arith, h)
bind_some (some a) f b h = (a, refl, h)

positive_sound : (m n : ℕ) → positive m ≡ some n → (m ≡ n) × (0 < n)
positive_sound m n h = (ground (arith, h), ground (arith, h))

name_sound : (name : Text) (n : ℕ) → name_sequence name ≡ some n → IsSourceName name n
unfolding name_sequence
name_sound name n h =
    let (value, front, h₁) = bind_some (strip_prefix catalog_prefix name) _ n h in
    let (number, back, h₂) = bind_some (strip_suffix catalog_suffix value) _ n h₁ in
    let (m, parsed, h₃) = bind_some (parse_u64 number) _ n h₂ in
    let (same, low) = positive_sound m n h₃ in
    let (spelled, high) = (parse_u64_iff number n).0 (parsed ∙ ap some same) in
    (
      low,
      high,
      (
        number,
        spelled,
        strip_prefix_sound catalog_prefix name value front
            ∙ ap (λ t. catalog_prefix ++ t) (suffix_sound catalog_suffix value number back),
      ),
    )

positive_complete : (n : ℕ) → 0 < n → positive n ≡ some n
positive_complete n h = ground (arith, h)

name_complete : (name : Text) (n : ℕ) → IsSourceName name n → name_sequence name ≡ some n
unfolding name_sequence
name_complete name n (low, high, (number, spelled, e)) =
    let front : strip_prefix catalog_prefix name ≡ some (number ++ catalog_suffix) =
      ap (strip_prefix catalog_prefix) e ∙ strip-append catalog_prefix (number ++ catalog_suffix) in
    let parsed : parse_u64 number ≡ some n = (parse_u64_iff number n).1 (spelled, high) in
    ap
      (λ o. o >>= λ value.
        strip_suffix catalog_suffix value >>= λ number. parse_u64 number >>= positive)
      front
    ∙ ap (λ o. o >>= λ number. parse_u64 number >>= positive)
        (suffix_complete catalog_suffix number)
    ∙ ap (λ o. o >>= positive) parsed
    ∙ positive_complete n low

Reads-iff : (es : List Entry) (n : ℕ) → Reads es n ↔ Encodes es n
Reads-iff [] n = (λ h. h, λ h. h)
Reads-iff (unreadable ∷ es) n = Reads-iff es n
Reads-iff (foreign ∷ es) n = Reads-iff es n
Reads-iff (named name ∷ es) n = (
  λ h. elim h [ inl k ↦ inl (name_sound name n k) | inr k ↦ inr ((Reads-iff es n).0 k) ],
  λ h. elim h [ inl k ↦ inl (name_complete name n k) | inr k ↦ inr ((Reads-iff es n).1 k) ],
)

-- A scan that succeeds returns the greatest number below 2 ^ 64 that is positive and that the name of an
-- entry encodes, and none exactly where no name encodes one. A name encodes a number if it is
-- "catalog-v1-sequence-", then digits of the number, after a plus sign or not, then "-source.json".
pub local_latest-IsGreatest :
    (es : List Entry) (r : Option ℕ)
    → local_latest_sequence (entries es) ≡ ok r
    → IsGreatest (Encodes es) r
local_latest-IsGreatest es r h =
    IsGreatest-iff (Reads es) (Encodes es) r (λ n k. (Reads-iff es n).0 k)
      (λ n k. (n, (Reads-iff es n).1 k, omega arith)) (latest-IsGreatest es r h)
