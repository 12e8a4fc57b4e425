-- ===== src/Catalog/Scalars/Versions/Bytes.antt =====
-- crates/catalog-core/src/wire.rs: the bytes of the parts of a version, and how they split.
use fluxsemble_runtime_catal.Base.{
  ℕ, ◌<◌, ◌≡◌, ◌≢◌, refl, Bool, true, ◌||◌, not, none, some, List, [], ◌∷◌, ◌++◌, Text, ◌==◌, all,
  All, All-append, All-map, All-of_all, all_of_All, and_intro, arith,
}
use fluxsemble_runtime_catal.Strings.{split_once, is_empty, is_digit}
use fluxsemble_runtime_catal.Strings.Split.{join, split-join}
use fluxsemble_runtime_catal.Catalog.Scalars.{
  is_alphanumeric, valid_numeric_component, valid_identifier, valid_version_identifiers,
}
use fluxsemble_runtime_catal.Catalog.Scalars.Versions.{ArePassed}

-- letters, digits and dashes
abbrev pub IsPartByte : ℕ → Type 0
IsPartByte b = (b < 128) × (b ≢ b'+') × (b ≢ b'.')

identifier_bytes : (strict : Bool) (i : Text) → valid_identifier strict i ≡ true → All IsPartByte i
unfolding valid_identifier
identifier_bytes strict i h =
    All-of_all IsPartByte (λ b. is_alphanumeric b || b == b'-') (λ b k. ground (arith, k)) i
      (ground (arith, h))

pub numeric_bytes :
    (i : Text) → valid_numeric_component i ≡ true → All (λ b. IsPartByte b × (b ≢ b'-')) i
unfolding valid_numeric_component
numeric_bytes i h =
    All-of_all (λ b. IsPartByte b × (b ≢ b'-')) is_digit (λ b k. ground (arith, k)) i
      (ground (arith, h))

pub split_once-append :
    (sep : ℕ) (s t : Text) → All (λ b. b ≢ sep) s → split_once sep (s ++ sep ∷ t) ≡ some (s, t)
unfolding split_once
split_once-append sep [] t h = ground arith
split_once-append sep (b ∷ s) t h = rw (split_once-append sep s t h.1) (ground (arith, h.0))

pub split_once-none : (sep : ℕ) (s : Text) → All (λ b. b ≢ sep) s → split_once sep s ≡ none
unfolding split_once
split_once-none sep [] h = refl
split_once-none sep (b ∷ s) h = rw (split_once-none sep s h.1) (ground (arith, h.0))

-- what holds of the bytes of each piece, and of a full stop, holds of their join
pub All-join :
    (P : ℕ → Type 0) → P b'.' → (parts : List Text) → All (All P) parts → All P (join b'.' parts)
unfolding join
All-join P dot [] h = tt
All-join P dot (s ∷ []) h = h.0
All-join P dot (s ∷ t ∷ rest) h =
    All-append P s (b'.' ∷ join b'.' (t ∷ rest)) h.0 (dot, All-join P dot (t ∷ rest) h.1)

join_filled :
    (strict : Bool) (i : Text) (is : List Text)
    → valid_identifier strict i ≡ true
    → not (is_empty (join b'.' (i ∷ is))) ≡ true
unfolding join valid_identifier
join_filled strict [] is k = ground arith
join_filled strict (b ∷ i) [] k = refl
join_filled strict (b ∷ i) (j ∷ is) k = refl

pub identifiers_bytes :
    (strict : Bool) (is : List Text)
    → All (λ i. valid_identifier strict i ≡ true) is
    → All (All IsPartByte) is
identifiers_bytes strict is h = All-map (λ i k. identifier_bytes strict i k) is h

pub identifiers_complete :
    (strict : Bool) (is : List Text)
    → ArePassed strict (some is)
    → valid_version_identifiers (join b'.' is) strict ≡ true
unfolding valid_version_identifiers
identifiers_complete strict [] h = absurd (h.0 refl)
identifiers_complete strict (i ∷ is) h =
    let lacks =
      All-map (λ j k. All-map (λ b q. q.2) j k) (i ∷ is) (identifiers_bytes strict (i ∷ is) h.1) in
    rw (split-join b'.' i is lacks) (
      and_intro (not (is_empty (join b'.' (i ∷ is)))) (all (valid_identifier strict) (i ∷ is))
        (join_filled strict i is h.1.0)
        (all_of_All (λ j. valid_identifier strict j ≡ true) (valid_identifier strict) (λ j k. k)
          (i ∷ is) h.1))
