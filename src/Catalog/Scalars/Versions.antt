-- ===== src/Catalog/Scalars/Versions.antt =====
-- crates/catalog-core/src/wire.rs: which texts `valid_exact_version` admits.
pub mod Bytes
pub mod Complete
pub mod Grammar
use mathlib.Core.Path.{subst}
use fluxsemble_runtime_catal.Base.{
  ℕ, zero, suc, ◌+◌, ◌≤◌, ◌≡◌, ◌<◌, ◌≢◌, All-append, All-map, all_of_All, refl, sym, ap, ◌∙◌, Bool,
  true, false, ◌&&◌, ◌||◌, not, Option, none, some, List, [], ◌∷◌, ◌++◌, Text, ◌==◌, ==_iff, codes,
  length, all, All, All-of_all, and_parts, arith, if◌then◌else◌, ltb, Bool-cases, inl, inr,
}
use fluxsemble_runtime_catal.Strings.{
  is_digit, split, split_once, prepend, is_empty, is_ascii, contains_byte,
}
use fluxsemble_runtime_catal.Strings.Split.{join, join-split, split-cons, split-join, Lacks}
use fluxsemble_runtime_catal.Catalog.Scalars.{
  is_alphanumeric, max_exact_version_bytes, valid_numeric_component, valid_identifier,
  valid_version_identifiers, core_parts, valid_core, head_and_tail, is_some_and,
  valid_without_build, valid_exact_version,
}

-- The parts of a version: three numbers, and the identifiers of a prerelease and of a build.
pub record Version : Type 0 where
  pub major : Text
  pub minor : Text
  pub patch : Text
  pub prerelease : Option (List Text)
  pub build : Option (List Text)

abbrev pub suffix : ℕ → Option (List Text) → Text
suffix mark none = []
suffix mark (some identifiers) = mark ∷ join b'.' identifiers

-- major.minor.patch, then -prerelease and +build where they are present
pub print : Version → Text
print v =
    (join b'.' (v.major ∷ v.minor ∷ v.patch ∷ []) ++ suffix b'-' v.prerelease)
    ++ suffix b'+' v.build

abbrev pub ArePassed : Bool → Option (List Text) → Type 0
ArePassed strict none = Unit
ArePassed strict (some identifiers) =
    (identifiers ≢ []) × All (λ i. valid_identifier strict i ≡ true) identifiers

-- the parts pass the code's tests
pub record HasParts (v : Version) : Type 0 where
  pub major_numeric : valid_numeric_component v.major ≡ true
  pub minor_numeric : valid_numeric_component v.minor ≡ true
  pub patch_numeric : valid_numeric_component v.patch ≡ true
  pub prerelease_valid : ArePassed true v.prerelease
  pub build_valid : ArePassed false v.build

pub append-nil : (s : Text) → s ++ [] ≡ s
append-nil [] = refl
append-nil (b ∷ s) = ap (λ t. b ∷ t) (append-nil s)

split_once_sound :
    (sep : ℕ) (s before after : Text)
    → split_once sep s ≡ some (before, after)
    → s ≡ before ++ sep ∷ after
unfolding split_once
split_once_sound sep [] before after h = ground arith
split_once_sound sep (b ∷ s) before after h = elim (Bool-cases (b == sep)) [
  | inl e ↦
      let k : ◌≡◌ {A = Option (Text × Text)} (some ([], s)) (some (before, after)) = rw e at h in
      let x : before ≡ [] = cc in let y : after ≡ s = cc in rw (x, y, (==_iff b sep).0 e) refl
  | inr e ↦
      let k : prepend b (split_once sep s) ≡ some (before, after) = rw e at h in
      later (split_once sep s) (λ x y. split_once_sound sep s x y) k
]
  where
    later :
        (o : Option (Text × Text))
        → ((x y : Text) → o ≡ some (x, y) → s ≡ x ++ sep ∷ y)
        → prepend b o ≡ some (before, after)
        → b ∷ s ≡ before ++ sep ∷ after
    later none f k = ground arith
    later (some (x, y)) f k =
        let p : before ≡ b ∷ x = cc in
        let r : after ≡ y = cc in rw (p, r) (ap (λ z. b ∷ z) (f x y refl))

split-ne : (sep : ℕ) (s : Text) → split sep s ≢ []
split-ne sep s h = let (t, rest, e) = split-cons sep s in ground (arith, h, e)

identifiers_sound :
    (strict : Bool) (s : Text)
    → valid_version_identifiers s strict ≡ true
    → ArePassed strict (some (split b'.' s))
unfolding valid_version_identifiers
identifiers_sound strict s h = (
  split-ne b'.' s,
  All-of_all (λ i. valid_identifier strict i ≡ true) (valid_identifier strict) (λ i k. k)
      (split b'.' s)
      (and_parts (not (is_empty s)) (all (valid_identifier strict) (split b'.' s)) h).1,
)

core_sound :
    (s : Text)
    → valid_core s ≡ true
    → (a b c : Text) × (valid_numeric_component a ≡ true)
      × (valid_numeric_component b ≡ true)
      × (valid_numeric_component c ≡ true)
      × (s ≡ join b'.' (a ∷ b ∷ c ∷ []))
unfolding valid_core
core_sound s h = parts (split b'.' s) refl h
  where
    parts :
        (ps : List Text)
        → split b'.' s ≡ ps
        → core_parts ps ≡ true
        → (a b c : Text) × (valid_numeric_component a ≡ true)
          × (valid_numeric_component b ≡ true)
          × (valid_numeric_component c ≡ true)
          × (s ≡ join b'.' (a ∷ b ∷ c ∷ []))
    parts [] e k = ground arith
    parts (a ∷ []) e k = ground arith
    parts (a ∷ b ∷ []) e k = ground arith
    parts (a ∷ b ∷ c ∷ d ∷ ps) e k = ground arith
    parts (a ∷ b ∷ c ∷ []) e k =
        let (ab, kc) = and_parts _ (valid_numeric_component c) k in
        let (ka, kb) = and_parts (valid_numeric_component a) (valid_numeric_component b) ab in
        (a, b, c, ka, kb, kc, sym (join-split b'.' s) ∙ ap (join b'.') e)

-- the version without its build
record IsUnbuilt (s : Text) (v : Version) : Type 0 where
  unbuilt : v.build ≡ none
  valid : HasParts v
  printed : s ≡ join b'.' (v.major ∷ v.minor ∷ v.patch ∷ []) ++ suffix b'-' v.prerelease

unbuilt :
    (core : Text)
    → valid_core core ≡ true
    → (p : Option (List Text)) → ArePassed true p
    → (v : Version) × IsUnbuilt (core ++ suffix b'-' p) v
unbuilt core h p valid =
    let (a, b, c, ka, kb, kc, e) = core_sound core h in
    (
      record { major = a; minor = b; patch = c; prerelease = p; build = none },
      record {
        unbuilt = refl;
        valid = record {
          major_numeric = ka;
          minor_numeric = kb;
          patch_numeric = kc;
          prerelease_valid = valid;
          build_valid = tt;
        };
        printed = ap (λ t. t ++ suffix b'-' p) e;
      },
    )

without_build_sound : (s : Text) → valid_without_build s ≡ true → (v : Version) × IsUnbuilt s v
unfolding valid_without_build
without_build_sound s h = parts (split_once b'-' s) refl h
  where
    parts :
        (o : Option (Text × Text))
        → split_once b'-' s ≡ o
        → (if is_some_and (λ v. not (valid_version_identifiers v true)) (head_and_tail s o).1
            then false
            else valid_core (head_and_tail s o).0)
          ≡ true
        → (v : Version) × IsUnbuilt s v
    parts none e k = subst (λ t. (v : Version) × IsUnbuilt t v) (append-nil s) (unbuilt s k none tt)
    parts (some (core, pre)) e k =
        let valid : valid_version_identifiers pre true ≡ true = ground (arith, k) in
        let core_valid : valid_core core ≡ true = ground (arith, k) in
        subst (λ t. (v : Version) × IsUnbuilt t v)
          (ap (λ t. core ++ b'-' ∷ t) (join-split b'.' pre)
            ∙ sym (split_once_sound b'-' s core pre e))
          (unbuilt core core_valid (some (split b'.' pre)) (identifiers_sound true pre valid))

-- A text that is admitted as a version has at most 256 bytes and is the text of a version with valid
-- parts.
pub version_sound :
    (s : Text)
    → valid_exact_version s ≡ true
    → (length s ≤ max_exact_version_bytes) × ((v : Version) × HasParts v × (s ≡ print v))
unfolding valid_exact_version
version_sound s h =
    let (short, k) =
      bounded (is_empty s) (ltb max_exact_version_bytes (length s)) (all is_ascii s) _ h in
    (ground (arith, short), parts (split_once b'+' s) refl k)
  where
    bounded :
        (empty long ascii k : Bool)
        → (if empty || long || not ascii then false else k) ≡ true
        → (long ≡ false) × (k ≡ true)
    bounded empty long ascii k h = (ground arith, ground arith)

    parts :
        (o : Option (Text × Text))
        → split_once b'+' s ≡ o
        → (if is_some_and (λ b. not (valid_version_identifiers b false)) (head_and_tail s o).1
              || contains_byte b'+' (head_and_tail s o).0
            then false
            else valid_without_build (head_and_tail s o).0)
          ≡ true
        → (v : Version) × HasParts v × (s ≡ print v)
    parts none e k =
        let rest : valid_without_build s ≡ true = ground (arith, k) in
        let (v, u) = without_build_sound s rest in
        (v, u.valid, unfold print in rw u.unbuilt (u.printed ∙ sym (append-nil _)))
    parts (some (rest_of, build)) e k =
        let rest : valid_without_build rest_of ≡ true = ground (arith, k) in
        let valid : valid_version_identifiers build false ≡ true = ground (arith, k) in
        let (v, u) = without_build_sound rest_of rest in
        (
          record v { build = some (split b'.' build) },
          record {
            major_numeric = u.valid.major_numeric;
            minor_numeric = u.valid.minor_numeric;
            patch_numeric = u.valid.patch_numeric;
            prerelease_valid = u.valid.prerelease_valid;
            build_valid = identifiers_sound false build valid;
          },
          unfold print in
              (split_once_sound b'+' s rest_of build e
                ∙ (λ i. u.printed i ++ b'+' ∷ sym (join-split b'.' build) i)),
        )
