-- ===== src/Catalog/Scalars/Versions/Complete.antt =====
-- crates/catalog-core/src/wire.rs: every text of a version with valid parts is admitted.
use mathlib.Core.Path.{subst}
use fluxsemble_runtime_catal.Base.{
  ℕ, ◌≤◌, ◌<◌, ◌≡◌, ◌≢◌, ◌↔◌, refl, sym, Bool, true, false, not, Option, none, some, List, [], ◌∷◌,
  ◌++◌, Text, length, all, All, All-append, All-map, all_of_All, arith, ltb,
}
use fluxsemble_runtime_catal.Strings.{split_once, is_empty, is_ascii, contains_byte}
use fluxsemble_runtime_catal.Strings.Split.{join, split-join}
use fluxsemble_runtime_catal.Catalog.Scalars.{
  max_exact_version_bytes, valid_numeric_component, valid_version_identifiers, valid_core,
  head_and_tail, is_some_and, valid_without_build, valid_exact_version,
}
use fluxsemble_runtime_catal.Catalog.Scalars.Versions.Bytes.{
  IsPartByte, numeric_bytes, split_once-append, split_once-none, All-join, identifiers_bytes,
  identifiers_complete,
}
use fluxsemble_runtime_catal.Catalog.Scalars.Versions.{
  Version, suffix, print, ArePassed, HasParts, version_sound, append-nil,
}

-- the three numbers of a version
abbrev core : Version → Text
core v = join b'.' (v.major ∷ v.minor ∷ v.patch ∷ [])

core_bytes : (v : Version) → HasParts v → All (λ b. (b < 128) × (b ≢ b'+') × (b ≢ b'-')) (core v)
core_bytes v h =
    let dot : (b'.' < 128) × (b'.' ≢ b'+') × (b'.' ≢ b'-') = ground arith in
    let part = All-map (λ (b : ℕ) (q : IsPartByte b × (b ≢ b'-')). (q.0.0, q.0.1, q.1)) in
    All-join (λ b. (b < 128) × (b ≢ b'+') × (b ≢ b'-')) dot (v.major ∷ v.minor ∷ v.patch ∷ [])
      (
        part v.major (numeric_bytes v.major h.major_numeric),
        (
          part v.minor (numeric_bytes v.minor h.minor_numeric),
          (part v.patch (numeric_bytes v.patch h.patch_numeric), tt),
        ),
      )

core_complete : (v : Version) → HasParts v → valid_core (core v) ≡ true
unfolding valid_core
core_complete v h =
    let lacks = λ (i : Text) (k : valid_numeric_component i ≡ true).
      All-map (λ (b : ℕ) (q : IsPartByte b × (b ≢ b'-')). q.0.2) i (numeric_bytes i k) in
    rw
      (split-join b'.' v.major (v.minor ∷ v.patch ∷ []) (
        lacks v.major h.major_numeric,
        (lacks v.minor h.minor_numeric, (lacks v.patch h.patch_numeric, tt)),
      ))
      (rw (h.major_numeric, h.minor_numeric, h.patch_numeric) refl)

-- bytes that a suffix may have
suffix_bytes :
    (P : ℕ → Type 0) (mark : ℕ) (strict : Bool)
    → P mark
    → P b'.'
    → ((b : ℕ) → IsPartByte b → P b)
    → (is : Option (List Text)) → ArePassed strict is
    → All P (suffix mark is)
suffix_bytes P mark strict m dot of none h = tt
suffix_bytes P mark strict m dot of (some is) h =
    (m, All-join P dot is (All-map (λ i k. All-map of i k) is (identifiers_bytes strict is h.1)))

abbrev unbuilt : Version → Text
unbuilt v = core v ++ suffix b'-' v.prerelease

unbuilt_complete : (v : Version) → HasParts v → valid_without_build (unbuilt v) ≡ true
unfolding valid_without_build
unbuilt_complete v h = parts v.prerelease h.prerelease_valid
  where
    lacks : All (λ b. b ≢ b'-') (core v)
    lacks = All-map (λ b q. q.2) (core v) (core_bytes v h)

    parts :
        (p : Option (List Text))
        → ArePassed true p
        → valid_without_build (core v ++ suffix b'-' p) ≡ true
    parts none k = rw (append-nil (core v), split_once-none b'-' (core v) lacks) (core_complete v h)
    parts (some is) k =
        rw (split_once-append b'-' (core v) (join b'.' is) lacks, identifiers_complete true is k)
          (core_complete v h)

is_part_ascii : (b : ℕ) → IsPartByte b → b < 128
is_part_ascii b q = q.0

print-ascii : (v : Version) → HasParts v → all is_ascii (print v) ≡ true
unfolding print
print-ascii v h =
    all_of_All (λ b. b < 128) is_ascii (λ b k. ground (arith, k)) (unbuilt v ++ suffix b'+' v.build)
      (All-append (λ b. b < 128) (unbuilt v) (suffix b'+' v.build)
        (All-append (λ b. b < 128) (core v) (suffix b'-' v.prerelease)
          (All-map (λ b q. q.0) (core v) (core_bytes v h))
          (suffix_bytes (λ b. b < 128) b'-' true (ground arith) (ground arith) is_part_ascii
            v.prerelease h.prerelease_valid))
        (suffix_bytes (λ b. b < 128) b'+' false (ground arith) (ground arith) is_part_ascii v.build
          h.build_valid))

unbuilt_lacks : (v : Version) → HasParts v → All (λ b. b ≢ b'+') (unbuilt v)
unbuilt_lacks v h =
    All-append (λ b. b ≢ b'+') (core v) (suffix b'-' v.prerelease)
      (All-map (λ b q. q.1) (core v) (core_bytes v h))
      (suffix_bytes (λ b. b ≢ b'+') b'-' true (ground arith) (ground arith) (λ b q. q.1)
        v.prerelease h.prerelease_valid)

lacks_byte : (sep : ℕ) (s : Text) → All (λ b. b ≢ sep) s → contains_byte sep s ≡ false
lacks_byte sep [] h = refl
lacks_byte sep (b ∷ s) h = ground (arith, h.0, lacks_byte sep s h.1)

print_filled : (v : Version) → HasParts v → is_empty (print v) ≡ false
unfolding print join
print_filled v h = filled v.major
  where
    filled :
        (major : Text)
        → is_empty (
            (join b'.' (major ∷ v.minor ∷ v.patch ∷ []) ++ suffix b'-' v.prerelease)
            ++ suffix b'+' v.build)
          ≡ false
    filled [] = refl
    filled (b ∷ major) = refl

-- the tests of `valid_exact_version`, from what they read
accepted :
    (s : Text) (o : Option (Text × Text))
    → is_empty s ≡ false
    → length s ≤ max_exact_version_bytes
    → all is_ascii s ≡ true
    → split_once b'+' s ≡ o
    → is_some_and (λ b. not (valid_version_identifiers b false)) (head_and_tail s o).1 ≡ false
    → contains_byte b'+' (head_and_tail s o).0 ≡ false
    → valid_without_build (head_and_tail s o).0 ≡ true
    → valid_exact_version s ≡ true
unfolding valid_exact_version
accepted s o filled short ascii e build lacks rest =
    let fits : ltb max_exact_version_bytes (length s) ≡ false = ground arith in
    rw (filled, fits, ascii, e, build, lacks) rest

version_complete :
    (v : Version)
    → HasParts v
    → length (print v) ≤ max_exact_version_bytes
    → valid_exact_version (print v) ≡ true
version_complete v h short = built v.build refl h.build_valid
  where
    lacks : contains_byte b'+' (unbuilt v) ≡ false
    lacks = lacks_byte b'+' (unbuilt v) (unbuilt_lacks v h)

    built :
        (b : Option (List Text))
        → v.build ≡ b
        → ArePassed false b
        → valid_exact_version (print v) ≡ true
    built none e k =
        let same : unbuilt v ≡ print v = unfold print in sym (rw e (append-nil (unbuilt v))) in
        accepted (print v) none (print_filled v h) short (print-ascii v h)
          (subst (λ t. split_once b'+' t ≡ none) same
            (split_once-none b'+' (unbuilt v) (unbuilt_lacks v h)))
          refl (subst (λ t. contains_byte b'+' t ≡ false) same lacks)
          (subst (λ t. valid_without_build t ≡ true) same (unbuilt_complete v h))
    built (some is) e k =
        accepted (print v) (some (unbuilt v, join b'.' is)) (print_filled v h) short
          (print-ascii v h)
          (unfold print in
            rw e (split_once-append b'+' (unbuilt v) (join b'.' is) (unbuilt_lacks v h)))
          (rw (identifiers_complete false is k) refl) lacks (unbuilt_complete v h)

-- the texts that are admitted, by the code's tests of the parts
pub version_iff :
    (s : Text)
    → (valid_exact_version s ≡ true)
      ↔ ((length s ≤ max_exact_version_bytes) × ((v : Version) × HasParts v × (s ≡ print v)))
version_iff s = (version_sound s, complete)
  where
    complete :
        (length s ≤ max_exact_version_bytes) × ((v : Version) × HasParts v × (s ≡ print v))
        → valid_exact_version s ≡ true
    complete (short, (v, valid, e)) =
        subst (λ t. valid_exact_version t ≡ true) (sym e)
          (version_complete v valid (subst (λ t. length t ≤ max_exact_version_bytes) e short))
