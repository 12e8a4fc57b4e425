-- ===== src/Assembly/Intent/Support.antt =====
-- crates/catalog-core/src/source_v2.rs: where support assets stand, and the origins of a drafted catalog.
use fluxsemble_runtime_catal.Base.{
  ℕ, ◌≤◌, ◌<◌, ◌≡◌, inl, inr, refl, ap, Bool, true, false, Option, none, ◌&&◌, ◌||◌, not, some, [],
  ◌∷◌, ◌++◌, Text, codes, ok_or-eq-ok, leb, all, any, length, Bool-cases, Ensures, Ensures-bind,
  Ensures-ensure, Ensures-ok, arith,
}
use fluxsemble_runtime_catal.Strings.{
  is_empty, is_ascii, is_ascii_control, is_ascii_whitespace, contains_byte, starts_with,
  strip_prefix,
}
use fluxsemble_runtime_catal.Strings.Split.{Lacks}
use fluxsemble_runtime_catal.Strings.Prefixes.{strip_prefix_sound}
use fluxsemble_runtime_catal.Catalog.Require.{invalid_catalog}
use fluxsemble_runtime_catal.Signature.Scan.Suffixes.{Infix}
use fluxsemble_runtime_catal.Assembly.Intent.{
  contains_text, download_prefix, valid_support_name, pi_support_asset_name,
}

starts_sound : (pre s : Text) → starts_with pre s ≡ true → (t : Text) × (s ≡ pre ++ t)
unfolding starts_with
starts_sound pre s h = from (strip_prefix pre s) refl h
  where
    from :
        (o : Option Text)
        → strip_prefix pre s ≡ o
        → elim o [ none ↦ false | some _ ↦ true ] ≡ true
        → (t : Text) × (s ≡ pre ++ t)
    from none e k = ground arith
    from (some t) e k = (t, strip_prefix_sound pre s t e)

-- a text that is found in another is a part of it
contains-Infix : (needle s : Text) → contains_text needle s ≡ true → Infix s needle
unfolding contains_text
contains-Infix [] [] h = ([], [], refl)
contains-Infix (n ∷ needle) [] h = ground arith
contains-Infix needle (b ∷ s) h = elim (Bool-cases (starts_with needle (b ∷ s))) [
  | inl e ↦ let (t, p) = starts_sound needle (b ∷ s) e in ([], t, p)
  | inr e ↦
      let (before, after, p) = contains-Infix needle s (ground (arith, h, e)) in
      (b ∷ before, after, ap (λ z. b ∷ z) p)
]

Lacks-byte : (b : ℕ) (s : Text) → contains_byte b s ≡ false → Lacks b s
Lacks-byte b [] h = tt
Lacks-byte b (c ∷ s) h = (ground (arith, h), Lacks-byte b s (ground (arith, h)))

six_parts :
    (a b c d e f : Bool)
    → (a && b && c && d && e && f) ≡ true
    → (a ≡ true) × (b ≡ true) × (c ≡ true) × (e ≡ true)
six_parts a b c d e f h =
    (ground (arith, h), ground (arith, h), ground (arith, h), ground (arith, h))

some_bytes : (s : Text) → not (is_empty s) ≡ true → 0 < length s
some_bytes [] h = ground arith
some_bytes (b ∷ s) h = omega arith

neither : (a b : Bool) → not (a || b) ≡ true → (a ≡ false) × (b ≡ false)
neither a b h = (ground (arith, h), ground (arith, h))

valid_name_lem :
    (digest name : Text)
    → valid_support_name digest name ≡ true
    → (0 < length name)
      × (length name ≤ 255)
      × Infix name digest
      × Lacks b'/' name
      × Lacks b'\\' name
unfolding valid_support_name
valid_name_lem digest name h =
    let (filled, short, holds, plain) =
      six_parts (not (is_empty name)) (leb (length name) 255) (contains_text digest name)
        (all is_ascii name) (not (contains_byte b'/' name || contains_byte b'\\' name))
        (not (any (λ b. is_ascii_control b || is_ascii_whitespace b) name)) h in
    let (slash, backslash) = neither (contains_byte b'/' name) (contains_byte b'\\' name) plain in
    (
      some_bytes name filled,
      ground (arith, short),
      contains-Infix digest name holds,
      Lacks-byte b'/' name slash,
      Lacks-byte b'\\' name backslash,
    )

-- The name of a support asset is what follows the directory of the release's own tag in its URL: it is
-- not empty, has at most 255 bytes, contains the digest of the file, and no slash, so that the file
-- stands directly in that directory.
pub support_name_lem :
    (url digest tag : Text)
    → Ensures
        (λ (name : Text).
          (url ≡ (download_prefix ++ (tag ++ codes "/")) ++ name)
          × (0 < length name)
          × (length name ≤ 255)
          × Infix name digest
          × Lacks b'/' name
          × Lacks b'\\' name)
        (pi_support_asset_name url digest tag)
unfolding pi_support_asset_name
support_name_lem url digest tag = Ensures-bind _ _ λ name stripped. Ensures-ensure _ _ _ λ valid.
    let (filled, short, holds, slash, backslash) = valid_name_lem digest name valid in
    Ensures-ok name (
      strip_prefix_sound (download_prefix ++ (tag ++ codes "/")) url name
          (ok_or-eq-ok invalid_catalog _ stripped),
      filled,
      short,
      holds,
      slash,
      backslash,
    )
