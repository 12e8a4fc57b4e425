-- ===== src/Catalog/Scalars/Paths.antt =====
-- crates/catalog-core/src/wire.rs: what `valid_inventory_path` admits.
use fluxsemble_runtime_catal.Base.{
  ℕ, ◌≤◌, ◌≡◌, ◌≢◌, ◌↔◌, refl, true, false, ◌||◌, Option, none, some, List, [], ◌∷◌, Text, codes,
  all, any, length, All, All-of_all, all_of_All, Bool-cases, inl, inr, arith, if◌then◌else◌,
}
use fluxsemble_runtime_catal.Strings.{text_eq, split, contains_byte, is_empty, is_ascii_control}
use fluxsemble_runtime_catal.Strings.Split.{text_eq_iff}
use fluxsemble_runtime_catal.Catalog.Scalars.{valid_inventory_path, plain_segment}

-- a directory or file name: not empty, and no relative step
abbrev pub IsName : Text → Type 0
IsName s = (s ≢ []) × (s ≢ codes ".") × (s ≢ codes "..")

abbrev pub IsPathByte : ℕ → Type 0
IsPathByte b = (b ≢ b'\\') × (32 ≤ b) × (b ≢ 127)

plain_iff : (s : Text) → (plain_segment s ≡ true) ↔ IsName s
plain_iff [] = (λ h. ground arith, λ h. absurd (h.0 refl))
plain_iff (b ∷ s) = (sound, complete)
  where
    dot : (text_eq (b ∷ s) (codes ".") ≡ true) ↔ ((b ∷ s) ≡ codes ".")
    dot = text_eq_iff (b ∷ s) (codes ".")

    dots : (text_eq (b ∷ s) (codes "..") ≡ true) ↔ ((b ∷ s) ≡ codes "..")
    dots = text_eq_iff (b ∷ s) (codes "..")

    sound : plain_segment (b ∷ s) ≡ true → IsName (b ∷ s)
    sound h = (λ p. ground arith, λ p. ground (arith, dot.1 p), λ p. ground (arith, dots.1 p))

    complete : IsName (b ∷ s) → plain_segment (b ∷ s) ≡ true
    complete (a, p, q) = elim (Bool-cases (text_eq (b ∷ s) (codes "."))) [
      | inl e ↦ absurd (p (dot.0 e))
      | inr e ↦ elim (Bool-cases (text_eq (b ∷ s) (codes ".."))) [
        | inl f ↦ absurd (q (dots.0 f))
        | inr f ↦ rw (e, f)
      ]
    ]

bytes_sound :
    (p : Text) → contains_byte b'\\' p ≡ false → any is_ascii_control p ≡ false → All IsPathByte p
bytes_sound [] h k = tt
bytes_sound (b ∷ p) h k = (ground arith, bytes_sound p (ground arith) (ground arith))

bytes_complete :
    (p : Text)
    → All IsPathByte p
    → (contains_byte b'\\' p ≡ false) × (any is_ascii_control p ≡ false)
bytes_complete [] h = (refl, refl)
bytes_complete (b ∷ p) h =
    let (x, y) = bytes_complete p h.1 in (ground (arith, h.0), ground (arith, h.0))

not_empty : (p : Text) → All IsName (split b'/' p) → is_empty p ≡ false
unfolding split
not_empty [] h = absurd (h.0.0 refl)
not_empty (b ∷ p) h = refl

-- A path is admitted exactly when it has at most 512 bytes, none a backslash or a control character,
-- and its parts between slashes are names: none is empty, "." or "..".
pub inventory_path_iff :
    (p : Text)
    → (valid_inventory_path p ≡ true)
      ↔ ((length p ≤ 512) × All IsPathByte p × All IsName (split b'/' p))
unfolding valid_inventory_path
inventory_path_iff p = (sound, complete)
  where
    sound :
        valid_inventory_path p ≡ true
        → (length p ≤ 512) × All IsPathByte p × All IsName (split b'/' p)
    sound h =
        let slash : contains_byte b'\\' p ≡ false = ground arith in
        let control : any is_ascii_control p ≡ false = ground arith in
        let names : all plain_segment (split b'/' p) ≡ true = ground arith in
        (
          ground arith,
          bytes_sound p slash control,
          All-of_all IsName plain_segment (λ s k. (plain_iff s).0 k) (split b'/' p) names,
        )

    complete :
        (length p ≤ 512) × All IsPathByte p × All IsName (split b'/' p)
        → valid_inventory_path p ≡ true
    complete (short, bytes, names) =
        let (slash, control) = bytes_complete p bytes in
        let parts =
          all_of_All IsName plain_segment (λ s k. (plain_iff s).1 k) (split b'/' p) names in
        let filled = not_empty p names in ground (arith, slash, control, parts, filled)

-- The directory that the steps of a path lead to from `below`, the innermost name first; `none` where
-- a step climbs above the start.
pub walk : List Text → List Text → Option (List Text)
walk below [] = some below
walk below (step ∷ steps) =
    let stay = walk below steps in
    let down = walk (step ∷ below) steps in
    let up : Option (List Text) = elim below [ [] ↦ none | _ ∷ outer ↦ walk outer steps ] in
    if is_empty step || text_eq step (codes ".")
    then stay
    else if text_eq step (codes "..")
    then up
    else down

-- one directory deeper for each name
pub descend : List Text → List Text → List Text
descend below [] = below
descend below (name ∷ names) = descend (name ∷ below) names

walk-names :
    (below names : List Text) → All IsName names → walk below names ≡ some (descend below names)
unfolding walk descend
walk-names below [] h = refl
walk-names below (name ∷ names) h =
    let plain = (plain_iff name).1 h.0 in ground (arith, plain, walk-names (name ∷ below) names h.1)

-- From any directory an admitted path never climbs: its parts are entered one after another, each a
-- directory below the last, so it ends inside the directory where it started.
pub inventory_path_inside :
    (p : Text) (here : List Text)
    → valid_inventory_path p ≡ true
    → walk here (split b'/' p) ≡ some (descend here (split b'/' p))
inventory_path_inside p here h = walk-names here (split b'/' p) ((inventory_path_iff p).0 h).2
