-- ===== src/Strings/Prefixes.antt =====
-- Laws of `strip_prefix`, of `split_once` with a text, and of slices from a place on.
use fluxsemble_runtime_catal.Base.{
  ℕ, zero, suc, ◌+◌, ◌≤◌, ◌≡◌, refl, ap, Option, none, some, [], ◌∷◌, ◌++◌, Text, length, drop,
  arith,
}
use fluxsemble_runtime_catal.Strings.{strip_prefix, split_once_text, or_later}

pub strip_prefix_sound : (pre s t : Text) → strip_prefix pre s ≡ some t → s ≡ pre ++ t
unfolding strip_prefix
strip_prefix_sound [] s t h = ground arith
strip_prefix_sound (p ∷ pre) [] t h = ground arith
strip_prefix_sound (p ∷ pre) (b ∷ s) t h = ground (arith, strip_prefix_sound pre s t)

pub split_once_text_sound :
    (pattern s before after : Text)
    → split_once_text pattern s ≡ some (before, after)
    → s ≡ before ++ (pattern ++ after)
unfolding split_once_text
split_once_text_sound pattern [] before after h = ground arith
split_once_text_sound pattern (b ∷ s) before after h =
    here (strip_prefix pattern (b ∷ s)) (split_once_text pattern s) refl
      (λ x y k. split_once_text_sound pattern s x y k) h
  where
    here :
        (stripped : Option Text) (later : Option (Text × Text))
        → strip_prefix pattern (b ∷ s) ≡ stripped
        → ((x y : Text) → later ≡ some (x, y) → s ≡ x ++ (pattern ++ y))
        → or_later stripped b later ≡ some (before, after)
        → b ∷ s ≡ before ++ (pattern ++ after)
    here (some t) later e k g =
        let q = strip_prefix_sound pattern (b ∷ s) t e in
        let x : before ≡ [] = cc in let y : after ≡ t = cc in rw (x, y) q
    here none none e k g = ground arith
    here none (some (x, y)) e k g =
        let p : before ≡ b ∷ x = cc in
        let r : after ≡ y = cc in rw (p, r) (ap (λ z. b ∷ z) (k x y refl))

pub drop-append : (s t : Text) (b : ℕ) → drop (length s + 1) (s ++ b ∷ t) ≡ t
drop-append [] t b = refl
drop-append (a ∷ s) t b =
    let e : suc (length s) + 1 ≡ suc (length s + 1) = omega arith in rw e (drop-append s t b)

pub length-drop : (n : ℕ) (s : Text) → length (drop n s) ≤ length s
length-drop zero s = ground arith
length-drop (suc n) [] = ground arith
length-drop (suc n) (b ∷ s) = ground (arith, length-drop n s)
