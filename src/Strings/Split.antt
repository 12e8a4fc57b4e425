-- ===== src/Strings/Split.antt =====
-- Laws of `==`, `split`, `split_once` and `strip_prefix` on texts.
use mathlib.Core.Path.{subst}
use fluxsemble_runtime_catal.Base.{
  Eq, ℕ, ◌≡◌, refl, ap, ◌≢◌, ◌↔◌, true, List, [], ◌∷◌, ◌++◌, Text, ◌==◌, ==_iff, All, arith,
  Bool-cases, inl, inr,
}
use fluxsemble_runtime_catal.Strings.{text_eq, split, push_front}

pub text_eq_refl : (s : Text) → text_eq s s ≡ true
unfolding text_eq
text_eq_refl [] = refl
text_eq_refl (a ∷ s) = ground (arith, text_eq_refl s)

pub text_eq_sound : (s t : Text) → text_eq s t ≡ true → s ≡ t
unfolding text_eq
text_eq_sound [] [] h = refl
text_eq_sound [] (b ∷ t) h = ground arith
text_eq_sound (a ∷ s) [] h = ground arith
text_eq_sound (a ∷ s) (b ∷ t) h = ground (arith, text_eq_sound s t)

pub text_eq_iff : (s t : Text) → (text_eq s t ≡ true) ↔ (s ≡ t)
text_eq_iff s t = (text_eq_sound s t, λ e. subst (λ u. text_eq s u ≡ true) e (text_eq_refl s))

-- the text has no byte `sep`
abbrev pub Lacks : ℕ → Text → Type 0
Lacks sep = All (λ b. b ≢ sep)

-- the pieces with the separator between each two: the inverse of `split`
unfoldable pub join : ℕ → List Text → Text
join sep [] = []
join sep (s ∷ []) = s
join sep (s ∷ t ∷ rest) = s ++ sep ∷ join sep (t ∷ rest)

join-push_front :
    (sep b : ℕ) (parts : List Text) → join sep (push_front b parts) ≡ b ∷ join sep parts
unfolding join
join-push_front sep b [] = refl
join-push_front sep b (s ∷ []) = refl
join-push_front sep b (s ∷ t ∷ rest) = refl

join-empty :
    (sep : ℕ) (t : Text) (rest : List Text) → join sep ([] ∷ t ∷ rest) ≡ sep ∷ join sep (t ∷ rest)
unfolding join
join-empty sep t rest = refl

pub split-cons : (sep : ℕ) (s : Text) → (t : Text) × (rest : List Text) × (split sep s ≡ t ∷ rest)
unfolding split
split-cons sep [] = ([], [], refl)
split-cons sep (b ∷ s) =
    let (t, rest, e) = split-cons sep s in
    elim (Bool-cases (b == sep)) [
      | inl h ↦ ([], split sep s, rw h)
      | inr h ↦ (b ∷ t, rest, rw (h, e))
    ]

pub join-split : (sep : ℕ) (s : Text) → join sep (split sep s) ≡ s
unfolding split
join-split sep [] = unfold join in refl
join-split sep (b ∷ s) = elim (Bool-cases (b == sep)) [
  | inl h ↦
      let (t, rest, e) = split-cons sep s in
      rw (h, e, join-empty, ← e) (cc ((==_iff b sep).0 h, join-split sep s))
  | inr h ↦ rw h (rw join-push_front (ap (λ (u : Text). b ∷ u) (join-split sep s)))
]

All-push_front :
    (sep b : ℕ) (parts : List Text)
    → b ≢ sep
    → All (Lacks sep) parts
    → All (Lacks sep) (push_front b parts)
All-push_front sep b [] h k = ((h, tt), tt)
All-push_front sep b (s ∷ rest) h k = ((h, k.0), k.1)

pub split-Lacks : (sep : ℕ) (s : Text) → All (Lacks sep) (split sep s)
unfolding split
split-Lacks sep [] = (tt, tt)
split-Lacks sep (b ∷ s) = elim (Bool-cases (b == sep)) [
  | inl h ↦ rw h (tt, split-Lacks sep s)
  | inr h ↦ rw h (All-push_front sep b (split sep s) (ground arith) (split-Lacks sep s))
]

split-append : (sep : ℕ) (s t : Text) → Lacks sep s → split sep (s ++ sep ∷ t) ≡ s ∷ split sep t
unfolding split
split-append sep [] t h = ground arith
split-append sep (b ∷ s) t h = rw (split-append sep s t h.1) (ground (arith, h.0))

split_last : (sep : ℕ) (s : Text) → Lacks sep s → split sep s ≡ s ∷ []
unfolding split
split_last sep [] h = refl
split_last sep (b ∷ s) h = rw (split_last sep s h.1) (ground (arith, h.0))

-- Pieces without the separator are recovered from their join.
pub split-join :
    (sep : ℕ) (s : Text) (rest : List Text)
    → All (Lacks sep) (s ∷ rest)
    → split sep (join sep (s ∷ rest)) ≡ s ∷ rest
unfolding join
split-join sep s [] h = split_last sep s h.0
split-join sep s (t ∷ rest) h =
    rw (split-append sep s (join sep (t ∷ rest)) h.0)
      (ap (λ (u : List Text). s ∷ u) (split-join sep t rest h.1))

instance abbrev pub text_class : Eq Text
text_class = record { same = text_eq; same_iff = text_eq_iff }
