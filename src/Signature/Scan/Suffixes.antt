-- ===== src/Signature/Scan/Suffixes.antt =====
-- crates/catalog-core/src/signature.rs: the position that a scanner returns is behind the one it starts at.
use mathlib.Core.Path.{subst}
use mathlib.Core.List.{append_assoc}
use fluxsemble_runtime_catal.Base.{
  ℕ, zero, suc, ◌-◌, ◌≡◌, refl, sym, ap, ◌∙◌, ◌==◌, inl, inr, List, [], ◌∷◌, ◌++◌, Text, ok,
  branch_ok, then-eq-ok, bind-eq-ok, ok-injective, Ensures, Ensures-bind, Ensures-ok,
  Ensures-ensure, length, length-append, take, Bool-cases, arith,
}
use fluxsemble_runtime_catal.Strings.{is_empty}
use fluxsemble_runtime_catal.Signature.Errors.{Sig, catalog_check}
use fluxsemble_runtime_catal.Signature.Scan.{
  is_json_whitespace, skip_json_whitespace, scan_json_string, span, scan_bounded_json_string,
  is_opener, is_closer, closer_of, close_one, compound_loop, scan_json_compound, is_scalar_end,
  scalar_end, scan_json_value, expect,
}
use fluxsemble_runtime_catal.Signature.Scan.Literals.{scan_json_string_iff}

-- the rest of the text from some position on
abbrev pub Suffix : Text → Text → Type 0
Suffix s rest = (front : Text) × (s ≡ front ++ rest)

-- a part of the text
abbrev pub Infix : Text → Text → Type 0
Infix s part = (before : Text) × (after : Text) × (s ≡ before ++ (part ++ after))

pub Suffix_refl : (s : Text) → Suffix s s
Suffix_refl s = ([], refl)

pub Suffix_trans : (s t u : Text) → Suffix s t → Suffix t u → Suffix s u
Suffix_trans s t u (f, p) (g, q) = (f ++ g, p ∙ ap (λ z. f ++ z) q ∙ sym (append_assoc f g u))

pub Suffix-cons : (b : ℕ) (s t : Text) → Suffix s t → Suffix (b ∷ s) t
Suffix-cons b s t (f, p) = (b ∷ f, ap (λ z. b ∷ z) p)

pub skip-Suffix : (s : Text) → Suffix s (skip_json_whitespace s)
unfolding skip_json_whitespace
skip-Suffix [] = ([], refl)
skip-Suffix (b ∷ s) = elim (Bool-cases (is_json_whitespace b)) [
  | inl e ↦ rw (e, skip_json_whitespace) (Suffix-cons b s (skip_json_whitespace s) (skip-Suffix s))
  | inr e ↦ rw (e, skip_json_whitespace) ([], refl)
]

pub scalar_end-Suffix : (s : Text) → Suffix s (scalar_end s)
unfolding scalar_end
scalar_end-Suffix [] = ([], refl)
scalar_end-Suffix (b ∷ s) = elim (Bool-cases (is_scalar_end b)) [
  | inl e ↦ rw (e, scalar_end) ([], refl)
  | inr e ↦ rw (e, scalar_end) (Suffix-cons b s (scalar_end s) (scalar_end-Suffix s))
]

pub string-Suffix : (s rest : Text) → scan_json_string s ≡ ok rest → Suffix s rest
string-Suffix s rest h =
    let (content, _, e) = (scan_json_string_iff s rest).0 h in
    (
      b'"' ∷ (content ++ (b'"' ∷ [])),
      e ∙ ap (λ z. b'"' ∷ z) (sym (append_assoc content (b'"' ∷ []) rest)),
    )

pub bounded-Suffix : (s : Text) (n : ℕ) → Ensures (Suffix s) (scan_bounded_json_string s n)
unfolding scan_bounded_json_string
bounded-Suffix s n =
    Ensures-bind _ _
      λ end found. Ensures-ensure _ _ _ λ _. Ensures-ok end (string-Suffix s end found)

pub expect-Suffix : (b : ℕ) (s : Text) → Ensures (Suffix s) (expect b s)
unfolding expect
expect-Suffix b [] = record { at = λ t h. ground arith }
expect-Suffix b (c ∷ s) = Ensures-ensure _ _ _ λ _. Ensures-ok s (c ∷ [], refl)

pub close_one-Suffix :
    (f : List ℕ → Text → Sig Text) (b : ℕ) (closers : List ℕ) (s rest : Text)
    → ((c : List ℕ) → f c s ≡ ok rest → Suffix s rest)
    → close_one f b closers s ≡ ok rest
    → Suffix s rest
close_one-Suffix f b [] s rest k h = ground arith
close_one-Suffix f b (c ∷ closers) s rest k h =
    let (_, h₁) = then-eq-ok (catalog_check (c == b)) _ h in
    elim (branch_ok (is_empty closers) _ _ h₁) [
      | inl (_, e) ↦ subst (Suffix s) (ok-injective e) (Suffix_refl s)
      | inr (_, e) ↦ k closers e
    ]

pub compound-Suffix :
    (fuel : ℕ) (closers : List ℕ) (s rest : Text)
    → compound_loop fuel closers s ≡ ok rest
    → Suffix s rest
unfolding compound_loop
compound-Suffix zero closers s rest h = ground arith
compound-Suffix (suc fuel) closers [] rest h = ground arith
compound-Suffix (suc fuel) closers (b ∷ s) rest h = elim (branch_ok (b == b'"') _ _ h) [
  | inl (_, h₁) ↦
      let (end, found, h₂) = bind-eq-ok (scan_json_string (b ∷ s)) _ h₁ in
      Suffix_trans (b ∷ s) end rest (string-Suffix (b ∷ s) end found)
        (compound-Suffix fuel closers end rest h₂)
  | inr (_, h₁) ↦ elim (branch_ok (is_opener b) _ _ h₁) [
    | inl (_, h₂) ↦
        let (_, h₃) = then-eq-ok (catalog_check _) _ h₂ in
        Suffix-cons b s rest (compound-Suffix fuel (closer_of b ∷ closers) s rest h₃)
    | inr (_, h₂) ↦ elim (branch_ok (is_closer b) _ _ h₂) [
      | inl (_, h₃) ↦ Suffix-cons b s rest (
          close_one-Suffix (compound_loop fuel) b closers s rest
            (λ c. compound-Suffix fuel c s rest) h₃)
      | inr (_, h₃) ↦ Suffix-cons b s rest (compound-Suffix fuel closers s rest h₃)
    ]
  ]
]

pub compound_value-Suffix : (s : Text) → Ensures (Suffix s) (scan_json_compound s)
unfolding scan_json_compound
compound_value-Suffix [] = record { at = λ t h. ground arith }
compound_value-Suffix (b ∷ s) = Ensures-ensure _ _ _ λ _. record {
  at = λ rest h. Suffix-cons b s rest (compound-Suffix (length s) (closer_of b ∷ []) s rest h);
}

pub value-Suffix : (s rest : Text) → scan_json_value s ≡ ok rest → Suffix s rest
unfolding scan_json_value
value-Suffix [] rest h = ground arith
value-Suffix (b ∷ s) rest h = elim (branch_ok (b == b'"') _ _ h) [
  | inl (_, e) ↦ string-Suffix (b ∷ s) rest e
  | inr (_, h₁) ↦ elim (branch_ok (is_opener b) _ _ h₁) [
    | inl (_, e) ↦ (compound_value-Suffix (b ∷ s)).at rest e
    | inr (_, h₂) ↦
        let (_, e) = then-eq-ok (catalog_check _) _ h₂ in
        subst (Suffix (b ∷ s)) (ok-injective e) (scalar_end-Suffix (b ∷ s))
  ]
]

pub take_front : (front rest : Text) → take (length front) (front ++ rest) ≡ front
take_front [] rest = refl
take_front (b ∷ front) rest = ap (λ z. b ∷ z) (take_front front rest)

pub span_front : (s rest : Text) → Suffix s rest → s ≡ span s rest ++ rest
span_front s rest (front, e) =
    let n : length s - length rest ≡ length front =
      omega (arith, ap length e, length-append front rest) in
    e
    ∙ ap (λ z. z ++ rest)
        (sym (ap (λ k. take k s) n ∙ ap (take (length front)) e ∙ take_front front rest))

-- an infix of a later part is an infix of the whole
pub Infix-Suffix : (s t part : Text) → Suffix s t → Infix t part → Infix s part
Infix-Suffix s t part (f, p) (before, after, q) =
    (f ++ before, after, p ∙ ap (λ z. f ++ z) q ∙ sym (append_assoc f before (part ++ after)))
