-- ===== src/Strings/Decimal/Numerals.antt =====
-- Which texts `str::parse::<u64>` reads, and as which number.
use mathlib.Core.Path.{subst}
use fluxsemble_runtime_catal.Base.{
  ℕ, zero, suc, ◌+◌, ◌-◌, ◌*◌, ◌≤◌, ◌<◌, ◌≡◌, ◌≢◌, ◌↔◌, refl, sym, ap, ◌∙◌, ◌⊎◌, inl, inr, true,
  false, some, [], ◌∷◌, Text, All, ◌==◌, Bool-cases, arith, drop, ==_iff,
}
use fluxsemble_runtime_catal.Strings.Decimal.{u64_limit, scan, digits, parse_u64}

abbrev pub IsDigit : ℕ → Type 0
IsDigit b = (b'0' ≤ b) × (b ≤ b'9')

-- ten to the power of the number of digits
abbrev pub place : Text → ℕ
place [] = 1
place (_ ∷ s) = 10 * place s

-- the number that digits stand for, each by its place
abbrev pub decimal : Text → ℕ
decimal [] = 0
decimal (b ∷ s) = (b - b'0') * place s + decimal s

-- one or more digits of the number
abbrev pub IsNumeral : Text → ℕ → Type 0
IsNumeral s n = (s ≢ []) × All IsDigit s × (n ≡ decimal s)

-- digits of the number, after a plus sign or not
abbrev pub Spells : Text → ℕ → Type 0
Spells s n = IsNumeral s n ⊎ ((t : Text) × (s ≡ b'+' ∷ t) × IsNumeral t n)

raised : (a d p r : ℕ) → (a * 10 + d) * p + r ≡ a * (10 * p) + (d * p + r)
raised a d p r = omega arith

place_positive : (s : Text) → 1 ≤ place s
place_positive [] = ground arith
place_positive (b ∷ s) = omega (arith, place_positive s)

within_product : (a p r m : ℕ) → 1 ≤ p → a * p + r < m → a < m
within_product a zero r m h k = absurd (omega (arith, h))
within_product a (suc p) r m h k = omega (arith, k)

-- the step of the loop
scan_step :
    (b n m : ℕ) (s : Text)
    → scan (b ∷ s) n ≡ some m
    → IsDigit b × (n * 10 + (b - b'0') < u64_limit) × (scan s (n * 10 + (b - b'0')) ≡ some m)
unfolding scan
scan_step b n m s e = (ground (arith, e), ground (arith, e), ground (arith, e))

scan_digit_on :
    (b n : ℕ) (s : Text)
    → IsDigit b
    → n * 10 + (b - b'0') < u64_limit
    → scan (b ∷ s) n ≡ scan s (n * 10 + (b - b'0'))
unfolding scan
scan_digit_on b n s h k = ground (arith, h.0, h.1, k)

scan_sound :
    (s : Text) (n m : ℕ)
    → n < u64_limit
    → scan s n ≡ some m
    → All IsDigit s × (m ≡ n * place s + decimal s) × (m < u64_limit)
scan_sound [] n m h e = unfold scan in (tt, ground (arith, e), ground (arith, e, h))
scan_sound (b ∷ s) n m h e =
    let (digit, small, rest) = scan_step b n m s e in
    let (all_digits, same, bound) = scan_sound s (n * 10 + (b - b'0')) m small rest in
    ((digit, all_digits), same ∙ raised n (b - b'0') (place s) (decimal s), bound)

scan_complete :
    (s : Text) (n : ℕ)
    → All IsDigit s
    → n * place s + decimal s < u64_limit
    → scan s n ≡ some (n * place s + decimal s)
scan_complete [] n d h = unfold scan in ap some (omega arith)
scan_complete (b ∷ s) n d h =
    let same = raised n (b - b'0') (place s) (decimal s) in
    let bound : (n * 10 + (b - b'0')) * place s + decimal s < u64_limit = omega (arith, h, same) in
    scan_digit_on b n s d.0 (
      within_product (n * 10 + (b - b'0')) (place s) (decimal s) u64_limit (place_positive s) bound)
    ∙ scan_complete s (n * 10 + (b - b'0')) d.1 bound
    ∙ ap some same

digits_iff : (s : Text) (n : ℕ) → (digits s ≡ some n) ↔ (IsNumeral s n × (n < u64_limit))
unfolding digits
digits_iff [] n = (λ h. ground (arith, h), λ h. absurd (h.0.0 refl))
digits_iff (b ∷ s) n = (
  λ h.
      let (all_digits, same, bound) = scan_sound (b ∷ s) 0 n (omega arith) h in
      ((λ e. ground (arith, e), all_digits, omega (arith, same)), bound),
  λ h.
      let ((_, all_digits, same), bound) = h in
      let read = scan_complete (b ∷ s) 0 all_digits (omega (arith, same, bound)) in
      let value : 0 * place (b ∷ s) + decimal (b ∷ s) ≡ n = omega (arith, same) in
      read ∙ ap some value,
)

plus_digit : (b n : ℕ) (s : Text) → IsNumeral (b ∷ s) n → (b == b'+') ≡ false
plus_digit b n s (_, d, _) = ground (arith, d.0.0)

parse_empty : (n : ℕ) → parse_u64 [] ≢ some n
unfolding parse_u64
parse_empty n h = ground arith

parse_u64_plus : (b : ℕ) (s : Text) → (b == b'+') ≡ true → parse_u64 (b ∷ s) ≡ digits s
unfolding parse_u64
parse_u64_plus b s e = ground (arith, e)

parse_u64_plain : (b : ℕ) (s : Text) → (b == b'+') ≡ false → parse_u64 (b ∷ s) ≡ digits (b ∷ s)
unfolding parse_u64
parse_u64_plain b s e = ground (arith, e)

-- A text is read as a number exactly when it spells that number in digits, after a plus sign or not, and
-- the number is below 2 ^ 64.
pub parse_u64_iff : (s : Text) (n : ℕ) → (parse_u64 s ≡ some n) ↔ (Spells s n × (n < u64_limit))
parse_u64_iff [] n = (
  λ h. absurd (parse_empty n h),
  λ h. elim h.0 [ inl k ↦ absurd (k.0 refl) | inr (t, e, k) ↦ absurd (ground (arith, e)) ],
)
parse_u64_iff (b ∷ s) n = elim (Bool-cases (b == b'+')) [
  | inl e ↦
      let plus : b ∷ s ≡ b'+' ∷ s = ap (λ c. c ∷ s) ((==_iff b b'+').0 e) in
      (
        λ h.
            let (numeral, bound) = (digits_iff s n).0 (sym (parse_u64_plus b s e) ∙ h) in
            (inr (s, plus, numeral), bound),
        λ h. elim h.0 [
          | inl k ↦ absurd (ground (arith, e, plus_digit b n s k))
          | inr (t, same, k) ↦
              let tail : t ≡ s = ap (drop 1) (sym same) in
              parse_u64_plus b s e ∙ (digits_iff s n).1 (subst (λ u. IsNumeral u n) tail k, h.1)
        ],
      )
  | inr e ↦ (
    λ h.
        let (numeral, bound) = (digits_iff (b ∷ s) n).0 (sym (parse_u64_plain b s e) ∙ h) in
        (inl numeral, bound),
    λ h. elim h.0 [
      | inl k ↦ parse_u64_plain b s e ∙ (digits_iff (b ∷ s) n).1 (k, h.1)
      | inr (t, same, k) ↦ absurd (ground (arith, e, same))
    ],
  )
]
