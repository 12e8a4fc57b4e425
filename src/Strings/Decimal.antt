-- ===== src/Strings/Decimal.antt =====
-- `u64::to_string` and `str::parse::<u64>`, and that they are inverse.
pub mod Numerals
use fluxsemble_runtime_catal.Base.{
  ℕ, zero, suc, ◌+◌, ◌-◌, ◌*◌, ◌/◌, ◌%◌, ◌^◌, ◌≤◌, ◌<◌, ◌≡◌, refl, sym, ap, ◌⊎◌, ◌∙◌, true, false,
  Option, none, some, [], ◌∷◌, Text, codes, ltb, ◌==◌, if◌then◌else◌, Bool-cases, inl, inr, arith,
  ◌&&◌,
}
use fluxsemble_runtime_catal.Strings.{is_digit}

abbrev pub u64_limit : ℕ
u64_limit = 2 ^ 64

emit : ℕ → ℕ → Text → Text
emit zero n out = out
emit (suc fuel) n out = elim (ltb n 10) [
  | true ↦ (b'0' + n) ∷ out
  | false ↦ emit fuel (n / 10) ((b'0' + n % 10) ∷ out)
]

-- a number has at most as many digits as the fuel, one more than the number
unfoldable pub to_string : ℕ → Text
unfolding emit
to_string n = emit (suc n) n []

-- checked_mul(10) and checked_add of each digit
scan : Text → ℕ → Option ℕ
scan [] n = some n
scan (b ∷ s) n =
    let next = n * 10 + (b - b'0') in
    let rest = scan s next in if is_digit b && ltb next u64_limit then rest else none

digits : Text → Option ℕ
digits [] = none
digits (b ∷ s) = scan (b ∷ s) 0

-- an optional plus sign, then at least one digit
unfoldable pub parse_u64 : Text → Option ℕ
unfolding digits scan
parse_u64 [] = none
parse_u64 (b ∷ s) = if b == b'+' then digits s else digits (b ∷ s)

emit_small : (fuel n : ℕ) (out : Text) → ltb n 10 ≡ true → emit (suc fuel) n out ≡ (b'0' + n) ∷ out
unfolding emit
emit_small fuel n out h = ground arith

emit_large :
    (fuel n : ℕ) (out : Text)
    → ltb n 10 ≡ false
    → emit (suc fuel) n out ≡ emit fuel (n / 10) ((b'0' + n % 10) ∷ out)
unfolding emit
emit_large fuel n out h = ground arith

scan_digit :
    (d n : ℕ) (s : Text)
    → d < 10
    → n * 10 + d < u64_limit
    → scan ((b'0' + d) ∷ s) n ≡ scan s (n * 10 + d)
unfolding scan
scan_digit d n s h k = let e : b'0' + d - b'0' ≡ d = omega arith in rw e (ground arith)

scan-emit :
    (fuel n : ℕ) (out : Text) → n < fuel → n < u64_limit → scan (emit fuel n out) 0 ≡ scan out n
scan-emit zero n out h k = absurd (omega arith)
scan-emit (suc fuel) n out h k = elim (Bool-cases (ltb n 10)) [
  | inl small ↦
      let e : 0 * 10 + n ≡ n = omega arith in
      rw (emit_small fuel n out small)
        (scan_digit n 0 out (ground arith) (omega arith) ∙ ap (scan out) e)
  | inr large ↦
      let e : n / 10 * 10 + n % 10 ≡ n = omega arith in
      rw (emit_large fuel n out large) (
        scan-emit fuel (n / 10) ((b'0' + n % 10) ∷ out) (ground arith) (omega arith)
        ∙ scan_digit (n % 10) (n / 10) out (omega arith) (omega arith)
        ∙ ap (scan out) e)
]

emit-cons :
    (fuel n : ℕ) (out : Text)
    → n < fuel
    → (b : ℕ) × (s : Text) × (emit fuel n out ≡ b ∷ s) × (b'0' ≤ b)
emit-cons zero n out h = absurd (omega arith)
emit-cons (suc fuel) n out h = elim (Bool-cases (ltb n 10)) [
  | inl small ↦ (b'0' + n, out, emit_small fuel n out small, omega arith)
  | inr large ↦
      let (b, s, e, low) = emit-cons fuel (n / 10) ((b'0' + n % 10) ∷ out) (ground arith) in
      (b, s, emit_large fuel n out large ∙ e, low)
]

parse_u64-digits : (b : ℕ) (s : Text) → b'0' ≤ b → parse_u64 (b ∷ s) ≡ scan (b ∷ s) 0
unfolding parse_u64
parse_u64-digits b s h = ground arith

-- The text of a number below 2 ^ 64 parses to it.
pub parse_u64-to_string : (n : ℕ) → n < u64_limit → parse_u64 (to_string n) ≡ some n
parse_u64-to_string n h =
    let (b, s, e, low) = emit-cons (suc n) n [] (omega arith) in
    let printed : to_string n ≡ b ∷ s = unfold to_string in e in
    rw printed (parse_u64-digits b s low ∙ ap (λ (t : Text). scan t 0) (sym e) ∙ end)
  where
    end : scan (emit (suc n) n []) 0 ≡ some n
    end = scan-emit (suc n) n [] (omega arith) h ∙ (unfold scan in refl)

scan-lt : (s : Text) (n m : ℕ) → n < u64_limit → scan s n ≡ some m → m < u64_limit
unfolding scan
scan-lt [] n m h e = ground arith
scan-lt (b ∷ s) n m h e = ground (arith, scan-lt s (n * 10 + (b - b'0')) m)

digits-lt : (s : Text) (n : ℕ) → digits s ≡ some n → n < u64_limit
unfolding digits
digits-lt [] n h = ground arith
digits-lt (b ∷ s) n h = scan-lt (b ∷ s) 0 n (omega arith) h

-- What parses is below 2 ^ 64.
pub parse_u64-lt : (s : Text) (n : ℕ) → parse_u64 s ≡ some n → n < u64_limit
parse_u64-lt [] n h = unfold parse_u64 in ground arith
parse_u64-lt (b ∷ s) n h = go (unfold parse_u64 in ground arith)
  where
    go : (digits s ≡ some n) ⊎ (digits (b ∷ s) ≡ some n) → n < u64_limit
    go (inl e) = digits-lt s n e
    go (inr e) = digits-lt (b ∷ s) n e

parse_plus : parse_u64 (codes "+12") ≡ some 12
unfolding parse_u64
parse_plus = refl

parse_overflow : parse_u64 (codes "18446744073709551616") ≡ none
unfolding parse_u64
parse_overflow = refl

print_largest : to_string 18446744073709551615 ≡ codes "18446744073709551615"
unfolding to_string
print_largest = refl
