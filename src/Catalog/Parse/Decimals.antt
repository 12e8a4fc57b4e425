-- ===== src/Catalog/Parse/Decimals.antt =====
-- crates/catalog-core/src/wire.rs: sizes and sequence numbers are admitted in one spelling each.
use mathlib.Core.Path.{subst}
use fluxsemble_runtime_catal.Base.{
  ℕ, ◌<◌, ◌≡◌, ◌↔◌, sym, true, not, Text, ok, ◌>>=◌, ◌>>◌, ok_or, ensure, ◌==◌, bind-eq-ok,
  ensure-eq-ok, ok_or-eq-ok, ok-injective, arith,
}
use fluxsemble_runtime_catal.Strings.{text_eq}
use fluxsemble_runtime_catal.Strings.Split.{text_eq_refl, text_eq_sound}
use fluxsemble_runtime_catal.Strings.Decimal.{
  u64_limit, parse_u64, to_string, parse_u64-to_string, parse_u64-lt,
}
use fluxsemble_runtime_catal.Catalog.Require.{invalid_catalog, require}
use fluxsemble_runtime_catal.Catalog.Parse.{parse_byte_size, parse_nonzero_decimal}

admitted :
    (value : Text) (m n : ℕ)
    → ok_or invalid_catalog (parse_u64 value) ≡ ok m
    → text_eq value (to_string m) ≡ true
    → m ≡ n
    → (n < u64_limit) × (value ≡ to_string n)
admitted value m n e same p =
    let parsed = ok_or-eq-ok invalid_catalog (parse_u64 value) e in
    subst (λ (k : ℕ). (k < u64_limit) × (value ≡ to_string k)) p
      (parse_u64-lt value m parsed, text_eq_sound value (to_string m) same)

-- A text is admitted as the size `n` exactly when `n` is below 2 ^ 64 and the text is its decimal
-- spelling: no sign, no leading zero.
pub byte_size_iff :
    (value : Text) (n : ℕ)
    → (parse_byte_size value ≡ ok n) ↔ ((n < u64_limit) × (value ≡ to_string n))
unfolding parse_byte_size
byte_size_iff value n = (sound, complete)
  where
    sound : parse_byte_size value ≡ ok n → (n < u64_limit) × (value ≡ to_string n)
    sound h =
        let (m, e, h₁) = bind-eq-ok (ok_or invalid_catalog (parse_u64 value)) _ h in
        let (same, h₂) = ensure-eq-ok invalid_catalog (text_eq value (to_string m)) (ok m) h₁ in
        admitted value m n e same (ok-injective h₂)

    complete : (n < u64_limit) × (value ≡ to_string n) → parse_byte_size value ≡ ok n
    complete (small, e) =
        subst (λ (v : Text). parse_byte_size v ≡ ok n) (sym e)
          (unfold ensure ◌>>=◌ in rw (parse_u64-to_string n small, text_eq_refl (to_string n)))

-- A text is admitted as the sequence number `n` exactly when `n` is positive and below 2 ^ 64 and the
-- text is its decimal spelling.
pub nonzero_decimal_iff :
    (value : Text) (n : ℕ)
    → (parse_nonzero_decimal value ≡ ok n) ↔ ((0 < n) × (n < u64_limit) × (value ≡ to_string n))
unfolding parse_nonzero_decimal
nonzero_decimal_iff value n = (sound, complete)
  where
    sound : parse_nonzero_decimal value ≡ ok n → (0 < n) × (n < u64_limit) × (value ≡ to_string n)
    sound h =
        let (m, e, h₁) = bind-eq-ok (ok_or invalid_catalog (parse_u64 value)) _ h in
        let (same, h₂) =
          ensure-eq-ok invalid_catalog (text_eq value (to_string m))
            (require (not (m == 0)) >> ok m) h₁ in
        let (positive, h₃) = ensure-eq-ok invalid_catalog (not (m == 0)) (ok m) h₂ in
        let (small, spelled) = admitted value m n e same (ok-injective h₃) in
        (ground (arith, ok-injective h₃), small, spelled)

    complete :
        (0 < n) × (n < u64_limit) × (value ≡ to_string n) → parse_nonzero_decimal value ≡ ok n
    complete (positive, small, e) =
        let nonzero : not (n == 0) ≡ true = ground arith in
        subst (λ (v : Text). parse_nonzero_decimal v ≡ ok n) (sym e)
          (unfold ensure ◌>>=◌ in
            rw (parse_u64-to_string n small, text_eq_refl (to_string n), nonzero))
