-- ===== src/Catalog/Source/Scalars.antt =====
-- crates/catalog-core/src/source.rs: which tags are admitted, and where relative paths lead.
use mathlib.Core.Path.{subst}
use fluxsemble_runtime_catal.Base.{
  ℕ, ◌<◌, ◌≡◌, ◌↔◌, refl, sym, some, ◌++◌, Text, ok, ok_or, ◌>>=◌, ensure, bind-eq-ok, ensure-eq-ok,
  ok-injective,
}
use fluxsemble_runtime_catal.Strings.{strip_prefix, text_eq}
use fluxsemble_runtime_catal.Strings.Split.{text_eq_sound, text_eq_refl}
use fluxsemble_runtime_catal.Strings.Decimal.{u64_limit, to_string}
use fluxsemble_runtime_catal.Catalog.Require.{invalid_catalog}
use fluxsemble_runtime_catal.Catalog.Parse.{parse_nonzero_decimal}
use fluxsemble_runtime_catal.Catalog.Parse.Decimals.{nonzero_decimal_iff}
use fluxsemble_runtime_catal.Catalog.Source.{tag_prefix, parse_tag, parse_tag_without_sequence}

strip-tag_prefix : (s : Text) → strip_prefix tag_prefix (tag_prefix ++ s) ≡ some s
unfolding strip_prefix
strip-tag_prefix s = refl

pub parse_tag_lem :
    (value tag : Text) (n : ℕ)
    → parse_tag value n ≡ ok tag
    → (value ≡ tag_prefix ++ to_string n) × (value ≡ tag)
unfolding parse_tag
parse_tag_lem value tag n h =
    let (same, k) =
      ensure-eq-ok invalid_catalog (text_eq value (tag_prefix ++ to_string n)) (ok value) h in
    (text_eq_sound value (tag_prefix ++ to_string n) same, ok-injective k)

-- A text is admitted as a catalog tag exactly when it is "catalog-v1-sequence-" and the decimal
-- spelling of a positive number below 2 ^ 64; the tag is the text.
pub tag_iff :
    (value tag : Text)
    → (parse_tag_without_sequence value ≡ ok tag) ↔ (
        (value ≡ tag) × ((n : ℕ) × (0 < n) × (n < u64_limit) × (value ≡ tag_prefix ++ to_string n)))
unfolding parse_tag_without_sequence
tag_iff value tag = (sound, complete)
  where
    sound :
        parse_tag_without_sequence value ≡ ok tag
        → (value ≡ tag)
          × ((n : ℕ) × (0 < n) × (n < u64_limit) × (value ≡ tag_prefix ++ to_string n))
    sound h =
        let (digits, stripped, h₁) =
          bind-eq-ok (ok_or invalid_catalog (strip_prefix tag_prefix value)) _ h in
        let (n, parsed, h₂) = bind-eq-ok (parse_nonzero_decimal digits) _ h₁ in
        let (positive, small, _) = (nonzero_decimal_iff digits n).0 parsed in
        let (spelled, same) = parse_tag_lem value tag n h₂ in (same, (n, positive, small, spelled))

    complete :
        (value ≡ tag) × ((n : ℕ) × (0 < n) × (n < u64_limit) × (value ≡ tag_prefix ++ to_string n))
        → parse_tag_without_sequence value ≡ ok tag
    complete (same, (n, positive, small, spelled)) =
        subst (λ t. parse_tag_without_sequence value ≡ ok t) same
          (subst (λ v. parse_tag_without_sequence v ≡ ok v) (sym spelled)
            (unfold parse_tag ensure ◌>>=◌ in
              rw
                (
                  strip-tag_prefix (to_string n),
                  (nonzero_decimal_iff (to_string n) n).1 (positive, small, refl),
                  text_eq_refl (tag_prefix ++ to_string n),
                )
                refl))
