-- ===== src/Signature/Scan/Failures.antt =====
-- crates/catalog-core/src/signature.rs: the scanner has one error.
use fluxsemble_runtime_catal.Base.{
  ℕ, zero, suc, ◌==◌, List, [], ◌∷◌, Text, codes, ltb, all, length, drop, FailsAs, FailsAs-err,
  FailsAs-ok, FailsAs-bind, FailsAs-ensure, FailsAs-ok_or, FailsAs-branch, FailsAs-if,
}
use fluxsemble_runtime_catal.Strings.{text_eq, is_empty, is_hex_digit, first_is}
use fluxsemble_runtime_catal.Signature.Errors.{Sig, invalid_signed_catalog}
use fluxsemble_runtime_catal.Signature.Scan.{
  is_simple_escape, skip_json_whitespace, scan_content, scan_escape, scan_unicode, scan_json_string,
  scan_bounded_json_string, is_opener, is_closer, closer_of, close_one, compound_loop,
  scan_json_compound, scalar_end, scan_json_value, Fields, field_of, expect, after_value,
  scan_field, fields_loop, no_fields, scan_signed_envelope,
}

abbrev Plain {ℓ} : {A : Type ℓ} → Sig A → Type ℓ
Plain = FailsAs invalid_signed_catalog

mutual
  unfolding scan_content

  content-Plain : (s : Text) → Plain (scan_content s)
  content-Plain [] = FailsAs-err
  content-Plain (b ∷ s) = FailsAs-branch (b == b'"') _ _ (FailsAs-ok s) (
      FailsAs-branch (b == b'\\') _ _ (escape-Plain s)
        (FailsAs-branch (ltb b 32) _ _ FailsAs-err (content-Plain s)))

  escape-Plain : (s : Text) → Plain (scan_escape s)
  escape-Plain [] = FailsAs-err
  escape-Plain (b ∷ s) =
      FailsAs-branch (is_simple_escape b) _ _ (content-Plain s)
        (FailsAs-branch (b == b'u') _ _ (unicode-Plain s) FailsAs-err)

  unicode-Plain : (s : Text) → Plain (scan_unicode s)
  unicode-Plain [] = FailsAs-err
  unicode-Plain (a ∷ []) = FailsAs-err
  unicode-Plain (a ∷ b ∷ []) = FailsAs-err
  unicode-Plain (a ∷ b ∷ c ∷ []) = FailsAs-err
  unicode-Plain (a ∷ b ∷ c ∷ d ∷ s) =
      FailsAs-branch (all is_hex_digit (a ∷ b ∷ c ∷ d ∷ [])) _ _ (content-Plain s) FailsAs-err

string-Plain : (s : Text) → Plain (scan_json_string s)
unfolding scan_json_string
string-Plain [] = FailsAs-err
string-Plain (b ∷ s) = FailsAs-branch (b == b'"') _ _ (content-Plain s) FailsAs-err

close_one-Plain :
    (f : List ℕ → Text → Sig Text) (b : ℕ) (closers : List ℕ) (s : Text)
    → ((c : List ℕ) → Plain (f c s))
    → Plain (close_one f b closers s)
close_one-Plain f b [] s k = FailsAs-err
close_one-Plain f b (c ∷ closers) s k =
    FailsAs-ensure (c == b) _ (FailsAs-branch (is_empty closers) _ _ (FailsAs-ok s) (k closers))

compound-Plain : (fuel : ℕ) (closers : List ℕ) (s : Text) → Plain (compound_loop fuel closers s)
unfolding compound_loop
compound-Plain zero closers s = FailsAs-err
compound-Plain (suc fuel) closers [] = FailsAs-err
compound-Plain (suc fuel) closers (b ∷ s) =
    FailsAs-branch (b == b'"') _ _
      (FailsAs-bind _ _ (string-Plain (b ∷ s)) (λ end. compound-Plain fuel closers end))
      (FailsAs-branch (is_opener b) _ _
        (FailsAs-ensure _ _ (compound-Plain fuel (closer_of b ∷ closers) s))
        (FailsAs-branch (is_closer b) _ _
          (close_one-Plain (compound_loop fuel) b closers s (λ c. compound-Plain fuel c s))
          (compound-Plain fuel closers s)))

value-Plain : (s : Text) → Plain (scan_json_value s)
unfolding scan_json_value scan_json_compound
value-Plain [] = FailsAs-err
value-Plain (b ∷ s) = FailsAs-branch (b == b'"') _ _ (string-Plain (b ∷ s)) (
    FailsAs-branch (is_opener b) _ _
      (FailsAs-ensure _ _ (compound-Plain (length s) (closer_of b ∷ []) s))
      (FailsAs-ensure _ _ (FailsAs-ok (scalar_end (b ∷ s)))))

field_of-Plain : (key : Text) → Plain (field_of key)
unfolding field_of
field_of-Plain key = FailsAs-if (text_eq key (codes "\"envelope_version\"")) _ _ (FailsAs-ok _) (
    FailsAs-if (text_eq key (codes "\"signature_algorithm\"")) _ _ (FailsAs-ok _) (
      FailsAs-if (text_eq key (codes "\"key_id\"")) _ _ (FailsAs-ok _) (
        FailsAs-if (text_eq key (codes "\"payload\"")) _ _ (FailsAs-ok _)
          (FailsAs-if (text_eq key (codes "\"signature\"")) _ _ (FailsAs-ok _) FailsAs-err))))

expect-Plain : (b : ℕ) (s : Text) → Plain (expect b s)
unfolding expect
expect-Plain b [] = FailsAs-err
expect-Plain b (c ∷ s) = FailsAs-ensure _ _ (FailsAs-ok s)

field-Plain : (f : Fields) (s : Text) → Plain (scan_field f s)
unfolding scan_field scan_bounded_json_string
field-Plain f s =
    FailsAs-bind _ _
      (FailsAs-bind _ _ (string-Plain s) (λ end. FailsAs-ensure _ _ (FailsAs-ok end)))
      λ key_end. FailsAs-bind _ _ (field_of-Plain _) λ field. FailsAs-ensure _ _ (
        FailsAs-bind _ _ (expect-Plain b':' (skip_json_whitespace key_end)) λ colon.
          FailsAs-bind _ _ (value-Plain (skip_json_whitespace colon))
            λ end. FailsAs-ensure _ _ (FailsAs-ok _))

after_value-Plain :
    (f : Fields → Text → Sig (Fields × Text)) (fields : Fields) (s : Text)
    → ((t : Text) → Plain (f fields t))
    → Plain (after_value f fields s)
unfolding after_value
after_value-Plain f fields [] k = FailsAs-err
after_value-Plain f fields (b ∷ s) k =
    FailsAs-branch (b == b',') _ _ (FailsAs-ensure _ _ (k (skip_json_whitespace s)))
      (FailsAs-ensure _ _ (FailsAs-ok (fields, s)))

loop-Plain : (fuel : ℕ) (f : Fields) (s : Text) → Plain (fields_loop fuel f s)
unfolding fields_loop
loop-Plain zero f s = FailsAs-err
loop-Plain (suc fuel) f s =
    FailsAs-branch (first_is (λ c. c == b'}') (skip_json_whitespace s)) _ _
      (FailsAs-ok (f, drop 1 (skip_json_whitespace s)))
      (FailsAs-bind _ _ (field-Plain f (skip_json_whitespace s)) λ (filled, end).
        after_value-Plain (fields_loop fuel) filled (skip_json_whitespace end)
          (λ t. loop-Plain fuel filled t))

pub envelope-FailsAs : (bytes : Text) → FailsAs invalid_signed_catalog (scan_signed_envelope bytes)
unfolding scan_signed_envelope
envelope-FailsAs bytes = FailsAs-ensure _ _ (
    FailsAs-bind _ _ (expect-Plain b'{' (skip_json_whitespace bytes)) λ inside.
      FailsAs-bind _ _ (loop-Plain 6 no_fields inside) λ (fields, rest). FailsAs-ensure _ _ (
        FailsAs-bind _ _ (FailsAs-ok_or _) λ version.
          FailsAs-bind _ _ (FailsAs-ok_or _) λ algorithm. FailsAs-bind _ _ (FailsAs-ok_or _) λ key.
            FailsAs-bind _ _ (FailsAs-ok_or _) λ found.
              FailsAs-bind _ _ (FailsAs-ok_or _) λ signed. FailsAs-ensure _ _ (FailsAs-ok _)))
