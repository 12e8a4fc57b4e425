-- ===== src/Signature/Scan/Literals.antt =====
-- crates/catalog-core/src/signature.rs: which texts the string scanner accepts.
use mathlib.Core.Path.{subst}
use mathlib.Core.List.{append_assoc}
use fluxsemble_runtime_catal.Base.{
  ℕ, ◌<◌, ◌≤◌, ◌≡◌, ◌≢◌, ◌↔◌, inl, inr, refl, sym, ap, ◌∙◌, true, false, [], ◌∷◌, ◌++◌, Text, ok,
  ok-injective, branch_ok, ltb, ◌==◌, ==_iff, all, length, length-append, arith,
}
use fluxsemble_runtime_catal.Strings.{is_hex_digit}
use fluxsemble_runtime_catal.Signature.Scan.{
  is_simple_escape, scan_content, scan_escape, scan_unicode, scan_json_string,
}

-- what may stand between the quotes of a JSON string
pub data IsContent : Text → Type 0 where
  nothing : IsContent []
  plain : (b : ℕ) (s : Text) → b ≢ b'"' → b ≢ b'\\' → 32 ≤ b → IsContent s → IsContent (b ∷ s)
  escaped : (b : ℕ) (s : Text) → is_simple_escape b ≡ true → IsContent s → IsContent (b'\\' ∷ b ∷ s)
  unicode :
      (a b c d : ℕ) (s : Text)
      → all is_hex_digit (a ∷ b ∷ c ∷ d ∷ []) ≡ true
      → IsContent s
      → IsContent (b'\\' ∷ b'u' ∷ a ∷ b ∷ c ∷ d ∷ s)

-- the text is the content, the closing quote and the rest
abbrev pub Closes : Text → Text → Type 0
Closes s rest = (content : Text) × IsContent content × (s ≡ content ++ (b'"' ∷ rest))

-- one more byte, or escape, in front of the closing quote
extend :
    (front s rest : Text)
    → ((c : Text) → IsContent c → IsContent (front ++ c))
    → Closes s rest
    → Closes (front ++ s) rest
extend front s rest grow (c, is, e) =
    (front ++ c, grow c is, ap (λ t. front ++ t) e ∙ sym (append_assoc front c (b'"' ∷ rest)))

mutual
  unfolding scan_content

  content_sound : (s rest : Text) → scan_content s ≡ ok rest → Closes s rest
  content_sound [] rest h = ground arith
  content_sound (b ∷ s) rest h = elim (branch_ok (b == b'"') _ _ h) [
    | inl (q, e) ↦ ([], nothing, cc ((==_iff b b'"').0 q, ok-injective e))
    | inr (q, h₁) ↦ elim (branch_ok (b == b'\\') _ _ h₁) [
      | inl (p, e) ↦
          subst (λ c. Closes (c ∷ s) rest) (sym ((==_iff b b'\\').0 p)) (escape_sound s rest e)
      | inr (p, h₂) ↦ elim (branch_ok (ltb b 32) _ _ h₂) [
        | inl (l, e) ↦ ground (arith, e)
        | inr (l, e) ↦
            extend (b ∷ []) s rest
              (λ c is. plain b c (ground (arith, q)) (ground (arith, p)) (ground (arith, l)) is)
              (content_sound s rest e)
      ]
    ]
  ]

  escape_sound : (s rest : Text) → scan_escape s ≡ ok rest → Closes (b'\\' ∷ s) rest
  escape_sound [] rest h = ground arith
  escape_sound (b ∷ s) rest h = elim (branch_ok (is_simple_escape b) _ _ h) [
    | inl (simple, e) ↦
        extend (b'\\' ∷ b ∷ []) s rest (λ c is. escaped b c simple is) (content_sound s rest e)
    | inr (_, h₁) ↦ elim (branch_ok (b == b'u') _ _ h₁) [
      | inl (u, e) ↦
          subst (λ c. Closes (b'\\' ∷ c ∷ s) rest) (sym ((==_iff b b'u').0 u))
            (unicode_sound s rest e)
      | inr (_, e) ↦ ground (arith, e)
    ]
  ]

  unicode_sound : (s rest : Text) → scan_unicode s ≡ ok rest → Closes (b'\\' ∷ b'u' ∷ s) rest
  unicode_sound [] rest h = ground arith
  unicode_sound (a ∷ []) rest h = ground arith
  unicode_sound (a ∷ b ∷ []) rest h = ground arith
  unicode_sound (a ∷ b ∷ c ∷ []) rest h = ground arith
  unicode_sound (a ∷ b ∷ c ∷ d ∷ s) rest h =
      elim (branch_ok (all is_hex_digit (a ∷ b ∷ c ∷ d ∷ [])) _ _ h) [
        | inl (hex, e) ↦
            extend (b'\\' ∷ b'u' ∷ a ∷ b ∷ c ∷ d ∷ []) s rest (λ t is. unicode a b c d t hex is)
              (content_sound s rest e)
        | inr (_, e) ↦ ground (arith, e)
      ]

not_byte : (b c : ℕ) → b ≢ c → (b == c) ≡ false
not_byte b c n = ground (arith, n)

not_control : (b : ℕ) → 32 ≤ b → ltb b 32 ≡ false
not_control b le = ground arith

content_complete :
    (content rest : Text) → IsContent content → scan_content (content ++ (b'"' ∷ rest)) ≡ ok rest
unfolding scan_content
content_complete [] rest nothing = refl
content_complete (_ ∷ _) rest (plain b s q e le c) =
    rw (not_byte b b'"' q, not_byte b b'\\' e, not_control b le, scan_content)
      (content_complete s rest c)
content_complete (_ ∷ _) rest (escaped b s e c) = rw (e, scan_content) (content_complete s rest c)
content_complete (_ ∷ _) rest (unicode a b c d s e k) =
    rw (e, scan_content) (content_complete s rest k)

-- The string scanner, started at a text, stops at a position exactly when the text is a quote, a content
-- in which quotes, backslashes and control bytes occur only as escapes, the closing quote, and what
-- stands at that position.
pub scan_json_string_iff :
    (s rest : Text)
    → (scan_json_string s ≡ ok rest)
      ↔ ((content : Text) × IsContent content × (s ≡ b'"' ∷ (content ++ (b'"' ∷ rest))))
unfolding scan_json_string
scan_json_string_iff s rest = (
  sound s,
  λ (content, is, e).
      subst (λ t. scan_json_string t ≡ ok rest) (sym e) (content_complete content rest is),
)
  where
    sound :
        (s : Text)
        → scan_json_string s ≡ ok rest
        → (content : Text) × IsContent content × (s ≡ b'"' ∷ (content ++ (b'"' ∷ rest)))
    sound [] h = ground arith
    sound (b ∷ t) h = elim (branch_ok (b == b'"') _ _ h) [
      | inl (q, e) ↦
          let (content, is, split) = content_sound t rest e in
          (content, is, cc ((==_iff b b'"').0 q, split))
      | inr (_, e) ↦ ground (arith, e)
    ]

-- where the scanner stops, fewer bytes are left
pub scan_json_string-shorter :
    (s rest : Text) → scan_json_string s ≡ ok rest → length rest < length s
scan_json_string-shorter s rest h =
    let (content, _, e) = (scan_json_string_iff s rest).0 h in
    omega (arith, ap length e, length-append content (b'"' ∷ rest))
