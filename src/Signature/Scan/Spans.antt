-- ===== src/Signature/Scan/Spans.antt =====
-- crates/catalog-core/src/signature.rs: the spans that the scanner returns lie in the envelope.
use mathlib.Core.Path.{subst}
use fluxsemble_runtime_catal.Base.{
  ℕ, zero, suc, ◌+◌, ◌≤◌, ◌≡◌, refl, ◌==◌, inl, inr, Option, some, none, [], ◌∷◌, Text, ok, ok_or,
  branch_ok, then-eq-ok, bind-eq-ok, ok-injective, Ensures, Ensures-bind, Ensures-ok,
  Ensures-ensure, length, arith,
}
use fluxsemble_runtime_catal.Strings.{first_is}
use fluxsemble_runtime_catal.Signature.Errors.{Sig, invalid_signed_catalog, catalog_check}
use fluxsemble_runtime_catal.Signature.Scan.{
  max_signed_catalog_envelope_bytes, max_non_payload_envelope_bytes, skip_json_whitespace, span,
  EnvelopeField, envelope_version, signature_algorithm, key_id, payload, signature, Fields,
  no_fields, fill, maximum_of, scan_field, after_value, fields_loop, SignedEnvelopeSpans,
  scan_signed_envelope,
}
use fluxsemble_runtime_catal.Signature.Scan.Suffixes.{
  Suffix, Infix, Suffix_trans, skip-Suffix, bounded-Suffix, expect-Suffix, value-Suffix, span_front,
  Infix-Suffix,
}

-- what a slot holds, if it is filled: a part of the bytes, within the limit
abbrev pub Held : Text → ℕ → Option Text → Type 0
Held bytes maximum none = Unit
Held bytes maximum (some v) = Infix bytes v × (length v ≤ maximum)

record Found (bytes : Text) (f : Fields) : Type 0 where
  version : Held bytes (maximum_of envelope_version) f.version
  algorithm : Held bytes (maximum_of signature_algorithm) f.algorithm
  key : Held bytes (maximum_of key_id) f.key
  payload_span : Held bytes (maximum_of payload) f.payload_span
  signature_span : Held bytes (maximum_of signature) f.signature_span

Found-fill :
    (bytes v : Text) (field : EnvelopeField) (f : Fields)
    → Held bytes (maximum_of field) (some v)
    → Found bytes f
    → Found bytes (fill field v f)
Found-fill bytes v envelope_version f h g = record {
  version = h;
  algorithm = g.algorithm;
  key = g.key;
  payload_span = g.payload_span;
  signature_span = g.signature_span;
}
Found-fill bytes v signature_algorithm f h g = record {
  version = g.version;
  algorithm = h;
  key = g.key;
  payload_span = g.payload_span;
  signature_span = g.signature_span;
}
Found-fill bytes v key_id f h g = record {
  version = g.version;
  algorithm = g.algorithm;
  key = h;
  payload_span = g.payload_span;
  signature_span = g.signature_span;
}
Found-fill bytes v payload f h g = record {
  version = g.version;
  algorithm = g.algorithm;
  key = g.key;
  payload_span = h;
  signature_span = g.signature_span;
}
Found-fill bytes v signature f h g = record {
  version = g.version;
  algorithm = g.algorithm;
  key = g.key;
  payload_span = g.payload_span;
  signature_span = h;
}

field-Found :
    (bytes s : Text) (f : Fields)
    → Suffix bytes s
    → Found bytes f
    → Ensures (λ (r : Fields × Text). Found bytes r.0 × Suffix bytes r.1) (scan_field f s)
unfolding scan_field
field-Found bytes s f suffix found = Ensures-bind _ _ λ key_end quoted. Ensures-bind _ _ λ field _.
    Ensures-ensure _ _ _ λ _. Ensures-bind _ _ λ colon expected. Ensures-bind _ _ λ end valued.
      Ensures-ensure _ _ _ λ small.
        let start = skip_json_whitespace colon in
        let at_key = Suffix_trans bytes s key_end suffix ((bounded-Suffix s _).at key_end quoted) in
        let at_space =
          Suffix_trans bytes key_end (skip_json_whitespace key_end) at_key (skip-Suffix key_end) in
        let at_colon =
          Suffix_trans bytes (skip_json_whitespace key_end) colon at_space
            ((expect-Suffix b':' (skip_json_whitespace key_end)).at colon expected) in
        let at_start = Suffix_trans bytes colon start at_colon (skip-Suffix colon) in
        let value = value-Suffix start end valued in
        Ensures-ok _ (
          Found-fill bytes (span start end) field f
              (
                Infix-Suffix bytes start (span start end) at_start
                    ([], end, span_front start end value),
                ground (arith, small),
              )
              found,
          Suffix_trans bytes start end at_start value,
        )

after_value-Found :
    (bytes s : Text) (f : Fields) (continue : Fields → Text → Sig (Fields × Text))
    → Suffix bytes s
    → Found bytes f
    → ((t : Text)
        → Suffix bytes t
        → Ensures (λ (r : Fields × Text). Found bytes r.0) (continue f t))
    → Ensures (λ (r : Fields × Text). Found bytes r.0) (after_value continue f s)
unfolding after_value
after_value-Found bytes [] f continue suffix found k = record { at = λ r h. ground arith }
after_value-Found bytes (b ∷ s) f continue suffix found k = record {
  at = λ r h. elim (branch_ok (b == b',') _ _ h) [
    | inl (_, h₁) ↦
        let (_, h₂) = then-eq-ok (catalog_check _) _ h₁ in
        let at_s = Suffix_trans bytes (b ∷ s) s suffix (b ∷ [], refl) in
        (k (skip_json_whitespace s)
            (Suffix_trans bytes s (skip_json_whitespace s) at_s (skip-Suffix s))).at
          r h₂
    | inr (_, h₁) ↦
        let (_, h₂) = then-eq-ok (catalog_check _) _ h₁ in
        subst (λ (z : Fields × Text). Found bytes z.0) (ok-injective h₂) found
  ];
}

loop-Found :
    (bytes : Text) (fuel : ℕ) (f : Fields) (s : Text)
    → Suffix bytes s
    → Found bytes f
    → Ensures (λ (r : Fields × Text). Found bytes r.0) (fields_loop fuel f s)
unfolding fields_loop
loop-Found bytes zero f s suffix found = record { at = λ r h. ground arith }
loop-Found bytes (suc fuel) f s suffix found = record {
  at = λ r h.
      let t = skip_json_whitespace s in
      let at_t = Suffix_trans bytes s t suffix (skip-Suffix s) in
      elim (branch_ok (first_is (λ c. c == b'}') t) _ _ h) [
        | inl (_, e) ↦ subst (λ (z : Fields × Text). Found bytes z.0) (ok-injective e) found
        | inr (_, h₁) ↦
            let ((filled, end), scanned, h₂) = bind-eq-ok (scan_field f t) _ h₁ in
            let (found₁, at_end) = (field-Found bytes t f at_t found).at (filled, end) scanned in
            (after_value-Found bytes (skip_json_whitespace end) filled (fields_loop fuel)
                (Suffix_trans bytes end (skip_json_whitespace end) at_end (skip-Suffix end)) found₁
                (λ u at_u. loop-Found bytes fuel filled u at_u found₁)).at
              r h₂
      ];
}

-- what a scanned envelope is: each span is a part of the bytes, within its limit
pub record IsEnvelope (bytes : Text) (spans : SignedEnvelopeSpans) : Type 0 where
  pub bytes_bounded : length bytes ≤ max_signed_catalog_envelope_bytes
  pub version_found :
      Infix bytes spans.envelope_version
      × (length spans.envelope_version ≤ maximum_of envelope_version)
  pub algorithm_found :
      Infix bytes spans.signature_algorithm
      × (length spans.signature_algorithm ≤ maximum_of signature_algorithm)
  pub key_found : Infix bytes spans.key_id × (length spans.key_id ≤ maximum_of key_id)
  pub payload_found : Infix bytes spans.payload × (length spans.payload ≤ maximum_of payload)
  pub signature_found :
      Infix bytes spans.signature × (length spans.signature ≤ maximum_of signature)
  pub rest_bounded : length bytes ≤ length spans.payload + max_non_payload_envelope_bytes

Held-some :
    (bytes : Text) (n : ℕ) (o : Option Text) (v : Text)
    → Held bytes n o
    → ok_or invalid_signed_catalog o ≡ ok v
    → Infix bytes v × (length v ≤ n)
Held-some bytes n none v h e = ground arith
Held-some bytes n (some w) v h e = subst (λ z. Infix bytes z × (length z ≤ n)) (ok-injective e) h

-- The scanner returns, of an envelope of at most 8 MiB and 1 KiB, five parts of its bytes, each within
-- its own limit, and all but at most 1 KiB of the envelope is the payload.
pub scan_signed_envelope-IsEnvelope :
    (bytes : Text) → Ensures (IsEnvelope bytes) (scan_signed_envelope bytes)
unfolding scan_signed_envelope
scan_signed_envelope-IsEnvelope bytes = Ensures-ensure _ _ _ λ bounded.
    Ensures-bind _ _ λ inside opened. Ensures-bind _ _ λ (fields, rest) looped.
      Ensures-ensure _ _ _ λ _. Ensures-bind _ _ λ version hv. Ensures-bind _ _ λ algorithm ha.
        Ensures-bind _ _ λ key hk. Ensures-bind _ _ λ found hp. Ensures-bind _ _ λ signed hs.
          Ensures-ensure _ _ _ λ small.
            let at_open =
              Suffix_trans bytes (skip_json_whitespace bytes) inside (skip-Suffix bytes)
                ((expect-Suffix b'{' (skip_json_whitespace bytes)).at inside opened) in
            let empty : Found bytes no_fields = record {
              version = tt;
              algorithm = tt;
              key = tt;
              payload_span = tt;
              signature_span = tt;
            } in
            let all =
              (loop-Found bytes 6 no_fields inside at_open empty).at (fields, rest) looped in
            Ensures-ok _ (record {
              bytes_bounded = ground (arith, bounded);
              version_found = Held-some bytes _ fields.version version all.version hv;
              algorithm_found = Held-some bytes _ fields.algorithm algorithm all.algorithm ha;
              key_found = Held-some bytes _ fields.key key all.key hk;
              payload_found = Held-some bytes _ fields.payload_span found all.payload_span hp;
              signature_found =
                  Held-some bytes _ fields.signature_span signed all.signature_span hs;
              rest_bounded = ground (arith, small);
            })
