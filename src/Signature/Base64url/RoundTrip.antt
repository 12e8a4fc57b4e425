-- ===== src/Signature/Base64url/RoundTrip.antt =====
-- crates/catalog-core/src/signature.rs: the texts that decode to n bytes are the encodings of n bytes.
use mathlib.Core.Path.{subst}
use fluxsemble_runtime_catal.Base.{
  ℕ, ◌+◌, ◌*◌, ◌/◌, ◌%◌, ◌<◌, ◌≡◌, ◌==◌, ◌↔◌, refl, sym, false, some, [], ◌∷◌, Text, ok, ◌>>=◌,
  ensure, length, All, Ensures, Ensures-bind, Ensures-ok, Ensures-ensure, ==_iff, ok_or-eq-ok,
  arith,
}
use fluxsemble_runtime_catal.Strings.{contains_byte}
use fluxsemble_runtime_catal.Strings.Split.{text_eq_refl, text_eq_sound}
use fluxsemble_runtime_catal.Catalog.Require.{invalid_catalog}
use fluxsemble_runtime_catal.Catalog.Integrity.RoundTrip.{IsByte}
use fluxsemble_runtime_catal.Signature.Base64url.{
  base64url_value, base64url_letter, encode_base64url_no_pad, letter, decode_chunks,
  decode_base64url_no_pad,
}

pub letter_value : (v : ℕ) → v < 64 → base64url_value (base64url_letter v) ≡ some v
unfolding base64url_value base64url_letter
letter_value v h = ground arith

pub value-lt : (b v : ℕ) → base64url_value b ≡ some v → v < 64
unfolding base64url_value
value-lt b v h = ground arith

letter-lt : (b v : ℕ) → letter b ≡ ok v → v < 64
letter-lt b v h = value-lt b v (ok_or-eq-ok invalid_catalog (base64url_value b) h)

not_padding : (v : ℕ) → v < 64 → (base64url_letter v == b'=') ≡ false
unfolding base64url_letter
not_padding v h = ground arith

decode-encode_chunks :
    (bytes : Text) → All IsByte bytes → decode_chunks (encode_base64url_no_pad bytes) ≡ ok bytes
unfolding encode_base64url_no_pad decode_chunks ◌>>=◌
decode-encode_chunks [] k = refl
decode-encode_chunks (x ∷ []) k =
    let ex : x / 4 * 4 % 256 + x % 4 * 16 / 16 ≡ x = omega (arith, k.0) in
    rw (letter_value (x / 4) (omega (arith, k.0)), letter_value (x % 4 * 16) (omega arith), ex)
decode-encode_chunks (x ∷ y ∷ []) k =
    let ex : x / 4 * 4 % 256 + (x % 4 * 16 + y / 16) / 16 ≡ x = omega (arith, k.0, k.1.0) in
    let ey : (x % 4 * 16 + y / 16) * 16 % 256 + y % 16 * 4 / 4 ≡ y = omega (arith, k.1.0) in
    rw (
      letter_value (x / 4) (omega (arith, k.0)),
      letter_value (x % 4 * 16 + y / 16) (omega (arith, k.1.0)),
      letter_value (y % 16 * 4) (omega arith),
      ex,
      ey,
    )
decode-encode_chunks (x ∷ y ∷ z ∷ rest) k =
    let ex : x / 4 * 4 % 256 + (x % 4 * 16 + y / 16) / 16 ≡ x = omega (arith, k.0, k.1.0) in
    let ey : (x % 4 * 16 + y / 16) * 16 % 256 + (y % 16 * 4 + z / 64) / 4 ≡ y =
      omega (arith, k.1.0, k.1.1.0) in
    let ez : (y % 16 * 4 + z / 64) * 64 % 256 + z % 64 ≡ z = omega (arith, k.1.1.0) in
    rw (
      letter_value (x / 4) (omega (arith, k.0)),
      letter_value (x % 4 * 16 + y / 16) (omega (arith, k.1.0)),
      letter_value (y % 16 * 4 + z / 64) (omega (arith, k.1.1.0)),
      letter_value (z % 64) (omega arith),
      decode-encode_chunks rest k.1.1.1,
      ex,
      ey,
      ez,
    )

decoded_bytes : (letters : Text) → Ensures (All IsByte) (decode_chunks letters)
unfolding decode_chunks
decoded_bytes [] = Ensures-ok [] tt
decoded_bytes (e ∷ []) = record { at = λ b h. ground arith }
decoded_bytes (e ∷ f ∷ []) =
    Ensures-bind _ _
      λ a ha. Ensures-bind _ _ λ b hb. Ensures-ok _ (omega (arith, letter-lt f b hb), tt)
decoded_bytes (e ∷ f ∷ g ∷ []) = Ensures-bind _ _ λ a ha. Ensures-bind _ _ λ b hb.
    Ensures-bind _ _
      λ c hc. Ensures-ok _ (omega (arith, letter-lt f b hb), (omega (arith, letter-lt g c hc), tt))
decoded_bytes (e ∷ f ∷ g ∷ h ∷ rest) = Ensures-bind _ _ λ a ha. Ensures-bind _ _ λ b hb.
    Ensures-bind _ _ λ c hc. Ensures-bind _ _ λ d hd. Ensures-bind _ _ λ tail ht. Ensures-ok _ (
      omega (arith, letter-lt f b hb),
      (
        omega (arith, letter-lt g c hc),
        (omega (arith, letter-lt h d hd), (decoded_bytes rest).at tail ht),
      ),
    )

pub unpadded :
    (bytes : Text) → All IsByte bytes → contains_byte b'=' (encode_base64url_no_pad bytes) ≡ false
unfolding encode_base64url_no_pad
unpadded [] k = refl
unpadded (x ∷ []) k =
    rw (not_padding (x / 4) (omega (arith, k.0)), not_padding (x % 4 * 16) (omega arith)) refl
unpadded (x ∷ y ∷ []) k =
    rw
      (
        not_padding (x / 4) (omega (arith, k.0)),
        not_padding (x % 4 * 16 + y / 16) (omega (arith, k.1.0)),
        not_padding (y % 16 * 4) (omega arith),
      )
      refl
unpadded (x ∷ y ∷ z ∷ rest) k =
    rw
      (
        not_padding (x / 4) (omega (arith, k.0)),
        not_padding (x % 4 * 16 + y / 16) (omega (arith, k.1.0)),
        not_padding (y % 16 * 4 + z / 64) (omega (arith, k.1.1.0)),
        not_padding (z % 64) (omega arith),
      )
      (unpadded rest k.1.1.1)

pub length-encode :
    (bytes : Text) → length (encode_base64url_no_pad bytes) ≡ (length bytes * 8 + 5) / 6
unfolding encode_base64url_no_pad
length-encode [] = refl
length-encode (x ∷ []) = refl
length-encode (x ∷ y ∷ []) = refl
length-encode (x ∷ y ∷ z ∷ rest) = omega (arith, length-encode rest)

decoded_lem :
    (n : ℕ) (value : Text)
    → Ensures
        (λ (bytes : Text).
          (length bytes ≡ n) × (All IsByte bytes × (value ≡ encode_base64url_no_pad bytes)))
        (decode_base64url_no_pad n value)
unfolding decode_base64url_no_pad
decoded_lem n value = Ensures-ensure _ _ _ λ _. Ensures-bind _ _ λ bytes decoded.
    Ensures-ensure _ _ _ λ long. Ensures-ensure _ _ _ λ same. Ensures-ok bytes (
      (==_iff _ _).0 long,
      ((decoded_bytes value).at bytes decoded, sym (text_eq_sound _ value same)),
    )

-- A text decodes to bytes exactly when they are n bytes and the text is their encoding without padding.
pub base64url_iff :
    (n : ℕ) (value bytes : Text)
    → (decode_base64url_no_pad n value ≡ ok bytes)
      ↔ ((length bytes ≡ n) × (All IsByte bytes × (value ≡ encode_base64url_no_pad bytes)))
base64url_iff n value bytes = ((decoded_lem n value).at bytes, complete)
  where
    complete :
        (length bytes ≡ n) × (All IsByte bytes × (value ≡ encode_base64url_no_pad bytes))
        → decode_base64url_no_pad n value ≡ ok bytes
    complete (long, (small, same)) =
        subst (λ v. decode_base64url_no_pad n v ≡ ok bytes) (sym same)
          (subst (λ m. decode_base64url_no_pad m (encode_base64url_no_pad bytes) ≡ ok bytes) long
            (unfold decode_base64url_no_pad ensure ◌>>=◌ in
              rw
                (
                  unpadded bytes small,
                  (==_iff _ _).1 (length-encode bytes),
                  decode-encode_chunks bytes small,
                  (==_iff (length bytes) (length bytes)).1 refl,
                  text_eq_refl (encode_base64url_no_pad bytes),
                )
                refl))
