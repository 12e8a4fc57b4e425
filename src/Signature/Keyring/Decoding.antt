-- ===== src/Signature/Keyring/Decoding.antt =====
-- crates/catalog-core/build.rs: the decoder of the build against the decoder of the library.
use mathlib.Core.Path.{subst}
use fluxsemble_runtime_catal.Base.{
  ℕ, ◌+◌, ◌*◌, ◌/◌, ◌%◌, ◌<◌, ◌≡◌, ◌≢◌, ◌↔◌, ◌==◌, refl, sym, ap, ◌∙◌, true, some, [], ◌∷◌, Text,
  ok, ◌>>=◌, ensure, length, All, Ensures, Ensures-bind, Ensures-ok, Ensures-ensure, ==_iff,
  and_parts, ok_or-eq-ok, arith,
}
use fluxsemble_runtime_catal.Catalog.Integrity.RoundTrip.{IsByte}
use fluxsemble_runtime_catal.Signature.Base64url.{
  base64url_value, base64url_letter, encode_base64url_no_pad, decode_base64url_no_pad,
}
use fluxsemble_runtime_catal.Signature.Base64url.RoundTrip.{
  letter_value, value-lt, unpadded, length-encode, base64url_iff,
}
use fluxsemble_runtime_catal.Signature.Keyring.{
  build_panics, build_letter, build_chunks, decode_base64url_32,
}

letter-value : (b v : ℕ) → base64url_value b ≡ some v → base64url_letter v ≡ b
unfolding base64url_value base64url_letter
letter-value b v h = ground arith

-- what a letter that decodes says of its value
build_letter_lem : (e a : ℕ) → build_letter e ≡ ok a → (a < 64) × (base64url_letter a ≡ e)
build_letter_lem e a h =
    let v = ok_or-eq-ok build_panics (base64url_value e) h in (value-lt e a v, letter-value e a v)

-- the bytes are bytes, and their encoding is the text
abbrev pub Encodes : Text → Text → Type 0
Encodes letters bytes = All IsByte bytes × (encode_base64url_no_pad bytes ≡ letters)

chunks_sound :
    (letters : Text) → length letters % 4 ≢ 2 → Ensures (Encodes letters) (build_chunks letters)
unfolding build_chunks encode_base64url_no_pad
chunks_sound [] n = Ensures-ok [] (tt, refl)
chunks_sound (e ∷ []) n = record { at = λ b h. ground arith }
chunks_sound (e ∷ f ∷ []) n = absurd (n refl)
chunks_sound (e ∷ f ∷ g ∷ []) n = Ensures-bind _ _ λ a ha. Ensures-bind _ _ λ b hb.
    Ensures-bind _ _ λ c hc. Ensures-ensure _ _ _ λ even.
      let (la, ea) = build_letter_lem e a ha in
      let (lb, eb) = build_letter_lem f b hb in
      let (lc, ec) = build_letter_lem g c hc in
      let four : c % 4 ≡ 0 = (==_iff _ _).0 even in
      let x : (a * 4 % 256 + b / 16) / 4 ≡ a = omega arith in
      let y : (a * 4 % 256 + b / 16) % 4 * 16 + (b * 16 % 256 + c / 4) / 16 ≡ b = omega arith in
      let z : (b * 16 % 256 + c / 4) % 16 * 4 ≡ c = omega arith in
      Ensures-ok _ ((omega arith, (omega arith, tt)), rw (x, y, z, ea, eb, ec) refl)
chunks_sound (e ∷ f ∷ g ∷ h ∷ rest) n = Ensures-bind _ _ λ a ha. Ensures-bind _ _ λ b hb.
    Ensures-bind _ _ λ c hc. Ensures-bind _ _ λ d hd. Ensures-bind _ _ λ tail ht.
      let (la, ea) = build_letter_lem e a ha in
      let (lb, eb) = build_letter_lem f b hb in
      let (lc, ec) = build_letter_lem g c hc in
      let (ld, ed) = build_letter_lem h d hd in
      let (small, same) = (chunks_sound rest (λ two. n (omega (arith, two)))).at tail ht in
      let x : (a * 4 % 256 + b / 16) / 4 ≡ a = omega arith in
      let y : (a * 4 % 256 + b / 16) % 4 * 16 + (b * 16 % 256 + c / 4) / 16 ≡ b = omega arith in
      let z : (b * 16 % 256 + c / 4) % 16 * 4 + (c * 64 % 256 + d) / 64 ≡ c = omega arith in
      let w : (c * 64 % 256 + d) % 64 ≡ d = omega arith in
      Ensures-ok _ (
        (omega arith, (omega arith, (omega arith, small))),
        rw (x, y, z, w, ea, eb, ec, ed, same) refl,
      )

no_stray : (y : ℕ) → (y % 16 * 4 % 4 == 0) ≡ true
no_stray y = (==_iff _ _).1 (omega arith)

chunks_complete :
    (bytes : Text) → All IsByte bytes → build_chunks (encode_base64url_no_pad bytes) ≡ ok bytes
unfolding encode_base64url_no_pad build_chunks ◌>>=◌ ensure
chunks_complete [] k = refl
chunks_complete (x ∷ []) k =
    let ex : x / 4 * 4 % 256 + x % 4 * 16 / 16 ≡ x = omega (arith, k.0) in
    rw (letter_value (x / 4) (omega (arith, k.0)), letter_value (x % 4 * 16) (omega arith), ex)
chunks_complete (x ∷ y ∷ []) k =
    let ex : x / 4 * 4 % 256 + (x % 4 * 16 + y / 16) / 16 ≡ x = omega (arith, k.0, k.1.0) in
    let ey : (x % 4 * 16 + y / 16) * 16 % 256 + y % 16 * 4 / 4 ≡ y = omega (arith, k.1.0) in
    rw (
      letter_value (x / 4) (omega (arith, k.0)),
      letter_value (x % 4 * 16 + y / 16) (omega (arith, k.1.0)),
      letter_value (y % 16 * 4) (omega arith),
      no_stray y,
      ex,
      ey,
    )
chunks_complete (x ∷ y ∷ z ∷ rest) k =
    let ex : x / 4 * 4 % 256 + (x % 4 * 16 + y / 16) / 16 ≡ x = omega (arith, k.0, k.1.0) in
    let ey : (x % 4 * 16 + y / 16) * 16 % 256 + (y % 16 * 4 + z / 64) / 4 ≡ y =
      omega (arith, k.1.0, k.1.1.0) in
    let ez : (y % 16 * 4 + z / 64) * 64 % 256 + z % 64 ≡ z = omega (arith, k.1.1.0) in
    rw (
      letter_value (x / 4) (omega (arith, k.0)),
      letter_value (x % 4 * 16 + y / 16) (omega (arith, k.1.0)),
      letter_value (y % 16 * 4 + z / 64) (omega (arith, k.1.1.0)),
      letter_value (z % 64) (omega arith),
      chunks_complete rest k.1.1.1,
      ex,
      ey,
      ez,
    )

pub decode_32_lem :
    (value : Text)
    → Ensures
        (λ (bytes : Text). (length bytes ≡ 32) × Encodes value bytes)
        (decode_base64url_32 value)
unfolding decode_base64url_32
decode_32_lem value = Ensures-ensure _ _ _ λ shape. Ensures-bind _ _ λ bytes decoded.
    Ensures-ensure _ _ _ λ long.
      let (l, _) = and_parts (length value == 43) _ shape in
      let n : length value ≡ 43 = (==_iff _ _).0 l in
      Ensures-ok _
        ((==_iff _ _).0 long, (chunks_sound value (λ two. omega (arith, n, two))).at bytes decoded)

-- The decoder of the build, which looks for stray bits, and the decoder of the library, which encodes
-- again and compares, accept the same public keys and read the same bytes from them.
pub decoders_agree :
    (value bytes : Text)
    → (decode_base64url_32 value ≡ ok bytes) ↔ (decode_base64url_no_pad 32 value ≡ ok bytes)
decoders_agree value bytes = (forward, backward)
  where
    forward : decode_base64url_32 value ≡ ok bytes → decode_base64url_no_pad 32 value ≡ ok bytes
    forward h =
        let (long, (small, same)) = (decode_32_lem value).at bytes h in
        (base64url_iff 32 value bytes).1 (long, (small, sym same))

    backward : decode_base64url_no_pad 32 value ≡ ok bytes → decode_base64url_32 value ≡ ok bytes
    backward h =
        let (long, (small, same)) = (base64url_iff 32 value bytes).0 h in
        let wide : length (encode_base64url_no_pad bytes) ≡ 43 =
          length-encode bytes ∙ ap (λ n. (n * 8 + 5) / 6) long in
        subst (λ v. decode_base64url_32 v ≡ ok bytes) (sym same)
          (unfold decode_base64url_32 ensure ◌>>=◌ in
            rw
              (
                unpadded bytes small,
                (==_iff _ _).1 wide,
                chunks_complete bytes small,
                (==_iff _ _).1 long,
              )
              refl)
