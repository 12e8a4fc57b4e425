-- ===== src/Catalog/Integrity/RoundTrip.antt =====
-- The integrity texts that are accepted are exactly the encodings of 64 bytes.
use mathlib.Core.Path.{subst}
use fluxsemble_runtime_catal.Base.{
  ℕ, zero, suc, ◌+◌, ◌*◌, ◌/◌, ◌%◌, ◌<◌, ◌≡◌, refl, sym, ◌↔◌, true, ◌++◌, Option, none, some, [],
  ◌∷◌, Text, codes, get_elem?, length, All, arith,
}
use fluxsemble_runtime_catal.Strings.Prefixes.{strip_prefix_sound}
use fluxsemble_runtime_catal.Strings.{strip_prefix}
use fluxsemble_runtime_catal.Strings.Split.{text_eq_refl, text_eq_sound}
use fluxsemble_runtime_catal.Catalog.Integrity.{
  ◌>>=◌, base64_value, base64_letter, decode_groups, encode_groups, decode_sha512_base64,
  encode_sha512_base64, is_canonical_sha512_integrity, canonical, canonical_payload,
}

abbrev pub IsByte : ℕ → Type 0
IsByte b = b < 256

-- a letter of the alphabet stands for its index
letter_value : (v : ℕ) → v < 64 → base64_value (base64_letter v) ≡ some v
unfolding base64_value base64_letter
letter_value v h = ground arith

value-lt : (b v : ℕ) → base64_value b ≡ some v → v < 64
unfolding base64_value
value-lt b v h = ground arith

decode-last :
    (x : ℕ)
    → x < 256
    → decode_groups 0 (base64_letter (x / 4) ∷ base64_letter (x % 4 * 16) ∷ b'=' ∷ b'=' ∷ [])
      ≡ some (x ∷ [])
unfolding decode_groups
decode-last x h =
    let e : x / 4 * 4 % 256 + x % 4 * 16 / 16 ≡ x = omega arith in
    rw (letter_value (x / 4) (omega arith), letter_value (x % 4 * 16) (omega arith), e)

decode-group :
    (n x y z : ℕ) (letters tail : Text)
    → x < 256
    → y < 256
    → z < 256
    → decode_groups n letters ≡ some tail
    → decode_groups (suc n) (
        base64_letter (x / 4)
        ∷ base64_letter (x % 4 * 16 + y / 16)
        ∷ base64_letter (y % 16 * 4 + z / 64)
        ∷ base64_letter (z % 64)
        ∷ letters)
      ≡ some (x ∷ y ∷ z ∷ tail)
unfolding decode_groups
decode-group n x y z letters tail hx hy hz e =
    let ex : x / 4 * 4 % 256 + (x % 4 * 16 + y / 16) / 16 ≡ x = omega arith in
    let ey : (x % 4 * 16 + y / 16) * 16 % 256 + (y % 16 * 4 + z / 64) / 4 ≡ y = omega arith in
    let ez : (y % 16 * 4 + z / 64) * 64 % 256 + z % 64 ≡ z = omega arith in
    rw (
      letter_value (x / 4) (omega arith),
      letter_value (x % 4 * 16 + y / 16) (omega arith),
      letter_value (y % 16 * 4 + z / 64) (omega arith),
      letter_value (z % 64) (omega arith),
      e,
      ex,
      ey,
      ez,
    )

decode-encode_groups :
    (groups : ℕ) (bytes : Text)
    → length bytes ≡ 3 * groups + 1
    → All IsByte bytes
    → decode_groups groups (encode_groups groups bytes) ≡ some bytes
unfolding encode_groups
decode-encode_groups zero [] h k = absurd (omega arith)
decode-encode_groups zero (x ∷ []) h k = decode-last x k.0
decode-encode_groups zero (x ∷ y ∷ rest) h k = absurd (omega arith)
decode-encode_groups (suc n) [] h k = absurd (omega arith)
decode-encode_groups (suc n) (x ∷ []) h k = absurd (omega arith)
decode-encode_groups (suc n) (x ∷ y ∷ []) h k = absurd (omega arith)
decode-encode_groups (suc n) (x ∷ y ∷ z ∷ rest) h k =
    decode-group n x y z (encode_groups n rest) rest k.0 k.1.0 k.1.1.0
      (decode-encode_groups n rest (omega arith) k.1.1.1)

-- where the two padding signs stand
padding :
    (groups : ℕ) (bytes : Text)
    → length bytes ≡ 3 * groups + 1
    → (length (encode_groups groups bytes) ≡ 4 * groups + 4)
      × (get_elem? (encode_groups groups bytes) (4 * groups + 2) ≡ some b'=')
      × (get_elem? (encode_groups groups bytes) (4 * groups + 3) ≡ some b'=')
unfolding encode_groups
padding zero [] h = absurd (omega arith)
padding zero (x ∷ rest) h = (refl, refl, refl)
padding (suc n) [] h = absurd (omega arith)
padding (suc n) (x ∷ []) h = absurd (omega arith)
padding (suc n) (x ∷ y ∷ []) h = absurd (omega arith)
padding (suc n) (x ∷ y ∷ z ∷ rest) h =
    let (len, first, second) = padding n rest (omega arith) in
    let i : 4 * suc n + 2 ≡ suc (suc (suc (suc (4 * n + 2)))) = omega arith in
    let j : 4 * suc n + 3 ≡ suc (suc (suc (suc (4 * n + 3)))) = omega arith in
    (omega arith, rw i first, rw j second)

-- Decoding the text of 64 bytes returns them.
pub decode-encode_sha512 :
    (bytes : Text)
    → length bytes ≡ 64
    → All IsByte bytes
    → decode_sha512_base64 (encode_sha512_base64 bytes) ≡ some bytes
unfolding decode_sha512_base64 encode_sha512_base64
decode-encode_sha512 bytes h k =
    let (len, first, second) = padding 21 bytes h in
    ground (arith, len, first, second, decode-encode_groups 21 bytes h k)

strip-prefix : (s : Text) → strip_prefix (codes "sha512-") (codes "sha512-" ++ s) ≡ some s
unfolding strip_prefix
strip-prefix s = refl

bind-eq-some {ℓ κ} :
    {A : Type ℓ} {B : Type κ} (m : Option A) (f : A → Option B) {b : B}
    → (m >>= f) ≡ some b
    → (a : A) × (m ≡ some a) × (f a ≡ some b)
bind-eq-some none f h = ground arith
bind-eq-some (some a) f h = (a, refl, h)

some_inj {ℓ} : {A : Type ℓ} {a b : A} → some a ≡ some b → a ≡ b
some_inj h = cc

abbrev AreBytes : ℕ → Text → Type 0
AreBytes n bytes = (length bytes ≡ n) × All IsByte bytes

decoded-last :
    (e f : ℕ) (rest bytes : Text) → decode_groups 0 (e ∷ f ∷ rest) ≡ some bytes → AreBytes 1 bytes
unfolding decode_groups
decoded-last e f rest bytes h =
    let (a, ha, h') = bind-eq-some (base64_value e) _ h in
    let (b, hb, h'') = bind-eq-some (base64_value f) _ h' in
    subst (AreBytes 1) (some_inj h'') (refl, (omega (arith, value-lt f b hb), tt))

decoded-group :
    (n e f g i : ℕ) (rest bytes : Text)
    → ((tail : Text) → decode_groups n rest ≡ some tail → AreBytes (3 * n + 1) tail)
    → decode_groups (suc n) (e ∷ f ∷ g ∷ i ∷ rest) ≡ some bytes
    → AreBytes (3 * suc n + 1) bytes
unfolding decode_groups
decoded-group n e f g i rest bytes later h =
    let (a, ha, h₁) = bind-eq-some (base64_value e) _ h in
    let (b, hb, h₂) = bind-eq-some (base64_value f) _ h₁ in
    let (c, hc, h₃) = bind-eq-some (base64_value g) _ h₂ in
    let (d, hd, h₄) = bind-eq-some (base64_value i) _ h₃ in
    let (tail, ht, h₅) = bind-eq-some (decode_groups n rest) _ h₄ in
    let (len, bound) = later tail ht in
    subst (AreBytes (3 * suc n + 1)) (some_inj h₅) (
      omega arith,
      (
        omega (arith, value-lt f b hb),
        (omega (arith, value-lt g c hc), (omega (arith, value-lt i d hd), bound)),
      ),
    )

decoded_bytes :
    (groups : ℕ) (letters bytes : Text)
    → decode_groups groups letters ≡ some bytes
    → AreBytes (3 * groups + 1) bytes
decoded_bytes zero [] bytes h = unfold decode_groups in ground arith
decoded_bytes zero (e ∷ []) bytes h = unfold decode_groups in ground arith
decoded_bytes zero (e ∷ f ∷ rest) bytes h = decoded-last e f rest bytes h
decoded_bytes (suc n) [] bytes h = unfold decode_groups in ground arith
decoded_bytes (suc n) (e ∷ []) bytes h = unfold decode_groups in ground arith
decoded_bytes (suc n) (e ∷ f ∷ []) bytes h = unfold decode_groups in ground arith
decoded_bytes (suc n) (e ∷ f ∷ g ∷ []) bytes h = unfold decode_groups in ground arith
decoded_bytes (suc n) (e ∷ f ∷ g ∷ i ∷ rest) bytes h =
    decoded-group n e f g i rest bytes (decoded_bytes n rest) h

decoded-AreBytes :
    (payload bytes : Text) → decode_sha512_base64 payload ≡ some bytes → AreBytes 64 bytes
unfolding decode_sha512_base64
decoded-AreBytes payload bytes h = decoded_bytes 21 payload bytes (ground arith)

-- An integrity value is accepted exactly when it is "sha512-" and the encoding of 64 bytes.
pub integrity_iff :
    (value : Text)
    → (is_canonical_sha512_integrity value ≡ true) ↔ (
        (bytes : Text) × (length bytes ≡ 64)
        × All IsByte bytes
        × (value ≡ codes "sha512-" ++ encode_sha512_base64 bytes))
integrity_iff value = (sound, complete)
  where
    accepted :
        (stripped : Option Text)
        → strip_prefix (codes "sha512-") value ≡ stripped
        → canonical_payload stripped ≡ true
        → (payload : Text) × (bytes : Text) × (value ≡ codes "sha512-" ++ payload)
          × (decode_sha512_base64 payload ≡ some bytes)
          × (encode_sha512_base64 bytes ≡ payload)
    accepted none e h = ground arith
    accepted (some payload) e h = inner (decode_sha512_base64 payload) refl h
      where
        inner :
            (decoded : Option Text)
            → decode_sha512_base64 payload ≡ decoded
            → canonical payload decoded ≡ true
            → (p : Text) × (bytes : Text) × (value ≡ codes "sha512-" ++ p)
              × (decode_sha512_base64 p ≡ some bytes)
              × (encode_sha512_base64 bytes ≡ p)
        inner none d k = ground arith
        inner (some bytes) d k = (
          payload,
          bytes,
          strip_prefix_sound (codes "sha512-") value payload e,
          d,
          text_eq_sound (encode_sha512_base64 bytes) payload k,
        )

    sound :
        is_canonical_sha512_integrity value ≡ true
        → (bytes : Text) × (length bytes ≡ 64)
          × All IsByte bytes
          × (value ≡ codes "sha512-" ++ encode_sha512_base64 bytes)
    sound h =
        let (payload, bytes, v, d, e) =
          accepted (strip_prefix (codes "sha512-") value) refl
            (unfold is_canonical_sha512_integrity in h) in
        let (len, small) = decoded-AreBytes payload bytes d in (bytes, len, small, rw e v)

    complete :
        ((bytes : Text) × (length bytes ≡ 64)
          × All IsByte bytes
          × (value ≡ codes "sha512-" ++ encode_sha512_base64 bytes))
        → is_canonical_sha512_integrity value ≡ true
    complete (bytes, len, small, e) =
        subst (λ t. is_canonical_sha512_integrity t ≡ true) (sym e)
          (unfold is_canonical_sha512_integrity in
            rw (strip-prefix (encode_sha512_base64 bytes), decode-encode_sha512 bytes len small)
              (text_eq_refl (encode_sha512_base64 bytes)))
