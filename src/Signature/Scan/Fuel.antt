-- ===== src/Signature/Scan/Fuel.antt =====
-- crates/catalog-core/src/signature.rs: that the fuel of the loops is enough.
use fluxsemble_runtime_catal.Base.{
  ℕ, zero, suc, ◌+◌, ◌<◌, ◌≤◌, ◌≡◌, refl, Bool, true, false, not, Option, some, none, List, [], ◌∷◌,
  ok, err, ◌>>=◌, length, ◌==◌, Text, Ensures, Ensures-bind, Ensures-ensure, Ensures-ok, arith,
}
use fluxsemble_runtime_catal.Strings.{is_empty, first_is}
use fluxsemble_runtime_catal.Signature.Errors.{Sig, catalog_check}
use fluxsemble_runtime_catal.Signature.Scan.{
  close_one, compound_loop, is_opener, is_closer, closer_of, scan_json_string,
  max_json_nesting_depth, EnvelopeField, envelope_version, signature_algorithm, key_id, payload,
  signature, Fields, no_fields, slot, fill, is_none, scan_field, after_value, fields_loop,
  skip_json_whitespace,
}
use fluxsemble_runtime_catal.Signature.Scan.Literals.{scan_json_string-shorter}

module _ {ℓ} {A : Type ℓ} where
  branch_cong :
      (c : Bool) {x x' y y' : Sig A}
      → x ≡ x'
      → y ≡ y'
      → ◌≡◌ {A = Sig A} (elim c [ true ↦ x | false ↦ y ]) (elim c [ true ↦ x' | false ↦ y' ])
  branch_cong true p q = p
  branch_cong false p q = q

module _ {ℓ κ} {A : Type ℓ} {B : Type κ} where
  bind_cong :
      (m : Sig A) (f g : A → Sig B) → ((a : A) → m ≡ ok a → f a ≡ g a) → (m >>= f) ≡ (m >>= g)
  unfolding ◌>>=◌
  bind_cong (ok a) f g k = k a refl
  bind_cong (err e) f g k = refl

close_one_cong :
    (f g : List ℕ → Text → Sig Text) (b : ℕ) (closers : List ℕ) (s : Text)
    → ((c : List ℕ) → f c s ≡ g c s)
    → close_one f b closers s ≡ close_one g b closers s
close_one_cong f g b [] s k = refl
close_one_cong f g b (c ∷ closers) s k =
    bind_cong (catalog_check (c == b)) _ _ λ u _. branch_cong (is_empty closers) refl (k closers)

-- The loop over a compound returns the same with every fuel that is at least the length of its input.
pub compound_loop_enough :
    (m n : ℕ) (closers : List ℕ) (s : Text)
    → length s ≤ m
    → length s ≤ n
    → compound_loop m closers s ≡ compound_loop n closers s
unfolding compound_loop
compound_loop_enough zero zero closers s h k = refl
compound_loop_enough zero (suc n) closers [] h k = refl
compound_loop_enough zero (suc n) closers (b ∷ s) h k = absurd (omega (arith, h))
compound_loop_enough (suc m) zero closers [] h k = refl
compound_loop_enough (suc m) zero closers (b ∷ s) h k = absurd (omega (arith, k))
compound_loop_enough (suc m) (suc n) closers [] h k = refl
compound_loop_enough (suc m) (suc n) closers (b ∷ s) h k =
    let later : (c : List ℕ) → compound_loop m c s ≡ compound_loop n c s =
      λ c. compound_loop_enough m n c s (omega (arith, h)) (omega (arith, k)) in
    branch_cong (b == b'"')
      (bind_cong (scan_json_string (b ∷ s)) _ _ λ end found.
        let shorter = scan_json_string-shorter (b ∷ s) end found in
        compound_loop_enough m n closers end (omega (arith, h, shorter))
          (omega (arith, k, shorter)))
      (branch_cong (is_opener b)
        (bind_cong (catalog_check (not (length closers == max_json_nesting_depth))) _ _
          λ u _. later (closer_of b ∷ closers))
        (branch_cong (is_closer b)
          (close_one_cong (compound_loop m) (compound_loop n) b closers s later) (later closers)))

-- the slots that are not filled
abbrev pub vacancy : Option Text → ℕ
vacancy none = 1
vacancy (some s) = 0

abbrev pub vacant : Fields → ℕ
vacant f =
    vacancy f.version
    + vacancy f.algorithm
    + vacancy f.key
    + vacancy f.payload_span
    + vacancy f.signature_span

some_none : (o : Option Text) → is_none o ≡ true → vacancy o ≡ 1
some_none none h = refl
some_none (some s) h = ground arith

vacant-fill :
    (field : EnvelopeField) (s : Text) (f : Fields)
    → is_none (slot field f) ≡ true
    → suc (vacant (fill field s f)) ≡ vacant f
vacant-fill envelope_version s f h = omega (arith, some_none f.version h)
vacant-fill signature_algorithm s f h = omega (arith, some_none f.algorithm h)
vacant-fill key_id s f h = omega (arith, some_none f.key h)
vacant-fill payload s f h = omega (arith, some_none f.payload_span h)
vacant-fill signature s f h = omega (arith, some_none f.signature_span h)

vacant-scan_field :
    (f : Fields) (s : Text)
    → Ensures (λ (r : Fields × Text). suc (vacant (r.0)) ≡ vacant f) (scan_field f s)
unfolding scan_field
vacant-scan_field f s = Ensures-bind _ _ λ key_end _. Ensures-bind _ _ λ field _.
    Ensures-ensure _ _ _ λ free. Ensures-bind _ _ λ colon _.
      Ensures-bind _ _
        λ end _. Ensures-ensure _ _ _ λ small. Ensures-ok _ (vacant-fill field _ f free)

after_value_cong :
    (f g : Fields → Text → Sig (Fields × Text)) (fields : Fields) (s : Text)
    → ((t : Text) → f fields t ≡ g fields t)
    → after_value f fields s ≡ after_value g fields s
unfolding after_value
after_value_cong f g fields [] k = refl
after_value_cong f g fields (b ∷ s) k =
    branch_cong (b == b',') (bind_cong (catalog_check _) _ _ λ u _. k (skip_json_whitespace s)) refl

-- The loop over the fields returns the same with every fuel above the number of the fields that are not found yet.
pub fields_loop_enough :
    (m n : ℕ) (fields : Fields) (s : Text)
    → vacant fields < m
    → vacant fields < n
    → fields_loop m fields s ≡ fields_loop n fields s
unfolding fields_loop
fields_loop_enough zero n fields s h k = absurd (omega (arith, h))
fields_loop_enough (suc m) zero fields s h k = absurd (omega (arith, k))
fields_loop_enough (suc m) (suc n) fields s h k =
    branch_cong (first_is (λ c. c == b'}') (skip_json_whitespace s)) refl (
      bind_cong (scan_field fields (skip_json_whitespace s)) _ _ λ (filled, end) found.
        let fewer = (vacant-scan_field fields (skip_json_whitespace s)).at (filled, end) found in
        after_value_cong (fields_loop m) (fields_loop n) filled (skip_json_whitespace end)
          λ t. fields_loop_enough m n filled t (omega (arith, h, fewer)) (omega (arith, k, fewer)))

-- More fuel than 6 changes nothing in the search for the fields of an envelope.
pub fields_loop-six :
    (n : ℕ) (s : Text) → 6 ≤ n → fields_loop n no_fields s ≡ fields_loop 6 no_fields s
fields_loop-six n s h = fields_loop_enough n 6 no_fields s (omega (arith, h)) (omega arith)
