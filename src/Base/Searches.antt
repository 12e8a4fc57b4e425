-- ===== src/Base/Searches.antt =====
-- What searching, counting and traversing a list say of its members.
use mathlib.Core.Path.{◌≡◌, refl, sym, ap, ◌∙◌, subst}
use mathlib.Core.Logic.{inl, inr}
use mathlib.Core.Bool.{Bool, true, false}
use mathlib.Core.Option.{some}
use mathlib.Core.List.{List, [], ◌∷◌, map}
use native.Mathlib.Omega.{arith}
use fluxsemble_runtime_catal.Base.Tests.{Bool-cases}
use fluxsemble_runtime_catal.Base.Results.{Result, ok, ok-injective}
use fluxsemble_runtime_catal.Base.Lists.{All, Among, find, count_if, traverse, push_ok-eq-ok}

module _ {ℓ κ} {E : Type 0} {A : Type ℓ} {B : Type κ} where
  -- what each input gives
  pub traverse-inputs :
      (f : A → Result E B) (xs : List A) {ys : List B}
      → traverse f xs ≡ ok ys
      → All (λ x. (y : B) × (f x ≡ ok y)) xs
  traverse-inputs f [] h = tt
  traverse-inputs f (x ∷ xs) h =
      let (y, ys, hy, hys, e) = push_ok-eq-ok (f x) (traverse f xs) h in
      ((y, hy), traverse-inputs f xs hys)

  -- what holds of the inputs, carried to the outputs
  pub traverse-All_from {μ ν} :
      (P : A → Type μ) (Q : B → Type ν) (f : A → Result E B)
      → ((a : A) (b : B) → P a → f a ≡ ok b → Q b)
      → (xs : List A) {ys : List B} → All P xs
      → traverse f xs ≡ ok ys
      → All Q ys
  traverse-All_from P Q f keep [] k h = subst (All Q) (ok-injective h) tt
  traverse-All_from P Q f keep (x ∷ xs) k h =
      let (y, ys, hy, hys, e) = push_ok-eq-ok (f x) (traverse f xs) h in
      subst (All Q) (sym e) (keep x y k.0 hy, traverse-All_from P Q f keep xs k.1 hys)

  -- a field that the traversal keeps
  pub map-traverse {μ} :
      {C : Type μ} (p : A → C) (q : B → C) (f : A → Result E B)
      → ((a : A) (b : B) → f a ≡ ok b → q b ≡ p a)
      → (xs : List A) (ys : List B) → traverse f xs ≡ ok ys
      → map q ys ≡ map p xs
  map-traverse p q f keep [] ys h = ap (map q) (sym (ok-injective h))
  map-traverse {C = C} p q f keep (x ∷ xs) ys h =
      let (z, zs, hz, hzs, e) = push_ok-eq-ok (f x) (traverse f xs) h in
      ap (map q) e ∙ (λ i. keep x z hz i ∷ map-traverse p q f keep xs zs hzs i)

module _ {A B : Type 0} (p : B → Bool) (f : A → B) where
  pub count_if-map : (xs : List A) → count_if p (map f xs) ≡ count_if (λ x. p (f x)) xs
  count_if-map [] = refl
  count_if-map (x ∷ xs) = ground (arith, count_if-map xs)

module _ {A : Type 0} (p : A → Bool) where
  pub count_if-none : (xs : List A) → count_if p xs ≡ 0 → (a : A) → Among a xs → p a ≡ false
  count_if-none [] h a m = absurd m
  count_if-none (x ∷ xs) h a m = elim (Bool-cases (p x)) [
    | inl e ↦ absurd (ground (arith, e, h))
    | inr e ↦ elim m [
      | inl q ↦ subst (λ z. p z ≡ false) q e
      | inr n ↦ count_if-none xs (ground (arith, e, h)) a n
    ]
  ]

  -- a search finds the only member that passes
  pub find-only :
      (xs : List A)
      → count_if p xs ≡ 1
      → (a : A) × (find p xs ≡ some a) × ((b : A) → Among b xs → p b ≡ true → b ≡ a)
  find-only [] h = absurd (ground (arith, h))
  find-only (x ∷ xs) h = elim (Bool-cases (p x)) [
    | inl e ↦ (
      x,
      ground (arith, e),
      λ b m q. elim m [
        | inl r ↦ sym r
        | inr n ↦ absurd (ground (arith, q, count_if-none xs (ground (arith, e, h)) b n))
      ],
    )
    | inr e ↦
        let (a, found, only) = find-only xs (ground (arith, e, h)) in
        (
          a,
          ground (arith, e, found),
          λ b m q. elim m [
            | inl r ↦ absurd (ground (arith, e, subst (λ z. p z ≡ true) (sym r) q))
            | inr n ↦ only b n q
          ],
        )
  ]

  -- a search succeeds where a member passes
  pub find-some : (xs : List A) (a : A) → Among a xs → p a ≡ true → (b : A) × (find p xs ≡ some b)
  find-some [] a m h = absurd m
  find-some (x ∷ xs) a m h = elim (Bool-cases (p x)) [
    | inl e ↦ (x, ground (arith, e))
    | inr e ↦ elim m [
      | inl r ↦ absurd (ground (arith, e, subst (λ z. p z ≡ true) (sym r) h))
      | inr n ↦ let (b, found) = find-some xs a n h in (b, ground (arith, e, found))
    ]
  ]
