-- ===== src/Base/Members.antt =====
-- Members of lists: finding them again, and counting them.
use mathlib.Core.Path.{◌≡◌, refl, sym, ap, ◌∙◌, subst}
use mathlib.Core.Logic.{◌≢◌, ◌⊎◌, inl, inr}
use mathlib.Core.List.{List, [], ◌∷◌, map}
use Prim.Native.Nat.{suc, ◌≤◌}
use native.Mathlib.Omega.{arith}
use fluxsemble_runtime_catal.Base.Results.{Result, ok, ok-injective}
use fluxsemble_runtime_catal.Base.Lists.{
  All, Pairs, Distinct, Among, length, traverse, push_ok-eq-ok,
}

module _ {A : Type 0} where
  pub All-Among {ℓ} : (P : A → Type ℓ) (xs : List A) (a : A) → All P xs → Among a xs → P a
  All-Among P [] a h m = absurd m
  All-Among P (x ∷ xs) a h (inl e) = subst P e h.0
  All-Among P (x ∷ xs) a h (inr m) = All-Among P xs a h.1 m

  pub All-of_Among {ℓ} : (P : A → Type ℓ) (xs : List A) → ((a : A) → Among a xs → P a) → All P xs
  All-of_Among P [] h = tt
  All-of_Among P (x ∷ xs) h = (h x (inl refl), All-of_Among P xs (λ a m. h a (inr m)))

  -- the list without one of its members
  remove : (x : A) (ys : List A) → Among x ys → List A
  remove x [] m = absurd m
  remove x (y ∷ ys) (inl e) = ys
  remove x (y ∷ ys) (inr m) = y ∷ remove x ys m

  length-remove : (x : A) (ys : List A) (m : Among x ys) → length ys ≡ suc (length (remove x ys m))
  unfolding remove
  length-remove x [] m = absurd m
  length-remove x (y ∷ ys) (inl e) = refl
  length-remove x (y ∷ ys) (inr m) = ap suc (length-remove x ys m)

  Among-remove :
      (x a : A) (ys : List A) (m : Among x ys) → Among a ys → (x ≡ a) ⊎ Among a (remove x ys m)
  unfolding remove
  Among-remove x a [] m k = absurd m
  Among-remove x a (y ∷ ys) (inl e) (inl f) = inl (sym e ∙ f)
  Among-remove x a (y ∷ ys) (inl e) (inr k) = inr k
  Among-remove x a (y ∷ ys) (inr m) (inl f) = inr (inl f)
  Among-remove x a (y ∷ ys) (inr m) (inr k) = elim (Among-remove x a ys m k) [
    | inl e ↦ inl e
    | inr n ↦ inr (inr n)
  ]

  -- Distinct members of a list that are as many as the list are all of it.
  pub Among_all :
      (xs ys : List A)
      → Distinct xs
      → ((a : A) → Among a xs → Among a ys)
      → length ys ≤ length xs
      → (a : A) → Among a ys
      → Among a xs
  Among_all [] [] d h le a m = absurd m
  Among_all [] (y ∷ ys) d h le a m = absurd (omega arith)
  Among_all (x ∷ xs) ys d h le a m =
      let here = h x (inl refl) in
      let rest = remove x ys here in
      elim (Among-remove x a ys here m) [
        | inl e ↦ inl e
        | inr n ↦ inr (
            Among_all xs rest d.1
              (λ b k. elim (Among-remove x b ys here (h b (inr k))) [
                | inl e ↦ absurd (All-Among (λ z. x ≢ z) xs b d.0 k e)
                | inr j ↦ j
              ])
              (omega (arith, length-remove x ys here)) a n)
      ]

module _ {A B : Type 0} (f : A → B) where
  pub Among-map : (xs : List A) (a : A) → Among a xs → Among (f a) (map f xs)
  Among-map [] a m = absurd m
  Among-map (x ∷ xs) a (inl e) = inl (ap f e)
  Among-map (x ∷ xs) a (inr m) = inr (Among-map xs a m)

  pub Among-of_map : (xs : List A) (b : B) → Among b (map f xs) → (a : A) × Among a xs × (f a ≡ b)
  Among-of_map [] b m = absurd m
  Among-of_map (x ∷ xs) b (inl e) = (x, inl refl, e)
  Among-of_map (x ∷ xs) b (inr m) = let (a, n, e) = Among-of_map xs b m in (a, inr n, e)

  pub length-map : (xs : List A) → length (map f xs) ≡ length xs
  length-map [] = refl
  length-map (x ∷ xs) = ap suc (length-map xs)

  -- Where the images are distinct, a member is determined by its image.
  pub Among_unique :
      (xs : List A)
      → Pairs (λ a b. f a ≢ f b) xs
      → (a b : A) → Among a xs
      → Among b xs
      → f a ≡ f b
      → a ≡ b
  Among_unique [] d a b m n e = absurd m
  Among_unique (x ∷ xs) d a b (inl p) (inl q) e = sym p ∙ q
  Among_unique (x ∷ xs) d a b (inl p) (inr n) e =
      absurd (All-Among (λ z. f x ≢ f z) xs b d.0 n (ap f p ∙ e))
  Among_unique (x ∷ xs) d a b (inr m) (inl q) e =
      absurd (All-Among (λ z. f x ≢ f z) xs a d.0 m (ap f q ∙ sym e))
  Among_unique (x ∷ xs) d a b (inr m) (inr n) e = Among_unique xs d.1 a b m n e

module _ {ℓ κ} {E : Type 0} {A : Type ℓ} {B : Type κ} where
  pub length-traverse :
      (f : A → Result E B) (xs : List A) (ys : List B)
      → traverse f xs ≡ ok ys
      → length ys ≡ length xs
  length-traverse f [] ys h = ap length (sym (ok-injective h))
  length-traverse f (x ∷ xs) ys h =
      let (z, zs, _, hzs, e) = push_ok-eq-ok (f x) (traverse f xs) h in
      ap length e ∙ ap suc (length-traverse f xs zs hzs)
