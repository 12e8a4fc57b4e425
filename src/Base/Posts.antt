-- ===== src/Base/Posts.antt =====
-- What holds of the value that a fallible computation returns, one rule for each way to build it.
use mathlib.Core.Path.{◌≡◌, refl, subst}
use mathlib.Core.Bool.{Bool, true, false}
use mathlib.Core.List.{List, [], ◌∷◌}
use native.Mathlib.Omega.{arith}
use fluxsemble_runtime_catal.Base.Lists.{All}
use fluxsemble_runtime_catal.Base.Results.{Result, ok, err, ◌>>=◌, ◌>>◌, ensure, ok-injective}

pub record Ensures {ℓ κ} {E : Type 0} {A : Type ℓ} (P : A → Type κ) (r : Result E A)
    : Type (ℓ ⊔ κ) where
  pub at : (a : A) → r ≡ ok a → P a

module _ {ℓ κ μ} {E : Type 0} {A : Type ℓ} {B : Type κ} {P : B → Type μ} where
  pub Ensures-bind :
      (m : Result E A) (f : A → Result E B)
      → ((a : A) → m ≡ ok a → Ensures P (f a))
      → Ensures P (m >>= f)
  unfolding ◌>>=◌
  Ensures-bind (ok a) f k = k a refl
  Ensures-bind (err e) f k = record { at = λ b h. ground arith }

module _ {ℓ μ} {E : Type 0} {B : Type ℓ} {P : B → Type μ} where
  pub Ensures-ok : (b : B) → P b → Ensures {E = E} P (ok b)
  Ensures-ok b p = record { at = λ c h. subst P (ok-injective h) p }

  pub Ensures-ensure :
      (e : E) (c : Bool) (k : Result E B) → (c ≡ true → Ensures P k) → Ensures P (ensure e c >> k)
  unfolding ensure ◌>>=◌
  Ensures-ensure e true k h = h refl
  Ensures-ensure e false k h = record { at = λ b h. ground arith }

module _ {ℓ} {E : Type 0} {P : Unit {0} → Type ℓ} where
  -- a check at the end
  pub Ensures-last : (e : E) (c : Bool) → (c ≡ true → P tt) → Ensures P (ensure e c)
  unfolding ensure
  Ensures-last e true h = record { at = λ u k. h refl }
  Ensures-last e false h = record { at = λ u k. ground arith }

-- for x in xs { f(x)?; }
abbrev pub for_each {ℓ} :
    {E : Type 0} {A : Type ℓ} → (A → Result E (Unit {0})) → List A → Result E (Unit {0})
for_each f [] = ok tt
for_each f (x ∷ xs) = f x >> for_each f xs

module _ {ℓ κ} {E : Type 0} {A : Type ℓ} where
  pub Ensures-for_each :
      (P : A → Type κ) (f : A → Result E (Unit {0}))
      → ((a : A) → Ensures (λ _. P a) (f a))
      → (xs : List A) → Ensures (λ _. All P xs) (for_each f xs)
  Ensures-for_each P f k [] = Ensures-ok tt tt
  Ensures-for_each P f k (x ∷ xs) =
      Ensures-bind _ _
        λ u h. record { at = λ v rest. ((k x).at u h, (Ensures-for_each P f k xs).at v rest) }
