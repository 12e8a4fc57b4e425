-- ===== src/Base/Classes.antt =====
-- Types with a Boolean equality test that decides equality: derived `PartialEq` and `Hash` keys.
use mathlib.Core.Path.{◌≡◌, refl, subst}
use mathlib.Core.Logic.{◌↔◌, ◌≢◌}
use mathlib.Core.Bool.{Bool, true, false, ◌&&◌, ◌||◌, decide, decide_iff}
use mathlib.Core.List.{List, [], ◌∷◌}
use native.Mathlib.Omega.{arith}
use Prim.Native.Nat.{ℕ}
use fluxsemble_runtime_catal.Base.Tests.{and_parts, ◌==◌, ==_iff}
use fluxsemble_runtime_catal.Base.Lists.{All}

pub record Eq {ℓ} (A : Type ℓ) : Type ℓ where
  pub same : A → A → Bool
  pub same_iff : (a b : A) → (same a b ≡ true) ↔ (a ≡ b)

abbrev pub same {ℓ} : {A : Type ℓ} ⦃e : Eq A⦄ → A → A → Bool
same ⦃e⦄ = e.same

-- `#[derive(PartialEq, Eq)]`
abbrev pub derive_eq {ℓ} : {A : Type ℓ} → Discrete A → Eq A
derive_eq d = record { same = λ a b. decide (d a b); same_iff = λ a b. decide_iff (d a b) }

module _ {ℓ} {A : Type ℓ} ⦃e : Eq A⦄ where
  pub same_refl : (a : A) → e.same a a ≡ true
  same_refl a = (e.same_iff a a).1 refl

  abbrev pub contains : List A → A → Bool
  contains [] a = false
  contains (x ∷ xs) a = e.same x a || contains xs a

  pub contains-Lacks : (xs : List A) (a : A) → contains xs a ≡ false → All (λ x. x ≢ a) xs
  contains-Lacks [] a h = tt
  contains-Lacks (x ∷ xs) a h =
      ((λ p. ground (arith, (e.same_iff x a).1 p)), contains-Lacks xs a (ground arith))

  pub Lacks-contains : (xs : List A) (a : A) → All (λ x. x ≢ a) xs → contains xs a ≡ false
  Lacks-contains [] a h = refl
  Lacks-contains (x ∷ xs) a h = ground (arith, Lacks-contains xs a, h.0, e.same_iff x a)

-- tuples
module _ {ℓ κ} {A : Type ℓ} {B : Type κ} ⦃ea : Eq A⦄ ⦃eb : Eq B⦄ where
  abbrev same_pair : A × B → A × B → Bool
  same_pair p q = ea.same p.0 q.0 && eb.same p.1 q.1

  pub same_pair_iff : (p q : A × B) → (same_pair p q ≡ true) ↔ (p ≡ q)
  same_pair_iff p q = (sound, complete)
    where
      sound : same_pair p q ≡ true → p ≡ q
      sound h =
          let (x, y) = and_parts (ea.same p.0 q.0) (eb.same p.1 q.1) h in
          λ i. ((ea.same_iff p.0 q.0).0 x i, (eb.same_iff p.1 q.1).0 y i)

      complete : p ≡ q → same_pair p q ≡ true
      complete h = subst (λ r. same_pair p r ≡ true) h self
        where
          self : same_pair p p ≡ true
          self = ground (arith, same_refl p.0, same_refl p.1)

  instance abbrev pub pair_eq : Eq (A × B)
  pair_eq = record { same = same_pair; same_iff = same_pair_iff }

instance abbrev pub number_eq : Eq ℕ
number_eq = record { same = ◌==◌; same_iff = ==_iff }
