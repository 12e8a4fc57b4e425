-- ===== src/Base/Results.antt =====
-- `Result<T, E>`, `Option` in a chain, and how a successful chain is taken apart.
use mathlib.Core.Path.{◌≡◌, refl}
use mathlib.Core.Logic.{◌⊎◌, inl, inr}
use mathlib.Core.Bool.{Bool, true, false}
use mathlib.Core.Option.{Option, none, some}
use native.Mathlib.Omega.{arith}
use fluxsemble_runtime_catal.Base.Tests.{if◌then◌else◌}

pub data Result {ℓ} (E : Type 0) (A : Type ℓ) : Type ℓ where
  ok : A → Result E A
  err : E → Result E A

-- the `?` operator
infixl 5 ◌>>=◌ ◌>>◌
unfoldable pub ◌>>=◌ {ℓ κ} :
    {E : Type 0} {A : Type ℓ} {B : Type κ} → Result E A → (A → Result E B) → Result E B
ok a >>= f = f a
err e >>= f = err e

abbrev pub ◌>>◌ {ℓ κ} :
    {E : Type 0} {A : Type ℓ} {B : Type κ} → Result E A → Result E B → Result E B
m >> k = m >>= λ _. k

-- if !condition { return Err(e) }
unfoldable pub ensure : {E : Type 0} → E → Bool → Result E (Unit {0})
ensure e true = ok tt
ensure e false = err e

-- Option::ok_or
abbrev pub ok_or {ℓ} : {E : Type 0} {A : Type ℓ} → E → Option A → Result E A
ok_or e none = err e
ok_or e (some a) = ok a

-- Result::map_err
abbrev pub map_err {ℓ} : {E F : Type 0} {A : Type ℓ} → F → Result E A → Result F A
map_err f (ok a) = ok a
map_err f (err _) = err f

module _ {ℓ κ} {E : Type 0} {A : Type ℓ} {B : Type κ} where
  pub bind-eq-ok :
      (m : Result E A) (f : A → Result E B) {b : B}
      → (m >>= f) ≡ ok b
      → (a : A) × (m ≡ ok a) × (f a ≡ ok b)
  unfolding ◌>>=◌
  bind-eq-ok (ok a) f h = (a, refl, h)
  bind-eq-ok (err e) f h = ground arith

pub ensure-eq-ok {ℓ} :
    {E : Type 0} {B : Type ℓ} (e : E) (c : Bool) (k : Result E B) {b : B}
    → (ensure e c >> k) ≡ ok b
    → (c ≡ true) × (k ≡ ok b)
unfolding ensure ◌>>=◌
ensure-eq-ok e true k h = (refl, h)
ensure-eq-ok e false k h = ground arith

pub ok_or-eq-ok {ℓ} :
    {E : Type 0} {A : Type ℓ} (e : E) (o : Option A) {a : A} → ok_or e o ≡ ok a → o ≡ some a
ok_or-eq-ok e none h = ground arith
ok_or-eq-ok e (some a) h = ground arith

pub map_err-eq-ok {ℓ} :
    {E F : Type 0} {A : Type ℓ} (f : F) (r : Result E A) {a : A} → map_err f r ≡ ok a → r ≡ ok a
map_err-eq-ok f (ok a) h = ground arith
map_err-eq-ok f (err e) h = ground arith

module _ {ℓ} {E : Type 0} {A : Type ℓ} where
  pub ok-injective : {a b : A} → ◌≡◌ {A = Result E A} (ok a) (ok b) → a ≡ b
  ok-injective h = cc

module _ {ℓ} {E : Type 0} {A : Type ℓ} where
  -- a check, then the rest
  pub then-eq-ok :
      (m : Result E (Unit {0})) (k : Result E A) {a : A}
      → (m >> k) ≡ ok a
      → (m ≡ ok tt) × (k ≡ ok a)
  unfolding ◌>>=◌
  then-eq-ok (ok tt) k h = (refl, h)
  then-eq-ok (err e) k h = ground arith

  -- if bad { return Err(e) }
  pub unless-eq-ok :
      (bad : Bool) (e : E) (k : Result E A) {a : A}
      → (if bad then err e else k) ≡ ok a
      → (bad ≡ false) × (k ≡ ok a)
  unless-eq-ok true e k h = ground arith
  unless-eq-ok false e k h = (refl, h)

-- a branch on a test, taken apart
module _ {ℓ} {E : Type 0} {A : Type ℓ} where
  pub branch_ok :
      (c : Bool) (x y : Result E A) {a : A}
      → elim c [ true ↦ x | false ↦ y ] ≡ ok a
      → ((c ≡ true) × (x ≡ ok a)) ⊎ ((c ≡ false) × (y ≡ ok a))
  branch_ok true x y h = inl (refl, h)
  branch_ok false x y h = inr (refl, h)

pub require-eq-ok : {E : Type 0} (e : E) (c : Bool) → ensure e c ≡ ok tt → c ≡ true
unfolding ensure
require-eq-ok e true h = refl
require-eq-ok e false h = ground arith
