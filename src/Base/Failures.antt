-- ===== src/Base/Failures.antt =====
-- Which error a fallible computation returns, one rule for each way to build it.
use mathlib.Core.Path.{◌≡◌}
use mathlib.Core.Bool.{Bool, true, false}
use mathlib.Core.Option.{Option, none, some}
use native.Mathlib.Omega.{arith}
use fluxsemble_runtime_catal.Base.Tests.{if◌then◌else◌}
use fluxsemble_runtime_catal.Base.Results.{Result, ok, err, ◌>>=◌, ◌>>◌, ensure, ok_or, map_err}

-- every error that it returns is the given one
pub record FailsAs {ℓ} {E : Type 0} {A : Type ℓ} (e : E) (r : Result E A) : Type ℓ where
  pub at : (d : E) → r ≡ err d → d ≡ e

module _ {E : Type 0} {e : E} where
  pub FailsAs-err {ℓ} : {A : Type ℓ} → FailsAs {A = A} e (err e)
  FailsAs-err = record { at = λ d h. cc }

  pub FailsAs-ok {ℓ} : {A : Type ℓ} (a : A) → FailsAs e (ok a)
  FailsAs-ok a = record { at = λ d h. ground arith }

  pub FailsAs-bind {ℓ κ} :
      {A : Type ℓ} {B : Type κ} (m : Result E A) (f : A → Result E B)
      → FailsAs e m
      → ((a : A) → FailsAs e (f a))
      → FailsAs e (m >>= f)
  unfolding ◌>>=◌
  FailsAs-bind (ok a) f m k = k a
  FailsAs-bind (err d) f m k = record { at = λ c h. m.at c (ground (arith, h)) }

  pub FailsAs-ensure {ℓ} :
      {A : Type ℓ} (c : Bool) (k : Result E A) → FailsAs e k → FailsAs e (ensure e c >> k)
  unfolding ensure ◌>>=◌
  FailsAs-ensure true k h = h
  FailsAs-ensure false k h = FailsAs-err

  pub FailsAs-ok_or {ℓ} : {A : Type ℓ} (o : Option A) → FailsAs e (ok_or e o)
  FailsAs-ok_or none = FailsAs-err
  FailsAs-ok_or (some a) = FailsAs-ok a

  pub FailsAs-map_err {ℓ} : {D : Type 0} {A : Type ℓ} (r : Result D A) → FailsAs e (map_err e r)
  FailsAs-map_err (ok a) = FailsAs-ok a
  FailsAs-map_err (err d) = FailsAs-err

  pub FailsAs-branch {ℓ} :
      {A : Type ℓ} (c : Bool) (x y : Result E A)
      → FailsAs e x
      → FailsAs e y
      → FailsAs {A = A} e (elim c [ true ↦ x | false ↦ y ])
  FailsAs-branch true x y h k = h
  FailsAs-branch false x y h k = k

  pub FailsAs-if {ℓ} :
      {A : Type ℓ} (c : Bool) (x y : Result E A)
      → FailsAs e x
      → FailsAs e y
      → FailsAs e (if c then x else y)
  FailsAs-if true x y h k = h
  FailsAs-if false x y h k = k
