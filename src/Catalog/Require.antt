-- ===== src/Catalog/Require.antt =====
-- crates/catalog-core/src/wire.rs: the `require` helpers over lists.
pub mod Exact
use fluxsemble_runtime_catal.Base.{
  ℕ, zero, suc, Bool, true, false, ◌&&◌, not, Option, none, some, List, [], ◌∷◌, Result, ensure,
  leb, Eq, same, contains, length, if◌then◌else◌,
}
use fluxsemble_runtime_catal.Strings.{is_empty, all_window}

-- CoreError
pub data CoreError : Type 0 where
  invalid_catalog : CoreError

abbrev pub Core {ℓ} : Type ℓ → Type ℓ
Core = Result CoreError

abbrev pub require : Bool → Core (Unit {0})
require = ensure invalid_catalog

abbrev pub bounded_nonempty {ℓ} : {A : Type ℓ} → List A → ℕ → Bool
bounded_nonempty values maximum = not (is_empty values) && leb (length values) maximum

abbrev pub require_bounded_nonempty {ℓ} : {A : Type ℓ} → List A → ℕ → Core (Unit {0})
require_bounded_nonempty values maximum = require (bounded_nonempty values maximum)

module _ {ℓ} {A : Type ℓ} ⦃e : Eq A⦄ where
  -- `values.into_iter().all(|value| seen.insert(value))`
  unfoldable pub all_inserted : List A → List A → Bool
  all_inserted seen [] = true
  all_inserted seen (value ∷ values) =
      not (contains seen value) && all_inserted (value ∷ seen) values

  abbrev pub require_unique : List A → Core (Unit {0})
  require_unique values = require (all_inserted [] values)

abbrev pub require_strictly_sorted_by {ℓ} : {A : Type ℓ} → List A → (A → A → Bool) → Core (Unit {0})
require_strictly_sorted_by values less = require (all_window less values)

-- `HashMap` as an association list: an entry that is put in front hides the older one of its key
module _ {K V : Type 0} ⦃k : Eq K⦄ where
  abbrev pub lookup : K → List (K × V) → Option V
  lookup key [] = none
  lookup key ((other, v) ∷ m) = if k.same other key then some v else lookup key m

-- if let Some(previous) = … { require(previous == immutable) }
abbrev pub agrees : {V : Type 0} ⦃v : Eq V⦄ → Option V → V → Bool
agrees none value = true
agrees ⦃v⦄ (some previous) value = v.same previous value

module _ {K V : Type 0} ⦃k : Eq K⦄ ⦃v : Eq V⦄ where
  -- the loop of `require_coherent_package_identities`
  unfoldable pub coherent_from : List (K × V) → List (K × V) → Bool
  coherent_from identities [] = true
  coherent_from identities ((key, value) ∷ rest) =
      agrees (lookup key identities) value && coherent_from ((key, value) ∷ identities) rest
