-- ===== src/Catalog/Bundle/Bounds.antt =====
-- crates/catalog-core/src/bundle.rs: what the running total of sizes admits.
use fluxsemble_runtime_catal.Base.{
  ℕ, ◌+◌, ◌≤◌, ◌≡◌, ◌↔◌, refl, true, List, [], ◌∷◌, arith, and_parts,
}
use fluxsemble_runtime_catal.Catalog.Bundle.{bounded_total, max_bundle_total_bytes}

abbrev pub sum : List ℕ → ℕ
sum [] = 0
sum (x ∷ xs) = x + sum xs

bounded_sound :
    (total : ℕ) (sizes : List ℕ)
    → total ≤ max_bundle_total_bytes
    → bounded_total total sizes ≡ true
    → total + sum sizes ≤ max_bundle_total_bytes
unfolding bounded_total
bounded_sound total [] le h = omega arith
bounded_sound total (size ∷ sizes) le h =
    let (first, rest) = and_parts _ (bounded_total (total + size) sizes) h in
    omega (arith, bounded_sound (total + size) sizes (ground (arith, first)) rest)

bounded_complete :
    (total : ℕ) (sizes : List ℕ)
    → total + sum sizes ≤ max_bundle_total_bytes
    → bounded_total total sizes ≡ true
unfolding bounded_total
bounded_complete total [] h = refl
bounded_complete total (size ∷ sizes) h =
    let rest = bounded_complete (total + size) sizes (omega arith) in ground (arith, rest)

-- Sizes pass exactly when their sum is at most 64 GiB: the checked addition never overflows before
-- the limit refuses.
pub bounded_total_iff :
    (sizes : List ℕ) → (bounded_total 0 sizes ≡ true) ↔ (sum sizes ≤ max_bundle_total_bytes)
bounded_total_iff sizes = (
  λ h. omega (arith, bounded_sound 0 sizes (omega arith) h),
  λ h. bounded_complete 0 sizes (omega (arith, h)),
)
