-- ===== src/Catalog/Require/Exact.antt =====
-- What the list checks of the catalog admit, stated without their loops.
use mathlib.Core.Path.{subst}
use fluxsemble_runtime_catal.Base.{
  ◌≡◌, ◌≢◌, ◌↔◌, refl, ap, true, not, List, [], ◌∷◌, Eq, contains, contains-Lacks, Lacks-contains,
  All, Pairs, Distinct, and_parts, and_intro, not_parts, Bool-cases, inl, inr, arith,
}
use fluxsemble_runtime_catal.Catalog.Require.{all_inserted, lookup, agrees, coherent_from}

module _ {ℓ} {A : Type ℓ} ⦃e : Eq A⦄ where
  Fresh : List A → List A → Type ℓ
  Fresh seen values = All (λ v. All (λ s. s ≢ v) seen) values

  Fresh-parts :
      (v : A) (seen values : List A)
      → Fresh (v ∷ seen) values
      → All (λ w. v ≢ w) values × Fresh seen values
  unfolding Fresh
  Fresh-parts v seen [] h = (tt, tt)
  Fresh-parts v seen (w ∷ values) h =
      let (a, b) = Fresh-parts v seen values h.1 in ((h.0.0, a), (h.0.1, b))

  Fresh-intro :
      (v : A) (seen values : List A)
      → All (λ w. v ≢ w) values
      → Fresh seen values
      → Fresh (v ∷ seen) values
  unfolding Fresh
  Fresh-intro v seen [] h k = tt
  Fresh-intro v seen (w ∷ values) h k = ((h.0, k.0), Fresh-intro v seen values h.1 k.1)

  inserted_sound :
      (seen values : List A) → all_inserted seen values ≡ true → Distinct values × Fresh seen values
  unfolding all_inserted Fresh
  inserted_sound seen [] h = (tt, tt)
  inserted_sound seen (v ∷ values) h =
      let (new, rest) = and_parts (not (contains seen v)) (all_inserted (v ∷ seen) values) h in
      let (distinct, fresh) = inserted_sound (v ∷ seen) values rest in
      let (other, old) = Fresh-parts v seen values fresh in
      ((other, distinct), (contains-Lacks seen v (not_parts (contains seen v) new), old))

  inserted_complete :
      (seen values : List A) → Distinct values → Fresh seen values → all_inserted seen values ≡ true
  unfolding all_inserted Fresh
  inserted_complete seen [] d f = refl
  inserted_complete seen (v ∷ values) d f =
      and_intro (not (contains seen v)) (all_inserted (v ∷ seen) values)
        (ap not (Lacks-contains seen v f.0))
        (inserted_complete (v ∷ seen) values d.1 (Fresh-intro v seen values d.0 f.1))

  Fresh-nil : (values : List A) → Fresh [] values
  unfolding Fresh
  Fresh-nil [] = tt
  Fresh-nil (v ∷ values) = (tt, Fresh-nil values)

  -- `require_unique` admits exactly the lists without repetition.
  pub all_inserted_iff : (values : List A) → (all_inserted [] values ≡ true) ↔ Distinct values
  all_inserted_iff values =
      (λ h. (inserted_sound [] values h).0, λ d. inserted_complete [] values d (Fresh-nil values))

module _ {K V : Type 0} ⦃k : Eq K⦄ ⦃v : Eq V⦄ where
  -- two entries of the same key have the same value
  abbrev pub Agree : K × V → K × V → Type 0
  Agree a b = a.0 ≡ b.0 → a.1 ≡ b.1

  Agrees : List (K × V) → K × V → Type 0
  Agrees m e = agrees (lookup e.0 m) e.1 ≡ true

  Agrees-head :
      (key : K) (value : V) (m : List (K × V)) (e : K × V)
      → Agrees ((key, value) ∷ m) e
      → Agree (key, value) e
  unfolding Agrees
  Agrees-head key value m e h p =
      (v.same_iff value e.1).0 (ground (arith, h, (k.same_iff key e.0).1 p))

  Agrees-tail :
      (key : K) (value : V) (m : List (K × V)) (e : K × V)
      → Agrees m (key, value)
      → Agrees ((key, value) ∷ m) e
      → Agrees m e
  unfolding Agrees
  Agrees-tail key value m e first h = elim (Bool-cases (k.same key e.0)) [
    | inl s ↦
        let p = (k.same_iff key e.0).0 s in
        let q = (v.same_iff value e.1).0 (ground (arith, h, s)) in
        subst (λ (d : K × V). agrees (lookup d.0 m) d.1 ≡ true) (λ i. (p i, q i)) first
    | inr s ↦ ground (arith, h, s)
  ]

  Agrees-cons :
      (key : K) (value : V) (m : List (K × V)) (e : K × V)
      → Agree (key, value) e
      → Agrees m e
      → Agrees ((key, value) ∷ m) e
  unfolding Agrees
  Agrees-cons key value m e a h = elim (Bool-cases (k.same key e.0)) [
    | inl s ↦ rw s ((v.same_iff value e.1).1 (a ((k.same_iff key e.0).0 s)))
    | inr s ↦ rw s h
  ]

  tails :
      (key : K) (value : V) (m : List (K × V)) (es : List (K × V))
      → Agrees m (key, value)
      → All (Agrees ((key, value) ∷ m)) es
      → All (Agree (key, value)) es × All (Agrees m) es
  tails key value m [] first h = (tt, tt)
  tails key value m (e ∷ es) first h =
      let (a, b) = tails key value m es first h.1 in
      ((Agrees-head key value m e h.0, a), (Agrees-tail key value m e first h.0, b))

  conses :
      (key : K) (value : V) (m : List (K × V)) (es : List (K × V))
      → All (Agree (key, value)) es
      → All (Agrees m) es
      → All (Agrees ((key, value) ∷ m)) es
  conses key value m [] a h = tt
  conses key value m (e ∷ es) a h =
      (Agrees-cons key value m e a.0 h.0, conses key value m es a.1 h.1)

  coherent_sound :
      (m es : List (K × V)) → coherent_from m es ≡ true → All (Agrees m) es × Pairs Agree es
  unfolding coherent_from
  coherent_sound m [] h = (tt, tt)
  coherent_sound m ((key, value) ∷ es) h =
      let (first, rest) =
        and_parts (agrees (lookup key m) value) (coherent_from ((key, value) ∷ m) es) h in
      let first' : Agrees m (key, value) = unfold Agrees in first in
      let (later, pairs) = coherent_sound ((key, value) ∷ m) es rest in
      let (heads, olds) = tails key value m es first' later in ((first', olds), (heads, pairs))

  coherent_complete :
      (m es : List (K × V)) → All (Agrees m) es → Pairs Agree es → coherent_from m es ≡ true
  unfolding coherent_from Agrees
  coherent_complete m [] a p = refl
  coherent_complete m ((key, value) ∷ es) a p =
      and_intro (agrees (lookup key m) value) (coherent_from ((key, value) ∷ m) es) a.0
        (coherent_complete ((key, value) ∷ m) es (conses key value m es p.0 a.1) p.1)

  Agrees-nil : (es : List (K × V)) → All (Agrees []) es
  unfolding Agrees
  Agrees-nil [] = tt
  Agrees-nil (e ∷ es) = (refl, Agrees-nil es)

  -- The loop over a map admits exactly the lists in which a repeated key repeats its value.
  pub coherent_iff : (es : List (K × V)) → (coherent_from [] es ≡ true) ↔ Pairs Agree es
  coherent_iff es =
      (λ h. (coherent_sound [] es h).1, λ p. coherent_complete [] es (Agrees-nil es) p)
