-- ===== src/Base/Lists.antt =====
-- Lists measured by native numbers, and predicates on lists that compute to tuples.
use Prim.Native.Nat.{ℕ, zero, suc, ◌+◌}
use Prim.Native.Char.{code}
use Prim.Native.String.{String}
use mathlib.Core.Path.{◌≡◌, refl, sym, subst}
use mathlib.Core.Logic.{◌≢◌, ◌⊎◌, inl, inr}
use mathlib.Core.Bool.{Bool, true, false, ◌&&◌, ◌||◌}
use mathlib.Core.Option.{Option, none, some}
use mathlib.Core.List.{List, [], ◌∷◌, ◌++◌, map}
use native.Mathlib.Omega.{arith}
use fluxsemble_runtime_catal.Base.Tests.{and_parts}
use fluxsemble_runtime_catal.Base.Results.{Result, ok, err, ok-injective}

-- a byte slice, and a `str` by its UTF-8 bytes
abbrev pub Text : Type 0
Text = List ℕ

-- a literal of ASCII characters
abbrev pub codes : String → Text
codes String.[] = []
codes (String.◌∷◌ c s) = code c ∷ codes s

module _ {ℓ} {A : Type ℓ} where
  abbrev pub length : List A → ℕ
  length [] = 0
  length (x ∷ xs) = suc (length xs)

  abbrev pub get_elem? : List A → ℕ → Option A
  get_elem? [] i = none
  get_elem? (x ∷ xs) zero = some x
  get_elem? (x ∷ xs) (suc i) = get_elem? xs i

  abbrev pub drop : ℕ → List A → List A
  drop zero xs = xs
  drop (suc n) [] = []
  drop (suc n) (x ∷ xs) = drop n xs

  abbrev pub take : ℕ → List A → List A
  take zero xs = []
  take (suc n) [] = []
  take (suc n) (x ∷ xs) = x ∷ take n xs

  -- iter().all and iter().any
  abbrev pub all : (A → Bool) → List A → Bool
  all p [] = true
  all p (x ∷ xs) = p x && all p xs

  abbrev pub any : (A → Bool) → List A → Bool
  any p [] = false
  any p (x ∷ xs) = p x || any p xs

  pub length-append : (xs ys : List A) → length (xs ++ ys) ≡ length xs + length ys
  length-append [] ys = omega arith
  length-append (x ∷ xs) ys = omega (arith, length-append xs ys)

  pub all-append : (p : A → Bool) (xs ys : List A) → all p (xs ++ ys) ≡ (all p xs && all p ys)
  all-append p [] ys = refl
  all-append p (x ∷ xs) ys = ground (arith, all-append p xs ys)

module _ {ℓ κ} {A : Type ℓ} where
  abbrev pub All : (A → Type κ) → List A → Type κ
  All P [] = Unit
  All P (x ∷ xs) = P x × All P xs

  -- every element is related to every later one
  abbrev pub Pairs : (A → A → Type κ) → List A → Type κ
  Pairs R [] = Unit
  Pairs R (x ∷ xs) = All (R x) xs × Pairs R xs

abbrev pub Distinct {ℓ} : {A : Type ℓ} → List A → Type ℓ
Distinct = Pairs (λ a b. a ≢ b)

module _ {ℓ κ μ} {A : Type ℓ} {P : A → Type κ} {Q : A → Type μ} where
  pub All-map : ((a : A) → P a → Q a) → (xs : List A) → All P xs → All Q xs
  All-map f [] h = tt
  All-map f (x ∷ xs) h = (f x h.0, All-map f xs h.1)

module _ {ℓ κ} {A : Type ℓ} (P : A → Type κ) where
  pub All-append : (xs ys : List A) → All P xs → All P ys → All P (xs ++ ys)
  All-append [] ys h k = k
  All-append (x ∷ xs) ys h k = (h.0, All-append xs ys h.1 k)

  pub All-of_all :
      (p : A → Bool) (f : (a : A) → p a ≡ true → P a) (xs : List A) → all p xs ≡ true → All P xs
  All-of_all p f [] h = tt
  All-of_all p f (x ∷ xs) h =
      let (px, rest) = and_parts (p x) (all p xs) h in (f x px, All-of_all p f xs rest)

  pub all_of_All :
      (p : A → Bool) (f : (a : A) → P a → p a ≡ true) (xs : List A) → All P xs → all p xs ≡ true
  all_of_All p f [] h = refl
  all_of_All p f (x ∷ xs) h = ground (arith, f x h.0, all_of_All p f xs h.1)

-- into_iter().map(f).collect::<Result<Vec<_>, _>>()
abbrev pub push_ok {κ} :
    {E : Type 0} {B : Type κ} → Result E B → Result E (List B) → Result E (List B)
push_ok (err e) rest = err e
push_ok (ok y) (err e) = err e
push_ok (ok y) (ok ys) = ok (y ∷ ys)

pub push_ok-eq-ok {κ} :
    {E : Type 0} {B : Type κ} (r : Result E B) (rs : Result E (List B)) {zs : List B}
    → push_ok r rs ≡ ok zs
    → (y : B) × (ys : List B) × (r ≡ ok y) × (rs ≡ ok ys) × (zs ≡ y ∷ ys)
push_ok-eq-ok (err e) rs h = ground arith
push_ok-eq-ok (ok y) (err e) h = ground arith
push_ok-eq-ok (ok y) (ok ys) h = (y, ys, refl, refl, ground arith)

module _ {ℓ κ} {E : Type 0} {A : Type ℓ} {B : Type κ} where
  abbrev pub traverse : (A → Result E B) → List A → Result E (List B)
  traverse f [] = ok []
  traverse f (x ∷ xs) = push_ok (f x) (traverse f xs)

  -- what holds of each successful element holds of the collected list
  pub traverse-All {μ} :
      {P : B → Type μ} (f : A → Result E B)
      → ((a : A) (b : B) → f a ≡ ok b → P b)
      → (xs : List A) {ys : List B} → traverse f xs ≡ ok ys
      → All P ys
  traverse-All {P = P} f keep [] h = subst (All P) (ok-injective h) tt
  traverse-All {P = P} f keep (x ∷ xs) h =
      let (y, ys, hy, hys, e) = push_ok-eq-ok (f x) (traverse f xs) h in
      subst (All P) (sym e) (keep x y hy, traverse-All {P = P} f keep xs hys)

module _ {ℓ} {A : Type ℓ} where
  -- iter().find
  abbrev pub find : (A → Bool) → List A → Option A
  find p [] = none
  find p (x ∷ xs) = let rest = find p xs in elim (p x) [ true ↦ some x | false ↦ rest ]

  -- iter().filter(p).count()
  abbrev pub count_if : (A → Bool) → List A → ℕ
  count_if p [] = 0
  count_if p (x ∷ xs) = let rest = count_if p xs in elim (p x) [ true ↦ suc rest | false ↦ rest ]

-- the element is in the list, with its place
abbrev pub Among : {A : Type 0} → A → List A → Type 0
Among a [] = ⊥
Among a (x ∷ xs) = (x ≡ a) ⊎ Among a xs

module _ {A : Type 0} (p : A → Bool) where
  pub find-Among : (xs : List A) (a : A) → find p xs ≡ some a → Among a xs × (p a ≡ true)
  find-Among [] a h = ground arith
  find-Among (x ∷ xs) a h = split_head (p x) refl h (λ k. find-Among xs a k)
    where
      split_head :
          (b : Bool)
          → p x ≡ b
          → elim b [ true ↦ some x | false ↦ find p xs ] ≡ some a
          → (find p xs ≡ some a → Among a xs × (p a ≡ true))
          → ((x ≡ a) ⊎ Among a xs) × (p a ≡ true)
      split_head true e k later =
          let q : x ≡ a = ground arith in (inl q, subst (λ y. p y ≡ true) q e)
      split_head false e k later = let (m, q) = later k in (inr m, q)

  pub any-Among : (xs : List A) → any p xs ≡ true → (a : A) × Among a xs × (p a ≡ true)
  any-Among [] h = ground arith
  any-Among (x ∷ xs) h = split_head (p x) refl (λ k. any-Among xs k) h
    where
      split_head :
          (b : Bool)
          → p x ≡ b
          → (any p xs ≡ true → (a : A) × Among a xs × (p a ≡ true))
          → (b || any p xs) ≡ true
          → (a : A) × Among a (x ∷ xs) × (p a ≡ true)
      split_head true e later k = (x, inl refl, e)
      split_head false e later k = let (a, m, q) = later k in (a, inr m, q)

module _ {ℓ κ μ} {A : Type ℓ} {B : Type κ} (R : B → B → Type μ) (f : A → B) where
  All-of_map : (P : B → Type μ) (xs : List A) → All P (map f xs) → All (λ x. P (f x)) xs
  All-of_map P [] h = tt
  All-of_map P (x ∷ xs) h = (h.0, All-of_map P xs h.1)

  pub Pairs-of_map : (xs : List A) → Pairs R (map f xs) → Pairs (λ a b. R (f a) (f b)) xs
  Pairs-of_map [] h = tt
  Pairs-of_map (x ∷ xs) h = (All-of_map (R (f x)) xs h.0, Pairs-of_map xs h.1)

module _ {ℓ κ μ} {A : Type ℓ} {R : A → A → Type κ} {S : A → A → Type μ} where
  pub Pairs-map : ((a b : A) → R a b → S a b) → (xs : List A) → Pairs R xs → Pairs S xs
  Pairs-map f [] h = tt
  Pairs-map f (x ∷ xs) h = (All-map (λ b. f x b) xs h.0, Pairs-map f xs h.1)
