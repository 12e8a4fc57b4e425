-- ===== src/Strings/Order.antt =====
-- The order of texts is strict, and sorted neighbours are sorted throughout.
use fluxsemble_runtime_catal.Base.{
  ◌≡◌, refl, ◌≢◌, Bool, true, false, List, [], ◌∷◌, Text, and_parts, All-map, Pairs, arith,
}
use fluxsemble_runtime_catal.Strings.{text_lt, all_window}

pub text_lt_irrefl : (s : Text) → text_lt s s ≡ false
unfolding text_lt
text_lt_irrefl [] = refl
text_lt_irrefl (a ∷ s) = ground (arith, text_lt_irrefl s)

pub text_lt_trans : (s t u : Text) → text_lt s t ≡ true → text_lt t u ≡ true → text_lt s u ≡ true
unfolding text_lt
text_lt_trans [] [] u h k = ground arith
text_lt_trans [] (b ∷ t) [] h k = ground arith
text_lt_trans [] (b ∷ t) (c ∷ u) h k = refl
text_lt_trans (a ∷ s) [] u h k = ground arith
text_lt_trans (a ∷ s) (b ∷ t) [] h k = ground arith
text_lt_trans (a ∷ s) (b ∷ t) (c ∷ u) h k = ground (arith, text_lt_trans s t u)

-- Of two texts one is less, or they are the same.
pub text_lt_total : (s t : Text) → text_lt s t ≡ false → text_lt t s ≡ false → s ≡ t
unfolding text_lt
text_lt_total [] [] h k = refl
text_lt_total [] (b ∷ t) h k = ground arith
text_lt_total (a ∷ s) [] h k = ground arith
text_lt_total (a ∷ s) (b ∷ t) h k = ground (arith, text_lt_total s t)

pub text_lt-ne : (s t : Text) → text_lt s t ≡ true → s ≢ t
text_lt-ne s t h e = ground (arith, text_lt_irrefl s)

-- A transitive test that holds of neighbours holds of every two elements in order.
module _ {ℓ} {A : Type ℓ} (less : A → A → Bool) where
  module _ (trans : (a b c : A) → less a b ≡ true → less b c ≡ true → less a c ≡ true) where
    pub Pairs-of_all_window :
        (xs : List A) → all_window less xs ≡ true → Pairs (λ a b. less a b ≡ true) xs
    Pairs-of_all_window [] h = tt
    Pairs-of_all_window (a ∷ []) h = (tt, tt)
    Pairs-of_all_window (a ∷ b ∷ s) h =
        let (first, rest) = and_parts (less a b) (all_window less (b ∷ s)) h in
        let later = Pairs-of_all_window (b ∷ s) rest in
        ((first, All-map (λ c k. trans a b c first k) s later.0), later)
