-- ===== src/Catalog/Duplicates/Exact.antt =====
-- What `reject_duplicate_json` accepts, stated without the visitor.
use fluxsemble_runtime_catal.Base.{
  ◌≤◌, ◌≡◌, ◌≢◌, ◌↔◌, refl, Bool, true, false, ◌||◌, List, [], ◌∷◌, Text, ok, ◌>>=◌, ◌>>◌, ok_or,
  ensure, ltb, length, contains, Option, none, some, arith, All, Distinct, Lacks-contains,
  contains-Lacks, then-eq-ok, unless-eq-ok, require-eq-ok,
}
use fluxsemble_runtime_catal.Strings.Split.{text_class}
use fluxsemble_runtime_catal.Catalog.Require.{Core, invalid_catalog, require}
use fluxsemble_runtime_catal.Catalog.Externals.{
  Externals, Json, JsonItems, JsonFields, null, bool, integer, negative, float, string, seq, map,
  end, item, close, field,
}
use fluxsemble_runtime_catal.Catalog.Duplicates.{visit, visit_seq, visit_map, reject_duplicate_json}

abbrev pub keys : JsonFields → List Text
keys close = []
keys (field key value fields) = key ∷ keys fields

abbrev pub IsShortKey : Text → Type 0
IsShortKey key = length key ≤ 64

-- every number is finite, and every object has short keys, no two of them the same
unfoldable mutual
  pub Clean : Json → Type 0
  Clean null = Unit
  Clean (bool b) = Unit
  Clean (integer n) = Unit
  Clean (negative n) = Unit
  Clean (float finite) = finite ≡ true
  Clean (string s) = Unit
  Clean (seq items) = CleanItems items
  Clean (map fields) = CleanFields fields × All IsShortKey (keys fields) × Distinct (keys fields)

  pub CleanItems : JsonItems → Type 0
  CleanItems end = Unit
  CleanItems (item value items) = Clean value × CleanItems items

  pub CleanFields : JsonFields → Type 0
  CleanFields close = Unit
  CleanFields (field key value fields) = Clean value × CleanFields fields

-- no key of the rest is among those already met
abbrev Fresh : List Text → JsonFields → Type 0
Fresh seen fields = All (λ k. All (λ s. s ≢ k) seen) (keys fields)

abbrev Rest : JsonFields → List Text → Type 0
Rest fields seen =
    CleanFields fields × All IsShortKey (keys fields) × Distinct (keys fields) × Fresh seen fields

Fresh-tail :
    (key : Text) (seen ks : List Text)
    → All (λ k. All (λ s. s ≢ k) (key ∷ seen)) ks
    → All (λ k. key ≢ k) ks × All (λ k. All (λ s. s ≢ k) seen) ks
Fresh-tail key seen [] h = (tt, tt)
Fresh-tail key seen (k ∷ ks) h = let (a, b) = Fresh-tail key seen ks h.1 in ((h.0.0, a), (h.0.1, b))

Fresh-cons :
    (key : Text) (seen ks : List Text)
    → All (λ k. key ≢ k) ks
    → All (λ k. All (λ s. s ≢ k) seen) ks
    → All (λ k. All (λ s. s ≢ k) (key ∷ seen)) ks
Fresh-cons key seen [] h k = tt
Fresh-cons key seen (x ∷ ks) h k = ((h.0, k.0), Fresh-cons key seen ks h.1 k.1)

either_false : (a b : Bool) → (a || b) ≡ false → (a ≡ false) × (b ≡ false)
either_false a b h = ground arith

field_sound :
    (key : Text) (seen : List Text)
    → (ltb 64 (length key) || contains seen key) ≡ false
    → IsShortKey key × All (λ s. s ≢ key) seen
field_sound key seen h =
    let (short, fresh) = either_false (ltb 64 (length key)) (contains seen key) h in
    (ground arith, contains-Lacks seen key fresh)

field_complete :
    (key : Text) (seen : List Text)
    → IsShortKey key
    → All (λ s. s ≢ key) seen
    → (ltb 64 (length key) || contains seen key) ≡ false
field_complete key seen short fresh = ground (arith, Lacks-contains seen key fresh)

mutual
  unfolding visit Clean

  visit_sound : (j : Json) → visit j ≡ ok tt → Clean j
  visit_sound null h = tt
  visit_sound (bool b) h = tt
  visit_sound (integer n) h = tt
  visit_sound (negative n) h = tt
  visit_sound (float finite) h = require-eq-ok invalid_catalog finite h
  visit_sound (string s) h = tt
  visit_sound (seq items) h = visit_seq_sound items h
  visit_sound (map fields) h = let (c, s, d, f) = visit_map_sound fields [] h in (c, s, d)

  visit_seq_sound : (items : JsonItems) → visit_seq items ≡ ok tt → CleanItems items
  visit_seq_sound end h = tt
  visit_seq_sound (item value items) h =
      let (first, rest) = then-eq-ok (visit value) (visit_seq items) h in
      (visit_sound value first, visit_seq_sound items rest)

  visit_map_sound :
      (fields : JsonFields) (seen : List Text) → visit_map fields seen ≡ ok tt → Rest fields seen
  visit_map_sound close seen h = (tt, tt, tt, tt)
  visit_map_sound (field key value fields) seen h =
      let (good, more) =
        unless-eq-ok (ltb 64 (length key) || contains seen key) invalid_catalog
          (visit value >> visit_map fields (key ∷ seen)) h in
      let (short, fresh) = field_sound key seen good in
      let (first, rest) = then-eq-ok (visit value) (visit_map fields (key ∷ seen)) more in
      let (clean, shorts, distinct, unseen) = visit_map_sound fields (key ∷ seen) rest in
      let (other, old) = Fresh-tail key seen (keys fields) unseen in
      ((visit_sound value first, clean), (short, shorts), (other, distinct), (fresh, old))

Fresh-nil : (ks : List Text) → All (λ k. All (λ (s : Text). s ≢ k) []) ks
Fresh-nil [] = tt
Fresh-nil (k ∷ ks) = (tt, Fresh-nil ks)

require-true : (c : Bool) → c ≡ true → require c ≡ ok tt
unfolding ensure
require-true c h = rw h

then-ok {ℓ} :
    {A : Type ℓ} (m : Core (Unit {0})) (k : Core A) {a : A} → m ≡ ok tt → k ≡ ok a → (m >> k) ≡ ok a
unfolding ◌>>=◌
then-ok m k h e = rw h e

mutual
  unfolding visit Clean

  visit_complete : (j : Json) → Clean j → visit j ≡ ok tt
  visit_complete null h = refl
  visit_complete (bool b) h = refl
  visit_complete (integer n) h = refl
  visit_complete (negative n) h = refl
  visit_complete (float finite) h = require-true finite h
  visit_complete (string s) h = refl
  visit_complete (seq items) h = visit_seq_complete items h
  visit_complete (map fields) h =
      visit_map_complete fields [] (h.0, h.1, h.2, Fresh-nil (keys fields))

  visit_seq_complete : (items : JsonItems) → CleanItems items → visit_seq items ≡ ok tt
  visit_seq_complete end h = refl
  visit_seq_complete (item value items) h =
      then-ok (visit value) (visit_seq items) (visit_complete value h.0)
        (visit_seq_complete items h.1)

  visit_map_complete :
      (fields : JsonFields) (seen : List Text) → Rest fields seen → visit_map fields seen ≡ ok tt
  visit_map_complete close seen h = refl
  visit_map_complete (field key value fields) seen h = rw (field_complete key seen h.1.0 h.3.0) (
      then-ok (visit value) (visit_map fields (key ∷ seen)) (visit_complete value h.0.0) (
        visit_map_complete fields (key ∷ seen)
          (h.0.1, h.1.1, h.2.1, Fresh-cons key seen (keys fields) h.2.0 h.3.1)))

bind-ok : (j : Json) → visit j ≡ ok tt → (ok_or invalid_catalog (some j) >>= visit) ≡ ok tt
unfolding ◌>>=◌
bind-ok j h = h

-- A text passes the duplicate check exactly when it is JSON in which every number is finite and every
-- object, at any depth, has keys of at most 64 bytes of which no two are the same.
pub reject_duplicate_json_iff :
    (x : Externals) (bytes : Text)
    → (reject_duplicate_json x bytes ≡ ok tt)
      ↔ ((j : Json) × (x.json_tree bytes ≡ some j) × Clean j)
reject_duplicate_json_iff x bytes =
    (λ h. sound (x.json_tree bytes) refl (unfold reject_duplicate_json in h), complete)
  where
    sound :
        (o : Option Json)
        → x.json_tree bytes ≡ o
        → (ok_or invalid_catalog o >>= visit) ≡ ok tt
        → (j : Json) × (x.json_tree bytes ≡ some j) × Clean j
    sound none e h = unfold ◌>>=◌ in ground arith
    sound (some j) e h = (j, e, visit_sound j (unfold ◌>>=◌ in h))

    complete :
        ((j : Json) × (x.json_tree bytes ≡ some j) × Clean j)
        → reject_duplicate_json x bytes ≡ ok tt
    complete (j, e, c) = unfold reject_duplicate_json in rw e (bind-ok j (visit_complete j c))
