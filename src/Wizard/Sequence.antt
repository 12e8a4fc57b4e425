-- ===== src/Wizard/Sequence.antt =====
-- crates/catalog-wizard/src/sequence.rs: the latest local sequence, and its comparison with GitHub's.
pub mod Names
use fluxsemble_runtime_catal.Base.{
  ℕ, ◌+◌, ◌≤◌, ◌<◌, ◌≡◌, ◌↔◌, refl, sym, Bool, true, false, not, ◌⊎◌, inl, inr, Option, none, some,
  List, [], ◌∷◌, Text, codes, Result, ok, err, ltb, ◌==◌, arith, ok-injective, ◌∙◌, if◌then◌else◌,
}
use Prim.Native.Nat.{max}
use fluxsemble_runtime_catal.Strings.{strip_prefix}
use fluxsemble_runtime_catal.Strings.Decimal.{u64_limit, parse_u64}
use mathlib.Core.List.{reverse}
use mathlib.Core.Path.{subst}
use native.Mathlib.Decide.{dec_le}

pub data SequenceMismatch : Type 0 where
  disagreement : (recorded github : Option ℕ) → SequenceMismatch
  next_sequence_overflow : ℕ → SequenceMismatch

abbrev pub same_option : Option ℕ → Option ℕ → Bool
same_option none none = true
same_option (some a) (some b) = a == b
same_option _ _ = false

abbrev pub or_zero : Option ℕ → ℕ
or_zero none = 0
or_zero (some n) = n

-- checked_add(1)
unfoldable pub compare_sequences : Option ℕ → Option ℕ → Result SequenceMismatch ℕ
compare_sequences recorded github =
    if not (same_option recorded github)
    then err (disagreement recorded github)
    else if ltb (or_zero recorded + 1) u64_limit
    then ok (or_zero recorded + 1)
    else err (next_sequence_overflow 18446744073709551615)

abbrev pub catalog_prefix : Text
catalog_prefix = codes "catalog-v1-sequence-"

abbrev pub catalog_suffix : Text
catalog_suffix = codes "-source.json"

abbrev pub reversed : Option Text → Option Text
reversed none = none
reversed (some t) = some (reverse t)

-- str::strip_suffix
unfoldable pub strip_suffix : Text → Text → Option Text
unfolding strip_prefix
strip_suffix suffix s = reversed (strip_prefix (reverse suffix) (reverse s))

infixl 5 ◌>>=◌
abbrev pub ◌>>=◌ : {A B : Type 0} → Option A → (A → Option B) → Option B
none >>= f = none
some a >>= f = f a

-- filter(|sequence| *sequence > 0)
abbrev pub positive : ℕ → Option ℕ
positive n = if ltb 0 n then some n else none

-- the sequence that a file name encodes
unfoldable pub name_sequence : Text → Option ℕ
name_sequence name = do
  value ← strip_prefix catalog_prefix name
  number ← strip_suffix catalog_suffix value
  n ← parse_u64 number
  positive n

-- map_or(sequence, |current| current.max(sequence))
abbrev pub newest : Option ℕ → ℕ → ℕ
newest none sequence = sequence
newest (some current) sequence = max current sequence

-- A directory entry: an error, a name that is not UTF-8, or a name.
pub data Entry : Type 0 where
  unreadable foreign : Entry
  named : Text → Entry

-- what `read_dir` finds
pub data Directory : Type 0 where
  absent denied : Directory
  entries : List Entry → Directory

abbrev pub record_sequence : Option ℕ → Option ℕ → Option ℕ
record_sequence latest none = latest
record_sequence latest (some sequence) = some (newest latest sequence)

-- the variant of WizardError that a failed scan returns
pub data ScanError : Type 0 where
  io : ScanError

-- the loop over the entries
unfoldable pub scan_entries : Option ℕ → List Entry → Result ScanError (Option ℕ)
scan_entries latest [] = ok latest
scan_entries latest (unreadable ∷ rest) = err io
scan_entries latest (foreign ∷ rest) = scan_entries latest rest
scan_entries latest (named name ∷ rest) =
    scan_entries (record_sequence latest (name_sequence name)) rest

unfoldable pub local_latest_sequence : Directory → Result ScanError (Option ℕ)
local_latest_sequence absent = ok none
local_latest_sequence denied = err io
local_latest_sequence (entries es) = scan_entries none es

-- the numbers that `name_sequence` reads in the names of a directory
abbrev pub Reads : List Entry → ℕ → Type 0
Reads [] n = ⊥
Reads (named name ∷ rest) n = (name_sequence name ≡ some n) ⊎ Reads rest n
Reads (_ ∷ rest) n = Reads rest n

-- the greatest number with a property, or none where no number has it
abbrev pub IsGreatest : (ℕ → Type 0) → Option ℕ → Type 0
IsGreatest P none = (n : ℕ) → ¬ P n
IsGreatest P (some m) = P m × ((n : ℕ) → P n → n ≤ m)

-- the greatest does not change where the property does not, up to smaller numbers
pub IsGreatest-iff :
    (P Q : ℕ → Type 0) (r : Option ℕ)
    → ((n : ℕ) → P n → Q n)
    → ((n : ℕ) → Q n → (m : ℕ) × P m × (n ≤ m))
    → IsGreatest P r
    → IsGreatest Q r
IsGreatest-iff P Q none to of h = λ n q. let (m, p, _) = of n q in h m p
IsGreatest-iff P Q (some k) to of h =
    (to k h.0, λ n q. let (m, p, le) = of n q in omega (arith, h.1 m p))

-- what the rest of a scan will have seen
abbrev Seen : Option ℕ → List Entry → ℕ → Type 0
Seen latest es n = (latest ≡ some n) ⊎ Reads es n

some_inj : {a b : ℕ} → some a ≡ some b → a ≡ b
some_inj h = cc

to_Seen :
    (latest : Option ℕ) (name : Text) (rest : List Entry) (found : Option ℕ)
    → name_sequence name ≡ found
    → (n : ℕ) → Seen (record_sequence latest found) rest n
    → Seen latest (named name ∷ rest) n
to_Seen latest name rest none e n (inl p) = inl p
to_Seen latest name rest none e n (inr q) = inr (inr q)
to_Seen none name rest (some k) e n (inl p) = inr (inl (e ∙ p))
to_Seen (some j) name rest (some k) e n (inl p) = larger (dec_le j k)
  where
    larger : Dec (j ≤ k) → Seen (some j) (named name ∷ rest) n
    larger (yes le) = inr (inl (ground (arith, e, some_inj p)))
    larger (no gt) = inl (ground (arith, some_inj p, gt))
to_Seen latest name rest (some k) e n (inr q) = inr (inr q)

of_Seen :
    (latest : Option ℕ) (name : Text) (rest : List Entry) (found : Option ℕ)
    → name_sequence name ≡ found
    → (n : ℕ) → Seen latest (named name ∷ rest) n
    → (m : ℕ) × Seen (record_sequence latest found) rest m × (n ≤ m)
of_Seen latest name rest none e n (inl p) = (n, inl p, omega arith)
of_Seen latest name rest none e n (inr (inl p)) = cc
of_Seen latest name rest none e n (inr (inr q)) = (n, inr q, omega arith)
of_Seen none name rest (some k) e n (inl p) = cc
of_Seen (some j) name rest (some k) e n (inl p) = (max j k, inl refl, omega (arith, some_inj p))
of_Seen none name rest (some k) e n (inr (inl p)) =
    (k, inl refl, omega (arith, some_inj (sym e ∙ p)))
of_Seen (some j) name rest (some k) e n (inr (inl p)) =
    (max j k, inl refl, omega (arith, some_inj (sym e ∙ p)))
of_Seen latest name rest (some k) e n (inr (inr q)) = (n, inr q, omega arith)

scan-IsGreatest :
    (latest : Option ℕ) (es : List Entry) (r : Option ℕ)
    → scan_entries latest es ≡ ok r
    → IsGreatest (Seen latest es) r
unfolding scan_entries
scan-IsGreatest none [] r h =
    subst (IsGreatest (Seen none [])) (ok-injective h) (λ n s. elim s [ inl p ↦ cc | inr q ↦ q ])
scan-IsGreatest (some m) [] r h =
    subst (IsGreatest (Seen (some m) [])) (ok-injective h)
      (inl refl, λ n s. elim s [ inl p ↦ omega (arith, some_inj p) | inr q ↦ absurd q ])
scan-IsGreatest latest (unreadable ∷ rest) r h = ground arith
scan-IsGreatest latest (foreign ∷ rest) r h = scan-IsGreatest latest rest r h
scan-IsGreatest latest (named name ∷ rest) r h =
    let found = name_sequence name in
    IsGreatest-iff (Seen (record_sequence latest found) rest) (Seen latest (named name ∷ rest)) r
      (to_Seen latest name rest found refl) (of_Seen latest name rest found refl)
      (scan-IsGreatest (record_sequence latest found) rest r h)

-- the scan finds the greatest number that `name_sequence` reads
pub latest-IsGreatest :
    (es : List Entry) (r : Option ℕ)
    → local_latest_sequence (entries es) ≡ ok r
    → IsGreatest (Reads es) r
unfolding local_latest_sequence
latest-IsGreatest es r h =
    IsGreatest-iff (Seen none es) (Reads es) r (λ n s. elim s [ inl p ↦ ground arith | inr q ↦ q ])
      (λ n q. (n, inr q, omega arith)) (scan-IsGreatest none es r h)

-- The next sequence is one past what both sides record, and is given exactly where they agree and it
-- is below 2 ^ 64; a first release has sequence 1.
pub compare_sequences_iff :
    (recorded github : Option ℕ) (n : ℕ)
    → (compare_sequences recorded github ≡ ok n)
      ↔ ((recorded ≡ github) × (n ≡ or_zero recorded + 1) × (n < u64_limit))
unfolding compare_sequences
compare_sequences_iff none none n = (λ h. ground arith, λ h. ground arith)
compare_sequences_iff none (some b) n = (λ h. ground arith, λ h. ground arith)
compare_sequences_iff (some a) none n = (λ h. ground arith, λ h. ground arith)
compare_sequences_iff (some a) (some b) n = (λ h. ground arith, λ h. ground arith)
