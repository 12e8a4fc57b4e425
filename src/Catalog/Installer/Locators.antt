-- ===== src/Catalog/Installer/Locators.antt =====
-- crates/catalog-core/src/pi_installer_lock.rs: which locators `validate_locator` admits, and that the
-- rounds given to its loop are enough.
use mathlib.Core.Path.{subst}
use fluxsemble_runtime_catal.Base.{
  ℕ, zero, suc, ◌+◌, ◌<◌, ◌≡◌, refl, sym, ap, ◌∙◌, true, Option, none, some, List, [], ◌∷◌, ◌++◌,
  Text, ok, err, ensure, length, length-append, drop, All, arith, require-eq-ok, ensure-eq-ok,
  ok-injective, Bool-cases, inl, inr,
}
use fluxsemble_runtime_catal.Strings.{text_eq, is_empty, strip_prefix, split_once_text}
use fluxsemble_runtime_catal.Strings.Split.{text_eq_sound}
use fluxsemble_runtime_catal.Strings.Prefixes.{
  strip_prefix_sound, split_once_text_sound, drop-append,
}
use fluxsemble_runtime_catal.Catalog.Scalars.{valid_package_name}
use fluxsemble_runtime_catal.Catalog.Require.{Core, invalid_catalog}
use fluxsemble_runtime_catal.Catalog.Parse.{parse_package_name}
use fluxsemble_runtime_catal.Catalog.Installer.{
  modules_prefix, nested_prefix, Round, stop, again, nested_round, tail_round, locator_round,
  locator_loop, validate_locator,
}

-- the directory of a package that is installed below other packages, the outermost first
pub locator_path : List Text → Text → Text
locator_path [] name = modules_prefix ++ name
locator_path (parent ∷ parents) name = modules_prefix ++ parent ++ b'/' ∷ locator_path parents name

abbrev pub IsPackageName : Text → Type 0
IsPackageName s = valid_package_name s ≡ true

-- the locator of a package `name`, below packages with valid names
abbrev pub IsLocator : Text → Text → Type 0
IsLocator locator name =
    (parents : List Text) × All IsPackageName parents × (locator ≡ locator_path parents name)

-- What a round returns: the end, or a text that is shorter, and whose locator gives that of `rest`.
record IsRound (rest name : Text) (r : Round) : Type 0 where
  stopped : (c : Core (Unit {0})) → r ≡ stop c → c ≡ ok tt → rest ≡ modules_prefix ++ name
  continued :
      (rest' : Text)
      → r ≡ again rest'
      → (length rest' < length rest)
        × ((parent : Text) × IsPackageName parent
            × (rest ≡ modules_prefix ++ parent ++ b'/' ∷ rest'))

stop-IsRound :
    (rest name : Text) (d : Core (Unit {0}))
    → (d ≡ ok tt → rest ≡ modules_prefix ++ name)
    → IsRound rest name (stop d)
stop-IsRound rest name d h = record {
  stopped = λ c e k. let q : d ≡ c = cc in h (q ∙ k);
  continued = λ rest' e. ground arith;
}

again-IsRound :
    (rest name next parent : Text)
    → length next < length rest
    → IsPackageName parent
    → rest ≡ modules_prefix ++ parent ++ b'/' ∷ next
    → IsRound rest name (again next)
again-IsRound rest name next parent shorter valid h = record {
  stopped = λ c e k. ground arith;
  continued = λ rest' e.
      let q : next ≡ rest' = cc in
      subst
        (λ (r : Text).
          (length r < length rest)
          × ((p : Text) × IsPackageName p × (rest ≡ modules_prefix ++ p ++ b'/' ∷ r)))
        q (shorter, (parent, valid, h));
}

parse_package_name_lem : (s q : Text) → parse_package_name s ≡ ok q → (s ≡ q) × IsPackageName q
unfolding parse_package_name
parse_package_name_lem s q h =
    let (valid, same) = ensure-eq-ok invalid_catalog (valid_package_name s) (ok s) h in
    let e : s ≡ q = ok-injective same in (e, subst IsPackageName e valid)

nested-append : (next : Text) → nested_prefix ++ next ≡ b'/' ∷ (modules_prefix ++ next)
nested-append next = refl

nested-IsRound :
    (rest name parent next : Text)
    → IsPackageName parent
    → rest ≡ modules_prefix ++ parent ++ (nested_prefix ++ next)
    → IsRound rest name (nested_round (parent ++ (nested_prefix ++ next)) next (ok parent))
unfolding nested_round
nested-IsRound rest name parent next valid h = elim (Bool-cases (is_empty next)) [
  | inl e ↦ rw e (stop-IsRound rest name (err invalid_catalog) (λ k. ground arith))
  | inr e ↦
      let cut : drop (length parent + 1) (parent ++ (nested_prefix ++ next))
          ≡ modules_prefix ++ next =
        ap (λ t. drop (length parent + 1) (parent ++ t)) (nested-append next)
        ∙ drop-append parent (modules_prefix ++ next) b'/' in
      let size : length rest ≡ length (modules_prefix ++ (parent ++ (nested_prefix ++ next))) =
        ap length h in
      let inner : length (parent ++ (nested_prefix ++ next))
          ≡ length parent + length (nested_prefix ++ next) =
        length-append parent (nested_prefix ++ next) in
      let shorter : length (modules_prefix ++ next) < length rest = ground (arith, size, inner) in
      rw (e, cut) (again-IsRound rest name (modules_prefix ++ next) parent shorter valid h)
]

tail-IsRound :
    (rest name tail : Text) (split : Option (Text × Text))
    → split_once_text nested_prefix tail ≡ split
    → rest ≡ modules_prefix ++ tail
    → IsRound rest name (tail_round name tail split)
unfolding tail_round
tail-IsRound rest name tail none e h =
    stop-IsRound rest name (ensure invalid_catalog (text_eq tail name)) (λ k.
      h
      ∙ ap (λ t. modules_prefix ++ t)
          (text_eq_sound tail name (require-eq-ok invalid_catalog (text_eq tail name) k)))
tail-IsRound rest name tail (some (parent, next)) e h = parsed (parse_package_name parent) refl
  where
    whole : tail ≡ parent ++ (nested_prefix ++ next)
    whole = split_once_text_sound nested_prefix tail parent next e

    parsed :
        (r : Core Text)
        → parse_package_name parent ≡ r
        → IsRound rest name (nested_round tail next r)
    parsed (err x) p = unfold nested_round in stop-IsRound rest name (err x) (λ k. ground arith)
    parsed (ok q) p =
        let (same, valid) = parse_package_name_lem parent q p in
        let whole' : tail ≡ q ++ (nested_prefix ++ next) =
          whole ∙ ap (λ s. s ++ (nested_prefix ++ next)) same in
        subst (λ t. IsRound rest name (nested_round t next (ok q))) (sym whole')
          (nested-IsRound rest name q next valid (h ∙ ap (λ t. modules_prefix ++ t) whole'))

locator_round-IsRound :
    (rest name : Text) (stripped : Option Text)
    → strip_prefix modules_prefix rest ≡ stripped
    → IsRound rest name (locator_round name stripped)
unfolding locator_round
locator_round-IsRound rest name none e =
    stop-IsRound rest name (err invalid_catalog) (λ k. ground arith)
locator_round-IsRound rest name (some tail) e =
    tail-IsRound rest name tail (split_once_text nested_prefix tail) refl
      (strip_prefix_sound modules_prefix rest tail e)

after : ℕ → Text → Round → Core (Unit {0})
after fuel name (stop c) = c
after fuel name (again rest) = locator_loop fuel rest name

locator_loop-after :
    (fuel : ℕ) (rest name : Text)
    → locator_loop (suc fuel) rest name
      ≡ after fuel name (locator_round name (strip_prefix modules_prefix rest))
unfolding locator_loop after
locator_loop-after fuel rest name = refl

-- a locator that is admitted is a locator of the name, whatever the rounds
locator_loop_sound :
    (fuel : ℕ) (rest name : Text) → locator_loop fuel rest name ≡ ok tt → IsLocator rest name
unfolding after
locator_loop_sound zero rest name h = unfold locator_loop in ground arith
locator_loop_sound (suc fuel) rest name h =
    last (λ rest' k. locator_loop_sound fuel rest' name k)
      (locator_round name (strip_prefix modules_prefix rest))
      (locator_round-IsRound rest name (strip_prefix modules_prefix rest) refl)
      (sym (locator_loop-after fuel rest name) ∙ h)
  where
    last :
        ((rest' : Text) → locator_loop fuel rest' name ≡ ok tt → IsLocator rest' name)
        → (r : Round) → IsRound rest name r
        → after fuel name r ≡ ok tt
        → IsLocator rest name
    last earlier (stop c) i k = ([], tt, unfold locator_path in i.stopped c refl k)
    last earlier (again rest') i k =
        let (parent, valid, e) = (i.continued rest' refl).1 in
        let (parents, all_valid, e') = earlier rest' k in
        (
          parent ∷ parents,
          (valid, all_valid),
          unfold locator_path in (e ∙ ap (λ t. modules_prefix ++ parent ++ b'/' ∷ t) e'),
        )

-- A locator that is admitted for a package is "node_modules/" and the name of each package above it,
-- the outermost first, then "node_modules/" and the package's own name, joined by slashes; the names
-- above it are valid package names.
pub validate_locator_sound :
    (locator name : Text) → validate_locator locator name ≡ ok tt → IsLocator locator name
unfolding validate_locator
validate_locator_sound locator name h = locator_loop_sound (length locator + 1) locator name h

-- two numbers of rounds above the bytes of the text give the same result
rounds_agree :
    (name : Text) (f g : ℕ) (rest : Text)
    → length rest < f
    → length rest < g
    → locator_loop f rest name ≡ locator_loop g rest name
unfolding after
rounds_agree name zero g rest h k = absurd (omega arith)
rounds_agree name (suc f) zero rest h k = absurd (omega arith)
rounds_agree name (suc f) (suc g) rest h k =
    locator_loop-after f rest name
    ∙ next (λ rest' i j. rounds_agree name f g rest' i j)
        (locator_round name (strip_prefix modules_prefix rest))
        (locator_round-IsRound rest name (strip_prefix modules_prefix rest) refl)
    ∙ sym (locator_loop-after g rest name)
  where
    next :
        ((rest' : Text)
          → length rest' < f
          → length rest' < g
          → locator_loop f rest' name ≡ locator_loop g rest' name)
        → (r : Round) → IsRound rest name r
        → after f name r ≡ after g name r
    next same (stop c) i = refl
    next same (again rest') i =
        let (shorter, _) = i.continued rest' refl in same rest' (omega arith) (omega arith)

-- more rounds than the locator has bytes do not change the answer of its loop
pub locator_loop_enough :
    (fuel : ℕ) (rest name : Text)
    → length rest < fuel
    → locator_loop fuel rest name ≡ validate_locator rest name
unfolding validate_locator
locator_loop_enough fuel rest name h = rounds_agree name fuel (length rest + 1) rest h (omega arith)
