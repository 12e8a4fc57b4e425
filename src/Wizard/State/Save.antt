-- ===== src/Wizard/State/Save.antt =====
-- crates/catalog-wizard/src/state.rs: a save replaces the state as a whole or not at all.
use mathlib.Core.Path.{subst}
use fluxsemble_runtime_catal.Base.{
  ◌≤◌, ◌≡◌, ◌≢◌, refl, Bool, true, false, ◌⊎◌, inl, inr, Option, none, some, Text, Result, ok, err,
  ensure, ◌>>=◌, arith, Bool-cases, length, leb, ◌==◌, ensure-eq-ok, require-eq-ok, if◌then◌else◌,
}
use fluxsemble_runtime_catal.Strings.{text_eq}
use fluxsemble_runtime_catal.Strings.Split.{text_eq_sound, text_eq_refl}
use fluxsemble_runtime_catal.Wizard.State.{
  WizardState, WizardError, Codec, File, Disk, Place, missing, unopenable, present, Calls, Outcome,
  state, same_state, place_exists, replace_or_reuse, max_state_bytes, valid_state, admissible_file,
  read_file, read_state_file, verify_open_state_file, without_recovery, install_recovery,
  remove_recovery, continue, write_recovery, clean_up, create_recovery, replace, reuse, save,
}
use fluxsemble_runtime_catal.Wizard.State.Same.{Same, Same-refl, same_state-Same}
use fluxsemble_runtime_catal.Wizard.State.Load.{Holds, primary-remove}

-- What the canonical text of a state is to the codec and the disk.
pub record Storable (codec : Codec) (s : WizardState) (bytes : Text) : Type 0 where
  pub valid : valid_state s ≡ true
  pub encoded : codec.to_vec s ≡ some bytes
  -- the decoder reads back what the canonicalizer wrote
  pub decoded : codec.from_slice bytes ≡ some s
  pub nonempty : length bytes ≢ 0
  pub fits : length bytes ≤ max_state_bytes

-- the place holds a state that is equal to `s`
abbrev pub HoldsSame : Codec → Place → WizardState → Type 0
HoldsSame codec place s = (t : WizardState) × Holds codec place t × Same t s

-- a save of `s` to the disk `d`: the state file is the old one, or holds a state equal to `s`; after a
-- success it holds one, and no replacement is left
pub record Saved (codec : Codec) (s : WizardState) (d : Disk) (o : Outcome (Unit {0}))
    : Type 0 where
  pub whole : (o.1.primary ≡ d.primary) ⊎ HoldsSame codec o.1.primary s
  pub done : o.0 ≡ ok tt → HoldsSame codec o.1.primary s × (o.1.recovery ≡ missing)

verified :
    (f : File) (bytes : Text)
    → verify_open_state_file f bytes ≡ ok tt
    → (f.is_file ≡ true)
      × (f.is_owned ≡ true)
      × (f.is_single ≡ true)
      × (f.is_private ≡ true)
      × (f.is_readable ≡ true)
      × (f.bytes ≡ bytes)
unfolding verify_open_state_file
verified f bytes h =
    let (attributes, h₁) = ensure-eq-ok state _ _ h in
    let (readable, h₂) = ensure-eq-ok state _ _ h₁ in
    let same = require-eq-ok state (text_eq f.bytes bytes) h₂ in
    (
      ground arith,
      ground arith,
      ground arith,
      ground arith,
      readable,
      text_eq_sound f.bytes bytes same,
    )

module _ (codec : Codec) (s : WizardState) (bytes : Text) (storable : Storable codec s bytes) where
  reads : (f : File) → admissible_file f ≡ true → f.bytes ≡ bytes → read_file codec f ≡ ok (some s)
  unfolding read_file ◌>>=◌ ensure
  reads f a e = rw (a, e, storable.decoded, storable.valid, storable.encoded, text_eq_refl bytes)

  verified_reads :
      (f : File)
      → f.is_stable ≡ true
      → verify_open_state_file f bytes ≡ ok tt
      → read_file codec f ≡ ok (some s)
  verified_reads f stable h =
      let (a, b, c, d, r, e) = verified f bytes h in reads f (admissible f stable a b c d r e) e
    where
      admissible :
          (f : File)
          → f.is_stable ≡ true
          → f.is_file ≡ true
          → f.is_owned ≡ true
          → f.is_single ≡ true
          → f.is_private ≡ true
          → f.is_readable ≡ true
          → f.bytes ≡ bytes
          → admissible_file f ≡ true
      admissible f stable a b c d r e =
          let fits : leb (length f.bytes) max_state_bytes ≡ true =
            rw e (ground (arith, storable.fits)) in
          let filled : (length f.bytes == 0) ≡ false = rw e (ground (arith, storable.nonempty)) in
          unfold admissible_file in rw (a, b, c, d, r, stable, fits, filled)

  install_saves :
      (c : Calls) (d : Disk) → HoldsSame codec d.recovery s → Saved codec s d (install_recovery c d)
  unfolding install_recovery ensure
  install_saves c d h = elim (Bool-cases c.renamed) [
    | inl e ↦ rw e (record { whole = inr h; done = λ _. (h, refl) })
    | inr e ↦ rw e (record { whole = inl refl; done = λ x. ground arith })
  ]

  failed :
      (d : Disk) (o : Outcome (Unit {0})) (e : WizardError)
      → o.1.primary ≡ d.primary
      → o.0 ≡ err e
      → Saved codec s d o
  failed d o e p h = record { whole = inl p; done = λ x. ground arith }

  continue_saves :
      (d : Disk) (o : Outcome (Unit {0})) (next : Disk → Outcome (Unit {0}))
      → o.1.primary ≡ d.primary
      → ((d' : Disk) → d'.primary ≡ d.primary → Saved codec s d (next d'))
      → Saved codec s d (continue o next)
  continue_saves d (ok u, d') next p k = k d' p
  continue_saves d (err e, d') next p k = failed d (err e, d') e p refl

  clean_saves :
      (c : Calls) (d : Disk) (o : Outcome (Unit {0}))
      → Saved codec s d o
      → Saved codec s d (clean_up c o)
  clean_saves c d (ok u, d') h = h
  clean_saves c d (err e, d') h = record {
    whole = kept c.cleaned h.whole;
    done = λ x. ground arith;
  }
    where
      kept :
          (b : Bool)
          → (d'.primary ≡ d.primary) ⊎ HoldsSame codec d'.primary s
          → ((if b then without_recovery d' else d').primary ≡ d.primary)
            ⊎ HoldsSame codec (if b then without_recovery d' else d').primary s
      kept true w = w
      kept false w = w

  rebase :
      (d d' : Disk) (o : Outcome (Unit {0}))
      → d'.primary ≡ d.primary
      → Saved codec s d' o
      → Saved codec s d o
  rebase d d' o e h = record {
    whole = subst (λ q. (o.1.primary ≡ q) ⊎ HoldsSame codec o.1.primary s) e h.whole;
    done = h.done;
  }

  -- a name for one branch of the test on the written file
  checked_saves :
      (c : Calls) (d d' : Disk) (r : Result WizardError (Unit {0}))
      → d'.primary ≡ d.primary
      → (r ≡ ok tt → HoldsSame codec d'.recovery s)
      → Saved codec s d (continue (r, d') (install_recovery c))
  checked_saves c d d' (ok tt) e h =
      rebase d d' (install_recovery c d') e (install_saves c d' (h refl))
  checked_saves c d d' (err x) e h = failed d (err x, d') x e refl

  module _ (c : Calls) (stable : (c.file_of bytes).is_stable ≡ true) where
    write_saves : (d : Disk) → Saved codec s d (write_recovery c bytes d)
    unfolding write_recovery read_state_file
    write_saves d =
        let d' : Disk = record d { recovery = present (c.file_of bytes) } in
        elim (Bool-cases c.written) [
          | inl e ↦ simp e (
              checked_saves c d d' (verify_open_state_file (c.file_of bytes) bytes) refl
                (λ h. (s, verified_reads (c.file_of bytes) stable h, Same-refl s)))
          | inr e ↦ simp e (failed d (err state, d') state refl refl)
        ]

    create_saves : (d : Disk) (place : Place) → Saved codec s d (create_recovery c bytes d place)
    create_saves d missing = elim (Bool-cases c.created) [
      | inl e ↦ simp e (clean_saves c d (write_recovery c bytes d) (write_saves d))
      | inr e ↦ simp e (failed d (err state, d) state refl refl)
    ]
    create_saves d (unopenable _) = failed d (err state, d) state refl refl
    create_saves d (present f) = failed d (err state, d) state refl refl

    replace_saves : (d d' : Disk) → d'.primary ≡ d.primary → Saved codec s d (replace c bytes d')
    unfolding replace
    replace_saves d d' e =
        rebase d d' (create_recovery c bytes d' d'.recovery) e (create_saves d' d'.recovery)

    reuse_saves :
        (d : Disk) (r : Result WizardError (Option WizardState))
        → read_state_file codec d.recovery ≡ r
        → Saved codec s d (reuse c s bytes d r)
    unfolding reuse
    reuse_saves d (err x) h =
        continue_saves d (remove_recovery c d) (replace c bytes) (primary-remove c d)
          (λ d' e. replace_saves d d' e)
    reuse_saves d (ok none) h = replace_saves d d refl
    reuse_saves d (ok (some pending)) h = elim (Bool-cases (same_state pending s)) [
      | inl e ↦ rw e (install_saves c d (pending, h, same_state-Same pending s e))
      | inr e ↦ rw e (
          continue_saves d (remove_recovery c d) (replace c bytes) (primary-remove c d)
            (λ d' k. replace_saves d d' k))
    ]

    replace_or_reuse_saves :
        (d : Disk) (b : Bool) → Saved codec s d (replace_or_reuse codec c s bytes d b)
    replace_or_reuse_saves d true = reuse_saves d (read_state_file codec d.recovery) refl
    replace_or_reuse_saves d false = replace_saves d d refl

    -- Let `s` be a valid state whose canonical text fits a state file and decodes to `s`, and let the file
    -- that the save writes be stable while it is read. Then, whatever the operating system answers
    -- to each call and whatever replacement was there before, a save of `s` leaves the state file as
    -- it was or holding a state equal to `s`; if it succeeds, the file holds such a state and no
    -- replacement is left. Equal states may spell the path of the work directory in two ways.
    pub save_saves : (d : Disk) → Saved codec s d (save codec c s d)
    unfolding save
    save_saves d = elim (Bool-cases c.directory_private) [
      | inl e ↦
          simp (storable.valid, e, storable.encoded)
            (replace_or_reuse_saves d (place_exists d.recovery))
      | inr e ↦ simp (storable.valid, e) (failed d (err state, d) state refl refl)
    ]
