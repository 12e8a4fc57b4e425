-- ===== src/Wizard/State/Load.antt =====
-- crates/catalog-wizard/src/state.rs: loading a state never goes back to an older one.
use fluxsemble_runtime_catal.Wizard.State.Same.{SameRelease, same_release-SameRelease}
use fluxsemble_runtime_catal.Base.{
  ◌≤◌, ◌≡◌, refl, true, ◌⊎◌, inl, inr, Option, none, some, Result, ok, err, ensure, arith,
  Bool-cases, and_parts, leb,
}
use fluxsemble_runtime_catal.Wizard.State.{
  WizardState, Codec, Disk, Place, missing, unopenable, present, Calls, Outcome, WizardError,
  phase_rank, same_release, read_state_file, install_recovery, remove_place, remove_recovery,
  continue, advances, choose, settle, load,
}

-- `q` is the state `p`, or a state of the same release that is at least as far
abbrev pub Follows : WizardState → WizardState → Type 0
Follows p q = (p ≡ q) ⊎ (SameRelease p q × (phase_rank p.phase ≤ phase_rank q.phase))

primary-remove_place :
    (c : Calls) (place : Place) (d : Disk) → (remove_place c place d).1.primary ≡ d.primary
primary-remove_place c missing d = refl
primary-remove_place c (unopenable _) d = ground arith
primary-remove_place c (present f) d = ground arith

pub primary-remove : (c : Calls) (d : Disk) → (remove_recovery c d).1.primary ≡ d.primary
unfolding remove_recovery
primary-remove c d = primary-remove_place c d.recovery d

module _ (codec : Codec) where
  abbrev pub Holds : Place → WizardState → Type 0
  Holds place s = read_state_file codec place ≡ ok (some s)

  -- What a load of a disk that holds `p` leaves, failed or not: the disk holds a state that follows
  -- `p`, and a load that succeeded returned that state.
  pub record Kept (p : WizardState) (o : Outcome (Option WizardState)) : Type 0 where
    pub now : WizardState
    pub holds : Holds o.1.primary now
    pub follows : Follows p now
    pub returned : (r : Option WizardState) → o.0 ≡ ok r → r ≡ some now

  continue_keeps :
      (p : WizardState) (o : Outcome (Unit {0}))
      → Holds o.1.primary p
      → Kept p (continue o (λ d'. (ok (some p), d')))
  continue_keeps p (ok u, d) h = record {
    now = p;
    holds = h;
    follows = inl refl;
    returned = λ r x. ground arith;
  }
  continue_keeps p (err e, d) h = record {
    now = p;
    holds = h;
    follows = inl refl;
    returned = λ r x. ground arith;
  }

  remove_keeps :
      (c : Calls) (d : Disk) (p : WizardState)
      → Holds d.primary p
      → Kept p (continue (remove_recovery c d) (λ d'. (ok (some p), d')))
  remove_keeps c d p h = continue_keeps p (remove_recovery c d) (rw primary-remove h)

  install_keeps :
      (c : Calls) (d : Disk) (p q : WizardState)
      → Holds d.primary p
      → Holds d.recovery q
      → Follows p q
      → Kept p (continue (install_recovery c d) (λ d'. (ok (some q), d')))
  unfolding install_recovery ensure
  install_keeps c d p q h k f = elim (Bool-cases c.renamed) [
    | inl e ↦ elim (Bool-cases c.rename_synced) [
      | inl s ↦
          rw (e, s) (record { now = q; holds = k; follows = f; returned = λ r x. ground arith })
      | inr s ↦
          rw (e, s) (record { now = q; holds = k; follows = f; returned = λ r x. ground arith })
    ]
    | inr e ↦
        rw e (record { now = p; holds = h; follows = inl refl; returned = λ r x. ground arith })
  ]

  advances-Follows : (p q : WizardState) → advances p q ≡ true → Follows p q
  unfolding advances
  advances-Follows p q h =
      let (same, further) =
        and_parts (same_release p q) (leb (phase_rank p.phase) (phase_rank q.phase)) h in
      inr (same_release-SameRelease p q same, ground arith)

  settle_keeps :
      (c : Calls) (d : Disk) (p : WizardState) (r : Result WizardError (Option WizardState))
      → Holds d.primary p
      → read_state_file codec d.recovery ≡ r
      → Kept p (settle c d (some p) r)
  unfolding settle choose
  settle_keeps c d p (err e) h k = remove_keeps c d p h
  settle_keeps c d p (ok none) h k = record {
    now = p;
    holds = h;
    follows = inl refl;
    returned = λ r x. ground arith;
  }
  settle_keeps c d p (ok (some q)) h k = elim (Bool-cases (advances p q)) [
    | inl e ↦ rw e (install_keeps c d p q h k (advances-Follows p q e))
    | inr e ↦ rw e (remove_keeps c d p h)
  ]

  -- A disk whose state file holds a valid state `p` still holds one after a load, whatever the
  -- operating system answers and whatever stands in the place of the replacement: `p` itself, or a
  -- state of the same release at the same or a later phase. A load that succeeds returns that state. Two
  -- states are of one release if every field but the phase is the same and their work directories have
  -- the same path components.
  pub load_keeps :
      (c : Calls) (d : Disk) (p : WizardState) → Holds d.primary p → Kept p (load codec c d)
  unfolding load
  load_keeps c d p h = rw h (settle_keeps c d p (read_state_file codec d.recovery) h refl)
