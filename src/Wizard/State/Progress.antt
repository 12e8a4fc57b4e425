-- ===== src/Wizard/State/Progress.antt =====
-- crates/catalog-wizard/src/state.rs: a save succeeds where the operating system does.
use fluxsemble_runtime_catal.Base.{
  ◌≡◌, ◌↔◌, refl, true, false, Option, none, some, Text, Result, ok, err, ensure, ◌≢◌, Ensures,
  Ensures-ensure, Ensures-bind, Ensures-ok, arith, Bool-cases, inl, inr,
}
use fluxsemble_runtime_catal.Wizard.State.{
  WizardState, WizardError, Codec, File, Disk, Place, missing, unopenable, present, Calls,
  same_state, valid_state, read_state_file, read_file, without_recovery, verify_open_state_file,
  install_recovery, remove_place, remove_recovery, continue, write_recovery, clean_up,
  create_recovery, replace, reuse, place_exists, replace_or_reuse, save,
}

-- Every call succeeds, and the writes leave a private file of the user's own with the bytes written.
pub record IsWorking (c : Calls) (bytes : Text) : Type 0 where
  pub removed : c.removed ≡ true
  pub removal_synced : c.removal_synced ≡ true
  pub renamed : c.renamed ≡ true
  pub rename_synced : c.rename_synced ≡ true
  pub directory_private : c.directory_private ≡ true
  pub created : c.created ≡ true
  pub written : c.written ≡ true
  pub file_verified : verify_open_state_file (c.file_of bytes) bytes ≡ ok tt

-- a file that is read is never taken for a missing one
read_file_some : (codec : Codec) (f : File) → Ensures (λ r. r ≢ none) (read_file codec f)
unfolding read_file
read_file_some codec f = Ensures-ensure _ _ _ λ _. Ensures-bind _ _ λ decoded _.
    Ensures-ensure _ _ _ λ _.
      Ensures-bind _ _ λ canonical _. Ensures-ensure _ _ _ λ _. Ensures-ok _ (λ e. ground arith)

absent : (codec : Codec) (place : Place) → read_state_file codec place ≡ ok none → place ≡ missing
unfolding read_state_file
absent codec missing h = refl
absent codec (unopenable _) h = ground arith
absent codec (present f) h = absurd ((read_file_some codec f).at none h refl)

module _ (c : Calls) (bytes : Text) (w : IsWorking c bytes) where
  install_ok : (d : Disk) → (install_recovery c d).0 ≡ ok tt
  unfolding install_recovery ensure
  install_ok d = rw (w.renamed, w.rename_synced) refl

  write_ok : (d : Disk) → (write_recovery c bytes d).0 ≡ ok tt
  unfolding write_recovery
  write_ok d =
      simp (w.written, w.file_verified)
        (install_ok (record d { recovery = present (c.file_of bytes) }))

  create_ok : (d : Disk) → (create_recovery c bytes d missing).0 ≡ ok tt
  create_ok d = simp w.created (cleaned (write_recovery c bytes d) (write_ok d))
    where
      cleaned : (o : Result WizardError (Unit {0}) × Disk) → o.0 ≡ ok tt → (clean_up c o).0 ≡ ok tt
      cleaned (ok u, d) h = h
      cleaned (err e, d) h = ground arith

  removed_ok :
      (place : Place) (d : Disk)
      → d.recovery ≡ place
      → (continue (remove_place c place d) (replace c bytes)).0 ≡ ok tt
  unfolding replace ensure
  removed_ok missing d e = rw e (create_ok d)
  removed_ok (unopenable _) d e =
      simp (w.removed, w.removal_synced) (create_ok (without_recovery d))
  removed_ok (present f) d e = simp (w.removed, w.removal_synced) (create_ok (without_recovery d))

  reuse_ok :
      (codec : Codec) (s : WizardState) (d : Disk) (r : Result WizardError (Option WizardState))
      → read_state_file codec d.recovery ≡ r
      → (reuse c s bytes d r).0 ≡ ok tt
  unfolding reuse remove_recovery
  reuse_ok codec s d (err e) h = removed_ok d.recovery d refl
  reuse_ok codec s d (ok (some pending)) h = elim (Bool-cases (same_state pending s)) [
    | inl e ↦ rw e (install_ok d)
    | inr e ↦ rw e (removed_ok d.recovery d refl)
  ]
  reuse_ok codec s d (ok none) h =
      let e = absent codec d.recovery h in unfold replace in simp e (create_ok d)

  -- the replacement is a link that leads nowhere, or `exists` cannot tell
  dangling_fails : (d : Disk) → d.recovery ≡ unopenable false → (replace c bytes d).0 ≢ ok tt
  unfolding replace
  dangling_fails d e h = ground (arith, e, h)

  replace_or_reuse_iff :
      (codec : Codec) (s : WizardState) (d : Disk) (place : Place)
      → d.recovery ≡ place
      → ((replace_or_reuse codec c s bytes d (place_exists place)).0 ≡ ok tt)
        ↔ (place ≢ unopenable false)
  replace_or_reuse_iff codec s d missing e =
      (λ h n. ground (arith, n), λ n. unfold replace in simp e (create_ok d))
  replace_or_reuse_iff codec s d (unopenable false) e =
      (λ h n. dangling_fails d e h, λ n. absurd (n refl))
  replace_or_reuse_iff codec s d (unopenable true) e =
      (λ h n. ground (arith, n), λ n. reuse_ok codec s d (read_state_file codec d.recovery) refl)
  replace_or_reuse_iff codec s d (present f) e =
      (λ h n. ground (arith, n), λ n. reuse_ok codec s d (read_state_file codec d.recovery) refl)

  -- Where every call succeeds and the file written verifies, a save of a valid state that has a
  -- canonical text succeeds exactly when the replacement that was there before, if any, is not one that
  -- can neither be opened nor found by `exists`, such as a link that leads nowhere.
  pub save_iff :
      (codec : Codec) (s : WizardState)
      → valid_state s ≡ true
      → codec.to_vec s ≡ some bytes
      → (d : Disk) → ((save codec c s d).0 ≡ ok tt) ↔ (d.recovery ≢ unopenable false)
  unfolding save
  save_iff codec s valid encoded d =
      simp (valid, w.directory_private, encoded) (replace_or_reuse_iff codec s d d.recovery refl)
