-- ===== src/Wizard/State/RoundTrip.antt =====
-- crates/catalog-wizard/src/state.rs: a state that was saved is the state that is loaded.
use fluxsemble_runtime_catal.Base.{◌≡◌, refl, true, none, some, Text, ok}
use fluxsemble_runtime_catal.Wizard.State.{
  WizardState, Codec, Disk, missing, Calls, read_state_file, choose, settle, load, save,
}
use fluxsemble_runtime_catal.Wizard.State.Same.{Same}
use fluxsemble_runtime_catal.Wizard.State.Load.{Holds}
use fluxsemble_runtime_catal.Wizard.State.Save.{Storable, save_saves}

-- a load of a disk without a replacement returns what its state file holds, and changes nothing
load_settled :
    (codec : Codec) (s : WizardState) (c : Calls) (d : Disk)
    → Holds codec d.primary s
    → d.recovery ≡ missing
    → load codec c d ≡ (ok (some s), d)
unfolding load settle choose
load_settled codec s c d h e =
    let absent : read_state_file codec d.recovery ≡ ok none =
      rw e (unfold read_state_file in refl) in
    rw (h, absent) refl

-- Let `s` be a valid state whose canonical text fits a state file and decodes to `s`, and let the file that
-- the save writes be stable while it is read. After a save of `s` that succeeds, whatever the operating
-- system answered, a load returns a state equal to `s` and leaves the disk as it is, whatever the
-- operating system answers then. Equal states may spell the path of the work directory in two ways.
pub load-save :
    (codec : Codec) (s : WizardState) (bytes : Text)
    → Storable codec s bytes
    → (c : Calls) → (c.file_of bytes).is_stable ≡ true
    → (d : Disk) → (save codec c s d).0 ≡ ok tt
    → (t : WizardState) × Same t s
      × ((c' : Calls) → load codec c' (save codec c s d).1 ≡ (ok (some t), (save codec c s d).1))
load-save codec s bytes storable c stable d saved =
    let ((t, held, same), gone) = (save_saves codec s bytes storable c stable d).done saved in
    (t, same, λ c'. load_settled codec t c' (save codec c s d).1 held gone)
