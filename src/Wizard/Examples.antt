-- ===== src/Wizard/Examples.antt =====
-- crates/catalog-wizard/src/state.rs, sequence.rs and release.rs: runs on concrete data.
use mathlib.Core.Bool.{decide}
use fluxsemble_runtime_catal.Base.{
  ℕ, ◌+◌, ◌↔◌, ◌>>=◌, ensure, ◌<◌, ◌≡◌, ◌≢◌, refl, true, false, Option, none, some, List, [], ◌∷◌,
  Text, codes, ok, arith,
}
use fluxsemble_runtime_catal.Strings.{text_eq, split, starts_with, strip_prefix}
use fluxsemble_runtime_catal.Strings.Decimal.{u64_limit, parse_u64}
use fluxsemble_runtime_catal.Wizard.State.{
  verify_open_state_file, reuse, install_recovery, ReleasePhase-discrete, same_state, same_release,
  same_path, same_components, path_components, names, unopenable, WizardState, ReleasePhase, Codec,
  File, present, Disk, Calls, RunMode, dry_run, publish_capable, planned, approved, valid_state,
  read_state_file, read_file, admissible_file, load, save, phase_rank,
}
use fluxsemble_runtime_catal.Wizard.State.Same.{Same}
use fluxsemble_runtime_catal.Wizard.State.Load.{Holds, Kept, load_keeps}
use fluxsemble_runtime_catal.Wizard.State.RoundTrip.{load-save}
use fluxsemble_runtime_catal.Wizard.State.Progress.{IsWorking, save_iff}
use fluxsemble_runtime_catal.Wizard.State.Save.{Storable, Saved, save_saves}
use fluxsemble_runtime_catal.Wizard.Sequence.{
  Entry, foreign, named, local_latest_sequence, scan_entries, name_sequence, strip_suffix,
  IsGreatest, compare_sequences, compare_sequences_iff, or_zero,
}
use fluxsemble_runtime_catal.Wizard.Sequence.Names.{Encodes, local_latest-IsGreatest}
use fluxsemble_runtime_catal.Wizard.Drive.{
  Release, Machine, running, done, drive_release, perform_all, perform, round,
}
use fluxsemble_runtime_catal.Wizard.Drive.Order.{
  Consented, IsDry, drive-Consented, drive-IsDry, drive_release-ends,
}

abbrev first_state : WizardState
first_state = record {
  schema_version = 1;
  sequence = 4;
  pi_version = codes "0.1.0";
  node_version = codes "22.0.0";
  target = codes "linux_x86_64";
  mode = publish_capable;
  phase = planned;
  signing_key_generation = 1;
  catalog_source_commit = codes "0123456789012345678901234567890123456789";
  catalog_source_tree_sha256 =
      codes "0123456789012345678901234567890123456789012345678901234567890123";
  work_dir = codes "/work";
}

-- the same release, at its last but one phase; its work directory is spelled in another way
abbrev later_state : WizardState
later_state = record first_state { phase = approved; work_dir = codes "/work/" }

-- a canonicalizer for two states, and the decoder of its texts
abbrev encode : ReleasePhase → Option Text
encode planned = some (codes "a")
encode approved = some (codes "bb")
encode _ = none

abbrev decode : Text → Option WizardState
decode [] = none
decode (_ ∷ []) = some first_state
decode (_ ∷ _ ∷ _) = some later_state

abbrev two_states : Codec
two_states = record { from_slice = decode; to_vec = λ s. encode s.phase }

abbrev sound_file : Text → File
sound_file bytes = record {
  is_file = true;
  is_owned = true;
  is_single = true;
  is_private = true;
  is_readable = true;
  is_stable = true;
  bytes = bytes;
}

abbrev working : Calls
working = record {
  removed = true;
  removal_synced = true;
  renamed = true;
  rename_synced = true;
  directory_private = true;
  created = true;
  written = true;
  file_of = sound_file;
  cleaned = true;
}

-- the disk after a crash between the write of a replacement and its rename
abbrev interrupted : Disk
interrupted = record {
  primary = present (sound_file (codes "a"));
  recovery = present (sound_file (codes "bb"));
}

first_held : Holds two_states (present (sound_file (codes "a"))) first_state
unfolding read_state_file read_file ◌>>=◌ ensure admissible_file valid_state text_eq starts_with
first_held = refl

-- an interrupted save is carried out by the next load
load_keeps_example : Kept two_states first_state (load two_states working interrupted)
load_keeps_example = load_keeps two_states working interrupted first_state first_held

later-Storable : Storable two_states later_state (codes "bb")
unfolding valid_state text_eq starts_with
later-Storable = record {
  valid = refl;
  encoded = refl;
  decoded = refl;
  nonempty = ground arith;
  fits = ground arith;
}

save_saves_example :
    Saved two_states later_state interrupted (save two_states working later_state interrupted)
save_saves_example =
    save_saves two_states later_state (codes "bb") later-Storable working refl interrupted

later_saved : (save two_states working later_state interrupted).0 ≡ ok tt
unfolding save valid_state text_eq starts_with read_state_file read_file admissible_file reuse
    install_recovery ◌>>=◌ ensure same_state same_release same_path same_components path_components
    names split strip_prefix ReleasePhase-discrete decide
later_saved = refl

-- a replacement that spells the path in another way is taken for the state
abbrev respelled : WizardState
respelled = record later_state { work_dir = codes "/./work" }

respelled_same : same_state later_state respelled ≡ true
unfolding text_eq starts_with same_state same_release same_path same_components path_components
    names split strip_prefix ReleasePhase-discrete decide
respelled_same = refl

load-save_example :
    (t : WizardState) × Same t later_state
    × ((c' : Calls)
        → load two_states c' (save two_states working later_state interrupted).1
          ≡ (ok (some t), (save two_states working later_state interrupted).1))
load-save_example =
    load-save two_states later_state (codes "bb") later-Storable working refl interrupted
      later_saved

working-IsWorking : IsWorking working (codes "bb")
unfolding verify_open_state_file text_eq ensure ◌>>=◌
working-IsWorking = record {
  removed = refl;
  removal_synced = refl;
  renamed = refl;
  rename_synced = refl;
  directory_private = refl;
  created = refl;
  written = refl;
  file_verified = refl;
}

save_iff_example :
    ((save two_states working later_state interrupted).0 ≡ ok tt)
    ↔ (interrupted.recovery ≢ unopenable false)
save_iff_example =
    save_iff working (codes "bb") working-IsWorking two_states later_state later-Storable.valid refl
      interrupted

-- two published sources, a third with another spelling of its number, and a foreign name
abbrev listing : List Entry
listing =
    named (codes "catalog-v1-sequence-3-source.json")
    ∷ foreign
    ∷ named (codes "catalog-v1-sequence-12-source.json")
    ∷ named (codes "catalog-v1-sequence-x-source.json")
    ∷ []

local_latest-IsGreatest_example : IsGreatest (Encodes listing) (some 12)
unfolding local_latest_sequence scan_entries name_sequence strip_prefix strip_suffix parse_u64
local_latest-IsGreatest_example = local_latest-IsGreatest listing (some 12) refl

compare_sequences_iff_example :
    (compare_sequences (some 12) (some 12) ≡ ok 13)
    ↔ (◌≡◌ {A = Option ℕ} (some 12) (some 12) × (13 ≡ or_zero (some 12) + 1) × (13 < u64_limit))
compare_sequences_iff_example = compare_sequences_iff (some 12) (some 12) 13

-- a machine whose calls all succeed
abbrev willing : Machine
willing = record { succeeds = λ n. true; available = λ n. true }

abbrev new_release : RunMode → Release
new_release mode = record { phase = planned; mode = mode; log = [] }

test_drive_publishes : (drive_release 12 willing (new_release publish_capable)).0 ≡ done
unfolding drive_release perform_all perform round
test_drive_publishes = refl

drive-Consented_example : Consented (drive_release 12 willing (new_release publish_capable)).1.log
drive-Consented_example = drive-Consented willing 12 (new_release publish_capable) tt

drive-IsDry_example : IsDry (drive_release 12 willing (new_release dry_run)).1
unfolding phase_rank
drive-IsDry_example =
    drive-IsDry willing 12 (new_release dry_run)
      (record { mode = refl; before = ground arith; private = tt })

drive_release-ends_example : (drive_release 12 willing (new_release publish_capable)).0 ≢ running
unfolding phase_rank
drive_release-ends_example =
    drive_release-ends 12 willing (new_release publish_capable) (ground arith)
