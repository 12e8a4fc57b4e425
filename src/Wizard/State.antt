-- ===== src/Wizard/State.antt =====
-- crates/catalog-wizard/src/state.rs: the wizard's state file and its replacement file.
--
-- A disk has a place for the state file and one for its replacement (`.next`). What the operating
-- system answers to each call of one operation is an argument, `Calls`; the JSON decoder and
-- canonicalizer are the argument `Codec`. Making the private parent directory is one of those answers.
pub mod Same
pub mod Load
pub mod Save
pub mod RoundTrip
pub mod Progress
use fluxsemble_runtime_catal.Base.{
  ℕ, zero, suc, ◌*◌, Bool, true, false, ◌&&◌, ◌||◌, not, Option, none, some, List, [], ◌∷◌, Text,
  codes, Result, ok, err, ◌>>=◌, ◌>>◌, ensure, ltb, leb, ◌==◌, all, length, Eq, derive_eq,
  if◌then◌else◌, ok_or, ◌++◌,
}
use fluxsemble_runtime_catal.Strings.{text_eq, split, is_empty, is_hex_digit, starts_with}

-- the variant of WizardError that this file returns
pub data WizardError : Type 0 where
  state : WizardError

pub data RunMode : Type 0 where
  dry_run publish_capable : RunMode

pub data ReleasePhase : Type 0 where
  planned inputs_discovered acquired candidate_assembled awaiting_qualification
        qualification_imported qualified signed local_staged remote_draft_staged approved
        published :
      ReleasePhase

pub record WizardState : Type 0 where
  pub schema_version : ℕ
  pub sequence : ℕ
  pub pi_version : Text
  pub node_version : Text
  pub target : Text
  pub mode : RunMode
  pub phase : ReleasePhase
  pub signing_key_generation : ℕ
  pub catalog_source_commit : Text
  pub catalog_source_tree_sha256 : Text
  pub work_dir : Text

unfoldable pub phase_rank : ReleasePhase → ℕ
phase_rank planned = 0
phase_rank inputs_discovered = 1
phase_rank acquired = 2
phase_rank candidate_assembled = 3
phase_rank awaiting_qualification = 4
phase_rank qualification_imported = 5
phase_rank qualified = 6
phase_rank signed = 7
phase_rank local_staged = 8
phase_rank remote_draft_staged = 9
phase_rank approved = 10
phase_rank published = 11

abbrev pub same_mode : RunMode → RunMode → Bool
same_mode dry_run dry_run = true
same_mode publish_capable publish_capable = true
same_mode _ _ = false

-- the parts of a path after its root: empty parts and `.` are skipped
abbrev pub is_name : Text → Bool
is_name part = not (is_empty part || text_eq part (codes "."))

unfoldable pub names : List Text → List Text
names [] = []
names (part ∷ rest) = let later = names rest in if is_name part then part ∷ later else later

-- a relative path keeps a `.` in front
abbrev pub relative_components : List Text → List Text
relative_components [] = []
relative_components (part ∷ rest) =
    if text_eq part (codes ".") then part ∷ names rest else names (part ∷ rest)

-- Path::components on Unix; the root is the part `/`
unfoldable pub path_components : Text → List Text
path_components path =
    if starts_with (codes "/") path
    then codes "/" ∷ names (split b'/' path)
    else relative_components (split b'/' path)

unfoldable pub same_components : List Text → List Text → Bool
same_components [] [] = true
same_components (a ∷ left) (b ∷ right) = text_eq a b && same_components left right
same_components _ _ = false

-- `==` on PathBuf, which compares the components
unfoldable pub same_path : Text → Text → Bool
same_path left right = same_components (path_components left) (path_components right)

unfoldable pub same_release : WizardState → WizardState → Bool
same_release left right =
    left.schema_version == right.schema_version
    && left.sequence == right.sequence
    && text_eq left.pi_version right.pi_version
    && text_eq left.node_version right.node_version
    && text_eq left.target right.target
    && same_mode left.mode right.mode
    && left.signing_key_generation == right.signing_key_generation
    && text_eq left.catalog_source_commit right.catalog_source_commit
    && text_eq left.catalog_source_tree_sha256 right.catalog_source_tree_sha256
    && same_path left.work_dir right.work_dir

-- the condition under which `validate_state` returns Ok
unfoldable pub valid_state : WizardState → Bool
valid_state s = not (
    not (s.schema_version == 1 || s.schema_version == 2)
    || s.sequence == 0
    || is_empty s.pi_version
    || is_empty s.node_version
    || not (text_eq s.target (codes "linux_x86_64"))
    || s.signing_key_generation == 0
    || not (length s.catalog_source_commit == 40)
    || not (all is_hex_digit s.catalog_source_commit)
    || not (length s.catalog_source_tree_sha256 == 64)
    || not (all is_hex_digit s.catalog_source_tree_sha256)
    || not (starts_with (codes "/") s.work_dir))

abbrev pub validate_state : WizardState → Result WizardError (Unit {0})
validate_state s = ensure state (valid_state s)

-- serde_json::from_slice and serde_jcs::to_vec
pub record Codec : Type 0 where
  pub from_slice : Text → Option WizardState
  pub to_vec : WizardState → Option Text

-- An open file as `read_state_file` and `verify_open_state_file` look at it.
pub record File : Type 0 where
  pub is_file : Bool
  -- uid() == geteuid()
  pub is_owned : Bool
  -- nlink() == 1
  pub is_single : Bool
  -- mode & 0o7777 == 0o600
  pub is_private : Bool
  -- every call on the open file succeeds
  pub is_readable : Bool
  -- the device, the inode, the length and the link count are the same after the read
  pub is_stable : Bool
  pub bytes : Text

-- What `open` finds: NotFound, another error, or a file. `open` does not follow a link, but `exists`
-- does: where `open` fails otherwise, `exists` may find nothing, as behind a link that leads nowhere.
pub data Place : Type 0 where
  missing : Place
  unopenable : (exists : Bool) → Place
  present : File → Place

-- Path::exists
abbrev pub place_exists : Place → Bool
place_exists missing = false
place_exists (unopenable exists) = exists
place_exists (present f) = true

pub record Disk : Type 0 where
  pub primary : Place
  pub recovery : Place

-- What the operating system answers to the calls of one operation.
pub record Calls : Type 0 where
  pub removed : Bool
  pub removal_synced : Bool
  pub renamed : Bool
  pub rename_synced : Bool
  -- ensure_private_directory
  pub directory_private : Bool
  -- open with create_new
  pub created : Bool
  -- write_all and sync_all
  pub written : Bool
  -- the file that the writes leave behind
  pub file_of : Text → File
  -- fs::remove_file after a failure
  pub cleaned : Bool

abbrev pub max_state_bytes : ℕ
max_state_bytes = 64 * 1024

unfoldable pub admissible_file : File → Bool
admissible_file f =
    f.is_file
    && f.is_owned
    && f.is_single
    && f.is_private
    && not (length f.bytes == 0)
    && leb (length f.bytes) max_state_bytes
    && f.is_readable
    && f.is_stable

module _ (codec : Codec) where
  unfoldable pub read_file : File → Result WizardError (Option WizardState)
  read_file f = do
    ensure state (admissible_file f)
    decoded ← ok_or state (codec.from_slice f.bytes)
    validate_state decoded
    canonical ← ok_or state (codec.to_vec decoded)
    ensure state (text_eq canonical f.bytes)
    ok (some decoded)

  unfoldable pub read_state_file : Place → Result WizardError (Option WizardState)
  read_state_file missing = ok none
  read_state_file (unopenable _) = err state
  read_state_file (present f) = read_file f

unfoldable pub ReleasePhase-discrete : Discrete ReleasePhase
ReleasePhase-discrete = hlevel

-- the derived `==` of a phase
instance abbrev pub phase_eq : Eq ReleasePhase
phase_eq = derive_eq ReleasePhase-discrete

-- the derived `==`: that of each field
unfoldable pub same_state : WizardState → WizardState → Bool
same_state left right = same_release left right && phase_eq.same left.phase right.phase

abbrev pub Outcome : Type 0 → Type 0
Outcome A = Result WizardError A × Disk

unfoldable pub verify_open_state_file : File → Text → Result WizardError (Unit {0})
verify_open_state_file f expected = do
  ensure state
      (f.is_file && f.is_owned && f.is_single && f.is_private && length f.bytes == length expected)
  ensure state f.is_readable
  ensure state (text_eq f.bytes expected)

-- fs::rename: the replacement takes the place of the state file
abbrev pub rename_recovery : Disk → Disk
rename_recovery d = record { primary = d.recovery; recovery = missing }

abbrev pub without_recovery : Disk → Disk
without_recovery d = record d { recovery = missing }

unfoldable pub install_recovery : Calls → Disk → Outcome (Unit {0})
install_recovery c d =
    if c.renamed then (ensure state c.rename_synced, rename_recovery d) else (err state, d)

abbrev pub remove_place : Calls → Place → Disk → Outcome (Unit {0})
remove_place c missing d = (ok tt, d)
remove_place c _ d =
    if c.removed then (ensure state c.removal_synced, without_recovery d) else (err state, d)

unfoldable pub remove_recovery : Calls → Disk → Outcome (Unit {0})
remove_recovery c d = remove_place c d.recovery d

-- `?` after a step that may change the disk
abbrev pub continue : {A : Type 0} → Outcome (Unit {0}) → (Disk → Outcome A) → Outcome A
continue (ok _, d) next = next d
continue (err e, d) next = (err e, d)

unfoldable pub advances : WizardState → WizardState → Bool
advances primary pending =
    same_release primary pending && leb (phase_rank primary.phase) (phase_rank pending.phase)

-- the second `match` of `load`
unfoldable pub choose :
    Calls → Disk → Option WizardState → Option WizardState → Outcome (Option WizardState)
choose c d none none = (ok none, d)
choose c d (some primary) none = (ok (some primary), d)
choose c d none (some pending) = continue (install_recovery c d) (λ d'. (ok (some pending), d'))
choose c d (some primary) (some pending) =
    if advances primary pending
    then continue (install_recovery c d) (λ d'. (ok (some pending), d'))
    else continue (remove_recovery c d) (λ d'. (ok (some primary), d'))

-- the first `match` of `load`
unfoldable pub settle :
    Calls
    → Disk
    → Option WizardState
    → Result WizardError (Option WizardState)
    → Outcome (Option WizardState)
settle c d primary (ok pending) = choose c d primary pending
settle c d (some primary) (err e) = continue (remove_recovery c d) (λ d'. (ok (some primary), d'))
settle c d none (err e) = (err e, d)

-- the closure of `save`, on the file that was created
unfoldable pub write_recovery : Calls → Text → Disk → Outcome (Unit {0})
write_recovery c bytes d =
    let f = c.file_of bytes in
    let d' = record d { recovery = present f } in
    if c.written
    then continue (verify_open_state_file f bytes, d') (install_recovery c)
    else (err state, d')

abbrev pub clean_up : Calls → Outcome (Unit {0}) → Outcome (Unit {0})
clean_up c (ok u, d) = (ok u, d)
clean_up c (err e, d) = (err e, if c.cleaned then without_recovery d else d)

abbrev pub create_recovery : Calls → Text → Disk → Place → Outcome (Unit {0})
create_recovery c bytes d missing =
    if c.created then clean_up c (write_recovery c bytes d) else (err state, d)
create_recovery c bytes d _ = (err state, d)

unfoldable pub replace : Calls → Text → Disk → Outcome (Unit {0})
replace c bytes d = create_recovery c bytes d d.recovery

-- what `save` does with a replacement that already exists
unfoldable pub reuse :
    Calls → WizardState → Text → Disk → Result WizardError (Option WizardState) → Outcome (Unit {0})
reuse c s bytes d (ok (some pending)) =
    if same_state pending s
    then install_recovery c d
    else continue (remove_recovery c d) (replace c bytes)
reuse c s bytes d (err e) = continue (remove_recovery c d) (replace c bytes)
reuse c s bytes d (ok none) = replace c bytes d

module _ (codec : Codec) where
  abbrev pub load_from :
      Calls → Disk → Result WizardError (Option WizardState) → Outcome (Option WizardState)
  load_from c d (ok primary) = settle c d primary (read_state_file codec d.recovery)
  load_from c d (err e) = (err e, d)

  -- WizardState::load, for a path whose last part is UTF-8 text
  unfoldable pub load : Calls → Disk → Outcome (Option WizardState)
  load c d = load_from c d (read_state_file codec d.primary)

  -- the `if` on the replacement, and what follows it
  abbrev pub replace_or_reuse : Calls → WizardState → Text → Disk → Bool → Outcome (Unit {0})
  replace_or_reuse c s bytes d true = reuse c s bytes d (read_state_file codec d.recovery)
  replace_or_reuse c s bytes d false = replace c bytes d

  abbrev pub save_bytes : Calls → WizardState → Disk → Option Text → Outcome (Unit {0})
  save_bytes c s d none = (err state, d)
  save_bytes c s d (some bytes) = replace_or_reuse c s bytes d (place_exists d.recovery)

  -- WizardState::save
  unfoldable pub save : Calls → WizardState → Disk → Outcome (Unit {0})
  save c s d =
      if not (valid_state s) || not c.directory_private
      then (err state, d)
      else save_bytes c s d (codec.to_vec s)
