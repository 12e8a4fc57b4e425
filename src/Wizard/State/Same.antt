-- ===== src/Wizard/State/Same.antt =====
-- crates/catalog-wizard/src/state.rs: which states are of one release, and which are equal.
use fluxsemble_runtime_catal.Base.{
  ◌≡◌, refl, true, ◌==◌, ==_iff, List, [], ◌∷◌, Text, and_parts, arith,
}
use fluxsemble_runtime_catal.Strings.{text_eq}
use fluxsemble_runtime_catal.Strings.Split.{text_eq_sound}
use fluxsemble_runtime_catal.Wizard.State.{
  RunMode, dry_run, publish_capable, WizardState, same_mode, same_components, path_components,
  same_path, same_release, same_state, phase_eq,
}

-- Two states of one release: every field but the phase is the same, and the work directories are the
-- same path, which they may spell in two ways.
pub record SameRelease (p q : WizardState) : Type 0 where
  pub schema_version : p.schema_version ≡ q.schema_version
  pub sequence : p.sequence ≡ q.sequence
  pub pi_version : p.pi_version ≡ q.pi_version
  pub node_version : p.node_version ≡ q.node_version
  pub target : p.target ≡ q.target
  pub mode : p.mode ≡ q.mode
  pub signing_key_generation : p.signing_key_generation ≡ q.signing_key_generation
  pub catalog_source_commit : p.catalog_source_commit ≡ q.catalog_source_commit
  pub catalog_source_tree : p.catalog_source_tree_sha256 ≡ q.catalog_source_tree_sha256
  pub work_dir : path_components p.work_dir ≡ path_components q.work_dir

-- equal states: of one release, and at the same phase
abbrev pub Same : WizardState → WizardState → Type 0
Same p q = SameRelease p q × (p.phase ≡ q.phase)

components_sound : (a b : List Text) → same_components a b ≡ true → a ≡ b
unfolding same_components
components_sound [] [] h = refl
components_sound [] (b ∷ bs) h = ground arith
components_sound (a ∷ left) [] h = ground arith
components_sound (a ∷ left) (b ∷ bs) h =
    let (first, rest) = and_parts (text_eq a b) (same_components left bs) h in
    λ i. text_eq_sound a b first i ∷ components_sound left bs rest i

mode_sound : (m n : RunMode) → same_mode m n ≡ true → m ≡ n
mode_sound dry_run dry_run h = refl
mode_sound dry_run publish_capable h = ground arith
mode_sound publish_capable dry_run h = ground arith
mode_sound publish_capable publish_capable h = refl

pub same_release-SameRelease : (p q : WizardState) → same_release p q ≡ true → SameRelease p q
unfolding same_release same_path
same_release-SameRelease p q h =
    let (h₉, dir) =
      and_parts _ (same_components (path_components p.work_dir) (path_components q.work_dir)) h in
    let (h₈, tree) =
      and_parts _ (text_eq p.catalog_source_tree_sha256 q.catalog_source_tree_sha256) h₉ in
    let (h₇, commit) = and_parts _ (text_eq p.catalog_source_commit q.catalog_source_commit) h₈ in
    let (h₆, key) = and_parts _ (p.signing_key_generation == q.signing_key_generation) h₇ in
    let (h₅, mode) = and_parts _ (same_mode p.mode q.mode) h₆ in
    let (h₄, target) = and_parts _ (text_eq p.target q.target) h₅ in
    let (h₃, node) = and_parts _ (text_eq p.node_version q.node_version) h₄ in
    let (h₂, pi) = and_parts _ (text_eq p.pi_version q.pi_version) h₃ in
    let (schema, sequence) =
      and_parts (p.schema_version == q.schema_version) (p.sequence == q.sequence) h₂ in
    record {
      schema_version = (==_iff _ _).0 schema;
      sequence = (==_iff _ _).0 sequence;
      pi_version = text_eq_sound _ _ pi;
      node_version = text_eq_sound _ _ node;
      target = text_eq_sound _ _ target;
      mode = mode_sound _ _ mode;
      signing_key_generation = (==_iff _ _).0 key;
      catalog_source_commit = text_eq_sound _ _ commit;
      catalog_source_tree = text_eq_sound _ _ tree;
      work_dir = components_sound _ _ dir;
    }

pub same_state-Same : (p q : WizardState) → same_state p q ≡ true → Same p q
unfolding same_state
same_state-Same p q h =
    let (release, phase) = and_parts (same_release p q) (phase_eq.same p.phase q.phase) h in
    (same_release-SameRelease p q release, (phase_eq.same_iff p.phase q.phase).0 phase)

-- a state is equal to itself
pub Same-refl : (p : WizardState) → Same p p
Same-refl p = (
  record {
    schema_version = refl;
    sequence = refl;
    pi_version = refl;
    node_version = refl;
    target = refl;
    mode = refl;
    signing_key_generation = refl;
    catalog_source_commit = refl;
    catalog_source_tree = refl;
    work_dir = refl;
  },
  refl,
)
