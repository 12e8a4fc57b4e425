-- ===== src/Wizard/Drive.antt =====
-- crates/catalog-wizard/src/release.rs: `drive_release`, the state machine of a guided release.
--
-- The machine behind the trait `ReleaseMachine` is an environment: an `answer` for each call that the
-- driver makes, in order. `save_phase` is the trait's contract as the release implements it: the phase
-- in memory is the new one whether or not the write to disk succeeds.
pub mod Order
use fluxsemble_runtime_catal.Base.{
  ℕ, zero, suc, ◌+◌, Bool, true, false, not, Option, none, some, List, [], ◌∷◌, ◌++◌, if◌then◌else◌,
}
use fluxsemble_runtime_catal.Wizard.State.{
  RunMode, dry_run, publish_capable, ReleasePhase, planned, inputs_discovered, acquired,
  candidate_assembled, awaiting_qualification, qualification_imported, qualified, signed,
  local_staged, remote_draft_staged, approved, published,
}

-- the phrases that `require_exact_phrase` asks for
pub data Phrase : Type 0 where
  sign_phrase create_tag create_draft upload_assets publish_phrase : Phrase

-- the calls of the trait that act
pub data Action : Type 0 where
  save_phase : ReleasePhase → Action
  generate_inputs acquire_intent assemble_intent export_qualification import_qualification
        finalize_qualified_candidate prepare_signing :
      Action
  require_exact_phrase : Phrase → Action
  sign verify_signed_bundle stage_local stage_remote review_draft approve_draft publish
        update_docs_and_evidence say :
      Action

-- One round of the loop: the calls joined by `?`, and whether the driver then returns.
pub record Round : Type 0 where
  pub actions : List Action
  pub returns : Bool

abbrev advance : List Action → ReleasePhase → Round
advance actions next = record { actions = actions ++ save_phase next ∷ []; returns = false }

abbrev finish : List Action → Round
finish actions = record { actions = actions; returns = true }

-- the body of the loop; `available` is what `qualification_available` returns
unfoldable pub round : ReleasePhase → RunMode → Bool → Round
round planned mode available = advance (generate_inputs ∷ []) inputs_discovered
round inputs_discovered mode available = advance (acquire_intent ∷ []) acquired
round acquired mode available = advance (assemble_intent ∷ []) candidate_assembled
round candidate_assembled mode available =
    advance (export_qualification ∷ []) awaiting_qualification
round awaiting_qualification mode false = finish (say ∷ [])
round awaiting_qualification mode true = advance (import_qualification ∷ []) qualification_imported
round qualification_imported mode available = advance (finalize_qualified_candidate ∷ []) qualified
round qualified dry_run available = finish (say ∷ [])
round qualified publish_capable available =
    advance (prepare_signing ∷ require_exact_phrase sign_phrase ∷ sign ∷ verify_signed_bundle ∷ [])
      signed
round signed mode available = advance (verify_signed_bundle ∷ stage_local ∷ []) local_staged
round local_staged mode available =
    advance
      (require_exact_phrase create_tag
        ∷ require_exact_phrase create_draft
        ∷ require_exact_phrase upload_assets
        ∷ stage_remote
        ∷ [])
      remote_draft_staged
round remote_draft_staged mode available = advance (review_draft ∷ approve_draft ∷ []) approved
round approved mode available =
    advance (require_exact_phrase publish_phrase ∷ publish ∷ []) published
round published mode available = finish (update_docs_and_evidence ∷ [])

-- A release in progress: its phase and mode, the calls made so far (the latest first), and how many.
pub record Release : Type 0 where
  pub phase : ReleasePhase
  pub mode : RunMode
  pub log : List (Action × Bool)

-- What the machine answers: whether the `n`-th call succeeds, and whether a qualification is there.
pub record Machine : Type 0 where
  pub succeeds : ℕ → Bool
  pub available : ℕ → Bool

abbrev pub phase_after : Action → ReleasePhase → ReleasePhase
phase_after (save_phase next) phase = next
phase_after _ phase = phase

abbrev pub calls {ℓ} : {A : Type ℓ} → List A → ℕ
calls [] = 0
calls (_ ∷ xs) = suc (calls xs)

unfoldable pub perform : Machine → Action → Release → Release
perform m a r = record r {
  phase = phase_after a r.phase;
  log = (a, m.succeeds (calls r.log)) ∷ r.log;
}

-- the calls of a round, up to the first that fails
unfoldable pub perform_all : Machine → List Action → Release → Bool × Release
perform_all m [] r = (true, r)
perform_all m (a ∷ rest) r =
    let next = perform_all m rest (perform m a r) in
    if m.succeeds (calls r.log) then next else (false, perform m a r)

-- How the driver ended: it returned Ok, or an error, or the rounds given ran out.
pub data End : Type 0 where
  done failed running : End

abbrev pub after_round : Bool → Bool × Release → (Release → End × Release) → End × Release
after_round returns (false, r) next = (failed, r)
after_round true (true, r) next = (done, r)
after_round false (true, r) next = next r

-- `loop { match release.phase() { … } }`
unfoldable pub drive_release : ℕ → Machine → Release → End × Release
drive_release zero m r = (running, r)
drive_release (suc fuel) m r =
    let step = round r.phase r.mode (m.available (calls r.log)) in
    after_round step.returns (perform_all m step.actions r) (drive_release fuel m)
