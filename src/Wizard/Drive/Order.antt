-- ===== src/Wizard/Drive/Order.antt =====
-- crates/catalog-wizard/src/release.rs: the order in which a guided release acts.
use mathlib.Core.Path.{subst}
use fluxsemble_runtime_catal.Base.{
  ℕ, zero, suc, ◌+◌, ◌≤◌, ◌<◌, ◌≡◌, ◌≢◌, refl, sym, Bool, true, false, List, [], ◌∷◌, All, arith,
}
use fluxsemble_runtime_catal.Wizard.State.{
  RunMode, dry_run, publish_capable, ReleasePhase, phase_rank, awaiting_qualification, qualified,
  local_staged, approved,
}
use fluxsemble_runtime_catal.Wizard.Drive.{
  Phrase, sign_phrase, create_tag, create_draft, upload_assets, publish_phrase, Action,
  require_exact_phrase, sign, stage_remote, publish, stage_local, approve_draft, round, Release,
  Machine, calls, perform, perform_all, running, after_round, drive_release,
}

abbrev pub Log : Type 0
Log = List (Action × Bool)

abbrev pub Confirmed : Phrase → Log → Type 0
Confirmed p [] = ⊥
Confirmed p ((a, b) ∷ log) = (a ≡ require_exact_phrase p) × (b ≡ true)

abbrev pub earlier : Log → Log
earlier [] = []
earlier (_ ∷ log) = log

-- what must stand right before a call
abbrev pub Allowed : Action → Log → Type 0
Allowed sign log = Confirmed sign_phrase log
Allowed publish log = Confirmed publish_phrase log
Allowed stage_remote log =
    Confirmed upload_assets log
    × Confirmed create_draft (earlier log)
    × Confirmed create_tag (earlier (earlier log))
Allowed _ log = Unit

-- the latest call first: every call of the log was allowed when it was made
abbrev pub Consented : Log → Type 0
Consented [] = Unit
Consented ((a, b) ∷ log) = Allowed a log × Consented log

round-Consented :
    (m : Machine) (phase : ReleasePhase) (mode : RunMode) (available : Bool) (log : Log)
    → Consented log
    → Consented
        (perform_all m
          (round phase mode available).actions
          (record { phase = phase; mode = mode; log = log })).1.log
unfolding perform_all perform round
round-Consented m approved mode available log h = ground arith
round-Consented m qualified publish_capable available log h = ground arith
round-Consented m local_staged mode available log h = ground arith
round-Consented m awaiting_qualification mode true log h = ground arith
round-Consented m awaiting_qualification mode false log h = ground arith
round-Consented m qualified dry_run available log h = ground arith
round-Consented m _ mode available log h = ground arith

-- A property of releases that every round keeps holds when the driver ends.
drive_keeps :
    (P : Release → Type 0) (m : Machine)
    → ((r : Release)
        → P r
        → P (perform_all m (round r.phase r.mode (m.available (calls r.log))).actions r).1)
    → (fuel : ℕ) (r : Release) → P r
    → P (drive_release fuel m r).1
unfolding drive_release
drive_keeps P m keep zero r h = h
drive_keeps P m keep (suc fuel) r h =
    next (round r.phase r.mode (m.available (calls r.log))).returns
      (perform_all m (round r.phase r.mode (m.available (calls r.log))).actions r) (keep r h)
      (λ r' k. drive_keeps P m keep fuel r' k)
  where
    next :
        (returns : Bool) (o : Bool × Release)
        → P o.1
        → ((r' : Release) → P r' → P (drive_release fuel m r').1)
        → P (after_round returns o (drive_release fuel m)).1
    next returns (false, r') k go = k
    next true (true, r') k go = k
    next false (true, r') k go = go r' k

-- However long the driver runs and whatever the machine answers, it signs only right after the phrase
-- "SIGN" was confirmed, stages a draft on GitHub only right after "CREATE TAG", "CREATE DRAFT" and
-- "UPLOAD ASSETS" were confirmed in that order, and publishes only right after "PUBLISH" was confirmed.
pub drive-Consented :
    (m : Machine) (fuel : ℕ) (r : Release)
    → Consented r.log
    → Consented (drive_release fuel m r).1.log
drive-Consented m fuel r h =
    drive_keeps (λ s. Consented s.log) m
      (λ s k. round-Consented m s.phase s.mode (m.available (calls s.log)) s.log k) fuel r h

-- the calls that sign, or that change what others can see
abbrev pub IsPrivate : Action × Bool → Type 0
IsPrivate (sign, _) = ⊥
IsPrivate (stage_local, _) = ⊥
IsPrivate (stage_remote, _) = ⊥
IsPrivate (approve_draft, _) = ⊥
IsPrivate (publish, _) = ⊥
IsPrivate _ = Unit

-- a dry run that has not gone past the qualified candidate, and has made private calls alone
pub record IsDry (r : Release) : Type 0 where
  pub mode : r.mode ≡ dry_run
  pub before : phase_rank r.phase ≤ phase_rank qualified
  pub private : All IsPrivate r.log

round_IsDry :
    (m : Machine) (phase : ReleasePhase) (available : Bool) (log : Log)
    → phase_rank phase ≤ phase_rank qualified
    → All IsPrivate log
    → let r =
        (perform_all m
          (round phase dry_run available).actions
          (record { phase = phase; mode = dry_run; log = log })).1 in
      (r.mode ≡ dry_run) × (phase_rank r.phase ≤ phase_rank qualified) × All IsPrivate r.log
unfolding perform_all perform round phase_rank
round_IsDry m awaiting_qualification true log h k = ground arith
round_IsDry m awaiting_qualification false log h k = ground arith
round_IsDry m _ available log h k = ground arith

step_IsDry :
    (m : Machine) (r : Release) (available : Bool)
    → IsDry r
    → IsDry (perform_all m (round r.phase r.mode available).actions r).1
step_IsDry m r available h =
    subst
      (λ (mode : RunMode).
        IsDry
          (perform_all m (round r.phase mode available).actions
            (record { phase = r.phase; mode = mode; log = r.log })).1)
      (sym h.mode)
      (let (mode, before, private) = round_IsDry m r.phase available r.log h.before h.private in
        record { mode = mode; before = before; private = private })

-- A dry run stays one: it never signs, stages, approves or publishes, and never goes past the
-- qualified candidate, however long the driver runs and whatever the machine answers.
pub drive-IsDry :
    (m : Machine) (fuel : ℕ) (r : Release) → IsDry r → IsDry (drive_release fuel m r).1
drive-IsDry m fuel r h =
    drive_keeps IsDry m (λ s k. step_IsDry m s (m.available (calls s.log)) k) fuel r h

-- the rank of the phase that a round leads to
round_advances :
    (m : Machine) (phase : ReleasePhase) (mode : RunMode) (available : Bool) (log : Log)
    → let o =
        perform_all m
          (round phase mode available).actions
          (record { phase = phase; mode = mode; log = log }) in
      (o.0 ≡ true)
      → (round phase mode available).returns ≡ false
      → phase_rank o.1.phase ≡ suc (phase_rank phase)
unfolding perform_all perform round phase_rank
round_advances m awaiting_qualification mode true log h k = ground arith
round_advances m awaiting_qualification mode false log h k = ground arith
round_advances m qualified dry_run available log h k = ground arith
round_advances m qualified publish_capable available log h k = ground arith
round_advances m _ mode available log h k = ground arith

phase_rank-lt : (p : ReleasePhase) → phase_rank p < 12
unfolding phase_rank
phase_rank-lt p = ground arith

after_round-ends :
    (fuel : ℕ) (m : Machine) (returns : Bool) (o : Bool × Release)
    → (o.0 ≡ true → returns ≡ false → (drive_release fuel m o.1).0 ≢ running)
    → (after_round returns o (drive_release fuel m)).0 ≢ running
after_round-ends fuel m returns (false, r) h = λ e. ground arith
after_round-ends fuel m true (true, r) h = λ e. ground arith
after_round-ends fuel m false (true, r) h = h refl refl

-- Twelve rounds are enough: the driver returns, with a result or an error, before the rounds left by
-- its phase run out.
pub drive_release-ends :
    (fuel : ℕ) (m : Machine) (r : Release)
    → 12 ≤ phase_rank r.phase + fuel
    → (drive_release fuel m r).0 ≢ running
unfolding drive_release
drive_release-ends zero m r h = absurd (omega (arith, phase_rank-lt r.phase))
drive_release-ends (suc fuel) m r h =
    let available = m.available (calls r.log) in
    after_round-ends fuel m (round r.phase r.mode available).returns
      (perform_all m (round r.phase r.mode available).actions r)
      (λ performed goes_on.
        drive_release-ends fuel m (perform_all m (round r.phase r.mode available).actions r).1
          (omega (arith, round_advances m r.phase r.mode available r.log performed goes_on)))
