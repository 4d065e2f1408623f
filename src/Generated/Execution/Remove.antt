-- ===== src/Generated/Execution/Remove.antt =====
-- The deletion of one generated directory: `revalidate_before_ownership_deadline`,
-- `remove_generated_directory_with_timing` and the closure that `execute_cleanup` of src/lib.rs gives
-- it. The world is a state, and what takes time or changes the disk gives the state after it. The
-- timings are left out.
use worktree_gc.Base.{
  ℕ, Bool, true, false, not, List, Option, none, some, ltb, if◌then◌else◌, ◌==◌, nat_eq, list_eq,
  Result, ok, err,
}
use worktree_gc.FilePath.{FilePath}
use worktree_gc.Pressure.{CleanupError, removal_failed}
use worktree_gc.Worktree.Revalidation.{ExecutionPass}
use worktree_gc.Worktree.Execution.{OpenHandleSnapshot, RemovalEnv, is_routine}
use worktree_gc.Generated.{
  GeneratedDirDecision, SweepCandidateDecision, CargoProfileCandidateDecision, SweepDecision,
}
use worktree_gc.Generated.Config.{target}
use worktree_gc.Generated.Execution.Boundary.{
  RevalidationError, CandidateObservations, revalidate_generated_candidate,
}

pub record DeletionEnv (S : Type 0) : Type 0 where
  pub removal : RemovalEnv S
  -- `Instant::now`
  pub instant : S → ℕ
  -- what the revalidation reads, and the state when it has read it
  pub observe_candidate : GeneratedDirDecision → S → CandidateObservations × S
  -- `cargo_profile_locks_present`
  pub profile_locks_present : FilePath → S → Result CleanupError Bool
  -- the wait for the locks of a target directory, with the timeout, and their release
  pub acquire_profile_locks : FilePath → FilePath → ℕ → S → Result CleanupError (Unit {0}) × S
  pub release_profile_locks : S → S
  -- `fs::remove_dir_all`: whether it succeeded
  pub remove_dir_all : FilePath → S → Bool × S
  -- `execute_incremental_sweep_with_timeout`, with the days
  pub sweep_incremental : List SweepCandidateDecision → ℕ → S → Result CleanupError (Unit {0}) × S
  -- `execute_cargo_profile_reset`, with the days
  pub reset_profiles :
      GeneratedDirDecision
      → List CargoProfileCandidateDecision
      → ℕ
      → S
      → Result CleanupError (Unit {0}) × S
  -- `cargo sweep` in the project directory, under the locks of the target
  pub cargo_sweep :
      GeneratedDirDecision → SweepDecision → FilePath → S → Result CleanupError (Unit {0}) × S
  -- `write_deferred_cargo_action`
  pub write_deferred : GeneratedDirDecision → S → Result CleanupError (Unit {0}) × S

abbrev pub before_deadline : Option ℕ → ℕ → Bool
before_deadline none now = true
before_deadline (some deadline) now = ltb now deadline

module _ {S : Type 0} (env : DeletionEnv S) (macos : Bool) (pass : ExecutionPass)
    (open_handles : Option OpenHandleSnapshot) (deadline : Option ℕ) (lock_timeout : Option ℕ) where
  -- The revalidation, and the deadline before and after it; the state is the one in which the answer
  -- is given.
  unfoldable pub revalidate_before_ownership_deadline :
      GeneratedDirDecision → S → Result RevalidationError Bool × S
  revalidate_before_ownership_deadline decision s =
      if not (before_deadline deadline (env.instant s))
      then (ok false, s)
      else let (observed, s') = env.observe_candidate decision s in
        elim (revalidate_generated_candidate macos decision open_handles none observed) [
          | err error ↦ (err error, s')
          | ok _ ↦ (ok (before_deadline deadline (env.instant s')), s')
        ]

  -- An error of the revalidation is printed, and keeps the directory.
  abbrev pub is_approved : Result RevalidationError Bool → Bool
  is_approved (err _) = false
  is_approved (ok answer) = answer

  -- The closure that is called right before the removal.
  unfoldable pub before_remove : GeneratedDirDecision → S → Bool × S
  unfolding revalidate_before_ownership_deadline
  before_remove decision s =
      if is_routine pass
      then (before_deadline deadline (env.instant s), s)
      else let (answer, s') = revalidate_before_ownership_deadline decision s in
        (is_approved answer, s')

  unfoldable pub remove_approved : GeneratedDirDecision → S → Result CleanupError Bool × S
  unfolding before_remove
  remove_approved decision s =
      let (approved, s') = before_remove decision s in
      if not approved
      then (ok false, s')
      else let (removed, s'') = env.remove_dir_all decision.path s' in
        (if removed then ok true else err removal_failed, s'')

  -- The removal under the locks of Cargo, which waits for them.
  unfoldable pub remove_coordinated : GeneratedDirDecision → ℕ → S → Result CleanupError Bool × S
  unfolding remove_approved
  remove_coordinated decision timeout s =
      let (locked, s') = env.acquire_profile_locks decision.path decision.worktree_path timeout s in
      elim locked [
        | err error ↦ (err error, s')
        | ok _ ↦
            let (result, s'') = remove_approved decision s' in
            (result, env.release_profile_locks s'')
      ]

  -- A target directory without such locks is kept.
  unfoldable pub remove_target : GeneratedDirDecision → ℕ → S → Result CleanupError Bool × S
  unfolding remove_coordinated
  remove_target decision timeout s = elim (env.profile_locks_present decision.path s) [
    | err error ↦ (err error, s)
    | ok true ↦ remove_coordinated decision timeout s
    | ok false ↦ (ok false, s)
  ]

  -- The timeout, for a directory whose locks are to be taken.
  unfoldable pub coordination : GeneratedDirDecision → Option ℕ
  coordination decision = if decision.name == target then lock_timeout else none

  unfoldable pub remove_generated_directory_with_timing :
      GeneratedDirDecision → S → Result CleanupError Bool × S
  unfolding remove_target coordination
  remove_generated_directory_with_timing decision s =
      if not ((env.removal.host s).exists decision.path)
      then (ok false, s)
      else elim (coordination decision) [
        | some timeout ↦ remove_target decision timeout s
        | none ↦ remove_approved decision s
      ]
