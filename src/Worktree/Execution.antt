-- ===== src/Worktree/Execution.antt =====
-- `execute_worktree_removals` of src/lib.rs and the open-handle test it makes. The world outside is a
-- state `S` that the guarded removal changes, read by the functions of `RemovalEnv`.
pub mod Guarded
pub mod Safety
pub mod Progress
pub mod Prune
use worktree_gc.Base.{
  is_nil, ℕ, ◌≡◌, Bool, true, false, not, ◌&&◌, ◌||◌, List, [], ◌∷◌, String, Option, none, some,
  any, retain, if◌then◌else◌, Result, ok, err,
}
use worktree_gc.FilePath.{FilePath, starts_with}
use worktree_gc.Protection.Lease.{ProtectionError}
use worktree_gc.Protection.Registry.{Machine, RegistryFile}
use worktree_gc.Protection.Guard.{
  ProtectionGuardOutcome, protected_by, executed, with_protection_guard_at,
}
use worktree_gc.Pressure.{
  CleanupError, Host, pressure_should_continue, protection_failed, removal_failed,
}
use worktree_gc.Worktree.{WorktreeDecision}
use worktree_gc.Worktree.Revalidation.{
  Observations, RemovalManifest, ExecutionPass, routine_pass, pull_request_revalidation_required,
  revalidate_pull_request_removal,
}

pub data OpenHandleSnapshot : Type 0 where
  available : List FilePath → OpenHandleSnapshot
  indeterminate : OpenHandleSnapshot

-- The candidates that are among the ancestors of an open path, itself included.
unfoldable pub match_open_handle_paths : List FilePath → List FilePath → List FilePath
match_open_handle_paths candidates open_paths =
    retain (λ candidate. any (λ open_path. starts_with open_path candidate) open_paths) candidates

unfoldable pub dirs_with_snapshot : List FilePath → OpenHandleSnapshot → List FilePath
unfolding match_open_handle_paths
dirs_with_snapshot paths (available open_paths) = match_open_handle_paths paths open_paths
dirs_with_snapshot paths indeterminate = paths

abbrev pub snapshot_or : Option OpenHandleSnapshot → OpenHandleSnapshot → OpenHandleSnapshot
snapshot_or none captured = captured
snapshot_or (some snapshot) captured = snapshot

unfoldable pub dirs_with_open_handles_using :
    List FilePath → Option OpenHandleSnapshot → OpenHandleSnapshot → List FilePath
unfolding dirs_with_snapshot
dirs_with_open_handles_using [] snapshot captured = []
dirs_with_open_handles_using (path ∷ paths) snapshot captured =
    dirs_with_snapshot (path ∷ paths) (snapshot_or snapshot captured)

unfoldable pub execution_snapshot_allows_worktree_removal :
    WorktreeDecision → Option OpenHandleSnapshot → OpenHandleSnapshot → Bool
unfolding dirs_with_open_handles_using
execution_snapshot_allows_worktree_removal decision open_handles captured =
    is_nil (dirs_with_open_handles_using (decision.path ∷ []) open_handles captured)

pub record RemovalEnv (S : Type 0) : Type 0 where
  pub machine : S → Machine
  pub host : S → Host
  pub clock : S → ℕ
  pub capture : S → OpenHandleSnapshot
  pub observe : S → Observations
  -- `git worktree remove`: whether it succeeded
  pub git_worktree_remove : FilePath → S → Bool × S

abbrev pub is_routine : ExecutionPass → Bool
is_routine routine_pass = true
is_routine _ = false

unfoldable pub guard_result :
    Result ProtectionError (ProtectionGuardOutcome Bool) → Result CleanupError Unit
guard_result (err _) = err protection_failed
guard_result (ok (protected_by _)) = ok tt
guard_result (ok (executed succeeded)) = if succeeded then ok tt else err removal_failed

module _ {S : Type 0} (env : RemovalEnv S) (manifest : RemovalManifest) (pass : ExecutionPass)
    (open_handles : Option OpenHandleSnapshot) where
  -- The tests on processes and pull requests.
  unfoldable pub passes_observation : WorktreeDecision → S → Result CleanupError Bool
  passes_observation decision s =
      if manifest.check_in_use
        && not (execution_snapshot_allows_worktree_removal decision open_handles (env.capture s))
      then ok false
      else if pull_request_revalidation_required manifest.pull_requests decision.removal_trigger
      then revalidate_pull_request_removal manifest (env.observe s) decision
      else ok true

  -- The test on disk pressure, which only the pressure passes make.
  unfoldable pub passes_pressure :
      WorktreeDecision → List String → S → Result CleanupError (Bool × List String)
  passes_pressure decision satisfied s =
      if is_routine pass
      then ok (true, satisfied)
      else pressure_should_continue (env.host s) manifest.pressure decision.path satisfied

  -- Whether the removal is tried, and the satisfied filesystems.
  unfoldable pub may_remove :
      WorktreeDecision → List String → S → Result CleanupError Bool × List String
  unfolding passes_observation passes_pressure
  may_remove decision satisfied s =
      if not ((env.host s).exists decision.path)
      then (ok false, satisfied)
      else elim (passes_pressure decision satisfied s) [
        | err error ↦ (err error, satisfied)
        | ok (false, after) ↦ (ok false, after)
        | ok (true, after) ↦ (passes_observation decision s, after)
      ]

  -- The result, the satisfied filesystems, the registry file and the world.
  unfoldable pub remove_guarded :
      WorktreeDecision
      → List String
      → RegistryFile
      → S
      → Result CleanupError Unit × List String × RegistryFile × S
  unfolding guard_result
  remove_guarded decision satisfied file s =
      let (outcome, file', s') =
        with_protection_guard_at (env.machine s) decision.path (env.clock s)
          (env.git_worktree_remove decision.path) file s in
      (guard_result outcome, satisfied, file', s')

  -- One pass through the body of the loop.
  unfoldable pub removal_step :
      WorktreeDecision
      → List String
      → RegistryFile
      → S
      → Result CleanupError Unit × List String × RegistryFile × S
  unfolding may_remove remove_guarded
  removal_step decision satisfied file s =
      let (tried, after) = may_remove decision satisfied s in
      elim tried [
        | err error ↦ (err error, after, file, s)
        | ok false ↦ (ok tt, after, file, s)
        | ok true ↦ remove_guarded decision after file s
      ]

  unfoldable pub execute_worktree_removals :
      List WorktreeDecision
      → List String
      → RegistryFile
      → S
      → Result CleanupError Unit × List String × RegistryFile × S
  unfolding removal_step
  execute_worktree_removals [] satisfied file s = (ok tt, satisfied, file, s)
  execute_worktree_removals (decision ∷ rest) satisfied file s =
      let (result, after, file', s') = removal_step decision satisfied file s in
      elim result [
        | err error ↦ (err error, after, file', s')
        | ok _ ↦ execute_worktree_removals rest after file' s'
      ]
