-- ===== src/Generated/Execution/Cleanup.antt =====
-- `run_sweeps` and `execute_cleanup` of src/lib.rs: the loop over the deletions, the loop over the
-- sweeps, and the removal of worktrees. The progress messages are left out.
use worktree_gc.Base.{
  ℕ, Bool, true, false, not, ◌&&◌, ◌||◌, List, [], ◌∷◌, String, Option, none, some, any,
  if◌then◌else◌, Result, ok, err,
}
use worktree_gc.FilePath.{FilePath, starts_with}
use worktree_gc.Protection.Lease.{ProtectionError}
use worktree_gc.Protection.Registry.{RegistryFile}
use worktree_gc.Protection.Guard.{
  ProtectionGuardOutcome, protected_by, executed, with_protection_guard_at,
}
use worktree_gc.Pressure.{
  CleanupError, pressure_should_continue, protection_failed, lock_timeout, sweep_failed,
}
use worktree_gc.Worktree.{WorktreeDecision}
use worktree_gc.Worktree.Revalidation.{RemovalManifest, ExecutionPass}
use worktree_gc.Worktree.Execution.{OpenHandleSnapshot, is_routine, execute_worktree_removals}
use worktree_gc.Generated.{
  GeneratedDirDecision, SweepDecision, rustc_incremental, cargo_profile_reset, cargo_sweep,
  limit_age_days, is_delete,
}
use worktree_gc.Generated.Execution.{
  holds, generated_deletions, worktree_removals, routine_sweep_candidates, generated_sweeps,
  execution_handles, open_generated_dirs, owned_worktrees,
}
use worktree_gc.Generated.Execution.Remove.{DeletionEnv, remove_generated_directory_with_timing}

-- What `execute_cleanup` reads of the manifest.
pub record ExecutionManifest : Type 0 where
  pub removal : RemovalManifest
  pub worktrees : List WorktreeDecision
  pub generated_dirs : List GeneratedDirDecision
  pub cargo_lock_timeout_secs : Option ℕ
  pub defer_lock_timeouts : Bool

-- The result, the satisfied filesystems, the registry file and the world.
abbrev pub Outcome : Type 0 → Type 0
Outcome S = Result CleanupError (Unit {0}) × List String × RegistryFile × S

abbrev pub is_cargo_lock_timeout : CleanupError → Bool
is_cargo_lock_timeout lock_timeout = true
is_cargo_lock_timeout _ = false

module _ {S : Type 0} (env : DeletionEnv S) where
  -- `sweep.project_dir`, or the worktree
  abbrev project_dir_of : GeneratedDirDecision → SweepDecision → FilePath
  project_dir_of decision sweep = elim sweep.project_dir [
    | none ↦ decision.worktree_path
    | some dir ↦ dir
  ]

  -- A failure of `cargo sweep` is printed, unless the locks timed out.
  abbrev external_result : Result CleanupError (Unit {0}) → Result CleanupError (Unit {0})
  external_result (ok _) = ok tt
  external_result (err error) = if is_cargo_lock_timeout error then err error else ok tt

  unfoldable pub run_sweep :
      GeneratedDirDecision → SweepDecision → S → Result CleanupError (Unit {0}) × S
  run_sweep decision sweep s = elim sweep.tool [
    | rustc_incremental ↦ elim (limit_age_days sweep.limit) [
      | none ↦ (err sweep_failed, s)
      | some days ↦ env.sweep_incremental sweep.candidates days s
    ]
    | cargo_profile_reset ↦ elim (limit_age_days sweep.limit) [
      | none ↦ (err sweep_failed, s)
      | some days ↦ env.reset_profiles decision sweep.profile_candidates days s
    ]
    | cargo_sweep ↦
        let (result, s') = env.cargo_sweep decision sweep (project_dir_of decision sweep) s in
        (external_result result, s')
  ]

  unfoldable pub run_sweeps :
      GeneratedDirDecision → List SweepDecision → S → Result CleanupError (Unit {0}) × S
  unfolding run_sweep
  run_sweeps decision [] s = (ok tt, s)
  run_sweeps decision (sweep ∷ rest) s =
      let (result, s') = run_sweep decision sweep s in
      elim result [ err error ↦ (err error, s') | ok _ ↦ run_sweeps decision rest s' ]

  -- A timeout of the locks is recorded for a later run, when the manifest says so.
  unfoldable pub deferred_or_failed :
      Bool → GeneratedDirDecision → CleanupError → S → Result CleanupError (Unit {0}) × S
  deferred_or_failed defer decision error s =
      if defer && is_cargo_lock_timeout error then env.write_deferred decision s else (err error, s)

  unfoldable pub settle_guarded :
      {T : Type 0}
      → Bool
      → GeneratedDirDecision
      → Result ProtectionError (ProtectionGuardOutcome (Result CleanupError T))
      → S
      → Result CleanupError (Unit {0}) × S
  unfolding deferred_or_failed
  settle_guarded defer decision (err _) s = (err protection_failed, s)
  settle_guarded defer decision (ok (protected_by _)) s = (ok tt, s)
  settle_guarded defer decision (ok (executed (ok _))) s = (ok tt, s)
  settle_guarded defer decision (ok (executed (err error))) s =
      deferred_or_failed defer decision error s

module _ {S : Type 0} (env : DeletionEnv S) (macos : Bool) (manifest : ExecutionManifest)
    (pass : ExecutionPass) (open_handles : Option OpenHandleSnapshot) (deadline : Option ℕ)
    (removals : List WorktreeDecision) (open_dirs owned : List FilePath) where
  unfoldable pub nested_in_planned_removal : FilePath → Bool
  nested_in_planned_removal path =
      is_routine pass && any (λ worktree. starts_with path worktree.path) removals

  unfoldable pub still_wanted :
      GeneratedDirDecision → List String → S → Result CleanupError (Bool × List String)
  still_wanted decision satisfied s =
      if is_routine pass
      then ok (true, satisfied)
      else pressure_should_continue (env.removal.host s) manifest.removal.pressure decision.path
          satisfied

  -- The tests of the loop before the guard, and the satisfied filesystems.
  unfoldable pub may_delete :
      GeneratedDirDecision → List String → S → Result CleanupError Bool × List String
  unfolding nested_in_planned_removal still_wanted
  may_delete decision satisfied s =
      if nested_in_planned_removal decision.path || not ((env.removal.host s).exists decision.path)
      then (ok false, satisfied)
      else elim (still_wanted decision satisfied s) [
        | err error ↦ (err error, satisfied)
        | ok (false, after) ↦ (ok false, after)
        | ok (true, after) ↦ (
          ok (
              is_delete decision.action
              && not (holds owned decision.worktree_path)
              && not (holds open_dirs decision.path)),
          after,
        )
      ]

  unfoldable pub delete_guarded : GeneratedDirDecision → List String → RegistryFile → S → Outcome S
  unfolding settle_guarded
  delete_guarded decision satisfied file s =
      let (outcome, file', s') =
        with_protection_guard_at (env.removal.machine s) decision.path (env.removal.clock s)
          (remove_generated_directory_with_timing env macos pass open_handles deadline
            manifest.cargo_lock_timeout_secs decision)
          file s in
      let (result, s'') = settle_guarded env manifest.defer_lock_timeouts decision outcome s' in
      (result, satisfied, file', s'')

  -- One pass through the body of the loop over the deletions.
  unfoldable pub deletion_step : GeneratedDirDecision → List String → RegistryFile → S → Outcome S
  unfolding may_delete delete_guarded
  deletion_step decision satisfied file s =
      let (tried, after) = may_delete decision satisfied s in
      elim tried [
        | err error ↦ (err error, after, file, s)
        | ok false ↦ (ok tt, after, file, s)
        | ok true ↦ delete_guarded decision after file s
      ]

  unfoldable pub delete_generated_dirs :
      List GeneratedDirDecision → List String → RegistryFile → S → Outcome S
  unfolding deletion_step
  delete_generated_dirs [] satisfied file s = (ok tt, satisfied, file, s)
  delete_generated_dirs (decision ∷ rest) satisfied file s =
      let (result, after, file', s') = deletion_step decision satisfied file s in
      elim result [
        | err error ↦ (err error, after, file', s')
        | ok _ ↦ delete_generated_dirs rest after file' s'
      ]

  unfoldable pub sweep_step :
      GeneratedDirDecision → RegistryFile → S → Result CleanupError (Unit {0}) × RegistryFile × S
  unfolding nested_in_planned_removal settle_guarded run_sweeps
  sweep_step decision file s =
      if not ((env.removal.host s).exists decision.path) || nested_in_planned_removal decision.path
      then (ok tt, file, s)
      else let (outcome, file', s') =
          with_protection_guard_at (env.removal.machine s) decision.path (env.removal.clock s)
            (run_sweeps env decision decision.sweeps) file s in
        let (result, s'') = settle_guarded env manifest.defer_lock_timeouts decision outcome s' in
        (result, file', s'')

  unfoldable pub sweep_generated_dirs :
      List GeneratedDirDecision
      → RegistryFile
      → S
      → Result CleanupError (Unit {0}) × RegistryFile × S
  unfolding sweep_step
  sweep_generated_dirs [] file s = (ok tt, file, s)
  sweep_generated_dirs (decision ∷ rest) file s =
      let (result, file', s') = sweep_step decision file s in
      elim result [ err error ↦ (err error, file', s') | ok _ ↦ sweep_generated_dirs rest file' s' ]

  -- The three loops, each behind the success of the one before.
  unfoldable pub execute_selected :
      List GeneratedDirDecision → List GeneratedDirDecision → RegistryFile → S → Outcome S
  unfolding delete_generated_dirs sweep_generated_dirs
  execute_selected deletions sweeps file s =
      let (deleted, satisfied, file', s') = delete_generated_dirs deletions [] file s in
      elim deleted [
        | err error ↦ (err error, satisfied, file', s')
        | ok _ ↦
            let (swept, file'', s'') = sweep_generated_dirs sweeps file' s' in
            elim swept [
              | err error ↦ (err error, satisfied, file'', s'')
              | ok _ ↦
                  execute_worktree_removals env.removal manifest.removal pass open_handles removals
                    satisfied file'' s''
            ]
      ]

-- The snapshot is captured in the state at the start.
unfoldable pub execute_cleanup :
    {S : Type 0}
    → DeletionEnv S
    → Bool
    → ExecutionManifest
    → ExecutionPass
    → Option FilePath
    → Option OpenHandleSnapshot
    → Option ℕ
    → RegistryFile
    → S
    → Outcome S
unfolding execute_selected
execute_cleanup env macos manifest pass only supplied deadline file s =
    let check = manifest.removal.check_in_use in
    let captured = env.removal.capture s in
    let removals = worktree_removals pass manifest.worktrees in
    let deletions = generated_deletions macos pass only manifest.generated_dirs in
    let candidates = routine_sweep_candidates pass manifest.generated_dirs in
    let handles = execution_handles check supplied captured in
    let open_dirs = open_generated_dirs check handles captured deletions candidates in
    let owned = owned_worktrees check handles captured deletions in
    let sweeps = generated_sweeps pass open_dirs owned manifest.generated_dirs in
    execute_selected env macos manifest pass handles deadline removals open_dirs owned deletions
      sweeps file s
