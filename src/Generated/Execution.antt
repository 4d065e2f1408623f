-- ===== src/Generated/Execution.antt =====
-- What `execute_cleanup` of src/lib.rs selects of a manifest: the deletions of generated directories in
-- their order, and the directories to sweep. The flag `macos` says whether the target is macOS.
pub mod Boundary
pub mod Remove
pub mod Cleanup
pub mod Checks
pub mod Approval
pub mod Order
pub mod Attempt
pub mod Turn
pub mod Safety
use worktree_gc.Base.{
  ℕ, ◌/◌, Bool, true, false, not, ◌&&◌, ◌||◌, List, [], ◌∷◌, ◌++◌, map, Option, none, some, any,
  retain, max, leb, ltb, nat_beq, if◌then◌else◌, ◌==◌, nat_eq, list_eq, sort_by, ℤ, pos, int_leb,
  int_beq,
}
use worktree_gc.FilePath.{FilePath, path_eq, path_leb}
use worktree_gc.Worktree.{CleanupClass, WorktreeDecision, routine_class, pressure_class}
use worktree_gc.Worktree.Revalidation.{
  ExecutionPass, routine_pass, pressure_generated, pressure_worktrees, execution_matches,
}
use worktree_gc.Worktree.Execution.{OpenHandleSnapshot, is_routine, dirs_with_open_handles_using}
use worktree_gc.Generated.{
  Name, GeneratedDirMeasurement, GeneratedDirDecision, GeneratedDirAction, sweep_generated,
  is_delete, has_work,
}
use worktree_gc.Generated.Config.{turbo, next, target, node_modules}
use worktree_gc.Generated.Reconcile.{is_remove, is_measured, is_routine_class}

unfoldable pub generated_rebuild_rank : Name → ℕ
generated_rebuild_rank name =
    if name == turbo
    then 0
    else if name == next
    then 1
    else if name == target
    then 2
    else if name == node_modules
    then 3
    else 4

abbrev private_bytes : Option GeneratedDirMeasurement → ℕ
private_bytes none = 0
private_bytes (some measurement) = measurement.metrics.private_reclaimable_bytes

abbrev private_per_entry : Option GeneratedDirMeasurement → ℕ
private_per_entry none = 0
private_per_entry (some measurement) =
    measurement.metrics.private_reclaimable_bytes / max measurement.visited_entries 1

abbrev i64_max : ℕ
i64_max = 9_223_372_036_854_775_807

abbrev mtime_or_max : GeneratedDirDecision → ℤ
mtime_or_max decision = elim decision.mtime_unix [ none ↦ pos i64_max | some mtime ↦ mtime ]

-- In the routine pass the measurement does not count.
abbrev incomplete_key : Bool → ExecutionPass → GeneratedDirDecision → ℕ
incomplete_key macos pass decision =
    if not (is_routine pass) && not (is_measured macos decision) then 1 else 0

abbrev per_entry_key : ExecutionPass → GeneratedDirDecision → ℕ
per_entry_key pass decision = if is_routine pass then 0 else private_per_entry decision.measurement

abbrev private_key : ExecutionPass → GeneratedDirDecision → ℕ
private_key pass decision = if is_routine pass then 0 else private_bytes decision.measurement

-- The order of the sort keys, the two amounts of bytes in reverse.
unfoldable pub deletion_leb :
    Bool → ExecutionPass → GeneratedDirDecision → GeneratedDirDecision → Bool
unfolding generated_rebuild_rank
deletion_leb macos pass a b =
    if not (nat_beq (generated_rebuild_rank a.name) (generated_rebuild_rank b.name))
    then leb (generated_rebuild_rank a.name) (generated_rebuild_rank b.name)
    else if not (nat_beq (incomplete_key macos pass a) (incomplete_key macos pass b))
    then leb (incomplete_key macos pass a) (incomplete_key macos pass b)
    else if not (nat_beq (per_entry_key pass a) (per_entry_key pass b))
    then leb (per_entry_key pass b) (per_entry_key pass a)
    else if not (nat_beq (private_key pass a) (private_key pass b))
    then leb (private_key pass b) (private_key pass a)
    else if not (int_beq (mtime_or_max a) (mtime_or_max b))
    then int_leb (mtime_or_max a) (mtime_or_max b)
    else path_leb a.path b.path

unfoldable pub sort_generated_deletions :
    Bool → ExecutionPass → List GeneratedDirDecision → List GeneratedDirDecision
unfolding deletion_leb
sort_generated_deletions macos pass decisions = sort_by (deletion_leb macos pass) decisions

-- `only_generated_path.is_none_or(..)`
abbrev pub is_only : Option FilePath → FilePath → Bool
is_only none path = true
is_only (some only) path = path_eq path only

abbrev pub rank_matches : ExecutionPass → Name → Bool
unfolding generated_rebuild_rank
rank_matches routine_pass name = true
rank_matches (pressure_generated rank) name = nat_beq (generated_rebuild_rank name) rank
rank_matches pressure_worktrees name = false

unfoldable pub is_selected : ExecutionPass → Option FilePath → GeneratedDirDecision → Bool
is_selected pass only decision =
    is_delete decision.action
    && execution_matches decision.cleanup_class pass
    && is_only only decision.path
    && rank_matches pass decision.name

unfoldable pub generated_deletions :
    Bool → ExecutionPass → Option FilePath → List GeneratedDirDecision → List GeneratedDirDecision
unfolding is_selected sort_generated_deletions
generated_deletions macos pass only decisions =
    sort_generated_deletions macos pass (retain (is_selected pass only) decisions)

abbrev takes_worktrees : ExecutionPass → Bool
takes_worktrees (pressure_generated _) = false
takes_worktrees _ = true

abbrev age_or_zero : WorktreeDecision → ℕ
age_or_zero decision = elim decision.activity_age_days [ none ↦ 0 | some days ↦ days ]

abbrev removal_leb : WorktreeDecision → WorktreeDecision → Bool
removal_leb a b =
    if not (nat_beq (age_or_zero a) (age_or_zero b))
    then leb (age_or_zero b) (age_or_zero a)
    else path_leb a.path b.path

unfoldable pub worktree_removals : ExecutionPass → List WorktreeDecision → List WorktreeDecision
worktree_removals pass decisions = sort_by removal_leb (
    retain
      (λ decision.
        is_remove decision.action
        && execution_matches decision.cleanup_class pass
        && takes_worktrees pass)
      decisions)

abbrev is_sweep : GeneratedDirAction → Bool
is_sweep sweep_generated = true
is_sweep _ = false

abbrev pub sweeps_work : GeneratedDirDecision → Bool
sweeps_work decision = any has_work decision.sweeps

unfoldable pub routine_sweep_candidates :
    ExecutionPass → List GeneratedDirDecision → List GeneratedDirDecision
routine_sweep_candidates pass decisions =
    if is_routine pass
    then retain
        (λ decision.
          sweeps_work decision
          && (is_sweep decision.action
              || (is_delete decision.action && not (is_routine_class decision.cleanup_class))))
        decisions
    else []

abbrev pub holds : List FilePath → FilePath → Bool
holds paths path = any (λ other. path_eq other path) paths

-- A deletion that the ownership of its worktree withholds is swept instead.
unfoldable pub generated_sweeps :
    ExecutionPass
    → List FilePath
    → List FilePath
    → List GeneratedDirDecision
    → List GeneratedDirDecision
generated_sweeps pass open_dirs owned_worktrees decisions =
    if is_routine pass
    then retain
        (λ decision.
          sweeps_work decision
          && not (holds open_dirs decision.path)
          && (is_sweep decision.action
              || (is_delete decision.action
                  && (not (is_routine_class decision.cleanup_class)
                      || (holds owned_worktrees decision.worktree_path
                          && not (holds open_dirs decision.path))))))
        decisions
    else []

-- The snapshot that was supplied, or one that is captured when processes are looked at.
unfoldable pub execution_handles :
    Bool → Option OpenHandleSnapshot → OpenHandleSnapshot → Option OpenHandleSnapshot
execution_handles check_in_use (some supplied) captured = some supplied
execution_handles check_in_use none captured = if check_in_use then some captured else none

unfoldable pub open_generated_dirs :
    Bool
    → Option OpenHandleSnapshot
    → OpenHandleSnapshot
    → List GeneratedDirDecision
    → List GeneratedDirDecision
    → List FilePath
open_generated_dirs check_in_use handles captured deletions sweeps =
    if check_in_use
    then dirs_with_open_handles_using
        (map (λ decision. decision.path) deletions ++ map (λ decision. decision.path) sweeps)
        handles captured
    else []

-- Without a look at processes, every worktree of a deletion that needs one counts as owned.
unfoldable pub owned_worktrees :
    Bool
    → Option OpenHandleSnapshot
    → OpenHandleSnapshot
    → List GeneratedDirDecision
    → List FilePath
owned_worktrees check_in_use handles captured deletions =
    if check_in_use
    then dirs_with_open_handles_using (map (λ decision. decision.worktree_path) deletions) handles
        captured
    else map (λ decision. decision.worktree_path)
        (retain (λ decision. decision.owner_free_pressure) deletions)
