-- ===== src/Generated/Candidate.antt =====
-- `scan_generated_dirs_for_worktree` of src/lib.rs: the data of the scan of a worktree. What Git, the file system and the planner of sweeps answer is in `ScanInputs`.
pub mod Assess
pub mod Decide
pub mod Deletion
use worktree_gc.Base.{
  ℕ, ◌≡◌, Bool, true, false, not, ◌&&◌, ◌||◌, List, [], ◌∷◌, ◌++◌, map, Option, none, some, any,
  retain, ltb, nat_beq, min, if◌then◌else◌, Eq, ◌==◌, list_eq, nat_eq, ℤ, Result, ok, err, ◌>>=◌,
}
use worktree_gc.FilePath.{FilePath, path_eq}
use worktree_gc.PullRequest.{age_days}
use worktree_gc.Protection.Lease.{ProtectionLease, ProtectionMatch}
use worktree_gc.Protection.Registry.{Machine}
use worktree_gc.Protection.Guard.{protection_for_path}
use worktree_gc.Pressure.{CleanupError, Host, PressurePolicy, pressure_applies, sweep_failed}
use worktree_gc.Worktree.{WorktreeInfo, CleanupClass, routine_class, pressure_class}
use worktree_gc.Worktree.Execution.{
  OpenHandleSnapshot, available, indeterminate, dirs_with_open_handles_using,
}
use worktree_gc.Generated.{
  Name, SweepStrategy, SweepDecision, SweepTool, has_work, GeneratedDirAction, GeneratedReason,
  is_delete, delete_generated, sweep_generated, report_only, skip_generated, is_report_only,
  generated_protected, owner_free_unobserved, routine_unobserved, open_files, worktree_owned,
  tracked_files, no_eligible_artifacts, owned_with_sweeps, explicit_sweep, active_with_sweeps,
  planned_sweeps, recent_generated, recent_activity, ignored_generated, untracked_generated,
  owner_free_ignored, owner_free_untracked, bypasses_age, owner_free_cleanup, pressure_below,
}
use worktree_gc.Generated.Config.{
  GeneratedDirConfig, GeneratedCandidateAction, candidate_delete, candidate_report_only,
  candidate_sweep_only, effective_days, sweep_strategies_for, is_empty,
}

pub record GeneratedCandidate : Type 0 where
  pub path : FilePath
  -- `path_key` of the path below the worktree
  pub relative_key : Name
  pub name : Name
  pub action : GeneratedCandidateAction
  -- `sampled_mtime`, in seconds and the nanoseconds beyond them
  pub mtime_unix : Option ℤ
  pub mtime_nanos : Option ℕ

pub record GeneratedScanPolicy : Type 0 where
  pub generated_days : ℕ
  pub generated_activity_only : Bool
  pub check_in_use : Bool
  pub check_worktree_in_use : Bool
  pub open_handle_snapshot : Option OpenHandleSnapshot
  pub now : ℕ
  pub pressure : Option PressurePolicy

pub record ScanInputs : Type 0 where
  pub machine : Machine
  pub host : Host
  pub worktree : WorktreeInfo
  pub config : GeneratedDirConfig
  pub protections : List ProtectionLease
  pub policy : GeneratedScanPolicy
  pub candidates : List GeneratedCandidate
  pub ignored_paths : List Name
  pub tracked_paths : List Name
  -- the snapshot taken where none is given
  pub captured : OpenHandleSnapshot
  -- `plan_sweep_decisions` of a path
  pub plan_sweeps : FilePath → List SweepStrategy → Option (List SweepDecision)

strip_prefix : List ℕ → List ℕ → Option (List ℕ)
strip_prefix path [] = some path
strip_prefix [] (d ∷ ds) = none
strip_prefix (p ∷ ps) (d ∷ ds) = if nat_beq p d then strip_prefix ps ds else none

starts_with_slash : List ℕ → Bool
starts_with_slash [] = false
starts_with_slash (c ∷ _) = nat_beq c 47

unfoldable pub path_is_under : List ℕ → List ℕ → Bool
unfolding strip_prefix starts_with_slash
path_is_under path directory =
    path == directory
    || (elim (strip_prefix path directory) [ none ↦ false | some rest ↦ starts_with_slash rest ])

abbrev pub is_less : Option ℕ → ℕ → Bool
is_less none days = false
is_less (some age) days = ltb age days

abbrev pub is_listed : FilePath → List FilePath → Bool
is_listed path paths = any (λ listed. path_eq listed path) paths

-- What the loop computes about a candidate before it decides.
pub record Assessment : Type 0 where
  pub protection : Option ProtectionMatch
  pub routine_days : ℕ
  pub pressure_applies : Bool
  pub effective_days : ℕ
  pub ignored : Bool
  pub has_tracked_files : Bool
  pub routine_active : Bool
  pub active : Bool
  pub candidate_in_use : Bool
  pub worktree_in_use : Bool
  pub in_use : Bool
  pub ownership_evidence_complete : Bool
  pub owner_free_pressure_candidate : Bool
  pub owner_free_pressure : Bool
