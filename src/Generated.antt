-- ===== src/Generated.antt =====
-- Generated directories of src/lib.rs: the data of a decision about one, and `GeneratedDirConfig`. Names
-- and messages are texts, lists of code points.
pub mod Config
pub mod Candidate
pub mod Reconcile
pub mod Execution
use worktree_gc.Base.{
  ℕ, ◌≡◌, Bool, true, false, not, ◌&&◌, ◌||◌, List, [], ◌∷◌, String, Option, none, some, any,
  if◌then◌else◌, ℤ,
}
use worktree_gc.FilePath.{FilePath}
use worktree_gc.Protection.Lease.{ProtectionMatch}
use worktree_gc.Worktree.{CleanupClass}

abbrev pub Name : Type 0
Name = List ℕ

pub data SweepTool : Type 0 where
  rustc_incremental cargo_profile_reset cargo_sweep : SweepTool

abbrev pub tool_beq : SweepTool → SweepTool → Bool
tool_beq rustc_incremental rustc_incremental = true
tool_beq cargo_profile_reset cargo_profile_reset = true
tool_beq cargo_sweep cargo_sweep = true
tool_beq _ _ = false

pub data SweepLimit : Type 0 where
  age_limit : ℕ → SweepLimit
  max_size : ℕ → SweepLimit

-- `SweepLimit::age_days`
unfoldable pub limit_age_days : SweepLimit → Option ℕ
limit_age_days (age_limit days) = some days
limit_age_days (max_size _) = none

pub record SweepStrategy : Type 0 where
  pub name : Name
  pub tool : SweepTool
  pub limit : SweepLimit

pub data SweepCandidateAction : Type 0 where
  delete_candidate keep_candidate recover_trash skip_candidate : SweepCandidateAction

pub record SweepCandidateDecision : Type 0 where
  pub path : FilePath
  pub incremental_dir : FilePath
  pub profile_dir : FilePath
  pub lock_path : FilePath
  pub last_activity_unix : Option ℤ
  pub last_activity : Option String
  pub activity_age_days : Option ℕ
  pub logical_bytes : ℕ
  pub action : SweepCandidateAction
  pub reason : Name

pub record CargoProfileCandidateDecision : Type 0 where
  pub path : FilePath
  pub lock_path : FilePath
  pub cargo_profile : Option String
  pub cargo_target : Option String
  pub last_activity_unix : Option ℤ
  pub last_activity : Option String
  pub activity_age_days : Option ℕ
  pub action : SweepCandidateAction
  pub reason : Name

pub record SweepDecision : Type 0 where
  pub tool : SweepTool
  pub limit : SweepLimit
  pub delegated : Bool
  pub project_dir : Option FilePath
  pub reason : Name
  pub candidates : List SweepCandidateDecision
  pub profile_candidates : List CargoProfileCandidateDecision

abbrev pub is_work : SweepCandidateAction → Bool
is_work delete_candidate = true
is_work recover_trash = true
is_work _ = false

abbrev pub is_refused : SweepCandidateAction → Bool
is_refused skip_candidate = true
is_refused _ = false

unfoldable pub has_work : SweepDecision → Bool
has_work sweep =
    sweep.delegated
    || any (λ candidate. is_work candidate.action) sweep.candidates
    || any (λ candidate. is_work candidate.action) sweep.profile_candidates

unfoldable pub has_refused_candidate : SweepDecision → Bool
has_refused_candidate sweep =
    any (λ candidate. is_refused candidate.action) sweep.candidates
    || any (λ candidate. is_refused candidate.action) sweep.profile_candidates

pub data GeneratedDirAction : Type 0 where
  delete_generated sweep_generated report_only skip_generated : GeneratedDirAction

abbrev pub is_delete : GeneratedDirAction → Bool
is_delete delete_generated = true
is_delete _ = false

-- `matches!(action, Skip | Sweep)`
abbrev pub is_retained : GeneratedDirAction → Bool
is_retained sweep_generated = true
is_retained skip_generated = true
is_retained _ = false

pub record InventoryMetrics : Type 0 where
  pub logical_bytes : ℕ
  pub allocated_bytes : ℕ
  pub private_reclaimable_bytes : ℕ
  pub private_reclaimable_complete : Bool
  pub files : ℕ
  pub directories : ℕ
  pub hardlink_duplicates : ℕ
  pub errors : ℕ

pub record GeneratedDirMeasurement : Type 0 where
  pub measured_at_unix : ℕ
  pub filesystem : String
  pub complete : Bool
  pub visited_entries : ℕ
  pub metrics : InventoryMetrics

pub record GeneratedDirIdentity : Type 0 where
  pub canonical_path : FilePath
  pub filesystem : String
  pub device : Option ℕ
  pub inode : Option ℕ
  pub modified_unix : Option ℤ
  pub modified_nanos : Option ℕ

-- One constructor for each message, with the values it prints.
pub data GeneratedReason : Type 0 where
  is_report_only : Name → GeneratedReason
  generated_protected : ProtectionMatch → GeneratedReason
  owner_free_unobserved routine_unobserved open_files : GeneratedReason
  worktree_owned tracked_files no_eligible_artifacts : GeneratedReason
  owned_with_sweeps explicit_sweep active_with_sweeps : List (SweepTool × Name) → GeneratedReason
  planned_sweeps : Name → GeneratedReason
  recent_generated recent_activity : ℕ → GeneratedReason
  ignored_generated untracked_generated : GeneratedReason
  owner_free_ignored owner_free_untracked : GeneratedReason
  bypasses_age owner_free_cleanup : GeneratedReason → GeneratedReason
  pressure_below : ℕ → GeneratedReason → GeneratedReason
  refused_sweep nested_retained unmeasured : GeneratedReason

pub record GeneratedDirDecision : Type 0 where
  pub path : FilePath
  pub worktree_path : FilePath
  pub name : Name
  pub mtime : Option String
  pub mtime_unix : Option ℤ
  pub mtime_nanos : Option ℕ
  pub effective_days : ℕ
  pub in_use : Bool
  pub ownership_evidence_complete : Bool
  pub worktree_in_use : Bool
  pub owner_free_pressure : Bool
  pub protection : Option ProtectionMatch
  pub cleanup_class : CleanupClass
  pub identity : Option GeneratedDirIdentity
  pub measurement : Option GeneratedDirMeasurement
  pub source_dirty_count_without_candidate : Option ℕ
  pub source_status_sha256_without_candidate : Option String
  pub sweeps : List SweepDecision
  pub action : GeneratedDirAction
  pub reason : GeneratedReason
