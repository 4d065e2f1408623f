-- ===== src/Worktree.antt =====
-- Worktree cleanup of src/lib.rs: the data of a decision about a worktree, with one constructor of `Reason`
-- for each message and the values the message prints.
pub mod Plan
pub mod Planning
pub mod Classes
pub mod Revalidation
pub mod Execution
use worktree_gc.Base.{
  ℕ, ◌≡◌, Bool, true, false, not, ◌&&◌, ◌||◌, List, [], ◌∷◌, String, Option, none, some, any, leb,
  ltb, if◌then◌else◌, ℤ, Result, ok, err, ◌>>=◌, min, nat_beq,
}
use mathlib.Core.Option
use worktree_gc.FilePath.{FilePath, path_eq}
use worktree_gc.Protection.Lease.{ProtectionLease, ProtectionMatch}
use worktree_gc.Protection.Registry.{Machine}
use worktree_gc.Protection.Guard.{protection_for_path}
use worktree_gc.PullRequest.{
  PullRequestPolicy, PullRequestEvidence, PullRequestRecord, lifecycle_beq, open_lifecycle,
  merged_lifecycle, most_recent_merged_pull_request, age_days,
}
use worktree_gc.Pressure.{CleanupError, Host, PressurePolicy, pressure_applies}

pub record WorktreeInfo : Type 0 where
  pub path : FilePath
  pub head : Option String
  pub branch : Option String
  pub detached : Bool
  pub prunable : Option String
  pub exists : Bool
  pub is_current : Bool
  pub dirty_count : Option ℕ
  pub status_sha256 : Option String
  pub upstream : Option String
  pub ahead : Option ℕ
  pub behind : Option ℕ
  pub last_commit_unix : Option ℤ
  pub last_commit : Option String
  pub activity_unix : Option ℤ
  pub activity_age_days : Option ℕ

pub data WorktreeRemovalTrigger : Type 0 where
  age_trigger merged_pull_request : WorktreeRemovalTrigger

pub data WorktreeAction : Type 0 where
  remove_worktree keep_worktree prune_metadata : WorktreeAction

pub data CleanupClass : Type 0 where
  routine_class pressure_class : CleanupClass

pub data Reason : Type 0 where
  protected_until : ProtectionMatch → Reason
  prunable_because : String → Reason
  path_missing current_worktree dirty_worktree detached_worktree : Reason
  evidence_missing : Reason
  evidence_incomplete : String → Reason
  open_request no_merge_timestamp merged_unobserved merged_owned : Reason
  -- the number of the request, its age, the grace period
  waiting_for_grace : ℕ → ℕ → ℕ → Reason
  merged_at_least : ℕ → ℕ → String → Reason
  age_unobserved age_owned : Reason
  committed_at_least : ℕ → Reason
  not_older_than : ℕ → Reason
  pressure_cleanup : ℕ → Reason → Reason
  contains_retained : Reason

pub record WorktreeDecision : Type 0 where
  pub path : FilePath
  pub head : Option String
  pub branch : Option String
  pub metadata_prunable : Bool
  pub action : WorktreeAction
  pub cleanup_class : CleanupClass
  pub removal_trigger : Option WorktreeRemovalTrigger
  pub reason : Reason
  pub protection : Option ProtectionMatch
  pub dirty_count : Option ℕ
  pub status_sha256 : Option String
  pub last_commit : Option String
  pub activity_age_days : Option ℕ
  pub pull_request : Option PullRequestEvidence
