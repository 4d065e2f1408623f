-- ===== src/Worktree/Revalidation.antt =====
-- The checks of src/lib.rs that repeat the pull-request evidence and the identity of a worktree right
-- before it is removed. What Git, the pull-request query and the ownership capture answer then is the
-- record `Observations`.
pub mod Identity
use worktree_gc.Base.{
  is_some, ℕ, ◌≡◌, Bool, true, false, not, ◌&&◌, ◌||◌, List, [], ◌∷◌, String, Option, none, some,
  find, is_nil, get_or, if◌then◌else◌, Eq, ◌==◌, nat_eq, string_eq, option_eq, Result, ok, err,
  ◌>>=◌, context,
}
use worktree_gc.FilePath.{FilePath, path_eq}
use worktree_gc.PullRequest.{
  PullRequestPolicy, PullRequestEvidence, age_pull_request_evidence_matches,
  merged_pull_request_evidence_matches,
}
use worktree_gc.Pressure.{CleanupError, PressurePolicy, repository_unreadable}
use worktree_gc.Ownership.{ProcessOwnershipEvidence}
use worktree_gc.Worktree.{
  WorktreeInfo, WorktreeRemovalTrigger, WorktreeDecision, CleanupClass, age_trigger,
  merged_pull_request, routine_class, pressure_class,
}

pub record Observations : Type 0 where
  -- `repo_context`
  pub git_common_dir : Option FilePath
  -- `inspect_worktrees_in_roots`
  pub live_worktrees : Option (List WorktreeInfo)
  pub now : ℕ
  -- `observe_pull_requests` of the live worktree
  pub fresh_pull_requests : WorktreeInfo → String → String → Option PullRequestEvidence
  -- `process_ownership_evidence_for_paths`
  pub fresh_ownership : FilePath → ProcessOwnershipEvidence

-- What the removal of worktrees reads of the manifest.
pub record RemovalManifest : Type 0 where
  pub git_common_dir : FilePath
  pub pull_requests : Option PullRequestPolicy
  pub pressure : Option PressurePolicy
  pub check_in_use : Bool

unfoldable pub pull_request_revalidation_required :
    Option PullRequestPolicy → Option WorktreeRemovalTrigger → Bool
pull_request_revalidation_required policy trigger = is_some policy && is_some trigger

unfoldable pub fresh_ownership_allows_removal : ProcessOwnershipEvidence → Bool
fresh_ownership_allows_removal evidence = evidence.complete && is_nil evidence.observations

-- The live worktree is the one that was planned for.
unfoldable pub is_unchanged : WorktreeDecision → WorktreeInfo → Bool
is_unchanged decision live = not (
    live.is_current
    || live.detached
    || not (live.head == decision.head)
    || not (live.branch == decision.branch)
    || not (live.dirty_count == decision.dirty_count)
    || not (live.status_sha256 == decision.status_sha256))

unfoldable pub fresh_evidence : Observations → WorktreeInfo → Option PullRequestEvidence
fresh_evidence observed live = elim live.branch [
  | none ↦ none
  | some branch ↦ elim live.head [
    | none ↦ none
    | some head ↦ observed.fresh_pull_requests live branch head
  ]
]

unfoldable pub evidence_matches :
    PullRequestPolicy
    → ℕ
    → PullRequestEvidence
    → Option PullRequestEvidence
    → Option WorktreeRemovalTrigger
    → Bool
evidence_matches policy now planned none trigger = false
evidence_matches policy now planned (some fresh) none = false
evidence_matches policy now planned (some fresh) (some merged_pull_request) =
    merged_pull_request_evidence_matches planned fresh policy now
evidence_matches policy now planned (some fresh) (some age_trigger) =
    age_pull_request_evidence_matches planned fresh

-- The checks on the live worktree that was found.
unfoldable pub revalidate_live :
    PullRequestPolicy
    → PullRequestEvidence
    → Observations
    → WorktreeDecision
    → Option WorktreeInfo
    → Bool
revalidate_live policy planned observed decision none = false
revalidate_live policy planned observed decision (some live) =
    is_unchanged decision live
    && evidence_matches policy observed.now planned (fresh_evidence observed live)
        decision.removal_trigger
    && fresh_ownership_allows_removal (observed.fresh_ownership decision.path)

abbrev pub find_live : WorktreeDecision → List WorktreeInfo → Option WorktreeInfo
find_live decision live = find (λ worktree. path_eq worktree.path decision.path) live

unfoldable pub revalidate_identified :
    RemovalManifest
    → PullRequestPolicy
    → PullRequestEvidence
    → Observations
    → WorktreeDecision
    → Result CleanupError Bool
revalidate_identified manifest policy planned observed decision = do
  common_dir ← context observed.git_common_dir repository_unreadable
  if not (path_eq common_dir manifest.git_common_dir) then ok false else (do
    live ← context observed.live_worktrees repository_unreadable
    ok (revalidate_live policy planned observed decision (find_live decision live)))

unfoldable pub revalidate_pull_request_removal :
    RemovalManifest → Observations → WorktreeDecision → Result CleanupError Bool
revalidate_pull_request_removal manifest observed decision = elim manifest.pull_requests [
  | none ↦ ok false
  | some policy ↦ elim decision.pull_request [
    | none ↦ ok false
    | some planned ↦ revalidate_identified manifest policy planned observed decision
  ]
]

pub data ExecutionPass : Type 0 where
  routine_pass : ExecutionPass
  pressure_generated : ℕ → ExecutionPass
  pressure_worktrees : ExecutionPass

unfoldable pub execution_matches : CleanupClass → ExecutionPass → Bool
execution_matches routine_class routine_pass = true
execution_matches pressure_class (pressure_generated _) = true
execution_matches pressure_class pressure_worktrees = true
execution_matches _ _ = false
