-- ===== src/Worktree/Plan.antt =====
-- `plan_worktree_cleanup_with_pull_requests` of src/lib.rs: the chain of conditions that decides about
-- each worktree.
use worktree_gc.Base.{
  is_some, ℕ, Bool, true, false, not, ◌&&◌, ◌||◌, List, [], ◌∷◌, String, Option, none, some, any,
  leb, ltb, if◌then◌else◌, Result, ok, ◌>>=◌, min,
}
use worktree_gc.FilePath.{FilePath, path_eq}
use worktree_gc.Protection.Lease.{ProtectionLease}
use worktree_gc.Protection.Registry.{Machine}
use worktree_gc.Protection.Guard.{protection_for_path}
use worktree_gc.PullRequest.{
  PullRequestPolicy, PullRequestEvidence, PullRequestRecord, lifecycle_beq, open_lifecycle,
  merged_lifecycle, most_recent_merged_pull_request, age_days,
}
use worktree_gc.Pressure.{CleanupError, Host, PressurePolicy, pressure_applies}
use worktree_gc.Worktree.{
  WorktreeInfo, WorktreeRemovalTrigger, WorktreeAction, CleanupClass, Reason, WorktreeDecision,
  age_trigger, merged_pull_request, remove_worktree, keep_worktree, prune_metadata, routine_class,
  pressure_class, protected_until, prunable_because, path_missing, current_worktree, dirty_worktree,
  detached_worktree, evidence_missing, evidence_incomplete, open_request, no_merge_timestamp,
  merged_unobserved, merged_owned, waiting_for_grace, merged_at_least, age_unobserved, age_owned,
  committed_at_least, not_older_than, pressure_cleanup,
}

-- The arguments of the planner beside the worktrees; `machine` and `host` answer for the operating
-- system, and a map is the function that `get` is.
pub record PlanInputs : Type 0 where
  pub machine : Machine
  pub host : Host
  pub stale_days : ℕ
  pub now : ℕ
  pub protections : List ProtectionLease
  pub pressure : Option PressurePolicy
  pub pull_request_policy : Option PullRequestPolicy
  pub pull_request_evidence : String → String → Option PullRequestEvidence
  pub ownership_evidence_complete : Bool
  pub owned_worktrees : List FilePath

-- What is to be done, why, and what triggered it.
pub record Verdict : Type 0 where
  pub action : WorktreeAction
  pub reason : Reason
  pub removal_trigger : Option WorktreeRemovalTrigger

abbrev pub keep : Reason → Verdict
keep why = record { action = keep_worktree; reason = why; removal_trigger = none }

abbrev pub remove : Reason → WorktreeRemovalTrigger → Verdict
remove why trigger = record {
  action = remove_worktree;
  reason = why;
  removal_trigger = some trigger;
}

abbrev pub unwrap_or {ℓ} : {A : Type ℓ} → Option A → A → A
unwrap_or none d = d
unwrap_or (some a) _ = a

abbrev pub is_owned : PlanInputs → FilePath → Bool
is_owned inputs path = any (λ owned. path_eq owned path) inputs.owned_worktrees

unfoldable pub effective_days : PlanInputs → Bool → ℕ
effective_days inputs applies = elim inputs.pressure [
  | none ↦ inputs.stale_days
  | some policy ↦ if applies then min inputs.stale_days policy.stale_days else inputs.stale_days
]

-- The days since the last commit.
unfoldable pub commit_age : PlanInputs → WorktreeInfo → Option ℕ
commit_age inputs worktree = elim worktree.last_commit_unix [
  | none ↦ none
  | some unix ↦ age_days inputs.now unix
]

unfoldable pub evidence_of : PlanInputs → WorktreeInfo → Option PullRequestEvidence
evidence_of inputs worktree = elim worktree.branch [
  | none ↦ none
  | some branch ↦ elim worktree.head [
    | none ↦ none
    | some head ↦ inputs.pull_request_evidence branch head
  ]
]

abbrev pub is_old_enough : PlanInputs → WorktreeInfo → Bool → Bool
is_old_enough inputs worktree applies = elim (commit_age inputs worktree) [
  | none ↦ false
  | some days ↦ leb (effective_days inputs applies) days
]

-- The last two branches of the chain.
unfoldable pub verdict_by_age : PlanInputs → WorktreeInfo → Bool → Verdict
verdict_by_age inputs worktree applies =
    if is_old_enough inputs worktree applies
    then (if not inputs.ownership_evidence_complete
        then keep age_unobserved
        else if is_owned inputs worktree.path
        then keep age_owned
        else remove (committed_at_least (effective_days inputs applies)) age_trigger)
    else keep (not_older_than (effective_days inputs applies))

unfoldable pub verdict_by_merge :
    PlanInputs → WorktreeInfo → PullRequestPolicy → PullRequestRecord → ℕ → Verdict
verdict_by_merge inputs worktree policy request age =
    if ltb age policy.merged_grace_days
    then keep (waiting_for_grace request.number age policy.merged_grace_days)
    else if not inputs.ownership_evidence_complete
    then keep merged_unobserved
    else if is_owned inputs worktree.path
    then keep merged_owned
    else remove (merged_at_least request.number policy.merged_grace_days request.url)
        merged_pull_request

unfoldable pub verdict_by_evidence :
    PlanInputs → WorktreeInfo → Bool → PullRequestPolicy → PullRequestEvidence → Verdict
unfolding verdict_by_merge
verdict_by_evidence inputs worktree applies policy evidence =
    if not evidence.complete
    then keep (evidence_incomplete (unwrap_or evidence.error "owner query did not complete"))
    else if lifecycle_beq evidence.lifecycle open_lifecycle
    then keep open_request
    else if lifecycle_beq evidence.lifecycle merged_lifecycle
    then elim (most_recent_merged_pull_request evidence inputs.now) [
      | none ↦ keep no_merge_timestamp
      | some (request, age) ↦ verdict_by_merge inputs worktree policy request age
    ]
    else verdict_by_age inputs worktree applies

-- The branches on pull requests, which exist only under a policy.
unfoldable pub verdict_on_branch : PlanInputs → WorktreeInfo → Bool → Verdict
verdict_on_branch inputs worktree applies = elim inputs.pull_request_policy [
  | none ↦ verdict_by_age inputs worktree applies
  | some policy ↦ elim (evidence_of inputs worktree) [
    | none ↦ keep evidence_missing
    | some evidence ↦ verdict_by_evidence inputs worktree applies policy evidence
  ]
]

abbrev pub metadata_prunable_of : WorktreeInfo → Bool
metadata_prunable_of worktree = is_some worktree.prunable || not worktree.exists

abbrev pub prune_reason : WorktreeInfo → Reason
prune_reason worktree = elim worktree.prunable [
  | none ↦ path_missing
  | some why ↦ prunable_because why
]

unfoldable pub worktree_verdict : PlanInputs → WorktreeInfo → Bool → Verdict
worktree_verdict inputs worktree applies =
    elim (protection_for_path inputs.machine inputs.protections worktree.path) [
      | some lease ↦ keep (protected_until lease)
      | none ↦
          if metadata_prunable_of worktree
          then record {
            action = prune_metadata;
            reason = prune_reason worktree;
            removal_trigger = none;
          }
          else if worktree.is_current
          then keep current_worktree
          else if ltb 0 (unwrap_or worktree.dirty_count 0)
          then keep dirty_worktree
          else if worktree.detached || not (is_some worktree.branch)
          then keep detached_worktree
          else verdict_on_branch inputs worktree applies
    ]

abbrev pub is_age_removal : Verdict → Bool
is_age_removal verdict = elim verdict.action [
  | remove_worktree ↦ elim verdict.removal_trigger [ some age_trigger ↦ true | _ ↦ false ]
  | _ ↦ false
]

abbrev pub is_younger : Option ℕ → ℕ → Bool
is_younger none days = false
is_younger (some age) days = ltb age days

unfoldable pub cleanup_class_of : PlanInputs → WorktreeInfo → Bool → Verdict → CleanupClass
cleanup_class_of inputs worktree applies verdict =
    if is_age_removal verdict
      && applies
      && ltb (effective_days inputs applies) inputs.stale_days
      && is_younger (commit_age inputs worktree) inputs.stale_days
    then pressure_class
    else routine_class

abbrev pub reason_of : CleanupClass → ℕ → Reason → Reason
reason_of pressure_class stale_days why = pressure_cleanup stale_days why
reason_of routine_class stale_days why = why

-- `worktree.exists && pressure_applies(..)?`
unfoldable pub applies_to : PlanInputs → WorktreeInfo → Result CleanupError Bool
applies_to inputs worktree =
    if worktree.exists then pressure_applies inputs.host worktree.path inputs.pressure else ok false

unfoldable pub decision_of : PlanInputs → WorktreeInfo → Bool → WorktreeDecision
decision_of inputs worktree applies =
    let verdict = worktree_verdict inputs worktree applies in
    let class = cleanup_class_of inputs worktree applies verdict in
    record {
      path = worktree.path;
      head = worktree.head;
      branch = worktree.branch;
      metadata_prunable = metadata_prunable_of worktree;
      action = verdict.action;
      cleanup_class = class;
      removal_trigger = verdict.removal_trigger;
      reason = reason_of class inputs.stale_days verdict.reason;
      protection = protection_for_path inputs.machine inputs.protections worktree.path;
      dirty_count = worktree.dirty_count;
      status_sha256 = worktree.status_sha256;
      last_commit = worktree.last_commit;
      activity_age_days = worktree.activity_age_days;
      pull_request = elim inputs.pull_request_policy [
        | none ↦ none
        | some _ ↦ evidence_of inputs worktree
      ];
    }

-- `collect` ends at the first error.
unfoldable pub plan_worktree_cleanup_with_pull_requests :
    PlanInputs → List WorktreeInfo → Result CleanupError (List WorktreeDecision)
plan_worktree_cleanup_with_pull_requests inputs [] = ok []
plan_worktree_cleanup_with_pull_requests inputs (worktree ∷ rest) = do
  applies ← applies_to inputs worktree
  later ← plan_worktree_cleanup_with_pull_requests inputs rest
  ok (decision_of inputs worktree applies ∷ later)
