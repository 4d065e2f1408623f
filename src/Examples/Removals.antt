-- ===== src/Examples/Removals.antt =====
-- The theorems about the removal of worktrees at a concrete run.
use worktree_gc.Base.{◌≡◌, ◌⊎◌, if◌then◌else◌, ℕ, ◌+◌, refl, true, false, [], ◌∷◌, some, none}
use worktree_gc.FilePath.{FilePath}
use worktree_gc.Worktree.{
  WorktreeDecision, remove_worktree, routine_class, merged_pull_request, merged_at_least,
}
use worktree_gc.Worktree.Revalidation.{
  Observations, RemovalManifest, routine_pass, revalidate_pull_request_removal,
}
use worktree_gc.Worktree.Revalidation.Identity.{IsRevalidated, revalidate-IsRevalidated}
use worktree_gc.Worktree.Execution.{RemovalEnv, available, execute_worktree_removals}
use worktree_gc.Worktree.Execution.Safety.{AuthorisedRun, execute_worktree_removals-AuthorisedRun}
use worktree_gc.Worktree.Execution.Prune.{
  PruneEnv, PruneManifest, IsPlannedPrune, execute_planned_metadata_prune,
  execute_planned_metadata_prune_safe,
}
use worktree_gc.Examples.Fixtures.{
  machine, host, pressure, grace, evidence, worktree, tree, elsewhere, stored,
}

abbrev pub decision : WorktreeDecision
decision = record {
  path = tree;
  head = some "c0";
  branch = some "topic";
  metadata_prunable = false;
  action = remove_worktree;
  cleanup_class = routine_class;
  removal_trigger = some merged_pull_request;
  reason = merged_at_least 5 7 "u";
  protection = none;
  dirty_count = some 0;
  status_sha256 = some "s";
  last_commit = none;
  activity_age_days = some 10;
  pull_request = some evidence;
}

abbrev pub manifest : RemovalManifest
manifest = record {
  git_common_dir = tree;
  pull_requests = some grace;
  pressure = some pressure;
  check_in_use = true;
}

abbrev pub observed : Observations
observed = record {
  git_common_dir = some tree;
  live_worktrees = some (worktree ∷ []);
  now = 864_000;
  fresh_pull_requests = λ _ _ _. some evidence;
  fresh_ownership = λ _. record {
    observed_at_unix = 0;
    backend = "lsof_global";
    protocol_version = none;
    helper_build_sha256 = none;
    complete = true;
    error = none;
    observations = [];
  };
}

revalidate-IsRevalidated_example : IsRevalidated manifest observed decision
unfolding worktree_gc.Worktree.Revalidation.revalidate_identified worktree_gc.FilePath.path_eq
    worktree_gc.FilePath.components worktree_gc.Worktree.Revalidation.revalidate_live
    worktree_gc.Worktree.Revalidation.is_unchanged
    worktree_gc.Worktree.Revalidation.evidence_matches
    worktree_gc.Worktree.Revalidation.fresh_evidence
    worktree_gc.PullRequest.merged_pull_request_evidence_matches
    worktree_gc.PullRequest.most_recent_merged_pull_request
    worktree_gc.Worktree.Revalidation.fresh_ownership_allows_removal
revalidate-IsRevalidated_example =
    revalidate-IsRevalidated manifest observed decision
      (unfold revalidate_pull_request_removal in refl)

-- The world counts the removals.
abbrev pub env : RemovalEnv ℕ
env = record {
  machine = λ _. machine;
  host = λ _. host;
  clock = λ _. 950;
  capture = λ _. available (elsewhere ∷ []);
  observe = λ _. observed;
  git_worktree_remove = λ _ n. (true, n + 1);
}

execute_worktree_removals-AuthorisedRun_example :
    AuthorisedRun env manifest routine_pass none
      (decision ∷ [])
      []
      stored
      0
      (execute_worktree_removals env manifest routine_pass none (decision ∷ []) [] stored 0).3
execute_worktree_removals-AuthorisedRun_example =
    execute_worktree_removals-AuthorisedRun env manifest routine_pass none (decision ∷ []) [] stored
      0

-- The world counts the prunes; Git reports what was planned.
abbrev prune_env : PruneEnv ℕ
prune_env = record {
  machine = λ _. machine;
  clock = λ _. 950;
  git_worktree_prune = λ _ execute n. (some (b'p' ∷ []), if execute then n + 1 else n);
}

abbrev prune_manifest : PruneManifest
prune_manifest = record {
  metadata_prune_enabled = true;
  current_worktree = elsewhere;
  prune_output = b'p' ∷ [];
  worktrees = decision ∷ [];
  git_common_dir = elsewhere;
}

execute_planned_metadata_prune_safe_example :
    ((execute_planned_metadata_prune prune_env prune_manifest stored 0).2 ≡ 0)
    ⊎ ((execute_planned_metadata_prune prune_env prune_manifest stored 0).2 ≡ 0)
    ⊎ IsPlannedPrune prune_env prune_manifest stored 0
        (execute_planned_metadata_prune prune_env prune_manifest stored 0).2
execute_planned_metadata_prune_safe_example =
    execute_planned_metadata_prune_safe prune_env prune_manifest stored 0
