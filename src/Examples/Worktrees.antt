-- ===== src/Examples/Worktrees.antt =====
-- The theorems about the worktree planner at a concrete worktree.
use worktree_gc.Base.{
  ℕ, ◌≤◌, ◌<◌, ◌≡◌, inl, inr, refl, Bool, true, false, List, [], ◌∷◌, String, Option, some, none,
  ok, arith,
}
use worktree_gc.Protection.Guard.{protection_for_path}
use worktree_gc.Worktree.{
  WorktreeInfo, WorktreeDecision, WorktreeRemovalTrigger, remove_worktree, prune_metadata,
  age_trigger, merged_pull_request, pressure_class,
}
use worktree_gc.Worktree.Plan.{
  PlanInputs, decision_of, commit_age, effective_days, metadata_prunable_of, evidence_of,
  plan_worktree_cleanup_with_pull_requests,
}
use worktree_gc.Worktree.Planning.{IsQuiet, HasAuthority, removal_authorised, authorised_removed}
use worktree_gc.Worktree.Classes.{
  IsPlanOf, plan-IsPlanOf, pressure_widens, pressure_class_lem, prune_metadata_iff,
}
use worktree_gc.Examples.Fixtures.{
  machine, host, lease, elsewhere, pressure, grace, evidence, merge, worktree,
}
use worktree_gc.PullRequest.{most_recent_merged_pull_request}

-- Ten days after the commit and the merge; the lease is for another path.
abbrev pub inputs : PlanInputs
inputs = record {
  machine = machine;
  host = host;
  stale_days = 20;
  now = 864_000;
  protections = record lease { path = elsewhere } ∷ [];
  pressure = some pressure;
  pull_request_policy = some grace;
  pull_request_evidence = λ _ _. some evidence;
  ownership_evidence_complete = true;
  owned_worktrees = elsewhere ∷ [];
}

removal_authorised_example :
    IsQuiet inputs worktree
    × ((trigger : WorktreeRemovalTrigger) × ((decision_of inputs worktree false).removal_trigger
          ≡ some trigger)
        × HasAuthority inputs worktree false trigger)
unfolding worktree_gc.Worktree.Plan.worktree_verdict protection_for_path worktree_gc.Base.max_by_key
    worktree_gc.FilePath.starts_with worktree_gc.FilePath.components
    worktree_gc.Worktree.Plan.verdict_on_branch worktree_gc.Worktree.Plan.evidence_of
    worktree_gc.Worktree.Plan.verdict_by_evidence
    worktree_gc.PullRequest.most_recent_merged_pull_request worktree_gc.FilePath.path_eq
removal_authorised_example = removal_authorised inputs worktree false (unfold decision_of in refl)

quiet : IsQuiet inputs worktree
unfolding worktree_gc.Worktree.Plan.worktree_verdict protection_for_path worktree_gc.Base.max_by_key
    worktree_gc.FilePath.starts_with worktree_gc.FilePath.components
    worktree_gc.Worktree.Plan.verdict_on_branch evidence_of
    worktree_gc.Worktree.Plan.verdict_by_evidence most_recent_merged_pull_request
    worktree_gc.FilePath.path_eq
quiet = (removal_authorised inputs worktree false (unfold decision_of in refl)).0

authority : HasAuthority inputs worktree true merged_pull_request
unfolding evidence_of most_recent_merged_pull_request
authority = (grace, evidence, merge, 10, refl, refl, refl, refl, refl, refl, omega arith)

authorised_removed_example :
    ((decision_of inputs worktree true).action ≡ remove_worktree)
    × ((decision_of inputs worktree true).removal_trigger ≡ some merged_pull_request)
authorised_removed_example =
    authorised_removed inputs worktree true merged_pull_request quiet authority

plan-IsPlanOf_example : IsPlanOf inputs (worktree ∷ []) (decision_of inputs worktree true ∷ [])
unfolding worktree_gc.Worktree.Plan.applies_to worktree_gc.Pressure.pressure_applies
    worktree_gc.Pressure.pressure_filesystem_entered
plan-IsPlanOf_example =
    plan-IsPlanOf inputs (worktree ∷ []) (decision_of inputs worktree true ∷ [])
      (unfold plan_worktree_cleanup_with_pull_requests in refl)

pressure_widens_example :
    ((decision_of inputs worktree true).action ≡ remove_worktree)
    × ((decision_of inputs worktree true).removal_trigger
        ≡ (decision_of inputs worktree false).removal_trigger)
unfolding worktree_gc.Worktree.Plan.worktree_verdict protection_for_path worktree_gc.Base.max_by_key
    worktree_gc.FilePath.starts_with worktree_gc.FilePath.components
    worktree_gc.Worktree.Plan.verdict_on_branch worktree_gc.Worktree.Plan.evidence_of
    worktree_gc.Worktree.Plan.verdict_by_evidence
    worktree_gc.PullRequest.most_recent_merged_pull_request worktree_gc.FilePath.path_eq
pressure_widens_example = pressure_widens inputs worktree (unfold decision_of in refl)

-- Without a policy on pull requests the age decides, under pressure.
abbrev by_age : PlanInputs
by_age = record inputs { pull_request_policy = none }

pressure_class_lem_example :
    ((decision_of by_age worktree true).action ≡ remove_worktree)
    × ((decision_of by_age worktree true).removal_trigger ≡ some age_trigger)
    × (true ≡ true)
    × (days : ℕ) × (commit_age by_age worktree ≡ some days)
    × (effective_days by_age true ≤ days)
    × (days < by_age.stale_days)
unfolding worktree_gc.Worktree.Plan.cleanup_class_of worktree_gc.Worktree.Plan.worktree_verdict
    protection_for_path worktree_gc.Base.max_by_key worktree_gc.FilePath.starts_with
    worktree_gc.FilePath.components worktree_gc.Worktree.Plan.verdict_on_branch
    worktree_gc.Worktree.Plan.verdict_by_age commit_age worktree_gc.PullRequest.age_days
    effective_days worktree_gc.FilePath.path_eq
pressure_class_lem_example = pressure_class_lem by_age worktree true (unfold decision_of in refl)

prune_metadata_iff_example :
    ((decision_of inputs worktree false).action ≡ prune_metadata
      → (protection_for_path inputs.machine inputs.protections worktree.path ≡ none)
        × (metadata_prunable_of worktree ≡ true))
    × ((protection_for_path inputs.machine inputs.protections worktree.path ≡ none)
          × (metadata_prunable_of worktree ≡ true)
        → (decision_of inputs worktree false).action ≡ prune_metadata)
prune_metadata_iff_example = prune_metadata_iff inputs worktree false
