-- ===== src/Examples/Progress.antt =====
-- The theorem about the removal of an authorised worktree at a concrete worktree.
use mathlib.Core.Bool.{false≢true}
use worktree_gc.Base.{refl, [], ◌∷◌, inl, none}
use worktree_gc.Worktree.Revalidation.{routine_pass, revalidate_pull_request_removal}
use worktree_gc.Worktree.Execution.{removal_step, execution_snapshot_allows_worktree_removal}
use worktree_gc.Worktree.Execution.Safety.{IsAuthorised}
use worktree_gc.Worktree.Execution.Progress.{IsRemoval, removal_step_removes}
use worktree_gc.Protection.Safety.{IsUnprotected}
use worktree_gc.Protection.Registry.{read_registry}
use worktree_gc.Protection.Lease.{is_active}
use worktree_gc.Protection.Active.{read_active_protections}
use worktree_gc.Examples.Fixtures.{machine, registry, stored, tree}
use worktree_gc.Examples.Removals.{decision, manifest, env}

-- The only lease has expired at 950.
decision-IsUnprotected : IsUnprotected machine 950 stored (tree ∷ [])
unfolding worktree_gc.Protection.Lease.validate_lease_id
    worktree_gc.Protection.Lease.validate_reason worktree_gc.Text.trim worktree_gc.Text.trim_start
    worktree_gc.Text.is_whitespace worktree_gc.Text.is_control
    worktree_gc.Protection.Lease.validate_stored_path worktree_gc.FilePath.is_absolute
    worktree_gc.FilePath.components
decision-IsUnprotected = record {
  registry = registry;
  readable = (unfold read_registry in refl);
  uncovered = (((λ active. absurd (false≢true (unfold is_active in active))), tt), tt);
}

decision-IsAuthorised : IsAuthorised env manifest routine_pass none decision [] stored 0
unfolding worktree_gc.FilePath.starts_with worktree_gc.FilePath.components
    worktree_gc.Worktree.Revalidation.revalidate_identified worktree_gc.FilePath.path_eq
    worktree_gc.Worktree.Revalidation.revalidate_live worktree_gc.Worktree.Revalidation.is_unchanged
    worktree_gc.Worktree.Revalidation.evidence_matches
    worktree_gc.Worktree.Revalidation.fresh_evidence
    worktree_gc.PullRequest.merged_pull_request_evidence_matches
    worktree_gc.PullRequest.most_recent_merged_pull_request
    worktree_gc.Worktree.Revalidation.fresh_ownership_allows_removal
decision-IsAuthorised = record {
  present = refl;
  wanted = inl refl;
  idle = λ _. unfold execution_snapshot_allows_worktree_removal in refl;
  unchanged = λ _. unfold revalidate_pull_request_removal in refl;
  unprotected = decision-IsUnprotected;
}

removal_step_removes_example :
    IsRemoval env manifest routine_pass none decision 0
      (removal_step env manifest routine_pass none decision [] stored 0)
unfolding worktree_gc.Protection.Active.read_active_protections_inner
    worktree_gc.Protection.Active.checked_active read_registry
    worktree_gc.Protection.Lease.validate_lease_id worktree_gc.Protection.Lease.validate_reason
    worktree_gc.Text.trim worktree_gc.Text.trim_start worktree_gc.Text.is_whitespace
    worktree_gc.Text.is_control worktree_gc.Protection.Lease.validate_stored_path
    worktree_gc.FilePath.is_absolute worktree_gc.FilePath.components is_active
    worktree_gc.Protection.Active.inspect_leases worktree_gc.Protection.Active.persist_active
    worktree_gc.Protection.Registry.write_registry
removal_step_removes_example =
    removal_step_removes env manifest routine_pass none decision [] stored 0 []
      decision-IsAuthorised refl refl (unfold read_active_protections in refl)
