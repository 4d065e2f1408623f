-- ===== src/Examples/Deletions.antt =====
-- The theorems about the deletion of generated directories at a concrete run: one directory of one
-- worktree, planned under pressure.
use worktree_gc.Base.{
  ℕ, ◌+◌, ◌≡◌, ◌≤◌, refl, Bool, true, false, List, [], ◌∷◌, Option, none, some, is_some, All,
  AllPairs, ℤ, pos, Result, ok, err, arith,
}
use worktree_gc.FilePath.{FilePath, starts_with}
use worktree_gc.Pressure.{PressurePolicy}
use worktree_gc.Worktree.{pressure_class}
use worktree_gc.Worktree.Revalidation.{
  Observations, ExecutionPass, pressure_generated, execution_matches,
}
use worktree_gc.Worktree.Execution.{
  RemovalEnv, OpenHandleSnapshot, available, indeterminate, dirs_with_open_handles_using,
}
use worktree_gc.Generated.Reconcile.{is_routine_class}
use worktree_gc.Generated.{
  GeneratedDirIdentity, GeneratedDirMeasurement, GeneratedDirDecision, delete_generated,
  ignored_generated, is_delete,
}
use worktree_gc.Generated.Execution.{
  generated_rebuild_rank, generated_deletions, is_only, rank_matches,
}
use worktree_gc.Generated.Execution.Boundary.{
  CandidateObservations, revalidate_generated_candidate, zip_activity, activity_beq,
  ownership_paths,
}
use worktree_gc.Generated.Execution.Remove.{DeletionEnv}
use worktree_gc.Generated.Execution.Cleanup.{ExecutionManifest, delete_generated_dirs}
use worktree_gc.Generated.Execution.Checks.{IsSameCandidate}
use worktree_gc.Generated.Execution.Approval.{boundary_of, revalidate_generated_candidate_sound}
use worktree_gc.Generated.Execution.Order.{generated_deletions_lem}
use worktree_gc.Generated.Execution.Safety.{DeletionRun, delete_generated_dirs-DeletionRun}
use worktree_gc.Examples.Fixtures.{machine, host, pressure, tree, build, elsewhere, stored}

abbrev identity : GeneratedDirIdentity
identity = record {
  canonical_path = build;
  filesystem = "disk";
  device = some 1;
  inode = some 2;
  modified_unix = some (pos 9);
  modified_nanos = some 0;
}

abbrev measurement : GeneratedDirMeasurement
measurement = record {
  measured_at_unix = 1;
  filesystem = "disk";
  complete = true;
  visited_entries = 2;
  metrics = record {
    logical_bytes = 3;
    allocated_bytes = 4;
    private_reclaimable_bytes = 4;
    private_reclaimable_complete = true;
    files = 1;
    directories = 1;
    hardlink_duplicates = 0;
    errors = 0;
  };
}

abbrev planned : GeneratedDirDecision
planned = record {
  path = build;
  worktree_path = tree;
  name = b't' ∷ [];
  mtime = none;
  mtime_unix = some (pos 9);
  mtime_nanos = some 0;
  effective_days = 3;
  in_use = false;
  ownership_evidence_complete = true;
  worktree_in_use = false;
  owner_free_pressure = true;
  protection = none;
  cleanup_class = pressure_class;
  identity = some identity;
  measurement = some measurement;
  source_dirty_count_without_candidate = none;
  source_status_sha256_without_candidate = none;
  sweeps = [];
  action = delete_generated;
  reason = ignored_generated;
}

abbrev observed : CandidateObservations
observed = record {
  canonical_worktree = some tree;
  canonical_candidate = some build;
  relative_is_text = true;
  tracked = some [];
  identity = some identity;
  mount_points = some [];
  filesystem = some "disk";
  activity = some (pos 9, 0);
}

abbrev idle : OpenHandleSnapshot
idle = available (elsewhere ∷ [])

abbrev answers : Observations
answers = record {
  git_common_dir = none;
  live_worktrees = none;
  now = 0;
  fresh_pull_requests = λ _ _ _. none;
  fresh_ownership = λ _. record {
    observed_at_unix = 0;
    backend = "lsof_global";
    protocol_version = none;
    helper_build_sha256 = none;
    complete = false;
    error = none;
    observations = [];
  };
}

-- The world counts what was removed.
abbrev env : DeletionEnv ℕ
env = record {
  removal = record {
    machine = λ _. machine;
    host = λ _. host;
    clock = λ _. 950;
    capture = λ _. idle;
    observe = λ _. answers;
    git_worktree_remove = λ _ n. (true, n);
  };
  instant = λ n. n;
  observe_candidate = λ _ n. (observed, n);
  profile_locks_present = λ _ _. ok false;
  acquire_profile_locks = λ _ _ _ n. (ok tt, n);
  release_profile_locks = λ n. n;
  remove_dir_all = λ _ n. (true, n + 1);
  sweep_incremental = λ _ _ n. (ok tt, n);
  reset_profiles = λ _ _ _ n. (ok tt, n);
  cargo_sweep = λ _ _ _ n. (ok tt, n);
  write_deferred = λ _ n. (ok tt, n);
}

abbrev manifest : ExecutionManifest
manifest = record {
  removal = record {
    git_common_dir = tree;
    pull_requests = none;
    pressure = some pressure;
    check_in_use = true;
  };
  worktrees = [];
  generated_dirs = planned ∷ [];
  cargo_lock_timeout_secs = some 30;
  defer_lock_timeouts = true;
}

abbrev pass : ExecutionPass
pass = pressure_generated 4

-- The run removes the directory.
run_removes :
    (delete_generated_dirs env false manifest pass
      (some idle)
      (some 7)
      []
      []
      []
      (planned ∷ [])
      []
      stored
      0).3
    ≡ 1
unfolding worktree_gc.Generated.Execution.Cleanup.delete_generated_dirs
    worktree_gc.Generated.Execution.Cleanup.deletion_step
    worktree_gc.Generated.Execution.Cleanup.may_delete
    worktree_gc.Generated.Execution.Cleanup.nested_in_planned_removal
    worktree_gc.Generated.Execution.Cleanup.still_wanted
    worktree_gc.Generated.Execution.Cleanup.delete_guarded
    worktree_gc.Generated.Execution.Cleanup.settle_guarded
    worktree_gc.Generated.Execution.Cleanup.deferred_or_failed
    worktree_gc.Generated.Execution.Remove.remove_generated_directory_with_timing
    worktree_gc.Generated.Execution.Remove.coordination
    worktree_gc.Generated.Execution.Remove.remove_target
    worktree_gc.Generated.Execution.Remove.remove_coordinated
    worktree_gc.Generated.Execution.Remove.remove_approved
    worktree_gc.Generated.Execution.Remove.before_remove
    worktree_gc.Generated.Execution.Remove.revalidate_before_ownership_deadline
    worktree_gc.Generated.Execution.Boundary.revalidate_generated_candidate
    worktree_gc.Generated.Execution.Boundary.check_owner_free
    worktree_gc.Generated.Execution.Boundary.revalidate_generated_candidate_boundary
    worktree_gc.Generated.Execution.Boundary.check_unowned
    worktree_gc.Generated.Execution.Boundary.check_containment
    worktree_gc.Generated.Execution.Boundary.same_identity
    worktree_gc.Generated.Execution.Boundary.ensure_single_filesystem_tree
    worktree_gc.Generated.Execution.Boundary.check_mounts
    worktree_gc.Generated.Execution.Boundary.validate_git_generated_boundary
    worktree_gc.Pressure.pressure_should_continue
    worktree_gc.Pressure.pressure_policy_should_continue
    worktree_gc.Pressure.pressure_filesystem_entered
    worktree_gc.Protection.Guard.with_protection_guard_at
    worktree_gc.Protection.Guard.with_protection_guards_at
    worktree_gc.Protection.Guard.guard_under_lock worktree_gc.Protection.Guard.decide_guard
    worktree_gc.Protection.Guard.protection_for_path
    worktree_gc.Protection.Active.read_active_protections
    worktree_gc.Protection.Active.read_active_protections_inner
    worktree_gc.Worktree.Execution.dirs_with_open_handles_using
    worktree_gc.Worktree.Execution.dirs_with_snapshot
    worktree_gc.Worktree.Execution.match_open_handle_paths worktree_gc.FilePath.path_eq
    worktree_gc.FilePath.starts_with worktree_gc.FilePath.components worktree_gc.Text.encode_utf8
    worktree_gc.Base.max_by_key
    worktree_gc.Generated.Reconcile.generated_measurement_has_execution_authority
    worktree_gc.Generated.Reconcile.private_reclaimable_measurement_has_execution_authority
    worktree_gc.Text.is_whitespace worktree_gc.Text.is_control
    worktree_gc.Protection.Lease.validate_stored_path worktree_gc.Protection.Lease.is_active
    worktree_gc.Protection.Active.inspect_leases worktree_gc.Protection.Active.persist_active
    worktree_gc.Protection.Registry.write_registry worktree_gc.Protection.Lease.match_of
    worktree_gc.Protection.Lease.validate_ttl worktree_gc.Protection.Lease.validate_reason
    worktree_gc.Protection.Lease.is_lowercase_hex worktree_gc.Protection.Lease.validate_lease_id
    worktree_gc.Protection.Lease.has_control worktree_gc.Protection.Active.prefixes
    worktree_gc.Protection.Active.walk_prefixes worktree_gc.Protection.Active.inspect_lease
    worktree_gc.Protection.Active.ttl_seconds worktree_gc.Protection.Active.within_limit
    worktree_gc.Protection.Active.checked_active worktree_gc.Protection.Registry.check_leases
    worktree_gc.Protection.Registry.read_registry
    worktree_gc.Protection.Registry.finish_registry_operation
    worktree_gc.Protection.Registry.with_registry_lock worktree_gc.Protection.Guard.resolved
    worktree_gc.Protection.Guard.covers worktree_gc.Protection.Guard.depth
    worktree_gc.Protection.Guard.covering_lease worktree_gc.Protection.Guard.observe
    worktree_gc.Text.trim_start worktree_gc.Text.trim worktree_gc.Text.saturating_add
    worktree_gc.Text.saturating_mul
run_removes = refl

delete_generated_dirs-DeletionRun_example :
    DeletionRun env false manifest pass
      (some idle)
      (some 7)
      []
      []
      []
      (planned ∷ [])
      []
      stored
      0
      (delete_generated_dirs env false manifest pass
        (some idle)
        (some 7)
        []
        []
        []
        (planned ∷ [])
        []
        stored
        0).3
delete_generated_dirs-DeletionRun_example =
    delete_generated_dirs-DeletionRun env false manifest pass (some idle) (some 7) [] [] []
      (planned ∷ []) [] stored 0

generated_deletions_lem_example :
    All
      (λ d.
        (is_delete d.action ≡ true)
        × (execution_matches d.cleanup_class pass ≡ true)
        × (is_only none d.path ≡ true)
        × (rank_matches pass d.name ≡ true))
      (generated_deletions false pass none (planned ∷ []))
    × AllPairs
        (λ a b. generated_rebuild_rank a.name ≤ generated_rebuild_rank b.name)
        (generated_deletions false pass none (planned ∷ []))
generated_deletions_lem_example = generated_deletions_lem false pass none (planned ∷ [])

revalidate_generated_candidate_sound_example :
    (is_delete planned.action ≡ true)
    × (is_routine_class planned.cleanup_class ≡ false)
    × (is_some planned.protection ≡ false)
    × ((identity : GeneratedDirIdentity) × (measurement : GeneratedDirMeasurement)
        × (planned.identity ≡ some identity)
        × (planned.measurement ≡ some measurement)
        × IsSameCandidate false observed (boundary_of planned identity measurement none))
    × ((activity : ℤ × ℕ) × (current : ℤ × ℕ) × (zip_activity planned.mtime_unix planned.mtime_nanos
          ≡ some activity)
        × (observed.activity ≡ some current)
        × (activity_beq current activity ≡ true))
    × (is_some (some idle) ≡ true
        → dirs_with_open_handles_using (ownership_paths planned) (some idle) indeterminate ≡ [])
unfolding revalidate_generated_candidate worktree_gc.FilePath.path_eq starts_with
    worktree_gc.Text.encode_utf8
    worktree_gc.Generated.Reconcile.generated_measurement_has_execution_authority
    dirs_with_open_handles_using
revalidate_generated_candidate_sound_example =
    revalidate_generated_candidate_sound false planned (some idle) none observed refl
