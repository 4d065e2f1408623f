-- ===== src/Examples/Directories.antt =====
-- The theorems about generated directories at concrete decisions.
use worktree_gc.Base.{
  map, ℕ, ◌≡◌, refl, Bool, true, false, List, [], ◌∷◌, ◌++◌, map, any, All, Option, some, none, ok,
  if◌then◌else◌, ◌==◌, list_eq, nat_eq,
}
use worktree_gc.FilePath.{FilePath}
use worktree_gc.Protection.Registry.{IoResult, done}
use worktree_gc.Worktree.{routine_class}
use worktree_gc.Worktree.Plan.{decision_of}
use worktree_gc.Worktree.Execution.{available}
use worktree_gc.Generated.{
  Name, GeneratedDirDecision, GeneratedDirMeasurement, delete_generated, skip_generated,
  ignored_generated, nested_retained, is_delete,
}
use worktree_gc.Generated.Config.{GeneratedDirConfig, effective_days, target, candidate_delete}
use worktree_gc.Generated.Candidate.{ScanInputs, GeneratedCandidate}
use worktree_gc.Generated.Candidate.Assess.{assess}
use worktree_gc.Generated.Candidate.Decide.{info_of}
use worktree_gc.Generated.Candidate.Deletion.{IsDeletable, deletion_lem}
use worktree_gc.Generated.Reconcile.{
  settle_fuel, refuse, CleanupDecisions, reconcile_structural_cleanup_authority,
  reconcile_measured_cleanup_authority, routine_removals, settle, retained_paths, is_blocked,
}
use worktree_gc.Generated.Reconcile.Safety.{
  IsReconciled, reconcile-IsReconciled, IsMeasured, deletion_authority_lem,
}
use worktree_gc.Examples.Fixtures.{machine, host, worktree, tree, build, nested, lease, elsewhere}
use worktree_gc.Examples.Worktrees.{inputs}

abbrev config : GeneratedDirConfig
config = record {
  delete_names = target ∷ [];
  report_only_names = [];
  window_overrides = record { name = target; days = 3 } ∷ [];
  sweep_strategies = [];
  sweep_paths = [];
}

abbrev candidate : GeneratedCandidate
candidate = record {
  path = build;
  relative_key = b't' ∷ [];
  name = target;
  action = candidate_delete;
  mtime_unix = none;
  mtime_nanos = none;
}

abbrev scan : ScanInputs
scan = record {
  machine = machine;
  host = host;
  worktree = worktree;
  config = config;
  protections = record lease { path = elsewhere } ∷ [];
  policy = record {
    generated_days = 7;
    generated_activity_only = false;
    check_in_use = true;
    check_worktree_in_use = true;
    open_handle_snapshot = some (available (elsewhere ∷ []));
    now = 864_000;
    pressure = none;
  };
  candidates = candidate ∷ [];
  ignored_paths = (b't' ∷ []) ∷ [];
  tracked_paths = [];
  captured = available [];
  plan_sweeps = λ _ _. some [];
}

deletion_lem_example : IsDeletable scan candidate false
unfolding worktree_gc.Generated.Candidate.Decide.generated_verdict assess
    worktree_gc.Protection.Guard.protection_for_path worktree_gc.Base.max_by_key
    worktree_gc.FilePath.starts_with worktree_gc.FilePath.components
    worktree_gc.Worktree.Execution.dirs_with_open_handles_using effective_days
deletion_lem_example = deletion_lem scan candidate false [] (unfold info_of in refl)

abbrev measurement : GeneratedDirMeasurement
measurement = record {
  measured_at_unix = 1;
  filesystem = "disk";
  complete = true;
  visited_entries = 1;
  metrics = record {
    logical_bytes = 1;
    allocated_bytes = 1;
    private_reclaimable_bytes = 1;
    private_reclaimable_complete = true;
    files = 1;
    directories = 1;
    hardlink_duplicates = 0;
    errors = 0;
  };
}

abbrev outer : GeneratedDirDecision
outer = record {
  path = build;
  worktree_path = tree;
  name = target;
  mtime = none;
  mtime_unix = none;
  mtime_nanos = none;
  effective_days = 3;
  in_use = false;
  ownership_evidence_complete = true;
  worktree_in_use = false;
  owner_free_pressure = false;
  protection = none;
  cleanup_class = routine_class;
  identity = none;
  measurement = some measurement;
  source_dirty_count_without_candidate = none;
  source_status_sha256_without_candidate = none;
  sweeps = [];
  action = delete_generated;
  reason = ignored_generated;
}

abbrev inner : GeneratedDirDecision
inner = record outer { path = nested; action = skip_generated }

abbrev before : CleanupDecisions
before = record {
  generated_dirs = outer ∷ inner ∷ [];
  worktrees = decision_of inputs worktree true ∷ [];
}

-- The retained directory keeps the one that contains it, and the worktree.
outer_kept :
    reconcile_structural_cleanup_authority (record before { worktrees = [] })
    ≡ some (record before {
      generated_dirs =
          record outer { action = skip_generated; reason = nested_retained } ∷ inner ∷ [];
      worktrees = [];
    })
unfolding settle retained_paths worktree_gc.FilePath.path_eq worktree_gc.FilePath.components
    worktree_gc.FilePath.starts_with
outer_kept = unfold reconcile_structural_cleanup_authority in refl

reconcile-IsReconciled_example :
    (after : CleanupDecisions) × (reconcile_structural_cleanup_authority before ≡ some after)
    × IsReconciled before after
reconcile-IsReconciled_example = reconcile-IsReconciled before

abbrev there : FilePath → IoResult (Unit {0})
there path = done tt

abbrev lone : CleanupDecisions
lone = record { generated_dirs = outer ∷ []; worktrees = [] }

deletion_authority_lem_example :
    All
      (λ decision.
        is_delete decision.action ≡ true
        → IsMeasured true there (routine_removals lone.worktrees) decision)
      lone.generated_dirs
unfolding routine_removals reconcile_structural_cleanup_authority settle
    worktree_gc.Generated.Reconcile.generated_measurement_has_execution_authority retained_paths
deletion_authority_lem_example =
    deletion_authority_lem true there lone lone
      (unfold reconcile_measured_cleanup_authority in refl)
