-- ===== src/Generated/Reconcile.antt =====
-- `reconcile_structural_cleanup_authority` and `reconcile_measured_cleanup_authority` of src/lib.rs:
-- what is retained protects everything that contains it. The loop is a recursion on fuel.
pub mod Loop
pub mod Safety
use worktree_gc.Base.{
  ℕ, zero, suc, ◌≡◌, Bool, true, false, not, ◌&&◌, ◌||◌, List, [], ◌∷◌, map, Option, none, some,
  any, retain, length, if◌then◌else◌, Result, ok, err, ◌>>=◌, nat_beq, context,
}
use worktree_gc.FilePath.{FilePath, path_eq, starts_with}
use worktree_gc.Protection.Registry.{IoResult, done, not_found, other_error}
use worktree_gc.Pressure.{CleanupError, measurement_unreadable}
use worktree_gc.Worktree.{
  WorktreeDecision, WorktreeAction, CleanupClass, remove_worktree, keep_worktree, prune_metadata,
  routine_class, pressure_class, contains_retained,
}
use worktree_gc.Generated.{
  GeneratedDirDecision, GeneratedDirMeasurement, InventoryMetrics, is_delete, is_retained,
  has_refused_candidate, skip_generated, refused_sweep, nested_retained, unmeasured,
  GeneratedReason,
}

abbrev pub skip : GeneratedReason → GeneratedDirDecision → GeneratedDirDecision
skip why decision = record decision { action = skip_generated; reason = why }

abbrev pub is_refused_delete : GeneratedDirDecision → Bool
is_refused_delete decision =
    is_delete decision.action && any (λ sweep. has_refused_candidate sweep) decision.sweeps

unfoldable pub refuse : GeneratedDirDecision → GeneratedDirDecision
refuse decision = if is_refused_delete decision then skip refused_sweep decision else decision

unfoldable pub retained_paths : List GeneratedDirDecision → List FilePath
retained_paths decisions =
    map (λ decision. decision.path) (retain (λ decision. is_retained decision.action) decisions)

-- A path strictly below the decision's is retained.
abbrev pub holds_retained : List FilePath → GeneratedDirDecision → Bool
holds_retained paths decision =
    any (λ retained. not (path_eq retained decision.path) && starts_with retained decision.path)
      paths

abbrev pub is_blocked : List FilePath → GeneratedDirDecision → Bool
is_blocked paths decision = is_delete decision.action && holds_retained paths decision

unfoldable pub block : List FilePath → GeneratedDirDecision → GeneratedDirDecision
block paths decision = if is_blocked paths decision then skip nested_retained decision else decision

-- One turn of the loop, and the flag `changed`.
unfoldable pub turn : List GeneratedDirDecision → List GeneratedDirDecision × Bool
unfolding block
turn decisions =
    let paths = retained_paths decisions in
    (map (block paths) decisions, any (is_blocked paths) decisions)

-- No result means that the fuel ran out.
unfoldable pub settle : ℕ → List GeneratedDirDecision → Option (List GeneratedDirDecision)
unfolding turn
settle zero decisions = none
settle (suc fuel) decisions =
    let (after, changed) = turn decisions in
    elim changed [ true ↦ settle fuel after | false ↦ some after ]

abbrev pub is_remove : WorktreeAction → Bool
is_remove remove_worktree = true
is_remove _ = false

abbrev pub holds_generated : List FilePath → WorktreeDecision → Bool
holds_generated paths decision = any (λ path. starts_with path decision.path) paths

unfoldable pub keep_holder : List FilePath → WorktreeDecision → WorktreeDecision
keep_holder paths decision =
    if is_remove decision.action && holds_generated paths decision
    then record decision {
      action = keep_worktree;
      removal_trigger = none;
      reason = contains_retained;
    }
    else decision

pub record CleanupDecisions : Type 0 where
  pub generated_dirs : List GeneratedDirDecision
  pub worktrees : List WorktreeDecision

abbrev pub settle_fuel : List GeneratedDirDecision → ℕ
settle_fuel decisions = suc (length decisions)

unfoldable pub reconcile_structural_cleanup_authority : CleanupDecisions → Option CleanupDecisions
unfolding refuse keep_holder
reconcile_structural_cleanup_authority manifest =
    elim (settle (settle_fuel manifest.generated_dirs) (map refuse manifest.generated_dirs)) [
      | none ↦ none
      | some settled ↦ some (record {
        generated_dirs = settled;
        worktrees = map (keep_holder (retained_paths settled)) manifest.worktrees;
      })
    ]

-- The flag says whether the target is macOS.
unfoldable pub private_reclaimable_measurement_has_execution_authority :
    Bool → InventoryMetrics → Bool
private_reclaimable_measurement_has_execution_authority macos metrics =
    if macos then metrics.private_reclaimable_complete else true

unfoldable pub generated_measurement_has_execution_authority : Bool → GeneratedDirMeasurement → Bool
unfolding private_reclaimable_measurement_has_execution_authority
generated_measurement_has_execution_authority macos measurement =
    measurement.complete
    && nat_beq measurement.metrics.errors 0
    && private_reclaimable_measurement_has_execution_authority macos measurement.metrics

abbrev pub is_measured : Bool → GeneratedDirDecision → Bool
is_measured macos decision = elim decision.measurement [
  | none ↦ false
  | some measurement ↦ generated_measurement_has_execution_authority macos measurement
]

abbrev pub is_routine_class : CleanupClass → Bool
is_routine_class routine_class = true
is_routine_class pressure_class = false

unfoldable pub routine_removals : List WorktreeDecision → List FilePath
routine_removals worktrees =
    map (λ decision. decision.path)
      (retain (λ decision. is_remove decision.action && is_routine_class decision.cleanup_class)
        worktrees)

-- What needs no measurement: what is not deleted, and what goes with its worktree.
abbrev pub is_exempt : List FilePath → GeneratedDirDecision → Bool
is_exempt removals decision =
    not (is_delete decision.action) || any (λ worktree. starts_with decision.path worktree) removals

-- One turn of the loop over the decisions; `symlink_metadata` is whether the path is there.
unfoldable pub require_measurement :
    Bool
    → (FilePath → IoResult (Unit {0}))
    → List FilePath
    → GeneratedDirDecision
    → Result CleanupError GeneratedDirDecision
require_measurement macos symlink_metadata removals decision =
    if is_exempt removals decision then ok decision else elim (symlink_metadata decision.path) [
      | done _ ↦ ok (if is_measured macos decision then decision else skip unmeasured decision)
      | not_found ↦ ok decision
      | other_error ↦ err measurement_unreadable
    ]

unfoldable pub require_measurements :
    Bool
    → (FilePath → IoResult (Unit {0}))
    → List FilePath
    → List GeneratedDirDecision
    → Result CleanupError (List GeneratedDirDecision)
unfolding require_measurement
require_measurements macos symlink_metadata removals [] = ok []
require_measurements macos symlink_metadata removals (decision ∷ rest) = do
  first ← require_measurement macos symlink_metadata removals decision
  later ← require_measurements macos symlink_metadata removals rest
  ok (first ∷ later)

-- No result in the success means that the fuel ran out.
unfoldable pub reconcile_measured_cleanup_authority :
    Bool
    → (FilePath → IoResult (Unit {0}))
    → CleanupDecisions
    → Result CleanupError (Option CleanupDecisions)
unfolding require_measurements
reconcile_measured_cleanup_authority macos symlink_metadata manifest = do
  measured ←
      require_measurements macos symlink_metadata (routine_removals manifest.worktrees)
        manifest.generated_dirs
  ok (reconcile_structural_cleanup_authority (record manifest { generated_dirs = measured }))
