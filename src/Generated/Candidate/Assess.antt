-- ===== src/Generated/Candidate/Assess.antt =====
-- What `scan_generated_dirs_for_worktree` of src/lib.rs computes about a candidate before it decides.
use worktree_gc.Base.{
  ℕ, Bool, true, false, not, ◌&&◌, ◌||◌, List, [], ◌∷◌, map, Option, none, some, any, min,
  if◌then◌else◌, ◌==◌, list_eq, nat_eq,
}
use worktree_gc.FilePath.{FilePath}
use worktree_gc.PullRequest.{age_days}
use worktree_gc.Protection.Guard.{protection_for_path}
use worktree_gc.Pressure.{PressurePolicy}
use worktree_gc.Worktree.Execution.{OpenHandleSnapshot, available, dirs_with_open_handles_using}
use worktree_gc.Generated.Config.{GeneratedCandidateAction, candidate_delete, effective_days}
use worktree_gc.Generated.Candidate.{
  GeneratedCandidate, ScanInputs, path_is_under, is_less, is_listed, Assessment,
}

abbrev pub is_available : Option OpenHandleSnapshot → Bool
is_available (some (available _)) = true
is_available _ = false

abbrev pub ownership_complete : ScanInputs → Bool
ownership_complete inputs =
    inputs.policy.check_in_use && is_available inputs.policy.open_handle_snapshot

abbrev pub in_open_dirs : ScanInputs → List FilePath → FilePath → Bool
in_open_dirs inputs paths path =
    inputs.policy.check_in_use
    && is_listed path
        (dirs_with_open_handles_using paths inputs.policy.open_handle_snapshot inputs.captured)

abbrev pub candidate_days : ScanInputs → ℕ → Bool → ℕ
candidate_days inputs routine_days applies = elim inputs.policy.pressure [
  | none ↦ routine_days
  | some pressure ↦ if applies then min routine_days pressure.generated_days else routine_days
]

abbrev pub is_owner_free : Option PressurePolicy → Bool
is_owner_free none = false
is_owner_free (some pressure) = pressure.owner_free_generated

-- The worktree was active within the days.
abbrev pub worktree_recent : ScanInputs → ℕ → Bool
worktree_recent inputs days =
    not inputs.policy.generated_activity_only
    && (inputs.worktree.is_current || is_less inputs.worktree.activity_age_days days)

-- The directory was written within the days.
abbrev pub dir_recent : ScanInputs → GeneratedCandidate → ℕ → Bool
dir_recent inputs candidate days = elim candidate.mtime_unix [
  | none ↦ false
  | some unix ↦ is_less (age_days inputs.policy.now unix) days
]

abbrev pub is_deletable : GeneratedCandidateAction → Bool
is_deletable candidate_delete = true
is_deletable _ = false

abbrev pub is_absent {ℓ} : {A : Type ℓ} → Option A → Bool
is_absent none = true
is_absent (some _) = false

unfoldable pub assess : ScanInputs → GeneratedCandidate → Bool → Assessment
assess inputs candidate applies =
    let routine_days = effective_days inputs.config candidate.name inputs.policy.generated_days in
    let days = candidate_days inputs routine_days applies in
    let tracked = any (λ path. path_is_under path candidate.relative_key) inputs.tracked_paths in
    let routine_active =
      worktree_recent inputs routine_days || dir_recent inputs candidate routine_days in
    let active = worktree_recent inputs days || dir_recent inputs candidate days in
    let complete = ownership_complete inputs in
    let protection = protection_for_path inputs.machine inputs.protections candidate.path in
    let owner_free = applies && is_owner_free inputs.policy.pressure && routine_active in
    let candidate_in_use =
      in_open_dirs inputs (map (λ c. c.path) inputs.candidates) candidate.path in
    let worktree_in_use =
      (owner_free || inputs.policy.check_worktree_in_use)
      && in_open_dirs inputs (inputs.worktree.path ∷ []) inputs.worktree.path in
    let deletable = is_deletable candidate.action && not active && not tracked in
    record {
      protection = protection;
      routine_days = routine_days;
      pressure_applies = applies;
      effective_days = days;
      ignored = any (λ path. path == candidate.relative_key) inputs.ignored_paths;
      has_tracked_files = tracked;
      routine_active = routine_active;
      active = active;
      candidate_in_use = candidate_in_use;
      worktree_in_use = worktree_in_use;
      in_use = candidate_in_use && (deletable || owner_free || inputs.policy.check_worktree_in_use);
      ownership_evidence_complete = complete;
      owner_free_pressure_candidate = owner_free;
      owner_free_pressure =
          owner_free
          && complete
          && not worktree_in_use
          && not candidate_in_use
          && is_absent protection
          && is_deletable candidate.action
          && not tracked;
    }
