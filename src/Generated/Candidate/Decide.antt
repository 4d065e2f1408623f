-- ===== src/Generated/Candidate/Decide.antt =====
-- The decision of `scan_generated_dirs_for_worktree` of src/lib.rs about each candidate.
use worktree_gc.Base.{
  ℕ, Bool, true, false, not, ◌&&◌, ◌||◌, List, [], ◌∷◌, ◌++◌, map, Option, none, some, any, retain,
  ltb, if◌then◌else◌, list_eq, nat_eq, ℤ, Result, ok, err, ◌>>=◌,
}
use worktree_gc.FilePath.{FilePath}
use worktree_gc.Pressure.{CleanupError, pressure_applies, sweep_failed}
use worktree_gc.Worktree.{CleanupClass, routine_class, pressure_class}
use worktree_gc.Generated.{
  Name, SweepDecision, SweepTool, has_work, GeneratedDirAction, GeneratedReason, is_delete,
  delete_generated, sweep_generated, report_only, skip_generated, is_report_only,
  generated_protected, owner_free_unobserved, routine_unobserved, open_files, worktree_owned,
  tracked_files, no_eligible_artifacts, owned_with_sweeps, explicit_sweep, active_with_sweeps,
  planned_sweeps, recent_generated, recent_activity, ignored_generated, untracked_generated,
  owner_free_ignored, owner_free_untracked, bypasses_age, owner_free_cleanup, pressure_below,
}
use worktree_gc.Generated.Config.{
  GeneratedCandidateAction, candidate_report_only, candidate_sweep_only, sweep_strategies_for,
  is_empty,
}
use worktree_gc.Generated.Candidate.{GeneratedCandidate, ScanInputs, Assessment}
use worktree_gc.Protection.Lease.{ProtectionMatch}
use worktree_gc.Generated.Candidate.Assess.{is_absent, assess}

abbrev pub is_sweep_only : GeneratedCandidateAction → Bool
is_sweep_only candidate_sweep_only = true
is_sweep_only _ = false

abbrev pub is_reported : GeneratedCandidateAction → Bool
is_reported candidate_report_only = true
is_reported _ = false

abbrev fallback_sweep_only : ScanInputs → GeneratedCandidate → Assessment → Bool
fallback_sweep_only inputs candidate found =
    inputs.policy.check_worktree_in_use
    && not found.routine_active
    && not (is_sweep_only candidate.action)

-- The sweeps that are planned; an optional fallback that cannot be planned is left out.
unfoldable pub planned :
    ScanInputs → GeneratedCandidate → Assessment → Result CleanupError (List SweepDecision)
planned inputs candidate found =
    let strategies = sweep_strategies_for inputs.config candidate.path candidate.name in
    let fallback = fallback_sweep_only inputs candidate found in
    if not (is_reported candidate.action)
      && is_absent found.protection
      && (found.routine_active || is_sweep_only candidate.action || fallback)
      && not found.has_tracked_files
      && not (is_empty strategies)
    then elim (inputs.plan_sweeps candidate.path strategies) [
      | some sweeps ↦ ok sweeps
      | none ↦ if fallback then ok [] else err sweep_failed
    ]
    else ok []

-- The tools with work and their reasons, which the messages list.
abbrev pub descriptions : List SweepDecision → List (SweepTool × Name)
descriptions sweeps = map (λ sweep. (sweep.tool, sweep.reason)) (retain has_work sweeps)

-- `join("; ")`
join_reasons : List SweepDecision → Name
join_reasons [] = []
join_reasons (sweep ∷ []) = sweep.reason
join_reasons (sweep ∷ next ∷ rest) = sweep.reason ++ (59 ∷ 32 ∷ join_reasons (next ∷ rest))

pub record GeneratedVerdict : Type 0 where
  pub action : GeneratedDirAction
  pub reason : GeneratedReason

abbrev pub verdict : GeneratedDirAction → GeneratedReason → GeneratedVerdict
verdict action why = record { action = action; reason = why }

-- Sweep if there is work, and otherwise skip for the reason given.
unfoldable pub sweep_or : List SweepDecision → GeneratedReason → GeneratedReason → GeneratedVerdict
sweep_or sweeps swept skipped =
    if any has_work sweeps then verdict sweep_generated swept else verdict skip_generated skipped

reasons_or : List SweepDecision → GeneratedReason → GeneratedReason
unfolding join_reasons
reasons_or sweeps otherwise = elim (join_reasons sweeps) [
  | [] ↦ otherwise
  | c ∷ cs ↦ planned_sweeps (c ∷ cs)
]

unfoldable pub sweep_only_verdict : Assessment → List SweepDecision → GeneratedVerdict
unfolding sweep_or reasons_or
sweep_only_verdict found sweeps =
    if found.has_tracked_files
    then verdict skip_generated tracked_files
    else sweep_or sweeps (explicit_sweep (descriptions sweeps))
        (reasons_or sweeps no_eligible_artifacts)

recent_reason : ScanInputs → Assessment → GeneratedReason
recent_reason inputs found =
    if inputs.policy.generated_activity_only
    then recent_generated found.effective_days
    else recent_activity found.effective_days

deletion_reason : Assessment → GeneratedReason
deletion_reason found =
    if found.ignored
    then (if found.owner_free_pressure then owner_free_ignored else ignored_generated)
    else (if found.owner_free_pressure then owner_free_untracked else untracked_generated)

-- The branches behind the ownership tests.
unfoldable pub unowned_verdict :
    ScanInputs → GeneratedCandidate → Assessment → List SweepDecision → GeneratedVerdict
unfolding sweep_only_verdict sweep_or reasons_or recent_reason deletion_reason
unowned_verdict inputs candidate found sweeps =
    if is_sweep_only candidate.action
    then sweep_only_verdict found sweeps
    else if found.active && not found.owner_free_pressure
    then sweep_or sweeps (active_with_sweeps (descriptions sweeps))
        (reasons_or sweeps (recent_reason inputs found))
    else if found.has_tracked_files
    then verdict skip_generated tracked_files
    else verdict delete_generated (deletion_reason found)

unfoldable pub unprotected_verdict :
    ScanInputs → GeneratedCandidate → Assessment → List SweepDecision → GeneratedVerdict
unfolding unowned_verdict sweep_or
unprotected_verdict inputs candidate found sweeps =
    if found.owner_free_pressure_candidate && not found.ownership_evidence_complete
    then verdict skip_generated owner_free_unobserved
    else if inputs.policy.check_worktree_in_use && not found.ownership_evidence_complete
    then verdict skip_generated routine_unobserved
    else if found.in_use
    then verdict skip_generated open_files
    else if found.worktree_in_use
    then sweep_or sweeps (owned_with_sweeps (descriptions sweeps)) worktree_owned
    else unowned_verdict inputs candidate found sweeps

unfoldable pub generated_verdict :
    ScanInputs → GeneratedCandidate → Assessment → List SweepDecision → GeneratedVerdict
unfolding unprotected_verdict
generated_verdict inputs candidate found sweeps =
    if is_reported candidate.action
    then verdict report_only (is_report_only candidate.name)
    else elim found.protection [
      | some lease ↦ verdict skip_generated (generated_protected lease)
      | none ↦ unprotected_verdict inputs candidate found sweeps
    ]

unfoldable pub generated_class : Assessment → GeneratedDirAction → CleanupClass
generated_class found action =
    if is_delete action
      && found.pressure_applies
      && (found.owner_free_pressure
          || (ltb found.effective_days found.routine_days && found.routine_active))
    then pressure_class
    else routine_class

abbrev pub is_pressure : CleanupClass → Bool
is_pressure pressure_class = true
is_pressure routine_class = false

unfoldable pub generated_reason : Assessment → CleanupClass → GeneratedReason → GeneratedReason
generated_reason found class why =
    if found.owner_free_pressure && (found.owner_free_pressure_candidate && found.active)
    then bypasses_age why
    else if found.owner_free_pressure
    then owner_free_cleanup why
    else if is_pressure class
    then pressure_below found.routine_days why
    else why

-- The text of the time is not kept beside the time.
pub record GeneratedDirInfo : Type 0 where
  pub path : FilePath
  pub worktree_path : FilePath
  pub name : Name
  pub ignored : Bool
  pub has_tracked_files : Bool
  pub mtime_unix : Option ℤ
  pub mtime_nanos : Option ℕ
  pub effective_days : ℕ
  pub in_use : Bool
  pub ownership_evidence_complete : Bool
  pub worktree_in_use : Bool
  pub owner_free_pressure : Bool
  pub protection : Option ProtectionMatch
  pub cleanup_class : CleanupClass
  pub sweeps : List SweepDecision
  pub action : GeneratedDirAction
  pub reason : GeneratedReason

-- The entry that is pushed.
unfoldable pub info_of :
    ScanInputs → GeneratedCandidate → Assessment → List SweepDecision → GeneratedDirInfo
info_of inputs candidate found sweeps =
    let decided = generated_verdict inputs candidate found sweeps in
    let class = generated_class found decided.action in
    record {
      path = candidate.path;
      worktree_path = inputs.worktree.path;
      name = candidate.name;
      ignored = found.ignored;
      has_tracked_files = found.has_tracked_files;
      mtime_unix = candidate.mtime_unix;
      mtime_nanos = candidate.mtime_nanos;
      effective_days = found.effective_days;
      in_use = found.in_use;
      ownership_evidence_complete = found.ownership_evidence_complete;
      worktree_in_use = found.worktree_in_use;
      owner_free_pressure = found.owner_free_pressure;
      protection = found.protection;
      cleanup_class = class;
      sweeps = sweeps;
      action = decided.action;
      reason = generated_reason found class decided.reason;
    }

unfoldable pub scan_candidate :
    ScanInputs → GeneratedCandidate → Result CleanupError GeneratedDirInfo
scan_candidate inputs candidate = do
  applies ← pressure_applies inputs.host candidate.path inputs.policy.pressure
  sweeps ← planned inputs candidate (assess inputs candidate applies)
  ok (info_of inputs candidate (assess inputs candidate applies) sweeps)

scan_candidates : ScanInputs → List GeneratedCandidate → Result CleanupError (List GeneratedDirInfo)
scan_candidates inputs [] = ok []
scan_candidates inputs (candidate ∷ rest) = do
  info ← scan_candidate inputs candidate
  later ← scan_candidates inputs rest
  ok (info ∷ later)

unfoldable pub scan_generated_dirs_for_worktree :
    ScanInputs → Result CleanupError (List GeneratedDirInfo)
unfolding scan_candidates
scan_generated_dirs_for_worktree inputs =
    if not (is_absent inputs.worktree.prunable) || not inputs.worktree.exists
    then ok []
    else scan_candidates inputs inputs.candidates
