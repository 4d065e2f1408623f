-- ===== src/Generated/Execution/Approval.antt =====
-- What the revalidation of a candidate in src/lib.rs shows when it succeeds.
use worktree_gc.Base.{
  some-eq-some, ℕ, ◌≡◌, refl, sym, subst, ◌∙◌, Bool, true, false, not, ◌&&◌, List, [], Option, some,
  is_nil, is_nil-true, is_some, All, leb, arith, if◌then◌else◌, and-eq-true, not-eq-true, ◌==◌,
  string_eq, option_eq, list_eq, nat_eq, ℤ, ok, ensure, context, >>=-eq-ok, ensure-eq-ok,
  context-eq-ok,
}
use worktree_gc.FilePath.{FilePath, path_eq, starts_with}
use worktree_gc.Worktree.Execution.{OpenHandleSnapshot, indeterminate, dirs_with_open_handles_using}
use worktree_gc.Generated.{
  GeneratedDirIdentity, GeneratedDirMeasurement, GeneratedDirDecision, is_delete,
}
use worktree_gc.Generated.Reconcile.{
  generated_measurement_has_execution_authority, is_routine_class,
}
use worktree_gc.Generated.Execution.Boundary.{
  activity_beq, CandidateObservations, GeneratedCandidateBoundary, check_containment, same_identity,
  revalidate_generated_candidate_boundary, check_owner_free, ownership_paths, check_unowned,
  revalidate_generated_candidate, unresolved_candidate, unresolved_worktree, worktree_changed,
  unmeasured_candidate, no_device, identity_unreadable, identity_changed, not_actionable,
  planned_protection, no_identity, no_measurement, no_activity, activity_unreadable,
  activity_changed, ownership_matched, zip_activity,
}
use worktree_gc.Generated.Execution.Checks.{
  IsSameCandidate, ensure_single_filesystem_tree-ok, check_containment-ok,
}

revalidate_generated_candidate_boundary-ok :
    (macos : Bool) (observed : CandidateObservations) (boundary : GeneratedCandidateBoundary)
    → boundary.quarantined ≡ false
    → revalidate_generated_candidate_boundary macos observed boundary ≡ ok tt
    → IsSameCandidate macos observed boundary
unfolding revalidate_generated_candidate_boundary
revalidate_generated_candidate_boundary-ok macos observed boundary open_place h =
    let (worktree, w, h1) =
      >>=-eq-ok (context observed.canonical_worktree unresolved_worktree) _ h in
    let (_, at_worktree, h2) =
      >>=-eq-ok (ensure (path_eq worktree boundary.worktree) worktree_changed) _ h1 in
    let (active, a, h3) =
      >>=-eq-ok (context observed.canonical_candidate unresolved_candidate) _ h2 in
    let (_, contained, h4) =
      >>=-eq-ok
        (if boundary.quarantined
          then ok tt
          else check_containment observed boundary worktree active)
        _ h3 in
    let authority =
      generated_measurement_has_execution_authority macos boundary.measurement
      && leb boundary.measurement.visited_entries 250_000
      && boundary.measurement.filesystem == boundary.identity.filesystem in
    let (_, measured, h5) = >>=-eq-ok (ensure authority unmeasured_candidate) _ h4 in
    let (_, _, h6) =
      >>=-eq-ok
        (ensure (is_some boundary.identity.device && is_some boundary.identity.inode) no_device) _
        h5 in
    let (live, l, h7) = >>=-eq-ok (context observed.identity identity_unreadable) _ h6 in
    let (_, same, h8) =
      >>=-eq-ok
        (ensure (same_identity boundary.quarantined boundary.identity live) identity_changed) _
        h7 in
    let (mounts, canonical, m, c, free, on_filesystem) =
      ensure_single_filesystem_tree-ok observed boundary.mount_points boundary.identity.filesystem
        h8 in
    let (as_planned, inside, untracked) = check_containment-ok observed boundary worktree active (
      subst
        (λ q. (if q then ok tt else check_containment observed boundary worktree active) ≡ ok tt)
        open_place contained) in
    let resolved = context-eq-ok observed.canonical_candidate unresolved_candidate a in
    let authority_holds = ensure-eq-ok authority unmeasured_candidate measured in
    record {
      worktree = worktree;
      resolved_worktree = context-eq-ok observed.canonical_worktree unresolved_worktree w;
      same_worktree =
          ensure-eq-ok (path_eq worktree boundary.worktree) worktree_changed at_worktree;
      candidate = active;
      resolved = resolved;
      as_planned = as_planned;
      inside = inside;
      untracked = untracked;
      measured = ground arith;
      live = live;
      found = context-eq-ok observed.identity identity_unreadable l;
      same =
          subst (λ q. same_identity q boundary.identity live ≡ true) open_place
            (ensure-eq-ok (same_identity boundary.quarantined boundary.identity live)
              identity_changed same);
      mounts = mounts;
      mounted = m;
      unmounted =
          subst (λ p. All (λ mount. starts_with mount p ≡ false) mounts)
            (some-eq-some (sym c ∙ resolved)) free;
      on_filesystem = on_filesystem;
    }

-- The place that `revalidate_generated_candidate` looks at.
abbrev pub boundary_of :
    GeneratedDirDecision
    → GeneratedDirIdentity
    → GeneratedDirMeasurement
    → Option (List FilePath)
    → GeneratedCandidateBoundary
boundary_of decision identity measurement mount_points = record {
  worktree = decision.worktree_path;
  active_path = decision.path;
  approved_candidate = decision.path;
  candidate_name = decision.name;
  identity = identity;
  measurement = measurement;
  quarantined = false;
  mount_points = mount_points;
}

-- A revalidation that succeeds has found a planned deletion under pressure that no lease covered, the
-- same candidate as planned with the same activity, and, when a snapshot of open files is given, neither
-- the candidate nor, for a deletion that goes by the absence of owners, its worktree in use.
pub revalidate_generated_candidate_sound :
    (macos : Bool) (decision : GeneratedDirDecision) (open_handles : Option OpenHandleSnapshot)
    (mount_points : Option (List FilePath)) (observed : CandidateObservations)
    → revalidate_generated_candidate macos decision open_handles mount_points observed ≡ ok tt
    → (is_delete decision.action ≡ true)
      × (is_routine_class decision.cleanup_class ≡ false)
      × (is_some decision.protection ≡ false)
      × ((identity : GeneratedDirIdentity) × (measurement : GeneratedDirMeasurement)
          × (decision.identity ≡ some identity)
          × (decision.measurement ≡ some measurement)
          × IsSameCandidate macos observed (boundary_of decision identity measurement mount_points))
      × ((activity : ℤ × ℕ) × (current : ℤ × ℕ) × (zip_activity decision.mtime_unix
              decision.mtime_nanos
            ≡ some activity)
          × (observed.activity ≡ some current)
          × (activity_beq current activity ≡ true))
      × (is_some open_handles ≡ true
          → dirs_with_open_handles_using (ownership_paths decision) open_handles indeterminate ≡ [])
unfolding revalidate_generated_candidate check_unowned
revalidate_generated_candidate_sound macos decision open_handles mount_points observed h =
    let (_, actionable, h1) =
      >>=-eq-ok
        (ensure (is_delete decision.action && not (is_routine_class decision.cleanup_class))
          not_actionable)
        _ h in
    let (_, free, h2) =
      >>=-eq-ok (ensure (not (is_some decision.protection)) planned_protection) _ h1 in
    let (_, _, h3) = >>=-eq-ok (check_owner_free decision open_handles) _ h2 in
    let (identity, i, h4) = >>=-eq-ok (context decision.identity no_identity) _ h3 in
    let (measurement, m, h5) = >>=-eq-ok (context decision.measurement no_measurement) _ h4 in
    let boundary = boundary_of decision identity measurement mount_points in
    let (_, same, h6) =
      >>=-eq-ok (revalidate_generated_candidate_boundary macos observed boundary) _ h5 in
    let (planned, p, h7) =
      >>=-eq-ok (context (zip_activity decision.mtime_unix decision.mtime_nanos) no_activity) _
        h6 in
    let (current, c, h8) = >>=-eq-ok (context observed.activity activity_unreadable) _ h7 in
    let (_, unchanged, h9) =
      >>=-eq-ok (ensure (activity_beq current planned) activity_changed) _ h8 in
    let (is_deletion, by_pressure) =
      and-eq-true (is_delete decision.action) _ (ensure-eq-ok _ not_actionable actionable) in
    let paths = ownership_paths decision in
    let dirs = dirs_with_open_handles_using paths open_handles indeterminate in
    (
      is_deletion,
      not-eq-true (is_routine_class decision.cleanup_class) by_pressure,
      not-eq-true (is_some decision.protection) (ensure-eq-ok _ planned_protection free),
      (
        identity,
        measurement,
        context-eq-ok _ no_identity i,
        context-eq-ok _ no_measurement m,
        revalidate_generated_candidate_boundary-ok macos observed boundary refl same,
      ),
      (
        planned,
        current,
        context-eq-ok _ no_activity p,
        context-eq-ok _ activity_unreadable c,
        ensure-eq-ok (activity_beq current planned) activity_changed unchanged,
      ),
      λ given. is_nil-true dirs (
          ensure-eq-ok (is_nil dirs) ownership_matched (
            subst (λ b. (if b then ensure (is_nil dirs) ownership_matched else ok tt) ≡ ok tt) given
              h9)),
    )
