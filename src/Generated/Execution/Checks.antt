-- ===== src/Generated/Execution/Checks.antt =====
-- What the single checks of the boundary of a candidate show when they succeed.
use worktree_gc.Base.{
  ◌≡◌, ◌∙◌, ap, Bool, true, false, not, ◌&&◌, List, [], ◌∷◌, String, Option, some, is_nil,
  is_nil-true, All, all, arith, not-eq-true, ◌==◌, string_eq, option_eq, list_eq, nat_eq, ==→eq, ok,
  ensure, context, >>=-eq-ok, ensure-eq-ok, context-eq-ok,
}
use worktree_gc.Text.{encode_utf8}
use worktree_gc.FilePath.{FilePath, components, path_eq, starts_with}
use worktree_gc.Generated.{GeneratedDirIdentity}
use worktree_gc.Generated.Reconcile.{generated_measurement_has_execution_authority}
use worktree_gc.Generated.Execution.Boundary.{
  strip_components, is_normal, file_name, CandidateObservations, GeneratedCandidateBoundary,
  validate_git_generated_boundary, check_mounts, ensure_single_filesystem_tree, check_containment,
  same_identity, supplied_or, outside_worktree, not_a_descendant, not_text, git_failed,
  tracked_content, mount_point, mounts_unreadable, unresolved_candidate, filesystem_unread,
  filesystem_changed, containment_changed, name_changed,
}

-- No file of the candidate is tracked.
validate_git_generated_boundary-untracked :
    (observed : CandidateObservations) (worktree candidate : FilePath)
    → validate_git_generated_boundary observed worktree candidate ≡ ok tt
    → observed.tracked ≡ some []
unfolding validate_git_generated_boundary components
validate_git_generated_boundary-untracked observed worktree candidate h =
    let (relative, _, h1) =
      >>=-eq-ok
        (context (strip_components (components worktree) (components candidate)) outside_worktree) _
        h in
    let (_, _, h2) =
      >>=-eq-ok (ensure (not (is_nil relative) && all is_normal relative) not_a_descendant) _ h1 in
    let (_, _, h3) = >>=-eq-ok (ensure observed.relative_is_text not_text) _ h2 in
    let (tracked, found, h4) = >>=-eq-ok (context observed.tracked git_failed) _ h3 in
    context-eq-ok observed.tracked git_failed found
    ∙ ap some (is_nil-true tracked (ensure-eq-ok (is_nil tracked) tracked_content h4))

-- No mount point lies at or below the path.
check_mounts-none :
    (path : FilePath) (mounts : List FilePath)
    → check_mounts path mounts ≡ ok tt
    → All (λ mount. starts_with mount path ≡ false) mounts
unfolding check_mounts
check_mounts-none path [] h = tt
check_mounts-none path (mount ∷ mounts) h =
    let (_, _, h1) = >>=-eq-ok (ensure (not (path_eq mount path)) mount_point) _ h in
    let (_, below, h2) = >>=-eq-ok (ensure (not (starts_with mount path)) mount_point) _ h1 in
    (
      not-eq-true (starts_with mount path) (ensure-eq-ok _ mount_point below),
      check_mounts-none path mounts h2,
    )

-- A candidate as it stands right before its removal: the directory that was planned for, resolved
-- inside its worktree, on the planned filesystem without a mount at or below it, completely measured,
-- with no tracked file.
pub record IsSameCandidate (macos : Bool) (observed : CandidateObservations)
    (boundary : GeneratedCandidateBoundary) : Type 0 where
  pub worktree : FilePath
  pub resolved_worktree : observed.canonical_worktree ≡ some worktree
  pub same_worktree : path_eq worktree boundary.worktree ≡ true
  pub candidate : FilePath
  pub resolved : observed.canonical_candidate ≡ some candidate
  pub as_planned : path_eq candidate boundary.identity.canonical_path ≡ true
  pub inside : starts_with candidate worktree ≡ true
  pub untracked : observed.tracked ≡ some []
  pub measured : generated_measurement_has_execution_authority macos boundary.measurement ≡ true
  pub live : GeneratedDirIdentity
  pub found : observed.identity ≡ some live
  pub same : same_identity false boundary.identity live ≡ true
  pub mounts : List FilePath
  pub mounted : supplied_or boundary.mount_points observed.mount_points ≡ some mounts
  pub unmounted : All (λ mount. starts_with mount candidate ≡ false) mounts
  pub on_filesystem : observed.filesystem ≡ some boundary.identity.filesystem

pub ensure_single_filesystem_tree-ok :
    (observed : CandidateObservations) (supplied : Option (List FilePath)) (expected : String)
    → ensure_single_filesystem_tree observed supplied expected ≡ ok tt
    → (mounts : List FilePath) × (canonical : FilePath) × (supplied_or supplied
          observed.mount_points
        ≡ some mounts)
      × (observed.canonical_candidate ≡ some canonical)
      × All (λ mount. starts_with mount canonical ≡ false) mounts
      × (observed.filesystem ≡ some expected)
unfolding ensure_single_filesystem_tree
ensure_single_filesystem_tree-ok observed supplied expected h =
    let (mounts, m, h1) =
      >>=-eq-ok (context (supplied_or supplied observed.mount_points) mounts_unreadable) _ h in
    let (canonical, c, h2) =
      >>=-eq-ok (context observed.canonical_candidate unresolved_candidate) _ h1 in
    let (_, free, h3) = >>=-eq-ok (check_mounts canonical mounts) _ h2 in
    let (actual, f, h4) = >>=-eq-ok (context observed.filesystem filesystem_unread) _ h3 in
    (
      mounts,
      canonical,
      context-eq-ok _ mounts_unreadable m,
      context-eq-ok _ unresolved_candidate c,
      check_mounts-none canonical mounts free,
      context-eq-ok _ filesystem_unread f
          ∙ ap some
              (==→eq actual expected (ensure-eq-ok (actual == expected) filesystem_changed h4)),
    )

pub check_containment-ok :
    (observed : CandidateObservations) (boundary : GeneratedCandidateBoundary)
    (worktree active : FilePath)
    → check_containment observed boundary worktree active ≡ ok tt
    → (path_eq active boundary.identity.canonical_path ≡ true)
      × (starts_with active worktree ≡ true)
      × (observed.tracked ≡ some [])
unfolding check_containment components
check_containment-ok observed boundary worktree active h =
    let (_, contained, h1) =
      >>=-eq-ok
        (ensure
          (path_eq boundary.active_path boundary.approved_candidate
            && path_eq active boundary.identity.canonical_path
            && starts_with active worktree)
          containment_changed)
        _ h in
    let (_, _, h2) =
      >>=-eq-ok
        (ensure (file_name active == some (encode_utf8 boundary.candidate_name)) name_changed) _
        h1 in
    let all_three =
      ensure-eq-ok
        (path_eq boundary.active_path boundary.approved_candidate
          && path_eq active boundary.identity.canonical_path
          && starts_with active worktree)
        containment_changed contained in
    (
      ground arith,
      ground arith,
      validate_git_generated_boundary-untracked observed worktree active h2,
    )
