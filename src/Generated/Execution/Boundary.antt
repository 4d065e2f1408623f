-- ===== src/Generated/Execution/Boundary.antt =====
-- `revalidate_generated_candidate` and `revalidate_generated_candidate_boundary` of src/lib.rs, which
-- repeat what a deletion under pressure was planned on. What the file system and Git answer is the
-- record `CandidateObservations`; an error that is only printed is a constructor.
use worktree_gc.Base.{
  ℕ, Bool, true, false, not, ◌&&◌, ◌||◌, List, [], ◌∷◌, String, Option, none, some, all, is_nil,
  is_some, leb, if◌then◌else◌, ◌==◌, nat_eq, string_eq, option_eq, list_eq, ℤ, int_eq, Result, ok,
  ensure, context, ◌>>=◌, ◌>>◌,
}
use worktree_gc.Text.{encode_utf8}
use worktree_gc.FilePath.{
  FilePath, Component, normal, component_eq, components, path_eq, starts_with,
}
use worktree_gc.Worktree.Execution.{OpenHandleSnapshot, indeterminate, dirs_with_open_handles_using}
use worktree_gc.Generated.{
  Name, GeneratedDirIdentity, GeneratedDirMeasurement, GeneratedDirDecision, is_delete,
}
use worktree_gc.Generated.Reconcile.{
  generated_measurement_has_execution_authority, is_routine_class,
}

pub data RevalidationError : Type 0 where
  not_actionable planned_protection unplanned_ownership no_snapshot : RevalidationError
  no_identity no_measurement unresolved_worktree worktree_changed : RevalidationError
  unresolved_candidate containment_changed name_changed outside_worktree : RevalidationError
  not_a_descendant not_text git_failed tracked_content unmeasured_candidate : RevalidationError
  no_device identity_unreadable identity_changed mounts_unreadable mount_point : RevalidationError
  filesystem_unread filesystem_changed no_activity activity_unreadable : RevalidationError
  activity_changed ownership_matched : RevalidationError

pub record CandidateObservations : Type 0 where
  -- `fs::canonicalize`
  pub canonical_worktree : Option FilePath
  pub canonical_candidate : Option FilePath
  -- whether the path of the candidate in the worktree is UTF-8
  pub relative_is_text : Bool
  -- the output of `git ls-files` for the candidate, when it succeeds
  pub tracked : Option (List ℕ)
  -- `generated_dir_identity`
  pub identity : Option GeneratedDirIdentity
  -- `system_mount_points`
  pub mount_points : Option (List FilePath)
  -- `filesystem_key`
  pub filesystem : Option String
  -- `exact_sampled_mtime`
  pub activity : Option (ℤ × ℕ)

-- `Path::file_name`
abbrev pub last_name : List Component → Option (List ℕ)
last_name [] = none
last_name (normal name ∷ []) = some name
last_name (_ ∷ []) = none
last_name (_ ∷ c ∷ cs) = last_name (c ∷ cs)

abbrev pub file_name : FilePath → Option (List ℕ)
unfolding components
file_name path = last_name (components path)

-- `Path::strip_prefix`
abbrev pub strip_components : List Component → List Component → Option (List Component)
strip_components [] cs = some cs
strip_components (b ∷ bs) [] = none
strip_components (b ∷ bs) (c ∷ cs) = if b == c then strip_components bs cs else none

abbrev pub is_normal : Component → Bool
is_normal (normal _) = true
is_normal _ = false

unfoldable pub validate_git_generated_boundary :
    CandidateObservations → FilePath → FilePath → Result RevalidationError Unit
unfolding components
validate_git_generated_boundary observed worktree candidate = do
  relative ←
      context (strip_components (components worktree) (components candidate)) outside_worktree
  ensure (not (is_nil relative) && all is_normal relative) not_a_descendant
  ensure observed.relative_is_text not_text
  tracked ← context observed.tracked git_failed
  ensure (is_nil tracked) tracked_content

-- The loop over the mount points.
unfoldable pub check_mounts : FilePath → List FilePath → Result RevalidationError Unit
check_mounts path [] = ok tt
check_mounts path (mount ∷ mounts) = do
  ensure (not (path_eq mount path)) mount_point
  ensure (not (starts_with mount path)) mount_point
  check_mounts path mounts

abbrev pub supplied_or : Option (List FilePath) → Option (List FilePath) → Option (List FilePath)
supplied_or none captured = captured
supplied_or (some mounts) captured = some mounts

unfoldable pub ensure_single_filesystem_tree :
    CandidateObservations → Option (List FilePath) → String → Result RevalidationError Unit
unfolding check_mounts
ensure_single_filesystem_tree observed supplied expected = do
  mounts ← context (supplied_or supplied observed.mount_points) mounts_unreadable
  canonical ← context observed.canonical_candidate unresolved_candidate
  check_mounts canonical mounts
  actual ← context observed.filesystem filesystem_unread
  ensure (actual == expected) filesystem_changed

pub record GeneratedCandidateBoundary : Type 0 where
  pub worktree : FilePath
  pub active_path : FilePath
  pub approved_candidate : FilePath
  pub candidate_name : Name
  pub identity : GeneratedDirIdentity
  pub measurement : GeneratedDirMeasurement
  pub quarantined : Bool
  pub mount_points : Option (List FilePath)

-- The checks that a quarantined candidate is spared.
unfoldable pub check_containment :
    CandidateObservations
    → GeneratedCandidateBoundary
    → FilePath
    → FilePath
    → Result RevalidationError Unit
unfolding validate_git_generated_boundary
check_containment observed boundary worktree active = do
  ensure
      (path_eq boundary.active_path boundary.approved_candidate
        && path_eq active boundary.identity.canonical_path
        && starts_with active worktree)
      containment_changed
  ensure (file_name active == some (encode_utf8 boundary.candidate_name)) name_changed
  validate_git_generated_boundary observed worktree active

unfoldable pub same_identity : Bool → GeneratedDirIdentity → GeneratedDirIdentity → Bool
same_identity quarantined planned live =
    planned.filesystem == live.filesystem
    && planned.device == live.device
    && planned.inode == live.inode
    && planned.modified_unix == live.modified_unix
    && planned.modified_nanos == live.modified_nanos
    && (quarantined || path_eq planned.canonical_path live.canonical_path)

unfoldable pub revalidate_generated_candidate_boundary :
    Bool → CandidateObservations → GeneratedCandidateBoundary → Result RevalidationError Unit
unfolding check_containment same_identity ensure_single_filesystem_tree
revalidate_generated_candidate_boundary macos observed boundary = do
  worktree ← context observed.canonical_worktree unresolved_worktree
  ensure (path_eq worktree boundary.worktree) worktree_changed
  active ← context observed.canonical_candidate unresolved_candidate
  if boundary.quarantined then ok tt else check_containment observed boundary worktree active
  ensure
      (generated_measurement_has_execution_authority macos boundary.measurement
        && leb boundary.measurement.visited_entries 250_000
        && boundary.measurement.filesystem == boundary.identity.filesystem)
      unmeasured_candidate
  ensure (is_some boundary.identity.device && is_some boundary.identity.inode) no_device
  live ← context observed.identity identity_unreadable
  ensure (same_identity boundary.quarantined boundary.identity live) identity_changed
  ensure_single_filesystem_tree observed boundary.mount_points boundary.identity.filesystem

-- Deletions that go by the absence of owners need the evidence of the plan and a snapshot.
unfoldable pub check_owner_free :
    GeneratedDirDecision → Option OpenHandleSnapshot → Result RevalidationError Unit
check_owner_free decision open_handles =
    if decision.owner_free_pressure
    then (do
      ensure decision.ownership_evidence_complete unplanned_ownership
      ensure (is_some open_handles) no_snapshot)
    else ok tt

abbrev pub zip_activity : Option ℤ → Option ℕ → Option (ℤ × ℕ)
zip_activity (some seconds) (some nanos) = some (seconds, nanos)
zip_activity _ _ = none

abbrev pub activity_beq : ℤ × ℕ → ℤ × ℕ → Bool
activity_beq (s, n) (s', n') = s == s' && n == n'

abbrev pub ownership_paths : GeneratedDirDecision → List FilePath
ownership_paths decision =
    if decision.owner_free_pressure
    then decision.worktree_path ∷ decision.path ∷ []
    else decision.path ∷ []

unfoldable pub check_unowned :
    GeneratedDirDecision → Option OpenHandleSnapshot → Result RevalidationError Unit
check_unowned decision open_handles =
    if is_some open_handles
    then ensure
        (is_nil
          (dirs_with_open_handles_using (ownership_paths decision) open_handles indeterminate))
        ownership_matched
    else ok tt

unfoldable pub revalidate_generated_candidate :
    Bool
    → GeneratedDirDecision
    → Option OpenHandleSnapshot
    → Option (List FilePath)
    → CandidateObservations
    → Result RevalidationError Unit
unfolding check_owner_free revalidate_generated_candidate_boundary check_unowned
revalidate_generated_candidate macos decision open_handles mount_points observed = do
  ensure (is_delete decision.action && not (is_routine_class decision.cleanup_class)) not_actionable
  ensure (not (is_some decision.protection)) planned_protection
  check_owner_free decision open_handles
  identity ← context decision.identity no_identity
  measurement ← context decision.measurement no_measurement
  revalidate_generated_candidate_boundary macos observed (record {
    worktree = decision.worktree_path;
    active_path = decision.path;
    approved_candidate = decision.path;
    candidate_name = decision.name;
    identity = identity;
    measurement = measurement;
    quarantined = false;
    mount_points = mount_points;
  })
  planned ← context (zip_activity decision.mtime_unix decision.mtime_nanos) no_activity
  current ← context observed.activity activity_unreadable
  ensure (activity_beq current planned) activity_changed
  check_unowned decision open_handles
