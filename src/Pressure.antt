-- ===== src/Pressure.antt =====
-- Disk pressure in src/lib.rs: which filesystems are under pressure, whether a candidate on one of
-- them is still wanted, and how candidates are taken epoch by epoch. What the operating system answers
-- about filesystems is the parameter `Host`.
pub mod Scheduling
pub mod Reclaim
use worktree_gc.Base.{
  ℕ, ◌+◌, ◌-◌, ◌≡◌, Bool, true, false, not, ◌&&◌, List, [], ◌∷◌, ◌++◌, map, String, Option, none,
  some, any, leb, ltb, length, retain, take, if◌then◌else◌, Eq, ◌==◌, string_eq, Result, ok, err,
  ◌>>=◌, ◌>>◌, context, ensure, min,
}
use worktree_gc.Text.{saturating_add}
use worktree_gc.FilePath.{FilePath}

pub data CleanupError : Type 0 where
  filesystem_unreadable space_unreadable no_pressure_policy target_above_capacity : CleanupError
  sweep_failed protection_failed removal_failed lock_timeout repository_unreadable : CleanupError
  measurement_unreadable prune_failed : CleanupError

pub record Host : Type 0 where
  pub exists : FilePath → Bool
  pub filesystem_key : FilePath → Option String
  pub available_space : FilePath → Option ℕ

pub record PressurePolicy : Type 0 where
  pub enter_bytes : ℕ
  pub target_bytes : ℕ
  pub generated_days : ℕ
  pub stale_days : ℕ
  pub owner_free_generated : Bool
  pub active : Bool
  pub entered_filesystems : List String

pub record PressureObservation : Type 0 where
  pub path : FilePath
  pub filesystem : String
  pub available_bytes : ℕ
  pub total_bytes : ℕ

abbrev pub contains : List String → String → Bool
contains names name = any (λ entered. entered == name) names

unfoldable pub pressure_filesystem_entered : PressurePolicy → String → Bool
pressure_filesystem_entered policy filesystem = elim policy.entered_filesystems [
  | [] ↦ policy.active
  | first ∷ rest ↦ contains (first ∷ rest) filesystem
]

-- The part of `pressure_applies` behind the active policy.
active_pressure_applies : Host → FilePath → PressurePolicy → Result CleanupError Bool
active_pressure_applies host path policy = do
  filesystem ← context (host.filesystem_key path) filesystem_unreadable
  if not (pressure_filesystem_entered policy filesystem) then ok false else do
    available ← context (host.available_space path) space_unreadable
    ok (ltb available policy.target_bytes)

unfoldable pub pressure_applies : Host → FilePath → Option PressurePolicy → Result CleanupError Bool
unfolding active_pressure_applies
pressure_applies host path none = ok false
pressure_applies host path (some policy) =
    if policy.active then active_pressure_applies host path policy else ok false

-- The answer, and the filesystems that have reached the target.
unfoldable pub pressure_policy_should_continue :
    Host → PressurePolicy → FilePath → List String → Result CleanupError (Bool × List String)
pressure_policy_should_continue host policy path satisfied = do
  filesystem ← context (host.filesystem_key path) filesystem_unreadable
  if not (pressure_filesystem_entered policy filesystem)
      then ok (false, satisfied)
      else (if contains satisfied filesystem then ok (false, satisfied) else do
        available ← context (host.available_space path) space_unreadable
        if leb policy.target_bytes available
            then ok (false, filesystem ∷ satisfied)
            else ok (true, satisfied))

-- `pressure_should_continue` and `root_pressure_should_continue`, on the policy of the manifest
unfoldable pub pressure_should_continue :
    Host → Option PressurePolicy → FilePath → List String → Result CleanupError (Bool × List String)
pressure_should_continue host pressure path satisfied = do
  policy ← context pressure no_pressure_policy
  pressure_policy_should_continue host policy path satisfied

-- The loop that holds the target against the capacity of each entered filesystem.
unfoldable pub check_targets : ℕ → List String → List PressureObservation → Result CleanupError Unit
check_targets target entered [] = ok tt
check_targets target entered (observation ∷ rest) = do
  ensure (not (contains entered observation.filesystem && ltb observation.total_bytes target))
      target_above_capacity
  check_targets target entered rest

abbrev pub entered_of : PressurePolicy → List PressureObservation → List String
entered_of policy observations =
    map (λ observation. observation.filesystem)
      (retain (λ observation. ltb observation.available_bytes policy.enter_bytes) observations)

abbrev pub is_nonempty : List String → Bool
is_nonempty [] = false
is_nonempty (_ ∷ _) = true

-- The policy as it is after the call; after an error the run ends.
unfoldable pub activate_pressure_policy :
    PressurePolicy → List PressureObservation → Result CleanupError PressurePolicy
unfolding check_targets
activate_pressure_policy policy observations =
    let entered = entered_of policy observations in
    check_targets policy.target_bytes entered observations
    >> ok (record policy { entered_filesystems = entered; active = is_nonempty entered })

-- The observed bytes of a filesystem: a later observation of one filesystem replaces an earlier.
unfoldable pub available_before : List PressureObservation → String → Option ℕ
available_before [] filesystem = none
available_before (observation ∷ rest) filesystem = elim (available_before rest filesystem) [
  | some bytes ↦ some bytes
  | none ↦ if observation.filesystem == filesystem then some observation.available_bytes else none
]

unfoldable pub gained : List PressureObservation → PressureObservation → ℕ
gained before observation = elim (available_before before observation.filesystem) [
  | none ↦ 0
  | some bytes ↦ observation.available_bytes - bytes
]

-- `filter_map` and the saturating sum, in one pass.
unfoldable pub sum_gained : List PressureObservation → ℕ → List PressureObservation → ℕ
unfolding gained
sum_gained before total [] = total
sum_gained before total (observation ∷ rest) =
    sum_gained before (saturating_add total (gained before observation)) rest

unfoldable pub realized_reclaim : List PressureObservation → List PressureObservation → ℕ
unfolding sum_gained
realized_reclaim before after = sum_gained before 0 after

abbrev pub Candidate : Type 0
Candidate = ℕ × FilePath

abbrev pub pressure_epoch_max_candidates : ℕ
pressure_epoch_max_candidates = 25

unfoldable pub next_pressure_epoch : List Candidate → List Candidate
next_pressure_epoch candidates = take pressure_epoch_max_candidates candidates

pub record PressureQueueFilesystemFailure : Type 0 where
  pub repository_index : ℕ
  pub path : FilePath

-- The loop of `filter_pressure_candidates`: the first failure from the front ends it.
unfoldable pub filter_pressure_candidates :
    Host → List Candidate → List String → Result PressureQueueFilesystemFailure (List Candidate)
filter_pressure_candidates host [] satisfied = ok []
filter_pressure_candidates host ((index, path) ∷ rest) satisfied =
    let later = filter_pressure_candidates host rest satisfied in
    if not (host.exists path) then later else elim (host.filesystem_key path) [
      | none ↦ err (record { repository_index = index; path = path })
      | some filesystem ↦
          if contains satisfied filesystem
          then later
          else (do retained ← later; ok ((index, path) ∷ retained))
    ]
