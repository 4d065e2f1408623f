-- ===== src/Generated/Execution/Attempt.antt =====
-- What the attempt to remove a generated directory does to the world: the directory is removed at most
-- once, and right after its approval.
use worktree_gc.Base.{
  ℕ, ◌≡◌, ◌⊎◌, inl, inr, Bool, true, false, Option, none, Bool-cases, Option-cases, Result-cases,
  Result, ok, err,
}
use worktree_gc.Pressure.{CleanupError}
use worktree_gc.Worktree.Revalidation.{ExecutionPass}
use worktree_gc.Worktree.Execution.{OpenHandleSnapshot, is_routine}
use worktree_gc.Generated.{GeneratedDirDecision}
use worktree_gc.Generated.Execution.Boundary.{revalidate_generated_candidate}
use worktree_gc.Generated.Execution.Remove.{
  DeletionEnv, before_deadline, revalidate_before_ownership_deadline, before_remove,
  remove_approved, remove_coordinated, remove_target, coordination,
  remove_generated_directory_with_timing,
}

-- The approval of a removal in a state: the ownership epoch has not ended, and under pressure the
-- candidate has been revalidated by what was read from that state on.
abbrev pub IsApproved :
    {S : Type 0}
    → DeletionEnv S
    → Bool
    → ExecutionPass
    → Option OpenHandleSnapshot
    → Option ℕ
    → GeneratedDirDecision
    → S
    → Type 0
IsApproved env macos pass open_handles deadline decision t =
    ((is_routine pass ≡ true) × (before_deadline deadline (env.instant t) ≡ true))
    ⊎ ((revalidate_generated_candidate macos decision open_handles none
            (env.observe_candidate decision t).0
          ≡ ok tt)
        × (before_deadline deadline (env.instant t) ≡ true)
        × (before_deadline deadline (env.instant (env.observe_candidate decision t).1) ≡ true))

-- What the attempt to remove a directory does to the world: it reads it, it waits for the locks, and
-- it removes the directory at most once, and only when that is approved.
pub data Attempt {S : Type 0} (env : DeletionEnv S) (macos : Bool) (pass : ExecutionPass)
    (open_handles : Option OpenHandleSnapshot) (deadline : Option ℕ)
    (decision : GeneratedDirDecision) : S → S → Type 0 where
  untouched : {s : S} → Attempt env macos pass open_handles deadline decision s s
  refused :
      {t : S}
      → Attempt env macos pass open_handles deadline decision t (env.observe_candidate decision t).1
  removed_routinely :
      {t : S}
      → IsApproved env macos pass open_handles deadline decision t
      → Attempt env macos pass open_handles deadline decision t
          (env.remove_dir_all decision.path t).1
  removed_revalidated :
      {t : S}
      → IsApproved env macos pass open_handles deadline decision t
      → Attempt env macos pass open_handles deadline decision t
          (env.remove_dir_all decision.path (env.observe_candidate decision t).1).1
  waited :
      {s : S} {timeout : ℕ}
      → Attempt env macos pass open_handles deadline decision s
          (env.acquire_profile_locks decision.path decision.worktree_path timeout s).1
  coordinated :
      {s s' : S} {timeout : ℕ}
      → Attempt env macos pass open_handles deadline decision
          (env.acquire_profile_locks decision.path decision.worktree_path timeout s).1
          s'
      → Attempt env macos pass open_handles deadline decision s (env.release_profile_locks s')

module _ {S : Type 0} (env : DeletionEnv S) (macos : Bool) (pass : ExecutionPass)
    (open_handles : Option OpenHandleSnapshot) (deadline lock_timeout : Option ℕ)
    (decision : GeneratedDirDecision) where
  abbrev Attempted : S → S → Type 0
  Attempted = Attempt env macos pass open_handles deadline decision

  remove_revalidated-Attempt :
      (s : S)
      → is_routine pass ≡ false
      → Attempted s (remove_approved env macos pass open_handles deadline lock_timeout decision s).1
  unfolding remove_approved before_remove revalidate_before_ownership_deadline
  remove_revalidated-Attempt s under_pressure =
      elim (Bool-cases (before_deadline deadline (env.instant s))) [
        | inr late ↦ rw (under_pressure, late) untouched
        | inl early ↦
            elim (Result-cases (
              revalidate_generated_candidate macos decision open_handles none
                (env.observe_candidate decision s).0)) [
                  | inr (error, e) ↦ rw (under_pressure, early, e) refused
                  | inl (_, e) ↦
                      elim (Bool-cases (
                        before_deadline deadline
                          (env.instant (env.observe_candidate decision s).1))) [
                            | inr late ↦ rw (under_pressure, early, e, late) refused
                            | inl still ↦
                                rw (under_pressure, early, e, still)
                                  (removed_revalidated (inr (e, early, still)))
                          ]
                ]
      ]

  remove_approved-Attempt :
      (s : S)
      → Attempted s (remove_approved env macos pass open_handles deadline lock_timeout decision s).1
  unfolding remove_approved before_remove
  remove_approved-Attempt s = elim (Bool-cases (is_routine pass)) [
    | inr under_pressure ↦ remove_revalidated-Attempt s under_pressure
    | inl routine ↦ elim (Bool-cases (before_deadline deadline (env.instant s))) [
      | inl early ↦ rw (routine, early) (removed_routinely (inl (routine, early)))
      | inr late ↦ rw (routine, late) untouched
    ]
  ]

  remove_coordinated-Attempt :
      (timeout : ℕ) (s : S)
      → Attempted s
          (remove_coordinated env macos pass open_handles deadline lock_timeout decision timeout
            s).1
  unfolding remove_coordinated
  remove_coordinated-Attempt timeout s =
      go (env.acquire_profile_locks decision.path decision.worktree_path timeout s).0
    where
      t : S
      t = (env.acquire_profile_locks decision.path decision.worktree_path timeout s).1

      go :
          (locked : Result CleanupError (Unit {0}))
          → Attempted s
              (elim locked as (λ _. Result CleanupError Bool × S) [
                | err error ↦ (err error, t)
                | ok _ ↦
                    let (result, after) =
                      remove_approved env macos pass open_handles deadline lock_timeout decision
                        t in
                    (result, env.release_profile_locks after)
              ]).1
      go (err error) = waited
      go (ok _) = coordinated (remove_approved-Attempt t)

  remove_target-Attempt :
      (timeout : ℕ) (s : S)
      → Attempted s
          (remove_target env macos pass open_handles deadline lock_timeout decision timeout s).1
  unfolding remove_target
  remove_target-Attempt timeout s = go (env.profile_locks_present decision.path s)
    where
      go :
          (present : Result CleanupError Bool)
          → Attempted s
              (elim present as (λ _. Result CleanupError Bool × S) [
                | err error ↦ (err error, s)
                | ok true ↦
                    remove_coordinated env macos pass open_handles deadline lock_timeout decision
                      timeout s
                | ok false ↦ (ok false, s)
              ]).1
      go (err error) = untouched
      go (ok true) = remove_coordinated-Attempt timeout s
      go (ok false) = untouched

  pub remove_generated_directory_with_timing-Attempt :
      (s : S)
      → Attempted s
          (remove_generated_directory_with_timing env macos pass open_handles deadline lock_timeout
            decision s).1
  unfolding remove_generated_directory_with_timing
  remove_generated_directory_with_timing-Attempt s =
      elim (Bool-cases ((env.removal.host s).exists decision.path)) [
        | inr gone ↦ rw gone untouched
        | inl there ↦
            elim (Option-cases
              (coordination env macos pass open_handles deadline lock_timeout decision)) [
                | inl direct ↦ rw (there, direct) (remove_approved-Attempt s)
                | inr (timeout, e) ↦ rw (there, e) (remove_target-Attempt timeout s)
              ]
      ]
