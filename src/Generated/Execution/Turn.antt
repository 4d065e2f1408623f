-- ===== src/Generated/Execution/Turn.antt =====
-- One turn of the loop over the deletions of src/lib.rs: every test has admitted the directory before
-- it is touched.
use worktree_gc.Base.{
  ℕ, ◌≡◌, ◌⊎◌, inl, inr, refl, sym, subst, Bool, true, false, not, ◌&&◌, ◌||◌, List, [], ◌∷◌,
  String, Option, arith, Bool-cases, Result-cases, Result, ok, err,
}
use worktree_gc.FilePath.{FilePath}
use worktree_gc.Protection.Lease.{ProtectionError}
use worktree_gc.Protection.Registry.{RegistryFile}
use worktree_gc.Protection.Guard.{
  ProtectionGuardOutcome, protected_by, executed, with_protection_guard_at,
}
use worktree_gc.Protection.Safety.{IsUnprotected}
use worktree_gc.Pressure.{CleanupError, pressure_should_continue}
use worktree_gc.Worktree.{WorktreeDecision}
use worktree_gc.Worktree.Revalidation.{ExecutionPass}
use worktree_gc.Worktree.Execution.{OpenHandleSnapshot, is_routine}
use worktree_gc.Worktree.Execution.Guarded.{
  IsWanted, IsNextSatisfied, IsNextFile, guard_runs, guard-IsNextFile,
}
use worktree_gc.Generated.{GeneratedDirDecision, is_delete}
use worktree_gc.Generated.Execution.{holds}
use worktree_gc.Generated.Execution.Remove.{DeletionEnv, remove_generated_directory_with_timing}
use worktree_gc.Generated.Execution.Attempt.{
  Attempt, remove_generated_directory_with_timing-Attempt,
}
use worktree_gc.Generated.Execution.Cleanup.{
  ExecutionManifest, Outcome, is_cargo_lock_timeout, deferred_or_failed, settle_guarded,
  nested_in_planned_removal, still_wanted, may_delete, delete_guarded, deletion_step,
}

module _ {S : Type 0} (env : DeletionEnv S) (macos : Bool) (manifest : ExecutionManifest)
    (pass : ExecutionPass) (open_handles : Option OpenHandleSnapshot) (deadline : Option ℕ)
    (removals : List WorktreeDecision) (open_dirs owned : List FilePath) where
  -- The tests before the guard: the directory is there, it does not go with a worktree, the pass still
  -- wants it, it is to be deleted, and neither its worktree nor itself is in use.
  abbrev pub MayDelete : GeneratedDirDecision → List String → S → Type 0
  MayDelete decision satisfied s =
      (nested_in_planned_removal env macos manifest pass open_handles deadline removals open_dirs
          owned decision.path
        ≡ false)
      × ((env.removal.host s).exists decision.path ≡ true)
      × IsWanted (env.removal.host s) manifest.removal.pressure pass decision.path satisfied
      × (is_delete decision.action ≡ true)
      × (holds owned decision.worktree_path ≡ false)
      × (holds open_dirs decision.path ≡ false)

  -- A directory that the loop may try to remove: the tests pass, and the registry file is readable and
  -- has no active lease that covers it.
  abbrev pub IsAdmitted : GeneratedDirDecision → List String → RegistryFile → S → Type 0
  IsAdmitted decision satisfied file s =
      MayDelete decision satisfied s
      × IsUnprotected (env.removal.machine s) (env.removal.clock s) file (decision.path ∷ [])

  -- What a turn does: nothing, or the attempt on a directory that is admitted; and behind either a
  -- timeout of the locks may be recorded for a later run.
  abbrev pub Work : GeneratedDirDecision → List String → RegistryFile → S → S → Type 0
  Work decision satisfied file s s2 =
      (s1 : S) × ((s1 ≡ s)
        ⊎ (IsAdmitted decision satisfied file s
            × Attempt env macos pass open_handles deadline decision s s1))
      × ((s2 ≡ s1) ⊎ (s2 ≡ (env.write_deferred decision s1).1))

  -- One turn, from satisfied filesystems, registry file and world to those after it.
  pub record IsTurn (decision : GeneratedDirDecision) (satisfied : List String)
      (file : RegistryFile) (s : S) (satisfied' : List String) (file' : RegistryFile) (s' : S)
      : Type 0 where
    pub satisfies :
        IsNextSatisfied
          (env.removal.host s)
          manifest.removal.pressure
          decision.path
          satisfied
          satisfied'
    pub persists : IsNextFile (env.removal.machine s) (env.removal.clock s) file file'
    pub works : Work decision satisfied file s s'

  may_delete-MayDelete :
      (decision : GeneratedDirDecision) (satisfied : List String) (s : S)
      → (may_delete env macos manifest pass open_handles deadline removals open_dirs owned decision
          satisfied s).0
        ≡ ok true
      → MayDelete decision satisfied s
  unfolding may_delete still_wanted
  may_delete-MayDelete decision satisfied s h =
      elim (Bool-cases (
        nested_in_planned_removal env macos manifest pass open_handles deadline removals open_dirs
          owned decision.path)) [
            | inl n ↦ absurd (ground (arith, n))
            | inr n ↦ elim (Bool-cases ((env.removal.host s).exists decision.path)) [
              | inr e ↦ absurd (ground (arith, n, e))
              | inl e ↦ elim (Bool-cases (is_routine pass)) [
                | inl r ↦ (
                  n,
                  e,
                  inl r,
                  ground (arith, n, e, r),
                  ground (arith, n, e, r),
                  ground (arith, n, e, r),
                )
                | inr r ↦
                    elim (Result-cases (
                      pressure_should_continue (env.removal.host s) manifest.removal.pressure
                        decision.path satisfied)) [
                          | inr (error, p) ↦ absurd (ground (arith, n, e, r, p))
                          | inl ((answer, after), p) ↦ elim (Bool-cases answer) [
                            | inr f ↦ absurd (ground (arith, n, e, r, p, f))
                            | inl t ↦ (
                              n,
                              e,
                              inr (after, ground (arith, p, t)),
                              ground (arith, n, e, r, p, t),
                              ground (arith, n, e, r, p, t),
                              ground (arith, n, e, r, p, t),
                            )
                          ]
                        ]
              ]
            ]
          ]

  may_delete-IsNextSatisfied :
      (decision : GeneratedDirDecision) (satisfied : List String) (s : S)
      → IsNextSatisfied
          (env.removal.host s)
          manifest.removal.pressure
          decision.path
          satisfied
          (may_delete env macos manifest pass open_handles deadline removals open_dirs owned
            decision satisfied s).1
  unfolding may_delete still_wanted
  may_delete-IsNextSatisfied decision satisfied s =
      elim (Bool-cases (
        nested_in_planned_removal env macos manifest pass open_handles deadline removals open_dirs
          owned decision.path
        || not ((env.removal.host s).exists decision.path))) [
          | inl n ↦ inl (ground (arith, n))
          | inr n ↦ elim (Bool-cases (is_routine pass)) [
            | inl r ↦ inl (ground (arith, n, r))
            | inr r ↦
                elim (Result-cases (
                  pressure_should_continue (env.removal.host s) manifest.removal.pressure
                    decision.path satisfied)) [
                      | inr (error, p) ↦ inl (ground (arith, n, r, p))
                      | inl ((answer, after), p) ↦ elim (Bool-cases answer) [
                        | inl t ↦ inr (answer, ground (arith, n, r, p, t))
                        | inr t ↦ inr (answer, ground (arith, n, r, p, t))
                      ]
                    ]
          ]
        ]

  settle_guarded-turn :
      {T : Type 0} (defer : Bool) (decision : GeneratedDirDecision)
      (outcome : Result ProtectionError (ProtectionGuardOutcome (Result CleanupError T))) (s : S)
      → ((settle_guarded env defer decision outcome s).1 ≡ s)
        ⊎ ((settle_guarded env defer decision outcome s).1 ≡ (env.write_deferred decision s).1)
  unfolding settle_guarded deferred_or_failed
  settle_guarded-turn defer decision (err _) s = inl refl
  settle_guarded-turn defer decision (ok (protected_by _)) s = inl refl
  settle_guarded-turn defer decision (ok (executed (ok _))) s = inl refl
  settle_guarded-turn defer decision (ok (executed (err error))) s =
      elim (Bool-cases (defer && is_cargo_lock_timeout error)) [
        | inl e ↦ inr (ground (arith, e))
        | inr e ↦ inl (ground (arith, e))
      ]

  delete_guarded-IsTurn :
      (decision : GeneratedDirDecision) (satisfied after : List String) (file : RegistryFile)
      (s : S)
      → MayDelete decision satisfied s
      → IsNextSatisfied (env.removal.host s) manifest.removal.pressure decision.path satisfied after
      → (let step =
            delete_guarded env macos manifest pass open_handles deadline removals open_dirs owned
              decision after file s in
          IsTurn decision satisfied file s step.1 step.2 step.3)
  unfolding delete_guarded with_protection_guard_at
  delete_guarded-IsTurn decision satisfied after file s may next =
      let operation =
        remove_generated_directory_with_timing env macos pass open_handles deadline
          manifest.cargo_lock_timeout_secs decision in
      let machine = env.removal.machine s in
      let now = env.removal.clock s in
      let paths = decision.path ∷ [] in
      let guarded = with_protection_guard_at machine decision.path now operation file s in
      record {
        satisfies = next;
        persists = guard-IsNextFile machine operation paths now file s;
        works = (
          guarded.2,
          elim (guard_runs machine operation paths now file s) [
            | inl same ↦ inl same
            | inr (free, ran) ↦ inr (
              (may, free),
              subst (Attempt env macos pass open_handles deadline decision s) (sym ran) (
                  remove_generated_directory_with_timing-Attempt env macos pass open_handles
                    deadline manifest.cargo_lock_timeout_secs decision s),
            )
          ],
          settle_guarded-turn manifest.defer_lock_timeouts decision guarded.0 guarded.2,
        );
      }

  pub deletion_step-IsTurn :
      (decision : GeneratedDirDecision) (satisfied : List String) (file : RegistryFile) (s : S)
      → (let step =
            deletion_step env macos manifest pass open_handles deadline removals open_dirs owned
              decision satisfied file s in
          IsTurn decision satisfied file s step.1 step.2 step.3)
  unfolding deletion_step
  deletion_step-IsTurn decision satisfied file s =
      go
        (may_delete env macos manifest pass open_handles deadline removals open_dirs owned decision
          satisfied s).0
        (may_delete env macos manifest pass open_handles deadline removals open_dirs owned decision
          satisfied s).1
        refl (may_delete-IsNextSatisfied decision satisfied s)
    where
      go :
          (tried : Result CleanupError Bool) (after : List String)
          → (may_delete env macos manifest pass open_handles deadline removals open_dirs owned
              decision satisfied s).0
            ≡ tried
          → IsNextSatisfied
              (env.removal.host s)
              manifest.removal.pressure
              decision.path
              satisfied
              after
          → (let step = elim tried as (λ _. Outcome S) [
            | err error ↦ (err error, after, file, s)
            | ok false ↦ (ok tt, after, file, s)
            | ok true ↦
                delete_guarded env macos manifest pass open_handles deadline removals open_dirs
                  owned decision after file s
          ] in
              IsTurn decision satisfied file s step.1 step.2 step.3)
      go (err error) after e next = record {
        satisfies = next;
        persists = inl refl;
        works = (s, inl refl, inl refl);
      }
      go (ok false) after e next = record {
        satisfies = next;
        persists = inl refl;
        works = (s, inl refl, inl refl);
      }
      go (ok true) after e next =
          delete_guarded-IsTurn decision satisfied after file s
            (may_delete-MayDelete decision satisfied s e) next
