-- ===== src/Worktree/Execution/Progress.antt =====
-- The removal loop of src/lib.rs does remove: the converse of what Safety shows.
use worktree_gc.Base.{
  ◌≡◌, inl, inr, refl, sym, subst, Bool, true, false, List, [], ◌∷◌, String, arith, Bool-cases,
  Option, Result, ok, err, if◌then◌else◌,
}
use worktree_gc.Protection.Lease.{ProtectionLease}
use worktree_gc.Protection.Registry.{RegistryFile, finish_registry_operation}
use worktree_gc.Protection.Active.{read_active_protections}
use worktree_gc.Protection.Runs.{with_protection_guard_at-runs}
use worktree_gc.Pressure.{CleanupError, removal_failed}
use worktree_gc.Worktree.{WorktreeDecision}
use worktree_gc.Worktree.Revalidation.{
  RemovalManifest, ExecutionPass, pull_request_revalidation_required,
}
use worktree_gc.Worktree.Execution.{
  OpenHandleSnapshot, RemovalEnv, is_routine, guard_result, passes_observation, passes_pressure,
  may_remove, remove_guarded, removal_step,
}
use worktree_gc.Worktree.Execution.Safety.{IsAuthorised}
use worktree_gc.Protection.Safety.{IsUnprotected}

module _ {S : Type 0} (env : RemovalEnv S) (manifest : RemovalManifest) (pass : ExecutionPass)
    (open_handles : Option OpenHandleSnapshot) where
  passes_observation-IsAuthorised :
      {decision : WorktreeDecision} {satisfied : List String} {file : RegistryFile} {s : S}
      → IsAuthorised env manifest pass open_handles decision satisfied file s
      → passes_observation env manifest pass open_handles decision s ≡ ok true
  unfolding passes_observation
  passes_observation-IsAuthorised {decision} {satisfied} {file} {s} a =
      elim (Bool-cases
        (pull_request_revalidation_required manifest.pull_requests decision.removal_trigger)) [
          | inl r ↦
              (let same = a.unchanged r in
                elim (Bool-cases manifest.check_in_use) [
                  | inl c ↦ (let idle = a.idle c in ground (arith, r, same, c, idle))
                  | inr c ↦ ground (arith, r, same, c)
                ])
          | inr r ↦ elim (Bool-cases manifest.check_in_use) [
            | inl c ↦ (let idle = a.idle c in ground (arith, r, c, idle))
            | inr c ↦ ground (arith, r, c)
          ]
        ]

  may_remove-IsAuthorised :
      {decision : WorktreeDecision} {satisfied : List String} {file : RegistryFile} {s : S}
      → IsAuthorised env manifest pass open_handles decision satisfied file s
      → (may_remove env manifest pass open_handles decision satisfied s).0 ≡ ok true
  unfolding may_remove passes_pressure
  may_remove-IsAuthorised {decision} {satisfied} {file} {s} a =
      let present = a.present in
      let observed = passes_observation-IsAuthorised a in
      elim (Bool-cases (is_routine pass)) [
        | inl r ↦ ground (arith, present, observed, r)
        | inr r ↦ elim a.wanted [
          | inl routine ↦ absurd (ground (arith, r, routine))
          | inr (after, wanted) ↦ ground (arith, present, observed, r, wanted)
        ]
      ]

  -- What a turn that removes gives: the world after the removal, and whether that succeeded.
  abbrev pub IsRemoval :
      WorktreeDecision → S → Result CleanupError Unit × List String × RegistryFile × S → Type 0
  IsRemoval decision s step =
      let removed = env.git_worktree_remove decision.path s in
      (step.3 ≡ removed.1) × (step.0 ≡ (if removed.0 then ok tt else err removal_failed))

  remove_guarded-IsRemoval :
      (decision : WorktreeDecision) (after : List String) (file : RegistryFile) (s : S)
      (leases : List ProtectionLease)
      → IsUnprotected (env.machine s) (env.clock s) file (decision.path ∷ [])
      → (env.machine s).can_lock ≡ true
      → (env.machine s).can_unlock ≡ true
      → (read_active_protections (env.machine s) (env.clock s) file).0 ≡ ok leases
      → IsRemoval decision s (remove_guarded env manifest pass open_handles decision after file s)
  unfolding remove_guarded guard_result finish_registry_operation
  remove_guarded-IsRemoval decision after file s leases free lock unlock read =
      let removed = env.git_worktree_remove decision.path s in
      subst
        (λ guarded.
          (guarded.2 ≡ removed.1)
          × (guard_result guarded.0 ≡ (if removed.0 then ok tt else err removal_failed)))
        (sym (
          with_protection_guard_at-runs (env.machine s) (env.git_worktree_remove decision.path)
            decision.path (env.clock s) file leases s lock read free))
        (refl, ground (arith, unlock))

  -- A worktree that is authorised is removed, provided that the lock is taken and given back and the
  -- active leases are read: the turn gives the world after its removal, and an error exactly when that
  -- failed.
  pub removal_step_removes :
      (decision : WorktreeDecision) (satisfied : List String) (file : RegistryFile) (s : S)
      (leases : List ProtectionLease)
      → IsAuthorised env manifest pass open_handles decision satisfied file s
      → (env.machine s).can_lock ≡ true
      → (env.machine s).can_unlock ≡ true
      → (read_active_protections (env.machine s) (env.clock s) file).0 ≡ ok leases
      → IsRemoval decision s (removal_step env manifest pass open_handles decision satisfied file s)
  unfolding removal_step
  removal_step_removes decision satisfied file s leases authorised lock unlock read =
      go (may_remove env manifest pass open_handles decision satisfied s).0
        (may_remove env manifest pass open_handles decision satisfied s).1
        (may_remove-IsAuthorised authorised)
    where
      go :
          (tried : Result CleanupError Bool) (after : List String)
          → tried ≡ ok true
          → IsRemoval decision s
              (elim tried as (λ _. Result CleanupError Unit × List String × RegistryFile × S) [
                | err error ↦ (err error, after, file, s)
                | ok false ↦ (ok tt, after, file, s)
                | ok true ↦ remove_guarded env manifest pass open_handles decision after file s
              ])
      go (err error) after e = cc
      go (ok false) after e = cc
      go (ok true) after e =
          remove_guarded-IsRemoval decision after file s leases authorised.unprotected lock unlock
            read
