-- ===== src/Protection/Runs.antt =====
-- When the guard of src/protection.rs lets an operation run.
use worktree_gc.Base.{
  ℕ, ◌≡◌, inl, inr, refl, sym, subst, ap, ◌∙◌, Bool, true, false, List, [], ◌∷◌, arith, All, retain,
  max_by_key, Result, ok, err, Bool-cases, none, if◌then◌else◌, ok-injective,
}
use worktree_gc.FilePath.{FilePath}
use worktree_gc.Protection.Lease.{ProtectionError, ProtectionLease, is_active, lock_failed}
use worktree_gc.Protection.Registry.{
  Machine, RegistryFile, ProtectionRegistry, finish_registry_operation,
}
use worktree_gc.Protection.Active.{read_active_protections}
use worktree_gc.Protection.Guard.{
  resolved, covers, covering_lease, protection_for_path, ProtectionGuardOutcome, executed,
  decide_guard, guard_under_lock, with_protection_guard_at, with_protection_guards_at,
}
use worktree_gc.Protection.Safety.{IsUnprotected, read_active-eq-ok}

retain-none :
    (p q : ProtectionLease → Bool) (leases : List ProtectionLease)
    → All (λ lease. q lease ≡ true → p lease ≡ false) leases
    → retain p (retain q leases) ≡ []
retain-none p q [] h = refl
retain-none p q (lease ∷ leases) h =
    let rest = retain-none p q leases h.1 in
    elim (Bool-cases (q lease)) [
      | inr e ↦ ground (arith, e, rest)
      | inl e ↦ (let free = h.0 e in ground (arith, e, free, rest))
    ]

-- A path that no lease covers has no match.
protection_for_path-free :
    (machine : Machine) (now : ℕ) (leases : List ProtectionLease) (path : FilePath)
    → All
        (λ lease. is_active now lease ≡ true → covers (resolved machine path) lease ≡ false)
        leases
    → protection_for_path machine (retain (is_active now) leases) path ≡ none
unfolding protection_for_path covering_lease max_by_key
protection_for_path-free machine now leases path h =
    rw (retain-none (covers (resolved machine path)) (is_active now) leases h) refl

module _ {S T : Type 0} (machine : Machine) (operation : S → T × S) where
  decide_guard-runs :
      (path : FilePath) (leases : List ProtectionLease) (s : S)
      → protection_for_path machine leases path ≡ none
      → decide_guard machine (path ∷ []) operation (ok leases) s
        ≡ (ok (executed (operation s).0), (operation s).1)
  unfolding decide_guard
  decide_guard-runs path leases s free = ground (arith, free)

  -- With a lock, and leases that are read and do not cover the path, the operation runs.
  pub with_protection_guard_at-runs :
      (path : FilePath) (now : ℕ) (file : RegistryFile) (leases : List ProtectionLease) (s : S)
      → machine.can_lock ≡ true
      → (read_active_protections machine now file).0 ≡ ok leases
      → IsUnprotected machine now file (path ∷ [])
      → with_protection_guard_at machine path now operation file s ≡ (
        finish_registry_operation (ok (executed (operation s).0)) machine.can_unlock,
        (read_active_protections machine now file).1,
        (operation s).1,
      )
  unfolding with_protection_guard_at with_protection_guards_at guard_under_lock
      read_active_protections
  with_protection_guard_at-runs path now file leases s lock read free =
      let (registry, readable, active) = read_active-eq-ok machine now true file leases read in
      let same : free.registry ≡ registry = ok-injective (sym free.readable ∙ readable) in
      let uncovered : All
          (λ lease. is_active now lease ≡ true → covers (resolved machine path) lease ≡ false)
          registry.leases =
        subst
          (λ (r : ProtectionRegistry).
            All (λ lease. is_active now lease ≡ true → covers (resolved machine path) lease ≡ false)
              r.leases)
          same free.uncovered.0 in
      let unmatched : protection_for_path machine leases path ≡ none =
        subst (λ l. protection_for_path machine l path ≡ none) (sym active)
          (protection_for_path-free machine now registry.leases path uncovered) in
      let read_file = (read_active_protections machine now file).1 in
      let unlocked : Result ProtectionError (ProtectionGuardOutcome T) × RegistryFile × S = (
        finish_registry_operation (ok (executed (operation s).0)) machine.can_unlock,
        read_file,
        (operation s).1,
      ) in
      let settled : Result ProtectionError (ProtectionGuardOutcome T) × S
          → Result ProtectionError (ProtectionGuardOutcome T) × RegistryFile × S =
        λ p. (finish_registry_operation p.0 machine.can_unlock, read_file, p.1) in
      subst
        (λ b.
          (if b
            then guard_under_lock machine (path ∷ []) now operation file s
            else (err lock_failed, file, s))
          ≡ unlocked)
        (sym lock)
        (subst (λ r. settled (decide_guard machine (path ∷ []) operation r s) ≡ unlocked) (sym read)
          (ap settled (decide_guard-runs path leases s unmatched)))
