-- ===== src/Worktree/Execution/Guarded.antt =====
-- What the loops of src/lib.rs over removals and deletions share: how a turn passes on the satisfied
-- filesystems and the registry file, and what the guard of a turn runs.
use worktree_gc.Base.{
  ℕ, ◌≡◌, ◌⊎◌, inl, inr, refl, sym, subst, Bool, true, false, List, String, Option, arith,
  if◌then◌else◌, Bool-cases, Option-cases, Result, ok, err, find_map,
}
use worktree_gc.FilePath.{FilePath}
use worktree_gc.Protection.Lease.{ProtectionError, ProtectionLease, lock_failed}
use worktree_gc.Protection.Registry.{Machine, RegistryFile}
use worktree_gc.Protection.Active.{read_active_protections}
use worktree_gc.Protection.Guard.{
  with_protection_guards_at, guard_under_lock, decide_guard, protection_for_path,
}
use worktree_gc.Protection.Safety.{IsUnprotected, guard_safe}
use worktree_gc.Pressure.{Host, PressurePolicy, pressure_should_continue}
use worktree_gc.Worktree.Revalidation.{ExecutionPass}
use worktree_gc.Worktree.Execution.{is_routine}

-- The pass wants the path: it is the routine pass, or pressure goes on at the path with the filesystems
-- that are satisfied so far.
abbrev pub IsWanted : Host → Option PressurePolicy → ExecutionPass → FilePath → List String → Type 0
IsWanted host policy pass path satisfied =
    (is_routine pass ≡ true)
    ⊎ ((after : List String) × (pressure_should_continue host policy path satisfied
          ≡ ok (true, after)))

-- The satisfied filesystems after a turn: as they were, or as the test on pressure left them.
abbrev pub IsNextSatisfied :
    Host → Option PressurePolicy → FilePath → List String → List String → Type 0
IsNextSatisfied host policy path satisfied after =
    (after ≡ satisfied)
    ⊎ ((answer : Bool) × (pressure_should_continue host policy path satisfied ≡ ok (answer, after)))

-- The registry file after a turn: as it was, or without the leases that expired.
abbrev pub IsNextFile : Machine → ℕ → RegistryFile → RegistryFile → Type 0
IsNextFile machine now file file' =
    (file' ≡ file) ⊎ (file' ≡ (read_active_protections machine now file).1)

module _ {S T : Type 0} (machine : Machine) (operation : S → T × S) where
  decide_guard_once :
      (paths : List FilePath) (leases : Result ProtectionError (List ProtectionLease)) (s : S)
      → ((decide_guard machine paths operation leases s).1 ≡ s)
        ⊎ ((decide_guard machine paths operation leases s).1 ≡ (operation s).1)
  unfolding decide_guard
  decide_guard_once paths (err error) s = inl refl
  decide_guard_once paths (ok leases) s =
      elim (Option-cases (find_map (protection_for_path machine leases) paths)) [
        | inl e ↦ inr (ground (arith, e))
        | inr (lease, e) ↦ inl (ground (arith, e))
      ]

  guard_runs_once :
      (paths : List FilePath) (now : ℕ) (file : RegistryFile) (s : S)
      → ((with_protection_guards_at machine paths now operation file s).2 ≡ s)
        ⊎ ((with_protection_guards_at machine paths now operation file s).2 ≡ (operation s).1)
  unfolding with_protection_guards_at guard_under_lock
  guard_runs_once paths now file s = elim (Bool-cases machine.can_lock) [
    | inl e ↦
        subst
          (λ b.
            ((if b
                then guard_under_lock machine paths now operation file s
                else (err lock_failed, file, s)).2
              ≡ s)
            ⊎ ((if b
                  then guard_under_lock machine paths now operation file s
                  else (err lock_failed, file, s)).2
                ≡ (operation s).1))
          (sym e) (decide_guard_once paths (read_active_protections machine now file).0 s)
    | inr e ↦ inl (
        subst
          (λ b.
            (if b
              then guard_under_lock machine paths now operation file s
              else (err lock_failed, file, s)).2
            ≡ s)
          (sym e) refl)
  ]

  -- The guarded operation is not run, or it is run once and no active lease covers any of the paths.
  pub guard_runs :
      (paths : List FilePath) (now : ℕ) (file : RegistryFile) (s : S)
      → ((with_protection_guards_at machine paths now operation file s).2 ≡ s)
        ⊎ (IsUnprotected machine now file paths
            × ((with_protection_guards_at machine paths now operation file s).2 ≡ (operation s).1))
  guard_runs paths now file s = elim (guard_runs_once paths now file s) [
    | inl same ↦ inl same
    | inr ran ↦ elim (guard_safe machine operation paths now file s) [
      | inl same ↦ inl same
      | inr free ↦ inr (free, ran)
    ]
  ]

  pub guard-IsNextFile :
      (paths : List FilePath) (now : ℕ) (file : RegistryFile) (s : S)
      → IsNextFile machine now file (with_protection_guards_at machine paths now operation file s).1
  unfolding with_protection_guards_at guard_under_lock
  guard-IsNextFile paths now file s = go machine.can_lock
    where
      go :
          (b : Bool)
          → IsNextFile machine now file
              (if b
                then guard_under_lock machine paths now operation file s
                else (err lock_failed, file, s)).1
      go true = inr refl
      go false = inl refl
