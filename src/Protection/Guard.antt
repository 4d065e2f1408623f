-- ===== src/Protection/Guard.antt =====
-- `protection_for_path`, the guards around destructive operations, and the advisory check of the
-- migration, of src/protection.rs.
use worktree_gc.Base.{
  ℕ, Bool, false, ◌||◌, List, [], ◌∷◌, length, retain, find_map, max_by_key, if◌then◌else◌, Result,
  ok, err, ensure, ◌>>=◌, ◌>>◌, Option, none, some, leb,
}
use mathlib.Core.Option
use worktree_gc.FilePath.{FilePath, components, starts_with}
use worktree_gc.Protection.Lease.{
  ProtectionError, ProtectionLease, ProtectionMatch, match_of, protected, registry_too_large,
  uninspectable, lock_failed, not_canonical,
}
use worktree_gc.Protection.Registry.{
  done, not_found, other_error, Machine, RegistryFile, RegistryOp, finish_registry_operation,
}
use worktree_gc.Protection.Active.{read_active_protections, read_active_protections_inner}

-- `fs::canonicalize(path).unwrap_or_else(|_| path.to_path_buf())`
unfoldable pub resolved : Machine → FilePath → FilePath
resolved machine path = elim (machine.canonicalize path) [ done canonical ↦ canonical | _ ↦ path ]

-- A lease covers its path, what lies below it and what contains it.
unfoldable pub covers : FilePath → ProtectionLease → Bool
covers candidate lease = starts_with candidate lease.path || starts_with lease.path candidate

unfoldable pub depth : ProtectionLease → ℕ
depth lease = length (components lease.path)

unfoldable pub covering_lease : Machine → FilePath → List ProtectionLease → Option ProtectionLease
unfolding covers resolved
covering_lease machine path protections =
    max_by_key depth (retain (covers (resolved machine path)) protections)

unfoldable pub protection_for_path :
    Machine → List ProtectionLease → FilePath → Option ProtectionMatch
unfolding covering_lease
protection_for_path machine protections path =
    Option.map match_of (covering_lease machine path protections)

pub data ProtectionGuardOutcome (T : Type 0) : Type 0 where
  protected_by : ProtectionMatch → ProtectionGuardOutcome T
  executed : T → ProtectionGuardOutcome T

module _ {S T : Type 0} where
  -- The operation changes a state of its own; it is run at most once, under the lock.
  unfoldable pub decide_guard :
      Machine
      → List FilePath
      → (S → T × S)
      → Result ProtectionError (List ProtectionLease)
      → S
      → Result ProtectionError (ProtectionGuardOutcome T) × S
  decide_guard machine paths operation (err error) s = (err error, s)
  decide_guard machine paths operation (ok protections) s =
      elim (find_map (protection_for_path machine protections) paths) [
        | some lease ↦ (ok (protected_by lease), s)
        | none ↦ (let (value, s') = operation s in (ok (executed value), s'))
      ]

  -- The body under the lock, and the unlocking.
  unfoldable pub guard_under_lock :
      Machine
      → List FilePath
      → ℕ
      → (S → T × S)
      → RegistryFile
      → S
      → Result ProtectionError (ProtectionGuardOutcome T) × RegistryFile × S
  unfolding decide_guard
  guard_under_lock machine paths now operation file s =
      let (leases, file') = read_active_protections machine now file in
      let (outcome, s') = decide_guard machine paths operation leases s in
      (finish_registry_operation outcome machine.can_unlock, file', s')

  -- The result, the registry file and the state of the operation after the call.
  unfoldable pub with_protection_guards_at :
      Machine
      → List FilePath
      → ℕ
      → (S → T × S)
      → RegistryFile
      → S
      → Result ProtectionError (ProtectionGuardOutcome T) × RegistryFile × S
  unfolding guard_under_lock
  with_protection_guards_at machine paths now operation file s =
      if machine.can_lock
      then guard_under_lock machine paths now operation file s
      else (err lock_failed, file, s)

  unfoldable pub with_protection_guard_at :
      Machine
      → FilePath
      → ℕ
      → (S → T × S)
      → RegistryFile
      → S
      → Result ProtectionError (ProtectionGuardOutcome T) × RegistryFile × S
  unfolding with_protection_guards_at
  with_protection_guard_at machine path = with_protection_guards_at machine (path ∷ [])

-- `MigrationProtectionGuard::observe`, whose checks that prefixes are canonical are the parameter
-- `canonical_prefixes`, and the size of the file the parameter `file_bytes`.
module _ (canonical_prefixes : FilePath → Bool) (file_bytes : List ℕ → ℕ) where
  ensure_registry_bound : RegistryFile → Result ProtectionError Unit
  ensure_registry_bound (done contents) =
      ensure (leb (file_bytes contents) 4_194_304) registry_too_large
  ensure_registry_bound not_found = ok tt
  ensure_registry_bound other_error = err uninspectable

  observe_paths : Machine → List ProtectionLease → List FilePath → Result ProtectionError Unit
  observe_paths machine leases [] = ok tt
  observe_paths machine leases (path ∷ paths) = do
    ensure (canonical_prefixes path) not_canonical
    elim (protection_for_path machine leases path) [
      | some lease ↦ err protected
      | none ↦ observe_paths machine leases paths
    ]

  unfoldable pub observe : Machine → FilePath → List FilePath → ℕ → RegistryOp Unit
  unfolding ensure_registry_bound observe_paths
  observe machine registry paths now file =
      let (leases, file') = read_active_protections_inner machine now false file in
      (
        (do
          ensure (canonical_prefixes registry) not_canonical
          ensure_registry_bound file
          active ← leases
          observe_paths machine active paths),
        file',
      )
