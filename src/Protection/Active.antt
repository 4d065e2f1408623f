-- ===== src/Protection/Active.antt =====
-- `read_active_protections_inner` of src/protection.rs and `list_protections`: expired leases are
-- dropped, the paths of the active ones are inspected, and the file is compacted.
use worktree_gc.Base.{
  ℕ, Bool, true, not, ◌&&◌, List, [], ◌∷◌, map, ltb, any, length, retain, nat_beq, if◌then◌else◌,
  Result, ok, err, ensure, ◌>>=◌, ◌>>◌,
}
use worktree_gc.Text.{saturating_add, saturating_mul}
use worktree_gc.FilePath.{Component, components, path_eq}
use worktree_gc.Protection.Lease.{
  ProtectionError, ProtectionLease, beyond_limit, not_canonical, uninspectable, unresolved_path,
  is_active, max_protection_ttl_days,
}
use worktree_gc.Protection.Registry.{
  done, not_found, other_error, Machine, RegistryFile, RegistryOp, ProtectionRegistry,
  read_registry, write_registry, with_registry_lock,
}

-- The ancestors of an absolute path, from the root to the leaf.
unfoldable pub prefixes : List Component → List (List Component)
prefixes [] = []
prefixes (c ∷ cs) = (c ∷ []) ∷ map (◌∷◌ c) (prefixes cs)

pub data Presence : Type 0 where
  present dormant : Presence

-- The inner loop: a symbolic link on the way is refused, a missing prefix makes the lease dormant.
unfoldable pub walk_prefixes : Machine → List (List Component) → Result ProtectionError Presence
walk_prefixes machine [] = ok present
walk_prefixes machine (prefix ∷ rest) = elim (machine.symlink_metadata prefix) [
  | done is_symlink ↦ if is_symlink then err not_canonical else walk_prefixes machine rest
  | not_found ↦ ok dormant
  | other_error ↦ err uninspectable
]

-- The resolved path must be the stored one; it may have vanished since the walk.
resolve_lease : Machine → ProtectionLease → Result ProtectionError Unit
resolve_lease machine lease = elim (machine.canonicalize lease.path) [
  | done canonical ↦ ensure (path_eq canonical lease.path) not_canonical
  | not_found ↦ ok tt
  | other_error ↦ err unresolved_path
]

unfoldable pub inspect_lease : Machine → ProtectionLease → Result ProtectionError Unit
unfolding walk_prefixes resolve_lease
inspect_lease machine lease = do
  presence ← walk_prefixes machine (prefixes (components lease.path))
  elim presence [ dormant ↦ ok tt | present ↦ resolve_lease machine lease ]

unfoldable pub inspect_leases : Machine → List ProtectionLease → Result ProtectionError Unit
unfolding inspect_lease
inspect_leases machine [] = ok tt
inspect_leases machine (lease ∷ leases) = do
  inspect_lease machine lease
  inspect_leases machine leases

unfoldable pub ttl_seconds : ℕ → ℕ
ttl_seconds ttl_days = saturating_mul ttl_days 86_400

-- No lease lasts longer than the greatest time to live, from now.
unfoldable pub within_limit : ℕ → List ProtectionLease → Bool
within_limit now active =
    let max_expiry = saturating_add now (ttl_seconds max_protection_ttl_days) in
    not (any (λ lease. ltb max_expiry lease.expires_at_unix) active)

-- The leases that are active, each checked.
unfoldable pub checked_active :
    Machine → ℕ → RegistryFile → Result ProtectionError (List ProtectionLease × ProtectionRegistry)
unfolding within_limit
checked_active machine now file = do
  registry ← read_registry machine file
  let active = retain (is_active now) registry.leases
  ensure (within_limit now active) beyond_limit
  inspect_leases machine active
  ok (active, registry)

-- The end of the function: the file is rewritten only if asked for, and if a lease has expired.
unfoldable pub persist_active :
    Machine → Bool → List ProtectionLease × ProtectionRegistry → RegistryOp (List ProtectionLease)
persist_active machine persist_expiry (active, registry) file =
    if persist_expiry && not (nat_beq (length active) (length registry.leases))
    then (let (written, after) =
          write_registry machine (record registry { leases = active }) file in
        (written >> ok active, after))
    else (ok active, file)

unfoldable pub read_active_protections_inner :
    Machine → ℕ → Bool → RegistryOp (List ProtectionLease)
read_active_protections_inner machine now persist_expiry file =
    elim (checked_active machine now file) [
      | err error ↦ (err error, file)
      | ok found ↦ persist_active machine persist_expiry found file
    ]

unfoldable pub read_active_protections : Machine → ℕ → RegistryOp (List ProtectionLease)
read_active_protections machine now = read_active_protections_inner machine now true

-- `list_protections` and `active_protections_at`
pub list_protections : Machine → ℕ → RegistryOp (List ProtectionLease)
list_protections machine now = with_registry_lock machine (read_active_protections machine now)
