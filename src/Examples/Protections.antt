-- ===== src/Examples/Protections.antt =====
-- The theorems about src/protection.rs at concrete registries.
use worktree_gc.Base.{
  ℕ, ◌+◌, ◌*◌, ◌≤◌, ◌≡◌, ◌⊎◌, inl, refl, Bool, true, false, List, [], ◌∷◌, All, ok, arith, some,
  retain,
}
use worktree_gc.Protection.Lease.{ProtectionLease, ProtectionMatch, match_of, is_active}
use worktree_gc.Protection.Registry.{
  read_registry, registry_version, not_found, Machine, RegistryFile,
}
use worktree_gc.Protection.Registry.Validity.{AreValid, read_registry-AreValid}
use worktree_gc.Protection.Guard.{
  covers, depth, resolved, with_protection_guards_at, protection_for_path,
}
use worktree_gc.Protection.Operations.{add_protection_at}
use worktree_gc.Protection.Edits.Add.{add_protection_at-window}
use worktree_gc.Protection.Safety.{IsUnprotected, guard_safe, protection_for_path_deepest}
use worktree_gc.Examples.Fixtures.{tree, elsewhere, lease, machine, registry, stored}

-- An operation that counts its runs.
abbrev count : ℕ → Bool × ℕ
count n = (true, n + 1)

guard_safe_example :
    ((with_protection_guards_at machine (elsewhere ∷ []) 500 count stored 0).2 ≡ 0)
    ⊎ IsUnprotected machine 500 stored (elsewhere ∷ [])
guard_safe_example = guard_safe machine count (elsewhere ∷ []) 500 stored 0

read_registry-AreValid_example : (registry.version ≡ registry_version) × AreValid registry.leases
unfolding worktree_gc.Protection.Lease.validate_lease_id
    worktree_gc.Protection.Lease.validate_reason worktree_gc.Text.trim worktree_gc.Text.trim_start
    worktree_gc.Text.is_whitespace worktree_gc.Text.is_control
    worktree_gc.Protection.Lease.validate_stored_path worktree_gc.FilePath.is_absolute
    worktree_gc.FilePath.components
read_registry-AreValid_example =
    read_registry-AreValid machine stored registry (unfold read_registry in refl)

protection_for_path_deepest_example :
    (found : ProtectionLease) × (match_of found ≡ match_of lease)
    × (covers (resolved machine tree) found ≡ true)
    × All
        (λ other. covers (resolved machine tree) other ≡ true → depth other ≤ depth found)
        (lease ∷ [])
unfolding worktree_gc.Base.max_by_key worktree_gc.FilePath.starts_with
    worktree_gc.FilePath.components
protection_for_path_deepest_example =
    protection_for_path_deepest machine (lease ∷ []) tree (match_of lease)
      (unfold protection_for_path in refl)

abbrev added : ProtectionLease
added = record lease {
  id =
      b'p' ∷ b'-' ∷ b'0' ∷ b'0' ∷ b'0' ∷ b'0' ∷ b'0' ∷ b'0' ∷ b'0' ∷ b'0' ∷ b'0' ∷ b'0' ∷ b'0'
      ∷ b'0' ∷ b'0' ∷ b'0' ∷ b'0' ∷ b'a' ∷ [];
  path = elsewhere;
  created_at_unix = 500;
  expires_at_unix = 86_900;
}

add_protection_at-window_example :
    (added.expires_at_unix ≡ 500 + 1 * 86_400)
    × (added.expires_at_unix ≤ 500 + 30 * 86_400)
    × (is_active 500 added ≡ true)
unfolding worktree_gc.Protection.Operations.planned_addition
    worktree_gc.Protection.Lease.validate_ttl worktree_gc.Protection.Lease.validate_reason
    worktree_gc.Text.trim worktree_gc.Text.trim_start worktree_gc.Text.is_whitespace
    worktree_gc.Text.is_control worktree_gc.Protection.Lease.validate_stored_path
    worktree_gc.FilePath.is_absolute worktree_gc.FilePath.components read_registry
    worktree_gc.Protection.Registry.write_registry worktree_gc.Protection.Operations.lease_id
    worktree_gc.Text.saturating_add worktree_gc.Protection.Active.ttl_seconds
    worktree_gc.Text.saturating_mul
add_protection_at-window_example =
    add_protection_at-window machine elsewhere (b'o' ∷ b'k' ∷ []) 1 500 not_found added
      (omega arith) (unfold add_protection_at in refl)
