-- ===== src/Examples/Renewals.antt =====
-- The theorems about the operations on a registry that is read back, at a concrete registry.
use worktree_gc.Base.{
  ℕ, ◌+◌, ◌≤◌, ◌≡◌, refl, Bool, true, List, [], ◌∷◌, ◌++◌, All, ok, some, arith, retain, sort_by,
  max, get_elem?,
}
use worktree_gc.Text.{saturating_add}
use worktree_gc.FilePath.{path_leb}
use worktree_gc.Protection.Lease.{ProtectionLease, is_active}
use worktree_gc.Protection.Registry.{
  ProtectionRegistry, RegistryFile, done, not_found, read_registry,
}
use worktree_gc.Protection.Registry.Validity.{AreDistinct}
use worktree_gc.Protection.Active.{ttl_seconds}
use worktree_gc.Protection.Guard.{with_protection_guards_at, covers, resolved}
use worktree_gc.Protection.Operations.{add_protection_at, renew_protection_at, remove_protection_at}
use worktree_gc.Protection.Edits.Selection.{IsSelected}
use worktree_gc.Protection.Edits.Add.{add_protection_at-blocks, add_protection_at-readable}
use worktree_gc.Protection.Edits.Renew.{IsExtension, renew_protection_at-extends}
use worktree_gc.Protection.Edits.Remove.{remove_protection_at-removes}
use worktree_gc.Examples.Fixtures.{lease, registry, elsewhere}
use worktree_gc.Examples.Codec.{faithful, faithful-IsRoundTrip, put_registry}

abbrev written : RegistryFile
written = done (put_registry registry)

abbrev reason : List ℕ
reason = b'o' ∷ b'k' ∷ []

-- What an addition for `elsewhere` at 500 makes.
abbrev added : ProtectionLease
added = record {
  id =
      b'p' ∷ b'-' ∷ b'0' ∷ b'0' ∷ b'0' ∷ b'0' ∷ b'0' ∷ b'0' ∷ b'0' ∷ b'0' ∷ b'0' ∷ b'0' ∷ b'0'
      ∷ b'0' ∷ b'0' ∷ b'0' ∷ b'0' ∷ b'a' ∷ [];
  path = elsewhere;
  reason = reason;
  created_at_unix = 500;
  expires_at_unix = 86_900;
}

abbrev count : ℕ → Bool × ℕ
count n = (true, n + 1)

add_protection_at-blocks_example :
    (with_protection_guards_at faithful
      (elsewhere ∷ [])
      600
      count
      (add_protection_at faithful elsewhere reason 1 500 written).1
      0).2
    ≡ 0
unfolding worktree_gc.Protection.Operations.canonical_or_fail
    worktree_gc.Protection.Lease.validate_ttl worktree_gc.Protection.Lease.validate_reason
    worktree_gc.Text.trim worktree_gc.Text.trim_start worktree_gc.Text.is_whitespace
    worktree_gc.Text.is_control worktree_gc.Protection.Lease.validate_stored_path
    worktree_gc.FilePath.is_absolute worktree_gc.FilePath.components worktree_gc.FilePath.path_eq
    worktree_gc.FilePath.path_leb worktree_gc.Protection.Registry.read_registry
    worktree_gc.Protection.Registry.check_leases worktree_gc.Protection.Registry.write_registry
    worktree_gc.Protection.Operations.lease_id worktree_gc.Text.saturating_add
    worktree_gc.Protection.Active.ttl_seconds worktree_gc.Text.saturating_mul
    worktree_gc.Protection.Lease.is_active worktree_gc.Protection.Lease.validate_lease_id
    worktree_gc.Examples.Codec.get_registry worktree_gc.Examples.Codec.get_leases
    worktree_gc.Examples.Codec.get_lease worktree_gc.Examples.Codec.get_text
    worktree_gc.Examples.Codec.get_number worktree_gc.Examples.Codec.put_registry
    worktree_gc.Examples.Codec.put_leases worktree_gc.Examples.Codec.put_lease
    worktree_gc.Examples.Codec.put_text worktree_gc.FilePath.starts_with
    worktree_gc.Protection.Guard.resolved worktree_gc.Base.sort_by
    worktree_gc.Protection.Operations.planned_addition
add_protection_at-blocks_example =
    add_protection_at-blocks faithful faithful elsewhere reason 1 500 600 written added
      (elsewhere ∷ []) count 0 faithful-IsRoundTrip refl (unfold add_protection_at in refl)
      (omega arith) (unfold covers in refl)

add_protection_at-readable_example :
    (after : ProtectionRegistry) × (read_registry faithful
        (add_protection_at faithful elsewhere reason 1 500 written).1
      ≡ ok after)
    × (after.leases
        ≡ sort_by
            (λ left right. path_leb left.path right.path)
            (retain (is_active 500) registry.leases ++ (added ∷ [])))
unfolding worktree_gc.Protection.Operations.canonical_or_fail
    worktree_gc.Protection.Lease.validate_ttl worktree_gc.Protection.Lease.validate_reason
    worktree_gc.Text.trim worktree_gc.Text.trim_start worktree_gc.Text.is_whitespace
    worktree_gc.Text.is_control worktree_gc.Protection.Lease.validate_stored_path
    worktree_gc.FilePath.is_absolute worktree_gc.FilePath.components worktree_gc.FilePath.path_eq
    worktree_gc.FilePath.path_leb worktree_gc.Protection.Registry.read_registry
    worktree_gc.Protection.Registry.check_leases worktree_gc.Protection.Registry.write_registry
    worktree_gc.Protection.Operations.lease_id worktree_gc.Text.saturating_add
    worktree_gc.Protection.Active.ttl_seconds worktree_gc.Text.saturating_mul
    worktree_gc.Protection.Lease.is_active worktree_gc.Protection.Lease.validate_lease_id
    worktree_gc.Examples.Codec.get_registry worktree_gc.Examples.Codec.get_leases
    worktree_gc.Examples.Codec.get_lease worktree_gc.Examples.Codec.get_text
    worktree_gc.Examples.Codec.get_number worktree_gc.Examples.Codec.put_registry
    worktree_gc.Examples.Codec.put_leases worktree_gc.Examples.Codec.put_lease
    worktree_gc.Examples.Codec.put_text worktree_gc.FilePath.starts_with
    worktree_gc.Protection.Guard.resolved worktree_gc.Base.sort_by
    worktree_gc.Protection.Operations.planned_addition
add_protection_at-readable_example =
    add_protection_at-readable faithful elsewhere reason 1 500 written added registry
      faithful-IsRoundTrip (omega arith) (unfold add_protection_at in refl)
      (unfold read_registry in refl) (unfold is_active in (refl, tt))

abbrev renewed : ProtectionLease
renewed = record lease { expires_at_unix = 86_900 }

renew_protection_at-extends_example :
    (before after : ProtectionRegistry) × (old : ProtectionLease) × (index : ℕ) × (read_registry
        faithful written
      ≡ ok before)
    × (read_registry faithful (renew_protection_at faithful lease.id 1 500 written).1 ≡ ok after)
    × IsExtension (retain (is_active 500) before.leases) after.leases
    × (get_elem? (retain (is_active 500) before.leases) index ≡ some old)
    × IsSelected faithful lease.id old
    × (renewed ≡ record old {
      expires_at_unix = max old.expires_at_unix (saturating_add 500 (ttl_seconds 1));
    })
    × (get_elem? after.leases index ≡ some renewed)
unfolding worktree_gc.Protection.Operations.canonical_or_fail
    worktree_gc.Protection.Lease.validate_ttl worktree_gc.Protection.Lease.validate_reason
    worktree_gc.Text.trim worktree_gc.Text.trim_start worktree_gc.Text.is_whitespace
    worktree_gc.Text.is_control worktree_gc.Protection.Lease.validate_stored_path
    worktree_gc.FilePath.is_absolute worktree_gc.FilePath.components worktree_gc.FilePath.path_eq
    worktree_gc.FilePath.path_leb worktree_gc.Protection.Registry.read_registry
    worktree_gc.Protection.Registry.check_leases worktree_gc.Protection.Registry.write_registry
    worktree_gc.Protection.Operations.lease_id worktree_gc.Text.saturating_add
    worktree_gc.Protection.Active.ttl_seconds worktree_gc.Text.saturating_mul
    worktree_gc.Protection.Lease.is_active worktree_gc.Protection.Lease.validate_lease_id
    worktree_gc.Examples.Codec.get_registry worktree_gc.Examples.Codec.get_leases
    worktree_gc.Examples.Codec.get_lease worktree_gc.Examples.Codec.get_text
    worktree_gc.Examples.Codec.get_number worktree_gc.Examples.Codec.put_registry
    worktree_gc.Examples.Codec.put_leases worktree_gc.Examples.Codec.put_lease
    worktree_gc.Examples.Codec.put_text worktree_gc.FilePath.starts_with
    worktree_gc.Protection.Guard.resolved worktree_gc.Base.sort_by
    worktree_gc.Protection.Operations.planned_renewal worktree_gc.Protection.Operations.find_lease
    worktree_gc.Protection.Operations.extend_at
renew_protection_at-extends_example =
    renew_protection_at-extends faithful lease.id 1 500 written renewed faithful-IsRoundTrip
      (unfold renew_protection_at in refl)

remove_protection_at-removes_example :
    (before after : ProtectionRegistry) × (front back : List ProtectionLease) × (read_registry
        faithful written
      ≡ ok before)
    × (read_registry faithful (remove_protection_at faithful lease.id 500 written).1 ≡ ok after)
    × (retain (is_active 500) before.leases ≡ front ++ (lease ∷ back))
    × (after.leases ≡ front ++ back)
    × IsSelected faithful lease.id lease
    × All (AreDistinct lease) after.leases
unfolding worktree_gc.Protection.Operations.canonical_or_fail
    worktree_gc.Protection.Lease.validate_ttl worktree_gc.Protection.Lease.validate_reason
    worktree_gc.Text.trim worktree_gc.Text.trim_start worktree_gc.Text.is_whitespace
    worktree_gc.Text.is_control worktree_gc.Protection.Lease.validate_stored_path
    worktree_gc.FilePath.is_absolute worktree_gc.FilePath.components worktree_gc.FilePath.path_eq
    worktree_gc.FilePath.path_leb worktree_gc.Protection.Registry.read_registry
    worktree_gc.Protection.Registry.check_leases worktree_gc.Protection.Registry.write_registry
    worktree_gc.Protection.Operations.lease_id worktree_gc.Text.saturating_add
    worktree_gc.Protection.Active.ttl_seconds worktree_gc.Text.saturating_mul
    worktree_gc.Protection.Lease.is_active worktree_gc.Protection.Lease.validate_lease_id
    worktree_gc.Examples.Codec.get_registry worktree_gc.Examples.Codec.get_leases
    worktree_gc.Examples.Codec.get_lease worktree_gc.Examples.Codec.get_text
    worktree_gc.Examples.Codec.get_number worktree_gc.Examples.Codec.put_registry
    worktree_gc.Examples.Codec.put_leases worktree_gc.Examples.Codec.put_lease
    worktree_gc.Examples.Codec.put_text worktree_gc.FilePath.starts_with
    worktree_gc.Protection.Guard.resolved worktree_gc.Base.sort_by
    worktree_gc.Protection.Operations.planned_removal worktree_gc.Protection.Operations.find_lease
    worktree_gc.Protection.Operations.remove_at
remove_protection_at-removes_example =
    remove_protection_at-removes faithful lease.id 500 written lease faithful-IsRoundTrip
      (unfold remove_protection_at in refl)
