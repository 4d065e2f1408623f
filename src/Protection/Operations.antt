-- ===== src/Protection/Operations.antt =====
-- `add_protection`, `renew_protection` and `remove_protection` of src/protection.rs.
use worktree_gc.Base.{
  ℕ, suc, zero, ◌+◌, ◌/◌, ◌%◌, Bool, not, List, [], ◌∷◌, ◌++◌, any, retain, sort_by, get_elem?,
  if◌then◌else◌, ltb, Result, ok, err, ensure, context, ◌>>=◌, ◌>>◌, Option, none, some, ◌==◌,
  list_eq, nat_eq, max,
}
use worktree_gc.Text.{trim, saturating_add}
use worktree_gc.FilePath.{FilePath, path_eq, path_leb}
use worktree_gc.Protection.Lease.{
  ProtectionError, ProtectionLease, is_active, validate_ttl, validate_reason, validate_stored_path,
  unresolved_path, already_protected, no_match,
}
use worktree_gc.Protection.Registry.{
  IoResult, done, Machine, RegistryFile, RegistryOp, ProtectionRegistry, read_registry,
  write_registry, with_registry_lock,
}
use worktree_gc.Protection.Active.{ttl_seconds}
use worktree_gc.Protection.Guard.{resolved}

-- `format!("p-{:016x}", hash)`: the lowest digit last.
unfoldable pub hex_digits : ℕ → ℕ → List ℕ → List ℕ
hex_digits zero n acc = acc
hex_digits (suc width) n acc =
    hex_digits width (n / 16) ((if ltb (n % 16) 10 then n % 16 + b'0' else n % 16 + 87) ∷ acc)

unfoldable pub lease_id : ℕ → List ℕ
unfolding hex_digits
lease_id hash = b'p' ∷ b'-' ∷ hex_digits 16 hash []

unfoldable pub canonical_or_fail : IoResult FilePath → Result ProtectionError FilePath
canonical_or_fail (done canonical) = ok canonical
canonical_or_fail _ = err unresolved_path

-- The new lease and the registry to write, before the file is touched.
unfoldable pub planned_addition :
    Machine
    → FilePath
    → List ℕ
    → ℕ
    → ℕ
    → RegistryFile
    → Result ProtectionError (ProtectionLease × ProtectionRegistry)
unfolding canonical_or_fail
planned_addition machine given reason ttl_days now file = do
  validate_ttl ttl_days
  validate_reason (trim reason)
  path ← canonical_or_fail (machine.canonicalize given)
  validate_stored_path path
  registry ← read_registry machine file
  let active = retain (is_active now) registry.leases
  ensure (not (any (λ lease. path_eq lease.path path) active)) already_protected
  let lease : ProtectionLease = record {
    id = lease_id (machine.lease_hash path now);
    path = path;
    reason = trim reason;
    created_at_unix = now;
    expires_at_unix = saturating_add now (ttl_seconds ttl_days);
  }
  ok (
    lease,
    record registry {
      leases = sort_by (λ left right. path_leb left.path right.path) (active ++ (lease ∷ []));
    },
  )

-- The last steps of each operation: write, and answer with the lease.
unfoldable pub write_and_answer :
    Machine
    → Result ProtectionError (ProtectionLease × ProtectionRegistry)
    → RegistryOp ProtectionLease
write_and_answer machine (err error) file = (err error, file)
write_and_answer machine (ok (lease, registry)) file =
    let (written, after) = write_registry machine registry file in (written >> ok lease, after)

unfoldable pub add_protection_at : Machine → FilePath → List ℕ → ℕ → ℕ → RegistryOp ProtectionLease
unfolding write_and_answer
add_protection_at machine path reason ttl_days now file =
    write_and_answer machine (planned_addition machine path reason ttl_days now file) file

-- `iter().position`
unfoldable pub position : (ProtectionLease → Bool) → List ProtectionLease → Option ℕ
position p [] = none
position p (lease ∷ leases) =
    if p lease then some 0 else elim (position p leases) [ none ↦ none | some i ↦ some (suc i) ]

-- By id, or by path: the selector is its bytes.
unfoldable pub find_lease : Machine → List ProtectionLease → List ℕ → Result ProtectionError ℕ
unfolding position
find_lease machine leases selector = elim (position (λ lease. lease.id == selector) leases) [
  | some index ↦ ok index
  | none ↦
      context
        (position (λ lease. path_eq lease.path (resolved machine (record { bytes = selector })))
          leases)
        no_match
]

-- `leases[index].expires_at_unix = ...`
unfoldable pub extend_at : ℕ → ℕ → List ProtectionLease → List ProtectionLease
extend_at index expiry [] = []
extend_at zero expiry (lease ∷ leases) =
    record lease { expires_at_unix = max lease.expires_at_unix expiry } ∷ leases
extend_at (suc index) expiry (lease ∷ leases) = lease ∷ extend_at index expiry leases

-- `leases.remove(index)`
unfoldable pub remove_at : ℕ → List ProtectionLease → List ProtectionLease
remove_at index [] = []
remove_at zero (lease ∷ leases) = leases
remove_at (suc index) (lease ∷ leases) = lease ∷ remove_at index leases

-- An index that `find_lease` gives is in bounds, so the error of `get_elem?` is never raised.
unfoldable pub planned_renewal :
    Machine
    → List ℕ
    → ℕ
    → ℕ
    → RegistryFile
    → Result ProtectionError (ProtectionLease × ProtectionRegistry)
planned_renewal machine selector ttl_days now file = do
  validate_ttl ttl_days
  registry ← read_registry machine file
  let active = retain (is_active now) registry.leases
  index ← find_lease machine active selector
  let renewed = extend_at index (saturating_add now (ttl_seconds ttl_days)) active
  lease ← context (get_elem? renewed index) no_match
  ok (lease, record registry { leases = renewed })

unfoldable pub renew_protection_at : Machine → List ℕ → ℕ → ℕ → RegistryOp ProtectionLease
unfolding write_and_answer
renew_protection_at machine selector ttl_days now file =
    write_and_answer machine (planned_renewal machine selector ttl_days now file) file

unfoldable pub planned_removal :
    Machine
    → List ℕ
    → ℕ
    → RegistryFile
    → Result ProtectionError (ProtectionLease × ProtectionRegistry)
planned_removal machine selector now file = do
  registry ← read_registry machine file
  let active = retain (is_active now) registry.leases
  index ← find_lease machine active selector
  lease ← context (get_elem? active index) no_match
  ok (lease, record registry { leases = remove_at index active })

unfoldable pub remove_protection_at : Machine → List ℕ → ℕ → RegistryOp ProtectionLease
unfolding write_and_answer
remove_protection_at machine selector now file =
    write_and_answer machine (planned_removal machine selector now file) file

-- The public operations, each under the lock.
pub add_protection : Machine → FilePath → List ℕ → ℕ → ℕ → RegistryOp ProtectionLease
add_protection machine path reason ttl_days now =
    with_registry_lock machine (add_protection_at machine path reason ttl_days now)

pub renew_protection : Machine → List ℕ → ℕ → ℕ → RegistryOp ProtectionLease
renew_protection machine selector ttl_days now =
    with_registry_lock machine (renew_protection_at machine selector ttl_days now)

pub remove_protection : Machine → List ℕ → ℕ → RegistryOp ProtectionLease
remove_protection machine selector now =
    with_registry_lock machine (remove_protection_at machine selector now)
