-- ===== src/Protection/Registry.antt =====
-- The registry file of src/protection.rs: `read_registry`, `write_registry` and the lock around each
-- operation. What the operating system, `serde_json` and the hasher answer is the parameter `Machine`.
pub mod Validity
use worktree_gc.Base.{
  ℕ, ◌≡◌, Bool, true, false, not, List, [], ◌∷◌, ltb, any, ◌==◌, list_eq, nat_eq, nat_beq,
  if◌then◌else◌, Result, ok, err, ensure, context, ◌>>=◌, ◌>>◌, Option, none, some,
}
use worktree_gc.FilePath.{FilePath, Component, path_eq}
use worktree_gc.Protection.Lease.{
  ProtectionError, ProtectionLease, registry_unreadable, registry_malformed, unsupported_version,
  expires_before_created, duplicate_id, duplicate_path, write_failed, lock_failed, unlock_failed,
  validate_lease_id, validate_reason, validate_stored_path,
}

-- What a call of the file system answers.
pub data IoResult (A : Type 0) : Type 0 where
  done : A → IoResult A
  not_found other_error : IoResult A

pub record ProtectionRegistry : Type 0 where
  pub version : ℕ
  pub leases : List ProtectionLease

abbrev pub registry_version : ℕ
registry_version = 1

-- The file as `fs::read` finds it.
abbrev pub RegistryFile : Type 0
RegistryFile = IoResult (List ℕ)

pub record Machine : Type 0 where
  -- whether the path of these components is a symbolic link
  pub symlink_metadata : List Component → IoResult Bool
  pub canonicalize : FilePath → IoResult FilePath
  pub from_slice : List ℕ → Option ProtectionRegistry
  -- it fails on a path that is not text
  pub to_vec_pretty : ProtectionRegistry → Option (List ℕ)
  -- `DefaultHasher` over the path, the time and the number of this process
  pub lease_hash : FilePath → ℕ → ℕ
  pub can_write : Bool
  pub can_lock : Bool
  pub can_unlock : Bool

-- An operation on the file: its result, and the file after it.
abbrev pub RegistryOp : Type 0 → Type 0
RegistryOp A = RegistryFile → Result ProtectionError A × RegistryFile

-- The loop of `read_registry`, with the ids and the paths seen so far.
unfoldable pub check_leases :
    List (List ℕ) → List FilePath → List ProtectionLease → Result ProtectionError Unit
check_leases ids paths [] = ok tt
check_leases ids paths (lease ∷ leases) = do
  validate_lease_id lease.id
  validate_reason lease.reason
  validate_stored_path lease.path
  ensure (not (ltb lease.expires_at_unix lease.created_at_unix)) expires_before_created
  ensure (not (any (λ id. id == lease.id) ids)) duplicate_id
  ensure (not (any (λ path. path_eq path lease.path) paths)) duplicate_path
  check_leases (lease.id ∷ ids) (lease.path ∷ paths) leases

parse_registry : Machine → List ℕ → Result ProtectionError ProtectionRegistry
unfolding check_leases
parse_registry machine contents = do
  registry ← context (machine.from_slice contents) registry_malformed
  ensure (nat_beq registry.version registry_version) unsupported_version
  check_leases [] [] registry.leases
  ok registry

unfoldable pub read_registry : Machine → RegistryFile → Result ProtectionError ProtectionRegistry
unfolding parse_registry
read_registry machine (done contents) = parse_registry machine contents
read_registry machine not_found = ok (record { version = registry_version; leases = [] })
read_registry machine other_error = err registry_unreadable

-- The file is replaced whole or not at all.
unfoldable pub write_registry : Machine → ProtectionRegistry → RegistryOp Unit
write_registry machine registry file = elim (machine.to_vec_pretty registry) [
  | none ↦ (err write_failed, file)
  | some contents ↦ if machine.can_write then (ok tt, done contents) else (err write_failed, file)
]

unfoldable pub finish_registry_operation :
    {A : Type 0} → Result ProtectionError A → Bool → Result ProtectionError A
finish_registry_operation (err error) unlock = err error
finish_registry_operation (ok value) unlock = if unlock then ok value else err unlock_failed

unfoldable pub with_registry_lock : {A : Type 0} → Machine → RegistryOp A → RegistryOp A
unfolding finish_registry_operation
with_registry_lock machine operation file =
    if machine.can_lock
    then (let (result, after) = operation file in
        (finish_registry_operation result machine.can_unlock, after))
    else (err lock_failed, file)
