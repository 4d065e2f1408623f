-- ===== src/Protection/Edits/Addition.antt =====
-- `planned_addition` of src/protection.rs: what an addition has checked when it writes.
use worktree_gc.Base.{
  ℕ, zero, suc, ◌+◌, ◌*◌, ◌/◌, ◌%◌, ◌≤◌, ◌<◌, ◌≡◌, refl, sym, ap, subst, ◌∙◌, true, false, not,
  List, [], ◌∷◌, ◌++◌, arith, any, any-false, all, All, All-zip, retain, sort_by, length, ok,
  ensure, >>=-eq-ok, ok-injective, ensure-eq-ok, not-eq-true, ◌==◌, list_eq, nat_eq, ltb,
  if◌then◌else◌, All-of_sort_by, All-last,
}
use worktree_gc.Text.{trim, saturating_add, saturating_mul, u64_max}
use worktree_gc.FilePath.{FilePath, path_eq, path_leb}
use worktree_gc.Protection.Lease.{
  ProtectionLease, is_active, is_lowercase_hex, validate_ttl, validate_reason, validate_lease_id,
  validate_stored_path, already_protected, max_protection_ttl_days,
}
use worktree_gc.Protection.Registry.{
  Machine, IoResult, RegistryFile, ProtectionRegistry, done, not_found, other_error, read_registry,
}
use worktree_gc.Protection.Registry.Validity.{
  IsWellFormed, AreValid, AreValid-retain, AreValid-sort-snoc, read_registry-AreValid,
}
use worktree_gc.Protection.Active.{ttl_seconds}
use worktree_gc.Protection.Operations.{lease_id, hex_digits, planned_addition, canonical_or_fail}

hex_digit_lem : (d : ℕ) → d < 16 → is_lowercase_hex (if ltb d 10 then d + b'0' else d + 87) ≡ true
unfolding is_lowercase_hex
hex_digit_lem d h = ground arith

hex_digits_lem :
    (width n : ℕ) (acc : List ℕ)
    → all is_lowercase_hex acc ≡ true
    → (all is_lowercase_hex (hex_digits width n acc) ≡ true)
      × (length (hex_digits width n acc) ≡ width + length acc)
unfolding hex_digits
hex_digits_lem zero n acc h = (h, omega arith)
hex_digits_lem (suc width) n acc h =
    let digit = if ltb (n % 16) 10 then n % 16 + b'0' else n % 16 + 87 in
    let (a, l) =
      hex_digits_lem width (n / 16) (digit ∷ acc) (rw (hex_digit_lem (n % 16) (omega arith)) h) in
    (a, l ∙ omega arith)

-- The id of a new lease is one that the registry accepts.
pub lease_id_valid : (hash : ℕ) → validate_lease_id (lease_id hash) ≡ ok tt
unfolding lease_id validate_lease_id
lease_id_valid hash = let (a, l) = hex_digits_lem 16 hash [] refl in rw (l, a) refl

-- What a planned addition has checked, and what it adds to what it read.
pub record IsAddition (machine : Machine) (given : FilePath) (reason : List ℕ) (ttl_days now : ℕ)
    (file : RegistryFile) (lease : ProtectionLease) (registry : ProtectionRegistry) : Type 0 where
  pub before : ProtectionRegistry
  pub readable : read_registry machine file ≡ ok before
  pub ttl_bounds : (1 ≤ ttl_days) × (ttl_days ≤ max_protection_ttl_days)
  pub canonical : machine.canonicalize given ≡ done lease.path
  pub reason_kept : lease.reason ≡ trim reason
  pub reason_valid : validate_reason lease.reason ≡ ok tt
  pub path_valid : validate_stored_path lease.path ≡ ok tt
  pub id_made : lease.id ≡ lease_id (machine.lease_hash lease.path now)
  pub created : lease.created_at_unix ≡ now
  pub expires : lease.expires_at_unix ≡ saturating_add now (ttl_seconds ttl_days)
  pub unprotected :
      All (λ other. path_eq other.path lease.path ≡ false) (retain (is_active now) before.leases)
  pub version_kept : registry.version ≡ before.version
  pub added :
      registry.leases
      ≡ sort_by
          (λ left right. path_leb left.path right.path)
          (retain (is_active now) before.leases ++ (lease ∷ []))

validate_ttl_bounds :
    (ttl_days : ℕ)
    → validate_ttl ttl_days ≡ ok tt
    → (1 ≤ ttl_days) × (ttl_days ≤ max_protection_ttl_days)
unfolding validate_ttl
validate_ttl_bounds ttl_days h = ground arith

canonical_or_fail-eq-ok :
    (answer : IoResult FilePath) (path : FilePath)
    → canonical_or_fail answer ≡ ok path
    → answer ≡ done path
unfolding canonical_or_fail
canonical_or_fail-eq-ok (done p) path h = ap done (ok-injective h)
canonical_or_fail-eq-ok not_found path h = cc
canonical_or_fail-eq-ok other_error path h = cc

pub planned_addition-IsAddition :
    (machine : Machine) (given : FilePath) (reason : List ℕ) (ttl_days now : ℕ)
    (file : RegistryFile) (lease : ProtectionLease) (registry : ProtectionRegistry)
    → planned_addition machine given reason ttl_days now file ≡ ok (lease, registry)
    → IsAddition machine given reason ttl_days now file lease registry
unfolding planned_addition
planned_addition-IsAddition machine given reason ttl_days now file lease registry h =
    let (_, t, h1) = >>=-eq-ok (validate_ttl ttl_days) _ h in
    let (_, r, h2) = >>=-eq-ok (validate_reason (trim reason)) _ h1 in
    let (path, c, h3) = >>=-eq-ok (canonical_or_fail (machine.canonicalize given)) _ h2 in
    let (_, p, h4) = >>=-eq-ok (validate_stored_path path) _ h3 in
    let (before, b, h5) = >>=-eq-ok (read_registry machine file) _ h4 in
    let active = retain (is_active now) before.leases in
    let (_, u, h6) =
      >>=-eq-ok (ensure (not (any (λ other. path_eq other.path path) active)) already_protected) _
        h5 in
    let made : ProtectionLease = record {
      id = lease_id (machine.lease_hash path now);
      path = path;
      reason = trim reason;
      created_at_unix = now;
      expires_at_unix = saturating_add now (ttl_seconds ttl_days);
    } in
    let result : ProtectionLease × ProtectionRegistry = (
      made,
      record before {
        leases = sort_by (λ left right. path_leb left.path right.path) (active ++ (made ∷ []));
      },
    ) in
    let same : result ≡ (lease, registry) = ok-injective h6 in
    subst
      (λ (x : ProtectionLease × ProtectionRegistry).
        IsAddition machine given reason ttl_days now file x.0 x.1)
      same
      (record {
        before = before;
        readable = b;
        ttl_bounds = validate_ttl_bounds ttl_days t;
        canonical = canonical_or_fail-eq-ok (machine.canonicalize given) path c;
        reason_kept = refl;
        reason_valid = r;
        path_valid = p;
        id_made = refl;
        created = refl;
        expires = refl;
        unprotected =
            any-false (λ other. path_eq other.path path) active
              (not-eq-true (any (λ other. path_eq other.path path) active) (
                ensure-eq-ok (not (any (λ other. path_eq other.path path) active)) already_protected
                  u));
        version_kept = refl;
        added = refl;
      })

module _ {machine : Machine} {given : FilePath} {reason : List ℕ} {ttl_days now : ℕ}
    {file : RegistryFile} {lease : ProtectionLease} {registry : ProtectionRegistry}
    (addition : IsAddition machine given reason ttl_days now file lease registry) where
  open addition use {before}

  abbrev active_before : List ProtectionLease
  active_before = retain (is_active now) before.leases

  addition-IsWellFormed : now ≤ u64_max → IsWellFormed lease
  unfolding saturating_add
  addition-IsWellFormed fits = record {
    id_valid = rw addition.id_made (lease_id_valid (machine.lease_hash lease.path now));
    reason_valid = addition.reason_valid;
    path_valid = addition.path_valid;
    ordered = omega (arith, addition.created, addition.expires);
  }

  pub addition-AreValid :
      now ≤ u64_max
      → All (λ other. (other.id == lease.id) ≡ false) active_before
      → AreValid registry.leases
  addition-AreValid fits fresh = subst AreValid (sym addition.added) (
      AreValid-sort-snoc (λ left right. path_leb left.path right.path) active_before lease
        (AreValid-retain (is_active now) before.leases
          (read_registry-AreValid machine file before addition.readable).1)
        (addition-IsWellFormed fits)
        (All-zip active_before (λ x i p. (i, p)) fresh addition.unprotected))

  -- A new lease is never longer than the greatest time to live.
  pub addition-expires-le : lease.expires_at_unix ≤ now + 30 * 86_400
  unfolding saturating_add ttl_seconds saturating_mul
  addition-expires-le = omega (arith, addition.expires, addition.ttl_bounds.1)

  pub addition-covered : (P : ProtectionLease → Type 0) → All P registry.leases → P lease
  addition-covered P h = All-last P active_before lease (
      All-of_sort_by P (λ left right. path_leb left.path right.path) (active_before ++ (lease ∷ []))
        (subst (All P) addition.added h))
