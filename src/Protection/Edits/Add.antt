-- ===== src/Protection/Edits/Add.antt =====
-- `add_protection_at` of src/protection.rs: what it writes is readable, and guards its path.
use mathlib.Core.Bool.{false≢true}
use worktree_gc.Base.{
  ℕ, ◌+◌, ◌*◌, ◌≤◌, ◌<◌, ◌≡◌, inl, inr, sym, ap, subst, ◌∙◌, true, false, some, Option, List, [],
  ◌∷◌, ◌++◌, arith, any, All, All-map, retain, sort_by, ok, ok-injective, ◌==◌, list_eq, nat_eq,
  lt→ltb, any_none,
}
use worktree_gc.Text.{saturating_add, saturating_mul, u64_max}
use worktree_gc.FilePath.{FilePath, path_leb}
use worktree_gc.Protection.Lease.{ProtectionLease, is_active}
use worktree_gc.Protection.Registry.{
  Machine, RegistryFile, ProtectionRegistry, read_registry, registry_version,
}
use worktree_gc.Protection.Registry.Validity.{
  IsRoundTrip, read_registry-AreValid, read_registry-written, read_registry-of_written,
}
use worktree_gc.Protection.Active.{ttl_seconds}
use worktree_gc.Protection.Guard.{resolved, covers, with_protection_guards_at}
use worktree_gc.Protection.Operations.{planned_addition, add_protection_at, write_and_answer}
use worktree_gc.Protection.Safety.{guard_safe}
use worktree_gc.Protection.Edits.{write_and_answer-eq-ok}
use worktree_gc.Protection.Edits.Addition.{
  planned_addition-IsAddition, addition-AreValid, addition-expires-le, addition-covered,
}

-- The times at which an added lease stands, provided that thirty days from now fit a `u64`: it expires
-- `ttl_days` days later, never more than thirty days later, and is active when it is created.
pub add_protection_at-window :
    (machine : Machine) (given : FilePath) (reason : List ℕ) (ttl_days now : ℕ)
    (file : RegistryFile) (lease : ProtectionLease)
    → now + 30 * 86_400 ≤ u64_max
    → (add_protection_at machine given reason ttl_days now file).0 ≡ ok lease
    → (lease.expires_at_unix ≡ now + ttl_days * 86_400)
      × (lease.expires_at_unix ≤ now + 30 * 86_400)
      × (is_active now lease ≡ true)
unfolding add_protection_at is_active
add_protection_at-window machine given reason ttl_days now file lease fits h =
    let (registry, planned, _, _, _) =
      write_and_answer-eq-ok machine (planned_addition machine given reason ttl_days now file) file
        lease h in
    let a =
      planned_addition-IsAddition machine given reason ttl_days now file lease registry planned in
    let exact : lease.expires_at_unix ≡ now + ttl_days * 86_400 =
      unfold saturating_add ttl_seconds saturating_mul in
      omega (arith, a.expires, a.ttl_bounds.0, a.ttl_bounds.1) in
    (
      exact,
      addition-expires-le a,
      lt→ltb now lease.expires_at_unix (omega (arith, exact, a.ttl_bounds.0)),
    )

-- An addition writes a registry that is read back without an error, provided that no active lease has
-- the id that the hash gives: the active leases and the new one, in the order of their paths.
pub add_protection_at-readable :
    (machine : Machine) (given : FilePath) (reason : List ℕ) (ttl_days now : ℕ)
    (file : RegistryFile) (lease : ProtectionLease) (before : ProtectionRegistry)
    → IsRoundTrip machine
    → now ≤ u64_max
    → (add_protection_at machine given reason ttl_days now file).0 ≡ ok lease
    → read_registry machine file ≡ ok before
    → All (λ other. (other.id == lease.id) ≡ false) (retain (is_active now) before.leases)
    → (registry : ProtectionRegistry) × (read_registry machine
          (add_protection_at machine given reason ttl_days now file).1
        ≡ ok registry)
      × (registry.leases
          ≡ sort_by
              (λ left right. path_leb left.path right.path)
              (retain (is_active now) before.leases ++ (lease ∷ [])))
unfolding add_protection_at
add_protection_at-readable machine given reason ttl_days now file lease before laws fits h readable
      fresh =
    let (registry, planned, contents, encoded, written) =
      write_and_answer-eq-ok machine (planned_addition machine given reason ttl_days now file) file
        lease h in
    let a =
      planned_addition-IsAddition machine given reason ttl_days now file lease registry planned in
    let same : a.before ≡ before = ok-injective (sym a.readable ∙ readable) in
    let fresh' : All (λ other. (other.id == lease.id) ≡ false)
        (retain (is_active now) a.before.leases) =
      subst
        (λ (r : ProtectionRegistry).
          All (λ other. (other.id == lease.id) ≡ false) (retain (is_active now) r.leases))
        (sym same) fresh in
    let version : registry.version ≡ registry_version =
      a.version_kept ∙ (read_registry-AreValid machine file a.before a.readable).0 in
    (
      registry,
      ap (read_registry machine) written
          ∙ read_registry-written machine registry contents laws encoded version
              (addition-AreValid a fits fresh'),
      subst
          (λ (r : ProtectionRegistry).
            registry.leases
            ≡ sort_by (λ left right. path_leb left.path right.path)
                (retain (is_active now) r.leases ++ (lease ∷ [])))
          same a.added,
    )

-- From the time a lease is added until it expires, an operation that is guarded by a path which the
-- lease covers, as the path resolves then, does not run: whatever the file system has become, as long
-- as the registry file is the one that the addition wrote, and provided that the codec reads back what
-- it writes.
pub add_protection_at-blocks :
    {S T : Type 0} (machine later : Machine) (given : FilePath) (reason : List ℕ)
    (ttl_days now now' : ℕ) (file : RegistryFile) (lease : ProtectionLease) (paths : List FilePath)
    (operation : S → T × S) (s : S)
    → IsRoundTrip later
    → machine.to_vec_pretty ≡ later.to_vec_pretty
    → (add_protection_at machine given reason ttl_days now file).0 ≡ ok lease
    → now' < lease.expires_at_unix
    → any (λ path. covers (resolved later path) lease) paths ≡ true
    → (with_protection_guards_at later paths now' operation
        (add_protection_at machine given reason ttl_days now file).1
        s).2
      ≡ s
unfolding add_protection_at is_active
add_protection_at-blocks machine later given reason ttl_days now now' file lease paths operation s
      laws codec h unexpired covered =
    let plan = planned_addition machine given reason ttl_days now file in
    let (registry, planned, contents, encoded, written) =
      write_and_answer-eq-ok machine plan file lease h in
    let a =
      planned_addition-IsAddition machine given reason ttl_days now file lease registry planned in
    let file' = (write_and_answer machine plan file).1 in
    elim (guard_safe later operation paths now' file' s) [
      | inl same ↦ same
      | inr free ↦
          let same_text : later.to_vec_pretty registry ≡ some contents =
            subst (λ (f : ProtectionRegistry → Option (List ℕ)). f registry ≡ some contents) codec
              encoded in
          let found : registry ≡ free.registry =
            read_registry-of_written later registry free.registry contents laws same_text
              (ap (read_registry later) (sym written) ∙ free.readable) in
          let uncovered =
            subst
              (λ (r : ProtectionRegistry).
                All
                  (λ path.
                    All (λ l. is_active now' l ≡ true → covers (resolved later path) l ≡ false)
                      r.leases)
                  paths)
              (sym found) free.uncovered in
          let none_covers =
            any_none (λ path. covers (resolved later path) lease) paths
              (All-map paths
                (λ path k.
                  addition-covered a
                    (λ l. is_active now' l ≡ true → covers (resolved later path) l ≡ false) k
                    (lt→ltb now' lease.expires_at_unix unexpired))
                uncovered) in
          absurd (false≢true (sym none_covers ∙ covered))
    ]
