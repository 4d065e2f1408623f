-- ===== src/Protection/Safety.antt =====
-- What the guard of src/protection.rs promises to the operations that it runs, and what the edits of
-- the registry promise to the guard.
use worktree_gc.Base.{
  ℕ, ◌≤◌, ◌≡◌, ◌⊎◌, inl, inr, refl, sym, subst, ◌∙◌, Bool, true, false, List, [], arith, All,
  All-map, retain, retain_all, All-of_retain, find_map, find_map-none, max_by_key, max_by_key-some,
  max_by_key-none, Result, ok, err, ensure, >>=-eq-ok, ok-injective, Bool-cases, none, some,
  if◌then◌else◌,
}
use mathlib.Core.Option
use worktree_gc.FilePath.{FilePath}
use worktree_gc.Protection.Lease.{
  ProtectionError, ProtectionLease, ProtectionMatch, match_of, is_active, beyond_limit, lock_failed,
}
use worktree_gc.Protection.Registry.{Machine, RegistryFile, ProtectionRegistry, read_registry}
use worktree_gc.Protection.Active.{
  checked_active, persist_active, read_active_protections, read_active_protections_inner,
  inspect_leases, within_limit,
}
use worktree_gc.Protection.Guard.{
  resolved, covers, depth, covering_lease, protection_for_path, decide_guard, guard_under_lock,
  with_protection_guards_at,
}

none_retained :
    (p : ProtectionLease → Bool) (leases : List ProtectionLease)
    → retain p leases ≡ []
    → All (λ lease. p lease ≡ false) leases
none_retained p leases h =
    All-map leases
      (λ lease none_such. elim (Bool-cases (p lease)) [ inl e ↦ absurd (none_such e) | inr e ↦ e ])
      (All-of_retain (λ _. ⊥) p leases (subst (All (λ _. ⊥)) (sym h) tt))

-- A path without a match is covered by no lease.
protection_for_path-none :
    (machine : Machine) (protections : List ProtectionLease) (path : FilePath)
    → protection_for_path machine protections path ≡ none
    → All (λ lease. covers (resolved machine path) lease ≡ false) protections
unfolding protection_for_path covering_lease
protection_for_path-none machine protections path h =
    let kept = retain (covers (resolved machine path)) protections in
    let empty : max_by_key depth kept ≡ none = (Option.map-eq-none_iff match_of _).0 h in
    none_retained (covers (resolved machine path)) protections (max_by_key-none depth kept empty)

-- The match of a path is the deepest of the leases that cover it.
pub protection_for_path_deepest :
    (machine : Machine) (protections : List ProtectionLease) (path : FilePath)
    (found : ProtectionMatch)
    → protection_for_path machine protections path ≡ some found
    → (lease : ProtectionLease) × (match_of lease ≡ found)
      × (covers (resolved machine path) lease ≡ true)
      × All
          (λ other. covers (resolved machine path) other ≡ true → depth other ≤ depth lease)
          protections
unfolding protection_for_path covering_lease
protection_for_path_deepest machine protections path found h =
    let p = covers (resolved machine path) in
    let (lease, e, same) = (Option.map-eq-some_iff match_of _).0 h in
    let (covered, greatest) =
      max_by_key-some (λ l. p l ≡ true) depth (retain p protections) lease
        (retain_all p protections) e in
    (
      lease,
      same,
      covered,
      All-of_retain (λ other. depth other ≤ depth lease) p protections greatest,
    )

-- The registry is readable, and none of its active leases covers any of the paths.
pub record IsUnprotected (machine : Machine) (now : ℕ) (file : RegistryFile) (paths : List FilePath)
    : Type 0 where
  pub registry : ProtectionRegistry
  pub readable : read_registry machine file ≡ ok registry
  pub uncovered :
      All
        (λ path.
          All
            (λ lease. is_active now lease ≡ true → covers (resolved machine path) lease ≡ false)
            registry.leases)
        paths

checked_active-eq-ok :
    (machine : Machine) (now : ℕ) (file : RegistryFile)
    (found : List ProtectionLease × ProtectionRegistry)
    → checked_active machine now file ≡ ok found
    → (read_registry machine file ≡ ok found.1) × (found.0 ≡ retain (is_active now) found.1.leases)
unfolding checked_active
checked_active-eq-ok machine now file found h =
    let (registry, r, h1) = >>=-eq-ok (read_registry machine file) _ h in
    let active = retain (is_active now) registry.leases in
    let (_, _, h2) = >>=-eq-ok (ensure (within_limit now active) beyond_limit) _ h1 in
    let (_, _, h3) = >>=-eq-ok (inspect_leases machine active) _ h2 in
    let same : (retain (is_active now) registry.leases, registry) ≡ found = ok-injective h3 in
    subst
      (λ (f : List ProtectionLease × ProtectionRegistry).
        (read_registry machine file ≡ ok f.1) × (f.0 ≡ retain (is_active now) f.1.leases))
      same (r, refl)

-- What the leases that are read are, whatever is then done with the file.
pub read_active-eq-ok :
    (machine : Machine) (now : ℕ) (persist : Bool) (file : RegistryFile)
    (leases : List ProtectionLease)
    → (read_active_protections_inner machine now persist file).0 ≡ ok leases
    → (registry : ProtectionRegistry) × (read_registry machine file ≡ ok registry)
      × (leases ≡ retain (is_active now) registry.leases)
unfolding read_active_protections_inner persist_active
read_active-eq-ok machine now persist file leases h = go (checked_active machine now file) refl h
  where
    go :
        (r : Result ProtectionError (List ProtectionLease × ProtectionRegistry))
        → checked_active machine now file ≡ r
        → (elim r as (λ _. Result ProtectionError (List ProtectionLease) × RegistryFile) [
          | err error ↦ (err error, file)
          | ok found ↦ persist_active machine persist found file
        ]).0
          ≡ ok leases
        → (registry : ProtectionRegistry) × (read_registry machine file ≡ ok registry)
          × (leases ≡ retain (is_active now) registry.leases)
    go (err error) e k = cc
    go (ok (active, registry)) e k =
        let (r, a) = checked_active-eq-ok machine now file (active, registry) e in
        let same : active ≡ leases = ground arith in (registry, r, sym same ∙ a)

uncovered_all :
    (machine : Machine) (now : ℕ) (leases all_leases : List ProtectionLease) (paths : List FilePath)
    → leases ≡ retain (is_active now) all_leases
    → All (λ path. protection_for_path machine leases path ≡ none) paths
    → All
        (λ path.
          All
            (λ lease. is_active now lease ≡ true → covers (resolved machine path) lease ≡ false)
            all_leases)
        paths
uncovered_all machine now leases all_leases paths e h =
    All-map paths
      (λ path free.
        All-of_retain (λ lease. covers (resolved machine path) lease ≡ false) (is_active now)
          all_leases
          (subst (All (λ lease. covers (resolved machine path) lease ≡ false)) e
            (protection_for_path-none machine leases path free)))
      h

module _ {S T : Type 0} (machine : Machine) (operation : S → T × S) where
  decide_guard_free :
      (paths : List FilePath) (leases : List ProtectionLease) (s : S)
      → ((decide_guard machine paths operation (ok leases) s).1 ≡ s)
        ⊎ (find_map (protection_for_path machine leases) paths ≡ none)
  unfolding decide_guard
  decide_guard_free paths leases s = ground arith

  guard_under_lock_safe :
      (paths : List FilePath) (now : ℕ) (file : RegistryFile) (s : S)
      (r : Result ProtectionError (List ProtectionLease))
      → (read_active_protections_inner machine now true file).0 ≡ r
      → ((decide_guard machine paths operation r s).1 ≡ s) ⊎ IsUnprotected machine now file paths
  guard_under_lock_safe paths now file s (err error) e = inl (unfold decide_guard in refl)
  guard_under_lock_safe paths now file s (ok leases) e = elim (decide_guard_free paths leases s) [
    | inl same ↦ inl same
    | inr free ↦
        let (registry, readable, active) = read_active-eq-ok machine now true file leases e in
        inr (record {
          registry = registry;
          readable = readable;
          uncovered =
              uncovered_all machine now leases registry.leases paths active
                (find_map-none (protection_for_path machine leases) paths free);
        })
  ]

  -- The guarded operation leaves its state alone, unless the registry is readable and no active lease
  -- covers any of the paths: so on every branch, also where locking, reading or unlocking fails.
  pub guard_safe :
      (paths : List FilePath) (now : ℕ) (file : RegistryFile) (s : S)
      → ((with_protection_guards_at machine paths now operation file s).2 ≡ s)
        ⊎ IsUnprotected machine now file paths
  unfolding with_protection_guards_at guard_under_lock read_active_protections
  guard_safe paths now file s = elim (Bool-cases machine.can_lock) [
    | inr e ↦ inl (
        subst
          (λ b.
            (if b
              then guard_under_lock machine paths now operation file s
              else (err lock_failed, file, s)).2
            ≡ s)
          (sym e) refl)
    | inl e ↦
        subst
          (λ b.
            ((if b
                then guard_under_lock machine paths now operation file s
                else (err lock_failed, file, s)).2
              ≡ s)
            ⊎ IsUnprotected machine now file paths)
          (sym e)
          (guard_under_lock_safe paths now file s
            (read_active_protections_inner machine now true file).0 refl)
  ]
