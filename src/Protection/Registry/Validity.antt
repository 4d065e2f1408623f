-- ===== src/Protection/Registry/Validity.antt =====
-- A registry is readable exactly when its leases are well formed and no two share an id or a path, and
-- the edits of the program keep it so.
use worktree_gc.Base.{
  ℕ, ◌≤◌, ◌≡◌, ◌↔◌, refl, sym, subst, ◌∙◌, Bool, false, List, [], ◌∷◌, ◌++◌, any, All, AllPairs,
  All-map, ◌==◌, list_eq, nat_eq, Result, ok, ensure, ensure-eq-ok, >>=-eq-ok, ok-injective,
  not-eq-true, nat_beq, ltb-false→le, le→ltb, context, context-eq-ok, some, some-eq-some,
  nat_beq_iff, or-eq-false, All-zip, retain, All-retain, AllPairs-retain, AllPairs-snoc,
  AllPairs-sort_by, sort_by, sort_by-All, All-append, ==_sym,
}
use worktree_gc.FilePath.{FilePath, path_eq}
use worktree_gc.FilePath.Laws.{path_eq_sym}
use worktree_gc.Protection.Lease.{
  ProtectionError, ProtectionLease, validate_lease_id, validate_reason, validate_stored_path,
  expires_before_created, duplicate_id, duplicate_path, unsupported_version, registry_malformed,
}
use worktree_gc.Protection.Registry.{
  Machine, ProtectionRegistry, RegistryFile, done, not_found, other_error, check_leases,
  read_registry, registry_version,
}

-- The checks on one lease.
pub record IsWellFormed (lease : ProtectionLease) : Type 0 where
  pub id_valid : validate_lease_id lease.id ≡ ok tt
  pub reason_valid : validate_reason lease.reason ≡ ok tt
  pub path_valid : validate_stored_path lease.path ≡ ok tt
  pub ordered : lease.created_at_unix ≤ lease.expires_at_unix

abbrev pub AreDistinct : ProtectionLease → ProtectionLease → Type 0
AreDistinct a b = ((a.id == b.id) ≡ false) × (path_eq a.path b.path ≡ false)

abbrev pub AreValid : List ProtectionLease → Type 0
AreValid leases = All IsWellFormed leases × AllPairs AreDistinct leases

abbrev IsUnseen : List (List ℕ) → List FilePath → ProtectionLease → Type 0
IsUnseen ids paths lease =
    (any (λ id. id == lease.id) ids ≡ false) × (any (λ path. path_eq path lease.path) paths ≡ false)

abbrev ok_unit : Result ProtectionError Unit
ok_unit = ok tt

check_leases-cons :
    (ids : List (List ℕ)) (paths : List FilePath) (lease : ProtectionLease)
    (leases : List ProtectionLease)
    → check_leases ids paths (lease ∷ leases) ≡ ok tt
    → IsWellFormed lease
      × IsUnseen ids paths lease
      × (check_leases (lease.id ∷ ids) (lease.path ∷ paths) leases ≡ ok tt)
unfolding check_leases
check_leases-cons ids paths lease leases h =
    let (_, a, h1) = >>=-eq-ok (validate_lease_id lease.id) _ h in
    let (_, b, h2) = >>=-eq-ok (validate_reason lease.reason) _ h1 in
    let (_, c, h3) = >>=-eq-ok (validate_stored_path lease.path) _ h2 in
    let (_, d, h4) = >>=-eq-ok (ensure _ expires_before_created) _ h3 in
    let (_, e, h5) = >>=-eq-ok (ensure _ duplicate_id) _ h4 in
    let (_, f, h6) = >>=-eq-ok (ensure _ duplicate_path) _ h5 in
    (
      record {
        id_valid = a;
        reason_valid = b;
        path_valid = c;
        ordered = ltb-false→le _ _ (not-eq-true _ (ensure-eq-ok _ _ d));
      },
      (not-eq-true _ (ensure-eq-ok _ _ e), not-eq-true _ (ensure-eq-ok _ _ f)),
      h6,
    )

check_leases-intro :
    (ids : List (List ℕ)) (paths : List FilePath) (lease : ProtectionLease)
    (leases : List ProtectionLease)
    → IsWellFormed lease
    → IsUnseen ids paths lease
    → check_leases (lease.id ∷ ids) (lease.path ∷ paths) leases ≡ ok tt
    → check_leases ids paths (lease ∷ leases) ≡ ok tt
unfolding check_leases
check_leases-intro ids paths lease leases w u h =
    rw
      (
        w.id_valid,
        w.reason_valid,
        w.path_valid,
        le→ltb lease.expires_at_unix lease.created_at_unix w.ordered,
        u.0,
        u.1,
      )
      h

IsUnseen-cons :
    (ids : List (List ℕ)) (paths : List FilePath) (lease other : ProtectionLease)
    → IsUnseen (lease.id ∷ ids) (lease.path ∷ paths) other
    → IsUnseen ids paths other × AreDistinct lease other
IsUnseen-cons ids paths lease other h =
    let (a, b) = or-eq-false _ _ h.0 in let (c, d) = or-eq-false _ _ h.1 in ((b, d), (a, c))

IsUnseen-intro :
    (ids : List (List ℕ)) (paths : List FilePath) (lease other : ProtectionLease)
    → IsUnseen ids paths other
    → AreDistinct lease other
    → IsUnseen (lease.id ∷ ids) (lease.path ∷ paths) other
IsUnseen-intro ids paths lease other u d = (rw (d.0, u.0), rw (d.1, u.1))

check_leases_sound :
    (ids : List (List ℕ)) (paths : List FilePath) (leases : List ProtectionLease)
    → check_leases ids paths leases ≡ ok tt
    → AreValid leases × All (IsUnseen ids paths) leases
check_leases_sound ids paths [] h = ((tt, tt), tt)
check_leases_sound ids paths (lease ∷ leases) h =
    let (w, u, rest) = check_leases-cons ids paths lease leases h in
    let (v, seen) = check_leases_sound (lease.id ∷ ids) (lease.path ∷ paths) leases rest in
    (
      ((w, v.0), (All-map leases (λ x k. (IsUnseen-cons ids paths lease x k).1) seen, v.1)),
      (u, All-map leases (λ x k. (IsUnseen-cons ids paths lease x k).0) seen),
    )

check_leases_complete :
    (ids : List (List ℕ)) (paths : List FilePath) (leases : List ProtectionLease)
    → AreValid leases
    → All (IsUnseen ids paths) leases
    → check_leases ids paths leases ≡ ok tt
check_leases_complete ids paths [] v u = unfold check_leases in refl
check_leases_complete ids paths (lease ∷ leases) v u =
    check_leases-intro ids paths lease leases v.0.0 u.0 (
      check_leases_complete (lease.id ∷ ids) (lease.path ∷ paths) leases (v.0.1, v.1.1)
        (All-zip leases (λ x k d. IsUnseen-intro ids paths lease x k d) u.1 v.1.0))

all-IsUnseen : (leases : List ProtectionLease) → All (IsUnseen [] []) leases
all-IsUnseen [] = tt
all-IsUnseen (lease ∷ leases) = ((refl, refl), all-IsUnseen leases)

-- The loop over the leases passes exactly when they are valid.
pub check_leases_iff :
    (leases : List ProtectionLease) → (check_leases [] [] leases ≡ ok tt) ↔ AreValid leases
check_leases_iff leases = (
  λ h. (check_leases_sound [] [] leases h).0,
  λ v. check_leases_complete [] [] leases v (all-IsUnseen leases),
)

-- What is written is read back.
pub record IsRoundTrip (machine : Machine) : Type 0 where
  pub from_slice-to_vec_pretty :
      (registry : ProtectionRegistry) (contents : List ℕ)
      → machine.to_vec_pretty registry ≡ some contents
      → machine.from_slice contents ≡ some registry

-- A registry that is read has the version of the program and valid leases.
pub read_registry-AreValid :
    (machine : Machine) (file : RegistryFile) (registry : ProtectionRegistry)
    → read_registry machine file ≡ ok registry
    → (registry.version ≡ registry_version) × AreValid registry.leases
unfolding read_registry
read_registry-AreValid machine (done contents) registry h =
    let (parsed, _, h1) =
      >>=-eq-ok (context (machine.from_slice contents) registry_malformed) _ h in
    let (_, v, h2) =
      >>=-eq-ok (ensure (nat_beq parsed.version registry_version) unsupported_version) _ h1 in
    let (_, c, h3) = >>=-eq-ok (check_leases [] [] parsed.leases) _ h2 in
    let same : parsed ≡ registry = ok-injective h3 in
    subst (λ r. (r.version ≡ registry_version) × AreValid r.leases) same
      ((nat_beq_iff _ _).0 (ensure-eq-ok _ _ v), (check_leases_iff parsed.leases).0 c)
read_registry-AreValid machine not_found registry h =
    let same : record { version = registry_version; leases = [] } ≡ registry = ok-injective h in
    subst (λ (r : ProtectionRegistry). (r.version ≡ registry_version) × AreValid r.leases) same
      (refl, (tt, tt))
read_registry-AreValid machine other_error registry h = cc

-- A registry with valid leases is read back from the file that it was written to.
pub read_registry-written :
    (machine : Machine) (registry : ProtectionRegistry) (contents : List ℕ)
    → IsRoundTrip machine
    → machine.to_vec_pretty registry ≡ some contents
    → registry.version ≡ registry_version
    → AreValid registry.leases
    → read_registry machine (done contents) ≡ ok registry
unfolding read_registry
read_registry-written machine registry contents laws encoded v valid = rw (
  laws.from_slice-to_vec_pretty registry contents encoded,
  v,
  (check_leases_iff registry.leases).1 valid,
)

-- Whatever was read from what was written is what was written.
pub read_registry-of_written :
    (machine : Machine) (registry found : ProtectionRegistry) (contents : List ℕ)
    → IsRoundTrip machine
    → machine.to_vec_pretty registry ≡ some contents
    → read_registry machine (done contents) ≡ ok found
    → registry ≡ found
unfolding read_registry
read_registry-of_written machine registry found contents laws encoded h =
    let slice = machine.from_slice contents in
    let (parsed, p, h1) = >>=-eq-ok (context slice registry_malformed) _ h in
    let (_, _, h2) =
      >>=-eq-ok (ensure (nat_beq parsed.version registry_version) unsupported_version) _ h1 in
    let (_, _, h3) = >>=-eq-ok (check_leases [] [] parsed.leases) _ h2 in
    let read : slice ≡ some parsed = context-eq-ok slice registry_malformed p in
    some-eq-some (sym (laws.from_slice-to_vec_pretty registry contents encoded) ∙ read)
    ∙ ok-injective h3

pub AreDistinct-sym : (a b : ProtectionLease) → AreDistinct a b → AreDistinct b a
AreDistinct-sym a b d = (==_sym b.id a.id ∙ d.0, sym (path_eq_sym a.path b.path) ∙ d.1)

-- Keeping some of the leases keeps them valid.
pub AreValid-retain :
    (p : ProtectionLease → Bool) (leases : List ProtectionLease)
    → AreValid leases
    → AreValid (retain p leases)
AreValid-retain p leases v =
    (All-retain IsWellFormed p leases v.0, AllPairs-retain AreDistinct p leases v.1)

-- So does adding a well-formed lease that shares nothing with them, in any place.
pub AreValid-sort-snoc :
    (le : ProtectionLease → ProtectionLease → Bool) (leases : List ProtectionLease)
    (lease : ProtectionLease)
    → AreValid leases
    → IsWellFormed lease
    → All (λ other. AreDistinct other lease) leases
    → AreValid (sort_by le (leases ++ (lease ∷ [])))
AreValid-sort-snoc le leases lease v w d = (
  sort_by-All IsWellFormed le _ (All-append IsWellFormed leases (lease ∷ []) v.0 (w, tt)),
  AllPairs-sort_by AreDistinct AreDistinct-sym le _ (AllPairs-snoc AreDistinct leases lease d v.1),
)
