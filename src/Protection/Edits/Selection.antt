-- ===== src/Protection/Edits/Selection.antt =====
-- `find_lease` of src/protection.rs: the index that it gives is that of a lease which the selector fits.
use worktree_gc.Base.{
  ℕ, suc, ◌≡◌, ◌⊎◌, inl, inr, refl, Bool, true, List, [], ◌∷◌, arith, ok, some, get_elem?, ◌==◌,
  list_eq, nat_eq, Bool-cases, Option-cases,
}
use worktree_gc.FilePath.{path_eq}
use worktree_gc.Protection.Lease.{ProtectionLease}
use worktree_gc.Protection.Registry.{Machine}
use worktree_gc.Protection.Guard.{resolved}
use worktree_gc.Protection.Operations.{position, find_lease}

position-some :
    (p : ProtectionLease → Bool) (xs : List ProtectionLease) (i : ℕ)
    → position p xs ≡ some i
    → (x : ProtectionLease) × (get_elem? xs i ≡ some x) × (p x ≡ true)
unfolding position
position-some p [] i h = cc
position-some p (x ∷ xs) i h = elim (Bool-cases (p x)) [
  | inl t ↦ let z : i ≡ 0 = ground arith in (x, rw z refl, t)
  | inr f ↦ elim (Option-cases (position p xs)) [
    | inl e ↦ absurd (ground arith)
    | inr (j, e) ↦
        let z : i ≡ suc j = ground arith in let (y, g, q) = position-some p xs j e in (y, rw z g, q)
  ]
]

-- What `find_lease` found.
abbrev pub IsSelected : Machine → List ℕ → ProtectionLease → Type 0
IsSelected machine selector lease =
    ((lease.id == selector) ≡ true)
    ⊎ (path_eq lease.path (resolved machine (record { bytes = selector })) ≡ true)

pub find_lease-eq-ok :
    (machine : Machine) (leases : List ProtectionLease) (selector : List ℕ) (i : ℕ)
    → find_lease machine leases selector ≡ ok i
    → (lease : ProtectionLease) × (get_elem? leases i ≡ some lease)
      × IsSelected machine selector lease
unfolding find_lease
find_lease-eq-ok machine leases selector i h = elim (Option-cases (position by_id leases)) [
  | inr (j, e) ↦
      let z : i ≡ j = ground arith in
      let (lease, g, q) = position-some by_id leases j e in (lease, rw z g, inl q)
  | inl e ↦ elim (Option-cases (position by_path leases)) [
    | inl e' ↦ absurd (ground arith)
    | inr (j, e') ↦
        let z : i ≡ j = ground arith in
        let (lease, g, q) = position-some by_path leases j e' in (lease, rw z g, inr q)
  ]
]
  where
    by_id : ProtectionLease → Bool
    by_id lease = lease.id == selector

    by_path : ProtectionLease → Bool
    by_path lease = path_eq lease.path (resolved machine (record { bytes = selector }))
