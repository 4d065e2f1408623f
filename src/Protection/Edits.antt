-- ===== src/Protection/Edits.antt =====
-- What `add_protection`, `renew_protection` and `remove_protection` of src/protection.rs do to the
-- registry, and what that means to a guard that runs later.
pub mod Add
pub mod Addition
pub mod Selection
pub mod Renew
pub mod Remove
use worktree_gc.Base.{
  ℕ, Option-cases, ◌≡◌, ◌⊎◌, inl, inr, refl, sym, subst, Bool, true, false, List, ok, err, Result,
  Bool-cases, arith, some, if◌then◌else◌, ◌>>◌, ok-injective,
}
use worktree_gc.Protection.Lease.{ProtectionError, ProtectionLease, write_failed}
use worktree_gc.Protection.Registry.{
  Machine, RegistryFile, ProtectionRegistry, done, write_registry,
}
use worktree_gc.Protection.Operations.{write_and_answer}

abbrev pub Plan : Type 0
Plan = Result ProtectionError (ProtectionLease × ProtectionRegistry)

-- An edit that answers has written what it planned.
pub write_and_answer-eq-ok :
    (machine : Machine) (planned : Plan) (file : RegistryFile) (lease : ProtectionLease)
    → (write_and_answer machine planned file).0 ≡ ok lease
    → (registry : ProtectionRegistry) × (planned ≡ ok (lease, registry))
      × (contents : List ℕ) × (machine.to_vec_pretty registry ≡ some contents)
      × ((write_and_answer machine planned file).1 ≡ done contents)
unfolding write_and_answer write_registry
write_and_answer-eq-ok machine (err error) file lease h = cc
write_and_answer-eq-ok machine (ok (made, registry)) file lease h =
    elim (Option-cases (machine.to_vec_pretty registry)) [
      | inl e ↦ absurd (ground (arith, e))
      | inr (contents, e) ↦ (registry, ground (arith, e), contents, e, ground (arith, e))
    ]

-- An edit that fails leaves the file as it was.
pub write_and_answer-eq-err :
    (machine : Machine) (planned : Plan) (file : RegistryFile) (error : ProtectionError)
    → (write_and_answer machine planned file).0 ≡ err error
    → (write_and_answer machine planned file).1 ≡ file
unfolding write_and_answer write_registry
write_and_answer-eq-err machine (err e) file error h = refl
write_and_answer-eq-err machine (ok (made, registry)) file error h =
    elim (Option-cases (machine.to_vec_pretty registry)) [
      | inl e ↦ ground (arith, e)
      | inr (contents, e) ↦ ground (arith, e)
    ]
