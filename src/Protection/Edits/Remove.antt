-- ===== src/Protection/Edits/Remove.antt =====
-- `remove_protection_at` of src/protection.rs: a removal takes out one lease, and nothing else.
use worktree_gc.Base.{
  ℕ, zero, suc, ◌≡◌, refl, sym, ap, subst, ◌∙◌, List, [], ◌∷◌, ◌++◌, All, retain, ok, context,
  >>=-eq-ok, ok-injective, context-eq-ok, some, some-eq-some, get_elem?, list_eq, nat_eq,
}
use worktree_gc.Protection.Lease.{ProtectionLease, is_active, no_match}
use worktree_gc.Protection.Registry.{
  Machine, RegistryFile, ProtectionRegistry, read_registry, registry_version,
}
use worktree_gc.Protection.Registry.Validity.{
  AreDistinct, AreValid, IsRoundTrip, AreValid-retain, read_registry-AreValid,
  read_registry-written, AreDistinct-sym,
}
use worktree_gc.Protection.Operations.{find_lease, remove_at, planned_removal, remove_protection_at}
use worktree_gc.Protection.Edits.{write_and_answer-eq-ok}
use worktree_gc.Protection.Edits.Selection.{IsSelected, find_lease-eq-ok}

remove_at-split :
    (xs : List ProtectionLease) (i : ℕ) (x : ProtectionLease)
    → get_elem? xs i ≡ some x
    → (front back : List ProtectionLease) × (xs ≡ front ++ (x ∷ back))
      × (remove_at i xs ≡ front ++ back)
unfolding remove_at
remove_at-split [] i x h = cc
remove_at-split (y ∷ xs) zero x h = ([], xs, ap (λ z. z ∷ xs) (some-eq-some h), refl)
remove_at-split (y ∷ xs) (suc i) x h =
    let (front, back, e, r) = remove_at-split xs i x h in
    (y ∷ front, back, ap (◌∷◌ y) e, ap (◌∷◌ y) r)

All-without {ℓ} :
    (P : ProtectionLease → Type ℓ) (front back : List ProtectionLease) (x : ProtectionLease)
    → All P (front ++ (x ∷ back))
    → All P (front ++ back) × P x
All-without P [] back x h = (h.1, h.0)
All-without P (y ∷ front) back x h = let (r, p) = All-without P front back x h.1 in ((h.0, r), p)

-- Taking one lease out leaves valid leases, none of which shares its id or its path.
AreValid-without :
    (front back : List ProtectionLease) (x : ProtectionLease)
    → AreValid (front ++ (x ∷ back))
    → AreValid (front ++ back) × All (AreDistinct x) (front ++ back)
AreValid-without [] back x v = ((v.0.1, v.1.1), v.1.0)
AreValid-without (y ∷ front) back x v =
    let (rest, apart) = AreValid-without front back x (v.0.1, v.1.1) in
    let (others, this) = All-without (AreDistinct y) front back x v.1.0 in
    (((v.0.0, rest.0), (others, rest.1)), (AreDistinct-sym y x this, apart))

-- A removal takes out of the active leases one that the selector fits, writes the others in their
-- order to a registry that is read back, and none of these has the id or the path of the one removed.
pub remove_protection_at-removes :
    (machine : Machine) (selector : List ℕ) (now : ℕ) (file : RegistryFile)
    (lease : ProtectionLease)
    → IsRoundTrip machine
    → (remove_protection_at machine selector now file).0 ≡ ok lease
    → (before after : ProtectionRegistry) × (front back : List ProtectionLease) × (read_registry
          machine file
        ≡ ok before)
      × (read_registry machine (remove_protection_at machine selector now file).1 ≡ ok after)
      × (retain (is_active now) before.leases ≡ front ++ (lease ∷ back))
      × (after.leases ≡ front ++ back)
      × IsSelected machine selector lease
      × All (AreDistinct lease) after.leases
unfolding remove_protection_at planned_removal
remove_protection_at-removes machine selector now file lease laws h =
    let plan = planned_removal machine selector now file in
    let (after, planned, contents, encoded, written) =
      write_and_answer-eq-ok machine plan file lease h in
    let (before, readable, h1) = >>=-eq-ok (read_registry machine file) _ planned in
    let active = retain (is_active now) before.leases in
    let (index, found, h2) = >>=-eq-ok (find_lease machine active selector) _ h1 in
    let (made, got, h3) = >>=-eq-ok (context (get_elem? active index) no_match) _ h2 in
    let (old, at_index, selected) = find_lease-eq-ok machine active selector index found in
    let result : (made, record before { leases = remove_at index active }) ≡ (lease, after) =
      ok-injective h3 in
    let same : old ≡ lease =
      some-eq-some (sym at_index ∙ context-eq-ok (get_elem? active index) no_match got)
      ∙ ap (λ p. p.0) result in
    let registry : record before { leases = remove_at index active } ≡ after =
      ap (λ p. p.1) result in
    let (front, back, whole, rest) = remove_at-split active index old at_index in
    let valid = read_registry-AreValid machine file before readable in
    let (kept, apart) =
      AreValid-without front back old
        (subst AreValid whole (AreValid-retain (is_active now) before.leases valid.1)) in
    let leases : after.leases ≡ front ++ back =
      sym (ap (λ (r : ProtectionRegistry). r.leases) registry) ∙ rest in
    (
      before,
      after,
      front,
      back,
      readable,
      ap (read_registry machine) written
          ∙ read_registry-written machine after contents laws encoded
              (subst (λ (r : ProtectionRegistry). r.version ≡ registry_version) registry valid.0)
              (subst AreValid (sym leases) kept),
      whole ∙ ap (λ l. front ++ (l ∷ back)) same,
      leases,
      subst (IsSelected machine selector) same selected,
      subst (All (AreDistinct lease)) (sym leases)
          (subst (λ l. All (AreDistinct l) (front ++ back)) same apart),
    )
