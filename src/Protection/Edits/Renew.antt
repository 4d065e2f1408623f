-- ===== src/Protection/Edits/Renew.antt =====
-- `renew_protection_at` of src/protection.rs: a renewal shortens nothing and changes nothing else.
use worktree_gc.Base.{
  ℕ, zero, suc, ◌≤◌, ◌≡◌, refl, sym, ap, subst, ◌∙◌, List, [], ◌∷◌, arith, All, All-map, retain, ok,
  context, >>=-eq-ok, ok-injective, context-eq-ok, some, some-eq-some, get_elem?, list_eq, nat_eq,
  max,
}
use worktree_gc.Text.{saturating_add}
use worktree_gc.Protection.Lease.{ProtectionLease, is_active, validate_ttl, no_match}
use worktree_gc.Protection.Registry.{
  Machine, RegistryFile, ProtectionRegistry, read_registry, registry_version,
}
use worktree_gc.Protection.Registry.Validity.{
  AreDistinct, AreValid, IsRoundTrip, AreValid-retain, read_registry-AreValid,
  read_registry-written,
}
use worktree_gc.Protection.Active.{ttl_seconds}
use worktree_gc.Protection.Operations.{find_lease, extend_at, planned_renewal, renew_protection_at}
use worktree_gc.Protection.Edits.{write_and_answer-eq-ok}
use worktree_gc.Protection.Edits.Selection.{IsSelected, find_lease-eq-ok}

-- The second list holds the leases of the first, in their order, none of them expiring earlier.
abbrev pub IsExtension : List ProtectionLease → List ProtectionLease → Type 0
IsExtension [] [] = Unit
IsExtension (x ∷ xs) (y ∷ ys) =
    ((y.id ≡ x.id)
      × (y.path ≡ x.path)
      × (y.reason ≡ x.reason)
      × (y.created_at_unix ≡ x.created_at_unix)
      × (x.expires_at_unix ≤ y.expires_at_unix))
    × IsExtension xs ys
IsExtension [] (y ∷ ys) = ⊥
IsExtension (x ∷ xs) [] = ⊥

IsExtension-refl : (xs : List ProtectionLease) → IsExtension xs xs
IsExtension-refl [] = tt
IsExtension-refl (x ∷ xs) = ((refl, refl, refl, refl, omega arith), IsExtension-refl xs)

extend_at-IsExtension :
    (index expiry : ℕ) (xs : List ProtectionLease) → IsExtension xs (extend_at index expiry xs)
unfolding extend_at
extend_at-IsExtension index expiry [] = tt
extend_at-IsExtension zero expiry (x ∷ xs) =
    ((refl, refl, refl, refl, omega arith), IsExtension-refl xs)
extend_at-IsExtension (suc index) expiry (x ∷ xs) =
    ((refl, refl, refl, refl, omega arith), extend_at-IsExtension index expiry xs)

extended_all :
    (x : ProtectionLease) (xs ys : List ProtectionLease)
    → IsExtension xs ys
    → All (AreDistinct x) xs
    → All (AreDistinct x) ys
extended_all x [] [] e h = tt
extended_all x (a ∷ xs) (b ∷ ys) e h = (rw (e.0.0, e.0.1) h.0, extended_all x xs ys e.1 h.1)
extended_all x [] (b ∷ ys) e h = absurd e
extended_all x (a ∷ xs) [] e h = absurd e

AreValid-IsExtension :
    (xs ys : List ProtectionLease) → IsExtension xs ys → AreValid xs → AreValid ys
AreValid-IsExtension [] [] e v = v
AreValid-IsExtension (x ∷ xs) (y ∷ ys) e v =
    let (wf, distinct) = AreValid-IsExtension xs ys e.1 (v.0.1, v.1.1) in
    let w = v.0.0 in
    let (id, path, reason, created, longer) = e.0 in
    (
      (
        record {
          id_valid = rw id w.id_valid;
          reason_valid = rw reason w.reason_valid;
          path_valid = rw path w.path_valid;
          ordered = omega (arith, created, longer, w.ordered);
        },
        wf,
      ),
      (All-map ys (λ z d. rw (id, path) d) (extended_all x xs ys e.1 v.1.0), distinct),
    )
AreValid-IsExtension [] (y ∷ ys) e v = absurd e
AreValid-IsExtension (x ∷ xs) [] e v = absurd e

get_elem?-extend_at :
    (xs : List ProtectionLease) (i expiry : ℕ) (x : ProtectionLease)
    → get_elem? xs i ≡ some x
    → get_elem? (extend_at i expiry xs) i
      ≡ some (record x { expires_at_unix = max x.expires_at_unix expiry })
unfolding extend_at
get_elem?-extend_at [] i expiry x h = cc
get_elem?-extend_at (y ∷ xs) zero expiry x h = rw (some-eq-some h)
get_elem?-extend_at (y ∷ xs) (suc i) expiry x h = get_elem?-extend_at xs i expiry x h

-- A renewal writes a registry that is read back: the leases that were active, in their order, none of
-- them shorter than before and none changed otherwise. The answer is one of the leases written, in the
-- place of an active one that the selector fits, and it lasts as long as that one did, or for the new
-- time to live from now if that is longer.
pub renew_protection_at-extends :
    (machine : Machine) (selector : List ℕ) (ttl_days now : ℕ) (file : RegistryFile)
    (lease : ProtectionLease)
    → IsRoundTrip machine
    → (renew_protection_at machine selector ttl_days now file).0 ≡ ok lease
    → (before after : ProtectionRegistry) × (old : ProtectionLease) × (index : ℕ) × (read_registry
          machine file
        ≡ ok before)
      × (read_registry machine (renew_protection_at machine selector ttl_days now file).1
          ≡ ok after)
      × IsExtension (retain (is_active now) before.leases) after.leases
      × (get_elem? (retain (is_active now) before.leases) index ≡ some old)
      × IsSelected machine selector old
      × (lease ≡ record old {
        expires_at_unix = max old.expires_at_unix (saturating_add now (ttl_seconds ttl_days));
      })
      × (get_elem? after.leases index ≡ some lease)
unfolding renew_protection_at planned_renewal
renew_protection_at-extends machine selector ttl_days now file lease laws h =
    let plan = planned_renewal machine selector ttl_days now file in
    let (after, planned, contents, encoded, written) =
      write_and_answer-eq-ok machine plan file lease h in
    let expiry = saturating_add now (ttl_seconds ttl_days) in
    let (_, _, h1) = >>=-eq-ok (validate_ttl ttl_days) _ planned in
    let (before, readable, h2) = >>=-eq-ok (read_registry machine file) _ h1 in
    let active = retain (is_active now) before.leases in
    let (index, found, h3) = >>=-eq-ok (find_lease machine active selector) _ h2 in
    let (made, got, h4) =
      >>=-eq-ok (context (get_elem? (extend_at index expiry active) index) no_match) _ h3 in
    let (old, at_index, selected) = find_lease-eq-ok machine active selector index found in
    let result : (made, record before { leases = extend_at index expiry active }) ≡ (lease, after) =
      ok-injective h4 in
    let same : lease ≡ record old { expires_at_unix = max old.expires_at_unix expiry } =
      sym (ap (λ p. p.0) result)
      ∙ some-eq-some (
          sym (context-eq-ok (get_elem? (extend_at index expiry active) index) no_match got)
          ∙ get_elem?-extend_at active index expiry old at_index) in
    let registry : record before { leases = extend_at index expiry active } ≡ after =
      ap (λ p. p.1) result in
    let valid = read_registry-AreValid machine file before readable in
    let extension = extend_at-IsExtension index expiry active in
    (
      before,
      after,
      old,
      index,
      readable,
      ap (read_registry machine) written
          ∙ read_registry-written machine after contents laws encoded
              (subst (λ (r : ProtectionRegistry). r.version ≡ registry_version) registry valid.0)
              (subst (λ (r : ProtectionRegistry). AreValid r.leases) registry
                (AreValid-IsExtension active (extend_at index expiry active) extension
                  (AreValid-retain (is_active now) before.leases valid.1))),
      subst (λ (r : ProtectionRegistry). IsExtension active r.leases) registry extension,
      at_index,
      selected,
      same,
      subst (λ (r : ProtectionRegistry). get_elem? r.leases index ≡ some lease) registry
          (subst (λ l. get_elem? (extend_at index expiry active) index ≡ some l) (sym same)
            (get_elem?-extend_at active index expiry old at_index)),
    )
