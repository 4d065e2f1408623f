-- ===== src/Examples/Codec.antt =====
-- A codec of the registry that reads back what it writes, in the place of the JSON one.
use worktree_gc.Base.{
  ℕ, zero, suc, ◌≡◌, refl, sym, ◌∙◌, some-eq-some, ap, List, [], ◌∷◌, ◌++◌, Option, some, none,
  length, take, drop, take-length-append, drop-length-append,
}
use worktree_gc.Protection.Lease.{ProtectionLease}
use worktree_gc.Protection.Registry.{Machine, ProtectionRegistry}
use worktree_gc.Protection.Registry.Validity.{IsRoundTrip}
use worktree_gc.Examples.Fixtures.{machine}

-- A text after its length, before what follows.
unfoldable pub put_text : List ℕ → List ℕ → List ℕ
put_text text rest = length text ∷ (text ++ rest)

unfoldable pub get_text : List ℕ → List ℕ × List ℕ
get_text [] = ([], [])
get_text (n ∷ rest) = (take n rest, drop n rest)

get_text-put_text : (text rest : List ℕ) → get_text (put_text text rest) ≡ (text, rest)
unfolding put_text get_text
get_text-put_text text rest = rw (take-length-append text rest, drop-length-append text rest) refl

unfoldable pub get_number : List ℕ → ℕ × List ℕ
get_number [] = (0, [])
get_number (n ∷ rest) = (n, rest)

unfoldable pub put_lease : ProtectionLease → List ℕ → List ℕ
put_lease lease rest = put_text lease.id (
    put_text lease.path.bytes
      (put_text lease.reason (lease.created_at_unix ∷ lease.expires_at_unix ∷ rest)))

unfoldable pub get_lease : List ℕ → ProtectionLease × List ℕ
unfolding get_number
get_lease encoded =
    let (id, after_id) = get_text encoded in
    let (path, after_path) = get_text after_id in
    let (why, after_reason) = get_text after_path in
    let (created, after_created) = get_number after_reason in
    let (expires, rest) = get_number after_created in
    (
      record {
        id = id;
        path = record { bytes = path };
        reason = why;
        created_at_unix = created;
        expires_at_unix = expires;
      },
      rest,
    )

get_lease-put_lease :
    (lease : ProtectionLease) (rest : List ℕ) → get_lease (put_lease lease rest) ≡ (lease, rest)
unfolding get_lease put_lease get_number
get_lease-put_lease lease rest =
    let times = lease.created_at_unix ∷ lease.expires_at_unix ∷ rest in
    rw
      (
        get_text-put_text lease.id (put_text lease.path.bytes (put_text lease.reason times)),
        get_text-put_text lease.path.bytes (put_text lease.reason times),
        get_text-put_text lease.reason times,
      )
      refl

unfoldable pub put_leases : List ProtectionLease → List ℕ
put_leases [] = []
put_leases (lease ∷ leases) = put_lease lease (put_leases leases)

unfoldable pub get_leases : ℕ → List ℕ → List ProtectionLease
get_leases zero encoded = []
get_leases (suc n) encoded = let (lease, rest) = get_lease encoded in lease ∷ get_leases n rest

get_leases-put_leases :
    (leases : List ProtectionLease) → get_leases (length leases) (put_leases leases) ≡ leases
unfolding get_leases put_leases
get_leases-put_leases [] = refl
get_leases-put_leases (lease ∷ leases) =
    rw (get_lease-put_lease lease (put_leases leases))
      (ap (◌∷◌ lease) (get_leases-put_leases leases))

unfoldable pub put_registry : ProtectionRegistry → List ℕ
put_registry registry = registry.version ∷ length registry.leases ∷ put_leases registry.leases

unfoldable pub get_registry : List ℕ → Option ProtectionRegistry
get_registry [] = none
get_registry (version ∷ []) = none
get_registry (version ∷ count ∷ encoded) =
    some (record { version = version; leases = get_leases count encoded })

abbrev pub faithful : Machine
faithful = record machine {
  from_slice = get_registry;
  to_vec_pretty = λ registry. some (put_registry registry);
}

pub faithful-IsRoundTrip : IsRoundTrip faithful
unfolding get_registry put_registry
faithful-IsRoundTrip = record {
  from_slice-to_vec_pretty = λ registry contents encoded.
      ap get_registry (sym (some-eq-some encoded))
      ∙ rw (get_leases-put_leases registry.leases) refl;
}
