-- ===== src/Ownership/Requests.antt =====
-- The answers and the requests that pass the checks of client and helper.
use worktree_gc.Base.{
  ◌≡◌, refl, sym, ◌∙◌, ap, subst, Bool, true, false, ◌&&◌, ◌||◌, List, [], ◌∷◌, map, some, none,
  any, is_nil, All, arith, nat_beq, leb, length, sort_by, inl, inr, Bool-cases, Result-cases,
  if◌then◌else◌, any-sort_by, ◌==◌, string_eq, ok, ensure, >>=-eq-ok, ok-injective, some-eq-some,
  none≢some,
}
use worktree_gc.FilePath.{FilePath, path_leb}
use worktree_gc.OwnershipProtocol.Hex.{IsBytes}
use worktree_gc.OwnershipProtocol.Wire.{
  OwnershipRequest, OwnershipResponse, from_path, max_request_roots, ownership_protocol_version,
  privileged_ownership_backend, too_many_roots, wrong_version,
}
use worktree_gc.Ownership.Response.{dedup_paths}
use worktree_gc.Ownership.Client.{
  helper_observations_to_raw, privileged_helper_response_to_raw,
  incomplete_privileged_helper_capture,
}
use worktree_gc.Ownership.Helper.{
  HelperConfig, RootHost, canonical_config_roots, allowed_roots, validated_request_roots,
}
use worktree_gc.Ownership.Matching.{RespectsPaths}
use worktree_gc.Ownership.Service.{any-dedup_paths, any-allowed_roots}

-- A response that the client takes as complete is complete, and its observations are all readable.
pub complete_raw :
    (response : OwnershipResponse)
    → (privileged_helper_response_to_raw response).complete ≡ true
    → (response.complete ≡ true)
      × (helper_observations_to_raw response.observations
          ≡ ok (privileged_helper_response_to_raw response).observations)
unfolding privileged_helper_response_to_raw incomplete_privileged_helper_capture
complete_raw response h = elim (Bool-cases (response.backend == privileged_ownership_backend)) [
  | inr e ↦ let k : false ≡ true = rw (← h, e) refl in cc
  | inl e ↦ elim (Bool-cases response.complete) [
    | inr f ↦ let k : false ≡ true = rw (← h, e, f) refl in cc
    | inl f ↦ elim (Result-cases (helper_observations_to_raw response.observations)) [
      | inl (raws, read) ↦ rw (e, f, read) (refl, refl)
      | inr (error, read) ↦ let k : false ≡ true = rw (← h, e, f, read) refl in cc
    ]
  ]
]

pub any_element {ℓ} : {A : Type ℓ} (xs : List A) → is_nil xs ≡ false → any (λ _. true) xs ≡ true
any_element [] h = cc
any_element (x ∷ xs) h = refl

pub if-eq-some {ℓ} :
    {A : Type ℓ} (b : Bool) (a : A) {a' : A} → (if b then some a else none) ≡ some a' → a ≡ a'
if-eq-some true a h = some-eq-some h
if-eq-some false a h = absurd (none≢some h)

pub and_or : (a b t : Bool) → ((a || b) && t) ≡ ((a && t) || (b && t))
and_or a b t = ground arith

pub any_never {ℓ} : {A : Type ℓ} (xs : List A) → any (λ _. false) xs ≡ false
any_never [] = refl
any_never (x ∷ xs) = any_never xs

-- The steps of a request that is accepted.
pub validated_request_roots-ok :
    (host : RootHost) (config : HelperConfig) (request : OwnershipRequest)
    (canonical : List FilePath)
    → validated_request_roots host request config ≡ ok canonical
    → (allowed : List FilePath) × (found : List FilePath) × (allowed_roots host allowed
          request.roots
        ≡ ok found)
      × (dedup_paths (sort_by path_leb found) ≡ canonical)
unfolding validated_request_roots
validated_request_roots-ok host config request canonical h =
    let (_, _, h1) =
      >>=-eq-ok (ensure (nat_beq request.protocol_version ownership_protocol_version) wrong_version)
        _ h in
    let (_, _, h2) =
      >>=-eq-ok (ensure (leb (length request.roots) max_request_roots) too_many_roots) _ h1 in
    let (allowed, _, h3) = >>=-eq-ok (canonical_config_roots host config) _ h2 in
    let (found, checked, h4) = >>=-eq-ok (allowed_roots host allowed request.roots) _ h3 in
    (allowed, found, checked, ok-injective h4)

-- The roots of a request that is accepted are those that were asked about.
pub any-validated_request_roots :
    (test : FilePath → Bool) (host : RootHost) (config : HelperConfig) (request : OwnershipRequest)
    (roots canonical : List FilePath)
    → RespectsPaths test
    → All (λ p. IsBytes p.bytes) roots
    → request.roots ≡ map from_path roots
    → validated_request_roots host request config ≡ ok canonical
    → any test canonical ≡ any test roots
any-validated_request_roots test host config request roots canonical respects bytes same h =
    let (allowed, found, checked, sorted) =
      validated_request_roots-ok host config request canonical h in
    ap (any test) (sym sorted)
    ∙ any-dedup_paths test respects (sort_by path_leb found)
    ∙ any-sort_by test path_leb found
    ∙ any-allowed_roots test respects host allowed roots found bytes
        (subst (λ wires. allowed_roots host allowed wires ≡ ok found) same checked)
