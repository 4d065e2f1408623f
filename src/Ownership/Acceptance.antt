-- ===== src/Ownership/Acceptance.antt =====
-- The client accepts what the helper answers: the checks of `validate_response` pass on every answer of
-- `handle_connection` to a request about at least one root.
use worktree_gc.Base.{
  any-all, any-append, or_true, append_assoc, ℕ, ◌≡◌, refl, sym, ◌∙◌, subst, true, false, List, [],
  ◌∷◌, ◌++◌, map, some, none, any, is_nil, All, sort_by, sort_by-All, nat_beq, arith, inl, inr,
  Bool-cases, Result-cases, ◌==◌, string_eq, Result, ok, err, ensure, context, >>=-eq-ok,
  ok-injective, ensure-eq-ok, context-eq-ok,
}
use worktree_gc.FilePath.{FilePath, path_eq, path_leb, starts_with, is_absolute}
use worktree_gc.FilePath.Laws.{path_eq_sym}
use worktree_gc.FilePath.Same.{path_eq_trans, path_eq_refl}
use worktree_gc.OwnershipProtocol.Hex.{IsBytes}
use worktree_gc.OwnershipProtocol.Wire.{
  OwnershipError, OwnershipResponse, OwnershipObservation, from_path, to_path_buf, to_path_bufs,
  new_request, refusal, relative_root, unresolved_root, root_not_canonical, root_not_allowed,
}
use worktree_gc.Ownership.{RawOwnershipCapture}
use worktree_gc.Ownership.Response.{
  has_build_hash, validate_evidence, validate_complete, validate_incomplete, validate_response,
}
use worktree_gc.Ownership.Helper.{
  HelperConfig, RootHost, canonical_root, allowed_roots, validated_request_roots, complete_response,
  push_observations, privileged_response_from_capture, answer_roots, handle_connection,
}
use worktree_gc.Ownership.Requests.{
  any-validated_request_roots, validated_request_roots-ok, if-eq-some,
}
use worktree_gc.Ownership.Service.{to_path_buf-from_path}
use worktree_gc.Ownership.Acceptable.{
  IsAsked, IsAcceptable, validate_observations-ok, All-push_observations, All-dedup_paths,
  ResolvesToBytes,
}

to_path_bufs-from_path :
    (paths : List FilePath)
    → All (λ p. IsBytes p.bytes) paths
    → to_path_bufs (map from_path paths) ≡ ok paths
unfolding to_path_bufs
to_path_bufs-from_path [] h = refl
to_path_bufs-from_path (p ∷ paths) h =
    rw (to_path_buf-from_path p h.0, to_path_bufs-from_path paths h.1) refl

any-path_eq_right :
    (paths : List FilePath) (p q : FilePath)
    → path_eq p q ≡ true
    → any (λ path. path_eq path q) paths ≡ true
    → any (λ path. path_eq path p) paths ≡ true
any-path_eq_right paths p q same =
    any-all (λ path. path_eq path q) (λ path. path_eq path p) paths
      (λ path h. path_eq_trans path q p h (sym (path_eq_sym p q) ∙ same))

-- The roots that the helper answers about are those of the request.
All-allowed_roots :
    (host : RootHost) (allowed asked roots canonical : List FilePath)
    → ResolvesToBytes host
    → All (λ p. IsBytes p.bytes) roots
    → All (λ p. any (λ path. path_eq path p) asked ≡ true) roots
    → allowed_roots host allowed (map from_path roots) ≡ ok canonical
    → All (IsAsked asked) canonical
unfolding allowed_roots canonical_root
All-allowed_roots host allowed asked [] canonical resolves bytes among h =
    subst (All (IsAsked asked)) (ok-injective h) tt
All-allowed_roots host allowed asked (p ∷ roots) canonical resolves bytes among h =
    let (requested, decoded, h1) = >>=-eq-ok (to_path_buf (from_path p)) _ h in
    let (c, resolved, h2) = >>=-eq-ok (canonical_root host requested) _ h1 in
    let (_, _, h3) =
      >>=-eq-ok (ensure (any (λ allowed_root. starts_with c allowed_root) allowed) root_not_allowed)
        _ h2 in
    let (later, rest_allowed, h4) =
      >>=-eq-ok (allowed_roots host allowed (map from_path roots)) _ h3 in
    let (_, _, r1) = >>=-eq-ok (ensure (is_absolute requested) relative_root) _ resolved in
    let (c', found, r2) = >>=-eq-ok (context (host.canonicalize requested) unresolved_root) _ r1 in
    let (_, same, r3) = >>=-eq-ok (ensure (path_eq c' requested) root_not_canonical) _ r2 in
    let is_p : requested ≡ p = ok-injective (sym decoded ∙ to_path_buf-from_path p bytes.0) in
    let equal : path_eq c' requested ≡ true = ensure-eq-ok (path_eq c' requested) _ same in
    let this : IsAsked asked c' = (
      resolves requested c' (context-eq-ok (host.canonicalize requested) unresolved_root found),
      any-path_eq_right asked c' p (subst (λ q. path_eq c' q ≡ true) is_p equal) among.0,
    ) in
    subst (All (IsAsked asked)) (ok-injective h4) (
      subst (IsAsked asked) (ok-injective r3) this,
      All-allowed_roots host allowed asked roots later resolves bytes.1 among.1 rest_allowed,
    )

members :
    (paths extra : List FilePath)
    → All (λ p. any (λ path. path_eq path p) (extra ++ paths) ≡ true) paths
members [] extra = tt
members (p ∷ paths) extra = (
  any-append (λ path. path_eq path p) extra (p ∷ paths)
      ∙ rw (path_eq_refl p) (or_true (any (λ path. path_eq path p) extra)),
  subst (λ all_paths. All (λ q. any (λ path. path_eq path q) all_paths ≡ true) paths)
      (append_assoc extra (p ∷ []) paths) (members paths (extra ++ (p ∷ []))),
)

not_nil : (paths : List FilePath) → any (λ _. true) paths ≡ true → is_nil paths ≡ false
not_nil [] h = cc
not_nil (p ∷ paths) h = refl

All-validated_request_roots :
    (host : RootHost) (config : HelperConfig) (request_id : ℕ) (roots canonical : List FilePath)
    → ResolvesToBytes host
    → All (λ p. IsBytes p.bytes) roots
    → validated_request_roots host (new_request request_id roots) config ≡ ok canonical
    → All (IsAsked roots) canonical
All-validated_request_roots host config request_id roots canonical resolves bytes h =
    let (allowed, found, checked, sorted) =
      validated_request_roots-ok host config (new_request request_id roots) canonical h in
    subst (All (IsAsked roots)) sorted (
      All-dedup_paths (IsAsked roots) (sort_by path_leb found) (
        sort_by-All (IsAsked roots) path_leb found (
          All-allowed_roots host allowed roots roots found resolves bytes (members roots [])
            (unfold new_request in checked))))

refusal_accepted :
    (request_id : ℕ) (roots : List FilePath) (error : OwnershipError)
    → validate_response (new_request request_id roots) (refusal request_id error) ≡ ok tt
unfolding validate_response validate_incomplete new_request refusal
refusal_accepted request_id roots error =
    let same : nat_beq request_id request_id ≡ true = ground arith in rw same refl

complete_accepted :
    (request_id : ℕ) (root : FilePath) (roots : List FilePath) (build : List ℕ)
    (observations : List OwnershipObservation)
    → All (λ p. IsBytes p.bytes) (root ∷ roots)
    → has_build_hash (some build) ≡ true
    → All (IsAcceptable (root ∷ roots)) observations
    → validate_response
        (new_request request_id (root ∷ roots))
        (complete_response request_id build observations none)
      ≡ ok tt
unfolding validate_response validate_complete validate_evidence new_request
complete_accepted request_id root roots build observations bytes hash acceptable =
    let same : nat_beq request_id request_id ≡ true = ground arith in
    rw
      (
        same,
        hash,
        to_path_bufs-from_path (root ∷ roots) bytes,
        validate_observations-ok (root ∷ roots) observations acceptable,
      )
      refl

module _ (host : RootHost) (config : HelperConfig) (build : List ℕ) (capture : RawOwnershipCapture)
    (resolves : ResolvesToBytes host)
    (bytes : All (λ o. IsBytes o.observed_path.bytes) capture.observations)
    (hash : has_build_hash (some build) ≡ true) (request_id : ℕ) (root : FilePath)
    (roots : List FilePath) (root_bytes : All (λ p. IsBytes p.bytes) (root ∷ roots)) where
  answer_accepted :
      (canonical : List FilePath)
      → is_nil canonical ≡ false
      → All (IsAsked (root ∷ roots)) canonical
      → validate_response
          (new_request request_id (root ∷ roots))
          (answer_roots config request_id build capture (ok canonical))
        ≡ ok tt
  unfolding answer_roots privileged_response_from_capture
  answer_accepted [] some_root asked = cc
  answer_accepted (c ∷ cs) some_root asked = elim (Bool-cases capture.complete) [
    | inr e ↦ rw e (refusal_accepted request_id (root ∷ roots) _)
    | inl e ↦ elim (Bool-cases (capture.backend == "lsof_global")) [
      | inr f ↦ rw (e, f) (refusal_accepted request_id (root ∷ roots) _)
      | inl f ↦ elim (Result-cases (push_observations (c ∷ cs) [] capture.observations)) [
        | inr (error, pushed) ↦ rw (e, f, pushed) (refusal_accepted request_id (root ∷ roots) error)
        | inl (sent, pushed) ↦
            rw (e, f, pushed)
              (complete_accepted request_id root roots build sent root_bytes hash (
                All-push_observations (root ∷ roots) (c ∷ cs) capture.observations [] sent bytes
                  asked tt pushed))
      ]
    ]
  ]

  validated_accepted :
      (outcome : Result OwnershipError (List FilePath))
      → validated_request_roots host (new_request request_id (root ∷ roots)) config ≡ outcome
      → validate_response
          (new_request request_id (root ∷ roots))
          (answer_roots config request_id build capture outcome)
        ≡ ok tt
  validated_accepted (err error) validated =
      unfold answer_roots in refusal_accepted request_id (root ∷ roots) error
  validated_accepted (ok canonical) validated =
      answer_accepted canonical
        (not_nil canonical (
          any-validated_request_roots (λ _. true) host config
            (new_request request_id (root ∷ roots)) (root ∷ roots) canonical (λ _ _ _. refl)
            root_bytes (unfold new_request in refl) validated))
        (All-validated_request_roots host config request_id (root ∷ roots) canonical resolves
          root_bytes validated)

  -- When paths are bytes, also those that roots resolve to, and the hash of the helper's executable
  -- is 64 lower hexadecimal digits, then whatever the helper answers a client that asks about at
  -- least one root, a refusal included, the client accepts it as the answer to its request.
  pub handle_connection-accepted :
      (peer_uid : ℕ) (response : OwnershipResponse)
      → handle_connection host config build capture peer_uid (new_request request_id (root ∷ roots))
        ≡ some response
      → validate_response (new_request request_id (root ∷ roots)) response ≡ ok tt
  unfolding handle_connection new_request
  handle_connection-accepted peer_uid response answered =
      let request = new_request request_id (root ∷ roots) in
      subst (λ r. validate_response request r ≡ ok tt)
        (if-eq-some (nat_beq peer_uid config.allowed_uid) _ answered)
        (validated_accepted (validated_request_roots host request config) refl)
