-- ===== src/Ownership/Service.antt =====
-- The answer of the privileged helper: it carries the observations of its capture that lie under the
-- roots it was asked about.
use worktree_gc.Base.{
  ◌≡◌, refl, sym, ◌∙◌, ap, Bool, true, false, not, ◌&&◌, ◌||◌, List, [], ◌∷◌, map, any, is_nil, All,
  arith, ltb, length, inl, inr, Bool-cases, any-append, ok, err, ensure, context, >>=-eq-ok,
  ok-injective, ensure-eq-ok, or_assoc,
}
use worktree_gc.FilePath.{FilePath, path_eq, starts_with, has_ancestor, is_absolute}
use worktree_gc.FilePath.Same.{any-has_ancestor_member}
use worktree_gc.OwnershipProtocol.Hex.{IsBytes, decode_hex-encode_hex}
use worktree_gc.OwnershipProtocol.Wire.{
  OwnershipObservation, from_path, to_path_buf, relative_root, unresolved_root, root_not_canonical,
  root_not_allowed, too_many_observations,
}
use worktree_gc.Ownership.{RawProcessOwnershipObservation}
use worktree_gc.Ownership.Response.{dedup_paths, dedup_paths_from}
use worktree_gc.Ownership.Client.{
  helper_observation_to_raw, helper_observations_to_raw, max_matched_observations,
}
use worktree_gc.Ownership.Helper.{
  RootHost, canonical_root, allowed_roots, matching_roots, wire_kind, push_matches,
  push_observations,
}
use worktree_gc.Ownership.Matching.{RespectsPaths, is_under_any}

pub to_path_buf-from_path :
    (path : FilePath) → IsBytes path.bytes → to_path_buf (from_path path) ≡ ok path
unfolding to_path_buf from_path
to_path_buf-from_path path bytes =
    rw (to_path_buf, from_path, decode_hex-encode_hex path.bytes bytes) refl

-- A test on the observed path, of an observation as it is sent.
unfoldable pub sent_test : (FilePath → Bool) → OwnershipObservation → Bool
sent_test test o = elim (to_path_buf o.observed_path) [ ok path ↦ test path | err _ ↦ false ]

sent_test_of_ok :
    (test : FilePath → Bool) (o : OwnershipObservation) (path : FilePath)
    → to_path_buf o.observed_path ≡ ok path
    → sent_test test o ≡ test path
unfolding sent_test
sent_test_of_ok test o path h = rw (sent_test, h) refl

sent_test-helper_observation_to_raw :
    (test : FilePath → Bool) (o : OwnershipObservation) (raw : RawProcessOwnershipObservation)
    → helper_observation_to_raw o ≡ ok raw
    → sent_test test o ≡ test raw.observed_path
unfolding helper_observation_to_raw
sent_test-helper_observation_to_raw test o raw h =
    let (path, decoded, h1) = >>=-eq-ok (to_path_buf o.observed_path) _ h in
    sent_test_of_ok test o path decoded ∙ ap (λ r. test r.observed_path) (ok-injective h1)

-- The client finds among the observations what it was sent.
pub any-helper_observations_to_raw :
    (test : FilePath → Bool) (sent : List OwnershipObservation)
    (raws : List RawProcessOwnershipObservation)
    → helper_observations_to_raw sent ≡ ok raws
    → any (sent_test test) sent ≡ any (λ o. test o.observed_path) raws
unfolding helper_observations_to_raw
any-helper_observations_to_raw test [] raws h =
    ap (any (λ o. test o.observed_path)) (ok-injective h)
any-helper_observations_to_raw test (o ∷ rest) raws h =
    let (raw, read, h1) = >>=-eq-ok (helper_observation_to_raw o) _ h in
    let (later, rest_read, h2) = >>=-eq-ok (helper_observations_to_raw rest) _ h1 in
    ap (λ b. b || any (sent_test test) rest) (sent_test-helper_observation_to_raw test o raw read)
    ∙ ap (λ b. test raw.observed_path || b)
        (any-helper_observations_to_raw test rest later rest_read)
    ∙ ap (any (λ r. test r.observed_path)) (ok-injective h2)

-- The roots that match a path are none exactly when it lies under none.
is_nil-matching_roots :
    (path : FilePath) (roots : List FilePath)
    → not (is_nil (matching_roots path roots)) ≡ any (λ r. has_ancestor path r) roots
unfolding matching_roots
is_nil-matching_roots path [] = refl
is_nil-matching_roots path (r ∷ roots) = elim (Bool-cases (has_ancestor path r)) [
  | inr e ↦ rw (e, is_nil-matching_roots path roots) refl
  | inl e ↦ elim (Bool-cases (any (λ other. path_eq other r) roots)) [
    | inl later ↦
        rw
          (e, later, is_nil-matching_roots path roots, any-has_ancestor_member path r roots later e)
          refl
    | inr last ↦ rw (e, last) refl
  ]
]

sum_of :
    (pushed new rest seen : Bool)
    → new ≡ seen
    → ((pushed || (new || false)) || (rest && seen)) ≡ (pushed || (true && seen))
sum_of pushed new rest seen h = ground arith

module _ (test : FilePath → Bool) where
  -- An observation under at least one root is sent, whatever the number of its roots.
  any-push_matches :
      (o : RawProcessOwnershipObservation) (roots : List FilePath)
      (pushed sent : List OwnershipObservation)
      → IsBytes o.observed_path.bytes
      → push_matches o pushed roots ≡ ok sent
      → any (sent_test test) sent
        ≡ (any (sent_test test) pushed || (not (is_nil roots) && test o.observed_path))
  unfolding push_matches
  any-push_matches o [] pushed sent bytes h = rw (← ok-injective h) (ground arith)
  any-push_matches o (r ∷ roots) pushed sent bytes h =
      let (_, _, h1) =
        >>=-eq-ok (ensure (ltb (length pushed) max_matched_observations) too_many_observations) _
          h in
      let (kind, _, h2) = >>=-eq-ok (wire_kind o.evidence_kind) _ h1 in
      let new : OwnershipObservation = record {
        pid = o.pid;
        kind = kind;
        observed_path = from_path o.observed_path;
        matched_root = from_path r;
      } in
      let again = any-push_matches o roots _ sent bytes h2 in
      let one = any-append (sent_test test) pushed (new ∷ []) in
      let read =
        sent_test_of_ok test new o.observed_path (to_path_buf-from_path o.observed_path bytes) in
      again
      ∙ ap (λ b. b || (not (is_nil roots) && test o.observed_path)) one
      ∙ sum_of (any (sent_test test) pushed) (sent_test test new) (not (is_nil roots))
          (test o.observed_path) read

  pub any-push_observations :
      (roots : List FilePath) (observations : List RawProcessOwnershipObservation)
      (pushed sent : List OwnershipObservation)
      → All (λ o. IsBytes o.observed_path.bytes) observations
      → push_observations roots pushed observations ≡ ok sent
      → any (sent_test test) sent ≡ (
          any (sent_test test) pushed
          || any (λ o. is_under_any roots o && test o.observed_path) observations)
  unfolding push_observations
  any-push_observations roots [] pushed sent bytes h = rw (← ok-injective h) (ground arith)
  any-push_observations roots (o ∷ rest) pushed sent bytes h =
      let (more, pushed_more, h1) =
        >>=-eq-ok (push_matches o pushed (matching_roots o.observed_path roots)) _ h in
      let later = any-push_observations roots rest more sent bytes.1 h1 in
      let now =
        any-push_matches o (matching_roots o.observed_path roots) pushed more bytes.0 pushed_more in
      let here = is_nil-matching_roots o.observed_path roots in
      let tail = any (λ o'. is_under_any roots o' && test o'.observed_path) rest in
      later
      ∙ ap (λ b. b || tail) now
      ∙ ap (λ b. (any (sent_test test) pushed || (b && test o.observed_path)) || tail) here
      ∙ or_assoc (any (sent_test test) pushed) (is_under_any roots o && test o.observed_path) tail

  module _ (respects : RespectsPaths test) where
    any-dedup_paths_from :
        (last : FilePath) (paths : List FilePath)
        → (test last || any test (dedup_paths_from last paths)) ≡ (test last || any test paths)
    unfolding dedup_paths_from
    any-dedup_paths_from last [] = refl
    any-dedup_paths_from last (path ∷ rest) = elim (Bool-cases (path_eq last path)) [
      | inl e ↦
          let same = respects last path e in
          let later = any-dedup_paths_from last rest in rw e (ground arith)
      | inr e ↦ let later = any-dedup_paths_from path rest in rw e (ground arith)
    ]

    pub any-dedup_paths : (paths : List FilePath) → any test (dedup_paths paths) ≡ any test paths
    unfolding dedup_paths
    any-dedup_paths [] = refl
    any-dedup_paths (path ∷ rest) = any-dedup_paths_from path rest

    -- The roots that the helper allows are those that were asked about.
    pub any-allowed_roots :
        (host : RootHost) (allowed roots canonical : List FilePath)
        → All (λ p. IsBytes p.bytes) roots
        → allowed_roots host allowed (map from_path roots) ≡ ok canonical
        → any test canonical ≡ any test roots
    unfolding allowed_roots canonical_root
    any-allowed_roots host allowed [] canonical bytes h = rw (← ok-injective h) refl
    any-allowed_roots host allowed (p ∷ roots) canonical bytes h =
        let (requested, decoded, h1) = >>=-eq-ok (to_path_buf (from_path p)) _ h in
        let (c, resolved, h2) = >>=-eq-ok (canonical_root host requested) _ h1 in
        let (_, _, h3) =
          >>=-eq-ok
            (ensure (any (λ allowed_root. starts_with c allowed_root) allowed) root_not_allowed) _
            h2 in
        let (later, rest_allowed, h4) =
          >>=-eq-ok (allowed_roots host allowed (map from_path roots)) _ h3 in
        let (_, _, r1) = >>=-eq-ok (ensure (is_absolute requested) relative_root) _ resolved in
        let (c', _, r2) = >>=-eq-ok (context (host.canonicalize requested) unresolved_root) _ r1 in
        let (_, same, r3) = >>=-eq-ok (ensure (path_eq c' requested) root_not_canonical) _ r2 in
        let asked : requested ≡ p = ok-injective (sym decoded ∙ to_path_buf-from_path p bytes.0) in
        let equal : test c' ≡ test requested = respects c' requested (ensure-eq-ok _ _ same) in
        rw
          (
            ← ok-injective h4,
            ← ok-injective r3,
            equal,
            asked,
            any-allowed_roots host allowed roots later bytes.1 rest_allowed,
          )
          refl
