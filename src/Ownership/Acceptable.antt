-- ===== src/Ownership/Acceptable.antt =====
-- The observations that the helper sends are such as the client demands.
use worktree_gc.Base.{
  ◌≡◌, refl, sym, subst, true, not, ◌&&◌, List, [], ◌∷◌, some, any, All, All-append, ltb, length,
  arith, inl, inr, Bool-cases, if◌then◌else◌, string_eq, ok, ensure, >>=-eq-ok, ok-injective,
}
use worktree_gc.FilePath.{FilePath, path_eq, starts_with, has_ancestor}
use worktree_gc.FilePath.Same.{has_ancestor-starts_with}
use worktree_gc.OwnershipProtocol.Hex.{IsBytes}
use worktree_gc.OwnershipProtocol.Wire.{OwnershipObservation, to_path_buf, too_many_observations}
use worktree_gc.Ownership.{RawProcessOwnershipObservation}
use worktree_gc.Ownership.Response.{dedup_paths, dedup_paths_from, validate_observations}
use worktree_gc.Ownership.Client.{max_matched_observations}
use worktree_gc.Ownership.Helper.{
  RootHost, matching_roots, wire_kind, push_matches, push_observations,
}
use worktree_gc.Ownership.Service.{to_path_buf-from_path}

-- The paths that a host resolves to are bytes.
abbrev pub ResolvesToBytes : RootHost → Type 0
ResolvesToBytes host =
    (path canonical : FilePath) → host.canonicalize path ≡ some canonical → IsBytes canonical.bytes

module _ (asked : List FilePath) where
  -- A root as the helper may answer about it.
  abbrev pub IsAsked : FilePath → Type 0
  IsAsked r = IsBytes r.bytes × (any (λ path. path_eq path r) asked ≡ true)

  -- An observation as the client demands it.
  abbrev pub IsAcceptable : OwnershipObservation → Type 0
  IsAcceptable o =
      (matched : FilePath) × (observed : FilePath) × (to_path_buf o.matched_root ≡ ok matched)
      × (to_path_buf o.observed_path ≡ ok observed)
      × (any (λ path. path_eq path matched) asked ≡ true)
      × (starts_with observed matched ≡ true)

  pub validate_observations-ok :
      (observations : List OwnershipObservation)
      → All IsAcceptable observations
      → validate_observations asked observations ≡ ok tt
  unfolding validate_observations
  validate_observations-ok [] h = refl
  validate_observations-ok (o ∷ rest) h =
      let (matched, observed, m, p, requested, under) = h.0 in
      rw (m, p, requested, under) (validate_observations-ok rest h.1)

  All-matching_roots :
      (path : FilePath) (roots : List FilePath)
      → All IsAsked roots
      → All (λ r. IsAsked r × (has_ancestor path r ≡ true)) (matching_roots path roots)
  unfolding matching_roots
  All-matching_roots path [] h = tt
  All-matching_roots path (r ∷ roots) h =
      elim (Bool-cases (has_ancestor path r && not (any (λ other. path_eq other r) roots))) [
        | inl e ↦
            subst
              (λ b.
                All (λ r'. IsAsked r' × (has_ancestor path r' ≡ true))
                  (if b then r ∷ matching_roots path roots else matching_roots path roots))
              (sym e) ((h.0, ground arith), All-matching_roots path roots h.1)
        | inr e ↦
            subst
              (λ b.
                All (λ r'. IsAsked r' × (has_ancestor path r' ≡ true))
                  (if b then r ∷ matching_roots path roots else matching_roots path roots))
              (sym e) (All-matching_roots path roots h.1)
      ]

  All-push_matches :
      (o : RawProcessOwnershipObservation) (roots : List FilePath)
      (pushed sent : List OwnershipObservation)
      → IsBytes o.observed_path.bytes
      → All (λ r. IsAsked r × (has_ancestor o.observed_path r ≡ true)) roots
      → All IsAcceptable pushed
      → push_matches o pushed roots ≡ ok sent
      → All IsAcceptable sent
  unfolding push_matches
  All-push_matches o [] pushed sent bytes h k e = subst (All IsAcceptable) (ok-injective e) k
  All-push_matches o (r ∷ roots) pushed sent bytes h k e =
      let (_, _, e1) =
        >>=-eq-ok (ensure (ltb (length pushed) max_matched_observations) too_many_observations) _
          e in
      let (kind, _, e2) = >>=-eq-ok (wire_kind o.evidence_kind) _ e1 in
      All-push_matches o roots _ sent bytes h.1
        (All-append IsAcceptable pushed _ k (
          (
            r,
            o.observed_path,
            to_path_buf-from_path r h.0.0.0,
            to_path_buf-from_path o.observed_path bytes,
            h.0.0.1,
            has_ancestor-starts_with o.observed_path r h.0.1,
          ),
          tt,
        ))
        e2

  pub All-push_observations :
      (roots : List FilePath) (observations : List RawProcessOwnershipObservation)
      (pushed sent : List OwnershipObservation)
      → All (λ o. IsBytes o.observed_path.bytes) observations
      → All IsAsked roots
      → All IsAcceptable pushed
      → push_observations roots pushed observations ≡ ok sent
      → All IsAcceptable sent
  unfolding push_observations
  All-push_observations roots [] pushed sent bytes h k e =
      subst (All IsAcceptable) (ok-injective e) k
  All-push_observations roots (o ∷ rest) pushed sent bytes h k e =
      let (more, now, e1) =
        >>=-eq-ok (push_matches o pushed (matching_roots o.observed_path roots)) _ e in
      All-push_observations roots rest more sent bytes.1 h
        (All-push_matches o (matching_roots o.observed_path roots) pushed more bytes.0
          (All-matching_roots o.observed_path roots h) k now)
        e1

All-dedup_paths_from {κ} :
    (P : FilePath → Type κ) (last : FilePath) (paths : List FilePath)
    → All P paths
    → All P (dedup_paths_from last paths)
unfolding dedup_paths_from
All-dedup_paths_from P last [] h = tt
All-dedup_paths_from P last (path ∷ paths) h = elim (Bool-cases (path_eq last path)) [
  | inl e ↦ rw e (All-dedup_paths_from P last paths h.1)
  | inr e ↦ rw e (h.0, All-dedup_paths_from P path paths h.1)
]

pub All-dedup_paths {κ} :
    (P : FilePath → Type κ) (paths : List FilePath) → All P paths → All P (dedup_paths paths)
unfolding dedup_paths
All-dedup_paths P [] h = tt
All-dedup_paths P (path ∷ paths) h = (h.0, All-dedup_paths_from P path paths h.1)
