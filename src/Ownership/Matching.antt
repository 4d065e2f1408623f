-- ===== src/Ownership/Matching.antt =====
-- What the matches of a capture say of the paths that were asked about.
use worktree_gc.Base.{
  ℕ, ◌≡◌, refl, ◌∙◌, ap, Bool, true, false, not, ◌&&◌, ◌||◌, List, [], ◌∷◌, any, retain, is_nil,
  arith, nat_eq, option_eq, list_eq, inl, inr, Bool-cases, any-append, any-map, any-retain,
  any-congr, any-sort_by, any-and_const, sort_by,
}
use worktree_gc.FilePath.{FilePath, path_eq, has_ancestor, ancestor_spelling}
use worktree_gc.FilePath.Same.{has_ancestor-path_eq_right, path_eq-ancestor_spelling}
use worktree_gc.Ownership.{
  RawProcessOwnershipObservation, RawOwnershipCapture, ProcessOwnershipObservation, distinct_paths,
  matches_of, all_matches, match_beq, match_leb, dedup_from, dedup_matches, match_process_ownership,
  process_ownership_evidence_from_raw,
}
use worktree_gc.Worktree.Revalidation.{fresh_ownership_allows_removal}

-- A test that cannot tell equal paths apart.
abbrev pub RespectsPaths : (FilePath → Bool) → Type 0
RespectsPaths test = (p q : FilePath) → path_eq p q ≡ true → test p ≡ test q

-- A test finds a path in the set exactly when it finds one in the list.
any-distinct_paths :
    (test : FilePath → Bool) (paths : List FilePath)
    → RespectsPaths test
    → any test (distinct_paths paths) ≡ any test paths
unfolding distinct_paths
any-distinct_paths test [] respects = refl
any-distinct_paths test (p ∷ paths) respects = elim (Bool-cases (test p)) [
  | inl e ↦ rw e refl
  | inr e ↦
      rw
        (
          e,
          any-retain test (λ other. not (path_eq other p)) (distinct_paths paths),
          any-congr (λ q. not (path_eq q p) && test q) test (distinct_paths paths)
              (λ q. elim (Bool-cases (path_eq q p)) [
                | inl h ↦ rw (respects q p h, e, h) refl
                | inr h ↦ rw h refl
              ]),
          any-distinct_paths test paths respects,
        )
        refl
]

module _ (test : FilePath → Bool) (respects : RespectsPaths test) where
  passes : ProcessOwnershipObservation → Bool
  passes match = test match.matched_path

  any-matches_of :
      (candidates : List FilePath) (o : RawProcessOwnershipObservation)
      → any passes (matches_of candidates o)
        ≡ any (λ q. has_ancestor o.observed_path q && test q) candidates
  unfolding matches_of passes
  any-matches_of candidates o =
      any-map (λ m. test m.matched_path) _ (retain (λ q. has_ancestor o.observed_path q) candidates)
      ∙ any-congr (λ q. test (ancestor_spelling o.observed_path q)) test
          (retain (λ q. has_ancestor o.observed_path q) candidates)
          (λ q.
            respects (ancestor_spelling o.observed_path q) q
              (path_eq-ancestor_spelling o.observed_path q))
      ∙ any-retain test (λ q. has_ancestor o.observed_path q) candidates

  respects_under : (path : FilePath) → RespectsPaths (λ q. has_ancestor path q && test q)
  respects_under path p q e = rw (has_ancestor-path_eq_right path p q e, respects p q e) refl

  any-all_matches :
      (paths : List FilePath) (observations : List RawProcessOwnershipObservation)
      → any passes (all_matches (distinct_paths paths) observations)
        ≡ any (λ o. any (λ q. has_ancestor o.observed_path q && test q) paths) observations
  unfolding all_matches
  any-all_matches paths [] = refl
  any-all_matches paths (o ∷ rest) =
      rw
        (
          any-append passes (matches_of (distinct_paths paths) o)
              (all_matches (distinct_paths paths) rest),
          any-matches_of (distinct_paths paths) o,
          any-distinct_paths (λ q. has_ancestor o.observed_path q && test q) paths
              (respects_under o.observed_path),
          any-all_matches paths rest,
        )
        refl

  -- Equal matches pass the same test.
  match_beq-passes :
      (a b : ProcessOwnershipObservation) → match_beq a b ≡ true → passes a ≡ passes b
  unfolding match_beq passes
  match_beq-passes a b h = respects a.matched_path b.matched_path (ground arith)

  any-dedup_from :
      (last : ProcessOwnershipObservation) (matches : List ProcessOwnershipObservation)
      → (passes last || any passes (dedup_from last matches)) ≡ (passes last || any passes matches)
  unfolding dedup_from
  any-dedup_from last [] = refl
  any-dedup_from last (match ∷ rest) = elim (Bool-cases (match_beq last match)) [
    | inl e ↦
        let same = match_beq-passes last match e in
        let later = any-dedup_from last rest in rw e (ground arith)
    | inr e ↦ let later = any-dedup_from match rest in rw e (ground arith)
  ]

  any-dedup_matches :
      (matches : List ProcessOwnershipObservation)
      → any passes (dedup_matches matches) ≡ any passes matches
  unfolding dedup_matches
  any-dedup_matches [] = refl
  any-dedup_matches (match ∷ rest) = any-dedup_from match rest

  -- For a test that tells no two spellings of a path apart, some match passes it on its matched
  -- path exactly when something was observed under one of the paths that passes it.
  pub any-match_process_ownership :
      (paths : List FilePath) (observations : List RawProcessOwnershipObservation)
      → any (λ m. test m.matched_path) (match_process_ownership paths observations)
        ≡ any (λ o. any (λ q. has_ancestor o.observed_path q && test q) paths) observations
  unfolding match_process_ownership passes
  any-match_process_ownership paths observations =
      any-dedup_matches (sort_by match_leb (all_matches (distinct_paths paths) observations))
      ∙ any-sort_by passes match_leb (all_matches (distinct_paths paths) observations)
      ∙ any-all_matches paths observations

-- What was observed lies under a path of the list.
abbrev pub is_under_any : List FilePath → RawProcessOwnershipObservation → Bool
is_under_any paths o = any (λ q. has_ancestor o.observed_path q) paths

and_true : (b : Bool) → (b && true) ≡ b
and_true b = ground arith

or_false : (b : Bool) → (b || false) ≡ b
or_false b = ground arith

pub is_nil_iff {ℓ} : {A : Type ℓ} (xs : List A) → is_nil xs ≡ not (any (λ _. true) xs)
is_nil_iff [] = refl
is_nil_iff (x ∷ xs) = refl

-- Nothing matches exactly when nothing was observed under any of the paths.
pub is_nil-match_process_ownership :
    (paths : List FilePath) (observations : List RawProcessOwnershipObservation)
    → is_nil (match_process_ownership paths observations)
      ≡ not (any (is_under_any paths) observations)
is_nil-match_process_ownership paths observations =
    is_nil_iff (match_process_ownership paths observations)
    ∙ ap not (
        any-match_process_ownership (λ _. true) (λ _ _ _. refl) paths observations
        ∙ any-congr (λ o. any (λ q. has_ancestor o.observed_path q && true) paths)
            (is_under_any paths) observations
            (λ o. any-and_const (λ q. has_ancestor o.observed_path q) true paths ∙ and_true _))

pub observations_of_complete :
    (paths : List FilePath) (now : ℕ) (capture : RawOwnershipCapture)
    → capture.complete ≡ true
    → (process_ownership_evidence_from_raw paths now capture).observations
      ≡ match_process_ownership paths capture.observations
unfolding process_ownership_evidence_from_raw
observations_of_complete paths now capture h = rw h refl

-- Fresh ownership evidence of a path allows its removal exactly when the capture was complete and
-- observed nothing at or below the path.
pub fresh_ownership_allows_removal_iff :
    (path : FilePath) (now : ℕ) (capture : RawOwnershipCapture)
    → fresh_ownership_allows_removal (process_ownership_evidence_from_raw (path ∷ []) now capture)
      ≡ (capture.complete
          && not (any (λ o. has_ancestor o.observed_path path) capture.observations))
unfolding fresh_ownership_allows_removal process_ownership_evidence_from_raw
fresh_ownership_allows_removal_iff path now capture = elim (Bool-cases capture.complete) [
  | inl e ↦
      rw (e, is_nil-match_process_ownership (path ∷ []) capture.observations)
        (ap not (
          any-congr (is_under_any (path ∷ [])) (λ o. has_ancestor o.observed_path path)
            capture.observations (λ o. or_false _)))
  | inr e ↦ rw e refl
]
