-- ===== src/Ownership/Refinement.antt =====
-- The way through the privileged helper refines the direct capture: the client concludes from it what
-- it would conclude from the capture that the helper has made.
use worktree_gc.Base.{
  Result, ℕ, ◌≡◌, refl, sym, ◌∙◌, ap, Bool, true, not, ◌&&◌, List, [], ◌∷◌, any, is_nil, All, arith,
  any-congr, and-eq-true,
}
use worktree_gc.FilePath.{FilePath, path_eq, has_ancestor}
use worktree_gc.FilePath.Same.{has_ancestor-path_eq_left, path_eq-path_eq_left}
use worktree_gc.OwnershipProtocol.Hex.{IsBytes}
use worktree_gc.OwnershipProtocol.Wire.{OwnershipError, OwnershipResponse}
use worktree_gc.Ownership.{
  RawOwnershipCapture, ProcessOwnershipEvidence, privileged_helper, global_lsof,
  match_process_ownership, process_ownership_evidence_from_raw,
}
use worktree_gc.Ownership.Client.{capture_privileged_helper_raw_with}
use worktree_gc.Ownership.Backend.{resolve_macos_backend, process_ownership_evidence_macos}
use worktree_gc.Ownership.Helper.{HelperConfig, RootHost, serve_batch}
use worktree_gc.Ownership.Matching.{
  RespectsPaths, is_under_any, any-match_process_ownership, is_nil_iff, observations_of_complete,
}
use worktree_gc.Ownership.Exchange.{shows, capture_shows}
use worktree_gc.Worktree.Revalidation.{fresh_ownership_allows_removal}

-- What holds of an element that passes two tests need not ask for the first again.
any-and_implied {ℓ} :
    {A : Type ℓ} (p q : A → Bool) (xs : List A)
    → (any p xs && any (λ x. p x && q x) xs) ≡ any (λ x. p x && q x) xs
any-and_implied p q [] = refl
any-and_implied p q (x ∷ xs) = let rest = any-and_implied p q xs in ground arith

module _ (host : RootHost) (config : HelperConfig) (build : List ℕ) (lsof : RawOwnershipCapture)
    (bytes : All (λ o. IsBytes o.observed_path.bytes) lsof.observations) (uid : ℕ)
    (ids : List FilePath → ℕ) (now : ℕ) (automatic : RawOwnershipCapture) where
  abbrev helper_capture : List FilePath → Result OwnershipError OwnershipResponse
  helper_capture = serve_batch host config build lsof uid ids

  -- A test on the matched paths gives the same on both ways.
  same_matches :
      (test : FilePath → Bool) (paths : List FilePath)
      → RespectsPaths test
      → All (λ p. IsBytes p.bytes) paths
      → (capture_privileged_helper_raw_with helper_capture paths).complete ≡ true
      → any
          (λ m. test m.matched_path)
          (match_process_ownership paths
            (capture_privileged_helper_raw_with helper_capture paths).observations)
        ≡ any (λ m. test m.matched_path) (match_process_ownership paths lsof.observations)
  unfolding shows
  same_matches test paths respects are_bytes whole =
      let tested : FilePath → Bool = λ p. any (λ q. has_ancestor p q && test q) paths in
      let tested_same : RespectsPaths tested = λ p q e.
        any-congr (λ r. has_ancestor p r && test r) (λ r. has_ancestor q r && test r) paths
          (λ r. ap (λ b. b && test r) (has_ancestor-path_eq_left p q r e)) in
      any-match_process_ownership test respects paths
        (capture_privileged_helper_raw_with helper_capture paths).observations
      ∙ (capture_shows tested tested_same host config build lsof bytes uid ids paths are_bytes
          whole).0
      ∙ any-congr (λ o. is_under_any paths o && tested o.observed_path)
          (λ o. tested o.observed_path) lsof.observations
          (λ o. any-and_implied (λ q. has_ancestor o.observed_path q) test paths)
      ∙ sym (any-match_process_ownership test respects paths lsof.observations)

  module _ (path : FilePath) (paths : List FilePath)
      (are_bytes : All (λ p. IsBytes p.bytes) (path ∷ paths)) where
    abbrev helper_evidence : ProcessOwnershipEvidence
    helper_evidence =
        process_ownership_evidence_macos (path ∷ paths) privileged_helper now automatic
          helper_capture lsof

    abbrev lsof_evidence : ProcessOwnershipEvidence
    lsof_evidence =
        process_ownership_evidence_macos (path ∷ paths) global_lsof now automatic helper_capture
          lsof

    evidence_same :
        (test : FilePath → Bool)
        → RespectsPaths test
        → helper_evidence.complete ≡ true
        → (any (λ m. test m.matched_path) helper_evidence.observations
            ≡ any (λ m. test m.matched_path) lsof_evidence.observations)
          × (lsof_evidence.complete ≡ true)
    unfolding process_ownership_evidence_macos resolve_macos_backend
        process_ownership_evidence_from_raw
    evidence_same test respects whole =
        let asked = path ∷ paths in
        let lsof_whole : lsof.complete ≡ true =
          (capture_shows test respects host config build lsof bytes uid ids asked are_bytes whole).1
            refl in
        (
          ap (any (λ m. test m.matched_path)) (
                observations_of_complete asked now
                  (capture_privileged_helper_raw_with helper_capture asked) whole)
              ∙ same_matches test asked respects are_bytes whole
              ∙ ap (any (λ m. test m.matched_path))
                  (sym (observations_of_complete asked now lsof lsof_whole)),
          lsof_whole,
        )

    -- When at least one path is asked about, paths are bytes, and the helper makes the same capture
    -- for each request, complete evidence through the privileged helper finds a path owned exactly
    -- when the evidence of that direct capture finds it owned, and that evidence is complete.
    pub process_ownership_evidence_macos-refines :
        (owned : FilePath)
        → (process_ownership_evidence_macos
            (path ∷ paths)
            privileged_helper
            now
            automatic
            (serve_batch host config build lsof uid ids)
            lsof).complete
          ≡ true
        → (any
              (λ m. path_eq m.matched_path owned)
              (process_ownership_evidence_macos
                (path ∷ paths)
                privileged_helper
                now
                automatic
                (serve_batch host config build lsof uid ids)
                lsof).observations
            ≡ any
                (λ m. path_eq m.matched_path owned)
                (process_ownership_evidence_macos
                  (path ∷ paths)
                  global_lsof
                  now
                  automatic
                  (serve_batch host config build lsof uid ids)
                  lsof).observations)
          × ((process_ownership_evidence_macos
                (path ∷ paths)
                global_lsof
                now
                automatic
                (serve_batch host config build lsof uid ids)
                lsof).complete
              ≡ true)
    process_ownership_evidence_macos-refines owned whole =
        evidence_same (λ q. path_eq q owned) (λ p q e. path_eq-path_eq_left p q owned e) whole

  -- A removal that fresh evidence through the helper allows is one that the direct capture, which the
  -- helper has made, allows.
  pub fresh_ownership_allows_removal-helper :
      (path : FilePath)
      → IsBytes path.bytes
      → fresh_ownership_allows_removal (
          process_ownership_evidence_macos
            (path ∷ [])
            privileged_helper
            now
            automatic
            (serve_batch host config build lsof uid ids)
            lsof)
        ≡ true
      → fresh_ownership_allows_removal (
          process_ownership_evidence_macos
            (path ∷ [])
            global_lsof
            now
            automatic
            (serve_batch host config build lsof uid ids)
            lsof)
        ≡ true
  unfolding fresh_ownership_allows_removal
  fresh_ownership_allows_removal-helper path path_bytes allowed =
      let (whole, none_owned) =
        and-eq-true (helper_evidence path [] (path_bytes, tt)).complete _ allowed in
      let (same, lsof_whole) =
        evidence_same path [] (path_bytes, tt) (λ _. true) (λ _ _ _. refl) whole in
      ap (λ b. b && is_nil (lsof_evidence path [] (path_bytes, tt)).observations) lsof_whole
      ∙ is_nil_iff (lsof_evidence path [] (path_bytes, tt)).observations
      ∙ ap not (sym same)
      ∙ sym (is_nil_iff (helper_evidence path [] (path_bytes, tt)).observations)
      ∙ none_owned
