-- ===== src/Ownership/Exchange.antt =====
-- The client and the privileged helper together: a run over the batches that is complete shows what the
-- capture of the helper shows of the roots.
use worktree_gc.Base.{
  All-prefix, All-suffix, is_nil_append, false≢true, ℕ, ◌≡◌, refl, sym, ◌∙◌, ap, subst, Bool, true,
  false, ◌&&◌, ◌||◌, List, [], ◌∷◌, ◌++◌, some, none, context, any, is_nil, All, nat_beq, leb,
  length, inl, inr, Bool-cases, Result-cases, any-append, any-congr, any-or, chunks, join,
  chunks_lem, ◌==◌, string_eq, Result, ok, err, ensure, >>=-eq-ok, ok-injective, context-eq-ok,
}
use worktree_gc.FilePath.{FilePath, has_ancestor}
use worktree_gc.FilePath.Same.{has_ancestor-path_eq_right}
use worktree_gc.OwnershipProtocol.Hex.{IsBytes}
use worktree_gc.OwnershipProtocol.Wire.{
  OwnershipError, OwnershipRequest, OwnershipResponse, refusal, new_request, max_request_roots,
  too_many_roots, unreachable_helper,
}
use worktree_gc.Ownership.{RawOwnershipCapture}
use worktree_gc.Ownership.Response.{validate_response}
use worktree_gc.Ownership.Client.{
  BatchState, capture_of_run, incomplete_privileged_helper_capture, take_batches,
  capture_privileged_helper_raw_with,
}
use worktree_gc.Ownership.Helper.{
  HelperConfig, RootHost, validated_request_roots, push_observations,
  privileged_response_from_capture, answer_roots, handle_connection, capture_from_helper,
  serve_batch,
}
use worktree_gc.Ownership.Matching.{RespectsPaths, is_under_any}
use worktree_gc.Ownership.Service.{sent_test, any-helper_observations_to_raw, any-push_observations}
use worktree_gc.Ownership.Batches.{seen, shown, shown-answer, IsAnswered, any-take_batches}
use worktree_gc.Ownership.Requests.{
  complete_raw, any_element, if-eq-some, and_or, any_never, any-validated_request_roots,
}

module _ (test : FilePath → Bool) (respects : RespectsPaths test) (host : RootHost)
    (config : HelperConfig) (build : List ℕ) (lsof : RawOwnershipCapture)
    (bytes : All (λ o. IsBytes o.observed_path.bytes) lsof.observations) where
  -- What the capture shows of the paths under some roots.
  unfoldable pub shows : List FilePath → Bool
  shows roots = any (λ o. is_under_any roots o && test o.observed_path) lsof.observations

  privileged_response_shows :
      (request_id : ℕ) (roots : List FilePath)
      → (privileged_response_from_capture request_id roots lsof build).complete ≡ true
      → (any
            (sent_test test)
            (privileged_response_from_capture request_id roots lsof build).observations
          ≡ shows roots)
        × (lsof.complete ≡ true)
  unfolding privileged_response_from_capture refusal shows
  privileged_response_shows request_id roots h = elim (Bool-cases lsof.complete) [
    | inr e ↦ let k : false ≡ true = rw (← h, e) refl in cc
    | inl e ↦ elim (Bool-cases (lsof.backend == "lsof_global")) [
      | inr f ↦ let k : false ≡ true = rw (← h, e, f) refl in cc
      | inl f ↦ elim (Result-cases (push_observations roots [] lsof.observations)) [
        | inl (sent, pushed) ↦
            let found = any-push_observations test roots lsof.observations [] sent bytes pushed in
            rw (e, f, pushed) (found, refl)
        | inr (error, pushed) ↦ let k : false ≡ true = rw (← h, e, f, pushed) refl in cc
      ]
    ]
  ]

  shows_none : shows [] ≡ false
  unfolding shows
  shows_none = any_never lsof.observations

  -- An answer about roots that were allowed; without a root there is nothing to be shown.
  answer_roots-shows :
      (request_id : ℕ) (roots : Result OwnershipError (List FilePath))
      → (answer_roots config request_id build lsof roots).complete ≡ true
      → (canonical : List FilePath) × (roots ≡ ok canonical)
        × (any (sent_test test) (answer_roots config request_id build lsof roots).observations
            ≡ shows canonical)
        × (any (λ _. true) canonical ≡ true → lsof.complete ≡ true)
  unfolding answer_roots refusal
  answer_roots-shows request_id (err error) h = cc
  answer_roots-shows request_id (ok []) h = ([], refl, sym shows_none, (λ k. cc))
  answer_roots-shows request_id (ok (r ∷ roots)) h =
      let (found, whole) = privileged_response_shows request_id (r ∷ roots) h in
      (r ∷ roots, refl, found, (λ _. whole))

  handle_connection-answer :
      (uid : ℕ) (request : OwnershipRequest) (response : OwnershipResponse)
      → handle_connection host config build lsof uid request ≡ some response
      → answer_roots config request.request_id build lsof
          (validated_request_roots host request config)
        ≡ response
  unfolding handle_connection
  handle_connection-answer uid request response h = if-eq-some (nat_beq uid config.allowed_uid) _ h

  shows_congr :
      (canonical batch : List FilePath)
      → ((path : FilePath)
          → any (λ r. has_ancestor path r) canonical ≡ any (λ r. has_ancestor path r) batch)
      → shows canonical ≡ shows batch
  unfolding shows
  shows_congr canonical batch same =
      any-congr (λ o. is_under_any canonical o && test o.observed_path)
        (λ o. is_under_any batch o && test o.observed_path) lsof.observations
        (λ o. ap (λ b. b && test o.observed_path) (same o.observed_path))

  module _ (uid : ℕ) (ids : List FilePath → ℕ) where
    abbrev helper : List FilePath → Result OwnershipError OwnershipResponse
    helper = serve_batch host config build lsof uid ids

    helper-answer :
        (batch : List FilePath) (response : OwnershipResponse)
        → helper batch ≡ ok response
        → answer_roots config
            (ids batch)
            build
            lsof
            (validated_request_roots host (new_request (ids batch) batch) config)
          ≡ response
    unfolding serve_batch capture_from_helper new_request
    helper-answer batch response h =
        let request = new_request (ids batch) batch in
        let exchange = handle_connection host config build lsof uid in
        let (_, _, h1) =
          >>=-eq-ok (ensure (leb (length batch) max_request_roots) too_many_roots) _ h in
        let (r, answered, h2) = >>=-eq-ok (context (exchange request) unreachable_helper) _ h1 in
        let (_, _, h3) = >>=-eq-ok (validate_response request r) _ h2 in
        handle_connection-answer uid request response
          (context-eq-ok (exchange request) unreachable_helper answered ∙ ap some (ok-injective h3))

    -- What the answer to a batch shows is what the capture shows of its roots.
    batch_shows :
        (batch : List FilePath)
        → All (λ p. IsBytes p.bytes) batch
        → IsAnswered test respects helper batch
        → (shown test respects helper batch ≡ shows batch)
          × (is_nil batch ≡ false → lsof.complete ≡ true)
    unfolding new_request seen shows
    batch_shows batch are_bytes (response, asked, whole) =
        let (is_complete, read) = complete_raw response whole in
        let answer = helper-answer batch response asked in
        let request = new_request (ids batch) batch in
        let roots = validated_request_roots host request config in
        let (canonical, allowed, found, holds) =
          answer_roots-shows (ids batch) roots (ap (λ r. r.complete) answer ∙ is_complete) in
        let same : (t : FilePath → Bool) → RespectsPaths t → any t canonical ≡ any t batch =
          λ t resp.
            any-validated_request_roots t host config request batch canonical resp are_bytes refl
              allowed in
        (
          shown-answer test respects helper batch response asked
              ∙ sym (any-helper_observations_to_raw test response.observations _ read)
              ∙ ap (λ r. any (sent_test test) r.observations) (sym answer)
              ∙ found
              ∙ shows_congr canonical batch (λ path.
                same (λ r. has_ancestor path r) (λ p q e. has_ancestor-path_eq_right path p q e)),
          λ k. holds (same (λ _. true) (λ _ _ _. refl) ∙ any_element batch k),
        )

    shows_append :
        (batch rest : List FilePath) → shows (batch ++ rest) ≡ (shows batch || shows rest)
    unfolding shows
    shows_append batch rest =
        any-congr (λ o. is_under_any (batch ++ rest) o && test o.observed_path)
          (λ o.
            (is_under_any batch o && test o.observed_path)
            || (is_under_any rest o && test o.observed_path))
          lsof.observations
          (λ o.
            ap (λ b. b && test o.observed_path)
              (any-append (λ r. has_ancestor o.observed_path r) batch rest)
            ∙ and_or (is_under_any batch o) (is_under_any rest o) (test o.observed_path))
        ∙ any-or (λ o. is_under_any batch o && test o.observed_path)
            (λ o. is_under_any rest o && test o.observed_path) lsof.observations

    -- What the answers to all batches show is what the capture shows of all roots.
    batches_show :
        (batches : List (List FilePath))
        → All (λ p. IsBytes p.bytes) (join batches)
        → All (IsAnswered test respects helper) batches
        → (any (shown test respects helper) batches ≡ shows (join batches))
          × (is_nil (join batches) ≡ false → lsof.complete ≡ true)
    batches_show [] are_bytes answered = (sym shows_none, (λ k. cc))
    batches_show (batch ∷ rest) are_bytes answered =
        let (here, whole) =
          batch_shows batch (All-prefix _ batch (join rest) are_bytes) answered.0 in
        let (later, rest_whole) =
          batches_show rest (All-suffix _ batch (join rest) are_bytes) answered.1 in
        (
          ap (λ b. b || any (shown test respects helper) rest) here
              ∙ ap (λ b. shows batch || b) later
              ∙ sym (shows_append batch (join rest)),
          λ k. elim (is_nil_append batch (join rest) k) [ inl e ↦ whole e | inr e ↦ rest_whole e ],
        )

    -- A complete run of the client shows of the roots exactly what the capture of the helper shows, and
    -- that capture was complete.
    pub capture_shows :
        (roots : List FilePath)
        → All (λ p. IsBytes p.bytes) roots
        → (capture_privileged_helper_raw_with helper roots).complete ≡ true
        → (any
              (λ o. test o.observed_path)
              (capture_privileged_helper_raw_with helper roots).observations
            ≡ shows roots)
          × (is_nil roots ≡ false → lsof.complete ≡ true)
    unfolding capture_privileged_helper_raw_with capture_of_run incomplete_privileged_helper_capture
        seen
    capture_shows roots are_bytes h =
        let batches = chunks max_request_roots roots in
        let start : BatchState = record {
          protocol_version = none;
          helper_build_sha256 = none;
          observations = [];
        } in
        let whole : join batches ≡ roots = (chunks_lem 2_047 roots).0 in
        elim (Result-cases (take_batches helper 1 (length batches) start batches)) [
          | inr (error, run) ↦
              absurd (false≢true (ap (λ r. (capture_of_run r).complete) (sym run) ∙ h))
          | inl (state, run) ↦
              let (joined, answered) =
                any-take_batches test respects helper 1 (length batches) start state batches run in
              let (all_shown, all_whole) =
                batches_show batches (subst (All (λ p. IsBytes p.bytes)) (sym whole) are_bytes)
                  answered in
              subst
                (λ r.
                  (any (λ o. test o.observed_path) (capture_of_run r).observations ≡ shows roots)
                  × (is_nil roots ≡ false → lsof.complete ≡ true))
                (sym run)
                (joined ∙ all_shown ∙ ap shows whole, λ k. all_whole (ap is_nil whole ∙ k))
        ]
