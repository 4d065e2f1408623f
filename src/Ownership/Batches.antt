-- ===== src/Ownership/Batches.antt =====
-- The batches of the client: a capture that is complete has joined
-- the observations of all of them.
use worktree_gc.Base.{
  ℕ, ◌+◌, ◌≡◌, refl, sym, ◌∙◌, ap, subst, Bool, true, false, ◌||◌, List, [], ◌∷◌, ◌++◌, any, All,
  arith, ltb, length, inl, inr, Bool-cases, if◌then◌else◌, any-append, or_assoc, nat_eq, list_eq,
  option_eq, Result, ok, err, ensure, ◌>>◌, >>=-eq-ok, ok-injective, ensure-eq-ok, Result-cases,
  or-eq-true,
}
use worktree_gc.FilePath.{FilePath}
use worktree_gc.OwnershipProtocol.Wire.{
  OwnershipError, OwnershipResponse, too_many_observations, batch_incomplete, unknown_error,
  protocol_changed, executable_changed, batch_failed,
}
use worktree_gc.Ownership.{RawProcessOwnershipObservation, RawOwnershipCapture}
use worktree_gc.Ownership.Client.{
  raw_beq, add_unseen, max_matched_observations, BatchState, take_batch, ask_batch, take_batches,
  privileged_helper_response_to_raw, agrees_version, agrees_build, error_or,
}
use worktree_gc.Ownership.Matching.{RespectsPaths}

or_none : (b : Bool) → b ≡ (b || false)
or_none b = ground arith

or_snoc : (a b c : Bool) → ((a || (b || false)) || c) ≡ (a || (b || c))
or_snoc a b c = ground arith

module _ (test : FilePath → Bool) (respects : RespectsPaths test) where
  unfoldable pub seen : RawProcessOwnershipObservation → Bool
  seen o = test o.observed_path

  raw_beq-seen : (a b : RawProcessOwnershipObservation) → raw_beq a b ≡ true → seen a ≡ seen b
  unfolding raw_beq seen
  raw_beq-seen a b h = respects a.observed_path b.observed_path (ground arith)

  -- What is dropped as seen before does not change what the list shows.
  any-seen_before :
      (o : RawProcessOwnershipObservation) (kept : List RawProcessOwnershipObservation)
      → any (λ k. raw_beq k o) kept ≡ true
      → any seen kept ≡ (any seen kept || seen o)
  any-seen_before o (k ∷ kept) h =
      elim (or-eq-true (raw_beq k o) (any (λ k'. raw_beq k' o) kept) h) [
        | inl e ↦ let same = raw_beq-seen k o e in ground arith
        | inr e ↦ let later = any-seen_before o kept e in ground arith
      ]
  any-seen_before o [] h = cc

  any-add_unseen :
      (kept observations all_kept : List RawProcessOwnershipObservation)
      → add_unseen kept observations ≡ ok all_kept
      → any seen all_kept ≡ (any seen kept || any seen observations)
  unfolding add_unseen
  any-add_unseen kept [] all_kept h = ap (any seen) (sym (ok-injective h)) ∙ or_none (any seen kept)
  any-add_unseen kept (o ∷ rest) all_kept h = elim (Bool-cases (any (λ k. raw_beq k o) kept)) [
    | inl e ↦
        let next : add_unseen kept rest ≡ ok all_kept =
          subst
            (λ b.
              (if b then add_unseen kept rest else (do
                ensure (ltb (length kept) max_matched_observations) too_many_observations
                add_unseen (kept ++ (o ∷ [])) rest))
              ≡ ok all_kept)
            e h in
        let later = any-add_unseen kept rest all_kept next in
        let same = any-seen_before o kept e in ground arith
    | inr e ↦
        let next : (do
          ensure (ltb (length kept) max_matched_observations) too_many_observations
          add_unseen (kept ++ (o ∷ [])) rest)
            ≡ ok all_kept =
          subst
            (λ b.
              (if b then add_unseen kept rest else (do
                ensure (ltb (length kept) max_matched_observations) too_many_observations
                add_unseen (kept ++ (o ∷ [])) rest))
              ≡ ok all_kept)
            e h in
        let (_, _, h1) =
          >>=-eq-ok (ensure (ltb (length kept) max_matched_observations) too_many_observations) _
            next in
        any-add_unseen (kept ++ (o ∷ [])) rest all_kept h1
        ∙ ap (λ b. b || any seen rest) (any-append seen kept (o ∷ []))
        ∙ or_snoc (any seen kept) (seen o) (any seen rest)
  ]

  -- What the answer to a batch shows.
  unfoldable pub shown :
      (List FilePath → Result OwnershipError OwnershipResponse) → List FilePath → Bool
  shown capture batch = elim (capture batch) [
    | ok response ↦ any seen (privileged_helper_response_to_raw response).observations
    | err _ ↦ false
  ]

  any-take_batch :
      (index count : ℕ) (state after : BatchState) (capture : RawOwnershipCapture)
      → take_batch index count state capture ≡ ok after
      → (any seen after.observations
          ≡ (any seen state.observations || any seen capture.observations))
        × (capture.complete ≡ true)
  unfolding take_batch
  any-take_batch index count state after capture h =
      let (_, whole, h1) =
        >>=-eq-ok
          (ensure capture.complete
            (batch_incomplete index count (error_or capture.error unknown_error)))
          _ h in
      let (_, _, h2) =
        >>=-eq-ok
          (ensure (agrees_version state.protocol_version capture.protocol_version) protocol_changed)
          _ h1 in
      let (_, _, h3) =
        >>=-eq-ok
          (ensure (agrees_build state.helper_build_sha256 capture.helper_build_sha256)
            executable_changed)
          _ h2 in
      let (kept, added, h4) = >>=-eq-ok (add_unseen state.observations capture.observations) _ h3 in
      (
        ap (λ s. any seen s.observations) (sym (ok-injective h4))
            ∙ any-add_unseen state.observations capture.observations kept added,
        ensure-eq-ok capture.complete _ whole,
      )

  -- The batch was answered with a response that the client takes as complete.
  abbrev pub IsAnswered :
      (List FilePath → Result OwnershipError OwnershipResponse) → List FilePath → Type 0
  IsAnswered capture batch =
      (response : OwnershipResponse) × (capture batch ≡ ok response)
      × ((privileged_helper_response_to_raw response).complete ≡ true)

  ask_batch-ok :
      (capture : List FilePath → Result OwnershipError OwnershipResponse) (index count : ℕ)
      (batch : List FilePath) (response : OwnershipResponse)
      → ask_batch capture index count batch ≡ ok response
      → capture batch ≡ ok response
  unfolding ask_batch
  ask_batch-ok capture index count batch response h = elim (Result-cases (capture batch)) [
    | inl (r, e) ↦
        e
        ∙ subst
            (λ m.
              elim m as (λ _. Result OwnershipError OwnershipResponse) [
                | ok r' ↦ ok r'
                | err error ↦ err (batch_failed index count error)
              ]
              ≡ ok response)
            e h
    | inr (error, e) ↦
        let k : ◌≡◌ {A = Result OwnershipError OwnershipResponse}
            (err (batch_failed index count error)) (ok response) =
          subst
            (λ m.
              elim m as (λ _. Result OwnershipError OwnershipResponse) [
                | ok r' ↦ ok r'
                | err error ↦ err (batch_failed index count error)
              ]
              ≡ ok response)
            e h in
        cc
  ]

  pub shown-answer :
      (capture : List FilePath → Result OwnershipError OwnershipResponse) (batch : List FilePath)
      (response : OwnershipResponse)
      → capture batch ≡ ok response
      → shown capture batch ≡ any seen (privileged_helper_response_to_raw response).observations
  unfolding shown
  shown-answer capture batch response h = rw (shown, h) refl

  -- A run over the batches that succeeds has an answer to each of them, and shows what they show.
  pub any-take_batches :
      (capture : List FilePath → Result OwnershipError OwnershipResponse) (index count : ℕ)
      (state after : BatchState) (batches : List (List FilePath))
      → take_batches capture index count state batches ≡ ok after
      → (any seen after.observations ≡ (any seen state.observations || any (shown capture) batches))
        × All (IsAnswered capture) batches
  unfolding take_batches
  any-take_batches capture index count state after [] h =
      (ap (λ s. any seen s.observations) (sym (ok-injective h)) ∙ or_none _, tt)
  any-take_batches capture index count state after (batch ∷ rest) h =
      let (response, asked, h1) = >>=-eq-ok (ask_batch capture index count batch) _ h in
      let raw = privileged_helper_response_to_raw response in
      let (next, taken, h2) = >>=-eq-ok (take_batch index count state raw) _ h1 in
      let (later, answers) = any-take_batches capture (index + 1) count next after rest h2 in
      let (now, whole) = any-take_batch index count state next raw taken in
      let answer = ask_batch-ok capture index count batch response asked in
      let this : shown capture batch ≡ any seen raw.observations =
        shown-answer capture batch response answer in
      (
        later
            ∙ ap (λ b. b || any (shown capture) rest) now
            ∙ or_assoc (any seen state.observations) (any seen raw.observations)
                (any (shown capture) rest)
            ∙ ap (λ b. any seen state.observations || (b || any (shown capture) rest)) (sym this),
        ((response, answer, whole), answers),
      )
