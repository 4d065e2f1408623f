-- ===== src/Ownership/Failure.antt =====
-- How a run over the batches fails: the error names the batch.
use worktree_gc.Base.{
  chunks, ℕ, ◌+◌, ◌≡◌, refl, ◌∙◌, ap, List, [], ◌∷◌, ◌++◌, none, arith, length, nat_eq, list_eq,
  option_eq, Result, ok, err, ◌>>=◌, >>=-eq-ok,
}
use worktree_gc.FilePath.{FilePath}
use worktree_gc.OwnershipProtocol.Wire.{
  OwnershipError, OwnershipResponse, max_request_roots, batch_failed,
}
use worktree_gc.Ownership.Client.{
  BatchState, take_batch, ask_batch, take_batches, privileged_helper_response_to_raw,
  capture_privileged_helper_raw_with, capture_of_run, incomplete_privileged_helper_capture,
}

ask_batch-failed :
    (capture : List FilePath → Result OwnershipError OwnershipResponse) (index count : ℕ)
    (batch : List FilePath) (error : OwnershipError)
    → capture batch ≡ err error
    → ask_batch capture index count batch ≡ err (batch_failed index count error)
unfolding ask_batch
ask_batch-failed capture index count batch error h = rw (ask_batch, h) refl

-- The batch at which the run ends is named in the error, with its number from the first.
take_batches-failed :
    (capture : List FilePath → Result OwnershipError OwnershipResponse) (index count : ℕ)
    (state after : BatchState) (before : List (List FilePath)) (batch : List FilePath)
    (rest : List (List FilePath)) (error : OwnershipError)
    → take_batches capture index count state before ≡ ok after
    → capture batch ≡ err error
    → take_batches capture index count state (before ++ (batch ∷ rest))
      ≡ err (batch_failed (index + length before) count error)
unfolding take_batches
take_batches-failed capture index count state after [] batch rest error h failed =
    ap
      (λ m. m >>= λ r. take_batch index count state (privileged_helper_response_to_raw r) >>= λ s.
        take_batches capture (index + 1) count s rest)
      (ask_batch-failed capture index count batch error failed)
    ∙ ap (λ n. err (batch_failed n count error)) (omega arith)
take_batches-failed capture index count state after (b ∷ before) batch rest error h failed =
    let (response, asked, h1) = >>=-eq-ok (ask_batch capture index count b) _ h in
    let (next, taken, h2) =
      >>=-eq-ok (take_batch index count state (privileged_helper_response_to_raw response)) _ h1 in
    let later =
      take_batches-failed capture (index + 1) count next after before batch rest error h2 failed in
    ap
      (λ m. m >>= λ r. take_batch index count state (privileged_helper_response_to_raw r) >>= λ s.
        take_batches capture (index + 1) count s (before ++ (batch ∷ rest)))
      asked
    ∙ ap (λ m. m >>= λ s. take_batches capture (index + 1) count s (before ++ (batch ∷ rest))) taken
    ∙ later
    ∙ ap (λ n. err (batch_failed n count error)) (omega arith)

-- When the batches before it have been taken and the exchange about a batch fails, the capture is
-- incomplete, holds no observation, and its error gives the number of the batch, the number of all
-- batches and the failure.
pub capture_privileged_helper_raw_with-failed :
    (capture : List FilePath → Result OwnershipError OwnershipResponse) (roots : List FilePath)
    (before : List (List FilePath)) (batch : List FilePath) (rest : List (List FilePath))
    (after : BatchState) (error : OwnershipError)
    → chunks max_request_roots roots ≡ before ++ (batch ∷ rest)
    → take_batches capture 1
        (length (chunks max_request_roots roots))
        (record { protocol_version = none; helper_build_sha256 = none; observations = [] })
        before
      ≡ ok after
    → capture batch ≡ err error
    → capture_privileged_helper_raw_with capture roots
      ≡ incomplete_privileged_helper_capture
          (batch_failed (1 + length before) (length (chunks max_request_roots roots)) error)
unfolding capture_privileged_helper_raw_with capture_of_run
capture_privileged_helper_raw_with-failed capture roots before batch rest after error cut taken
      failed =
    let count = length (chunks max_request_roots roots) in
    let start : BatchState = record {
      protocol_version = none;
      helper_build_sha256 = none;
      observations = [];
    } in
    ap (λ batches. capture_of_run (take_batches capture 1 count start batches)) cut
    ∙ ap capture_of_run
        (take_batches-failed capture 1 count start after before batch rest error taken failed)
