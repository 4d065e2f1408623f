-- ===== src/Ownership/Client.antt =====
-- The capture through the privileged helper, in batches, src/lib.rs.
use worktree_gc.Base.{
  chunks, ℕ, ◌+◌, Bool, true, false, not, ◌&&◌, List, [], ◌∷◌, ◌++◌, Option, none, some, any, ltb,
  nat_beq, length, if◌then◌else◌, ◌==◌, nat_eq, string_eq, option_eq, list_eq, Result, ok, err,
  ensure, ◌>>=◌, ◌>>◌,
}
use worktree_gc.FilePath.{FilePath, path_eq}
use worktree_gc.OwnershipProtocol.Wire.{
  OwnershipError, OwnershipResponse, OwnershipObservation, OwnershipPathKind, cwd, root,
  to_path_buf, ownership_protocol_version, privileged_ownership_backend, max_request_roots,
  unexpected_backend, unknown_error, invalid_evidence, batch_failed, batch_incomplete,
  protocol_changed, executable_changed, too_many_observations,
}
use worktree_gc.Ownership.{
  ProcessOwnershipEvidenceKind, RawProcessOwnershipObservation, RawOwnershipCapture, process_cwd,
  process_root, mapped_file, open_file, kind_beq,
}

abbrev pub kind_of : OwnershipPathKind → ProcessOwnershipEvidenceKind
kind_of cwd = process_cwd
kind_of root = process_root
kind_of OwnershipPathKind.mapped_file = mapped_file
kind_of OwnershipPathKind.open_file = open_file

unfoldable pub helper_observation_to_raw :
    OwnershipObservation → Result OwnershipError RawProcessOwnershipObservation
helper_observation_to_raw observation = do
  observed ← to_path_buf observation.observed_path
  ok (record {
    pid = observation.pid;
    command = none;
    evidence_kind = kind_of observation.kind;
    observed_path = observed;
  })

unfoldable pub helper_observations_to_raw :
    List OwnershipObservation → Result OwnershipError (List RawProcessOwnershipObservation)
unfolding helper_observation_to_raw
helper_observations_to_raw [] = ok []
helper_observations_to_raw (observation ∷ rest) = do
  raw ← helper_observation_to_raw observation
  raws ← helper_observations_to_raw rest
  ok (raw ∷ raws)

unfoldable pub incomplete_privileged_helper_capture : OwnershipError → RawOwnershipCapture
incomplete_privileged_helper_capture error = record {
  backend = privileged_ownership_backend;
  protocol_version = some ownership_protocol_version;
  helper_build_sha256 = none;
  complete = false;
  error = some error;
  observations = [];
}

abbrev pub raw_response :
    OwnershipResponse → List RawProcessOwnershipObservation → RawOwnershipCapture
raw_response response observations = record {
  backend = privileged_ownership_backend;
  protocol_version = some response.protocol_version;
  helper_build_sha256 = response.helper_build_sha256;
  complete = response.complete;
  error = response.error;
  observations = observations;
}

unfoldable pub privileged_helper_response_to_raw : OwnershipResponse → RawOwnershipCapture
unfolding incomplete_privileged_helper_capture
privileged_helper_response_to_raw response =
    if not (response.backend == privileged_ownership_backend)
    then incomplete_privileged_helper_capture unexpected_backend
    else if response.complete
    then elim (helper_observations_to_raw response.observations) [
      | ok observations ↦ raw_response response observations
      | err error ↦ incomplete_privileged_helper_capture (invalid_evidence error)
    ]
    else raw_response response []

-- The variables of the loop over the batches; the observations seen are those that are kept.
pub record BatchState : Type 0 where
  pub protocol_version : Option ℕ
  pub helper_build_sha256 : Option (List ℕ)
  pub observations : List RawProcessOwnershipObservation

-- `#[derive(PartialEq)]`
unfoldable pub raw_beq : RawProcessOwnershipObservation → RawProcessOwnershipObservation → Bool
raw_beq a b =
    nat_beq a.pid b.pid
    && a.command == b.command
    && kind_beq a.evidence_kind b.evidence_kind
    && path_eq a.observed_path b.observed_path

abbrev pub max_matched_observations : ℕ
max_matched_observations = 250_000

-- The loop over the observations of a batch.
unfoldable pub add_unseen :
    List RawProcessOwnershipObservation
    → List RawProcessOwnershipObservation
    → Result OwnershipError (List RawProcessOwnershipObservation)
add_unseen kept [] = ok kept
add_unseen kept (observation ∷ rest) =
    if any (λ seen. raw_beq seen observation) kept then add_unseen kept rest else (do
      ensure (ltb (length kept) max_matched_observations) too_many_observations
      add_unseen (kept ++ (observation ∷ [])) rest)

-- Nothing was known before, or the same as now.
abbrev pub agrees_version : Option ℕ → Option ℕ → Bool
agrees_version none current = true
agrees_version (some version) current = current == some version

abbrev pub agrees_build : Option (List ℕ) → Option (List ℕ) → Bool
agrees_build none current = true
agrees_build (some build) current = current == some build

abbrev pub error_or : Option OwnershipError → OwnershipError → OwnershipError
error_or none other = other
error_or (some error) other = error

-- The part of the loop behind the answer of the helper.
unfoldable pub take_batch :
    ℕ → ℕ → BatchState → RawOwnershipCapture → Result OwnershipError BatchState
unfolding add_unseen
take_batch index count state capture = do
  ensure capture.complete (batch_incomplete index count (error_or capture.error unknown_error))
  ensure (agrees_version state.protocol_version capture.protocol_version) protocol_changed
  ensure (agrees_build state.helper_build_sha256 capture.helper_build_sha256) executable_changed
  observations ← add_unseen state.observations capture.observations
  ok (record {
    protocol_version = capture.protocol_version;
    helper_build_sha256 = capture.helper_build_sha256;
    observations = observations;
  })

-- The answer of the helper to one batch, with its number in an error.
unfoldable pub ask_batch :
    (List FilePath → Result OwnershipError OwnershipResponse)
    → ℕ
    → ℕ
    → List FilePath
    → Result OwnershipError OwnershipResponse
ask_batch capture index count batch = elim (capture batch) [
  | ok response ↦ ok response
  | err error ↦ err (batch_failed index count error)
]

unfoldable pub take_batches :
    (List FilePath → Result OwnershipError OwnershipResponse)
    → ℕ
    → ℕ
    → BatchState
    → List (List FilePath)
    → Result OwnershipError BatchState
unfolding take_batch ask_batch
take_batches capture index count state [] = ok state
take_batches capture index count state (batch ∷ rest) = do
  response ← ask_batch capture index count batch
  after ← take_batch index count state (privileged_helper_response_to_raw response)
  take_batches capture (index + 1) count after rest

-- Every way out of the loop but its end is an incomplete capture.
unfoldable pub capture_of_run : Result OwnershipError BatchState → RawOwnershipCapture
unfolding incomplete_privileged_helper_capture
capture_of_run (err error) = incomplete_privileged_helper_capture error
capture_of_run (ok state) = record {
  backend = privileged_ownership_backend;
  protocol_version = state.protocol_version;
  helper_build_sha256 = state.helper_build_sha256;
  complete = true;
  error = none;
  observations = state.observations;
}

unfoldable pub capture_privileged_helper_raw_with :
    (List FilePath → Result OwnershipError OwnershipResponse) → List FilePath → RawOwnershipCapture
unfolding take_batches capture_of_run
capture_privileged_helper_raw_with capture roots =
    let batches = chunks max_request_roots roots in
    capture_of_run (
      take_batches capture 1 (length batches)
        (record { protocol_version = none; helper_build_sha256 = none; observations = [] }) batches)
