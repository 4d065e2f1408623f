-- ===== src/Ownership/Helper.antt =====
-- The privileged helper of src/ownership_helper.rs: the roots it lets a client ask about, and its answer.
-- `canonicalize` and `is_dir` are what the file system answers.
use worktree_gc.Base.{
  is_nil, ℕ, Bool, true, not, ◌&&◌, List, [], ◌∷◌, ◌++◌, Option, none, some, any, leb, ltb, nat_beq,
  length, if◌then◌else◌, ◌==◌, nat_eq, string_eq, sort_by, Result, ok, err, ensure, context, ◌>>=◌,
  ◌>>◌,
}
use worktree_gc.FilePath.{FilePath, path_eq, path_leb, starts_with, has_ancestor, is_absolute}
use worktree_gc.OwnershipProtocol.Wire.{
  OwnershipError, OwnershipRequest, OwnershipResponse, OwnershipObservation,
  OwnershipServiceMetadata, OwnershipPathKind, WirePath, from_path, to_path_buf, new_request,
  refusal, ownership_protocol_version, privileged_ownership_backend, max_request_roots, cwd, root,
  wrong_version, too_many_roots, relative_root, unresolved_root, root_not_canonical,
  root_not_directory, root_not_allowed, bad_config, capture_incomplete, unknown_error,
  unexpected_backend, too_many_observations, test_only_evidence, unreachable_helper,
}
use worktree_gc.Ownership.{
  ProcessOwnershipEvidenceKind, RawProcessOwnershipObservation, RawOwnershipCapture, process_cwd,
  process_root, mapped_file, open_file, lsof_path, test_override,
}
use worktree_gc.Ownership.Response.{dedup_paths, validate_response}
use worktree_gc.Ownership.Client.{error_or, max_matched_observations}

pub record HelperConfig : Type 0 where
  pub config_version : ℕ
  pub allowed_uid : ℕ
  pub allowed_gid : ℕ
  pub roots : List WirePath

-- The file system as the helper asks it about roots.
pub record RootHost : Type 0 where
  pub canonicalize : FilePath → Option FilePath
  pub is_dir : FilePath → Bool

unfoldable pub canonical_root : RootHost → FilePath → Result OwnershipError FilePath
canonical_root host requested = do
  ensure (is_absolute requested) relative_root
  canonical ← context (host.canonicalize requested) unresolved_root
  ensure (path_eq canonical requested) root_not_canonical
  ok canonical

unfoldable pub config_roots : RootHost → List WirePath → Result OwnershipError (List FilePath)
unfolding canonical_root
config_roots host [] = ok []
config_roots host (wire ∷ wires) = do
  requested ← to_path_buf wire
  canonical ← canonical_root host requested
  ensure (host.is_dir canonical) root_not_directory
  later ← config_roots host wires
  ok (canonical ∷ later)

unfoldable pub canonical_config_roots :
    RootHost → HelperConfig → Result OwnershipError (List FilePath)
unfolding config_roots
canonical_config_roots host config = do
  ensure (nat_beq config.config_version 1) bad_config
  ensure (not (nat_beq config.allowed_uid 0)) bad_config
  ensure (not (is_nil config.roots)) bad_config
  roots ← config_roots host config.roots
  ok (dedup_paths (sort_by path_leb roots))

-- The loop over the requested roots.
unfoldable pub allowed_roots :
    RootHost → List FilePath → List WirePath → Result OwnershipError (List FilePath)
unfolding canonical_root
allowed_roots host allowed [] = ok []
allowed_roots host allowed (wire ∷ wires) = do
  requested ← to_path_buf wire
  canonical ← canonical_root host requested
  ensure (any (λ allowed_root. starts_with canonical allowed_root) allowed) root_not_allowed
  later ← allowed_roots host allowed wires
  ok (canonical ∷ later)

unfoldable pub validated_request_roots :
    RootHost → OwnershipRequest → HelperConfig → Result OwnershipError (List FilePath)
unfolding allowed_roots
validated_request_roots host request config = do
  ensure (nat_beq request.protocol_version ownership_protocol_version) wrong_version
  ensure (leb (length request.roots) max_request_roots) too_many_roots
  allowed ← canonical_config_roots host config
  roots ← allowed_roots host allowed request.roots
  ok (dedup_paths (sort_by path_leb roots))

-- The roots that the path lies under, in the order of their indices; the map from a root to its index
-- keeps the last of equal roots.
unfoldable pub matching_roots : FilePath → List FilePath → List FilePath
matching_roots path [] = []
matching_roots path (r ∷ roots) =
    if has_ancestor path r && not (any (λ other. path_eq other r) roots)
    then r ∷ matching_roots path roots
    else matching_roots path roots

unfoldable pub wire_kind : ProcessOwnershipEvidenceKind → Result OwnershipError OwnershipPathKind
wire_kind process_cwd = ok cwd
wire_kind process_root = ok root
wire_kind mapped_file = ok OwnershipPathKind.mapped_file
wire_kind open_file = ok OwnershipPathKind.open_file
wire_kind lsof_path = ok OwnershipPathKind.open_file
wire_kind test_override = err test_only_evidence

-- The inner loop, over the roots of one observation.
unfoldable pub push_matches :
    RawProcessOwnershipObservation
    → List OwnershipObservation
    → List FilePath
    → Result OwnershipError (List OwnershipObservation)
push_matches observation pushed [] = ok pushed
push_matches observation pushed (r ∷ roots) = do
  ensure (ltb (length pushed) max_matched_observations) too_many_observations
  kind ← wire_kind observation.evidence_kind
  push_matches observation
      (pushed
        ++ (record {
          pid = observation.pid;
          kind = kind;
          observed_path = from_path observation.observed_path;
          matched_root = from_path r;
        }
            ∷ []))
      roots

unfoldable pub push_observations :
    List FilePath
    → List OwnershipObservation
    → List RawProcessOwnershipObservation
    → Result OwnershipError (List OwnershipObservation)
unfolding push_matches matching_roots
push_observations roots pushed [] = ok pushed
push_observations roots pushed (observation ∷ rest) = do
  more ← push_matches observation pushed (matching_roots observation.observed_path roots)
  push_observations roots more rest

abbrev pub complete_response :
    ℕ → List ℕ → List OwnershipObservation → Option OwnershipServiceMetadata → OwnershipResponse
complete_response request_id build observations service = record {
  protocol_version = ownership_protocol_version;
  request_id = request_id;
  backend = privileged_ownership_backend;
  helper_build_sha256 = some build;
  complete = true;
  error = none;
  observations = observations;
  service = service;
}

unfoldable pub privileged_response_from_capture :
    ℕ → List FilePath → RawOwnershipCapture → List ℕ → OwnershipResponse
unfolding push_observations
privileged_response_from_capture request_id roots capture build =
    if not capture.complete
    then refusal request_id (capture_incomplete (error_or capture.error unknown_error))
    else if not (capture.backend == "lsof_global")
    then refusal request_id unexpected_backend
    else elim (push_observations roots [] capture.observations) [
      | err error ↦ refusal request_id error
      | ok observations ↦ complete_response request_id build observations none
    ]

unfoldable pub answer_roots :
    HelperConfig
    → ℕ
    → List ℕ
    → RawOwnershipCapture
    → Result OwnershipError (List FilePath)
    → OwnershipResponse
answer_roots config request_id build capture (err error) = refusal request_id error
answer_roots config request_id build capture (ok []) =
    complete_response request_id build []
      (some (record { client_uid = config.allowed_uid; roots = config.roots }))
answer_roots config request_id build capture (ok (r ∷ roots)) =
    privileged_response_from_capture request_id (r ∷ roots) capture build

-- `handle_connection` behind the streams: no answer for a client that is not authorized. `build` is the
-- hash of the helper's executable and `capture` the global capture.
unfoldable pub handle_connection :
    RootHost
    → HelperConfig
    → List ℕ
    → RawOwnershipCapture
    → ℕ
    → OwnershipRequest
    → Option OwnershipResponse
unfolding answer_roots
handle_connection host config build capture peer_uid request =
    if nat_beq peer_uid config.allowed_uid
    then some (
        answer_roots config request.request_id build capture
          (validated_request_roots host request config))
    else none

-- `capture_from_helper` behind the streams, against an exchange of messages.
unfoldable pub capture_from_helper :
    (OwnershipRequest → Option OwnershipResponse)
    → ℕ
    → List FilePath
    → Result OwnershipError OwnershipResponse
capture_from_helper exchange request_id roots = do
  ensure (leb (length roots) max_request_roots) too_many_roots
  let request = new_request request_id roots
  response ← context (exchange request) unreachable_helper
  validate_response request response
  ok response

-- The helper as the client meets it, when it makes the same capture for each request. The request of a
-- batch has an identity of its own.
unfoldable pub serve_batch :
    RootHost
    → HelperConfig
    → List ℕ
    → RawOwnershipCapture
    → ℕ
    → (List FilePath → ℕ)
    → List FilePath
    → Result OwnershipError OwnershipResponse
unfolding capture_from_helper handle_connection
serve_batch host config build capture peer_uid request_ids batch =
    capture_from_helper (handle_connection host config build capture peer_uid) (request_ids batch)
      batch
