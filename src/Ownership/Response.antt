-- ===== src/Ownership/Response.antt =====
-- `validate_response` of src/ownership_helper.rs: what the client demands of an answer of the helper.
use worktree_gc.Base.{
  is_some, ℕ, Bool, false, not, ◌&&◌, ◌||◌, List, [], ◌∷◌, Option, none, some, any, all, leb,
  nat_beq, length, is_nil, if◌then◌else◌, ◌==◌, nat_eq, string_eq, option_eq, list_eq, sort_by,
  Result, ok, ensure, context, ◌>>=◌, ◌>>◌,
}
use worktree_gc.FilePath.{FilePath, path_eq, path_leb, starts_with, is_absolute}
use worktree_gc.OwnershipProtocol.Wire.{
  OwnershipError, OwnershipRequest, OwnershipResponse, OwnershipObservation,
  OwnershipServiceMetadata, to_path_buf, to_path_bufs, ownership_protocol_version,
  privileged_ownership_backend, wrong_version, wrong_request_id, unexpected_backend,
  incomplete_with_evidence, complete_with_error, bad_build_hash, bad_service, unrequested_root,
  escaped_root, relative_root,
}

abbrev is_lower_hex_byte : ℕ → Bool
is_lower_hex_byte byte = (leb b'0' byte && leb byte b'9') || (leb b'a' byte && leb byte b'f')

unfoldable pub is_lower_hex_sha256 : List ℕ → Bool
is_lower_hex_sha256 value = nat_beq (length value) 64 && all is_lower_hex_byte value

abbrev pub has_build_hash : Option (List ℕ) → Bool
has_build_hash none = false
has_build_hash (some value) = is_lower_hex_sha256 value

-- `Vec::dedup` on paths
unfoldable pub dedup_paths_from : FilePath → List FilePath → List FilePath
dedup_paths_from last [] = []
dedup_paths_from last (path ∷ paths) =
    if path_eq last path then dedup_paths_from last paths else path ∷ dedup_paths_from path paths

unfoldable pub dedup_paths : List FilePath → List FilePath
unfolding dedup_paths_from
dedup_paths [] = []
dedup_paths (path ∷ paths) = path ∷ dedup_paths_from path paths

unfoldable pub service_metadata_paths :
    OwnershipServiceMetadata → Result OwnershipError (List FilePath)
service_metadata_paths metadata = do
  ensure (not (nat_beq metadata.client_uid 0)) bad_service
  ensure (not (is_nil metadata.roots)) bad_service
  roots ← to_path_bufs metadata.roots
  ensure (all is_absolute roots) relative_root
  let sorted = dedup_paths (sort_by path_leb roots)
  ensure (nat_beq (length sorted) (length metadata.roots)) bad_service
  ok sorted

unfoldable pub validate_incomplete : OwnershipResponse → Result OwnershipError Unit
validate_incomplete response = do
  ensure (is_nil response.observations) incomplete_with_evidence
  ensure (not (is_some response.service)) incomplete_with_evidence
  ensure (not (is_some response.helper_build_sha256)) incomplete_with_evidence

unfoldable pub validate_status : OwnershipResponse → Result OwnershipError Unit
unfolding service_metadata_paths
validate_status response = do
  ensure (is_nil response.observations) incomplete_with_evidence
  metadata ← context response.service bad_service
  service_metadata_paths metadata
  ok tt

-- The loop over the observations.
unfoldable pub validate_observations :
    List FilePath → List OwnershipObservation → Result OwnershipError Unit
validate_observations requested [] = ok tt
validate_observations requested (observation ∷ rest) = do
  matched ← to_path_buf observation.matched_root
  observed ← to_path_buf observation.observed_path
  ensure (any (λ path. path_eq path matched) requested) unrequested_root
  ensure (starts_with observed matched) escaped_root
  validate_observations requested rest

unfoldable pub validate_evidence : OwnershipRequest → OwnershipResponse → Result OwnershipError Unit
unfolding validate_observations
validate_evidence request response = do
  ensure (not (is_some response.service)) bad_service
  requested ← to_path_bufs request.roots
  validate_observations requested response.observations

unfoldable pub validate_complete : OwnershipRequest → OwnershipResponse → Result OwnershipError Unit
unfolding validate_status validate_evidence
validate_complete request response = do
  ensure (not (is_some response.error)) complete_with_error
  ensure (has_build_hash response.helper_build_sha256) bad_build_hash
  if is_nil request.roots then validate_status response else validate_evidence request response

unfoldable pub validate_response : OwnershipRequest → OwnershipResponse → Result OwnershipError Unit
unfolding validate_incomplete validate_complete
validate_response request response = do
  ensure (nat_beq response.protocol_version ownership_protocol_version) wrong_version
  ensure (nat_beq response.request_id request.request_id) wrong_request_id
  ensure (response.backend == privileged_ownership_backend) unexpected_backend
  if not response.complete then validate_incomplete response else validate_complete request response
