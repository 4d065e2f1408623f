-- ===== src/OwnershipProtocol/Wire.antt =====
-- The messages of src/ownership_protocol.rs. The text of an error is a constructor with the values it
-- prints; what another process reports is `reported`.
use worktree_gc.Base.{
  ℕ, Bool, false, List, [], ◌∷◌, map, String, Option, none, some, Result, ok, err, ◌>>=◌,
}
use worktree_gc.FilePath.{FilePath}
use worktree_gc.OwnershipProtocol.Hex.{HexError, encode_hex, decode_hex}

pub data OwnershipError : Type 0 where
  reported : String → OwnershipError
  bad_path : HexError → OwnershipError
  unknown_error unexpected_backend too_many_roots unreachable_helper : OwnershipError
  wrong_version wrong_request_id incomplete_with_evidence : OwnershipError
  complete_with_error bad_build_hash bad_service : OwnershipError
  unrequested_root escaped_root : OwnershipError
  relative_root unresolved_root root_not_canonical root_not_directory root_not_allowed :
      OwnershipError
  bad_config too_many_observations test_only_evidence unsupported_platform : OwnershipError
  capture_incomplete invalid_evidence : OwnershipError → OwnershipError
  -- the number of the batch, of all batches, and the error
  batch_failed batch_incomplete : ℕ → ℕ → OwnershipError → OwnershipError
  protocol_changed executable_changed : OwnershipError
  lsof_failed lsof_incomplete : OwnershipError
  native_failed targeted_failed : OwnershipError → OwnershipError
  after_prior : OwnershipError → OwnershipError → OwnershipError

abbrev pub ownership_protocol_version : ℕ
ownership_protocol_version = 2

abbrev pub max_request_roots : ℕ
max_request_roots = 2_048

abbrev pub privileged_ownership_backend : String
privileged_ownership_backend = "macos_privileged_lsof_global"

pub record WirePath : Type 0 where
  pub bytes_hex : List ℕ

-- `WirePath::from_path`
unfoldable pub from_path : FilePath → WirePath
from_path path = record { bytes_hex = encode_hex path.bytes }

unfoldable pub to_path_buf : WirePath → Result OwnershipError FilePath
to_path_buf wire = elim (decode_hex wire.bytes_hex) [
  | err error ↦ err (bad_path error)
  | ok bytes ↦ ok (record { bytes = bytes })
]

-- `iter().map(WirePath::to_path_buf).collect()`
unfoldable pub to_path_bufs : List WirePath → Result OwnershipError (List FilePath)
to_path_bufs [] = ok []
to_path_bufs (wire ∷ wires) = do
  path ← to_path_buf wire
  paths ← to_path_bufs wires
  ok (path ∷ paths)

pub record OwnershipRequest : Type 0 where
  pub protocol_version : ℕ
  pub request_id : ℕ
  pub roots : List WirePath

-- `OwnershipRequest::new`
unfoldable pub new_request : ℕ → List FilePath → OwnershipRequest
new_request request_id roots = record {
  protocol_version = ownership_protocol_version;
  request_id = request_id;
  roots = map from_path roots;
}

pub data OwnershipPathKind : Type 0 where
  cwd root mapped_file open_file : OwnershipPathKind

pub record OwnershipObservation : Type 0 where
  pub pid : ℕ
  pub kind : OwnershipPathKind
  pub observed_path : WirePath
  pub matched_root : WirePath

pub record OwnershipServiceMetadata : Type 0 where
  pub client_uid : ℕ
  pub roots : List WirePath

pub record OwnershipResponse : Type 0 where
  pub protocol_version : ℕ
  pub request_id : ℕ
  pub backend : String
  pub helper_build_sha256 : Option (List ℕ)
  pub complete : Bool
  pub error : Option OwnershipError
  pub observations : List OwnershipObservation
  pub service : Option OwnershipServiceMetadata

-- `OwnershipResponse::refusal`
unfoldable pub refusal : ℕ → OwnershipError → OwnershipResponse
refusal request_id error = record {
  protocol_version = ownership_protocol_version;
  request_id = request_id;
  backend = privileged_ownership_backend;
  helper_build_sha256 = none;
  complete = false;
  error = some error;
  observations = [];
  service = none;
}
