-- ===== src/Ownership/Backend.antt =====
-- The native capture of macOS with its fallbacks, and the choice of the backend, src/lib.rs.
use worktree_gc.Base.{
  ℕ, Bool, true, false, List, [], ◌∷◌, ◌++◌, String, Option, none, some, nat_eq, string_eq,
  option_eq, list_eq, Result, ok, err,
}
use worktree_gc.FilePath.{FilePath}
use worktree_gc.OwnershipProtocol.Wire.{
  OwnershipError, OwnershipResponse, ownership_protocol_version, privileged_ownership_backend,
  native_failed, targeted_failed,
}
use worktree_gc.Ownership.{
  RawProcessOwnershipObservation, RawOwnershipCapture, ProcessOwnershipEvidence,
  MacosOwnershipBackend, process_ownership_evidence_from_raw, auto_backend, privileged_helper,
  global_lsof,
}
use worktree_gc.Ownership.Client.{capture_privileged_helper_raw_with}

-- What the native capture of macOS gives.
pub data MacosNativeCapture : Type 0 where
  -- the observations, and the processes that it may not look into
  complete_capture : List RawProcessOwnershipObservation → List ℕ → MacosNativeCapture
  resource_limit failed_capture : OwnershipError → MacosNativeCapture

abbrev libproc_capture :
    String
    → Bool
    → Option OwnershipError
    → List RawProcessOwnershipObservation
    → RawOwnershipCapture
libproc_capture backend complete error observations = record {
  backend = backend;
  protocol_version = none;
  helper_build_sha256 = none;
  complete = complete;
  error = error;
  observations = observations;
}

unfoldable pub resolve_macos_ownership_capture :
    MacosNativeCapture
    → (List ℕ → Result OwnershipError (List RawProcessOwnershipObservation))
    → (OwnershipError → RawOwnershipCapture)
    → RawOwnershipCapture
resolve_macos_ownership_capture (resource_limit error) targeted global =
    libproc_capture "macos_libproc" false (some error) []
resolve_macos_ownership_capture (failed_capture error) targeted global =
    global (native_failed error)
resolve_macos_ownership_capture (complete_capture observations []) targeted global =
    libproc_capture "macos_libproc" true none observations
resolve_macos_ownership_capture (complete_capture observations (pid ∷ pids)) targeted global =
    elim (targeted (pid ∷ pids)) [
      | ok found ↦ libproc_capture "macos_libproc+lsof_pid" true none (observations ++ found)
      | err error ↦ global (targeted_failed error)
    ]

unfoldable pub resolve_macos_backend :
    MacosOwnershipBackend
    → RawOwnershipCapture
    → RawOwnershipCapture
    → RawOwnershipCapture
    → RawOwnershipCapture
resolve_macos_backend auto_backend automatic helper lsof = automatic
resolve_macos_backend privileged_helper automatic helper lsof = helper
resolve_macos_backend global_lsof automatic helper lsof = lsof

abbrev backend_name : MacosOwnershipBackend → String
backend_name auto_backend = "macos_libproc"
backend_name privileged_helper = privileged_ownership_backend
backend_name global_lsof = "lsof_global"

abbrev backend_version : MacosOwnershipBackend → Option ℕ
backend_version privileged_helper = some ownership_protocol_version
backend_version _ = none

-- The variant for macOS; the captures stand for what calling them gives.
unfoldable pub process_ownership_evidence_macos :
    List FilePath
    → MacosOwnershipBackend
    → ℕ
    → RawOwnershipCapture
    → (List FilePath → Result OwnershipError OwnershipResponse)
    → RawOwnershipCapture
    → ProcessOwnershipEvidence
process_ownership_evidence_macos [] backend observed_at_unix automatic capture lsof = record {
  observed_at_unix = observed_at_unix;
  backend = backend_name backend;
  protocol_version = backend_version backend;
  helper_build_sha256 = none;
  complete = true;
  error = none;
  observations = [];
}
process_ownership_evidence_macos (path ∷ paths) backend observed_at_unix automatic capture lsof =
    process_ownership_evidence_from_raw (path ∷ paths) observed_at_unix (
      resolve_macos_backend backend automatic
        (capture_privileged_helper_raw_with capture (path ∷ paths)) lsof)
