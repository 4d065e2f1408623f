-- ===== src/Ownership.antt =====
-- Process ownership of src/lib.rs: what a capture of open files has observed, and which of the paths
-- asked about it shows to be owned. The command of a process is its bytes.
pub mod Lsof
pub mod Response
pub mod Client
pub mod Backend
pub mod Helper
pub mod Matching
pub mod Service
pub mod Batches
pub mod Exchange
pub mod Refinement
pub mod Acceptance
pub mod Acceptable
pub mod Requests
pub mod Failure
use worktree_gc.Base.{
  ℕ, Bool, true, false, not, ◌&&◌, ◌||◌, List, [], ◌∷◌, ◌++◌, map, String, Option, none, some, any,
  leb, ltb, nat_beq, retain, if◌then◌else◌, Eq, ◌==◌, nat_eq, option_eq, list_eq, sort_by,
}
use worktree_gc.FilePath.{FilePath, path_eq, has_ancestor, ancestor_spelling, bytes_leb}
use worktree_gc.OwnershipProtocol.Wire.{
  OwnershipError, unsupported_platform, privileged_ownership_backend, ownership_protocol_version,
}

pub data ProcessOwnershipEvidenceKind : Type 0 where
  process_cwd process_root mapped_file open_file lsof_path : ProcessOwnershipEvidenceKind
  test_override : ProcessOwnershipEvidenceKind

abbrev pub kind_beq : ProcessOwnershipEvidenceKind → ProcessOwnershipEvidenceKind → Bool
kind_beq process_cwd process_cwd = true
kind_beq process_root process_root = true
kind_beq mapped_file mapped_file = true
kind_beq open_file open_file = true
kind_beq lsof_path lsof_path = true
kind_beq test_override test_override = true
kind_beq _ _ = false

pub record RawProcessOwnershipObservation : Type 0 where
  pub pid : ℕ
  pub command : Option (List ℕ)
  pub evidence_kind : ProcessOwnershipEvidenceKind
  pub observed_path : FilePath

pub record RawOwnershipCapture : Type 0 where
  pub backend : String
  pub protocol_version : Option ℕ
  pub helper_build_sha256 : Option (List ℕ)
  pub complete : Bool
  pub error : Option OwnershipError
  pub observations : List RawProcessOwnershipObservation

pub record ProcessOwnershipObservation : Type 0 where
  pub pid : Option ℕ
  pub command : Option (List ℕ)
  pub evidence_kind : ProcessOwnershipEvidenceKind
  pub observed_path : FilePath
  pub matched_path : FilePath

pub record ProcessOwnershipEvidence : Type 0 where
  pub observed_at_unix : ℕ
  pub backend : String
  pub protocol_version : Option ℕ
  pub helper_build_sha256 : Option (List ℕ)
  pub complete : Bool
  pub error : Option OwnershipError
  pub observations : List ProcessOwnershipObservation

pub data MacosOwnershipBackend : Type 0 where
  auto_backend privileged_helper global_lsof : MacosOwnershipBackend

-- A set of paths holds one of those that are equal as paths.
unfoldable pub distinct_paths : List FilePath → List FilePath
distinct_paths [] = []
distinct_paths (path ∷ paths) =
    path ∷ retain (λ other. not (path_eq other path)) (distinct_paths paths)

-- The candidates among the ancestors of the observed path, each in the spelling of the ancestor. The
-- order among them is lost in the sort, whose first key tells them apart.
unfoldable pub matches_of :
    List FilePath → RawProcessOwnershipObservation → List ProcessOwnershipObservation
matches_of candidates observation =
    map
      (λ candidate. record {
        pid = some observation.pid;
        command = observation.command;
        evidence_kind = observation.evidence_kind;
        observed_path = observation.observed_path;
        matched_path = ancestor_spelling observation.observed_path candidate;
      })
      (retain (λ candidate. has_ancestor observation.observed_path candidate) candidates)

unfoldable pub all_matches :
    List FilePath → List RawProcessOwnershipObservation → List ProcessOwnershipObservation
all_matches candidates [] = []
all_matches candidates (observation ∷ rest) =
    matches_of candidates observation ++ all_matches candidates rest

-- The key of the sort: matched path, process, observed path.
abbrev bytes_equal : List ℕ → List ℕ → Bool
bytes_equal a b = a == b

abbrev pid_leb : Option ℕ → Option ℕ → Bool
pid_leb none b = true
pid_leb (some a) none = false
pid_leb (some a) (some b) = leb a b

unfoldable pub match_leb : ProcessOwnershipObservation → ProcessOwnershipObservation → Bool
match_leb left right =
    if not (bytes_equal left.matched_path.bytes right.matched_path.bytes)
    then bytes_leb left.matched_path.bytes right.matched_path.bytes
    else if not (left.pid == right.pid)
    then pid_leb left.pid right.pid
    else bytes_leb left.observed_path.bytes right.observed_path.bytes

-- `#[derive(PartialEq)]`
unfoldable pub match_beq : ProcessOwnershipObservation → ProcessOwnershipObservation → Bool
match_beq a b =
    a.pid == b.pid
    && a.command == b.command
    && kind_beq a.evidence_kind b.evidence_kind
    && path_eq a.observed_path b.observed_path
    && path_eq a.matched_path b.matched_path

-- `Vec::dedup` drops what equals the last that was kept.
unfoldable pub dedup_from :
    ProcessOwnershipObservation
    → List ProcessOwnershipObservation
    → List ProcessOwnershipObservation
dedup_from last [] = []
dedup_from last (match ∷ rest) =
    if match_beq last match then dedup_from last rest else match ∷ dedup_from match rest

unfoldable pub dedup_matches : List ProcessOwnershipObservation → List ProcessOwnershipObservation
unfolding dedup_from
dedup_matches [] = []
dedup_matches (match ∷ rest) = match ∷ dedup_from match rest

unfoldable pub match_process_ownership :
    List FilePath → List RawProcessOwnershipObservation → List ProcessOwnershipObservation
unfolding dedup_matches all_matches distinct_paths
match_process_ownership candidates observations =
    dedup_matches (sort_by match_leb (all_matches (distinct_paths candidates) observations))

unfoldable pub process_ownership_evidence_from_raw :
    List FilePath → ℕ → RawOwnershipCapture → ProcessOwnershipEvidence
process_ownership_evidence_from_raw paths observed_at_unix capture = record {
  observed_at_unix = observed_at_unix;
  backend = capture.backend;
  protocol_version = capture.protocol_version;
  helper_build_sha256 = capture.helper_build_sha256;
  complete = capture.complete;
  error = capture.error;
  observations =
      if capture.complete then match_process_ownership paths capture.observations else [];
}

-- The variant for Unix other than macOS; `lsof` is what the global capture gives.
unfoldable pub process_ownership_evidence_unix :
    List FilePath → MacosOwnershipBackend → ℕ → RawOwnershipCapture → ProcessOwnershipEvidence
process_ownership_evidence_unix paths backend observed_at_unix lsof =
    process_ownership_evidence_from_raw paths observed_at_unix (elim backend [
      | auto_backend ↦ lsof
      | privileged_helper ↦ record {
        backend = privileged_ownership_backend;
        protocol_version = some ownership_protocol_version;
        helper_build_sha256 = none;
        complete = false;
        error = some unsupported_platform;
        observations = [];
      }
      | global_lsof ↦ lsof
    ])
