-- ===== src/Ownership/Lsof.antt =====
-- The output of `lsof -F0pcfn` as src/lib.rs parses it, and the capture made of it.
use worktree_gc.Base.{
  ℕ, ◌+◌, ◌-◌, ◌*◌, Bool, true, false, not, ◌&&◌, ◌||◌, List, [], ◌∷◌, ◌++◌, Option, none, some,
  leb, ltb, nat_beq, if◌then◌else◌, ◌==◌, nat_eq, list_eq, Result, ok, err,
}
use worktree_gc.Text.{trim}
use worktree_gc.FilePath.{FilePath, is_absolute}
use worktree_gc.OwnershipProtocol.Wire.{OwnershipError, lsof_failed, lsof_incomplete, after_prior}
use worktree_gc.Ownership.{
  ProcessOwnershipEvidenceKind, RawProcessOwnershipObservation, RawOwnershipCapture, process_cwd,
  process_root, mapped_file, open_file, lsof_path,
}

-- The pieces between the bytes that are zero.
prepend_byte : ℕ → List (List ℕ) → List (List ℕ)
prepend_byte b [] = (b ∷ []) ∷ []
prepend_byte b (field ∷ fields) = (b ∷ field) ∷ fields

unfoldable pub split_nul : List ℕ → List (List ℕ)
unfolding prepend_byte
split_nul [] = [] ∷ []
split_nul (b ∷ bs) = if nat_beq b 0 then [] ∷ split_nul bs else prepend_byte b (split_nul bs)

-- `field.strip_prefix(b"\n").unwrap_or(field)`
unfoldable pub strip_newline : List ℕ → List ℕ
strip_newline [] = []
strip_newline (b ∷ bs) = if nat_beq b 10 then bs else b ∷ bs

abbrev u32_mod : ℕ
u32_mod = 4_294_967_296

-- The digits of a `u32`, the value before them given; an overflow or another byte is an error.
parse_digits : ℕ → List ℕ → Option ℕ
parse_digits value [] = some value
parse_digits value (b ∷ bs) =
    let next = value * 10 + (b - b'0') in
    if leb b'0' b && leb b b'9' && ltb next u32_mod then parse_digits next bs else none

-- `str::parse::<u32>`, which takes a sign.
unfoldable pub parse_u32 : List ℕ → Option ℕ
unfolding parse_digits
parse_u32 [] = none
parse_u32 (b ∷ []) = if nat_beq b b'+' then none else parse_digits 0 (b ∷ [])
parse_u32 (b ∷ c ∷ bs) =
    if nat_beq b b'+' then parse_digits 0 (c ∷ bs) else parse_digits 0 (b ∷ c ∷ bs)

-- The variables of the loop.
pub record LsofState : Type 0 where
  pub pid : Option ℕ
  pub command : Option (List ℕ)
  pub evidence_kind : ProcessOwnershipEvidenceKind

unfoldable pub kind_of_descriptor : List ℕ → ProcessOwnershipEvidenceKind
kind_of_descriptor value =
    if value == (b'c' ∷ b'w' ∷ b'd' ∷ [])
    then process_cwd
    else if value == (b'r' ∷ b't' ∷ b'd' ∷ [])
    then process_root
    else if value == (b't' ∷ b'x' ∷ b't' ∷ []) || value == (b'm' ∷ b'e' ∷ b'm' ∷ [])
    then mapped_file
    else open_file

-- A name of a process that is known, with an absolute path.
unfoldable pub observed_name : LsofState → List ℕ → List RawProcessOwnershipObservation
observed_name state value = elim state.pid [
  | none ↦ []
  | some pid ↦
      if is_absolute (record { bytes = value })
      then record {
        pid = pid;
        command = state.command;
        evidence_kind = state.evidence_kind;
        observed_path = record { bytes = value };
      }
        ∷ []
      else []
]

-- The body of the loop: the variables after the field, and what it adds.
unfoldable pub lsof_field : LsofState → List ℕ → LsofState × List RawProcessOwnershipObservation
lsof_field state [] = (state, [])
lsof_field state (kind ∷ value) =
    if nat_beq kind b'p'
    then (record { pid = parse_u32 value; command = none; evidence_kind = lsof_path }, [])
    else if nat_beq kind b'c'
    then (record state { command = some value }, [])
    else if nat_beq kind b'f'
    then (record state { evidence_kind = kind_of_descriptor value }, [])
    else if nat_beq kind b'n'
    then (state, observed_name state value)
    else (state, [])

unfoldable pub lsof_fields : LsofState → List (List ℕ) → List RawProcessOwnershipObservation
unfolding lsof_field
lsof_fields state [] = []
lsof_fields state (field ∷ fields) =
    let (after, added) = lsof_field state (strip_newline field) in added ++ lsof_fields after fields

unfoldable pub parse_lsof_process_ownership : List ℕ → List RawProcessOwnershipObservation
unfolding lsof_fields split_nul
parse_lsof_process_ownership output =
    lsof_fields (record { pid = none; command = none; evidence_kind = lsof_path })
      (split_nul output)

-- The names alone.
snapshot_field : List ℕ → List FilePath
snapshot_field [] = []
snapshot_field (kind ∷ value) =
    if nat_beq kind b'n' && is_absolute (record { bytes = value })
    then record { bytes = value } ∷ []
    else []

snapshot_fields : List (List ℕ) → List FilePath
unfolding snapshot_field
snapshot_fields [] = []
snapshot_fields (field ∷ fields) = snapshot_field (strip_newline field) ++ snapshot_fields fields

unfoldable pub parse_lsof_snapshot_paths : List ℕ → List FilePath
unfolding snapshot_fields split_nul
parse_lsof_snapshot_paths output = snapshot_fields (split_nul output)

-- Whether the probe failed: anything but white space on the error output, or a failure.
unfoldable pub lsof_probe_error : Bool → List ℕ → Option OwnershipError
lsof_probe_error success stderr =
    if not (trim stderr == [])
    then some lsof_incomplete
    else if success
    then none
    else some lsof_failed

-- What running `lsof` gives: its status, its output and its error output.
pub record LsofRun : Type 0 where
  pub success : Bool
  pub stdout : List ℕ
  pub stderr : List ℕ

unfoldable pub run_lsof_raw :
    Result OwnershipError LsofRun → Result OwnershipError (List RawProcessOwnershipObservation)
run_lsof_raw (err error) = err error
run_lsof_raw (ok run) = elim (lsof_probe_error run.success run.stderr) [
  | some error ↦ err error
  | none ↦ ok (parse_lsof_process_ownership run.stdout)
]

abbrev pub prior_or : Option OwnershipError → OwnershipError → OwnershipError
prior_or none error = error
prior_or (some prior) error = after_prior prior error

unfoldable pub capture_global_lsof_raw :
    Option OwnershipError → Result OwnershipError LsofRun → RawOwnershipCapture
unfolding run_lsof_raw
capture_global_lsof_raw prior_error run = elim (run_lsof_raw run) [
  | ok observations ↦ record {
    backend = "lsof_global";
    protocol_version = none;
    helper_build_sha256 = none;
    complete = true;
    error = prior_error;
    observations = observations;
  }
  | err error ↦ record {
    backend = "lsof_global";
    protocol_version = none;
    helper_build_sha256 = none;
    complete = false;
    error = some (prior_or prior_error error);
    observations = [];
  }
]
