-- ===== src/Lib.antt =====
-- A model of worktree-gc, which removes stale Git worktrees and the directories that builds generate
-- in them, with the theorems that keep it from removing anything else.
--
-- The program first plans: it looks at each worktree and each generated directory and decides what to
-- do with it. It then reconciles the decisions with one another, and executes them, checking again
-- before each removal. Protections are leases on paths, kept in a registry file; every removal runs
-- under the lock of that file. Disk pressure shortens the windows of the plan.
--
-- The files, with the code they model:
--
-- - Base: the vocabulary of the rest. Results, Boolean tests and lists over the native numbers, the
--   stable sorts, signed integers.
-- - FilePath and Text: `std::path::Path` on Unix, equal and ordered by components, and texts as code
--   points.
-- - OwnershipProtocol: src/ownership_protocol.rs. Hex has `encode_hex` and `decode_hex`, Frame has
--   `write_message` and `read_message`, a stream being the list of its bytes, and Wire the messages.
-- - Ownership: the captures of open files of src/lib.rs and their matching with paths. Lsof reads the
--   output of lsof, Client is the capture through the privileged helper in batches, Backend the choice
--   of the backend, Helper and Response are the service of src/ownership_helper.rs and the checks of its
--   client. The other files have the proofs.
-- - Protection: src/protection.rs. Lease has the leases and the checks of their fields, Registry the
--   registry file and its lock, Active the leases in force, Guard the lookup of a path and the guards,
--   Operations the commands that add, renew and remove. An operation takes the file and gives its
--   result and the file after it. Registry/Validity, Safety, Runs and Edits hold the proofs.
-- - PullRequest: the evidence of src/github_pr.rs and the functions of src/lib.rs that compare planned
--   with fresh evidence; PullRequest/Matching has the proofs.
-- - Pressure: `PressurePolicy` and the functions of src/lib.rs that apply it; Pressure/Scheduling and
--   Pressure/Reclaim have the proofs.
-- - Worktree: the records of src/lib.rs; Worktree/Plan is `plan_worktree_cleanup_with_pull_requests`,
--   Worktree/Revalidation is `revalidate_pull_request_removal` and Worktree/Execution is
--   `execute_worktree_removals`, with `execute_planned_metadata_prune` and its proof in Execution/Prune.
--   Planning, Classes, Revalidation/Identity and Execution/Guarded, Safety and Progress have the other
--   proofs.
-- - Generated: the records of src/lib.rs; Generated/Config is `GeneratedDirConfig`, Generated/Candidate
--   with Assess and Decide is `scan_generated_dirs_for_worktree`, and Generated/Reconcile is
--   `reconcile_structural_cleanup_authority` and `reconcile_measured_cleanup_authority`. Config/Names,
--   Candidate/Deletion, Reconcile/Loop and Reconcile/Safety have the proofs.
-- - Generated/Execution: `execute_cleanup` of src/lib.rs. The file itself has the selection and the order
--   of the deletions, Boundary is `revalidate_generated_candidate`, Remove is
--   `remove_generated_directory_with_timing` with the closure that approves it, and Cleanup has the
--   loops. The other files have the proofs.
-- - Examples: concrete inputs and the theorems at them.
--
-- What is not under src/ is a parameter, and so are the few functions that are not modelled but
-- called. `Machine` answers for the file system, the JSON codec, the hasher and the lock of the
-- registry; `Host` for the disks; `RootHost` for the file system as the helper asks it about roots;
-- `Json` for the codec of the frames; `RemovalEnv` and `PruneEnv` for Git, the clock and the
-- process snapshots, read from a state of the world that the removals change; `DeletionEnv` for
-- what the deletion of generated directories needs besides: the locks of Cargo, the tools of the
-- sweeps and what is read of a candidate; `ScanInputs` holds what Git and the file system say of a
-- worktree, and the planner of sweeps. Messages are constructors with the values that they print.
--
-- Times are whole seconds since the epoch. A `u64` that saturates is written with its bound; a `usize`
-- is taken to have 64 bits, and its overflow is an error as in the code. The loop of the reconciliation
-- is a recursion on fuel, one more than there are generated directories: each turn but the last turns
-- a deletion into a skip, so that this is enough. The chunks of a list recurse on its length.
--
-- Not modelled: the native capture of macOS, the sockets and the installation of the helper, the
-- inventory, the sweeps of Cargo artifacts, the exact deletion of one generated root, the scheduler
-- that takes repositories through the pressure epochs, the storage of the gateway, the migration of
-- sessions, and the command line. They call the operating system for the most part.
pub mod Base
pub mod OwnershipProtocol
pub mod Ownership
pub mod FilePath
pub mod Text
pub mod Protection
pub mod PullRequest
pub mod Pressure
pub mod Worktree
pub mod Generated
pub mod Examples
