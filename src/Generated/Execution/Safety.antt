-- ===== src/Generated/Execution/Safety.antt =====
-- What the loop over the deletions of src/lib.rs guarantees: a generated directory is removed only
-- after every test has admitted it, by the registry file and the satisfied filesystems as the turns
-- before have left them, and right after its approval.
use worktree_gc.Base.{ℕ, Bool, List, [], ◌∷◌, String, Option, Result, ok, err}
use worktree_gc.FilePath.{FilePath}
use worktree_gc.Protection.Registry.{RegistryFile}
use worktree_gc.Pressure.{CleanupError}
use worktree_gc.Worktree.{WorktreeDecision}
use worktree_gc.Worktree.Revalidation.{ExecutionPass}
use worktree_gc.Worktree.Execution.{OpenHandleSnapshot}
use worktree_gc.Generated.{GeneratedDirDecision}
use worktree_gc.Generated.Execution.Remove.{DeletionEnv}
use worktree_gc.Generated.Execution.Cleanup.{
  ExecutionManifest, Outcome, deletion_step, delete_generated_dirs,
}
use worktree_gc.Generated.Execution.Turn.{IsTurn, deletion_step-IsTurn}

module _ {S : Type 0} (env : DeletionEnv S) (macos : Bool) (manifest : ExecutionManifest)
    (pass : ExecutionPass) (open_handles : Option OpenHandleSnapshot) (deadline : Option ℕ)
    (removals : List WorktreeDecision) (open_dirs owned : List FilePath) where
  -- The runs of the loop: each decision has at most one turn, in their order.
  pub data DeletionRun
      : List GeneratedDirDecision → List String → RegistryFile → S → S → Type 0 where
    finished :
        {decisions : List GeneratedDirDecision} {satisfied : List String} {file : RegistryFile}
        {s : S}
        → DeletionRun decisions satisfied file s s
    turn :
        {decision : GeneratedDirDecision} {rest : List GeneratedDirDecision}
        {satisfied satisfied' : List String} {file file' : RegistryFile} {s s1 s' : S}
        → IsTurn env macos manifest pass open_handles deadline removals open_dirs owned decision
            satisfied file s satisfied' file' s1
        → DeletionRun rest satisfied' file' s1 s'
        → DeletionRun (decision ∷ rest) satisfied file s s'

  -- Whatever the registry, the disks, the locks and the processes do, and also when it ends in an error,
  -- the loop over the deletions takes the decisions in their order, and all that it does about one is an
  -- attempt that every test has admitted, in which the directory is removed only right after its
  -- approval, or the record of a timeout. The tests use the registry file and the satisfied filesystems
  -- that the turns before left, which are those at the start but for expired leases and for what the
  -- tests on pressure added.
  pub delete_generated_dirs-DeletionRun :
      (decisions : List GeneratedDirDecision) (satisfied : List String) (file : RegistryFile)
      (s : S)
      → DeletionRun decisions satisfied file s
          (delete_generated_dirs env macos manifest pass open_handles deadline removals open_dirs
            owned decisions satisfied file s).3
  unfolding delete_generated_dirs
  delete_generated_dirs-DeletionRun [] satisfied file s = finished
  delete_generated_dirs-DeletionRun (decision ∷ rest) satisfied file s =
      let step =
        deletion_step env macos manifest pass open_handles deadline removals open_dirs owned
          decision satisfied file s in
      turn
        (deletion_step-IsTurn env macos manifest pass open_handles deadline removals open_dirs owned
          decision satisfied file s)
        (go step.0 step.1 step.2 step.3
          (delete_generated_dirs-DeletionRun rest step.1 step.2 step.3))
    where
      go :
          (result : Result CleanupError (Unit {0})) (after : List String) (file' : RegistryFile)
          (s' : S)
          → DeletionRun rest after file' s'
              (delete_generated_dirs env macos manifest pass open_handles deadline removals
                open_dirs owned rest after file' s').3
          → DeletionRun rest after file' s'
              (elim result as (λ _. Outcome S) [
                | err error ↦ (err error, after, file', s')
                | ok _ ↦
                    delete_generated_dirs env macos manifest pass open_handles deadline removals
                      open_dirs owned rest after file' s'
              ]).3
      go (err error) after file' s' continued = finished
      go (ok _) after file' s' continued = continued
