-- ===== src/Worktree/Execution/Prune.antt =====
-- `execute_planned_metadata_prune` of src/lib.rs: the metadata of missing worktrees is pruned only when
-- Git would still prune what was planned. The world is a state that Git reads and changes.
use worktree_gc.Base.{
  ℕ, ◌≡◌, ◌⊎◌, inl, inr, refl, sym, ap, ◌∙◌, Bool, true, false, not, List, [], ◌∷◌, ◌++◌, map,
  Option, none, some, retain, is_nil, if◌then◌else◌, Bool-cases, arith, ◌==◌, ==→eq, list_eq,
  nat_eq, Result, ok, err,
}
use worktree_gc.Text.{trim}
use worktree_gc.FilePath.{FilePath}
use worktree_gc.Protection.Lease.{ProtectionError}
use worktree_gc.Protection.Registry.{Machine, RegistryFile}
use worktree_gc.Protection.Guard.{
  ProtectionGuardOutcome, protected_by, executed, with_protection_guards_at,
}
use worktree_gc.Protection.Safety.{IsUnprotected}
use worktree_gc.Pressure.{CleanupError, protection_failed, prune_failed}
use worktree_gc.Worktree.{WorktreeDecision}
use worktree_gc.Worktree.Execution.Guarded.{guard_runs}

-- What the prune reads of the manifest.
pub record PruneManifest : Type 0 where
  pub metadata_prune_enabled : Bool
  pub current_worktree : FilePath
  pub prune_output : List ℕ
  pub worktrees : List WorktreeDecision
  pub git_common_dir : FilePath

pub record PruneEnv (S : Type 0) : Type 0 where
  pub machine : S → Machine
  pub clock : S → ℕ
  -- `git worktree prune`, dry unless the flag is set: its output, when it succeeds
  pub git_worktree_prune : FilePath → Bool → S → Option (List ℕ) × S

unfoldable pub prunable_worktree_paths : List WorktreeDecision → List FilePath
prunable_worktree_paths worktrees =
    map (λ worktree. worktree.path) (retain (λ worktree. worktree.metadata_prunable) worktrees)

unfoldable pub guarded_paths : PruneManifest → List FilePath
unfolding prunable_worktree_paths
guarded_paths manifest =
    prunable_worktree_paths manifest.worktrees ++ (manifest.git_common_dir ∷ [])

unfoldable pub prune_result :
    Result ProtectionError (ProtectionGuardOutcome (Option (List ℕ)))
    → Result CleanupError (Unit {0})
prune_result (err _) = err protection_failed
prune_result (ok (protected_by _)) = ok tt
prune_result (ok (executed none)) = err prune_failed
prune_result (ok (executed (some _))) = ok tt

module _ {S : Type 0} (env : PruneEnv S) (manifest : PruneManifest) where
  unfoldable pub prune_guarded :
      RegistryFile → S → Result CleanupError (Unit {0}) × RegistryFile × S
  unfolding guarded_paths prune_result
  prune_guarded file s =
      let (outcome, file', s') =
        with_protection_guards_at (env.machine s) (guarded_paths manifest) (env.clock s)
          (env.git_worktree_prune manifest.current_worktree true) file s in
      (prune_result outcome, file', s')

  -- The part behind the dry run.
  unfoldable pub prune_planned :
      Option (List ℕ) → RegistryFile → S → Result CleanupError (Unit {0}) × RegistryFile × S
  unfolding prune_guarded
  prune_planned none file s = (err prune_failed, file, s)
  prune_planned (some current) file s =
      if not (current == manifest.prune_output)
      then (ok tt, file, s)
      else if is_nil (trim current)
      then (ok tt, file, s)
      else prune_guarded file s

  unfoldable pub execute_planned_metadata_prune :
      RegistryFile → S → Result CleanupError (Unit {0}) × RegistryFile × S
  unfolding prune_planned
  execute_planned_metadata_prune file s =
      if not manifest.metadata_prune_enabled
      then (ok tt, file, s)
      else let (current, s') = env.git_worktree_prune manifest.current_worktree false s in
        prune_planned current file s'

  -- The prune of a state whose dry run is the planned one, with a registry file that is readable and has
  -- no active lease that covers any of the paths.
  abbrev pub IsPlannedPrune : RegistryFile → S → S → Type 0
  IsPlannedPrune file s s' =
      let dry = env.git_worktree_prune manifest.current_worktree false s in
      (manifest.metadata_prune_enabled ≡ true)
      × (dry.0 ≡ some manifest.prune_output)
      × (is_nil (trim manifest.prune_output) ≡ false)
      × IsUnprotected (env.machine dry.1) (env.clock dry.1) file (guarded_paths manifest)
      × (s' ≡ (env.git_worktree_prune manifest.current_worktree true dry.1).1)

  prune_guarded_safe :
      (file : RegistryFile) (s : S)
      → ((prune_guarded file s).2 ≡ s)
        ⊎ (IsUnprotected (env.machine s) (env.clock s) file (guarded_paths manifest)
            × ((prune_guarded file s).2
                ≡ (env.git_worktree_prune manifest.current_worktree true s).1))
  unfolding prune_guarded
  prune_guarded_safe file s =
      let operation = env.git_worktree_prune manifest.current_worktree true in
      guard_runs (env.machine s) operation (guarded_paths manifest) (env.clock s) file s

  prune_planned_safe :
      (current : Option (List ℕ)) (file : RegistryFile) (s : S)
      → ((prune_planned current file s).2 ≡ s)
        ⊎ ((current ≡ some manifest.prune_output)
            × (is_nil (trim manifest.prune_output) ≡ false)
            × IsUnprotected (env.machine s) (env.clock s) file (guarded_paths manifest)
            × ((prune_planned current file s).2
                ≡ (env.git_worktree_prune manifest.current_worktree true s).1))
  unfolding prune_planned
  prune_planned_safe none file s = inl refl
  prune_planned_safe (some current) file s = elim (Bool-cases (current == manifest.prune_output)) [
    | inr e ↦ inl (ground (arith, e))
    | inl e ↦
        let same : current ≡ manifest.prune_output = ==→eq current manifest.prune_output e in
        elim (Bool-cases (is_nil (trim current))) [
          | inl t ↦ inl (ground (arith, e, t))
          | inr t ↦ elim (prune_guarded_safe file s) [
            | inl kept ↦ inl (ground (arith, e, t, kept))
            | inr (free, ran) ↦ inr (
              ap some same,
              ap (λ text. is_nil (trim text)) (sym same) ∙ t,
              free,
              ground (arith, e, t, ran),
            )
          ]
        ]
  ]

  -- Whatever Git and the registry answer, and also when it ends in an error, the execution changes the
  -- world only by the dry run, or by one prune that is enabled, whose dry run right before it gives the
  -- planned output, which is not blank, while the registry file is readable and no active lease in it
  -- covers the common directory or a worktree whose metadata is to be pruned.
  pub execute_planned_metadata_prune_safe :
      (file : RegistryFile) (s : S)
      → ((execute_planned_metadata_prune file s).2 ≡ s)
        ⊎ ((execute_planned_metadata_prune file s).2
            ≡ (env.git_worktree_prune manifest.current_worktree false s).1)
        ⊎ IsPlannedPrune file s (execute_planned_metadata_prune file s).2
  unfolding execute_planned_metadata_prune
  execute_planned_metadata_prune_safe file s = elim (Bool-cases manifest.metadata_prune_enabled) [
    | inr e ↦ inl (ground (arith, e))
    | inl e ↦
        let dry = env.git_worktree_prune manifest.current_worktree false s in
        elim (prune_planned_safe dry.0 file dry.1) [
          | inl kept ↦ inr (inl (ground (arith, e, kept)))
          | inr (planned, not_blank, free, ran) ↦
              inr (inr (e, planned, not_blank, free, ground (arith, e, ran)))
        ]
  ]
