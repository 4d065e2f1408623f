-- ===== src/Worktree/Execution/Safety.antt =====
-- What the removal loop of src/lib.rs guarantees: the world changes only by removals that every test
-- has authorised at the moment of the removal, by the registry file and the satisfied filesystems as
-- the turns before have left them.
use worktree_gc.Base.{
  ◌≡◌, ◌⊎◌, inl, inr, refl, Bool, true, false, List, [], ◌∷◌, String, Option, arith, Bool-cases,
  Result-cases, Result, ok, err,
}
use worktree_gc.Protection.Registry.{RegistryFile}
use worktree_gc.Protection.Guard.{with_protection_guard_at}
use worktree_gc.Protection.Safety.{IsUnprotected}
use worktree_gc.Pressure.{CleanupError, pressure_should_continue}
use worktree_gc.Worktree.{WorktreeDecision}
use worktree_gc.Worktree.Revalidation.{
  RemovalManifest, ExecutionPass, pull_request_revalidation_required,
  revalidate_pull_request_removal,
}
use worktree_gc.Worktree.Execution.{
  OpenHandleSnapshot, RemovalEnv, is_routine, execution_snapshot_allows_worktree_removal,
  passes_observation, passes_pressure, may_remove, remove_guarded, removal_step,
  execute_worktree_removals,
}
use worktree_gc.Worktree.Execution.Guarded.{
  IsWanted, IsNextSatisfied, IsNextFile, guard_runs, guard-IsNextFile,
}

-- A worktree that may be removed right now: it is there, it is wanted by the pass, no process has a
-- file in it open, the evidence on pull requests is as it was, and the registry file is readable and
-- has no active lease that covers it.
pub record IsAuthorised {S : Type 0} (env : RemovalEnv S) (manifest : RemovalManifest)
    (pass : ExecutionPass) (open_handles : Option OpenHandleSnapshot) (decision : WorktreeDecision)
    (satisfied : List String) (file : RegistryFile) (s : S) : Type 0 where
  pub present : (env.host s).exists decision.path ≡ true
  pub wanted : IsWanted (env.host s) manifest.pressure pass decision.path satisfied
  pub idle :
      manifest.check_in_use ≡ true
      → execution_snapshot_allows_worktree_removal decision open_handles (env.capture s) ≡ true
  pub unchanged :
      pull_request_revalidation_required manifest.pull_requests decision.removal_trigger ≡ true
      → revalidate_pull_request_removal manifest (env.observe s) decision ≡ ok true
  pub unprotected : IsUnprotected (env.machine s) (env.clock s) file (decision.path ∷ [])

module _ {S : Type 0} (env : RemovalEnv S) (manifest : RemovalManifest) (pass : ExecutionPass)
    (open_handles : Option OpenHandleSnapshot) where
  -- Either nothing happened, or the authorised removal.
  abbrev pub Effect : WorktreeDecision → List String → RegistryFile → S → S → Type 0
  Effect decision satisfied file s s' =
      (s' ≡ s)
      ⊎ (IsAuthorised env manifest pass open_handles decision satisfied file s
          × (s' ≡ (env.git_worktree_remove decision.path s).1))

  -- One turn, from satisfied filesystems, registry file and world to those after it.
  pub record IsTurn (decision : WorktreeDecision) (satisfied : List String) (file : RegistryFile)
      (s : S) (satisfied' : List String) (file' : RegistryFile) (s' : S) : Type 0 where
    pub satisfies :
        IsNextSatisfied (env.host s) manifest.pressure decision.path satisfied satisfied'
    pub persists : IsNextFile (env.machine s) (env.clock s) file file'
    pub removes : Effect decision satisfied file s s'

  -- The runs that make only authorised removals, each decision having at most one turn and in order.
  pub data AuthorisedRun : List WorktreeDecision → List String → RegistryFile → S → S → Type 0 where
    finished :
        {decisions : List WorktreeDecision} {satisfied : List String} {file : RegistryFile} {s : S}
        → AuthorisedRun decisions satisfied file s s
    turn :
        {decision : WorktreeDecision} {rest : List WorktreeDecision}
        {satisfied satisfied' : List String} {file file' : RegistryFile} {s s' s'' : S}
        → IsTurn decision satisfied file s satisfied' file' s'
        → AuthorisedRun rest satisfied' file' s' s''
        → AuthorisedRun (decision ∷ rest) satisfied file s s''

  abbrev MayRemove : WorktreeDecision → List String → S → Type 0
  MayRemove decision satisfied s =
      ((env.host s).exists decision.path ≡ true)
      × IsWanted (env.host s) manifest.pressure pass decision.path satisfied
      × (passes_observation env manifest pass open_handles decision s ≡ ok true)

  may_remove-MayRemove :
      (decision : WorktreeDecision) (satisfied : List String) (s : S)
      → (may_remove env manifest pass open_handles decision satisfied s).0 ≡ ok true
      → MayRemove decision satisfied s
  unfolding may_remove passes_pressure
  may_remove-MayRemove decision satisfied s h =
      elim (Bool-cases ((env.host s).exists decision.path)) [
        | inr e ↦ absurd (ground (arith, e))
        | inl e ↦ elim (Bool-cases (is_routine pass)) [
          | inl r ↦ (e, inl r, ground (arith, e, r))
          | inr r ↦
              elim (Result-cases
                (pressure_should_continue (env.host s) manifest.pressure decision.path satisfied)) [
                  | inr (error, p) ↦ absurd (ground (arith, e, r, p))
                  | inl ((answer, after), p) ↦ elim (Bool-cases answer) [
                    | inl t ↦ (e, inr (after, ground (arith, p, t)), ground (arith, e, r, p, t))
                    | inr t ↦ absurd (ground (arith, e, r, p, t))
                  ]
                ]
        ]
      ]

  may_remove-IsNextSatisfied :
      (decision : WorktreeDecision) (satisfied : List String) (s : S)
      → IsNextSatisfied
          (env.host s)
          manifest.pressure
          decision.path
          satisfied
          (may_remove env manifest pass open_handles decision satisfied s).1
  unfolding may_remove passes_pressure
  may_remove-IsNextSatisfied decision satisfied s =
      elim (Bool-cases ((env.host s).exists decision.path)) [
        | inr e ↦ inl (ground (arith, e))
        | inl e ↦ elim (Bool-cases (is_routine pass)) [
          | inl r ↦ inl (ground (arith, e, r))
          | inr r ↦
              elim (Result-cases
                (pressure_should_continue (env.host s) manifest.pressure decision.path satisfied)) [
                  | inr (error, p) ↦ inl (ground (arith, e, r, p))
                  | inl ((answer, after), p) ↦ elim (Bool-cases answer) [
                    | inl t ↦ inr (answer, ground (arith, e, r, p, t))
                    | inr t ↦ inr (answer, ground (arith, e, r, p, t))
                  ]
                ]
        ]
      ]

  IsAuthorised-of_checks :
      (decision : WorktreeDecision) (satisfied : List String) (file : RegistryFile) (s : S)
      → MayRemove decision satisfied s
      → IsUnprotected (env.machine s) (env.clock s) file (decision.path ∷ [])
      → IsAuthorised env manifest pass open_handles decision satisfied file s
  unfolding passes_observation
  IsAuthorised-of_checks decision satisfied file s (present, wanted, observed) unprotected =
      record {
        present = present;
        wanted = wanted;
        idle = λ c. ground arith;
        unchanged = λ r. ground arith;
        unprotected = unprotected;
      }

  remove_guarded-IsTurn :
      (decision : WorktreeDecision) (satisfied after : List String) (file : RegistryFile) (s : S)
      → MayRemove decision satisfied s
      → IsNextSatisfied (env.host s) manifest.pressure decision.path satisfied after
      → (let step = remove_guarded env manifest pass open_handles decision after file s in
          IsTurn decision satisfied file s step.1 step.2 step.3)
  unfolding remove_guarded with_protection_guard_at
  remove_guarded-IsTurn decision satisfied after file s may next =
      let operation = env.git_worktree_remove decision.path in
      let paths = decision.path ∷ [] in
      record {
        satisfies = next;
        persists = guard-IsNextFile (env.machine s) operation paths (env.clock s) file s;
        removes = elim (guard_runs (env.machine s) operation paths (env.clock s) file s) [
          | inl same ↦ inl same
          | inr (free, ran) ↦ inr (IsAuthorised-of_checks decision satisfied file s may free, ran)
        ];
      }

  removal_step-IsTurn :
      (decision : WorktreeDecision) (satisfied : List String) (file : RegistryFile) (s : S)
      → (let step = removal_step env manifest pass open_handles decision satisfied file s in
          IsTurn decision satisfied file s step.1 step.2 step.3)
  unfolding removal_step
  removal_step-IsTurn decision satisfied file s =
      go (may_remove env manifest pass open_handles decision satisfied s).0
        (may_remove env manifest pass open_handles decision satisfied s).1 refl
        (may_remove-IsNextSatisfied decision satisfied s)
    where
      go :
          (tried : Result CleanupError Bool) (after : List String)
          → (may_remove env manifest pass open_handles decision satisfied s).0 ≡ tried
          → IsNextSatisfied (env.host s) manifest.pressure decision.path satisfied after
          → (let step =
                elim tried as (λ _. Result CleanupError Unit × List String × RegistryFile × S) [
                  | err error ↦ (err error, after, file, s)
                  | ok false ↦ (ok tt, after, file, s)
                  | ok true ↦ remove_guarded env manifest pass open_handles decision after file s
                ] in
              IsTurn decision satisfied file s step.1 step.2 step.3)
      go (err error) after e next = record {
        satisfies = next;
        persists = inl refl;
        removes = inl refl;
      }
      go (ok false) after e next = record {
        satisfies = next;
        persists = inl refl;
        removes = inl refl;
      }
      go (ok true) after e next =
          remove_guarded-IsTurn decision satisfied after file s
            (may_remove-MayRemove decision satisfied s e) next

  -- Whatever the registry, the processes and the pull requests do, and also when it ends in an error,
  -- the loop takes the decisions in their order and changes the world only by authorised removals: each
  -- with the registry file and the satisfied filesystems that the turns before it left, which are those
  -- at the start but for expired leases and for what the tests on pressure added.
  pub execute_worktree_removals-AuthorisedRun :
      (decisions : List WorktreeDecision) (satisfied : List String) (file : RegistryFile) (s : S)
      → AuthorisedRun decisions satisfied file s
          (execute_worktree_removals env manifest pass open_handles decisions satisfied file s).3
  unfolding execute_worktree_removals
  execute_worktree_removals-AuthorisedRun [] satisfied file s = finished
  execute_worktree_removals-AuthorisedRun (decision ∷ rest) satisfied file s =
      let step = removal_step env manifest pass open_handles decision satisfied file s in
      turn (removal_step-IsTurn decision satisfied file s) (
        go step.0 step.1 step.2 step.3
          (execute_worktree_removals-AuthorisedRun rest step.1 step.2 step.3))
    where
      go :
          (result : Result CleanupError Unit) (after : List String) (file' : RegistryFile) (s' : S)
          → AuthorisedRun rest after file' s'
              (execute_worktree_removals env manifest pass open_handles rest after file' s').3
          → AuthorisedRun rest after file' s'
              (elim result as (λ _. Result CleanupError Unit × List String × RegistryFile × S) [
                | err error ↦ (err error, after, file', s')
                | ok _ ↦
                    execute_worktree_removals env manifest pass open_handles rest after file' s'
              ]).3
      go (err error) after file' s' continued = finished
      go (ok _) after file' s' continued = continued
