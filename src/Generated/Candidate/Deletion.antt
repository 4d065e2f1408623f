-- ===== src/Generated/Candidate/Deletion.antt =====
-- What the scan of src/lib.rs guarantees about the generated directories that it plans to delete.
use worktree_gc.Base.{
  ℕ, ℤ, ◌≤◌, ◌≡◌, ◌⊎◌, inl, inr, refl, Bool, true, false, not, ◌&&◌, ◌||◌, List, [], ◌∷◌, map,
  Option, none, some, any-false, All, arith, Bool-cases, Option-cases, none≢some, some-eq-some,
}
use worktree_gc.FilePath.{FilePath}
use worktree_gc.PullRequest.{age_days}
use worktree_gc.Protection.Guard.{protection_for_path}
use worktree_gc.Pressure.{PressurePolicy}
use worktree_gc.Worktree.Execution.{dirs_with_open_handles_using}
use worktree_gc.Generated.{SweepDecision, is_delete}
use worktree_gc.Generated.Config.{
  GeneratedCandidateAction, candidate_delete, candidate_report_only, candidate_sweep_only,
  effective_days,
}
use worktree_gc.Generated.Candidate.{
  ScanInputs, GeneratedCandidate, Assessment, path_is_under, is_less, is_listed,
}
use worktree_gc.Generated.Candidate.Assess.{
  is_absent, assess, is_deletable, is_available, candidate_days, worktree_recent, dir_recent,
}
use worktree_gc.Generated.Candidate.Decide.{
  generated_verdict, unprotected_verdict, unowned_verdict, info_of, is_reported, is_sweep_only,
  sweep_or, sweep_only_verdict,
}

unowned_verdict-delete :
    (inputs : ScanInputs) (candidate : GeneratedCandidate) (found : Assessment)
    (sweeps : List SweepDecision)
    → is_delete (unowned_verdict inputs candidate found sweeps).action ≡ true
    → (is_sweep_only candidate.action ≡ false)
      × ((found.active && not found.owner_free_pressure) ≡ false)
      × (found.has_tracked_files ≡ false)
unfolding unowned_verdict sweep_only_verdict sweep_or
unowned_verdict-delete inputs candidate found sweeps h = (ground arith, ground arith, ground arith)

unprotected_verdict-delete :
    (inputs : ScanInputs) (candidate : GeneratedCandidate) (found : Assessment)
    (sweeps : List SweepDecision)
    → is_delete (unprotected_verdict inputs candidate found sweeps).action ≡ true
    → ((inputs.policy.check_worktree_in_use && not found.ownership_evidence_complete) ≡ false)
      × (found.in_use ≡ false)
      × (found.worktree_in_use ≡ false)
      × (is_delete (unowned_verdict inputs candidate found sweeps).action ≡ true)
unfolding unprotected_verdict sweep_or
unprotected_verdict-delete inputs candidate found sweeps h =
    (ground arith, ground arith, ground arith, ground arith)

generated_verdict-delete :
    (inputs : ScanInputs) (candidate : GeneratedCandidate) (found : Assessment)
    (sweeps : List SweepDecision)
    → is_delete (generated_verdict inputs candidate found sweeps).action ≡ true
    → (is_reported candidate.action ≡ false)
      × (found.protection ≡ none)
      × (is_delete (unprotected_verdict inputs candidate found sweeps).action ≡ true)
unfolding generated_verdict
generated_verdict-delete inputs candidate found sweeps h = elim (Option-cases found.protection) [
  | inl e ↦ (ground (arith, e), e, ground (arith, e))
  | inr (lease, e) ↦ absurd (ground (arith, e))
]

is_deletable_of_others :
    (action : GeneratedCandidateAction)
    → is_reported action ≡ false
    → is_sweep_only action ≡ false
    → is_deletable action ≡ true
is_deletable_of_others candidate_delete r s = refl
is_deletable_of_others candidate_report_only r s = cc
is_deletable_of_others candidate_sweep_only r s = cc

-- The Boolean content of the two tests on `in_use` and on `active`.
not_in_use :
    (c d t a o k w p check : Bool)
    → d ≡ true
    → t ≡ false
    → (a && not (o && k && not w && not c && p && d && not t)) ≡ false
    → (c && ((d && not a && not t) || o || check)) ≡ false
    → c ≡ false
not_in_use c d t a o k w p check h1 h2 h3 h4 = ground arith

-- A directory in use is seen to be in use whenever it could be deleted.
assess-idle :
    (inputs : ScanInputs) (candidate : GeneratedCandidate) (applies : Bool)
    → is_deletable candidate.action ≡ true
    → (assess inputs candidate applies).has_tracked_files ≡ false
    → ((assess inputs candidate applies).active
        && not (assess inputs candidate applies).owner_free_pressure)
      ≡ false
    → (assess inputs candidate applies).in_use ≡ false
    → (assess inputs candidate applies).candidate_in_use ≡ false
unfolding assess
assess-idle inputs candidate applies d t a u =
    let found = assess inputs candidate applies in
    not_in_use found.candidate_in_use (is_deletable candidate.action) found.has_tracked_files
      found.active found.owner_free_pressure_candidate found.ownership_evidence_complete
      found.worktree_in_use (is_absent found.protection) inputs.policy.check_worktree_in_use d t a u

-- The list of the directories with an open file does not have the path.
abbrev pub IsClosed : ScanInputs → List FilePath → FilePath → Type 0
IsClosed inputs paths path =
    is_listed path
      (dirs_with_open_handles_using paths inputs.policy.open_handle_snapshot inputs.captured)
    ≡ false

-- Neither the worktree, unless the policy leaves it out, nor the directory was active within the days.
pub record IsInactive (inputs : ScanInputs) (candidate : GeneratedCandidate) (days : ℕ)
    : Type 0 where
  pub not_current :
      inputs.policy.generated_activity_only ≡ false → inputs.worktree.is_current ≡ false
  pub worktree_old :
      inputs.policy.generated_activity_only ≡ false
      → (age : ℕ) → inputs.worktree.activity_age_days ≡ some age
      → days ≤ age
  pub directory_old :
      (unix : ℤ) (age : ℕ)
      → candidate.mtime_unix ≡ some unix
      → age_days inputs.policy.now unix ≡ some age
      → days ≤ age

-- Pressure cleanup that may ignore the age: it applies to the worktree, is configured to go by the
-- absence of owners, and a complete snapshot shows no open file in the worktree or the directory.
pub record IsOwnerFree (inputs : ScanInputs) (candidate : GeneratedCandidate) (applies : Bool)
    : Type 0 where
  pub applied : applies ≡ true
  pub policy : PressurePolicy
  pub configured : inputs.policy.pressure ≡ some policy
  pub enabled : policy.owner_free_generated ≡ true
  pub checked : inputs.policy.check_in_use ≡ true
  pub complete : is_available inputs.policy.open_handle_snapshot ≡ true
  pub worktree_closed : IsClosed inputs (inputs.worktree.path ∷ []) inputs.worktree.path
  pub directory_closed :
      IsClosed inputs (map (λ (c : GeneratedCandidate). c.path) inputs.candidates) candidate.path

-- The window of the candidate, which pressure shortens where it applies.
abbrev pub days_of : ScanInputs → GeneratedCandidate → Bool → ℕ
days_of inputs candidate applies =
    candidate_days inputs (effective_days inputs.config candidate.name inputs.policy.generated_days)
      applies

-- What holds of a directory that is deleted, in terms of what the scan reads.
pub record IsDeletable (inputs : ScanInputs) (candidate : GeneratedCandidate) (applies : Bool)
    : Type 0 where
  pub configured : candidate.action ≡ candidate_delete
  pub unprotected : protection_for_path inputs.machine inputs.protections candidate.path ≡ none
  pub untracked :
      All (λ path. path_is_under path candidate.relative_key ≡ false) inputs.tracked_paths
  pub idle :
      inputs.policy.check_in_use ≡ true
      → IsClosed inputs (map (λ (c : GeneratedCandidate). c.path) inputs.candidates) candidate.path
  pub unowned :
      inputs.policy.check_worktree_in_use ≡ true
      → (inputs.policy.check_in_use ≡ true)
        × (is_available inputs.policy.open_handle_snapshot ≡ true)
        × IsClosed inputs (inputs.worktree.path ∷ []) inputs.worktree.path
  pub inactive :
      IsInactive inputs candidate (days_of inputs candidate applies)
      ⊎ IsOwnerFree inputs candidate applies

is_deletable-true :
    (action : GeneratedCandidateAction) → is_deletable action ≡ true → action ≡ candidate_delete
is_deletable-true candidate_delete h = refl
is_deletable-true candidate_report_only h = cc
is_deletable-true candidate_sweep_only h = cc

is_less-false :
    (found : Option ℕ) (days age : ℕ) → is_less found days ≡ false → found ≡ some age → days ≤ age
is_less-false none days age h e = absurd (none≢some e)
is_less-false (some a) days age h e = let same = some-eq-some e in ground (arith, same, h)

IsInactive-of_tests :
    (inputs : ScanInputs) (candidate : GeneratedCandidate) (days : ℕ)
    → worktree_recent inputs days ≡ false
    → dir_recent inputs candidate days ≡ false
    → IsInactive inputs candidate days
IsInactive-of_tests inputs candidate days w d = record {
  not_current = λ o. ground (arith, w, o);
  worktree_old =
      λ o age e. is_less-false inputs.worktree.activity_age_days days age (ground (arith, w, o)) e;
  directory_old = λ unix age m e.
      is_less-false (age_days inputs.policy.now unix) days age (ground (arith, d, m)) e;
}

IsOwnerFree-of_flags :
    (inputs : ScanInputs) (candidate : GeneratedCandidate) (applies : Bool)
    → (assess inputs candidate applies).owner_free_pressure ≡ true
    → IsOwnerFree inputs candidate applies
unfolding assess
IsOwnerFree-of_flags inputs candidate applies h = elim (Option-cases inputs.policy.pressure) [
  | inl e ↦ absurd (ground (arith, e, h))
  | inr (policy, e) ↦ record {
    applied = ground (arith, h);
    policy = policy;
    configured = e;
    enabled = ground (arith, e, h);
    checked = ground (arith, h);
    complete = ground (arith, h);
    worktree_closed = ground (arith, h);
    directory_closed = ground (arith, h);
  }
]

-- A directory is deleted only if its name is to be deleted, no lease covers it and Git tracks no path in
-- it. Where processes are looked at, none has a file of it open; where the worktree is to be unused,
-- processes are looked at, their snapshot is complete and none has a file of the worktree open. And
-- either neither worktree nor directory was active within the days of its window, or pressure cleanup
-- applies that may ignore the age, with a complete snapshot in which neither has an open file.
pub deletion_lem :
    (inputs : ScanInputs) (candidate : GeneratedCandidate) (applies : Bool)
    (sweeps : List SweepDecision)
    → is_delete (info_of inputs candidate (assess inputs candidate applies) sweeps).action ≡ true
    → IsDeletable inputs candidate applies
unfolding info_of generated_verdict assess
deletion_lem inputs candidate applies sweeps h =
    let found = assess inputs candidate applies in
    let (reported, unprotected, h1) = generated_verdict-delete inputs candidate found sweeps h in
    let (observed, in_use, unowned, h2) =
      unprotected_verdict-delete inputs candidate found sweeps h1 in
    let (swept, active, untracked) = unowned_verdict-delete inputs candidate found sweeps h2 in
    let configured = is_deletable_of_others candidate.action reported swept in
    let idle = assess-idle inputs candidate applies configured untracked active in_use in
    record {
      configured = is_deletable-true candidate.action configured;
      unprotected = unprotected;
      untracked =
          any-false (λ path. path_is_under path candidate.relative_key) inputs.tracked_paths
            untracked;
      idle = λ c. ground (arith, c, idle);
      unowned = λ c. (
        ground (arith, c, observed),
        ground (arith, c, observed),
        ground (arith, c, observed, unowned),
      );
      inactive = elim (Bool-cases found.active) [
        | inr e ↦ inl (
            IsInactive-of_tests inputs candidate (days_of inputs candidate applies)
              (ground (arith, e)) (ground (arith, e)))
        | inl e ↦ inr (IsOwnerFree-of_flags inputs candidate applies (ground (arith, e, active)))
      ];
    }
