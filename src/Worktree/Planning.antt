-- ===== src/Worktree/Planning.antt =====
-- What the planner of src/lib.rs guarantees about the worktrees that it removes and prunes.
use worktree_gc.Base.{
  is_some, ℕ, ◌≤◌, ◌≡◌, ◌⊎◌, inl, inr, sym, ap, subst, Bool, true, false, none, some, arith,
  Bool-cases, Option-cases,
}
use worktree_gc.PullRequest.{
  PullRequestPolicy, PullRequestEvidence, PullRequestRecord, lifecycle_beq, open_lifecycle,
  merged_lifecycle, most_recent_merged_pull_request,
}
use worktree_gc.Protection.Guard.{protection_for_path}
use worktree_gc.Worktree.{
  WorktreeInfo, WorktreeRemovalTrigger, age_trigger, merged_pull_request, remove_worktree,
}
use worktree_gc.Worktree.Plan.{
  PlanInputs, Verdict, unwrap_or, is_owned, evidence_of, is_old_enough, verdict_by_age,
  verdict_by_merge, verdict_by_evidence, verdict_on_branch, worktree_verdict, decision_of,
}

-- What holds of every worktree that is removed.
pub record IsQuiet (inputs : PlanInputs) (worktree : WorktreeInfo) : Type 0 where
  pub unprotected : protection_for_path inputs.machine inputs.protections worktree.path ≡ none
  pub registered : worktree.prunable ≡ none
  pub present : worktree.exists ≡ true
  pub not_current : worktree.is_current ≡ false
  pub clean : unwrap_or worktree.dirty_count 0 ≡ 0
  pub attached : worktree.detached ≡ false
  pub on_branch : is_some worktree.branch ≡ true
  pub observed : inputs.ownership_evidence_complete ≡ true
  pub unowned : is_owned inputs worktree.path ≡ false

-- The age is the authority: the last commit is as old as the window, and the pull requests, if there
-- is a policy on them, are completely known and neither open nor merged.
abbrev pub IsAged : PlanInputs → WorktreeInfo → Bool → Type 0
IsAged inputs worktree applies =
    (is_old_enough inputs worktree applies ≡ true)
    × ((inputs.pull_request_policy ≡ none)
        ⊎ ((evidence : PullRequestEvidence) × (is_some inputs.pull_request_policy ≡ true)
            × (evidence_of inputs worktree ≡ some evidence)
            × (evidence.complete ≡ true)
            × (lifecycle_beq evidence.lifecycle open_lifecycle ≡ false)
            × (lifecycle_beq evidence.lifecycle merged_lifecycle ≡ false)))

-- A merge is the authority: the complete evidence for the exact branch and head is a merge older than
-- the grace period.
abbrev pub IsMerged : PlanInputs → WorktreeInfo → Type 0
IsMerged inputs worktree =
    (policy : PullRequestPolicy) × (evidence : PullRequestEvidence) × (request : PullRequestRecord)
    × (age : ℕ) × (inputs.pull_request_policy ≡ some policy)
    × (evidence_of inputs worktree ≡ some evidence)
    × (evidence.complete ≡ true)
    × (lifecycle_beq evidence.lifecycle open_lifecycle ≡ false)
    × (lifecycle_beq evidence.lifecycle merged_lifecycle ≡ true)
    × (most_recent_merged_pull_request evidence inputs.now ≡ some (request, age))
    × (policy.merged_grace_days ≤ age)

abbrev pub HasAuthority : PlanInputs → WorktreeInfo → Bool → WorktreeRemovalTrigger → Type 0
HasAuthority inputs worktree applies age_trigger = IsAged inputs worktree applies
HasAuthority inputs worktree applies merged_pull_request = IsMerged inputs worktree

-- The verdict of the branches behind the tests of `IsQuiet`.
abbrev Removes : Verdict → WorktreeRemovalTrigger → Type 0
Removes verdict trigger =
    (verdict.action ≡ remove_worktree) × (verdict.removal_trigger ≡ some trigger)

abbrev IsFree : PlanInputs → WorktreeInfo → Type 0
IsFree inputs worktree =
    (inputs.ownership_evidence_complete ≡ true) × (is_owned inputs worktree.path ≡ false)

verdict_by_age-Removes :
    (inputs : PlanInputs) (worktree : WorktreeInfo) (applies : Bool)
    → (verdict_by_age inputs worktree applies).action ≡ remove_worktree
    → Removes (verdict_by_age inputs worktree applies) age_trigger
      × (is_old_enough inputs worktree applies ≡ true)
      × IsFree inputs worktree
unfolding verdict_by_age
verdict_by_age-Removes inputs worktree applies h =
    elim (Bool-cases (is_old_enough inputs worktree applies)) [
      | inl e ↦ ((h, ground (arith, e)), e, (ground (arith, e), ground (arith, e)))
      | inr e ↦ absurd (ground (arith, e))
    ]

verdict_by_merge-Removes :
    (inputs : PlanInputs) (worktree : WorktreeInfo) (policy : PullRequestPolicy)
    (request : PullRequestRecord) (age : ℕ)
    → (verdict_by_merge inputs worktree policy request age).action ≡ remove_worktree
    → Removes (verdict_by_merge inputs worktree policy request age) merged_pull_request
      × (policy.merged_grace_days ≤ age)
      × IsFree inputs worktree
unfolding verdict_by_merge
verdict_by_merge-Removes inputs worktree policy request age h =
    ((h, ground arith), ground arith, (ground arith, ground arith))

verdict_by_evidence-Removes :
    (inputs : PlanInputs) (worktree : WorktreeInfo) (applies : Bool) (policy : PullRequestPolicy)
    (evidence : PullRequestEvidence)
    → inputs.pull_request_policy ≡ some policy
    → evidence_of inputs worktree ≡ some evidence
    → (verdict_by_evidence inputs worktree applies policy evidence).action ≡ remove_worktree
    → (trigger : WorktreeRemovalTrigger) × Removes
        (verdict_by_evidence inputs worktree applies policy evidence)
        trigger
      × HasAuthority inputs worktree applies trigger
      × IsFree inputs worktree
unfolding verdict_by_evidence
verdict_by_evidence-Removes inputs worktree applies policy evidence p e h =
    elim (Bool-cases (lifecycle_beq evidence.lifecycle merged_lifecycle)) [
      | inr m ↦
          let same : verdict_by_evidence inputs worktree applies policy evidence
              ≡ verdict_by_age inputs worktree applies =
            ground (arith, m) in
          let (removes, old, free) =
            verdict_by_age-Removes inputs worktree applies
              (subst (λ v. v.action ≡ remove_worktree) same h) in
          (
            age_trigger,
            subst (λ v. Removes v age_trigger) (sym same) removes,
            (old, inr (evidence, ap is_some p, e, ground (arith, m), ground (arith, m), m)),
            free,
          )
      | inl m ↦ elim (Option-cases (most_recent_merged_pull_request evidence inputs.now)) [
        | inl none_found ↦ absurd (ground (arith, m, none_found))
        | inr ((request, age), found) ↦
            let same : verdict_by_evidence inputs worktree applies policy evidence
                ≡ verdict_by_merge inputs worktree policy request age =
              ground (arith, m, found) in
            let (removes, grace, free) =
              verdict_by_merge-Removes inputs worktree policy request age
                (subst (λ v. v.action ≡ remove_worktree) same h) in
            (
              merged_pull_request,
              subst (λ v. Removes v merged_pull_request) (sym same) removes,
              (
                policy,
                evidence,
                request,
                age,
                p,
                e,
                ground (arith, m, found),
                ground (arith, m, found),
                m,
                found,
                grace,
              ),
              free,
            )
      ]
    ]

verdict_on_branch-Removes :
    (inputs : PlanInputs) (worktree : WorktreeInfo) (applies : Bool)
    → (verdict_on_branch inputs worktree applies).action ≡ remove_worktree
    → (trigger : WorktreeRemovalTrigger) × Removes
        (verdict_on_branch inputs worktree applies)
        trigger
      × HasAuthority inputs worktree applies trigger
      × IsFree inputs worktree
unfolding verdict_on_branch
verdict_on_branch-Removes inputs worktree applies h =
    elim (Option-cases inputs.pull_request_policy) [
      | inl p ↦
          let same : verdict_on_branch inputs worktree applies
              ≡ verdict_by_age inputs worktree applies =
            ground (arith, p) in
          let (removes, old, free) =
            verdict_by_age-Removes inputs worktree applies
              (subst (λ v. v.action ≡ remove_worktree) same h) in
          (age_trigger, subst (λ v. Removes v age_trigger) (sym same) removes, (old, inl p), free)
      | inr (policy, p) ↦ elim (Option-cases (evidence_of inputs worktree)) [
        | inl e ↦ absurd (ground (arith, p, e))
        | inr (evidence, e) ↦
            let same : verdict_on_branch inputs worktree applies
                ≡ verdict_by_evidence inputs worktree applies policy evidence =
              ground (arith, p, e) in
            subst
              (λ v.
                (trigger : WorktreeRemovalTrigger) × Removes v trigger
                × HasAuthority inputs worktree applies trigger
                × IsFree inputs worktree)
              (sym same)
              (verdict_by_evidence-Removes inputs worktree applies policy evidence p e
                (subst (λ v. v.action ≡ remove_worktree) same h))
      ]
    ]

-- A worktree is removed only if no lease covers it, it is a present, clean worktree on a branch that is
-- not the current one and that no process owns on complete evidence, and its trigger has authority:
-- the age of the last commit with no open or merged pull request, or a merge past the grace period.
pub removal_authorised :
    (inputs : PlanInputs) (worktree : WorktreeInfo) (applies : Bool)
    → (decision_of inputs worktree applies).action ≡ remove_worktree
    → IsQuiet inputs worktree
      × ((trigger : WorktreeRemovalTrigger) × ((decision_of inputs worktree applies).removal_trigger
            ≡ some trigger)
          × HasAuthority inputs worktree applies trigger)
unfolding decision_of worktree_verdict
removal_authorised inputs worktree applies h =
    elim (Option-cases (protection_for_path inputs.machine inputs.protections worktree.path)) [
      | inr (lease, e) ↦ absurd (ground (arith, e))
      | inl e ↦
          let same : worktree_verdict inputs worktree applies
              ≡ verdict_on_branch inputs worktree applies =
            ground (arith, e) in
          let (trigger, removes, authority, free) =
            verdict_on_branch-Removes inputs worktree applies
              (subst (λ v. v.action ≡ remove_worktree) same h) in
          (
            record {
              unprotected = e;
              registered = elim (Option-cases worktree.prunable) [
                | inl none_known ↦ none_known
                | inr (why, known) ↦ absurd (ground (arith, e, known))
              ];
              present = ground (arith, e);
              not_current = ground (arith, e);
              clean = ground (arith, e);
              attached = ground (arith, e);
              on_branch = ground (arith, e);
              observed = free.0;
              unowned = free.1;
            },
            (
              trigger,
              subst (λ v. v.removal_trigger ≡ some trigger) (sym same) removes.1,
              authority,
            ),
          )
    ]

verdict_on_branch-authorised :
    (inputs : PlanInputs) (worktree : WorktreeInfo) (applies : Bool)
    (trigger : WorktreeRemovalTrigger)
    → IsFree inputs worktree
    → HasAuthority inputs worktree applies trigger
    → Removes (verdict_on_branch inputs worktree applies) trigger
unfolding verdict_on_branch verdict_by_age verdict_by_merge verdict_by_evidence
verdict_on_branch-authorised inputs worktree applies age_trigger free (old, inl p) =
    (ground (arith, p), ground (arith, p))
verdict_on_branch-authorised inputs worktree applies age_trigger free
      (old, inr (evidence, given, e, complete, o, m)) =
    elim (Option-cases inputs.pull_request_policy) [
      | inl p ↦ absurd (ground (arith, p))
      | inr (policy, p) ↦ (ground (arith, p), ground (arith, p))
    ]
verdict_on_branch-authorised inputs worktree applies merged_pull_request free
      (policy, evidence, request, age, p, e, complete, o, m, found, grace) =
    (ground (arith, p, e, found), ground (arith, p, e, found))

-- A worktree that no lease covers, that is present, clean, on a branch, not current and on complete
-- evidence not owned is removed whenever a trigger has authority, and for that trigger.
pub authorised_removed :
    (inputs : PlanInputs) (worktree : WorktreeInfo) (applies : Bool)
    (trigger : WorktreeRemovalTrigger)
    → IsQuiet inputs worktree
    → HasAuthority inputs worktree applies trigger
    → ((decision_of inputs worktree applies).action ≡ remove_worktree)
      × ((decision_of inputs worktree applies).removal_trigger ≡ some trigger)
unfolding decision_of worktree_verdict
authorised_removed inputs worktree applies trigger quiet authority =
    let same : worktree_verdict inputs worktree applies
        ≡ verdict_on_branch inputs worktree applies =
      let unprotected = quiet.unprotected in
      let registered = quiet.registered in
      let present = quiet.present in
      let not_current = quiet.not_current in
      let clean = quiet.clean in
      let attached = quiet.attached in let on_branch = quiet.on_branch in ground arith in
    subst (λ v. Removes v trigger) (sym same)
      (verdict_on_branch-authorised inputs worktree applies trigger (quiet.observed, quiet.unowned)
        authority)
