-- ===== src/Worktree/Classes.antt =====
-- What the planner of src/lib.rs guarantees about pressure cleanup, about pruned metadata and about
-- the plan as a whole.
use worktree_gc.Base.{
  ℕ, ◌≤◌, ◌<◌, ◌≡◌, ◌≢◌, inl, inr, refl, sym, subst, ◌∙◌, Bool, true, false, List, [], ◌∷◌, Option,
  none, some, arith, Option-cases, ok, >>=-eq-ok, ok-injective, none≢some,
}
use worktree_gc.PullRequest.{most_recent_merged_pull_request}
use worktree_gc.Protection.Guard.{protection_for_path}
use worktree_gc.Worktree.{
  WorktreeInfo, WorktreeRemovalTrigger, WorktreeAction, WorktreeDecision, age_trigger,
  merged_pull_request, remove_worktree, keep_worktree, prune_metadata, pressure_class,
}
use worktree_gc.Worktree.Plan.{
  PlanInputs, Verdict, effective_days, commit_age, evidence_of, is_old_enough, is_younger,
  verdict_by_age, verdict_by_merge, verdict_by_evidence, verdict_on_branch, metadata_prunable_of,
  worktree_verdict, is_age_removal, cleanup_class_of, decision_of, applies_to,
  plan_worktree_cleanup_with_pull_requests,
}
use worktree_gc.Worktree.Planning.{HasAuthority, IsQuiet, removal_authorised, authorised_removed}

is_age_removal-true :
    (verdict : Verdict)
    → is_age_removal verdict ≡ true
    → (verdict.action ≡ remove_worktree) × (verdict.removal_trigger ≡ some age_trigger)
is_age_removal-true verdict h = go verdict.action verdict.removal_trigger refl refl h
  where
    go :
        (action : WorktreeAction) (trigger : Option WorktreeRemovalTrigger)
        → verdict.action ≡ action
        → verdict.removal_trigger ≡ trigger
        → ◌≡◌ {A = Bool}
            (elim action [
              | remove_worktree ↦ elim trigger [ some age_trigger ↦ true | _ ↦ false ]
              | _ ↦ false
            ])
            true
        → (verdict.action ≡ remove_worktree) × (verdict.removal_trigger ≡ some age_trigger)
    go remove_worktree (some age_trigger) a t k = (a, t)
    go remove_worktree (some merged_pull_request) a t k = cc
    go remove_worktree none a t k = cc
    go keep_worktree trigger a t k = cc
    go prune_metadata trigger a t k = cc

age_removal_old :
    (inputs : PlanInputs) (worktree : WorktreeInfo) (applies : Bool)
    → (worktree_verdict inputs worktree applies).action ≡ remove_worktree
    → (worktree_verdict inputs worktree applies).removal_trigger ≡ some age_trigger
    → is_old_enough inputs worktree applies ≡ true
unfolding decision_of
age_removal_old inputs worktree applies action triggered =
    let (quiet, (trigger, same, authority)) = removal_authorised inputs worktree applies action in
    go trigger (sym same ∙ triggered) authority
  where
    go :
        (trigger : WorktreeRemovalTrigger)
        → some trigger ≡ some age_trigger
        → HasAuthority inputs worktree applies trigger
        → is_old_enough inputs worktree applies ≡ true
    go age_trigger e authority = authority.0
    go merged_pull_request e authority = cc

-- A decision of the pressure class removes a worktree for its age, on a path to which pressure applies,
-- with a last commit that is younger than the routine window.
pub pressure_class_lem :
    (inputs : PlanInputs) (worktree : WorktreeInfo) (applies : Bool)
    → (decision_of inputs worktree applies).cleanup_class ≡ pressure_class
    → ((decision_of inputs worktree applies).action ≡ remove_worktree)
      × ((decision_of inputs worktree applies).removal_trigger ≡ some age_trigger)
      × (applies ≡ true)
      × (days : ℕ) × (commit_age inputs worktree ≡ some days)
      × (effective_days inputs applies ≤ days)
      × (days < inputs.stale_days)
unfolding decision_of cleanup_class_of
pressure_class_lem inputs worktree applies h =
    let verdict = worktree_verdict inputs worktree applies in
    let age : is_age_removal verdict ≡ true = ground arith in
    let (action, trigger) = is_age_removal-true verdict age in
    let under : applies ≡ true = ground arith in
    let younger : is_younger (commit_age inputs worktree) inputs.stale_days ≡ true = ground arith in
    elim (Option-cases (commit_age inputs worktree)) [
      | inl c ↦ absurd (ground (arith, c))
      | inr (days, c) ↦ (
        action,
        trigger,
        under,
        days,
        c,
        ground (arith, c, age_removal_old inputs worktree applies action trigger),
        ground (arith, c),
      )
    ]

verdict_on_branch-not_prune :
    (inputs : PlanInputs) (worktree : WorktreeInfo) (applies : Bool)
    → (verdict_on_branch inputs worktree applies).action ≢ prune_metadata
unfolding verdict_on_branch verdict_by_evidence verdict_by_merge verdict_by_age
verdict_on_branch-not_prune inputs worktree applies h =
    elim (Option-cases inputs.pull_request_policy) [
      | inl p ↦ ground (arith, p)
      | inr (policy, p) ↦ elim (Option-cases (evidence_of inputs worktree)) [
        | inl e ↦ ground (arith, p, e)
        | inr (evidence, e) ↦
            elim (Option-cases (most_recent_merged_pull_request evidence inputs.now)) [
              | inl m ↦ ground (arith, p, e, m)
              | inr ((request, age), m) ↦ ground (arith, p, e, m)
            ]
      ]
    ]

-- Only the metadata of worktrees that no lease covers is pruned, and of all those that are prunable or
-- absent.
pub prune_metadata_iff :
    (inputs : PlanInputs) (worktree : WorktreeInfo) (applies : Bool)
    → ((decision_of inputs worktree applies).action ≡ prune_metadata
        → (protection_for_path inputs.machine inputs.protections worktree.path ≡ none)
          × (metadata_prunable_of worktree ≡ true))
      × ((protection_for_path inputs.machine inputs.protections worktree.path ≡ none)
            × (metadata_prunable_of worktree ≡ true)
          → (decision_of inputs worktree applies).action ≡ prune_metadata)
unfolding decision_of worktree_verdict
prune_metadata_iff inputs worktree applies =
    elim (Option-cases (protection_for_path inputs.machine inputs.protections worktree.path)) [
      | inl e ↦ (
        (λ h. (e, ground (arith, e, verdict_on_branch-not_prune inputs worktree applies))),
        λ (free, prunable). ground (arith, e, prunable),
      )
      | inr (lease, e) ↦
          ((λ h. absurd (ground (arith, e))), λ (free, _). absurd (none≢some (sym free ∙ e)))
    ]

-- One decision for each worktree, in order: about its path, and removing it only with authority.
abbrev pub IsPlanOf : PlanInputs → List WorktreeInfo → List WorktreeDecision → Type 0
IsPlanOf inputs [] [] = Unit
IsPlanOf inputs [] (decision ∷ later) = ⊥
IsPlanOf inputs (worktree ∷ rest) [] = ⊥
IsPlanOf inputs (worktree ∷ rest) (decision ∷ later) =
    ((applies : Bool) × (applies_to inputs worktree ≡ ok applies)
      × (decision.path ≡ worktree.path)
      × (decision.head ≡ worktree.head)
      × (decision.branch ≡ worktree.branch)
      × (decision.action ≡ remove_worktree
          → IsQuiet inputs worktree
            × ((trigger : WorktreeRemovalTrigger) × (decision.removal_trigger ≡ some trigger)
                × HasAuthority inputs worktree applies trigger)))
    × IsPlanOf inputs rest later

-- A plan that succeeds has one decision for each worktree, in their order and with their path, head
-- and branch, and every removal in it has authority.
pub plan-IsPlanOf :
    (inputs : PlanInputs) (worktrees : List WorktreeInfo) (decisions : List WorktreeDecision)
    → plan_worktree_cleanup_with_pull_requests inputs worktrees ≡ ok decisions
    → IsPlanOf inputs worktrees decisions
unfolding plan_worktree_cleanup_with_pull_requests
plan-IsPlanOf inputs [] decisions h = subst (IsPlanOf inputs []) (ok-injective h) tt
plan-IsPlanOf inputs (worktree ∷ rest) decisions h =
    let (applies, a, h1) = >>=-eq-ok (applies_to inputs worktree) _ h in
    let (later, l, h2) = >>=-eq-ok (plan_worktree_cleanup_with_pull_requests inputs rest) _ h1 in
    subst (IsPlanOf inputs (worktree ∷ rest)) (ok-injective h2) (
      (
        applies,
        a,
        unfold decision_of in refl,
        unfold decision_of in refl,
        unfold decision_of in refl,
        removal_authorised inputs worktree applies,
      ),
      plan-IsPlanOf inputs rest later l,
    )

is_old_enough_widens :
    (inputs : PlanInputs) (worktree : WorktreeInfo)
    → is_old_enough inputs worktree false ≡ true
    → is_old_enough inputs worktree true ≡ true
unfolding effective_days
is_old_enough_widens inputs worktree h = elim (Option-cases (commit_age inputs worktree)) [
  | inl c ↦ absurd (ground (arith, c))
  | inr (days, c) ↦ elim (Option-cases inputs.pressure) [
    | inl p ↦ ground (arith, c, p)
    | inr (policy, p) ↦ ground (arith, c, p)
  ]
]

HasAuthority-widens :
    (inputs : PlanInputs) (worktree : WorktreeInfo) (trigger : WorktreeRemovalTrigger)
    → HasAuthority inputs worktree false trigger
    → HasAuthority inputs worktree true trigger
HasAuthority-widens inputs worktree age_trigger (old, settled) =
    (is_old_enough_widens inputs worktree old, settled)
HasAuthority-widens inputs worktree merged_pull_request authority = authority

-- Pressure only adds removals: what is removed without it is removed under it, for the same trigger.
pub pressure_widens :
    (inputs : PlanInputs) (worktree : WorktreeInfo)
    → (decision_of inputs worktree false).action ≡ remove_worktree
    → ((decision_of inputs worktree true).action ≡ remove_worktree)
      × ((decision_of inputs worktree true).removal_trigger
          ≡ (decision_of inputs worktree false).removal_trigger)
pressure_widens inputs worktree h =
    let (quiet, (trigger, same, authority)) = removal_authorised inputs worktree false h in
    let (action, triggered) =
      authorised_removed inputs worktree true trigger quiet
        (HasAuthority-widens inputs worktree trigger authority) in
    (action, triggered ∙ sym same)
