-- ===== src/Generated/Reconcile/Safety.antt =====
-- What the reconciliation of src/lib.rs guarantees about the decisions it leaves.
use worktree_gc.Base.{
  ◌≡◌, ◌⊎◌, inl, inr, refl, sym, ap, subst, ◌∙◌, Bool, true, false, List, [], ◌∷◌, map, some, any,
  any-false, All, All-map, arith, Bool-cases, some-eq-some, ok, >>=-eq-ok, ok-injective,
}
use worktree_gc.FilePath.{FilePath, starts_with}
use worktree_gc.Protection.Registry.{IoResult, done, not_found, other_error}
use worktree_gc.Worktree.{WorktreeDecision}
use worktree_gc.Generated.{GeneratedDirDecision, is_delete, has_refused_candidate, unmeasured}
use worktree_gc.Generated.Reconcile.{
  CleanupDecisions, refuse, skip, retained_paths, holds_retained, is_blocked, settle_fuel,
  is_remove, holds_generated, keep_holder, reconcile_structural_cleanup_authority, is_measured,
  is_exempt, routine_removals, require_measurement, require_measurements,
  reconcile_measured_cleanup_authority,
}
use worktree_gc.Generated.Reconcile.Loop.{
  AreDemoted, AreDemoted-trans, AreDemoted-map, refuse-IsDemoted, settle_lem, settle_fuel_enough,
}

-- The decisions after the reconciliation, against those before it.
pub record IsReconciled (before after : CleanupDecisions) : Type 0 where
  pub demoted : AreDemoted before.generated_dirs after.generated_dirs
  pub accepted :
      All
        (λ decision.
          is_delete decision.action ≡ true
          → any (λ sweep. has_refused_candidate sweep) decision.sweeps ≡ false)
        after.generated_dirs
  pub nested :
      All
        (λ decision.
          is_delete decision.action ≡ true
          → holds_retained (retained_paths after.generated_dirs) decision ≡ false)
        after.generated_dirs
  pub held :
      All
        (λ decision.
          is_remove decision.action ≡ true
          → holds_generated (retained_paths after.generated_dirs) decision ≡ false)
        after.worktrees

-- A property of the decisions that delete, which demotion keeps.
AreDemoted-All :
    (P : GeneratedDirDecision → Type 0) (befores afters : List GeneratedDirDecision)
    → AreDemoted befores afters
    → All (λ decision. is_delete decision.action ≡ true → P decision) befores
    → All (λ decision. is_delete decision.action ≡ true → P decision) afters
AreDemoted-All P [] [] d h = tt
AreDemoted-All P [] (after ∷ afters) d h = absurd d
AreDemoted-All P (before ∷ befores) [] d h = absurd d
AreDemoted-All P (before ∷ befores) (after ∷ afters) (inl same, d) h = (
  subst (λ x. is_delete x.action ≡ true → P x) (sym same) h.0,
  AreDemoted-All P befores afters d h.1,
)
AreDemoted-All P (before ∷ befores) (after ∷ afters) (inr (_, _, s), d) h =
    ((λ t. absurd (cc (ap is_delete s, t))), AreDemoted-All P befores afters d h.1)

refuse-accepted :
    (decisions : List GeneratedDirDecision)
    → All
        (λ decision.
          is_delete decision.action ≡ true
          → any (λ sweep. has_refused_candidate sweep) decision.sweeps ≡ false)
        (map refuse decisions)
unfolding refuse
refuse-accepted [] = tt
refuse-accepted (decision ∷ rest) = (ground arith, refuse-accepted rest)

keep_holder-held :
    (paths : List FilePath) (worktrees : List WorktreeDecision)
    → All
        (λ decision. is_remove decision.action ≡ true → holds_generated paths decision ≡ false)
        (map (keep_holder paths) worktrees)
unfolding keep_holder
keep_holder-held paths [] = tt
keep_holder-held paths (decision ∷ rest) = (ground arith, keep_holder-held paths rest)

-- The reconciliation ends, and afterwards: no deletion has a refused sweep candidate or a retained path
-- below it, no removed worktree holds a retained generated path, and the generated decisions differ from
-- those before only in deletions that are skipped.
pub reconcile-IsReconciled :
    (before : CleanupDecisions)
    → (after : CleanupDecisions) × (reconcile_structural_cleanup_authority before ≡ some after)
      × IsReconciled before after
unfolding reconcile_structural_cleanup_authority
reconcile-IsReconciled before =
    let (settled, found) = settle_fuel_enough before.generated_dirs in
    let (stable, demoted) =
      settle_lem (settle_fuel before.generated_dirs) (map refuse before.generated_dirs) settled
        found in
    (
      record {
        generated_dirs = settled;
        worktrees = map (keep_holder (retained_paths settled)) before.worktrees;
      },
      ground (arith, found),
      record {
        demoted =
            AreDemoted-trans before.generated_dirs (map refuse before.generated_dirs) settled
              (AreDemoted-map refuse before.generated_dirs refuse-IsDemoted) demoted;
        accepted =
            AreDemoted-All (λ d. any (λ sweep. has_refused_candidate sweep) d.sweeps ≡ false)
              (map refuse before.generated_dirs) settled demoted
              (refuse-accepted before.generated_dirs);
        nested =
            All-map settled (λ d n t. ground arith)
              (any-false (is_blocked (retained_paths settled)) settled stable);
        held = keep_holder-held (retained_paths settled) before.worktrees;
      },
    )

-- A deletion that stands: it goes with a worktree that is removed, it is gone already, or it is
-- completely measured.
abbrev pub IsMeasured :
    Bool → (FilePath → IoResult (Unit {0})) → List FilePath → GeneratedDirDecision → Type 0
IsMeasured macos symlink_metadata removals decision =
    (any (λ worktree. starts_with decision.path worktree) removals ≡ true)
    ⊎ ((symlink_metadata decision.path ≡ not_found) ⊎ (is_measured macos decision ≡ true))

IoResult-cases :
    {A : Type 0} (r : IoResult A) → ((a : A) × (r ≡ done a)) ⊎ ((r ≡ not_found) ⊎ (r ≡ other_error))
IoResult-cases (done a) = inl (a, refl)
IoResult-cases not_found = inr (inl refl)
IoResult-cases other_error = inr (inr refl)

require_measurement-IsMeasured :
    (macos : Bool) (symlink_metadata : FilePath → IoResult (Unit {0})) (removals : List FilePath)
    (decision after : GeneratedDirDecision)
    → require_measurement macos symlink_metadata removals decision ≡ ok after
    → is_delete after.action ≡ true
    → IsMeasured macos symlink_metadata removals after
unfolding require_measurement
require_measurement-IsMeasured macos symlink_metadata removals decision after h t =
    elim (Bool-cases (is_exempt removals decision)) [
      | inl e ↦
          let same : decision ≡ after = ground (arith, e) in
          let deletes = subst (λ d. is_delete d.action ≡ true) (sym same) t in
          subst (IsMeasured macos symlink_metadata removals) same (inl (ground arith))
      | inr e ↦ elim (IoResult-cases (symlink_metadata decision.path)) [
        | inl (_, m) ↦ elim (Bool-cases (is_measured macos decision)) [
          | inl c ↦
              let same : decision ≡ after = ground (arith, e, m, c) in
              subst (IsMeasured macos symlink_metadata removals) same (inr (inr c))
          | inr c ↦
              let same : skip unmeasured decision ≡ after = ground (arith, e, m, c) in
              absurd (cc (ap (λ d. is_delete d.action) same, t))
        ]
        | inr (inl m) ↦
            let same : decision ≡ after = ground (arith, e, m) in
            subst (IsMeasured macos symlink_metadata removals) same (inr (inl m))
        | inr (inr m) ↦ absurd (ground (arith, e, m))
      ]
    ]

require_measurements-IsMeasured :
    (macos : Bool) (symlink_metadata : FilePath → IoResult (Unit {0})) (removals : List FilePath)
    (decisions after : List GeneratedDirDecision)
    → require_measurements macos symlink_metadata removals decisions ≡ ok after
    → All (λ d. is_delete d.action ≡ true → IsMeasured macos symlink_metadata removals d) after
unfolding require_measurements
require_measurements-IsMeasured macos symlink_metadata removals [] after h =
    subst (All (λ d. is_delete d.action ≡ true → IsMeasured macos symlink_metadata removals d))
      (ok-injective h) tt
require_measurements-IsMeasured macos symlink_metadata removals (decision ∷ rest) after h =
    let (first, f, h1) =
      >>=-eq-ok (require_measurement macos symlink_metadata removals decision) _ h in
    let (later, l, h2) =
      >>=-eq-ok (require_measurements macos symlink_metadata removals rest) _ h1 in
    subst (All (λ d. is_delete d.action ≡ true → IsMeasured macos symlink_metadata removals d))
      (ok-injective h2)
      (
        require_measurement-IsMeasured macos symlink_metadata removals decision first f,
        require_measurements-IsMeasured macos symlink_metadata removals rest later l,
      )

-- After the reconciliation with measurements every deletion that stands goes with a worktree whose
-- routine removal was planned, is gone already, or has a complete measurement without errors.
pub deletion_authority_lem :
    (macos : Bool) (symlink_metadata : FilePath → IoResult (Unit {0}))
    (before after : CleanupDecisions)
    → reconcile_measured_cleanup_authority macos symlink_metadata before ≡ ok (some after)
    → All
        (λ decision.
          is_delete decision.action ≡ true
          → IsMeasured macos symlink_metadata (routine_removals before.worktrees) decision)
        after.generated_dirs
unfolding reconcile_measured_cleanup_authority
deletion_authority_lem macos symlink_metadata before after h =
    let removals = routine_removals before.worktrees in
    let (measured, m, h1) =
      >>=-eq-ok (require_measurements macos symlink_metadata removals before.generated_dirs) _ h in
    let (reconciled, found, safe) =
      reconcile-IsReconciled (record before { generated_dirs = measured }) in
    let same : reconciled ≡ after = some-eq-some (sym found ∙ ok-injective h1) in
    AreDemoted-All (IsMeasured macos symlink_metadata removals) measured after.generated_dirs
      (subst (λ a. AreDemoted measured a.generated_dirs) same safe.demoted)
      (require_measurements-IsMeasured macos symlink_metadata removals before.generated_dirs
        measured m)
