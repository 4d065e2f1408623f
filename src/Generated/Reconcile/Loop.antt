-- ===== src/Generated/Reconcile/Loop.antt =====
-- The loop of `reconcile_structural_cleanup_authority`, src/lib.rs: it ends, and what it leaves.
use worktree_gc.Base.{
  ℕ, zero, suc, ◌≤◌, ◌<◌, ◌≡◌, ◌⊎◌, inl, inr, refl, sym, ap, subst, ◌∙◌, true, false, List, [], ◌∷◌,
  map, some, any, length, arith, if◌then◌else◌, Bool-cases, some-eq-some, length-map,
}
use worktree_gc.FilePath.{FilePath}
use worktree_gc.Generated.{
  GeneratedDirDecision, is_delete, skip_generated, nested_retained, refused_sweep,
}
use worktree_gc.Generated.Reconcile.{
  skip, refuse, is_refused_delete, retained_paths, is_blocked, block, turn, settle, settle_fuel,
}

-- A decision stays, or a deletion becomes a skip of the same path.
abbrev pub IsDemoted : GeneratedDirDecision → GeneratedDirDecision → Type 0
IsDemoted before after =
    (after ≡ before)
    ⊎ ((is_delete before.action ≡ true)
        × (after.path ≡ before.path)
        × (after.action ≡ skip_generated))

abbrev pub AreDemoted : List GeneratedDirDecision → List GeneratedDirDecision → Type 0
AreDemoted [] [] = Unit
AreDemoted [] (after ∷ afters) = ⊥
AreDemoted (before ∷ befores) [] = ⊥
AreDemoted (before ∷ befores) (after ∷ afters) = IsDemoted before after × AreDemoted befores afters

IsDemoted-trans : (a b c : GeneratedDirDecision) → IsDemoted a b → IsDemoted b c → IsDemoted a c
IsDemoted-trans a b c (inl ab) (inl bc) = inl (bc ∙ ab)
IsDemoted-trans a b c (inl ab) (inr bc) = subst (λ x. IsDemoted x c) ab (inr bc)
IsDemoted-trans a b c (inr ab) (inl bc) = subst (IsDemoted a) (sym bc) (inr ab)
IsDemoted-trans a b c (inr (d, p, s)) (inr (deleted, _, _)) = absurd (cc (ap is_delete s, deleted))

pub AreDemoted-trans :
    (as' bs cs : List GeneratedDirDecision)
    → AreDemoted as' bs
    → AreDemoted bs cs
    → AreDemoted as' cs
AreDemoted-trans [] [] [] h k = tt
AreDemoted-trans [] [] (c ∷ cs) h k = absurd k
AreDemoted-trans [] (b ∷ bs) cs h k = absurd h
AreDemoted-trans (a ∷ as') [] cs h k = absurd h
AreDemoted-trans (a ∷ as') (b ∷ bs) [] h k = absurd k
AreDemoted-trans (a ∷ as') (b ∷ bs) (c ∷ cs) h k =
    (IsDemoted-trans a b c h.0 k.0, AreDemoted-trans as' bs cs h.1 k.1)

pub AreDemoted-map :
    (f : GeneratedDirDecision → GeneratedDirDecision) (decisions : List GeneratedDirDecision)
    → ((decision : GeneratedDirDecision) → IsDemoted decision (f decision))
    → AreDemoted decisions (map f decisions)
AreDemoted-map f [] h = tt
AreDemoted-map f (decision ∷ rest) h = (h decision, AreDemoted-map f rest h)

block-IsDemoted :
    (paths : List FilePath) (decision : GeneratedDirDecision)
    → IsDemoted decision (block paths decision)
unfolding block
block-IsDemoted paths decision = elim (Bool-cases (is_blocked paths decision)) [
  | inl e ↦
      subst (λ b. IsDemoted decision (if b then skip nested_retained decision else decision))
        (sym e) (inr (ground arith, refl, refl))
  | inr e ↦
      subst (λ b. IsDemoted decision (if b then skip nested_retained decision else decision))
        (sym e) (inl refl)
]

pub refuse-IsDemoted : (decision : GeneratedDirDecision) → IsDemoted decision (refuse decision)
unfolding refuse
refuse-IsDemoted decision = elim (Bool-cases (is_refused_delete decision)) [
  | inl e ↦
      subst (λ b. IsDemoted decision (if b then skip refused_sweep decision else decision)) (sym e)
        (inr (ground arith, refl, refl))
  | inr e ↦
      subst (λ b. IsDemoted decision (if b then skip refused_sweep decision else decision)) (sym e)
        (inl refl)
]

-- The deletions left, which each further turn diminishes.
abbrev pub count_deletes : List GeneratedDirDecision → ℕ
count_deletes [] = 0
count_deletes (decision ∷ rest) =
    if is_delete decision.action then suc (count_deletes rest) else count_deletes rest

count_deletes-le :
    (decisions : List GeneratedDirDecision) → count_deletes decisions ≤ length decisions
count_deletes-le [] = omega arith
count_deletes-le (decision ∷ rest) = ground (arith, count_deletes-le rest)

block_count-le :
    (paths : List FilePath) (decisions : List GeneratedDirDecision)
    → count_deletes (map (block paths) decisions) ≤ count_deletes decisions
unfolding block
block_count-le paths [] = omega arith
block_count-le paths (decision ∷ rest) = ground (arith, block_count-le paths rest)

block_count-lt :
    (paths : List FilePath) (decisions : List GeneratedDirDecision)
    → any (is_blocked paths) decisions ≡ true
    → count_deletes (map (block paths) decisions) < count_deletes decisions
unfolding block
block_count-lt paths [] h = cc
block_count-lt paths (decision ∷ rest) h = elim (Bool-cases (is_blocked paths decision)) [
  | inl e ↦ ground (arith, e, block_count-le paths rest)
  | inr e ↦ ground (arith, e, block_count-lt paths rest)
]

block-eq_self :
    (paths : List FilePath) (decisions : List GeneratedDirDecision)
    → any (is_blocked paths) decisions ≡ false
    → map (block paths) decisions ≡ decisions
unfolding block
block-eq_self paths [] h = refl
block-eq_self paths (decision ∷ rest) h = ground (arith, block-eq_self paths rest)

-- More fuel than there are deletions is enough.
settle-total :
    (fuel : ℕ) (decisions : List GeneratedDirDecision)
    → count_deletes decisions < fuel
    → (after : List GeneratedDirDecision) × (settle fuel decisions ≡ some after)
unfolding settle turn
settle-total zero decisions h = absurd (omega arith)
settle-total (suc fuel) decisions h =
    elim (Bool-cases (any (is_blocked (retained_paths decisions)) decisions)) [
      | inl e ↦
          let less = block_count-lt (retained_paths decisions) decisions e in
          let (after, found) =
            settle-total fuel (map (block (retained_paths decisions)) decisions) (omega arith) in
          (after, ground (arith, e, found))
      | inr e ↦ (map (block (retained_paths decisions)) decisions, ground (arith, e))
    ]

-- What the loop leaves: no deletion with a retained path below it, and only demoted decisions.
pub settle_lem :
    (fuel : ℕ) (decisions after : List GeneratedDirDecision)
    → settle fuel decisions ≡ some after
    → (any (is_blocked (retained_paths after)) after ≡ false) × AreDemoted decisions after
unfolding settle turn
settle_lem zero decisions after h = cc
settle_lem (suc fuel) decisions after h = elim (Bool-cases (any (is_blocked paths) decisions)) [
  | inl e ↦
      let (stable, demoted) =
        settle_lem fuel (map (block paths) decisions) after (ground (arith, e)) in
      (
        stable,
        AreDemoted-trans decisions (map (block paths) decisions) after
            (AreDemoted-map (block paths) decisions (block-IsDemoted paths)) demoted,
      )
  | inr e ↦
      let same : decisions ≡ after =
        sym (block-eq_self paths decisions e) ∙ some-eq-some (ground (arith, e)) in
      subst (λ a. (any (is_blocked (retained_paths a)) a ≡ false) × AreDemoted decisions a) same
        (
          e,
          subst (AreDemoted decisions) (block-eq_self paths decisions e)
              (AreDemoted-map (block paths) decisions (block-IsDemoted paths)),
        )
]
  where
    paths : List FilePath
    paths = retained_paths decisions

-- The loop of the reconciliation ends within the fuel that it is given, one turn more than there are
-- decisions.
pub settle_fuel_enough :
    (decisions : List GeneratedDirDecision)
    → (after : List GeneratedDirDecision) × (settle (settle_fuel decisions) (map refuse decisions)
        ≡ some after)
settle_fuel_enough decisions =
    let few = count_deletes-le (map refuse decisions) in
    let same = length-map refuse decisions in
    settle-total (settle_fuel decisions) (map refuse decisions) (omega arith)
