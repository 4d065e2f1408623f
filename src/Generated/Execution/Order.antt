-- ===== src/Generated/Execution/Order.antt =====
-- The deletions that `execute_cleanup` of src/lib.rs takes from a manifest, and their order.
use worktree_gc.Base.{
  ℕ, ◌≡◌, ◌≤◌, Bool, true, false, not, List, Option, arith, leb, nat_beq, All, All-map, AllPairs,
  AllPairs-of_sort_by, sort_by-All, retain, retain_all, if◌then◌else◌,
}
use worktree_gc.FilePath.{FilePath}
use worktree_gc.Worktree.Revalidation.{ExecutionPass, execution_matches}
use worktree_gc.Generated.{GeneratedDirDecision, is_delete}
use worktree_gc.Generated.Execution.{
  generated_rebuild_rank, deletion_leb, sort_generated_deletions, is_selected, generated_deletions,
  is_only, rank_matches,
}

-- The keys behind the first do not matter when the first keys differ.
by_first_key :
    (a b : ℕ) (rest : Bool) → (if not (nat_beq a b) then leb a b else rest) ≡ true → a ≤ b
by_first_key a b rest h = ground arith

by_first_key_reverse :
    (a b : ℕ) (rest : Bool) → (if not (nat_beq a b) then leb a b else rest) ≡ false → b ≤ a
by_first_key_reverse a b rest h = ground arith

-- What is deleted is to be deleted in the pass, it is the only path if one is given, and what is cheaper
-- to rebuild is deleted first.
pub generated_deletions_lem :
    (macos : Bool) (pass : ExecutionPass) (only : Option FilePath)
    (decisions : List GeneratedDirDecision)
    → All
        (λ d.
          (is_delete d.action ≡ true)
          × (execution_matches d.cleanup_class pass ≡ true)
          × (is_only only d.path ≡ true)
          × (rank_matches pass d.name ≡ true))
        (generated_deletions macos pass only decisions)
      × AllPairs
          (λ a b. generated_rebuild_rank a.name ≤ generated_rebuild_rank b.name)
          (generated_deletions macos pass only decisions)
unfolding generated_deletions sort_generated_deletions deletion_leb is_selected
generated_deletions_lem macos pass only decisions =
    let chosen = retain (is_selected pass only) decisions in
    (
      sort_by-All _ (deletion_leb macos pass) chosen (
          All-map chosen (λ d selected. (ground arith, ground arith, ground arith, ground arith))
            (retain_all (is_selected pass only) decisions)),
      AllPairs-of_sort_by (λ a b. generated_rebuild_rank a.name ≤ generated_rebuild_rank b.name)
          (deletion_leb macos pass) (λ x y z h k. omega arith)
          (λ x y h.
            by_first_key (generated_rebuild_rank x.name) (generated_rebuild_rank y.name) _ h)
          (λ x y h.
            by_first_key_reverse (generated_rebuild_rank x.name) (generated_rebuild_rank y.name) _
              h)
          chosen,
    )
