-- ===== src/Worktree/Revalidation/Identity.antt =====
-- What a successful revalidation of src/lib.rs has established.
use worktree_gc.Base.{
  is_nil-true, ℕ, ◌≡◌, ◌⊎◌, inl, inr, refl, true, false, List, [], Option, none, some, arith,
  find-some, ==→eq, nat_eq, string_eq, option_eq, Option-cases, ok,
}
use worktree_gc.FilePath.{FilePath, path_eq}
use worktree_gc.PullRequest.{
  PullRequestPolicy, PullRequestEvidence, age_pull_request_evidence_matches,
  merged_pull_request_evidence_matches,
}
use worktree_gc.Worktree.{
  WorktreeInfo, WorktreeRemovalTrigger, WorktreeDecision, age_trigger, merged_pull_request,
}
use worktree_gc.Worktree.Revalidation.{
  Observations, RemovalManifest, is_unchanged, fresh_evidence, evidence_matches, find_live,
  revalidate_live, revalidate_identified, fresh_ownership_allows_removal,
  revalidate_pull_request_removal,
}

-- The live worktree is the first with the planned path that Git lists, it is the planned one, and the
-- evidence on it is as it was.
pub record IsRevalidated (manifest : RemovalManifest) (observed : Observations)
    (decision : WorktreeDecision) : Type 0 where
  pub common_dir : FilePath
  pub observed_dir : observed.git_common_dir ≡ some common_dir
  pub same_repository : path_eq common_dir manifest.git_common_dir ≡ true
  pub worktrees : List WorktreeInfo
  pub listed : observed.live_worktrees ≡ some worktrees
  pub live : WorktreeInfo
  pub found : find_live decision worktrees ≡ some live
  pub same_path : path_eq live.path decision.path ≡ true
  pub not_current : live.is_current ≡ false
  pub attached : live.detached ≡ false
  pub same_head : live.head ≡ decision.head
  pub same_branch : live.branch ≡ decision.branch
  pub same_dirt : live.dirty_count ≡ decision.dirty_count
  pub same_status : live.status_sha256 ≡ decision.status_sha256
  pub policy : PullRequestPolicy
  pub planned : PullRequestEvidence
  pub fresh : PullRequestEvidence
  pub configured : manifest.pull_requests ≡ some policy
  pub was_planned : decision.pull_request ≡ some planned
  pub is_fresh : fresh_evidence observed live ≡ some fresh
  pub evidence :
      ((decision.removal_trigger ≡ some age_trigger)
        × (age_pull_request_evidence_matches planned fresh ≡ true))
      ⊎ ((decision.removal_trigger ≡ some merged_pull_request)
          × (merged_pull_request_evidence_matches planned fresh policy observed.now ≡ true))
  pub complete : (observed.fresh_ownership decision.path).complete ≡ true
  pub unowned : (observed.fresh_ownership decision.path).observations ≡ []

evidence_matches-true :
    (policy : PullRequestPolicy) (now : ℕ) (planned : PullRequestEvidence)
    (found : Option PullRequestEvidence) (trigger : Option WorktreeRemovalTrigger)
    → evidence_matches policy now planned found trigger ≡ true
    → (fresh : PullRequestEvidence) × (found ≡ some fresh)
      × (((trigger ≡ some age_trigger) × (age_pull_request_evidence_matches planned fresh ≡ true))
          ⊎ ((trigger ≡ some merged_pull_request)
              × (merged_pull_request_evidence_matches planned fresh policy now ≡ true)))
unfolding evidence_matches
evidence_matches-true policy now planned none trigger h = cc
evidence_matches-true policy now planned (some fresh) none h = cc
evidence_matches-true policy now planned (some fresh) (some age_trigger) h =
    (fresh, refl, inl (refl, h))
evidence_matches-true policy now planned (some fresh) (some merged_pull_request) h =
    (fresh, refl, inr (refl, h))

revalidate_live-IsRevalidated :
    (manifest : RemovalManifest) (policy : PullRequestPolicy) (planned : PullRequestEvidence)
    (observed : Observations) (decision : WorktreeDecision) (common_dir : FilePath)
    (worktrees : List WorktreeInfo) (live : WorktreeInfo)
    → manifest.pull_requests ≡ some policy
    → decision.pull_request ≡ some planned
    → observed.git_common_dir ≡ some common_dir
    → path_eq common_dir manifest.git_common_dir ≡ true
    → observed.live_worktrees ≡ some worktrees
    → find_live decision worktrees ≡ some live
    → revalidate_live policy planned observed decision (some live) ≡ true
    → IsRevalidated manifest observed decision
unfolding revalidate_live is_unchanged fresh_ownership_allows_removal
revalidate_live-IsRevalidated manifest policy planned observed decision common_dir worktrees live c
      p g r w l h =
    let unchanged : is_unchanged decision live ≡ true = ground arith in
    let matched : evidence_matches policy observed.now planned (fresh_evidence observed live)
          decision.removal_trigger
        ≡ true =
      ground arith in
    let owned : fresh_ownership_allows_removal (observed.fresh_ownership decision.path) ≡ true =
      ground arith in
    let (fresh, f, evidence) =
      evidence_matches-true policy observed.now planned (fresh_evidence observed live)
        decision.removal_trigger matched in
    record {
      common_dir = common_dir;
      observed_dir = g;
      same_repository = r;
      worktrees = worktrees;
      listed = w;
      live = live;
      found = l;
      same_path = find-some (λ worktree. path_eq worktree.path decision.path) worktrees live l;
      not_current = ground arith;
      attached = ground arith;
      same_head = ==→eq live.head decision.head (ground arith);
      same_branch = ==→eq live.branch decision.branch (ground arith);
      same_dirt = ==→eq live.dirty_count decision.dirty_count (ground arith);
      same_status = ==→eq live.status_sha256 decision.status_sha256 (ground arith);
      policy = policy;
      planned = planned;
      fresh = fresh;
      configured = c;
      was_planned = p;
      is_fresh = f;
      evidence = evidence;
      complete = ground arith;
      unowned = is_nil-true (observed.fresh_ownership decision.path).observations (ground arith);
    }

-- A revalidation that allows a removal has found, in the planned repository, the first worktree with the
-- planned path among those that Git lists now, with the planned head, branch and source status, not
-- current and not detached, evidence on its pull requests that matches the planned
-- evidence by the rule of its trigger, and complete ownership evidence that shows no owner.
pub revalidate-IsRevalidated :
    (manifest : RemovalManifest) (observed : Observations) (decision : WorktreeDecision)
    → revalidate_pull_request_removal manifest observed decision ≡ ok true
    → IsRevalidated manifest observed decision
unfolding revalidate_pull_request_removal revalidate_identified
revalidate-IsRevalidated manifest observed decision h = elim (Option-cases manifest.pull_requests) [
  | inl c ↦ absurd (ground (arith, c))
  | inr (policy, c) ↦ elim (Option-cases decision.pull_request) [
    | inl p ↦ absurd (ground (arith, c, p))
    | inr (planned, p) ↦ elim (Option-cases observed.git_common_dir) [
      | inl g ↦ absurd (ground (arith, c, p, g))
      | inr (common_dir, g) ↦ elim (Option-cases observed.live_worktrees) [
        | inl w ↦ absurd (ground (arith, c, p, g, w))
        | inr (worktrees, w) ↦ elim (Option-cases (find_live decision worktrees)) [
          | inl l ↦ absurd (unfold revalidate_live in ground (arith, c, p, g, w, l))
          | inr (live, l) ↦
              revalidate_live-IsRevalidated manifest policy planned observed decision common_dir
                worktrees live c p g (ground (arith, c, p, g, w, l)) w l
                (ground (arith, c, p, g, w, l))
        ]
      ]
    ]
  ]
]
