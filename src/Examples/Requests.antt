-- ===== src/Examples/Requests.antt =====
-- The theorems about pull-request evidence at concrete evidence.
use worktree_gc.Base.{ℕ, ◌≤◌, ◌≡◌, ◌⊎◌, inr, refl, true, false, [], ◌∷◌, All, any, some}
use worktree_gc.PullRequest.{
  PullRequestRecord, PullRequestEvidence, not_applicable, closed_lifecycle, closed_state,
  open_state, merged_state, has_state, is_same_merge, most_recent_merged_pull_request,
  age_pull_request_evidence_matches, merged_pull_request_evidence_matches, classify_lifecycle,
}
use worktree_gc.PullRequest.Matching.{
  most_recent_merged_lem, age_matches_no_live_request, merged_matches_planned, IsYoungest,
}
use worktree_gc.Examples.Fixtures.{evidence, merge, grace}

most_recent_merged_lem_example :
    IsYoungest 864_000 evidence.pull_requests (most_recent_merged_pull_request evidence 864_000)
most_recent_merged_lem_example = most_recent_merged_lem evidence 864_000

merged_matches_planned_example :
    (found : PullRequestRecord) × (age : ℕ) × (evidence.complete ≡ true)
    × IsYoungest 864_000 evidence.pull_requests (some (found, age))
    × (grace.merged_grace_days ≤ age)
    × (any (is_same_merge found) evidence.pull_requests ≡ true)
unfolding most_recent_merged_pull_request
merged_matches_planned_example =
    merged_matches_planned evidence evidence grace 864_000
      (unfold merged_pull_request_evidence_matches in refl)

abbrev closed : PullRequestEvidence
closed = record evidence {
  lifecycle = closed_lifecycle;
  pull_requests = record merge { state = closed_state } ∷ [];
}

age_matches_no_live_request_example :
    (closed.complete ≡ true)
    × ((closed.lifecycle ≡ not_applicable)
        ⊎ All
            (λ request.
              (has_state open_state request ≡ false) × (has_state merged_state request ≡ false))
            closed.pull_requests)
age_matches_no_live_request_example =
    age_matches_no_live_request closed closed (inr (unfold classify_lifecycle in refl))
      (unfold age_pull_request_evidence_matches in refl)
