-- ===== src/PullRequest/Matching.antt =====
-- What the comparison of planned with fresh pull-request evidence guarantees, src/lib.rs.
use worktree_gc.Base.{
  ℕ, zero, suc, get_elem?, ◌≤◌, ◌≡◌, ◌⊎◌, inl, inr, refl, sym, subst, Bool, true, false, List, [],
  ◌∷◌, Option, none, some, any, All, All-map, All-zip, any-false, arith, leb, if◌then◌else◌,
  Bool-cases, Option-cases, leb→le, leb-false→lt, some-eq-some, none≢some, ◌∙◌,
}
use worktree_gc.PullRequest.{
  PullRequestPolicy, PullRequestEvidence, PullRequestRecord, is_settled, not_applicable,
  merged_state, open_state, has_state, classify_lifecycle, merge_candidate, first_youngest,
  youngest_merged, most_recent_merged_pull_request, is_same_merge,
  age_pull_request_evidence_matches, merged_pull_request_evidence_matches,
}

-- Evidence whose lifecycle is that of its records, as `observe_pull_requests` builds it.
abbrev pub IsClassified : PullRequestEvidence → Type 0
IsClassified evidence =
    evidence.lifecycle ≡ classify_lifecycle evidence.complete evidence.pull_requests

-- A merged record of the list with its age, none of the others being younger.
abbrev pub IsYoungest : ℕ → List PullRequestRecord → Option (PullRequestRecord × ℕ) → Type 0
IsYoungest now records none = All (λ other. merge_candidate now other ≡ none) records
IsYoungest now records (some (found, age)) =
    ((index : ℕ) × (get_elem? records index ≡ some found))
    × (merge_candidate now found ≡ some age)
    × All (λ other. (a : ℕ) → merge_candidate now other ≡ some a → age ≤ a) records

first_youngest-IsYoungest :
    (now : ℕ) (first : PullRequestRecord) (rest : List PullRequestRecord) (age : ℕ)
    (later : Option (PullRequestRecord × ℕ))
    → merge_candidate now first ≡ some age
    → IsYoungest now rest later
    → IsYoungest now (first ∷ rest) (some (first_youngest first age later))
unfolding first_youngest
first_youngest-IsYoungest now first rest age none c h = (
  (zero, refl),
  c,
  (
    (λ a e. let same : age ≡ a = some-eq-some (sym c ∙ e) in omega arith),
    All-map rest (λ other n a e. absurd (none≢some (sym n ∙ e))) h,
  ),
)
first_youngest-IsYoungest now first rest age (some (other, other_age)) c h =
    elim (Bool-cases (leb age other_age)) [
      | inl e ↦
          subst
            (λ b.
              IsYoungest now (first ∷ rest) (some (if b then (first, age) else (other, other_age))))
            (sym e)
            (
              (zero, refl),
              c,
              (
                (λ a q. let same : age ≡ a = some-eq-some (sym c ∙ q) in omega arith),
                All-map rest
                    (λ x k a q. let l = k a q in let le = leb→le age other_age e in omega arith)
                    h.2,
              ),
            )
      | inr e ↦
          subst
            (λ b.
              IsYoungest now (first ∷ rest) (some (if b then (first, age) else (other, other_age))))
            (sym e)
            (
              (suc h.0.0, h.0.1),
              h.1,
              (
                (λ a q.
                    let same : age ≡ a = some-eq-some (sym c ∙ q) in
                    let lt = leb-false→lt age other_age e in omega arith),
                h.2,
              ),
            )
    ]

skip-IsYoungest :
    (now : ℕ) (first : PullRequestRecord) (rest : List PullRequestRecord)
    (later : Option (PullRequestRecord × ℕ))
    → merge_candidate now first ≡ none
    → IsYoungest now rest later
    → IsYoungest now (first ∷ rest) later
skip-IsYoungest now first rest none c h = (c, h)
skip-IsYoungest now first rest (some (found, age)) c h =
    ((suc h.0.0, h.0.1), h.1, ((λ a e. absurd (none≢some (sym c ∙ e))), h.2))

youngest_merged-IsYoungest :
    (now : ℕ) (records : List PullRequestRecord)
    → IsYoungest now records (youngest_merged now records)
unfolding youngest_merged
youngest_merged-IsYoungest now [] = tt
youngest_merged-IsYoungest now (first ∷ rest) =
    go (merge_candidate now first) refl (youngest_merged-IsYoungest now rest)
  where
    later : Option (PullRequestRecord × ℕ)
    later = youngest_merged now rest

    go :
        (c : Option ℕ)
        → merge_candidate now first ≡ c
        → IsYoungest now rest later
        → IsYoungest now
            (first ∷ rest)
            (elim c [ none ↦ later | some age ↦ some (first_youngest first age later) ])
    go none e h = skip-IsYoungest now first rest later e h
    go (some age) e h = first_youngest-IsYoungest now first rest age later e h

-- What `most_recent_merged_pull_request` finds is one of the records of the evidence, merged, with its
-- age, and no merged record is younger; if it finds none, no merged record has an age.
pub most_recent_merged_lem :
    (evidence : PullRequestEvidence) (now : ℕ)
    → IsYoungest now evidence.pull_requests (most_recent_merged_pull_request evidence now)
unfolding most_recent_merged_pull_request
most_recent_merged_lem evidence now = youngest_merged-IsYoungest now evidence.pull_requests

classify_settled :
    (complete : Bool) (records : List PullRequestRecord)
    → is_settled (classify_lifecycle complete records) ≡ true
    → (any (has_state open_state) records ≡ false) × (any (has_state merged_state) records ≡ false)
unfolding classify_lifecycle
classify_settled complete records h = ground arith

-- Age-based removal goes on only on fresh, complete evidence that shows no open and no merged pull
-- request, provided that the lifecycle of the evidence is that of its records.
pub age_matches_no_live_request :
    (planned fresh : PullRequestEvidence)
    → (fresh.lifecycle ≡ not_applicable) ⊎ IsClassified fresh
    → age_pull_request_evidence_matches planned fresh ≡ true
    → (fresh.complete ≡ true)
      × ((fresh.lifecycle ≡ not_applicable)
          ⊎ All
              (λ request.
                (has_state open_state request ≡ false) × (has_state merged_state request ≡ false))
              fresh.pull_requests)
unfolding age_pull_request_evidence_matches
age_matches_no_live_request planned fresh classified h = (
  ground arith,
  elim classified [
    | inl free ↦ inl free
    | inr same ↦
        let settled : is_settled fresh.lifecycle ≡ true = ground arith in
        let (o, m) =
          classify_settled fresh.complete fresh.pull_requests
            (subst (λ l. is_settled l ≡ true) same settled) in
        inr (
          All-zip fresh.pull_requests (λ x a b. (a, b))
            (any-false (has_state open_state) fresh.pull_requests o)
            (any-false (has_state merged_state) fresh.pull_requests m))
  ],
)

-- A removal for a merged pull request goes on only if the fresh evidence is complete and the youngest
-- merge among its records is at least as old as the grace period and was planned for, by repository,
-- number, commit and merge time.
pub merged_matches_planned :
    (planned fresh : PullRequestEvidence) (policy : PullRequestPolicy) (now : ℕ)
    → merged_pull_request_evidence_matches planned fresh policy now ≡ true
    → (merge : PullRequestRecord) × (age : ℕ) × (fresh.complete ≡ true)
      × IsYoungest now fresh.pull_requests (some (merge, age))
      × (policy.merged_grace_days ≤ age)
      × (any (is_same_merge merge) planned.pull_requests ≡ true)
unfolding merged_pull_request_evidence_matches
merged_matches_planned planned fresh policy now h =
    elim (Option-cases (most_recent_merged_pull_request fresh now)) [
      | inl e ↦ absurd (ground (arith, e))
      | inr ((merge, age), e) ↦
          let youngest =
            subst (IsYoungest now fresh.pull_requests) e (most_recent_merged_lem fresh now) in
          (merge, age, ground (arith, e), youngest, ground (arith, e), ground (arith, e))
    ]
