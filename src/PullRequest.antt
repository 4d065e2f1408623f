-- ===== src/PullRequest.antt =====
-- The pull-request evidence of src/github_pr.rs, and the functions of src/lib.rs that read it.
pub mod Matching
use worktree_gc.Base.{
  ℕ, ◌-◌, ◌/◌, ◌≡◌, ◌↔◌, refl, ap, Bool, true, false, ◌&&◌, List, [], ◌∷◌, String, Option, none,
  some, any, all, leb, ltb, if◌then◌else◌, Eq, ◌==◌, ℤ, pos, negsuc, int_eq, nat_eq, string_eq,
  option_eq, list_eq, nat_beq, nat_beq_iff, not, retain, get_or,
}
use mathlib.Core.Bool.{◌||◌}

pub record PullRequestPolicy : Type 0 where
  pub merged_grace_days : ℕ

pub data PullRequestLifecycle : Type 0 where
  not_applicable no_pull_request open_lifecycle merged_lifecycle : PullRequestLifecycle
  closed_lifecycle incomplete : PullRequestLifecycle

pub data PullRequestState : Type 0 where
  open_state merged_state closed_state : PullRequestState

pub record PullRequestRecord : Type 0 where
  pub repository : String
  pub number : ℕ
  pub url : String
  pub state : PullRequestState
  pub head_ref_name : String
  pub head_oid : String
  pub merged_at_unix : Option ℤ

pub record PullRequestEvidence : Type 0 where
  pub provider : String
  pub observed_at_unix : ℕ
  pub complete : Bool
  pub lifecycle : PullRequestLifecycle
  pub repositories : List String
  pub pull_requests : List PullRequestRecord
  pub error : Option String

abbrev pub state_beq : PullRequestState → PullRequestState → Bool
state_beq open_state open_state = true
state_beq merged_state merged_state = true
state_beq closed_state closed_state = true
state_beq _ _ = false

abbrev pub lifecycle_beq : PullRequestLifecycle → PullRequestLifecycle → Bool
lifecycle_beq not_applicable not_applicable = true
lifecycle_beq no_pull_request no_pull_request = true
lifecycle_beq open_lifecycle open_lifecycle = true
lifecycle_beq merged_lifecycle merged_lifecycle = true
lifecycle_beq closed_lifecycle closed_lifecycle = true
lifecycle_beq incomplete incomplete = true
lifecycle_beq _ _ = false

-- `#[derive(PartialEq)]` of the records
abbrev pub record_beq : PullRequestRecord → PullRequestRecord → Bool
record_beq a b =
    a.repository == b.repository
    && a.number == b.number
    && a.url == b.url
    && state_beq a.state b.state
    && a.head_ref_name == b.head_ref_name
    && a.head_oid == b.head_oid
    && a.merged_at_unix == b.merged_at_unix

abbrev pub records_beq : List PullRequestRecord → List PullRequestRecord → Bool
records_beq [] [] = true
records_beq (a ∷ as') (b ∷ bs) = record_beq a b && records_beq as' bs
records_beq _ _ = false

abbrev pub has_state : PullRequestState → PullRequestRecord → Bool
has_state state pull_request = state_beq pull_request.state state

unfoldable pub classify_lifecycle : Bool → List PullRequestRecord → PullRequestLifecycle
classify_lifecycle complete records =
    if not complete
    then incomplete
    else if any (has_state open_state) records
    then open_lifecycle
    else if any (has_state merged_state) records
    then merged_lifecycle
    else if any (has_state closed_state) records
    then closed_lifecycle
    else no_pull_request

-- `PullRequestEvidence::not_applicable`
unfoldable pub not_applicable_evidence : ℕ → PullRequestEvidence
not_applicable_evidence observed_at_unix = record {
  provider = "github";
  observed_at_unix = observed_at_unix;
  complete = true;
  lifecycle = not_applicable;
  repositories = [];
  pull_requests = [];
  error = none;
}

unfoldable pub incomplete_evidence : ℕ → List String → String → PullRequestEvidence
incomplete_evidence observed_at_unix repositories error = record {
  provider = "github";
  observed_at_unix = observed_at_unix;
  complete = false;
  lifecycle = incomplete;
  repositories = repositories;
  pull_requests = [];
  error = some error;
}

-- A time before the epoch has no age; one that is still to come has age zero.
unfoldable pub age_days : ℕ → ℤ → Option ℕ
age_days now (pos unix) = some ((now - unix) / 86_400)
age_days now (negsuc _) = none

unfoldable pub merged_age : ℕ → PullRequestRecord → Option ℕ
unfolding age_days
merged_age now pull_request = elim pull_request.merged_at_unix [
  | none ↦ none
  | some merged_at ↦ age_days now merged_at
]

-- The `filter` on the state and the `filter_map` on the age.
unfoldable pub merge_candidate : ℕ → PullRequestRecord → Option ℕ
unfolding merged_age
merge_candidate now pull_request =
    if has_state merged_state pull_request then merged_age now pull_request else none

-- `min_by_key` keeps the first of the smallest.
unfoldable pub first_youngest :
    PullRequestRecord → ℕ → Option (PullRequestRecord × ℕ) → PullRequestRecord × ℕ
first_youngest pull_request age none = (pull_request, age)
first_youngest pull_request age (some (other, other_age)) =
    if leb age other_age then (pull_request, age) else (other, other_age)

unfoldable pub youngest_merged : ℕ → List PullRequestRecord → Option (PullRequestRecord × ℕ)
unfolding merge_candidate first_youngest
youngest_merged now [] = none
youngest_merged now (pull_request ∷ rest) =
    let later = youngest_merged now rest in
    elim (merge_candidate now pull_request) [
      | none ↦ later
      | some age ↦ some (first_youngest pull_request age later)
    ]

unfoldable pub most_recent_merged_pull_request :
    PullRequestEvidence → ℕ → Option (PullRequestRecord × ℕ)
unfolding youngest_merged
most_recent_merged_pull_request evidence now = youngest_merged now evidence.pull_requests

abbrev pub is_settled : PullRequestLifecycle → Bool
is_settled not_applicable = true
is_settled no_pull_request = true
is_settled closed_lifecycle = true
is_settled _ = false

unfoldable pub age_pull_request_evidence_matches : PullRequestEvidence → PullRequestEvidence → Bool
age_pull_request_evidence_matches planned fresh =
    planned.complete
    && fresh.complete
    && planned.provider == fresh.provider
    && planned.repositories == fresh.repositories
    && lifecycle_beq planned.lifecycle fresh.lifecycle
    && is_settled fresh.lifecycle
    && records_beq planned.pull_requests fresh.pull_requests

-- The closure under `any`: the planned record of the freshly observed merge.
abbrev pub is_same_merge : PullRequestRecord → PullRequestRecord → Bool
is_same_merge fresh_record planned_record =
    planned_record.repository == fresh_record.repository
    && planned_record.number == fresh_record.number
    && state_beq planned_record.state merged_state
    && planned_record.head_oid == fresh_record.head_oid
    && planned_record.merged_at_unix == fresh_record.merged_at_unix

unfoldable pub merged_pull_request_evidence_matches :
    PullRequestEvidence → PullRequestEvidence → PullRequestPolicy → ℕ → Bool
merged_pull_request_evidence_matches planned fresh policy now =
    if not fresh.complete || not (lifecycle_beq fresh.lifecycle merged_lifecycle)
    then false
    else elim (most_recent_merged_pull_request fresh now) [
      | none ↦ false
      | some (fresh_record, age) ↦
          leb policy.merged_grace_days age && any (is_same_merge fresh_record) planned.pull_requests
    ]
