-- ===== src/Pressure/Scheduling.antt =====
-- What the pressure functions of src/lib.rs guarantee.
use worktree_gc.Base.{
  ℕ, ◌≤◌, ◌<◌, ◌≡◌, inl, inr, refl, sym, subst, ◌∙◌, Bool, true, false, not, List, [], ◌∷◌, ◌++◌,
  String, none, some, any, All, arith, leb, ltb, length, retain, drop, take-append-drop,
  if◌then◌else◌, ◌==◌, string_eq, ok, err, >>=-eq-ok, Result-cases, ok-injective, Option-cases,
  some-eq-some, ◌&&◌, ◌≢◌, length-take-le, length-drop-lt,
}
use worktree_gc.FilePath.{FilePath}
use worktree_gc.Pressure.{
  Host, PressurePolicy, PressureObservation, CleanupError, contains, pressure_filesystem_entered,
  pressure_applies, pressure_policy_should_continue, activate_pressure_policy, Candidate,
  next_pressure_epoch, pressure_epoch_max_candidates, check_targets, entered_of, is_nonempty,
  filter_pressure_candidates,
}

-- A pressure candidate is worked on only on a filesystem that has entered pressure, has not been seen
-- to reach the target, and has less than the target available.
pub should_continue_sound :
    (host : Host) (policy : PressurePolicy) (path : FilePath) (satisfied after : List String)
    → pressure_policy_should_continue host policy path satisfied ≡ ok (true, after)
    → (filesystem : String) × (available : ℕ) × (host.filesystem_key path ≡ some filesystem)
      × (pressure_filesystem_entered policy filesystem ≡ true)
      × (contains satisfied filesystem ≡ false)
      × (host.available_space path ≡ some available)
      × (available < policy.target_bytes)
      × (after ≡ satisfied)
unfolding pressure_policy_should_continue
should_continue_sound host policy path satisfied after h =
    elim (Option-cases (host.filesystem_key path)) [
      | inl e ↦ absurd (ground (arith, e))
      | inr (filesystem, e) ↦ elim (Option-cases (host.available_space path)) [
        | inl a ↦ absurd (ground (arith, e, a))
        | inr (available, a) ↦ (
          filesystem,
          available,
          e,
          ground (arith, e, a),
          ground (arith, e, a),
          a,
          ground (arith, e, a),
          ground (arith, e, a),
        )
      ]
    ]

-- Once a filesystem is satisfied no candidate on it is worked on, and it stays satisfied.
pub satisfied_stops :
    (host : Host) (policy : PressurePolicy) (path : FilePath) (satisfied after : List String)
    (filesystem : String) (answer : Bool)
    → contains satisfied filesystem ≡ true
    → pressure_policy_should_continue host policy path satisfied ≡ ok (answer, after)
    → (contains after filesystem ≡ true)
      × (host.filesystem_key path ≡ some filesystem → answer ≡ false)
unfolding pressure_policy_should_continue
satisfied_stops host policy path satisfied after filesystem answer s h =
    elim (Option-cases (host.filesystem_key path)) [
      | inl e ↦ absurd (ground (arith, e))
      | inr (found, e) ↦ elim (Option-cases (host.available_space path)) [
        | inl a ↦ (
          ground (arith, e, a),
          λ k. let same : found ≡ filesystem = some-eq-some (sym e ∙ k) in ground (arith, e, a),
        )
        | inr (available, a) ↦ (
          ground (arith, e, a),
          λ k. let same : found ≡ filesystem = some-eq-some (sym e ∙ k) in ground (arith, e, a),
        )
      ]
    ]

-- With an active policy, planning and execution agree: pressure applies to a path exactly when work on
-- it would go on with no filesystem satisfied yet, and they fail together.
pub applies-iff-continues :
    (host : Host) (policy : PressurePolicy) (path : FilePath)
    → policy.active ≡ true
    → ((answer : Bool)
        → pressure_applies host path (some policy) ≡ ok answer
        → (after : List String) × (pressure_policy_should_continue host policy path []
            ≡ ok (answer, after)))
      × ((error : CleanupError)
          → pressure_applies host path (some policy) ≡ err error
          → pressure_policy_should_continue host policy path [] ≡ err error)
unfolding pressure_applies pressure_policy_should_continue
applies-iff-continues host policy path active = elim (Option-cases (host.filesystem_key path)) [
  | inl e ↦ ((λ answer h. absurd (ground (arith, e))), λ error h. ground (arith, e))
  | inr (filesystem, e) ↦ elim (Option-cases (host.available_space path)) [
    | inl a ↦ ((λ answer h. ([], ground (arith, e, a))), λ error h. ground (arith, e, a))
    | inr (available, a) ↦ (
      (λ answer h. (
        (if pressure_filesystem_entered policy filesystem && leb policy.target_bytes available
            then filesystem ∷ []
            else []),
        ground (arith, e, a),
      )),
      λ error h. ground (arith, e, a),
    )
  ]
]

-- The candidates that stay in the queue, in their order: those that exist and whose filesystem is
-- known and not satisfied.
abbrev pub is_wanted : Host → List String → Candidate → Bool
is_wanted host satisfied (index, path) = host.exists path && (elim (host.filesystem_key path) [
  | none ↦ false
  | some filesystem ↦ not (contains satisfied filesystem)
])

-- Filtering that succeeds keeps, in their order, exactly the candidates that exist and whose filesystem
-- is known and not satisfied.
pub filter_pressure_candidates-eq-retain :
    (host : Host) (candidates retained : List Candidate) (satisfied : List String)
    → filter_pressure_candidates host candidates satisfied ≡ ok retained
    → retained ≡ retain (is_wanted host satisfied) candidates
unfolding filter_pressure_candidates
filter_pressure_candidates-eq-retain host [] retained satisfied h = sym (ok-injective h)
filter_pressure_candidates-eq-retain host ((index, path) ∷ rest) retained satisfied h =
    elim (Result-cases (filter_pressure_candidates host rest satisfied)) [
      | inl (later, r) ↦
          let same = filter_pressure_candidates-eq-retain host rest later satisfied r in
          elim (Option-cases (host.filesystem_key path)) [
            | inl k ↦ ground (arith, r, k, same)
            | inr (filesystem, k) ↦ ground (arith, r, k, same)
          ]
      | inr (failure, r) ↦ elim (Option-cases (host.filesystem_key path)) [
        | inl k ↦ absurd (ground (arith, r, k))
        | inr (filesystem, k) ↦ absurd (ground (arith, r, k))
      ]
    ]

-- An epoch takes at most its bound off the front of the queue, and something unless the queue is empty.
pub next_pressure_epoch_lem :
    (candidates : List Candidate)
    → (next_pressure_epoch candidates ++ drop pressure_epoch_max_candidates candidates ≡ candidates)
      × (length (next_pressure_epoch candidates) ≤ pressure_epoch_max_candidates)
      × (candidates ≢ []
          → length (drop pressure_epoch_max_candidates candidates) < length candidates)
unfolding next_pressure_epoch
next_pressure_epoch_lem candidates = (
  take-append-drop pressure_epoch_max_candidates candidates,
  length-take-le pressure_epoch_max_candidates candidates,
  λ n. length-drop-lt pressure_epoch_max_candidates candidates (omega arith) n,
)

entered_of-contains :
    (policy : PressurePolicy) (observations : List PressureObservation) (filesystem : String)
    → contains (entered_of policy observations) filesystem
      ≡ any
          (λ o. o.filesystem == filesystem && ltb o.available_bytes policy.enter_bytes)
          observations
entered_of-contains policy [] filesystem = refl
entered_of-contains policy (o ∷ rest) filesystem =
    ground (arith, entered_of-contains policy rest filesystem)

entered_of-nonempty :
    (policy : PressurePolicy) (observations : List PressureObservation)
    → is_nonempty (entered_of policy observations)
      ≡ any (λ o. ltb o.available_bytes policy.enter_bytes) observations
entered_of-nonempty policy [] = refl
entered_of-nonempty policy (o ∷ rest) = ground (arith, entered_of-nonempty policy rest)

check_targets-All :
    (target : ℕ) (entered : List String) (observations : List PressureObservation)
    → check_targets target entered observations ≡ ok tt
    → All (λ o. contains entered o.filesystem ≡ true → target ≤ o.total_bytes) observations
unfolding check_targets
check_targets-All target entered [] h = tt
check_targets-All target entered (o ∷ rest) h =
    ((λ c. ground arith), check_targets-All target entered rest (ground arith))

-- What an activated policy says: a filesystem has entered pressure exactly when some observation of it
-- is below the threshold, the policy is active exactly when one has, and the target fits every entered
-- filesystem that was observed.
pub activate_pressure_policy_lem :
    (policy after : PressurePolicy) (observations : List PressureObservation)
    → activate_pressure_policy policy observations ≡ ok after
    → ((filesystem : String)
        → contains after.entered_filesystems filesystem
          ≡ any
              (λ o. o.filesystem == filesystem && ltb o.available_bytes policy.enter_bytes)
              observations)
      × (after.active ≡ any (λ o. ltb o.available_bytes policy.enter_bytes) observations)
      × All
          (λ o.
            contains after.entered_filesystems o.filesystem ≡ true
            → policy.target_bytes ≤ o.total_bytes)
          observations
unfolding activate_pressure_policy
activate_pressure_policy_lem policy after observations h =
    let entered : List String = entered_of policy observations in
    let (_, checked, built) =
      >>=-eq-ok (check_targets policy.target_bytes entered observations) _ h in
    let same = ok-injective built in
    (
      (λ filesystem.
          subst
            (λ p.
              contains p.entered_filesystems filesystem
              ≡ any (λ o. o.filesystem == filesystem && ltb o.available_bytes policy.enter_bytes)
                  observations)
            same (entered_of-contains policy observations filesystem)),
      subst (λ p. p.active ≡ any (λ o. ltb o.available_bytes policy.enter_bytes) observations) same
          (entered_of-nonempty policy observations),
      subst
          (λ p.
            All
              (λ o.
                contains p.entered_filesystems o.filesystem ≡ true
                → policy.target_bytes ≤ o.total_bytes)
              observations)
          same (check_targets-All policy.target_bytes entered observations checked),
    )
