-- ===== src/Examples/Pressures.antt =====
-- The theorems about disk pressure at a concrete host.
use worktree_gc.Base.{
  ℕ, ◌≤◌, ◌<◌, ◌≡◌, refl, Bool, true, false, List, [], ◌∷◌, String, some, any, All, ok, err, min,
  ◌&&◌, ◌==◌, string_eq, ltb,
}
use worktree_gc.Text.{u64_max}
use worktree_gc.Pressure.{
  CleanupError, PressureObservation, Candidate, contains, pressure_filesystem_entered,
  pressure_policy_should_continue, pressure_applies, activate_pressure_policy, realized_reclaim,
}
use worktree_gc.Pressure.Scheduling.{
  should_continue_sound, applies-iff-continues, activate_pressure_policy_lem,
}
use worktree_gc.Pressure.Reclaim.{AreGains, sum, realized_reclaim_lem}
use worktree_gc.Examples.Fixtures.{host, pressure, tree, elsewhere}

should_continue_sound_example :
    (filesystem : String) × (free : ℕ) × (host.filesystem_key tree ≡ some filesystem)
    × (pressure_filesystem_entered pressure filesystem ≡ true)
    × (contains [] filesystem ≡ false)
    × (host.available_space tree ≡ some free)
    × (free < pressure.target_bytes)
    × ◌≡◌ {A = List String} [] []
unfolding pressure_filesystem_entered
should_continue_sound_example =
    should_continue_sound host pressure tree [] [] (unfold pressure_policy_should_continue in refl)

applies-iff-continues_example :
    ((answer : Bool)
      → pressure_applies host tree (some pressure) ≡ ok answer
      → (after : List String) × (pressure_policy_should_continue host pressure tree []
          ≡ ok (answer, after)))
    × ((error : CleanupError)
        → pressure_applies host tree (some pressure) ≡ err error
        → pressure_policy_should_continue host pressure tree [] ≡ err error)
applies-iff-continues_example = applies-iff-continues host pressure tree refl

abbrev observation : PressureObservation
observation = record { path = tree; filesystem = "disk"; available_bytes = 50; total_bytes = 200 }

activate_pressure_policy_lem_example :
    ((filesystem : String)
      → contains pressure.entered_filesystems filesystem
        ≡ any
            (λ o. o.filesystem == filesystem && ltb o.available_bytes pressure.enter_bytes)
            (observation ∷ []))
    × (pressure.active ≡ any (λ o. ltb o.available_bytes pressure.enter_bytes) (observation ∷ []))
    × All
        (λ o.
          contains pressure.entered_filesystems o.filesystem ≡ true
          → pressure.target_bytes ≤ o.total_bytes)
        (observation ∷ [])
activate_pressure_policy_lem_example =
    activate_pressure_policy_lem pressure pressure (observation ∷ [])
      (unfold activate_pressure_policy in refl)

abbrev queue : List Candidate
queue = (0, tree) ∷ (1, elsewhere) ∷ []

realized_reclaim_lem_example :
    (gains : List ℕ) × AreGains
      (observation ∷ [])
      (record observation { available_bytes = 90 } ∷ [])
      gains
    × (realized_reclaim (observation ∷ []) (record observation { available_bytes = 90 } ∷ [])
        ≡ min (sum gains) u64_max)
realized_reclaim_lem_example =
    realized_reclaim_lem (observation ∷ []) (record observation { available_bytes = 90 } ∷ [])
