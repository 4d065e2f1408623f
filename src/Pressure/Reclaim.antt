-- ===== src/Pressure/Reclaim.antt =====
-- `realized_reclaim` of src/lib.rs: what the bytes that a run has reclaimed are.
use worktree_gc.Base.{
  ℕ, ◌+◌, ◌-◌, ◌≤◌, ◌≡◌, ◌⊎◌, inl, inr, refl, ap, ◌∙◌, Bool, true, false, List, [], ◌∷◌, ◌++◌,
  String, Option, none, some, All, arith, min, if◌then◌else◌, Bool-cases, leb, leb→le, leb-false→lt,
  ◌==◌, ==→eq, string_eq,
}
use worktree_gc.Text.{u64_max, saturating_add}
use worktree_gc.Pressure.{
  PressureObservation, available_before, gained, sum_gained, realized_reclaim,
}

-- The filesystem was not observed.
abbrev pub IsUnobserved : List PressureObservation → String → Type 0
IsUnobserved observations filesystem = All (λ o. (o.filesystem == filesystem) ≡ false) observations

-- The last observation of the filesystem.
pub record IsLast (observations : List PressureObservation) (filesystem : String)
    (last : PressureObservation) : Type 0 where
  pub front : List PressureObservation
  pub back : List PressureObservation
  pub split : observations ≡ front ++ (last ∷ back)
  pub same : last.filesystem ≡ filesystem
  pub later : IsUnobserved back filesystem

-- The gain of a filesystem: nothing if it was not observed before, and else by how much the bytes that
-- are available have grown since its last observation, where a loss counts as nothing.
abbrev pub IsGain : List PressureObservation → PressureObservation → ℕ → Type 0
IsGain before observation gain =
    (IsUnobserved before observation.filesystem × (gain ≡ 0))
    ⊎ ((last : PressureObservation) × IsLast before observation.filesystem last
        × (((last.available_bytes ≤ observation.available_bytes)
              × (last.available_bytes + gain ≡ observation.available_bytes))
            ⊎ ((observation.available_bytes ≤ last.available_bytes) × (gain ≡ 0))))

-- One gain for each observation.
abbrev pub AreGains : List PressureObservation → List PressureObservation → List ℕ → Type 0
AreGains before [] [] = Unit
AreGains before (o ∷ after) (gain ∷ gains) = IsGain before o gain × AreGains before after gains
AreGains before [] (gain ∷ gains) = ⊥
AreGains before (o ∷ after) [] = ⊥

abbrev pub sum : List ℕ → ℕ
sum [] = 0
sum (n ∷ ns) = n + sum ns

abbrev IsAvailable : List PressureObservation → String → Option ℕ → Type 0
IsAvailable before filesystem none = IsUnobserved before filesystem
IsAvailable before filesystem (some bytes) =
    (last : PressureObservation) × IsLast before filesystem last × (last.available_bytes ≡ bytes)

available_before_lem :
    (before : List PressureObservation) (filesystem : String)
    → IsAvailable before filesystem (available_before before filesystem)
unfolding available_before
available_before_lem [] filesystem = tt
available_before_lem (o ∷ rest) filesystem =
    go (available_before rest filesystem) (o.filesystem == filesystem) refl
      (available_before_lem rest filesystem)
  where
    go :
        (later : Option ℕ) (here : Bool)
        → (o.filesystem == filesystem) ≡ here
        → IsAvailable rest filesystem later
        → IsAvailable (o ∷ rest) filesystem (elim later as (λ _. Option ℕ) [
          | some bytes ↦ some bytes
          | none ↦ if here then some o.available_bytes else none
        ])
    go (some bytes) here e (last, found, same) = (
      last,
      record {
        front = o ∷ found.front;
        back = found.back;
        split = ap (◌∷◌ o) found.split;
        same = found.same;
        later = found.later;
      },
      same,
    )
    go none true e unobserved = (
      o,
      record {
        front = [];
        back = rest;
        split = refl;
        same = ==→eq o.filesystem filesystem e;
        later = unobserved;
      },
      refl,
    )
    go none false e unobserved = (e, unobserved)

gained-IsGain :
    (before : List PressureObservation) (observation : PressureObservation)
    → IsGain before observation (gained before observation)
unfolding gained
gained-IsGain before observation =
    go (available_before before observation.filesystem)
      (available_before_lem before observation.filesystem)
  where
    go :
        (found : Option ℕ)
        → IsAvailable before observation.filesystem found
        → IsGain before observation
            (elim found as (λ _. ℕ) [ none ↦ 0 | some bytes ↦ observation.available_bytes - bytes ])
    go none unobserved = inl (unobserved, refl)
    go (some bytes) (last, found, same) = inr (
      last,
      found,
      elim (Bool-cases (leb last.available_bytes observation.available_bytes)) [
        | inl e ↦ inl (leb→le _ _ e, (let le = leb→le _ _ e in omega (arith, le, same)))
        | inr e ↦ (let lt = leb-false→lt _ _ e in inr (omega (arith, lt), omega (arith, lt, same)))
      ],
    )

abbrev gains_of : List PressureObservation → List PressureObservation → List ℕ
gains_of before [] = []
gains_of before (o ∷ after) = gained before o ∷ gains_of before after

gains_of-AreGains :
    (before after : List PressureObservation) → AreGains before after (gains_of before after)
gains_of-AreGains before [] = tt
gains_of-AreGains before (o ∷ after) = (gained-IsGain before o, gains_of-AreGains before after)

sum_gained-eq :
    (before : List PressureObservation) (total : ℕ) (after : List PressureObservation)
    → total ≤ u64_max
    → sum_gained before total after ≡ min (total + sum (gains_of before after)) u64_max
unfolding sum_gained saturating_add
sum_gained-eq before total [] h = omega arith
sum_gained-eq before total (o ∷ rest) h =
    sum_gained-eq before (saturating_add total (gained before o)) rest (omega arith) ∙ omega arith

-- The reclaimed bytes are the sum of one gain for each observation afterwards, up to the range of a
-- `u64`. The gain is by how much the bytes available on the filesystem exceed those of its last
-- observation before, and nothing if they do not or if the filesystem was not observed before.
pub realized_reclaim_lem :
    (before after : List PressureObservation)
    → (gains : List ℕ) × AreGains before after gains
      × (realized_reclaim before after ≡ min (sum gains) u64_max)
unfolding realized_reclaim
realized_reclaim_lem before after = (
  gains_of before after,
  gains_of-AreGains before after,
  omega (arith, sum_gained-eq before 0 after (omega arith)),
)
