-- ===== src/Generated/Config/Names.antt =====
-- What the configuration of src/lib.rs makes of the names it is given.
use worktree_gc.Base.{
  ℕ, ◌≡◌, inl, inr, refl, sym, subst, Bool, true, false, ◌||◌, List, [], ◌∷◌, ◌++◌, none, some,
  find, arith, if◌then◌else◌, ◌==◌, list_eq, nat_eq, Bool-cases,
}
use mathlib.Core.List.{reverse-append}
use worktree_gc.Text.{trim}
use worktree_gc.Generated.{Name}
use worktree_gc.Generated.Config.{
  contains_name, is_empty, normalize_from, normalize_names, GeneratedDirConfig,
  GeneratedWindowOverride, effective_days,
}

-- Each name is absent from those before it.
abbrev pub AreDistinctFrom : List Name → List Name → Type 0
AreDistinctFrom seen [] = Unit
AreDistinctFrom seen (name ∷ names) =
    (is_empty name ≡ false)
    × (contains_name seen name ≡ false)
    × AreDistinctFrom (name ∷ seen) names

normalize_from-distinct :
    (seen names : List Name) → AreDistinctFrom seen (normalize_from seen names)
unfolding normalize_from
normalize_from-distinct seen [] = tt
normalize_from-distinct seen (name ∷ names) =
    go (is_empty (trim name) || contains_name seen (trim name)) refl
      (normalize_from-distinct seen names) (normalize_from-distinct (trim name ∷ seen) names)
  where
    go :
        (b : Bool)
        → (is_empty (trim name) || contains_name seen (trim name)) ≡ b
        → AreDistinctFrom seen (normalize_from seen names)
        → AreDistinctFrom (trim name ∷ seen) (normalize_from (trim name ∷ seen) names)
        → AreDistinctFrom seen (elim b [
          | true ↦ normalize_from seen names
          | false ↦ trim name ∷ normalize_from (trim name ∷ seen) names
        ])
    go true e skipped added = skipped
    go false e skipped added = (ground (arith, e), ground (arith, e), added)

-- The names of a configuration are not empty, and no name is repeated.
pub normalize_names-distinct : (names : List Name) → AreDistinctFrom [] (normalize_names names)
unfolding normalize_names
normalize_names-distinct names = normalize_from-distinct [] names

-- The override given last decides about its name, and changes nothing about other names.
pub effective_days-last :
    (config : GeneratedDirConfig) (override : GeneratedWindowOverride) (name : Name) (days : ℕ)
    → effective_days
        (record config { window_overrides = config.window_overrides ++ (override ∷ []) })
        name
        days
      ≡ (if override.name == name then override.days else effective_days config name days)
unfolding effective_days
effective_days-last config override name days =
    subst
      (λ overrides.
        (elim (find {A = GeneratedWindowOverride} (λ o. o.name == name) overrides) as (λ _. ℕ) [
          | none ↦ days
          | some o ↦ o.days
        ])
        ≡ (if override.name == name then override.days else effective_days config name days))
      (sym (reverse-append config.window_overrides (override ∷ [])))
      (elim (Bool-cases (override.name == name)) [ inl e ↦ rw e refl | inr e ↦ rw e refl ])
