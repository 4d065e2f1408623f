-- ===== src/Generated/Config.antt =====
-- `GeneratedDirConfig` of src/lib.rs: which names are deleted, reported or swept, and for how long.
pub mod Names
use worktree_gc.Base.{
  ℕ, ◌≡◌, Bool, true, false, not, ◌&&◌, ◌||◌, List, [], ◌∷◌, ◌++◌, map, Option, none, some, any,
  find, retain, if◌then◌else◌, Eq, ◌==◌, list_eq, nat_eq, sort_by,
}
use mathlib.Core.List.{reverse}
use worktree_gc.Text.{trim}
use worktree_gc.FilePath.{FilePath, path_eq, path_leb}
use worktree_gc.Protection.Registry.{Machine}
use worktree_gc.Protection.Guard.{resolved}
use worktree_gc.Generated.{
  Name, SweepTool, SweepStrategy, tool_beq, rustc_incremental, cargo_profile_reset, age_limit,
}

pub record GeneratedWindowOverride : Type 0 where
  pub name : Name
  pub days : ℕ

pub record GeneratedDirConfig : Type 0 where
  pub delete_names : List Name
  pub report_only_names : List Name
  pub window_overrides : List GeneratedWindowOverride
  pub sweep_strategies : List SweepStrategy
  pub sweep_paths : List FilePath

pub data GeneratedCandidateAction : Type 0 where
  candidate_delete candidate_report_only candidate_sweep_only : GeneratedCandidateAction

abbrev pub node_modules : Name
node_modules =
    b'n' ∷ b'o' ∷ b'd' ∷ b'e' ∷ b'_' ∷ b'm' ∷ b'o' ∷ b'd' ∷ b'u' ∷ b'l' ∷ b'e' ∷ b's' ∷ []

abbrev pub next : Name
next = b'.' ∷ b'n' ∷ b'e' ∷ b'x' ∷ b't' ∷ []

abbrev pub turbo : Name
turbo = b'.' ∷ b't' ∷ b'u' ∷ b'r' ∷ b'b' ∷ b'o' ∷ []

abbrev pub target : Name
target = b't' ∷ b'a' ∷ b'r' ∷ b'g' ∷ b'e' ∷ b't' ∷ []

abbrev pub dist : Name
dist = b'd' ∷ b'i' ∷ b's' ∷ b't' ∷ []

abbrev pub is_empty {ℓ} : {A : Type ℓ} → List A → Bool
is_empty [] = true
is_empty (_ ∷ _) = false

abbrev pub contains_name : List Name → Name → Bool
contains_name names name = any (λ candidate. candidate == name) names

-- The loop of `normalize_names`, with the names seen so far.
unfoldable pub normalize_from : List Name → List Name → List Name
normalize_from seen [] = []
normalize_from seen (name ∷ names) =
    let trimmed = trim name in
    elim (is_empty trimmed || contains_name seen trimmed) [
      | true ↦ normalize_from seen names
      | false ↦ trimmed ∷ normalize_from (trimmed ∷ seen) names
    ]

unfoldable pub normalize_names : List Name → List Name
normalize_names names = normalize_from [] names

abbrev pub same_strategy : SweepStrategy → SweepStrategy → Bool
same_strategy existing strategy =
    existing.name == strategy.name && tool_beq existing.tool strategy.tool

-- The strategy takes the place of the first of its name and tool, or comes last.
unfoldable pub put_strategy : List SweepStrategy → SweepStrategy → List SweepStrategy
put_strategy [] strategy = strategy ∷ []
put_strategy (existing ∷ rest) strategy =
    if same_strategy existing strategy
    then strategy ∷ rest
    else existing ∷ put_strategy rest strategy

normalize_strategies_from : List SweepStrategy → List SweepStrategy → List SweepStrategy
unfolding put_strategy
normalize_strategies_from normalized [] = normalized
normalize_strategies_from normalized (strategy ∷ rest) =
    normalize_strategies_from (put_strategy normalized strategy) rest

unfoldable pub normalize_sweep_strategies : List SweepStrategy → List SweepStrategy
unfolding normalize_strategies_from
normalize_sweep_strategies strategies = normalize_strategies_from [] strategies

abbrev default_windows : List GeneratedWindowOverride
default_windows = map (λ name. record { name = name; days = 3 }) (next ∷ turbo ∷ target ∷ [])

abbrev default_sweeps : List SweepStrategy
default_sweeps =
    record { name = target; tool = rustc_incremental; limit = age_limit 14 }
    ∷ record { name = target; tool = cargo_profile_reset; limit = age_limit 7 }
    ∷ []

unfoldable pub from_names_with_default_sweeps :
    Bool → Bool → List Name → List Name → List (Name × ℕ) → List SweepStrategy → GeneratedDirConfig
unfolding normalize_names normalize_sweep_strategies
from_names_with_default_sweeps include_defaults include_default_sweeps delete_names
      report_only_names overrides strategies =
    record {
      delete_names = normalize_names (
          (if include_defaults then node_modules ∷ next ∷ turbo ∷ target ∷ [] else [])
          ++ delete_names);
      report_only_names =
          normalize_names ((if include_defaults then dist ∷ [] else []) ++ report_only_names);
      window_overrides =
          (if include_defaults then default_windows else [])
          ++ map (λ override. record { name = override.0; days = override.1 }) overrides;
      sweep_strategies = normalize_sweep_strategies (
          (if include_defaults && include_default_sweeps then default_sweeps else [])
          ++ strategies);
      sweep_paths = [];
    }

-- `Vec::dedup` drops what equals its predecessor.
dedup_after : FilePath → List FilePath → List FilePath
dedup_after last [] = []
dedup_after last (path ∷ paths) =
    if path_eq last path then dedup_after last paths else path ∷ dedup_after path paths

dedup : List FilePath → List FilePath
unfolding dedup_after
dedup [] = []
dedup (path ∷ paths) = path ∷ dedup_after path paths

unfoldable pub with_sweep_paths : Machine → GeneratedDirConfig → List FilePath → GeneratedDirConfig
unfolding dedup
with_sweep_paths machine config sweep_paths = record config {
  sweep_paths = dedup (sort_by path_leb (map (resolved machine) sweep_paths));
}

-- `iter().rev().find(..)`: later entries win.
unfoldable pub effective_days : GeneratedDirConfig → Name → ℕ → ℕ
effective_days config name generated_days =
    elim (find (λ override. override.name == name) (reverse config.window_overrides)) [
      | none ↦ generated_days
      | some override ↦ override.days
    ]

unfoldable pub sweep_strategies_of : GeneratedDirConfig → Name → List SweepStrategy
sweep_strategies_of config name = retain (λ strategy. strategy.name == name) config.sweep_strategies

abbrev pub allows_sweep : List FilePath → FilePath → Bool
allows_sweep [] path = true
allows_sweep (first ∷ rest) path = any (λ candidate. path_eq candidate path) (first ∷ rest)

unfoldable pub sweep_strategies_for : GeneratedDirConfig → FilePath → Name → List SweepStrategy
unfolding sweep_strategies_of
sweep_strategies_for config path name =
    if allows_sweep config.sweep_paths path then sweep_strategies_of config name else []

unfoldable pub recognizes_name : GeneratedDirConfig → Name → Bool
recognizes_name config name =
    contains_name config.delete_names name
    || contains_name config.report_only_names name
    || any (λ strategy. strategy.name == name) config.sweep_strategies

unfoldable pub candidate_action :
    GeneratedDirConfig → FilePath → Name → Option GeneratedCandidateAction
unfolding sweep_strategies_for
candidate_action config path name =
    if contains_name config.report_only_names name
    then some candidate_report_only
    else if contains_name config.delete_names name
    then some candidate_delete
    else if not (is_empty (sweep_strategies_for config path name))
    then some candidate_sweep_only
    else none
