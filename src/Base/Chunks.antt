-- ===== src/Base/Chunks.antt =====
-- `slice::chunks`.
use Prim.Native.Nat.{ℕ, zero, suc, ◌≤◌}
use mathlib.Core.Path.{◌≡◌, refl, ap, ◌∙◌}
use mathlib.Core.List.{List, [], ◌∷◌, ◌++◌}
use native.Mathlib.Omega.{arith}
use worktree_gc.Base.Lists.{
  length, take, drop, All, take-append-drop, length-take-le, length-drop-le,
}

-- The fuel is the length of the list.
chunks_from {ℓ} : {A : Type ℓ} → ℕ → ℕ → List A → List (List A)
chunks_from size fuel [] = []
chunks_from size zero (x ∷ xs) = []
chunks_from size (suc fuel) (x ∷ xs) =
    take size (x ∷ xs) ∷ chunks_from size fuel (drop size (x ∷ xs))

unfoldable pub chunks {ℓ} : {A : Type ℓ} → ℕ → List A → List (List A)
unfolding chunks_from
chunks size xs = chunks_from size (length xs) xs

abbrev pub join {ℓ} : {A : Type ℓ} → List (List A) → List A
join [] = []
join (xs ∷ xss) = xs ++ join xss

-- With a size that is not zero the length of the list is enough fuel, and the chunks joined are the
-- list.
join-chunks_from {ℓ} :
    {A : Type ℓ} (size fuel : ℕ) (xs : List A)
    → length xs ≤ fuel
    → join (chunks_from (suc size) fuel xs) ≡ xs
unfolding chunks_from
join-chunks_from size fuel [] h = refl
join-chunks_from size zero (x ∷ xs) h = absurd (omega arith)
join-chunks_from size (suc fuel) (x ∷ xs) h =
    ap (λ rest. x ∷ (take size xs ++ rest))
      (join-chunks_from size fuel (drop size xs) (omega (arith, length-drop-le size xs)))
    ∙ ap (◌∷◌ x) (take-append-drop size xs)

All-chunks_from {ℓ} :
    {A : Type ℓ} (size fuel : ℕ) (xs : List A)
    → All (λ chunk. length chunk ≤ suc size) (chunks_from (suc size) fuel xs)
unfolding chunks_from
All-chunks_from size fuel [] = tt
All-chunks_from size zero (x ∷ xs) = tt
All-chunks_from size (suc fuel) (x ∷ xs) =
    (omega (arith, length-take-le size xs), All-chunks_from size fuel (drop size xs))

-- Cutting a list into chunks of a size that is not zero loses nothing and changes no order, and no
-- chunk is longer than the size.
pub chunks_lem {ℓ} :
    {A : Type ℓ} (size : ℕ) (xs : List A)
    → (join (chunks (suc size) xs) ≡ xs)
      × All (λ chunk. length chunk ≤ suc size) (chunks (suc size) xs)
unfolding chunks
chunks_lem size xs =
    (join-chunks_from size (length xs) xs (omega arith), All-chunks_from size (length xs) xs)
