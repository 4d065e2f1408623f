-- ===== src/Base/Sort.antt =====
-- The stable sorts of the standard library, `sort_by` and `sort_by_key`, as insertion sort by a test
-- that stands for `left <= right`, and `max_by_key`, which keeps the last of the greatest.
use Prim.Native.Nat.{ℕ, ◌≤◌}
use mathlib.Core.Path.{◌≡◌, refl, sym, subst}
use mathlib.Core.Logic.{inl, inr}
use mathlib.Core.Bool.{Bool, true}
use mathlib.Core.Option.{Option, none, some}
use mathlib.Core.List.{List, [], ◌∷◌, Perm}
use mathlib.Core.List.Perm
use native.Mathlib.Omega.{arith}
use worktree_gc.Base.Tests.{if◌then◌else◌, leb, Bool-cases}
use worktree_gc.Base.Lists.{All}

module _ {ℓ} {A : Type ℓ} where
  unfoldable pub insert_by : (A → A → Bool) → A → List A → List A
  insert_by le x [] = x ∷ []
  insert_by le x (y ∷ ys) = if le x y then x ∷ y ∷ ys else y ∷ insert_by le x ys

  unfoldable pub sort_by : (A → A → Bool) → List A → List A
  unfolding insert_by
  sort_by le [] = []
  sort_by le (x ∷ xs) = insert_by le x (sort_by le xs)

  insert_by-perm : (le : A → A → Bool) (x : A) (xs : List A) → Perm (insert_by le x xs) (x ∷ xs)
  unfolding insert_by
  insert_by-perm le x [] = Perm.refl (x ∷ [])
  insert_by-perm le x (y ∷ ys) = elim (Bool-cases (le x y)) [
    | inl e ↦ rw e (Perm.refl (x ∷ y ∷ ys))
    | inr e ↦ rw e (Perm.trans (Perm.cons y (insert_by-perm le x ys)) (Perm.swap x y ys))
  ]

  -- Sorting rearranges.
  pub sort_by-perm : (le : A → A → Bool) (xs : List A) → Perm (sort_by le xs) xs
  unfolding sort_by
  sort_by-perm le [] = Perm.nil
  sort_by-perm le (x ∷ xs) =
      Perm.trans (insert_by-perm le x (sort_by le xs)) (Perm.cons x (sort_by-perm le xs))

  pub insert_by-All {κ} :
      (P : A → Type κ) (le : A → A → Bool) (x : A) (xs : List A)
      → P x
      → All P xs
      → All P (insert_by le x xs)
  unfolding insert_by
  insert_by-All P le x [] p h = (p, tt)
  insert_by-All P le x (y ∷ ys) p h = elim (Bool-cases (le x y)) [
    | inl e ↦ rw e (p, h)
    | inr e ↦ rw e (h.0, insert_by-All P le x ys p h.1)
  ]

  pub sort_by-All {κ} :
      (P : A → Type κ) (le : A → A → Bool) (xs : List A) → All P xs → All P (sort_by le xs)
  unfolding sort_by
  sort_by-All P le [] h = tt
  sort_by-All P le (x ∷ xs) h = insert_by-All P le x (sort_by le xs) h.0 (sort_by-All P le xs h.1)

  All-of_insert_by {κ} :
      (P : A → Type κ) (le : A → A → Bool) (x : A) (xs : List A)
      → All P (insert_by le x xs)
      → P x × All P xs
  unfolding insert_by
  All-of_insert_by P le x [] h = (h.0, tt)
  All-of_insert_by P le x (y ∷ ys) h = elim (Bool-cases (le x y)) [
    | inl e ↦ subst (λ b. All P (if b then x ∷ y ∷ ys else y ∷ insert_by le x ys)) e h
    | inr e ↦
        let k : All P (y ∷ insert_by le x ys) =
          subst (λ b. All P (if b then x ∷ y ∷ ys else y ∷ insert_by le x ys)) e h in
        let (p, r) = All-of_insert_by P le x ys k.1 in (p, (k.0, r))
  ]

  pub All-of_sort_by {κ} :
      (P : A → Type κ) (le : A → A → Bool) (xs : List A) → All P (sort_by le xs) → All P xs
  unfolding sort_by
  All-of_sort_by P le [] h = tt
  All-of_sort_by P le (x ∷ xs) h =
      let (p, r) = All-of_insert_by P le x (sort_by le xs) h in (p, All-of_sort_by P le xs r)

  -- Each element is below all that follow it.
  abbrev pub IsSorted : (A → A → Bool) → List A → Type ℓ
  IsSorted le [] = Unit
  IsSorted le (x ∷ xs) = All (λ y. le x y ≡ true) xs × IsSorted le xs

  max_from : (A → ℕ) → A → List A → A
  max_from key best [] = best
  max_from key best (x ∷ xs) = max_from key (if leb (key best) (key x) then x else best) xs

  unfoldable pub max_by_key : (A → ℕ) → List A → Option A
  unfolding max_from
  max_by_key key [] = none
  max_by_key key (x ∷ xs) = some (max_from key x xs)

  max_from-all {κ} :
      (P : A → Type κ) (key : A → ℕ) (best : A) (xs : List A)
      → P best
      → All P xs
      → P (max_from key best xs)
  unfolding max_from
  max_from-all P key best [] p h = p
  max_from-all P key best (x ∷ xs) p h = elim (Bool-cases (leb (key best) (key x))) [
    | inl e ↦ rw e (max_from-all P key x xs h.0 h.1)
    | inr e ↦ rw e (max_from-all P key best xs p h.1)
  ]

  max_from-bound :
      (key : A → ℕ) (best : A) (xs : List A)
      → All (λ x. key x ≤ key (max_from key best xs)) (best ∷ xs)
  unfolding max_from
  max_from-bound key best [] = (omega arith, tt)
  max_from-bound key best (x ∷ xs) = elim (Bool-cases (leb (key best) (key x))) [
    | inl e ↦
        let (a, b) = max_from-bound key x xs in
        let s : key best ≤ key x = ground arith in
        subst
          (λ t. All (λ y. key y ≤ key (max_from key (if t then x else best) xs)) (best ∷ x ∷ xs))
          (sym e) (omega arith, (a, b))
    | inr e ↦
        let (a, b) = max_from-bound key best xs in
        let s : key x ≤ key best = ground arith in
        subst
          (λ t. All (λ y. key y ≤ key (max_from key (if t then x else best) xs)) (best ∷ x ∷ xs))
          (sym e) (a, (omega arith, b))
  ]

  -- What is found is an element, and none has a greater key.
  pub max_by_key-some {κ} :
      (P : A → Type κ) (key : A → ℕ) (xs : List A) (m : A)
      → All P xs
      → max_by_key key xs ≡ some m
      → P m × All (λ x. key x ≤ key m) xs
  unfolding max_by_key
  max_by_key-some P key [] m h e = cc
  max_by_key-some P key (x ∷ xs) m h e =
      let same : max_from key x xs ≡ m = cc in
      subst (λ t. P t × All (λ y. key y ≤ key t) (x ∷ xs)) same
        (max_from-all P key x xs h.0 h.1, max_from-bound key x xs)

  pub max_by_key-none : (key : A → ℕ) (xs : List A) → max_by_key key xs ≡ none → xs ≡ []
  unfolding max_by_key
  max_by_key-none key [] e = refl
  max_by_key-none key (x ∷ xs) e = cc
