-- ===== src/Base/Pairs.antt =====
-- Lists of which each element stands in a relation to all that follow it.
use mathlib.Core.Path.{◌≡◌, sym, subst}
use mathlib.Core.Logic.{inl, inr}
use mathlib.Core.Bool.{Bool, true, false}
use mathlib.Core.List.{List, [], ◌∷◌, ◌++◌}
use worktree_gc.Base.Tests.{if◌then◌else◌, Bool-cases}
use worktree_gc.Base.Lists.{All, All-map, All-retain, All-append, retain}
use worktree_gc.Base.Sort.{insert_by, sort_by, sort_by-All, insert_by-All}

module _ {ℓ κ} {A : Type ℓ} (R : A → A → Type κ) where
  abbrev pub AllPairs : List A → Type κ
  AllPairs [] = Unit
  AllPairs (x ∷ xs) = All (R x) xs × AllPairs xs

  pub AllPairs-retain : (p : A → Bool) (xs : List A) → AllPairs xs → AllPairs (retain p xs)
  AllPairs-retain p [] h = tt
  AllPairs-retain p (x ∷ xs) h = elim (Bool-cases (p x)) [
    | inl e ↦
        subst (λ b. AllPairs (if b then x ∷ retain p xs else retain p xs)) (sym e)
          (All-retain (R x) p xs h.0, AllPairs-retain p xs h.1)
    | inr e ↦
        subst (λ b. AllPairs (if b then x ∷ retain p xs else retain p xs)) (sym e)
          (AllPairs-retain p xs h.1)
  ]

  pub AllPairs-snoc :
      (xs : List A) (x : A) → All (λ y. R y x) xs → AllPairs xs → AllPairs (xs ++ (x ∷ []))
  AllPairs-snoc [] x r h = (tt, tt)
  AllPairs-snoc (y ∷ ys) x r h =
      (All-append (R y) ys (x ∷ []) h.0 (r.0, tt), AllPairs-snoc ys x r.1 h.1)

  module _ (symmetric : (x y : A) → R x y → R y x) where
    All-symmetric : (x : A) (ys : List A) → All (R x) ys → All (λ y. R y x) ys
    All-symmetric x [] h = tt
    All-symmetric x (y ∷ ys) h = (symmetric x y h.0, All-symmetric x ys h.1)

    AllPairs-insert_by :
        (le : A → A → Bool) (x : A) (xs : List A)
        → All (R x) xs
        → AllPairs xs
        → AllPairs (insert_by le x xs)
    unfolding insert_by
    AllPairs-insert_by le x [] r h = (tt, tt)
    AllPairs-insert_by le x (y ∷ ys) r h = elim (Bool-cases (le x y)) [
      | inl e ↦
          subst (λ b. AllPairs (if b then x ∷ y ∷ ys else y ∷ insert_by le x ys)) (sym e) (r, h)
      | inr e ↦
          subst (λ b. AllPairs (if b then x ∷ y ∷ ys else y ∷ insert_by le x ys)) (sym e)
            (
              insert_by-All (R y) le x ys (symmetric x y r.0) h.0,
              AllPairs-insert_by le x ys r.1 h.1,
            )
    ]

    pub AllPairs-sort_by :
        (le : A → A → Bool) (xs : List A) → AllPairs xs → AllPairs (sort_by le xs)
    unfolding sort_by
    AllPairs-sort_by le [] h = tt
    AllPairs-sort_by le (x ∷ xs) h =
        AllPairs-insert_by le x (sort_by le xs) (sort_by-All (R x) le xs h.0)
          (AllPairs-sort_by le xs h.1)

module _ {ℓ κ} {A : Type ℓ} (R : A → A → Type κ) (le : A → A → Bool)
    (transitive : (x y z : A) → R x y → R y z → R x z) (below : (x y : A) → le x y ≡ true → R x y)
    (above : (x y : A) → le x y ≡ false → R y x) where
  AllPairs-insert_sorted : (x : A) (xs : List A) → AllPairs R xs → AllPairs R (insert_by le x xs)
  unfolding insert_by
  AllPairs-insert_sorted x [] h = (tt, tt)
  AllPairs-insert_sorted x (y ∷ ys) h = elim (Bool-cases (le x y)) [
    | inl e ↦
        subst (λ b. AllPairs R (if b then x ∷ y ∷ ys else y ∷ insert_by le x ys)) (sym e)
          ((below x y e, All-map ys (λ z r. transitive x y z (below x y e) r) h.0), h)
    | inr e ↦
        subst (λ b. AllPairs R (if b then x ∷ y ∷ ys else y ∷ insert_by le x ys)) (sym e)
          (insert_by-All (R y) le x ys (above x y e) h.0, AllPairs-insert_sorted x ys h.1)
  ]

  -- A sort by a test puts in order what the test decides.
  pub AllPairs-of_sort_by : (xs : List A) → AllPairs R (sort_by le xs)
  unfolding sort_by
  AllPairs-of_sort_by [] = tt
  AllPairs-of_sort_by (x ∷ xs) = AllPairs-insert_sorted x (sort_by le xs) (AllPairs-of_sort_by xs)
