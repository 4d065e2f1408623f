-- ===== src/Base/Any.antt =====
-- `iter().any` through the operations on lists: a test that some element passes.
use mathlib.Core.Path.{◌≡◌, refl, sym}
use mathlib.Core.Logic.{inl, inr}
use mathlib.Core.Bool.{Bool, true, ◌&&◌, ◌||◌}
use mathlib.Core.List.{List, [], ◌∷◌, ◌++◌, map}
use native.Mathlib.Omega.{arith}
use worktree_gc.Base.Tests.{Bool-cases, or-eq-true}
use worktree_gc.Base.Lists.{any, retain, All}
use worktree_gc.Base.Sort.{insert_by, sort_by}

pub or_swap : (a b c : Bool) → (a || (b || c)) ≡ (b || (a || c))
or_swap a b c = ground arith

pub or_assoc : (a b c : Bool) → ((a || b) || c) ≡ (a || (b || c))
or_assoc a b c = ground arith

pub or_true : (a : Bool) → (a || true) ≡ true
or_true a = ground arith

module _ {ℓ} {A : Type ℓ} where
  pub any-append : (p : A → Bool) (xs ys : List A) → any p (xs ++ ys) ≡ (any p xs || any p ys)
  any-append p [] ys = refl
  any-append p (x ∷ xs) ys = rw (any-append p xs ys) (sym (or_assoc (p x) (any p xs) (any p ys)))

  pub any-retain : (p q : A → Bool) (xs : List A) → any p (retain q xs) ≡ any (λ x. q x && p x) xs
  any-retain p q [] = refl
  any-retain p q (x ∷ xs) = elim (Bool-cases (q x)) [
    | inl e ↦ rw (e, any-retain p q xs) refl
    | inr e ↦ rw (e, any-retain p q xs) refl
  ]

  pub any-congr : (p q : A → Bool) (xs : List A) → ((x : A) → p x ≡ q x) → any p xs ≡ any q xs
  any-congr p q [] h = refl
  any-congr p q (x ∷ xs) h = rw (h x, any-congr p q xs h) refl

  -- The tests have to agree on the elements only.
  pub any-congr_on : (p q : A → Bool) (xs : List A) → All (λ x. p x ≡ q x) xs → any p xs ≡ any q xs
  any-congr_on p q [] h = refl
  any-congr_on p q (x ∷ xs) h = rw (h.0, any-congr_on p q xs h.1) refl

  pub any-or : (p q : A → Bool) (xs : List A) → any (λ x. p x || q x) xs ≡ (any p xs || any q xs)
  any-or p q [] = refl
  any-or p q (x ∷ xs) = let rest = any-or p q xs in ground arith

  -- A condition that does not depend on the element comes out.
  pub any-and_const :
      (p : A → Bool) (b : Bool) (xs : List A) → any (λ x. p x && b) xs ≡ (any p xs && b)
  any-and_const p b [] = refl
  any-and_const p b (x ∷ xs) = let rest = any-and_const p b xs in ground arith

  any-insert_by :
      (p : A → Bool) (le : A → A → Bool) (x : A) (xs : List A)
      → any p (insert_by le x xs) ≡ (p x || any p xs)
  unfolding insert_by
  any-insert_by p le x [] = refl
  any-insert_by p le x (y ∷ ys) = elim (Bool-cases (le x y)) [
    | inl e ↦ rw e refl
    | inr e ↦ rw (e, any-insert_by p le x ys) (or_swap (p y) (p x) (any p ys))
  ]

  pub any-sort_by :
      (p : A → Bool) (le : A → A → Bool) (xs : List A) → any p (sort_by le xs) ≡ any p xs
  unfolding sort_by
  any-sort_by p le [] = refl
  any-sort_by p le (x ∷ xs) = rw (any-insert_by p le x (sort_by le xs), any-sort_by p le xs) refl

  pub any-all :
      (p q : A → Bool) (xs : List A)
      → ((x : A) → p x ≡ true → q x ≡ true)
      → any p xs ≡ true
      → any q xs ≡ true
  any-all p q [] f h = h
  any-all p q (x ∷ xs) f h = elim (or-eq-true (p x) (any p xs) h) [
    | inl e ↦ rw (f x e) refl
    | inr e ↦ let k = any-all p q xs f e in ground arith
  ]

module _ {ℓ κ} {A : Type ℓ} {B : Type κ} where
  pub any-map : (p : B → Bool) (f : A → B) (xs : List A) → any p (map f xs) ≡ any (λ x. p (f x)) xs
  any-map p f [] = refl
  any-map p f (x ∷ xs) = rw (any-map p f xs) refl
