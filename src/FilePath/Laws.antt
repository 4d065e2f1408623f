-- ===== src/FilePath/Laws.antt =====
-- Prefixes of paths form an order, up to the spelling of the paths.
use worktree_gc.Base.{
  ◌≡◌, ◌↔◌, refl, true, List, [], ◌∷◌, arith, ◌==◌, ==→eq, ==_refl, list_beq_iff, ◌⊎◌, inl, inr,
  and-eq-true, ◌≤◌, length, eq_of_iff, sym,
}
use worktree_gc.FilePath.{
  FilePath, Component, components, is_prefix, starts_with, path_eq, component_eq,
}

pub path_eq_iff : (a b : FilePath) → (path_eq a b ≡ true) ↔ (components a ≡ components b)
unfolding path_eq
path_eq_iff a b = list_beq_iff (components a) (components b)

-- `path_eq` is an equivalence.
pub path_eq_sym : (a b : FilePath) → path_eq a b ≡ path_eq b a
path_eq_sym a b =
    eq_of_iff (path_eq a b) (path_eq b a) (λ h. (path_eq_iff b a).1 (sym ((path_eq_iff a b).0 h)))
      (λ h. (path_eq_iff a b).1 (sym ((path_eq_iff b a).0 h)))

pub is_prefix_refl : (cs : List Component) → is_prefix cs cs ≡ true
is_prefix_refl [] = refl
is_prefix_refl (c ∷ cs) = rw (==_refl c) (is_prefix_refl cs)

pub is_prefix_trans :
    (as' bs cs : List Component)
    → is_prefix as' bs ≡ true
    → is_prefix bs cs ≡ true
    → is_prefix as' cs ≡ true
is_prefix_trans [] bs cs h k = refl
is_prefix_trans (a ∷ as') [] cs h k = cc
is_prefix_trans (a ∷ as') (b ∷ bs) [] h k = cc
is_prefix_trans (a ∷ as') (b ∷ bs) (c ∷ cs) h k =
    let (e, r) = and-eq-true (a == b) _ h in
    let (e', r') = and-eq-true (b == c) _ k in rw (==→eq a b e, e') (is_prefix_trans as' bs cs r r')

pub length-is_prefix-le :
    (as' bs : List Component) → is_prefix as' bs ≡ true → length as' ≤ length bs
length-is_prefix-le [] bs h = omega arith
length-is_prefix-le (a ∷ as') [] h = cc
length-is_prefix-le (a ∷ as') (b ∷ bs) h =
    omega (arith, length-is_prefix-le as' bs (and-eq-true (a == b) _ h).1)

-- Two prefixes of one path are comparable.
pub is_prefix_total :
    (as' bs cs : List Component)
    → is_prefix as' cs ≡ true
    → is_prefix bs cs ≡ true
    → (is_prefix as' bs ≡ true) ⊎ (is_prefix bs as' ≡ true)
is_prefix_total [] bs cs h k = inl refl
is_prefix_total (a ∷ as') [] cs h k = inr refl
is_prefix_total (a ∷ as') (b ∷ bs) [] h k = cc
is_prefix_total (a ∷ as') (b ∷ bs) (c ∷ cs) h k =
    let (e, r) = and-eq-true (a == c) _ h in
    let (e', r') = and-eq-true (b == c) _ k in
    let l = is_prefix_total as' bs cs r r' in rw (==→eq a c e, ==→eq b c e', ==_refl c) l

pub starts_with_refl : (p : FilePath) → starts_with p p ≡ true
unfolding starts_with
starts_with_refl p = is_prefix_refl (components p)

pub starts_with_trans :
    (p q r : FilePath) → starts_with p q ≡ true → starts_with q r ≡ true → starts_with p r ≡ true
unfolding starts_with
starts_with_trans p q r h k = is_prefix_trans (components r) (components q) (components p) k h
