-- ===== src/FilePath/Same.antt =====
-- Equal paths cannot be told apart by prefixes, and lists without equal neighbours, or without equal
-- elements, hold the same paths.
use worktree_gc.Base.{
  ℕ, Option, none, some, find, find-some, list_beq, list_beq_refl, Bool-cases, is_nil, not, ◌&&◌,
  ◌||◌, ◌≡◌, refl, sym, ◌∙◌, ap, true, List, [], ◌∷◌, any, arith, inl, inr, eq_of_iff, or-eq-true,
}
use worktree_gc.FilePath.{
  FilePath, components, is_prefix, starts_with, has_ancestor, ancestor_spelling, component_eq,
  prefixes_behind, is_rooted, path_eq,
}
use worktree_gc.FilePath.Laws.{path_eq_iff, path_eq_sym}

pub starts_with-path_eq_right :
    (p q r : FilePath) → path_eq q r ≡ true → starts_with p q ≡ starts_with p r
unfolding starts_with
starts_with-path_eq_right p q r e = ap (λ cs. is_prefix cs (components p)) ((path_eq_iff q r).0 e)

pub starts_with-path_eq_left :
    (p q r : FilePath) → path_eq p q ≡ true → starts_with p r ≡ starts_with q r
unfolding starts_with
starts_with-path_eq_left p q r e = ap (λ cs. is_prefix (components r) cs) ((path_eq_iff p q).0 e)

pub has_ancestor-path_eq_right :
    (p q r : FilePath) → path_eq q r ≡ true → has_ancestor p q ≡ has_ancestor p r
unfolding has_ancestor
has_ancestor-path_eq_right p q r e =
    ap (λ cs. is_prefix cs (components p) && (not (is_nil cs) || not (is_rooted (components p))))
      ((path_eq_iff q r).0 e)

pub has_ancestor-path_eq_left :
    (p q r : FilePath) → path_eq p q ≡ true → has_ancestor p r ≡ has_ancestor q r
unfolding has_ancestor
has_ancestor-path_eq_left p q r e =
    ap (λ cs. is_prefix (components r) cs && (not (is_nil (components r)) || not (is_rooted cs)))
      ((path_eq_iff p q).0 e)

-- What has an ancestor lies under it.
pub has_ancestor-starts_with : (p q : FilePath) → has_ancestor p q ≡ true → starts_with p q ≡ true
unfolding has_ancestor starts_with
has_ancestor-starts_with p q h = ground arith

pub path_eq_refl : (p : FilePath) → path_eq p p ≡ true
path_eq_refl p = (path_eq_iff p p).1 refl

pub path_eq_trans :
    (p q r : FilePath) → path_eq p q ≡ true → path_eq q r ≡ true → path_eq p r ≡ true
path_eq_trans p q r h k = (path_eq_iff p r).1 ((path_eq_iff p q).0 h ∙ (path_eq_iff q r).0 k)

pub path_eq-path_eq_left : (p q r : FilePath) → path_eq p q ≡ true → path_eq p r ≡ path_eq q r
path_eq-path_eq_left p q r e =
    eq_of_iff (path_eq p r) (path_eq q r) (λ h. path_eq_trans q p r (sym (path_eq_sym p q) ∙ e) h)
      (λ h. path_eq_trans p q r e h)

-- Among a set of paths a path is found by its prefix test when it is one of them.
pub any-has_ancestor_member :
    (path root : FilePath) (roots : List FilePath)
    → any (λ r. path_eq r root) roots ≡ true
    → has_ancestor path root ≡ true
    → any (λ r. has_ancestor path r) roots ≡ true
any-has_ancestor_member path root [] h k = h
any-has_ancestor_member path root (r ∷ roots) h k =
    elim (or-eq-true (path_eq r root) (any (λ r. path_eq r root) roots) h) [
      | inl e ↦ rw (has_ancestor-path_eq_right path r root e, k) refl
      | inr e ↦ let rest = any-has_ancestor_member path root roots e k in ground arith
    ]

-- The spelling of an ancestor does not change which path it is.
pub path_eq-ancestor_spelling :
    (path ancestor : FilePath) → path_eq (ancestor_spelling path ancestor) ancestor ≡ true
unfolding path_eq ancestor_spelling
path_eq-ancestor_spelling path ancestor =
    elim (Bool-cases (list_beq (components path) (components ancestor))) [
      | inl e ↦ rw (e, e) refl
      | inr e ↦ rw e (found _ refl)
    ]
  where
    found :
        (o : Option (List ℕ))
        → find
            (λ bytes. list_beq (components (record { bytes = bytes })) (components ancestor))
            (prefixes_behind [] path.bytes)
          ≡ o
        → list_beq
            (components (elim o as (λ _. FilePath) [
              | none ↦ ancestor
              | some bytes ↦ record { bytes = bytes }
            ]))
            (components ancestor)
          ≡ true
    found none h = list_beq_refl (components ancestor)
    found (some bytes) h =
        find-some (λ b. list_beq (components (record { bytes = b })) (components ancestor))
          (prefixes_behind [] path.bytes) bytes h
