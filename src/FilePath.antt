-- ===== src/FilePath.antt =====
-- `std::path::Path` on Unix, as the program uses it: a path is its bytes, and equality, order and
-- prefixes go by its components.
pub mod Laws
pub mod Same
use worktree_gc.Base.{
  is_nil, find, not, ◌++◌, none, some, ℕ, ◌≡◌, Bool, true, false, ◌&&◌, ◌||◌, List, [], ◌∷◌, ltb,
  length, Eq, ◌==◌, nat_beq, if◌then◌else◌, any, ◌↔◌, refl, ap, arith, list_beq, list_beq_iff,
  nat_eq, list_eq, nat_beq_iff,
}

pub record FilePath : Type 0 where
  pub bytes : List ℕ

pub data Component : Type 0 where
  root_dir cur_dir parent_dir : Component
  normal : List ℕ → Component

abbrev pub component_beq : Component → Component → Bool
component_beq root_dir root_dir = true
component_beq cur_dir cur_dir = true
component_beq parent_dir parent_dir = true
component_beq (normal a) (normal b) = list_beq a b
component_beq _ _ = false

pub component_beq_iff : (a b : Component) → (component_beq a b ≡ true) ↔ (a ≡ b)
component_beq_iff root_dir root_dir = (λ _. refl, λ _. refl)
component_beq_iff cur_dir cur_dir = (λ _. refl, λ _. refl)
component_beq_iff parent_dir parent_dir = (λ _. refl, λ _. refl)
component_beq_iff (normal a) (normal b) =
    (λ h. ap normal ((list_beq_iff a b).0 h), λ h. (list_beq_iff a b).1 (cc h))
component_beq_iff _ _ = (λ h. cc h, λ h. cc h)

instance abbrev pub component_eq : Eq Component
component_eq = record { equal = component_beq; decides = component_beq_iff }

-- The pieces between the separators: one more than there are separators.
abbrev prepend : ℕ → List (List ℕ) → List (List ℕ)
prepend b [] = (b ∷ []) ∷ []
prepend b (piece ∷ pieces) = (b ∷ piece) ∷ pieces

unfoldable pub split_separator : List ℕ → List (List ℕ)
split_separator [] = [] ∷ []
split_separator (b ∷ bs) =
    if nat_beq b b'/' then [] ∷ split_separator bs else prepend b (split_separator bs)

abbrev pub dot : List ℕ
dot = b'.' ∷ []

abbrev pub dot_dot : List ℕ
dot_dot = b'.' ∷ b'.' ∷ []

-- Empty pieces and `.` are passed over.
unfoldable pub piece_components : List (List ℕ) → List Component
piece_components [] = []
piece_components (piece ∷ pieces) =
    if piece == [] || piece == dot
    then piece_components pieces
    else (if piece == dot_dot then parent_dir else normal piece) ∷ piece_components pieces

unfoldable pub is_absolute : FilePath → Bool
is_absolute p = elim p.bytes [ [] ↦ false | b ∷ _ ↦ nat_beq b b'/' ]

-- A leading `.` of a relative path is kept.
abbrev leading_components : Bool → List (List ℕ) → List Component
leading_components absolute [] = []
leading_components absolute (piece ∷ pieces) =
    if absolute
    then root_dir ∷ piece_components (piece ∷ pieces)
    else if piece == dot
    then cur_dir ∷ piece_components pieces
    else piece_components (piece ∷ pieces)

unfoldable pub components : FilePath → List Component
unfolding is_absolute split_separator piece_components
components p = leading_components (is_absolute p) (split_separator p.bytes)

abbrev pub is_prefix : List Component → List Component → Bool
is_prefix [] cs = true
is_prefix (b ∷ bs) [] = false
is_prefix (b ∷ bs) (c ∷ cs) = b == c && is_prefix bs cs

-- `path.starts_with(base)`
unfoldable pub starts_with : FilePath → FilePath → Bool
starts_with path base = is_prefix (components base) (components path)

-- Whether the components start at the root.
abbrev pub is_rooted : List Component → Bool
is_rooted (root_dir ∷ _) = true
is_rooted _ = false

-- Whether some path among `path.ancestors()` equals the other: the ancestors of a path from the root do
-- not end in the empty path.
unfoldable pub has_ancestor : FilePath → FilePath → Bool
has_ancestor path base =
    is_prefix (components base) (components path)
    && (not (is_nil (components base)) || not (is_rooted (components path)))

abbrev pub prefixes_behind : List ℕ → List ℕ → List (List ℕ)
prefixes_behind before [] = before ∷ []
prefixes_behind before (b ∷ bs) = before ∷ prefixes_behind (before ++ (b ∷ [])) bs

-- An ancestor in its own spelling: the path itself, or the shortest of its beginnings that has the
-- components of the ancestor.
unfoldable pub ancestor_spelling : FilePath → FilePath → FilePath
ancestor_spelling path ancestor =
    if list_beq (components path) (components ancestor)
    then path
    else elim (find
        (λ bytes. list_beq (components (record { bytes = bytes })) (components ancestor))
        (prefixes_behind [] path.bytes)) [ none ↦ ancestor | some bytes ↦ record { bytes = bytes } ]

unfoldable pub path_eq : FilePath → FilePath → Bool
path_eq a b = list_beq (components a) (components b)

-- `Ord` of components: by variant, and normal components by their bytes.
abbrev pub bytes_leb : List ℕ → List ℕ → Bool
bytes_leb [] bs = true
bytes_leb (a ∷ as') [] = false
bytes_leb (a ∷ as') (b ∷ bs) = ltb a b || (nat_beq a b && bytes_leb as' bs)

abbrev variant : Component → ℕ
variant root_dir = 0
variant cur_dir = 1
variant parent_dir = 2
variant (normal _) = 3

abbrev component_leb : Component → Component → Bool
component_leb (normal a) (normal b) = bytes_leb a b
component_leb a b = ltb (variant a) (variant b) || nat_beq (variant a) (variant b)

abbrev components_leb : List Component → List Component → Bool
components_leb [] ds = true
components_leb (c ∷ cs) [] = false
components_leb (c ∷ cs) (d ∷ ds) = if c == d then components_leb cs ds else component_leb c d

-- `a.cmp(b) != Greater`
unfoldable pub path_leb : FilePath → FilePath → Bool
path_leb a b = components_leb (components a) (components b)

two_spellings :
    path_eq
      (record { bytes = b'/' ∷ b'a' ∷ b'/' ∷ b'.' ∷ b'/' ∷ b'/' ∷ b'b' ∷ [] })
      (record { bytes = b'/' ∷ b'a' ∷ b'/' ∷ b'b' ∷ b'/' ∷ [] })
    ≡ true
unfolding path_eq components
two_spellings = refl
