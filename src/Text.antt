-- ===== src/Text.antt =====
-- Texts as their code points, with the tests of `char` that the program uses, and the saturating
-- arithmetic of `u64`.
use worktree_gc.Base.{
  ◌++◌, ◌/◌, ◌%◌, ℕ, ◌+◌, ◌*◌, Bool, ◌&&◌, ◌||◌, List, [], ◌∷◌, leb, nat_beq, if◌then◌else◌, min,
}
use mathlib.Core.List.{reverse}

abbrev between : ℕ → ℕ → ℕ → Bool
between low high c = leb low c && leb c high

-- The code points with the property White_Space, which `trim` removes at both ends.
unfoldable pub is_whitespace : ℕ → Bool
is_whitespace c =
    between 9 13 c
    || nat_beq c 32
    || nat_beq c 133
    || nat_beq c 160
    || nat_beq c 5760
    || between 8192 8202 c
    || between 8232 8233 c
    || nat_beq c 8239
    || nat_beq c 8287
    || nat_beq c 12288

-- General category Cc.
unfoldable pub is_control : ℕ → Bool
is_control c = leb c 31 || between 127 159 c

unfoldable pub trim_start : List ℕ → List ℕ
trim_start [] = []
trim_start (c ∷ cs) = if is_whitespace c then trim_start cs else c ∷ cs

unfoldable pub trim : List ℕ → List ℕ
trim text = reverse (trim_start (reverse (trim_start text)))

abbrev pub u64_max : ℕ
u64_max = 18_446_744_073_709_551_615

unfoldable pub saturating_add : ℕ → ℕ → ℕ
saturating_add a b = min (a + b) u64_max

unfoldable pub saturating_mul : ℕ → ℕ → ℕ
saturating_mul a b = min (a * b) u64_max

-- The bytes of a text in UTF-8.
encode_char : ℕ → List ℕ
encode_char c =
    if leb c 127
    then c ∷ []
    else if leb c 2_047
    then (192 + c / 64) ∷ (128 + c % 64) ∷ []
    else if leb c 65_535
    then (224 + c / 4_096) ∷ (128 + (c / 64) % 64) ∷ (128 + c % 64) ∷ []
    else (240 + c / 262_144)
      ∷ (128 + (c / 4_096) % 64)
      ∷ (128 + (c / 64) % 64)
      ∷ (128 + c % 64)
      ∷ []

unfoldable pub encode_utf8 : List ℕ → List ℕ
unfolding encode_char
encode_utf8 [] = []
encode_utf8 (c ∷ cs) = encode_char c ++ encode_utf8 cs
