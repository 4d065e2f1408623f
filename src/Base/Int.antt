-- ===== src/Base/Int.antt =====
-- `i64`: signed integers over the native numbers; `negsuc n` is -(n + 1).
use Prim.Native.Nat.{ℕ}
use mathlib.Core.Path.{◌≡◌, ap}
use mathlib.Core.Logic.{◌↔◌}
use mathlib.Core.Bool.{Bool, true, false}
use worktree_gc.Base.Tests.{nat_beq, nat_beq_iff, leb}
use worktree_gc.Base.Equality.{Eq}

pub data ℤ : Type 0 where
  pos : ℕ → ℤ
  negsuc : ℕ → ℤ

abbrev pub int_beq : ℤ → ℤ → Bool
int_beq (pos a) (pos b) = nat_beq a b
int_beq (negsuc a) (negsuc b) = nat_beq a b
int_beq (pos _) (negsuc _) = false
int_beq (negsuc _) (pos _) = false

pub int_beq_iff : (a b : ℤ) → (int_beq a b ≡ true) ↔ (a ≡ b)
int_beq_iff (pos a) (pos b) = (λ h. ap pos ((nat_beq_iff a b).0 h), λ h. (nat_beq_iff a b).1 (cc h))
int_beq_iff (negsuc a) (negsuc b) =
    (λ h. ap negsuc ((nat_beq_iff a b).0 h), λ h. (nat_beq_iff a b).1 (cc h))
int_beq_iff (pos _) (negsuc _) = (λ h. cc h, λ h. cc h)
int_beq_iff (negsuc _) (pos _) = (λ h. cc h, λ h. cc h)

instance abbrev pub int_eq : Eq ℤ
int_eq = record { equal = int_beq; decides = int_beq_iff }

-- a <= b
abbrev pub int_leb : ℤ → ℤ → Bool
int_leb (pos a) (pos b) = leb a b
int_leb (pos _) (negsuc _) = false
int_leb (negsuc _) (pos _) = true
int_leb (negsuc a) (negsuc b) = leb b a
