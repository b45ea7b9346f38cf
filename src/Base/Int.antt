-- ===== src/Base/Int.antt =====
-- The C++ `int`: `negsuc n` is -(n + 1).
use Prim.Native.Nat.{ℕ}
use mathlib.Core.Path.{◌≡◌}
use mathlib.Core.Logic.{◌↔◌}
use mathlib.Core.Bool.{Bool, true, false}
use native.Mathlib.Omega.{arith}
use fncs.Base.Tests.{ltb, ◌==◌ as nat_beq}
use fncs.Base.Ordered.{Key}

pub data ℤ : Type 0 where
  pos : ℕ → ℤ
  negsuc : ℕ → ℤ

abbrev pub int_beq : ℤ → ℤ → Bool
int_beq (pos a) (pos b) = nat_beq a b
int_beq (pos a) (negsuc b) = false
int_beq (negsuc a) (pos b) = false
int_beq (negsuc a) (negsuc b) = nat_beq a b

abbrev pub int_lt : ℤ → ℤ → Bool
int_lt (pos a) (pos b) = ltb a b
int_lt (pos a) (negsuc b) = false
int_lt (negsuc a) (pos b) = true
int_lt (negsuc a) (negsuc b) = ltb b a

pub int_beq_iff : (a b : ℤ) → (int_beq a b ≡ true) ↔ (a ≡ b)
int_beq_iff (pos a) (pos b) = (λ h. ground arith, λ h. ground arith)
int_beq_iff (pos a) (negsuc b) = (λ h. cc, λ h. cc)
int_beq_iff (negsuc a) (pos b) = (λ h. cc, λ h. cc)
int_beq_iff (negsuc a) (negsuc b) = (λ h. ground arith, λ h. ground arith)

instance abbrev pub int_key : Key ℤ
int_key = record { beq = int_beq; lt = int_lt; beq_iff = int_beq_iff }
