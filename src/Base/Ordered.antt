-- ===== src/Base/Ordered.antt =====
-- The order of the keys of a `std::map` or `std::set`: equality and `operator<` as tests.
use Prim.Native.Nat.{ℕ}
use mathlib.Core.Path.{◌≡◌, refl}
use mathlib.Core.Logic.{◌↔◌}
use mathlib.Core.Bool.{Bool, true, false, ◌&&◌, ◌||◌}
use mathlib.Core.List.{List, [], ◌∷◌}
use Prim.Native.Char.{code}
use Prim.Native.String.{String}
use native.Mathlib.Omega.{arith}
use fncs.Base.Tests.{ltb, ◌==◌ as nat_beq, ==_iff}

pub record Key (K : Type 0) : Type 0 where
  pub beq : K → K → Bool
  pub lt : K → K → Bool
  pub beq_iff : (a b : K) → (beq a b ≡ true) ↔ (a ≡ b)

infix 50 ◌==◌
abbrev pub ◌==◌ : {K : Type 0} ⦃k : Key K⦄ → K → K → Bool
◌==◌ ⦃k⦄ = k.beq

instance abbrev pub nat_key : Key ℕ
nat_key = record { beq = nat_beq; lt = ltb; beq_iff = ==_iff }

-- A `std::string` is its bytes; it compares as `memcmp` does, the shorter first.
abbrev pub Name : Type 0
Name = List ℕ

-- The bytes of an ASCII literal. `String` has its own `[]` and `∷`.
abbrev pub codes : String → Name
codes String.[] = []
codes (String.◌∷◌ c s) = code c ∷ codes s

unfoldable pub name_beq : Name → Name → Bool
name_beq [] [] = true
name_beq [] (b ∷ bs) = false
name_beq (a ∷ as') [] = false
name_beq (a ∷ as') (b ∷ bs) = nat_beq a b && name_beq as' bs

unfoldable pub name_lt : Name → Name → Bool
name_lt [] [] = false
name_lt [] (b ∷ bs) = true
name_lt (a ∷ as') [] = false
name_lt (a ∷ as') (b ∷ bs) = ltb a b || (nat_beq a b && name_lt as' bs)

pub name_beq_iff : (a b : Name) → (name_beq a b ≡ true) ↔ (a ≡ b)
unfolding name_beq
name_beq_iff [] [] = (λ _. refl, λ _. refl)
name_beq_iff [] (b ∷ bs) = (λ h. cc, λ h. cc)
name_beq_iff (a ∷ as') [] = (λ h. cc, λ h. cc)
name_beq_iff (a ∷ as') (b ∷ bs) =
    let ih = name_beq_iff as' bs in (λ h. ground (arith, ih), λ h. ground (arith, ih))

instance abbrev pub name_key : Key Name
name_key = record { beq = name_beq; lt = name_lt; beq_iff = name_beq_iff }
