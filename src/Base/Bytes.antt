-- ===== src/Base/Bytes.antt =====
-- Unsigned machine words, and their bytes in memory on a little-endian machine.
use Prim.Native.Nat.{ℕ, zero, suc, ◌+◌, ◌-◌, ◌*◌, ◌/◌, ◌%◌, ◌^◌, ◌<◌}
use mathlib.Core.Path.{◌≡◌, refl}
use mathlib.Core.List.{List, [], ◌∷◌}
use native.Mathlib.Nat.{pow-suc}
use native.Mathlib.Omega.{arith}
use fncs.Base.Lists.{length}

abbrev pub IsByte : ℕ → Type 0
IsByte b = b < 256

abbrev pub IsU32 : ℕ → Type 0
IsU32 n = n < 2 ^ 32

abbrev pub IsU64 : ℕ → Type 0
IsU64 n = n < 2 ^ 64

abbrev pub add64 : ℕ → ℕ → ℕ
add64 a b = (a + b) % 2 ^ 64

abbrev pub sub64 : ℕ → ℕ → ℕ
sub64 a b = (a + 2 ^ 64 - b) % 2 ^ 64

abbrev pub mul64 : ℕ → ℕ → ℕ
mul64 a b = (a * b) % 2 ^ 64

unfoldable pub to_bytes : ℕ → ℕ → List ℕ
to_bytes zero v = []
to_bytes (suc n) v = (v % 256) ∷ to_bytes n (v / 256)

unfoldable pub from_bytes : List ℕ → ℕ
from_bytes [] = 0
from_bytes (b ∷ bs) = b + 256 * from_bytes bs

pub length-to_bytes : (n v : ℕ) → length (to_bytes n v) ≡ n
unfolding to_bytes
length-to_bytes zero v = refl
length-to_bytes (suc n) v = omega (arith, length-to_bytes n (v / 256))

pub from_bytes-to_bytes : (n v : ℕ) → v < 256 ^ n → from_bytes (to_bytes n v) ≡ v
unfolding to_bytes from_bytes
from_bytes-to_bytes zero v h = omega arith
from_bytes-to_bytes (suc n) v h =
    let small : v / 256 < 256 ^ n = omega (arith, pow-suc 256 n) in
    omega (arith, from_bytes-to_bytes n (v / 256) small)
