-- ===== src/Time/Convert.antt =====
-- The conversions against the exact length of a unit.
use fncs.Base.{
  ℕ, ◌+◌, ◌-◌, ◌*◌, ◌/◌, ◌%◌, ◌^◌, ◌≤◌, ◌<◌, ◌≡◌, ◌≢◌, refl, arith, ok, ◌>>=◌, IsU64, mul64,
}
use fncs.Time.{
  TimeMetric, seconds, milliseconds, nanoseconds, unknown, convert_to_my_time,
  convert_to_framework_time, round_time,
}

-- Nanoseconds in one step of a metric.
abbrev pub unit : TimeMetric → ℕ
unit seconds = 1000000000
unit milliseconds = 1000000
unit nanoseconds = 1
unit unknown = 0

-- With a known metric, a simulator's time that fits 64 bits in nanoseconds survives the way to
-- framework time and back.
pub to_my_time-to_framework_time :
    (m : TimeMetric) (t : ℕ)
    → m ≢ unknown
    → t * unit m < 2 ^ 64
    → (convert_to_framework_time m t >>= convert_to_my_time m) ≡ ok t
unfolding convert_to_my_time convert_to_framework_time
to_my_time-to_framework_time seconds t k h = ground arith
to_my_time-to_framework_time milliseconds t k h = ground arith
to_my_time-to_framework_time nanoseconds t k h = ground arith
to_my_time-to_framework_time unknown t k h = absurd (k (cc))

-- With a known metric, converting a 64-bit framework time to the simulator's metric and back gives
-- the greatest multiple of the unit that is no later.
pub round_down :
    (m : TimeMetric) (t : ℕ)
    → m ≢ unknown
    → IsU64 t
    → (r : ℕ) × ((convert_to_my_time m t >>= convert_to_framework_time m) ≡ ok r)
      × (r ≡ t / unit m * unit m)
      × (r ≤ t)
      × (t < r + unit m)
unfolding convert_to_my_time convert_to_framework_time
round_down seconds t k h =
    (mul64 (t / 1000000000) 1000000000, ground arith, omega arith, omega arith, omega arith)
round_down milliseconds t k h =
    (mul64 (t / 1000000) 1000000, ground arith, omega arith, omega arith, omega arith)
round_down nanoseconds t k h = (t, ground arith, omega arith, omega arith, omega arith)
round_down unknown t k h = absurd (k (cc))

-- Between two multiples of the unit, rounding down stays on or after the first and at least a unit
-- before the second.
pub round_time-between :
    (m : TimeMetric) (t first last : ℕ)
    → m ≢ unknown
    → IsU64 t
    → first % unit m ≡ 0
    → last % unit m ≡ 0
    → first ≤ t
    → t < last
    → (r : ℕ) × (round_time m t ≡ ok r) × (first ≤ r) × (t < r + unit m) × (r + unit m ≤ last)
unfolding round_time convert_to_my_time convert_to_framework_time
round_time-between seconds t first last k h f l a b =
    (mul64 (t / 1000000000) 1000000000, ground arith, omega arith, omega arith, omega arith)
round_time-between milliseconds t first last k h f l a b =
    (mul64 (t / 1000000) 1000000, ground arith, omega arith, omega arith, omega arith)
round_time-between nanoseconds t first last k h f l a b =
    (t, refl, omega arith, omega arith, omega arith)
round_time-between unknown t first last k h f l a b = absurd (k (cc))

-- A framework time between two steps of a simulator's metric converts to a time between them.
pub to_my_time-between :
    (m : TimeMetric) (first last t : ℕ)
    → m ≢ unknown
    → first * unit m ≤ t
    → t ≤ last * unit m
    → (r : ℕ) × (convert_to_my_time m t ≡ ok r) × (first ≤ r) × (r ≤ last)
unfolding convert_to_my_time
to_my_time-between seconds first last t k a b = (t / 1000000000, refl, omega arith, omega arith)
to_my_time-between milliseconds first last t k a b = (t / 1000000, refl, omega arith, omega arith)
to_my_time-between nanoseconds first last t k a b = (t, refl, omega arith, omega arith)
to_my_time-between unknown first last t k a b = absurd (k (cc))

-- A simulator's time that fits 64 bits in nanoseconds converts to that many.
pub to_framework_time-exact :
    (m : TimeMetric) (t : ℕ)
    → m ≢ unknown
    → t * unit m < 2 ^ 64
    → (convert_to_framework_time m t ≡ ok (t * unit m)) × (t * unit m % unit m ≡ 0)
unfolding convert_to_framework_time
to_framework_time-exact seconds t k h = (ground arith, omega arith)
to_framework_time-exact milliseconds t k h = (ground arith, omega arith)
to_framework_time-exact nanoseconds t k h = (ground arith, omega arith)
to_framework_time-exact unknown t k h = absurd (k (cc))

-- Multiples of the unit
pub unit-steps :
    (m : TimeMetric) (a b : ℕ)
    → a < b
    → (a * unit m + unit m ≤ b * unit m) × ((a + 1) * unit m ≡ a * unit m + unit m)
unit-steps seconds a b h = (omega arith, omega arith)
unit-steps milliseconds a b h = (omega arith, omega arith)
unit-steps nanoseconds a b h = (omega arith, omega arith)
unit-steps unknown a b h = (omega arith, omega arith)

pub unit-difference :
    (m : TimeMetric) (a b : ℕ)
    → m ≢ unknown
    → a % unit m ≡ 0
    → b % unit m ≡ 0
    → b ≤ a
    → (a - b) % unit m ≡ 0
unit-difference seconds a b k h h' l = omega arith
unit-difference milliseconds a b k h h' l = omega arith
unit-difference nanoseconds a b k h h' l = omega arith
unit-difference unknown a b k h h' l = absurd (k (cc))
