-- ===== src/Time.antt =====
-- util/csimtime.h and util/simtime.cpp: time metrics, and their conversion to nanoseconds.
pub mod Convert
use fncs.Base.{ℕ, ◌*◌, ◌/◌, ◌-◌, ◌^◌, Result, ok, throws, time_exception, mul64, ◌>>=◌}

pub data TimeMetric : Type 0 where
  seconds milliseconds nanoseconds unknown : TimeMetric

-- ULLONG_MAX
abbrev pub infinity : ℕ
infinity = 2 ^ 64 - 1

unfoldable pub convert_to_my_time : TimeMetric → ℕ → Result ℕ
convert_to_my_time seconds t = ok (t / 1000000000)
convert_to_my_time milliseconds t = ok (t / 1000000)
convert_to_my_time nanoseconds t = ok t
convert_to_my_time unknown t = throws time_exception

unfoldable pub convert_to_framework_time : TimeMetric → ℕ → Result ℕ
convert_to_framework_time seconds t = ok (mul64 t 1000000000)
convert_to_framework_time milliseconds t = ok (mul64 t 1000000)
convert_to_framework_time nanoseconds t = ok t
convert_to_framework_time unknown t = throws time_exception

-- A framework time in the simulator's metric and back, as the synchronisation algorithms bring the
-- current time up to date.
unfoldable pub round_time : TimeMetric → ℕ → Result ℕ
round_time m t = convert_to_my_time m t >>= convert_to_framework_time m
