-- ===== src/Speculation.antt =====
-- syncalgorithms/speculationtimecalculationstrategy.h and .cpp: how far a child process may speculate
-- ahead of its parent. The subclasses are the constructors of `Strategy`.
pub mod Horizon
use fncs.Base.{
  ℕ, ◌+◌, ◌-◌, ◌%◌, ◌^◌, ◌<◌, ◌≤◌, ◌≡◌, arith, refl, Bool, true, false, Result, ok, ◌>>=◌, add64,
  sub64, IsU64, ltb, if◌then◌else◌,
}
use fncs.Time.{TimeMetric, nanoseconds, infinity, convert_to_framework_time}

pub data Strategy : Type 0 where
  constant increasing infinite infinite_with_kill_last : Strategy

pub record Speculation : Type 0 where
  pub strategy : Strategy
  pub spec_diff : ℕ
  pub speculation_time : ℕ

-- `SpeculationTimeCalculationStrategy(metric, initialspecTime)`
unfoldable pub start_with : Strategy → TimeMetric → ℕ → Result Speculation
start_with strategy metric initial_spec_time = do
  spec_diff ← convert_to_framework_time metric initial_spec_time
  ok (record { strategy = strategy; spec_diff = spec_diff; speculation_time = 0 })

-- The constructors of the subclasses; those of unlimited speculation take no arguments.
unfoldable pub new_speculation : Strategy → TimeMetric → ℕ → Result Speculation
unfolding start_with
new_speculation constant metric t = start_with constant metric t
new_speculation increasing metric t = start_with increasing metric t
new_speculation infinite metric t = start_with infinite nanoseconds infinity
new_speculation infinite_with_kill_last metric t =
    start_with infinite_with_kill_last nanoseconds infinity

unfoldable pub start_speculation : ℕ → Speculation → Speculation
start_speculation current_time s = record s { speculation_time = current_time }

-- `sendUnknownAction`
unfoldable pub send_unknown_action : Strategy → Bool
send_unknown_action constant = false
send_unknown_action increasing = false
send_unknown_action infinite = false
send_unknown_action infinite_with_kill_last = true

-- `getNextSpecTime`
unfoldable pub next_spec_time : Strategy → (current_time spec_diff : ℕ) → ℕ
next_spec_time constant current_time spec_diff = add64 current_time spec_diff
next_spec_time increasing current_time spec_diff = add64 current_time spec_diff
next_spec_time infinite current_time spec_diff = infinity
next_spec_time infinite_with_kill_last current_time spec_diff = infinity

unfoldable pub get_next_spec_time : ℕ → Speculation → ℕ
unfolding next_spec_time
get_next_spec_time current_time s = next_spec_time s.strategy current_time s.spec_diff

-- The new `specDiff` of `speculationFailed`
unfoldable pub diff_failed : Strategy → (fail_time speculation_time spec_diff : ℕ) → ℕ
diff_failed constant fail_time speculation_time spec_diff = spec_diff
diff_failed increasing fail_time speculation_time spec_diff = sub64 fail_time speculation_time
diff_failed infinite fail_time speculation_time spec_diff = spec_diff
diff_failed infinite_with_kill_last fail_time speculation_time spec_diff = spec_diff

unfoldable pub speculation_failed : ℕ → Speculation → Speculation
unfolding diff_failed
speculation_failed fail_time s = record s {
  spec_diff = diff_failed s.strategy fail_time s.speculation_time s.spec_diff;
}

-- The new `specDiff` of `speculationSuceeded`
unfoldable pub diff_succeeded : Strategy → (current_time speculation_time spec_diff : ℕ) → ℕ
diff_succeeded constant current_time speculation_time spec_diff = spec_diff
diff_succeeded increasing current_time speculation_time spec_diff =
    add64 spec_diff (sub64 current_time speculation_time)
diff_succeeded infinite current_time speculation_time spec_diff = spec_diff
diff_succeeded infinite_with_kill_last current_time speculation_time spec_diff = spec_diff

unfoldable pub speculation_succeeded : ℕ → Speculation → Speculation
unfolding diff_succeeded
speculation_succeeded current_time s = record s {
  spec_diff = diff_succeeded s.strategy current_time s.speculation_time s.spec_diff;
}

-- `worthSpeculation`
unfoldable pub is_worth : Strategy → (current_time spec_fail_time spec_diff : ℕ) → Bool
is_worth constant current_time spec_fail_time spec_diff =
    ltb (add64 current_time spec_diff) spec_fail_time
is_worth increasing current_time spec_fail_time spec_diff =
    ltb (add64 current_time spec_diff) spec_fail_time
is_worth infinite current_time spec_fail_time spec_diff = true
is_worth infinite_with_kill_last current_time spec_fail_time spec_diff = true

unfoldable pub worth_speculation : (current_time spec_fail_time : ℕ) → Speculation → Bool
unfolding is_worth
worth_speculation current_time spec_fail_time s =
    is_worth s.strategy current_time spec_fail_time s.spec_diff
