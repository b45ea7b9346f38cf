-- ===== src/Settings.antt =====
-- integrator.h and integrator.cpp: the members of the `Integrator` singleton that the other
-- components read, and their accessors. `t` is what the registered time callback returns.
use fncs.Base.{ℕ, ◌-◌, ◌≡◌, arith, Result, ok, ◌>>=◌, sub64, IsU64, ltb, if◌then◌else◌}
use fncs.Time.{TimeMetric, convert_to_my_time, convert_to_framework_time}

pub record Settings : Type 0 where
  pub sim_time_metric : TimeMetric
  pub offset : ℕ
  pub packet_lost_period : ℕ
  pub one_time_step : ℕ

-- `Integrator::getCurSimTime`
unfoldable pub get_cur_sim_time : Settings → ℕ → Result ℕ
get_cur_sim_time i t = do
  cur_time ← convert_to_framework_time i.sim_time_metric t
  ok (sub64 cur_time i.offset)

-- `Integrator::getAdjustedOffset`
unfoldable pub get_adjusted_offset : Settings → Result ℕ
get_adjusted_offset i = convert_to_my_time i.sim_time_metric i.offset

-- `Integrator::setOffset`
unfoldable pub set_offset : Settings → ℕ → Result Settings
set_offset i otime = do
  offset ← convert_to_framework_time i.sim_time_metric otime
  ok (record i { offset = offset })

-- The start of the window in which a message is not yet lost. The difference may wrap around.
unfoldable pub grace_time : Settings → ℕ → ℕ
grace_time i current_time =
    let grace = sub64 current_time i.packet_lost_period in
    if ltb current_time grace then 0 else grace

-- On 64-bit times, the start of the window is the current time less the packet lost period, and
-- zero where that is negative, although the code subtracts with wrap-around.
pub grace_time-eq-sub :
    (i : Settings) (current_time : ℕ)
    → IsU64 current_time
    → IsU64 i.packet_lost_period
    → grace_time i current_time ≡ current_time - i.packet_lost_period
unfolding grace_time
grace_time-eq-sub i current_time h k = ground arith
