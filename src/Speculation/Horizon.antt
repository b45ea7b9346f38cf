-- ===== src/Speculation/Horizon.antt =====
-- The time up to which the increasing strategy speculates, after a failure and after a success.
use fncs.Base.{ℕ, ◌+◌, ◌*◌, ◌^◌, ◌<◌, ◌≡◌, arith, false, add64, sub64, IsU64}
use fncs.Speculation.{
  Speculation, increasing, start_speculation, get_next_spec_time, speculation_failed,
  speculation_succeeded, worth_speculation,
}

-- With the increasing strategy, a speculation that starts at one 64-bit time and fails at another
-- sets the horizon: from the same start the next one would go just up to the failure, and it is not
-- worth it while that failure is expected.
pub speculation_failed_lem :
    (s : Speculation) (start fail : ℕ)
    → s.strategy ≡ increasing
    → IsU64 start
    → IsU64 fail
    → let s' = speculation_failed fail (start_speculation start s) in
      (get_next_spec_time start s' ≡ fail) × (worth_speculation start fail s' ≡ false)
unfolding speculation_failed start_speculation get_next_spec_time worth_speculation
speculation_failed_lem s start fail e h k =
    let back : add64 start (sub64 fail start) ≡ fail = omega arith in
    (rw (e, back), rw (e, back) (ground arith))

-- With the increasing strategy, a speculation that starts at a time and succeeds up to its horizon,
-- where neither the horizon nor the doubled distance exceeds 64 bits, doubles that distance.
pub speculation_succeeded-doubles :
    (s : Speculation) (start : ℕ)
    → s.strategy ≡ increasing
    → start + s.spec_diff < 2 ^ 64
    → 2 * s.spec_diff < 2 ^ 64
    → let current = get_next_spec_time start s in
      (speculation_succeeded current (start_speculation start s)).spec_diff ≡ 2 * s.spec_diff
unfolding speculation_succeeded start_speculation get_next_spec_time
speculation_succeeded-doubles s start e h k =
    let double : add64 s.spec_diff (sub64 (add64 start s.spec_diff) start) ≡ 2 * s.spec_diff =
      omega arith in
    rw (e, double)
