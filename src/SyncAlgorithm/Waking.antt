-- ===== src/SyncAlgorithm/Waking.antt =====
-- syncalgorithms/activesetconservativetick.cpp: how many rounds a call takes, and which time it is
-- granted, where simulators may sleep.
use fncs.Base.{ℕ, suc, ◌+◌, ◌-◌, ◌*◌, ◌%◌, ◌≤◌, ◌<◌, ◌≡◌, ◌≢◌, ◌⊎◌, Bool, nat_key, IsU64}
use fncs.Base.Actions.{Action, Returns}
use fncs.Time.{unknown}
use fncs.Time.Convert.{unit}
use fncs.Settings.{Settings}
use fncs.SyncAlgorithm.{Manager, Sync}
use fncs.SyncAlgorithm.Answering.{View}
use fncs.SyncAlgorithm.{Round, again, returns}
use fncs.SyncAlgorithm.Stepping.{Granted, Between}

-- A call that gives no answer to a proposal. `patience` bounds how often the broker will wake the simulator
-- with a time that it was told before.
abbrev pub Unmoved :
    {M A : Type 0} → (v : View M) → (patience : M → ℕ) → (P Q : M → Type 0) → Action M A → Type 0
Unmoved {M} v patience P Q f =
    (m : M)
    → P m
    → Returns (λ m' _. (v.last m' ≡ v.last m) × (patience m' ≤ patience m) × Q m') (f m)

-- What an answer brings: a later time, after which the patience is `most` at most, or once more the time
-- before, as when the broker wakes all because a message was sent while some were asleep
abbrev pub Moves :
    {M : Type 0} → (v : View M) → (patience : M → ℕ) → (most before p : ℕ) → M → Type 0
Moves v patience most before p m =
    ((before < v.last m) × (patience m ≤ most)) ⊎ ((v.last m ≡ before) × (patience m < p))

-- The calls of this algorithm come back. The answer that wakes the simulator is never later than what it
-- proposed.
pub record SleepAnswers {M : Type 0} (mg : Manager M) (v : View M) (patience : M → ℕ) (most : ℕ)
    : Type 0 where
  pub counts : Unmoved v patience v.Ready v.Ready mg.reduce_total_send_receive
  pub delays : Unmoved v patience v.Ready v.Due mg.reduce_network_delay
  pub resets :
      (m : M)
      → v.Due m
      → (v.last (mg.reset_counters m) ≡ v.last m)
        × (patience (mg.reset_counters m) ≤ patience m)
        × v.Due (mg.reset_counters m)
  pub answers :
      (est : ℕ) (sent : Bool) (m : M)
      → v.Due m
      → v.last m < est
      → Returns
          (λ m' r.
            (v.last m' ≡ r)
            × (r ≤ est)
            × Moves v patience most (v.last m) (patience m) m'
            × v.Ready m')
          (mg.reduce_min_time_with_sleep est sent m)

-- The measure: how far the last answer is from the time that is asked for, and how often the same answer may
-- come again.
abbrev pub rounds_left : (next last patience most : ℕ) → ℕ
rounds_left next last patience most = (next - last) * suc most + patience

module _ {M : Type 0} (i : Settings) (mg : Manager M) (v : View M) (patience : M → ℕ) (most : ℕ)
    (a : SleepAnswers mg v patience most) (known : i.sim_time_metric ≢ unknown)
    (step : i.one_time_step ≡ unit i.sim_time_metric) (start next : ℕ) (short : IsU64 next)
    (on_step : start % unit i.sim_time_metric ≡ 0)
    (on_step' : next % unit i.sim_time_metric ≡ 0) where
  -- After a round that followed the answer `before`, where the patience was `p`
  Woken : (before p : ℕ) → Sync M → Round → Type 0
  Woken before p s (returns t) = Granted v (start + unit i.sim_time_metric) next s t
  Woken before p s (again current need busywait) =
      Between v (unit i.sim_time_metric) start next current s
      × Moves v patience most before p s.interface
