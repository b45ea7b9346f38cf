-- ===== src/SyncAlgorithm/Stepping.antt =====
-- syncalgorithms/graceperiodpesimisticsyncalgo.cpp and activesetconservativetick.cpp: what the rounds of
-- these algorithms have in common, over a unit `u` of the simulator's metric.
use fncs.Base.{
  ℕ, suc, ◌+◌, ◌%◌, ◌≤◌, ◌<◌, ◌≡◌, ◌≢◌, refl, arith, ◌⊎◌, Bool, true, false, Option, some, ok,
  if◌then◌else◌, add64, IsU64,
}
use fncs.Base.Actions.{Action, Returns, pure}
use fncs.Time.{unknown, round_time}
use fncs.Time.Convert.{unit, round_time-between}
use fncs.Settings.{Settings}
use fncs.SyncAlgorithm.Answering.{View}
use fncs.SyncAlgorithm.{Sync, Round, again, returns}

-- The call has returned: an answer of zero has told the end, or a time was granted that is the last answer.
unfoldable pub Granted : {M : Type 0} → (v : View M) → (first next : ℕ) → Sync M → ℕ → Type 0
Granted v first next s t =
    ((t ≡ 0) × (v.last s.interface ≡ 0) × (s.finished ≡ true))
    ⊎ ((s.granted_time ≡ t) × (v.last s.interface ≡ t) × (first ≤ t) × (t ≤ next))

module _ {M : Type 0} where
  -- What a loop does after a round, where `onward` is what is left of it
  abbrev pub proceed :
      (onward : (current : ℕ) (need busywait : Bool) → Action (Sync M) (Option ℕ))
      → Round
      → Action (Sync M) (Option ℕ)
  proceed onward (returns t) = pure (some t)
  proceed onward (again current need busywait) = onward current need busywait

module _ {M : Type 0} (v : View M) (u start next : ℕ) where
  -- Between two rounds the current time is no earlier than at the start and a unit or more before
  -- the time that is asked for, and the last answer lies in the unit of the current time.
  pub record Between (current : ℕ) (s : Sync M) : Type 0 where
    pub later : start ≤ current
    pub answered : start ≤ v.last s.interface
    pub within : v.last s.interface < current + u
    pub before : current + u ≤ next
    pub ready : v.Ready s.interface

  -- After a round that followed the answer `before`
  unfoldable pub After : (before : ℕ) → Sync M → Round → Type 0
  After before s (returns t) = Granted v (start + u) next s t × v.Ready s.interface
  After before s (again current need busywait) = Between current s × (before < v.last s.interface)

  pub After-Ready : (before : ℕ) (s : Sync M) (r : Round) → After before s r → v.Ready s.interface
  unfolding After
  After-Ready before s (returns t) h = h.1
  After-Ready before s (again current need busywait) h = h.0.ready

  -- The call has come back with a time.
  unfoldable pub Finished : Sync M → Option ℕ → Type 0
  Finished s r = (t : ℕ) × (r ≡ some t) × Granted v (start + u) next s t

  pub proceed-Finished :
      (onward : (current : ℕ) (need busywait : Bool) → Action (Sync M) (Option ℕ)) (fuel : ℕ)
      (s s' : Sync M) (r : Round)
      → next ≤ v.last s.interface + suc fuel
      → ((current : ℕ) (need busywait : Bool) (s' : Sync M)
          → Between current s'
          → next ≤ v.last s'.interface + fuel
          → Returns Finished (onward current need busywait s'))
      → After (v.last s.interface) s' r
      → Returns Finished (proceed onward r s')
  unfolding After Finished
  proceed-Finished onward fuel s s' (returns t) enough rest h = (t, refl, h.0)
  proceed-Finished onward fuel s s' (again current need busywait) enough rest h =
      rest current need busywait s' (h.0) (omega (arith, h.1, enough))

-- What a stable network lets the simulator propose, and what another one
unfoldable pub estimate : Settings → (next : ℕ) → (stable : Bool) → (current : ℕ) → ℕ
estimate i next stable current = if stable then next else add64 current i.one_time_step

module _ {M : Type 0} (v : View M) (i : Settings) (start next : ℕ) where
  pub estimate-Between :
      (stable : Bool) (current : ℕ) (s : Sync M)
      → i.one_time_step ≡ unit i.sim_time_metric
      → IsU64 next
      → Between v (unit i.sim_time_metric) start next current s
      → (v.last s.interface < estimate i next stable current)
        × (start + unit i.sim_time_metric ≤ estimate i next stable current)
        × (estimate i next stable current ≤ next)
  unfolding estimate
  estimate-Between true current s step short b =
      (omega (arith, b.within, b.before), omega (arith, b.later, b.before), omega arith)
  estimate-Between false current s step short b =
      let exact : add64 current i.one_time_step ≡ current + unit i.sim_time_metric =
        rw step (omega (arith, b.before, short)) in
      rw exact (omega (arith, b.within), omega (arith, b.later), omega (arith, b.before))

  -- An answer that is earlier than the time asked for brings the current time up to date.
  pub round_time-Between :
      (answer : ℕ) (s : Sync M)
      → i.sim_time_metric ≢ unknown
      → IsU64 next
      → start % unit i.sim_time_metric ≡ 0
      → next % unit i.sim_time_metric ≡ 0
      → start ≤ answer
      → answer < next
      → v.last s.interface ≡ answer
      → v.Ready s.interface
      → (r : ℕ) × (round_time i.sim_time_metric answer ≡ ok r)
        × Between v (unit i.sim_time_metric) start next r s
  round_time-Between answer s known short on_step on_step' from early e ready =
      let (r, rounds, low, high, left) =
        round_time-between i.sim_time_metric answer start next known (omega (arith, early, short))
          on_step on_step' from early in
      (
        r,
        rounds,
        record {
          later = low;
          answered = omega (arith, from, e);
          within = omega (arith, e, high);
          before = left;
          ready = ready;
        },
      )
