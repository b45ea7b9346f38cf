-- ===== src/SyncAlgorithm/Granting.antt =====
-- syncalgorithms/graceperiodpesimisticsyncalgo.cpp: how many rounds a call takes, and which time it is
-- granted.
use fncs.Base.{
  ℕ, zero, suc, ◌+◌, ◌%◌, ◌≤◌, ◌<◌, ◌≡◌, ◌≢◌, refl, ◌∙◌, arith, ◌⊎◌, inl, inr, Bool, true, false,
  not, ◌&&◌, Option, nat_key, ◌==◌, ltb, if◌then◌else◌, IsU64, Bool-cases,
}
use fncs.Base.Actions.{Action, Returns, Returns->>=, pure, resume}
use fncs.Time.{unknown}
use fncs.Time.Convert.{unit}
use fncs.Settings.{Settings}
use fncs.SyncAlgorithm.{Manager, Sync, ask}
use fncs.SyncAlgorithm.GracePeriod.{judge, grace_round, grace_loop, get_next_time}
use fncs.SyncAlgorithm.Answering.{View, Answers, Returns-ask}
use fncs.SyncAlgorithm.Stepping.{
  Granted, Between, After, Finished, proceed, proceed-Finished, estimate, estimate-Between,
  round_time-Between,
}

module _ {M : Type 0} (i : Settings) (mg : Manager M) (v : View M) (a : Answers mg v)
    (known : i.sim_time_metric ≢ unknown) (step : i.one_time_step ≡ unit i.sim_time_metric)
    (start next : ℕ) (short : IsU64 next) (on_step : start % unit i.sim_time_metric ≡ 0)
    (on_step' : next % unit i.sim_time_metric ≡ 0) where
  pub judge-After :
      (current est answer before : ℕ) (need busywait : Bool) (s : Sync M)
      → start ≤ before
      → start + unit i.sim_time_metric ≤ est
      → est ≤ next
      → v.last s.interface ≡ answer
      → answer ≤ est
      → (answer ≡ 0) ⊎ (before < answer)
      → v.Ready s.interface
      → Returns
          (After v (unit i.sim_time_metric) start next before)
          (judge i mg current est answer need busywait s)
  unfolding judge After Granted
  judge-After current est answer before need busywait s from positive bound e le fair ready =
      elim (Bool-cases (answer == 0)) [
        | inl over ↦ rw over (inl (refl, ground (arith, over, e), refl), ready)
        | inr going ↦ rw going (elim (Bool-cases (ltb answer est)) [
          | inl not_yet ↦
              let fresh : before < answer = ground (arith, fair, going) in
              let (r, rounds, between) =
                round_time-Between v i start next answer s known short on_step on_step'
                  (omega (arith, from, fresh)) (ground arith) e ready in
              rw (not_yet, rounds) (between, omega (arith, e, fresh))
          | inr mine ↦
              let same : (answer == est) ≡ true = ground arith in
              rw (mine, same) (inr (refl, ground (arith, e, le), positive, bound), ready)
        ])
      ]

  waited :
      (busywait : Bool) (s : Sync M)
      → v.Ready s.interface
      → Returns
          (λ s1 _. (v.last s1.interface ≡ v.last s.interface) × v.Ready s1.interface)
          ((if busywait then ask mg.waitfor_all else pure tt) s)
  waited true s ready =
      Returns-ask (λ m' _. (v.last m' ≡ v.last s.interface) × v.Ready m') mg.waitfor_all s
        (a.waits s.interface ready)
  waited false s ready = (refl, ready)

  -- The rest of a round, after the counts and the delay are known
  proposed :
      (current : ℕ) (need busywait : Bool) (diff : ℕ) (s s3 : Sync M)
      → Between v (unit i.sim_time_metric) start next current s
      → v.last s3.interface ≡ v.last s.interface
      → v.Due s3.interface
      → let stable = diff == 0 && not need in
        let est = estimate i next stable current in
        Returns (After v (unit i.sim_time_metric) start next (v.last s.interface)) (
          resume
            (ask (mg.reduce_min_time est) s3)
            (λ answer. judge i mg current est answer (not stable) busywait))
  proposed current need busywait diff s s3 b e due =
      let stable = diff == 0 && not need in
      let est = estimate i next stable current in
      let (low, positive, bound) = estimate-Between v i start next stable current s step short b in
      Returns->>=
        (λ s4 r.
          (v.last s4.interface ≡ r)
          × (r ≤ est)
          × ((r ≡ 0) ⊎ (v.last s3.interface < r))
          × v.Ready s4.interface)
        (After v (unit i.sim_time_metric) start next (v.last s.interface))
        (ask (mg.reduce_min_time est) s3)
        (λ answer. judge i mg current est answer (not stable) busywait)
        (Returns-ask
          (λ m' r. (v.last m' ≡ r) × (r ≤ est) × ((r ≡ 0) ⊎ (v.last s3.interface < r)) × v.Ready m')
          (mg.reduce_min_time est) s3 (a.answers est s3.interface due (omega (arith, low, e))))
        (λ s4 r h.
          judge-After current est r (v.last s.interface) (not stable) busywait s4 b.answered
            positive bound (h.0) (h.1) (ground (arith, h.2, e)) (h.3))

  grace_round-After :
      (current : ℕ) (need busywait : Bool) (s : Sync M)
      → Between v (unit i.sim_time_metric) start next current s
      → Returns
          (After v (unit i.sim_time_metric) start next (v.last s.interface))
          (grace_round i mg current next need busywait s)
  unfolding grace_round estimate
  grace_round-After current need busywait s b =
      let P = After v (unit i.sim_time_metric) start next (v.last s.interface) in
      Returns->>= (λ s1 _. (v.last s1.interface ≡ v.last s.interface) × v.Ready s1.interface) P _ _
        (waited busywait s b.ready)
        (λ s1 _ (e1, r1).
          Returns->>= (λ s2 _. (v.last s2.interface ≡ v.last s1.interface) × v.Ready s2.interface) P
            _ _
            (Returns-ask (λ m' _. (v.last m' ≡ v.last s1.interface) × v.Ready m')
              mg.reduce_total_send_receive s1 (a.counts s1.interface r1))
            (λ s2 diff (e2, r2).
              Returns->>= (λ s3 _. (v.last s3.interface ≡ v.last s2.interface) × v.Due s3.interface)
                P _ _
                (Returns-ask (λ m' _. (v.last m' ≡ v.last s2.interface) × v.Due m')
                  mg.reduce_network_delay s2 (a.delays s2.interface r2))
                (λ s3 _ (e3, due). proposed current need busywait diff s s3 b (e3 ∙ e2 ∙ e1) due)))

  -- The measure: how far the last answer is from the time that is asked for.
  grace_loop-Finished :
      (fuel current : ℕ) (need busywait : Bool) (s : Sync M)
      → Between v (unit i.sim_time_metric) start next current s
      → next ≤ v.last s.interface + fuel
      → Returns
          (Finished v (unit i.sim_time_metric) start next)
          (grace_loop i mg fuel current next need busywait s)
  unfolding grace_loop
  grace_loop-Finished zero current need busywait s b enough =
      absurd (omega (arith, b.within, b.before, enough))
  grace_loop-Finished (suc fuel) current need busywait s b enough =
      let onward : (current : ℕ) (need busywait : Bool) → Action (Sync M) (Option ℕ) =
        λ current need busywait. grace_loop i mg fuel current next need busywait in
      Returns->>= (After v (unit i.sim_time_metric) start next (v.last s.interface))
        (Finished v (unit i.sim_time_metric) start next)
        (grace_round i mg current next need busywait s) (proceed onward)
        (grace_round-After current need busywait s b)
        (λ s' r.
          proceed-Finished v (unit i.sim_time_metric) start next onward fuel s s' r enough
            (grace_loop-Finished fuel))

  -- A simulator of a known metric whose one time step is a unit of it asks for a time that fits 64
  -- bits, having been granted none beyond that. The current time and that time are multiples of the
  -- unit, at least a unit apart, and the last answer lies in the unit that starts at the current time.
  -- If all calls of its manager come back in their turn, and every answer is no later than what was
  -- proposed and either zero or later than the answer before, then as many rounds as there are
  -- nanoseconds between the last answer and the time asked for are enough: an answer of zero has told
  -- the end, which the call returns, or the call grants a time at least a unit later and no later than
  -- the one asked for, which is the federation's last answer.
  pub get_next_time_lem :
      (fuel : ℕ) (s : Sync M)
      → v.Ready s.interface
      → s.granted_time ≤ next
      → start ≤ v.last s.interface
      → v.last s.interface < start + unit i.sim_time_metric
      → start + unit i.sim_time_metric ≤ next
      → next ≤ v.last s.interface + fuel
      → Returns
          (Finished v (unit i.sim_time_metric) start next)
          (get_next_time i mg fuel start next s)
  unfolding get_next_time
  get_next_time_lem fuel s ready due answered within before enough =
      let sync : ltb next s.granted_time ≡ false = ground (arith, due) in
      rw sync (
        grace_loop-Finished fuel start false false s
          (record {
            later = omega arith;
            answered = answered;
            within = within;
            before = before;
            ready = ready;
          })
          enough)
