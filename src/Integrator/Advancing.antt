-- ===== src/Integrator/Advancing.antt =====
-- integrator.cpp with graceperiodpesimisticsyncalgo.cpp: the time that a call of `getNextTime` gives a
-- simulator, in its own metric.
use fncs.Base.{
  ℕ, ◌+◌, ◌-◌, ◌*◌, ◌%◌, ◌^◌, ◌≤◌, ◌<◌, ◌≡◌, ◌≢◌, refl, ap, sym, ◌∙◌, arith, ◌⊎◌, inl, inr, true,
  Option, some, ok, add64, sub64,
}
use fncs.Base.Actions.{Returns, Returns->>=, resume}
use fncs.Time.{unknown}
use fncs.Time.Convert.{
  unit, unit-steps, unit-difference, to_my_time-between, to_framework_time-exact,
}
use fncs.Settings.{Settings}
use fncs.SyncAlgorithm.{Manager, Sync, ask}
use fncs.SyncAlgorithm.GracePeriod
use fncs.SyncAlgorithm.Answering.{View, Answers, Returns-ask_granted}
use fncs.SyncAlgorithm.Granting.{get_next_time_lem}
use fncs.SyncAlgorithm.Stepping.{Granted, Finished}
use fncs.Integrator.{framework_time, to_sim_time, get_next_time}

-- The federation's last answer is zero, which has told the end, or the simulator was granted a time between
-- the two.
unfoldable pub Advanced :
    {M : Type 0} → (v : View M) → (current next : ℕ) → Sync M → Option ℕ → Type 0
Advanced v current next s r =
    (t : ℕ) × (r ≡ some t)
    × (((t ≤ current) × (v.last s.interface ≡ 0) × (s.finished ≡ true))
        ⊎ ((current < t) × (t ≤ next) × (v.last s.interface ≡ s.granted_time)))

module _ {M : Type 0} (i : Settings) (mg : Manager M) (v : View M) (a : Answers mg v)
    (known : i.sim_time_metric ≢ unknown) where
  framework_time-exact :
      (time : ℕ) (s : Sync M)
      → time * unit i.sim_time_metric < 2 ^ 64
      → i.offset ≤ time * unit i.sim_time_metric
      → framework_time i mg time s ≡ (s, ok (time * unit i.sim_time_metric - i.offset))
  unfolding framework_time
  framework_time-exact time s small late =
      let exact : sub64 (time * unit i.sim_time_metric) i.offset
          ≡ time * unit i.sim_time_metric - i.offset =
        omega arith in
      rw ((to_framework_time-exact i.sim_time_metric time known small).0)
        (ap (λ t. (s, ok t)) exact)

  to_sim_time-Advanced :
      (current next t : ℕ) (s : Sync M)
      → next * unit i.sim_time_metric < 2 ^ 64
      → i.offset ≤ current * unit i.sim_time_metric
      → current < next
      → Granted v
          (current * unit i.sim_time_metric - i.offset + unit i.sim_time_metric)
          (next * unit i.sim_time_metric - i.offset)
          s
          t
      → Returns (Advanced v current next) (to_sim_time i mg (some t) s)
  unfolding Advanced Granted
  to_sim_time-Advanced current next t s small late order (inl (zero_time, none_left, ended)) =
      let exact : add64 t i.offset ≡ i.offset =
        omega
          (arith, zero_time, late, small, (unit-steps i.sim_time_metric current next order).0) in
      let (r, converts, low, high) =
        to_my_time-between i.sim_time_metric 0 current i.offset known (omega arith) late in
      rw (exact, converts) (r, refl, inl (high, none_left, ended))
  to_sim_time-Advanced current next t s small late order (inr (granted, is_last, low, high)) =
      let (apart, one_more) = unit-steps i.sim_time_metric current next order in
      let exact : add64 t i.offset ≡ t + i.offset = omega (arith, high, late, small, apart) in
      let (r, converts, first, upto) =
        to_my_time-between i.sim_time_metric (current + 1) next (t + i.offset) known
          (omega (arith, one_more, low, late)) (omega (arith, high, late, apart)) in
      rw (exact, converts) (r, refl, inr (omega (arith, first), upto, is_last ∙ sym granted))

  -- A simulator of a known metric whose one time step is a unit of it asks for a later time with the
  -- grace period algorithm. The time asked for fits 64 bits in nanoseconds, the offset is a multiple
  -- of the unit and no later than the current time, no time beyond the one asked for has been granted,
  -- and the last answer lies in the unit that starts at the current time. If all calls of its manager
  -- come back in their turn, and every answer is no later than what was proposed and either zero or
  -- later than the answer before, then with as many rounds as there are nanoseconds between the last
  -- answer and the time asked for the call comes back: an answer of zero has told the end, and what it
  -- returns is not after the current time, or it returns a time after the current one and not after the
  -- one asked for, and the federation's last answer is the time that was granted.
  pub get_next_time-advances :
      (fuel current next : ℕ) (s : Sync M)
      → i.one_time_step ≡ unit i.sim_time_metric
      → i.offset % unit i.sim_time_metric ≡ 0
      → i.offset ≤ current * unit i.sim_time_metric
      → current < next
      → next * unit i.sim_time_metric < 2 ^ 64
      → v.Ready s.interface
      → s.granted_time ≤ next * unit i.sim_time_metric - i.offset
      → current * unit i.sim_time_metric - i.offset ≤ v.last s.interface
      → v.last s.interface < current * unit i.sim_time_metric - i.offset + unit i.sim_time_metric
      → next * unit i.sim_time_metric - i.offset ≤ v.last s.interface + fuel
      → Returns
          (Advanced v current next)
          (get_next_time i mg (GracePeriod.get_next_time i mg fuel) current next s)
  unfolding get_next_time Finished
  get_next_time-advances fuel current next s step whole late order small ready due answered within
        enough =
      let m = i.sim_time_metric in
      let (apart, _) = unit-steps m current next order in
      let early : current * unit m < 2 ^ 64 = omega (arith, apart, small) in
      let late' : i.offset ≤ next * unit m = omega (arith, apart, late) in
      let from = current * unit m - i.offset in
      let upto = next * unit m - i.offset in
      rw (framework_time-exact current s early late, framework_time-exact next s small late')
        (Returns->>=
          (λ s1 _.
            ((v.last s1.interface ≡ v.last s.interface) × v.Ready s1.interface)
            × (s1.granted_time ≡ s.granted_time))
          (Advanced v current next) (ask mg.send_all s)
          (λ _ s1. resume (GracePeriod.get_next_time i mg fuel from upto s1) (to_sim_time i mg))
          (Returns-ask_granted (λ m' _. (v.last m' ≡ v.last s.interface) × v.Ready m') mg.send_all s
            (a.sends s.interface ready))
          (λ s1 _ e.
            Returns->>= (Finished v (unit m) from upto) (Advanced v current next)
              (GracePeriod.get_next_time i mg fuel from upto s1) (to_sim_time i mg)
              (get_next_time_lem i mg v a known step from upto (omega (arith, small))
                (unit-difference m (current * unit m) i.offset known
                  ((to_framework_time-exact m current known early).1) whole late)
                (unit-difference m (next * unit m) i.offset known
                  ((to_framework_time-exact m next known small).1) whole late')
                fuel s1 (e.0.1) (omega (arith, due, e.1)) (omega (arith, answered, e.0.0))
                (omega (arith, within, e.0.0)) (omega (arith, apart, late))
                (omega (arith, enough, e.0.0)))
              (λ s2 r (t, e2, g).
                rw e2 (to_sim_time-Advanced current next t s2 small late order g))))
