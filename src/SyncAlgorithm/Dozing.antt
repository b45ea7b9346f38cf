-- ===== src/SyncAlgorithm/Dozing.antt =====
-- syncalgorithms/conservativesleepingtickalgo.cpp: how many rounds a call takes, and which time it is
-- granted.
use fncs.Base.{
  ℕ, zero, suc, ◌+◌, ◌%◌, ◌≤◌, ◌<◌, ◌≡◌, ◌≢◌, refl, ap, ◌∙◌, arith, ◌⊎◌, inl, inr, Bool, true,
  false, not, ◌&&◌, Option, some, ok, nat_key, ◌==◌, ltb, if◌then◌else◌, IsU64, Bool-cases, length,
}
use fncs.Base.Actions.{Action, Returns, Returns->>=, Returns-imp, pure, resume, ◌>>=◌, ◌>>◌}
use fncs.Time.{unknown}
use fncs.Time.Convert.{unit}
use fncs.Settings.{Settings}
use fncs.SyncAlgorithm.{Manager, ask, Round, again, returns}
use fncs.SyncAlgorithm.GracePeriod.{judge}
use fncs.SyncAlgorithm.Answering.{View, Answers}
use fncs.SyncAlgorithm.Granting.{judge-After}
use fncs.SyncAlgorithm.Stepping.{Between, After, After-Ready, Finished, estimate, estimate-Between}
use fncs.SyncAlgorithm.Sleeping.{
  SleepingTick, Sleeper, on_sync, set_diff, wake_others, wait_round, note_message, note_times,
  sleeping_round, sleeping_loop, get_next_time,
}
use fncs.SyncAlgorithm.Keeping.{Rests, Keeps, Returns-on_sync, answer-Keeps}
use fncs.SyncAlgorithm.Resting.{
  calls-Keeps, Keeps-Known, wake_others-Keeps, wait_round-Keeps, note_message-Keeps,
  note_times-Keeps,
}

-- The call has come back with a time, and the array is as it should be.
unfoldable pub Rested :
    {M : Type 0} → (v : View M) → (others u start next : ℕ) → SleepingTick M → Option ℕ → Type 0
Rested v others u start next s r =
    Finished v u start next s.sync r × Keeps v v.Ready others (v.last s.sync.interface) s

-- What the loop does after a round, where `onward` is what is left of it
abbrev proceed_sleeping :
    {M : Type 0}
    → (onward : (current : ℕ) (need busywait : Bool) → Action (SleepingTick M) (Option ℕ)) → Round
    → Action (SleepingTick M) (Option ℕ)
proceed_sleeping onward (returns t) = pure (some t)
proceed_sleeping onward (again current need busywait) = onward current need busywait

module _ {M : Type 0} (i : Settings) (mg : Manager M) (sl : Sleeper M) (v : View M) (others : ℕ)
    (a : Answers mg v) (b : Rests mg sl v others) (company : 0 < others)
    (known : i.sim_time_metric ≢ unknown) (step : i.one_time_step ≡ unit i.sim_time_metric)
    (start next : ℕ) (short : IsU64 next) (on_step : start % unit i.sim_time_metric ≡ 0)
    (on_step' : next % unit i.sim_time_metric ≡ 0) where
  -- After a round that followed the answer `before`, or the call
  Rounded : (before : ℕ) → SleepingTick M → Round → Type 0
  Rounded before s r =
      After v (unit i.sim_time_metric) start next before s.sync r
      × Keeps v v.Ready others (v.last s.sync.interface) s

  judged :
      (current est before answer : ℕ) (need busywait : Bool) (s : SleepingTick M)
      → start ≤ before
      → start + unit i.sim_time_metric ≤ est
      → est ≤ next
      → answer ≤ est
      → (answer ≡ 0) ⊎ (before < answer)
      → Keeps v v.Ready others answer s
      → Returns (Rounded before) (on_sync (judge i mg current est answer need busywait) s)
  unfolding Rounded Keeps
  judged current est before answer need busywait s from positive bound le fair
        (e, long, filled, ready) =
      Returns-imp
        (λ s' r.
          After v (unit i.sim_time_metric) start next before s'.sync r
          × (s'.power_sim_granted_time ≡ s.power_sim_granted_time)
          × (s'.might_sleep ≡ s.might_sleep))
        (Rounded before) (on_sync (judge i mg current est answer need busywait) s)
        (Returns-on_sync (After v (unit i.sim_time_metric) start next before)
          (judge i mg current est answer need busywait) s
          (judge-After i mg v a known step start next short on_step on_step' current est answer
            before need busywait s.sync from positive bound e le fair ready))
        (λ s' r h. (
          h.0,
          (
            refl,
            ap length (h.1) ∙ long,
            rw (h.1, h.2) filled,
            After-Ready v (unit i.sim_time_metric) start next before s'.sync r (h.0),
          ),
        ))

  -- The rest of a round, after the counts and the delay are known
  proposed :
      (current diff : ℕ) (need busywait : Bool) (s s3 : SleepingTick M)
      → Between v (unit i.sim_time_metric) start next current s.sync
      → Keeps v v.Due others (v.last s.sync.interface) s3
      → let stable = diff == 0 && not need in
        let est = estimate i next stable current in
        Returns (Rounded (v.last s.sync.interface)) (
          resume (on_sync (ask (mg.reduce_min_time est)) s3) (λ answer.
            note_times i mg sl est diff
            >> on_sync (judge i mg current est answer (not stable) busywait)))
  unfolding Keeps
  proposed current diff need busywait s s3 between k =
      let stable = diff == 0 && not need in
      let est = estimate i next stable current in
      let l = v.last s.sync.interface in
      let (low, positive, bound) =
        estimate-Between v i start next stable current s.sync step short between in
      let fair : Returns
          (λ m' r.
            (v.last m' ≡ r) × v.Ready m' × ((r ≤ est) × ((r ≡ 0) ⊎ (v.last s3.sync.interface < r))))
          (mg.reduce_min_time est s3.sync.interface) =
        Returns-imp
          (λ m' r.
            (v.last m' ≡ r) × (r ≤ est) × ((r ≡ 0) ⊎ (v.last s3.sync.interface < r)) × v.Ready m')
          (λ m' r.
            (v.last m' ≡ r) × v.Ready m' × ((r ≤ est) × ((r ≡ 0) ⊎ (v.last s3.sync.interface < r))))
          (mg.reduce_min_time est s3.sync.interface)
          (a.answers est s3.sync.interface (k.3) (omega (arith, low, k.0)))
          (λ m' r h. (h.0, h.3, (h.1, h.2))) in
      Returns->>=
        (λ s4 r.
          Keeps v v.Ready others r s4 × ((r ≤ est) × ((r ≡ 0) ⊎ (v.last s3.sync.interface < r))))
        (Rounded l) (on_sync (ask (mg.reduce_min_time est)) s3) _
        (answer-Keeps v v.Due v.Ready others l (λ r. r)
          (λ r. (r ≤ est) × ((r ≡ 0) ⊎ (v.last s3.sync.interface < r))) (mg.reduce_min_time est) s3
          fair k)
        (λ s4 r h.
          Returns->>= (λ s5 _. Keeps v v.Ready others r s5) (Rounded l)
            (note_times i mg sl est diff s4) _
            (note_times-Keeps i mg sl v others a b company r est diff s4 (h.0))
            (λ s5 x k5.
              judged current est l r (not stable) busywait s5 between.answered positive bound
                (h.1.0) (ground (arith, h.1.1, k.0)) k5))

  set_diff-Keeps :
      (l diff : ℕ) (s : SleepingTick M)
      → Keeps v v.Ready others l s
      → Keeps v v.Ready others l (set_diff diff s)
  unfolding Keeps
  set_diff-Keeps l diff s k = k

  reset :
      (l diff : ℕ) (s : SleepingTick M)
      → Keeps v v.Due others l s
      → Returns
          (λ s' _. Keeps v v.Due others l s')
          ((if diff == 0 then on_sync (ask (λ m. (mg.reset_counters m, ok tt))) else pure tt) s)
  reset l diff s k = elim (Bool-cases (diff == 0)) [
    | inl stable ↦ rw stable (
        calls-Keeps i mg sl v others a b company {A = Unit {0}} v.Due v.Due l
          (λ m. (mg.reset_counters m, ok tt)) s b.resets k)
    | inr moving ↦ rw moving k
  ]

  -- A round from the delay on
  counted :
      (current diff : ℕ) (need busywait : Bool) (s s2 : SleepingTick M)
      → Between v (unit i.sim_time_metric) start next current s.sync
      → Keeps v v.Ready others (v.last s.sync.interface) s2
      → let stable = diff == 0 && not need in
        let est = estimate i next stable current in
        Returns (Rounded (v.last s.sync.interface)) (
          (do
            on_sync (ask mg.reduce_network_delay)
            (if diff == 0 then on_sync (ask (λ m. (mg.reset_counters m, ok tt))) else pure tt)
            note_message i mg sl stable
            answer ← on_sync (ask (mg.reduce_min_time est))
            note_times i mg sl est diff
            on_sync (judge i mg current est answer (not stable) busywait))
            s2)
  counted current diff need busywait s s2 between k =
      let l = v.last s.sync.interface in
      let K : SleepingTick M → Type 0 = Keeps v v.Due others l in
      let stable = diff == 0 && not need in
      Returns->>= (λ s' _. K s') (Rounded l) (on_sync (ask mg.reduce_network_delay) s2) _
        (calls-Keeps i mg sl v others a b company v.Ready v.Due l mg.reduce_network_delay s2
          a.delays k)
        (λ s3 x k3.
          Returns->>= {A = Unit {0}} (λ s' _. K s') (Rounded l)
            ((if diff == 0 then on_sync (ask (λ m. (mg.reset_counters m, ok tt))) else pure tt) s3)
            _ (reset l diff s3 k3)
            (λ s4 x k4.
              Returns->>= (λ s' _. K s') (Rounded l) (note_message i mg sl stable s4) _
                (note_message-Keeps i mg sl v others a b company v.Due l stable s4 k4)
                (λ s5 x k5. proposed current diff need busywait s s5 between k5)))

  sleeping_round-Rounded :
      (current : ℕ) (need busywait : Bool) (s : SleepingTick M)
      → Between v (unit i.sim_time_metric) start next current s.sync
      → Keeps v v.Ready others (v.last s.sync.interface) s
      → Returns
          (Rounded (v.last s.sync.interface))
          (sleeping_round i mg sl current next need busywait s)
  unfolding sleeping_round estimate
  sleeping_round-Rounded current need busywait s between k =
      let l = v.last s.sync.interface in
      let K : SleepingTick M → Type 0 = Keeps v v.Ready others l in
      Returns->>= (λ s' _. K s') (Rounded l) (wait_round i mg sl need busywait s) _
        (wait_round-Keeps i mg sl v others a b company l need busywait s k)
        (λ s1 need' k1.
          Returns->>= (λ s' _. K s') (Rounded l) (on_sync (ask mg.reduce_total_send_receive) s1) _
            (calls-Keeps i mg sl v others a b company v.Ready v.Ready l mg.reduce_total_send_receive
              s1 a.counts k1)
            (λ s2 diff k2.
              counted current diff need' busywait s (set_diff diff s2) between
                (set_diff-Keeps l diff s2 k2)))

  after_round :
      (onward : (current : ℕ) (need busywait : Bool) → Action (SleepingTick M) (Option ℕ))
      (fuel l : ℕ) (s : SleepingTick M) (r : Round)
      → next ≤ l + suc fuel
      → ((current : ℕ) (need busywait : Bool) (s' : SleepingTick M)
          → Between v (unit i.sim_time_metric) start next current s'.sync
          → Keeps v v.Ready others (v.last s'.sync.interface) s'
          → next ≤ v.last s'.sync.interface + fuel
          → Returns
              (Rested v others (unit i.sim_time_metric) start next)
              (onward current need busywait s'))
      → Rounded l s r
      → Returns (Rested v others (unit i.sim_time_metric) start next) (proceed_sleeping onward r s)
  unfolding Rounded Rested After Finished
  after_round onward fuel l s (returns t) enough rest (h, k) = ((t, refl, h.0), k)
  after_round onward fuel l s (again current need busywait) enough rest (h, k) =
      rest current need busywait s (h.0) k (omega (arith, h.1, enough))

  -- The measure: how far the last answer is from the time that is asked for.
  sleeping_loop-Rested :
      (fuel current : ℕ) (need busywait : Bool) (s : SleepingTick M)
      → Between v (unit i.sim_time_metric) start next current s.sync
      → Keeps v v.Ready others (v.last s.sync.interface) s
      → next ≤ v.last s.sync.interface + fuel
      → Returns
          (Rested v others (unit i.sim_time_metric) start next)
          (sleeping_loop i mg sl fuel current next need busywait s)
  unfolding sleeping_loop
  sleeping_loop-Rested zero current need busywait s between k enough =
      absurd (omega (arith, between.within, between.before, enough))
  sleeping_loop-Rested (suc fuel) current need busywait s between k enough =
      let onward : (current : ℕ) (need busywait : Bool) → Action (SleepingTick M) (Option ℕ) =
        λ current need busywait. sleeping_loop i mg sl fuel current next need busywait in
      Returns->>= (Rounded (v.last s.sync.interface))
        (Rested v others (unit i.sim_time_metric) start next)
        (sleeping_round i mg sl current next need busywait s) (proceed_sleeping onward)
        (sleeping_round-Rounded current need busywait s between k)
        (λ s' r.
          after_round onward fuel (v.last s.sync.interface) s' r enough (sleeping_loop-Rested fuel))

  woken :
      (might : Bool) (s : SleepingTick M)
      → s.might_sleep ≡ might
      → Keeps v v.Ready others (v.last s.sync.interface) s
      → Returns
          (λ s' _. Keeps v v.Ready others (v.last s.sync.interface) s')
          ((if might then wake_others i mg sl next s.power_sim_granted_time else pure tt) s)
  woken false s e k = k
  woken true s e k =
      let l = v.last s.sync.interface in
      wake_others-Keeps i mg sl v others a b company l next s.power_sim_granted_time s
        (Keeps-Known i mg sl v others a b company v.Ready l s k e) k

  -- A simulator of a known metric whose one time step is a unit of it, in a federation with at least
  -- one other simulator that is no network simulator, asks for a time that fits 64 bits, having been
  -- granted none beyond that. The later of the current time and the time granted last, and the time
  -- that is asked for, are multiples of the unit, at least a unit apart, and the last answer lies in
  -- the unit that starts at the former. The array has an entry for each of the others, all written if
  -- they may sleep, and a round may begin. If all calls of its manager come back in their turn, the
  -- others' times are told for just these simulators, and every answer is no later than what was
  -- proposed and either zero or later than the answer before, then as many rounds as there are
  -- nanoseconds between the last answer and the time asked for are enough: an answer of zero has told
  -- the end, which the call returns, or the call grants a time at least a unit later and no later than
  -- the one asked for, which is the federation's last answer. The array is again as it was required to
  -- be, and a round may begin.
  pub sleeping_time_lem :
      (fuel current : ℕ) (s : SleepingTick M)
      → (if ltb current s.sync.granted_time then s.sync.granted_time else current) ≡ start
      → s.sync.granted_time ≤ next
      → start ≤ v.last s.sync.interface
      → v.last s.sync.interface < start + unit i.sim_time_metric
      → start + unit i.sim_time_metric ≤ next
      → next ≤ v.last s.sync.interface + fuel
      → Keeps v v.Ready others (v.last s.sync.interface) s
      → Returns
          (Rested v others (unit i.sim_time_metric) start next)
          (get_next_time i mg sl fuel current next s)
  unfolding get_next_time Keeps
  sleeping_time_lem fuel current s from due answered within before enough k =
      let sync : ltb next s.sync.granted_time ≡ false = ground (arith, due) in
      let u = unit i.sim_time_metric in
      rw (sync, from)
        (Returns->>= {A = Unit {0}} (λ s' _. Keeps v v.Ready others (v.last s.sync.interface) s')
          (Rested v others u start next)
          ((if s.might_sleep then wake_others i mg sl next s.power_sim_granted_time else pure tt) s)
          _ (woken s.might_sleep s refl k)
          (λ s1 x k1.
            sleeping_loop-Rested fuel start false (ltb current s.sync.granted_time) s1
              (record {
                later = omega arith;
                answered = omega (arith, answered, k1.0);
                within = omega (arith, within, k1.0);
                before = before;
                ready = k1.3;
              })
              (refl, k1.1, k1.2, k1.3) (omega (arith, enough, k1.0))))
