-- ===== src/SyncAlgorithm/Reacting.antt =====
-- syncalgorithms/reactiveconservative.cpp: how many rounds a call takes, and which times it grants and
-- returns.
use fncs.Base.{
  ℕ, zero, suc, ◌+◌, ◌%◌, ◌≤◌, ◌<◌, ◌≡◌, ◌≢◌, refl, ◌∙◌, arith, ◌⊎◌, inl, inr, Bool, true, false,
  ◌&&◌, ◌||◌, Option, none, some, nat_key, ◌==◌, leb, ltb, if◌then◌else◌, add64, IsU64, Bool-cases,
  min,
}
use fncs.Base.Actions.{Action, Returns, Returns->>=, Returns-imp, pure, resume}
use fncs.Time.{unknown, infinity}
use fncs.Time.Convert.{unit, round_time-between}
use fncs.Settings.{Settings}
use fncs.SyncAlgorithm.{Manager, Sync, ask, Round, again, returns}
use fncs.SyncAlgorithm.Reactive.{judge, reactive_round, reactive_loop, get_next_time, at_most}
use fncs.SyncAlgorithm.Answering.{View, Unanswered, Returns-ask}
use fncs.SyncAlgorithm.Stepping.{proceed}

-- The calls of this algorithm come back. The answer is never later than what was proposed, and later
-- than the answer before.
pub record Advances {M : Type 0} (mg : Manager M) (v : View M) : Type 0 where
  pub waits : Unanswered v v.Ready v.Ready mg.waitfor_all
  pub counts : Unanswered v v.Ready v.Ready mg.reduce_total_send_receive
  pub delays : Unanswered v v.Ready v.Due mg.reduce_network_delay
  pub answers :
      (est : ℕ) (m : M)
      → v.Due m
      → v.last m < est
      → Returns
          (λ m' r. (v.last m' ≡ r) × (r ≤ est) × (v.last m < r) × v.Ready m')
          (mg.reduce_min_time est m)

-- What the call gives of a time that the loop has come back with: the earlier of that time and the one
-- that was asked for.
unfoldable pub Told : {M : Type 0} → (v : View M) → (before next : ℕ) → Sync M → Option ℕ → Type 0
Told v before next s r =
    (t : ℕ) × (r ≡ some (min t next))
    × (s.granted_time ≡ t)
    × (v.last s.interface ≡ t)
    × (before < t)

module _ {M : Type 0} (i : Settings) (mg : Manager M) (v : View M) (a : Advances mg v)
    (known : i.sim_time_metric ≢ unknown) (step : i.one_time_step ≡ unit i.sim_time_metric)
    (start : ℕ) (short : IsU64 (start + unit i.sim_time_metric))
    (on_step : start % unit i.sim_time_metric ≡ 0)
    (on_step' : (start + unit i.sim_time_metric) % unit i.sim_time_metric ≡ 0) where
  -- A round may begin, and the last answer lies in the unit that starts at the current time.
  Inside : Sync M → Type 0
  Inside s =
      (start ≤ v.last s.interface)
      × (v.last s.interface < start + unit i.sim_time_metric)
      × v.Ready s.interface

  -- After a round that followed the answer `before`: the current time is as it was at the start.
  Reacted : (before : ℕ) → Sync M → Round → Type 0
  Reacted before s (returns t) = (s.granted_time ≡ t) × (v.last s.interface ≡ t) × (before < t)
  Reacted before s (again current need busywait) =
      (current ≡ start) × Inside s × (before < v.last s.interface)

  judge-Reacted :
      (est answer before : ℕ) (need busywait : Bool) (s : Sync M)
      → (est ≡ infinity) ⊎ (est ≡ start + unit i.sim_time_metric)
      → start ≤ before
      → v.last s.interface ≡ answer
      → answer ≤ est
      → before < answer
      → v.Ready s.interface
      → Returns (Reacted before) (judge i mg start est answer need busywait s)
  unfolding judge Reacted Inside
  judge-Reacted est answer before need busywait s choice from e le fresh ready =
      elim (Bool-cases (answer == est || est == infinity)) [
        | inl mine ↦ rw mine (refl, e, fresh)
        | inr other ↦
            let bounded : est ≡ start + unit i.sim_time_metric = ground (arith, other, choice) in
            let early : ltb answer est ≡ true = ground (arith, other, le) in
            let (r, rounds, low, high, left) =
              round_time-between i.sim_time_metric answer start (start + unit i.sim_time_metric)
                known (omega (arith, le, bounded, short)) on_step on_step'
                (omega (arith, from, fresh)) (ground (arith, early, bounded)) in
            rw (other, early, rounds)
              (
                omega (arith, low, left),
                (omega (arith, e, from, fresh), ground (arith, e, early, bounded), ready),
                omega (arith, e, fresh),
              )
      ]

  waited :
      (busywait : Bool) (s : Sync M)
      → v.Ready s.interface
      → Returns
          (λ s1 _. (v.last s1.interface ≡ v.last s.interface) × v.Ready s1.interface)
          ((if busywait then ask mg.waitfor_all else pure tt) s)
  waited true s ready =
      Returns-ask (λ m' _. (v.last m' ≡ v.last s.interface) × v.Ready m') mg.waitfor_all s
        (a.waits s.interface ready)
  waited false s ready = (refl, ready)

  abbrev proposal : (respond : Bool) → ℕ
  proposal respond = if respond then add64 start i.one_time_step else infinity

  proposal-cases :
      (respond : Bool)
      → (proposal respond ≡ infinity) ⊎ (proposal respond ≡ start + unit i.sim_time_metric)
  proposal-cases true = inr (rw step (omega (arith, short)))
  proposal-cases false = inl refl

  -- The rest of a round, after the counts and the delay are known
  proposed :
      (need busywait respond : Bool) (s s3 : Sync M)
      → Inside s
      → v.last s3.interface ≡ v.last s.interface
      → v.Due s3.interface
      → Returns (Reacted (v.last s.interface)) (
          resume
            (ask (mg.reduce_min_time (proposal respond)) s3)
            (λ answer. judge i mg start (proposal respond) answer need busywait))
  unfolding Inside
  proposed need busywait respond s s3 (from, within, ready) e due =
      let est = proposal respond in
      Returns->>=
        (λ s4 r.
          (v.last s4.interface ≡ r) × (r ≤ est) × (v.last s3.interface < r) × v.Ready s4.interface)
        (Reacted (v.last s.interface)) (ask (mg.reduce_min_time est) s3)
        (λ answer. judge i mg start est answer need busywait)
        (Returns-ask (λ m' r. (v.last m' ≡ r) × (r ≤ est) × (v.last s3.interface < r) × v.Ready m')
          (mg.reduce_min_time est) s3
          (a.answers est s3.interface due
            (ground (arith, within, e, short, proposal-cases respond))))
        (λ s4 r h.
          judge-Reacted est r (v.last s.interface) need busywait s4 (proposal-cases respond) from
            (h.0) (h.1) (omega (arith, h.2, e)) (h.3))

  reactive_round-Reacted :
      (need busywait : Bool) (s : Sync M)
      → Inside s
      → Returns (Reacted (v.last s.interface)) (reactive_round i mg start need busywait s)
  unfolding reactive_round Inside
  reactive_round-Reacted need busywait s inside =
      let P = Reacted (v.last s.interface) in
      Returns->>= (λ s1 _. (v.last s1.interface ≡ v.last s.interface) × v.Ready s1.interface) P _ _
        (waited busywait s (inside.2))
        (λ s1 _ (e1, r1).
          Returns->>= (λ s2 _. (v.last s2.interface ≡ v.last s1.interface) × v.Ready s2.interface) P
            _ _
            (Returns-ask (λ m' _. (v.last m' ≡ v.last s1.interface) × v.Ready m')
              mg.reduce_total_send_receive s1 (a.counts s1.interface r1))
            (λ s2 diff (e2, r2).
              Returns->>= (λ s3 _. (v.last s3.interface ≡ v.last s2.interface) × v.Due s3.interface)
                P _ _
                (Returns-ask (λ m' _. (v.last m' ≡ v.last s2.interface) × v.Due m')
                  mg.reduce_network_delay s2 (a.delays s2.interface r2))
                (λ s3 _ (e3, due).
                  let respond = mg.respond s2.interface in
                  proposed (if respond && ltb 0 diff then true else need) busywait respond s s3
                    inside (e3 ∙ e2 ∙ e1) due)))

  -- The loop has come back with a time, later than the answer before.
  Settled : (before : ℕ) → Sync M → Option ℕ → Type 0
  Settled before s r =
      (t : ℕ) × (r ≡ some t) × (s.granted_time ≡ t) × (v.last s.interface ≡ t) × (before < t)

  Settled-earlier :
      (before before' : ℕ) (s : Sync M) (r : Option ℕ)
      → before < before'
      → Settled before' s r
      → Settled before s r
  unfolding Settled
  Settled-earlier before before' s r less (t, e, granted, is_last, later) =
      (t, e, granted, is_last, omega (arith, less, later))

  after_round :
      (onward : (current : ℕ) (need busywait : Bool) → Action (Sync M) (Option ℕ)) (fuel : ℕ)
      (s s' : Sync M) (r : Round)
      → start + unit i.sim_time_metric ≤ v.last s.interface + suc fuel
      → ((need busywait : Bool) (s' : Sync M)
          → Inside s'
          → start + unit i.sim_time_metric ≤ v.last s'.interface + fuel
          → Returns (Settled (v.last s'.interface)) (onward start need busywait s'))
      → Reacted (v.last s.interface) s' r
      → Returns (Settled (v.last s.interface)) (proceed onward r s')
  unfolding Reacted Settled
  after_round onward fuel s s' (returns t) enough rest (granted, is_last, later) =
      (t, refl, granted, is_last, later)
  after_round onward fuel s s' (again current need busywait) enough rest (same, inside, further) =
      rw same (
        Returns-imp (Settled (v.last s'.interface)) (Settled (v.last s.interface))
          (onward start need busywait s')
          (rest need busywait s' inside (omega (arith, further, enough)))
          (λ s2 r2. Settled-earlier (v.last s.interface) (v.last s'.interface) s2 r2 further))

  -- The measure: how far the last answer is from the end of its unit.
  reactive_loop-Settled :
      (fuel : ℕ) (need busywait : Bool) (s : Sync M)
      → Inside s
      → start + unit i.sim_time_metric ≤ v.last s.interface + fuel
      → Returns (Settled (v.last s.interface)) (reactive_loop i mg fuel start need busywait s)
  unfolding reactive_loop Inside
  reactive_loop-Settled zero need busywait s inside enough =
      absurd (omega (arith, inside.1, enough))
  reactive_loop-Settled (suc fuel) need busywait s inside enough =
      let onward : (current : ℕ) (need busywait : Bool) → Action (Sync M) (Option ℕ) =
        λ current need busywait. reactive_loop i mg fuel current need busywait in
      Returns->>= (Reacted (v.last s.interface)) (Settled (v.last s.interface))
        (reactive_round i mg start need busywait s) (proceed onward)
        (reactive_round-Reacted need busywait s inside)
        (λ s' r.
          after_round onward fuel s s' r enough
            (λ need busywait s'. reactive_loop-Settled fuel need busywait s'))

  at_most-Told :
      (before next : ℕ) (s : Sync M) (r : Option ℕ)
      → Settled before s r
      → Told v before next s (at_most i mg next r)
  unfolding Settled Told
  at_most-Told before next s none (t, e, granted, is_last, later) = absurd cc
  at_most-Told before next s (some u) (t, e, granted, is_last, later) =
      let same : u ≡ t = cc in (t, ground (arith, same), granted, is_last, later)

  -- A simulator of a known metric whose one time step is a unit of it asks for a time later than the
  -- one it was granted last, in a unit that fits 64 bits and that the last answer lies in. The start of
  -- that unit and its end are multiples of the unit. If all calls of its manager come back in their
  -- turn, and every answer is no later than what was proposed and later than the answer before, then as
  -- many rounds as there are nanoseconds between the last answer and the end of its unit are enough:
  -- the federation's last answer, later than the one at the start, is granted, and the call returns the
  -- earlier of that time and the time asked for.
  pub reactive_time_lem :
      (fuel next : ℕ) (s : Sync M)
      → v.Ready s.interface
      → s.granted_time < next
      → start ≤ v.last s.interface
      → v.last s.interface < start + unit i.sim_time_metric
      → start + unit i.sim_time_metric ≤ v.last s.interface + fuel
      → Returns (Told v (v.last s.interface) next) (get_next_time i mg fuel start next s)
  unfolding get_next_time Inside
  reactive_time_lem fuel next s ready due from within enough =
      let ahead : leb next s.granted_time ≡ false = ground (arith, due) in
      rw ahead (
        Returns->>= (Settled (v.last s.interface)) (Told v (v.last s.interface) next)
          (reactive_loop i mg fuel start false false s) _
          (reactive_loop-Settled fuel false false s (from, within, ready) enough)
          (λ s' r h. at_most-Told (v.last s.interface) next s' r h))
