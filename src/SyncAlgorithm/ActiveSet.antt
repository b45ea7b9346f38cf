-- ===== src/SyncAlgorithm/ActiveSet.antt =====
-- syncalgorithms/activesetconservativetick.cpp and activesetconservativecom.cpp: the algorithms in which
-- simulators with nothing to do sleep at the broker. A call that needs more rounds than its fuel
-- gives `none`.
use fncs.Base.{
  ℕ, zero, suc, Bool, true, false, not, ◌&&◌, Option, none, some, ok, nat_key, ◌==◌, ltb,
  if◌then◌else◌, add64,
}
use fncs.Base.Actions.{Action, pure, modify, gets, lift, ◌>>=◌, ◌>>◌}
use fncs.Time.{infinity, round_time}
use fncs.Settings.{Settings}
use fncs.Message.{Message}
use fncs.SyncAlgorithm.{Manager, Sync, ask, grant, Round, again, returns}

module _ {M : Type 0} where
  -- `ActiveSetConservativeTick::nodeSentMessage`
  unfoldable pub node_sent_message : Message → Action (Sync M) Bool
  node_sent_message given s = (record s { sent_message = true }, ok true)

module _ {M : Type 0} (i : Settings) (mg : Manager M) where
  -- `if(diff==0) this->interface->resetCounters();`
  abbrev pub reset_if_stable : (diff : ℕ) → Action (Sync M) (Unit {0})
  reset_if_stable diff s =
      (if diff == 0 then record s { interface = mg.reset_counters s.interface } else s, ok tt)

  -- The end of a round of `ActiveSetConservativeTick`, after the answer `min_next_time`
  unfoldable pub judge_tick : (est min_next_time : ℕ) (need : Bool) → Action (Sync M) Round
  judge_tick est min_next_time need =
      if ltb min_next_time est
      then (do
        current ← lift (round_time i.sim_time_metric min_next_time)
        pure (again current need true))
      else (modify (grant est) >> pure (returns est))

  -- One round of the loop of `ActiveSetConservativeTick::GetNextTime`
  unfoldable pub tick_round : (current_time next_time : ℕ) (need : Bool) → Action (Sync M) Round
  unfolding judge_tick
  tick_round current_time next_time need = do
    diff ← ask mg.reduce_total_send_receive
    ask mg.reduce_network_delay
    reset_if_stable diff
    let stable = diff == 0 && not need
    let est = if stable then next_time else add64 current_time i.one_time_step
    sent ← gets (λ s. s.sent_message)
    min_next_time ← ask (mg.reduce_min_time_with_sleep est sent)
    modify (λ s. record s { sent_message = false })
    judge_tick est min_next_time (not stable)

  unfoldable pub tick_loop :
      (fuel current_time next_time : ℕ) (need : Bool) → Action (Sync M) (Option ℕ)
  unfolding tick_round
  tick_loop zero current_time next_time need = pure none
  tick_loop (suc fuel) current_time next_time need = do
    r ← tick_round current_time next_time need
    elim r [
      | returns t ↦ pure (some t)
      | again current need' busywait ↦ tick_loop fuel current next_time need'
    ]

  -- `ActiveSetConservativeTick::GetNextTime`
  unfoldable pub get_next_tick_time : (fuel current_time next_time : ℕ) → Action (Sync M) (Option ℕ)
  unfolding tick_loop
  get_next_tick_time fuel current_time next_time s =
      if ltb next_time s.granted_time
      then (s, ok (some s.granted_time))
      else tick_loop fuel current_time next_time false s

  -- One round of the loop of `ActiveSetConservativeCom::GetNextTime`
  unfoldable pub com_round : (current_time : ℕ) → Action (Sync M) Round
  com_round current_time = do
    diff ← ask mg.reduce_total_send_receive
    (if ltb 0 diff then ask (mg.packet_lost_calculator current_time) else pure tt)
    reset_if_stable diff
    ask mg.reduce_network_delay
    min_next_time ← ask (mg.reduce_min_time_with_sleep infinity false)
    granted ← gets (λ s. s.granted_time)
    (if min_next_time == granted
        then (do
          current ← lift (round_time i.sim_time_metric min_next_time)
          pure (again current false true))
        else (modify (grant min_next_time) >> pure (returns min_next_time)))

  unfoldable pub com_loop : (fuel current_time : ℕ) → Action (Sync M) (Option ℕ)
  unfolding com_round
  com_loop zero current_time = pure none
  com_loop (suc fuel) current_time = do
    r ← com_round current_time
    elim r [ returns t ↦ pure (some t) | again current need busywait ↦ com_loop fuel current ]

  -- `ActiveSetConservativeCom::GetNextTime`
  unfoldable pub get_next_com_time : (fuel current_time next_time : ℕ) → Action (Sync M) (Option ℕ)
  unfolding com_loop
  get_next_com_time fuel current_time next_time s =
      if ltb next_time s.granted_time
      then (s, ok (some s.granted_time))
      else com_loop fuel current_time s
