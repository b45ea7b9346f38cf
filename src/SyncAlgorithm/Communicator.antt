-- ===== src/SyncAlgorithm/Communicator.antt =====
-- syncalgorithms/communicatorsimulatorsyncalgo.cpp and conservativesleepingcommalgo.cpp: the algorithms
-- of a communication network simulator, which proposes no time of its own.
use fncs.Base.{ℕ, ok, nat_key, ◌==◌, ltb, if◌then◌else◌}
use fncs.Base.Actions.{Action, pure, modify, ◌>>=◌, ◌>>◌}
use fncs.Time.{infinity}
use fncs.SyncAlgorithm.{Manager, Sync, ask, grant, finish}

module _ {M : Type 0} (mg : Manager M) where
  -- What both do with the answer
  unfoldable pub take_answer : (min_next_time : ℕ) → Action (Sync M) ℕ
  take_answer min_next_time =
      if min_next_time == infinity
      then (modify finish >> pure infinity)
      else (modify (grant min_next_time) >> pure min_next_time)

  -- `CommunicatorSimulatorSyncalgo::GetNextTime`
  unfoldable pub get_next_time : (current_time next_time : ℕ) → Action (Sync M) ℕ
  unfolding take_answer
  get_next_time current_time next_time s =
      if ltb next_time s.granted_time
      then (s, ok s.granted_time)
      else (do
        diff ← ask mg.reduce_total_send_receive
        (if ltb 0 diff then ask (mg.packet_lost_calculator current_time) else pure tt)
        ask mg.reduce_network_delay
        min_next_time ← ask (mg.reduce_min_time infinity)
        take_answer min_next_time)
          s

  -- `ConservativeSleepingCommAlgo::GetNextTime`
  unfoldable pub get_next_sleeping_time : (current_time next_time : ℕ) → Action (Sync M) ℕ
  unfolding take_answer
  get_next_sleeping_time current_time next_time s =
      if ltb next_time s.granted_time
      then (s, ok s.granted_time)
      else (do
        diff ← ask mg.reduce_total_send_receive
        modify (λ s. record s { diff = diff })
        modify
            (λ s. if diff == 0 then record s { interface = mg.reset_counters s.interface } else s)
        (if ltb 0 diff then ask (mg.packet_lost_calculator current_time) else pure tt)
        ask mg.reduce_network_delay
        min_next_time ← ask (mg.reduce_min_time infinity)
        take_answer min_next_time)
          s
