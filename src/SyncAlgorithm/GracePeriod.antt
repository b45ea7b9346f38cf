-- ===== src/SyncAlgorithm/GracePeriod.antt =====
-- syncalgorithms/graceperiodpesimisticsyncalgo.cpp and epochssyncalgortihm.cpp: the algorithms in which
-- a simulator waits for all others at a barrier until it is granted a time. A call that needs more
-- rounds than its fuel gives `none`.
use fncs.Base.{
  ℕ, zero, suc, Bool, true, false, not, ◌&&◌, Option, none, some, ok, nat_key, ◌==◌, ltb,
  if◌then◌else◌, add64,
}
use fncs.Base.Actions.{Action, pure, modify, gets, lift, ◌>>=◌, ◌>>◌}
use fncs.Time.{round_time, convert_to_framework_time}
use fncs.Settings.{Settings}
use fncs.SyncAlgorithm.{Manager, Sync, ask, grant, finish, Round, again, returns}

module _ {M : Type 0} (i : Settings) (mg : Manager M) where
  -- The end of a round of `GracePeriodSyncAlgo`, after the answer `min_next_time`
  unfoldable pub judge :
      (current_time est min_next_time : ℕ) (need busywait : Bool) → Action (Sync M) Round
  judge current_time est min_next_time need busywait =
      let busy = if min_next_time == est then false else busywait in
      if min_next_time == 0
      then (modify finish >> pure (returns 0))
      else (if ltb min_next_time est
          then (do
            current ← lift (round_time i.sim_time_metric min_next_time)
            pure (again current need true))
          else (if busy
              then pure (again current_time need true)
              else (modify (grant est) >> pure (returns est))))

  -- One round of the loop of `GracePeriodSyncAlgo::GetNextTime`
  unfoldable pub grace_round :
      (current_time next_time : ℕ) (need busywait : Bool) → Action (Sync M) Round
  unfolding judge
  grace_round current_time next_time need busywait = do
    (if busywait then ask mg.waitfor_all else pure tt)
    diff ← ask mg.reduce_total_send_receive
    ask mg.reduce_network_delay
    let stable = diff == 0 && not need
    let est = if stable then next_time else add64 current_time i.one_time_step
    min_next_time ← ask (mg.reduce_min_time est)
    judge current_time est min_next_time (not stable) busywait

  unfoldable pub grace_loop :
      (fuel current_time next_time : ℕ) (need busywait : Bool) → Action (Sync M) (Option ℕ)
  unfolding grace_round
  grace_loop zero current_time next_time need busywait = pure none
  grace_loop (suc fuel) current_time next_time need busywait = do
    r ← grace_round current_time next_time need busywait
    elim r [
      | returns t ↦ pure (some t)
      | again current need' busywait' ↦ grace_loop fuel current next_time need' busywait'
    ]

  -- `GracePeriodSyncAlgo::GetNextTime`
  unfoldable pub get_next_time : (fuel current_time next_time : ℕ) → Action (Sync M) (Option ℕ)
  unfolding grace_loop
  get_next_time fuel current_time next_time s =
      if ltb next_time s.granted_time
      then (s, ok (some next_time))
      else grace_loop fuel current_time next_time false false s

  -- The end of a round of `EpochsSyncalgortihm`; `mine` is what the call returns.
  unfoldable pub judge_epoch :
      (current_time mine min_next_time : ℕ) (need busywait : Bool) → Action (Sync M) Round
  judge_epoch current_time mine min_next_time need busywait =
      let busy = if ltb mine min_next_time then false else busywait in
      if min_next_time == 0
      then (modify finish >> pure (returns 0))
      else (if ltb min_next_time mine
          then (do
            current ← lift (round_time i.sim_time_metric min_next_time)
            pure (again current need true))
          else (if busy
              then pure (again current_time need true)
              else (modify (grant min_next_time) >> pure (returns mine))))

  -- One round of the loop of `EpochsSyncalgortihm::GetNextTime`
  unfoldable pub epoch_round :
      (current_time next_time : ℕ) (need busywait : Bool) → Action (Sync M) Round
  unfolding judge_epoch
  epoch_round current_time next_time need busywait = do
    (if busywait then ask mg.waitfor_all else pure tt)
    diff ← ask mg.reduce_total_send_receive
    interval ← gets (λ s. s.next_sync_time)
    step ← lift (convert_to_framework_time i.sim_time_metric 1)
    let stable = diff == 0 && not need
    min_next_time ← ask (mg.reduce_min_time (add64 current_time interval))
    judge_epoch current_time (if stable then next_time else add64 current_time step) min_next_time
        (not stable) busywait

  unfoldable pub epoch_loop :
      (fuel current_time next_time : ℕ) (need busywait : Bool) → Action (Sync M) (Option ℕ)
  unfolding epoch_round
  epoch_loop zero current_time next_time need busywait = pure none
  epoch_loop (suc fuel) current_time next_time need busywait = do
    r ← epoch_round current_time next_time need busywait
    elim r [
      | returns t ↦ pure (some t)
      | again current need' busywait' ↦ epoch_loop fuel current next_time need' busywait'
    ]

  -- `EpochsSyncalgortihm::GetNextTime`
  unfoldable pub get_next_epoch_time :
      (fuel current_time next_time : ℕ) → Action (Sync M) (Option ℕ)
  unfolding epoch_loop
  get_next_epoch_time fuel current_time next_time s =
      if ltb next_time s.granted_time
      then (s, ok (some next_time))
      else (if ltb current_time s.granted_time
          then epoch_loop fuel s.granted_time next_time false true s
          else epoch_loop fuel current_time next_time false false s)
