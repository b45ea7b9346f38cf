-- ===== src/SyncAlgorithm/Optimistic/Comm.antt =====
-- syncalgorithms/optimisticcommsyncalgo.cpp: `GetNextTime` of a network simulator that speculates as the
-- tick-based simulators do.
use fncs.Base.{ℕ, not, ok, nat_key, ◌==◌, ltb, if◌then◌else◌}
use fncs.Base.Actions.{Action, pure, modify, gets, ◌>>=◌, ◌>>◌}
use fncs.Time.{infinity}
use fncs.SyncAlgorithm.{Manager, ask, grant, finish}
use fncs.SyncAlgorithm.Optimistic.{
  System, Forking, Optimistic, Turn, goes, exits, on_sync, on_system, through_comm,
  set_spec_fail_time, set_min_next_time, has_child,
}
use fncs.SyncAlgorithm.Optimistic.Deciding.{check_child, test_speculation_state}
use fncs.SyncAlgorithm.Optimistic.Tick.{Granting, granted, stopped}

module _ {M Y : Type 0} (sys : System Y) (mg : Manager M) (fk : Forking M) where
  -- The reductions; they give `specNextTime`, which stays infinity where a child is at work.
  unfoldable pub follow : (diff : ℕ) → Action (Optimistic M Y) ℕ
  unfolding has_child check_child
  follow diff s =
      if diff == 0
      then (if not (has_child s)
          then (do
            answer ← on_sync (ask (fk.aggreate_reduce_min (infinity, infinity)))
            modify (set_min_next_time answer.0)
            pure answer.1)
              s
          else (do
            action ← through_comm (on_system sys.read_action)
            answer ← on_sync (ask (fk.aggreate_reduce_min (infinity, action)))
            modify (λ s. record s { min_next_time = answer.0; global_action = answer.1 })
            pure infinity)
              s)
      else (do
        check_child sys diff
        answer ← on_sync (ask (mg.reduce_min_time infinity))
        modify (set_min_next_time answer)
        pure 0)
          s

  -- What is done with the answer
  unfoldable pub settle : (spec_next_time : ℕ) → Turn → Action (Optimistic M Y) Granting
  settle spec_next_time (exits status) = pure (stopped status)
  settle spec_next_time (goes result) = do
    (if ltb 0 result then modify (set_min_next_time spec_next_time) else pure tt)
    answer ← gets (λ s. s.min_next_time)
    (if answer == infinity
        then (on_sync (modify finish) >> pure (granted infinity))
        else (on_sync (modify (grant answer)) >> pure (granted answer)))

  -- `OptimisticCommSyncAlgo::GetNextTime`
  unfoldable pub get_next_time : (current_time next_time : ℕ) → Action (Optimistic M Y) Granting
  unfolding check_child follow test_speculation_state settle
  get_next_time current_time next_time s =
      if ltb next_time s.sync.granted_time
      then (s, ok (granted s.sync.granted_time))
      else (do
        diff ← on_sync (ask mg.reduce_total_send_receive)
        (if ltb 0 diff
            then (on_sync (ask (mg.packet_lost_calculator current_time)) >> check_child sys diff)
            else pure tt)
        on_sync (ask mg.reduce_network_delay)
        modify (set_min_next_time infinity)
        spec_next_time ← follow diff
        turn ← test_speculation_state sys fk spec_next_time current_time
        settle spec_next_time turn)
          (if ltb s.spec_fail_time current_time then set_spec_fail_time infinity s else s)
