-- ===== src/SyncAlgorithm/Optimistic/Tick.antt =====
-- syncalgorithms/optimisticticksyncalgo.cpp: `GetNextTime` of a tick-based simulator that speculates. A
-- call that needs more rounds than its fuel gives `none`.
use fncs.Base.{
  ℕ, zero, suc, Bool, true, false, not, ◌&&◌, Option, none, some, ok, nat_key, ◌==◌, leb, ltb,
  if◌then◌else◌, add64,
}
use fncs.Base.Actions.{Action, pure, modify, gets, lift, ◌>>=◌, ◌>>◌}
use fncs.Time.{infinity, round_time}
use fncs.Settings.{Settings}
use fncs.Speculation.{worth_speculation, get_next_spec_time}
use fncs.SyncAlgorithm.{Manager, ask, grant, finish}
use fncs.SyncAlgorithm.Optimistic.{
  System, Forking, Optimistic, Turn, goes, exits, on_sync, on_system, through_comm,
  set_spec_fail_time, set_min_next_time, has_child,
}
use fncs.SyncAlgorithm.Optimistic.Deciding.{check_child, test_speculation_state, time_step_start}

-- What a simulator brings to a round: `myminNextTime`, `canSpeculate` and `needToRespond`
pub record Proposal : Type 0 where
  pub mine : ℕ
  pub can_speculate : Bool
  pub need_to_respond : Bool

-- How a round ends: it is repeated, with `busywait` set, or the call returns, or the process exits.
pub data Spin : Type 0 where
  again : (current_time_param current_time : ℕ) (need_to_respond : Bool) → Spin
  returns : (t : ℕ) → Spin
  stops : (status : ℕ) → Spin

-- How the call ends
pub data Granting : Type 0 where
  granted : (t : ℕ) → Granting
  stopped : (status : ℕ) → Granting

module _ {M Y : Type 0} (i : Settings) (sys : System Y) (mg : Manager M) (fk : Forking M) where
  -- The proposal of a round; `minNextTime` is set to `nextEstTime`.
  unfoldable pub propose :
      (current_time_param next_time diff : ℕ) (need : Bool) → Action (Optimistic M Y) Proposal
  unfolding check_child
  propose current_time_param next_time diff need s =
      if diff == 0 && not need
      then (if not (s.spec_fail_time == infinity) && ltb next_time s.spec_fail_time
          then (
            record s { min_next_time = s.spec_fail_time; spec_fail_time = infinity },
            ok (record { mine = next_time; can_speculate = false; need_to_respond = false }),
          )
          else (
            record s { min_next_time = next_time },
            ok (record { mine = next_time; can_speculate = true; need_to_respond = false }),
          ))
      else (do
        check_child sys diff
        modify (set_min_next_time (add64 current_time_param i.one_time_step))
        pure (record {
          mine = add64 current_time_param i.one_time_step;
          can_speculate = false;
          need_to_respond = true;
        }))
          s

  -- The reduction without a child: a time to speculate up to goes with the minimum.
  unfoldable pub consult_others :
      (current_time : ℕ) (can_speculate : Bool) → Action (Optimistic M Y) ℕ
  consult_others current_time can_speculate s =
      let mine =
        if can_speculate && worth_speculation current_time s.spec_fail_time s.st
        then get_next_spec_time current_time s.st
        else 0 in
      (do
        answer ← on_sync (ask (fk.aggreate_reduce_min (s.min_next_time, mine)))
        modify (set_min_next_time answer.0)
        pure answer.1)
        s

  -- The reduction with a child: the action that the child has written goes with the minimum.
  unfoldable pub consult_child : Action (Optimistic M Y) ℕ
  consult_child = do
    action ← through_comm (on_system sys.read_action)
    estimate ← gets (λ s. s.min_next_time)
    answer ← on_sync (ask (fk.aggreate_reduce_min (estimate, action)))
    modify (λ s. record s { min_next_time = answer.0; global_action = answer.1 })
    pure 0

  -- The reductions of a round; they give `specNextTime`.
  unfoldable pub consult :
      (current_time diff : ℕ) (can_speculate : Bool) → Action (Optimistic M Y) ℕ
  unfolding has_child consult_others consult_child
  consult current_time diff can_speculate s =
      if diff == 0
      then (if not (has_child s)
          then consult_others current_time can_speculate s
          else consult_child s)
      else (do
        answer ← on_sync (ask (mg.reduce_min_time s.min_next_time))
        modify (set_min_next_time answer)
        pure 0)
          s

  -- The end of a round, from the answer of the reductions on
  unfoldable pub judge : (current_time_param mine : ℕ) (need : Bool) → Action (Optimistic M Y) Spin
  judge current_time_param mine need s =
      let answer = s.min_next_time in
      if answer == 0
      then (on_sync (modify finish) >> pure (returns 0)) s
      else (if ltb answer mine
          then (do
            current ← lift (round_time i.sim_time_metric answer)
            on_sync (modify (grant answer))
            pure (again current answer need))
              s
          else (on_sync (modify (grant answer)) >> pure (returns mine)) s)

  -- A child is granted the time up to which it speculates.
  unfoldable pub after_turn :
      (current_time_param spec_next_time : ℕ) → Proposal → Turn → Action (Optimistic M Y) Spin
  unfolding judge
  after_turn current_time_param spec_next_time p (exits status) = pure (stops status)
  after_turn current_time_param spec_next_time p (goes result) = do
    (if ltb 0 result then modify (set_min_next_time spec_next_time) else pure tt)
    judge current_time_param p.mine p.need_to_respond

  -- One round of the loop
  unfoldable pub tick_round :
      (current_time_param current_time next_time : ℕ) (need busywait : Bool)
      → Action (Optimistic M Y) Spin
  unfolding time_step_start propose consult test_speculation_state after_turn
  tick_round current_time_param current_time next_time need busywait = do
    (if busywait then time_step_start sys fk mg current_time else pure tt)
    diff ← on_sync (ask mg.reduce_total_send_receive)
    on_sync (ask mg.reduce_network_delay)
    p ← propose current_time_param next_time diff need
    spec_next_time ← consult current_time diff p.can_speculate
    turn ← test_speculation_state sys fk spec_next_time current_time
    after_turn current_time_param spec_next_time p turn

  unfoldable pub tick_loop :
      (fuel current_time_param current_time next_time : ℕ) (need busywait : Bool)
      → Action (Optimistic M Y) (Option Granting)
  unfolding tick_round
  tick_loop zero current_time_param current_time next_time need busywait = pure none
  tick_loop (suc fuel) current_time_param current_time next_time need busywait = do
    r ← tick_round current_time_param current_time next_time need busywait
    elim r [
      | again current_time_param' current_time' need' ↦
          tick_loop fuel current_time_param' current_time' next_time need' true
      | returns t ↦ pure (some (granted t))
      | stops status ↦ pure (some (stopped status))
    ]

  -- `OptimisticTickSyncAlgo::GetNextTime`
  unfoldable pub get_next_time :
      (fuel current_time_param next_time : ℕ) → Action (Optimistic M Y) (Option Granting)
  unfolding tick_loop
  get_next_time fuel current_time_param next_time s =
      let behind = ltb current_time_param s.sync.granted_time in
      let current = if behind then s.sync.granted_time else current_time_param in
      if leb next_time s.sync.granted_time
      then (s, ok (some (granted next_time)))
      else tick_loop fuel current_time_param current next_time false behind
          (if ltb s.spec_fail_time current then set_spec_fail_time infinity s else s)
