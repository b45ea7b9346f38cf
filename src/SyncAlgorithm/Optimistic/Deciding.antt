-- ===== src/SyncAlgorithm/Optimistic/Deciding.antt =====
-- syncalgorithms/optimisticticksyncalgo.cpp: how a process begins to speculate, and what becomes of it and
-- of its child when the simulators have agreed on an action.
use fncs.Base.{
  ℕ, Bool, true, false, not, ◌&&◌, Option, none, some, Result, ok, throws, assert_fails, undefined,
  nat_key, ◌==◌, ltb, if◌then◌else◌, sync_state_exception,
}
use fncs.Base.Actions.{Action, pure, raise_if, modify, gets, ◌>>=◌, ◌>>◌}
use fncs.Time.{infinity}
use fncs.Message.{Message}
use fncs.Speculation.{Speculation, start_speculation, speculation_failed, speculation_succeeded}
use fncs.SyncAlgorithm.{Manager, ask, new_sync}
use fncs.SyncAlgorithm.Optimistic.{
  action_do_fail_all, action_no_info, action_failed, action_success, Fork, fork_failed, in_child,
  in_parent, System, Forking, Optimistic, Turn, goes, exits, on_sync, on_system, change_system,
  through_comm, set_spec_fail_time, has_child, become_child, become_parent, child_terminated,
  got_child, create_time_shm, attach_time_shm, detach_time_shm, kill_child,
}

-- An exception that leaves a destructor ends the program.
abbrev pub in_destructor : {S A : Type 0} → S × Result A → S × Result A
in_destructor (s, ok a) = (s, ok a)
in_destructor (s, throws e) = (s, assert_fails)
in_destructor (s, assert_fails) = (s, assert_fails)
in_destructor (s, undefined) = (s, undefined)

module _ {M Y : Type 0} (sys : System Y) where
  -- The segment is removed where there is one.
  abbrev pub remove_shm : Option ℕ → Action (Optimistic M Y) (Unit {0})
  remove_shm none = pure tt
  remove_shm (some n) = change_system (sys.shm_remove n)

  -- `~OptimisticTickSyncAlgo`
  unfoldable pub destroy : Action (Optimistic M Y) (Unit {0})
  unfolding has_child kill_child
  destroy s =
      in_destructor ((do (if has_child s then kill_child sys else pure tt); remove_shm s.shm_id) s)

  abbrev pub assert_child : Action (Optimistic M Y) (Unit {0})
  assert_child s = (s, if has_child s then ok tt else assert_fails)

  -- `doLimbo`
  unfoldable pub do_limbo : Action (Optimistic M Y) (Unit {0})
  unfolding has_child
  do_limbo = do
    assert_child
    fail_time ← through_comm (on_system sys.read_fail_time)
    late ← gets (λ s. ltb s.min_next_time fail_time)
    (if late
        then (do
          fail_time' ← through_comm (on_system sys.read_fail_time)
          modify (set_spec_fail_time fail_time'))
        else (do
          action ← through_comm (on_system sys.read_action)
          (if action == action_failed
              then through_comm (change_system (sys.write_action action_do_fail_all))
              else pure tt)))

  -- `doFailAll`
  unfoldable pub do_fail_all : Action (Optimistic M Y) (Unit {0})
  unfolding has_child kill_child child_terminated
  do_fail_all = do
    assert_child
    through_comm (change_system (sys.write_fail_time 0))
    modify (set_spec_fail_time infinity)
    kill_child sys
    modify (child_terminated sys)

  -- `parentDie`: `Integrator::terminate` deletes the algorithm. It gives the status of the process.
  unfoldable pub parent_die : Action (Optimistic M Y) ℕ
  unfolding has_child destroy
  parent_die = do assert_child; destroy; pure 1

  -- `childDied`
  unfoldable pub child_died : Action (Optimistic M Y) (Unit {0})
  unfolding has_child kill_child child_terminated
  child_died = do
    assert_child
    fail_time ← through_comm (on_system sys.read_fail_time)
    modify (set_spec_fail_time fail_time)
    kill_child sys
    modify (child_terminated sys)
    modify (λ s. record s { st = speculation_failed s.spec_fail_time s.st })

  -- `checkChild`
  unfoldable pub check_child : (diff : ℕ) → Action (Optimistic M Y) (Unit {0})
  unfolding has_child child_died
  check_child diff s =
      if ltb 0 diff && has_child s
      then (child_died >> modify (set_spec_fail_time infinity)) s
      else (s, ok tt)

  -- The branches of `createSpeculativeProcess`; a status is given where the process exits.
  unfoldable pub after_fork : Fork → Action (Optimistic M Y) (Option ℕ)
  unfolding become_child got_child
  after_fork fork_failed = pure (some 0)
  after_fork in_child = modify (become_child sys) >> pure none
  after_fork (in_parent child) = modify (got_child sys child) >> pure none

  -- `createSpeculativeProcess`
  unfoldable pub create_speculative_process : Action (Optimistic M Y) (Option ℕ)
  unfolding after_fork
  create_speculative_process = do forked ← on_system sys.fork; after_fork forked

  module _ (fk : Forking M) where
    abbrev pub set_st : (Speculation → Speculation) → Optimistic M Y → Optimistic M Y
    set_st f s = record s { st = f s.st }

    -- After the fork: the child's part and the parent's
    unfoldable pub begin_speculation :
        (spec_next_time current_time : ℕ) → Action (Optimistic M Y) Turn
    unfolding attach_time_shm
    begin_speculation spec_next_time current_time s =
        if s.is_child
        then (do
          on_sync (ask fk.duplicate)
          modify (set_st (start_speculation current_time))
          modify (set_spec_fail_time infinity)
          attach_time_shm sys
          pure (goes spec_next_time))
            s
        else (do
          attach_time_shm sys
          on_sync (ask fk.duplicate)
          modify (set_st (start_speculation current_time))
          pure (goes 0))
            s

    -- After `createSpeculativeProcess`
    unfoldable pub go_on :
        (spec_next_time current_time : ℕ) → Option ℕ → Action (Optimistic M Y) Turn
    unfolding begin_speculation
    go_on spec_next_time current_time (some status) = pure (exits status)
    go_on spec_next_time current_time none = begin_speculation spec_next_time current_time

    -- What a parent does about the action that the simulators have agreed on
    unfoldable pub act : (global_action : ℕ) → Action (Optimistic M Y) Turn
    unfolding do_limbo do_fail_all child_died parent_die
    act global_action =
        if global_action == action_no_info
        then (do_limbo >> pure (goes 0))
        else (if global_action == action_do_fail_all
            then (do_fail_all >> pure (goes 0))
            else (if global_action == action_failed
                then (child_died >> pure (goes 0))
                else (if global_action == action_success
                    then (do status ← parent_die; pure (exits status))
                    else pure (goes 0))))

    -- `testSpeculationState`
    unfoldable pub test_speculation_state :
        (spec_next_time current_time : ℕ) → Action (Optimistic M Y) Turn
    unfolding has_child create_speculative_process go_on act
    test_speculation_state spec_next_time current_time s =
        if not (has_child s) && not (spec_next_time == 0)
        then (do
          on_sync (ask fk.prepare_fork)
          exited ← create_speculative_process
          go_on spec_next_time current_time exited)
            s
        else (if has_child s then act s.global_action s else (s, ok (goes 0)))

    -- `nodeReceivedMessage` and `nodeSentMessage`
    unfoldable pub node_received_message : Message → Action (Optimistic M Y) Bool
    unfolding detach_time_shm
    node_received_message given s =
        if s.is_child
        then (do
          through_comm (change_system (sys.write_action action_failed))
          detach_time_shm sys
          pure false)
            s
        else (s, ok true)

    unfoldable pub node_sent_message : Message → Action (Optimistic M Y) Bool
    unfolding detach_time_shm
    node_sent_message given s =
        if s.is_child
        then (do
          through_comm (change_system (sys.write_action action_failed))
          detach_time_shm sys
          on_sync (ask fk.block)
          pure false)
            s
        else (s, ok true)

    -- `timeStepStart`
    unfoldable pub time_step_start :
        Manager M → (current_time : ℕ) → Action (Optimistic M Y) (Unit {0})
    unfolding detach_time_shm become_parent create_time_shm
    time_step_start mg current_time s =
        if ltb current_time s.sync.granted_time
        then (if s.is_child && s.comm
            then change_system (sys.write_fail_time current_time) s
            else (s, ok tt))
        else (if s.is_child
            then (do
              on_sync (ask mg.waitfor_all)
              through_comm (change_system (sys.write_action action_success))
              detach_time_shm sys
              modify (become_parent sys)
              modify (set_spec_fail_time infinity)
              create_time_shm sys
              modify (set_st (speculation_succeeded current_time)))
                s
            else on_sync (ask mg.waitfor_all) s)

    -- The members that `OptimisticTickSyncAlgo::OptimisticTickSyncAlgo` sets, and the two that it leaves
    -- as they are; its callbacks are the two functions above.
    unfoldable pub fresh : (min_next_time global_action : ℕ) → Speculation → M → Y → Optimistic M Y
    fresh min_next_time global_action strategy current system = record {
      sync = new_sync 0 current;
      system = system;
      st = strategy;
      my_pid = sys.get_pid system;
      parent_pid = 0;
      child_pid = 0;
      is_child = false;
      is_parent = true;
      comm = false;
      shm_id = none;
      spec_fail_time = infinity;
      min_next_time = min_next_time;
      global_action = global_action;
    }

    -- `OptimisticTickSyncAlgo::OptimisticTickSyncAlgo`
    unfoldable pub new_optimistic :
        (min_next_time global_action : ℕ) → Speculation → M → Y → Optimistic M Y × Result (Unit {0})
    unfolding fresh create_time_shm
    new_optimistic min_next_time global_action strategy current system =
        (do
          raise_if (not (fk.supports_fork current)) sync_state_exception
          create_time_shm sys
          on_sync (ask (λ m. (fk.do_kill_on_term false m, ok tt))))
          (fresh min_next_time global_action strategy current system)
