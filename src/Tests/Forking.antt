-- ===== src/Tests/Forking.antt =====
-- Instances of the theorems on the optimistic algorithms, over a system that keeps the processes that
-- were killed and one segment.
use fncs.Base.{
  ℕ, ◌+◌, ◌≡◌, refl, arith, Bool, true, false, not, some, ok, undefined, List, [], ◌∷◌, nat_key,
  ◌==◌, leb, ltb, if◌then◌else◌,
}
use fncs.Base.Actions.{Returns, ◌>>◌}
use fncs.Time.{infinity}
use fncs.Speculation.{increasing}
use fncs.SyncAlgorithm.{Manager, Sync, new_sync}
use fncs.SyncAlgorithm.Optimistic.{System, Forking, Optimistic, in_parent, action_success}
use fncs.SyncAlgorithm.Optimistic.Deciding.{
  act, node_received_message, time_step_start, new_optimistic,
}
use fncs.SyncAlgorithm.Optimistic.Comm
use fncs.SyncAlgorithm.Optimistic.Tick.{granted}
use fncs.SyncAlgorithm.Optimistic.Roles.{IsFork, IsProcess}
use fncs.SyncAlgorithm.Optimistic.Agreeing.{Kills, Agreed, act-Agreed}
use fncs.SyncAlgorithm.Optimistic.Deserting.{time_step_start-node_received_message}
use fncs.SyncAlgorithm.Optimistic.Histories.{follows, start, later, Reach-IsProcess}
use fncs.Tests.Mailbox.{settings}
use fncs.Tests.Messages.{bid}

abbrev others : Manager ℕ
others = record {
  send_all = λ m. (m, ok tt);
  waitfor_all = λ m. (m, ok tt);
  reduce_network_delay = λ m. (m, ok 0);
  reduce_total_send_receive = λ m. (m, ok 0);
  reduce_min_time = λ est m. let r = if leb est (m + 5) then est else m + 5 in (r, ok r);
  reduce_min_time_with_sleep =
      λ est sent m. let r = if leb est (m + 5) then est else m + 5 in (r, ok r);
  packet_lost_calculator = λ t m. (m, ok tt);
  reset_counters = λ m. m;
  respond = λ m. false;
}

abbrev federate : Sync ℕ
federate = record {
  interface = 10;
  finished = false;
  granted_time = 10;
  sent_message = false;
  next_sync_time = 0;
  diff = 0;
}

-- The segment's two values, and the processes that were killed
record Host : Type 0 where
  killed : List ℕ
  action : ℕ
  fail_time : ℕ

abbrev among : ℕ → List ℕ → Bool
among pid [] = false
among pid (p ∷ pids) = if pid == p then true else among pid pids

abbrev alive : Host → ℕ → Bool
alive h pid = not (among pid h.killed)

-- Fork always comes back in the parent.
abbrev host : System Host
host = record {
  fork = λ h. (h, in_parent 101);
  get_pid = λ h. 100;
  get_ppid = λ h. 1;
  kill = λ pid h. record h { killed = pid ∷ h.killed };
  wait = λ h. h;
  shm_get = λ key h. (h, some key);
  shm_at = λ id h. (h, true);
  shm_dt = λ h. (h, true);
  shm_remove = λ id h. h;
  read_action = λ h. (h, h.action);
  read_fail_time = λ h. (h, h.fail_time);
  write_action = λ action h. record h { action = action };
  write_fail_time = λ t h. record h { fail_time = t };
}

host-Kills : Kills host alive
host-Kills = record {
  detaches = λ h. refl;
  dies = λ pid h. ground arith;
  removes = λ n pid h. refl;
}

abbrev forking : Forking ℕ
forking = record {
  aggreate_reduce_min =
      λ (time, action) m. (m, ok (m + 5, if ltb action (m + 9) then action else m + 9));
  prepare_fork = λ m. (m, ok tt);
  duplicate = λ m. (m, ok tt);
  block = λ m. (m, ok tt);
  supports_fork = λ m. true;
  do_kill_on_term = λ kills m. m;
}

abbrev idle_host : Host
idle_host = record { killed = []; action = action_success; fail_time = 0 }

abbrev parent : Optimistic ℕ Host
parent = record {
  sync = federate;
  system = idle_host;
  st = record { strategy = increasing; spec_diff = 4; speculation_time = 10 };
  my_pid = 100;
  parent_pid = 0;
  child_pid = 101;
  is_child = false;
  is_parent = true;
  comm = true;
  shm_id = some 100;
  spec_fail_time = infinity;
  min_next_time = 15;
  global_action = action_success;
}

abbrev child : Optimistic ℕ Host
child = record parent { child_pid = 0; is_child = true; is_parent = false }

act-Agreed_example :
    Returns (Agreed alive action_success parent) (act host forking action_success parent)
act-Agreed_example =
    act-Agreed host alive host-Kills forking action_success parent (refl, refl, omega arith, refl)

time_step_start-node_received_message_example :
    Returns (λ s' b. b ≡ false) (node_received_message host forking bid child)
    × (((node_received_message host forking bid >> time_step_start host forking others 12) child).1
        ≡ undefined)
time_step_start-node_received_message_example =
    time_step_start-node_received_message host others forking (λ y. refl) (λ m. tt) bid 12 child
      refl refl (omega arith)

-- The process as it is constructed, and after its first time step
abbrev first : Optimistic ℕ Host
first = record {
  sync = new_sync 0 10;
  system = idle_host;
  st = record { strategy = increasing; spec_diff = 4; speculation_time = 0 };
  my_pid = 100;
  parent_pid = 0;
  child_pid = 0;
  is_child = false;
  is_parent = true;
  comm = false;
  shm_id = some 100;
  spec_fail_time = infinity;
  min_next_time = 0;
  global_action = 0;
}

abbrev forked : Optimistic ℕ Host
forked = (Comm.get_next_time host others forking 10 20 first).0

constructed :
    new_optimistic host forking 0 0
      (record { strategy = increasing; spec_diff = 4; speculation_time = 0 })
      10
      idle_host
    ≡ (first, ok tt)
unfolding new_optimistic
constructed = refl

stepped : Comm.get_next_time host others forking 10 20 first ≡ (forked, ok (granted 15))
unfolding Comm.get_next_time new_sync
stepped = refl

host-IsFork : (h : Host) → IsFork (host.fork h).1
host-IsFork h = omega arith

Reach-IsProcess_example : IsProcess forked
Reach-IsProcess_example = Reach-IsProcess settings host others forking host-IsFork (
    later
      (start 0 0 (record { strategy = increasing; spec_diff = 4; speculation_time = 0 }) 10
        idle_host constructed)
      (follows 10 20 15 stepped))

-- The process has become a parent in that step.
forked_parent : (forked.child_pid ≡ 101) × (forked.comm ≡ true)
unfolding Comm.get_next_time new_sync
forked_parent = (refl, refl)
