-- ===== src/SyncAlgorithm.antt =====
-- syncalgorithms/abssyncalgorithm.h and .cpp: what a synchronisation algorithm asks of its
-- communication manager, its state, and the members that all algorithms share. The simulation time
-- does not change during a call, so a manager of this interface stands at one time.
pub mod GracePeriod
pub mod ActiveSet
pub mod Communicator
pub mod Reactive
pub mod Stepping
pub mod Granting
pub mod Waking
pub mod Following
pub mod Reacting
pub mod Sleeping
pub mod Remembering
pub mod Keeping
pub mod Resting
pub mod Dozing
pub mod Answering
pub mod Optimistic
use fncs.Base.{ℕ, Bool, true, false, Option, none, some, Result, ok, ltb, if◌then◌else◌}
use fncs.Base.Actions.{Action, pure, modify, gets, ◌>>=◌, ◌>>◌}
use fncs.Settings.{Settings}
use fncs.Network.{Network}
use fncs.CommManager.{CommManager, reset_counters}
use fncs.CommManager.Receiving.{packet_lost_calculator}
use fncs.CommManager.Sending

pub record Manager (M : Type 0) : Type 0 where
  pub send_all : Action M (Unit {0})
  pub waitfor_all : Action M (Unit {0})
  pub reduce_network_delay : Action M ℕ
  pub reduce_total_send_receive : Action M ℕ
  pub reduce_min_time : ℕ → Action M ℕ
  pub reduce_min_time_with_sleep : ℕ → Bool → Action M ℕ
  pub packet_lost_calculator : ℕ → Action M (Unit {0})
  pub reset_counters : M → M
  -- The flag that the callback of the algorithm has set
  pub respond : M → Bool

-- The communication manager of a simulator as such an interface
unfoldable pub comm_manager :
    {S : Type 0} → Settings → Network S → (t : ℕ) → Manager (CommManager S)
comm_manager i net t = record {
  send_all = Sending.send_all i net t;
  waitfor_all = Sending.waitfor_all i net t;
  reduce_network_delay = Sending.reduce_network_delay i net t;
  reduce_total_send_receive = Sending.reduce_total_send_receive i net t;
  reduce_min_time = Sending.reduce_min_time i net t;
  reduce_min_time_with_sleep = Sending.reduce_min_time_with_sleep i net t;
  packet_lost_calculator = packet_lost_calculator i;
  reset_counters = reset_counters;
  respond = λ m. m.respond;
}

-- The members of the algorithms; `sent_message` is one of `ActiveSetConservativeTick`,
-- `next_sync_time` one of `EpochsSyncalgortihm`, and `diff` one of `ConservativeSleepingCommAlgo`.
pub record Sync (M : Type 0) : Type 0 where
  pub interface : M
  pub finished : Bool
  pub granted_time : ℕ
  pub sent_message : Bool
  pub next_sync_time : ℕ
  pub diff : ℕ

module _ {M : Type 0} where
  -- `AbsSyncAlgorithm::AbsSyncAlgorithm`, with what the subclasses start with
  unfoldable pub new_sync : (syncinterval : ℕ) → M → Sync M
  new_sync syncinterval current = record {
    interface = current;
    finished = false;
    granted_time = 0;
    sent_message = false;
    next_sync_time = syncinterval;
    diff = 0;
  }

  unfoldable pub is_finished : Sync M → Bool
  is_finished s = s.finished

  -- `needsSync`
  unfoldable pub needs_sync : (next_time : ℕ) → Sync M → ℕ
  needs_sync next_time s = if ltb next_time s.granted_time then s.granted_time else next_time

  -- A call of the manager
  abbrev pub ask : {A : Type 0} → Action M A → Action (Sync M) A
  ask f s = let r = f s.interface in (record s { interface = r.0 }, r.1)

  abbrev pub grant : (t : ℕ) → Sync M → Sync M
  grant t s = record s { granted_time = t }

  abbrev pub finish : Sync M → Sync M
  finish s = record s { finished = true }

  -- `timeStepStart`
  unfoldable pub time_step_start : Manager M → (current_time : ℕ) → Action (Sync M) (Unit {0})
  time_step_start mg current_time s =
      if ltb current_time s.granted_time
      then (s, ok tt)
      else (ask mg.send_all >> ask mg.waitfor_all) s

-- How a round of an algorithm's loop ends: it is repeated with these values of the current time, of
-- `needToRespond` and of `busywait`, or the call returns.
pub data Round : Type 0 where
  again : (current_time : ℕ) (need_to_respond busywait : Bool) → Round
  returns : (t : ℕ) → Round
