-- ===== src/Integrator.antt =====
-- integrator.h and integrator.cpp: the calls of a simulator that go through to its communication manager
-- and its synchronisation algorithm. Callbacks of the simulator are left out. The simulator is `i` with
-- the time `t` of its time callback.
pub mod Advancing
pub mod Starting
use fncs.Base.{
  ℕ, Bool, true, false, Option, none, some, unknown_buffer_type, Result, ok, map_result, Name,
  sub64, add64, if◌then◌else◌,
}
use fncs.Base.Actions.{Action, pure, raise, lift, ◌>>=◌, ◌>>◌}
use fncs.Time.{TimeMetric, convert_to_my_time, convert_to_framework_time}
use fncs.Settings.{Settings}
use fncs.ObjectComm.{ObjectComm, Strategy, keep_first, keep_last, new_object_comm}
use fncs.Network.{Network}
use fncs.CommManager.{CommManager, get_object_interface, set_receiver}
use fncs.CommManager.Sending
use fncs.SyncAlgorithm.{Manager, Sync, ask}
use fncs.SyncAlgorithm

-- The members of the constructor that `Settings` holds
unfoldable pub new_settings :
    (sim_time_step : TimeMetric) (packet_lost_period onetimestep offset : ℕ) → Result Settings
new_settings sim_time_step packet_lost_period onetimestep offset =
    map_result
      (λ step. record {
        sim_time_metric = sim_time_step;
        offset = offset;
        packet_lost_period = packet_lost_period;
        one_time_step = step;
      })
      (convert_to_framework_time sim_time_step onetimestep)

-- `BufferStrategyType`; an `int` may be none of the three.
pub data BufferStrategyType : Type 0 where
  buffer_all buffer_first buffer_last other_type : BufferStrategyType

-- The manager, with the integrator's own `allowRegistrations`
pub record Integrator (S : Type 0) : Type 0 where
  pub allow_registrations : Bool
  pub sync : Sync (CommManager S)

module _ {S : Type 0} (i : Settings) (net : Network S) (t : ℕ) where
  abbrev pub on_manager : {A : Type 0} → Action (CommManager S) A → Action (Integrator S) A
  on_manager f s =
      let r = f s.sync.interface in (record s { sync = record s.sync { interface = r.0 } }, r.1)

  -- `getCommInterface(objectName)` and `getCommInterface(objectName, st)`. The object is the one that
  -- stands under the name.
  unfoldable pub get_comm_interface :
      (object_name : Name) → Option Strategy → Action (Integrator S) ObjectComm
  get_comm_interface object_name st s =
      if s.allow_registrations
      then (do
        on_manager
            (Sending.add_object_interface i net t object_name (new_object_comm object_name st))
        pure (new_object_comm object_name st))
          s
      else on_manager (get_object_interface object_name) s

  -- `getCommInterface(objectName, buffType)`
  unfoldable pub get_buffered_interface :
      (object_name : Name) → BufferStrategyType → Action (Integrator S) ObjectComm
  unfolding get_comm_interface
  get_buffered_interface object_name buffer_all = get_comm_interface object_name none
  get_buffered_interface object_name buffer_first = get_comm_interface object_name (some keep_first)
  get_buffered_interface object_name buffer_last = get_comm_interface object_name (some keep_last)
  get_buffered_interface object_name other_type = raise unknown_buffer_type

  -- `finalizeRegistrations`
  unfoldable pub finalize_registrations : Action (Integrator S) (Unit {0})
  finalize_registrations = do
    on_manager (Sending.finalize_registrations i net t)
    λ s. (record s { allow_registrations = false }, ok tt)
    on_manager (λ m. (set_receiver true m, ok tt))

module _ {M : Type 0} (i : Settings) (mg : Manager M) where
  -- `convertToFrameworkTime(instance->simTimeMetric,currentTime) - instance->offset`
  unfoldable pub framework_time : ℕ → Action (Sync M) ℕ
  framework_time time = do
    converted ← lift (convert_to_framework_time i.sim_time_metric time)
    pure (sub64 converted i.offset)

  -- `timeStepStart` and `grantTimeCompleted`
  unfoldable pub time_step_start : (current_time : ℕ) → Action (Sync M) (Unit {0})
  unfolding framework_time
  time_step_start current_time = do
    time ← framework_time current_time
    SyncAlgorithm.time_step_start mg time

  -- What `getNextTime` returns, from the algorithm's answer
  abbrev pub to_sim_time : Option ℕ → Action (Sync M) (Option ℕ)
  to_sim_time none = pure none
  to_sim_time (some to_return) = do
    sim_time ← lift (convert_to_my_time i.sim_time_metric (add64 to_return i.offset))
    pure (some sim_time)

  -- `getNextTime`, over the `GetNextTime` of the algorithm
  unfoldable pub get_next_time :
      (algorithm : (current_time next_time : ℕ) → Action (Sync M) (Option ℕ))
      (current_time next_time : ℕ)
      → Action (Sync M) (Option ℕ)
  unfolding framework_time
  get_next_time algorithm current_time next_time = do
    current ← framework_time current_time
    next ← framework_time next_time
    ask mg.send_all
    to_return ← algorithm current next
    to_sim_time to_return
