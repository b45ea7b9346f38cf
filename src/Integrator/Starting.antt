-- ===== src/Integrator/Starting.antt =====
-- integrator.cpp: the functions by which a simulator makes its integrator without a configuration.
use fncs.Base.{ℕ, ℤ, Bool, true, false, ◌&&◌, Result, ok, ◌>>=◌}
use fncs.Time.{TimeMetric, convert_to_framework_time}
use fncs.Settings.{set_offset}
use fncs.Speculation.{Speculation}
use fncs.Network.Registry.{Registry}
use fncs.CommManager.{CommManager, Kind, grace_period, communication, new_comm_manager}
use fncs.Integrator.{new_settings}
use fncs.Config.{Made}
use fncs.Config.Factories.{
  Interface, Algorithm, grace_period_sync_algo, communicator_simulator, conservative_sleeping_comm,
  conservative_sleeping_tick, optimistic_tick, optimistic_comm,
}

-- What the functions make
abbrev pub Instance : Type 0
Instance = Made (CommManager Interface) Algorithm

-- The last two lines of each of them: the constructor, and the offset
unfoldable pub new_instance :
    Kind
    → Algorithm
    → (iam_network_sim : Bool) → Interface
    → (sim_time_step : TimeMetric) → (packet_lost_period initial_time onetimestep : ℕ)
    → Result Instance
unfolding new_settings set_offset
new_instance kind algo iam_network_sim current_interface sim_time_step packet_lost_period
      initial_time onetimestep =
    do
      members ← new_settings sim_time_step packet_lost_period onetimestep 0
      settings ← set_offset members initial_time
      ok (record {
        comm_manager = new_comm_manager kind current_interface;
        sync_algo = algo;
        settings = settings;
        am_net_sim = iam_network_sim;
      })

-- `initIntegratorGracePeriod`
unfoldable pub init_integrator_grace_period :
    (current_interface : Interface) (sim_time_step : TimeMetric)
    (packet_lost_period initial_time : ℕ) (onetimestep : ℕ)
    → Result Instance
unfolding new_instance
init_integrator_grace_period current_interface sim_time_step packet_lost_period initial_time
      onetimestep =
    new_instance grace_period grace_period_sync_algo false current_interface sim_time_step
      packet_lost_period initial_time onetimestep

-- `initIntegratorConservativeSleepingTick`
unfoldable pub init_integrator_conservative_sleeping_tick :
    (current_interface : Interface) (sim_time_step : TimeMetric)
    (packet_lost_period initial_time : ℕ) (numofpowersims : ℤ) (onetimestep : ℕ)
    → Result Instance
unfolding new_instance
init_integrator_conservative_sleeping_tick current_interface sim_time_step packet_lost_period
      initial_time numofpowersims onetimestep =
    new_instance grace_period (conservative_sleeping_tick numofpowersims) false current_interface
      sim_time_step packet_lost_period initial_time onetimestep

-- `initIntegratorConservativeSleepingComm`
unfoldable pub init_integrator_conservative_sleeping_comm :
    (current_interface : Interface) (sim_time_step : TimeMetric)
    (packet_lost_period initial_time : ℕ) (onetimestep : ℕ)
    → Result Instance
unfolding new_instance
init_integrator_conservative_sleeping_comm current_interface sim_time_step packet_lost_period
      initial_time onetimestep =
    new_instance communication conservative_sleeping_comm true current_interface sim_time_step
      packet_lost_period initial_time onetimestep

-- `initIntegratorCommunicationSim`
unfoldable pub init_integrator_communication_sim :
    (current_interface : Interface) (sim_time_step : TimeMetric)
    (packet_lost_period initial_time : ℕ) (onetimestep : ℕ)
    → Result Instance
unfolding new_instance
init_integrator_communication_sim current_interface sim_time_step packet_lost_period initial_time
      onetimestep =
    new_instance communication communicator_simulator true current_interface sim_time_step
      packet_lost_period initial_time onetimestep

-- `initIntegratorOptimistic`
unfoldable pub init_integrator_optimistic :
    (current_interface : Interface) (sim_time_step : TimeMetric)
    (packet_lost_period initial_time spec_difference : ℕ) (strategy : Speculation) (onetimestep : ℕ)
    → Result Instance
unfolding new_instance
init_integrator_optimistic current_interface sim_time_step packet_lost_period initial_time
      spec_difference strategy onetimestep =
    do
      spec_different_framework ← convert_to_framework_time sim_time_step spec_difference
      new_instance grace_period (optimistic_tick strategy) false current_interface sim_time_step
          packet_lost_period initial_time onetimestep

-- `initIntegratorOptimisticComm`
unfoldable pub init_integrator_optimistic_comm :
    (current_interface : Interface) (sim_time_step : TimeMetric)
    (packet_lost_period initial_time spec_difference : ℕ) (strategy : Speculation) (onetimestep : ℕ)
    → Result Instance
unfolding new_instance
init_integrator_optimistic_comm current_interface sim_time_step packet_lost_period initial_time
      spec_difference strategy onetimestep =
    do
      spec_different_framework ← convert_to_framework_time sim_time_step spec_difference
      new_instance communication (optimistic_comm strategy) true current_interface sim_time_step
          packet_lost_period initial_time onetimestep

-- `usesFork` of the algorithms, and `canFork`
unfoldable pub uses_fork : Algorithm → Bool
uses_fork (optimistic_tick st) = true
uses_fork (optimistic_comm st) = true
uses_fork other = false

unfoldable pub can_fork : Registry → Algorithm → Bool
unfolding uses_fork
can_fork interface algo = interface.can_fork && uses_fork algo
